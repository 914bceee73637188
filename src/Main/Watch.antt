-- ===== src/Main/Watch.antt =====
-- The loop of `initGensisBlock` by the heights that it reads of the thread's list.
use fidinventor.Base.{
  ◌≡◌, refl, ap, ◌∙◌, Bool, true, false, Option, none, some, List, [], ◌∷◌, ℤ, pos, negsuc, ◌+ℤ◌,
  eq_ℤ, if◌then◌else◌,
}
use fidinventor.Handler.World.{Env}
use fidinventor.Main.{await_height}
use fidinventor.Main.System.{
  System, Step, Reach, begins, calls, repeats, ends, looks, here, next, await_look, note_look,
}

-- What the loop leaves by the readings so far.
abbrev pub awaited : Option ℤ → Option ℤ
awaited none = none
awaited (some h) = some (h +ℤ pos 1)

abbrev pub first_set : Option ℤ → ℤ → Option ℤ
first_set (some x) h = some x
first_set none h = if eq_ℤ h (negsuc 0) then none else some h

-- One more reading counts only where none before it was set.
await_height-note_look :
    (readings : List ℤ) (h : ℤ)
    → await_height (note_look readings h) ≡ first_set (await_height readings) h
unfolding await_height note_look
await_height-note_look [] h = refl
await_height-note_look (r ∷ readings) h =
    by_test (eq_ℤ r (negsuc 0)) (await_height-note_look readings h)
  where
    by_test :
        (b : Bool)
        → await_height (note_look readings h) ≡ first_set (await_height readings) h
        → (if b then await_height (note_look readings h) else some r)
          ≡ first_set (if b then await_height readings else some r) h
    by_test true e = e
    by_test false e = refl

awaited-first_set : (o : Option ℤ) (h : ℤ) → awaited (first_set o h) ≡ await_look (awaited o) h
unfolding await_look
awaited-first_set (some x) h = refl
awaited-first_set none h = by_test (eq_ℤ h (negsuc 0))
  where
    by_test :
        (b : Bool) → awaited (if b then none else some h) ≡ (if b then none else some (h +ℤ pos 1))
    by_test true = refl
    by_test false = refl

-- The same state with what the loop leaves in place of the readings.
abbrev pub watching : {F : Type 0} → System F (List ℤ) → System F (Option ℤ)
watching s = record {
  thread = s.thread;
  round = s.round;
  ahead = s.ahead;
  world = s.world;
  seen = awaited (await_height s.seen);
}

module _ (env : Env) (storage seq : ℤ) where
  open env use {floats.{Float}}

  Step-watching :
      {s s' : System Float (List ℤ)}
      → Step env true storage seq note_look s s'
      → Step env true storage seq await_look (watching s) (watching s')
  Step-watching (begins m e) = begins m (ap watching e)
  Step-watching (calls t done ts w m a e h) = calls t done ts w m a e (ap watching h)
  Step-watching (repeats m a o e) = repeats m a o (ap watching e)
  Step-watching (ends m a o e) = ends m a o (ap watching e)
  Step-watching {s} (looks e) = looks (
      ap watching e
      ∙ ap (λ (o : Option ℤ). record (watching s) { seen = o })
          (ap awaited (await_height-note_look s.seen _)
            ∙ awaited-first_set (await_height s.seen) _))

  pub Reach-watching :
      {s s' : System Float (List ℤ)}
      → Reach env true storage seq note_look s s'
      → Reach env true storage seq await_look (watching s) (watching s')
  Reach-watching here = here
  Reach-watching (next r step) = next (Reach-watching r) (Step-watching step)
