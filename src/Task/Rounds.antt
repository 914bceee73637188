-- ===== src/Task/Rounds.antt =====
-- What the rounds of a scheduler leave of its tasks.
use fidinventor.Base.{
  ◌≡◌, refl, ap, sym, ◌∙◌, Bool, true, false, not, List, [], ◌∷◌, ◌++◌, append_assoc, append-nil, ℤ,
  pos, ◌+ℤ◌, eq_ℤ, if◌then◌else◌,
}
use fidinventor.Base.Result.{Result, ok, throw, undefined, ok-injective}
use fidinventor.Handler.World.{Env, World, pure, lift, ◌>>=◌}
use fidinventor.Handler.Frames.{continue-ok}
use fidinventor.Task.Types.{Task}
use fidinventor.Task.Run.{call}
use fidinventor.Task.Schedule.{
  Round, Loop, slept, next_loop, note_task, run_tasks, start_round, after_tasks, work,
}

-- The same tasks in the same order, but for their heights.
abbrev pub SameButHeight : List Task → List Task → Type 0
SameButHeight [] [] = Unit
SameButHeight (t ∷ ts) (u ∷ us) = (record t { height = u.height } ≡ u) × SameButHeight ts us
SameButHeight [] (u ∷ us) = ⊥
SameButHeight (t ∷ ts) [] = ⊥

same_refl : (ts : List Task) → SameButHeight ts ts
same_refl [] = tt
same_refl (t ∷ ts) = (refl, same_refl ts)

same_trans :
    (ts us vs : List Task) → SameButHeight ts us → SameButHeight us vs → SameButHeight ts vs
same_trans [] [] vs h k = k
same_trans (t ∷ ts) (u ∷ us) (v ∷ vs) (h, hs) (k, ks) =
    (ap (λ (x : Task). record x { height = v.height }) h ∙ k, same_trans ts us vs hs ks)
same_trans [] (u ∷ us) vs h k = absurd h
same_trans (t ∷ ts) [] vs h k = absurd h
same_trans (t ∷ ts) (u ∷ us) [] h k = absurd k

same-to : (ts us vs : List Task) → us ≡ vs → SameButHeight ts us → SameButHeight ts vs
same-to ts us vs e h = rw e at h

-- The height that a call puts back into the list.
abbrev pub put_back : Task → ℤ
put_back done = if eq_ℤ done.status (pos 1) then done.height +ℤ pos 1 else done.height

-- A call puts back the listed task with that height.
pub note_task-appends :
    (listed done : Task) (round : Round)
    → (note_task listed done round).tasks
      ≡ round.tasks ++ record listed { height = put_back done } ∷ []
unfolding note_task
note_task-appends listed done round = by_status (eq_ℤ done.status (pos 1))
  where
    by_status :
        (b : Bool)
        → (if b
            then record {
              tasks = round.tasks ++ record listed { height = done.height +ℤ pos 1 } ∷ [];
              bktimelast = done.bktime;
              go_on = false;
            }
            else record round {
              tasks = round.tasks ++ record listed { height = done.height } ∷ [];
              go_on = true;
            }).tasks
          ≡ round.tasks
            ++ record listed { height = (if b then done.height +ℤ pos 1 else done.height) } ∷ []
    by_status true = refl
    by_status false = refl

slept-next :
    (next : Loop) (go_on : Bool) (r : Result ℤ) {next' : Loop} {diff : ℤ}
    → slept next go_on r ≡ ok (next', diff)
    → next ≡ next'
slept-next next go_on (ok d) h = ap (λ (p : Loop × ℤ). p.0) (ok-injective h)
slept-next next go_on (throw e) h = absurd (cc)
slept-next next go_on undefined h = absurd (cc)

next_loop-tasks :
    (t1 : ℤ) (loop : Loop) (round : Round) → (next_loop t1 loop round).tasks ≡ round.tasks
next_loop-tasks t1 loop round = by_time (not (eq_ℤ round.bktimelast (pos 0)))
  where
    by_time :
        (b : Bool)
        → (if b
            then record { tasks = round.tasks; bktime = round.bktimelast; t1 = t1 }
            else record loop { tasks = round.tasks }).tasks
          ≡ round.tasks
    by_time true = refl
    by_time false = refl

pub after_tasks-same :
    (t2 t1 : ℤ) (loop : Loop) (round : Round) {next : Loop} {diff : ℤ}
    → after_tasks t2 t1 loop round ≡ ok (next, diff)
    → next.tasks ≡ round.tasks
unfolding after_tasks
after_tasks-same t2 t1 loop round h =
    sym (ap (λ (l : Loop). l.tasks) (slept-next _ round.go_on _ h)) ∙ next_loop-tasks t1 loop round

module _ (env : Env) where
  open env use {floats.{Float}}

  pub run_tasks-same :
      (ts : List Task) (round : Round) (w : World Float) {round' : Round} {w' : World Float}
      → run_tasks env ts round w ≡ (ok round', w')
      → (us : List Task) × (round'.tasks ≡ round.tasks ++ us) × SameButHeight ts us
  unfolding run_tasks ◌>>=◌ pure
  run_tasks-same [] round w h = (
    [],
    sym (
          ap (λ (r : Round). r.tasks)
            (ok-injective (ap (λ (r : Result Round × World Float). r.0) h)))
        ∙ sym (append-nil round.tasks),
    tt,
  )
  run_tasks-same (t ∷ ts) round w h =
      let (done, w₁, e₁, h₁) = continue-ok (call env t w) _ h in
      let noted = note_task-appends t done round in
      let (us, rest, same) = run_tasks-same ts (note_task t done round) w₁ h₁ in
      (
        record t { height = put_back done } ∷ us,
        rest
            ∙ ap (λ l. l ++ us) noted
            ∙ append_assoc round.tasks (record t { height = put_back done } ∷ []) us,
        (refl, same),
      )

  -- Whatever node and database do, rounds that return leave the tasks of the scheduler in their order,
  -- each with its number, its type and its command: the height is all that changes.
  pub work-SameButHeight :
      (once : Bool) (times : List (ℤ × ℤ)) (loop : Loop) (w : World Float) {last : Loop}
      {diffs : List ℤ} {w' : World Float}
      → work env once times loop w ≡ (ok (last, diffs), w')
      → SameButHeight loop.tasks last.tasks
  unfolding work ◌>>=◌ pure lift start_round
  work-SameButHeight once [] loop w h =
      let done = ok-injective (ap (λ (r : Result (Loop × List ℤ) × World Float). r.0) h) in
      rw (← ap (λ (r : Loop × List ℤ). r.0.tasks) done) (same_refl loop.tasks)
  work-SameButHeight true (now ∷ times) loop w h =
      let (round, w₁, e₁, h₁) = continue-ok (run_tasks env loop.tasks start_round w) _ h in
      let (us, rest, same) = run_tasks-same loop.tasks start_round w e₁ in
      let done = ok-injective (ap (λ (r : Result (Loop × List ℤ) × World Float). r.0) h₁) in
      rw (← ap (λ (r : Loop × List ℤ). r.0.tasks) done, rest) same
  work-SameButHeight false ((t2, t1) ∷ times) loop w h =
      let (round, w₁, e₁, h₁) = continue-ok (run_tasks env loop.tasks start_round w) _ h in
      let (us, rest, same) = run_tasks-same loop.tasks start_round w e₁ in
      let ((next, diff), w₂, e₂, h₂) = continue-ok (lift (after_tasks t2 t1 loop round) w₁) _ h₁ in
      let ((end, more), w₃, e₃, h₃) = continue-ok (work env false times next w₂) _ h₂ in
      let later = work-SameButHeight false times next w₂ e₃ in
      let done = ok-injective (ap (λ (r : Result (Loop × List ℤ) × World Float). r.0) h₃) in
      let begun =
        same-to loop.tasks us next.tasks
          (sym (
            after_tasks-same t2 t1 loop round (ap (λ (r : Result (Loop × ℤ) × World Float). r.0) e₂)
            ∙ rest))
          same in
      same-to loop.tasks end.tasks _ (ap (λ (r : Loop × List ℤ). r.0.tasks) done)
        (same_trans loop.tasks next.tasks end.tasks begun later)
