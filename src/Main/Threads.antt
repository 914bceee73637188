-- ===== src/Main/Threads.antt =====
-- The thread of a scheduler: when `deleteThreadSafe` deletes it, and that `work()` makes its steps.
use mathlib.Core.Path.{subst}
use fidinventor.Base.{
  ◌≡◌, refl, ap, sym, ◌⊎◌, inl, inr, Bool, true, false, some, List, [], ◌∷◌, ℤ, pos,
}
use fidinventor.Base.Result.{Result, ok, undefined, ok-injective}
use fidinventor.Handler.World.{Env, World, pure, lift, ◌>>=◌}
use fidinventor.Handler.Frames.{continue-ok}
use fidinventor.Task.Types.{Task}
use fidinventor.Task.Run.{call}
use fidinventor.Task.Schedule.{Round, Loop, start_round, note_task, run_tasks, after_tasks, work}
use fidinventor.Task.Rounds.{after_tasks-same}
use fidinventor.Thread.{
  created, working, finished, Thread, run, do_work, end_work, destroy, delete_thread_safe,
}
use fidinventor.Main.System.{
  System, Step, Reach, begins, calls, repeats, ends, looks, here, next, started,
}

-- A state in which the thread works.
abbrev pub at_tasks : {F M : Type 0} → Round → List Task → World F → M → System F M
at_tasks round ahead w seen = record {
  thread = record { m_thread = some working; running = pos 1 };
  round = round;
  ahead = ahead;
  world = w;
  seen = seen;
}

module _ (env : Env) {M : Type 0} (once : Bool) (storage seq : ℤ) (look : M → ℤ → M) where
  open env use {floats.{Float}}

  -- How far the thread is: it has not begun, it works, or it has ended behind its last task.
  data Standing (w : World Float) (s : System Float M) : Type 0 where
    not_begun :
        s.thread ≡ record { m_thread = some created; running = pos 0 } → s.world ≡ w → Standing w s
    at_work : s.thread ≡ record { m_thread = some working; running = pos 1 } → Standing w s
    at_end :
        s.thread ≡ record { m_thread = some finished; running = pos 1 }
        → once ≡ true
        → s.ahead ≡ []
        → Standing w s

  -- A thread that works is at work.
  thread_at_work :
      (w : World Float) (s : System Float M)
      → Standing w s
      → s.thread.m_thread ≡ some working
      → s.thread ≡ record { m_thread = some working; running = pos 1 }
  thread_at_work w s (not_begun t same) m = absurd (cc (ap (λ (x : Thread). x.m_thread) t, m))
  thread_at_work w s (at_work t) m = t
  thread_at_work w s (at_end t o a) m = absurd (cc (ap (λ (x : Thread). x.m_thread) t, m))

  Step-Standing :
      {s s' : System Float M} (w : World Float)
      → Standing w s
      → Step env once storage seq look s s'
      → Standing w s'
  unfolding do_work end_work
  Step-Standing {s} w p (begins _ e) = rw e (at_work refl)
  Step-Standing {s} w p (ends m a o e) =
      let t = thread_at_work w s p m in
      rw e (at_end (ap (λ (x : Thread). record x { m_thread = some finished }) t) o a)
  Step-Standing {s} w (not_begun t same) (looks e) = rw e (not_begun t same)
  Step-Standing {s} w (at_work t) (looks e) = rw e (at_work t)
  Step-Standing {s} w (at_end t o a) (looks e) = rw e (at_end t o a)
  Step-Standing {s} w p (calls t done ts w' m a e h) = rw h (at_work (thread_at_work w s p m))
  Step-Standing {s} w p (repeats m a _ e) = rw e (at_work (thread_at_work w s p m))

  standing :
      (task : Task) (w : World Float) (seen : M) {s : System Float M}
      → Reach env once storage seq look (started task w seen) s
      → Standing w s
  unfolding run
  standing task w seen here = not_begun refl refl
  standing task w seen (next r step) = Step-Standing w (standing task w seen r) step

  -- `deleteThreadSafe` for a scheduler that was started, whatever steps the two threads have made: it
  -- gives 0, and deletes nothing, as long as the thread has not begun, when nothing was asked and
  -- nothing was sent; it has no meaning while the thread works, whose list of tasks it destroys; and it
  -- gives 1, for a deletion that is safe, only for a scheduler that runs once, and behind its last task.
  pub delete_thread_safe-started :
      (task : Task) (w : World Float) (seen : M) {s : System Float M}
      → Reach env once storage seq look (started task w seen) s
      → ((delete_thread_safe (some s.thread) ≡ ok (pos 0))
          × (s.thread.running ≡ pos 0)
          × (s.world ≡ w))
        ⊎ ((delete_thread_safe (some s.thread) ≡ undefined) × (s.thread.m_thread ≡ some working))
        ⊎ ((delete_thread_safe (some s.thread) ≡ ok (pos 1)) × (once ≡ true) × (s.ahead ≡ []))
  unfolding delete_thread_safe destroy
  delete_thread_safe-started task w seen {s} r = by_standing (standing task w seen r)
    where
      by_standing :
          Standing w s
          → ((delete_thread_safe (some s.thread) ≡ ok (pos 0))
              × (s.thread.running ≡ pos 0)
              × (s.world ≡ w))
            ⊎ ((delete_thread_safe (some s.thread) ≡ undefined)
                × (s.thread.m_thread ≡ some working))
            ⊎ ((delete_thread_safe (some s.thread) ≡ ok (pos 1)) × (once ≡ true) × (s.ahead ≡ []))
      by_standing (not_begun t same) =
          inl (ap (λ x. delete_thread_safe (some x)) t, ap (λ (x : Thread). x.running) t, same)
      by_standing (at_work t) =
          inr (inl (ap (λ x. delete_thread_safe (some x)) t, ap (λ (x : Thread). x.m_thread) t))
      by_standing (at_end t o a) = inr (inr (ap (λ x. delete_thread_safe (some x)) t, o, a))

  -- Runs one behind the other.
  pub Reach-trans :
      {s t u : System Float M}
      → Reach env once storage seq look s t
      → Reach env once storage seq look t u
      → Reach env once storage seq look s u
  Reach-trans r here = r
  Reach-trans r (next q step) = next (Reach-trans r q) step

  -- The loop over the tasks makes steps.
  run_tasks-Reach :
      (ts : List Task) (round : Round) (w : World Float) (seen : M) {round' : Round}
      {w' : World Float}
      → run_tasks env ts round w ≡ (ok round', w')
      → Reach env once storage seq look (at_tasks round ts w seen) (at_tasks round' [] w' seen)
  unfolding run_tasks ◌>>=◌ pure
  run_tasks-Reach [] round w seen h =
      let same = ok-injective (ap (λ (r : Result Round × World Float). r.0) h) in
      let same_world = ap (λ (r : Result Round × World Float). r.1) h in
      subst
        (λ (x : Round × World Float).
          Reach env once storage seq look (at_tasks round [] w seen) (at_tasks x.0 [] x.1 seen))
        (λ i. (same i, same_world i)) here
  run_tasks-Reach (t ∷ ts) round w seen h =
      let (done, w₁, e₁, h₁) = continue-ok (call env t w) _ h in
      Reach-trans (next here (calls t done ts w₁ refl refl e₁ refl))
        (run_tasks-Reach ts (note_task t done round) w₁ seen h₁)

module _ (env : Env) {M : Type 0} (storage seq : ℤ) (look : M → ℤ → M) where
  open env use {floats.{Float}}

  moved :
      (ts : List Task) (w : World Float) (seen : M) {us vs : List Task} {w₁ w₂ : World Float}
      → us ≡ vs
      → w₁ ≡ w₂
      → Reach env false storage seq look
          (at_tasks start_round ts w seen)
          (at_tasks start_round us w₁ seen)
      → Reach env false storage seq look
          (at_tasks start_round ts w seen)
          (at_tasks start_round vs w₂ seen)
  moved ts w seen e d r =
      subst
        (λ (x : List Task × World Float).
          Reach env false storage seq look (at_tasks start_round ts w seen)
            (at_tasks start_round x.0 x.1 seen))
        (λ i. (e i, d i)) r

  -- Rounds of `work()` that return, for a scheduler that goes on, are steps of its thread: from the
  -- tasks of the list before them to the tasks behind them, with the calls and the statements that the
  -- rounds made; and `main` has not looked in between.
  pub work-Reach :
      (times : List (ℤ × ℤ)) (loop : Loop) (w : World Float) (seen : M) {last : Loop}
      {diffs : List ℤ} {w' : World Float}
      → work env false times loop w ≡ (ok (last, diffs), w')
      → Reach env false storage seq look
          (at_tasks start_round loop.tasks w seen)
          (at_tasks start_round last.tasks w' seen)
  unfolding work ◌>>=◌ pure lift
  work-Reach [] loop w seen h =
      let done = ok-injective (ap (λ (r : Result (Loop × List ℤ) × World Float). r.0) h) in
      moved loop.tasks w seen (ap (λ (r : Loop × List ℤ). r.0.tasks) done)
        (ap (λ (r : Result (Loop × List ℤ) × World Float). r.1) h) here
  work-Reach ((t2, t1) ∷ times) loop w seen {last} h =
      let (round, w₁, e₁, h₁) = continue-ok (run_tasks env loop.tasks start_round w) _ h in
      let ((then_loop, diff), w₂, e₂, h₂) =
        continue-ok (lift (after_tasks t2 t1 loop round) w₁) _ h₁ in
      let ((end, more), w₃, e₃, h₃) = continue-ok (work env false times then_loop w₂) _ h₂ in
      let before =
        next (run_tasks-Reach env false storage seq look loop.tasks start_round w seen e₁)
          (repeats refl refl refl refl) in
      let same = sym (
        after_tasks-same t2 t1 loop round (ap (λ (r : Result (Loop × ℤ) × World Float). r.0) e₂)) in
      let same_world = ap (λ (r : Result (Loop × ℤ) × World Float). r.1) e₂ in
      let done = ok-injective (ap (λ (r : Result (Loop × List ℤ) × World Float). r.0) h₃) in
      let end_world = ap (λ (r : Result (Loop × List ℤ) × World Float). r.1) h₃ in
      let after =
        Reach-trans env false storage seq look (moved loop.tasks w seen same same_world before)
          (work-Reach times then_loop w₂ seen e₃) in
      moved loop.tasks w seen (ap (λ (r : Loop × List ℤ). r.0.tasks) done) end_world after
