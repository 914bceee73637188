-- ===== src/Main/System.antt =====
-- The program as it runs: the thread of a scheduler beside the thread of `main`, which looks at the
-- height of a task. The steps of the two come in any order. A throw ends the program: it is no step.
use fidinventor.Base.{
  ◌≡◌, Bool, true, false, Option, none, some, List, [], ◌∷◌, ◌++◌, ℤ, pos, negsuc, ◌+ℤ◌, eq_ℤ,
  if◌then◌else◌,
}
use fidinventor.Base.Result.{ok}
use fidinventor.Handler.World.{Env, World}
use fidinventor.Task.Types.{Task}
use fidinventor.Task.Run.{call}
use fidinventor.Task.Schedule.{Round, start_round, note_task, get_task}
use fidinventor.Thread.{created, working, Thread, new_thread, run, do_work, end_work}

-- A look of `initGensisBlock` at the height of its task: what the loop leaves, once it ends.
unfoldable pub await_look : Option ℤ → ℤ → Option ℤ
await_look (some height) h = some height
await_look none h = if eq_ℤ h (negsuc 0) then none else some (h +ℤ pos 1)

-- The looks of `initGensisBlock` one by one: the heights that it has read.
unfoldable pub note_look : List ℤ → ℤ → List ℤ
note_look readings h = readings ++ h ∷ []

-- A look of `main` at the height of its task: the global `height`.
unfoldable pub follow_look : ℤ → ℤ → ℤ
follow_look height h = if eq_ℤ h (negsuc 0) then height else h

-- The thread of a scheduler, its list (the tasks of this round that are done, and those ahead), the
-- world, and what `main` has seen.
pub record System (F M : Type 0) : Type 0 where
  pub thread : Thread
  pub round : Round
  pub ahead : List Task
  pub world : World F
  pub seen : M

-- The state of a program that has just started the thread of a scheduler with one task.
abbrev pub started : {F M : Type 0} → Task → World F → M → System F M
started task w seen = record {
  thread = run new_thread;
  round = start_round;
  ahead = task ∷ [];
  world = w;
  seen = seen;
}

module _ (env : Env) {M : Type 0} (once : Bool) (storage seq : ℤ) (look : M → ℤ → M) where
  open env use {floats.{Float}}

  -- The list of the scheduler, as `getTask` finds it.
  abbrev pub listed : System Float M → List Task
  listed s = s.round.tasks ++ s.ahead

  pub data Step (s s' : System Float M) : Type 0 where
    -- The thread begins.
    begins :
        s.thread.m_thread ≡ some created → s' ≡ record s { thread = do_work s.thread } → Step s s'
    -- The next task is called, and its height is put back into the list.
    calls :
        (t done : Task) (ts : List Task) (w : World Float)
        → s.thread.m_thread ≡ some working
        → s.ahead ≡ t ∷ ts
        → call env t s.world ≡ (ok done, w)
        → s' ≡ record s { round = note_task t done s.round; ahead = ts; world = w }
        → Step s s'
    -- Behind the last task, a scheduler that goes on starts the next round.
    repeats :
        s.thread.m_thread ≡ some working
        → s.ahead ≡ []
        → once ≡ false
        → s' ≡ record s { round = start_round; ahead = s.round.tasks }
        → Step s s'
    -- Behind the last task, a scheduler that runs once ends.
    ends :
        s.thread.m_thread ≡ some working
        → s.ahead ≡ []
        → once ≡ true
        → s' ≡ record s { thread = end_work s.thread }
        → Step s s'
    -- `main` looks at its task.
    looks :
        s' ≡ record s { seen = look s.seen (get_task storage seq (listed s)).height } → Step s s'

  pub data Reach (s : System Float M) : System Float M → Type 0 where
    here : Reach s s
    next : {t u : System Float M} → Reach s t → Step t u → Reach s u
