-- ===== src/Task/Schedule.antt =====
-- `CFidTaskSchedule`: registering tasks, finding one, and the rounds of `work()`.
use fidinventor.Base.{
  Bool, true, false, List, [], ◌∷◌, ◌++◌, ℤ, pos, ◌+ℤ◌, ◌-ℤ◌, eq_ℤ, not, if◌then◌else◌,
}
use fidinventor.Base.Text.{Bytes}
use fidinventor.Base.Result.{Result, ok}
use fidinventor.Handler.World.{Env, Action, pure, lift, ◌>>=◌}
use fidinventor.Task.Types.{TaskType, Task, empty_task, new_task}
use fidinventor.Task.Run.{call}
use fidinventor.Task.Pause.{adjusttime, pause}

-- The list of a scheduler, and the counter `CFidTaskSchedule::sequence` that all share.
pub record Registry : Type 0 where
  pub tasks : List Task
  pub sequence : ℤ

-- `getSeq()`
unfoldable pub get_seq : Registry → ℤ × Registry
get_seq r = (r.sequence, record r { sequence = r.sequence +ℤ pos 1 })

-- `registerTask(type, command)`: the number of the task, and the registry.
unfoldable pub register_task : ℤ → TaskType → Bytes → Registry → ℤ × Registry
unfolding get_seq new_task
register_task storage type command r =
    let (seq, r') = get_seq r in
    (
      seq,
      record r' {
        tasks = r'.tasks ++ record (new_task storage type command) { sequence = seq } ∷ [];
      },
    )

-- `getTask(seq)` from a position of the list on; `task` is the local that each round assigns.
unfoldable pub find_task : ℤ → Task → List Task → Task
find_task seq task [] = task
find_task seq task (t ∷ ts) =
    let rest = find_task seq t ts in if eq_ℤ seq t.sequence then t else rest

-- `getTask(seq)`
unfoldable pub get_task : ℤ → ℤ → List Task → Task
unfolding find_task empty_task
get_task storage seq tasks = find_task seq (empty_task storage) tasks

-- What a round of `work()` carries on: the tasks done so far, `bktimelast` and `bContinue`.
pub record Round : Type 0 where
  pub tasks : List Task
  pub bktimelast : ℤ
  pub go_on : Bool

-- After a call, only the height goes back into the list: one more after success.
unfoldable pub note_task : Task → Task → Round → Round
note_task listed done round =
    if eq_ℤ done.status (pos 1)
    then record {
      tasks = round.tasks ++ record listed { height = done.height +ℤ pos 1 } ∷ [];
      bktimelast = done.bktime;
      go_on = false;
    }
    else record round {
      tasks = round.tasks ++ record listed { height = done.height } ∷ [];
      go_on = true;
    }

-- The variables of `work()` that outlive a round.
pub record Loop : Type 0 where
  pub tasks : List Task
  pub bktime : ℤ
  pub t1 : ℤ

unfoldable pub start_round : Round
start_round = record { tasks = []; bktimelast = pos 0; go_on = false }

-- The variables for the next round; `t1` is the time behind the output.
abbrev pub next_loop : ℤ → Loop → Round → Loop
next_loop t1 loop round =
    if not (eq_ℤ round.bktimelast (pos 0))
    then record { tasks = round.tasks; bktime = round.bktimelast; t1 = t1 }
    else record loop { tasks = round.tasks }

-- The time that is slept, `bContinue?adjusttime:diff`.
abbrev pub slept : Loop → Bool → Result ℤ → Result (Loop × ℤ)
slept next go_on (ok diff) = ok (next, (if go_on then adjusttime else diff))
slept next go_on (Result.throw e) = Result.throw e
slept next go_on Result.undefined = Result.undefined

-- What follows the tasks: the new variables, and the time to sleep. `t2` is the time then.
unfoldable pub after_tasks : ℤ → ℤ → Loop → Round → Result (Loop × ℤ)
unfolding pause
after_tasks t2 t1 loop round =
    slept (next_loop t1 loop round) round.go_on (pause round.bktimelast loop.bktime (t2 -ℤ loop.t1))

module _ (env : Env) where
  open env use {floats.{Float}}

  -- The loop over the tasks.
  unfoldable pub run_tasks : List Task → Round → Action Float Round
  unfolding call note_task ◌>>=◌ pure
  run_tasks [] round = pure round
  run_tasks (t ∷ ts) round = do done ← call env t; run_tasks ts (note_task t done round)

  -- `work()` over the clock readings of its rounds; a scheduler that runs once stops behind the
  -- tasks of its first round. The sleeping times are returned, the latest last.
  unfoldable pub work : Bool → List (ℤ × ℤ) → Loop → Action Float (Loop × List ℤ)
  unfolding run_tasks after_tasks start_round ◌>>=◌ pure lift
  work once [] loop = pure (loop, [])
  work true (now ∷ times) loop = do
    round ← run_tasks loop.tasks start_round
    pure (record loop { tasks = round.tasks }, [])
  work false ((t2, t1) ∷ times) loop = do
    round ← run_tasks loop.tasks start_round
    (next, diff) ← lift (after_tasks t2 t1 loop round)
    (last, diffs) ← work false times next
    pure (last, diff ∷ diffs)
