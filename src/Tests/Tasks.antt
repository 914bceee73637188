-- ===== src/Tests/Tasks.antt =====
-- The tasks, their registry and the time between rounds at concrete inputs.
use fidinventor.Base.{
  ◌+◌, ◌≡◌, ◌⊎◌, refl, true, false, some, [], ◌∷◌, arith, pos, leb_ℤ, ltb_ℤ, if◌then◌else◌,
}
use fidinventor.Base.Text.{codes, eq_bytes}
use fidinventor.Base.Decimal.{decimal_ℤ}
use fidinventor.Rpc.Convert.{convert}
use fidinventor.Base.Result.{ok}
use fidinventor.Db.Session.{init_db, query_block_count}
use fidinventor.Task.Types.{TaskType, Task, task_block_or_trans, empty_task}
use fidinventor.Task.Run.{task_height, call_at_count}
use fidinventor.Task.Naps.{after_tasks_lem}
use fidinventor.Task.Schedule.{after_tasks, Registry, register_task, get_task}
use fidinventor.Task.Registry.{
  IsNumbered, registered, last_or, has_number, register_task-get_task, register_task-keeps,
  get_task-unused,
}
use fidinventor.Task.Progress.{Waits, Stored, call_at_count-ok}
use fidinventor.Main.{init_gensis_block, start_scheduler}
use fidinventor.Main.Laws.{starts_behind_blocks}
use fidinventor.Tests.Programs.{
  old_block, open_server, open-NeverFails, opened, some_env, start, after,
}

abbrev pub some_task : Task
some_task = record {
  height = pos 5;
  bktime = pos 0;
  type = TaskType.task_block_or_trans;
  command = codes "1";
  sequence = pos 1;
  status = pos 0;
  message = [];
}

abbrev pub done_task : Task
done_task = record some_task { status = pos 1 }

-- The node answers with an error, and the task is done all the same.
call_at_count_run :
    call_at_count some_env some_task
      (pos 10, record { height = pos 10; block = old_block; vtx = [] })
      start
    ≡ (ok done_task, after)
unfolding call_at_count eq_bytes decimal_ℤ convert
call_at_count_run = refl

call_at_count-ok_example :
    ((leb_ℤ (task_height some_env some_task) (pos 0) ≡ false)
      × (ltb_ℤ (pos 10) (task_height some_env some_task) ≡ true)
      × Waits some_task start done_task after)
    ⊎ Stored some_env old_block
        (if leb_ℤ (task_height some_env some_task) (pos 0)
          then pos 10
          else task_height some_env some_task)
        start
        after
        done_task
call_at_count-ok_example =
    call_at_count-ok some_env open-NeverFails some_task (pos 10)
      (record { height = pos 10; block = old_block; vtx = [] }) start refl refl call_at_count_run

after_tasks_lem_example :
    after_tasks
      (pos 110)
      (pos 111)
      (record { tasks = some_task ∷ []; bktime = pos 2000; t1 = pos 100 })
      (record { tasks = done_task ∷ []; bktimelast = pos 2064; go_on = false })
    ≡ ok (record { tasks = done_task ∷ []; bktime = pos 2064; t1 = pos 111 }, pos 8000)
after_tasks_lem_example =
    after_tasks_lem 2064 2000 10 (pos 110) (pos 111) (pos 100) (some_task ∷ []) (done_task ∷ [])
      false (omega arith) (omega arith) (omega arith) (omega arith) refl

abbrev pub one_task : Registry
one_task = record { tasks = some_task ∷ []; sequence = pos 2 }

register_task-get_task_example :
    IsNumbered (register_task (pos 0) task_block_or_trans (codes "8") one_task).1
    × ((register_task (pos 0) task_block_or_trans (codes "8") one_task).0 ≡ pos 2)
    × (get_task
          (pos 0)
          (pos 2)
          (register_task (pos 0) task_block_or_trans (codes "8") one_task).1.tasks
        ≡ registered (pos 0) task_block_or_trans (codes "8") (pos 2))
register_task-get_task_example =
    register_task-get_task (pos 0) (pos 0) task_block_or_trans (codes "8") one_task (refl, tt)

earlier_task_is_kept :
    get_task
      (pos 0)
      (pos 1)
      (register_task (pos 0) task_block_or_trans (codes "8") one_task).1.tasks
    ≡ get_task (pos 0) (pos 1) one_task.tasks
unfolding has_number
earlier_task_is_kept =
    register_task-keeps (pos 0) (pos 0) task_block_or_trans (codes "8") one_task (pos 1) refl

get_task-unused_example :
    get_task (pos 0) (pos 9) one_task.tasks ≡ last_or (empty_task (pos 0)) one_task.tasks
get_task-unused_example = get_task-unused (pos 0) (pos 9) one_task.tasks (refl, tt)

goes_on_at_eleven :
    (init_gensis_block open_server [] (pos 0) [] opened one_task
      ≡ ok (
          some (record {
            code = pos (10 + 1);
            height = pos (10 + 1);
            session = (init_db open_server [] opened).1;
            registry = one_task;
          })))
    × ((start_scheduler (pos 0) (pos (10 + 1)) one_task).0 ≡ pos 2)
    × (task_height some_env
          (get_task (pos 0) (pos 2) (start_scheduler (pos 0) (pos (10 + 1)) one_task).1.tasks)
        ≡ pos (10 + 1))
unfolding query_block_count init_db
goes_on_at_eleven =
    starts_behind_blocks some_env [] (pos 0) (pos 0) [] opened one_task 10 (omega arith)
      (omega arith) refl refl
