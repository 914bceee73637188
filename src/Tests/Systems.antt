-- ===== src/Tests/Systems.antt =====
-- The two threads of the program at concrete inputs.
use fidinventor.Base.{
  ℕ, ◌+◌, ◌-◌, ◌^◌, ◌≤◌, ◌≡◌, ◌⊎◌, refl, ap, sym, ◌∙◌, true, false, Option, none, some, List, [],
  ◌∷◌, arith, length, ℤ, pos, ◌+ℤ◌, ltb_ℤ, if◌then◌else◌,
}
use fidinventor.Base.Text.{codes, eq_bytes, strtoll}
use fidinventor.Base.Decimal.{decimal_ℤ}
use fidinventor.Base.Result.{Result, ok, undefined, ok-injective}
use fidinventor.Rpc.Convert.{convert}
use fidinventor.Db.Session.{Server}
use fidinventor.Db.Laws.{NeverFails, sending, tx_statements, vout_statements, vin_statements}
use fidinventor.Handler.Inserts.{block_statements, txs_statements}
use fidinventor.Handler.World.{Env, World}
use fidinventor.Handler.Fetch.{Handler, get_block_count}
use fidinventor.Task.Types.{Task, task_blockgensis, task_block_or_trans, new_task}
use fidinventor.Task.Run.{call}
use fidinventor.Task.Schedule.{start_round, note_task, get_task}
use fidinventor.Task.Gensis.{Fetched, rows_of}
use fidinventor.Task.Registry.{registered}
use fidinventor.Thread.{working, run, do_work, delete_thread_safe}
use fidinventor.Main.System.{
  System, Reach, begins, calls, repeats, looks, here, next, await_look, follow_look, started,
}
use fidinventor.Main.Await.{GensisStored, awaited-stored}
use fidinventor.Main.Threads.{at_tasks, delete_thread_safe-started, work-Reach}
use fidinventor.Main.Follow.{chain_in_order}
use fidinventor.Handler.Extends.{Extends}
use fidinventor.Task.Extends.{work-Extends}
use fidinventor.Task.Schedule.{work}
use fidinventor.Task.Follow.{HasSmallCounts, Followed}
use fidinventor.Args.{i64tostr}
use fidinventor.Json.Value.{Value, int, Fields, end, field}
use fidinventor.Tests.Programs.{
  day, opened, start, open_server, open-NeverFails, some_env, tx_reply, block_reply,
}
use fidinventor.Tests.Runs.{node_env, same_fetched, stored_world, one_loop, work_run}

abbrev first_task : Task
first_task = registered (pos 0) task_blockgensis (codes "1") (pos 1)

abbrev first_done : Task
first_done = record first_task { height = pos 1 }

first_run : call node_env first_task start ≡ (ok first_done, stored_world)
unfolding call eq_bytes decimal_ℤ convert new_task rows_of block_statements txs_statements
    tx_statements vout_statements vin_statements
first_run = refl

-- The thread begins, `main` looks, the task is called, and `main` looks again.
abbrev behind_gensis : System ℕ (Option ℤ)
behind_gensis = record {
  thread = record { m_thread = some working; running = pos 1 };
  round = record { tasks = first_done ∷ []; bktimelast = pos 0; go_on = true };
  ahead = [];
  world = stored_world;
  seen = some (pos 2);
}

gensis_steps :
    Reach node_env true (pos 0) (pos 1) await_look (started first_task start none) behind_gensis
unfolding start_round note_task get_task await_look new_task run do_work
gensis_steps =
    next
      (next (next (next here (begins refl refl)) (looks refl))
        (calls first_task first_done [] stored_world refl refl first_run refl))
      (looks refl)

awaited-stored_example :
    (height : ℤ) × (height +ℤ pos 1 ≡ pos 2)
    × GensisStored node_env (codes "1") start stored_world height
awaited-stored_example =
    awaited-stored node_env open-NeverFails (pos 0) (pos 1) (codes "1") start refl gensis_steps refl

-- The genesis task behind its last block, whose thread has not ended yet.
delete_thread_safe-started_example :
    ((delete_thread_safe (some behind_gensis.thread) ≡ ok (pos 0))
      × (pos 1 ≡ pos 0)
      × (stored_world ≡ start))
    ⊎ ((delete_thread_safe (some behind_gensis.thread) ≡ undefined) × (some working ≡ some working))
    ⊎ ((delete_thread_safe (some behind_gensis.thread) ≡ ok (pos 1))
        × (true ≡ true)
        × (behind_gensis.ahead ≡ []))
delete_thread_safe-started_example =
    delete_thread_safe-started node_env true (pos 0) (pos 1) await_look first_task start none
      gensis_steps

work-Reach_example :
    Reach some_env false
      (pos 0)
      (pos 1)
      follow_look
      (at_tasks start_round one_loop.tasks start (pos 5))
      (at_tasks start_round one_loop.tasks
        (record start { calls = (codes "getblockcount", []) ∷ [] })
        (pos 5))
work-Reach_example =
    work-Reach some_env (pos 0) (pos 1) follow_look ((pos 1500, pos 1501) ∷ []) one_loop start
      (pos 5) work_run

-- A node with nine blocks.
abbrev count_reply : Fields ℕ
count_reply = field (codes "result") (int (pos 9)) end

-- A database of six blocks.
abbrev pub six_server : Server ℕ
six_server = record open_server { block_count = λ sent. ok (pos 6) }

pub six_NeverFails : NeverFails six_server
six_NeverFails = record { executes = λ sent st. refl; counts = λ sent table. refl }

abbrev pub nine_env : Env
nine_env = record node_env {
  server = six_server;
  rpc = λ calls call. ok (
      if eq_bytes call.0 (codes "gettransaction")
      then tx_reply
      else if eq_bytes call.0 (codes "getblockcount")
      then count_reply
      else block_reply);
}

nine_counts :
    (hand : Handler ℕ) (w : World ℕ)
    → (get_block_count nine_env hand w).0 ≡ ok (pos 9, record hand { height = pos 9 })
unfolding get_block_count eq_bytes decimal_ℤ convert strtoll
nine_counts hand w = refl

pub nine_HasSmallCounts : HasSmallCounts nine_env
nine_HasSmallCounts hand hand' w w' count h =
    let counted =
      ok-injective
        (sym (nine_counts hand w) ∙ ap (λ (r : Result (ℤ × Handler ℕ) × World ℕ). r.0) h) in
    ap (λ (r : ℤ × Handler ℕ). ltb_ℤ r.0 (pos (2 ^ 31 - 1))) (sym counted)

abbrev seventh_task : Task
seventh_task = registered (pos 0) task_block_or_trans (i64tostr (pos 7)) (pos 1)

abbrev pub seventh_world : World ℕ
seventh_world = record {
  calls =
      (codes "getblockcount", [])
      ∷ (codes "getblockbynumber", int (pos 7) ∷ [])
      ∷ (codes "gettransaction", Value.str (codes "t1") ∷ [])
      ∷ [];
  session = sending opened (rows_of day (same_fetched ∷ []));
}

abbrev seventh_done : Task
seventh_done = record seventh_task { height = pos 7; status = pos 1; bktime = pos 1500 }

seventh_run : call nine_env seventh_task start ≡ (ok seventh_done, seventh_world)
unfolding call eq_bytes decimal_ℤ convert new_task rows_of block_statements txs_statements
    tx_statements vout_statements vin_statements i64tostr
seventh_run = refl

-- The thread begins, the block is stored, `main` looks, and the next round begins.
abbrev pub behind_seventh : System ℕ ℤ
behind_seventh = record {
  thread = record { m_thread = some working; running = pos 1 };
  round = record { tasks = []; bktimelast = pos 0; go_on = false };
  ahead = record seventh_task { height = pos 8 } ∷ [];
  world = seventh_world;
  seen = pos 8;
}

pub seventh_steps :
    Reach nine_env false
      (pos 0)
      (pos 1)
      follow_look
      (started seventh_task start (pos 7))
      behind_seventh
unfolding start_round note_task get_task follow_look new_task run do_work
seventh_steps =
    next
      (next
        (next (next here (begins refl refl))
          (calls seventh_task seventh_done [] seventh_world refl refl seventh_run refl))
        (looks refl))
      (repeats refl refl refl refl)

chain_in_order_example :
    (fetched : List (Fetched ℕ)) × Followed nine_env 7 start seventh_world fetched
    × ((m : ℕ) × (pos 8 ≡ pos m) × (7 ≤ m) × (m ≤ 7 + length fetched))
chain_in_order_example =
    chain_in_order nine_env six_NeverFails nine_HasSmallCounts (pos 0) (pos 1) 7 (omega arith) start
      refl (omega arith) seventh_steps

work-Extends_example :
    Extends start (work some_env false ((pos 1500, pos 1501) ∷ []) one_loop start).1
work-Extends_example = work-Extends some_env false ((pos 1500, pos 1501) ∷ []) one_loop start
