-- ===== src/Tests/Whole.antt =====
-- The whole program at a node whose chain grows.
use fidinventor.Base.{
  ℕ, ◌-◌, ◌^◌, ◌≡◌, refl, ap, sym, ◌∙◌, true, false, some, List, [], ◌∷◌, ◌++◌, length, ℤ, pos,
  negsuc, leb_ℤ, ltb_ℤ, if◌then◌else◌,
}
use fidinventor.Base.Text.{codes, eq_bytes, lt_bytes, strtoll}
use fidinventor.Base.Decimal.{decimal_ℤ}
use fidinventor.Base.Result.{Result, ok, ok-injective}
use fidinventor.Args.{i64tostr}
use fidinventor.Json.Value.{Value, int, Fields, end, field}
use fidinventor.Rpc.Convert.{convert}
use fidinventor.Base.Dict.{lookup, get_or_add, insert, assign}
use fidinventor.Config.{default_config}
use fidinventor.Db.Session.{Server, Session, init_db, query_block_count}
use fidinventor.Db.Laws.{NeverFails, sending, tx_statements, vout_statements, vin_statements}
use fidinventor.Handler.Inserts.{block_statements, txs_statements}
use fidinventor.Handler.World.{Call, Env, World}
use fidinventor.Handler.Fetch.{Handler, get_block_count}
use fidinventor.Task.Types.{Task, task_blockgensis, task_block_or_trans, new_task}
use fidinventor.Task.Run.{call}
use fidinventor.Task.Schedule.{start_round, note_task, get_task}
use fidinventor.Task.Gensis.{Fetched, FetchedFrom, rows_of}
use fidinventor.Task.Follow.{HasSmallCounts, FollowedFrom}
use fidinventor.Task.Registry.{registered}
use fidinventor.Thread.{working, run, do_work}
use fidinventor.Main.System.{
  System, Reach, begins, calls, looks, here, next, note_look, follow_look, started,
}
use fidinventor.Main.Program.{HasCounts, program_in_order}
use fidinventor.Tests.Programs.{day, opened, start, open_server, tx_reply, block_reply}
use fidinventor.Main.{Begun, begin_main, goes_on, start_gensis}
use fidinventor.Tests.Restart.{default_args, first_registry}
use fidinventor.Tests.Runs.{node_env, same_fetched}

-- The node has two blocks when it is asked first, and one more then.
abbrev chain_height : List (Call ℕ) → ℕ
chain_height [] = 1
chain_height (c ∷ cs) = 2

abbrev count_reply : ℕ → Fields ℕ
count_reply n = field (codes "result") (int (pos n)) end

-- A database without blocks.
abbrev empty_server : Server ℕ
empty_server = record open_server { block_count = λ sent. ok (pos 0) }

empty_NeverFails : NeverFails empty_server
empty_NeverFails = record { executes = λ sent st. refl; counts = λ sent table. refl }

abbrev growing_env : Env
growing_env = record node_env {
  server = empty_server;
  rpc = λ asked asks. ok (
      if eq_bytes asks.0 (codes "gettransaction")
      then tx_reply
      else if eq_bytes asks.0 (codes "getblockcount")
      then count_reply (chain_height asked)
      else block_reply);
}

growing_count :
    (hand : Handler ℕ) (asked : List (Call ℕ)) (session : Session ℕ)
    → (get_block_count growing_env hand (record { calls = asked; session = session })).0
      ≡ ok (pos (chain_height asked), record hand { height = pos (chain_height asked) })
unfolding get_block_count eq_bytes decimal_ℤ convert strtoll
growing_count hand [] session = refl
growing_count hand (c ∷ cs) session = refl

height_bounds :
    (asked : List (Call ℕ))
    → (ltb_ℤ (pos (chain_height asked)) (pos (2 ^ 31 - 1)) ≡ true)
      × (leb_ℤ (pos 0) (pos (chain_height asked)) ≡ true)
height_bounds [] = (refl, refl)
height_bounds (c ∷ cs) = (refl, refl)

counted :
    (hand hand' : Handler ℕ) (w w' : World ℕ) (count : ℤ)
    → get_block_count growing_env hand w ≡ (ok (count, hand'), w')
    → pos (chain_height w.calls) ≡ count
counted hand hand' w w' count h =
    ap (λ (r : ℤ × Handler ℕ). r.0)
      (ok-injective (
        sym (growing_count hand w.calls w.session)
        ∙ ap (λ (r : Result (ℤ × Handler ℕ) × World ℕ). r.0) h))

growing_HasSmallCounts : HasSmallCounts growing_env
growing_HasSmallCounts hand hand' w w' count h =
    ap (λ x. ltb_ℤ x (pos (2 ^ 31 - 1))) (sym (counted hand hand' w w' count h))
    ∙ (height_bounds w.calls).0

growing_HasCounts : HasCounts growing_env
growing_HasCounts hand hand' w w' count h =
    ap (leb_ℤ (pos 0)) (sym (counted hand hand' w w' count h)) ∙ (height_bounds w.calls).1

abbrev first_task : Task
first_task = registered (pos 0) task_blockgensis (i64tostr (pos 0)) (pos 1)

abbrev first_world : World ℕ
first_world = record {
  calls =
      (codes "getblockcount", [])
      ∷ (codes "getblockbynumber", int (pos 0) ∷ [])
      ∷ (codes "gettransaction", Value.str (codes "t1") ∷ [])
      ∷ (codes "getblockbynumber", int (pos 1) ∷ [])
      ∷ (codes "gettransaction", Value.str (codes "t1") ∷ [])
      ∷ [];
  session = sending opened (rows_of day (same_fetched ∷ same_fetched ∷ []));
}

first_run :
    call growing_env first_task start ≡ (ok (record first_task { height = pos 1 }), first_world)
unfolding call eq_bytes decimal_ℤ convert new_task rows_of block_statements txs_statements
    tx_statements vout_statements vin_statements i64tostr
first_run = refl

abbrev behind_first : System ℕ (List ℤ)
behind_first = record {
  thread = record { m_thread = some working; running = pos 1 };
  round = record {
    tasks = record first_task { height = pos 1 } ∷ [];
    bktimelast = pos 0;
    go_on = true;
  };
  ahead = [];
  world = first_world;
  seen = negsuc 0 ∷ pos 1 ∷ [];
}

-- `initGensisBlock` looks before the task is called, and again behind it.
first_steps :
    Reach growing_env true (pos 0) (pos 1) note_look (started first_task start []) behind_first
unfolding start_round note_task get_task note_look new_task run do_work
first_steps =
    next
      (next (next (next here (begins refl refl)) (looks refl)) (
        calls first_task (record first_task { height = pos 1 }) [] first_world refl refl first_run
          refl))
      (looks refl)

abbrev next_task : Task
next_task = registered (pos 0) task_block_or_trans (i64tostr (pos 2)) (pos 2)

abbrev next_done : Task
next_done = record next_task { height = pos 2; status = pos 1; bktime = pos 1500 }

abbrev next_world : World ℕ
next_world = record {
  calls =
      first_world.calls
      ++ (codes "getblockcount", [])
        ∷ (codes "getblockbynumber", int (pos 2) ∷ [])
        ∷ (codes "gettransaction", Value.str (codes "t1") ∷ [])
        ∷ [];
  session = sending first_world.session (rows_of day (same_fetched ∷ []));
}

next_run : call growing_env next_task first_world ≡ (ok next_done, next_world)
unfolding call eq_bytes decimal_ℤ convert new_task rows_of block_statements txs_statements
    tx_statements vout_statements vin_statements i64tostr
next_run = refl

abbrev behind_next : System ℕ ℤ
behind_next = record {
  thread = record { m_thread = some working; running = pos 1 };
  round = record {
    tasks = record next_task { height = pos 3 } ∷ [];
    bktimelast = pos 1500;
    go_on = false;
  };
  ahead = [];
  world = next_world;
  seen = pos 2;
}

next_steps :
    Reach growing_env false
      (pos 0)
      (pos 2)
      follow_look
      (started next_task first_world (pos 2))
      behind_next
unfolding start_round note_task get_task follow_look new_task run do_work
next_steps =
    next (next (next here (begins refl refl)) (looks refl))
      (calls next_task next_done [] next_world refl refl next_run refl)

abbrev behind_two : Begun ℕ
behind_two = record {
  args = default_args;
  seq = pos 2;
  height = pos 2;
  session = opened;
  registry = record { tasks = next_task ∷ []; sequence = pos 3 };
}

begins_at_two :
    begin_main empty_server
      (pos 0)
      2
      (ok default_config)
      (negsuc 0 ∷ pos 1 ∷ [])
      []
      opened
      first_registry
    ≡ ok (goes_on behind_two)
unfolding begin_main eq_bytes lookup query_block_count init_db get_or_add insert assign lt_bytes
begins_at_two = refl

program_in_order_example :
    (n : ℕ) × (pos 2 ≡ pos n)
    × (first later : List (Fetched ℕ)) × (length first ≡ n)
    × FetchedFrom growing_env 0 first
    × FollowedFrom growing_env n later
    × (next_world.session
        ≡ sending
            (init_db empty_server default_args opened).1
            (rows_of day first ++ rows_of day later))
unfolding init_db query_block_count get_task start_gensis
program_in_order_example =
    program_in_order growing_env empty_NeverFails growing_HasSmallCounts growing_HasCounts (pos 0) 2
      (ok default_config) [] opened first_registry [] refl first_steps begins_at_two next_steps
