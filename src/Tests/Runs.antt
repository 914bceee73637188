-- ===== src/Tests/Runs.antt =====
-- Whole runs at concrete inputs: a call over RPC, the genesis task, the rounds of a scheduler.
use fidinventor.Base.{
  none, leb, ℕ, ◌≡◌, ◌⊎◌, refl, true, false, some, List, [], ◌∷◌, ◌++◌, arith, length, ℤ, pos,
  negsuc, to_int32, leb_ℤ, if◌then◌else◌,
}
use fidinventor.Base.Text.{Bytes, codes, eq_bytes, c_atoi, strtoll}
use fidinventor.Base.Dict.{Dict, lookup}
use fidinventor.Base.Decimal.{decimal_ℤ}
use fidinventor.Base.Result.{ok}
use fidinventor.Http.Write.{http_reply}
use fidinventor.Json.Value.{Value, null, int}
use fidinventor.Args.{get_bool_arg, is_switch_char}
use fidinventor.Rpc.Convert.{convert, rpc_convert_values}
use fidinventor.Rpc.Message.{jsonrpc_reply, jsonrpc_reply_obj}
use fidinventor.Rpc.Call.{
  try_endpoints, Network, connect, read_response, posted, call_rpc, skip_switches, command_line_rpc,
}
use fidinventor.Rpc.Laws.{by_status}
use fidinventor.Rpc.WholeCall.{call_rpc-waits, call_rpc-answered}
use fidinventor.Rpc.CommandLine.{printed, command_line_rpc-printed}
use fidinventor.Db.Laws.{sending, tx_statements, vout_statements, vin_statements}
use fidinventor.Handler.Inserts.{block_statements, txs_statements}
use fidinventor.Handler.World.{Env, World}
use fidinventor.Task.Types.{Task}
use fidinventor.Task.Run.{call_gensis, rounds_to}
use fidinventor.Task.Gensis.{CountOf, Fetched, FetchedFrom, rows_of, call_gensis-ok}
use fidinventor.Task.Schedule.{Loop, work}
use fidinventor.Task.Rounds.{SameButHeight, work-SameButHeight}
use fidinventor.Tests.Plain.{plain_algo}
use fidinventor.Tests.Messages.{some_date, some_date-IsDate, reply_text}
use fidinventor.Tests.Programs.{
  day, opened, start, some_env, open-NeverFails, block_reply, tx_reply, new_block, read_tx,
}
use fidinventor.Tests.Tasks.{some_task}

abbrev login_args : Dict Bytes
login_args = (codes "-rpcpassword", codes "p") ∷ (codes "-rpcuser", codes "u") ∷ []

-- A server that accepts, and that answers every request with one reply.
abbrev one_server : Network
one_server = record {
  endpoints = λ n host port. ok (false ∷ true ∷ []);
  respond = λ s.
      http_reply some_date 500 (jsonrpc_reply reply_text (int (pos 7)) null (int (pos 1))) true
      ++ codes "next";
}

call_rpc-answered_example :
    call_rpc plain_algo reply_text 1 one_server login_args (codes "getblockcount") []
    ≡ (some (by_status 500 (jsonrpc_reply_obj (int (pos 7)) null (int (pos 1)))), login_args)
unfolding jsonrpc_reply lookup eq_bytes connect try_endpoints
call_rpc-answered_example =
    call_rpc-answered login_args b'u' [] (codes "p") refl refl plain_algo reply_text one_server
      (codes "getblockcount") [] 0 (int (pos 7)) null (int (pos 1)) some_date 500 true
      (codes "next") refl refl some_date-IsDate (omega arith) (omega arith) refl

-- A server whose endpoints accept from the third try on.
abbrev late_server : Network
late_server = record one_server { endpoints = λ n host port. ok (leb 2 n ∷ []) }

abbrev waiting_args : Dict Bytes
waiting_args = (codes "-rpcwait", codes "1") ∷ login_args

call_rpc-waits_example :
    call_rpc plain_algo reply_text 3 late_server waiting_args (codes "getblockcount") [] ≡ (
      read_response plain_algo reply_text (
          late_server.respond
            (posted plain_algo reply_text (codes "u") (codes "p") (codes "getblockcount") [])),
      waiting_args,
    )
unfolding lookup eq_bytes connect try_endpoints get_bool_arg c_atoi
call_rpc-waits_example =
    call_rpc-waits waiting_args b'u' [] (codes "p") refl refl plain_algo reply_text late_server
      (codes "getblockcount") [] 2 3 refl refl (λ i k. (_, refl)) (omega arith)

command_line_rpc-printed_example :
    command_line_rpc plain_algo reply_text 1 one_server login_args
      (codes "-server" ∷ codes "getblockcount" ∷ [])
    ≡ some (ok (printed plain_algo reply_text 500 (int (pos 7)) none))
unfolding jsonrpc_reply lookup eq_bytes connect try_endpoints skip_switches rpc_convert_values
    is_switch_char
command_line_rpc-printed_example =
    command_line_rpc-printed login_args b'u' [] (codes "p") refl refl plain_algo reply_text
      one_server (codes "-server" ∷ codes "getblockcount" ∷ []) (codes "getblockcount") [] [] 0
      (int (pos 7)) (int (pos 1)) none some_date 500 true (codes "next") refl refl tt refl refl
      some_date-IsDate (omega arith) (omega arith) refl

-- A node with the same block at every height.
abbrev pub node_env : Env
node_env = record some_env {
  rpc =
      λ calls call. ok (if eq_bytes call.0 (codes "gettransaction") then tx_reply else block_reply);
}

abbrev gensis_task : Task
gensis_task = record some_task { height = negsuc 0; command = codes "1" }

abbrev pub same_fetched : Fetched ℕ
same_fetched = record {
  block = new_block;
  ids = codes "t1" ∷ [];
  txs = record read_tx { details = codes "blockchain fid" } ∷ [];
}

abbrev pub stored_world : World ℕ
stored_world = record {
  calls =
      (codes "getblockbynumber", int (pos 0) ∷ [])
      ∷ (codes "gettransaction", Value.str (codes "t1") ∷ [])
      ∷ (codes "getblockbynumber", int (pos 1) ∷ [])
      ∷ (codes "gettransaction", Value.str (codes "t1") ∷ [])
      ∷ [];
  session = sending opened (rows_of day (same_fetched ∷ same_fetched ∷ []));
}

call_gensis_run :
    call_gensis node_env gensis_task start
    ≡ (ok (record gensis_task { height = pos 1 }), stored_world)
unfolding call_gensis eq_bytes decimal_ℤ convert rows_of block_statements txs_statements
    tx_statements vout_statements vin_statements
call_gensis_run = refl

call_gensis-ok_example :
    (height : ℤ) × (fs : List (Fetched ℕ)) × ((height ≡ strtoll gensis_task.command)
      ⊎ ((leb_ℤ (strtoll gensis_task.command) (pos 0) ≡ true) × CountOf node_env start height))
    × (length fs ≡ rounds_to node_env height)
    × (pos 1 ≡ to_int32 height)
    × FetchedFrom node_env 0 fs
    × (stored_world.session ≡ sending opened (rows_of day fs))
call_gensis-ok_example =
    call_gensis-ok node_env open-NeverFails gensis_task start refl call_gensis_run

abbrev pub one_loop : Loop
one_loop = record { tasks = some_task ∷ []; bktime = pos 0; t1 = pos 1400 }

-- The node answers with errors, and the task waits.
pub work_run :
    work some_env false ((pos 1500, pos 1501) ∷ []) one_loop start
    ≡ (ok (one_loop, pos 1000 ∷ []), record start { calls = (codes "getblockcount", []) ∷ [] })
unfolding work eq_bytes
work_run = refl

work-SameButHeight_example : SameButHeight one_loop.tasks one_loop.tasks
work-SameButHeight_example =
    work-SameButHeight some_env false ((pos 1500, pos 1501) ∷ []) one_loop start work_run
