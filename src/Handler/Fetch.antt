-- ===== src/Handler/Fetch.antt =====
-- The calls over RPC: `switchParams`, `callRPC`, `getBlockCount`, `getBlockByNumber` and
-- `getTransaction`.
use fidinventor.Base.{true, false, List, [], ◌∷◌, ◌++◌, ℤ, pos, negsuc, to_int32, if◌then◌else◌}
use fidinventor.Base.Text.{Bytes, codes, is_empty, strtoll}
use fidinventor.Base.Decimal.{decimal_ℤ}
use fidinventor.Base.Result.{Result, ok, bind_result}
use fidinventor.Json.Value.{Value, null, str, int, Fields, end, get_obj, get_int}
use fidinventor.Json.Object.{find_value}
use fidinventor.Rpc.Convert.{rpc_convert_values}
use fidinventor.Rpc.Message.{is_null}
use fidinventor.Rpc.Call.{abs_int}
use fidinventor.Chain.Block.{Block}
use fidinventor.Chain.Transaction.{Transaction, new_transaction}
use fidinventor.Handler.SwitchBlock.{switch_block}
use fidinventor.Handler.SwitchTx.{switch_tx}
use fidinventor.Handler.World.{Call, Env, Action, pure, lift, ◌>>=◌}

-- The fields of `CFidHandler`.
pub record Handler (F : Type 0) : Type 0 where
  pub height : ℤ
  pub block : Block F
  pub vtx : List (Transaction F)

abbrev pub with_command : {F : Type 0} → Bytes → Result (List (Value F)) → Result (Call F)
with_command cmd values = bind_result values (λ vs. ok (cmd, vs))

-- What `callRPC` leaves in the task and the message: its result, the message, the reply.
pub record Answer (F : Type 0) : Type 0 where
  pub code : ℤ
  pub message : Bytes
  pub reply : Fields F

module _ (env : Env) where
  open env use {floats.{Float, zero}, text, algo, rpc}

  -- `switchParams`: the words of a command line, as a call.
  unfoldable pub switch_words : List Bytes → Result (Call Float)
  unfolding rpc_convert_values
  switch_words [] = ok ([], [])
  switch_words (cmd ∷ params) = with_command cmd (rpc_convert_values text cmd params)

  unfoldable pub switch_params : Bytes → Result (Call Float)
  unfolding switch_words
  switch_params command = switch_words (algo.split command)

  -- The message of a result: `strprintf("%d", n)` is the decimal text of an `int`.
  unfoldable pub result_message : Value Float → Bytes
  result_message null = []
  result_message (str s) = s
  result_message (int n) = decimal_ℤ (to_int32 n)
  result_message v = text.write_string v true

  -- The code of an error object.
  unfoldable pub error_code : Value Float → Result ℤ
  unfolding get_obj get_int find_value
  error_code error =
      bind_result (get_obj error)
        (λ e. bind_result (get_int (find_value e (codes "code"))) (λ n. ok (abs_int n)))

  -- The result and the message of `callRPC` for a reply.
  unfoldable pub answer : Fields Float → Result (Answer Float)
  unfolding error_code result_message find_value
  answer reply =
      let error = find_value reply (codes "error") in
      if is_null error
      then ok (record {
        code = pos 0;
        message = result_message (find_value reply (codes "result"));
        reply = reply;
      })
      else bind_result (error_code error) (λ n. ok (record {
        code = n;
        message = codes "error: " ++ text.write_string error false;
        reply = reply;
      }))

  -- `CallRPC` as the handler sees it: one more call of the node.
  unfoldable pub ask_node : Call Float → Action Float (Fields Float)
  ask_node call w = (rpc w.calls call, record w { calls = w.calls ++ call ∷ [] })

  -- `callRPC(task, message)`
  unfoldable pub call_task : Call Float → Action Float (Answer Float)
  unfolding answer ask_node ◌>>=◌ pure lift
  call_task (cmd, params) =
      if is_empty cmd
      then pure (record { code = negsuc 0; message = []; reply = end })
      else (do reply ← ask_node (cmd, params); lift (answer reply))

  -- `switchParams` and `callRPC` for a command line.
  unfoldable pub fetch : Bytes → Action Float (Answer Float)
  unfolding switch_params call_task ◌>>=◌ lift
  fetch command = do call ← lift (switch_params command); call_task call

  -- `getBlockCount()`; an error is printed, and its text read as a number all the same.
  unfoldable pub get_block_count : Handler Float → Action Float (ℤ × Handler Float)
  unfolding fetch ◌>>=◌ pure strtoll
  get_block_count hand = do
    a ← fetch (codes "getblockcount")
    pure (strtoll a.message, record hand { height = strtoll a.message })

  -- `getBlockByNumber(height)`: the ids of the block's transactions.
  unfoldable pub get_block_by_number : ℤ → Handler Float → Action Float (List Bytes × Handler Float)
  unfolding fetch ◌>>=◌ pure lift switch_block
  get_block_by_number height hand = do
    a ← fetch (codes "getblockbynumber " ++ decimal_ℤ height)
    (ids, block) ← lift (switch_block text a.reply hand.block)
    pure (ids, record hand { block = block })

  -- `getTransaction(txid)`: a transaction is kept whatever the node said of it.
  unfoldable pub get_transaction : Bytes → Handler Float → Action Float (ℤ × Handler Float)
  unfolding fetch ◌>>=◌ pure lift switch_tx new_transaction
  get_transaction txid hand = do
    a ← fetch (codes "gettransaction " ++ txid)
    (code, tx) ← lift (switch_tx env.floats text env.storage a.reply (new_transaction zero))
    pure (code, record hand { vtx = hand.vtx ++ tx ∷ [] })

  -- `for(; it != vtx.end(); it++) fidHand.getTransaction(*it);`
  unfoldable pub get_transactions : List Bytes → Handler Float → Action Float (Handler Float)
  unfolding get_transaction ◌>>=◌ pure
  get_transactions [] hand = pure hand
  get_transactions (txid ∷ ids) hand = do
    (code, hand') ← get_transaction txid hand
    get_transactions ids hand'
