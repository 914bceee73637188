-- ===== src/Tests/Programs.antt =====
-- The handlers, the database and the tasks at concrete inputs.
use fidinventor.Base.{
  length, ℕ, ◌≡◌, ◌≢◌, refl, true, false, [], ◌∷◌, ◌++◌, All, ℤ, pos, negsuc, to_uint64,
}
use fidinventor.Base.Text.{Bytes, codes, eq_bytes}
use fidinventor.Base.Result.{ok}
use fidinventor.Json.Value.{Value, null, str, int, arr, obj, nil, cons, Fields, end, field}
use fidinventor.Json.Object.{find_value, elements}
use fidinventor.Json.Getters.{get_array_value}
use fidinventor.Chain.Block.{Block}
use fidinventor.Chain.Transaction.{Transaction, Vin, Vout}
use fidinventor.Db.Session.{done, bad_query, Server, Session}
use fidinventor.Db.Insert.{insert_transaction}
use fidinventor.Db.Laws.{
  NeverFails, sending, tx_statements, insert_transaction-done, insert_transaction-failed,
  query_failed, at_row,
}
use fidinventor.Handler.SwitchBlock.{str_or, switch_block}
use fidinventor.Handler.SwitchTx.{Storage, switch_tx}
use fidinventor.Handler.World.{Env, World}
use fidinventor.Handler.Store.{insert_db_block_trans}
use fidinventor.Handler.Kinds.{tail, input_kind, switch_tx-kind, switch_tx-vins}
use fidinventor.Handler.Blocks.{IdsOf, switch_block-fields, switch_block-proofhash}
use fidinventor.Handler.Inserts.{block_statements, txs_statements, insert_db_block_trans-done}
use fidinventor.Tests.Plain.{whole, plain_algo, number_text}

abbrev pub old_block : Block ℕ
old_block = record {
  hash = [];
  confirmations = 0;
  size = pos 0;
  height = 0;
  version = pos 0;
  merkleroot = [];
  mint = 0;
  time = pos 0;
  nonce = pos 0;
  bits = [];
  difficulty = 0;
  blocktrust = [];
  chaintrust = [];
  previousblockhash = [];
  nextblockhash = [];
  flags = [];
  proofhash = [];
  entropybit = pos 0;
  modifier = [];
  tx = [];
  vtx = [];
  signature = [];
}

-- The numbers of a block at height 7.
abbrev pub numbers : Fields ℕ → Fields ℕ
numbers rest = field (codes "confirmations") (int (pos 3)) (
    field (codes "size") (int (pos 200)) (
      field (codes "height") (int (pos 7)) (
        field (codes "version") (int (pos 1)) (
          field (codes "time") (int (pos 1500)) (
            field (codes "nonce") (int (pos 9)) (field (codes "entropybit") (int (pos 1)) rest))))))

-- A block with its hash and one id.
abbrev pub block_object : Fields ℕ
block_object =
    field (codes "hash") (str (codes "ab"))
      (numbers (field (codes "tx") (arr (cons (str (codes "t1")) nil)) end))

abbrev pub block_reply : Fields ℕ
block_reply = field (codes "result") (obj block_object) end

abbrev pub new_block : Block ℕ
new_block = record old_block {
  hash = codes "ab";
  confirmations = 3;
  size = pos 200;
  height = 7;
  version = pos 1;
  time = pos 1500;
  nonce = pos 9;
  entropybit = pos 1;
  tx = codes "{}";
  vtx = codes "t1" ∷ [];
}

switch_block-fields_example :
    (new_block.hash ≡ str_or (find_value block_object (codes "hash")) old_block.hash)
    × ((m : ℤ) × (find_value block_object (codes "height") ≡ int m)
        × (new_block.height ≡ to_uint64 m))
    × IdsOf old_block new_block (codes "t1" ∷ []) (find_value block_object (codes "tx"))
unfolding switch_block eq_bytes
switch_block-fields_example =
    switch_block-fields number_text block_reply block_object old_block refl refl

-- The same with flags and no `proofhash`.
abbrev pub flagged_object : Fields ℕ
flagged_object = field (codes "flags") (str (codes "proof-of-work")) block_object

switch_block-proofhash_example :
    switch_block number_text (field (codes "result") (obj flagged_object) end) old_block
    ≢ ok (codes "t1" ∷ [], new_block)
unfolding find_value eq_bytes
switch_block-proofhash_example =
    switch_block-proofhash number_text (field (codes "result") (obj flagged_object) end)
      flagged_object old_block (codes "proof-of-work") refl refl (λ s e. cc)
      (codes "t1" ∷ [], new_block)

abbrev pub old_vin : Vin ℕ
old_vin = record {
  type = b'T';
  txid = [];
  vout = pos 0;
  script_sig = record { sasm = []; hex = [] };
  sequence = 0;
  value = 0;
  addresses = [];
}

abbrev pub old_vout : Vout ℕ
old_vout = record {
  type = b'T';
  value = 0;
  n = pos 0;
  script_pub_key = record { sasm = []; req_sigs = pos 0; type = []; addresses = [] };
}

abbrev pub old_storage : Storage ℕ
old_storage = record { vin = old_vin; vout = old_vout }

abbrev pub old_tx : Transaction ℕ
old_tx = record {
  type = b'T';
  txid = [];
  version = pos 1;
  time = pos 1;
  locktime = pos 1;
  vins = [];
  vouts = [];
  vin = [];
  vout = [];
  amount = 0;
  confirmations = 0;
  generated = false;
  blockhash = [];
  blockindex = negsuc 0;
  blocktime = pos 0;
  timereceived = pos 0;
  details = [];
}

-- An input that spends the first output of "t0", and a coinbase input.
abbrev pub spending : Value ℕ
spending = obj (field (codes "txid") (str (codes "t0")) (field (codes "vout") (int (pos 0)) end))

abbrev pub coinbase : Value ℕ
coinbase = obj (field (codes "coinbase") (str (codes "c0")) end)

-- A transaction with these two inputs and one output.
abbrev pub tx_reply : Fields ℕ
tx_reply =
    field (codes "result")
      (obj (
        field (codes "txid") (str (codes "t1")) (
          field (codes "vin") (arr (cons spending (cons coinbase nil)))
            (field (codes "vout") (arr (cons (obj end) nil)) end))))
      end

abbrev pub read_tx : Transaction ℕ
read_tx = record old_tx {
  type = b'S';
  txid = codes "t1";
  version = pos 0;
  time = pos 0;
  locktime = pos 0;
  vins = record old_vin { type = b'S'; txid = codes "t0" } ∷ record old_vin { type = b'S' } ∷ [];
  vouts = record old_vout { type = b'W' } ∷ [];
  vin = codes "{}";
  vout = codes "{}";
}

switch_tx_read : switch_tx whole number_text old_storage tx_reply old_tx ≡ ok (pos 0, read_tx)
unfolding switch_tx eq_bytes
switch_tx_read = refl

switch_tx-kind_example :
    (read_tx.type ≡ input_kind whole read_tx.vins) × (read_tx.vouts ≢ []) × (read_tx.type ≢ b'T')
switch_tx-kind_example = switch_tx-kind whole number_text old_storage tx_reply old_tx switch_tx_read

switch_tx-vins_example :
    ((o : Fields ℕ) × (find_value tx_reply (codes "result") ≡ obj o)
      × (length read_tx.vins ≡ length (elements (get_array_value o (codes "vin"))))
      × (length read_tx.vouts ≡ length (elements (get_array_value o (codes "vout")))))
    × All (λ (w : Vin ℕ). w.type ≡ b'S') (tail read_tx.vins)
switch_tx-vins_example =
    switch_tx-vins whole number_text old_storage tx_reply old_tx refl refl switch_tx_read

-- A database with ten blocks that never fails, and one that refuses.
abbrev pub open_server : Server ℕ
open_server = record {
  accepts = λ n login. true;
  login_error = codes "Access denied";
  execute = λ sent st. done;
  count_rows = λ sent table. done;
  block_count = λ sent. ok (pos 10);
}

abbrev pub closed_server : Server ℕ
closed_server = record open_server { execute = λ sent st. bad_query }

pub open-NeverFails : NeverFails open_server
open-NeverFails = record { executes = λ sent st. refl; counts = λ sent table. refl }

abbrev pub day : ℤ → Bytes
day t = codes "2017-07-03"

abbrev pub opened : Session ℕ
opened = record { inited = true; logins = []; sent = [] }

insert_transaction-done_example :
    insert_transaction open_server day read_tx opened
    ≡ (pos 0, sending opened (tx_statements day read_tx))
insert_transaction-done_example =
    insert_transaction-done open_server open-NeverFails day read_tx opened

insert_transaction-failed_example :
    insert_transaction closed_server day read_tx opened ≡ (pos 1, sending opened [])
insert_transaction-failed_example =
    insert_transaction-failed closed_server day read_tx opened query_failed (at_row refl)

-- A node that answers every call with an error.
abbrev pub error_reply : Fields ℕ
error_reply =
    field (codes "result") null
      (field (codes "error") (obj (field (codes "code") (int (negsuc 0)) end)) end)

abbrev pub some_env : Env
some_env = record {
  floats = whole;
  text = number_text;
  algo = plain_algo;
  rpc = λ calls call. ok error_reply;
  server = open_server;
  date_text = day;
  args = [];
  storage = old_storage;
  block_storage = old_block;
}

insert_db_block_trans-done_example :
    insert_db_block_trans some_env
      (record { height = pos 7; block = new_block; vtx = read_tx ∷ old_tx ∷ [] })
      opened
    ≡ (
      ok (pos 0),
      sending opened (block_statements day new_block ++ txs_statements day (read_tx ∷ old_tx ∷ [])),
    )
insert_db_block_trans-done_example =
    insert_db_block_trans-done some_env open-NeverFails
      (record { height = pos 7; block = new_block; vtx = read_tx ∷ old_tx ∷ [] }) opened refl

abbrev pub start : World ℕ
start = record { calls = []; session = opened }

abbrev pub after : World ℕ
after = record start { calls = (codes "getblockbynumber", int (pos 5) ∷ []) ∷ [] }
