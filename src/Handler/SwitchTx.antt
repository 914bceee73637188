-- ===== src/Handler/SwitchTx.antt =====
-- `CFidHandler::switchTx`: a transaction out of the reply to `gettransaction`.
use fidinventor.Base.{
  ℕ, suc, Bool, false, not, ◌&&◌, List, [], ◌∷◌, ◌++◌, ◌==◌, leb, ltb, if◌then◌else◌, length, ℤ,
  pos, negsuc,
}
use fidinventor.Base.Text.{Bytes, codes, is_empty}
use fidinventor.Base.Result.{Result, ok, undefined, ◌>>=◌}
use fidinventor.Json.Value.{
  Floats, Value, obj, Items, nil, cons, Fields, JsonText, get_str, get_obj,
}
use fidinventor.Json.Object.{find_value, elements}
use fidinventor.Json.Getters.{
  get_array_value, get_object_value, get_int_value, get_fidint_value, get_fidtime_value,
  get_string_value, get_double_value,
}
use fidinventor.Chain.Transaction.{Vin, Vout, Transaction, new_vin, new_vout}

-- The contents of the storage in which the locals `txvin` and `txvout` are made.
pub record Storage (F : Type 0) : Type 0 where
  pub vin : Vin F
  pub vout : Vout F

-- The kind of a transaction from its inputs and outputs. `none` of the outputs is read out of range
-- here: the caller has read the first one.
abbrev pub first_is_coinbase : {F : Type 0} → List (Vin F) → Bool
first_is_coinbase [] = false
first_is_coinbase (vin ∷ vins) = vin.type == b'W'

module _ (floats : Floats) where
  open floats use {Float, is_zero}

  unfoldable pub kind_of : List (Vin Float) → Vout Float → List (Vout Float) → ℕ
  kind_of vins first more =
      if ltb 0 (length vins)
        && (not (first_is_coinbase vins) && (leb 2 (suc (length more)) && is_zero first.value))
      then b'S'
      else if (length vins == 1) && (first_is_coinbase vins && leb 1 (suc (length more)))
      then b'W'
      else b'S'

  -- The kind of the output at index `j`.
  unfoldable pub vout_kind : ℕ → Float → ℕ
  vout_kind j value =
      if (j == 0) && is_zero value
      then b'W'
      else if (j == 1) && not (is_zero value)
      then b'S'
      else b'T'

  -- The address of an output: the first of the list, which must be a string.
  unfoldable pub first_address : Items Float → Bytes → Result Bytes
  unfolding get_str
  first_address nil old = ok old
  first_address (cons v vs) old = get_str v

  -- Reading the first output prints its value; with no output that is undefined.
  unfoldable pub settle_outputs : Transaction Float → List (Vout Float) → Result (Transaction Float)
  unfolding kind_of
  settle_outputs tx [] = undefined
  settle_outputs tx (first ∷ more) = ok (record tx { type = kind_of tx.vins first more })

  unfoldable pub settle_kind : Transaction Float → Result (Transaction Float)
  unfolding settle_outputs
  settle_kind tx = settle_outputs tx tx.vouts

module _ (floats : Floats) (text : JsonText (Floats.Float floats))
    (storage : Storage (Floats.Float floats)) where
  open floats use {Float, is_zero}

  -- The input at index `i` once its sequence is set and the "coinbase" entry was tried.
  unfoldable pub vin_entry : ℕ → Fields Float → Vin Float → Vin Float
  unfolding get_string_value get_int_value get_object_value
  vin_entry i o vin =
      let coinbase = get_string_value text o (codes "coinbase") vin.txid in
      let tried = (if i == 0 then coinbase else vin.txid) in
      let script = get_object_value o (codes "scriptSig") in
      if (i == 0) && not (is_empty coinbase)
      then record vin { txid = coinbase; type = b'W' }
      else record vin {
        type = b'S';
        txid = get_string_value text o (codes "txid") tried;
        vout = get_int_value o (codes "vout");
        script_sig = record {
          hex = get_string_value text script (codes "hex") vin.script_sig.hex;
          sasm = get_string_value text script (codes "asm") vin.script_sig.sasm;
        };
      }

  -- A fresh input with its sequence.
  unfoldable pub started_vin : Fields Float → Vin Float
  unfolding get_fidint_value new_vin
  started_vin o = record (new_vin storage.vin) { sequence = get_fidint_value o (codes "sequence") }

  -- One round of the loop over the inputs.
  unfoldable pub switch_vin : ℕ → Value Float → Result (Vin Float)
  unfolding vin_entry get_obj started_vin
  switch_vin i v = do o ← get_obj v; ok (vin_entry i o (started_vin o))

  unfoldable pub switch_vins : ℕ → List (Value Float) → Result (List (Vin Float))
  unfolding switch_vin
  switch_vins i [] = ok []
  switch_vins i (v ∷ vs) = do vin ← switch_vin i v; vins ← switch_vins (suc i) vs; ok (vin ∷ vins)

  -- One round of the loop over the outputs.
  unfoldable pub switch_vout : ℕ → Value Float → Result (Vout Float)
  unfolding get_obj get_double_value get_int_value get_object_value get_array_value get_string_value
      first_address vout_kind new_vout
  switch_vout j v = do
    o ← get_obj v
    let fresh = new_vout storage.vout
    let value = get_double_value floats o (codes "value")
    let script = get_object_value o (codes "scriptPubKey")
    addresses ←
        first_address floats (get_array_value script (codes "addresses"))
          fresh.script_pub_key.addresses
    ok (record {
      type = vout_kind floats j value;
      value = value;
      n = get_int_value o (codes "n");
      script_pub_key = record {
        sasm = get_string_value text script (codes "asm") fresh.script_pub_key.sasm;
        req_sigs = get_int_value script (codes "reqSigs");
        type = get_string_value text script (codes "type") fresh.script_pub_key.type;
        addresses = addresses;
      };
    })

  unfoldable pub switch_vouts : ℕ → List (Value Float) → Result (List (Vout Float))
  unfolding switch_vout
  switch_vouts j [] = ok []
  switch_vouts j (v ∷ vs) = do
    vout ← switch_vout j v
    vouts ← switch_vouts (suc j) vs
    ok (vout ∷ vouts)

  -- The plain fields.
  unfoldable pub switch_fields : Fields Float → Transaction Float → Transaction Float
  unfolding get_string_value get_int_value get_fidtime_value get_double_value get_fidint_value
  switch_fields o tx = record tx {
    txid = get_string_value text o (codes "txid") tx.txid;
    version = get_int_value o (codes "version");
    time = get_fidtime_value o (codes "time");
    locktime = get_fidtime_value o (codes "locktime");
    amount = get_double_value floats o (codes "amount");
    blockhash = get_string_value text o (codes "blockhash") tx.blockhash;
    confirmations = get_fidint_value o (codes "confirmations");
    timereceived = get_fidtime_value o (codes "timereceived");
    details = get_string_value text o (codes "details") tx.details;
    vin = get_string_value text o (codes "vin") tx.vin;
    vout = get_string_value text o (codes "vout") tx.vout;
  }

  -- The transaction with its fields, inputs and outputs, before its kind is settled.
  abbrev pub filled :
      Fields Float → Transaction Float → List (Vin Float) → List (Vout Float) → Transaction Float
  filled o tx vins vouts = record (switch_fields o tx) {
    vins = tx.vins ++ vins;
    vouts = tx.vouts ++ vouts;
  }

  unfoldable pub switch_tx_object : Fields Float → Transaction Float → Result (Transaction Float)
  unfolding switch_fields switch_vins switch_vouts settle_kind get_array_value
  switch_tx_object o tx = do
    vins ← switch_vins 0 (elements (get_array_value o (codes "vin")))
    vouts ← switch_vouts 0 (elements (get_array_value o (codes "vout")))
    settle_kind floats (filled o tx vins vouts)

  abbrev pub switch_tx_result : Value Float → Transaction Float → Result (ℤ × Transaction Float)
  switch_tx_result (obj o) tx = switch_tx_object o tx >>= λ tx'. ok (pos 0, tx')
  switch_tx_result v tx = ok (negsuc 0, tx)

  -- `switchTx(task, tx)` on the reply of the task: 0 or -1, and the transaction.
  unfoldable pub switch_tx : Fields Float → Transaction Float → Result (ℤ × Transaction Float)
  unfolding find_value switch_tx_object
  switch_tx reply tx = switch_tx_result (find_value reply (codes "result")) tx
