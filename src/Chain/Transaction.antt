-- ===== src/Chain/Transaction.antt =====
-- `CFidTransaction` and its parts, of src/transaction.h and src/transaction.cpp.
use fidinventor.Base.{ℕ, Bool, false, List, [], ℤ, pos, negsuc, not}
use fidinventor.Base.Text.{Bytes, codes, is_empty}

-- `CFidTxScriptPubKey`
pub record ScriptPubKey : Type 0 where
  pub sasm : Bytes
  pub req_sigs : ℤ
  pub type : Bytes
  pub addresses : Bytes

-- `CFidTxScriptSig`
pub record ScriptSig : Type 0 where
  pub sasm : Bytes
  pub hex : Bytes

-- `CFidTxVin`
pub record Vin (F : Type 0) : Type 0 where
  pub type : ℕ
  pub txid : Bytes
  pub vout : ℤ
  pub script_sig : ScriptSig
  pub sequence : ℕ
  pub value : F
  pub addresses : Bytes

-- `CFidTxVout`
pub record Vout (F : Type 0) : Type 0 where
  pub type : ℕ
  pub value : F
  pub n : ℤ
  pub script_pub_key : ScriptPubKey

-- `CFidTransaction`
pub record Transaction (F : Type 0) : Type 0 where
  pub type : ℕ
  pub txid : Bytes
  pub version : ℤ
  pub time : ℤ
  pub locktime : ℤ
  pub vins : List (Vin F)
  pub vouts : List (Vout F)
  pub vin : Bytes
  pub vout : Bytes
  pub amount : F
  pub confirmations : ℕ
  pub generated : Bool
  pub blockhash : Bytes
  pub blockindex : ℤ
  pub blocktime : ℤ
  pub timereceived : ℤ
  pub details : Bytes

module _ {F : Type 0} where
  -- A fresh `CFidTxVin`: empty strings, and the numbers that the storage held.
  unfoldable pub new_vin : Vin F → Vin F
  new_vin storage = record storage {
    txid = [];
    script_sig = record { sasm = []; hex = [] };
    addresses = [];
  }

  -- A fresh `CFidTxVout`.
  unfoldable pub new_vout : Vout F → Vout F
  new_vout storage = record storage {
    script_pub_key = record {
      sasm = [];
      req_sigs = storage.script_pub_key.req_sigs;
      type = [];
      addresses = [];
    };
  }

  -- `CFidTransaction()`
  unfoldable pub new_transaction : F → Transaction F
  new_transaction zero = record {
    type = b'T';
    txid = [];
    version = pos 1;
    time = pos 1;
    locktime = pos 1;
    vins = [];
    vouts = [];
    vin = [];
    vout = [];
    amount = zero;
    confirmations = 0;
    generated = false;
    blockhash = [];
    blockindex = negsuc 0;
    blocktime = pos 0;
    timereceived = pos 0;
    details = codes "blockchain fid";
  }

  -- `checkValidy()`, as a test.
  unfoldable pub transaction_valid : Transaction F → Bool
  transaction_valid tx = not (is_empty tx.txid)

  -- `clear()`
  unfoldable pub clear_transaction : F → Transaction F → Transaction F
  clear_transaction zero tx = record {
    type = b'T';
    txid = [];
    version = pos 0;
    time = pos 0;
    locktime = pos 0;
    vins = [];
    vouts = [];
    vin = [];
    vout = [];
    amount = zero;
    confirmations = 0;
    generated = false;
    blockhash = [];
    blockindex = pos 0;
    blocktime = pos 0;
    timereceived = pos 0;
    details = [];
  }
