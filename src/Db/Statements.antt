-- ===== src/Db/Statements.antt =====
-- The rows and statements of the program, by the columns that it names.
use fidinventor.Base.{ℕ, ℤ, pos, ◌+ℤ◌}
use fidinventor.Base.Text.{Bytes}
use fidinventor.Chain.Block.{Block}
use fidinventor.Chain.Transaction.{Vin, Vout, Transaction}

-- The row of `block`; `bk_vtx` is always null.
pub record BlockRow (F : Type 0) : Type 0 where
  pub bk_hash : Bytes
  pub bk_confirmations : ℕ
  pub bk_size : ℤ
  pub bk_height : ℕ
  pub bk_version : ℤ
  pub bk_merkleroot : Bytes
  pub bk_mint : F
  pub bk_time : Bytes
  pub bk_nonce : ℤ
  pub bk_bits : Bytes
  pub bk_difficulty : F
  pub bk_blocktrust : Bytes
  pub bk_chaintrust : Bytes
  pub bk_previousblockhash : Bytes
  pub bk_nextblockhash : Bytes
  pub bk_flags : Bytes
  pub bk_proofhash : Bytes
  pub bk_entropybit : ℤ
  pub bk_modifier : Bytes

-- The row of `blocktransaction`; the columns for inputs, outputs, `generated` and two times are null.
pub record TxRow (F : Type 0) : Type 0 where
  pub tx_id : Bytes
  pub tx_version : ℤ
  pub tx_time : Bytes
  pub tx_locktime : Bytes
  pub tx_type : ℕ
  pub tx_amount : F
  pub tx_confirmations : ℕ
  pub tx_blockhash : Bytes
  pub tx_details : Bytes

-- The row of `blocktx_vout`.
pub record VoutRow (F : Type 0) : Type 0 where
  pub bktx_txid : Bytes
  pub bktx_blockhash : Bytes
  pub bktx_type : ℕ
  pub bktx_voutvalue : F
  pub bktx_voutn : ℤ
  pub bktx_voutaddresses : Bytes
  pub bktx_voutstasm : Bytes
  pub bktx_voutstreq_sigs : ℤ
  pub bktx_voutsttype : Bytes

-- The row of `blocktx_vin`.
pub record VinRow (F : Type 0) : Type 0 where
  pub bktx_txid : Bytes
  pub bktx_blockhash : Bytes
  pub bktx_prevtxid : Bytes
  pub bktx_prevvoutn : ℤ
  pub bktx_vinstasm : Bytes
  pub bktx_vinsthex : Bytes
  pub bktx_vinsequence : ℕ
  pub bktx_vinvalue : F
  pub bktx_vinaddresses : Bytes
  pub bktx_type : ℕ

pub data Statement (F : Type 0) : Type 0 where
  insert_block : BlockRow F → Statement F
  insert_tx : TxRow F → Statement F
  insert_vout : VoutRow F → Statement F
  insert_vin : VinRow F → Statement F
  -- The previous transaction's id, the index of its output, and the transaction to update.
  update_vin : Bytes → ℤ → Bytes → Statement F

module _ {F : Type 0} (date_text : ℤ → Bytes) where
  -- The parameters of `CMysqlDb::insertBlock`. The pointer comparison in front of the hash is never
  -- true, so the text "need block hash" is not used.
  unfoldable pub block_row : Block F → BlockRow F
  block_row b = record {
    bk_hash = b.hash;
    bk_confirmations = b.confirmations;
    bk_size = b.size;
    bk_height = b.height;
    bk_version = b.version;
    bk_merkleroot = b.merkleroot;
    bk_mint = b.mint;
    bk_time = date_text b.time;
    bk_nonce = b.nonce;
    bk_bits = b.bits;
    bk_difficulty = b.difficulty;
    bk_blocktrust = b.blocktrust;
    bk_chaintrust = b.chaintrust;
    bk_previousblockhash = b.previousblockhash;
    bk_nextblockhash = b.nextblockhash;
    bk_flags = b.flags;
    bk_proofhash = b.proofhash;
    bk_entropybit = b.entropybit;
    bk_modifier = b.modifier;
  }

  -- The parameters of `CMysqlDb::insertTx`; the lock time is shown a second late.
  unfoldable pub tx_row : Transaction F → TxRow F
  tx_row tx = record {
    tx_id = tx.txid;
    tx_version = tx.version;
    tx_time = date_text tx.time;
    tx_locktime = date_text (tx.locktime +ℤ pos 1);
    tx_type = tx.type;
    tx_amount = tx.amount;
    tx_confirmations = tx.confirmations;
    tx_blockhash = tx.blockhash;
    tx_details = tx.details;
  }

module _ {F : Type 0} where
  -- The parameters of `CMysqlDb::insertTxVout`.
  unfoldable pub vout_row : Transaction F → Vout F → VoutRow F
  vout_row tx vout = record {
    bktx_txid = tx.txid;
    bktx_blockhash = tx.blockhash;
    bktx_type = vout.type;
    bktx_voutvalue = vout.value;
    bktx_voutn = vout.n;
    bktx_voutaddresses = vout.script_pub_key.addresses;
    bktx_voutstasm = vout.script_pub_key.sasm;
    bktx_voutstreq_sigs = vout.script_pub_key.req_sigs;
    bktx_voutsttype = vout.script_pub_key.type;
  }

  -- The parameters of `CMysqlDb::insertTxVin`, where the column for the script's text gets its hex
  -- form, and the other way round.
  unfoldable pub vin_row : Transaction F → Vin F → VinRow F
  vin_row tx vin = record {
    bktx_txid = tx.txid;
    bktx_blockhash = tx.blockhash;
    bktx_prevtxid = vin.txid;
    bktx_prevvoutn = vin.vout;
    bktx_vinstasm = vin.script_sig.hex;
    bktx_vinsthex = vin.script_sig.sasm;
    bktx_vinsequence = vin.sequence;
    bktx_vinvalue = vin.value;
    bktx_vinaddresses = vin.addresses;
    bktx_type = vin.type;
  }
