-- ===== src/Db/Insert.antt =====
-- `insertBlock`, `insertTx`, `insertTxVout`, `insertTxVin` and `updateBlockTxVoutByTxidAndN`.
use fidinventor.Base.{List, [], ◌∷◌, ℤ, pos}
use fidinventor.Base.Text.{Bytes, codes}
use fidinventor.Chain.Block.{Block}
use fidinventor.Chain.Transaction.{Vin, Vout, Transaction}
use fidinventor.Db.Statements.{
  Statement, insert_block, insert_tx, insert_vout, insert_vin, update_vin, block_row, tx_row,
  vout_row, vin_row,
}
use fidinventor.Db.Session.{
  Outcome, done, bad_query, bad_conversion, other_error, Server, Session, execute,
}

-- The number that each handler of exceptions returns.
abbrev pub result_code : Outcome → ℤ
result_code done = pos 0
result_code bad_query = pos 1
result_code bad_conversion = pos 2
result_code other_error = pos 3

module _ {F : Type 0} (server : Server F) where
  -- The rest of a `try` block, which an exception skips.
  abbrev pub on_done : Outcome × Session F → (Session F → ℤ × Session F) → ℤ × Session F
  on_done (done, s) rest = rest s
  on_done (bad_query, s) rest = (result_code bad_query, s)
  on_done (bad_conversion, s) rest = (result_code bad_conversion, s)
  on_done (other_error, s) rest = (result_code other_error, s)

  -- Printing the number of rows after an insertion is a query too.
  abbrev pub counted : Bytes → Session F → Outcome × Session F
  counted table s = (server.count_rows s.sent table, s)

  -- An insertion, the count of the table, and the rest of the `try` block.
  unfoldable pub insert_counted :
      Statement F → Bytes → (Session F → ℤ × Session F) → Session F → ℤ × Session F
  unfolding execute
  insert_counted st table rest s =
      on_done (execute server st s) (λ s₁. on_done (counted table s₁) rest)

  abbrev pub finished : Session F → ℤ × Session F
  finished s = (pos 0, s)

  -- `insertBlock(block)`
  unfoldable pub insert_block_row : (ℤ → Bytes) → Block F → Session F → ℤ × Session F
  unfolding insert_counted block_row
  insert_block_row date_text block =
      insert_counted (insert_block (block_row date_text block)) (codes "block") finished

  -- `updateBlockTxVoutByTxidAndN(tx, txvin)`
  unfoldable pub update_vout_by_txid : Transaction F → Vin F → Session F → ℤ × Session F
  unfolding execute
  update_vout_by_txid tx vin s =
      on_done (execute server (update_vin vin.txid vin.vout tx.txid) s) finished

  -- `insertTxVout(tx, txvout)`
  unfoldable pub insert_tx_vout : Transaction F → Vout F → Session F → ℤ × Session F
  unfolding insert_counted vout_row
  insert_tx_vout tx vout =
      insert_counted (insert_vout (vout_row tx vout)) (codes "blocktx_vout") finished

  -- `insertTxVin(tx, txvin)`; what the update returns is not looked at.
  unfoldable pub insert_tx_vin : Transaction F → Vin F → Session F → ℤ × Session F
  unfolding insert_counted vin_row update_vout_by_txid
  insert_tx_vin tx vin =
      insert_counted (insert_vin (vin_row tx vin)) (codes "blocktx_vin")
        (λ s. (pos 0, (update_vout_by_txid tx vin s).1))

  unfoldable pub insert_vouts : Transaction F → List (Vout F) → Session F → Session F
  unfolding insert_tx_vout
  insert_vouts tx [] s = s
  insert_vouts tx (vout ∷ vouts) s = insert_vouts tx vouts (insert_tx_vout tx vout s).1

  unfoldable pub insert_vins : Transaction F → List (Vin F) → Session F → Session F
  unfolding insert_tx_vin
  insert_vins tx [] s = s
  insert_vins tx (vin ∷ vins) s = insert_vins tx vins (insert_tx_vin tx vin s).1

  -- `insertTx(tx)`: the outputs before the inputs; what their insertions return is not looked at.
  unfoldable pub insert_transaction : (ℤ → Bytes) → Transaction F → Session F → ℤ × Session F
  unfolding insert_counted insert_vouts insert_vins tx_row
  insert_transaction date_text tx =
      insert_counted (insert_tx (tx_row date_text tx)) (codes "blocktransaction")
        (λ s. (pos 0, insert_vins tx tx.vins (insert_vouts tx tx.vouts s)))
