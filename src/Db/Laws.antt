-- ===== src/Db/Laws.antt =====
-- What an insertion sends to the database.
use fidinventor.Base.{
  ◌≡◌, refl, ap, sym, ◌∙◌, List, [], ◌∷◌, ◌++◌, append_assoc, append-nil, ℤ, pos,
}
use fidinventor.Base.Text.{Bytes, codes}
use fidinventor.Chain.Transaction.{Vin, Vout, Transaction}
use fidinventor.Db.Statements.{
  Statement, insert_tx, insert_vout, insert_vin, update_vin, tx_row, vout_row, vin_row,
}
use fidinventor.Db.Session.{
  Outcome, done, bad_query, bad_conversion, other_error, Server, Session, after_outcome, execute,
}
use fidinventor.Db.Insert.{
  on_done, counted, insert_counted, finished, update_vout_by_txid, insert_tx_vout, insert_tx_vin,
  insert_vouts, insert_vins, insert_transaction,
}

-- Every statement is carried out, and every count succeeds.
pub record NeverFails {F : Type 0} (server : Server F) : Type 0 where
  pub executes : (sent : List (Statement F)) (st : Statement F) → server.execute sent st ≡ done
  pub counts : (sent : List (Statement F)) (table : Bytes) → server.count_rows sent table ≡ done

module _ {F : Type 0} where
  -- The session with more statements sent.
  abbrev pub sending : Session F → List (Statement F) → Session F
  sending s more = record s { sent = s.sent ++ more }

  -- The statements for the outputs and for the inputs of a transaction.
  unfoldable pub vout_statements : Transaction F → List (Vout F) → List (Statement F)
  vout_statements tx [] = []
  vout_statements tx (vout ∷ vouts) = insert_vout (vout_row tx vout) ∷ vout_statements tx vouts

  unfoldable pub vin_statements : Transaction F → List (Vin F) → List (Statement F)
  vin_statements tx [] = []
  vin_statements tx (vin ∷ vins) =
      insert_vin (vin_row tx vin) ∷ update_vin vin.txid vin.vout tx.txid ∷ vin_statements tx vins

  -- All statements for a transaction, in order.
  unfoldable pub tx_statements : (ℤ → Bytes) → Transaction F → List (Statement F)
  tx_statements date_text tx =
      insert_tx (tx_row date_text tx) ∷ (vout_statements tx tx.vouts ++ vin_statements tx tx.vins)

-- The exceptions of the library, and the number that stands for each.
pub data IsFailure : Outcome → ℤ → Type 0 where
  query_failed : IsFailure bad_query (pos 1)
  conversion_failed : IsFailure bad_conversion (pos 2)
  failed : IsFailure other_error (pos 3)

module _ {F : Type 0} (server : Server F) where
  module _ (good : NeverFails server) where
    execute-done :
        (st : Statement F) (s : Session F) → execute server st s ≡ (done, sending s (st ∷ []))
    unfolding execute
    execute-done st s = ap (λ o. after_outcome server o st s) (good.executes s.sent st)

    pub insert_counted-done :
        (st : Statement F) (table : Bytes) (rest : Session F → ℤ × Session F) (s : Session F)
        → insert_counted server st table rest s ≡ rest (sending s (st ∷ []))
    unfolding insert_counted
    insert_counted-done st table rest s =
        ap (λ r. on_done server r (λ s₁. on_done server (counted server table s₁) rest))
          (execute-done st s)
        ∙ ap (λ o. on_done server (o, sending s (st ∷ [])) rest)
            (good.counts (s.sent ++ st ∷ []) table)

    update-done :
        (tx : Transaction F) (vin : Vin F) (s : Session F)
        → update_vout_by_txid server tx vin s
          ≡ (pos 0, sending s (update_vin vin.txid vin.vout tx.txid ∷ []))
    unfolding update_vout_by_txid
    update-done tx vin s =
        ap (λ r. on_done server r (finished server))
          (execute-done (update_vin vin.txid vin.vout tx.txid) s)

    vout-done :
        (tx : Transaction F) (vout : Vout F) (s : Session F)
        → insert_tx_vout server tx vout s ≡ (pos 0, sending s (insert_vout (vout_row tx vout) ∷ []))
    unfolding insert_tx_vout
    vout-done tx vout s =
        insert_counted-done (insert_vout (vout_row tx vout)) (codes "blocktx_vout")
          (finished server) s

    vin-done :
        (tx : Transaction F) (vin : Vin F) (s : Session F)
        → insert_tx_vin server tx vin s ≡ (
          pos 0,
          sending
              (sending s (insert_vin (vin_row tx vin) ∷ []))
              (update_vin vin.txid vin.vout tx.txid ∷ []),
        )
    unfolding insert_tx_vin
    vin-done tx vin s =
        insert_counted-done (insert_vin (vin_row tx vin)) (codes "blocktx_vin")
          (λ s'. (pos 0, (update_vout_by_txid server tx vin s').1)) s
        ∙ ap (λ (r : ℤ × Session F). (pos 0, r.1))
            (update-done tx vin (sending s (insert_vin (vin_row tx vin) ∷ [])))

    vouts-done :
        (tx : Transaction F) (vouts : List (Vout F)) (s : Session F)
        → insert_vouts server tx vouts s ≡ sending s (vout_statements tx vouts)
    unfolding insert_vouts vout_statements
    vouts-done tx [] s = rw append-nil
    vouts-done tx (vout ∷ vouts) s = rw (vout-done tx vout s, vouts-done tx vouts, append_assoc)

    vins-done :
        (tx : Transaction F) (vins : List (Vin F)) (s : Session F)
        → insert_vins server tx vins s ≡ sending s (vin_statements tx vins)
    unfolding insert_vins vin_statements
    vins-done tx [] s = rw append-nil
    vins-done tx (vin ∷ vins) s = simp (vin-done tx vin s, vins-done tx vins, append_assoc)

    ends-done :
        (tx : Transaction F) (s : Session F)
        → insert_vins server tx tx.vins (insert_vouts server tx tx.vouts s)
          ≡ sending s (vout_statements tx tx.vouts ++ vin_statements tx tx.vins)
    ends-done tx s =
        ap (insert_vins server tx tx.vins) (vouts-done tx tx.vouts s)
        ∙ vins-done tx tx.vins (sending s (vout_statements tx tx.vouts))
        ∙ rw append_assoc

    -- Where nothing fails, inserting a transaction sends its own row, then a row for each output,
    -- then for each input its row and the update that copies amount and address; it returns 0, and
    -- changes nothing else of the session.
    pub insert_transaction-done :
        (date_text : ℤ → Bytes) (tx : Transaction F) (s : Session F)
        → insert_transaction server date_text tx s ≡ (pos 0, sending s (tx_statements date_text tx))
    unfolding insert_transaction tx_statements
    insert_transaction-done date_text tx s =
        insert_counted-done (insert_tx (tx_row date_text tx)) (codes "blocktransaction")
          (λ s₁. (pos 0, insert_vins server tx tx.vins (insert_vouts server tx tx.vouts s₁))) s
        ∙ ap (λ s₁. (pos 0, s₁)) (ends-done tx (sending s (insert_tx (tx_row date_text tx) ∷ [])))
        ∙ rw append_assoc

  -- The first call of the library that fails for the row of a transaction, and what was sent by then.
  pub data FailsAt (row : Statement F) (s : Session F) (o : Outcome)
      : List (Statement F) → Type 0 where
    at_row : server.execute s.sent row ≡ o → FailsAt row s o []
    at_count :
        server.execute s.sent row ≡ done
        → server.count_rows (s.sent ++ row ∷ []) (codes "blocktransaction") ≡ o
        → FailsAt row s o (row ∷ [])

  refused :
      (rest : Session F → ℤ × Session F) (s : Session F) {o : Outcome} {code : ℤ}
      → IsFailure o code
      → on_done server (o, s) rest ≡ (code, s)
  refused rest s query_failed = refl
  refused rest s conversion_failed = refl
  refused rest s failed = refl

  not_sent :
      (st : Statement F) (s : Session F) {o : Outcome} {code : ℤ}
      → IsFailure o code
      → after_outcome server o st s ≡ (o, s)
  not_sent st s query_failed = refl
  not_sent st s conversion_failed = refl
  not_sent st s failed = refl

  -- Where the row of a transaction, or the count behind it, ends with an exception, inserting the
  -- transaction returns 1 for a bad query, 2 for a bad conversion and 3 for any other error of the
  -- library; its outputs and inputs are not sent: nothing was sent but the row, if that was carried out.
  pub insert_transaction-failed :
      (date_text : ℤ → Bytes) (tx : Transaction F) (s : Session F) {o : Outcome} {code : ℤ}
      {sent : List (Statement F)}
      → IsFailure o code
      → FailsAt (insert_tx (tx_row date_text tx)) s o sent
      → insert_transaction server date_text tx s ≡ (code, sending s sent)
  unfolding insert_transaction insert_counted execute
  insert_transaction-failed date_text tx s {o} {code} failure (at_row e) =
      let row = insert_tx (tx_row date_text tx) in
      let rest : Session F → ℤ × Session F = λ s₁.
        on_done server (counted server (codes "blocktransaction") s₁)
          (λ s₂. (pos 0, insert_vins server tx tx.vins (insert_vouts server tx tx.vouts s₂))) in
      ap (λ o. on_done server (after_outcome server o row s) rest) e
      ∙ ap (λ r. on_done server r rest) (not_sent row s failure)
      ∙ refused rest s failure
      ∙ ap (λ l. (code, record s { sent = l })) (sym (append-nil s.sent))
  insert_transaction-failed date_text tx s failure (at_count e h) =
      let row = insert_tx (tx_row date_text tx) in
      let rest : Session F → ℤ × Session F =
        λ s₂. (pos 0, insert_vins server tx tx.vins (insert_vouts server tx tx.vouts s₂)) in
      ap
        (λ o.
          on_done server (after_outcome server o row s)
            (λ s₁. on_done server (counted server (codes "blocktransaction") s₁) rest))
        e
      ∙ ap (λ o. on_done server (o, sending s (row ∷ [])) rest) h
      ∙ refused rest (sending s (row ∷ [])) failure
