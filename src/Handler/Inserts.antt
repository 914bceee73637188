-- ===== src/Handler/Inserts.antt =====
-- What a handler sends to the database for the block and the transactions that it holds.
use fidinventor.Base.{
  ◌≡◌, ap, sym, ◌∙◌, Bool, true, false, not, ◌||◌, List, [], ◌∷◌, ◌++◌, append_assoc, append-nil,
  length, ℤ, pos, negsuc, if◌then◌else◌,
}
use fidinventor.Base.Text.{Bytes, codes, is_empty}
use fidinventor.Base.Result.{Result, ok, throw}
use fidinventor.Chain.Block.{Block, block_valid}
use fidinventor.Chain.Transaction.{Transaction, transaction_valid}
use fidinventor.Db.Statements.{Statement, insert_block, block_row}
use fidinventor.Db.Session.{
  Session, then_on, init_db, init_db_with, fixed_login, config_login, Login,
}
use fidinventor.Db.Insert.{finished, insert_block_row, insert_transaction}
use fidinventor.Db.Laws.{
  NeverFails, sending, tx_statements, insert_counted-done, insert_transaction-done,
}
use fidinventor.Handler.World.{Env}
use fidinventor.Handler.Fetch.{Handler}
use fidinventor.Handler.Store.{
  or_code, returned, insert_bk, insert_tx, insert_db_block, insert_txs, insert_db_trans,
  insert_db_block_trans,
}

module _ {F : Type 0} where
  -- The row of a block that has a hash.
  unfoldable pub block_statements : (ℤ → Bytes) → Block F → List (Statement F)
  block_statements date_text block =
      if is_empty block.hash then [] else insert_block (block_row date_text block) ∷ []

  -- The rows of the transactions that have an id, in order.
  unfoldable pub txs_statements : (ℤ → Bytes) → List (Transaction F) → List (Statement F)
  txs_statements date_text [] = []
  txs_statements date_text (tx ∷ txs) =
      let rest = txs_statements date_text txs in
      if is_empty tx.txid then rest else tx_statements date_text tx ++ rest

module _ (env : Env) (good : NeverFails env.server) where
  open env use {floats.{Float}, server, date_text, args}

  -- A connection that is open is not opened again.
  login-done :
      (login : Login) (s : Session Float)
      → s.inited ≡ true
      → init_db_with server login s ≡ (ok (pos 1), s)
  unfolding init_db_with
  login-done login s h =
      ap
        (λ b.
          if b
          then (ok (pos 1), s)
          else if server.accepts (length s.logins) login
          then (ok (pos 0), record s { inited = true; logins = s.logins ++ login ∷ [] })
          else (throw server.login_error, record s { logins = s.logins ++ login ∷ [] }))
        h

  init-done : (s : Session Float) → s.inited ≡ true → init_db server args s ≡ (ok (pos 1), s)
  unfolding init_db
  init-done s h = login-done (config_login args) s h

  insert_tx-done :
      (tx : Transaction Float) (s : Session Float)
      → s.inited ≡ true
      → insert_tx env tx s ≡ (ok (pos 0), sending s (tx_statements date_text tx))
  unfolding insert_tx
  insert_tx-done tx s h =
      ap (λ r. then_on r (λ (_ : ℤ) s₁. returned env (insert_transaction server date_text tx s₁)))
        (init-done s h)
      ∙ ap (returned env) (insert_transaction-done server good date_text tx s)

  insert_bk-done :
      (block : Block Float) (s : Session Float)
      → s.inited ≡ true
      → insert_bk env block s
        ≡ (ok (pos 0), sending s (insert_block (block_row date_text block) ∷ []))
  unfolding insert_bk insert_block_row
  insert_bk-done block s h =
      ap (λ r. then_on r (λ (_ : ℤ) s₁. returned env (insert_block_row server date_text block s₁)))
        (login-done fixed_login s h)
      ∙ ap (returned env) (
          insert_counted-done server good (insert_block (block_row date_text block)) (codes "block")
            (finished server) s)

  pub insert_db_block-done :
      (hand : Handler Float) (s : Session Float)
      → s.inited ≡ true
      → (code : ℤ) × (insert_db_block env hand s
          ≡ (ok code, sending s (block_statements date_text hand.block)))
  unfolding insert_db_block block_valid block_statements
  insert_db_block-done hand s h = by_test (is_empty hand.block.hash)
    where
      by_test :
          (b : Bool)
          → (code : ℤ) × (if◌then◌else◌ {A = Result ℤ × Session Float}
                (b || not (not b))
                (ok (negsuc 0), s)
                (insert_bk env hand.block s)
              ≡ (
                ok code,
                sending s (if b then [] else insert_block (block_row date_text hand.block) ∷ []),
              ))
      by_test true =
          (negsuc 0, ap (λ l. (ok (negsuc 0), record s { sent = l })) (sym (append-nil s.sent)))
      by_test false = (pos 0, insert_bk-done hand.block s h)

  -- The rest of the loop, and of its statements, where `b` tells whether the id is empty.
  abbrev after :
      Bool
      → Transaction Float
      → List (Transaction Float)
      → ℤ
      → Session Float
      → Result ℤ × Session Float
  after b tx txs code s = elim (b || not (not b)) [
    | true ↦ insert_txs env txs code s
    | false ↦
        then_on (insert_tx env tx s) (λ result s₁. insert_txs env txs (or_code code result) s₁)
  ]

  abbrev txs_rest : Bool → Transaction Float → List (Transaction Float) → List (Statement Float)
  txs_rest b tx txs =
      let rest = txs_statements date_text txs in
      if b then rest else tx_statements date_text tx ++ rest

  pub insert_txs-done :
      (txs : List (Transaction Float)) (code : ℤ) (s : Session Float)
      → s.inited ≡ true
      → (last : ℤ) × (insert_txs env txs code s
          ≡ (ok last, sending s (txs_statements date_text txs)))
  unfolding insert_txs transaction_valid txs_statements
  insert_txs-done [] code s h =
      (code, ap (λ l. (ok code, record s { sent = l })) (sym (append-nil s.sent)))
  insert_txs-done (tx ∷ txs) code s h =
      by_test (is_empty tx.txid) (insert_txs-done txs code s h)
        (insert_txs-done txs (or_code code (pos 0)) (sending s (tx_statements date_text tx)) h)
    where
      by_test :
          (b : Bool)
          → (last : ℤ) × (insert_txs env txs code s
              ≡ (ok last, sending s (txs_statements date_text txs)))
          → (last : ℤ) × (insert_txs env txs
                (or_code code (pos 0))
                (sending s (tx_statements date_text tx))
              ≡ (
                ok last,
                sending (sending s (tx_statements date_text tx)) (txs_statements date_text txs),
              ))
          → (last : ℤ) × (after b tx txs code s ≡ (ok last, sending s (txs_rest b tx txs)))
      by_test true skipped sent = skipped
      by_test false skipped (last, e) = (
        last,
        ap (λ r. then_on r (λ result s₁. insert_txs env txs (or_code code result) s₁))
              (insert_tx-done tx s h)
            ∙ e
            ∙ ap (λ l. (ok last, record s { sent = l })) (append_assoc s.sent _ _),
      )

  -- Over a connection that is open and does not fail, inserting what a handler holds sends the row
  -- of its block, where the block has a hash, and then for each transaction that has an id its rows
  -- in order; the result is 0.
  pub insert_db_block_trans-done :
      (hand : Handler Float) (s : Session Float)
      → s.inited ≡ true
      → insert_db_block_trans env hand s ≡ (
        ok (pos 0),
        sending s (block_statements date_text hand.block ++ txs_statements date_text hand.vtx),
      )
  unfolding insert_db_block_trans insert_db_trans
  insert_db_block_trans-done hand s h =
      let (code, e) = insert_db_block-done hand s h in
      let (last, e₂) =
        insert_txs-done hand.vtx (pos 0) (sending s (block_statements date_text hand.block)) h in
      ap
        (λ r.
          then_on r
            (λ (_ : ℤ) s₁. then_on (insert_txs env hand.vtx (pos 0) s₁) (λ _ s₂. (ok (pos 0), s₂))))
        e
      ∙ ap (λ r. then_on r (λ (_ : ℤ) s₂. (ok (pos 0), s₂))) e₂
      ∙ ap (λ l. (ok (pos 0), record s { sent = l })) (append_assoc s.sent _ _)
