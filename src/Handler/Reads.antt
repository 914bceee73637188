-- ===== src/Handler/Reads.antt =====
-- What the calls over RPC give a handler: a block and transactions that were read out of replies.
use fidinventor.Base.{◌≡◌, ap, sym, ◌∙◌, List, [], ◌∷◌, ◌++◌, append_assoc, append-nil, ℤ}
use fidinventor.Base.Text.{Bytes, codes}
use fidinventor.Base.Decimal.{decimal_ℤ}
use fidinventor.Base.Result.{Result, ok, ok-injective}
use fidinventor.Chain.Block.{Block}
use fidinventor.Chain.Transaction.{Transaction, new_transaction}
use fidinventor.Handler.SwitchBlock.{switch_block}
use fidinventor.Handler.SwitchTx.{switch_tx}
use fidinventor.Handler.World.{Env, World, pure, lift, ◌>>=◌}
use fidinventor.Handler.Fetch.{
  Answer, Handler, fetch, get_block_by_number, get_transaction, get_transactions,
}
use fidinventor.Handler.Frames.{continue-ok}

module _ (env : Env) where
  open env use {floats.{Float, zero}}

  -- A block and the ids that were read out of a reply to the call for a height, over an old block.
  abbrev pub BlockOf : ℤ → Block Float → Block Float → List Bytes → Type 0
  BlockOf height old block ids =
      (w w₁ : World Float) × (a : Answer Float) × (fetch env
          (codes "getblockbynumber " ++ decimal_ℤ height) w
        ≡ (ok a, w₁))
      × (switch_block env.text a.reply old ≡ ok (ids, block))

  -- A transaction that was read out of a reply to the call for an id.
  abbrev pub TxOf : Bytes → Transaction Float → Type 0
  TxOf txid tx =
      (w w₁ : World Float) × (a : Answer Float) × (code : ℤ) × (fetch env
          (codes "gettransaction " ++ txid) w
        ≡ (ok a, w₁))
      × (switch_tx env.floats env.text env.storage a.reply (new_transaction zero) ≡ ok (code, tx))

  -- One transaction for each id, in their order.
  abbrev pub EachTx : List Bytes → List (Transaction Float) → Type 0
  EachTx [] [] = Unit
  EachTx (txid ∷ ids) (tx ∷ txs) = TxOf txid tx × EachTx ids txs
  EachTx [] (tx ∷ txs) = ⊥
  EachTx (txid ∷ ids) [] = ⊥

  -- What `getBlockByNumber` returns and leaves was read out of a reply.
  pub get_block_by_number-ok :
      (height : ℤ) (hand : Handler Float) (w : World Float) {ids : List Bytes}
      {hand' : Handler Float} {w' : World Float}
      → get_block_by_number env height hand w ≡ (ok (ids, hand'), w')
      → BlockOf height hand.block hand'.block ids × (hand'.vtx ≡ hand.vtx)
  unfolding get_block_by_number ◌>>=◌ pure lift
  get_block_by_number-ok height hand w h =
      let (a, w₁, e₁, h₁) = continue-ok (fetch env _ w) _ h in
      let ((ids₂, block), w₂, e₂, h₂) =
        continue-ok (lift (switch_block env.text a.reply hand.block) w₁) _ h₁ in
      let done =
        ok-injective (ap (λ (r : Result (List Bytes × Handler Float) × World Float). r.0) h₂) in
      (
        (
          w,
          w₁,
          a,
          e₁,
          ap (λ (r : Result (List Bytes × Block Float) × World Float). r.0) e₂
              ∙ ap (λ (r : List Bytes × Handler Float). ok (r.0, r.1.block)) done,
        ),
        sym (ap (λ (r : List Bytes × Handler Float). r.1.vtx) done),
      )

  -- Each call of `getTransaction` that returns adds one transaction.
  get_transaction-ok :
      (txid : Bytes) (hand : Handler Float) (w : World Float) {code : ℤ} {hand' : Handler Float}
      {w' : World Float}
      → get_transaction env txid hand w ≡ (ok (code, hand'), w')
      → (tx : Transaction Float) × TxOf txid tx
        × (hand'.vtx ≡ hand.vtx ++ tx ∷ [])
        × (hand'.block ≡ hand.block)
  unfolding get_transaction ◌>>=◌ pure lift
  get_transaction-ok txid hand w h =
      let (a, w₁, e₁, h₁) = continue-ok (fetch env _ w) _ h in
      let ((code₂, tx), w₂, e₂, h₂) =
        continue-ok
          (lift (switch_tx env.floats env.text env.storage a.reply (new_transaction zero)) w₁) _
          h₁ in
      let done = ok-injective (ap (λ (r : Result (ℤ × Handler Float) × World Float). r.0) h₂) in
      (
        tx,
        (w, w₁, a, code₂, e₁, ap (λ (r : Result (ℤ × Transaction Float) × World Float). r.0) e₂),
        sym (ap (λ (r : ℤ × Handler Float). r.1.vtx) done),
        sym (ap (λ (r : ℤ × Handler Float). r.1.block) done),
      )

  pub get_transactions-ok :
      (ids : List Bytes) (hand : Handler Float) (w : World Float) {hand' : Handler Float}
      {w' : World Float}
      → get_transactions env ids hand w ≡ (ok hand', w')
      → (txs : List (Transaction Float)) × EachTx ids txs
        × (hand'.vtx ≡ hand.vtx ++ txs)
        × (hand'.block ≡ hand.block)
  unfolding get_transactions ◌>>=◌ pure
  get_transactions-ok [] hand w h =
      let done = ok-injective (ap (λ (r : Result (Handler Float) × World Float). r.0) h) in
      (
        [],
        tt,
        sym (ap (λ (t : Handler Float). t.vtx) done) ∙ sym (append-nil hand.vtx),
        sym (ap (λ (t : Handler Float). t.block) done),
      )
  get_transactions-ok (txid ∷ ids) hand w h =
      let ((code, hand₁), w₁, e₁, h₁) = continue-ok (get_transaction env txid hand w) _ h in
      let (tx, read, added, same) = get_transaction-ok txid hand w e₁ in
      let (txs, each, more, same₂) = get_transactions-ok ids hand₁ w₁ h₁ in
      (
        tx ∷ txs,
        (read, each),
        more ∙ ap (λ l. l ++ txs) added ∙ append_assoc hand.vtx (tx ∷ []) txs,
        same₂ ∙ same,
      )
