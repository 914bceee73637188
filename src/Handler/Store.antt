-- ===== src/Handler/Store.antt =====
-- The insertions: `insertBk`, `insertTx`, `insertDBBlock`, `insertDBTrans` and `insertDBBlockTrans`,
-- and `reset`.
use Prim.Native.Nat.{bit_or}
use fidinventor.Base.{
  true, false, not, ◌||◌, List, [], ◌∷◌, ℤ, pos, negsuc, pos_part, if◌then◌else◌,
}
use fidinventor.Base.Text.{is_empty}
use fidinventor.Base.Result.{Result, ok}
use fidinventor.Chain.Block.{Block, block_valid, clear_block, new_block}
use fidinventor.Chain.Transaction.{Transaction, transaction_valid}
use fidinventor.Db.Session.{Session, fixed_login, then_on, init_db, init_db_with}
use fidinventor.Db.Insert.{insert_block_row, insert_transaction}
use fidinventor.Handler.World.{Env, Action}
use fidinventor.Handler.Fetch.{Handler}

-- `a | b` for the results 0 to 3 of an insertion.
abbrev pub or_code : ℤ → ℤ → ℤ
or_code a b = pos (bit_or (pos_part a) (pos_part b))

module _ (env : Env) where
  open env use {floats.{Float, zero}, server, date_text, args}

  -- The number that an insertion returns.
  abbrev pub returned : ℤ × Session Float → Result ℤ × Session Float
  returned (code, s) = (ok code, s)

  -- `CFidDbWrap::insertBk(block)`; what `initDb` returns is not looked at.
  unfoldable pub insert_bk : Block Float → Session Float → Result ℤ × Session Float
  unfolding init_db_with insert_block_row
  insert_bk block s =
      then_on (init_db_with server fixed_login s)
        (λ _ s₁. returned (insert_block_row server date_text block s₁))

  -- `CFidDbWrap::insertTx(tx)`
  unfoldable pub insert_tx : Transaction Float → Session Float → Result ℤ × Session Float
  unfolding init_db insert_transaction
  insert_tx tx s =
      then_on (init_db server args s) (λ _ s₁. returned (insert_transaction server date_text tx s₁))

  -- `insertDBBlock()`
  unfoldable pub insert_db_block : Handler Float → Session Float → Result ℤ × Session Float
  unfolding block_valid insert_bk
  insert_db_block hand s =
      if is_empty hand.block.hash || not (block_valid hand.block)
      then (ok (negsuc 0), s)
      else insert_bk hand.block s

  -- The loop of `insertDBTrans()` with the result so far.
  unfoldable pub insert_txs :
      List (Transaction Float) → ℤ → Session Float → Result ℤ × Session Float
  unfolding insert_tx transaction_valid
  insert_txs [] code s = (ok code, s)
  insert_txs (tx ∷ txs) code s = elim (is_empty tx.txid || not (transaction_valid tx)) [
    | true ↦ insert_txs txs code s
    | false ↦ then_on (insert_tx tx s) (λ result s₁. insert_txs txs (or_code code result) s₁)
  ]

  -- `insertDBTrans()`
  unfoldable pub insert_db_trans : Handler Float → Session Float → Result ℤ × Session Float
  unfolding insert_txs
  insert_db_trans hand s = insert_txs hand.vtx (pos 0) s

  -- `insertDBBlockTrans()`
  unfoldable pub insert_db_block_trans : Handler Float → Session Float → Result ℤ × Session Float
  unfolding insert_db_block insert_db_trans
  insert_db_block_trans hand s =
      then_on (insert_db_block hand s)
        (λ _ s₁. then_on (insert_db_trans hand s₁) (λ _ s₂. (ok (pos 0), s₂)))

  -- A step on the session, as an action.
  unfoldable pub on_session : (Session Float → Result ℤ × Session Float) → Action Float ℤ
  on_session step w = ((step w.session).0, record w { session = (step w.session).1 })

  -- `CFidHandler(task)`
  unfoldable pub new_handler : Handler Float
  unfolding new_block
  new_handler = record { height = negsuc 0; block = new_block env.block_storage; vtx = [] }

  -- `reset()`
  unfoldable pub reset : Handler Float → Handler Float
  unfolding clear_block
  reset hand = record hand { block = clear_block zero hand.block; vtx = [] }
