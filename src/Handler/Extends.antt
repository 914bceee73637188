-- ===== src/Handler/Extends.antt =====
-- What no action of a handler does: take back a call or a statement, or ask the node for anything but
-- blocks and transactions.
use fidinventor.Base.{
  ◌≡◌, refl, ap, sym, ◌∙◌, ◌⊎◌, inl, inr, Bool, true, false, not, ◌||◌, List, [], ◌∷◌, ◌++◌,
  append_assoc, append-nil, All, All-append, ℤ, pos, negsuc, if◌then◌else◌, arith,
}
use fidinventor.Base.Text.{Bytes, codes, is_empty}
use fidinventor.Base.Decimal.{decimal_ℤ}
use fidinventor.Base.Result.{Result, ok, throw, undefined}
use fidinventor.Json.Value.{Value}
use fidinventor.Rpc.Convert.{rpc_convert_values}
use fidinventor.Chain.Block.{block_valid}
use fidinventor.Chain.Transaction.{Transaction, transaction_valid}
use fidinventor.Db.Session.{Session, then_on, init_db_with, init_db, fixed_login}
use fidinventor.Db.Grows.{
  Grows, Grows-refl, insert_block_row-Grows, insert_transaction-Grows, init_db_with-Grows,
  init_db-Grows, then_on-Grows,
}
use fidinventor.Handler.World.{Call, Env, World, Action, continue, pure, lift, ◌>>=◌}
use fidinventor.Handler.Fetch.{
  Handler, with_command, answer, ask_node, call_task, switch_words, switch_params, fetch,
  get_block_count, get_block_by_number, get_transaction, get_transactions,
}
use fidinventor.Handler.Store.{
  or_code, insert_bk, insert_tx, insert_db_block, insert_txs, insert_db_trans,
  insert_db_block_trans, on_session,
}

-- A call that only asks for a count, a block or a transaction.
abbrev pub IsReading : {F : Type 0} → Call F → Type 0
IsReading call =
    (call.0 ≡ codes "getblockcount")
    ⊎ (call.0 ≡ codes "getblockbynumber")
    ⊎ (call.0 ≡ codes "gettransaction")

-- A later world: only such calls were made, and the session has grown.
pub record Extends {F : Type 0} (w₀ w : World F) : Type 0 where
  pub asked : List (Call F)
  pub calls_after : w.calls ≡ w₀.calls ++ asked
  pub reading : All IsReading asked
  pub grows : Grows w₀.session w.session

pub Extends-refl : {F : Type 0} (w : World F) → Extends w w
Extends-refl w = record {
  asked = [];
  calls_after = sym (append-nil w.calls);
  reading = tt;
  grows = Grows-refl w.session;
}

module _ {F A B : Type 0} {w₀ : World F} where
  -- A chain extends a world where both its parts do, also where it throws.
  pub continue-Extends :
      (r : Result A × World F) (f : A → Action F B)
      → Extends w₀ r.1
      → ((a : A) (w : World F) → Extends w₀ w → Extends w₀ (f a w).1)
      → Extends w₀ (continue r f).1
  continue-Extends (ok a, w) f x k = k a w x
  continue-Extends (throw e, w) f x k = x
  continue-Extends (undefined, w) f x k = x

module _ {F A : Type 0} {w₀ : World F} where
  pub if-Extends :
      (b : Bool) (m n : Action F A) (w : World F)
      → Extends w₀ (m w).1
      → Extends w₀ (n w).1
      → Extends w₀ ((if b then m else n) w).1
  if-Extends true m n w x y = x
  if-Extends false m n w x y = y

module _ (env : Env) {s₀ : Session env.floats.Float} where
  open env use {floats.{Float}, server, date_text, args}

  insert_db_block-Grows :
      (hand : Handler Float) (s : Session Float)
      → Grows s₀ s
      → Grows s₀ (insert_db_block env hand s).1
  unfolding insert_db_block insert_bk
  insert_db_block-Grows hand s g =
      by_test (is_empty hand.block.hash || not (block_valid hand.block))
    where
      by_test :
          (b : Bool)
          → Grows s₀
              (if◌then◌else◌ {A = Result ℤ × Session Float} b
                (ok (negsuc 0), s)
                (insert_bk env hand.block s)).1
      by_test true = g
      by_test false =
          then_on-Grows (init_db_with server fixed_login s) _
            (init_db_with-Grows server fixed_login s g)
            (λ _ s₁ g₁. insert_block_row-Grows server date_text hand.block s₁ g₁)

  insert_txs-Grows :
      (txs : List (Transaction Float)) (code : ℤ) (s : Session Float)
      → Grows s₀ s
      → Grows s₀ (insert_txs env txs code s).1
  unfolding insert_txs insert_tx
  insert_txs-Grows [] code s g = g
  insert_txs-Grows (tx ∷ txs) code s g =
      by_test (is_empty tx.txid || not (transaction_valid tx)) (insert_txs-Grows txs)
    where
      by_test :
          (b : Bool)
          → ((code : ℤ) (s : Session Float) → Grows s₀ s → Grows s₀ (insert_txs env txs code s).1)
          → Grows s₀
              (elim b as (λ x. Result ℤ × Session Float) [
                | true ↦ insert_txs env txs code s
                | false ↦
                    then_on
                      (insert_tx env tx s)
                      (λ result s₁. insert_txs env txs (or_code code result) s₁)
              ]).1
      by_test true rest = rest code s g
      by_test false rest =
          then_on-Grows (insert_tx env tx s) _
            (then_on-Grows (init_db server args s) _ (init_db-Grows server args s g)
              (λ _ s₁ g₁. insert_transaction-Grows server date_text tx s₁ g₁))
            (λ result s₁ g₁. rest (or_code code result) s₁ g₁)

module _ (env : Env) {w₀ : World env.floats.Float} where
  open env use {floats.{Float}}

  ask_node-Extends :
      (call : Call Float) (w : World Float)
      → IsReading call
      → Extends w₀ w
      → Extends w₀ (ask_node env call w).1
  unfolding ask_node
  ask_node-Extends call w r x = record {
    asked = x.asked ++ call ∷ [];
    calls_after =
        ap (λ l. l ++ call ∷ []) x.calls_after ∙ append_assoc w₀.calls x.asked (call ∷ []);
    reading = All-append IsReading x.asked (call ∷ []) x.reading (r, tt);
    grows = x.grows;
  }

  call_task-Extends :
      (call : Call Float) (w : World Float)
      → IsReading call
      → Extends w₀ w
      → Extends w₀ (call_task env call w).1
  unfolding call_task ◌>>=◌ lift pure
  call_task-Extends (cmd, params) w r x =
      if-Extends (is_empty cmd) (pure _)
        (ask_node env (cmd, params) >>= (λ reply. lift (answer env reply))) w x
        (continue-Extends (ask_node env (cmd, params) w) _ (ask_node-Extends (cmd, params) w r x)
          (λ a w₁ x₁. x₁))

  commanded-Extends :
      (cmd : Bytes) (values : Result (List (Value Float))) (w : World Float)
      → IsReading {F = Float} (cmd, [])
      → Extends w₀ w
      → Extends w₀ (continue (with_command cmd values, w) (call_task env)).1
  commanded-Extends cmd (ok vs) w r x = call_task-Extends (cmd, vs) w r x
  commanded-Extends cmd (throw e) w r x = x
  commanded-Extends cmd undefined w r x = x

  fetch-Extends :
      (cmd command : Bytes) (words : List Bytes) (w : World Float)
      → env.algo.split command ≡ cmd ∷ words
      → IsReading {F = Float} (cmd, [])
      → Extends w₀ w
      → Extends w₀ (fetch env command w).1
  unfolding fetch ◌>>=◌ lift switch_params switch_words
  fetch-Extends cmd command words w e r x =
      rw e (commanded-Extends cmd (rpc_convert_values env.text cmd words) w r x)

  pub get_block_count-Extends :
      (hand : Handler Float) (w : World Float)
      → Extends w₀ w
      → Extends w₀ (get_block_count env hand w).1
  unfolding get_block_count ◌>>=◌ pure
  get_block_count-Extends hand w x =
      continue-Extends (fetch env (codes "getblockcount") w) _
        (fetch-Extends (codes "getblockcount") (codes "getblockcount") [] w
          (env.algo.split-Lacks (codes "getblockcount") (omega arith)) (inl refl) x)
        (λ a w₁ x₁. x₁)

  pub get_block_by_number-Extends :
      (height : ℤ) (hand : Handler Float) (w : World Float)
      → Extends w₀ w
      → Extends w₀ (get_block_by_number env height hand w).1
  unfolding get_block_by_number ◌>>=◌ pure lift
  get_block_by_number-Extends height hand w x =
      continue-Extends (fetch env _ w) _
        (fetch-Extends (codes "getblockbynumber") _ _ w
          (env.algo.split-append (codes "getblockbynumber") (decimal_ℤ height) (omega arith))
          (inr (inl refl)) x)
        (λ a w₁ x₁. continue-Extends (_, w₁) _ x₁ (λ r w₂ x₂. x₂))

  pub get_transaction-Extends :
      (txid : Bytes) (hand : Handler Float) (w : World Float)
      → Extends w₀ w
      → Extends w₀ (get_transaction env txid hand w).1
  unfolding get_transaction ◌>>=◌ pure lift
  get_transaction-Extends txid hand w x =
      continue-Extends (fetch env _ w) _
        (fetch-Extends (codes "gettransaction") _ _ w
          (env.algo.split-append (codes "gettransaction") txid (omega arith)) (inr (inr refl)) x)
        (λ a w₁ x₁. continue-Extends (_, w₁) _ x₁ (λ r w₂ x₂. x₂))

  pub get_transactions-Extends :
      (ids : List Bytes) (hand : Handler Float) (w : World Float)
      → Extends w₀ w
      → Extends w₀ (get_transactions env ids hand w).1
  unfolding get_transactions ◌>>=◌ pure
  get_transactions-Extends [] hand w x = x
  get_transactions-Extends (txid ∷ ids) hand w x =
      continue-Extends (get_transaction env txid hand w) _ (get_transaction-Extends txid hand w x)
        (λ r w₁ x₁. get_transactions-Extends ids r.1 w₁ x₁)

  on_session-Extends :
      (step : Session Float → Result ℤ × Session Float) (w : World Float)
      → (Grows w₀.session w.session → Grows w₀.session (step w.session).1)
      → Extends w₀ w
      → Extends w₀ (on_session env step w).1
  unfolding on_session
  on_session-Extends step w k x = record {
    asked = x.asked;
    calls_after = x.calls_after;
    reading = x.reading;
    grows = k x.grows;
  }

  pub insert_db_block-Extends :
      (hand : Handler Float) (w : World Float)
      → Extends w₀ w
      → Extends w₀ (on_session env (insert_db_block env hand) w).1
  insert_db_block-Extends hand w x =
      on_session-Extends (insert_db_block env hand) w (insert_db_block-Grows env hand w.session) x

  pub insert_db_trans-Extends :
      (hand : Handler Float) (w : World Float)
      → Extends w₀ w
      → Extends w₀ (on_session env (insert_db_trans env hand) w).1
  unfolding insert_db_trans
  insert_db_trans-Extends hand w x =
      on_session-Extends (insert_db_trans env hand) w
        (insert_txs-Grows env hand.vtx (pos 0) w.session) x

  pub insert_db_block_trans-Extends :
      (hand : Handler Float) (w : World Float)
      → Extends w₀ w
      → Extends w₀ (on_session env (insert_db_block_trans env hand) w).1
  unfolding insert_db_block_trans insert_db_trans
  insert_db_block_trans-Extends hand w x =
      on_session-Extends (insert_db_block_trans env hand) w
        (λ g.
          then_on-Grows (insert_db_block env hand w.session) _
            (insert_db_block-Grows env hand w.session g)
            (λ _ s₁ g₁.
              then_on-Grows (insert_txs env hand.vtx (pos 0) s₁) _
                (insert_txs-Grows env hand.vtx (pos 0) s₁ g₁) (λ _ s₂ g₂. g₂)))
        x
