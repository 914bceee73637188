-- ===== src/Handler/Frames.antt =====
-- What the calls over RPC leave as it is: the session of the database.
use fidinventor.Base.{◌≡◌, refl, Bool, true, false, List, [], ◌∷◌, ℤ, if◌then◌else◌}
use fidinventor.Base.Text.{Bytes, codes, is_empty}
use fidinventor.Base.Result.{Result, ok, throw, undefined}
use fidinventor.Db.Session.{Session}
use fidinventor.Handler.World.{Call, Env, World, Action, continue, pure, lift, ◌>>=◌}
use fidinventor.Handler.Fetch.{
  Handler, answer, ask_node, call_task, switch_params, fetch, get_block_count, get_block_by_number,
  get_transaction, get_transactions,
}

module _ {F A B : Type 0} where
  -- What a successful chain of actions is made of.
  pub continue-ok :
      (r : Result A × World F) (f : A → Action F B) {b : B} {w' : World F}
      → continue r f ≡ (ok b, w')
      → (a : A) × (w₁ : World F) × (r ≡ (ok a, w₁)) × (f a w₁ ≡ (ok b, w'))
  continue-ok (ok a, w) f h = (a, w, refl, h)
  continue-ok (throw e, w) f h = absurd (cc)
  continue-ok (undefined, w) f h = absurd (cc)

  -- A chain keeps the session where both its parts do.
  pub continue-session :
      (r : Result A × World F) (f : A → Action F B) (s : Session F)
      → r.1.session ≡ s
      → ((a : A) (w : World F) → w.session ≡ s → (f a w).1.session ≡ s)
      → (continue r f).1.session ≡ s
  continue-session (ok a, w) f s h k = k a w h
  continue-session (throw e, w) f s h k = h
  continue-session (undefined, w) f s h k = h

module _ {F A : Type 0} where
  -- A choice of actions keeps the session where both do.
  if-session :
      (b : Bool) (m n : Action F A) (w : World F) (s : Session F)
      → (m w).1.session ≡ s
      → (n w).1.session ≡ s
      → ((if b then m else n) w).1.session ≡ s
  if-session true m n w s h k = h
  if-session false m n w s h k = k

module _ (env : Env) where
  open env use {floats.{Float, zero}}

  call_task-session :
      (call : Call Float) (w : World Float) (s : Session Float)
      → w.session ≡ s
      → (call_task env call w).1.session ≡ s
  unfolding call_task ◌>>=◌ ask_node lift pure
  call_task-session (cmd, params) w s h =
      if-session (is_empty cmd) (pure _)
        (ask_node env (cmd, params) >>= (λ reply. lift (answer env reply))) w s h
        (continue-session (ask_node env (cmd, params) w) _ s h (λ a w₁ h₁. h₁))

  pub fetch-session :
      (command : Bytes) (w : World Float) (s : Session Float)
      → w.session ≡ s
      → (fetch env command w).1.session ≡ s
  unfolding fetch ◌>>=◌ lift
  fetch-session command w s h =
      continue-session (switch_params env command, w) _ s h
        (λ call w₁ h₁. call_task-session call w₁ s h₁)

  pub get_block_count-session :
      (hand : Handler Float) (w : World Float) (s : Session Float)
      → w.session ≡ s
      → (get_block_count env hand w).1.session ≡ s
  unfolding get_block_count ◌>>=◌ pure
  get_block_count-session hand w s h =
      continue-session (fetch env (codes "getblockcount") w) _ s
        (fetch-session (codes "getblockcount") w s h) (λ a w₁ h₁. h₁)

  pub get_block_by_number-session :
      (height : ℤ) (hand : Handler Float) (w : World Float) (s : Session Float)
      → w.session ≡ s
      → (get_block_by_number env height hand w).1.session ≡ s
  unfolding get_block_by_number ◌>>=◌ pure lift
  get_block_by_number-session height hand w s h =
      continue-session (fetch env _ w) _ s (fetch-session _ w s h)
        (λ a w₁ h₁. continue-session (_, w₁) _ s h₁ (λ r w₂ h₂. h₂))

  pub get_transaction-session :
      (txid : Bytes) (hand : Handler Float) (w : World Float) (s : Session Float)
      → w.session ≡ s
      → (get_transaction env txid hand w).1.session ≡ s
  unfolding get_transaction ◌>>=◌ pure lift
  get_transaction-session txid hand w s h =
      continue-session (fetch env _ w) _ s (fetch-session _ w s h)
        (λ a w₁ h₁. continue-session (_, w₁) _ s h₁ (λ r w₂ h₂. h₂))

  pub get_transactions-session :
      (ids : List Bytes) (hand : Handler Float) (w : World Float) (s : Session Float)
      → w.session ≡ s
      → (get_transactions env ids hand w).1.session ≡ s
  unfolding get_transactions ◌>>=◌ pure
  get_transactions-session [] hand w s h = h
  get_transactions-session (txid ∷ ids) hand w s h =
      continue-session (get_transaction env txid hand w) _ s
        (get_transaction-session txid hand w s h)
        (λ r w₁ h₁. get_transactions-session ids r.1 w₁ s h₁)
