-- ===== src/Db/Grows.antt =====
-- What no call of the database takes back: the statements that were carried out, the logins that
-- were tried, and that the connection is open.
use fidinventor.Base.{
  ◌≡◌, refl, ap, ◌∙◌, Bool, true, false, not, ◌||◌, List, [], ◌∷◌, ◌++◌, append_assoc, append-nil,
  length, sym, ℤ, pos, if◌then◌else◌,
}
use fidinventor.Base.Text.{Bytes, codes}
use fidinventor.Base.Dict.{Dict}
use fidinventor.Chain.Block.{Block}
use fidinventor.Chain.Transaction.{Vin, Vout, Transaction}
use fidinventor.Db.Statements.{
  Statement, insert_block, insert_tx, insert_vout, insert_vin, update_vin, block_row, tx_row,
  vout_row, vin_row,
}
use fidinventor.Base.Result.{Result, ok, throw, undefined}
use fidinventor.Db.Session.{
  Outcome, done, bad_query, bad_conversion, other_error, Login, Server, Session, after_outcome,
  execute, then_on, init_db_with, init_db, config_login,
}
use fidinventor.Db.Insert.{
  on_done, counted, finished, insert_counted, insert_block_row, update_vout_by_txid, insert_tx_vout,
  insert_tx_vin, insert_vouts, insert_vins, insert_transaction,
}

-- A later session: more statements were carried out and more logins tried, and an open connection
-- is still open.
pub record Grows {F : Type 0} (s₀ s : Session F) : Type 0 where
  pub more_sent : List (Statement F)
  pub more_logins : List Login
  pub sent_after : s.sent ≡ s₀.sent ++ more_sent
  pub logins_after : s.logins ≡ s₀.logins ++ more_logins
  pub stays_open : (not s₀.inited || s.inited) ≡ true

or_self : (b : Bool) → (not b || b) ≡ true
or_self true = refl
or_self false = refl

or_true : (b : Bool) → (not b || true) ≡ true
or_true true = refl
or_true false = refl

pub Grows-refl : {F : Type 0} (s : Session F) → Grows s s
Grows-refl s = record {
  more_sent = [];
  more_logins = [];
  sent_after = sym (append-nil s.sent);
  logins_after = sym (append-nil s.logins);
  stays_open = or_self s.inited;
}

module _ {F : Type 0} (server : Server F) {s₀ : Session F} where
  after_outcome-Grows :
      (o : Outcome) (st : Statement F) (s : Session F)
      → Grows s₀ s
      → Grows s₀ (after_outcome server o st s).1
  after_outcome-Grows done st s g = record {
    more_sent = g.more_sent ++ st ∷ [];
    more_logins = g.more_logins;
    sent_after = ap (λ l. l ++ st ∷ []) g.sent_after ∙ append_assoc s₀.sent g.more_sent (st ∷ []);
    logins_after = g.logins_after;
    stays_open = g.stays_open;
  }
  after_outcome-Grows bad_query st s g = g
  after_outcome-Grows bad_conversion st s g = g
  after_outcome-Grows other_error st s g = g

  execute-Grows : (st : Statement F) (s : Session F) → Grows s₀ s → Grows s₀ (execute server st s).1
  unfolding execute
  execute-Grows st s g = after_outcome-Grows (server.execute s.sent st) st s g

  on_done-Grows :
      (r : Outcome × Session F) (rest : Session F → ℤ × Session F)
      → Grows s₀ r.1
      → ((s : Session F) → Grows s₀ s → Grows s₀ (rest s).1)
      → Grows s₀ (on_done server r rest).1
  on_done-Grows (done, s) rest g k = k s g
  on_done-Grows (bad_query, s) rest g k = g
  on_done-Grows (bad_conversion, s) rest g k = g
  on_done-Grows (other_error, s) rest g k = g

  insert_counted-Grows :
      (st : Statement F) (table : Bytes) (rest : Session F → ℤ × Session F) (s : Session F)
      → ((s₁ : Session F) → Grows s₀ s₁ → Grows s₀ (rest s₁).1)
      → Grows s₀ s
      → Grows s₀ (insert_counted server st table rest s).1
  unfolding insert_counted
  insert_counted-Grows st table rest s k g =
      on_done-Grows (execute server st s) _ (execute-Grows st s g)
        (λ s₁ g₁. on_done-Grows (counted server table s₁) rest g₁ k)

  pub insert_block_row-Grows :
      (date_text : ℤ → Bytes) (block : Block F) (s : Session F)
      → Grows s₀ s
      → Grows s₀ (insert_block_row server date_text block s).1
  unfolding insert_block_row
  insert_block_row-Grows date_text block s g =
      insert_counted-Grows (insert_block (block_row date_text block)) (codes "block")
        (finished server) s (λ s₁ g₁. g₁) g

  insert_vouts-Grows :
      (tx : Transaction F) (vouts : List (Vout F)) (s : Session F)
      → Grows s₀ s
      → Grows s₀ (insert_vouts server tx vouts s)
  unfolding insert_vouts insert_tx_vout
  insert_vouts-Grows tx [] s g = g
  insert_vouts-Grows tx (vout ∷ vouts) s g = insert_vouts-Grows tx vouts _ (
      insert_counted-Grows (insert_vout (vout_row tx vout)) (codes "blocktx_vout") (finished server)
        s (λ s₁ g₁. g₁) g)

  insert_tx_vin-Grows :
      (tx : Transaction F) (vin : Vin F) (s : Session F)
      → Grows s₀ s
      → Grows s₀ (insert_tx_vin server tx vin s).1
  unfolding insert_tx_vin update_vout_by_txid
  insert_tx_vin-Grows tx vin s g =
      insert_counted-Grows (insert_vin (vin_row tx vin)) (codes "blocktx_vin")
        (λ s₁. (pos 0, (update_vout_by_txid server tx vin s₁).1)) s
        (λ s₁ g₁.
          on_done-Grows (execute server (update_vin vin.txid vin.vout tx.txid) s₁) (finished server)
            (execute-Grows (update_vin vin.txid vin.vout tx.txid) s₁ g₁) (λ s₂ g₂. g₂))
        g

  insert_vins-Grows :
      (tx : Transaction F) (vins : List (Vin F)) (s : Session F)
      → Grows s₀ s
      → Grows s₀ (insert_vins server tx vins s)
  unfolding insert_vins
  insert_vins-Grows tx [] s g = g
  insert_vins-Grows tx (vin ∷ vins) s g =
      insert_vins-Grows tx vins _ (insert_tx_vin-Grows tx vin s g)

  pub insert_transaction-Grows :
      (date_text : ℤ → Bytes) (tx : Transaction F) (s : Session F)
      → Grows s₀ s
      → Grows s₀ (insert_transaction server date_text tx s).1
  unfolding insert_transaction
  insert_transaction-Grows date_text tx s g =
      insert_counted-Grows (insert_tx (tx_row date_text tx)) (codes "blocktransaction") _ s
        (λ s₁ g₁. insert_vins-Grows tx tx.vins _ (insert_vouts-Grows tx tx.vouts s₁ g₁)) g

  pub init_db_with-Grows :
      (login : Login) (s : Session F) → Grows s₀ s → Grows s₀ (init_db_with server login s).1
  unfolding init_db_with
  init_db_with-Grows login s g =
      by_tests s.inited (server.accepts (length s.logins) login) g.stays_open
    where
      tried :
          (is_open : Bool)
          → (not s₀.inited || is_open) ≡ true
          → Grows s₀ (record s { inited = is_open; logins = s.logins ++ login ∷ [] })
      tried is_open h = record {
        more_sent = g.more_sent;
        more_logins = g.more_logins ++ login ∷ [];
        sent_after = g.sent_after;
        logins_after =
            ap (λ l. l ++ login ∷ []) g.logins_after
            ∙ append_assoc s₀.logins g.more_logins (login ∷ []);
        stays_open = h;
      }

      by_tests :
          (b accepted : Bool)
          → (not s₀.inited || s.inited) ≡ true
          → Grows s₀
              (if◌then◌else◌ {A = Result ℤ × Session F} b
                (ok (pos 1), s)
                (if accepted
                  then (ok (pos 0), record s { inited = true; logins = s.logins ++ login ∷ [] })
                  else (throw server.login_error, record s { logins = s.logins ++ login ∷ [] }))).1
      by_tests true accepted h = g
      by_tests false true h = tried true (or_true s₀.inited)
      by_tests false false h = tried s.inited h

  pub init_db-Grows :
      (args : Dict Bytes) (s : Session F) → Grows s₀ s → Grows s₀ (init_db server args s).1
  unfolding init_db
  init_db-Grows args s g = init_db_with-Grows (config_login args) s g

module _ {F A B : Type 0} {s₀ : Session F} where
  -- A chain of steps grows a session where both its parts do, also where it throws.
  pub then_on-Grows :
      (r : Result A × Session F) (rest : A → Session F → Result B × Session F)
      → Grows s₀ r.1
      → ((a : A) (s : Session F) → Grows s₀ s → Grows s₀ (rest a s).1)
      → Grows s₀ (then_on r rest).1
  then_on-Grows (ok a, s) rest g k = k a s g
  then_on-Grows (throw e, s) rest g k = g
  then_on-Grows (undefined, s) rest g k = g
