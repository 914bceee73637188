-- ===== src/Main/Beginning.antt =====
-- What a program that has come to the loop of `main` went through.
use mathlib.Core.Path.{subst}
use fidinventor.Base.{
  ℕ, ◌≡◌, refl, ap, sym, ◌∙◌, Bool, true, false, Option, none, some, List, [], ℤ, pos, negsuc, eq_ℤ,
  if◌then◌else◌, length, ◌++◌, ◌∷◌,
}
use fidinventor.Base.Text.{Bytes}
use fidinventor.Base.Dict.{Dict}
use fidinventor.Base.Result.{Result, ok, throw, undefined, ◌>>=◌, ok-injective, >>=-eq-ok}
use fidinventor.Args.{i64tostr}
use fidinventor.Config.{Section}
use fidinventor.Db.Session.{
  Server, Session, Login, init_db, init_db_with, config_login, query_block_count,
}
use fidinventor.Handler.World.{Env, World}
use fidinventor.Task.Types.{task_block_or_trans}
use fidinventor.Task.Registry.{registered, register_task-get_task}
use fidinventor.Task.Schedule.{Registry, get_task}
use fidinventor.Main.{
  Started, Begun, exits, goes_on, by_count, init_config, init_gensis_block, begin_scheduler,
  begin_main, start_scheduler,
}
use fidinventor.Main.System.{System, Reach, started, follow_look}

pub some-injective : {A : Type 0} {a b : A} → some a ≡ some b → a ≡ b
some-injective h = cc

goes_on-injective : {F : Type 0} {b c : Begun F} → goes_on b ≡ goes_on c → b ≡ c
goes_on-injective h = cc

module _ {F : Type 0} (storage : ℤ) where
  -- What `main` holds behind an initialisation.
  abbrev pub behind : Dict Bytes → Started F → Begun F
  behind args st = record {
    args = args;
    seq = (start_scheduler storage st.height st.registry).0;
    height = st.height;
    session = st.session;
    registry = (start_scheduler storage st.height st.registry).1;
  }

  begun :
      (exit : Bool) (args : Dict Bytes) (init : Result (Option (Started F))) {b : Begun F}
      → (if exit then ok (exits (pos 1)) else (init >>= λ o. ok (begin_scheduler storage args o)))
        ≡ ok (goes_on b)
      → (st : Started F) × (init ≡ ok (some st)) × (behind args st ≡ b)
  unfolding begin_scheduler
  begun true args init h = absurd (cc (ok-injective h))
  begun false args (ok none) h = absurd (cc (ok-injective h))
  begun false args (ok (some st)) h = (st, refl, goes_on-injective (ok-injective h))
  begun false args (throw e) h = absurd (cc)
  begun false args undefined h = absurd (cc)

module _ {F : Type 0} (server : Server F) where
  -- A login that does not throw leaves an open connection.
  opens_with :
      (login : Login) (s : Session F) {code : ℤ}
      → (init_db_with server login s).0 ≡ ok code
      → (init_db_with server login s).1.inited ≡ true
  unfolding init_db_with
  opens_with login s h = by_tests s.inited (server.accepts (length s.logins) login) refl h
    where
      by_tests :
          (b accepted : Bool) {code : ℤ}
          → s.inited ≡ b
          → (if◌then◌else◌ {A = Result ℤ × Session F} b
              (ok (pos 1), s)
              (if accepted
                then (ok (pos 0), record s { inited = true; logins = s.logins ++ login ∷ [] })
                else (throw server.login_error, record s { logins = s.logins ++ login ∷ [] }))).0
            ≡ ok code
          → (if◌then◌else◌ {A = Result ℤ × Session F} b
              (ok (pos 1), s)
              (if accepted
                then (ok (pos 0), record s { inited = true; logins = s.logins ++ login ∷ [] })
                else (
                  throw server.login_error,
                  record s { logins = s.logins ++ login ∷ [] },
                ))).1.inited
            ≡ true
      by_tests true accepted e h = e
      by_tests false true e h = refl
      by_tests false false e h = absurd (cc)

  -- What `initGensisBlock` went through where it has returned.
  pub init_gensis_block-ok :
      (args : Dict Bytes) (storage : ℤ) (readings : List ℤ) (s : Session F) (r : Registry)
      {o : Option (Started F)} {count : ℤ}
      → query_block_count server (init_db server args s).1 ≡ ok count
      → init_gensis_block server args storage readings s r ≡ ok o
      → ((init_db server args s).1.inited ≡ true)
        × (by_count server args storage readings (init_db server args s).1 r count ≡ o)
  unfolding init_gensis_block init_db
  init_gensis_block-ok args storage readings s r {o} {count} counted h =
      let (code, e, h₁) = >>=-eq-ok (init_db server args s).0 _ h in
      let (found, e₁, h₂) = >>=-eq-ok (query_block_count server (init_db server args s).1) _ h₁ in
      (
        opens_with (config_login args) s e,
        ap (by_count server args storage readings (init_db server args s).1 r)
              (ok-injective (sym counted ∙ e₁))
            ∙ ok-injective h₂,
      )

  -- The initialisation behind a program that goes on, and what the program holds by it.
  pub begin_main-begun :
      (storage : ℤ) (argc : ℕ) (file : Result (List Section)) (readings : List ℤ)
      (args : Dict Bytes) (s : Session F) (r : Registry) {b : Begun F}
      → begin_main server storage argc file readings args s r ≡ ok (goes_on b)
      → (st : Started F) × (init_gensis_block server b.args storage readings s r ≡ ok (some st))
        × (b ≡ behind storage b.args st)
  unfolding begin_main
  begin_main-begun storage argc file readings args s r {b} h =
      let ((code, args'), _, h₁) = >>=-eq-ok (init_config argc file args) _ h in
      let (st, init, e) =
        begun storage (eq_ℤ code (negsuc 0)) args'
          (init_gensis_block server args' storage readings s r) h₁ in
      let same = ap (λ (c : Begun F). c.args) e in
      (
        st,
        ap (λ a. init_gensis_block server a storage readings s r) (sym same) ∙ init,
        sym e ∙ ap (λ a. behind storage a st) same,
      )

module _ (env : Env) (storage : ℤ) where
  open env use {floats.{Float}}

  -- The thread of the scheduler of `main` starts with the task that wants the block of its height.
  pub follows_from :
      (args : Dict Bytes) (st : Started Float) {b : Begun Float} {w : World Float}
      {u : System Float ℤ} {n : ℕ}
      → b ≡ behind storage args st
      → st.height ≡ pos n
      → Reach env false storage b.seq follow_look
          (started (get_task storage b.seq b.registry.tasks) w b.height)
          u
      → Reach env false storage st.registry.sequence follow_look
          (started
            (registered storage task_block_or_trans (i64tostr (pos n)) st.registry.sequence)
            w
            (pos n))
          u
  unfolding start_scheduler
  follows_from args st {b} {w} {u} {n} e at q =
      let (_, _, found) =
        register_task-get_task storage storage task_block_or_trans (i64tostr st.height)
          (record st.registry { tasks = [] }) tt in
      subst
        (λ h.
          Reach env false storage st.registry.sequence follow_look
            (started (registered storage task_block_or_trans (i64tostr h) st.registry.sequence) w h)
            u)
        at
        (subst
          (λ t. Reach env false storage st.registry.sequence follow_look (started t w st.height) u)
          found
          (subst
            (λ (c : Begun Float).
              Reach env false storage c.seq follow_look
                (started (get_task storage c.seq c.registry.tasks) w c.height) u)
            e q))
