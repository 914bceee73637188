-- ===== src/Db/Session.antt =====
-- The connection: what is sent over it, and the outcome of each call of the library.
use fidinventor.Base.{
  ℕ, Bool, true, Option, none, some, List, [], ◌∷◌, ◌++◌, if◌then◌else◌, length, ℤ, pos,
}
use fidinventor.Base.Text.{Bytes, codes, c_atoi}
use fidinventor.Base.Dict.{Dict}
use fidinventor.Base.Result.{Result, ok, throw, undefined}
use fidinventor.Args.{get_fidconfig}
use fidinventor.Db.Statements.{Statement}

-- How a call of the library ends: as it should, or by one of the exceptions that are caught.
pub data Outcome : Type 0 where
  done bad_query bad_conversion other_error : Outcome

-- What `connect` is given.
pub record Login : Type 0 where
  pub database : Bytes
  pub address : Bytes
  pub user : Bytes
  pub password : Bytes
  pub port : Option ℤ

-- The server and the library: whether the n-th login succeeds, and the text of the exception where it
-- does not; how a statement ends after those that were carried out, how counting the rows of a table
-- ends, and the number of blocks, or the exception of that query.
pub record Server (F : Type 0) : Type 0 where
  pub accepts : ℕ → Login → Bool
  pub login_error : Bytes
  pub execute : List (Statement F) → Statement F → Outcome
  pub count_rows : List (Statement F) → Bytes → Outcome
  pub block_count : List (Statement F) → Result ℤ

-- `inited`, the logins that were tried, and the statements that were carried out, the latest last.
pub record Session (F : Type 0) : Type 0 where
  pub inited : Bool
  pub logins : List Login
  pub sent : List (Statement F)

-- The login of `initDb()`, from the configuration.
unfoldable pub config_login : Dict Bytes → Login
unfolding get_fidconfig c_atoi
config_login args = record {
  database = get_fidconfig args (codes "-database");
  address = get_fidconfig args (codes "-dburl");
  user = get_fidconfig args (codes "-dbname");
  password = get_fidconfig args (codes "-dbpasswd");
  port = some (c_atoi (get_fidconfig args (codes "-dbport")));
}

-- The login that `CFidDbWrap::insertBk` passes to `initDb`.
abbrev pub fixed_login : Login
fixed_login = record {
  database = codes "fidchain";
  address = codes "127.0.0.1";
  user = codes "root";
  password = [];
  port = none;
}

module _ {F A B : Type 0} where
  -- What follows a step on the session, unless that throws.
  abbrev pub then_on :
      Result A × Session F → (A → Session F → Result B × Session F) → Result B × Session F
  then_on (ok a, s) rest = rest a s
  then_on (throw e, s) rest = (throw e, s)
  then_on (undefined, s) rest = (undefined, s)

module _ {F : Type 0} (server : Server F) where
  -- The login that `initDb` makes where none succeeded yet. The exceptions of the library are on, since
  -- the constructor of `CMysqlDb` turns them off for a local connection only: a login that is refused
  -- throws, and the return of -1 is not reached.
  unfoldable pub init_db_with : Login → Session F → Result ℤ × Session F
  init_db_with login s =
      if s.inited
      then (ok (pos 1), s)
      else if server.accepts (length s.logins) login
      then (ok (pos 0), record s { inited = true; logins = s.logins ++ login ∷ [] })
      else (throw server.login_error, record s { logins = s.logins ++ login ∷ [] })

  -- `CMysqlDb::initDb()`
  unfoldable pub init_db : Dict Bytes → Session F → Result ℤ × Session F
  unfolding init_db_with config_login
  init_db args s = init_db_with (config_login args) s

  -- A statement that ends as it should is carried out; an exception leaves the database.
  abbrev pub after_outcome : Outcome → Statement F → Session F → Outcome × Session F
  after_outcome done st s = (done, record s { sent = s.sent ++ st ∷ [] })
  after_outcome bad_query st s = (bad_query, s)
  after_outcome bad_conversion st s = (bad_conversion, s)
  after_outcome other_error st s = (other_error, s)

  -- `query.execute()`
  unfoldable pub execute : Statement F → Session F → Outcome × Session F
  execute st s = after_outcome (server.execute s.sent st) st s

  -- `queryBlockCount()`: a query that fails throws, as above.
  unfoldable pub query_block_count : Session F → Result ℤ
  query_block_count s = server.block_count s.sent
