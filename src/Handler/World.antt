-- ===== src/Handler/World.antt =====
-- The effects of a handler: calls over RPC, which may throw, and statements to the database. What
-- was done before a throw stays done, so the world comes back beside the error.
use fidinventor.Base.{List, ℤ}
use fidinventor.Base.Text.{Bytes}
use fidinventor.Base.Dict.{Dict}
use fidinventor.Base.Result.{Result, ok, throw, undefined}
use fidinventor.Base.Boost.{StringAlgo}
use fidinventor.Json.Value.{Floats, Value, Fields, JsonText}
use fidinventor.Db.Session.{Server, Session}
use fidinventor.Handler.SwitchTx.{Storage}
use fidinventor.Chain.Block.{Block}

-- A command and its parameters.
abbrev pub Call : Type 0 → Type 0
Call F = Bytes × List (Value F)

-- What a handler works with: the libraries, the node behind `CallRPC`, the database, the arguments
-- of the program, and the storage in which its objects are made.
pub record Env : Type 1 where
  pub floats : Floats
  pub text : JsonText (Floats.Float floats)
  pub algo : StringAlgo
  pub rpc :
      List (Call (Floats.Float floats))
      → Call (Floats.Float floats)
      → Result (Fields (Floats.Float floats))
  pub server : Server (Floats.Float floats)
  pub date_text : ℤ → Bytes
  pub args : Dict Bytes
  pub storage : Storage (Floats.Float floats)
  pub block_storage : Block (Floats.Float floats)

-- The calls that were made, the latest last, and the session of the database.
pub record World (F : Type 0) : Type 0 where
  pub calls : List (Call F)
  pub session : Session F

abbrev pub Action : Type 0 → Type 0 → Type 0
Action F A = World F → Result A × World F

module _ {F A : Type 0} where
  unfoldable pub pure : A → Action F A
  pure a w = (ok a, w)

  -- A computation without effects that may throw.
  unfoldable pub lift : Result A → Action F A
  lift r w = (r, w)

module _ {F A B : Type 0} where
  abbrev pub continue : Result A × World F → (A → Action F B) → Result B × World F
  continue (ok a, w) f = f a w
  continue (throw e, w) f = (throw e, w)
  continue (undefined, w) f = (undefined, w)

  infixl 5 ◌>>=◌
  unfoldable pub ◌>>=◌ : Action F A → (A → Action F B) → Action F B
  ◌>>=◌ m f w = continue (m w) f
