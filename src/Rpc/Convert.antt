-- ===== src/Rpc/Convert.antt =====
-- `RPCConvertValues`: which parameters of a command are read as JSON.
use fidinventor.Base.{
  ℕ, suc, Bool, false, ◌&&◌, ◌||◌, none, some, List, [], ◌∷◌, ◌++◌, ◌==◌, if◌then◌else◌,
}
use fidinventor.Base.Text.{Bytes, codes, eq_bytes}
use fidinventor.Base.Result.{Result, ok, throw, ◌>>=◌}
use fidinventor.Json.Value.{Value, str, JsonText}

-- `vRPCConvertParams`: the command, and the index of a parameter from 0.
abbrev pub convert_params : List (Bytes × ℕ)
convert_params =
    (codes "stop", 0)
    ∷ (codes "getaddednodeinfo", 0)
    ∷ (codes "sendtoaddress", 1)
    ∷ (codes "settxfee", 0)
    ∷ (codes "getreceivedbyaddress", 1)
    ∷ (codes "getreceivedbyaccount", 1)
    ∷ (codes "listreceivedbyaddress", 0)
    ∷ (codes "listreceivedbyaddress", 1)
    ∷ (codes "listreceivedbyaccount", 0)
    ∷ (codes "listreceivedbyaccount", 1)
    ∷ (codes "getbalance", 1)
    ∷ (codes "getblock", 1)
    ∷ (codes "getblockbynumber", 0)
    ∷ (codes "getblockbynumber", 1)
    ∷ (codes "getblockhash", 0)
    ∷ (codes "move", 2)
    ∷ (codes "move", 3)
    ∷ (codes "sendfrom", 2)
    ∷ (codes "sendfrom", 3)
    ∷ (codes "listtransactions", 1)
    ∷ (codes "listtransactions", 2)
    ∷ (codes "listaccounts", 0)
    ∷ (codes "walletpassphrase", 1)
    ∷ (codes "walletpassphrase", 2)
    ∷ (codes "getblocktemplate", 0)
    ∷ (codes "listsinceblock", 1)
    ∷ (codes "sendalert", 2)
    ∷ (codes "sendalert", 3)
    ∷ (codes "sendalert", 4)
    ∷ (codes "sendalert", 5)
    ∷ (codes "sendalert", 6)
    ∷ (codes "sendmany", 1)
    ∷ (codes "sendmany", 2)
    ∷ (codes "reservebalance", 0)
    ∷ (codes "reservebalance", 1)
    ∷ (codes "addmultisigaddress", 0)
    ∷ (codes "addmultisigaddress", 1)
    ∷ (codes "listunspent", 0)
    ∷ (codes "listunspent", 1)
    ∷ (codes "listunspent", 2)
    ∷ (codes "getrawtransaction", 1)
    ∷ (codes "createrawtransaction", 0)
    ∷ (codes "createrawtransaction", 1)
    ∷ (codes "signrawtransaction", 1)
    ∷ (codes "signrawtransaction", 2)
    ∷ (codes "keypoolrefill", 0)
    ∷ (codes "importprivkey", 2)
    ∷ (codes "checkkernel", 0)
    ∷ (codes "checkkernel", 1)
    ∷ []

-- `members.count(make_pair(method, idx)) > 0` over the entries of the table.
unfoldable pub has_member : List (Bytes × ℕ) → Bytes → ℕ → Bool
has_member [] method idx = false
has_member ((m, i) ∷ table) method idx =
    (eq_bytes m method && (i == idx)) || has_member table method idx

-- `rpcCvtTable.convert(method, idx)`
unfoldable pub convert : Bytes → ℕ → Bool
unfolding has_member
convert = has_member convert_params

module _ {F : Type 0} (text : JsonText F) where
  open text use {read_string}

  -- One parameter: the string itself, or the JSON value that it spells.
  unfoldable pub convert_value : Bytes → ℕ → Bytes → Result (Value F)
  convert_value method idx val =
      if convert method idx
      then elim (read_string val) [
        | none ↦ throw (codes "Error parsing JSON:" ++ val)
        | some v ↦ ok v
      ]
      else ok (str val)

  -- The loop from the parameter `idx` on.
  unfoldable pub convert_from : Bytes → ℕ → List Bytes → Result (List (Value F))
  unfolding convert_value
  convert_from method idx [] = ok []
  convert_from method idx (val ∷ vals) = do
    v ← convert_value method idx val
    vs ← convert_from method (suc idx) vals
    ok (v ∷ vs)

  -- `RPCConvertValues(strMethod, strParams)`
  unfoldable pub rpc_convert_values : Bytes → List Bytes → Result (List (Value F))
  unfolding convert_from
  rpc_convert_values method params = convert_from method 0 params
