-- ===== src/Rpc/Call.antt =====
-- `CallRPC` and `CommandLineRPC`. The network is a parameter: the outcome of each try to connect to
-- an endpoint, and the server's answer to the bytes that were posted.
use fidinventor.Base.{
  ℕ, zero, suc, Bool, true, false, not, ◌&&◌, ◌||◌, Option, none, some, List, [], ◌∷◌, ◌++◌,
  if◌then◌else◌, ℤ, pos, negsuc, eq_ℤ, leb_ℤ, to_int32,
}
use mathlib.Core.Option
use fidinventor.Base.Text.{Bytes, codes, is_empty}
use fidinventor.Base.Dict.{Dict, assign, get_or_add}
use fidinventor.Base.Boost.{StringAlgo}
use fidinventor.Base.Decimal.{decimal_ℤ}
use fidinventor.Base.Result.{Result, ok, throw, undefined, ◌>>=◌}
use fidinventor.Args.{get_arg, get_bool_arg, itostr, is_switch_char}
use fidinventor.Base64.{encode_base64}
use fidinventor.Http.Write.{http_post}
use fidinventor.Http.Read.{Message, read_status, read_message}
use fidinventor.Json.Value.{Value, null, str, int, Fields, get_obj, get_int, JsonText}
use fidinventor.Json.Object.{find_value, no_fields}
use fidinventor.Rpc.Convert.{rpc_convert_values}
use fidinventor.Rpc.Message.{jsonrpc_request, is_null}

pub record Network : Type 0 where
  -- What the n-th try to connect to a host and port resolves to: its endpoints, and which of them
  -- accepts; or the exception of a name that does not resolve.
  pub endpoints : ℕ → Bytes → Bytes → Result (List Bool)
  -- The bytes that come back after the request.
  pub respond : Bytes → Bytes

-- The endpoints in turn, until one accepts.
unfoldable pub try_endpoints : List Bool → Bool
try_endpoints [] = false
try_endpoints (accepts ∷ more) = if accepts then true else try_endpoints more

-- `SSLIOStreamDevice::connect`: `resolver.resolve(query)` throws where it fails.
unfoldable pub connect : Result (List Bool) → Result Bool
unfolding try_endpoints
connect resolved = resolved >>= λ found. ok (try_endpoints found)

-- What follows a try: the connection, the rest of the loop where it waits, or the end of the call.
abbrev pub after_try : Result Bool → Bool → Option (Result (Unit {0})) → Option (Result (Unit {0}))
after_try (ok connected) wait again =
    if connected
    then some (ok tt)
    else if wait
    then again
    else some (throw (codes "couldn't connect to server"))
after_try (throw e) wait again = some (throw e)
after_try undefined wait again = some undefined

-- `do … while (fWait)`; `none` means that it still waits after so many tries.
unfoldable pub connect_loop : ℕ → ℕ → (ℕ → Result Bool) → Bool → Option (Result (Unit {0}))
connect_loop zero attempt connects wait = none
connect_loop (suc fuel) attempt connects wait =
    let again = connect_loop fuel (suc attempt) connects wait in
    after_try (connects attempt) wait again

-- The error where neither a user nor a password is set.
abbrev pub no_password : Bytes
no_password =
    codes "You must set rpcpassword=<password> in the configuration file:"
    ++ 10
      ∷ (codes "hi you"
          ++ 10
            ∷ codes
                "If the file does not exist, create it with owner-readable-only file permissions.")

-- The check that a user or a password is set. A look-up adds the argument that is missing, and the
-- password is looked up only where there is no user.
unfoldable pub check_credentials : Dict Bytes → Result (Unit {0}) × Dict Bytes
check_credentials args =
    let (user, args₁) = get_or_add (codes "-rpcuser") args in
    let (password, args₂) = get_or_add (codes "-rpcpassword") args₁ in
    if is_empty user
    then (if is_empty password then (throw no_password, args₂) else (ok tt, args₂))
    else (ok tt, args₁)

-- `mapRequestHeaders`
unfoldable pub request_headers : Bytes → Bytes → Dict Bytes
request_headers user password = assign (codes "Connection") (codes "keep-alive") (
    assign (codes "Authorization")
      (codes "Basic " ++ encode_base64 (user ++ (codes ":" ++ password))) [])

-- The statuses of an error that still comes with a JSON reply.
abbrev pub is_json_error : ℤ → Bool
is_json_error status = eq_ℤ status (pos 400) || eq_ℤ status (pos 404) || eq_ℤ status (pos 500)

abbrev pub nonempty_object : {F : Type 0} → Fields F → Result (Fields F)
nonempty_object reply =
    if no_fields reply
    then throw (codes "expected reply to have result, error and id properties")
    else ok reply

-- `abs(code)`
abbrev pub abs_int : ℤ → ℤ
abs_int (pos n) = pos n
abs_int (negsuc n) = to_int32 (pos (suc n))

-- The statuses at which `CallRPC` gives up.
unfoldable pub check_status : ℤ → Result (Unit {0})
check_status status =
    if eq_ℤ status (pos 401)
    then throw (codes "incorrect rpcuser or rpcpassword (authorization failed)")
    else if leb_ℤ (pos 400) status && not (is_json_error status)
    then throw (codes "server returned HTTP error " ++ decimal_ℤ status)
    else ok tt

abbrev pub parsed : {F : Type 0} → Option (Value F) → Result (Fields F)
parsed none = throw (codes "couldn't parse reply from server")
parsed (some v) = get_obj v >>= nonempty_object

-- The object that a body holds.
unfoldable pub parse_reply : {F : Type 0} → JsonText F → Bytes → Result (Fields F)
unfolding get_obj
parse_reply text reply =
    if is_empty reply
    then throw (codes "no response from server")
    else parsed (text.read_string reply)

-- What `CallRPC` makes of a status and a body.
unfoldable pub check_reply : {F : Type 0} → JsonText F → ℤ → Bytes → Result (Fields F)
unfolding check_status parse_reply
check_reply text status reply = do _ ← check_status status; parse_reply text reply

module _ {F : Type 0} (algo : StringAlgo) (text : JsonText F) where
  abbrev pub check_message : ℤ → Option Message → Option (Result (Fields F))
  check_message status none = none
  check_message status (some m) = some (check_reply text status m.message)

  -- The reply in a response; `none` is no result of the code, and does not occur.
  unfoldable pub read_response : Bytes → Option (Result (Fields F))
  unfolding check_reply
  read_response stream =
      let (status, proto, rest) = read_status algo stream (pos 0) in
      check_message status (read_message algo rest proto)

  -- The request that is posted for a command.
  unfoldable pub posted : Bytes → Bytes → Bytes → List (Value F) → Bytes
  unfolding request_headers
  posted user password method params =
      http_post (jsonrpc_request text method params (int (pos 1))) (request_headers user password)

  -- What follows the connection: the credentials are looked up, and the request is posted.
  unfoldable pub exchange :
      Network → Dict Bytes → Bytes → List (Value F) → Option (Result (Fields F)) × Dict Bytes
  unfolding read_response posted
  exchange net args method params =
      let (user, args₁) = get_or_add (codes "-rpcuser") args in
      let (password, args₂) = get_or_add (codes "-rpcpassword") args₁ in
      (read_response (net.respond (posted user password method params)), args₂)

  -- What follows the check of the credentials.
  unfoldable pub connect_and_exchange :
      ℕ → Network → Dict Bytes → Bytes → List (Value F) → Option (Result (Fields F)) × Dict Bytes
  unfolding connect_loop exchange
  connect_and_exchange fuel net args method params =
      let host = get_arg args (codes "-rpcconnect") (codes "127.0.0.1") in
      let port = get_arg args (codes "-rpcport") (itostr (pos 19772)) in
      elim (connect_loop fuel 0 (λ n. connect (net.endpoints n host port))
        (get_bool_arg args (codes "-rpcwait") false)) [
          | none ↦ (none, args)
          | some (ok _) ↦ exchange net args method params
          | some (throw e) ↦ (some (throw e), args)
          | some undefined ↦ (some undefined, args)
        ]

  -- `CallRPC(strMethod, params)` with at most `fuel` tries to connect.
  unfoldable pub call_rpc :
      ℕ → Network → Dict Bytes → Bytes → List (Value F) → Option (Result (Fields F)) × Dict Bytes
  unfolding check_credentials connect_and_exchange
  call_rpc fuel net args method params =
      let (checked, args') = check_credentials args in
      elim checked [
        | ok _ ↦ connect_and_exchange fuel net args' method params
        | throw e ↦ (some (throw e), args')
        | undefined ↦ (some undefined, args')
      ]

  abbrev pub shown_result : Value F → Bytes
  shown_result null = []
  shown_result (str s) = s
  shown_result v = text.write_string v true

  -- `strPrint` and `nRet` for a reply.
  unfoldable pub report : Fields F → Result (ℤ × Bytes)
  unfolding get_obj get_int
  report reply =
      let error = find_value reply (codes "error") in
      if is_null error then ok (pos 0, shown_result (find_value reply (codes "result"))) else (do
        e ← get_obj error
        code ← get_int (find_value e (codes "code"))
        ok (abs_int code, codes "error: " ++ text.write_string error false))

  -- `while (argc > 1 && IsSwitchChar(argv[1][0]))` over the arguments behind the program's name.
  unfoldable pub skip_switches : List Bytes → List Bytes
  skip_switches [] = []
  skip_switches ([] ∷ argv) = [] ∷ argv
  skip_switches ((c ∷ s) ∷ argv) = if is_switch_char c then skip_switches argv else (c ∷ s) ∷ argv

  -- The handler of `std::exception`.
  abbrev pub caught : Result (ℤ × Bytes) → Result (ℤ × Bytes)
  caught (throw e) = ok (pos 87, codes "error: " ++ e)
  caught r = r

  unfoldable pub run_command : ℕ → Network → Dict Bytes → List Bytes → Option (Result (ℤ × Bytes))
  unfolding report call_rpc rpc_convert_values
  run_command fuel net args [] = some (throw (codes "too few parameters"))
  run_command fuel net args (method ∷ params) = elim (rpc_convert_values text method params) [
    | ok values ↦ Option.map (λ r. r >>= report) (call_rpc fuel net args method values).0
    | throw e ↦ some (throw e)
    | undefined ↦ some undefined
  ]

  -- `CommandLineRPC`: the exit code, and the text, which goes to `stdout` at exit code 0 and to
  -- `stderr` otherwise.
  unfoldable pub command_line_rpc :
      ℕ → Network → Dict Bytes → List Bytes → Option (Result (ℤ × Bytes))
  unfolding run_command skip_switches
  command_line_rpc fuel net args argv =
      Option.map caught (run_command fuel net args (skip_switches argv))
