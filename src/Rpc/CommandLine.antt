-- ===== src/Rpc/CommandLine.antt =====
-- `CommandLineRPC` as a whole: the exit code and the text that it prints.
use fidinventor.Base.{
  ℕ, suc, ◌≤◌, ◌<◌, ◌^◌, ◌≡◌, refl, ap, ◌∙◌, Bool, true, false, Option, none, some, List, [], ◌∷◌,
  ◌++◌, ◌==◌, length, ℤ, pos, negsuc, if◌then◌else◌, to_int32, ◌+◌, arith,
}
use mathlib.Core.Option
use fidinventor.Base.Text.{Bytes, codes, eq_bytes}
use fidinventor.Base.Dict.{Dict, lookup}
use fidinventor.Base.Boost.{StringAlgo}
use fidinventor.Base.Decimal.{decimal}
use fidinventor.Base.Result.{Result, ok, throw, undefined, ◌>>=◌}
use fidinventor.Http.Write.{http_reply}
use fidinventor.Http.Reply.{IsDate}
use fidinventor.Json.Value.{
  Value, null, str, bool, int, real, arr, obj, Fields, JsonText, get_obj, get_int,
}
use fidinventor.Json.Object.{find_value}
use fidinventor.Rpc.Convert.{rpc_convert_values}
use fidinventor.Rpc.Message.{jsonrpc_reply, jsonrpc_reply_obj, jsonrpc_error}
use fidinventor.Rpc.Call.{
  Network, posted, call_rpc, abs_int, shown_result, report, caught, skip_switches, run_command,
  command_line_rpc,
}
use fidinventor.Rpc.Laws.{carries_reply, by_status}
use fidinventor.Rpc.WholeCall.{reaches, call_rpc-answered}

-- The error of a reply, or none: its code and its message.
abbrev pub error_value : {F : Type 0} → Option (ℤ × Bytes) → Value F
error_value none = null
error_value (some (code, message)) = obj (jsonrpc_error code message)

-- The absolute value.
abbrev pub magnitude : ℤ → ℤ
magnitude (pos n) = pos n
magnitude (negsuc n) = pos (n + 1)

module _ {F : Type 0} (algo : StringAlgo) (text : JsonText F) where
  -- The text of a result: none for null, a string as it is, and any other value as indented JSON.
  abbrev pub result_text : Value F → Bytes
  result_text null = []
  result_text (str s) = s
  result_text v = text.write_string v true

  -- The exit code and the text for a reply.
  abbrev pub printed_reply : Value F → Option (ℤ × Bytes) → ℤ × Bytes
  printed_reply result none = (pos 0, result_text result)
  printed_reply result (some (code, message)) = (
    magnitude code,
    codes "error: " ++ text.write_string (obj (jsonrpc_error code message)) false,
  )

  -- The exit code and the text for a reply at a status.
  abbrev pub printed : ℕ → Value F → Option (ℤ × Bytes) → ℤ × Bytes
  printed status result failure =
      if status == 401
      then (pos 87, codes "error: incorrect rpcuser or rpcpassword (authorization failed)")
      else if carries_reply status
      then printed_reply result failure
      else (pos 87, codes "error: " ++ (codes "server returned HTTP error " ++ decimal status))

-- The code of an error and its absolute value fit an `int`.
abbrev pub HasIntCode : Option (ℤ × Bytes) → Type 0
HasIntCode none = Unit
HasIntCode (some (pos n, message)) = n < 2 ^ 31
HasIntCode (some (negsuc n, message)) = n + 1 < 2 ^ 31

int_code :
    (code : ℤ) (message : Bytes)
    → HasIntCode (some (code, message))
    → (to_int32 code ≡ code) × (abs_int code ≡ magnitude code)
int_code (pos n) message h = (ground arith, refl)
int_code (negsuc n) message h = (ground arith, ground arith)

module _ {F : Type 0} (algo : StringAlgo) (text : JsonText F) where
  shown_result_lem : (v : Value F) → shown_result algo text v ≡ result_text algo text v
  shown_result_lem null = refl
  shown_result_lem (str s) = refl
  shown_result_lem (bool b) = refl
  shown_result_lem (int n) = refl
  shown_result_lem (real x) = refl
  shown_result_lem (arr xs) = refl
  shown_result_lem (obj o) = refl

module _ {F : Type 0} (algo : StringAlgo) (text : JsonText F) (result id : Value F) where
  pub report-reply :
      (failure : Option (ℤ × Bytes))
      → HasIntCode failure
      → report algo text (jsonrpc_reply_obj result (error_value failure) id)
        ≡ ok (printed_reply algo text result failure)
  unfolding report find_value jsonrpc_reply_obj jsonrpc_error get_obj get_int eq_bytes
  report-reply none h = ap (λ s. ok (pos 0, s)) (shown_result_lem algo text result)
  report-reply (some (code, message)) h =
      let (same, value) = int_code code message h in
      ap
        (λ n. ok (n, codes "error: " ++ text.write_string (obj (jsonrpc_error code message)) false))
        (ap abs_int same ∙ value)

  caught-by_status :
      (status : ℕ) (reply : Fields F) (shown : ℤ × Bytes)
      → report algo text reply ≡ ok shown
      → caught algo text (by_status status reply >>= report algo text)
        ≡ ok (
            if status == 401
            then (pos 87, codes "error: incorrect rpcuser or rpcpassword (authorization failed)")
            else if carries_reply status
            then shown
            else (
              pos 87,
              codes "error: " ++ (codes "server returned HTTP error " ++ decimal status),
            ))
  caught-by_status status reply shown h = by_tests _ _ (status == 401) (carries_reply status)
    where
      by_tests :
          (x y : Bytes) (a b : Bool)
          → caught algo text
              ((if a then throw x else if b then ok reply else throw y) >>= report algo text)
            ≡ ok (
                if a
                then (pos 87, codes "error: " ++ x)
                else if b
                then shown
                else (pos 87, codes "error: " ++ y))
      by_tests x y true b = refl
      by_tests x y false true = ap (caught algo text) h
      by_tests x y false false = refl

module _ (args : Dict Bytes) (c : ℕ) (user password : Bytes)
    (has_user : lookup (codes "-rpcuser") args ≡ some (c ∷ user))
    (has_password : lookup (codes "-rpcpassword") args ≡ some password) {F : Type 0}
    (algo : StringAlgo) (text : JsonText F) (net : Network) (argv : List Bytes) (method : Bytes)
    (words : List Bytes) (params : List (Value F)) where
  command_by_call :
      (fuel : ℕ)
      → skip_switches algo text argv ≡ method ∷ words
      → rpc_convert_values text method words ≡ ok params
      → command_line_rpc algo text fuel net args argv
        ≡ Option.map
            (λ r. caught algo text (r >>= report algo text))
            (call_rpc algo text fuel net args method params).0
  unfolding command_line_rpc run_command
  command_by_call fuel is_command converted =
      ap (λ ws. Option.map (caught algo text) (run_command algo text fuel net args ws)) is_command
      ∙ ap
          (λ (r : Result (List (Value F))). Option.map (caught algo text) (elim r [
            | ok values ↦
                Option.map (λ r. r >>= report algo text)
                  (call_rpc algo text fuel net args method values).0
            | throw e ↦ some (throw e)
            | undefined ↦ some undefined
          ]))
          converted
      ∙ map_map (call_rpc algo text fuel net args method params).0
    where
      map_map :
          (o : Option (Result (Fields F)))
          → Option.map (caught algo text) (Option.map (λ r. r >>= report algo text) o)
            ≡ Option.map (λ r. caught algo text (r >>= report algo text)) o
      map_map none = refl
      map_map (some r) = refl

  -- A command on the command line, with a user and a password in the arguments, to an endpoint that
  -- accepts at once and whose server writes a JSON-RPC reply with `HTTPReply` for the request that is
  -- posted. At the statuses that carry a reply, the exit code is 0 and the text is the result's, where the
  -- reply has no error: none for null, a string as it is, and the indented JSON of any other value; otherwise the exit code is the absolute value of the error's code, and the
  -- text shows the error. At status 401 and at the others the exit code is 87, and the text names what
  -- went wrong. Where the parameters convert, the error's code and its absolute value fit an `int`, the JSON reader reads the
  -- reply's text back as its object, the date is one line, and the text has at most `MAX_SIZE` bytes.
  pub command_line_rpc-printed :
      (fuel : ℕ) (result id : Value F) (failure : Option (ℤ × Bytes)) (date : Bytes) (status : ℕ)
      (keepalive : Bool) (rest : Bytes)
      → skip_switches algo text argv ≡ method ∷ words
      → rpc_convert_values text method words ≡ ok params
      → HasIntCode failure
      → reaches net args 0 ≡ ok true
      → net.respond (posted algo text (c ∷ user) password method params)
        ≡ http_reply date status (jsonrpc_reply text result (error_value failure) id) keepalive
          ++ rest
      → IsDate date
      → status < 2 ^ 31
      → length (jsonrpc_reply text result (error_value failure) id) ≤ 1000000
      → text.read_string (jsonrpc_reply text result (error_value failure) id)
        ≡ some (obj (jsonrpc_reply_obj result (error_value failure) id))
      → command_line_rpc algo text (suc fuel) net args argv
        ≡ some (ok (printed algo text status result failure))
  command_line_rpc-printed fuel result id failure date status keepalive rest is_command converted
        int_code h responds d s fits e =
      command_by_call (suc fuel) is_command converted
      ∙ ap (λ r. Option.map (λ x. caught algo text (x >>= report algo text)) r.0)
          (call_rpc-answered args c user password has_user has_password algo text net method params
            fuel result (error_value failure) id date status keepalive rest h responds d s fits e)
      ∙ ap some (
          caught-by_status algo text result id status _ _
            (report-reply algo text result id failure int_code))
