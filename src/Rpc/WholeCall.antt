-- ===== src/Rpc/WholeCall.antt =====
-- A whole `CallRPC`: the credentials, the connection, the request and the response.
use fidinventor.Base.{
  ℕ, suc, ◌≤◌, ◌<◌, ◌^◌, ◌≡◌, ap, ◌∙◌, arith, Bool, true, false, Option, none, some, List, [], ◌∷◌,
  ◌++◌, length, pos, if◌then◌else◌,
}
use fidinventor.Base.Text.{Bytes, codes, is_empty}
use fidinventor.Base.Dict.{Dict, lookup, assign, get_or_add}
use fidinventor.Base.Boost.{StringAlgo}
use fidinventor.Base.Result.{Result, ok, throw, undefined}
use fidinventor.Args.{get_arg, get_bool_arg, itostr}
use fidinventor.Http.Write.{http_reply}
use fidinventor.Http.Reply.{IsDate}
use fidinventor.Json.Value.{Value, obj, JsonText}
use fidinventor.Rpc.Message.{jsonrpc_reply, jsonrpc_reply_obj}
use fidinventor.Rpc.Call.{
  Network, connect, after_try, connect_loop, no_password, check_credentials, read_response, posted,
  exchange, connect_and_exchange, call_rpc,
}
use fidinventor.Rpc.Connect.{connect_loop-waits}
use fidinventor.Rpc.Laws.{by_status, response_by_status}

get_or_add-found :
    (k : Bytes) (m : Dict Bytes) {v : Bytes} → lookup k m ≡ some v → get_or_add k m ≡ (v, m)
unfolding get_or_add
get_or_add-found k m h = ap (λ o. elim o [ none ↦ ([], assign k [] m) | some v ↦ (v, m) ]) h

-- The endpoint that the arguments name.
abbrev pub reaches : Network → Dict Bytes → ℕ → Result Bool
reaches net args n = connect (
    net.endpoints n (get_arg args (codes "-rpcconnect") (codes "127.0.0.1"))
      (get_arg args (codes "-rpcport") (itostr (pos 19772))))

connect_loop-first :
    (fuel : ℕ) (connects : ℕ → Result Bool) (wait : Bool)
    → connects 0 ≡ ok true
    → connect_loop (suc fuel) 0 connects wait ≡ some (ok tt)
unfolding connect_loop
connect_loop-first fuel connects wait h =
    ap (λ t. after_try t wait (connect_loop fuel 1 connects wait)) h

module _ (args : Dict Bytes) (c : ℕ) (user password : Bytes)
    (has_user : lookup (codes "-rpcuser") args ≡ some (c ∷ user))
    (has_password : lookup (codes "-rpcpassword") args ≡ some password) where
  credentials-found : check_credentials args ≡ (ok tt, args)
  unfolding check_credentials
  credentials-found =
      ap
        (λ (r : Bytes × Dict Bytes).
          if is_empty r.0
          then if◌then◌else◌ {A = Result (Unit {0}) × Dict Bytes}
              (is_empty (get_or_add (codes "-rpcpassword") r.1).0)
              (throw no_password, (get_or_add (codes "-rpcpassword") r.1).1)
              (ok tt, (get_or_add (codes "-rpcpassword") r.1).1)
          else (ok tt, r.1))
        (get_or_add-found (codes "-rpcuser") args has_user)

  module _ {F : Type 0} (algo : StringAlgo) (text : JsonText F) (net : Network) (method : Bytes)
      (params : List (Value F)) where
    exchange-found : exchange algo text net args method params ≡ (
      read_response algo text (net.respond (posted algo text (c ∷ user) password method params)),
      args,
    )
    unfolding exchange
    exchange-found =
        ap
          (λ (r : Bytes × Dict Bytes). (
            read_response algo text (
                net.respond
                  (posted algo text r.0 (get_or_add (codes "-rpcpassword") r.1).0 method params)),
            (get_or_add (codes "-rpcpassword") r.1).1,
          ))
          (get_or_add-found (codes "-rpcuser") args has_user)
        ∙ ap
            (λ (r : Bytes × Dict Bytes). (
              read_response algo text (net.respond (posted algo text (c ∷ user) r.0 method params)),
              r.1,
            ))
            (get_or_add-found (codes "-rpcpassword") args has_password)

    call_rpc-connected :
        (fuel : ℕ)
        → connect_loop fuel 0 (reaches net args) (get_bool_arg args (codes "-rpcwait") false)
          ≡ some (ok tt)
        → call_rpc algo text fuel net args method params ≡ (
          read_response algo text
              (net.respond (posted algo text (c ∷ user) password method params)),
          args,
        )
    unfolding call_rpc connect_and_exchange
    call_rpc-connected fuel h =
        ap
          (λ (r : Result (Unit {0}) × Dict Bytes). elim r.0 [
            | ok _ ↦ connect_and_exchange algo text fuel net r.1 method params
            | throw e ↦ (some (throw e), r.1)
            | undefined ↦ (some undefined, r.1)
          ])
          credentials-found
        ∙ ap
            (λ (o : Option (Result (Unit {0}))). elim o [
              | none ↦ (none, args)
              | some (ok _) ↦ exchange algo text net args method params
              | some (throw e) ↦ (some (throw e), args)
              | some undefined ↦ (some undefined, args)
            ])
            h
        ∙ exchange-found

    -- With `-rpcwait`, and a user and a password in the arguments, `CallRPC` goes on until the server
    -- accepts: where try `n` finds an endpoint that does, and the host's name resolves in the tries
    -- before it, more than `n` tries are enough, whichever endpoints those find. The result is then what the client reads of the answer to the one request
    -- that it posts, and the arguments stay as they are.
    pub call_rpc-waits :
        (n fuel : ℕ)
        → get_bool_arg args (codes "-rpcwait") false ≡ true
        → reaches net args n ≡ ok true
        → ((i : ℕ) → i < n → (b : Bool) × (reaches net args i ≡ ok b))
        → n < fuel
        → call_rpc algo text fuel net args method params ≡ (
          read_response algo text
              (net.respond (posted algo text (c ∷ user) password method params)),
          args,
        )
    call_rpc-waits n fuel wait h resolves l = call_rpc-connected fuel (
        ap (connect_loop fuel 0 (reaches net args)) wait
        ∙ connect_loop-waits n fuel 0 (reaches net args) (ap (reaches net args) (omega arith) ∙ h)
            (λ i k. let (b, e) = resolves i k in (b, ap (reaches net args) (omega arith) ∙ e)) l)

    -- A `CallRPC` with a user and a password in the arguments, to an endpoint that accepts at once and
    -- whose server writes a JSON-RPC reply with `HTTPReply` for the request that is posted, returns the
    -- object of the reply at the statuses that carry one, and throws at the others; the arguments stay as
    -- they are. Where the JSON reader reads the reply's text back as its object, the date is one line,
    -- and the text has at most `MAX_SIZE` bytes.
    pub call_rpc-answered :
        (fuel : ℕ) (result error id : Value F) (date : Bytes) (status : ℕ) (keepalive : Bool)
        (rest : Bytes)
        → reaches net args 0 ≡ ok true
        → net.respond (posted algo text (c ∷ user) password method params)
          ≡ http_reply date status (jsonrpc_reply text result error id) keepalive ++ rest
        → IsDate date
        → status < 2 ^ 31
        → length (jsonrpc_reply text result error id) ≤ 1000000
        → text.read_string (jsonrpc_reply text result error id)
          ≡ some (obj (jsonrpc_reply_obj result error id))
        → call_rpc algo text (suc fuel) net args method params
          ≡ (some (by_status status (jsonrpc_reply_obj result error id)), args)
    call_rpc-answered fuel result error id date status keepalive rest h responds d s fits e =
        call_rpc-connected (suc fuel) (
          connect_loop-first fuel (reaches net args) (get_bool_arg args (codes "-rpcwait") false) h)
        ∙ ap (λ stream. (read_response algo text stream, args)) responds
        ∙ ap (λ r. (r, args))
            (response_by_status algo text result error id date status keepalive rest d s fits e)
