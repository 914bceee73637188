-- ===== src/Rpc/Laws.antt =====
-- What a command does end to end: the server reads the request that was meant, and the client
-- returns the object that the server replied.
use fidinventor.Base.{
  ℕ, ◌≤◌, ◌<◌, ◌≡◌, ◌≢◌, inl, inr, Bool-cases, refl, ap, ◌∙◌, Bool, false, some, List, [], ◌∷◌,
  ◌++◌, arith, All, All-append, length, ◌^◌, ltb, ◌||◌, ℤ, pos, if◌then◌else◌, ◌==◌,
}
use fidinventor.Base.Text.{Bytes, IsByte, codes, eq_bytes, lt_bytes, is_empty}
use fidinventor.Base.Dict.{Dict, assign}
use fidinventor.Base.Boost.{StringAlgo, EndsBare}
use fidinventor.Base.Result.{Result, ok, throw, ◌>>=◌}
use fidinventor.Base.Decimal.{decimal, decimal_ℤ}
use fidinventor.Base64.{encode_base64}
use fidinventor.Base64.Shape.{IsGraphic, encode_base64-IsGraphic}
use fidinventor.Http.Write.{http_reply, post_headers}
use fidinventor.Http.Read.{Message, read_request_line, read_status, read_message, settle_connection}
use fidinventor.Http.Lines.{IsHeader, note_headers}
use fidinventor.Http.Literal.{
  literal-IsHeader, literal_key, Solid, Solid-Lacks, Solid-EndsBare, NoLength,
}
use fidinventor.Http.Exchange.{read-http_post, post_rest}
use fidinventor.Http.Reply.{IsDate, read-http_reply, sent_body}
use fidinventor.Json.Value.{Value, int, str, arr, obj, end, field, JsonText}
use fidinventor.Json.Object.{of_elements}
use fidinventor.Rpc.Message.{jsonrpc_request, jsonrpc_reply, jsonrpc_reply_obj}
use fidinventor.Rpc.Call.{
  request_headers, posted, check_status, parse_reply, check_reply, read_response,
}

graphic-Solid : (s : Bytes) → All IsGraphic s → Solid s
graphic-Solid [] h = tt
graphic-Solid (c ∷ s) (hc, hs) = (ground arith, graphic-Solid s hs)

EndsBare-append : (s : Bytes) (c : ℕ) (t : Bytes) → EndsBare (c ∷ t) → EndsBare (s ++ c ∷ t)
EndsBare-append [] c t h = h
EndsBare-append (a ∷ []) c t h = h
EndsBare-append (a ∷ b ∷ s) c t h = EndsBare-append (b ∷ s) c t h

-- The value of the `Authorization` header.
abbrev authorization : Bytes → Bytes
authorization login = codes "Basic " ++ encode_base64 login

starts_login :
    (user password : Bytes) → (c : ℕ) × (s : Bytes) × (user ++ (codes ":" ++ password) ≡ c ∷ s)
starts_login [] password = (b':', password, refl)
starts_login (c ∷ user) password = (c, user ++ (codes ":" ++ password), refl)

encode-ne-nil : (c : ℕ) (s : Bytes) → (d : ℕ) × (t : Bytes) × (encode_base64 (c ∷ s) ≡ d ∷ t)
unfolding encode_base64
encode-ne-nil c s = (_, _, refl)

authorization-IsHeader :
    (c : ℕ) (s : Bytes)
    → All IsByte (c ∷ s)
    → IsHeader (codes "Authorization", authorization (c ∷ s))
authorization-IsHeader c s h =
    let solid = graphic-Solid (encode_base64 (c ∷ s)) (encode_base64-IsGraphic (c ∷ s) h) in
    let (d, t, e) = encode-ne-nil c s in
    literal_key (codes "Authorization") (authorization (c ∷ s)) refl
      (All-append (λ b. b ≢ 10) (codes "Basic ") (encode_base64 (c ∷ s)) (omega arith)
        (Solid-Lacks (encode_base64 (c ∷ s)) solid))
      refl (rw e (EndsBare-append (codes "Basic ") d t (Solid-EndsBare (d ∷ t) (rw e at solid))))

request_headers-IsHeader :
    (user password : Bytes)
    → All IsByte user
    → All IsByte password
    → All IsHeader (request_headers user password)
unfolding request_headers assign eq_bytes lt_bytes
request_headers-IsHeader user password hu hp =
    let login = user ++ (codes ":" ++ password) in
    let (c, s, e) = starts_login user password in
    let bytes = All-append IsByte user (codes ":" ++ password) hu (omega arith, hp) in
    (rw e (authorization-IsHeader c s (rw e at bytes)), (literal-IsHeader _ _ refl refl, tt))

request_headers-NoLength : (user password : Bytes) → NoLength (request_headers user password)
unfolding request_headers assign eq_bytes lt_bytes
request_headers-NoLength user password = (refl, (refl, tt))

module _ {F : Type 0} (algo : StringAlgo) (text : JsonText F) where
  -- The text of the request for a command: one line with the command, its parameters and the id 1.
  abbrev pub request_text : Bytes → List (Value F) → Bytes
  request_text method params =
      text.write_string
        (obj (
          field (codes "method") (str method) (
            field (codes "params") (arr (of_elements params))
              (field (codes "id") (int (pos 1)) end))))
        false
      ++ 10 ∷ []

  -- The headers that the client adds: the login of basic authorization, and the kind of connection.
  abbrev pub login_headers : Bytes → Bytes → Dict Bytes
  login_headers user password =
      (codes "Authorization", codes "Basic " ++ encode_base64 (user ++ b':' ∷ password))
      ∷ (codes "Connection", codes "keep-alive")
      ∷ []

  -- What a server reads of the bytes that `CallRPC` posts: a POST of "/", with the login among its
  -- headers, and as its message the line of JSON with the members "method", "params" and "id", which
  -- are the command, the parameters and 1. For credentials made of bytes and a request of at most
  -- `MAX_SIZE` bytes.
  pub read-posted :
      (user password method : Bytes) (params : List (Value F))
      → All IsByte user
      → All IsByte password
      → length (request_text method params) ≤ 1000000
      → (read_request_line algo (posted algo text user password method params ++ []) ≡ (
        some (pos 1, codes "POST", codes "/"),
        post_rest (request_text method params) (login_headers user password) [],
      ))
        × (read_message algo
              (post_rest (request_text method params) (login_headers user password) [])
              (pos 1)
            ≡ some (record {
              status = pos 200;
              headers =
                  settle_connection algo
                    (note_headers algo
                      (post_headers (request_text method params) ++ login_headers user password)
                      ([], pos 0)).0
                    (pos 1);
              message = request_text method params;
              rest = [];
            }))
  unfolding posted jsonrpc_request request_headers assign eq_bytes lt_bytes
  read-posted user password method params hu hp fits =
      read-http_post algo (request_text method params) (login_headers user password) []
        (request_headers-IsHeader user password hu hp) (request_headers-NoLength user password) fits

  response_read :
      (stream : Bytes) {status proto : ℤ} {rest : Bytes} {m : Message}
      → read_status algo stream (pos 0) ≡ (status, proto, rest)
      → read_message algo rest proto ≡ some m
      → read_response algo text stream ≡ some (check_reply text status m.message)
  unfolding read_response
  response_read stream p q = rw (p, q)

  -- Reading a response that `HTTPReply` wrote is checking its status and its body.
  response_checked :
      (date : Bytes) (status : ℕ) (msg : Bytes) (keepalive : Bool) (rest : Bytes)
      → IsDate date
      → status < 2 ^ 31
      → length msg ≤ 1000000
      → read_response algo text (http_reply date status msg keepalive ++ rest)
        ≡ some (check_reply text (pos status) (sent_body status msg))
  response_checked date status msg keepalive rest d s fits =
      let (e₁, e₂) = read-http_reply algo date status msg keepalive rest (pos 0) d s fits in
      response_read (http_reply date status msg keepalive ++ rest) e₁ e₂

line_not_empty : (s : Bytes) → is_empty (s ++ 10 ∷ []) ≡ false
line_not_empty [] = refl
line_not_empty (c ∷ s) = refl

-- The statuses whose body `CallRPC` takes for a reply.
abbrev pub carries_reply : ℕ → Bool
carries_reply status = ltb status 400 || ((status == 400) || ((status == 404) || (status == 500)))

-- The object of a reply, or what is thrown at the status.
abbrev pub by_status : {A : Type 0} → ℕ → A → Result A
by_status status a =
    if status == 401
    then throw (codes "incorrect rpcuser or rpcpassword (authorization failed)")
    else if carries_reply status
    then ok a
    else throw (codes "server returned HTTP error " ++ decimal status)

check_status-pos : (status : ℕ) → check_status (pos status) ≡ by_status status tt
unfolding check_status decimal_ℤ
check_status-pos status = ground arith

check_reply_lem :
    {F : Type 0} (text : JsonText F) (status : ℤ) (body : Bytes)
    → check_reply text status body ≡ (check_status status >>= λ _. parse_reply text body)
unfolding check_reply
check_reply_lem text status body = refl

then_reply :
    {A : Type 0} (status : ℕ) (a : A) (r : Result A)
    → ((status == 401) ≡ false → r ≡ ok a)
    → (by_status status tt >>= λ _. r) ≡ by_status status a
then_reply status a r h = elim (Bool-cases (status == 401)) [
  | inl e ↦ rw e
  | inr e ↦ rw (e, h e) (ground arith)
]

module _ {F : Type 0} (algo : StringAlgo) (text : JsonText F) (result error id : Value F)
    (date : Bytes) (status : ℕ) (keepalive : Bool) (rest : Bytes) where
  reply_not_empty : is_empty (jsonrpc_reply text result error id) ≡ false
  unfolding jsonrpc_reply
  reply_not_empty =
      line_not_empty (text.write_string (obj (jsonrpc_reply_obj result error id)) false)

  parse_reply-object :
      text.read_string (jsonrpc_reply text result error id)
        ≡ some (obj (jsonrpc_reply_obj result error id))
      → parse_reply text (jsonrpc_reply text result error id)
        ≡ ok (jsonrpc_reply_obj result error id)
  unfolding parse_reply jsonrpc_reply_obj
  parse_reply-object e = rw (reply_not_empty, e)

  -- A response that a server wrote by `JSONRPCReply` and `HTTPReply` gives, at the statuses below
  -- 400 and at 400, 404 and 500, the object of the reply; at 401 the error of authorization, and at
  -- any other status the error that names it. Where the JSON reader reads the reply's text back as
  -- the reply's object, the date is one line, and the text has at most `MAX_SIZE` bytes.
  pub response_by_status :
      IsDate date
      → status < 2 ^ 31
      → length (jsonrpc_reply text result error id) ≤ 1000000
      → text.read_string (jsonrpc_reply text result error id)
        ≡ some (obj (jsonrpc_reply_obj result error id))
      → read_response algo text
          (http_reply date status (jsonrpc_reply text result error id) keepalive ++ rest)
        ≡ some (by_status status (jsonrpc_reply_obj result error id))
  response_by_status d s fits e =
      response_checked algo text date status (jsonrpc_reply text result error id) keepalive rest d s
        fits
      ∙ ap some (outcome e)
    where
      outcome :
          text.read_string (jsonrpc_reply text result error id)
            ≡ some (obj (jsonrpc_reply_obj result error id))
          → check_reply text (pos status) (sent_body status (jsonrpc_reply text result error id))
            ≡ by_status status (jsonrpc_reply_obj result error id)
      outcome e =
          check_reply_lem text (pos status) (sent_body status (jsonrpc_reply text result error id))
          ∙ (ap
                (λ r. r >>= λ _.
                  parse_reply text (sent_body status (jsonrpc_reply text result error id)))
                (check_status-pos status)
              ∙ then_reply status (jsonrpc_reply_obj result error id)
                  (parse_reply text (sent_body status (jsonrpc_reply text result error id)))
                  (λ other. rw other (parse_reply-object e)))
