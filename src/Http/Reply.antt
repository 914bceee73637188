-- ===== src/Http/Reply.antt =====
-- A client that reads replies with these readers gets what `HTTPReply` wrote.
use fidinventor.Base.{
  ℕ, ◌≤◌, ◌<◌, ◌^◌, ◌≡◌, ◌≢◌, refl, ap, sym, ◌∙◌, Bool, true, false, some, [], ◌∷◌, ◌++◌,
  append_assoc, append-nil, arith, All, All-append, length, ℤ, pos, ◌==◌, ==_iff, if◌then◌else◌,
  Bool-cases, inl, inr,
}
use fidinventor.Base.Text.{Bytes, codes, eq_bytes, c_atoi}
use fidinventor.Base.Dict.{Dict}
use fidinventor.Base.Boost.{StringAlgo, Lacks, StartsBare, EndsBare}
use fidinventor.Base.Decimal.{decimal, c_atoi-decimal}
use fidinventor.Http.Write.{
  crlf, header_lines, reply_headers, unauthorized_headers, unauthorized_page, status_phrase,
  http_reply,
}
use fidinventor.Http.Read.{read_status, read_message, settle_connection, http_minor}
use fidinventor.Http.Lines.{IsHeader, getline-crlf, note_headers, header_lines-rest}
use fidinventor.Http.Literal.{
  literal_key, literal-IsHeader, Solid-value, decimal-Solid, Solid-Lacks, Solid-Lacks_space,
  announced, note_headers-announced,
}
use fidinventor.Http.Exchange.{announced_length}
use fidinventor.Http.Framing.{read_message-header_lines}

-- The date text is one line with no white space at its ends.
pub record IsDate (date : Bytes) : Type 0 where
  pub line : Lacks 10 date
  pub starts : StartsBare date
  pub ends : EndsBare date

reply_headers-IsHeader :
    (date msg : Bytes) (keepalive : Bool)
    → IsDate date
    → All IsHeader (reply_headers date msg keepalive)
unfolding reply_headers
reply_headers-IsHeader date msg keepalive d = (
  literal_key _ date refl d.line d.starts d.ends,
  (
    connection keepalive,
    (
      Solid-value _ _ refl (decimal-Solid (length msg)),
      (literal-IsHeader _ _ refl refl, (literal-IsHeader _ _ refl refl, tt)),
    ),
  ),
)
  where
    connection :
        (b : Bool)
        → IsHeader (codes "Connection", (if b then codes "keep-alive" else codes "close"))
    connection true = literal-IsHeader _ _ refl refl
    connection false = literal-IsHeader _ _ refl refl

unauthorized_headers-IsHeader :
    (date : Bytes) → IsDate date → All IsHeader (unauthorized_headers date)
unfolding unauthorized_headers
unauthorized_headers-IsHeader date d = (
  literal_key _ date refl d.line d.starts d.ends,
  (
    literal-IsHeader _ _ refl refl,
    (
      literal-IsHeader _ _ refl refl,
      (literal-IsHeader _ _ refl refl, (literal-IsHeader _ _ refl refl, tt)),
    ),
  ),
)

reply_headers-announced :
    (date msg : Bytes) (keepalive : Bool)
    → announced (reply_headers date msg keepalive) (pos 0) ≡ c_atoi (decimal (length msg))
unfolding reply_headers eq_bytes
reply_headers-announced date msg keepalive = refl

unauthorized_headers-announced :
    (date : Bytes) → announced (unauthorized_headers date) (pos 0) ≡ pos (length unauthorized_page)
unfolding unauthorized_headers eq_bytes c_atoi
unauthorized_headers-announced date = refl

-- The headers that a reply has, its body, and the minor version of the protocol.
abbrev pub sent_headers : Bytes → ℕ → Bytes → Bool → Dict Bytes
sent_headers date status msg keepalive =
    if status == 401 then unauthorized_headers date else reply_headers date msg keepalive

abbrev pub sent_body : ℕ → Bytes → Bytes
sent_body status msg = if status == 401 then unauthorized_page else msg

abbrev pub sent_minor : ℕ → ℤ
sent_minor status = if status == 401 then pos 0 else pos 1

abbrev pub reply_rest : Bytes → ℕ → Bytes → Bool → Bytes → Bytes
reply_rest date status msg keepalive rest =
    header_lines (sent_headers date status msg keepalive) (crlf ++ (sent_body status msg ++ rest))

-- The first line of a reply, without its line end.
abbrev ok_line : ℕ → Bytes
ok_line status = codes "HTTP/1.1 " ++ (decimal status ++ (codes " " ++ status_phrase status))

abbrev pub status_line : ℕ → Bytes
status_line status =
    if status == 401 then codes "HTTP/1.0 401 Authorization Required" else ok_line status

-- A text that goes on behind the body.
text-rest :
    (line : Bytes) (hs : Dict Bytes) (body rest : Bytes)
    → (line ++ (crlf ++ header_lines hs (crlf ++ body))) ++ rest
      ≡ line ++ (crlf ++ header_lines hs (crlf ++ (body ++ rest)))
text-rest line hs body rest =
    append_assoc line (crlf ++ header_lines hs (crlf ++ body)) rest
    ∙ ap (λ s. line ++ (crlf ++ s)) (header_lines-rest hs (crlf ++ body) rest)

module _ (date : Bytes) (status : ℕ) (msg : Bytes) (keepalive : Bool) (rest : Bytes) where
  http_reply-rest :
      http_reply date status msg keepalive ++ rest
      ≡ status_line status ++ (crlf ++ reply_rest date status msg keepalive rest)
  unfolding http_reply
  http_reply-rest = elim (Bool-cases (status == 401)) [
    | inl e ↦ rw e (
        text-rest (codes "HTTP/1.0 401 Authorization Required") (unauthorized_headers date)
          unauthorized_page rest)
    | inr e ↦ rw e (text-rest (ok_line status) (reply_headers date msg keepalive) msg rest)
  ]

if_both {ℓ κ} :
    {A : Type ℓ} (P : A → Type κ) (b : Bool) {x y : A} → P x → P y → P (if b then x else y)
if_both P true first second = first
if_both P false first second = second

status_phrase-Lacks : (status : ℕ) → Lacks 10 (status_phrase status)
unfolding status_phrase
status_phrase-Lacks status = if_both (Lacks 10) (status == 200) (omega arith) (
    if_both (Lacks 10) (status == 400) (omega arith) (
      if_both (Lacks 10) (status == 403) (omega arith) (
        if_both (Lacks 10) (status == 404) (omega arith)
          (if_both (Lacks 10) (status == 500) (omega arith) tt))))

ok_line-Lacks : (status : ℕ) → Lacks 10 (ok_line status)
ok_line-Lacks status =
    All-append (λ b. b ≢ 10) (codes "HTTP/1.1 ")
      (decimal status ++ (codes " " ++ status_phrase status)) (omega arith)
      (All-append (λ b. b ≢ 10) (decimal status) (codes " " ++ status_phrase status)
        (Solid-Lacks (decimal status) (decimal-Solid status))
        (omega arith, status_phrase-Lacks status))

c_atoi-decimal_only : (n : ℕ) → n < 2 ^ 31 → c_atoi (decimal n) ≡ pos n
c_atoi-decimal_only n h = ap c_atoi (sym (append-nil (decimal n))) ∙ c_atoi-decimal n [] h tt

module _ (algo : StringAlgo) where
  open algo use {split, split-Lacks, split-append}

  split_ok_line :
      (status : ℕ) (tail : Bytes)
      → split (codes "HTTP/1.1 " ++ (decimal status ++ b' ' ∷ tail))
        ≡ codes "HTTP/1.1" ∷ decimal status ∷ split tail
  split_ok_line status tail =
      split-append (codes "HTTP/1.1") (decimal status ++ b' ' ∷ tail) (omega arith)
      ∙ ap (◌∷◌ (codes "HTTP/1.1")) (
          split-append (decimal status) tail
            (Solid-Lacks_space (decimal status) (decimal-Solid status)))

  split_denied_line :
      split (codes "HTTP/1.0 401 Authorization Required" ++ 13 ∷ [])
      ≡ codes "HTTP/1.0" ∷ codes "401" ∷ split (codes "Authorization Required" ++ 13 ∷ [])
  split_denied_line =
      split-append (codes "HTTP/1.0") (codes "401 Authorization Required" ++ 13 ∷ []) (omega arith)
      ∙ ap (◌∷◌ (codes "HTTP/1.0"))
          (split-append (codes "401") (codes "Authorization Required" ++ 13 ∷ []) (omega arith))

  read_status-reply :
      (status : ℕ) (rest : Bytes) (proto : ℤ)
      → status < 2 ^ 31
      → read_status algo (status_line status ++ (crlf ++ rest)) proto
        ≡ (pos status, sent_minor status, rest)
  unfolding read_status http_minor
  read_status-reply status rest proto fits = elim (Bool-cases (status == 401)) [
    | inl e ↦
        rw (e, (==_iff status 401).0 e)
          (rw (
            getline-crlf (codes "HTTP/1.0 401 Authorization Required") rest (omega arith),
            split_denied_line,
          ))
    | inr e ↦ rw e (
        rw (
          getline-crlf (ok_line status) rest (ok_line-Lacks status),
          append_assoc (decimal status) (codes " " ++ status_phrase status) (13 ∷ []),
          split_ok_line status (status_phrase status ++ 13 ∷ []),
          c_atoi-decimal_only status fits,
        ))
  ]

  -- A reply that `HTTPReply` wrote is read back: its status, the minor version of its protocol, and
  -- as the message the body, `strMsg` or at status 401 the page. For a date text on one line and a
  -- message of at most `MAX_SIZE` bytes. The stream is left at the first byte behind the reply.
  pub read-http_reply :
      (date : Bytes) (status : ℕ) (msg : Bytes) (keepalive : Bool) (rest : Bytes) (proto : ℤ)
      → IsDate date
      → status < 2 ^ 31
      → length msg ≤ 1000000
      → (read_status algo (http_reply date status msg keepalive ++ rest) proto
          ≡ (pos status, sent_minor status, reply_rest date status msg keepalive rest))
        × (read_message algo (reply_rest date status msg keepalive rest) (sent_minor status)
            ≡ some (record {
              status = pos 200;
              headers =
                  settle_connection algo
                    (note_headers algo (sent_headers date status msg keepalive) ([], pos 0)).0
                    (sent_minor status);
              message = sent_body status msg;
              rest = rest;
            }))
  read-http_reply date status msg keepalive rest proto d s fits = (
    rw (http_reply-rest date status msg keepalive rest)
        (read_status-reply status (reply_rest date status msg keepalive rest) proto s),
    read_message-header_lines algo (sent_headers date status msg keepalive) (sent_body status msg)
        rest (sent_minor status) (sent-IsHeader status)
        (note_headers-announced algo (sent_headers date status msg keepalive) ([], pos 0)
          ∙ sent-announced status)
        (if_both (λ (m : Bytes). length m ≤ 1000000) (status == 401) (omega arith) fits),
  )
    where
      sent-IsHeader : (n : ℕ) → All IsHeader (sent_headers date n msg keepalive)
      sent-IsHeader n =
          if_both (All IsHeader) (n == 401) (unauthorized_headers-IsHeader date d)
            (reply_headers-IsHeader date msg keepalive d)

      sent-announced :
          (n : ℕ)
          → announced (sent_headers date n msg keepalive) (pos 0) ≡ pos (length (sent_body n msg))
      sent-announced n = elim (Bool-cases (n == 401)) [
        | inl e ↦ rw e (unauthorized_headers-announced date)
        | inr e ↦ rw e (reply_headers-announced date msg keepalive ∙ announced_length msg fits)
      ]
