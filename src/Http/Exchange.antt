-- ===== src/Http/Exchange.antt =====
-- A server that reads requests with these readers gets what `HTTPPost` wrote.
use fidinventor.Base.{
  ◌≤◌, ◌≡◌, refl, ap, ◌∙◌, some, [], ◌∷◌, ◌++◌, append-nil, sym, arith, All, All-append, length, ℤ,
  pos,
}
use fidinventor.Base.Text.{Bytes, codes, eq_bytes, c_atoi}
use fidinventor.Base.Dict.{Dict}
use fidinventor.Base.Boost.{StringAlgo}
use fidinventor.Base.Decimal.{decimal, c_atoi-decimal}
use fidinventor.Http.Write.{crlf, header_lines, post_headers, http_post}
use fidinventor.Http.Read.{read_request_line, read_message, settle_connection, http_minor}
use fidinventor.Http.Lines.{
  IsHeader, getline-crlf, note_headers, header_lines-append, header_lines-rest,
}
use fidinventor.Http.Literal.{
  literal-IsHeader, Solid-value, decimal-Solid, announced, NoLength, announced-NoLength,
  note_headers-announced,
}
use fidinventor.Http.Framing.{read_message-header_lines}

post_headers-IsHeader : (msg : Bytes) → All IsHeader (post_headers msg)
unfolding post_headers
post_headers-IsHeader msg = (
  literal-IsHeader _ _ refl refl,
  (
    literal-IsHeader _ _ refl refl,
    (
      literal-IsHeader _ _ refl refl,
      (
        Solid-value _ _ refl (decimal-Solid (length msg)),
        (literal-IsHeader _ _ refl refl, (literal-IsHeader _ _ refl refl, tt)),
      ),
    ),
  ),
)

post_headers-announced :
    (msg : Bytes) (extra : Dict Bytes) (n : ℤ)
    → announced (post_headers msg ++ extra) n ≡ announced extra (c_atoi (decimal (length msg)))
unfolding post_headers eq_bytes
post_headers-announced msg extra n = refl

pub announced_length :
    (msg : Bytes) → length msg ≤ 1000000 → c_atoi (decimal (length msg)) ≡ pos (length msg)
announced_length msg h =
    ap c_atoi (sym (append-nil (decimal (length msg))))
    ∙ c_atoi-decimal (length msg) [] (omega arith) tt

-- The stream behind the request line.
abbrev pub post_rest : Bytes → Dict Bytes → Bytes → Bytes
post_rest msg extra rest = header_lines (post_headers msg ++ extra) (crlf ++ (msg ++ rest))

http_post-rest :
    (msg : Bytes) (extra : Dict Bytes) (rest : Bytes)
    → http_post msg extra ++ rest ≡ codes "POST / HTTP/1.1" ++ (crlf ++ post_rest msg extra rest)
unfolding http_post
http_post-rest msg extra rest =
    ap (λ s. codes "POST / HTTP/1.1" ++ (crlf ++ s))
      (header_lines-rest (post_headers msg) (header_lines extra (crlf ++ msg)) rest
        ∙ (ap (header_lines (post_headers msg)) (header_lines-rest extra (crlf ++ msg) rest)
            ∙ header_lines-append (post_headers msg) extra (crlf ++ (msg ++ rest))))

module _ (algo : StringAlgo) where
  open algo use {split, split-Lacks, split-append}

  split_request :
      split (codes "POST / HTTP/1.1" ++ 13 ∷ [])
      ≡ codes "POST" ∷ codes "/" ∷ (codes "HTTP/1.1" ++ 13 ∷ []) ∷ []
  split_request =
      split-append (codes "POST") (codes "/ HTTP/1.1" ++ 13 ∷ []) (omega arith)
      ∙ ap (◌∷◌ (codes "POST")) (
          split-append (codes "/") (codes "HTTP/1.1" ++ 13 ∷ []) (omega arith)
          ∙ ap (◌∷◌ (codes "/")) (split-Lacks (codes "HTTP/1.1" ++ 13 ∷ []) (omega arith)))

  read_request_line-post :
      (rest : Bytes)
      → read_request_line algo (codes "POST / HTTP/1.1" ++ (crlf ++ rest))
        ≡ (some (pos 1, codes "POST", codes "/"), rest)
  unfolding read_request_line http_minor eq_bytes
  read_request_line-post rest =
      rw (getline-crlf (codes "POST / HTTP/1.1") rest (omega arith), split_request)

  -- A request that `HTTPPost` wrote is read as a POST of "/" in protocol 1, and its message is
  -- `strMsg`: for extra headers that are well formed and announce no length, and a message of at
  -- most `MAX_SIZE` bytes. The stream is left at the first byte behind the request.
  pub read-http_post :
      (msg : Bytes) (extra : Dict Bytes) (rest : Bytes)
      → All IsHeader extra
      → NoLength extra
      → length msg ≤ 1000000
      → (read_request_line algo (http_post msg extra ++ rest)
          ≡ (some (pos 1, codes "POST", codes "/"), post_rest msg extra rest))
        × (read_message algo (post_rest msg extra rest) (pos 1)
            ≡ some (record {
              status = pos 200;
              headers =
                  settle_connection algo
                    (note_headers algo (post_headers msg ++ extra) ([], pos 0)).0
                    (pos 1);
              message = msg;
              rest = rest;
            }))
  read-http_post msg extra rest h nolen fits = (
    rw (http_post-rest msg extra rest) (read_request_line-post (post_rest msg extra rest)),
    read_message-header_lines algo (post_headers msg ++ extra) msg rest (pos 1)
        (All-append IsHeader (post_headers msg) extra (post_headers-IsHeader msg) h)
        (note_headers-announced algo (post_headers msg ++ extra) ([], pos 0)
          ∙ (post_headers-announced msg extra (pos 0)
              ∙ (announced-NoLength extra _ nolen ∙ announced_length msg fits)))
        fits,
  )
