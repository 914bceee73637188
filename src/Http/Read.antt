-- ===== src/Http/Read.antt =====
-- `ReadHTTPRequestLine`, `ReadHTTPStatus`, `ReadHTTPHeaders` and `ReadHTTPMessage`.
use fidinventor.Base.{
  ℕ, zero, suc, Bool, true, false, not, ◌&&◌, ◌||◌, Option, none, some, List, [], ◌∷◌, ◌==◌,
  if◌then◌else◌, length, ℤ, pos, ltb_ℤ, leb_ℤ, pos_part,
}
use fidinventor.Base.Text.{Bytes, codes, eq_bytes, c_atoi}
use fidinventor.Base.Dict.{Dict, assign, get_or_add}
use fidinventor.Base.Boost.{StringAlgo}
use fidinventor.Http.Stream.{getline, read_exactly, split_colon, c_str, strstr_after}

-- The number behind "HTTP/1.", and 0 where that is missing.
unfoldable pub http_minor : Bytes → ℤ
unfolding c_str strstr_after c_atoi
http_minor s = elim (strstr_after (codes "HTTP/1.") (c_str s)) [ none ↦ pos 0 | some v ↦ c_atoi v ]

-- `MAX_SIZE`
abbrev pub max_size : ℤ
max_size = pos 1000000

abbrev pub starts_slash : Bytes → Bool
starts_slash [] = false
starts_slash (c ∷ s) = c == b'/'

-- The line that ends the headers.
abbrev pub is_blank : Bytes → Bool
is_blank [] = true
is_blank (c ∷ []) = c == 13
is_blank (c ∷ d ∷ s) = false

-- The results of `ReadHTTPMessage`: its status, the headers, the message and the stream.
pub record Message : Type 0 where
  pub status : ℤ
  pub headers : Dict Bytes
  pub message : Bytes
  pub rest : Bytes

module _ (algo : StringAlgo) where
  open algo use {split, trim, to_lower}

  -- What `ReadHTTPRequestLine` makes of the words of a line: protocol, method and URI.
  unfoldable pub request_words : List Bytes → Option (ℤ × Bytes × Bytes)
  request_words (method ∷ uri ∷ []) =
      if eq_bytes method (codes "GET") || eq_bytes method (codes "POST")
      then (if starts_slash uri then some (http_minor [], method, uri) else none)
      else none
  request_words (method ∷ uri ∷ proto ∷ more) =
      if eq_bytes method (codes "GET") || eq_bytes method (codes "POST")
      then (if starts_slash uri then some (http_minor proto, method, uri) else none)
      else none
  request_words _ = none

  -- `ReadHTTPRequestLine`; `none` is its result `false`.
  unfoldable pub read_request_line : Bytes → Option (ℤ × Bytes × Bytes) × Bytes
  unfolding request_words
  read_request_line stream = let (line, rest) = getline stream in (request_words (split line), rest)

  -- The status and the protocol; too few words leave the protocol as it was.
  unfoldable pub status_words : Bytes → List Bytes → ℤ → ℤ × ℤ
  status_words line (version ∷ status ∷ more) proto = (c_atoi status, http_minor line)
  status_words line _ proto = (pos 500, proto)

  -- `ReadHTTPStatus`: the status, the protocol and the rest of the stream.
  unfoldable pub read_status : Bytes → ℤ → ℤ × ℤ × Bytes
  unfolding status_words
  read_status stream proto =
      let (line, rest) = getline stream in
      let (status, proto') = status_words line (split line) proto in (status, proto', rest)

  -- What a line adds to the map and `nLen`: nothing where it has no colon.
  unfoldable pub store_header : Option (Bytes × Bytes) → Dict Bytes × ℤ → Dict Bytes × ℤ
  store_header none acc = acc
  store_header (some (k, v)) (headers, len) = (
    assign (to_lower (trim k)) (trim v) headers,
    (if eq_bytes (to_lower (trim k)) (codes "content-length") then c_atoi (trim v) else len),
  )

  -- One header line: the map and `nLen` after it.
  unfoldable pub read_header : Bytes → Dict Bytes × ℤ → Dict Bytes × ℤ
  unfolding store_header
  read_header line acc = store_header (split_colon line) acc

  -- `while (true)` of `ReadHTTPHeaders`; `none` means that the fuel ran out.
  unfoldable pub read_headers_loop : ℕ → Bytes → Dict Bytes × ℤ → Option (Dict Bytes × ℤ × Bytes)
  unfolding read_header
  read_headers_loop zero stream acc = none
  read_headers_loop (suc fuel) stream acc =
      let (line, rest) = getline stream in
      let more = read_headers_loop fuel rest (read_header line acc) in
      if is_blank line then some (acc.0, acc.1, rest) else more

  -- Each round takes a byte at least, or ends the loop.
  unfoldable pub read_headers : Bytes → Dict Bytes → Option (Dict Bytes × ℤ × Bytes)
  unfolding read_headers_loop
  read_headers stream headers = read_headers_loop (suc (length stream)) stream (headers, pos 0)

  -- The "connection" entry that `ReadHTTPMessage` leaves.
  unfoldable pub settle_connection : Dict Bytes → ℤ → Dict Bytes
  settle_connection headers proto =
      let (con, headers') = get_or_add (codes "connection") headers in
      if not (eq_bytes con (codes "close")) && not (eq_bytes con (codes "keep-alive"))
      then (if leb_ℤ (pos 1) proto
          then assign (codes "connection") (codes "keep-alive") headers'
          else assign (codes "connection") (codes "close") headers')
      else headers'

  -- What follows the headers.
  unfoldable pub read_body : ℤ → Dict Bytes × ℤ × Bytes → Message
  unfolding settle_connection
  read_body proto (headers, len, stream) =
      if ltb_ℤ len (pos 0) || ltb_ℤ max_size len
      then record { status = pos 500; headers = headers; message = []; rest = stream }
      else record {
        status = pos 200;
        headers = settle_connection headers proto;
        message = (read_exactly (pos_part len) stream).0;
        rest = (read_exactly (pos_part len) stream).1;
      }

  unfoldable pub finish_message : ℤ → Option (Dict Bytes × ℤ × Bytes) → Option Message
  unfolding read_body
  finish_message proto none = none
  finish_message proto (some r) = some (read_body proto r)

  -- `ReadHTTPMessage`, which clears the map first.
  unfoldable pub read_message : Bytes → ℤ → Option Message
  unfolding read_headers finish_message
  read_message stream proto = finish_message proto (read_headers stream [])
