-- ===== src/Http/Lines.antt =====
-- Reading header lines that were written by `header_lines`.
use fidinventor.Base.{
  ℕ, zero, suc, ◌+◌, ◌≤◌, ◌<◌, ◌≡◌, ◌≢◌, refl, false, some, [], ◌∷◌, ◌++◌, append_assoc, arith, All,
  All-append, length, length-append, if◌then◌else◌, ℤ,
}
use fidinventor.Base.Text.{Bytes, codes, eq_bytes, c_atoi}
use fidinventor.Base.Dict.{Dict, assign}
use fidinventor.Base.Boost.{StringAlgo, Lacks, StartsBare, EndsBare}
use fidinventor.Http.Stream.{getline, split_colon}
use fidinventor.Http.Write.{crlf, header_lines}
use fidinventor.Http.Read.{is_blank, read_header, read_headers_loop}

pub getline-append : (s rest : Bytes) → Lacks 10 s → getline (s ++ 10 ∷ rest) ≡ (s, rest)
unfolding getline
getline-append [] rest h = refl
getline-append (c ∷ s) rest (hc, hs) = ground (arith, getline-append s rest hs)

pub getline-crlf :
    (s rest : Bytes) → Lacks 10 s → getline (s ++ (crlf ++ rest)) ≡ (s ++ 13 ∷ [], rest)
getline-crlf s rest h =
    rw (← append_assoc s (13 ∷ []) (10 ∷ rest))
      (getline-append (s ++ 13 ∷ []) rest (All-append (λ b. b ≢ 10) s (13 ∷ []) h (omega arith)))

pub split_colon-append :
    (k rest : Bytes) → Lacks b':' k → split_colon (k ++ b':' ∷ rest) ≡ some (k, rest)
unfolding split_colon
split_colon-append [] rest h = refl
split_colon-append (c ∷ k) rest (hc, hk) = ground (arith, split_colon-append k rest hk)

-- A header that survives being written as a line: no line feed, no colon in the key, and no white
-- space at the ends.
pub record IsHeader (h : Bytes × Bytes) : Type 0 where
  pub key_line : Lacks 10 h.0
  pub key_colon : Lacks b':' h.0
  pub key_starts : StartsBare h.0
  pub key_ends : EndsBare h.0
  pub value_line : Lacks 10 h.1
  pub value_starts : StartsBare h.1
  pub value_ends : EndsBare h.1

pub header_lines-append :
    (a b : Dict Bytes) (rest : Bytes)
    → header_lines a (header_lines b rest) ≡ header_lines (a ++ b) rest
unfolding header_lines
header_lines-append [] b rest = refl
header_lines-append ((k, v) ∷ a) b rest = rw (header_lines-append a b rest)

pub header_lines-rest :
    (a : Dict Bytes) (r rest : Bytes) → header_lines a r ++ rest ≡ header_lines a (r ++ rest)
unfolding header_lines
header_lines-rest [] r rest = refl
header_lines-rest ((k, v) ∷ a) r rest = simp (append_assoc, header_lines-rest a r rest)

pub length-header_lines :
    (a : Dict Bytes) (rest : Bytes) → length a + length rest ≤ length (header_lines a rest)
unfolding header_lines
length-header_lines [] rest = omega arith
length-header_lines ((k, v) ∷ a) rest = omega (
  arith,
  length-header_lines a rest,
  length-append k (codes ": " ++ (v ++ (crlf ++ header_lines a rest))),
  length-append v (crlf ++ header_lines a rest),
)

not_blank : (k s : Bytes) → is_blank (k ++ (codes ": " ++ s)) ≡ false
not_blank [] s = refl
not_blank (c ∷ []) s = refl
not_blank (c ∷ d ∷ k) s = refl

getline_header :
    (k v rest : Bytes)
    → IsHeader (k, v)
    → getline (k ++ (codes ": " ++ (v ++ (crlf ++ rest))))
      ≡ (k ++ (codes ": " ++ (v ++ 13 ∷ [])), rest)
getline_header k v rest h =
    let line : Bytes = k ++ (codes ": " ++ v) in
    let clean =
      All-append (λ b. b ≢ 10) k (codes ": " ++ v) h.key_line
        (omega arith, (omega arith, h.value_line)) in
    let e = getline-crlf line rest clean in
    rw (append_assoc k (codes ": " ++ v) (crlf ++ rest), append_assoc k (codes ": " ++ v) (13 ∷ []))
      at e

module _ (algo : StringAlgo) where
  open algo use {trim, to_lower, trim-bare, trim-front, trim-back}

  -- The map and `nLen` after one header.
  pub note_header : Bytes × Bytes → Dict Bytes × ℤ → Dict Bytes × ℤ
  note_header (k, v) (headers, len) = (
    assign (to_lower k) v headers,
    (if eq_bytes (to_lower k) (codes "content-length") then c_atoi v else len),
  )

  -- After a list of headers, in their order.
  unfoldable pub note_headers : Dict Bytes → Dict Bytes × ℤ → Dict Bytes × ℤ
  unfolding note_header
  note_headers [] acc = acc
  note_headers (h ∷ hs) acc = note_headers hs (note_header h acc)

  read_header_line :
      (k v : Bytes) (acc : Dict Bytes × ℤ)
      → IsHeader (k, v)
      → read_header algo (k ++ (codes ": " ++ (v ++ 13 ∷ []))) acc ≡ note_header (k, v) acc
  unfolding read_header note_header
  read_header_line k v (headers, len) h = rw (
    split_colon-append k (b' ' ∷ (v ++ 13 ∷ [])) h.key_colon,
    trim-bare k h.key_starts h.key_ends,
    trim-front b' ' (v ++ 13 ∷ []) refl,
    trim-back v 13 refl,
    trim-bare v h.value_starts h.value_ends,
  )

  -- A written header line makes one round of the reader.
  read_headers_loop-cons :
      (fuel : ℕ) (k v rest : Bytes) (acc : Dict Bytes × ℤ)
      → IsHeader (k, v)
      → read_headers_loop algo (suc fuel) (k ++ (codes ": " ++ (v ++ (crlf ++ rest)))) acc
        ≡ read_headers_loop algo fuel rest (note_header (k, v) acc)
  unfolding read_headers_loop
  read_headers_loop-cons fuel k v rest acc h =
      rw (getline_header k v rest h, not_blank k (v ++ 13 ∷ []), read_header_line k v acc h)

  blank_line :
      (fuel : ℕ) (rest : Bytes) (acc : Dict Bytes × ℤ)
      → read_headers_loop algo (suc fuel) (crlf ++ rest) acc ≡ some (acc.0, acc.1, rest)
  unfolding read_headers_loop getline
  blank_line fuel rest acc = refl

  -- The reader takes the header lines in order and stops behind the blank line.
  pub read-header_lines :
      (hs : Dict Bytes) (fuel : ℕ) (rest : Bytes) (acc : Dict Bytes × ℤ)
      → All IsHeader hs
      → length hs < fuel
      → read_headers_loop algo fuel (header_lines hs (crlf ++ rest)) acc
        ≡ some ((note_headers hs acc).0, (note_headers hs acc).1, rest)
  unfolding header_lines note_headers
  read-header_lines hs zero rest acc h lt = absurd (omega arith)
  read-header_lines [] (suc fuel) rest acc h lt = blank_line fuel rest acc
  read-header_lines ((k, v) ∷ hs) (suc fuel) rest acc (h, h') lt = rw (
    read_headers_loop-cons fuel k v (header_lines hs (crlf ++ rest)) acc h,
    read-header_lines hs fuel rest (note_header (k, v) acc) h' (omega arith),
  )
