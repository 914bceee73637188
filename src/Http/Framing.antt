-- ===== src/Http/Framing.antt =====
-- `ReadHTTPMessage` returns for every stream, and gives back the body that a header announces.
use fidinventor.Base.{
  ℕ, zero, suc, ◌≤◌, ◌<◌, ◌≡◌, refl, ap, ◌∙◌, false, some, [], ◌∷◌, ◌++◌, arith, All, length, ℤ,
  pos, ltb_ℤ, ◌||◌, Bool-cases, inl, inr,
}
use fidinventor.Base.Text.{Bytes}
use fidinventor.Base.Dict.{Dict}
use fidinventor.Base.Boost.{StringAlgo}
use fidinventor.Http.Stream.{getline, read_exactly}
use fidinventor.Http.Write.{crlf, header_lines}
use fidinventor.Http.Read.{
  is_blank, read_headers_loop, read_body, finish_message, read_message, settle_connection, Message,
  max_size,
}
use fidinventor.Http.Lines.{IsHeader, note_headers, read-header_lines, length-header_lines}

getline_shorter : (s : Bytes) → length (getline s).1 ≤ length s
unfolding getline
getline_shorter [] = omega arith
getline_shorter (c ∷ s) = ground (arith, getline_shorter s)

-- A line that is not blank takes bytes off the stream.
getline_shrinks : (s : Bytes) → is_blank (getline s).0 ≡ false → length (getline s).1 < length s
unfolding getline
getline_shrinks [] h = absurd (ground arith)
getline_shrinks (c ∷ s) h = ground (arith, getline_shorter s)

read_exactly-append : (s rest : Bytes) → read_exactly (length s) (s ++ rest) ≡ (s, rest)
unfolding read_exactly
read_exactly-append [] rest = refl
read_exactly-append (c ∷ s) rest = rw (read_exactly-append s rest)

too_long : (n : ℕ) → n ≤ 1000000 → (ltb_ℤ (pos n) (pos 0) || ltb_ℤ max_size (pos n)) ≡ false
too_long n h = ground arith

module _ (algo : StringAlgo) where
  read_headers_loop_total :
      (fuel : ℕ) (stream : Bytes) (acc : Dict Bytes × ℤ)
      → length stream < fuel
      → (r : Dict Bytes × ℤ × Bytes) × (read_headers_loop algo fuel stream acc ≡ some r)
  unfolding read_headers_loop
  read_headers_loop_total zero stream acc h = absurd (omega arith)
  read_headers_loop_total (suc fuel) stream acc h =
      elim (Bool-cases (is_blank (getline stream).0)) [
        | inl e ↦ ((acc.0, acc.1, (getline stream).1), rw e)
        | inr e ↦ rw e (
            read_headers_loop_total fuel (getline stream).1 _
              (omega (arith, getline_shrinks stream e)))
      ]

  -- Reading a message ends on every stream, whatever the bytes are: the fuel of the header loop
  -- does not run out.
  pub read_message_total :
      (stream : Bytes) (proto : ℤ) → (m : Message) × (read_message algo stream proto ≡ some m)
  unfolding read_message
  read_message_total stream proto =
      let (r, e) = read_headers_loop_total (suc (length stream)) stream ([], pos 0) (omega arith) in
      (read_body algo proto r, ap (finish_message algo proto) e)

  body_read :
      (headers : Dict Bytes) (msg rest : Bytes) (proto : ℤ)
      → length msg ≤ 1000000
      → read_body algo proto (headers, pos (length msg), msg ++ rest) ≡ record {
        status = pos 200;
        headers = settle_connection algo headers proto;
        message = msg;
        rest = rest;
      }
  unfolding read_body
  body_read headers msg rest proto fits =
      rw (too_long (length msg) fits, read_exactly-append msg rest)

  -- Header lines, a blank line and a body of the announced length, at most `MAX_SIZE` bytes: the
  -- message is the body, and the stream is left at the first byte behind it.
  pub read_message-header_lines :
      (hs : Dict Bytes) (msg rest : Bytes) (proto : ℤ)
      → All IsHeader hs
      → (note_headers algo hs ([], pos 0)).1 ≡ pos (length msg)
      → length msg ≤ 1000000
      → read_message algo (header_lines hs (crlf ++ (msg ++ rest))) proto
        ≡ some (record {
          status = pos 200;
          headers = settle_connection algo (note_headers algo hs ([], pos 0)).0 proto;
          message = msg;
          rest = rest;
        })
  unfolding read_message finish_message
  read_message-header_lines hs msg rest proto h len fits =
      let e =
        read-header_lines algo hs (suc (length (header_lines hs (crlf ++ (msg ++ rest)))))
          (msg ++ rest) ([], pos 0) h
          (omega (arith, length-header_lines hs (crlf ++ (msg ++ rest)))) in
      ap (finish_message algo proto) (rw len at e)
      ∙ ap some (body_read (note_headers algo hs ([], pos 0)).0 msg rest proto fits)
