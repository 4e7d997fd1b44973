-- ===== src/Proto/Call/Parse/RoundTrip.antt =====
-- ParseCall after Compose.
use go9p.Base.{
  ℕ, ◌+◌, ◌-◌, ◌%◌, ◌^◌, ◌≤◌, ◌<◌, List, [], ◌∷◌, ◌++◌, length, ltb-false, some, ◌≡◌, sym, ap, ◌∙◌,
  arith, length-append, append_assoc, append-nil, some-injective,
}
use mathlib.Core.Path.{subst}
use go9p.Proto.Marshal.{le_bytes}
use go9p.Proto.Marshal.Cursor.{length-le_bytes}
use go9p.Proto.Marshal.Parser.{ok, err, read_error, from_little_e32-size}
use go9p.Proto.Header.{length-frame, Parses-header}
use go9p.Proto.Header.Types.{max_msg_len}
use go9p.Proto.Reader.{Reader, stream, read_bytes, read_exact, read_bytes_short}
use go9p.Proto.Call.{FCall, header_of, compose}
use go9p.Proto.Call.Layout.{IsFCall, body_of, wire, compose-wire}
use go9p.Proto.Call.Parse.{
  with_header, parsed, with_buffer, with_reader, with_size, parse_message, parse_buffer,
  read_message, parse_call,
}
use go9p.Proto.Call.Parse.Framing.{Parses-message, IsFCall-tag}

-- What stands behind the size field.
abbrev payload : FCall → List ℕ
payload f = ((header_of f).type ∷ []) ++ (le_bytes 2 (header_of f).tag ++ body_of f)

parse_buffer-payload : (f : FCall) → IsFCall f → parse_buffer (payload f) ≡ ok f
unfolding parse_buffer
parse_buffer-payload f v =
    ap with_header ((Parses-header (header_of f) (IsFCall-tag f v)).at (body_of f))
    ∙ ap parsed (
        subst (λ b. parse_message (header_of f).type (header_of f) b ≡ ok (f, []))
          (append-nil (body_of f)) ((Parses-message f v).at []))

length-payload : (f : FCall) → length (payload f) ≡ 3 + length (body_of f)
length-payload f = omega (
  arith,
  length-append (le_bytes 2 (header_of f).tag) (body_of f),
  length-le_bytes 2 (header_of f).tag,
)

length-wire : (f : FCall) → length (wire f) ≡ 7 + length (body_of f)
length-wire f = length-frame (header_of f) (body_of f)

payload_size : (n p : ℕ) → p ≡ 3 + n → 7 + n ≤ max_msg_len → (7 + n + 2 ^ 32 - 4) % 2 ^ 32 ≡ p
payload_size n p e h = omega arith

read_message-payload :
    (f : FCall) (more : List ℕ) (r : Reader)
    → IsFCall f
    → length (wire f) ≤ max_msg_len
    → stream r ≡ payload f ++ more
    → (r' : Reader) × (read_message (7 + length (body_of f)) r ≡ ok (f, r')) × (stream r' ≡ more)
unfolding read_message
read_message-payload f more r v h e =
    let (r', got, left) = read_exact (payload f) more r e in
    let le : 7 + length (body_of f) ≤ max_msg_len = omega (arith, length-wire f) in
    (
      r',
      rw (ltb-false max_msg_len (7 + length (body_of f)) le, payload_size _ _ (length-payload f) le)
          (ap with_buffer got ∙ ap (with_reader r') (parse_buffer-payload f v)),
      left,
    )

-- For every message whose fields fit the wire and whose encoding is at most MaxMsgLen bytes: if a
-- connection holds the bytes that Compose returns and then any others, in whatever chunks they
-- arrive, ParseCall returns the message, and the others are still to be read.
pub parse_call-compose :
    (f : FCall) (bytes more : List ℕ) (r : Reader)
    → IsFCall f
    → compose f ≡ some bytes
    → length bytes ≤ max_msg_len
    → stream r ≡ bytes ++ more
    → (r' : Reader) × (parse_call r ≡ ok (f, r')) × (stream r' ≡ more)
unfolding parse_call
parse_call-compose f bytes more r v c h e =
    let w : bytes ≡ wire f = some-injective _ _ (sym c ∙ compose-wire f v) in
    let n : length bytes ≡ 7 + length (body_of f) = ap length w ∙ length-wire f in
    let (r₁, got, left) =
      read_exact (le_bytes 4 (7 + length (body_of f))) (payload f ++ more) r
        (e ∙ ap (λ t. t ++ more) w ∙ append_assoc _ (payload f) more) in
    let (r₂, parsed_all, rest) =
      read_message-payload f more r₁ v (omega (arith, length-wire f, n)) left in
    let four : read_bytes 4 r ≡ some (le_bytes 4 (7 + length (body_of f)), r₁) =
      subst (λ k. read_bytes k r ≡ some (le_bytes 4 (7 + length (body_of f)), r₁))
        (length-le_bytes 4 _) got in
    (
      r₂,
      ap with_size four
          ∙ rw (from_little_e32-size (7 + length (body_of f)) (omega (arith, n))) parsed_all,
      rest,
    )

-- At the end of the stream, ParseCall returns the reader's error.
pub parse_call-end : (r : Reader) → length (stream r) < 4 → parse_call r ≡ err read_error
unfolding parse_call
parse_call-end r h = ap with_size (read_bytes_short 4 r h)
