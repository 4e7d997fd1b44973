-- ===== src/Tests/Codec.antt =====
-- Messages on the wire.
use go9p.Base.{ℕ, List, [], ◌∷◌, ◌++◌, some, bytes, ◌≡◌, refl, arith, take, drop}
use go9p.Base.{◌-◌, ◌^◌}
use go9p.Proto.Marshal.{le_bytes}
use go9p.Proto.Marshal.Cursor.{make_buffer, to_little_e32, to_byte, to_little_e16, to_string}
use go9p.Proto.Header.{to_header}
use go9p.Proto.Header.Types.{tattach_type}
use go9p.Proto.Messages.Attach.{compose_tattach}
use go9p.Proto.Marshal.Parser.{ok}
use go9p.Proto.Call.{FCall, tattach, compose}
use go9p.Proto.Call.Layout.{IsFCall, wire, compose-wire}
use go9p.Proto.Call.Parse.{parse_call}
use go9p.Proto.Call.Parse.RoundTrip.{parse_call-compose}
use go9p.Proto.Reader.{Reader, stream}

abbrev attach_call : FCall
attach_call = tattach (record {
  header = record { type = tattach_type; tag = 1 };
  fid = 7;
  afid = 2 ^ 32 - 1;
  uname = bytes "kyle";
  aname = [];
})

abbrev attach_bytes : List ℕ
attach_bytes =
    23 ∷ 0 ∷ 0 ∷ 0 ∷ 104 ∷ 1 ∷ 0 ∷ 7 ∷ 0 ∷ 0 ∷ 0 ∷ 255 ∷ 255 ∷ 255 ∷ 255 ∷ 4 ∷ 0 ∷ 107 ∷ 121 ∷ 108
    ∷ 101 ∷ 0 ∷ 0 ∷ []

-- The message in two chunks, with a byte of the next one.
abbrev two_chunks : Reader
two_chunks = take 10 attach_bytes ∷ (drop 10 attach_bytes ++ (11 ∷ [])) ∷ []

attach_call-IsFCall : IsFCall attach_call
attach_call-IsFCall = (
  (refl, omega arith),
  record { fid = omega arith; afid = omega arith; uname = omega arith; aname = omega arith },
)

attach_call-bytes : compose attach_call ≡ some attach_bytes
unfolding compose compose_tattach make_buffer to_header to_little_e32 to_byte to_little_e16
    to_string le_bytes
attach_call-bytes = refl

parse_call-compose_example :
    (r' : Reader) × (parse_call two_chunks ≡ ok (attach_call, r')) × (stream r' ≡ 11 ∷ [])
parse_call-compose_example =
    parse_call-compose attach_call attach_bytes (11 ∷ []) two_chunks attach_call-IsFCall
      attach_call-bytes (omega arith) refl

compose-wire_example : compose attach_call ≡ some (wire attach_call)
compose-wire_example = compose-wire attach_call attach_call-IsFCall
