-- ===== src/Client/Wire.antt =====
-- The client of client/client.go and a server of server.go at the two ends of a connection, one call
-- at a time.
use go9p.Base.{ℕ, ◌≤◌, List, [], ◌∷◌, length, Option, none, some, ◌≡◌, refl, ap, ◌∙◌}
use mathlib.Core.Path.{subst}
use go9p.Proto.Marshal.Parser.{ok, err, panic}
use go9p.Proto.Marshal.Parser as Parser
use go9p.Proto.Header.Types.{max_msg_len}
use go9p.Proto.Reader.{Reader}
use go9p.Proto.Call.{FCall, get_tag, compose}
use go9p.Proto.Call.Layout.{IsFCall}
use go9p.Proto.Call.Parse.{parse_call}
use go9p.Proto.Call.Parse.RoundTrip.{parse_call-compose}
use go9p.Serve.{Srv, Answer, answer, no_answer, failed, crashed, handle_call}
use go9p.Serve.Tagged.{Tagging, AnswersTag, handle_call-AnswersTag}
use go9p.Client.{
  Client, Delivery, uncomposed, received, silent, done, replied, return_tag, delete_call,
  get_response,
}
use go9p.Client.Answers.{get_response-replied}

module _ {S : Type 0} where
  -- The worker of the client, from the bytes of the answer.
  arrived : S → Parser.Outcome (FCall × Reader) → Delivery × S
  arrived s (ok (a, r)) = (received a, s)
  arrived s (err e) = (silent, s)
  arrived s panic = (silent, s)

  written : S → Option (List ℕ) → Delivery × S
  unfolding arrived
  written s none = (silent, s)
  written s (some bs) = arrived s (parse_call (bs ∷ []))

  answered : Answer × S → Delivery × S
  unfolding written
  answered (answer a, s) = written s (compose a)
  answered (no_answer, s) = (silent, s)
  answered (failed, s) = (silent, s)
  answered (crashed, s) = (silent, s)

module _ {S : Type 0} (srv : Srv S) where
  called : S → Parser.Outcome (FCall × Reader) → Delivery × S
  unfolding answered
  called s (ok (f, r)) = answered (handle_call srv f s)
  called s (err e) = (silent, s)
  called s panic = (silent, s)

  sent : S → Option (List ℕ) → Delivery × S
  unfolding called
  sent s none = (uncomposed, s)
  sent s (some bs) = called s (parse_call (bs ∷ []))

  -- A call composed by the client, parsed and handled by the server, its answer composed by the
  -- server and parsed by the client.
  unfoldable pub wire_to : FCall → S → Delivery × S
  unfolding sent
  wire_to f s = sent s (compose f)

-- What Compose makes of the message, which fits the wire.
pub record Fits (f : FCall) : Type 0 where
  pub valid : IsFCall f
  pub on_wire : List ℕ
  pub composed : compose f ≡ some on_wire
  pub short : length on_wire ≤ max_msg_len

module _ {S : Type 0} (srv : Srv S) where
  wire_to-answer :
      (f a : FCall) (s s' : S)
      → Fits f
      → Fits a
      → handle_call srv f s ≡ (answer a, s')
      → wire_to srv f s ≡ (received a, s')
  unfolding wire_to
  wire_to-answer f a s s' v u h =
      let (r, parsed, _) =
        parse_call-compose f v.on_wire [] (v.on_wire ∷ []) v.valid v.composed v.short refl in
      let (r', parsed', _) =
        parse_call-compose a u.on_wire [] (u.on_wire ∷ []) u.valid u.composed u.short refl in
      ap (sent srv s) v.composed
      ∙ ap (called srv s) parsed
      ∙ ap answered h
      ∙ ap (written s') u.composed
      ∙ ap (arrived s') parsed'

  -- Through the bytes of the wire, getResponse returns the very answer that the handler of the
  -- server gives to the call, leaves the server in the state that the handler leaves, and gives the
  -- tag of the call back. The call and the answer fit the wire, and the handlers answer with the
  -- tag of the call.
  pub get_response-handle_call :
      (f a : FCall) (c : Client) (s s' : S)
      → Tagging srv
      → Fits f
      → Fits a
      → handle_call srv f s ≡ (answer a, s')
      → get_response (wire_to srv) f (record { client = c; peer = s }) ≡ (
        done (replied a),
        record {
          client =
              return_tag
                (get_tag f)
                (record c { calls = get_tag f ∷ delete_call c.calls (get_tag f) });
          peer = s';
        },
      )
  get_response-handle_call f a c s s' g v u h =
      get_response-replied (wire_to srv) f (record { client = c; peer = s }) a s'
        (wire_to-answer f a s s' v u h)
        (subst (λ o. AnswersTag (get_tag f) o.0) h (handle_call-AnswersTag srv f s g))
