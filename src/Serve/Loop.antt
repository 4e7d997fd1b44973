-- ===== src/Serve/Loop.antt =====
-- handleIO of server.go: calls from a stream, answers to a writer.
use go9p.Base.{
  ℕ, zero, suc, ◌≤◌, ◌<◌, List, [], ◌∷◌, ◌++◌, length, Option, none, some, Bool, true, false, ◌≡◌,
  sym, ap, ◌∙◌, arith, append_assoc, append-nil,
}
use mathlib.Core.Path.{subst}
use go9p.Proto.Marshal.Parser.{ParseError, read_error, ok, err, panic}
use go9p.Proto.Marshal.Parser as Parser
use go9p.Proto.Header.Types.{max_msg_len}
use go9p.Proto.Reader.{Reader, stream}
use go9p.Proto.Call.{FCall, compose}
use go9p.Proto.Call.Layout.{IsFCall}
use go9p.Proto.Call.Parse.{parse_call}
use go9p.Proto.Call.Parse.RoundTrip.{parse_call-compose, parse_call-end}
use go9p.Serve.{Srv, Answer, answer, no_answer, failed, crashed, handle_call}

-- How the loop ends.
pub data Ended : Type 0 where
  parse_failed : ParseError → Ended
  call_failed : Ended
  write_failed : Ended
  -- a panic of ParseCall, of a handler or of Compose
  went_down : Ended
  -- the fuel is used up
  unfinished : Ended

-- `write bs o` is the writer's Write: whether it succeeds, and the writer after it.
module _ {S O : Type 0} (srv : Srv S) (write : List ℕ → O → Bool × O) where
  sent : (S → O → Ended × S × O) → S → Bool × O → Ended × S × O
  sent next s (true, o) = next s o
  sent next s (false, o) = (write_failed, s, o)

  composed : (S → O → Ended × S × O) → S → O → Option (List ℕ) → Ended × S × O
  unfolding sent
  composed next s o none = (went_down, s, o)
  composed next s o (some bs) = sent next s (write bs o)

  answered : (S → O → Ended × S × O) → O → Answer × S → Ended × S × O
  unfolding composed
  answered next o (answer f, s) = composed next s o (compose f)
  answered next o (no_answer, s) = next s o
  answered next o (failed, s) = (call_failed, s, o)
  answered next o (crashed, s) = (went_down, s, o)

  turn : (Reader → S → O → Ended × S × O) → S → O → Parser.Outcome (FCall × Reader) → Ended × S × O
  unfolding answered
  turn next s o (ok (f, r)) = answered (next r) o (handle_call srv f s)
  turn next s o (err e) = (parse_failed e, s, o)
  turn next s o panic = (went_down, s, o)

  -- `s` is the state of the connection that NewConn makes, and of all behind it.
  unfoldable pub handle_io : ℕ → Reader → S → O → Ended × S × O
  unfolding turn
  handle_io zero r s o = (unfinished, s, o)
  handle_io (suc fuel) r s o = turn (handle_io fuel) s o (parse_call r)

-- Calls as they stand on the stream.
pub data Encoded : List FCall → List ℕ → Type 0 where
  no_calls : Encoded [] []
  one_more :
      (f : FCall) (bs : List ℕ) (fs : List FCall) (more : List ℕ)
      → IsFCall f
      → compose f ≡ some bs
      → length bs ≤ max_msg_len
      → Encoded fs more
      → Encoded (f ∷ fs) (bs ++ more)

-- The calls are handled one after the other, each in the state that the one before it left: what
-- Compose makes of the answers, in order, and the state in the end. A call whose tag was cancelled
-- has no answer.
pub data Handled {S : Type 0} (srv : Srv S) : List FCall → S → List ℕ → S → Type 0 where
  all_handled : (s : S) → Handled srv [] s [] s
  with_answer :
      (f : FCall) (fs : List FCall) (a : FCall) (bs more : List ℕ) (s s' s'' : S)
      → handle_call srv f s ≡ (answer a, s')
      → compose a ≡ some bs
      → Handled srv fs s' more s''
      → Handled srv (f ∷ fs) s (bs ++ more) s''
  without_answer :
      (f : FCall) (fs : List FCall) (more : List ℕ) (s s' s'' : S)
      → handle_call srv f s ≡ (no_answer, s')
      → Handled srv fs s' more s''
      → Handled srv (f ∷ fs) s more s''

-- A writer that takes everything and keeps it.
abbrev pub keep_all : List ℕ → List ℕ → Bool × List ℕ
keep_all bs o = (true, o ++ bs)

module _ {S : Type 0} (srv : Srv S) where
  -- From a stream of encoded calls, cut into chunks in any way, handleIO answers them in their order:
  -- if handling them one after the other gives these answers and this state, then it writes the
  -- encoded answers and nothing else, is left in that state, and ends at the end of the stream with
  -- the reader's error. One turn more than there are calls is enough. The writer takes every write.
  pub handle_io-Handled :
      (fuel : ℕ) (fs : List FCall) (input output o : List ℕ) (r : Reader) (s s' : S)
      → length fs < fuel
      → Encoded fs input
      → Handled srv fs s output s'
      → stream r ≡ input
      → handle_io srv keep_all fuel r s o ≡ (parse_failed read_error, s', o ++ output)
  unfolding handle_io
  handle_io-Handled zero fs input output o r s s' h e c i = absurd (omega arith)
  handle_io-Handled (suc fuel) _ _ _ o r s _ h no_calls (all_handled _) i =
      ap (turn srv keep_all (handle_io srv keep_all fuel) s o)
        (parse_call-end r (subst (λ t. length t < 4) (sym i) (omega arith)))
      ∙ ap (λ t. (parse_failed read_error, s, t)) (sym (append-nil o))
  handle_io-Handled (suc fuel) _ _ _ o r s s'' h (one_more f bs fs input v c n e)
        (with_answer _ _ a reply output _ s' _ called put rest) i =
      let (r', parsed, left) = parse_call-compose f bs input r v c n i in
      ap (turn srv keep_all (handle_io srv keep_all fuel) s o) parsed
      ∙ ap (answered srv keep_all (handle_io srv keep_all fuel r') o) called
      ∙ ap (composed srv keep_all (handle_io srv keep_all fuel r') s' o) put
      ∙ handle_io-Handled fuel fs input output (o ++ reply) r' s' s'' (omega arith) e rest left
      ∙ ap (λ t. (parse_failed read_error, s'', t)) (append_assoc o reply output)
  handle_io-Handled (suc fuel) _ _ _ o r s s'' h (one_more f bs fs input v c n e)
        (without_answer _ _ output _ s' _ called rest) i =
      let (r', parsed, left) = parse_call-compose f bs input r v c n i in
      ap (turn srv keep_all (handle_io srv keep_all fuel) s o) parsed
      ∙ ap (answered srv keep_all (handle_io srv keep_all fuel r') o) called
      ∙ handle_io-Handled fuel fs input output o r' s' s'' (omega arith) e rest left
