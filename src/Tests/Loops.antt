-- ===== src/Tests/Loops.antt =====
-- The loops of server.go at work.
use go9p.Base.{◌≤◌, [], ◌∷◌, ◌++◌, ◌≡◌, refl, arith}
use go9p.Proto.Marshal.{le_bytes}
use go9p.Proto.Marshal.Parser.{read_error}
use go9p.Proto.Header.Types.{tflush_type, rflush_type}
use go9p.Proto.Reader.{Reader}
use go9p.Proto.Call.{FCall, get_tag, header_of, tflush, rflush, twalk}
use go9p.Proto.Call.Layout.{IsFCall, wire, compose-wire}
use go9p.Serve.{handle_call, handled, finish, dispatch, answer}
use go9p.Serve.Loop.{
  Encoded, no_calls, one_more, all_handled, with_answer, handle_io, keep_all, parse_failed,
  handle_io-Handled,
}
use go9p.Serve.Tagged.{AnswersTag}
use go9p.Serve.Async.{
  Pipeline, new_pipeline, admit, Served, started, moved, queue, tagged, written-parsed,
}
use go9p.Fs.Server.{server, take_context, release_context}
use go9p.Fs.Server.Conn.{State, tag_context, drop_context, store, new_conn}
use go9p.Fs.Server.Tagged.{server-Tagging, handle_call-tag}
use go9p.Client.{done, replied, return_tag, delete_call, get_response}
use go9p.Client.Session.{fresh_client}
use go9p.Client.Wire.{wire_to, Fits, get_response-handle_call}
use go9p.Tests.Tree.{Place, places, fs, attached, to_notes}

handle_call-tag_example : AnswersTag 3 (handle_call (server places fs) (twalk to_notes) attached).0
unfolding get_tag header_of
handle_call-tag_example = handle_call-tag places fs (twalk to_notes) attached

abbrev flush : FCall
flush = tflush (record { header = record { type = tflush_type; tag = 5 }; oldtag = 3 })

abbrev flushed : FCall
flushed = rflush (record { header = record { type = rflush_type; tag = 5 } })

abbrev after_flush : State (Unit {0}) Place
after_flush = (handle_call (server places fs) flush attached).1

flush-IsFCall : IsFCall flush
flush-IsFCall = ((refl, omega arith), record { oldtag = omega arith })

flushed-IsFCall : IsFCall flushed
flushed-IsFCall = (refl, omega arith)

flush_handled : handle_call (server places fs) flush attached ≡ (answer flushed, after_flush)
unfolding handle_call handled finish dispatch take_context release_context get_tag header_of
    tag_context drop_context store new_conn
flush_handled = refl

flush-Encoded : Encoded (flush ∷ []) (wire flush ++ [])
unfolding le_bytes
flush-Encoded =
    one_more flush (wire flush) [] [] flush-IsFCall (compose-wire flush flush-IsFCall) (omega arith)
      no_calls

-- The call in two chunks.
abbrev flush_chunks : Reader
flush_chunks = (9 ∷ 0 ∷ []) ∷ ((0 ∷ 0 ∷ 108 ∷ 5 ∷ 0 ∷ 3 ∷ 0 ∷ []) ∷ [])

handle_io-Handled_example :
    handle_io (server places fs) keep_all 2 flush_chunks attached []
    ≡ (parse_failed read_error, after_flush, wire flushed ++ [])
unfolding le_bytes header_of
handle_io-Handled_example =
    handle_io-Handled (server places fs) 2 (flush ∷ []) (wire flush ++ []) (wire flushed ++ []) []
      flush_chunks attached after_flush (omega arith) flush-Encoded
      (with_answer flush [] flushed (wire flushed) [] attached after_flush after_flush flush_handled
        (compose-wire flushed flushed-IsFCall) (all_handled after_flush))
      refl

abbrev begun : Pipeline (State (Unit {0}) Place)
begun = new_pipeline attached

abbrev queued : Pipeline (State (Unit {0}) Place)
queued = record begun { parsed = flush ∷ begun.parsed; incoming = begun.incoming ++ (flush ∷ []) }

begun-Served : Served (server places fs) [] attached queued
unfolding new_pipeline admit
begun-Served = moved begun queued started (queue begun flush flush refl refl (omega arith))

written-parsed_example : tagged 5 queued.written ≤ tagged 5 queued.parsed
written-parsed_example =
    written-parsed (server places fs) [] (server-Tagging places fs) attached queued 5 begun-Served

flush-Fits : Fits flush
unfolding le_bytes
flush-Fits = record {
  valid = flush-IsFCall;
  on_wire = wire flush;
  composed = compose-wire flush flush-IsFCall;
  short = omega arith;
}

flushed-Fits : Fits flushed
unfolding le_bytes
flushed-Fits = record {
  valid = flushed-IsFCall;
  on_wire = wire flushed;
  composed = compose-wire flushed flushed-IsFCall;
  short = omega arith;
}

get_response-handle_call_example :
    get_response
      (wire_to (server places fs))
      flush
      (record { client = fresh_client; peer = attached })
    ≡ (
      done (replied flushed),
      record {
        client = return_tag (get_tag flush) (record fresh_client {
          calls = get_tag flush ∷ delete_call fresh_client.calls (get_tag flush);
        });
        peer = after_flush;
      },
    )
get_response-handle_call_example =
    get_response-handle_call (server places fs) flush flushed fresh_client attached after_flush
      (server-Tagging places fs) flush-Fits flushed-Fits flush_handled
