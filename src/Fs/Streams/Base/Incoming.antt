-- ===== src/Fs/Streams/Base/Incoming.antt =====
-- What clients write to a stream, and what Read of the stream gives of it.
use go9p.Base.{
  ℕ, zero, suc, ◌<◌, List, [], ◌∷◌, ◌++◌, length, take, drop, ◌≡◌, refl, sym, ap, ◌∙◌, arith,
  append_assoc, take-drop,
}
use go9p.Fs.Streams.{Wait, returns}
use go9p.Fs.Streams.Reading.{joined}
use go9p.Fs.Streams.Base.{BaseStream, copied, next_message, read_left, stream_read}

-- The bytes that clients have written and Read has not given yet.
abbrev pub unread_bytes : BaseStream → List ℕ
unread_bytes s = s.left ++ joined s.incoming

-- Read gives the first of these bytes, one at least.
pub record Takes (o : Wait (List ℕ × BaseStream)) (bytes : List ℕ) : Type 0 where
  pub got : List ℕ
  pub stream : BaseStream
  pub same : o ≡ returns (got, stream)
  pub some_bytes : 0 < length got
  pub order : got ++ unread_bytes stream ≡ bytes

taken-positive : (room b : ℕ) (bs : List ℕ) → 0 < room → 0 < length (take room (b ∷ bs))
taken-positive zero b bs h = absurd (omega arith)
taken-positive (suc room) b bs h = omega arith

Takes-copied :
    (room b : ℕ) (bs : List ℕ) (s : BaseStream)
    → 0 < room
    → Takes (copied room (b ∷ bs) s) ((b ∷ bs) ++ joined s.incoming)
unfolding copied
Takes-copied room b bs s h = record {
  got = take room (b ∷ bs);
  stream = record s { left = drop room (b ∷ bs) };
  same = refl;
  some_bytes = taken-positive room b bs h;
  order =
      sym (append_assoc (take room (b ∷ bs)) (drop room (b ∷ bs)) (joined s.incoming))
      ∙ ap (λ t. t ++ joined s.incoming) (take-drop room (b ∷ bs));
}

Takes-next :
    (room : ℕ) (incoming : List (List ℕ)) (s : BaseStream)
    → 0 < room
    → 0 < length (joined incoming)
    → Takes (next_message room incoming s) (joined incoming)
unfolding next_message
Takes-next room [] s h k = absurd (omega arith)
Takes-next room ([] ∷ incoming) s h k = Takes-next room incoming s h k
Takes-next room ((b ∷ bs) ∷ incoming) s h k =
    Takes-copied room b bs (record s { incoming = incoming }) h

Takes-left :
    (room : ℕ) (left : List ℕ) (s : BaseStream)
    → 0 < room
    → 0 < length (left ++ joined s.incoming)
    → Takes (read_left room left s) (left ++ joined s.incoming)
unfolding read_left
Takes-left room [] s h k = Takes-next room s.incoming s h k
Takes-left room (b ∷ bs) s h k = Takes-copied room b bs s h

-- While bytes that clients have written are left, Read with room for a byte does not wait and does
-- not end, even on a closed stream: it gives one byte at least, the bytes come in the order of the
-- writes, each write whole before the next, and none is lost.
pub stream_read-order :
    (room : ℕ) (s : BaseStream)
    → 0 < room
    → 0 < length (unread_bytes s)
    → Takes (stream_read room s) (unread_bytes s)
unfolding stream_read
stream_read-order room s h k = Takes-left room s.left s h k
