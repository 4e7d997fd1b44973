-- ===== src/Fs/Streams/Reading.antt =====
-- Read of a chanReader against the bytes that were written to it.
use go9p.Base.{
  ℕ, ◌-◌, ◌≤◌, ◌<◌, List, [], ◌∷◌, ◌++◌, length, take, drop, false, leb, if◌then◌else◌, ◌≡◌, refl,
  sym, ap, ◌∙◌, arith, Bool-cases, inl, inr, leb→le, leb_false→lt, take-append_ge, drop-append_ge,
  take-append_le, drop-append_le, append_assoc, append-nil, take-all, drop-all,
}
use mathlib.Core.Path.{subst}
use go9p.Fs.Streams.{ChanReader, Wait, returns, blocks, at_empty, pull, chan_read}

abbrev pub joined : List (List ℕ) → List ℕ
joined [] = []
joined (bs ∷ queue) = bs ++ joined queue

-- The bytes that were written to a reader and not read yet.
abbrev pub pending : ChanReader → List ℕ
pending r = r.unread ++ joined r.queue

-- Read gives `bytes`, and `more` is pending then; nothing else of the reader changes.
pub record Gives (o : Wait (List ℕ × ChanReader)) (r : ChanReader) (bytes more : List ℕ)
    : Type 0 where
  pub reader : ChanReader
  pub same : o ≡ returns (bytes, reader)
  pub left : pending reader ≡ more
  pub live : reader.live ≡ r.live
  pub size : reader.size ≡ r.size

Gives-empty : (r : ChanReader) (got : List ℕ) → 0 < length got → Gives (at_empty r got) r got []
unfolding at_empty
Gives-empty r [] h = absurd (omega arith)
Gives-empty r (b ∷ bs) h = record {
  reader = record r { unread = []; queue = [] };
  same = refl;
  left = refl;
  live = refl;
  size = refl;
}

Gives-same :
    (o : Wait (List ℕ × ChanReader)) (r : ChanReader) (bytes bytes' more more' : List ℕ)
    → bytes ≡ bytes'
    → more ≡ more'
    → Gives o r bytes more
    → Gives o r bytes' more'
Gives-same o r bytes bytes' more more' e e' g =
    subst (λ b. Gives o r b more') e (subst (λ m. Gives o r bytes m) e' g)

Gives-pull :
    (r : ChanReader) (room : ℕ) (got : List ℕ) (queue : List (List ℕ))
    → 0 < room
    → 0 < length (got ++ joined queue)
    → Gives (pull r room got queue) r (got ++ take room (joined queue)) (drop room (joined queue))
unfolding pull
Gives-pull r room got [] h k =
    Gives-same (at_empty r got) r got (got ++ take room []) [] (drop room [])
      (sym (ap (λ t. got ++ t) (take-all room [] (omega arith)) ∙ append-nil got))
      (sym (drop-all room [] (omega arith)))
      (Gives-empty r got (subst (λ t. 0 < length t) (append-nil got) k))
Gives-pull r room got (bs ∷ queue) h k = elim (Bool-cases (leb room (length bs))) [
  | inl e ↦
      let le : room ≤ length bs = leb→le room (length bs) e in
      rw e (record {
        reader = record r { unread = drop room bs; queue = queue };
        same =
            ap (λ t. returns (got ++ t, record r { unread = drop room bs; queue = queue }))
              (sym (take-append_le room bs (joined queue) le));
        left = sym (drop-append_le room bs (joined queue) le);
        live = refl;
        size = refl;
      })
  | inr e ↦
      let lt : length bs < room = leb_false→lt room (length bs) e in
      rw e (
        Gives-same (pull r (room - length bs) (got ++ bs) queue) r
          ((got ++ bs) ++ take (room - length bs) (joined queue))
          (got ++ take room (bs ++ joined queue)) (drop (room - length bs) (joined queue))
          (drop room (bs ++ joined queue))
          (append_assoc got bs (take (room - length bs) (joined queue))
            ∙ ap (λ t. got ++ t) (sym (take-append_ge room bs (joined queue) (omega arith))))
          (sym (drop-append_ge room bs (joined queue) (omega arith)))
          (Gives-pull r (room - length bs) (got ++ bs) queue (omega arith)
            (subst (λ t. 0 < length t) (sym (append_assoc got bs (joined queue))) k)))
]

-- A Read with room for a byte, on a reader that has bytes pending, does not wait: it gives as many
-- of them as there is room for, in the order they were written, over the ends of the single writes,
-- and leaves the others pending.
pub chan_read-pending :
    (room : ℕ) (r : ChanReader)
    → 0 < room
    → 0 < length (pending r)
    → Gives (chan_read room r) r (take room (pending r)) (drop room (pending r))
unfolding chan_read
chan_read-pending room r h k = elim (Bool-cases (leb room (length r.unread))) [
  | inl e ↦
      let le : room ≤ length r.unread = leb→le room (length r.unread) e in
      rw e (record {
        reader = record r { unread = drop room r.unread };
        same =
            ap (λ t. returns (t, record r { unread = drop room r.unread }))
              (sym (take-append_le room r.unread (joined r.queue) le));
        left = sym (drop-append_le room r.unread (joined r.queue) le);
        live = refl;
        size = refl;
      })
  | inr e ↦
      let lt : length r.unread < room = leb_false→lt room (length r.unread) e in
      rw e (
        Gives-same (pull r (room - length r.unread) r.unread r.queue) r
          (r.unread ++ take (room - length r.unread) (joined r.queue)) (take room (pending r))
          (drop (room - length r.unread) (joined r.queue)) (drop room (pending r))
          (sym (take-append_ge room r.unread (joined r.queue) (omega arith)))
          (sym (drop-append_ge room r.unread (joined r.queue) (omega arith)))
          (Gives-pull r (room - length r.unread) r.unread r.queue (omega arith) k))
]

leb-zero : (room : ℕ) → 0 < room → leb room 0 ≡ false
leb-zero room h = ground arith

pull-nothing :
    (r : ChanReader) (room : ℕ) (queue : List (List ℕ))
    → 0 < room
    → joined queue ≡ []
    → pull r room [] queue ≡ at_empty r []
unfolding pull
pull-nothing r room [] h e = refl
pull-nothing r room ([] ∷ queue) h e =
    let z : room - 0 ≡ room = omega arith in
    rw (leb-zero room h) (ap (λ n. pull r n [] queue) z ∙ pull-nothing r room queue h e)
pull-nothing r room ((b ∷ bs) ∷ queue) h e = cc

chan_read-pull :
    (room : ℕ) (r : ChanReader)
    → 0 < room
    → r.unread ≡ []
    → joined r.queue ≡ []
    → chan_read room r ≡ at_empty r []
unfolding chan_read
chan_read-pull room r h e q =
    let z : room - 0 ≡ room = omega arith in
    rw (e, leb-zero room h) (ap (λ n. pull r n [] r.queue) z ∙ pull-nothing r room r.queue h q)

unread-nothing : (unread rest : List ℕ) → unread ++ rest ≡ [] → (unread ≡ []) × (rest ≡ [])
unread-nothing [] rest e = (refl, e)
unread-nothing (b ∷ bs) rest e = cc

-- A Read of a reader with nothing pending waits while the reader is live, and gives no bytes, which
-- is the end of a file in 9P, when it is closed.
pub chan_read-nothing :
    (room : ℕ) (r : ChanReader)
    → 0 < room
    → pending r ≡ []
    → chan_read room r
      ≡ (if r.live then blocks else returns ([], record r { unread = []; queue = [] }))
unfolding at_empty
chan_read-nothing room r h e =
    let (u, q) = unread-nothing r.unread (joined r.queue) e in chan_read-pull room r h u q
