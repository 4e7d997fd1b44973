-- ===== src/Fs/Streams/Delivery.antt =====
-- fs/streams.go: what a round of BlockingStream.tryWrite delivers to each reader.
pub mod Dropping
pub mod Rounds
pub mod Blocking
use go9p.Base.{
  ℕ, List, [], ◌∷◌, Bool, true, false, not, ◌&&◌, ◌==◌, if◌then◌else◌, ◌≡◌, refl, sym, ap, ◌∙◌,
  Bool-cases, inl, inr, ==→eq, ==_refl, ◌⊎◌,
}
use mathlib.Core.Path.{subst}
use go9p.Fs.Streams.{ChanReader}
use go9p.Fs.Streams.Base.{set_cell}
use go9p.Fs.Streams.Writing.{push, has_room, Round, lagging, try_write}

abbrev pub has : List ℕ → ℕ → Bool
has [] id = false
has (j ∷ js) id = let rest = has js id in if j == id then true else rest

-- No number stands twice in the list.
abbrev pub Distinct : List ℕ → Type 0
Distinct [] = Unit
Distinct (j ∷ js) = (has js j ≡ false) × Distinct js

-- What one round of tryWrite makes of a chanReader.
unfoldable pub tried : List ℕ → ChanReader → ChanReader
tried p r = if r.live && has_room r then push p r else r

pub same-or-not : (j id : ℕ) → (j ≡ id) ⊎ ((j == id) ≡ false)
same-or-not j id = elim (Bool-cases (j == id)) [ inl e ↦ inl (==→eq j id e) | inr e ↦ inr e ]

pub set_cell-same : (cells : ℕ → ChanReader) (j : ℕ) (r : ChanReader) → set_cell cells j r j ≡ r
unfolding set_cell
set_cell-same cells j r = rw (==_refl j) refl

pub set_cell-other :
    (cells : ℕ → ChanReader) (j id : ℕ) (r : ChanReader)
    → (j == id) ≡ false
    → set_cell cells j r id ≡ cells id
unfolding set_cell
set_cell-other cells j id r e = rw e refl

-- What a new cell has as the old one had, each cell has as before.
pub set_cell-as :
    {A : Type 0} (f : ChanReader → A) (cells : ℕ → ChanReader) (j id : ℕ) (r : ChanReader)
    → f r ≡ f (cells j)
    → f (set_cell cells j r id) ≡ f (cells id)
set_cell-as f cells j id r e = elim (same-or-not j id) [
  | inl same ↦
      subst (λ k. f (set_cell cells j r k) ≡ f (cells k)) same (ap f (set_cell-same cells j r) ∙ e)
  | inr other ↦ ap f (set_cell-other cells j id r other)
]

pub has-other : (j : ℕ) (js : List ℕ) (id : ℕ) → (j == id) ≡ false → has (j ∷ js) id ≡ has js id
has-other j js id e = rw e refl

has-same : (j : ℕ) (js : List ℕ) → has (j ∷ js) j ≡ true
has-same j js = rw (==_refl j) refl

lagging-cells : (full : Bool) (id : ℕ) (r : Round) → (lagging full id r).0 ≡ r.0
unfolding lagging
lagging-cells true id r = refl
lagging-cells false id r = refl

has-lagging :
    (full : Bool) (j : ℕ) (r : Round) (id : ℕ)
    → has (lagging full j r).1 id ≡ (if full && (j == id) then true else has r.1 id)
unfolding lagging
has-lagging true j r id = refl
has-lagging false j r id = refl

-- The store after the turn of one reader.
after_turn : List ℕ → ℕ → (ℕ → ChanReader) → ℕ → ChanReader
after_turn p j cells =
    if (cells j).live && has_room (cells j) then set_cell cells j (push p (cells j)) else cells

after_turn-if :
    (b : Bool) (p : List ℕ) (j : ℕ) (cells : ℕ → ChanReader)
    → (if b then set_cell cells j (push p (cells j)) else cells) j
      ≡ (if b then push p (cells j) else cells j)
after_turn-if true p j cells = set_cell-same cells j (push p (cells j))
after_turn-if false p j cells = refl

after_turn-other :
    (b : Bool) (p : List ℕ) (j id : ℕ) (cells : ℕ → ChanReader)
    → (j == id) ≡ false
    → (if b then set_cell cells j (push p (cells j)) else cells) id ≡ cells id
after_turn-other true p j id cells e = set_cell-other cells j id (push p (cells j)) e
after_turn-other false p j id cells e = refl

full : ChanReader → Bool
full r = r.live && not (has_room r)

-- What a round does to the reader `id`.
record Tried (p : List ℕ) (ids : List ℕ) (cells : ℕ → ChanReader) (id : ℕ) : Type 0 where
  cell : (try_write p ids cells).0 id ≡ (if has ids id then tried p (cells id) else cells id)
  lags : has (try_write p ids cells).1 id ≡ (has ids id && full (cells id))

and-false : (b : Bool) → (b && false) ≡ false
and-false true = refl
and-false false = refl

module _ (p : List ℕ) where
  Tried-own :
      (j : ℕ) (js : List ℕ) (cells : ℕ → ChanReader)
      → has js j ≡ false
      → Tried p js (after_turn p j cells) j
      → Tried p (j ∷ js) cells j
  unfolding try_write after_turn full tried
  Tried-own j js cells d ih =
      let b = (cells j).live && has_room (cells j) in
      let f = (cells j).live && not (has_room (cells j)) in
      let r = try_write p js (after_turn p j cells) in
      record {
        cell =
            ap (λ c. c j) (lagging-cells f j r)
            ∙ ih.cell
            ∙ rw (d, ==_refl j) (after_turn-if b p j cells);
        lags = has-lagging f j r j ∙ ih_lags f r (ih.lags ∙ rw d refl);
      }
    where
      ih_lags :
          (f : Bool) (r : Round)
          → has r.1 j ≡ false
          → (if f && (j == j) then true else has r.1 j) ≡ (has (j ∷ js) j && f)
      ih_lags true r e = rw (==_refl j) refl
      ih_lags false r e = rw (==_refl j) e

  Tried-other :
      (j : ℕ) (js : List ℕ) (cells : ℕ → ChanReader) (id : ℕ)
      → (j == id) ≡ false
      → Tried p js (after_turn p j cells) id
      → Tried p (j ∷ js) cells id
  unfolding try_write after_turn full
  Tried-other j js cells id e ih =
      let f = (cells j).live && not (has_room (cells j)) in
      let r = try_write p js (after_turn p j cells) in
      let o : after_turn p j cells id ≡ cells id =
        after_turn-other ((cells j).live && has_room (cells j)) p j id cells e in
      record {
        cell =
            ap (λ c. c id) (lagging-cells f j r)
            ∙ ih.cell
            ∙ ap (λ x. if has js id then tried p x else x) o
            ∙ ap (λ b. if b then tried p (cells id) else cells id) (sym (has-other j js id e));
        lags =
            has-lagging f j r id ∙ rw (e, and-false f) (ih.lags ∙ ap (λ x. has js id && full x) o);
      }

  Tried-all : (ids : List ℕ) (cells : ℕ → ChanReader) (id : ℕ) → Distinct ids → Tried p ids cells id
  unfolding try_write
  Tried-all [] cells id d = record { cell = refl; lags = refl }
  Tried-all (j ∷ js) cells id d = elim (same-or-not j id) [
    | inl e ↦
        subst (Tried p (j ∷ js) cells) e
          (Tried-own j js cells d.0 (Tried-all js (after_turn p j cells) j d.1))
    | inr e ↦ Tried-other j js cells id e (Tried-all js (after_turn p j cells) id d.1)
  ]

  -- One round over distinct readers sends the message once to each of them that is live and has
  -- room, and touches no other; the readers that it leaves for the next round are those that are
  -- live and full.
  try_write-tried :
      (ids : List ℕ) (cells : ℕ → ChanReader) (id : ℕ)
      → Distinct ids
      → ((try_write p ids cells).0 id ≡ (if has ids id then tried p (cells id) else cells id))
        × (has (try_write p ids cells).1 id
            ≡ (has ids id && ((cells id).live && not (has_room (cells id)))))
  unfolding full
  try_write-tried ids cells id d = let t = Tried-all ids cells id d in (t.cell, t.lags)
