-- ===== src/Fs/Streams/Delivery/Rounds.antt =====
-- fs/streams.go: one round of BlockingStream.tryWrite, for each reader.
use go9p.Base.{
  ℕ, List, [], ◌∷◌, ◌++◌, Bool, true, false, not, ◌&&◌, if◌then◌else◌, ◌≡◌, refl, sym, ap, ◌∙◌,
  arith, ◌⊎◌, inr, append_assoc,
}
use go9p.Fs.Streams.{ChanReader}
use go9p.Fs.Streams.Writing.{push, has_room, Round, lagging, try_write}
use go9p.Fs.Streams.Delivery.{has, Distinct, tried, full, after_turn, Tried-all}

live-tried : (p : List ℕ) (r : ChanReader) → (tried p r).live ≡ r.live
unfolding tried push
live-tried p r = ground arith

pub live-round :
    (p : List ℕ) (ids : List ℕ) (cells : ℕ → ChanReader) (id : ℕ)
    → Distinct ids
    → ((try_write p ids cells).0 id).live ≡ (cells id).live
live-round p ids cells id d =
    ap (λ r. r.live) (Tried-all p ids cells id d).cell ∙ live_either (has ids id)
  where
    live_either : (b : Bool) → (if b then tried p (cells id) else cells id).live ≡ (cells id).live
    live_either true = live-tried p (cells id)
    live_either false = refl

Distinct-lagging :
    (b : Bool) (j : ℕ) (r : Round) → has r.1 j ≡ false → Distinct r.1 → Distinct (lagging b j r).1
unfolding lagging
Distinct-lagging true j r e d = (e, d)
Distinct-lagging false j r e d = d

pub Distinct-round :
    (p : List ℕ) (ids : List ℕ) (cells : ℕ → ChanReader)
    → Distinct ids
    → Distinct (try_write p ids cells).1
unfolding try_write after_turn full
Distinct-round p [] cells d = tt
Distinct-round p (j ∷ js) cells d =
    Distinct-lagging ((cells j).live && not (has_room (cells j))) j
      (try_write p js (after_turn p j cells))
      ((Tried-all p js (after_turn p j cells) j d.1).lags ∙ rw (d.0) refl)
      (Distinct-round p js (after_turn p j cells) d.1)

queue-sent :
    (p : List ℕ) (taken : List (List ℕ)) (sent : Bool) (r : ChanReader)
    → taken ++ (if sent then push p r else r).queue
      ≡ (if sent then (taken ++ r.queue) ++ (p ∷ []) else taken ++ r.queue)
unfolding push
queue-sent p taken true r = sym (append_assoc taken r.queue (p ∷ []))
queue-sent p taken false r = refl

queue-tried :
    (p : List ℕ) (taken : List (List ℕ)) (lag : Bool) (r : ChanReader)
    → taken ++ (if lag then tried p r else r).queue
      ≡ (if lag && (r.live && has_room r) then (taken ++ r.queue) ++ (p ∷ []) else taken ++ r.queue)
unfolding tried
queue-tried p taken true r = queue-sent p taken (r.live && has_room r) r
queue-tried p taken false r = refl

module _ (p : List ℕ) (ids : List ℕ) (cells : ℕ → ChanReader) (id : ℕ) (d : Distinct ids) where
  pub lags_in :
      has (try_write p ids cells).1 id
      ≡ (has ids id && ((cells id).live && not (has_room (cells id))))
  unfolding full
  lags_in = (Tried-all p ids cells id d).lags

  -- What a round does to the queue of a reader, behind anything that was taken off it before.
  pub queue-round :
      (taken : List (List ℕ))
      → taken ++ ((try_write p ids cells).0 id).queue ≡ (
          if has ids id && ((cells id).live && has_room (cells id))
          then (taken ++ (cells id).queue) ++ (p ∷ [])
          else taken ++ (cells id).queue)
  queue-round taken =
      ap (λ r. taken ++ r.queue) (Tried-all p ids cells id d).cell
      ∙ queue-tried p taken (has ids id) (cells id)

module _ (p : List ℕ) (was : List (List ℕ)) where
  pub sent-once :
      (lag live room : Bool) (n : List (List ℕ))
      → (lag && (live && not room)) ≡ false
      → live ≡ true
      → (lag ≡ true → n ≡ was)
      → (lag ≡ false → n ≡ was ++ (p ∷ []))
      → (if lag && (live && room) then n ++ (p ∷ []) else n) ≡ was ++ (p ∷ [])
  sent-once true true true n e l zero one = ap (λ q. q ++ (p ∷ [])) (zero refl)
  sent-once true true false n e l zero one = ground arith
  sent-once true false room n e l zero one = ground arith
  sent-once false live room n e l zero one = one refl

  pub sent-not :
      (lag live room : Bool) (n : List (List ℕ))
      → (lag && (live && not room)) ≡ true
      → (lag ≡ true → n ≡ was)
      → (if lag && (live && room) then n ++ (p ∷ []) else n) ≡ was
  sent-not true true true n e zero = ground arith
  sent-not true true false n e zero = zero refl
  sent-not true false room n e zero = ground arith
  sent-not false live room n e zero = ground arith

  pub sent-most :
      (lag b : Bool) (n : List (List ℕ))
      → (lag ≡ true → n ≡ was)
      → (n ≡ was) ⊎ (n ≡ was ++ (p ∷ []))
      → ((if lag && b then n ++ (p ∷ []) else n) ≡ was)
        ⊎ ((if lag && b then n ++ (p ∷ []) else n) ≡ was ++ (p ∷ []))
  sent-most true true n zero most = inr (ap (λ q. q ++ (p ∷ [])) (zero refl))
  sent-most true false n zero most = most
  sent-most false b n zero most = most
