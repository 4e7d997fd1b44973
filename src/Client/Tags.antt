-- ===== src/Client/Tags.antt =====
-- The tags of client/client.go when many goroutines make calls: takeTag and returnTag in any order.
use go9p.Base.{
  ℕ, suc, ◌+◌, ◌%◌, ◌^◌, ◌≤◌, ◌<◌, List, [], ◌∷◌, ◌++◌, length, length-append, false, ◌==◌, ◌&&◌,
  ltb, leb, if◌then◌else◌, ◌≡◌, refl, sym, arith, mod-eq_of_lt,
}
use mathlib.Core.Path.{subst}
use go9p.Client.{Client, take_tag, tag_taken, return_tag}
use go9p.Client.Session.{fresh_client}

-- How often a number stands in a list.
abbrev pub count : ℕ → List ℕ → ℕ
count n [] = 0
count n (x ∷ xs) = let rest = count n xs in if x == n then suc rest else rest

-- The client, and the tags that are taken and not given back.
pub record Sharing : Type 0 where
  pub client : Client
  pub held : List ℕ

-- What a goroutine does: it takes a tag, while fewer than 65534 are held; the worker gives one back;
-- or it changes something else of the client.
pub data Step : Sharing → Sharing → Type 0 where
  taken :
      (c : Client) (held : List ℕ) (fid : ℕ)
      → length held < 65534
      → Step
          (record { client = c; held = held })
          (record { client = (take_tag fid c).1; held = (take_tag fid c).0 ∷ held })
  given :
      (c : Client) (earlier : List ℕ) (tag : ℕ) (later : List ℕ)
      → Step
          (record { client = c; held = earlier ++ (tag ∷ later) })
          (record { client = return_tag tag c; held = earlier ++ later })
  other :
      (c c' : Client) (held : List ℕ)
      → c'.tags ≡ c.tags
      → c'.last_tag ≡ c.last_tag
      → Step (record { client = c; held = held }) (record { client = c'; held = held })

-- What a client comes to after NewClient has made it.
pub data Reached : Sharing → Type 0 where
  made : Reached (record { client = fresh_client; held = [] })
  step : (s s' : Sharing) → Reached s → Step s s' → Reached s'

abbrev pub once : ℕ → ℕ → ℕ
once last n = if ltb 1 n && leb n last then 1 else 0

-- Each number from 2 to the last tag is in one place once: free, or held.
pub record Accounted (tags : List ℕ) (last : ℕ) (held : List ℕ) : Type 0 where
  pub low : 1 ≤ last
  pub high : last < 2 ^ 16
  pub total : length tags + length held + 1 ≡ last
  pub each : (n : ℕ) → count n tags + count n held ≡ once last n

count-append : (n : ℕ) (xs ys : List ℕ) → count n (xs ++ ys) ≡ count n xs + count n ys
count-append n [] ys = omega arith
count-append n (x ∷ xs) ys = ground (arith, count-append n xs ys)

once-suc :
    (last n : ℕ)
    → once (last + 1) n ≡ (if last + 1 == n then (if ltb 1 n then 1 else 0) else once last n)
once-suc last n = ground arith

Accounted-grown :
    (last : ℕ) (held : List ℕ)
    → last + 1 < 2 ^ 16
    → Accounted [] last held
    → Accounted [] (last + 1) ((last + 1) ∷ held)
Accounted-grown last held h a = record {
  low = omega (arith, a.low);
  high = h;
  total = omega (arith, a.total);
  each = λ n. ground (arith, a.each n, once-suc last n, a.low);
}

Accounted-moved :
    (tag : ℕ) (tags : List ℕ) (last : ℕ) (held : List ℕ)
    → Accounted (tag ∷ tags) last held
    → Accounted tags last (tag ∷ held)
Accounted-moved tag tags last held a = record {
  low = a.low;
  high = a.high;
  total = omega (arith, a.total);
  each = λ n. ground (arith, a.each n);
}

pub Accounted-back :
    (tag : ℕ) (tags : List ℕ) (last : ℕ) (earlier later : List ℕ)
    → Accounted tags last (earlier ++ (tag ∷ later))
    → Accounted (tag ∷ tags) last (earlier ++ later)
Accounted-back tag tags last earlier later a = record {
  low = a.low;
  high = a.high;
  total = omega (arith, a.total, length-append earlier (tag ∷ later), length-append earlier later);
  each = λ n.
      ground (arith, a.each n, count-append n earlier (tag ∷ later), count-append n earlier later);
}

abbrev pub Safe : Sharing → Type 0
Safe s = Accounted s.client.tags s.client.last_tag s.held

pub Safe-tag_taken :
    (c : Client) (fid : ℕ) (tags held : List ℕ)
    → c.tags ≡ tags
    → length held < 65534
    → Accounted tags c.last_tag held
    → Safe (record { client = (tag_taken c fid tags).1; held = (tag_taken c fid tags).0 ∷ held })
unfolding tag_taken
Safe-tag_taken c fid [] held e few a =
    let w : (c.last_tag + 1) % 2 ^ 16 ≡ c.last_tag + 1 =
      mod-eq_of_lt (omega (arith, few, a.total)) in
    subst (λ last. Accounted c.tags last (last ∷ held)) (sym w)
      (subst (λ free. Accounted free (c.last_tag + 1) ((c.last_tag + 1) ∷ held)) (sym e)
        (Accounted-grown c.last_tag held (omega (arith, few, a.total)) a))
Safe-tag_taken c fid (tag ∷ tags) held e few a = Accounted-moved tag tags c.last_tag held a

tag_taken-free :
    (c : Client) (fid : ℕ) (tags held : List ℕ)
    → length held < 65534
    → Accounted tags c.last_tag held
    → (1 < (tag_taken c fid tags).0)
      × ((tag_taken c fid tags).0 < 2 ^ 16)
      × (count (tag_taken c fid tags).0 held ≡ 0)
unfolding tag_taken
tag_taken-free c fid [] held few a =
    let w : (c.last_tag + 1) % 2 ^ 16 ≡ c.last_tag + 1 =
      mod-eq_of_lt (omega (arith, few, a.total)) in
    subst (λ (tag : ℕ). (1 < tag) × (tag < 2 ^ 16) × (count tag held ≡ 0)) (sym w)
      (omega (arith, a.low), omega (arith, few, a.total), ground (arith, a.each (c.last_tag + 1)))
tag_taken-free c fid (tag ∷ tags) held few a =
    (ground (arith, a.each tag), ground (arith, a.each tag, a.high), ground (arith, a.each tag))

pub held-nonzero :
    (tags : List ℕ) (last tag : ℕ) (earlier later : List ℕ)
    → Accounted tags last (earlier ++ (tag ∷ later))
    → (tag == 0) ≡ false
held-nonzero tags last tag earlier later a =
    ground (arith, a.each tag, count-append tag earlier (tag ∷ later))

Safe-step : (s s' : Sharing) → Step s s' → Safe s → Safe s'
unfolding take_tag return_tag
Safe-step _ _ (taken c held fid few) a = Safe-tag_taken c fid c.tags held refl few a
Safe-step _ _ (given c earlier tag later) a =
    rw (held-nonzero c.tags c.last_tag tag earlier later a)
      (Accounted-back tag c.tags c.last_tag earlier later a)
Safe-step _ _ (other c c' held e e') a =
    subst (λ last. Accounted c'.tags last held) (sym e')
      (subst (λ tags. Accounted tags c.last_tag held) (sym e) a)

Reached-Safe : (s : Sharing) → Reached s → Safe s
unfolding fresh_client
Reached-Safe _ made = record {
  low = omega arith;
  high = omega arith;
  total = refl;
  each = λ n. ground arith;
}
Reached-Safe _ (step s s' r m) = Safe-step s s' m (Reached-Safe s r)

-- In every state that a client comes to, with any interleaving of goroutines, a tag that is taken
-- while fewer than 65534 are held is none of those that are held, and it is neither 0, which the
-- calls of NewClient have, nor 1, and it fits 16 bits.
pub take_tag-unheld :
    (s : Sharing) (fid : ℕ)
    → Reached s
    → length s.held < 65534
    → (1 < (take_tag fid s.client).0)
      × ((take_tag fid s.client).0 < 2 ^ 16)
      × (count (take_tag fid s.client).0 s.held ≡ 0)
unfolding take_tag
take_tag-unheld s fid r few =
    tag_taken-free s.client fid s.client.tags s.held few (Reached-Safe s r)
