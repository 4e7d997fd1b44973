-- ===== src/Fs/Streams/Single.antt =====
-- fs/streams.go: SingleStream, as steps of its writers, its reader and Close. A semaphore is a
-- channel of one place.
use go9p.Base.{
  ℕ, ◌+◌, ◌<◌, List, [], ◌∷◌, ◌++◌, length, take, drop, Bool, true, false, if◌then◌else◌, ◌≡◌, refl,
  sym, ap, ◌∙◌, arith, append_assoc, append-nil, take-drop, length-append, ◌⊎◌, inl, inr,
}

-- What a goroutine that has taken a semaphore is about to do.
pub data Busy : Type 0 where
  nobody : Busy
  -- a Write that has set the buffer, before it sends on readsem
  writing : Busy
  -- a Read that has copied, before it sends on writesem or readsem
  reading : Busy

pub record SingleStream : Type 0 where
  pub buffer : List ℕ
  pub writesem : Bool
  pub readsem : Bool
  pub closed : Bool
  pub busy : Busy
  -- all bytes of the Writes that have set the buffer, and all that Reads have copied
  pub put : List ℕ
  pub got : List ℕ
  -- whether a caller of Write changed its slice before Reads had copied all of it
  pub reused : Bool

unfoldable pub new_single_stream : SingleStream
new_single_stream = record {
  buffer = [];
  writesem = true;
  readsem = false;
  closed = false;
  busy = nobody;
  put = [];
  got = [];
  reused = false;
}

-- The steps, in any order that the semaphores permit. To send on readsem after Close panics, which
-- is no step. The buffer is the slice of the caller of Write, who can change its bytes at any time,
-- also when Write has returned.
pub data SingleMove : SingleStream → SingleStream → Type 0 where
  write_buffer :
      (s : SingleStream) (p : List ℕ)
      → s.writesem ≡ true
      → SingleMove s (record s { writesem = false; buffer = p; busy = writing; put = s.put ++ p })
  write_signal :
      (s : SingleStream)
      → s.busy ≡ writing
      → s.closed ≡ false
      → SingleMove s (record s { busy = nobody; readsem = true })
  read_buffer :
      (s : SingleStream) (room : ℕ)
      → s.readsem ≡ true
      → s.closed ≡ false
      → SingleMove s (record s {
        readsem = false;
        buffer = drop room s.buffer;
        busy = reading;
        got = s.got ++ take room s.buffer;
      })
  read_done :
      (s : SingleStream)
      → s.busy ≡ reading
      → length s.buffer ≡ 0
      → SingleMove s (record s { busy = nobody; writesem = true })
  read_more :
      (s : SingleStream)
      → s.busy ≡ reading
      → 0 < length s.buffer
      → s.closed ≡ false
      → SingleMove s (record s { busy = nobody; readsem = true })
  reuse_slice :
      (s : SingleStream) (bytes : List ℕ)
      → 0 < length s.buffer
      → length bytes ≡ length s.buffer
      → SingleMove s (record s { buffer = bytes; reused = true })
  close_single : (s : SingleStream) → SingleMove s (record s { closed = true })

pub data SingleReached : SingleStream → Type 0 where
  fresh : SingleReached new_single_stream
  moved : (s s' : SingleStream) → SingleReached s → SingleMove s s' → SingleReached s'

tokens : Bool → ℕ
tokens b = if b then 1 else 0

in_hand : Busy → ℕ
in_hand nobody = 0
in_hand writing = 1
in_hand reading = 1

-- One goroutine at a time has the buffer, and it is empty while a Write may begin. It holds as many
-- bytes as were put and not got, and those very bytes if no caller changed them.
record Single (s : SingleStream) : Type 0 where
  one : tokens s.writesem + tokens s.readsem + in_hand s.busy ≡ 1
  empty : s.writesem ≡ true → s.buffer ≡ []
  sizes : length s.got + length s.buffer ≡ length s.put
  order : (s.reused ≡ true) ⊎ (s.got ++ s.buffer ≡ s.put)

length-zero : (xs : List ℕ) → length xs ≡ 0 → xs ≡ []
length-zero [] h = refl
length-zero (x ∷ xs) h = absurd (omega arith)

all-got : (got buffer put : List ℕ) → buffer ≡ [] → got ++ buffer ≡ put → got ≡ put
all-got got buffer put e h = sym (append-nil got) ∙ ap (λ b. got ++ b) (sym e) ∙ h

order-map : {A B C : Type 0} → (B → C) → A ⊎ B → A ⊎ C
order-map f (inl a) = inl a
order-map f (inr b) = inr (f b)

read-order :
    (room : ℕ) (got buffer put : List ℕ)
    → got ++ buffer ≡ put
    → (got ++ take room buffer) ++ drop room buffer ≡ put
read-order room got buffer put h =
    append_assoc got (take room buffer) (drop room buffer)
    ∙ ap (λ t. got ++ t) (take-drop room buffer)
    ∙ h

read-sizes :
    (room : ℕ) (got buffer : List ℕ)
    → length (got ++ take room buffer) + length (drop room buffer) ≡ length got + length buffer
read-sizes room got buffer =
    sym (length-append (got ++ take room buffer) (drop room buffer))
    ∙ ap length (read-order room got buffer (got ++ buffer) refl)
    ∙ length-append got buffer

Single-move : (s s' : SingleStream) → SingleMove s s' → Single s → Single s'
unfolding tokens in_hand
Single-move s _ (write_buffer _ p e) h = record {
  one = ground (arith, h.one, ap tokens e);
  empty = λ k. cc;
  sizes = omega (arith, h.sizes, ap length (h.empty e), length-append s.put p);
  order = order-map (λ o. ap (λ t. t ++ p) (all-got s.got s.buffer s.put (h.empty e) o)) h.order;
}
Single-move s _ (write_signal _ e c) h = record {
  one = ground (arith, h.one, ap in_hand e);
  empty = h.empty;
  sizes = h.sizes;
  order = h.order;
}
Single-move s _ (read_buffer _ room e c) h = record {
  one = ground (arith, h.one, ap tokens e);
  empty = λ k. absurd (ground (arith, h.one, ap tokens k, ap tokens e));
  sizes = read-sizes room s.got s.buffer ∙ h.sizes;
  order = order-map (read-order room s.got s.buffer s.put) h.order;
}
Single-move s _ (read_done _ e z) h = record {
  one = ground (arith, h.one, ap in_hand e);
  empty = λ k. length-zero s.buffer z;
  sizes = h.sizes;
  order = h.order;
}
Single-move s _ (read_more _ e z c) h = record {
  one = ground (arith, h.one, ap in_hand e);
  empty = h.empty;
  sizes = h.sizes;
  order = h.order;
}
Single-move s _ (reuse_slice _ bytes some_left e) h = record {
  one = h.one;
  empty = λ k. absurd (omega (arith, some_left, ap length (h.empty k)));
  sizes = ap (λ n. length s.got + n) e ∙ h.sizes;
  order = inl refl;
}
Single-move s _ (close_single _) h = record {
  one = h.one;
  empty = h.empty;
  sizes = h.sizes;
  order = h.order;
}

Single-Reached : (s : SingleStream) → SingleReached s → Single s
unfolding new_single_stream tokens in_hand
Single-Reached _ fresh = record { one = refl; empty = λ k. refl; sizes = refl; order = inr refl }
Single-Reached _ (moved s s' r m) = Single-move s s' m (Single-Reached s r)

-- What Reads have copied, and then the buffer while a Write is not consumed.
abbrev pub through : SingleStream → List ℕ
through s = if s.writesem then s.got else s.got ++ s.buffer

through-put :
    (s : SingleStream) (b : Bool)
    → s.writesem ≡ b
    → Single s
    → s.got ++ s.buffer ≡ s.put
    → (if b then s.got else s.got ++ s.buffer) ≡ s.put
through-put s true e h o = all-got s.got s.buffer s.put (h.empty e) o
through-put s false e h o = o

length-through :
    (s : SingleStream) (b : Bool)
    → s.writesem ≡ b
    → Single s
    → length (if b then s.got else s.got ++ s.buffer) ≡ length s.put
length-through s true e h = omega (arith, h.sizes, ap length (h.empty e))
length-through s false e h = length-append s.got s.buffer ∙ h.sizes

-- However writers, the reader and Close of a SingleStream run, what Reads have copied and then the
-- buffer are as many bytes as the Writes had; and they are the bytes of the Writes, whole and in the
-- order in which they took the semaphore, or a caller of Write changed its slice before Reads had
-- copied all of it. When a Write may begin, Reads have copied all bytes of those before it.
pub got-put :
    (s : SingleStream)
    → SingleReached s
    → (length (through s) ≡ length s.put) × ((s.reused ≡ true) ⊎ (through s ≡ s.put))
got-put s r =
    let h = Single-Reached s r in
    (length-through s s.writesem refl h, order-map (through-put s s.writesem refl h) h.order)
