-- ===== src/Client/Transfer/Writing.antt =====
-- Write and WriteAt of client/client.go against the bytes of the file that the server holds.
use go9p.Base.{
  ℕ, zero, suc, ◌+◌, ◌-◌, ◌%◌, ◌^◌, ◌≤◌, ◌<◌, List, [], ◌∷◌, ◌++◌, length, take, drop, none, Bool,
  ltb, if◌then◌else◌, ◌≡◌, refl, sym, ap, ◌∙◌, arith, length-take, length-drop, take-drop,
  mod-eq_of_lt, ltb-false, append-nil,
}
use mathlib.Core.Path.{subst}
use go9p.Proto.Header.Types.{rwrite_type, twrite_type}
use go9p.Proto.Messages.Write.{TWrite}
use go9p.Proto.Call.{FCall, get_tag, header_of, rwrite}
use go9p.Fs.Static.File.Contents.{bytes_after_write}
use go9p.Fs.Static.File.Chunks.{bytes_after_write-append}
use go9p.Client.{Delivery, Outcome, done, World, take_tag, get_response}
use go9p.Client.Run.{Run, pure, ◌>>=◌, next, on_client, panic}
use go9p.Client.Files.{
  File, limit, Written, write_call, write_response, write_chunk, write_chunks, twrite_file, write,
}
use go9p.Client.Transfer.{FileServer, Continues, call-Continues}

-- The contents after a write; Twrite is not sent for no bytes.
abbrev pub after_twrite : List ℕ → ℕ → List ℕ → List ℕ
after_twrite contents off [] = contents
after_twrite contents off (b ∷ p) = bytes_after_write contents off (b ∷ p)

pub limit-le : (k msize iounit len : ℕ) → limit k msize iounit len ≤ len
unfolding limit
limit-le k msize iounit len = ground arith

pub limit-fits :
    (k msize iounit len : ℕ) → k ≤ msize → msize < 2 ^ 32 → limit k msize iounit len + k ≤ msize
unfolding limit
limit-fits k msize iounit len h j =
    let e : (msize + 2 ^ 32 - k) % 2 ^ 32 ≡ msize - k = omega arith in ground (arith, e)

pub limit-positive :
    (k msize iounit len : ℕ)
    → k < msize
    → msize < 2 ^ 32
    → 0 < iounit
    → 0 < len
    → 0 < limit k msize iounit len
unfolding limit
limit-positive k msize iounit len h j io l =
    let e : (msize + 2 ^ 32 - k) % 2 ^ 32 ≡ msize - k = omega arith in ground (arith, e)

after_twrite-append :
    (contents a b : List ℕ) (off : ℕ)
    → after_twrite (after_twrite contents off a) (off + length a) b
      ≡ after_twrite contents off (a ++ b)
after_twrite-append contents [] b off =
    let e : off + 0 ≡ off = omega arith in ap (λ k. after_twrite contents k b) e
after_twrite-append contents (x ∷ a) [] off =
    ap (λ p. bytes_after_write contents off p) (sym (append-nil (x ∷ a)))
after_twrite-append contents (x ∷ a) (y ∷ b) off =
    bytes_after_write-append contents (x ∷ a) (y ∷ b) off (omega arith) (omega arith)

-- How the loop ends: everything is written, and the server has it.
record Wrote {S : Type 0} {send : FCall → S → Delivery × S} {fid msize : ℕ}
    (server : FileServer send fid msize) (o : Outcome Written × World S) (s : S) (wrote off : ℕ)
    (p : List ℕ) : Type 0 where
  last : World S
  same : o ≡ (done (wrote + length p, none), last)
  ready : server.ready last.peer
  held : server.holds last.peer ≡ after_twrite (server.holds s) off p

module _ {S : Type 0} (send : FCall → S → Delivery × S) (msize : ℕ) (f : File)
    (server : FileServer send f.fid msize) (large : 23 < msize) (small : msize < 2 ^ 32)
    (unit : 0 < f.iounit) where
  chunk : List ℕ → List ℕ
  chunk p = take (limit 23 msize f.iounit (length p)) p

  length-chunk : (p : List ℕ) → length (chunk p) ≡ limit 23 msize f.iounit (length p)
  unfolding chunk
  length-chunk p =
      length-take (limit 23 msize f.iounit (length p)) p (limit-le 23 msize f.iounit (length p))

  Writes-more : ℕ → Type 0
  Writes-more fuel =
      (p : List ℕ) (off wrote : ℕ) (w : World S)
      → length p ≤ fuel
      → off + wrote + length p ≤ server.capacity
      → w.client.msize ≡ msize
      → server.ready w.peer
      → Wrote server (write_chunks send fuel f off wrote p w) w.peer wrote (off + wrote) p

  call_of : List ℕ → ℕ → ℕ → ℕ → TWrite
  unfolding chunk
  call_of p off wrote tag = record {
    header = record { type = twrite_type; tag = tag };
    fid = f.fid;
    offset = (off + wrote) % 2 ^ 64;
    count = length (chunk p) % 2 ^ 32;
    bytes = chunk p;
  }

  length-chunk_fits : (p : List ℕ) → length (chunk p) + 23 ≤ msize
  length-chunk_fits p =
      omega (arith, length-chunk p, limit-fits 23 msize f.iounit (length p) (omega arith) small)

  length-chunk_positive : (p : List ℕ) → 0 < length p → 0 < length (chunk p)
  length-chunk_positive p h =
      omega (arith, length-chunk p, limit-positive 23 msize f.iounit (length p) large small unit h)

  length-chunk_le : (p : List ℕ) → length (chunk p) ≤ length p
  length-chunk_le p = omega (arith, length-chunk p, limit-le 23 msize f.iounit (length p))

  chunk-drop : (p : List ℕ) → chunk p ++ drop (length (chunk p)) p ≡ p
  unfolding chunk
  chunk-drop p =
      ap (λ n. chunk p ++ drop n p) (length-chunk p)
      ∙ take-drop (limit 23 msize f.iounit (length p)) p

  after_twrite-nonempty :
      (contents : List ℕ) (off : ℕ) (p : List ℕ)
      → 0 < length p
      → bytes_after_write contents off p ≡ after_twrite contents off p
  after_twrite-nonempty contents off [] h = absurd (omega arith)
  after_twrite-nonempty contents off (b ∷ p) h = refl

  -- The chunk and what follows it, together.
  held-both :
      (contents p : List ℕ) (off wrote : ℕ)
      → 0 < length p
      → off + wrote < 2 ^ 64
      → after_twrite
          (bytes_after_write contents ((off + wrote) % 2 ^ 64) (chunk p))
          (off + (wrote + length (chunk p)))
          (drop (length (chunk p)) p)
        ≡ after_twrite contents (off + wrote) p
  held-both contents p off wrote h room =
      let e : off + (wrote + length (chunk p)) ≡ off + wrote + length (chunk p) = omega arith in
      rw (mod-eq_of_lt {n = off + wrote} {m = 2 ^ 64} room, e)
        (ap (λ c. after_twrite c (off + wrote + length (chunk p)) (drop (length (chunk p)) p))
            (after_twrite-nonempty contents (off + wrote) (chunk p) (length-chunk_positive p h))
          ∙ after_twrite-append contents (chunk p) (drop (length (chunk p)) p) (off + wrote)
          ∙ ap (after_twrite contents (off + wrote)) (chunk-drop p))

  room-for :
      (p : List ℕ) (off wrote : ℕ)
      → off + wrote + length p ≤ server.capacity
      → (off + wrote) % 2 ^ 64 + length (chunk p) ≤ server.capacity
  room-for p off wrote room =
      let e : (off + wrote) % 2 ^ 64 ≡ off + wrote =
        mod-eq_of_lt (omega (arith, room, server.addressable)) in
      omega (arith, room, length-chunk_le p, e)

  chunk-Continues :
      (p : List ℕ) (off wrote : ℕ) (next : ℕ → Run S Written) (w : World S)
      → off + wrote + length p ≤ server.capacity
      → w.client.msize ≡ msize
      → server.ready w.peer
      → Continues
          (write_chunk send f p off wrote next w)
          w
          (λ tag. server.after_write (call_of p off wrote tag) w.peer)
          (λ tag. next (length (chunk p)))
  unfolding write_chunk write_response write_call call_of chunk ◌>>=◌ next on_client get_tag
      header_of
  chunk-Continues p off wrote next w room ms ready =
      subst
        (λ m.
          Continues
            ((on_client (take_tag f.fid) >>= (λ tag.
                get_response send (
                  write_call f ((off + wrote) % 2 ^ 64) (take (limit 23 m f.iounit (length p)) p)
                    tag)
                >>= write_response send wrote next))
              w)
            w (λ tag. server.after_write (call_of p off wrote tag) w.peer)
            (λ tag. next (length (chunk p))))
        (sym ms)
        (call-Continues send f.fid (write_call f ((off + wrote) % 2 ^ 64) (chunk p))
          (λ tag. rwrite (record {
            header = record { type = rwrite_type; tag = tag };
            count = length (chunk p);
          }))
          (λ tag. server.after_write (call_of p off wrote tag) w.peer)
          (write_response send wrote next) w
          (λ tag.
            server.writes (call_of p off wrote tag) w.peer ready refl
              (mod-eq_of_lt {n = length (chunk p)} {m = 2 ^ 32}
                (omega (arith, length-chunk_fits p, small)))
              (length-chunk_fits p) (room-for p off wrote room))
          (λ tag. refl) (λ tag. refl))

  -- The rest of the loop, from where the first chunk has gone.
  Wrote-rest :
      (p : List ℕ) (off wrote : ℕ) (w w1 : World S) (o : Outcome Written × World S) (tag : ℕ)
      → 0 < length p
      → off + wrote + length p ≤ server.capacity
      → server.ready w.peer
      → w1.peer ≡ server.after_write (call_of p off wrote tag) w.peer
      → Wrote server o w1.peer
          (wrote + length (chunk p))
          (off + (wrote + length (chunk p)))
          (drop (length (chunk p)) p)
      → Wrote server o w.peer wrote (off + wrote) p
  unfolding call_of
  Wrote-rest p off wrote w w1 o tag h room ready e r = record {
    last = r.last;
    same =
        let n : wrote + length (chunk p) + length (drop (length (chunk p)) p) ≡ wrote + length p =
          omega (arith, length-drop (length (chunk p)) p, length-chunk_le p) in
        r.same ∙ ap (λ k. (done (k, none), r.last)) n;
    ready = r.ready;
    held =
        r.held
        ∙ ap (λ c. after_twrite c (off + (wrote + length (chunk p))) (drop (length (chunk p)) p))
            (ap server.holds e
              ∙ server.write_holds (call_of p off wrote tag) w.peer ready (length-chunk_fits p)
                  (room-for p off wrote room))
        ∙ held-both (server.holds w.peer) p off wrote h (omega (arith, room, server.addressable));
  }

  Wrote-all : (fuel : ℕ) → Writes-more fuel
  unfolding Writes-more write_chunks pure call_of
  Wrote-all fuel [] off wrote w h room ms ready =
      let e : wrote ≡ wrote + 0 = omega arith in
      record { last = w; same = ap (λ n. (done (n, none), w)) e; ready = ready; held = refl }
  Wrote-all zero (b ∷ p) off wrote w h room ms ready = absurd (omega arith)
  Wrote-all (suc fuel) (b ∷ p) off wrote w h room ms ready =
      let n = length (chunk (b ∷ p)) in
      let next = λ (count : ℕ).
        if ltb (length (b ∷ p)) count
        then panic
        else write_chunks send fuel f off (wrote + count) (drop count (b ∷ p)) in
      let c = chunk-Continues (b ∷ p) off wrote next w room ms ready in
      let w1 : World S = record {
        client = c.client;
        peer = server.after_write (call_of (b ∷ p) off wrote c.tag) w.peer;
      } in
      let short : next n w1 ≡ write_chunks send fuel f off (wrote + n) (drop n (b ∷ p)) w1 =
        ap
          (λ (over : Bool).
            (if over then panic else write_chunks send fuel f off (wrote + n) (drop n (b ∷ p))) w1)
          (ltb-false (length (b ∷ p)) n (length-chunk_le (b ∷ p))) in
      let rest =
        Wrote-all fuel (drop n (b ∷ p)) off (wrote + n) w1
          (omega (arith, h, length-drop n (b ∷ p), length-chunk_positive (b ∷ p) (omega arith)))
          (omega (arith, room, length-drop n (b ∷ p), length-chunk_le (b ∷ p))) (c.msize ∙ ms)
          (server.write_ready (call_of (b ∷ p) off wrote c.tag) w.peer ready
            (length-chunk_fits (b ∷ p)) (room-for (b ∷ p) off wrote room)) in
      subst (λ o. Wrote server o w.peer wrote (off + wrote) (b ∷ p)) (sym (c.same ∙ short))
        (Wrote-rest (b ∷ p) off wrote w w1 _ c.tag (omega arith) room ready refl rest)

  -- Against a server that keeps a file as fs/static.go does, Write of any bytes sends them in as many
  -- calls as the sizes agreed on take, ends within as many turns as there are bytes, reports all of
  -- them written without an error, moves the offset behind them, and leaves the server with the
  -- contents that one write of all the bytes at the old offset leaves (none at all if there are no
  -- bytes). The message size is above 23, the iounit above 0, and the file has room for the bytes.
  pub write-held :
      (fuel : ℕ) (p : List ℕ) (w : World S)
      → length p ≤ fuel
      → f.offset + length p ≤ server.capacity
      → w.client.msize ≡ msize
      → server.ready w.peer
      → (last : World S) × (write send fuel f p w
          ≡ (done ((length p, none), record f { offset = f.offset + length p }), last))
        × server.ready last.peer
        × (server.holds last.peer ≡ after_twrite (server.holds w.peer) f.offset p)
  unfolding write twrite_file ◌>>=◌ next pure Writes-more
  write-held fuel p w h room ms ready =
      let e : f.offset + 0 ≡ f.offset = omega arith in
      let z : 0 + length p ≡ length p = omega arith in
      let wrap : (f.offset + length p) % 2 ^ 64 ≡ f.offset + length p =
        mod-eq_of_lt (omega (arith, room, server.addressable)) in
      let r = Wrote-all fuel p f.offset 0 w h (omega (arith, room)) ms ready in
      (
        r.last,
        ap (λ o. next o (λ (n, e). pure ((n, e), record f { offset = (f.offset + n) % 2 ^ 64 })))
              (r.same ∙ ap (λ k. (done (k, none), r.last)) z)
            ∙ ap (λ k. (done ((length p, none), record f { offset = k }), r.last)) wrap,
        r.ready,
        r.held ∙ ap (λ k. after_twrite (server.holds w.peer) k p) e,
      )
