-- ===== src/Client/Transfer/Reading.antt =====
-- Read and readAll of client/client.go against the bytes of the file that the server holds.
use go9p.Base.{
  ℕ, zero, suc, ◌+◌, ◌%◌, ◌^◌, ◌≤◌, ◌<◌, List, [], ◌∷◌, ◌++◌, length, take, drop, Option, none, ◌≡◌,
  refl, sym, ap, ◌∙◌, arith, length-drop, mod-eq_of_lt, append-nil, append_assoc, take-all, ==_refl,
  suc-==-zero, ltb-false,
}
use mathlib.Core.Path.{subst}
use go9p.Proto.Header.Types.{rread_type, tread_type}
use go9p.Proto.Messages.Read.{TRead}
use go9p.Proto.Call.{FCall, get_tag, header_of, tread, rread}
use go9p.Client.{
  Delivery, received, GoError, eof, Outcome, done, World, replied, take_tag, get_response,
}
use go9p.Client.Run.{Run, pure, ◌>>=◌, next, on_client, fail}
use go9p.Client.Files.{File, limit, read_call, read_response, read_from, read}
use go9p.Client.Dirs.{read_all, gathered}
use go9p.Client.Transfer.{FileServer, Continues, call-Continues}
use go9p.Client.Transfer.Writing.{limit-fits, limit-positive}

-- What Read does with the bytes that came: io.EOF for none.
abbrev read_outcome : {S : Type 0} → File → List ℕ → Run S (List ℕ × File)
read_outcome f [] = fail eof
read_outcome f (b ∷ bs) = pure (b ∷ bs, record f { offset = (f.offset + length (b ∷ bs)) % 2 ^ 64 })

module _ {S : Type 0} (send : FCall → S → Delivery × S) (msize : ℕ) where
  -- An answer of no more bytes than were asked for, with their number in it.
  answered-all :
      (f : File) (len : ℕ) (bs : List ℕ) (tag : ℕ)
      → length bs ≤ len
      → length bs < 2 ^ 32
      → read_response {S = S} send f len (
          replied (
            rread (record {
              header = record { type = rread_type; tag = tag };
              count = length bs;
              bytes = bs;
            })))
        ≡ read_outcome f bs
  unfolding read_response
  answered-all f len [] tag h small = rw (ltb-false len 0 h) refl
  answered-all f len (b ∷ bs) tag h small =
      rw
        (
          ltb-false len (length (b ∷ bs)) h,
          mod-eq_of_lt {n = length (b ∷ bs)} {m = 2 ^ 32} small,
          ==_refl (length (b ∷ bs)),
          suc-==-zero (length bs),
          take-all (length (b ∷ bs)) (b ∷ bs) (omega arith),
        )
        refl

module _ {A : Type 0} where
  take_rest : (n : ℕ) (xs : List A) → take n xs ++ drop (length (take n xs)) xs ≡ xs
  take_rest zero xs = refl
  take_rest (suc n) [] = refl
  take_rest (suc n) (x ∷ xs) = ap (λ t. x ∷ t) (take_rest n xs)

  drop-nothing : (n : ℕ) → ◌≡◌ {A = List A} (drop n []) []
  drop-nothing zero = refl
  drop-nothing (suc n) = refl

  drop-drop : (m n : ℕ) (xs : List A) → drop (m + n) xs ≡ drop n (drop m xs)
  drop-drop zero n xs = let e : 0 + n ≡ n = omega arith in ap (λ k. drop k xs) e
  drop-drop (suc m) n [] = drop-nothing (suc m + n) ∙ sym (drop-nothing n)
  drop-drop (suc m) n (x ∷ xs) =
      let e : suc m + n ≡ suc (m + n) = omega arith in
      ap (λ k. drop k (x ∷ xs)) e ∙ drop-drop m n xs

  length-take_le : (n : ℕ) (xs : List A) → length (take n xs) ≤ n
  length-take_le zero xs = omega arith
  length-take_le (suc n) [] = omega arith
  length-take_le (suc n) (x ∷ xs) = omega (arith, length-take_le n xs)

  length-take_short : (n : ℕ) (xs : List A) → length (take n xs) ≤ length xs
  length-take_short zero xs = omega arith
  length-take_short (suc n) [] = omega arith
  length-take_short (suc n) (x ∷ xs) = omega (arith, length-take_short n xs)

  take-nothing : (n : ℕ) (xs : List A) → 0 < n → take n xs ≡ [] → xs ≡ []
  take-nothing zero xs h e = absurd (omega arith)
  take-nothing (suc n) [] h e = refl
  take-nothing (suc n) (x ∷ xs) h e = cc

module _ {S : Type 0} (send : FCall → S → Delivery × S) (msize fid iounit : ℕ)
    (server : FileServer send fid msize) (large : 11 < msize) (small : msize < 2 ^ 32)
    (unit : 0 < iounit) where
  abbrev file_at : ℕ → File
  file_at offset = record { fid = fid; offset = offset; iounit = iounit }

  piece : ℕ → ℕ → List ℕ → List ℕ
  piece size offset contents = take (limit 11 msize iounit size) (drop offset contents)

  read_of : ℕ → ℕ → ℕ → TRead
  read_of size offset tag = record {
    header = record { type = tread_type; tag = tag };
    fid = fid;
    offset = offset;
    count = limit 11 msize iounit size % 2 ^ 32;
  }

  limit_whole : (size : ℕ) → limit 11 msize iounit size % 2 ^ 32 ≡ limit 11 msize iounit size
  limit_whole size =
      mod-eq_of_lt (omega (arith, limit-fits 11 msize iounit size (omega arith) small, small))

  read-Continues :
      (size offset : ℕ) (w : World S)
      → offset + 2 ^ 32 ≤ 2 ^ 64
      → w.client.msize ≡ msize
      → server.ready w.peer
      → Continues
          (read send (file_at offset) size w)
          w
          (λ tag. server.after_read (read_of size offset tag) w.peer)
          (λ tag. read_outcome (file_at offset) (piece size offset (server.holds w.peer)))
  unfolding read read_from read_call read_of piece ◌>>=◌ next on_client get_tag header_of
  read-Continues size offset w room ms ready =
      let n = limit 11 msize iounit size in
      let bs = take n (drop offset (server.holds w.peer)) in
      let fits : n + 11 ≤ msize = limit-fits 11 msize iounit size (omega arith) small in
      let whole : n % 2 ^ 32 ≡ n = limit_whole size in
      let reply = λ (k tag : ℕ). rread (record {
        header = record { type = rread_type; tag = tag };
        count = length (take k (drop offset (server.holds w.peer)));
        bytes = take k (drop offset (server.holds w.peer));
      }) in
      let c =
        call-Continues send fid (read_call (file_at offset) offset n) (reply n)
          (λ tag. server.after_read (read_of size offset tag) w.peer)
          (read_response send (file_at offset) n) w
          (λ tag.
            subst
              (λ k.
                send (tread (read_of size offset tag)) w.peer
                ≡ (received (reply k tag), server.after_read (read_of size offset tag) w.peer))
              whole
              (server.reads (read_of size offset tag) w.peer ready refl (omega (arith, fits, whole))
                (omega (arith, fits, whole, room, small))))
          (λ tag. refl) (λ tag. refl) in
      subst
        (λ m.
          Continues
            ((on_client (take_tag fid) >>= (λ tag.
                get_response send (read_call (file_at offset) offset (limit 11 m iounit size) tag)
                >>= read_response send (file_at offset) (limit 11 m iounit size)))
              w)
            w (λ tag. server.after_read (read_of size offset tag) w.peer)
            (λ tag. read_outcome (file_at offset) bs))
        (sym ms)
        (record {
          tag = c.tag;
          client = c.client;
          msize = c.msize;
          same =
              c.same
              ∙ ap
                  (λ (m : Run S (List ℕ × File)). m (record {
                    client = c.client;
                    peer = server.after_read (read_of size offset c.tag) w.peer;
                  }))
                  (answered-all send msize (file_at offset) n bs c.tag
                    (length-take_le n (drop offset (server.holds w.peer)))
                    (omega
                      (arith, fits, small, length-take_le n (drop offset (server.holds w.peer)))));
        })

  -- How readAll ends: it has the rest of the file.
  record Gathered (o : Outcome (List ℕ × Option GoError) × World S) (s : S) (buff : List ℕ)
      (offset : ℕ) : Type 0 where
    last : World S
    same : o ≡ (done (buff ++ drop offset (server.holds s), none), last)
    ready : server.ready last.peer
    held : server.holds last.peer ≡ server.holds s

  -- What readAll does with the piece that Read got.
  Gathered-piece :
      (fuel size offset : ℕ) (room : ℕ → ℕ) (buff bs contents : List ℕ) (s : S) (w1 : World S)
      → 0 < size
      → bs ≡ piece size offset contents
      → server.holds s ≡ contents
      → server.holds w1.peer ≡ contents
      → server.ready w1.peer
      → offset ≤ length contents
      → length contents + 2 ^ 32 ≤ 2 ^ 64
      → (0 < length bs
          → Gathered
              (read_all send room fuel (file_at (offset + length bs)) (buff ++ bs) w1)
              w1.peer
              (buff ++ bs)
              (offset + length bs))
      → Gathered
          (gathered buff (read_all send room fuel) (read_outcome (file_at offset) bs w1))
          s
          buff
          offset
  unfolding gathered piece fail pure
  Gathered-piece fuel size offset room buff [] contents s w1 pos e hs h1 ready le short go =
      let nothing : drop offset (server.holds s) ≡ [] =
        ap (drop offset) hs
        ∙ take-nothing (limit 11 msize iounit size) (drop offset contents)
            (limit-positive 11 msize iounit size large small unit pos) (sym e) in
      record {
        last = w1;
        same = ap (λ x. (done (x, none), w1)) (sym (ap (λ r. buff ++ r) nothing ∙ append-nil buff));
        ready = ready;
        held = h1 ∙ sym hs;
      }
  Gathered-piece fuel size offset room buff (b ∷ bs) contents s w1 pos e hs h1 ready le short go =
      let n = length (b ∷ bs) in
      let le_rest : n ≤ length (drop offset contents) =
        subst (λ z. length z ≤ length (drop offset contents)) (sym e)
          (length-take_short (limit 11 msize iounit size) (drop offset contents)) in
      let wrap : (offset + n) % 2 ^ 64 ≡ offset + n =
        mod-eq_of_lt (omega (arith, le_rest, length-drop offset contents, le, short)) in
      let r = go (omega arith) in
      let rest : (b ∷ bs) ++ drop (offset + n) contents ≡ drop offset contents =
        ap (λ t. (b ∷ bs) ++ t) (drop-drop offset n contents)
        ∙ ap (λ z. z ++ drop (length z) (drop offset contents)) e
        ∙ take_rest (limit 11 msize iounit size) (drop offset contents) in
      record {
        last = r.last;
        same =
            ap (λ k. read_all send room fuel (file_at k) (buff ++ (b ∷ bs)) w1) wrap
            ∙ r.same
            ∙ ap (λ x. (done (x, none), r.last))
                (ap (λ c. (buff ++ (b ∷ bs)) ++ drop (offset + n) c) h1
                  ∙ append_assoc buff (b ∷ bs) (drop (offset + n) contents)
                  ∙ ap (λ t. buff ++ t) (rest ∙ ap (drop offset) (sym hs)));
        ready = r.ready;
        held = r.held ∙ h1 ∙ sym hs;
      }

  Gathered-all :
      (room : ℕ → ℕ) (fuel offset : ℕ) (buff contents : List ℕ) (w : World S)
      → ((n : ℕ) → 0 < room n)
      → length contents < fuel + offset
      → offset ≤ length contents
      → length contents + 2 ^ 32 ≤ 2 ^ 64
      → server.holds w.peer ≡ contents
      → w.client.msize ≡ msize
      → server.ready w.peer
      → Gathered (read_all send room fuel (file_at offset) buff w) w.peer buff offset
  unfolding read_all piece
  Gathered-all room zero offset buff contents w some_room h le short hs ms ready =
      absurd (omega arith)
  Gathered-all room (suc fuel) offset buff contents w some_room h le short hs ms ready =
      let size = room (length buff) in
      let c = read-Continues size offset w (omega arith) ms ready in
      let t = read_of size offset c.tag in
      let bs = piece size offset (server.holds w.peer) in
      let w1 : World S = record { client = c.client; peer = server.after_read t w.peer } in
      let h1 : server.holds w1.peer ≡ contents = server.read_holds t w.peer ∙ hs in
      let le_rest : length bs ≤ length (drop offset (server.holds w.peer)) =
        length-take_short (limit 11 msize iounit size) (drop offset (server.holds w.peer)) in
      let lens : length (server.holds w.peer) ≡ length contents = ap (λ z. length z) hs in
      subst (λ o. Gathered (gathered buff (read_all send room fuel) o) w.peer buff offset)
        (sym c.same)
        (Gathered-piece fuel size offset room buff bs contents w.peer w1 (some_room (length buff))
          (ap (piece size offset) hs) hs h1 (server.read_ready t w.peer ready) le short
          (λ more.
            Gathered-all room fuel (offset + length bs) (buff ++ bs) contents w1 some_room
              (omega (arith, more, h))
              (omega (arith, le_rest, lens, le, length-drop offset (server.holds w.peer))) short h1
              (c.msize ∙ ms) (server.read_ready t w.peer ready)))

  -- Against a server that keeps a file as fs/static.go does, readAll of a File at an offset within
  -- the file returns all bytes from there to the end of the file, without an error, and leaves what
  -- the server holds as it is; it ends within one turn more than there are bytes left. The message
  -- size is above 11, the iounit above 0, and the buffer has room for a byte at every turn.
  pub read_all-rest :
      (room : ℕ → ℕ) (fuel offset : ℕ) (w : World S)
      → ((n : ℕ) → 0 < room n)
      → length (server.holds w.peer) < fuel + offset
      → offset ≤ length (server.holds w.peer)
      → length (server.holds w.peer) + 2 ^ 32 ≤ 2 ^ 64
      → w.client.msize ≡ msize
      → server.ready w.peer
      → (last : World S) × (read_all send room fuel (file_at offset) [] w
          ≡ (done (drop offset (server.holds w.peer), none), last))
        × (server.holds last.peer ≡ server.holds w.peer)
  read_all-rest room fuel offset w some_room h le short ms ready =
      let r =
        Gathered-all room fuel offset [] (server.holds w.peer) w some_room h le short refl ms
          ready in
      (r.last, r.same, r.held)
