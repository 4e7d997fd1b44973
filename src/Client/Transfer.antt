-- ===== src/Client/Transfer.antt =====
-- One call of client/client.go and its answer, and what a peer that serves one file answers.
pub mod Writing
pub mod Reading
use go9p.Base.{
  ℕ, ◌+◌, ◌^◌, ◌≤◌, ◌<◌, List, [], ◌∷◌, length, take, drop, Bool, ◌==◌, if◌then◌else◌, ◌≡◌, refl,
  sym, ap, ◌∙◌, arith,
}
use mathlib.Core.Path.{subst}
use go9p.Proto.Header.Types.{rread_type, rwrite_type}
use go9p.Proto.Messages.Read.{TRead}
use go9p.Proto.Messages.Write.{TWrite}
use go9p.Proto.Call.{FCall, get_tag, tread, rread, twrite, rwrite}
use go9p.Fs.Static.File.Contents.{bytes_after_write}
use go9p.Client.{
  Client, Delivery, received, Outcome, done, World, Response, replied, take_tag, tag_taken,
  return_tag, delete_call, get_response,
}
use go9p.Client.Run.{Run, ◌>>=◌, next, on_client}
use go9p.Client.Answers.{get_response-replied}

msize-tag_taken : (c : Client) (fid : ℕ) (tags : List ℕ) → (tag_taken c fid tags).1.msize ≡ c.msize
unfolding tag_taken
msize-tag_taken c fid [] = refl
msize-tag_taken c fid (tag ∷ tags) = refl

msize-return_tag : (tag : ℕ) (c : Client) → (return_tag tag c).msize ≡ c.msize
unfolding return_tag
msize-return_tag tag c = ground arith

-- A step goes on as `k` does from this client and peer, with the msize that the client had.
pub record Continues {S A : Type 0} (o : Outcome A × World S) (w : World S) (s : ℕ → S)
    (k : ℕ → Run S A) : Type 0 where
  pub tag : ℕ
  pub client : Client
  pub msize : client.msize ≡ w.client.msize
  pub same : o ≡ k tag (record { client = client; peer = s tag })

module _ {S A : Type 0} (send : FCall → S → Delivery × S) where
  pub call-Continues :
      (fid : ℕ) (call reply : ℕ → FCall) (after : ℕ → S) (k : Response → Run S A) (w : World S)
      → ((tag : ℕ) → send (call tag) w.peer ≡ (received (reply tag), after tag))
      → ((tag : ℕ) → get_tag (call tag) ≡ tag)
      → ((tag : ℕ) → get_tag (reply tag) ≡ tag)
      → Continues
          ((on_client (take_tag fid) >>= (λ tag. get_response send (call tag) >>= k)) w)
          w
          after
          (λ tag. k (replied (reply tag)))
  unfolding ◌>>=◌ next on_client take_tag
  call-Continues fid call reply after k w arrives asked told =
      let tag = (take_tag fid w.client).0 in
      let c = (take_tag fid w.client).1 in
      let f = call tag in
      let calls = get_tag f ∷ delete_call c.calls (get_tag f) in
      record {
        tag = tag;
        client = return_tag (get_tag f) (record c { calls = calls });
        msize =
            msize-return_tag (get_tag f) (record c { calls = calls })
            ∙ msize-tag_taken w.client fid w.client.tags;
        same =
            ap (λ o. next o k)
              (get_response-replied send f (record { client = c; peer = w.peer }) (reply tag)
                (after tag) (arrives tag) (told tag ∙ sym (asked tag)));
      }

-- A peer that serves a file on a fid: what it holds, and what Tread and Twrite do, for a client
-- whose messages have at most `msize` bytes.
pub record FileServer {S : Type 0} (send : FCall → S → Delivery × S) (fid msize : ℕ) : Type 1 where
  pub ready : S → Type 0
  pub holds : S → List ℕ
  -- the longest that the file can get
  pub capacity : ℕ
  pub addressable : capacity < 2 ^ 64
  pub after_read : TRead → S → S
  pub after_write : TWrite → S → S
  pub reads :
      (t : TRead) (s : S)
      → ready s
      → t.fid ≡ fid
      → t.count + 11 ≤ msize
      → t.offset + t.count < 2 ^ 64
      → send (tread t) s ≡ (
        received (
            rread (record {
              header = record { type = rread_type; tag = t.header.tag };
              count = length (take t.count (drop t.offset (holds s)));
              bytes = take t.count (drop t.offset (holds s));
            })),
        after_read t s,
      )
  pub writes :
      (t : TWrite) (s : S)
      → ready s
      → t.fid ≡ fid
      → t.count ≡ length t.bytes
      → length t.bytes + 23 ≤ msize
      → t.offset + length t.bytes ≤ capacity
      → send (twrite t) s ≡ (
        received (
            rwrite (record {
              header = record { type = rwrite_type; tag = t.header.tag };
              count = length t.bytes;
            })),
        after_write t s,
      )
  pub read_ready : (t : TRead) (s : S) → ready s → ready (after_read t s)
  pub read_holds : (t : TRead) (s : S) → holds (after_read t s) ≡ holds s
  pub write_ready :
      (t : TWrite) (s : S)
      → ready s
      → length t.bytes + 23 ≤ msize
      → t.offset + length t.bytes ≤ capacity
      → ready (after_write t s)
  pub write_holds :
      (t : TWrite) (s : S)
      → ready s
      → length t.bytes + 23 ≤ msize
      → t.offset + length t.bytes ≤ capacity
      → holds (after_write t s) ≡ bytes_after_write (holds s) t.offset t.bytes
