-- ===== src/Fs/Server/Session/Msize.antt =====
-- The negotiation of msize.
use go9p.Base.{
  ℕ, ◌≤◌, Bool, true, ◌==◌, ◌&&◌, ltb, if◌then◌else◌, bytes, same_text, ◌≡◌, refl, arith, ap, ◌∙◌,
  ◌≢◌, sym, Bool-cases, inl, inr, same_text→eq,
}
use mathlib.Core.Path.{subst}
use go9p.Proto.Header.Types.{tversion_type, rversion_type, max_msg_len}
use go9p.Proto.Messages.Version.{TrVersion}
use go9p.Proto.Call.{FCall, trversion}
use go9p.Fs.Nodes.{Nodes, FileSystem}
use go9p.Fs.Server.Conn.{Reply, reply, fail, State, Step}
use go9p.Fs.Server.Session.{version, version_reply}

-- What the client and the server agree on.
pub record Agreed {W N : Type 0} (t : TrVersion) (s s' : State W N) (r : TrVersion) : Type 0 where
  pub below_server : r.msize ≤ max_msg_len
  pub below_client : r.msize ≤ t.msize
  pub kept : s'.conn.msize ≡ r.msize
  pub protocol : r.version ≡ bytes "9P2000"
  pub answer : r.header.type ≡ rversion_type
  pub same_tag : r.header.tag ≡ t.header.tag

abbrev clamped : TrVersion → ℕ
clamped t = if ltb max_msg_len t.msize then max_msg_len else t.msize

replied : TrVersion → Reply → TrVersion
replied t (reply (trversion r)) = r
replied t _ = t

clamp_below : (a b : ℕ) → ((if ltb a b then a else b) ≤ a) × ((if ltb a b then a else b) ≤ b)
clamp_below a b = ground arith

and_parts : (a b : Bool) → a && b ≡ true → (a ≡ true) × (b ≡ true)
and_parts a b h = ground arith

module _ {W N : Type 0} (nodes : Nodes W N) (fs : FileSystem W N) where
  version_reply-Agreed :
      (msize : ℕ) (t r : TrVersion) (s s' : State W N)
      → msize ≤ max_msg_len
      → msize ≤ t.msize
      → t.version ≡ bytes "9P2000"
      → version_reply nodes fs msize t s ≡ (reply (trversion r), s')
      → Agreed t s s' r
  unfolding version_reply replied
  version_reply-Agreed msize t r s s' le le' v e =
      subst (λ s'. Agreed t s s' r) (ap (λ p. p.1) e)
        (subst (λ r. Agreed t s (record s { conn = record s.conn { msize = msize } }) r)
          (ap (λ p. replied t p.0) e)
          (record {
            below_server = le;
            below_client = le';
            kept = refl;
            protocol = v;
            answer = refl;
            same_tag = refl;
          }))

  fail_is_no_reply : (s s' : State W N) (r : FCall) → ◌≢◌ {A = Step W N} (fail, s) (reply r, s')
  fail_is_no_reply s s' r e = cc

  -- When Version replies, the version is 9P2000, and the msize that the connection keeps is the one
  -- in the reply, at most the client's and at most the server's.
  pub version-Agreed :
      (t r : TrVersion) (s s' : State W N)
      → version nodes fs t s ≡ (reply (trversion r), s')
      → Agreed t s s' r
  unfolding version
  version-Agreed t r s s' e =
      elim (Bool-cases ((t.header.type == tversion_type) && same_text t.version (bytes "9P2000"))) [
        | inl asked ↦
            let (le, le') = clamp_below max_msg_len t.msize in
            version_reply-Agreed _ t r s s' le le'
              (same_text→eq t.version (bytes "9P2000") ((and_parts _ _ asked).1))
              (sym (ap (λ b. if b then version_reply nodes fs (clamped t) t s else (fail, s)) asked)
                ∙ e)
        | inr other ↦ absurd (
            fail_is_no_reply s s' (trversion r) (
              sym (ap (λ b. if b then version_reply nodes fs (clamped t) t s else (fail, s)) other)
              ∙ e))
      ]
