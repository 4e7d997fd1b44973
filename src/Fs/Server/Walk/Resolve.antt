-- ===== src/Fs/Server/Walk/Resolve.antt =====
-- Walk against path resolution in the tree.
use go9p.Base.{
  ℕ, zero, suc, ◌%◌, ◌^◌, ◌<◌, List, [], ◌∷◌, ◌++◌, length, Option, none, some, some-injective,
  Bool, true, false, ◌||◌, if◌then◌else◌, bytes, same_text, ◌≡◌, refl, arith, ◌∙◌, ap, sym,
  append_assoc, append-nil,
}
use go9p.Proto.Qid.{Qid}
use go9p.Proto.Header.Types.{rwalk_type}
use go9p.Proto.Messages.Walk.{TWalk}
use go9p.Proto.Call.{rwalk}
use go9p.Fs.Permissions.{omode_none}
use go9p.Fs.Result.{Text, Result, ok, err}
use go9p.Fs.Nodes.{Nodes, FileSystem, Kind, mod_dir, plain_dir, file, other}
use go9p.Fs.Server.Conn.{FidInfo, nothing, derive_info, store, reply, error_reply, State, Step}
use go9p.Fs.Server.Walk.{
  Walked, arrived, stopped, walk_loop, walk_one, walk_on, walk, walk_reply, walk_end, walk_path,
  walk_info, walk_first, walk_dots, arrive, found_child, missing, find_child,
}

-- Whether the first name is `..` or `.`.
unfoldable pub starts_with_dots : List Text → Bool
starts_with_dots [] = false
starts_with_dots (name ∷ names) = same_text name (bytes "..") || same_text name (bytes ".")

abbrev is_dir : Kind → Bool
is_dir mod_dir = true
is_dir plain_dir = true
is_dir file = false
is_dir other = false

unfoldable cons_qid : {N : Type 0} → Qid → Option (N × List Qid) → Option (N × List Qid)
cons_qid q none = none
cons_qid q (some (n, qids)) = some (n, q ∷ qids)

unfoldable and_then : {A B : Type 0} → Option A → (A → Option B) → Option B
and_then none f = none
and_then (some a) f = f a

length-cons_qid :
    {N : Type 0} (q : Qid) (k : ℕ) (r : Option (N × List Qid))
    → ((m : N) (qids : List Qid) → r ≡ some (m, qids) → length qids ≡ k)
    → (m : N) (qids : List Qid) → cons_qid q r ≡ some (m, qids)
    → length qids ≡ suc k
unfolding cons_qid
length-cons_qid q k none h m qids e = ground arith
length-cons_qid q k (some (n, more)) h m qids e =
    let l = h n more refl in
    let same = some-injective (n, q ∷ more) (m, qids) e in
    sym (ap (λ r. length r.1) same) ∙ ap suc l

module _ {W N : Type 0} (nodes : Nodes W N) where
  -- The child of a node under a name, if the node is a directory.
  unfoldable child_of : W → N → Kind → Text → Option N
  child_of w n k name = if is_dir k then nodes.child w n name else none

  -- The node at the end of a path and the qids of the nodes on the way, if every name is there.
  unfoldable pub resolve : W → N → List Text → Option (N × List Qid)
  unfolding child_of and_then cons_qid
  resolve w n [] = some (n, [])
  resolve w n (name ∷ names) =
      and_then (child_of w n (nodes.kind n) name)
        (λ m. cons_qid (nodes.stat w m).qid (resolve w m names))

  module _ (fs : FileSystem W N) (no_hook : fs.walk_fail ≡ none) where
    unfoldable looked_up : W → Option N → Result N × W
    looked_up w (some m) = (ok m, w)
    looked_up w none = (err (bytes "No such path"), w)

    unfoldable pub walked : List Qid → W → Option (N × List Qid) → Walked N × W
    walked qids w (some (m, more)) = (arrived m (qids ++ more), w)
    walked qids w none = (stopped (bytes "No such path"), w)

    found_child-looked_up :
        (o : Option N) (n : N) (k : Kind) (name : Text) (w : W)
        → found_child nodes fs o n k name w ≡ looked_up w o
    unfolding found_child missing looked_up
    found_child-looked_up (some m) n k name w = refl
    found_child-looked_up none n k name w = ap (λ h. missing nodes fs h n k name w) no_hook

    walk_one-child_of :
        (k : Kind) (n : N) (name : Text) (w : W)
        → walk_one nodes fs n k name w ≡ looked_up w (child_of w n k name)
    unfolding walk_one find_child child_of looked_up
    walk_one-child_of mod_dir n name w =
        found_child-looked_up (nodes.child w n name) n mod_dir name w
    walk_one-child_of plain_dir n name w =
        found_child-looked_up (nodes.child w n name) n plain_dir name w
    walk_one-child_of file n name w = refl
    walk_one-child_of other n name w = refl

    walked-cons_qid :
        (q : Qid) (qids : List Qid) (w : W) (o : Option (N × List Qid))
        → walked (qids ++ (q ∷ [])) w o ≡ walked qids w (cons_qid q o)
    unfolding walked cons_qid
    walked-cons_qid q qids w none = refl
    walked-cons_qid q qids w (some (m, more)) =
        ap (λ l. (arrived m l, w)) (append_assoc qids (q ∷ []) more)

    walk_on-and_then :
        (again : N → List Qid → W → Walked N × W) (rest : N → Option (N × List Qid))
        (qids : List Qid) (w : W)
        → ((m : N) (qids : List Qid) → again m qids w ≡ walked qids w (rest m))
        → (o : Option N)
        → walk_on nodes fs again qids (looked_up w o)
          ≡ walked qids w (and_then o (λ m. cons_qid (nodes.stat w m).qid (rest m)))
    unfolding walk_on looked_up and_then walked
    walk_on-and_then again rest qids w h none = refl
    walk_on-and_then again rest qids w h (some m) =
        h m (qids ++ ((nodes.stat w m).qid ∷ []))
        ∙ walked-cons_qid (nodes.stat w m).qid qids w (rest m)

    walk_loop-resolve :
        (names : List Text) (n : N) (qids : List Qid) (w : W)
        → walk_loop nodes fs (length names) names n qids w ≡ walked qids w (resolve w n names)
    unfolding walk_loop resolve walked
    walk_loop-resolve [] n qids w = ap (λ q. (arrived n q, w)) (sym (append-nil qids))
    walk_loop-resolve (name ∷ names) n qids w =
        ap (walk_on nodes fs (walk_loop nodes fs (length names) names) qids)
          (walk_one-child_of (nodes.kind n) n name w)
        ∙ walk_on-and_then (walk_loop nodes fs (length names) names) (λ m. resolve w m names) qids w
            (λ m l. walk_loop-resolve names m l w) (child_of w n (nodes.kind n) name)

  length-and_then :
      (rest : N → Option (N × List Qid)) (q : N → Qid) (k : ℕ)
      → ((n m : N) (qids : List Qid) → rest n ≡ some (m, qids) → length qids ≡ k)
      → (o : Option N) (m : N) (qids : List Qid)
      → and_then o (λ n. cons_qid (q n) (rest n)) ≡ some (m, qids)
      → length qids ≡ suc k
  unfolding and_then
  length-and_then rest q k h none m qids e = ground arith
  length-and_then rest q k h (some n) m qids e = length-cons_qid (q n) k (rest n) (h n) m qids e

  pub length-resolve :
      (names : List Text) (w : W) (n m : N) (qids : List Qid)
      → resolve w n names ≡ some (m, qids)
      → length qids ≡ length names
  unfolding resolve
  length-resolve [] w n m qids e = sym (ap (λ r. length r.1) (some-injective (n, []) (m, qids) e))
  length-resolve (name ∷ names) w n m qids e =
      length-and_then (λ m. resolve w m names) (λ m. (nodes.stat w m).qid) (length names)
        (λ n m l. length-resolve names w n m l) (child_of w n (nodes.kind n) name) m qids e

  -- What a walk of `names` from the fid `info` replies, by the node that the names resolve to.
  unfoldable pub walk_result : TWalk → FidInfo N → State W N → Option (N × List Qid) → Step W N
  walk_result t info s none = (error_reply t.header.tag (bytes "No such path"), s)
  walk_result t info s (some (m, qids)) = (
    reply (
        rwalk (record {
          header = record { type = rwalk_type; tag = t.header.tag };
          nwqid = t.nwname;
          wqid = qids;
        })),
    record s {
      conn = store s.conn t.newfid (record {
        n = m;
        open_mode = omode_none;
        open_offset = 0;
        uname = info.uname;
        extra = nothing;
      });
    },
  )

  walk_result_with : TWalk → FidInfo N → State W N → ℕ → N → List Qid → Step W N
  walk_result_with t info s count m qids = (
    reply (
        rwalk (record {
          header = record { type = rwalk_type; tag = t.header.tag };
          nwqid = count;
          wqid = qids;
        })),
    record s {
      conn = store s.conn t.newfid (record {
        n = m;
        open_mode = omode_none;
        open_offset = 0;
        uname = info.uname;
        extra = nothing;
      });
    },
  )

  module _ (fs : FileSystem W N) (no_hook : fs.walk_fail ≡ none) where
    walk_end-walked :
        (t : TWalk) (info : FidInfo N) (s : State W N) (o : Option (N × List Qid))
        → ((m : N) (qids : List Qid) → o ≡ some (m, qids) → length qids ≡ t.nwname)
        → t.nwname < 2 ^ 16
        → walk_end nodes fs t info s (walked fs no_hook [] s.world o) ≡ walk_result t info s o
    unfolding derive_info walk_end arrive walk_reply walked walk_result walk_result_with
    walk_end-walked t info s none h small = refl
    walk_end-walked t info s (some (m, qids)) h small =
        let len = h m qids refl in
        let count : length qids % 2 ^ 16 ≡ t.nwname = omega arith in
        ap (λ c. walk_result_with t info s c m qids) count

    walk_path-resolve :
        (t : TWalk) (info : FidInfo N) (s : State W N)
        → t.nwname ≡ length t.wname
        → t.nwname < 2 ^ 16
        → walk_path nodes fs t info s ≡ walk_result t info s (resolve s.world info.n t.wname)
    unfolding walk_path
    walk_path-resolve t info s e small =
        ap (λ k. walk_end nodes fs t info s (walk_loop nodes fs k t.wname info.n [] s.world)) e
        ∙ ap (walk_end nodes fs t info s) (walk_loop-resolve fs no_hook t.wname info.n [] s.world)
        ∙ walk_end-walked t info s (resolve s.world info.n t.wname)
            (λ m qids r. length-resolve t.wname s.world info.n m qids r ∙ sym e) small

    walk_first-path :
        (t : TWalk) (info : FidInfo N) (k : ℕ) (names : List Text) (s : State W N)
        → k ≡ length names
        → starts_with_dots names ≡ false
        → walk_first nodes fs t info k names s ≡ walk_path nodes fs t info s
    unfolding walk_first walk_dots starts_with_dots
    walk_first-path t info zero names s e plain = refl
    walk_first-path t info (suc k) [] s e plain = ground arith
    walk_first-path t info (suc k) (first ∷ names) s e plain = ground arith

    -- A Twalk from a bound fid whose names do not start with `..` or `.` resolves them in the tree:
    -- if all are there, it binds newfid to the node at the end, with the fid's user and not
    -- open, and replies one qid for each name; else it replies "No such path" and changes
    -- nothing. The file system has no WalkFail hook.
    pub walk-resolve :
        (t : TWalk) (info : FidInfo N) (s : State W N)
        → s.conn.fids t.fid ≡ some info
        → t.nwname ≡ length t.wname
        → t.nwname < 2 ^ 16
        → starts_with_dots t.wname ≡ false
        → walk nodes fs t s ≡ walk_result t info s (resolve s.world info.n t.wname)
    unfolding walk walk_info
    walk-resolve t info s bound e small plain =
        ap (λ i. walk_info nodes fs t i s) bound
        ∙ walk_first-path t info t.nwname t.wname s e plain
        ∙ walk_path-resolve t info s e small
