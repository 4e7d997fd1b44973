-- ===== src/Fs/Static/Create/Fresh.antt =====
-- A node that is created is found under its name.
use go9p.Base.{
  ℕ, ◌+◌, ◌/◌, ◌%◌, ◌^◌, ◌<◌, List, [], ◌∷◌, ◌++◌, All, Option, none, some, Bool, true, false,
  if◌then◌else◌, ◌≡◌, refl, ap, ◌∙◌, arith, bytes, same_text,
}
use go9p.Fs.Result.{Text, ok, err}
use go9p.Fs.Nodes.{Created}
use go9p.Fs.Static.File.{new_static_file}
use go9p.Fs.Static.Dir.{
  Object, static_file, Heap, object_name, put, child_named, node_name, children_of, child, later,
}
use go9p.Fs.Static.Dir.Views.{is_dir, put_here}
use go9p.Fs.Static.Dir.Children.{child-with_child, is_some, with_child, add_child-result}
use go9p.Fs.Static.Create.{World, new_qid, new_stat, placed, place, create_static_file}

put_elsewhere : (h : Heap) (a : ℕ) (o : Object) (k : ℕ) → k < a → put a o h k ≡ h k
unfolding put
put_elsewhere h a o k lt = ground arith

child_named-below :
    (names names' : ℕ → Text) (bound : ℕ) (cs : List ℕ) (name : Text)
    → All (λ c. c < bound) cs
    → ((k : ℕ) → k < bound → names k ≡ names' k)
    → child_named names cs name ≡ child_named names' cs name
unfolding child_named
child_named-below names names' bound [] name h e = refl
child_named-below names names' bound (c ∷ cs) name (lt, h) e =
    ap (λ o. later o (if same_text (names c) name then some c else none))
      (child_named-below names names' bound cs name h e)
    ∙ ap (λ t. later (child_named names' cs name) (if same_text t name then some c else none))
        (e c lt)

-- The directory and its children have been allocated.
pub record Allocated (w : World) (d : ℕ) : Type 0 where
  pub dir : is_dir (w.heap d) ≡ true
  pub below : d < w.next
  pub children : All (λ c. c < w.next) (children_of (w.heap d))

child-put :
    (w : World) (d : ℕ) (o : Object) (name : Text)
    → Allocated w d
    → child (put w.next o w.heap) d name ≡ child w.heap d name
unfolding child
child-put w d o name a =
    let h : Heap = put w.next o w.heap in
    ap (λ o. child_named (node_name h) (children_of o) name)
      (put_elsewhere w.heap w.next o d a.below)
    ∙ child_named-below (node_name h) (node_name w.heap) w.next (children_of (w.heap d)) name
        a.children (λ k lt. ap object_name (put_elsewhere w.heap w.next o k lt))

-- What a Create hook returns: the new node is a child of the directory, if the name was free; if it
-- was taken, there is an error and no node.
unfoldable pub creation : World → ℕ → Object → Created ℕ × World
creation w d o =
    if is_some (child w.heap d (object_name o))
    then (
      err (object_name o ++ bytes " already exists"),
      record w { heap = put w.next o w.heap; next = w.next + 1 },
    )
    else (
      ok (some w.next),
      record w { heap = with_child (put w.next o w.heap) d w.next; next = w.next + 1 },
    )

placed-either :
    (w : World) (n : ℕ) (b : Bool) (e : Text) (h h' : Heap)
    → placed w n (if b then (err e, h) else (ok tt, h'))
      ≡ (if b then (err e, record w { heap = h }) else (ok (some n), record w { heap = h' }))
unfolding placed
placed-either w n true e h h' = refl
placed-either w n false e h h' = refl

place-creation : (w : World) (d : ℕ) (o : Object) → Allocated w d → place w d o ≡ creation w d o
unfolding place creation
place-creation w d o a =
    let n = w.next in
    let h : Heap = put n o w.heap in
    let w' : World = record w { next = n + 1 } in
    let grown : Text → Option ℕ → Created ℕ × World = λ name taken. placed w' n (
      if is_some taken
      then (err (name ++ bytes " already exists"), h)
      else (ok tt, with_child h d n)) in
    let same : node_name h n ≡ object_name o = ap object_name (put_here w.heap n o) in
    ap (placed w' n) (add_child-result h d n)
    ∙ ap (λ name. grown name (child h d name)) same
    ∙ ap (grown (object_name o)) (child-put w d o (object_name o) a)
    ∙ placed-either w' n (is_some (child w.heap d (object_name o))) _ h (with_child h d n)

-- The file that a Create hook makes: empty, of the name and the permissions that the client gave,
-- owned by the user, the user's own group its group, with the next qid, made now.
abbrev pub new_file : ℕ → World → Text → Text → ℕ → Object
new_file now w user name perm =
    static_file
      (record {
        f_stat = record {
          type = 0;
          dev = 0;
          qid = record { qtype = perm / 2 ^ 24 % 2 ^ 8; vers = 0; uid = w.uid };
          mode = perm;
          atime = now % 2 ^ 32;
          mtime = now % 2 ^ 32;
          length = 0;
          name = name;
          uid = user;
          gid = user;
          muid = user;
        };
        contents = [];
      })
      none

-- CreateStaticFile in a directory whose nodes are allocated: if the name is free, a new empty file of
-- that name, mode, owner and group is a child of the directory, at the next address; if it is taken, the
-- hook returns an error, and no directory changes.
pub create_static_file-creation :
    (now : ℕ) (w : World) (d : ℕ) (user name : Text) (perm : ℕ)
    → Allocated w d
    → create_static_file now w d user name perm
      ≡ creation (record w { uid = (w.uid + 1) % 2 ^ 64 }) d (new_file now w user name perm)
unfolding create_static_file new_stat new_qid new_static_file
create_static_file-creation now w d user name perm a =
    place-creation (record w { uid = (w.uid + 1) % 2 ^ 64 }) d (new_file now w user name perm)
      (record { dir = a.dir; below = a.below; children = a.children })

child-created :
    (w : World) (d : ℕ) (o : Object) (name : Text)
    → Allocated w d
    → child (with_child (put w.next o w.heap) d w.next) d name
      ≡ (if same_text (object_name o) name then some w.next else child w.heap d name)
child-created w d o name a =
    let h : Heap = put w.next o w.heap in
    let dir : is_dir (h d) ≡ true = ap is_dir (put_elsewhere w.heap w.next o d a.below) ∙ a.dir in
    child-with_child h d w.next name dir
    ∙ ap (λ t. if same_text t name then some w.next else child h d name)
        (ap object_name (put_here w.heap w.next o))
    ∙ ap (λ c. if same_text (object_name o) name then some w.next else c) (child-put w d o name a)

-- CreateStaticFile of a name that is free succeeds: afterwards the directory has the new node under
-- the name, and under every other name what it had. The directory and its children are allocated.
create_static_file-child :
    (now : ℕ) (w : World) (d : ℕ) (user name : Text) (perm : ℕ)
    → Allocated w d
    → child w.heap d name ≡ none
    → (w' : World) × (create_static_file now w d user name perm ≡ (ok (some w.next), w'))
      × ((other : Text)
          → child w'.heap d other
            ≡ (if same_text name other then some w.next else child w.heap d other))
unfolding creation is_some object_name
create_static_file-child now w d user name perm a free =
    let o = new_file now w user name perm in
    let w₁ : World = record w { uid = (w.uid + 1) % 2 ^ 64 } in
    (
      record w₁ { heap = with_child (put w.next o w.heap) d w.next; next = w.next + 1 },
      create_static_file-creation now w d user name perm a
          ∙ ap
              (λ b.
                if b
                then (
                  err (name ++ bytes " already exists"),
                  record w₁ { heap = put w.next o w.heap; next = w.next + 1 },
                )
                else (
                  ok (some w.next),
                  record w₁ { heap = with_child (put w.next o w.heap) d w.next; next = w.next + 1 },
                ))
              (ap is_some free),
      (λ other. child-created w d o other a),
    )
