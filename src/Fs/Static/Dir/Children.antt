-- ===== src/Fs/Static/Dir/Children.antt =====
-- What a directory holds after AddChild and DeleteChild.
use go9p.Base.{
  ℕ, List, [], ◌∷◌, ◌++◌, Option, none, some, Bool, true, false, ◌||◌, if◌then◌else◌, ◌≡◌, ◌≢◌,
  refl, sym, ap, ◌∙◌, same_text, same_text→eq, past_error, bytes,
}
use go9p.Fs.Result.{Text, Result, ok, err}
use go9p.Fs.Static.Dir.{
  Object, Heap, object_name, with_parent, put, set_parent, later, child_named, node_name,
  children_of, child, has_name, with_children, add_child, stay, orphan, delete_child,
}
use go9p.Fs.Static.Dir.Views.{
  object_name-with_children, view-put, put_here, children_of-with_parent, is_dir,
  is_dir-with_parent, children_of-with_children, node_name-set_parent, child_named-ext, later-none,
  child_named-append,
}

error_is_no_success :
    (why : Text) (h h' : Heap) → ◌≢◌ {A = Result (Unit {0}) × Heap} (err why, h) (ok tt, h')
error_is_no_success why h h' e = cc

either_heap :
    {B : Type 0} (view : Object → B) (b : Bool) (x y : Heap) (k : ℕ)
    → view (x k) ≡ view (y k)
    → view ((if b then x else y) k) ≡ view (y k)
either_heap view true x y k e = e
either_heap view false x y k e = refl

none_either : (b : Bool) → ◌≡◌ {A = Option ℕ} none (if b then none else none)
none_either true = refl
none_either false = refl

-- The heap after an AddChild that succeeds.
abbrev pub with_child : Heap → ℕ → ℕ → Heap
with_child h d n =
    set_parent (some d) n (put d (with_children (children_of (h d) ++ (n ∷ [])) (h d)) h)

node_name-with_child : (h : Heap) (d n k : ℕ) → node_name (with_child h d n) k ≡ node_name h k
node_name-with_child h d n k =
    let cs = children_of (h d) ++ (n ∷ []) in
    node_name-set_parent (put d (with_children cs (h d)) h) (some d) n k
    ∙ view-put object_name h d (with_children cs (h d)) (object_name-with_children cs (h d)) k

children_of-with_child :
    (h : Heap) (d n : ℕ)
    → is_dir (h d) ≡ true
    → children_of (with_child h d n d) ≡ children_of (h d) ++ (n ∷ [])
unfolding set_parent
children_of-with_child h d n dir =
    let cs = children_of (h d) ++ (n ∷ []) in
    let h₁ : Heap = put d (with_children cs (h d)) h in
    view-put children_of h₁ n (with_parent (some d) (h₁ n))
      (children_of-with_parent (some d) (h₁ n)) d
    ∙ ap children_of (put_here h d (with_children cs (h d)))
    ∙ children_of-with_children cs (h d) dir

last_first :
    (b : Bool) (n : ℕ) (o : Option ℕ)
    → later (later none (if b then some n else none)) o ≡ (if b then some n else o)
unfolding later
last_first true n o = refl
last_first false n o = refl

pub child-with_child :
    (h : Heap) (d n : ℕ) (name : Text)
    → is_dir (h d) ≡ true
    → child (with_child h d n) d name
      ≡ (if same_text (node_name h n) name then some n else child h d name)
unfolding child child_named
child-with_child h d n name dir =
    child_named-ext (node_name (with_child h d n)) (node_name h) (children_of (with_child h d n d))
      name (node_name-with_child h d n)
    ∙ ap (λ cs. child_named (node_name h) cs name) (children_of-with_child h d n dir)
    ∙ child_named-append (node_name h) (children_of (h d)) (n ∷ []) name
    ∙ last_first (same_text (node_name h n) name) n
        (child_named (node_name h) (children_of (h d)) name)

-- After an AddChild that succeeds, the directory has the new node under its name, and under every
-- other name what it had.
pub add_child-child :
    (h h' : Heap) (d n : ℕ) (name : Text)
    → is_dir (h d) ≡ true
    → add_child h d n ≡ (ok tt, h')
    → child h' d name ≡ (if same_text (node_name h n) name then some n else child h d name)
unfolding add_child
add_child-child h h' d n name dir e =
    let (free, done) =
      past_error (has_name (node_name h) (children_of (h d)) (node_name h n)) _ _ _
        (error_is_no_success _ h h') e in
    ap (λ h'. child h' d name) (sym (ap (λ p. p.1) done)) ∙ child-with_child h d n name dir

-- The loop of DeleteChild keeps every name.
node_name-orphan :
    (names : ℕ → Text) (name : Text) (cs : List ℕ) (h : Heap) (k : ℕ)
    → node_name (orphan names name cs h) k ≡ node_name h k
unfolding orphan
node_name-orphan names name [] h k = refl
node_name-orphan names name (c ∷ cs) h k =
    node_name-orphan names name cs (if same_text (names c) name then set_parent none c h else h) k
    ∙ either_heap object_name (same_text (names c) name) (set_parent none c h) h k
        (node_name-set_parent h none c k)

is_dir-orphan :
    (names : ℕ → Text) (name : Text) (cs : List ℕ) (h : Heap) (k : ℕ)
    → is_dir (orphan names name cs h k) ≡ is_dir (h k)
unfolding orphan set_parent
is_dir-orphan names name [] h k = refl
is_dir-orphan names name (c ∷ cs) h k =
    is_dir-orphan names name cs (if same_text (names c) name then set_parent none c h else h) k
    ∙ either_heap is_dir (same_text (names c) name) (set_parent none c h) h k
        (view-put is_dir h c (with_parent none (h c)) (is_dir-with_parent none (h c)) k)

abbrev one : Bool → ℕ → Option ℕ
one m c = if m then some c else none

stay_one :
    (names : ℕ → Text) (name : Text) (left : List ℕ) (c : ℕ) (o : Option ℕ) (removed asked m : Bool)
    → (removed ≡ true → m ≡ asked)
    → (asked ≡ true → m ≡ removed)
    → child_named names left name ≡ (if asked then none else o)
    → later (child_named names left name) (one m c)
      ≡ later (child_named names left name) (one (same_text (names c) name) c)
    → child_named names (if removed then left else c ∷ left) name
      ≡ (if asked then none else later o (one m c))
unfolding child_named
stay_one names name left c o true true m f g ih e = ih
stay_one names name left c o true false m f g ih e =
    ih ∙ sym (later-none o) ∙ ap (λ m. later o (one m c)) (sym (f refl))
stay_one names name left c o false true m f g ih e =
    sym e
    ∙ ap (λ m. later (child_named names left name) (one m c)) (g refl)
    ∙ later-none (child_named names left name)
    ∙ ih
stay_one names name left c o false false m f g ih e = sym e ∙ ap (λ r. later r (one m c)) ih

child_named-stay :
    (names : ℕ → Text) (gone : Text) (cs : List ℕ) (name : Text)
    → child_named names (stay names gone cs) name
      ≡ (if same_text gone name then none else child_named names cs name)
unfolding child_named stay
child_named-stay names gone [] name = none_either (same_text gone name)
child_named-stay names gone (c ∷ cs) name =
    stay_one names name (stay names gone cs) c (child_named names cs name)
      (same_text (names c) gone) (same_text gone name) (same_text (names c) name)
      (λ e. ap (λ t. same_text t name) (same_text→eq (names c) gone e))
      (λ e. ap (same_text (names c)) (sym (same_text→eq gone name e)))
      (child_named-stay names gone cs name) refl

-- After a DeleteChild, the directory has nothing under the name, and under every other name what it
-- had.
pub delete_child-child :
    (h : Heap) (d : ℕ) (gone name : Text)
    → is_dir (h d) ≡ true
    → child (delete_child h d gone) d name ≡ (if same_text gone name then none else child h d name)
unfolding child delete_child
delete_child-child h d gone name dir =
    let cs = children_of (h d) in
    let h' : Heap = orphan (node_name h) gone cs h in
    let left = stay (node_name h) gone cs in
    let names : (k : ℕ) → node_name (delete_child h d gone) k ≡ node_name h k = λ k.
      view-put object_name h' d (with_children left (h' d)) (object_name-with_children left (h' d))
        k
      ∙ node_name-orphan (node_name h) gone cs h k in
    child_named-ext (node_name (delete_child h d gone)) (node_name h)
      (children_of (delete_child h d gone d)) name names
    ∙ ap (λ cs. child_named (node_name h) cs name)
        (ap children_of (put_here h' d (with_children left (h' d)))
          ∙ children_of-with_children left (h' d) (is_dir-orphan (node_name h) gone cs h d ∙ dir))
    ∙ child_named-stay (node_name h) gone cs name

unfoldable pub is_some : Option ℕ → Bool
is_some none = false
is_some (some n) = true

is_some-later : (r : Option ℕ) (m : Bool) (c : ℕ) → is_some (later r (one m c)) ≡ m || is_some r
unfolding is_some later
is_some-later none true c = refl
is_some-later none false c = refl
is_some-later (some n) true c = refl
is_some-later (some n) false c = refl

has_name-child_named :
    (names : ℕ → Text) (cs : List ℕ) (name : Text)
    → has_name names cs name ≡ is_some (child_named names cs name)
unfolding has_name child_named is_some
has_name-child_named names [] name = refl
has_name-child_named names (c ∷ cs) name =
    ap (λ b. same_text (names c) name || b) (has_name-child_named names cs name)
    ∙ sym (is_some-later (child_named names cs name) (same_text (names c) name) c)

-- AddChild fails exactly when the directory has a node under the name already, and then changes
-- nothing; else it succeeds.
pub add_child-result :
    (h : Heap) (d n : ℕ)
    → add_child h d n ≡ (
        if is_some (child h d (node_name h n))
        then (err (node_name h n ++ bytes " already exists"), h)
        else (ok tt, with_child h d n))
unfolding add_child child
add_child-result h d n =
    ap
      (λ b.
        if b
        then (err (node_name h n ++ bytes " already exists"), h)
        else (ok tt, with_child h d n))
      (has_name-child_named (node_name h) (children_of (h d)) (node_name h n))
