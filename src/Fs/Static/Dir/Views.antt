-- ===== src/Fs/Static/Dir/Views.antt =====
-- What a write at one address leaves of the other objects, and how names are looked up.
use go9p.Base.{
  ℕ, List, [], ◌∷◌, ◌++◌, Option, none, some, Bool, true, false, ◌==◌, if◌then◌else◌, ◌≡◌, refl,
  sym, ap, ◌∙◌, same_text, Bool-cases, inl, inr, ==→eq, ==_refl,
}
use go9p.Fs.Result.{Text}
use go9p.Fs.Static.Dir.{
  Object, static_file, static_dir, Heap, object_name, with_parent, put, set_parent, later,
  child_named, node_name, children_of, with_children,
}

pub object_name-with_parent :
    (p : Option ℕ) (o : Object) → object_name (with_parent p o) ≡ object_name o
unfolding object_name with_parent
object_name-with_parent p (static_file f q) = refl
object_name-with_parent p (static_dir d) = refl

pub object_name-with_children :
    (cs : List ℕ) (o : Object) → object_name (with_children cs o) ≡ object_name o
unfolding object_name with_children
object_name-with_children cs (static_file f q) = refl
object_name-with_children cs (static_dir d) = refl

-- What a write at one address does not change of an object, it changes of none.
pub view-put :
    {B : Type 0} (view : Object → B) (h : Heap) (a : ℕ) (o : Object)
    → view o ≡ view (h a)
    → (k : ℕ) → view (put a o h k) ≡ view (h k)
unfolding put
view-put view h a o e k = elim (Bool-cases (k == a)) [
  | inl same ↦
      ap (λ b. view (if b then o else h k)) same ∙ e ∙ ap (λ k. view (h k)) (sym (==→eq k a same))
  | inr other ↦ ap (λ b. view (if b then o else h k)) other
]

pub put_here : (h : Heap) (a : ℕ) (o : Object) → put a o h a ≡ o
unfolding put
put_here h a o = ap (λ b. if b then o else h a) (==_refl a)

pub children_of-with_parent :
    (p : Option ℕ) (o : Object) → children_of (with_parent p o) ≡ children_of o
unfolding children_of with_parent
children_of-with_parent p (static_file f q) = refl
children_of-with_parent p (static_dir d) = refl

unfoldable pub is_dir : Object → Bool
is_dir (static_file f p) = false
is_dir (static_dir d) = true

pub is_dir-with_parent : (p : Option ℕ) (o : Object) → is_dir (with_parent p o) ≡ is_dir o
unfolding is_dir with_parent
is_dir-with_parent p (static_file f q) = refl
is_dir-with_parent p (static_dir d) = refl

pub children_of-with_children :
    (cs : List ℕ) (o : Object) → is_dir o ≡ true → children_of (with_children cs o) ≡ cs
unfolding is_dir children_of with_children
children_of-with_children cs (static_file f q) e = absurd cc
children_of-with_children cs (static_dir d) e = refl

pub node_name-set_parent :
    (h : Heap) (p : Option ℕ) (n k : ℕ) → node_name (set_parent p n h) k ≡ node_name h k
unfolding set_parent
node_name-set_parent h p n k =
    view-put object_name h n (with_parent p (h n)) (object_name-with_parent p (h n)) k

pub child_named-ext :
    (names names' : ℕ → Text) (cs : List ℕ) (name : Text)
    → ((k : ℕ) → names k ≡ names' k)
    → child_named names cs name ≡ child_named names' cs name
unfolding child_named
child_named-ext names names' [] name e = refl
child_named-ext names names' (c ∷ cs) name e =
    ap (λ o. later o (if same_text (names c) name then some c else none))
      (child_named-ext names names' cs name e)
    ∙ ap (λ t. later (child_named names' cs name) (if same_text t name then some c else none)) (e c)

pub later_again : (a b : Option ℕ) (o : Option ℕ) → later (later a b) o ≡ later a (later b o)
unfolding later
later_again none b o = refl
later_again (some n) b o = refl

pub later-none : (o : Option ℕ) → later o none ≡ o
unfolding later
later-none none = refl
later-none (some n) = refl

pub child_named-append :
    (names : ℕ → Text) (cs ds : List ℕ) (name : Text)
    → child_named names (cs ++ ds) name
      ≡ later (child_named names ds name) (child_named names cs name)
unfolding child_named
child_named-append names [] ds name = sym (later-none (child_named names ds name))
child_named-append names (c ∷ cs) ds name =
    ap (λ o. later o (if same_text (names c) name then some c else none))
      (child_named-append names cs ds name)
    ∙ later_again (child_named names ds name) (child_named names cs name) _
