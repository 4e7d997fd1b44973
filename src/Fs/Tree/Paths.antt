-- ===== src/Fs/Tree/Paths.antt =====
-- FullPath of a node in a tree whose names have no slash.
use go9p.Base.{
  ℕ, zero, suc, ◌<◌, List, [], ◌∷◌, ◌++◌, length, none, some, false, ◌==◌, ◌≡◌, refl, sym, ap, ◌∙◌,
  arith, append-nil, append_assoc, length-append,
}
use go9p.Fs.Result.{Text}
use go9p.Fs.Nodes.{Nodes}
use go9p.Fs.Tree.{replace_slashes, below, path_to, full_path}

-- A name that is not empty and has no slash.
abbrev pub Plain : Text → Type 0
Plain [] = Unit
Plain (b ∷ bs) = ((b == 47) ≡ false) × Plain bs

abbrev pub IsName : Text → Type 0
IsName [] = ⊥
IsName (b ∷ bs) = Plain (b ∷ bs)

replace_slashes-Plain :
    (b : ℕ) (bs rest : Text)
    → Plain (b ∷ bs)
    → replace_slashes ((b ∷ bs) ++ (47 ∷ rest)) ≡ (b ∷ bs) ++ replace_slashes (47 ∷ rest)
unfolding replace_slashes
replace_slashes-Plain b [] rest p = rw (p.0) refl
replace_slashes-Plain b (c ∷ bs) rest p =
    rw (p.0) (ap (λ t. b ∷ t) (replace_slashes-Plain c bs rest p.1))

replace_slashes-end : (b : ℕ) (bs : Text) → Plain (b ∷ bs) → replace_slashes (b ∷ bs) ≡ b ∷ bs
unfolding replace_slashes
replace_slashes-end b [] p = refl
replace_slashes-end b (c ∷ bs) p = rw (p.0) (ap (λ t. b ∷ t) (replace_slashes-end c bs p.1))

-- The path with a slash before each name.
abbrev pub slashed : List Text → Text
slashed [] = []
slashed (name ∷ names) = (47 ∷ name) ++ slashed names

abbrev pub AllNames : List Text → Type 0
AllNames [] = Unit
AllNames (name ∷ names) = IsName name × AllNames names

replace_slashes-slashed :
    (names : List Text) → AllNames names → replace_slashes (slashed names) ≡ slashed names
unfolding replace_slashes
replace_slashes-slashed [] a = refl
replace_slashes-slashed ([] ∷ names) a = absurd a.0
replace_slashes-slashed ((b ∷ bs) ∷ []) a =
    rw (append-nil bs, a.0.0) (ap (λ t. 47 ∷ t) (replace_slashes-end b bs a.0))
replace_slashes-slashed ((b ∷ bs) ∷ (name ∷ names)) a = rw (a.0.0) (
    ap (λ t. 47 ∷ t)
      (replace_slashes-Plain b bs (name ++ slashed names) a.0
        ∙ ap (λ t. (b ∷ bs) ++ t) (replace_slashes-slashed (name ∷ names) a.1)))

slashed-snoc :
    (names : List Text) (name : Text)
    → slashed (names ++ (name ∷ [])) ≡ slashed names ++ (47 ∷ name)
slashed-snoc [] name = append-nil (47 ∷ name)
slashed-snoc (x ∷ names) name =
    ap (λ t. (47 ∷ x) ++ t) (slashed-snoc names name)
    ∙ sym (append_assoc (47 ∷ x) (slashed names) (47 ∷ name))

AllNames-snoc :
    (names : List Text) (name : Text)
    → AllNames names
    → IsName name
    → AllNames (names ++ (name ∷ []))
AllNames-snoc [] name a h = (h, tt)
AllNames-snoc (x ∷ names) name a h = (a.0, AllNames-snoc names name a.1 h)

-- The path of a node by the names from the root to it.
abbrev pub path_of : List Text → Text
path_of [] = 47 ∷ []
path_of (name ∷ names) = slashed (name ∷ names)

path_of-snoc :
    (names : List Text) (name : Text)
    → path_of (names ++ (name ∷ [])) ≡ slashed (names ++ (name ∷ []))
path_of-snoc [] name = refl
path_of-snoc (x ∷ names) name = refl

-- One step down.
replace_slashes-step :
    (names : List Text) (name : Text)
    → AllNames names
    → IsName name
    → replace_slashes (path_of names ++ (47 ∷ name)) ≡ path_of (names ++ (name ∷ []))
unfolding replace_slashes
replace_slashes-step [] [] a h = absurd h
replace_slashes-step [] (b ∷ bs) a h =
    ap (λ t. 47 ∷ t) (replace_slashes-end b bs h ∙ sym (append-nil (b ∷ bs)))
replace_slashes-step (x ∷ names) name a h =
    ap replace_slashes (sym (slashed-snoc (x ∷ names) name))
    ∙ replace_slashes-slashed ((x ∷ names) ++ (name ∷ [])) (AllNames-snoc (x ∷ names) name a h)

module _ {W N : Type 0} (nodes : Nodes W N) (w : W) where
  -- The names on the way from the root, which is called "/", to a node.
  pub data Lies : N → List Text → Type 0 where
    at_root : (n : N) → nodes.parent w n ≡ none → (nodes.stat w n).name ≡ 47 ∷ [] → Lies n []
    under :
        (n p : N) (names : List Text)
        → nodes.parent w n ≡ some p
        → IsName (nodes.stat w n).name
        → Lies p names
        → Lies n (names ++ ((nodes.stat w n).name ∷ []))

  Lies-AllNames : (n : N) (names : List Text) → Lies n names → AllNames names
  Lies-AllNames _ _ (at_root n e s) = tt
  Lies-AllNames _ _ (under n p names e h l) =
      AllNames-snoc names (nodes.stat w n).name (Lies-AllNames p names l) h

  -- FullPath of a node below a root called "/", where the names on the way are not empty and have no
  -- slash, is those names, each with one slash before it, and "/" for the root itself. It ends
  -- within one call more than there are names.
  pub full_path-path_of :
      (n : N) (names : List Text) (fuel : ℕ)
      → Lies n names
      → length names < fuel
      → full_path nodes fuel w n ≡ some (path_of names)
  unfolding full_path path_to
  full_path-path_of _ _ zero (at_root n e s) h = absurd (omega arith)
  full_path-path_of _ _ (suc fuel) (at_root n e s) h = rw e (ap some s)
  full_path-path_of _ _ zero (under n p names e k l) h = absurd (omega arith)
  full_path-path_of _ _ (suc fuel) (under n p names e k l) h =
      let name = (nodes.stat w n).name in
      rw e (
        ap (below name)
          (full_path-path_of p names fuel l (omega (arith, h, length-append names (name ∷ []))))
        ∙ ap some (replace_slashes-step names name (Lies-AllNames p names l) k))
