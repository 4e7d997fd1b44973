-- ===== src/Base/Elements.antt =====
-- `get_elem?` of the list functions.
use Prim.Native.Nat.{ℕ, zero, suc, ◌+◌, ◌-◌, ◌≤◌}
use mathlib.Core.Path.{◌≡◌, refl, ap, ap₂, ◌∙◌}
use mathlib.Core.List.{List, [], ◌∷◌, ◌++◌}
use mathlib.Core.Option.{Option, none, some, some-injective}
use native.Mathlib.Omega.{arith}
use go9p.Base.Tests.{ltb, if◌then◌else◌}
use go9p.Base.Lists.{length, take, drop, get_elem?, replicate}

module _ {ℓ} {A : Type ℓ} where
  pub get_elem?-none : (xs : List A) (i : ℕ) → length xs ≤ i → get_elem? xs i ≡ none
  get_elem?-none [] i h = refl
  get_elem?-none (x ∷ xs) zero h = absurd (omega arith)
  get_elem?-none (x ∷ xs) (suc i) h = get_elem?-none xs i (omega arith)

  at_suc :
      (i n : ℕ) (a b : Option A)
      → (if ltb i n then a else b) ≡ (if ltb (suc i) (suc n) then a else b)
  at_suc i n a b = ground arith

  pub get_elem?-append :
      (xs ys : List A) (i : ℕ)
      → get_elem? (xs ++ ys) i
        ≡ (if ltb i (length xs) then get_elem? xs i else get_elem? ys (i - length xs))
  get_elem?-append [] ys i = ground arith
  get_elem?-append (x ∷ xs) ys zero = ground arith
  get_elem?-append (x ∷ xs) ys (suc i) =
      let e : i - length xs ≡ suc i - suc (length xs) = omega arith in
      get_elem?-append xs ys i
      ∙ ap (λ k. if ltb i (length xs) then get_elem? xs i else get_elem? ys k) e
      ∙ at_suc i (length xs) _ _

  pub get_elem?-take :
      (n : ℕ) (xs : List A) (i : ℕ)
      → get_elem? (take n xs) i ≡ (if ltb i n then get_elem? xs i else none)
  get_elem?-take zero xs i = ground arith
  get_elem?-take (suc n) [] i = ground arith
  get_elem?-take (suc n) (x ∷ xs) zero = ground arith
  get_elem?-take (suc n) (x ∷ xs) (suc i) = get_elem?-take n xs i ∙ at_suc i n _ _

  pub get_elem?-drop :
      (n : ℕ) (xs : List A) (i : ℕ) → get_elem? (drop n xs) i ≡ get_elem? xs (n + i)
  get_elem?-drop zero xs i = let e : i ≡ 0 + i = omega arith in ap (get_elem? xs) e
  get_elem?-drop (suc n) [] i = refl
  get_elem?-drop (suc n) (x ∷ xs) i =
      let e : suc (n + i) ≡ suc n + i = omega arith in
      get_elem?-drop n xs i ∙ ap (get_elem? (x ∷ xs)) e

  pub get_elem?-replicate :
      (n : ℕ) (x : A) (i : ℕ) → get_elem? (replicate n x) i ≡ (if ltb i n then some x else none)
  get_elem?-replicate zero x i = ground arith
  get_elem?-replicate (suc n) x zero = ground arith
  get_elem?-replicate (suc n) x (suc i) = get_elem?-replicate n x i ∙ at_suc i n _ _

  -- Lists with the same elements at every index are equal.
  pub get_elem?-ext : (xs ys : List A) → ((i : ℕ) → get_elem? xs i ≡ get_elem? ys i) → xs ≡ ys
  get_elem?-ext [] [] h = refl
  get_elem?-ext [] (y ∷ ys) h = cc (h 0)
  get_elem?-ext (x ∷ xs) [] h = cc (h 0)
  get_elem?-ext (x ∷ xs) (y ∷ ys) h =
      ap₂ (λ z zs. z ∷ zs) (some-injective _ _ (h 0)) (get_elem?-ext xs ys (λ i. h (suc i)))
