-- ===== src/Base/Bits.antt =====
-- `&` and `|` of Go on masks, as arithmetic.
use Prim.Native.Nat.{
  ℕ, zero, suc, ◌+◌, ◌*◌, ◌/◌, ◌%◌, ◌≤◌, ◌<◌, min, max, bit_and, bit_or, digits, bit_and-bitwise,
  bit_or-bitwise, ◌-◌, ◌^◌,
}
use mathlib.Core.Path.{◌≡◌, refl, sym, ap, ◌∙◌}
use native.Mathlib.Omega.{arith}
use native.Mathlib.Nat.{le_refl}

module _ (base : ℕ → ℕ) (op : ℕ → ℕ → ℕ) where
  -- Fuel for the value of the first operand is enough, and any more of it changes nothing.
  digits-enough : (x y : ℕ) (m n : ℕ) → x ≤ m → x ≤ n → digits base op m x y ≡ digits base op n x y
  digits-enough zero y zero zero hm hn = refl
  digits-enough zero y zero (suc n) hm hn = refl
  digits-enough zero y (suc m) zero hm hn = refl
  digits-enough zero y (suc m) (suc n) hm hn = refl
  digits-enough (suc x) y zero n hm hn = absurd (omega arith)
  digits-enough (suc x) y (suc m) zero hm hn = absurd (omega arith)
  digits-enough (suc x) y (suc m) (suc n) hm hn =
      omega (arith, digits-enough (suc x / 2) (y / 2) m n (omega arith) (omega arith))

bit_and_halves : (x y : ℕ) → bit_and x y ≡ bit_and (x / 2) (y / 2) * 2 + min (x % 2) (y % 2)
bit_and_halves zero y = omega (arith, bit_and-bitwise 0 y, bit_and-bitwise 0 (y / 2))
bit_and_halves (suc x) y =
    let tail =
      digits-enough (λ _. 0) min (suc x / 2) (y / 2) x (suc x / 2) (omega arith) (omega arith) in
    omega (arith, bit_and-bitwise (suc x) y, bit_and-bitwise (suc x / 2) (y / 2), tail)

bit_or_halves : (x y : ℕ) → bit_or x y ≡ bit_or (x / 2) (y / 2) * 2 + max (x % 2) (y % 2)
bit_or_halves zero y = omega (arith, bit_or-bitwise 0 y, bit_or-bitwise 0 (y / 2))
bit_or_halves (suc x) y =
    let tail =
      digits-enough (λ y. y) max (suc x / 2) (y / 2) x (suc x / 2) (omega arith) (omega arith) in
    omega (arith, bit_or-bitwise (suc x) y, bit_or-bitwise (suc x / 2) (y / 2), tail)

-- Three bits at a time: an octal digit of ones or of zeros at the end of the mask.
and_ones : (x m : ℕ) → bit_and x (m * 8 + 7) ≡ bit_and (x / 8) m * 8 + x % 8
and_ones x m =
    let a = bit_and_halves x (m * 8 + 7) in
    let b = bit_and_halves (x / 2) ((m * 8 + 7) / 2) in
    let c = bit_and_halves (x / 2 / 2) ((m * 8 + 7) / 2 / 2) in
    let x8 : x / 2 / 2 / 2 ≡ x / 8 = omega arith in
    let m8 : (m * 8 + 7) / 2 / 2 / 2 ≡ m = omega arith in
    let d = ap (λ x. bit_and x ((m * 8 + 7) / 2 / 2 / 2)) x8 ∙ ap (bit_and (x / 8)) m8 in
    omega (arith, a, b, c, d)

and_zeros : (x m : ℕ) → bit_and x (m * 8) ≡ bit_and (x / 8) m * 8
and_zeros x m =
    let a = bit_and_halves x (m * 8) in
    let b = bit_and_halves (x / 2) ((m * 8) / 2) in
    let c = bit_and_halves (x / 2 / 2) ((m * 8) / 2 / 2) in
    let x8 : x / 2 / 2 / 2 ≡ x / 8 = omega arith in
    let m8 : (m * 8) / 2 / 2 / 2 ≡ m = omega arith in
    let d = ap (λ x. bit_and x ((m * 8) / 2 / 2 / 2)) x8 ∙ ap (bit_and (x / 8)) m8 in
    omega (arith, a, b, c, d)

or_octal : (h y : ℕ) → bit_or (h * 8) y ≡ bit_or h (y / 8) * 8 + y % 8
or_octal h y =
    let a = bit_or_halves (h * 8) y in
    let b = bit_or_halves (h * 8 / 2) (y / 2) in
    let c = bit_or_halves (h * 8 / 2 / 2) (y / 2 / 2) in
    let h8 : h * 8 / 2 / 2 / 2 ≡ h = omega arith in
    let y8 : y / 2 / 2 / 2 ≡ y / 8 = omega arith in
    let d = ap (λ h. bit_or h (y / 2 / 2 / 2)) h8 ∙ ap (bit_or h) y8 in omega (arith, a, b, c, d)

and_zero : (x : ℕ) (n : ℕ) → x ≤ n → bit_and x 0 ≡ 0
and_zero zero n h = refl
and_zero (suc x) zero h = absurd (omega arith)
and_zero (suc x) (suc n) h =
    omega (arith, bit_and_halves (suc x) 0, and_zero (suc x / 2) n (omega arith))

-- A number of k ones in binary.
unfoldable ones : ℕ → ℕ
ones zero = 0
ones (suc k) = ones k * 2 + 1

and-ones : (k x : ℕ) → x ≤ ones k → bit_and x (ones k) ≡ x
unfolding ones
and-ones zero x h = omega (arith, and_zero x x (le_refl x))
and-ones (suc k) x h =
    let a = bit_and_halves x (ones k * 2 + 1) in
    let half : (ones k * 2 + 1) / 2 ≡ ones k = omega arith in
    let rest = ap (bit_and (x / 2)) half ∙ and-ones k (x / 2) (omega arith) in
    omega (arith, a, rest)

or_zero : (x : ℕ) (n : ℕ) → x ≤ n → bit_or x 0 ≡ x
or_zero zero n h = refl
or_zero (suc x) zero h = absurd (omega arith)
or_zero (suc x) (suc n) h =
    omega (arith, bit_or_halves (suc x) 0, or_zero (suc x / 2) n (omega arith))

pub low_nine : (x : ℕ) → bit_and x 0x1FF ≡ x % 512
low_nine x = omega (
  arith,
  and_ones x 63,
  and_ones (x / 8) 7,
  and_ones (x / 8 / 8) 0,
  and_zero (x / 8 / 8 / 8) _ (le_refl _),
)

pub above_nine : (x : ℕ) → x < 2 ^ 32 → bit_and x (2 ^ 32 - 512) ≡ x / 512 * 512
unfolding ones
above_nine x h =
    let mask : ones 23 ≡ 2 ^ 23 - 1 = refl in
    let top = and-ones 23 (x / 8 / 8 / 8) (omega (arith, mask)) in
    let top' = ap (bit_and (x / 8 / 8 / 8)) (sym mask) ∙ top in
    omega (
      arith,
      and_zeros x ((2 ^ 23 - 1) * 64),
      and_zeros (x / 8) ((2 ^ 23 - 1) * 8),
      and_zeros (x / 8 / 8) (2 ^ 23 - 1),
      top',
    )

-- The low nine bits of one number and the others of another.
pub or_nine : (h l : ℕ) → l < 512 → bit_or (h * 512) l ≡ h * 512 + l
or_nine h l small =
    let regroup : h * 512 ≡ h * 64 * 8 = omega arith in
    let regroup' : h * 64 ≡ h * 8 * 8 = omega arith in
    let none_left : l / 8 / 8 / 8 ≡ 0 = omega arith in
    let a = ap (λ x. bit_or x l) regroup ∙ or_octal (h * 64) l in
    let b = ap (λ x. bit_or x (l / 8)) regroup' ∙ or_octal (h * 8) (l / 8) in
    let c = or_octal h (l / 8 / 8) in
    let d = ap (bit_or h) none_left ∙ or_zero h h (le_refl h) in omega (arith, a, b, c, d)

pub low_three : (x : ℕ) → bit_and x 0x7 ≡ x % 8
low_three x = omega (arith, and_ones x 0, and_zero (x / 8) (x / 8) (le_refl _))

-- A single bit.
pub bit_zero : (x : ℕ) → bit_and x 0x1 ≡ x % 2
bit_zero x = omega (arith, bit_and_halves x 1, and_zero (x / 2) (x / 2) (le_refl _))

pub bit_one : (x : ℕ) → bit_and x 0x2 ≡ x / 2 % 2 * 2
bit_one x = omega (arith, bit_and_halves x 2, bit_zero (x / 2))

pub bit_two : (x : ℕ) → bit_and x 0x4 ≡ x / 4 % 2 * 4
bit_two x = omega (arith, bit_and_halves x 4, bit_one (x / 2))
