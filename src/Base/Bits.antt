-- ===== src/Base/Bits.antt =====
-- Masks and disjoint unions of bits as arithmetic, from the digit recursion of the native operations.
use Prim.Native.Nat.{
  ℕ, zero, suc, ◌+◌, ◌*◌, ◌/◌, ◌%◌, ◌^◌, ◌≤◌, ◌<◌, min, max, bit_and, bit_or, digits,
  bit_and-bitwise, bit_or-bitwise,
}
use mathlib.Core.Path.{◌≡◌, refl, sym, ap, ◌∙◌}
use native.Mathlib.Omega.{arith}
use native.Mathlib.Nat.{pow-suc}

-- For any treatment of a pair of digits, fuel beyond the first number changes nothing.
module _ (finish : ℕ → ℕ) (join : ℕ → ℕ → ℕ) where
  abbrev spent : ℕ → ℕ → ℕ → ℕ
  spent fuel x y = digits finish join fuel x y

  fuel_free : (x y f g : ℕ) → x ≤ f → x ≤ g → spent f x y ≡ spent g x y
  fuel_free zero y zero zero _ _ = refl
  fuel_free zero y zero (suc g) _ _ = refl
  fuel_free zero y (suc f) zero _ _ = refl
  fuel_free zero y (suc f) (suc g) _ _ = refl
  fuel_free (suc x) y zero g low _ = absurd (omega arith)
  fuel_free (suc x) y (suc f) zero _ low = absurd (omega arith)
  fuel_free (suc x) y (suc f) (suc g) low low' =
      ap (λ rest. rest * 2 + join (suc x % 2) (y % 2))
        (fuel_free (suc x / 2) (y / 2) f g (omega arith) (omega arith))

  -- The lowest digits, and the rest of a number that is not 0.
  lowest :
      (x y : ℕ)
      → spent (suc x) (suc x) y
        ≡ spent (suc x / 2) (suc x / 2) (y / 2) * 2 + join (suc x % 2) (y % 2)
  lowest x y =
      ap (λ rest. rest * 2 + join (suc x % 2) (y % 2))
        (fuel_free (suc x / 2) (y / 2) x (suc x / 2) (omega arith) (omega arith))

and_low : (x y : ℕ) → bit_and x y ≡ bit_and (x / 2) (y / 2) * 2 + min (x % 2) (y % 2)
and_low zero y = bit_and-bitwise 0 y ∙ omega (arith, bit_and-bitwise 0 (y / 2))
and_low (suc x) y =
    bit_and-bitwise (suc x) y
    ∙ lowest (λ rest. 0) min x y
    ∙ ap (λ rest. rest * 2 + min (suc x % 2) (y % 2)) (sym (bit_and-bitwise (suc x / 2) (y / 2)))

or_low : (x y : ℕ) → bit_or x y ≡ bit_or (x / 2) (y / 2) * 2 + max (x % 2) (y % 2)
or_low zero y = bit_or-bitwise 0 y ∙ omega (arith, bit_or-bitwise 0 (y / 2))
or_low (suc x) y =
    bit_or-bitwise (suc x) y
    ∙ lowest (λ rest. rest) max x y
    ∙ ap (λ rest. rest * 2 + max (suc x % 2) (y % 2)) (sym (bit_or-bitwise (suc x / 2) (y / 2)))

-- Nothing is kept under the mask 0, and nothing is added by it.
kept_by_0 : (bound x : ℕ) → x ≤ bound → bit_and x 0 ≡ 0
kept_by_0 bound zero low = refl
kept_by_0 zero (suc x) low = absurd (omega arith)
kept_by_0 (suc bound) (suc x) low =
    and_low (suc x) 0 ∙ omega (arith, kept_by_0 bound (suc x / 2) (omega arith))

united_with_0 : (bound x : ℕ) → x ≤ bound → bit_or x 0 ≡ x
united_with_0 bound zero low = refl
united_with_0 zero (suc x) low = absurd (omega arith)
united_with_0 (suc bound) (suc x) low =
    or_low (suc x) 0 ∙ omega (arith, united_with_0 bound (suc x / 2) (omega arith))

-- Two digits of a mask at a time.
low_2 : (x : ℕ) → bit_and x 3 ≡ x % 4
low_2 x =
    omega (arith, and_low x 3, and_low (x / 2) 1, kept_by_0 (x / 2 / 2) (x / 2 / 2) (omega arith))

low_4 : (x : ℕ) → bit_and x 15 ≡ x % 16
low_4 x = omega (arith, and_low x 15, and_low (x / 2) 7, low_2 (x / 2 / 2))

low_6 : (x : ℕ) → bit_and x 63 ≡ x % 64
low_6 x = omega (arith, and_low x 63, and_low (x / 2) 31, low_4 (x / 2 / 2))

-- The mask of a byte.
pub bit_and_255 : (x : ℕ) → bit_and x 0xff ≡ x % 256
bit_and_255 x = omega (arith, and_low x 255, and_low (x / 2) 127, low_6 (x / 2 / 2))

-- A mask that is even, and one that is a multiple of 8.
even_mask : (x m : ℕ) → bit_and x (m * 2) ≡ bit_and (x / 2) m * 2
even_mask x m = let half : m * 2 / 2 ≡ m = omega arith in and_low x (m * 2) ∙ rw half (omega arith)

mask_8 : (x m : ℕ) → bit_and x (m * 8) ≡ bit_and (x / 8) m * 8
mask_8 x m =
    let eight : m * 8 ≡ m * 2 * 2 * 2 = omega arith in
    let eighth : x / 2 / 2 / 2 ≡ x / 8 = omega arith in
    ap (bit_and x) eight
    ∙ even_mask x (m * 2 * 2)
    ∙ ap (λ (n : ℕ). n * 2) (even_mask (x / 2) (m * 2))
    ∙ ap (λ (n : ℕ). n * 2 * 2) (even_mask (x / 2 / 2) m)
    ∙ ap (λ (y : ℕ). bit_and y m * 2 * 2 * 2) eighth
    ∙ omega arith

-- The mask of the two bits above six.
pub bit_and_192 : (x : ℕ) → bit_and x 0xc0 ≡ x / 64 % 4 * 64
bit_and_192 x =
    let quotient : x / 8 / 8 ≡ x / 64 = omega arith in
    mask_8 x 24
    ∙ ap (λ (n : ℕ). n * 8) (mask_8 (x / 8) 3)
    ∙ ap (λ (n : ℕ). n * 8 * 8) (low_2 (x / 8 / 8))
    ∙ ap (λ (y : ℕ). y % 4 * 8 * 8) quotient
    ∙ omega arith

-- An even number on either side.
even_or : (x y : ℕ) → bit_or (x * 2) y ≡ bit_or x (y / 2) * 2 + y % 2
even_or x y = let half : x * 2 / 2 ≡ x = omega arith in or_low (x * 2) y ∙ rw half (omega arith)

or_even : (x y : ℕ) → bit_or x (y * 2) ≡ bit_or (x / 2) y * 2 + x % 2
or_even x y = let half : y * 2 / 2 ≡ y = omega arith in or_low x (y * 2) ∙ rw half (omega arith)

shifted : (k x : ℕ) → x * 2 ^ suc k ≡ x * 2 ^ k * 2
shifted k x = omega (arith, ap (λ (p : ℕ). x * p) (pow-suc 2 k))

-- Where no bit overlaps, `|` adds.
pub bit_or_disjoint : (k x y : ℕ) → y < 2 ^ k → bit_or (x * 2 ^ k) y ≡ x * 2 ^ k + y
bit_or_disjoint zero x y low =
    let none_left : y ≡ 0 = omega arith in
    rw none_left (united_with_0 (x * 1) (x * 1) (omega arith) ∙ omega arith)
bit_or_disjoint (suc k) x y low = rw (shifted k x) (
    even_or (x * 2 ^ k) y
    ∙ rw (bit_or_disjoint k x (y / 2) (omega (arith, pow-suc 2 k))) (omega arith))

pub disjoint_bit_or : (k x y : ℕ) → x < 2 ^ k → bit_or x (y * 2 ^ k) ≡ x + y * 2 ^ k
disjoint_bit_or zero x y low =
    let none_left : x ≡ 0 = omega arith in rw none_left (bit_or-bitwise 0 (y * 1) ∙ omega arith)
disjoint_bit_or (suc k) x y low = rw (shifted k y) (
    or_even x (y * 2 ^ k)
    ∙ rw (disjoint_bit_or k (x / 2) y (omega (arith, pow-suc 2 k))) (omega arith))
