-- ===== src/Common/Bits.antt =====
-- The bit operations of C on numbers below a power of two: `|` of disjoint parts, and `&` with a mask of high bits.
use Prim.Native.Nat.{
  ℕ, zero, suc, ◌+◌, ◌-◌, ◌*◌, ◌/◌, ◌%◌, ◌^◌, ◌≤◌, ◌<◌, min, max, digits, bitwise, bit_and, bit_or,
  bit_and-bitwise, bit_or-bitwise,
}
use mathlib.Core.Path.{◌≡◌, refl, sym, ap, ◌∙◌}
use native.Mathlib.Omega.{arith}
use native.Mathlib.Nat.{two-pow-succ, div-div-eq-div-mul}

-- The count of digits to go only has to be large enough.
digits_enough :
    (z : ℕ → ℕ) (f : ℕ → ℕ → ℕ) (n m a b : ℕ) → a ≤ n → a ≤ m → digits z f n a b ≡ digits z f m a b
digits_enough z f zero zero a b p q = refl
digits_enough z f zero (suc m) zero b p q = refl
digits_enough z f (suc n) zero zero b p q = refl
digits_enough z f (suc n) (suc m) zero b p q = refl
digits_enough z f zero m (suc a) b p q = absurd (omega arith)
digits_enough z f n zero (suc a) b p q = absurd (omega arith)
digits_enough z f (suc n) (suc m) (suc a) b p q =
    ap (λ t. t * 2 + f (suc a % 2) (b % 2))
      (digits_enough z f n m (suc a / 2) (b / 2) (omega arith) (omega arith))

bitwise_digit :
    (z : ℕ → ℕ) (f : ℕ → ℕ → ℕ) (a b : ℕ)
    → bitwise z f (suc a) b ≡ bitwise z f (suc a / 2) (b / 2) * 2 + f (suc a % 2) (b % 2)
bitwise_digit z f a b =
    ap (λ t. t * 2 + f (suc a % 2) (b % 2))
      (digits_enough z f a (suc a / 2) (suc a / 2) (b / 2) (omega arith) (omega arith))

or_digit : (a b : ℕ) → bit_or a b ≡ bit_or (a / 2) (b / 2) * 2 + max (a % 2) (b % 2)
or_digit zero b = simp bit_or-bitwise (omega arith)
or_digit (suc a) b = simp bit_or-bitwise (bitwise_digit (λ y. y) max a b)

and_digit : (a b : ℕ) → bit_and a b ≡ bit_and (a / 2) (b / 2) * 2 + min (a % 2) (b % 2)
and_digit zero b = simp bit_and-bitwise (omega arith)
and_digit (suc a) b = simp bit_and-bitwise (bitwise_digit (λ y. zero) min a b)

or-zero : (n a : ℕ) → a ≤ n → bit_or a 0 ≡ a
or-zero zero zero h = refl
or-zero zero (suc a) h = absurd (omega arith)
or-zero (suc n) zero h = refl
or-zero (suc n) (suc a) h = omega (arith, or_digit (suc a) 0, or-zero n (suc a / 2) (omega arith))

-- Bits put below the `k` low bits that are clear.
pub bit_or_below : (k q r : ℕ) → r < 2 ^ k → bit_or (q * 2 ^ k) r ≡ q * 2 ^ k + r
bit_or_below zero q r h = ground (arith, or-zero q q)
bit_or_below (suc k) q r h =
    let p : 2 ^ suc k ≡ 2 * 2 ^ k = omega (arith, two-pow-succ k) in
    let d : q * 2 ^ suc k ≡ 2 * (q * 2 ^ k) = ap (λ t. q * t) p ∙ grind arith in
    omega (
      arith,
      or_digit (q * 2 ^ suc k) r,
      ap (λ t. bit_or t (r / 2)) {x = q * 2 ^ suc k / 2} {y = q * 2 ^ k} (omega arith),
      bit_or_below k q (r / 2) (omega arith),
    )

and-zero : (n a : ℕ) → a ≤ n → bit_and a 0 ≡ 0
and-zero zero zero h = refl
and-zero zero (suc a) h = absurd (omega arith)
and-zero (suc n) zero h = refl
and-zero (suc n) (suc a) h =
    omega (arith, and_digit (suc a) 0, and-zero n (suc a / 2) (omega arith))

-- A mask of `n` ones.
pub bit_and_ones : (n a : ℕ) → a < 2 ^ n → bit_and a (2 ^ n - 1) ≡ a
bit_and_ones zero zero h = refl
bit_and_ones zero (suc a) h = absurd (omega arith)
bit_and_ones (suc n) a h =
    let p = two-pow-succ n in
    omega (
      arith,
      p,
      and_digit a (2 ^ suc n - 1),
      ap (bit_and (a / 2)) {x = (2 ^ suc n - 1) / 2} {y = 2 ^ n - 1} (omega (arith, p)),
      bit_and_ones n (a / 2) (omega (arith, p)),
    )

-- The bits above the `k` low ones.
pub bit_and_above : (k a m : ℕ) → bit_and a (m * 2 ^ k) ≡ bit_and (a / 2 ^ k) m * 2 ^ k
bit_and_above zero a m = ground arith
bit_and_above (suc k) a m =
    let p : 2 ^ suc k ≡ 2 * 2 ^ k = omega (arith, two-pow-succ k) in
    let d : m * 2 ^ suc k ≡ 2 * (m * 2 ^ k) = ap (λ t. m * t) p ∙ grind arith in
    let e : a / 2 ^ suc k ≡ a / 2 / 2 ^ k =
      ap (λ t. a / t) p ∙ sym (div-div-eq-div-mul a 2 (2 ^ k)) in
    let x : ℕ = bit_and (a / 2 / 2 ^ k) m in
    let g : x * 2 ^ suc k ≡ 2 * (x * 2 ^ k) = ap (λ t. x * t) p ∙ grind arith in
    omega (
      arith,
      and_digit a (m * 2 ^ suc k),
      ap (bit_and (a / 2)) {x = m * 2 ^ suc k / 2} {y = m * 2 ^ k} (omega arith),
      bit_and_above k (a / 2) m,
      g,
      ap (λ t. bit_and t m * 2 ^ suc k) e,
    )
