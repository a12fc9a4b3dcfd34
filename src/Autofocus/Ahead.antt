-- ===== src/Autofocus/Ahead.antt =====
-- The bits that the reader of the autofocus plugin still has to give, and how they are read ahead.
use mjpg_streamer.Common.{
  ℕ, zero, suc, ◌+◌, ◌-◌, ◌*◌, ◌/◌, ◌%◌, ◌^◌, ◌≤◌, ◌<◌, ◌≡◌, ◌≢◌, refl, sym, ap, ap₂, ◌∙◌, Bool,
  ◌&&◌, true, false, List, [], ◌∷◌, ◌++◌, length, length-append, ◌==◌, arith, if◌then◌else◌,
}
use mjpg_streamer.Common.Bits.{bit_or_below}
use mjpg_streamer.Common.Text.{Bytes}
use mjpg_streamer.Autofocus.{Reader, with_byte}
use native.Mathlib.Numerals.{towards_suc}
use native.Mathlib.Nat.{two-pow-succ, one-le-pow}
use Prim.Native.Nat.{bit_or}

-- The number that bits stand for, the highest first.
abbrev pub value : List Bool → ℕ
value [] = 0
value (true ∷ bits) = 2 ^ length bits + value bits
value (false ∷ bits) = value bits

-- The `n` low bits of a number, the highest first.
unfoldable pub bits_of : ℕ → ℕ → List Bool
bits_of zero x = []
bits_of (suc n) x = bits_of n (x / 2) ++ (x % 2 == 1) ∷ []

pub two_pow_add : (m n : ℕ) → 2 ^ (m + n) ≡ 2 ^ m * 2 ^ n
two_pow_add m zero = ap (λ k. 2 ^ k) {x = m + 0} {y = m} (omega arith) ∙ omega arith
two_pow_add m (suc n) =
    ap (λ k. 2 ^ k) {x = m + suc n} {y = suc (m + n)} (omega arith)
    ∙ omega (
      arith,
      two-pow-succ (m + n),
      two_pow_add m n,
      ap (λ t. 2 ^ m * t) {x = 2 ^ suc n} {y = 2 ^ n + 2 ^ n} (two-pow-succ n),
    )

pub value-append : (xs ys : List Bool) → value (xs ++ ys) ≡ value xs * 2 ^ length ys + value ys
value-append [] ys = omega arith
value-append (true ∷ xs) ys = omega (
  arith,
  value-append xs ys,
  ap (λ k. 2 ^ k) {x = length (xs ++ ys)} {y = length xs + length ys} (length-append xs ys),
  two_pow_add (length xs) (length ys),
)
value-append (false ∷ xs) ys = value-append xs ys

pub value-lt : (xs : List Bool) → value xs < 2 ^ length xs
value-lt [] = omega arith
value-lt (true ∷ xs) = omega (arith, value-lt xs, two-pow-succ (length xs))
value-lt (false ∷ xs) = omega (arith, value-lt xs, two-pow-succ (length xs))

pub length-bits_of : (n x : ℕ) → length (bits_of n x) ≡ n
unfolding bits_of
length-bits_of zero x = refl
length-bits_of (suc n) x =
    omega (arith, length-append (bits_of n (x / 2)) ((x % 2 == 1) ∷ []), length-bits_of n (x / 2))

value_digit : (x : ℕ) → value ((x % 2 == 1) ∷ []) ≡ x % 2
value_digit x = ground arith

pub value-bits_of : (n x : ℕ) → x < 2 ^ n → value (bits_of n x) ≡ x
unfolding bits_of
value-bits_of zero x h = omega arith
value-bits_of (suc n) x h = omega (
  arith,
  value-append (bits_of n (x / 2)) ((x % 2 == 1) ∷ []),
  value-bits_of n (x / 2) (omega (arith, two-pow-succ n)),
  value_digit x,
)

-- The bits of the data, and the data as it stands in the frame, with a zero stuffed behind each byte 0xff. The marker
-- 0xff, 0xd9 that ends the image counts as the last two bytes of the data, and has no zero in it.
unfoldable pub data_bits : Bytes → List Bool
data_bits [] = []
data_bits (b ∷ bytes) = bits_of 8 b ++ data_bits bytes

-- Behind a byte 0xff: the rest of the marker.
abbrev pub is_end : ℕ → Bytes → Bool
is_end c bytes = (c == 217) && (length bytes == 0)

unfoldable pub stuffed : Bytes → Bytes
stuffed [] = []
stuffed (b ∷ []) = if b == 255 then 255 ∷ 0 ∷ [] else b ∷ []
stuffed (b ∷ c ∷ bytes) =
    let rest = stuffed (c ∷ bytes) in
    if b == 255 then (if is_end c bytes then 255 ∷ c ∷ [] else 255 ∷ 0 ∷ rest) else b ∷ rest

-- Bytes of which no two in a row are 0xff, nor the last.
abbrev pub Unpaired : Bytes → Type 0
Unpaired [] = Unit {0}
Unpaired (b ∷ []) = (b < 256) × (b ≢ 255)
Unpaired (b ∷ c ∷ bytes) = (b < 256) × (b ≡ 255 → c ≢ 255) × Unpaired (c ∷ bytes)

-- The reader has still to give the bits: those in its window, and those of data that no two bytes 0xff in a row stand in.
pub record Holds (r : Reader) (bits : List Bool) : Type 0 where
  pub ahead : List Bool
  pub later : Bytes
  pub of_both : bits ≡ ahead ++ data_bits later
  pub in_window : r.window ≡ value ahead * 2 ^ (32 - r.bitlen)
  pub of_length : length ahead ≡ r.bitlen
  pub fits : r.bitlen ≤ 32
  pub stands : r.rest ≡ stuffed later
  pub unpaired : Unpaired later

pub byte_below :
    (a b k : ℕ) → b < 256 → bit_or (a * 2 ^ (k + 8)) (b * 2 ^ k) ≡ (a * 256 + b) * 2 ^ k
byte_below a b k h =
    let p : 2 ^ (k + 8) ≡ 256 * 2 ^ k = simp towards_suc (omega arith) in
    let room : b * 2 ^ k < 2 ^ (k + 8) = grind (arith, p, one-le-pow k 2) in
    bit_or_below (k + 8) a (b * 2 ^ k) room ∙ omega (arith, ap (λ t. a * t) p)

-- One byte more in a window that has room for it.
pub with_byte_window :
    (r : Reader) (ahead : List Bool) (b : ℕ) (bytes : Bytes)
    → r.window ≡ value ahead * 2 ^ (32 - r.bitlen)
    → r.bitlen ≤ 24
    → b < 256
    → (with_byte r (b, bytes)).window
      ≡ value (ahead ++ bits_of 8 b) * 2 ^ (32 - (with_byte r (b, bytes)).bitlen)
unfolding with_byte
with_byte_window r ahead b bytes e h small =
    let k : ℕ = 24 - r.bitlen in
    let of_window : r.window ≡ value ahead * 2 ^ (k + 8) =
      e ∙ ap (λ t. value ahead * 2 ^ t) {y = k + 8} (omega arith) in
    let of_byte : value (ahead ++ bits_of 8 b) ≡ value ahead * 256 + b = omega (
      arith,
      value-append ahead (bits_of 8 b),
      value-bits_of 8 b small,
      ap (λ t. value ahead * 2 ^ t) (length-bits_of 8 b),
    ) in
    let room : k ≡ 32 - (r.bitlen + 8) = omega arith in
    ap (λ w. bit_or w (b * 2 ^ k)) of_window
    ∙ byte_below (value ahead) b k small
    ∙ ap₂ (λ v t. v * 2 ^ t) (sym of_byte) room
