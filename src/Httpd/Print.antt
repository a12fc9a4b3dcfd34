-- ===== src/Httpd/Print.antt =====
-- The decimal texts that sprintf writes for %d and %0Nd, at numbers that are not negative.
use mjpg_streamer.Common.{
  ℕ, zero, suc, ◌+◌, ◌-◌, ◌*◌, ◌/◌, ◌%◌, ◌≤◌, ◌<◌, ◌≡◌, ap, [], ◌∷◌, ◌++◌, arith, if◌then◌else◌,
  length, ltb, ltb→lt, replicate, All, Bool-cases, inl, inr,
}
use mjpg_streamer.Common.Text.{Bytes}

-- The digits of `n` before those of `tail`; the fuel bounds their number.
unfoldable pub digits_onto : ℕ → ℕ → Bytes → Bytes
digits_onto zero n tail = tail
digits_onto (suc fuel) n tail =
    let more = digits_onto fuel (n / 10) ((48 + n % 10) ∷ tail) in
    if ltb n 10 then (48 + n) ∷ tail else more

unfoldable pub decimal : ℕ → Bytes
unfolding digits_onto
decimal n = digits_onto (suc n) n []

unfoldable pub decimal_padded : ℕ → ℕ → Bytes
unfolding decimal
decimal_padded width n = replicate (width - length (decimal n)) 48 ++ decimal n

abbrev pub IsDigit : ℕ → Type 0
IsDigit b = (48 ≤ b) × (b ≤ 57)

digits_onto-IsDigit :
    (fuel n : ℕ) (tail : Bytes) → All IsDigit tail → All IsDigit (digits_onto fuel n tail)
unfolding digits_onto
digits_onto-IsDigit zero n tail h = h
digits_onto-IsDigit (suc fuel) n tail h = elim (Bool-cases (ltb n 10)) [
  | inl small ↦ let lt = ltb→lt n 10 small in rw small ((omega arith, omega arith), h)
  | inr large ↦
      rw large
        (digits_onto-IsDigit fuel (n / 10) ((48 + n % 10) ∷ tail) ((omega arith, omega arith), h))
]

pub decimal-IsDigit : (n : ℕ) → All IsDigit (decimal n)
unfolding decimal
decimal-IsDigit n = digits_onto-IsDigit (suc n) n [] tt

append-IsDigit : (k : ℕ) (xs : Bytes) → All IsDigit xs → All IsDigit (replicate k 48 ++ xs)
append-IsDigit zero xs h = h
append-IsDigit (suc k) xs h = ((omega arith, omega arith), append-IsDigit k xs h)

pub decimal_padded-IsDigit : (w n : ℕ) → All IsDigit (decimal_padded w n)
unfolding decimal_padded
decimal_padded-IsDigit w n = append-IsDigit (w - length (decimal n)) (decimal n) (decimal-IsDigit n)

-- The number that digits in front of others stand for.
abbrev pub value_onto : ℕ → Bytes → ℕ
value_onto acc [] = acc
value_onto acc (d ∷ ds) = value_onto (acc * 10 + (d - 48)) ds

digits_onto-value :
    (fuel n : ℕ) (tail : Bytes)
    → n < fuel
    → value_onto 0 (digits_onto fuel n tail) ≡ value_onto n tail
unfolding digits_onto
digits_onto-value zero n tail h = absurd (omega arith)
digits_onto-value (suc fuel) n tail h = elim (Bool-cases (ltb n 10)) [
  | inl small ↦ rw small (ap (λ v. value_onto v tail) (omega arith))
  | inr large ↦
      let e : n / 10 * 10 + (48 + n % 10 - 48) ≡ n = omega arith in
      rw large (rw (digits_onto-value fuel (n / 10) ((48 + n % 10) ∷ tail) (ground arith)) (rw e))
]

-- The fuel is enough: the text stands for the number.
pub decimal-value : (n : ℕ) → value_onto 0 (decimal n) ≡ n
unfolding decimal
decimal-value n = digits_onto-value (suc n) n [] (omega arith)

onto-length : (fuel n : ℕ) (tail : Bytes) → length tail ≤ length (digits_onto fuel n tail)
unfolding digits_onto
onto-length zero n tail = omega arith
onto-length (suc fuel) n tail = elim (Bool-cases (ltb n 10)) [
  | inl small ↦ rw small (omega arith)
  | inr large ↦ rw large (omega (arith, onto-length fuel (n / 10) ((48 + n % 10) ∷ tail)))
]

pub decimal-some : (n : ℕ) → 0 < length (decimal n)
unfolding decimal digits_onto
decimal-some n = elim (Bool-cases (ltb n 10)) [
  | inl small ↦ rw small (omega arith)
  | inr large ↦ rw large (omega (arith, onto-length n (n / 10) ((48 + n % 10) ∷ [])))
]
