-- ===== src/Autofocus/Codes.antt =====
-- readXC: how the reader takes bits, and finds the row of a code in a table.
use mjpg_streamer.Common.{
  ℕ, zero, suc, ◌+◌, ◌-◌, ◌*◌, ◌/◌, ◌%◌, ◌^◌, ◌≤◌, ◌<◌, ◌≡◌, refl, sym, ap, ap₂, ◌∙◌, Bool, List,
  [], ◌∷◌, ◌++◌, length, length-append, arith,
}
use mjpg_streamer.Autofocus.{Reader, shifted}
use mjpg_streamer.Autofocus.Ahead.{value, value-append, value-lt, two_pow_add, data_bits, Holds}
use native.Mathlib.Nat.{div-eq_of_lt-le, one-le-pow}

-- Bits that stand in front of two splits of a list.
append_split :
    (front tail ahead later : List Bool)
    → front ++ tail ≡ ahead ++ later
    → length front ≤ length ahead
    → (mid : List Bool) × (ahead ≡ front ++ mid) × (tail ≡ mid ++ later)
append_split [] tail ahead later e h = (ahead, refl, e)
append_split (b ∷ front) tail [] later e h = absurd (omega arith)
append_split (b ∷ front) tail (c ∷ ahead) later e h =
    let (mid, p, q) = append_split front tail ahead later (cc) (omega arith) in
    (mid, ap₂ (λ x xs. x ∷ xs) (cc) p, q)

-- Numbers: `a` above `b`, which has `x` bits, above `k` clear bits.
top_part : (a b x k : ℕ) → b < 2 ^ x → (a * 2 ^ x + b) * 2 ^ k / 2 ^ (x + k) ≡ a
top_part a b x k h =
    let p = two_pow_add x k in
    let q = one-le-pow k 2 (omega arith) in div-eq_of_lt-le _ (grind (arith, p)) (grind (arith, p))

distributed : (a x b k l : ℕ) → (a * x + b) * k * l ≡ a * (x * (k * l)) + b * (k * l)
distributed a x b k l = grind arith

below_product : (b x y : ℕ) → x * y ≡ 2 ^ 32 → b < x → b * y < 2 ^ 32
below_product b x zero e h = omega arith
below_product b x (suc y) e h = grind (arith, e)

shifted_part :
    (a b l x k : ℕ)
    → b < 2 ^ x
    → l + x + k ≡ 32
    → (a * 2 ^ x + b) * 2 ^ k * 2 ^ l % 2 ^ 32 ≡ b * 2 ^ (k + l)
shifted_part a b l x k h e =
    let p : 2 ^ x * 2 ^ (k + l) ≡ 2 ^ 32 =
      sym (two_pow_add x (k + l)) ∙ ap (λ t. 2 ^ t) {x = x + (k + l)} {y = 32} (omega arith) in
    let small : b * 2 ^ (k + l) < 2 ^ 32 = below_product b (2 ^ x) (2 ^ (k + l)) p h in
    let split : (a * 2 ^ x + b) * 2 ^ k * 2 ^ l ≡ a * 2 ^ 32 + b * 2 ^ (k + l) =
      distributed a (2 ^ x) b (2 ^ k) (2 ^ l)
      ∙ ap (λ t. a * (2 ^ x * t) + b * t) (sym (two_pow_add k l))
      ∙ ap (λ t. a * t + b * 2 ^ (k + l)) p in
    ap (λ t. t % 2 ^ 32) split ∙ omega arith

the_sum : (l x b : ℕ) → l + x ≡ b → b ≤ 32 → 32 - l ≡ x + (32 - b)
the_sum l x b e h = omega arith

-- The bits in front are at the top of the window, and leave the reader with the rest when they are shifted out.
pub Holds-front :
    (r : Reader) (front tail : List Bool)
    → Holds r (front ++ tail)
    → length front ≤ r.bitlen
    → (r.window / 2 ^ (32 - length front) ≡ value front) × Holds (shifted (length front) r) tail
unfolding shifted
Holds-front r front tail h enough =
    let (mid, p, q) =
      append_split front tail h.ahead (data_bits h.later) h.of_both (omega (arith, h.of_length)) in
    let k : ℕ = 32 - r.bitlen in
    let x : ℕ = length mid in
    let l : ℕ = length front in
    let both : l + x ≡ r.bitlen =
      omega (arith, ap length p, length-append front mid, h.of_length) in
    let w : r.window ≡ (value front * 2 ^ x + value mid) * 2 ^ k =
      h.in_window ∙ ap (λ t. t * 2 ^ k) (ap value p ∙ value-append front mid) in
    (
      ap₂ (λ t u. t / 2 ^ u) w (the_sum l x r.bitlen both h.fits)
          ∙ top_part (value front) (value mid) x k (value-lt mid),
      record {
        ahead = mid;
        later = h.later;
        of_both = q;
        in_window =
            ap (λ t. t * 2 ^ l % 2 ^ 32) w
            ∙ shifted_part (value front) (value mid) l x k (value-lt mid) (omega (arith, h.fits))
            ∙ ap (λ t. value mid * 2 ^ t) {x = k + l} (omega (arith, h.fits));
        of_length = omega arith;
        fits = omega (arith, h.fits);
        stands = h.stands;
        unpaired = h.unpaired;
      },
    )
