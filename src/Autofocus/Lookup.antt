-- ===== src/Autofocus/Lookup.antt =====
-- The rows of a Huffman table as ranges of the window, and the search of readXC through them.
use mjpg_streamer.Common.{
  ℕ, zero, suc, ◌+◌, ◌-◌, ◌*◌, ◌/◌, ◌^◌, ◌≤◌, ◌<◌, ◌≡◌, inl, inr, refl, sym, ap, subst, ◌∙◌, true,
  false, Bool-cases, List, [], ◌∷◌, ◌++◌, length, some, none, get_elem?, ==_iff, arith,
  some-injective,
}
use mjpg_streamer.Common.Bits.{bit_and_ones, bit_and_above}
use mjpg_streamer.Autofocus.{Entry, matches, find_code}
use mjpg_streamer.Autofocus.Ahead.{two_pow_add}
use native.Mathlib.Nat.{
  div-eq_of_lt-le, div-lt_iff_lt-mul, div-mul-le_self, lt-div-mul-add, one-le-pow,
}
use Prim.Native.Nat.{bit_and}

-- The numbers of 32 bits that begin with the code of a row.
abbrev pub width : Entry → ℕ
width e = 2 ^ (32 - e.bitlen)

-- A row for a code of 1 to 16 bits, at the left end of 32 bits, with the mask of that length.
pub record IsRow (e : Entry) : Type 0 where
  pub number : ℕ
  pub of_bits : e.bits ≡ number * width e
  pub of_mask : e.mask ≡ (2 ^ e.bitlen - 1) * width e
  pub fits : number < 2 ^ e.bitlen
  pub short : e.bitlen ≤ 16

-- Rows whose ranges follow one another, from `low` on.
abbrev pub Ordered : ℕ → List Entry → Type 0
Ordered low [] = Unit {0}
Ordered low (e ∷ table) = (low ≤ e.bits) × IsRow e × Ordered (e.bits + width e) table

abbrev pub InRange : ℕ → Entry → Type 0
InRange w e = (e.bits ≤ w) × (w < e.bits + width e)

masked : (w : ℕ) (e : Entry) → IsRow e → w < 2 ^ 32 → bit_and w e.mask ≡ w / width e * width e
masked w e h small =
    let p : 2 ^ e.bitlen * width e ≡ 2 ^ 32 =
      sym (two_pow_add e.bitlen (32 - e.bitlen))
      ∙ ap (λ t. 2 ^ t) {x = e.bitlen + (32 - e.bitlen)} {y = 32} (omega (arith, h.short)) in
    let few : w / width e < 2 ^ e.bitlen =
      (div-lt_iff_lt-mul {k = width e} (one-le-pow (32 - e.bitlen) 2 (omega arith))).1
        (omega arith) in
    ap (bit_and w) h.of_mask
    ∙ bit_and_above (32 - e.bitlen) w (2 ^ e.bitlen - 1)
    ∙ ap (λ t. t * width e) (bit_and_ones e.bitlen (w / width e) few)

matches→InRange : (w : ℕ) (e : Entry) → IsRow e → w < 2 ^ 32 → matches w e ≡ true → InRange w e
matches→InRange w e h small m =
    let q : w / width e * width e ≡ e.bits = sym (masked w e h small) ∙ (==_iff _ _).0 m in
    (
      omega (arith, div-mul-le_self w (width e)),
      omega (arith, lt-div-mul-add {a = w} (one-le-pow (32 - e.bitlen) 2 (omega arith))),
    )

next_multiple : (n k : ℕ) → (n + 1) * k ≡ n * k + k
next_multiple n k = grind arith

InRange→matches : (w : ℕ) (e : Entry) → IsRow e → w < 2 ^ 32 → InRange w e → matches w e ≡ true
InRange→matches w e h small r =
    let q : w / width e ≡ h.number =
      div-eq_of_lt-le {k = h.number} (width e) (omega (arith, h.of_bits, r.0))
        (omega (arith, h.of_bits, r.1, next_multiple h.number (width e))) in
    (==_iff _ _).1 (masked w e h small ∙ ap (λ t. t * width e) q ∙ sym h.of_bits)

pub Ordered-get :
    (low : ℕ) (table : List Entry) (i : ℕ) (e : Entry)
    → Ordered low table
    → get_elem? table i ≡ some e
    → (low ≤ e.bits) × IsRow e
Ordered-get low [] i e h g = absurd cc
Ordered-get low (f ∷ table) zero e h g =
    subst (λ x. (low ≤ x.bits) × IsRow x) (some-injective _ _ g) (h.0, h.1)
Ordered-get low (f ∷ table) (suc i) e h g =
    let (l, row) = Ordered-get (f.bits + width f) table i e h.2 g in (omega (arith, h.0, l), row)

-- A row in front of the one in whose range the window lies does not match.
not_before :
    {low : ℕ} (w : ℕ) (f : Entry) (table : List Entry) (i : ℕ) (e : Entry)
    → (low ≤ f.bits) × IsRow f × Ordered (f.bits + width f) table
    → get_elem? table i ≡ some e
    → w < 2 ^ 32
    → InRange w e
    → matches w f ≡ false
not_before w f table i e h g small r = elim (Bool-cases (matches w f)) [
  | inr m ↦ m
  | inl m ↦ absurd (
      omega (
        arith,
        (matches→InRange w f h.1 small m).1,
        (Ordered-get (f.bits + width f) table i e h.2 g).0,
        r.0,
      ))
]

-- The search yields the row in whose range the window lies, unless it is the last row of the table.
pub find_code-row :
    (low : ℕ) (table : List Entry) (i : ℕ) (e : Entry) (w : ℕ)
    → Ordered low table
    → get_elem? table i ≡ some e
    → suc i < length table
    → w < 2 ^ 32
    → InRange w e
    → find_code w table ≡ some e
unfolding find_code
find_code-row low [] i e w h g inside small r = absurd (omega arith)
find_code-row low (f ∷ []) i e w h g inside small r = absurd (omega arith)
find_code-row low (f ∷ f' ∷ table) zero e w h g inside small r =
    let f_is : f ≡ e = some-injective _ _ g in
    let hit : matches w f ≡ true = InRange→matches w f h.1 small (subst (InRange w) (sym f_is) r) in
    rw hit g
find_code-row low (f ∷ f' ∷ table) (suc i) e w h g inside small r =
    rw (not_before w f (f' ∷ table) i e h g small r)
      (find_code-row (f.bits + width f) (f' ∷ table) i e w h.2 g (omega arith) small r)

pub get_elem?-last :
    (front : List Entry) (e : Entry) → get_elem? (front ++ e ∷ []) (length front) ≡ some e
get_elem?-last [] e = refl
get_elem?-last (f ∷ front) e = get_elem?-last front e

-- The last row of a table is never found.
pub find_code-last :
    (low : ℕ) (front : List Entry) (e : Entry) (w : ℕ)
    → Ordered low (front ++ e ∷ [])
    → w < 2 ^ 32
    → InRange w e
    → find_code w (front ++ e ∷ []) ≡ none
unfolding find_code
find_code-last low [] e w h small r = refl
find_code-last low (f ∷ []) e w h small r = rw (not_before w f (e ∷ []) 0 e h refl small r) refl
find_code-last low (f ∷ f' ∷ front) e w h small r =
    rw
      (not_before w f (f' ∷ front ++ e ∷ []) (length (f' ∷ front)) e h
        (get_elem?-last (f' ∷ front) e) small r)
      (find_code-last (f.bits + width f) (f' ∷ front) e w h.2 small r)
