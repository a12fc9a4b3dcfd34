-- ===== src/Autofocus/Tables.antt =====
-- The Huffman tables that the function makes of the lengths and symbols of a DHT segment.
use mjpg_streamer.Common.{
  ℕ, zero, suc, ◌+◌, ◌-◌, ◌*◌, ◌%◌, ◌^◌, ◌≤◌, ◌<◌, ◌≡◌, refl, sym, ap, ap₂, subst, ◌∙◌, List, [],
  ◌∷◌, ◌++◌, map, map-append, length, length-drop, take, drop, drop-drop, arith,
}
use mjpg_streamer.Common.Text.{Bytes}
use mjpg_streamer.Autofocus.{Entry, got, entry, codes_of_length, all_codes}
use mjpg_streamer.Autofocus.Ahead.{two_pow_add}
use mjpg_streamer.Autofocus.Lookup.{Ordered, IsRow}
use native.Mathlib.Nat.{two-pow-succ, one-le-pow}

-- There are no more codes of a length than are left by the shorter ones.
abbrev pub Kraft : ℕ → ℕ → List ℕ → Type 0
Kraft len code_val [] = Unit {0}
Kraft len code_val (count ∷ counts) =
    (code_val + count ≤ 2 ^ len) × Kraft (suc len) ((code_val + count) * 2) counts

abbrev pub total_of : List ℕ → ℕ
total_of [] = 0
total_of (count ∷ counts) = count + total_of counts

abbrev pub symbols_of : List Entry → Bytes
symbols_of = map (λ e. e.code)

-- The rows, with what follows them in order.
abbrev Continues : ℕ → ℕ → List Entry → Type 0
Continues from to entries =
    (later : List Entry) → Ordered to later → Ordered from (entries ++ later)

entry_bits : (len v : ℕ) → v < 2 ^ len → len ≤ 16 → v * 2 ^ (32 - len) % 2 ^ 32 ≡ v * 2 ^ (32 - len)
entry_bits len v h short =
    let p : 2 ^ len * 2 ^ (32 - len) ≡ 2 ^ 32 =
      sym (two_pow_add len (32 - len))
      ∙ ap (λ t. 2 ^ t) {x = len + (32 - len)} {y = 32} (omega arith) in
    let q = one-le-pow (32 - len) 2 (omega arith) in
    let s : v * 2 ^ (32 - len) < 2 ^ len * 2 ^ (32 - len) = grind arith in omega (arith, p)

pub entry-IsRow : (len v symbol : ℕ) → v < 2 ^ len → len ≤ 16 → IsRow (entry len v symbol)
unfolding entry
entry-IsRow len v symbol h short = record {
  number = v;
  of_bits = entry_bits len v h short;
  of_mask = refl;
  fits = h;
  short = short;
}

doubled : (v k : ℕ) → v * (k + k) ≡ v * 2 * k
doubled v k = grind arith

take-nil {ℓ} : {A : Type ℓ} (n : ℕ) → take {A = A} n [] ≡ []
take-nil zero = refl
take-nil (suc n) = refl

all_codes_step :
    (len count v : ℕ) (counts : List ℕ) (symbols behind rest : Bytes) (entries longer : List Entry)
    → codes_of_length len count v symbols ≡ got (entries, behind)
    → all_codes (suc len) counts ((v + count) * 2) behind ≡ got (longer, rest)
    → all_codes len (count ∷ counts) v symbols ≡ got (entries ++ longer, rest)
unfolding all_codes
all_codes_step len count v counts symbols behind rest entries longer e f = rw e (rw f refl)

next_code : (v k : ℕ) → suc v * k ≡ v * k + k
next_code v k = grind arith

codes_of_length-rows :
    (len count v : ℕ) (symbols : Bytes)
    → len ≤ 16
    → v + count ≤ 2 ^ len
    → count ≤ length symbols
    → (entries : List Entry) × (codes_of_length len count v symbols
        ≡ got (entries, drop count symbols))
      × (symbols_of entries ≡ take count symbols)
      × Continues (v * 2 ^ (32 - len)) ((v + count) * 2 ^ (32 - len)) entries
unfolding codes_of_length entry
codes_of_length-rows len zero v symbols short h enough = (
  [],
  refl,
  refl,
  λ later o. subst (λ n. Ordered (n * 2 ^ (32 - len)) later) {x = v + 0} (omega arith) o,
)
codes_of_length-rows len (suc count) v [] short h enough = absurd (omega arith)
codes_of_length-rows len (suc count) v (symbol ∷ symbols) short h enough =
    let (entries, e, s, c) =
      codes_of_length-rows len count (suc v) symbols short (omega arith) (omega arith) in
    let same = entry_bits len v (omega arith) short in
    (
      entry len v symbol ∷ entries,
      rw e refl,
      ap (λ t. symbol ∷ t) s,
      λ later o. (
        omega (arith, same),
        entry-IsRow len v symbol (omega arith) short,
        subst (λ low. Ordered low (entries ++ later))
            (next_code v _ ∙ ap (λ t. t + 2 ^ (32 - len)) (sym same))
            (c later (
              subst (λ n. Ordered (n * 2 ^ (32 - len)) later) {y = suc v + count} (omega arith) o)),
      ),
    )

pub take-add {ℓ} :
    {A : Type ℓ} (m n : ℕ) (xs : List A) → take (m + n) xs ≡ take m xs ++ take n (drop m xs)
take-add zero n xs = ap (λ k. take k xs) (omega arith)
take-add (suc m) n [] = ap (λ k. take k []) {y = suc (m + n)} (omega arith) ∙ sym (take-nil n)
take-add (suc m) n (x ∷ xs) =
    ap (λ k. take k (x ∷ xs)) {y = suc (m + n)} (omega arith) ∙ ap (λ t. x ∷ t) (take-add m n xs)

half_width : (v len : ℕ) → len ≤ 16 → v * 2 ^ (32 - len) ≡ v * 2 * 2 ^ (32 - suc len)
half_width v len h =
    ap (λ k. v * 2 ^ k) {x = 32 - len} {y = suc (32 - suc len)} (omega arith)
    ∙ ap (λ t. v * t) (two-pow-succ (32 - suc len))
    ∙ doubled v (2 ^ (32 - suc len))

-- Where the counts satisfy Kraft's inequality, are of the lengths up to 16 and have as many symbols as they count, none of
-- which the code checks, the loop over the lengths makes of the counts and symbols of a segment a row for each symbol, in their order, and leaves
-- what follows the symbols. The ranges of the rows follow one another, so that no code begins another.
pub all_codes-Ordered :
    (len v : ℕ) (counts : List ℕ) (symbols : Bytes)
    → len + length counts ≤ 17
    → Kraft len v counts
    → total_of counts ≤ length symbols
    → (entries : List Entry) × (all_codes len counts v symbols
        ≡ got (entries, drop (total_of counts) symbols))
      × (symbols_of entries ≡ take (total_of counts) symbols)
      × Ordered (v * 2 ^ (32 - len)) entries
unfolding all_codes
all_codes-Ordered len v [] symbols short h enough = ([], refl, refl, tt)
all_codes-Ordered len v (count ∷ counts) symbols short h enough =
    let (entries, e, s, c) =
      codes_of_length-rows len count v symbols (omega arith) h.0 (omega arith) in
    let behind : Bytes = drop count symbols in
    let (longer, e', s', o) =
      all_codes-Ordered (suc len) ((v + count) * 2) counts behind (omega arith) h.1
        (omega (arith, length-drop count symbols)) in
    (
      entries ++ longer,
      all_codes_step len count v counts symbols behind _ entries longer e e'
          ∙ ap (λ t. got (entries ++ longer, t))
              (drop-drop (total_of counts) count symbols
                ∙ ap (λ n. drop n symbols) {y = count + total_of counts} (omega arith)),
      map-append _ entries longer
          ∙ ap₂ (λ x y. x ++ y) s s'
          ∙ sym (take-add count (total_of counts) symbols),
      c longer
          (subst (λ low. Ordered low longer) (sym (half_width (v + count) len (omega arith))) o),
    )
