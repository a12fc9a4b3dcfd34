-- ===== src/Uvc/Picture/Markers.antt =====
-- Where is_huffman and memcpy_picture find a marker.
use mjpg_streamer.Common.{
  ℕ, zero, suc, ◌+◌, ◌*◌, ◌-◌, ◌≤◌, ◌<◌, ◌≡◌, ◌≢◌, refl, ap, sym, subst, ◌↔◌, ◌⊎◌, inl, inr, Bool,
  true, Bool-cases, [], ◌∷◌, Option, none, some, drop, drop-nil, ◌==◌, arith,
}
use mjpg_streamer.Common.Text.{Bytes}
use mjpg_streamer.Uvc.Picture.{
  huffman_word, sof_word, one_further, sos, dht, sof0, huffman_from, is_huffman, find_sof,
}

-- (ptbuf[0] << 8) | ptbuf[1]
abbrev pub word : Bytes → Option ℕ
word [] = none
word (a ∷ []) = none
word (a ∷ b ∷ _) = some (a * 256 + b)

-- The marker stands at the position `k`.
abbrev pub At : ℕ → ℕ → Bytes → Type 0
At m k buf = word (drop k buf) ≡ some m

-- A table of Huffman codes at one of the first 2049 positions, and no start of scan up to it.
unfoldable pub HasTable : ℕ → Bytes → Type 0
HasTable i buf = (k : ℕ) × (i + k ≤ 2048) × At dht k buf × ((j : ℕ) → j ≤ k → ¬ At sos j buf)

word_true :
    (i : ℕ) (later : Option Bool) (w : ℕ)
    → huffman_word i later w ≡ some true
    → (w ≢ sos) × (i ≤ 2048) × ((w ≡ dht) ⊎ (later ≡ some true))
word_true i later w e = ground arith

word_dht : (i : ℕ) (later : Option Bool) → i ≤ 2048 → huffman_word i later dht ≡ some true
word_dht i later le = ground arith

word_later : (i w : ℕ) → w ≢ sos → i ≤ 2048 → huffman_word i (some true) w ≡ some true
word_later i w ne le = ground arith

at_zero : (P : ℕ → Type 0) → P 0 → (j : ℕ) → j ≤ 0 → P j
at_zero P h zero le = h
at_zero P h (suc j) le = absurd (omega arith)

-- The positions behind the first.
from_next :
    (P : ℕ → Type 0) (k : ℕ) → P 0 → ((j : ℕ) → j ≤ k → P (suc j)) → (j : ℕ) → j ≤ suc k → P j
from_next P k h t zero le = h
from_next P k h t (suc j) le = t j (omega arith)

from_next_lt :
    (P : ℕ → Type 0) (k : ℕ) → P 0 → ((j : ℕ) → j < k → P (suc j)) → (j : ℕ) → j < suc k → P j
from_next_lt P k h t zero lt = h
from_next_lt P k h t (suc j) lt = t j (omega arith)

huffman_from-HasTable : (i : ℕ) (buf : Bytes) → huffman_from i buf ≡ some true → HasTable i buf
unfolding huffman_from HasTable
huffman_from-HasTable i [] e = absurd cc
huffman_from-HasTable i (a ∷ []) e = absurd cc
huffman_from-HasTable i (a ∷ b ∷ rest) e =
    let (not_sos, le, found) = word_true i (huffman_from (suc i) (b ∷ rest)) (a * 256 + b) e in
    elim found [
      | inl here ↦
          (0, omega arith, ap some here, at_zero (λ j. ¬ At sos j (a ∷ b ∷ rest)) (λ h. not_sos cc))
      | inr later ↦
          let (k, at, is, none_before) = huffman_from-HasTable (suc i) (b ∷ rest) later in
          (
            suc k,
            omega arith,
            is,
            from_next (λ j. ¬ At sos j (a ∷ b ∷ rest)) k (λ h. not_sos cc) none_before,
          )
    ]

HasTable-huffman_from :
    (i : ℕ) (k : ℕ) (buf : Bytes)
    → i + k ≤ 2048
    → At dht k buf
    → ((j : ℕ) → j ≤ k → ¬ At sos j buf)
    → huffman_from i buf ≡ some true
unfolding huffman_from
HasTable-huffman_from i zero [] le is ne = absurd cc
HasTable-huffman_from i zero (a ∷ []) le is ne = absurd cc
HasTable-huffman_from i zero (a ∷ b ∷ rest) le is ne =
    let e : a * 256 + b ≡ dht = cc in
    subst (λ w. huffman_word i (huffman_from (suc i) (b ∷ rest)) w ≡ some true) (sym e)
      (word_dht i (huffman_from (suc i) (b ∷ rest)) (omega arith))
HasTable-huffman_from i (suc k) [] le is ne = absurd cc
HasTable-huffman_from i (suc k) (a ∷ []) le is ne = absurd (cc (rw (drop-nil k) at is))
HasTable-huffman_from i (suc k) (a ∷ b ∷ rest) le is ne =
    let later =
      HasTable-huffman_from (suc i) k (b ∷ rest) (omega arith) is
        (λ j lt. ne (suc j) (omega arith)) in
    rw later (word_later i (a * 256 + b) (λ e. ne 0 (omega arith) (ap some e)) (omega arith))

-- is_huffman finds a table exactly where there is one at one of the first 2049 positions with no start of scan up to it,
-- in a picture that it does not read beyond.
pub is_huffman-HasTable : (buf : Bytes) → (is_huffman buf ≡ some true) ↔ HasTable 0 buf
unfolding is_huffman HasTable
is_huffman-HasTable buf =
    (huffman_from-HasTable 0 buf, λ h. HasTable-huffman_from 0 h.0 buf h.1 h.2 h.3)

-- The first start of frame stands at `k`.
pub record FirstSof (n k : ℕ) (buf : Bytes) : Type 0 where
  pub within : k < n
  pub there : At sof0 k buf
  pub none_before : (j : ℕ) → j < k → ¬ At sof0 j buf

one_further_cases :
    (later : Option (Option ℕ)) (k : ℕ)
    → one_further later ≡ some (some k)
    → (l : ℕ) × (later ≡ some (some l)) × (k ≡ suc l)
one_further_cases none k e = absurd cc
one_further_cases (some none) k e = absurd cc
one_further_cases (some (some l)) k e = (l, refl, cc)

one_further-none : (later : Option (Option ℕ)) → one_further later ≡ some none → later ≡ some none
one_further-none none e = e
one_further-none (some none) e = refl
one_further-none (some (some l)) e = absurd cc

sof_word_cases :
    (n : ℕ) (later : Option (Option ℕ)) (w k : ℕ)
    → sof_word n later w ≡ some (some k)
    → (0 < n)
      × (((w ≡ sof0) × (k ≡ 0)) ⊎ ((w ≢ sof0) × (l : ℕ) × (later ≡ some (some l)) × (k ≡ suc l)))
sof_word_cases n later w k e = elim (Bool-cases (n == 0)) [
  | inl at_end ↦ absurd (cc (rw (at_end, sof_word) at e))
  | inr before ↦ elim (Bool-cases (w == sof0)) [
    | inl is ↦
        let e' : some (some 0) ≡ some (some k) = rw (before, is, sof_word) at e in
        (ground arith, inl (ground arith, cc))
    | inr is_not ↦
        let e' : one_further later ≡ some (some k) = rw (before, is_not, sof_word) at e in
        let (l, is, at) = one_further_cases later k e' in
        (ground arith, inr (ground arith, l, is, at))
  ]
]

pub find_sof-FirstSof :
    (n : ℕ) (buf : Bytes) (k : ℕ) → find_sof n buf ≡ some (some k) → FirstSof n k buf
unfolding find_sof
find_sof-FirstSof n [] k e = absurd cc
find_sof-FirstSof n (a ∷ []) k e = absurd cc
find_sof-FirstSof n (a ∷ b ∷ rest) k e =
    let (pos, found) = sof_word_cases n (find_sof (n - 1) (b ∷ rest)) (a * 256 + b) k e in
    elim found [
      | inl (is, zero_k) ↦
          rw zero_k (record {
            within = pos;
            there = ap some is;
            none_before = λ j lt. absurd (omega arith);
          })
      | inr (is_not, l, later, suc_k) ↦
          let h = find_sof-FirstSof (n - 1) (b ∷ rest) l later in
          rw suc_k (record {
            within = omega (arith, h.within);
            there = h.there;
            none_before =
                from_next_lt (λ j. ¬ At sof0 j (a ∷ b ∷ rest)) l (λ x. is_not cc) h.none_before;
          })
    ]

found_differs : (k : ℕ) → ¬ (some (some k) ≡ some none)
found_differs k e = cc

sof_word-none :
    (n : ℕ) (later : Option (Option ℕ)) (w : ℕ)
    → sof_word n later w ≡ some none
    → (n ≡ 0) ⊎ ((w ≢ sof0) × (later ≡ some none))
sof_word-none n later w e = elim (Bool-cases (n == 0)) [
  | inl at_end ↦ inl (ground arith)
  | inr before ↦ elim (Bool-cases (w == sof0)) [
    | inl is ↦
        let e' : some (some 0) ≡ some none = rw (before, is, sof_word) at e in
        absurd (found_differs 0 e')
    | inr is_not ↦
        let e' : one_further later ≡ some none = rw (before, is_not, sof_word) at e in
        inr (ground arith, one_further-none later e')
  ]
]

-- Without a start of frame in the picture.
pub find_sof-none :
    (n : ℕ) (buf : Bytes) → find_sof n buf ≡ some none → (j : ℕ) → j < n → ¬ At sof0 j buf
unfolding find_sof
find_sof-none n [] e = absurd cc
find_sof-none n (a ∷ []) e = absurd cc
find_sof-none n (a ∷ b ∷ rest) e =
    elim (sof_word-none n (find_sof (n - 1) (b ∷ rest)) (a * 256 + b) e) [
      | inl at_end ↦ λ j lt. absurd (omega arith)
      | inr (is_not, later) ↦
          let before = find_sof-none (n - 1) (b ∷ rest) later in
          λ j lt.
            from_next_lt (λ i. ¬ At sof0 i (a ∷ b ∷ rest)) (n - 1) (λ x. is_not cc) before j
              (omega arith)
    ]
