-- ===== src/Uvc/Picture/Inserted.antt =====
-- What memcpy_picture makes of a picture.
use mjpg_streamer.Common.{
  ℕ, zero, suc, ◌+◌, ◌*◌, ◌-◌, ◌≤◌, ◌<◌, ◌≡◌, refl, ap, sym, ◌∙◌, subst, inl, inr, true, false,
  Bool-cases, Option-cases, List, [], ◌∷◌, ◌++◌, none, some, some-injective, length, length-take,
  take, take_all, take-suc-get_or, get_or, drop, drop-nil, drop-append_left, append_assoc, All, ltb,
  ◌==◌, arith,
}
use mjpg_streamer.Common.Text.{Bytes}
use mjpg_streamer.Uvc.Table.{dht_data}
use mjpg_streamer.Uvc.Picture.{sof0, sos, dht, is_huffman, find_sof, memcpy_picture}
use mjpg_streamer.Uvc.Picture.Markers.{
  word, At, HasTable, FirstSof, is_huffman-HasTable, find_sof-FirstSof, find_sof-none,
}

-- What memcpy_picture makes of the first `size` bytes of `buf`.
pub data Pictured (buf : Bytes) (size : ℕ) (out : Bytes) : Type 0 where
  as_is : HasTable 0 buf → out ≡ take size buf → Pictured buf size out
  dropped :
      ¬ HasTable 0 buf → ((j : ℕ) → j < size → ¬ At sof0 j buf) → out ≡ [] → Pictured buf size out
  inserted :
      (k : ℕ)
      → ¬ HasTable 0 buf
      → FirstSof size k buf
      → out ≡ take k buf ++ (dht_data ++ drop k (take size buf))
      → Pictured buf size out

drop-take : {A : Type 0} (k n : ℕ) (xs : List A) → drop k (take n xs) ≡ take (n - k) (drop k xs)
drop-take zero n xs = ap (λ m. take m xs) (omega arith)
drop-take (suc k) zero xs =
    drop-nil (suc k) ∙ ap (λ m. take m (drop (suc k) xs)) {x = 0} (omega arith)
drop-take (suc k) (suc n) [] = sym (take_all (suc n - suc k) [] (omega arith))
drop-take (suc k) (suc n) (x ∷ xs) = drop-take k n xs ∙ ap (λ m. take m (drop k xs)) (omega arith)

-- Where memcpy_picture reads nothing beyond the memory: a picture with a table of its own is copied as it is; one
-- without has the table put in front of its first start of frame, and is dropped if it has none. Whether it has a table
-- is looked for at the first 2049 positions, up to the first start of scan.
pub memcpy_picture-Pictured :
    (buf : Bytes) (size : ℕ) (out : Bytes)
    → memcpy_picture buf size ≡ some out
    → Pictured buf size out
unfolding memcpy_picture
memcpy_picture-Pictured buf size out e = elim (Option-cases (is_huffman buf)) [
  | inl beyond ↦ absurd (cc (rw (beyond, memcpy_picture) at e))
  | inr (true, found) ↦ elim (Bool-cases (ltb (length buf) size)) [
    | inl beyond ↦ absurd (cc (rw (found, beyond, memcpy_picture) at e))
    | inr inside ↦
        let e' : some (take size buf) ≡ some out = rw (found, inside, memcpy_picture) at e in
        as_is ((is_huffman-HasTable buf).0 found) cc
  ]
  | inr (false, missing) ↦
      let no_table : ¬ HasTable 0 buf = λ h. let found = (is_huffman-HasTable buf).1 h in cc in
      elim (Option-cases (find_sof size buf)) [
        | inl beyond ↦ absurd (cc (rw (missing, beyond, memcpy_picture) at e))
        | inr (none, nowhere) ↦
            let e' : some [] ≡ some out = rw (missing, nowhere, memcpy_picture) at e in
            dropped no_table (find_sof-none size buf nowhere) cc
        | inr (some k, at) ↦ elim (Bool-cases (ltb (length buf) size)) [
          | inl beyond ↦ absurd (cc (rw (missing, at, beyond, memcpy_picture) at e))
          | inr inside ↦
              let e' : some (take k buf ++ (dht_data ++ take (size - k) (drop k buf))) ≡ some out =
                rw (missing, at, inside, memcpy_picture) at e in
              inserted k no_table (find_sof-FirstSof size buf k at) (rw (drop-take k size buf) cc)
        ]
      ]
]

-- The words of the head of a picture.
word-head :
    (j n : ℕ) (buf behind : Bytes)
    → suc j < n
    → n ≤ length buf
    → word (drop j (take n buf ++ behind)) ≡ word (drop j buf)
word-head j zero buf behind lt le = absurd (omega arith)
word-head j (suc n) [] behind lt le = absurd (omega arith)
word-head zero (suc zero) (a ∷ buf) behind lt le = absurd (omega arith)
word-head zero (suc (suc n)) (a ∷ []) behind lt le = absurd (omega arith)
word-head zero (suc (suc n)) (a ∷ b ∷ buf) behind lt le = refl
word-head (suc j) (suc n) (a ∷ buf) behind lt le =
    word-head j n buf behind (omega arith) (omega arith)

At-length : (m k : ℕ) (buf : Bytes) → At m k buf → k < length buf
At-length m zero [] e = absurd cc
At-length m (suc k) [] e = absurd cc
At-length m zero (a ∷ buf) e = omega arith
At-length m (suc k) (a ∷ buf) e = omega (arith, At-length m k buf e)

-- A start of frame begins with 255, the first byte of the table as well.
sof0_first : (k : ℕ) (buf : Bytes) → All (λ b. b < 256) buf → At sof0 k buf → get_or buf k 0 ≡ 255
sof0_first k [] bytes e = absurd (omega (arith, At-length sof0 k [] e))
sof0_first zero (a ∷ []) bytes e = absurd cc
sof0_first zero (a ∷ b ∷ buf) bytes e =
    let w : a * 256 + b ≡ sof0 = cc in omega (arith, bytes.0, bytes.1.0)
sof0_first (suc k) (a ∷ buf) bytes e = sof0_first k buf bytes.1 e

sos-dht : ¬ (some sos ≡ some dht)
sos-dht e = let e' : sos ≡ dht = some-injective sos dht e in omega arith

-- In front of the table the picture's words stand, the last with the table's first byte.
inserted-word :
    (buf back : Bytes) (k j : ℕ)
    → get_or buf k 0 ≡ 255
    → k < length buf
    → j < k
    → word (drop j (take k buf ++ (dht_data ++ back))) ≡ word (drop j buf)
inserted-word buf back k j first lt before =
    let joined : take k buf ++ (dht_data ++ back) ≡ take (suc k) buf ++ (drop 1 dht_data ++ back) =
      sym (append_assoc (take k buf) (255 ∷ []) (drop 1 dht_data ++ back))
      ∙ ap (λ t. t ++ (drop 1 dht_data ++ back))
          (ap (λ b. take k buf ++ b ∷ []) (sym first) ∙ sym (take-suc-get_or buf k 0 lt)) in
    ap (λ t. word (drop j t)) joined
    ∙ word-head j (suc k) buf (drop 1 dht_data ++ back) (omega arith) (omega arith)

inserted-HasTable :
    (buf back : Bytes) (size k : ℕ)
    → All (λ b. b < 256) buf
    → FirstSof size k buf
    → k ≤ 2048
    → ((j : ℕ) → j < k → ¬ At sos j buf)
    → HasTable 0 (take k buf ++ (dht_data ++ back))
unfolding HasTable
inserted-HasTable buf back size k bytes sof le none_before =
    let lt = At-length sof0 k buf sof.there in
    let n : length (take k buf) ≡ k = omega (arith, length-take k buf) in
    let at_k : drop k (take k buf ++ (dht_data ++ back)) ≡ dht_data ++ back =
      ap (λ i. drop i (take k buf ++ (dht_data ++ back))) (sym n)
      ∙ drop-append_left (take k buf) (dht_data ++ back) in
    let there : At dht k (take k buf ++ (dht_data ++ back)) = ap word at_k in
    (
      k,
      omega arith,
      there,
      λ j le. elim (Bool-cases (j == k)) [
        | inl same ↦
            let e : j ≡ k = ground arith in
            λ is_sos.
              sos-dht
                (sym (subst (λ i. At sos i (take k buf ++ (dht_data ++ back))) e is_sos) ∙ there)
        | inr other ↦
            let lt : j < k = ground arith in
            λ is_sos. none_before j lt (
              sym (
                inserted-word buf back k j (sof0_first k buf bytes sof.there)
                  (At-length sof0 k buf sof.there) lt)
              ∙ is_sos)
      ],
    )

copied_as_is :
    (out : Bytes) → is_huffman out ≡ some true → memcpy_picture out (length out) ≡ some out
unfolding memcpy_picture
copied_as_is out found =
    let inside : ltb (length out) (length out) ≡ false = ground arith in
    rw (memcpy_picture, found, inside) (ap some (take_all (length out) out (omega arith)))

again :
    (buf back : Bytes) (size k : ℕ)
    → All (λ b. b < 256) buf
    → FirstSof size k buf
    → k ≤ 2048
    → ((j : ℕ) → j < k → ¬ At sos j buf)
    → let out = take k buf ++ (dht_data ++ back) in memcpy_picture out (length out) ≡ some out
again buf back size k bytes sof le none_before =
    let out = take k buf ++ (dht_data ++ back) in
    let found : is_huffman out ≡ some true =
      (is_huffman-HasTable out).1 (inserted-HasTable buf back size k bytes sof le none_before) in
    copied_as_is out found

-- The picture that memcpy_picture makes of one without a table, if it does not drop it, has a table: the next call
-- copies it as it is. The picture's first start of frame is at one of the first 2049 positions, and no start of scan is
-- before it.
pub memcpy_picture_again :
    (buf : Bytes) (size : ℕ) (out : Bytes)
    → memcpy_picture buf size ≡ some out
    → All (λ b. b < 256) buf
    → ¬ HasTable 0 buf
    → 0 < length out
    → ((k : ℕ) → FirstSof size k buf → (k ≤ 2048) × ((j : ℕ) → j < k → ¬ At sos j buf))
    → memcpy_picture out (length out) ≡ some out
memcpy_picture_again buf size out e bytes no_table kept early =
    elim (memcpy_picture-Pictured buf size out e) [
      | as_is has_table is ↦ absurd (no_table has_table)
      | dropped _ _ is ↦ absurd (let n = ap length is in omega arith)
      | inserted k _ sof is ↦
          let (le, none_before) = early k sof in
          rw is (again buf (drop k (take size buf)) size k bytes sof le none_before)
    ]
