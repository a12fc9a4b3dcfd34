-- ===== src/Proxy/Crlf.antt =====
-- The mask tests of misc.c, byte by byte.
use Prim.Native.Nat.{bit_and, bit_and-bitwise}
use mjpg_streamer.Common.{
  ℕ, ◌+◌, ◌*◌, ◌/◌, ◌%◌, ◌^◌, ◌≤◌, ◌<◌, ◌≡◌, refl, Bool, false, not, ◌&&◌, Option, none, some, List,
  [], ◌∷◌, ◌++◌, arith, ltb, ◌==◌, if◌then◌else◌, min, ap, ap₂, sym, ◌∙◌, Bool-cases, inl, inr, All,
  lt→ltb, some-injective,
}
use mjpg_streamer.Proxy.{is_crlf, is_crlfcrlf, push_byte, shift_16}

-- One binary digit of a mask at a time, for the masks that come up on the way down from 0x0d0a.
mask_3338 : (w : ℕ) → bit_and 3338 w ≡ bit_and 1669 (w / 2) * 2 + min 0 (w % 2)
mask_3338 w =
    bit_and-bitwise 3338 w ∙ ap (λ t. t * 2 + min 0 (w % 2)) (sym (bit_and-bitwise 1669 (w / 2)))

mask_13 : (w : ℕ) → bit_and 13 w ≡ 8 * (w / 8 % 2) + 4 * (w / 4 % 2) + w % 2
mask_13 w = omega (arith, bit_and-bitwise 13 w)

mask_10 : (w : ℕ) → bit_and 10 w ≡ 8 * (w / 8 % 2) + 2 * (w / 2 % 2)
mask_10 w = omega (arith, bit_and-bitwise 10 w)

mask_1669 : (w : ℕ) → bit_and 1669 w ≡ bit_and 834 (w / 2) * 2 + min 1 (w % 2)
mask_1669 w =
    bit_and-bitwise 1669 w ∙ ap (λ t. t * 2 + min 1 (w % 2)) (sym (bit_and-bitwise 834 (w / 2)))

mask_834 : (w : ℕ) → bit_and 834 w ≡ bit_and 417 (w / 2) * 2 + min 0 (w % 2)
mask_834 w =
    bit_and-bitwise 834 w ∙ ap (λ t. t * 2 + min 0 (w % 2)) (sym (bit_and-bitwise 417 (w / 2)))

mask_417 : (w : ℕ) → bit_and 417 w ≡ bit_and 208 (w / 2) * 2 + min 1 (w % 2)
mask_417 w =
    bit_and-bitwise 417 w ∙ ap (λ t. t * 2 + min 1 (w % 2)) (sym (bit_and-bitwise 208 (w / 2)))

mask_208 : (w : ℕ) → bit_and 208 w ≡ bit_and 13 (w / 2 / 2 / 2 / 2) * 16
mask_208 w =
    bit_and-bitwise 208 w
    ∙ ap
        (λ t.
          (((t * 2 + min 0 (w / 2 / 2 / 2 % 2)) * 2 + min 0 (w / 2 / 2 % 2)) * 2
              + min 0 (w / 2 % 2))
            * 2
          + min 0 (w % 2))
        (sym (bit_and-bitwise 13 (w / 2 / 2 / 2 / 2)))
    ∙ omega arith

pub mask_split : (w : ℕ) → bit_and 3338 w ≡ bit_and 13 (w / 256) * 256 + bit_and 10 w
mask_split w =
    let deep : w / 2 / 2 / 2 / 2 / 2 / 2 / 2 / 2 ≡ w / 256 = omega arith in
    let at_deep = ap (bit_and 13) deep in
    omega (
      arith,
      mask_3338 w,
      mask_1669 (w / 2),
      mask_834 (w / 2 / 2),
      mask_417 (w / 2 / 2 / 2),
      mask_208 (w / 2 / 2 / 2 / 2),
      at_deep,
      mask_10 w,
    )

-- The bits that the mask 0x0d wants, and those that 0x0a wants.
unfoldable pub cr_like : ℕ → Bool
cr_like v = bit_and 13 v == 13

unfoldable pub lf_like : ℕ → Bool
lf_like v = bit_and 10 v == 10

pub is_crlf_split : (w : ℕ) → is_crlf w ≡ (cr_like (w / 256) && lf_like w)
unfolding is_crlf cr_like lf_like
is_crlf_split w = ground (arith, mask_split w, mask_10 w, mask_13 (w / 256))

pub cr_like_congr : (v w : ℕ) → v % 16 ≡ w % 16 → cr_like v ≡ cr_like w
unfolding cr_like
cr_like_congr v w h = ap (λ t. t == 13) (omega (arith, mask_13 v, mask_13 w))

pub lf_like_congr : (v w : ℕ) → v % 16 ≡ w % 16 → lf_like v ≡ lf_like w
unfolding lf_like
lf_like_congr v w h = ap (λ t. t == 10) (omega (arith, mask_10 v, mask_10 w))

pub is_crlf_congr : (v w : ℕ) → v % 2 ^ 16 ≡ w % 2 ^ 16 → is_crlf v ≡ is_crlf w
is_crlf_congr v w h = rw (
  is_crlf_split v,
  is_crlf_split w,
  cr_like_congr (v / 256) (w / 256) (omega arith),
  lf_like_congr v w (omega arith),
)

-- What the next bytes can see of the last four.
pub record Flags : Type 0 where
  pub cr : Bool
  pub now : Bool
  pub before : Bool

abbrev pub flags : ℕ → Flags
flags w = record { cr = cr_like w; now = is_crlf w; before = is_crlf (w / 256) }

abbrev pub advance : Flags → ℕ → Flags
advance f b = record { cr = cr_like b; now = f.cr && lf_like b; before = f.now }

push_byte_parts :
    (w b : ℕ)
    → b < 128
    → (push_byte w b % 16 ≡ b % 16) × (push_byte w b / 256 ≡ w % 2 ^ 24) × (push_byte w b < 2 ^ 32)
unfolding push_byte
push_byte_parts w b h = ground arith

pub push_byte-lt : (w b : ℕ) → b < 256 → push_byte w b < 2 ^ 32
unfolding push_byte
push_byte-lt w b h = ground arith

pub flags-push_byte : (w b : ℕ) → b < 128 → flags (push_byte w b) ≡ advance (flags w) b
flags-push_byte w b h =
    let (low, high, fits) = push_byte_parts w b h in
    let cr = cr_like_congr (push_byte w b) b low in
    let lf = lf_like_congr (push_byte w b) b low in
    let up = cr_like_congr (push_byte w b / 256) w (omega arith) in
    let now = is_crlf_congr (push_byte w b / 256) w (omega arith) in
    λ i. record {
      cr = cr i;
      now = (is_crlf_split (push_byte w b) ∙ ap₂ ◌&&◌ up lf) i;
      before = now i;
    }

shift_16_low : (w : ℕ) → w < 2 ^ 32 → shift_16 w % 2 ^ 16 ≡ w / 2 ^ 16
unfolding shift_16
shift_16_low w h = elim (Bool-cases (ltb w (2 ^ 31))) [
  | inl low ↦ rw low (omega arith)
  | inr high ↦ rw high (omega arith)
]

-- The test for an empty line sees CR LF now, and CR LF two bytes ago.
pub is_crlfcrlf-push_byte :
    (w b : ℕ)
    → b < 128
    → w < 2 ^ 32
    → is_crlfcrlf (push_byte w b) ≡ ((flags w).cr && lf_like b && (flags w).before)
unfolding is_crlfcrlf
is_crlfcrlf-push_byte w b h fits =
    let (low, high, small) = push_byte_parts w b h in
    let lf = lf_like_congr (push_byte w b) b low in
    let up = cr_like_congr (push_byte w b / 256) w (omega arith) in
    let shifted : shift_16 (push_byte w b) % 2 ^ 16 ≡ w / 256 % 2 ^ 16 =
      omega (arith, shift_16_low (push_byte w b) small) in
    let early = is_crlf_congr (shift_16 (push_byte w b)) (w / 256) shifted in
    rw (is_crlf_split (push_byte w b), up, lf, early)

abbrev pub clear : Flags
clear = record { cr = false; now = false; before = false }

-- The flags after an ASCII text in which no empty line is seen; `none` if one is.
unfoldable pub scan : Flags → List ℕ → Option Flags
scan f [] = some f
scan f (b ∷ bs) =
    let rest = scan (advance f b) bs in
    if ltb b 128 && not (f.cr && lf_like b && f.before) then rest else none

none≢some : {A : Type 0} {a : A} → none ≡ some a → ⊥
none≢some e = cc

pub scan-append :
    (xs ys : List ℕ) (f : Flags) {g : Flags} → scan f xs ≡ some g → scan f (xs ++ ys) ≡ scan g ys
unfolding scan
scan-append [] ys f e = ap (λ t. scan t ys) (some-injective _ _ e)
scan-append (x ∷ xs) ys f {g} e =
    elim (Bool-cases (ltb x 128 && not (f.cr && lf_like x && f.before))) [
      | inl h ↦ rw h (scan-append xs ys (advance f x) (rw h at e))
      | inr h ↦ absurd (none≢some (rw h at e))
    ]

abbrev pub IsDigit : ℕ → Type 0
IsDigit b = (48 ≤ b) × (b ≤ 57)

digit_not_like : (b : ℕ) → IsDigit b → (cr_like b ≡ false) × (lf_like b ≡ false)
unfolding cr_like lf_like
digit_not_like b h = ground (arith, mask_13 b, mask_10 b)

pub scan-cons :
    (f : Flags) (b : ℕ) (bs : List ℕ) {g : Flags}
    → scan f (b ∷ bs) ≡ some g
    → (b < 128) × ((f.cr && lf_like b && f.before) ≡ false) × (scan (advance f b) bs ≡ some g)
unfolding scan
scan-cons f b bs e = (ground arith, ground arith, ground arith)

-- No digit counts as a part of a line end.
pub scan_digits : (ds : List ℕ) → All IsDigit ds → scan clear ds ≡ some clear
unfolding scan
scan_digits [] h = refl
scan_digits (d ∷ ds) (h, t) =
    let (c, l) = digit_not_like d h in
    ground (arith, c, l, lt→ltb d 128 (omega arith), scan_digits ds t)
