-- ===== src/Httpd/Unescape.antt =====
-- hex_char_to_int and unescape of httpd.c. The string is the array of its bytes with the terminating
-- zero; unescape works in place, and `none` is the return value -1.
use mjpg_streamer.Common.{
  ℕ, zero, suc, ◌+◌, ◌-◌, ◌*◌, ◌≤◌, ◌<◌, ◌≡◌, refl, sym, ap, ◌∙◌, true, false, not, ◌&&◌, [], ◌∷◌,
  ◌++◌, Option, none, some, length, take, drop, set, get_or, ltb, leb, ◌==◌, if◌then◌else◌,
  append_assoc, arith, length-append, Bool-cases, Option-cases, inl, inr, take-suc-set, drop-set_lt,
  set-set, get_or-set_self, get_or-drop, drop-drop, length-set, drop-append_left, get_or-set_ne,
}
use mjpg_streamer.Common.Text.{Bytes}

unfoldable pub hex_char_to_int : ℕ → Option ℕ
hex_char_to_int c =
    if leb b'0' c && leb c b'9'
    then some (c - b'0')
    else if leb b'a' c && leb c b'f'
    then some (c - b'a' + 10)
    else if leb b'A' c && leb c b'F'
    then some (c - b'A' + 10)
    else none

-- The loop over `src` and `dst`; the fuel is more than the bytes left.
unfoldable pub unescape_loop : ℕ → ℕ → ℕ → ℕ → Bytes → Option Bytes
unfolding hex_char_to_int
unescape_loop zero src dst len s = none
unescape_loop (suc fuel) src dst len s =
    let plain = unescape_loop fuel (src + 1) (dst + 1) len (set s dst (get_or s src 0)) in
    let escaped = elim (hex_char_to_int (get_or s (src + 1) 0)) as (λ _. Option Bytes) [
      | none ↦ none
      | some hi ↦
          let s' = set s dst (hi * 16) in
          elim (hex_char_to_int (get_or s' (src + 2) 0)) as (λ _. Option Bytes) [
            | none ↦ none
            | some lo ↦
                unescape_loop fuel (src + 3) (dst + 1) len (set s' dst (get_or s' dst 0 + lo))
          ]
    ] in
    if leb len src
    then some (set s dst 0)
    else if not (get_or s src 0 == b'%')
    then plain
    else if ltb len (src + 2)
    then none
    else escaped

unfoldable pub unescape : Bytes → Option Bytes
unfolding unescape_loop
unescape s = unescape_loop (length s) 0 0 (length s - 1) s

abbrev pub prepend : ℕ → Option Bytes → Option Bytes
prepend c none = none
prepend c (some xs) = some (c ∷ xs)

abbrev pub prepend_hex : Option ℕ → Option ℕ → Option Bytes → Option Bytes
prepend_hex (some hi) (some lo) r = prepend (hi * 16 + lo) r
prepend_hex (some hi) none r = none
prepend_hex none lo r = none

-- The text that an escaped text stands for: each `%` with two hexadecimal digits is one byte, and a `%`
-- without them is an error.
unfoldable pub unescaped : Bytes → Option Bytes
unescaped [] = some []
unescaped (c ∷ []) = if c == b'%' then none else some (c ∷ [])
unescaped (c ∷ a ∷ []) = let rest = unescaped (a ∷ []) in if c == b'%' then none else prepend c rest
unescaped (c ∷ a ∷ b ∷ r) =
    let plain = prepend c (unescaped (a ∷ b ∷ r)) in
    let escaped = prepend_hex (hex_char_to_int a) (hex_char_to_int b) (unescaped r) in
    if c == b'%' then escaped else plain

-- The array after the loop: what stood before `dst`, then `out` and a terminating zero.
abbrev pub Ends : Option Bytes → ℕ → Bytes → Option Bytes → Type 0
Ends none dst s result = result ≡ none
Ends (some out) dst s result =
    (s' : Bytes) × (result ≡ some s')
    × (take (suc (dst + length out)) s' ≡ take dst s ++ (out ++ 0 ∷ []))

-- The invariant of the loop: `rest` is still to read, behind what is written.
pub record Running (src dst len : ℕ) (s rest : Bytes) : Type 0 where
  pub unread : drop src s ≡ rest ++ 0 ∷ []
  pub whole : length s ≡ suc len
  pub ahead : dst ≤ src
  pub left : src + length rest ≡ len

read_at :
    {src dst len : ℕ} {s rest : Bytes}
    → Running src dst len s rest
    → (k : ℕ) → get_or s (src + k) 0 ≡ get_or (rest ++ 0 ∷ []) k 0
read_at {src} {s = s} r k = get_or-drop src s k 0 ∙ ap (λ xs. get_or xs k 0) r.unread

-- After a write at `dst`, with `k` bytes read.
moves :
    {src dst len : ℕ} {s : Bytes} (read rest : Bytes) (v : ℕ)
    → Running src dst len s (read ++ rest)
    → 0 < length read
    → Running (src + length read) (dst + 1) len (set s dst v) rest
moves {src} {dst} {len} {s} read rest v r h = record {
  unread =
      drop-set_lt s dst (src + length read) v (omega (arith, r.ahead))
      ∙ ap (λ k. drop k s) {y = length read + src} (omega arith)
      ∙ sym (drop-drop (length read) src s)
      ∙ ap (drop (length read)) (r.unread ∙ append_assoc read rest (0 ∷ []))
      ∙ drop-append_left read (rest ++ 0 ∷ []);
  whole = length-set s dst v ∙ r.whole;
  ahead = omega (arith, r.ahead);
  left = omega (arith, r.left, length-append read rest);
}

written :
    {src dst len : ℕ} {s rest : Bytes} (v : ℕ) (more : Option Bytes) (result : Option Bytes)
    → Running src dst len s rest
    → 0 < length rest
    → Ends more (dst + 1) (set s dst v) result
    → Ends (prepend v more) dst s result
written v none result r h e = e
written {src} {dst} {len} {s} v (some out) result r h (s', same, text) = (
  s',
  same,
  ap (λ k. take k s') {x = suc (dst + length (v ∷ out))} {y = suc (dst + 1 + length out)}
        (omega arith)
      ∙ text
      ∙ ap (λ xs. xs ++ (out ++ 0 ∷ []))
          (ap (λ k. take k (set s dst v)) {x = dst + 1} {y = suc dst} (omega arith)
            ∙ take-suc-set s dst v (omega (arith, r.ahead, r.whole, r.left)))
      ∙ append_assoc (take dst s) (v ∷ []) (out ++ 0 ∷ []),
)

-- One step of the loop, by what is read at `src`.
module _ (fuel src dst len : ℕ) (s : Bytes) where
  step_end :
      Running src dst len s [] → Ends (some []) dst s (unescape_loop (suc fuel) src dst len s)
  unfolding unescape_loop
  step_end r = (
    set s dst 0,
    ground (arith, r.left),
    ap (λ k. take k (set s dst 0)) {x = suc (dst + 0)} {y = suc dst} (omega arith)
        ∙ take-suc-set s dst 0 (omega (arith, r.ahead, r.whole, r.left)),
  )

  step_plain :
      (c : ℕ) (rest : Bytes)
      → Running src dst len s (c ∷ rest)
      → (c == b'%') ≡ false
      → unescape_loop (suc fuel) src dst len s
        ≡ unescape_loop fuel (src + 1) (dst + 1) len (set s dst c)
  unfolding unescape_loop
  step_plain c rest r h =
      let e : get_or s src 0 ≡ c = ap (λ k. get_or s k 0) (omega arith) ∙ read_at r 0 in
      let more : leb len src ≡ false = ground (arith, r.left) in rw (more, e, h)

  step_short :
      (c : ℕ)
      → Running src dst len s (c ∷ [])
      → (c == b'%') ≡ true
      → unescape_loop (suc fuel) src dst len s ≡ none
  unfolding unescape_loop
  step_short c r h =
      let e : get_or s src 0 ≡ c = ap (λ k. get_or s k 0) (omega arith) ∙ read_at r 0 in
      let more : leb len src ≡ false = ground (arith, r.left) in
      let short : ltb len (src + 2) ≡ true = ground (arith, r.left) in rw (more, e, h, short)

  -- The result at a `%` with two bytes behind it, the last of which may be the terminating zero.
  abbrev decoded : Option ℕ → Option ℕ → Option Bytes
  decoded none lo = none
  decoded (some hi) none = none
  decoded (some hi) (some lo) =
      unescape_loop fuel (src + 3) (dst + 1) len (set s dst (hi * 16 + lo))

  step_escape :
      (c a : ℕ) (rest : Bytes)
      → Running src dst len s (c ∷ a ∷ rest)
      → (c == b'%') ≡ true
      → unescape_loop (suc fuel) src dst len s
        ≡ decoded (hex_char_to_int a) (hex_char_to_int (get_or (rest ++ 0 ∷ []) 0 0))
  unfolding unescape_loop
  step_escape c a rest r h =
      let e : get_or s src 0 ≡ c = ap (λ k. get_or s k 0) (omega arith) ∙ read_at r 0 in
      let first : get_or s (src + 1) 0 ≡ a = read_at r 1 in
      let second : (v : ℕ) → get_or (set s dst v) (src + 2) 0 ≡ get_or (rest ++ 0 ∷ []) 0 0 =
        λ v. get_or-set_ne s dst (src + 2) v 0 (omega (arith, r.ahead)) ∙ read_at r 2 in
      let again : (v w : ℕ)
          → set (set s dst v) dst (get_or (set s dst v) dst 0 + w) ≡ set s dst (v + w) =
        λ v w.
          set-set s dst v (get_or (set s dst v) dst 0 + w)
          ∙ ap (λ t. set s dst (t + w))
              (get_or-set_self s dst v 0 (omega (arith, r.ahead, r.whole, r.left))) in
      let more : leb len src ≡ false = ground (arith, r.left) in
      let room : ltb len (src + 2) ≡ false = ground (arith, r.left) in
      rw (more, e, h, room, first)
        (elim (Option-cases (hex_char_to_int a)) [
          | inl bad ↦ rw bad
          | inr (hi, good) ↦
              rw (good, second (hi * 16))
                (elim (Option-cases (hex_char_to_int (get_or (rest ++ 0 ∷ []) 0 0))) [
                  | inl bad' ↦ rw bad'
                  | inr (lo, good') ↦ rw (good', again (hi * 16) lo)
                ])
        ])

no_digit :
    (fuel src dst len : ℕ) (s : Bytes) (hi : Option ℕ) → decoded fuel src dst len s hi none ≡ none
no_digit fuel src dst len s none = refl
no_digit fuel src dst len s (some hi) = refl

zero_digit : hex_char_to_int 0 ≡ none
unfolding hex_char_to_int
zero_digit = refl

escape-Ends :
    (fuel src dst len : ℕ) (s rest : Bytes) (more : Option Bytes) (hi lo : Option ℕ)
    → Running src dst len s rest
    → 0 < length rest
    → ((v : ℕ)
        → Ends more
            (dst + 1)
            (set s dst v)
            (unescape_loop fuel (src + 3) (dst + 1) len (set s dst v)))
    → Ends (prepend_hex hi lo more) dst s (decoded fuel src dst len s hi lo)
escape-Ends fuel src dst len s rest more none lo r h later = refl
escape-Ends fuel src dst len s rest more (some hi) none r h later = refl
escape-Ends fuel src dst len s rest more (some hi) (some lo) r h later =
    written (hi * 16 + lo) more
      (unescape_loop fuel (src + 3) (dst + 1) len (set s dst (hi * 16 + lo))) r h
      (later (hi * 16 + lo))

unescape_loop-Ends :
    (fuel src dst len : ℕ) (s rest : Bytes)
    → Running src dst len s rest
    → length rest < fuel
    → Ends (unescaped rest) dst s (unescape_loop fuel src dst len s)
unfolding unescaped
unescape_loop-Ends zero src dst len s rest r h = absurd (omega arith)
unescape_loop-Ends (suc fuel) src dst len s [] r h = step_end fuel src dst len s r
unescape_loop-Ends (suc fuel) src dst len s (c ∷ []) r h = elim (Bool-cases (c == b'%')) [
  | inl pct ↦ rw pct (step_short fuel src dst len s c r pct)
  | inr other ↦ rw other (
      written c (some []) (unescape_loop (suc fuel) src dst len s) r (omega arith) (
        rw (step_plain fuel src dst len s c [] r other) (
          unescape_loop-Ends fuel (src + 1) (dst + 1) len (set s dst c) []
            (moves (c ∷ []) [] c r (omega arith)) (omega arith))))
]
unescape_loop-Ends (suc fuel) src dst len s (c ∷ a ∷ []) r h = elim (Bool-cases (c == b'%')) [
  | inl pct ↦ rw pct (
      step_escape fuel src dst len s c a [] r pct
      ∙ rw zero_digit (no_digit fuel src dst len s (hex_char_to_int a)))
  | inr other ↦ rw other (
      written c (unescaped (a ∷ [])) (unescape_loop (suc fuel) src dst len s) r (omega arith) (
        rw (step_plain fuel src dst len s c (a ∷ []) r other) (
          unescape_loop-Ends fuel (src + 1) (dst + 1) len (set s dst c) (a ∷ [])
            (moves (c ∷ []) (a ∷ []) c r (omega arith)) (omega arith))))
]
unescape_loop-Ends (suc fuel) src dst len s (c ∷ a ∷ b ∷ rest) r h = elim (Bool-cases (c == b'%')) [
  | inl pct ↦
      rw (pct, step_escape fuel src dst len s c a (b ∷ rest) r pct)
        (escape-Ends fuel src dst len s (c ∷ a ∷ b ∷ rest) (unescaped rest) (hex_char_to_int a)
          (hex_char_to_int b) r (omega arith)
          (λ v.
            unescape_loop-Ends fuel (src + 3) (dst + 1) len (set s dst v) rest
              (moves (c ∷ a ∷ b ∷ []) rest v r (omega arith)) (omega arith)))
  | inr other ↦ rw other (
      written c (unescaped (a ∷ b ∷ rest)) (unescape_loop (suc fuel) src dst len s) r (omega arith)
        (rw (step_plain fuel src dst len s c (a ∷ b ∷ rest) r other) (
          unescape_loop-Ends fuel (src + 1) (dst + 1) len (set s dst c) (a ∷ b ∷ rest)
            (moves (c ∷ []) (a ∷ b ∷ rest) c r (omega arith)) (omega arith))))
]

-- unescape returns -1 exactly on the texts that hold a `%` without two hexadecimal digits behind it; on
-- the others it leaves the text that they stand for, with its terminating zero, at the head of the array.
pub unescape-unescaped :
    (text : Bytes) → Ends (unescaped text) 0 (text ++ 0 ∷ []) (unescape (text ++ 0 ∷ []))
unfolding unescape
unescape-unescaped text =
    let len = length-append text (0 ∷ []) in
    let size : length (text ++ 0 ∷ []) - 1 ≡ length text = omega (arith, len) in
    rw size (
      unescape_loop-Ends (length (text ++ 0 ∷ [])) 0 0 (length text) (text ++ 0 ∷ []) text
        (record {
          unread = refl;
          whole = omega (arith, len);
          ahead = omega arith;
          left = omega arith;
        })
        (omega (arith, len)))
