-- ===== src/Autofocus/Symbols.antt =====
-- readXC on a Huffman code in front of the bits that the reader has still to give.
use mjpg_streamer.Common.{
  ℕ, suc, ◌+◌, ◌-◌, ◌*◌, ◌/◌, ◌^◌, ◌≤◌, ◌<◌, ◌≡◌, sym, ap, subst, ◌∙◌, Bool, List, [], ◌∷◌, ◌++◌,
  length, length-append, some, none, get_elem?, get_elem?, arith,
}
use mjpg_streamer.Autofocus.{Reader, Entry, got, refused, refill, shifted, find_code, read_xc}
use mjpg_streamer.Autofocus.Ahead.{value, value-lt, two_pow_add, Holds}
use mjpg_streamer.Autofocus.Refilled.{refill-Holds}
use mjpg_streamer.Autofocus.Codes.{Holds-front}
use mjpg_streamer.Autofocus.Lookup.{
  Ordered, Ordered-get, InRange, width, find_code-row, find_code-last, get_elem?-last,
}
use native.Mathlib.Nat.{div-mul-le_self, lt-div-mul-add, one-le-pow}

-- The bits are the code of a row.
pub record IsCode (row : Entry) (code : List Bool) : Type 0 where
  pub long : length code ≡ row.bitlen
  pub is : row.bits ≡ value code * width row

-- The bits are the code of a symbol that stands in the table, but not in its last row.
pub record Codeword (table : List Entry) (symbol : ℕ) (code : List Bool) : Type 0 where
  pub index : ℕ
  pub row : Entry
  pub there : get_elem? table index ≡ some row
  pub not_last : suc index < length table
  pub of_symbol : row.code ≡ symbol
  pub of_row : IsCode row code

window-lt : (r : Reader) (bits : List Bool) → Holds r bits → r.window < 2 ^ 32
window-lt r bits h =
    let p : 2 ^ r.bitlen * 2 ^ (32 - r.bitlen) ≡ 2 ^ 32 =
      sym (two_pow_add r.bitlen (32 - r.bitlen))
      ∙ ap (λ t. 2 ^ t) {x = r.bitlen + (32 - r.bitlen)} {y = 32} (omega (arith, h.fits)) in
    let v : value h.ahead < 2 ^ r.bitlen =
      subst (λ n. value h.ahead < 2 ^ n) h.of_length (value-lt h.ahead) in
    let q = one-le-pow (32 - r.bitlen) 2 (omega arith) in
    let s : value h.ahead * 2 ^ (32 - r.bitlen) < 2 ^ r.bitlen * 2 ^ (32 - r.bitlen) =
      grind arith in
    omega (arith, h.in_window)

-- The window of a reader that begins with a code lies in the range of its row.
front-InRange :
    (r : Reader) (row : Entry) (code : List Bool)
    → IsCode row code
    → r.window / 2 ^ (32 - length code) ≡ value code
    → InRange r.window row
front-InRange r row code c e =
    let q : r.window / width row * width row ≡ row.bits =
      ap (λ n. r.window / 2 ^ (32 - n) * width row) (sym c.long)
      ∙ ap (λ t. t * width row) e
      ∙ sym c.is in
    let p = one-le-pow (32 - row.bitlen) 2 (omega arith) in
    (
      omega (arith, div-mul-le_self r.window (width row)),
      omega (arith, lt-div-mul-add {a = r.window} {b = width row} p),
    )

read_xc_found :
    (table : List Entry) (r full after : Reader) (row : Entry)
    → refill 2 r ≡ got full
    → find_code full.window table ≡ some row
    → refill 2 (shifted row.bitlen full) ≡ got after
    → read_xc table r ≡ got (row.code, after)
unfolding read_xc
read_xc_found table r full after row e f g = ground (arith, e, f, g)

read_xc_missing :
    (table : List Entry) (r full : Reader)
    → refill 2 r ≡ got full
    → find_code full.window table ≡ none
    → read_xc table r ≡ refused
unfolding read_xc
read_xc_missing table r full e f = ground (arith, e, f)

-- A code in front of the bits is read as its symbol, and leaves the reader with the bits behind it, at least 16 in the
-- window.
pub read_xc-Holds :
    (low : ℕ) (table : List Entry) (symbol : ℕ) (code tail : List Bool) (r : Reader)
    → Ordered low table
    → Codeword table symbol code
    → Holds r (code ++ tail)
    → 16 ≤ length tail
    → (after : Reader) × (read_xc table r ≡ got (symbol, after))
      × Holds after tail
      × (16 ≤ after.bitlen)
read_xc-Holds low table symbol code tail r o c h enough =
    let row = c.row in
    let (full, e, held, many) =
      refill-Holds 2 r (code ++ tail) h (omega (arith, length-append code tail)) (omega arith) in
    let short = (Ordered-get low table c.index row o c.there).1 in
    let (front, rest) =
      Holds-front full code tail held (omega (arith, c.of_row.long, short.short)) in
    let found =
      find_code-row low table c.index row full.window o c.there c.not_last
        (window-lt full (code ++ tail) held) (front-InRange full row code c.of_row front) in
    let (after, e', held', many') =
      refill-Holds 2 (shifted row.bitlen full) tail
        (subst (λ n. Holds (shifted n full) tail) c.of_row.long rest) enough (omega arith) in
    (
      after,
      read_xc_found table r full after row e found e' ∙ ap (λ s. got (s, after)) c.of_symbol,
      held',
      many',
    )

-- In a table whose rows follow one another, a code of the last row is refused as if it were none, where the reader holds
-- at least 16 bits of data behind it (the marker at the end of a frame counts) with no two bytes 0xff in a row.
pub read_xc-last :
    (low : ℕ) (front : List Entry) (row : Entry) (code tail : List Bool) (r : Reader)
    → Ordered low (front ++ row ∷ [])
    → IsCode row code
    → Holds r (code ++ tail)
    → 16 ≤ length tail
    → read_xc (front ++ row ∷ []) r ≡ refused
read_xc-last low front row code tail r o c h enough =
    let (full, e, held, many) =
      refill-Holds 2 r (code ++ tail) h (omega (arith, length-append code tail)) (omega arith) in
    let short = (Ordered-get low _ (length front) row o (get_elem?-last front row)).1 in
    let (top, rest) = Holds-front full code tail held (omega (arith, c.long, short.short)) in
    read_xc_missing (front ++ row ∷ []) r full e (
      find_code-last low front row full.window o (window-lt full (code ++ tail) held)
        (front-InRange full row code c top))
