-- ===== src/Autofocus/Blocks.antt =====
-- readTable on what a JPEG encoder writes for a block: the difference of the DC values, and the runs of zeros with the
-- AC coefficients behind them.
use mjpg_streamer.Common.{
  ℕ, zero, suc, ◌+◌, ◌-◌, ◌*◌, ◌/◌, ◌^◌, ◌≤◌, ◌<◌, ◌≡◌, refl, sym, ap, subst, ◌∙◌, Bool, false,
  List, [], ◌∷◌, ◌++◌, replicate, ltb, arith,
}
use mjpg_streamer.Common.Int.{ℤ, pos, negsuc}
use mjpg_streamer.Common.Bits.{bit_and_ones}
use mjpg_streamer.Autofocus.{Reader, Entry, got, shifted, read_bits, huff_extend}
use mjpg_streamer.Autofocus.Ahead.{value-bits_of, bits_of, length-bits_of, Holds}
use mjpg_streamer.Autofocus.Codes.{Holds-front}
use mjpg_streamer.Autofocus.Symbols.{Codeword}
use Prim.Native.Nat.{bit_and}
use native.Mathlib.Nat.{two-pow-succ}

-- The values whose size is a number of bits.
abbrev pub InCategory : ℕ → ℤ → Type 0
InCategory zero v = v ≡ pos 0
InCategory (suc s) (pos n) = (2 ^ s ≤ n) × (n < 2 ^ suc s)
InCategory (suc s) (negsuc n) = (2 ^ s ≤ suc n) × (suc n < 2 ^ suc s)

-- The bits that the standard appends for a value: those of the value, or of the value less 1 if it is negative.
abbrev pub magnitude : ℕ → ℤ → ℕ
magnitude s (pos n) = n
magnitude s (negsuc n) = 2 ^ s - 2 - n

pub magnitude-lt : (s : ℕ) (v : ℤ) → InCategory s v → magnitude s v < 2 ^ s
magnitude-lt zero v h = subst (λ u. magnitude 0 u < 1) (sym h) (omega arith)
magnitude-lt (suc s) (pos n) h = h.1
magnitude-lt (suc s) (negsuc n) h = omega (arith, h.1)

-- HUFF_EXTEND gives the value back.
pub huff_extend-magnitude : (s : ℕ) (v : ℤ) → InCategory s v → huff_extend (magnitude s v) s ≡ v
unfolding huff_extend
huff_extend-magnitude zero v h = subst (λ u. huff_extend (magnitude 0 u) 0 ≡ u) (sym h) refl
huff_extend-magnitude (suc s) (pos n) h = ground (arith, h.0)
huff_extend-magnitude (suc s) (negsuc n) h = ground (arith, h.0, h.1, two-pow-succ s)

pub read_bits-Holds :
    (size x : ℕ) (tail : List Bool) (r : Reader)
    → Holds r (bits_of size x ++ tail)
    → x < 2 ^ size
    → size ≤ 16
    → 16 ≤ r.bitlen
    → (after : Reader) × (read_bits size r ≡ got (x, after)) × Holds after tail
unfolding read_bits
read_bits-Holds size x tail r h small short many =
    let l = length-bits_of size x in
    let (front, rest) = Holds-front r (bits_of size x) tail h (omega (arith, l)) in
    let top : r.window / 2 ^ (32 - size) ≡ x =
      ap (λ n. r.window / 2 ^ (32 - n)) (sym l) ∙ front ∙ value-bits_of size x small in
    let masked : bit_and (r.window / 2 ^ (32 - size)) (2 ^ size - 1) ≡ x =
      ap (λ t. bit_and t (2 ^ size - 1)) top ∙ bit_and_ones size x small in
    let within : ltb 16 size ≡ false = ground arith in
    (
      shifted size r,
      rw within (ap (λ t. got (t, shifted size r)) masked),
      subst (λ n. Holds (shifted n r) tail) l rest,
    )

-- The bits of the coefficients behind the first, as an encoder may write them: all are written; the rest are zeros; a
-- run of sixteen zeros; a shorter run, and a value behind it.
pub data AcBits (table : List Entry) : List ℤ → List Bool → Type 0 where
  written : AcBits table [] []
  end_of_block :
      (n : ℕ) (code : List Bool)
      → Codeword table 0 code
      → AcBits table (replicate (suc n) (pos 0)) code
  sixteen_zeros :
      (coefficients : List ℤ) (bits code : List Bool)
      → Codeword table 240 code
      → AcBits table coefficients bits
      → AcBits table (replicate 16 (pos 0) ++ coefficients) (code ++ bits)
  coefficient :
      (coefficients : List ℤ) (bits code : List Bool) (run size : ℕ) (v : ℤ)
      → run ≤ 15
      → 1 ≤ size
      → size ≤ 15
      → InCategory size v
      → Codeword table (run * 16 + size) code
      → AcBits table coefficients bits
      → AcBits table
          (replicate run (pos 0) ++ v ∷ coefficients)
          (code ++ (bits_of size (magnitude size v) ++ bits))
