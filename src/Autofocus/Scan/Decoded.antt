-- ===== src/Autofocus/Scan/Decoded.antt =====
-- readTable and the loop over a scan, on what a JPEG encoder writes.
use mjpg_streamer.Common.{
  ℕ, ◌≤◌, ◌≡◌, refl, sym, ap, ap₂, subst, ◌∙◌, Bool, List, [], ◌∷◌, ◌++◌, length, length-append,
  append_assoc, replicate, le→leb, arith,
}
use mjpg_streamer.Common.Int.{ℤ, pos, ◌+ℤ◌}
use mjpg_streamer.Autofocus.{
  Reader, Entry, got, read_xc, read_bits, huff_extend, ac_loop, read_table, Progress,
}
use mjpg_streamer.Autofocus.Ahead.{bits_of, Holds}
use mjpg_streamer.Autofocus.Lookup.{Ordered}
use mjpg_streamer.Autofocus.Symbols.{Codeword, read_xc-Holds}
use mjpg_streamer.Autofocus.Blocks.{
  InCategory, magnitude, magnitude-lt, huff_extend-magnitude, read_bits-Holds, AcBits,
}
use mjpg_streamer.Autofocus.Coefficients.{ac_loop-AcBits}

-- A block: the difference of its DC value to the one before, and its other coefficients.
pub record Coded : Type 0 where
  pub difference : ℤ
  pub coefficients : List ℤ

-- The bits of a block, as an encoder may write them.
pub record BlockBits (dc ac : List Entry) (b : Coded) (bits : List Bool) : Type 0 where
  pub size : ℕ
  pub dc_code : List Bool
  pub ac_bits : List Bool
  pub of_size : Codeword dc size dc_code
  pub category : InCategory size b.difference
  pub short : size ≤ 16
  pub of_ac : AcBits ac b.coefficients ac_bits
  pub many : length b.coefficients ≡ 63
  pub together : bits ≡ dc_code ++ (bits_of size (magnitude size b.difference) ++ ac_bits)

read_table_steps :
    (dc ac : List Entry) (last : ℤ) (r r1 r2 : Reader) (size x : ℕ) (p : Progress)
    → read_xc dc r ≡ got (size, r1)
    → read_bits size r1 ≡ got (x, r2)
    → ac_loop 63 ac
        (record { j = 0; table = (huff_extend x size +ℤ last) ∷ replicate 63 (pos 0); reader = r2 })
      ≡ got p
    → p.j ≤ 63
    → read_table dc ac last r
      ≡ got (record { table = p.table; last_dc = huff_extend x size +ℤ last; reader = p.reader })
unfolding read_table
read_table_steps dc ac last r r1 r2 size x p e f g h =
    let within = le→leb p.j 63 h in rw e (rw f (rw g (rw within refl)))

-- readTable gives back the coefficients of a block, with the DC value, from the bits that an encoder writes for it.
pub read_table-BlockBits :
    (dc ac : List Entry) (last : ℤ) (b : Coded) (bits tail : List Bool) (r : Reader)
    → Ordered 0 dc
    → Ordered 0 ac
    → BlockBits dc ac b bits
    → Holds r (bits ++ tail)
    → 16 ≤ length tail
    → (after : Reader) × (read_table dc ac last r
        ≡ got (record {
          table = (b.difference +ℤ last) ∷ b.coefficients;
          last_dc = b.difference +ℤ last;
          reader = after;
        }))
      × Holds after tail
read_table-BlockBits dc ac last b bits tail r o o' w h enough =
    let m = magnitude w.size b.difference in
    let size_bits : List Bool = bits_of w.size m in
    let order : bits ++ tail ≡ w.dc_code ++ (size_bits ++ (w.ac_bits ++ tail)) =
      ap (λ t. t ++ tail) w.together
      ∙ append_assoc w.dc_code (size_bits ++ w.ac_bits) tail
      ∙ ap (λ t. w.dc_code ++ t) (append_assoc size_bits w.ac_bits tail) in
    let (r1, e, held, many) =
      read_xc-Holds 0 dc w.size w.dc_code (size_bits ++ (w.ac_bits ++ tail)) r o w.of_size
        (subst (Holds r) order h)
        (omega
          (arith, length-append size_bits (w.ac_bits ++ tail), length-append w.ac_bits tail)) in
    let (r2, e2, held2) =
      read_bits-Holds w.size m (w.ac_bits ++ tail) r1 held
        (magnitude-lt w.size b.difference w.category) w.short many in
    let dc_value : ℤ = huff_extend m w.size +ℤ last in
    let value_is : dc_value ≡ b.difference +ℤ last =
      ap (λ v. v +ℤ last) (huff_extend-magnitude w.size b.difference w.category) in
    let (p, e3, q, j, held3) =
      ac_loop-AcBits 63 0 (dc_value ∷ []) tail r2 o' w.of_ac held2 enough refl
        (omega (arith, w.many)) (omega (arith, w.many)) in
    let zeros_are : replicate (length b.coefficients) (pos 0) ≡ replicate 63 (pos 0) =
      ap (λ n. replicate n (pos 0)) w.many in
    (
      p.reader,
      read_table_steps dc ac last r r1 r2 w.size m p e e2
            (ap (λ z. ac_loop 63 ac (record { j = 0; table = dc_value ∷ z; reader = r2 }))
                (sym zeros_are)
              ∙ e3)
            j
          ∙ ap₂ (λ t v. got (record { table = t; last_dc = v; reader = p.reader }))
              (q ∙ ap (λ v. v ∷ b.coefficients) value_is) value_is,
      held3,
    )
