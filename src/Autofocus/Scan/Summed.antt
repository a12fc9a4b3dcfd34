-- ===== src/Autofocus/Scan/Summed.antt =====
-- The sums that the loop over a scan leaves, against the blocks of Y in raster order.
use mjpg_streamer.Common.{
  ℕ, suc, ◌+◌, ◌≤◌, ◌≡◌, refl, ap, subst, ◌∙◌, Bool, List, [], ◌∷◌, ◌++◌, length, length-append,
  append_assoc, ◌==◌, arith, if◌then◌else◌,
}
use mjpg_streamer.Common.Int.{ℤ, ◌+ℤ◌}
use mjpg_streamer.Autofocus.{Read, Reader, got}
use mjpg_streamer.Autofocus.Ahead.{Holds}
use mjpg_streamer.Autofocus.Lookup.{Ordered}
use mjpg_streamer.Autofocus.Scan.Decoded.{Coded, BlockBits, read_table-BlockBits}
use mjpg_streamer.Autofocus.Scan.{
  Doubles, Coding, Scan, weight, add_block, y_block, skip_cr, skip_cb, next_row, scan_loop,
}

-- Two blocks of Y, and one each of Cr and Cb, as the loop reads them.
pub record Mcu : Type 0 where
  pub y1 : Coded
  pub y2 : Coded
  pub cr : Coded
  pub cb : Coded

-- The coefficients of the blocks of Y, with the DC value before the first.
abbrev pub y_values : ℤ → List Mcu → List (List ℤ)
y_values last [] = []
y_values last (m ∷ ms) =
    let first = m.y1.difference +ℤ last in
    let second = m.y2.difference +ℤ first in
    (first ∷ m.y1.coefficients) ∷ (second ∷ m.y2.coefficients) ∷ y_values second ms

module _ (d : Doubles) (c : Coding d) where
  open d use {Double}

  -- The tables are as the specification of JPEG makes them.
  pub record HasTables : Type 0 where
    pub dc_y : Ordered 0 c.dc_y
    pub ac_y : Ordered 0 c.ac_y
    pub dc_c : Ordered 0 c.dc_c
    pub ac_c : Ordered 0 c.ac_c

  pub record McuBits (m : Mcu) (bits : List Bool) : Type 0 where
    pub y1 : List Bool
    pub y2 : List Bool
    pub cr : List Bool
    pub cb : List Bool
    pub of_y1 : BlockBits c.dc_y c.ac_y m.y1 y1
    pub of_y2 : BlockBits c.dc_y c.ac_y m.y2 y2
    pub of_cr : BlockBits c.dc_c c.ac_c m.cr cr
    pub of_cb : BlockBits c.dc_c c.ac_c m.cb cb
    pub together : bits ≡ y1 ++ (y2 ++ (cr ++ cb))

  -- The bits of a scan, as an encoder may write them.
  abbrev pub ScanBits : List Mcu → List Bool → Type 0
  ScanBits [] bits = bits ≡ []
  ScanBits (m ∷ ms) bits =
      (first : List Bool) × (later : List Bool) × McuBits m first
      × ScanBits ms later
      × (bits ≡ first ++ later)

  -- The sums over blocks that follow one another from left to right and from row to row.
  abbrev pub summed : ℕ → ℕ → List (List ℤ) → List Double → List Double
  summed x y [] sums = sums
  summed x y (table ∷ tables) sums =
      let ends : Bool = (x + 1) == c.across in
      summed (if ends then 0 else x + 1) (if ends then y + 1 else y) tables
        (add_block d (weight d c x y) table c.quant sums)

  abbrev pub y_seen : Scan d → Coded → Reader → Scan d
  y_seen s b after = record s {
    last_y = b.difference +ℤ s.last_y;
    sum_ac =
        add_block d (weight d c s.xp s.yp) ((b.difference +ℤ s.last_y) ∷ b.coefficients) c.quant
          s.sum_ac;
    cnt2 = s.cnt2 + 1;
    xp = s.xp + 1;
    reader = after;
  }

  abbrev pub cr_seen : Scan d → Coded → Reader → Scan d
  cr_seen s b after = record s { last_cr = b.difference +ℤ s.last_cr; reader = after }

  abbrev pub cb_seen : Scan d → Coded → Reader → Scan d
  cb_seen s b after = record s { last_cb = b.difference +ℤ s.last_cb; reader = after }

  -- What a block leaves of the bits.
  abbrev Leaves : Read (Scan d) → (Reader → Scan d) → List Bool → Type 0
  Leaves result seen tail = (after : Reader) × (result ≡ got (seen after)) × Holds after tail

  module _ (t : HasTables) (s : Scan d) (b : Coded) (bits tail : List Bool)
      (enough : 16 ≤ length tail) where
    y_block-BlockBits :
        BlockBits c.dc_y c.ac_y b bits
        → Holds s.reader (bits ++ tail)
        → Leaves (y_block d c s) (y_seen s b) tail
    unfolding y_block
    y_block-BlockBits w h =
        let (after, e, held) =
          read_table-BlockBits c.dc_y c.ac_y s.last_y b bits tail s.reader t.dc_y t.ac_y w h
            enough in
        (after, rw e refl, held)

    skip_cr-BlockBits :
        BlockBits c.dc_c c.ac_c b bits
        → Holds s.reader (bits ++ tail)
        → Leaves (skip_cr d c s) (cr_seen s b) tail
    unfolding skip_cr
    skip_cr-BlockBits w h =
        let (after, e, held) =
          read_table-BlockBits c.dc_c c.ac_c s.last_cr b bits tail s.reader t.dc_c t.ac_c w h
            enough in
        (after, rw e refl, held)

    skip_cb-BlockBits :
        BlockBits c.dc_c c.ac_c b bits
        → Holds s.reader (bits ++ tail)
        → Leaves (skip_cb d c s) (cb_seen s b) tail
    unfolding skip_cb
    skip_cb-BlockBits w h =
        let (after, e, held) =
          read_table-BlockBits c.dc_c c.ac_c s.last_cb b bits tail s.reader t.dc_c t.ac_c w h
            enough in
        (after, rw e refl, held)

  mcu_steps :
      (n : ℕ) (s one two three four : Scan d)
      → y_block d c s ≡ got one
      → y_block d c one ≡ got two
      → skip_cr d c two ≡ got three
      → skip_cb d c three ≡ got four
      → scan_loop d (suc n) c s ≡ scan_loop d n c (next_row d c four)
  unfolding scan_loop
  mcu_steps n s one two three four e f g h = rw e (rw f (rw g (rw h refl)))

  abbrev pub mcu_seen : Scan d → Mcu → Reader → Reader → Reader → Reader → Scan d
  mcu_seen s m r1 r2 r3 r4 = cb_seen (cr_seen (y_seen (y_seen s m.y1 r1) m.y2 r2) m.cr r3) m.cb r4

  pub mcu-McuBits :
      (n : ℕ) (s : Scan d) (m : Mcu) (bits tail : List Bool)
      → HasTables
      → McuBits m bits
      → Holds s.reader (bits ++ tail)
      → 16 ≤ length tail
      → (r1 r2 r3 r4 : Reader) × (scan_loop d (suc n) c s
          ≡ scan_loop d n c (next_row d c (mcu_seen s m r1 r2 r3 r4)))
        × Holds r4 tail
  mcu-McuBits n s m bits tail t w h enough =
      let order : bits ++ tail ≡ w.y1 ++ (w.y2 ++ (w.cr ++ (w.cb ++ tail))) =
        ap (λ x. x ++ tail) w.together
        ∙ append_assoc w.y1 (w.y2 ++ (w.cr ++ w.cb)) tail
        ∙ ap (λ x. w.y1 ++ x)
            (append_assoc w.y2 (w.cr ++ w.cb) tail
              ∙ ap (λ x. w.y2 ++ x) (append_assoc w.cr w.cb tail)) in
      let l4 = length-append w.cb tail in
      let l3 = length-append w.cr (w.cb ++ tail) in
      let l2 = length-append w.y2 (w.cr ++ (w.cb ++ tail)) in
      let (r1, e1, h1) =
        y_block-BlockBits t s m.y1 w.y1 (w.y2 ++ (w.cr ++ (w.cb ++ tail))) (omega arith) w.of_y1
          (subst (Holds s.reader) order h) in
      let s1 = y_seen s m.y1 r1 in
      let (r2, e2, h2) =
        y_block-BlockBits t s1 m.y2 w.y2 (w.cr ++ (w.cb ++ tail)) (omega arith) w.of_y2 h1 in
      let s2 = y_seen s1 m.y2 r2 in
      let (r3, e3, h3) = skip_cr-BlockBits t s2 m.cr w.cr (w.cb ++ tail) (omega arith) w.of_cr h2 in
      let s3 = cr_seen s2 m.cr r3 in
      let (r4, e4, h4) = skip_cb-BlockBits t s3 m.cb w.cb tail enough w.of_cb h3 in
      (r1, r2, r3, r4, mcu_steps n s s1 s2 s3 (cb_seen s3 m.cb r4) e1 e2 e3 e4, h4)
