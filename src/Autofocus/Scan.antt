-- ===== src/Autofocus/Scan.antt =====
-- plugins/output_autofocus/processJPEG_onlyCenter.c: the loop over the blocks of a scan. The arithmetic on doubles and
-- exp are parameters. sumSqrAC, which nothing reads, is left out.
pub mod Decoded
pub mod Summed
pub mod Started
use mjpg_streamer.Common.{ℕ, zero, suc, ◌+◌, ◌*◌, ◌^◌, List, [], ◌∷◌, ◌==◌, if◌then◌else◌}
use mjpg_streamer.Common.Int.{ℤ, pos, ◌-ℤ◌}
use mjpg_streamer.Autofocus.{Read, got, Entry, Reader, fgetc, read_table, ◌>>=◌}
use mjpg_streamer.Common.Text.{Bytes}
use Prim.Native.Nat.{bit_or}

-- The doubles. `square t q` is (t * q) * (t * q), which is computed with floats.
pub record Doubles : Type 1 where
  pub Double : Type 0
  pub of_int : ℤ → Double
  pub square : ℤ → ℕ → Double
  pub plus : Double → Double → Double
  pub minus : Double → Double → Double
  pub times : Double → Double → Double
  pub over : Double → Double → Double
  pub negate : Double → Double
  pub exp : Double → Double

-- The first two bytes of the data: neither is looked at for a stuffed zero.
unfoldable pub start_reader : Bytes → Read Reader
start_reader bytes = fgetc bytes >>= λ (first, rest). fgetc rest >>= λ (second, behind).
    got (record { window = bit_or (first * 2 ^ 24) (second * 2 ^ 16); bitlen = 16; rest = behind })

module _ (d : Doubles) where
  open d use {Double}

  -- What the loop uses and does not change: the tables of Y and of Cb and Cr, QT[0], ctx, rad, and the width in blocks.
  pub record Coding : Type 0 where
    pub dc_y : List Entry
    pub ac_y : List Entry
    pub dc_c : List Entry
    pub ac_c : List Entry
    pub quant : List ℕ
    pub ctx : ℕ
    pub rad : ℕ
    pub across : ℕ

  -- The weight of a block by its distance from the center; the source uses ctx for both axes.
  unfoldable pub weight : Coding → ℕ → ℕ → Double
  weight c xp yp =
      let x = d.of_int (pos xp -ℤ pos c.ctx) in
      let y = d.of_int (pos yp -ℤ pos c.ctx) in
      let rad = d.of_int (pos c.rad) in
      d.exp (d.minus (d.over (d.negate (d.times x x)) rad) (d.over (d.times y y) rad))

  -- for(j = 0; j < 64; j++) over the coefficients, QT[0] and sumAC.
  unfoldable pub add_block : Double → List ℤ → List ℕ → List Double → List Double
  add_block w (t ∷ table) (q ∷ quant) (sum ∷ sums) =
      d.plus sum (d.times (d.square t q) w) ∷ add_block w table quant sums
  add_block w [] quant sums = sums
  add_block w (t ∷ table) [] sums = sums
  add_block w (t ∷ table) (q ∷ quant) [] = []

  -- What the loop changes.
  pub record Scan : Type 0 where
    pub last_y : ℤ
    pub last_cr : ℤ
    pub last_cb : ℤ
    pub xp : ℕ
    pub yp : ℕ
    pub sum_ac : List Double
    pub cnt2 : ℕ
    pub reader : Reader

  -- A block of Y, with what is added for it.
  unfoldable pub y_block : Coding → Scan → Read Scan
  y_block c s = read_table c.dc_y c.ac_y s.last_y s.reader >>= λ b. got (record s {
    last_y = b.last_dc;
    sum_ac = add_block (weight c s.xp s.yp) b.table c.quant s.sum_ac;
    cnt2 = s.cnt2 + 1;
    xp = s.xp + 1;
    reader = b.reader;
  })

  unfoldable pub skip_cr : Coding → Scan → Read Scan
  skip_cr c s = read_table c.dc_c c.ac_c s.last_cr s.reader >>= λ b.
      got (record s { last_cr = b.last_dc; reader = b.reader })

  unfoldable pub skip_cb : Coding → Scan → Read Scan
  skip_cb c s = read_table c.dc_c c.ac_c s.last_cb s.reader >>= λ b.
      got (record s { last_cb = b.last_dc; reader = b.reader })

  -- if(xp == width / 8)
  unfoldable pub next_row : Coding → Scan → Scan
  next_row c s = if s.xp == c.across then record s { xp = 0; yp = s.yp + 1 } else s

  -- for(i = 0; i < cnt; i++)
  unfoldable pub scan_loop : ℕ → Coding → Scan → Read Scan
  scan_loop zero c s = got s
  scan_loop (suc cnt) c s = y_block c s >>= λ one. y_block c one >>= λ two.
      skip_cr c two >>= λ three. skip_cb c three >>= λ four. scan_loop cnt c (next_row c four)
