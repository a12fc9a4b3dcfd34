-- ===== src/Jpeg/Pixels.antt =====
-- Which pixel a sample comes from, and how large it can be.
use mjpg_streamer.Common.{
  ℕ, zero, suc, ◌+◌, ◌*◌, ◌/◌, ◌%◌, ◌≤◌, ◌≡◌, refl, ap, ap₂, ◌∙◌, Bool, true, false, not, List, [],
  ◌∷◌, ◌++◌, All, arith, get_or, ltb, leb, if◌then◌else◌, ◌==◌,
}
use mjpg_streamer.Common.Int.{ℤ, pos, negsuc, ◌+ℤ◌, ◌-ℤ◌, ◌*ℤ◌}
use mjpg_streamer.Common.Text.{Bytes}
use mjpg_streamer.Jpeg.{
  shift_right_8, clamped, rgb_of_yuv, Layout, Row, and_then, yuv_row, yuv_rows,
}

-- The pixel with number `k` of the frame, counted over all rows: its own y, and the u and v of its group.
abbrev pub pixel : Layout → Bytes → ℕ → Bytes
pixel layout frame k =
    rgb_of_yuv
      (get_or frame (4 * (k / 2) + (if k % 2 == 1 then layout.y_second else layout.y_first)) 0)
      (get_or frame (4 * (k / 2) + layout.u_at) 0) (get_or frame (4 * (k / 2) + layout.v_at) 0)

-- The samples of `n` pixels from number `k` on.
abbrev pub pixels : Layout → Bytes → ℕ → ℕ → Bytes
pixels layout frame zero k = []
pixels layout frame (suc n) k = pixel layout frame k ++ pixels layout frame n (suc k)

-- A row of `n` pixels from number `k` on, with the loop's state that belongs to pixel `m`.
abbrev pub after : Layout → Bytes → ℕ → ℕ → ℕ → Row
after layout frame n k m = record {
  samples = pixels layout frame n k;
  z = m % 2 == 1;
  yuyv = 4 * (m / 2);
}

yuv_row-pixels :
    (layout : Layout) (frame : Bytes) (n k : ℕ)
    → yuv_row layout frame n (k % 2 == 1) (4 * (k / 2)) ≡ after layout frame n k (k + n)
unfolding yuv_row
yuv_row-pixels layout frame zero k =
    ap (λ (m : ℕ). after layout frame 0 k m) {y = k + 0} (omega arith)
yuv_row-pixels layout frame (suc n) k =
    let here = pixel layout frame k in
    let turned : not (k % 2 == 1) ≡ (suc k % 2 == 1) = ground arith in
    let moved : (if k % 2 == 1 then 4 * (k / 2) + 4 else 4 * (k / 2)) ≡ 4 * (suc k / 2) =
      ground arith in
    ap₂ (λ (z : Bool) (yuyv : ℕ). and_then here (yuv_row layout frame n z yuyv)) turned moved
    ∙ ap (and_then here) (yuv_row-pixels layout frame n (suc k))
    ∙ ap (λ (m : ℕ). after layout frame (suc n) k m) {x = suc k + n} (omega arith)

clamped-le : (z : ℤ) → clamped z ≤ 255
unfolding clamped
clamped-le (pos n) = ground arith
clamped-le (negsuc n) = omega arith

-- Rows of `width` pixels each, from pixel `k` on.
abbrev pub picture : Layout → Bytes → ℕ → ℕ → ℕ → List Bytes
picture layout frame width zero k = []
picture layout frame width (suc rows) k =
    pixels layout frame width k ∷ picture layout frame width rows (k + width)

rows_from :
    (layout : Layout) (frame : Bytes) (width rows k : ℕ)
    → yuv_rows layout frame width rows (k % 2 == 1) (4 * (k / 2))
      ≡ picture layout frame width rows k
unfolding yuv_rows
rows_from layout frame width zero k = refl
rows_from layout frame width (suc rows) k =
    ap (λ (r : Row). r.samples ∷ yuv_rows layout frame width rows r.z r.yuyv)
      (yuv_row-pixels layout frame width k)
    ∙ ap (◌∷◌ (pixels layout frame width k)) (rows_from layout frame width rows (k + width))

-- The loop with its toggle and its pointer, in either layout and also where the width is odd, converts the
-- k-th pixel of the frame from its own y and from the u and v that it shares with its neighbour.
pub yuv_rows-picture :
    (layout : Layout) (frame : Bytes) (width rows : ℕ)
    → yuv_rows layout frame width rows false 0 ≡ picture layout frame width rows 0
yuv_rows-picture layout frame width rows = rows_from layout frame width rows 0

abbrev pub Byte : ℕ → Type 0
Byte n = n ≤ 255

-- Every sample is a byte, whatever the bytes of the pixel are.
pub rgb_of_yuv-Byte : (y u v : ℕ) → All Byte (rgb_of_yuv y u v)
unfolding rgb_of_yuv
rgb_of_yuv-Byte y u v = (clamped-le _, (clamped-le _, (clamped-le _, tt)))

plus_zero : (n : ℕ) → pos n +ℤ pos 0 ≡ pos n
unfolding ◌+ℤ◌
plus_zero n = let sign : leb 0 (n + 0) ≡ true = ground arith in rw sign (ap pos (omega arith))

minus_zero : (n : ℕ) → pos n -ℤ pos 0 ≡ pos n
unfolding ◌-ℤ◌
minus_zero n = let sign : leb 0 (n + 0) ≡ true = ground arith in rw sign (ap pos (omega arith))

centred : pos 128 -ℤ pos 128 ≡ pos 0
unfolding ◌-ℤ◌
centred = refl

times_zero : (n : ℕ) → pos n *ℤ pos 0 ≡ pos 0
unfolding ◌*ℤ◌
times_zero n = let zeros : n * 0 + 0 ≡ 0 = omega arith in ground arith

bright : (y : ℕ) → y ≤ 255 → clamped (shift_right_8 (pos (y * 256))) ≡ y
unfolding clamped shift_right_8
bright y h =
    let whole : y * 256 / 256 ≡ y = omega arith in
    let small : ltb 255 y ≡ false = ground arith in rw whole (rw small refl)

-- A pixel without colour keeps its brightness.
pub rgb_of_yuv-gray : (y : ℕ) → y ≤ 255 → rgb_of_yuv y 128 128 ≡ y ∷ y ∷ y ∷ []
unfolding rgb_of_yuv
rgb_of_yuv-gray y h = rw centred (
    rw (times_zero 359, times_zero 88, times_zero 183, times_zero 454)
      (rw (plus_zero (y * 256), minus_zero (y * 256)) (rw (minus_zero (y * 256), bright y h) refl)))
