-- ===== src/Jpeg/Rows.antt =====
-- The rows that libjpeg is given.
use mjpg_streamer.Common.{
  ℕ, zero, suc, ◌+◌, ◌*◌, ◌≡◌, length, All, arith, Bool, not, false, if◌then◌else◌,
}
use mjpg_streamer.Common.Text.{Bytes}
use mjpg_streamer.Jpeg.{
  rgb24_row, rgb24_rows, rgb_of_yuv, Layout, yuv_row, yuv_rows, rgb565_pixel, rgb565_row,
  rgb565_rows, Format, yuyv_format, rgb24_format, rgb565_format, uyvy_format, other_format,
  image_rows,
}

-- A row of three samples for each pixel.
abbrev pub Wide : ℕ → Bytes → Type 0
Wide width row = length row ≡ 3 * width

yuv_row-Wide :
    (layout : Layout) (frame : Bytes) (n : ℕ) (z : Bool) (p : ℕ)
    → length (yuv_row layout frame n z p).samples ≡ 3 * n
unfolding yuv_row rgb_of_yuv
yuv_row-Wide layout frame zero z p = omega arith
yuv_row-Wide layout frame (suc n) z p =
    let ih = yuv_row-Wide layout frame n (not z) (if z then p + 4 else p) in omega (arith, ih)

rgb24_row-Wide : (frame : Bytes) (n p : ℕ) → Wide n (rgb24_row frame n p)
unfolding rgb24_row
rgb24_row-Wide frame zero p = omega arith
rgb24_row-Wide frame (suc n) p = omega (arith, rgb24_row-Wide frame n (p + 3))

rgb565_row-Wide : (frame : Bytes) (n p : ℕ) → Wide n (rgb565_row frame n p)
unfolding rgb565_row rgb565_pixel
rgb565_row-Wide frame zero p = omega arith
rgb565_row-Wide frame (suc n) p = omega (arith, rgb565_row-Wide frame n (p + 2))

yuv_rows-Wide :
    (layout : Layout) (frame : Bytes) (width rows : ℕ) (z : Bool) (p : ℕ)
    → All (Wide width) (yuv_rows layout frame width rows z p)
unfolding yuv_rows
yuv_rows-Wide layout frame width zero z p = tt
yuv_rows-Wide layout frame width (suc rows) z p =
    let row = yuv_row layout frame width z p in
    (yuv_row-Wide layout frame width z p, yuv_rows-Wide layout frame width rows row.z row.yuyv)

rgb24_rows-Wide :
    (frame : Bytes) (width rows p : ℕ) → All (Wide width) (rgb24_rows frame width rows p)
unfolding rgb24_rows
rgb24_rows-Wide frame width zero p = tt
rgb24_rows-Wide frame width (suc rows) p =
    (rgb24_row-Wide frame width p, rgb24_rows-Wide frame width rows (p + 3 * width))

rgb565_rows-Wide :
    (frame : Bytes) (width rows p : ℕ) → All (Wide width) (rgb565_rows frame width rows p)
unfolding rgb565_rows
rgb565_rows-Wide frame width zero p = tt
rgb565_rows-Wide frame width (suc rows) p =
    (rgb565_row-Wide frame width p, rgb565_rows-Wide frame width rows (p + 2 * width))

-- In every format, each row that libjpeg is given fills the line buffer of three bytes for each pixel, and
-- never writes behind it.
pub image_rows-Wide :
    (format : Format) (frame : Bytes) (width height : ℕ)
    → All (Wide width) (image_rows format frame width height)
unfolding image_rows
image_rows-Wide yuyv_format frame width height = yuv_rows-Wide _ frame width height false 0
image_rows-Wide rgb24_format frame width height = rgb24_rows-Wide frame width height 0
image_rows-Wide rgb565_format frame width height = rgb565_rows-Wide frame width height 0
image_rows-Wide uyvy_format frame width height = yuv_rows-Wide _ frame width height false 0
image_rows-Wide other_format frame width height = tt
