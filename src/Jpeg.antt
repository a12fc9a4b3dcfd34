-- ===== src/Jpeg.antt =====
-- plugins/input_uvc/jpeg_utils.c: the conversion of raw frames to RGB rows. The destination manager is not modelled. An
-- int is an integer; `>> 8` of a negative one rounds down. Reads behind the frame buffer give 0.
pub mod Pixels
pub mod Rows
use mjpg_streamer.Common.{
  ℕ, zero, suc, ◌+◌, ◌*◌, ◌/◌, ◌%◌, Bool, false, not, List, [], ◌∷◌, ◌++◌, get_or, ltb,
  if◌then◌else◌,
}
use mjpg_streamer.Common.Int.{ℤ, pos, negsuc, ◌+ℤ◌, ◌-ℤ◌, ◌*ℤ◌}
use mjpg_streamer.Common.Text.{Bytes}
use Prim.Native.Nat.{bit_and}

-- An arithmetic shift to the right by 8.
unfoldable pub shift_right_8 : ℤ → ℤ
shift_right_8 (pos n) = pos (n / 256)
shift_right_8 (negsuc n) = negsuc (n / 256)

-- (c > 255) ? 255 : ((c < 0) ? 0 : c)
unfoldable pub clamped : ℤ → ℕ
clamped (pos n) = if ltb 255 n then 255 else n
clamped (negsuc n) = 0

-- The three samples of a pixel, from its bytes y, u and v.
unfoldable pub rgb_of_yuv : ℕ → ℕ → ℕ → Bytes
rgb_of_yuv y_byte u_byte v_byte =
    let y = pos (y_byte * 256) in
    let u = pos u_byte -ℤ pos 128 in
    let v = pos v_byte -ℤ pos 128 in
    let r = shift_right_8 (y +ℤ (pos 359 *ℤ v)) in
    let g = shift_right_8 ((y -ℤ (pos 88 *ℤ u)) -ℤ (pos 183 *ℤ v)) in
    let b = shift_right_8 (y +ℤ (pos 454 *ℤ u)) in clamped r ∷ clamped g ∷ clamped b ∷ []

-- Where the bytes of a group of two pixels stand: the y of each, u and v.
pub record Layout : Type 0 where
  pub y_first : ℕ
  pub y_second : ℕ
  pub u_at : ℕ
  pub v_at : ℕ

abbrev pub layout_yuyv : Layout
layout_yuyv = record { y_first = 0; y_second = 2; u_at = 1; v_at = 3 }

abbrev pub layout_uyvy : Layout
layout_uyvy = record { y_first = 1; y_second = 3; u_at = 0; v_at = 2 }

-- What a row leaves: its samples, z and the pointer into the frame.
pub record Row : Type 0 where
  pub samples : Bytes
  pub z : Bool
  pub yuyv : ℕ

abbrev pub and_then : Bytes → Row → Row
and_then samples r = record r { samples = samples ++ r.samples }

-- The loop over the pixels of a row: `z` tells whether the pixel is the second of its group, and `yuyv` is
-- the pointer into the frame.
unfoldable pub yuv_row : Layout → Bytes → ℕ → Bool → ℕ → Row
yuv_row layout frame zero z yuyv = record { samples = []; z = z; yuyv = yuyv }
yuv_row layout frame (suc x) z yuyv =
    let y = get_or frame (yuyv + (if z then layout.y_second else layout.y_first)) 0 in
    let u = get_or frame (yuyv + layout.u_at) 0 in
    let v = get_or frame (yuyv + layout.v_at) 0 in
    and_then (rgb_of_yuv y u v) (yuv_row layout frame x (not z) (if z then yuyv + 4 else yuyv))

-- The loop over the rows: `z` and the pointer go on from row to row.
unfoldable pub yuv_rows : Layout → Bytes → ℕ → ℕ → Bool → ℕ → List Bytes
unfolding yuv_row
yuv_rows layout frame width zero z yuyv = []
yuv_rows layout frame width (suc rows) z yuyv =
    let row = yuv_row layout frame width z yuyv in
    row.samples ∷ yuv_rows layout frame width rows row.z row.yuyv

-- RGB24: the three bytes of each pixel.
unfoldable pub rgb24_row : Bytes → ℕ → ℕ → Bytes
rgb24_row frame zero yuyv = []
rgb24_row frame (suc x) yuyv =
    get_or frame yuyv 0
    ∷ get_or frame (yuyv + 1) 0
    ∷ get_or frame (yuyv + 2) 0
    ∷ rgb24_row frame x (yuyv + 3)

unfoldable pub rgb24_rows : Bytes → ℕ → ℕ → ℕ → List Bytes
unfolding rgb24_row
rgb24_rows frame width zero yuyv = []
rgb24_rows frame width (suc rows) yuyv =
    rgb24_row frame width yuyv ∷ rgb24_rows frame width rows (yuyv + 3 * width)

-- RGB565: two bytes for each pixel.
unfoldable pub rgb565_pixel : ℕ → ℕ → Bytes
rgb565_pixel low high =
    let two_byte = high * 256 + low in
    bit_and 248 high ∷ bit_and 2016 two_byte / 8 % 256 ∷ bit_and 31 low * 8 ∷ []

unfoldable pub rgb565_row : Bytes → ℕ → ℕ → Bytes
unfolding rgb565_pixel
rgb565_row frame zero yuyv = []
rgb565_row frame (suc x) yuyv =
    rgb565_pixel (get_or frame yuyv 0) (get_or frame (yuyv + 1) 0) ++ rgb565_row frame x (yuyv + 2)

unfoldable pub rgb565_rows : Bytes → ℕ → ℕ → ℕ → List Bytes
unfolding rgb565_row
rgb565_rows frame width zero yuyv = []
rgb565_rows frame width (suc rows) yuyv =
    rgb565_row frame width yuyv ∷ rgb565_rows frame width rows (yuyv + 2 * width)

-- vd->formatIn; any other format converts no row.
pub data Format : Type 0 where
  yuyv_format rgb24_format rgb565_format uyvy_format other_format : Format

-- The rows that compress_image_to_jpeg hands to libjpeg.
unfoldable pub image_rows : Format → Bytes → ℕ → ℕ → List Bytes
unfolding yuv_rows rgb24_rows rgb565_rows
image_rows yuyv_format frame width height = yuv_rows layout_yuyv frame width height false 0
image_rows rgb24_format frame width height = rgb24_rows frame width height 0
image_rows rgb565_format frame width height = rgb565_rows frame width height 0
image_rows uyvy_format frame width height = yuv_rows layout_uyvy frame width height false 0
image_rows other_format frame width height = []
