-- ===== src/Uvc/Controls/Table.antt =====
-- The table of the controls: control_readed and enumerateControls of plugins/input_uvc/v4l2uvc.c. The loops that
-- end with an answer of the driver have fuel. The minimum and the maximum of a menu are not negative.
-- No allocation fails (where realloc does, control_readed and enumerateControls return with in_parameters lost).
-- V4L2_CTRL_TYPE_STRING is an enumerator, so that its #ifdef is off. V4L2_CID_LASTP1 - V4L2_CID_BASE, `standard`, is
-- of the kernel's header.
use mjpg_streamer.Common.{
  ℕ, zero, suc, ◌+◌, ◌-◌, ◌^◌, ◌%◌, ◌||◌, List, [], ◌∷◌, ◌++◌, Option, none, some, replicate, ltb,
  ◌==◌, if◌then◌else◌,
}
use mjpg_streamer.Common.Int.{ℤ, pos, negsuc, pos_part, eqb_ℤ}
use mjpg_streamer.Common.Text.{Bytes, codes}
use mjpg_streamer.Uvc.Controls.{
  QueryCtrl, Control, Reply, replied, failed, einval, ioctl_retry, xioctl, Driver, class_user,
  in_cmd_v4l2, in_cmd_jpeg_quality, returned, Camera,
}
use mathlib.Core.Option.{map as option_map}
use Prim.Native.Nat.{bit_and, bit_or}

abbrev pub next_ctrl : ℕ
next_ctrl = 0x80000000

abbrev pub cid_base : ℕ
cid_base = 0x00980900

abbrev pub cid_private_base : ℕ
cid_private_base = 0x08000000

-- V4L2_CID_PAN_RESET, V4L2_CID_TILT_RESET and, in dynctrl.h, V4L2_CID_PANTILT_RESET_LOGITECH.
abbrev cid_pan_reset : ℕ
cid_pan_reset = 0x009a0906

abbrev cid_tilt_reset : ℕ
cid_tilt_reset = 0x009a0907

abbrev cid_pantilt_reset_logitech : ℕ
cid_pantilt_reset_logitech = 0x0a046d03

abbrev type_menu : ℕ
type_menu = 3

abbrev type_integer64 : ℕ
type_integer64 = 5

-- The value of a 64-bit control as an int.
unfoldable pub int_of : ℤ → ℤ
int_of z =
    let bits : ℕ = elim z [ pos n ↦ n % 2 ^ 32 | negsuc n ↦ 2 ^ 32 - 1 - n % 2 ^ 32 ] in
    if ltb bits (2 ^ 31) then pos bits else negsuc (2 ^ 32 - 1 - bits)

module _ (d : Driver) where
  open d use {Device}

  -- The loop over the items of a menu.
  unfoldable pub menu_loop : ℕ → ℕ → ℕ → Device → List (Option Bytes) × Device
  unfolding xioctl
  menu_loop zero id i s = ([], s)
  menu_loop (suc count) id i s =
      let (reply, s) = xioctl ioctl_retry (d.query_menu id (pos i)) s in
      let (items, s) = menu_loop count id (i + 1) s in
      (elim reply [ replied name ↦ some name | failed _ ↦ none ] ∷ items, s)

  unfoldable pub read_menu : QueryCtrl → Device → Option (List (Option Bytes)) × Device
  unfolding menu_loop
  read_menu q s =
      if q.type == type_menu
      then (let low = pos_part q.minimum in
          let (items, s) = menu_loop (pos_part q.maximum + 1 - low) q.id low s in
          (some (replicate low none ++ items), s))
      else (none, s)

  -- The value of a control that the driver does not tell.
  unfoldable pub reset_value : ℕ → ℤ
  reset_value id =
      if (id == cid_pan_reset) || (id == cid_tilt_reset)
      then pos 1
      else if id == cid_pantilt_reset_logitech
      then pos 3
      else pos 0

  unfoldable pub user_value : Reply ℤ × Device → ℤ × Device
  user_value (replied v, s) = (v, s)
  user_value (failed _, s) = (pos 0, s)

  unfoldable pub extended_value : QueryCtrl → Reply ℤ × Device → ℤ × Device
  unfolding int_of reset_value
  extended_value q (replied v, s) = (if q.type == type_integer64 then int_of v else v, s)
  extended_value q (failed _, s) = (reset_value q.id, s)

  unfoldable pub read_value : QueryCtrl → ℕ → Device → ℤ × Device
  unfolding xioctl user_value extended_value
  read_value q class s =
      if class == class_user
      then user_value (xioctl ioctl_retry (d.g_ctrl q.id) s)
      else extended_value q (xioctl ioctl_retry (d.g_ext_ctrls q.id) s)

  unfoldable pub control_readed : QueryCtrl → Camera d → Camera d
  unfolding read_menu read_value
  control_readed q c =
      let class = bit_and q.id 0xFFFF0000 in
      let (items, s) = read_menu q c.device in
      let (v, s) = read_value q class s in
      record c {
        device = s;
        in_parameters =
            c.in_parameters
            ++ record {
              ctrl = q;
              value = v;
              menuitems = items;
              class_id = class;
              group = in_cmd_v4l2;
            }
              ∷ [];
      }

  -- Goes on with what the driver answers, or ends where it answers nothing.
  abbrev pub while_found :
      Option QueryCtrl → Camera d → (QueryCtrl → Option (Camera d)) → Option (Camera d)
  while_found none c go_on = some c
  while_found (some q) c go_on = go_on q

  -- The do-while loop over the controls after `q`.
  unfoldable pub next_loop : ℕ → QueryCtrl → Camera d → Option (Camera d)
  unfolding control_readed
  next_loop zero q c = none
  next_loop (suc fuel) q c =
      let c = control_readed q c in
      while_found (d.query_ctrl c.device (bit_or next_ctrl q.id)) c (λ q. next_loop fuel q c)

  -- The loop over `count` standard controls from `i`.
  unfoldable pub standard_loop : ℕ → ℕ → Camera d → Camera d
  unfolding control_readed
  standard_loop zero i c = c
  standard_loop (suc count) i c =
      standard_loop count (i + 1)
        (elim (d.query_ctrl c.device i) [ none ↦ c | some q ↦ control_readed q c ])

  -- The loop over the private controls from `i`.
  unfoldable pub private_loop : ℕ → ℕ → Camera d → Option (Camera d)
  unfolding control_readed
  private_loop zero i c = none
  private_loop (suc fuel) i c =
      while_found (d.query_ctrl c.device i) c (λ q. private_loop fuel (i + 1) (control_readed q c))

  -- The part of enumerateControls that fills the table from the driver. `fuel` bounds its two open loops.
  -- The two branches on the first request.
  unfoldable pub query_from : ℕ → ℕ → Camera d → Option QueryCtrl → Option (Camera d)
  unfolding next_loop standard_loop private_loop
  query_from fuel standard c (some q) = next_loop fuel q c
  query_from fuel standard c none =
      private_loop fuel cid_private_base (standard_loop standard cid_base c)

  unfoldable pub query_controls : ℕ → ℕ → Camera d → Option (Camera d)
  unfolding query_from
  query_controls fuel standard c =
      let c = record c { in_parameters = [] } in
      query_from fuel standard c (d.query_ctrl c.device next_ctrl)

  abbrev pub jpeg_quality : QueryCtrl
  jpeg_quality = record {
    id = 1;
    type = 1;
    name = codes "JPEG quality";
    minimum = pos 0;
    maximum = pos 100;
    step = pos 1;
    default_value = pos 50;
    flags = 0;
  }

  -- xioctl(VIDIOC_G_JPEGCOMP) != EINVAL. Where it fails, the quality is the 0 of memset. `fresh` is what realloc leaves
  -- in the new entry.
  unfoldable pub add_quality : Control → Camera d → Reply ℤ × Device → Camera d
  add_quality fresh c (reply, s) =
      let quality : ℤ = elim reply [ replied v ↦ v | failed _ ↦ pos 0 ] in
      if eqb_ℤ (returned reply) (pos einval)
      then record c { device = s; quality = negsuc 0 }
      else record c {
        device = s;
        quality = quality;
        in_parameters =
            c.in_parameters
            ++ record fresh { ctrl = jpeg_quality; value = quality; group = in_cmd_jpeg_quality }
              ∷ [];
      }

  unfoldable pub read_jpeg_quality : Control → Camera d → Camera d
  unfolding xioctl add_quality
  read_jpeg_quality fresh c = add_quality fresh c (xioctl ioctl_retry d.g_jpegcomp c.device)

  unfoldable pub enumerate_controls : ℕ → ℕ → Control → Camera d → Option (Camera d)
  unfolding query_controls read_jpeg_quality
  enumerate_controls fuel standard fresh c =
      option_map (read_jpeg_quality fresh) (query_controls fuel standard c)
