-- ===== src/Tests/Controls.antt =====
-- The theorems on the controls of a camera, at a device with two controls.
use mjpg_streamer.Common.{
  Bool, ℕ, zero, suc, ◌+◌, ◌^◌, ◌≡◌, refl, sym, subst, [], ◌∷◌, none, some, some-injective, inl,
  get_elem?, ◌==◌, ◌||◌, if◌then◌else◌, arith,
}
use mjpg_streamer.Common.Int.{ℤ, pos, ◌≤ℤ◌}
use mjpg_streamer.Common.Text.{codes}
use mjpg_streamer.Uvc.Controls.{
  QueryCtrl, Control, Driver, Camera, replied, failed, class_user, in_cmd_v4l2,
}
use mjpg_streamer.Uvc.Controls.Commands.{input_cmd_v4l2}
use mjpg_streamer.Uvc.Controls.Listed.{ids_of, NextDriver, OldDriver, enumerate_controls-ids}
use mjpg_streamer.Uvc.Controls.Settled.{Keeps, Settled, input_cmd_v4l2-Settled}
use mjpg_streamer.Uvc.Controls.Table.{next_ctrl, enumerate_controls}

abbrev brightness : QueryCtrl
brightness = record {
  id = 9963776;
  type = 1;
  name = codes "Brightness";
  minimum = pos 0;
  maximum = pos 255;
  step = pos 1;
  default_value = pos 128;
  flags = 0;
}

abbrev pan_reset : QueryCtrl
pan_reset = record brightness { id = 10094854; type = 4; name = codes "Pan, Reset" }

-- Its device is the brightness. It does not know the quality of JPEG.
abbrev small_driver : Driver
small_driver = record {
  Device = ℤ;
  query_ctrl = λ s n.
      if n == next_ctrl
      then some brightness
      else if n == next_ctrl + 9963776
      then some pan_reset
      else none;
  query_menu = λ id i s. (failed 22, s);
  g_ctrl = λ id s. (replied s, s);
  s_ctrl = λ id v s. (replied tt, v);
  g_ext_ctrls = λ id s. (failed 13, s);
  s_ext_ctrls = λ id v s. (replied tt, s);
  g_jpegcomp = λ s. (failed 25, s);
  s_jpegcomp = λ v s. (failed 25, s);
}

abbrev no_controls : Camera small_driver
no_controls = record { device = pos 100; in_parameters = []; quality = pos 0 }

abbrev bright_control : Control
bright_control = record {
  ctrl = brightness;
  value = pos 100;
  menuitems = none;
  class_id = class_user;
  group = in_cmd_v4l2;
}

small_driver-NextDriver : NextDriver small_driver (9963776 ∷ 10094854 ∷ [])
small_driver-NextDriver = record {
  answers = (λ s. (brightness, refl, refl), (λ s. (pan_reset, refl, refl), λ s. refl));
  ascending = (omega arith, omega arith, (omega arith, omega arith, tt));
  nothing = λ e. absurd cc;
}

enumerate_controls-ids_example :
    (c2 : Camera small_driver) × (enumerate_controls small_driver
        (2 ^ 31)
        44
        bright_control
        no_controls
      ≡ some c2)
    × (ids_of c2.in_parameters ≡ 9963776 ∷ 10094854 ∷ 1 ∷ [])
enumerate_controls-ids_example =
    enumerate_controls-ids small_driver (2 ^ 31) 44 bright_control (9963776 ∷ 10094854 ∷ [])
      no_controls (omega arith) (omega arith) (inl small_driver-NextDriver)

-- A driver without the flag, with one standard control and a private one.
abbrev is_old_id : ℕ → Bool
is_old_id id = (id == 9963776) || (id == 134217728)

abbrev old_driver : Driver
old_driver = record small_driver {
  query_ctrl = λ s n. if is_old_id n then some (record brightness { id = n }) else none;
}

old_driver-OldDriver : OldDriver old_driver 44 (9963776 ∷ 134217728 ∷ [])
old_driver-OldDriver = record {
  has = is_old_id;
  privates = 1;
  no_flag = λ s. refl;
  present = λ s id h is. (record brightness { id = id }, rw is refl, refl);
  missing = λ s id h is. rw is refl;
  consecutive = (refl, refl);
  room = omega arith;
  known = refl;
}

abbrev one_control : Camera small_driver
one_control = record no_controls { in_parameters = bright_control ∷ [] }

abbrev NotAbove : ℤ → Type 0
NotAbove s = s ≤ℤ pos 255

one_control-Keeps : Keeps small_driver NotAbove one_control.in_parameters
one_control-Keeps = record {
  set_user = λ i p v s at low high h. at_most i p v at high;
  set_extended = λ i p v s at extended h. h;
}
  where
    at_most :
        (i : ℕ) (p : Control) (v : ℤ)
        → get_elem? one_control.in_parameters i ≡ some p
        → v ≤ℤ p.ctrl.maximum
        → NotAbove v
    at_most zero p v at high = subst (λ q. v ≤ℤ q.ctrl.maximum) (sym (some-injective _ _ at)) high
    at_most (suc i) p v at high = absurd cc

input_cmd_v4l2-Settled_example :
    Settled small_driver NotAbove
      (pos 300)
      one_control.in_parameters
      (input_cmd_v4l2 small_driver 9963776 (pos 300) one_control)
input_cmd_v4l2-Settled_example =
    input_cmd_v4l2-Settled small_driver NotAbove 9963776 (pos 300) one_control one_control-Keeps
      (omega arith)
