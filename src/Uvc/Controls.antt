-- ===== src/Uvc/Controls.antt =====
-- The V4L2 controls of a camera, plugins/input_uvc/v4l2uvc.c: xioctl, isv4l2Control, v4l2GetControl, v4l2ResetControl.
-- The ioctl requests to the driver are parameters, each with its reply and the device it leaves. Table has
-- control_readed and enumerateControls, Commands v4l2SetControl and input_cmd.
pub mod Table
pub mod Commands
pub mod Places
pub mod Settled
pub mod Listed
use mjpg_streamer.Common.{ℕ, zero, suc, Bool, ◌||◌, List, Option, none, some, ◌==◌, if◌then◌else◌}
use mjpg_streamer.Common.Int.{ℤ, pos, negsuc, ltb_ℤ}
use mjpg_streamer.Common.Text.{Bytes}
use Prim.Native.Nat.{bit_and}

-- struct v4l2_queryctrl.
pub record QueryCtrl : Type 0 where
  pub id : ℕ
  pub type : ℕ
  pub name : Bytes
  pub minimum : ℤ
  pub maximum : ℤ
  pub step : ℤ
  pub default_value : ℤ
  pub flags : ℕ

-- struct _control. An item of a menu that the driver does not name is left as malloc gave it.
pub record Control : Type 0 where
  pub ctrl : QueryCtrl
  pub value : ℤ
  pub menuitems : Option (List (Option Bytes))
  pub class_id : ℕ
  pub group : ℕ

-- What an ioctl yields: its answer, or errno.
pub data Reply (A : Type 0) : Type 0 where
  replied : A → Reply A
  failed : ℕ → Reply A

abbrev pub eintr : ℕ
eintr = 4

abbrev pub eagain : ℕ
eagain = 11

abbrev pub etimedout : ℕ
etimedout = 110

abbrev pub einval : ℕ
einval = 22

-- IOCTL_RETRY
abbrev pub ioctl_retry : ℕ
ioctl_retry = 4

abbrev pub try_again : ℕ → Bool
try_again errno = (errno == eintr) || ((errno == eagain) || (errno == etimedout))

-- The do-while loop of xioctl with `tries` to go.
module _ {S A : Type 0} where
  unfoldable pub xioctl : ℕ → (S → Reply A × S) → S → Reply A × S
  xioctl zero call s = call s
  xioctl (suc tries) call s =
      let (reply, s) = call s in
      elim reply [
        | replied a ↦ (replied a, s)
        | failed errno ↦ if try_again errno then xioctl tries call s else (failed errno, s)
      ]

-- The requests, by the id of the control: what the driver answers, and the device afterwards.
pub record Driver : Type 1 where
  pub Device : Type 0
  pub query_ctrl : Device → ℕ → Option QueryCtrl
  pub query_menu : ℕ → ℤ → Device → Reply Bytes × Device
  pub g_ctrl : ℕ → Device → Reply ℤ × Device
  pub s_ctrl : ℕ → ℤ → Device → Reply Unit × Device
  pub g_ext_ctrls : ℕ → Device → Reply ℤ × Device
  pub s_ext_ctrls : ℕ → ℤ → Device → Reply Unit × Device
  pub g_jpegcomp : Device → Reply ℤ × Device
  pub s_jpegcomp : ℤ → Device → Reply Unit × Device

abbrev pub class_user : ℕ
class_user = 0x00980000

-- enum _cmd_group
abbrev pub in_cmd_generic : ℕ
in_cmd_generic = 0

abbrev pub in_cmd_v4l2 : ℕ
in_cmd_v4l2 = 1

abbrev pub in_cmd_jpeg_quality : ℕ
in_cmd_jpeg_quality = 3

-- What ioctl returns: the tests against EINVAL read this.
module _ {A : Type 0} where
  abbrev pub returned : Reply A → ℤ
  returned (replied _) = pos 0
  returned (failed _) = negsuc 0

module _ (d : Driver) where
  open d use {Device}

  -- The descriptor with the plugin's table of controls and jpegcomp.quality.
  pub record Camera : Type 0 where
    pub device : Device
    pub in_parameters : List Control
    pub quality : ℤ

  -- isv4l2Control: 1 and 0 for a control that the bits of its type admit.
  unfoldable pub is_v4l2_control : ℕ → Device → ℤ × Option QueryCtrl
  is_v4l2_control id s = elim (d.query_ctrl s id) [
    | none ↦ (negsuc 0, none)
    | some q ↦ (
      if (bit_and q.flags 1) == 1
          then negsuc 0
          else if (bit_and q.type 2) == 2
          then pos 1
          else if (bit_and q.type 1) == 1
          then pos 0
          else negsuc 0,
      some q,
    )
  ]

  -- v4l2GetControl
  unfoldable pub v4l2_get_control : ℕ → Device → ℤ × Device
  unfolding is_v4l2_control xioctl
  v4l2_get_control id s =
      if ltb_ℤ (is_v4l2_control id s).0 (pos 0)
      then (negsuc 0, s)
      else (let (reply, s) = xioctl ioctl_retry (d.g_ctrl id) s in
          (elim reply as (λ _. ℤ) [ replied v ↦ v | failed _ ↦ negsuc 0 ], s))

  -- v4l2ResetControl
  unfoldable pub v4l2_reset_control : ℕ → Device → ℤ × Device
  unfolding is_v4l2_control xioctl
  v4l2_reset_control id s =
      let (kind, found) = is_v4l2_control id s in
      if ltb_ℤ kind (pos 0) then (negsuc 0, s) else elim found as (λ _. ℤ × Device) [
        | none ↦ (negsuc 0, s)
        | some q ↦
            (let (reply, s) = xioctl ioctl_retry (d.s_ctrl id q.default_value) s in
              (returned reply, s))
      ]
