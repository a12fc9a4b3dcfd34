-- ===== src/Uvc/Controls/Commands.antt =====
-- v4l2SetControl of plugins/input_uvc/v4l2uvc.c, and the groups IN_CMD_GENERIC, IN_CMD_V4L2 and IN_CMD_JPEG_QUALITY of
-- input_cmd of input_uvc.c. The group IN_CMD_RESOLUTION is not modelled.
use mjpg_streamer.Common.{
  ℕ, zero, suc, Bool, not, ◌&&◌, List, [], ◌∷◌, Option, none, some, ◌==◌, if◌then◌else◌,
}
use mjpg_streamer.Common.Int.{ℤ, pos, negsuc, ltb_ℤ, eqb_ℤ}
use mjpg_streamer.Uvc.Controls.{
  QueryCtrl, Control, Reply, replied, failed, einval, ioctl_retry, xioctl, Driver, class_user,
  in_cmd_generic, returned, Camera,
}

-- The first control with the id, and its place.
unfoldable pub find_control : ℕ → List Control → Option (ℕ × Control)
find_control id [] = none
find_control id (p ∷ ps) =
    let rest = find_control id ps in
    if p.ctrl.id == id
    then some (0, p)
    else elim rest as (λ _. Option (ℕ × Control)) [ none ↦ none | some (i, q) ↦ some (suc i, q) ]

-- in_parameters[i].value = value
unfoldable pub set_value : ℕ → ℤ → List Control → List Control
set_value i v [] = []
set_value zero v (p ∷ ps) = record p { value = v } ∷ ps
set_value (suc i) v (p ∷ ps) = p ∷ set_value i v ps

-- value >= min && value <= max
unfoldable pub in_range : QueryCtrl → ℤ → Bool
in_range q v = not (ltb_ℤ v q.minimum) && not (ltb_ℤ q.maximum v)

module _ (d : Driver) where
  open d use {Device}

  -- What follows VIDIOC_S_CTRL.
  unfoldable pub after_set : ℕ → ℤ → Camera d → Reply Unit × Device → ℤ × Camera d
  unfolding set_value
  after_set i v c (replied _, s) =
      (pos 0, record c { device = s; in_parameters = set_value i v c.in_parameters })
  after_set i v c (failed _, s) = (negsuc 0, record c { device = s })

  -- The two branches on got.
  unfoldable pub set_found : ℕ → ℤ → Camera d → Option (ℕ × Control) → ℤ × Camera d
  unfolding xioctl in_range after_set
  set_found id v c none = (negsuc 0, c)
  set_found id v c (some (i, p)) =
      if p.class_id == class_user
      then (if in_range p.ctrl v
          then after_set i v c (xioctl ioctl_retry (d.s_ctrl id v) c.device)
          else (pos 0, c))
      else (let (reply, s) = xioctl ioctl_retry (d.s_ext_ctrls p.ctrl.id v) c.device in
          (returned reply, record c { device = s }))

  unfoldable pub v4l2_set_control : ℕ → ℤ → Camera d → ℤ × Camera d
  unfolding set_found find_control
  v4l2_set_control id v c = set_found id v c (find_control id c.in_parameters)

  -- The group IN_CMD_V4L2 of input_cmd: the place is the variable that is still 0.
  unfoldable pub input_cmd_v4l2 : ℕ → ℤ → Camera d → ℤ × Camera d
  unfolding v4l2_set_control set_value
  input_cmd_v4l2 id v c =
      let (ret, c) = v4l2_set_control id v c in
      if eqb_ℤ ret (pos 0)
      then (ret, record c { in_parameters = set_value 0 v c.in_parameters })
      else (ret, c)

  -- The group IN_CMD_GENERIC.
  unfoldable pub input_cmd_generic : ℕ → List Control → ℤ
  input_cmd_generic id [] = negsuc 0
  input_cmd_generic id (p ∷ ps) =
      let rest = input_cmd_generic id ps in
      if (p.ctrl.id == id) && (p.group == in_cmd_generic) then pos 0 else rest

  -- The group IN_CMD_JPEG_QUALITY, with the ioctl called once.
  unfoldable pub input_cmd_jpeg_quality : ℤ → Camera d → ℤ × Camera d
  input_cmd_jpeg_quality v c =
      if not (ltb_ℤ v (pos 0)) && ltb_ℤ v (pos 101)
      then (let (reply, s) = d.s_jpegcomp v c.device in
          let ret = if eqb_ℤ (returned reply) (pos einval) then negsuc 0 else pos 0 in
          (ret, record c { device = s; quality = v }))
      else (negsuc 0, c)
