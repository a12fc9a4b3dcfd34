-- ===== src/Uvc/Controls/Settled.antt =====
-- What a command to a V4L2 control leaves: the device and the table of the controls.
use mjpg_streamer.Common.{
  ℕ, ◌≡◌, refl, ap, ◌∙◌, subst, ◌⊎◌, inl, inr, false, Bool-cases, List, Option, none, some, map,
  get_elem?, if◌then◌else◌, ◌==◌,
}
use mjpg_streamer.Common.Int.{ℤ, pos, negsuc, eqb_ℤ, ◌≤ℤ◌}
use mjpg_streamer.Uvc.Controls.{
  Control, Reply, replied, failed, ioctl_retry, xioctl, Driver, class_user, returned, Camera,
}
use mjpg_streamer.Uvc.Controls.Commands.{
  find_control, set_value, in_range, after_set, set_found, v4l2_set_control, input_cmd_v4l2,
}
use mjpg_streamer.Uvc.Controls.Places.{
  xioctl-kept, find_control-found, set_value-ids, set_value-first, set_value-again, in_range-bounds,
}

module _ (d : Driver) (P : d.Device → Type 0) where
  open d use {Device}

  -- The requests that keep P: a value in its range for a control of the user class, any value for another control.
  pub record Keeps (ps : List Control) : Type 0 where
    pub set_user :
        (i : ℕ) (p : Control) (v : ℤ) (s : Device)
        → get_elem? ps i ≡ some p
        → p.ctrl.minimum ≤ℤ v
        → v ≤ℤ p.ctrl.maximum
        → P s
        → P (d.s_ctrl p.ctrl.id v s).1
    pub set_extended :
        (i : ℕ) (p : Control) (v : ℤ) (s : Device)
        → get_elem? ps i ≡ some p
        → (p.class_id == class_user) ≡ false
        → P s
        → P (d.s_ext_ctrls p.ctrl.id v s).1

  -- The device has P, the table lists the controls it listed, and the answer is -1 with the table as it was, or 0 with v
  -- as the value of the first control.
  pub record Settled (v : ℤ) (ps : List Control) (result : ℤ × Camera d) : Type 0 where
    pub device : P result.1.device
    pub ids : map (λ p. p.ctrl.id) result.1.in_parameters ≡ map (λ p. p.ctrl.id) ps
    pub values :
        (result.0 ≡ negsuc 0) × (result.1.in_parameters ≡ ps)
        ⊎ (result.0 ≡ pos 0) × (get_elem? (map (λ p. p.value) result.1.in_parameters) 0 ≡ some v)

  module _ (ps : List Control) (keeps : Keeps ps) where
    -- Found after v4l2SetControl: P, and the table as it was or with the value at its place.
    abbrev Reached : ℤ → ℕ → ℤ × Camera d → Type 0
    Reached v i result =
        P result.1.device
        × ((result.0 ≡ negsuc 0) × (result.1.in_parameters ≡ ps)
            ⊎ (result.0 ≡ pos 0)
              × ((result.1.in_parameters ≡ ps) ⊎ (result.1.in_parameters ≡ set_value i v ps)))

    after_set-Reached :
        (i : ℕ) (v : ℤ) (c : Camera d) (r : Reply Unit × Device)
        → c.in_parameters ≡ ps
        → P r.1
        → Reached v i (after_set d i v c r)
    unfolding after_set
    after_set-Reached i v c (replied _, s) e h = (h, inr (refl, inr (ap (set_value i v) e)))
    after_set-Reached i v c (failed _, s) e h = (h, inl (refl, e))

    returned-Reached :
        (i : ℕ) (v : ℤ) (c : Camera d) (r : Reply Unit × Device)
        → c.in_parameters ≡ ps
        → P r.1
        → Reached v i (returned r.0, record c { device = r.1 })
    returned-Reached i v c (replied _, s) e h = (h, inr (refl, inl e))
    returned-Reached i v c (failed _, s) e h = (h, inl (refl, e))

    set_found-Reached :
        (id : ℕ) (v : ℤ) (c : Camera d) (i : ℕ) (p : Control)
        → c.in_parameters ≡ ps
        → get_elem? ps i ≡ some p
        → p.ctrl.id ≡ id
        → P c.device
        → Reached v i (set_found d id v c (some (i, p)))
    unfolding set_found
    set_found-Reached id v c i p e at same h = elim (Bool-cases (p.class_id == class_user)) [
      | inl user ↦ elim (Bool-cases (in_range p.ctrl v)) [
        | inl fits ↦
            let (low, high) = in_range-bounds p.ctrl v fits in
            simp (user, fits)
              (after_set-Reached i v c (xioctl ioctl_retry (d.s_ctrl id v) c.device) e (
                xioctl-kept P (d.s_ctrl id v)
                  (λ s k.
                    subst (λ n. P (d.s_ctrl n v s).1) same (keeps.set_user i p v s at low high k))
                  ioctl_retry c.device h))
        | inr out ↦ simp (user, out) (h, inr (refl, inl e))
      ]
      | inr extended ↦ simp extended (
          returned-Reached i v c (xioctl ioctl_retry (d.s_ext_ctrls p.ctrl.id v) c.device) e (
            xioctl-kept P (d.s_ext_ctrls p.ctrl.id v)
              (λ s k. keeps.set_extended i p v s at extended k) ioctl_retry c.device h))
    ]

    -- What input_cmd makes of the outcome of v4l2SetControl.
    abbrev commanded : ℤ → ℤ × Camera d → ℤ × Camera d
    commanded v r =
        if eqb_ℤ r.0 (pos 0)
        then (r.0, record r.1 { in_parameters = set_value 0 v r.1.in_parameters })
        else r

    commanded-Settled :
        (v : ℤ) (i : ℕ) (p : Control) (r : ℤ × Camera d)
        → get_elem? ps i ≡ some p
        → Reached v i r
        → Settled v ps (commanded v r)
    commanded-Settled v i p (ret, c) at (h, inl (bad, e)) =
        simp bad (record { device = h; ids = ap (map (λ p. p.ctrl.id)) e; values = inl (refl, e) })
    commanded-Settled v i p (ret, c) at (h, inr (fine, inl e)) =
        simp (fine, e)
          (record {
            device = h;
            ids = set_value-ids 0 v ps;
            values = inr (refl, set_value-first v ps i p at);
          })
    commanded-Settled v i p (ret, c) at (h, inr (fine, inr e)) =
        simp (fine, e)
          (record {
            device = h;
            ids = set_value-ids 0 v (set_value i v ps) ∙ set_value-ids i v ps;
            values = inr (refl, set_value-again v ps i p at);
          })

    settled :
        (id : ℕ) (v : ℤ) (c : Camera d)
        → c.in_parameters ≡ ps
        → P c.device
        → (o : Option (ℕ × Control)) → find_control id c.in_parameters ≡ o
        → Settled v ps (commanded v (set_found d id v c o))
    unfolding set_found
    settled id v c e h none gone = record {
      device = h;
      ids = ap (map (λ p. p.ctrl.id)) e;
      values = inl (refl, e);
    }
    settled id v c e h (some (i, p)) there =
        let (at, same) =
          find_control-found id ps i p (subst (λ t. find_control id t ≡ some (i, p)) e there) in
        commanded-Settled v i p (set_found d id v c (some (i, p))) at
          (set_found-Reached id v c i p e at same h)

  -- A command to a V4L2 control sends the device no other request than these: for a listed control of the user class a
  -- value in its range, for a listed control of another class any value, since there the code has no test. So it keeps
  -- every P of the device that these requests keep. The table goes on listing the same controls. Where the answer is -1 the table is as
  -- it was; else it is 0, and the first control of the table has the value of the command, whichever was named.
  pub input_cmd_v4l2-Settled :
      (id : ℕ) (v : ℤ) (c : Camera d)
      → Keeps c.in_parameters
      → P c.device
      → Settled v c.in_parameters (input_cmd_v4l2 d id v c)
  unfolding input_cmd_v4l2 v4l2_set_control
  input_cmd_v4l2-Settled id v c keeps h =
      settled c.in_parameters keeps id v c refl h (find_control id c.in_parameters) refl
