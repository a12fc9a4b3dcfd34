-- ===== src/Uvc/Controls/Listed.antt =====
-- Which controls the table lists.
use mjpg_streamer.Common.{
  ℕ, zero, suc, ◌+◌, ◌^◌, ◌≤◌, ◌<◌, ◌≡◌, refl, sym, ap, ◌∙◌, subst, List, [], ◌∷◌, ◌++◌,
  append_assoc, append-nil, Bool, true, false, Bool-cases, inl, inr, ◌⊎◌, if◌then◌else◌, map-append,
  none, some, map, length, arith,
}
use mjpg_streamer.Common.Bits.{bit_or_below}
use mjpg_streamer.Common.Int.{ℤ}
use mjpg_streamer.Uvc.Controls.{
  QueryCtrl, Control, Driver, Camera, Reply, replied, failed, xioctl, ioctl_retry,
}
use mjpg_streamer.Uvc.Controls.Table.{
  next_ctrl, cid_base, cid_private_base, control_readed, next_loop, standard_loop, private_loop,
  query_from, query_controls, enumerate_controls, read_jpeg_quality, add_quality,
}
use mathlib.Core.Option.{map as option_map}
use Prim.Native.Nat.{bit_or}

-- The ids ascend, above `low` and below the flag.
abbrev pub Ascending : ℕ → List ℕ → Type 0
Ascending low [] = Unit
Ascending low (id ∷ ids) = (low < id) × (id < 2 ^ 31) × Ascending id ids

-- Those of `count` ids from `i` that there are.
abbrev pub standard_ids : (ℕ → Bool) → ℕ → ℕ → List ℕ
standard_ids has zero i = []
standard_ids has (suc count) i =
    let rest = standard_ids has count (i + 1) in if has i then i ∷ rest else rest

abbrev pub counted : ℕ → ℕ → List ℕ
counted zero i = []
counted (suc n) i = i ∷ counted n (i + 1)

-- There are the `n` ids from `i`, and not the next one.
abbrev pub Consecutive : (ℕ → Bool) → ℕ → ℕ → Type 0
Consecutive has zero i = has i ≡ false
Consecutive has (suc n) i = (has i ≡ true) × Consecutive has n (i + 1)

-- The ids of the table.
abbrev pub ids_of : List Control → List ℕ
ids_of = map (λ p. p.ctrl.id)

module _ (d : Driver) where
  open d use {Device}

  -- The answers to VIDIOC_QUERYCTRL for the controls `ids` behind `low`, as V4L2 documents them: with the flag, the
  -- next control, whatever was done to the others; none behind the last.
  abbrev pub Answers : ℕ → List ℕ → Type 0
  Answers low [] = (s : Device) → d.query_ctrl s (next_ctrl + low) ≡ none
  Answers low (id ∷ ids) =
      ((s : Device) → (q : QueryCtrl) × (d.query_ctrl s (next_ctrl + low) ≡ some q) × (q.id ≡ id))
      × Answers id ids

  flagged : (id : ℕ) → id < 2 ^ 31 → bit_or next_ctrl id ≡ next_ctrl + id
  flagged id h = bit_or_below 31 1 id h

  control_readed-ids :
      (q : QueryCtrl) (c : Camera d)
      → ids_of (control_readed d q c).in_parameters ≡ ids_of c.in_parameters ++ q.id ∷ []
  unfolding control_readed
  control_readed-ids q c = map-append (λ p. p.ctrl.id) c.in_parameters _

  -- The loop has read q, and the controls after it are still to come.
  next_loop-ids :
      (fuel : ℕ) (q : QueryCtrl) (c : Camera d) (ids : List ℕ)
      → q.id < 2 ^ 31
      → Answers q.id ids
      → Ascending q.id ids
      → length ids < fuel
      → (c2 : Camera d) × (next_loop d fuel q c ≡ some c2)
        × (ids_of c2.in_parameters ≡ ids_of c.in_parameters ++ q.id ∷ ids)
  unfolding next_loop
  next_loop-ids zero q c ids small answers asc enough = absurd (omega arith)
  next_loop-ids (suc fuel) q c [] small answers asc enough =
      let e : d.query_ctrl (control_readed d q c).device (bit_or next_ctrl q.id) ≡ none =
        ap (d.query_ctrl (control_readed d q c).device) (flagged q.id small) ∙ answers _ in
      (control_readed d q c, simp e refl, control_readed-ids q c)
  next_loop-ids (suc fuel) q c (id ∷ ids) small (answer, answers) (above, below, asc) enough =
      let (q2, found, same) = answer (control_readed d q c).device in
      let e : d.query_ctrl (control_readed d q c).device (bit_or next_ctrl q.id) ≡ some q2 =
        ap (d.query_ctrl (control_readed d q c).device) (flagged q.id small) ∙ found in
      let (c2, done, listed) =
        next_loop-ids fuel q2 (control_readed d q c) ids (subst (λ n. n < 2 ^ 31) (sym same) below)
          (subst (λ n. Answers n ids) (sym same) answers)
          (subst (λ n. Ascending n ids) (sym same) asc) (omega arith) in
      (
        c2,
        simp e done,
        listed
            ∙ ap (λ t. t ++ q2.id ∷ ids) (control_readed-ids q c)
            ∙ append_assoc (ids_of c.in_parameters) (q.id ∷ []) (q2.id ∷ ids)
            ∙ ap (λ n. ids_of c.in_parameters ++ q.id ∷ n ∷ ids) same,
      )

  -- A driver without controls.
  standard_loop-none :
      (count i : ℕ) (c : Camera d)
      → i + count ≤ 2 ^ 31
      → ((s : Device) (id : ℕ) → id < 2 ^ 31 → d.query_ctrl s id ≡ none)
      → standard_loop d count i c ≡ c
  unfolding standard_loop
  standard_loop-none zero i c h nothing = refl
  standard_loop-none (suc count) i c h nothing =
      simp (nothing c.device i (omega arith))
        (standard_loop-none count (i + 1) c (omega arith) nothing)

  private_loop-none :
      (fuel i : ℕ) (c : Camera d)
      → 0 < fuel
      → d.query_ctrl c.device i ≡ none
      → private_loop d fuel i c ≡ some c
  unfolding private_loop
  private_loop-none zero i c h nothing = absurd (omega arith)
  private_loop-none (suc fuel) i c h nothing = simp nothing refl

  Ascending-length :
      (low : ℕ) (ids : List ℕ) → low < 2 ^ 31 → Ascending low ids → length ids + low < 2 ^ 31
  Ascending-length low [] h asc = omega arith
  Ascending-length low (id ∷ ids) h (above, below, asc) =
      let rest = Ascending-length id ids below asc in omega arith

  -- What the loops leave.
  query_controls-ids :
      (fuel standard : ℕ) (ids : List ℕ) (c : Camera d)
      → 2 ^ 31 ≤ fuel
      → cid_base + standard ≤ 2 ^ 31
      → Answers 0 ids
      → Ascending 0 ids
      → (ids ≡ [] → (s : Device) (id : ℕ) → id < 2 ^ 31 → d.query_ctrl s id ≡ none)
      → (c2 : Camera d) × (query_controls d fuel standard c ≡ some c2)
        × (ids_of c2.in_parameters ≡ ids)
  unfolding query_controls query_from
  query_controls-ids fuel standard [] c enough room answers asc nothing =
      let start = record c { in_parameters = [] } in
      let quiet = nothing refl in
      (
        start,
        simp (answers c.device, standard_loop-none standard cid_base start room quiet)
            (private_loop-none fuel cid_private_base start (omega arith)
              (quiet c.device cid_private_base (omega arith))),
        refl,
      )
  query_controls-ids fuel standard (id ∷ ids) c enough room (answer, answers) (above, below, asc)
        nothing =
      let (q, found, same) = answer c.device in
      let short = Ascending-length id ids below asc in
      let (c2, done, listed) =
        next_loop-ids fuel q (record c { in_parameters = [] }) ids
          (subst (λ n. n < 2 ^ 31) (sym same) below) (subst (λ n. Answers n ids) (sym same) answers)
          (subst (λ n. Ascending n ids) (sym same) asc) (omega arith) in
      (c2, simp found done, listed ∙ ap (λ n. n ∷ ids) same)

  add_quality-ids :
      (fresh : Control) (c : Camera d) (r : Reply ℤ × Device)
      → ids_of (add_quality d fresh c r).in_parameters ≡ ids_of c.in_parameters ++ 1 ∷ []
  unfolding add_quality
  add_quality-ids fresh c (replied v, s) = map-append (λ p. p.ctrl.id) c.in_parameters _
  add_quality-ids fresh c (failed _, s) = map-append (λ p. p.ctrl.id) c.in_parameters _

  read_jpeg_quality-ids :
      (fresh : Control) (c : Camera d)
      → ids_of (read_jpeg_quality d fresh c).in_parameters ≡ ids_of c.in_parameters ++ 1 ∷ []
  unfolding read_jpeg_quality
  read_jpeg_quality-ids fresh c = add_quality-ids fresh c (xioctl ioctl_retry d.g_jpegcomp c.device)

  -- A driver that knows the flag for the next control.
  pub record NextDriver (ids : List ℕ) : Type 0 where
    pub answers : Answers 0 ids
    pub ascending : Ascending 0 ids
    pub nothing : ids ≡ [] → (s : Device) (id : ℕ) → id < 2 ^ 31 → d.query_ctrl s id ≡ none

  -- A driver that does not: it answers for the ids that it has, and its private ones follow each other.
  pub record OldDriver (standard : ℕ) (ids : List ℕ) : Type 0 where
    pub has : ℕ → Bool
    pub privates : ℕ
    pub no_flag : (s : Device) → d.query_ctrl s next_ctrl ≡ none
    pub present :
        (s : Device) (id : ℕ)
        → id < 2 ^ 31
        → has id ≡ true
        → (q : QueryCtrl) × (d.query_ctrl s id ≡ some q) × (q.id ≡ id)
    pub missing : (s : Device) (id : ℕ) → id < 2 ^ 31 → has id ≡ false → d.query_ctrl s id ≡ none
    pub consecutive : Consecutive has privates cid_private_base
    pub room : cid_private_base + privates < 2 ^ 31
    pub known : ids ≡ standard_ids has standard cid_base ++ counted privates cid_private_base

  module _ (standard : ℕ) (ids : List ℕ) (old : OldDriver standard ids) where
    reads_one :
        (i : ℕ) (q : QueryCtrl) (c : Camera d) (later : List ℕ)
        → q.id ≡ i
        → ids_of (control_readed d q c).in_parameters ++ later ≡ ids_of c.in_parameters ++ i ∷ later
    reads_one i q c later same =
        ap (λ t. t ++ later) (control_readed-ids q c)
        ∙ append_assoc (ids_of c.in_parameters) (q.id ∷ []) later
        ∙ ap (λ n. ids_of c.in_parameters ++ n ∷ later) same

    standard_loop-ids :
        (count i : ℕ) (c : Camera d)
        → i + count ≤ 2 ^ 31
        → ids_of (standard_loop d count i c).in_parameters
          ≡ ids_of c.in_parameters ++ standard_ids old.has count i
    unfolding standard_loop
    standard_loop-ids zero i c h = sym (append-nil (ids_of c.in_parameters))
    standard_loop-ids (suc count) i c h = elim (Bool-cases (old.has i)) [
      | inl is ↦
          let (q, found, same) = old.present c.device i (omega arith) is in
          simp (found, is)
            (standard_loop-ids count (i + 1) (control_readed d q c) (omega arith)
              ∙ reads_one i q c (standard_ids old.has count (i + 1)) same)
      | inr is_not ↦
          simp (old.missing c.device i (omega arith) is_not, is_not)
            (standard_loop-ids count (i + 1) c (omega arith))
    ]

    private_loop-ids :
        (fuel n i : ℕ) (c : Camera d)
        → n < fuel
        → i + n < 2 ^ 31
        → Consecutive old.has n i
        → (c2 : Camera d) × (private_loop d fuel i c ≡ some c2)
          × (ids_of c2.in_parameters ≡ ids_of c.in_parameters ++ counted n i)
    unfolding private_loop
    private_loop-ids zero n i c h room k = absurd (omega arith)
    private_loop-ids (suc fuel) zero i c h room k = (
      c,
      simp (old.missing c.device i (omega arith) k) refl,
      sym (append-nil (ids_of c.in_parameters)),
    )
    private_loop-ids (suc fuel) (suc n) i c h room (is, k) =
        let (q, found, same) = old.present c.device i (omega arith) is in
        let (c2, done, listed) =
          private_loop-ids fuel n (i + 1) (control_readed d q c) (omega arith) (omega arith) k in
        (c2, simp found done, listed ∙ reads_one i q c (counted n (i + 1)) same)

    query_controls-old :
        (fuel : ℕ) (c : Camera d)
        → 2 ^ 31 ≤ fuel
        → cid_base + standard ≤ 2 ^ 31
        → (c2 : Camera d) × (query_controls d fuel standard c ≡ some c2)
          × (ids_of c2.in_parameters ≡ ids)
    unfolding query_controls query_from
    query_controls-old fuel c enough room =
        let start = record c { in_parameters = [] } in
        let read = standard_loop d standard cid_base start in
        let more = old.room in
        let (c2, done, listed) =
          private_loop-ids fuel old.privates cid_private_base read (omega arith) old.room
            old.consecutive in
        (
          c2,
          simp (old.no_flag c.device) done,
          listed
              ∙ ap (λ t. t ++ counted old.privates cid_private_base)
                  (standard_loop-ids standard cid_base start room)
              ∙ sym old.known,
        )

  -- From a driver that answers as V4L2 documents it, for the controls `ids` in ascending order with the flag for the
  -- next control, or without that flag for its standard ids from V4L2_CID_BASE and its private ids from
  -- V4L2_CID_PRIVATE_BASE, enumerateControls ends within 2 ^ 31 turns of each loop, where no allocation fails. The table
  -- lists just these controls, in this order, and then the quality of JPEG as number 1, whether VIDIOC_G_JPEGCOMP fails
  -- or not.
  pub enumerate_controls-ids :
      (fuel standard : ℕ) (fresh : Control) (ids : List ℕ) (c : Camera d)
      → 2 ^ 31 ≤ fuel
      → cid_base + standard ≤ 2 ^ 31
      → NextDriver ids ⊎ OldDriver standard ids
      → (c2 : Camera d) × (enumerate_controls d fuel standard fresh c ≡ some c2)
        × (ids_of c2.in_parameters ≡ ids ++ 1 ∷ [])
  unfolding enumerate_controls
  enumerate_controls-ids fuel standard fresh ids c enough room driver =
      let (c2, done, listed) = queried driver in
      (
        read_jpeg_quality d fresh c2,
        ap (option_map (read_jpeg_quality d fresh)) done,
        read_jpeg_quality-ids fresh c2 ∙ ap (λ t. t ++ 1 ∷ []) listed,
      )
    where
      queried :
          NextDriver ids ⊎ OldDriver standard ids
          → (c2 : Camera d) × (query_controls d fuel standard c ≡ some c2)
            × (ids_of c2.in_parameters ≡ ids)
      queried (inl next) =
          query_controls-ids fuel standard ids c enough room next.answers next.ascending
            next.nothing
      queried (inr old) = query_controls-old standard ids old fuel c enough room
