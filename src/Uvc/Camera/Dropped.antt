-- ===== src/Uvc/Camera/Dropped.antt =====
-- Which frames cam_thread drops.
use mjpg_streamer.Common.{
  ℕ, suc, ◌+◌, ◌*◌, ◌-◌, ◌≤◌, ◌≡◌, refl, subst, subst₂, ◌⊎◌, inl, inr, Bool, true, false, ◌&&◌,
  Bool-cases, Option-cases, List, [], ◌∷◌, Option, none, some, length, ltb, if◌then◌else◌, arith,
}
use mjpg_streamer.Common.Text.{Bytes}
use mjpg_streamer.Httpd.Stream.{Frame}
use mjpg_streamer.Uvc.Picture.{memcpy_picture}
use mjpg_streamer.Uvc.Camera.{
  Camera, Options, Now, CamState, Passed, undefined, passed, published, publish, is_raw, with_now,
  too_soon, pass_frame, msec, elapsed, Grabbed, failed, overflowed, grabbed, uvc_grab, Turn,
  interrupted, select_failed, timed_out, readable, not_readable, Ending, ended, beyond, Run, ends,
  after, cam_loop,
}

-- What a frame leads to: none is published and the timestamp of the last stays, or one is, at its turn and, with
-- soft_framedrop, late enough.
abbrev Judged : Options → CamState → CamState → Option Frame → Type 0
Judged o s s' none =
    (s'.every_count ≤ suc s.every_count) × (s'.last_sec ≡ s.last_sec) × (s'.last_usec ≡ s.last_usec)
Judged o s s' (some f) =
    (s'.every_count ≡ 0)
    × (o.every ≤ suc s.every_count)
    × (s'.last_sec ≡ f.tv_sec)
    × (s'.last_usec ≡ f.tv_usec)
    × (o.soft_framedrop ≡ true
        → o.frame_period_time ≤ elapsed (msec f.tv_sec f.tv_usec) (msec s.last_sec s.last_usec))

JudgedAll : Options → CamState → Passed → Type 0
JudgedAll o s undefined = Unit
JudgedAll o s (passed s' f) = Judged o s s' f

published-Judged :
    (o : Options) (s : CamState) (t : CamState) (picture : Bytes)
    → t.every_count ≡ 0
    → o.every ≤ suc s.every_count
    → (o.soft_framedrop ≡ true
        → o.frame_period_time
          ≤ elapsed (msec t.camera.tv_sec t.camera.tv_usec) (msec s.last_sec s.last_usec))
    → JudgedAll o s (published t picture)
unfolding JudgedAll
published-Judged o s t picture zero_count its_turn late =
    elim (Bool-cases (ltb t.camera.framesize_in (length picture))) [
      | inl large ↦ rw large tt
      | inr fits ↦ rw fits (zero_count, its_turn, refl, refl, late)
    ]

publish-Judged :
    (o : Options) (s : CamState) (t : CamState)
    → t.every_count ≡ 0
    → o.every ≤ suc s.every_count
    → (o.soft_framedrop ≡ true
        → o.frame_period_time
          ≤ elapsed (msec t.camera.tv_sec t.camera.tv_usec) (msec s.last_sec s.last_usec))
    → JudgedAll o s (publish o t)
unfolding publish JudgedAll
publish-Judged o s t zero_count its_turn late = elim (Bool-cases (is_raw t.camera.format_in)) [
  | inl raw ↦ rw raw (published-Judged o s t (o.compress t.camera) zero_count its_turn late)
  | inr packed ↦ elim (Option-cases (memcpy_picture t.camera.tmpbuffer t.camera.tmpbytesused)) [
    | inl nothing ↦ rw (packed, nothing) tt
    | inr (picture, is) ↦ rw (packed, is) (published-Judged o s t picture zero_count its_turn late)
  ]
]

-- with_now changes the camera's timestamp only.
with_now_keeps :
    (o : Options) (now : Now) (s : CamState)
    → let t = with_now o now s in
      (t.every_count ≡ s.every_count) × (t.last_sec ≡ s.last_sec) × (t.last_usec ≡ s.last_usec)
with_now_keeps o now s = elim (Bool-cases o.want_timestamp) [
  | inl is ↦ rw is (refl, refl, refl)
  | inr not ↦ rw not (refl, refl, refl)
]

right_false : (b c : Bool) → (b && c) ≡ false → b ≡ true → c ≡ false
right_false true c e _ = e
right_false false c e f = absurd cc

le_of_not_ltb : (a b : ℕ) → ltb a b ≡ false → b ≤ a
le_of_not_ltb a b e = ground arith

late_enough :
    (o : Options) (t : CamState) (sec usec : ℕ)
    → too_soon o t ≡ false
    → t.last_sec ≡ sec
    → t.last_usec ≡ usec
    → o.soft_framedrop ≡ true
    → o.frame_period_time ≤ elapsed (msec t.camera.tv_sec t.camera.tv_usec) (msec sec usec)
late_enough o t sec usec e at_sec at_usec soft =
    let late =
      le_of_not_ltb (elapsed (msec t.camera.tv_sec t.camera.tv_usec) (msec t.last_sec t.last_usec))
        o.frame_period_time (right_false o.soft_framedrop _ e soft) in
    subst₂ (λ x y. o.frame_period_time ≤ elapsed (msec t.camera.tv_sec t.camera.tv_usec) (msec x y))
      at_sec at_usec late

pass_frame-Judged : (o : Options) (now : Now) (s : CamState) → JudgedAll o s (pass_frame o now s)
unfolding pass_frame JudgedAll
pass_frame-Judged o now s = elim (Bool-cases (ltb s.every_count (o.every - 1))) [
  | inl skipped ↦ rw skipped (omega arith, refl, refl)
  | inr its_turn ↦ elim (Bool-cases (ltb s.camera.tmpbytesused o.minimum_size)) [
    | inl small ↦ rw (its_turn, small) (omega arith, refl, refl)
    | inr large ↦
        let t = with_now o now (record s { every_count = 0 }) in
        let (count, sec, usec) = with_now_keeps o now (record s { every_count = 0 }) in
        elim (Bool-cases (too_soon o t)) [
          | inl soon ↦ rw (its_turn, large, soon) (omega arith, sec, usec)
          | inr late ↦
              rw (its_turn, large, late)
                (publish-Judged o s t count (ground arith)
                  (late_enough o t s.last_sec s.last_usec late sec usec))
        ]
  ]
]

-- The timestamps of the frames, from that of the frame before the first on.
abbrev pub Spaced : ℕ → ℕ → ℕ → List Frame → Type 0
Spaced period sec usec [] = Unit
Spaced period sec usec (f ∷ frames) =
    (period ≤ elapsed (msec f.tv_sec f.tv_usec) (msec sec usec))
    × Spaced period f.tv_sec f.tv_usec frames

-- What holds of a run from a state with at most `n` frames to grab.
record Sparse (o : Options) (s : CamState) (n : ℕ) (r : Run) : Type 0 where
  counted : o.every * length r.frames ≤ s.every_count + n
  spaced : o.soft_framedrop ≡ true → Spaced o.frame_period_time s.last_sec s.last_usec r.frames

ends-Sparse : (o : Options) (s : CamState) (n : ℕ) (e : Ending) → Sparse o s n (ends e)
ends-Sparse o s n e = record { counted = omega arith; spaced = λ _. tt }

either-Sparse :
    (b : Bool) (o : Options) (s : CamState) (n : ℕ) (r : Run) (e : Ending)
    → Sparse o s n r
    → Sparse o s n (if b then r else ends e)
either-Sparse true o s n r e h = h
either-Sparse false o s n r e h = ends-Sparse o s n e

more-Sparse : (o : Options) (s : CamState) (n : ℕ) (r : Run) → Sparse o s n r → Sparse o s (suc n) r
more-Sparse o s n r h = record { counted = omega (arith, h.counted); spaced = h.spaced }

after-Sparse :
    (o : Options) (s s' : CamState) (f : Option Frame) (n : ℕ) (r : Run)
    → Judged o s s' f
    → Sparse o s' n r
    → Sparse o s (suc n) (after f r)
after-Sparse o s s' none n r (count, sec, usec) h = record {
  counted = omega (arith, h.counted);
  spaced = λ soft. subst₂ (λ x y. Spaced o.frame_period_time x y r.frames) sec usec (h.spaced soft);
}
after-Sparse o s s' (some f) n r (count, its_turn, sec, usec, late) h = record {
  counted = grind arith;
  spaced = λ soft.
      (late soft, subst₂ (λ x y. Spaced o.frame_period_time x y r.frames) sec usec (h.spaced soft));
}

Grabbed-cases : (g : Grabbed) → (g ≡ failed) ⊎ (g ≡ overflowed) ⊎ ((c : Camera) × (g ≡ grabbed c))
Grabbed-cases failed = inl refl
Grabbed-cases overflowed = inr (inl refl)
Grabbed-cases (grabbed c) = inr (inr (c, refl))

Passed-cases :
    (p : Passed) → (p ≡ undefined) ⊎ ((s : CamState) × (f : Option Frame) × (p ≡ passed s f))
Passed-cases undefined = inl refl
Passed-cases (passed s f) = inr (s, f, refl)

camera_aside :
    (o : Options) (s : CamState) (c : Camera) (s' : CamState) (f : Option Frame)
    → JudgedAll o (record s { camera = c }) (passed s' f)
    → Judged o s s' f
unfolding JudgedAll
camera_aside o s c s' none h = h
camera_aside o s c s' (some f) h = h

cam_loop-Sparse :
    (o : Options) (s : CamState) (turns : List Turn)
    → Sparse o s (length turns) (cam_loop o s turns)
unfolding cam_loop
cam_loop-Sparse o s [] = ends-Sparse o s 0 _
cam_loop-Sparse o s (interrupted ∷ turns) =
    more-Sparse o s (length turns) _ (cam_loop-Sparse o s turns)
cam_loop-Sparse o s (select_failed ∷ turns) = ends-Sparse o s _ _
cam_loop-Sparse o s (timed_out set ∷ turns) =
    either-Sparse _ o s _ _ _ (more-Sparse o s (length turns) _ (cam_loop-Sparse o s turns))
cam_loop-Sparse o s (not_readable event ∷ turns) =
    either-Sparse _ o s _ _ _ (more-Sparse o s (length turns) _ (cam_loop-Sparse o s turns))
cam_loop-Sparse o s (readable buffer requeued now event ∷ turns) =
    elim (Grabbed-cases (uvc_grab buffer requeued s.camera)) [
      | inl fails ↦ rw (cam_loop, fails) (ends-Sparse o s _ ended)
      | inr (inl flows) ↦ rw (cam_loop, flows) (ends-Sparse o s _ beyond)
      | inr (inr (c, is)) ↦
          let t = record s { camera = c } in
          elim (Passed-cases (pass_frame o now t)) [
            | inl nothing ↦ rw (cam_loop, is, nothing) (ends-Sparse o s _ beyond)
            | inr (s', f, passes) ↦
                let judged : JudgedAll o t (passed s' f) =
                  subst (JudgedAll o t) passes (pass_frame-Judged o now t) in
                rw (cam_loop, is, passes)
                  (after-Sparse o s s' f (length turns) _ (camera_aside o s c s' f judged)
                    (either-Sparse _ o s' _ _ _ (cam_loop-Sparse o s' turns)))
          ]
    ]

-- Whatever the camera and the driver do, of the frames that are grabbed at most each `every`th is published: `every`
-- times the number of those that are is at most the number of turns and every_count at the start.
pub cam_loop_every :
    (o : Options) (s : CamState) (turns : List Turn)
    → o.every * length (cam_loop o s turns).frames ≤ s.every_count + length turns
cam_loop_every o s turns = (cam_loop-Sparse o s turns).counted

-- With soft_framedrop, whatever the camera and the driver do, the timestamps of two frames that are published one after
-- the other, and of the first and the one before it, are frame_period_time apart at least, in milliseconds modulo 2^64.
pub cam_loop-Spaced :
    (o : Options) (s : CamState) (turns : List Turn)
    → o.soft_framedrop ≡ true
    → Spaced o.frame_period_time s.last_sec s.last_usec (cam_loop o s turns).frames
cam_loop-Spaced o s turns = (cam_loop-Sparse o s turns).spaced
