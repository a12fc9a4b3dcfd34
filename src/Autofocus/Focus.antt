-- ===== src/Autofocus/Focus.antt =====
-- plugins/output_autofocus/output_autofocus.c: worker_thread, which looks for the focus with the sharpest frame. What
-- getFrameSharpnessValue gives for each frame is a list. The comparisons of doubles, and the two constants, are parameters.
-- The command to the camera is commented out in the source. The pauses are left out.
pub mod Search
use mjpg_streamer.Common.{
  ℕ, ◌-◌, Bool, true, false, ◌||◌, List, [], ◌∷◌, leb, min, max, if◌then◌else◌,
}

-- sv > max_sv, ABS(sv - max_sv) > delta, and the doubles -1.0 and 100.0.
pub record Sharpness : Type 1 where
  pub Value : Type 0
  pub exceeds : Value → Value → Bool
  pub is_far : Value → Value → Bool
  pub minus_one : Value
  pub hundred : Value

module _ (d : Sharpness) where
  open d use {Value}

  pub record Focus : Type 0 where
    pub max_sv : Value
    pub focus : ℕ
    pub max_focus : ℕ
    pub search_focus : Bool

  abbrev pub first_focus : Focus
  first_focus = record { max_sv = d.hundred; focus = 255; max_focus = 100; search_focus = true }

  -- if(!search_focus)
  unfoldable pub begin_search : Focus → Focus
  begin_search s =
      if s.search_focus
      then s
      else record { max_sv = d.minus_one; focus = 255; max_focus = 255; search_focus = true }

  -- if(focus <= 0)
  unfoldable pub end_search : Focus → Focus
  end_search s = if leb s.focus 0 then record s { focus = s.max_focus; search_focus = false } else s

  -- if(search_focus), with the step of 10.
  unfoldable pub try_focus : Value → Focus → Focus
  try_focus sv s =
      let best =
        if d.exceeds sv s.max_sv then record s { max_focus = s.focus; max_sv = sv } else s in
      if s.search_focus then record best { focus = min (max (best.focus - 10) 0) 255 } else s

  -- What the thread does with the sharpness of a frame.
  unfoldable pub adjust : Value → Focus → Focus
  unfolding begin_search end_search try_focus
  adjust sv s =
      if s.search_focus || d.is_far sv s.max_sv
      then try_focus sv (end_search (begin_search s))
      else s

  -- The loop of the thread.
  unfoldable pub worker_thread : Focus → List Value → Focus
  unfolding adjust
  worker_thread s [] = s
  worker_thread s (sv ∷ svs) = worker_thread (adjust sv s) svs
