-- ===== src/Frames/Mutex/Exclusion.antt =====
-- What the mutex is for.
use mjpg_streamer.Common.{ℕ, ◌≡◌, refl, Bool, true, false, List, Option, some}
use mjpg_streamer.Frames.{
  Input, Thread, reader, Writer, outside, storing, signalled, Place, head, locked, waiting, woken,
  reading, left, sized, copying, start, Action, run, AllAllowed,
}
use mjpg_streamer.Httpd.Stream.{Frame}
use mjpg_streamer.Frames.Stores.{Sound}
use mjpg_streamer.Frames.Mutex.{WriterHolds, ReaderHolds, Inv}
use mjpg_streamer.Frames.Mutex.Steps.{run-Inv, start-Inv}

-- Whether a reader is between its lock or wake-up and its wait or unlock.
abbrev pub is_inside : Place → Bool
is_inside locked = true
is_inside reading = true
is_inside (sized _) = true
is_inside (copying _ _ _ _) = true
is_inside _ = false

inside_holds :
    (i : ℕ) (p : Place) (db : Option Thread) (g : Input)
    → ReaderHolds i p db g
    → is_inside p ≡ true
    → db ≡ some (reader i)
inside_holds i locked db g h e = h
inside_holds i reading db g h e = h
inside_holds i (sized _) db g h e = h.0
inside_holds i (copying _ _ _ _) db g h e = h.0
inside_holds i head db g h e = absurd cc
inside_holds i waiting db g h e = absurd cc
inside_holds i woken db g h e = absurd cc
inside_holds i left db g h e = absurd cc

writer_outside :
    (i : ℕ) (w : Writer) (db : Option Thread) (g : Input) (f : Frame)
    → WriterHolds w db g f
    → db ≡ some (reader i)
    → w ≡ outside
writer_outside i outside db g f h e = refl
writer_outside i (storing _ _) db g f h e = absurd cc
writer_outside i (signalled _) db g f h e = absurd cc

-- After any schedule, no two readers are between their lock or wake-up and their wait or unlock, and while a reader is,
-- the writer is outside its own part. The frames that the writer begins fit its buffer, and
-- malloc never fails for it.
pub run-Exclusive :
    (g : Input) (schedule : List Action)
    → Sound g
    → AllAllowed schedule (start g)
    → let s = run schedule (start g) in
      (i : ℕ)
      → is_inside (s.readers i).place ≡ true
      → (s.input ≡ outside) × ((j : ℕ) → is_inside (s.readers j).place ≡ true → i ≡ j)
run-Exclusive g schedule sound allowed i inside =
    let s = run schedule (start g) in
    let v : Inv s = run-Inv schedule (start g) allowed (start-Inv g sound) in
    let holds : (k : ℕ) → is_inside (s.readers k).place ≡ true → s.db ≡ some (reader k) =
      λ k. inside_holds k (s.readers k).place s.db s.global (v.readers k) in
    (
      writer_outside i s.input s.db s.global s.latest v.input (holds i inside),
      λ j too. let a = holds i inside in let b = holds j too in cc,
    )
