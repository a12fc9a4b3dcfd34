-- ===== src/Frames/Progress.antt =====
-- The mutex is always given back: a bound on the statements that its holder has left.
use mjpg_streamer.Common.{
  ℕ, ◌≤◌, ◌<◌, ◌≡◌, refl, inl, inr, true, List, [], ◌∷◌, Option, none, some, arith,
}
use mjpg_streamer.Httpd.Stream.{Frame}
use mjpg_streamer.Frames.{
  Input, Thread, writer, reader, Writer, outside, storing, signalled, Place, head, locked, waiting,
  woken, reading, left, sized, copying, System, start, Action, step, run, AllAllowed,
}
use mjpg_streamer.Frames.Stores.{Sound}
use mjpg_streamer.Frames.Mutex.{WriterHolds, ReaderHolds, Inv}
use mjpg_streamer.Frames.Mutex.Steps.{step-Inv, run-Inv, start-Inv}
use mjpg_streamer.Frames.Holder.{writes_left, reads_left, steps_left, turns, frees, step-Nears}

writer_unfinished :
    (w : Writer) (db : Option Thread) (g : Input) (f : Frame)
    → WriterHolds w db g f
    → db ≡ some writer
    → 0 < writes_left w
writer_unfinished outside db g f h held = absurd (h.0 held)
writer_unfinished (storing _ _) db g f h held = omega arith
writer_unfinished (signalled _) db g f h held = omega arith

reader_unfinished :
    (i : ℕ) (p : Place) (db : Option Thread) (g : Input)
    → ReaderHolds i p db g
    → db ≡ some (reader i)
    → 0 < reads_left p g.size
reader_unfinished i head db g h held = absurd (h held)
reader_unfinished i waiting db g h held = absurd (h held)
reader_unfinished i woken db g h held = absurd (h held)
reader_unfinished i left db g h held = absurd (h held)
reader_unfinished i locked db g h held = omega arith
reader_unfinished i reading db g h held = omega arith
reader_unfinished i (sized _) db g h held = omega arith
reader_unfinished i (copying _ _ _ _) db g h held = omega arith

frees_free : (schedule : List Action) (s : System) → s.db ≡ none → frees schedule s ≡ true
unfolding frees
frees_free [] s e = rw e refl
frees_free (a ∷ rest) s e = rw e refl

-- The holder has a statement left.
holder_unfinished : (t : Thread) (s : System) → Inv s → s.db ≡ some t → 0 < steps_left t s
holder_unfinished writer s v held = writer_unfinished s.input s.db s.global s.latest v.input held
holder_unfinished (reader i) s v held =
    reader_unfinished i (s.readers i).place s.db s.global (v.readers i) held

frees-Inv :
    (t : Thread) (schedule : List Action) (s : System)
    → AllAllowed schedule s
    → Inv s
    → s.db ≡ some t
    → steps_left t s ≤ turns t schedule
    → frees schedule s ≡ true
unfolding frees AllAllowed
frees-Inv t [] s allowed v held le = absurd (let more = holder_unfinished t s v held in omega arith)
frees-Inv t (a ∷ rest) s allowed v held le = elim (step-Nears t a s allowed.0 v held) [
  | inl released ↦ rw (frees_free rest (step a s) released) (ground arith)
  | inr (kept, nearer) ↦
      let later =
        frees-Inv t rest (step a s) allowed.1 (step-Inv a s allowed.0 v) kept (omega arith) in
      rw later (ground arith)
]

-- After any schedule that begins frames that fit the buffer, and where malloc never fails for the writer (input_file
-- would end with the mutex locked): a thread that holds the mutex releases it, as soon as it has been scheduled once for
-- each statement that it has left, whatever the other threads do meanwhile, and though its read may fail.
pub run-frees :
    (g : Input) (before after : List Action) (t : Thread)
    → Sound g
    → AllAllowed before (start g)
    → AllAllowed after (run before (start g))
    → (run before (start g)).db ≡ some t
    → steps_left t (run before (start g)) ≤ turns t after
    → frees after (run before (start g)) ≡ true
run-frees g before after t sound allowed allowed_after =
    frees-Inv t after (run before (start g)) allowed_after
      (run-Inv before (start g) allowed (start-Inv g sound))
