-- ===== src/Frames/Fresh.antt =====
-- Waiting for the signal makes a frame fresh: without spurious wake-ups no reader gets a frame twice.
use mjpg_streamer.Common.{
  ℕ, suc, ◌+◌, ◌≡◌, refl, Bool, true, false, Bool-cases, both_true, inl, inr, List, [], ◌∷◌, length,
  all, arith,
}
use mjpg_streamer.Httpd.Stream.{Frame}
use mjpg_streamer.Frames.{
  Input, Publication, Writer, outside, storing, signalled, Place, head, locked, waiting, woken,
  reading, left, sized, copying, Sight, System, start, is_free, signal, write_step, begin_step,
  Store, Action, unread_step, unread, no_memory, Allowed, begin, write, read, leave, spurious, step,
  run, AllAllowed,
}
use mjpg_streamer.Frames.Stores.{Sound}
use mjpg_streamer.Frames.Mutex.{Inv}
use mjpg_streamer.Frames.Mutex.Steps.{step-Inv, start-Inv}
use mjpg_streamer.Frames.Due.{
  Increasing, Below-mono, promised, Due, FreshReader, Fresh, read_step-Fresh, leave_step-Fresh,
}

signal-Due :
    (p : Place) (f g : Frame) (n : ℕ) (got : List Sight)
    → Due p (storing f []) n got
    → Due (signal p) (signalled g) n got
signal-Due head f g n got h = h
signal-Due locked f g n got h = h
signal-Due waiting f g n got h = Below-mono (suc n) (n + 1) got (omega arith) h
signal-Due woken f g n got h = Below-mono (n + 0) (n + 1) got (omega arith) h
signal-Due reading f g n got h = h
signal-Due (sized _) f g n got h = h
signal-Due (copying _ _ _ _) f g n got h = h
signal-Due left f g n got h = h

publish-Due :
    (p : Place) (f : Frame) (n : ℕ) (got : List Sight)
    → Due p (signalled f) n got
    → Due p outside (suc n) got
publish-Due head f n got h = Below-mono (suc n) (suc (suc n)) got (omega arith) h
publish-Due locked f n got h = Below-mono (suc n) (suc (suc n)) got (omega arith) h
publish-Due waiting f n got h = Below-mono (suc n) (suc (suc n)) got (omega arith) h
publish-Due left f n got h = Below-mono (suc n) (suc (suc n)) got (omega arith) h
publish-Due woken f n got h = Below-mono (n + 1) (suc n + 0) got (omega arith) h
publish-Due reading f n got h = Below-mono n (suc n) got (omega arith) h
publish-Due (sized _) f n got h = Below-mono n (suc n) got (omega arith) h
publish-Due (copying _ _ _ _) f n got h = Below-mono n (suc n) got (omega arith) h

-- Only what is promised counts of the writer.
same-Due :
    (p : Place) (w w' : Writer) (n : ℕ) (got : List Sight)
    → promised w ≡ promised w'
    → Due p w n got
    → Due p w' n got
same-Due head w w' n got e h = h
same-Due locked w w' n got e h = h
same-Due waiting w w' n got e h = h
same-Due woken w w' n got e h = Below-mono (n + promised w) (n + promised w') got (omega arith) h
same-Due reading w w' n got e h = h
same-Due (sized _) w w' n got e h = h
same-Due (copying _ _ _ _) w w' n got e h = h
same-Due left w w' n got e h = h

unread-Due :
    (p : Place) (f : Frame) (xs : List Store) (g : Frame) (n : ℕ) (got : List Sight)
    → Due p (storing f xs) n got
    → Due p (signalled g) n got
unread-Due head f xs g n got h = h
unread-Due locked f xs g n got h = h
unread-Due waiting f xs g n got h = h
unread-Due woken f xs g n got h = Below-mono (n + 0) (n + 1) got (omega arith) h
unread-Due reading f xs g n got h = h
unread-Due (sized _) f xs g n got h = h
unread-Due (copying _ _ _ _) f xs g n got h = h
unread-Due left f xs g n got h = h

FreshWith : Writer → System → Type 0
FreshWith w s = (i : ℕ) → FreshReader w (length s.earlier) (s.readers i)

write_step-Fresh : (w : Writer) (s : System) → FreshWith w s → Fresh s → Fresh (write_step w s)
unfolding write_step FreshWith
write_step-Fresh outside s h v = v
write_step-Fresh (storing f (x ∷ xs)) s h v = λ i. record {
  due =
      same-Due (s.readers i).place (storing f (x ∷ xs)) (storing f xs) (length s.earlier)
        (s.readers i).got refl (h i).due;
  increasing = (h i).increasing;
}
write_step-Fresh (storing f []) s h v = λ i. record {
  due = signal-Due (s.readers i).place f f (length s.earlier) (s.readers i).got (h i).due;
  increasing = (h i).increasing;
}
write_step-Fresh (signalled f) s h v = λ i. record {
  due = publish-Due (s.readers i).place f (length s.earlier) (s.readers i).got (h i).due;
  increasing = (h i).increasing;
}

unread_step-Fresh : (w : Writer) (s : System) → FreshWith w s → Fresh s → Fresh (unread_step w s)
unfolding unread_step FreshWith
unread_step-Fresh outside s h v = v
unread_step-Fresh (signalled _) s h v = v
unread_step-Fresh (storing f xs) s h v = λ i. record {
  due = unread-Due (s.readers i).place f xs _ (length s.earlier) (s.readers i).got (h i).due;
  increasing = (h i).increasing;
}

begin_step-Fresh :
    (p : Publication) (w : Writer) (s : System) → FreshWith w s → Fresh s → Fresh (begin_step p w s)
unfolding begin_step FreshWith
begin_step-Fresh p outside s h v = elim (Bool-cases (is_free s.db)) [
  | inl is ↦ rw is (λ i. record {
    due =
        same-Due (s.readers i).place outside (storing _ _) (length s.earlier) (s.readers i).got refl
          (h i).due;
    increasing = (h i).increasing;
  })
  | inr taken ↦ rw taken v
]
begin_step-Fresh p (storing _ _) s h v = v
begin_step-Fresh p (signalled _) s h v = v

abbrev pub is_signalled : Action → Bool
is_signalled (spurious _) = false
is_signalled _ = true

step-Fresh :
    (a : Action) (s : System)
    → is_signalled a ≡ true
    → Allowed a s
    → Inv s
    → Fresh s
    → Fresh (step a s)
unfolding step FreshWith
step-Fresh (begin p) s e ok v h = begin_step-Fresh p s.input s h h
step-Fresh write s e ok v h = write_step-Fresh s.input s h h
step-Fresh unread s e ok v h = unread_step-Fresh s.input s h h
step-Fresh no_memory s e ok v h = absurd cc
step-Fresh (read i) s e ok v h = read_step-Fresh i (s.readers i).place s v.input (h i).due h
step-Fresh (leave i) s e ok v h = leave_step-Fresh i (s.readers i).place s (h i).due h
step-Fresh (spurious i) s e ok v h = absurd cc

run-Fresh :
    (schedule : List Action) (s : System)
    → all is_signalled schedule ≡ true
    → AllAllowed schedule s
    → Inv s
    → Fresh s
    → Fresh (run schedule s)
unfolding run AllAllowed
run-Fresh [] s e allowed v h = h
run-Fresh (a ∷ rest) s e allowed v h =
    let (now, later) = both_true (is_signalled a) (all is_signalled rest) e in
    run-Fresh rest (step a s) later allowed.1 (step-Inv a s allowed.0 v)
      (step-Fresh a s now allowed.0 v h)

-- After any schedule without spurious wake-ups that begins frames that fit the buffer, and where malloc never fails for
-- the writer, the numbers of the frames that a
-- reader got increase strictly, and the frame that the plugin's init left is not among them.
pub run-Increasing :
    (g : Input) (schedule : List Action)
    → Sound g
    → all is_signalled schedule ≡ true
    → AllAllowed schedule (start g)
    → (i : ℕ) → Increasing ((run schedule (start g)).readers i).got
run-Increasing g schedule sound signals allowed i =
    (run-Fresh schedule (start g) signals allowed (start-Inv g sound)
      (λ j. record { due = omega arith; increasing = tt }) i).increasing
