-- ===== src/Frames/Due.antt =====
-- What a reader that was signalled is due, and the steps of the readers.
use mjpg_streamer.Common.{
  ℕ, suc, ◌+◌, ◌≤◌, ◌<◌, ◌≡◌, refl, true, Bool-cases, inl, inr, List, [], ◌∷◌, ◌++◌, Option, none,
  some, length, ltb, get_or, arith,
}
use mjpg_streamer.Httpd.Stream.{Frame}
use mjpg_streamer.Frames.{
  Input, Thread, Writer, outside, storing, signalled, Place, head, locked, waiting, woken, reading,
  left, sized, copying, Sight, Reader, System, update, is_free, moves, read_step, leave_step,
}
use mjpg_streamer.Frames.Mutex.{WriterHolds, update_elim}

-- The last frame that was got has a number below `n`; the frame that the plugin's init left has the number 0 and counts
-- as got.
abbrev pub Below : ℕ → List Sight → Type 0
Below n [] = 0 < n
Below n (x ∷ _) = x.number < n

abbrev pub Increasing : List Sight → Type 0
Increasing [] = Unit
Increasing (x ∷ xs) = Below x.number xs × Increasing xs

pub Below-mono : (m n : ℕ) (got : List Sight) → m ≤ n → Below m got → Below n got
Below-mono m n [] le h = omega arith
Below-mono m n (x ∷ _) le h = omega arith

-- The broadcast promises a frame that the unlock publishes.
abbrev pub promised : Writer → ℕ
promised (signalled _) = 1
promised _ = 0

-- `n` frames have been published since the start: a reader that was signalled has not got the last one, or the one
-- that is promised.
abbrev pub Due : Place → Writer → ℕ → List Sight → Type 0
Due head w n got = Below (suc n) got
Due locked w n got = Below (suc n) got
Due waiting w n got = Below (suc n) got
Due left w n got = Below (suc n) got
Due woken w n got = Below (n + promised w) got
Due reading w n got = Below n got
Due (sized _) w n got = Below n got
Due (copying _ _ _ _) w n got = Below n got

pub record FreshReader (w : Writer) (n : ℕ) (r : Reader) : Type 0 where
  pub due : Due r.place w n r.got
  pub increasing : Increasing r.got

abbrev pub Fresh : System → Type 0
Fresh s = (i : ℕ) → FreshReader s.input (length s.earlier) (s.readers i)

reader_steps :
    (s : System) (i : ℕ) (r : Reader)
    → Fresh s
    → FreshReader s.input (length s.earlier) r
    → (j : ℕ) → FreshReader s.input (length s.earlier) (update i r s.readers j)
reader_steps s i r v h =
    update_elim (λ _ q. FreshReader s.input (length s.earlier) q) i r s.readers h (λ j _. v j)

to :
    (s : System) (i : ℕ) (p : Place)
    → Fresh s
    → Due p s.input (length s.earlier) (s.readers i).got
    → Fresh (moves i p s)
to s i p v h = reader_steps s i _ v (record { due = h; increasing = (v i).increasing })

free_outside :
    (w : Writer) (db : Option Thread) (g : Input) (f : Frame)
    → WriterHolds w db g f
    → is_free db ≡ true
    → promised w ≡ 0
free_outside outside db g f h e = refl
free_outside (storing _ _) db g f h e = refl
free_outside (signalled _) none g f h e = absurd cc
free_outside (signalled _) (some t) g f h e = absurd cc

pub read_step-Fresh :
    (i : ℕ) (p : Place) (s : System)
    → WriterHolds s.input s.db s.global s.latest
    → Due p s.input (length s.earlier) (s.readers i).got
    → Fresh s
    → Fresh (read_step i p s)
unfolding read_step
read_step-Fresh i head s w h v = elim (Bool-cases (is_free s.db)) [
  | inl is ↦ rw is (to s i locked v h)
  | inr taken ↦ rw taken v
]
read_step-Fresh i locked s w h v = to s i waiting v h
read_step-Fresh i waiting s w h v = v
read_step-Fresh i woken s w h v = elim (Bool-cases (is_free s.db)) [
  | inl is ↦
      let none_promised = free_outside s.input s.db s.global s.latest w is in
      rw is (
        to s i reading v (
          Below-mono (length s.earlier + promised s.input) (length s.earlier) (s.readers i).got
            (omega arith) h))
  | inr taken ↦ rw taken v
]
read_step-Fresh i reading s w h v = to s i (sized s.global.size) v h
read_step-Fresh i (sized n) s w h v = to s i (copying n s.global.tv_sec s.global.tv_usec []) v h
read_step-Fresh i (copying n sec usec bytes) s w h v = elim (Bool-cases (ltb (length bytes) n)) [
  | inl more ↦
      rw more (to s i (copying n sec usec (bytes ++ get_or s.global.buf (length bytes) 0 ∷ [])) v h)
  | inr done ↦
      rw done
        (reader_steps s i _ v (record { due = omega arith; increasing = (h, (v i).increasing) }))
]
read_step-Fresh i left s w h v = v

pub leave_step-Fresh :
    (i : ℕ) (p : Place) (s : System)
    → Due p s.input (length s.earlier) (s.readers i).got
    → Fresh s
    → Fresh (leave_step i p s)
unfolding leave_step
leave_step-Fresh i head s h v = to s i left v h
leave_step-Fresh i (sized n) s h v =
    to s i left v
      (Below-mono (length s.earlier) (suc (length s.earlier)) (s.readers i).got (omega arith) h)
leave_step-Fresh i locked s h v = v
leave_step-Fresh i waiting s h v = v
leave_step-Fresh i woken s h v = v
leave_step-Fresh i reading s h v = v
leave_step-Fresh i (copying _ _ _ _) s h v = v
leave_step-Fresh i left s h v = v
