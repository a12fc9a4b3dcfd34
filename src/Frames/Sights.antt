-- ===== src/Frames/Sights.antt =====
-- What the readers get: whole frames, in the order in which they were published.
use mjpg_streamer.Common.{
  ℕ, ◌≤◌, ◌<◌, ◌≡◌, refl, sym, subst, true, false, Bool-cases, inl, inr, List, [], ◌∷◌, Option,
  none, some, length, ◌==◌, if◌then◌else◌, All, arith,
}
use mjpg_streamer.Httpd.Stream.{Frame}
use mjpg_streamer.Frames.{Input, Sight, start, Action, run, AllAllowed}
use mjpg_streamer.Frames.Stores.{Sound}
use mjpg_streamer.Frames.Mutex.{update_elim}
use mjpg_streamer.Frames.Board.{
  Board, Event, publishes, takes, perform, perform_all, events, shown, run-refines,
}

-- The frame with a number, in a list with the last first; the first has the number 0.
abbrev pub numbered : ℕ → List Frame → Option Frame
numbered n [] = none
numbered n (f ∷ fs) = if n == length fs then some f else numbered n fs

abbrev pub AtMost : ℕ → List Sight → Type 0
AtMost n [] = Unit
AtMost n (x ∷ _) = x.number ≤ n

abbrev pub Ordered : List Sight → Type 0
Ordered [] = Unit
Ordered (x ∷ xs) = AtMost x.number xs × Ordered xs

-- What a reader got, the last first: frames that were published, whole and under their number, and none before one
-- that it had.
pub record Faithful (published : List Frame) (got : List Sight) : Type 0 where
  pub whole : All (λ x. numbered x.number published ≡ some x.frame) got
  pub ordered : Ordered got

numbered-lt : (n : ℕ) (fs : List Frame) {f : Frame} → numbered n fs ≡ some f → n < length fs
numbered-lt n [] e = absurd cc
numbered-lt n (g ∷ fs) e = elim (Bool-cases (n == length fs)) [
  | inl same ↦ ground arith
  | inr other ↦ let below = numbered-lt n fs (rw other at e) in omega arith
]

numbered-cons :
    (n : ℕ) (g : Frame) (fs : List Frame) {f : Frame}
    → numbered n fs ≡ some f
    → numbered n (g ∷ fs) ≡ some f
numbered-cons n g fs e =
    let below = numbered-lt n fs e in
    let other : (n == length fs) ≡ false = ground arith in rw other e

numbered-All :
    (g : Frame) (fs : List Frame) (got : List Sight)
    → All (λ x. numbered x.number fs ≡ some x.frame) got
    → All (λ x. numbered x.number (g ∷ fs) ≡ some x.frame) got
numbered-All g fs [] h = tt
numbered-All g fs (x ∷ xs) (h, t) = (numbered-cons x.number g fs h, numbered-All g fs xs t)

numbered-length : (f : Frame) (fs : List Frame) → numbered (length fs) (f ∷ fs) ≡ some f
numbered-length f fs = let same : (length fs == length fs) ≡ true = ground arith in rw same refl

whole_recent :
    (f : Frame) (fs : List Frame) (got : List Sight)
    → All (λ x. numbered x.number (f ∷ fs) ≡ some x.frame) got
    → AtMost (length fs) got
whole_recent f fs [] h = tt
whole_recent f fs (x ∷ _) (h, _) = let below = numbered-lt x.number (f ∷ fs) h in omega arith

AllFaithful : Board → Type 0
AllFaithful b = (i : ℕ) → Faithful (b.latest ∷ b.earlier) (b.got i)

perform-Faithful : (e : Event) (b : Board) → AllFaithful b → AllFaithful (perform e b)
unfolding AllFaithful
perform-Faithful (publishes f) b h = λ i. record {
  whole = numbered-All f (b.latest ∷ b.earlier) (b.got i) (h i).whole;
  ordered = (h i).ordered;
}
perform-Faithful (takes i) b h =
    update_elim (λ j got. Faithful (b.latest ∷ b.earlier) got) i _ b.got
      (record {
        whole = (numbered-length b.latest b.earlier, (h i).whole);
        ordered = (whole_recent b.latest b.earlier (b.got i) (h i).whole, (h i).ordered);
      })
      (λ j _. h j)

perform_all-Faithful :
    (es : List Event) (b : Board) → AllFaithful b → AllFaithful (perform_all es b)
perform_all-Faithful [] b h = h
perform_all-Faithful (e ∷ es) b h = perform_all-Faithful es (perform e b) (perform-Faithful e b h)

-- After any schedule that begins frames that fit the buffer, and where malloc never fails for the writer, every frame
-- that a reader got is, byte for byte and with its timestamp, one that was published, under its number, and no reader got
-- a frame that was published before one that it had. Among the published are the frame before the first, and the empty
-- frame with the timestamp before it that input_file leaves when its read fails.
pub run-Faithful :
    (g : Input) (schedule : List Action)
    → Sound g
    → AllAllowed schedule (start g)
    → let b = shown (run schedule (start g)) in (i : ℕ) → Faithful (b.latest ∷ b.earlier) (b.got i)
unfolding AllFaithful
run-Faithful g schedule sound allowed =
    subst AllFaithful (sym (run-refines g schedule sound allowed)) (
      perform_all-Faithful (events schedule (start g)) (shown (start g))
        (λ i. record { whole = tt; ordered = tt }))
