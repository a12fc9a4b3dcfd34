-- ===== src/Frames/Board.antt =====
-- The shared frame as the readers know it: a board that shows the latest frame. Every schedule of the threads does what
-- a sequence of whole publications and whole takes does.
use mjpg_streamer.Common.{
  ◌≡◌, refl, ap, sym, ◌∙◌, fun_ext, ==_iff, ℕ, Option, Bool-cases, inl, inr, List, [], ◌∷◌, ◌++◌,
  none, some, length, take, ltb, ◌==◌, if◌then◌else◌, arith,
}
use mjpg_streamer.Common.Text.{Bytes}
use mjpg_streamer.Httpd.Stream.{Frame}
use mjpg_streamer.Frames.{
  Input, held, Thread, reader, Publication, Writer, outside, storing, signalled, Place, head,
  locked, waiting, woken, reading, left, sized, copying, Sight, Reader, System, start, update,
  is_free, write_step, unread_step, unread, no_memory, Allowed, begin_step, moves, read_step,
  leave_step, spurious_step, Action, begin, write, read, leave, spurious, step, run, AllAllowed,
}
use mjpg_streamer.Frames.Stores.{Sound}
use mjpg_streamer.Frames.Mutex.{WriterHolds, ReaderHolds, Inv, reader_finds}
use mjpg_streamer.Frames.Mutex.Steps.{step-Inv, start-Inv}

-- The frames that have been published, the latest apart, and what every reader got, the last first.
pub record Board : Type 0 where
  pub latest : Frame
  pub earlier : List Frame
  pub got : ℕ → List Sight

pub data Event : Type 0 where
  publishes : Frame → Event
  takes : ℕ → Event

abbrev pub perform : Event → Board → Board
perform (publishes f) b = record b { latest = f; earlier = b.latest ∷ b.earlier }
perform (takes i) b = record b {
  got = update i (record { number = length b.earlier; frame = b.latest } ∷ b.got i) b.got;
}

abbrev pub perform_all : List Event → Board → Board
perform_all [] b = b
perform_all (e ∷ es) b = perform_all es (perform e b)

abbrev gots : (ℕ → Reader) → ℕ → List Sight
gots f i = (f i).got

-- What of the threads the board shows.
abbrev pub shown : System → Board
shown s = record { latest = s.latest; earlier = s.earlier; got = gots s.readers }

-- The event that a step is: the writer's unlock, a reader's unlock behind the copy, and no other.
abbrev pub writes : Writer → List Event
writes (signalled f) = publishes f ∷ []
writes _ = []

abbrev pub reads : ℕ → Place → List Event
reads i (copying n sec usec bytes) = if ltb (length bytes) n then [] else takes i ∷ []
reads i _ = []

abbrev pub event : Action → System → List Event
event write s = writes s.input
event (read i) s = reads i (s.readers i).place
event _ s = []

unfoldable pub events : List Action → System → List Event
events [] s = []
events (a ∷ rest) s = event a s ++ events rest (step a s)

update-got : (i : ℕ) (r : Reader) (f : ℕ → Reader) → gots (update i r f) ≡ update i r.got (gots f)
update-got i r f = fun_ext λ j. elim (Bool-cases (i == j)) [
  | inl same ↦ rw (same, gots) refl
  | inr other ↦ rw (other, gots) refl
]

-- A reader that changes its place only shows nothing.
update_same :
    (i : ℕ) (p : Place) (f : ℕ → Reader) → gots (update i (record (f i) { place = p }) f) ≡ gots f
update_same i p f = fun_ext λ j. elim (Bool-cases (i == j)) [
  | inl same ↦ rw (same, gots) (ap (λ k. (f k).got) ((==_iff i j).0 same))
  | inr other ↦ rw (other, gots) refl
]

moves_hidden :
    (s : System) (i : ℕ) (p : Place) (db : Option Thread)
    → shown (record (moves i p s) { db = db }) ≡ shown s
moves_hidden s i p db =
    ap (λ g. record { latest = s.latest; earlier = s.earlier; got = g }) (update_same i p s.readers)

taken_whole :
    (n sec usec : ℕ) (bytes : Bytes) (g : Input) (f : Frame)
    → n ≡ g.size
    → sec ≡ g.tv_sec
    → usec ≡ g.tv_usec
    → bytes ≡ take (length bytes) g.buf
    → length bytes ≡ n
    → held g ≡ f
    → record { buf = bytes; tv_sec = sec; tv_usec = usec } ≡ f
taken_whole n sec usec bytes g f at_n at_sec at_usec so_far done whole =
    let b : bytes ≡ take g.size g.buf = so_far ∙ ap (λ k. take k g.buf) (done ∙ at_n) in
    rw (b, at_sec, at_usec) whole

read_step-shown :
    (i : ℕ) (p : Place) (s : System)
    → WriterHolds s.input s.db s.global s.latest
    → ReaderHolds i p s.db s.global
    → shown (read_step i p s) ≡ perform_all (reads i p) (shown s)
unfolding read_step
read_step-shown i head s w h = elim (Bool-cases (is_free s.db)) [
  | inl is ↦ rw is (moves_hidden s i locked (some (reader i)))
  | inr taken ↦ rw taken refl
]
read_step-shown i locked s w h = moves_hidden s i waiting none
read_step-shown i waiting s w h = refl
read_step-shown i woken s w h = elim (Bool-cases (is_free s.db)) [
  | inl is ↦ rw is (moves_hidden s i reading (some (reader i)))
  | inr taken ↦ rw taken refl
]
read_step-shown i reading s w h = moves_hidden s i (sized s.global.size) s.db
read_step-shown i (sized n) s w h =
    moves_hidden s i (copying n s.global.tv_sec s.global.tv_usec []) s.db
read_step-shown i (copying n sec usec bytes) s w h = elim (Bool-cases (ltb (length bytes) n)) [
  | inl more ↦ rw more (moves_hidden s i _ s.db)
  | inr done ↦
      let (own_it, at_n, at_sec, at_usec, so_far, le) = h in
      let (_, whole) = reader_finds i s.input s.db s.global s.latest w own_it in
      let last : length bytes ≡ n = ground arith in
      let f =
        taken_whole n sec usec bytes s.global s.latest at_n at_sec at_usec so_far last whole in
      rw done (
        ap (λ g. record { latest = s.latest; earlier = s.earlier; got = g })
          (update-got i _ s.readers)
        ∙ rw f refl)
]
read_step-shown i left s w h = refl

write_step-shown :
    (w : Writer) (s : System) → shown (write_step w s) ≡ perform_all (writes w) (shown s)
unfolding write_step
write_step-shown outside s = refl
write_step-shown (storing f (x ∷ xs)) s = refl
write_step-shown (storing f []) s = refl
write_step-shown (signalled f) s = refl

begin_step-shown : (p : Publication) (w : Writer) (s : System) → shown (begin_step p w s) ≡ shown s
unfolding begin_step
begin_step-shown p outside s = elim (Bool-cases (is_free s.db)) [
  | inl is ↦ rw is refl
  | inr taken ↦ rw taken refl
]
begin_step-shown p (storing _ _) s = refl
begin_step-shown p (signalled _) s = refl

leave_step-shown : (i : ℕ) (p : Place) (s : System) → shown (leave_step i p s) ≡ shown s
unfolding leave_step
leave_step-shown i head s = moves_hidden s i left s.db
leave_step-shown i (sized n) s = moves_hidden s i left none
leave_step-shown i locked s = refl
leave_step-shown i waiting s = refl
leave_step-shown i woken s = refl
leave_step-shown i reading s = refl
leave_step-shown i (copying _ _ _ _) s = refl
leave_step-shown i left s = refl

spurious_step-shown : (i : ℕ) (p : Place) (s : System) → shown (spurious_step i p s) ≡ shown s
unfolding spurious_step
spurious_step-shown i waiting s = moves_hidden s i woken s.db
spurious_step-shown i head s = refl
spurious_step-shown i locked s = refl
spurious_step-shown i woken s = refl
spurious_step-shown i reading s = refl
spurious_step-shown i (sized _) s = refl
spurious_step-shown i (copying _ _ _ _) s = refl
spurious_step-shown i left s = refl

unread_step-shown : (w : Writer) (s : System) → shown (unread_step w s) ≡ shown s
unfolding unread_step
unread_step-shown outside s = refl
unread_step-shown (storing _ _) s = refl
unread_step-shown (signalled _) s = refl

step-shown :
    (a : Action) (s : System)
    → Allowed a s
    → Inv s
    → shown (step a s) ≡ perform_all (event a s) (shown s)
unfolding step
step-shown (begin p) s ok v = begin_step-shown p s.input s
step-shown write s ok v = write_step-shown s.input s
step-shown unread s ok v = unread_step-shown s.input s
step-shown no_memory s ok v = absurd cc
step-shown (read i) s ok v = read_step-shown i (s.readers i).place s v.input (v.readers i)
step-shown (leave i) s ok v = leave_step-shown i (s.readers i).place s
step-shown (spurious i) s ok v = spurious_step-shown i (s.readers i).place s

perform_all-append :
    (es fs : List Event) (b : Board) → perform_all (es ++ fs) b ≡ perform_all fs (perform_all es b)
perform_all-append [] fs b = refl
perform_all-append (e ∷ es) fs b = perform_all-append es fs (perform e b)

run-shown :
    (schedule : List Action) (s : System)
    → AllAllowed schedule s
    → Inv s
    → shown (run schedule s) ≡ perform_all (events schedule s) (shown s)
unfolding run events AllAllowed
run-shown [] s allowed v = refl
run-shown (a ∷ rest) s allowed v =
    run-shown rest (step a s) allowed.1 (step-Inv a s allowed.0 v)
    ∙ (ap (perform_all (events rest (step a s))) (step-shown a s allowed.0 v)
        ∙ sym (perform_all-append (event a s) (events rest (step a s)) (shown s)))

-- The threads, byte by byte and in any order of their statements, refine the board: after any schedule that begins
-- frames that fit the buffer, and where malloc never fails for the writer, what has been published and what every reader
-- got are what the schedule's events make of the board, whole publications and whole takes. The empty frame that
-- input_file leaves when its read fails counts as published, though no broadcast tells of it.
pub run-refines :
    (g : Input) (schedule : List Action)
    → Sound g
    → AllAllowed schedule (start g)
    → shown (run schedule (start g)) ≡ perform_all (events schedule (start g)) (shown (start g))
run-refines g schedule sound allowed = run-shown schedule (start g) allowed (start-Inv g sound)
