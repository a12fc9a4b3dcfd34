-- ===== src/Frames/Holder.antt =====
-- The holder of the mutex: every step leaves it the mutex or takes it nearer to the release.
use mjpg_streamer.Common.{
  ℕ, ◌+◌, ◌-◌, ◌≤◌, ◌<◌, ◌≡◌, ◌≢◌, refl, subst, ◌⊎◌, inl, inr, Bool, true, false, ◌||◌, Bool-cases,
  List, [], ◌∷◌, ◌++◌, none, some, length, length-append, ltb, get_or, ◌==◌, if◌then◌else◌, arith,
}
use mjpg_streamer.Frames.{
  Thread, writer, reader, Publication, Writer, outside, storing, signalled, Place, head, locked,
  waiting, woken, reading, left, sized, copying, System, is_free, write_step, unread_step, unread,
  no_memory, Allowed, begin_step, moves, read_step, leave_step, spurious_step, Action, begin, write,
  read, leave, spurious, step,
}
use mjpg_streamer.Frames.Mutex.{WriterHolds, ReaderHolds, Inv}

-- The statements up to the next release of the mutex: the writer's, one for each write, the broadcast and the unlock;
-- a reader's, one for each byte, the reads of size and timestamp and the unlock.
abbrev pub writes_left : Writer → ℕ
writes_left outside = 0
writes_left (storing f xs) = length xs + 2
writes_left (signalled f) = 1

abbrev pub reads_left : Place → ℕ → ℕ
reads_left locked size = 1
reads_left reading size = size + 3
reads_left (sized n) size = n + 2
reads_left (copying n sec usec bytes) size = n - length bytes + 1
reads_left _ size = 0

abbrev pub steps_left : Thread → System → ℕ
steps_left writer s = writes_left s.input
steps_left (reader i) s = reads_left (s.readers i).place s.global.size

-- How often a thread is scheduled.
abbrev pub turn : Thread → Action → ℕ
turn writer write = 1
turn writer _ = 0
turn (reader j) (read i) = if i == j then 1 else 0
turn (reader j) _ = 0

abbrev pub turns : Thread → List Action → ℕ
turns t [] = 0
turns t (a ∷ rest) = turn t a + turns t rest

-- Whether the mutex is free at some point of a schedule.
unfoldable pub frees : List Action → System → Bool
frees [] s = is_free s.db
frees (a ∷ rest) s = is_free s.db || frees rest (step a s)

-- A step that releases the mutex, or keeps it and brings the release nearer by `k`.
abbrev Nears : Thread → ℕ → System → System → Type 0
Nears t k s s' = (s'.db ≡ none) ⊎ ((s'.db ≡ some t) × (steps_left t s' + k ≤ steps_left t s))

stays : (t : Thread) (s s' : System) → s.db ≡ some t → s' ≡ s → Nears t 0 s s'
stays t s s' held same = rw same (inr (held, omega arith))

begin_stays :
    (t : Thread) (p : Publication) (w : Writer) (s : System) → s.db ≡ some t → begin_step p w s ≡ s
unfolding begin_step
begin_stays t p outside s held = rw held refl
begin_stays t p (storing _ _) s held = refl
begin_stays t p (signalled _) s held = refl

write_stays :
    (i : ℕ) (w : Writer) (s : System)
    → WriterHolds w s.db s.global s.latest
    → s.db ≡ some (reader i)
    → write_step w s ≡ s
unfolding write_step
write_stays i outside s h held = refl
write_stays i (storing _ _) s h held = absurd cc
write_stays i (signalled _) s h held = absurd cc

unread_stays :
    (i : ℕ) (w : Writer) (s : System)
    → WriterHolds w s.db s.global s.latest
    → s.db ≡ some (reader i)
    → unread_step w s ≡ s
unfolding unread_step
unread_stays i outside s h held = refl
unread_stays i (storing _ _) s h held = absurd cc
unread_stays i (signalled _) s h held = refl

unread_step-Nears :
    (w : Writer) (s : System)
    → s.input ≡ w
    → s.db ≡ some writer
    → Nears writer 0 s (unread_step w s)
unfolding unread_step
unread_step-Nears outside s e held = inr (held, omega arith)
unread_step-Nears (storing f xs) s e held = inr (held, rw e (omega arith))
unread_step-Nears (signalled f) s e held = inr (held, omega arith)

read_stays :
    (t : Thread) (i : ℕ) (p : Place) (s : System)
    → ReaderHolds i p s.db s.global
    → s.db ≡ some t
    → t ≢ reader i
    → read_step i p s ≡ s
unfolding read_step
read_stays t i head s h held ne = rw held refl
read_stays t i woken s h held ne = rw held refl
read_stays t i waiting s h held ne = refl
read_stays t i left s h held ne = refl
read_stays t i locked s h held ne = absurd (ne cc)
read_stays t i reading s h held ne = absurd (ne cc)
read_stays t i (sized _) s h held ne = absurd (ne (let own = h.0 in cc))
read_stays t i (copying _ _ _ _) s h held ne = absurd (ne (let own = h.0 in cc))

moves_aside :
    (t : Thread) (i : ℕ) (p : Place) (s : System)
    → s.db ≡ some t
    → t ≢ reader i
    → Nears t 0 s (moves i p s)
moves_aside writer i p s held ne = inr (held, omega arith)
moves_aside (reader j) i p s held ne =
    let other : (i == j) ≡ false = ground arith in rw other (inr (held, omega arith))

leave_aside :
    (t : Thread) (i : ℕ) (p : Place) (s : System)
    → ReaderHolds i p s.db s.global
    → s.db ≡ some t
    → t ≢ reader i
    → Nears t 0 s (leave_step i p s)
unfolding leave_step
leave_aside t i head s h held ne = moves_aside t i left s held ne
leave_aside t i (sized _) s h held ne = absurd (ne (let own = h.0 in cc))
leave_aside t i locked s h held ne = inr (held, omega arith)
leave_aside t i waiting s h held ne = inr (held, omega arith)
leave_aside t i woken s h held ne = inr (held, omega arith)
leave_aside t i reading s h held ne = inr (held, omega arith)
leave_aside t i (copying _ _ _ _) s h held ne = inr (held, omega arith)
leave_aside t i left s h held ne = inr (held, omega arith)

spurious_aside :
    (t : Thread) (i : ℕ) (p : Place) (s : System)
    → ReaderHolds i p s.db s.global
    → s.db ≡ some t
    → Nears t 0 s (spurious_step i p s)
unfolding spurious_step
spurious_aside t i waiting s h held = moves_aside t i woken s held (λ e. h (rw (← e) held))
spurious_aside t i head s h held = inr (held, omega arith)
spurious_aside t i locked s h held = inr (held, omega arith)
spurious_aside t i woken s h held = inr (held, omega arith)
spurious_aside t i reading s h held = inr (held, omega arith)
spurious_aside t i (sized _) s h held = inr (held, omega arith)
spurious_aside t i (copying _ _ _ _) s h held = inr (held, omega arith)
spurious_aside t i left s h held = inr (held, omega arith)

own_moves :
    (i : ℕ) (p : Place) (s : System)
    → s.db ≡ some (reader i)
    → reads_left p s.global.size + 1 ≤ reads_left (s.readers i).place s.global.size
    → Nears (reader i) 1 s (moves i p s)
own_moves i p s held le =
    let same : (i == i) ≡ true = ground arith in rw same (inr (held, omega arith))

write_step-Nears :
    (w : Writer) (s : System)
    → s.input ≡ w
    → WriterHolds w s.db s.global s.latest
    → s.db ≡ some writer
    → Nears writer 1 s (write_step w s)
unfolding write_step
write_step-Nears outside s e h held = absurd (h.0 held)
write_step-Nears (storing f (x ∷ xs)) s e h held = inr (held, rw e (omega arith))
write_step-Nears (storing f []) s e h held = inr (held, rw e (omega arith))
write_step-Nears (signalled f) s e h held = inl refl

read_step-Nears :
    (i : ℕ) (p : Place) (s : System)
    → (s.readers i).place ≡ p
    → ReaderHolds i p s.db s.global
    → s.db ≡ some (reader i)
    → Nears (reader i) 1 s (read_step i p s)
unfolding read_step
read_step-Nears i head s e h held = absurd (h held)
read_step-Nears i waiting s e h held = absurd (h held)
read_step-Nears i woken s e h held = absurd (h held)
read_step-Nears i left s e h held = absurd (h held)
read_step-Nears i locked s e h held = inl refl
read_step-Nears i reading s e h held = own_moves i _ s held (rw e (omega arith))
read_step-Nears i (sized n) s e h held = own_moves i _ s held (rw e (omega arith))
read_step-Nears i (copying n sec usec bytes) s e h held = elim (Bool-cases (ltb (length bytes) n)) [
  | inl more ↦
      let lt : length bytes < n = ground arith in
      let longer = length-append bytes (get_or s.global.buf (length bytes) 0 ∷ []) in
      rw more (
        own_moves i (copying n sec usec (bytes ++ get_or s.global.buf (length bytes) 0 ∷ [])) s held
          (rw e (omega arith)))
  | inr done ↦ rw done (inl refl)
]

-- A reader that holds the mutex gives it up at once when it leaves.
leave_own :
    (i : ℕ) (p : Place) (s : System)
    → ReaderHolds i p s.db s.global
    → s.db ≡ some (reader i)
    → Nears (reader i) 0 s (leave_step i p s)
unfolding leave_step
leave_own i head s h held = absurd (h held)
leave_own i (sized _) s h held = inl refl
leave_own i locked s h held = inr (held, omega arith)
leave_own i waiting s h held = inr (held, omega arith)
leave_own i woken s h held = inr (held, omega arith)
leave_own i reading s h held = inr (held, omega arith)
leave_own i (copying _ _ _ _) s h held = inr (held, omega arith)
leave_own i left s h held = inr (held, omega arith)

pub step-Nears :
    (t : Thread) (a : Action) (s : System)
    → Allowed a s
    → Inv s
    → s.db ≡ some t
    → Nears t (turn t a) s (step a s)
unfolding step
step-Nears writer (begin p) s ok v held =
    stays writer s _ held (begin_stays writer p s.input s held)
step-Nears writer write s ok v held = write_step-Nears s.input s refl v.input held
step-Nears writer unread s ok v held = unread_step-Nears s.input s refl held
step-Nears writer no_memory s ok v held = absurd cc
step-Nears (reader j) unread s ok v held =
    stays (reader j) s _ held (unread_stays j s.input s v.input held)
step-Nears (reader j) no_memory s ok v held = absurd cc
step-Nears writer (read i) s ok v held =
    stays writer s _ held (read_stays writer i (s.readers i).place s (v.readers i) held (λ e. cc))
step-Nears writer (leave i) s ok v held =
    leave_aside writer i (s.readers i).place s (v.readers i) held (λ e. cc)
step-Nears writer (spurious i) s ok v held =
    spurious_aside writer i (s.readers i).place s (v.readers i) held
step-Nears (reader j) (begin p) s ok v held =
    stays (reader j) s _ held (begin_stays (reader j) p s.input s held)
step-Nears (reader j) write s ok v held =
    stays (reader j) s _ held (write_stays j s.input s v.input held)
step-Nears (reader j) (read i) s ok v held = elim (Bool-cases (i == j)) [
  | inl same ↦
      let e : i ≡ j = ground arith in
      rw same (
        subst (λ k. Nears (reader k) 1 s (read_step i (s.readers i).place s)) e
          (read_step-Nears i (s.readers i).place s refl (v.readers i) (rw e held)))
  | inr other ↦ rw other (
      stays (reader j) s _ held
        (read_stays (reader j) i (s.readers i).place s (v.readers i) held (λ e. ground arith)))
]
step-Nears (reader j) (leave i) s ok v held = elim (Bool-cases (i == j)) [
  | inl same ↦
      let e : i ≡ j = ground arith in
      subst (λ k. Nears (reader k) 0 s (leave_step i (s.readers i).place s)) e
        (leave_own i (s.readers i).place s (v.readers i) (rw e held))
  | inr other ↦
      leave_aside (reader j) i (s.readers i).place s (v.readers i) held (λ e. ground arith)
]
step-Nears (reader j) (spurious i) s ok v held =
    spurious_aside (reader j) i (s.readers i).place s (v.readers i) held
