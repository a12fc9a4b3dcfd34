-- ===== src/Frames/Mutex/Steps.antt =====
-- Every statement of every thread keeps the mutex invariant.
use mjpg_streamer.Common.{
  ℕ, suc, ◌<◌, ◌≡◌, refl, ap, sym, ◌∙◌, Bool-cases, inl, inr, List, [], ◌∷◌, ◌++◌, Option, none,
  some, length, length-append, take, take-suc-get_or, get_or, ltb, arith,
}
use mjpg_streamer.Common.Text.{Bytes}
use mjpg_streamer.Frames.{
  Input, Publication, Fits, Thread, reader, Writer, outside, storing, signalled, Place, head,
  locked, waiting, woken, reading, left, sized, copying, System, start, is_free, signal, write_step,
  unread_step, unread, no_memory, begin_step, read_step, leave_step, spurious_step, Action, begin,
  write, read, leave, spurious, step, run, Allowed, AllAllowed,
}
use mjpg_streamer.Frames.Stores.{Sound, apply_all-stores}
use mjpg_streamer.Frames.Mutex.{
  WriterHolds, ReaderHolds, Inv, reader_aside, not_reader, reader_moves, place_moves, own, free,
  reader_finds,
}

copies_one :
    (bytes buf : Bytes)
    → bytes ≡ take (length bytes) buf
    → length bytes < length buf
    → let more = bytes ++ get_or buf (length bytes) 0 ∷ [] in more ≡ take (length more) buf
copies_one bytes buf h lt =
    let n : length (bytes ++ get_or buf (length bytes) 0 ∷ []) ≡ suc (length bytes) =
      omega (arith, length-append bytes (get_or buf (length bytes) 0 ∷ [])) in
    ap (λ t. t ++ get_or buf (length bytes) 0 ∷ []) h
    ∙ (sym (take-suc-get_or buf (length bytes) 0 lt) ∙ ap (λ k. take k buf) (sym n))

read_step-Inv :
    (i : ℕ) (p : Place) (s : System) → ReaderHolds i p s.db s.global → Inv s → Inv (read_step i p s)
unfolding read_step
read_step-Inv i head s h v = elim (Bool-cases (is_free s.db)) [
  | inl is ↦ rw is (reader_moves s i _ (some (reader i)) v (free i s.db is) refl refl)
  | inr taken ↦ rw taken v
]
read_step-Inv i locked s h v = reader_moves s i _ none v (own i s.db h) tt (λ e. cc)
read_step-Inv i waiting s h v = v
read_step-Inv i woken s h v = elim (Bool-cases (is_free s.db)) [
  | inl is ↦ rw is (reader_moves s i _ (some (reader i)) v (free i s.db is) refl refl)
  | inr taken ↦ rw taken v
]
read_step-Inv i reading s h v = place_moves s i _ v (h, refl)
read_step-Inv i (sized n) s h v = place_moves s i _ v (h.0, h.1, refl, refl, refl, omega arith)
read_step-Inv i (copying n sec usec bytes) s h v = elim (Bool-cases (ltb (length bytes) n)) [
  | inl more ↦
      let (own_it, at_n, at_sec, at_usec, so_far, le) = h in
      let (sound, _) = reader_finds i s.input s.db s.global s.latest v.input own_it in
      let lt : length bytes < n = ground arith in
      let longer = length-append bytes (get_or s.global.buf (length bytes) 0 ∷ []) in
      rw more (
        place_moves s i _ v (
          own_it,
          at_n,
          at_sec,
          at_usec,
          copies_one bytes s.global.buf so_far (omega arith),
          omega arith,
        ))
  | inr done ↦ rw done (reader_moves s i _ none v (own i s.db h.0) tt (λ e. cc))
]
read_step-Inv i left s h v = v

leave_step-Inv :
    (i : ℕ) (p : Place) (s : System)
    → ReaderHolds i p s.db s.global
    → Inv s
    → Inv (leave_step i p s)
unfolding leave_step
leave_step-Inv i head s h v = place_moves s i _ v h
leave_step-Inv i (sized n) s h v = reader_moves s i _ none v (own i s.db h.0) tt (λ e. cc)
leave_step-Inv i locked s h v = v
leave_step-Inv i waiting s h v = v
leave_step-Inv i woken s h v = v
leave_step-Inv i reading s h v = v
leave_step-Inv i (copying _ _ _ _) s h v = v
leave_step-Inv i left s h v = v

spurious_step-Inv :
    (i : ℕ) (p : Place) (s : System)
    → ReaderHolds i p s.db s.global
    → Inv s
    → Inv (spurious_step i p s)
unfolding spurious_step
spurious_step-Inv i waiting s h v = place_moves s i _ v h
spurious_step-Inv i head s h v = v
spurious_step-Inv i locked s h v = v
spurious_step-Inv i woken s h v = v
spurious_step-Inv i reading s h v = v
spurious_step-Inv i (sized _) s h v = v
spurious_step-Inv i (copying _ _ _ _) s h v = v
spurious_step-Inv i left s h v = v

signal-Holds :
    (i : ℕ) (p : Place) (db : Option Thread) (g : Input)
    → ReaderHolds i p db g
    → ReaderHolds i (signal p) db g
signal-Holds i waiting db g h = h
signal-Holds i head db g h = h
signal-Holds i locked db g h = h
signal-Holds i woken db g h = h
signal-Holds i reading db g h = h
signal-Holds i (sized _) db g h = h
signal-Holds i (copying _ _ _ _) db g h = h
signal-Holds i left db g h = h

write_step-Inv :
    (w : Writer) (s : System) → WriterHolds w s.db s.global s.latest → Inv s → Inv (write_step w s)
unfolding write_step
write_step-Inv outside s h v = v
write_step-Inv (storing f (x ∷ xs)) s h v = record {
  input = h;
  readers = λ j. reader_aside j (s.readers j).place s.global _ (v.readers j) (λ e. cc) (λ e. cc);
}
write_step-Inv (storing f []) s h v = record {
  input = h;
  readers = λ j. signal-Holds j (s.readers j).place s.db s.global (v.readers j);
}
write_step-Inv (signalled f) s h v = record {
  input = ((λ e. cc), h.1, h.2);
  readers =
      λ j. reader_aside j (s.readers j).place s.global s.global (v.readers j) (λ e. cc) (λ e. cc);
}

unread_step-Inv :
    (w : Writer) (s : System) → WriterHolds w s.db s.global s.latest → Inv s → Inv (unread_step w s)
unfolding unread_step
unread_step-Inv outside s h v = v
unread_step-Inv (signalled _) s h v = v
unread_step-Inv (storing f xs) s h v = record {
  input = (h.0, omega arith, refl);
  readers = λ j. reader_aside j (s.readers j).place s.global _ (v.readers j) (λ e. cc) (λ e. cc);
}

begin_step-Inv :
    (p : Publication) (w : Writer) (s : System)
    → Fits p s.global
    → WriterHolds w s.db s.global s.latest
    → Inv s
    → Inv (begin_step p w s)
unfolding begin_step
begin_step-Inv p outside s fits h v = elim (Bool-cases (is_free s.db)) [
  | inl is ↦
      let (makes, sound) = apply_all-stores p s.global fits in
      rw is (record {
        input = (refl, sound, makes);
        readers = λ j.
            reader_aside j (s.readers j).place s.global s.global (v.readers j)
              (not_reader j s.db is) (λ e. cc);
      })
  | inr taken ↦ rw taken v
]
begin_step-Inv p (storing _ _) s fits h v = v
begin_step-Inv p (signalled _) s fits h v = v

-- Every statement of every thread keeps the invariant.
pub step-Inv : (a : Action) (s : System) → Allowed a s → Inv s → Inv (step a s)
unfolding step
step-Inv (begin p) s fits v = begin_step-Inv p s.input s fits v.input v
step-Inv write s fits v = write_step-Inv s.input s v.input v
step-Inv unread s fits v = unread_step-Inv s.input s v.input v
step-Inv no_memory s fits v = absurd cc
step-Inv (read i) s fits v = read_step-Inv i (s.readers i).place s (v.readers i) v
step-Inv (leave i) s fits v = leave_step-Inv i (s.readers i).place s (v.readers i) v
step-Inv (spurious i) s fits v = spurious_step-Inv i (s.readers i).place s (v.readers i) v

pub run-Inv :
    (schedule : List Action) (s : System) → AllAllowed schedule s → Inv s → Inv (run schedule s)
unfolding run AllAllowed
run-Inv [] s allowed v = v
run-Inv (a ∷ rest) s allowed v = run-Inv rest (step a s) allowed.1 (step-Inv a s allowed.0 v)

pub start-Inv : (g : Input) → Sound g → Inv (start g)
start-Inv g sound = record { input = ((λ e. cc), sound, refl); readers = λ j e. cc }
