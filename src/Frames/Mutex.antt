-- ===== src/Frames/Mutex.antt =====
-- The mutex: who holds it where, and what the shared frame and the copies of it hold then.
pub mod Steps
pub mod Exclusion
use mjpg_streamer.Common.{
  ℕ, ◌≤◌, ◌==◌, ◌≡◌, ◌≢◌, refl, sym, subst, true, Bool-cases, inl, inr, Option, none, some, length,
  take, ==_iff,
}
use mjpg_streamer.Httpd.Stream.{Frame}
use mjpg_streamer.Frames.{
  Input, held, apply_all, Thread, writer, reader, Writer, outside, storing, signalled, Place, head,
  locked, waiting, woken, reading, left, sized, copying, Reader, System, update, is_free,
}
use mjpg_streamer.Frames.Stores.{Sound}

-- The writer: outside, the shared frame is whole and the latest; inside it holds the mutex, and the writes that remain
-- make the frame that is meant.
abbrev pub WriterHolds : Writer → Option Thread → Input → Frame → Type 0
WriterHolds outside db g latest = (db ≢ some writer) × Sound g × (held g ≡ latest)
WriterHolds (storing f xs) db g latest =
    (db ≡ some writer) × Sound (apply_all xs g) × (held (apply_all xs g) ≡ f)
WriterHolds (signalled f) db g latest = (db ≡ some writer) × Sound g × (held g ≡ f)

-- A reader: it holds the mutex from the lock to the wait and from the wake-up to the end of the copy, and what it has
-- copied is what the shared frame holds.
abbrev pub ReaderHolds : ℕ → Place → Option Thread → Input → Type 0
ReaderHolds i head db g = db ≢ some (reader i)
ReaderHolds i locked db g = db ≡ some (reader i)
ReaderHolds i waiting db g = db ≢ some (reader i)
ReaderHolds i woken db g = db ≢ some (reader i)
ReaderHolds i reading db g = db ≡ some (reader i)
ReaderHolds i left db g = db ≢ some (reader i)
ReaderHolds i (sized n) db g = (db ≡ some (reader i)) × (n ≡ g.size)
ReaderHolds i (copying n sec usec bytes) db g =
    (db ≡ some (reader i))
    × (n ≡ g.size)
    × (sec ≡ g.tv_sec)
    × (usec ≡ g.tv_usec)
    × (bytes ≡ take (length bytes) g.buf)
    × (length bytes ≤ n)

pub record Inv (s : System) : Type 0 where
  pub input : WriterHolds s.input s.db s.global s.latest
  pub readers : (i : ℕ) → ReaderHolds i (s.readers i).place s.db s.global

pub update_elim {ℓ κ} :
    {A : Type ℓ} (P : ℕ → A → Type κ) (i : ℕ) (a : A) (f : ℕ → A)
    → P i a
    → ((j : ℕ) → i ≢ j → P j (f j))
    → (j : ℕ) → P j (update i a f j)
update_elim P i a f h t j = elim (Bool-cases (i == j)) [
  | inl same ↦ rw same (subst (λ k. P k a) ((==_iff i j).0 same) h)
  | inr other ↦ rw other (t j (λ e. cc ((==_iff i j).1 e)))
]

-- A thread that holds the mutex neither before nor after is as before.
pub reader_aside :
    (j : ℕ) (p : Place) (g g' : Input) {db db' : Option Thread}
    → ReaderHolds j p db g
    → db ≢ some (reader j)
    → db' ≢ some (reader j)
    → ReaderHolds j p db' g'
reader_aside j head g g' h n m = m
reader_aside j waiting g g' h n m = m
reader_aside j woken g g' h n m = m
reader_aside j left g g' h n m = m
reader_aside j locked g g' h n m = absurd (n h)
reader_aside j reading g g' h n m = absurd (n h)
reader_aside j (sized _) g g' h n m = absurd (n h.0)
reader_aside j (copying _ _ _ _) g g' h n m = absurd (n h.0)

writer_aside :
    (w : Writer) (g : Input) (f : Frame) {db db' : Option Thread}
    → WriterHolds w db g f
    → db ≢ some writer
    → db' ≢ some writer
    → WriterHolds w db' g f
writer_aside outside g f h n m = (m, h.1, h.2)
writer_aside (storing _ _) g f h n m = absurd (n h.0)
writer_aside (signalled _) g f h n m = absurd (n h.0)

pub not_reader : (i : ℕ) (db : Option Thread) → is_free db ≡ true → db ≢ some (reader i)
not_reader i none h e = cc
not_reader i (some t) h e = cc

-- A step of reader `i`: to a new place, with the mutex free or its own before and after.
abbrev OwnOrFree : ℕ → Option Thread → Type 0
OwnOrFree i none = Unit
OwnOrFree i (some t) = t ≡ reader i

not_writer : (i : ℕ) (db : Option Thread) → OwnOrFree i db → db ≢ some writer
not_writer i none h e = cc
not_writer i (some t) h e = cc

not_other : (i j : ℕ) (db : Option Thread) → OwnOrFree i db → i ≢ j → db ≢ some (reader j)
not_other i j none h ne e = cc
not_other i j (some t) h ne e = ne cc

pub reader_moves :
    (s : System) (i : ℕ) (r : Reader) (db : Option Thread)
    → Inv s
    → OwnOrFree i s.db
    → OwnOrFree i db
    → ReaderHolds i r.place db s.global
    → Inv (record s { readers = update i r s.readers; db = db })
reader_moves s i r db v before after h = record {
  input =
      writer_aside s.input s.global s.latest v.input (not_writer i s.db before)
        (not_writer i db after);
  readers =
      update_elim (λ j q. ReaderHolds j q.place db s.global) i r s.readers h
        (λ j ne.
          reader_aside j (s.readers j).place s.global s.global (v.readers j)
            (not_other i j s.db before ne) (not_other i j db after ne));
}

-- The same where the mutex stays as it is.
pub place_moves :
    (s : System) (i : ℕ) (r : Reader)
    → Inv s
    → ReaderHolds i r.place s.db s.global
    → Inv (record s { readers = update i r s.readers })
place_moves s i r v h = record {
  input = v.input;
  readers =
      update_elim (λ j q. ReaderHolds j q.place s.db s.global) i r s.readers h
        (λ j ne. v.readers j);
}

pub own : (i : ℕ) (db : Option Thread) → db ≡ some (reader i) → OwnOrFree i db
own i db e = subst (OwnOrFree i) (sym e) refl

pub free : (i : ℕ) (db : Option Thread) → is_free db ≡ true → OwnOrFree i db
free i none e = tt
free i (some t) e = cc

-- What a reader that holds the mutex finds.
pub reader_finds :
    (i : ℕ) (w : Writer) (db : Option Thread) (g : Input) (f : Frame)
    → WriterHolds w db g f
    → db ≡ some (reader i)
    → Sound g × (held g ≡ f)
reader_finds i outside db g f h e = (h.1, h.2)
reader_finds i (storing _ _) db g f h e = absurd cc
reader_finds i (signalled _) db g f h e = absurd cc
