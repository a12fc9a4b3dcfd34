-- ===== src/Httpd/Iobuffer/Laws.antt =====
-- No byte of the connection is lost, doubled or moved by the buffering.
use mjpg_streamer.Common.{
  ℕ, ◌+◌, ◌-◌, ◌≤◌, ◌<◌, ◌≡◌, refl, sym, ap, subst, ◌∙◌, List, [], ◌∷◌, ◌++◌, length, min, take,
  drop, replicate, leb, ◌==◌, append_assoc, arith, length-append, length-take, length-drop,
  length-replicate, drop-drop, take-append-drop, Bool-cases, inl, inr, drop-append_left,
}
use mjpg_streamer.Common.Text.{Bytes}
use mjpg_streamer.Httpd.Iobuffer.{
  io_buffer, Iobuffer, Event, readable, timed_out, closed, select_failed, ReadResult, got, error,
  exited, refill, served, drained, read_loop, read,
}

pub record IsValid (io : Iobuffer) : Type 0 where
  pub whole : length io.buffer ≡ io_buffer
  pub inside : io.level ≤ io_buffer

-- A read brings no more than it asks for.
abbrev pub Small : List Event → Type 0
Small [] = Unit
Small (readable bytes ∷ es) = (length bytes ≤ io_buffer) × Small es
Small (timed_out ∷ es) = Small es
Small (closed ∷ es) = Small es
Small (select_failed ∷ es) = Small es

-- The bytes that wait in the buffer, and those still to come.
abbrev pub pending : Iobuffer → Bytes
pending io = drop (io_buffer - io.level) io.buffer

abbrev pub coming : List Event → Bytes
coming [] = []
coming (readable bytes ∷ es) = bytes ++ coming es
coming (timed_out ∷ es) = coming es
coming (closed ∷ es) = coming es
coming (select_failed ∷ es) = coming es

pub served-pending :
    (io : Iobuffer) (want : ℕ)
    → IsValid io
    → served io want ++ pending (drained io want) ≡ pending io
served-pending io want v =
    let i = min io.level want in
    let e : io_buffer - (io.level - i) ≡ i + (io_buffer - io.level) = omega (arith, v.inside) in
    ap (λ k. served io want ++ drop k io.buffer) e
    ∙ ap (◌++◌ (served io want)) (sym (drop-drop i (io_buffer - io.level) io.buffer))
    ∙ take-append-drop i (pending io)

pub length-served :
    (io : Iobuffer) (want : ℕ) → IsValid io → length (served io want) ≡ min io.level want
length-served io want v = omega (
  arith,
  v.whole,
  v.inside,
  length-take (min io.level want) (pending io),
  length-drop (io_buffer - io.level) io.buffer,
)

pub pending-length : (io : Iobuffer) → IsValid io → length (pending io) ≡ io.level
pending-length io v = omega (arith, v.whole, v.inside, length-drop (io_buffer - io.level) io.buffer)

pub refill-IsValid :
    (bytes : Bytes)
    → length bytes ≤ io_buffer
    → IsValid (refill bytes) × (pending (refill bytes) ≡ bytes)
unfolding refill
refill-IsValid bytes h =
    let room = io_buffer - length bytes in
    let front = take room (bytes ++ replicate room 0) in
    let len : length front ≡ room = omega (
      arith,
      length-take room (bytes ++ replicate room 0),
      length-append bytes (replicate room 0),
      length-replicate {0} {A = ℕ} room 0,
    ) in
    (
      record { whole = omega (arith, len, length-append front bytes); inside = h },
      ap (λ (k : ℕ). drop k (front ++ bytes)) (sym len) ∙ drop-append_left front bytes,
    )

pub length-zero : (xs : Bytes) → length xs ≡ 0 → xs ≡ []
length-zero [] h = refl
length-zero (x ∷ xs) h = absurd (omega arith)

-- Where the answer is not complete, the buffer has been emptied.
pending-drained :
    (io : Iobuffer) (want : ℕ) → IsValid io → io.level < want → pending (drained io want) ≡ []
pending-drained io want v h =
    length-zero (pending (drained io want))
      (omega (arith, v.whole, length-drop (io_buffer - (io.level - min io.level want)) io.buffer))

-- What a finished read has done with the bytes `input`: those copied, then those left.
abbrev pub Splits : Bytes → ℕ → ReadResult → Type 0
Splits input len (got out io es) =
    (out ++ (pending io ++ coming es) ≡ input) × IsValid io × Small es × (length out ≤ len)
Splits input len error = Unit
Splits input len exited = Unit

module _ (io : Iobuffer) (copied : Bytes) (len : ℕ) (v : IsValid io) (h : length copied ≤ len) where
  abbrev copied_more : Bytes
  copied_more = copied ++ served io (len - length copied)

  abbrev left : Iobuffer
  left = drained io (len - length copied)

  served_moves :
      (rest : Bytes) → copied_more ++ (pending left ++ rest) ≡ copied ++ (pending io ++ rest)
  served_moves rest =
      append_assoc copied (served io (len - length copied)) (pending left ++ rest)
      ∙ ap (◌++◌ copied) (
          sym (append_assoc (served io (len - length copied)) (pending left) rest)
          ∙ ap (λ (xs : Bytes). xs ++ rest) (served-pending io (len - length copied) v))

  left-IsValid : IsValid left
  left-IsValid = record { whole = v.whole; inside = omega (arith, v.inside) }

  copied_more-le : length copied_more ≤ len
  copied_more-le = omega (
    arith,
    length-append copied (served io (len - length copied)),
    length-served io (len - length copied) v,
  )

  -- An incomplete answer has emptied the buffer.
  left_empty : length copied_more < len → pending left ≡ []
  left_empty lt = pending-drained io (len - length copied) v (
      omega (
        arith,
        length-append copied (served io (len - length copied)),
        length-served io (len - length copied) v,
      ))

  joins :
      length copied_more < len
      → (rest : Bytes) → copied_more ++ rest ≡ copied ++ (pending io ++ rest)
  joins lt rest =
      ap (λ (xs : Bytes). copied_more ++ (xs ++ rest)) (sym (left_empty lt)) ∙ served_moves rest

  finished :
      (es : List Event)
      → Small es
      → Splits (copied ++ (pending io ++ coming es)) len (got copied_more left es)
  finished es small = (served_moves (coming es), left-IsValid, small, copied_more-le)

read_loop-Splits :
    (es : List Event) (io : Iobuffer) (copied : Bytes) (len : ℕ)
    → IsValid io
    → Small es
    → length copied ≤ len
    → Splits (copied ++ (pending io ++ coming es)) len (read_loop es io copied len)
unfolding read_loop
read_loop-Splits [] io copied len v small h = finished io copied len v h [] tt
read_loop-Splits (readable bytes ∷ es) io copied len v small h =
    elim (Bool-cases (leb len (length (copied_more io copied len v h)))) [
      | inl complete ↦ rw complete (finished io copied len v h (readable bytes ∷ es) small)
      | inr short ↦ elim (Bool-cases (length bytes == 0)) [
        | inl none_read ↦ rw (short, none_read) tt
        | inr some_read ↦
            let (valid, same) = refill-IsValid bytes small.0 in
            let input : copied_more io copied len v h ++ (pending (refill bytes) ++ coming es)
                ≡ copied ++ (pending io ++ (bytes ++ coming es)) =
              ap (λ (xs : Bytes). copied_more io copied len v h ++ (xs ++ coming es)) same
              ∙ joins io copied len v h (ground arith) (bytes ++ coming es) in
            let later =
              read_loop-Splits es (refill bytes) (copied_more io copied len v h) len valid small.1
                (copied_more-le io copied len v h) in
            rw (short, some_read)
              (subst
                (λ (xs : Bytes).
                  Splits xs len (read_loop es (refill bytes) (copied_more io copied len v h) len))
                input later)
      ]
    ]
read_loop-Splits (timed_out ∷ es) io copied len v small h =
    elim (Bool-cases (leb len (length (copied_more io copied len v h)))) [
      | inl complete ↦ rw complete (finished io copied len v h (timed_out ∷ es) small)
      | inr short ↦ rw short (finished io copied len v h es small)
    ]
read_loop-Splits (closed ∷ es) io copied len v small h =
    elim (Bool-cases (leb len (length (copied_more io copied len v h)))) [
      | inl complete ↦ rw complete (finished io copied len v h (closed ∷ es) small)
      | inr short ↦ rw short tt
    ]
read_loop-Splits (select_failed ∷ es) io copied len v small h =
    elim (Bool-cases (leb len (length (copied_more io copied len v h)))) [
      | inl complete ↦ rw complete (finished io copied len v h (select_failed ∷ es) small)
      | inr short ↦ rw short tt
    ]

-- A call of _read that returns a count has copied the next bytes of the connection, at most `len`, and
-- those that it has not copied follow, in order, in the buffer and in what is still to come.
pub read-Splits :
    (es : List Event) (io : Iobuffer) (len : ℕ)
    → IsValid io
    → Small es
    → Splits (pending io ++ coming es) len (read es io len)
unfolding read
read-Splits es io len v small = elim (Bool-cases (len == 0)) [
  | inl nothing ↦ rw nothing (refl, v, small, omega arith)
  | inr more ↦ rw more (read_loop-Splits es io [] len v small (omega arith))
]
