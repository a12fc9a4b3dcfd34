-- ===== src/Httpd/Iobuffer/Lines.antt =====
-- A line arrives whole, however the connection cuts it.
use mjpg_streamer.Common.{
  ℕ, zero, suc, ◌≤◌, ◌<◌, ◌≡◌, refl, sym, ap, ◌∙◌, false, List, [], ◌∷◌, ◌++◌, length, leb,
  append_assoc, arith, length-append, Bool-cases, inl, inr,
}
use mjpg_streamer.Common.Text.{Bytes, mem}
use mjpg_streamer.Httpd.Iobuffer.{
  io_buffer, Iobuffer, Event, readable, timed_out, closed, select_failed, got, refill, served,
  drained, read_loop, read, LineResult, line, readline_loop, readline,
}
use mjpg_streamer.Httpd.Iobuffer.Laws.{
  IsValid, pending, coming, length-served, served-pending, refill-IsValid, length-zero,
  pending-length,
}

-- Only bytes arrive, at least one and at most IO_BUFFER at a time.
abbrev pub Data : List Event → Type 0
Data [] = Unit
Data (readable bytes ∷ es) = (0 < length bytes) × (length bytes ≤ io_buffer) × Data es
Data (timed_out ∷ es) = ⊥
Data (closed ∷ es) = ⊥
Data (select_failed ∷ es) = ⊥

-- One byte has been read, and `rest` follows.
pub record OneByte (c : ℕ) (rest : Bytes) (es : List Event) (io : Iobuffer) : Type 0 where
  pub later : List Event
  pub after : Iobuffer
  pub result : read es io 1 ≡ got (c ∷ []) after later
  pub follows : pending after ++ coming later ≡ rest
  pub valid : IsValid after
  pub data_left : Data later

one_element :
    (xs : Bytes) (c : ℕ) (ys rest : Bytes)
    → length xs ≡ 1
    → xs ++ ys ≡ c ∷ rest
    → (xs ≡ c ∷ []) × (ys ≡ rest)
one_element [] c ys rest h e = absurd (omega arith)
one_element (x ∷ []) c ys rest h e = (cc, cc)
one_element (x ∷ y ∷ xs) c ys rest h e = absurd (omega arith)

loop_buffered :
    (es : List Event) (io : Iobuffer)
    → IsValid io
    → 0 < io.level
    → read_loop es io [] 1 ≡ got (served io 1) (drained io 1) es
unfolding read_loop
loop_buffered [] io v h = refl
loop_buffered (e ∷ es) io v h = ground (arith, length-served io 1 v)

buffered :
    (es : List Event) (io : Iobuffer) (c : ℕ) (rest : Bytes)
    → IsValid io
    → Data es
    → 0 < io.level
    → pending io ++ coming es ≡ c ∷ rest
    → (read_loop es io [] 1 ≡ got (c ∷ []) (drained io 1) es)
      × (pending (drained io 1) ++ coming es ≡ rest)
      × IsValid (drained io 1)
buffered es io c rest v d h e =
    let input : served io 1 ++ (pending (drained io 1) ++ coming es) ≡ c ∷ rest =
      sym (append_assoc (served io 1) (pending (drained io 1)) (coming es))
      ∙ ap (λ (xs : Bytes). xs ++ coming es) (served-pending io 1 v)
      ∙ e in
    let (first, later) =
      one_element (served io 1) c (pending (drained io 1) ++ coming es) rest
        (omega (arith, length-served io 1 v)) input in
    (
      loop_buffered es io v h ∙ ap (λ (xs : Bytes). got xs (drained io 1) es) first,
      later,
      record { whole = v.whole; inside = omega (arith, v.inside) },
    )

from_socket :
    (es : List Event) (io : Iobuffer) (c : ℕ) (rest : Bytes)
    → IsValid io
    → Data es
    → io.level ≡ 0
    → pending io ++ coming es ≡ c ∷ rest
    → OneByte c rest es io
unfolding read read_loop refill
from_socket [] io c rest v d z e =
    absurd (omega (arith, ap length e, pending-length io v, length-append (pending io) []))
from_socket (readable bytes ∷ es) io c rest v d z e =
    let (valid, same) = refill-IsValid bytes d.1 in
    let empty = length-zero (pending io) (omega (arith, pending-length io v)) in
    let unserved = length-zero (served io 1) (omega (arith, length-served io 1 v)) in
    let input : pending (refill bytes) ++ coming es ≡ c ∷ rest =
      ap (λ (xs : Bytes). xs ++ coming es) same
      ∙ sym (ap (λ (xs : Bytes). xs ++ (bytes ++ coming es)) empty)
      ∙ e in
    let (result, follows, valid') = buffered es (refill bytes) c rest valid d.2 d.0 input in
    let step : read (readable bytes ∷ es) io 1 ≡ read_loop es (refill bytes) (served io 1) 1 =
      ground (arith, ap length unserved) in
    record {
      later = es;
      after = drained (refill bytes) 1;
      result = step ∙ ap (λ (xs : Bytes). read_loop es (refill bytes) xs 1) unserved ∙ result;
      follows = follows;
      valid = valid';
      data_left = d.2;
    }
from_socket (timed_out ∷ es) io c rest v d z e = absurd d
from_socket (closed ∷ es) io c rest v d z e = absurd d
from_socket (select_failed ∷ es) io c rest v d z e = absurd d

read_one :
    (es : List Event) (io : Iobuffer) (c : ℕ) (rest : Bytes)
    → IsValid io
    → Data es
    → pending io ++ coming es ≡ c ∷ rest
    → OneByte c rest es io
unfolding read
read_one es io c rest v d e = elim (Bool-cases (leb 1 io.level)) [
  | inl some_left ↦
      let (result, follows, valid) = buffered es io c rest v d (ground arith) e in
      record {
        later = es;
        after = drained io 1;
        result = result;
        follows = follows;
        valid = valid;
        data_left = d;
      }
  | inr empty ↦ from_socket es io c rest v d (ground arith) e
]

-- The line that _readline returns, and the bytes that follow it.
pub record Reads (result : LineResult) (text rest : Bytes) : Type 0 where
  pub after : Iobuffer
  pub later : List Event
  pub returns : result ≡ line text after later
  pub follows : pending after ++ coming later ≡ rest
  pub valid : IsValid after
  pub data_left : Data later

readline_loop-Reads :
    (text : Bytes) (len : ℕ) (es : List Event) (io : Iobuffer) (out rest : Bytes)
    → IsValid io
    → Data es
    → mem 10 text ≡ false
    → length text < len
    → pending io ++ coming es ≡ text ++ 10 ∷ rest
    → Reads (readline_loop len es io out) (out ++ (text ++ 10 ∷ [])) rest
unfolding readline_loop
readline_loop-Reads text zero es io out rest v d plain fits e = absurd (omega arith)
readline_loop-Reads [] (suc len) es io out rest v d plain fits e =
    let one = read_one es io 10 rest v d e in
    record {
      after = one.after;
      later = one.later;
      returns = rw (one.result, readline_loop);
      follows = one.follows;
      valid = one.valid;
      data_left = one.data_left;
    }
readline_loop-Reads (c ∷ text) (suc len) es io out rest v d plain fits e =
    let one = read_one es io c (text ++ 10 ∷ rest) v d e in
    let more =
      readline_loop-Reads text len one.later one.after (out ++ c ∷ []) rest one.valid one.data_left
        (ground arith) (omega arith) one.follows in
    record {
      after = more.after;
      later = more.later;
      returns =
          rw (one.result, readline_loop)
            (ground (arith, more.returns, append_assoc out (c ∷ []) (text ++ 10 ∷ [])));
      follows = more.follows;
      valid = more.valid;
      data_left = more.data_left;
    }

-- A line with its line feed that fits the buffer is returned whole, whatever pieces the connection brings
-- it in, and the bytes behind it stay for the next call.
pub readline-Reads :
    (text rest : Bytes) (len : ℕ) (es : List Event) (io : Iobuffer)
    → IsValid io
    → Data es
    → mem 10 text ≡ false
    → length text < len
    → pending io ++ coming es ≡ text ++ 10 ∷ rest
    → Reads (readline es io len) (text ++ 10 ∷ []) rest
unfolding readline
readline-Reads text rest len es io = readline_loop-Reads text len es io [] rest
