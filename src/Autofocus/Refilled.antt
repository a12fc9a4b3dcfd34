-- ===== src/Autofocus/Refilled.antt =====
-- Reading ahead keeps the bits that the reader has still to give, and leaves 16 of them in the window.
use mjpg_streamer.Common.{
  ℕ, zero, suc, ◌+◌, ◌-◌, ◌*◌, ◌^◌, ◌≤◌, ◌<◌, ◌≡◌, inl, inr, refl, sym, ap, ◌∙◌, Bool, true, false,
  Bool-cases, List, [], ◌∷◌, ◌++◌, length, length-append, append_assoc, ltb, ltb→lt, ◌==◌, ==_iff,
  arith,
}
use mjpg_streamer.Common.Text.{Bytes}
use mjpg_streamer.Autofocus.{Read, Reader, got, refill_step, refill, with_byte, ◌>>=◌}
use mjpg_streamer.Autofocus.Ahead.{
  is_end, value, bits_of, length-bits_of, data_bits, stuffed, Unpaired, Holds, with_byte_window,
}

pub Unpaired-tail : (b : ℕ) (bytes : Bytes) → Unpaired (b ∷ bytes) → Unpaired bytes
Unpaired-tail b [] h = tt
Unpaired-tail b (c ∷ bytes) h = h.2

pub Unpaired-head : (b : ℕ) (bytes : Bytes) → Unpaired (b ∷ bytes) → b < 256
Unpaired-head b [] h = h.0
Unpaired-head b (c ∷ bytes) h = h.0

-- The reader has room for a byte, which is the next of the data; the bytes behind it are given.
record Room (r : Reader) (ahead : List Bool) : Type 0 where
  in_window : r.window ≡ value ahead * 2 ^ (32 - r.bitlen)
  of_length : length ahead ≡ r.bitlen
  room : r.bitlen ≤ 24

with_byte-Room :
    (r : Reader) (ahead : List Bool) (b : ℕ) (bytes : Bytes)
    → Room r ahead
    → r.bitlen < 16
    → b < 256
    → Room (with_byte r (b, bytes)) (ahead ++ bits_of 8 b)
unfolding with_byte
with_byte-Room r ahead b bytes h few small = record {
  in_window = with_byte_window r ahead b bytes h.in_window h.room small;
  of_length = omega (arith, length-append ahead (bits_of 8 b), length-bits_of 8 b, h.of_length);
  room = omega arith;
}

with_byte-Holds :
    (r : Reader) (bits ahead : List Bool) (b : ℕ) (bytes : Bytes)
    → Room r ahead
    → bits ≡ ahead ++ data_bits (b ∷ bytes)
    → Unpaired (b ∷ bytes)
    → Holds (with_byte r (b, stuffed bytes)) bits
unfolding with_byte data_bits
with_byte-Holds r bits ahead b bytes h e u = record {
  ahead = ahead ++ bits_of 8 b;
  later = bytes;
  of_both = e ∙ sym (append_assoc ahead (bits_of 8 b) (data_bits bytes));
  in_window =
      with_byte_window r ahead b (stuffed bytes) h.in_window h.room (Unpaired-head b bytes u);
  of_length = omega (arith, length-append ahead (bits_of 8 b), length-bits_of 8 b, h.of_length);
  fits = omega (arith, h.room);
  stands = refl;
  unpaired = Unpaired-tail b bytes u;
}

-- What a turn of the loop gives.
abbrev Filled : Reader → List Bool → Read Reader → Type 0
Filled r bits result =
    (more : Reader) × (result ≡ got more)
    × Holds more bits
    × (r.bitlen + 8 ≤ more.bitlen)
    × (more.bitlen ≤ 31)

step_plain :
    (r : Reader) (b : ℕ) (bytes : Bytes)
    → r.rest ≡ b ∷ bytes
    → (b == 255) ≡ false
    → refill_step r ≡ got (with_byte r (b, bytes))
unfolding refill_step
step_plain r b bytes e other = ground (arith, e)

step_full :
    (r : Reader) (b d : ℕ) (bytes : Bytes)
    → r.rest ≡ b ∷ 0 ∷ d ∷ bytes
    → (b == 255) ≡ true
    → refill_step r ≡ got (with_byte (with_byte r (b, [])) (d, bytes))
unfolding refill_step with_byte
step_full r b d bytes e full = ground (arith, e)

step_marker :
    (r : Reader) (b d : ℕ) (bytes : Bytes)
    → r.rest ≡ b ∷ d ∷ bytes
    → (b == 255) ≡ true
    → (d == 0) ≡ false
    → refill_step r ≡ got (with_byte (with_byte r (b, [])) (d, bytes))
unfolding refill_step with_byte
step_marker r b d bytes e full other = ground (arith, e)

length-data_bits :
    (b : ℕ) (bytes : Bytes) → length (data_bits (b ∷ bytes)) ≡ 8 + length (data_bits bytes)
unfolding data_bits
length-data_bits b bytes =
    omega (arith, length-append (bits_of 8 b) (data_bits bytes), length-bits_of 8 b)

pub stuffed_plain :
    (b : ℕ) (bytes : Bytes) → (b == 255) ≡ false → stuffed (b ∷ bytes) ≡ b ∷ stuffed bytes
unfolding stuffed
stuffed_plain b [] e = rw e refl
stuffed_plain b (c ∷ bytes) e = rw e refl

stuffed_full :
    (b c : ℕ) (bytes : Bytes)
    → (b == 255) ≡ true
    → is_end c bytes ≡ false
    → stuffed (b ∷ c ∷ bytes) ≡ b ∷ 0 ∷ stuffed (c ∷ bytes)
unfolding stuffed
stuffed_full b c bytes e middle =
    rw (e, middle) (ap (λ t. t ∷ 0 ∷ stuffed (c ∷ bytes)) (sym ((==_iff b 255).0 e)))

stuffed_end : (b c : ℕ) → (b == 255) ≡ true → is_end c [] ≡ true → stuffed (b ∷ c ∷ []) ≡ b ∷ c ∷ []
unfolding stuffed
stuffed_end b c e last = rw (e, last) (ap (λ t. t ∷ c ∷ []) (sym ((==_iff b 255).0 e)))

refill_plain-Filled :
    (r : Reader) (bits ahead : List Bool) (b : ℕ) (bytes : Bytes)
    → Room r ahead
    → bits ≡ ahead ++ data_bits (b ∷ bytes)
    → r.rest ≡ stuffed (b ∷ bytes)
    → Unpaired (b ∷ bytes)
    → r.bitlen < 16
    → (b == 255) ≡ false
    → Filled r bits (refill_step r)
unfolding with_byte
refill_plain-Filled r bits ahead b bytes h e s u few other = (
  with_byte r (b, stuffed bytes),
  step_plain r b (stuffed bytes) (s ∙ stuffed_plain b bytes other) other,
  with_byte-Holds r bits ahead b bytes h e u,
  omega arith,
  omega arith,
)

-- The two bytes that a turn takes from a byte 0xff on.
pair_step :
    (r : Reader) (b d : ℕ) (bytes : Bytes)
    → r.rest ≡ stuffed (b ∷ d ∷ bytes)
    → (b == 255) ≡ true
    → (d == 255) ≡ false
    → refill_step r ≡ got (with_byte (with_byte r (b, [])) (d, stuffed bytes))
unfolding stuffed
pair_step r b d [] s full d_plain = elim (Bool-cases (is_end d [])) [
  | inl last ↦
      let some_byte : (d == 0) ≡ false = ground arith in
      step_marker r b d [] (s ∙ stuffed_end b d full last) full some_byte
  | inr middle ↦
      step_full r b d []
        (s ∙ stuffed_full b d [] full middle ∙ ap (λ t. b ∷ 0 ∷ t) (stuffed_plain d [] d_plain))
        full
]
pair_step r b d (c ∷ bytes) s full d_plain =
    let middle : is_end d (c ∷ bytes) ≡ false = ground arith in
    step_full r b d (stuffed (c ∷ bytes))
      (s
        ∙ stuffed_full b d (c ∷ bytes) full middle
        ∙ ap (λ t. b ∷ 0 ∷ t) (stuffed_plain d (c ∷ bytes) d_plain))
      full

refill_full-Filled :
    (r : Reader) (bits ahead : List Bool) (b d : ℕ) (bytes : Bytes)
    → Room r ahead
    → bits ≡ ahead ++ data_bits (b ∷ d ∷ bytes)
    → r.rest ≡ stuffed (b ∷ d ∷ bytes)
    → Unpaired (b ∷ d ∷ bytes)
    → r.bitlen < 16
    → (b == 255) ≡ true
    → Filled r bits (refill_step r)
unfolding with_byte data_bits
refill_full-Filled r bits ahead b d bytes h e s u few full =
    let b_full : b ≡ 255 = (==_iff b 255).0 full in
    let d_plain : (d == 255) ≡ false = ground (arith, u.1 b_full) in
    let one : Reader = with_byte r (b, []) in
    (
      with_byte one (d, stuffed bytes),
      pair_step r b d bytes s full d_plain,
      with_byte-Holds one bits (ahead ++ bits_of 8 b) d bytes
          (with_byte-Room r ahead b [] h few u.0)
          (e ∙ sym (append_assoc ahead (bits_of 8 b) (data_bits (d ∷ bytes)))) u.2,
      omega arith,
      omega arith,
    )

refill_next-Filled :
    (r : Reader) (bits ahead : List Bool) (later : Bytes)
    → Room r ahead
    → bits ≡ ahead ++ data_bits later
    → r.rest ≡ stuffed later
    → Unpaired later
    → r.bitlen < 16
    → 16 ≤ length bits
    → Filled r bits (refill_step r)
unfolding data_bits
refill_next-Filled r bits ahead [] h e s u few enough =
    absurd (omega (arith, ap length e, length-append ahead (data_bits []), h.of_length))
refill_next-Filled r bits ahead (b ∷ []) h e s u few enough =
    let other : (b == 255) ≡ false = ground (arith, u.1) in
    refill_plain-Filled r bits ahead b [] h e s u few other
refill_next-Filled r bits ahead (b ∷ c ∷ bytes) h e s u few enough = elim (Bool-cases (b == 255)) [
  | inl full ↦ refill_full-Filled r bits ahead b c bytes h e s u few full
  | inr other ↦ refill_plain-Filled r bits ahead b (c ∷ bytes) h e s u few other
]

refill_step-Holds :
    (r : Reader) (bits : List Bool)
    → Holds r bits
    → r.bitlen < 16
    → 16 ≤ length bits
    → Filled r bits (refill_step r)
refill_step-Holds r bits h few enough =
    refill_next-Filled r bits h.ahead h.later
      (record { in_window = h.in_window; of_length = h.of_length; room = omega arith }) h.of_both
      h.stands h.unpaired few enough

refill_again :
    (n : ℕ) (r : Reader)
    → (ltb r.bitlen 16) ≡ true
    → refill (suc n) r ≡ (refill_step r >>= refill n)
unfolding refill
refill_again n r e = rw e refl

refill_done : (n : ℕ) (r : Reader) → (ltb r.bitlen 16) ≡ false → refill n r ≡ got r
unfolding refill
refill_done zero r e = refl
refill_done (suc n) r e = rw e refl

-- What the loop gives, from a reader with the bits.
abbrev pub Refilled : Reader → List Bool → Read Reader → Type 0
Refilled r bits result =
    (full : Reader) × (result ≡ got full) × Holds full bits × (16 ≤ full.bitlen)

pub refill-Holds :
    (n : ℕ) (r : Reader) (bits : List Bool)
    → Holds r bits
    → 16 ≤ length bits
    → 16 ≤ r.bitlen + 8 * n
    → Refilled r bits (refill n r)
refill-Holds zero r bits h enough turns = (r, refill_done 0 r (ground arith), h, omega arith)
refill-Holds (suc n) r bits h enough turns = elim (Bool-cases (ltb r.bitlen 16)) [
  | inr full ↦ (r, refill_done (suc n) r full, h, ground arith)
  | inl few ↦
      let (more, e, held, grown, _) = refill_step-Holds r bits h (ltb→lt r.bitlen 16 few) enough in
      let (full, e', held', enough') = refill-Holds n more bits held enough (omega arith) in
      (full, refill_again n r few ∙ ap (λ x. x >>= refill n) e ∙ e', held', enough')
]
