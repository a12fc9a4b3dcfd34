-- ===== src/Autofocus/Scan/Started.antt =====
-- The loop over a scan as a whole, from the first two bytes of its data on.
use mjpg_streamer.Common.{
  ℕ, suc, ◌+◌, ◌*◌, ◌^◌, ◌≤◌, ◌<◌, ◌≡◌, ◌≢◌, inl, inr, refl, sym, ap, subst, ◌∙◌, Bool, false,
  Bool-cases, List, [], ◌∷◌, ◌++◌, length, length-append, append_assoc, ◌==◌, arith,
}
use mjpg_streamer.Common.Int.{ℤ, ◌+ℤ◌}
use mjpg_streamer.Common.Text.{Bytes}
use Prim.Native.Nat.{bit_or}
use mjpg_streamer.Autofocus.{Reader, got}
use mjpg_streamer.Autofocus.Ahead.{
  value, value-append, value-bits_of, bits_of, length-bits_of, data_bits, stuffed, Unpaired, Holds,
  byte_below,
}
use mjpg_streamer.Autofocus.Refilled.{stuffed_plain, Unpaired-head, Unpaired-tail}
use mjpg_streamer.Autofocus.Scan.Summed.{
  Mcu, y_values, HasTables, ScanBits, summed, mcu_seen, mcu-McuBits,
}
use mjpg_streamer.Autofocus.Scan.{Doubles, Coding, Scan, next_row, scan_loop, start_reader}

pub start_reader-Holds :
    (b e : ℕ) (bytes : Bytes)
    → Unpaired (b ∷ e ∷ bytes)
    → b ≢ 255
    → e ≢ 255
    → (r : Reader) × (start_reader (stuffed (b ∷ e ∷ bytes)) ≡ got r)
      × Holds r (data_bits (b ∷ e ∷ bytes))
unfolding start_reader data_bits
start_reader-Holds b e bytes u p q =
    let plain_b : (b == 255) ≡ false = ground arith in
    let plain_e : (e == 255) ≡ false = ground arith in
    let stands : stuffed (b ∷ e ∷ bytes) ≡ b ∷ e ∷ stuffed bytes =
      stuffed_plain b (e ∷ bytes) plain_b ∙ ap (λ t. b ∷ t) (stuffed_plain e bytes plain_e) in
    let small = Unpaired-head e bytes u.2 in
    (
      record { window = bit_or (b * 2 ^ 24) (e * 2 ^ 16); bitlen = 16; rest = stuffed bytes },
      rw stands refl,
      record {
        ahead = bits_of 8 b ++ bits_of 8 e;
        later = bytes;
        of_both = sym (append_assoc (bits_of 8 b) (bits_of 8 e) (data_bits bytes));
        in_window =
            byte_below b e 16 small
            ∙ ap (λ t. t * 2 ^ 16)
                (sym (
                  value-append (bits_of 8 b) (bits_of 8 e)
                  ∙ omega (
                    arith,
                    value-bits_of 8 b u.0,
                    value-bits_of 8 e small,
                    ap (λ n. value (bits_of 8 b) * 2 ^ n) (length-bits_of 8 e),
                  )));
        of_length = omega (
          arith,
          length-append (bits_of 8 b) (bits_of 8 e),
          length-bits_of 8 b,
          length-bits_of 8 e,
        );
        fits = omega arith;
        stands = refl;
        unpaired = Unpaired-tail e bytes u.2;
      },
    )

module _ (d : Doubles) (c : Coding d) (half : ℕ) (even : c.across ≡ 2 * half)
    (t : HasTables d c) where
  -- What the loop leaves, where `s` is how it begins.
  pub record Loops (s : Scan d) (ms : List Mcu) (tail : List Bool) : Type 0 where
    pub after : Scan d
    pub ends : scan_loop d (length ms) c s ≡ got after
    pub sums : after.sum_ac ≡ summed d c s.xp s.yp (y_values s.last_y ms) s.sum_ac
    pub count : after.cnt2 ≡ s.cnt2 + 2 * length ms
    pub rest : Holds after.reader tail

  -- The test for the end of a row after every second block is the test after every block.
  next_row-summed :
      (i : ℕ) (s : Scan d) (m : Mcu) (r1 r2 r3 r4 : Reader) (tables : List (List ℤ))
      → s.xp ≡ 2 * i
      → i < half
      → let later = next_row d c (mcu_seen d c s m r1 r2 r3 r4) in
        let first = m.y1.difference +ℤ s.last_y in
        let second = m.y2.difference +ℤ first in
        summed d c s.xp s.yp
          ((first ∷ m.y1.coefficients) ∷ (second ∷ m.y2.coefficients) ∷ tables)
          s.sum_ac
        ≡ summed d c later.xp later.yp tables later.sum_ac
  unfolding next_row
  next_row-summed i s m r1 r2 r3 r4 tables x h =
      let first : ((s.xp + 1) == c.across) ≡ false = ground (arith, x, even) in
      elim (Bool-cases ((s.xp + 1 + 1) == c.across)) [
        | inl last ↦ rw first (rw last refl)
        | inr more ↦ rw first (rw more refl)
      ]

  -- After a row the position is even again.
  next_row-even :
      (i : ℕ) (s : Scan d)
      → s.xp ≡ 2 * suc i
      → i < half
      → (j : ℕ) × ((next_row d c s).xp ≡ 2 * j) × (j < half)
  unfolding next_row
  next_row-even i s x h = elim (Bool-cases (s.xp == c.across)) [
    | inl last ↦ (0, rw last refl, omega arith)
    | inr more ↦ (suc i, rw more x, ground (arith, x, even, more))
  ]

  next_row-keeps :
      (s : Scan d)
      → ((next_row d c s).last_y ≡ s.last_y)
        × ((next_row d c s).cnt2 ≡ s.cnt2)
        × ((next_row d c s).reader ≡ s.reader)
  unfolding next_row
  next_row-keeps s = elim (Bool-cases (s.xp == c.across)) [
    | inl last ↦ (rw last refl, rw last refl, rw last refl)
    | inr more ↦ (rw more refl, rw more refl, rw more refl)
  ]

  pub scan_loop-ScanBits :
      (i : ℕ) (s : Scan d) (ms : List Mcu) (bits tail : List Bool)
      → s.xp ≡ 2 * i
      → i < half
      → ScanBits d c ms bits
      → Holds s.reader (bits ++ tail)
      → 16 ≤ length tail
      → Loops s ms tail
  unfolding scan_loop
  scan_loop-ScanBits i s [] bits tail x h w held enough = record {
    after = s;
    ends = refl;
    sums = refl;
    count = omega arith;
    rest = subst (λ b. Holds s.reader (b ++ tail)) w held;
  }
  scan_loop-ScanBits i s (m ∷ ms) bits tail x h (first, later, w, ws, e) held enough =
      let order : bits ++ tail ≡ first ++ (later ++ tail) =
        ap (λ b. b ++ tail) e ∙ append_assoc first later tail in
      let (r1, r2, r3, r4, steps, left) =
        mcu-McuBits d c (length ms) s m first (later ++ tail) t w
          (subst (Holds s.reader) order held) (omega (arith, length-append later tail)) in
      let seen = mcu_seen d c s m r1 r2 r3 r4 in
      let (j, x', h') = next_row-even i seen (omega arith) h in
      let (last_y, cnt2, reader) = next_row-keeps seen in
      let loop =
        scan_loop-ScanBits j (next_row d c seen) ms later tail x' h' ws
          (subst (λ r. Holds r (later ++ tail)) (sym reader) left) enough in
      record {
        after = loop.after;
        ends = steps ∙ loop.ends;
        sums =
            loop.sums
            ∙ sym (next_row-summed i s m r1 r2 r3 r4 (y_values (next_row d c seen).last_y ms) x h)
            ∙ ap
                (λ last.
                  summed d c s.xp s.yp
                    (((m.y1.difference +ℤ s.last_y) ∷ m.y1.coefficients)
                      ∷ ((m.y2.difference +ℤ (m.y1.difference +ℤ s.last_y)) ∷ m.y2.coefficients)
                      ∷ y_values last ms)
                    s.sum_ac)
                last_y;
        count = omega (arith, loop.count);
        rest = loop.rest;
      }
