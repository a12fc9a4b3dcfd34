-- ===== src/Autofocus/Coefficients.antt =====
-- The loop of readTable over the AC coefficients, and the whole of readTable.
use mjpg_streamer.Common.{
  ℕ, zero, suc, ◌+◌, ◌*◌, ◌/◌, ◌%◌, ◌≤◌, ◌<◌, ◌≡◌, refl, sym, ap, subst, ◌∙◌, Bool, true, false,
  List, [], ◌∷◌, ◌++◌, length, length-append, append_assoc, set, replicate, length-replicate, ◌==◌,
  ltb, arith,
}
use mjpg_streamer.Common.Int.{ℤ, pos}
use mjpg_streamer.Autofocus.{
  Read, Reader, Entry, got, read_xc, read_bits, huff_extend, ac_loop, Progress,
}
use mjpg_streamer.Autofocus.Ahead.{bits_of, Holds}
use mjpg_streamer.Autofocus.Lookup.{Ordered}
use mjpg_streamer.Autofocus.Symbols.{read_xc-Holds}
use mjpg_streamer.Autofocus.Blocks.{
  magnitude, magnitude-lt, huff_extend-magnitude, read_bits-Holds, AcBits,
}

abbrev at : ℕ → List ℤ → Reader → Progress
at j table r = record { j = j; table = table; reader = r }

loop_ended :
    (turns : ℕ) (codes : List Entry) (k : ℕ) (table : List ℤ) (r : Reader)
    → 63 ≤ k
    → ac_loop turns codes (at k table r) ≡ got (at k table r)
unfolding ac_loop
loop_ended zero codes k table r h = refl
loop_ended (suc turns) codes k table r h = let e : ltb k 63 ≡ false = ground arith in rw e refl

-- A turn of the loop for each kind of symbol.
module _ (turns : ℕ) (codes : List Entry) (k : ℕ) (table : List ℤ) (r r1 : Reader) where
  end_step :
      k < 63
      → read_xc codes r ≡ got (0, r1)
      → ac_loop (suc turns) codes (at k table r) ≡ got (at k table r1)
  unfolding ac_loop
  end_step h e = ground (arith, e)

  sixteen_step :
      k < 63
      → read_xc codes r ≡ got (240, r1)
      → ac_loop (suc turns) codes (at k table r) ≡ ac_loop turns codes (at (k + 16) table r1)
  unfolding ac_loop
  sixteen_step h e = ground (arith, e)

  value_step :
      (run size x : ℕ) (r2 : Reader)
      → k < 63
      → 1 ≤ size
      → size ≤ 15
      → read_xc codes r ≡ got (run * 16 + size, r1)
      → read_bits size r1 ≡ got (x, r2)
      → ac_loop (suc turns) codes (at k table r)
        ≡ ac_loop turns codes (at (k + run + 1) (set table (k + run + 1) (huff_extend x size)) r2)
  unfolding ac_loop
  value_step run size x r2 h low high e f =
      let m : (run * 16 + size) % 16 ≡ size = omega arith in
      let d : (run * 16 + size) / 16 ≡ run = omega arith in
      let some_bits : ((run * 16 + size) % 16 == 0) ≡ false = ground (arith, m) in
      let within : ltb k 63 ≡ true = ground arith in
      rw (within, e) (rw some_bits (rw (m, d) (rw f refl)))

-- A value written behind a run of zeros, and behind what has been read.
set_zeros :
    (run m a : ℕ) (v : ℤ)
    → a ≡ run + suc m
    → set (replicate a (pos 0)) run v ≡ replicate run (pos 0) ++ v ∷ replicate m (pos 0)
set_zeros run m zero v e = absurd (omega arith)
set_zeros zero m (suc a) v e = ap (λ n. v ∷ replicate n (pos 0)) (omega arith)
set_zeros (suc run) m (suc a) v e = ap (λ t. pos 0 ∷ t) (set_zeros run m a v (omega arith))

set-append_right :
    (done xs : List ℤ) (i n : ℕ) (v : ℤ)
    → n ≡ length done + i
    → set (done ++ xs) n v ≡ done ++ set xs i v
set-append_right [] xs i n v e = ap (λ k. set xs k v) (omega arith)
set-append_right (x ∷ done) xs i zero v e = absurd (omega arith)
set-append_right (x ∷ done) xs i (suc n) v e =
    ap (λ t. x ∷ t) (set-append_right done xs i n v (omega arith))

replicate-add :
    (m n k : ℕ) → k ≡ m + n → replicate k (pos 0) ≡ replicate m (pos 0) ++ replicate n (pos 0)
replicate-add zero n k e = ap (λ t. replicate t (pos 0)) (omega arith)
replicate-add (suc m) n zero e = absurd (omega arith)
replicate-add (suc m) n (suc k) e = ap (λ t. pos 0 ∷ t) (replicate-add m n k (omega arith))

zeros_behind :
    (done coefficients : List ℤ) (run : ℕ)
    → done ++ replicate (length (replicate run (pos 0) ++ coefficients)) (pos 0)
      ≡ (done ++ replicate run (pos 0)) ++ replicate (length coefficients) (pos 0)
zeros_behind done coefficients run =
    ap (λ t. done ++ t)
      (replicate-add run (length coefficients) _ (
        omega (
          arith,
          length-append (replicate run (pos 0)) coefficients,
          length-replicate run (pos 0),
        )))
    ∙ sym (append_assoc done _ _)

value_behind :
    (done coefficients : List ℤ) (k run : ℕ) (v : ℤ)
    → length done ≡ suc k
    → set
        (done ++ replicate (length (replicate run (pos 0) ++ v ∷ coefficients)) (pos 0))
        (k + run + 1)
        v
      ≡ (done ++ (replicate run (pos 0) ++ v ∷ [])) ++ replicate (length coefficients) (pos 0)
value_behind done coefficients k run v d =
    let zeros : List ℤ = replicate run (pos 0) in
    let later : List ℤ = replicate (length coefficients) (pos 0) in
    let l : length (zeros ++ v ∷ coefficients) ≡ run + suc (length coefficients) =
      omega (arith, length-append zeros (v ∷ coefficients), length-replicate run (pos 0)) in
    set-append_right done _ run (k + run + 1) v (omega arith)
    ∙ ap (λ t. done ++ t) (set_zeros run (length coefficients) _ v l)
    ∙ ap (λ t. done ++ t) (sym (append_assoc zeros (v ∷ []) later))
    ∙ sym (append_assoc done (zeros ++ v ∷ []) later)

-- What the loop leaves, for the coefficients that are still to be read.
abbrev Finished : List ℤ → List Bool → Read Progress → Type 0
Finished table tail result =
    (p : Progress) × (result ≡ got p) × (p.table ≡ table) × (p.j ≤ 63) × Holds p.reader tail

pub ac_loop-AcBits :
    {codes : List Entry} {coefficients : List ℤ} {bits : List Bool} (turns k : ℕ) (done : List ℤ)
    (tail : List Bool) (r : Reader)
    → Ordered 0 codes
    → AcBits codes coefficients bits
    → Holds r (bits ++ tail)
    → 16 ≤ length tail
    → length done ≡ suc k
    → k + length coefficients ≡ 63
    → length coefficients ≤ turns
    → Finished
        (done ++ coefficients)
        tail
        (ac_loop turns codes (at k (done ++ replicate (length coefficients) (pos 0)) r))
ac_loop-AcBits {codes} turns k done tail r o AcBits.written h enough d l t =
    (at k (done ++ []) r, loop_ended turns codes k _ r (omega arith), refl, omega arith, h)
ac_loop-AcBits zero k done tail r o (AcBits.end_of_block n code c) h enough d l t =
    absurd (omega arith)
ac_loop-AcBits {codes} (suc turns) k done tail r o (AcBits.end_of_block n code c) h enough d l t =
    let (r1, e, held, _) = read_xc-Holds 0 codes 0 code tail r o c h enough in
    let n_zeros = length-replicate (suc n) (pos 0) in
    (
      at k (done ++ replicate (length (replicate (suc n) (pos 0))) (pos 0)) r1,
      end_step turns codes k _ r r1 (omega arith) e,
      ap (λ m. done ++ replicate m (pos 0)) n_zeros,
      omega arith,
      held,
    )
ac_loop-AcBits zero k done tail r o (AcBits.sixteen_zeros cs bits code c rest) h enough d l t =
    absurd (omega arith)
ac_loop-AcBits {codes} (suc turns) k done tail r o (AcBits.sixteen_zeros cs bits code c rest) h
      enough d l t =
    let zeros : List ℤ = replicate 16 (pos 0) in
    let (r1, e, held, _) =
      read_xc-Holds 0 codes 240 code (bits ++ tail) r o c
        (subst (Holds r) (append_assoc code bits tail) h)
        (omega (arith, length-append bits tail)) in
    let (p, e', q, j, held') =
      ac_loop-AcBits turns (k + 16) (done ++ zeros) tail r1 o rest held enough
        (omega (arith, length-append done zeros)) (omega arith) (omega arith) in
    (
      p,
      sixteen_step turns codes k _ r r1 (omega arith) e
          ∙ ap (λ x. ac_loop turns codes (at (k + 16) x r1)) (zeros_behind done cs 16)
          ∙ e',
      q ∙ append_assoc done zeros cs,
      j,
      held',
    )
ac_loop-AcBits zero k done tail r o
      (AcBits.coefficient cs bits code run size v few low high cat c rest) h enough d l t =
    absurd (omega (arith, length-append (replicate run (pos 0)) (v ∷ cs)))
ac_loop-AcBits {codes} (suc turns) k done tail r o
      (AcBits.coefficient cs bits code run size v few low high cat c rest) h enough d l t =
    let m = magnitude size v in
    let zeros : List ℤ = replicate run (pos 0) in
    let size_bits : List Bool = bits_of size m in
    let lengths : length (zeros ++ v ∷ cs) ≡ run + suc (length cs) =
      omega (arith, length-append zeros (v ∷ cs), length-replicate run (pos 0)) in
    let order : (code ++ (size_bits ++ bits)) ++ tail ≡ code ++ (size_bits ++ (bits ++ tail)) =
      append_assoc code (size_bits ++ bits) tail
      ∙ ap (λ x. code ++ x) (append_assoc size_bits bits tail) in
    let (r1, e, held, many) =
      read_xc-Holds 0 codes (run * 16 + size) code (size_bits ++ (bits ++ tail)) r o c
        (subst (Holds r) order h)
        (omega (arith, length-append size_bits (bits ++ tail), length-append bits tail)) in
    let (r2, e2, held2) =
      read_bits-Holds size m (bits ++ tail) r1 held (magnitude-lt size v cat) (omega arith) many in
    let (p, e', q, j, held') =
      ac_loop-AcBits turns (k + run + 1) (done ++ (zeros ++ v ∷ [])) tail r2 o rest held2 enough
        (omega (
          arith,
          length-append done (zeros ++ v ∷ []),
          length-append zeros (v ∷ []),
          length-replicate run (pos 0),
        ))
        (omega arith) (omega arith) in
    (
      p,
      value_step turns codes k _ r r1 run size m r2 (omega arith) low high e e2
          ∙ ap
              (λ u. ac_loop turns codes (
                at (k + run + 1)
                  (set (done ++ replicate (length (zeros ++ v ∷ cs)) (pos 0)) (k + run + 1) u) r2))
              (huff_extend-magnitude size v cat)
          ∙ ap (λ x. ac_loop turns codes (at (k + run + 1) x r2)) (value_behind done cs k run v d)
          ∙ e',
      q
          ∙ append_assoc done (zeros ++ v ∷ []) cs
          ∙ ap (λ x. done ++ x) (append_assoc zeros (v ∷ []) cs),
      j,
      held',
    )
