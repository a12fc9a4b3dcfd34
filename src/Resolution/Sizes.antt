-- ===== src/Resolution/Sizes.antt =====
-- Which texts stand for which size.
use mjpg_streamer.Common.{
  ◌≤◌, le→leb, ℕ, ◌<◌, ◌≡◌, refl, sym, ap, ◌∙◌, true, false, [], ◌∷◌, ◌++◌, none, some, length,
  ◌==◌, All, arith, drop-append_left, append-nil,
}
use mjpg_streamer.Common.Int.{ℤ, pos}
use mjpg_streamer.Common.Text.{Bytes, span, mem, is_some}
use mjpg_streamer.Httpd.Command.{int_max}
use mjpg_streamer.Httpd.Print.{
  decimal-some, decimal, decimal-value, decimal-IsDigit, IsDigit, value_onto,
}
use mjpg_streamer.Resolution.{
  size_of, resolutions, lookup, decimal_digits, is_space, skip_spaces, scan_digits, scan_signed,
  scan_x, scan_size, parse_resolution_opt,
}

IsDigit-mem : (c : ℕ) → IsDigit c → mem c decimal_digits ≡ true
IsDigit-mem c (h, k) = ground arith

-- A text that no digit begins.
abbrev pub Ends : Bytes → Type 0
Ends [] = Unit
Ends (c ∷ cs) = mem c decimal_digits ≡ false

span-decimal :
    (ds rest : Bytes) → All IsDigit ds → Ends rest → span decimal_digits (ds ++ rest) ≡ ds
unfolding span
span-decimal [] [] h s = refl
span-decimal [] (c ∷ rest) h s = rw s refl
span-decimal (d ∷ ds) rest (h, k) s = rw (IsDigit-mem d h) (ap (◌∷◌ d) (span-decimal ds rest k s))

-- The first digit of a decimal text.
pub record Digits (s : Bytes) : Type 0 where
  pub first : ℕ
  pub others : Bytes
  pub splits : s ≡ first ∷ others
  pub digit : IsDigit first

pub first_of : (s : Bytes) → All IsDigit s → 0 < length s → Digits s
first_of [] h k = absurd (omega arith)
first_of (c ∷ cs) (h, t) k = record { first = c; others = cs; splits = refl; digit = h }

scan_past_first :
    (c : ℕ) (cs : Bytes) → IsDigit c → scan_signed (skip_spaces (c ∷ cs)) ≡ scan_digits pos (c ∷ cs)
unfolding scan_signed skip_spaces
scan_past_first c cs (h, k) =
    let space : is_space c ≡ false = ground arith in
    let minus_sign : (c == b'-') ≡ false = ground arith in
    let plus_sign : (c == b'+') ≡ false = ground arith in rw space (rw (minus_sign, plus_sign) refl)

scan_digits-IsDigit :
    (ds rest : Bytes)
    → All IsDigit ds
    → 0 < length ds
    → Ends rest
    → scan_digits pos (ds ++ rest) ≡ some (pos (value_onto 0 ds), rest)
unfolding scan_digits
scan_digits-IsDigit ds rest h some_digits e =
    let all_digits = span-decimal ds rest h e in
    let some_digit : (length ds == 0) ≡ false = ground arith in
    rw all_digits (rw some_digit (rw (drop-append_left ds rest) refl))

-- Digits in front of another character are read as their number.
pub scan_signed-IsDigit :
    (ds rest : Bytes)
    → All IsDigit ds
    → 0 < length ds
    → Ends rest
    → scan_signed (skip_spaces (ds ++ rest)) ≡ some (pos (value_onto 0 ds), rest)
scan_signed-IsDigit ds rest h some_digits e =
    let d = first_of ds h some_digits in
    let whole : ds ++ rest ≡ d.first ∷ (d.others ++ rest) =
      ap (λ (s : Bytes). s ++ rest) d.splits in
    ap (λ (s : Bytes). scan_signed (skip_spaces s)) whole
    ∙ scan_past_first d.first (d.others ++ rest) d.digit
    ∙ ap (scan_digits pos) (sym whole)
    ∙ scan_digits-IsDigit ds rest h some_digits e

scan_signed-decimal :
    (n : ℕ) (rest : Bytes)
    → Ends rest
    → scan_signed (skip_spaces (decimal n ++ rest)) ≡ some (pos n, rest)
scan_signed-decimal n rest e =
    scan_signed-IsDigit (decimal n) rest (decimal-IsDigit n) (decimal-some n) e
    ∙ ap (λ v. some (pos v, rest)) (decimal-value n)

-- A digit is enough to read a number.
pub scan_signed_digit : (c : ℕ) (cs : Bytes) → IsDigit c → is_some (scan_signed (c ∷ cs)) ≡ true
unfolding scan_signed scan_digits span
scan_signed_digit c cs (h, k) =
    let minus_sign : (c == b'-') ≡ false = ground arith in
    let plus_sign : (c == b'+') ≡ false = ground arith in
    let counted : (length (c ∷ span decimal_digits cs) == 0) ≡ false = ground arith in
    rw (minus_sign, plus_sign) (rw (IsDigit-mem c (h, k)) (rw counted refl))

pub skip_spaces_digit : (c : ℕ) (cs : Bytes) → IsDigit c → skip_spaces (c ∷ cs) ≡ c ∷ cs
unfolding skip_spaces
skip_spaces_digit c cs (h, k) = let space : is_space c ≡ false = ground arith in rw space refl

lookup_digit : (c : ℕ) (cs : Bytes) → IsDigit c → lookup resolutions (c ∷ cs) ≡ none
unfolding lookup
lookup_digit c cs (h, k) =
    let no_q : (b'Q' == c) ≡ false = ground arith in
    let no_c : (b'C' == c) ≡ false = ground arith in
    let no_p : (b'P' == c) ≡ false = ground arith in
    let no_v : (b'V' == c) ≡ false = ground arith in
    let no_s : (b'S' == c) ≡ false = ground arith in
    let no_x : (b'X' == c) ≡ false = ground arith in
    let no_h : (b'H' == c) ≡ false = ground arith in
    let no_u : (b'U' == c) ≡ false = ground arith in
    let no_f : (b'F' == c) ≡ false = ground arith in
    rw (no_q, no_c, no_p, no_v, no_s, no_x, no_h, no_u, no_f) refl

-- A width and a height of at most INT_MAX in decimal with an x between them are parsed as this size.
pub parse_resolution_opt-decimal :
    (beyond : ℤ → ℤ) (w h : ℕ)
    → w ≤ int_max
    → h ≤ int_max
    → parse_resolution_opt beyond (decimal w ++ b'x' ∷ decimal h) ≡ some (size_of w h)
unfolding parse_resolution_opt scan_size scan_x
parse_resolution_opt-decimal beyond w h small_w small_h =
    let d = first_of (decimal w) (decimal-IsDigit w) (decimal-some w) in
    let absent : lookup resolutions (decimal w ++ b'x' ∷ decimal h) ≡ none =
      ap (λ (s : Bytes). lookup resolutions (s ++ b'x' ∷ decimal h)) d.splits
      ∙ lookup_digit d.first (d.others ++ b'x' ∷ decimal h) d.digit in
    let wide = scan_signed-decimal w (b'x' ∷ decimal h) refl in
    let high : scan_signed (skip_spaces (decimal h)) ≡ some (pos h, []) =
      ap (λ (s : Bytes). scan_signed (skip_spaces s)) (sym (append-nil (decimal h)))
      ∙ scan_signed-decimal h [] tt in
    let w_fits = le→leb w int_max small_w in
    let h_fits = le→leb h int_max small_h in
    rw (absent, parse_resolution_opt)
      (rw (wide, scan_size) (rw (high, scan_size) (rw (w_fits, h_fits) refl)))
