-- ===== src/Httpd/Command/Laws.antt =====
-- Numbers in a command, and the plugins that it reaches.
use mjpg_streamer.Common.{
  ℕ, zero, suc, ◌≡◌, refl, ap, ◌∙◌, subst, Bool, true, false, [], ◌∷◌, ◌++◌, some, some-injective,
  length, drop, min, if◌then◌else◌, ◌==◌, ◌||◌, leb, arith, Bool-cases, Option-cases, inl, inr, All,
}
use mjpg_streamer.Common.Int.{ℤ, pos, negsuc, ltb_ℤ}
use mjpg_streamer.Common.Text.{Bytes, codes, strstr, span, mem, starts}
use mjpg_streamer.Httpd.Print.{decimal, decimal-value, decimal-IsDigit, IsDigit, value_onto}
use mjpg_streamer.Httpd.Command.{
  digit_bytes, number_bytes, int_max, negated, strtol, clamp_int, number_at, signed_decimal,
  clamp_int, int_after, Arguments, Call, call_input, call_output, no_call, dispatch_command,
  parse_command, command,
}

IsDigit-mem : (c : ℕ) → IsDigit c → mem c digit_bytes ≡ true
IsDigit-mem c (h, k) = ground arith

IsDigit-number : (c : ℕ) → IsDigit c → mem c number_bytes ≡ true
IsDigit-number c (h, k) = ground arith

-- What does not go on with a number.
abbrev pub Stops : Bytes → Type 0
Stops [] = Unit
Stops (c ∷ cs) = mem c number_bytes ≡ false

span_digits : (ds : Bytes) → All IsDigit ds → span digit_bytes ds ≡ ds
unfolding span
span_digits [] h = refl
span_digits (d ∷ ds) (h, k) = rw (IsDigit-mem d h) (ap (◌∷◌ d) (span_digits ds k))

span_number : (ds rest : Bytes) → All IsDigit ds → Stops rest → span number_bytes (ds ++ rest) ≡ ds
unfolding span
span_number [] [] h s = refl
span_number [] (c ∷ rest) h s = rw s refl
span_number (d ∷ ds) rest (h, k) s = rw (IsDigit-number d h) (ap (◌∷◌ d) (span_number ds rest k s))

strtol_digits : (ds : Bytes) → All IsDigit ds → strtol ds ≡ pos (value_onto 0 ds)
unfolding strtol
strtol_digits [] h = refl
strtol_digits (d ∷ ds) (h, k) =
    let other : (d == b'-') ≡ false = ground arith in
    rw other (ap (λ (xs : Bytes). pos (value_onto 0 xs)) (span_digits (d ∷ ds) (h, k)))

-- A number that is printed and sent as a parameter arrives, up to the largest int, which stands for all above.
number_at-decimal :
    (n : ℕ) (rest : Bytes) → Stops rest → number_at (decimal n ++ rest) ≡ pos (min n int_max)
unfolding number_at
number_at-decimal n rest s =
    let digits = decimal-IsDigit n in
    ap clamp_int (
      ap strtol (span_number (decimal n) rest digits s)
      ∙ strtol_digits (decimal n) digits
      ∙ ap pos (decimal-value n))

-- With a minus sign, down to the smallest int.
number_at-negative :
    (n : ℕ) (rest : Bytes)
    → Stops rest
    → number_at (b'-' ∷ decimal (suc n) ++ rest) ≡ negsuc (min n int_max)
unfolding number_at span strtol
number_at-negative n rest s =
    let digits = decimal-IsDigit (suc n) in
    let text : span number_bytes (b'-' ∷ decimal (suc n) ++ rest) ≡ b'-' ∷ decimal (suc n) =
      ap (◌∷◌ b'-') (span_number (decimal (suc n)) rest digits s) in
    let value : value_onto 0 (span digit_bytes (decimal (suc n))) ≡ suc n =
      ap (value_onto 0) (span_digits (decimal (suc n)) digits) ∙ decimal-value (suc n) in
    ap (λ (xs : Bytes). clamp_int (strtol xs)) text ∙ ap (λ (m : ℕ). clamp_int (negated m)) value

-- An integer that is printed and sent as a parameter arrives, from the smallest int to the largest; one that lies
-- beyond arrives as the nearer of the two.
pub number_at-signed_decimal :
    (z : ℤ) (rest : Bytes) → Stops rest → number_at (signed_decimal z ++ rest) ≡ clamp_int z
number_at-signed_decimal (pos n) rest s = number_at-decimal n rest s
number_at-signed_decimal (negsuc n) rest s = number_at-negative n rest s

mem-starts :
    (c : ℕ) (s needle rest : Bytes)
    → strstr s needle ≡ some rest
    → mem c s ≡ false
    → mem c rest ≡ false
unfolding strstr
mem-starts c [] needle rest e h = elim (Bool-cases (starts needle [])) [
  | inl hit ↦ subst (λ (r : Bytes). mem c r ≡ false) (some-injective [] rest (rw hit at e)) refl
  | inr miss ↦ cc (rw miss at e)
]
mem-starts c (x ∷ s) needle rest e h = elim (Bool-cases (starts needle (x ∷ s))) [
  | inl hit ↦ subst (λ (r : Bytes). mem c r ≡ false) (some-injective (x ∷ s) rest (rw hit at e)) h
  | inr miss ↦ mem-starts c s needle rest (rw miss at e) (ground arith)
]

mem-drop : (c k : ℕ) (s : Bytes) → mem c s ≡ false → mem c (drop k s) ≡ false
mem-drop c zero s h = h
mem-drop c (suc k) [] h = refl
mem-drop c (suc k) (x ∷ s) h = mem-drop c k s (ground arith)

mem-span : (c : ℕ) (accept s : Bytes) → mem c s ≡ false → mem c (span accept s) ≡ false
unfolding span
mem-span c accept [] h = refl
mem-span c accept (x ∷ s) h = ground (arith, mem-span c accept s)

-- Not negative.
abbrev pub Natural : ℤ → Type 0
Natural (pos n) = Unit
Natural (negsuc n) = ⊥

strtol-Natural : (s : Bytes) → mem b'-' s ≡ false → Natural (clamp_int (strtol s))
unfolding strtol
strtol-Natural [] h = tt
strtol-Natural (c ∷ s) h = let other : (c == b'-') ≡ false = ground arith in rw (other, Natural) tt

int_after-Natural :
    (parameter key : Bytes) (d : ℕ)
    → mem b'-' parameter ≡ false
    → Natural (int_after parameter key (pos d))
unfolding int_after number_at
int_after-Natural parameter key d h = elim (Option-cases (strstr parameter key)) [
  | inl absent ↦ rw (absent, int_after, Natural) tt
  | inr (rest, found) ↦
      rw (found, int_after, Natural)
        (strtol-Natural (span number_bytes (drop (length key) rest)) (
          mem-span b'-' number_bytes _
            (mem-drop b'-' (length key) rest (mem-starts b'-' parameter key rest found h))))
]

-- The plugin of a call is loaded.
abbrev pub Loaded : ℕ → ℕ → Call → Type 0
Loaded incnt outcnt (call_input a) = Natural a.plugin_no × (ltb_ℤ a.plugin_no (pos incnt) ≡ true)
Loaded incnt outcnt (call_output a) = Natural a.plugin_no × (ltb_ℤ a.plugin_no (pos outcnt) ≡ true)
Loaded incnt outcnt no_call = Unit

if-Loaded :
    (incnt outcnt : ℕ) (c : Bool) (x y : Call)
    → (c ≡ true → Loaded incnt outcnt x)
    → Loaded incnt outcnt y
    → Loaded incnt outcnt (if c then x else y)
if-Loaded incnt outcnt true x y h k = h refl
if-Loaded incnt outcnt false x y h k = k

dispatch-Loaded :
    (incnt outcnt : ℕ) (dest : ℤ) (a : Arguments)
    → Natural a.plugin_no
    → Loaded incnt outcnt (dispatch_command incnt outcnt dest a)
unfolding dispatch_command
dispatch-Loaded incnt outcnt (negsuc d) a h = tt
dispatch-Loaded incnt outcnt (pos d) a h =
    if-Loaded incnt outcnt (d == 0) _ _
      (λ _. if-Loaded incnt outcnt _ (call_input a) no_call (λ fits. (h, fits)) tt)
      (if-Loaded incnt outcnt (d == 1) _ _
        (λ _. if-Loaded incnt outcnt _ (call_output a) no_call (λ fits. (h, fits)) tt) tt)

-- The call that a command makes.
abbrev pub call_of : Call × Bytes → Call
call_of (call, answer) = call

-- A command without a minus sign calls a plugin that is loaded, if it calls one.
pub command-Loaded :
    (in_cmd out_cmd : Arguments → ℤ) (incnt outcnt : ℕ) (parameter : Bytes)
    → mem b'-' parameter ≡ false
    → Loaded incnt outcnt (call_of (command in_cmd out_cmd incnt outcnt parameter))
unfolding command parse_command
command-Loaded in_cmd out_cmd incnt outcnt parameter h =
    elim (Bool-cases (leb 255 (length parameter) || length parameter == 0)) [
      | inl bad ↦ rw bad tt
      | inr good ↦ elim (Option-cases (strstr parameter (codes "id="))) [
        | inl absent ↦ rw (good, absent, parse_command) tt
        | inr (rest, found) ↦
            rw (good, found, parse_command)
              (dispatch-Loaded incnt outcnt _ _ (int_after-Natural parameter (codes "plugin=") 0 h))
      ]
    ]
