-- ===== src/Main/Arguments.antt =====
-- Where the arguments of a plugin are stored.
use mjpg_streamer.Common.{
  ℕ, zero, suc, ◌==◌, replicate, All, both_false, ◌+◌, ◌≤◌, ◌<◌, ◌≡◌, refl, sym, ap, ◌∙◌, true,
  false, List, [], ◌∷◌, ◌++◌, map, Option, none, some, length, set, take, leb, arith, Bool-cases,
  inl, inr, take-suc-set, append-nil, append_assoc, length-set,
}
use mjpg_streamer.Common.Text.{Bytes, mem}
use mjpg_streamer.Main.{
  max_plugin_arguments, tokens, Argv, Split, split_loop, split_first, split_parameters,
}

-- What a call leaves: the arguments in order with their number, or, with too many, an error and a full table.
pub record Fills (argv : Argv) (count : ℕ) (args : List Bytes) (s : Split) : Type 0 where
  pub fits :
      count + length args < max_plugin_arguments
      → (s.ok ≡ true)
        × (s.argc ≡ some (count + length args))
        × (take (count + length args) s.argv ≡ take count argv ++ map some args)
  pub full :
      max_plugin_arguments ≤ count + length args
      → 0 < length args
      → (s.ok ≡ false) × (s.argc ≡ none)

split_loop-Fills :
    (count : ℕ) (argv : Argv) (args : List Bytes)
    → count < max_plugin_arguments
    → length argv ≡ max_plugin_arguments
    → Fills argv count args (split_loop count argv args)
unfolding split_loop
split_loop-Fills count argv [] h l = record {
  fits = λ lt. (
    refl,
    ap some (omega arith),
    ap (λ (n : ℕ). take n argv) {x = count + 0} (omega arith) ∙ sym (append-nil (take count argv)),
  );
  full = λ le lt. absurd (omega arith);
}
split_loop-Fills count argv (arg ∷ args) h l =
    elim (Bool-cases (leb max_plugin_arguments (suc count))) [
      | inl stop ↦
          rw stop (record { fits = λ lt. absurd (ground arith); full = λ le lt. (refl, refl) })
      | inr more ↦
          let ih =
            split_loop-Fills (suc count) (set argv count (some arg)) args (ground arith)
              (length-set argv count (some arg) ∙ l) in
          let same : suc count + length args ≡ count + suc (length args) = omega arith in
          rw more (record {
            fits = λ lt.
                let (ok, argc, table) = ih.fits (omega arith) in
                (
                  ok,
                  argc ∙ ap some same,
                  ap
                        (λ (n : ℕ).
                          take n (split_loop (suc count) (set argv count (some arg)) args).argv)
                        (sym same)
                      ∙ table
                      ∙ (ap (λ (xs : Argv). xs ++ map some args)
                            (take-suc-set argv count (some arg) (omega arith))
                          ∙ append_assoc (take count argv) (some arg ∷ []) (map some args)),
                );
            full = λ le lt.
                let small : suc count < 32 = ground arith in ih.full (omega arith) (omega arith);
          })
    ]

-- A word is not empty and has no space.
abbrev pub IsWord : Bytes → Type 0
IsWord w = (0 < length w) × (mem b' ' w ≡ false)

abbrev spaces : ℕ → Bytes
spaces n = replicate n b' '

-- Words, each behind as many spaces and one, and the spaces at the end.
abbrev spaced : List (ℕ × Bytes) → ℕ → Bytes
spaced [] end = spaces end
spaced ((n, w) ∷ rest) end = spaces (suc n) ++ (w ++ spaced rest end)

-- How a parameter string can be made: none, without a space, of spaces only, or of words with spaces in front of the
-- first, between them and at the end.
pub data Made : Type 0 where
  absent : Made
  alone : Bytes → Made
  blank : ℕ → Made
  listed : ℕ → Bytes → List (ℕ × Bytes) → ℕ → Made

abbrev pub text_of : Made → Option Bytes
text_of absent = none
text_of (alone s) = some s
text_of (blank n) = some (spaces (suc n))
text_of (listed lead first rest end) = some (spaces lead ++ (first ++ spaced rest end))

-- The arguments that are meant. A string without a space holds the name only.
abbrev pub arguments_of : Made → List Bytes
arguments_of (listed lead first rest end) = first ∷ map (λ p. p.1) rest
arguments_of _ = []

abbrev pub IsMade : Made → Type 0
IsMade (alone s) = mem b' ' s ≡ false
IsMade (listed lead first rest end) =
    IsWord first
    × All (λ p. IsWord p.1) rest
    × (mem b' ' (spaces lead ++ (first ++ spaced rest end)) ≡ true)
IsMade _ = Unit

tokens-spaces : (n : ℕ) (s : Bytes) → tokens [] (spaces n ++ s) ≡ tokens [] s
unfolding tokens
tokens-spaces zero s = refl
tokens-spaces (suc n) s = tokens-spaces n s

tokens-word :
    (token w s : Bytes) → mem b' ' w ≡ false → tokens token (w ++ s) ≡ tokens (token ++ w) s
unfolding tokens
tokens-word token [] s h = ap (λ t. tokens t s) (sym (append-nil token))
tokens-word token (c ∷ w) s h =
    let (other, rest) = both_false _ (mem b' ' w) h in
    let no_space : (c == b' ') ≡ false = ground arith in
    rw no_space (tokens-word (token ++ c ∷ []) w s rest)
    ∙ ap (λ t. tokens t s) (append_assoc token (c ∷ []) w)

tokens-spaced :
    (token : Bytes) (rest : List (ℕ × Bytes)) (end : ℕ)
    → 0 < length token
    → All (λ p. IsWord p.1) rest
    → tokens token (spaced rest end) ≡ token ∷ map (λ p. p.1) rest
unfolding tokens
tokens-spaced token [] zero h k =
    let some_letter : (length token == 0) ≡ false = ground arith in rw some_letter refl
tokens-spaced token [] (suc end) h k =
    let some_letter : (length token == 0) ≡ false = ground arith in
    rw some_letter (
      ap (λ ts. token ∷ ts) (ap (tokens []) (sym (append-nil (spaces end))) ∙ tokens-spaces end []))
tokens-spaced token ((n, w) ∷ rest) end h ((letters, single), k) =
    let some_letter : (length token == 0) ≡ false = ground arith in
    rw some_letter (
      ap (λ ts. token ∷ ts)
        (tokens-spaces n (w ++ spaced rest end)
          ∙ tokens-word [] w (spaced rest end) single
          ∙ tokens-spaced w rest end letters k))

first-Fills :
    (argv : Argv) (args : List Bytes)
    → length argv ≡ max_plugin_arguments
    → Fills argv 1 args (split_first argv args)
unfolding split_first split_loop
first-Fills argv [] l = split_loop-Fills 1 argv [] (omega arith) l
first-Fills argv (arg ∷ args) l = split_loop-Fills 1 argv (arg ∷ args) (omega arith) l

-- With a table of MAX_PLUGIN_ARGUMENTS pointers: a parameter string that is made of at most 30 words, with any spaces
-- around them, is split into exactly these, in order, behind an empty entry for the name; one with more is refused, and
-- argc is not set. A string without a space, or of spaces only, gives no arguments.
pub split_parameters-words :
    (m : Made) (argv : Argv)
    → IsMade m
    → length argv ≡ max_plugin_arguments
    → Fills (set argv 0 none) 1 (arguments_of m) (split_parameters (text_of m) argv)
unfolding split_parameters split_first
split_parameters-words absent argv h l =
    first-Fills (set argv 0 none) [] (length-set argv 0 none ∙ l)
split_parameters-words (alone s) argv h l =
    rw h (first-Fills (set argv 0 none) [] (length-set argv 0 none ∙ l))
split_parameters-words (blank n) argv h l =
    rw (ap (tokens []) (sym (append-nil (spaces (suc n)))) ∙ tokens-spaces (suc n) [])
      (first-Fills (set argv 0 none) [] (length-set argv 0 none ∙ l))
split_parameters-words (listed lead first rest end) argv ((letters, single), words, spaced_out) l =
    let split : tokens [] (spaces lead ++ (first ++ spaced rest end))
        ≡ first ∷ map (λ p. p.1) rest =
      tokens-spaces lead (first ++ spaced rest end)
      ∙ tokens-word [] first (spaced rest end) single
      ∙ tokens-spaced first rest end letters words in
    rw (spaced_out, split)
      (first-Fills (set argv 0 none) (first ∷ map (λ p. p.1) rest) (length-set argv 0 none ∙ l))
