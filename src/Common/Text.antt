-- ===== src/Common/Text.antt =====
-- Bytes, and the C string functions that the program calls on them. A C string is the list of its
-- bytes before the terminating zero.
use Prim.Native.Char.{code}
use Prim.Native.String.{String}
use Prim.Native.Nat.{ℕ, zero, suc, ◌+◌, ◌≤◌, ◌<◌}
use mathlib.Core.Path.{◌≡◌, refl}
use mathlib.Core.Logic.{◌≢◌}
use mathlib.Core.Logic.{◌↔◌}
use mathlib.Core.Bool.{Bool, true, false, ◌&&◌, ◌||◌}
use mathlib.Core.Option.{Option, none, some}
use mathlib.Core.List.{List, [], ◌∷◌, ◌++◌}
use native.Mathlib.Omega.{arith}
use mjpg_streamer.Common.Tests.{leb, ◌==◌, if◌then◌else◌}
use mjpg_streamer.Common.Lists.{length, get_or, All}

abbrev pub Bytes : Type 0
Bytes = List ℕ

-- The bytes of an ASCII text.
abbrev pub codes : String → Bytes
codes String.[] = []
codes (String.◌∷◌ c s) = code c ∷ codes s

-- Texts one behind the other.
abbrev pub joined : List Bytes → Bytes
joined [] = []
joined (x ∷ xs) = x ++ joined xs

-- `strcmp(a, b) == 0`
abbrev pub str_eq : Bytes → Bytes → Bool
str_eq [] [] = true
str_eq (x ∷ xs) (y ∷ ys) = x == y && str_eq xs ys
str_eq _ _ = false

pub str_eq_iff : (a b : Bytes) → (str_eq a b ≡ true) ↔ (a ≡ b)
str_eq_iff (x ∷ a) (y ∷ b) = ground (arith, str_eq_iff a b)
str_eq_iff [] _ = ground arith
str_eq_iff _ _ = ground arith

-- The needle stands at the head of the haystack.
abbrev pub starts : Bytes → Bytes → Bool
starts [] ys = true
starts (x ∷ xs) [] = false
starts (x ∷ xs) (y ∷ ys) = x == y && starts xs ys

-- `strstr(haystack, needle)`: the rest of the haystack from the first occurrence.
unfoldable pub strstr : Bytes → Bytes → Option Bytes
strstr [] needle = if starts needle [] then some [] else none
strstr (c ∷ cs) needle =
    let rest = strstr cs needle in if starts needle (c ∷ cs) then some (c ∷ cs) else rest

-- `strchr(s, c)` for c ≠ 0.
unfoldable pub strchr : Bytes → ℕ → Option Bytes
strchr [] c = none
strchr (x ∷ xs) c = let rest = strchr xs c in if x == c then some (x ∷ xs) else rest

abbrev pub mem : ℕ → Bytes → Bool
mem c [] = false
mem c (x ∷ xs) = x == c || mem c xs

-- The longest prefix over the accepted bytes; its length is `strspn(s, accept)`.
unfoldable pub span : Bytes → Bytes → Bytes
span accept [] = []
span accept (x ∷ xs) = let rest = span accept xs in if mem x accept then x ∷ rest else []

pub span-All : (accept s : Bytes) → All (λ c. mem c accept ≡ true) (span accept s)
unfolding span
span-All accept [] = tt
span-All accept (x ∷ xs) = ground (arith, span-All accept xs)

abbrev pub is_some {ℓ} : {A : Type ℓ} → Option A → Bool
is_some none = false
is_some (some _) = true

-- `strstr(haystack, needle) != NULL`
abbrev pub contains : Bytes → Bytes → Bool
contains s needle = is_some (strstr s needle)

starts_self : (xs ys : Bytes) → starts xs (xs ++ ys) ≡ true
starts_self [] ys = refl
starts_self (x ∷ xs) ys = ground (arith, starts_self xs ys)

-- A text that stands at the head occurs.
pub contains_head : (needle rest : Bytes) → contains (needle ++ rest) needle ≡ true
unfolding strstr
contains_head [] [] = refl
contains_head [] (x ∷ xs) = refl
contains_head (c ∷ cs) rest = ground (arith, starts_self cs rest)

contains-cons :
    (x : ℕ) (xs needle : Bytes) → contains (x ∷ xs) needle ≡ false → contains xs needle ≡ false
unfolding strstr
contains-cons x xs needle h = ground arith

-- What does not occur in a text does not occur behind a part of it.
pub contains-append_right :
    (xs ys needle : Bytes) → contains (xs ++ ys) needle ≡ false → contains ys needle ≡ false
contains-append_right [] ys needle h = h
contains-append_right (x ∷ xs) ys needle h =
    contains-append_right xs ys needle (contains-cons x (xs ++ ys) needle h)

-- A byte that is not among those of a text is read nowhere in it.
pub get_or-ne : (b : ℕ) (p : Bytes) (k : ℕ) → mem b p ≡ false → k < length p → get_or p k 0 ≢ b
get_or-ne b [] k h lt = absurd (omega arith)
get_or-ne b (x ∷ p) zero h lt = ground arith
get_or-ne b (x ∷ p) (suc k) h lt = get_or-ne b p k (ground arith) (omega arith)

pub get_or_end : (p : Bytes) (k : ℕ) → length p ≤ k → get_or p k 0 ≡ 0
get_or_end [] k h = refl
get_or_end (x ∷ p) zero h = absurd (omega arith)
get_or_end (x ∷ p) (suc k) h = get_or_end p k (omega arith)

pub get_or_mid : (xs : Bytes) (c : ℕ) (ys : Bytes) → get_or (xs ++ c ∷ ys) (length xs) 0 ≡ c
get_or_mid [] c ys = refl
get_or_mid (x ∷ xs) c ys = get_or_mid xs c ys

-- The C string at the head of some bytes: those before the first zero.
abbrev pub c_string : Bytes → Bytes
c_string [] = []
c_string (x ∷ xs) = let rest = c_string xs in if x == 0 then [] else x ∷ rest

abbrev pub to_lower : ℕ → ℕ
to_lower c = if leb b'A' c && leb c b'Z' then c + 32 else c

abbrev pub lowered : Bytes → Bytes
lowered [] = []
lowered (x ∷ xs) = to_lower x ∷ lowered xs

-- `strcasestr(haystack, needle) != NULL`
abbrev pub contains_caseless : Bytes → Bytes → Bool
contains_caseless s needle = contains (lowered s) (lowered needle)
