-- ===== src/Resolution.antt =====
-- utils.c: parse_resolution_opt. sscanf with "%dx%d" is written out: spaces, a sign, at least one digit;
-- what is stored for a number beyond an int, which C leaves undefined, is a parameter.
pub mod Sizes
use mjpg_streamer.Common.{
  ℕ, zero, suc, Bool, ◌&&◌, ◌||◌, List, [], ◌∷◌, Option, none, some, length, drop, leb, ◌==◌,
  if◌then◌else◌,
}
use mjpg_streamer.Common.Int.{ℤ, pos, negsuc}
use mjpg_streamer.Common.Text.{Bytes, codes, str_eq, span}
use mjpg_streamer.Httpd.Command.{int_max}
use mjpg_streamer.Httpd.Print.{value_onto}

-- A width and a height.
pub record Size : Type 0 where
  pub width : ℤ
  pub height : ℤ

abbrev pub size_of : ℕ → ℕ → Size
size_of w h = record { width = pos w; height = pos h }

abbrev pub resolutions : List (Bytes × Size)
resolutions =
    (codes "QQVGA", size_of 160 120)
    ∷ (codes "QCIF", size_of 176 144)
    ∷ (codes "CGA", size_of 320 200)
    ∷ (codes "QVGA", size_of 320 240)
    ∷ (codes "CIF", size_of 352 288)
    ∷ (codes "PAL", size_of 720 576)
    ∷ (codes "VGA", size_of 640 480)
    ∷ (codes "SVGA", size_of 800 600)
    ∷ (codes "XGA", size_of 1024 768)
    ∷ (codes "HD", size_of 1280 720)
    ∷ (codes "SXGA", size_of 1280 1024)
    ∷ (codes "UXGA", size_of 1600 1200)
    ∷ (codes "FHD", size_of 1920 1280)
    ∷ []

-- The loop over the table.
unfoldable pub lookup : List (Bytes × Size) → Bytes → Option Size
lookup [] text = none
lookup ((name, size) ∷ rest) text =
    let later = lookup rest text in if str_eq name text then some size else later

abbrev pub decimal_digits : Bytes
decimal_digits = codes "0123456789"

abbrev pub is_space : ℕ → Bool
is_space c = c == 32 || (leb 9 c && leb c 13)

unfoldable pub skip_spaces : Bytes → Bytes
skip_spaces [] = []
skip_spaces (c ∷ cs) = let rest = skip_spaces cs in if is_space c then rest else c ∷ cs

abbrev pub minus : ℕ → ℤ
minus zero = pos 0
minus (suc n) = negsuc n

-- The digits at the head, as a number, and what follows them.
unfoldable pub scan_digits : (ℕ → ℤ) → Bytes → Option (ℤ × Bytes)
scan_digits sign s =
    let ds = span decimal_digits s in
    if length ds == 0 then none else some (sign (value_onto 0 ds), drop (length ds) s)

-- %d
unfoldable pub scan_signed : Bytes → Option (ℤ × Bytes)
scan_signed [] = none
scan_signed (c ∷ cs) =
    if c == b'-'
    then scan_digits minus cs
    else if c == b'+'
    then scan_digits pos cs
    else scan_digits pos (c ∷ cs)

-- The x between the numbers.
unfoldable pub scan_x : Bytes → Option Bytes
scan_x [] = none
scan_x (c ∷ cs) = if c == b'x' then some cs else none

infixl 15 ◌>>=◌
abbrev ◌>>=◌ {ℓ κ} : {A : Type ℓ} {B : Type κ} → Option A → (A → Option B) → Option B
none >>= f = none
some a >>= f = f a

-- What "%d" stores.
abbrev pub stored : (ℤ → ℤ) → ℤ → ℤ
stored beyond (pos n) = if leb n int_max then pos n else beyond (pos n)
stored beyond (negsuc n) = if leb n int_max then negsuc n else beyond (negsuc n)

unfoldable pub scan_size : (ℤ → ℤ) → Bytes → Option Size
scan_size beyond text = do
  (w, rest) ← scan_signed (skip_spaces text)
  behind ← scan_x rest
  (h, _) ← scan_signed (skip_spaces behind)
  some (record { width = stored beyond w; height = stored beyond h })

-- `none` is the exit of the program.
unfoldable pub parse_resolution_opt : (ℤ → ℤ) → Bytes → Option Size
parse_resolution_opt beyond optarg = elim (lookup resolutions optarg) [
  | none ↦ scan_size beyond optarg
  | some size ↦ some size
]
