-- ===== src/Httpd/Json/Grammar.antt =====
-- The grammar of JSON (RFC 8259), as far as the documents use it: strings without escapes, integers, objects, arrays and
-- white space. A relation holds of an input and what remains of it behind the part that is named.
use mjpg_streamer.Common.{ℕ, suc, ◌≤◌, ◌<◌, length, ◌≢◌, List, [], ◌∷◌, ◌++◌, All, arith}
use mjpg_streamer.Common.Text.{Bytes}
use mjpg_streamer.Common.Int.{ℤ, pos, negsuc}
use mjpg_streamer.Httpd.Command.{signed_decimal}
use mjpg_streamer.Httpd.Print.{IsDigit, decimal, decimal-IsDigit}
use mjpg_streamer.Httpd.Json.{Field, field, fields, joined, line_if}

-- A character of a string that needs no escape.
abbrev pub Plain : ℕ → Type 0
Plain c = (32 ≤ c) × (c ≢ 34) × (c ≢ 92)

-- Space and line feed.
pub data Blank : ℕ → Type 0 where
  space : Blank 32
  line_feed : Blank 10

-- A string, behind its first quote.
pub data Text : Bytes → Bytes → Type 0 where
  quote : {r : Bytes} → Text (34 ∷ r) r
  char : {c : ℕ} {i r : Bytes} → Plain c → Text i r → Text (c ∷ i) r

-- Digits.
pub data Digits : Bytes → Bytes → Type 0 where
  last : {c : ℕ} {r : Bytes} → IsDigit c → Digits (c ∷ r) r
  digit : {c : ℕ} {i r : Bytes} → IsDigit c → Digits i r → Digits (c ∷ i) r

-- The parts of a document: a value, the members of an object from one on, what is behind a member, what is behind an
-- opening bracket, and what is behind an element.
pub data Part : Type 0 where
  a_value members more_members elements more_elements : Part

pub data Reads : Part → Bytes → Bytes → Type 0 where
  blank : {p : Part} {c : ℕ} {i r : Bytes} → Blank c → Reads p i r → Reads p (c ∷ i) r
  string : {i r : Bytes} → Text i r → Reads a_value (34 ∷ i) r
  number : {i r : Bytes} → Digits i r → Reads a_value i r
  negative : {i r : Bytes} → Digits i r → Reads a_value (45 ∷ i) r
  object : {i r : Bytes} → Reads members i r → Reads a_value (123 ∷ i) r
  array : {i r : Bytes} → Reads elements i r → Reads a_value (91 ∷ i) r
  member :
      {i j k r : Bytes}
      → Text i (58 ∷ j)
      → Reads a_value j k
      → Reads more_members k r
      → Reads members (34 ∷ i) r
  members_end : {r : Bytes} → Reads more_members (125 ∷ r) r
  next_member : {i r : Bytes} → Reads members i r → Reads more_members (44 ∷ i) r
  no_elements : {r : Bytes} → Reads elements (93 ∷ r) r
  element : {i j r : Bytes} → Reads a_value i j → Reads more_elements j r → Reads elements i r
  elements_end : {r : Bytes} → Reads more_elements (93 ∷ r) r
  next_element :
      {i j r : Bytes} → Reads a_value i j → Reads more_elements j r → Reads more_elements (44 ∷ i) r

pub Text-Plain : (s : Bytes) {r : Bytes} → All Plain s → Text (s ++ 34 ∷ r) r
Text-Plain [] h = quote
Text-Plain (c ∷ s) (h, t) = char h (Text-Plain s t)

abbrev pub PlainField : Field → Type 0
PlainField (key, value) = All Plain key × All Plain value

-- What stands behind a comma may hold white space first.
blanks : (s : Bytes) {p : Part} {i r : Bytes} → All Blank s → Reads p i r → Reads p (s ++ i) r
blanks [] h reads = reads
blanks (c ∷ s) (h, t) reads = blank h (blanks s t reads)

pub field_members :
    (f : Field) {i r : Bytes} → PlainField f → Reads more_members i r → Reads members (field f i) r
field_members (key, value) (k, v) more =
    member (Text-Plain key k) (blank space (string (Text-Plain value v))) more

fields_members :
    (gap : Bytes) (f : Field) (fs : List Field) {i r : Bytes}
    → All Blank gap
    → PlainField f
    → All PlainField fs
    → Reads more_members i r
    → Reads members (fields (44 ∷ gap) (f ∷ fs) i) r
fields_members gap f [] b h hs more = field_members f h more
fields_members gap f (g ∷ fs) b h (hg, hs) more =
    field_members f h (next_member (blanks gap b (fields_members gap g fs b hg hs more)))

pub some_members :
    (gap : Bytes) (fs : List Field) {i r : Bytes}
    → 0 < length fs
    → All Blank gap
    → All PlainField fs
    → Reads more_members i r
    → Reads members (fields (44 ∷ gap) fs i) r
some_members gap [] nonempty b h more = absurd (omega arith)
some_members gap (f ∷ fs) nonempty b (h, hs) more = fields_members gap f fs b h hs more

-- A value, whatever follows it.
abbrev pub IsValue : (Bytes → Bytes) → Type 0
IsValue text = (rest : Bytes) → Reads a_value (text rest) rest

-- A text that may stand between two elements.
abbrev pub Separates : Bytes → Type 0
Separates between =
    (i j r : Bytes)
    → Reads a_value i j
    → Reads more_elements j r
    → Reads more_elements (between ++ i) r

pub comma-Separates : (gap : Bytes) → All Blank gap → Separates (44 ∷ gap)
comma-Separates gap b i j r reads more = next_element (blanks gap b reads) more

module _ {A : Type 0} (between : Bytes) (text : A → Bytes → Bytes) where
  joined_value :
      (x : A) (xs : List A) {i r : Bytes}
      → Separates between
      → All (λ y. IsValue (text y)) (x ∷ xs)
      → Reads more_elements i r
      → (j : Bytes) × Reads a_value (joined between text (x ∷ xs) i) j × Reads more_elements j r
  joined_value x [] {i = i} sep (h, hs) more = (i, h i, more)
  joined_value x (y ∷ xs) {i = i} {r = r} sep (h, hs) more =
      let (j, reads, rest) = joined_value y xs sep hs more in
      (_, h _, sep (joined between text (y ∷ xs) i) j r reads rest)

  -- The elements that a list of values gives.
  pub joined_elements :
      (xs : List A) {i r : Bytes}
      → Separates between
      → All (λ y. IsValue (text y)) xs
      → Reads elements i r
      → Reads more_elements i r
      → Reads elements (joined between text xs i) r
  joined_elements [] sep h nothing more = nothing
  joined_elements (x ∷ xs) sep h nothing more =
      let (j, reads, rest) = joined_value x xs sep h more in element reads rest

  -- The same with a line end behind the last.
  pub joined_lines :
      (xs : List A) {i r : Bytes}
      → Separates between
      → All (λ y. IsValue (text y)) xs
      → Reads elements i r
      → Reads more_elements i r
      → Reads elements (joined between text xs (line_if xs i)) r
  joined_lines [] sep h nothing more = nothing
  joined_lines (x ∷ xs) sep h nothing more =
      joined_elements (x ∷ xs) sep h (blank line_feed nothing) (blank line_feed more)

-- Decimal texts.
IsDigit-Plain : (s : Bytes) → All IsDigit s → All Plain s
IsDigit-Plain [] h = tt
IsDigit-Plain (c ∷ s) ((low, high), t) =
    ((omega arith, (λ e. omega arith), (λ e. omega arith)), IsDigit-Plain s t)

pub signed_decimal-Plain : (z : ℤ) → All Plain (signed_decimal z)
signed_decimal-Plain (pos n) = IsDigit-Plain (decimal n) (decimal-IsDigit n)
signed_decimal-Plain (negsuc n) = (
  (omega arith, (λ e. omega arith), (λ e. omega arith)),
  IsDigit-Plain (decimal (suc n)) (decimal-IsDigit (suc n)),
)
