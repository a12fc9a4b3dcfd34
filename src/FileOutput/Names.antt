-- ===== src/FileOutput/Names.antt =====
-- The names of the pictures of plugins/output_file/output_file.c: what worker_thread prints with strftime and snprintf,
-- and which entries of the folder check_for_filename takes for pictures.
use mjpg_streamer.Common.{
  ℕ, zero, suc, ◌<◌, ◌≡◌, refl, ap, ◌∙◌, Bool, true, false, List, [], ◌∷◌, ◌++◌, All, length, take,
  drop, replicate, ◌-◌, Option, none, some, if◌then◌else◌, arith,
}
use mjpg_streamer.Common.Int.{ℤ}
use mjpg_streamer.Common.Text.{Bytes, codes, starts, is_some}
use mjpg_streamer.Httpd.Print.{
  decimal, decimal_padded, decimal-IsDigit, decimal-some, decimal_padded-IsDigit, IsDigit,
}
use mjpg_streamer.Resolution.{skip_spaces, scan_signed}
use mjpg_streamer.Resolution.Sizes.{scan_signed-IsDigit, scan_signed_digit, skip_spaces_digit}

-- The fields of the local time, as strftime prints them.
pub record LocalTime : Type 0 where
  pub year : ℕ
  pub month : ℕ
  pub day : ℕ
  pub hour : ℕ
  pub minute : ℕ
  pub second : ℕ

-- "%Y_%m_%d_%H_%M_%S_"
abbrev pub fields_of : LocalTime → List Bytes
fields_of t =
    decimal t.year
    ∷ decimal_padded 2 t.month
    ∷ decimal_padded 2 t.day
    ∷ decimal_padded 2 t.hour
    ∷ decimal_padded 2 t.minute
    ∷ decimal_padded 2 t.second
    ∷ []

-- The fields, each with a line under it, in front of `rest`.
unfoldable pub underlined : List Bytes → Bytes → Bytes
underlined [] rest = rest
underlined (field ∷ fields) rest = field ++ b'_' ∷ underlined fields rest

-- "%Y_%m_%d_%H_%M_%S_picture_%09llu.jpg", the last part as `rest`.
unfoldable pub stamped_name : LocalTime → ℕ → Bytes → Bytes
unfolding underlined
stamped_name t counter rest =
    underlined (fields_of t) (codes "picture_" ++ decimal_padded 9 counter ++ rest)

-- A word of the format.
unfoldable pub scan_word : Bytes → Bytes → Option Bytes
scan_word word s = if starts word s then some (drop (length word) s) else none

-- The word after what a conversion has read.
unfoldable pub word_after : Bytes → Option (ℤ × Bytes) → Option Bytes
unfolding scan_word
word_after word none = none
word_after word (some (v, rest)) = scan_word word rest

-- "%d_", that many times.
unfoldable pub scan_fields : ℕ → Option Bytes → Option Bytes
unfolding word_after scan_signed skip_spaces
scan_fields zero o = o
scan_fields (suc n) none = none
scan_fields (suc n) (some s) = scan_fields n (word_after (codes "_") (scan_signed (skip_spaces s)))

-- "%09llu", of nine characters at most: whether there is a number.
unfoldable pub scan_counter : Option Bytes → Bool
unfolding scan_signed skip_spaces
scan_counter none = false
scan_counter (some s) = is_some (scan_signed (take 9 (skip_spaces s)))

-- rc == 7. What stands behind the seventh number no longer counts.
unfoldable pub check_for_filename : Bytes → Bool
unfolding scan_fields scan_word scan_counter
check_for_filename d_name =
    scan_counter (elim (scan_fields 6 (some d_name)) as (λ _. Option Bytes) [
      | none ↦ none
      | some s ↦ scan_word (codes "picture_") s
    ])

-- A field that sprintf can print.
abbrev Field : Bytes → Type 0
Field s = All IsDigit s × (0 < length s)

padded-Field : (w n : ℕ) → Field (decimal_padded w n)
unfolding decimal_padded
padded-Field w n =
    (decimal_padded-IsDigit w n, longer (w - length (decimal n)) (decimal n) (decimal-some n))
  where
    longer : (k : ℕ) (s : Bytes) → 0 < length s → 0 < length (replicate k 48 ++ s)
    longer zero s h = h
    longer (suc k) s h = omega arith

fields_of-Field : (t : LocalTime) → All Field (fields_of t)
fields_of-Field t = (
  (decimal-IsDigit t.year, decimal-some t.year),
  (
    padded-Field 2 t.month,
    (
      padded-Field 2 t.day,
      (padded-Field 2 t.hour, (padded-Field 2 t.minute, (padded-Field 2 t.second, tt))),
    ),
  ),
)

scan_fields-underlined :
    (fields : List Bytes) (rest : Bytes)
    → All Field fields
    → scan_fields (length fields) (some (underlined fields rest)) ≡ some rest
unfolding scan_fields underlined word_after scan_word
scan_fields-underlined [] rest h = refl
scan_fields-underlined (field ∷ fields) rest ((digits, some_digits), h) =
    ap (λ o. scan_fields (length fields) (word_after (codes "_") o))
      (scan_signed-IsDigit field (b'_' ∷ underlined fields rest) digits some_digits refl)
    ∙ scan_fields-underlined fields rest h

scan_counter-Field : (s rest : Bytes) → Field s → scan_counter (some (s ++ rest)) ≡ true
unfolding scan_counter
scan_counter-Field [] rest (h, k) = absurd (omega arith)
scan_counter-Field (c ∷ cs) rest ((h, t), k) =
    rw (skip_spaces_digit c (cs ++ rest) h) (scan_signed_digit c (take 8 (cs ++ rest)) h)

-- Every picture that the worker thread writes is taken for a picture when the folder is cleaned up, whatever the time
-- and the counter; and so is every file whose name begins like one, whatever its extension is.
pub check_for_filename-stamped_name :
    (t : LocalTime) (counter : ℕ) (extension : Bytes)
    → check_for_filename (stamped_name t counter extension) ≡ true
unfolding check_for_filename stamped_name scan_word
check_for_filename-stamped_name t counter extension =
    let number = decimal_padded 9 counter ++ extension in
    rw (scan_fields-underlined (fields_of t) (codes "picture_" ++ number) (fields_of-Field t))
      (scan_counter-Field (decimal_padded 9 counter) extension (padded-Field 9 counter))
