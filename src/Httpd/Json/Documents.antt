-- ===== src/Httpd/Json/Documents.antt =====
-- The parts of the documents are JSON values.
use mjpg_streamer.Common.{
  ℕ, ◌+◌, ◌<◌, ◌≡◌, refl, inl, inr, Bool, true, false, Bool-cases, both_true, List, [], ◌∷◌, ◌++◌,
  All, length, if◌then◌else◌, arith,
}
use mjpg_streamer.Common.Int.{ℤ, pos}
use mjpg_streamer.Common.Text.{Bytes, codes}
use mjpg_streamer.Httpd.Command.{signed_decimal}
use mjpg_streamer.Httpd.Json.{
  InputFormat, field, truth, size_fields, is_some_size, has_current, format_text, has_sizes,
}
use mjpg_streamer.Httpd.Json.Grammar.{
  Plain, space, line_feed, Reads, more_members, blank, object, member, members_end, next_member,
  Text-Plain, PlainField, field_members, some_members, IsValue, signed_decimal-Plain,
}
use mjpg_streamer.Httpd.Json.Controls.{is_plain-Plain, named, one_line}

-- Formats.
truth-Plain : (b : Bool) → All Plain (truth b)
truth-Plain true = is_plain-Plain (codes "true") refl
truth-Plain false = is_plain-Plain (codes "false") refl

append-Plain : (s t : Bytes) → All Plain s → All Plain t → All Plain (s ++ t)
append-Plain [] t h k = k
append-Plain (c ∷ s) t (h, hs) k = (h, append-Plain s t hs k)

size_fields_plain : (j : ℕ) (sizes : List (ℤ × ℤ)) → All PlainField (size_fields j sizes)
size_fields_plain j [] = tt
size_fields_plain j ((w, h) ∷ sizes) = (
  (
    signed_decimal-Plain (pos j),
    append-Plain (signed_decimal w) (codes "x" ++ signed_decimal h) (signed_decimal-Plain w) (
        append-Plain (codes "x") (signed_decimal h) (is_plain-Plain (codes "x") refl)
          (signed_decimal-Plain h)),
  ),
  size_fields_plain (j + 1) sizes,
)

size_fields-some :
    (j : ℕ) (sizes : List (ℤ × ℤ)) → is_some_size sizes ≡ true → 0 < length (size_fields j sizes)
size_fields-some j [] e = absurd cc
size_fields-some j (x ∷ sizes) e = omega arith

-- What is behind the resolutions.
current_end :
    (f : InputFormat) (rest : Bytes)
    → Reads more_members
        (if has_current f
          then codes ",\n"
            ++ field
                (codes "currentResolution", signed_decimal f.current_resolution)
                (codes "\n}" ++ rest)
          else codes "}" ++ rest)
        rest
current_end f rest = elim (Bool-cases (has_current f)) [
  | inl is ↦ rw is (
      next_member (
        blank line_feed (
          field_members (codes "currentResolution", signed_decimal f.current_resolution)
            (named (codes "currentResolution") refl f.current_resolution)
            (blank line_feed members_end))))
  | inr is_not ↦ rw is_not members_end
]

pub format_text-IsValue :
    (f : InputFormat) → has_sizes f ≡ true → All Plain f.description → IsValue (format_text f)
unfolding format_text
format_text-IsValue f e h rest = object (
    blank line_feed (
      some_members (10 ∷ [])
        ((codes "id", signed_decimal f.index)
          ∷ (codes "name", f.description)
          ∷ (codes "compressed", truth f.compressed)
          ∷ (codes "emulated", truth f.emulated)
          ∷ (codes "current", truth (has_current f))
          ∷ [])
        (omega arith) one_line
        (
          named (codes "id") refl f.index,
          (
            (is_plain-Plain (codes "name") refl, h),
            (
              (is_plain-Plain (codes "compressed") refl, truth-Plain f.compressed),
              (
                (is_plain-Plain (codes "emulated") refl, truth-Plain f.emulated),
                ((is_plain-Plain (codes "current") refl, truth-Plain (has_current f)), tt),
              ),
            ),
          ),
        )
        (next_member (
          blank line_feed (
            member (Text-Plain (codes "resolutions") (is_plain-Plain (codes "resolutions") refl))
              (blank space (
                object (
                  some_members (32 ∷ []) (size_fields 0 f.resolutions)
                    (size_fields-some 0 f.resolutions (both_true _ _ e).0) (space, tt)
                    (size_fields_plain 0 f.resolutions) members_end)))
              (blank line_feed (current_end f rest)))))))
