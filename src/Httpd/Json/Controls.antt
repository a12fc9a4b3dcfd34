-- ===== src/Httpd/Json/Controls.antt =====
-- The controls of a plugin are JSON values.
use mjpg_streamer.Common.{
  ℕ, ◌≡◌, ◌≢◌, refl, inl, inr, Bool, true, false, not, ◌&&◌, Bool-cases, both_true, List, [], ◌∷◌,
  ◌++◌, Option, none, some, All, all, map, leb, if◌then◌else◌, ◌==◌, arith,
}
use mjpg_streamer.Common.Int.{ℤ, pos, ◌+ℤ◌}
use mjpg_streamer.Common.Text.{Bytes, codes}
use mjpg_streamer.Httpd.Command.{signed_decimal}
use mjpg_streamer.Httpd.Json.{
  Control, fields, check_json_string, is_print, menu_fields, control_fields, names_of, control_text,
  has_menu, output_control_text,
}
use mjpg_streamer.Httpd.Json.Grammar.{
  Plain, Blank, space, line_feed, Reads, members, more_members, blank, object, member, members_end,
  next_member, Text-Plain, PlainField, some_members, IsValue, signed_decimal-Plain,
}

-- A byte that would need an escape whatever check_JSON_string does.
abbrev pub Unquoted : ℕ → Type 0
Unquoted c = (c ≢ 34) × (c ≢ 92)

checked : (c : ℕ) → c ≢ 34 → c ≢ 92 → Plain (if is_print c then c else 32)
checked c q b = ground arith

check_json_string-Plain : (s : Bytes) → All Unquoted s → All Plain (check_json_string s)
check_json_string-Plain [] h = tt
check_json_string-Plain (c ∷ s) ((q, b), t) = (checked c q b, check_json_string-Plain s t)

menu_fields-Plain :
    (j : ℤ) (names : List Bytes) → All (All Plain) names → All PlainField (menu_fields j names)
menu_fields-Plain j [] h = tt
menu_fields-Plain j (name ∷ names) (h, t) =
    ((signed_decimal-Plain j, h), menu_fields-Plain (j +ℤ pos 1) names t)

-- The strings that are printed as they are.
pub record PlainControl (c : Control) : Type 0 where
  pub name : All Plain c.name
  pub items : All (All Unquoted) (elim c.menuitems [ none ↦ [] | some names ↦ names ])

abbrev is_plain : ℕ → Bool
is_plain c = leb 32 c && (not (c == 34) && not (c == 92))

pub is_plain-Plain : (s : Bytes) → all is_plain s ≡ true → All Plain s
is_plain-Plain [] e = tt
is_plain-Plain (c ∷ s) e =
    let (h, t) = both_true (is_plain c) (all is_plain s) e in (ground arith, is_plain-Plain s t)

pub all-Unquoted : (s : Bytes) → all (λ c. not (c == 34) && not (c == 92)) s ≡ true → All Unquoted s
all-Unquoted [] e = tt
all-Unquoted (c ∷ s) e =
    let (h, t) =
      both_true (not (c == 34) && not (c == 92)) (all (λ c. not (c == 34) && not (c == 92)) s) e in
    (ground arith, all-Unquoted s t)

pub named : (key : Bytes) → all is_plain key ≡ true → (z : ℤ) → PlainField (key, signed_decimal z)
named key e z = (is_plain-Plain key e, signed_decimal-Plain z)

control_fields-Plain :
    (dest : Bytes) (c : Control)
    → All Plain dest
    → All Plain c.name
    → All PlainField (control_fields dest c)
control_fields-Plain dest c d name = (
  (is_plain-Plain (codes "name") refl, name),
  (
    named (codes "id") refl c.id,
    (
      named (codes "type") refl c.type,
      (
        named (codes "min") refl c.minimum,
        (
          named (codes "max") refl c.maximum,
          (
            named (codes "step") refl c.step,
            (
              named (codes "default") refl c.default_value,
              (
                named (codes "value") refl c.value,
                (
                  (is_plain-Plain (codes "dest") refl, d),
                  (named (codes "flags") refl c.flags, (named (codes "group") refl c.group, tt)),
                ),
              ),
            ),
          ),
        ),
      ),
    ),
  ),
)

-- A comma and a line feed between the members.
pub one_line : All Blank (10 ∷ [])
one_line = (line_feed, tt)

map-Plain :
    (names : List Bytes) → All (All Unquoted) names → All (All Plain) (map check_json_string names)
map-Plain [] h = tt
map-Plain (n ∷ names) (h, t) = (check_json_string-Plain n h, map-Plain names t)

-- The menu of a control that has one.
menu_members :
    (j : ℤ) (items : Option (List Bytes)) {i r : Bytes}
    → elim items [ none ↦ false | some [] ↦ false | some (_ ∷ _) ↦ true ] ≡ true
    → All (All Unquoted) (elim items [ none ↦ [] | some names ↦ names ])
    → Reads more_members i r
    → Reads members
        (fields
          (codes ", ")
          (menu_fields j (elim items [ none ↦ [] | some names ↦ map check_json_string names ]))
          i)
        r
menu_members j none e h more = absurd cc
menu_members j (some []) e h more = absurd cc
menu_members j (some (n ∷ names)) e (h, t) more =
    some_members (32 ∷ []) (menu_fields j (map check_json_string (n ∷ names))) (omega arith)
      (space, tt)
      (menu_fields-Plain j (map check_json_string (n ∷ names)) (map-Plain (n ∷ names) (h, t))) more

-- What is behind the fields of a control of an input plugin.
ending :
    (c : Control)
    → has_menu c ≡ true
    → PlainControl c
    → (rest : Bytes)
    → Reads more_members
        (if c.is_menu
          then codes ",\n\"menu\": {"
            ++ fields (codes ", ") (menu_fields c.minimum (names_of c)) (codes "}\n}" ++ rest)
          else codes "\n}" ++ rest)
        rest
ending c e h rest = elim (Bool-cases c.is_menu) [
  | inl is ↦ rw is (
      next_member (
        blank line_feed (
          member (Text-Plain (codes "menu") (is_plain-Plain (codes "menu") refl))
            (blank space
              (object (menu_members c.minimum c.menuitems (rw is at e) h.items members_end)))
            (blank line_feed members_end))))
  | inr is_not ↦ rw is_not (blank line_feed members_end)
]

pub control_text-IsValue :
    (c : Control) → has_menu c ≡ true → PlainControl c → IsValue (control_text c)
unfolding control_text
control_text-IsValue c e h rest = object (
    blank line_feed (
      some_members (10 ∷ []) (control_fields (codes "0") c) (omega arith) one_line
        (control_fields-Plain (codes "0") c (is_plain-Plain (codes "0") refl) h.name)
        (ending c e h rest)))

pub output_control_text-IsValue : (c : Control) → All Plain c.name → IsValue (output_control_text c)
unfolding output_control_text
output_control_text-IsValue c h rest = object (
    blank line_feed (
      some_members (10 ∷ []) (control_fields (codes "1") c) (omega arith) one_line
        (control_fields-Plain (codes "1") c (is_plain-Plain (codes "1") refl) h)
        (blank line_feed members_end)))
