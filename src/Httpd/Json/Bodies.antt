-- ===== src/Httpd/Json/Bodies.antt =====
-- The bodies of the documents are JSON.
use mjpg_streamer.Common.{
  suc, ◌<◌, ◌≡◌, refl, Bool, true, both_true, List, [], ◌∷◌, ◌++◌, All, all, length, arith,
}
use mjpg_streamer.Common.Int.{ℤ, pos, negsuc}
use mjpg_streamer.Common.Text.{Bytes, codes}
use mjpg_streamer.Httpd.Clients.{ClientInfo}
use mjpg_streamer.Httpd.Command.{signed_decimal}
use mjpg_streamer.Httpd.Print.{IsDigit, decimal, decimal-IsDigit, decimal-some}
use mjpg_streamer.Httpd.Json.{
  Control, InputFormat, Plugin, control_text, has_menu, format_text, has_sizes, input_body,
  plugin_text, program_body, output_control_text, output_body, client_text, clients_body,
}
use mjpg_streamer.Httpd.Json.Grammar.{
  Plain, Blank, space, line_feed, Digits, last, digit, Reads, a_value, blank, number, negative,
  object, array, member, members_end, next_member, no_elements, elements_end, Text-Plain,
  field_members, some_members, IsValue, joined_elements, joined_lines, Separates, comma-Separates,
  next_element,
}
use mjpg_streamer.Httpd.Json.Documents.{format_text-IsValue}
use mjpg_streamer.Httpd.Json.Controls.{
  PlainControl, is_plain-Plain, named, one_line, control_text-IsValue, output_control_text-IsValue,
}

-- A JSON document: a value with white space behind it.
pub data Json (body : Bytes) : Type 0 where
  json : (r : Bytes) → Reads a_value body r → All Blank r → Json body

pub record PlainPlugin (p : Plugin) : Type 0 where
  pub name : All Plain p.name
  pub plugin : All Plain p.plugin
  pub args : All Plain p.args

plugin_text-IsValue : (p : Plugin) → PlainPlugin p → IsValue (plugin_text p)
unfolding plugin_text
plugin_text-IsValue p h rest = object (
    blank line_feed (
      some_members (10 ∷ [])
        ((codes "id", signed_decimal p.id)
          ∷ (codes "name", p.name)
          ∷ (codes "plugin", p.plugin)
          ∷ (codes "args", p.args)
          ∷ [])
        (omega arith) one_line
        (
          named (codes "id") refl p.id,
          (
            (is_plain-Plain (codes "name") refl, h.name),
            (
              (is_plain-Plain (codes "plugin") refl, h.plugin),
              ((is_plain-Plain (codes "args") refl, h.args), tt),
            ),
          ),
        )
        (blank line_feed members_end)))

Digits-decimal : (s : Bytes) (r : Bytes) → All IsDigit s → 0 < length s → Digits (s ++ r) r
Digits-decimal [] r h some_digit = absurd (omega arith)
Digits-decimal (c ∷ []) r (h, hs) some_digit = last h
Digits-decimal (c ∷ d ∷ s) r (h, hs) some_digit =
    digit h (Digits-decimal (d ∷ s) r hs (omega arith))

number-IsValue : (z : ℤ) → IsValue (λ rest. signed_decimal z ++ rest)
number-IsValue (pos n) rest =
    number (Digits-decimal (decimal n) rest (decimal-IsDigit n) (decimal-some n))
number-IsValue (negsuc n) rest =
    negative
      (Digits-decimal (decimal (suc n)) rest (decimal-IsDigit (suc n)) (decimal-some (suc n)))

client_text-IsValue : (c : ClientInfo) → All Plain c.address → IsValue (client_text c)
unfolding client_text
client_text-IsValue c h rest = object (
    blank line_feed (
      field_members (codes "address", c.address) (is_plain-Plain (codes "address") refl, h)
        (next_member (
          blank line_feed (
            member (Text-Plain (codes "timestamp") (is_plain-Plain (codes "timestamp") refl))
              (blank space (number-IsValue c.last_take_time.tv_sec (codes "\n}" ++ rest)))
              (blank line_feed members_end))))))

-- A comma between lines.
line-Separates : Separates (codes "\n,\n")
line-Separates i j r reads more = blank line_feed (next_element (blank line_feed reads) more)

All-IsValue :
    {A : Type 0} (text : A → Bytes → Bytes) (P : A → Type 0) (xs : List A)
    → ((x : A) → P x → IsValue (text x))
    → All P xs
    → All (λ x. IsValue (text x)) xs
All-IsValue text P [] h ps = tt
All-IsValue text P (x ∷ xs) h (p, ps) = (h x p, All-IsValue text P xs h ps)

pub clients_body-Json :
    (infos : List ClientInfo) → All (λ c. All Plain c.address) infos → Json (clients_body infos)
unfolding clients_body
clients_body-Json infos h =
    json (10 ∷ [])
      (object (
        blank line_feed (
          member (Text-Plain (codes "clients") (is_plain-Plain (codes "clients") refl))
            (blank space (
              array (
                blank line_feed (
                  joined_lines (codes "\n,\n") client_text infos line-Separates
                    (All-IsValue client_text (λ c. All Plain c.address) infos client_text-IsValue h)
                    no_elements elements_end))))
            (blank line_feed members_end))))
      (line_feed, tt)

pub program_body-Json :
    (inputs outputs : List Plugin)
    → All PlainPlugin inputs
    → All PlainPlugin outputs
    → Json (program_body inputs outputs)
unfolding program_body
program_body-Json inputs outputs hi ho =
    json (10 ∷ [])
      (object (
        blank line_feed (
          member (Text-Plain (codes "inputs") (is_plain-Plain (codes "inputs") refl))
            (array (
              blank line_feed (
                joined_lines (codes ", \n") plugin_text inputs
                  (comma-Separates (32 ∷ 10 ∷ []) (space, (line_feed, tt)))
                  (All-IsValue plugin_text PlainPlugin inputs plugin_text-IsValue hi) no_elements
                  elements_end)))
            (next_member (
              blank line_feed (
                member (Text-Plain (codes "outputs") (is_plain-Plain (codes "outputs") refl))
                  (array (
                    blank line_feed (
                      joined_lines (codes ", \n") plugin_text outputs
                        (comma-Separates (32 ∷ 10 ∷ []) (space, (line_feed, tt)))
                        (All-IsValue plugin_text PlainPlugin outputs plugin_text-IsValue ho)
                        no_elements elements_end)))
                  members_end))))))
      (line_feed, tt)

pub output_body-Json :
    (controls : List Control) → All (λ c. All Plain c.name) controls → Json (output_body controls)
unfolding output_body
output_body-Json controls h =
    json (10 ∷ [])
      (object (
        blank line_feed (
          member (Text-Plain (codes "controls") (is_plain-Plain (codes "controls") refl))
            (blank space (
              array (
                blank line_feed (
                  joined_elements (codes ",\n") output_control_text controls
                    (comma-Separates (10 ∷ []) one_line)
                    (All-IsValue output_control_text (λ c. All Plain c.name) controls
                      output_control_text-IsValue h)
                    (blank line_feed no_elements) (blank line_feed elements_end)))))
            (blank line_feed members_end))))
      (line_feed, tt)

with_tests :
    {A : Type 0} (test : A → Bool) (P : A → Type 0) (xs : List A)
    → all test xs ≡ true
    → All P xs
    → All (λ x. (test x ≡ true) × P x) xs
with_tests test P [] e h = tt
with_tests test P (x ∷ xs) e (h, hs) =
    let (now, later) = both_true (test x) (all test xs) e in
    ((now, h), with_tests test P xs later hs)

pub input_body-Json :
    (controls : List Control) (formats : List InputFormat)
    → all has_menu controls ≡ true
    → all has_sizes formats ≡ true
    → All PlainControl controls
    → All (λ f. All Plain f.description) formats
    → Json (input_body controls formats)
unfolding input_body
input_body-Json controls formats menus sizes hc hf =
    json (10 ∷ [])
      (object (
        blank line_feed (
          member (Text-Plain (codes "controls") (is_plain-Plain (codes "controls") refl))
            (blank space (
              array (
                blank line_feed (
                  joined_elements (codes ",\n") control_text controls
                    (comma-Separates (10 ∷ []) one_line)
                    (All-IsValue control_text (λ c. (has_menu c ≡ true) × PlainControl c) controls
                      (λ c p. control_text-IsValue c p.0 p.1)
                      (with_tests has_menu PlainControl controls menus hc))
                    (blank line_feed no_elements) (blank line_feed elements_end)))))
            (next_member (
              blank line_feed (
                member (Text-Plain (codes "formats") (is_plain-Plain (codes "formats") refl))
                  (blank space (
                    array (
                      blank line_feed (
                        joined_lines (codes ",\n") format_text formats
                          (comma-Separates (10 ∷ []) one_line)
                          (All-IsValue format_text
                            (λ f. (has_sizes f ≡ true) × All Plain f.description) formats
                            (λ f p. format_text-IsValue f p.0 p.1)
                            (with_tests has_sizes (λ f. All Plain f.description) formats sizes hf))
                          (blank line_feed no_elements) (blank line_feed elements_end)))))
                  (blank line_feed members_end)))))))
      (line_feed, tt)
