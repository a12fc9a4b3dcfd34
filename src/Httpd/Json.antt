-- ===== src/Httpd/Json.antt =====
-- The JSON documents of httpd.c: send_input_JSON, send_program_JSON, send_output_JSON, send_clients_JSON and
-- check_JSON_string. A text is built with what follows it. `none` is what C leaves undefined: a menu or a list of
-- resolutions whose string was never allocated (or, for an output plugin, allocated with no room), and a document that
-- does not fit the buffer. Allocation does not fail. The V4L2 flags for compressed and emulated formats are defined.
pub mod Grammar
pub mod Controls
pub mod Documents
pub mod Bodies
pub mod Sent
use mjpg_streamer.Common.{
  ℕ, zero, suc, ◌+◌, ◌-◌, ◌*◌, Bool, true, false, not, ◌&&◌, ◌||◌, List, [], ◌∷◌, ◌++◌, Option,
  none, some, map, length, all, ltb, leb, if◌then◌else◌,
}
use mjpg_streamer.Common.Int.{ℤ, pos, negsuc, ◌+ℤ◌}
use mjpg_streamer.Common.Text.{Bytes, codes}
use mjpg_streamer.Httpd.Clients.{ClientInfo}
use mjpg_streamer.Httpd.Command.{signed_decimal}
use mjpg_streamer.Httpd.Print.{decimal}
use mjpg_streamer.Httpd.Response.{std_header}

-- A control of an input or output plugin: struct _control with its v4l2_queryctrl; is_menu tells whether the type is
-- V4L2_CTRL_TYPE_MENU, and the menu's names are those of the items from minimum to maximum, if there are menuitems.
pub record Control : Type 0 where
  pub name : Bytes
  pub id : ℤ
  pub type : ℤ
  pub minimum : ℤ
  pub maximum : ℤ
  pub step : ℤ
  pub default_value : ℤ
  pub value : ℤ
  pub flags : ℤ
  pub group : ℤ
  pub is_menu : Bool
  pub menuitems : Option (List Bytes)

-- A format: struct _input_format with its v4l2_fmtdesc and the widths and heights.
pub record InputFormat : Type 0 where
  pub index : ℤ
  pub description : Bytes
  pub compressed : Bool
  pub emulated : Bool
  pub current_resolution : ℤ
  pub resolutions : List (ℤ × ℤ)

-- A plugin: struct _input and struct _output.
pub record Plugin : Type 0 where
  pub id : ℤ
  pub name : Bytes
  pub plugin : Bytes
  pub args : Bytes

-- isprint, in the C locale.
abbrev pub is_print : ℕ → Bool
is_print c = leb 32 c && leb c 126

abbrev pub check_json_string : Bytes → Bytes
check_json_string = map (λ c. if is_print c then c else 32)

-- `"key": "value"`
abbrev pub Field : Type 0
Field = Bytes × Bytes

abbrev pub field : Field → Bytes → Bytes
field (key, value) rest = codes "\"" ++ (key ++ (codes "\": \"" ++ (value ++ (codes "\"" ++ rest))))

-- Fields with what stands between two of them.
abbrev pub fields : Bytes → List Field → Bytes → Bytes
fields between [] rest = rest
fields between (f ∷ []) rest = field f rest
fields between (f ∷ g ∷ more) rest = field f (between ++ fields between (g ∷ more) rest)

-- Values with what stands between two of them.
abbrev pub joined {ℓ} : {A : Type ℓ} → Bytes → (A → Bytes → Bytes) → List A → Bytes → Bytes
joined between text [] rest = rest
joined between text (x ∷ []) rest = text x rest
joined between text (x ∷ y ∷ more) rest = text x (between ++ joined between text (y ∷ more) rest)

-- The menu, from the item `j` on.
abbrev pub menu_fields : ℤ → List Bytes → List Field
menu_fields j [] = []
menu_fields j (name ∷ names) = (signed_decimal j, name) ∷ menu_fields (j +ℤ pos 1) names

abbrev pub control_fields : Bytes → Control → List Field
control_fields dest c =
    (codes "name", c.name)
    ∷ (codes "id", signed_decimal c.id)
    ∷ (codes "type", signed_decimal c.type)
    ∷ (codes "min", signed_decimal c.minimum)
    ∷ (codes "max", signed_decimal c.maximum)
    ∷ (codes "step", signed_decimal c.step)
    ∷ (codes "default", signed_decimal c.default_value)
    ∷ (codes "value", signed_decimal c.value)
    ∷ (codes "dest", dest)
    ∷ (codes "flags", signed_decimal c.flags)
    ∷ (codes "group", signed_decimal c.group)
    ∷ []

abbrev pub names_of : Control → List Bytes
names_of c = elim c.menuitems [ none ↦ [] | some names ↦ map check_json_string names ]

-- A control of an input plugin.
unfoldable pub control_text : Control → Bytes → Bytes
control_text c rest =
    codes "{\n"
    ++ fields (codes ",\n") (control_fields (codes "0") c) (
        if c.is_menu
        then codes ",\n\"menu\": {"
          ++ fields (codes ", ") (menu_fields c.minimum (names_of c)) (codes "}\n}" ++ rest)
        else codes "\n}" ++ rest)

-- Whether menuString was allocated, if it is printed.
abbrev pub has_menu : Control → Bool
has_menu c =
    not c.is_menu || elim c.menuitems [ none ↦ false | some [] ↦ false | some (_ ∷ _) ↦ true ]

abbrev pub truth : Bool → Bytes
truth true = codes "true"
truth false = codes "false"

abbrev pub size_fields : ℕ → List (ℤ × ℤ) → List Field
size_fields j [] = []
size_fields j ((width, height) ∷ sizes) =
    (decimal j, signed_decimal width ++ (codes "x" ++ signed_decimal height))
    ∷ size_fields (j + 1) sizes

abbrev pub has_current : InputFormat → Bool
has_current f = elim f.current_resolution [
  | pos _ ↦ true
  | negsuc zero ↦ false
  | negsuc (suc _) ↦ true
]

unfoldable pub format_text : InputFormat → Bytes → Bytes
format_text f rest =
    codes "{\n"
    ++ fields (codes ",\n")
        ((codes "id", signed_decimal f.index)
          ∷ (codes "name", f.description)
          ∷ (codes "compressed", truth f.compressed)
          ∷ (codes "emulated", truth f.emulated)
          ∷ (codes "current", truth (has_current f))
          ∷ [])
        (codes ",\n\"resolutions\": {"
          ++ fields (codes ", ") (size_fields 0 f.resolutions) (
              codes "}\n"
              ++ (if has_current f
                  then codes ",\n"
                    ++ field (codes "currentResolution", signed_decimal f.current_resolution)
                        (codes "\n}" ++ rest)
                  else codes "}" ++ rest)))

abbrev pub is_some_size : List (ℤ × ℤ) → Bool
is_some_size [] = false
is_some_size (_ ∷ _) = true

-- Whether sprintf keeps a number within the six bytes of buffer_num, with the zero.
abbrev pub is_short : ℤ → Bool
is_short z = leb (length (signed_decimal z)) 5

-- Whether resolutionsString was allocated, and none of the numbers ran over buffer_num; the indexes are below the length.
abbrev pub has_sizes : InputFormat → Bool
has_sizes f =
    is_some_size f.resolutions
    && (leb (length f.resolutions) 100000
        && all (λ size. is_short size.0 && is_short size.1) f.resolutions)

-- A document behind its header, if it fits the buffer of 16 * BUFFER_SIZE bytes.
unfoldable pub json_header : Bytes
json_header =
    codes "HTTP/1.0 200 OK\r\nContent-type: application/x-javascript\r\n"
    ++ (std_header ++ codes "\r\n")

unfoldable pub sent_json : Bytes → Option Bytes
unfolding json_header
sent_json body =
    if ltb (16 * 1024 - 1) (length (json_header ++ body)) then none else some (json_header ++ body)

-- The line end behind the last value, if there is one.
abbrev pub line_if {ℓ} : {A : Type ℓ} → List A → Bytes → Bytes
line_if [] rest = rest
line_if (_ ∷ _) rest = codes "\n" ++ rest

unfoldable pub input_body : List Control → List InputFormat → Bytes
input_body controls formats =
    codes "{\n\"controls\": [\n"
    ++ joined (codes ",\n") control_text controls (
        codes "\n],\n\"formats\": [\n"
        ++ joined (codes ",\n") format_text formats (line_if formats (codes "\n]\n}\n")))

unfoldable pub send_input_json : List Control → List InputFormat → Option Bytes
unfolding sent_json
send_input_json controls formats =
    if all has_menu controls && all has_sizes formats
    then sent_json (input_body controls formats)
    else none

unfoldable pub plugin_text : Plugin → Bytes → Bytes
plugin_text p rest =
    codes "{\n"
    ++ fields (codes ",\n")
        ((codes "id", signed_decimal p.id)
          ∷ (codes "name", p.name)
          ∷ (codes "plugin", p.plugin)
          ∷ (codes "args", p.args)
          ∷ [])
        (codes "\n}" ++ rest)

unfoldable pub program_body : List Plugin → List Plugin → Bytes
program_body inputs outputs =
    codes "{\n\"inputs\":[\n"
    ++ joined (codes ", \n") plugin_text inputs (
        line_if inputs (
          codes "],\n\"outputs\":[\n"
          ++ joined (codes ", \n") plugin_text outputs (line_if outputs (codes "]}\n"))))

unfoldable pub send_program_json : List Plugin → List Plugin → Option Bytes
unfolding sent_json
send_program_json inputs outputs = sent_json (program_body inputs outputs)

-- A control of an output plugin that is no menu.
unfoldable pub output_control_text : Control → Bytes → Bytes
output_control_text c rest =
    codes "{\n" ++ fields (codes ",\n") (control_fields (codes "1") c) (codes "\n}" ++ rest)

unfoldable pub output_body : List Control → Bytes
output_body controls =
    codes "{\n\"controls\": [\n"
    ++ joined (codes ",\n") output_control_text controls (codes "\n]\n}\n")

unfoldable pub send_output_json : List Control → Option Bytes
unfolding sent_json
send_output_json controls =
    if all (λ c. not c.is_menu) controls then sent_json (output_body controls) else none

unfoldable pub client_text : ClientInfo → Bytes → Bytes
client_text c rest =
    codes "{\n"
    ++ field (codes "address", c.address)
        (codes ",\n\"timestamp\": "
          ++ (signed_decimal c.last_take_time.tv_sec ++ (codes "\n}" ++ rest)))

unfoldable pub clients_body : List ClientInfo → Bytes
clients_body infos =
    codes "{\n\"clients\": [\n"
    ++ joined (codes "\n,\n") client_text infos (line_if infos (codes "]\n}\n"))

unfoldable pub send_clients_json : List ClientInfo → Option Bytes
unfolding sent_json
send_clients_json infos = sent_json (clients_body infos)
