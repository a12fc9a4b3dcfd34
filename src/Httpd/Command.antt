-- ===== src/Httpd/Command.antt =====
-- command of httpd.c: the parameters of /?action=command and the call of the plugin. The plugins' cmd
-- functions are parameters. malloc does not fail. An int is an integer from -2^31 to 2^31 - 1.
pub mod Laws
use mjpg_streamer.Common.{
  ℕ, zero, suc, ◌||◌, [], ◌∷◌, ◌++◌, Option, none, some, length, drop, min, leb, if◌then◌else◌,
  ◌==◌,
}
use mjpg_streamer.Common.Int.{ℤ, pos, negsuc, ltb_ℤ}
use mjpg_streamer.Common.Text.{Bytes, codes, strstr, span}
use mjpg_streamer.Httpd.Print.{decimal, value_onto}
use mjpg_streamer.Httpd.Response.{std_header, send_error}

abbrev pub digit_bytes : Bytes
digit_bytes = codes "1234567890"

abbrev pub number_bytes : Bytes
number_bytes = codes "-1234567890"

abbrev pub word_bytes : Bytes
word_bytes = codes "abcdefghijklmnopqrstuvwxyzABCDEFGHIJKLMNOPQRSTUVWXYZ_1234567890"

abbrev pub int_max : ℕ
int_max = 2147483647

abbrev pub negated : ℕ → ℤ
negated zero = pos 0
negated (suc n) = negsuc n

-- strtol(s, NULL, 10) on a text of digits and minus signs, without the bounds of a long.
unfoldable pub strtol : Bytes → ℤ
strtol [] = pos 0
strtol (c ∷ cs) =
    if c == b'-'
    then negated (value_onto 0 (span digit_bytes cs))
    else pos (value_onto 0 (span digit_bytes (c ∷ cs)))

-- MAX(MIN(n, INT_MAX), INT_MIN), which the bounds of a long do not change.
abbrev pub clamp_int : ℤ → ℤ
clamp_int (pos n) = pos (min n int_max)
clamp_int (negsuc n) = negsuc (min n int_max)

-- The number at the head of a text.
unfoldable pub number_at : Bytes → ℤ
unfolding strtol
number_at s = clamp_int (strtol (span number_bytes s))

-- A parameter that may be missing.
unfoldable pub int_after : Bytes → Bytes → ℤ → ℤ
unfolding number_at
int_after parameter key default = elim (strstr parameter key) [
  | none ↦ default
  | some rest ↦ number_at (drop (length key) rest)
]

-- The arguments of a cmd function: plugin, command, group, value and text.
pub record Arguments : Type 0 where
  pub plugin_no : ℤ
  pub command_id : ℤ
  pub group : ℤ
  pub ivalue : ℤ
  pub value : Option Bytes

-- Which cmd function is called: that of `in[plugin_no]`, of `out[plugin_no]`, or none.
pub data Call : Type 0 where
  call_input call_output : Arguments → Call
  no_call : Call

-- `value` as it is left for the call: the text behind "plugin=".
abbrev pub plugin_text : Bytes → Option Bytes
plugin_text parameter = elim (strstr parameter (codes "plugin=")) [
  | none ↦ none
  | some rest ↦ some (drop 7 rest)
]

-- The switch over the destination.
unfoldable pub dispatch_command : ℕ → ℕ → ℤ → Arguments → Call
dispatch_command incnt outcnt (negsuc _) a = no_call
dispatch_command incnt outcnt (pos dest) a =
    if dest == 0
    then (if ltb_ℤ a.plugin_no (pos incnt) then call_input a else no_call)
    else if dest == 1
    then (if ltb_ℤ a.plugin_no (pos outcnt) then call_output a else no_call)
    else no_call

-- The call that a parameter string asks for: `none` where it is refused, else with the command's word.
unfoldable pub parse_command : ℕ → ℕ → Bytes → Option (Bytes × Call)
parse_command incnt outcnt parameter = elim (strstr parameter (codes "id=")) [
  | none ↦ none
  | some rest ↦ some (
    span word_bytes (drop 3 rest),
    dispatch_command incnt outcnt (int_after parameter (codes "dest=") (pos 0)) (record {
      plugin_no = int_after parameter (codes "plugin=") (pos 0);
      command_id = number_at (span word_bytes (drop 3 rest));
      group = int_after parameter (codes "group=") (pos 0);
      ivalue = int_after parameter (codes "value=") (pos 0);
      value = plugin_text parameter;
    }),
  )
]

-- %d
abbrev pub signed_decimal : ℤ → Bytes
signed_decimal (pos n) = decimal n
signed_decimal (negsuc n) = b'-' ∷ decimal (suc n)

abbrev pub command_answer : Bytes → ℤ → Bytes
command_answer word res =
    codes "HTTP/1.0 200 OK\r\nContent-type: text/plain\r\n"
    ++ (std_header ++ (codes "\r\n" ++ (word ++ (codes ": " ++ signed_decimal res))))

-- The value that is printed: that of the call, and 0 where there is none.
abbrev pub run_call : (Arguments → ℤ) → (Arguments → ℤ) → Call → ℤ
run_call in_cmd out_cmd (call_input a) = in_cmd a
run_call in_cmd out_cmd (call_output a) = out_cmd a
run_call in_cmd out_cmd no_call = pos 0

-- The call of a plugin and the bytes that are sent.
unfoldable pub command : (Arguments → ℤ) → (Arguments → ℤ) → ℕ → ℕ → Bytes → Call × Bytes
command in_cmd out_cmd incnt outcnt parameter =
    if leb 255 (length parameter) || length parameter == 0
    then (no_call, send_error 400 (codes "Parameter-string of command does not look valid."))
    else elim (parse_command incnt outcnt parameter) [
      | none ↦ (
        no_call,
        send_error 400 (
            codes
              "no GET variable \"id=...\" found, it is required to specify which command id to execute"),
      )
      | some (word, call) ↦ (call, command_answer word (run_call in_cmd out_cmd call))
    ]
