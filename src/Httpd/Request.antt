-- ===== src/Httpd/Request.antt =====
-- client_thread of httpd.c: what a request line asks for, the header lines, the check of the credentials
-- and of the plugin number, and the answer. The answers are listed as actions; what each of them writes is
-- modelled beside it (Stream, Response, Files, Command) or not at all (the JSON documents). malloc does not
-- fail (the source exits). `input_number` is a C int.
pub mod Shape
pub mod Range
pub mod Safety
use mjpg_streamer.Common.{
  ℕ, suc, ◌-◌, Bool, true, false, not, ◌&&◌, List, [], ◌∷◌, ◌++◌, Option, none, some, length, take,
  drop, min, leb, ltb, ◌==◌, if◌then◌else◌, get_or,
}
use mjpg_streamer.Common.Int.{ℤ, pos, ◌-ℤ◌, ltb_ℤ}
use mjpg_streamer.Common.Text.{
  Bytes, codes, strstr, strchr, span, contains, str_eq, c_string, contains_caseless,
}
use mjpg_streamer.Httpd.Base64.{decode_base64}
use mjpg_streamer.Httpd.Unescape.{unescape}

-- answer_t
pub data AnswerType : Type 0 where
  unknown snapshot snapshot_wxp stream stream_wxp command file cgi take_picture : AnswerType
  input_json output_json program_json clients_json : AnswerType

-- The two compile-time options WXP_COMPAT and MANAGMENT.
pub record Build : Type 0 where
  pub wxp_compat : Bool
  pub managment : Bool

pub data Action : Type 0 where
  send_error : ℕ → Bytes → Action
  send_snapshot : ℤ → Action
  send_stream : ℤ → Action
  send_stream_wxp : ℤ → Action
  run_command : Bytes → Action
  send_input_json : ℤ → Action
  send_output_json : ℤ → Action
  send_program_json : Action
  send_clients_json : Action
  send_file : Bytes → Action
  execute_cgi : Bytes → Bytes → Action
  save_picture : ℕ → Bytes → Action
  fine : Action

-- The request, as far as its first line decides it, with what has been sent so far.
pub record Request : Type 0 where
  pub type : AnswerType
  pub parameter : Bytes
  pub query_string : Bytes
  pub query_suffixed : Bool
  pub sent : List Action

abbrev pub letters : Bytes
letters = codes "abcdefghijklmnopqrstuvwxyzABCDEFGHIJKLMNOPQRSTUVWXYZ"

abbrev pub command_bytes : Bytes
command_bytes = letters ++ codes "_-=&1234567890%./"

abbrev pub file_bytes : Bytes
file_bytes = letters ++ codes "._-1234567890"

abbrev pub query_bytes : Bytes
query_bytes = letters ++ codes "._-1234567890=&"

abbrev pub asks : AnswerType → Bool → Request
asks t suffixed = record {
  type = t;
  parameter = [];
  query_string = [];
  query_suffixed = suffixed;
  sent = [];
}

-- With MANAGMENT a client that is served again too soon gets an error and a fine.
unfoldable pub unless_cheating : Build → Bool → AnswerType → Request
unless_cheating b cheating t =
    if b.managment && cheating
    then record {
      type = unknown;
      parameter = [];
      query_string = [];
      query_suffixed = false;
      sent = fine ∷ send_error 403 (codes "frame already sent") ∷ [];
    }
    else asks t true

-- The bytes behind `prefix` that are accepted, 100 at most.
unfoldable pub parameter_after : Bytes → Bytes → ℕ → Bytes → Bytes
parameter_after buffer accept skip rest =
    take (min (length (span accept (drop skip rest))) 100) (drop skip rest)

-- What ends the thread early: the error that is sent.
pub data Parsed : Type 0 where
  parsed : Request → Parsed
  refused : Action → Parsed

-- /?action=take and /?action=command: the unescaped parameter.
unfoldable pub with_parameter : Bytes → Bytes → AnswerType → Bool → Parsed
unfolding parameter_after
with_parameter buffer prefix t suffixed = elim (strstr buffer prefix) [
  | none ↦ refused (send_error 400 (codes "Malformed HTTP request"))
  | some rest ↦
      elim (unescape (parameter_after buffer command_bytes (length prefix) rest ++ 0 ∷ [])) [
        | none ↦
            refused (send_error 500 (codes "could not properly unescape command parameter string"))
        | some p ↦ parsed (record (asks t suffixed) { parameter = c_string p })
      ]
]

-- The query string of a CGI request: " " where there is none.
unfoldable pub cgi_query : Bytes → Bytes
cgi_query rest = elim (strchr rest b'?') [ none ↦ codes " " | some q ↦ span query_bytes (drop 1 q) ]

-- The branch that serves a file or a CGI script.
unfoldable pub file_request : Bytes → Parsed
unfolding parameter_after cgi_query
file_request buffer = elim (strstr buffer (codes "GET /")) [
  | none ↦ refused (send_error 400 (codes "Malformed HTTP request"))
  | some rest ↦
      let p = parameter_after buffer file_bytes 5 rest in
      if contains (drop 5 rest) (codes ".cgi")
      then parsed
          (record (asks cgi false) { parameter = p; query_string = cgi_query (drop 5 rest) })
      else parsed (record (asks file false) { parameter = p })
]

-- The chain of tests on the request line. `cheating` is what check_client_status returns.
unfoldable pub classify : Build → Bool → Bytes → Parsed
unfolding unless_cheating with_parameter file_request
classify b cheating buffer =
    if contains buffer (codes "GET /?action=snapshot")
    then parsed (unless_cheating b cheating snapshot)
    else if b.wxp_compat && (contains buffer (codes "GET /cam") && contains buffer (codes ".jpg"))
    then parsed (unless_cheating b cheating snapshot_wxp)
    else if contains buffer (codes "POST /stream")
    then parsed (unless_cheating b cheating stream)
    else if contains buffer (codes "GET /?action=stream")
    then parsed (unless_cheating b cheating stream)
    else if b.wxp_compat && (contains buffer (codes "GET /cam") && contains buffer (codes ".mjpg"))
    then parsed (unless_cheating b cheating stream_wxp)
    else if contains buffer (codes "GET /?action=take")
    then with_parameter buffer (codes "GET /?action=take") take_picture true
    else if contains buffer (codes "GET /input") && contains buffer (codes ".json")
    then parsed (asks input_json true)
    else if contains buffer (codes "GET /output") && contains buffer (codes ".json")
    then parsed (asks output_json true)
    else if contains buffer (codes "GET /program.json")
    then parsed (asks program_json false)
    else if b.managment && contains buffer (codes "GET /clients.json")
    then parsed (asks clients_json false)
    else if contains buffer (codes "GET /?action=command")
    then with_parameter buffer (codes "GET /?action=command") command false
    else file_request buffer

-- atoi of one byte.
abbrev pub digit_value : ℕ → ℕ
digit_value c = if leb b'0' c && leb c b'9' then c - b'0' else 0

abbrev pub is_wxp : AnswerType → Bool
is_wxp snapshot_wxp = true
is_wxp stream_wxp = true
is_wxp _ = false

-- The plugin number behind the first underscore of the request line.
unfoldable pub plugin_number : Request → Bytes → ℤ
unfolding ◌-ℤ◌
plugin_number r buffer = elim (strchr buffer b'_') [
  | none ↦ pos 0
  | some sch ↦
      let n = digit_value (get_or sch 1 0) in
      if not r.query_suffixed then pos 0 else if is_wxp r.type then pos n -ℤ pos 1 else pos n
]

-- One header line: the credentials after it.
unfoldable pub header_line : Option Bytes → Bytes → Option Bytes
header_line given buffer =
    if contains_caseless buffer (codes "User-Agent: ")
    then given
    else if contains_caseless buffer (codes "Authorization: Basic ")
    then some (c_string (decode_base64 (drop 21 buffer)))
    else given

-- A line that goes on with the loop: more than two bytes, and not an empty line.
unfoldable pub continues : Bytes → Bool
continues buffer = ltb 2 (length buffer) && not (get_or buffer 0 0 == 13 && get_or buffer 1 0 == 10)

-- The loop over the lines that the calls of _readline return; at the end of the list the call fails.
unfoldable pub read_headers : Option Bytes → List Bytes → Option (Option Bytes)
unfolding header_line continues
read_headers given [] = none
read_headers given (buffer ∷ rest) =
    let more = read_headers (header_line given buffer) rest in
    if continues buffer then more else some (header_line given buffer)

-- conf of the server's context; `credentials` and `www_folder` may be NULL.
pub record Config : Type 0 where
  pub credentials : Option Bytes
  pub www_folder : Option Bytes
  pub nocommands : Bool

-- The check of the credentials: whether the request goes on.
unfoldable pub authorized : Config → Option Bytes → Bool
authorized conf given = elim conf.credentials [
  | none ↦ true
  | some wanted ↦ elim given [ none ↦ false | some g ↦ str_eq wanted g ]
]

-- The numbers of loaded plugins, and the names of the output plugins.
pub record Plugins : Type 0 where
  pub incnt : ℕ
  pub outcnt : ℕ
  pub output_names : List (Option Bytes)

abbrev pub is_output : AnswerType → Bool
is_output output_json = true
is_output _ = false

-- The check of the plugin number: the request, and the error.
unfoldable pub check_number : Plugins → Request → ℤ → Request
check_number p r n =
    if not r.query_suffixed
    then r
    else if is_output r.type
    then (if ltb_ℤ n (pos p.outcnt) then r else record r {
      type = unknown;
      sent = r.sent ++ send_error 404 (codes "Invalid output plugin number") ∷ [];
    })
    else if ltb_ℤ n (pos p.incnt)
    then r
    else record r {
      type = unknown;
      sent = r.sent ++ send_error 404 (codes "Invalid input plugin number") ∷ [];
    }

-- The text between "filename=" and the next `&`.
unfoldable pub take_filename : Bytes → Option Bytes
take_filename parameter = elim (strstr parameter (codes "filename=")) [
  | none ↦ none
  | some rest ↦
      let name = drop 9 rest in
      some (elim (strchr name b'&') [
        | none ↦ name
        | some tail ↦ take (length name - length tail) name
      ])
]

-- The first loaded output plugin that saves to files.
unfoldable pub file_plugin : ℕ → List (Option Bytes) → Option ℕ
file_plugin i [] = none
file_plugin i (none ∷ names) = file_plugin (suc i) names
file_plugin i (some name ∷ names) =
    let rest = file_plugin (suc i) names in
    if contains name (codes "FILE output plugin") then some i else rest

-- case A_TAKE; `saved` tells whether the plugin's command returned 0.
unfoldable pub take_actions : Plugins → Bool → Request → ℤ → List Action
unfolding take_filename file_plugin
take_actions p saved r n = elim (file_plugin 0 (take p.outcnt p.output_names)) [
  | none ↦ send_error 404 (codes "FILE output plugin not loaded, taking snapshot not possible") ∷ []
  | some i ↦ elim (take_filename r.parameter) [
    | none ↦
        send_error 404 (codes "The &filename= must present for the take command in the URL")
        ∷ send_snapshot n
        ∷ []
    | some name ↦
        save_picture i name
        ∷ (if saved then send_snapshot n else send_error 404 (codes "Taking snapshot failed!"))
        ∷ []
  ]
]

-- The switch at the end.
unfoldable pub dispatch : Build → Config → Plugins → Bool → Request → ℤ → AnswerType → List Action
unfolding take_actions
dispatch b conf p saved r n snapshot = send_snapshot n ∷ []
dispatch b conf p saved r n snapshot_wxp = send_snapshot n ∷ []
dispatch b conf p saved r n stream = send_stream n ∷ []
dispatch b conf p saved r n stream_wxp = if b.wxp_compat then send_stream_wxp n ∷ [] else []
dispatch b conf p saved r n command =
    if conf.nocommands
    then send_error 501 (codes "this server is configured to not accept commands") ∷ []
    else run_command r.parameter ∷ []
dispatch b conf p saved r n input_json = send_input_json n ∷ []
dispatch b conf p saved r n output_json = send_output_json n ∷ []
dispatch b conf p saved r n program_json = send_program_json ∷ []
dispatch b conf p saved r n clients_json = if b.managment then send_clients_json ∷ [] else []
dispatch b conf p saved r n file = elim conf.www_folder [
  | none ↦ send_error 501 (codes "no www-folder configured") ∷ []
  | some _ ↦ send_file r.parameter ∷ []
]
dispatch b conf p saved r n take_picture = take_actions p saved r n
dispatch b conf p saved r n cgi = execute_cgi r.parameter r.query_string ∷ []
dispatch b conf p saved r n unknown = []

-- From the request line on, with the credentials that the header lines gave (`none` where no line did).
unfoldable pub answer_request :
    Build → Config → Plugins → Bool → Option Bytes → Request → ℤ → List Action
unfolding dispatch authorized check_number
answer_request b conf p saved given r n =
    if not (authorized conf given)
    then r.sent ++ send_error 401 (codes "username and password do not match to configuration") ∷ []
    else (let r' = check_number p r n in r'.sent ++ dispatch b conf p saved r' n r'.type)

-- The thread: `buffer` is the request line and `lines` are the header lines that _readline returns after it.
unfoldable pub client_thread :
    Build → Config → Plugins → Bool → Bool → Bytes → List Bytes → List Action
client_thread b conf p cheating saved buffer lines = elim (classify b cheating buffer) [
  | refused e ↦ e ∷ []
  | parsed r ↦ elim (read_headers none lines) [
    | none ↦ r.sent
    | some given ↦ answer_request b conf p saved given r (plugin_number r buffer)
  ]
]
