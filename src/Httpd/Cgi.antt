-- ===== src/Httpd/Cgi.antt =====
-- execute_cgi of plugins/output_http/httpd.c. What open and popen yield for the path and for the command line are parameters;
-- `oks` tells of each write in turn whether it succeeds. A pointer has 8 bytes. conf.port is not negative.
pub mod Fits
use mjpg_streamer.Common.{
  ℕ, zero, suc, ◌+◌, Bool, true, false, List, [], ◌∷◌, ◌++◌, Option, none, some, length, take, drop,
  ltb, if◌then◌else◌,
}
use mjpg_streamer.Common.Text.{Bytes, codes}
use mjpg_streamer.Httpd.Files.{file_path}
use mjpg_streamer.Httpd.Print.{decimal}
use mjpg_streamer.Httpd.Response.{send_error}

-- The format string `enviroment`, in pieces between its conversions %d, %s, %s and %s.
abbrev pub before_port : Bytes
before_port = codes "SERVER_SOFTWARE=\"mjpg-streamer\" SERVER_PROTOCOL=\"HTTP/1.1\" SERVER_PORT=\""

abbrev pub before_script : Bytes
before_script = codes "\" GATEWAY_INTERFACE=\"CGI/1.1\" REQUEST_METHOD=\"GET\" SCRIPT_NAME=\""

abbrev pub before_query : Bytes
before_query = codes "\" QUERY_STRING=\""

abbrev pub before_path : Bytes
before_path = codes "\" "

abbrev pub enviroment : Bytes
enviroment =
    before_port
    ++ (codes "%d"
        ++ (before_script
            ++ (codes "%s" ++ (before_query ++ (codes "%s" ++ (before_path ++ codes "%s"))))))

-- What sprintf writes.
unfoldable pub command_line : ℕ → Bytes → Bytes → Bytes → Bytes
command_line port parameter query_string path =
    before_port
    ++ (decimal port
        ++ (before_script
            ++ (parameter ++ (before_query ++ (query_string ++ (before_path ++ path))))))

abbrev pub buffer_length : Bytes → Bytes → ℕ
buffer_length path parameter = length path + length enviroment + length parameter + 256

-- The writes to the client, or a write behind the end of `buffer`.
pub data Execution : Type 0 where
  overflows : Execution
  writes : List Bytes → Execution

-- while((i = fread(buffer, 1, sizeof(buffer), f)) > 0): each turn reads a byte at least, so the turns are enough.
unfoldable pub copy_output : ℕ → Bytes → List Bool → List Bytes
copy_output zero content oks = []
copy_output (suc turns) [] oks = []
copy_output (suc turns) (c ∷ content) [] = []
copy_output (suc turns) (c ∷ content) (false ∷ oks) = []
copy_output (suc turns) (c ∷ content) (true ∷ oks) =
    take 8 (c ∷ content) ∷ copy_output turns (drop 8 (c ∷ content)) oks

unfoldable pub execute_cgi :
    (Bytes → Bool) → (Bytes → Option Bytes) → Bytes → ℕ → Bytes → Bytes → List Bool → Execution
execute_cgi accessible popen www_folder port parameter query_string oks =
    let path = file_path www_folder parameter in
    let line = command_line port parameter query_string path in
    let executed : Execution = elim (popen line) [
      | none ↦ writes (send_error 403 (codes "CGI script cannot be executed") ∷ [])
      | some content ↦ writes (copy_output (length content) content oks)
    ] in
    if accessible path
    then if ltb (length line) (buffer_length path parameter) then executed else overflows
    else writes (send_error 404 (codes "Could not open file") ∷ [])
