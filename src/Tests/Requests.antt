-- ===== src/Tests/Requests.antt =====
-- Concrete requests.
use mjpg_streamer.Common.{
  ◌≡◌, ◌≢◌, refl, true, false, List, [], ◌∷◌, ◌++◌, Option, none, some, All, if◌then◌else◌, arith,
}
use mjpg_streamer.Common.Int.{ℤ, pos}
use mjpg_streamer.Common.Text.{Bytes, codes, strstr, strchr, span, mem, c_string, str_eq}
use mjpg_streamer.Httpd.Json.{Control, InputFormat}
use mjpg_streamer.Httpd.Json.Bodies.{Json}
use mjpg_streamer.Httpd.Base64.{decode_base64, encode, decode_base64-encode, Plain, Ignored, sextet}
use mjpg_streamer.Httpd.Unescape.{unescape, unescaped, Ends, unescape-unescaped}
use mjpg_streamer.Httpd.Request.{
  Build, Config, Plugins, client_thread, read_headers, file_request, asks, parsed,
}
use mjpg_streamer.Httpd.Request.Safety.{OnlyErrors, client_thread-InRange, client_thread-OnlyErrors}
use mjpg_streamer.Httpd.Request.Shape.{InRange}
use mjpg_streamer.Httpd.Files.{find_file, serves, last_dot_loop, mimetype}
use mjpg_streamer.Httpd.Files.Laws.{file_request-served}
use mjpg_streamer.Httpd.Command.{Arguments, command}
use mjpg_streamer.Httpd.Command.Laws.{Loaded, call_of, command-Loaded}
use mjpg_streamer.Httpd.Clients.{ClientInfo, Timeval, add_client}
use mjpg_streamer.Httpd.Clients.{Registered, add_client-Registered}

abbrev plain_build : Build
plain_build = record { wxp_compat = false; managment = true }

abbrev locked : Config
locked = record {
  credentials = some (codes "user:pass");
  www_folder = some (codes "/www/");
  nocommands = false;
}

abbrev two_plugins : Plugins
two_plugins = record {
  incnt = 1;
  outcnt = 2;
  output_names = some (codes "HTTP output plugin") ∷ some (codes "FILE output plugin") ∷ [];
}

abbrev far_snapshot : Bytes
far_snapshot = codes "GET /?action=snapshot_7 HTTP/1.0\r\n"

client_thread-InRange_example :
    All
      (InRange two_plugins)
      (client_thread plain_build locked two_plugins false true far_snapshot (codes "\r\n" ∷ []))
client_thread-InRange_example =
    client_thread-InRange plain_build locked two_plugins false true far_snapshot (codes "\r\n" ∷ [])
      refl

no_credentials : read_headers none (codes "\r\n" ∷ []) ≢ some (some (codes "user:pass"))
unfolding read_headers strstr
no_credentials e = cc

client_thread-OnlyErrors_example :
    OnlyErrors
      (client_thread plain_build locked two_plugins false true far_snapshot (codes "\r\n" ∷ []))
client_thread-OnlyErrors_example =
    client_thread-OnlyErrors plain_build locked two_plugins false true far_snapshot
      (codes "user:pass") (codes "\r\n" ∷ []) refl refl no_credentials

abbrev one_file : Bytes → Option Bytes
one_file path = if str_eq path (codes "/www/a.html") then some (codes "<p>") else none

page_found :
    find_file one_file (codes "/www/") (codes "a.html")
    ≡ serves (codes "/www/a.html") (codes "text/html") (codes "<p>")
unfolding find_file strchr last_dot_loop mimetype
page_found = refl

page_request :
    file_request (codes "GET /a.html HTTP/1.0\r\n")
    ≡ parsed (record (asks mjpg_streamer.Httpd.Request.file false) { parameter = codes "a.html" })
unfolding file_request strstr span
page_request = refl

file_request-served_example :
    (name : Bytes) × (codes "/www/a.html" ≡ codes "/www/" ++ name) × (mem b'/' name ≡ false)
file_request-served_example =
    file_request-served one_file (codes "/www/") (codes "GET /a.html HTTP/1.0\r\n")
      (codes "/www/a.html") (codes "text/html") (codes "<p>") _ (omega arith) page_request
      page_found

unescape-unescaped_example :
    Ends
      (unescaped (codes "a%20b"))
      0
      (codes "a%20b" ++ 0 ∷ [])
      (unescape (codes "a%20b" ++ 0 ∷ []))
unescape-unescaped_example = unescape-unescaped (codes "a%20b")

user_pass-Plain : Plain (codes "user:pass")
user_pass-Plain = (
  (omega arith, omega arith),
  (
    (omega arith, omega arith),
    (
      (omega arith, omega arith),
      (
        (omega arith, omega arith),
        (
          (omega arith, omega arith),
          (
            (omega arith, omega arith),
            (
              (omega arith, omega arith),
              ((omega arith, omega arith), ((omega arith, omega arith), tt)),
            ),
          ),
        ),
      ),
    ),
  ),
)

line_end-Ignored : Ignored (codes "\r\n")
unfolding sextet
line_end-Ignored = (refl, (refl, tt))

decode_base64-encode_example :
    c_string (decode_base64 (encode (codes "user:pass") ++ codes "\r\n")) ≡ codes "user:pass"
decode_base64-encode_example =
    decode_base64-encode (codes "user:pass") (codes "\r\n") user_pass-Plain line_end-Ignored

abbrev no_result : Arguments → ℤ
no_result a = pos 0

command-Loaded_example :
    Loaded 1 2 (call_of (command no_result no_result 1 2 (codes "dest=1&plugin=1&id=3&value=7")))
command-Loaded_example =
    command-Loaded no_result no_result 1 2 (codes "dest=1&plugin=1&id=3&value=7") refl

abbrev at_start : Timeval
at_start = record { tv_sec = pos 0; tv_usec = pos 0 }

abbrev one_client : List ClientInfo
one_client = record { address = codes "10.0.0.1"; last_take_time = at_start } ∷ []

add_client-Registered_example :
    Registered (codes "10.0.0.2") one_client (add_client (codes "10.0.0.2") one_client)
add_client-Registered_example = add_client-Registered (codes "10.0.0.2") one_client (tt, tt)

abbrev menu_control : Control
menu_control = record {
  name = codes "Exposure, Auto";
  id = pos 10094849;
  type = pos 3;
  minimum = pos 0;
  maximum = pos 1;
  step = pos 1;
  default_value = pos 0;
  value = pos 1;
  flags = pos 0;
  group = pos 1;
  is_menu = true;
  menuitems = some (codes "Auto Mode" ∷ codes "Manual\nMode" ∷ []);
}

abbrev vga_format : InputFormat
vga_format = record {
  index = pos 0;
  description = codes "MJPEG";
  compressed = true;
  emulated = false;
  current_resolution = pos 0;
  resolutions = (pos 640, pos 480) ∷ (pos 320, pos 240) ∷ [];
}
