-- ===== src/Httpd/Json/Sent.antt =====
-- What is sent is a header and a JSON document.
use mjpg_streamer.Common.{◌≡◌, true, not, List, Option, All, all}
use mjpg_streamer.Common.Text.{Bytes}
use mjpg_streamer.Httpd.Clients.{ClientInfo}
use mjpg_streamer.Httpd.Json.{
  Control, InputFormat, Plugin, has_menu, has_sizes, send_input_json, send_program_json,
  send_output_json, send_clients_json,
}
use mjpg_streamer.Httpd.Json.Grammar.{Plain}
use mjpg_streamer.Httpd.Json.Controls.{PlainControl}
use mjpg_streamer.Httpd.Json.Bodies.{Json, PlainPlugin}

-- The four documents.
pub data Document : Type 0 where
  input_document : List Control → List InputFormat → Document
  program_document : List Plugin → List Plugin → Document
  output_document : List Control → Document
  clients_document : List ClientInfo → Document

abbrev pub send_document : Document → Option Bytes
send_document (input_document controls formats) = send_input_json controls formats
send_document (program_document inputs outputs) = send_program_json inputs outputs
send_document (output_document controls) = send_output_json controls
send_document (clients_document infos) = send_clients_json infos

-- Every menu and list of resolutions was allocated, no width, height or number of a resolution has more than the five
-- characters that its buffer takes, and the strings hold no quote, no backslash and, but for the names of
-- an input plugin's menus, no control character.
abbrev pub PlainDocument : Document → Type 0
PlainDocument (input_document controls formats) =
    (all has_menu controls ≡ true)
    × (all has_sizes formats ≡ true)
    × All PlainControl controls
    × All (λ f. All Plain f.description) formats
PlainDocument (program_document inputs outputs) = All PlainPlugin inputs × All PlainPlugin outputs
PlainDocument (output_document controls) =
    (all (λ c. not c.is_menu) controls ≡ true) × All (λ c. All Plain c.name) controls
PlainDocument (clients_document infos) = All (λ c. All Plain c.address) infos
