-- ===== src/Httpd/Files.antt =====
-- send_file of httpd.c: the extension, its type, the path, and the copy of the file. The file system is a
-- parameter: `files path` is what opening the path and reading it to the end give.
pub mod Dots
pub mod Laws
use mjpg_streamer.Common.{
  ℕ, zero, suc, ◌-◌, Bool, true, false, List, [], ◌∷◌, ◌++◌, Option, none, some, length, take, drop,
  if◌then◌else◌, ◌==◌,
}
use mjpg_streamer.Common.Text.{Bytes, codes, strchr, str_eq}
use mjpg_streamer.Httpd.Response.{std_header, send_error}

-- BUFFER_SIZE of httpd.h
abbrev pub buffer_size : ℕ
buffer_size = 1024

-- mimetypes of httpd.h: the extension and the type.
abbrev pub mimetypes : List (Bytes × Bytes)
mimetypes =
    (codes ".html", codes "text/html")
    ∷ (codes ".htm", codes "text/html")
    ∷ (codes ".css", codes "text/css")
    ∷ (codes ".js", codes "text/javascript")
    ∷ (codes ".txt", codes "text/plain")
    ∷ (codes ".jpg", codes "image/jpeg")
    ∷ (codes ".jpeg", codes "image/jpeg")
    ∷ (codes ".png", codes "image/png")
    ∷ (codes ".gif", codes "image/gif")
    ∷ (codes ".ico", codes "image/x-icon")
    ∷ (codes ".swf", codes "application/x-shockwave-flash")
    ∷ (codes ".cab", codes "application/x-shockwave-flash")
    ∷ (codes ".jar", codes "application/java-archive")
    ∷ (codes ".json", codes "application/json")
    ∷ []

-- The loop over strchr: `pch` is what it has returned, and `last` is lastDot.
unfoldable pub last_dot_loop : ℕ → Bytes → Option Bytes → ℕ → ℕ
last_dot_loop zero parameter pch last = last
last_dot_loop (suc fuel) parameter none last = last
last_dot_loop (suc fuel) parameter (some pch) last =
    last_dot_loop fuel parameter (strchr (drop 1 pch) b'.') (length parameter - length pch)

unfoldable pub last_dot : Bytes → ℕ
last_dot parameter = last_dot_loop (suc (length parameter)) parameter (strchr parameter b'.') 0

-- The loop over the table.
unfoldable pub mimetype : List (Bytes × Bytes) → Bytes → Option Bytes
mimetype [] extension = none
mimetype ((dot_extension, type) ∷ rest) extension =
    let later = mimetype rest extension in
    if str_eq dot_extension extension then some type else later

-- The two calls of strncat into the buffer.
abbrev pub file_path : Bytes → Bytes → Bytes
file_path www_folder parameter =
    let head = take (buffer_size - 1) www_folder in
    head ++ take (buffer_size - length head - 1) parameter

-- The header and then the file, a buffer at a time, until a write fails; `oks` tells of each write in
-- turn whether it succeeds. What is returned are the writes that succeeded.
unfoldable pub copy_file : ℕ → Bytes → Bytes → List Bool → List Bytes
copy_file fuel buffer content [] = []
copy_file fuel buffer content (false ∷ oks) = []
copy_file zero buffer content (true ∷ oks) = buffer ∷ []
copy_file (suc fuel) buffer [] (true ∷ oks) = buffer ∷ []
copy_file (suc fuel) buffer (c ∷ cs) (true ∷ oks) =
    buffer ∷ copy_file fuel (take buffer_size (c ∷ cs)) (drop buffer_size (c ∷ cs)) oks

abbrev pub file_header : Bytes → Bytes
file_header type =
    codes "HTTP/1.0 200 OK\r\nContent-type: "
    ++ (type ++ (codes "\r\n" ++ (std_header ++ codes "\r\n")))

abbrev pub default_name : Bytes → Bytes
default_name [] = codes "index.html"
default_name (c ∷ cs) = c ∷ cs

-- What is decided before a byte is written.
pub data Served : Type 0 where
  failed : ℕ → Bytes → Served
  serves : Bytes → Bytes → Bytes → Served

-- The checks of send_file: an error, or the path, the type and the content.
unfoldable pub find_file : (Bytes → Option Bytes) → Bytes → Bytes → Served
unfolding last_dot
find_file files www_folder parameter =
    let name = default_name parameter in
    if last_dot name == 0
    then failed 400 (codes "No file extension found")
    else elim (mimetype mimetypes (drop (last_dot name) name)) [
      | none ↦ failed 404 (codes "MIME-TYPE not known")
      | some type ↦ elim (files (file_path www_folder name)) [
        | none ↦ failed 404 (codes "Could not open file")
        | some content ↦ serves (file_path www_folder name) type content
      ]
    ]

-- The writes of send_file.
unfoldable pub send_file : (Bytes → Option Bytes) → Bytes → Bytes → List Bool → List Bytes
unfolding find_file
send_file files www_folder parameter oks = elim (find_file files www_folder parameter) [
  | failed which message ↦ send_error which message ∷ []
  | serves path type content ↦ copy_file (suc (length content)) (file_header type) content oks
]
