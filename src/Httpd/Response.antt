-- ===== src/Httpd/Response.antt =====
-- The fixed texts of httpd.h and send_error of httpd.c.
use mjpg_streamer.Common.{ℕ, [], ◌++◌, ◌==◌, if◌then◌else◌}
use mjpg_streamer.Common.Text.{Bytes, codes}

-- STD_HEADER
abbrev pub std_header : Bytes
std_header =
    codes
      "Connection: close\r\nServer: MJPG-Streamer/0.2\r\nCache-Control: no-store, no-cache, must-revalidate, pre-check=0, post-check=0, max-age=0\r\nPragma: no-cache\r\nExpires: Mon, 3 Jan 2000 12:34:56 GMT\r\n"

-- A status line, the fields of every answer, one more field where there is one, and the body.
abbrev pub answer : Bytes → Bytes → Bytes → Bytes → Bytes
answer status extra title message =
    status
    ++ (codes "\r\nContent-type: text/plain\r\n"
        ++ (std_header ++ (extra ++ (codes "\r\n" ++ (title ++ (codes "\r\n" ++ message))))))

-- The bytes that send_error writes.
unfoldable pub send_error : ℕ → Bytes → Bytes
send_error which message =
    if which == 401
    then answer (codes "HTTP/1.0 401 Unauthorized")
        (codes "WWW-Authenticate: Basic realm=\"MJPG-Streamer\"\r\n")
        (codes "401: Not Authenticated!") message
    else if which == 404
    then answer (codes "HTTP/1.0 404 Not Found") [] (codes "404: Not Found!") message
    else if which == 500
    then answer (codes "HTTP/1.0 500 Internal Server Error") []
        (codes "500: Internal Server Error!") message
    else if which == 400
    then answer (codes "HTTP/1.0 400 Bad Request") [] (codes "400: Not Found!") message
    else if which == 403
    then answer (codes "HTTP/1.0 403 Forbidden") [] (codes "403: Forbidden!") message
    else answer (codes "HTTP/1.0 501 Not Implemented") [] (codes "501: Not Implemented!") message
