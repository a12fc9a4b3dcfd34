-- ===== src/Httpd/Stream.antt =====
-- send_snapshot and send_stream of httpd.c: what they write to the client.
-- A call of write fails or takes all its bytes (the source looks at no more of its result). The frames
-- are those that the waits on db_update yield; their list ends when the stop flag is seen.
use mjpg_streamer.Common.{
  ℕ, ◌+◌, ◌*◌, Bool, not, ◌&&◌, List, [], ◌∷◌, ◌++◌, if◌then◌else◌, length, ltb,
}
use mjpg_streamer.Common.Text.{Bytes, codes}
use mjpg_streamer.Httpd.Print.{decimal, decimal_padded}
use mjpg_streamer.Httpd.Response.{std_header, send_error}

-- What an input plugin publishes: `buf` with its `size`, and the timestamp.
pub record Frame : Type 0 where
  pub buf : Bytes
  pub tv_sec : ℕ
  pub tv_usec : ℕ

-- How the calls that can fail end: the n-th write of the connection, and the n-th allocation.
pub record Outcomes : Type 0 where
  pub write_ok : ℕ → Bool
  pub alloc_ok : ℕ → Bool

pub data StreamEnd : Type 0 where
  stopped write_failed no_memory : StreamEnd

pub record Sent : Type 0 where
  pub bytes : Bytes
  pub ending : StreamEnd

abbrev pub sent : Bytes → StreamEnd → Sent
sent b e = record { bytes = b; ending = e }

abbrev pub prepend : Bytes → Sent → Sent
prepend b s = record s { bytes = b ++ s.bytes }

abbrev pub timestamp_text : Frame → Bytes → Bytes
timestamp_text f rest =
    codes "X-Timestamp: "
    ++ (decimal f.tv_sec
        ++ (codes "." ++ (decimal_padded 6 f.tv_usec ++ (codes "\r\n\r\n" ++ rest))))

unfoldable pub snapshot_header : Frame → Bytes
snapshot_header f =
    codes "HTTP/1.0 200 OK\r\nAccess-Control-Allow-Origin: *\r\n"
    ++ (std_header ++ (codes "Content-type: image/jpeg\r\n" ++ timestamp_text f []))

-- send_snapshot of a fresh frame.
unfoldable pub send_snapshot : Outcomes → Frame → Sent
unfolding snapshot_header
send_snapshot o f =
    if not (o.alloc_ok 0)
    then sent (send_error 500 (codes "not enough memory")) no_memory
    else if not (o.write_ok 0)
    then sent [] write_failed
    else if not (o.write_ok 1)
    then sent (snapshot_header f) write_failed
    else sent (snapshot_header f ++ f.buf) stopped

-- The answer in front of the first part.
abbrev pub stream_header : Bytes
stream_header =
    codes "HTTP/1.0 200 OK\r\nAccess-Control-Allow-Origin: *\r\n"
    ++ (std_header
        ++ codes
            "Content-Type: multipart/x-mixed-replace;boundary=boundarydonotcross\r\n\r\n--boundarydonotcross\r\n")

unfoldable pub part_header : Frame → Bytes
part_header f =
    codes "Content-Type: image/jpeg\r\nContent-Length: "
    ++ (decimal (length f.buf) ++ (codes "\r\n" ++ timestamp_text f []))

abbrev pub part_end : Bytes
part_end = codes "\r\n--boundarydonotcross\r\n"

-- TEN_K
abbrev pub ten_k : ℕ
ten_k = 10 * 1024

-- max_frame_size after the check of a frame of the given size.
unfoldable pub grown : ℕ → ℕ → ℕ
grown max_frame_size size = if ltb max_frame_size size then size + ten_k else max_frame_size

-- The loop of send_stream, with the number of writes and allocations done.
unfoldable pub stream_loop : Outcomes → ℕ → ℕ → ℕ → List Frame → Sent
unfolding grown part_header
stream_loop o w a max_frame_size [] = sent [] stopped
stream_loop o w a max_frame_size (f ∷ fs) =
    let more = ltb max_frame_size (length f.buf) in
    let rest =
      stream_loop o (w + 3) (if more then a + 1 else a) (grown max_frame_size (length f.buf)) fs in
    if more && not (o.alloc_ok a)
    then sent (send_error 500 (codes "not enough memory")) no_memory
    else if not (o.write_ok w)
    then sent [] write_failed
    else if not (o.write_ok (w + 1))
    then sent (part_header f) write_failed
    else if not (o.write_ok (w + 2))
    then sent (part_header f ++ f.buf) write_failed
    else prepend (part_header f) (prepend f.buf (prepend part_end rest))

unfoldable pub send_stream : Outcomes → List Frame → Sent
unfolding stream_loop
send_stream o frames =
    if not (o.write_ok 0)
    then sent [] write_failed
    else prepend stream_header (stream_loop o 1 0 0 frames)
