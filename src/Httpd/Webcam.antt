-- ===== src/Httpd/Webcam.antt =====
-- send_stream_wxp of httpd.c, which WXP_COMPAT compiles in: a stream in the format of WebcamXP. The dates of the header
-- are texts that strftime yields. Frames, writes and allocations are those of Stream.
pub mod Frames
use mjpg_streamer.Common.{
  ℕ, ◌+◌, not, ◌&&◌, List, [], ◌∷◌, ◌++◌, if◌then◌else◌, length, take, replicate, ltb,
}
use mjpg_streamer.Common.Text.{Bytes, codes}
use mjpg_streamer.Httpd.Print.{decimal_padded}
use mjpg_streamer.Httpd.Response.{send_error}
use mjpg_streamer.Httpd.Stream.{
  Frame, Outcomes, stopped, write_failed, no_memory, Sent, sent, prepend, grown,
}

-- curDateBuffer and expDateBuffer.
pub record Dates : Type 0 where
  pub current : Bytes
  pub expires : Bytes

abbrev pub wxp_header : Dates → Bytes
wxp_header d =
    codes
      "HTTP/1.1 200 OK\r\nConnection: keep-alive\r\nContent-Type: multipart/x-mixed-replace; boundary=--myboundary\r\nContent-Length: 9999999\r\nCache-control: no-cache, must revalidate\r\nDate: "
    ++ (d.current
        ++ (codes "\r\nExpires: "
            ++ (d.expires ++ codes "\r\nPragma: no-cache\r\nServer: webcamXP\r\n\r\n")))

-- The text in front of a frame, in 50 bytes that were set to zero.
unfoldable pub frame_header : Frame → Bytes
frame_header f =
    take 50
      (codes "mjpeg " ++ (decimal_padded 7 (length f.buf) ++ (codes "12345" ++ replicate 50 0)))

-- The loop, with the number of writes and allocations done.
unfoldable pub wxp_loop : Outcomes → ℕ → ℕ → ℕ → List Frame → Sent
unfolding grown frame_header
wxp_loop o w a max_frame_size [] = sent [] stopped
wxp_loop o w a max_frame_size (f ∷ fs) =
    let more = ltb max_frame_size (length f.buf) in
    let rest =
      wxp_loop o (w + 2) (if more then a + 1 else a) (grown max_frame_size (length f.buf)) fs in
    if more && not (o.alloc_ok a)
    then sent (send_error 500 (codes "not enough memory")) no_memory
    else if not (o.write_ok w)
    then sent [] write_failed
    else if not (o.write_ok (w + 1))
    then sent (frame_header f) write_failed
    else prepend (frame_header f) (prepend f.buf rest)

unfoldable pub send_stream_wxp : Dates → Outcomes → List Frame → Sent
unfolding wxp_loop
send_stream_wxp d o frames =
    if not (o.write_ok 0)
    then sent [] write_failed
    else prepend (wxp_header d) (wxp_loop o 1 0 0 frames)
