-- ===== src/Tests/Streams.antt =====
-- Concrete streams, images and reads.
use mjpg_streamer.Common.{
  ◌≡◌, refl, true, false, List, [], ◌∷◌, ◌++◌, some, map, All, replicate, append-nil, arith,
}
use mjpg_streamer.Common.Text.{Bytes, codes, strstr}
use mjpg_streamer.Httpd.Webcam.{Dates, send_stream_wxp, wxp_header}
use mjpg_streamer.Httpd.Webcam.Frames.{unpacked, send_stream_wxp-unpacked}
use mjpg_streamer.Httpd.Stream.{Frame, Outcomes, send_stream}
use mjpg_streamer.Httpd.Iobuffer.{Event, readable, timed_out, init_iobuffer, read, readline}
use mjpg_streamer.Httpd.Iobuffer.Laws.{IsValid, Splits, pending, coming, read-Splits}
use mjpg_streamer.Httpd.Iobuffer.Lines.{Reads, readline-Reads}
use mjpg_streamer.Proxy.{
  ExtractorState, content, init_extractor_state, extract_data, Block, on_image_received,
  send_request_and_process_response,
}
use mjpg_streamer.Proxy.Bounds.{InRange, extract_data-IsValid, init-IsValid}
use mjpg_streamer.Proxy.Run.{never, send_request_and_process_response-joined}
use mjpg_streamer.Relay.{process-send_stream, Fits, preamble}

abbrev all_ok : Outcomes
all_ok = record { write_ok = λ n. true; alloc_ok = λ n. true }

abbrev small_frame : Frame
small_frame = record { buf = 255 ∷ 216 ∷ 13 ∷ 10 ∷ 255 ∷ 217 ∷ []; tv_sec = 17; tv_usec = 5 }

small_frame-Fits : Fits small_frame
unfolding strstr
small_frame-Fits = record { plain = refl; room = omega arith }

abbrev one_block : Bytes → List Block
one_block bytes = record { halted = false; stop = never; bytes = bytes } ∷ []

process-send_stream_example :
    map on_image_received
      (send_request_and_process_response
        (one_block (send_stream all_ok (small_frame ∷ small_frame ∷ [])).bytes)).1
    ≡ some preamble ∷ some small_frame.buf ∷ some small_frame.buf ∷ []
process-send_stream_example =
    process-send_stream all_ok (small_frame ∷ small_frame ∷ [])
      (one_block (send_stream all_ok (small_frame ∷ small_frame ∷ [])).bytes)
      ((λ n. refl), (λ n. refl)) (small_frame-Fits, (small_frame-Fits, tt)) ((refl, refl), tt)
      (append-nil _)

abbrev answer_bytes : Bytes
answer_bytes = codes "HTTP/1.0 200 OK\r\n\r\nabc--boundarydonotcross"

extract_data-IsValid_example :
    mjpg_streamer.Proxy.Bounds.IsValid (extract_data never init_extractor_state answer_bytes).0
    × All InRange (extract_data never init_extractor_state answer_bytes).1
extract_data-IsValid_example =
    extract_data-IsValid never init_extractor_state answer_bytes init-IsValid

send_request_and_process_response-joined_example :
    send_request_and_process_response
      (one_block (codes "HTTP/1.0 200") ++ one_block (codes " OK\r\n\r\nabc"))
    ≡ extract_data never init_extractor_state (codes "HTTP/1.0 200 OK\r\n\r\nabc")
send_request_and_process_response-joined_example =
    send_request_and_process_response-joined
      (one_block (codes "HTTP/1.0 200") ++ one_block (codes " OK\r\n\r\nabc"))
      ((refl, refl), ((refl, refl), tt))

-- A buffer that an image without a boundary has filled.
abbrev full_state : ExtractorState
full_state = record init_extractor_state { buffer = replicate 262143 7; part = content }

init_iobuffer-IsValid : IsValid init_iobuffer
unfolding init_iobuffer
init_iobuffer-IsValid = record { whole = refl; inside = omega arith }

nothing_pending : (es : List Event) → pending init_iobuffer ++ coming es ≡ coming es
unfolding init_iobuffer
nothing_pending es = refl

abbrev in_pieces : List Event
in_pieces = readable (codes "GET /") ∷ readable (codes "x\nrest") ∷ []

readline-Reads_example :
    Reads (readline in_pieces init_iobuffer 1024) (codes "GET /x\n") (codes "rest")
readline-Reads_example =
    readline-Reads (codes "GET /x") (codes "rest") 1024 in_pieces init_iobuffer
      init_iobuffer-IsValid (omega arith, omega arith, (omega arith, omega arith, tt)) refl
      (omega arith) (nothing_pending in_pieces)

read-Splits_example :
    Splits
      (pending init_iobuffer ++ coming (timed_out ∷ in_pieces))
      8
      (read (timed_out ∷ in_pieces) init_iobuffer 8)
read-Splits_example =
    read-Splits (timed_out ∷ in_pieces) init_iobuffer 8 init_iobuffer-IsValid
      (omega arith, (omega arith, tt))

abbrev wxp_dates : Dates
wxp_dates = record { current = codes "Mon"; expires = codes "Sun" }

abbrev all_well : Outcomes
all_well = record { write_ok = λ _. true; alloc_ok = λ _. true }

send_stream_wxp-unpacked_example :
    (body : Bytes) × ((send_stream_wxp wxp_dates all_well
        (record { buf = 1 ∷ 2 ∷ []; tv_sec = 0; tv_usec = 0 } ∷ [])).bytes
      ≡ wxp_header wxp_dates ++ body)
    × (unpacked 1 body ≡ (1 ∷ 2 ∷ []) ∷ [])
send_stream_wxp-unpacked_example =
    send_stream_wxp-unpacked wxp_dates all_well
      (record { buf = 1 ∷ 2 ∷ []; tv_sec = 0; tv_usec = 0 } ∷ []) (λ n. refl) (λ n. refl)
      (omega arith, tt)
