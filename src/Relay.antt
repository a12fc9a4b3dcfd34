-- ===== src/Relay.antt =====
-- send_stream of plugins/output_http/httpd.c against extract_data of plugins/input_http/mjpg-proxy.c:
-- one instance of the program reads the stream of another.
use mjpg_streamer.Common.{
  ℕ, ◌+◌, ◌<◌, ◌≡◌, refl, ap, ap₂, ◌∙◌, true, false, List, [], ◌∷◌, ◌++◌, arith, if◌then◌else◌,
  length, map, some, ltb, append_assoc, take-append_left, All,
}
use mjpg_streamer.Common.Int.{pos}
use mjpg_streamer.Common.Text.{Bytes, codes, contains}
use mjpg_streamer.Httpd.Print.{decimal, decimal_padded, decimal-IsDigit, decimal_padded-IsDigit}
use mjpg_streamer.Httpd.Response.{std_header}
use mjpg_streamer.Httpd.Stream.{
  Frame, Outcomes, part_header, stream_header, part_end, stream_loop, send_stream, stopped, grown,
}
use mjpg_streamer.Proxy.{
  ExtractorState, ImageCall, init_extractor_state, buffer_size, boundary_text, on_image_received,
  send_request_and_process_response, Block, search_pattern_compare, search_pattern_matches,
  search_pattern_reset, header_byte, content_byte, push_byte, is_crlf, is_crlfcrlf, step_in,
  shift_16,
}
use mjpg_streamer.Proxy.Content.{stored_at, run_image, image_end, run-image_end}
use mjpg_streamer.Proxy.Crlf.{
  IsDigit, Flags, flags, scan, scan-append, scan_digits, clear, cr_like, lf_like,
}
use mjpg_streamer.Proxy.Header.{run_empty_line}
use mjpg_streamer.Proxy.Run.{
  run, run_piece, Runs, joined, send_request_and_process_response-joined, extract_data-run,
}

abbrev after_usec : Bytes
after_usec = codes "\r\n\r"

abbrev after_sec : Frame → Bytes
after_sec f = codes "." ++ (decimal_padded 6 f.tv_usec ++ after_usec)

abbrev after_size : Frame → Bytes
after_size f = codes "\r\nX-Timestamp: " ++ (decimal f.tv_sec ++ after_sec f)

-- The header of a part up to the line feed that ends it, behind the line end of the boundary's line.
abbrev part_text : Frame → Bytes
part_text f =
    codes "\r\nContent-Type: image/jpeg\r\nContent-Length: "
    ++ (decimal (length f.buf) ++ after_size f)

part_text-part_header : (f : Frame) → 13 ∷ 10 ∷ part_header f ≡ part_text f ++ 10 ∷ []
unfolding part_header
part_text-part_header f = simp append_assoc

abbrev at_line_end : Flags
at_line_end = record { cr = true; now = false; before = true }

scan_past : (ds rest : Bytes) → All IsDigit ds → scan clear (ds ++ rest) ≡ scan clear rest
scan_past ds rest h = scan-append ds rest clear (scan_digits ds h)

-- No part header holds an empty line before its end, whatever the size and the timestamp.
scan-part_text : (f : Frame) → scan (flags 0) (part_text f) ≡ some at_line_end
unfolding scan cr_like lf_like is_crlf
scan-part_text f =
    scan_past (decimal (length f.buf)) (after_size f) (decimal-IsDigit (length f.buf))
    ∙ scan_past (decimal f.tv_sec) (after_sec f) (decimal-IsDigit f.tv_sec)
    ∙ scan_past (decimal_padded 6 f.tv_usec) after_usec (decimal_padded-IsDigit 6 f.tv_usec)

-- A frame that the extractor can carry: no boundary in it, and room for what ends it.
pub record Fits (f : Frame) : Type 0 where
  pub plain : contains f.buf boundary_text ≡ false
  pub room : length f.buf + 22 < buffer_size

-- The call of the callback for a frame.
abbrev pub call_for : Frame → ImageCall
call_for f = record { stored = f.buf ++ image_end; size = pos (length f.buf) }

-- From a fresh state, a part of the stream with what ends it: one call, for its frame.
run_part :
    (f : Frame)
    → Fits f
    → run init_extractor_state ((13 ∷ 10 ∷ part_header f) ++ (f.buf ++ image_end))
      ≡ (init_extractor_state, call_for f ∷ [])
unfolding init_extractor_state cr_like lf_like is_crlf
run_part f fits =
    let s = init_extractor_state in
    let (t, ran, heads) =
      run_empty_line (part_text f) 10 s refl (omega arith) (scan-part_text f) (omega arith) refl in
    let entered : t ≡ stored_at t boundary_text [] 0 = λ i. record {
      buffer = heads.buffer i;
      part = heads.part i;
      last_four_bytes = t.last_four_bytes;
      contentlength = t.contentlength;
      boundary = heads.boundary i;
    } in
    let (k, below, stored) =
      run_image t boundary_text refl f.buf [] 0 (omega arith) fits.plain
        (omega (arith, fits.room)) in
    let settled : run t (f.buf ++ image_end) ≡ (s, call_for f ∷ []) =
      ap (λ (u : ExtractorState). run u (f.buf ++ image_end)) entered
      ∙ run_piece f.buf image_end (stored_at t boundary_text [] 0)
          (stored_at t boundary_text f.buf k) [] stored
      ∙ rw (run-image_end t f.buf k below fits.room) in
    ap (λ (xs : Bytes). run s (xs ++ (f.buf ++ image_end))) (part_text-part_header f)
    ∙ run_piece (part_text f ++ 10 ∷ []) (f.buf ++ image_end) s t [] ran
    ∙ rw settled

-- The parts of a stream: what send_stream writes for the frames while no write fails.
abbrev parts : List Frame → Bytes
parts [] = []
parts (f ∷ fs) = part_header f ++ (f.buf ++ (part_end ++ parts fs))

-- Every write and every allocation succeeds.
abbrev pub AllOk : Outcomes → Type 0
AllOk o = ((n : ℕ) → o.write_ok n ≡ true) × ((n : ℕ) → o.alloc_ok n ≡ true)

bytes-stream_loop :
    (o : Outcomes) (w a m : ℕ) (fs : List Frame)
    → AllOk o
    → stream_loop o w a m fs ≡ record { bytes = parts fs; ending = stopped }
unfolding stream_loop
bytes-stream_loop o w a m [] ok = refl
bytes-stream_loop o w a m (f ∷ fs) ok =
    let more = ltb m (length f.buf) in
    ground (
      arith,
      ok.0 w,
      ok.0 (w + 1),
      ok.0 (w + 2),
      ok.1 a,
      bytes-stream_loop o (w + 3) (if more then a + 1 else a) (grown m (length f.buf)) fs ok,
    )

line_end_calls : (run init_extractor_state (13 ∷ 10 ∷ [])).1 ≡ []
unfolding run step_in init_extractor_state header_byte push_byte is_crlf is_crlfcrlf shift_16
    search_pattern_compare search_pattern_matches search_pattern_reset
line_end_calls = refl

-- After the last boundary only its line end follows.
run-parts :
    (fs : List Frame)
    → All Fits fs
    → run init_extractor_state (13 ∷ 10 ∷ parts fs)
      ≡ ((run init_extractor_state (13 ∷ 10 ∷ [])).0, map call_for fs)
run-parts [] h = ap₂ (λ (a : ExtractorState) (b : List ImageCall). (a, b)) refl line_end_calls
run-parts (f ∷ fs) (fit, h) =
    ap (λ (xs : Bytes). run init_extractor_state xs) (regroup f fs)
    ∙ run_piece ((13 ∷ 10 ∷ part_header f) ++ (f.buf ++ image_end)) (13 ∷ 10 ∷ parts fs)
        init_extractor_state init_extractor_state (call_for f ∷ []) (run_part f fit)
    ∙ rw (run-parts fs h)
  where
    regroup :
        (f : Frame) (fs : List Frame)
        → 13 ∷ 10 ∷ parts (f ∷ fs)
          ≡ ((13 ∷ 10 ∷ part_header f) ++ (f.buf ++ image_end)) ++ (13 ∷ 10 ∷ parts fs)
    regroup f fs = simp append_assoc

-- The head of the answer: "OK\r\n" passes the mask test for an empty line, so what follows it up to the
-- first boundary goes to the callback as an image.
unfoldable pub preamble : Bytes
preamble =
    codes "Access-Control-Allow-Origin: *\r\n"
    ++ (std_header
        ++ codes "Content-Type: multipart/x-mixed-replace;boundary=boundarydonotcross\r\n")

preamble_call : ImageCall
unfolding preamble
preamble_call = record { stored = preamble ++ image_end; size = pos (length preamble) }

run_preamble :
    run init_extractor_state (
      codes "HTTP/1.0 200 OK\r\nAccess-Control-Allow-Origin: *\r\n"
      ++ (std_header
          ++ codes
              "Content-Type: multipart/x-mixed-replace;boundary=boundarydonotcross\r\n\r\n--boundarydonotcross"))
    ≡ (init_extractor_state, preamble_call ∷ [])
unfolding run step_in init_extractor_state header_byte content_byte push_byte is_crlf is_crlfcrlf
    shift_16 search_pattern_compare search_pattern_matches search_pattern_reset preamble_call
    preamble
run_preamble = refl

image_of_call : (f : Frame) → on_image_received (call_for f) ≡ some f.buf
unfolding on_image_received
image_of_call f = ap some (take-append_left f.buf image_end)

images_of_calls :
    (fs : List Frame) → map on_image_received (map call_for fs) ≡ map (λ f. some f.buf) fs
images_of_calls [] = refl
images_of_calls (f ∷ fs) = ap₂ ◌∷◌ (image_of_call f) (images_of_calls fs)

image_of_preamble : on_image_received preamble_call ≡ some preamble
unfolding on_image_received preamble_call preamble
image_of_preamble = refl

-- Where no write or allocation of the server fails and the client's stop flag stays off, the images that
-- the client publishes, however the stream is cut into blocks, are the rest of the HTTP header behind its
-- status line, and then exactly the server's frames in order, for frames that hold no boundary and leave
-- room for its text in the client's buffer.
pub process-send_stream :
    (o : Outcomes) (frames : List Frame) (blocks : List Block)
    → AllOk o
    → All Fits frames
    → Runs blocks
    → joined blocks ≡ (send_stream o frames).bytes
    → map on_image_received (send_request_and_process_response blocks).1
      ≡ some preamble ∷ map (λ f. some f.buf) frames
unfolding send_stream
process-send_stream o frames blocks ok fit on same =
    let whole : (send_stream o frames).bytes ≡ stream_header ++ parts frames =
      ground (arith, ok.0 0, bytes-stream_loop o 1 0 0 frames ok) in
    let ran : send_request_and_process_response blocks
        ≡ ((run init_extractor_state (13 ∷ 10 ∷ [])).0, preamble_call ∷ map call_for frames) =
      send_request_and_process_response-joined blocks on
      ∙ extract_data-run init_extractor_state (joined blocks)
      ∙ ap (λ (xs : Bytes). run init_extractor_state xs) (same ∙ whole)
      ∙ run_piece _ (13 ∷ 10 ∷ parts frames) init_extractor_state init_extractor_state
          (preamble_call ∷ []) run_preamble
      ∙ rw (run-parts frames fit) in
    rw ran (ap₂ ◌∷◌ image_of_preamble (images_of_calls frames))
