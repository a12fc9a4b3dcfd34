-- ===== src/Lib.antt =====
-- mjpg-streamer: input plugins produce JPEG frames, output plugins consume them, and the main program loads both and
-- owns the frame that they share. The program is under mjpg-streamer-experimental/; paths below are from there.
--
-- Parts, and the files that model them:
-- - Proxy: plugins/input_http/misc.c and mjpg-proxy.c, the extractor that cuts JPEG images out of a multipart stream
--   (extract_data, send_request_and_process_response), and on_image_received of input_http.c. One function for each
--   function of the source; HEADER and CONTENT of extract_data are header_byte and content_byte. Proxy/Crlf is the mask
--   test for line ends, Proxy/Run the independence of blocks, Proxy/Header and Proxy/Content what a header and an
--   image do to the extractor, Proxy/Bounds its array bounds.
-- - Httpd: plugins/output_http/httpd.c. Stream is send_stream and send_snapshot, Response is send_error, Print the
--   numbers that sprintf writes, Iobuffer is _read and _readline, Base64 is decodeBase64, Unescape is unescape,
--   Request is client_thread, Files is send_file, Command is command, Clients the table of clients of the MANAGMENT
--   build. A request is answered by a list of actions (Request); what an action writes is modelled by the other
--   modules.
-- - Relay: one instance of the program reads the stream of another, send_stream against the extractor.
-- - FileOutput: plugins/output_file/output_file.c, the ring buffer of pictures and output_cmd.
-- - Jpeg: plugins/input_uvc/jpeg_utils.c, the pixel conversions.
-- - Main: mjpg_streamer.c, split_parameters and the closing of handles in signal_handler.
-- - Udp: plugins/output_udp/output_udp.c, the worker thread. Resolution: utils.c, parse_resolution_opt.
-- - Frames: the part of struct _input of plugins/input.h that the threads share, with its mutex and condition variable.
--   Frames/Stores is what the writes of a plugin leave, Frames/Mutex who holds the mutex, Frames/Board the whole frames
--   that the readers see, Frames/Sights, Frames/Due and Frames/Fresh their order, Frames/Holder and Frames/Progress the
--   release of the mutex.
-- - Uvc: plugins/input_uvc. Table is huffman.h, Picture is_huffman and memcpy_picture, Camera uvcGrab and cam_thread.
--   Controls is xioctl and the requests to the driver, Controls/Table control_readed and enumerateControls,
--   Controls/Commands v4l2SetControl and input_cmd, Controls/Listed what the table lists, Controls/Places and
--   Controls/Settled what a command leaves.
-- - FileInput: plugins/input_file/input_file.c, the worker thread in both modes (Cycle, Watch).
-- - Httpd/Json: the JSON documents of httpd.c. Json/Grammar is the grammar of JSON, Json/Controls, Json/Documents,
--   Json/Bodies and Json/Sent that they keep to it.
-- - Httpd/Webcam: send_stream_wxp of httpd.c, the stream in the format of WebcamXP.
-- - Httpd/Cgi: execute_cgi of httpd.c. Main/Load: main of mjpg_streamer.c; Main/Order the order of its effects.
-- - Autofocus: plugins/output_autofocus. Autofocus is the bit reader and the decoder of a block of
--   processJPEG_onlyCenter.c, Scan its loop over the blocks, Image getFrameSharpnessValue with the markers, Focus the
--   worker thread of output_autofocus.c. Ahead, Refilled and Codes are about the bits that are read ahead, Lookup and
--   Symbols about the search for a code, Tables about the tables of a segment, Blocks, Coefficients and Scan/Decoded
--   about a block, Scan/Summed, Scan/Started and Image/Scanned about a scan, Focus/Search about a search.
-- - FileOutput/Names: the names of the pictures of output_file.c, and check_for_filename.
-- - Common: numbers, lists, signed integers, and the C string functions. Tests: the theorems at concrete inputs.
--
-- Conventions: a byte is a number from 0 to 255, a C string the list of its bytes before the zero. An int is an
-- integer where it does not overflow; last_four_bytes and the base64 accumulator wrap at 32 bits. The threads that
-- share a frame are interleaved statement by statement in Frames; elsewhere a thread waits for frames and events that
-- are given as lists, so every loop over them ends with its list. Loops with fuel: unescape
-- and last_dot (the length of the text), copy_file (the length of the file), decimal (the number itself); that the
-- fuel is enough is part of the theorems on them. Of the autofocus plugin: refill (two turns), ac_loop (63), dht_loop and
-- marker_loop (the bytes that are left); each turn of the last two takes bytes, and without any they end like a read
-- behind the frame. The enumeration of a camera's controls has 2 ^ 31 turns, one for each id a driver can name.
--
-- Not modelled: the destination manager of jpeg_utils.c, sockets, the command lines of the plugins, the setting up of
-- cameras and the change of their resolution, the plugins that call a vendor's library, and plugins/input_raspicam/mmal, which is another project's library. libjpeg, the file system, the
-- plugins' functions, popen, the ioctl requests of the controls, the arithmetic on doubles and the names of
-- pictures are parameters.
pub mod Autofocus
pub mod Common
pub mod Proxy
pub mod FileInput
pub mod FileOutput
pub mod Frames
pub mod Httpd
pub mod Jpeg
pub mod Main
pub mod Relay
pub mod Resolution
pub mod Tests
pub mod Udp
pub mod Uvc
