-- ===== src/Autofocus/Image/Scanned.antt =====
-- A whole scan, from behind its header: what the function has summed when it has read the bits of an encoder.
use mjpg_streamer.Autofocus.Scan.{Scan}
use mjpg_streamer.Autofocus.Image.{Image}
