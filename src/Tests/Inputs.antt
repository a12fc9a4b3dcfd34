-- ===== src/Tests/Inputs.antt =====
-- Concrete cameras and folders.
use mjpg_streamer.Common.{
  ℕ, zero, suc, ◌≤◌, ◌<◌, ◌≡◌, refl, true, false, List, [], ◌∷◌, ◌++◌, none, some, some-injective,
  ◌≢◌, All, arith,
}
use mjpg_streamer.Common.Text.{Bytes, codes, strstr}
use mjpg_streamer.FileInput
use mjpg_streamer.FileInput.{contents, no_pictures}
use mjpg_streamer.FileInput.Cycle.{shown_from, worker_thread-shown_from, worker_thread-no_pictures}
use mjpg_streamer.FileInput.Watch.{Touches, worker_thread-Touches}
use mjpg_streamer.Uvc.Camera.{
  rgb24, Camera, CamState, Options, Turn, readable, interrupted, cam_loop,
}
use mjpg_streamer.Uvc.Camera.Dropped.{Spaced, cam_loop-Spaced}
use mjpg_streamer.Uvc.Table.{dht_data}
use mjpg_streamer.Uvc.Picture.{is_huffman, memcpy_picture, huffman_from, find_sof, sos, sof0}
use mjpg_streamer.Uvc.Picture.Markers.{At, HasTable, FirstSof, is_huffman-HasTable}
use mjpg_streamer.Uvc.Picture.Inserted.{Pictured, memcpy_picture-Pictured}

abbrev folder_of_two : List Bytes
folder_of_two = codes "a.txt" ∷ codes "b.jpg" ∷ []

abbrev folder_of_none : List Bytes
folder_of_none = codes "." ∷ codes ".." ∷ []

abbrev three_turns : List FileInput.Turn
three_turns =
    record { event = none; reading = contents (1 ∷ []) }
    ∷ record { event = none; reading = contents (2 ∷ []) }
    ∷ record {
      event = some (record { ours = true; stops = false; name = codes "b.jpg" });
      reading = contents (3 ∷ []);
    }
    ∷ []

abbrev existing_files : List Bytes → FileInput.Options
existing_files files = record {
  rm = false;
  folder = codes "in/";
  filename = none;
  existing = true;
  files = some files;
}

worker_thread-shown_from_example :
    FileInput.worker_thread (existing_files folder_of_two) three_turns
    ≡ shown_from false (codes "in/") folder_of_two 0 three_turns
unfolding strstr
worker_thread-shown_from_example =
    worker_thread-shown_from false (codes "in/") none folder_of_two three_turns refl

worker_thread-no_pictures_example :
    FileInput.worker_thread (existing_files folder_of_none) three_turns ≡ FileInput.ends no_pictures
unfolding strstr
worker_thread-no_pictures_example =
    worker_thread-no_pictures false (codes "in/") none folder_of_none three_turns refl (omega arith)
      (omega arith)

abbrev named_file : FileInput.Options
named_file = record {
  rm = true;
  folder = codes "in/";
  filename = some (codes "b.jpg");
  existing = false;
  files = none;
}

worker_thread-Touches_example :
    All
      (Touches (FileInput.path_of (codes "in/") (codes "b.jpg")))
      (FileInput.worker_thread named_file three_turns).effects
worker_thread-Touches_example =
    worker_thread-Touches true (codes "in/") (codes "b.jpg") none three_turns

-- A start of image, a start of frame, a start of scan.
abbrev tableless : Bytes
tableless = 255 ∷ 216 ∷ 255 ∷ 192 ∷ 9 ∷ 255 ∷ 218 ∷ 4 ∷ 5 ∷ []

abbrev with_table : Bytes
with_table = 255 ∷ 216 ∷ (dht_data ++ 255 ∷ 192 ∷ 9 ∷ 255 ∷ 218 ∷ 4 ∷ 5 ∷ [])

tableless_pictured : memcpy_picture tableless 9 ≡ some with_table
unfolding memcpy_picture is_huffman huffman_from find_sof
tableless_pictured = refl

tableless_has_none : ¬ HasTable 0 tableless
unfolding is_huffman huffman_from
tableless_has_none h = let found = (is_huffman-HasTable tableless).1 h in cc

differ : (a b : ℕ) → a ≢ b → some a ≢ some b
differ a b ne e = ne (some-injective a b e)

scan_behind : (j : ℕ) → j < 2 → ¬ At sos j tableless
scan_behind zero lt at = differ 65496 sos (omega arith) at
scan_behind (suc zero) lt at = differ 55551 sos (omega arith) at
scan_behind (suc (suc j)) lt at = omega arith

marker_early :
    (k : ℕ) → FirstSof 9 k tableless → (k ≤ 2048) × ((j : ℕ) → j < k → ¬ At sos j tableless)
marker_early zero h = absurd (differ 65496 sof0 (omega arith) h.there)
marker_early (suc zero) h = absurd (differ 55551 sof0 (omega arith) h.there)
marker_early (suc (suc zero)) h = (omega arith, scan_behind)
marker_early (suc (suc (suc k))) h = absurd (h.none_before 2 (omega arith) refl)

memcpy_picture-Pictured_example : Pictured tableless 9 with_table
memcpy_picture-Pictured_example = memcpy_picture-Pictured tableless 9 with_table tableless_pictured

abbrev camera : Camera
camera = record {
  format_in = rgb24;
  framesize_in = 3;
  tmpbuffer = [];
  framebuffer = 0 ∷ 0 ∷ 0 ∷ [];
  tmpbytesused = 0;
  tv_sec = 0;
  tv_usec = 0;
}

abbrev camera_options : Options
camera_options = record {
  every = 2;
  minimum_size = 1;
  want_timestamp = false;
  soft_framedrop = true;
  frame_period_time = 40;
  dv_timings = false;
  compress = λ c. c.framebuffer;
}

abbrev grabs : List Turn
grabs =
    readable (some (record { bytes = 1 ∷ 2 ∷ 3 ∷ []; tv_sec = 1; tv_usec = 0 })) true
      (record { tv_sec = 0; tv_usec = 0 }) none
    ∷ interrupted
    ∷ readable (some (record { bytes = 4 ∷ 5 ∷ 6 ∷ []; tv_sec = 1; tv_usec = 50000 })) true
        (record { tv_sec = 0; tv_usec = 0 }) none
    ∷ []

abbrev fresh_state : CamState
fresh_state = record { camera = camera; every_count = 0; last_sec = 0; last_usec = 0 }

cam_loop-Spaced_example : Spaced 40 0 0 (cam_loop camera_options fresh_state grabs).frames
cam_loop-Spaced_example = cam_loop-Spaced camera_options fresh_state grabs refl
