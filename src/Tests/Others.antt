-- ===== src/Tests/Others.antt =====
-- Concrete folders, pictures, arguments and handles.
use mjpg_streamer.Common.{
  true, ◌++◌, List, ℕ, ◌≡◌, ◌+◌, ◌≤◌, refl, false, [], ◌∷◌, none, some, replicate, set, length,
  arith,
}
use mjpg_streamer.Common.Text.{Bytes, codes}
use mjpg_streamer.FileOutput.Names.{
  LocalTime, stamped_name, underlined, check_for_filename, check_for_filename-stamped_name,
}
use mjpg_streamer.FileOutput.{worker_thread}
use mjpg_streamer.FileOutput.Command.{Control, Calls}
use mjpg_streamer.FileOutput.Ring.{deletes_all, options, worker_thread-bounded}
use mjpg_streamer.Jpeg.{yuv_rows, layout_yuyv}
use mjpg_streamer.Jpeg.Pixels.{picture, yuv_rows-picture}
use mjpg_streamer.Main.{Argv, split_parameters}
use mjpg_streamer.Main.Arguments.{Fills, Made, listed, split_parameters-words}
use mjpg_streamer.Common.Int.{pos}
use mjpg_streamer.Httpd.Print.{decimal, decimal_padded}
use mjpg_streamer.Resolution.{parse_resolution_opt, size_of}
use mjpg_streamer.Resolution.Sizes.{parse_resolution_opt-decimal}
use mjpg_streamer.Udp
use mjpg_streamer.Udp.{Turn}
use mjpg_streamer.Udp.Saved.{saved, replied, worker_thread-named}

abbrev picture_name : ℕ → Bytes
picture_name n = (48 + n) ∷ []

worker_thread-bounded_example :
    length
      (worker_thread deletes_all picture_name
        (options 2 3)
        8
        (record { counter = 0; folder = codes "old" ∷ codes "older" ∷ codes "oldest" ∷ [] })).folder
    ≤ 5
worker_thread-bounded_example =
    worker_thread-bounded picture_name 2 3 7 (codes "old" ∷ codes "older" ∷ codes "oldest" ∷ [])

abbrev four_pixels : Bytes
four_pixels = 10 ∷ 128 ∷ 20 ∷ 128 ∷ 30 ∷ 100 ∷ 40 ∷ 200 ∷ []

yuv_rows-picture_example :
    yuv_rows layout_yuyv four_pixels 1 3 false 0 ≡ picture layout_yuyv four_pixels 1 3 0
yuv_rows-picture_example = yuv_rows-picture layout_yuyv four_pixels 1 3

abbrev empty_argv : Argv
empty_argv = replicate 32 none

-- " -d  /dev/video0", with two spaces between the words.
abbrev camera_made : Made
camera_made = listed 1 (codes "-d") ((1, codes "/dev/video0") ∷ []) 0

split_parameters-words_example :
    Fills
      (set empty_argv 0 none)
      1
      (codes "-d" ∷ codes "/dev/video0" ∷ [])
      (split_parameters (some (codes " -d  /dev/video0")) empty_argv)
split_parameters-words_example =
    split_parameters-words camera_made empty_argv
      ((omega arith, refl), ((omega arith, refl), tt), refl) refl

abbrev named_turn : Turn
named_turn = record {
  message = codes "/tmp/a.jpg";
  frame = 255 ∷ 216 ∷ [];
  alloc_ok = true;
  open_ok = true;
  write_ok = true;
}

abbrev nameless_turn : Turn
nameless_turn = record named_turn { message = [] }

worker_thread-named_example :
    (saved (
        mjpg_streamer.Udp.worker_thread
          (pos 2001)
          (some (codes "ls"))
          0
          (named_turn ∷ nameless_turn ∷ []))
      ≡ (codes "/tmp/a.jpg", 255 ∷ 216 ∷ []) ∷ [])
    × (replied (
          mjpg_streamer.Udp.worker_thread
            (pos 2001)
            (some (codes "ls"))
            0
            (named_turn ∷ nameless_turn ∷ []))
        ≡ codes "/tmp/a.jpg" ∷ [] ∷ [])
worker_thread-named_example =
    worker_thread-named 2001 (some (codes "ls")) 0 (named_turn ∷ nameless_turn ∷ [])
      (λ e. absurd (omega (arith, e)))
      ((refl, refl, refl, omega arith), ((refl, refl, refl, omega arith), tt))

parse_resolution_opt-decimal_example :
    parse_resolution_opt (λ z. z) (decimal 1024 ++ b'x' ∷ decimal 600) ≡ some (size_of 1024 600)
parse_resolution_opt-decimal_example =
    parse_resolution_opt-decimal (λ z. z) 1024 600 (omega arith) (omega arith)

abbrev take_control : List Control
take_control = record { id = 1; group = 0 } ∷ []

abbrev no_failure : Calls
no_failure = record { lock_ok = true; alloc_ok = true; open_ok = true; written = some 2 }

abbrev new_year : LocalTime
new_year = record { year = 2024; month = 1; day = 1; hour = 0; minute = 0; second = 9 }

check_for_filename-stamped_name_example :
    check_for_filename (stamped_name new_year 12 (codes ".jpg")) ≡ true
check_for_filename-stamped_name_example = check_for_filename-stamped_name new_year 12 (codes ".jpg")

abbrev new_year_name : Bytes
new_year_name = codes "2024_01_01_00_00_09_picture_000000012.jpg"

stamped_name_test : stamped_name new_year 12 (codes ".jpg") ≡ new_year_name
unfolding stamped_name underlined decimal_padded decimal
stamped_name_test = refl
