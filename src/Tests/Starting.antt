-- ===== src/Tests/Starting.antt =====
-- The theorems on the main program and on CGI scripts at concrete inputs.
use mjpg_streamer.Common.{
  ◌+◌, ◌≤◌, ◌<◌, ◌≡◌, refl, Bool, true, false, All, all, ◌&&◌, List, [], ◌∷◌, ◌++◌, length, Option,
  some,
}
use mjpg_streamer.Common.Text.{Bytes, codes, joined}
use mjpg_streamer.Httpd.Cgi.{command_line, overflows, writes, execute_cgi}
use mjpg_streamer.Httpd.Cgi.Fits.{execute_cgi-fits}
use mjpg_streamer.Httpd.Files.{file_path}
use mjpg_streamer.Httpd.Print.{decimal}
use mjpg_streamer.Main.Load.{
  input, Plugin, in_plugin, out_plugin, pauses, main, options_loop, strings, default_output,
}
use mjpg_streamer.Main.Order.{
  EndsUnstarted, is_usable, all_run, all_initialised, all_started, main-ordered,
}

abbrev fine_plugin : Bytes → Option Plugin
fine_plugin name = some (record {
  has_init = true;
  has_stop = true;
  has_run = true;
  init = λ args. false;
  run = λ id. false;
})

abbrev one_input : List Bytes
one_input = codes "input_file.so -f /tmp" ∷ []

one_input_read :
    options_loop [] [] (input (codes "input_file.so -f /tmp") ∷ []) ≡ strings one_input []
unfolding options_loop
one_input_read = refl

main-ordered_example :
    ((all (is_usable fine_plugin) one_input && all (is_usable fine_plugin) (default_output []))
        ≡ false
      → EndsUnstarted (main fine_plugin (input (codes "input_file.so -f /tmp") ∷ [])))
    × ((all (is_usable fine_plugin) one_input && all (is_usable fine_plugin) (default_output []))
          ≡ true
        → all_run fine_plugin 0 one_input ≡ true
        → main fine_plugin (input (codes "input_file.so -f /tmp") ∷ []) ≡ record {
          effects =
              all_initialised in_plugin 0 one_input
              ++ (all_initialised out_plugin 0 (default_output [])
                  ++ (all_started in_plugin 0 one_input
                      ++ all_started out_plugin 0 (default_output [])));
          ending = pauses;
        })
main-ordered_example =
    main-ordered fine_plugin (input (codes "input_file.so -f /tmp") ∷ []) one_input []
      one_input_read

abbrev always : Bytes → Bool
always path = true

abbrev prints_ok : Bytes → Option Bytes
prints_ok line = some (codes "ok")

execute_cgi-fits_example :
    (263 < length (decimal 80) + length (codes "a=1")
      → execute_cgi always prints_ok
          (codes "/www/")
          80
          (codes "a.cgi")
          (codes "a=1")
          (true ∷ true ∷ [])
        ≡ overflows)
    × (length (decimal 80) + length (codes "a=1") ≤ 263
        → (content : Bytes)
        → prints_ok (
            command_line 80
              (codes "a.cgi")
              (codes "a=1")
              (file_path (codes "/www/") (codes "a.cgi")))
          ≡ some content
        → length content ≤ length (true ∷ true ∷ [])
        → All (λ ok. ok ≡ true) (true ∷ true ∷ [])
        → (sent : List Bytes) × (execute_cgi always prints_ok
              (codes "/www/")
              80
              (codes "a.cgi")
              (codes "a=1")
              (true ∷ true ∷ [])
            ≡ writes sent)
          × (joined sent ≡ content))
execute_cgi-fits_example =
    execute_cgi-fits always prints_ok (codes "/www/") 80 (codes "a.cgi") (codes "a=1")
      (true ∷ true ∷ []) refl
