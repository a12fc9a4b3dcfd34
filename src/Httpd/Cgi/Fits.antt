-- ===== src/Httpd/Cgi/Fits.antt =====
-- When the command line of a CGI script fits its buffer, and what the client then gets.
use mjpg_streamer.Common.{
  ℕ, zero, suc, ◌+◌, ◌≤◌, ◌<◌, ◌≡◌, refl, ap, ◌∙◌, Bool, true, false, List, [], ◌∷◌, ◌++◌, Option,
  some, length, length-append, length-drop, take, drop, take-append-drop, All, lt→ltb, le→ltb_false,
  arith,
}
use mjpg_streamer.Common.Text.{Bytes, joined}
use mjpg_streamer.Httpd.Files.{file_path}
use mjpg_streamer.Httpd.Print.{decimal}
use mjpg_streamer.Httpd.Cgi.{
  command_line, buffer_length, before_port, before_script, before_query, before_path, overflows,
  writes, copy_output, execute_cgi,
}

copy_output-joined :
    (turns : ℕ) (content : Bytes) (oks : List Bool)
    → length content ≤ turns
    → length content ≤ length oks
    → All (λ ok. ok ≡ true) oks
    → joined (copy_output turns content oks) ≡ content
unfolding copy_output
copy_output-joined zero [] oks h k a = refl
copy_output-joined zero (c ∷ content) oks h k a = absurd (omega arith)
copy_output-joined (suc turns) [] oks h k a = refl
copy_output-joined (suc turns) (c ∷ content) [] h k a = absurd (omega arith)
copy_output-joined (suc turns) (c ∷ content) (false ∷ oks) h k a = absurd (cc (a.0))
copy_output-joined (suc turns) (c ∷ content) (true ∷ oks) h k a =
    let l = length-drop 7 content in
    ap (λ t. take 8 (c ∷ content) ++ t)
      (copy_output-joined turns (drop 8 (c ∷ content)) oks (omega arith) (omega arith) a.1)
    ∙ take-append-drop 8 (c ∷ content)

eight_lengths :
    (a b c d e f g h : Bytes)
    → length (a ++ (b ++ (c ++ (d ++ (e ++ (f ++ (g ++ h)))))))
      ≡ length a + length c + length e + length g + (length b + length d + length f + length h)
eight_lengths a b c d e f g h = omega (
  arith,
  length-append a (b ++ (c ++ (d ++ (e ++ (f ++ (g ++ h)))))),
  length-append b (c ++ (d ++ (e ++ (f ++ (g ++ h))))),
  length-append c (d ++ (e ++ (f ++ (g ++ h)))),
  length-append d (e ++ (f ++ (g ++ h))),
  length-append e (f ++ (g ++ h)),
  length-append f (g ++ h),
  length-append g h,
)

length-command_line :
    (port : ℕ) (parameter query_string path : Bytes)
    → length (command_line port parameter query_string path)
      ≡ 154 + (length (decimal port) + length parameter + length query_string + length path)
unfolding command_line
length-command_line port parameter query_string path =
    eight_lengths before_port (decimal port) before_script parameter before_query query_string
      before_path path

-- The command line of a script that is accessible fits its buffer, with the zero behind it, exactly where the digits of the
-- port and the query have at most 263 bytes together, whatever the path and the parameter. With a longer query it is written
-- behind the end. Where it fits, the script can be executed, and no write fails, the client gets the whole output.
pub execute_cgi-fits :
    (accessible : Bytes → Bool) (popen : Bytes → Option Bytes) (www_folder : Bytes) (port : ℕ)
    (parameter query_string : Bytes) (oks : List Bool)
    → accessible (file_path www_folder parameter) ≡ true
    → (263 < length (decimal port) + length query_string
        → execute_cgi accessible popen www_folder port parameter query_string oks ≡ overflows)
      × (length (decimal port) + length query_string ≤ 263
          → (content : Bytes)
          → popen (command_line port parameter query_string (file_path www_folder parameter))
            ≡ some content
          → length content ≤ length oks
          → All (λ ok. ok ≡ true) oks
          → (sent : List Bytes) × (execute_cgi accessible popen www_folder port parameter
                query_string oks
              ≡ writes sent)
            × (joined sent ≡ content))
unfolding execute_cgi
execute_cgi-fits accessible popen www_folder port parameter query_string oks found =
    let path = file_path www_folder parameter in
    let l = length-command_line port parameter query_string path in
    (
      λ long.
          let over =
            le→ltb_false (length (command_line port parameter query_string path))
              (buffer_length path parameter) (omega arith) in
          rw found (rw over refl),
      λ short content e many fine.
          let under =
            lt→ltb (length (command_line port parameter query_string path))
              (buffer_length path parameter) (omega arith) in
          (
            copy_output (length content) content oks,
            rw found (rw under (rw e refl)),
            copy_output-joined (length content) content oks (omega arith) many fine,
          ),
    )
