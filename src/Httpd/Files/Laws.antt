-- ===== src/Httpd/Files/Laws.antt =====
-- What send_file serves and from where.
use mjpg_streamer.Common.{
  ℕ, zero, suc, ◌-◌, ◌≤◌, ◌<◌, ◌≡◌, refl, sym, ap, ap₂, ◌∙◌, subst, true, false, [], ◌∷◌, ◌++◌,
  Option, some, length, take, drop, min, replicate, ◌==◌, arith, Bool-cases, Option-cases, inl, inr,
  All, take_all, length-take, drop-append_left,
}
use mjpg_streamer.Common.Text.{joined, Bytes, codes, mem, span, strstr, contains}
use mjpg_streamer.Httpd.Files.{
  mimetypes, last_dot, mimetype, file_path, file_header, default_name, serves, find_file, send_file,
}
use mjpg_streamer.Httpd.Request.{file_bytes, parameter_after, Request, parsed, file_request}
use mjpg_streamer.Httpd.Files.Dots.{copied, last_dot-LastDot}

-- What is served: a file of the folder whose name has a stem and, behind the last dot, a known extension.
pub record ServedFrom (files : Bytes → Option Bytes)
    (www_folder parameter path type content : Bytes) : Type 0 where
  pub stem : Bytes
  pub ext : Bytes
  pub named : default_name parameter ≡ stem ++ b'.' ∷ ext
  pub stem_some : 0 < length stem
  pub last : mem b'.' ext ≡ false
  pub known : mimetype mimetypes (b'.' ∷ ext) ≡ some type
  pub path_is : path ≡ file_path www_folder (default_name parameter)
  pub opened : files path ≡ some content

serves-parts :
    {a a' b b' c c' : Bytes} → serves a b c ≡ serves a' b' c' → (a ≡ a') × (b ≡ b') × (c ≡ c')
serves-parts e = (cc, cc, cc)

-- Whatever send_file serves is the file of that name in the folder, with the type of its last extension.
pub find_file-Served :
    (files : Bytes → Option Bytes) (www_folder parameter path type content : Bytes)
    → find_file files www_folder parameter ≡ serves path type content
    → ServedFrom files www_folder parameter path type content
unfolding find_file
find_file-Served files www_folder parameter path type content e =
    let name = default_name parameter in
    elim (Bool-cases (last_dot name == 0)) [
      | inl undotted ↦ cc (rw undotted at e)
      | inr dotted ↦
          let d = last_dot-LastDot name (ground arith) in
          let tail : drop (last_dot name) name ≡ b'.' ∷ d.ext =
            ap (λ (n : ℕ). drop n name) d.at_n
            ∙ ap (drop (length d.stem)) d.splits
            ∙ drop-append_left d.stem (b'.' ∷ d.ext) in
          elim (Option-cases (mimetype mimetypes (drop (last_dot name) name))) [
            | inl unknown ↦ cc (rw (dotted, find_file, unknown) at e)
            | inr (t, known) ↦ elim (Option-cases (files (file_path www_folder name))) [
              | inl missing ↦ cc (rw (dotted, find_file, known, missing) at e)
              | inr (body, found) ↦
                  let (same_path, same_type, same_content) =
                    serves-parts (rw (dotted, find_file, known, found) at e) in
                  record {
                    stem = d.stem;
                    ext = d.ext;
                    named = d.splits;
                    stem_some = ground (arith, d.at_n);
                    last = d.last;
                    known = ap (mimetype mimetypes) (sym tail) ∙ known ∙ ap some same_type;
                    path_is = sym same_path;
                    opened = ap files (sym same_path) ∙ found ∙ ap some same_content;
                  }
            ]
          ]
    ]

-- An error, or the file whole: if no write fails, what is sent is the header and then every byte of the file.
pub send_file-whole :
    (files : Bytes → Option Bytes) (www_folder parameter path type content : Bytes)
    → find_file files www_folder parameter ≡ serves path type content
    → joined (send_file files www_folder parameter (replicate (suc (length content)) true))
      ≡ file_header type ++ content
unfolding send_file
send_file-whole files www_folder parameter path type content e =
    rw (e, send_file)
      (copied (suc (length content)) (file_header type) content (suc (length content)) (omega arith)
        (omega arith))

take-span :
    (m : ℕ) (accept s : Bytes)
    → m ≤ length (span accept s)
    → All (λ c. mem c accept ≡ true) (take m s)
unfolding span
take-span zero accept s h = tt
take-span (suc m) accept [] h = tt
take-span (suc m) accept (x ∷ s) h = elim (Bool-cases (mem x accept)) [
  | inl ok ↦ (
    ok,
    take-span m accept s
        (let h' : suc m ≤ suc (length (span accept s)) = rw ok at h in omega arith),
  )
  | inr bad ↦ absurd (let h' : suc m ≤ 0 = rw bad at h in omega arith)
]

accepted-no_slash : (s : Bytes) → All (λ c. mem c file_bytes ≡ true) s → mem b'/' s ≡ false
accepted-no_slash [] h = refl
accepted-no_slash (x ∷ s) (h, k) = elim (Bool-cases (x == b'/')) [
  | inl slash ↦
      let same : x ≡ b'/' = ground arith in cc (subst (λ (c : ℕ). mem c file_bytes ≡ true) same h)
  | inr other ↦ rw other (accepted-no_slash s k)
]

-- A name without a slash that is not too long.
pub record PlainName (name : Bytes) : Type 0 where
  pub no_slash : mem b'/' name ≡ false
  pub short : length name ≤ 100

parameter-PlainName :
    (buffer : Bytes) (skip : ℕ) (rest : Bytes)
    → PlainName (parameter_after buffer file_bytes skip rest)
unfolding parameter_after
parameter-PlainName buffer skip rest =
    let s = drop skip rest in
    record {
      no_slash =
          accepted-no_slash _
            (take-span (min (length (span file_bytes s)) 100) file_bytes s (omega arith));
      short = omega (arith, length-take (min (length (span file_bytes s)) 100) s);
    }

request_of-Plain :
    {q r : Request} → parsed q ≡ parsed r → PlainName q.parameter → PlainName r.parameter
request_of-Plain {q} {r} e h =
    let same : q ≡ r = cc in subst (λ (x : Request). PlainName x.parameter) same h

file_request-PlainName :
    (buffer : Bytes) (r : Request) → file_request buffer ≡ parsed r → PlainName r.parameter
unfolding file_request
file_request-PlainName buffer r e = elim (Option-cases (strstr buffer (codes "GET /"))) [
  | inl absent ↦ cc (rw (absent, file_request) at e)
  | inr (rest, found) ↦ elim (Bool-cases (contains (drop 5 rest) (codes ".cgi"))) [
    | inl script ↦
        request_of-Plain (rw (found, file_request, script) at e) (parameter-PlainName buffer 5 rest)
    | inr page ↦
        request_of-Plain (rw (found, file_request, page) at e) (parameter-PlainName buffer 5 rest)
  ]
]

default-PlainName : (name : Bytes) → PlainName name → PlainName (default_name name)
default-PlainName [] h = record { no_slash = refl; short = omega arith }
default-PlainName (c ∷ cs) h = h

-- Whatever a request line names: a file that is served for it lies in the folder itself. Its path is the
-- folder's, if that has 900 bytes at most, and a name without a slash.
pub file_request-served :
    (files : Bytes → Option Bytes) (www_folder buffer path type content : Bytes) (r : Request)
    → length www_folder ≤ 900
    → file_request buffer ≡ parsed r
    → find_file files www_folder r.parameter ≡ serves path type content
    → (name : Bytes) × (path ≡ www_folder ++ name) × (mem b'/' name ≡ false)
file_request-served files www_folder buffer path type content r short e served =
    let plain = default-PlainName r.parameter (file_request-PlainName buffer r e) in
    let from = find_file-Served files www_folder r.parameter path type content served in
    let folder : take 1023 www_folder ≡ www_folder = take_all 1023 www_folder (omega arith) in
    let room : length (default_name r.parameter) ≤ 1024 - length (take 1023 www_folder) - 1 =
      omega (arith, plain.short, length-take 1023 www_folder) in
    (
      default_name r.parameter,
      from.path_is
          ∙ ap₂ (λ (x y : Bytes). x ++ y) folder
              (take_all (1024 - length (take 1023 www_folder) - 1) (default_name r.parameter) room),
      plain.no_slash,
    )
