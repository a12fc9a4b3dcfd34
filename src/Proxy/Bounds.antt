-- ===== src/Proxy/Bounds.antt =====
-- No write or read of the extractor goes out of its arrays, and what stops it.
use mjpg_streamer.Common.{
  ℕ, ◌+◌, ◌-◌, ◌≤◌, ◌<◌, ◌≡◌, refl, ap, ◌∙◌, Bool, true, false, List, [], ◌∷◌, ◌++◌, arith,
  if◌then◌else◌, length, Bool-cases, inl, inr, leb, All, length-append,
}
use mjpg_streamer.Common.Int.{pos, negsuc, sub_ℕ, ◌≤ℤ◌}
use mjpg_streamer.Common.Text.{Bytes, codes, get_or_end}
use mjpg_streamer.Proxy.{
  ExtractorState, ImageCall, SearchPattern, header, content, Part, step_in, header_byte,
  content_byte, search_pattern_compare, search_pattern_matches, search_pattern_reset,
  init_extractor_state, buffer_size, boundary_text, content_length, extract_from, extract_data,
  is_crlf, is_crlfcrlf, push_byte,
}
use mjpg_streamer.Proxy.Content.{run_boundary, stored_at}
use mjpg_streamer.Proxy.Run.{run}
use mjpg_streamer.Proxy.Header.{kept}

-- A pointer into one of the two texts, before its end.
pub record Points (p : SearchPattern) (text : Bytes) : Type 0 where
  pub same : p.string ≡ text
  pub inside : p.current_matched_char < length text

pub record IsValid (s : ExtractorState) : Type 0 where
  pub stored : length s.buffer ≤ buffer_size - 1
  pub in_contentlength : Points s.contentlength content_length
  pub in_boundary : Points s.boundary boundary_text

-- The published buffer has room for the image, and the image is part of what is stored.
abbrev pub InRange : ImageCall → Type 0
InRange c = (c.size ≤ℤ pos (buffer_size - 23)) × (c.size ≤ℤ pos (length c.stored))

reset-Points :
    {p : SearchPattern} {text : Bytes}
    → 0 < length text
    → Points p text
    → Points (search_pattern_reset p) text
unfolding search_pattern_reset
reset-Points lt h = record { same = h.same; inside = lt }

-- A pointer that moves on and meets no terminating zero is still before the end.
compare-Points :
    {p : SearchPattern} {text : Bytes} (c : ℕ)
    → Points p text
    → search_pattern_matches (search_pattern_compare p c) ≡ false
    → Points (search_pattern_compare p c) text
unfolding search_pattern_compare search_pattern_matches search_pattern_reset
compare-Points {p} c h more = record {
  same = ground (arith, h.same);
  inside =
      ground (arith, h.same, ap length h.same, get_or_end p.string (p.current_matched_char + 1));
}

pub init-IsValid : IsValid init_extractor_state
unfolding init_extractor_state
init-IsValid = record {
  stored = omega arith;
  in_contentlength = record { same = refl; inside = omega arith };
  in_boundary = record { same = refl; inside = omega arith };
}

compare-string : (p : SearchPattern) (c : ℕ) → (search_pattern_compare p c).string ≡ p.string
unfolding search_pattern_compare search_pattern_reset
compare-string p c = ground arith

-- The four ways in which HEADER leaves the pattern of the content length.
abbrev after_header : SearchPattern → ℕ → Bool → Bool → SearchPattern
after_header p b empty_line line =
    let q = search_pattern_compare p b in
    if empty_line
    then p
    else if line
    then search_pattern_reset p
    else if search_pattern_matches q
    then search_pattern_reset q
    else q

after_header-Points :
    {p : SearchPattern} {text : Bytes} (b : ℕ) (empty_line line : Bool)
    → 0 < length text
    → Points p text
    → Points (after_header p b empty_line line) text
after_header-Points b true line lt h = h
after_header-Points b false true lt h = reset-Points lt h
after_header-Points {p} b false false lt h =
    elim (Bool-cases (search_pattern_matches (search_pattern_compare p b))) [
      | inl found ↦ rw found (
          unfold search_pattern_reset in record { same = compare-string p b ∙ h.same; inside = lt })
      | inr more ↦ rw more (compare-Points b h more)
    ]

header_byte-contentlength :
    (s : ExtractorState) (b : ℕ)
    → (header_byte s b).contentlength
      ≡ after_header s.contentlength b
          (is_crlfcrlf (push_byte s.last_four_bytes b))
          (is_crlf (push_byte s.last_four_bytes b))
unfolding header_byte
header_byte-contentlength s b = ground arith

header_byte-IsValid : (s : ExtractorState) (b : ℕ) → IsValid s → IsValid (header_byte s b)
header_byte-IsValid s b v = record {
  stored = omega (arith, ap length (kept s b).0, v.stored);
  in_contentlength = rw (header_byte-contentlength s b) (
      after_header-Points b (is_crlfcrlf (push_byte s.last_four_bytes b))
        (is_crlf (push_byte s.last_four_bytes b)) (omega arith) v.in_contentlength);
  in_boundary = rw (kept s b).1 v.in_boundary;
}

sub_ℕ-le : (a b m : ℕ) → a ≤ m + b → sub_ℕ a b ≤ℤ pos m
sub_ℕ-le a b m h = ground arith

content_byte-IsValid :
    (s : ExtractorState) (b : ℕ)
    → IsValid s
    → IsValid (content_byte s b).0 × All InRange (content_byte s b).1
unfolding content_byte
content_byte-IsValid s b v = elim (Bool-cases (leb (buffer_size - 1) (length s.buffer))) [
  | inl full ↦ rw full (v, tt)
  | inr room ↦ elim (Bool-cases (search_pattern_matches (search_pattern_compare s.boundary b))) [
    | inl found ↦
        let size = ap length (compare-string s.boundary b ∙ v.in_boundary.same) in
        let free : length s.buffer < buffer_size - 1 = ground arith in
        let grown = length-append s.buffer (b ∷ []) in
        rw (room, found)
          (init-IsValid, ((sub_ℕ-le _ _ _ (omega arith), sub_ℕ-le _ _ _ (omega arith)), tt))
    | inr more ↦
        rw (room, more)
          (
            record {
              stored = ground (arith, length-append s.buffer (b ∷ []));
              in_contentlength = v.in_contentlength;
              in_boundary = compare-Points b v.in_boundary more;
            },
            tt,
          )
  ]
]

step_in-IsValid :
    (p : Part) (s : ExtractorState) (b : ℕ)
    → IsValid s
    → IsValid (step_in p s b).0 × All InRange (step_in p s b).1
unfolding step_in
step_in-IsValid header s b v = (header_byte-IsValid s b v, tt)
step_in-IsValid content s b v = content_byte-IsValid s b v

All-append {ℓ κ} :
    {A : Type ℓ} (P : A → Type κ) (xs ys : List A) → All P xs → All P ys → All P (xs ++ ys)
All-append P [] ys h k = k
All-append P (x ∷ xs) ys h k = (h.0, All-append P xs ys h.1 k)

extract_from-IsValid :
    (bs : Bytes) (stop : ℕ → Bool) (i : ℕ) (s : ExtractorState)
    → IsValid s
    → IsValid (extract_from stop i s bs).0 × All InRange (extract_from stop i s bs).1
unfolding extract_from
extract_from-IsValid [] stop i s v = (v, tt)
extract_from-IsValid (b ∷ bs) stop i s v = elim (Bool-cases (stop i)) [
  | inl halt ↦ rw halt (v, tt)
  | inr go ↦
      let (kept, calls) = step_in-IsValid s.part s b v in
      let (later, more) = extract_from-IsValid bs stop (i + 1) (step_in s.part s b).0 kept in
      rw go (
        later,
        All-append InRange (step_in s.part s b).1
            (extract_from stop (i + 1) (step_in s.part s b).0 bs).1 calls more,
      )
]

-- From a valid state, whatever bytes come and whenever the stop flag is seen: the buffer never holds
-- more than BUFFER_SIZE - 1 bytes, both pattern pointers stay in front of their text's end, and no call of
-- the callback is told a length above what is stored or above BUFFER_SIZE - 23.
pub extract_data-IsValid :
    (stop : ℕ → Bool) (s : ExtractorState) (bs : Bytes)
    → IsValid s
    → IsValid (extract_data stop s bs).0 × All InRange (extract_data stop s bs).1
unfolding extract_data
extract_data-IsValid stop s bs v = extract_from-IsValid bs stop 0 s v

full_byte :
    (s : ExtractorState) (b : ℕ)
    → s.part ≡ content
    → buffer_size - 1 ≤ length s.buffer
    → step_in s.part s b ≡ (s, [])
unfolding step_in content_byte
full_byte s b c h = rw c (ground arith)

full_from :
    (bs : Bytes) (stop : ℕ → Bool) (i : ℕ) (s : ExtractorState)
    → s.part ≡ content
    → buffer_size - 1 ≤ length s.buffer
    → extract_from stop i s bs ≡ (s, [])
unfolding extract_from
full_from [] stop i s c h = refl
full_from (b ∷ bs) stop i s c h = elim (Bool-cases (stop i)) [
  | inl halt ↦ rw halt
  | inr go ↦ rw (go, full_byte s b c h) (full_from bs stop (i + 1) s c h)
]

-- Once an image has filled the buffer, extract_data does nothing more: no byte that follows, a boundary
-- included, changes the state or calls the callback.
pub extract_data_full :
    (stop : ℕ → Bool) (s : ExtractorState) (bs : Bytes)
    → s.part ≡ content
    → buffer_size - 1 ≤ length s.buffer
    → extract_data stop s bs ≡ (s, [])
unfolding extract_data
extract_data_full stop s bs c h = full_from bs stop 0 s c h

-- A part that begins with the boundary is reported with the length -2.
pub run_empty_part :
    (s : ExtractorState)
    → run (stored_at s boundary_text [] 0) boundary_text
      ≡ (init_extractor_state, record { stored = boundary_text; size = negsuc 1 } ∷ [])
run_empty_part s =
    run_boundary s boundary_text refl [] 45 (codes "-boundarydonotcross") [] refl (omega arith)
