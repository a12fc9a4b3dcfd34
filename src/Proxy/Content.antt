-- ===== src/Proxy/Content.antt =====
-- The extractor in CONTENT: the bytes of an image are stored, and the boundary ends it.
use mjpg_streamer.Common.{
  ℕ, suc, ◌+◌, ◌-◌, ◌≤◌, ◌<◌, ◌≡◌, ◌≢◌, refl, sym, ap, ◌∙◌, false, List, [], ◌∷◌, ◌++◌, arith,
  length, Bool-cases, inl, inr, ltb, ◌==◌, ltb→lt, ==_iff, get_or, take, append_assoc, append-nil,
  length-append, take_all, take-suc-get_or,
}
use mathlib.Core.Bool.{true≢false}
use mjpg_streamer.Common.Int.{pos, sub_ℕ}
use mjpg_streamer.Common.Text.{
  Bytes, codes, contains, contains_head, contains-append_right, get_or-ne, get_or_end, get_or_mid,
  mem,
}
use mjpg_streamer.Proxy.{
  ExtractorState, ImageCall, content, step_in, content_byte, search_pattern_compare,
  search_pattern_matches, search_pattern_reset, init_extractor_state, buffer_size, boundary_text,
}
use mjpg_streamer.Proxy.Run.{run}

-- In CONTENT, with `buf` stored and `k` bytes of the boundary `p` matched.
abbrev pub stored_at : ExtractorState → Bytes → Bytes → ℕ → ExtractorState
stored_at s p buf k = record s {
  buffer = buf;
  part = content;
  boundary = record { string = p; current_matched_char = k };
}

run-content_byte :
    (s : ExtractorState) (p buf : Bytes) (k b : ℕ) (bs : Bytes) {t : ExtractorState}
    {calls : List ImageCall}
    → content_byte (stored_at s p buf k) b ≡ (t, calls)
    → run (stored_at s p buf k) (b ∷ bs) ≡ ((run t bs).0, calls ++ (run t bs).1)
unfolding run step_in
run-content_byte s p buf k b bs e = rw (e, step_in)

module _ (s : ExtractorState) (p buf : Bytes) (k b : ℕ) (room : length buf < buffer_size - 1) where
  byte_differs :
      get_or p k 0 ≢ b
      → get_or p 0 0 ≢ 0
      → content_byte (stored_at s p buf k) b ≡ (stored_at s p (buf ++ b ∷ []) 0, [])
  unfolding content_byte search_pattern_compare search_pattern_matches search_pattern_reset
  byte_differs ne first = ground arith

  byte_agrees :
      get_or p k 0 ≡ b
      → get_or p (k + 1) 0 ≢ 0
      → content_byte (stored_at s p buf k) b ≡ (stored_at s p (buf ++ b ∷ []) (k + 1), [])
  unfolding content_byte search_pattern_compare search_pattern_matches search_pattern_reset
  byte_agrees e more = ground arith

  byte_completes :
      get_or p k 0 ≡ b
      → get_or p (k + 1) 0 ≡ 0
      → content_byte (stored_at s p buf k) b ≡ (
        init_extractor_state,
        record { stored = buf ++ b ∷ []; size = sub_ℕ (length (buf ++ b ∷ [])) (length p + 2) }
            ∷ [],
      )
  unfolding content_byte search_pattern_compare search_pattern_matches search_pattern_reset
  byte_completes e last = ground arith

-- The bytes of an image: stored, with no call, while the boundary does not occur in them.
module _ (s : ExtractorState) (p : Bytes) (plain : mem 0 p ≡ false) where
  pub run_image :
      (xs buf : Bytes) (k : ℕ)
      → k < length p
      → contains (take k p ++ xs) p ≡ false
      → length buf + length xs ≤ buffer_size - 1
      → (k' : ℕ) × (k' < length p)
        × (run (stored_at s p buf k) xs ≡ (stored_at s p (buf ++ xs) k', []))
  unfolding run
  run_image [] buf k lt absent room = (k, lt, rw append-nil)
  run_image (x ∷ xs) buf k lt absent room = elim (Bool-cases (get_or p k 0 == x)) [
    | inl same ↦
        let e = (==_iff (get_or p k 0) x).0 same in
        let grown : take k p ++ x ∷ xs ≡ take (suc k) p ++ xs =
          rw (take-suc-get_or p k 0 lt, e) (sym (append_assoc (take k p) (x ∷ []) xs)) in
        let absent' = rw grown at absent in
        elim (Bool-cases (ltb (suc k) (length p))) [
          | inl more ↦
              let lt' : suc k < length p = ltb→lt (suc k) (length p) more in
              let (k', below, ran) =
                run_image xs (buf ++ x ∷ []) (suc k) lt' absent'
                  (omega (arith, length-append buf (x ∷ []))) in
              let next : k + 1 ≡ suc k = omega arith in
              (
                k',
                below,
                run-content_byte s p buf k x xs (
                      byte_agrees s p buf k x (omega arith) e
                        (rw next (get_or-ne 0 p (suc k) plain lt')))
                    ∙ rw (next, ran) (rw append_assoc),
              )
          | inr full ↦
              let all : take (suc k) p ≡ p = take_all (suc k) p (ground arith) in
              absurd (true≢false (sym (contains_head p xs) ∙ (rw all at absent')))
        ]
    | inr other ↦
        let gone =
          contains-append_right (x ∷ []) xs p
            (contains-append_right (take k p) (x ∷ xs) p absent) in
        let (k', below, ran) =
          run_image xs (buf ++ x ∷ []) 0 (omega arith) gone
            (omega (arith, length-append buf (x ∷ []))) in
        (
          k',
          below,
          run-content_byte s p buf k x xs (
                byte_differs s p buf k x (omega arith) (ground arith)
                  (get_or-ne 0 p 0 plain (omega arith)))
              ∙ rw ran (rw append_assoc),
        )
  ]

  -- The rest of the boundary, from where `pre` of it has been matched.
  pub run_boundary :
      (pre : Bytes) (c : ℕ) (rest buf : Bytes)
      → p ≡ pre ++ c ∷ rest
      → length buf + length rest < buffer_size - 1
      → run (stored_at s p buf (length pre)) (c ∷ rest) ≡ (
        init_extractor_state,
        record { stored = buf ++ c ∷ rest; size = sub_ℕ (length (buf ++ c ∷ rest)) (length p + 2) }
            ∷ [],
      )
  unfolding run
  run_boundary pre c [] buf e room = run-content_byte s p buf (length pre) c [] (
      byte_completes s p buf (length pre) c (omega arith) (rw e (get_or_mid pre c []))
        (get_or_end p (length pre + 1) (omega (arith, ap length e, length-append pre (c ∷ [])))))
  run_boundary pre c (d ∷ rest) buf e room =
      let e' : p ≡ (pre ++ c ∷ []) ++ d ∷ rest = e ∙ sym (append_assoc pre (c ∷ []) (d ∷ rest)) in
      let len : length pre + 1 ≡ length (pre ++ c ∷ []) =
        omega (arith, length-append pre (c ∷ [])) in
      let inside : length pre + 1 < length p =
        omega (arith, ap length e, length-append pre (c ∷ d ∷ rest)) in
      run-content_byte s p buf (length pre) c (d ∷ rest) (
        byte_agrees s p buf (length pre) c (omega arith) (rw e (get_or_mid pre c (d ∷ rest)))
          (get_or-ne 0 p (length pre + 1) plain inside))
      ∙ rw
          (
            len,
            run_boundary (pre ++ c ∷ []) d rest (buf ++ c ∷ []) e'
                (omega (arith, length-append buf (c ∷ []))),
          )
          (rw append_assoc)

-- What send_stream writes behind a frame, up to the end of the boundary.
abbrev pub image_end : Bytes
image_end = codes "\r\n--boundarydonotcross"

-- It ends the image, wherever a partial match of the boundary stands.
pub run-image_end :
    (s : ExtractorState) (buf : Bytes) (k : ℕ)
    → k < length boundary_text
    → length buf + 22 < buffer_size
    → run (stored_at s boundary_text buf k) image_end
      ≡ (init_extractor_state, record { stored = buf ++ image_end; size = pos (length buf) } ∷ [])
run-image_end s buf k lt room =
    let p = boundary_text in
    let len1 = length-append buf (13 ∷ []) in
    let len2 = length-append (buf ++ 13 ∷ []) (10 ∷ []) in
    let len3 = length-append buf image_end in
    let joined : ((buf ++ 13 ∷ []) ++ 10 ∷ []) ++ boundary_text ≡ buf ++ image_end =
      simp append_assoc in
    let size : sub_ℕ (length (buf ++ image_end)) (length p + 2) ≡ pos (length buf) = ground arith in
    run-content_byte s p buf k 13 (10 ∷ p)
      (byte_differs s p buf k 13 (omega arith) (get_or-ne 13 p k refl lt) (omega arith))
    ∙ rw
        (run-content_byte s p (buf ++ 13 ∷ []) 0 10 p
          (byte_differs s p (buf ++ 13 ∷ []) 0 10 (omega arith) (omega arith) (omega arith)))
        (rw
          (run_boundary s p refl [] 45 (codes "-boundarydonotcross") ((buf ++ 13 ∷ []) ++ 10 ∷ [])
            refl (omega arith))
          (rw (joined, size)))
