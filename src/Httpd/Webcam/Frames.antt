-- ===== src/Httpd/Webcam/Frames.antt =====
-- A client gets the frames back from the WebcamXP stream.
use mjpg_streamer.Common.{
  ℕ, zero, suc, ◌+◌, ◌-◌, ◌*◌, ◌/◌, ◌%◌, ◌≤◌, ◌<◌, ◌≡◌, refl, ap, ap₂, ◌∙◌, true, false, not, ◌&&◌,
  Bool-cases, and-false, inl, inr, List, [], ◌∷◌, ◌++◌, append_assoc, map, if◌then◌else◌, length,
  length-append, take, drop, drop-append_left, take-append_left, replicate, length-replicate, ltb,
  All, arith,
}
use mjpg_streamer.Common.Text.{Bytes, codes}
use mjpg_streamer.Httpd.Print.{decimal, decimal_padded, digits_onto, decimal-value, value_onto}
use mjpg_streamer.Httpd.Stream.{Frame, Outcomes, grown}
use mjpg_streamer.Httpd.Webcam.{Dates, wxp_header, frame_header, wxp_loop, send_stream_wxp}

-- How a client reads the stream behind the HTTP header, `n` frames of it: 50 bytes, the size in the seven digits behind
-- `mjpeg `, and that many bytes.
abbrev pub unpacked : ℕ → Bytes → List Bytes
unpacked zero stream = []
unpacked (suc n) stream =
    let size = value_onto 0 (take 7 (drop 6 stream)) in
    take size (drop 50 stream) ∷ unpacked n (drop size (drop 50 stream))

-- The powers of ten.
abbrev tens : ℕ → ℕ
tens zero = 1
tens (suc k) = 10 * tens k

digits_onto-length :
    (fuel n : ℕ) (tail : Bytes) (k : ℕ)
    → n < tens (suc k)
    → length (digits_onto fuel n tail) ≤ suc k + length tail
unfolding digits_onto
digits_onto-length zero n tail k h = omega arith
digits_onto-length (suc fuel) n tail zero h =
    let small : ltb n 10 ≡ true = ground arith in rw small (omega arith)
digits_onto-length (suc fuel) n tail (suc k) h = elim (Bool-cases (ltb n 10)) [
  | inl small ↦ rw small (omega arith)
  | inr large ↦
      rw large
        (omega (arith, digits_onto-length fuel (n / 10) ((48 + n % 10) ∷ tail) k (omega arith)))
]

padded-length : (n : ℕ) → n < 10000000 → length (decimal_padded 7 n) ≡ 7
unfolding decimal_padded decimal
padded-length n h =
    let le = digits_onto-length (suc n) n [] 6 h in
    omega (
      arith,
      length-append (replicate (7 - length (decimal n)) 48) (decimal n),
      length-replicate {A = ℕ} (7 - length (decimal n)) 48,
    )

zeros-value : (k : ℕ) (ds : Bytes) → value_onto 0 (replicate k 48 ++ ds) ≡ value_onto 0 ds
zeros-value zero ds = refl
zeros-value (suc k) ds = zeros-value k ds

padded-value : (n : ℕ) → value_onto 0 (decimal_padded 7 n) ≡ n
unfolding decimal_padded
padded-value n = zeros-value (7 - length (decimal n)) (decimal n) ∙ decimal-value n

take-append : (xs ys : Bytes) (k : ℕ) → take (length xs + k) (xs ++ ys) ≡ xs ++ take k ys
take-append [] ys k = ap (λ n. take n ys) (omega arith)
take-append (x ∷ xs) ys k =
    ap (λ n. take n (x ∷ (xs ++ ys))) {y = suc (length xs + k)} (omega arith)
    ∙ ap (◌∷◌ x) (take-append xs ys k)

-- What is behind the digits.
abbrev filling : Bytes
filling = take 37 (codes "12345" ++ replicate 50 0)

header_parts :
    (f : Frame)
    → length f.buf < 10000000
    → frame_header f ≡ codes "mjpeg " ++ (decimal_padded 7 (length f.buf) ++ filling)
unfolding frame_header
header_parts f h =
    let n = padded-length (length f.buf) h in
    ap (λ t. codes "mjpeg " ++ t)
      (ap (λ k. take k (decimal_padded 7 (length f.buf) ++ (codes "12345" ++ replicate 50 0)))
          {x = 44} {y = length (decimal_padded 7 (length f.buf)) + 37} (omega arith)
        ∙ take-append (decimal_padded 7 (length f.buf)) (codes "12345" ++ replicate 50 0) 37)

-- A frame at the head of the stream.
unpacked_frame :
    (p buf rest : Bytes) (n : ℕ)
    → length p ≡ 7
    → value_onto 0 p ≡ length buf
    → unpacked (suc n) ((codes "mjpeg " ++ (p ++ filling)) ++ (buf ++ rest)) ≡ buf ∷ unpacked n rest
unpacked_frame p buf rest n seven value =
    let size : take 7 ((p ++ filling) ++ (buf ++ rest)) ≡ p =
      ap (take 7) (append_assoc p filling (buf ++ rest))
      ∙ (ap (λ k. take k (p ++ (filling ++ (buf ++ rest)))) {x = 7} {y = length p} (omega arith)
          ∙ take-append_left p (filling ++ (buf ++ rest))) in
    let behind : drop 44 ((p ++ filling) ++ (buf ++ rest)) ≡ buf ++ rest =
      ap (λ k. drop k ((p ++ filling) ++ (buf ++ rest))) {x = 44} {y = length (p ++ filling)}
        (omega (arith, length-append p filling))
      ∙ drop-append_left (p ++ filling) (buf ++ rest) in
    ap₂ ◌∷◌ (ap₂ take (ap (value_onto 0) size ∙ value) behind ∙ take-append_left buf rest) (
      ap (unpacked n)
        (ap₂ drop (ap (value_onto 0) size ∙ value) behind ∙ drop-append_left buf rest))

-- The stream, where no write and no allocation fails.
wxp_loop-unpacked :
    (o : Outcomes) (w a max_frame_size : ℕ) (frames : List Frame)
    → ((n : ℕ) → o.write_ok n ≡ true)
    → ((n : ℕ) → o.alloc_ok n ≡ true)
    → All (λ f. length f.buf < 10000000) frames
    → unpacked (length frames) (wxp_loop o w a max_frame_size frames).bytes
      ≡ map (λ f. f.buf) frames
unfolding wxp_loop
wxp_loop-unpacked o w a m [] writes allocs h = refl
wxp_loop-unpacked o w a m (f ∷ fs) writes allocs (h, hs) =
    let more = ltb m (length f.buf) in
    let next = wxp_loop o (w + 2) (if more then a + 1 else a) (grown m (length f.buf)) fs in
    let alloc : (more && not (o.alloc_ok a)) ≡ false = rw (allocs a) (and-false more) in
    let rest =
      wxp_loop-unpacked o (w + 2) (if more then a + 1 else a) (grown m (length f.buf)) fs writes
        allocs hs in
    rw (alloc, writes w, writes (w + 1))
      (ap (λ t. unpacked (suc (length fs)) (t ++ (f.buf ++ next.bytes))) (header_parts f h)
        ∙ (unpacked_frame (decimal_padded 7 (length f.buf)) f.buf next.bytes (length fs)
              (padded-length (length f.buf) h) (padded-value (length f.buf))
            ∙ ap (◌∷◌ f.buf) rest))

-- Where no write and no allocation fails, and every frame has less than 10000000 bytes: behind the HTTP header a client
-- that reads 50 bytes, the size in their seven digits and that many bytes, again and again, gets exactly the frames.
pub send_stream_wxp-unpacked :
    (d : Dates) (o : Outcomes) (frames : List Frame)
    → ((n : ℕ) → o.write_ok n ≡ true)
    → ((n : ℕ) → o.alloc_ok n ≡ true)
    → All (λ f. length f.buf < 10000000) frames
    → (body : Bytes) × ((send_stream_wxp d o frames).bytes ≡ wxp_header d ++ body)
      × (unpacked (length frames) body ≡ map (λ f. f.buf) frames)
unfolding send_stream_wxp
send_stream_wxp-unpacked d o frames writes allocs h = (
  (wxp_loop o 1 0 0 frames).bytes,
  rw (writes 0) refl,
  wxp_loop-unpacked o 1 0 0 frames writes allocs h,
)
