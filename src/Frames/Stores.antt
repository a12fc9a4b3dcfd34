-- ===== src/Frames/Stores.antt =====
-- What the writes of an input plugin leave in the shared frame.
use mjpg_streamer.Common.{
  ℕ, suc, ◌+◌, ◌≤◌, ◌≡◌, refl, ap, sym, ◌∙◌, List, [], ◌∷◌, ◌++◌, append-nil, append_assoc, length,
  take, length-set, take-suc-set, arith,
}
use mjpg_streamer.Common.Text.{Bytes}
use mjpg_streamer.Frames.{
  Input, held, Store, apply, apply_all, memcpy, put_byte, put_size, put_timestamp, allocate,
  Publication, http, file, uvc, stores, meant, Fits,
}

apply_all-append :
    (xs ys : List Store) (g : Input) → apply_all (xs ++ ys) g ≡ apply_all ys (apply_all xs g)
apply_all-append [] ys g = refl
apply_all-append (x ∷ xs) ys g = apply_all-append xs ys (apply x g)

-- What memcpy leaves: the bytes behind those that stand before `i`, and all else.
record Copied (i : ℕ) (bytes : Bytes) (g h : Input) : Type 0 where
  bytes_there : take (i + length bytes) h.buf ≡ take i g.buf ++ bytes
  as_long : length h.buf ≡ length g.buf
  same_size : h.size ≡ g.size
  same_sec : h.tv_sec ≡ g.tv_sec
  same_usec : h.tv_usec ≡ g.tv_usec

memcpy-Copied :
    (i : ℕ) (bytes : Bytes) (g : Input)
    → i + length bytes ≤ length g.buf
    → Copied i bytes g (apply_all (memcpy i bytes) g)
memcpy-Copied i [] g h = record {
  bytes_there = ap (λ n. take n g.buf) {y = i} (omega arith) ∙ sym (append-nil (take i g.buf));
  as_long = refl;
  same_size = refl;
  same_sec = refl;
  same_usec = refl;
}
memcpy-Copied i (b ∷ bs) g h =
    let g' = apply (put_byte i b) g in
    let r = memcpy-Copied (suc i) bs g' (omega (arith, length-set g.buf i b)) in
    record {
      bytes_there =
          ap (λ n. take n (apply_all (memcpy (suc i) bs) g').buf) {y = suc i + length bs}
            (omega arith)
          ∙ (r.bytes_there
              ∙ (ap (λ t. t ++ bs) (take-suc-set g.buf i b (omega arith))
                  ∙ append_assoc (take i g.buf) (b ∷ []) bs));
      as_long = r.as_long ∙ length-set g.buf i b;
      same_size = r.same_size;
      same_sec = r.same_sec;
      same_usec = r.same_usec;
    }

-- The size stays within the buffer.
abbrev pub Sound : Input → Type 0
Sound g = g.size ≤ length g.buf

-- The same for a whole frame.
memcpy_whole :
    (bytes : Bytes) (g : Input)
    → length bytes ≤ length g.buf
    → Copied 0 bytes g (apply_all (memcpy 0 bytes) g)
      × (take (length bytes) (apply_all (memcpy 0 bytes) g).buf ≡ bytes)
memcpy_whole bytes g fits =
    let r = memcpy-Copied 0 bytes g (omega arith) in
    (
      r,
      ap (λ n. take n (apply_all (memcpy 0 bytes) g).buf) {y = 0 + length bytes} (omega arith)
          ∙ r.bytes_there,
    )

copied_and_stamped :
    (bytes : Bytes) (sec usec : ℕ) (g : Input)
    → length bytes ≤ length g.buf
    → let h =
        apply_all (memcpy 0 bytes ++ put_size (length bytes) ∷ put_timestamp sec usec ∷ []) g in
      (held h ≡ record { buf = bytes; tv_sec = sec; tv_usec = usec }) × Sound h
copied_and_stamped bytes sec usec g fits =
    let (r, whole) = memcpy_whole bytes g fits in
    rw (apply_all-append (memcpy 0 bytes) (put_size (length bytes) ∷ put_timestamp sec usec ∷ []) g)
      (rw (whole, r.as_long) (refl, fits))

-- The writes of a frame that fits leave exactly this frame.
pub apply_all-stores :
    (p : Publication) (g : Input)
    → Fits p g
    → (held (apply_all (stores p) g) ≡ meant p g) × Sound (apply_all (stores p) g)
unfolding stores
apply_all-stores (http bytes) g h =
    let (r, whole) = memcpy_whole bytes (apply (put_size (length bytes)) g) h in
    rw (r.same_size, r.same_sec, r.same_usec, whole, r.as_long) (refl, h)
apply_all-stores (file memory bytes sec usec) g h =
    copied_and_stamped bytes sec usec (apply (allocate memory) g) h
apply_all-stores (uvc bytes sec usec) g h = copied_and_stamped bytes sec usec g h
