-- ===== src/FileOutput/Ring.antt =====
-- How many pictures the folder holds, and which.
use mjpg_streamer.Common.{
  ℕ, zero, suc, ◌+◌, ◌-◌, ◌%◌, ◌≤◌, ◌<◌, ◌≡◌, ◌≢◌, refl, ap, ◌∙◌, ◌||◌, Bool, true, List, [], ◌∷◌,
  ◌++◌, length, drop, ◌==◌, ltb, arith, Bool-cases, inl, inr, length-append, length-drop,
}
use native.Mathlib.Nat.{suc-mod, mod-lt, mod-eq_of_lt, mod_self}
use mjpg_streamer.Common.Int.{pos}
use mjpg_streamer.Common.Text.{Bytes}
use mjpg_streamer.FileOutput.{
  delete_loop, maintain_ringbuffer, Options, cleans, Worker, save_frame, worker_thread,
}

-- Every deletion succeeds.
abbrev pub deletes_all : Bytes → Bool
deletes_all name = true

delete_loop-drop : (k : ℕ) (names : List Bytes) → delete_loop deletes_all k names ≡ drop k names
unfolding delete_loop
delete_loop-drop zero names = refl
delete_loop-drop (suc k) [] = refl
delete_loop-drop (suc k) (name ∷ names) = delete_loop-drop k names

-- What is kept are the last names of the list, as many as the size allows.
pub maintain_ringbuffer-drop :
    (size : ℕ) (names : List Bytes)
    → maintain_ringbuffer deletes_all (pos size) names ≡ drop (length names - size) names
unfolding maintain_ringbuffer
maintain_ringbuffer-drop size names = delete_loop-drop (length names - size) names

maintained :
    (size : ℕ) (names : List Bytes)
    → length (maintain_ringbuffer deletes_all (pos size) names) ≤ size
maintained size names =
    rw (maintain_ringbuffer-drop size names)
      (omega (arith, length-drop (length names - size) names))

suc-mod_ne : (n m : ℕ) → 0 < m → suc n % m ≢ 0 → suc n % m ≡ suc (n % m)
suc-mod_ne n m h ne = elim (Bool-cases (ltb (suc (n % m)) m)) [
  | inl below ↦ suc-mod n m ∙ mod-eq_of_lt (ground arith)
  | inr over ↦
      let whole : suc (n % m) ≡ m = ground (arith, mod-lt n h) in
      absurd (ne (suc-mod n m ∙ ap (λ (k : ℕ). k % m) whole ∙ mod_self m))
]

-- How far the folder may have grown when the counter stands at `n`.
record Counted (size e n : ℕ) (w : Worker) : Type 0 where
  counter : w.counter ≡ n
  bounded : n ≢ 0 → length w.folder ≤ size + n % (suc e + 1)

abbrev pub options : ℕ → ℕ → Options
options size e = record { ringbuffer_size = pos size; ringbuffer_exceed = pos e }

save_frame-Counted :
    (name : ℕ → Bytes) (size e n : ℕ) (w : Worker)
    → Counted size e n w
    → Counted size e (suc n) (save_frame deletes_all name (options size (suc e)) w)
unfolding save_frame cleans
save_frame-Counted name size e n w c =
    elim (Bool-cases (suc w.counter == 1 || suc w.counter % (suc e + 1) == 0)) [
      | inl now ↦ record {
        counter = ap suc c.counter;
        bounded = λ ne.
            let written = w.folder ++ name w.counter ∷ [] in
            let few = maintained size written in rw now (omega (arith, few));
      }
      | inr later ↦ record {
        counter = ap suc c.counter;
        bounded = λ ne.
            let turn : suc w.counter % (suc e + 1) ≡ suc (w.counter % (suc e + 1)) =
              suc-mod_ne w.counter (suc e + 1) (omega arith) (ground arith) in
            let before : length w.folder ≤ size + n % (suc e + 1) =
              c.bounded (ground (arith, c.counter)) in
            let turn' : suc n % (suc e + 1) ≡ suc (n % (suc e + 1)) = rw c.counter at turn in
            rw later (omega (arith, before, turn', length-append w.folder (name w.counter ∷ [])));
      }
    ]

started-Counted :
    (name : ℕ → Bytes) (size e n : ℕ) (folder : List Bytes)
    → Counted size e n (
        worker_thread deletes_all name
          (options size (suc e))
          n
          (record { counter = 0; folder = folder }))
unfolding worker_thread
started-Counted name size e zero folder = record {
  counter = refl;
  bounded = λ ne. absurd (ne refl);
}
started-Counted name size e (suc n) folder =
    save_frame-Counted name size e n _ (started-Counted name size e n folder)

-- Without --exceed every turn cleans up.
kept_at_size :
    (name : ℕ → Bytes) (size : ℕ) (w : Worker)
    → length (save_frame deletes_all name (options size 0) w).folder ≤ size
unfolding save_frame cleans
kept_at_size name size w = maintained size (w.folder ++ name w.counter ∷ [])

-- If deletions succeed: however full the folder was before, after each turn of the loop that has saved a picture, its
-- clean-up included, it holds at most as many pictures as --size and --exceed together, neither of them negative.
-- (Between the write and the clean-up of a turn it may hold one more.)
pub worker_thread-bounded :
    (name : ℕ → Bytes) (size exceed n : ℕ) (folder : List Bytes)
    → length
        (worker_thread deletes_all name
          (options size exceed)
          (suc n)
          (record { counter = 0; folder = folder })).folder
      ≤ size + exceed
unfolding worker_thread
worker_thread-bounded name size zero n folder =
    let few = kept_at_size name size (
      worker_thread deletes_all name (options size 0) n
        (record { counter = 0; folder = folder })) in
    omega (arith, few)
worker_thread-bounded name size (suc e) n folder =
    let c = started-Counted name size e (suc n) folder in
    omega (arith, c.bounded (omega arith), mod-lt (suc n) {m = suc e + 1} (omega arith))
