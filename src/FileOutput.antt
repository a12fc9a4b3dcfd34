-- ===== src/FileOutput.antt =====
-- plugins/output_file/output_file.c: the ring buffer of pictures in a folder, and the schedule on which the
-- worker thread cleans it up. A folder is the sorted list of the picture names in it, as scandir with
-- check_for_filename and alphasort lists them; the name of the n-th picture is a parameter, since it is made
-- of the time.
pub mod Command
pub mod Ring
pub mod Names
use mjpg_streamer.Common.{
  ℕ, zero, suc, ◌+◌, ◌-◌, ◌%◌, ◌||◌, Bool, true, List, [], ◌∷◌, ◌++◌, length, if◌then◌else◌, ◌==◌,
}
use mjpg_streamer.Common.Int.{ℤ, pos, negsuc}
use mjpg_streamer.Common.Text.{Bytes}

-- The loop that deletes: i runs from 0 to n - size, and `unlink` tells which deletions succeed. What is
-- returned are the names that remain of those it passes.
unfoldable pub delete_loop : (Bytes → Bool) → ℕ → List Bytes → List Bytes
delete_loop unlink zero names = names
delete_loop unlink (suc k) [] = []
delete_loop unlink (suc k) (name ∷ names) =
    let rest = delete_loop unlink k names in if unlink name then rest else name ∷ rest

-- maintain_ringbuffer: the folder afterwards.
unfoldable pub maintain_ringbuffer : (Bytes → Bool) → ℤ → List Bytes → List Bytes
unfolding delete_loop
maintain_ringbuffer unlink (negsuc _) names = names
maintain_ringbuffer unlink (pos size) names = delete_loop unlink (length names - size) names

-- The options --size and --exceed, as they are kept.
pub record Options : Type 0 where
  pub ringbuffer_size : ℤ
  pub ringbuffer_exceed : ℤ

-- Whether the ring buffer is cleaned up, with the counter behind the picture.
unfoldable pub cleans : ℤ → ℕ → Bool
cleans (negsuc _) counter = true
cleans (pos zero) counter = true
cleans (pos (suc e)) counter = counter == 1 || counter % (suc e + 1) == 0

-- What the worker thread keeps from picture to picture.
pub record Worker : Type 0 where
  pub counter : ℕ
  pub folder : List Bytes

-- One turn of the worker thread that saves its picture: the new name, and the clean-up.
unfoldable pub save_frame : (Bytes → Bool) → (ℕ → Bytes) → Options → Worker → Worker
unfolding cleans
save_frame unlink name o w =
    let written = w.folder ++ name w.counter ∷ [] in
    record {
      counter = suc w.counter;
      folder =
          if cleans o.ringbuffer_exceed (suc w.counter)
          then maintain_ringbuffer unlink o.ringbuffer_size written
          else written;
    }

-- The worker thread over a number of pictures.
unfoldable pub worker_thread : (Bytes → Bool) → (ℕ → Bytes) → Options → ℕ → Worker → Worker
worker_thread unlink name o zero w = w
worker_thread unlink name o (suc n) w = save_frame unlink name o (worker_thread unlink name o n w)
