-- ===== src/Proxy/Run.antt =====
-- extract_data with a stop flag that stays off, and the independence of the result from the blocks
-- in which the bytes arrive.
use mjpg_streamer.Common.{
  ℕ, ◌+◌, ◌≡◌, refl, sym, ◌∙◌, Bool, false, List, [], ◌∷◌, ◌++◌, append_assoc, All,
}
use mjpg_streamer.Common.Text.{Bytes}
use mjpg_streamer.Proxy.{
  ExtractorState, ImageCall, step_in, extract_from, extract_data, Block, process_blocks,
  send_request_and_process_response, init_extractor_state,
}

abbrev pub never : ℕ → Bool
never _ = false

-- The state and the calls after all the bytes.
unfoldable pub run : ExtractorState → Bytes → ExtractorState × List ImageCall
run s [] = (s, [])
run s (b ∷ bs) =
    let (s', calls) = step_in s.part s b in let (s'', later) = run s' bs in (s'', calls ++ later)

extract_from-run : (bs : Bytes) (i : ℕ) (s : ExtractorState) → extract_from never i s bs ≡ run s bs
unfolding extract_from run
extract_from-run [] i s = refl
extract_from-run (b ∷ bs) i s = rw (extract_from-run bs (i + 1) (step_in s.part s b).0)

pub extract_data-run : (s : ExtractorState) (bs : Bytes) → extract_data never s bs ≡ run s bs
unfolding extract_data
extract_data-run s bs = extract_from-run bs 0 s

pub run-append :
    (xs ys : Bytes) (s : ExtractorState)
    → run s (xs ++ ys) ≡ ((run (run s xs).0 ys).0, (run s xs).1 ++ (run (run s xs).0 ys).1)
unfolding run
run-append [] ys s = refl
run-append (x ∷ xs) ys s = rw (run-append xs ys (step_in s.part s x).0) (rw append_assoc)

-- What one piece does, when it is known, and what follows.
pub run_piece :
    (xs ys : Bytes) (s t : ExtractorState) (calls : List ImageCall)
    → run s xs ≡ (t, calls)
    → run s (xs ++ ys) ≡ ((run t ys).0, calls ++ (run t ys).1)
run_piece xs ys s t calls e = run-append xs ys s ∙ rw e

abbrev pub joined : List Block → Bytes
joined [] = []
joined (k ∷ rest) = k.bytes ++ joined rest

-- The stop flag is off whenever it is read.
abbrev pub Runs : List Block → Type 0
Runs = All (λ k. (k.halted ≡ false) × (k.stop ≡ never))

process_blocks-run :
    (blocks : List Block) (s : ExtractorState)
    → Runs blocks
    → process_blocks s blocks ≡ run s (joined blocks)
unfolding process_blocks run
process_blocks-run [] s h = refl
process_blocks-run (k ∷ rest) s ((go, on), t) =
    rw (go, on, extract_data-run s k.bytes, process_blocks-run rest (run s k.bytes).0 t)
      (sym (run-append k.bytes (joined rest) s))

-- However recv cuts the response into blocks, the calls of the callback and the final state are those
-- for the joined bytes.
pub send_request_and_process_response-joined :
    (blocks : List Block)
    → Runs blocks
    → send_request_and_process_response blocks
      ≡ extract_data never init_extractor_state (joined blocks)
unfolding send_request_and_process_response
send_request_and_process_response-joined blocks h =
    process_blocks-run blocks init_extractor_state h
    ∙ sym (extract_data-run init_extractor_state (joined blocks))
