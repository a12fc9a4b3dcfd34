-- ===== src/Udp/Saved.antt =====
-- Which frames are saved and which datagrams are answered.
use mjpg_streamer.Common.{
  ℕ, ◌+◌, ◌≡◌, ◌≢◌, refl, ap, ◌∙◌, true, false, List, [], ◌∷◌, ◌++◌, map, Option, none, some,
  length, ltb, take, take_all, ◌≤◌, ◌<◌, ◌==◌, if◌then◌else◌, All, Bool-cases, inl, inr, arith,
}
use mjpg_streamer.Common.Int.{pos}
use mjpg_streamer.Common.Text.{Bytes, c_string}
use mjpg_streamer.Udp.{
  Turn, Effect, creates, saves, replies, runs, reads_behind, udpbuffer_size, command_line,
  worker_loop, worker_thread,
}

-- Nothing fails in the turn, and the datagram fits udpbuffer with a zero behind it.
abbrev pub Succeeds : Turn → Type 0
Succeeds t =
    (t.alloc_ok ≡ true)
    × (t.open_ok ≡ true)
    × (t.write_ok ≡ true)
    × (length t.message < udpbuffer_size)

-- The frames that are saved, with their names, in order.
abbrev pub saved : List Effect → List (Bytes × Bytes)
saved [] = []
saved (creates name ∷ es) = saved es
saved (saves name frame ∷ es) = (name, frame) ∷ saved es
saved (replies message ∷ es) = saved es
saved (runs line ∷ es) = saved es
saved (reads_behind ∷ es) = saved es

-- The datagrams that are sent back, in order.
abbrev pub replied : List Effect → List Bytes
replied [] = []
replied (creates name ∷ es) = replied es
replied (saves name frame ∷ es) = replied es
replied (replies message ∷ es) = message ∷ replied es
replied (runs line ∷ es) = replied es
replied (reads_behind ∷ es) = replied es

-- What is asked for: a frame for every datagram whose text is not empty.
abbrev pub named : List Turn → List (Bytes × Bytes)
named [] = []
named (t ∷ turns) =
    let rest = named turns in
    if length (c_string t.message) == 0 then rest else (c_string t.message, t.frame) ∷ rest

length-c_string : (s : Bytes) → length (c_string s) ≤ length s
length-c_string [] = omega arith
length-c_string (c ∷ s) = ground (arith, length-c_string s)

below_differs : (a n : ℕ) → a < n → (a == n) ≡ false
below_differs a n h = ground arith

past_command :
    (command : Option Bytes) (name : Bytes) (es : List Effect)
    → (saved (command_line command name ++ es) ≡ saved es)
      × (replied (command_line command name ++ es) ≡ replied es)
past_command none name es = (refl, refl)
past_command (some command) name es = (refl, refl)

-- The answer of a turn and what the later turns do.
abbrev answered : Option Bytes → ℕ → Turn → List Turn → List Effect
answered command m t turns =
    replies t.message
    ∷ (command_line command (c_string t.message)
        ++ worker_loop command (if ltb m (length t.frame) then length t.frame + 65536 else m) turns)

worker_loop-step :
    (command : Option Bytes) (m : ℕ) (t : Turn) (turns : List Turn)
    → Succeeds t
    → worker_loop command m (t ∷ turns) ≡ (
        if length (c_string t.message) == 0
        then answered command m t turns
        else saves (c_string t.message) t.frame ∷ answered command m t turns)
unfolding worker_loop
worker_loop-step command m t turns (alloc, opened, wrote, short) =
    let whole : take udpbuffer_size t.message ≡ t.message = take_all 1024 t.message (omega arith) in
    let inside : (length (c_string t.message) == 1024) ≡ false =
      below_differs (length (c_string t.message)) 1024 (omega (arith, length-c_string t.message)) in
    elim (Bool-cases (ltb m (length t.frame))) [
      | inl more ↦ rw (alloc, opened, wrote, whole) (rw (more, inside) refl)
      | inr enough ↦ rw (alloc, opened, wrote, whole) (rw (enough, inside) refl)
    ]

worker_loop-named :
    (command : Option Bytes) (m : ℕ) (turns : List Turn)
    → All Succeeds turns
    → (saved (worker_loop command m turns) ≡ named turns)
      × (replied (worker_loop command m turns) ≡ map (λ t. t.message) turns)
unfolding worker_loop
worker_loop-named command m [] h = (refl, refl)
worker_loop-named command m (t ∷ turns) (now, h) =
    let grown = if ltb m (length t.frame) then length t.frame + 65536 else m in
    let (files, answers) = worker_loop-named command grown turns h in
    let (same_files, same_answers) =
      past_command command (c_string t.message) (worker_loop command grown turns) in
    let step = worker_loop-step command m t turns now in
    elim (Bool-cases (length (c_string t.message) == 0)) [
      | inl nameless ↦
          let e : worker_loop command m (t ∷ turns) ≡ answered command m t turns =
            step ∙ rw nameless refl in
          (
            ap saved e ∙ same_files ∙ files ∙ rw nameless refl,
            ap replied e ∙ ap (◌∷◌ t.message) (same_answers ∙ answers),
          )
      | inr has_name ↦
          let e : worker_loop command m (t ∷ turns)
              ≡ saves (c_string t.message) t.frame ∷ answered command m t turns =
            step ∙ rw has_name refl in
          (
            ap saved e
                ∙ ap (◌∷◌ (c_string t.message, t.frame)) (same_files ∙ files)
                ∙ rw has_name refl,
            ap replied e ∙ ap (◌∷◌ t.message) (same_answers ∙ answers),
          )
    ]

-- On a valid port, where no call fails, every write is whole and every datagram is shorter than the 1024 bytes of
-- udpbuffer: every datagram is sent back as it came, in order, and for every
-- one with a name the frame of its turn, and no other, is saved under that name.
pub worker_thread-named :
    (port : ℕ) (command : Option Bytes) (max_frame_size : ℕ) (turns : List Turn)
    → port ≢ 0
    → All Succeeds turns
    → (saved (worker_thread (pos port) command max_frame_size turns) ≡ named turns)
      × (replied (worker_thread (pos port) command max_frame_size turns)
          ≡ map (λ t. t.message) turns)
unfolding worker_thread
worker_thread-named port command max_frame_size turns ne h =
    let valid : (port == 0) ≡ false = ground arith in
    rw valid (worker_loop-named command max_frame_size turns h)
