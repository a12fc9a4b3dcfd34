-- ===== src/Udp.antt =====
-- plugins/output_udp/output_udp.c: the worker thread, which saves a frame under the name that a datagram
-- brings, sends the datagram back and runs the command. What recvfrom, the input plugin and the calls that
-- can fail yield in each turn is a parameter of the turn. recvfrom keeps 1024 bytes of a datagram; where none of
-- them is zero, strlen reads behind udpbuffer, and the model ends. snprintf's bound of 1024 bytes on the command is written out; setenv
-- and the exit code of system are not modelled.
pub mod Saved
use mjpg_streamer.Common.{ℕ}
use mjpg_streamer.Common.{
  ◌+◌, Bool, not, ◌&&◌, List, [], ◌∷◌, ◌++◌, Option, none, some, length, take, ltb, ◌==◌,
  if◌then◌else◌,
}
use mjpg_streamer.Common.Int.{ℤ, pos, negsuc}
use mjpg_streamer.Common.Text.{Bytes, codes, c_string}

-- One turn of the loop: the datagram, the frame, and whether realloc and open succeed and write
-- writes the whole frame; without write_ok it returns -1.
pub record Turn : Type 0 where
  pub message : Bytes
  pub frame : Bytes
  pub alloc_ok : Bool
  pub open_ok : Bool
  pub write_ok : Bool

-- What a turn does: a file created, a frame saved under a name, a datagram sent back, a command run, a read behind
-- udpbuffer.
pub data Effect : Type 0 where
  creates : Bytes → Effect
  saves : Bytes → Bytes → Effect
  replies : Bytes → Effect
  runs : Bytes → Effect
  reads_behind : Effect

-- sizeof(udpbuffer)
abbrev pub udpbuffer_size : ℕ
udpbuffer_size = 1024

-- snprintf of the command and the quoted name, 1023 bytes at most.
abbrev pub command_line : Option Bytes → Bytes → List Effect
command_line none name = []
command_line (some command) name =
    runs (take 1023 (command ++ (codes " \"" ++ (name ++ codes "\"")))) ∷ []

-- The loop, with max_frame_size; the list of turns ends where the stop flag is set.
unfoldable pub worker_loop : Option Bytes → ℕ → List Turn → List Effect
worker_loop command max_frame_size [] = []
worker_loop command max_frame_size (t ∷ turns) =
    let grows = ltb max_frame_size (length t.frame) in
    let received = take udpbuffer_size t.message in
    let name = c_string received in
    let rest =
      worker_loop command (if grows then length t.frame + 65536 else max_frame_size) turns in
    let answer = replies received ∷ (command_line command name ++ rest) in
    if grows && not t.alloc_ok
    then []
    else if length name == udpbuffer_size
    then reads_behind ∷ []
    else if length name == 0
    then answer
    else if not t.open_ok
    then []
    else if not t.write_ok
    then creates name ∷ []
    else saves name t.frame ∷ answer

-- The thread: it ends at once without a valid port.
unfoldable pub worker_thread : ℤ → Option Bytes → ℕ → List Turn → List Effect
unfolding worker_loop
worker_thread (negsuc _) command max_frame_size turns = []
worker_thread (pos port) command max_frame_size turns =
    if port == 0 then [] else worker_loop command max_frame_size turns
