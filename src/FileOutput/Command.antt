-- ===== src/FileOutput/Command.antt =====
-- output_cmd of output_file.c: the control that saves the current frame under a name. The plugin's table of
-- controls and the results of the calls that can fail are parameters.
use mjpg_streamer.Common.{
  ℕ, ◌≡◌, Bool, not, ◌&&◌, List, [], ◌∷◌, Option, none, some, ◌==◌, if◌then◌else◌, take, length,
  ◌≤◌,
}
use mjpg_streamer.Common.Int.{ℤ, pos, negsuc}
use mjpg_streamer.Common.Text.{Bytes}

-- A control of the plugin, as far as the search reads it.
pub record Control : Type 0 where
  pub id : ℕ
  pub group : ℕ

-- Whether the mutex, realloc and open succeed, and what write returns: none for -1, else the number of bytes written,
-- which may be less than the frame.
pub record Calls : Type 0 where
  pub lock_ok : Bool
  pub alloc_ok : Bool
  pub open_ok : Bool
  pub written : Option ℕ

-- What is returned, and the file that is left: its name and its bytes.
pub record Outcome : Type 0 where
  pub rc : ℤ
  pub file : Option (Bytes × Bytes)

abbrev pub fails : Outcome
fails = record { rc = negsuc 0; file = none }

-- What write leaves of the frame in the file.
abbrev saved_as : Bytes → Bytes → Option ℕ → Outcome
saved_as name frame none = record { rc = negsuc 0; file = some (name, []) }
saved_as name frame (some n) = record { rc = pos 0; file = some (name, take n frame) }

-- case OUT_FILE_CMD_TAKE; open truncates the file.
unfoldable pub take_frame : Calls → Bytes → Option Bytes → Outcome
take_frame calls frame none = fails
take_frame calls frame (some name) =
    if not calls.lock_ok
    then fails
    else if not calls.alloc_ok
    then fails
    else if not calls.open_ok
    then fails
    else saved_as name frame calls.written

-- The loop over the controls: the first that matches decides.
unfoldable pub command_loop : Calls → Bytes → Option Bytes → ℕ → List Control → Outcome
unfolding take_frame
command_loop calls frame value control_id [] = fails
command_loop calls frame value control_id (c ∷ controls) =
    let rest = command_loop calls frame value control_id controls in
    if c.id == control_id && c.group == 0
    then (if control_id == 1 then take_frame calls frame value else fails)
    else rest

-- IN_CMD_GENERIC is 0; the other groups are ignored.
unfoldable pub output_cmd : List Control → Calls → Bytes → ℕ → ℕ → Option Bytes → Outcome
unfolding command_loop
output_cmd controls calls frame control_id group value =
    if group == 0
    then command_loop calls frame value control_id controls
    else record { rc = pos 0; file = none }

-- What a call that reports success on a generic control has done.
pub record Taken (control_id : ℕ) (calls : Calls) (frame : Bytes) (value : Option Bytes)
    (o : Outcome) : Type 0 where
  pub is_take : control_id ≡ 1
  pub name : Bytes
  pub given : value ≡ some name
  pub count : ℕ
  pub written : calls.written ≡ some count
  pub saved : o.file ≡ some (name, take count frame)
  pub whole : length frame ≤ count → o.file ≡ some (name, frame)
