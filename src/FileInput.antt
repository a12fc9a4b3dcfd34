-- ===== src/FileInput.antt =====
-- plugins/input_file/input_file.c: the worker thread, which publishes the pictures of a folder, those that are there
-- one after the other (`existing`), or each one that inotify reports. What inotify, open, fstat, malloc and read yield in
-- each turn is a parameter of the turn; the turns end where the stop flag is set. The pauses and the errors of unlink,
-- which change nothing, are left out. A read of inotify reports one event at least and the source looks at the first.
pub mod Cycle
pub mod Watch
use mjpg_streamer.Common.{
  ℕ, suc, Bool, true, false, ◌||◌, not, ◌&&◌, List, [], ◌∷◌, ◌++◌, Option, none, some, length, take,
  get_elem?, ◌==◌, if◌then◌else◌,
}
use mjpg_streamer.Common.Text.{Bytes, codes, contains, str_eq}

-- The part of an inotify event that is looked at: whether it is of the watched directory, whether its mask holds
-- IN_IGNORED, IN_Q_OVERFLOW or IN_UNMOUNT, and the name.
pub record InotifyEvent : Type 0 where
  pub ours : Bool
  pub stops : Bool
  pub name : Bytes

-- How the calls on the file end.
pub data Reading : Type 0 where
  open_failed stat_failed no_memory read_failed : Reading
  contents : Bytes → Reading

-- A turn of the loop: the first event that read yields (none if it fails), and the calls on the file.
pub record Turn : Type 0 where
  pub event : Option InotifyEvent
  pub reading : Reading

pub data Effect : Type 0 where
  publishes : Bytes → Bytes → Effect
  removes : Bytes → Effect

-- The stop flag, an error that leaves the loop, a folder without pictures, an error that leaves the loop with the mutex
-- locked, an access behind the list of files.
pub data Ending : Type 0 where
  stopped failed no_pictures locked beyond : Ending

pub record Run : Type 0 where
  pub effects : List Effect
  pub ending : Ending

abbrev pub ends : Ending → Run
ends e = record { effects = []; ending = e }

-- From open to unlink, with the rest of the run.
abbrev pub serve_file : Bool → Bytes → Reading → Run → Run
serve_file rm path open_failed rest = ends failed
serve_file rm path stat_failed rest = ends failed
serve_file rm path no_memory rest = ends locked
serve_file rm path read_failed rest = ends failed
serve_file rm path (contents bytes) rest = record rest {
  effects = publishes path bytes ∷ ((if rm then removes path ∷ [] else []) ++ rest.effects);
}

-- snprintf into the buffer of 65536 bytes.
abbrev pub path_of : Bytes → Bytes → Bytes
path_of folder name = take 65535 (folder ++ name)

abbrev pub is_picture : Bytes → Bool
is_picture name = contains name (codes ".jpg") || contains name (codes ".JPG")

-- The loop over the existing files, with currentFileNumber and hasJpgFile.
unfoldable pub existing_loop : Bool → Bytes → List Bytes → ℕ → Bool → List Turn → Run
existing_loop rm folder files current has_jpg [] = ends stopped
existing_loop rm folder files current has_jpg (t ∷ turns) =
    let next = suc current in
    let wrapped = if next == length files then 0 else next in
    let served = existing_loop rm folder files wrapped true turns in
    let skipped = existing_loop rm folder files wrapped has_jpg turns in
    elim (get_elem? files current) [
      | none ↦ ends beyond
      | some name ↦
          if is_picture name
          then serve_file rm (path_of folder name) t.reading served
          else if (next == length files) && not has_jpg
          then ends no_pictures
          else skipped
    ]

-- Whether the file name that was asked for, if any, is not the event's.
abbrev pub is_ignored : Option Bytes → Bytes → Bool
is_ignored none name = false
is_ignored (some wanted) name = not (str_eq wanted name)

-- The loop over the events.
unfoldable pub new_loop : Bool → Bytes → Option Bytes → List Turn → Run
new_loop rm folder filename [] = ends stopped
new_loop rm folder filename (t ∷ turns) =
    let rest = new_loop rm folder filename turns in
    elim t.event [
      | none ↦ ends failed
      | some e ↦
          if not e.ours
          then rest
          else if e.stops
          then ends failed
          else if is_ignored filename e.name
          then rest
          else serve_file rm (path_of folder e.name) t.reading rest
    ]

-- The options, and what scandir yields.
pub record Options : Type 0 where
  pub rm : Bool
  pub folder : Bytes
  pub filename : Option Bytes
  pub existing : Bool
  pub files : Option (List Bytes)

unfoldable pub worker_thread : Options → List Turn → Run
unfolding existing_loop new_loop
worker_thread o turns =
    if o.existing
    then elim o.files [
      | none ↦ ends failed
      | some files ↦ existing_loop o.rm o.folder files 0 false turns
    ]
    else new_loop o.rm o.folder o.filename turns
