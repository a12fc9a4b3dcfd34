-- ===== src/FileInput/Watch.antt =====
-- The files that inotify reports.
use mjpg_streamer.Common.{
  ◌≡◌, refl, subst, Bool, true, false, not, List, [], ◌∷◌, Option, some, if◌then◌else◌, All,
  Bool-cases, Option-cases, inl, inr,
}
use mjpg_streamer.Common.Text.{Bytes, str_eq, str_eq_iff}
use mjpg_streamer.FileInput.{
  InotifyEvent, Reading, open_failed, stat_failed, no_memory, read_failed, contents, Turn, Effect,
  publishes, removes, Run, ends, failed, serve_file, path_of, is_ignored, new_loop, worker_thread,
}

-- What the thread does that concerns the file with this path.
abbrev pub Touches : Bytes → Effect → Type 0
Touches path (publishes p bytes) = p ≡ path
Touches path (removes p) = p ≡ path

serve_file-Touches :
    (rm : Bool) (path : Bytes) (r : Reading) (rest : Run)
    → All (Touches path) rest.effects
    → All (Touches path) (serve_file rm path r rest).effects
serve_file-Touches rm path open_failed rest h = tt
serve_file-Touches rm path stat_failed rest h = tt
serve_file-Touches rm path no_memory rest h = tt
serve_file-Touches rm path read_failed rest h = tt
serve_file-Touches true path (contents bytes) rest h = (refl, (refl, h))
serve_file-Touches false path (contents bytes) rest h = (refl, h)

event-Touches :
    (rm : Bool) (folder wanted : Bytes) (e : InotifyEvent) (r : Reading) (rest : Run)
    → All (Touches (path_of folder wanted)) rest.effects
    → All
        (Touches (path_of folder wanted))
        (if not e.ours
          then rest
          else if e.stops
          then ends failed
          else if is_ignored (some wanted) e.name
          then rest
          else serve_file rm (path_of folder e.name) r rest).effects
event-Touches rm folder wanted e r rest h = elim (Bool-cases e.ours) [
  | inr other ↦ rw other h
  | inl ours ↦ elim (Bool-cases e.stops) [
    | inl stops ↦ rw (ours, stops) tt
    | inr goes_on ↦ elim (Bool-cases (str_eq wanted e.name)) [
      | inr differs ↦ rw (ours, goes_on, differs) h
      | inl same ↦
          let n : wanted ≡ e.name = (str_eq_iff wanted e.name).0 same in
          let served = serve_file-Touches rm (path_of folder wanted) r rest h in
          rw (ours, goes_on, same)
            (subst
              (λ w.
                All (Touches (path_of folder wanted))
                  (serve_file rm (path_of folder w) r rest).effects)
              n served)
    ]
  ]
]

new_loop-Touches :
    (rm : Bool) (folder wanted : Bytes) (turns : List Turn)
    → All (Touches (path_of folder wanted)) (new_loop rm folder (some wanted) turns).effects
unfolding new_loop
new_loop-Touches rm folder wanted [] = tt
new_loop-Touches rm folder wanted (t ∷ turns) = elim (Option-cases t.event) [
  | inl fails ↦ rw (new_loop, fails) tt
  | inr (e, is) ↦
      rw (new_loop, is)
        (event-Touches rm folder wanted e t.reading (new_loop rm folder (some wanted) turns)
          (new_loop-Touches rm folder wanted turns))
]

-- In the mode of new files, with `--name`, whatever inotify reports, the thread publishes and removes no file but the one of this name in the
-- folder (its path cut after 65535 bytes).
pub worker_thread-Touches :
    (rm : Bool) (folder wanted : Bytes) (files : Option (List Bytes)) (turns : List Turn)
    → All
        (Touches (path_of folder wanted))
        (worker_thread
          (record {
            rm = rm;
            folder = folder;
            filename = some wanted;
            existing = false;
            files = files;
          })
          turns).effects
unfolding worker_thread
worker_thread-Touches rm folder wanted files turns = new_loop-Touches rm folder wanted turns
