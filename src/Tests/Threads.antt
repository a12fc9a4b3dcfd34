-- ===== src/Tests/Threads.antt =====
-- A frame of two bytes on its way to a reader.
use mjpg_streamer.Common.{ℕ, ◌≤◌, ◌≡◌, refl, true, List, [], ◌∷◌, ◌++◌, some, arith}
use mjpg_streamer.Frames.{
  Input, reader, outside, Action, begin, write, read, uvc, start, step, run, begin_step, write_step,
  read_step, stores, AllAllowed,
}
use mjpg_streamer.Frames.Stores.{Sound}
use mjpg_streamer.Frames.Mutex.Exclusion.{is_inside, run-Exclusive}
use mjpg_streamer.Frames.Board.{shown, perform_all, events, run-refines}
use mjpg_streamer.Frames.Sights.{Faithful, run-Faithful}
use mjpg_streamer.Frames.Fresh.{run-Increasing}
use mjpg_streamer.Frames.Due.{Increasing}
use mjpg_streamer.Frames.Progress.{run-frees}
use mjpg_streamer.Frames.Holder.{frees, steps_left, turns}

abbrev empty_input : Input
empty_input = record { buf = 0 ∷ 0 ∷ 0 ∷ []; size = 0; tv_sec = 0; tv_usec = 0 }

-- The reader waits, the camera publishes, the reader wakes up and takes the mutex.
abbrev woken_up : List Action
woken_up =
    read 0
    ∷ read 0
    ∷ begin (uvc (7 ∷ 8 ∷ []) 5 6)
    ∷ write
    ∷ write
    ∷ write
    ∷ write
    ∷ write
    ∷ write
    ∷ read 0
    ∷ []

-- It copies the frame and unlocks.
abbrev taken : List Action
taken = read 0 ∷ read 0 ∷ read 0 ∷ read 0 ∷ read 0 ∷ []

woken_up-AllAllowed : AllAllowed woken_up (start empty_input)
unfolding AllAllowed step begin_step write_step read_step stores
woken_up-AllAllowed = (tt, (tt, (omega arith, (tt, (tt, (tt, (tt, (tt, (tt, (tt, tt))))))))))

whole-AllAllowed : AllAllowed (woken_up ++ taken) (start empty_input)
unfolding AllAllowed step begin_step write_step read_step stores
whole-AllAllowed = (
  tt,
  (tt, (omega arith, (tt, (tt, (tt, (tt, (tt, (tt, (tt, (tt, (tt, (tt, (tt, (tt, tt)))))))))))))),
)

taken-AllAllowed : AllAllowed taken (run woken_up (start empty_input))
unfolding AllAllowed run step begin_step write_step read_step stores
taken-AllAllowed = (tt, (tt, (tt, (tt, (tt, tt)))))

woken_up_inside : is_inside ((run woken_up (start empty_input)).readers 0).place ≡ true
unfolding run step begin_step write_step read_step stores
woken_up_inside = refl

woken_up_holds : (run woken_up (start empty_input)).db ≡ some (reader 0)
unfolding run step begin_step write_step read_step stores
woken_up_holds = refl

woken_up_left : steps_left (reader 0) (run woken_up (start empty_input)) ≤ turns (reader 0) taken
unfolding run step begin_step write_step read_step stores
woken_up_left = omega arith

empty_input-Sound : Sound empty_input
empty_input-Sound = omega arith

run-Exclusive_example :
    ((run woken_up (start empty_input)).input ≡ outside)
    × ((j : ℕ) → is_inside ((run woken_up (start empty_input)).readers j).place ≡ true → 0 ≡ j)
run-Exclusive_example =
    run-Exclusive empty_input woken_up empty_input-Sound woken_up-AllAllowed 0 woken_up_inside

run-refines_example :
    shown (run (woken_up ++ taken) (start empty_input))
    ≡ perform_all (events (woken_up ++ taken) (start empty_input)) (shown (start empty_input))
run-refines_example = run-refines empty_input (woken_up ++ taken) empty_input-Sound whole-AllAllowed

-- What the reader got in the end.
got_whole :
    ((run (woken_up ++ taken) (start empty_input)).readers 0).got
    ≡ record { number = 1; frame = record { buf = 7 ∷ 8 ∷ []; tv_sec = 5; tv_usec = 6 } } ∷ []
unfolding run step begin_step write_step read_step stores
got_whole = refl

run-Faithful_example :
    let b = shown (run (woken_up ++ taken) (start empty_input)) in
    Faithful (b.latest ∷ b.earlier) (b.got 0)
run-Faithful_example =
    run-Faithful empty_input (woken_up ++ taken) empty_input-Sound whole-AllAllowed 0

run-Increasing_example : Increasing ((run (woken_up ++ taken) (start empty_input)).readers 0).got
run-Increasing_example =
    run-Increasing empty_input (woken_up ++ taken) empty_input-Sound refl whole-AllAllowed 0

run-frees_example : frees taken (run woken_up (start empty_input)) ≡ true
run-frees_example =
    run-frees empty_input woken_up taken (reader 0) empty_input-Sound woken_up-AllAllowed
      taken-AllAllowed woken_up_holds woken_up_left
