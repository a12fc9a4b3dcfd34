-- ===== src/Frames.antt =====
-- The frame that the threads share: `globals.in[i]` of plugins/input.h with its mutex db and its condition variable
-- db_update. The writer is an input plugin (on_image_received of input_http.c, worker_thread of input_file.c, cam_thread
-- of input_uvc.c), the readers are loops of output plugins (send_stream of httpd.c, worker_thread of output_file.c).
-- A step is one statement of one thread, a memcpy one step for each byte, and a schedule is a list of steps. A thread
-- that is scheduled while it waits for the mutex or the signal does nothing. pthread_cond_wait may return without a
-- signal (`spurious`). input_file has two exits inside its part: where read fails (`unread`) it leaves an empty frame and
-- unlocks without a broadcast, where malloc fails (`no_memory`) it ends and never unlocks. Here every writer may take
-- them, in front of any of its writes, and one that has left with `unread` may begin again.
pub mod Stores
pub mod Mutex
pub mod Sights
pub mod Due
pub mod Fresh
pub mod Board
pub mod Holder
pub mod Progress
use mjpg_streamer.Common.{
  ℕ, suc, ◌≤◌, Bool, true, false, List, [], ◌∷◌, ◌++◌, Option, none, some, length, take, set, ◌≡◌,
  get_or, ltb, ◌==◌, if◌then◌else◌,
}
use mjpg_streamer.Common.Text.{Bytes}
use mjpg_streamer.Httpd.Stream.{Frame}

-- The part of struct _input that db protects.
pub record Input : Type 0 where
  pub buf : Bytes
  pub size : ℕ
  pub tv_sec : ℕ
  pub tv_usec : ℕ

-- The frame that it holds.
abbrev pub held : Input → Frame
held g = record { buf = take g.size g.buf; tv_sec = g.tv_sec; tv_usec = g.tv_usec }

-- A write of the input plugin (where its calls succeed: unread_step and no_memory_step are the exits): malloc of buf, with what the memory holds, a byte, the size, the timestamp.
pub data Store : Type 0 where
  allocate : Bytes → Store
  put_byte : ℕ → ℕ → Store
  put_size : ℕ → Store
  put_timestamp : ℕ → ℕ → Store

abbrev pub apply : Store → Input → Input
apply (allocate memory) g = record g { buf = memory }
apply (put_byte i b) g = record g { buf = set g.buf i b }
apply (put_size n) g = record g { size = n }
apply (put_timestamp sec usec) g = record g { tv_sec = sec; tv_usec = usec }

abbrev pub apply_all : List Store → Input → Input
apply_all [] g = g
apply_all (x ∷ xs) g = apply_all xs (apply x g)

-- memcpy to buf + i.
abbrev pub memcpy : ℕ → Bytes → List Store
memcpy i [] = []
memcpy i (b ∷ bs) = put_byte i b ∷ memcpy (suc i) bs

-- The frame that an input plugin publishes: input_http has no timestamp, input_file allocates the buffer anew.
pub data Publication : Type 0 where
  http : Bytes → Publication
  file : Bytes → Bytes → ℕ → ℕ → Publication
  uvc : Bytes → ℕ → ℕ → Publication

-- The writes between pthread_mutex_lock and pthread_cond_broadcast.
unfoldable pub stores : Publication → List Store
stores (http bytes) = put_size (length bytes) ∷ memcpy 0 bytes
stores (file memory bytes sec usec) =
    allocate memory ∷ (memcpy 0 bytes ++ put_size (length bytes) ∷ put_timestamp sec usec ∷ [])
stores (uvc bytes sec usec) =
    memcpy 0 bytes ++ put_size (length bytes) ∷ put_timestamp sec usec ∷ []

-- The frame that is meant, given the frame before, whose timestamp input_http leaves.
abbrev pub meant : Publication → Input → Frame
meant (http bytes) g = record { buf = bytes; tv_sec = g.tv_sec; tv_usec = g.tv_usec }
meant (file memory bytes sec usec) g = record { buf = bytes; tv_sec = sec; tv_usec = usec }
meant (uvc bytes sec usec) g = record { buf = bytes; tv_sec = sec; tv_usec = usec }

-- The buffer has room for the frame.
abbrev pub Fits : Publication → Input → Type 0
Fits (http bytes) g = length bytes ≤ length g.buf
Fits (file memory bytes sec usec) g = length bytes ≤ length memory
Fits (uvc bytes sec usec) g = length bytes ≤ length g.buf

pub data Thread : Type 0 where
  writer : Thread
  reader : ℕ → Thread

-- Where the writer is: outside, in front of the remaining writes, or in front of the unlock. The frame that is meant is
-- kept for the statements; no step looks at it.
pub data Writer : Type 0 where
  outside : Writer
  storing : Frame → List Store → Writer
  signalled : Frame → Writer

-- Where a reader is: at the loop's head, holding the mutex in front of pthread_cond_wait, waiting for the signal,
-- signalled and waiting for the mutex, in front of the read of size, behind it, copying (size, timestamp and the bytes
-- so far), or out of the loop.
pub data Place : Type 0 where
  head locked waiting woken reading left : Place
  sized : ℕ → Place
  copying : ℕ → ℕ → ℕ → Bytes → Place

-- A frame that a reader took, and how many had been published before it was.
pub record Sight : Type 0 where
  pub number : ℕ
  pub frame : Frame

pub record Reader : Type 0 where
  pub place : Place
  pub got : List Sight

pub record System : Type 0 where
  pub db : Option Thread
  pub global : Input
  pub input : Writer
  pub readers : ℕ → Reader
  pub latest : Frame
  pub earlier : List Frame

-- Before the first frame: `global` holds what the plugin's init left there.
abbrev pub start : Input → System
start g = record {
  db = none;
  global = g;
  input = outside;
  readers = λ _. record { place = head; got = [] };
  latest = held g;
  earlier = [];
}

abbrev pub update {ℓ} : {A : Type ℓ} → ℕ → A → (ℕ → A) → ℕ → A
update i a f j = if i == j then a else f j

abbrev pub is_free : Option Thread → Bool
is_free none = true
is_free (some _) = false

-- pthread_cond_broadcast, for one reader.
abbrev pub signal : Place → Place
signal waiting = woken
signal p = p

abbrev pub wake : Reader → Reader
wake r = record r { place = signal r.place }

-- The next statement of the writer.
unfoldable pub write_step : Writer → System → System
write_step outside s = s
write_step (storing f (x ∷ xs)) s = record s { global = apply x s.global; input = storing f xs }
write_step (storing f []) s = record s { readers = λ i. wake (s.readers i); input = signalled f }
write_step (signalled f) s = record s {
  db = none;
  input = outside;
  latest = f;
  earlier = s.latest ∷ s.earlier;
}

-- read fails: free, buf = NULL, size = 0, and the unlock is next.
unfoldable pub unread_step : Writer → System → System
unread_step (storing f xs) s =
    let g = record s.global { buf = []; size = 0 } in
    record s { global = g; input = signalled (held g) }
unread_step w s = s

-- malloc fails: buf = NULL, and the thread ends with db locked.
unfoldable pub no_memory_step : Writer → System → System
no_memory_step (storing f xs) s = record s {
  global = record s.global { buf = [] };
  input = outside;
}
no_memory_step w s = s

-- The writer has a frame and calls pthread_mutex_lock.
unfoldable pub begin_step : Publication → Writer → System → System
begin_step p outside s =
    if is_free s.db
    then record s { db = some writer; input = storing (meant p s.global) (stores p) }
    else s
begin_step p _ s = s

abbrev pub moves : ℕ → Place → System → System
moves i p s = record s { readers = update i (record (s.readers i) { place = p }) s.readers }

-- The next statement of a reader.
unfoldable pub read_step : ℕ → Place → System → System
read_step i head s = if is_free s.db then record (moves i locked s) { db = some (reader i) } else s
read_step i locked s = record (moves i waiting s) { db = none }
read_step i waiting s = s
read_step i woken s =
    if is_free s.db then record (moves i reading s) { db = some (reader i) } else s
read_step i reading s = moves i (sized s.global.size) s
read_step i (sized n) s = moves i (copying n s.global.tv_sec s.global.tv_usec []) s
read_step i (copying n sec usec bytes) s =
    if ltb (length bytes) n
    then moves i (copying n sec usec (bytes ++ get_or s.global.buf (length bytes) 0 ∷ [])) s
    else record s {
      db = none;
      readers =
          update i
            (record {
              place = head;
              got =
                  record {
                    number = length s.earlier;
                    frame = record { buf = bytes; tv_sec = sec; tv_usec = usec };
                  }
                  ∷ (s.readers i).got;
            })
            s.readers;
    }
read_step i left s = s

-- A reader leaves its loop: at the head, for the stop flag or a failed write, or, having read the size, because
-- realloc fails; it then unlocks.
unfoldable pub leave_step : ℕ → Place → System → System
leave_step i head s = moves i left s
leave_step i (sized n) s = record (moves i left s) { db = none }
leave_step i _ s = s

-- pthread_cond_wait returns without a signal.
unfoldable pub spurious_step : ℕ → Place → System → System
spurious_step i waiting s = moves i woken s
spurious_step i _ s = s

pub data Action : Type 0 where
  begin : Publication → Action
  write unread no_memory : Action
  read leave spurious : ℕ → Action

unfoldable pub step : Action → System → System
step (begin p) s = begin_step p s.input s
step write s = write_step s.input s
step unread s = unread_step s.input s
step no_memory s = no_memory_step s.input s
step (read i) s = read_step i (s.readers i).place s
step (leave i) s = leave_step i (s.readers i).place s
step (spurious i) s = spurious_step i (s.readers i).place s

unfoldable pub run : List Action → System → System
run [] s = s
run (a ∷ rest) s = run rest (step a s)

-- Every frame that the writer begins to publish fits its buffer, and its malloc does not fail.
abbrev pub Allowed : Action → System → Type 0
Allowed (begin p) s = Fits p s.global
Allowed no_memory s = true ≡ false
Allowed _ s = Unit

unfoldable pub AllAllowed : List Action → System → Type 0
AllAllowed [] s = Unit
AllAllowed (a ∷ rest) s = Allowed a s × AllAllowed rest (step a s)
