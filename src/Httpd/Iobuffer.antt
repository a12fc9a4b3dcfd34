-- ===== src/Httpd/Iobuffer.antt =====
-- init_iobuffer, _read and _readline of httpd.c.
-- What the calls of select and read yield is a list of events: bytes (at most IO_BUFFER at a time), a
-- timeout, a read that fails or finds the socket closed, or a select that fails. Where the list ends, select
-- times out. A result `error` is the value -1; no caller uses the iobuffer after it.
pub mod Laws
pub mod Lines
use mjpg_streamer.Common.{
  ℕ, zero, suc, ◌-◌, List, [], ◌∷◌, ◌++◌, length, min, take, drop, replicate, leb, ◌==◌,
  if◌then◌else◌,
}
use mjpg_streamer.Common.Text.{Bytes}

-- IO_BUFFER
abbrev pub io_buffer : ℕ
io_buffer = 256

pub record Iobuffer : Type 0 where
  pub level : ℕ
  pub buffer : Bytes

unfoldable pub init_iobuffer : Iobuffer
init_iobuffer = record { level = 0; buffer = replicate io_buffer 0 }

pub data Event : Type 0 where
  readable : Bytes → Event
  timed_out closed select_failed : Event

-- The bytes copied, the iobuffer after, and the events that are left.
pub data ReadResult : Type 0 where
  got : Bytes → Iobuffer → List Event → ReadResult
  error : ReadResult
  exited : ReadResult

-- read into the cleared buffer, then memmove to its end.
unfoldable pub refill : Bytes → Iobuffer
refill bytes = record {
  level = length bytes;
  buffer =
      take (io_buffer - length bytes) (bytes ++ replicate (io_buffer - length bytes) 0) ++ bytes;
}

-- The bytes that memcpy takes, and the level after it.
abbrev pub served : Iobuffer → ℕ → Bytes
served io want = take (min io.level want) (drop (io_buffer - io.level) io.buffer)

abbrev pub drained : Iobuffer → ℕ → Iobuffer
drained io want = record io { level = io.level - min io.level want }

-- The loop of _read, with the bytes copied so far.
unfoldable pub read_loop : List Event → Iobuffer → Bytes → ℕ → ReadResult
unfolding refill
read_loop [] io copied len =
    let out = copied ++ served io (len - length copied) in
    got out (drained io (len - length copied)) []
read_loop (e ∷ es) io copied len =
    let out = copied ++ served io (len - length copied) in
    let io' = drained io (len - length copied) in
    if leb len (length out) then got out io' (e ∷ es) else elim e [
      | readable bytes ↦ if length bytes == 0 then error else read_loop es (refill bytes) out len
      | timed_out ↦ got out io' es
      | closed ↦ error
      | select_failed ↦ exited
    ]

unfoldable pub read : List Event → Iobuffer → ℕ → ReadResult
unfolding read_loop
read es io len = if len == 0 then got [] io es else read_loop es io [] len

pub data LineResult : Type 0 where
  line : Bytes → Iobuffer → List Event → LineResult
  failed : LineResult
  ended : LineResult

-- The loop of _readline: at most `len` more bytes.
unfoldable pub readline_loop : ℕ → List Event → Iobuffer → Bytes → LineResult
unfolding read
readline_loop zero es io out = line out io es
readline_loop (suc len) es io out = elim (read es io 1) [
  | got [] _ _ ↦ failed
  | got (c ∷ _) io' es' ↦
      let more = readline_loop len es' io' (out ++ c ∷ []) in
      if c == 10 then line (out ++ c ∷ []) io' es' else more
  | error ↦ failed
  | exited ↦ ended
]

unfoldable pub readline : List Event → Iobuffer → ℕ → LineResult
unfolding readline_loop
readline es io len = readline_loop len es io []
