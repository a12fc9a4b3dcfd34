-- ===== src/Uvc/Camera.antt =====
-- uvcGrab of plugins/input_uvc/v4l2uvc.c and the loop of cam_thread in input_uvc.c: which of the camera's frames are
-- published. What select, the driver's ioctl calls, setResolution, video_handle_event and libjpeg yield are parameters
-- of the turns and of the options. `every` is at least 1, as input_init makes it. STREAMING_PAUSED is not modelled.
pub mod Dropped
use mjpg_streamer.Common.{
  ℕ, ◌+◌, ◌*◌, ◌-◌, ◌/◌, ◌%◌, ◌^◌, Bool, true, false, ◌&&◌, List, [], ◌∷◌, ◌++◌, Option, none, some,
  length, take, drop, ltb, leb, if◌then◌else◌,
}
use mjpg_streamer.Common.Text.{Bytes}
use mjpg_streamer.Httpd.Stream.{Frame}
use mjpg_streamer.Uvc.Picture.{memcpy_picture}

-- The pixel formats that the switches name.
pub data Format : Type 0 where
  jpeg mjpeg rgb24 rgb565 yuyv uyvy another : Format

-- Whether cam_thread compresses the frame.
abbrev pub is_raw : Format → Bool
is_raw rgb24 = true
is_raw rgb565 = true
is_raw yuyv = true
is_raw uyvy = true
is_raw _ = false

-- The part of struct vdIn that the loop uses.
pub record Camera : Type 0 where
  pub format_in : Format
  pub framesize_in : ℕ
  pub tmpbuffer : Bytes
  pub framebuffer : Bytes
  pub tmpbytesused : ℕ
  pub tv_sec : ℕ
  pub tv_usec : ℕ

-- A buffer that VIDIOC_DQBUF yields: its bytesused bytes and its timestamp.
pub record Buffer : Type 0 where
  pub bytes : Bytes
  pub tv_sec : ℕ
  pub tv_usec : ℕ

-- An error, a write behind an array, or the camera with the frame.
pub data Grabbed : Type 0 where
  failed overflowed : Grabbed
  grabbed : Camera → Grabbed

-- VIDIOC_QBUF.
abbrev pub requeue : Bool → Camera → Grabbed
requeue true c = grabbed c
requeue false c = failed

abbrev pub stamped : Buffer → Camera → Camera
stamped b c = record c { tmpbytesused = length b.bytes; tv_sec = b.tv_sec; tv_usec = b.tv_usec }

abbrev pub grab_jpeg : Buffer → Bool → Camera → Grabbed
grab_jpeg b requeued c =
    if leb (length b.bytes) 175
    then requeue requeued c
    else if ltb (length c.tmpbuffer) (length b.bytes)
    then overflowed
    else requeue requeued
        (record (stamped b c) { tmpbuffer = b.bytes ++ drop (length b.bytes) c.tmpbuffer })

abbrev pub grab_raw : Buffer → Bool → Camera → Grabbed
grab_raw b requeued c =
    let copied = take c.framesize_in b.bytes in
    requeue requeued
      (record (stamped b c) { framebuffer = copied ++ drop (length copied) c.framebuffer })

-- uvcGrab: `none` is a failing VIDIOC_STREAMON or VIDIOC_DQBUF.
unfoldable pub uvc_grab : Option Buffer → Bool → Camera → Grabbed
uvc_grab none requeued c = failed
uvc_grab (some b) requeued c = elim c.format_in [
  | jpeg ↦ grab_jpeg b requeued c
  | mjpeg ↦ grab_jpeg b requeued c
  | rgb24 ↦ grab_raw b requeued c
  | rgb565 ↦ grab_raw b requeued c
  | yuyv ↦ grab_raw b requeued c
  | uyvy ↦ grab_raw b requeued c
  | another ↦ failed
]

-- The options, soft_framedrop and frame_period_time, and compress_image_to_jpeg.
pub record Options : Type 0 where
  pub every : ℕ
  pub minimum_size : ℕ
  pub want_timestamp : Bool
  pub soft_framedrop : Bool
  pub frame_period_time : ℕ
  pub dv_timings : Bool
  pub compress : Camera → Bytes

-- gettimeofday
pub record Now : Type 0 where
  pub tv_sec : ℕ
  pub tv_usec : ℕ

-- The camera, every_count and the timestamp of the frame that was published last.
pub record CamState : Type 0 where
  pub camera : Camera
  pub every_count : ℕ
  pub last_sec : ℕ
  pub last_usec : ℕ

-- A timestamp in milliseconds and the difference of two, as unsigned long.
abbrev pub msec : ℕ → ℕ → ℕ
msec sec usec = (sec * 1000 + usec / 1000) % 2 ^ 64

abbrev pub elapsed : ℕ → ℕ → ℕ
elapsed current last = (current + 2 ^ 64 - last) % 2 ^ 64

-- What a frame leads to: an access outside an array, or the new state, with the frame that is published.
pub data Passed : Type 0 where
  undefined : Passed
  passed : CamState → Option Frame → Passed

-- The end of the part under the mutex.
abbrev pub published : CamState → Bytes → Passed
published s picture =
    if ltb s.camera.framesize_in (length picture)
    then undefined
    else passed (record s { last_sec = s.camera.tv_sec; last_usec = s.camera.tv_usec })
        (some (record { buf = picture; tv_sec = s.camera.tv_sec; tv_usec = s.camera.tv_usec }))

unfoldable pub publish : Options → CamState → Passed
publish o s =
    if is_raw s.camera.format_in
    then published s (o.compress s.camera)
    else elim (memcpy_picture s.camera.tmpbuffer s.camera.tmpbytesused) [
      | none ↦ undefined
      | some picture ↦ published s picture
    ]

abbrev pub with_now : Options → Now → CamState → CamState
with_now o now s =
    if o.want_timestamp
    then record s { camera = record s.camera { tv_sec = now.tv_sec; tv_usec = now.tv_usec } }
    else s

-- soft_framedrop.
abbrev pub too_soon : Options → CamState → Bool
too_soon o s =
    o.soft_framedrop
    && ltb (elapsed (msec s.camera.tv_sec s.camera.tv_usec) (msec s.last_sec s.last_usec))
        o.frame_period_time

-- A frame that was grabbed.
unfoldable pub pass_frame : Options → Now → CamState → Passed
pass_frame o now s =
    let turn = record s { every_count = 0 } in
    let timed = with_now o now turn in
    if ltb s.every_count (o.every - 1)
    then passed (record s { every_count = s.every_count + 1 }) none
    else if ltb s.camera.tmpbytesused o.minimum_size
    then passed turn none
    else if too_soon o timed
    then passed timed none
    else publish o timed

-- A turn of the loop: how select ends; when it returns, whether the camera is readable (with the ioctl calls and the
-- time), and whether video_handle_event succeeds if there is an exception.
pub data Turn : Type 0 where
  interrupted select_failed : Turn
  timed_out : Bool → Turn
  readable : Option Buffer → Bool → Now → Option Bool → Turn
  not_readable : Option Bool → Turn

pub data Ending : Type 0 where
  stopped ended beyond : Ending

pub record Run : Type 0 where
  pub frames : List Frame
  pub ending : Ending

abbrev pub ends : Ending → Run
ends e = record { frames = []; ending = e }

abbrev pub after : Option Frame → Run → Run
after none r = r
after (some f) r = record r { frames = f ∷ r.frames }

-- other_select_handlers: whether the loop goes on.
abbrev pub handles : Options → Option Bool → Bool
handles o none = true
handles o (some handled) = if o.dv_timings then handled else true

-- The loop; its turns end where the stop flag is set.
unfoldable pub cam_loop : Options → CamState → List Turn → Run
unfolding uvc_grab pass_frame publish
cam_loop o s [] = ends stopped
cam_loop o s (interrupted ∷ turns) = cam_loop o s turns
cam_loop o s (select_failed ∷ turns) = ends ended
cam_loop o s (timed_out set ∷ turns) =
    let rest = cam_loop o s turns in if o.dv_timings && set then rest else ends ended
cam_loop o s (not_readable event ∷ turns) =
    let rest = cam_loop o s turns in if handles o event then rest else ends ended
cam_loop o s (readable buffer requeued now event ∷ turns) =
    elim (uvc_grab buffer requeued s.camera) [
      | failed ↦ ends ended
      | overflowed ↦ ends beyond
      | grabbed c ↦ elim (pass_frame o now (record s { camera = c })) [
        | undefined ↦ ends beyond
        | passed s' frame ↦
            let rest = cam_loop o s' turns in
            after frame (if handles o event then rest else ends ended)
      ]
    ]
