-- ===== src/Proxy.antt =====
-- plugins/input_http/misc.c and mjpg-proxy.c: the byte-driven extractor that cuts JPEG images out
-- of a multipart stream, and on_image_received of plugins/input_http/input_http.c.
-- A `char` is its byte, 0 to 255; the `int` last_four_bytes is its bit pattern, below 2 ^ 32. `char` is
-- signed, as on x86: push_byte sign-extends a byte from 128 on.
pub mod Bounds
pub mod Content
pub mod Crlf
pub mod Header
pub mod Run
use Prim.Native.Nat.{bit_and}
use mjpg_streamer.Common.{
  ℕ, ◌+◌, ◌-◌, ◌*◌, ◌/◌, ◌%◌, ◌^◌, Bool, ◌&&◌, Option, none, some, List, [], ◌∷◌, ◌++◌, ltb, leb,
  ◌==◌, if◌then◌else◌, length, get_or, take,
}
use mjpg_streamer.Common.Int.{ℤ, pos, negsuc, sub_ℕ}
use mjpg_streamer.Common.Text.{Bytes, codes}

-- struct search_pattern; the pointer current_matched_char is its offset into `string`.
pub record SearchPattern : Type 0 where
  pub string : Bytes
  pub current_matched_char : ℕ

unfoldable pub search_pattern_reset : SearchPattern → SearchPattern
search_pattern_reset p = record p { current_matched_char = 0 }

-- The byte under the pointer: the terminating zero behind the last.
abbrev pub current_char : SearchPattern → ℕ
current_char p = get_or p.string p.current_matched_char 0

unfoldable pub search_pattern_compare : SearchPattern → ℕ → SearchPattern
search_pattern_compare p c =
    if current_char p == c
    then record p { current_matched_char = p.current_matched_char + 1 }
    else search_pattern_reset p

unfoldable pub search_pattern_matches : SearchPattern → Bool
search_pattern_matches p = current_char p == 0

-- `((13 << 8) | 10) & bytes` holds all of the mask.
unfoldable pub is_crlf : ℕ → Bool
is_crlf bytes = bit_and (13 * 256 + 10) bytes == 13 * 256 + 10

-- The arithmetic shift of a 32-bit `int` by 16.
unfoldable pub shift_16 : ℕ → ℕ
shift_16 bytes = bytes / 2 ^ 16 + (if ltb bytes (2 ^ 31) then 0 else (2 ^ 16 - 1) * 2 ^ 16)

unfoldable pub is_crlfcrlf : ℕ → Bool
is_crlfcrlf bytes = is_crlf bytes && is_crlf (shift_16 bytes)

-- `(*bytes << 8) | byte`: a byte from 128 on is sign-extended, and sets the upper 24 bits.
unfoldable pub push_byte : ℕ → ℕ → ℕ
push_byte bytes byte =
    if ltb byte 128 then bytes * 256 % 2 ^ 32 + byte else (2 ^ 24 - 1) * 256 + byte

pub data Part : Type 0 where
  header content : Part

-- The parser's fields of struct extractor_state. `buffer` is the first `length` bytes of the array
-- of the source, so that its `length` is this list's.
pub record ExtractorState : Type 0 where
  pub buffer : Bytes
  pub part : Part
  pub last_four_bytes : ℕ
  pub contentlength : SearchPattern
  pub boundary : SearchPattern

abbrev pub content_length : Bytes
content_length = codes "Content-Length:"

abbrev pub boundary_text : Bytes
boundary_text = codes "--boundarydonotcross"

-- 1024 * 256
abbrev pub buffer_size : ℕ
buffer_size = 262144

-- The state after init_extractor_state, whatever it was before.
unfoldable pub init_extractor_state : ExtractorState
init_extractor_state = record {
  buffer = [];
  part = header;
  last_four_bytes = 0;
  contentlength = record { string = content_length; current_matched_char = 0 };
  boundary = record { string = boundary_text; current_matched_char = 0 };
}

-- A call of the callback: the stored bytes, and the length that it is told.
pub record ImageCall : Type 0 where
  pub stored : Bytes
  pub size : ℤ

-- case HEADER
unfoldable pub header_byte : ExtractorState → ℕ → ExtractorState
header_byte s b =
    let four = push_byte s.last_four_bytes b in
    let pushed = record s { last_four_bytes = four } in
    let compared = search_pattern_compare s.contentlength b in
    if is_crlfcrlf four
    then record pushed { part = content }
    else if is_crlf four
    then record pushed { contentlength = search_pattern_reset s.contentlength }
    else if search_pattern_matches compared
    then record pushed { contentlength = search_pattern_reset compared }
    else record pushed { contentlength = compared }

-- case CONTENT; a full buffer drops the byte, with its comparison.
unfoldable pub content_byte : ExtractorState → ℕ → ExtractorState × List ImageCall
content_byte s b =
    let stored = s.buffer ++ b ∷ [] in
    let compared = search_pattern_compare s.boundary b in
    if leb (buffer_size - 1) (length s.buffer)
    then (s, [])
    else if search_pattern_matches compared
    then (
      init_extractor_state,
      record { stored = stored; size = sub_ℕ (length stored) (length compared.string + 2) } ∷ [],
    )
    else (record s { buffer = stored; boundary = compared }, [])

unfoldable pub step_in : Part → ExtractorState → ℕ → ExtractorState × List ImageCall
step_in header s b = (header_byte s b, [])
step_in content s b = content_byte s b

-- The loop of extract_data over the bytes from index `i` on; `stop i` is what the loop reads of
-- *should_stop before that byte. The calls of the callback are listed in order.
unfoldable pub extract_from :
    (ℕ → Bool) → ℕ → ExtractorState → Bytes → ExtractorState × List ImageCall
unfolding step_in
extract_from stop i s [] = (s, [])
extract_from stop i s (b ∷ bs) =
    let (s', calls) = step_in s.part s b in
    let (s'', later) = extract_from stop (i + 1) s' bs in
    if stop i then (s, []) else (s'', calls ++ later)

unfoldable pub extract_data : (ℕ → Bool) → ExtractorState → Bytes → ExtractorState × List ImageCall
unfolding extract_from
extract_data stop s bytes = extract_from stop 0 s bytes

-- What one recv brings: whether the stop flag is seen right after it, the flag as extract_data reads it
-- before each byte, and the bytes.
pub record Block : Type 0 where
  pub halted : Bool
  pub stop : ℕ → Bool
  pub bytes : Bytes

-- The loop of send_request_and_process_response: the list ends where recv returns nothing.
unfoldable pub process_blocks : ExtractorState → List Block → ExtractorState × List ImageCall
unfolding extract_data
process_blocks s [] = (s, [])
process_blocks s (k ∷ rest) =
    let (s', calls) = extract_data k.stop s k.bytes in
    let (s'', later) = process_blocks s' rest in if k.halted then (s, []) else (s'', calls ++ later)

unfoldable pub send_request_and_process_response : List Block → ExtractorState × List ImageCall
unfolding process_blocks
send_request_and_process_response blocks = process_blocks init_extractor_state blocks

-- on_image_received of input_http.c: the published buffer and size. memcpy with a negative size reads
-- and writes far out of bounds: `none`.
unfoldable pub on_image_received : ImageCall → Option Bytes
on_image_received call = elim call.size [ pos n ↦ some (take n call.stored) | negsuc n ↦ none ]
