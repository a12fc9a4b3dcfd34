-- ===== src/Uvc/Picture.antt =====
-- is_huffman and memcpy_picture of plugins/input_uvc/v4l2uvc.c. The memory behind a pointer is the list of its bytes to
-- the array's end; `none` is a read behind it.
pub mod Markers
pub mod Inserted
use mjpg_streamer.Common.{
  ℕ, suc, ◌+◌, ◌*◌, ◌-◌, Bool, true, false, [], ◌∷◌, ◌++◌, Option, none, some, length, take, drop,
  ltb, ◌==◌, if◌then◌else◌,
}
use mjpg_streamer.Common.Text.{Bytes}
use mjpg_streamer.Uvc.Table.{dht_data}

abbrev pub sos : ℕ
sos = 65498

abbrev pub dht : ℕ
dht = 65476

abbrev pub sof0 : ℕ
sof0 = 65472

-- The loop of is_huffman: what the word (ptbuf[0] << 8) | ptbuf[1] at ptbuf decides, with i and what the later words do.
abbrev pub huffman_word : ℕ → Option Bool → ℕ → Option Bool
huffman_word i later w =
    if w == sos
    then some false
    else if ltb 2048 i
    then some false
    else if w == dht
    then some true
    else later

unfoldable pub huffman_from : ℕ → Bytes → Option Bool
huffman_from i [] = none
huffman_from i (a ∷ []) = none
huffman_from i (a ∷ b ∷ rest) = huffman_word i (huffman_from (suc i) (b ∷ rest)) (a * 256 + b)

unfoldable pub is_huffman : Bytes → Option Bool
unfolding huffman_from
is_huffman buf = huffman_from 0 buf

-- The loop of memcpy_picture at ptcur, `n` bytes in front of ptlimit, by the word there: how far ptcur goes, or none at ptlimit.
abbrev pub one_further : Option (Option ℕ) → Option (Option ℕ)
one_further none = none
one_further (some none) = some none
one_further (some (some k)) = some (some (suc k))

abbrev pub sof_word : ℕ → Option (Option ℕ) → ℕ → Option (Option ℕ)
sof_word n later w =
    if n == 0 then some none else if w == sof0 then some (some 0) else one_further later

unfoldable pub find_sof : ℕ → Bytes → Option (Option ℕ)
find_sof n [] = none
find_sof n (a ∷ []) = none
find_sof n (a ∷ b ∷ rest) = sof_word n (find_sof (n - 1) (b ∷ rest)) (a * 256 + b)

-- What is written to `out`; its length is returned.
unfoldable pub memcpy_picture : Bytes → ℕ → Option Bytes
unfolding is_huffman find_sof
memcpy_picture buf size = elim (is_huffman buf) [
  | none ↦ none
  | some false ↦ elim (find_sof size buf) [
    | none ↦ none
    | some none ↦ some []
    | some (some sizein) ↦
        if ltb (length buf) size
        then none
        else some (take sizein buf ++ (dht_data ++ take (size - sizein) (drop sizein buf)))
  ]
  | some true ↦ if ltb (length buf) size then none else some (take size buf)
]
