-- ===== src/Tests/Sharpness.antt =====
-- The theorems on the autofocus plugin at concrete inputs.
use mjpg_streamer.Common.{
  ℕ, ◌*◌, ◌-◌, ◌^◌, ◌≡◌, refl, Bool, true, false, not, ◌==◌, List, [], ◌∷◌, ◌++◌, replicate, none,
  some, ltb, arith,
}
use mjpg_streamer.Common.Int.{ℤ, pos, ◌+ℤ◌, ◌-ℤ◌, ◌*ℤ◌}
use mjpg_streamer.Common.Text.{Bytes}
use mjpg_streamer.Autofocus.{Entry, Reader, entry, got, refused, read_xc, all_codes}
use mjpg_streamer.Autofocus.Ahead.{bits_of, data_bits, stuffed, Unpaired, Holds}
use mjpg_streamer.Autofocus.Lookup.{Ordered}
use mjpg_streamer.Autofocus.Symbols.{IsCode, read_xc-last}
use mjpg_streamer.Autofocus.Tables.{entry-IsRow, symbols_of, all_codes-Ordered}
use mjpg_streamer.Autofocus.Scan.{Doubles, Coding}
use mjpg_streamer.Autofocus.Scan.Decoded.{Coded}
use mjpg_streamer.Autofocus.Scan.Summed.{Mcu, summed, y_values}
use mjpg_streamer.Autofocus.Image.{Image, zero_sums}
use mjpg_streamer.Autofocus.Focus.{Sharpness, Focus, worker_thread}
use mjpg_streamer.Autofocus.Focus.Search.{Found, worker_thread-Found}

all_codes-Ordered_example :
    (entries : List Entry) × (all_codes 1 (1 ∷ 1 ∷ []) 0 (0 ∷ 1 ∷ 9 ∷ []) ≡ got (entries, 9 ∷ []))
    × (symbols_of entries ≡ 0 ∷ 1 ∷ [])
    × Ordered (0 * 2 ^ (32 - 1)) entries
all_codes-Ordered_example =
    all_codes-Ordered 1 0 (1 ∷ 1 ∷ []) (0 ∷ 1 ∷ 9 ∷ []) (omega arith) (omega arith) (omega arith)

-- The codes 0, 10 and 110, of which the last is not used.
abbrev dc_codes : List Entry
dc_codes = entry 1 0 0 ∷ entry 2 2 1 ∷ []

abbrev ac_codes : List Entry
ac_codes = entry 1 0 0 ∷ entry 2 2 1 ∷ entry 3 6 2 ∷ []

dc_codes-Ordered : Ordered 0 dc_codes
unfolding entry
dc_codes-Ordered = (
  omega arith,
  entry-IsRow 1 0 0 (omega arith) (omega arith),
  (omega arith, entry-IsRow 2 2 1 (omega arith) (omega arith), tt),
)

second-IsCode : IsCode (entry 2 2 1) (true ∷ false ∷ [])
unfolding entry
second-IsCode = record { long = refl; is = refl }

zero_in_front : (bytes : Bytes) → Unpaired (0 ∷ bytes) → Unpaired (0 ∷ 0 ∷ bytes)
zero_in_front bytes h = (omega arith, (λ e. absurd (omega arith)), h)

abbrev one_code : Reader
one_code = record { window = 2 * 2 ^ 30; bitlen = 16; rest = 0 ∷ 0 ∷ 0 ∷ [] }

one_code-Holds : Holds one_code (true ∷ false ∷ replicate 38 false)
unfolding data_bits bits_of stuffed
one_code-Holds = record {
  ahead = true ∷ false ∷ replicate 14 false;
  later = 0 ∷ 0 ∷ 0 ∷ [];
  of_both = refl;
  in_window = refl;
  of_length = refl;
  fits = omega arith;
  stands = refl;
  unpaired = zero_in_front (0 ∷ []) (zero_in_front [] (omega arith, (λ e. absurd (omega arith))));
}

read_xc-last_example : read_xc dc_codes one_code ≡ refused
read_xc-last_example =
    read_xc-last 0 (entry 1 0 0 ∷ []) (entry 2 2 1) (true ∷ false ∷ []) (replicate 38 false)
      one_code dc_codes-Ordered second-IsCode one_code-Holds (omega arith)

-- Whole numbers for the doubles, each block with the weight 1.
abbrev whole : Doubles
whole = record {
  Double = ℤ;
  of_int = λ n. n;
  square = λ t q. t *ℤ pos q *ℤ (t *ℤ pos q);
  plus = λ a b. a +ℤ b;
  minus = λ a b. a -ℤ b;
  times = λ a b. a *ℤ b;
  over = λ a b. a;
  negate = λ a. pos 0 -ℤ a;
  exp = λ a. pos 1;
}

abbrev small_image : Image whole
small_image = record {
  width = 16;
  height = 8;
  scale_h = 2;
  scale_v = 1;
  huffman_dcy = 0;
  huffman_acy = 0;
  tables = some dc_codes ∷ some ac_codes ∷ some dc_codes ∷ some ac_codes ∷ [];
  quants = some (replicate 64 1) ∷ none ∷ none ∷ none ∷ [];
  sum_ac = none;
  cnt2 = 0;
}

abbrev small_coding : Coding whole
small_coding = record {
  dc_y = dc_codes;
  ac_y = ac_codes;
  dc_c = dc_codes;
  ac_c = ac_codes;
  quant = replicate 64 1;
  ctx = 1;
  rad = 0;
  across = 2;
}

-- A block of zeros, and one with the AC coefficient 1.
abbrev dark : Coded
dark = record { difference = pos 0; coefficients = replicate 63 (pos 0) }

abbrev sharp : Coded
sharp = record { difference = pos 0; coefficients = pos 1 ∷ replicate 62 (pos 0) }

abbrev small_mcu : Mcu
small_mcu = record { y1 = sharp; y2 = dark; cr = dark; cb = dark }

abbrev small_bits : List Bool
small_bits = false ∷ true ∷ false ∷ true ∷ replicate 7 false

-- The padding of the last byte, and the marker.
abbrev small_end : List Bool
small_end = replicate 15 true ++ false ∷ true ∷ true ∷ false ∷ false ∷ true ∷ []

abbrev small_sums : List ℤ
small_sums = summed whole small_coding 0 0 (y_values (pos 0) (small_mcu ∷ [])) (zero_sums whole)

small_frame : stuffed (80 ∷ 31 ∷ 255 ∷ 217 ∷ []) ≡ 80 ∷ 31 ∷ 255 ∷ 217 ∷ []
unfolding stuffed
small_frame = refl

abbrev levels : Sharpness
levels = record {
  Value = ℕ;
  exceeds = λ a b. ltb b a;
  is_far = λ a b. not (a == b);
  minus_one = 0;
  hundred = 100;
}

levels_trans : (a b c : ℕ) → ltb b a ≡ false → ltb b c ≡ true → ltb c a ≡ false
levels_trans a b c p q = ground arith

levels_self : (a : ℕ) → ltb a a ≡ false
levels_self a = ground arith

abbrev at_rest : Focus levels
at_rest = record { max_sv = 50; focus = 35; max_focus = 35; search_focus = false }

worker_thread-Found_example :
    Found levels levels_trans levels_self
      (3 ∷ replicate 25 7)
      (worker_thread levels at_rest (3 ∷ (replicate 25 7 ++ 9 ∷ [])))
worker_thread-Found_example =
    worker_thread-Found levels levels_trans levels_self at_rest 3 9 (replicate 25 7) refl refl refl
