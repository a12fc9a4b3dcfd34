-- ===== src/Autofocus/Image.antt =====
-- plugins/output_autofocus/processJPEG_onlyCenter.c: getFrameSharpnessValue, its loop over the markers. Freeing QT is left
-- out. The hash of a quantization table, quant_Y and sumSqrAC, which nothing reads, are left out. -1 as a result is `refused`.
pub mod Scanned
use mjpg_streamer.Common.{
  ℕ, zero, suc, ◌+◌, ◌-◌, ◌*◌, ◌/◌, ◌%◌, ◌^◌, not, ◌||◌, List, [], ◌∷◌, Option, none, some, length,
  get_elem?, set, replicate, take, drop, ltb, leb, ◌==◌, if◌then◌else◌,
}
use mjpg_streamer.Common.Int.{pos}
use mjpg_streamer.Common.Text.{Bytes}
use mjpg_streamer.Autofocus.{Read, beyond, aborted, got, Entry, Reader, fgetc, all_codes, ◌>>=◌}
use mjpg_streamer.Autofocus.Scan.{Doubles, Coding, Scan, scan_loop, start_reader}

-- Two calls of fgetc_, as a number of 16 bits.
abbrev pub get_word : Bytes → Read (ℕ × Bytes)
get_word bytes =
    fgetc bytes >>= λ (high, rest). fgetc rest >>= λ (low, behind). got (high * 256 + low, behind)

-- The loop that looks for 0xff, from behind the byte `c` that was read.
unfoldable pub seek_marker : Bytes → Read Bytes
seek_marker [] = beyond
seek_marker (c ∷ bytes) = let later = seek_marker bytes in if c == 255 then got bytes else later

-- The first `n` bytes, and those behind.
abbrev pub split : ℕ → Bytes → Read (Bytes × Bytes)
split n bytes = if ltb (length bytes) n then beyond else got (take n bytes, drop n bytes)

-- A quantization table: its number and entries.
unfoldable pub read_dqt : Bytes → Read (ℕ × Bytes × Bytes)
read_dqt bytes = get_word bytes >>= λ (cnt, rest).
    if not (cnt == 67)
    then aborted
    else fgetc rest >>= λ (uc, table).
        if not (uc / 16 == 0)
        then aborted
        else if leb 4 (uc % 16)
        then beyond
        else split 64 table >>= λ (entries, behind). got (uc % 16, entries, behind)

-- The Huffman tables 0 to 3, as far as they have been read.
abbrev pub HuffmanTables : Type 0
HuffmanTables = List (Option (List Entry))

-- do ... while(pos < cnt - 2). A turn takes 17 bytes at least, so the turns are enough.
unfoldable pub dht_loop : ℕ → ℕ → ℕ → Bytes → HuffmanTables → Read HuffmanTables
unfolding all_codes
dht_loop zero cnt place buffer tables = beyond
dht_loop (suc turns) cnt place buffer tables = fgetc buffer >>= λ (uc, lengths).
    split 16 lengths >>= λ (counts, symbols). all_codes 1 counts 0 symbols >>= λ (entries, behind).
    let tab = uc % 16 * 2 + uc / 16 in
    let stored = set tables tab (some entries) in
    let next = place + 17 + length entries in
    let more = dht_loop turns cnt next behind stored in
    if leb 4 tab || ltb 162 (length entries)
    then beyond
    else if ltb (next + 2) cnt
    then more
    else got stored

-- The tables of a segment, and the bytes at Gpos behind it.
unfoldable pub read_dht : Bytes → HuffmanTables → Read (HuffmanTables × Bytes)
unfolding dht_loop
read_dht bytes tables = get_word bytes >>= λ (cnt, buffer).
    dht_loop (suc (length buffer)) cnt 0 buffer tables >>= λ stored. got (stored, drop cnt bytes)

module _ (d : Doubles) where
  open d use {Double}

  -- The variables of the function. Before the start of frame the scales are 0, by which the width is divided.
  pub record Image : Type 0 where
    pub width : ℕ
    pub height : ℕ
    pub scale_h : ℕ
    pub scale_v : ℕ
    pub huffman_dcy : ℕ
    pub huffman_acy : ℕ
    pub tables : HuffmanTables
    pub quants : List (Option (List ℕ))
    pub sum_ac : Option (List Double)
    pub cnt2 : ℕ

  abbrev pub no_image : Image
  no_image = record {
    width = 0;
    height = 0;
    scale_h = 0;
    scale_v = 0;
    huffman_dcy = 0;
    huffman_acy = 0;
    tables = replicate 4 none;
    quants = replicate 4 none;
    sum_ac = none;
    cnt2 = 0;
  }

  -- A component of the start of frame: its id, the sampling factors as a char that is made unsigned, and a byte.
  unfoldable pub sof_component : Image → Bytes → Read (Image × Bytes)
  sof_component m bytes = fgetc bytes >>= λ (id, rest). fgetc rest >>= λ (c, last).
      fgetc last >>= λ (_, behind).
      let wide = if leb 128 c then c + (2 ^ 32 - 256) else c in
      if c == 17
      then got (m, behind)
      else if id == 1
      then got (record m { scale_h = wide / 16; scale_v = wide % 16 }, behind)
      else aborted

  unfoldable pub read_sof : Image → Bytes → Read (Image × Bytes)
  unfolding sof_component
  read_sof m bytes = get_word bytes >>= λ (_, r1). fgetc r1 >>= λ (_, r2).
      get_word r2 >>= λ (height, r3). get_word r3 >>= λ (width, r4). fgetc r4 >>= λ (count, r5).
      if not (count == 3)
      then aborted
      else sof_component (record m { height = height; width = width }) r5 >>= λ (m1, r6).
          sof_component m1 r6 >>= λ (m2, r7). sof_component m2 r7

  -- A component of the start of scan.
  unfoldable pub sos_component : Image → Bytes → Read (Image × Bytes)
  sos_component m bytes = fgetc bytes >>= λ (id, rest). fgetc rest >>= λ (c, behind).
      got (if id == 1 then record m { huffman_dcy = c / 16; huffman_acy = c % 16 } else m, behind)

  unfoldable pub sos_header : Image → Bytes → Read (Image × Bytes)
  unfolding sos_component
  sos_header m bytes = fgetc bytes >>= λ (c1, s1). fgetc s1 >>= λ (c2, s2).
      fgetc s2 >>= λ (c3, rest).
      if not (c1 == 0) || not (c2 == 12) || not (c3 == 3)
      then aborted
      else sos_component m rest >>= λ (m1, r1). sos_component m1 r1 >>= λ (m2, r2).
          sos_component m2 r2 >>= λ (m3, r3). split 3 r3 >>= λ (_, behind). got (m3, behind)

  -- A table of the array, if it has been read.
  abbrev pub from_tables : ℕ → HuffmanTables → Read (List Entry)
  from_tables i tables = elim (get_elem? tables i) [
    | none ↦ beyond
    | some none ↦ beyond
    | some (some table) ↦ got table
  ]

  abbrev pub from_quants : List (Option (List ℕ)) → Read (List ℕ)
  from_quants [] = beyond
  from_quants (none ∷ quants) = beyond
  from_quants (some quant ∷ quants) = got quant

  -- rad, from half of the width and of the height in blocks.
  abbrev pub radius : ℕ → ℕ → ℕ
  radius ctx cty = if ltb cty ctx then cty / 2 * (cty / 2) else ctx / 2 * (ctx / 2)

  unfoldable pub coding_of : Image → Read (Coding d)
  coding_of m = from_tables m.huffman_dcy m.tables >>= λ dc_y.
      from_tables (m.huffman_acy + 1) m.tables >>= λ ac_y. from_tables 2 m.tables >>= λ dc_c.
      from_tables 3 m.tables >>= λ ac_c. from_quants m.quants >>= λ quant. got (record {
        dc_y = dc_y;
        ac_y = ac_y;
        dc_c = dc_c;
        ac_c = ac_c;
        quant = quant;
        ctx = m.width / 8 / 2;
        rad = radius (m.width / 8 / 2) (m.height / 8 / 2);
        across = m.width / 8;
      })

  abbrev pub zero_sums : List Double
  zero_sums = replicate 64 (d.of_int (pos 0))

  abbrev pub scan_start : Image → Reader → Scan d
  scan_start m r = record {
    last_y = pos 0;
    last_cr = pos 0;
    last_cb = pos 0;
    xp = 0;
    yp = 0;
    sum_ac = zero_sums;
    cnt2 = m.cnt2;
    reader = r;
  }

  -- How many pairs of blocks of Y the loop reads, as an unsigned short.
  abbrev pub block_count : Image → ℕ
  block_count m = m.width / 8 / m.scale_h * (m.height / 8 / m.scale_v) % 2 ^ 16

  abbrev pub scanned : Image → Scan d → Image × Bytes
  scanned m s = (record m { sum_ac = some s.sum_ac; cnt2 = s.cnt2 }, s.reader.rest)

  -- What follows the header of a scan. A scale of 0 is a division by zero; no table is read for no blocks.
  unfoldable pub read_scan : Image → Bytes → Read (Image × Bytes)
  read_scan m bytes = start_reader bytes >>= λ r.
      let scan = coding_of m >>= λ c.
      scan_loop d (block_count m) c (scan_start m r) >>= λ s. got (scanned m s) in
      if (m.scale_h == 0) || (m.scale_v == 0)
      then beyond
      else if block_count m == 0
      then got (scanned m (scan_start m r))
      else scan

  unfoldable pub read_segment : ℕ → Image → Bytes → Read (Image × Bytes)
  unfolding read_scan read_sof sos_header read_dht read_dqt
  read_segment marker m bytes =
      if marker == 0xdb
      then (read_dqt bytes >>= λ (tab, entries, behind).
          got (record m { quants = set m.quants tab (some entries) }, behind))
      else if marker == 0xc4
      then (read_dht bytes m.tables >>= λ (tables, behind).
          got (record m { tables = tables }, behind))
      else if marker == 0xda
      then (sos_header m bytes >>= λ (m', behind). read_scan m' behind)
      else if marker == 0xc0
      then read_sof m bytes
      else got (m, bytes)

  -- while(!(Gpos >= len)): a turn takes two bytes at least, so the turns are enough.
  unfoldable pub marker_loop : ℕ → Image → Bytes → Read Image
  unfolding seek_marker read_segment
  marker_loop turns m [] = got m
  marker_loop zero m (b ∷ bytes) = beyond
  marker_loop (suc turns) m (b ∷ bytes) = seek_marker (b ∷ bytes) >>= λ found.
      fgetc found >>= λ (marker, rest).
      read_segment marker m rest >>= λ (m', behind). marker_loop turns m' behind

  -- The loop for(j = 1; j < 21; j++), with `turns` values of j to come, over the sums from j on.
  unfoldable pub total_loop : ℕ → ℕ → ℕ → ℕ → ℕ → Double → List Double → Double → Double
  total_loop zero j len_cur len_prev val cnt2 sums sum = sum
  total_loop (suc turns) j len_cur len_prev val cnt2 [] sum = sum
  total_loop (suc turns) j len_cur len_prev val cnt2 (ac ∷ sums) sum =
      let next = leb (len_prev + len_cur) j in
      let val' = if next then val + 1 else val in
      total_loop turns (j + 1) (if next then len_cur + 1 else len_cur)
        (if next then j else len_prev) val' cnt2 sums
        (d.plus sum (d.times (d.of_int (pos val')) (d.over ac cnt2)))

  abbrev pub total : Image → Read Double
  total m = elim m.sum_ac [
    | none ↦ beyond
    | some sums ↦
        got (total_loop 20 1 2 1 1 (d.of_int (pos m.cnt2)) (drop 1 sums) (d.of_int (pos 0)))
  ]

  unfoldable pub get_frame_sharpness_value : Bytes → Read Double
  unfolding marker_loop total_loop
  get_frame_sharpness_value bytes = marker_loop (length bytes) no_image bytes >>= total
