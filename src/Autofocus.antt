-- ===== src/Autofocus.antt =====
-- plugins/output_autofocus/processJPEG_onlyCenter.c, the decoder of getFrameSharpnessValue: bit reader, Huffman tables,
-- coefficients of a block. The `int data` with the bits that were read ahead is the number of its 32 bits. HUFF_EXTEND(0, 0)
-- shifts by -1, but is 0 whatever that yields. Entries of a block's table from 64 on are only written, and left out.
pub mod Ahead
pub mod Refilled
pub mod Codes
pub mod Lookup
pub mod Symbols
pub mod Blocks
pub mod Coefficients
pub mod Tables
pub mod Scan
pub mod Image
pub mod Focus
use mjpg_streamer.Common.{
  ℕ, zero, suc, ◌+◌, ◌-◌, ◌*◌, ◌/◌, ◌%◌, ◌^◌, Bool, List, [], ◌∷◌, ◌++◌, Option, none, some, set,
  replicate, ltb, leb, ◌==◌, if◌then◌else◌,
}
use mjpg_streamer.Common.Int.{ℤ, pos, sub_ℕ, ◌+ℤ◌}
use mjpg_streamer.Common.Text.{Bytes}
use Prim.Native.Nat.{bit_and, bit_or}

-- What a function of the decoder yields: an access behind the frame or outside a table, which C leaves undefined, a
-- failing assert or a call of exit, the return value -1, or a result.
pub data Read {ℓ} (A : Type ℓ) : Type ℓ where
  beyond aborted refused : Read A
  got : A → Read A

infixl 5 ◌>>=◌
abbrev pub ◌>>=◌ {ℓ κ} : {A : Type ℓ} {B : Type κ} → Read A → (A → Read B) → Read B
beyond >>= f = beyond
aborted >>= f = aborted
refused >>= f = refused
got a >>= f = f a

-- `data`, `bitlen`, and the bytes that fgetc_ has not returned yet.
pub record Reader : Type 0 where
  pub window : ℕ
  pub bitlen : ℕ
  pub rest : Bytes

abbrev pub fgetc : Bytes → Read (ℕ × Bytes)
fgetc [] = beyond
fgetc (b ∷ bytes) = got (b, bytes)

-- data | (uc << (24 - bitlen)), with the bytes behind.
unfoldable pub with_byte : Reader → ℕ × Bytes → Reader
with_byte r (b, bytes) = record {
  window = bit_or r.window (b * 2 ^ (24 - r.bitlen));
  bitlen = r.bitlen + 8;
  rest = bytes;
}

-- The byte behind a byte 0xff: a 0 is stuffed, and the byte after it is taken as it is.
abbrev pub skip_stuffed : ℕ × Bytes → Read (ℕ × Bytes)
skip_stuffed (b, bytes) = if b == 0 then fgetc bytes else got (b, bytes)

-- A turn of the loop of readXC that reads ahead.
unfoldable pub refill_step : Reader → Read Reader
unfolding with_byte
refill_step r = fgetc r.rest >>= λ (b, bytes).
    let one = with_byte r (b, bytes) in
    if b == 255
    then (fgetc bytes >>= λ next. skip_stuffed next >>= λ second. got (with_byte one second))
    else got one

-- while(bitlen < 16): two turns are enough, since each adds a byte at least.
unfoldable pub refill : ℕ → Reader → Read Reader
unfolding refill_step
refill zero r = got r
refill (suc turns) r =
    let more = refill_step r >>= refill turns in if ltb r.bitlen 16 then more else got r

-- A row of the tables dht_lookup_...
pub record Entry : Type 0 where
  pub bits : ℕ
  pub mask : ℕ
  pub bitlen : ℕ
  pub code : ℕ

abbrev pub matches : ℕ → Entry → Bool
matches window e = bit_and window e.mask == e.bits

-- The search through a table: the test of `ind` against the size follows the match, and also ends the search with -1
-- when the match was the last row.
unfoldable pub find_code : ℕ → List Entry → Option Entry
find_code window [] = none
find_code window (e ∷ []) = none
find_code window (e ∷ f ∷ table) =
    let later = find_code window (f ∷ table) in if matches window e then some e else later

-- data <<= n, bitlen -= n; n is at most 16, and bitlen at least 16.
unfoldable pub shifted : ℕ → Reader → Reader
shifted n r = record r { window = r.window * 2 ^ n % 2 ^ 32; bitlen = r.bitlen - n }

unfoldable pub read_xc : List Entry → Reader → Read (ℕ × Reader)
unfolding refill find_code shifted
read_xc table r = refill 2 r >>= λ full. elim (find_code full.window table) [
  | none ↦ refused
  | some e ↦ refill 2 (shifted e.bitlen full) >>= λ after. got (e.code, after)
]

-- (data >> (32 - size)) & mask[size], with the bits taken; `mask` has 17 entries.
unfoldable pub read_bits : ℕ → Reader → Read (ℕ × Reader)
unfolding shifted
read_bits size r =
    if ltb 16 size
    then beyond
    else got (bit_and (r.window / 2 ^ (32 - size)) (2 ^ size - 1), shifted size r)

-- HUFF_EXTEND
unfoldable pub huff_extend : ℕ → ℕ → ℤ
huff_extend x zero = pos x
huff_extend x (suc s) = if ltb x (2 ^ s) then sub_ℕ (x + 1) (2 ^ suc s) else pos x

-- Where the loop over the AC coefficients has come.
pub record Progress : Type 0 where
  pub j : ℕ
  pub table : List ℤ
  pub reader : Reader

-- The loop over the AC coefficients: each turn raises j, so 63 turns are enough.
unfoldable pub ac_loop : ℕ → List Entry → Progress → Read Progress
unfolding read_xc read_bits huff_extend
ac_loop zero codes p = got p
ac_loop (suc turns) codes p =
    let turn = read_xc codes p.reader >>= λ (comb, r).
    let val = comb % 16 in
    let repeat = comb / 16 in
    let past_zeros = ac_loop turns codes (record { j = p.j + 16; table = p.table; reader = r }) in
    let with_value = read_bits val r >>= λ (x, after). ac_loop turns codes (record {
      j = p.j + repeat + 1;
      table = set p.table (p.j + repeat + 1) (huff_extend x val);
      reader = after;
    }) in
    if val == 0
    then if repeat == 15 then past_zeros else got (record { j = p.j; table = p.table; reader = r })
    else with_value in
    if ltb p.j 63 then turn else got p

-- What readTable leaves: the coefficients, *lastDC and the reader.
pub record Block : Type 0 where
  pub table : List ℤ
  pub last_dc : ℤ
  pub reader : Reader

unfoldable pub read_table : List Entry → List Entry → ℤ → Reader → Read Block
read_table dc_codes ac_codes last_dc r = read_xc dc_codes r >>= λ (size, r1).
    read_bits size r1 >>= λ (x, r2).
    let dc = huff_extend x size +ℤ last_dc in
    ac_loop 63 ac_codes (record { j = 0; table = dc ∷ replicate 63 (pos 0); reader = r2 }) >>= λ p.
    if leb p.j 63
    then got (record { table = p.table; last_dc = dc; reader = p.reader })
    else refused

-- The 32 bits of a code of `len` bits, at their left end.
unfoldable pub entry : ℕ → ℕ → ℕ → Entry
entry len code_val symbol = record {
  bits = code_val * 2 ^ (32 - len) % 2 ^ 32;
  mask = (2 ^ len - 1) * 2 ^ (32 - len);
  bitlen = len;
  code = symbol;
}

-- The loop over the codes of one length, with the symbols that follow.
unfoldable pub codes_of_length : ℕ → ℕ → ℕ → Bytes → Read (List Entry × Bytes)
unfolding entry
codes_of_length len zero code_val symbols = got ([], symbols)
codes_of_length len (suc count) code_val [] = beyond
codes_of_length len (suc count) code_val (symbol ∷ symbols) =
    codes_of_length len count (suc code_val) symbols >>= λ (entries, rest).
    got (entry len code_val symbol ∷ entries, rest)

-- The loop over the lengths.
unfoldable pub all_codes : ℕ → List ℕ → ℕ → Bytes → Read (List Entry × Bytes)
unfolding codes_of_length
all_codes len [] code_val symbols = got ([], symbols)
all_codes len (count ∷ counts) code_val symbols =
    codes_of_length len count code_val symbols >>= λ (entries, rest).
    all_codes (suc len) counts ((code_val + count) * 2) rest >>= λ (longer, behind).
    got (entries ++ longer, behind)
