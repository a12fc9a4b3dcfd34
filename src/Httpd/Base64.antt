-- ===== src/Httpd/Base64.antt =====
-- decodeBase64 of httpd.c. It writes three bytes for each four that it has read, so in place it never
-- overwrites what it still has to read: the model returns what it writes before the terminating zero.
use mjpg_streamer.Common.{
  ℕ, ◌+◌, ◌-◌, ◌*◌, ◌/◌, ◌%◌, ◌^◌, ◌<◌, ◌≡◌, refl, ap, ◌∙◌, ◌&&◌, [], ◌∷◌, ◌++◌, Option, none, some,
  leb, ltb, ◌==◌, if◌then◌else◌, All, arith,
}
use mjpg_streamer.Common.Text.{Bytes, c_string}

-- The six bits of a byte; `none` for the bytes that are passed over.
unfoldable pub sextet : ℕ → Option ℕ
sextet t =
    if leb b'0' t && leb t b'9'
    then some (t - b'0' + 52)
    else if leb b'A' t && leb t b'Z'
    then some (t - b'A')
    else if leb b'a' t && leb t b'z'
    then some (t - b'a' + 26)
    else if t == b'+'
    then some 62
    else if t == b'/'
    then some 63
    else if t == b'='
    then some 0
    else none

-- (ch << 6) | t, in 32 bits.
abbrev pub shift_in : ℕ → ℕ → ℕ
shift_in ch t = ch * 64 % 2 ^ 32 + t

abbrev pub three_bytes : ℕ → Bytes
three_bytes ch = ch / 65536 % 256 ∷ ch / 256 % 256 ∷ ch % 256 ∷ []

-- The loop, with `ch` and `i`.
unfoldable pub decode_loop : ℕ → ℕ → Bytes → Bytes
unfolding sextet
decode_loop ch i [] = []
decode_loop ch i (t ∷ rest) = elim (sextet t) [
  | none ↦ decode_loop ch i rest
  | some v ↦
      let ch' = shift_in ch v in
      let flush = three_bytes ch' ++ decode_loop ch' 0 rest in
      let next = decode_loop ch' (i + 1) rest in if i + 1 == 4 then flush else next
]

unfoldable pub decode_base64 : Bytes → Bytes
unfolding decode_loop
decode_base64 data_in = decode_loop 0 0 data_in

-- The standard encoding, as a client writes it.
abbrev pub symbol : ℕ → ℕ
symbol v =
    if ltb v 26
    then b'A' + v
    else if ltb v 52
    then b'a' + (v - 26)
    else if ltb v 62
    then b'0' + (v - 52)
    else if v == 62
    then b'+'
    else b'/'

abbrev pub encode : Bytes → Bytes
encode [] = []
encode (x ∷ []) = symbol (x / 4) ∷ symbol (x % 4 * 16) ∷ b'=' ∷ b'=' ∷ []
encode (x ∷ y ∷ []) =
    symbol (x / 4) ∷ symbol (x % 4 * 16 + y / 16) ∷ symbol (y % 16 * 4) ∷ b'=' ∷ []
encode (x ∷ y ∷ z ∷ rest) =
    symbol (x / 4)
    ∷ symbol (x % 4 * 16 + y / 16)
    ∷ symbol (y % 16 * 4 + z / 64)
    ∷ symbol (z % 64)
    ∷ encode rest

sextet-symbol : (v : ℕ) → v < 64 → sextet (symbol v) ≡ some v
unfolding sextet
sextet-symbol v h = ground arith

-- Four bytes that stand for sextets give three bytes.
decode_four :
    (ch a b c d : ℕ) (rest : Bytes) {p q r s : ℕ}
    → sextet a ≡ some p
    → sextet b ≡ some q
    → sextet c ≡ some r
    → sextet d ≡ some s
    → decode_loop ch 0 (a ∷ b ∷ c ∷ d ∷ rest)
      ≡ three_bytes (shift_in (shift_in (shift_in (shift_in ch p) q) r) s)
        ++ decode_loop (shift_in (shift_in (shift_in (shift_in ch p) q) r) s) 0 rest
unfolding decode_loop
decode_four ch a b c d rest ea eb ec ed = rw (ea, eb, ec, ed, decode_loop)

-- The bytes behind the encoded text are ones that the loop passes over, as the line end is.
abbrev pub Ignored : Bytes → Type 0
Ignored = All (λ t. sextet t ≡ none)

decode-Ignored : (ch i : ℕ) (tail : Bytes) → Ignored tail → decode_loop ch i tail ≡ []
unfolding decode_loop
decode-Ignored ch i [] h = refl
decode-Ignored ch i (t ∷ tail) h = rw (h.0, decode_loop) (decode-Ignored ch i tail h.1)

shifted6 : (u t : ℕ) → t < 64 → shift_in u t % 2 ^ 12 ≡ u % 2 ^ 6 * 64 + t
shifted6 u t h = omega arith

shifted12 : (u t : ℕ) → t < 64 → shift_in u t % 2 ^ 18 ≡ u % 2 ^ 12 * 64 + t
shifted12 u t h = omega arith

shifted18 : (u t : ℕ) → t < 64 → shift_in u t % 2 ^ 24 ≡ u % 2 ^ 18 * 64 + t
shifted18 u t h = omega arith

sums :
    (c4 c3 c2 c1 p q r s : ℕ)
    → c1 % 2 ^ 6 ≡ p
    → c2 % 2 ^ 12 ≡ c1 % 2 ^ 6 * 64 + q
    → c3 % 2 ^ 18 ≡ c2 % 2 ^ 12 * 64 + r
    → c4 % 2 ^ 24 ≡ c3 % 2 ^ 18 * 64 + s
    → c4 % 2 ^ 24 ≡ ((p * 64 + q) * 64 + r) * 64 + s
sums c4 c3 c2 c1 p q r s e1 e2 e3 e4 = omega arith

-- The last four sextets are the low 24 bits.
low_bits :
    (ch p q r s : ℕ)
    → p < 64
    → q < 64
    → r < 64
    → s < 64
    → shift_in (shift_in (shift_in (shift_in ch p) q) r) s % 2 ^ 24
      ≡ ((p * 64 + q) * 64 + r) * 64 + s
low_bits ch p q r s hp hq hr hs =
    let c1 = shift_in ch p in
    let c2 = shift_in c1 q in
    let c3 = shift_in c2 r in
    let e1 : c1 % 2 ^ 6 ≡ p = omega arith in
    let e2 : c2 % 2 ^ 12 ≡ c1 % 2 ^ 6 * 64 + q = shifted6 c1 q hq in
    let e3 : c3 % 2 ^ 18 ≡ c2 % 2 ^ 12 * 64 + r = shifted12 c2 r hr in
    let e4 : shift_in c3 s % 2 ^ 24 ≡ c3 % 2 ^ 18 * 64 + s = shifted18 c3 s hs in
    sums (shift_in c3 s) c3 c2 c1 p q r s e1 e2 e3 e4

three :
    (w x y z : ℕ)
    → x < 256
    → y < 256
    → z < 256
    → w % 2 ^ 24 ≡ (x * 256 + y) * 256 + z
    → three_bytes w ≡ x ∷ y ∷ z ∷ []
three w x y z hx hy hz e =
    let e1 : w / 65536 % 256 ≡ x = omega arith in
    let e2 : w / 256 % 256 ≡ y = omega arith in
    let e3 : w % 256 ≡ z = omega arith in cc (e1, e2, e3)

-- Three bytes, by their four symbols.
decode_three :
    (ch x y z : ℕ) (rest : Bytes)
    → x < 256
    → y < 256
    → z < 256
    → (ch' : ℕ) × (decode_loop ch 0 (
          symbol (x / 4)
          ∷ symbol (x % 4 * 16 + y / 16)
          ∷ symbol (y % 16 * 4 + z / 64)
          ∷ symbol (z % 64)
          ∷ rest)
        ≡ x ∷ y ∷ z ∷ decode_loop ch' 0 rest)
decode_three ch x y z rest hx hy hz =
    let p = x / 4 in
    let q = x % 4 * 16 + y / 16 in
    let r = y % 16 * 4 + z / 64 in
    let s = z % 64 in
    let w = shift_in (shift_in (shift_in (shift_in ch p) q) r) s in
    let low : w % 2 ^ 24 ≡ (x * 256 + y) * 256 + z =
      low_bits ch p q r s (omega arith) (omega arith) (omega arith) (omega arith) ∙ omega arith in
    (
      w,
      decode_four ch (symbol p) (symbol q) (symbol r) (symbol s) rest
            (sextet-symbol p (omega arith)) (sextet-symbol q (omega arith))
            (sextet-symbol r (omega arith)) (sextet-symbol s (omega arith))
          ∙ ap (λ (xs : Bytes). xs ++ decode_loop w 0 rest) (three w x y z hx hy hz low),
    )

-- A byte of a text: not the terminating zero.
abbrev pub Plain : Bytes → Type 0
Plain = All (λ b. (0 < b) × (b < 256))

padding : sextet b'=' ≡ some 0
unfolding sextet
padding = refl

decode_padded :
    (ch x y d : ℕ) (tail : Bytes)
    → x < 256
    → y < 256
    → sextet d ≡ some (y % 16 * 4)
    → Ignored tail
    → decode_loop ch 0 (symbol (x / 4) ∷ symbol (x % 4 * 16 + y / 16) ∷ d ∷ b'=' ∷ tail)
      ≡ x ∷ y ∷ 0 ∷ []
decode_padded ch x y d tail hx hy ed h =
    let p = x / 4 in
    let q = x % 4 * 16 + y / 16 in
    let r = y % 16 * 4 in
    let w = shift_in (shift_in (shift_in (shift_in ch p) q) r) 0 in
    let low : w % 2 ^ 24 ≡ (x * 256 + y) * 256 + 0 =
      low_bits ch p q r 0 (omega arith) (omega arith) (omega arith) (omega arith) ∙ omega arith in
    decode_four ch (symbol p) (symbol q) d b'=' tail (sextet-symbol p (omega arith))
      (sextet-symbol q (omega arith)) ed padding
    ∙ rw (decode-Ignored w 0 tail h) (three w x y 0 hx hy (omega arith) low)

loop-encode :
    (ch : ℕ) (xs tail : Bytes)
    → Plain xs
    → Ignored tail
    → c_string (decode_loop ch 0 (encode xs ++ tail)) ≡ xs
loop-encode ch [] tail h t = rw (decode-Ignored ch 0 tail t)
loop-encode ch (x ∷ []) tail (hx, _) t =
    let e : x % 4 * 16 + 0 / 16 ≡ x % 4 * 16 = omega arith in
    let d = rw e at (decode_padded ch x 0 b'=' tail (omega arith) (omega arith) padding t) in
    ap c_string d ∙ ground arith
loop-encode ch (x ∷ y ∷ []) tail (hx, (hy, _)) t =
    ap c_string (
      decode_padded ch x y (symbol (y % 16 * 4)) tail (omega arith) (omega arith)
        (sextet-symbol (y % 16 * 4) (omega arith)) t)
    ∙ ground arith
loop-encode ch (x ∷ y ∷ z ∷ rest) tail (hx, (hy, (hz, h))) t =
    let (ch', e) =
      decode_three ch x y z (encode rest ++ tail) (omega arith) (omega arith) (omega arith) in
    ap c_string e ∙ ground (arith, loop-encode ch' rest tail h t)

-- A text without zero bytes comes back from its standard base64 form, padded or not, followed by bytes
-- that are no base64, as the end of a header line.
pub decode_base64-encode :
    (xs tail : Bytes) → Plain xs → Ignored tail → c_string (decode_base64 (encode xs ++ tail)) ≡ xs
unfolding decode_base64
decode_base64-encode xs tail h t = loop-encode 0 xs tail h t
