-- ===== src/Proxy/Header.antt =====
-- The extractor in HEADER: no image, and CONTENT from the first empty line on.
use mjpg_streamer.Common.{
  ℕ, ◌≡◌, refl, sym, ap, subst, ◌∙◌, Bool, true, false, ◌&&◌, [], ◌∷◌, ◌++◌, arith, if◌then◌else◌,
  ◌<◌, ◌^◌, some, some-injective,
}
use mjpg_streamer.Common.Text.{Bytes}
use mjpg_streamer.Proxy.{
  ExtractorState, header, content, Part, step_in, header_byte, push_byte, is_crlfcrlf,
}
use mjpg_streamer.Proxy.Crlf.{
  Flags, flags, advance, lf_like, scan, scan-cons, flags-push_byte, is_crlfcrlf-push_byte,
  push_byte-lt,
}
use mjpg_streamer.Proxy.Run.{run, run_piece}

-- The state `t` is `s` but for what HEADER changes, with the given part and flags.
pub record Heads (s t : ExtractorState) (p : Part) (f : Flags) : Type 0 where
  pub buffer : t.buffer ≡ s.buffer
  pub boundary : t.boundary ≡ s.boundary
  pub part : t.part ≡ p
  pub seen : flags t.last_four_bytes ≡ f
  pub fits : t.last_four_bytes < 2 ^ 32

four_bytes :
    (s : ExtractorState) (b : ℕ) → (header_byte s b).last_four_bytes ≡ push_byte s.last_four_bytes b
unfolding header_byte
four_bytes s b = ground arith

pub kept :
    (s : ExtractorState) (b : ℕ)
    → ((header_byte s b).buffer ≡ s.buffer) × ((header_byte s b).boundary ≡ s.boundary)
unfolding header_byte
kept s b = (ground arith, ground arith)

part_after :
    (s : ExtractorState) (b : ℕ)
    → s.part ≡ header
    → (header_byte s b).part
      ≡ (if is_crlfcrlf (push_byte s.last_four_bytes b) then content else header)
unfolding header_byte
part_after s b h = ground arith

-- One byte that ends no empty line, and one that does.
byte-Heads :
    (s : ExtractorState) (b : ℕ) (hit : Bool)
    → b < 128
    → s.last_four_bytes < 2 ^ 32
    → s.part ≡ header
    → ((flags s.last_four_bytes).cr && lf_like b && (flags s.last_four_bytes).before) ≡ hit
    → Heads s
        (header_byte s b)
        (if hit then content else header)
        (advance (flags s.last_four_bytes) b)
byte-Heads s b hit small fits h test = record {
  buffer = (kept s b).0;
  boundary = (kept s b).1;
  part =
      part_after s b h
      ∙ ap (λ t. if t then content else header)
          (is_crlfcrlf-push_byte s.last_four_bytes b small fits ∙ test);
  seen = ap flags (four_bytes s b) ∙ flags-push_byte s.last_four_bytes b small;
  fits = rw (four_bytes s b) (push_byte-lt s.last_four_bytes b (omega arith));
}

pub Heads-trans :
    {s t u : ExtractorState} {p q : Part} {f g : Flags}
    → Heads s t p f
    → Heads t u q g
    → Heads s u q g
Heads-trans a b = record {
  buffer = b.buffer ∙ a.buffer;
  boundary = b.boundary ∙ a.boundary;
  part = b.part;
  seen = b.seen;
  fits = b.fits;
}

pub run-header_byte :
    (s : ExtractorState) (b : ℕ) → s.part ≡ header → run s (b ∷ []) ≡ (header_byte s b, [])
unfolding run step_in
run-header_byte s b h = rw (h, step_in)

-- A text without an empty line calls nothing and stays in HEADER.
pub run-scan :
    (xs : Bytes) (s : ExtractorState) {g : Flags}
    → s.part ≡ header
    → s.last_four_bytes < 2 ^ 32
    → scan (flags s.last_four_bytes) xs ≡ some g
    → (t : ExtractorState) × (run s xs ≡ (t, [])) × Heads s t header g
unfolding run scan
run-scan [] s h fits e = (
  s,
  refl,
  record { buffer = refl; boundary = refl; part = h; seen = some-injective _ _ e; fits = fits },
)
run-scan (b ∷ bs) s h fits e =
    let (small, quiet, later) = scan-cons (flags s.last_four_bytes) b bs e in
    let first = byte-Heads s b false small fits h quiet in
    let (t, ran, rest) =
      run-scan bs (header_byte s b) first.part first.fits (rw first.seen later) in
    (
      t,
      run_piece (b ∷ []) bs s (header_byte s b) [] (run-header_byte s b h) ∙ rw ran,
      Heads-trans first rest,
    )

-- The line feed of the empty line: CONTENT, with the same buffer.
pub run_empty_line :
    (xs : Bytes) (b : ℕ) (s : ExtractorState) {g : Flags}
    → s.part ≡ header
    → s.last_four_bytes < 2 ^ 32
    → scan (flags s.last_four_bytes) xs ≡ some g
    → b < 128
    → (g.cr && lf_like b && g.before) ≡ true
    → (t : ExtractorState) × (run s (xs ++ b ∷ []) ≡ (t, [])) × Heads s t content (advance g b)
run_empty_line xs b s h fits e small test =
    let (t, ran, rest) = run-scan xs s h fits e in
    let last =
      byte-Heads t b true small rest.fits rest.part
        (subst (λ (f : Flags). (f.cr && lf_like b && f.before) ≡ true) (sym rest.seen) test) in
    let last' =
      subst (λ (f : Flags). Heads t (header_byte t b) content (advance f b)) rest.seen last in
    (
      header_byte t b,
      run_piece xs (b ∷ []) s t [] ran ∙ rw (run-header_byte t b rest.part),
      Heads-trans rest last',
    )
