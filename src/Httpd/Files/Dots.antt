-- ===== src/Httpd/Files/Dots.antt =====
-- Copying a file, and the last dot of its name.
use mjpg_streamer.Common.{
  ℕ, zero, suc, ◌-◌, ◌<◌, ◌≡◌, ◌≢◌, refl, sym, ap, ◌∙◌, subst, true, false, [], ◌∷◌, ◌++◌, Option,
  none, some, some-injective, length, take, drop, replicate, ◌==◌, arith, Bool-cases, Option-cases,
  inl, inr, ◌⊎◌, take-append-drop, length-drop, length-append, append_assoc,
}
use mjpg_streamer.Common.Text.{joined, Bytes, strchr, mem}
use mjpg_streamer.Httpd.Files.{buffer_size, last_dot_loop, last_dot, copy_file}

pub copied :
    (fuel : ℕ) (buffer content : Bytes) (k : ℕ)
    → length content < fuel
    → length content < k
    → joined (copy_file fuel buffer content (replicate k true)) ≡ buffer ++ content
unfolding copy_file
copied zero buffer content k h l = absurd (omega arith)
copied (suc fuel) buffer content zero h l = absurd (omega arith)
copied (suc fuel) buffer [] (suc k) h l = refl
copied (suc fuel) buffer (c ∷ cs) (suc k) h l =
    ap (λ (xs : Bytes). buffer ++ xs)
      (copied fuel (take buffer_size (c ∷ cs)) (drop buffer_size (c ∷ cs)) k
          (omega (arith, length-drop 1023 cs)) (omega (arith, length-drop 1023 cs))
        ∙ take-append-drop buffer_size (c ∷ cs))

-- A text with a last dot: the name before it and what follows.
pub record LastDot (s : Bytes) (n : ℕ) : Type 0 where
  pub stem : Bytes
  pub ext : Bytes
  pub splits : s ≡ stem ++ b'.' ∷ ext
  pub last : mem b'.' ext ≡ false
  pub at_n : n ≡ length stem

record FirstDot (s t : Bytes) : Type 0 where
  before : Bytes
  after : Bytes
  starts : t ≡ b'.' ∷ after
  splits : s ≡ before ++ b'.' ∷ after

strchr-none : (s : Bytes) → strchr s b'.' ≡ none → mem b'.' s ≡ false
unfolding strchr
strchr-none [] e = refl
strchr-none (x ∷ s) e = elim (Bool-cases (x == b'.')) [
  | inl hit ↦ cc (rw hit at e)
  | inr miss ↦ rw miss (strchr-none s (rw miss at e))
]

strchr-some : (s t : Bytes) → strchr s b'.' ≡ some t → FirstDot s t
unfolding strchr
strchr-some [] t e = cc
strchr-some (x ∷ s) t e = elim (Bool-cases (x == b'.')) [
  | inl hit ↦
      let same : x ≡ b'.' = ground arith in
      let found : x ∷ s ≡ t = some-injective (x ∷ s) t (rw hit at e) in
      record {
        before = [];
        after = s;
        starts = sym found ∙ ap (λ (c : ℕ). c ∷ s) same;
        splits = ap (λ (c : ℕ). c ∷ s) same;
      }
  | inr miss ↦
      let ih = strchr-some s t (rw miss at e) in
      record {
        before = x ∷ ih.before;
        after = ih.after;
        starts = ih.starts;
        splits = ap (◌∷◌ x) ih.splits;
      }
]

loop_last :
    (fuel : ℕ) (p pre s : Bytes) (last : ℕ)
    → p ≡ pre ++ s
    → length s < fuel
    → ((mem b'.' s ≡ false) × (last_dot_loop fuel p (strchr s b'.') last ≡ last))
      ⊎ LastDot p (last_dot_loop fuel p (strchr s b'.') last)
unfolding last_dot_loop
loop_last zero p pre s last e h = absurd (omega arith)
loop_last (suc fuel) p pre s last e h = elim (Option-cases (strchr s b'.')) [
  | inl absent ↦ inl (strchr-none s absent, rw (absent, last_dot_loop) refl)
  | inr (t, found) ↦
      let f = strchr-some s t found in
      let here : p ≡ (pre ++ f.before) ++ b'.' ∷ f.after =
        e
        ∙ ap (λ (xs : Bytes). pre ++ xs) f.splits
        ∙ sym (append_assoc pre f.before (b'.' ∷ f.after)) in
      let deeper : p ≡ ((pre ++ f.before) ++ b'.' ∷ []) ++ f.after =
        here ∙ sym (append_assoc (pre ++ f.before) (b'.' ∷ []) f.after) in
      let at : length p - length t ≡ length (pre ++ f.before) = omega (
        arith,
        ap length here,
        ap length f.starts,
        length-append (pre ++ f.before) (b'.' ∷ f.after),
      ) in
      let smaller : length f.after < fuel =
        omega (arith, h, ap length f.splits, length-append f.before (b'.' ∷ f.after)) in
      let step : last_dot_loop (suc fuel) p (strchr s b'.') last
          ≡ last_dot_loop fuel p (strchr f.after b'.') (length p - length t) =
        ap (λ (u : Option Bytes). last_dot_loop (suc fuel) p u last) found
        ∙ ap (λ (u : Bytes). last_dot_loop fuel p (strchr (drop 1 u) b'.') (length p - length t))
            f.starts in
      elim (loop_last fuel p ((pre ++ f.before) ++ b'.' ∷ []) f.after (length p - length t) deeper
        smaller) [
          | inl (clean, same) ↦ inr (
              subst (LastDot p) (sym step) (record {
                stem = pre ++ f.before;
                ext = f.after;
                splits = here;
                last = clean;
                at_n = same ∙ at;
              }))
          | inr deep ↦ inr (subst (LastDot p) (sym step) deep)
        ]
]

pub last_dot-LastDot : (p : Bytes) → last_dot p ≢ 0 → LastDot p (last_dot p)
unfolding last_dot
last_dot-LastDot p h = elim (loop_last (suc (length p)) p [] p 0 refl (omega arith)) [
  | inl (clean, same) ↦ absurd (h same)
  | inr found ↦ found
]
