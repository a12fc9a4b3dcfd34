-- ===== src/Main/Handles.antt =====
-- Every handle is closed once.
use mjpg_streamer.Common.{
  ℕ, ◌+◌, ◌≡◌, refl, ◌∙◌, false, List, [], ◌∷◌, if◌then◌else◌, ◌==◌, arith, Bool-cases, inl, inr,
}
use mjpg_streamer.Main.{shared_later, close_outputs}

-- How often a handle stands in a list.
abbrev pub count : ℕ → List ℕ → ℕ
count h [] = 0
count h (x ∷ xs) = (if h == x then 1 else 0) + count h xs

shared_later-count : (h : ℕ) (hs : List ℕ) → shared_later h hs ≡ false → count h hs ≡ 0
unfolding shared_later
shared_later-count h [] e = refl
shared_later-count h (x ∷ hs) e = ground (arith, shared_later-count h hs)

-- A handle that an output plugin has is closed exactly once, however many plugins share it, and no other is.
pub close_outputs-count :
    (h : ℕ) (handles : List ℕ)
    → count h (close_outputs handles) ≡ (if shared_later h handles then 1 else 0)
unfolding close_outputs shared_later
close_outputs-count h [] = refl
close_outputs-count h (x ∷ hs) = elim (Bool-cases (shared_later x hs)) [
  | inl later ↦ elim (Bool-cases (h == x)) [
    | inl same ↦
        let e : h ≡ x = ground arith in
        rw (later, same) (close_outputs-count h hs ∙ rw (e, later) refl)
    | inr other ↦ rw (later, other) (close_outputs-count h hs)
  ]
  | inr last ↦ elim (Bool-cases (h == x)) [
    | inl same ↦
        let e : h ≡ x = ground arith in
        let none_later : count h (close_outputs hs) ≡ 0 =
          close_outputs-count h hs ∙ rw (e, last) refl in
        rw (last, same) (omega (arith, none_later))
    | inr other ↦ rw (last, other) (let ih = close_outputs-count h hs in omega (arith, ih))
  ]
]
