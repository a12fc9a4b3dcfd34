-- ===== src/Uvc/Controls/Places.antt =====
-- A control's place in the table of the controls, the range of its values, and requests that are tried again.
use mjpg_streamer.Common.{
  ℕ, zero, suc, ◌≡◌, refl, sym, ap, ◌∙◌, subst, inl, inr, Bool, true, false, Bool-cases, List, [],
  ◌∷◌, Option, none, some, map, get_elem?, if◌then◌else◌, some-injective, ◌==◌, ==_iff, arith,
}
use mjpg_streamer.Common.Int.{ℤ, ◌≤ℤ◌}
use mjpg_streamer.Uvc.Controls.{QueryCtrl, Control, Reply, replied, failed, try_again, xioctl}
use mjpg_streamer.Uvc.Controls.Commands.{find_control, set_value, in_range}

-- What each try of a request keeps, its repetition keeps.
module _ {S A : Type 0} (P : S → Type 0) (call : S → Reply A × S)
    (kept : (s : S) → P s → P (call s).1) where
  pub xioctl-kept : (tries : ℕ) (s : S) → P s → P (xioctl tries call s).1
  unfolding xioctl
  xioctl-kept zero s h = kept s h
  xioctl-kept (suc tries) s h =
      tried (λ s h. xioctl-kept tries s h) (call s).0 (call s).1 (kept s h)
    where
      tried :
          ((s : S) → P s → P (xioctl tries call s).1)
          → (reply : Reply A) (s : S) → P s
          → P
              (elim reply as (λ _. Reply A × S) [
                | replied a ↦ (replied a, s)
                | failed errno ↦ if try_again errno then xioctl tries call s else (failed errno, s)
              ]).1
      tried again (replied a) s h = h
      tried again (failed errno) s h = elim (Bool-cases (try_again errno)) [
        | inl e ↦ simp e (again s h)
        | inr e ↦ simp e h
      ]

-- What find_control makes of the first control and of the rest.
abbrev found_in : ℕ → Control → Bool → Option (ℕ × Control) → Option (ℕ × Control)
found_in id q true rest = some (0, q)
found_in id q false none = none
found_in id q false (some (i, p)) = some (suc i, p)

find_control-step :
    (id : ℕ) (q : Control) (ps : List Control)
    → find_control id (q ∷ ps) ≡ found_in id q (q.ctrl.id == id) (find_control id ps)
unfolding find_control
find_control-step id q ps = go (q.ctrl.id == id) (find_control id ps)
  where
    go :
        (b : Bool) (rest : Option (ℕ × Control))
        → (if b then some (0, q) else elim rest as (λ _. Option (ℕ × Control)) [
          | none ↦ none
          | some (i, p) ↦ some (suc i, p)
        ])
          ≡ found_in id q b rest
    go true rest = refl
    go false none = refl
    go false (some (i, p)) = refl

pub find_control-found :
    (id : ℕ) (ps : List Control) (i : ℕ) (p : Control)
    → find_control id ps ≡ some (i, p)
    → (get_elem? ps i ≡ some p) × (p.ctrl.id ≡ id)
unfolding find_control
find_control-found id [] i p e = absurd cc
find_control-found id (q ∷ ps) i p e =
    go (λ j p2 r. find_control-found id ps j p2 r) (q.ctrl.id == id) refl (find_control id ps) refl
      i (sym (find_control-step id q ps) ∙ e)
  where
    go :
        ((j : ℕ) (p2 : Control)
          → find_control id ps ≡ some (j, p2)
          → (get_elem? ps j ≡ some p2) × (p2.ctrl.id ≡ id))
        → (b : Bool) → (q.ctrl.id == id) ≡ b
        → (rest : Option (ℕ × Control)) → find_control id ps ≡ rest
        → (i : ℕ) → found_in id q b rest ≡ some (i, p)
        → (get_elem? (q ∷ ps) i ≡ some p) × (p.ctrl.id ≡ id)
    go later true same rest r i e =
        let here : (0, q) ≡ (i, p) = some-injective _ _ e in
        let place : 0 ≡ i = ap (λ t. t.0) here in
        let control : q ≡ p = ap (λ t. t.1) here in
        (
          subst (λ j. get_elem? (q ∷ ps) j ≡ some p) place (ap some control),
          sym (ap (λ t. t.ctrl.id) control) ∙ (==_iff q.ctrl.id id).0 same,
        )
    go later false other none r i e = absurd cc
    go later false other (some (j, p2)) r i e =
        let here : (suc j, p2) ≡ (i, p) = some-injective _ _ e in
        let place : suc j ≡ i = ap (λ t. t.0) here in
        let control : p2 ≡ p = ap (λ t. t.1) here in
        let (at, same) = later j p2 r in
        (
          subst (λ k. get_elem? (q ∷ ps) k ≡ some p) place (at ∙ ap some control),
          sym (ap (λ t. t.ctrl.id) control) ∙ same,
        )

pub set_value-ids :
    (i : ℕ) (v : ℤ) (ps : List Control)
    → map (λ p. p.ctrl.id) (set_value i v ps) ≡ map (λ p. p.ctrl.id) ps
unfolding set_value
set_value-ids i v [] = refl
set_value-ids zero v (p ∷ ps) = refl
set_value-ids (suc i) v (p ∷ ps) = ap (◌∷◌ p.ctrl.id) (set_value-ids i v ps)

pub set_value-first :
    (v : ℤ) (ps : List Control) (i : ℕ) (p : Control)
    → get_elem? ps i ≡ some p
    → get_elem? (map (λ q. q.value) (set_value 0 v ps)) 0 ≡ some v
unfolding set_value
set_value-first v [] i p e = absurd cc
set_value-first v (q ∷ ps) i p e = refl

pub set_value-again :
    (v : ℤ) (ps : List Control) (i : ℕ) (p : Control)
    → get_elem? ps i ≡ some p
    → get_elem? (map (λ q. q.value) (set_value 0 v (set_value i v ps))) 0 ≡ some v
unfolding set_value
set_value-again v [] i p e = absurd cc
set_value-again v (q ∷ ps) zero p e = refl
set_value-again v (q ∷ ps) (suc i) p e = refl

pub in_range-bounds :
    (q : QueryCtrl) (v : ℤ) → in_range q v ≡ true → (q.minimum ≤ℤ v) × (v ≤ℤ q.maximum)
unfolding in_range
in_range-bounds q v e = ground arith
