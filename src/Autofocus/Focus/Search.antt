-- ===== src/Autofocus/Focus/Search.antt =====
-- A search for the focus as a whole.
use mjpg_streamer.Common.{
  ℕ, zero, suc, ◌+◌, ◌-◌, ◌*◌, ◌≤◌, ◌<◌, ◌≡◌, ◌⊎◌, inl, inr, refl, sym, ap, subst, ◌∙◌, true, false,
  Bool-cases, List, [], ◌∷◌, ◌++◌, append_assoc, append-nil, subst₂, length, length-append, some,
  get_elem?, All, leb, arith, min, max,
}
use mjpg_streamer.Autofocus.Focus.{Sharpness, Focus, adjust, worker_thread}

module _ (d : Sharpness)
    (exceeds_trans : (a b c : d.Value)
      → d.exceeds a b ≡ false
      → d.exceeds c b ≡ true
      → d.exceeds a c ≡ false)
    (exceeds_self : (a : d.Value) → d.exceeds a a ≡ false) where
  open d use {Value}

  -- The best of the values seen is `m`, at the focus `f`: the first is seen at 255, each later one 10 lower. With
  -- nothing above -1 it is -1, at 255.
  abbrev pub BestOf : List Value → ℕ → Value → Type 0
  BestOf seen f m =
      All (λ v. d.exceeds v m ≡ false) seen
      × (((f ≡ 255) × (m ≡ d.minus_one))
          ⊎ ((i : ℕ) × (get_elem? seen i ≡ some m) × (f ≡ 255 - 10 * i)))

  All-snoc :
      (P : Value → Type 0) (seen : List Value) (v : Value)
      → All P seen
      → P v
      → All P (seen ++ v ∷ [])
  All-snoc P [] v h p = (p, tt)
  All-snoc P (x ∷ seen) v h p = (h.0, All-snoc P seen v h.1 p)

  All-worse :
      (seen : List Value) (m v : Value)
      → All (λ w. d.exceeds w m ≡ false) seen
      → d.exceeds v m ≡ true
      → All (λ w. d.exceeds w v ≡ false) seen
  All-worse [] m v h e = tt
  All-worse (x ∷ seen) m v h e = (exceeds_trans x m v h.0 e, All-worse seen m v h.1 e)

  get_elem?-snoc :
      (seen : List Value) (v m : Value) (i : ℕ)
      → get_elem? seen i ≡ some m
      → get_elem? (seen ++ v ∷ []) i ≡ some m
  get_elem?-snoc [] v m i h = absurd cc
  get_elem?-snoc (x ∷ seen) v m zero h = h
  get_elem?-snoc (x ∷ seen) v m (suc i) h = get_elem?-snoc seen v m i h

  get_elem?-end :
      (seen : List Value) (v : Value) → get_elem? (seen ++ v ∷ []) (length seen) ≡ some v
  get_elem?-end [] v = refl
  get_elem?-end (x ∷ seen) v = get_elem?-end seen v

  -- The state of a search.
  abbrev running : Value → ℕ → ℕ → Focus d
  running m f best = record { max_sv = m; focus = f; max_focus = best; search_focus = true }

  adjust_better :
      (v m : Value) (f best : ℕ)
      → 0 < f
      → d.exceeds v m ≡ true
      → adjust d v (running m f best) ≡ running v (min (max (f - 10) 0) 255) f
  unfolding adjust
  adjust_better v m f best h e =
      let some_left : leb f 0 ≡ false = ground arith in rw (some_left, e) refl

  adjust_worse :
      (v m : Value) (f best : ℕ)
      → 0 < f
      → d.exceeds v m ≡ false
      → adjust d v (running m f best) ≡ running m (min (max (f - 10) 0) 255) best
  unfolding adjust
  adjust_worse v m f best h e =
      let some_left : leb f 0 ≡ false = ground arith in rw (some_left, e) refl

  -- A search that has seen some values.
  abbrev Searched : List Value → Focus d → Type 0
  Searched seen s =
      (m : Value) × (best : ℕ) × (s ≡ running m (255 - 10 * length seen) best) × BestOf seen best m

  adjust-Searched :
      (seen : List Value) (v m : Value) (best : ℕ)
      → length seen ≤ 25
      → BestOf seen best m
      → Searched (seen ++ v ∷ []) (adjust d v (running m (255 - 10 * length seen) best))
  adjust-Searched seen v m best few (worse, which) =
      let f : ℕ = 255 - 10 * length seen in
      let lowered : min (max (f - 10) 0) 255 ≡ 255 - 10 * length (seen ++ v ∷ []) =
        omega (arith, length-append seen (v ∷ [])) in
      elim (Bool-cases (d.exceeds v m)) [
        | inl better ↦ (
          v,
          f,
          adjust_better v m f best (omega arith) better ∙ ap (λ n. running v n f) lowered,
          (
            All-snoc _ seen v (All-worse seen m v worse better) (exceeds_self v),
            inr (length seen, get_elem?-end seen v, refl),
          ),
        )
        | inr e ↦ (
          m,
          best,
          adjust_worse v m f best (omega arith) e ∙ ap (λ n. running m n best) lowered,
          (
            All-snoc _ seen v worse e,
            elim which [
              | inl none_yet ↦ inl none_yet
              | inr (i, at, is) ↦ inr (i, get_elem?-snoc seen v m i at, is)
            ],
          ),
        )
      ]

  worker_thread-Searched :
      (seen svs : List Value) (m : Value) (best : ℕ)
      → length seen + length svs ≤ 26
      → BestOf seen best m
      → Searched (seen ++ svs) (worker_thread d (running m (255 - 10 * length seen) best) svs)
  unfolding worker_thread
  worker_thread-Searched seen [] m best few h =
      subst (λ l. Searched l (running m (255 - 10 * length seen) best)) (sym (append-nil seen))
        (m, best, refl, h)
  worker_thread-Searched seen (v ∷ svs) m best few h =
      let (m', best', e, h') = adjust-Searched seen v m best (omega arith) h in
      subst₂ Searched (append_assoc seen (v ∷ []) svs) (ap (λ s. worker_thread d s svs) (sym e)) (
        worker_thread-Searched (seen ++ v ∷ []) svs m' best'
          (omega (arith, length-append seen (v ∷ []))) h')

  -- What a search leaves when it ends: it is off, the focus is the best one, and this has the best value.
  abbrev pub Found : List Value → Focus d → Type 0
  Found seen s =
      (s.search_focus ≡ false) × (s.focus ≡ s.max_focus) × BestOf seen s.max_focus s.max_sv

  worker_thread-append :
      (s : Focus d) (xs ys : List Value)
      → worker_thread d s (xs ++ ys) ≡ worker_thread d (worker_thread d s xs) ys
  unfolding worker_thread
  worker_thread-append s [] ys = refl
  worker_thread-append s (x ∷ xs) ys = worker_thread-append (adjust d x s) xs ys

  adjust_last :
      (v m : Value) (best : ℕ)
      → adjust d v (running m 0 best)
        ≡ record { max_sv = m; focus = best; max_focus = best; search_focus = false }
  unfolding adjust
  adjust_last v m best = refl

  adjust_first :
      (v : Value) (s : Focus d)
      → s.search_focus ≡ false
      → d.is_far v s.max_sv ≡ true
      → adjust d v s ≡ adjust d v (running d.minus_one 255 255)
  unfolding adjust
  adjust_first v s off far = rw (off, far) refl

  -- A search ends. When a frame is far from the best sharpness, the search that it starts is over after 26 more frames,
  -- whatever these are; the focus then is the one of the sharpest frame of the first 26, or 255 if none exceeds -1. Where
  -- `exceeds` is the strict order of the values.
  pub worker_thread-Found :
      (s : Focus d) (first last : Value) (svs : List Value)
      → s.search_focus ≡ false
      → d.is_far first s.max_sv ≡ true
      → length svs ≡ 25
      → Found (first ∷ svs) (worker_thread d s (first ∷ (svs ++ last ∷ [])))
  unfolding worker_thread
  worker_thread-Found s first last svs off far many =
      let (m, best, e, h) =
        worker_thread-Searched [] (first ∷ svs) d.minus_one 255 (omega arith)
          (tt, inl (refl, refl)) in
      let over : running m (255 - 10 * length (first ∷ svs)) best ≡ running m 0 best =
        ap (λ n. running m n best) (omega arith) in
      let whole =
        ap (λ t. worker_thread d t (svs ++ last ∷ [])) (adjust_first first s off far)
        ∙ worker_thread-append (running d.minus_one 255 255) (first ∷ svs) (last ∷ [])
        ∙ ap (λ t. adjust d last t) (e ∙ over)
        ∙ adjust_last last m best in
      subst (Found (first ∷ svs)) (sym whole) (refl, refl, h)
