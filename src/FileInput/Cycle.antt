-- ===== src/FileInput/Cycle.antt =====
-- The existing files of a folder: its pictures one after the other, again and again.
use mjpg_streamer.Common.{
  ℕ, zero, suc, ◌+◌, ◌%◌, ◌≤◌, ◌<◌, ◌≡◌, refl, ap, sym, ◌∙◌, ◌⊎◌, inl, inr, Bool, true, false, ◌||◌,
  ◌&&◌, not, Bool-cases, and-false, both_false, List, [], ◌∷◌, ◌++◌, Option, some, length, take,
  take_all, take-suc-get_or, get_or, get_elem?, ◌==◌, if◌then◌else◌, arith,
}
use native.Mathlib.Nat.{suc-mod, mod-lt, mod-eq_of_lt, mod_self}
use mjpg_streamer.Common.Text.{Bytes}
use mjpg_streamer.FileInput.{
  Turn, stopped, no_pictures, Run, ends, serve_file, path_of, is_picture, existing_loop,
  worker_thread,
}

-- The folder's files in order, from the first again behind the last.
abbrev pub cycled : List Bytes → ℕ → Bytes
cycled files k = get_or files (k % length files) []

-- The pictures among them, from the `k`th file on, a file for each turn.
abbrev pub shown_from : Bool → Bytes → List Bytes → ℕ → List Turn → Run
shown_from rm folder files k [] = ends stopped
shown_from rm folder files k (t ∷ turns) =
    let rest = shown_from rm folder files (suc k) turns in
    if is_picture (cycled files k)
    then serve_file rm (path_of folder (cycled files k)) t.reading rest
    else rest

abbrev pub any_picture : List Bytes → Bool
any_picture [] = false
any_picture (name ∷ names) = is_picture name || any_picture names

get_elem?-get_or :
    (files : List Bytes) (i : ℕ) → i < length files → get_elem? files i ≡ some (get_or files i [])
get_elem?-get_or [] i h = absurd (omega arith)
get_elem?-get_or (f ∷ files) zero h = refl
get_elem?-get_or (f ∷ files) (suc i) h = get_elem?-get_or files i (omega arith)

any_picture-snoc :
    (names : List Bytes) (name : Bytes)
    → any_picture names ≡ false
    → is_picture name ≡ false
    → any_picture (names ++ name ∷ []) ≡ false
any_picture-snoc [] name h e = rw e refl
any_picture-snoc (n ∷ names) name h e = elim (Bool-cases (is_picture n)) [
  | inl is ↦ absurd (cc (rw is at h))
  | inr is_not ↦
      let h' : any_picture names ≡ false = rw is_not at h in
      rw is_not (any_picture-snoc names name h' e)
]

-- currentFileNumber behind a file.
wrapped-mod : (k n : ℕ) → 0 < n → (if suc (k % n) == n then 0 else suc (k % n)) ≡ suc k % n
wrapped-mod k n pos = elim (Bool-cases (suc (k % n) == n)) [
  | inl same ↦
      let whole : suc (k % n) ≡ n = ground arith in
      rw same (sym (suc-mod k n ∙ (ap (λ (m : ℕ). m % n) whole ∙ mod_self n)))
  | inr other ↦ rw other (sym (suc-mod k n ∙ mod-eq_of_lt (ground (arith, mod-lt k pos))))
]

empty_turns :
    (rm : Bool) (folder : Bytes) (files : List Bytes) (i : ℕ) (has_jpg : Bool)
    → existing_loop rm folder files i has_jpg [] ≡ ends stopped
unfolding existing_loop
empty_turns rm folder files i has_jpg = refl

any_picture-length : (files : List Bytes) → any_picture files ≡ true → 0 < length files
any_picture-length [] e = absurd cc
any_picture-length (f ∷ files) e = omega arith

nothing_seen :
    (files : List Bytes) → 0 < length files → any_picture (take (0 % length files) files) ≡ false
nothing_seen files pos = ap (λ i. any_picture (take i files)) {y = 0} (mod-eq_of_lt pos)

existing_step :
    (rm : Bool) (folder : Bytes) (files : List Bytes) (i : ℕ) (has_jpg : Bool) (t : Turn)
    (turns : List Turn) (name : Bytes)
    → get_elem? files i ≡ some name
    → let wrapped = if suc i == length files then 0 else suc i in
      existing_loop rm folder files i has_jpg (t ∷ turns) ≡ (
        if is_picture name
        then serve_file rm
            (path_of folder name)
            t.reading
            (existing_loop rm folder files wrapped true turns)
        else if (suc i == length files) && not has_jpg
        then ends no_pictures
        else existing_loop rm folder files wrapped has_jpg turns)
unfolding existing_loop
existing_step rm folder files i has_jpg t turns name e = rw (existing_loop, e) refl

-- Whether the files up to the next hold a picture.
seen_next :
    (files : List Bytes) (i : ℕ)
    → i < length files
    → any_picture (take i files) ≡ false
    → is_picture (get_or files i []) ≡ false
    → any_picture (take (suc i) files) ≡ false
seen_next files i lt h e =
    ap any_picture (take-suc-get_or files i [] lt)
    ∙ any_picture-snoc (take i files) (get_or files i []) h e

seen_last :
    (files : List Bytes) (i : ℕ)
    → (suc i == length files) ≡ true
    → any_picture (take (suc i) files) ≡ any_picture files
seen_last files i e = ap any_picture (take_all (suc i) files (ground arith))

-- Behind a file that is no picture the loop goes on.
goes_on :
    (files : List Bytes) (k : ℕ) (has_jpg : Bool)
    → 0 < length files
    → any_picture files ≡ true
    → (has_jpg ≡ true) ⊎ (any_picture (take (k % length files) files) ≡ false)
    → is_picture (cycled files k) ≡ false
    → (((suc (k % length files) == length files) && not has_jpg) ≡ false)
      × ((has_jpg ≡ true) ⊎ (any_picture (take (suc k % length files) files) ≡ false))
goes_on files k has_jpg pos some_picture (inl h) e = (rw h (and-false _), inl h)
goes_on files k has_jpg pos some_picture (inr none_seen) e =
    let lt = mod-lt k pos in
    let later = seen_next files (k % length files) lt none_seen e in
    elim (Bool-cases (suc (k % length files) == length files)) [
      | inl last ↦ absurd (let whole = seen_last files (k % length files) last in cc)
      | inr other ↦
          let next : suc k % length files ≡ suc (k % length files) =
            suc-mod k (length files) ∙ mod-eq_of_lt (ground (arith, lt)) in
          (rw other refl, inr (rw next later))
    ]

existing-shown_from :
    (rm : Bool) (folder : Bytes) (files : List Bytes) (k : ℕ) (has_jpg : Bool) (turns : List Turn)
    → 0 < length files
    → any_picture files ≡ true
    → (has_jpg ≡ true) ⊎ (any_picture (take (k % length files) files) ≡ false)
    → existing_loop rm folder files (k % length files) has_jpg turns
      ≡ shown_from rm folder files k turns
existing-shown_from rm folder files k has_jpg [] pos some_picture seen =
    empty_turns rm folder files _ has_jpg
existing-shown_from rm folder files k has_jpg (t ∷ turns) pos some_picture seen =
    let at = get_elem?-get_or files (k % length files) (mod-lt k pos) in
    let next = wrapped-mod k (length files) pos in
    let one =
      existing_step rm folder files (k % length files) has_jpg t turns (cycled files k) at in
    elim (Bool-cases (is_picture (cycled files k))) [
      | inl is ↦
          one
          ∙ rw is (
              ap (serve_file rm (path_of folder (cycled files k)) t.reading) (
                ap (λ i. existing_loop rm folder files i true turns) next
                ∙ existing-shown_from rm folder files (suc k) true turns pos some_picture
                    (inl refl)))
      | inr is_not ↦
          let (on, seen') = goes_on files k has_jpg pos some_picture seen is_not in
          one
          ∙ rw (is_not, on)
              (ap (λ i. existing_loop rm folder files i has_jpg turns) next
                ∙ existing-shown_from rm folder files (suc k) has_jpg turns pos some_picture seen')
    ]

-- A folder with a picture, in the mode of the existing files: whatever the calls yield, the thread takes the folder's
-- files in order, from the first again behind the last, one in each turn, and serves exactly those that are pictures,
-- until a call fails or the stop flag is set.
pub worker_thread-shown_from :
    (rm : Bool) (folder : Bytes) (filename : Option Bytes) (files : List Bytes) (turns : List Turn)
    → any_picture files ≡ true
    → worker_thread
        (record {
          rm = rm;
          folder = folder;
          filename = filename;
          existing = true;
          files = some files;
        })
        turns
      ≡ shown_from rm folder files 0 turns
unfolding worker_thread
worker_thread-shown_from rm folder filename files turns h =
    let pos = any_picture-length files h in
    ap (λ i. existing_loop rm folder files i false turns) {y = 0 % length files}
      (sym (mod-eq_of_lt pos))
    ∙ existing-shown_from rm folder files 0 false turns pos h (inr (nothing_seen files pos))

no_picture-get_or :
    (files : List Bytes) (k : ℕ)
    → any_picture files ≡ false
    → k < length files
    → is_picture (get_or files k []) ≡ false
no_picture-get_or [] k h lt = absurd (omega arith)
no_picture-get_or (f ∷ files) zero h lt = (both_false (is_picture f) (any_picture files) h).0
no_picture-get_or (f ∷ files) (suc k) h lt =
    no_picture-get_or files k (both_false (is_picture f) (any_picture files) h).1 (omega arith)

existing_ends :
    (rm : Bool) (folder : Bytes) (files : List Bytes) (k : ℕ) (turns : List Turn)
    → any_picture files ≡ false
    → k < length files
    → length files ≤ k + length turns
    → existing_loop rm folder files k false turns ≡ ends no_pictures
existing_ends rm folder files k [] none_there lt enough = absurd (omega arith)
existing_ends rm folder files k (t ∷ turns) none_there lt enough =
    let one =
      existing_step rm folder files k false t turns (get_or files k [])
        (get_elem?-get_or files k lt) in
    let is_not = no_picture-get_or files k none_there lt in
    elim (Bool-cases (suc k == length files)) [
      | inl last ↦ one ∙ rw (is_not, last) refl
      | inr more ↦
          one
          ∙ rw (is_not, more)
              (existing_ends rm folder files (suc k) turns none_there (ground arith) (omega arith))
    ]

-- A folder without a picture, in the mode of the existing files: the thread ends after at most one turn for each file,
-- without having published or removed anything.
pub worker_thread-no_pictures :
    (rm : Bool) (folder : Bytes) (filename : Option Bytes) (files : List Bytes) (turns : List Turn)
    → any_picture files ≡ false
    → 0 < length files
    → length files ≤ length turns
    → worker_thread
        (record {
          rm = rm;
          folder = folder;
          filename = filename;
          existing = true;
          files = some files;
        })
        turns
      ≡ ends no_pictures
unfolding worker_thread
worker_thread-no_pictures rm folder filename files turns none_there pos enough =
    existing_ends rm folder files 0 turns none_there pos (omega arith)
