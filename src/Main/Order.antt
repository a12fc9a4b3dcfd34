-- ===== src/Main/Order.antt =====
-- In which order main initialises and starts the plugins.
use mjpg_streamer.Common.{
  ℕ, suc, ◌≡◌, refl, sym, ap, subst, ◌∙◌, Bool, true, false, ◌&&◌, not, all, All, Bool-cases, inl,
  inr, both_true, List, [], ◌∷◌, ◌++◌, append-nil, Option, none, some,
}
use mjpg_streamer.Common.Text.{Bytes}
use mjpg_streamer.Main.Load.{
  Choice, Kind, in_plugin, out_plugin, Plugin, Effect, initialised, started, exits, pauses, Outcome,
  ends, after, options_loop, strings, plugin_name, arguments, default_output, refused_status,
  open_plugin, open_plugins, run_fails, run_inputs, run_outputs, run_all, main_with, main,
}

-- Effects other than the start of a plugin.
abbrev pub NotStarted : Effect → Type 0
NotStarted (initialised k id name args) = Unit {0}
NotStarted (started k id) = ⊥

-- The plugin is there, has all its functions, and its init does not signal to exit.
abbrev is_ready : Option Plugin → Bytes → Bool
is_ready none s = false
is_ready (some p) s = (p.has_init && (p.has_stop && p.has_run)) && not (p.init (arguments s))

-- The program has ended without the start of a plugin.
abbrev pub EndsUnstarted : Outcome → Type 0
EndsUnstarted o = All NotStarted o.effects × ((status : ℕ) × (o.ending ≡ exits status))

-- Plugins that are initialised, and started, one after the other.
abbrev pub all_initialised : Kind → ℕ → List Bytes → List Effect
all_initialised kind id [] = []
all_initialised kind id (s ∷ plugins) =
    initialised kind id (plugin_name s) (arguments s) ∷ all_initialised kind (suc id) plugins

abbrev pub all_started : Kind → ℕ → List Bytes → List Effect
all_started kind id [] = []
all_started kind id (s ∷ plugins) = started kind id ∷ all_started kind (suc id) plugins

false_of_not : (b : Bool) → not b ≡ true → b ≡ false
false_of_not true e = absurd cc
false_of_not false e = refl

ready_after : {a b : Bool} → a ≡ true → b ≡ false → (a && not b) ≡ false → ⊥
ready_after p q e = cc

open_ready :
    (kind : Kind) (id : ℕ) (s : Bytes) (o : Option Plugin) (rest : Outcome)
    → is_ready o s ≡ true
    → open_plugin kind id s o rest ≡ after (initialised kind id (plugin_name s) (arguments s)) rest
open_ready kind id s none rest e = absurd cc
open_ready kind id s (some p) rest e =
    let (symbols, fine) =
      both_true (p.has_init && (p.has_stop && p.has_run)) (not (p.init (arguments s))) e in
    let goes_on : p.init (arguments s) ≡ false = false_of_not (p.init (arguments s)) fine in
    rw symbols (rw goes_on refl)

open_unready :
    (kind : Kind) (id : ℕ) (s : Bytes) (o : Option Plugin) (rest : Outcome)
    → is_ready o s ≡ false
    → EndsUnstarted (open_plugin kind id s o rest)
open_unready kind id s none rest e = (tt, (1, refl))
open_unready kind id s (some p) rest e =
    elim (Bool-cases (p.has_init && (p.has_stop && p.has_run))) [
      | inr missing ↦ rw missing (tt, (1, refl))
      | inl symbols ↦ elim (Bool-cases (p.init (arguments s))) [
        | inl signals ↦ rw symbols (rw signals ((tt, tt), (refused_status kind, refl)))
        | inr fine ↦ absurd (ready_after symbols fine e)
      ]
    ]

module _ (dlopen : Bytes → Option Plugin) where
  abbrev pub is_usable : Bytes → Bool
  is_usable s = is_ready (dlopen (plugin_name s)) s

  abbrev pub all_run : ℕ → List Bytes → Bool
  all_run id [] = true
  all_run id (s ∷ inputs) = not (run_fails (dlopen (plugin_name s)) id) && all_run (suc id) inputs

  abbrev behind : List Effect → Outcome → Outcome
  behind effects o = record o { effects = effects ++ o.effects }

  -- Where all plugins are usable they are initialised in order, and what follows, follows.
  open_plugins_usable :
      (kind : Kind) (id : ℕ) (plugins : List Bytes) (rest : Outcome)
      → all is_usable plugins ≡ true
      → open_plugins dlopen kind id plugins rest ≡ behind (all_initialised kind id plugins) rest
  unfolding open_plugins
  open_plugins_usable kind id [] rest e = refl
  open_plugins_usable kind id (s ∷ plugins) rest e =
      let (first, others) = both_true (is_usable s) (all is_usable plugins) e in
      open_ready kind id s (dlopen (plugin_name s)) (open_plugins dlopen kind (suc id) plugins rest)
        first
      ∙ ap (λ o. after (initialised kind id (plugin_name s) (arguments s)) o)
          (open_plugins_usable kind (suc id) plugins rest others)

  -- Where one is not, the program ends, whatever would follow.
  open_plugins_unusable :
      (kind : Kind) (id : ℕ) (plugins : List Bytes) (rest : Outcome)
      → all is_usable plugins ≡ false
      → EndsUnstarted (open_plugins dlopen kind id plugins rest)
  unfolding open_plugins
  open_plugins_unusable kind id [] rest e = absurd cc
  open_plugins_unusable kind id (s ∷ plugins) rest e =
      let later = open_plugins dlopen kind (suc id) plugins rest in
      elim (Bool-cases (is_usable s)) [
        | inr unready ↦ open_unready kind id s (dlopen (plugin_name s)) later unready
        | inl ready ↦
            let others : all is_usable plugins ≡ false = rw ready at e in
            let (quiet, status) = open_plugins_unusable kind (suc id) plugins rest others in
            subst EndsUnstarted (sym (open_ready kind id s (dlopen (plugin_name s)) later ready))
              ((tt, quiet), status)
      ]

  run_inputs_all :
      (id : ℕ) (inputs : List Bytes) (rest : Outcome)
      → all_run id inputs ≡ true
      → run_inputs dlopen id inputs rest ≡ behind (all_started in_plugin id inputs) rest
  unfolding run_inputs
  run_inputs_all id [] rest e = refl
  run_inputs_all id (s ∷ inputs) rest e =
      let (runs, others) =
        both_true (not (run_fails (dlopen (plugin_name s)) id)) (all_run (suc id) inputs) e in
      rw (false_of_not (run_fails (dlopen (plugin_name s)) id) runs)
        (ap (λ o. after (started in_plugin id) o) (run_inputs_all (suc id) inputs rest others))

  run_outputs_all :
      (id : ℕ) (outputs : List Bytes) (rest : Outcome)
      → run_outputs dlopen id outputs rest ≡ behind (all_started out_plugin id outputs) rest
  unfolding run_outputs
  run_outputs_all id [] rest = refl
  run_outputs_all id (s ∷ outputs) rest =
      ap (λ o. after (started out_plugin id) o) (run_outputs_all (suc id) outputs rest)

  all_quiet :
      (kind : Kind) (id : ℕ) (plugins : List Bytes) (effects : List Effect)
      → All NotStarted effects
      → All NotStarted (all_initialised kind id plugins ++ effects)
  all_quiet kind id [] effects h = h
  all_quiet kind id (s ∷ plugins) effects h = (tt, all_quiet kind (suc id) plugins effects h)

  abbrev opened : List Bytes → List Bytes → Outcome
  opened inputs outputs =
      open_plugins dlopen in_plugin 0 inputs
        (open_plugins dlopen out_plugin 0 outputs (run_all dlopen inputs outputs))

  opening_fails :
      (inputs outputs : List Bytes)
      → (all is_usable inputs && all is_usable outputs) ≡ false
      → EndsUnstarted (opened inputs outputs)
  opening_fails inputs outputs e = elim (Bool-cases (all is_usable inputs)) [
    | inr unusable ↦ open_plugins_unusable in_plugin 0 inputs _ unusable
    | inl usable ↦
        let (quiet, status) =
          open_plugins_unusable out_plugin 0 outputs (run_all dlopen inputs outputs)
            (rw usable at e) in
        subst EndsUnstarted (sym (open_plugins_usable in_plugin 0 inputs _ usable))
          (all_quiet in_plugin 0 inputs _ quiet, status)
  ]

  opening_succeeds :
      (inputs outputs : List Bytes)
      → (all is_usable inputs && all is_usable outputs) ≡ true
      → all_run 0 inputs ≡ true
      → opened inputs outputs ≡ record {
        effects =
            all_initialised in_plugin 0 inputs
            ++ (all_initialised out_plugin 0 outputs
                ++ (all_started in_plugin 0 inputs ++ all_started out_plugin 0 outputs));
        ending = pauses;
      }
  unfolding run_all
  opening_succeeds inputs outputs e runs =
      let (ins, outs) = both_true (all is_usable inputs) (all is_usable outputs) e in
      let run = run_inputs_all 0 inputs (run_outputs dlopen 0 outputs (ends pauses)) runs in
      let started_outputs =
        run_outputs_all 0 outputs (ends pauses)
        ∙ ap (λ x. record { effects = x; ending = pauses })
            (append-nil (all_started out_plugin 0 outputs)) in
      open_plugins_usable in_plugin 0 inputs _ ins
      ∙ ap (behind (all_initialised in_plugin 0 inputs)) (
          open_plugins_usable out_plugin 0 outputs _ outs
          ∙ ap (behind (all_initialised out_plugin 0 outputs))
              (run ∙ ap (behind (all_started in_plugin 0 inputs)) started_outputs))

  -- No plugin is started before all are initialised. With a plugin that is missing, lacks a function, or signals to
  -- exit, main ends and has started none. Else it has initialised the input plugins and then the output plugins, each in
  -- the order of the options, and with no failing run of an input plugin it has then started them in that order and waits.
  pub main-ordered :
      (options : List Choice) (inputs outputs : List Bytes)
      → options_loop [] [] options ≡ strings inputs outputs
      → ((all is_usable inputs && all is_usable (default_output outputs)) ≡ false
          → EndsUnstarted (main dlopen options))
        × ((all is_usable inputs && all is_usable (default_output outputs)) ≡ true
            → all_run 0 inputs ≡ true
            → main dlopen options ≡ record {
              effects =
                  all_initialised in_plugin 0 inputs
                  ++ (all_initialised out_plugin 0 (default_output outputs)
                      ++ (all_started in_plugin 0 inputs
                          ++ all_started out_plugin 0 (default_output outputs)));
              ending = pauses;
            })
  unfolding main
  main-ordered options inputs outputs parsed =
      let read = ap (main_with dlopen) parsed in
      (
        λ e. subst EndsUnstarted (sym read) (opening_fails inputs (default_output outputs) e),
        λ e runs. read ∙ opening_succeeds inputs (default_output outputs) e runs,
      )
