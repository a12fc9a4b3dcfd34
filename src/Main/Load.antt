-- ===== src/Main/Load.antt =====
-- mjpg_streamer.c: main, from the options that getopt_long returns to the wait for signals. dlopen, dlsym and the plugins'
-- functions are a parameter. Going to the background, the signal handlers, the log and the mutexes are left out.
use mjpg_streamer.Common.{
  ℕ, suc, Bool, true, ◌&&◌, not, List, [], ◌∷◌, ◌++◌, length, replicate, Option, none, some, leb,
  ◌==◌, if◌then◌else◌,
}
use mjpg_streamer.Common.Text.{Bytes, codes, strchr}
use mjpg_streamer.Main.{Split, split_parameters, max_plugin_arguments}

-- What getopt_long returns.
pub data Choice : Type 0 where
  input output : Bytes → Choice
  version background help : Choice

-- Whether the plugin is an input plugin.
pub data Kind : Type 0 where
  in_plugin out_plugin : Kind

-- A plugin that dlopen finds: whether dlsym finds its functions, what its init makes of the arguments, and what run
-- returns for an id; true is a value other than 0.
pub record Plugin : Type 0 where
  pub has_init : Bool
  pub has_stop : Bool
  pub has_run : Bool
  pub init : Split → Bool
  pub run : ℕ → Bool

pub data Effect : Type 0 where
  initialised : Kind → ℕ → Bytes → Split → Effect
  started : Kind → ℕ → Effect

-- How main ends: with a status, waiting for signals, or with a write behind the array of strings.
pub data Ending : Type 0 where
  exits : ℕ → Ending
  pauses beyond : Ending

pub record Outcome : Type 0 where
  pub effects : List Effect
  pub ending : Ending

abbrev pub ends : Ending → Outcome
ends e = record { effects = []; ending = e }

abbrev pub after : Effect → Outcome → Outcome
after e o = record o { effects = e ∷ o.effects }

-- What the loop over the options leaves.
pub data Parsed : Type 0 where
  leaves : Ending → Parsed
  strings : List Bytes → List Bytes → Parsed

-- MAX_INPUT_PLUGINS and MAX_OUTPUT_PLUGINS
abbrev pub max_plugins : ℕ
max_plugins = 10

-- The loop over the options, with the strings so far: their number is not checked.
unfoldable pub options_loop : List Bytes → List Bytes → List Choice → Parsed
options_loop inputs outputs [] = strings inputs outputs
options_loop inputs outputs (input s ∷ options) =
    let rest = options_loop (inputs ++ s ∷ []) outputs options in
    if leb max_plugins (length inputs) then leaves beyond else rest
options_loop inputs outputs (output s ∷ options) =
    let rest = options_loop inputs (outputs ++ s ∷ []) options in
    if leb max_plugins (length outputs) then leaves beyond else rest
options_loop inputs outputs (version ∷ options) = leaves (exits 0)
options_loop inputs outputs (background ∷ options) = options_loop inputs outputs options
options_loop inputs outputs (help ∷ options) = leaves (exits 1)

-- The name in front of the first space. A space at the very front, or none, gives the whole string.
unfoldable pub before_space : Bytes → Bytes
before_space [] = []
before_space (c ∷ s) = let rest = before_space s in if c == b' ' then [] else c ∷ rest

unfoldable pub plugin_name : Bytes → Bytes
unfolding before_space
plugin_name s = if length (before_space s) == 0 then s else before_space s

-- The arguments of a plugin, in a table that is cleared before.
unfoldable pub arguments : Bytes → Split
arguments s = split_parameters (strchr s b' ') (replicate max_plugin_arguments none)

abbrev pub default_output : List Bytes → List Bytes
default_output [] = codes "output_http.so --port 8080" ∷ []
default_output (s ∷ outputs) = s ∷ outputs

-- The status when init signals to exit.
abbrev pub refused_status : Kind → ℕ
refused_status in_plugin = 0
refused_status out_plugin = 1

-- A turn of the loops that open the plugins, with the turns behind it.
abbrev pub open_plugin : Kind → ℕ → Bytes → Option Plugin → Outcome → Outcome
open_plugin kind id s none rest = ends (exits 1)
open_plugin kind id s (some p) rest =
    let began = initialised kind id (plugin_name s) (arguments s) in
    if not (p.has_init && (p.has_stop && p.has_run))
    then ends (exits 1)
    else if p.init (arguments s)
    then after began (ends (exits (refused_status kind)))
    else after began rest

abbrev pub run_fails : Option Plugin → ℕ → Bool
run_fails none id = true
run_fails (some p) id = p.run id

module _ (dlopen : Bytes → Option Plugin) where
  unfoldable pub open_plugins : Kind → ℕ → List Bytes → Outcome → Outcome
  open_plugins kind id [] rest = rest
  open_plugins kind id (s ∷ plugins) rest =
      open_plugin kind id s (dlopen (plugin_name s)) (open_plugins kind (suc id) plugins rest)

  -- The loop that starts the input plugins: the first whose run fails ends the program.
  unfoldable pub run_inputs : ℕ → List Bytes → Outcome → Outcome
  run_inputs id [] rest = rest
  run_inputs id (s ∷ inputs) rest =
      let later = run_inputs (suc id) inputs rest in
      after (started in_plugin id)
        (if run_fails (dlopen (plugin_name s)) id then ends (exits 1) else later)

  -- The loop that starts the output plugins.
  unfoldable pub run_outputs : ℕ → List Bytes → Outcome → Outcome
  run_outputs id [] rest = rest
  run_outputs id (s ∷ outputs) rest =
      after (started out_plugin id) (run_outputs (suc id) outputs rest)

  unfoldable pub run_all : List Bytes → List Bytes → Outcome
  unfolding run_inputs run_outputs
  run_all inputs outputs = run_inputs 0 inputs (run_outputs 0 outputs (ends pauses))

  unfoldable pub main_with : Parsed → Outcome
  unfolding open_plugins run_all
  main_with (leaves e) = ends e
  main_with (strings inputs outputs) =
      open_plugins in_plugin 0 inputs (
        open_plugins out_plugin 0 (default_output outputs)
          (run_all inputs (default_output outputs)))

  unfoldable pub main : List Choice → Outcome
  unfolding options_loop main_with
  main options = main_with (options_loop [] [] options)
