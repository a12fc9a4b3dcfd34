-- ===== src/Main.antt =====
-- mjpg_streamer.c: how a plugin's parameter string is split into arguments, and which handles of output
-- plugins the signal handler closes.
pub mod Arguments
pub mod Handles
pub mod Load
pub mod Order
use mjpg_streamer.Common.{
  ℕ, suc, Bool, true, false, ◌||◌, List, [], ◌∷◌, ◌++◌, Option, none, some, length, set, leb,
  if◌then◌else◌, ◌==◌,
}
use mjpg_streamer.Common.Text.{Bytes, mem}

-- MAX_PLUGIN_ARGUMENTS
abbrev pub max_plugin_arguments : ℕ
max_plugin_arguments = 32

-- The tokens that strtok_r(arg, " ", ...) returns; `token` is the part read of the next one.
unfoldable pub tokens : Bytes → Bytes → List Bytes
tokens token [] = if length token == 0 then [] else token ∷ []
tokens token (c ∷ cs) =
    let ends = tokens [] cs in
    let goes_on = tokens (token ++ c ∷ []) cs in
    if c == b' ' then (if length token == 0 then ends else token ∷ ends) else goes_on

-- argv: the entries that are set, in a table of MAX_PLUGIN_ARGUMENTS pointers.
abbrev pub Argv : Type 0
Argv = List (Option Bytes)

-- The outcome of split_parameters: what it returns, the table, and *argc where it is set.
pub record Split : Type 0 where
  pub ok : Bool
  pub argv : Argv
  pub argc : Option ℕ

-- The loop: the token is stored, and the count is checked after it.
unfoldable pub split_loop : ℕ → Argv → List Bytes → Split
split_loop count argv [] = record { ok = true; argv = argv; argc = some count }
split_loop count argv (token ∷ rest) =
    let more = split_loop (suc count) (set argv count (some token)) rest in
    if leb max_plugin_arguments (suc count)
    then record { ok = false; argv = set argv count (some token); argc = none }
    else more

-- The first token is stored without a check.
unfoldable pub split_first : Argv → List Bytes → Split
unfolding split_loop
split_first argv [] = record { ok = true; argv = argv; argc = some 1 }
split_first argv (token ∷ rest) = split_loop 2 (set argv 1 (some token)) rest

unfoldable pub split_parameters : Option Bytes → Argv → Split
unfolding split_first tokens
split_parameters none argv = record { ok = true; argv = set argv 0 none; argc = some 1 }
split_parameters (some parameter_string) argv =
    if mem b' ' parameter_string
    then split_first (set argv 0 none) (tokens [] parameter_string)
    else record { ok = true; argv = set argv 0 none; argc = some 1 }

-- The inner loop of signal_handler: whether a later plugin has the same handle.
unfoldable pub shared_later : ℕ → List ℕ → Bool
shared_later handle [] = false
shared_later handle (h ∷ rest) = handle == h || shared_later handle rest

-- The handles of the output plugins that dlclose is called with, in this order.
unfoldable pub close_outputs : List ℕ → List ℕ
unfolding shared_later
close_outputs [] = []
close_outputs (handle ∷ rest) =
    let later = close_outputs rest in if shared_later handle rest then later else handle ∷ later
