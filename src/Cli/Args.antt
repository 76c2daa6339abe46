-- ===== src/Cli/Args.antt =====
-- src/main.rs `main`: the options of a compilation; src/lib.rs: `Config`. Reading a configuration file is a
-- parameter, whose error is the message that is printed.
use llmlang.Prelude.{
  ℕ, Bool, true, false, ◌||◌, Text, codes, text_eq, List, [], ◌∷◌, ◌++◌, Option, none, some,
  if◌then◌else◌, parse_usize, starts_with,
}
use llmlang.Error.{Result, ok, err}

pub record Config : Type 0 where
  pub parallel_threshold : ℕ
  pub max_threads : ℕ
  pub queue_size : ℕ

unfoldable pub default_config : Config
default_config = record { parallel_threshold = 50; max_threads = 8; queue_size = 64 }

pub record Options : Type 0 where
  pub input_path : Option Text
  pub output_path : Option Text
  pub emit_ir : Bool
  pub emit_sig : Bool
  pub config : Config
  pub import_paths : List Text

unfoldable pub no_options : Options
unfolding default_config
no_options = record {
  input_path = none;
  output_path = none;
  emit_ir = false;
  emit_sig = false;
  config = default_config;
  import_paths = [];
}

-- How a run ends: with the help or the version and the exit code 0, or with a message and the code 1.
pub data Exit : Type 0 where
  help version : Exit
  failure : Text → Exit

-- How a command ends: with an exit code, or by a panic. `out_of_fuel` has no counterpart in the code.
pub data Ended : Type 0 where
  exit : ℕ → Ended
  panicked out_of_fuel : Ended

unfoldable pub usize_or : ℕ → Text → ℕ
unfolding parse_usize
usize_or default t = elim (parse_usize t) [ none ↦ default | some n ↦ n ]

module _ (read_config : Text → Result Text Config) where
  abbrev pub takes_value : Text → Bool
  takes_value a =
      text_eq a (codes "-o")
      || text_eq a (codes "-c")
      || text_eq a (codes "--config")
      || text_eq a (codes "-I")
      || text_eq a (codes "--parallel")
      || text_eq a (codes "--threads")
      || text_eq a (codes "--queue")

  unfoldable pub with_config : Options → Result Text Config → Result Exit Options
  with_config o (ok c) = ok (record o { config = c })
  with_config o (err e) = err (Exit.failure e)

  unfoldable pub set_threads : Text → Options → Options
  unfolding usize_or
  set_threads v o =
      let c = o.config in record o { config = record c { max_threads = usize_or 8 v } }

  unfoldable pub set_queue : Text → Options → Options
  unfolding usize_or
  set_queue v o = let c = o.config in record o { config = record c { queue_size = usize_or 64 v } }

  unfoldable pub set_parallel : Text → Options → Options
  unfolding usize_or
  set_parallel v o =
      let c = o.config in record o { config = record c { parallel_threshold = usize_or 50 v } }

  -- An option with its value.
  unfoldable pub set_value : Text → Text → Options → Result Exit Options
  unfolding text_eq with_config set_threads set_queue set_parallel
  set_value a v o =
      if text_eq a (codes "-o")
      then ok (record o { output_path = some v })
      else if text_eq a (codes "-c") || text_eq a (codes "--config")
      then with_config o (read_config v)
      else if text_eq a (codes "-I")
      then ok (record o { import_paths = o.import_paths ++ (v ∷ []) })
      else if text_eq a (codes "--parallel")
      then ok (set_parallel v o)
      else if text_eq a (codes "--threads")
      then ok (set_threads v o)
      else ok (set_queue v o)

  -- An argument that takes no value.
  unfoldable pub set_flag : Text → Options → Result Exit Options
  unfolding text_eq starts_with
  set_flag a o =
      if text_eq a (codes "-h") || text_eq a (codes "--help")
      then err Exit.help
      else if text_eq a (codes "-V") || text_eq a (codes "--version")
      then err Exit.version
      else if text_eq a (codes "--emit-ir") || text_eq a (codes "-S")
      then ok (record o { emit_ir = true })
      else if text_eq a (codes "--emit-sig")
      then ok (record o { emit_sig = true })
      else if starts_with (codes "-") a
      then err (Exit.failure (codes "Unknown argument: " ++ a))
      else ok (record o { input_path = some a })

  -- The arguments from one on. An option at the end without its value is passed over.
  unfoldable pub parse_options : List Text → Options → Result Exit Options
  unfolding text_eq set_value set_flag
  parse_options [] o = ok o
  parse_options (a ∷ []) o = if takes_value a then ok o else set_flag a o
  parse_options (a ∷ v ∷ rest) o =
      let valued : Result Exit Options = elim (set_value a v o) [
        | ok o' ↦ parse_options rest o'
        | err e ↦ err e
      ] in
      let flagged : Result Exit Options = elim (set_flag a o) [
        | ok o' ↦ parse_options (v ∷ rest) o'
        | err e ↦ err e
      ] in
      if takes_value a then valued else flagged
