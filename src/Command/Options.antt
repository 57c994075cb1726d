-- ===== src/Command/Options.antt =====
-- The options of cmd/snmptune/main.go, and what `parse` accepts. A negative number on the command line
-- is a 0 here: the program treats the two alike.
use snmptune.Prelude.{
  ℕ, Bool, true, false, ◌&&◌, ◌||◌, not, Option, none, some, List, [], ◌∷◌, ◌++◌, ltb,
  if◌then◌else◌,
}
use snmptune.Text.{Text, codes, text_eq}
use snmptune.Walk.{Settings}
use snmptune.Float.{FloatOps}
use snmptune.Report.{default_mtu}
use snmptune.Safety.{Budget, defaults}
use snmptune.Search.Plan
use snmptune.Search
use snmptune.Text.{is_named}
use snmptune.Command.Setting.{setting_of}

-- `options`.
pub record Options (F : Type 0) : Type 0 where
  pub target : Text
  pub community : Text
  pub group : Text
  pub reference_tree : Text
  pub format : Text
  pub pdu_log : Text
  pub color : Text
  pub port : ℕ
  pub retries : ℕ
  pub mtu : ℕ
  pub timeout : ℕ
  pub oids : List Text
  pub tries : List Text
  pub settings : List Settings
  pub budget : Budget
  pub search : Search.Options F
  pub dry_run : Bool
  pub json_out : Bool
  pub show_version : Bool

-- The errors that `parse` returns.
pub data UsageError : Type 0 where
  bad_flags no_target no_workload : UsageError
  unknown_format unknown_color : Text → UsageError
  too_few_repeats : UsageError
  mtu_too_small port_out_of_range : ℕ → UsageError
  bad_try : Text → UsageError

pub data Parsed (F : Type 0) : Type 0 where
  refused : UsageError → Parsed F
  accepted : Options F → Parsed F

unfoldable pub is_empty : List Text → Bool
is_empty [] = true
is_empty (t ∷ ts) = false

unfoldable pub is_format : Text → Bool
is_format t = text_eq t (codes "text") || text_eq t (codes "opennms")

unfoldable pub is_color : Text → Bool
is_color t = text_eq t (codes "auto") || text_eq t (codes "always") || text_eq t (codes "never")

module _ {F : Type 0} where
  unfoldable pub add_setting : Options F → Settings → Options F
  add_setting o s = record o { settings = o.settings ++ s ∷ [] }

  -- The loop over `tries`.
  unfoldable pub read_tries : Options F → List Text → Parsed F
  read_tries o [] = accepted o
  read_tries o (t ∷ ts) = elim (setting_of t) [
    | none ↦ refused (bad_try t)
    | some s ↦ read_tries (add_setting o s) ts
  ]

  -- `parse` behind `fs.Parse`.
  unfoldable pub validate : Options F → Parsed F
  validate o =
      if o.show_version
      then accepted o
      else if not (is_named o.target)
      then refused no_target
      else if is_empty o.oids && not (is_named o.group)
      then refused no_workload
      else if not (is_format o.format)
      then refused (unknown_format o.format)
      else if ltb o.search.repeats 1
      then refused too_few_repeats
      else if not (is_color o.color)
      then refused (unknown_color o.color)
      else if ltb o.mtu 576
      then refused (mtu_too_small o.mtu)
      else if ltb o.port 1 || ltb 65535 o.port
      then refused (port_out_of_range o.port)
      else read_tries o o.tries

  -- `parse`. `fs.Parse` gives the options that the arguments set over the defaults, or an error.
  unfoldable pub parse : Option (Options F) → Parsed F
  parse none = refused bad_flags
  parse (some o) = validate o

-- The options that no argument sets.
unfoldable pub default_options : (float : FloatOps) → Options (FloatOps.F float)
default_options float = record {
  target = [];
  community = codes "public";
  group = [];
  reference_tree = [];
  format = codes "text";
  pdu_log = [];
  color = codes "auto";
  port = 161;
  retries = 1;
  mtu = default_mtu;
  timeout = 3_000_000_000;
  oids = [];
  tries = [];
  settings = [];
  budget = defaults;
  search = Plan.default_options float;
  dry_run = false;
  json_out = false;
  show_version = false;
}
