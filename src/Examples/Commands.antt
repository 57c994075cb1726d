-- ===== src/Examples/Commands.antt =====
-- The theorems about the command line, at small options and a host that always succeeds.
use snmptune.Prelude.{
  ℕ, ◌*◌, ◌^◌, ◌≤◌, ◌<◌, ◌≡◌, ◌↔◌, ◌∙◌, refl, sym, ap, subst, true, false, none, some, List, [],
  ◌∷◌, ◌++◌, min, inl, inr, arith, All, Any,
}
use snmptune.Text.{Text, codes, u32_mod, format_uint}
use snmptune.Oid
use snmptune.Exec.{out_of_fuel, Ends}
use snmptune.Float.{fixed_point}
use snmptune.Slices.Sorted.{ltb-WeakOrder}
use snmptune.Inventory.{Inventory}
use snmptune.Workload.{Table, Workload, widest_table}
use snmptune.Workload.Group.{node, nil, content, Loaded, loaded, empty_workload}
use snmptune.Safety.{Budget, defaults}
use snmptune.Search.{Runner, ok, start}
use snmptune.Search.Phases.{init, start_vars}
use snmptune.Search.Plan.{Plan, plan}
use snmptune.Search.Ladder.{IsLadder, plan-IsLadder, plan-out_of_fuel}
use snmptune.Command.Setting
use snmptune.Command.Setting.{setting_of}
use snmptune.Command.Options
use snmptune.Command.Options.{Options, Parsed, refused, accepted, validate, parse}
use snmptune.Command.Prepare.{trial_tables, with_canonical, load_group}
use snmptune.Command.Main.{Host, run, exit_code, after_search, make_report}
use snmptune.Command.Checked.{IsAccepted, IsUsable, validate-IsUsable}
use snmptune.Command.Complete.{IsFinished, trial_tables-IsFinished}
use snmptune.Command.Ends.{Fine, RunEnd, run-RunEnd}
use snmptune.Command.Exits.{IsPrintable, after_search-code}
use snmptune.Command.Tries.{setting_of-format_uint}
use snmptune.Command.TryBounds.{setting_of-bounds}
use snmptune.Examples.Agents.{small_agent, small_deadline, ten_requests, canary, fresh_tracker}
use snmptune.Examples.Searches.{workload, options, reference, outcome}

abbrev host : Host small_agent fixed_point
host = record {
  read_file = λ path. content [];
  unmarshal = λ raw. content (node [] [] [] [] nil);
  open_log = λ path w. (none, w);
  with_timeout = λ d w. min d w;
  dial = λ c w. (none, w);
  marshal_error = λ v. none;
  is_terminal = false;
}

abbrev args : Options ℕ
args = record {
  target = codes "192.0.2.1";
  community = codes "public";
  group = [];
  reference_tree = [];
  format = codes "text";
  pdu_log = [];
  color = codes "never";
  port = 161;
  retries = 1;
  mtu = 1500;
  timeout = 3_000_000_000;
  oids = codes "1.3.6.1.9" ∷ [];
  tries = [];
  settings = [];
  budget = record { max_duration = 10; max_trials = 2; max_product = 40; max_oids = 100 };
  search = options;
  dry_run = false;
  json_out = false;
  show_version = false;
}

parse-args : parse (some args) ≡ accepted args
unfolding parse validate Options.is_empty Options.is_format Options.is_color Options.read_tries
    snmptune.Text.text_eq
parse-args = refl

abbrev accepted_options : Parsed ℕ → Options ℕ
accepted_options (refused e) = args
accepted_options (accepted o) = o

abbrev loaded_workload : Loaded → Workload
loaded_workload (loaded w) = w
loaded_workload _ = empty_workload

no_group_loaded :
    load_group (Host.read_file host) (Host.unmarshal host) (with_canonical args)
    ≡ loaded empty_workload
unfolding load_group with_canonical
no_group_loaded = refl

one_root : Oid.canonical (codes "1.3.6.1.9") ≡ codes "1.3.6.1.9"
unfolding Oid.canonical snmptune.Text.trim_dot
one_root = refl

no_tree : Oid.canonical [] ≡ []
unfolding Oid.canonical snmptune.Text.trim_dot
no_tree = refl

args-Fine : Fine small_agent small_deadline fixed_point host 11 50 args
unfolding snmptune.Workload.roots
args-Fine = record {
  timed = omega arith;
  in_time = omega arith;
  small = omega arith;
  enough = omega arith;
  oids = (rw one_root (omega arith), tt);
  tree = rw no_tree (λ e. cc);
  group = λ g e. rw⁻¹ (loaded_same g e) (tt, tt);
}
  where
    loaded_same :
        (g : Workload)
        → load_group (Host.read_file host) (Host.unmarshal host) (with_canonical args) ≡ loaded g
        → empty_workload ≡ g
    loaded_same g e = ap loaded_workload (sym no_group_loaded ∙ e)

run-RunEnd_example :
    Ends
      (RunEnd small_agent small_deadline fixed_point host 11 50 (parse (some args)))
      (run small_agent fixed_point host 11 50 (some args) ten_requests)
run-RunEnd_example =
    run-RunEnd small_agent small_deadline fixed_point host 11 50 (λ c w. omega arith)
      (λ d w. omega arith) (some args)
      (λ o e.
        subst (Fine small_agent small_deadline fixed_point host 11 50)
          (ap accepted_options (sym parse-args ∙ e)) args-Fine)
      ten_requests

validate-IsUsable_example : IsAccepted (validate args) ↔ IsUsable args
validate-IsUsable_example = validate-IsUsable args refl

setting_of-format_uint_example :
    setting_of (format_uint 4 ++ b':' ∷ (format_uint 10 ++ codes "x"))
    ≡ some (record { max_repetitions = 4; max_vars_per_pdu = 10 })
setting_of-format_uint_example =
    setting_of-format_uint 4 10 (codes "x") (omega arith) (omega arith) (omega arith) (omega arith)
      refl

four_ten : setting_of (codes "4:+10") ≡ some (record { max_repetitions = 4; max_vars_per_pdu = 10 })
unfolding setting_of Setting.sscanf Setting.scan_uint32 Setting.skip_space Setting.scan_number
    Setting.scan_digits Setting.below Setting.after_reps Setting.scan_int Setting.scan_signed
four_ten = refl

setting_of-bounds_example : (1 ≤ 4) × (4 < u32_mod) × (1 ≤ 10) × (10 < 2 ^ 63)
setting_of-bounds_example =
    setting_of-bounds (codes "4:+10") (record { max_repetitions = 4; max_vars_per_pdu = 10 })
      four_ten

abbrev half_walked : Inventory
half_walked = record reference {
  subtrees =
      reference.subtrees
      ++ record {
        root = codes "1.3.6.1.2";
        oids = [];
        bytes = 0;
        columns = [];
        skipped = [];
        partial = true;
      }
        ∷ [];
}

abbrev group_tables : List Table
group_tables = record { base = codes "1.3.6.1.2"; columns = codes "1.3.6.1.2.1.1" ∷ [] } ∷ []

trial_tables-IsFinished_example :
    All
      (λ t. IsFinished half_walked.subtrees t.base)
      (trial_tables (codes "1.3.6.1.9" ∷ []) half_walked group_tables)
trial_tables-IsFinished_example =
    trial_tables-IsFinished (codes "1.3.6.1.9" ∷ []) half_walked group_tables (inr (inl refl), tt)

plan-IsLadder_example :
    Ends
      (λ (p : Plan ℕ).
        IsLadder 1000 (start_vars (widest_table workload)) start.max_repetitions p.ladder)
      (plan 1001 workload defaults options)
unfolding defaults
plan-IsLadder_example = plan-IsLadder 1001 workload defaults options (omega arith) (omega arith)

abbrev huge : Budget
huge = record { max_duration = 0; max_trials = 0; max_product = 42_949_672_960; max_oids = 0 }

huge_enough : u32_mod * start_vars (widest_table workload) ≤ 42_949_672_960
unfolding start_vars widest_table
huge_enough = omega arith

plan-out_of_fuel_example : plan 100 workload huge options ≡ out_of_fuel
plan-out_of_fuel_example = plan-out_of_fuel workload huge options huge_enough 100

abbrev searched : Runner ℕ
searched = record (init 41 reference workload canary fresh_tracker) { out = outcome }

after_search-code_example :
    (exit_code (after_search small_agent fixed_point host 11 50 args reference [] (searched, 3)).0
      ≡ 0)
    ↔ (((outcome.aborted ≡ none) × Any (λ t. ok t ≡ true) outcome.trials)
        × IsPrintable small_agent fixed_point host args
            (make_report small_agent fixed_point host 11 50 args reference outcome))
after_search-code_example =
    after_search-code small_agent fixed_point host ltb-WeakOrder 11 50 args reference [] searched 3
