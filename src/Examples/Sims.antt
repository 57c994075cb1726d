-- ===== src/Examples/Sims.antt =====
-- The theorems about a well-behaved agent, at a simulated one that sends one row at a time.
use snmptune.Prelude.{refl, [], ◌∷◌, List, arith}
use snmptune.Text
use snmptune.Text.{Text, codes}
use snmptune.Oid
use snmptune.Exec.{Ends}
use snmptune.Agent.{uint32, is_end}
use snmptune.Agent.Served.{IsSorted}
use snmptune.Agent.Sim.{SimAgent, new, find, value_or}
use snmptune.Agent.Sim.Plain.{IsPlain}
use snmptune.Agent.Sim.Protocol.{sim_env, sim_env-Serves}
use snmptune.Inventory.Walk.{walk}
use snmptune.Inventory.Walk.Found.{AllFound, walk-AllFound}

abbrev table : List Text
table = codes "1.3.9.1" ∷ codes "1.3.9.2" ∷ codes "1.4.1" ∷ []

abbrev table_arcs : List Oid.Arcs
table_arcs = (1 ∷ 3 ∷ 9 ∷ 1 ∷ []) ∷ (1 ∷ 3 ∷ 9 ∷ 2 ∷ []) ∷ (1 ∷ 4 ∷ 1 ∷ []) ∷ []

table-IsSorted : IsSorted table
unfolding Oid.parse Oid.compare_arcs Text.trim_dot Text.split Text.parse_uint
table-IsSorted = ((refl, (refl, tt)), ((refl, tt), (tt, tt)))

abbrev sim_agent : SimAgent
unfolding new
sim_agent = record new {
  max_rows = 1;
  restart_after = 2;
  keys = table;
  arcs = table_arcs;
  values =
      (codes "1.3.9.1", uint32 1) ∷ (codes "1.3.9.2", uint32 2) ∷ (codes "1.4.1", uint32 3) ∷ [];
}

sim_agent-IsPlain : IsPlain table sim_agent
unfolding new Oid.parse Text.trim_dot Text.split Text.parse_uint find value_or Text.text_eq is_end
sim_agent-IsPlain = record {
  no_loop = refl;
  no_misorder = refl;
  no_error = refl;
  no_limit = refl;
  prompt = λ n. refl;
  keys = refl;
  arcs = refl;
  values = (refl, (refl, (refl, tt)));
}

walk-AllFound_example :
    Ends
      (AllFound
        (sim_env table table-IsSorted)
        table
        (sim_env-Serves table table-IsSorted)
        (codes "1.3.9" ∷ []))
      (walk (sim_env table table-IsSorted) 4 0 (codes "1.3.9" ∷ []) (sim_agent, sim_agent-IsPlain))
walk-AllFound_example =
    walk-AllFound (sim_env table table-IsSorted) table (sim_env-Serves table table-IsSorted) 4
      (codes "1.3.9" ∷ []) (sim_agent, sim_agent-IsPlain) (omega arith)
