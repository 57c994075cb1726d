-- ===== src/Lib.antt =====
-- snmptune finds the max-repetitions and max-vars-per-pdu at which an SNMP agent answers GetBulk
-- requests fastest without failing. A run measures a baseline of the agent's sysUpTime
-- (`safety.NewCanary`), walks the reference (`inventory.Walk`), derives a workload, tries settings
-- (`search.Runner.Run`, or `Measure` for named ones) and recommends one (`report.recommend`). A
-- trial walks the workload several times (`walk.Run`), with a canary probe before each repeat. The
-- command (`run` of main.go) checks its options and puts these together.
--
-- The parts, by file of the repository:
--   internal/oid/oid.go              Oid: Parse, CompareArcs, HasPrefix, SkipTarget, Format
--   internal/agent/agent.go          Agent: the data, and the record `Environment`
--   internal/agent/gosnmp.go         Agent/Gosnmp: do, convert
--   internal/agent/sim/sim.go        Agent/Sim: Get, GetNext, GetBulk, Set, AddTable
--   internal/safety/safety.go        Safety: NewCanary, Probe, Exhausted, Cooldown
--   internal/inventory/inventory.go  Inventory and Inventory/Walk: Walk, parentOf, inferColumns
--   internal/workload/workload.go    Workload: the data, WidestTable, Roots; Workload/Inventory:
--                                    FromInventory, IsWholeTree; Workload/Group: SplitGroupArg,
--                                    FromDatacollection
--   internal/walk/walk.go            Walk: PDU, Result, send, Missing; Walk/Table: table, scalars;
--                                    Walk/Run: Run
--   internal/search/search.go        Search: the data, Peak, score, splitCandidates;
--                                    Search/Reference: referenceOIDs; Search/Trials: trial, record,
--                                    abort, interrupted; Search/Phases: init, Run, Measure,
--                                    finalProbe; Search/Plan: Plan, DefaultOptions
--   internal/report/report.go        Report: recommend, Fragments, SuggestTimeout, percentile;
--                                    Report/View: Build, JSON; Report/Lines: Text, OpenNMS
--   cmd/snmptune/main.go             Command/Options and Command/Setting: parse; Command/Prepare
--                                    and Command/Main: run
-- Prelude, Text, Slices and Exec hold what these share: naturals and lists, the functions of the Go
-- packages strings, strconv, fmt and slices that the code calls, and what a call that loops or panics
-- returns. Examples holds concrete inputs.
--
-- How code and model correspond. A method that changes its receiver is a function that returns it
-- changed; a Go function with several loops is one definition for each loop and for each block behind
-- a loop, with the names of the code's variables. `Environment` stands for the transport, the context,
-- the clock and the sleep: each call is given a world and returns the next one, so the sequence of
-- the calls is the code's, and nothing is assumed of the answers unless a hypothesis says so.
-- `Agent.Deadline` is such a hypothesis: what `context.WithTimeout` gives a run. `Agent.Served` is
-- another: an agent that answers GetBulk as the protocol says. `FloatOps` stands
-- for float64. A field that holds the empty text for none is an option or a list; a text that only a
-- person reads is a constructor with the values that it shows. Result.Failure is the list of the
-- texts that the code joins, none of which is empty. A loop that the input does not bound has fuel,
-- and `Exec` tells a result, a panic and missing fuel apart. A walk spends one unit of fuel for each
-- request, so with a deadline the time that remains bounds it. The escalation of the search doubles
-- its repetitions until their product exceeds MaxProduct, and the bisection narrows a range below
-- that, so that more steps than MaxProduct are enough for either, and for the ladder of `Plan`.
-- `Command.Main.Host` stands for the files, the XML and JSON packages, the dialling and the terminal
-- that the command uses; a file is read and parsed into the tree of its elements. The lines that the
-- command warns with come with its ending.
--
-- Numbers are naturals. A uint32 wraps as in Go, written `% u32_mod`. An int is taken not to
-- overflow its 64 bits, and the counts, sizes, durations and settings that the program handles not
-- to be negative. Only a setting of `--try` can have a product of 2^63 or more, which wraps in Go and
-- not here: such settings are outside the model, and a statement about requested settings says so. A
-- difference of two clock readings is one of a monotonic clock. A runner is used
-- for one run, as the program does, so that the fields that `init` does not set start at zero.
--
-- Not modelled: how the gosnmp transport sets up and closes its library, which is a parameter; the
-- flag package, whose result `parse` takes; the logger's JSON, `Summary` and the progress messages;
-- the fixed wording, padding and rounding of what is printed; the lock of the simulated agent, which
-- has one user at a time. Texts for `--try` are taken to be ASCII.
pub mod Prelude
pub mod Text
pub mod Oid
pub mod Agent
pub mod Command
pub mod Slices
pub mod Safety
pub mod Exec
pub mod Float
pub mod Workload
pub mod Walk
pub mod Inventory
pub mod Search
pub mod Report
pub mod Examples
