-- ===== src/Tests/SymTables.antt =====
-- A group of two links: one B-tree node over one leaf.
use oxih.Base.{ℕ, ◌≡◌, refl, List, [], ◌∷◌, arith, replicate, length-replicate, inl, All}
use oxih.Bytes.{Bytes}
use oxih.Outcome.{ok}
use oxih.Format.{SnodEntry, object, group}
use oxih.Format.SnodFields.{EntryFits}
use oxih.SymTable.{SymTable, plan, plan_levels, more_levels, assign}
use oxih.SymTable.Plan.{IsPlan, plan_lem}
use oxih.SymTable.RoundTrip.{Wrote, parse-write}

abbrev two_links : List SnodEntry
two_links =
    record { name_offset = 8; value = object 96 }
    ∷ record { name_offset = 16; value = group 200 300 400 }
    ∷ []

two_links-EntryFits : All EntryFits two_links
two_links-EntryFits =
    ((omega arith, omega arith), ((omega arith, (omega arith, omega arith, omega arith)), tt))

abbrev room : Bytes
room = replicate 880 0

abbrev two_planned : SymTable
two_planned = record {
  n_links = 2;
  n_snods = 1;
  levels = 1 ∷ [];
  level_addr = 0 ∷ [];
  root_addr = 0;
  snod_base = 0;
}

planned_run : plan 2 ≡ ok two_planned
unfolding plan plan_levels more_levels
planned_run = refl

plan_example : (t : SymTable) × (plan 2 ≡ ok t) × IsPlan 2 t
plan_example = plan_lem 2 (omega arith)

symtable_example :
    (t : SymTable) × (file : Bytes) × (assign two_planned 0 544 ≡ ok t)
    × Wrote t room two_links 0 544 544 328 file
symtable_example =
    let long = length-replicate {A = ℕ} 880 0 in
    parse-write room two_links 0 544 two_planned planned_run (omega (arith, long))
      (omega (arith, long)) (inl (omega arith)) (omega (arith, long)) two_links-EntryFits
