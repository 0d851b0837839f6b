-- ===== src/Ops/Alerts/Table.antt =====
-- tools/ops/stack_alert_monitor.py: the table `incidents` and its statements.
use agent_workload_platform.Prelude.{
  ℕ, String, ◌≡◌, refl, Bool, true, false, not, ◌&&◌, Option, none, some, List, [], ◌∷◌, arith,
  ◌==◌, eq_iff, if◌then◌else◌, map_option,
}

pub record Incident : Type 0 where
  pub first_seen : ℕ
  pub last_seen : ℕ
  pub last_submitted : Option ℕ
  pub active : Bool
  pub submitted : Bool
  pub instruction : String

abbrev pub Database : Type 0
Database = List (String × Incident)

-- SELECT ... WHERE key=?
unfoldable pub select : String → Database → Option Incident
select k [] = none
select k ((j, row) ∷ rest) = if j == k then some row else select k rest

-- INSERT OR REPLACE
unfoldable pub replace : String → Incident → Database → Database
replace k row [] = (k, row) ∷ []
replace k row ((j, old) ∷ rest) = if j == k then (k, row) ∷ rest else (j, old) ∷ replace k row rest

abbrev pub mark : ℕ → Incident → Incident
mark now row = record row { submitted = true; last_submitted = some now }

-- UPDATE incidents SET submitted=1, last_submitted=? WHERE key=?
unfoldable pub set_submitted : String → ℕ → Database → Database
set_submitted k now [] = []
set_submitted k now ((j, row) ∷ rest) =
    (if j == k then (j, mark now row) else (j, row)) ∷ set_submitted k now rest

abbrev pub retired : Bool → Incident → Incident
retired seen row = if row.active && not seen then record row { active = false } else row

-- UPDATE incidents SET active=0 for the active rows whose key is not among those seen
unfoldable pub deactivate_missing : (String → Bool) → Database → Database
deactivate_missing seen [] = []
deactivate_missing seen ((j, row) ∷ rest) = (j, retired (seen j) row) ∷ deactivate_missing seen rest

pub select-replace :
    (k j : String) (row : Incident) (db : Database)
    → select j (replace k row db) ≡ (if k == j then some row else select j db)
unfolding select replace
select-replace k j row [] = refl
select-replace k j row ((i, old) ∷ rest) =
    ground (arith, eq_iff k j, eq_iff i k, eq_iff i j, select-replace k j row rest)

pub select-set_submitted :
    (k j : String) (now : ℕ) (db : Database)
    → select j (set_submitted k now db)
      ≡ (if k == j then map_option (mark now) (select j db) else select j db)
unfolding select set_submitted
select-set_submitted k j now [] = ground arith
select-set_submitted k j now ((i, row) ∷ rest) =
    ground (arith, eq_iff k j, eq_iff i k, eq_iff i j, select-set_submitted k j now rest)

pub select-deactivate_missing :
    (seen : String → Bool) (j : String) (db : Database)
    → select j (deactivate_missing seen db) ≡ map_option (retired (seen j)) (select j db)
unfolding select deactivate_missing
select-deactivate_missing seen j [] = refl
select-deactivate_missing seen j ((i, row) ∷ rest) =
    ground (arith, eq_iff i j, select-deactivate_missing seen j rest)
