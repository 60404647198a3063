-- ===== src/Retention/Tests.antt =====
-- Inputs for cleanup.rs.
use azad_server_box.Prelude.{
  ℕ, ◌≡◌, ◌⊎◌, refl, Option, none, some, List, [], ◌∷◌, Text, codes, text_eq, arith,
}
use azad_server_box.Prelude.Map.{lookup, insert}
use azad_server_box.Retention.{
  Database, DataRetentionConfig, Pages, Policy, Timestamp, enforce_db_size_limit,
  cleanup_policy_tables, rows_of, keep_from, is_before, max_bytes, size_capped_tables,
}
use azad_server_box.Retention.Trim.{total_rows}
use azad_server_box.Retention.SizeLimit.{Ends, Keeps100, enforce-Ends}
use azad_server_box.Retention.Expiry.{survivors, policies-rows}

abbrev oldest : Timestamp
oldest = some (codes "2026-01-01 00:00:00")

abbrev late : Timestamp
late = some (codes "2026-01-02 23:00:00")

abbrev newest : Timestamp
newest = some (codes "2026-01-03 00:00:00")

abbrev database : Database
database =
    (codes "alerts", oldest ∷ late ∷ newest ∷ [])
    ∷ (codes "access_log", none ∷ oldest ∷ late ∷ newest ∷ [])
    ∷ (codes "users", oldest ∷ [])
    ∷ []

-- A page of a megabyte for each row.
abbrev pages : Database → Pages
pages db = record { page_count = total_rows db; freelist = 0; page_size = 1048576 }

abbrev config : DataRetentionConfig
config = record { metrics_days = 1; alerts_days = 1; max_db_size_mb = 6 }

abbrev left_of : Text → Option (ℕ × Database) → List Timestamp
left_of table none = []
left_of table (some r) = rows_of table r.1

oldest_alerts_go :
    left_of (codes "alerts") (enforce_db_size_limit pages config 9 database) ≡ newest ∷ []
unfolding enforce_db_size_limit lookup insert
oldest_alerts_go = refl

enforce-Ends_example :
    (r : ℕ × Database) × (enforce_db_size_limit pages config 9 database ≡ some r)
    × (((max_bytes config ≡ 0) × (r ≡ (0, database)))
        ⊎ (Ends pages (max_bytes config) size_capped_tables database r
            × Keeps100 (codes "config_audit_log") database r.1
            × Keeps100 (codes "access_log") database r.1))
unfolding lookup
enforce-Ends_example = enforce-Ends pages config 9 database (refl, (refl, (refl, tt))) (omega arith)

abbrev policies : List Policy
policies =
    record { table_name = codes "access_log"; retention_days = 1 }
    ∷ record { table_name = codes "users"; retention_days = 1 }
    ∷ []

-- One in the morning of the second of January, as an instant is bound.
abbrev bound : ℕ → Text
bound instant = codes "2026-01-02T01:00:00+00:00"

policies-rows_example :
    rows_of (codes "access_log") (cleanup_policy_tables bound 100000 policies database).1
    ≡ survivors bound 100000 (codes "access_log") policies (none ∷ oldest ∷ late ∷ newest ∷ [])
unfolding lookup
policies-rows_example = policies-rows bound 100000 policies database (codes "access_log")

-- A row that is 22 hours newer than the cutoff is deleted: a blank comes before a T.
newer_row_deleted :
    rows_of (codes "access_log") (cleanup_policy_tables bound 100000 policies database).1
    ≡ none ∷ newest ∷ []
unfolding cleanup_policy_tables lookup insert keep_from is_before
newer_row_deleted = refl

users_stay :
    rows_of (codes "users") (cleanup_policy_tables bound 100000 policies database).1 ≡ oldest ∷ []
unfolding cleanup_policy_tables lookup insert
users_stay = refl
