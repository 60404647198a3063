-- ===== src/Retention.antt =====
-- monitor/src/db/cleanup.rs: what the clean-up deletes. A table is the list of its rows' timestamps in the order
-- of SQLite, where NULL comes first and texts are compared by their characters; the database maps the names of tables to them.
-- How sqlx writes the instant that it binds is a parameter. What SQLite answers about its pages is a parameter, statements succeed, and the
-- time is an argument.
-- The time of the last clean-up that a policy records is left out, because nothing here reads it.
mod Tests
pub mod Trim
pub mod SizeLimit
pub mod Expiry
use azad_server_box.Prelude.{
  ℕ, zero, suc, ◌+◌, ◌-◌, ◌*◌, ◌/◌, ◌^◌, min, max, Bool, true, false, ◌||◌, not, Option, none, some,
  List, [], ◌∷◌, if◌then◌else◌, ltb, leb, nat_beq, any, length, drop, Text, codes, text_eq, ◌==◌,
}
use azad_server_box.Prelude.Map.{Map, lookup, insert}
use azad_server_box.Prelude.Strings.{text_ltb}

-- NULL is none.
abbrev pub Timestamp : Type 0
Timestamp = Option Text

abbrev pub Database : Type 0
Database = Map Text (List Timestamp)

abbrev pub rows : Option (List Timestamp) → List Timestamp
rows none = []
rows (some r) = r

abbrev pub rows_of : Text → Database → List Timestamp
rows_of table db = rows (lookup table db)

-- `DataRetentionConfig`, as far as the clean-up reads it.
pub record DataRetentionConfig : Type 0 where
  pub metrics_days : ℕ
  pub alerts_days : ℕ
  pub max_db_size_mb : ℕ

abbrev pub min_audit_rows : ℕ
min_audit_rows = 100

abbrev pub size_capped_tables : List Text
size_capped_tables =
    codes "system_metrics"
    ∷ codes "network_totals"
    ∷ codes "component_metrics"
    ∷ codes "rule_executions"
    ∷ codes "performance_metrics"
    ∷ codes "alerts"
    ∷ codes "enhanced_alerts"
    ∷ codes "config_audit_log"
    ∷ codes "access_log"
    ∷ []

-- `PRAGMA page_count`, `freelist_count` and `page_size`
pub record Pages : Type 0 where
  pub page_count : ℕ
  pub freelist : ℕ
  pub page_size : ℕ

abbrev pub live_db_bytes : Pages → ℕ
live_db_bytes p = (p.page_count - p.freelist) * p.page_size

abbrev pub u64_max : ℕ
u64_max = 2 ^ 64 - 1

-- `max_db_size_mb.saturating_mul(1024 * 1024)`
abbrev pub max_bytes : DataRetentionConfig → ℕ
max_bytes config = min u64_max (config.max_db_size_mb * (1024 * 1024))

unfoldable pub keep_of : Text → ℕ
keep_of table =
    if table == codes "config_audit_log" || table == codes "access_log" then min_audit_rows else 0

-- The number of rows of `trim_oldest`: `MIN(count(*) / 10 + 1, MAX(count(*) - keep, 0))`.
abbrev pub trim_count : ℕ → ℕ → ℕ
trim_count keep count = min (count / 10 + 1) (count - keep)

unfoldable pub trim_oldest : Text → ℕ → Database → ℕ × Database
trim_oldest table keep db =
    let n = trim_count keep (length (rows_of table db)) in
    (n, insert table (drop n (rows_of table db)) db)

module _ (pages : Database → Pages) (limit : ℕ) where
  -- The `for` loop over the tables, which ends when the size is within the limit.
  unfoldable pub trim_round : List Text → Database → ℕ × Database
  unfolding trim_oldest keep_of
  trim_round [] db = (0, db)
  trim_round (table ∷ tables) db =
      let (deleted, trimmed) = trim_oldest table (keep_of table) db in
      let (more, last) = trim_round tables trimmed in
      if leb (live_db_bytes (pages trimmed)) limit
      then (deleted, trimmed)
      else (deleted + more, last)

  -- The outer loop, on fuel.
  unfoldable pub trim_until : List Text → ℕ → Database → Option (ℕ × Database)
  unfolding trim_round
  trim_until tables zero db = none
  trim_until tables (suc fuel) db =
      let (deleted, trimmed) = trim_round tables db in
      let rest = trim_until tables fuel trimmed in
      if leb (live_db_bytes (pages db)) limit
      then some (0, db)
      else if nat_beq deleted 0
      then some (0, trimmed)
      else elim rest [ none ↦ none | some (more, last) ↦ some (deleted + more, last) ]

module _ (pages : Database → Pages) (config : DataRetentionConfig) where
  unfoldable pub enforce_db_size_limit : ℕ → Database → Option (ℕ × Database)
  unfolding trim_until
  enforce_db_size_limit fuel db =
      if nat_beq (max_bytes config) 0
      then some (0, db)
      else trim_until pages (max_bytes config) size_capped_tables fuel db

-- `timestamp < ?`, which compares texts, and of NULL is not true.
unfoldable pub is_before : Timestamp → Text → Bool
is_before none cutoff = false
is_before (some written) cutoff = text_ltb written cutoff

-- `DELETE FROM … WHERE timestamp < …`
unfoldable pub keep_from : Text → List Timestamp → List Timestamp
unfolding is_before
keep_from cutoff [] = []
keep_from cutoff (t ∷ ts) =
    let rest = keep_from cutoff ts in if is_before t cutoff then rest else t ∷ rest

unfoldable pub delete_before : Text → Text → Database → ℕ × Database
unfolding keep_from
delete_before table cutoff db =
    let kept = keep_from cutoff (rows_of table db) in
    (length (rows_of table db) - length kept, insert table kept db)

abbrev pub policy_tables : List Text
policy_tables =
    codes "network_totals"
    ∷ codes "enhanced_alerts"
    ∷ codes "component_metrics"
    ∷ codes "rule_executions"
    ∷ codes "performance_metrics"
    ∷ codes "config_audit_log"
    ∷ codes "access_log"
    ∷ []

-- An enabled row of `retention_policies`; days that are not above zero count as none.
pub record Policy : Type 0 where
  pub table_name : Text
  pub retention_days : ℕ

unfoldable pub is_policy_table : Text → Bool
is_policy_table name = any (λ table. table == name) policy_tables

-- `Utc::now() - Duration::days(days)`
abbrev pub days_before : ℕ → ℕ → ℕ
days_before now days = now - days * 86400

module _ (bound : ℕ → Text) (now : ℕ) where
  -- One round of the loop over the policies.
  unfoldable pub apply_policy : Policy → Database → ℕ × Database
  unfolding delete_before is_policy_table
  apply_policy p db =
      if not (is_policy_table p.table_name) || leb p.retention_days 0
      then (0, db)
      else delete_before p.table_name (bound (days_before now p.retention_days)) db

  unfoldable pub cleanup_policy_tables : List Policy → Database → ℕ × Database
  unfolding apply_policy
  cleanup_policy_tables [] db = (0, db)
  cleanup_policy_tables (p ∷ policies) db =
      let (deleted, after) = apply_policy p db in
      let (total, last) = cleanup_policy_tables policies after in (deleted + total, last)

  unfoldable pub cleanup_old_metrics : DataRetentionConfig → Database → ℕ × Database
  unfolding delete_before
  cleanup_old_metrics config db =
      delete_before (codes "system_metrics") (bound (days_before now config.metrics_days)) db

  unfoldable pub cleanup_old_alerts : DataRetentionConfig → Database → ℕ × Database
  unfolding delete_before
  cleanup_old_alerts config db =
      delete_before (codes "alerts") (bound (days_before now config.alerts_days)) db

  -- The four parts of the clean-up, one behind the other.
  unfoldable pub cleanup_expired_data :
      (Database → Pages) → DataRetentionConfig → ℕ → List Policy → Database → Option (ℕ × Database)
  unfolding cleanup_old_metrics cleanup_old_alerts cleanup_policy_tables enforce_db_size_limit
  cleanup_expired_data pages config fuel policies db =
      let (metrics, a) = cleanup_old_metrics config db in
      let (alerts, b) = cleanup_old_alerts config a in
      let (policy, c) = cleanup_policy_tables policies b in
      elim (enforce_db_size_limit pages config fuel c) [
        | none ↦ none
        | some (capped, d) ↦ some (metrics + alerts + policy + capped, d)
      ]
