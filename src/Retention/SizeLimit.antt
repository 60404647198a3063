-- ===== src/Retention/SizeLimit.antt =====
-- The size limit of monitor/src/db/cleanup.rs: the loop ends, and what it leaves.
use azad_server_box.Prelude.{
  ℕ, zero, suc, ◌+◌, ◌<◌, ◌≤◌, ◌≡◌, refl, ap, min, length, length-drop, codes, Bool-cases, inl, inr,
  ◌⊎◌, some, List, leb, leb→le, nat_beq, nat_beq_iff, Text, text_eq, arith,
}
use azad_server_box.Prelude.Map.{Distinct}
use azad_server_box.Retention.{
  Database, DataRetentionConfig, rows_of, Pages, live_db_bytes, keep_of, size_capped_tables,
  trim_round, trim_until, enforce_db_size_limit, max_bytes,
}
use azad_server_box.Retention.Trim.{
  IsTrimmed, IsTrimmed-refl, IsTrimmed-chain, total_rows, trim_round-IsTrimmed, trim_round-Distinct,
  total_rows-trim_round, IsSettled, trim_round_none,
}

-- How a run of the loop ends: settled, with the count of what is gone, and each table trimmed.
abbrev pub Ends : (Database → Pages) → ℕ → List Text → Database → ℕ × Database → Type 0
Ends pages limit tables db r =
    IsSettled pages limit tables r.1
    × (r.0 + total_rows r.1 ≡ total_rows db)
    × ((t : Text) → IsTrimmed (keep_of t) (rows_of t db) (rows_of t r.1))

module _ (pages : Database → Pages) (limit : ℕ) (tables : List Text) where
  trim_until-Ends :
      (fuel : ℕ) (db : Database)
      → Distinct db
      → total_rows db < fuel
      → (r : ℕ × Database) × (trim_until pages limit tables fuel db ≡ some r)
        × Ends pages limit tables db r
  unfolding trim_until
  trim_until-Ends zero db d h = absurd (omega arith)
  trim_until-Ends (suc fuel) db d h = elim (Bool-cases (leb (live_db_bytes (pages db)) limit)) [
    | inl e ↦ (
      (0, db),
      rw e refl,
      (inl (leb→le _ _ e), omega arith, λ t. IsTrimmed-refl (keep_of t) (rows_of t db)),
    )
    | inr e ↦
        let r = trim_round pages limit tables db in
        let counted = total_rows-trim_round pages limit tables db d in
        let kept = λ (t : Text). trim_round-IsTrimmed pages limit tables t db in
        elim (Bool-cases (nat_beq r.0 0)) [
          | inl n ↦
              let nothing : r.0 ≡ 0 = (nat_beq_iff r.0 0).0 n in
              (
                (0, r.1),
                rw (e, n) refl,
                (
                  trim_round_none pages limit tables db nothing,
                  omega (arith, counted, nothing),
                  kept,
                ),
              )
          | inr n ↦
              let fewer : total_rows r.1 < fuel = ground (arith, n, counted) in
              let (last, found, ends) =
                trim_until-Ends fuel r.1 (trim_round-Distinct pages limit tables db d) fewer in
              (
                (r.0 + last.0, last.1),
                rw (e, n, found) refl,
                (
                  ends.0,
                  omega (arith, counted, ends.1),
                  λ t. IsTrimmed-chain (keep_of t) _ _ _ (kept t) (ends.2 t),
                ),
              )
        ]
  ]

-- Of a table at least 100 rows are left where there were as many.
abbrev pub Keeps100 : Text → Database → Database → Type 0
Keeps100 table before after = min 100 (length (rows_of table before)) ≤ length (rows_of table after)

Keeps100-trimmed :
    (table : Text) (before after : Database)
    → keep_of table ≡ 100
    → IsTrimmed (keep_of table) (rows_of table before) (rows_of table after)
    → Keeps100 table before after
Keeps100-trimmed table before after k (n, e, l) =
    omega (arith, k, l, ap length e, length-drop n (rows_of table before))

-- With more fuel than there are rows the enforcement of the size limit ends, and then: nothing was done, because the limit is off; or the
-- database is within the limit or holds no row that may be deleted, the number it returns is that of the rows that are
-- gone, of each table the rows that come last in the order of their timestamps are left, and of `config_audit_log` and
-- `access_log` at least 100 where there were as many.
pub enforce-Ends :
    (pages : Database → Pages) (config : DataRetentionConfig) (fuel : ℕ) (db : Database)
    → Distinct db
    → total_rows db < fuel
    → (r : ℕ × Database) × (enforce_db_size_limit pages config fuel db ≡ some r)
      × (((max_bytes config ≡ 0) × (r ≡ (0, db)))
          ⊎ (Ends pages (max_bytes config) size_capped_tables db r
              × Keeps100 (codes "config_audit_log") db r.1
              × Keeps100 (codes "access_log") db r.1))
unfolding enforce_db_size_limit keep_of
enforce-Ends pages config fuel db d h = elim (Bool-cases (nat_beq (max_bytes config) 0)) [
  | inl e ↦ ((0, db), rw e refl, inl ((nat_beq_iff (max_bytes config) 0).0 e, refl))
  | inr e ↦
      let (r, found, ends) =
        trim_until-Ends pages (max_bytes config) size_capped_tables fuel db d h in
      (
        r,
        rw e found,
        inr (
          ends,
          Keeps100-trimmed (codes "config_audit_log") db r.1 refl
              (ends.2 (codes "config_audit_log")),
          Keeps100-trimmed (codes "access_log") db r.1 refl (ends.2 (codes "access_log")),
        ),
      )
]
