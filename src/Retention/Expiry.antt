-- ===== src/Retention/Expiry.antt =====
-- The policies of monitor/src/db/cleanup.rs: which rows they delete, and from which tables.
use azad_server_box.Prelude.Strings.{text_ltb}
use azad_server_box.Prelude.{
  any, codes, ltb, none, some, arith, ℕ, ◌≡◌, refl, sym, ap, subst, ◌∙◌, Bool, true, false, not,
  ◌||◌, ◌&&◌, Bool-cases, inl, inr, List, [], ◌∷◌, if◌then◌else◌, leb, Text, text_eq, text_beq,
  text_beq_iff, ◌==◌,
}
use azad_server_box.Retention.Trim.{rows_of-insert}
use azad_server_box.Retention.{
  Database, rows_of, keep_from, delete_before, Policy, is_policy_table, days_before, apply_policy,
  cleanup_policy_tables, Timestamp, is_before,
}

-- The tables that policies govern.
abbrev pub is_governed : Text → Bool
is_governed name =
    any (λ table. table == name)
      (codes "network_totals"
        ∷ codes "enhanced_alerts"
        ∷ codes "component_metrics"
        ∷ codes "rule_executions"
        ∷ codes "performance_metrics"
        ∷ codes "config_audit_log"
        ∷ codes "access_log"
        ∷ [])

is_policy_table-is_governed : (name : Text) → is_policy_table name ≡ is_governed name
unfolding is_policy_table
is_policy_table-is_governed name = refl

-- Whether a policy speaks of the table, which is one of those that policies govern.
abbrev pub governs : Policy → Text → Bool
governs p table = (p.table_name == table) && is_governed table && ltb 0 p.retention_days

leb-zero : (n : ℕ) → leb n 0 ≡ not (ltb 0 n)
leb-zero n = ground arith

-- A row that has a timestamp, which comes before the cutoff as a text.
abbrev pub comes_before : Timestamp → Text → Bool
comes_before none cutoff = false
comes_before (some written) cutoff = text_ltb written cutoff

is_before-comes_before :
    (t : Timestamp) (cutoff : Text) → is_before t cutoff ≡ comes_before t cutoff
unfolding is_before
is_before-comes_before none cutoff = refl
is_before-comes_before (some written) cutoff = refl

module _ (bound : ℕ → Text) (now : ℕ) where
  abbrev pub cutoff : Policy → Text
  cutoff p = bound (days_before now p.retention_days)

  -- No policy that governs the table has a cutoff that the row comes before.
  abbrev pub survives : Text → List Policy → Timestamp → Bool
  survives table [] row = true
  survives table (p ∷ policies) row =
      not (governs p table && comes_before row (cutoff p)) && survives table policies row

  -- The rows that survive.
  abbrev pub survivors : Text → List Policy → List Timestamp → List Timestamp
  survivors table policies [] = []
  survivors table policies (row ∷ more) =
      let rest = survivors table policies more in
      if survives table policies row then row ∷ rest else rest

  survivors-all : (table : Text) (rows : List Timestamp) → survivors table [] rows ≡ rows
  survivors-all table [] = refl
  survivors-all table (row ∷ more) = ap (row ∷◌) (survivors-all table more)

  -- A policy that does not govern the table makes no difference, and one that does takes its rows first.
  survivors-idle :
      (table : Text) (p : Policy) (policies : List Policy) (rows : List Timestamp)
      → governs p table ≡ false
      → survivors table (p ∷ policies) rows ≡ survivors table policies rows
  survivors-idle table p policies [] h = refl
  survivors-idle table p policies (row ∷ more) h =
      rw (h, survivors-idle table p policies more h) refl

  survivors-governed :
      (table : Text) (p : Policy) (policies : List Policy) (rows : List Timestamp)
      → governs p table ≡ true
      → survivors table (p ∷ policies) rows ≡ survivors table policies (keep_from (cutoff p) rows)
  unfolding keep_from
  survivors-governed table p policies [] h = refl
  survivors-governed table p policies (row ∷ more) h =
      let rest = survivors-governed table p policies more h in
      let same = is_before-comes_before row (cutoff p) in
      elim (Bool-cases (comes_before row (cutoff p))) [
        | inl e ↦ rw (h, same, e, rest) refl
        | inr e ↦ rw (h, same, e, rest) refl
      ]

  delete_before-rows :
      (name table limit : Text) (db : Database)
      → rows_of table (delete_before name limit db).1
        ≡ (if name == table then keep_from limit (rows_of name db) else rows_of table db)
  unfolding delete_before
  delete_before-rows name table limit db =
      rows_of-insert name table (keep_from limit (rows_of name db)) db

  -- What one policy leaves of a table.
  left_by : Policy → Text → Database → List Timestamp
  left_by p table db =
      if governs p table then keep_from (cutoff p) (rows_of table db) else rows_of table db

  apply_policy-own :
      (p : Policy) (db : Database)
      → rows_of p.table_name (apply_policy bound now p db).1 ≡ left_by p p.table_name db
  unfolding apply_policy left_by
  apply_policy-own p db =
      let self : text_beq p.table_name p.table_name ≡ true =
        (text_beq_iff p.table_name p.table_name).1 refl in
      let table = is_policy_table-is_governed p.table_name in
      elim (Bool-cases (is_governed p.table_name)) [
        | inr t ↦ rw (self, table, t) refl
        | inl t ↦ elim (Bool-cases (ltb 0 p.retention_days)) [
          | inr z ↦
              let none_left : leb p.retention_days 0 ≡ true =
                leb-zero p.retention_days ∙ ap not z in
              rw (self, table, t, z, none_left) refl
          | inl z ↦
              let some_left : leb p.retention_days 0 ≡ false =
                leb-zero p.retention_days ∙ ap not z in
              rw (self, table, t, z, some_left)
                (delete_before-rows p.table_name p.table_name (cutoff p) db ∙ rw self refl)
        ]
      ]

  apply_policy-other :
      (p : Policy) (db : Database) (table : Text)
      → text_beq p.table_name table ≡ false
      → rows_of table (apply_policy bound now p db).1 ≡ rows_of table db
  unfolding apply_policy
  apply_policy-other p db table e =
      elim (Bool-cases (not (is_policy_table p.table_name) || leb p.retention_days 0)) [
        | inl s ↦ rw s refl
        | inr s ↦ rw s (delete_before-rows p.table_name table (cutoff p) db ∙ rw e refl)
      ]

  apply_policy-left_by :
      (p : Policy) (db : Database) (table : Text)
      → rows_of table (apply_policy bound now p db).1 ≡ left_by p table db
  unfolding left_by
  apply_policy-left_by p db table = elim (Bool-cases (text_beq p.table_name table)) [
    | inl e ↦
        subst (λ t. rows_of t (apply_policy bound now p db).1 ≡ left_by p t db)
          ((text_beq_iff p.table_name table).0 e) (apply_policy-own p db)
    | inr e ↦ apply_policy-other p db table e ∙ rw e refl
  ]

  -- After the clean-up by policies a table holds, in their order, exactly the rows that no governing policy's cutoff comes
  -- behind: a policy governs the table that it names, where that is on the list of policy tables and its days are above zero. A cutoff
  -- and a timestamp are compared as the texts that are stored and bound, and a row without timestamp stays.
  pub policies-rows :
      (policies : List Policy) (db : Database) (table : Text)
      → rows_of table (cleanup_policy_tables bound now policies db).1
        ≡ survivors table policies (rows_of table db)
  unfolding cleanup_policy_tables left_by
  policies-rows [] db table = sym (survivors-all table (rows_of table db))
  policies-rows (p ∷ policies) db table =
      let later = policies-rows policies (apply_policy bound now p db).1 table in
      let first = apply_policy-left_by p db table in
      elim (Bool-cases (governs p table)) [
        | inl h ↦
            later
            ∙ ap (survivors table policies) (first ∙ rw h refl)
            ∙ sym (survivors-governed table p policies (rows_of table db) h)
        | inr h ↦
            later
            ∙ ap (survivors table policies) (first ∙ rw h refl)
            ∙ sym (survivors-idle table p policies (rows_of table db) h)
      ]
