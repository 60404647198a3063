-- ===== src/Retention/Trim.antt =====
-- One round of trimming (monitor/src/db/cleanup.rs): what it leaves of each table and how much it deletes.
use azad_server_box.Prelude.{
  ℕ, ◌+◌, ◌-◌, ◌≤◌, ◌≡◌, refl, sym, ap, subst, ◌∙◌, Bool, Bool-cases, inl, inr, ◌⊎◌, List, [], ◌∷◌,
  All, if◌then◌else◌, leb, leb→le, length, drop, length-drop, drop-drop, Text, text_eq, text_beq,
  text_beq_iff, ◌==◌, arith,
}
use azad_server_box.Prelude.Map.{lookup, insert, remove, Distinct, lookup-insert, insert-Distinct}
use azad_server_box.Retention.{
  Timestamp, Database, rows, rows_of, Pages, live_db_bytes, keep_of, trim_count, trim_oldest,
  trim_round,
}

-- The newest rows are left, and at least the number to keep where there were as many.
abbrev pub IsTrimmed : ℕ → List Timestamp → List Timestamp → Type 0
IsTrimmed keep before after = (n : ℕ) × (after ≡ drop n before) × (n ≤ length before - keep)

pub IsTrimmed-refl : (keep : ℕ) (before : List Timestamp) → IsTrimmed keep before before
IsTrimmed-refl keep before = (0, refl, omega arith)

pub IsTrimmed-chain :
    (keep : ℕ) (a b c : List Timestamp)
    → IsTrimmed keep a b
    → IsTrimmed keep b c
    → IsTrimmed keep a c
IsTrimmed-chain keep a b c (n, e, l) (m, f, k) =
    (n + m, f ∙ ap (drop m) e ∙ drop-drop m n a, omega (arith, ap length e, length-drop n a, l, k))

pub rows_of-insert :
    (table t : Text) (r : List Timestamp) (db : Database)
    → rows_of t (insert table r db) ≡ (if table == t then r else rows_of t db)
rows_of-insert table t r db = ap rows (lookup-insert table t r db) ∙ ground arith

pub trim_oldest-IsTrimmed :
    (table t : Text) (db : Database)
    → IsTrimmed (keep_of t) (rows_of t db) (rows_of t (trim_oldest table (keep_of table) db).1)
unfolding trim_oldest
trim_oldest-IsTrimmed table t db = elim (Bool-cases (text_beq table t)) [
  | inl e ↦
      let same = (text_beq_iff table t).0 e in
      let n = trim_count (keep_of table) (length (rows_of table db)) in
      subst
        (λ u.
          IsTrimmed (keep_of u) (rows_of u db)
            (rows_of u (insert table (drop n (rows_of table db)) db)))
        same
        (
          n,
          rows_of-insert table table _ db ∙ rw ((text_beq_iff table table).1 refl) refl,
          omega arith,
        )
  | inr e ↦ (0, rows_of-insert table t _ db ∙ rw e refl, omega arith)
]

-- All rows of the database.
abbrev pub total_rows : Database → ℕ
total_rows [] = 0
total_rows ((t, r) ∷ db) = length r + total_rows db

total_rows-remove :
    (table : Text) (db : Database)
    → Distinct db
    → total_rows (remove table db) + length (rows_of table db) ≡ total_rows db
unfolding lookup remove
total_rows-remove table [] d = refl
total_rows-remove table ((t, r) ∷ db) d =
    ground (arith, total_rows-remove table db d.1, text_beq_iff t table)

total_rows-trim_oldest :
    (table : Text) (keep : ℕ) (db : Database)
    → Distinct db
    → let (n, after) = trim_oldest table keep db in n + total_rows after ≡ total_rows db
unfolding trim_oldest insert
total_rows-trim_oldest table keep db d =
    let l = length-drop (trim_count keep (length (rows_of table db))) (rows_of table db) in
    omega (arith, l, total_rows-remove table db d)

trim_oldest-Distinct :
    (table : Text) (keep : ℕ) (db : Database) → Distinct db → Distinct (trim_oldest table keep db).1
unfolding trim_oldest
trim_oldest-Distinct table keep db d = insert-Distinct table _ db d

trim_oldest_none :
    (table : Text) (db : Database)
    → (trim_oldest table (keep_of table) db).0 ≡ 0
    → length (rows_of table (trim_oldest table (keep_of table) db).1) ≤ keep_of table
unfolding trim_oldest
trim_oldest_none table db h =
    let (n, e, l) = trim_oldest-IsTrimmed table table db in
    omega (arith, h, ap length e, length-drop n (rows_of table db))

IsTrimmed-le : (keep : ℕ) (a b : List Timestamp) → IsTrimmed keep a b → length b ≤ length a
IsTrimmed-le keep a b (n, e, l) = omega (arith, ap length e, length-drop n a)

module _ (pages : Database → Pages) (limit : ℕ) where
  abbrev is_small : Database → Bool
  is_small db = leb (live_db_bytes (pages db)) limit

  pub trim_round-IsTrimmed :
      (tables : List Text) (t : Text) (db : Database)
      → IsTrimmed (keep_of t) (rows_of t db) (rows_of t (trim_round pages limit tables db).1)
  unfolding trim_round
  trim_round-IsTrimmed [] t db = IsTrimmed-refl (keep_of t) (rows_of t db)
  trim_round-IsTrimmed (table ∷ tables) t db =
      let trimmed = (trim_oldest table (keep_of table) db).1 in
      let first = trim_oldest-IsTrimmed table t db in
      elim (Bool-cases (is_small trimmed)) [
        | inl e ↦ rw e first
        | inr e ↦
            rw e (IsTrimmed-chain (keep_of t) _ _ _ first (trim_round-IsTrimmed tables t trimmed))
      ]

  pub trim_round-Distinct :
      (tables : List Text) (db : Database)
      → Distinct db
      → Distinct (trim_round pages limit tables db).1
  unfolding trim_round
  trim_round-Distinct [] db d = d
  trim_round-Distinct (table ∷ tables) db d =
      let trimmed = (trim_oldest table (keep_of table) db).1 in
      let first = trim_oldest-Distinct table (keep_of table) db d in
      elim (Bool-cases (is_small trimmed)) [
        | inl e ↦ rw e first
        | inr e ↦ rw e (trim_round-Distinct tables trimmed first)
      ]

  pub total_rows-trim_round :
      (tables : List Text) (db : Database)
      → Distinct db
      → let (n, after) = trim_round pages limit tables db in n + total_rows after ≡ total_rows db
  unfolding trim_round
  total_rows-trim_round [] db d = omega arith
  total_rows-trim_round (table ∷ tables) db d =
      let trimmed = (trim_oldest table (keep_of table) db).1 in
      let first = total_rows-trim_oldest table (keep_of table) db d in
      let rest =
        total_rows-trim_round tables trimmed (trim_oldest-Distinct table (keep_of table) db d) in
      elim (Bool-cases (is_small trimmed)) [
        | inl e ↦ rw e first
        | inr e ↦ rw e (omega (arith, first, rest))
      ]

  -- No table has more rows than are to be kept.
  abbrev pub IsExhausted : List Text → Database → Type 0
  IsExhausted tables db = All (λ t. length (rows_of t db) ≤ keep_of t) tables

  abbrev pub IsSettled : List Text → Database → Type 0
  IsSettled tables db = (live_db_bytes (pages db) ≤ limit) ⊎ IsExhausted tables db

  SettlesIfNone : List Text → ℕ × Database → Type 0
  SettlesIfNone tables r = r.0 ≡ 0 → IsSettled tables r.1

  settled_after :
      (table : Text) (tables : List Text) (deleted : ℕ) (trimmed : Database)
      → (deleted ≡ 0 → length (rows_of table trimmed) ≤ keep_of table)
      → SettlesIfNone tables (trim_round pages limit tables trimmed)
      → let r = trim_round pages limit tables trimmed in
        SettlesIfNone (table ∷ tables) (deleted + r.0, r.1)
  unfolding SettlesIfNone
  settled_after table tables deleted trimmed head rest h =
      let r = trim_round pages limit tables trimmed in
      let first = head (omega arith) in
      elim (rest (omega arith)) [
        | inl small ↦ inl small
        | inr few ↦ inr (
          omega (
            arith,
            first,
            IsTrimmed-le (keep_of table) _ _ (trim_round-IsTrimmed tables table trimmed),
          ),
          few,
        )
      ]

  settles :
      (tables : List Text) (db : Database) → SettlesIfNone tables (trim_round pages limit tables db)
  unfolding trim_round SettlesIfNone
  settles [] db = λ h. inr tt
  settles (table ∷ tables) db =
      let trimmed = (trim_oldest table (keep_of table) db).1 in
      let deleted = (trim_oldest table (keep_of table) db).0 in
      let r = trim_round pages limit tables trimmed in
      elim (Bool-cases (is_small trimmed)) [
        | inl e ↦
            let eq : trim_round pages limit (table ∷ tables) db ≡ (deleted, trimmed) = rw e refl in
            subst (SettlesIfNone (table ∷ tables)) (sym eq) (λ h. inl (leb→le _ _ e))
        | inr e ↦
            let eq : trim_round pages limit (table ∷ tables) db ≡ (deleted + r.0, r.1) =
              rw e refl in
            subst (SettlesIfNone (table ∷ tables)) (sym eq) (
              settled_after table tables deleted trimmed (trim_oldest_none table db)
                (settles tables trimmed))
      ]

  -- A round that deletes nothing leaves a small database, or no table with more rows than are to be kept.
  pub trim_round_none :
      (tables : List Text) (db : Database)
      → (trim_round pages limit tables db).0 ≡ 0
      → IsSettled tables (trim_round pages limit tables db).1
  unfolding SettlesIfNone
  trim_round_none tables db h = settles tables db h
