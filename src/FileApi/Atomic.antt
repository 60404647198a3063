-- ===== src/FileApi/Atomic.antt =====
-- A write of monitor/src/api/fs.rs changes its destination as a whole or not at all.
use azad_server_box.Prelude.{
  ℕ, ◌≤◌, ◌≡◌, ◌≢◌, inl, inr, ◌⊎◌, refl, ap, none, some, List, ◌∷◌, arith, Option-cases, length,
}
use azad_server_box.Prelude.Map.{Map, lookup, remove, lookup-insert, lookup-remove}
use azad_server_box.FsRoots.{FilePath}
use azad_server_box.FileApi.{
  IoError, stats, removes_file, sets_mode, renames, World, Os, File, perform, effect, failed_effect,
  clash, Reply, failed, wrote,
}
use azad_server_box.FileApi.Paths.{path_eq, path_beq_iff}
use azad_server_box.FileApi.Writing.{abandon, carry_mode, existing_mode, move_over}
use azad_server_box.FileApi.Effects.{Spares, Spares-refl, Spares-trans, perform-Spares, perform-ok}
use azad_server_box.FileApi.Parking.{Parks}

-- A call that fails but for an append leaves the files.
perform-failed :
    (os : Os) (from to : FilePath) (w : World) (e : IoError)
    → (perform os (renames from to) w).0 ≡ some e
    → (perform os (renames from to) w).1.disk ≡ w.disk
unfolding perform failed_effect clash
perform-failed os from to w e h = elim (Option-cases (os.answer (renames from to))) [
  | inl good ↦ absurd (ground (arith, h, good))
  | inr (error, bad) ↦ rw (bad, perform) refl
]

sets_mode-Parks :
    (os : Os) (staging : FilePath) (bytes : List ℕ) (mode : ℕ) (w : World)
    → Parks staging bytes w.disk
    → Parks staging bytes (perform os (sets_mode staging mode) w).1.disk
unfolding perform effect failed_effect clash
sets_mode-Parks os staging bytes mode w v =
    elim (Option-cases (os.answer (sets_mode staging mode))) [
      | inr (error, bad) ↦ rw (bad, perform) v
      | inl good ↦
          rw (good, perform, v.there, effect)
            (record {
              file = record (v.file) { mode = mode };
              there = ground (
                arith,
                lookup-insert staging staging (record (v.file) { mode = mode }) w.disk,
                path_beq_iff staging staging,
              );
              content = v.content;
            })
    ]

carry_mode-Parks :
    (os : Os) (path staging : FilePath) (bytes : List ℕ) (w : World)
    → Parks staging bytes w.disk
    → Parks staging bytes (carry_mode os path staging w).disk
unfolding carry_mode
carry_mode-Parks os path staging bytes w v = elim (Option-cases (existing_mode os path w.disk)) [
  | inl e ↦ rw (e, carry_mode) v
  | inr (mode, e) ↦ rw (e, carry_mode) (sets_mode-Parks os staging bytes mode _ v)
]

carry_mode-Spares :
    (os : Os) (path staging : FilePath) (w : World)
    → Spares staging w.disk (carry_mode os path staging w).disk
unfolding carry_mode
carry_mode-Spares os path staging w = elim (Option-cases (existing_mode os path w.disk)) [
  | inl e ↦ rw (e, carry_mode) (Spares-refl staging w.disk)
  | inr (mode, e) ↦
      rw (e, carry_mode)
        (perform-Spares os staging (sets_mode staging mode)
          (record w { calls = stats path ∷ w.calls }) refl)
]

-- The destination holds the whole body, nothing is parked any more, and every other file is as it was.
pub record Replaces (path staging : FilePath) (bytes : List ℕ) (before after : Map FilePath File)
    : Type 0 where
  pub placed : Parks path bytes after
  pub cleared : lookup staging after ≡ none
  pub others :
      (other : FilePath) → other ≢ path → other ≢ staging → lookup other after ≡ lookup other before

-- What a write comes to.
abbrev pub IsWhole : FilePath → FilePath → List ℕ → ℕ → Map FilePath File → Reply × World → Type 0
IsWhole path staging bytes limit before (reply, after) =
    ((reply ≡ wrote (length bytes))
      × (length bytes ≤ limit)
      × Replaces path staging bytes before after.disk)
    ⊎ (((k : ℕ) → reply ≢ wrote k) × Spares staging before after.disk)

pub abandon-IsWhole :
    (os : Os) (path staging : FilePath) (bytes : List ℕ) (limit : ℕ) (before : Map FilePath File)
    (reply : Reply) (w : World)
    → ((k : ℕ) → reply ≢ wrote k)
    → Spares staging before w.disk
    → IsWhole path staging bytes limit before (abandon os staging reply w)
unfolding abandon
abandon-IsWhole os path staging bytes limit before reply w n s = inr (
  n,
  Spares-trans staging before w.disk _ s (perform-Spares os staging (removes_file staging) w refl),
)

rename-Replaces :
    (path staging : FilePath) (bytes : List ℕ) (before disk : Map FilePath File)
    → staging ≢ path
    → Spares staging before disk
    → Parks staging bytes disk
    → Replaces path staging bytes before (effect (renames staging path) disk)
unfolding effect
rename-Replaces path staging bytes before disk apart s v =
    rw (v.there, effect)
      (record {
        placed = record {
          file = v.file;
          there =
              ground (
                arith,
                lookup-insert path path v.file (remove staging disk),
                path_beq_iff path path,
              );
          content = v.content;
        };
        cleared = ground (
          arith,
          apart,
          lookup-insert path staging v.file (remove staging disk),
          lookup-remove staging staging disk,
          path_beq_iff path staging,
          path_beq_iff staging staging,
        );
        others = λ other p q. ground (
          arith,
          p,
          q,
          lookup-insert path other v.file (remove staging disk),
          lookup-remove staging other disk,
          path_beq_iff path other,
          path_beq_iff staging other,
          s.spared other q,
        );
      })

pub move_over-IsWhole :
    (os : Os) (path staging : FilePath) (bytes : List ℕ) (limit : ℕ) (before : Map FilePath File)
    (written : ℕ) (w : World)
    → staging ≢ path
    → written ≡ length bytes
    → length bytes ≤ limit
    → Spares staging before w.disk
    → Parks staging bytes w.disk
    → IsWhole path staging bytes limit before (move_over os path staging written w)
unfolding move_over
move_over-IsWhole os path staging bytes limit before written w apart sized l s v =
    let carried : World = carry_mode os path staging w in
    let spared =
      Spares-trans staging before w.disk carried.disk s (carry_mode-Spares os path staging w) in
    elim (Option-cases (perform os (renames staging path) carried).0) [
      | inl good ↦
          rw (good, move_over)
            (inl (
              ap wrote sized,
              l,
              rw (perform-ok os (renames staging path) carried good).0 (
                  rename-Replaces path staging bytes before carried.disk apart spared
                    (carry_mode-Parks os path staging bytes w v)),
            ))
      | inr (error, bad) ↦
          rw (bad, move_over)
            (abandon-IsWhole os path staging bytes limit before (failed error) _
              (λ k e. ground (arith, e))
              (rw (perform-failed os staging path carried error bad) spared))
    ]
