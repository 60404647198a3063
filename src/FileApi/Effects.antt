-- ===== src/FileApi/Effects.antt =====
-- What the calls of monitor/src/api/fs.rs leave of the other files.
use azad_server_box.Prelude.{
  ℕ, ◌≡◌, ◌≢◌, inl, inr, refl, ◌∙◌, false, none, arith, Bool-cases, Option-cases, take,
}
use azad_server_box.Prelude.Map.{Map, lookup, insert, remove, lookup-insert, lookup-remove}
use azad_server_box.FsRoots.{FilePath}
use azad_server_box.FileApi.{
  FsCall, creates_new, appends, removes_file, sets_mode, renames, World, Os, File, perform, effect,
  failed_effect, clash,
}
use azad_server_box.FileApi.Paths.{path_eq, path_beq_iff}

-- Every file but one is as it was.
pub record Spares (staging : FilePath) (before after : Map FilePath File) : Type 0 where
  pub spared : (path : FilePath) → path ≢ staging → lookup path after ≡ lookup path before

pub Spares-refl : (staging : FilePath) (disk : Map FilePath File) → Spares staging disk disk
Spares-refl staging disk = record { spared = λ path n. refl }

pub Spares-trans :
    (staging : FilePath) (a b c : Map FilePath File)
    → Spares staging a b
    → Spares staging b c
    → Spares staging a c
Spares-trans staging a b c h k = record { spared = λ path n. k.spared path n ∙ h.spared path n }

insert-Spares :
    (staging : FilePath) (f : File) (disk : Map FilePath File)
    → Spares staging disk (insert staging f disk)
insert-Spares staging f disk = record {
  spared =
      λ path n. ground (arith, lookup-insert staging path f disk, path_beq_iff staging path, n);
}

remove-Spares :
    (staging : FilePath) (disk : Map FilePath File) → Spares staging disk (remove staging disk)
remove-Spares staging disk = record {
  spared = λ path n. ground (arith, lookup-remove staging path disk, path_beq_iff staging path, n);
}

-- A call that names no other file.
abbrev pub Names : FilePath → FsCall → Type 0
Names staging (appends path _ _) = path ≡ staging
Names staging (creates_new path) = path ≡ staging
Names staging (removes_file path) = path ≡ staging
Names staging (sets_mode path _) = path ≡ staging
Names staging (renames _ _) = ⊥
Names staging _ = Unit

pub effect-Spares :
    (staging : FilePath) (call : FsCall) (disk : Map FilePath File)
    → Names staging call
    → Spares staging disk (effect call disk)
unfolding effect
effect-Spares staging (appends path at more) disk e = elim (Option-cases (lookup path disk)) [
  | inl gone ↦ rw (gone, effect) (Spares-refl staging disk)
  | inr (f, there) ↦ rw (there, effect, e) (insert-Spares staging _ disk)
]
effect-Spares staging (creates_new path) disk e = rw e (insert-Spares staging _ disk)
effect-Spares staging (removes_file path) disk e = rw e (remove-Spares staging disk)
effect-Spares staging (sets_mode path mode) disk e = elim (Option-cases (lookup path disk)) [
  | inl gone ↦ rw (gone, effect) (Spares-refl staging disk)
  | inr (f, there) ↦ rw (there, effect, e) (insert-Spares staging _ disk)
]
effect-Spares staging (renames from to) disk e = elim e [ ]
effect-Spares staging call disk e = Spares-refl staging disk

failed_effect-Spares :
    (staging : FilePath) (cut : ℕ) (call : FsCall) (disk : Map FilePath File)
    → Names staging call
    → Spares staging disk (failed_effect cut call disk)
unfolding failed_effect
failed_effect-Spares staging cut (appends path at more) disk e =
    effect-Spares staging (appends path at (take cut more)) disk e
failed_effect-Spares staging cut call disk e = Spares-refl staging disk

pub perform-Spares :
    (os : Os) (staging : FilePath) (call : FsCall) (w : World)
    → Names staging call
    → Spares staging w.disk (perform os call w).1.disk
unfolding perform
perform-Spares os staging call w e = elim (Bool-cases (clash call w.disk)) [
  | inl there ↦ rw (there, perform) (Spares-refl staging w.disk)
  | inr free ↦ elim (Option-cases (os.answer call)) [
    | inl good ↦ rw (free, perform, good) (effect-Spares staging call w.disk e)
    | inr (error, bad) ↦
        rw (free, perform, bad) (failed_effect-Spares staging (os.cut call) call w.disk e)
  ]
]

-- A call that succeeds has its effect, and none of its kind can clash.
pub perform-ok :
    (os : Os) (call : FsCall) (w : World)
    → (perform os call w).0 ≡ none
    → ((perform os call w).1.disk ≡ effect call w.disk) × (clash call w.disk ≡ false)
unfolding perform
perform-ok os call w h = elim (Bool-cases (clash call w.disk)) [
  | inl there ↦ absurd (ground (arith, h, there))
  | inr free ↦ elim (Option-cases (os.answer call)) [
    | inl good ↦ (rw (free, perform, good) refl, free)
    | inr (error, bad) ↦ absurd (ground (arith, h, free, bad))
  ]
]
