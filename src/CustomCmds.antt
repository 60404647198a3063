-- ===== src/CustomCmds.antt =====
-- monitor/src/monitoring/custom_cmds.rs: the directory of custom commands. A directory is a map from file names to
-- contents. `write_dir` is a sequence of calls of the file system; each can fail, and the process can end between any two.
mod Tests
pub mod Validation
pub mod Safety
pub mod Recovery
use azad_server_box.Prelude.{
  ℕ, zero, suc, ◌+◌, ◌*◌, ◌%◌, ◌^◌, Bool, true, false, ◌||◌, not, Option, none, some, List, [], ◌∷◌,
  ◌++◌, if◌then◌else◌, ltb, any, is_empty, Text, text_eq, ◌==◌, Result, ok, err,
}
use azad_server_box.Prelude.Map.{Map, insert}
use azad_server_box.Prelude.Strings.{trim}

pub record CustomCmd : Type 0 where
  pub name : Text
  pub cmd : Text

abbrev pub max_name_len : ℕ
max_name_len = 64

-- `Error`, with the text of `Invalid` as what it says.
pub data Error : Type 0 where
  no_home io : Error
  empty_name : Error
  too_long whitespace duplicate empty_cmd : Text → Error

-- `str::len`, in bytes of UTF-8.
abbrev pub utf8_len : ℕ → ℕ
utf8_len c = if ltb c 0x80 then 1 else if ltb c 0x800 then 2 else if ltb c 0x10000 then 3 else 4

abbrev pub byte_len : Text → ℕ
byte_len [] = 0
byte_len (c ∷ s) = utf8_len c + byte_len s

-- One round of the loop in `validate`; none is no complaint.
unfoldable pub complaint : List Text → CustomCmd → Option Error
unfolding trim
complaint seen c =
    let name : Text = trim c.name in
    if is_empty name
    then some empty_name
    else if ltb max_name_len (byte_len name)
    then some (too_long name)
    else if not (name == c.name)
    then some (whitespace name)
    else if any (λ other. other == name) seen
    then some (duplicate name)
    else if is_empty (trim c.cmd)
    then some (empty_cmd name)
    else none

unfoldable pub validate_from : List Text → List CustomCmd → Result (Unit {0}) Error
unfolding complaint trim
validate_from seen [] = ok tt
validate_from seen (c ∷ cmds) =
    let rest = validate_from (trim c.name ∷ seen) cmds in
    elim (complaint seen c) [ some e ↦ err e | none ↦ rest ]

unfoldable pub validate : List CustomCmd → Result (Unit {0}) Error
unfolding validate_from
validate cmds = validate_from [] cmds

abbrev pub Dir : Type 0
Dir = Map Text Text

-- The directory and its two side paths, `.new` and `.old`; none is a path that is not there.
pub record Disk : Type 0 where
  pub current : Option Dir
  pub tmp : Option Dir
  pub backup : Option Dir

-- How one call of the file system ends: with an error that says that nothing is there, or another. A call on a tree that fails may
-- leave anything of it; a rename is atomic.
pub data Outcome : Type 0 where
  done : Outcome
  failed : (not_found : Bool) (left : Option Dir) → Outcome

-- Where `write_dir` stands. `abandon` removes `.new` before the error is returned.
pub data Phase : Type 0 where
  recover clear create : Phase
  write : (files : List (Text × Text)) → Phase
  swap restore discard abandon : Phase
  returned : Result (Unit {0}) Error → Phase

-- `recover_interrupted_replace`
unfoldable pub recover_interrupted_replace : Outcome → Disk → Phase × Disk
recover_interrupted_replace outcome d = elim d.backup [
  | none ↦ (clear, d)
  | some old ↦ elim d.current [
    | none ↦ elim outcome [
      | done ↦ (clear, record d { current = some old; backup = none })
      | failed gone left ↦ (returned (err io), d)
    ]
    | some dir ↦ elim outcome [
      | done ↦ (clear, record d { backup = none })
      | failed gone left ↦
          if gone
          then (clear, record d { backup = none })
          else (returned (err io), record d { backup = left })
    ]
  ]
]

abbrev pub or_empty : Option Dir → Dir
or_empty none = []
or_empty (some dir) = dir

-- `dir.exists()`, and the rename of the one branch or the other.
unfoldable pub install_step : Outcome → Disk → Phase × Disk
install_step outcome d = elim d.current [
  | some dir ↦ elim outcome [
    | done ↦ (swap, record d { current = none; backup = some dir })
    | failed gone left ↦ (abandon, d)
  ]
  | none ↦ elim outcome [
    | done ↦ (discard, record d { current = d.tmp; tmp = none })
    | failed gone left ↦ (returned (err io), d)
  ]
]

-- The calls of `write_dir` under the lock, one at a time. `create_dir_all` keeps what is there.
unfoldable pub next : List (Text × Text) → Phase → Outcome → Disk → Phase × Disk
unfolding recover_interrupted_replace install_step
next files recover outcome d = recover_interrupted_replace outcome d
next files clear done d = (create, record d { tmp = none })
next files clear (failed gone left) d = (create, record d { tmp = left })
next files create done d = (write files, record d { tmp = some (or_empty d.tmp) })
next files create (failed gone left) d = (abandon, record d { tmp = left })
next files (write []) outcome d = install_step outcome d
next files (write ((name, cmd) ∷ rest)) done d =
    (write rest, record d { tmp = some (insert name cmd (or_empty d.tmp)) })
next files (write ((name, cmd) ∷ rest)) (failed gone left) d = (abandon, record d { tmp = left })
next files swap done d = (discard, record d { current = d.tmp; tmp = none })
next files swap (failed gone left) d = (restore, d)
next files restore done d = (returned (err io), record d { current = d.backup; backup = none })
next files restore (failed gone left) d = (returned (err io), d)
next files discard done d = (returned (ok tt), record d { backup = none })
next files discard (failed gone left) d = (returned (ok tt), record d { backup = left })
next files abandon done d = (returned (err io), record d { tmp = none })
next files abandon (failed gone left) d = (returned (err io), record d { tmp = left })
next files (returned r) outcome d = (returned r, d)

-- The process runs as many calls as there are outcomes.
unfoldable pub run : List (Text × Text) → List Outcome → Phase → Disk → Phase × Disk
unfolding next
run files [] phase d = (phase, d)
run files (o ∷ outcomes) phase d =
    let (phase', d') = next files phase o d in run files outcomes phase' d'

abbrev pub order_step : ℕ
order_step = 100

-- The files of the loop over the commands; the name of a file is made by `file_name`.
unfoldable pub files_of : (ℕ → Text → Text) → ℕ → List CustomCmd → List (Text × Text)
files_of file_name i [] = []
files_of file_name i (c ∷ cmds) =
    (file_name ((i + 1) * order_step % 2 ^ 32) c.name, c.cmd) ∷ files_of file_name (i + 1) cmds
