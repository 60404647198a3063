-- ===== src/CustomCmds/Tests.antt =====
-- Inputs for custom_cmds.rs.
use azad_server_box.Prelude.{
  false, ◌≡◌, ◌⊎◌, ◌↔◌, refl, none, some, List, [], ◌∷◌, Text, codes, text_eq, ok, err, arith,
}
use azad_server_box.Prelude.Map.{lookup}
use azad_server_box.CustomCmds.{
  io, CustomCmd, Disk, Dir, Outcome, done, failed, recover, returned, run, validate, duplicate,
  or_empty,
}
use azad_server_box.CustomCmds.Validation.{AreFine, validate-ok_iff}
use azad_server_box.CustomCmds.Safety.{
  committed, IsInstalled, write_all, Reported, never_lost, result_true,
}
use azad_server_box.CustomCmds.Recovery.{calls, write-completes, stale_file-installed}

abbrev cmd : CustomCmd
cmd = record { name = codes "up"; cmd = codes "uptime" }

same_name_twice : validate (cmd ∷ cmd ∷ []) ≡ err (duplicate (codes "up"))
unfolding validate
same_name_twice = refl

validate-ok_iff_example : (validate (cmd ∷ []) ≡ ok tt) ↔ AreFine [] (cmd ∷ [])
validate-ok_iff_example = validate-ok_iff (cmd ∷ [])

abbrev files : List (Text × Text)
files = (codes "00100_dXA=", codes "uptime") ∷ []

abbrev old : Dir
old = (codes "00100_bHM=", codes "ls") ∷ []

abbrev disk : Disk
disk = record { current = some old; tmp = none; backup = none }

-- The process ends between the two renames.
abbrev stopped : List Outcome
stopped = done ∷ done ∷ done ∷ done ∷ done ∷ []

nothing_current : (run files stopped recover disk).1.current ≡ none
unfolding run
nothing_current = refl

never_lost_example :
    let after = (run files stopped recover disk).1 in
    (committed after ≡ committed disk) ⊎ IsInstalled files (committed after)
never_lost_example = never_lost files stopped disk

-- Neither the new directory can be moved in nor the old one back.
abbrev stuck : List Outcome
stuck = done ∷ done ∷ done ∷ done ∷ done ∷ failed false none ∷ failed false none ∷ []

nothing_moves :
    let r = run files stuck recover disk in
    (r.0 ≡ returned (err io)) × (r.1.current ≡ none) × (r.1.backup ≡ some old)
unfolding run
nothing_moves = (refl, refl, refl)

result_true_example : Reported files (committed disk) (err io) (run files stuck recover disk).1
result_true_example = result_true files stuck disk (err io) nothing_moves.0

write-completes_example :
    let after = run files (calls done files []) recover disk in
    (after.0 ≡ returned (ok tt)) × (after.1.current ≡ some (write_all files []))
write-completes_example = write-completes files [] disk

stale_file-installed_example :
    let r = run files (calls (failed false (some old)) files []) recover disk in
    (r.0 ≡ returned (ok tt))
    × (lookup (codes "00100_bHM=") (or_empty r.1.current) ≡ some (codes "ls"))
unfolding lookup
stale_file-installed_example =
    stale_file-installed files [] disk old (codes "00100_bHM=") (codes "ls") refl (ground arith, tt)
