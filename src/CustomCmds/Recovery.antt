-- ===== src/CustomCmds/Recovery.antt =====
-- A write of the custom commands that nothing stops, and one whose clean-up fails (monitor/src/monitoring/custom_cmds.rs).
use azad_server_box.Prelude.{
  ◌≡◌, ◌≢◌, refl, ap, ◌∙◌, Bool-cases, false, inl, inr, Option, none, some, List, [], ◌∷◌, All,
  Text, text_eq, text_beq, text_beq_iff, ok,
}
use azad_server_box.Prelude.Map.{lookup, insert, lookup-insert}
use azad_server_box.CustomCmds.{
  Dir, Disk, Outcome, done, failed, Phase, recover, write, returned, or_empty,
  recover_interrupted_replace, install_step, next, run,
}
use azad_server_box.CustomCmds.Safety.{write_all}

-- One success for each file, and then some more.
abbrev pub each_done : List (Text × Text) → List Outcome → List Outcome
each_done [] more = more
each_done (file ∷ files) more = done ∷ each_done files more

abbrev Ends : Dir → Phase × Disk → Type 0
Ends dir r = (r.0 ≡ returned (ok tt)) × (r.1.current ≡ some dir)

stays-Ends :
    (files : List (Text × Text)) (outcomes : List Outcome) (d : Disk) (dir : Dir)
    → d.current ≡ some dir
    → Ends dir (run files outcomes (returned (ok tt)) d)
unfolding run next
stays-Ends files [] d dir h = (refl, h)
stays-Ends files (o ∷ outcomes) d dir h = stays-Ends files outcomes d dir h

install-Ends :
    (files : List (Text × Text)) (more : List Outcome) (current backup : Option Dir) (dir : Dir)
    → Ends dir (
        run files
          (done ∷ done ∷ done ∷ more)
          (write [])
          (record { current = current; tmp = some dir; backup = backup }))
unfolding run next install_step
install-Ends files more none backup dir = stays-Ends files more _ dir refl
install-Ends files more (some old) backup dir = stays-Ends files more _ dir refl

write-Ends :
    (all rest : List (Text × Text)) (more : List Outcome) (current backup : Option Dir) (dir : Dir)
    → Ends (write_all rest dir) (
        run all
          (each_done rest (done ∷ done ∷ done ∷ more))
          (write rest)
          (record { current = current; tmp = some dir; backup = backup }))
unfolding run next
write-Ends all [] more current backup dir = install-Ends all more current backup dir
write-Ends all ((name, cmd) ∷ rest) more current backup dir =
    write-Ends all rest more current backup (insert name cmd dir)

-- The calls of a write whose clean-up of the side directory ends as given and whose other calls succeed.
abbrev pub calls : Outcome → List (Text × Text) → List Outcome → List Outcome
calls cleared files more = done ∷ cleared ∷ done ∷ each_done files (done ∷ done ∷ done ∷ more)

recovered-Ends :
    (files : List (Text × Text)) (cleared : Outcome) (more : List Outcome)
    (current tmp backup : Option Dir)
    → let left : Option Dir = elim cleared [ done ↦ none | failed gone left ↦ left ] in
      Ends (write_all files (or_empty left)) (
        run files
          (calls cleared files more)
          recover
          (record { current = current; tmp = tmp; backup = backup }))
unfolding run next recover_interrupted_replace
recovered-Ends files done more current tmp none = write-Ends files files more current none []
recovered-Ends files done more none tmp (some old) = write-Ends files files more (some old) none []
recovered-Ends files done more (some dir) tmp (some old) =
    write-Ends files files more (some dir) none []
recovered-Ends files (failed gone left) more current tmp none =
    write-Ends files files more current none (or_empty left)
recovered-Ends files (failed gone left) more none tmp (some old) =
    write-Ends files files more (some old) none (or_empty left)
recovered-Ends files (failed gone left) more (some dir) tmp (some old) =
    write-Ends files files more (some dir) none (or_empty left)

-- From any state that an interrupted write can leave, a write whose calls succeed reports success and installs exactly the new
-- files, after as many calls as there are files and six more.
pub write-completes :
    (files : List (Text × Text)) (more : List Outcome) (d : Disk)
    → let r = run files (calls done files more) recover d in
      (r.0 ≡ returned (ok tt)) × (r.1.current ≡ some (write_all files []))
write-completes files more d = recovered-Ends files done more d.current d.tmp d.backup

lookup-write_all :
    (files : List (Text × Text)) (dir : Dir) (k v : Text)
    → All (λ file. file.0 ≢ k) files
    → lookup k dir ≡ some v
    → lookup k (write_all files dir) ≡ some v
lookup-write_all [] dir k v a h = h
lookup-write_all ((name, cmd) ∷ files) dir k v a h =
    lookup-write_all files (insert name cmd dir) k v a.1 (
      lookup-insert name k cmd dir ∙ elim (Bool-cases (text_beq name k)) [
        | inl e ↦ absurd (a.0 ((text_beq_iff name k).0 e))
        | inr e ↦ rw e h
      ])

-- Where the clean-up of the side directory fails, its result is ignored: a file that stays there and has no new name is
-- installed with the new ones, and the write reports success.
pub stale_file-installed :
    (files : List (Text × Text)) (more : List Outcome) (d : Disk) (left : Dir) (k v : Text)
    → lookup k left ≡ some v
    → All (λ file. file.0 ≢ k) files
    → let r = run files (calls (failed false (some left)) files more) recover d in
      (r.0 ≡ returned (ok tt)) × (lookup k (or_empty r.1.current) ≡ some v)
stale_file-installed files more d left k v h a =
    let (success, e) =
      recovered-Ends files (failed false (some left)) more d.current d.tmp d.backup in
    (success, ap (λ o. lookup k (or_empty o)) e ∙ lookup-write_all files left k v a h)
