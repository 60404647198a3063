-- ===== src/CustomCmds/Safety.antt =====
-- A write of the custom commands that may stop anywhere (monitor/src/monitoring/custom_cmds.rs).
use azad_server_box.Prelude.{
  ◌≡◌, ◌⊎◌, inl, inr, refl, subst, ap, ◌∙◌, Option, none, some, List, [], ◌∷◌, Text, text_eq, ok,
  err, Result, true, false,
}
use azad_server_box.Prelude.Map.{insert}
use azad_server_box.CustomCmds.{
  Dir, Disk, Outcome, done, failed, Phase, recover, clear, create, write, swap, restore, discard,
  abandon, returned, Error, or_empty, recover_interrupted_replace, install_step, next, run,
}

-- What a reader of the directory would have once an interrupted write is repaired.
abbrev pub committed : Disk → Option Dir
committed d = elim d.current [ some dir ↦ some dir | none ↦ d.backup ]

abbrev pub write_all : List (Text × Text) → Dir → Dir
write_all [] dir = dir
write_all ((name, cmd) ∷ files) dir = write_all files (insert name cmd dir)

-- Every file is there, over what an earlier write may have left in the side directory.
abbrev pub IsInstalled : List (Text × Text) → Option Dir → Type 0
IsInstalled files dir = (left : Dir) × (dir ≡ some (write_all files left))

IsWritten : List (Text × Text) → List (Text × Text) → Option Dir → Type 0
IsWritten files rest tmp =
    (dir : Dir) × (left : Dir) × (tmp ≡ some dir) × (write_all rest dir ≡ write_all files left)

-- What holds between two calls: the directory from before the write is there, or the new one is.
Keeps : List (Text × Text) → Option Dir → Phase → Disk → Type 0
Keeps files before recover d = committed d ≡ before
Keeps files before clear d = (committed d ≡ before) × (d.backup ≡ none)
Keeps files before create d = (committed d ≡ before) × (d.backup ≡ none)
Keeps files before (write rest) d =
    (committed d ≡ before) × (d.backup ≡ none) × IsWritten files rest d.tmp
Keeps files before swap d = (d.current ≡ none) × (d.backup ≡ before) × IsInstalled files d.tmp
Keeps files before restore d = (d.current ≡ none) × (d.backup ≡ before)
Keeps files before discard d = IsInstalled files d.current
Keeps files before abandon d = committed d ≡ before
Keeps files before (returned (ok _)) d = IsInstalled files d.current
Keeps files before (returned (err _)) d = committed d ≡ before

abbrev at : Option Dir → Option Dir → Option Dir → Disk
at current tmp backup = record { current = current; tmp = tmp; backup = backup }

recover-Keeps :
    (files : List (Text × Text)) (before : Option Dir) (o : Outcome)
    (current tmp backup : Option Dir)
    → committed (at current tmp backup) ≡ before
    → let r = recover_interrupted_replace o (at current tmp backup) in Keeps files before r.0 r.1
unfolding recover_interrupted_replace Keeps
recover-Keeps files before o none tmp none h = (h, refl)
recover-Keeps files before o (some dir) tmp none h = (h, refl)
recover-Keeps files before done none tmp (some old) h = (h, refl)
recover-Keeps files before done (some dir) tmp (some old) h = (h, refl)
recover-Keeps files before (failed gone left) none tmp (some old) h = h
recover-Keeps files before (failed true left) (some dir) tmp (some old) h = (h, refl)
recover-Keeps files before (failed false left) (some dir) tmp (some old) h = h

install-Keeps :
    (files : List (Text × Text)) (before : Option Dir) (o : Outcome)
    (current tmp backup : Option Dir)
    → committed (at current tmp backup) ≡ before
    → backup ≡ none
    → IsInstalled files tmp
    → let r = install_step o (at current tmp backup) in Keeps files before r.0 r.1
unfolding install_step Keeps
install-Keeps files before done none tmp backup h b w = w
install-Keeps files before (failed gone left) none tmp backup h b w = h
install-Keeps files before done (some dir) tmp backup h b w = (refl, h, w)
install-Keeps files before (failed gone left) (some dir) tmp backup h b w = h

committed_restored : (backup tmp : Option Dir) → committed (at backup tmp none) ≡ backup
committed_restored none tmp = refl
committed_restored (some dir) tmp = refl

next-Keeps :
    (files : List (Text × Text)) (before : Option Dir) (phase : Phase) (o : Outcome) (d : Disk)
    → Keeps files before phase d
    → let r = next files phase o d in Keeps files before r.0 r.1
unfolding next Keeps IsWritten
next-Keeps files before recover o d h = recover-Keeps files before o d.current d.tmp d.backup h
next-Keeps files before clear done d h = h
next-Keeps files before clear (failed gone left) d h = h
next-Keeps files before create done d (h, b) = (h, b, (or_empty d.tmp, or_empty d.tmp, refl, refl))
next-Keeps files before create (failed gone left) d (h, b) = h
next-Keeps files before (write []) o d (h, b, (dir, left, t, w)) =
    install-Keeps files before o d.current d.tmp d.backup h b (left, t ∙ ap some w)
next-Keeps files before (write ((name, cmd) ∷ rest)) done d (h, b, (dir, left, t, w)) =
    (h, b, (insert name cmd dir, left, ap (λ o. some (insert name cmd (or_empty o))) t, w))
next-Keeps files before (write ((name, cmd) ∷ rest)) (failed gone left) d (h, b, w) = h
next-Keeps files before swap done d (c, b, w) = w
next-Keeps files before swap (failed gone left) d (c, b, w) = (c, b)
next-Keeps files before restore done d (c, b) = committed_restored d.backup d.tmp ∙ b
next-Keeps files before restore (failed gone left) d (c, b) = rw c b
next-Keeps files before discard done d w = w
next-Keeps files before discard (failed gone left) d w = w
next-Keeps files before abandon done d h = h
next-Keeps files before abandon (failed gone left) d h = h
next-Keeps files before (returned (ok u)) o d h = h
next-Keeps files before (returned (err e)) o d h = h

run-Keeps :
    (files : List (Text × Text)) (before : Option Dir) (outcomes : List Outcome) (phase : Phase)
    (d : Disk)
    → Keeps files before phase d
    → let r = run files outcomes phase d in Keeps files before r.0 r.1
unfolding run
run-Keeps files before [] phase d h = h
run-Keeps files before (o ∷ outcomes) phase d h =
    run-Keeps files before outcomes (next files phase o d).0 (next files phase o d).1
      (next-Keeps files before phase o d h)

Keeps-committed :
    (files : List (Text × Text)) (before : Option Dir) (phase : Phase) (d : Disk)
    → Keeps files before phase d
    → (committed d ≡ before) ⊎ IsInstalled files (committed d)
unfolding Keeps IsWritten
Keeps-committed files before recover d h = inl h
Keeps-committed files before clear d (h, b) = inl h
Keeps-committed files before create d (h, b) = inl h
Keeps-committed files before (write rest) d (h, b, w) = inl h
Keeps-committed files before swap d (c, b, w) = inl (rw c b)
Keeps-committed files before restore d (c, b) = inl (rw c b)
Keeps-committed files before discard d (left, e) = inr (left, rw e refl)
Keeps-committed files before abandon d h = inl h
Keeps-committed files before (returned (ok u)) d (left, e) = inr (left, rw e refl)
Keeps-committed files before (returned (err e)) d h = inl h

-- Wherever a write stops and whatever calls of it fail, repairing the directory gives the commands from before it, or all
-- the new ones over what the side directory may have held.
pub never_lost :
    (files : List (Text × Text)) (outcomes : List Outcome) (d : Disk)
    → let after = (run files outcomes recover d).1 in
      (committed after ≡ committed d) ⊎ IsInstalled files (committed after)
unfolding Keeps
never_lost files outcomes d =
    let r = run files outcomes recover d in
    Keeps-committed files (committed d) r.0 r.1
      (run-Keeps files (committed d) outcomes recover d refl)

-- What a result says of the commands: success, that all the new ones are installed; an error, that those from before the
-- write are where they were, or in `.old`, from where the next write restores them, with nothing in their place.
abbrev pub Reported : List (Text × Text) → Option Dir → Result (Unit {0}) Error → Disk → Type 0
Reported files before (ok _) d = IsInstalled files d.current
Reported files before (err _) d = (d.current ≡ before) ⊎ ((d.current ≡ none) × (d.backup ≡ before))

committed-cases :
    (before current tmp backup : Option Dir)
    → committed (at current tmp backup) ≡ before
    → (current ≡ before) ⊎ ((current ≡ none) × (backup ≡ before))
committed-cases before none tmp backup h = inr (refl, h)
committed-cases before (some dir) tmp backup h = inl h

Keeps-Reported :
    (files : List (Text × Text)) (before : Option Dir) (result : Result (Unit {0}) Error) (d : Disk)
    → Keeps files before (returned result) d
    → Reported files before result d
unfolding Keeps
Keeps-Reported files before (ok u) d h = h
Keeps-Reported files before (err e) d h = committed-cases before d.current d.tmp d.backup h

-- Whatever calls fail: a write that returns success has installed all the new commands, over what the side directory may have
-- held; one that returns an error has left those from before it, as an earlier interrupted write is repaired, in place, or in
-- `.old` with no directory in their place.
pub result_true :
    (files : List (Text × Text)) (outcomes : List Outcome) (d : Disk)
    (result : Result (Unit {0}) Error)
    → (run files outcomes recover d).0 ≡ returned result
    → Reported files (committed d) result (run files outcomes recover d).1
unfolding Keeps
result_true files outcomes d result h =
    let r = run files outcomes recover d in
    Keeps-Reported files (committed d) result r.1 (
      subst (λ phase. Keeps files (committed d) phase r.1) h
        (run-Keeps files (committed d) outcomes recover d refl))
