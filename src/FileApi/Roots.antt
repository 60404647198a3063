-- ===== src/FileApi/Roots.antt =====
-- Which paths a write of monitor/src/api/fs.rs reaches.
use azad_server_box.Prelude.{
  ℕ, ◌≡◌, inl, inr, refl, Option, none, some, List, [], ◌∷◌, arith, All, Bool-cases, Option-cases,
  ltb, length, ◌+◌,
}
use azad_server_box.FsRoots.{FilePath}
use azad_server_box.FsRoots.Confinement.{IsUnder}
use azad_server_box.FileApi.{
  FsCall, reads_dir, opens, stats, reads_link, creates_new, appends, flushes, removes_file,
  removes_dir, removes_tree, makes_dirs, seeks, sets_mode, renames, World, Os, perform, Reply,
}
use azad_server_box.FileApi.Paths.{path_eq}
use azad_server_box.FileApi.Reading.{roots}
use azad_server_box.FileApi.Writing.{
  receive, abandon, carry_mode, existing_mode, move_over, finish, write_to,
}

-- Every path that a call names is a root or below one.
abbrev pub CallIsUnder : List FilePath → FsCall → Type 0
CallIsUnder roots (reads_dir path) = IsUnder roots path
CallIsUnder roots (opens path) = IsUnder roots path
CallIsUnder roots (stats path) = IsUnder roots path
CallIsUnder roots (reads_link path) = IsUnder roots path
CallIsUnder roots (creates_new path) = IsUnder roots path
CallIsUnder roots (flushes path) = IsUnder roots path
CallIsUnder roots (removes_file path) = IsUnder roots path
CallIsUnder roots (removes_dir path) = IsUnder roots path
CallIsUnder roots (removes_tree path) = IsUnder roots path
CallIsUnder roots (makes_dirs path) = IsUnder roots path
CallIsUnder roots (appends path _ _) = IsUnder roots path
CallIsUnder roots (seeks path _) = IsUnder roots path
CallIsUnder roots (sets_mode path _) = IsUnder roots path
CallIsUnder roots (renames from to) = IsUnder roots from × IsUnder roots to

-- All calls that were made stay within the roots.
pub record IsConfined (roots : List FilePath) (w : World) : Type 0 where
  pub within : All (CallIsUnder roots) w.calls

pub calls-IsConfined :
    (roots : List FilePath) (call : FsCall) (w after : World)
    → CallIsUnder roots call
    → IsConfined roots w
    → after.calls ≡ call ∷ w.calls
    → IsConfined roots after
calls-IsConfined roots call w after u c e = record { within = rw e (u, c.within) }

perform-calls : (os : Os) (call : FsCall) (w : World) → (perform os call w).1.calls ≡ call ∷ w.calls
unfolding perform
perform-calls os call w = ground arith

pub perform-IsConfined :
    (os : Os) (roots : List FilePath) (call : FsCall) (w : World)
    → CallIsUnder roots call
    → IsConfined roots w
    → IsConfined roots (perform os call w).1
perform-IsConfined os roots call w u c =
    calls-IsConfined roots call w (perform os call w).1 u c (perform-calls os call w)

receive-IsConfined :
    (os : Os) (roots : List FilePath) (staging : FilePath) (limit : ℕ)
    (body : List (Option (List ℕ))) (written : ℕ) (w : World)
    → IsUnder roots staging
    → IsConfined roots w
    → IsConfined roots (receive os staging limit body written w).2
unfolding receive
receive-IsConfined os roots staging limit [] written w u c = c
receive-IsConfined os roots staging limit (none ∷ body) written w u c = c
receive-IsConfined os roots staging limit (some bytes ∷ body) written w u c =
    let call : FsCall = appends staging written bytes in
    let after = perform-IsConfined os roots call w u c in
    elim (Bool-cases (ltb limit (written + length bytes))) [
      | inl over ↦ rw (over, receive) c
      | inr fits ↦ elim (Option-cases (perform os call w).0) [
        | inl e ↦
            rw (fits, receive, e)
              (receive-IsConfined os roots staging limit body (written + length bytes)
                (perform os call w).1 u after)
        | inr (error, e) ↦ rw (fits, receive, e) after
      ]
    ]

carry_mode-IsConfined :
    (os : Os) (roots : List FilePath) (path staging : FilePath) (w : World)
    → IsUnder roots path
    → IsUnder roots staging
    → IsConfined roots w
    → IsConfined roots (carry_mode os path staging w)
unfolding carry_mode
carry_mode-IsConfined os roots path staging w p u c =
    let seen : World = record w { calls = stats path ∷ w.calls } in
    let looked = calls-IsConfined roots (stats path) w seen p c refl in
    elim (Option-cases (existing_mode os path w.disk)) [
      | inl e ↦ rw (e, carry_mode) looked
      | inr (mode, e) ↦
          rw (e, carry_mode) (perform-IsConfined os roots (sets_mode staging mode) seen u looked)
    ]

move_over-IsConfined :
    (os : Os) (roots : List FilePath) (path staging : FilePath) (written : ℕ) (w : World)
    → IsUnder roots path
    → IsUnder roots staging
    → IsConfined roots w
    → IsConfined roots (move_over os path staging written w).1
unfolding move_over abandon
move_over-IsConfined os roots path staging written w p u c =
    let carried = carry_mode-IsConfined os roots path staging w p u c in
    let moved =
      perform-IsConfined os roots (renames staging path) (carry_mode os path staging w) (u, p)
        carried in
    elim (Option-cases (perform os (renames staging path) (carry_mode os path staging w)).0) [
      | inl e ↦ rw (e, move_over) moved
      | inr (error, e) ↦
          rw (e, move_over) (perform-IsConfined os roots (removes_file staging) _ u moved)
    ]

finish-IsConfined :
    (os : Os) (roots : List FilePath) (path staging : FilePath) (p : Option Reply × ℕ × World)
    → IsUnder roots path
    → IsUnder roots staging
    → IsConfined roots p.2
    → IsConfined roots (finish os path staging p).1
unfolding finish abandon
finish-IsConfined os roots path staging (some reply, written, w) p u c =
    perform-IsConfined os roots (removes_file staging) w u c
finish-IsConfined os roots path staging (none, written, w) p u c =
    let flushed = perform-IsConfined os roots (flushes staging) w u c in
    elim (Option-cases (perform os (flushes staging) w).0) [
      | inl e ↦
          rw (e, finish)
            (move_over-IsConfined os roots path staging written (perform os (flushes staging) w).1 p
              u flushed)
      | inr (error, e) ↦
          rw (e, finish) (perform-IsConfined os roots (removes_file staging) _ u flushed)
    ]

pub write_to-IsConfined :
    (os : Os) (roots : List FilePath) (limit : ℕ) (path staging : FilePath)
    (body : List (Option (List ℕ))) (w : World)
    → IsUnder roots path
    → IsUnder roots staging
    → IsConfined roots w
    → IsConfined roots (write_to os limit path staging body w).1
unfolding write_to
write_to-IsConfined os roots limit path staging body w p u c =
    let created = perform-IsConfined os roots (creates_new staging) w u c in
    elim (Option-cases (perform os (creates_new staging) w).0) [
      | inl e ↦
          rw (e, write_to)
            (finish-IsConfined os roots path staging _ p u
              (receive-IsConfined os roots staging limit body 0 _ u created))
      | inr (error, e) ↦ rw (e, write_to) created
    ]
