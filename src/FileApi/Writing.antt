-- ===== src/FileApi/Writing.antt =====
-- The requests of monitor/src/api/fs.rs that change files: `write`, `mkdir`, `remove`, `rename` and `chmod`, on Unix.
use azad_server_box.Prelude.{
  ℕ, ◌+◌, ◌%◌, Bool, true, false, Option, none, some, List, [], ◌∷◌, if◌then◌else◌, ltb, length,
  Text, ok, err,
}
use azad_server_box.Prelude.Map.{Map, lookup}
use azad_server_box.FsRoots.{
  FilePath, FsRoots, outside_roots, resolve_existing, resolve_new, resolve_entry,
}
use azad_server_box.RemoteAccess.{Fs}
use azad_server_box.FileApi.{
  IoError, File, FsCall, stats, creates_new, appends, flushes, removes_file, removes_dir,
  removes_tree, makes_dirs, sets_mode, renames, World, Metadata, Os, perform, Reply, denied, failed,
  bad_request, too_large, wrote, empty_ok,
}
use azad_server_box.FileApi.Paths.{path_eq, staging_path, is_root}

-- The loop over the body: a chunk that did not arrive is `none`.
unfoldable pub receive :
    Os → FilePath → ℕ → List (Option (List ℕ)) → ℕ → World → Option Reply × ℕ × World
unfolding perform
receive os staging limit [] written w = (none, written, w)
receive os staging limit (none ∷ body) written w = (some bad_request, written, w)
receive os staging limit (some bytes ∷ body) written w =
    let total = written + length bytes in
    let (error, after) = perform os (appends staging written bytes) w in
    let rest = receive os staging limit body total after in
    if ltb limit total
    then (some (too_large limit), total, w)
    else elim error [ some e ↦ (some (failed e), total, after) | none ↦ rest ]

-- `let _ = remove_file(staging)` and the reply of the failure.
unfoldable pub abandon : Os → FilePath → Reply → World → Reply × World
unfolding perform
abandon os staging reply w = (reply, (perform os (removes_file staging) w).1)

-- `metadata` of the destination, which follows links: a file on the disk, or what the system says of what is not a file.
unfoldable pub existing_mode : Os → FilePath → Map FilePath File → Option ℕ
existing_mode os path disk = elim (lookup path disk) [
  | some existing ↦ some existing.mode
  | none ↦ elim (os.metadata path) [ ok meta ↦ some meta.mode | err _ ↦ none ]
]

-- The permissions of what is there are carried over; a failure is only logged.
unfoldable pub carry_mode : Os → FilePath → FilePath → World → World
unfolding perform existing_mode
carry_mode os path staging w = elim (existing_mode os path w.disk) [
  | none ↦ record w { calls = stats path ∷ w.calls }
  | some mode ↦ (perform os (sets_mode staging mode) (record w { calls = stats path ∷ w.calls })).1
]

unfoldable pub move_over : Os → FilePath → FilePath → ℕ → World → Reply × World
unfolding abandon carry_mode perform
move_over os path staging written w =
    let (error, after) = perform os (renames staging path) (carry_mode os path staging w) in
    elim error [ none ↦ (wrote written, after) | some e ↦ abandon os staging (failed e) after ]

-- `flush` is left out where the body failed.
unfoldable pub finish : Os → FilePath → FilePath → Option Reply × ℕ × World → Reply × World
unfolding abandon move_over perform
finish os path staging (some reply, _, w) = abandon os staging reply w
finish os path staging (none, written, w) =
    let (error, flushed) = perform os (flushes staging) w in
    elim error [
      | some e ↦ abandon os staging (failed e) flushed
      | none ↦ move_over os path staging written flushed
    ]

unfoldable pub write_to :
    Os → ℕ → FilePath → FilePath → List (Option (List ℕ)) → World → Reply × World
unfolding perform receive finish
write_to os limit path staging body w =
    let (error, created) = perform os (creates_new staging) w in
    elim error [
      | some e ↦ (failed e, created)
      | none ↦ finish os path staging (receive os staging limit body 0 created)
    ]

-- `pid` and `n` are the process id and the value of the counter.
unfoldable pub write : Os → Fs → (pid n : ℕ) → Text → List (Option (List ℕ)) → World → Reply × World
unfolding write_to staging_path
write os fs pid n requested body w = elim (resolve_new os.canonicalize fs.roots requested) [
  | err e ↦ (denied e, w)
  | ok path ↦ write_to os fs.max_write_bytes path (staging_path pid n path) body w
]

-- One call, and the reply to what came of it.
unfoldable pub reply_of : Option IoError × World → Reply × World
reply_of (none, w) = (empty_ok, w)
reply_of (some e, w) = (failed e, w)

unfoldable pub mkdir : Os → FsRoots → Text → World → Reply × World
unfolding reply_of perform
mkdir os fs requested w = elim (resolve_new os.canonicalize fs requested) [
  | err e ↦ (denied e, w)
  | ok path ↦ reply_of (perform os (makes_dirs path) w)
]

abbrev pub exists : Os → FilePath → Bool
exists os path = elim (os.symlink_metadata path) [ ok _ ↦ true | err _ ↦ false ]

-- The call that deletes what is there: a link is not followed.
unfoldable pub removal : Bool → Metadata → FilePath → FsCall
removal recursive meta path =
    if meta.is_dir
    then if recursive then removes_tree path else removes_dir path
    else removes_file path

unfoldable pub remove_at : Os → Bool → FilePath → World → Reply × World
unfolding removal reply_of perform
remove_at os recursive path w = elim (os.symlink_metadata path) [
  | err e ↦ (failed e, record w { calls = stats path ∷ w.calls })
  | ok meta ↦
      reply_of
        (perform os (removal recursive meta path) (record w { calls = stats path ∷ w.calls }))
]

unfoldable pub remove_entry : Os → FsRoots → Text → Bool → World → Reply × World
unfolding remove_at is_root
remove_entry os fs requested recursive w =
    elim (resolve_entry os.canonicalize (exists os) fs requested) [
      | err e ↦ (denied e, w)
      | ok path ↦
          if is_root fs.roots path then (denied outside_roots, w) else remove_at os recursive path w
    ]

unfoldable pub rename_to : Os → FsRoots → FilePath → FilePath → World → Reply × World
unfolding is_root reply_of perform
rename_to os fs from to w =
    if is_root fs.roots from
    then (denied outside_roots, w)
    else reply_of (perform os (renames from to) w)

unfoldable pub rename : Os → FsRoots → Text → Text → World → Reply × World
unfolding rename_to
rename os fs from to w = elim (resolve_entry os.canonicalize (exists os) fs from) [
  | err e ↦ (denied e, w)
  | ok source ↦ elim (resolve_new os.canonicalize fs to) [
    | err e ↦ (denied e, w)
    | ok destination ↦ rename_to os fs source destination w
  ]
]

-- `mode & 0o7777`
abbrev pub permission_bits : ℕ → ℕ
permission_bits mode = mode % 4096

unfoldable pub chmod : Os → FsRoots → Text → ℕ → World → Reply × World
unfolding reply_of perform
chmod os fs requested mode w = elim (resolve_existing os.canonicalize fs requested) [
  | err e ↦ (denied e, w)
  | ok path ↦ reply_of (perform os (sets_mode path (permission_bits mode)) w)
]
