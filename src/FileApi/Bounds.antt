-- ===== src/FileApi/Bounds.antt =====
-- Which paths the requests of monitor/src/api/fs.rs reach.
use azad_server_box.Prelude.{
  ℕ, zero, suc, ◌≡◌, inl, inr, refl, Bool, true, false, Option, none, some, List, [], ◌∷◌, ◌++◌,
  arith, if◌then◌else◌, All, Text, Result, ok, err, Bool-cases, Option-cases, Result-cases,
}
use azad_server_box.Prelude.Map.{Map}
use azad_server_box.FsRoots.{
  FilePath, resolve_existing, resolve_new, resolve_entry, FsDenied, outside_roots,
}
use azad_server_box.FsRoots.Confinement.{
  IsUnder, IsUnder-extend, existing-IsUnder, new-IsUnder, entry-IsUnder,
}
use azad_server_box.RemoteAccess.{Fs}
use azad_server_box.FileApi.{
  IoError, FsCall, reads_dir, opens, seeks, stats, makes_dirs, sets_mode, renames, World, Metadata,
  Os, perform, Reply, File, denied, Caller, admit,
}
use azad_server_box.FileApi.Paths.{
  path_eq, staging_path, staging_suffix, is_root, push_text-IsUnder,
}
use azad_server_box.FileApi.Reading.{
  view_of, link_calls, list_entries, list_dir, list, stat, read, read_at, seek_to, roots,
}
use azad_server_box.FileApi.Writing.{
  write, reply_of, mkdir, exists, removal, remove_at, remove_entry, rename_to, rename, chmod,
  permission_bits,
}
use azad_server_box.FileApi.Roots.{
  CallIsUnder, IsConfined, calls-IsConfined, perform-IsConfined, write_to-IsConfined,
}
use azad_server_box.FileApi.Requests.{
  Request, roots_of, lists, stats_path, makes, reads, writes, removes, moves, changes_mode,
  after_admission, operate, handle,
}
use azad_server_box.FileApi.Admission.{verb, subject_of, handle-checked}
use azad_server_box.Audit.{Event}

view_of-IsConfined :
    (os : Os) (roots : List FilePath) (path : FilePath) (w : World)
    → IsUnder roots path
    → IsConfined roots w
    → IsConfined roots (view_of os path w).1
unfolding view_of
view_of-IsConfined os roots path w u c = record { within = go (os.symlink_metadata path) }
  where
    go :
        (r : Result Metadata IoError)
        → All (CallIsUnder roots) (link_calls path r ++ stats path ∷ w.calls)
    go (err e) = (u, c.within)
    go (ok meta) = elim (Bool-cases meta.is_symlink) [
      | inl link ↦ rw link (u, (u, c.within))
      | inr plain ↦ rw plain (u, c.within)
    ]

list_entries-IsConfined :
    (os : Os) (roots : List FilePath) (dir : FilePath) (names : List (Result Text IoError))
    (w : World)
    → IsUnder roots dir
    → IsConfined roots w
    → IsConfined roots (list_entries os dir names w).1
unfolding list_entries
list_entries-IsConfined os roots dir [] w u c = c
list_entries-IsConfined os roots dir (err e ∷ more) w u c = c
list_entries-IsConfined os roots dir (ok name ∷ more) w u c =
    list_entries-IsConfined os roots dir more _ u
      (view_of-IsConfined os roots (dir ++ name ∷ []) w (IsUnder-extend roots dir (name ∷ []) u) c)

list_dir-IsConfined :
    (os : Os) (roots : List FilePath) (dir : FilePath) (w : World)
    → IsUnder roots dir
    → IsConfined roots w
    → IsConfined roots (list_dir os dir w).1
unfolding list_dir
list_dir-IsConfined os roots dir w u c =
    let opened = perform-IsConfined os roots (reads_dir dir) w u c in
    elim (Option-cases (perform os (reads_dir dir) w).0) [
      | inl e ↦
          rw (e, list_dir)
            (list_entries-IsConfined os roots dir (os.entries dir) (perform os (reads_dir dir) w).1
              u opened)
      | inr (error, e) ↦ rw (e, list_dir) opened
    ]

reply_of-world : (p : Option IoError × World) → (reply_of p).1 ≡ p.1
unfolding reply_of
reply_of-world p = ground arith

-- One call on a path below the roots.
one_call-IsConfined :
    (os : Os) (roots : List FilePath) (call : FsCall) (w : World)
    → CallIsUnder roots call
    → IsConfined roots w
    → IsConfined roots (reply_of (perform os call w)).1
one_call-IsConfined os roots call w u c =
    rw (reply_of-world (perform os call w)) (perform-IsConfined os roots call w u c)

removal-IsUnder :
    (roots : List FilePath) (recursive : Bool) (meta : Metadata) (path : FilePath)
    → IsUnder roots path
    → CallIsUnder roots (removal recursive meta path)
unfolding removal
removal-IsUnder roots recursive meta path u = elim (Bool-cases meta.is_dir) [
  | inl dir ↦ elim (Bool-cases recursive) [
    | inl deep ↦ rw (dir, removal, deep) u
    | inr flat ↦ rw (dir, removal, flat) u
  ]
  | inr plain ↦ rw (plain, removal) u
]

remove_at-IsConfined :
    (os : Os) (roots : List FilePath) (recursive : Bool) (path : FilePath) (w : World)
    → IsUnder roots path
    → IsConfined roots w
    → IsConfined roots (remove_at os recursive path w).1
unfolding remove_at
remove_at-IsConfined os roots recursive path w u c =
    let seen : World = record w { calls = stats path ∷ w.calls } in
    let looked = calls-IsConfined roots (stats path) w seen u c refl in
    elim (Result-cases (os.symlink_metadata path)) [
      | inl (meta, e) ↦
          rw (e, remove_at)
            (one_call-IsConfined os roots (removal recursive meta path) seen
              (removal-IsUnder roots recursive meta path u) looked)
      | inr (error, e) ↦ rw (e, remove_at) looked
    ]

-- A write parks its bytes beside its destination, which is outside the roots where the destination is itself a root.
abbrev pub IsBelowRoot : Os → Fs → Request → Type 0
IsBelowRoot os fs (writes requested body) =
    (path : FilePath)
    → resolve_new os.canonicalize fs.roots requested ≡ ok path
    → is_root fs.roots.roots path ≡ false
IsBelowRoot os fs _ = Unit

read_at-IsConfined :
    (os : Os) (roots : List FilePath) (path : FilePath) (offset : ℕ) (w : World)
    → IsUnder roots path
    → IsConfined roots w
    → IsConfined roots (read_at os path offset w).1
unfolding read_at
read_at-IsConfined os roots path offset w u c =
    let opened = perform-IsConfined os roots (opens path) w u c in
    elim (Option-cases (perform os (opens path) w).0) [
      | inr (error, e) ↦ rw (e, read_at) opened
      | inl e ↦ rw (e, read_at) (sought offset (perform os (opens path) w).1 opened)
    ]
  where
    sought :
        (offset : ℕ) (w : World)
        → IsConfined roots w
        → IsConfined roots (seek_to os path offset w).1
    sought zero w c = unfold seek_to in c
    sought (suc offset) w c =
        unfold seek_to in (perform-IsConfined os roots (seeks path (suc offset)) w u c)

module _ (os : Os) (fs : Fs) (w : World) (c : IsConfined fs.roots.roots w) where
  abbrev within : List FilePath
  within = fs.roots.roots

  -- A request whose path is resolved first, and which stays where it was if that fails.
  resolved-IsConfined :
      (r : Result FilePath FsDenied) (f : FilePath → Reply × World) (g : FsDenied → Reply)
      → ((path : FilePath) → r ≡ ok path → IsConfined within (f path).1)
      → IsConfined within
          (let p : Reply × World = elim r [ err e ↦ (g e, w) | ok path ↦ f path ] in p.1)
  resolved-IsConfined (ok path) f g h = h path refl
  resolved-IsConfined (err e) f g h = c

  if_root-IsConfined :
      (root : Bool) (p : Reply × World)
      → IsConfined within p.1
      → IsConfined within (if root then (denied outside_roots, w) else p).1
  if_root-IsConfined true p h = c
  if_root-IsConfined false p h = h

  operate-IsConfined :
      (pid n : ℕ) (request : Request)
      → IsBelowRoot os fs request
      → IsConfined within (operate os fs pid n request w).1
  unfolding operate roots list stat read write mkdir remove_entry rename rename_to chmod
      staging_path
  operate-IsConfined pid n roots_of b = c
  operate-IsConfined pid n (lists requested) b =
      resolved-IsConfined (resolve_existing os.canonicalize fs.roots requested) _ _ λ path e.
        list_dir-IsConfined os within path w
          (existing-IsUnder os.canonicalize fs.roots requested path e) c
  operate-IsConfined pid n (stats_path requested) b =
      resolved-IsConfined (resolve_existing os.canonicalize fs.roots requested) _ _ λ path e.
        view_of-IsConfined os within path w
          (existing-IsUnder os.canonicalize fs.roots requested path e) c
  operate-IsConfined pid n (makes requested) b =
      resolved-IsConfined (resolve_new os.canonicalize fs.roots requested) _ _ λ path e.
        one_call-IsConfined os within (makes_dirs path) w
          (new-IsUnder os.canonicalize fs.roots requested path e) c
  operate-IsConfined pid n (reads requested offset) b =
      resolved-IsConfined (resolve_existing os.canonicalize fs.roots requested) _ _ λ path e.
        read_at-IsConfined os within path _ w
          (existing-IsUnder os.canonicalize fs.roots requested path e) c
  operate-IsConfined pid n (writes requested body) b =
      resolved-IsConfined (resolve_new os.canonicalize fs.roots requested) _ _ λ path e.
        let u = new-IsUnder os.canonicalize fs.roots requested path e in
        write_to-IsConfined os within fs.max_write_bytes path (staging_path pid n path) body w u
          (push_text-IsUnder (staging_suffix pid n) within path u (b path e)) c
  operate-IsConfined pid n (removes requested recursive) b =
      resolved-IsConfined (resolve_entry os.canonicalize (exists os) fs.roots requested) _ _
        λ path e. if_root-IsConfined (is_root within path) (remove_at os recursive path w) (
          remove_at-IsConfined os within recursive path w
            (entry-IsUnder os.canonicalize fs.roots requested path (exists os) e) c)
  operate-IsConfined pid n (moves from to) b =
      resolved-IsConfined (resolve_entry os.canonicalize (exists os) fs.roots from) _ _ λ source e.
        resolved-IsConfined (resolve_new os.canonicalize fs.roots to) _ _ λ destination e'.
          if_root-IsConfined (is_root within source)
            (reply_of (perform os (renames source destination) w))
            (one_call-IsConfined os within (renames source destination) w
              (
                entry-IsUnder os.canonicalize fs.roots from source (exists os) e,
                new-IsUnder os.canonicalize fs.roots to destination e',
              )
              c)
  operate-IsConfined pid n (changes_mode requested mode) b =
      resolved-IsConfined (resolve_existing os.canonicalize fs.roots requested) _ _ λ path e.
        one_call-IsConfined os within (sets_mode path (permission_bits mode)) w
          (existing-IsUnder os.canonicalize fs.roots requested path e) c

abbrev pub untouched : Map FilePath File → World
untouched disk = record { disk = disk; calls = [] }

after_admission-IsConfined :
    (tops : List FilePath) (check : Option Reply × List Event) (p : Reply × World) (w : World)
    → IsConfined tops p.1
    → IsConfined tops w
    → IsConfined tops (after_admission check p w).2
unfolding after_admission
after_admission-IsConfined tops (some reply, events) p w h c = c
after_admission-IsConfined tops (none, events) p w h c = h

-- Whatever is asked, and whatever the file system answers: every call that a request leads to is on paths that are roots
-- or below one, unless it is a write whose destination is itself a root.
pub handle-IsConfined :
    (os : Os) (fs : Fs) (caller : Caller) (pid n : ℕ) (request : Request) (disk : Map FilePath File)
    → IsBelowRoot os fs request
    → IsConfined fs.roots.roots (handle os fs caller pid n request (untouched disk)).2
handle-IsConfined os fs caller pid n request disk b =
    let fresh : IsConfined fs.roots.roots (untouched disk) = record { within = tt } in
    rw (handle-checked os fs caller pid n request (untouched disk)) (
      after_admission-IsConfined fs.roots.roots
        (admit fs caller (verb request) (subject_of request))
        (operate os fs pid n request (untouched disk)) (untouched disk)
        (operate-IsConfined os fs (untouched disk) fresh pid n request b) fresh)
