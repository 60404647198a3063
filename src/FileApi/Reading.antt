-- ===== src/FileApi/Reading.antt =====
-- The requests of monitor/src/api/fs.rs that read: `roots`, `list`, `stat` and `read`.
use azad_server_box.Prelude.{
  ℕ, zero, suc, ◌+◌, ◌*◌, is_empty, ◌%◌, Option, none, some, List, [], ◌∷◌, ◌++◌, map,
  if◌then◌else◌, length, take, drop, Text, codes, Result, ok, err,
}
use azad_server_box.Prelude.Map.{lookup}
use azad_server_box.FsRoots.{
  FilePath, FsRoots, FsDenied, outside_roots, resolve_existing, split_last,
}
use azad_server_box.FileApi.{
  IoError, File, FsCall, reads_dir, opens, seeks, stats, reads_link, World, Metadata, Os, perform,
  EntryView, Reply, denied, failed, not_found, roots_are, entries_are, entry_is, streams,
}
use azad_server_box.FileApi.Paths.{path_eq, exposed_path}

unfoldable pub kind_of : Metadata → Text
kind_of meta =
    if meta.is_symlink
    then codes "link"
    else if meta.is_dir
    then codes "dir"
    else if meta.is_file
    then codes "file"
    else codes "other"

-- `mode() & 0o7777`
abbrev pub mode_of : Metadata → ℕ
mode_of meta = meta.mode % 4096

-- `file_name`, or the whole path where there is none.
unfoldable pub name_of : FilePath → Text
unfolding split_last exposed_path
name_of path = elim (split_last path) [ none ↦ exposed_path path | some (_, name) ↦ name ]

unfoldable pub entry_view : Text → Option Text → Result Metadata IoError → EntryView
unfolding kind_of
entry_view name link_target (err _) = record {
  name = name;
  kind = codes "other";
  size = none;
  modified = none;
  mode = none;
  link_target = none;
}
entry_view name link_target (ok meta) = record {
  name = name;
  kind = kind_of meta;
  size = if meta.is_file then some meta.len else none;
  modified = meta.modified;
  mode = some (mode_of meta);
  link_target = if meta.is_symlink then link_target else none;
}

abbrev pub link_calls : FilePath → Result Metadata IoError → List FsCall
link_calls path (err _) = []
link_calls path (ok meta) = if meta.is_symlink then reads_link path ∷ [] else []

unfoldable pub view_of : Os → FilePath → World → EntryView × World
unfolding entry_view name_of
view_of os path w = (
  entry_view (name_of path) (os.read_link path) (os.symlink_metadata path),
  record w { calls = link_calls path (os.symlink_metadata path) ++ stats path ∷ w.calls },
)

unfoldable pub roots : FsRoots → World → Reply × World
unfolding exposed_path
roots fs w = (roots_are (map exposed_path fs.roots), w)

-- The loop of `list`, which ends at the first error.
unfoldable pub list_entries :
    Os → FilePath → List (Result Text IoError) → World → Result (List EntryView) IoError × World
unfolding view_of
list_entries os dir [] w = (ok [], w)
list_entries os dir (err e ∷ more) w = (err e, w)
list_entries os dir (ok name ∷ more) w =
    let (view, seen) = view_of os (dir ++ name ∷ []) w in
    let (rest, last) = list_entries os dir more seen in
    (elim rest [ ok views ↦ ok (view ∷ views) | err e ↦ err e ], last)

unfoldable pub list_dir : Os → FilePath → World → Reply × World
unfolding list_entries perform
list_dir os dir w =
    let (error, opened) = perform os (reads_dir dir) w in
    elim error [
      | some e ↦ (failed e, opened)
      | none ↦
          let (listed, last) = list_entries os dir (os.entries dir) opened in
          (elim listed [ ok views ↦ entries_are views | err e ↦ failed e ], last)
    ]

unfoldable pub list : Os → FsRoots → Text → World → Reply × World
unfolding list_dir
list os fs requested w = elim (resolve_existing os.canonicalize fs requested) [
  | err e ↦ (denied e, w)
  | ok dir ↦ list_dir os dir w
]

-- Absence and refusal are one answer.
unfoldable pub stat_denied : FsDenied → Reply
stat_denied outside_roots = failed not_found
stat_denied e = denied e

unfoldable pub stat : Os → FsRoots → Text → World → Reply × World
unfolding stat_denied view_of
stat os fs requested w = elim (resolve_existing os.canonicalize fs requested) [
  | err e ↦ (stat_denied e, w)
  | ok path ↦ let (view, last) = view_of os path w in (entry_is view, last)
]

abbrev pub chunk : ℕ
chunk = 32 * 1024

-- The loop of the stream: a read fills the buffer where it can and moves the position on, one of no bytes ends the stream, and so does
-- an error, which it yields. The fuel is more than the bytes.
unfoldable pub read_chunks :
    Os → FilePath → ℕ → (position : ℕ) → List ℕ → List (Result (List ℕ) IoError)
read_chunks os path zero position bytes = []
read_chunks os path (suc fuel) position bytes =
    let got = take chunk (drop position bytes) in
    let rest = read_chunks os path fuel (position + length got) bytes in
    elim (os.read_error path position) [
      | some e ↦ err e ∷ []
      | none ↦ if is_empty got then [] else ok got ∷ rest
    ]

unfoldable pub stream_from : Os → FilePath → ℕ → Option File → List (Result (List ℕ) IoError)
unfolding read_chunks
stream_from os path position none = []
stream_from os path position (some f) = read_chunks os path (suc (length f.bytes)) position f.bytes

-- The position of the file: a file is at its start, and `if offset > 0` it is sought.
unfoldable pub seek_to : Os → FilePath → ℕ → World → Result ℕ IoError × World
unfolding perform
seek_to os path zero w = (ok 0, w)
seek_to os path (suc offset) w =
    let (error, sought) = perform os (seeks path (suc offset)) w in
    (elim error [ none ↦ ok (suc offset) | some e ↦ err e ], sought)

unfoldable pub reply_read : Os → FilePath → Result ℕ IoError → Option File → Reply
unfolding stream_from
reply_read os path (err e) file = failed e
reply_read os path (ok position) file = streams (stream_from os path position file)

unfoldable pub read_at : Os → FilePath → ℕ → World → Reply × World
unfolding seek_to reply_read perform
read_at os path offset w =
    let (error, opened) = perform os (opens path) w in
    let (position, sought) = seek_to os path offset opened in
    elim error [
      | some e ↦ (failed e, opened)
      | none ↦ (reply_read os path position (lookup path w.disk), sought)
    ]

unfoldable pub read : Os → FsRoots → Text → ℕ → World → Reply × World
unfolding read_at
read os fs requested offset w = elim (resolve_existing os.canonicalize fs requested) [
  | err e ↦ (denied e, w)
  | ok path ↦ read_at os path offset w
]
