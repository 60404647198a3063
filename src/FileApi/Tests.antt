-- ===== src/FileApi/Tests.antt =====
-- Requests to monitor/src/api/fs.rs on a small disk.
use azad_server_box.Prelude.{
  ℕ, ◌≡◌, refl, sym, subst, ◌∙◌, Bool, true, false, Option, none, some, List, [], ◌∷◌,
  if◌then◌else◌, codes, ◌==◌, text_eq, Result, ok, err, ltb, ◌⊎◌,
}
use azad_server_box.Prelude.Map.{Map, lookup, insert, remove}
use azad_server_box.FsRoots.{
  FilePath, FsDenied, resolve_new, check_absolute, check_within, components, drop_empty,
  find_anchor, push_tail, starts_with, resolve_entry, resolve_split, entry_in, canonical,
  split_last,
}
use azad_server_box.Prelude.Strings.{split}
use azad_server_box.RemoteAccess.{Fs}
use azad_server_box.FileApi.{
  Os, File, Metadata, Caller, wrote, perform, effect, failed_effect, clash, unauthorized,
  unavailable, too_large, removes_tree, stats, streams, not_found,
}
use azad_server_box.FileApi.Paths.{path_eq, staging_path, push_text, staging_suffix, is_root}
use azad_server_box.FileApi.Reading.{stream_from, read_chunks, seek_to, reply_read, read_at}
use azad_server_box.FileApi.Writing.{
  write, write_to, receive, finish, move_over, carry_mode, existing_mode, abandon, remove_entry,
  remove_at, removal, reply_of,
}
use azad_server_box.FileApi.Requests.{lists, writes, operate, handle}
use azad_server_box.FileApi.Roots.{IsConfined}
use azad_server_box.FileApi.Bounds.{untouched, handle-IsConfined}
use azad_server_box.FileApi.Parking.{arrived}
use azad_server_box.FileApi.Atomic.{IsWhole}
use azad_server_box.FileApi.Whole.{AllArrived, write-IsWhole}
use azad_server_box.FileApi.Admission.{Passes, handle-Passes}

abbrev srv : FilePath
srv = codes "srv" ∷ []

abbrev note : FilePath
note = codes "srv" ∷ codes "note" ∷ []

abbrev directory : Metadata
directory = record {
  is_symlink = false;
  is_dir = true;
  is_file = false;
  len = 0;
  modified = none;
  mode = 493;
}

-- A system on which nothing fails: `/srv` and what is named below it are where they seem to be.
abbrev linux : Os
linux = record {
  canonicalize = λ path. if path == note then none else some path;
  metadata = λ _. ok directory;
  symlink_metadata = λ _. ok directory;
  entries = λ _. ok (codes "note") ∷ [];
  read_link = λ _. none;
  answer = λ _. none;
  read_error = λ _ _. none;
  cut = λ _. 0;
}

abbrev served : List FilePath → Fs
served roots = record {
  enabled = true;
  roots = record { roots = roots };
  allow_insecure = false;
  max_write_bytes = 4;
}

abbrev panel : Caller
panel = record { authorized = true; remote_ip = none; secure = true }

abbrev old_note : File
old_note = record { bytes = 7 ∷ []; mode = 384 }

abbrev counted_note : File
counted_note = record { bytes = 1 ∷ 2 ∷ 3 ∷ []; mode = 0 }

abbrev disk : Map FilePath File
disk = (note, old_note) ∷ []

abbrev body : List (Option (List ℕ))
body = some (1 ∷ 2 ∷ []) ∷ some (3 ∷ []) ∷ []

resolves : resolve_new linux.canonicalize (served (srv ∷ [])).roots (codes "/srv/note") ≡ ok note
unfolding resolve_new check_absolute check_within components drop_empty find_anchor push_tail
    starts_with split
resolves = refl

write-IsWhole_example :
    let result = write linux (served (srv ∷ [])) 1 0 (codes "/srv/note") body (untouched disk) in
    IsWhole note (staging_path 1 0 note) (arrived body) 4 disk result
    × ((k : ℕ) → result.0 ≡ wrote k → AllArrived body)
write-IsWhole_example =
    write-IsWhole linux (served (srv ∷ [])) 1 0 (codes "/srv/note") body (untouched disk) note
      resolves

-- The new bytes, and the permissions that were there.
replaced :
    let (reply, after) =
      write linux (served (srv ∷ [])) 1 0 (codes "/srv/note") body (untouched disk) in
    (reply ≡ wrote 3)
    × (lookup note after.disk ≡ some (record { bytes = 1 ∷ 2 ∷ 3 ∷ []; mode = 384 }))
unfolding write write_to receive finish move_over carry_mode existing_mode abandon perform effect
    failed_effect clash resolve_new check_absolute check_within components drop_empty find_anchor
    push_tail starts_with split lookup insert remove staging_path staging_suffix push_text
replaced = (refl, refl)

-- A body above the limit leaves the file.
over_limit :
    let (reply, after) =
      write linux
        (served (srv ∷ []))
        1
        0
        (codes "/srv/note")
        (some (5 ∷ 5 ∷ []) ∷ some (5 ∷ 5 ∷ 5 ∷ []) ∷ [])
        (untouched disk) in
    (reply ≡ too_large 4) × (lookup note after.disk ≡ some old_note)
unfolding write write_to receive finish move_over carry_mode existing_mode abandon perform effect
    failed_effect clash resolve_new check_absolute check_within components drop_empty find_anchor
    push_tail starts_with split lookup insert remove staging_path staging_suffix push_text
over_limit = (refl, refl)

-- A write whose destination is a root parks its bytes beside that root.
beside_root :
    (staging_path 1 0 srv ≡ codes "srv.sbm-part-1-0" ∷ []) × (is_root (srv ∷ []) srv ≡ true)
unfolding staging_path staging_suffix push_text is_root
beside_root = (refl, refl)

-- A root inside another is deleted with its parent.
nested_root :
    (remove_entry linux
      (served ((codes "srv" ∷ codes "a" ∷ codes "b" ∷ []) ∷ srv ∷ [])).roots
      (codes "/srv/a")
      true
      (untouched [])).1.calls
    ≡ removes_tree (codes "srv" ∷ codes "a" ∷ []) ∷ stats (codes "srv" ∷ codes "a" ∷ []) ∷ []
unfolding remove_entry remove_at removal reply_of perform effect clash is_root resolve_entry
    resolve_split entry_in canonical check_absolute check_within components drop_empty split_last
    starts_with split
nested_root = refl

abbrev names_root : Result FilePath FsDenied → Bool
names_root (ok path) = is_root (srv ∷ []) path
names_root (err _) = false

below_root :
    (path : FilePath)
    → resolve_new linux.canonicalize (served (srv ∷ [])).roots (codes "/srv/note") ≡ ok path
    → is_root (srv ∷ []) path ≡ false
unfolding is_root
below_root path e = subst (λ r. names_root r ≡ false) (sym resolves ∙ e) refl

handle-IsConfined_example :
    IsConfined
      (srv ∷ [])
      (handle linux
        (served (srv ∷ []))
        panel
        1
        0
        (writes (codes "/srv/note") body)
        (untouched disk)).2
handle-IsConfined_example =
    handle-IsConfined linux (served (srv ∷ [])) panel 1 0 (writes (codes "/srv/note") body) disk
      below_root

handle-Passes_example :
    let (reply, events, after) =
      handle linux (served (srv ∷ [])) panel 1 0 (lists (codes "/srv")) (untouched disk) in
    (Passes (served (srv ∷ [])) panel (lists (codes "/srv")) events
      × ((reply, after)
          ≡ operate linux (served (srv ∷ [])) 1 0 (lists (codes "/srv")) (untouched disk)))
    ⊎ (((reply ≡ unauthorized) ⊎ (reply ≡ unavailable)) × (after ≡ untouched disk))
handle-Passes_example =
    handle-Passes linux (served (srv ∷ [])) panel 1 0 (lists (codes "/srv")) (untouched disk)

-- A read that fails at the second byte.
abbrev broken : Os
broken = record linux { read_error = λ _ position. if ltb 1 position then some not_found else none }

broken_read :
    (read_at broken note 1 (untouched ((note, counted_note) ∷ []))).0
    ≡ streams (ok (2 ∷ 3 ∷ []) ∷ err not_found ∷ [])
unfolding read_at seek_to reply_read stream_from read_chunks perform effect failed_effect clash
    lookup
broken_read = refl
