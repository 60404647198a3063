-- ===== src/FileApi.antt =====
-- monitor/src/api/fs.rs: the file API, from the check of a request to the calls of the file system. A resolved path is
-- the list of its components. The files and the calls that were made are an argument and a result; what the system answers
-- to a call is a parameter.
pub mod Paths
pub mod Reading
pub mod Writing
pub mod Requests
pub mod Roots
pub mod Bounds
pub mod Effects
pub mod Parking
pub mod Atomic
pub mod Whole
pub mod Admission
pub mod Streaming
mod Tests
use azad_server_box.Prelude.{
  ℕ, ◌+◌, ◌≡◌, Bool, true, false, not, Option, none, some, List, [], ◌∷◌, ◌++◌, if◌then◌else◌, take,
  Text, codes, Eq, ◌==◌, text_eq, Result, ok, err, any, text_beq,
}
use azad_server_box.Prelude.Map.{Map, lookup, insert, remove}
use azad_server_box.FsRoots.{FilePath, FsRoots, FsDenied, describe}
use azad_server_box.RemoteAccess.{Fs, fs_available}
use azad_server_box.Audit.{Kind, Action, Outcome, Event, new_event}
use azad_server_box.FileApi.Paths.{path_eq}

pub data IoError : Type 0 where
  not_found permission_denied : IoError
  other : Text → IoError

pub record File : Type 0 where
  pub bytes : List ℕ
  pub mode : ℕ

-- The calls that name a path. An append says where it starts, so that no two are alike.
pub data FsCall : Type 0 where
  reads_dir opens stats reads_link creates_new flushes removes_file removes_dir removes_tree
        makes_dirs :
      FilePath → FsCall
  appends : FilePath → (at : ℕ) → List ℕ → FsCall
  seeks sets_mode : FilePath → ℕ → FsCall
  renames : (from to : FilePath) → FsCall

pub record World : Type 0 where
  pub disk : Map FilePath File
  pub calls : List FsCall

pub record Metadata : Type 0 where
  pub is_symlink : Bool
  pub is_dir : Bool
  pub is_file : Bool
  pub len : ℕ
  pub modified : Option ℕ
  pub mode : ℕ

-- The operating system. `answer` is the error of a call, if it has one, `read_error` that of a read of a file at a position;
-- `cut` is how much of a failed append is in the file.
pub record Os : Type 0 where
  pub canonicalize : FilePath → Option FilePath
  pub metadata : FilePath → Result Metadata IoError
  pub symlink_metadata : FilePath → Result Metadata IoError
  pub entries : FilePath → List (Result Text IoError)
  pub read_link : FilePath → Option Text
  pub answer : FsCall → Option IoError
  pub read_error : FilePath → ℕ → Option IoError
  pub cut : FsCall → ℕ

-- What a call does to the files if it succeeds.
unfoldable pub effect : FsCall → Map FilePath File → Map FilePath File
effect (creates_new path) disk = insert path (record { bytes = []; mode = 0 }) disk
effect (appends path at more) disk = elim (lookup path disk) [
  | none ↦ disk
  | some f ↦ insert path (record f { bytes = f.bytes ++ more }) disk
]
effect (removes_file path) disk = remove path disk
effect (sets_mode path mode) disk = elim (lookup path disk) [
  | none ↦ disk
  | some f ↦ insert path (record f { mode = mode }) disk
]
effect (renames from to) disk = elim (lookup from disk) [
  | none ↦ disk
  | some f ↦ insert to f (remove from disk)
]
effect _ disk = disk

-- What a call that fails leaves: a part of what was to be appended.
unfoldable pub failed_effect : ℕ → FsCall → Map FilePath File → Map FilePath File
unfolding effect
failed_effect n (appends path at more) disk = effect (appends path at (take n more)) disk
failed_effect n _ disk = disk

-- A file that is there already is not created anew.
unfoldable pub clash : FsCall → Map FilePath File → Bool
clash (creates_new path) disk = elim (lookup path disk) [ none ↦ false | some _ ↦ true ]
clash _ disk = false

unfoldable pub perform : Os → FsCall → World → Option IoError × World
unfolding effect failed_effect clash
perform os call w =
    if clash call w.disk
    then (some (other (codes "File exists")), record w { calls = call ∷ w.calls })
    else elim (os.answer call) [
      | none ↦ (none, record { disk = effect call w.disk; calls = call ∷ w.calls })
      | some e ↦ (
        some e,
        record { disk = failed_effect (os.cut call) call w.disk; calls = call ∷ w.calls },
      )
    ]

pub record EntryView : Type 0 where
  pub name : Text
  pub kind : Text
  pub size : Option ℕ
  pub modified : Option ℕ
  pub mode : Option ℕ
  pub link_target : Option Text

pub data Reply : Type 0 where
  unauthorized unavailable bad_request empty_ok : Reply
  denied : FsDenied → Reply
  failed : IoError → Reply
  too_large : (limit : ℕ) → Reply
  roots_are : List Text → Reply
  entries_are : List EntryView → Reply
  entry_is : EntryView → Reply
  streams : List (Result (List ℕ) IoError) → Reply
  wrote : (bytes : ℕ) → Reply

-- The status of a reply, and the error in its body.
unfoldable pub status : Reply → ℕ
status unauthorized = 401
status unavailable = 403
status bad_request = 400
status (denied _) = 403
status (failed not_found) = 404
status (failed permission_denied) = 403
status (failed (other _)) = 500
status (too_large _) = 413
status _ = 200

unfoldable pub error_text : Reply → Option Text
unfolding describe
error_text (denied e) = some (describe e)
error_text (failed not_found) = some (codes "not found")
error_text (failed permission_denied) = some (codes "permission denied")
error_text (failed (other e)) = some e
error_text _ = none

-- What the check of a request reads: the subject of its token, its address and its transport.
pub record Caller : Type 0 where
  pub authorized : Bool
  pub remote_ip : Option Text
  pub secure : Bool

-- `admit`: the reply of a refusal, and the row of the log.
unfoldable pub admit : Fs → Caller → (action subject : Text) → Option Reply × List Event
unfolding fs_available new_event
admit fs caller action subject =
    if not caller.authorized
    then (some unauthorized, [])
    else if not (fs_available fs caller.secure)
    then (
      some unavailable,
      record (new_event Kind.fs Action.denied Outcome.denied) {
        remote_ip = caller.remote_ip;
        detail = some (codes "file api disabled or insecure transport");
      }
          ∷ [],
    )
    else (
      none,
      record (new_event Kind.fs Action.opens Outcome.ok) {
        remote_ip = caller.remote_ip;
        subject = some (action ++ b' ' ∷ subject);
      }
          ∷ [],
    )
