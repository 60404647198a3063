-- ===== src/FileApi/Admission.antt =====
-- What the check of monitor/src/api/fs.rs guarantees.
use azad_server_box.Prelude.{
  ℕ, ◌≡◌, inl, inr, ◌⊎◌, refl, true, none, some, List, [], ◌∷◌, ◌++◌, arith, Text, codes,
  Bool-cases,
}
use azad_server_box.RemoteAccess.{Fs, fs_available}
use azad_server_box.Audit.{Kind, Action, Outcome, Event, new_event}
use azad_server_box.FileApi.{World, Os, Caller, unauthorized, unavailable, admit}
use azad_server_box.FileApi.Requests.{
  Request, roots_of, lists, stats_path, makes, reads, writes, removes, moves, changes_mode,
  after_admission, operate, handle,
}

-- The verb and the path that the log is to hold for a request.
unfoldable pub verb : Request → Text
verb roots_of = codes "roots"
verb (lists _) = codes "list"
verb (stats_path _) = codes "stat"
verb (makes _) = codes "mkdir"
verb (reads _ _) = codes "read"
verb (writes _ _) = codes "write"
verb (removes _ _) = codes "remove"
verb (moves _ _) = codes "rename"
verb (changes_mode _ _) = codes "chmod"

unfoldable pub subject_of : Request → Text
subject_of roots_of = []
subject_of (lists path) = path
subject_of (stats_path path) = path
subject_of (makes path) = path
subject_of (reads path _) = path
subject_of (writes path _) = path
subject_of (removes path _) = path
subject_of (moves from _) = from
subject_of (changes_mode path _) = path

-- A request that is let through, with the row that the log then holds.
pub record Passes (fs : Fs) (caller : Caller) (request : Request) (events : List Event)
    : Type 0 where
  pub authorized : caller.authorized ≡ true
  pub available : fs_available fs caller.secure ≡ true
  pub logged :
      events
      ≡ record (new_event Kind.fs Action.opens Outcome.ok) {
        remote_ip = caller.remote_ip;
        subject = some (verb request ++ b' ' ∷ subject_of request);
      }
        ∷ []

-- The check refuses, or it lets the request through and logs it.
admit-cases :
    (fs : Fs) (caller : Caller) (request : Request)
    → let (refused, events) = admit fs caller (verb request) (subject_of request) in
      ((refused ≡ none) × Passes fs caller request events)
      ⊎ ((refused ≡ some unauthorized) ⊎ (refused ≡ some unavailable))
unfolding admit
admit-cases fs caller request = elim (Bool-cases caller.authorized) [
  | inr unknown ↦ inr (inl (ground (arith, unknown)))
  | inl known ↦ elim (Bool-cases (fs_available fs caller.secure)) [
    | inr closed ↦ inr (inr (ground (arith, known, closed)))
    | inl open_api ↦ inl (
      ground (arith, known, open_api),
      record { authorized = known; available = open_api; logged = ground (arith, known, open_api) },
    )
  ]
]

-- Every handler checks its own request first.
pub handle-checked :
    (os : Os) (fs : Fs) (caller : Caller) (pid n : ℕ) (request : Request) (w : World)
    → handle os fs caller pid n request w
      ≡ after_admission
          (admit fs caller (verb request) (subject_of request))
          (operate os fs pid n request w)
          w
unfolding handle operate verb subject_of
handle-checked os fs caller pid n roots_of w = refl
handle-checked os fs caller pid n (lists path) w = refl
handle-checked os fs caller pid n (stats_path path) w = refl
handle-checked os fs caller pid n (makes path) w = refl
handle-checked os fs caller pid n (reads path offset) w = refl
handle-checked os fs caller pid n (writes path body) w = refl
handle-checked os fs caller pid n (removes path recursive) w = refl
handle-checked os fs caller pid n (moves from to) w = refl
handle-checked os fs caller pid n (changes_mode path mode) w = refl

-- Whichever of the nine handlers a request reaches: it is let through by its token, the settings and the transport, and then its
-- handler does what it is for and the log has one row with the verb and the path of the request; or it is refused, and its
-- handler makes no call of the file system and leaves every file.
pub handle-Passes :
    (os : Os) (fs : Fs) (caller : Caller) (pid n : ℕ) (request : Request) (w : World)
    → let (reply, events, after) = handle os fs caller pid n request w in
      (Passes fs caller request events × ((reply, after) ≡ operate os fs pid n request w))
      ⊎ (((reply ≡ unauthorized) ⊎ (reply ≡ unavailable)) × (after ≡ w))
unfolding after_admission
handle-Passes os fs caller pid n request w = elim (admit-cases fs caller request) [
  | inl (through, passes) ↦
      rw (handle-checked os fs caller pid n request w, through, after_admission)
        (inl (passes, refl))
  | inr (inl unknown) ↦
      rw (handle-checked os fs caller pid n request w, unknown, after_admission)
        (inr (inl refl, refl))
  | inr (inr closed) ↦
      rw (handle-checked os fs caller pid n request w, closed, after_admission)
        (inr (inr refl, refl))
]
