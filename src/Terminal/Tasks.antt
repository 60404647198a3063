-- ===== src/Terminal/Tasks.antt =====
-- The asynchronous calls of monitor/src/api/ws/terminal.rs, cut where they wait or where another thread can act: `open`,
-- `answer`, `start_shell`, `open_local` and `attach`. A task is the rest of a call with the variables that are live in it;
-- a reply is what it waited for. The flag `full_access_off` and the sessions are shared by all connections.
use azad_server_box.Prelude.{
  ℕ, Bool, not, ◌&&◌, Option, none, some, List, [], ◌∷◌, ◌++◌, map, if◌then◌else◌, nat_beq, Text,
  codes, text_eq, Result, ok, err,
}
use azad_server_box.Prelude.Strings.{split_once}
use azad_server_box.Prelude.Map.{lookup, insert}
use azad_server_box.RemoteAccess.{RemoteAccess, full_access_available}
use azad_server_box.Session.Attachment.{Session, SessionAuth, Sender, Effect, TrySend, new_session}
use azad_server_box.Session.Store.{SessionStore, insert_session}
use azad_server_box.Audit.{Kind, Action, Outcome, new_event}
use azad_server_box.Terminal.Messages.{
  Credential, Geometry, SshSession, LocalShell, SshError, AuthStep, Act, sends, records, channel,
  disconnects, kills, error_frame,
}
use azad_server_box.Terminal.Messages
use azad_server_box.Terminal.Admission.{ConnCtx}
use azad_server_box.Terminal.Phases.{Phase, reset_opening}

-- Who started the shell of a session.
pub data Origin : Type 0 where
  over_ssh : SshSession → Origin
  local_shell : LocalShell → Origin

pub data Task : Type 0 where
  finished : Task
  refusing : (code message : Text) → Task
  connecting : (user : Text) (credential : Credential) (geometry : Geometry) → Task
  stepping : (ssh : SshSession) (user : Text) (geometry : Geometry) → Task
  opening_shell : (ssh : SshSession) (user : Text) (geometry : Geometry) → Task
  spawning : Geometry → Task
  registered : (shell : LocalShell) (user handle : Text) → Task
  attaching : (origin : Origin) (user handle : Text) → Task
  discarding : (handle : Text) → Task
  rejoining : (handle : Text) (since cols rows : ℕ) → Task

-- What the runtime and the generator give to a new session.
pub record Drawn : Type 0 where
  pub now : ℕ
  pub id_bytes : Option (List ℕ)
  pub secret_bytes : Option (List ℕ)
  pub input : Sender
  pub answer : Sender → TrySend

-- `none` stands for the elapsed `AUTH_TIMEOUT`. A session is found as the other threads have left it.
pub data Reply : Type 0 where
  proceeds : Reply
  connected : Option (Result SshSession SshError) → Reply
  stepped : (now : ℕ) → Option (Result AuthStep SshError) → Reply
  shell_opened : Result Drawn SshError → Reply
  spawned : Result (LocalShell × Text × Drawn) Text → Reply
  found : (now : ℕ) → Session → (receiver : Sender) → Reply

pub record Shared : Type 0 where
  pub store : SessionStore
  pub full_access_off : Bool

pub record Conn : Type 0 where
  pub phase : Phase
  pub task : Task

-- What a turn of a task leaves and does.
pub record Turn : Type 0 where
  pub shared : Shared
  pub conn : Conn
  pub acts : List Act

abbrev pub turn : Shared → Phase → Task → List Act → Turn
turn shared phase task acts = record {
  shared = shared;
  conn = record { phase = phase; task = task };
  acts = acts;
}

-- Thirty seconds, in nanoseconds.
abbrev pub auth_wait : ℕ
auth_wait = 30_000_000_000

unfoldable pub full_access_allowed : RemoteAccess → ConnCtx → Shared → Bool
full_access_allowed remote_access ctx shared =
    full_access_available remote_access ctx.secure && not shared.full_access_off

-- The row of an event of this connection.
unfoldable pub event : ConnCtx → Action → Outcome → (ssh_user detail : Option Text) → Act
unfolding new_event
event ctx action outcome ssh_user detail =
    records (record (new_event Kind.terminal action outcome) {
      subject = some ctx.subject;
      remote_ip = ctx.remote_ip;
      ssh_user = ssh_user;
      detail = detail;
    })

unfoldable pub fail : ConnCtx → Text → SshError → List Act
unfolding event
fail ctx user error =
    event ctx Action.opens Outcome.denied (some user) (some (Messages.code error))
    ∷ sends (error_frame (Messages.code error) (Messages.message error))
    ∷ []

-- `reset_opening` and the failure, where the call ends.
unfoldable pub give_up : ConnCtx → Text → SshError → Shared → Phase → List Act → Turn
unfolding fail
give_up ctx user error shared phase acts =
    turn shared (reset_opening phase) finished (acts ++ fail ctx user error)

-- `reset_opening` and an error that the log does not hold.
unfoldable pub refuse : Text → Text → Shared → Phase → List Act → Turn
refuse code message shared phase acts =
    turn shared (reset_opening phase) finished (acts ++ sends (error_frame code message) ∷ [])

-- The id in a handle: all of it where there is no dot.
unfoldable pub id_of : Text → Text
id_of handle = elim (split_once b'.' handle) [ none ↦ handle | some (id, _) ↦ id ]

-- The store shows what its sessions have become, since it shares them.
unfoldable pub write_back : Text → Session → SessionStore → SessionStore
unfolding id_of
write_back handle s store = elim (lookup (id_of handle) store.sessions) [
  | none ↦ store
  | some old ↦
      if nat_beq old.input s.input
      then record store {
        sessions =
            insert (id_of handle)
              (record old { scrollback = s.scrollback; attachment = s.attachment }) store.sessions;
      }
      else store
]

-- The end of a shell that no session may use.
unfoldable pub ends_shell : Origin → Act
ends_shell (over_ssh ssh) = disconnects ssh
ends_shell (local_shell shell) = kills shell

unfoldable pub auth_of : Origin → SessionAuth
auth_of (over_ssh _) = SessionAuth.ssh
auth_of (local_shell _) = SessionAuth.local

abbrev pub channels : List Effect → List Act
channels effects = map channel effects

-- A local session is checked once more before it is attached.
abbrev pub next_task : Origin → Text → Text → Task
next_task (over_ssh ssh) user handle = attaching (over_ssh ssh) user handle
next_task (local_shell shell) user handle = registered shell user handle

-- The three outcomes of `SessionStore::insert`.
unfoldable pub settle :
    Origin → Text → Result (Option (Text × Session)) (Unit {0}) → List Act → Shared → Phase → Turn
unfolding ends_shell refuse
settle origin user (ok (some (handle, _))) acts shared phase =
    turn shared phase (next_task origin user handle) acts
settle origin user (ok none) acts shared phase =
    refuse (codes "at_capacity") (codes "Too many terminal sessions are already open") shared phase
      (acts ++ ends_shell origin ∷ [])
settle origin user (err _) acts shared phase =
    refuse (codes "internal") (codes "Could not start the session") shared phase
      (acts ++ ends_shell origin ∷ [])

-- `Session::new` and `SessionStore::insert`.
unfoldable pub register : RemoteAccess → ConnCtx → Origin → Text → Drawn → Shared → Phase → Turn
unfolding auth_of settle
register remote_access ctx origin user drawn shared phase =
    let session =
      new_session ctx.subject user (auth_of origin) remote_access.terminal.scrollback_bytes
        drawn.input in
    let (placed, effects, store) =
      insert_session drawn.answer shared.store session drawn.now drawn.id_bytes
        drawn.secret_bytes in
    settle origin user placed (channels effects) (record shared { store = store }) phase
