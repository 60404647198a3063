-- ===== src/Terminal/System.antt =====
-- All connections of monitor/src/api/ws/terminal.rs, the shells that they started, the reaper, and
-- `disable_full_access` of monitor/src/api/server.rs, each on its own thread, interleaved in any order.
use azad_server_box.Prelude.{
  ℕ, ◌≡◌, Bool, true, false, Option, none, some, List, [], if◌then◌else◌, nat_beq, Text, text_eq,
}
use azad_server_box.Prelude.Map.{lookup, insert}
use azad_server_box.RemoteAccess.{RemoteAccess, RemoteAccessConfig}
use azad_server_box.Session.Attachment.{Session, SessionOutput, Sender, TrySend, Effect, publish}
use azad_server_box.Session.Store.{SessionStore, close_local, reap_at, remove_session}
use azad_server_box.Session.Store
use azad_server_box.Terminal.Admission.{ConnCtx}
use azad_server_box.Terminal.Phases.{idle}
use azad_server_box.Terminal.Tasks.{finished, Shared, Conn, Turn}
use azad_server_box.Terminal.Connection.{Happening, happen}

-- `full_access_off.store(true)`
unfoldable pub store_flag : Shared → Shared
store_flag shared = record shared { full_access_off = true }

-- `sessions.close_local()`
unfoldable pub sweep_local : (Sender → TrySend) → ℕ → Shared → ℕ × List Effect × Shared
sweep_local answer now shared =
    let (closed, effects, store) = close_local answer now shared.store in
    (closed, effects, record shared { store = store })

pub data DisableReply : Type 0 where
  unauthorized internal_error disabled : DisableReply

-- The whole handler: whether the token is good, what the configuration file holds, and whether it can be written. The
-- section that is written comes with the reply.
unfoldable pub disable_full_access :
    Bool
    → Option RemoteAccessConfig
    → (RemoteAccessConfig → Bool)
    → (Sender → TrySend)
    → ℕ
    → Shared
    → DisableReply × Option RemoteAccessConfig × List Effect × Shared
unfolding store_flag sweep_local
disable_full_access false read write answer now shared = (unauthorized, none, [], shared)
disable_full_access true none write answer now shared = (internal_error, none, [], shared)
disable_full_access true (some remote) write answer now shared =
    let changed = record remote { full_access = some false } in
    if write changed
    then (let (closed, effects, after) = sweep_local answer now (store_flag shared) in
        (disabled, some changed, effects, after))
    else (internal_error, none, [], shared)

-- How far the handler has come.
pub data Switch : Type 0 where
  before stored swept : Switch

pub record System : Type 0 where
  pub shared : Shared
  pub conn : ℕ → Conn
  pub switch : Switch

unfoldable pub update : (ℕ → Conn) → ℕ → Conn → ℕ → Conn
update conn i c j = if nat_beq i j then c else conn j

abbrev pub after_turn : System → ℕ → Turn → System
after_turn s i t = record s { shared = t.shared; conn = update s.conn i t.conn }

abbrev pub with_store : System → SessionStore → System
with_store s store = record s { shared = record (s.shared) { store = store } }

pub data Step (remote_access : RemoteAccess) (ctx : ℕ → ConnCtx) (s : System)
    : System → Type 0 where
  turns :
      (i : ℕ) (event : Happening)
      → Step remote_access ctx s
          (after_turn s i (happen remote_access (ctx i) event s.shared (s.conn i)))
  flags :
      s.switch ≡ before
      → Step remote_access ctx s (record s { shared = store_flag s.shared; switch = stored })
  sweeps :
      (answer : Sender → TrySend) (now : ℕ)
      → s.switch ≡ stored
      → Step remote_access ctx s
          (record s { shared = (sweep_local answer now s.shared).2; switch = swept })
  shell_exits :
      (handle : Text)
      → Step remote_access ctx s (with_store s (remove_session s.shared.store handle))
  reaps :
      (answer : Sender → TrySend) (now : ℕ)
      → Step remote_access ctx s (with_store s (reap_at answer now s.shared.store).2)
  publishes :
      (id : Text) (session : Session) (result : TrySend) (now : ℕ) (output : SessionOutput)
      → lookup id s.shared.store.sessions ≡ some session
      → Step remote_access ctx s (
          with_store s (record (s.shared.store) {
            sessions = insert id (publish result now output session).0 s.shared.store.sessions;
          }))

-- The agent as it starts: no session, and nobody has connected.
abbrev pub init : ℕ → ℕ → System
init max_sessions detached_timeout = record {
  shared = record { store = Store.new max_sessions detached_timeout; full_access_off = false };
  conn = λ _. record { phase = idle; task = finished };
  switch = before;
}

pub data Reach (remote_access : RemoteAccess) (ctx : ℕ → ConnCtx) (start : System)
    : System → Type 0 where
  starts : Reach remote_access ctx start start
  later :
      {s t : System}
      → Reach remote_access ctx start s
      → Step remote_access ctx s t
      → Reach remote_access ctx start t
