-- ===== src/Session/Store.antt =====
-- `SessionStore` of monitor/src/api/ws/session.rs. The map behind the mutex is an argument and a result
-- of each call; the random bytes and the clock are arguments; what enters channels is returned as effects.
pub mod Access
pub mod Reaping
use azad_server_box.Prelude.{
  ℕ, ◌+◌, ◌-◌, ◌≡◌, Bool, true, false, not, Option, none, some, List, [], ◌∷◌, ◌++◌, map, leb,
  nat_beq, if◌then◌else◌, length, Text, Eq, ◌==◌, text_eq, Result, ok, err,
}
use azad_server_box.Prelude.Strings.{split_once}
use azad_server_box.Prelude.Map.{Map, lookup, insert, remove}
use azad_server_box.Secrets.{random_hex, constant_time_eq}
use azad_server_box.Session.Attachment.{
  Session, SessionAuth, ssh, local, SessionInput, close_input, full_access_revoked, Sender, Effect,
  delivers, delivers_input, queues_input, TrySend, sent, full, disconnected, close,
}

pub record SessionStore : Type 0 where
  pub sessions : Map Text Session
  pub max : ℕ
  pub detached_timeout : ℕ

pub data AttachError : Type 0 where
  unknown wrong_subject bad_secret : AttachError

unfoldable pub new : ℕ → ℕ → SessionStore
new max detached_timeout = record { sessions = []; max = max; detached_timeout = detached_timeout }

-- Unattached past the timeout.
unfoldable pub is_expired : ℕ → ℕ → Session → Bool
is_expired now timeout s = elim s.attachment.detached_at [
  | none ↦ false
  | some at ↦ leb timeout (now - at)
]

-- The ids of the sessions that pass a test: `filter(…).map(…).collect()`.
unfoldable pub ids_where : (Session → Bool) → Map Text Session → List Text
ids_where p [] = []
ids_where p ((id, s) ∷ m) = let rest = ids_where p m in if p s then id ∷ rest else rest

-- `ids.into_iter().filter_map(|id| sessions.remove(&id)).collect()`
unfoldable pub take_ids : List Text → Map Text Session → List Session × Map Text Session
take_ids [] m = ([], m)
take_ids (id ∷ ids) m =
    let (taken, rest) = take_ids ids (remove id m) in
    (elim (lookup id m) [ none ↦ taken | some s ↦ s ∷ taken ], rest)

unfoldable pub take_expired : Map Text Session → ℕ → ℕ → List Session × Map Text Session
unfolding ids_where take_ids is_expired
take_expired sessions now timeout = take_ids (ids_where (is_expired now timeout) sessions) sessions

-- A `Close` for the shell side: at once, or by a task where the queue is full.
unfoldable pub send_close : TrySend → Sender → List Effect
send_close sent input = delivers_input input close_input ∷ []
send_close full input = queues_input input close_input ∷ []
send_close disconnected input = []

-- `terminate`: the sessions as it leaves them, and the effects. The runtime's answers are a function of the channel.
pub terminate : (Sender → TrySend) → ℕ → List Session → List Session × List Effect
unfolding close send_close
terminate answer now [] = ([], [])
terminate answer now (s ∷ ss) =
    let (closed, effects) = terminate answer now ss in
    ((close now s).1 ∷ closed, send_close (answer s.input) s.input ++ effects)

-- The entry that is tried once expired sessions are out.
unfoldable pub place : SessionStore → Text → Session → Option (Text × Session) × SessionStore
place store id s =
    if leb store.max (length store.sessions)
    then (none, store)
    else (some (id ++ b'.' ∷ s.secret, s), record store { sessions = insert id s store.sessions })

-- `insert` once both random texts are there.
unfoldable pub insert_with :
    (Sender → TrySend)
    → SessionStore
    → Session
    → ℕ
    → Text
    → Text
    → Option (Text × Session) × List Effect × SessionStore
unfolding take_expired place terminate
insert_with answer store s now id secret =
    let (expired, live) = take_expired store.sessions now store.detached_timeout in
    let (placed, after) =
      place (record store { sessions = live }) id (record s { secret = secret }) in
    (placed, (terminate answer now expired).1, after)

-- `SessionStore::insert`; `err` is a failure of the random generator.
unfoldable pub insert_session :
    (Sender → TrySend)
    → SessionStore
    → Session
    → ℕ
    → Option (List ℕ)
    → Option (List ℕ)
    → Result (Option (Text × Session)) (Unit {0}) × List Effect × SessionStore
unfolding random_hex insert_with
insert_session answer store s now id_bytes secret_bytes = elim (random_hex id_bytes) [
  | none ↦ (err tt, [], store)
  | some id ↦ elim (random_hex secret_bytes) [
    | none ↦ (err tt, [], store)
    | some secret ↦
        let (placed, effects, after) = insert_with answer store s now id secret in
        (ok placed, effects, after)
  ]
]

unfoldable pub get_checked : Text → Text → Option Session → Result Session AttachError
get_checked secret subject none = err unknown
get_checked secret subject (some s) =
    if not (constant_time_eq s.secret secret)
    then err bad_secret
    else if not (s.subject == subject)
    then err wrong_subject
    else ok s

pub get : SessionStore → Text → Text → Result Session AttachError
unfolding get_checked
get store handle subject = elim (split_once b'.' handle) [
  | none ↦ err unknown
  | some (id, secret) ↦ get_checked secret subject (lookup id store.sessions)
]

unfoldable pub remove_session : SessionStore → Text → SessionStore
remove_session store handle =
    let id : Text = elim (split_once b'.' handle) [ none ↦ handle | some (id, _) ↦ id ] in
    record store { sessions = remove id store.sessions }

unfoldable pub is_local : Session → Bool
is_local s = elim s.auth [ local ↦ true | ssh ↦ false ]

-- The notice to the connection that a local session had, if its queue has room.
unfoldable pub revoke : (Sender → TrySend) → Option Sender → List Effect
revoke answer none = []
revoke answer (some tx) = elim (answer tx) [ sent ↦ delivers tx full_access_revoked ∷ [] | _ ↦ [] ]

pub close_each : (Sender → TrySend) → ℕ → List Session → List Effect
unfolding revoke send_close close
close_each answer now [] = []
close_each answer now (s ∷ ss) =
    revoke answer (close now s).0
    ++ (send_close (answer s.input) s.input ++ close_each answer now ss)

unfoldable pub close_local : (Sender → TrySend) → ℕ → SessionStore → ℕ × List Effect × SessionStore
unfolding ids_where take_ids is_local close_each
close_local answer now store =
    let (closing, rest) = take_ids (ids_where is_local store.sessions) store.sessions in
    (length closing, close_each answer now closing, record store { sessions = rest })

unfoldable pub reap_at : (Sender → TrySend) → ℕ → SessionStore → ℕ × List Effect × SessionStore
unfolding take_expired terminate
reap_at answer now store =
    let (expired, live) = take_expired store.sessions now store.detached_timeout in
    (length expired, (terminate answer now expired).1, record store { sessions = live })

pub len : SessionStore → ℕ
len store = length store.sessions
