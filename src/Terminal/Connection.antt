-- ===== src/Terminal/Connection.antt =====
-- The frames of a connection of monitor/src/api/ws/terminal.rs: `handler`, `on_control`, `on_input`, the timer of an
-- exchange, and the end of the socket. A control message that does not parse is `none`.
use azad_server_box.Prelude.{
  ℕ, Option, none, some, List, [], ◌∷◌, if◌then◌else◌, Text, text_eq, codes, nat_beq, ok, err,
}
use azad_server_box.Prelude.Map.{lookup, insert}
use azad_server_box.RemoteAccess.{RemoteAccess}
use azad_server_box.Session.Attachment.{
  Sender, input_data, close_input, resize, detach, SessionInput,
}
use azad_server_box.Session.Store.{
  SessionStore, AttachError, unknown, wrong_subject, bad_secret, get, remove_session,
}
use azad_server_box.Audit.{Action, Outcome}
use azad_server_box.Terminal.Messages.{
  SshSession, Credential, into_credential, Geometry, ClientMsg, open_msg, attach_msg, answer_msg,
  resize_msg, close_msg, Act, sends, feeds, dials, answers_prompts, spawns_shell, disconnects,
  error_frame, pong_frame, close_normal, close_unsupported, auth_timeout,
}
use azad_server_box.Terminal.Admission.{ConnCtx}
use azad_server_box.Terminal.Phases.{Phase, done, claim_idle, expire, take_exchange, driven}
use azad_server_box.Terminal.Tasks.{
  Task, refusing, connecting, stepping, spawning, rejoining, Reply, Shared, Conn, Turn, turn,
  full_access_allowed, event, fail, id_of,
}
use azad_server_box.Terminal.Turns.{resume}

pub data Frame : Type 0 where
  text : Option ClientMsg → Frame
  binary continuation ping pong : List ℕ → Frame
  first_text close_frame : Frame

-- What is typed reaches the session that is driven, if there is one.
unfoldable pub feed_driven : SessionInput → Option (Sender × ℕ × Text) → List Act
feed_driven input none = []
feed_driven input (some (session, _, _)) = feeds session input ∷ []

unfoldable pub on_input : List ℕ → Phase → List Act
unfolding feed_driven driven
on_input [] phase = []
on_input (b ∷ bytes) phase = feed_driven (input_data (b ∷ bytes)) (driven phase)

-- The connection of a session that stays in the store is taken off it.
unfoldable pub detach_stored : ℕ → Option (Sender × ℕ × Text) → SessionStore → SessionStore
unfolding id_of
detach_stored now none store = store
detach_stored now (some (session, attachment, handle)) store =
    elim (lookup (id_of handle) store.sessions) [
      | none ↦ store
      | some s ↦
          if nat_beq s.input session
          then record store {
            sessions = insert (id_of handle) (detach now attachment s).1 store.sessions;
          }
          else store
    ]

-- The end of the socket, and a closing frame.
unfoldable pub disconnect : ℕ → Shared → Phase → Task → List Act → Turn
unfolding detach_stored driven
disconnect now shared phase task acts =
    turn (record shared { store = detach_stored now (driven phase) shared.store }) done task acts

unfoldable pub reason : AttachError → Text
reason unknown = codes "Unknown"
reason wrong_subject = codes "WrongSubject"
reason bad_secret = codes "BadSecret"

abbrev bad_request : Text → List Act
bad_request message = sends (error_frame (codes "bad_request") message) ∷ []

-- The start of `open_local`.
unfoldable pub begin_local : RemoteAccess → ConnCtx → Geometry → Shared → Phase → Turn
unfolding full_access_allowed event
begin_local remote_access ctx geometry shared phase =
    if full_access_allowed remote_access ctx shared
    then turn shared phase (spawning geometry) (spawns_shell geometry ∷ [])
    else turn shared phase
        (refusing (codes "full_access_disabled")
          (codes "This agent does not allow opening a terminal without SSH credentials"))
        (event ctx Action.denied Outcome.denied none (some (codes "full access disabled")) ∷ [])

-- `open` up to the connection, or `open_local` where there is no credential.
unfoldable pub begin_open :
    RemoteAccess → ConnCtx → Text → Geometry → Option Credential → Shared → Phase → Turn
unfolding begin_local
begin_open remote_access ctx user geometry none shared phase =
    begin_local remote_access ctx geometry shared phase
begin_open remote_access ctx user geometry (some credential) shared phase =
    turn shared phase (connecting user credential geometry) (dials remote_access.ssh_addr ∷ [])

-- `attach` up to the session that its handle opens.
unfoldable pub begin_attach : ConnCtx → Text → ℕ → ℕ → ℕ → Shared → Phase → Turn
unfolding reason event
begin_attach ctx handle since cols rows shared phase = elim (get shared.store handle ctx.subject) [
  | ok _ ↦ turn shared phase (rejoining handle since cols rows) []
  | err e ↦
      turn shared phase
        (refusing (codes "session_gone") (codes "That terminal session is no longer available"))
        (event ctx Action.attaches Outcome.denied none (some (reason e)) ∷ [])
]

abbrev started_already : Shared → Phase → Task → Turn
started_already shared phase task =
    turn shared phase task (bad_request (codes "Session already started"))

-- `ClientMsg::Close`: the session that is driven leaves the store.
unfoldable pub close_driven : Option (Sender × ℕ × Text) → Shared → Task → Turn
close_driven none shared task = turn shared done task (sends close_normal ∷ [])
close_driven (some (session, _, handle)) shared task =
    turn (record shared { store = remove_session shared.store handle }) done task
      (feeds session close_input ∷ sends close_normal ∷ [])

-- `answer` up to the server's step.
unfoldable pub begin_answer :
    List Text → Option (SshSession × Text × Geometry) × Phase → Shared → Task → Turn
begin_answer answers (some (ssh, user, geometry), phase) shared task =
    turn shared phase (stepping ssh user geometry) (answers_prompts ssh answers ∷ [])
begin_answer answers (none, phase) shared task =
    turn shared phase task (bad_request (codes "No prompt is outstanding"))

unfoldable pub on_control : RemoteAccess → ConnCtx → Option ClientMsg → Shared → Phase → Task → Turn
unfolding claim_idle into_credential begin_open begin_attach begin_answer take_exchange feed_driven
    driven close_driven
on_control remote_access ctx none shared phase task =
    turn shared phase task (bad_request (codes "Unrecognised control message"))
on_control remote_access ctx (some (open_msg user auth geometry)) shared phase task =
    let (claimed, phase') = claim_idle phase in
    if claimed
    then begin_open remote_access ctx user geometry (into_credential auth) shared phase'
    else started_already shared phase' task
on_control remote_access ctx (some (attach_msg session since cols rows)) shared phase task =
    let (claimed, phase') = claim_idle phase in
    if claimed
    then begin_attach ctx session since cols rows shared phase'
    else started_already shared phase' task
on_control remote_access ctx (some (answer_msg answers)) shared phase task =
    begin_answer answers (take_exchange phase) shared task
on_control remote_access ctx (some (resize_msg cols rows)) shared phase task =
    turn shared phase task (feed_driven (resize cols rows) (driven phase))
on_control remote_access ctx (some close_msg) shared phase task =
    close_driven (driven phase) shared task

unfoldable pub on_frame : RemoteAccess → ConnCtx → ℕ → Frame → Shared → Phase → Task → Turn
unfolding on_control on_input disconnect
on_frame remote_access ctx now (text msg) shared phase task =
    on_control remote_access ctx msg shared phase task
on_frame remote_access ctx now (binary bytes) shared phase task =
    turn shared phase task (on_input bytes phase)
on_frame remote_access ctx now (continuation bytes) shared phase task =
    turn shared phase task (on_input bytes phase)
on_frame remote_access ctx now (ping payload) shared phase task =
    turn shared phase task (sends (pong_frame payload) ∷ [])
on_frame remote_access ctx now (pong _) shared phase task = turn shared phase task []
on_frame remote_access ctx now close_frame shared phase task =
    disconnect now shared phase task (sends close_normal ∷ [])
on_frame remote_access ctx now first_text shared phase task =
    turn shared phase task (sends close_unsupported ∷ [])

-- The timer for a deadline.
unfoldable pub auth_expires : ConnCtx → ℕ → Shared → Phase → Task → Turn
unfolding expire fail
auth_expires ctx deadline shared phase task =
    let (expired, after) = expire deadline phase in
    turn shared after task
      (elim expired [ none ↦ [] | some (ssh, user) ↦ disconnects ssh ∷ fail ctx user auth_timeout ])

-- What happens to a connection: a frame, a reply to its task, the end of the socket, the timer.
pub data Happening : Type 0 where
  frames : (now : ℕ) → Frame → Happening
  replies : Reply → Happening
  drops : (now : ℕ) → Happening
  expires : (deadline : ℕ) → Happening

unfoldable pub happen : RemoteAccess → ConnCtx → Happening → Shared → Conn → Turn
unfolding on_frame resume disconnect auth_expires
happen remote_access ctx (frames now frame) shared c =
    on_frame remote_access ctx now frame shared c.phase c.task
happen remote_access ctx (replies reply) shared c =
    resume remote_access ctx reply shared c.phase c.task
happen remote_access ctx (drops now) shared c = disconnect now shared c.phase c.task []
happen remote_access ctx (expires deadline) shared c =
    auth_expires ctx deadline shared c.phase c.task
