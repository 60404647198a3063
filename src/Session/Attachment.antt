-- ===== src/Session/Attachment.antt =====
-- `Session` of monitor/src/api/ws/session.rs: output goes to the scrollback and to whichever connection is
-- attached. A channel of the async runtime is its identity; what `try_send` reports is an argument, and so
-- are the clock and the channel that `attach` makes. What goes into a channel is returned as effects.
pub mod Seamless
pub mod Takeover
use azad_server_box.Prelude.{
  ℕ, ◌+◌, ◌%◌, ◌≡◌, Bool, true, false, Option, none, some, List, [], ◌∷◌, ◌++◌, nat_beq,
  if◌then◌else◌, Text,
}
use azad_server_box.Session.Scrollback.{Scrollback, Replay, push, replay_from, start_seq, u64_mod}
use azad_server_box.Session.Scrollback

pub data SessionInput : Type 0 where
  input_data : List ℕ → SessionInput
  resize : ℕ → ℕ → SessionInput
  close_input : SessionInput

pub data SessionOutput : Type 0 where
  output_data : List ℕ → SessionOutput
  exit : Option ℕ → SessionOutput
  error : Text → SessionOutput
  full_access_revoked replay_required : SessionOutput

pub data SessionAuth : Type 0 where
  ssh local : SessionAuth

abbrev pub Sender : Type 0
Sender = ℕ

pub record AttachmentState : Type 0 where
  pub next_id : ℕ
  pub current : Option (ℕ × Sender)
  pub detached_at : Option ℕ
  pub closed : Bool
  pub replay_requested : Bool

pub record Session : Type 0 where
  pub subject : Text
  pub ssh_user : Text
  pub auth : SessionAuth
  pub secret : Text
  pub scrollback : Scrollback
  pub input : Sender
  pub attachment : AttachmentState

-- What `try_send` reports.
pub data TrySend : Type 0 where
  sent full disconnected : TrySend

-- What enters a channel: at once, or by a task that waits for room.
pub data Effect : Type 0 where
  delivers queues : Sender → SessionOutput → Effect
  delivers_input queues_input : Sender → SessionInput → Effect

unfoldable pub new_session : Text → Text → SessionAuth → ℕ → Sender → Session
unfolding Scrollback.new
new_session subject ssh_user auth scrollback_bytes input = record {
  subject = subject;
  ssh_user = ssh_user;
  auth = auth;
  secret = [];
  scrollback = Scrollback.new scrollback_bytes;
  input = input;
  attachment = record {
    next_id = 0;
    current = none;
    detached_at = none;
    closed = false;
    replay_requested = false;
  };
}

abbrev record_output : SessionOutput → Scrollback → Scrollback
record_output (output_data bytes) sb = push bytes sb
record_output _ sb = sb

-- The attachment after `try_send` of an output reported its result, and the effects.
unfoldable pub after_send :
    TrySend → ℕ → Sender → SessionOutput → AttachmentState → AttachmentState × List Effect
after_send sent now tx output a = (a, delivers tx output ∷ [])
after_send full now tx output a =
    (record a { replay_requested = true }, queues tx replay_required ∷ [])
after_send disconnected now tx output a = (record a { current = none; detached_at = some now }, [])

unfoldable pub send_current :
    TrySend → ℕ → SessionOutput → AttachmentState → AttachmentState × List Effect
unfolding after_send
send_current result now output a =
    if a.replay_requested
    then (a, [])
    else elim a.current [ none ↦ (a, []) | some (_, tx) ↦ after_send result now tx output a ]

unfoldable pub publish : TrySend → ℕ → SessionOutput → Session → Session × List Effect
unfolding send_current record_output
publish result now output s =
    let (a, effects) = send_current result now output s.attachment in
    (record s { scrollback = record_output output s.scrollback; attachment = a }, effects)

-- What `attach` gives to the new connection.
pub record Attached : Type 0 where
  pub id : ℕ
  pub receiver : Sender
  pub replay : Replay
  pub start : ℕ

unfoldable pub attach : ℕ → Sender → Session → Option Attached × Session
attach since tx s =
    let a = s.attachment in
    if a.closed then (none, s) else (
      some (record {
        id = a.next_id;
        receiver = tx;
        replay = replay_from s.scrollback since;
        start = start_seq s.scrollback;
      }),
      record s {
        attachment = record a {
          next_id = (a.next_id + 1) % u64_mod;
          current = some (a.next_id, tx);
          detached_at = none;
          replay_requested = false;
        };
      },
    )

abbrev is_current : ℕ → Option (ℕ × Sender) → Bool
is_current id none = false
is_current id (some (current, _)) = nat_beq current id

unfoldable pub detach : ℕ → ℕ → Session → Bool × Session
detach now id s =
    if is_current id s.attachment.current
    then (
      true,
      record s { attachment = record (s.attachment) { current = none; detached_at = some now } },
    )
    else (false, s)

abbrev sender_of : Option (ℕ × Sender) → Option Sender
sender_of none = none
sender_of (some (_, tx)) = some tx

unfoldable pub close : ℕ → Session → Option Sender × Session
close now s = (
  sender_of s.attachment.current,
  record s {
    attachment = record (s.attachment) { closed = true; detached_at = some now; current = none };
  },
)
