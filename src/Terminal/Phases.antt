-- ===== src/Terminal/Phases.antt =====
-- `Phase` of monitor/src/api/ws/terminal.rs: where a connection is. The cell that the tasks of a connection share is an
-- argument and a result. A session is known by the channel that its input enters.
use azad_server_box.Prelude.{ℕ, Bool, true, false, Option, none, some, if◌then◌else◌, Text, nat_beq}
use azad_server_box.Session.Attachment.{Sender}
use azad_server_box.Terminal.Messages.{SshSession, Geometry}

pub data Phase : Type 0 where
  idle opening : Phase
  authenticating : (ssh : SshSession) (user : Text) (geometry : Geometry) (deadline : ℕ) → Phase
  running : (session : Sender) (attachment : ℕ) (handle : Text) → Phase
  done : Phase

-- `matches!(phase, Phase::Opening)`
unfoldable pub is_opening : Phase → Bool
is_opening opening = true
is_opening _ = false

unfoldable pub claim_idle : Phase → Bool × Phase
claim_idle idle = (true, opening)
claim_idle previous = (false, previous)

unfoldable pub reset_opening : Phase → Phase
reset_opening opening = idle
reset_opening phase = phase

unfoldable pub set_if_opening : Phase → Phase → Bool × Phase
unfolding is_opening
set_if_opening phase next = if is_opening phase then (true, next) else (false, phase)

-- The timer that `arm_auth_timeout` started for a deadline.
unfoldable pub expire : ℕ → Phase → Option (SshSession × Text) × Phase
expire deadline (authenticating ssh user geometry active) =
    if nat_beq active deadline
    then (some (ssh, user), idle)
    else (none, authenticating ssh user geometry active)
expire deadline current = (none, current)

-- The exchange that an answer continues: `mem::replace`, undone where there is none.
unfoldable pub take_exchange : Phase → Option (SshSession × Text × Geometry) × Phase
take_exchange (authenticating ssh user geometry _) = (some (ssh, user, geometry), opening)
take_exchange other = (none, other)

-- The session that is driven, its attachment and its handle.
unfoldable pub driven : Phase → Option (Sender × ℕ × Text)
driven (running session attachment handle) = some (session, attachment, handle)
driven _ = none
