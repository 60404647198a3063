-- ===== src/Terminal/Lifecycle.antt =====
-- The life of a connection of monitor/src/api/ws/terminal.rs, whatever happens to it and in whatever order.
use azad_server_box.Prelude.{
  ℕ, ◌≡◌, ◌≢◌, Option, none, some, List, [], arith, Text, Result, ok, err, Option-cases, inl, inr,
}
use azad_server_box.RemoteAccess.{RemoteAccess}
use azad_server_box.Session.Attachment.{Session, Sender}
use azad_server_box.Terminal.Messages.{
  SshSession, SshError, Credential, Geometry, AuthStep, ClientMsg, open_msg, attach_msg, answer_msg,
  resize_msg, close_msg, Act,
}
use azad_server_box.Terminal.Admission.{ConnCtx}
use azad_server_box.Terminal.Phases.{
  Phase, opening, done, is_opening, claim_idle, reset_opening, set_if_opening, expire,
  take_exchange,
}
use azad_server_box.Terminal.Tasks.{
  Origin, over_ssh, local_shell, Drawn, Task, finished, refusing, connecting, stepping,
  opening_shell, spawning, registered, attaching, discarding, rejoining, Reply, proceeds, connected,
  stepped, shell_opened, spawned, found, Shared, Conn, Turn, settle, register, give_up, refuse,
}
use azad_server_box.Terminal.Turns.{
  resume, after_connect, after_step, after_shell, after_spawn, recheck, after_attach, after_rejoin,
  keep_exchange,
}
use azad_server_box.Terminal.Connection.{
  Happening, frames, replies, drops, expires, happen, on_frame, on_control, begin_open, begin_local,
  begin_attach, begin_answer, close_driven, disconnect, auth_expires, text, close_frame,
}

-- A connection opens something exactly while a call does: a call under way holds the phase, unless the socket is
-- closed, and there is no phase that nobody will leave.
abbrev pub IsOwned : Phase → Task → Type 0
IsOwned opening finished = ⊥
IsOwned opening (discarding handle) = ⊥
IsOwned opening task = Unit
IsOwned done task = Unit
IsOwned phase task = task ≡ finished

abbrev IsHeld : Phase → Type 0
IsHeld opening = Unit
IsHeld done = Unit
IsHeld _ = ⊥

abbrev TurnIsOwned : Turn → Type 0
TurnIsOwned t = IsOwned t.conn.phase t.conn.task

refuse-IsOwned :
    (code message : Text) (shared : Shared) (phase : Phase) (acts : List Act)
    → IsHeld phase
    → TurnIsOwned (refuse code message shared phase acts)
unfolding refuse reset_opening
refuse-IsOwned code message shared phase acts h = ground arith

give_up-IsOwned :
    (ctx : ConnCtx) (user : Text) (e : SshError) (shared : Shared) (phase : Phase) (acts : List Act)
    → IsHeld phase
    → TurnIsOwned (give_up ctx user e shared phase acts)
unfolding give_up reset_opening
give_up-IsOwned ctx user e shared phase acts h = ground arith

settle-IsOwned :
    (origin : Origin) (user : Text) (placed : Result (Option (Text × Session)) (Unit {0}))
    (acts : List Act) (shared : Shared) (phase : Phase)
    → IsHeld phase
    → TurnIsOwned (settle origin user placed acts shared phase)
unfolding settle refuse reset_opening
settle-IsOwned origin user placed acts shared phase h = ground arith

register-IsOwned :
    (remote_access : RemoteAccess) (ctx : ConnCtx) (origin : Origin) (user : Text) (drawn : Drawn)
    (shared : Shared) (phase : Phase)
    → IsHeld phase
    → TurnIsOwned (register remote_access ctx origin user drawn shared phase)
unfolding register
register-IsOwned remote_access ctx origin user drawn shared phase h =
    settle-IsOwned origin user _ _ _ phase h

after_connect-IsOwned :
    (ctx : ConnCtx) (user : Text) (credential : Credential) (geometry : Geometry)
    (r : Option (Result SshSession SshError)) (shared : Shared) (phase : Phase)
    → IsHeld phase
    → TurnIsOwned (after_connect ctx user credential geometry r shared phase)
unfolding after_connect is_opening
after_connect-IsOwned ctx user credential geometry none shared phase h =
    give_up-IsOwned ctx user SshError.auth_timeout shared phase [] h
after_connect-IsOwned ctx user credential geometry (some (err e)) shared phase h =
    give_up-IsOwned ctx user e shared phase [] h
after_connect-IsOwned ctx user credential geometry (some (ok ssh)) shared phase h = ground arith

after_step-IsOwned :
    (ctx : ConnCtx) (ssh : SshSession) (user : Text) (geometry : Geometry) (now : ℕ)
    (r : Option (Result AuthStep SshError)) (shared : Shared) (phase : Phase)
    → IsHeld phase
    → TurnIsOwned (after_step ctx ssh user geometry now r shared phase)
unfolding after_step is_opening keep_exchange set_if_opening give_up reset_opening
after_step-IsOwned ctx ssh user geometry now r shared phase h = ground arith

after_shell-IsOwned :
    (remote_access : RemoteAccess) (ctx : ConnCtx) (ssh : SshSession) (user : Text)
    (r : Result Drawn SshError) (shared : Shared) (phase : Phase)
    → IsHeld phase
    → TurnIsOwned (after_shell remote_access ctx ssh user r shared phase)
unfolding after_shell is_opening
after_shell-IsOwned remote_access ctx ssh user (err e) shared phase h =
    give_up-IsOwned ctx user e shared phase [] h
after_shell-IsOwned remote_access ctx ssh user (ok drawn) shared phase h =
    ground (arith, register-IsOwned remote_access ctx (over_ssh ssh) user drawn shared phase h)

after_attach-IsOwned :
    (ctx : ConnCtx) (origin : Origin) (user handle : Text) (s : Session) (receiver : Sender)
    (shared : Shared) (phase : Phase)
    → IsHeld phase
    → TurnIsOwned (after_attach ctx origin user handle s receiver shared phase)
unfolding after_attach set_if_opening is_opening refuse reset_opening
after_attach-IsOwned ctx origin user handle s receiver shared phase h = ground arith

after_rejoin-IsOwned :
    (ctx : ConnCtx) (handle : Text) (since cols rows now : ℕ) (s : Session) (receiver : Sender)
    (shared : Shared) (phase : Phase)
    → IsHeld phase
    → TurnIsOwned (after_rejoin ctx handle since cols rows now s receiver shared phase)
unfolding after_rejoin set_if_opening is_opening refuse reset_opening
after_rejoin-IsOwned ctx handle since cols rows now s receiver shared phase h = ground arith

-- A task that is under way holds the phase.
IsOwned-IsHeld : (phase : Phase) (task : Task) → IsOwned phase task → task ≢ finished → IsHeld phase
IsOwned-IsHeld phase task o n = ground arith

resume-IsOwned :
    (remote_access : RemoteAccess) (ctx : ConnCtx) (reply : Reply) (shared : Shared) (phase : Phase)
    (task : Task)
    → IsOwned phase task
    → TurnIsOwned (resume remote_access ctx reply shared phase task)
unfolding resume recheck after_spawn refuse reset_opening
resume-IsOwned remote_access ctx proceeds shared phase (refusing code message) o =
    refuse-IsOwned code message shared phase [] (IsOwned-IsHeld phase _ o (λ e. ground arith))
resume-IsOwned remote_access ctx (connected r) shared phase (connecting user credential geometry)
      o =
    after_connect-IsOwned ctx user credential geometry r shared phase
      (IsOwned-IsHeld phase _ o (λ e. ground arith))
resume-IsOwned remote_access ctx (stepped now r) shared phase (stepping ssh user geometry) o =
    after_step-IsOwned ctx ssh user geometry now r shared phase
      (IsOwned-IsHeld phase _ o (λ e. ground arith))
resume-IsOwned remote_access ctx (shell_opened r) shared phase (opening_shell ssh user geometry) o =
    after_shell-IsOwned remote_access ctx ssh user r shared phase
      (IsOwned-IsHeld phase _ o (λ e. ground arith))
resume-IsOwned remote_access ctx (spawned (err e)) shared phase (spawning geometry) o = ground arith
resume-IsOwned remote_access ctx (spawned (ok (shell, user, drawn))) shared phase
      (spawning geometry) o =
    register-IsOwned remote_access ctx (local_shell shell) user drawn shared phase
      (IsOwned-IsHeld phase _ o (λ e. ground arith))
resume-IsOwned remote_access ctx proceeds shared phase (registered shell user handle) o =
    ground arith
resume-IsOwned remote_access ctx (found now s receiver) shared phase (attaching origin user handle)
      o =
    after_attach-IsOwned ctx origin user handle s receiver shared phase
      (IsOwned-IsHeld phase _ o (λ e. ground arith))
resume-IsOwned remote_access ctx proceeds shared phase (discarding handle) o = ground arith
resume-IsOwned remote_access ctx (found now s receiver) shared phase
      (rejoining handle since cols rows) o =
    after_rejoin-IsOwned ctx handle since cols rows now s receiver shared phase
      (IsOwned-IsHeld phase _ o (λ e. ground arith))
resume-IsOwned remote_access ctx reply shared phase task o = o

on_control-IsOwned :
    (remote_access : RemoteAccess) (ctx : ConnCtx) (msg : Option ClientMsg) (shared : Shared)
    (phase : Phase) (task : Task)
    → IsOwned phase task
    → TurnIsOwned (on_control remote_access ctx msg shared phase task)
unfolding on_control claim_idle begin_open begin_local begin_attach begin_answer take_exchange
    close_driven
on_control-IsOwned remote_access ctx none shared phase task o = o
on_control-IsOwned remote_access ctx (some (open_msg user auth geometry)) shared phase task o =
    ground arith
on_control-IsOwned remote_access ctx (some (attach_msg session since cols rows)) shared phase task
      o =
    ground arith
on_control-IsOwned remote_access ctx (some (answer_msg answers)) shared phase task o = ground arith
on_control-IsOwned remote_access ctx (some (resize_msg cols rows)) shared phase task o = o
on_control-IsOwned remote_access ctx (some close_msg) shared phase task o = ground arith

-- Whatever happens to a connection, in any phase: a call that is under way holds the phase or the connection is over,
-- and a phase that is being opened has a call under way that will leave it.
pub happen-IsOwned :
    (remote_access : RemoteAccess) (ctx : ConnCtx) (event : Happening) (shared : Shared) (c : Conn)
    → IsOwned c.phase c.task
    → let c' = (happen remote_access ctx event shared c).conn in IsOwned c'.phase c'.task
unfolding happen on_frame disconnect auth_expires expire
happen-IsOwned remote_access ctx (frames now (text msg)) shared c o =
    on_control-IsOwned remote_access ctx msg shared c.phase c.task o
happen-IsOwned remote_access ctx (frames now close_frame) shared c o = tt
happen-IsOwned remote_access ctx (frames now frame) shared c o = o
happen-IsOwned remote_access ctx (replies reply) shared c o =
    resume-IsOwned remote_access ctx reply shared c.phase c.task o
happen-IsOwned remote_access ctx (drops now) shared c o = tt
happen-IsOwned remote_access ctx (expires deadline) shared c o =
    elim (Option-cases (expire deadline c.phase).0) [ inl e ↦ ground arith | inr e ↦ ground arith ]
