-- ===== src/Terminal/Announcement.antt =====
-- How often a connection of monitor/src/api/ws/terminal.rs tells its client that a session is live.
use azad_server_box.Prelude.{
  ℕ, ◌+◌, ◌≤◌, ◌≡◌, refl, Option, none, some, List, [], ◌∷◌, ◌++◌, map, arith, Text, Result, ok,
  err,
}
use azad_server_box.RemoteAccess.{RemoteAccess}
use azad_server_box.Session.Attachment.{Session, Sender, Effect}
use azad_server_box.Session.Scrollback.{Replay, gap, truncated}
use azad_server_box.Terminal.Messages.{
  SshSession, SshError, auth_timeout, kills, Credential, Geometry, AuthStep, ClientMsg, open_msg,
  attach_msg, answer_msg, resize_msg, close_msg, Act, sends, channel, text_frame, ready,
}
use azad_server_box.Terminal.Messages
use azad_server_box.Terminal.Admission.{ConnCtx}
use azad_server_box.Terminal.Phases.{
  Phase, idle, running, done, is_opening, claim_idle, reset_opening, set_if_opening, expire,
  take_exchange, driven,
}
use azad_server_box.Terminal.Tasks.{
  Origin, over_ssh, local_shell, Drawn, Task, finished, refusing, connecting, stepping,
  opening_shell, spawning, registered, attaching, discarding, rejoining, Reply, proceeds, connected,
  stepped, shell_opened, spawned, found, Shared, Conn, Turn, settle, register, give_up, refuse,
  fail, event, ends_shell,
}
use azad_server_box.Terminal.Turns.{
  resume, after_connect, after_step, after_shell, after_spawn, recheck, after_attach, after_rejoin,
  keep_exchange, catch_up,
}
use azad_server_box.Terminal.Connection.{
  Happening, frames, replies, drops, expires, happen, on_frame, on_control, on_input, feed_driven,
  begin_open, begin_local, begin_attach, begin_answer, close_driven, disconnect, auth_expires,
  Frame, text,
}

-- How often a list of acts announces a session.
abbrev pub readies : List Act → ℕ
readies [] = 0
readies (sends (text_frame (ready _ _)) ∷ acts) = 1 + readies acts
readies (_ ∷ acts) = readies acts

-- What a connection may still announce.
abbrev pub budget : Phase → ℕ
budget (running _ _ _) = 0
budget done = 0
budget _ = 1

readies-append : (xs ys : List Act) → readies (xs ++ ys) ≡ readies xs + readies ys
readies-append [] ys = omega arith
readies-append (x ∷ xs) ys = ground (arith, readies-append xs ys)

readies-channels : (effects : List Effect) → readies (map channel effects) ≡ 0
readies-channels [] = refl
readies-channels (e ∷ effects) = readies-channels effects

abbrev Spends : Phase → Turn → Type 0
Spends phase t = readies t.acts + budget t.conn.phase ≤ budget phase

-- Acts that announce nothing.
abbrev AreQuiet : List Act → Type 0
AreQuiet acts = readies acts ≡ 0

refuse-Spends :
    (code message : Text) (shared : Shared) (phase : Phase) (acts : List Act)
    → AreQuiet acts
    → Spends phase (refuse code message shared phase acts)
unfolding refuse reset_opening
refuse-Spends code message shared phase acts q =
    ground (arith, q, readies-append acts (sends (Messages.error_frame code message) ∷ []))

give_up-Spends :
    (ctx : ConnCtx) (user : Text) (e : SshError) (shared : Shared) (phase : Phase) (acts : List Act)
    → AreQuiet acts
    → Spends phase (give_up ctx user e shared phase acts)
unfolding give_up reset_opening fail event
give_up-Spends ctx user e shared phase acts q =
    ground (arith, q, readies-append acts (fail ctx user e))

ends_shell-AreQuiet :
    (origin : Origin) (acts : List Act) → AreQuiet acts → AreQuiet (acts ++ ends_shell origin ∷ [])
unfolding ends_shell
ends_shell-AreQuiet origin acts q = ground (arith, q, readies-append acts (ends_shell origin ∷ []))

settle-Spends :
    (origin : Origin) (user : Text) (placed : Result (Option (Text × Session)) (Unit {0}))
    (acts : List Act) (shared : Shared) (phase : Phase)
    → AreQuiet acts
    → Spends phase (settle origin user placed acts shared phase)
unfolding settle ends_shell refuse reset_opening
settle-Spends origin user (ok (some (handle, _))) acts shared phase q = ground (arith, q)
settle-Spends origin user (ok none) acts shared phase q =
    search (refuse-Spends, ends_shell-AreQuiet)
settle-Spends origin user (err _) acts shared phase q = search (refuse-Spends, ends_shell-AreQuiet)

register-Spends :
    (remote_access : RemoteAccess) (ctx : ConnCtx) (origin : Origin) (user : Text) (drawn : Drawn)
    (shared : Shared) (phase : Phase)
    → Spends phase (register remote_access ctx origin user drawn shared phase)
unfolding register
register-Spends remote_access ctx origin user drawn shared phase =
    search (settle-Spends origin user, readies-channels)

catch_up-readies :
    (handle : Text) (since start : ℕ) (replay : Replay) (acts : List Act)
    → readies (catch_up handle since start replay ++ acts) ≡ 1 + readies acts
unfolding catch_up
catch_up-readies handle since start (gap []) acts = refl
catch_up-readies handle since start (gap (b ∷ bytes)) acts = refl
catch_up-readies handle since start (truncated []) acts = refl
catch_up-readies handle since start (truncated (b ∷ bytes)) acts = refl

after_attach-Spends :
    (ctx : ConnCtx) (origin : Origin) (user handle : Text) (s : Session) (receiver : Sender)
    (shared : Shared) (phase : Phase)
    → Spends phase (after_attach ctx origin user handle s receiver shared phase)
unfolding after_attach set_if_opening is_opening refuse reset_opening event ends_shell
after_attach-Spends ctx origin user handle s receiver shared phase = ground arith

after_step-Spends :
    (ctx : ConnCtx) (ssh : SshSession) (user : Text) (geometry : Geometry) (now : ℕ)
    (r : Option (Result AuthStep SshError)) (shared : Shared) (phase : Phase)
    → Spends phase (after_step ctx ssh user geometry now r shared phase)
unfolding after_step is_opening keep_exchange set_if_opening give_up reset_opening fail event
after_step-Spends ctx ssh user geometry now r shared phase = ground arith

after_rejoin-Spends :
    (ctx : ConnCtx) (handle : Text) (since cols rows now : ℕ) (s : Session) (receiver : Sender)
    (shared : Shared) (phase : Phase)
    → Spends phase (after_rejoin ctx handle since cols rows now s receiver shared phase)
unfolding after_rejoin set_if_opening is_opening refuse reset_opening event
after_rejoin-Spends ctx handle since cols rows now s receiver shared phase =
    ground (arith, catch_up-readies handle)

resume-Spends :
    (remote_access : RemoteAccess) (ctx : ConnCtx) (reply : Reply) (shared : Shared) (phase : Phase)
    (task : Task)
    → Spends phase (resume remote_access ctx reply shared phase task)
unfolding resume recheck after_spawn after_connect after_shell event
resume-Spends remote_access ctx proceeds shared phase (refusing code message) =
    refuse-Spends code message shared phase [] refl
resume-Spends remote_access ctx (connected none) shared phase
      (connecting user credential geometry) =
    give_up-Spends ctx user auth_timeout shared phase [] refl
resume-Spends remote_access ctx (connected (some (err e))) shared phase
      (connecting user credential geometry) =
    give_up-Spends ctx user e shared phase [] refl
resume-Spends remote_access ctx (connected (some (ok ssh))) shared phase
      (connecting user credential geometry) =
    ground arith
resume-Spends remote_access ctx (stepped now r) shared phase (stepping ssh user geometry) =
    after_step-Spends ctx ssh user geometry now r shared phase
resume-Spends remote_access ctx (shell_opened (err e)) shared phase
      (opening_shell ssh user geometry) =
    give_up-Spends ctx user e shared phase [] refl
resume-Spends remote_access ctx (shell_opened (ok drawn)) shared phase
      (opening_shell ssh user geometry) =
    ground (arith, register-Spends remote_access ctx (over_ssh ssh) user drawn shared phase)
resume-Spends remote_access ctx (spawned (err e)) shared phase (spawning geometry) = ground arith
resume-Spends remote_access ctx (spawned (ok (shell, user, drawn))) shared phase
      (spawning geometry) =
    register-Spends remote_access ctx (local_shell shell) user drawn shared phase
resume-Spends remote_access ctx proceeds shared phase (registered shell user handle) =
    ground (arith, refuse-Spends _ _ _ phase (kills shell ∷ []) refl)
resume-Spends remote_access ctx (found now s receiver) shared phase (attaching origin user handle) =
    after_attach-Spends ctx origin user handle s receiver shared phase
resume-Spends remote_access ctx proceeds shared phase (discarding handle) = ground arith
resume-Spends remote_access ctx (found now s receiver) shared phase
      (rejoining handle since cols rows) =
    after_rejoin-Spends ctx handle since cols rows now s receiver shared phase
resume-Spends remote_access ctx reply shared phase task = omega arith

on_control-Spends :
    (remote_access : RemoteAccess) (ctx : ConnCtx) (msg : Option ClientMsg) (shared : Shared)
    (phase : Phase) (task : Task)
    → Spends phase (on_control remote_access ctx msg shared phase task)
unfolding on_control claim_idle begin_open begin_local begin_attach begin_answer take_exchange
    close_driven feed_driven event driven
on_control-Spends remote_access ctx msg shared phase task = ground arith

on_frame-Spends :
    (remote_access : RemoteAccess) (ctx : ConnCtx) (now : ℕ) (frame : Frame) (shared : Shared)
    (phase : Phase) (task : Task)
    → Spends phase (on_frame remote_access ctx now frame shared phase task)
unfolding on_frame on_input feed_driven disconnect driven
on_frame-Spends remote_access ctx now (text msg) shared phase task =
    on_control-Spends remote_access ctx msg shared phase task
on_frame-Spends remote_access ctx now frame shared phase task = ground arith

happen-Spends :
    (remote_access : RemoteAccess) (ctx : ConnCtx) (event : Happening) (shared : Shared) (c : Conn)
    → Spends c.phase (happen remote_access ctx event shared c)
unfolding happen disconnect auth_expires expire fail event
happen-Spends remote_access ctx (frames now frame) shared c =
    on_frame-Spends remote_access ctx now frame shared c.phase c.task
happen-Spends remote_access ctx (replies reply) shared c =
    resume-Spends remote_access ctx reply shared c.phase c.task
happen-Spends remote_access ctx (drops now) shared c = ground arith
happen-Spends remote_access ctx (expires deadline) shared c = ground arith

-- All that a connection does over a run, while others change what is shared.
unfoldable pub run : RemoteAccess → ConnCtx → List (Happening × Shared) → Conn → List Act × Conn
unfolding happen
run remote_access ctx [] c = ([], c)
run remote_access ctx ((event, shared) ∷ events) c =
    let t = happen remote_access ctx event shared c in
    let (acts, last) = run remote_access ctx events t.conn in (t.acts ++ acts, last)

abbrev pub fresh_conn : Conn
fresh_conn = record { phase = idle; task = finished }

run-readies :
    (remote_access : RemoteAccess) (ctx : ConnCtx) (events : List (Happening × Shared)) (c : Conn)
    → readies (run remote_access ctx events c).0 + budget (run remote_access ctx events c).1.phase
      ≤ budget c.phase
unfolding run
run-readies remote_access ctx [] c = omega arith
run-readies remote_access ctx ((event, shared) ∷ events) c =
    let t : Turn = happen remote_access ctx event shared c in
    omega (
      arith,
      happen-Spends remote_access ctx event shared c,
      run-readies remote_access ctx events t.conn,
      readies-append t.acts (run remote_access ctx events t.conn).0,
    )

-- Whatever a client sends, in whatever order the calls it starts come back, and whatever the other connections do to
-- what is shared: a connection tells its client at most once that a session is live, and a connection that has
-- gone back to where a session can be opened has not done so.
pub readies-le :
    (remote_access : RemoteAccess) (ctx : ConnCtx) (events : List (Happening × Shared))
    → let (acts, last) = run remote_access ctx events fresh_conn in
      (readies acts ≤ 1) × (budget last.phase ≡ 1 → readies acts ≡ 0)
readies-le remote_access ctx events =
    let h = run-readies remote_access ctx events fresh_conn in
    (omega (arith, h), λ e. omega (arith, h, e))
