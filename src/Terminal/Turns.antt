-- ===== src/Terminal/Turns.antt =====
-- The turns of the tasks of monitor/src/api/ws/terminal.rs: what each does once it has its reply.
use azad_server_box.Prelude.{
  ℕ, ◌&&◌, Option, none, some, List, [], ◌∷◌, ◌++◌, if◌then◌else◌, Text, codes, Result, ok, err,
}
use azad_server_box.Prelude.{◌+◌}
use azad_server_box.RemoteAccess.{RemoteAccess}
use azad_server_box.Session.Attachment.{Session, Sender, close_input, resize, attach, detach}
use azad_server_box.Session.Scrollback.{Replay, gap, truncated}
use azad_server_box.Session.Store.{remove_session, is_local}
use azad_server_box.Audit.{Action, Outcome}
use azad_server_box.Terminal.Messages.{
  Credential, authenticates, requests_shell, Geometry, SshSession, LocalShell, SshError,
  auth_timeout, auth_failed, AuthStep, authenticated, needs_answers, failed, Act, sends, feeds,
  disconnects, kills, drives, pumps, arms_timeout, error_frame, text_frame, binary_frame, ready,
  prompt_msg,
}
use azad_server_box.Terminal.Admission.{ConnCtx}
use azad_server_box.Terminal.Phases.{Phase, authenticating, running, is_opening, set_if_opening}
use azad_server_box.Terminal.Tasks.{
  Origin, over_ssh, local_shell, Task, finished, refusing, connecting, stepping, opening_shell,
  spawning, registered, attaching, discarding, rejoining, Drawn, Reply, proceeds, connected,
  stepped, shell_opened, spawned, found, Shared, Turn, turn, full_access_allowed, event, give_up,
  refuse, write_back, ends_shell, register, auth_wait,
}

-- `open`, once the connection to the server is made or is not.
unfoldable pub after_connect :
    ConnCtx
    → Text
    → Credential
    → Geometry
    → Option (Result SshSession SshError)
    → Shared
    → Phase
    → Turn
unfolding give_up is_opening
after_connect ctx user credential geometry none shared phase =
    give_up ctx user auth_timeout shared phase []
after_connect ctx user credential geometry (some (err e)) shared phase =
    give_up ctx user e shared phase []
after_connect ctx user credential geometry (some (ok ssh)) shared phase =
    if is_opening phase
    then turn shared phase (stepping ssh user geometry) (authenticates ssh user credential ∷ [])
    else turn shared phase finished (disconnects ssh ∷ [])

-- The prompt of an exchange that is kept for the client's answers.
unfoldable pub keep_exchange : SshSession → Text → Geometry → ℕ → List Act → Shared → Phase → Turn
unfolding set_if_opening
keep_exchange ssh user geometry now prompt shared phase =
    let deadline = now + auth_wait in
    let (set, after) = set_if_opening phase (authenticating ssh user geometry deadline) in
    turn shared after finished (if set then arms_timeout deadline ∷ prompt else [])

-- `open` and `answer`, once the server has taken a step.
unfoldable pub after_step :
    ConnCtx
    → SshSession
    → Text
    → Geometry
    → ℕ
    → Option (Result AuthStep SshError)
    → Shared
    → Phase
    → Turn
unfolding give_up is_opening keep_exchange
after_step ctx ssh user geometry now none shared phase =
    give_up ctx user auth_timeout shared phase (disconnects ssh ∷ [])
after_step ctx ssh user geometry now (some (err e)) shared phase =
    give_up ctx user e shared phase []
after_step ctx ssh user geometry now (some (ok failed)) shared phase =
    give_up ctx user auth_failed shared phase []
after_step ctx ssh user geometry now (some (ok (needs_answers instructions prompts))) shared phase =
    keep_exchange ssh user geometry now (sends (text_frame (prompt_msg instructions prompts)) ∷ [])
      shared phase
after_step ctx ssh user geometry now (some (ok authenticated)) shared phase =
    if is_opening phase
    then turn shared phase (opening_shell ssh user geometry) (requests_shell ssh geometry ∷ [])
    else turn shared phase finished (disconnects ssh ∷ [])

-- `start_shell`, once the server has opened a shell.
unfoldable pub after_shell :
    RemoteAccess → ConnCtx → SshSession → Text → Result Drawn SshError → Shared → Phase → Turn
unfolding give_up is_opening register
after_shell remote_access ctx ssh user (err e) shared phase = give_up ctx user e shared phase []
after_shell remote_access ctx ssh user (ok drawn) shared phase =
    if is_opening phase
    then register remote_access ctx (over_ssh ssh) user drawn shared phase
    else turn shared phase finished (disconnects ssh ∷ [])

-- `open_local`, once the shell is spawned.
unfoldable pub after_spawn :
    RemoteAccess → ConnCtx → Result (LocalShell × Text × Drawn) Text → Shared → Phase → Turn
unfolding register event
after_spawn remote_access ctx (err e) shared phase =
    turn shared phase (refusing (codes "spawn_failed") e)
      (event ctx Action.opens Outcome.error none (some (codes "spawn failed")) ∷ [])
after_spawn remote_access ctx (ok (shell, user, drawn)) shared phase =
    register remote_access ctx (local_shell shell) user drawn shared phase

abbrev full_access_disabled : Text
full_access_disabled = codes "full_access_disabled"

-- The check of `open_local` after its session is in the store.
unfoldable pub recheck : RemoteAccess → ConnCtx → LocalShell → Text → Text → Shared → Phase → Turn
unfolding full_access_allowed refuse
recheck remote_access ctx shell user handle shared phase =
    if full_access_allowed remote_access ctx shared
    then turn shared phase (attaching (local_shell shell) user handle) []
    else refuse full_access_disabled
        (codes "This agent does not allow opening a terminal without SSH credentials")
        (record shared { store = remove_session shared.store handle }) phase (kills shell ∷ [])

unfoldable pub refusal_code : Origin → Text
refusal_code (over_ssh _) = codes "session_gone"
refusal_code (local_shell _) = full_access_disabled

unfoldable pub refusal_text : Origin → Text
refusal_text (over_ssh _) = codes "That terminal session is no longer available"
refusal_text (local_shell _) = codes "Full access has been disabled"

unfoldable pub open_detail : Origin → Option Text
open_detail (over_ssh _) = none
open_detail (local_shell _) = some (codes "full access")

-- The end of `start_shell` and of `open_local`: the first connection of a session.
unfoldable pub after_attach :
    ConnCtx → Origin → Text → Text → Session → Sender → Shared → Phase → Turn
unfolding refuse ends_shell refusal_code refusal_text open_detail set_if_opening event
after_attach ctx origin user handle s receiver shared phase =
    let (attached, s') = attach 0 receiver s in
    elim attached [
      | none ↦
          refuse (refusal_code origin) (refusal_text origin)
            (record shared { store = remove_session shared.store handle }) phase
            (ends_shell origin ∷ [])
      | some a ↦
          let after = record shared { store = write_back handle s' shared.store } in
          let (set, phase') = set_if_opening phase (running s.input a.id handle) in
          if set
          then turn after phase' finished (
              drives handle
              ∷ sends (text_frame (ready handle 0))
              ∷ pumps a.receiver
              ∷ event ctx Action.opens Outcome.ok (some user) (open_detail origin)
              ∷ [])
          else turn after phase' (discarding handle)
              (drives handle ∷ feeds s.input close_input ∷ [])
    ]

abbrev gap_notice : List Act
gap_notice =
    sends (error_frame (codes "gap_truncated") (codes "Some output was lost while disconnected"))
    ∷ []

-- `if !payload.is_empty()`
abbrev payload_frames : List ℕ → List Act
payload_frames [] = []
payload_frames (b ∷ bytes) = sends (binary_frame (b ∷ bytes)) ∷ []

-- What is written before the live output: the base of the client's counter, and what it missed.
unfoldable pub catch_up : Text → ℕ → ℕ → Replay → List Act
catch_up handle since start (gap bytes) =
    sends (text_frame (ready handle since)) ∷ payload_frames bytes
catch_up handle since start (truncated bytes) =
    sends (text_frame (ready handle start)) ∷ (gap_notice ++ payload_frames bytes)

-- The end of `attach`, for a session that its handle opened.
unfoldable pub after_rejoin :
    ConnCtx → Text → ℕ → ℕ → ℕ → ℕ → Session → Sender → Shared → Phase → Turn
unfolding refuse is_local set_if_opening event catch_up
after_rejoin ctx handle since cols rows now s receiver shared phase =
    if is_local s && shared.full_access_off
    then refuse full_access_disabled (codes "Full access has been disabled") shared phase []
    else (let (attached, s') = attach since receiver s in
        elim attached [
          | none ↦
              refuse (codes "session_gone") (codes "That terminal session is no longer available")
                shared phase []
          | some a ↦
              let (set, phase') = set_if_opening phase (running s.input a.id handle) in
              if set
              then turn (record shared { store = write_back handle s' shared.store }) phase'
                  finished
                  (catch_up handle since a.start a.replay
                    ++ (pumps a.receiver
                        ∷ feeds s.input (resize cols rows)
                        ∷ event ctx Action.attaches Outcome.ok (some s.ssh_user) none
                        ∷ []))
              else turn
                  (record shared { store = write_back handle (detach now a.id s').1 shared.store })
                  phase' finished []
        ])

-- A task with its reply; one that does not wait for that reply stays.
unfoldable pub resume : RemoteAccess → ConnCtx → Reply → Shared → Phase → Task → Turn
unfolding after_connect after_step after_shell after_spawn recheck after_attach after_rejoin refuse
resume remote_access ctx proceeds shared phase (refusing code message) =
    refuse code message shared phase []
resume remote_access ctx (connected r) shared phase (connecting user credential geometry) =
    after_connect ctx user credential geometry r shared phase
resume remote_access ctx (stepped now r) shared phase (stepping ssh user geometry) =
    after_step ctx ssh user geometry now r shared phase
resume remote_access ctx (shell_opened r) shared phase (opening_shell ssh user geometry) =
    after_shell remote_access ctx ssh user r shared phase
resume remote_access ctx (spawned r) shared phase (spawning geometry) =
    after_spawn remote_access ctx r shared phase
resume remote_access ctx proceeds shared phase (registered shell user handle) =
    recheck remote_access ctx shell user handle shared phase
resume remote_access ctx (found now s receiver) shared phase (attaching origin user handle) =
    after_attach ctx origin user handle s receiver shared phase
resume remote_access ctx proceeds shared phase (discarding handle) =
    turn (record shared { store = remove_session shared.store handle }) phase finished []
resume remote_access ctx (found now s receiver) shared phase (rejoining handle since cols rows) =
    after_rejoin ctx handle since cols rows now s receiver shared phase
resume remote_access ctx reply shared phase task = turn shared phase task []
