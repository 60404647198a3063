-- ===== src/Terminal/Guarding.antt =====
-- Once access without SSH is off, a turn of a connection of monitor/src/api/ws/terminal.rs leaves no local session behind
-- that no call answers for.
use azad_server_box.Prelude.{
  ℕ, ◌≡◌, inl, inr, refl, true, false, ◌&&◌, Option, [], arith, Text, text_eq, text_beq_iff, Result,
  ok, err, Bool-cases, Option-cases,
}
use azad_server_box.Prelude.Map.{Distinct, lookup-remove}
use azad_server_box.RemoteAccess.{RemoteAccess}
use azad_server_box.Session.Attachment.{Session, Sender, attach, detach}
use azad_server_box.Session.Store.{SessionStore, is_local, remove_session}
use azad_server_box.Terminal.Messages.{
  SshSession, LocalShell, SshError, Credential, Geometry, AuthStep,
}
use azad_server_box.Terminal.Admission.{ConnCtx}
use azad_server_box.Terminal.Phases.{Phase, is_opening, set_if_opening, running}
use azad_server_box.Terminal.Tasks.{
  Origin, over_ssh, local_shell, Drawn, Task, refusing, connecting, stepping, opening_shell,
  spawning, registered, attaching, discarding, rejoining, Reply, proceeds, connected, stepped,
  shell_opened, spawned, found, Shared, Turn, give_up, refuse, full_access_allowed, write_back,
  id_of,
}
use azad_server_box.Terminal.Turns.{
  resume, after_connect, after_step, after_shell, after_spawn, recheck, after_attach, after_rejoin,
  keep_exchange,
}
use azad_server_box.Terminal.Stores.{
  Keeps, Keeps-refl, remove_session-Keeps, remove_session-id_of, write_back-Keeps,
}
use azad_server_box.Terminal.Coverage.{Guards, Covers, Keeps-Covers, Keeps-same, register-Covers}

-- A turn that answers for the local sessions it leaves, and leaves the flag.
abbrev pub Answers : Shared → Task → Turn → Type 0
Answers shared old t =
    Covers shared.full_access_off shared.store t.shared.store old t.conn.task
    × (t.shared.full_access_off ≡ shared.full_access_off)

abbrev IsFree : Task → Type 0
IsFree task = (id : Text) → ¬ Guards task id

keeping :
    (shared : Shared) (old : Task) (t : Turn) (store : SessionStore)
    → IsFree old
    → Distinct shared.store.sessions
    → Keeps shared.store store
    → t.shared ≡ record shared { store = store }
    → Answers shared old t
keeping shared old t store free d k e =
    rw e (Keeps-Covers shared.full_access_off shared.store store old t.conn.task free d k, refl)

-- A turn that changes nothing that is shared.
same_shared :
    (shared : Shared) (old : Task) (t : Turn)
    → IsFree old
    → Distinct shared.store.sessions
    → t.shared ≡ shared
    → Answers shared old t
same_shared shared old t free d e =
    keeping shared old t shared.store free d (Keeps-refl shared.store) e

after_connect-Answers :
    (ctx : ConnCtx) (user : Text) (credential : Credential) (geometry : Geometry)
    (r : Option (Result SshSession SshError)) (shared : Shared) (phase : Phase) (old : Task)
    → IsFree old
    → Distinct shared.store.sessions
    → Answers shared old (after_connect ctx user credential geometry r shared phase)
unfolding after_connect give_up
after_connect-Answers ctx user credential geometry r shared phase old free d =
    same_shared shared old (after_connect ctx user credential geometry r shared phase) free d
      (ground arith)

after_step-Answers :
    (ctx : ConnCtx) (ssh : SshSession) (user : Text) (geometry : Geometry) (now : ℕ)
    (r : Option (Result AuthStep SshError)) (shared : Shared) (phase : Phase) (old : Task)
    → IsFree old
    → Distinct shared.store.sessions
    → Answers shared old (after_step ctx ssh user geometry now r shared phase)
unfolding after_step give_up keep_exchange
after_step-Answers ctx ssh user geometry now r shared phase old free d =
    same_shared shared old (after_step ctx ssh user geometry now r shared phase) free d
      (ground arith)

after_shell-Answers :
    (remote_access : RemoteAccess) (ctx : ConnCtx) (ssh : SshSession) (user : Text)
    (r : Result Drawn SshError) (shared : Shared) (phase : Phase) (old : Task)
    → IsFree old
    → Distinct shared.store.sessions
    → Answers shared old (after_shell remote_access ctx ssh user r shared phase)
unfolding after_shell give_up
after_shell-Answers remote_access ctx ssh user (err e) shared phase old free d =
    same_shared shared old (after_shell remote_access ctx ssh user (err e) shared phase) free d refl
after_shell-Answers remote_access ctx ssh user (ok drawn) shared phase old free d =
    elim (Bool-cases (is_opening phase)) [
      | inl e ↦
          rw (e, after_shell)
            (register-Covers remote_access ctx (over_ssh ssh) user drawn shared phase old free d)
      | inr e ↦
          same_shared shared old (after_shell remote_access ctx ssh user (ok drawn) shared phase)
            free d (rw (e, after_shell) refl)
    ]

full_access_allowed-off :
    (remote_access : RemoteAccess) (ctx : ConnCtx) (shared : Shared)
    → shared.full_access_off ≡ true
    → full_access_allowed remote_access ctx shared ≡ false
unfolding full_access_allowed
full_access_allowed-off remote_access ctx shared off = ground (arith, off)

-- The second check of a local session that was put in the store takes it out again.
recheck-Answers :
    (remote_access : RemoteAccess) (ctx : ConnCtx) (shell : LocalShell) (user handle : Text)
    (shared : Shared) (phase : Phase)
    → Distinct shared.store.sessions
    → Answers shared
        (registered shell user handle)
        (recheck remote_access ctx shell user handle shared phase)
unfolding refuse recheck
recheck-Answers remote_access ctx shell user handle shared phase d =
    let k = remove_session-Keeps shared.store handle in
    elim (Bool-cases (full_access_allowed remote_access ctx shared)) [
      | inl may ↦
          rw (may, recheck)
            (
              record {
                distinct = d;
                covered = λ off id x e l.
                    absurd
                      (ground (arith, may, full_access_allowed-off remote_access ctx shared off));
              },
              refl,
            )
      | inr barred ↦
          rw (barred, recheck)
            (
              record {
                distinct = k.distinct d;
                covered = λ off id x e l. inr (
                  k.kept id x e l,
                  λ g. ground (
                    arith,
                    e,
                    g,
                    remove_session-id_of shared.store handle,
                    lookup-remove (id_of handle) id shared.store.sessions,
                    text_beq_iff (id_of handle) id,
                  ),
                );
              },
              refl,
            )
    ]

after_attach-Answers :
    (ctx : ConnCtx) (origin : Origin) (user handle : Text) (s : Session) (receiver : Sender)
    (shared : Shared) (phase : Phase) (old : Task)
    → IsFree old
    → Distinct shared.store.sessions
    → Answers shared old (after_attach ctx origin user handle s receiver shared phase)
unfolding after_attach refuse
after_attach-Answers ctx origin user handle s receiver shared phase old free d =
    elim (Option-cases (attach 0 receiver s).0) [
      | inl e ↦
          keeping shared old (after_attach ctx origin user handle s receiver shared phase)
            (remove_session shared.store handle) free d (remove_session-Keeps shared.store handle)
            (rw (e, after_attach) refl)
      | inr (a, e) ↦
          keeping shared old (after_attach ctx origin user handle s receiver shared phase)
            (write_back handle (attach 0 receiver s).1 shared.store) free d
            (write_back-Keeps handle (attach 0 receiver s).1 shared.store) (ground (arith, e))
    ]

after_rejoin-Answers :
    (ctx : ConnCtx) (handle : Text) (since cols rows now : ℕ) (s : Session) (receiver : Sender)
    (shared : Shared) (phase : Phase) (old : Task)
    → IsFree old
    → Distinct shared.store.sessions
    → Answers shared old (after_rejoin ctx handle since cols rows now s receiver shared phase)
unfolding after_rejoin refuse
after_rejoin-Answers ctx handle since cols rows now s receiver shared phase old free d =
    let t : Turn = after_rejoin ctx handle since cols rows now s receiver shared phase in
    elim (Bool-cases (is_local s && shared.full_access_off)) [
      | inl off ↦ same_shared shared old t free d (rw (off, after_rejoin) refl)
      | inr on ↦ elim (Option-cases (attach since receiver s).0) [
        | inl e ↦ same_shared shared old t free d (rw (on, after_rejoin, e) refl)
        | inr (a, e) ↦ elim (Bool-cases (set_if_opening phase (running s.input a.id handle)).0) [
          | inl set ↦
              keeping shared old t _ free d
                (write_back-Keeps handle (attach since receiver s).1 shared.store)
                (rw (on, after_rejoin, e, set) refl)
          | inr left ↦
              keeping shared old t _ free d
                (write_back-Keeps handle (detach now a.id (attach since receiver s).1).1
                  shared.store)
                (rw (on, after_rejoin, e, left) refl)
        ]
      ]
    ]

pub resume-Answers :
    (remote_access : RemoteAccess) (ctx : ConnCtx) (reply : Reply) (shared : Shared) (phase : Phase)
    (task : Task)
    → Distinct shared.store.sessions
    → Answers shared task (resume remote_access ctx reply shared phase task)
unfolding resume refuse after_spawn
resume-Answers remote_access ctx proceeds shared phase (refusing code message) d =
    same_shared shared _ (refuse code message shared phase []) (λ id g. g) d refl
resume-Answers remote_access ctx (connected r) shared phase (connecting user credential geometry)
      d =
    after_connect-Answers ctx user credential geometry r shared phase _ (λ id g. g) d
resume-Answers remote_access ctx (stepped now r) shared phase (stepping ssh user geometry) d =
    after_step-Answers ctx ssh user geometry now r shared phase _ (λ id g. g) d
resume-Answers remote_access ctx (shell_opened r) shared phase (opening_shell ssh user geometry) d =
    after_shell-Answers remote_access ctx ssh user r shared phase _ (λ id g. g) d
resume-Answers remote_access ctx (spawned (err e)) shared phase (spawning geometry) d =
    same_shared shared _ (after_spawn remote_access ctx (err e) shared phase) (λ id g. g) d refl
resume-Answers remote_access ctx (spawned (ok (shell, user, drawn))) shared phase
      (spawning geometry) d =
    register-Covers remote_access ctx (local_shell shell) user drawn shared phase _ (λ id g. g) d
resume-Answers remote_access ctx proceeds shared phase (registered shell user handle) d =
    recheck-Answers remote_access ctx shell user handle shared phase d
resume-Answers remote_access ctx (found now s receiver) shared phase (attaching origin user handle)
      d =
    after_attach-Answers ctx origin user handle s receiver shared phase _ (λ id g. g) d
resume-Answers remote_access ctx proceeds shared phase (discarding handle) d = (
  Keeps-Covers shared.full_access_off shared.store _ _ _ (λ id g. g) d
      (remove_session-Keeps shared.store handle),
  refl,
)
resume-Answers remote_access ctx (found now s receiver) shared phase
      (rejoining handle since cols rows) d =
    after_rejoin-Answers ctx handle since cols rows now s receiver shared phase _ (λ id g. g) d
resume-Answers remote_access ctx reply shared phase task d = (
  Keeps-same shared.full_access_off shared.store shared.store task d (Keeps-refl shared.store),
  refl,
)
