-- ===== src/Terminal/Frames.antt =====
-- What any happening of a connection of monitor/src/api/ws/terminal.rs leaves of the local sessions in the store.
use azad_server_box.Prelude.{
  ◌≡◌, ◌⊎◌, inl, inr, refl, Option, none, some, arith, text_eq, Option-cases,
}
use azad_server_box.Prelude.Map.{Distinct}
use azad_server_box.RemoteAccess.{RemoteAccess}
use azad_server_box.Session.Store.{SessionStore, remove_session}
use azad_server_box.Terminal.Messages.{ClientMsg, close_msg}
use azad_server_box.Terminal.Admission.{ConnCtx}
use azad_server_box.Terminal.Phases.{Phase, claim_idle, take_exchange, driven}
use azad_server_box.Terminal.Tasks.{Task, finished, Shared, Conn, Turn}
use azad_server_box.Terminal.Connection.{
  Happening, frames, replies, drops, expires, happen, on_frame, on_control, begin_open, begin_local,
  begin_attach, begin_answer, close_driven, disconnect, auth_expires, text, close_frame,
}
use azad_server_box.Terminal.Lifecycle.{IsOwned}
use azad_server_box.Terminal.Stores.{Keeps, Keeps-refl, remove_session-Keeps, detach_stored-Keeps}
use azad_server_box.Terminal.Coverage.{Keeps-Covers, Keeps-same}
use azad_server_box.Terminal.Guarding.{Answers, resume-Answers}

-- A frame leaves the task, unless there was none.
Stays : Task → Task → Type 0
Stays old new = (new ≡ old) ⊎ (old ≡ finished)

staying :
    (shared : Shared) (old : Task) (t : Turn) (store : SessionStore)
    → Stays old t.conn.task
    → Distinct shared.store.sessions
    → Keeps shared.store store
    → t.shared ≡ record shared { store = store }
    → Answers shared old t
unfolding Stays
staying shared old t store (inl same) d k e =
    rw (e, same) (Keeps-same shared.full_access_off shared.store store old d k, refl)
staying shared old t store (inr none_yet) d k e = rw e (
  Keeps-Covers shared.full_access_off shared.store store old t.conn.task
      (λ id g. ground (arith, none_yet, g)) d k,
  refl,
)

on_control-Stays :
    (remote_access : RemoteAccess) (ctx : ConnCtx) (msg : Option ClientMsg) (shared : Shared)
    (phase : Phase) (task : Task)
    → IsOwned phase task
    → Stays task (on_control remote_access ctx msg shared phase task).conn.task
unfolding Stays on_control claim_idle begin_open begin_local begin_attach begin_answer take_exchange
    close_driven
on_control-Stays remote_access ctx msg shared phase task o = ground arith

-- A control message takes at most the session that is driven out of the store.
on_control-Keeps :
    (remote_access : RemoteAccess) (ctx : ConnCtx) (msg : Option ClientMsg) (shared : Shared)
    (phase : Phase) (task : Task)
    → (store : SessionStore) × Keeps shared.store store
      × ((on_control remote_access ctx msg shared phase task).shared
          ≡ record shared { store = store })
unfolding on_control claim_idle begin_open begin_local begin_attach begin_answer take_exchange
    close_driven
on_control-Keeps remote_access ctx (some close_msg) shared phase task =
    elim (Option-cases (driven phase)) [
      | inl e ↦ (shared.store, Keeps-refl shared.store, rw (e, close_driven) refl)
      | inr ((session, attachment, handle), e) ↦ (
        remove_session shared.store handle,
        remove_session-Keeps shared.store handle,
        rw (e, close_driven) refl,
      )
    ]
on_control-Keeps remote_access ctx none shared phase task =
    (shared.store, Keeps-refl shared.store, refl)
on_control-Keeps remote_access ctx (some msg) shared phase task =
    (shared.store, Keeps-refl shared.store, ground arith)

pub happen-Answers :
    (remote_access : RemoteAccess) (ctx : ConnCtx) (event : Happening) (shared : Shared) (c : Conn)
    → IsOwned c.phase c.task
    → Distinct shared.store.sessions
    → Answers shared c.task (happen remote_access ctx event shared c)
unfolding happen on_frame disconnect auth_expires Stays
happen-Answers remote_access ctx (frames now (text msg)) shared c o d =
    let (store, k, e) = on_control-Keeps remote_access ctx msg shared c.phase c.task in
    staying shared c.task (on_control remote_access ctx msg shared c.phase c.task) store
      (on_control-Stays remote_access ctx msg shared c.phase c.task o) d k e
happen-Answers remote_access ctx (frames now close_frame) shared c o d = (
  Keeps-same shared.full_access_off shared.store _ c.task d
      (detach_stored-Keeps now (driven c.phase) shared.store),
  refl,
)
happen-Answers remote_access ctx (frames now frame) shared c o d = (
  Keeps-same shared.full_access_off shared.store shared.store c.task d (Keeps-refl shared.store),
  refl,
)
happen-Answers remote_access ctx (replies reply) shared c o d =
    resume-Answers remote_access ctx reply shared c.phase c.task d
happen-Answers remote_access ctx (drops now) shared c o d = (
  Keeps-same shared.full_access_off shared.store _ c.task d
      (detach_stored-Keeps now (driven c.phase) shared.store),
  refl,
)
happen-Answers remote_access ctx (expires deadline) shared c o d = (
  Keeps-same shared.full_access_off shared.store shared.store c.task d (Keeps-refl shared.store),
  refl,
)
