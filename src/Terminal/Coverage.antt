-- ===== src/Terminal/Coverage.antt =====
-- Which local sessions an insertion of monitor/src/api/ws/terminal.rs may leave in the store, and who answers for them.
use azad_server_box.Prelude.{
  ℕ, ◌≡◌, ◌⊎◌, inl, inr, refl, ◌∙◌, Bool, true, Option, none, some, List, ◌∷◌, ◌++◌, arith, leb,
  length, Text, ◌==◌, text_eq, text_beq_iff, Result, ok, Bool-cases,
}
use azad_server_box.Prelude.Strings.{split_once-append}
use azad_server_box.Prelude.Map.{lookup, Distinct, lookup-insert, insert-Distinct}
use azad_server_box.Secrets.{hex, hex-NoDot, random_hex}
use azad_server_box.RemoteAccess.{RemoteAccess}
use azad_server_box.Session.Attachment.{Session, Sender, TrySend, new_session}
use azad_server_box.Session.Store.{
  SessionStore, is_local, is_expired, insert_session, insert_with, place, take_expired,
}
use azad_server_box.Terminal.Messages.{Act}
use azad_server_box.Terminal.Admission.{ConnCtx}
use azad_server_box.Terminal.Tasks.{
  Origin, Drawn, Task, registered, Shared, settle, channels, register, auth_of, id_of, refuse,
}
use azad_server_box.Terminal.Phases.{Phase}
use azad_server_box.Terminal.Stores.{Keeps, take_where-Keeps}

-- A call that has put a local session under an id, and will check once more whether it may.
abbrev pub Guards : Task → Text → Type 0
Guards (registered _ _ handle) id = id_of handle ≡ id
Guards _ _ = ⊥

-- Where access is off, every local session of the later store is guarded by the new task, or was in the earlier one and not
-- guarded by the old task.
pub record Covers (off : Bool) (earlier later : SessionStore) (old new : Task) : Type 0 where
  pub distinct : Distinct later.sessions
  pub covered :
      off ≡ true
      → (id : Text) (x : Session) → lookup id later.sessions ≡ some x
      → is_local x ≡ true
      → Guards new id
        ⊎ (((y : Session) × (lookup id earlier.sessions ≡ some y) × (is_local y ≡ true))
            × ¬ Guards old id)

pub Keeps-Covers :
    (off : Bool) (earlier later : SessionStore) (old new : Task)
    → ((id : Text) → ¬ Guards old id)
    → Distinct earlier.sessions
    → Keeps earlier later
    → Covers off earlier later old new
Keeps-Covers off earlier later old new free d k = record {
  distinct = k.distinct d;
  covered = λ _ id x e l. inr (k.kept id x e l, free id);
}

-- What an insertion may leave in the store.
pub record Inserts (earlier later : SessionStore) (s : Session)
    (placed : Result (Option (Text × Session)) (Unit {0})) : Type 0 where
  pub distinct : Distinct later.sessions
  pub fresh :
      (id : Text) (x : Session)
      → lookup id later.sessions ≡ some x
      → is_local x ≡ true
      → ((handle : Text) × (t : Session) × (placed ≡ ok (some (handle, t)))
          × (id_of handle ≡ id)
          × (is_local s ≡ true))
        ⊎ ((y : Session) × (lookup id earlier.sessions ≡ some y) × (is_local y ≡ true))

id_of-handle : (bytes : List ℕ) (secret : Text) → id_of (hex bytes ++ b'.' ∷ secret) ≡ hex bytes
unfolding id_of
id_of-handle bytes secret =
    rw (split_once-append b'.' (hex bytes) secret (hex-NoDot bytes), id_of) refl

place-Inserts :
    (earlier live : SessionStore) (bytes : List ℕ) (s t : Session)
    → Distinct earlier.sessions
    → Keeps earlier live
    → is_local t ≡ is_local s
    → Inserts earlier (place live (hex bytes) t).1 s (ok (place live (hex bytes) t).0)
unfolding place
place-Inserts earlier live bytes s t d k same =
    elim (Bool-cases (leb live.max (length live.sessions))) [
      | inl full ↦
          rw (full, place)
            (record { distinct = k.distinct d; fresh = λ id x e l. inr (k.kept id x e l) })
      | inr room ↦
          rw (room, place)
            (record {
              distinct = insert-Distinct (hex bytes) t live.sessions (k.distinct d);
              fresh = λ id x e l. elim (Bool-cases (hex bytes == id)) [
                | inl here ↦ inl (
                  hex bytes ++ b'.' ∷ t.secret,
                  t,
                  refl,
                  id_of-handle bytes t.secret ∙ (text_beq_iff (hex bytes) id).0 here,
                  ground (arith, e, l, same, here, lookup-insert (hex bytes) id t live.sessions),
                )
                | inr there ↦ inr (
                    k.kept id x
                      (ground (arith, e, there, lookup-insert (hex bytes) id t live.sessions)) l)
              ];
            })
    ]

insert_session-Inserts :
    (answer : Sender → TrySend) (store : SessionStore) (s : Session) (now : ℕ)
    (id_bytes secret_bytes : Option (List ℕ))
    → Distinct store.sessions
    → let (placed, _, later) = insert_session answer store s now id_bytes secret_bytes in
      Inserts store later s placed
unfolding insert_session random_hex insert_with take_expired is_local
insert_session-Inserts answer store s now none secret_bytes d = record {
  distinct = d;
  fresh = λ id x e l. inr (x, e, l);
}
insert_session-Inserts answer store s now (some ib) none d = record {
  distinct = d;
  fresh = λ id x e l. inr (x, e, l);
}
insert_session-Inserts answer store s now (some ib) (some sb) d =
    place-Inserts store
      (record store { sessions = (take_expired store.sessions now store.detached_timeout).1 }) ib s
      (record s { secret = hex sb }) d
      (take_where-Keeps (is_expired now store.detached_timeout) store d) refl

settle-shared :
    (origin : Origin) (user : Text) (placed : Result (Option (Text × Session)) (Unit {0}))
    (acts : List Act) (shared : Shared) (phase : Phase)
    → (settle origin user placed acts shared phase).shared ≡ shared
unfolding settle refuse
settle-shared origin user placed acts shared phase = ground arith

settle-Covers :
    (origin : Origin) (user : Text) (placed : Result (Option (Text × Session)) (Unit {0}))
    (acts : List Act) (earlier : SessionStore) (shared : Shared) (phase : Phase) (old : Task)
    (s : Session)
    → ((id : Text) → ¬ Guards old id)
    → s.auth ≡ auth_of origin
    → Inserts earlier shared.store s placed
    → let t = settle origin user placed acts shared phase in
      Covers shared.full_access_off earlier t.shared.store old t.conn.task
      × (t.shared.full_access_off ≡ shared.full_access_off)
unfolding is_local auth_of
settle-Covers origin user placed acts earlier shared phase old s free a v =
    rw (settle-shared origin user placed acts shared phase) (
      record {
        distinct = v.distinct;
        covered = λ _ id x e l. elim (v.fresh id x e l) [
          | inr kept ↦ inr (kept, free id)
          | inl (handle, t, p, i, m) ↦ inl (unfold settle in (ground (arith, p, i, m, a)))
        ];
      },
      refl,
    )

-- A task that stays answers for the same sessions as before.
pub Keeps-same :
    (off : Bool) (earlier later : SessionStore) (task : Task)
    → Distinct earlier.sessions
    → Keeps earlier later
    → Covers off earlier later task task
Keeps-same off earlier later task d k = record {
  distinct = k.distinct d;
  covered =
      λ _ id x e l. elim (guards_dec task id) [ inl g ↦ inl g | inr n ↦ inr (k.kept id x e l, n) ];
}
  where
    guards_dec : (task : Task) (id : Text) → Guards task id ⊎ (¬ Guards task id)
    guards_dec (registered _ _ handle) id = elim (Bool-cases (id_of handle == id)) [
      | inl e ↦ inl ((text_beq_iff (id_of handle) id).0 e)
      | inr n ↦ inr (λ e. ground (arith, n, (text_beq_iff (id_of handle) id).1 e))
    ]
    guards_dec task id = ground arith

pub register-Covers :
    (remote_access : RemoteAccess) (ctx : ConnCtx) (origin : Origin) (user : Text) (drawn : Drawn)
    (shared : Shared) (phase : Phase) (old : Task)
    → ((id : Text) → ¬ Guards old id)
    → Distinct shared.store.sessions
    → let t = register remote_access ctx origin user drawn shared phase in
      Covers shared.full_access_off shared.store t.shared.store old t.conn.task
      × (t.shared.full_access_off ≡ shared.full_access_off)
unfolding register new_session
register-Covers remote_access ctx origin user drawn shared phase old free d =
    let s : Session =
      new_session ctx.subject user (auth_of origin) remote_access.terminal.scrollback_bytes
        drawn.input in
    let (placed, effects, store) =
      insert_session drawn.answer shared.store s drawn.now drawn.id_bytes drawn.secret_bytes in
    settle-Covers origin user placed (channels effects) shared.store
      (record shared { store = store }) phase old s free refl
      (insert_session-Inserts drawn.answer shared.store s drawn.now drawn.id_bytes
        drawn.secret_bytes d)
