-- ===== src/Terminal/Stores.antt =====
-- What the calls of monitor/src/api/ws/terminal.rs do to the local sessions in the store: none enters but by `register`.
use azad_server_box.Prelude.{
  ℕ, ◌≡◌, inl, inr, refl, Bool, true, not, Option, none, some, arith, nat_beq, Text, ◌==◌, text_eq,
  text_beq_iff, Bool-cases, Option-cases,
}
use azad_server_box.Prelude.Map.{
  lookup, insert, remove, Distinct, keep_if, lookup-remove, lookup-insert, remove-Distinct,
  insert-Distinct,
}
use azad_server_box.Session.Attachment.{Session, Sender, TrySend, detach}
use azad_server_box.Session.Store.{
  SessionStore, is_local, remove_session, reap_at, take_expired, take_ids, ids_where, is_expired,
}
use azad_server_box.Session.Store.Reaping.{lookup-take_where, take_ids-Distinct}
use azad_server_box.Terminal.Tasks.{id_of, write_back}
use azad_server_box.Terminal.Connection.{detach_stored}

-- Every local session of a store was a local session of another, under the same id.
pub record Keeps (earlier later : SessionStore) : Type 0 where
  pub distinct : Distinct earlier.sessions → Distinct later.sessions
  pub kept :
      (id : Text) (x : Session)
      → lookup id later.sessions ≡ some x
      → is_local x ≡ true
      → (y : Session) × (lookup id earlier.sessions ≡ some y) × (is_local y ≡ true)

pub Keeps-refl : (store : SessionStore) → Keeps store store
Keeps-refl store = record { distinct = λ d. d; kept = λ id x e l. (x, e, l) }

pub Keeps-trans : (a b c : SessionStore) → Keeps a b → Keeps b c → Keeps a c
Keeps-trans a b c h k = record {
  distinct = λ d. k.distinct (h.distinct d);
  kept = λ id x e l. let (y, f, m) = k.kept id x e l in h.kept id y f m;
}

pub remove_session-id_of :
    (store : SessionStore) (handle : Text)
    → (remove_session store handle).sessions ≡ remove (id_of handle) store.sessions
unfolding remove_session id_of
remove_session-id_of store handle = refl

pub remove_session-Keeps :
    (store : SessionStore) (handle : Text) → Keeps store (remove_session store handle)
remove_session-Keeps store handle = record {
  distinct =
      λ d. rw (remove_session-id_of store handle) (remove-Distinct (id_of handle) store.sessions d);
  kept = λ id x e l. (
    x,
    ground (
      arith,
      e,
      remove_session-id_of store handle,
      lookup-remove (id_of handle) id store.sessions,
    ),
    l,
  );
}

-- A session that is put in the place of another is local only if that was.
pub insert-Keeps :
    (store : SessionStore) (id : Text) (old new : Session)
    → lookup id store.sessions ≡ some old
    → is_local new ≡ is_local old
    → Keeps store (record store { sessions = insert id new store.sessions })
insert-Keeps store id old new found same = record {
  distinct = λ d. insert-Distinct id new store.sessions d;
  kept = λ other x e l. elim (Bool-cases (id == other)) [
    | inl here ↦ (
      old,
      ground (arith, found, (text_beq_iff id other).0 here),
      ground (arith, e, l, same, here, lookup-insert id other new store.sessions),
    )
    | inr there ↦ (x, ground (arith, e, there, lookup-insert id other new store.sessions), l)
  ];
}

pub write_back-Keeps :
    (handle : Text) (s : Session) (store : SessionStore) → Keeps store (write_back handle s store)
unfolding write_back is_local
write_back-Keeps handle s store = elim (Option-cases (lookup (id_of handle) store.sessions)) [
  | inl e ↦ rw (e, write_back) (Keeps-refl store)
  | inr (old, e) ↦ elim (Bool-cases (nat_beq old.input s.input)) [
    | inl same ↦ rw (e, write_back, same) (insert-Keeps store (id_of handle) old _ e refl)
    | inr other ↦ rw (e, write_back, other) (Keeps-refl store)
  ]
]

pub detach_stored-Keeps :
    (now : ℕ) (driven : Option (Sender × ℕ × Text)) (store : SessionStore)
    → Keeps store (detach_stored now driven store)
unfolding detach_stored is_local detach
detach_stored-Keeps now none store = Keeps-refl store
detach_stored-Keeps now (some (session, attachment, handle)) store =
    elim (Option-cases (lookup (id_of handle) store.sessions)) [
      | inl e ↦ rw (e, detach_stored) (Keeps-refl store)
      | inr (old, e) ↦ elim (Bool-cases (nat_beq old.input session)) [
        | inl same ↦
            rw (e, detach_stored, same)
              (insert-Keeps store (id_of handle) old (detach now attachment old).1 e (ground arith))
        | inr other ↦ rw (e, detach_stored, other) (Keeps-refl store)
      ]
    ]

-- Taking out the sessions that pass a test.
pub take_where-Keeps :
    (p : Session → Bool) (store : SessionStore)
    → Distinct store.sessions
    → Keeps store
        (record store { sessions = (take_ids (ids_where p store.sessions) store.sessions).1 })
take_where-Keeps p store d = record {
  distinct = λ _. take_ids-Distinct (ids_where p store.sessions) store.sessions d;
  kept = λ id x e l. (
    x,
    ground (
      arith,
      e,
      lookup-take_where p id store.sessions d,
      keep_if_some (λ s. not (p s)) (lookup id store.sessions) x,
    ),
    l,
  );
}
  where
    keep_if_some :
        (q : Session → Bool) (o : Option Session) (x : Session) → keep_if q o ≡ some x → o ≡ some x
    keep_if_some q none x e = e
    keep_if_some q (some y) x e = ground arith

pub reap_at-Keeps :
    (answer : Sender → TrySend) (now : ℕ) (store : SessionStore)
    → Distinct store.sessions
    → Keeps store (reap_at answer now store).2
unfolding reap_at take_expired
reap_at-Keeps answer now store d = take_where-Keeps (is_expired now store.detached_timeout) store d
