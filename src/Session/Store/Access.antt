-- ===== src/Session/Store/Access.antt =====
-- Who gets at a session of monitor/src/api/ws/session.rs, and how many there can be.
use azad_server_box.Prelude.{
  ℕ, ◌≤◌, ◌≡◌, ◌↔◌, refl, sym, ap, ◌∙◌, Option, none, some, Option-cases, inl, inr, List, [], ◌∷◌,
  ◌++◌, arith, length, Text, text_eq, text_beq_iff, ok,
}
use azad_server_box.Prelude.Strings.{split_once, split_once-append}
use azad_server_box.Prelude.Map.{
  Map, lookup, remove, lookup-insert, length-insert-le, length-remove-le,
}
use azad_server_box.Secrets.{constant_time_eq_iff, hex, hex-NoDot, random_hex}
use azad_server_box.Session.Attachment.{Session, Sender, TrySend}
use azad_server_box.Session.Store.{
  SessionStore, ids_where, is_expired, is_local, get, get_checked, take_ids, take_expired, place,
  insert_session, reap_at, close_local, remove_session,
}

-- What a handle must show.
pub record Opens (store : SessionStore) (handle subject : Text) (s : Session) : Type 0 where
  pub id : Text
  pub secret : Text
  pub split : split_once b'.' handle ≡ some (id, secret)
  pub found : lookup id store.sessions ≡ some s
  pub matches : s.secret ≡ secret
  pub owner : s.subject ≡ subject

get_checked-ok :
    (secret subject : Text) (o : Option Session) (s : Session)
    → (get_checked secret subject o ≡ ok s)
      ↔ ((o ≡ some s) × (s.secret ≡ secret) × (s.subject ≡ subject))
unfolding get_checked
get_checked-ok secret subject none s = ground arith
get_checked-ok secret subject (some t) s = (
  λ h. ground (arith, constant_time_eq_iff t.secret secret, text_beq_iff t.subject subject),
  λ h. ground (
    arith,
    constant_time_eq_iff t.secret secret,
    text_beq_iff t.subject subject,
    ap (λ (o : Option Session). o) h.0,
  ),
)

get-split :
    (store : SessionStore) (handle subject id secret : Text)
    → split_once b'.' handle ≡ some (id, secret)
    → get store handle subject ≡ get_checked secret subject (lookup id store.sessions)
unfolding get
get-split store handle subject id secret e = rw (e, get)

-- A handle opens a session exactly if its id is known, its secret is the session's and the account is the one that created it.
pub get-ok_iff :
    (store : SessionStore) (handle subject : Text) (s : Session)
    → (get store handle subject ≡ ok s) ↔ Opens store handle subject s
get-ok_iff store handle subject s = (
  λ h. elim (Option-cases (split_once b'.' handle)) [
    | inl e ↦ absurd (unfold get in (ground (arith, e, h)))
    | inr ((id, secret), e) ↦
        let (found, matches, owner) =
          (get_checked-ok secret subject (lookup id store.sessions) s).0
            (sym (get-split store handle subject id secret e) ∙ h) in
        record {
          id = id;
          secret = secret;
          split = e;
          found = found;
          matches = matches;
          owner = owner;
        }
  ],
  λ v.
      get-split store handle subject v.id v.secret v.split
      ∙ (get_checked-ok v.secret subject (lookup v.id store.sessions) s).1
          (v.found, v.matches, v.owner),
)

place-ok :
    (store : SessionStore) (id : Text) (s t : Session) (handle : Text)
    → (place store id s).0 ≡ some (handle, t)
    → (t ≡ s)
      × (handle ≡ id ++ b'.' ∷ s.secret)
      × (lookup id (place store id s).1.sessions ≡ some s)
unfolding place
place-ok store id s t handle h =
    ground (arith, lookup-insert id id s store.sessions, text_beq_iff id id)

-- The handle that an insertion returns opens the session that was inserted, for the account that created it, with
-- the secret that was drawn for it.
pub insert-get :
    (answer : Sender → TrySend) (store : SessionStore) (s t : Session) (now : ℕ)
    (id_bytes secret_bytes : List ℕ) (handle : Text)
    → (insert_session answer store s now (some id_bytes) (some secret_bytes)).0
      ≡ ok (some (handle, t))
    → (get
          (insert_session answer store s now (some id_bytes) (some secret_bytes)).2
          handle
          s.subject
        ≡ ok t)
      × (t ≡ record s { secret = hex secret_bytes })
unfolding insert_session
insert-get answer store s t now id_bytes secret_bytes handle h =
    let id : Text = hex id_bytes in
    let drawn : Session = record s { secret = hex secret_bytes } in
    let live : SessionStore = record store {
      sessions = (take_expired store.sessions now store.detached_timeout).1;
    } in
    let placed : (place live id drawn).0 ≡ some (handle, t) = ground (arith, h) in
    let (same, shown, found) = place-ok live id drawn t handle placed in
    (
      (get-ok_iff (place live id drawn).1 handle s.subject t).1 (record {
        id = id;
        secret = hex secret_bytes;
        split = rw shown (split_once-append b'.' id (hex secret_bytes) (hex-NoDot id_bytes));
        found = rw same found;
        matches = rw same refl;
        owner = rw same refl;
      }),
      same,
    )

length-take_ids-le : (ids : List Text) (m : Map Text Session) → length (take_ids ids m).1 ≤ length m
unfolding take_ids
length-take_ids-le [] m = omega arith
length-take_ids-le (i ∷ ids) m =
    omega (arith, length-take_ids-le ids (remove i m), length-remove-le i m)

-- The calls that change the store.
pub data Call : Type 0 where
  inserts : Session → ℕ → Option (List ℕ) → Option (List ℕ) → Call
  removes : Text → Call
  closes_local reaps : ℕ → Call

pub step : (Sender → TrySend) → SessionStore → Call → SessionStore
step answer store (inserts s now ib sb) = (insert_session answer store s now ib sb).2
step answer store (removes handle) = remove_session store handle
step answer store (closes_local now) = (close_local answer now store).2
step answer store (reaps now) = (reap_at answer now store).2

abbrev pub IsBounded : SessionStore → Type 0
IsBounded store = length store.sessions ≤ store.max

place-IsBounded :
    (store : SessionStore) (id : Text) (s : Session)
    → IsBounded store
    → IsBounded (place store id s).1 × ((place store id s).1.max ≡ store.max)
unfolding place
place-IsBounded store id s v = ground (arith, length-insert-le id s store.sessions)

-- Whatever is called, the store never holds more sessions than its limit, and the limit stays.
pub step-IsBounded :
    (answer : Sender → TrySend) (store : SessionStore) (c : Call)
    → IsBounded store
    → IsBounded (step answer store c) × ((step answer store c).max ≡ store.max)
unfolding step insert_session take_expired remove_session close_local reap_at random_hex
step-IsBounded answer store (inserts s now none sb) v = (v, refl)
step-IsBounded answer store (inserts s now (some ib) none) v = (v, refl)
step-IsBounded answer store (inserts s now (some ib) (some sb)) v =
    place-IsBounded
      (record store { sessions = (take_expired store.sessions now store.detached_timeout).1 }) _ _
      (omega (
        arith,
        v,
        length-take_ids-le (ids_where (is_expired now store.detached_timeout) store.sessions)
            store.sessions,
      ))
step-IsBounded answer store (removes handle) v =
    (omega (arith, v, length-remove-le _ store.sessions), refl)
step-IsBounded answer store (closes_local now) v =
    (omega (arith, v, length-take_ids-le (ids_where is_local store.sessions) store.sessions), refl)
step-IsBounded answer store (reaps now) v = (
  omega (
    arith,
    v,
    length-take_ids-le (ids_where (is_expired now store.detached_timeout) store.sessions)
        store.sessions,
  ),
  refl,
)
