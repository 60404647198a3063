-- ===== src/Session/Store/Reaping.antt =====
-- Which sessions of monitor/src/api/ws/session.rs the store drops, and which it keeps.
use azad_server_box.Prelude.{
  ℕ, ◌≡◌, refl, Bool, true, false, not, Option, none, some, Option-cases, inl, inr, List, [], ◌∷◌,
  arith, if◌then◌else◌, any, Text, ◌==◌, text_eq, text_beq_iff,
}
use azad_server_box.Prelude.Map.{
  Map, lookup, remove, Distinct, lookup-remove, remove-Distinct, keep_if,
}
use azad_server_box.Session.Attachment.{Session, Sender, TrySend}
use azad_server_box.Session.Store.{
  SessionStore, is_expired, ids_where, take_ids, reap_at, close_local, is_local,
}

abbrev pub has_id : Text → List Text → Bool
has_id j ids = any (λ i. i == j) ids

lookup-take_ids :
    (j : Text) (ids : List Text) (m : Map Text Session)
    → lookup j (take_ids ids m).1 ≡ (if has_id j ids then none else lookup j m)
unfolding take_ids
lookup-take_ids j [] m = refl
lookup-take_ids j (i ∷ ids) m =
    ground (arith, lookup-take_ids j ids (remove i m), lookup-remove i j m)

pub take_ids-Distinct :
    (ids : List Text) (m : Map Text Session) → Distinct m → Distinct (take_ids ids m).1
unfolding take_ids
take_ids-Distinct [] m d = d
take_ids-Distinct (i ∷ ids) m d = take_ids-Distinct ids (remove i m) (remove-Distinct i m d)

abbrev passes : (Session → Bool) → Option Session → Bool
passes p none = false
passes p (some s) = p s

has_id-ids_where :
    (p : Session → Bool) (j : Text) (m : Map Text Session)
    → Distinct m
    → has_id j (ids_where p m) ≡ passes p (lookup j m)
unfolding ids_where lookup
has_id-ids_where p j [] d = refl
has_id-ids_where p j ((i, s) ∷ m) d = ground (arith, has_id-ids_where p j m d.1, text_beq_iff i j)

-- Taking out the sessions that pass a test leaves exactly the others.
pub lookup-take_where :
    (p : Session → Bool) (j : Text) (m : Map Text Session)
    → Distinct m
    → lookup j (take_ids (ids_where p m) m).1 ≡ keep_if (λ s. not (p s)) (lookup j m)
lookup-take_where p j m d = elim (Option-cases (lookup j m)) [
  | inl e ↦ rw (lookup-take_ids j (ids_where p m) m, has_id-ids_where p j m d, e) refl
  | inr (s, e) ↦
      rw (lookup-take_ids j (ids_where p m) m, has_id-ids_where p j m d, e) (flip (p s) s)
]
  where
    flip :
        (b : Bool) (s : Session) → (if b then none else some s) ≡ (if not b then some s else none)
    flip true s = refl
    flip false s = refl

-- Reaping drops exactly the sessions that have been without a connection for the timeout or longer: one that is
-- attached, or was detached more recently, is still there, unchanged.
pub reap_exact :
    (answer : Sender → TrySend) (now : ℕ) (store : SessionStore) (j : Text)
    → Distinct store.sessions
    → lookup j (reap_at answer now store).2.sessions
      ≡ keep_if (λ s. not (is_expired now store.detached_timeout s)) (lookup j store.sessions)
unfolding reap_at
reap_exact answer now store j d =
    lookup-take_where (is_expired now store.detached_timeout) j store.sessions d

-- Closing the shells that bypassed SSH leaves exactly the sessions that did not.
pub close_local_exact :
    (answer : Sender → TrySend) (now : ℕ) (store : SessionStore) (j : Text)
    → Distinct store.sessions
    → lookup j (close_local answer now store).2.sessions
      ≡ keep_if (λ s. not (is_local s)) (lookup j store.sessions)
unfolding close_local
close_local_exact answer now store j d = lookup-take_where is_local j store.sessions d
