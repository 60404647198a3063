-- ===== src/Throttle/Outcomes.antt =====
-- What a resolved attempt leaves behind (monitor/src/api/ratelimit.rs).
use azad_server_box.Prelude.{
  ℕ, ◌-◌, ◌<◌, ◌≡◌, refl, sym, ap, Bool, true, Option, none, some, List, [], ◌∷◌, arith,
  if◌then◌else◌, All, Text, ok, leb, subst, nat_beq, ◌&&◌, ◌||◌,
}
use azad_server_box.Prelude.Map.{lookup, Distinct, keep_if, remove-Distinct, remove}
use azad_server_box.Throttle.{
  IpAddr, Key, key_eq, key_beq_iff, Entry, LoginThrottle, LoginAttempt, keys, prune, is_recent,
  for_keys, reserve_key, reserve_entry, begin, record_success, cancel, release_key,
  release_reservation, clear, release_entry, entry_ttl, u32_max,
}
use azad_server_box.Throttle.Loops.{
  contains, NoRepeat, keys-NoRepeat, lookup-for_keys, reserve_key-Acts, reserved, released, cleared,
  lookup-prune, for_keys-Distinct, release_key-Acts, remove-Acts,
}
use azad_server_box.Throttle.Admission.{begin-reserves, IsAdmitted, IsFree, begin-ok_iff}

abbrev is_idle : ℕ → Entry → Bool
is_idle now e = nat_beq e.in_flight 0 && leb entry_ttl (now - e.last_seen)

-- The entry as it was, stamped anew; nothing, where it was idle or counted nothing.
abbrev pub restored : ℕ → Option Entry → Option Entry
restored now none = none
restored now (some e) =
    if is_idle now e || (nat_beq e.failures 0 && nat_beq e.in_flight 0)
    then none
    else some (record e { last_seen = now })

abbrev pub HasRoom : Option Entry → Type 0
HasRoom none = Unit
HasRoom (some e) = e.in_flight < u32_max

released-reserved :
    (now : ℕ) (o : Option Entry) → HasRoom o → released (reserved now o) ≡ restored now o
unfolding release_entry reserve_entry
released-reserved now none h = ground arith
released-reserved now (some e) h = ground arith

released-reserved-pruned :
    (now : ℕ) (o : Option Entry) (b : Bool)
    → HasRoom o
    → released (reserved now (if b then keep_if (is_recent now) o else o)) ≡ restored now o
unfolding is_recent release_entry reserve_entry
released-reserved-pruned now none b h = ground arith
released-reserved-pruned now (some e) b h = ground arith

contains_at :
    {a b : LoginAttempt} (k : Key) → a ≡ b → contains k a.keys ≡ true → contains k b.keys ≡ true
contains_at k p h = subst (λ (x : LoginAttempt). contains k x.keys ≡ true) p h

module _ (to_lowercase : Text → Text) (m : LoginThrottle) (now : ℕ) (addr : Option IpAddr)
    (username : Text) where
  lookup-begin :
      (a : LoginAttempt) (k : Key)
      → (begin to_lowercase m now addr username).0 ≡ ok a
      → contains k a.keys ≡ true
      → lookup k (begin to_lowercase m now addr username).1 ≡ reserved now (lookup k (prune now m))
  lookup-begin a k admitted own =
      let (same, left) = begin-reserves to_lowercase m now addr username a admitted in
      rw
        (
          left,
          lookup-for_keys (reserve_key now) (reserved now) (reserve_key-Acts now) k
              (keys to_lowercase addr username) (prune now m)
              (keys-NoRepeat to_lowercase addr username),
          contains_at k same own,
        )
        refl

  -- An attempt that is cancelled, or dropped unresolved, gives its reservations back: each of its keys has the failures
  -- and the reservations that it had before, stamped with the time of the attempt, and no entry where it had none, where
  -- the entry was idle, and where it counted nothing.
  pub cancel_restores :
      (a : LoginAttempt) (k : Key)
      → Distinct m
      → (begin to_lowercase m now addr username).0 ≡ ok a
      → contains k a.keys ≡ true
      → HasRoom (lookup k m)
      → lookup k (cancel (begin to_lowercase m now addr username).1 a) ≡ restored now (lookup k m)
  unfolding cancel release_reservation
  cancel_restores a k d admitted own room =
      let (same, left) = begin-reserves to_lowercase m now addr username a admitted in
      let after : LoginThrottle = (begin to_lowercase m now addr username).1 in
      rw
        (
          ap (λ (x : LoginAttempt). x.resolved) same,
          lookup-for_keys release_key released release_key-Acts k a.keys after (
              subst (λ (x : LoginAttempt). NoRepeat x.keys) (sym same)
                (keys-NoRepeat to_lowercase addr username)),
          own,
          lookup-begin a k admitted own,
          lookup-prune now k m d,
        )
        (released-reserved-pruned now (lookup k m) _ room)

clear-IsFree :
    (now : ℕ) (m : LoginThrottle) (ks l : List Key)
    → NoRepeat ks
    → ((k : Key) → contains k l ≡ true → contains k ks ≡ true)
    → All (λ k. IsFree now (lookup k (for_keys remove ks m))) l
clear-IsFree now m ks [] d h = tt
clear-IsFree now m ks (k ∷ l) d h = (
  rw (lookup-for_keys remove cleared remove-Acts k ks m d, h k (ground (arith, key_beq_iff k k)))
      tt,
  clear-IsFree now m ks l d (λ j e. h j (ground arith)),
)

-- A correct password clears the keys of its attempt, so the same client is admitted again at once, whatever
-- failures it had.
pub success_readmits :
    (to_lowercase : Text → Text) (m : LoginThrottle) (now : ℕ) (addr : Option IpAddr)
    (username : Text) (a : LoginAttempt)
    → Distinct m
    → a.keys ≡ keys to_lowercase addr username
    → IsAdmitted to_lowercase (record_success m a) now addr username
unfolding record_success clear
success_readmits to_lowercase m now addr username a d same =
    let own : List Key = keys to_lowercase addr username in
    rw same (
      (begin-ok_iff to_lowercase (for_keys remove own m) now addr username
          (for_keys-Distinct remove remove-Distinct own m d)).1
        (clear-IsFree now m own own (keys-NoRepeat to_lowercase addr username) (λ k h. h)))
