-- ===== src/Throttle.antt =====
-- monitor/src/api/ratelimit.rs: login throttling with reservations. The map behind the mutex is an
-- argument and a result of each call; `Instant` and `Duration` are natural numbers of nanoseconds, and
-- `Instant::now()` is an argument. Unicode lower-casing (`str::to_lowercase`) is a parameter.
pub mod Loops
pub mod Penalty
pub mod Admission
pub mod Reservations
pub mod Outcomes
mod Tests
use azad_server_box.Prelude.{
  ℕ, ◌+◌, ◌-◌, ◌*◌, ◌^◌, min, max, ◌≡◌, ◌↔◌, Bool, true, false, ◌&&◌, ◌||◌, not, Option, none, some,
  List, [], ◌∷◌, ◌++◌, arith, ltb, leb, nat_beq, checked_sub, if◌then◌else◌, length, is_empty, Text,
  Eq, ◌==◌, text_beq, text_beq_iff, Result, ok, err,
}
use azad_server_box.Prelude.Map.{Map, lookup, insert, remove, retain}

-- `Duration::from_secs`, in nanoseconds.
abbrev pub from_secs : ℕ → ℕ
from_secs n = n * 1_000_000_000

abbrev pub u32_max : ℕ
u32_max = 2 ^ 32 - 1

abbrev pub duration_max : ℕ
duration_max = from_secs (2 ^ 64 - 1) + 999_999_999

abbrev pub free_attempts : ℕ
free_attempts = 3

abbrev pub base_delay : ℕ
base_delay = from_secs 1

abbrev pub max_delay : ℕ
max_delay = from_secs 300

abbrev pub entry_ttl : ℕ
entry_ttl = from_secs 3600

abbrev pub prune_threshold : ℕ
prune_threshold = 1024

-- An address is its 32 or 128 bits.
pub data IpAddr : Type 0 where
  v4 v6 : ℕ → IpAddr

pub data Key : Type 0 where
  ip : IpAddr → Key
  user : Text → Key

abbrev pub key_beq : Key → Key → Bool
key_beq (ip (v4 a)) (ip (v4 b)) = nat_beq a b
key_beq (ip (v6 a)) (ip (v6 b)) = nat_beq a b
key_beq (user a) (user b) = text_beq a b
key_beq _ _ = false

pub key_beq_iff : (a b : Key) → (key_beq a b ≡ true) ↔ (a ≡ b)
key_beq_iff (ip (v4 a)) (ip (v4 b)) = ground arith
key_beq_iff (ip (v6 a)) (ip (v6 b)) = ground arith
key_beq_iff (user a) (user b) = ground (arith, text_beq_iff a b)
key_beq_iff _ _ = ground arith

instance abbrev pub key_eq : Eq Key
key_eq = record { test = key_beq; decides = key_beq_iff }

pub record Entry : Type 0 where
  pub failures : ℕ
  pub in_flight : ℕ
  pub last_seen : ℕ

abbrev pub saturating_add : ℕ → ℕ → ℕ
saturating_add a b = min (a + b) u32_max

-- How long after `last_seen` a key stays blocked.
unfoldable pub penalty : Entry → ℕ
penalty e = elim (checked_sub (saturating_add e.failures e.in_flight) free_attempts) [
  | none ↦ 0
  | some excess ↦
      if nat_beq excess 0
      then 0
      else min (min (base_delay * 2 ^ (min (excess - 1) 20)) duration_max) max_delay
]

abbrev pub LoginThrottle : Type 0
LoginThrottle = Map Key Entry

pub record LoginAttempt : Type 0 where
  pub keys : List Key
  pub resolved : Bool

-- The entry that `or_insert` puts in for a key that has none.
abbrev pub or_insert : ℕ → Option Entry → Entry
or_insert now none = record { failures = 0; in_flight = 0; last_seen = now }
or_insert now (some e) = e

-- The test of `retain`: what pruning keeps.
unfoldable pub is_recent : ℕ → Entry → Bool
is_recent now e = ltb 0 e.in_flight || ltb (now - e.last_seen) entry_ttl

pub prune : ℕ → LoginThrottle → LoginThrottle
unfolding is_recent
prune now entries =
    if ltb prune_threshold (length entries)
    then retain (λ _ e. is_recent now e) entries
    else entries

-- What is left of a key's penalty, where something is.
unfoldable pub remaining : ℕ → Option Entry → Option ℕ
unfolding penalty
remaining now none = none
remaining now (some e) = elim (checked_sub (penalty e) (now - e.last_seen)) [
  | none ↦ none
  | some d ↦ if nat_beq d 0 then none else some d
]

abbrev pub cons_some {ℓ} : {A : Type ℓ} → Option A → List A → List A
cons_some none l = l
cons_some (some a) l = a ∷ l

-- The `filter_map` of `begin`.
pub waits : ℕ → LoginThrottle → List Key → List ℕ
unfolding remaining
waits now entries [] = []
waits now entries (k ∷ ks) = cons_some (remaining now (lookup k entries)) (waits now entries ks)

-- `Iterator::max`
pub maximum : List ℕ → Option ℕ
maximum [] = none
maximum (x ∷ xs) = elim (maximum xs) [ none ↦ some x | some y ↦ some (max x y) ]

-- What the admission loop does to one entry.
unfoldable pub reserve_entry : ℕ → Entry → Entry
reserve_entry now e = record {
  failures = if nat_beq e.in_flight 0 && leb entry_ttl (now - e.last_seen) then 0 else e.failures;
  in_flight = saturating_add e.in_flight 1;
  last_seen = now;
}

unfoldable pub reserve_key : ℕ → Key → LoginThrottle → LoginThrottle
unfolding reserve_entry
reserve_key now k entries = insert k (reserve_entry now (or_insert now (lookup k entries))) entries

-- `for key in keys { … }` over the locked map.
pub for_keys : (Key → LoginThrottle → LoginThrottle) → List Key → LoginThrottle → LoginThrottle
for_keys f [] m = m
for_keys f (k ∷ ks) m = for_keys f ks (f k m)

module _ (to_lowercase : Text → Text) where
  unfoldable pub keys : Option IpAddr → Text → List Key
  keys addr username =
      cons_some (elim addr [ none ↦ none | some a ↦ some (ip a) ])
        (if not (is_empty username) then user (to_lowercase username) ∷ [] else [])

  -- Admits and reserves one password verification, or says how long to wait.
  pub begin : LoginThrottle → ℕ → Option IpAddr → Text → Result LoginAttempt ℕ × LoginThrottle
  unfolding keys prune waits maximum for_keys reserve_key
  begin throttle now addr username =
      let attempt_keys = keys addr username in
      let entries = prune now throttle in
      elim (maximum (waits now entries attempt_keys)) [
        | some wait ↦ (err wait, entries)
        | none ↦ (
          ok (record { keys = attempt_keys; resolved = false }),
          for_keys (reserve_key now) attempt_keys entries,
        )
      ]

unfoldable pub release_entry : Entry → Option Entry
release_entry e =
    let in_flight = e.in_flight - 1 in
    if nat_beq e.failures 0 && nat_beq in_flight 0
    then none
    else some (record e { in_flight = in_flight })

-- The entry as `get_mut` left it, or its removal.
abbrev pub write_back : Key → Option Entry → LoginThrottle → LoginThrottle
write_back k none entries = remove k entries
write_back k (some e) entries = insert k e entries

unfoldable pub release_key : Key → LoginThrottle → LoginThrottle
unfolding release_entry
release_key k entries = elim (lookup k entries) [
  | none ↦ entries
  | some e ↦ write_back k (release_entry e) entries
]

pub release_reservation : List Key → LoginThrottle → LoginThrottle
unfolding for_keys release_key
release_reservation = for_keys release_key

unfoldable pub fail_entry : ℕ → Entry → Entry
fail_entry now e = record {
  failures = saturating_add e.failures 1;
  in_flight = e.in_flight - 1;
  last_seen = now;
}

unfoldable pub fail_key : ℕ → Key → LoginThrottle → LoginThrottle
unfolding fail_entry
fail_key now k entries = insert k (fail_entry now (or_insert now (lookup k entries))) entries

pub finish_failure_at : List Key → ℕ → LoginThrottle → LoginThrottle
unfolding for_keys fail_key
finish_failure_at ks now = for_keys (fail_key now) ks

pub clear : List Key → LoginThrottle → LoginThrottle
unfolding for_keys
clear = for_keys remove

-- `impl Drop for LoginAttempt`
pub drop_attempt : LoginAttempt → LoginThrottle → LoginThrottle
unfolding release_reservation
drop_attempt attempt throttle =
    if not attempt.resolved then release_reservation attempt.keys throttle else throttle

-- The three ways to end an attempt take it by value, so it is dropped at their end.
pub record_failure : LoginThrottle → ℕ → LoginAttempt → LoginThrottle
unfolding finish_failure_at drop_attempt
record_failure throttle now attempt =
    drop_attempt (record attempt { resolved = true }) (finish_failure_at attempt.keys now throttle)

pub record_success : LoginThrottle → LoginAttempt → LoginThrottle
unfolding clear drop_attempt
record_success throttle attempt =
    drop_attempt (record attempt { resolved = true }) (clear attempt.keys throttle)

pub cancel : LoginThrottle → LoginAttempt → LoginThrottle
unfolding drop_attempt
cancel throttle attempt = drop_attempt attempt throttle
