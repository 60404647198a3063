-- ===== src/Throttle/Loops.antt =====
-- What the loops over the keys of an attempt (monitor/src/api/ratelimit.rs) do to each entry.
use azad_server_box.Prelude.{
  ℕ, ◌≡◌, refl, Bool, false, Option, none, some, Option-cases, inl, inr, List, [], ◌∷◌, arith,
  if◌then◌else◌, any, Text, ◌==◌, length, ltb,
}
use azad_server_box.Prelude.Map.{
  lookup, remove, keep_if, Distinct, lookup-remove, lookup-insert, lookup-retain, insert-Distinct,
  remove-Distinct, retain-Distinct,
}
use azad_server_box.Throttle.{
  IpAddr, Key, key_beq_iff, key_eq, Entry, LoginThrottle, keys, prune, is_recent, prune_threshold,
  for_keys, reserve_key, reserve_entry, or_insert, release_key, release_entry, write_back, fail_key,
  fail_entry,
}

abbrev pub contains : Key → List Key → Bool
contains j ks = any (λ k. k == j) ks

abbrev pub NoRepeat : List Key → Type 0
NoRepeat [] = Unit
NoRepeat (k ∷ ks) = (contains k ks ≡ false) × NoRepeat ks

-- An attempt never reserves one key twice.
pub keys-NoRepeat :
    (to_lowercase : Text → Text) (addr : Option IpAddr) (username : Text)
    → NoRepeat (keys to_lowercase addr username)
unfolding keys
keys-NoRepeat to_lowercase none username = ground arith
keys-NoRepeat to_lowercase (some a) username = ground arith

-- A step that acts on its own key alone, by `g`.
abbrev pub Acts : (Key → LoginThrottle → LoginThrottle) → (Option Entry → Option Entry) → Type 0
Acts f g =
    (k j : Key) (m : LoginThrottle)
    → lookup j (f k m) ≡ (if k == j then g (lookup k m) else lookup j m)

pub lookup-for_keys :
    (f : Key → LoginThrottle → LoginThrottle) (g : Option Entry → Option Entry)
    → Acts f g
    → (j : Key) (ks : List Key) (m : LoginThrottle) → NoRepeat ks
    → lookup j (for_keys f ks m) ≡ (if contains j ks then g (lookup j m) else lookup j m)
unfolding for_keys
lookup-for_keys f g acts j [] m d = refl
lookup-for_keys f g acts j (k ∷ ks) m d =
    ground (arith, lookup-for_keys f g acts j ks (f k m) d.1, acts k j m, key_beq_iff k j)

pub for_keys-Distinct :
    (f : Key → LoginThrottle → LoginThrottle)
    → ((k : Key) (m : LoginThrottle) → Distinct m → Distinct (f k m))
    → (ks : List Key) (m : LoginThrottle) → Distinct m
    → Distinct (for_keys f ks m)
unfolding for_keys
for_keys-Distinct f keep [] m d = d
for_keys-Distinct f keep (k ∷ ks) m d = for_keys-Distinct f keep ks (f k m) (keep k m d)

abbrev pub reserved : ℕ → Option Entry → Option Entry
reserved now o = some (reserve_entry now (or_insert now o))

abbrev pub released : Option Entry → Option Entry
released none = none
released (some e) = release_entry e

abbrev pub failed : ℕ → Option Entry → Option Entry
failed now o = some (fail_entry now (or_insert now o))

abbrev pub cleared : Option Entry → Option Entry
cleared o = none

pub reserve_key-Acts : (now : ℕ) → Acts (reserve_key now) (reserved now)
unfolding reserve_key
reserve_key-Acts now k j m = lookup-insert k j (reserve_entry now (or_insert now (lookup k m))) m

pub fail_key-Acts : (now : ℕ) → Acts (fail_key now) (failed now)
unfolding fail_key
fail_key-Acts now k j m = lookup-insert k j (fail_entry now (or_insert now (lookup k m))) m

pub remove-Acts : Acts remove cleared
remove-Acts k j m = lookup-remove k j m

lookup-write_back :
    (k j : Key) (o : Option Entry) (m : LoginThrottle)
    → lookup j (write_back k o m) ≡ (if k == j then o else lookup j m)
lookup-write_back k j none m = lookup-remove k j m
lookup-write_back k j (some e) m = lookup-insert k j e m

write_back-Distinct :
    (k : Key) (o : Option Entry) (m : LoginThrottle) → Distinct m → Distinct (write_back k o m)
write_back-Distinct k none m d = remove-Distinct k m d
write_back-Distinct k (some e) m d = insert-Distinct k e m d

pub release_key-Acts : Acts release_key released
unfolding release_key
release_key-Acts k j m = elim (Option-cases (lookup k m)) [
  | inl e ↦ rw (e, release_key) (ground (arith, key_beq_iff k j))
  | inr (v, e) ↦ rw (e, release_key) (lookup-write_back k j (release_entry v) m)
]

pub reserve_key-Distinct :
    (now : ℕ) (k : Key) (m : LoginThrottle) → Distinct m → Distinct (reserve_key now k m)
unfolding reserve_key
reserve_key-Distinct now k m d =
    insert-Distinct k (reserve_entry now (or_insert now (lookup k m))) m d

pub fail_key-Distinct :
    (now : ℕ) (k : Key) (m : LoginThrottle) → Distinct m → Distinct (fail_key now k m)
unfolding fail_key
fail_key-Distinct now k m d = insert-Distinct k (fail_entry now (or_insert now (lookup k m))) m d

pub release_key-Distinct : (k : Key) (m : LoginThrottle) → Distinct m → Distinct (release_key k m)
unfolding release_key
release_key-Distinct k m d = elim (Option-cases (lookup k m)) [
  | inl e ↦ rw (e, release_key) d
  | inr (v, e) ↦ rw (e, release_key) (write_back-Distinct k (release_entry v) m d)
]

pub prune-Distinct : (now : ℕ) (m : LoginThrottle) → Distinct m → Distinct (prune now m)
unfolding prune
prune-Distinct now m d =
    ground (arith, retain-Distinct (λ (_ : Key) (e : Entry). is_recent now e) m d)

pub lookup-prune :
    (now : ℕ) (j : Key) (m : LoginThrottle)
    → Distinct m
    → lookup j (prune now m) ≡ (
        if ltb prune_threshold (length m) then keep_if (is_recent now) (lookup j m) else lookup j m)
unfolding prune
lookup-prune now j m d =
    ground (arith, lookup-retain (λ (_ : Key) (e : Entry). is_recent now e) j m d)
