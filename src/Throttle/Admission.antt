-- ===== src/Throttle/Admission.antt =====
-- When `begin` of monitor/src/api/ratelimit.rs admits, how long a refused client waits, and how many
-- attempts one key gets in a burst.
use azad_server_box.Prelude.{
  ℕ, ◌+◌, ◌-◌, ◌≤◌, ◌<◌, ◌≡◌, ◌↔◌, refl, sym, ap, true, false, Option, none, some, Option-cases,
  Bool-cases, inl, inr, List, [], ◌∷◌, arith, All, Text, ok, err, ◌==◌, ◌∙◌, subst, ltb, length,
}
use azad_server_box.Prelude.Map.{lookup, Distinct, keep_if}
use azad_server_box.Throttle.{
  IpAddr, Key, key_eq, key_beq_iff, Entry, LoginThrottle, LoginAttempt, keys, prune, is_recent,
  prune_threshold, remaining, waits, maximum, for_keys, reserve_key, reserve_entry, begin, penalty,
  free_attempts, entry_ttl, base_delay, cons_some,
}
use azad_server_box.Throttle.Loops.{
  contains, keys-NoRepeat, lookup-for_keys, reserve_key-Acts, reserved, lookup-prune,
  prune-Distinct,
}
use azad_server_box.Throttle.Penalty.{penalty_bounded, penalty_short}

-- The penalty of an entry, if there is one, is over.
abbrev pub IsFree : ℕ → Option Entry → Type 0
IsFree now none = Unit
IsFree now (some e) = penalty e ≤ now - e.last_seen

remaining-IsFree : (now : ℕ) (o : Option Entry) → (remaining now o ≡ none) ↔ IsFree now o
unfolding remaining
remaining-IsFree now none = ground arith
remaining-IsFree now (some e) = ground arith

remaining-pos :
    (now : ℕ) (e : Entry) (d : ℕ)
    → remaining now (some e) ≡ some d
    → penalty e ≡ (now - e.last_seen) + d
unfolding remaining
remaining-pos now e d h = ground arith

-- An entry that pruning drops blocks nobody.
remaining-keep_if :
    (now : ℕ) (o : Option Entry) → remaining now (keep_if (is_recent now) o) ≡ remaining now o
unfolding remaining is_recent
remaining-keep_if now none = refl
remaining-keep_if now (some e) = ground (arith, penalty_bounded e)

remaining-prune :
    (now : ℕ) (k : Key) (m : LoginThrottle)
    → Distinct m
    → remaining now (lookup k (prune now m)) ≡ remaining now (lookup k m)
remaining-prune now k m d =
    ground (arith, lookup-prune now k m d, remaining-keep_if now (lookup k m))

waits-prune :
    (now : ℕ) (m : LoginThrottle) (ks : List Key)
    → Distinct m
    → waits now (prune now m) ks ≡ waits now m ks
unfolding waits
waits-prune now m [] d = refl
waits-prune now m (k ∷ ks) d = rw (remaining-prune now k m d, waits-prune now m ks d)

maximum-none : (xs : List ℕ) → maximum xs ≡ none → xs ≡ []
unfolding maximum
maximum-none [] h = refl
maximum-none (x ∷ xs) h = ground (arith, maximum-none xs)

waits-nil :
    (now : ℕ) (m : LoginThrottle) (ks : List Key)
    → waits now m ks ≡ []
    → All (λ k. IsFree now (lookup k m)) ks
unfolding waits
waits-nil now m [] h = tt
waits-nil now m (k ∷ ks) h =
    ((remaining-IsFree now (lookup k m)).0 (ground arith), waits-nil now m ks (ground arith))

nil-waits :
    (now : ℕ) (m : LoginThrottle) (ks : List Key)
    → All (λ k. IsFree now (lookup k m)) ks
    → waits now m ks ≡ []
unfolding waits
nil-waits now m [] h = refl
nil-waits now m (k ∷ ks) h = rw ((remaining-IsFree now (lookup k m)).1 h.0) (nil-waits now m ks h.1)

-- The penalty of an entry, if there is one, is over once `w` more has passed.
abbrev Covered : ℕ → ℕ → Option Entry → Type 0
Covered now w none = Unit
Covered now w (some e) = penalty e ≤ (now - e.last_seen) + w

remaining-Covered :
    (now w : ℕ) (o : Option Entry) (xs : List ℕ)
    → All (λ d. d ≤ w) (cons_some (remaining now o) xs)
    → Covered now w o × All (λ d. d ≤ w) xs
unfolding remaining
remaining-Covered now w none xs h = (tt, h)
remaining-Covered now w (some e) xs h = ground arith

waits-Covered :
    (now w : ℕ) (m : LoginThrottle) (ks : List Key)
    → All (λ d. d ≤ w) (waits now m ks)
    → All (λ k. Covered now w (lookup k m)) ks
unfolding waits
waits-Covered now w m [] h = tt
waits-Covered now w m (k ∷ ks) h =
    let (first, rest) = remaining-Covered now w (lookup k m) (waits now m ks) h in
    (first, waits-Covered now w m ks rest)

All-le_mono : (v w : ℕ) (xs : List ℕ) → v ≤ w → All (λ d. d ≤ v) xs → All (λ d. d ≤ w) xs
All-le_mono v w [] h a = tt
All-le_mono v w (x ∷ xs) h a = (omega arith, All-le_mono v w xs h a.1)

-- No wait is longer than the largest.
maximum-le : (xs : List ℕ) (w : ℕ) → maximum xs ≡ some w → All (λ d. d ≤ w) xs
unfolding maximum
maximum-le [] w h = tt
maximum-le (x ∷ xs) w h = elim (Option-cases (maximum xs)) [
  | inl e ↦ (ground arith, rw (maximum-none xs e) tt)
  | inr (y, e) ↦ (ground arith, All-le_mono y w xs (ground arith) (maximum-le xs y e))
]

module _ (to_lowercase : Text → Text) (m : LoginThrottle) (now : ℕ) (addr : Option IpAddr)
    (username : Text) where
  abbrev pub attempt : LoginAttempt
  attempt = record { keys = keys to_lowercase addr username; resolved = false }

  abbrev pub IsAdmitted : Type 0
  IsAdmitted = (begin to_lowercase m now addr username).0 ≡ ok attempt

  -- An attempt is admitted exactly when the penalty of each of its keys is over, counted from the entries as they were before any pruning.
  pub begin-ok_iff :
      Distinct m → IsAdmitted ↔ All (λ k. IsFree now (lookup k m)) (keys to_lowercase addr username)
  unfolding begin
  begin-ok_iff d = (
    λ h.
        waits-nil now m (keys to_lowercase addr username)
          (sym (waits-prune now m _ d) ∙ maximum-none _ (ground arith)),
    λ h.
        rw (ap maximum (waits-prune now m _ d ∙ nil-waits now m _ h), begin)
          (unfold maximum in refl),
  )

-- What an admission leaves: each key of the attempt reserved in the pruned map.
pub begin-reserves :
    (to_lowercase : Text → Text) (m : LoginThrottle) (now : ℕ) (addr : Option IpAddr)
    (username : Text) (a : LoginAttempt)
    → (begin to_lowercase m now addr username).0 ≡ ok a
    → (a ≡ attempt to_lowercase m now addr username)
      × ((begin to_lowercase m now addr username).1
          ≡ for_keys (reserve_key now) (keys to_lowercase addr username) (prune now m))
unfolding begin
begin-reserves to_lowercase m now addr username a h = ground arith

-- What a refusal leaves: the pruned map.
pub begin-refuses :
    (to_lowercase : Text → Text) (m : LoginThrottle) (now : ℕ) (addr : Option IpAddr)
    (username : Text) (w : ℕ)
    → (begin to_lowercase m now addr username).0 ≡ err w
    → (maximum (waits now (prune now m) (keys to_lowercase addr username)) ≡ some w)
      × ((begin to_lowercase m now addr username).1 ≡ prune now m)
unfolding begin
begin-refuses to_lowercase m now addr username w h = ground arith

abbrev pub NotAfter : ℕ → Option Entry → Type 0
NotAfter now none = Unit
NotAfter now (some e) = e.last_seen ≤ now

Covered-IsFree :
    (now w : ℕ) (o : Option Entry) → NotAfter now o → Covered now w o → IsFree (now + w) o
Covered-IsFree now w none n c = tt
Covered-IsFree now w (some e) n c = omega arith

keep_if-NotAfter :
    (now : ℕ) (o : Option Entry) → NotAfter now o → NotAfter now (keep_if (is_recent now) o)
keep_if-NotAfter now none n = tt
keep_if-NotAfter now (some e) n = ground arith

NotAfter-prune :
    (now : ℕ) (k : Key) (m : LoginThrottle)
    → Distinct m
    → NotAfter now (lookup k m)
    → NotAfter now (lookup k (prune now m))
NotAfter-prune now k m d n = elim (Bool-cases (ltb prune_threshold (length m))) [
  | inl e ↦ rw (lookup-prune now k m d, e) (keep_if-NotAfter now (lookup k m) n)
  | inr e ↦ rw (lookup-prune now k m d, e) n
]

All-IsFree :
    (now w : ℕ) (m : LoginThrottle) (ks : List Key)
    → ((k : Key) → NotAfter now (lookup k m))
    → All (λ k. Covered now w (lookup k m)) ks
    → All (λ k. IsFree (now + w) (lookup k m)) ks
All-IsFree now w m [] n c = tt
All-IsFree now w m (k ∷ ks) n c =
    (Covered-IsFree now w (lookup k m) (n k) c.0, All-IsFree now w m ks n c.1)

-- A client that is refused and comes back after exactly the wait that it was told is admitted, if its keys
-- were not touched in between and no entry is stamped later than the first call.
pub retry_admitted :
    (to_lowercase : Text → Text) (m : LoginThrottle) (now : ℕ) (addr : Option IpAddr)
    (username : Text) (w : ℕ)
    → Distinct m
    → ((k : Key) → NotAfter now (lookup k m))
    → (begin to_lowercase m now addr username).0 ≡ err w
    → IsAdmitted to_lowercase (begin to_lowercase m now addr username).1 (now + w) addr username
retry_admitted to_lowercase m now addr username w d past h =
    let (longest, left) = begin-refuses to_lowercase m now addr username w h in
    let ks : List Key = keys to_lowercase addr username in
    let p : LoginThrottle = prune now m in
    rw left (
      (begin-ok_iff to_lowercase p (now + w) addr username (prune-Distinct now m d)).1 (
        All-IsFree now w p ks (λ k. NotAfter-prune now k m d (past k))
          (waits-Covered now w p ks (maximum-le (waits now p ks) w longest))))

All-contains {ℓ} :
    (P : Key → Type ℓ) (k : Key) (ks : List Key) → All P ks → contains k ks ≡ true → P k
All-contains P k [] a h = cc
All-contains P k (j ∷ ks) a h = elim (Bool-cases (j == k)) [
  | inl e ↦ subst P ((key_beq_iff j k).0 e) a.0
  | inr e ↦ All-contains P k ks a.1 (ground arith)
]

lookup-prune_recent :
    (now : ℕ) (k : Key) (m : LoginThrottle) (e : Entry)
    → Distinct m
    → lookup k m ≡ some e
    → now - e.last_seen < entry_ttl
    → lookup k (prune now m) ≡ some e
unfolding is_recent
lookup-prune_recent now k m e d found recent = ground (arith, lookup-prune now k m d)

reserve_entry-le :
    (now : ℕ) (e : Entry)
    → e.failures + e.in_flight ≤ free_attempts
    → (reserve_entry now e).failures + (reserve_entry now e).in_flight ≤ free_attempts + 1
unfolding reserve_entry
reserve_entry-le now e h = ground arith

-- Within a second of its last attempt a key is admitted only while it has at most three failures and reservations, so a burst of concurrent
-- attempts on one key reserves four at most.
pub burst_limited :
    (to_lowercase : Text → Text) (m : LoginThrottle) (now : ℕ) (addr : Option IpAddr)
    (username : Text) (a : LoginAttempt) (k : Key) (e : Entry)
    → Distinct m
    → (begin to_lowercase m now addr username).0 ≡ ok a
    → contains k a.keys ≡ true
    → lookup k m ≡ some e
    → now - e.last_seen < base_delay
    → (e.failures + e.in_flight ≤ free_attempts)
      × (lookup k (begin to_lowercase m now addr username).1 ≡ some (reserve_entry now e))
      × ((reserve_entry now e).failures + (reserve_entry now e).in_flight ≤ free_attempts + 1)
burst_limited to_lowercase m now addr username a k e d admitted own found recent =
    let (same, left) = begin-reserves to_lowercase m now addr username a admitted in
    let ks : List Key = keys to_lowercase addr username in
    let mine : contains k ks ≡ true = cc in
    let free : IsFree now (lookup k m) =
      All-contains (λ j. IsFree now (lookup j m)) k ks
        ((begin-ok_iff to_lowercase m now addr username d).0 (cc)) mine in
    let over : penalty e ≤ now - e.last_seen = rw found at free in
    let short : e.failures + e.in_flight ≤ free_attempts = penalty_short e (omega (arith, over)) in
    let kept : lookup k (prune now m) ≡ some e =
      lookup-prune_recent now k m e d found (omega arith) in
    (
      short,
      rw
          (
            left,
            lookup-for_keys (reserve_key now) (reserved now) (reserve_key-Acts now) k ks
                (prune now m) (keys-NoRepeat to_lowercase addr username),
            mine,
            kept,
          )
          refl,
      reserve_entry-le now e (omega arith),
    )
