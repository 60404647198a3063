-- ===== src/Throttle/Reservations.antt =====
-- The throttle of monitor/src/api/ratelimit.rs under any interleaving of calls: attempts that have begun
-- and are not yet resolved stand in a list beside the map, and each call is one step.
use azad_server_box.Prelude.{
  ℕ, ◌+◌, ◌≤◌, ◌≡◌, refl, sym, ap, false, Option, none, some, Bool-cases, inl, inr, List, [], ◌∷◌,
  ◌++◌, arith, if◌then◌else◌, All, Text, ok, err, ◌==◌, subst, ltb, length,
}
use azad_server_box.Prelude.Map.{lookup, Distinct, keep_if, remove-Distinct, remove}
use azad_server_box.Throttle.{
  IpAddr, Key, key_eq, Entry, LoginThrottle, LoginAttempt, keys, prune, is_recent, prune_threshold,
  for_keys, reserve_key, reserve_entry, begin, record_failure, record_success, cancel, fail_key,
  release_key, finish_failure_at, release_reservation, clear, release_entry, fail_entry,
}
use azad_server_box.Throttle.Loops.{
  contains, NoRepeat, keys-NoRepeat, lookup-for_keys, reserve_key-Acts, reserved, released, failed,
  cleared, lookup-prune, prune-Distinct, for_keys-Distinct, reserve_key-Distinct, fail_key-Distinct,
  release_key-Distinct, fail_key-Acts, release_key-Acts, remove-Acts,
}
use azad_server_box.Throttle.Admission.{begin-reserves, begin-refuses}

pub record State : Type 0 where
  pub throttle : LoginThrottle
  pub outstanding : List LoginAttempt

module _ (to_lowercase : Text → Text) where
  -- One call. An attempt that is dropped unresolved is `cancels` too.
  pub data Step : State → State → Type 0 where
    begins :
        (s : State) (now : ℕ) (addr : Option IpAddr) (username : Text) (a : LoginAttempt)
        → (begin to_lowercase s.throttle now addr username).0 ≡ ok a
        → Step s (record {
          throttle = (begin to_lowercase s.throttle now addr username).1;
          outstanding = a ∷ s.outstanding;
        })
    refused :
        (s : State) (now : ℕ) (addr : Option IpAddr) (username : Text) (wait : ℕ)
        → (begin to_lowercase s.throttle now addr username).0 ≡ err wait
        → Step s (record s { throttle = (begin to_lowercase s.throttle now addr username).1 })
    fails :
        (s : State) (now : ℕ) (a : LoginAttempt) (before after : List LoginAttempt)
        → s.outstanding ≡ before ++ a ∷ after
        → Step s
            (record { throttle = record_failure s.throttle now a; outstanding = before ++ after })
    succeeds :
        (s : State) (a : LoginAttempt) (before after : List LoginAttempt)
        → s.outstanding ≡ before ++ a ∷ after
        → Step s (record { throttle = record_success s.throttle a; outstanding = before ++ after })
    cancels :
        (s : State) (a : LoginAttempt) (before after : List LoginAttempt)
        → s.outstanding ≡ before ++ a ∷ after
        → Step s (record { throttle = cancel s.throttle a; outstanding = before ++ after })

  pub data Reach (s : State) : State → Type 0 where
    here : Reach s s
    next : {t u : State} → Reach s t → Step t u → Reach s u

-- How many outstanding attempts hold a key.
abbrev pub holders : Key → List LoginAttempt → ℕ
holders k [] = 0
holders k (a ∷ rest) = (if contains k a.keys then 1 else 0) + holders k rest

holders-append :
    (k : Key) (xs ys : List LoginAttempt) → holders k (xs ++ ys) ≡ holders k xs + holders k ys
holders-append k [] ys = omega arith
holders-append k (x ∷ xs) ys = omega (arith, holders-append k xs ys)

abbrev pub IsHeld : ℕ → Option Entry → Type 0
IsHeld n none = Unit
IsHeld n (some e) = e.in_flight ≤ n

abbrev IsOpen : LoginAttempt → Type 0
IsOpen a = NoRepeat a.keys × (a.resolved ≡ false)

-- No key counts more attempts in flight than there are outstanding attempts that hold it.
pub record Inv (s : State) : Type 0 where
  pub distinct : Distinct s.throttle
  pub opened : All IsOpen s.outstanding
  pub held : (k : Key) → IsHeld (holders k s.outstanding) (lookup k s.throttle)

reserved-IsHeld : (now n : ℕ) (o : Option Entry) → IsHeld n o → IsHeld (1 + n) (reserved now o)
unfolding reserve_entry
reserved-IsHeld now n none h = ground arith
reserved-IsHeld now n (some e) h = ground arith

failed-IsHeld : (now n : ℕ) (o : Option Entry) → IsHeld (1 + n) o → IsHeld n (failed now o)
unfolding fail_entry
failed-IsHeld now n none h = ground arith
failed-IsHeld now n (some e) h = ground arith

released-IsHeld : (n : ℕ) (o : Option Entry) → IsHeld (1 + n) o → IsHeld n (released o)
unfolding release_entry
released-IsHeld n none h = ground arith
released-IsHeld n (some e) h = ground arith

prune-IsHeld :
    (now n : ℕ) (k : Key) (m : LoginThrottle)
    → Distinct m
    → IsHeld n (lookup k m)
    → IsHeld n (lookup k (prune now m))
prune-IsHeld now n k m d h = rw (lookup-prune now k m d) (kept (lookup k m) h)
  where
    kept :
        (o : Option Entry)
        → IsHeld n o
        → IsHeld n (if ltb prune_threshold (length m) then keep_if (is_recent now) o else o)
    kept none i = ground arith
    kept (some e) i = ground arith

-- A loop of per-key steps takes the reservations from `1` per held key (plus `n`) to `n`, or back.
lowers :
    (f : Key → LoginThrottle → LoginThrottle) (g : Option Entry → Option Entry)
    → ((k j : Key) (m : LoginThrottle)
        → lookup j (f k m) ≡ (if k == j then g (lookup k m) else lookup j m))
    → ((n : ℕ) (o : Option Entry) → IsHeld (1 + n) o → IsHeld n (g o))
    → (k : Key) (ks : List Key) (m : LoginThrottle) (n : ℕ) → NoRepeat ks
    → IsHeld ((if contains k ks then 1 else 0) + n) (lookup k m)
    → IsHeld n (lookup k (for_keys f ks m))
lowers f g acts low k ks m n d h = elim (Bool-cases (contains k ks)) [
  | inl e ↦ rw (lookup-for_keys f g acts k ks m d, e) (low n (lookup k m) (rw e at h))
  | inr e ↦
      rw (lookup-for_keys f g acts k ks m d, e)
        (subst (λ j. IsHeld j (lookup k m)) (let z : 0 + n ≡ n = omega arith in z) (rw e at h))
]

raises :
    (now : ℕ) (k : Key) (ks : List Key) (m : LoginThrottle) (n : ℕ)
    → NoRepeat ks
    → IsHeld n (lookup k m)
    → IsHeld ((if contains k ks then 1 else 0) + n) (lookup k (for_keys (reserve_key now) ks m))
raises now k ks m n d h = elim (Bool-cases (contains k ks)) [
  | inl e ↦
      rw (lookup-for_keys (reserve_key now) (reserved now) (reserve_key-Acts now) k ks m d, e)
        (reserved-IsHeld now n (lookup k m) h)
  | inr e ↦
      rw (lookup-for_keys (reserve_key now) (reserved now) (reserve_key-Acts now) k ks m d, e)
        (subst (λ j. IsHeld j (lookup k m)) (let z : n ≡ 0 + n = omega arith in z) h)
]

All-middle :
    (xs ys : List LoginAttempt) (a : LoginAttempt)
    → All IsOpen (xs ++ a ∷ ys)
    → IsOpen a × All IsOpen (xs ++ ys)
All-middle [] ys a h = h
All-middle (x ∷ xs) ys a h = let (open_a, rest) = All-middle xs ys a h.1 in (open_a, (h.0, rest))

-- Taking an attempt out by a loop that lowers its keys keeps the invariant.
resolve-Inv :
    (f : Key → LoginThrottle → LoginThrottle) (g : Option Entry → Option Entry)
    → ((k j : Key) (m : LoginThrottle)
        → lookup j (f k m) ≡ (if k == j then g (lookup k m) else lookup j m))
    → ((n : ℕ) (o : Option Entry) → IsHeld (1 + n) o → IsHeld n (g o))
    → ((k : Key) (m : LoginThrottle) → Distinct m → Distinct (f k m))
    → (s : State) (a : LoginAttempt) (before after : List LoginAttempt) (t : LoginThrottle)
    → s.outstanding ≡ before ++ a ∷ after
    → (a.resolved ≡ false → t ≡ for_keys f a.keys s.throttle)
    → Inv s
    → Inv (record { throttle = t; outstanding = before ++ after })
resolve-Inv f g acts low keep s a before after t split run v =
    let (open_a, rest) = All-middle before after a (subst (All IsOpen) split v.opened) in
    let same : t ≡ for_keys f a.keys s.throttle = run open_a.1 in
    record {
      distinct = subst Distinct (sym same) (for_keys-Distinct f keep a.keys s.throttle v.distinct);
      opened = rest;
      held = λ k.
          subst (λ m. IsHeld (holders k (before ++ after)) (lookup k m)) (sym same)
            (lowers f g acts low k a.keys s.throttle (holders k (before ++ after)) open_a.0
              (subst (λ n. IsHeld n (lookup k s.throttle)) (count k) (v.held k)));
    }
  where
    count :
        (k : Key)
        → holders k s.outstanding
          ≡ (if contains k a.keys then 1 else 0) + holders k (before ++ after)
    count k = omega (
      arith,
      ap (holders k) split,
      holders-append k before (a ∷ after),
      holders-append k before after,
    )

record_failure_lem :
    (m : LoginThrottle) (now : ℕ) (a : LoginAttempt)
    → record_failure m now a ≡ for_keys (fail_key now) a.keys m
unfolding record_failure finish_failure_at
record_failure_lem m now a = refl

record_success_lem :
    (m : LoginThrottle) (a : LoginAttempt) → record_success m a ≡ for_keys remove a.keys m
unfolding record_success clear
record_success_lem m a = refl

cancel_lem :
    (m : LoginThrottle) (a : LoginAttempt)
    → a.resolved ≡ false
    → cancel m a ≡ for_keys release_key a.keys m
unfolding cancel release_reservation
cancel_lem m a h = ground arith

cleared-IsHeld : (n : ℕ) (o : Option Entry) → IsHeld (1 + n) o → IsHeld n (cleared o)
cleared-IsHeld n o h = tt

Step-Inv : (to_lowercase : Text → Text) {s t : State} → Step to_lowercase s t → Inv s → Inv t
Step-Inv to_lowercase (begins s now addr username a admitted) v =
    let (same, left) = begin-reserves to_lowercase s.throttle now addr username a admitted in
    let ks : List Key = keys to_lowercase addr username in
    let once : NoRepeat ks = keys-NoRepeat to_lowercase addr username in
    let d : Distinct (prune now s.throttle) = prune-Distinct now s.throttle v.distinct in
    rw (left, same)
      (record {
        distinct =
            for_keys-Distinct (reserve_key now) (reserve_key-Distinct now) ks (prune now s.throttle)
              d;
        opened = ((once, refl), v.opened);
        held = λ k.
            raises now k ks (prune now s.throttle) (holders k s.outstanding) once
              (prune-IsHeld now (holders k s.outstanding) k s.throttle v.distinct (v.held k));
      })
Step-Inv to_lowercase (refused s now addr username wait waiting) v =
    let (longest, left) = begin-refuses to_lowercase s.throttle now addr username wait waiting in
    rw left (record {
      distinct = prune-Distinct now s.throttle v.distinct;
      opened = v.opened;
      held = λ k. prune-IsHeld now (holders k s.outstanding) k s.throttle v.distinct (v.held k);
    })
Step-Inv to_lowercase (fails s now a before after split) v =
    resolve-Inv (fail_key now) (failed now) (fail_key-Acts now) (failed-IsHeld now)
      (fail_key-Distinct now) s a before after _ split (λ _. record_failure_lem s.throttle now a) v
Step-Inv to_lowercase (succeeds s a before after split) v =
    resolve-Inv remove cleared remove-Acts cleared-IsHeld remove-Distinct s a before after _ split
      (λ _. record_success_lem s.throttle a) v
Step-Inv to_lowercase (cancels s a before after split) v =
    resolve-Inv release_key released release_key-Acts released-IsHeld release_key-Distinct s a
      before after _ split (cancel_lem s.throttle a) v

Reach-Inv : (to_lowercase : Text → Text) {s t : State} → Inv s → Reach to_lowercase s t → Inv t
Reach-Inv to_lowercase v here = v
Reach-Inv to_lowercase v (next r st) = Step-Inv to_lowercase st (Reach-Inv to_lowercase v r)

abbrev pub start : State
start = record { throttle = []; outstanding = [] }

start-Inv : Inv start
start-Inv = record { distinct = tt; opened = tt; held = λ k. unfold lookup in tt }

-- Whatever calls are made, in whatever order they are resolved, no key ever counts more attempts in flight than there are
-- unresolved attempts that hold it; so none is counted once all are resolved.
pub reservations_bounded :
    (to_lowercase : Text → Text) (s : State) (k : Key) (e : Entry)
    → Reach to_lowercase start s
    → lookup k s.throttle ≡ some e
    → e.in_flight ≤ holders k s.outstanding
reservations_bounded to_lowercase s k e r found =
    let all : Inv s = Reach-Inv to_lowercase start-Inv r in rw found at (all.held k)
