-- ===== src/PushLimiter/Rate.antt =====
-- Runs of alerts against the limiter of push.rs.
use azad_server_box.Prelude.{
  ℕ, ◌+◌, ◌≤◌, ◌≡◌, refl, sym, ap, ◌∙◌, Bool, true, Bool-cases, inl, inr, List, [], ◌∷◌, ◌++◌, ltb,
  if◌then◌else◌, Text, text_eq, text_beq, text_beq_iff, ◌==◌, length, arith, subst,
}
use azad_server_box.Prelude.Map.{lookup, insert, lookup-insert}
use mathlib.Core.List.{append-nil, append_assoc}
use azad_server_box.PushLimiter.{
  PushRateLimiter, or_default, pop_old, check, acquire, push_one, push_all,
}
use azad_server_box.PushLimiter.Window.{
  count_recent, IsAscending, pop_old-later, pop_old-same_append, length-pop_old, count_recent-snoc,
  count_recent-later, IsAscending-snoc, IsAscending-later,
}

-- An alert some time after the one before it has been pushed: how each push goes, and the names of the pushes.
pub record Alert : Type 0 where
  pub gap : ℕ
  pub send : Text → Bool × ℕ
  pub names : List Text

pub record Run : Type 0 where
  pub now : ℕ
  pub records : PushRateLimiter
  pub log : List (Text × ℕ)

-- The instants of the pushes under a name.
abbrev pub times_of : Text → List (Text × ℕ) → List ℕ
times_of name [] = []
times_of name ((other, t) ∷ log) =
    let rest = times_of name log in if other == name then t ∷ rest else rest

abbrev pub run_alert : ℕ → ℕ → Run → Alert → Run
run_alert times window r a =
    let (pushed, now, records) = push_all times window a.send r.records (r.now + a.gap) a.names in
    record { now = now; records = records; log = r.log ++ pushed }

abbrev pub run_alerts : ℕ → ℕ → Run → List Alert → Run
run_alerts times window r [] = r
run_alerts times window r (a ∷ alerts) = run_alerts times window (run_alert times window r a) alerts

abbrev pub start : Run
start = record { now = 0; records = []; log = [] }

times_of-append :
    (name : Text) (a b : List (Text × ℕ))
    → times_of name (a ++ b) ≡ times_of name a ++ times_of name b
times_of-append name [] b = refl
times_of-append name ((other, t) ∷ a) b = ground (arith, times_of-append name a b)

module _ (times window : ℕ) where
  abbrev queue_of : PushRateLimiter → Text → List ℕ
  queue_of records name = or_default (lookup name records)

  -- The queue of a name stands for its history, which the limit bounds.
  record IsTracked (now : ℕ) (queue history : List ℕ) : Type 0 where
    same : pop_old window now queue ≡ pop_old window now history
    ascending : IsAscending now history
    limited : count_recent window now history ≤ times

  later-IsTracked :
      (now later : ℕ) (queue history : List ℕ)
      → now ≤ later
      → IsTracked now queue history
      → IsTracked later queue history
  later-IsTracked now later queue history h t = record {
    same =
        sym (pop_old-later window now later queue h)
        ∙ ap (pop_old window later) t.same
        ∙ pop_old-later window now later history h;
    ascending = IsAscending-later now later history h t.ascending;
    limited = omega (arith, t.limited, count_recent-later window now later history h);
  }

  popped-IsTracked :
      (now : ℕ) (queue history : List ℕ)
      → IsTracked now queue history
      → IsTracked now (pop_old window now queue) history
  popped-IsTracked now queue history t = record {
    same = pop_old-later window now now queue (omega arith) ∙ t.same;
    ascending = t.ascending;
    limited = t.limited;
  }

  allowed-count :
      (now : ℕ) (queue history : List ℕ)
      → IsTracked now queue history
      → length (pop_old window now queue) ≡ count_recent window now history
  allowed-count now queue history t =
      ap length t.same ∙ length-pop_old window now history t.ascending

  pushed-IsTracked :
      (now took : ℕ) (queue history : List ℕ)
      → IsTracked now queue history
      → ltb (length (pop_old window now queue)) times ≡ true
      → let later = now + took in
        IsTracked later (pop_old window now queue ++ later ∷ []) (history ++ later ∷ [])
  pushed-IsTracked now took queue history t allowed =
      let later = now + took in
      let u =
        later-IsTracked now later _ history (omega arith) (popped-IsTracked now queue history t) in
      record {
        same =
            pop_old-same_append window later (pop_old window now queue) history (later ∷ []) u.same;
        ascending = IsAscending-snoc later history u.ascending;
        limited = ground (
          arith,
          allowed,
          allowed-count now queue history t,
          count_recent-later window now later history (omega arith),
          count_recent-snoc window later later history,
        );
      }

  IsTracking : ℕ → PushRateLimiter → List (Text × ℕ) → Type 0
  IsTracking now records log = (k : Text) → IsTracked now (queue_of records k) (times_of k log)

  queue_of-insert :
      (name k : Text) (queue : List ℕ) (records : PushRateLimiter)
      → queue_of (insert name queue records) k ≡ (if name == k then queue else queue_of records k)
  queue_of-insert name k queue records =
      ap or_default (lookup-insert name k queue records) ∙ ground arith

  checked-IsTracking :
      (now : ℕ) (records : PushRateLimiter) (log : List (Text × ℕ)) (name : Text)
      → IsTracking now records log
      → IsTracking now (insert name (pop_old window now (queue_of records name)) records) log
  unfolding IsTracking
  checked-IsTracking now records log name h k = elim (Bool-cases (text_beq name k)) [
    | inl e ↦
        subst (λ q. IsTracked now q (times_of k log))
          (sym (queue_of-insert name k _ records ∙ rw (e, (text_beq_iff name k).0 e) refl))
          (popped-IsTracked now (queue_of records k) (times_of k log) (h k))
    | inr e ↦
        subst (λ q. IsTracked now q (times_of k log))
          (sym (queue_of-insert name k _ records ∙ rw e refl)) (h k)
  ]

  text_beq_self : (k : Text) → text_beq k k ≡ true
  text_beq_self k = (text_beq_iff k k).1 refl

  -- The queues after `check` and `acquire`, one behind the other.
  acquired_queue : ℕ → ℕ → Text → PushRateLimiter → PushRateLimiter
  acquired_queue now later name records =
      acquire (insert name (pop_old window now (queue_of records name)) records) later name

  queue_of-acquired :
      (now later : ℕ) (name k : Text) (records : PushRateLimiter)
      → queue_of (acquired_queue now later name records) k ≡ (
          if name == k
          then pop_old window now (queue_of records name) ++ later ∷ []
          else queue_of records k)
  unfolding acquired_queue acquire
  queue_of-acquired now later name k records =
      let popped = pop_old window now (queue_of records name) in
      let own : queue_of (insert name popped records) name ≡ popped =
        queue_of-insert name name popped records ∙ rw (text_beq_self name) refl in
      queue_of-insert name k _ (insert name popped records) ∙ elim (Bool-cases (text_beq name k)) [
        | inl e ↦ rw (e, own) refl
        | inr e ↦ rw e (queue_of-insert name k popped records ∙ rw e refl)
      ]

  acquired-IsTracking :
      (now took : ℕ) (records : PushRateLimiter) (log : List (Text × ℕ)) (name : Text)
      → ltb (length (pop_old window now (queue_of records name))) times ≡ true
      → IsTracking now records log
      → IsTracking
          (now + took)
          (acquired_queue now (now + took) name records)
          (log ++ (name, now + took) ∷ [])
  unfolding IsTracking
  acquired-IsTracking now took records log name allowed h k = elim (Bool-cases (text_beq name k)) [
    | inl e ↦
        let later = now + took in
        let same = (text_beq_iff name k).0 e in
        let queue : queue_of (acquired_queue now later name records) k
            ≡ pop_old window now (queue_of records k) ++ later ∷ [] =
          queue_of-acquired now later name k records ∙ rw (e, same) refl in
        let history : times_of k (log ++ (name, later) ∷ []) ≡ times_of k log ++ later ∷ [] =
          times_of-append k log ((name, later) ∷ []) ∙ rw e refl in
        let own : ltb (length (pop_old window now (queue_of records k))) times ≡ true =
          subst (λ n. ltb (length (pop_old window now (queue_of records n))) times ≡ true) same
            allowed in
        rw (queue, history)
          (pushed-IsTracked now took (queue_of records k) (times_of k log) (h k) own)
    | inr e ↦
        let later = now + took in
        let queue : queue_of (acquired_queue now later name records) k ≡ queue_of records k =
          queue_of-acquired now later name k records ∙ rw e refl in
        let history : times_of k (log ++ (name, later) ∷ []) ≡ times_of k log =
          times_of-append k log ((name, later) ∷ []) ∙ rw e (append-nil (times_of k log)) in
        rw (queue, history) (later-IsTracked now later _ _ (omega arith) (h k))
  ]

  later-IsTracking :
      (now gap : ℕ) (records : PushRateLimiter) (log : List (Text × ℕ))
      → IsTracking now records log
      → IsTracking (now + gap) records log
  unfolding IsTracking
  later-IsTracking now gap records log h =
      λ k. later-IsTracked now (now + gap) _ _ (omega arith) (h k)

  push_one-IsTracking :
      (sent : Bool) (took now : ℕ) (records : PushRateLimiter) (log : List (Text × ℕ)) (name : Text)
      → IsTracking now records log
      → let r = push_one times window sent took records now name in IsTracking r.1 r.2 (log ++ r.0)
  unfolding push_one check acquired_queue
  push_one-IsTracking sent took now records log name h =
      let kept = checked-IsTracking now records log name h in
      let silent = subst (IsTracking now _) (sym (append-nil log)) kept in
      elim (Bool-cases (ltb (length (pop_old window now (queue_of records name))) times)) [
        | inr e ↦ rw e silent
        | inl e ↦ elim (Bool-cases sent) [
          | inl s ↦ rw (e, s) (acquired-IsTracking now took records log name e h)
          | inr s ↦ rw (e, s) (later-IsTracking now took _ _ silent)
        ]
      ]

  push_all-IsTracking :
      (send : Text → Bool × ℕ) (now : ℕ) (records : PushRateLimiter) (log : List (Text × ℕ))
      (names : List Text)
      → IsTracking now records log
      → let r = push_all times window send records now names in IsTracking r.1 r.2 (log ++ r.0)
  unfolding push_all
  push_all-IsTracking send now records log [] h =
      subst (IsTracking now records) (sym (append-nil log)) h
  push_all-IsTracking send now records log (name ∷ names) h =
      let one = push_one times window (send name).0 (send name).1 records now name in
      let rest = push_all times window send one.2 one.1 names in
      subst (IsTracking rest.1 rest.2) (append_assoc log one.0 rest.0) (
        push_all-IsTracking send one.1 one.2 (log ++ one.0) names
          (push_one-IsTracking (send name).0 (send name).1 now records log name h))

  run_alerts-IsTracking :
      (r : Run) (alerts : List Alert)
      → IsTracking r.now r.records r.log
      → let last = run_alerts times window r alerts in IsTracking last.now last.records last.log
  run_alerts-IsTracking r [] h = h
  run_alerts-IsTracking r (a ∷ alerts) h =
      run_alerts-IsTracking (run_alert times window r a) alerts (
        push_all-IsTracking a.send (r.now + a.gap) r.records r.log a.names
          (later-IsTracking r.now a.gap r.records r.log h))

  start-IsTracking : IsTracking 0 [] []
  unfolding IsTracking lookup
  start-IsTracking k = record { same = refl; ascending = tt; limited = omega arith }

-- Whatever alerts come, whenever they come and whichever pushes succeed, no name is pushed more than `times` times within
-- any window that ends with the last alert.
pub rate_limited :
    (times window : ℕ) (alerts : List Alert) (name : Text)
    → let last = run_alerts times window start alerts in
      count_recent window last.now (times_of name last.log) ≤ times
unfolding IsTracking
rate_limited times window alerts name =
    IsTracked.limited
      (run_alerts-IsTracking times window start alerts (start-IsTracking times window) name)

-- After any alerts the limiter allows a push of a name exactly when fewer than `times` of that name were sent within the window
-- that ends now.
pub check_exact :
    (times window : ℕ) (alerts : List Alert) (name : Text)
    → let last = run_alerts times window start alerts in
      (check last.records last.now name times window).0
      ≡ ltb (count_recent window last.now (times_of name last.log)) times
unfolding IsTracking check
check_exact times window alerts name =
    let last = run_alerts times window start alerts in
    let tracked =
      run_alerts-IsTracking times window start alerts (start-IsTracking times window) name in
    ap (λ n. ltb n times) (allowed-count times window last.now _ _ tracked)
