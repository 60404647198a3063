-- ===== src/PushLimiter.antt =====
-- `PushRateLimiter` of monitor/src/monitoring/push.rs, and the loop of monitor/src/monitoring/rules.rs that asks it.
-- The lock makes each call atomic; the clock is an argument, and an instant a number.
mod Tests
pub mod Window
pub mod Rate
use azad_server_box.Prelude.{
  ℕ, ◌+◌, ◌-◌, Bool, true, false, Option, none, some, List, [], ◌∷◌, ◌++◌, ltb, length,
  if◌then◌else◌, Text, text_eq,
}
use azad_server_box.Prelude.Map.{Map, lookup, insert}

-- `records`: for each name the instants of its pushes, the oldest first.
abbrev pub PushRateLimiter : Type 0
PushRateLimiter = Map Text (List ℕ)

-- `entry(name).or_default()`
abbrev pub or_default : Option (List ℕ) → List ℕ
or_default none = []
or_default (some queue) = queue

-- The loop that pops the front while it is older than the window.
unfoldable pub pop_old : ℕ → ℕ → List ℕ → List ℕ
pop_old window now [] = []
pop_old window now (t ∷ queue) =
    let rest = pop_old window now queue in if ltb window (now - t) then rest else t ∷ queue

unfoldable pub check : PushRateLimiter → ℕ → Text → ℕ → ℕ → Bool × PushRateLimiter
unfolding pop_old
check records now name times window =
    let queue = pop_old window now (or_default (lookup name records)) in
    (ltb (length queue) times, insert name queue records)

unfoldable pub acquire : PushRateLimiter → ℕ → Text → PushRateLimiter
acquire records now name = insert name (or_default (lookup name records) ++ now ∷ []) records

-- One push of an alert: `sent` is whether `send_notification` succeeds, and `took` how long it takes. The answer is the push
-- with the instant it was recorded at, the time after it and the limiter.
unfoldable pub push_one :
    ℕ → ℕ → Bool → ℕ → PushRateLimiter → ℕ → Text → List (Text × ℕ) × ℕ × PushRateLimiter
unfolding check acquire
push_one times window sent took records now name =
    let (allowed, checked) = check records now name times window in
    if allowed
    then (if sent
        then ((name, now + took) ∷ [], now + took, acquire checked (now + took) name)
        else ([], now + took, checked))
    else ([], now, checked)

-- The loop over the configured pushes; `send` is how each of them goes.
unfoldable pub push_all :
    ℕ
    → ℕ
    → (Text → Bool × ℕ)
    → PushRateLimiter
    → ℕ
    → List Text
    → List (Text × ℕ) × ℕ × PushRateLimiter
unfolding push_one
push_all times window send records now [] = ([], now, records)
push_all times window send records now (name ∷ names) =
    let (pushed, later, next) =
      push_one times window (send name).0 (send name).1 records now name in
    let (others, end, last) = push_all times window send next later names in
    (pushed ++ others, end, last)
