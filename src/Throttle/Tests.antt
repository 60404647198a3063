-- ===== src/Throttle/Tests.antt =====
-- Runs of the login throttle, and the theorems about it at concrete inputs.
use azad_server_box.Prelude.{
  ℕ, ◌+◌, ◌≤◌, ◌≡◌, ◌↔◌, refl, Option, none, some, [], ◌∷◌, arith, All, Text, codes, ok, err,
}
use azad_server_box.Prelude.Map.{lookup, Distinct, insert}
use azad_server_box.Throttle.{
  key_eq, IpAddr, v4, Key, user, Entry, LoginThrottle, keys, begin, penalty, from_secs,
  reserve_entry, free_attempts,
}
use azad_server_box.Throttle.Penalty.{schedule, penalty-schedule}
use azad_server_box.Throttle.Admission.{
  attempt, IsAdmitted, IsFree, begin-ok_iff, retry_admitted, burst_limited, NotAfter,
}
use azad_server_box.Throttle.Reservations.{
  State, start, begins, here, next, holders, reservations_bounded,
}

abbrev lower : Text → Text
lower s = s

abbrev admin : Text
admin = codes "admin"

abbrev guessed : Entry
guessed = record { failures = 5; in_flight = 0; last_seen = from_secs 100 }

abbrev typos : Entry
typos = record { failures = 2; in_flight = 1; last_seen = from_secs 100 }

abbrev blocked : LoginThrottle
blocked = (user admin, guessed) ∷ []

abbrev fresh : LoginThrottle
fresh = (user admin, typos) ∷ []

abbrev half_later : ℕ
half_later = from_secs 100 + 500_000_000

abbrev peer : Option IpAddr
peer = some (v4 3232235521)

penalty_run : penalty guessed ≡ from_secs 2
unfolding penalty
penalty_run = refl

blocked-Distinct : Distinct blocked
unfolding lookup
blocked-Distinct = (refl, tt)

fresh-Distinct : Distinct fresh
unfolding lookup
fresh-Distinct = (refl, tt)

blocked_run : (begin lower blocked half_later none admin).0 ≡ err 1_500_000_000
unfolding begin lookup
blocked_run = refl

fresh_run :
    (begin lower fresh half_later none admin).0 ≡ ok (attempt lower fresh half_later none admin)
unfolding begin lookup
fresh_run = refl

penalty-schedule_run : penalty guessed ≡ schedule 5
penalty-schedule_run = penalty-schedule guessed

begin-ok_iff_example :
    IsAdmitted lower fresh half_later none admin
    ↔ All (λ k. IsFree half_later (lookup k fresh)) (keys lower none admin)
begin-ok_iff_example = begin-ok_iff lower fresh half_later none admin fresh-Distinct

past : (k : Key) → NotAfter half_later (lookup k blocked)
unfolding lookup
past k = ground arith

retry_admitted_example :
    IsAdmitted lower
      (begin lower blocked half_later none admin).1
      (half_later + 1_500_000_000)
      none
      admin
retry_admitted_example =
    retry_admitted lower blocked half_later none admin 1_500_000_000 blocked-Distinct past
      blocked_run

fresh_found : lookup (user admin) fresh ≡ some typos
unfolding lookup
fresh_found = refl

burst_limited_run :
    (typos.failures + typos.in_flight ≤ free_attempts)
    × (lookup (user admin) (begin lower fresh half_later none admin).1
        ≡ some (reserve_entry half_later typos))
    × ((reserve_entry half_later typos).failures + (reserve_entry half_later typos).in_flight
        ≤ free_attempts + 1)
unfolding keys
burst_limited_run =
    burst_limited lower fresh half_later none admin (attempt lower fresh half_later none admin)
      (user admin) typos fresh-Distinct fresh_run refl fresh_found (omega arith)

abbrev reserving : State
reserving = record {
  throttle = (begin lower start.throttle half_later peer admin).1;
  outstanding = attempt lower start.throttle half_later peer admin ∷ [];
}

begun : (begin lower [] half_later peer admin).0 ≡ ok (attempt lower [] half_later peer admin)
unfolding begin lookup
begun = refl

abbrev one : Entry
one = record { failures = 0; in_flight = 1; last_seen = half_later }

reserving_found : lookup (user admin) reserving.throttle ≡ some one
unfolding begin lookup insert
reserving_found = refl

reservations_bounded_example : 1 ≤ holders (user admin) reserving.outstanding
reservations_bounded_example =
    reservations_bounded lower reserving (user admin) one
      (next here
        (begins start half_later peer admin (attempt lower [] half_later peer admin) begun))
      reserving_found
