-- ===== src/PushLimiter/Tests.antt =====
-- Inputs for the limiter of push.rs.
use azad_server_box.Prelude.{ℕ, ◌≤◌, ◌≡◌, refl, List, [], ◌∷◌, codes, text_eq, ◌==◌}
use azad_server_box.Prelude.Map.{lookup, insert}
use azad_server_box.PushLimiter.{push_all}
use azad_server_box.PushLimiter.Window.{count_recent}
use azad_server_box.PushLimiter.Rate.{Alert, run_alerts, start, times_of, rate_limited}

abbrev alert : ℕ → Alert
alert gap = record {
  gap = gap;
  send = λ name. (name == codes "bark", 1);
  names = codes "bark" ∷ codes "ios" ∷ [];
}

-- The fourth alert comes when the first has left the window of 60.
abbrev alerts : List Alert
alerts = alert 0 ∷ alert 10 ∷ alert 10 ∷ alert 45 ∷ []

pushed : times_of (codes "bark") (run_alerts 2 60 start alerts).log ≡ 1 ∷ 13 ∷ 71 ∷ []
unfolding push_all lookup insert
pushed = refl

failed_pushes_count_nothing : times_of (codes "ios") (run_alerts 2 60 start alerts).log ≡ []
unfolding push_all lookup insert
failed_pushes_count_nothing = refl

rate_limited_example :
    let last = run_alerts 2 60 start alerts in
    count_recent 60 last.now (times_of (codes "bark") last.log) ≤ 2
rate_limited_example = rate_limited 2 60 alerts (codes "bark")
