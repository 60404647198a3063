-- ===== src/KnownHosts/Tests.antt =====
-- Inputs for known_hosts.rs: two calls that race for the same address with different keys, and the database fails
-- the last statement of one.
use azad_server_box.Prelude.{true, false, ◌≡◌, refl, List, [], ◌∷◌, some, All, Text, codes, text_eq}
use azad_server_box.Prelude.Map.{lookup, insert}
use azad_server_box.KnownHosts.{Connection, advance_nth}
use azad_server_box.KnownHosts.Pinning.{
  Schedule, run, open_all, Agrees, verdicts_true, never_repinned,
}

abbrev sshd : Text
sshd = codes "127.0.0.1:22"

abbrev race : List (Text × Text)
race = (sshd, codes "SHA256:a") ∷ (sshd, codes "SHA256:b") ∷ []

abbrev schedule : Schedule
schedule = (0, true) ∷ (1, true) ∷ (1, true) ∷ (0, true) ∷ (0, false) ∷ []

second_wins : lookup sshd (run schedule (open_all race) []).1 ≡ some (codes "SHA256:b")
unfolding advance_nth lookup insert
second_wins = refl

verdicts_true_example :
    let r = run schedule (open_all race) [] in
    All (λ (c : Connection). Agrees c.phase c.actual (lookup c.addr r.1)) r.0
verdicts_true_example = verdicts_true race schedule []

never_repinned_example :
    lookup sshd (run schedule (open_all race) (insert sshd (codes "SHA256:c") [])).1
    ≡ some (codes "SHA256:c")
unfolding lookup insert
never_repinned_example =
    never_repinned schedule (open_all race) (insert sshd (codes "SHA256:c") []) sshd
      (codes "SHA256:c") refl
