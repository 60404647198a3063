-- ===== src/OsText/Tests.antt =====
-- Inputs for common.rs.
use azad_server_box.Prelude.{◌≡◌, refl, some, [], ◌∷◌, codes}
use azad_server_box.Prelude.Strings.{is_whitespace}
use azad_server_box.OsText.{parse_uptime, parse_os_id, parse_os_id_like, find_value}
use azad_server_box.OsText.Quoting.{find_value-assignment, assignment}

uptime_days :
    parse_uptime (codes "18:16:00 up 61 days, 18:16, 1 user") ≡ some (codes "61 days, 18:16")
unfolding parse_uptime
uptime_days = refl

uptime_minutes : parse_uptime (codes "up 34 min, 2 users") ≡ some (codes "34 min")
unfolding parse_uptime
uptime_minutes = refl

id_is_not_id_like : parse_os_id (codes "ID_LIKE=debian\nID=Ubuntu\n") ≡ some (codes "ubuntu")
unfolding parse_os_id
id_is_not_id_like = refl

id_like_is_a_list :
    parse_os_id_like (codes "ID_LIKE='rhel  fedora'") ≡ codes "rhel" ∷ codes "fedora" ∷ []
unfolding parse_os_id_like
id_like_is_a_list = refl

find_value-assignment_run :
    find_value (codes "ID") (assignment (codes "ID") (codes "de$k") ∷ codes "ID=other" ∷ [])
    ≡ some (codes "de$k")
unfolding is_whitespace
find_value-assignment_run =
    find_value-assignment 73 (codes "D") (codes "de$k") (codes "ID=other" ∷ []) refl
