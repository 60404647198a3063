-- ===== src/Secrets/Tests.antt =====
-- The comparison of secrets at concrete texts.
use azad_server_box.Prelude.{◌≡◌, ◌↔◌, refl, true, false, codes, [], ◌∷◌}
use azad_server_box.Secrets.{hex, constant_time_eq, constant_time_eq_iff}

hex_run : hex (0 ∷ 171 ∷ 255 ∷ []) ≡ codes "00abff"
unfolding hex
hex_run = refl

compare_run : constant_time_eq (codes "00ab") (codes "00aa") ≡ false
unfolding constant_time_eq
compare_run = refl

constant_time_eq_iff_run :
    (constant_time_eq (codes "00ab") (codes "00aa") ≡ true) ↔ (codes "00ab" ≡ codes "00aa")
constant_time_eq_iff_run = constant_time_eq_iff (codes "00ab") (codes "00aa")
