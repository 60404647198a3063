-- ===== src/RemoteAccess/Tests.antt =====
-- Inputs for remote_access.rs.
use azad_server_box.Prelude.{◌≡◌, ◌⊎◌, ◌↔◌, refl, true, false, Option, none, some, Text, codes}
use azad_server_box.FsRoots.{FilePath}
use azad_server_box.RemoteAccess.{
  RemoteAccessConfig, RemoteAccess, default_config, default_terminal, resolve,
  full_access_available, full_access_from_env, min_slots, max_slots, min_scrollback, max_scrollback,
  min_write_bytes, max_write_bytes,
}
use azad_server_box.RemoteAccess.Capacities.{IsCapacity, resolve-IsCapacity}
use azad_server_box.RemoteAccess.Grants.{IsGranted, full_access_available_iff}

abbrev nothing_there : Text → Option FilePath
nothing_there s = none

abbrev open_config : RemoteAccessConfig
open_config = record default_config {
  terminal = record default_terminal { enabled = true; max_sessions = some 1 };
  full_access = some true;
}

abbrev access : RemoteAccess
access = resolve true (some (codes " ON ")) nothing_there open_config none

switch_is_read : full_access_from_env (some (codes " ON ")) ≡ some true
unfolding full_access_from_env
switch_is_read = refl

resolve-IsCapacity_example :
    let r = access in
    IsCapacity min_slots max_slots (some 1) r.terminal.max_sessions
    × IsCapacity min_scrollback max_scrollback none r.terminal.scrollback_bytes
    × IsCapacity min_write_bytes max_write_bytes none r.fs.max_write_bytes
resolve-IsCapacity_example =
    resolve-IsCapacity true (some (codes " ON ")) nothing_there open_config none

full_access_available_iff_example : (full_access_available access true ≡ true) ↔ (
    (true ≡ true)
    × ((true ≡ true) ⊎ (false ≡ true))
    × IsGranted true (some true) (full_access_from_env (some (codes " ON "))))
full_access_available_iff_example =
    full_access_available_iff true (some (codes " ON ")) nothing_there none open_config true
