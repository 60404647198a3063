-- ===== src/RemoteAccess/Grants.antt =====
-- Which endpoints remote_access.rs opens, and what it says of that at startup.
use azad_server_box.Prelude.{
  ℕ, ◌≡◌, ◌≢◌, ◌↔◌, ◌⊎◌, refl, ◌∙◌, Bool, true, false, ◌&&◌, ◌||◌, Option, none, some, List, [],
  ◌∷◌, Text, arith, any,
}
use azad_server_box.FsRoots.{FilePath}
use azad_server_box.RemoteAccess.{
  RemoteAccessConfig, RemoteAccess, resolve, resolve_terminal, resolve_fs, resolve_full_access,
  full_access_from_env, full_access_available, terminal_available, any_enabled, fs_available,
  notice_table, log_summary, select, Notice, access_without_ssh, default_config, summary,
}

-- What grants access without SSH: the environment, else the file, else the platform; never against the file.
abbrev pub IsGranted : Bool → Option Bool → Option Bool → Type 0
IsGranted linux configured from_env =
    (configured ≢ some false)
    × ((from_env ≡ some true)
        ⊎ ((from_env ≡ none) × ((configured ≡ some true) ⊎ ((configured ≡ none) × (linux ≡ true)))))

resolve_full_access-IsGranted :
    (linux : Bool) (configured from_env : Option Bool)
    → (resolve_full_access linux configured from_env ≡ true) ↔ IsGranted linux configured from_env
unfolding resolve_full_access
resolve_full_access-IsGranted linux none none = ground arith
resolve_full_access-IsGranted linux none (some b) = ground arith
resolve_full_access-IsGranted linux (some false) e = ground arith
resolve_full_access-IsGranted linux (some true) none = ground arith
resolve_full_access-IsGranted linux (some true) (some b) = ground arith

gate :
    {P : Type 0} (e t i g : Bool)
    → (g ≡ true) ↔ P
    → (((e && (t || i)) && g) ≡ true) ↔ ((e ≡ true) × ((t ≡ true) ⊎ (i ≡ true)) × P)
gate e t i g h = ground (arith, h)

module _ (linux : Bool) (env : Option Text) (canonicalize : Text → Option FilePath)
    (memory : Option ℕ) (c : RemoteAccessConfig) where
  -- Access without SSH is available exactly where the terminal is on, the transport counts as secure or plaintext is allowed,
  -- and access is granted: by the environment, or where that is silent by the file, or where both are by the platform,
  -- and never where the file denies it.
  pub full_access_available_iff :
      (tls : Bool)
      → (full_access_available (resolve linux env canonicalize c memory) tls ≡ true) ↔ (
          (c.terminal.enabled ≡ true)
          × ((tls ≡ true) ⊎ (c.terminal.allow_insecure ≡ true))
          × IsGranted linux c.full_access (full_access_from_env env))
  unfolding full_access_available resolve resolve_terminal terminal_available
  full_access_available_iff tls =
      gate c.terminal.enabled tls c.terminal.allow_insecure
        (resolve_full_access linux c.full_access (full_access_from_env env))
        (resolve_full_access-IsGranted linux c.full_access (full_access_from_env env))

-- An agent whose section is missing opens no endpoint and has nothing to report at startup, whatever the platform,
-- the environment and the memory.
pub default-closed :
    (linux : Bool) (env : Option Text) (canonicalize : Text → Option FilePath) (memory : Option ℕ)
    (tls : Bool)
    → let r = resolve linux env canonicalize default_config memory in
      (terminal_available r.terminal tls ≡ false)
      × (fs_available r.fs tls ≡ false)
      × (full_access_available r tls ≡ false)
      × (log_summary r tls ≡ [])
unfolding terminal_available fs_available full_access_available log_summary resolve resolve_terminal
    resolve_fs any_enabled
default-closed linux env canonicalize memory tls = (refl, refl, refl, refl)

abbrev is_access : Notice → Bool
is_access access_without_ssh = true
is_access _ = false

-- The warning that the panel's password is worth a shell.
abbrev pub warns_of_access : List Notice → Bool
warns_of_access notices = any is_access notices

any-select :
    (table : List (Bool × Notice))
    → any is_access (select table) ≡ any (λ row. row.0 && is_access row.1) table
any-select [] = refl
any-select ((true, n) ∷ rest) = ground (arith, any-select rest)
any-select ((false, n) ∷ rest) = any-select rest

notices-warns :
    (r : RemoteAccess) (tls : Bool)
    → warns_of_access (select (notice_table r tls)) ≡ (r.terminal.enabled && r.full_access)
unfolding notice_table summary
notices-warns r tls = any-select (notice_table r tls) ∙ ground arith

-- Startup warns of access without SSH exactly where a TLS connection can have it.
pub log_summary-warns :
    (r : RemoteAccess) (tls : Bool)
    → warns_of_access (log_summary r tls) ≡ full_access_available r true
unfolding log_summary full_access_available terminal_available any_enabled
log_summary-warns r tls = ground (arith, notices-warns r tls)
