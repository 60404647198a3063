-- ===== src/RemoteAccess.antt =====
-- monitor/src/core/remote_access.rs: the `[remote_access]` section, its runtime form with every
-- capacity resolved, and which endpoints that opens. Whether the target is Linux, the memory of the machine, the
-- environment and `canonicalize` are arguments. Numbers are below 2 ^ 64, and `usize` is 64 bits.
mod Tests
pub mod Capacities
pub mod Grants
use azad_server_box.Prelude.{
  ℕ, ◌/◌, ◌*◌, ◌<◌, min, max, Bool, true, false, not, ◌&&◌, ◌||◌, Option, none, some, List, [], ◌∷◌,
  ◌++◌, map, if◌then◌else◌, ltb, is_empty, any, Text, codes, ◌==◌, text_eq,
}
use azad_server_box.Prelude.Strings.{trim, to_ascii_lowercase}
use azad_server_box.FsRoots.{FilePath, FsRoots, resolve_roots, is_unrestricted}

abbrev pub default_ssh_addr : Text
default_ssh_addr = codes "127.0.0.1:22"

abbrev pub default_detached_timeout_secs : ℕ
default_detached_timeout_secs = 300

pub record TerminalConfig : Type 0 where
  pub enabled : Bool
  pub max_sessions : Option ℕ
  pub scrollback_bytes : Option ℕ
  pub detached_timeout_secs : ℕ
  pub allow_insecure : Bool

pub record FsConfig : Type 0 where
  pub enabled : Bool
  pub roots : List Text
  pub allow_insecure : Bool
  pub max_write_bytes : Option ℕ

pub record RemoteAccessConfig : Type 0 where
  pub ssh_addr : Text
  pub full_access : Option Bool
  pub terminal : TerminalConfig
  pub fs : FsConfig

abbrev pub default_terminal : TerminalConfig
default_terminal = record {
  enabled = false;
  max_sessions = none;
  scrollback_bytes = none;
  detached_timeout_secs = default_detached_timeout_secs;
  allow_insecure = false;
}

abbrev pub default_fs : FsConfig
default_fs = record { enabled = false; roots = []; allow_insecure = false; max_write_bytes = none }

abbrev pub default_config : RemoteAccessConfig
default_config = record {
  ssh_addr = default_ssh_addr;
  full_access = none;
  terminal = default_terminal;
  fs = default_fs;
}

pub record Terminal : Type 0 where
  pub enabled : Bool
  pub max_sessions : ℕ
  pub scrollback_bytes : ℕ
  pub detached_timeout : ℕ
  pub allow_insecure : Bool

pub record Fs : Type 0 where
  pub enabled : Bool
  pub roots : FsRoots
  pub allow_insecure : Bool
  pub max_write_bytes : ℕ

pub record RemoteAccess : Type 0 where
  pub ssh_addr : Text
  pub full_access : Bool
  pub terminal : Terminal
  pub fs : Fs

abbrev pub assumed_memory : ℕ
assumed_memory = 2 * 1024 * 1024 * 1024

abbrev pub min_scrollback : ℕ
min_scrollback = 64 * 1024

abbrev pub max_scrollback : ℕ
max_scrollback = 2 * 1024 * 1024

abbrev pub min_slots : ℕ
min_slots = 2

abbrev pub max_slots : ℕ
max_slots = 16

abbrev pub min_write_bytes : ℕ
min_write_bytes = 64 * 1024 * 1024

abbrev pub max_write_bytes : ℕ
max_write_bytes = 4 * 1024 * 1024 * 1024

-- `Ord::clamp`
abbrev clamp : ℕ → ℕ → ℕ → ℕ
clamp low high n = min high (max low n)

-- `filter(|&n| n > 0).unwrap_or(d)`
abbrev pub positive_or : ℕ → Option ℕ → ℕ
positive_or d none = d
positive_or d (some n) = if ltb 0 n then n else d

abbrev unwrap_or {ℓ} : {A : Type ℓ} → A → Option A → A
unwrap_or d none = d
unwrap_or d (some a) = a

-- `Option::or`
abbrev or_else {ℓ} : {A : Type ℓ} → Option A → Option A → Option A
or_else none b = b
or_else (some a) b = some a

-- The `match` on the trimmed, lowered text.
unfoldable pub parse_switch : Text → Option Bool
parse_switch s =
    if any (λ word. s == word) (codes "1" ∷ codes "true" ∷ codes "yes" ∷ codes "on" ∷ [])
    then some true
    else if any (λ word. s == word) (codes "0" ∷ codes "false" ∷ codes "no" ∷ codes "off" ∷ [])
    then some false
    else none

-- The argument is what the environment holds under `SBM_FULL_ACCESS`.
unfoldable pub full_access_from_env : Option Text → Option Bool
unfolding parse_switch trim to_ascii_lowercase
full_access_from_env none = none
full_access_from_env (some s) = parse_switch (to_ascii_lowercase (trim s))

-- `full_access_default` is whether the target is Linux.
unfoldable pub resolve_full_access : Bool → Option Bool → Option Bool → Bool
resolve_full_access full_access_default (some false) from_env = false
resolve_full_access full_access_default (some true) from_env =
    unwrap_or full_access_default (or_else from_env (some true))
resolve_full_access full_access_default none from_env =
    unwrap_or full_access_default (or_else from_env none)

unfoldable pub derived_scrollback : ℕ → ℕ
derived_scrollback mem = clamp min_scrollback max_scrollback (mem / 4096)

unfoldable pub derived_slots : ℕ → ℕ
derived_slots mem = clamp min_slots max_slots (mem / (1024 * 1024 * 1024))

unfoldable pub derived_write_bytes : ℕ → ℕ
derived_write_bytes mem = clamp min_write_bytes max_write_bytes (mem / 4)

unfoldable pub resolve_terminal : TerminalConfig → ℕ → Terminal
unfolding derived_scrollback derived_slots
resolve_terminal terminal mem = record {
  enabled = terminal.enabled;
  max_sessions = positive_or (derived_slots mem) terminal.max_sessions;
  scrollback_bytes = positive_or (derived_scrollback mem) terminal.scrollback_bytes;
  detached_timeout = terminal.detached_timeout_secs;
  allow_insecure = terminal.allow_insecure;
}

module _ (linux : Bool) (env : Option Text) (canonicalize : Text → Option FilePath) where
  unfoldable pub resolve_fs : FsConfig → ℕ → Fs
  unfolding derived_write_bytes resolve_roots
  resolve_fs fs mem = record {
    enabled = fs.enabled;
    roots = record { roots = resolve_roots canonicalize fs.roots };
    allow_insecure = fs.allow_insecure;
    max_write_bytes = positive_or (derived_write_bytes mem) fs.max_write_bytes;
  }

  unfoldable pub resolve : RemoteAccessConfig → Option ℕ → RemoteAccess
  unfolding resolve_terminal resolve_fs resolve_full_access full_access_from_env
  resolve config total_memory = record {
    ssh_addr = config.ssh_addr;
    full_access = resolve_full_access linux config.full_access (full_access_from_env env);
    terminal = resolve_terminal config.terminal (unwrap_or assumed_memory total_memory);
    fs = resolve_fs config.fs (unwrap_or assumed_memory total_memory);
  }

unfoldable pub terminal_available : Terminal → Bool → Bool
terminal_available terminal tls_active = terminal.enabled && (tls_active || terminal.allow_insecure)

unfoldable pub fs_available : Fs → Bool → Bool
fs_available fs secure =
    fs.enabled && not (is_empty fs.roots.roots) && (secure || fs.allow_insecure)

unfoldable pub any_enabled : RemoteAccess → Bool
any_enabled r = r.terminal.enabled || (r.fs.enabled && not (is_empty r.fs.roots.roots))

unfoldable pub full_access_available : RemoteAccess → Bool → Bool
unfolding terminal_available
full_access_available r tls_active = terminal_available r.terminal tls_active && r.full_access

-- What `log_summary` writes at startup, in the order it writes it.
pub data Notice : Type 0 where
  remote_access :
      (terminal : Bool) (max_sessions scrollback_kib detached_secs : ℕ) (full_access : Bool)
      (target : Text)
      → Notice
  file_api : (roots : List FilePath) (max_write_mib : ℕ) → Notice
  access_without_ssh roots_unusable whole_filesystem : Notice
  terminal_plaintext terminal_loopback_only fs_loopback_only fs_plaintext : Notice

-- The notices whose test holds.
abbrev pub select : List (Bool × Notice) → List Notice
select [] = []
select ((true, n) ∷ rest) = n ∷ select rest
select ((false, n) ∷ rest) = select rest

unfoldable pub summary : RemoteAccess → Notice
summary r =
    remote_access r.terminal.enabled r.terminal.max_sessions (r.terminal.scrollback_bytes / 1024)
      r.terminal.detached_timeout r.full_access r.ssh_addr

unfoldable pub has_roots : Fs → Bool
has_roots fs = fs.enabled && not (is_empty fs.roots.roots)

unfoldable pub notice_table : RemoteAccess → Bool → List (Bool × Notice)
unfolding summary fs_available has_roots is_unrestricted
notice_table r tls_active =
    (true, summary r)
    ∷ (
      fs_available r.fs tls_active,
      file_api r.fs.roots.roots (r.fs.max_write_bytes / (1024 * 1024)),
    )
    ∷ (r.terminal.enabled && r.full_access, access_without_ssh)
    ∷ (r.fs.enabled && is_empty r.fs.roots.roots, roots_unusable)
    ∷ (has_roots r.fs && is_unrestricted r.fs.roots, whole_filesystem)
    ∷ (r.terminal.enabled && not tls_active && r.terminal.allow_insecure, terminal_plaintext)
    ∷ (
      r.terminal.enabled && not tls_active && not r.terminal.allow_insecure,
      terminal_loopback_only,
    )
    ∷ (has_roots r.fs && not tls_active && not r.fs.allow_insecure, fs_loopback_only)
    ∷ (has_roots r.fs && r.fs.allow_insecure, fs_plaintext)
    ∷ []

unfoldable pub log_summary : RemoteAccess → Bool → List Notice
unfolding any_enabled notice_table
log_summary r tls_active = if not (any_enabled r) then [] else select (notice_table r tls_active)
