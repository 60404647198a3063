-- ===== src/RemoteAccess/Capacities.antt =====
-- What remote_access.rs makes of a capacity that is set or left open.
use azad_server_box.Prelude.{ℕ, zero, suc, ◌≤◌, ◌≡◌, Bool, Option, none, some, Text, arith}
use azad_server_box.FsRoots.{FilePath}
use azad_server_box.RemoteAccess.{
  RemoteAccessConfig, resolve, resolve_terminal, resolve_fs, derived_scrollback, derived_slots,
  derived_write_bytes, min_scrollback, max_scrollback, min_slots, max_slots, min_write_bytes,
  max_write_bytes, positive_or,
}

-- A capacity is the one that is set to a positive number; where none is, or 0, it lies within the bounds.
abbrev pub IsCapacity : ℕ → ℕ → Option ℕ → ℕ → Type 0
IsCapacity low high none n = (low ≤ n) × (n ≤ high)
IsCapacity low high (some zero) n = (low ≤ n) × (n ≤ high)
IsCapacity low high (some (suc m)) n = n ≡ suc m

positive_or-IsCapacity :
    (low high d : ℕ) (o : Option ℕ) → low ≤ d → d ≤ high → IsCapacity low high o (positive_or d o)
positive_or-IsCapacity low high d none h k = (h, k)
positive_or-IsCapacity low high d (some zero) h k = (h, k)
positive_or-IsCapacity low high d (some (suc m)) h k = ground arith

-- Whatever memory is reported, each resolved capacity is the configured one where that is positive, and otherwise within the
-- bounds of the file: 2 to 16 sessions, 64 KiB to 2 MiB of scrollback, 64 MiB to 4 GiB for one write.
pub resolve-IsCapacity :
    (linux : Bool) (env : Option Text) (canonicalize : Text → Option FilePath)
    (c : RemoteAccessConfig) (memory : Option ℕ)
    → let r = resolve linux env canonicalize c memory in
      IsCapacity min_slots max_slots c.terminal.max_sessions r.terminal.max_sessions
      × IsCapacity min_scrollback max_scrollback c.terminal.scrollback_bytes
          r.terminal.scrollback_bytes
      × IsCapacity min_write_bytes max_write_bytes c.fs.max_write_bytes r.fs.max_write_bytes
unfolding resolve resolve_terminal resolve_fs derived_scrollback derived_slots derived_write_bytes
resolve-IsCapacity linux env canonicalize c memory = (
  positive_or-IsCapacity min_slots max_slots _ c.terminal.max_sessions (omega arith) (omega arith),
  positive_or-IsCapacity min_scrollback max_scrollback _ c.terminal.scrollback_bytes (omega arith)
      (omega arith),
  positive_or-IsCapacity min_write_bytes max_write_bytes _ c.fs.max_write_bytes (omega arith)
      (omega arith),
)
