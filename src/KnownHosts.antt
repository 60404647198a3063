-- ===== src/KnownHosts.antt =====
-- monitor/src/ssh/known_hosts.rs: the record of host keys, trusted on first use. `verify` is a sequence of SQL statements, each
-- atomic; between two of them other connections run. A key is its fingerprint; the type that is stored beside it is never read.
mod Tests
pub mod Pinning
use azad_server_box.Prelude.{
  ℕ, Bool, true, false, Option, none, some, List, [], ◌∷◌, if◌then◌else◌, Text, text_eq, ◌==◌,
  nat_beq, zero, suc,
}
use azad_server_box.Prelude.Map.{Map, lookup, insert}

pub data Verdict : Type 0 where
  known pinned : Verdict
  mismatch : (expected actual : Text) → Verdict

-- The rows of `ssh_known_hosts`, which `addr` keys.
abbrev pub KnownHosts : Type 0
KnownHosts = Map Text Text

-- `INSERT OR IGNORE`, with the number of rows it affects: no row that is there is touched.
unfoldable pub insert_or_ignore : Text → Text → KnownHosts → ℕ × KnownHosts
insert_or_ignore addr fingerprint hosts = elim (lookup addr hosts) [
  | none ↦ (1, insert addr fingerprint hosts)
  | some _ ↦ (0, hosts)
]

abbrev pub compare_key : Text → Text → Verdict
compare_key expected actual = if expected == actual then known else mismatch expected actual

-- Where a call of `verify` stands: before its first statement, before the insertion of `pin_or_compare`, before its last
-- statement, or at its end. `fetch_one` on no row is an error, and a statement that fails is another.
pub data Phase : Type 0 where
  checking pinning comparing : Phase
  returned : Verdict → Phase
  no_row sql_error : Phase

pub record Connection : Type 0 where
  pub addr : Text
  pub actual : Text
  pub phase : Phase

-- The first statement of `verify` and the match on it.
unfoldable pub check_existing : Connection → KnownHosts → Phase
check_existing c hosts = elim (lookup c.addr hosts) [
  | some expected ↦ returned (compare_key expected c.actual)
  | none ↦ pinning
]

-- The last statement of `pin_or_compare`.
unfoldable pub compare_winner : Connection → KnownHosts → Phase
compare_winner c hosts = elim (lookup c.addr hosts) [
  | some expected ↦ returned (compare_key expected c.actual)
  | none ↦ no_row
]

unfoldable pub pin : Connection → KnownHosts → Phase × KnownHosts
unfolding insert_or_ignore
pin c hosts =
    let (rows_affected, after) = insert_or_ignore c.addr c.actual hosts in
    (if nat_beq rows_affected 1 then returned pinned else comparing, after)

-- The next statement of a call, which the database answers or which fails and changes nothing.
unfoldable pub advance : Bool → Phase → Connection → KnownHosts → Phase × KnownHosts
unfolding check_existing compare_winner pin
advance answered (returned v) c hosts = (returned v, hosts)
advance answered no_row c hosts = (no_row, hosts)
advance answered sql_error c hosts = (sql_error, hosts)
advance true checking c hosts = (check_existing c hosts, hosts)
advance true pinning c hosts = pin c hosts
advance true comparing c hosts = (compare_winner c hosts, hosts)
advance false checking c hosts = (sql_error, hosts)
advance false pinning c hosts = (sql_error, hosts)
advance false comparing c hosts = (sql_error, hosts)

-- The nth connection runs its next statement.
unfoldable pub advance_nth : Bool → ℕ → List Connection → KnownHosts → List Connection × KnownHosts
unfolding advance
advance_nth answered n [] hosts = ([], hosts)
advance_nth answered zero (c ∷ cs) hosts =
    let (phase, after) = advance answered c.phase c hosts in
    (record c { phase = phase } ∷ cs, after)
advance_nth answered (suc n) (c ∷ cs) hosts =
    let (rest, after) = advance_nth answered n cs hosts in (c ∷ rest, after)
