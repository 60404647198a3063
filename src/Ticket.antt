-- ===== src/Ticket.antt =====
-- monitor/src/api/ws/ticket.rs: single-use tickets for a WebSocket upgrade. The map behind the mutex is
-- an argument and a result of each call, `Instant::now()` is an argument, and so are the random bytes.
pub mod SingleUse
pub mod Claims
pub mod Bounds
mod Tests
use azad_server_box.Prelude.{
  ℕ, ◌+◌, ◌*◌, ◌≡◌, Bool, true, false, not, Option, none, some, List, [], ◌∷◌, ◌++◌, leb, ltb,
  nat_beq, if◌then◌else◌, length, Text, Eq, ◌==◌, text_eq, Result, ok, err,
}
use azad_server_box.Prelude.Strings.{split_once, split_once-append}
use azad_server_box.Prelude.Map.{Map, lookup, insert, remove, retain, count_values}
use azad_server_box.Secrets.{random_hex, constant_time_eq}

-- Thirty seconds, in nanoseconds.
abbrev pub ttl : ℕ
ttl = 30 * 1_000_000_000

abbrev pub max_live : ℕ
max_live = 256

abbrev pub max_per_subject : ℕ
max_per_subject = 32

pub data Purpose : Type 0 where
  terminal : Purpose

-- `!=` on purposes
abbrev pub other_purpose : Purpose → Purpose → Bool
other_purpose terminal terminal = false

pub record Entry : Type 0 where
  pub secret : Text
  pub purpose : Purpose
  pub subject : Text
  pub expires_at : ℕ
  pub reserved : Bool

abbrev pub TicketStore : Type 0
TicketStore = Map Text Entry

pub data TicketError : Type 0 where
  malformed unknown expired wrong_purpose bad_secret : TicketError

pub record TicketReservation : Type 0 where
  pub id : Text
  pub subject : Text

-- Why no ticket was issued: the generator failed, or one of the two limits.
pub data IssueError : Type 0 where
  rng too_many quota : IssueError

unfoldable pub commit : TicketStore → TicketReservation → Text × TicketStore
commit entries r = (r.subject, remove r.id entries)

pub rollback : TicketStore → TicketReservation → TicketStore
rollback entries r = elim (lookup r.id entries) [
  | none ↦ entries
  | some entry ↦ insert r.id (record entry { reserved = false }) entries
]

-- `issue_at` once both random texts are there.
unfoldable pub issue_with :
    TicketStore → Purpose → Text → ℕ → Text → Text → Result Text IssueError × TicketStore
issue_with entries purpose subject now id secret =
    let live = retain (λ _ e. ltb now e.expires_at) entries in
    if leb max_live (length live)
    then (err too_many, live)
    else if leb max_per_subject (count_values (λ e. e.subject == subject) live)
    then (err quota, live)
    else (
      ok (id ++ b'.' ∷ secret),
      insert id
          (record {
            secret = secret;
            purpose = purpose;
            subject = subject;
            expires_at = now + ttl;
            reserved = false;
          })
          live,
    )

-- The bytes that the generator gives for the id and for the secret are arguments.
pub issue_at :
    TicketStore
    → Purpose
    → Text
    → ℕ
    → Option (List ℕ)
    → Option (List ℕ)
    → Result Text IssueError × TicketStore
unfolding random_hex issue_with
issue_at entries purpose subject now id_bytes secret_bytes = elim (random_hex id_bytes) [
  | none ↦ (err rng, entries)
  | some id ↦ elim (random_hex secret_bytes) [
    | none ↦ (err rng, entries)
    | some secret ↦ issue_with entries purpose subject now id secret
  ]
]

-- What becomes of the entry that was taken out under `id`, and of the map without it.
unfoldable pub claim :
    TicketStore
    → Text
    → Text
    → Purpose
    → ℕ
    → Entry
    → Result TicketReservation TicketError × TicketStore
claim rest id secret purpose now entry =
    if entry.reserved
    then (err unknown, insert id entry rest)
    else if leb entry.expires_at now
    then (err expired, rest)
    else if other_purpose entry.purpose purpose
    then (err wrong_purpose, rest)
    else if not (constant_time_eq entry.secret secret)
    then (err bad_secret, rest)
    else (
      ok (record { id = id; subject = entry.subject }),
      insert id (record entry { reserved = true }) rest,
    )

unfoldable pub claim_id :
    TicketStore → Text → Text → Purpose → ℕ → Result TicketReservation TicketError × TicketStore
unfolding claim
claim_id entries id secret purpose now = elim (lookup id entries) [
  | none ↦ (err unknown, entries)
  | some entry ↦ claim (remove id entries) id secret purpose now entry
]

unfoldable pub reserve_at :
    TicketStore → Text → Purpose → ℕ → Result TicketReservation TicketError × TicketStore
unfolding claim_id split_once
reserve_at entries raw purpose now = elim (split_once b'.' raw) [
  | none ↦ (err malformed, entries)
  | some (id, secret) ↦ claim_id entries id secret purpose now
]

abbrev pub commit_reserved :
    Result TicketReservation TicketError × TicketStore → Result Text TicketError × TicketStore
commit_reserved (ok r, entries) =
    let (subject, entries') = commit entries r in (ok subject, entries')
commit_reserved (err e, entries) = (err e, entries)

pub consume_at : TicketStore → Text → Purpose → ℕ → Result Text TicketError × TicketStore
unfolding reserve_at commit
consume_at entries raw purpose now = commit_reserved (reserve_at entries raw purpose now)
