-- ===== src/Terminal/Admission.antt =====
-- The checks before an upgrade, of monitor/src/api/ws/mod.rs and of `terminal_ws` in monitor/src/api/ws/terminal.rs. What
-- the request holds is a record, and what the framework answers to the upgrade is an argument.
use azad_server_box.Prelude.{
  ℕ, Bool, true, false, not, ◌||◌, ◌&&◌, Option, none, some, List, [], ◌∷◌, if◌then◌else◌, any,
  nat_beq, Text, codes, ◌==◌, text_eq, Result, ok, err,
}
use azad_server_box.Prelude.Strings.{strip_prefix, split_once_text}
use azad_server_box.RemoteAccess.{RemoteAccess, terminal_available}
use azad_server_box.Ticket.{
  TicketStore, TicketReservation, TicketError, terminal, reserve_at, commit, rollback,
}
use azad_server_box.Audit.{Kind, Action, Outcome, Event, new_event}

pub data IpAddr : Type 0 where
  v4 : (a b c d : ℕ) → IpAddr
  v6 : (a b c d e f g h : ℕ) → IpAddr

-- `127.0.0.0/8`, and `::1`.
unfoldable pub is_loopback : IpAddr → Bool
is_loopback (v4 a b c d) = nat_beq a 127
is_loopback (v6 a b c d e f g h) =
    nat_beq a 0
    && nat_beq b 0
    && nat_beq c 0
    && nat_beq d 0
    && nat_beq e 0
    && nat_beq f 0
    && nat_beq g 0
    && nat_beq h 1

-- The parts of the request that are read: the peer and its text, two headers and the offered protocols.
pub record Request : Type 0 where
  pub peer : Option IpAddr
  pub remote_ip : Option Text
  pub origin : Option Text
  pub host : Option Text
  pub subprotocols : List Text

unfoldable pub secure_transport : Bool → Option IpAddr → Bool
unfolding is_loopback
secure_transport tls_active none = tls_active
secure_transport tls_active (some ip) = tls_active || is_loopback ip

unfoldable pub is_secure_transport : Request → Bool → Bool
unfolding secure_transport
is_secure_transport req tls_active = secure_transport tls_active req.peer

-- The authority of an origin is that of the request.
unfoldable pub same_origin : Option (Text × Text) → Option Text → Bool
same_origin none host = false
same_origin (some (_, authority)) none = false
same_origin (some (_, authority)) (some host) = host == authority

unfoldable pub origin_allowed : Request → List Text → Bool
unfolding same_origin split_once_text
origin_allowed req allowed_origins = elim req.origin [
  | none ↦ true
  | some origin ↦
      if any (λ a. a == origin) allowed_origins
      then true
      else same_origin (split_once_text (codes "://") origin) req.host
]

abbrev pub ticket_protocol_prefix : Text
ticket_protocol_prefix = codes "sbm-ticket."

-- The first protocol with the prefix, without it.
unfoldable pub find_ticket : List Text → Option Text
unfolding strip_prefix
find_ticket [] = none
find_ticket (p ∷ ps) =
    let rest = find_ticket ps in
    elim (strip_prefix ticket_protocol_prefix p) [ none ↦ rest | some raw ↦ some raw ]

-- What is captured of the connection.
pub record ConnCtx : Type 0 where
  pub subject : Text
  pub remote_ip : Option Text
  pub secure : Bool

pub data Response : Type 0 where
  forbidden unauthorized : Response
  upgraded : ConnCtx → Response
  upgrade_failed : Response

pub record Handshake : Type 0 where
  pub response : Response
  pub events : List Event
  pub tickets : TicketStore

unfoldable pub deny : Request → TicketStore → Text → Response → Handshake
unfolding new_event
deny req tickets reason response = record {
  response = response;
  events =
      record (new_event Kind.terminal Action.denied Outcome.denied) {
        remote_ip = req.remote_ip;
        detail = some reason;
      }
      ∷ [];
  tickets = tickets;
}

-- The upgrade under a reserved ticket: used up where it succeeds, given back where it does not.
unfoldable pub start_upgrade : Request → Bool → Bool → TicketReservation → TicketStore → Handshake
unfolding is_secure_transport
start_upgrade req tls_active started r tickets =
    if started
    then record {
      response = upgraded (record {
        subject = r.subject;
        remote_ip = req.remote_ip;
        secure = is_secure_transport req tls_active;
      });
      events = [];
      tickets = (commit tickets r).1;
    }
    else record { response = upgrade_failed; events = []; tickets = rollback tickets r }

unfoldable pub upgrade_claimed :
    Request → Bool → Bool → Result TicketReservation TicketError × TicketStore → Handshake
unfolding deny start_upgrade
upgrade_claimed req tls_active started (err _, after) = deny req after (codes "ticket") unauthorized
upgrade_claimed req tls_active started (ok r, after) = start_upgrade req tls_active started r after

unfoldable pub claim_ticket : Request → Bool → Bool → ℕ → TicketStore → Option Text → Handshake
unfolding deny upgrade_claimed
claim_ticket req tls_active started now tickets none =
    deny req tickets (codes "no ticket") unauthorized
claim_ticket req tls_active started now tickets (some raw) =
    upgrade_claimed req tls_active started (reserve_at tickets raw terminal now)

-- `started` is whether the framework could switch protocols.
unfoldable pub terminal_ws :
    RemoteAccess → List Text → Request → Bool → Bool → ℕ → TicketStore → Handshake
unfolding terminal_available is_secure_transport origin_allowed find_ticket claim_ticket deny
terminal_ws remote_access cors_allowed_origins req tls_active started now tickets =
    if not (terminal_available remote_access.terminal (is_secure_transport req tls_active))
    then deny req tickets
        (if remote_access.terminal.enabled then codes "insecure transport" else codes "disabled")
        forbidden
    else if not (origin_allowed req cors_allowed_origins)
    then deny req tickets (codes "origin") unauthorized
    else claim_ticket req tls_active started now tickets (find_ticket req.subprotocols)
