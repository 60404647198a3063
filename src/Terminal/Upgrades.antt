-- ===== src/Terminal/Upgrades.antt =====
-- Who gets a connection from `terminal_ws` of monitor/src/api/ws/terminal.rs, and what becomes of the ticket.
use azad_server_box.Prelude.{
  ℕ, ◌≡◌, ◌≢◌, ◌↔◌, refl, Bool, true, Option, none, some, List, arith, Text, text_eq, Result, ok,
  err,
}
use azad_server_box.Prelude.Map.{remove}
use azad_server_box.RemoteAccess.{RemoteAccess, terminal_available}
use azad_server_box.Ticket.{
  TicketStore, TicketReservation, TicketError, terminal, reserve_at, commit,
}
use azad_server_box.Ticket.SingleUse.{IsValid, reserve-ok_iff}
use azad_server_box.Terminal.Admission.{
  Request, ConnCtx, upgraded, forbidden, unauthorized, is_secure_transport, origin_allowed,
  find_ticket, terminal_ws, claim_ticket, upgrade_claimed, start_upgrade, deny,
}

-- What an upgrade takes, and what is captured of it.
pub record Admits (remote_access : RemoteAccess) (origins : List Text) (req : Request) (tls : Bool)
    (now : ℕ) (tickets : TicketStore) (ctx : ConnCtx) : Type 0 where
  pub available : terminal_available remote_access.terminal (is_secure_transport req tls) ≡ true
  pub origin : origin_allowed req origins ≡ true
  pub raw : Text
  pub offered : find_ticket req.subprotocols ≡ some raw
  pub reservation : TicketReservation
  pub valid : IsValid tickets raw now reservation
  pub captured : ctx ≡ record {
    subject = reservation.subject;
    remote_ip = req.remote_ip;
    secure = is_secure_transport req tls;
  }

-- The connection of a reservation.
abbrev captured_by : Request → Bool → TicketReservation → ConnCtx
captured_by req tls r = record {
  subject = r.subject;
  remote_ip = req.remote_ip;
  secure = is_secure_transport req tls;
}

upgrade_claimed-upgraded :
    (req : Request) (tls started : Bool) (p : Result TicketReservation TicketError × TicketStore)
    (ctx : ConnCtx)
    → (upgrade_claimed req tls started p).response ≡ upgraded ctx
    → (r : TicketReservation) × (p.0 ≡ ok r)
      × (started ≡ true)
      × (ctx ≡ captured_by req tls r)
      × ((upgrade_claimed req tls started p).tickets ≡ (commit p.1 r).1)
unfolding upgrade_claimed start_upgrade deny
upgrade_claimed-upgraded req tls started (err e, after) ctx h = absurd (ground (arith, h))
upgrade_claimed-upgraded req tls started (ok r, after) ctx h =
    (r, refl, ground (arith, h), ground (arith, h), ground (arith, h))

-- Past its two checks, the handshake is that of the ticket.
terminal_ws-passes :
    (remote_access : RemoteAccess) (origins : List Text) (req : Request) (tls started : Bool)
    (now : ℕ) (tickets : TicketStore)
    → terminal_available remote_access.terminal (is_secure_transport req tls) ≡ true
    → origin_allowed req origins ≡ true
    → terminal_ws remote_access origins req tls started now tickets
      ≡ claim_ticket req tls started now tickets (find_ticket req.subprotocols)
unfolding terminal_ws
terminal_ws-passes remote_access origins req tls started now tickets a o =
    rw (a, terminal_ws, o) refl

terminal_ws-checks :
    (remote_access : RemoteAccess) (origins : List Text) (req : Request) (tls started : Bool)
    (now : ℕ) (tickets : TicketStore)
    → (terminal_ws remote_access origins req tls started now tickets).response ≢ forbidden
    → (terminal_ws remote_access origins req tls started now tickets).response ≢ unauthorized
    → (terminal_available remote_access.terminal (is_secure_transport req tls) ≡ true)
      × (origin_allowed req origins ≡ true)
unfolding terminal_ws deny
terminal_ws-checks remote_access origins req tls started now tickets f u = ground (arith, f, u)

find_ticket-claimed :
    (req : Request) (tls started : Bool) (now : ℕ) (tickets : TicketStore) (o : Option Text)
    → (claim_ticket req tls started now tickets o).response ≢ unauthorized
    → (raw : Text) × (o ≡ some raw)
unfolding claim_ticket deny
find_ticket-claimed req tls started now tickets none u = absurd (u refl)
find_ticket-claimed req tls started now tickets (some raw) u = (raw, refl)

-- What an upgrade shows: the checks that passed, the ticket that was offered, and that it is gone.
record Shows (remote_access : RemoteAccess) (origins : List Text) (req : Request)
    (tls started : Bool) (now : ℕ) (tickets : TicketStore) (ctx : ConnCtx) : Type 0 where
  admitted : Admits remote_access origins req tls now tickets ctx
  left :
      (terminal_ws remote_access origins req tls started now tickets).tickets
      ≡ remove (admitted.reservation.id) (reserve_at tickets admitted.raw terminal now).1

upgraded-Shows :
    (remote_access : RemoteAccess) (origins : List Text) (req : Request) (tls started : Bool)
    (now : ℕ) (tickets : TicketStore) (ctx : ConnCtx)
    → (terminal_ws remote_access origins req tls started now tickets).response ≡ upgraded ctx
    → Shows remote_access origins req tls started now tickets ctx
unfolding claim_ticket commit
upgraded-Shows remote_access origins req tls started now tickets ctx h =
    let (available, origin) =
      terminal_ws-checks remote_access origins req tls started now tickets
        (λ e. ground (arith, h, e)) (λ e. ground (arith, h, e)) in
    let passes =
      terminal_ws-passes remote_access origins req tls started now tickets available origin in
    let claimed : (claim_ticket req tls started now tickets (find_ticket req.subprotocols)).response
        ≡ upgraded ctx =
      rw passes at h in
    let (raw, offered) =
      find_ticket-claimed req tls started now tickets (find_ticket req.subprotocols)
        (λ e. ground (arith, claimed, e)) in
    let (r, reserved, _, captured, left) =
      upgrade_claimed-upgraded req tls started (reserve_at tickets raw terminal now) ctx
        (rw offered at claimed) in
    record {
      admitted = record {
        available = available;
        origin = origin;
        raw = raw;
        offered = offered;
        reservation = r;
        valid = (reserve-ok_iff tickets raw terminal now r).0 reserved;
        captured = captured;
      };
      left = rw (passes, offered) left;
    }

Admits-upgraded :
    (remote_access : RemoteAccess) (origins : List Text) (req : Request) (tls : Bool) (now : ℕ)
    (tickets : TicketStore) (ctx : ConnCtx)
    → Admits remote_access origins req tls now tickets ctx
    → (terminal_ws remote_access origins req tls true now tickets).response ≡ upgraded ctx
unfolding claim_ticket upgrade_claimed start_upgrade
Admits-upgraded remote_access origins req tls now tickets ctx v =
    let reserved = (reserve-ok_iff tickets v.raw terminal now v.reservation).1 v.valid in
    rw
      (
        terminal_ws-passes remote_access origins req tls true now tickets v.available v.origin,
        v.offered,
        v.captured,
      )
      (go (reserve_at tickets v.raw terminal now) reserved)
  where
    go :
        (p : Result TicketReservation TicketError × TicketStore)
        → p.0 ≡ ok v.reservation
        → (upgrade_claimed req tls true p).response ≡ upgraded (captured_by req tls v.reservation)
    go (ok q, after) e = ground (arith, e)
    go (err q, after) e = absurd (ground (arith, e))

-- Where the framework can switch protocols, a request gets a connection exactly if the terminal is available over its
-- transport, its origin is allowed, and it offers a ticket that is valid; the connection is that of the ticket's subject.
pub terminal_ws-upgraded_iff :
    (remote_access : RemoteAccess) (origins : List Text) (req : Request) (tls : Bool) (now : ℕ)
    (tickets : TicketStore) (ctx : ConnCtx)
    → ((terminal_ws remote_access origins req tls true now tickets).response ≡ upgraded ctx)
      ↔ Admits remote_access origins req tls now tickets ctx
terminal_ws-upgraded_iff remote_access origins req tls now tickets ctx = (
  λ h. (upgraded-Shows remote_access origins req tls true now tickets ctx h).admitted,
  Admits-upgraded remote_access origins req tls now tickets ctx,
)
