-- ===== src/Ticket/Claims.antt =====
-- A claimed ticket of monitor/src/api/ws/ticket.rs: nobody else gets it, a rollback gives it back, and a
-- refused one is burnt.
use azad_server_box.Prelude.{
  ℕ, ◌≡◌, refl, true, false, none, some, Option-cases, inl, inr, subst, arith, if◌then◌else◌, Text,
  ◌==◌, text_eq, text_beq_iff, Result, ok, err,
}
use azad_server_box.Prelude.Strings.{split_once}
use azad_server_box.Prelude.Map.{lookup, remove, lookup-insert, lookup-remove}
use azad_server_box.Ticket.{
  Purpose, Entry, TicketStore, TicketError, unknown, expired, wrong_purpose, bad_secret,
  TicketReservation, rollback, claim, claim_id, reserve_at,
}
use azad_server_box.Ticket.SingleUse.{IsValid, reserve-ok, reserve_at-split}

lookup-reserve :
    (entries : TicketStore) (raw : Text) (purpose : Purpose) (now : ℕ) (r : TicketReservation)
    (j : Text)
    → (h : (reserve_at entries raw purpose now).0 ≡ ok r)
    → lookup j (reserve_at entries raw purpose now).1 ≡ (
        if r.id == j
        then some (record ((reserve-ok entries raw purpose now r h).0.entry) { reserved = true })
        else lookup j entries)
lookup-reserve entries raw purpose now r j h =
    let (v, left) = reserve-ok entries raw purpose now r h in
    rw left (
      ground (
        arith,
        lookup-insert r.id j (record (v.entry) { reserved = true }) (remove r.id entries),
        lookup-remove r.id j entries,
      ))

claim_id-reserved :
    (entries : TicketStore) (id secret : Text) (purpose : Purpose) (now : ℕ) (entry : Entry)
    → lookup id entries ≡ some entry
    → entry.reserved ≡ true
    → (claim_id entries id secret purpose now).0 ≡ err unknown
unfolding claim_id
claim_id-reserved entries id secret purpose now entry found taken = rw (found, claim_id, taken) refl

-- While one request holds a ticket, any other that names the same id is refused as unknown, whatever secret
-- it shows and whenever it comes.
pub reserve_exclusive :
    (entries : TicketStore) (raw raw' secret : Text) (purpose purpose' : Purpose) (now later : ℕ)
    (r : TicketReservation)
    → (reserve_at entries raw purpose now).0 ≡ ok r
    → split_once b'.' raw' ≡ some (r.id, secret)
    → (reserve_at (reserve_at entries raw purpose now).1 raw' purpose' later).0 ≡ err unknown
reserve_exclusive entries raw raw' secret purpose purpose' now later r h split =
    rw
      (reserve_at-split (reserve_at entries raw purpose now).1 raw' r.id secret purpose' later
        split)
      (claim_id-reserved (reserve_at entries raw purpose now).1 r.id secret purpose' later
        (record ((reserve-ok entries raw purpose now r h).0.entry) { reserved = true })
        (ground (arith, lookup-reserve entries raw purpose now r r.id h, text_beq_iff r.id r.id))
        refl)

-- A rollback after a failed handshake leaves every ticket as it was before the reservation.
pub rollback_restores :
    (entries : TicketStore) (raw : Text) (purpose : Purpose) (now : ℕ) (r : TicketReservation)
    (j : Text)
    → (reserve_at entries raw purpose now).0 ≡ ok r
    → lookup j (rollback (reserve_at entries raw purpose now).1 r) ≡ lookup j entries
unfolding rollback
rollback_restores entries raw purpose now r j h =
    let v : IsValid entries raw now r = (reserve-ok entries raw purpose now r h).0 in
    let after : TicketStore = (reserve_at entries raw purpose now).1 in
    let held : lookup r.id after ≡ some (record (v.entry) { reserved = true }) =
      ground (arith, lookup-reserve entries raw purpose now r r.id h, text_beq_iff r.id r.id) in
    let whole : record (v.entry) { reserved = false } ≡ v.entry = ground (arith, v.unclaimed) in
    rw
      (
        held,
        rollback,
        lookup-insert r.id j (record (v.entry) { reserved = false }) after,
        lookup-reserve entries raw purpose now r j h,
        whole,
      )
      (ground (arith, v.found, text_beq_iff r.id j))

abbrev pub IsRefusal : TicketError → Type 0
IsRefusal expired = Unit
IsRefusal wrong_purpose = Unit
IsRefusal bad_secret = Unit
IsRefusal _ = ⊥

claim-burns :
    (rest : TicketStore) (id secret : Text) (purpose : Purpose) (now : ℕ) (entry : Entry)
    (e : TicketError)
    → (claim rest id secret purpose now entry).0 ≡ err e
    → IsRefusal e
    → (claim rest id secret purpose now entry).1 ≡ rest
unfolding claim
claim-burns rest id secret purpose now entry e h k = ground arith

claim_id-burns :
    (entries : TicketStore) (id secret : Text) (purpose : Purpose) (now : ℕ) (e : TicketError)
    → (claim_id entries id secret purpose now).0 ≡ err e
    → IsRefusal e
    → (claim_id entries id secret purpose now).1 ≡ remove id entries
unfolding claim_id
claim_id-burns entries id secret purpose now e h k = elim (Option-cases (lookup id entries)) [
  | inl gone ↦
      let refused : ◌≡◌ {A = Result TicketReservation TicketError} (err unknown) (err e) =
        rw (gone, claim_id) at h in
      absurd (subst IsRefusal (let same : e ≡ unknown = cc in same) k)
  | inr (entry, found) ↦
      rw (found, claim_id)
        (claim-burns (remove id entries) id secret purpose now entry e (rw (found, claim_id) at h)
          k)
]

-- A ticket that is named and refused for its secret, its purpose or its age is gone: its id is no longer
-- in the map, and no other ticket is touched.
pub refused_burns :
    (entries : TicketStore) (raw id secret : Text) (purpose : Purpose) (now : ℕ) (e : TicketError)
    (j : Text)
    → split_once b'.' raw ≡ some (id, secret)
    → (reserve_at entries raw purpose now).0 ≡ err e
    → IsRefusal e
    → lookup j (reserve_at entries raw purpose now).1 ≡ (if id == j then none else lookup j entries)
refused_burns entries raw id secret purpose now e j split h k =
    let step : reserve_at entries raw purpose now ≡ claim_id entries id secret purpose now =
      reserve_at-split entries raw id secret purpose now split in
    rw (step, claim_id-burns entries id secret purpose now e (rw step at h) k)
      (lookup-remove id j entries)
