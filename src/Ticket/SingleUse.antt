-- ===== src/Ticket/SingleUse.antt =====
-- A ticket of monitor/src/api/ws/ticket.rs is good once, for its holder, until it expires.
use azad_server_box.Prelude.{
  ℕ, ◌+◌, ◌<◌, ◌≡◌, ◌↔◌, refl, sym, ap, ◌∙◌, true, false, none, some, Option-cases, inl, inr, List,
  ◌∷◌, ◌++◌, arith, ltb, Text, text_eq, text_beq_iff, Result, ok, err,
}
use azad_server_box.Prelude.Strings.{split_once, split_once-append}
use azad_server_box.Prelude.Map.{lookup, insert, remove, retain, lookup-insert, lookup-remove}
use azad_server_box.Secrets.{hex, hex-NoDot, constant_time_eq_iff}
use azad_server_box.Ticket.{
  Purpose, terminal, Entry, TicketStore, TicketError, unknown, TicketReservation, issue_at, claim,
  claim_id, reserve_at, commit_reserved, consume_at, ttl, other_purpose,
}

-- What a ticket must show to be claimed.
pub record IsValid (entries : TicketStore) (raw : Text) (now : ℕ) (r : TicketReservation)
    : Type 0 where
  pub secret : Text
  pub entry : Entry
  pub split : split_once b'.' raw ≡ some (r.id, secret)
  pub found : lookup r.id entries ≡ some entry
  pub matches : entry.secret ≡ secret
  pub in_time : now < entry.expires_at
  pub unclaimed : entry.reserved ≡ false
  pub owner : r.subject ≡ entry.subject

claim-ok :
    (rest : TicketStore) (id secret : Text) (purpose : Purpose) (now : ℕ) (entry : Entry)
    (r : TicketReservation)
    → (claim rest id secret purpose now entry).0 ≡ ok r
    → (r.id ≡ id)
      × (r.subject ≡ entry.subject)
      × (entry.secret ≡ secret)
      × (now < entry.expires_at)
      × (entry.reserved ≡ false)
      × ((claim rest id secret purpose now entry).1
          ≡ insert id (record entry { reserved = true }) rest)
unfolding claim
claim-ok rest id secret purpose now entry r h =
    ground (arith, constant_time_eq_iff entry.secret secret)

one_purpose : (a b : Purpose) → other_purpose a b ≡ false
one_purpose terminal terminal = refl

ok-claim :
    (rest : TicketStore) (id : Text) (purpose : Purpose) (now : ℕ) (entry : Entry)
    → now < entry.expires_at
    → entry.reserved ≡ false
    → claim rest id entry.secret purpose now entry ≡ (
      ok (record { id = id; subject = entry.subject }),
      insert id (record entry { reserved = true }) rest,
    )
unfolding claim
ok-claim rest id purpose now entry h k =
    ground
      (arith, constant_time_eq_iff entry.secret entry.secret, one_purpose entry.purpose purpose)

claim_id-ok :
    (entries : TicketStore) (id secret : Text) (purpose : Purpose) (now : ℕ) (r : TicketReservation)
    → (claim_id entries id secret purpose now).0 ≡ ok r
    → (entry : Entry) × (lookup id entries ≡ some entry)
      × (r.id ≡ id)
      × (r.subject ≡ entry.subject)
      × (entry.secret ≡ secret)
      × (now < entry.expires_at)
      × (entry.reserved ≡ false)
      × ((claim_id entries id secret purpose now).1
          ≡ insert id (record entry { reserved = true }) (remove id entries))
unfolding claim_id
claim_id-ok entries id secret purpose now r h = elim (Option-cases (lookup id entries)) [
  | inl e ↦ absurd (ground arith)
  | inr (entry, e) ↦
      let claimed : (claim (remove id entries) id secret purpose now entry).0 ≡ ok r =
        rw (e, claim_id) at h in
      let (a, b, c, d, f, g) = claim-ok (remove id entries) id secret purpose now entry r claimed in
      (entry, e, a, b, c, d, f, rw (e, claim_id) g)
]

pub reserve_at-split :
    (entries : TicketStore) (raw id secret : Text) (purpose : Purpose) (now : ℕ)
    → split_once b'.' raw ≡ some (id, secret)
    → reserve_at entries raw purpose now ≡ claim_id entries id secret purpose now
unfolding reserve_at
reserve_at-split entries raw id secret purpose now e = rw (e, reserve_at)

-- The reservation that a client holds, and the map that it leaves.
pub reserve-ok :
    (entries : TicketStore) (raw : Text) (purpose : Purpose) (now : ℕ) (r : TicketReservation)
    → (reserve_at entries raw purpose now).0 ≡ ok r
    → (v : IsValid entries raw now r) × ((reserve_at entries raw purpose now).1
        ≡ insert r.id (record (v.entry) { reserved = true }) (remove r.id entries))
reserve-ok entries raw purpose now r h = elim (Option-cases (split_once b'.' raw)) [
  | inl e ↦ absurd (unfold reserve_at in (ground (arith, e, h)))
  | inr ((id, secret), e) ↦
      let step : reserve_at entries raw purpose now ≡ claim_id entries id secret purpose now =
        reserve_at-split entries raw id secret purpose now e in
      let (entry, found, same, owner, matches, in_time, unclaimed, left) =
        claim_id-ok entries id secret purpose now r (rw step at h) in
      (
        record {
          secret = secret;
          entry = entry;
          split = rw same e;
          found = rw same found;
          matches = matches;
          in_time = in_time;
          unclaimed = unclaimed;
          owner = owner;
        },
        rw (step, same) left,
      )
]

IsValid-reserve :
    (entries : TicketStore) (raw : Text) (purpose : Purpose) (now : ℕ) (r : TicketReservation)
    → IsValid entries raw now r
    → (reserve_at entries raw purpose now).0 ≡ ok r
unfolding claim_id
IsValid-reserve entries raw purpose now r v =
    let step : reserve_at entries raw purpose now
        ≡ claim_id entries r.id v.entry.secret purpose now =
      reserve_at-split entries raw r.id v.entry.secret purpose now
        (v.split ∙ ap (λ (t : Text). some (r.id, t)) (sym v.matches)) in
    rw
      (
        step,
        v.found,
        claim_id,
        ok-claim (remove r.id entries) r.id purpose now v.entry v.in_time v.unclaimed,
      )
      (ground (arith, v.owner))

-- A reservation succeeds exactly on a ticket that is known, unclaimed, in time and presented with its
-- secret, and then it is for the subject that the ticket was issued to.
pub reserve-ok_iff :
    (entries : TicketStore) (raw : Text) (purpose : Purpose) (now : ℕ) (r : TicketReservation)
    → ((reserve_at entries raw purpose now).0 ≡ ok r) ↔ IsValid entries raw now r
reserve-ok_iff entries raw purpose now r =
    (λ h. (reserve-ok entries raw purpose now r h).0, IsValid-reserve entries raw purpose now r)

abbrev issued_entry : Purpose → Text → ℕ → List ℕ → Entry
issued_entry purpose subject now secret_bytes = record {
  secret = hex secret_bytes;
  purpose = purpose;
  subject = subject;
  expires_at = now + ttl;
  reserved = false;
}

issue_at-ok :
    (entries : TicketStore) (purpose : Purpose) (subject : Text) (now : ℕ)
    (id_bytes secret_bytes : List ℕ) (ticket : Text)
    → (issue_at entries purpose subject now (some id_bytes) (some secret_bytes)).0 ≡ ok ticket
    → (ticket ≡ hex id_bytes ++ b'.' ∷ hex secret_bytes)
      × (lookup
            (hex id_bytes)
            (issue_at entries purpose subject now (some id_bytes) (some secret_bytes)).1
          ≡ some (issued_entry purpose subject now secret_bytes))
unfolding issue_at
issue_at-ok entries purpose subject now id_bytes secret_bytes ticket h = ground (
  arith,
  lookup-insert (hex id_bytes) (hex id_bytes) (issued_entry purpose subject now secret_bytes)
      (retain (λ (_ : Text) (e : Entry). ltb now e.expires_at) entries),
  text_beq_iff (hex id_bytes) (hex id_bytes),
)

commit_reserved-ok :
    (entries : TicketStore) (raw : Text) (purpose : Purpose) (now : ℕ) (r : TicketReservation)
    → (reserve_at entries raw purpose now).0 ≡ ok r
    → ((consume_at entries raw purpose now).0 ≡ ok r.subject)
      × ((consume_at entries raw purpose now).1
          ≡ remove r.id (reserve_at entries raw purpose now).1)
unfolding consume_at
commit_reserved-ok entries raw purpose now r h = go (reserve_at entries raw purpose now) h
  where
    go :
        (p : Result TicketReservation TicketError × TicketStore)
        → p.0 ≡ ok r
        → ((commit_reserved p).0 ≡ ok r.subject) × ((commit_reserved p).1 ≡ remove r.id p.1)
    go (ok q, m) e = ground arith
    go (err q, m) e = cc

-- A ticket whose id is not in the map is refused as unknown, and the map stays.
consume_at-unknown :
    (entries : TicketStore) (raw id secret : Text) (purpose : Purpose) (now : ℕ)
    → split_once b'.' raw ≡ some (id, secret)
    → lookup id entries ≡ none
    → consume_at entries raw purpose now ≡ (err unknown, entries)
unfolding consume_at claim_id
consume_at-unknown entries raw id secret purpose now split gone =
    rw (reserve_at-split entries raw id secret purpose now split, gone, claim_id) refl

-- An issued ticket opens once for the subject that it was issued to, if it is presented before it expires; the
-- same ticket is unknown from then on, at any later time.
pub single_use :
    (entries : TicketStore) (purpose : Purpose) (subject : Text) (now used later : ℕ)
    (id_bytes secret_bytes : List ℕ) (ticket : Text)
    → (issue_at entries purpose subject now (some id_bytes) (some secret_bytes)).0 ≡ ok ticket
    → used < now + ttl
    → let issued = (issue_at entries purpose subject now (some id_bytes) (some secret_bytes)).1 in
      ((consume_at issued ticket purpose used).0 ≡ ok subject)
      × ((consume_at (consume_at issued ticket purpose used).1 ticket purpose later).0
          ≡ err unknown)
single_use entries purpose subject now used later id_bytes secret_bytes ticket h in_time =
    let id : Text = hex id_bytes in
    let secret : Text = hex secret_bytes in
    let issued : TicketStore =
      (issue_at entries purpose subject now (some id_bytes) (some secret_bytes)).1 in
    let (same, found) = issue_at-ok entries purpose subject now id_bytes secret_bytes ticket h in
    let split : split_once b'.' ticket ≡ some (id, secret) =
      rw same (split_once-append b'.' id secret (hex-NoDot id_bytes)) in
    let r : TicketReservation = record { id = id; subject = subject } in
    let claimed : (reserve_at issued ticket purpose used).0 ≡ ok r =
      IsValid-reserve issued ticket purpose used r (record {
        secret = secret;
        entry = issued_entry purpose subject now secret_bytes;
        split = split;
        found = found;
        matches = refl;
        in_time = in_time;
        unclaimed = refl;
        owner = refl;
      }) in
    let (opened, left) = commit_reserved-ok issued ticket purpose used r claimed in
    let gone : lookup id (consume_at issued ticket purpose used).1 ≡ none = rw left (
      ground (
        arith,
        lookup-remove id id (reserve_at issued ticket purpose used).1,
        text_beq_iff id id,
      )) in
    (
      opened,
      ap (λ (p : Result Text TicketError × TicketStore). p.0)
          (consume_at-unknown (consume_at issued ticket purpose used).1 ticket id secret purpose
            later split gone),
    )
