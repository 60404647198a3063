-- ===== src/Ticket/Bounds.antt =====
-- The limits on outstanding tickets of monitor/src/api/ws/ticket.rs, after any calls in any order.
use azad_server_box.Prelude.{
  ℕ, ◌≤◌, ◌<◌, ◌≡◌, refl, Bool, true, false, Option, none, some, Option-cases, Bool-cases, inl, inr,
  List, [], ◌∷◌, arith, leb, ltb, length, Text, ◌==◌, text_eq, text_beq_iff, Result, ok, err,
}
use azad_server_box.Prelude.Strings.{split_once}
use azad_server_box.Prelude.Map.{
  lookup, insert, remove, retain, count_values, Distinct, count_values-remove, count_values-insert,
  length-remove, length-insert, length-retain-le, count_values-retain-le, remove-Distinct,
  insert-Distinct, retain-Distinct,
}
use azad_server_box.Secrets.{random_hex}
use azad_server_box.Ticket.{
  Purpose, Entry, TicketStore, TicketError, TicketReservation, commit, rollback, issue_with,
  issue_at, claim, claim_id, reserve_at, consume_at, commit_reserved, max_live, max_per_subject,
}

abbrev pub is_of : Text → Entry → Bool
is_of subject e = e.subject == subject

pub record Inv (entries : TicketStore) : Type 0 where
  pub distinct : Distinct entries
  pub live : length entries ≤ max_live
  pub fair : (subject : Text) → count_values (is_of subject) entries ≤ max_per_subject

remove-Inv : (id : Text) (m : TicketStore) → Inv m → Inv (remove id m)
remove-Inv id m v = record {
  distinct = remove-Distinct id m v.distinct;
  live = omega (arith, length-remove id m, v.live);
  fair = λ subject. omega (arith, count_values-remove (is_of subject) id m, v.fair subject);
}

-- Putting an entry of the same subject back under its id.
replace-Inv :
    (id : Text) (m : TicketStore) (old entry : Entry)
    → lookup id m ≡ some old
    → entry.subject ≡ old.subject
    → Inv m
    → Inv (insert id entry m)
replace-Inv id m old entry found same v = record {
  distinct = insert-Distinct id entry m v.distinct;
  live = ground (arith, length-insert id entry m, v.live);
  fair = λ subject. ground (arith, count_values-insert (is_of subject) id entry m, v.fair subject);
}

put_back-Inv :
    (id : Text) (m : TicketStore) (old entry : Entry)
    → lookup id m ≡ some old
    → entry.subject ≡ old.subject
    → Inv m
    → Inv (insert id entry (remove id m))
put_back-Inv id m old entry found same v = record {
  distinct = insert-Distinct id entry (remove id m) (remove-Distinct id m v.distinct);
  live = ground (arith, length-insert id entry (remove id m), length-remove id m, v.live);
  fair = λ subject. ground (
    arith,
    count_values-insert (is_of subject) id entry (remove id m),
    count_values-remove (is_of subject) id m,
    v.fair subject,
  );
}

retain-Inv : (now : ℕ) (m : TicketStore) → Inv m → Inv (retain (λ _ e. ltb now e.expires_at) m)
retain-Inv now m v =
    let p : Text → Entry → Bool = λ _ e. ltb now e.expires_at in
    record {
      distinct = retain-Distinct p m v.distinct;
      live = omega (arith, length-retain-le p m, v.live);
      fair = λ subject. omega (arith, count_values-retain-le (is_of subject) p m, v.fair subject);
    }

-- A new entry, under both limits.
insert-Inv :
    (id : Text) (m : TicketStore) (entry : Entry)
    → length m < max_live
    → count_values (is_of entry.subject) m < max_per_subject
    → Inv m
    → Inv (insert id entry m)
insert-Inv id m entry room share v = record {
  distinct = insert-Distinct id entry m v.distinct;
  live = omega (arith, length-insert id entry m);
  fair = λ subject. ground (
    arith,
    count_values-insert (is_of subject) id entry m,
    v.fair subject,
    text_beq_iff entry.subject subject,
    share,
  );
}

issue_with-Inv :
    (m : TicketStore) (purpose : Purpose) (subject : Text) (now : ℕ) (id secret : Text)
    → Inv m
    → Inv (issue_with m purpose subject now id secret).1
unfolding issue_with
issue_with-Inv m purpose subject now id secret v =
    let live : TicketStore = retain (λ _ e. ltb now e.expires_at) m in
    let kept : Inv live = retain-Inv now m v in
    elim (Bool-cases (leb max_live (length live))) [
      | inl full ↦ rw (full, issue_with) kept
      | inr room ↦ elim (Bool-cases (leb max_per_subject (count_values (is_of subject) live))) [
        | inl spent ↦ rw (room, spent, issue_with) kept
        | inr share ↦
            rw (room, share, issue_with) (insert-Inv id live _ (ground arith) (ground arith) kept)
      ]
    ]

issue_at-Inv :
    (m : TicketStore) (purpose : Purpose) (subject : Text) (now : ℕ) (ib sb : Option (List ℕ))
    → Inv m
    → Inv (issue_at m purpose subject now ib sb).1
unfolding issue_at random_hex
issue_at-Inv m purpose subject now none sb v = v
issue_at-Inv m purpose subject now (some ib) none v = v
issue_at-Inv m purpose subject now (some ib) (some sb) v =
    issue_with-Inv m purpose subject now _ _ v

claim-Inv :
    (m : TicketStore) (id secret : Text) (purpose : Purpose) (now : ℕ) (entry : Entry)
    → lookup id m ≡ some entry
    → Inv m
    → Inv (claim (remove id m) id secret purpose now entry).1
unfolding claim
claim-Inv m id secret purpose now entry found v = ground (
  arith,
  remove-Inv id m v,
  put_back-Inv id m entry entry found refl v,
  put_back-Inv id m entry (record entry { reserved = true }) found refl v,
)

reserve_at-Inv :
    (m : TicketStore) (raw : Text) (purpose : Purpose) (now : ℕ)
    → Inv m
    → Inv (reserve_at m raw purpose now).1
unfolding reserve_at claim_id
reserve_at-Inv m raw purpose now v = elim (Option-cases (split_once b'.' raw)) [
  | inl e ↦ rw (e, reserve_at) v
  | inr ((id, secret), e) ↦ elim (Option-cases (lookup id m)) [
    | inl gone ↦ rw (e, reserve_at, gone, claim_id) v
    | inr (entry, found) ↦
        rw (e, reserve_at, found, claim_id) (claim-Inv m id secret purpose now entry found v)
  ]
]

commit_reserved-Inv :
    (p : Result TicketReservation TicketError × TicketStore) → Inv p.1 → Inv (commit_reserved p).1
unfolding commit
commit_reserved-Inv (ok r, m) v = remove-Inv r.id m v
commit_reserved-Inv (err e, m) v = v

rollback-Inv : (m : TicketStore) (r : TicketReservation) → Inv m → Inv (rollback m r)
unfolding rollback
rollback-Inv m r v = elim (Option-cases (lookup r.id m)) [
  | inl gone ↦ rw (gone, rollback) v
  | inr (entry, found) ↦
      rw (found, rollback)
        (replace-Inv r.id m entry (record entry { reserved = false }) found refl v)
]

-- The calls that the server makes on the store, with the time and the random bytes that each meets.
pub data Call : Type 0 where
  issues : Purpose → Text → ℕ → Option (List ℕ) → Option (List ℕ) → Call
  consumes reserves : Text → Purpose → ℕ → Call
  commits rolls_back : TicketReservation → Call

pub step : TicketStore → Call → TicketStore
step m (issues purpose subject now ib sb) = (issue_at m purpose subject now ib sb).1
step m (consumes raw purpose now) = (consume_at m raw purpose now).1
step m (reserves raw purpose now) = (reserve_at m raw purpose now).1
step m (commits r) = (commit m r).1
step m (rolls_back r) = rollback m r

pub run : TicketStore → List Call → TicketStore
run m [] = m
run m (c ∷ cs) = run (step m c) cs

step-Inv : (m : TicketStore) (c : Call) → Inv m → Inv (step m c)
unfolding step consume_at commit
step-Inv m (issues purpose subject now ib sb) v = issue_at-Inv m purpose subject now ib sb v
step-Inv m (consumes raw purpose now) v =
    commit_reserved-Inv (reserve_at m raw purpose now) (reserve_at-Inv m raw purpose now v)
step-Inv m (reserves raw purpose now) v = reserve_at-Inv m raw purpose now v
step-Inv m (commits r) v = remove-Inv r.id m v
step-Inv m (rolls_back r) v = rollback-Inv m r v

run-Inv : (m : TicketStore) (cs : List Call) → Inv m → Inv (run m cs)
unfolding run
run-Inv m [] v = v
run-Inv m (c ∷ cs) v = run-Inv (step m c) cs (step-Inv m c v)

-- After any calls, in any order and at any times, there are at most 256 tickets, at most 32 of one subject, and no id
-- has two.
pub store_bounded : (cs : List Call) → Inv (run [] cs)
unfolding count_values
store_bounded cs =
    run-Inv [] cs (record { distinct = tt; live = omega arith; fair = λ subject. omega arith })
