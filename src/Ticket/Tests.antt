-- ===== src/Ticket/Tests.antt =====
-- Runs of the ticket store, and the theorems about it at concrete inputs.
use azad_server_box.Prelude.{
  ◌≡◌, ◌↔◌, refl, none, some, [], ◌∷◌, arith, Text, codes, ok, err, ◌==◌, text_eq, false,
  if◌then◌else◌,
}
use azad_server_box.Prelude.Strings.{split_once}
use azad_server_box.Prelude.Map.{lookup, insert, retain, count_values}
use azad_server_box.Secrets.{constant_time_eq}
use azad_server_box.Ticket.{
  terminal, Entry, TicketStore, TicketReservation, issue_at, consume_at, reserve_at, unknown,
  bad_secret,
}
use azad_server_box.Ticket.SingleUse.{IsValid, reserve-ok_iff, single_use}
use azad_server_box.Ticket.Claims.{refused_burns}
use azad_server_box.Ticket.Bounds.{Inv, issues, consumes, run, store_bounded}

abbrev admin : Text
admin = codes "admin"

abbrev entry : Entry
entry = record {
  secret = codes "5e";
  purpose = terminal;
  subject = admin;
  expires_at = 100;
  reserved = false;
}

abbrev store : TicketStore
store = (codes "1d", entry) ∷ []

abbrev raw : Text
raw = codes "1d.5e"

abbrev held : TicketReservation
held = record { id = codes "1d"; subject = admin }

reserve_run : (reserve_at store raw terminal 50).0 ≡ ok held
unfolding reserve_at lookup insert constant_time_eq
reserve_run = refl

refuse_run : (reserve_at store (codes "1d.5f") terminal 50).0 ≡ err bad_secret
unfolding reserve_at lookup constant_time_eq
refuse_run = refl

split_run : split_once b'.' (codes "1d.5f") ≡ some (codes "1d", codes "5f")
unfolding split_once
split_run = refl

issue_run : (issue_at [] terminal admin 7 (some (29 ∷ [])) (some (94 ∷ []))).0 ≡ ok raw
unfolding issue_at retain count_values
issue_run = refl

single_use_example :
    let issued = (issue_at [] terminal admin 7 (some (29 ∷ [])) (some (94 ∷ []))).1 in
    ((consume_at issued raw terminal 8).0 ≡ ok admin)
    × ((consume_at (consume_at issued raw terminal 8).1 raw terminal 9).0 ≡ err unknown)
single_use_example =
    single_use [] terminal admin 7 8 9 (29 ∷ []) (94 ∷ []) raw issue_run (omega arith)

reserve-ok_iff_run : ((reserve_at store raw terminal 50).0 ≡ ok held) ↔ IsValid store raw 50 held
reserve-ok_iff_run = reserve-ok_iff store raw terminal 50 held

refused_burns_run :
    lookup (codes "1d") (reserve_at store (codes "1d.5f") terminal 50).1
    ≡ (if codes "1d" == codes "1d" then none else lookup (codes "1d") store)
refused_burns_run =
    refused_burns store (codes "1d.5f") (codes "1d") (codes "5f") terminal 50 bad_secret
      (codes "1d") split_run refuse_run tt

store_bounded_example : Inv (
    run []
      (issues terminal admin 7 (some (29 ∷ [])) (some (94 ∷ [])) ∷ consumes raw terminal 8 ∷ []))
store_bounded_example =
    store_bounded
      (issues terminal admin 7 (some (29 ∷ [])) (some (94 ∷ [])) ∷ consumes raw terminal 8 ∷ [])
