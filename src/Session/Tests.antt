-- ===== src/Session/Tests.antt =====
-- Runs of terminal sessions, and the theorems about them at concrete inputs.
use azad_server_box.Prelude.{
  ℕ, ◌≡◌, ◌↔◌, refl, none, some, List, [], ◌∷◌, ◌++◌, arith, codes, ok, text_eq, true, false,
  if◌then◌else◌, take, length, ltb, ◌-◌,
}
use azad_server_box.Prelude.Map.{lookup, remove, Distinct}
use azad_server_box.Session.Scrollback.{
  Scrollback, gap, truncated, push, replay_from, Holds, new-Holds, push-Holds, replay_from-history,
}
use azad_server_box.Session.Scrollback
use azad_server_box.Session.Attachment.{
  Session, ssh, sent, full, TrySend, Sender, output_data, new_session, attach, detach, Attached,
  publish,
}
use azad_server_box.Session.Attachment.Seamless.{
  Event, produced, delivered, publish_all, EndsIn, reattach_unbroken,
}
use azad_server_box.Session.Attachment.Takeover.{takeover}
use azad_server_box.Session.Store.{SessionStore, get, reap_at, insert_session}
use azad_server_box.Session.Store.Access.{Opens, get-ok_iff}

abbrev four : Scrollback
four = Scrollback.push (codes "world") (Scrollback.push (codes "hello") (Scrollback.new 4))

four-Holds : Holds (([] ++ codes "hello") ++ codes "world") four
four-Holds =
    push-Holds ([] ++ codes "hello") (codes "world") (push (codes "hello") (Scrollback.new 4))
      (push-Holds [] (codes "hello") (Scrollback.new 4) (new-Holds 4))

replay_run : replay_from four 8 ≡ gap (codes "ld")
unfolding push replay_from Scrollback.new
replay_run = refl

replay_from-history_example : replay_from four 8 ≡ (
    if ltb 8 (length (codes "helloworld") - 4) then truncated (codes "orld") else gap (codes "ld"))
unfolding push Scrollback.new
replay_from-history_example =
    replay_from-history (codes "helloworld") four 8 four-Holds (omega arith)

abbrev shell : Session
shell = record (new_session (codes "admin") (codes "ops") ssh 4 1) {
  scrollback = four;
  secret = codes "5e";
}

abbrev burst : List Event
burst =
    record { result = sent; now = 3; output = output_data (codes "ab") }
    ∷ record { result = full; now = 4; output = output_data (codes "cd") }
    ∷ record { result = sent; now = 5; output = output_data (codes "ef") }
    ∷ []

abbrev client : Attached
client = record { id = 0; receiver = 9; replay = gap (codes "ld"); start = 6 }

attach_run : (attach 8 9 shell).0 ≡ some client
unfolding attach new_session push replay_from Scrollback.new
attach_run = refl

delivered_run : delivered 9 (publish_all burst (attach 8 9 shell).1).1 ≡ codes "ab"
unfolding attach new_session push publish_all publish Scrollback.new
delivered_run = refl

reattach_unbroken_example :
    (missed rest : List ℕ) × (client.replay ≡ gap missed)
    × (codes "helloworld" ++ produced burst
        ≡ take 8 (codes "helloworld")
          ++ missed
          ++ delivered 9 (publish_all burst (attach 8 9 shell).1).1
          ++ rest)
    × EndsIn burst rest (publish_all burst (attach 8 9 shell).1).0
unfolding new_session push Scrollback.new
reattach_unbroken_example =
    reattach_unbroken (codes "helloworld") shell 8 9 client burst four-Holds (omega arith)
      (omega arith) (omega arith) attach_run

abbrev second : Attached
second = record { id = 1; receiver = 10; replay = gap []; start = 6 }

second_run : (attach 10 10 (attach 8 9 shell).1).0 ≡ some second
unfolding attach new_session push replay_from Scrollback.new
second_run = refl

takeover_run :
    let taken = (attach 10 10 (attach 8 9 shell).1).1 in
    (detach 7 0 taken ≡ (false, taken))
    × ((detach 7 1 taken).0 ≡ true)
    × ((detach 7 1 taken).1.attachment.current ≡ none)
    × ((detach 7 1 taken).1.attachment.detached_at ≡ some 7)
unfolding new_session
takeover_run = takeover shell 8 10 7 9 10 client second attach_run second_run (omega arith)

abbrev left : Session
left = record shell { attachment = record (shell.attachment) { detached_at = some 100 } }

abbrev store : SessionStore
store = record {
  sessions = (codes "1d", shell) ∷ (codes "2d", left) ∷ [];
  max = 2;
  detached_timeout = 300;
}

store-Distinct : Distinct store.sessions
unfolding lookup
store-Distinct = (refl, (refl, tt))

abbrev answer : Sender → TrySend
answer tx = sent

reap_run : (reap_at answer 400 store).0 ≡ 1
unfolding reap_at lookup remove new_session
reap_run = refl

get-ok_iff_example :
    (get store (codes "1d.5e") (codes "admin") ≡ ok shell)
    ↔ Opens store (codes "1d.5e") (codes "admin") shell
get-ok_iff_example = get-ok_iff store (codes "1d.5e") (codes "admin") shell

abbrev drawn : Session
drawn = record shell { secret = codes "5f" }

insert_run :
    (insert_session answer store shell 400 (some (61 ∷ [])) (some (95 ∷ []))).0
    ≡ ok (some (codes "3d.5f", drawn))
unfolding insert_session lookup remove new_session
insert_run = refl
