-- ===== src/Terminal/Tests.antt =====
-- Runs of monitor/src/api/ws/terminal.rs on concrete connections.
use azad_server_box.Prelude.{
  ℕ, Bool, true, ◌≡◌, ◌≤◌, ◌↔◌, refl, true, false, none, some, List, [], ◌∷◌, codes, text_eq, ok,
}
use azad_server_box.Prelude.Strings.{split_once}
use azad_server_box.Prelude.Map.{lookup, insert, remove}
use azad_server_box.Secrets.{random_hex, hex, hex_digit}
use azad_server_box.RemoteAccess.{RemoteAccess, terminal_available, full_access_available}
use azad_server_box.Session.Scrollback
use azad_server_box.Session.Attachment.{Session, SessionAuth, sent, new_session, attach}
use azad_server_box.Session.Store.{
  SessionStore, insert_session, insert_with, place, take_expired, is_local, take_ids, ids_where,
  close_local,
}
use azad_server_box.Session.Store
use azad_server_box.Ticket.{TicketStore, terminal}
use azad_server_box.Terminal.Messages.{
  AuthPayload, AuthStep, authenticated, needs_answers, Geometry, open_msg, answer_msg,
  into_credential,
}
use azad_server_box.Terminal.Messages
use azad_server_box.Terminal.Admission.{Request, v4, ConnCtx, upgraded, terminal_ws}
use azad_server_box.Terminal.Phases.{opening, claim_idle, take_exchange, is_opening, set_if_opening}
use azad_server_box.Terminal.Tasks.{
  connecting, full_access_allowed, register, settle, auth_of, id_of, event, connected, stepped,
  shell_opened, spawned, found, Drawn, Shared,
}
use azad_server_box.Terminal.Connection.{
  Happening, frames, replies, happen, text, on_frame, on_control, begin_open, begin_local,
  begin_answer,
}
use azad_server_box.Terminal.Turns.{
  resume, after_spawn, after_connect, after_step, after_shell, after_attach, keep_exchange,
  open_detail,
}
use azad_server_box.Audit.{new_event}
use azad_server_box.Terminal.Lifecycle.{IsOwned, happen-IsOwned}
use azad_server_box.Terminal.Announcement.{readies, budget, run, fresh_conn, readies-le}
use azad_server_box.Terminal.Coverage.{Guards}
use azad_server_box.Terminal.System.{
  System, turns, flags, sweeps, swept, init, store_flag, sweep_local, update, Reach, starts, later,
}
use azad_server_box.Terminal.Revocation.{swept-Guards}
use azad_server_box.Terminal.Upgrades.{Admits, terminal_ws-upgraded_iff}
use azad_server_box.Session.Attachment.{SessionOutput, output_data, exit}
use azad_server_box.Terminal.Messages.{binary_frame, text_frame, exit_msg, close_normal}
use azad_server_box.Terminal.Pump.{pump_output, Drains, pump_output-Drains}

abbrev settings : RemoteAccess
settings = record {
  ssh_addr = codes "127.0.0.1:22";
  full_access = true;
  terminal = record {
    enabled = true;
    max_sessions = 2;
    scrollback_bytes = 8;
    detached_timeout = 300;
    allow_insecure = false;
  };
  fs = record {
    enabled = false;
    roots = record { roots = [] };
    allow_insecure = false;
    max_write_bytes = 1;
  };
}

abbrev request : Request
request = record {
  peer = some (v4 127 0 0 1);
  remote_ip = some (codes "127.0.0.1");
  origin = some (codes "http://box");
  host = some (codes "box");
  subprotocols = codes "sbm" ∷ codes "sbm-ticket.a.b" ∷ [];
}

abbrev tickets : TicketStore
tickets =
    (
      codes "a",
      record {
        secret = codes "b";
        purpose = terminal;
        subject = codes "ops";
        expires_at = 30;
        reserved = false;
      },
    )
    ∷ []

abbrev ops : ConnCtx
ops = record { subject = codes "ops"; remote_ip = some (codes "127.0.0.1"); secure = true }

terminal_ws-upgraded_iff_example :
    ((terminal_ws settings [] request false true 3 tickets).response ≡ upgraded ops)
    ↔ Admits settings [] request false 3 tickets ops
terminal_ws-upgraded_iff_example = terminal_ws-upgraded_iff settings [] request false 3 tickets ops

abbrev geometry : Geometry
geometry = record { cols = 80; rows = 24; term = codes "xterm-256color" }

abbrev shared : Shared
shared = record {
  store = record { sessions = []; max = 2; detached_timeout = 300 };
  full_access_off = false;
}

abbrev drawn : Drawn
drawn = record {
  now = 5;
  id_bytes = some (1 ∷ []);
  secret_bytes = some (2 ∷ []);
  input = 7;
  answer = λ _. sent;
}

abbrev shell_session : SessionAuth → Session
shell_session auth = new_session (codes "ops") (codes "root") auth 8 7

-- An exchange with one prompt, a shell, and a second attempt to open.
abbrev events : List (Happening × Shared)
events =
    (frames 0 (text (some (open_msg (codes "root") AuthPayload.interactive geometry))), shared)
    ∷ (replies (connected (some (ok 1))), shared)
    ∷ (replies (stepped 1 (some (ok (needs_answers [] [])))), shared)
    ∷ (frames 2 (text (some (answer_msg (codes "123456" ∷ [])))), shared)
    ∷ (replies (stepped 3 (some (ok authenticated))), shared)
    ∷ (replies (shell_opened (ok drawn)), shared)
    ∷ (replies (found 6 (shell_session SessionAuth.ssh) 9), shared)
    ∷ (frames 7 (text (some (open_msg (codes "root") AuthPayload.interactive geometry))), shared)
    ∷ []

readies-le_example :
    (readies (run settings ops events fresh_conn).0 ≤ 1)
    × (budget (run settings ops events fresh_conn).1.phase ≡ 1
        → readies (run settings ops events fresh_conn).0 ≡ 0)
readies-le_example = readies-le settings ops events

happen-IsOwned_example :
    let c' =
      (happen settings ops (replies (connected none)) shared (record {
        phase = opening;
        task = connecting (codes "root") Messages.Credential.keyboard_interactive geometry;
      })).conn in
    IsOwned c'.phase c'.task
happen-IsOwned_example =
    happen-IsOwned settings ops (replies (connected none)) shared
      (record {
        phase = opening;
        task = connecting (codes "root") Messages.Credential.keyboard_interactive geometry;
      })
      tt

-- A call that was let through before the switch puts its session in the store after the sweep.
late_start :
    (s : System) × Reach settings (λ _. ops) (init 2 300) s
    × (s.switch ≡ swept)
    × ((x : Session) × (lookup (codes "01") s.shared.store.sessions ≡ some x) × (is_local x ≡ true))
unfolding happen on_frame on_control claim_idle into_credential begin_open begin_local event
    full_access_allowed full_access_available terminal_available store_flag sweep_local close_local
    ids_where take_ids resume after_spawn register settle insert_session random_hex hex hex_digit
    insert_with take_expired place insert remove lookup update new_session Scrollback.new Store.new
    is_local auth_of id_of split_once
late_start = (
  _,
  later
      (later
        (later
          (later starts (turns 0 (frames 0 (text (some (open_msg [] AuthPayload.local geometry))))))
          (flags refl))
        (sweeps (λ _. sent) 3 refl))
      (turns 0 (replies (spawned (ok (4, codes "root", drawn))))),
  refl,
  (record (shell_session SessionAuth.local) { secret = codes "02" }, refl, refl),
)

swept-Guards_example : (i : ℕ) × Guards (late_start.0.conn i).task (codes "01")
swept-Guards_example =
    swept-Guards settings (λ _. ops) 2 300 late_start.0 late_start.1 late_start.2 (codes "01")
      late_start.3.0 late_start.3.1 late_start.3.2

-- The run above announces its session once.
announces : readies (run settings ops events fresh_conn).0 ≡ 1
unfolding run happen on_frame on_control claim_idle into_credential begin_open begin_answer resume
    take_exchange after_connect after_step after_shell after_attach keep_exchange is_opening
    set_if_opening register settle insert_session random_hex hex hex_digit insert_with take_expired
    place insert remove lookup ids_where take_ids new_session Scrollback.new auth_of attach event
    new_event open_detail
announces = refl

abbrev rows : List (SessionOutput × Bool)
rows = (output_data (1 ∷ 2 ∷ []), true) ∷ (exit (some 0), true) ∷ []

pump_output-Drains_example : Drains rows
pump_output-Drains_example = pump_output-Drains rows (refl, (refl, tt))

last_frames :
    pump_output rows
    ≡ binary_frame (1 ∷ 2 ∷ []) ∷ text_frame (exit_msg (some 0)) ∷ close_normal ∷ []
unfolding pump_output
last_frames = refl
