-- ===== src/Session/Attachment/Takeover.antt =====
-- One connection at a time drives a session of monitor/src/api/ws/session.rs.
use azad_server_box.Prelude.{ℕ, ◌≡◌, ◌<◌, refl, true, false, none, some, arith}
use azad_server_box.Session.Scrollback.{u64_mod}
use azad_server_box.Session.Attachment.{Session, Sender, Attached, attach, detach, close}

-- A connection that was taken over cannot detach the one that replaced it: its late `detach` is refused and
-- changes nothing. The one that is attached can, and then nobody is.
pub takeover :
    (s : Session) (since since' now : ℕ) (tx tx' : Sender) (old fresh : Attached)
    → (attach since tx s).0 ≡ some old
    → (attach since' tx' (attach since tx s).1).0 ≡ some fresh
    → s.attachment.next_id < u64_mod
    → let taken = (attach since' tx' (attach since tx s).1).1 in
      (detach now old.id taken ≡ (false, taken))
      × ((detach now fresh.id taken).0 ≡ true)
      × ((detach now fresh.id taken).1.attachment.current ≡ none)
      × ((detach now fresh.id taken).1.attachment.detached_at ≡ some now)
unfolding attach detach
takeover s since since' now tx tx' old fresh h k small = ground arith

-- A session that was closed is attached to by nobody any more.
pub close_final :
    (s : Session) (now since : ℕ) (tx : Sender)
    → attach since tx (close now s).1 ≡ (none, (close now s).1)
unfolding attach close
close_final s now since tx = refl
