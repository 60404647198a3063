-- ===== src/Terminal/Pump.antt =====
-- `pump_output` of monitor/src/api/ws/terminal.rs: how the output of a session becomes frames. A row is an output that
-- the channel gives and whether the socket took its frame; after the last row the channel is closed.
use azad_server_box.Prelude.{
  ℕ, ◌≡◌, refl, ap, Bool, true, List, [], ◌∷◌, ◌++◌, All, if◌then◌else◌, codes,
}
use azad_server_box.Session.Attachment.{
  SessionOutput, output_data, exit, error, full_access_revoked, replay_required,
}
use azad_server_box.Terminal.Messages.{
  Message, text_frame, binary_frame, close_normal, exit_msg, error_frame,
}

-- A last frame and the end of the socket.
abbrev ending : Message → List Message
ending last = last ∷ close_normal ∷ []

unfoldable pub pump_output : List (SessionOutput × Bool) → List Message
pump_output [] =
    ending (
      error_frame (codes "superseded") (codes "This terminal was taken over by another connection"))
pump_output ((output_data bytes, sent) ∷ rows) =
    let rest = pump_output rows in binary_frame bytes ∷ (if sent then rest else [])
pump_output ((error message, sent) ∷ rows) =
    let rest = pump_output rows in
    error_frame (codes "ssh_error") message ∷ (if sent then rest else [])
pump_output ((exit status, sent) ∷ rows) = ending (text_frame (exit_msg status))
pump_output ((full_access_revoked, sent) ∷ rows) =
    ending (error_frame (codes "full_access_disabled") (codes "Full access has been disabled"))
pump_output ((replay_required, sent) ∷ rows) = ending (
    error_frame (codes "output_lagged")
      (codes "Terminal output fell behind; reconnecting to replay it"))

-- The terminal bytes among frames.
abbrev pub frame_bytes : List Message → List ℕ
frame_bytes [] = []
frame_bytes (binary_frame bytes ∷ frames) = bytes ++ frame_bytes frames
frame_bytes (_ ∷ frames) = frame_bytes frames

-- The terminal bytes up to the output that ends the pump, if there is one.
abbrev pub live_bytes : List (SessionOutput × Bool) → List ℕ
live_bytes [] = []
live_bytes ((output_data bytes, _) ∷ rows) = bytes ++ live_bytes rows
live_bytes ((error _, _) ∷ rows) = live_bytes rows
live_bytes (_ ∷ rows) = []

-- The frame does not end the socket.
abbrev pub IsOpen : Message → Type 0
IsOpen close_normal = ⊥
IsOpen _ = Unit

abbrev pub WasTaken : SessionOutput × Bool → Type 0
WasTaken (_, sent) = sent ≡ true

-- What a pump sends while the socket is alive: frames with the bytes, and one end.
pub record Drains (rows : List (SessionOutput × Bool)) : Type 0 where
  pub frames : List Message
  pub whole : pump_output rows ≡ frames ++ close_normal ∷ []
  pub still_open : All IsOpen frames
  pub bytes : frame_bytes frames ≡ live_bytes rows

ends_at_once :
    (row : SessionOutput × Bool) (rows : List (SessionOutput × Bool)) (last : Message)
    → pump_output (row ∷ rows) ≡ ending last
    → IsOpen last
    → frame_bytes (last ∷ []) ≡ live_bytes (row ∷ rows)
    → Drains (row ∷ rows)
ends_at_once row rows last e o b = record {
  frames = last ∷ [];
  whole = e;
  still_open = (o, tt);
  bytes = b;
}

-- As long as the socket takes its frames, a pump sends every byte of the session's output in order up to the shell's
-- exit, the revocation, the call to replay or the loss of the session, and then closes the socket: once, and with nothing
-- behind.
pub pump_output-Drains : (rows : List (SessionOutput × Bool)) → All WasTaken rows → Drains rows
unfolding pump_output
pump_output-Drains [] t = record {
  frames =
      error_frame (codes "superseded") (codes "This terminal was taken over by another connection")
      ∷ [];
  whole = refl;
  still_open = (tt, tt);
  bytes = refl;
}
pump_output-Drains ((output_data bytes, sent) ∷ rows) (taken, t) =
    let rest = pump_output-Drains rows t in
    record {
      frames = binary_frame bytes ∷ rest.frames;
      whole = rw taken (ap (λ l. binary_frame bytes ∷ l) rest.whole);
      still_open = (tt, rest.still_open);
      bytes = ap (λ l. bytes ++ l) rest.bytes;
    }
pump_output-Drains ((error message, sent) ∷ rows) (taken, t) =
    let rest = pump_output-Drains rows t in
    let frame : Message = error_frame (codes "ssh_error") message in
    record {
      frames = frame ∷ rest.frames;
      whole = rw taken (ap (λ l. frame ∷ l) rest.whole);
      still_open = (tt, rest.still_open);
      bytes = rest.bytes;
    }
pump_output-Drains ((exit status, sent) ∷ rows) t =
    ends_at_once (exit status, sent) rows (text_frame (exit_msg status)) refl tt refl
pump_output-Drains ((full_access_revoked, sent) ∷ rows) t =
    ends_at_once (full_access_revoked, sent) rows
      (error_frame (codes "full_access_disabled") (codes "Full access has been disabled")) refl tt
      refl
pump_output-Drains ((replay_required, sent) ∷ rows) t =
    ends_at_once (replay_required, sent) rows
      (error_frame (codes "output_lagged")
        (codes "Terminal output fell behind; reconnecting to replay it"))
      refl tt refl
