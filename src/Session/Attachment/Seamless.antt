-- ===== src/Session/Attachment/Seamless.antt =====
-- A client that reattaches to a session of monitor/src/api/ws/session.rs sees one unbroken stream.
use azad_server_box.Prelude.{
  ℕ, ◌-◌, ◌≤◌, ◌<◌, ◌≡◌, refl, sym, ap, ◌∙◌, ◌⊎◌, ◌≢◌, inl, inr, true, false, none, All, nat_beq,
  nat_beq_iff, if◌then◌else◌, some, List, [], ◌∷◌, ◌++◌, arith, length, take, drop,
  take-append-drop, Bool-cases,
}
use mathlib.Core.List.{append-nil, append_assoc}
use azad_server_box.Session.Scrollback.{
  Scrollback, gap, u64_mod, Holds, push-Holds, replay_from-history,
}
use azad_server_box.Session.Attachment.{
  Session, SessionOutput, output_data, TrySend, sent, full, disconnected, Effect, delivers, queues,
  delivers_input, queues_input, AttachmentState, Sender, publish, attach, record_output, Attached,
  after_send, send_current,
}

abbrev pub bytes_of : SessionOutput → List ℕ
bytes_of (output_data bytes) = bytes
bytes_of _ = []

-- The bytes of all that entered a channel at once.
abbrev pub delivered : Sender → List Effect → List ℕ
delivered tx [] = []
delivered tx (delivers to output ∷ effects) =
    let rest = delivered tx effects in if nat_beq to tx then bytes_of output ++ rest else rest
delivered tx (_ ∷ effects) = delivered tx effects

-- One output, with the time and what the runtime reports of the channel.
pub record Event : Type 0 where
  pub result : TrySend
  pub now : ℕ
  pub output : SessionOutput

abbrev pub produced : List Event → List ℕ
produced [] = []
produced (e ∷ es) = bytes_of e.output ++ produced es

unfoldable pub publish_all : List Event → Session → Session × List Effect
publish_all [] s = (s, [])
publish_all (e ∷ es) s =
    let (s', effects) = publish e.result e.now e.output s in
    let (s'', more) = publish_all es s' in (s'', effects ++ more)

-- Nothing reaches the client any more: it is told to reconnect, or its connection is gone.
abbrev pub IsCut : Session → Type 0
IsCut s = (s.attachment.replay_requested ≡ true) ⊎ (s.attachment.current ≡ none)

-- Output goes to this channel.
abbrev IsLive : Sender → AttachmentState → Type 0
IsLive tx a = (a.replay_requested ≡ false) × (id : ℕ) × (a.current ≡ some (id, tx))

-- The channel took every output.
abbrev pub AllSent : List Event → Type 0
AllSent = All (λ e. e.result ≡ sent)

record_output-Holds :
    (history : List ℕ) (output : SessionOutput) (sb : Scrollback)
    → Holds history sb
    → Holds (history ++ bytes_of output) (record_output output sb)
record_output-Holds history (output_data bytes) sb v = push-Holds history bytes sb v
record_output-Holds history _ sb v = rw append-nil v

publish-Holds :
    (history : List ℕ) (e : Event) (s : Session)
    → Holds history s.scrollback
    → Holds (history ++ bytes_of e.output) (publish e.result e.now e.output s).0.scrollback
unfolding publish
publish-Holds history e s v = record_output-Holds history e.output s.scrollback v

-- A connection that is cut is sent nothing, and stays cut.
publish-IsCut :
    (e : Event) (s : Session)
    → IsCut s
    → ((publish e.result e.now e.output s).1 ≡ []) × IsCut (publish e.result e.now e.output s).0
unfolding publish
publish-IsCut e s c = ground arith

publish_all-IsCut :
    (tx : Sender) (es : List Event) (s : Session)
    → IsCut s
    → (delivered tx (publish_all es s).1 ≡ []) × IsCut (publish_all es s).0
unfolding publish_all
publish_all-IsCut tx [] s c = (refl, c)
publish_all-IsCut tx (e ∷ es) s c =
    let (silent, cut) = publish-IsCut e s c in
    let (quiet, still) = publish_all-IsCut tx es (publish e.result e.now e.output s).0 cut in
    (rw silent quiet, still)

pub publish_all-Holds :
    (history : List ℕ) (es : List Event) (s : Session)
    → Holds history s.scrollback
    → Holds (history ++ produced es) (publish_all es s).0.scrollback
unfolding publish_all
publish_all-Holds history [] s v = rw append-nil v
publish_all-Holds history (e ∷ es) s v = rw (← append_assoc) (
    publish_all-Holds (history ++ bytes_of e.output) es (publish e.result e.now e.output s).0
      (publish-Holds history e s v))

delivered-append :
    (tx : Sender) (xs ys : List Effect)
    → delivered tx (xs ++ ys) ≡ delivered tx xs ++ delivered tx ys
delivered-append tx [] ys = refl
delivered-append tx (delivers to output ∷ xs) ys = elim (Bool-cases (nat_beq to tx)) [
  | inl e ↦
      rw (e, delivered-append tx xs ys)
        (sym (append_assoc (bytes_of output) (delivered tx xs) (delivered tx ys)))
  | inr e ↦ rw (e, delivered-append tx xs ys) refl
]
delivered-append tx (queues to output ∷ xs) ys = delivered-append tx xs ys
delivered-append tx (delivers_input to input ∷ xs) ys = delivered-append tx xs ys
delivered-append tx (queues_input to input ∷ xs) ys = delivered-append tx xs ys

-- One output reaches the channel whole, or the channel did not take it and nothing reaches it from here on.
abbrev WholeOrCut : Sender → TrySend → SessionOutput → AttachmentState × List Effect → Type 0
WholeOrCut tx r output p =
    ((delivered tx p.1 ≡ bytes_of output) × IsLive tx p.0)
    ⊎ ((r ≢ sent)
        × (delivered tx p.1 ≡ [])
        × ((p.0.replay_requested ≡ true) ⊎ (p.0.current ≡ none)))

after_send-WholeOrCut :
    (r : TrySend) (now : ℕ) (tx : Sender) (output : SessionOutput) (a : AttachmentState)
    → IsLive tx a
    → WholeOrCut tx r output (after_send r now tx output a)
unfolding after_send
after_send-WholeOrCut sent now tx output a live =
    inl (rw ((nat_beq_iff tx tx).1 refl) (append-nil (bytes_of output)), live)
after_send-WholeOrCut full now tx output a live = inr (λ e. ground (arith, e), refl, inl refl)
after_send-WholeOrCut disconnected now tx output a live =
    inr (λ e. ground (arith, e), refl, inr refl)

publish_cases :
    (tx : Sender) (e : Event) (s : Session)
    → IsLive tx s.attachment
    → let (after, effects) = publish e.result e.now e.output s in
      WholeOrCut tx e.result e.output (after.attachment, effects)
unfolding publish send_current
publish_cases tx e s (asked, id, there) =
    rw (asked, there, send_current)
      (after_send-WholeOrCut e.result e.now tx e.output s.attachment (asked, id, there))

-- How a stream ends: whole, or short of what came once the channel did not take an output.
abbrev pub EndsIn : List Event → List ℕ → Session → Type 0
EndsIn es rest s = (rest ≡ []) ⊎ (¬ (AllSent es) × IsCut s)

-- What reaches a client is the first part of what the shell produced, and all of it unless the connection was cut.
pub publish_all-prefix :
    (tx : Sender) (es : List Event) (s : Session)
    → IsLive tx s.attachment
    → (rest : List ℕ) × (produced es ≡ delivered tx (publish_all es s).1 ++ rest)
      × EndsIn es rest (publish_all es s).0
unfolding publish_all
publish_all-prefix tx [] s live = ([], refl, inl refl)
publish_all-prefix tx (e ∷ es) s live =
    let next : Session = (publish e.result e.now e.output s).0 in
    let effects = (publish e.result e.now e.output s).1 in
    let split = delivered-append tx effects (publish_all es next).1 in
    elim (publish_cases tx e s live) [
      | inl (whole, still) ↦
          let (rest, same, end) = publish_all-prefix tx es next still in
          (
            rest,
            rw (split, whole, same)
                (sym
                  (append_assoc (bytes_of e.output) (delivered tx (publish_all es next).1) rest)),
            elim end [ inl done ↦ inl done | inr (lost, cut) ↦ inr (λ all. lost all.1, cut) ],
          )
      | inr (lost, silent, cut) ↦
          let (quiet, still) = publish_all-IsCut tx es next cut in
          (produced (e ∷ es), rw (split, silent, quiet) refl, inr (λ all. lost all.0, still))
    ]

attach-IsLive :
    (since : ℕ) (tx : Sender) (s : Session) (to : Attached)
    → (attach since tx s).0 ≡ some to
    → IsLive tx (attach since tx s).1.attachment
unfolding attach
attach-IsLive since tx s to h = elim (Bool-cases s.attachment.closed) [
  | inl e ↦ absurd (ground (arith, e, h))
  | inr e ↦ rw (e, attach) (refl, s.attachment.next_id, refl)
]

-- A client that has rendered the first `since` bytes and reattaches while its position is still in the buffer: what it
-- had, what it is replayed and what enters its own channel afterwards are the start of the session's whole output, with nothing
-- lost, doubled or out of order. All of it is there as long as the channel takes every output; bytes are missing, at the
-- end, only once it did not and the client was told to reconnect or lost its connection.
pub reattach_unbroken :
    (history : List ℕ) (s : Session) (since : ℕ) (tx : Sender) (to : Attached) (es : List Event)
    → Holds history s.scrollback
    → length history < u64_mod
    → since ≤ length history
    → length history - s.scrollback.capacity ≤ since
    → (attach since tx s).0 ≡ some to
    → (missed rest : List ℕ) × (to.replay ≡ gap missed)
      × (history ++ produced es
          ≡ take since history
            ++ missed
            ++ delivered tx (publish_all es (attach since tx s).1).1
            ++ rest)
      × EndsIn es rest (publish_all es (attach since tx s).1).0
unfolding attach
reattach_unbroken history s since tx to es v small rendered held attached =
    let (rest, same, end) =
      publish_all-prefix tx es (attach since tx s).1 (attach-IsLive since tx s to attached) in
    (
      drop since history,
      rest,
      ground (arith, replay_from-history history s.scrollback since v small),
      ap (◌++◌ history) same
          ∙ sym (append_assoc history (delivered tx (publish_all es (attach since tx s).1).1) rest)
          ∙ ap (λ (l : List ℕ). l ++ delivered tx (publish_all es (attach since tx s).1).1 ++ rest)
              (sym (take-append-drop since history)),
      end,
    )
