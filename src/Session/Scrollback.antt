-- ===== src/Session/Scrollback.antt =====
-- `Scrollback` of monitor/src/api/ws/session.rs: the bounded buffer of PTY output from which a client that
-- reconnects is sent what it missed. A `u64` wraps, as in a release build.
use azad_server_box.Prelude.{
  ℕ, ◌+◌, ◌-◌, ◌%◌, ◌^◌, ◌≤◌, ◌<◌, ◌≡◌, ap, sym, ◌∙◌, List, [], ◌++◌, arith, leb, ltb,
  if◌then◌else◌, length, drop, length-append, length-drop, drop-drop, drop-append_le,
  drop-append_ge, drop-all, Bool-cases, inl, inr,
}

abbrev pub u64_mod : ℕ
u64_mod = 2 ^ 64

pub record Scrollback : Type 0 where
  pub buf : List ℕ
  pub capacity : ℕ
  pub next_seq : ℕ

pub data Replay : Type 0 where
  gap truncated : List ℕ → Replay

unfoldable pub new : ℕ → Scrollback
new capacity = record { buf = []; capacity = capacity; next_seq = 0 }

-- The part of a write that can survive in the buffer.
unfoldable pub surviving : ℕ → List ℕ → List ℕ
surviving capacity written =
    if ltb capacity (length written) then drop (length written - capacity) written else written

unfoldable pub push : List ℕ → Scrollback → Scrollback
unfolding surviving
push written sb =
    let kept = surviving sb.capacity written in
    let overflow = length sb.buf + length kept - sb.capacity in
    record sb {
      buf = drop overflow sb.buf ++ kept;
      next_seq = (sb.next_seq + length written) % u64_mod;
    }

unfoldable pub start_seq : Scrollback → ℕ
start_seq sb = (sb.next_seq + u64_mod - length sb.buf) % u64_mod

unfoldable pub replay_from : Scrollback → ℕ → Replay
unfolding start_seq
replay_from sb since =
    let start = start_seq sb in
    if leb sb.next_seq since
    then gap []
    else if ltb since start
    then truncated sb.buf
    else gap (drop (since - start) sb.buf)

-- The buffer holds the end of all that was ever written.
pub record Holds (history : List ℕ) (sb : Scrollback) : Type 0 where
  pub tail : sb.buf ≡ drop (length history - sb.capacity) history
  pub counted : sb.next_seq ≡ length history % u64_mod

pub new-Holds : (capacity : ℕ) → Holds [] (new capacity)
unfolding new
new-Holds capacity = record {
  tail = sym (drop-all (0 - capacity) [] (omega arith));
  counted = omega arith;
}

buf-length :
    (history : List ℕ) (sb : Scrollback)
    → Holds history sb
    → length sb.buf ≡ length history - (length history - sb.capacity)
buf-length history sb v = ap length v.tail ∙ length-drop (length history - sb.capacity) history

push_tail_long :
    (history written buf : List ℕ) (capacity : ℕ)
    → capacity < length written
    → drop (length buf + length (drop (length written - capacity) written) - capacity) buf
        ++ drop (length written - capacity) written
      ≡ drop (length (history ++ written) - capacity) (history ++ written)
push_tail_long history written buf capacity h =
    let n : ℕ = length written - capacity in
    rw
      (
        drop-all (length buf + length (drop n written) - capacity) buf
            (omega (arith, length-drop n written)),
        drop-append_ge (length (history ++ written) - capacity) history written
            (omega (arith, length-append history written)),
      )
      (ap (λ k. drop k written) (omega (arith, length-append history written)))

push_tail_short :
    (history written buf : List ℕ) (capacity : ℕ)
    → length written ≤ capacity
    → buf ≡ drop (length history - capacity) history
    → drop (length buf + length written - capacity) buf ++ written
      ≡ drop (length (history ++ written) - capacity) (history ++ written)
push_tail_short history written buf capacity h e =
    let m : ℕ = length history - capacity in
    let size : length buf ≡ length history - m = ap length e ∙ length-drop m history in
    rw
      (drop-append_le (length (history ++ written) - capacity) history written
        (omega (arith, length-append history written)))
      (ap (λ (l : List ℕ). l ++ written)
        (ap (drop (length buf + length written - capacity)) e
          ∙ drop-drop (length buf + length written - capacity) m history
          ∙ ap (λ k. drop k history) (omega (arith, length-append history written))))

-- A write appends to the history, and the buffer holds the end of the longer history.
pub push-Holds :
    (history written : List ℕ) (sb : Scrollback)
    → Holds history sb
    → Holds (history ++ written) (push written sb)
unfolding push
push-Holds history written sb v = record {
  tail = elim (Bool-cases (ltb sb.capacity (length written))) [
    | inl long ↦
        rw (long, surviving) (push_tail_long history written sb.buf sb.capacity (ground arith))
    | inr short ↦
        rw (short, surviving)
          (push_tail_short history written sb.buf sb.capacity (ground arith) v.tail)
  ];
  counted = omega (arith, v.counted, length-append history written);
}

start_seq_lem :
    (history : List ℕ) (sb : Scrollback)
    → Holds history sb
    → length history < u64_mod
    → start_seq sb ≡ length history - sb.capacity
unfolding start_seq
start_seq_lem history sb v small =
    let counted : sb.next_seq ≡ length history = omega (arith, v.counted) in
    let size : length sb.buf ≡ length history - (length history - sb.capacity) =
      buf-length history sb v in
    omega (arith, counted, size)

-- A client that has rendered `since` bytes is sent exactly the rest of the history, unless its position fell out of the
-- buffer; then it is sent all that the buffer holds, marked as truncated.
pub replay_from-history :
    (history : List ℕ) (sb : Scrollback) (since : ℕ)
    → Holds history sb
    → length history < u64_mod
    → replay_from sb since ≡ (
        if ltb since (length history - sb.capacity)
        then truncated (drop (length history - sb.capacity) history)
        else gap (drop since history))
unfolding replay_from
replay_from-history history sb since v small =
    let m : ℕ = length history - sb.capacity in
    let start : start_seq sb ≡ m = start_seq_lem history sb v small in
    let end : sb.next_seq ≡ length history = omega (arith, v.counted) in
    elim (Bool-cases (leb sb.next_seq since)) [
      | inl seen ↦
          rw (seen, replay_from) (ground (arith, end, drop-all since history (ground (arith, end))))
      | inr missed ↦ elim (Bool-cases (ltb since m)) [
        | inl lost ↦ ground (arith, missed, lost, start, v.tail)
        | inr kept ↦ ground (
          arith,
          missed,
          kept,
          start,
          ap (drop (since - m)) v.tail,
          drop-drop (since - m) m history,
          ap (λ k. drop k history) (let e : m + (since - m) ≡ since = ground arith in e),
        )
      ]
    ]
