-- ===== src/Terminal/Revocation.antt =====
-- Access without SSH is switched off while connections of monitor/src/api/ws/terminal.rs are opening shells.
use azad_server_box.Prelude.{
  ℕ, ◌≡◌, ◌≢◌, inl, inr, refl, sym, ◌∙◌, true, not, subst, Option, none, some, arith, nat_beq,
  nat_beq_iff, Text, text_eq, Bool-cases,
}
use azad_server_box.Prelude.Map.{lookup, Distinct, keep_if}
use azad_server_box.RemoteAccess.{RemoteAccess}
use azad_server_box.Session.Attachment.{Session, TrySend, publish}
use azad_server_box.Session.Store.{SessionStore, remove_session, is_local, close_local, reap_at}
use azad_server_box.Session.Store.Reaping.{close_local_exact}
use azad_server_box.Terminal.Admission.{ConnCtx}
use azad_server_box.Terminal.Tasks.{Conn, Turn}
use azad_server_box.Terminal.Connection.{happen}
use azad_server_box.Terminal.Lifecycle.{IsOwned, happen-IsOwned}
use azad_server_box.Terminal.Stores.{
  Keeps, remove_session-Keeps, reap_at-Keeps, insert-Keeps, take_where-Keeps,
}
use azad_server_box.Terminal.Coverage.{Guards}
use azad_server_box.Terminal.Guarding.{Answers}
use azad_server_box.Terminal.System.{
  System, Step, turns, flags, sweeps, shell_exits, reaps, publishes, before, swept, update,
  after_turn, with_store, store_flag, sweep_local, init, Reach, starts, later,
}
use azad_server_box.Session.Store
use azad_server_box.Terminal.Frames.{happen-Answers}

-- What holds in every state: who holds what, the flag, and who answers for the local sessions that are left.
pub record Inv (s : System) : Type 0 where
  pub owned : (i : ℕ) → IsOwned (s.conn i).phase (s.conn i).task
  pub distinct : Distinct s.shared.store.sessions
  pub off : s.switch ≢ before → s.shared.full_access_off ≡ true
  pub guarded :
      s.switch ≡ swept
      → (id : Text) (x : Session) → lookup id s.shared.store.sessions ≡ some x
      → is_local x ≡ true
      → (i : ℕ) × Guards (s.conn i).task id

init-Inv : (max_sessions detached_timeout : ℕ) → Inv (init max_sessions detached_timeout)
unfolding Store.new lookup
init-Inv max_sessions detached_timeout = record {
  owned = λ i. refl;
  distinct = tt;
  off = λ n. absurd (n refl);
  guarded = λ e. absurd (ground (arith, e));
}

-- A step that only takes local sessions out of the store.
with_store-Inv :
    (s : System) (store : SessionStore)
    → Inv s
    → Keeps s.shared.store store
    → Inv (with_store s store)
with_store-Inv s store v k = record {
  owned = v.owned;
  distinct = k.distinct v.distinct;
  off = v.off;
  guarded = λ e id x f l. let (y, g, m) = k.kept id x f l in v.guarded e id y g m;
}

update_here : (conn : ℕ → Conn) (i : ℕ) (c : Conn) → update conn i c i ≡ c
unfolding update
update_here conn i c = ground (arith, nat_beq_iff i i)

turn-Inv :
    (s : System) (i : ℕ) (t : Turn)
    → Inv s
    → IsOwned t.conn.phase t.conn.task
    → Answers s.shared (s.conn i).task t
    → Inv (after_turn s i t)
unfolding update
turn-Inv s i t v o (c, e) = record {
  owned = λ j. elim (Bool-cases (nat_beq i j)) [
    | inl same ↦ rw (same, update) o
    | inr other ↦ rw (other, update) (v.owned j)
  ];
  distinct = c.distinct;
  off = λ n. e ∙ v.off n;
  guarded = λ done id x f l. elim (c.covered (v.off (λ b. ground (arith, done, b))) id x f l) [
    | inl g ↦ (i, rw (update_here s.conn i t.conn) g)
    | inr ((y, h, m), n) ↦
        let (j, g) = v.guarded done id y h m in
        elim (Bool-cases (nat_beq i j)) [
          | inl same ↦
              absurd (n (subst (λ k. Guards (s.conn k).task id) (sym ((nat_beq_iff i j).0 same)) g))
          | inr other ↦ (j, rw (other, update) g)
        ]
  ];
}

publish-is_local :
    (result : TrySend) (now : ℕ) (output : _) (s : Session)
    → is_local (publish result now output s).0 ≡ is_local s
unfolding publish is_local
publish-is_local result now output s = refl

kept-remote :
    (o : Option Session) (x : Session)
    → keep_if (λ s. not (is_local s)) o ≡ some x
    → is_local x ≢ true
kept-remote none x e l = ground (arith, e)
kept-remote (some y) x e l = ground (arith, e, l)

Step-Inv :
    (remote_access : RemoteAccess) (ctx : ℕ → ConnCtx) {s t : System}
    → Step remote_access ctx s t
    → Inv s
    → Inv t
unfolding store_flag sweep_local close_local
Step-Inv remote_access ctx {s} (turns i event) v =
    turn-Inv s i (happen remote_access (ctx i) event s.shared (s.conn i)) v
      (happen-IsOwned remote_access (ctx i) event s.shared (s.conn i) (v.owned i))
      (happen-Answers remote_access (ctx i) event s.shared (s.conn i) (v.owned i) v.distinct)
Step-Inv remote_access ctx {s} (flags b) v = record {
  owned = v.owned;
  distinct = v.distinct;
  off = λ n. refl;
  guarded = λ e. absurd (ground (arith, e));
}
Step-Inv remote_access ctx {s} (sweeps answer now b) v = record {
  owned = v.owned;
  distinct = (take_where-Keeps is_local s.shared.store v.distinct).distinct v.distinct;
  off = λ n. v.off (λ e. ground (arith, b, e));
  guarded = λ e id x f l. absurd (
      ground (
        arith,
        f,
        l,
        close_local_exact answer now s.shared.store id v.distinct,
        kept-remote (lookup id s.shared.store.sessions) x,
      ));
}
Step-Inv remote_access ctx {s} (shell_exits handle) v =
    with_store-Inv s _ v (remove_session-Keeps s.shared.store handle)
Step-Inv remote_access ctx {s} (reaps answer now) v =
    with_store-Inv s _ v (reap_at-Keeps answer now s.shared.store v.distinct)
Step-Inv remote_access ctx {s} (publishes id session result now output e) v =
    with_store-Inv s _ v
      (insert-Keeps s.shared.store id session _ e (publish-is_local result now output session))

Reach-Inv :
    (remote_access : RemoteAccess) (ctx : ℕ → ConnCtx) {start s : System}
    → Inv start
    → Reach remote_access ctx start s
    → Inv s
Reach-Inv remote_access ctx v starts = v
Reach-Inv remote_access ctx v (later r st) =
    Step-Inv remote_access ctx st (Reach-Inv remote_access ctx v r)

-- Access without SSH is switched off while any number of connections open shells, in any interleaving of their calls,
-- the handler that stores the flag and then sweeps the store, the shells and the reaper: once the sweep is done, a
-- session without SSH that is still in the store belongs to a call that has yet to check again, so that there is none
-- as soon as no call is at that point.
pub swept-Guards :
    (remote_access : RemoteAccess) (ctx : ℕ → ConnCtx) (max_sessions detached_timeout : ℕ)
    (s : System)
    → Reach remote_access ctx (init max_sessions detached_timeout) s
    → s.switch ≡ swept
    → (id : Text) (x : Session) → lookup id s.shared.store.sessions ≡ some x
    → is_local x ≡ true
    → (i : ℕ) × Guards (s.conn i).task id
swept-Guards remote_access ctx max_sessions detached_timeout s r =
    (Reach-Inv remote_access ctx (init-Inv max_sessions detached_timeout) r).guarded
