-- ===== src/KnownHosts/Pinning.antt =====
-- Interleaved calls of `verify` (monitor/src/ssh/known_hosts.rs).
use azad_server_box.Prelude.{
  ℕ, zero, suc, Bool, true, false, ◌≡◌, ◌≢◌, refl, ap, ◌∙◌, subst, Bool-cases, Option-cases, inl,
  inr, Option, none, some, List, [], ◌∷◌, All, Text, text_eq, text_beq, text_beq_iff,
}
use azad_server_box.Prelude.Map.{lookup, insert, lookup-insert}
use azad_server_box.KnownHosts.{
  Verdict, known, pinned, mismatch, KnownHosts, insert_or_ignore, compare_key, Phase, checking,
  pinning, comparing, returned, no_row, Connection, check_existing, compare_winner, pin, advance,
  advance_nth, sql_error,
}

-- Which call runs its next statement, and whether the database answers it.
abbrev pub Schedule : Type 0
Schedule = List (ℕ × Bool)

abbrev pub run : Schedule → List Connection → KnownHosts → List Connection × KnownHosts
run [] cs hosts = (cs, hosts)
run ((n, answered) ∷ schedule) cs hosts =
    let (next, after) = advance_nth answered n cs hosts in run schedule next after

-- What a verdict says of the record.
abbrev pub IsTrue : Verdict → Text → Option Text → Type 0
IsTrue known actual row = row ≡ some actual
IsTrue pinned actual row = row ≡ some actual
IsTrue (mismatch expected shown) actual row =
    (row ≡ some expected) × (shown ≡ actual) × (expected ≢ actual)

abbrev pub Agrees : Phase → Text → Option Text → Type 0
Agrees checking actual row = Unit
Agrees pinning actual row = Unit
Agrees comparing actual row = (f : Text) × (row ≡ some f)
Agrees (returned v) actual row = IsTrue v actual row
Agrees no_row actual row = ⊥
Agrees sql_error actual row = Unit

abbrev pub Extends : KnownHosts → KnownHosts → Type 0
Extends hosts after = (addr f : Text) → lookup addr hosts ≡ some f → lookup addr after ≡ some f

insert-Extends :
    (addr f : Text) (hosts : KnownHosts)
    → lookup addr hosts ≡ none
    → Extends hosts (insert addr f hosts)
insert-Extends addr f hosts fresh k g h = elim (Bool-cases (text_beq addr k)) [
  | inl e ↦ absurd (
      let same = (text_beq_iff addr k).0 e in
      let row : lookup k hosts ≡ none = subst (λ a. lookup a hosts ≡ none) same fresh in
      cc (row, h))
  | inr e ↦ lookup-insert addr k f hosts ∙ rw e h
]

advance-Extends :
    (answered : Bool) (phase : Phase) (c : Connection) (hosts : KnownHosts)
    → Extends hosts (advance answered phase c hosts).1
unfolding advance pin insert_or_ignore
advance-Extends true checking c hosts k f h = h
advance-Extends true pinning c hosts k f h = elim (Option-cases (lookup c.addr hosts)) [
  | inl e ↦ rw (e, insert_or_ignore) (insert-Extends c.addr c.actual hosts e k f h)
  | inr (g, e) ↦ rw (e, insert_or_ignore) h
]
advance-Extends true comparing c hosts k f h = h
advance-Extends answered (returned v) c hosts k f h = h
advance-Extends answered no_row c hosts k f h = h
advance-Extends answered sql_error c hosts k f h = h
advance-Extends false checking c hosts k f h = h
advance-Extends false pinning c hosts k f h = h
advance-Extends false comparing c hosts k f h = h

Agrees-Extends :
    (phase : Phase) (addr actual : Text) (hosts after : KnownHosts)
    → Extends hosts after
    → Agrees phase actual (lookup addr hosts)
    → Agrees phase actual (lookup addr after)
Agrees-Extends checking addr actual hosts after x h = tt
Agrees-Extends pinning addr actual hosts after x h = tt
Agrees-Extends comparing addr actual hosts after x (f, h) = (f, x addr f h)
Agrees-Extends (returned known) addr actual hosts after x h = x addr actual h
Agrees-Extends (returned pinned) addr actual hosts after x h = x addr actual h
Agrees-Extends (returned (mismatch e s)) addr actual hosts after x (h, k, l) = (x addr e h, k, l)
Agrees-Extends no_row addr actual hosts after x h = h
Agrees-Extends sql_error addr actual hosts after x h = h

compare_key-IsTrue :
    (expected actual : Text) → IsTrue (compare_key expected actual) actual (some expected)
compare_key-IsTrue expected actual = elim (Bool-cases (text_beq expected actual)) [
  | inl e ↦ rw e (ap some ((text_beq_iff expected actual).0 e))
  | inr e ↦ rw e (refl, refl, λ same. cc ((text_beq_iff expected actual).1 same, e))
]

lookup-insert_self :
    (addr f : Text) (hosts : KnownHosts) → lookup addr (insert addr f hosts) ≡ some f
lookup-insert_self addr f hosts =
    lookup-insert addr addr f hosts ∙ rw ((text_beq_iff addr addr).1 refl) refl

advance-Agrees :
    (answered : Bool) (phase : Phase) (c : Connection) (hosts : KnownHosts)
    → Agrees phase c.actual (lookup c.addr hosts)
    → Agrees
        (advance answered phase c hosts).0
        c.actual
        (lookup c.addr (advance answered phase c hosts).1)
unfolding advance pin insert_or_ignore check_existing compare_winner
advance-Agrees true checking c hosts h = elim (Option-cases (lookup c.addr hosts)) [
  | inl e ↦ rw (e, check_existing) tt
  | inr (f, e) ↦ rw (e, check_existing) (compare_key-IsTrue f c.actual)
]
advance-Agrees true pinning c hosts h = elim (Option-cases (lookup c.addr hosts)) [
  | inl e ↦ rw (e, insert_or_ignore) (lookup-insert_self c.addr c.actual hosts)
  | inr (f, e) ↦ rw (e, insert_or_ignore) (f, e)
]
advance-Agrees true comparing c hosts (f, h) =
    rw (h, compare_winner) (compare_key-IsTrue f c.actual)
advance-Agrees answered (returned v) c hosts h = h
advance-Agrees answered no_row c hosts h = h
advance-Agrees answered sql_error c hosts h = h
advance-Agrees false checking c hosts h = tt
advance-Agrees false pinning c hosts h = tt
advance-Agrees false comparing c hosts h = tt

unfoldable pub AllAgree : KnownHosts → List Connection → Type 0
AllAgree hosts = All (λ c. Agrees c.phase c.actual (lookup c.addr hosts))

AllAgree-Extends :
    (hosts after : KnownHosts) (cs : List Connection)
    → Extends hosts after
    → AllAgree hosts cs
    → AllAgree after cs
unfolding AllAgree
AllAgree-Extends hosts after [] x h = tt
AllAgree-Extends hosts after (c ∷ cs) x h = (
  Agrees-Extends c.phase c.addr c.actual hosts after x h.0,
  AllAgree-Extends hosts after cs x h.1,
)

advance_nth-Extends :
    (answered : Bool) (n : ℕ) (cs : List Connection) (hosts : KnownHosts)
    → Extends hosts (advance_nth answered n cs hosts).1
unfolding advance_nth
advance_nth-Extends answered n [] hosts = λ k f h. h
advance_nth-Extends answered zero (c ∷ cs) hosts = advance-Extends answered c.phase c hosts
advance_nth-Extends answered (suc n) (c ∷ cs) hosts = advance_nth-Extends answered n cs hosts

advance_nth-AllAgree :
    (answered : Bool) (n : ℕ) (cs : List Connection) (hosts : KnownHosts)
    → AllAgree hosts cs
    → AllAgree (advance_nth answered n cs hosts).1 (advance_nth answered n cs hosts).0
unfolding advance_nth AllAgree
advance_nth-AllAgree answered n [] hosts h = tt
advance_nth-AllAgree answered zero (c ∷ cs) hosts h = (
  advance-Agrees answered c.phase c hosts h.0,
  AllAgree-Extends hosts (advance answered c.phase c hosts).1 cs
      (advance-Extends answered c.phase c hosts) h.1,
)
advance_nth-AllAgree answered (suc n) (c ∷ cs) hosts h = (
  Agrees-Extends c.phase c.addr c.actual hosts (advance_nth answered n cs hosts).1
      (advance_nth-Extends answered n cs hosts) h.0,
  advance_nth-AllAgree answered n cs hosts h.1,
)

pub run-AllAgree :
    (schedule : Schedule) (cs : List Connection) (hosts : KnownHosts)
    → AllAgree hosts cs
    → AllAgree (run schedule cs hosts).1 (run schedule cs hosts).0
run-AllAgree [] cs hosts h = h
run-AllAgree ((n, answered) ∷ schedule) cs hosts h =
    run-AllAgree schedule (advance_nth answered n cs hosts).0 (advance_nth answered n cs hosts).1
      (advance_nth-AllAgree answered n cs hosts h)

-- A call for an address and a shown key.
abbrev pub open_all : List (Text × Text) → List Connection
open_all [] = []
open_all ((addr, actual) ∷ calls) =
    record { addr = addr; actual = actual; phase = checking } ∷ open_all calls

pub open_all-AllAgree :
    (hosts : KnownHosts) (calls : List (Text × Text)) → AllAgree hosts (open_all calls)
unfolding AllAgree
open_all-AllAgree hosts [] = tt
open_all-AllAgree hosts ((addr, actual) ∷ calls) = (tt, open_all-AllAgree hosts calls)

-- However the statements of any number of calls are interleaved, and whichever of them fail, a call that has returned known or pinned showed the key that is now on
-- record for its address, one that returned a mismatch reports the key on record and its own, which differ, and no call
-- finds the row missing that it lost the race for.
pub verdicts_true :
    (calls : List (Text × Text)) (schedule : Schedule) (hosts : KnownHosts)
    → let (cs, after) = run schedule (open_all calls) hosts in
      All (λ c. Agrees c.phase c.actual (lookup c.addr after)) cs
unfolding AllAgree
verdicts_true calls schedule hosts =
    run-AllAgree schedule (open_all calls) hosts (open_all-AllAgree hosts calls)

-- A key on record is never replaced, whatever keys any calls show in any interleaving and whichever statements fail.
pub never_repinned :
    (schedule : Schedule) (cs : List Connection) (hosts : KnownHosts) (addr f : Text)
    → lookup addr hosts ≡ some f
    → lookup addr (run schedule cs hosts).1 ≡ some f
never_repinned [] cs hosts addr f h = h
never_repinned ((n, answered) ∷ schedule) cs hosts addr f h =
    never_repinned schedule (advance_nth answered n cs hosts).0 (advance_nth answered n cs hosts).1
      addr f (advance_nth-Extends answered n cs hosts addr f h)
