-- ===== src/FileApi/Whole.antt =====
-- The outcome of a write of monitor/src/api/fs.rs, from the file it is parked in to the reply.
use azad_server_box.Prelude.{
  ℕ, ◌+◌, ◌≡◌, ◌≢◌, inl, inr, refl, Option, none, some, List, [], ◌∷◌, arith, length, Option-cases,
  Text, ok, All, Bool-cases, ltb, sym, ◌∙◌,
}
use azad_server_box.Prelude.Map.{Map, lookup-insert}
use azad_server_box.FsRoots.{FilePath, resolve_new}
use azad_server_box.RemoteAccess.{Fs}
use azad_server_box.FileApi.{
  FsCall, creates_new, appends, flushes, World, Os, File, perform, effect, Reply, failed, wrote,
}
use azad_server_box.FileApi.Paths.{
  path_eq, path_beq_iff, staging_path, staging_suffix, push_text-differs,
}
use azad_server_box.FileApi.Writing.{receive, finish, abandon, write_to, write}
use azad_server_box.FileApi.Effects.{Spares, Spares-trans, perform-Spares, perform-ok}
use azad_server_box.FileApi.Parking.{arrived, Parks, Received, receive-Received, receive-Spares}
use azad_server_box.FileApi.Atomic.{IsWhole, abandon-IsWhole, move_over-IsWhole}

-- Receiving never claims success.
receive-refused :
    (os : Os) (staging : FilePath) (limit : ℕ) (body : List (Option (List ℕ))) (written : ℕ)
    (w : World) (reply : Reply) (k : ℕ)
    → (receive os staging limit body written w).0 ≡ some reply
    → reply ≢ wrote k
unfolding receive
receive-refused os staging limit [] written w reply k h e = ground (arith, h)
receive-refused os staging limit (none ∷ body) written w reply k h e = ground (arith, h, e)
receive-refused os staging limit (some bytes ∷ body) written w reply k h e = ground (
  arith,
  h,
  e,
  receive-refused os staging limit body (written + length bytes)
      (perform os (FsCall.appends staging written bytes) w).1 reply k,
)

finish-IsWhole :
    (os : Os) (path staging : FilePath) (limit : ℕ) (bytes : List ℕ) (before : Map FilePath File)
    (p : Option Reply × ℕ × World)
    → staging ≢ path
    → Spares staging before p.2.disk
    → ((reply : Reply) (k : ℕ) → p.0 ≡ some reply → reply ≢ wrote k)
    → (p.0 ≡ none → Received os staging limit 0 [] bytes p)
    → IsWhole path staging bytes limit before (finish os path staging p)
unfolding finish effect
finish-IsWhole os path staging limit bytes before (some reply, written, w) apart s n v =
    abandon-IsWhole os path staging bytes limit before reply w (λ k. n reply k refl) s
finish-IsWhole os path staging limit bytes before (none, written, w) apart s n v =
    let got = v refl in
    let flushed =
      Spares-trans staging before w.disk _ s (perform-Spares os staging (flushes staging) w tt) in
    elim (Option-cases (perform os (flushes staging) w).0) [
      | inr (error, bad) ↦
          rw (bad, finish)
            (abandon-IsWhole os path staging bytes limit before (failed error) _
              (λ k e. ground (arith, e)) flushed)
      | inl good ↦
          let sized : written ≡ length bytes = omega (arith, got.counted) in
          rw (good, finish)
            (move_over-IsWhole os path staging bytes limit before written
              (perform os (flushes staging) w).1 apart sized (omega (arith, got.fits, sized))
              flushed (rw (perform-ok os (flushes staging) w good).0 got.parked))
    ]

created-Parks :
    (os : Os) (staging : FilePath) (w : World)
    → (perform os (creates_new staging) w).0 ≡ none
    → Parks staging [] (perform os (creates_new staging) w).1.disk
unfolding effect
created-Parks os staging w good = rw (perform-ok os (creates_new staging) w good).0 (record {
  file = record { bytes = []; mode = 0 };
  there = ground (
    arith,
    lookup-insert staging staging (record { bytes = []; mode = 0 }) w.disk,
    path_beq_iff staging staging,
  );
  content = refl;
})

-- Every chunk of a body arrived.
abbrev pub AllArrived : List (Option (List ℕ)) → Type 0
AllArrived = All (λ chunk. chunk ≢ none)

receive-AllArrived :
    (os : Os) (staging : FilePath) (limit : ℕ) (body : List (Option (List ℕ))) (written : ℕ)
    (w : World)
    → (receive os staging limit body written w).0 ≡ none
    → AllArrived body
unfolding receive
receive-AllArrived os staging limit [] written w h = tt
receive-AllArrived os staging limit (none ∷ body) written w h = absurd (ground (arith, h))
receive-AllArrived os staging limit (some bytes ∷ body) written w h =
    elim (Bool-cases (ltb limit (written + length bytes))) [
      | inl over ↦ absurd (ground (arith, h, over))
      | inr room ↦ elim (Option-cases (perform os (appends staging written bytes) w).0) [
        | inr (error, bad) ↦ absurd (ground (arith, h, room, bad))
        | inl good ↦ (
          λ e. ground (arith, e),
          receive-AllArrived os staging limit body (written + length bytes)
              (perform os (appends staging written bytes) w).1 (rw (room, receive, good) at h),
        )
      ]
    ]

-- A write that is reported done was received as a whole.
write_to-AllArrived :
    (os : Os) (limit : ℕ) (path staging : FilePath) (body : List (Option (List ℕ))) (w : World)
    (k : ℕ)
    → (write_to os limit path staging body w).0 ≡ wrote k
    → AllArrived body
unfolding write_to finish abandon
write_to-AllArrived os limit path staging body w k h =
    let created : World = (perform os (creates_new staging) w).1 in
    elim (Option-cases (perform os (creates_new staging) w).0) [
      | inr (error, bad) ↦ absurd (ground (arith, h, bad))
      | inl good ↦ elim (Option-cases (receive os staging limit body 0 created).0) [
        | inl whole ↦ receive-AllArrived os staging limit body 0 created whole
        | inr (reply, failure) ↦ absurd (
            receive-refused os staging limit body 0 created reply k failure (
              sym (finished reply k (receive os staging limit body 0 created) failure)
              ∙ rw (good, write_to) at h))
      ]
    ]
  where
    finished :
        (reply : Reply) (k : ℕ) (p : Option Reply × ℕ × World)
        → p.0 ≡ some reply
        → (finish os path staging p).0 ≡ reply
    finished reply k (some other, written, w) e = ground (arith, e)
    finished reply k (none, written, w) e = absurd (ground (arith, e))

-- Whatever fails, and wherever: a write that is reported done has replaced its destination by the whole body, within the
-- limit, and has left nothing parked; any other leaves the destination and every file but the parked one as they were.
pub write_to-IsWhole :
    (os : Os) (limit : ℕ) (path staging : FilePath) (body : List (Option (List ℕ))) (w : World)
    → staging ≢ path
    → IsWhole path staging (arrived body) limit w.disk (write_to os limit path staging body w)
unfolding write_to
write_to-IsWhole os limit path staging body w apart =
    let created : World = (perform os (creates_new staging) w).1 in
    let spared = perform-Spares os staging (creates_new staging) w refl in
    elim (Option-cases (perform os (creates_new staging) w).0) [
      | inr (error, bad) ↦ rw (bad, write_to) (inr (λ k e. ground (arith, e), spared))
      | inl good ↦
          rw (good, write_to)
            (finish-IsWhole os path staging limit (arrived body) w.disk
              (receive os staging limit body 0 created) apart
              (Spares-trans staging w.disk created.disk _ spared
                (receive-Spares os staging limit body 0 created))
              (λ reply k h. receive-refused os staging limit body 0 created reply k h)
              (λ h.
                receive-Received os staging limit body 0 [] created
                  (created-Parks os staging w good) (omega arith) h))
    ]

-- The same of a request: a write whose path resolves parks its bytes beside the destination. One that is reported done has received
-- every chunk of the body and replaced the destination by all of it, within the limit, and has left nothing parked; any other
-- leaves the destination and every file but the parked one as they were, wherever it fails.
pub write-IsWhole :
    (os : Os) (fs : Fs) (pid n : ℕ) (requested : Text) (body : List (Option (List ℕ))) (w : World)
    (path : FilePath)
    → resolve_new os.canonicalize fs.roots requested ≡ ok path
    → let result = write os fs pid n requested body w in
      IsWhole path (staging_path pid n path) (arrived body) fs.max_write_bytes w.disk result
      × ((k : ℕ) → result.0 ≡ wrote k → AllArrived body)
unfolding write staging_path staging_suffix
write-IsWhole os fs pid n requested body w path e =
    rw (e, write)
      (
        write_to-IsWhole os fs.max_write_bytes path (staging_path pid n path) body w
            (push_text-differs _ _ path),
        λ k h. write_to-AllArrived os fs.max_write_bytes path (staging_path pid n path) body w k h,
      )
