-- ===== src/FileApi/Parking.antt =====
-- What the body of a write of monitor/src/api/fs.rs leaves in the file where it is parked.
use azad_server_box.Prelude.{
  ℕ, ◌+◌, ◌≤◌, ◌≡◌, inl, inr, refl, ap, Option, none, some, List, [], ◌∷◌, ◌++◌, arith, Bool-cases,
  Option-cases, ltb, length, length-append,
}
use mathlib.Core.List.{append_assoc, append-nil}
use azad_server_box.Prelude.Map.{Map, lookup, lookup-insert}
use azad_server_box.FsRoots.{FilePath}
use azad_server_box.FileApi.{FsCall, appends, World, Os, File, perform, effect, Reply}
use azad_server_box.FileApi.Paths.{path_eq, path_beq_iff}
use azad_server_box.FileApi.Writing.{receive}
use azad_server_box.FileApi.Effects.{Spares, Spares-refl, Spares-trans, perform-Spares, perform-ok}

-- The bytes of a body whose chunks all arrive.
abbrev pub arrived : List (Option (List ℕ)) → List ℕ
arrived [] = []
arrived (none ∷ body) = arrived body
arrived (some bytes ∷ body) = bytes ++ arrived body

-- The parked file holds these bytes.
pub record Parks (staging : FilePath) (bytes : List ℕ) (disk : Map FilePath File) : Type 0 where
  pub file : File
  pub there : lookup staging disk ≡ some file
  pub content : file.bytes ≡ bytes

append-Parks :
    (os : Os) (staging : FilePath) (at : ℕ) (bytes more : List ℕ) (w : World)
    → Parks staging bytes w.disk
    → (perform os (appends staging at more) w).0 ≡ none
    → Parks staging (bytes ++ more) (perform os (appends staging at more) w).1.disk
unfolding effect
append-Parks os staging at bytes more w v h = record {
  file = record (v.file) { bytes = v.file.bytes ++ more };
  there =
      rw ((perform-ok os (appends staging at more) w h).0, v.there, effect)
        (ground (
          arith,
          lookup-insert staging staging (record (v.file) { bytes = v.file.bytes ++ more }) w.disk,
          path_beq_iff staging staging,
        ));
  content = ap (λ l. l ++ more) v.content;
}

-- What a body that was received as a whole leaves.
pub record Received (os : Os) (staging : FilePath) (limit written : ℕ) (before body : List ℕ)
    (p : Option Reply × ℕ × World) : Type 0 where
  pub parked : Parks staging (before ++ body) p.2.disk
  pub counted : p.1 ≡ written + length body
  pub fits : p.1 ≤ limit

pub receive-Received :
    (os : Os) (staging : FilePath) (limit : ℕ) (body : List (Option (List ℕ))) (written : ℕ)
    (before : List ℕ) (w : World)
    → Parks staging before w.disk
    → written ≤ limit
    → (receive os staging limit body written w).0 ≡ none
    → Received os staging limit written before
        (arrived body)
        (receive os staging limit body written w)
unfolding receive
receive-Received os staging limit [] written before w v l h = record {
  parked = rw append-nil v;
  counted = omega arith;
  fits = l;
}
receive-Received os staging limit (none ∷ body) written before w v l h = absurd (ground (arith, h))
receive-Received os staging limit (some bytes ∷ body) written before w v l h =
    elim (Bool-cases (ltb limit (written + length bytes))) [
      | inl over ↦ absurd (ground (arith, h, over))
      | inr room ↦ elim (Option-cases (perform os (appends staging written bytes) w).0) [
        | inr (error, bad) ↦ absurd (ground (arith, h, room, bad))
        | inl good ↦
            let rest =
              receive-Received os staging limit body (written + length bytes) (before ++ bytes)
                (perform os (appends staging written bytes) w).1
                (append-Parks os staging written before bytes w v good) (ground (arith, room))
                (rw (room, receive, good) at h) in
            rw (room, receive, good)
              (record {
                parked = rw append_assoc at rest.parked;
                counted = omega (arith, rest.counted, length-append bytes (arrived body));
                fits = rest.fits;
              })
      ]
    ]

pub receive-Spares :
    (os : Os) (staging : FilePath) (limit : ℕ) (body : List (Option (List ℕ))) (written : ℕ)
    (w : World)
    → Spares staging w.disk (receive os staging limit body written w).2.disk
unfolding receive
receive-Spares os staging limit [] written w = Spares-refl staging w.disk
receive-Spares os staging limit (none ∷ body) written w = Spares-refl staging w.disk
receive-Spares os staging limit (some bytes ∷ body) written w =
    let call : FsCall = appends staging written bytes in
    let after = perform-Spares os staging call w refl in
    elim (Bool-cases (ltb limit (written + length bytes))) [
      | inl over ↦ rw (over, receive) (Spares-refl staging w.disk)
      | inr room ↦ elim (Option-cases (perform os call w).0) [
        | inl good ↦
            rw (room, receive, good)
              (Spares-trans staging w.disk (perform os call w).1.disk _ after (
                receive-Spares os staging limit body (written + length bytes)
                  (perform os call w).1))
        | inr (error, bad) ↦ rw (room, receive, bad) after
      ]
    ]
