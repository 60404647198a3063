-- ===== src/FsRoots/Tests.antt =====
-- Inputs for fs_roots.rs: a file system with two directories and a link that leads out of one.
use azad_server_box.Prelude.{
  ◌≡◌, refl, true, Option, none, some, List, [], ◌∷◌, ◌++◌, if◌then◌else◌, Text, codes, text_beq,
  err,
}
use azad_server_box.FsRoots.{
  FilePath, FsRoots, resolve_existing, resolve_new, resolve_entry, outside_roots, components,
}
use azad_server_box.FsRoots.Confinement.{IsUnder, entry-IsUnder, new-splits}

abbrev srv : FilePath
srv = codes "srv" ∷ []

abbrev srv_link : FilePath
srv_link = codes "srv" ∷ codes "link" ∷ []

-- `/srv` is there, and `/srv/link` leads to `/etc`.
abbrev disk : FilePath → Option FilePath
disk [] = some []
disk (a ∷ []) = if text_beq a (codes "srv") then some srv else none
disk (a ∷ b ∷ []) =
    if text_beq a (codes "srv")
    then (if text_beq b (codes "link") then some (codes "etc" ∷ []) else none)
    else none
disk (a ∷ b ∷ c ∷ p) = none

abbrev fs : FsRoots
fs = record { roots = srv ∷ [] }

link_resolves_out : resolve_existing disk fs (codes "/srv/link") ≡ err outside_roots
unfolding resolve_existing
link_resolves_out = refl

entry-IsUnder_run : IsUnder fs.roots srv_link
unfolding resolve_entry
entry-IsUnder_run = entry-IsUnder disk fs (codes "/srv/link") srv_link (λ _. true) refl

new-splits_example :
    (ancestor : FilePath) × (anchor : FilePath) × (names : List Text) × (disk ancestor
      ≡ some anchor)
    × (components (codes "/srv/new") ≡ ancestor ++ names)
    × IsUnder fs.roots anchor
    × (srv ++ codes "new" ∷ [] ≡ anchor ++ names)
unfolding resolve_new
new-splits_example = new-splits disk fs (codes "/srv/new") (srv ++ codes "new" ∷ []) refl
