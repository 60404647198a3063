-- ===== src/Status/Usage.antt =====
-- The usage of all disks (crates/sbm_parser/src/types.rs, `disk_usage`): a sum over the devices.
use azad_server_box.Prelude.{
  ℕ, ◌+◌, ◌≡◌, refl, sym, ap, ◌∙◌, Bool, true, false, none, some, List, [], ◌∷◌, ◌++◌, ◌&&◌, ◌||◌,
  not, nat_beq, map, any, if◌then◌else◌, Text, text_eq, codes, ◌==◌,
}
use azad_server_box.Status.{
  DiskInfo, Disk, disk, Disks, no_disks, more_disks, disk_should_calc, Tally, count, visit,
  visit_all,
}

-- The disks that are looked at, each before its children: a kernel mount or a virtual file system is left out with all
-- below it, and a disk with sizes of its own hides its children.
unfoldable mutual
  pub reached : Disk → List DiskInfo
  reached (disk i children) =
      let below = if nat_beq i.used 0 && nat_beq i.size 0 then reached_all children else [] in
      if disk_should_calc i.path i.mount then i ∷ below else []

  pub reached_all : Disks → List DiskInfo
  reached_all no_disks = []
  reached_all (more_disks d ds) = reached d ++ reached_all ds

-- What tells devices apart: the path and the name in the kernel.
abbrev pub label : DiskInfo → Text
label i = i.path ++ b':' ∷ elim i.kname [ none ↦ codes "unknown" | some kname ↦ kname ]

-- The first disk of each label that was not seen before.
abbrev pub firsts : List Text → List DiskInfo → List DiskInfo
firsts seen [] = []
firsts seen (i ∷ more) =
    let rest = firsts seen more in
    let fresh = firsts (label i ∷ seen) more in
    if any (λ other. other == label i) seen then rest else i ∷ fresh

abbrev pub sum : List ℕ → ℕ
sum [] = 0
sum (n ∷ ns) = n + sum ns

abbrev counted : List DiskInfo → Tally → Tally
counted [] t = t
counted (i ∷ more) t = counted more (count i t)

counted-append : (a b : List DiskInfo) (t : Tally) → counted (a ++ b) t ≡ counted b (counted a t)
counted-append [] b t = refl
counted-append (i ∷ a) b t = counted-append a b (count i t)

node_counted :
    (calc no_used no_size : Bool) (i : DiskInfo) (below : List DiskInfo) (t visited : Tally)
    → visited ≡ counted below (count i t)
    → (if calc then (if not no_used || not no_size then count i t else visited) else t)
      ≡ counted (if calc then i ∷ (if no_used && no_size then below else []) else []) t
node_counted false no_used no_size i below t visited h = refl
node_counted true false no_size i below t visited h = refl
node_counted true true false i below t visited h = refl
node_counted true true true i below t visited h = h

mutual
  unfolding visit reached

  visit-counted : (d : Disk) (t : Tally) → visit d t ≡ counted (reached d) t
  visit-counted (disk i children) t =
      node_counted (disk_should_calc i.path i.mount) (nat_beq i.used 0) (nat_beq i.size 0) i
        (reached_all children) t (visit_all children (count i t))
        (visit_all-counted children (count i t))

  visit_all-counted : (ds : Disks) (t : Tally) → visit_all ds t ≡ counted (reached_all ds) t
  visit_all-counted no_disks t = refl
  visit_all-counted (more_disks d ds) t =
      visit_all-counted ds (visit d t)
      ∙ ap (counted (reached_all ds)) (visit-counted d t)
      ∙ sym (counted-append (reached d) (reached_all ds) t)

-- What a tally comes to after these disks.
abbrev Totals : List DiskInfo → Tally → Tally → Type 0
Totals is t after =
    (after.used ≡ t.used + sum (map (λ i. i.used) (firsts t.seen is)))
    × (after.size ≡ t.size + sum (map (λ i. i.size) (firsts t.seen is)))
