-- ===== src/FsRoots/Confinement.antt =====
-- What fs_roots.rs is for: no answer outside the configured roots, and no name that climbs.
use azad_server_box.Prelude.{
  ◌≡◌, ◌⊎◌, inl, inr, refl, subst, sym, ap, ◌∙◌, Bool, true, false, ◌||◌, Option, none, some, List,
  [], ◌∷◌, ◌++◌, Bool-cases, Option-cases, any, if◌then◌else◌, Text, text_beq, text_beq_iff, ◌==◌,
  text_eq, ok, err, arith,
}
use azad_server_box.FsRoots.{
  FilePath, outside_roots, traversal, FsRoots, parent_dir, cur_dir, components, is_absolute,
  starts_with, check_absolute, check_within, split_last, push_tail, canonical, resolve_existing,
  find_anchor, resolve_new, entry_in, resolve_entry, resolve_split,
}
use azad_server_box.Prelude.Try.{bind-ok}
use mathlib.Core.List.{reverse, append_assoc, append-nil, reverse-cons, reverse-reverse}

-- The path is one of the roots or below one.
abbrev pub IsUnder : List FilePath → FilePath → Type 0
IsUnder [] path = ⊥
IsUnder (root ∷ roots) path = ((rest : FilePath) × (path ≡ root ++ rest)) ⊎ IsUnder roots path

starts_with-prefix :
    (path root : FilePath)
    → starts_with path root ≡ true
    → (rest : FilePath) × (path ≡ root ++ rest)
unfolding starts_with
starts_with-prefix path [] h = (path, refl)
starts_with-prefix [] (r ∷ root) h = absurd (ground (arith, h))
starts_with-prefix (p ∷ path) (r ∷ root) h = elim (Bool-cases (text_beq p r)) [
  | inl e ↦
      let (rest, e2) = starts_with-prefix path root (ground (arith, h, e)) in
      (rest, cc (e2, (text_beq_iff p r).0 e))
  | inr e ↦ absurd (ground (arith, h, e))
]

any-IsUnder :
    (roots : List FilePath) (path : FilePath)
    → any (λ root. starts_with path root) roots ≡ true
    → IsUnder roots path
any-IsUnder [] path h = absurd (ground (arith, h))
any-IsUnder (root ∷ roots) path h = elim (Bool-cases (starts_with path root)) [
  | inl e ↦ inl (starts_with-prefix path root e)
  | inr e ↦ inr (any-IsUnder roots path (ground (arith, h, e)))
]

pub IsUnder-extend :
    (roots : List FilePath) (path more : FilePath)
    → IsUnder roots path
    → IsUnder roots (path ++ more)
IsUnder-extend [] path more u = u
IsUnder-extend (root ∷ roots) path more (inl (rest, e)) =
    inl (rest ++ more, ap (λ p. p ++ more) e ∙ append_assoc root rest more)
IsUnder-extend (root ∷ roots) path more (inr u) = inr (IsUnder-extend roots path more u)

within-IsUnder :
    (fs : FsRoots) (path found : FilePath)
    → check_within fs path ≡ ok found
    → (path ≡ found) × IsUnder fs.roots found
unfolding check_within
within-IsUnder fs path found h = elim (Bool-cases (any (λ root. starts_with path root) fs.roots)) [
  | inl e ↦
      let same : path ≡ found = ground (arith, h, e) in
      (
        same,
        any-IsUnder fs.roots found
            (ap (λ p. any (λ root. starts_with p root) fs.roots) (sym same) ∙ e),
      )
  | inr e ↦ absurd (ground (arith, h, e))
]

push_tail-extends :
    (resolved : FilePath) (names : List Text) (path : FilePath)
    → push_tail resolved names ≡ ok path
    → path ≡ resolved ++ names
unfolding push_tail
push_tail-extends resolved [] path h = ground (arith, h, append-nil resolved)
push_tail-extends resolved (name ∷ names) path h =
    elim (Bool-cases (text_beq name parent_dir || text_beq name cur_dir)) [
      | inl e ↦ absurd (ground (arith, h, e))
      | inr e ↦
          push_tail-extends (resolved ++ name ∷ []) names path (ground (arith, h, e))
          ∙ append_assoc resolved (name ∷ []) names
    ]

shift :
    (name : Text) (parent tail : List Text)
    → reverse (name ∷ parent) ++ tail ≡ reverse parent ++ name ∷ tail
shift name parent tail =
    ap (λ l. l ++ tail) (reverse-cons name parent) ∙ append_assoc (reverse parent) (name ∷ []) tail

-- `find_anchor` splits the path at its deepest ancestor that exists.
find_anchor-splits :
    (canonicalize : FilePath → Option FilePath) (cursor : FilePath) (tail : List Text)
    (anchor : FilePath) (names : List Text)
    → find_anchor canonicalize cursor tail ≡ ok (anchor, names)
    → (ancestor : FilePath) × (canonicalize ancestor ≡ some anchor)
      × (reverse cursor ++ tail ≡ ancestor ++ names)
unfolding find_anchor
find_anchor-splits canonicalize [] tail anchor names h = elim (Option-cases (canonicalize [])) [
  | inl e ↦ absurd (ground (arith, h, e))
  | inr (a, e) ↦ ([], ground (arith, h, e), ground (arith, h, e))
]
find_anchor-splits canonicalize (name ∷ parent) tail anchor names h =
    elim (Option-cases (canonicalize (reverse (name ∷ parent)))) [
      | inl e ↦
          let (ancestor, found, split) =
            find_anchor-splits canonicalize parent (name ∷ tail) anchor names
              (ground (arith, h, e)) in
          (ancestor, found, shift name parent tail ∙ split)
      | inr (a, e) ↦ (reverse (name ∷ parent), ground (arith, h, e), ground (arith, h, e))
    ]

if-ok : (b : Bool) (p q : FilePath) → (if b then ok p else err outside_roots) ≡ ok q → p ≡ q
if-ok true p q h = ground (arith, h)
if-ok false p q h = absurd (ground (arith, h))

absolute-components :
    (requested : Text) (path : FilePath)
    → check_absolute requested ≡ ok path
    → path ≡ components requested
unfolding check_absolute
absolute-components requested path h = ground (arith, h)

module _ (canonicalize : FilePath → Option FilePath) (fs : FsRoots) (requested : Text)
    (path : FilePath) where
  -- A path that `resolve_existing` answers is a root or below one.
  pub existing-IsUnder :
      resolve_existing canonicalize fs requested ≡ ok path → IsUnder fs.roots path
  unfolding resolve_existing
  existing-IsUnder h =
      let (asked, _, h1) = bind-ok (check_absolute requested) _ path h in
      let (found, _, h2) = bind-ok (canonical canonicalize asked) _ path h1 in
      (within-IsUnder fs found path h2).1

  -- `resolve_new` answers the real place of an ancestor that exists, which is a root or below one, and then the names
  -- that the request has after that ancestor, unchanged.
  pub new-splits :
      resolve_new canonicalize fs requested ≡ ok path
      → (ancestor : FilePath) × (anchor : FilePath) × (names : List Text) × (canonicalize ancestor
          ≡ some anchor)
        × (components requested ≡ ancestor ++ names)
        × IsUnder fs.roots anchor
        × (path ≡ anchor ++ names)
  unfolding resolve_new
  new-splits h =
      let (asked, e, h1) = bind-ok (check_absolute requested) _ path h in
      let (found, walked, h2) = bind-ok (find_anchor canonicalize (reverse asked) []) _ path h1 in
      let (anchor, within, h3) = bind-ok (check_within fs found.0) _ path h2 in
      let (same, under) = within-IsUnder fs found.0 anchor within in
      let (ancestor, real, split) =
        find_anchor-splits canonicalize (reverse asked) [] found.0 found.1 walked in
      (
        ancestor,
        anchor,
        found.1,
        cc (real, same),
        (cc (
          absolute-components requested asked e,
          reverse-reverse asked,
          append-nil (reverse (reverse asked)),
          split,
        )),
        under,
        push_tail-extends anchor found.1 path h3,
      )

  -- A path that `resolve_new` answers is a root or below one.
  pub new-IsUnder : resolve_new canonicalize fs requested ≡ ok path → IsUnder fs.roots path
  new-IsUnder h =
      let (_, anchor, names, _, _, under, whole) = new-splits h in
      subst (IsUnder fs.roots) (sym whole) (IsUnder-extend fs.roots anchor names under)

  module _ (symlink_metadata : FilePath → Bool) where
    entry_in-IsUnder :
        (parent : FilePath) (name : Text)
        → entry_in canonicalize symlink_metadata fs parent name ≡ ok path
        → IsUnder fs.roots path
    unfolding entry_in
    entry_in-IsUnder parent name h =
        let (found, _, h1) = bind-ok (canonical canonicalize parent) _ path h in
        let (within, inside, h2) = bind-ok (check_within fs found) _ path h1 in
        subst (IsUnder fs.roots)
          (if-ok (symlink_metadata (within ++ name ∷ [])) (within ++ name ∷ []) path h2)
          (IsUnder-extend fs.roots within (name ∷ []) (within-IsUnder fs found within inside).1)

    split-IsUnder :
        (parts : Option (FilePath × Text))
        → resolve_split canonicalize symlink_metadata fs requested parts ≡ ok path
        → IsUnder fs.roots path
    unfolding resolve_split
    split-IsUnder none h = existing-IsUnder h
    split-IsUnder (some (parent, name)) h = entry_in-IsUnder parent name h

    -- A path that `resolve_entry` answers is a root or below one, even where the entry itself is a link that leads out.
    pub entry-IsUnder :
        resolve_entry canonicalize symlink_metadata fs requested ≡ ok path → IsUnder fs.roots path
    unfolding resolve_entry
    entry-IsUnder h =
        let (asked, _, h1) = bind-ok (check_absolute requested) _ path h in
        split-IsUnder (split_last asked) h1

-- A path that names its parent anywhere is refused as a traversal by each of the three ways to resolve a path, whatever is
-- on the disk.
pub parent_dir-traversal :
    (canonicalize : FilePath → Option FilePath) (symlink_metadata : FilePath → Bool) (fs : FsRoots)
    (requested : Text)
    → is_absolute requested ≡ true
    → any (λ c. c == parent_dir) (components requested) ≡ true
    → (resolve_existing canonicalize fs requested ≡ err traversal)
      × (resolve_new canonicalize fs requested ≡ err traversal)
      × (resolve_entry canonicalize symlink_metadata fs requested ≡ err traversal)
unfolding resolve_existing resolve_new resolve_entry check_absolute
parent_dir-traversal canonicalize symlink_metadata fs requested absolute climbs =
    (rw (absolute, climbs) refl, rw (absolute, climbs) refl, rw (absolute, climbs) refl)
