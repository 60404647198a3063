-- ===== src/FsRoots.antt =====
-- monitor/src/core/fs_roots.rs: which paths the file API may reach. A resolved path is the list of its
-- components below `/`. What the operating system answers (`canonicalize`, `symlink_metadata`) is a parameter: a function
-- of the components of the path that is asked about.
mod Tests
pub mod Confinement
use azad_server_box.Prelude.{
  ℕ, ◌≡◌, Bool, true, false, not, ◌||◌, ◌&&◌, Option, none, some, List, [], ◌∷◌, ◌++◌,
  if◌then◌else◌, any, is_empty, Text, codes, nat_beq, Eq, ◌==◌, text_eq, Result, ok, err,
}
use azad_server_box.Prelude.Strings.{split}
use azad_server_box.Prelude.Try.{◌>>=◌}
use mathlib.Core.List.{reverse}

abbrev pub FilePath : Type 0
FilePath = List Text

pub data FsDenied : Type 0 where
  not_absolute outside_roots traversal : FsDenied

pub record FsRoots : Type 0 where
  pub roots : List FilePath

abbrev pub parent_dir : Text
parent_dir = codes ".."

abbrev cur_dir : Text
cur_dir = codes "."

-- The pieces that `Path::components` keeps of an absolute path.
unfoldable pub drop_empty : List Text → List Text
drop_empty [] = []
drop_empty (c ∷ cs) =
    let rest = drop_empty cs in if is_empty c || c == cur_dir then rest else c ∷ rest

unfoldable pub components : Text → List Text
unfolding drop_empty split
components s = drop_empty (split b'/' s)

abbrev pub is_absolute : Text → Bool
is_absolute [] = false
is_absolute (c ∷ s) = nat_beq c b'/'

-- `Path::starts_with`: whole components, from the first.
unfoldable pub starts_with : FilePath → FilePath → Bool
starts_with path [] = true
starts_with [] (r ∷ root) = false
starts_with (p ∷ path) (r ∷ root) = p == r && starts_with path root

unfoldable pub check_absolute : Text → Result FilePath FsDenied
unfolding components
check_absolute requested =
    if not (is_absolute requested)
    then err not_absolute
    else if any (λ c. c == parent_dir) (components requested)
    then err traversal
    else ok (components requested)

unfoldable pub check_within : FsRoots → FilePath → Result FilePath FsDenied
unfolding starts_with
check_within fs path =
    if any (λ root. starts_with path root) fs.roots then ok path else err outside_roots

unfoldable pub is_unrestricted : FsRoots → Bool
is_unrestricted fs = any is_empty fs.roots

pub is_within : FilePath → FilePath → Bool
unfolding starts_with
is_within path root = starts_with path root

unfoldable pub split_last : FilePath → Option (FilePath × Text)
split_last [] = none
split_last (c ∷ cs) = elim (split_last cs) [
  | none ↦ some ([], c)
  | some (parent, name) ↦ some (c ∷ parent, name)
]

-- The loop at the end of `resolve_new`: each name of the tail is pushed, unless it could climb.
unfoldable pub push_tail : FilePath → List Text → Result FilePath FsDenied
push_tail resolved [] = ok resolved
push_tail resolved (name ∷ names) =
    let rest = push_tail (resolved ++ name ∷ []) names in
    if name == parent_dir || name == cur_dir then err traversal else rest

-- `Display`, which is what a client is told.
unfoldable pub describe : FsDenied → Text
describe not_absolute = codes "path must be absolute"
describe outside_roots = codes "path is outside the configured roots"
describe traversal = codes "path escapes its root"

-- `FsRoots::resolve`: the roots that are there. A configured root is a text, which may be relative.
unfoldable pub resolve_roots : (Text → Option FilePath) → List Text → List FilePath
resolve_roots canonicalize [] = []
resolve_roots canonicalize (raw ∷ configured) =
    let rest = resolve_roots canonicalize configured in
    elim (canonicalize raw) [ none ↦ rest | some path ↦ path ∷ rest ]

module _ (canonicalize : FilePath → Option FilePath) where
  unfoldable pub canonical : FilePath → Result FilePath FsDenied
  canonical path = elim (canonicalize path) [ none ↦ err outside_roots | some p ↦ ok p ]

  unfoldable pub resolve_existing : FsRoots → Text → Result FilePath FsDenied
  unfolding check_absolute check_within canonical
  resolve_existing fs requested = do
    path ← check_absolute requested
    found ← canonical path
    check_within fs found

  -- The walk to the deepest ancestor that exists. The cursor is reversed, so its last name stands first; the tail has the
  -- names that were passed, the one nearest the anchor first.
  unfoldable pub find_anchor : FilePath → List Text → Result (FilePath × List Text) FsDenied
  find_anchor [] tail = elim (canonicalize []) [
    | none ↦ err outside_roots
    | some anchor ↦ ok (anchor, tail)
  ]
  find_anchor (name ∷ parent) tail =
      let further = find_anchor parent (name ∷ tail) in
      elim (canonicalize (reverse (name ∷ parent))) [
        | none ↦ further
        | some anchor ↦ ok (anchor, tail)
      ]

  unfoldable pub resolve_new : FsRoots → Text → Result FilePath FsDenied
  unfolding check_absolute check_within find_anchor push_tail
  resolve_new fs requested = do
    path ← check_absolute requested
    found ← find_anchor (reverse path) []
    resolved ← check_within fs found.0
    push_tail resolved found.1

  module _ (symlink_metadata : FilePath → Bool) where
    unfoldable pub entry_in : FsRoots → FilePath → Text → Result FilePath FsDenied
    unfolding check_within canonical
    entry_in fs parent name = do
      found ← canonical parent
      within ← check_within fs found
      if symlink_metadata (within ++ name ∷ []) then ok (within ++ name ∷ []) else err outside_roots

    -- `/` itself has no parent to resolve.
    unfoldable pub resolve_split :
        FsRoots → Text → Option (FilePath × Text) → Result FilePath FsDenied
    unfolding resolve_existing entry_in
    resolve_split fs requested none = resolve_existing fs requested
    resolve_split fs requested (some (parent, name)) = entry_in fs parent name

    unfoldable pub resolve_entry : FsRoots → Text → Result FilePath FsDenied
    unfolding check_absolute split_last resolve_split
    resolve_entry fs requested = do
      path ← check_absolute requested
      resolve_split fs requested (split_last path)
