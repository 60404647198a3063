-- ===== src/OsText.antt =====
-- crates/sbm_parser/src/common.rs: uptime, os-release and host name, as the commands print them. A
-- text is its list of characters.
mod Tests
pub mod Quoting
use azad_server_box.Prelude.{
  ℕ, zero, suc, ◌-◌, Bool, true, false, not, ◌&&◌, ◌||◌, Option, none, some, List, [], ◌∷◌, ◌++◌,
  map, if◌then◌else◌, nat_beq, any, is_empty, length, Text, codes,
}
use azad_server_box.Prelude.Try.{◌>>?◌}
use azad_server_box.Prelude.Strings.{
  split, onto_head, is_whitespace, trim, to_ascii_lowercase, strip_prefix, strip_suffix,
  starts_with, contains_text,
}

-- `splitn(2, needle)`: what stands before and behind the first needle.
unfoldable pub split_once_text : Text → Text → Option (Text × Text)
unfolding strip_prefix
split_once_text needle [] = none
split_once_text needle (c ∷ s) = elim (strip_prefix needle (c ∷ s)) [
  | some rest ↦ some ([], rest)
  | none ↦ elim (split_once_text needle s) [ none ↦ none | some (a, b) ↦ some (c ∷ a, b) ]
]

-- `split` at a text; the number counts the characters of a separator that are still to pass.
unfoldable pub split_text : Text → ℕ → Text → List Text
unfolding starts_with
split_text sep skip [] = [] ∷ []
split_text sep (suc skip) (c ∷ s) = split_text sep skip s
split_text sep zero (c ∷ s) =
    let behind = split_text sep (length sep - 1) s in
    let rest = split_text sep zero s in
    if starts_with sep (c ∷ s) then [] ∷ behind else onto_head c rest

abbrev is_time : Text → Bool
is_time s =
    contains_text (codes ":") s
    && not (contains_text (codes "user") s)
    && not (contains_text (codes "load") s)

unfoldable pub uptime_of : List Text → Option Text
unfolding trim contains_text
uptime_of [] = none
uptime_of (first ∷ []) = some (trim first)
uptime_of (first ∷ second ∷ more) =
    if contains_text (codes "day") (trim first) && is_time (trim second)
    then some (trim first ++ codes ", " ++ trim second)
    else some (trim first)

unfoldable pub parse_uptime : Text → Option Text
unfolding split_once_text split_text uptime_of contains_text
parse_uptime raw = split_once_text (codes "up ") raw >>? λ parts.
    if contains_text (codes "up ") parts.1
    then none
    else uptime_of (split_text (codes ", ") 0 parts.1)

abbrev strip_cr : Text → Text
strip_cr line = elim (strip_suffix 13 line) [ none ↦ line | some rest ↦ rest ]

-- Behind the last line feed, an empty piece is no line and a return is kept.
abbrev end_lines : List Text → List Text
end_lines [] = []
end_lines ([] ∷ []) = []
end_lines ((c ∷ s) ∷ []) = (c ∷ s) ∷ []
end_lines (a ∷ b ∷ more) = strip_cr a ∷ end_lines (b ∷ more)

-- `str::lines`
unfoldable pub lines : Text → List Text
unfolding split strip_suffix
lines s = end_lines (split 10 s)

abbrev pub is_escaped : ℕ → Bool
is_escaped c = nat_beq c b'"' || nat_beq c b'\\' || nat_beq c b'$' || nat_beq c b'`'

-- The loop over the characters.
unfoldable pub unescape_chars : Text → Text
unescape_chars [] = []
unescape_chars (c ∷ []) = c ∷ []
unescape_chars (c ∷ d ∷ s) =
    let rest = unescape_chars (d ∷ s) in
    let behind = unescape_chars s in
    if not (nat_beq c b'\\')
    then c ∷ rest
    else if is_escaped d
    then d ∷ behind
    else b'\\' ∷ d ∷ behind

unfoldable pub unescape_double_quoted : Text → Text
unfolding unescape_chars
unescape_double_quoted value =
    if not (any (λ c. nat_beq c b'\\') value) then value else unescape_chars value

-- `strip_prefix` and then `strip_suffix` of one quote character.
abbrev within_quotes : ℕ → Text → Option Text
within_quotes q [] = none
within_quotes q (c ∷ s) = if nat_beq c q then strip_suffix q s else none

unfoldable pub unquote_trimmed : Text → Text
unfolding unescape_double_quoted strip_suffix
unquote_trimmed value = elim (within_quotes b'"' value) [
  | some inner ↦ unescape_double_quoted inner
  | none ↦ elim (within_quotes b'\'' value) [ some inner ↦ inner | none ↦ value ]
]

unfoldable pub unquote : Text → Text
unfolding unquote_trimmed trim
unquote value = unquote_trimmed (trim value)

unfoldable pub value_of : Text → Text → Option Text
unfolding strip_prefix
value_of key line = strip_prefix key line >>? λ rest. strip_prefix (codes "=") rest

-- `find_map` over the trimmed lines.
unfoldable pub find_value : Text → List Text → Option Text
unfolding trim value_of unquote
find_value key [] = none
find_value key (line ∷ more) =
    let rest = find_value key more in
    elim (value_of key (trim line)) [ some value ↦ some (unquote value) | none ↦ rest ]

unfoldable pub os_release_value : Text → Text → Option Text
unfolding lines find_value
os_release_value raw key = find_value key (lines raw)

abbrev non_empty : Text → Option Text
non_empty s = if is_empty s then none else some s

unfoldable pub parse_sys_version : Text → Option Text
unfolding os_release_value
parse_sys_version raw = os_release_value raw (codes "PRETTY_NAME") >>? λ v. non_empty v

unfoldable pub parse_os_id : Text → Option Text
unfolding os_release_value to_ascii_lowercase
parse_os_id raw = os_release_value raw (codes "ID") >>? λ v. non_empty (to_ascii_lowercase v)

-- `split_whitespace`: the pieces between white space that are not empty.
unfoldable pub pieces : Text → List Text
unfolding is_whitespace
pieces [] = [] ∷ []
pieces (c ∷ s) = let rest = pieces s in if is_whitespace c then [] ∷ rest else onto_head c rest

unfoldable pub drop_empty : List Text → List Text
drop_empty [] = []
drop_empty (t ∷ ts) = let rest = drop_empty ts in if is_empty t then rest else t ∷ rest

unfoldable pub parse_os_id_like : Text → List Text
unfolding os_release_value to_ascii_lowercase pieces drop_empty
parse_os_id_like raw = elim (os_release_value raw (codes "ID_LIKE")) [
  | none ↦ []
  | some v ↦ drop_empty (pieces (to_ascii_lowercase v))
]

unfoldable pub parse_hostname : Text → Option Text
unfolding trim
parse_hostname raw = non_empty (trim raw)
