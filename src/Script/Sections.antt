-- ===== src/Script/Sections.antt =====
-- How lines open and fill sections (crates/sbm_parser/src/script.rs), and the map made of them.
use azad_server_box.Prelude.{
  ◌≡◌, ◌≢◌, refl, sym, ap, subst, ◌∙◌, Bool, true, false, Bool-cases, Option-cases, inl, inr,
  Option, none, some, List, [], ◌∷◌, ◌++◌, if◌then◌else◌, is_empty, All, Text, text_eq, text_beq,
  text_beq_iff, ◌==◌,
}
use mathlib.Core.List.{append_assoc}
use mathlib.Core.Option.{some-injective}
use azad_server_box.Prelude.Try.{◌>>?◌, bind-some}
use azad_server_box.Prelude.Map.{Map, lookup, lookup-insert}
use azad_server_box.Prelude.Strings.{strip_prefix, pop_char}
use azad_server_box.Script.{
  Base64, custom_cmd_separator, decode_marker_name, custom_result_key, custom_result_name,
}
use azad_server_box.Script.Segments.{
  or_insert, collect, Scan, custom_key, marker_key, finish, flush, allow_builtin, scan_line,
  scan_lines, parse_script_segments, parse_script_output,
}

-- The key of a custom command's section.
abbrev pub IsCustom : Text → Type 0
IsCustom key = (name : Text) × (custom_result_name key ≡ some name)

pub result_name-result_key :
    (name : Text)
    → custom_result_name (custom_result_key name) ≡ (if is_empty name then none else some name)
unfolding custom_result_name custom_result_key strip_prefix
result_name-result_key name = refl

module _ (b64 : Base64) where
  -- A marker of a custom command with no name.
  abbrev pub IsNameless : Text → Type 0
  IsNameless line = custom_key b64 (pop_char 13 line) ≡ some (custom_result_key [])

  custom_key-name :
      (line key : Text)
      → custom_key b64 line ≡ some key
      → (name : Text) × (key ≡ custom_result_key name)
  custom_key-name line key h =
      let (rest, e, f) =
        bind-some (strip_prefix (custom_cmd_separator ++ b'.' ∷ []) line)
          (λ rest. decode_marker_name b64 rest >>? λ name. some (custom_result_key name)) key h in
      let (name, g, k) =
        bind-some (decode_marker_name b64 rest) (λ name. some (custom_result_key name)) key f in
      (name, sym (some-injective (custom_result_key name) key k))

  custom_key-IsCustom :
      (line key : Text)
      → custom_key b64 line ≡ some key
      → custom_key b64 line ≢ some (custom_result_key [])
      → IsCustom key
  custom_key-IsCustom line key h n =
      let (name, e) = custom_key-name line key h in
      subst IsCustom (sym e) (named name (subst (λ k. custom_key b64 line ≡ some k) e h))
    where
      named :
          (name : Text)
          → custom_key b64 line ≡ some (custom_result_key name)
          → IsCustom (custom_result_key name)
      named [] h = absurd (n h)
      named (c ∷ name) h = (c ∷ name, result_name-result_key (c ∷ name))

  -- What a line does, by what is read of it.
  pub scan_line-marker :
      (s : Scan) (line key : Text)
      → marker_key b64 (pop_char 13 line) (allow_builtin b64 s.current) ≡ some key
      → scan_line b64 s line ≡ record (flush b64 s) { current = some key }
  unfolding scan_line
  scan_line-marker s line key h = rw (h, scan_line) refl

  pub scan_line-text :
      (key buf : Text) (result : List (Text × Text)) (line : Text)
      → marker_key b64 (pop_char 13 line) (allow_builtin b64 (some key)) ≡ none
      → scan_line b64 (record { current = some key; buf = buf; result = result }) line ≡ record {
        current = some key;
        buf = buf ++ (pop_char 13 line ++ b'\n' ∷ []);
        result = result;
      }
  unfolding scan_line
  scan_line-text key buf result line h = rw (h, scan_line) refl

  marker_key-IsCustom :
      (key line : Text)
      → IsCustom key
      → marker_key b64 line (allow_builtin b64 (some key)) ≡ custom_key b64 line
  unfolding marker_key allow_builtin
  marker_key-IsCustom key line (name, c) = rw (c, marker_key, allow_builtin) refl

  -- While a custom command's section is open, output without the marker of a nameless command adds only sections of custom
  -- commands: it cannot pass for one of the program's own.
  pub later_sections-IsCustom :
      (lines : List Text) (key buf : Text) (result : List (Text × Text))
      → IsCustom key
      → All (λ line. ¬ IsNameless line) lines
      → let s = scan_lines b64 (record { current = some key; buf = buf; result = result }) lines in
        (more : List (Text × Text)) × ((flush b64 s).result ≡ result ++ more)
        × All (λ segment. IsCustom segment.0) more
  unfolding scan_lines flush
  later_sections-IsCustom [] key buf result c n = ((key, finish b64 key buf) ∷ [], refl, (c, tt))
  later_sections-IsCustom (line ∷ lines) key buf result c n =
      elim (Option-cases (custom_key b64 (pop_char 13 line))) [
        | inl e ↦
            let step =
              scan_line-text key buf result line
                (marker_key-IsCustom key (pop_char 13 line) c ∙ e) in
            let (more, f, all_custom) = later_sections-IsCustom lines key _ result c n.1 in
            (more, ap (λ s. (flush b64 (scan_lines b64 s lines)).result) step ∙ f, all_custom)
        | inr (next, e) ↦
            let step =
              scan_line-marker (record { current = some key; buf = buf; result = result }) line next
                (marker_key-IsCustom key (pop_char 13 line) c ∙ e) in
            let (more, f, all_custom) =
              later_sections-IsCustom lines next [] (result ++ (key, finish b64 key buf) ∷ [])
                (custom_key-IsCustom (pop_char 13 line) next e n.0) n.1 in
            (
              (key, finish b64 key buf) ∷ more,
              ap (λ s. (flush b64 (scan_lines b64 s lines)).result) step
                  ∙ f
                  ∙ append_assoc result ((key, finish b64 key buf) ∷ []) more,
              (c, all_custom),
            )
      ]

abbrev first_some : Option Text → Option Text → Option Text
first_some none p = p
first_some (some v) p = some v

first_some-none : (o : Option Text) → o ≡ first_some o none
first_some-none none = refl
first_some-none (some v) = refl

-- A present key keeps its value, and an absent one gets the new one.
lookup-or_insert :
    (k v key : Text) (m : Map Text Text)
    → lookup key (or_insert k v m) ≡ first_some (lookup key m) (if k == key then some v else none)
unfolding or_insert
lookup-or_insert k v key m = elim (Bool-cases (text_beq k key)) [
  | inr e ↦ elim (Option-cases (lookup k m)) [
    | inl f ↦ rw (f, e, or_insert) (lookup-insert k key v m ∙ rw e (first_some-none (lookup key m)))
    | inr (w, f) ↦ rw (f, e, or_insert) (first_some-none (lookup key m))
  ]
  | inl e ↦
      let same : k ≡ key = (text_beq_iff k key).0 e in
      elim (Option-cases (lookup k m)) [
        | inl f ↦
            let g : lookup key m ≡ none = ap (λ j. lookup j m) (sym same) ∙ f in
            rw (f, or_insert, g)
              (lookup-insert k key v m ∙ ap (λ o. if k == key then some v else o) g)
        | inr (w, f) ↦
            let g : lookup key m ≡ some w = ap (λ j. lookup j m) (sym same) ∙ f in
            rw (f, or_insert, g) refl
      ]
]

-- A text under a key is the first that the segments have under it.
lookup-collect :
    (segments : List (Text × Text)) (m : Map Text Text) (key : Text)
    → lookup key (collect segments m) ≡ first_some (lookup key m) (lookup key segments)
unfolding collect lookup
lookup-collect [] m key = first_some-none (lookup key m)
lookup-collect ((k, v) ∷ segments) m key =
    lookup-collect segments (or_insert k v m) key
    ∙ ap (λ o. first_some o (lookup key segments)) (lookup-or_insert k v key m)
    ∙ first_some_assoc (lookup key m) (text_beq k key) (lookup key segments)
  where
    first_some_assoc :
        (a : Option Text) (same : Bool) (c : Option Text)
        → first_some (first_some a (if same then some v else none)) c
          ≡ first_some a (if same then some v else c)
    first_some_assoc none true c = refl
    first_some_assoc none false c = refl
    first_some_assoc (some w) same c = refl

-- The map has under each key the first section of that key: a later section cannot overwrite it.
pub lookup-parse_script_output :
    (b64 : Base64) (raw key : Text)
    → lookup key (parse_script_output b64 raw) ≡ lookup key (parse_script_segments b64 raw)
unfolding parse_script_output lookup
lookup-parse_script_output b64 raw key = lookup-collect (parse_script_segments b64 raw) [] key
