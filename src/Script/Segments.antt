-- ===== src/Script/Segments.antt =====
-- The sections of a script's output (crates/sbm_parser/src/script.rs, `parse_script_segments` and its callers).
use azad_server_box.Prelude.{
  Bool, true, false, Option, none, some, List, [], ◌∷◌, ◌++◌, if◌then◌else◌, any, is_empty, Text,
  text_eq,
}
use azad_server_box.Prelude.Try.{◌>>?◌}
use azad_server_box.Prelude.Map.{Map, lookup, insert}
use azad_server_box.Prelude.Strings.{split, split_terminator, strip_prefix, pop_char}
use azad_server_box.Script.{
  Base64, separator, custom_cmd_separator, custom_cmd_output_prefix, decode_marker_name,
  custom_result_key, custom_result_name,
}

abbrev pub is_some {ℓ} : {A : Type ℓ} → Option A → Bool
is_some none = false
is_some (some x) = true

-- `map.entry(key).or_insert(value)`
unfoldable pub or_insert : Text → Text → Map Text Text → Map Text Text
or_insert key value m = elim (lookup key m) [ some _ ↦ m | none ↦ insert key value m ]

-- The loop over the segments, with the map so far.
unfoldable pub collect : List (Text × Text) → Map Text Text → Map Text Text
collect [] m = m
collect ((key, value) ∷ segments) m = collect segments (or_insert key value m)

-- The variables of the loop over the lines.
pub record Scan : Type 0 where
  pub current : Option Text
  pub buf : Text
  pub result : List (Text × Text)

module _ (b64 : Base64) where
  abbrev pub builtin_key : Text → Option Text
  builtin_key line =
      strip_prefix (separator ++ b'.' ∷ []) line >>? λ rest. decode_marker_name b64 rest

  abbrev pub custom_key : Text → Option Text
  custom_key line = strip_prefix (custom_cmd_separator ++ b'.' ∷ []) line >>? λ rest.
      decode_marker_name b64 rest >>? λ name. some (custom_result_key name)

  unfoldable pub marker_key : Text → Bool → Option Text
  marker_key line allow_builtin = elim (if allow_builtin then builtin_key line else none) [
    | some key ↦ some key
    | none ↦ custom_key line
  ]

  -- What becomes of the text of a section.
  unfoldable pub finish : Text → Text → Text
  finish key buf =
      let out : Text = pop_char 13 (pop_char 10 buf) in
      elim (custom_result_name key) [
        | none ↦ out
        | some _ ↦ elim (strip_prefix custom_cmd_output_prefix out) [
          | none ↦ out
          | some encoded ↦ elim (b64.standard_lossy encoded) [ none ↦ out | some text ↦ text ]
        ]
      ]

  unfoldable pub flush : Scan → Scan
  flush s = elim s.current [
    | none ↦ s
    | some key ↦ record {
      current = none;
      buf = [];
      result = s.result ++ (key, finish key s.buf) ∷ [];
    }
  ]

  -- `current.as_deref().and_then(custom_result_name).is_none()`
  unfoldable pub allow_builtin : Option Text → Bool
  allow_builtin none = true
  allow_builtin (some key) = elim (custom_result_name key) [ none ↦ true | some _ ↦ false ]

  -- One line, its return taken off.
  unfoldable pub scan_line : Scan → Text → Scan
  scan_line s line = elim (marker_key (pop_char 13 line) (allow_builtin s.current)) [
    | some key ↦ record (flush s) { current = some key }
    | none ↦ elim s.current [
      | some _ ↦ record s { buf = s.buf ++ (pop_char 13 line ++ b'\n' ∷ []) }
      | none ↦ s
    ]
  ]

  unfoldable pub scan_lines : Scan → List Text → Scan
  scan_lines s [] = s
  scan_lines s (line ∷ lines) = scan_lines (scan_line s line) lines

  unfoldable pub parse_script_segments : Text → List (Text × Text)
  parse_script_segments raw =
      if is_empty raw
      then []
      else (flush (
          scan_lines (record { current = none; buf = []; result = [] })
            (split_terminator b'\n' raw))).result

  unfoldable pub parse_script_output : Text → Map Text Text
  parse_script_output raw = collect (parse_script_segments raw) []

  unfoldable pub contains_script_segment : Text → Bool
  contains_script_segment raw =
      any (λ line. is_some (marker_key (pop_char 13 line) true)) (split b'\n' raw)

  unfoldable pub contains_status_segment : Text → Bool
  contains_status_segment raw =
      any (λ segment. elim (custom_result_name segment.0) [ none ↦ true | some _ ↦ false ])
        (parse_script_segments raw)
