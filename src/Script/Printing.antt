-- ===== src/Script/Printing.antt =====
-- A text of sections, with the markers of crates/sbm_parser/src/script.rs, is read back by its parser.
use azad_server_box.Prelude.{
  ◌≡◌, refl, sym, ap, ◌∙◌, Bool, true, false, none, some, List, [], ◌∷◌, ◌++◌, map, is_empty, All,
  Text,
}
use mathlib.Core.List.{append-nil, append_assoc}
use azad_server_box.Prelude.Strings.{split, split_terminator, strip_prefix, pop_char}
use azad_server_box.Script.Lines.{
  IsPlain, join, pop_char-unlines, pop_char-none, pop_char-last, no_return, unlines,
  split_terminator-unlines,
}
use azad_server_box.Script.{
  Base64, IsLawful, custom_cmd_output_prefix, cmd_marker, custom_cmd_marker, custom_result_key,
  custom_result_name,
}
use azad_server_box.Script.Decimal.{All-append}
use azad_server_box.Script.Segments.{
  Scan, marker_key, finish, flush, allow_builtin, scan_line, scan_lines, parse_script_segments,
}
use azad_server_box.Script.Sections.{result_name-result_key}
use azad_server_box.Script.Markers.{
  marker_key-cmd_marker, marker_key-custom_marker, cmd_marker-IsPlain, custom_marker-IsPlain,
  output-IsPlain, scan_lines-append, scan, Closes, scan_marker, scan_text, allow_builtin-own,
  scan_body,
}

-- A section of the program's own, and one of a custom command, whose output the script encodes.
pub record Builtin : Type 0 where
  pub key : Text
  pub lines : List Text

pub record Custom : Type 0 where
  pub name : Text
  pub output : Text

abbrev pub builtin_segment : Builtin → Text × Text
builtin_segment s = (s.key, join s.lines)

abbrev pub custom_segment : Custom → Text × Text
custom_segment s = (custom_result_key s.name, s.output)

module _ (b64 : Base64) where
  abbrev pub builtin_lines : Builtin → List Text
  builtin_lines s = cmd_marker b64 s.key ∷ s.lines

  abbrev pub custom_lines : Custom → List Text
  custom_lines s =
      custom_cmd_marker b64 s.name ∷ (custom_cmd_output_prefix ++ b64.standard_encode s.output) ∷ []

  -- The program's own sections come first.
  abbrev pub all_lines : List Builtin → List Custom → List Text
  all_lines [] [] = []
  all_lines [] (c ∷ customs) = custom_lines c ++ all_lines [] customs
  all_lines (s ∷ builtins) customs = builtin_lines s ++ all_lines builtins customs

  -- The key is no custom command's, and no line of the output is a marker.
  abbrev pub IsPrintable : Builtin → Type 0
  IsPrintable s =
      (custom_result_name s.key ≡ none)
      × All (All IsPlain) s.lines
      × All (λ line. marker_key b64 line true ≡ none) s.lines

  abbrev pub IsNamed : Custom → Type 0
  IsNamed c = is_empty c.name ≡ false

  module _ (law : IsLawful b64) where
    scan_builtin :
        (s : Scan) (result : List (Text × Text)) (b : Builtin)
        → allow_builtin b64 s.current ≡ true
        → Closes b64 law s result
        → IsPrintable b
        → scan_lines b64 s (builtin_lines b) ≡ scan b64 law (some b.key) (unlines b.lines) result
    unfolding scan_lines
    scan_builtin s result b a c (own, p, h) =
        ap (λ t. scan_lines b64 t b.lines)
          (scan_marker b64 law s result (cmd_marker b64 b.key) b.key c
            (cmd_marker-IsPlain b64 law b.key)
            (ap (marker_key b64 (cmd_marker b64 b.key)) a ∙ marker_key-cmd_marker b64 law b.key))
        ∙ scan_body b64 law b.key [] result b.lines own p h

    marker_key-output :
        (output : Text) (allow : Bool)
        → marker_key b64 (custom_cmd_output_prefix ++ b64.standard_encode output) allow ≡ none
    unfolding marker_key strip_prefix
    marker_key-output output true = refl
    marker_key-output output false = refl

    scan_custom :
        (s : Scan) (result : List (Text × Text)) (c : Custom)
        → Closes b64 law s result
        → scan_lines b64 s (custom_lines c)
          ≡ scan b64 law
              (some (custom_result_key c.name))
              ((custom_cmd_output_prefix ++ b64.standard_encode c.output) ++ b'\n' ∷ [])
              result
    unfolding scan_lines
    scan_custom s result c closes =
        let body = custom_cmd_output_prefix ++ b64.standard_encode c.output in
        ap (λ t. scan_line b64 t body)
          (scan_marker b64 law s result (custom_cmd_marker b64 c.name) (custom_result_key c.name)
            closes (custom_marker-IsPlain b64 law c.name)
            (marker_key-custom_marker b64 law c.name (allow_builtin b64 s.current)))
        ∙ scan_text b64 law (custom_result_key c.name) [] result body
            (output-IsPlain b64 law c.output)
            (marker_key-output c.output (allow_builtin b64 (some (custom_result_key c.name))))

    finish_builtin :
        (key : Text) (lines : List Text)
        → custom_result_name key ≡ none
        → All (All IsPlain) lines
        → finish b64 key (unlines lines) ≡ join lines
    unfolding finish
    finish_builtin key lines own p = rw (own, finish) (pop_char-unlines lines p)

    finish_encoded :
        (key name buf encoded output : Text)
        → custom_result_name key ≡ some name
        → pop_char b'\r' (pop_char b'\n' buf) ≡ custom_cmd_output_prefix ++ encoded
        → b64.standard_lossy encoded ≡ some output
        → finish b64 key buf ≡ output
    unfolding finish strip_prefix
    finish_encoded key name buf encoded output named out decoded =
        rw (named, finish, out, decoded) refl

    finish_custom :
        (c : Custom)
        → IsNamed c
        → finish b64
            (custom_result_key c.name)
            ((custom_cmd_output_prefix ++ b64.standard_encode c.output) ++ b'\n' ∷ [])
          ≡ c.output
    finish_custom c n =
        let body = custom_cmd_output_prefix ++ b64.standard_encode c.output in
        let named : custom_result_name (custom_result_key c.name) ≡ some c.name =
          result_name-result_key c.name ∙ rw n refl in
        let out : pop_char b'\r' (pop_char b'\n' (body ++ b'\n' ∷ [])) ≡ body =
          ap (pop_char b'\r') (pop_char-last b'\n' body)
          ∙ pop_char-none b'\r' body (no_return body (output-IsPlain b64 law c.output)) in
        finish_encoded (custom_result_key c.name) c.name (body ++ b'\n' ∷ [])
          (b64.standard_encode c.output) c.output named out (law.standard_decode_encode c.output)

    flushed-Closes :
        (key buf output : Text) (result : List (Text × Text))
        → finish b64 key buf ≡ output
        → Closes b64 law (scan b64 law (some key) buf result) (result ++ (key, output) ∷ [])
    unfolding flush
    flushed-Closes key buf output result h =
        ap (λ o. scan b64 law none [] (result ++ (key, o) ∷ [])) h

    scan_customs :
        (customs : List Custom) (s : Scan) (result : List (Text × Text))
        → Closes b64 law s result
        → All IsNamed customs
        → (flush b64 (scan_lines b64 s (all_lines [] customs))).result
          ≡ result ++ map custom_segment customs
    unfolding scan_lines
    scan_customs [] s result closes n = ap (λ t. t.result) closes ∙ sym (append-nil result)
    scan_customs (c ∷ customs) s result closes n =
        let segment = custom_segment c in
        let body = (custom_cmd_output_prefix ++ b64.standard_encode c.output) ++ b'\n' ∷ [] in
        ap (λ t. (flush b64 (scan_lines b64 t (all_lines [] customs))).result)
          (scan_custom s result c closes)
        ∙ scan_customs customs (scan b64 law (some segment.0) body result) (result ++ segment ∷ [])
            (flushed-Closes segment.0 body segment.1 result (finish_custom c n.0)) n.1
        ∙ append_assoc result (segment ∷ []) (map custom_segment customs)

    scan_sections :
        (builtins : List Builtin) (customs : List Custom) (s : Scan) (result : List (Text × Text))
        → allow_builtin b64 s.current ≡ true
        → Closes b64 law s result
        → All IsPrintable builtins
        → All IsNamed customs
        → (flush b64 (scan_lines b64 s (all_lines builtins customs))).result
          ≡ result ++ (map builtin_segment builtins ++ map custom_segment customs)
    scan_sections [] customs s result a closes p n = scan_customs customs s result closes n
    scan_sections (b ∷ builtins) customs s result a closes (h, p) n =
        let segment = builtin_segment b in
        let next = scan b64 law (some b.key) (unlines b.lines) result in
        ap (λ t. (flush b64 t).result)
          (scan_lines-append b64 law s (builtin_lines b) (all_lines builtins customs)
            ∙ ap (λ t. scan_lines b64 t (all_lines builtins customs))
                (scan_builtin s result b a closes h))
        ∙ scan_sections builtins customs next (result ++ segment ∷ [])
            (allow_builtin-own b64 law b.key h.0)
            (flushed-Closes b.key (unlines b.lines) segment.1 result
              (finish_builtin b.key b.lines h.0 h.1))
            p n
        ∙ append_assoc result (segment ∷ [])
            (map builtin_segment builtins ++ map custom_segment customs)

    all_lines-IsPlain :
        (builtins : List Builtin) (customs : List Custom)
        → All IsPrintable builtins
        → All (All IsPlain) (all_lines builtins customs)
    all_lines-IsPlain [] [] p = tt
    all_lines-IsPlain [] (c ∷ customs) p = (
      custom_marker-IsPlain b64 law c.name,
      (output-IsPlain b64 law c.output, all_lines-IsPlain [] customs tt),
    )
    all_lines-IsPlain (b ∷ builtins) customs (h, p) = (
      cmd_marker-IsPlain b64 law b.key,
      All-append (All IsPlain) b.lines (all_lines builtins customs) h.1
          (all_lines-IsPlain builtins customs p),
    )

    parse_script_segments-lines :
        (raw : Text)
        → parse_script_segments b64 raw
          ≡ (flush b64
              (scan_lines b64 (scan b64 law none [] []) (split_terminator b'\n' raw))).result
    unfolding parse_script_segments split_terminator split scan_lines flush
    parse_script_segments-lines [] = refl
    parse_script_segments-lines (c ∷ raw) = refl

    -- Where base64 decodes what it encoded and keeps to its alphabets: from a text of sections, the built-in ones as a marker and lines
    -- of plain output and behind them those of custom commands as a marker and their encoded output, the sections come back in
    -- order with their keys and outputs, if no line of a built-in output is a marker or has a carriage return or line feed in it,
    -- no built-in key is the key of a custom command, and no custom command is nameless.
    pub parse_script_segments-printed :
        (builtins : List Builtin) (customs : List Custom)
        → All IsPrintable builtins
        → All IsNamed customs
        → parse_script_segments b64 (unlines (all_lines builtins customs))
          ≡ map builtin_segment builtins ++ map custom_segment customs
    unfolding flush allow_builtin
    parse_script_segments-printed builtins customs p n =
        parse_script_segments-lines (unlines (all_lines builtins customs))
        ∙ ap (λ lines. (flush b64 (scan_lines b64 (scan b64 law none [] []) lines)).result)
            (split_terminator-unlines (all_lines builtins customs)
              (all_lines-IsPlain builtins customs p))
        ∙ scan_sections builtins customs (scan b64 law none [] []) [] refl refl p n
