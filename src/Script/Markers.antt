-- ===== src/Script/Markers.antt =====
-- The markers of sections (crates/sbm_parser/src/script.rs): how they read, and what a line does to the section that is open.
use azad_server_box.Prelude.{
  ◌<◌, ◌≡◌, refl, sym, ap, ◌∙◌, Bool, true, false, Option, none, some, List, [], ◌∷◌, ◌++◌, ltb,
  all, codes, All, Text, arith,
}
use mathlib.Core.List.{append-nil, append_assoc}
use azad_server_box.Prelude.Strings.{strip_prefix}
use azad_server_box.Script.Lines.{IsPlain, pop_char-none, no_return, unlines}
use azad_server_box.Script.{
  Base64, IsLawful, is_url_safe, is_standard, custom_cmd_output_prefix, decode_marker_name,
  cmd_marker, custom_cmd_marker, custom_result_key, custom_result_name,
}
use azad_server_box.Script.Decimal.{All-append}
use azad_server_box.Script.Segments.{
  Scan, marker_key, finish, flush, allow_builtin, scan_line, scan_lines,
}
use azad_server_box.Script.Sections.{scan_line-marker, scan_line-text, result_name-result_key}

literal-IsPlain : (s : Text) → all (λ c. ltb 13 c) s ≡ true → All IsPlain s
literal-IsPlain [] h = tt
literal-IsPlain (c ∷ s) h =
    let above : 13 < c = ground (arith, h) in
    let rest : all (λ c. ltb 13 c) s ≡ true = ground (arith, h) in
    (
      (λ e. absurd (omega (arith, above, e)), λ e. absurd (omega (arith, above, e))),
      literal-IsPlain s rest,
    )

url_safe-IsPlain : (s : Text) → All (λ c. is_url_safe c ≡ true) s → All IsPlain s
url_safe-IsPlain [] h = tt
url_safe-IsPlain (c ∷ s) h = (
  (λ e. absurd (ground (arith, h.0, e)), λ e. absurd (ground (arith, h.0, e))),
  url_safe-IsPlain s h.1,
)

standard-IsPlain : (s : Text) → All (λ c. is_standard c ≡ true) s → All IsPlain s
standard-IsPlain [] h = tt
standard-IsPlain (c ∷ s) h = (
  (λ e. absurd (ground (arith, h.0, e)), λ e. absurd (ground (arith, h.0, e))),
  standard-IsPlain s h.1,
)

module _ (b64 : Base64) (law : IsLawful b64) where
  pub marker_key-cmd_marker : (key : Text) → marker_key b64 (cmd_marker b64 key) true ≡ some key
  unfolding marker_key cmd_marker decode_marker_name strip_prefix
  marker_key-cmd_marker key = rw (law.decode_encode key, marker_key) refl

  pub marker_key-custom_marker :
      (name : Text) (allow : Bool)
      → marker_key b64 (custom_cmd_marker b64 name) allow ≡ some (custom_result_key name)
  unfolding marker_key custom_cmd_marker decode_marker_name strip_prefix
  marker_key-custom_marker name true = rw (law.decode_encode name, marker_key) refl
  marker_key-custom_marker name false = rw (law.decode_encode name, marker_key) refl

  pub cmd_marker-IsPlain : (key : Text) → All IsPlain (cmd_marker b64 key)
  unfolding cmd_marker
  cmd_marker-IsPlain key =
      All-append IsPlain (codes "SrvBoxSep.b64.") (b64.encode key)
        (literal-IsPlain (codes "SrvBoxSep.b64.") refl)
        (url_safe-IsPlain (b64.encode key) (law.encode_alphabet key))

  pub custom_marker-IsPlain : (name : Text) → All IsPlain (custom_cmd_marker b64 name)
  unfolding custom_cmd_marker
  custom_marker-IsPlain name =
      All-append IsPlain (codes "SrvBoxCusCmdSep.b64.") (b64.encode name)
        (literal-IsPlain (codes "SrvBoxCusCmdSep.b64.") refl)
        (url_safe-IsPlain (b64.encode name) (law.encode_alphabet name))

  pub output-IsPlain :
      (output : Text) → All IsPlain (custom_cmd_output_prefix ++ b64.standard_encode output)
  output-IsPlain output =
      All-append IsPlain custom_cmd_output_prefix (b64.standard_encode output)
        (literal-IsPlain custom_cmd_output_prefix refl)
        (standard-IsPlain (b64.standard_encode output) (law.standard_alphabet output))

  pub scan_lines-append :
      (s : Scan) (a b : List Text)
      → scan_lines b64 s (a ++ b) ≡ scan_lines b64 (scan_lines b64 s a) b
  unfolding scan_lines
  scan_lines-append s [] b = refl
  scan_lines-append s (line ∷ a) b = scan_lines-append (scan_line b64 s line) a b

  abbrev pub scan : Option Text → Text → List (Text × Text) → Scan
  scan current buf result = record { current = current; buf = buf; result = result }

  -- The sections so far, with the last of them closed.
  abbrev pub Closes : Scan → List (Text × Text) → Type 0
  Closes s result = flush b64 s ≡ scan none [] result

  pub scan_marker :
      (s : Scan) (result : List (Text × Text)) (line key : Text)
      → Closes s result
      → All IsPlain line
      → marker_key b64 line (allow_builtin b64 s.current) ≡ some key
      → scan_line b64 s line ≡ scan (some key) [] result
  scan_marker s result line key c p h =
      scan_line-marker b64 s line key (
        ap (λ l. marker_key b64 l (allow_builtin b64 s.current))
          (pop_char-none b'\r' line (no_return line p))
        ∙ h)
      ∙ ap (λ t. scan (some key) t.buf t.result) c

  pub scan_text :
      (key buf : Text) (result : List (Text × Text)) (line : Text)
      → All IsPlain line
      → marker_key b64 line (allow_builtin b64 (some key)) ≡ none
      → scan_line b64 (scan (some key) buf result) line
        ≡ scan (some key) (buf ++ (line ++ b'\n' ∷ [])) result
  scan_text key buf result line p h =
      let same = pop_char-none b'\r' line (no_return line p) in
      scan_line-text b64 key buf result line
        (ap (λ l. marker_key b64 l (allow_builtin b64 (some key))) same ∙ h)
      ∙ ap (λ l. scan (some key) (buf ++ (l ++ b'\n' ∷ [])) result) same

  pub allow_builtin-own :
      (key : Text) → custom_result_name key ≡ none → allow_builtin b64 (some key) ≡ true
  unfolding allow_builtin
  allow_builtin-own key h = rw (h, allow_builtin) refl

  pub scan_body :
      (key buf : Text) (result : List (Text × Text)) (lines : List Text)
      → custom_result_name key ≡ none
      → All (All IsPlain) lines
      → All (λ line. marker_key b64 line true ≡ none) lines
      → scan_lines b64 (scan (some key) buf result) lines
        ≡ scan (some key) (buf ++ unlines lines) result
  unfolding scan_lines
  scan_body key buf result [] own p h = ap (λ b. scan (some key) b result) (sym (append-nil buf))
  scan_body key buf result (line ∷ lines) own p h =
      ap (λ s. scan_lines b64 s lines)
        (scan_text key buf result line p.0
          (ap (marker_key b64 line) (allow_builtin-own key own) ∙ h.0))
      ∙ scan_body key (buf ++ (line ++ b'\n' ∷ [])) result lines own p.1 h.1
      ∙ ap (λ b. scan (some key) b result)
          (append_assoc buf (line ++ b'\n' ∷ []) (unlines lines)
            ∙ ap (λ b. buf ++ b) (append_assoc line (b'\n' ∷ []) (unlines lines)))

  marker_key-cmd_marker_closed : (key : Text) → marker_key b64 (cmd_marker b64 key) false ≡ none
  unfolding marker_key cmd_marker strip_prefix
  marker_key-cmd_marker_closed key = refl

  allow_builtin-custom :
      (key name : Text) → custom_result_name key ≡ some name → allow_builtin b64 (some key) ≡ false
  unfolding allow_builtin
  allow_builtin-custom key name h = rw (h, allow_builtin) refl

  allow_builtin-nameless : allow_builtin b64 (some (custom_result_key [])) ≡ true
  allow_builtin-nameless = allow_builtin-own (custom_result_key []) (result_name-result_key [])

  -- Where base64 decodes what it encoded: in a custom command's section the marker of one of the program's own sections is text, but
  -- behind the marker of a nameless command it opens that section.
  pub nameless_marker-opens :
      (key name buf own : Text) (result : List (Text × Text))
      → custom_result_name key ≡ some name
      → ((scan_lines b64 (scan (some key) buf result) (cmd_marker b64 own ∷ [])).current ≡ some key)
        × ((scan_lines b64
              (scan (some key) buf result)
              (custom_cmd_marker b64 [] ∷ cmd_marker b64 own ∷ [])).current
            ≡ some own)
  unfolding scan_lines flush
  nameless_marker-opens key name buf own result h =
      let closed = result ++ (key, finish b64 key buf) ∷ [] in
      let again = closed ++ (custom_result_key [], finish b64 (custom_result_key []) []) ∷ [] in
      (
        ap (λ s. s.current)
            (scan_text key buf result (cmd_marker b64 own) (cmd_marker-IsPlain own) (
              ap (marker_key b64 (cmd_marker b64 own)) (allow_builtin-custom key name h)
              ∙ marker_key-cmd_marker_closed own)),
        ap (λ s. (scan_line b64 s (cmd_marker b64 own)).current)
              (scan_marker (scan (some key) buf result) closed (custom_cmd_marker b64 [])
                (custom_result_key []) refl (custom_marker-IsPlain [])
                (marker_key-custom_marker [] (allow_builtin b64 (some key))))
            ∙ ap (λ s. s.current)
                (scan_marker (scan (some (custom_result_key [])) [] closed) again
                  (cmd_marker b64 own) own refl (cmd_marker-IsPlain own)
                  (ap (marker_key b64 (cmd_marker b64 own)) allow_builtin-nameless
                    ∙ marker_key-cmd_marker own)),
      )
