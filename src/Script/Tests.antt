-- ===== src/Script/Tests.antt =====
-- Inputs for script.rs, with base64 stood in for by a count of letters: each character is so many `A` and an end.
use azad_server_box.Prelude.{
  ℕ, zero, suc, ◌+◌, ◌≡◌, ◌≢◌, refl, ap, ◌∙◌, Bool, true, false, Option, none, some, List, [], ◌∷◌,
  ◌++◌, map, if◌then◌else◌, nat_beq, All, Text, text_eq, codes, arith,
}
use azad_server_box.Prelude.Try.{◌>>?◌}
use azad_server_box.Prelude.Strings.{strip_prefix, strip_suffix, pop_char}
use azad_server_box.TimeSeries.Cpu.{windows}
use azad_server_box.Script.Decimal.{pad, decimal}
use azad_server_box.Script.Names.{name_from_file-file_name}
use azad_server_box.Script.Order.{file_name-sorted}
use azad_server_box.Prelude.Strings.{text_ltb}
use azad_server_box.Script.Lines.{unlines}
use azad_server_box.Script.Segments.{marker_key, flush, scan_lines, parse_script_segments}
use azad_server_box.Script.Sections.{IsCustom, IsNameless, later_sections-IsCustom}
use azad_server_box.Script.Markers.{scan, nameless_marker-opens}
use azad_server_box.Script.Printing.{
  Builtin, Custom, builtin_segment, custom_segment, all_lines, IsPrintable,
  parse_script_segments-printed,
}
use azad_server_box.Script.{
  Base64, IsLawful, is_url_safe, is_standard, custom_cmd_file_name, custom_cmd_name_from_file_for,
  cmd_marker, custom_cmd_marker, custom_result_key, custom_result_name,
}

letters : ℕ → Text → Text
letters zero t = t
letters (suc n) t = b'A' ∷ letters n t

count_encode : ℕ → Text → Text
count_encode end [] = []
count_encode end (c ∷ s) = letters c (end ∷ count_encode end s)

count_decode : ℕ → ℕ → Text → Option Text
count_decode end n [] = if nat_beq n 0 then some [] else none
count_decode end n (c ∷ s) =
    let behind = count_decode end 0 s in
    let more = count_decode end (suc n) s in
    if nat_beq c end
    then (behind >>? λ rest. some (n ∷ rest))
    else if nat_beq c b'A'
    then more
    else none

count_decode-letters :
    (end n m : ℕ) (t : Text)
    → end ≢ b'A'
    → count_decode end n (letters m t) ≡ count_decode end (m + n) t
unfolding count_decode letters
count_decode-letters end n zero t h = ap (λ k. count_decode end k t) (omega arith)
count_decode-letters end n (suc m) t h =
    let other : nat_beq b'A' end ≡ false = ground (arith, h) in
    rw other (count_decode-letters end (suc n) m t h ∙ ap (λ k. count_decode end k t) (omega arith))

count_decode-encode :
    (end : ℕ) (s : Text) → end ≢ b'A' → count_decode end 0 (count_encode end s) ≡ some s
unfolding count_encode count_decode
count_decode-encode end [] h = refl
count_decode-encode end (c ∷ s) h =
    let own : nat_beq end end ≡ true = ground arith in
    let whole : c + 0 ≡ c = omega arith in
    count_decode-letters end 0 c (end ∷ count_encode end s) h
    ∙ rw (count_decode-encode end s h, own, whole) refl

All-letters :
    (P : ℕ → Bool) (n : ℕ) (t : Text)
    → P b'A' ≡ true
    → All (λ c. P c ≡ true) t
    → All (λ c. P c ≡ true) (letters n t)
unfolding letters
All-letters P zero t a h = h
All-letters P (suc n) t a h = (a, All-letters P n t a h)

All-count_encode :
    (P : ℕ → Bool) (end : ℕ) (s : Text)
    → P end ≡ true
    → P b'A' ≡ true
    → All (λ c. P c ≡ true) (count_encode end s)
unfolding count_encode letters
All-count_encode P end [] h a = tt
All-count_encode P end (c ∷ s) h a =
    All-letters P c (end ∷ count_encode end s) a (h, All-count_encode P end s h a)

abbrev counts : Base64
counts = record {
  encode = count_encode b'_';
  decode = count_decode b'_' 0;
  standard_encode = count_encode b'/';
  standard_lossy = count_decode b'/' 0;
}

counts-IsLawful : IsLawful counts
counts-IsLawful = record {
  decode_encode = λ s. count_decode-encode b'_' s (λ e. absurd (omega (arith, e)));
  encode_alphabet = λ s. All-count_encode is_url_safe b'_' s refl refl;
  standard_decode_encode = λ s. count_decode-encode b'/' s (λ e. absurd (omega (arith, e)));
  standard_alphabet = λ s. All-count_encode is_standard b'/' s refl refl;
}

abbrev builtins : List Builtin
builtins =
    record { key = codes "cpu"; lines = codes "a" ∷ codes "b" ∷ [] }
    ∷ record { key = codes "mem"; lines = [] }
    ∷ []

abbrev customs : List Custom
customs = record { name = codes "up"; output = codes "SrvBoxSep.b64." } ∷ []

two_builtins-IsPrintable : All (IsPrintable counts) builtins
unfolding marker_key custom_result_name strip_prefix
two_builtins-IsPrintable = ground arith

parse_script_segments-printed_example :
    parse_script_segments counts (unlines (all_lines counts builtins customs))
    ≡ map builtin_segment builtins ++ map custom_segment customs
parse_script_segments-printed_example =
    parse_script_segments-printed counts counts-IsLawful builtins customs two_builtins-IsPrintable
      (refl, tt)

up-IsCustom : custom_result_name (custom_result_key (codes "up")) ≡ some (codes "up")
unfolding custom_result_name custom_result_key strip_prefix
up-IsCustom = refl

-- A line of text, and a line that looks like a marker of the program's own.
abbrev spoof : List Text
spoof = codes "ok" ∷ cmd_marker counts (codes "cpu") ∷ []

spoof_named : All (λ line. ¬ IsNameless counts line) spoof
unfolding cmd_marker pop_char strip_suffix strip_prefix count_encode letters
spoof_named = ground arith

later_sections-IsCustom_example :
    let s =
      scan_lines counts
        (record { current = some (custom_result_key (codes "up")); buf = []; result = [] })
        spoof in
    (more : List (Text × Text)) × ((flush counts s).result ≡ [] ++ more)
    × All (λ segment. IsCustom segment.0) more
later_sections-IsCustom_example =
    later_sections-IsCustom counts spoof (custom_result_key (codes "up")) [] []
      (codes "up", up-IsCustom) spoof_named

nameless_marker-opens_example :
    let s = scan counts counts-IsLawful (some (custom_result_key (codes "up"))) [] [] in
    ((scan_lines counts s (cmd_marker counts (codes "cpu") ∷ [])).current
      ≡ some (custom_result_key (codes "up")))
    × ((scan_lines counts s
          (custom_cmd_marker counts [] ∷ cmd_marker counts (codes "cpu") ∷ [])).current
        ≡ some (codes "cpu"))
nameless_marker-opens_example =
    nameless_marker-opens counts counts-IsLawful (custom_result_key (codes "up")) (codes "up") []
      (codes "cpu") [] up-IsCustom

name_from_file-file_name_example :
    custom_cmd_name_from_file_for counts windows
      (custom_cmd_file_name counts 200 (codes "up") ++ codes ".ps1")
    ≡ some (codes "up")
name_from_file-file_name_example =
    name_from_file-file_name counts counts-IsLawful windows 200 (codes "up")

file_name-sorted_run :
    text_ltb
      (custom_cmd_file_name counts 9900 (codes "up"))
      (custom_cmd_file_name counts 10000 (codes "df"))
    ≡ true
file_name-sorted_run =
    file_name-sorted counts 9900 10000 (codes "up") (codes "df") (omega arith) (omega arith)

-- Past the bound the order of the files is no longer that of the places.
thousandth_sorts_first :
    text_ltb (custom_cmd_file_name counts 100000 []) (custom_cmd_file_name counts 99900 []) ≡ true
unfolding custom_cmd_file_name pad decimal
thousandth_sorts_first = refl

printed_order : custom_cmd_file_name counts 200 [] ≡ codes "00200_"
unfolding custom_cmd_file_name pad decimal count_encode
printed_order = refl
