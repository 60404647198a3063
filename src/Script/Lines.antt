-- ===== src/Script/Lines.antt =====
-- Lines of a text and their ends, as crates/sbm_parser/src/script.rs takes them apart.
use azad_server_box.Prelude.{
  ℕ, ◌≡◌, ◌≢◌, refl, sym, ap, ◌∙◌, Bool-cases, inl, inr, none, some, List, [], ◌∷◌, ◌++◌, nat_beq,
  All, Text, arith,
}
use mathlib.Core.List.{append_assoc}
use azad_server_box.Prelude.Strings.{
  split, split_terminator, drop_last_empty, strip_suffix, pop_char,
}
use azad_server_box.Script.Decimal.{All-append}

-- No line feed and no return.
abbrev pub IsPlain : ℕ → Type 0
IsPlain c = (c ≢ b'\n') × (c ≢ b'\r')

strip_suffix-none : (q : ℕ) (s : Text) → All (λ c. c ≢ q) s → strip_suffix q s ≡ none
unfolding strip_suffix
strip_suffix-none q [] h = refl
strip_suffix-none q (c ∷ []) h = ground (arith, h.0)
strip_suffix-none q (c ∷ d ∷ s) h = rw (strip_suffix-none q (d ∷ s) h.1) refl

strip_suffix-last : (q : ℕ) (s : Text) → strip_suffix q (s ++ q ∷ []) ≡ some s
unfolding strip_suffix
strip_suffix-last q [] = ground arith
strip_suffix-last q (c ∷ []) = ground arith
strip_suffix-last q (c ∷ d ∷ s) = rw (strip_suffix-last q (d ∷ s)) refl

pub pop_char-none : (q : ℕ) (s : Text) → All (λ c. c ≢ q) s → pop_char q s ≡ s
unfolding pop_char
pop_char-none q s h = rw (strip_suffix-none q s h, pop_char) refl

pub pop_char-last : (q : ℕ) (s : Text) → pop_char q (s ++ q ∷ []) ≡ s
unfolding pop_char
pop_char-last q s = rw (strip_suffix-last q s, pop_char) refl

pub no_return : (s : Text) → All IsPlain s → All (λ c. c ≢ b'\r') s
no_return [] h = tt
no_return (c ∷ s) h = (h.0.1, no_return s h.1)

-- Each line and a line feed.
abbrev pub unlines : List Text → Text
unlines [] = []
unlines (line ∷ lines) = line ++ b'\n' ∷ unlines lines

split-line :
    (line rest : Text)
    → All IsPlain line
    → split b'\n' (line ++ b'\n' ∷ rest) ≡ line ∷ split b'\n' rest
unfolding split
split-line [] rest h = refl
split-line (c ∷ line) rest h = ground (arith, split-line line rest h.1, h.0.0)

split-cons : (sep : ℕ) (s : Text) → (a : Text) × (more : List Text) × (split sep s ≡ a ∷ more)
unfolding split
split-cons sep [] = ([], [], refl)
split-cons sep (c ∷ s) = elim (Bool-cases (nat_beq c sep)) [
  | inl e ↦ ([], split sep s, rw e refl)
  | inr e ↦ let (a, more, f) = split-cons sep s in (c ∷ a, more, rw (e, f) refl)
]

drop_last_empty-cons :
    (a b : Text) (more : List Text)
    → drop_last_empty (a ∷ b ∷ more) ≡ a ∷ drop_last_empty (b ∷ more)
drop_last_empty-cons [] b more = refl
drop_last_empty-cons (c ∷ a) b more = refl

-- The lines of a text are those it was made of.
pub split_terminator-unlines :
    (lines : List Text) → All (All IsPlain) lines → split_terminator b'\n' (unlines lines) ≡ lines
unfolding split_terminator
split_terminator-unlines [] h = refl
split_terminator-unlines (line ∷ lines) h =
    let (a, more, e) = split-cons b'\n' (unlines lines) in
    ap drop_last_empty (split-line line (unlines lines) h.0)
    ∙ ap (λ pieces. drop_last_empty (line ∷ pieces)) e
    ∙ drop_last_empty-cons line a more
    ∙ ap (λ pieces. line ∷ drop_last_empty pieces) (sym e)
    ∙ ap (◌∷◌ line) (split_terminator-unlines lines h.1)

-- Lines with line feeds between them.
abbrev pub join : List Text → Text
join [] = []
join (line ∷ []) = line
join (line ∷ second ∷ lines) = line ++ b'\n' ∷ join (second ∷ lines)

unlines-join :
    (line : Text) (lines : List Text) → unlines (line ∷ lines) ≡ join (line ∷ lines) ++ b'\n' ∷ []
unlines-join line [] = refl
unlines-join line (second ∷ lines) =
    ap (λ s. line ++ b'\n' ∷ s) (unlines-join second lines)
    ∙ sym (append_assoc line (b'\n' ∷ join (second ∷ lines)) (b'\n' ∷ []))

join-no_return : (lines : List Text) → All (All IsPlain) lines → All (λ c. c ≢ b'\r') (join lines)
join-no_return [] h = tt
join-no_return (line ∷ []) h = no_return line h.0
join-no_return (line ∷ second ∷ lines) h =
    All-append (λ c. c ≢ b'\r') line (b'\n' ∷ join (second ∷ lines)) (no_return line h.0)
      (λ e. absurd (omega (arith, e)), join-no_return (second ∷ lines) h.1)

-- What the end of a section takes off is the last line feed.
pub pop_char-unlines :
    (lines : List Text)
    → All (All IsPlain) lines
    → pop_char b'\r' (pop_char b'\n' (unlines lines)) ≡ join lines
pop_char-unlines [] h = ap (pop_char b'\r') (pop_char-none b'\n' [] tt) ∙ pop_char-none b'\r' [] tt
pop_char-unlines (line ∷ lines) h =
    ap (λ s. pop_char b'\r' (pop_char b'\n' s)) (unlines-join line lines)
    ∙ ap (pop_char b'\r') (pop_char-last b'\n' (join (line ∷ lines)))
    ∙ pop_char-none b'\r' (join (line ∷ lines)) (join-no_return (line ∷ lines) h)
