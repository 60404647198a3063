-- ===== src/Alerts/Sizes.antt =====
-- Sizes read back from a number and a suffix (monitor/src/monitoring/size.rs).
use azad_server_box.Prelude.{
  ℕ, zero, suc, ◌^◌, ◌≡◌, refl, true, false, Option, none, some, [], ◌∷◌, ◌++◌, if◌then◌else◌,
  nat_beq, any, get_elem?, All, Text, text_eq, text_beq, codes, ok, arith,
}
use azad_server_box.Alerts.{F64, suffixes, is_size_suffix, find_suffix, remove_char, size_parse}

-- No suffix among the characters.
abbrev pub IsUnsuffixed : Text → Type 0
IsUnsuffixed = All (λ c. is_size_suffix c ≡ false)

any-append_one :
    (q : ℕ) (s : Text) (c : ℕ)
    → any (λ d. nat_beq d q) s ≡ false
    → any (λ d. nat_beq d q) (s ++ c ∷ []) ≡ nat_beq c q
any-append_one q [] c h = ground arith
any-append_one q (d ∷ s) c h = ground (arith, any-append_one q s c, h)

-- A suffix does not stand among characters that are none.
unsuffixed_any :
    (q : ℕ) (s : Text) → is_size_suffix q ≡ true → IsUnsuffixed s → any (λ d. nat_beq d q) s ≡ false
unfolding is_size_suffix
unsuffixed_any q [] f h = refl
unsuffixed_any q (d ∷ s) f h = ground (arith, unsuffixed_any q s f h.1, h.0, f)

remove_char-append_one :
    (q : ℕ) (s : Text) → any (λ d. nat_beq d q) s ≡ false → remove_char q (s ++ q ∷ []) ≡ s
unfolding remove_char
remove_char-append_one q [] h = ground arith
remove_char-append_one q (d ∷ s) h = ground (arith, remove_char-append_one q s, h)

-- The suffix among the five, with its place.
abbrev place_of : ℕ → Option (ℕ × ℕ)
place_of q =
    if nat_beq q b'b'
    then some (0, b'b')
    else if nat_beq q b'k'
    then some (1, b'k')
    else if nat_beq q b'm'
    then some (2, b'm')
    else if nat_beq q b'g'
    then some (3, b'g')
    else if nat_beq q b't'
    then some (4, b't')
    else none

place : (i q : ℕ) → get_elem? suffixes i ≡ some q → place_of q ≡ some (i, q)
place zero q e = ground (arith, e)
place (suc zero) q e = ground (arith, e)
place (suc (suc zero)) q e = ground (arith, e)
place (suc (suc (suc zero))) q e = ground (arith, e)
place (suc (suc (suc (suc zero)))) q e = ground (arith, e)
place (suc (suc (suc (suc (suc i))))) q e = absurd (ground (arith, e))

-- The suffix that a size ends with is the one that is found.
find_suffix-append_one :
    (s : Text) (i q : ℕ)
    → IsUnsuffixed s
    → get_elem? suffixes i ≡ some q
    → find_suffix 0 suffixes (s ++ q ∷ []) ≡ some (i, q)
unfolding find_suffix is_size_suffix
find_suffix-append_one s i q h e =
    let reads : (x : ℕ)
        → is_size_suffix x ≡ true
        → any (λ d. nat_beq d x) (s ++ q ∷ []) ≡ nat_beq q x =
      λ x f. any-append_one x s q (unsuffixed_any x s f h) in
    rw (reads b'b' refl, reads b'k' refl, reads b'm' refl, reads b'g' refl, reads b't' refl)
      (place i q e)

suffix_of : (i q : ℕ) → get_elem? suffixes i ≡ some q → is_size_suffix q ≡ true
unfolding is_size_suffix
suffix_of zero q e = ground (arith, e)
suffix_of (suc zero) q e = ground (arith, e)
suffix_of (suc (suc zero)) q e = ground (arith, e)
suffix_of (suc (suc (suc zero))) q e = ground (arith, e)
suffix_of (suc (suc (suc (suc zero)))) q e = ground (arith, e)
suffix_of (suc (suc (suc (suc (suc i))))) q e = absurd (ground (arith, e))

not_zero : (c : ℕ) (s : Text) (q : ℕ) → text_beq (c ∷ s ++ q ∷ []) (codes "0") ≡ false
not_zero c [] q = ground arith
not_zero c (d ∷ s) q = ground arith

module _ {F : Type 0} (f64 : F64 F) (to_lowercase : Text → Text) where
  -- A number that is not empty and the i-th suffix behind it, in lower case, are read as the number times 1024 to the i-th.
  pub size_parse-append :
      (c : ℕ) (rest : Text) (i q : ℕ) (number : F)
      → IsUnsuffixed (c ∷ rest)
      → get_elem? suffixes i ≡ some q
      → to_lowercase (c ∷ rest ++ q ∷ []) ≡ c ∷ rest ++ q ∷ []
      → f64.parse (c ∷ rest) ≡ some number
      → size_parse f64 to_lowercase (c ∷ rest ++ q ∷ [])
        ≡ ok (f64.to_u64 (f64.times number (f64.of_nat (1024 ^ i))))
  unfolding size_parse
  size_parse-append c rest i q number h e low parsed =
      rw
        (
          low,
          size_parse,
          not_zero c rest q,
          find_suffix-append_one (c ∷ rest) i q h e,
          low,
          remove_char-append_one q (c ∷ rest) (unsuffixed_any q (c ∷ rest) (suffix_of i q e) h),
          parsed,
        )
        refl
