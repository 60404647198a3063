-- ===== src/CustomCmds/Validation.antt =====
-- Which lists of commands `validate` accepts (monitor/src/monitoring/custom_cmds.rs).
use azad_server_box.Prelude.{
  ◌≤◌, ◌≡◌, ◌≢◌, ◌↔◌, refl, sym, subst, false, Bool-cases, Option-cases, inl, inr, none, List, [],
  ◌∷◌, All, any, is_empty, Text, text_eq, text_beq, text_beq_iff, ◌==◌, ok, arith,
}
use azad_server_box.Prelude.Strings.{trim}
use azad_server_box.CustomCmds.{
  CustomCmd, max_name_len, byte_len, complaint, validate_from, validate,
}

-- A name that is there, stands without white space around it and is short enough, and a command that is there.
abbrev pub IsFine : CustomCmd → Type 0
IsFine c =
    (c.name ≢ []) × (byte_len c.name ≤ max_name_len) × (trim c.name ≡ c.name) × (trim c.cmd ≢ [])

-- No name stands among the earlier ones.
abbrev pub AreFine : List Text → List CustomCmd → Type 0
AreFine seen [] = Unit
AreFine seen (c ∷ cmds) =
    IsFine c × All (λ other. other ≢ c.name) seen × AreFine (c.name ∷ seen) cmds

not_any :
    (name : Text) (seen : List Text)
    → (any (λ other. other == name) seen ≡ false) ↔ All (λ other. other ≢ name) seen
not_any name [] = ground arith
not_any name (other ∷ seen) = ground (arith, not_any name seen, text_beq_iff other name)

not_empty : (s : Text) → (is_empty s ≡ false) ↔ (s ≢ [])
not_empty [] = ground arith
not_empty (c ∷ s) = ground arith

complaint-none_iff :
    (seen : List Text) (c : CustomCmd)
    → (complaint seen c ≡ none) ↔ (IsFine c × All (λ other. other ≢ c.name) seen)
unfolding complaint
complaint-none_iff seen c = elim (Bool-cases (text_beq (trim c.name) c.name)) [
  | inl e ↦
      let same = (text_beq_iff (trim c.name) c.name).0 e in
      ground (arith, e, same, not_any c.name seen, not_empty c.name, not_empty (trim c.cmd))
  | inr e ↦ ground (arith, e, text_beq_iff (trim c.name) c.name)
]

validate_from-ok_iff :
    (seen : List Text) (cmds : List CustomCmd)
    → (validate_from seen cmds ≡ ok tt) ↔ AreFine seen cmds
unfolding validate_from
validate_from-ok_iff seen [] = (λ h. tt, λ h. refl)
validate_from-ok_iff seen (c ∷ cmds) =
    let fine = complaint-none_iff seen c in
    elim (Option-cases (complaint seen c)) [
      | inl e ↦
          let (f, new) = fine.0 e in
          let (_, _, same, _) = f in
          let rest = validate_from-ok_iff (trim c.name ∷ seen) cmds in
          (
            λ h.
                (f, new, subst (λ n. AreFine (n ∷ seen) cmds) same (rest.0 (ground (arith, h, e)))),
            λ (g, k, more).
                rw (e, validate_from)
                  (rest.1 (subst (λ n. AreFine (n ∷ seen) cmds) (sym same) more)),
          )
      | inr (x, e) ↦ (
        λ h. absurd (ground (arith, h, e)),
        λ (g, k, more). absurd (ground (arith, fine.1 (g, k), e)),
      )
    ]

-- A list of commands is accepted exactly when each name is not empty, has at most 64 bytes, no white space around it and differs from
-- the names before it, and each command is more than white space.
pub validate-ok_iff : (cmds : List CustomCmd) → (validate cmds ≡ ok tt) ↔ AreFine [] cmds
unfolding validate
validate-ok_iff cmds = validate_from-ok_iff [] cmds
