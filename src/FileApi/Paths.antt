-- ===== src/FileApi/Paths.antt =====
-- Paths of monitor/src/api/fs.rs: their equality, their text, and where a write parks its bytes.
use azad_server_box.Prelude.{
  ℕ, ◌≡◌, ◌≢◌, ◌↔◌, inl, inr, refl, sym, ap, ◌∙◌, Bool, true, false, ◌&&◌, List, [], ◌∷◌, ◌++◌,
  arith, any, Text, codes, Eq, ◌==◌, text_eq, text_beq_iff,
}
use mathlib.Core.List.{append-nil}
use azad_server_box.Script.Decimal.{decimal}
use azad_server_box.FsRoots.{FilePath}
use azad_server_box.FsRoots.Confinement.{IsUnder}

abbrev pub path_beq : FilePath → FilePath → Bool
path_beq [] [] = true
path_beq (x ∷ xs) (y ∷ ys) = x == y && path_beq xs ys
path_beq _ _ = false

pub path_beq_iff : (a b : FilePath) → (path_beq a b ≡ true) ↔ (a ≡ b)
path_beq_iff [] [] = ground arith
path_beq_iff [] (y ∷ ys) = ground arith
path_beq_iff (x ∷ xs) [] = ground arith
path_beq_iff (x ∷ xs) (y ∷ ys) = ground (arith, path_beq_iff xs ys, text_beq_iff x y)

instance abbrev pub path_eq : Eq FilePath
path_eq = record { test = path_beq; decides = path_beq_iff }

-- `to_string_lossy` of an absolute path.
unfoldable pub exposed_tail : FilePath → Text
exposed_tail [] = []
exposed_tail (c ∷ cs) = b'/' ∷ (c ++ exposed_tail cs)

unfoldable pub exposed_path : FilePath → Text
unfolding exposed_tail
exposed_path [] = codes "/"
exposed_path (c ∷ cs) = exposed_tail (c ∷ cs)

-- A text pushed to the end of a path: onto its last name, or below `/`.
unfoldable pub push_text : Text → FilePath → FilePath
push_text suffix [] = suffix ∷ []
push_text suffix (c ∷ []) = (c ++ suffix) ∷ []
push_text suffix (c ∷ d ∷ cs) = c ∷ push_text suffix (d ∷ cs)

-- The process id and the counter are arguments.
unfoldable pub staging_suffix : ℕ → ℕ → Text
unfolding decimal
staging_suffix pid n = codes ".sbm-part-" ++ (decimal 10 pid ++ b'-' ∷ decimal 20 n)

unfoldable pub staging_path : ℕ → ℕ → FilePath → FilePath
unfolding push_text staging_suffix
staging_path pid n path = push_text (staging_suffix pid n) path

-- `as_slice().iter().any(|root| root == &path)`
unfoldable pub is_root : List FilePath → FilePath → Bool
is_root roots path = any (λ root. root == path) roots

append-longer : (c suffix : Text) (b : ℕ) → c ++ (b ∷ suffix) ≢ c
append-longer [] suffix b e = ground (arith, e)
append-longer (x ∷ c) suffix b e = append-longer c suffix b (ground (arith, e))

pub push_text-differs :
    (b : ℕ) (suffix : Text) (path : FilePath) → push_text (b ∷ suffix) path ≢ path
unfolding push_text
push_text-differs b suffix [] e = ground (arith, e)
push_text-differs b suffix (c ∷ []) e = append-longer c suffix b (ground (arith, e))
push_text-differs b suffix (c ∷ d ∷ cs) e = push_text-differs b suffix (d ∷ cs) (ground (arith, e))

push_text-append :
    (suffix : Text) (root : FilePath) (c : Text) (cs : FilePath)
    → push_text suffix (root ++ c ∷ cs) ≡ root ++ push_text suffix (c ∷ cs)
unfolding push_text
push_text-append suffix [] c cs = refl
push_text-append suffix (r ∷ []) c cs = refl
push_text-append suffix (r ∷ s ∷ root) c cs =
    ap (λ p. r ∷ p) (push_text-append suffix (s ∷ root) c cs)

-- Below a root, the parked bytes are below it too.
pub push_text-IsUnder :
    (suffix : Text) (roots : List FilePath) (path : FilePath)
    → IsUnder roots path
    → is_root roots path ≡ false
    → IsUnder roots (push_text suffix path)
unfolding is_root
push_text-IsUnder suffix [] path u n = u
push_text-IsUnder suffix (root ∷ roots) path (inr u) n =
    inr (push_text-IsUnder suffix roots path u (ground (arith, n)))
push_text-IsUnder suffix (root ∷ roots) path (inl ([], e)) n =
    absurd (ground (arith, n, (path_beq_iff root path).1 (sym (e ∙ append-nil root))))
push_text-IsUnder suffix (root ∷ roots) path (inl (c ∷ cs, e)) n =
    inl (push_text suffix (c ∷ cs), ap (push_text suffix) e ∙ push_text-append suffix root c cs)
