-- ===== src/PushLimiter/Window.antt =====
-- The queue of a name against all the pushes that were ever made under it.
use azad_server_box.Prelude.{
  ℕ, suc, ◌+◌, ◌-◌, ◌≤◌, ◌≡◌, refl, sym, ap, ◌∙◌, List, [], ◌∷◌, ◌++◌, ltb, length, if◌then◌else◌,
  is_empty, All, text_eq, arith,
}
use azad_server_box.PushLimiter.{pop_old}

-- The pushes that are still within the window.
abbrev pub count_recent : ℕ → ℕ → List ℕ → ℕ
count_recent window now [] = 0
count_recent window now (t ∷ ts) =
    let rest = count_recent window now ts in if ltb window (now - t) then rest else suc rest

-- In order, and none later than the given instant.
abbrev pub IsAscending : ℕ → List ℕ → Type 0
IsAscending now [] = Unit
IsAscending now (t ∷ ts) = (t ≤ now) × All (λ u. t ≤ u) ts × IsAscending now ts

pub pop_old-later :
    (window now later : ℕ) (ts : List ℕ)
    → now ≤ later
    → pop_old window later (pop_old window now ts) ≡ pop_old window later ts
unfolding pop_old
pop_old-later window now later [] h = refl
pop_old-later window now later (t ∷ ts) h = ground (arith, pop_old-later window now later ts)

pop_old-append :
    (window now : ℕ) (xs ys : List ℕ)
    → pop_old window now (xs ++ ys) ≡ (
        if is_empty (pop_old window now xs)
        then pop_old window now ys
        else pop_old window now xs ++ ys)
unfolding pop_old
pop_old-append window now [] ys = refl
pop_old-append window now (x ∷ xs) ys = ground (arith, pop_old-append window now xs ys)

pub pop_old-same_append :
    (window now : ℕ) (xs zs ys : List ℕ)
    → pop_old window now xs ≡ pop_old window now zs
    → pop_old window now (xs ++ ys) ≡ pop_old window now (zs ++ ys)
pop_old-same_append window now xs zs ys h =
    pop_old-append window now xs ys
    ∙ ap (λ l. if is_empty l then pop_old window now ys else l ++ ys) h
    ∙ sym (pop_old-append window now zs ys)

count_recent-length :
    (window now x : ℕ) (ts : List ℕ)
    → now - x ≤ window
    → All (λ u. x ≤ u) ts
    → count_recent window now ts ≡ length ts
count_recent-length window now x [] h a = refl
count_recent-length window now x (t ∷ ts) h a =
    ground (arith, count_recent-length window now x ts h a.1)

-- In order, what is left after popping is what the window still holds.
pub length-pop_old :
    (window now : ℕ) (ts : List ℕ)
    → IsAscending now ts
    → length (pop_old window now ts) ≡ count_recent window now ts
unfolding pop_old
length-pop_old window now [] h = refl
length-pop_old window now (t ∷ ts) h =
    ground (arith, length-pop_old window now ts h.2, count_recent-length window now t ts)

pub count_recent-snoc :
    (window now t : ℕ) (ts : List ℕ)
    → count_recent window now (ts ++ t ∷ [])
      ≡ count_recent window now ts + count_recent window now (t ∷ [])
count_recent-snoc window now t [] = ground arith
count_recent-snoc window now t (x ∷ ts) = ground (arith, count_recent-snoc window now t ts)

pub count_recent-later :
    (window now later : ℕ) (ts : List ℕ)
    → now ≤ later
    → count_recent window later ts ≤ count_recent window now ts
count_recent-later window now later [] h = omega arith
count_recent-later window now later (t ∷ ts) h =
    ground (arith, count_recent-later window now later ts)

All-snoc :
    (x now : ℕ) (ts : List ℕ) → All (λ u. x ≤ u) ts → x ≤ now → All (λ u. x ≤ u) (ts ++ now ∷ [])
All-snoc x now [] a h = (h, tt)
All-snoc x now (t ∷ ts) a h = (a.0, All-snoc x now ts a.1 h)

pub IsAscending-snoc :
    (now : ℕ) (ts : List ℕ) → IsAscending now ts → IsAscending now (ts ++ now ∷ [])
IsAscending-snoc now [] h = (omega arith, tt, tt)
IsAscending-snoc now (t ∷ ts) h = (h.0, All-snoc t now ts h.1 h.0, IsAscending-snoc now ts h.2)

pub IsAscending-later :
    (now later : ℕ) (ts : List ℕ) → now ≤ later → IsAscending now ts → IsAscending later ts
IsAscending-later now later [] l h = tt
IsAscending-later now later (t ∷ ts) l h =
    (omega (arith, h.0), h.1, IsAscending-later now later ts l h.2)
