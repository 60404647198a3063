-- ===== src/TimeSeries/History.antt =====
-- The bounded history of monitor/src/monitoring/timeseries.rs against the list of everything that was added.
use azad_server_box.Prelude.{
  ℕ, ◌+◌, ◌-◌, ◌≤◌, ◌<◌, max, ◌≡◌, refl, subst, if◌then◌else◌, sym, ap, ◌∙◌, Bool-cases, inl, inr,
  List, [], ◌∷◌, ◌++◌, arith, leb, length, drop, length-append, length-drop, drop-drop,
  drop-append_le, drop-nil,
}
use azad_server_box.TimeSeries.{TimeSeries, TimeSeriesData, new_series, add_point}
use mathlib.Core.List.{append_assoc, append-nil}

-- The last n.
abbrev pub last {ℓ} : {A : Type ℓ} → ℕ → List A → List A
last n xs = drop (length xs - n) xs

abbrev pub add_points {ℓ} : {A : Type ℓ} → TimeSeries A → List (TimeSeriesData A) → TimeSeries A
add_points s [] = s
add_points s (p ∷ ps) = add_points (add_point s p.value p.timestamp) ps

module _ {ℓ} {A : Type ℓ} where
  last-snoc :
      (n : ℕ) (xs : List A) (x : A)
      → 0 < n
      → last n (xs ++ x ∷ []) ≡ drop (length (last n xs) + 1 - n) (last n xs) ++ x ∷ []
  last-snoc n xs x h =
      let e = length-drop (length xs - n) xs in
      let l = length-append xs (x ∷ []) in
      let same : length (xs ++ x ∷ []) - n ≡ length xs + 1 - n = omega (arith, l) in
      ap (λ k. drop k (xs ++ x ∷ [])) same
      ∙ drop-append_le (length xs + 1 - n) xs (x ∷ []) (omega arith)
      ∙ ap (λ ys. ys ++ x ∷ [])
          (ap (λ k. drop k xs) (omega (arith, e))
            ∙ sym (drop-drop (length (last n xs) + 1 - n) (length xs - n) xs))

  length-last : (n : ℕ) (xs : List A) → length (last n xs) ≤ n
  length-last n xs = let e = length-drop (length xs - n) xs in omega (arith, e)

  drop_full :
      (m : ℕ) (xs : List A)
      → length xs ≤ max 1 m
      → (if leb m (length xs) then drop 1 xs else xs) ≡ drop (length xs + 1 - max 1 m) xs
  drop_full m [] h = rw (drop-nil {A = A} (0 + 1 - max 1 m)) (ground arith)
  drop_full m (x ∷ xs) h = elim (Bool-cases (leb m (length (x ∷ xs)))) [
    | inl e ↦
        let same : length (x ∷ xs) + 1 - max 1 m ≡ 1 = ground (arith, h, e) in rw (e, same) refl
    | inr e ↦
        let same : length (x ∷ xs) + 1 - max 1 m ≡ 0 = ground (arith, h, e) in rw (e, same) refl
  ]

module _ {ℓ} {A : Type ℓ} where
  IsLast : ℕ → TimeSeries A → List (TimeSeriesData A) → Type ℓ
  IsLast m s ps = (s.max_points ≡ m) × (s.points ≡ last (max 1 m) ps)

  add_point-IsLast :
      (m : ℕ) (s : TimeSeries A) (ps : List (TimeSeriesData A)) (p : TimeSeriesData A)
      → IsLast m s ps
      → IsLast m (add_point s p.value p.timestamp) (ps ++ p ∷ [])
  unfolding IsLast add_point
  add_point-IsLast m s ps p (k, e) = (
    k,
    rw (k, e)
        (ap (λ ys. ys ++ p ∷ []) (drop_full m (last (max 1 m) ps) (length-last (max 1 m) ps))
          ∙ sym (last-snoc (max 1 m) ps p (omega arith))),
  )

  add_points-IsLast :
      (m : ℕ) (s : TimeSeries A) (past ps : List (TimeSeriesData A))
      → IsLast m s past
      → IsLast m (add_points s ps) (past ++ ps)
  add_points-IsLast m s past [] h = subst (IsLast m s) (sym (append-nil past)) h
  add_points-IsLast m s past (p ∷ ps) h = subst (IsLast m _) (append_assoc past (p ∷ []) ps) (
      add_points-IsLast m (add_point s p.value p.timestamp) (past ++ p ∷ []) ps
        (add_point-IsLast m s past p h))

-- However many points are added to a new series, it holds the last of them, in order, as many as its limit says, and one
-- where the limit is 0.
pub add_points-history {ℓ} :
    {A : Type ℓ} (max_points : ℕ) (ps : List (TimeSeriesData A))
    → (add_points (new_series max_points) ps).points ≡ last (max 1 max_points) ps
unfolding IsLast
add_points-history max_points ps =
    (add_points-IsLast max_points (new_series max_points) [] ps
      (refl, sym (drop-nil (0 - max 1 max_points)))).1
