-- ===== src/Analysis/Trace/Thinning.antt =====
-- lap-trace.ts: which points a thinned trace keeps.
use kab23_motorsport_telemet.Prelude.{
  ℕ, ◌-◌, ◌≡◌, refl, ◌||◌, List, [], ◌∷◌, ltb, leb, length, Bool-cases, inl, inr,
}
use kab23_motorsport_telemet.Analysis.Numbers.{Numbers, ◌⊕◌, ◌⊗◌, ◌⊘◌, ◌≤?◌, whole}
use kab23_motorsport_telemet.Analysis.Trace.{TracePoint, final, thin, decimate_by_distance}

module _ {F : Type 0} where
  -- The first list has points of the second, in their order.
  pub data Thins : List (TracePoint F) → List (TracePoint F) → Type 0 where
    none_left : Thins [] []
    keeps : (p : TracePoint F) {ks ps : List (TracePoint F)} → Thins ks ps → Thins (p ∷ ks) (p ∷ ps)
    drops : (p : TracePoint F) {ks ps : List (TracePoint F)} → Thins ks ps → Thins ks (p ∷ ps)

  keeps_all : (ps : List (TracePoint F)) → Thins ps ps
  keeps_all [] = none_left
  keeps_all (p ∷ ps) = keeps p (keeps_all ps)

module _ {F : Type 0} ⦃num : Numbers F⦄ where
  -- A thinning of this trace with its first and its last point.
  abbrev pub KeepsEnds : TracePoint F → List (TracePoint F) → List (TracePoint F) → Type 0
  KeepsEnds p ps kept =
      (ks : List (TracePoint F)) × (kept ≡ p ∷ ks) × Thins ks ps × (final p ks ≡ final p ps)

  thin-KeepsLast :
      (spacing next_m : F) (p q : TracePoint F) (qs : List (TracePoint F))
      → Thins (thin spacing next_m q qs) (q ∷ qs)
        × (final p (thin spacing next_m q qs) ≡ final q qs)
  unfolding thin
  thin-KeepsLast spacing next_m p q [] = (keeps q none_left, refl)
  thin-KeepsLast spacing next_m p q (r ∷ rs) = elim (Bool-cases (next_m ≤? q.dist_m)) [
    | inl due ↦
        let onward =
          thin-KeepsLast spacing ((num.floor (q.dist_m ⊘ spacing) ⊕ whole 1) ⊗ spacing) q r rs in
        rw due (keeps q onward.0, onward.1)
    | inr early ↦
        let onward = thin-KeepsLast spacing next_m p r rs in rw early (drops q onward.0, onward.1)
  ]

  pub decimate_by_distance-KeepsEnds :
      (p : TracePoint F) (ps : List (TracePoint F)) (max_points : ℕ)
      → KeepsEnds p ps (decimate_by_distance (p ∷ ps) max_points)
  unfolding decimate_by_distance
  decimate_by_distance-KeepsEnds p [] max_points = ([], refl, none_left, refl)
  decimate_by_distance-KeepsEnds p (q ∷ qs) max_points =
      elim (Bool-cases (leb (length (p ∷ q ∷ qs)) max_points || ltb max_points 2)) [
        | inl fits ↦ rw fits (q ∷ qs, refl, keeps_all (q ∷ qs), refl)
        | inr long ↦
            let spacing = (final q qs).dist_m ⊘ whole (max_points - 1) in
            let thinned = thin-KeepsLast spacing spacing p q qs in
            rw long (thin spacing spacing q qs, refl, thinned.0, thinned.1)
      ]
