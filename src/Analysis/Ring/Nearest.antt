-- ===== src/Analysis/Ring/Nearest.antt =====
-- sector-gates.ts: the nearest point of a ring.
use mathlib.Core.Path.{subst}
use kab23_motorsport_telemet.Prelude.{
  ℕ, zero, suc, ◌+◌, ◌≡◌, refl, ap, ◌∙◌, true, false, List, [], ◌∷◌, All, Bool-cases, inl, inr, ◌⊎◌,
  arith,
}
use kab23_motorsport_telemet.Analysis.Numbers.{Numbers, IsOrdered, ◌<?◌}
use kab23_motorsport_telemet.Analysis.Placing.{Place}
use kab23_motorsport_telemet.Analysis.Ring.{metres_between, nearest_from, nearest_index}

module _ {F : Type 0} where
  -- The element of a list at an index is this.
  abbrev pub At : List (Place F) → ℕ → Place F → Type 0
  At [] i q = ⊥
  At (r ∷ rs) zero q = r ≡ q
  At (r ∷ rs) (suc i) q = At rs i q

module _ {F : Type 0} ⦃num : Numbers F⦄ (laws : IsOrdered F) where
  abbrev pub NoneNearer : Place F → F → List (Place F) → Type 0
  NoneNearer point m ring = All (λ q. (metres_between point q <? m) ≡ false) ring

  -- The index with its distance: the best so far, or one of the list.
  abbrev Found : Place F → ℕ → ℕ → F → List (Place F) → ℕ → F → Type 0
  Found point i best_index best_m ring index m =
      ((index ≡ best_index) × (m ≡ best_m))
      ⊎ ((k : ℕ) × (q : Place F) × (index ≡ i + k) × At ring k q × (m ≡ metres_between point q))

  abbrev Nearest : Place F → ℕ → ℕ → F → List (Place F) → Type 0
  Nearest point i best_index best_m ring =
      (m : F) × Found point i best_index best_m ring (nearest_from point i best_index best_m ring) m
      × NoneNearer point m ring
      × ((best_m <? m) ≡ false)
      × ((m ≡ best_m) ⊎ ((m <? best_m) ≡ true))

  not_nearer :
      (d best m : F) → (d <? best) ≡ false → (m ≡ best) ⊎ ((m <? best) ≡ true) → (d <? m) ≡ false
  not_nearer d best m far (inl same) = ap (λ x. d <? x) same ∙ far
  not_nearer d best m far (inr nearer) = ground (arith, laws.lt_trans d m best)

  nearer_still :
      (d best m : F) → (d <? best) ≡ true → (m ≡ d) ⊎ ((m <? d) ≡ true) → (m <? best) ≡ true
  nearer_still d best m near (inl same) = ap (λ x. x <? best) same ∙ near
  nearer_still d best m near (inr more) = laws.lt_trans m d best more near

  not_back : (a b : F) → (a <? b) ≡ true → (b <? a) ≡ false
  not_back a b less = ground (arith, laws.lt_trans b a b, laws.lt_irrefl b)

  at_head :
      (point : Place F) (i best_index : ℕ) (best_m : F) (r : Place F) (rs : List (Place F))
      (index : ℕ) (m : F)
      → Found point (suc i) i (metres_between point r) rs index m
      → Found point i best_index best_m (r ∷ rs) index m
  at_head point i best_index best_m r rs index m (inl (same, size)) =
      inr (0, r, omega arith, refl, size)
  at_head point i best_index best_m r rs index m (inr (k, q, same, at, size)) =
      inr (suc k, q, omega arith, at, size)

  at_tail :
      (point : Place F) (i best_index : ℕ) (best_m : F) (r : Place F) (rs : List (Place F))
      (index : ℕ) (m : F)
      → Found point (suc i) best_index best_m rs index m
      → Found point i best_index best_m (r ∷ rs) index m
  at_tail point i best_index best_m r rs index m (inl kept) = inl kept
  at_tail point i best_index best_m r rs index m (inr (k, q, same, at, size)) =
      inr (suc k, q, omega arith, at, size)

  nearest_from_lem :
      (point : Place F) (i best_index : ℕ) (best_m : F) (ring : List (Place F))
      → Nearest point i best_index best_m ring
  unfolding nearest_from
  nearest_from_lem point i best_index best_m [] =
      (best_m, inl (refl, refl), tt, laws.lt_irrefl best_m, inl refl)
  nearest_from_lem point i best_index best_m (r ∷ rs) =
      let d = metres_between point r in
      elim (Bool-cases (d <? best_m)) [
        | inl near ↦
            let (m, found, rest, mine, from) = nearest_from_lem point (suc i) i d rs in
            let below = nearer_still d best_m m near from in
            rw near (
              m,
              at_head point i best_index best_m r rs _ m found,
              (mine, rest),
              not_back m best_m below,
              inr below,
            )
        | inr far ↦
            let (m, found, rest, mine, from) =
              nearest_from_lem point (suc i) best_index best_m rs in
            rw far (
              m,
              at_tail point i best_index best_m r rs _ m found,
              (not_nearer d best_m m far from, rest),
              mine,
              from,
            )
      ]

  nearest_of :
      (point r : Place F) (rs : List (Place F)) (index : ℕ) (m : F)
      → (metres_between point r <? num.infinity) ≡ true
      → Found point 0 0 num.infinity (r ∷ rs) index m
      → NoneNearer point m (r ∷ rs)
      → (q : Place F) × At (r ∷ rs) index q × NoneNearer point (metres_between point q) (r ∷ rs)
  nearest_of point r rs index m finite (inl (same, size)) (least, rest) =
      let reached : (metres_between point r <? m) ≡ true =
        ap (λ x. metres_between point r <? x) size ∙ finite in
      absurd (ground arith)
  nearest_of point r rs index m finite (inr (k, q, same, at, size)) least =
      let there : k ≡ index = omega arith in
      (
        q,
        subst (λ i. At (r ∷ rs) i q) there at,
        subst (λ x. NoneNearer point x (r ∷ rs)) size least,
      )

  pub nearest_index-NoneNearer :
      (r : Place F) (rs : List (Place F)) (point : Place F)
      → (metres_between point r <? num.infinity) ≡ true
      → (q : Place F) × At (r ∷ rs) (nearest_index (r ∷ rs) point) q
        × NoneNearer point (metres_between point q) (r ∷ rs)
  unfolding nearest_index
  nearest_index-NoneNearer r rs point finite =
      let (m, found, least, mine, from) = nearest_from_lem point 0 0 num.infinity (r ∷ rs) in
      nearest_of point r rs (nearest_from point 0 0 num.infinity (r ∷ rs)) m finite found least
