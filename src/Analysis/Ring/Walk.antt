-- ===== src/Analysis/Ring/Walk.antt =====
-- sector-gates.ts: the walk around a ring passes every point and ends where it starts.
use native.Mathlib.Nat.{mod-eq_of_lt, add-mod_right}
use kab23_motorsport_telemet.Prelude.{
  ℕ, zero, suc, ◌+◌, ◌-◌, ◌%◌, ◌<◌, ◌≡◌, refl, ap, sym, ◌∙◌, List, [], ◌∷◌, ◌++◌, map, length, leb,
  Bool-cases, inl, inr, arith,
}
use kab23_motorsport_telemet.Analysis.Numbers.{Numbers, ◌⊕◌, whole}
use kab23_motorsport_telemet.Analysis.Crossing.{Direction, ahead, back}
use kab23_motorsport_telemet.Analysis.Placing.{Place, OffsetPoint}
use kab23_motorsport_telemet.Analysis.Ring.{
  element_at, walked, metres_between, ordered_from, offsets_after, build_directed_ring,
}

over : (j n : ℕ) → j < n → (j + n) % n ≡ j
over j n inside = add-mod_right j n ∙ mod-eq_of_lt inside

-- The number of steps after which a walk is at an index.
abbrev Reached : Direction → ℕ → ℕ → ℕ → Type 0
Reached direction n start j = (i : ℕ) × (i < n) × (walked direction n start i ≡ j)

walked-reaches :
    (direction : Direction) (n start j : ℕ) → start < n → j < n → Reached direction n start j
unfolding walked
walked-reaches ahead n start j begins inside = elim (Bool-cases (leb start j)) [
  | inl later ↦
      let step : start + (j - start) ≡ j = ground arith in
      (j - start, ground arith, ap (λ k. k % n) step ∙ mod-eq_of_lt inside)
  | inr earlier ↦
      let step : start + (j + n - start) ≡ j + n = ground arith in
      (j + n - start, ground arith, ap (λ k. k % n) step ∙ over j n inside)
]
walked-reaches back n start j begins inside = elim (Bool-cases (leb j start)) [
  | inl earlier ↦
      let step : start + n - (start - j) ≡ j + n = ground arith in
      (start - j, ground arith, ap (λ k. k % n) step ∙ over j n inside)
  | inr later ↦
      let step : start + n - (start + n - j) ≡ j = ground arith in
      (start + n - j, ground arith, ap (λ k. k % n) step ∙ mod-eq_of_lt inside)
]

walked-start :
    (direction : Direction) (n start : ℕ) → start < n → walked direction n start 0 ≡ start
unfolding walked
walked-start ahead n start begins =
    let step : start + 0 ≡ start = omega arith in ap (λ k. k % n) step ∙ mod-eq_of_lt begins
walked-start back n start begins =
    let step : start + n - 0 ≡ start + n = omega arith in ap (λ k. k % n) step ∙ over start n begins

module _ {F : Type 0} ⦃num : Numbers F⦄ where
  abbrev pub places : List (OffsetPoint F) → List (Place F)
  places ps = map (λ (p : OffsetPoint F). p.at) ps

  places-offsets_after :
      (last : OffsetPoint F) (qs : List (Place F)) → places (offsets_after last qs) ≡ qs
  unfolding offsets_after
  places-offsets_after last [] = refl
  places-offsets_after last (q ∷ qs) =
      ap (λ rest. q ∷ rest)
        (places-offsets_after (record { at = q; dist_m = last.dist_m ⊕ metres_between last.at q })
          qs)

  length-ordered_from :
      (r : Place F) (rs : List (Place F)) (start : ℕ) (direction : Direction) (i n : ℕ)
      → length (ordered_from r rs start direction i n) ≡ n
  unfolding ordered_from
  length-ordered_from r rs start direction i zero = refl
  length-ordered_from r rs start direction i (suc n) =
      ap suc (length-ordered_from r rs start direction (suc i) n)

  element_at-ordered_from :
      (r x : Place F) (rs : List (Place F)) (start : ℕ) (direction : Direction) (i n k : ℕ)
      → k < n
      → element_at x (ordered_from r rs start direction (suc i) n) (suc k)
        ≡ element_at r rs (walked direction (length (r ∷ rs)) start (suc (i + k)))
  unfolding ordered_from element_at
  element_at-ordered_from r x rs start direction i zero k inside = absurd (omega arith)
  element_at-ordered_from r x rs start direction i (suc n) zero inside =
      ap (λ j. element_at r rs (walked direction (length (r ∷ rs)) start (suc j))) (omega arith)
  element_at-ordered_from r x rs start direction i (suc n) (suc k) inside =
      element_at-ordered_from r (element_at r rs (walked direction (length (r ∷ rs)) start (suc i)))
        rs start direction (suc i) n k (omega arith)
      ∙ ap (λ j. element_at r rs (walked direction (length (r ∷ rs)) start (suc j))) (omega arith)

  -- Each point of the ring is a point of this array.
  abbrev pub Visits : Place F → List (Place F) → Place F → List (Place F) → Type 0
  Visits r rs q qs =
      (j : ℕ)
      → j < length (r ∷ rs)
      → (i : ℕ) × (i < length (r ∷ rs)) × (element_at q qs i ≡ element_at r rs j)

  -- A walk once around the ring from the point at an index, and back to it.
  abbrev pub Circles : Place F → List (Place F) → ℕ → List (Place F) → Type 0
  Circles r rs start walk =
      let q = element_at r rs start in
      (qs : List (Place F)) × (walk ≡ q ∷ qs ++ q ∷ []) × (length qs ≡ length rs) × Visits r rs q qs

  element_at-ordered :
      (r : Place F) (rs : List (Place F)) (start : ℕ) (direction : Direction) (i : ℕ)
      → start < length (r ∷ rs)
      → i < length (r ∷ rs)
      → element_at (element_at r rs start) (ordered_from r rs start direction 1 (length rs)) i
        ≡ element_at r rs (walked direction (length (r ∷ rs)) start i)
  unfolding element_at
  element_at-ordered r rs start direction zero begins early =
      ap (element_at r rs) (sym (walked-start direction (length (r ∷ rs)) start begins))
  element_at-ordered r rs start direction (suc k) begins early =
      element_at-ordered_from r (element_at r rs start) rs start direction 0 (length rs) k
        (omega arith)
      ∙ ap (λ j. element_at r rs (walked direction (length (r ∷ rs)) start (suc j))) (omega arith)

  ordered_from-Visits :
      (r : Place F) (rs : List (Place F)) (start : ℕ) (direction : Direction)
      → start < length (r ∷ rs)
      → Visits r rs (element_at r rs start) (ordered_from r rs start direction 1 (length rs))
  ordered_from-Visits r rs start direction begins j inside =
      let (i, early, there) = walked-reaches direction (length (r ∷ rs)) start j begins inside in
      (
        i,
        early,
        element_at-ordered r rs start direction i begins early ∙ ap (element_at r rs) there,
      )

  -- From a point of a ring, in either direction, the walk starts at the point, passes every
  -- point of the ring and ends where it starts, and has one point more than the ring.
  pub build_directed_ring-Circles :
      (r : Place F) (rs : List (Place F)) (start : ℕ) (direction : Direction)
      → start < length (r ∷ rs)
      → Circles r rs start (places (build_directed_ring r rs start direction))
  unfolding build_directed_ring ordered_from
  build_directed_ring-Circles r rs start direction begins =
      let qs = ordered_from r rs start direction 1 (length rs) in
      let here = element_at r rs (walked direction (length (r ∷ rs)) start 0) in
      let first = ap (element_at r rs) (walked-start direction (length (r ∷ rs)) start begins) in
      (
        qs,
        ap (λ ps. here ∷ ps)
              (places-offsets_after (record { at = here; dist_m = whole 0 }) (qs ++ here ∷ []))
            ∙ ap (λ q. q ∷ qs ++ q ∷ []) first,
        length-ordered_from r rs start direction 1 (length rs),
        ordered_from-Visits r rs start direction begins,
      )
