-- ===== src/Analysis/Ring.antt =====
-- sector-gates.ts: the centreline of a circuit, walked from the start line the way the car drove.
-- An array with a point in it is its first point and the rest.
pub mod Nearest
pub mod Walk
use kab23_motorsport_telemet.Prelude.{
  ℕ, zero, suc, ◌+◌, ◌-◌, ◌%◌, List, [], ◌∷◌, ◌++◌, Option, none, some, length, leb, find,
  if◌then◌else◌,
}
use kab23_motorsport_telemet.Analysis.Numbers.{Numbers, ◌⊕◌, ◌<?◌, ◌≤?◌, whole}
use kab23_motorsport_telemet.Analysis.Points.{LapPoint, distance_m, last_of}
use kab23_motorsport_telemet.Analysis.Crossing.{Direction, ahead, back}
use kab23_motorsport_telemet.Analysis.Placing.{Place, OffsetPoint}

-- `xs[i]` of an array that starts with `x`; the index is in range.
unfoldable pub element_at {ℓ} : {A : Type ℓ} → A → List A → ℕ → A
element_at x xs zero = x
element_at x [] (suc i) = x
element_at x (y ∷ ys) (suc i) = element_at y ys i

-- The index that is `i` steps from `start` on a ring of `n` points.
unfoldable pub walked : Direction → ℕ → ℕ → ℕ → ℕ
walked ahead n start i = (start + i) % n
walked back n start i = (start + n - i) % n

module _ {F : Type 0} ⦃num : Numbers F⦄ where
  abbrev pub metres_between : Place F → Place F → F
  metres_between p q = distance_m p.lat p.lon q.lat q.lon

  -- The loop from index `i` on, with the best index and its distance so far.
  unfoldable pub nearest_from : Place F → ℕ → ℕ → F → List (Place F) → ℕ
  nearest_from point i best_index best_m [] = best_index
  nearest_from point i best_index best_m (r ∷ rs) =
      let d = metres_between point r in
      nearest_from point (suc i) (if d <? best_m then i else best_index)
        (if d <? best_m then d else best_m) rs

  unfoldable pub nearest_index : List (Place F) → Place F → ℕ
  unfolding nearest_from
  nearest_index ring point = nearest_from point 0 0 num.infinity ring

  abbrev pub direction_probe_m : F
  direction_probe_m = whole 50

  abbrev pub or_last : LapPoint F → List (LapPoint F) → Option (LapPoint F) → LapPoint F
  or_last p ps none = last_of p ps
  or_last p ps (some q) = q

  abbrev pub place_of : LapPoint F → Place F
  place_of p = record { lat = p.lat; lon = p.lon }

  unfoldable pub detect_direction : List (Place F) → ℕ → LapPoint F → List (LapPoint F) → Direction
  unfolding nearest_index
  detect_direction ring sf_index p ps =
      let probe = or_last p ps (find (λ q. direction_probe_m ≤? q.dist_m) (p ∷ ps)) in
      let probe_index = nearest_index ring (place_of probe) in
      let n = length ring in
      let forward_steps = (probe_index + n - sf_index) % n in
      let backward_steps = (sf_index + n - probe_index) % n in
      if leb forward_steps backward_steps then ahead else back

  -- The points from step `i` on, `n` of them.
  unfoldable pub ordered_from : Place F → List (Place F) → ℕ → Direction → ℕ → ℕ → List (Place F)
  unfolding element_at walked
  ordered_from r rs start direction i zero = []
  ordered_from r rs start direction i (suc n) =
      element_at r rs (walked direction (length (r ∷ rs)) start i)
      ∷ ordered_from r rs start direction (suc i) n

  unfoldable pub offsets_after : OffsetPoint F → List (Place F) → List (OffsetPoint F)
  offsets_after last [] = []
  offsets_after last (q ∷ qs) =
      let next : OffsetPoint F = record {
        at = q;
        dist_m = last.dist_m ⊕ metres_between last.at q;
      } in
      next ∷ offsets_after next qs

  abbrev pub closed_walk : List (Place F) → List (OffsetPoint F)
  closed_walk [] = []
  closed_walk (q ∷ qs) =
      let start : OffsetPoint F = record { at = q; dist_m = whole 0 } in
      start ∷ offsets_after start (qs ++ q ∷ [])

  unfoldable pub build_directed_ring :
      Place F → List (Place F) → ℕ → Direction → List (OffsetPoint F)
  unfolding ordered_from offsets_after
  build_directed_ring r rs start direction =
      closed_walk (ordered_from r rs start direction 0 (length (r ∷ rs)))
