-- ===== src/Analysis/Segmenter/Laps.antt =====
-- The laps that the segmenter reports: their numbers, their ends and their length.
use kab23_motorsport_telemet.Prelude.{
  ℕ, suc, ◌≡◌, refl, sym, ap, ◌∙◌, Bool, true, false, List, [], ◌∷◌, ◌++◌, Option, none, some,
  is_some, if◌then◌else◌,
}
use kab23_motorsport_telemet.Analysis.Numbers.{Numbers, ◌⊖◌, ◌≤?◌, whole}
use kab23_motorsport_telemet.Analysis.Points.{
  AnalysisSample, LapPoint, Fix, LapPath, DerivedLap, at_distance, fix_of, last_of, last_point,
  located,
}
use kab23_motorsport_telemet.Analysis.Crossing.{Direction, GateCrossing}
use kab23_motorsport_telemet.Analysis.Segmenter.{
  Options, LapSegmenter, or_else, fresh, min_lap_ms, extend, append, accept_crossing, derived_lap,
  close_lap, anchor_at, open_lap, on_crossing, cross, advance, push, push_all,
}

module _ {F : Type 0} where
  pub last_of-snoc :
      (p : LapPoint F) (ps : List (LapPoint F)) (q : LapPoint F) → last_of p (ps ++ q ∷ []) ≡ q
  unfolding last_of
  last_of-snoc p [] q = refl
  last_of-snoc p (r ∷ rs) q = last_of-snoc r rs q

module _ {F : Type 0} ⦃num : Numbers F⦄ where
  -- A lap starts at distance 0 and lasts as long as a lap must.
  pub record IsLap (l : DerivedLap F) : Type 0 where
    pub from_line : l.points.opening.dist_m ≡ whole 0
    pub long_enough :
        (min_lap_ms ≤? ((last_point l.points).time_ms ⊖ l.points.opening.time_ms)) ≡ true
    pub duration : l.lap_ms ≡ num.nearest ((last_point l.points).time_ms ⊖ l.points.opening.time_ms)

  -- Where the first of these laps opens, or the path that is being driven.
  abbrev pub opens_at : List (DerivedLap F) → LapPath F → Fix F
  opens_at [] path = fix_of path.opening
  opens_at (l ∷ ls) path = fix_of l.points.opening

  -- The laps are numbered from `n` on up to the running one, and each ends in the very fix in which
  -- the next begins.
  abbrev pub Chain : ℕ → List (DerivedLap F) → ℕ → LapPath F → Type 0
  Chain n [] number path = (number ≡ n) × (path.opening.dist_m ≡ whole 0)
  Chain n (l ∷ ls) number path =
      (l.lap_number ≡ n)
      × IsLap l
      × (fix_of (last_point l.points) ≡ opens_at ls path)
      × Chain (suc n) ls number path

  -- Before the first crossing there is nothing; from then on there is a running lap and a direction.
  abbrev pub Segments : LapSegmenter F → Option (LapPath F) → Type 0
  Segments s none = (s.laps ≡ []) × (s.lap_number ≡ 0) × (s.dir_sign ≡ none)
  Segments s (some path) = (is_some s.dir_sign ≡ true) × Chain 1 s.laps s.lap_number path

  fix_of-extend :
      (anchor : Fix F) (path : LapPath F) → fix_of (last_point (extend anchor path)) ≡ anchor
  unfolding extend
  fix_of-extend anchor path = ap fix_of (last_of-snoc path.opening path.after _)

  module _ (options : Options F) where
    derived_lap-IsLap :
        (number : ℕ) (path : LapPath F) (anchor : Fix F)
        → path.opening.dist_m ≡ whole 0
        → (min_lap_ms ≤? (anchor.time_ms ⊖ path.opening.time_ms)) ≡ true
        → IsLap (derived_lap options number (extend anchor path))
    unfolding derived_lap extend
    derived_lap-IsLap number path anchor zeroed long = record {
      from_line = zeroed;
      long_enough =
          ap (λ (t : F). min_lap_ms ≤? (t ⊖ path.opening.time_ms))
            (ap (λ (f : Fix F). f.time_ms) (fix_of-extend anchor path))
          ∙ long;
      duration = refl;
    }

    Chain-open :
        (n : ℕ) (ls : List (DerivedLap F)) (number : ℕ) (path : LapPath F) (anchor : Fix F)
        → Chain n ls number path
        → (min_lap_ms ≤? (anchor.time_ms ⊖ path.opening.time_ms)) ≡ true
        → Chain n
            (ls ++ derived_lap options number (extend anchor path) ∷ [])
            (suc number)
            (record { opening = at_distance (whole 0) anchor; after = [] })
    Chain-open n [] number path anchor (here, zeroed) long = (
      unfold derived_lap in here,
      derived_lap-IsLap number path anchor zeroed long,
      unfold derived_lap in fix_of-extend anchor path,
      (ap suc here, refl),
    )
    Chain-open n (l ∷ []) number path anchor (here, lap, meets, chain) long = (
      here,
      lap,
      unfold derived_lap extend in meets,
      Chain-open (suc n) [] number path anchor chain long,
    )
    Chain-open n (l ∷ m ∷ ls) number path anchor (here, lap, meets, chain) long =
        (here, lap, meets, Chain-open (suc n) (m ∷ ls) number path anchor chain long)

    -- A path that has grown opens where it did.
    Chain-grown :
        (n : ℕ) (ls : List (DerivedLap F)) (number : ℕ) (path grown : LapPath F)
        → grown.opening ≡ path.opening
        → Chain n ls number path
        → Chain n ls number grown
    Chain-grown n [] number path grown same (here, zeroed) =
        (here, ap (λ (p : LapPoint F). p.dist_m) same ∙ zeroed)
    Chain-grown n (l ∷ []) number path grown same (here, lap, meets, chain) = (
      here,
      lap,
      meets ∙ ap fix_of (sym same),
      Chain-grown (suc n) [] number path grown same chain,
    )
    Chain-grown n (l ∷ m ∷ ls) number path grown same (here, lap, meets, chain) =
        (here, lap, meets, Chain-grown (suc n) (m ∷ ls) number path grown same chain)

    abbrev pub IsSound : LapSegmenter F → Type 0
    IsSound s = Segments s s.points

    Chain-closed :
        (anchor : Fix F) (s : LapSegmenter F) (o : Option (LapPath F))
        → Segments s o
        → accept_crossing anchor.time_ms o ≡ true
        → Chain 1
            (close_lap options anchor s o).laps
            (suc s.lap_number)
            (record { opening = at_distance (whole 0) anchor; after = [] })
    unfolding close_lap accept_crossing
    Chain-closed anchor s none (no_laps, number, latch) ok = rw no_laps (ap suc number, refl)
    Chain-closed anchor s (some path) (latch, chain) ok =
        Chain-open 1 s.laps s.lap_number path anchor chain ok

    latched : (o : Option Direction) (d : Direction) → is_some (or_else o d) ≡ true
    latched none d = refl
    latched (some e) d = refl

    -- A crossing that counts.
    open_lap-IsSound :
        (d : Direction) (anchor : Fix F) (s : LapSegmenter F)
        → IsSound s
        → accept_crossing anchor.time_ms s.points ≡ true
        → IsSound (open_lap options d anchor s)
    unfolding open_lap
    open_lap-IsSound d anchor s sound ok =
        (latched s.dir_sign d, Chain-closed anchor s s.points sound ok)

    if-IsSound :
        (b : Bool) (x y : LapSegmenter F)
        → (b ≡ true → IsSound x)
        → IsSound y
        → IsSound (if b then x else y)
    if-IsSound true x y yes_sound sound = yes_sound refl
    if-IsSound false x y yes_sound sound = sound

    on_crossing-IsSound :
        (prev f : Fix F) (o : Option (GateCrossing F)) (s : LapSegmenter F)
        → IsSound s
        → IsSound (on_crossing options prev f o s)
    unfolding on_crossing anchor_at
    on_crossing-IsSound prev f none s sound = sound
    on_crossing-IsSound prev f (some c) s sound =
        if-IsSound (accept_crossing c.cross_ms s.points) _ s
          (open_lap-IsSound c.dir_sign (anchor_at options prev f c) s sound) sound

    cross-IsSound :
        (f : Fix F) (o : Option (Fix F)) (s : LapSegmenter F)
        → IsSound s
        → IsSound (cross options f o s)
    unfolding cross
    cross-IsSound f none s sound = sound
    cross-IsSound f (some prev) s sound = on_crossing-IsSound prev f _ s sound

    append-Segments :
        (f : Fix F) (s : LapSegmenter F) (o : Option (LapPath F))
        → Segments s o
        → Segments s (append f o)
    unfolding append extend
    append-Segments f s none sound = sound
    append-Segments f s (some path) (latch, chain) =
        (latch, Chain-grown 1 s.laps s.lap_number path (extend f path) refl chain)

    advance-IsSound : (f : Fix F) (s : LapSegmenter F) → IsSound s → IsSound (advance options f s)
    unfolding advance
    advance-IsSound f s sound = moved (append f crossed.points) grown
      where
        crossed : LapSegmenter F
        crossed = cross options f s.prev s

        grown : Segments crossed (append f crossed.points)
        grown = append-Segments f crossed crossed.points (cross-IsSound f s.prev s sound)

        moved :
            (o : Option (LapPath F))
            → Segments crossed o
            → Segments (record crossed { prev = some f; points = o }) o
        moved none sound' = sound'
        moved (some path) sound' = sound'

    arrive-IsSound :
        (o : Option (Fix F)) (s : LapSegmenter F)
        → IsSound s
        → IsSound (elim o [ none ↦ s | some f ↦ advance options f s ])
    arrive-IsSound none s sound = sound
    arrive-IsSound (some f) s sound = advance-IsSound f s sound

    push_all-IsSound :
        (samples : List (AnalysisSample F)) (s : LapSegmenter F)
        → IsSound s
        → IsSound (push_all options samples s)
    unfolding push_all push
    push_all-IsSound [] s sound = sound
    push_all-IsSound (x ∷ xs) s sound =
        push_all-IsSound xs (push options x s) (arrive-IsSound (located x) s sound)

    pub push_all-fresh-IsSound :
        (samples : List (AnalysisSample F)) → IsSound (push_all options samples fresh)
    push_all-fresh-IsSound samples = push_all-IsSound samples fresh (refl, refl, refl)
