-- ===== src/Wire/Segments.antt =====
-- `String.prototype.split` by a separator of one character, given by its code.
use Prim.Native.Char.{Char, code}
use Prim.Native.String
use text.Mathlib.TextLemmas.{nil-append, cons-append, append_assoc}
use text.Mathlib.TextEquality.{Char-path}
use kab23_motorsport_telemet.Prelude.{
  ℕ, String, ◌≡◌, ◌≢◌, refl, ap, ◌∙◌, ◌=ⁿ◌, Bool-cases, inl, inr, List, [], ◌∷◌, arith,
  if◌then◌else◌,
}

infixr 65 ◌⧺◌
abbrev pub ◌⧺◌ : String → String → String
s ⧺ t = String.◌++◌ s t

-- A character goes before the first segment.
abbrev pub longer : Char → List String → List String
longer c [] = String.◌∷◌ c "" ∷ []
longer c (s ∷ ss) = String.◌∷◌ c s ∷ ss

unfoldable pub split : ℕ → String → List String
split sep String.[] = "" ∷ []
split sep (String.◌∷◌ c s) =
    let rest = split sep s in if code c =ⁿ sep then "" ∷ rest else longer c rest

abbrev pub Without : ℕ → String → Type 0
Without sep String.[] = Unit
Without sep (String.◌∷◌ c s) = (code c ≢ sep) × Without sep s

-- `ss.join(sep)`
unfoldable pub join : Char → List String → String
join sep [] = ""
join sep (s ∷ []) = s
join sep (s ∷ t ∷ ss) = s ⧺ String.◌∷◌ sep (join sep (t ∷ ss))

-- A text with no separator in it is its own only segment.
pub split-Without : (sep : ℕ) (s : String) → Without sep s → split sep s ≡ s ∷ []
unfolding split
split-Without sep String.[] h = refl
split-Without sep (String.◌∷◌ c s) (apart, h) = ground (arith, split-Without sep s h)

-- What stands before the first separator is the first segment.
pub split-append :
    (sep : Char) (s t : String)
    → Without (code sep) s
    → split (code sep) (s ⧺ String.◌∷◌ sep t) ≡ s ∷ split (code sep) t
unfolding split
split-append sep String.[] t h = rw nil-append (ground arith)
split-append sep (String.◌∷◌ c s) t (apart, h) =
    rw cons-append (ground (arith, split-append sep s t h))

join-longer :
    (sep c : Char) (ss : List String) → join sep (longer c ss) ≡ String.◌∷◌ c (join sep ss)
unfolding join
join-longer sep c [] = refl
join-longer sep c (s ∷ []) = refl
join-longer sep c (s ∷ t ∷ ss) = cons-append c s (String.◌∷◌ sep (join sep (t ∷ ss)))

longer-cons :
    (c : Char) (ss : List String) → (x : String) × (xs : List String) × (longer c ss ≡ x ∷ xs)
longer-cons c [] = (String.◌∷◌ c "", [], refl)
longer-cons c (s ∷ ss) = (String.◌∷◌ c s, ss, refl)

split-cons : (sep : ℕ) (s : String) → (x : String) × (xs : List String) × (split sep s ≡ x ∷ xs)
unfolding split
split-cons sep String.[] = ("", [], refl)
split-cons sep (String.◌∷◌ c s) = elim (Bool-cases (code c =ⁿ sep)) [
  | inl same ↦ ("", split sep s, rw same)
  | inr other ↦ rw other (longer-cons c (split sep s))
]

join_empty :
    (sep : Char) (ss : List String) (x : String) (xs : List String)
    → ss ≡ x ∷ xs
    → join sep ("" ∷ ss) ≡ String.◌∷◌ sep (join sep ss)
unfolding join
join_empty sep ss x xs e = rw e (nil-append _)

-- Splitting loses nothing.
pub join-split : (sep : Char) (s : String) → join sep (split (code sep) s) ≡ s
unfolding split
join-split sep String.[] = unfold join in refl
join-split sep (String.◌∷◌ c s) =
    let (x, xs, shape) = split-cons (code sep) s in
    let ih = join-split sep s in
    elim (Bool-cases (code c =ⁿ code sep)) [
      | inl same ↦
          rw (same, join_empty sep (split (code sep) s) x xs shape, ih)
            (ap (λ d. String.◌∷◌ d s) (Char-path sep c (ground arith)))
      | inr other ↦ rw (other, join-longer sep c (split (code sep) s), ih)
    ]

-- A text before a literal that begins with the separator.
pub literal_sep : (sep : Char) (s t : String) → (s ⧺ String.◌∷◌ sep "") ⧺ t ≡ s ⧺ String.◌∷◌ sep t
literal_sep sep s t =
    append_assoc s _ t ∙ ap (◌⧺◌ s) (cons-append sep "" t ∙ ap (String.◌∷◌ sep) (nil-append t))
