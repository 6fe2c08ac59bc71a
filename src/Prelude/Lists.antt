-- ===== src/Prelude/Lists.antt =====
-- Lists measured and searched with Boolean tests, over the native numbers.
use Prim.Native.Nat.{ℕ, suc, ◌+◌, ◌≤◌}
use mathlib.Core.Path.{◌≡◌, refl}
use mathlib.Core.Bool.{Bool, true, false, ◌||◌}
use mathlib.Core.List.{List, [], ◌∷◌, ◌++◌}
use mathlib.Core.Option.{Option, none, some}
use native.Mathlib.Omega.{arith}
use kab23_motorsport_telemet.Prelude.Tests.{if◌then◌else◌}

module _ {ℓ} {A : Type ℓ} where
  abbrev pub length : List A → ℕ
  length [] = 0
  length (x ∷ xs) = suc (length xs)

  pub length-append : (xs ys : List A) → length (xs ++ ys) ≡ length xs + length ys
  length-append [] ys = omega arith
  length-append (x ∷ xs) ys = omega (arith, length-append xs ys)

  -- `xs.filter(p)`
  abbrev pub select : (A → Bool) → List A → List A
  select p [] = []
  select p (x ∷ xs) = if p x then x ∷ select p xs else select p xs

  -- `xs.some(p)`
  abbrev pub any : (A → Bool) → List A → Bool
  any p [] = false
  any p (x ∷ xs) = p x || any p xs

  -- `xs.find(p)`
  abbrev pub find : (A → Bool) → List A → Option A
  find p [] = none
  find p (x ∷ xs) = if p x then some x else find p xs

  abbrev pub count : (A → Bool) → List A → ℕ
  count p [] = 0
  count p (x ∷ xs) = if p x then suc (count p xs) else count p xs

  -- What a `DELETE` with this condition leaves.
  abbrev pub reject : (A → Bool) → List A → List A
  reject p [] = []
  reject p (x ∷ xs) = if p x then reject p xs else x ∷ reject p xs

  -- What an `UPDATE` with this condition leaves.
  abbrev pub rewrite : (A → Bool) → (A → A) → List A → List A
  rewrite p f [] = []
  rewrite p f (x ∷ xs) = (if p x then f x else x) ∷ rewrite p f xs

module _ {ℓ κ} {A : Type ℓ} (P : A → Type κ) where
  abbrev pub All : List A → Type κ
  All [] = Unit
  All (x ∷ xs) = P x × All xs

module _ {ℓ} {A : Type ℓ} where
  pub count-append : (p : A → Bool) (xs ys : List A) → count p (xs ++ ys) ≡ count p xs + count p ys
  count-append p [] ys = omega arith
  count-append p (x ∷ xs) ys = ground (arith, count-append p xs ys)

  pub find-holds : (p : A → Bool) (xs : List A) (a : A) → find p xs ≡ some a → p a ≡ true
  find-holds p [] a e = ground arith
  find-holds p (x ∷ xs) a e = ground (arith, find-holds p xs a)

  pub find-eq-none : (p : A → Bool) (xs : List A) → find p xs ≡ none → count p xs ≡ 0
  find-eq-none p [] e = refl
  find-eq-none p (x ∷ xs) e = ground (arith, find-eq-none p xs)

  -- Every test that a found element passes is passed by some element.
  pub find-count :
      (p q : A → Bool) (xs : List A) (a : A) → find p xs ≡ some a → q a ≡ true → 1 ≤ count q xs
  find-count p q [] a e h = ground arith
  find-count p q (x ∷ xs) a e h = ground (arith, find-count p q xs a)

  pub any-count : (p : A → Bool) (xs : List A) → any p xs ≡ false → count p xs ≡ 0
  any-count p [] e = refl
  any-count p (x ∷ xs) e = ground (arith, any-count p xs)

  pub reject_none : (p : A → Bool) (xs : List A) → count p xs ≡ 0 → reject p xs ≡ xs
  reject_none p [] e = refl
  reject_none p (x ∷ xs) e = ground (arith, reject_none p xs)

  pub rewrite_none : (p : A → Bool) (f : A → A) (xs : List A) → count p xs ≡ 0 → rewrite p f xs ≡ xs
  rewrite_none p f [] e = refl
  rewrite_none p f (x ∷ xs) e = ground (arith, rewrite_none p f xs)

  pub count-reject-le : (p q : A → Bool) (xs : List A) → count q (reject p xs) ≤ count q xs
  count-reject-le p q [] = omega arith
  count-reject-le p q (x ∷ xs) = ground (arith, count-reject-le p q xs)

  -- Deleting by a test that a single element passes takes that element away and no other.
  pub count-reject_unique :
      (p q w : A → Bool) (xs : List A) (a : A)
      → find p xs ≡ some a
      → w a ≡ true
      → count w xs ≤ 1
      → count q (reject w xs) + (if q a then 1 else 0) ≡ count q xs
  count-reject_unique p q w [] a e h u = ground arith
  count-reject_unique p q w (x ∷ xs) a e h u =
      ground (arith, reject_none w xs, count-reject_unique p q w xs a, find-count p w xs a)

  -- So does updating by such a test.
  pub count-rewrite_unique :
      (p q w : A → Bool) (f : A → A) (xs : List A) (a : A)
      → find p xs ≡ some a
      → w a ≡ true
      → count w xs ≤ 1
      → count q (rewrite w f xs) + (if q a then 1 else 0) ≡ count q xs + (if q (f a) then 1 else 0)
  count-rewrite_unique p q w f [] a e h u = ground arith
  count-rewrite_unique p q w f (x ∷ xs) a e h u =
      ground (arith, rewrite_none w f xs, count-rewrite_unique p q w f xs a, find-count p w xs a)

  -- A test that the change does not touch counts the same rows.
  pub count-rewrite_same :
      (p q : A → Bool) (f : A → A) (xs : List A)
      → ((a : A) → q (f a) ≡ q a)
      → count q (rewrite p f xs) ≡ count q xs
  count-rewrite_same p q f [] same = refl
  count-rewrite_same p q f (x ∷ xs) same = ground (arith, same x, count-rewrite_same p q f xs same)

  -- A test that no deleted row passes counts the same rows.
  pub count-reject_apart :
      (p q : A → Bool) (xs : List A)
      → ((a : A) → p a ≡ true → q a ≡ false)
      → count q (reject p xs) ≡ count q xs
  count-reject_apart p q [] apart = refl
  count-reject_apart p q (x ∷ xs) apart = ground (arith, apart x, count-reject_apart p q xs apart)

  pub count-reject_self : (p : A → Bool) (xs : List A) → count p (reject p xs) ≡ 0
  count-reject_self p [] = refl
  count-reject_self p (x ∷ xs) = ground (arith, count-reject_self p xs)

  -- A change after which no changed row passes the test.
  pub count-rewrite-le :
      (p q : A → Bool) (f : A → A) (xs : List A)
      → ((a : A) → q (f a) ≡ false)
      → count q (rewrite p f xs) ≤ count q xs
  count-rewrite-le p q f [] never = omega arith
  count-rewrite-le p q f (x ∷ xs) never = ground (arith, never x, count-rewrite-le p q f xs never)

  -- The row that a search finds is found again after a change that the search does not see.
  pub find-rewrite :
      (p w : A → Bool) (f : A → A) (xs : List A) (a : A)
      → find p xs ≡ some a
      → w a ≡ true
      → ((b : A) → p (f b) ≡ p b)
      → find p (rewrite w f xs) ≡ some (f a)
  find-rewrite p w f [] a e h same = cc
  find-rewrite p w f (x ∷ xs) a e h same = ground (arith, same x, find-rewrite p w f xs a)

  pub find-append :
      (p : A → Bool) (xs : List A) (a : A)
      → find p xs ≡ none
      → p a ≡ true
      → find p (xs ++ a ∷ []) ≡ some a
  find-append p [] a e h = ground arith
  find-append p (x ∷ xs) a e h = ground (arith, find-append p xs a)

  pub find-reject :
      (p w : A → Bool) (xs : List A) (a : A)
      → find p xs ≡ some a
      → w a ≡ false
      → find p (reject w xs) ≡ some a
  find-reject p w [] a e h = cc
  find-reject p w (x ∷ xs) a e h = ground (arith, find-reject p w xs a)

  pub any-find : (p : A → Bool) (xs : List A) → any p xs ≡ false → find p xs ≡ none
  any-find p [] e = refl
  any-find p (x ∷ xs) e = ground (arith, any-find p xs)

  pub count-le :
      (p q : A → Bool) (xs : List A) → ((b : A) → q b ≡ true → p b ≡ true) → count q xs ≤ count p xs
  count-le p q [] sub = omega arith
  count-le p q (x ∷ xs) sub = ground (arith, sub x, count-le p q xs sub)

  -- A sharper test than one that a single element passes: it passes the same element or none.
  pub count_within_unique :
      (p q : A → Bool) (xs : List A) (a : A)
      → find p xs ≡ some a
      → count p xs ≤ 1
      → ((b : A) → q b ≡ true → p b ≡ true)
      → count q xs ≡ (if q a then 1 else 0)
  count_within_unique p q [] a e u sub = cc
  count_within_unique p q (x ∷ xs) a e u sub =
      ground (arith, sub x, count_within_unique p q xs a, count-le p q xs sub, find-count p p xs a)

  pub find-rewrite_apart :
      (p w : A → Bool) (f : A → A) (xs : List A)
      → ((b : A) → w b ≡ true → p b ≡ false)
      → ((b : A) → p (f b) ≡ p b)
      → find p (rewrite w f xs) ≡ find p xs
  find-rewrite_apart p w f [] apart same = refl
  find-rewrite_apart p w f (x ∷ xs) apart same =
      ground (arith, apart x, same x, find-rewrite_apart p w f xs apart same)

  pub count-weaken :
      (p q : A → Bool) (xs : List A)
      → ((x : A) → p x ≡ true → q x ≡ true)
      → count q xs ≡ 0
      → count p xs ≡ 0
  count-weaken p q [] implies e = refl
  count-weaken p q (x ∷ xs) implies e = ground (arith, implies x, count-weaken p q xs implies)

  pub count-any : (p : A → Bool) (xs : List A) → count p xs ≡ 0 → any p xs ≡ false
  count-any p [] e = refl
  count-any p (x ∷ xs) e = ground (arith, count-any p xs)
