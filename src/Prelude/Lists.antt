-- ===== src/Prelude/Lists.antt =====
-- Lists measured and indexed by native numbers, under the library's names.
use Prim.Native.Nat.{ℕ, zero, suc, ◌+◌, ◌-◌, ◌≤◌, min}
use mathlib.Core.Path.{◌≡◌, refl, ap, subst}
use mathlib.Core.List.{List, [], ◌∷◌, ◌++◌}
use mathlib.Core.Bool.{Bool, true}
use mathlib.Core.Option.{Option, none, some, some-injective}
use native.Mathlib.Omega.{arith}
use mathlib.Core.Logic.{◌⊎◌, inl, inr}
use ai_planed_map.Prelude.Tests.{if◌then◌else◌}

module _ {ℓ} {A : Type ℓ} where
  abbrev pub length : List A → ℕ
  length [] = 0
  length (x ∷ xs) = suc (length xs)

  abbrev pub get_elem? : List A → ℕ → Option A
  get_elem? [] i = none
  get_elem? (x ∷ xs) zero = some x
  get_elem? (x ∷ xs) (suc i) = get_elem? xs i

  abbrev pub take : ℕ → List A → List A
  take zero xs = []
  take (suc n) [] = []
  take (suc n) (x ∷ xs) = x ∷ take n xs

  abbrev pub drop : ℕ → List A → List A
  drop zero xs = xs
  drop (suc n) [] = []
  drop (suc n) (x ∷ xs) = drop n xs

  -- Python's `xs[-n:]` for a positive n: the last n elements.
  abbrev pub take_last : ℕ → List A → List A
  take_last n xs = drop (length xs - n) xs

  pub length-append : (xs ys : List A) → length (xs ++ ys) ≡ length xs + length ys
  length-append [] ys = omega arith
  length-append (x ∷ xs) ys = omega (arith, length-append xs ys)

  pub length-drop : (n : ℕ) (xs : List A) → length (drop n xs) ≡ length xs - n
  length-drop zero xs = omega arith
  length-drop (suc n) [] = omega arith
  length-drop (suc n) (x ∷ xs) = omega (arith, length-drop n xs)

  pub drop-append : (xs ys : List A) → drop (length xs) (xs ++ ys) ≡ ys
  drop-append [] ys = refl
  drop-append (x ∷ xs) ys = drop-append xs ys

  pub length-take : (n : ℕ) (xs : List A) → length (take n xs) ≡ min n (length xs)
  length-take zero xs = omega arith
  length-take (suc n) [] = omega arith
  length-take (suc n) (x ∷ xs) = omega (arith, length-take n xs)

  pub take-append-drop : (n : ℕ) (xs : List A) → take n xs ++ drop n xs ≡ xs
  take-append-drop zero xs = refl
  take-append-drop (suc n) [] = refl
  take-append-drop (suc n) (x ∷ xs) = ap (λ ys. x ∷ ys) (take-append-drop n xs)

  pub length-take_last-le : (n : ℕ) (xs : List A) → length (take_last n xs) ≤ n
  length-take_last-le n xs = omega (arith, length-drop (length xs - n) xs)

  pub List-cases : (xs : List A) → (xs ≡ []) ⊎ ((x : A) × (r : List A) × (xs ≡ x ∷ r))
  List-cases [] = inl refl
  List-cases (x ∷ r) = inr (x, r, refl)

  -- What holds of every element.
  abbrev pub Every : (A → Type 0) → List A → Type 0
  Every P [] = Unit
  Every P (x ∷ xs) = P x × Every P xs

  pub Every-snoc :
      (P : A → Type 0) (xs : List A) (x : A) → Every P xs → P x → Every P (xs ++ (x ∷ []))
  Every-snoc P [] x all holds = (holds, tt)
  Every-snoc P (y ∷ xs) x all holds = (all.0, Every-snoc P xs x all.1 holds)

  pub Every-get_elem? :
      (P : A → Type 0) (xs : List A) (i : ℕ) (x : A) → Every P xs → get_elem? xs i ≡ some x → P x
  Every-get_elem? P [] i x all e = cc
  Every-get_elem? P (y ∷ xs) zero x all e = subst P (some-injective y x e) all.0
  Every-get_elem? P (y ∷ xs) (suc i) x all e = Every-get_elem? P xs i x all.1 e

  -- The elements that a test accepts, counted.
  abbrev pub how_many : (A → Bool) → List A → ℕ
  how_many test [] = 0
  how_many test (x ∷ xs) = let rest = how_many test xs in if test x then suc rest else rest

  pub how_many-snoc :
      (test : A → Bool) (xs : List A) (x : A)
      → how_many test (xs ++ (x ∷ [])) ≡ how_many test xs + (if test x then 1 else 0)
  how_many-snoc test [] x = ground arith
  how_many-snoc test (y ∷ xs) x = ground (arith, how_many-snoc test xs x)

  pub how_many-le :
      (test other : A → Bool) (xs : List A)
      → ((x : A) → test x ≡ true → other x ≡ true)
      → how_many test xs ≤ how_many other xs
  how_many-le test other [] implies = omega arith
  how_many-le test other (x ∷ xs) implies =
      ground (arith, implies x, how_many-le test other xs implies)
