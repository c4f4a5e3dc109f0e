-- ===== src/Route/Enumeration/Complete.antt =====
-- The enumerations have every arrangement and every choice, and nothing else.
use mathlib.Core.List.{append_assoc}
use ai_planed_map.Prelude.{
  ℕ, zero, suc, ◌+◌, ◌≡◌, refl, sym, ap, ◌∙◌, List, [], ◌∷◌, ◌++◌, arith, length, ◌⊎◌, inl, inr,
}
use ai_planed_map.Route.Enumeration.{
  range_from, picks_after, picks, prefixed, arranged, permutations, spread, product,
}

pub data In {ℓ} {A : Type ℓ} (x : A) : List A → Type ℓ where
  here : {y : A} {ys : List A} → x ≡ y → In x (y ∷ ys)
  there : {y : A} {ys : List A} → In x ys → In x (y ∷ ys)

module _ {ℓ} {A : Type ℓ} where
  pub In-cons : (x y : A) (ys : List A) → In x (y ∷ ys) → (x ≡ y) ⊎ In x ys
  In-cons x y ys (here e) = inl e
  In-cons x y ys (there h) = inr h

  pub In-second : {x : A} (y z : A) (ys : List A) → In x (y ∷ ys) → In x (y ∷ z ∷ ys)
  In-second y z ys (here e) = here e
  In-second y z ys (there h) = there (there h)

  pub In-append_left : (x : A) (xs ys : List A) → In x xs → In x (xs ++ ys)
  In-append_left x [] ys h = elim h [ ]
  In-append_left x (y ∷ xs) ys (here e) = here e
  In-append_left x (y ∷ xs) ys (there h) = there (In-append_left x xs ys h)

  pub In-append_right : (x : A) (xs ys : List A) → In x ys → In x (xs ++ ys)
  In-append_right x [] ys h = h
  In-append_right x (y ∷ xs) ys h = there (In-append_right x xs ys h)

  pub In-append : (x : A) (xs ys : List A) → In x (xs ++ ys) → In x xs ⊎ In x ys
  In-append x [] ys h = inr h
  In-append x (y ∷ xs) ys (here e) = inl (here e)
  In-append x (y ∷ xs) ys (there h) = elim (In-append x xs ys h) [
    | inl l ↦ inl (there l)
    | inr r ↦ inr r
  ]

module _ {ℓ} {A : Type ℓ} where
  -- `x` stands somewhere in a list, of which the rest is `rest`.
  pub data Picked (x : A) : List A → List A → Type ℓ where
    first : {xs : List A} → Picked x xs (x ∷ xs)
    later : {rest xs : List A} (y : A) → Picked x rest xs → Picked x (y ∷ rest) (y ∷ xs)

  -- The first list is the second one in some order.
  pub data Arrangement : List A → List A → Type ℓ where
    empty : Arrangement [] []
    next :
        {ys rest xs : List A} (y : A)
        → Picked y rest xs
        → Arrangement ys rest
        → Arrangement (y ∷ ys) xs

  -- One of each group.
  pub data Choice : List A → List (List A) → Type ℓ where
    nothing : Choice [] []
    one :
        {xs group : List A} {groups : List (List A)} (x : A)
        → In x group
        → Choice xs groups
        → Choice (x ∷ xs) (group ∷ groups)

  pub Picked-length : {x : A} {rest xs : List A} → Picked x rest xs → length xs ≡ suc (length rest)
  Picked-length first = refl
  Picked-length (later y h) = ap suc (Picked-length h)

  pub Arrangement-length : {ys xs : List A} → Arrangement ys xs → length ys ≡ length xs
  Arrangement-length empty = refl
  Arrangement-length (next y at h) = omega (arith, Picked-length at, Arrangement-length h)

  In-prefixed :
      (x : A) (ys : List A) (yss : List (List A)) → In ys yss → In (x ∷ ys) (prefixed x yss)
  In-prefixed x ys [] h = elim h [ ]
  In-prefixed x ys (zs ∷ yss) (here e) = here (ap (λ l. x ∷ l) e)
  In-prefixed x ys (zs ∷ yss) (there h) = there (In-prefixed x ys yss h)

  prefixed-In :
      (x : A) (l : List A) (yss : List (List A))
      → In l (prefixed x yss)
      → (ys : List A) × (l ≡ x ∷ ys) × In ys yss
  prefixed-In x l [] h = elim h [ ]
  prefixed-In x l (zs ∷ yss) (here e) = (zs, e, here refl)
  prefixed-In x l (zs ∷ yss) (there h) = let (ys, e, i) = prefixed-In x l yss h in (ys, e, there i)

  In-picks_after :
      {x : A} {rest xs : List A} (before : List A)
      → Picked x rest xs
      → In {A = A × List A} (x, before ++ rest) (picks_after before xs)
  In-picks_after before first = here refl
  In-picks_after {x} before (later {rest} {xs} y h) =
      there (rw (append_assoc before (y ∷ []) rest) at (In-picks_after (before ++ y ∷ []) h))

  picks_after-In :
      (x : A) (rest before xs : List A)
      → In {A = A × List A} (x, rest) (picks_after before xs)
      → (r : List A) × (rest ≡ before ++ r) × Picked x r xs
  picks_after-In x rest before [] h = elim h [ ]
  picks_after-In x rest before (y ∷ xs) (here e) =
      let same : y ≡ x = ap (λ q. q.0) (sym e) in (xs, ap (λ q. q.1) e, rw same first)
  picks_after-In x rest before (y ∷ xs) (there h) =
      let (r, e, k) = picks_after-In x rest (before ++ y ∷ []) xs h in
      (y ∷ r, e ∙ append_assoc before (y ∷ []) r, later y k)

  In-arranged :
      (inner : List A → List (List A)) (x : A) (rest ys : List A) (ps : List (A × List A))
      → In {A = A × List A} (x, rest) ps
      → In ys (inner rest)
      → In (x ∷ ys) (arranged inner ps)
  In-arranged inner x rest ys [] h i = elim h [ ]
  In-arranged inner x rest ys ((y, more) ∷ ps) (here e) i =
      let head : x ≡ y = ap (λ q. q.0) e in
      let tail : rest ≡ more = ap (λ q. q.1) e in
      In-append_left (x ∷ ys) (prefixed y (inner more)) (arranged inner ps)
        (rw (← head, ← tail) (In-prefixed x ys (inner rest) i))
  In-arranged inner x rest ys ((y, more) ∷ ps) (there h) i =
      In-append_right (x ∷ ys) (prefixed y (inner more)) (arranged inner ps)
        (In-arranged inner x rest ys ps h i)

  arranged-In :
      (inner : List A → List (List A)) (l : List A) (ps : List (A × List A))
      → In l (arranged inner ps)
      → (x : A) × (rest ys : List A) × (l ≡ x ∷ ys)
        × In {A = A × List A} (x, rest) ps
        × In ys (inner rest)
  arranged-In inner l [] h = elim h [ ]
  arranged-In inner l ((x, rest) ∷ ps) h =
      elim (In-append l (prefixed x (inner rest)) (arranged inner ps) h) [
        | inl now ↦
            let (ys, e, i) = prefixed-In x l (inner rest) now in (x, rest, ys, e, here refl, i)
        | inr after ↦
            let (z, more, ys, e, k, i) = arranged-In inner l ps after in
            (z, more, ys, e, there k, i)
      ]

  -- Every arrangement is among the permutations,
  pub In-permutations : {ys xs : List A} → Arrangement ys xs → In ys (permutations (length ys) xs)
  unfolding permutations
  In-permutations empty = here refl
  In-permutations (next {ys} {rest} {xs} y at h) =
      In-arranged (permutations (length ys)) y rest ys (picks xs) (In-picks_after [] at)
        (In-permutations h)

  -- and each permutation is an arrangement.
  pub permutations-In :
      (n : ℕ) (ys xs : List A) → length xs ≡ n → In ys (permutations n xs) → Arrangement ys xs
  unfolding permutations
  permutations-In zero ys [] e (here same) = rw same empty
  permutations-In zero ys [] e (there h) = elim h [ ]
  permutations-In zero ys (x ∷ xs) e h = absurd (omega arith)
  permutations-In (suc n) ys xs e h =
      let (x, rest, zs, same, i, k) = arranged-In (permutations n) ys (picks xs) h in
      let (r, is, at) = picks_after-In x rest [] xs i in
      let at' : Picked x rest xs = rw is at in
      rw same (next x at' (permutations-In n zs rest (omega (arith, Picked-length at')) k))

  In-spread :
      (x : A) (ys group : List A) (tails : List (List A))
      → In x group
      → In ys tails
      → In (x ∷ ys) (spread group tails)
  In-spread x ys [] tails h i = elim h [ ]
  In-spread x ys (y ∷ group) tails (here e) i =
      In-append_left (x ∷ ys) (prefixed y tails) (spread group tails)
        (rw (← e) (In-prefixed x ys tails i))
  In-spread x ys (y ∷ group) tails (there h) i =
      In-append_right (x ∷ ys) (prefixed y tails) (spread group tails)
        (In-spread x ys group tails h i)

  spread-In :
      (l group : List A) (tails : List (List A))
      → In l (spread group tails)
      → (x : A) × (ys : List A) × (l ≡ x ∷ ys) × In x group × In ys tails
  spread-In l [] tails h = elim h [ ]
  spread-In l (y ∷ group) tails h = elim (In-append l (prefixed y tails) (spread group tails) h) [
    | inl now ↦ let (ys, e, i) = prefixed-In y l tails now in (y, ys, e, here refl, i)
    | inr after ↦ let (x, ys, e, i, k) = spread-In l group tails after in (x, ys, e, there i, k)
  ]

  -- Every choice of one from each group is in the product,
  pub In-product :
      {xs : List A} {groups : List (List A)} → Choice xs groups → In xs (product groups)
  unfolding product
  In-product nothing = here refl
  In-product (one {xs} {group} {groups} x i h) =
      In-spread x xs group (product groups) i (In-product h)

  -- and what is in the product is such a choice.
  pub product-In :
      (xs : List A) (groups : List (List A)) → In xs (product groups) → Choice xs groups
  unfolding product
  product-In xs [] (here e) = rw e nothing
  product-In xs [] (there h) = elim h [ ]
  product-In xs (group ∷ groups) h =
      let (x, ys, e, i, k) = spread-In xs group (product groups) h in
      rw e (one x i (product-In ys groups k))

pub length-range_from : (start n : ℕ) → length (range_from start n) ≡ n
length-range_from start zero = refl
length-range_from start (suc n) = ap suc (length-range_from (start + 1) n)
