-- ===== src/Route/Enumeration.antt =====
-- backend/app/services/route_optimizer.py: what its exact search runs through, `product` and
-- `permutations` of itertools, and `_factorial`.
pub mod Complete
use ai_planed_map.Prelude.{ℕ, zero, suc, ◌+◌, ◌*◌, List, [], ◌∷◌, ◌++◌, nat_eq, length}

-- range(n)
abbrev pub range_from : ℕ → ℕ → List ℕ
range_from start zero = []
range_from start (suc n) = start ∷ range_from (start + 1) n

-- `_factorial`
unfoldable pub factorial : ℕ → ℕ
factorial zero = 1
factorial (suc n) = suc n * factorial n

module _ {ℓ} {A : Type ℓ} where
  -- Each element with what is left without it, in order.
  abbrev pub picks_after : List A → List A → List (A × List A)
  picks_after before [] = []
  picks_after before (x ∷ xs) = (x, before ++ xs) ∷ picks_after (before ++ x ∷ []) xs

  abbrev pub picks : List A → List (A × List A)
  picks xs = picks_after [] xs

  abbrev pub prefixed : A → List (List A) → List (List A)
  prefixed x [] = []
  prefixed x (ys ∷ yss) = (x ∷ ys) ∷ prefixed x yss

  -- The arrangements of a pick's rest, each behind the pick.
  abbrev pub arranged : (List A → List (List A)) → List (A × List A) → List (List A)
  arranged inner [] = []
  arranged inner ((x, rest) ∷ more) = prefixed x (inner rest) ++ arranged inner more

  -- itertools.permutations(xs), on the length of `xs`.
  unfoldable pub permutations : ℕ → List A → List (List A)
  permutations zero xs = [] ∷ []
  permutations (suc n) xs = arranged (permutations n) (picks xs)

  abbrev pub spread : List A → List (List A) → List (List A)
  spread [] tails = []
  spread (x ∷ xs) tails = prefixed x tails ++ spread xs tails

  -- itertools.product(*groups)
  unfoldable pub product : List (List A) → List (List A)
  product [] = [] ∷ []
  product (group ∷ groups) = spread group (product groups)

  -- groups of no candidate make the search empty
  abbrev pub search_size : List (List A) → ℕ
  search_size [] = 1
  search_size (group ∷ groups) = length group * search_size groups
