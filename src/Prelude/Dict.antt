-- ===== src/Prelude/Dict.antt =====
-- Python's `dict` as the list of its items in insertion order.
use Prim.Native.Nat.{ℕ, suc, ◌+◌, ◌≤◌}
use mathlib.Core.Path.{◌≡◌, refl}
use mathlib.Core.Option.{Option, none, some}
use mathlib.Core.List.{List, [], ◌∷◌}
use native.Mathlib.Omega.{arith}
use ai_planed_map.Prelude.Tests.{if◌then◌else◌}
use ai_planed_map.Prelude.Lists.{length}
use ai_planed_map.Prelude.Equality.{Eq, ◌==◌}

abbrev pub Dict {ℓ κ} : Type ℓ → Type κ → Type (ℓ ⊔ κ)
Dict K V = List (K × V)

module _ {ℓ κ} {K : Type ℓ} {V : Type κ} ⦃e : Eq K⦄ where
  -- d.get(k)
  abbrev pub get : K → Dict K V → Option V
  get k [] = none
  get k ((j, v) ∷ d) = if j == k then some v else get k d

  -- d[k] = v: a key that is there keeps its place, a new one goes to the end.
  abbrev pub put : K → V → Dict K V → Dict K V
  put k v [] = (k, v) ∷ []
  put k v ((j, w) ∷ d) = let rest = put k v d in if j == k then (j, v) ∷ d else (j, w) ∷ rest

  -- d.pop(k, None)
  abbrev pub remove : K → Dict K V → Dict K V
  remove k [] = []
  remove k ((j, w) ∷ d) = let rest = remove k d in if j == k then rest else (j, w) ∷ rest

  pub get-put :
      (k j : K) (v : V) (d : Dict K V) → get j (put k v d) ≡ (if k == j then some v else get j d)
  get-put k j v [] = refl
  get-put k j v ((i, w) ∷ d) =
      ground (arith, e.beq_iff i k, e.beq_iff i j, e.beq_iff k j, get-put k j v d)

  pub get-remove :
      (k j : K) (d : Dict K V) → get j (remove k d) ≡ (if k == j then none else get j d)
  get-remove k j [] = ground arith
  get-remove k j ((i, w) ∷ d) =
      ground (arith, e.beq_iff i k, e.beq_iff i j, e.beq_iff k j, get-remove k j d)

  pub length-remove-le : (k : K) (d : Dict K V) → length (remove k d) ≤ length d
  length-remove-le k [] = omega arith
  length-remove-le k ((i, w) ∷ d) = ground (arith, length-remove-le k d)

  -- The keys are distinct, as in every dictionary that `put` and `remove` build.
  abbrev pub IsDistinct : Dict K V → Type (ℓ ⊔ κ)
  IsDistinct [] = Unit
  IsDistinct ((k, v) ∷ d) = (get k d ≡ none) × IsDistinct d

  pub put-IsDistinct : (k : K) (v : V) (d : Dict K V) → IsDistinct d → IsDistinct (put k v d)
  put-IsDistinct k v [] h = (refl, tt)
  put-IsDistinct k v ((i, w) ∷ d) h =
      ground (arith, e.beq_iff i k, e.beq_iff k i, get-put k i v d, put-IsDistinct k v d h.1)

  pub remove-IsDistinct : (k : K) (d : Dict K V) → IsDistinct d → IsDistinct (remove k d)
  remove-IsDistinct k [] h = tt
  remove-IsDistinct k ((i, w) ∷ d) h = ground (arith, get-remove k i d, remove-IsDistinct k d h.1)

  pub remove_absent : (k : K) (d : Dict K V) → get k d ≡ none → remove k d ≡ d
  remove_absent k [] h = refl
  remove_absent k ((i, w) ∷ d) h = ground (arith, remove_absent k d)

  pub length-put_absent :
      (k : K) (v : V) (d : Dict K V) → get k d ≡ none → length (put k v d) ≡ suc (length d)
  length-put_absent k v [] h = refl
  length-put_absent k v ((i, w) ∷ d) h = ground (arith, length-put_absent k v d)

  pub length-put_present :
      (k : K) (v : V) (d : Dict K V) (w : V) → get k d ≡ some w → length (put k v d) ≡ length d
  length-put_present k v [] w h = cc
  length-put_present k v ((i, u) ∷ d) w h = ground (arith, length-put_present k v d w)

  pub length-remove_present :
      (k : K) (d : Dict K V) (w : V)
      → IsDistinct d
      → get k d ≡ some w
      → suc (length (remove k d)) ≡ length d
  length-remove_present k [] w u h = cc
  length-remove_present k ((i, v) ∷ d) w u h =
      ground (arith, e.beq_iff i k, remove_absent k d, length-remove_present k d w u.1)

module _ {ℓ} {K : Type ℓ} ⦃e : Eq K⦄ where
  -- The sum of the values.
  abbrev pub total : Dict K ℕ → ℕ
  total [] = 0
  total ((k, n) ∷ d) = n + total d

  -- d.pop(k, 0), the value that is taken out
  abbrev pub get_or_zero : K → Dict K ℕ → ℕ
  get_or_zero k d = elim (get k d) [ none ↦ 0 | some n ↦ n ]

  pub total-remove :
      (k : K) (d : Dict K ℕ) → IsDistinct d → total (remove k d) + get_or_zero k d ≡ total d
  total-remove k [] h = refl
  total-remove k ((i, n) ∷ d) h =
      ground (arith, e.beq_iff i k, remove_absent k d, total-remove k d h.1)

  pub total-put_absent :
      (k : K) (n : ℕ) (d : Dict K ℕ) → get k d ≡ none → total (put k n d) ≡ total d + n
  total-put_absent k n [] h = omega arith
  total-put_absent k n ((i, m) ∷ d) h = ground (arith, total-put_absent k n d)
