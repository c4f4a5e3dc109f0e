-- ===== src/Plan/Recalculation/Placed.antt =====
-- Where the first loop puts the stops: the node of each is made from the stop and its place.
use mathlib.Core.List.{append_assoc, append-nil}
use ai_planed_map.Prelude.{
  ℕ, zero, suc, ◌+◌, ◌≡◌, ◌≢◌, sym, ap, ◌∙◌, none, some, List, [], ◌∷◌, ◌++◌, arith, get_elem?,
  Bool-cases, inl, inr, nat_eq, ◌==◌, nat_beq_iff, beq_refl,
}
use ai_planed_map.Prelude.Dict.{Dict, get, put, get-put}
use ai_planed_map.Route.Types.{CandidateNode}
use ai_planed_map.Route.Orders.{positions}
use ai_planed_map.Route.Enumeration.Complete.{In, here, there}
use ai_planed_map.Plan.Patch.{Stop}
use ai_planed_map.Plan.Snapshots.{World, contents, identity_broken}
use ai_planed_map.Plan.Recalculation.{Gathered, broken, gather_stop, gather, node_of}
use ai_planed_map.Plan.Recalculation.Identity.{
  Distinct, append_one_ne, gather_stop-cases, gather-conflicts,
}

get-put_same : {V : Type 0} (i : ℕ) (v : V) (d : Dict ℕ V) → get i (put i v d) ≡ some v
get-put_same i v d = ground (arith, get-put i i v d, beq_refl i)

get-put_kept :
    {V : Type 0} (k i : ℕ) (u v : V) (d : Dict ℕ V)
    → get k d ≡ some u
    → get i d ≡ none
    → get k (put i v d) ≡ some u
get-put_kept k i u v d present fresh = elim (Bool-cases (i == k)) [
  | inl same ↦
      let i_is_k : i ≡ k = (nat_beq_iff i k).0 same in absurd (ground (arith, rw i_is_k at fresh))
  | inr other ↦ ground (arith, get-put i k v d)
]

positions_keep :
    (k n from : ℕ) (is : List ℕ) (d : Dict ℕ ℕ)
    → ¬ In k is
    → get k d ≡ some n
    → get k (positions from is d) ≡ some n
positions_keep k n from [] d absent e = e
positions_keep k n from (i ∷ is) d absent e = elim (Bool-cases (i == k)) [
  | inl same ↦ absurd (absent (here (sym ((nat_beq_iff i k).0 same))))
  | inr other ↦
      positions_keep k n (from + 1) is (put i from d) (λ later. absent (there later))
        (ground (arith, get-put i k from d))
]

-- In a list without repetitions each item is found at its place.
pub positions_found :
    (k n from : ℕ) (is : List ℕ) (d : Dict ℕ ℕ)
    → Distinct is
    → get_elem? is n ≡ some k
    → get k (positions from is d) ≡ some (from + n)
positions_found k n from [] d distinct e = cc
positions_found k zero from (i ∷ is) d distinct e =
    let same : i ≡ k = cc in
    let start : from + 0 ≡ from = omega arith in
    rw (← same, start)
      (positions_keep i from (from + 1) is (put i from d) distinct.0 (get-put_same i from d))
positions_found k (suc n) from (i ∷ is) d distinct e =
    let next : from + suc n ≡ (from + 1) + n = omega arith in
    rw next (positions_found k n (from + 1) is (put i from d) distinct.1 e)

module _ (w : World) where
  open w use {python}

  -- The stops one after another from a matrix index on, each with its task and its node.
  pub data Placed (selected : Dict ℕ (CandidateNode python))
      : ℕ → List (Stop (contents w)) → List ℕ → Type 0 where
    none_left : {position : ℕ} → Placed selected position [] []
    place :
        {position : ℕ} {stops : List (Stop (contents w))} {order : List ℕ}
        (stop : Stop (contents w)) (i : ℕ)
        → stop.task_index ≡ some i
        → get i selected ≡ some (node_of w i position stop)
        → Placed selected (position + 1) stops order
        → Placed selected position (stop ∷ stops) (i ∷ order)

  -- A loop that finds a conflict keeps it.
  broken_conflicts :
      (count position : ℕ) (stop : Stop (contents w)) (stops : List (Stop (contents w)))
      (g : Gathered w)
      → gather_stop w count position stop g ≡ broken w g
      → (gather w count (position + 1) stops (gather_stop w count position stop g)).conflicts ≢ []
  broken_conflicts count position stop stops g is e = append_one_ne g.conflicts identity_broken (
      rw is at
        (gather-conflicts w count (position + 1) stops (gather_stop w count position stop g) e))

  gather_keeps :
      (count position k : ℕ) (node : CandidateNode python) (stops : List (Stop (contents w)))
      (g : Gathered w)
      → (gather w count position stops g).conflicts ≡ []
      → get k g.selected ≡ some node
      → get k (gather w count position stops g).selected ≡ some node
  unfolding gather
  gather_keeps count position k node [] g e at = at
  gather_keeps count position k node (stop ∷ stops) g e at =
      let next = gather_stop w count position stop g in
      elim (gather_stop-cases w count position stop g) [
        | inl is ↦ absurd (broken_conflicts count position stop stops g is e)
        | inr (i, named, below, fresh, is) ↦ gather_keeps count (position + 1) k node stops next e (
            ap (λ (r : Gathered w). get k r.selected) is
            ∙ get-put_kept k i node (node_of w i position stop) g.selected at fresh)
      ]

  -- The first loop without a conflict places every stop.
  pub gather-Placed :
      (count position : ℕ) (stops : List (Stop (contents w))) (g : Gathered w)
      → (gather w count position stops g).conflicts ≡ []
      → (taken : List ℕ) × ((gather w count position stops g).order ≡ g.order ++ taken)
        × Placed (gather w count position stops g).selected position stops taken
  unfolding gather
  gather-Placed count position [] g e = ([], sym (append-nil g.order), none_left)
  gather-Placed count position (stop ∷ stops) g e =
      let next = gather_stop w count position stop g in
      let (taken, ordered, placed) = gather-Placed count (position + 1) stops next e in
      elim (gather_stop-cases w count position stop g) [
        | inl is ↦ absurd (broken_conflicts count position stop stops g is e)
        | inr (i, named, below, fresh, is) ↦ (
          i ∷ taken,
          ordered
              ∙ ap (λ (r : Gathered w). r.order ++ taken) is
              ∙ append_assoc g.order (i ∷ []) taken,
          place stop i named
              (gather_keeps count (position + 1) i (node_of w i position stop) stops next e (
                ap (λ (r : Gathered w). get i r.selected) is
                ∙ get-put_same i (node_of w i position stop) g.selected))
              placed,
        )
      ]
