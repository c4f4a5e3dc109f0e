-- ===== src/Plan/Recalculation/Identity.antt =====
-- A plan without conflicts has one stop for each of its tasks, and one for every required task.
use mathlib.Core.List.{append-nil, append_assoc}
use ai_planed_map.Prelude.{
  ◌≢◌, ◌==◌, ℕ, ◌+◌, ◌<◌, ◌≡◌, refl, sym, ap, ◌∙◌, true, false, Option, none, some, List, [], ◌∷◌,
  ◌++◌, arith, ltb, is_some, Option-cases, Bool-cases, inl, inr, ◌⊎◌, nat_eq, nat_beq_iff, beq_refl,
}
use ai_planed_map.Prelude.Dict.{Dict, get, put, get-put}
use ai_planed_map.Route.Types.{CandidateNode}
use ai_planed_map.Route.Enumeration.Complete.{In, here, there, In-cons}
use ai_planed_map.Plan.Patch.{Stop}
use ai_planed_map.Plan.Snapshots.{World, contents, identity_broken}
use ai_planed_map.Plan.Recalculation.{Gathered, broken, gather_stop, gather, node_of}

abbrev pub Distinct : List ℕ → Type 0
Distinct [] = Unit
Distinct (i ∷ is) = (¬ In i is) × Distinct is

pub append_one_ne {ℓ} : {A : Type ℓ} (xs : List A) (x : A) → xs ++ x ∷ [] ≢ []
append_one_ne [] x e = cc
append_one_ne (y ∷ xs) x e = cc

module _ {V : Type 0} where
  get-put_ne : (i : ℕ) (v : V) (d : Dict ℕ V) → get i (put i v d) ≢ none
  get-put_ne i v d e = ground (arith, get-put i i v d, beq_refl i)

  get_before : (k i : ℕ) (v : V) (d : Dict ℕ V) → get k (put i v d) ≡ none → get k d ≡ none
  get_before k i v d e = ground (arith, get-put i k v d)

  get_unless :
      (k i : ℕ) (v : V) (d : Dict ℕ V)
      → (i == k) ≡ false
      → is_some (get k (put i v d)) ≡ true
      → is_some (get k d) ≡ true
  get_unless k i v d other e = ground (arith, get-put i k v d)

module _ (w : World) where
  open w use {python}

  abbrev pub indices : List (Stop (contents w)) → List (Option ℕ)
  indices [] = []
  indices (stop ∷ stops) = stop.task_index ∷ indices stops

  abbrev pub known : List ℕ → List (Option ℕ)
  known [] = []
  known (i ∷ is) = some i ∷ known is

  -- What the first loop takes from some stops, where it finds no conflict.
  pub record Taken (count : ℕ) (stops : List (Stop (contents w))) (g g' : Gathered w) : Type 0 where
    pub taken : List ℕ
    pub named : indices stops ≡ known taken
    pub ordered : g'.order ≡ g.order ++ taken
    pub distinct : Distinct taken
    pub unseen : (i : ℕ) → In i taken → get i g.selected ≡ none
    pub in_range : (i : ℕ) → In i taken → i < count
    pub only :
        (i : ℕ)
        → is_some (get i g'.selected) ≡ true
        → (is_some (get i g.selected) ≡ true) ⊎ In i taken

  pub gather_stop-cases :
      (count position : ℕ) (stop : Stop (contents w)) (g : Gathered w)
      → (gather_stop w count position stop g ≡ broken w g)
        ⊎ ((i : ℕ) × (stop.task_index ≡ some i)
            × (i < count)
            × (get i g.selected ≡ none)
            × (gather_stop w count position stop g ≡ record {
              order = g.order ++ i ∷ [];
              selected = put i (node_of w i position stop) g.selected;
              conflicts = g.conflicts;
            }))
  unfolding gather_stop
  gather_stop-cases count position stop g = elim (Option-cases stop.task_index) [
    | inl none_there ↦ inl (ground arith)
    | inr (i, e) ↦ elim (Option-cases (get i g.selected)) [
      | inr (node, taken) ↦ inl (ground arith)
      | inl fresh ↦ elim (Bool-cases (ltb i count)) [
        | inr out ↦ inl (ground arith)
        | inl in_range ↦ inr (i, e, ground arith, fresh, ground arith)
      ]
    ]
  ]

  gather_stop-conflicts :
      (count position : ℕ) (stop : Stop (contents w)) (g : Gathered w)
      → (gather_stop w count position stop g).conflicts ≡ []
      → g.conflicts ≡ []
  gather_stop-conflicts count position stop g e = elim (gather_stop-cases count position stop g) [
    | inl is ↦ absurd (append_one_ne g.conflicts identity_broken (rw is at e))
    | inr (i, at, below, fresh, is) ↦ rw is at e
  ]

  pub gather-conflicts :
      (count position : ℕ) (stops : List (Stop (contents w))) (g : Gathered w)
      → (gather w count position stops g).conflicts ≡ []
      → g.conflicts ≡ []
  unfolding gather
  gather-conflicts count position [] g e = e
  gather-conflicts count position (stop ∷ stops) g e =
      gather_stop-conflicts count position stop g
        (gather-conflicts count (position + 1) stops (gather_stop w count position stop g) e)

  Taken-first :
      (count i : ℕ) (node : CandidateNode python) (stop : Stop (contents w))
      (stops : List (Stop (contents w))) (g next g' : Gathered w)
      → stop.task_index ≡ some i
      → i < count
      → get i g.selected ≡ none
      → next.order ≡ g.order ++ i ∷ []
      → next.selected ≡ put i node g.selected
      → Taken count stops next g'
      → Taken count (stop ∷ stops) g g'
  Taken-first count i node stop stops g next g' at below fresh ordered selected t = record {
    taken = i ∷ t.taken;
    named = rw (at, t.named);
    ordered = t.ordered ∙ ap (λ l. l ++ t.taken) ordered ∙ append_assoc g.order (i ∷ []) t.taken;
    distinct = (λ h. get-put_ne i node g.selected (rw selected at (t.unseen i h)), t.distinct);
    unseen = λ k h. elim (In-cons k i t.taken h) [
      | inl same ↦ rw same fresh
      | inr later ↦ get_before k i node g.selected (rw selected at (t.unseen k later))
    ];
    in_range = λ k h. elim (In-cons k i t.taken h) [
      | inl same ↦ rw same below
      | inr later ↦ t.in_range k later
    ];
    only = λ k h. elim (t.only k h) [
      | inr later ↦ inr (there later)
      | inl before ↦ elim (Bool-cases (i == k)) [
        | inl same ↦ inr (here (sym ((nat_beq_iff i k).0 same)))
        | inr other ↦ inl (get_unless k i node g.selected other (rw selected at before))
      ]
    ];
  }

  -- The first loop without a conflict.
  pub gather-Taken :
      (count position : ℕ) (stops : List (Stop (contents w))) (g : Gathered w)
      → (gather w count position stops g).conflicts ≡ []
      → Taken count stops g (gather w count position stops g)
  unfolding gather
  gather-Taken count position [] g e = record {
    taken = [];
    named = refl;
    ordered = sym (append-nil g.order);
    distinct = tt;
    unseen = λ i h. elim h [ ];
    in_range = λ i h. elim h [ ];
    only = λ i h. inl h;
  }
  gather-Taken count position (stop ∷ stops) g e = elim (gather_stop-cases count position stop g) [
    | inl is ↦ absurd (
        append_one_ne g.conflicts identity_broken (
          rw is at
            (gather-conflicts count (position + 1) stops (gather_stop w count position stop g) e)))
    | inr (i, at, below, fresh, is) ↦
        Taken-first count i (node_of w i position stop) stop stops g
          (gather_stop w count position stop g)
          (gather w count (position + 1) stops (gather_stop w count position stop g)) at below fresh
          (ap (λ r. r.order) is) (ap (λ r. r.selected) is)
          (gather-Taken count (position + 1) stops (gather_stop w count position stop g) e)
  ]
