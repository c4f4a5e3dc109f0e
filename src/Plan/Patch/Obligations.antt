-- ===== src/Plan/Patch/Obligations.antt =====
-- What a patch may do to the tasks that a plan fulfils.
use mathlib.Core.List.Perm
use mathlib.Core.List.{Perm, append_assoc}
use ai_planed_map.Prelude.{
  ◌∙◌, ℕ, ◌+◌, ◌<◌, ◌≡◌, refl, String, Option, none, some, List, [], ◌∷◌, ◌++◌, arith, Bool-cases,
  Option-cases, inl, inr, ◌⊎◌, length, length-append, get_elem?, leb, List-cases,
}
use ai_planed_map.Plan.Patch.{
  Contents, PatchError, Stop, Replacement, Operation, Snapshot, Patched, refused, done, pop_at,
  insert_at, set_at, position_of, remove_at, move, replacing, replace_at, apply_operation,
  apply_operations, apply_patch_structure,
}
use ai_planed_map.Plan.Patch.Positions.{
  obligation, obligations, pop_at-obligations, insert_at-obligations, set_at-obligations,
  position_of-get_elem?,
}

pub Patched-cases {ℓ} :
    {A : Type ℓ} (p : Patched A)
    → ((code : PatchError) × (p ≡ refused code)) ⊎ ((answer : A) × (p ≡ done answer))
Patched-cases (refused code) = inl (code, refl)
Patched-cases (done answer) = inr (answer, refl)

module _ (c : Contents) where
  open c use {Task}

  abbrev pub is_removal : Operation c → ℕ
  is_removal (Operation.remove_stop stop_id) = 1
  is_removal _ = 0

  abbrev pub removals : List (Operation c) → ℕ
  removals [] = 0
  removals (operation ∷ operations) = is_removal operation + removals operations

  -- The obligations of some stops are those of others and `removed` more.
  pub record Kept (count : ℕ) (before after : List (Stop c)) : Type 0 where
    pub removed : List (Option ℕ × Task)
    pub number : length removed ≡ count
    pub all : Perm (removed ++ obligations c after) (obligations c before)

  unchanged : (stops : List (Stop c)) → Kept 0 stops stops
  unchanged stops = record { removed = []; number = refl; all = Perm.refl (obligations c stops) }

  remove_at-Kept :
      (stop_id : Option String) (stops after : List (Stop c))
      → remove_at c (position_of c stop_id stops) stops ≡ done after
      → Kept 1 stops after
  unfolding remove_at
  remove_at-Kept stop_id stops after e = elim (Option-cases (position_of c stop_id stops)) [
    | inl absent ↦ absurd (ground arith)
    | inr (position, found) ↦
        let (stop, at) = position_of-get_elem? c stop_id stops position found in
        let popped : pop_at position stops ≡ after = ground arith in
        rw (← popped) (record {
          removed = obligation c stop ∷ [];
          number = refl;
          all = pop_at-obligations c position stops stop at;
        })
  ]

  move-Kept :
      (source target : Option ℕ) (stops after : List (Stop c))
      → move c source target stops ≡ done after
      → Kept 0 stops after
  unfolding move
  move-Kept none target stops after e = cc
  move-Kept (some source) none stops after e = cc
  move-Kept (some source) (some target) stops after e =
      elim (Option-cases (get_elem? stops source)) [
        | inl absent ↦ absurd (ground arith)
        | inr (stop, at) ↦ elim (Bool-cases (leb (length stops) target)) [
          | inl past ↦ absurd (ground arith)
          | inr within ↦
              let moved : insert_at target stop (pop_at source stops) ≡ after = ground arith in
              rw (← moved) (record {
                removed = [];
                number = refl;
                all =
                    Perm.trans (insert_at-obligations c target stop (pop_at source stops))
                      (pop_at-obligations c source stops stop at);
              })
        ]
      ]

  replace_at-Kept :
      (position : Option ℕ) (replacement : Option (Replacement c)) (stops after : List (Stop c))
      → replace_at c position replacement stops ≡ done after
      → Kept 0 stops after
  unfolding replace_at
  replace_at-Kept none replacement stops after e = cc
  replace_at-Kept (some position) none stops after e = cc
  replace_at-Kept (some position) (some replacement) stops after e =
      elim (Option-cases replacement.poi) [
        | inl no_poi ↦ absurd (ground arith)
        | inr (poi, has_poi) ↦ elim (Option-cases replacement.task) [
          | inl no_task ↦ absurd (ground arith)
          | inr (task, has_task) ↦ elim (Option-cases (get_elem? stops position)) [
            | inl absent ↦ absurd (ground arith)
            | inr (old, at) ↦
                let changed : set_at position (replacing c poi replacement old) stops ≡ after =
                  ground arith in
                rw (← changed) (record {
                  removed = [];
                  number = refl;
                  all =
                      rw
                        (set_at-obligations c position (replacing c poi replacement old) old stops
                          at refl)
                        (Perm.refl (obligations c stops));
                })
          ]
        ]
      ]

  apply_operation-Kept :
      (operation : Operation c) (snapshot changed : Snapshot c) (stops after : List (Stop c))
      → apply_operation c operation snapshot stops ≡ done (changed, after)
      → Kept (is_removal operation) stops after
  unfolding apply_operation
  apply_operation-Kept (Operation.remove_stop stop_id) snapshot changed stops after e =
      elim (Patched-cases (remove_at c (position_of c stop_id stops) stops)) [
        | inl (code, r) ↦ absurd (ground arith)
        | inr (left, d) ↦
            let same : left ≡ after = ground arith in
            remove_at-Kept stop_id stops after (rw same at d)
      ]
  apply_operation-Kept (Operation.move_stop source target) snapshot changed stops after e =
      elim (Patched-cases (move c source target stops)) [
        | inl (code, r) ↦ absurd (ground arith)
        | inr (left, d) ↦
            let same : left ≡ after = ground arith in
            move-Kept source target stops after (rw same at d)
      ]
  apply_operation-Kept (Operation.replace_stop stop_id replacement) snapshot changed stops after e =
      elim (Patched-cases (replace_at c (position_of c stop_id stops) replacement stops)) [
        | inl (code, r) ↦ absurd (ground arith)
        | inr (left, d) ↦
            let same : left ≡ after = ground arith in
            replace_at-Kept (position_of c stop_id stops) replacement stops after (rw same at d)
      ]
  apply_operation-Kept (Operation.change_transport_mode none) snapshot changed stops after e = cc
  apply_operation-Kept (Operation.change_transport_mode (some mode)) snapshot changed stops after
        e =
      let same : stops ≡ after = cc in rw same (unchanged after)
  apply_operation-Kept (Operation.change_departure_time none) snapshot changed stops after e = cc
  apply_operation-Kept (Operation.change_departure_time (some at)) snapshot changed stops after e =
      let same : stops ≡ after = cc in rw same (unchanged after)
  apply_operation-Kept Operation.other snapshot changed stops after e =
      let same : stops ≡ after = cc in rw same (unchanged after)

  Kept-trans :
      (m n : ℕ) (first second third : List (Stop c))
      → Kept m first second
      → Kept n second third
      → Kept (m + n) first third
  Kept-trans m n first second third p q = record {
    removed = p.removed ++ q.removed;
    number = rw (length-append p.removed q.removed, p.number, q.number) refl;
    all =
        Perm.trans
          (rw (append_assoc p.removed q.removed (obligations c third))
            (Perm.append_left p.removed q.all))
          p.all;
  }

  apply_operations-Kept :
      (operations : List (Operation c)) (snapshot changed : Snapshot c)
      (stops after : List (Stop c))
      → apply_operations c operations snapshot stops ≡ done (changed, after)
      → Kept (removals operations) stops after
  unfolding apply_operations
  apply_operations-Kept [] snapshot changed stops after e =
      let same : stops ≡ after = cc in rw same (unchanged after)
  apply_operations-Kept (operation ∷ operations) snapshot changed stops after e =
      elim (Patched-cases (apply_operation c operation snapshot stops)) [
        | inl (code, r) ↦ absurd (ground arith)
        | inr ((next, left), d) ↦
            Kept-trans (is_removal operation) (removals operations) stops left after
              (apply_operation-Kept operation snapshot next stops left d)
              (apply_operations-Kept operations next changed left after
                (rw (d, apply_operations) at e))
      ]

  -- A patch that is accepted leaves at least one stop, and its stops fulfil tasks of the plan that it
  -- was made for: every obligation of the plan is kept once, under its index, except as many as the
  -- patch has removals.
  pub apply_patch_structure-Kept :
      (operations : List (Operation c)) (snapshot changed : Snapshot c) (stops : List (Stop c))
      → apply_patch_structure c operations snapshot ≡ done (changed, stops)
      → (0 < length stops) × Kept (removals operations) snapshot.stops stops
  unfolding apply_patch_structure
  apply_patch_structure-Kept operations snapshot changed stops e =
      elim (Patched-cases (apply_operations c operations snapshot snapshot.stops)) [
        | inl (code, r) ↦ absurd (ground arith)
        | inr ((next, left), d) ↦ elim (List-cases left) [
          | inl empty ↦ absurd (ground arith)
          | inr (x, xs, some_left) ↦
              let same : left ≡ stops = ground arith in
              let longer : 0 < length left = rw some_left (omega arith) in
              (
                rw same at longer,
                apply_operations-Kept operations snapshot next snapshot.stops stops (rw same at d),
              )
        ]
      ]

  apply_operation-rest :
      (operation : Operation c) (snapshot changed : Snapshot c) (stops after : List (Stop c))
      → apply_operation c operation snapshot stops ≡ done (changed, after)
      → changed.rest ≡ snapshot.rest
  unfolding apply_operation
  apply_operation-rest (Operation.remove_stop stop_id) snapshot changed stops after e = ground arith
  apply_operation-rest _ snapshot changed stops after e = ground arith

  apply_operations-rest :
      (operations : List (Operation c)) (snapshot changed : Snapshot c)
      (stops after : List (Stop c))
      → apply_operations c operations snapshot stops ≡ done (changed, after)
      → changed.rest ≡ snapshot.rest
  unfolding apply_operations
  apply_operations-rest [] snapshot changed stops after e = ground arith
  apply_operations-rest (operation ∷ operations) snapshot changed stops after e =
      elim (Patched-cases (apply_operation c operation snapshot stops)) [
        | inl (code, r) ↦ absurd (ground arith)
        | inr ((next, left), d) ↦
            apply_operations-rest operations next changed left after (rw (d, apply_operations) at e)
            ∙ apply_operation-rest operation snapshot next stops left d
      ]

  -- A patch leaves the request alone.
  pub apply_patch_structure-rest :
      (operations : List (Operation c)) (snapshot changed : Snapshot c) (stops : List (Stop c))
      → apply_patch_structure c operations snapshot ≡ done (changed, stops)
      → changed.rest ≡ snapshot.rest
  unfolding apply_patch_structure
  apply_patch_structure-rest operations snapshot changed stops e =
      elim (Patched-cases (apply_operations c operations snapshot snapshot.stops)) [
        | inl (code, r) ↦ absurd (ground arith)
        | inr ((next, []), d) ↦ absurd (ground arith)
        | inr ((next, x ∷ xs), d) ↦
            let same : next ≡ changed = ground arith in
            rw (← same) (apply_operations-rest operations snapshot next snapshot.stops (x ∷ xs) d)
      ]
