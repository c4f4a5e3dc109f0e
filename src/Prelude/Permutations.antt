-- ===== src/Prelude/Permutations.antt =====
-- Permutations of what several steps bring and take.
use mathlib.Core.List.Perm
use mathlib.Core.List.{List, ◌++◌, Perm, perm_append_comm, append_assoc}

module _ {ℓ} {A : Type ℓ} where
  -- What one step takes and leaves, put together with what the steps before it did.
  pub regroup :
      (acked brought more done h h' h₀ : List A)
      → Perm (done ++ h') (more ++ h)
      → Perm (acked ++ h) (brought ++ h₀)
      → Perm ((done ++ acked) ++ h') ((more ++ brought) ++ h₀)
  regroup acked brought more done h h' h₀ one all =
      let swapped : Perm ((done ++ acked) ++ h') ((acked ++ done) ++ h') =
        Perm.append_right h' (perm_append_comm done acked) in
      let inner : Perm (acked ++ (done ++ h')) (acked ++ (more ++ h)) =
        Perm.append_left acked one in
      let swapped' : Perm ((acked ++ more) ++ h) ((more ++ acked) ++ h) =
        Perm.append_right h (perm_append_comm acked more) in
      let outer : Perm (more ++ (acked ++ h)) (more ++ (brought ++ h₀)) =
        Perm.append_left more all in
      Perm.trans swapped (
        rw (append_assoc acked done h') (
          Perm.trans inner (
            rw (← append_assoc acked more h) (
              Perm.trans swapped'
                (rw (append_assoc more acked h, append_assoc more brought h₀) outer)))))
