-- ===== src/RuntimeStore/Locks/Fencing.antt =====
-- The text of a lock token, and the fence in it.
use ai_planed_map.Prelude.{ℕ, ◌≤◌, ◌≡◌, refl, ◌≢◌, some, [], ◌∷◌, ◌++◌, arith, ap, sym, ◌∙◌}
use ai_planed_map.Prelude.Decimal.{
  Text, str, int, int-str, is_digit-str, partition_colon, partition_colon-str,
}
use ai_planed_map.RuntimeStore.Locks.{lock_fencing_token, fenced}

-- The fence of a token that a lock was given with is read back from its text.
pub lock_fencing_token-fenced :
    (fence : ℕ) (owner : Text)
    → 1 ≤ fence
    → owner ≢ []
    → lock_fencing_token (fenced fence owner) ≡ some fence
unfolding lock_fencing_token fenced
lock_fencing_token-fenced fence [] positive named = absurd (named refl)
lock_fencing_token-fenced fence (c ∷ owner) positive named =
    rw (partition_colon-str fence (c ∷ owner), is_digit-str fence, int-str fence) (ground arith)

-- Tokens of different fences are different texts, whoever owns them.
pub fenced_injective : (f g : ℕ) (owner other : Text) → fenced f owner ≡ fenced g other → f ≡ g
unfolding fenced
fenced_injective f g owner other e = sym (int-str f) ∙ ap int prefixes ∙ int-str g
  where
    before : str f ++ b':' ∷ owner ≡ str g ++ b':' ∷ other
    before = e

    prefixes : str f ≡ str g
    prefixes =
        rw (partition_colon-str f owner, partition_colon-str g other) at
          (ap (λ (t : Text). (partition_colon t).0) before)
