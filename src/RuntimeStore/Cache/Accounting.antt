-- ===== src/RuntimeStore/Cache/Accounting.antt =====
-- The byte accounting of the cache: `_value_bytes` is the sum of `_value_sizes`, within the limit.
use Prim.Native.Nat.{ℕ}
use ai_planed_map.Prelude.{
  ◌+◌, ◌≤◌, ◌≡◌, refl, Bool, true, false, String, Option, none, some, [], ◌∷◌, arith, if◌then◌else◌,
  string_eq, length, ◌<◌, inl, inr,
}
use ai_planed_map.Prelude.Dict.{
  Dict, get, get-remove, get-put, IsDistinct, total, total-remove, remove-IsDistinct,
  put-IsDistinct, total-put_absent, length-put_absent,
}
use ai_planed_map.RuntimeStore.Cache.Removal.{make_room_induction, make_room_ends}
use ai_planed_map.RuntimeStore.Cache.{
  Cache, remove_value, publish_latest, Json, insert_value, is_full, make_room, replace_value,
}

pub record Accounted {Value : Type 0} (c : Cache Value) : Type 0 where
  pub distinct_values : IsDistinct c.values
  pub distinct_sizes : IsDistinct c.sizes
  pub sum : c.bytes ≡ total c.sizes
  pub owned : (key : String) → get key c.values ≡ none → get key c.sizes ≡ none
  pub bounded : c.bytes ≤ c.max_bytes

module _ {Value : Type 0} where
  pub remove_value-Accounted :
      (key : String) (c : Cache Value) → Accounted c → Accounted (remove_value key c)
  unfolding remove_value
  remove_value-Accounted key c h = record {
    distinct_values = remove-IsDistinct key c.values h.distinct_values;
    distinct_sizes = remove-IsDistinct key c.sizes h.distinct_sizes;
    sum = omega (arith, h.sum, total-remove key c.sizes h.distinct_sizes);
    owned =
        λ k absent. ground (arith, h.owned k, get-remove key k c.values, get-remove key k c.sizes);
    bounded = omega (arith, h.bounded);
  }

  -- An entry that is published carries no size of its own.
  pub publish_latest-Accounted :
      (channel : String) (value : Value) (now : ℕ) (c : Cache Value)
      → Accounted c
      → Accounted (publish_latest channel value now c)
  unfolding publish_latest
  publish_latest-Accounted channel value now c h = record {
    distinct_values = put-IsDistinct _ (value, now + 86_400) c.values h.distinct_values;
    distinct_sizes = h.distinct_sizes;
    sum = h.sum;
    owned = λ k absent.
        h.owned k (absent_before (string_eq.beq _ k) (get k c.values) _ (rw get-put at absent));
    bounded = h.bounded;
  }
    where
      absent_before :
          (b : Bool) (o : Option (Value × ℕ)) (w : Value × ℕ)
          → (if b then some w else o) ≡ none
          → o ≡ none
      absent_before true o w e = cc
      absent_before false o w e = e

  no_values-bytes : (c : Cache Value) → Accounted c → c.values ≡ [] → c.bytes ≡ 0
  no_values-bytes c h e = rw h.sum (total_zero c.sizes (λ k. h.owned k (rw e refl)))
    where
      total_zero : (d : Dict String ℕ) → ((k : String) → get k d ≡ none) → total d ≡ 0
      total_zero [] all = refl
      total_zero ((k, n) ∷ d) all = ground (arith, all k, string_eq.beq_iff k k)

-- What the eviction works towards: the accounting of `c`, the limits of `c₀`, and no entry at `key`.
pub record Cleared {Value : Type 0} (c₀ : Cache Value) (key : String) (c : Cache Value)
    : Type 0 where
  pub accounted : Accounted c
  pub same_max_values : c.max_values ≡ c₀.max_values
  pub same_max_bytes : c.max_bytes ≡ c₀.max_bytes
  pub no_value : get key c.values ≡ none

module _ {Value : Type 0} (c₀ : Cache Value) (key : String) where
  remove_value-Cleared :
      (k : String) (c : Cache Value) → Cleared c₀ key c → Cleared c₀ key (remove_value k c)
  remove_value-Cleared k c h = record {
    accounted = remove_value-Accounted k c h.accounted;
    same_max_values = unfold remove_value in h.same_max_values;
    same_max_bytes = unfold remove_value in h.same_max_bytes;
    no_value = unfold remove_value in ground (arith, h.no_value, get-remove k key c.values);
  }

  freed : Accounted c₀ → Cleared c₀ key (remove_value key c₀)
  freed h = record {
    accounted = remove_value-Accounted key c₀ h;
    same_max_values = unfold remove_value in refl;
    same_max_bytes = unfold remove_value in refl;
    no_value =
        unfold remove_value in
        ground (arith, get-remove key key c₀.values, string_eq.beq_iff key key);
  }

  make_room-Cleared :
      (fuel size : ℕ) (c : Cache Value) → Cleared c₀ key c → Cleared c₀ key (make_room fuel size c)
  make_room-Cleared = make_room_induction (Cleared c₀ key) remove_value-Cleared

-- The state in which an operation leaves the entry that it stores.
pub record Stored {Value : Type 0} (c₀ : Cache Value) (key : String) (entry : Value × ℕ)
    (c : Cache Value) : Type 0 where
  pub accounted : Accounted c
  pub same_max_values : c.max_values ≡ c₀.max_values
  pub same_max_bytes : c.max_bytes ≡ c₀.max_bytes
  pub capacity : length c.values ≤ c₀.max_values
  pub entry_at_key : get key c.values ≡ some entry

module _ {Value : Type 0} where
  insert_value-Stored :
      (c₀ c : Cache Value) (key : String) (value : Value) (size expires : ℕ)
      → Cleared c₀ key c
      → c.bytes + size ≤ c₀.max_bytes
      → length c.values < c₀.max_values
      → Stored c₀ key (value, expires) (insert_value key value size expires c)
  unfolding insert_value
  insert_value-Stored c₀ c key value size expires h fits room =
      let a = h.accounted in
      let no_size = a.owned key h.no_value in
      record {
        accounted = record {
          distinct_values = put-IsDistinct key (value, expires) c.values a.distinct_values;
          distinct_sizes = put-IsDistinct key size c.sizes a.distinct_sizes;
          sum = omega (arith, a.sum, total-put_absent key size c.sizes no_size);
          owned = λ k absent. ground (
            arith,
            a.owned k,
            get-put key k (value, expires) c.values,
            get-put key k size c.sizes,
          );
          bounded = omega (arith, fits, h.same_max_bytes);
        };
        same_max_values = h.same_max_values;
        same_max_bytes = h.same_max_bytes;
        capacity = omega (arith, room, length-put_absent key (value, expires) c.values h.no_value);
        entry_at_key =
            ground (arith, get-put key key (value, expires) c.values, string_eq.beq_iff key key);
      }

  room_made :
      (c₀ : Cache Value) (key : String) (fuel size : ℕ) (c : Cache Value)
      → Cleared c₀ key c
      → length c.values ≤ fuel
      → size ≤ c₀.max_bytes
      → 0 < c₀.max_values
      → let r = make_room fuel size c in
        (r.bytes + size ≤ c₀.max_bytes) × (length r.values < c₀.max_values)
  unfolding is_full
  room_made c₀ key fuel size c h enough fits positive =
      let r = make_room fuel size c in
      let k = make_room-Cleared c₀ key fuel size c h in
      elim (make_room_ends fuel size c enough) [
        | inl free ↦ ground (arith, k.same_max_bytes, k.same_max_values)
        | inr e ↦ (omega (arith, no_values-bytes r k.accounted e, fits), rw e positive)
      ]

module _ (j : Json) where
  open j use {Value, encoded_size}

  pub replace_value-Stored :
      (key : String) (value : Value) (expires : ℕ) (c : Cache Value)
      → Accounted c
      → encoded_size value ≤ c.max_bytes
      → 0 < c.max_values
      → Stored c key (value, expires) (replace_value j key value expires c)
  unfolding replace_value
  replace_value-Stored key value expires c h fits positive =
      let c' = remove_value key c in
      let cleared = freed c key h in
      let (bytes_fit, room) =
        room_made c key (length c'.values) (encoded_size value) c' cleared (omega arith) fits
          positive in
      insert_value-Stored c _ key value (encoded_size value) expires
        (make_room-Cleared c key (length c'.values) (encoded_size value) c' cleared) bytes_fit room
