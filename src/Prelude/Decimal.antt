-- ===== src/Prelude/Decimal.antt =====
-- `str(n)`, `text.isdigit()`, `int(text)` and `text.partition(":")` on the character codes of an
-- ASCII text.
use Prim.Native.Nat.{ℕ, zero, suc, ◌+◌, ◌-◌, ◌*◌, ◌/◌, ◌%◌, ◌≤◌, ◌<◌}
use mathlib.Core.Path.{◌≡◌, refl, ◌∙◌}
use mathlib.Core.Bool.{Bool, true, false, ◌&&◌}
use mathlib.Core.Logic.{◌≢◌, inl, inr}
use mathlib.Core.List.{List, [], ◌∷◌, ◌++◌}
use native.Mathlib.Omega.{arith}
use ai_planed_map.Prelude.Tests.{ltb, leb, nat_beq, if◌then◌else◌, Bool-cases}

abbrev pub Text : Type 0
Text = List ℕ

-- The digits of `n`, on fuel: `fuel` above `n` is enough.
digits : ℕ → ℕ → Text
digits zero n = []
digits (suc fuel) n =
    let more = digits fuel (n / 10) ++ (48 + n % 10) ∷ [] in
    if ltb n 10 then (48 + n) ∷ [] else more

-- str(n)
unfoldable pub str : ℕ → Text
unfolding digits
str n = digits (suc n) n

all_digits : Text → Bool
all_digits [] = true
all_digits (c ∷ cs) = leb 48 c && leb c 57 && all_digits cs

-- text.isdigit(): false of the empty text.
unfoldable pub is_digit : Text → Bool
unfolding all_digits
is_digit [] = false
is_digit (c ∷ cs) = all_digits (c ∷ cs)

parse_from : ℕ → Text → ℕ
parse_from n [] = n
parse_from n (c ∷ cs) = parse_from (n * 10 + (c - 48)) cs

-- int(text), of a text of digits
unfoldable pub int : Text → ℕ
unfolding parse_from
int cs = parse_from 0 cs

-- text.partition(":"): what stands before the first colon, whether there is one, and the rest.
unfoldable pub partition_colon : Text → Text × Bool × Text
partition_colon [] = ([], false, [])
partition_colon (c ∷ cs) =
    let (before, found, after) = partition_colon cs in
    if nat_beq c b':' then ([], true, cs) else (c ∷ before, found, after)

parse_from-append :
    (n c : ℕ) (cs : Text) → parse_from n (cs ++ c ∷ []) ≡ parse_from n cs * 10 + (c - 48)
unfolding parse_from
parse_from-append n c [] = refl
parse_from-append n c (d ∷ cs) = parse_from-append (n * 10 + (d - 48)) c cs

parse_from-digits : (fuel n : ℕ) → n < fuel → parse_from 0 (digits fuel n) ≡ n
unfolding digits
parse_from-digits zero n h = elim h [ ]
parse_from-digits (suc fuel) n h = elim (Bool-cases (ltb n 10)) [
  | inl small ↦ rw small (unfold parse_from in omega arith)
  | inr big ↦ rw big (
      parse_from-append 0 (48 + n % 10) (digits fuel (n / 10))
      ∙ ground (arith, parse_from-digits fuel (n / 10)))
]

-- Reading a printed number gives it back.
pub int-str : (n : ℕ) → int (str n) ≡ n
unfolding int str
int-str n = parse_from-digits (suc n) n (omega arith)

all_digits-append :
    (c : ℕ) (cs : Text) → all_digits cs ≡ true → 48 ≤ c → c ≤ 57 → all_digits (cs ++ c ∷ []) ≡ true
unfolding all_digits
all_digits-append c [] h lo hi = ground arith
all_digits-append c (d ∷ cs) h lo hi = ground (arith, all_digits-append c cs)

all_digits-digits : (fuel n : ℕ) → all_digits (digits fuel n) ≡ true
unfolding digits
all_digits-digits zero n = unfold all_digits in refl
all_digits-digits (suc fuel) n = elim (Bool-cases (ltb n 10)) [
  | inl small ↦ rw small (unfold all_digits in ground arith)
  | inr big ↦ rw big (
      all_digits-append (48 + n % 10) (digits fuel (n / 10)) (all_digits-digits fuel (n / 10))
        (omega arith) (omega arith))
]

append_snoc_ne : (cs : Text) (c : ℕ) → cs ++ c ∷ [] ≢ []
append_snoc_ne [] c h = cc
append_snoc_ne (d ∷ cs) c h = cc

is_digit_of_all : (cs : Text) → cs ≢ [] → all_digits cs ≡ true → is_digit cs ≡ true
unfolding is_digit
is_digit_of_all [] h d = absurd (h refl)
is_digit_of_all (c ∷ cs) h d = d

str-ne-nil : (n : ℕ) → str n ≢ []
unfolding str
str-ne-nil n h = elim (Bool-cases (ltb n 10)) [
  | inl small ↦ ground arith
  | inr big ↦ append_snoc_ne (digits n (n / 10)) (48 + n % 10) (rw big at h)
]

pub is_digit-str : (n : ℕ) → is_digit (str n) ≡ true
unfolding str
is_digit-str n = is_digit_of_all (digits (suc n) n) (str-ne-nil n) (all_digits-digits (suc n) n)

partition_after_digits :
    (cs rest : Text) → all_digits cs ≡ true → partition_colon (cs ++ b':' ∷ rest) ≡ (cs, true, rest)
unfolding partition_colon all_digits
partition_after_digits [] rest h = refl
partition_after_digits (c ∷ cs) rest h = ground (arith, partition_after_digits cs rest)

-- The first colon after a printed number is the one behind it.
pub partition_colon-str :
    (n : ℕ) (rest : Text) → partition_colon (str n ++ b':' ∷ rest) ≡ (str n, true, rest)
unfolding str
partition_colon-str n rest =
    partition_after_digits (digits (suc n) n) rest (all_digits-digits (suc n) n)
