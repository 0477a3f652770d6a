-- ===== src/Common/Int.antt =====
-- Python's unbounded integers over the native numbers. Sums and orders go through the two parts of
-- an integer; `//` and `%` round towards minus infinity, as Python's do.
use Prim.Native.Nat.{ℕ, zero, suc, ◌+◌, ◌-◌, ◌*◌, ◌/◌, ◌%◌, ◌≤◌, ◌<◌}
use mathlib.Core.Path.{◌≡◌, refl}
use mathlib.Core.Logic.{◌⊎◌, inl, inr}
use mathlib.Core.Bool.{Bool, true, false}
use native.Mathlib.Omega.{arith}
use code_server_spawner.Common.Tests.{leb, ltb, ◌==◌, Bool-cases, if◌then◌else◌}
use code_server_spawner.Common.Results.{Outcome, returns, raises, zero_division}

-- `negsuc n` is -(n + 1).
pub data ℤ : Type 0 where
  pos : ℕ → ℤ
  negsuc : ℕ → ℤ

abbrev pub pos_part : ℤ → ℕ
pos_part (pos n) = n
pos_part (negsuc _) = 0

abbrev pub neg_part : ℤ → ℕ
neg_part (pos _) = 0
neg_part (negsuc n) = suc n

-- a - b, as an integer.
abbrev pub sub_ℕ : ℕ → ℕ → ℤ
sub_ℕ a b = if leb b a then pos (a - b) else negsuc (b - a - 1)

infixl 65 ◌+ℤ◌ ◌-ℤ◌
infix 50 ◌≤ℤ◌ ◌<ℤ◌
unfoldable pub ◌+ℤ◌ : ℤ → ℤ → ℤ
a +ℤ b = sub_ℕ (pos_part a + pos_part b) (neg_part a + neg_part b)

unfoldable pub ◌-ℤ◌ : ℤ → ℤ → ℤ
a -ℤ b = sub_ℕ (pos_part a + neg_part b) (neg_part a + pos_part b)

abbrev pub ◌≤ℤ◌ : ℤ → ℤ → Type 0
a ≤ℤ b = pos_part a + neg_part b ≤ pos_part b + neg_part a

abbrev pub ◌<ℤ◌ : ℤ → ℤ → Type 0
a <ℤ b = suc (pos_part a + neg_part b) ≤ pos_part b + neg_part a

abbrev pub ltb_ℤ : ℤ → ℤ → Bool
ltb_ℤ a b = ltb (pos_part a + neg_part b) (pos_part b + neg_part a)

abbrev pub leb_ℤ : ℤ → ℤ → Bool
leb_ℤ a b = leb (pos_part a + neg_part b) (pos_part b + neg_part a)

unfoldable pub max_ℤ : ℤ → ℤ → ℤ
max_ℤ a b = if leb_ℤ a b then b else a

unfoldable pub min_ℤ : ℤ → ℤ → ℤ
min_ℤ a b = if leb_ℤ a b then a else b

abbrev pub negate : ℕ → ℤ
negate zero = pos 0
negate (suc n) = negsuc n

-- A minute count times 60_000_000, the microseconds that it stands for.
abbrev pub minutes : ℤ → ℤ
minutes (pos n) = pos (n * 60_000_000)
minutes (negsuc n) = negate (suc n * 60_000_000)

-- `a // d` and `a % d` for a positive `d`.
abbrev div_pos : ℤ → ℕ → ℤ
div_pos (pos n) d = pos (n / d)
div_pos (negsuc n) d = negsuc (n / d)

abbrev mod_pos : ℤ → ℕ → ℕ
mod_pos (pos n) d = n % d
mod_pos (negsuc n) d = d - 1 - n % d

abbrev opposite : ℤ → ℤ
opposite (pos n) = negate n
opposite (negsuc n) = pos (suc n)

-- `a // b`
abbrev pub floor_div : ℤ → ℤ → Outcome ℤ
floor_div a (pos zero) = raises zero_division
floor_div a (pos (suc d)) = returns (div_pos a (suc d))
floor_div a (negsuc d) = returns (div_pos (opposite a) (suc d))

-- `a % b`
abbrev pub floor_mod : ℤ → ℤ → Outcome ℤ
floor_mod a (pos zero) = raises zero_division
floor_mod a (pos (suc d)) = returns (pos (mod_pos a (suc d)))
floor_mod a (negsuc d) = returns (negate (mod_pos (opposite a) (suc d)))

-- A time difference in microseconds over a minute: whole minutes, and the microseconds above them.
abbrev pub floor_minutes : ℤ → ℤ
floor_minutes d = div_pos d 60_000_000

abbrev pub over_minutes : ℤ → ℕ
over_minutes d = mod_pos d 60_000_000

abbrev pub is_even : ℤ → Bool
is_even (pos n) = n % 2 == 0
is_even (negsuc n) = n % 2 == 1

-- With these the operations can stay shut.
pub +ℤ_parts :
    (a b : ℤ)
    → pos_part (a +ℤ b) + neg_part a + neg_part b ≡ neg_part (a +ℤ b) + pos_part a + pos_part b
unfolding ◌+ℤ◌
+ℤ_parts a b = ground arith

pub -ℤ_parts :
    (a b : ℤ)
    → pos_part (a -ℤ b) + neg_part a + pos_part b ≡ neg_part (a -ℤ b) + pos_part a + neg_part b
unfolding ◌-ℤ◌
-ℤ_parts a b = ground arith

pub eq_of_parts : (a b : ℤ) → pos_part a + neg_part b ≡ pos_part b + neg_part a → a ≡ b
eq_of_parts a b h = ground arith

-- `c` is `a`, part by part.
abbrev pub SameParts : ℤ → ℤ → Type 0
SameParts c a = (pos_part c ≡ pos_part a) × (neg_part c ≡ neg_part a)

pub max_ℤ_parts :
    (a b : ℤ) → ((a ≤ℤ b) × SameParts (max_ℤ a b) b) ⊎ ((b <ℤ a) × SameParts (max_ℤ a b) a)
unfolding max_ℤ
max_ℤ_parts a b = elim (Bool-cases (leb_ℤ a b)) [
  | inl e ↦ inl (ground arith, rw e (refl, refl))
  | inr e ↦ inr (ground arith, rw e (refl, refl))
]

pub min_ℤ_parts :
    (a b : ℤ) → ((a ≤ℤ b) × SameParts (min_ℤ a b) a) ⊎ ((b <ℤ a) × SameParts (min_ℤ a b) b)
unfolding min_ℤ
min_ℤ_parts a b = elim (Bool-cases (leb_ℤ a b)) [
  | inl e ↦ inl (ground arith, rw e (refl, refl))
  | inr e ↦ inr (ground arith, rw e (refl, refl))
]

pub ruleset int_laws = (arith, +ℤ_parts, -ℤ_parts, eq_of_parts, max_ℤ_parts, min_ℤ_parts)

-- The tests, read as orders.
pub leb_ℤ→le : (a b : ℤ) → leb_ℤ a b ≡ true → a ≤ℤ b
leb_ℤ→le a b h = ground arith

pub leb_ℤ→gt : (a b : ℤ) → leb_ℤ a b ≡ false → b <ℤ a
leb_ℤ→gt a b h = ground arith

pub ltb_ℤ→lt : (a b : ℤ) → ltb_ℤ a b ≡ true → a <ℤ b
ltb_ℤ→lt a b h = ground arith

pub ltb_ℤ→ge : (a b : ℤ) → ltb_ℤ a b ≡ false → b ≤ℤ a
ltb_ℤ→ge a b h = ground arith

pub pos-add : (a b : ℕ) → pos a +ℤ pos b ≡ pos (a + b)
pos-add a b = omega int_laws

pub leb_ℤ-pos_zero : (n : ℕ) → 0 < n → leb_ℤ (pos n) (pos 0) ≡ false
leb_ℤ-pos_zero n h = ground arith

pub lt→ltb_ℤ : (a b : ℤ) → a <ℤ b → ltb_ℤ a b ≡ true
lt→ltb_ℤ a b h = ground arith
