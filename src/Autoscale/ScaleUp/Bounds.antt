-- ===== src/Autoscale/ScaleUp/Bounds.antt =====
-- How much a scale-up adds.
use code_server_spawner.Common.{
  ℕ, zero, suc, ◌+◌, ◌*◌, ◌/◌, ◌%◌, ◌≤◌, ◌<◌, String, Option, List, [], ◌∷◌, ◌≡◌, refl, ◌⊎◌, inl,
  inr, arith, All, returns, Bool-cases,
}
use code_server_spawner.Common.Int.{
  ℤ, pos, negsuc, pos_part, ◌≤ℤ◌, ◌+ℤ◌, ◌-ℤ◌, leb_ℤ, ltb_ℤ, max_ℤ, int_laws, leb_ℤ-pos_zero,
  pos-add, min_ℤ_parts, leb_ℤ→le, ltb_ℤ→lt, ltb_ℤ→ge,
}
use mathlib.Core.Path.{subst}
use code_server_spawner.Common.Sort.Laws.{IsSorted, IsSorted-sort_by, All-of_sort_by}
use code_server_spawner.Config.{Config, cfg_int}
use code_server_spawner.Tiers.{Tier, Json, first, load_tiers}
use code_server_spawner.Autoscale.ScaleUp.{last, sorted_tiers, choose, clamp, pack, plan_scale_up}

-- What a packing achieves: `large` and `small` are node counts, at most one node is small, the
-- capacities cover the deficit, and one node fewer of the large size would not.
abbrev pub Packs : ℕ → ℕ → ℤ → ℤ × ℤ → Type 0
Packs deficit cap_large cap_small (large, small) =
    (pos 0 ≤ℤ large)
    × (pos 0 ≤ℤ small)
    × (small ≤ℤ pos 1)
    × (deficit ≤ pos_part large * cap_large + pos_part small * pos_part cap_small)
    × ((pos_part large + pos_part small) * cap_large < deficit + cap_large)

choose-Packs :
    (q r cap_large : ℕ) (cap_small : ℤ)
    → r < cap_large
    → Packs (q * cap_large + r) cap_large cap_small (choose (pos q) (pos r) cap_small)
choose-Packs q zero cap_large cap_small h =
    (omega arith, omega arith, omega arith, omega arith, omega arith)
choose-Packs q (suc r) cap_large cap_small h = elim (Bool-cases (leb_ℤ (pos (suc r)) cap_small)) [
  | inl e ↦
      let fits = leb_ℤ→le (pos (suc r)) cap_small e in
      rw e (omega arith, omega arith, omega arith, omega arith, omega arith)
  | inr e ↦ rw (e, pos-add q 1) (omega arith, omega arith, omega arith, omega arith, omega arith)
]

pack-Packs :
    (n : ℕ) (cap_large cap_small : ℤ)
    → pos 1 ≤ℤ cap_large
    → (wanted : ℤ × ℤ) × (pack (pos n) cap_large cap_small ≡ returns wanted)
      × Packs n (pos_part cap_large) cap_small wanted
unfolding pack
pack-Packs n (pos zero) cap_small h = absurd (omega arith)
pack-Packs n (negsuc d) cap_small h = absurd (omega arith)
pack-Packs n (pos (suc d)) cap_small h =
    let e : n / suc d * suc d + n % suc d ≡ n = grind arith in
    (
      choose (pos (n / suc d)) (pos (n % suc d)) cap_small,
      refl,
      subst (λ k. Packs k (suc d) cap_small (choose (pos (n / suc d)) (pos (n % suc d)) cap_small))
          e (choose-Packs (n / suc d) (n % suc d) (suc d) cap_small (omega arith)),
    )

-- What the cap does to node counts: it lowers them, down to a sum of at most `max_add` and to no
-- less, the small nodes first.
abbrev pub Capped : ℤ → ℤ × ℤ → ℤ × ℤ → Type 0
Capped max_add (large, small) (large', small') =
    (pos 0 ≤ℤ large')
    × (large' ≤ℤ large)
    × (pos 0 ≤ℤ small')
    × (small' ≤ℤ small)
    × (large' +ℤ small' ≤ℤ max_ℤ (pos 0) max_add)
    × (((large' ≡ large) × (small' ≡ small)) ⊎ (max_ℤ (pos 0) max_add ≤ℤ large' +ℤ small'))
    × ((large' ≡ large) ⊎ (small' ≡ pos 0))

clamp-Capped :
    (max_add large small : ℤ)
    → pos 0 ≤ℤ large
    → pos 0 ≤ℤ small
    → Capped max_add (large, small) (clamp max_add (large, small))
unfolding clamp
clamp-Capped m l s h k = elim (Bool-cases (ltb_ℤ m (l +ℤ s))) [
  | inr e ↦
      let fits = ltb_ℤ→ge m (l +ℤ s) e in
      rw e (
        omega int_laws,
        omega int_laws,
        omega int_laws,
        omega int_laws,
        omega int_laws,
        inl (refl, refl),
        inl refl,
      )
  | inl e ↦
      let over = ltb_ℤ→lt m (l +ℤ s) e in
      rw e (
        omega int_laws,
        omega int_laws,
        omega int_laws,
        omega int_laws,
        omega int_laws,
        inr (omega int_laws),
        elim (min_ℤ_parts s (l +ℤ s -ℤ m)) [
          | inl (small_gives, _) ↦ inr (omega int_laws)
          | inr (large_gives, _) ↦ inl (omega int_laws)
        ],
      )
]

All-both {ℓ κ μ} :
    {A : Type ℓ} (P : A → Type κ) (Q : A → Type μ) (xs : List A)
    → All P xs
    → All Q xs
    → All (λ x. P x × Q x) xs
All-both P Q [] p q = tt
All-both P Q (x ∷ xs) (p, ps) (q, qs) = ((p, q), All-both P Q xs ps qs)

abbrev pub SmallerOrEqual : Tier → Tier → Type 0
SmallerOrEqual a b = a.capacity ≤ℤ b.capacity

last_above :
    (t : Tier) (ts : List Tier) {large : Tier}
    → IsSorted SmallerOrEqual (t ∷ ts)
    → last (t ∷ ts) ≡ returns large
    → All (λ a. SmallerOrEqual a large) (t ∷ ts)
last_above t [] s l = (ground arith, tt)
last_above t (u ∷ us) ((tu, _), s) l =
    let rest = last_above u us s l in (omega (arith, rest.0), rest)

ends_of :
    (ts : List Tier) {large small : Tier}
    → IsSorted SmallerOrEqual ts
    → last ts ≡ returns large
    → first ts ≡ returns small
    → All (λ t. SmallerOrEqual small t × SmallerOrEqual t large) ts
ends_of [] s l f = tt
ends_of (t ∷ ts) {large} {small} (above, s) l f =
    let below = last_above t ts (above, s) l in
    let e : t ≡ small = ground arith in
    subst (λ a. All (λ u. SmallerOrEqual a u × SmallerOrEqual u large) (t ∷ ts)) e
      (
        (omega arith, below.0),
        All-both (SmallerOrEqual t) (λ u. SmallerOrEqual u large) ts above below.1,
      )

-- The two tiers that a packing uses are the smallest and the largest of the configured ones.
pub sorted_tiers_ends :
    (ts : List Tier) {large small : Tier}
    → last (sorted_tiers ts) ≡ returns large
    → first (sorted_tiers ts) ≡ returns small
    → All (λ t. SmallerOrEqual small t × SmallerOrEqual t large) ts
sorted_tiers_ends ts {large} {small} l f =
    All-of_sort_by (λ a b. ltb_ℤ a.capacity b.capacity)
      (λ t. SmallerOrEqual small t × SmallerOrEqual t large) ts
      (ends_of (sorted_tiers ts)
        (IsSorted-sort_by (λ a b. ltb_ℤ a.capacity b.capacity) SmallerOrEqual
          (λ x y e. omega (arith, ltb_ℤ→lt y.capacity x.capacity e))
          (λ x y e. ltb_ℤ→ge y.capacity x.capacity e) (λ x y z p q. omega arith) ts)
        l f)

-- For a deficit above 0 and a largest tier that holds at least one host, the plan is the cap of a
-- packing that covers the deficit with the fewest nodes: at most one of them small, and one large
-- node fewer would not do. The cap gives way in small nodes first, and only to the configured
-- maximum of one cycle.
pub plan_scale_up_covers :
    (str : Json → String) (loads : String → Option Json) (cfg : Config) (n : ℕ) (ts : List Tier)
    (large small : Tier)
    → load_tiers str loads cfg ≡ returns ts
    → last (sorted_tiers ts) ≡ returns large
    → first (sorted_tiers ts) ≡ returns small
    → 0 < n
    → pos 1 ≤ℤ large.capacity
    → (wanted adds : ℤ × ℤ) × (plan_scale_up str loads (pos n) cfg ≡ returns adds)
      × Packs n (pos_part large.capacity) small.capacity wanted
      × Capped (cfg_int cfg "AUTOSCALE_MAX_ADD_PER_CYCLE" (pos 2)) wanted adds
unfolding plan_scale_up
plan_scale_up_covers str loads cfg n ts large small e l f hn hl =
    let (wanted, q, packs) = pack-Packs n large.capacity small.capacity hl in
    let max_add = cfg_int cfg "AUTOSCALE_MAX_ADD_PER_CYCLE" (pos 2) in
    (
      wanted,
      clamp max_add wanted,
      rw (leb_ℤ-pos_zero n hn, e, l, f, q),
      packs,
      clamp-Capped max_add wanted.0 wanted.1 packs.0 packs.1,
    )
