-- ===== src/Tiers/Laws.antt =====
-- What the readers of the tiers promise their callers.
use code_server_spawner.Common.{
  ℕ, String, ◌≡◌, refl, ◌≢◌, ◌⊎◌, Option, some, List, [], inl, inr, str_eq, arith, returns,
  >>=-eq-returns, or_raise, invalid_json, Bool-cases, Option-cases, ◌∷◌,
}
use code_server_spawner.Common.Dict.{get_or}
use code_server_spawner.Common.Text.{strip}
use code_server_spawner.Config.{Config}
use code_server_spawner.Tiers.{
  Tier, Json, Items, cons, array, tiers_from, tiers_of, load_tiers, find_name, first, default_tier,
}

module _ (str : Json → String) where
  tiers_from-ne-nil :
      (i : ℕ) (entry : Json) (rest : Items) {ts : List Tier}
      → tiers_from str i (cons entry rest) ≡ returns ts
      → ts ≢ []
  unfolding tiers_from
  tiers_from-ne-nil i entry rest h = ground arith

  tiers_of-ne-nil : (v : Json) {ts : List Tier} → tiers_of str v ≡ returns ts → ts ≢ []
  unfolding tiers_of
  tiers_of-ne-nil (array (cons entry rest)) h = tiers_from-ne-nil 0 entry rest h
  tiers_of-ne-nil _ h = ground arith

  -- Whatever the configuration and the decoder, the list of tiers is never empty, so the readers
  -- that take its first or last element find one.
  pub load_tiers-ne-nil :
      (loads : String → Option Json) (cfg : Config) {ts : List Tier}
      → load_tiers str loads cfg ≡ returns ts
      → ts ≢ []
  unfolding load_tiers
  load_tiers-ne-nil loads cfg h =
      elim (Bool-cases (str_eq (strip (get_or "NODE_TIERS" cfg "")) "")) [
        | inl e ↦ ground arith
        | inr e ↦
            let (v, _, p) =
              >>=-eq-returns (or_raise (loads (strip (get_or "NODE_TIERS" cfg ""))) invalid_json)
                (tiers_of str) (rw e at h) in
            tiers_of-ne-nil v p
      ]

  -- Once the tiers load, a default tier is found: the one that DEFAULT_TIER names, if there is one,
  -- and the first of the list otherwise.
  pub default_tier_total :
      (loads : String → Option Json) (cfg : Config) (ts : List Tier)
      → load_tiers str loads cfg ≡ returns ts
      → (t : Tier) × (default_tier str loads cfg ≡ returns t)
        × ((find_name (strip (get_or "DEFAULT_TIER" cfg "")) ts ≡ some t) ⊎ (first ts ≡ returns t))
  unfolding default_tier
  default_tier_total loads cfg [] h = absurd (load_tiers-ne-nil loads cfg h refl)
  default_tier_total loads cfg (t ∷ ts) h =
      elim (Bool-cases (str_eq (strip (get_or "DEFAULT_TIER" cfg "")) "")) [
        | inl e ↦ (t, ground arith, inr refl)
        | inr e ↦ elim (Option-cases (find_name (strip (get_or "DEFAULT_TIER" cfg "")) (t ∷ ts))) [
          | inl none_found ↦ (t, ground arith, inr refl)
          | inr (found, p) ↦ (found, ground arith, inl p)
        ]
      ]
