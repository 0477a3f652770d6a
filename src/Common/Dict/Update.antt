-- ===== src/Common/Dict/Update.antt =====
-- `d.update(changes)`, for dicts whose keys are distinct.
use mathlib.Core.Path.{◌≡◌, refl, ap, ◌∙◌}
use mathlib.Core.Logic.{inl, inr}
use mathlib.Core.Bool.{Bool, false}
use mathlib.Core.Option.{none, some}
use mathlib.Core.List.{[], ◌∷◌}
use Prim.Native.String.{String}
use native.Mathlib.Omega.{arith}
use text.Mathlib.Text.{◌==◌}
use text.Mathlib.TextEquality.{eq_iff}
use text.Mathlib.TextPositions.{eq_refl}
use code_server_spawner.Common.Tests.{if◌then◌else◌, Bool-cases}
use code_server_spawner.Common.Lists.{All}
use code_server_spawner.Common.Dict.{Dict, lookup, insert, lookup-insert}

module _ {ℓ} {V : Type ℓ} where
  -- `for k, v in changes.items(): d[k] = v`
  abbrev pub update : Dict V → Dict V → Dict V
  update [] d = d
  update ((k, v) ∷ changes) d = update changes (insert k v d)

  -- The keys are distinct.
  abbrev pub Distinct : Dict V → Type ℓ
  Distinct [] = Unit
  Distinct ((k, _) ∷ d) = All (λ l. (l.0 == k) ≡ false) d × Distinct d

  pub lookup-absent :
      (k : String) (d : Dict V) → All (λ l. (l.0 == k) ≡ false) d → lookup k d ≡ none
  lookup-absent k [] h = refl
  lookup-absent k ((j, v) ∷ d) (ne, h) = rw ne (lookup-absent k d h)

  lookup-update_other :
      (k : String) (changes d : Dict V)
      → All (λ l. (l.0 == k) ≡ false) changes
      → lookup k (update changes d) ≡ lookup k d
  lookup-update_other k [] d h = refl
  lookup-update_other k ((j, v) ∷ changes) d (ne, h) =
      lookup-update_other k changes (insert j v d) h
      ∙ lookup-insert j k v d
      ∙ ap (λ (b : Bool). if b then some v else lookup k d) ne

  -- The value of a key after an update: the one that the changes give, if they give one.
  pub lookup-update :
      (k : String) (changes d : Dict V)
      → Distinct changes
      → lookup k (update changes d)
        ≡ (elim (lookup k changes) [ none ↦ lookup k d | some v ↦ some v ])
  lookup-update k [] d u = refl
  lookup-update k ((j, v) ∷ changes) d (ne, u) = elim (Bool-cases (j == k)) [
    | inl e ↦
        let same : j ≡ k = (eq_iff j k).0 e in
        let first = lookup-update_other j changes (insert j v d) ne ∙ lookup-insert j j v d in
        rw e (rw (← same) (first ∙ ap (λ (b : Bool). if b then some v else lookup j d) (eq_refl j)))
    | inr e ↦
        let later = lookup-update k changes (insert j v d) u in
        rw (e, later) (ground (arith, lookup-insert j k v d, e))
  ]
