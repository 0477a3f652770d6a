-- ===== src/Tiers.antt =====
-- Node size tiers: cspawn/cs_docker/tiers.py. The decoder of `json.loads` and the text that `str`
-- gives of a decoded value are arguments, the latter only for a name or a slug.
pub mod Laws
mod Tests
use code_server_spawner.Common.{
  ℕ, ◌+◌, String, Bool, true, false, Option, none, some, List, [], ◌∷◌, str_eq, if◌then◌else◌,
  Outcome, returns, raises, ◌>>=◌, ◌>>◌, or_raise, invalid_json, not_array, not_object,
  missing_field, bad_capacity, overflow, index_error,
}
use code_server_spawner.Common.Int.{ℤ, pos}
use code_server_spawner.Common.Dict.{Dict, lookup, get_or}
use code_server_spawner.Common.Text.{strip, parse_int}
use code_server_spawner.Config.{Config}

-- `Tier`
pub record Tier : Type 0 where
  pub name : String
  pub slug : String
  pub capacity : ℤ

-- A decoded JSON value. A finite float stands by its integer part, which is all that `int` reads.
mutual
  pub data Json : Type 0 where
    null nan infinity : Json
    boolean : Bool → Json
    int : ℤ → Json
    float : ℤ → Json
    text : String → Json
    array : Items → Json
    object : Fields → Json

  pub data Items : Type 0 where
    nil : Items
    cons : Json → Items → Items

  pub data Fields : Type 0 where
    end : Fields
    field : String → Json → Fields → Fields

-- `entry[key]`, a later field of one name winning, as in the decoder's dict
unfoldable pub field_of : String → Fields → Option Json
field_of k end = none
field_of k (field j v fs) =
    let rest = field_of k fs in
    elim rest [ some w ↦ some w | none ↦ (if str_eq j k then some v else none) ]

-- `int(value)` at entry `i`; the `TypeError` and the `ValueError` become one `ValueError`
int_of : ℕ → Json → Outcome ℤ
unfolding parse_int
int_of i (boolean true) = returns (pos 1)
int_of i (boolean false) = returns (pos 0)
int_of i (int n) = returns n
int_of i (float n) = returns n
int_of i infinity = raises overflow
int_of i (text s) = or_raise (parse_int s) (bad_capacity i)
int_of i _ = raises (bad_capacity i)

-- `default_capacity(cfg)`: an empty text is falsy
unfoldable pub default_capacity : Config → ℤ
unfolding parse_int
default_capacity cfg = elim (lookup "DEFAULT_CAPACITY" cfg) [
  | none ↦ pos 6
  | some raw ↦ elim (parse_int raw) [ none ↦ pos 6 | some n ↦ n ]
]

-- `node_capacity(node_attrs, cfg)`, on the labels of the node
unfoldable pub node_capacity : Dict String → Config → ℤ
unfolding parse_int default_capacity
node_capacity labels cfg = elim (lookup "cs.capacity" labels) [
  | none ↦ default_capacity cfg
  | some raw ↦ elim (parse_int raw) [ none ↦ default_capacity cfg | some n ↦ n ]
]

-- `x or fallback` on the text of a key that may be missing
or_text : Option String → String → String
or_text none fallback = fallback
or_text (some s) fallback = if str_eq s "" then fallback else s

module _ (str : Json → String) where
  -- The body of the loop of `load_tiers`, at entry `i`.
  tier_of : ℕ → Json → Outcome Tier
  unfolding field_of int_of
  tier_of i (object fs) = do
    name ← or_raise (field_of "name" fs) (missing_field i "name")
    slug ← or_raise (field_of "slug" fs) (missing_field i "slug")
    capacity ← or_raise (field_of "capacity" fs) (missing_field i "capacity")
    cap ← int_of i capacity
    returns (record { name = str name; slug = str slug; capacity = cap })
  tier_of i _ = raises (not_object i)

  tiers_from : ℕ → Items → Outcome (List Tier)
  tiers_from i nil = returns []
  tiers_from i (cons entry rest) =
      let others = tiers_from (i + 1) rest in
      tier_of i entry >>= λ t. others >>= λ ts. returns (t ∷ ts)

  -- What `load_tiers` does with the decoded text.
  tiers_of : Json → Outcome (List Tier)
  unfolding tier_of tiers_from
  tiers_of (array (cons entry rest)) = tiers_from 0 (cons entry rest)
  tiers_of _ = raises not_array

  module _ (loads : String → Option Json) where
    -- `load_tiers(cfg)`
    unfoldable pub load_tiers : Config → Outcome (List Tier)
    unfolding tiers_of default_capacity strip or_text
    load_tiers cfg =
        let raw = strip (get_or "NODE_TIERS" cfg "") in
        if str_eq raw ""
        then returns (
            record {
              name = "default";
              slug = or_text (lookup "DO_SIZE" cfg) "s-1vcpu-1gb";
              capacity = default_capacity cfg;
            }
            ∷ [])
        else (or_raise (loads raw) invalid_json >>= tiers_of)

-- `for t in tiers: if t.name == name: return t`
unfoldable pub find_name : String → List Tier → Option Tier
find_name name [] = none
find_name name (t ∷ ts) = if str_eq t.name name then some t else find_name name ts

unfoldable pub find_slug : String → List Tier → Option Tier
find_slug slug [] = none
find_slug slug (t ∷ ts) = if str_eq t.slug slug then some t else find_slug slug ts

-- `xs[0]`
abbrev pub first {ℓ} : {A : Type ℓ} → List A → Outcome A
first [] = raises index_error
first (x ∷ _) = returns x

module _ (str : Json → String) (loads : String → Option Json) (cfg : Config) where
  -- `tier_by_name(cfg, name)`
  pub tier_by_name : String → Outcome (Option Tier)
  unfolding find_name
  tier_by_name name = do tiers ← load_tiers str loads cfg; returns (find_name name tiers)

  -- `tier_for_slug(cfg, slug)`
  unfoldable pub tier_for_slug : String → Outcome (Option Tier)
  unfolding find_slug
  tier_for_slug slug = do tiers ← load_tiers str loads cfg; returns (find_slug slug tiers)

  -- `default_tier(cfg)`
  pub default_tier : Outcome Tier
  unfolding find_name strip
  default_tier = do
    tiers ← load_tiers str loads cfg
    let name = strip (get_or "DEFAULT_TIER" cfg "")
    (if str_eq name ""
        then first tiers
        else (elim (find_name name tiers) [ some t ↦ returns t | none ↦ first tiers ]))
