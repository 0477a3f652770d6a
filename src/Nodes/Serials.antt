-- ===== src/Nodes/Serials.antt =====
-- The number of a new node: `_get_next_serial` of cspawn/cli/node.py. The hostnames of the swarm's
-- nodes are an argument, `none` where they cannot be listed, and so is Python's `str.format`.
mod Tests
use code_server_spawner.Common.{
  ℕ, suc, ◌+◌, ◌≤◌, ◌<◌, String, Bool, true, false, not, ◌||◌, Option, none, some, List, [], ◌∷◌,
  ◌≡◌, refl, ◌⊎◌, inl, inr, arith, ltb, ◌==◌, if◌then◌else◌, ◌∙◌,
}
use code_server_spawner.Common.Text.{before_dot, drop_prefix, is_number, number_from}

-- The number that a hostname carries after the prefix, if it carries one.
unfoldable pub serial_of : String → Option String → Option ℕ
unfolding before_dot drop_prefix is_number number_from
serial_of prefix hostname =
    let name : String = elim hostname [ none ↦ "" | some s ↦ s ] in
    elim (drop_prefix prefix (before_dot name)) [
      | none ↦ none
      | some suffix ↦ if is_number suffix then some (number_from 0 suffix) else none
    ]

-- `max_serial = max(max_serial, int(suffix))`
abbrev pub raise_to : ℕ → Option ℕ → ℕ
raise_to m none = m
raise_to m (some k) = if ltb m k then k else m

-- The loop over the nodes, from a value of `max_serial`.
unfoldable pub max_serial : String → ℕ → List (Option String) → ℕ
max_serial prefix m [] = m
max_serial prefix m (hostname ∷ rest) =
    max_serial prefix (raise_to m (serial_of prefix hostname)) rest

-- `_get_next_serial(manager_client, name_template)`, with `format pattern serial`
unfoldable pub get_next_serial :
    (String → String → String) → Option (List (Option String)) → String → ℕ × String × String
unfolding max_serial before_dot
get_next_serial format listing name_template =
    let prefix = format (before_dot name_template) "" in
    let highest : ℕ = elim listing [ none ↦ 0 | some hostnames ↦ max_serial prefix 0 hostnames ] in
    (highest + 1, name_template, prefix)

-- Whether a number is there and is `k`.
abbrev pub is_at : Option ℕ → ℕ → Bool
is_at none k = false
is_at (some n) k = n == k

-- Whether one of the nodes has the number.
unfoldable pub has_serial : String → ℕ → List (Option String) → Bool
has_serial prefix k [] = false
has_serial prefix k (hostname ∷ rest) =
    is_at (serial_of prefix hostname) k || has_serial prefix k rest

raise_to-grows : (m : ℕ) (o : Option ℕ) → m ≤ raise_to m o
raise_to-grows m none = omega arith
raise_to-grows m (some k) = ground arith

is_at-above : (m k : ℕ) (o : Option ℕ) → raise_to m o < k → is_at o k ≡ false
is_at-above m k none h = refl
is_at-above m k (some n) h = ground arith

is_at-raise_to : (m : ℕ) (o : Option ℕ) → (raise_to m o ≡ m) ⊎ (is_at o (raise_to m o) ≡ true)
is_at-raise_to m none = inl refl
is_at-raise_to m (some k) = ground arith

module _ (prefix : String) where
  max_serial-grows : (m : ℕ) (names : List (Option String)) → m ≤ max_serial prefix m names
  unfolding max_serial
  max_serial-grows m [] = omega arith
  max_serial-grows m (n ∷ ns) =
      let more = max_serial-grows (raise_to m (serial_of prefix n)) ns in
      let step = raise_to-grows m (serial_of prefix n) in omega (arith, more, step)

  -- No node has a number above the highest one.
  has_serial-above :
      (m k : ℕ) (names : List (Option String))
      → max_serial prefix m names < k
      → has_serial prefix k names ≡ false
  unfolding max_serial has_serial
  has_serial-above m k [] h = refl
  has_serial-above m k (n ∷ ns) h =
      let o = serial_of prefix n in
      let more = max_serial-grows (raise_to m o) ns in
      rw (is_at-above m k o (omega (arith, more, h)), has_serial-above (raise_to m o) k ns h) refl

  -- The highest number is the one at the start, or a node's.
  has_serial-max_serial :
      (m : ℕ) (names : List (Option String))
      → (max_serial prefix m names ≡ m)
        ⊎ (has_serial prefix (max_serial prefix m names) names ≡ true)
  unfolding max_serial has_serial
  has_serial-max_serial m [] = inl refl
  has_serial-max_serial m (n ∷ ns) =
      let o = serial_of prefix n in
      elim (has_serial-max_serial (raise_to m o) ns) [
        | inr e ↦ inr (rw e (ground arith))
        | inl e ↦ elim (is_at-raise_to m o) [ inl f ↦ inl (e ∙ f) | inr f ↦ inr (rw (e, f) refl) ]
      ]

-- The number for a new node is the least above those of all the nodes that are listed and carry
-- one, and 1 if none carries one: no node that is listed has it or a greater one, and it is 1 or the one
-- below it is a node's.
pub get_next_serial-IsNext :
    (format : String → String → String) (hostnames : List (Option String)) (template : String)
    → (let (next, _, prefix) = get_next_serial format (some hostnames) template in
        ((k : ℕ) → next ≤ k → has_serial prefix k hostnames ≡ false)
        × ((next ≡ 1)
            ⊎ ((last : ℕ) × (next ≡ last + 1) × (has_serial prefix last hostnames ≡ true))))
unfolding get_next_serial
get_next_serial-IsNext format hostnames template =
    let prefix = format (before_dot template) "" in
    (
      λ k h. has_serial-above prefix 0 k hostnames (omega (arith, h)),
      elim (has_serial-max_serial prefix 0 hostnames) [
        | inl e ↦ inl (rw e refl)
        | inr e ↦ inr (max_serial prefix 0 hostnames, refl, e)
      ],
    )
