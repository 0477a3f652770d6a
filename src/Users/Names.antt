-- ===== src/Users/Names.antt =====
-- The choice of a username: `find_username` of cspawn/util/auth.py. The slugs, the text of a number,
-- the part of an address before its @ and the random token are arguments.
mod Tests
use Prim.Native.Char.{code}
use Prim.Native.String.{◌++◌ as append}
use code_server_spawner.Common.{
  ℕ, zero, suc, ◌+◌, ◌≤◌, ◌<◌, String, Bool, true, false, ◌&&◌, ◌||◌, Option, none, some, List, [],
  ◌∷◌, ◌≡◌, refl, ◌⊎◌, inl, inr, arith, leb, str_eq, if◌then◌else◌, Bool-cases, Option-cases, sym,
  eq_iff,
}
use code_server_spawner.Common.Dict.{contains}

-- `any(c.isalpha() for c in s)`, on ASCII text, as slugs are
unfoldable pub has_letter : String → Bool
has_letter String.[] = false
has_letter (String.◌∷◌ c s) =
    (leb b'a' (code c) && leb (code c) b'z')
    || (leb b'A' (code c) && leb (code c) b'Z')
    || has_letter s

-- `slugify`, `email.split("@")[0]`, the digits of a number, and `secrets.token_urlsafe(8)`
pub record Texts : Type 0 where
  pub slugify : String → String
  pub local_part : String → String
  pub digits : ℕ → String
  pub token : String

-- The slug of a text that is there and is not empty, or nothing.
abbrev pub slug_of : (String → String) → Option String → String
slug_of slug none = ""
slug_of slug (some s) = if str_eq s "" then "" else slug s

-- The name to start from, given the address and the display name.
unfoldable pub base_name : Texts → Option String → Option String → String
unfolding has_letter
base_name t email display_name =
    let email_slug = slug_of (λ e. t.slugify (t.local_part e)) email in
    let name_slug = slug_of t.slugify display_name in
    if has_letter email_slug
    then email_slug
    else if str_eq name_slug ""
    then email_slug
    else name_slug

-- `f"{username}_{i}"`
abbrev pub numbered : Texts → String → ℕ → String
numbered t username i = append username (append "_" (t.digits i))

-- The loop over `n` numbers from `i`: the first name that no user has.
unfoldable pub free_name : Texts → List String → String → ℕ → ℕ → Option String
free_name t users username i zero = none
free_name t users username i (suc n) =
    let rest = free_name t users username (i + 1) n in
    if contains (numbered t username i) users then rest else some (numbered t username i)

-- `find_username(user)`
unfoldable pub find_username : Texts → List String → Option String → Option String → String
unfolding base_name free_name
find_username t users email display_name =
    let username = base_name t email display_name in
    if str_eq username ""
    then append "user-" t.token
    else if contains username users
    then elim (free_name t users username 1 99) [
      | some new_username ↦ new_username
      | none ↦ append username (append "_" t.token)
    ]
    else username

some-injective : {a b : String} → some a ≡ some b → a ≡ b
some-injective h = cc

module _ (t : Texts) (users : List String) (username : String) where
  free_name-IsFree :
      (i n : ℕ) (name : String)
      → free_name t users username i n ≡ some name
      → contains name users ≡ false
  unfolding free_name
  free_name-IsFree i zero name h = cc
  free_name-IsFree i (suc n) name h = elim (Bool-cases (contains (numbered t username i) users)) [
    | inl e ↦ free_name-IsFree (i + 1) n name (rw e at h)
    | inr e ↦
        let same : numbered t username i ≡ name = some-injective (rw e at h) in rw (sym same) e
  ]

  free_name-taken :
      (i n : ℕ)
      → free_name t users username i n ≡ none
      → (j : ℕ) → i ≤ j
      → j < i + n
      → contains (numbered t username j) users ≡ true
  unfolding free_name
  free_name-taken i zero h j low high = absurd (omega (arith, low, high))
  free_name-taken i (suc n) h j low high =
      elim (Bool-cases (contains (numbered t username i) users)) [
        | inr e ↦ absurd (cc (rw e at h))
        | inl e ↦ elim (Bool-cases (leb j i)) [
          | inl f ↦ let same : j ≡ i = ground arith in rw same e
          | inr f ↦ free_name-taken (i + 1) n (rw e at h) j (ground arith) (omega (arith, high))
        ]
      ]

-- The name that is found is a name that no user has, or it ends in the random token: as
-- "user-" with the token where neither the address nor the display name gives one, or, only where the name
-- to start from and all of its numbered forms from 1 to 99 are taken, as that name with the token.
pub find_username-IsFree :
    (t : Texts) (users : List String) (email display_name : Option String)
    → (let name = find_username t users email display_name in
        let username = base_name t email display_name in
        (contains name users ≡ false)
        ⊎ ((username ≡ "") × (name ≡ append "user-" t.token))
        ⊎ ((name ≡ append username (append "_" t.token))
            × (contains username users ≡ true)
            × ((j : ℕ) → 1 ≤ j → j < 100 → contains (numbered t username j) users ≡ true)))
unfolding find_username
find_username-IsFree t users email display_name =
    let username = base_name t email display_name in
    elim (Bool-cases (str_eq username "")) [
      | inl e ↦ inr (inl ((eq_iff username "").0 e, rw e refl))
      | inr e ↦ elim (Bool-cases (contains username users)) [
        | inr f ↦ inl (rw (e, f) f)
        | inl f ↦ elim (Option-cases (free_name t users username 1 99)) [
          | inr (name, g) ↦ inl (rw (e, f, g) (free_name-IsFree t users username 1 99 name g))
          | inl g ↦ inr (inr (rw (e, f, g) refl, f, free_name-taken t users username 1 99 g))
        ]
      ]
    ]
