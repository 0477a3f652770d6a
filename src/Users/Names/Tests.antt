-- ===== src/Users/Names/Tests.antt =====
-- The choice of concrete usernames.
use Prim.Native.String.{◌++◌ as append}
use code_server_spawner.Common.{
  ℕ, ◌≤◌, ◌<◌, true, false, none, some, [], ◌∷◌, ◌≡◌, refl, ◌⊎◌, str_eq, ◌==◌, if◌then◌else◌,
}
use code_server_spawner.Common.Dict.{contains}
use code_server_spawner.Users.Names.{
  Texts, has_letter, base_name, free_name, numbered, find_username, find_username-IsFree,
}

-- The texts of two users and of the numbers 1 and 2.
abbrev texts : Texts
texts = record {
  slugify = λ s. if str_eq s "Ada L." then "ada-l" else s;
  local_part = λ s. if str_eq s "52@students.example.org" then "52" else "ada";
  digits = λ n. if n == 1 then "1" else "2";
  token = "x7";
}

-- A number as an address gives way to the display name, a name that is taken gets a number.
find_username-texts :
    (find_username texts [] (some "52@students.example.org") (some "Ada L.") ≡ "ada-l")
    × (find_username texts [] (some "52@students.example.org") none ≡ "52")
    × (find_username texts ("ada" ∷ "ada_1" ∷ []) (some "ada@example.org") none ≡ "ada_2")
    × (find_username texts [] none none ≡ "user-x7")
unfolding find_username base_name free_name has_letter
find_username-texts = (refl, refl, refl, refl)

find_username-IsFree_example :
    (let name = find_username texts ("ada" ∷ []) (some "ada@example.org") none in
      let username = base_name texts (some "ada@example.org") none in
      (contains name ("ada" ∷ []) ≡ false)
      ⊎ ((username ≡ "") × (name ≡ append "user-" "x7"))
      ⊎ ((name ≡ append username (append "_" "x7"))
          × (contains username ("ada" ∷ []) ≡ true)
          × ((j : ℕ) → 1 ≤ j → j < 100 → contains (numbered texts username j) ("ada" ∷ []) ≡ true)))
find_username-IsFree_example = find_username-IsFree texts ("ada" ∷ []) (some "ada@example.org") none
