-- ===== src/Common/Text.antt =====
-- The text operations of Python's standard library that the code uses, on ASCII text: `str.strip`,
-- `str.lower`, `str.split(".")[0]` and `int(text)`. Code points above 127 count as plain letters.
use Prim.Native.Char.{code}
use Prim.Native.String.{◌++◌ as append}
use Prim.Native.String.append.{nil as append_nil, cons as append_cons}
use code_server_spawner.Common.{
  ◌≡◌, refl, arith, inl, inr, Bool-cases, not, ℕ, ◌+◌, ◌-◌, ◌*◌, String, Bool, true, false, ◌&&◌,
  ◌||◌, Option, none, some, leb, ◌==◌, str_eq, if◌then◌else◌,
}
use code_server_spawner.Common.Int.{ℤ, pos, negate}

-- tab to carriage return, the four separators, and the space
abbrev pub is_space : ℕ → Bool
is_space c = (leb 9 c && leb c 13) || (leb 28 c && leb c 32)

abbrev pub is_digit : ℕ → Bool
is_digit c = leb b'0' c && leb c b'9'

unfoldable pub lstrip : String → String
lstrip String.[] = String.[]
lstrip (String.◌∷◌ c s) = let rest = lstrip s in if is_space (code c) then rest else String.◌∷◌ c s

unfoldable pub rstrip : String → String
rstrip String.[] = String.[]
rstrip (String.◌∷◌ c s) =
    let rest = rstrip s in
    if is_space (code c) && str_eq rest "" then String.[] else String.◌∷◌ c rest

-- `s.strip()`
unfoldable pub strip : String → String
unfolding lstrip rstrip
strip s = rstrip (lstrip s)

-- `s.split(".")[0]`, the short name of a host
unfoldable pub before_dot : String → String
before_dot String.[] = String.[]
before_dot (String.◌∷◌ c s) =
    let rest = before_dot s in if code c == b'.' then String.[] else String.◌∷◌ c rest

-- `"." in s`
unfoldable pub has_dot : String → Bool
has_dot String.[] = false
has_dot (String.◌∷◌ c s) = if code c == b'.' then true else has_dot s

-- The digits of `int(text)`: an underscore may stand between two digits. `after` says whether the
-- character before was a digit.
unfoldable pub int_digits : ℕ → Bool → String → Option ℕ
int_digits n true String.[] = some n
int_digits n false String.[] = none
int_digits n after (String.◌∷◌ c s) =
    let digit = int_digits (n * 10 + (code c - b'0')) true s in
    let joint = int_digits n false s in
    if is_digit (code c) then digit else if code c == b'_' && after then joint else none

signed : String → Option ℤ
unfolding int_digits
signed String.[] = none
signed (String.◌∷◌ c s) =
    if code c == b'-'
    then elim (int_digits 0 false s) [ none ↦ none | some n ↦ some (negate n) ]
    else if code c == b'+'
    then elim (int_digits 0 false s) [ none ↦ none | some n ↦ some (pos n) ]
    else elim (int_digits 0 false (String.◌∷◌ c s)) [ none ↦ none | some n ↦ some (pos n) ]

-- `int(text)`; `none` is the `ValueError`
unfoldable pub parse_int : String → Option ℤ
unfolding signed strip
parse_int s = signed (strip s)

same_letter : ℕ → ℕ → Bool
same_letter c lower = (if leb b'A' c && leb c b'Z' then c + 32 else c) == lower

-- `raw.lower() == word`, for a word in lower case
unfoldable pub spells : String → String → Bool
unfolding same_letter
spells String.[] String.[] = true
spells (String.◌∷◌ c s) (String.◌∷◌ d t) = same_letter (code c) (code d) && spells s t
spells _ _ = false

-- The number that the trailing digits of `s` spell: `re.search(r"(\d+)$", s)`.
digits_at_end : Option ℕ → String → Option ℕ
digits_at_end run String.[] = run
digits_at_end run (String.◌∷◌ c s) =
    digits_at_end
      (if is_digit (code c)
        then some (elim run [ none ↦ code c - b'0' | some n ↦ n * 10 + (code c - b'0') ])
        else none)
      s

unfoldable pub trailing_number : String → Option ℕ
unfolding digits_at_end
trailing_number s = digits_at_end none s

-- `s.startswith(prefix)`: what follows the prefix, if `s` starts with it
unfoldable pub drop_prefix : String → String → Option String
drop_prefix String.[] s = some s
drop_prefix (String.◌∷◌ c p) String.[] = none
drop_prefix (String.◌∷◌ c p) (String.◌∷◌ d s) =
    let rest = drop_prefix p s in if code c == code d then rest else none

-- `s.replace(" ", "")`
unfoldable pub without_spaces : String → String
without_spaces String.[] = String.[]
without_spaces (String.◌∷◌ c s) =
    let rest = without_spaces s in if code c == b' ' then rest else String.◌∷◌ c rest

pub drop_prefix-append : (p s : String) → drop_prefix p (append p s) ≡ some s
unfolding drop_prefix
drop_prefix-append String.[] s = rw (append_nil s) refl
drop_prefix-append (String.◌∷◌ c p) s =
    rw (append_cons c p s) (ground (arith, drop_prefix-append p s))

pub without_spaces-append :
    (s t : String) → without_spaces (append s t) ≡ append (without_spaces s) (without_spaces t)
unfolding without_spaces
without_spaces-append String.[] t = rw (append_nil t, append_nil (without_spaces t)) refl
without_spaces-append (String.◌∷◌ c s) t =
    rw (append_cons c s t, without_spaces-append s t)
      (elim (Bool-cases (code c == b' ')) [
        | inl e ↦ rw e refl
        | inr e ↦ rw (e, append_cons c (without_spaces s) (without_spaces t)) refl
      ])

-- `s.endswith(suffix)`
unfoldable pub ends_with : String → String → Bool
ends_with suffix String.[] = str_eq suffix ""
ends_with suffix (String.◌∷◌ c s) =
    let rest = ends_with suffix s in if str_eq suffix (String.◌∷◌ c s) then true else rest

-- `part in s`
unfoldable pub has_part : String → String → Bool
unfolding drop_prefix
has_part part String.[] = str_eq part ""
has_part part (String.◌∷◌ c s) =
    let rest = has_part part s in
    elim (drop_prefix part (String.◌∷◌ c s)) [ some _ ↦ true | none ↦ rest ]

-- `s.split(".", 1)[1]`, where it exists
unfoldable pub after_dot : String → Option String
after_dot String.[] = none
after_dot (String.◌∷◌ c s) = let rest = after_dot s in if code c == b'.' then some s else rest

digits_only : String → Bool
digits_only String.[] = true
digits_only (String.◌∷◌ c s) = is_digit (code c) && digits_only s

-- `s.isdigit()`
unfoldable pub is_number : String → Bool
unfolding digits_only
is_number s = not (str_eq s "") && digits_only s

-- `int(s)` of digits
unfoldable pub number_from : ℕ → String → ℕ
number_from n String.[] = n
number_from n (String.◌∷◌ c s) = number_from (n * 10 + (code c - b'0')) s
