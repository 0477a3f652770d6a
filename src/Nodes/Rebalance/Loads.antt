-- ===== src/Nodes/Rebalance/Loads.antt =====
-- The loads of the nodes under a write, the extremes of the loads, and the measure of phase 2.
use mathlib.Core.Path.{subst}
use mathlib.Core.List.{reverse, reverse-append}
use code_server_spawner.Common.{
  ℕ, suc, ◌+◌, ◌*◌, ◌≤◌, ◌<◌, String, true, false, List, [], ◌∷◌, ◌++◌, ◌≡◌, refl, sym, ap, ◌∙◌,
  inl, inr, arith, ltb, length, length-append, str_eq, eq_iff, if◌then◌else◌, All, Bool-cases,
  if-elim, ltb→lt, not_ltb→le,
}
use code_server_spawner.Common.Dict.{insert, contains, lookup-insert}
use code_server_spawner.Nodes.Rebalance.{
  Members, users, load, least_from, most_from, Plan, move, sum_squares,
}

pub length-reverse {ℓ} : {A : Type ℓ} (xs : List A) → length (reverse xs) ≡ length xs
length-reverse [] = refl
length-reverse (x ∷ xs) =
    rw (reverse-append (x ∷ []) xs)
      (omega (arith, length-append (reverse xs) (x ∷ []), length-reverse xs))

pub users-insert :
    (k j : String) (v : List String) (m : Members)
    → users (insert k v m) j ≡ (if str_eq k j then v else users m j)
users-insert k j v m = ground (arith, lookup-insert k j v m)

pub users-insert_self : (k : String) (v : List String) (m : Members) → users (insert k v m) k ≡ v
users-insert_self k v m = ground (arith, users-insert k k v m, eq_iff k k)

pub users-insert_ne :
    (k j : String) (v : List String) (m : Members)
    → str_eq k j ≡ false
    → users (insert k v m) j ≡ users m j
users-insert_ne k j v m h = ground (arith, users-insert k j v m)

-- No name stands in the list twice.
abbrev pub Distinct : List String → Type 0
Distinct [] = Unit
Distinct (n ∷ ns) = (contains n ns ≡ false) × Distinct ns

sum_squares-insert_absent :
    (k : String) (v : List String) (m : Members) (ns : List String)
    → contains k ns ≡ false
    → sum_squares (insert k v m) ns ≡ sum_squares m ns
sum_squares-insert_absent k v m [] h = refl
sum_squares-insert_absent k v m (n ∷ ns) h =
    let ne : str_eq k n ≡ false = ground (arith, eq_iff n k, eq_iff k n) in
    rw (users-insert_ne k n v m ne, sum_squares-insert_absent k v m ns (ground arith))

pub sum_squares-insert :
    (k : String) (v : List String) (m : Members) (ns : List String)
    → Distinct ns
    → contains k ns ≡ true
    → sum_squares (insert k v m) ns + load m k * load m k ≡ sum_squares m ns + length v * length v
sum_squares-insert k v m [] d h = cc
sum_squares-insert k v m (n ∷ ns) (absent, d) h = elim (Bool-cases (str_eq n k)) [
  | inl e ↦
      subst
        (λ j.
          sum_squares (insert j v m) (n ∷ ns) + load m j * load m j
          ≡ sum_squares m (n ∷ ns) + length v * length v)
        ((eq_iff n k).0 e)
        (rw (users-insert_self n v m, sum_squares-insert_absent n v m ns absent) (omega arith))
  | inr e ↦
      let ne : str_eq k n ≡ false = ground (arith, eq_iff n k, eq_iff k n) in
      let later = sum_squares-insert k v m ns d (ground arith) in
      rw (users-insert_ne k n v m ne) (omega arith)
]

-- The extremes bound the loads of the list, and stand in it.
pub least_from_bounds :
    (m : Members) (best : String) (ns : List String)
    → (load m (least_from m best ns) ≤ load m best)
      × All (λ n. load m (least_from m best ns) ≤ load m n) ns
least_from_bounds m best [] = (omega arith, tt)
least_from_bounds m best (n ∷ ns) =
    if-elim
      (λ b.
        (load m (least_from m b ns) ≤ load m best)
        × ((load m (least_from m b ns) ≤ load m n)
            × All (λ k. load m (least_from m b ns) ≤ load m k) ns))
      (ltb (load m n) (load m best))
      (λ e.
        let (here, later) = least_from_bounds m n ns in
        let less = ltb→lt (load m n) (load m best) e in (omega arith, (here, later)))
      (λ e.
        let (here, later) = least_from_bounds m best ns in
        let less = not_ltb→le (load m n) (load m best) e in (here, (omega arith, later)))

pub most_from_bounds :
    (m : Members) (best : String) (ns : List String)
    → (load m best ≤ load m (most_from m best ns))
      × All (λ n. load m n ≤ load m (most_from m best ns)) ns
most_from_bounds m best [] = (omega arith, tt)
most_from_bounds m best (n ∷ ns) =
    if-elim
      (λ b.
        (load m best ≤ load m (most_from m b ns))
        × ((load m n ≤ load m (most_from m b ns))
            × All (λ k. load m k ≤ load m (most_from m b ns)) ns))
      (ltb (load m best) (load m n))
      (λ e.
        let (here, later) = most_from_bounds m n ns in
        let less = ltb→lt (load m best) (load m n) e in (omega arith, (here, later)))
      (λ e.
        let (here, later) = most_from_bounds m best ns in
        let less = not_ltb→le (load m best) (load m n) e in (here, (omega arith, later)))

contains-cons :
    (k n b : String) (ns : List String)
    → contains k (b ∷ ns) ≡ true
    → contains k (b ∷ n ∷ ns) ≡ true
contains-cons k n b ns h = ground arith

contains-skip :
    (k n b : String) (ns : List String)
    → contains k (n ∷ ns) ≡ true
    → contains k (b ∷ n ∷ ns) ≡ true
contains-skip k n b ns h = ground arith

pub contains-least_from :
    (m : Members) (best : String) (ns : List String)
    → contains (least_from m best ns) (best ∷ ns) ≡ true
contains-least_from m best [] = ground (arith, eq_iff best best)
contains-least_from m best (n ∷ ns) =
    if-elim (λ b. contains (least_from m b ns) (best ∷ n ∷ ns) ≡ true)
      (ltb (load m n) (load m best))
      (λ _. contains-skip (least_from m n ns) n best ns (contains-least_from m n ns))
      (λ _. contains-cons (least_from m best ns) n best ns (contains-least_from m best ns))

pub contains-most_from :
    (m : Members) (best : String) (ns : List String)
    → contains (most_from m best ns) (best ∷ ns) ≡ true
contains-most_from m best [] = ground (arith, eq_iff best best)
contains-most_from m best (n ∷ ns) =
    if-elim (λ b. contains (most_from m b ns) (best ∷ n ∷ ns) ≡ true) (ltb (load m best) (load m n))
      (λ _. contains-skip (most_from m n ns) n best ns (contains-most_from m n ns))
      (λ _. contains-cons (most_from m best ns) n best ns (contains-most_from m best ns))

squares_drop :
    (before between after r b : ℕ)
    → between + suc r * suc r ≡ before + r * r
    → after + b * b ≡ between + (b + 1) * (b + 1)
    → b < r
    → after < before
squares_drop before between after r b e f h = omega arith

squares_drop_at :
    (before between after a r b y r' b' : ℕ)
    → between + a * a ≡ before + r' * r'
    → after + b' * b' ≡ between + y * y
    → a ≡ suc r
    → r' ≡ r
    → b' ≡ b
    → y ≡ b + 1
    → b + 1 < a
    → after < before
squares_drop_at before between after a r b y r' b' e f ea er eb ey h =
    squares_drop before between after r b (cc) (cc) (omega arith)

-- A move between two nodes of the list whose loads differ by more than 1 lowers the sum of squares.
pub move-lowers :
    (src tgt user : String) (rest : List String) (p : Plan) (order : List String)
    → Distinct order
    → contains src order ≡ true
    → contains tgt order ≡ true
    → str_eq src tgt ≡ false
    → reverse (users p.members src) ≡ user ∷ rest
    → load p.members tgt + 1 < load p.members src
    → sum_squares (move user (reverse rest) src tgt p).members order < sum_squares p.members order
move-lowers src tgt user rest p order d s t ne e gap =
    let left = insert src (reverse rest) p.members in
    let same : users left tgt ≡ users p.members tgt =
      users-insert_ne src tgt (reverse rest) p.members ne in
    let taken = sum_squares-insert src (reverse rest) p.members order d s in
    let given = sum_squares-insert tgt (users left tgt ++ user ∷ []) left order d t in
    let r : load p.members src ≡ suc (length rest) =
      sym (length-reverse (users p.members src)) ∙ ap length e in
    let r' = length-reverse rest in
    let g : length (users left tgt ++ user ∷ []) ≡ load p.members tgt + 1 =
      length-append (users left tgt) (user ∷ []) ∙ ap (λ xs. length xs + 1) same in
    squares_drop_at (sum_squares p.members order) (sum_squares left order)
      (sum_squares (insert tgt (users left tgt ++ user ∷ []) left) order) (load p.members src)
      (length rest) (load p.members tgt) (length (users left tgt ++ user ∷ []))
      (length (reverse rest)) (load left tgt) taken given r r' (ap length same) g gap
