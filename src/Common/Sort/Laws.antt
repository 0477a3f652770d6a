-- ===== src/Common/Sort/Laws.antt =====
-- The elements and the order of a sorted list.
use mathlib.Core.Path.{◌≡◌, refl}
use mathlib.Core.Bool.{Bool, true, false}
use mathlib.Core.List.{List, [], ◌∷◌}
use code_server_spawner.Common.Tests.{if◌then◌else◌}
use code_server_spawner.Common.Lists.{All}
use code_server_spawner.Common.Sort.{insert_by, sort_by}

-- Every element stands in the relation `R` to all that follow it.
abbrev pub IsSorted {ℓ κ} : {A : Type ℓ} → (A → A → Type κ) → List A → Type κ
IsSorted R [] = Unit
IsSorted R (x ∷ xs) = All (R x) xs × IsSorted R xs

pub All-map {ℓ κ μ} :
    {A : Type ℓ} {P : A → Type κ} {Q : A → Type μ} (xs : List A)
    → ((x : A) → P x → Q x)
    → All P xs
    → All Q xs
All-map [] f h = tt
All-map (x ∷ xs) f (p, ps) = (f x p, All-map xs f ps)

pub All-both {ℓ κ μ ν} :
    {A : Type ℓ} {P : A → Type κ} {Q : A → Type μ} {R : A → Type ν} (xs : List A)
    → ((x : A) → P x → Q x → R x)
    → All P xs
    → All Q xs
    → All R xs
All-both [] f p q = tt
All-both (x ∷ xs) f (p, ps) (q, qs) = (f x p q, All-both xs f ps qs)

module _ {ℓ κ} {A : Type ℓ} (P : A → Type κ) (x y : A) (ys rest : List A) where
  All-choice_in :
      (b : Bool) → P x → P y → All P ys → All P rest → All P (if b then y ∷ rest else x ∷ y ∷ ys)
  All-choice_in true p q qs r = (q, r)
  All-choice_in false p q qs r = (p, (q, qs))

  All-choice_out :
      (b : Bool)
      → (All P rest → P x × All P ys)
      → All P (if b then y ∷ rest else x ∷ y ∷ ys)
      → P x × P y × All P ys
  All-choice_out true back (q, r) = let (p, qs) = back r in (p, q, qs)
  All-choice_out false back (p, (q, qs)) = (p, q, qs)

module _ {ℓ κ} {A : Type ℓ} (before : A → A → Bool) (P : A → Type κ) where
  All-insert_by : (x : A) (xs : List A) → P x → All P xs → All P (insert_by before x xs)
  All-insert_by x [] p h = (p, tt)
  All-insert_by x (y ∷ ys) p (q, qs) =
      All-choice_in P x y ys (insert_by before x ys) (before y x) p q qs (All-insert_by x ys p qs)

  All-of_insert_by : (x : A) (xs : List A) → All P (insert_by before x xs) → P x × All P xs
  All-of_insert_by x [] (p, _) = (p, tt)
  All-of_insert_by x (y ∷ ys) h =
      let (p, q, qs) =
        All-choice_out P x y ys (insert_by before x ys) (before y x) (All-of_insert_by x ys) h in
      (p, (q, qs))

  pub All-sort_by : (xs : List A) → All P xs → All P (sort_by before xs)
  All-sort_by [] h = tt
  All-sort_by (x ∷ xs) (p, ps) = All-insert_by x (sort_by before xs) p (All-sort_by xs ps)

  pub All-of_sort_by : (xs : List A) → All P (sort_by before xs) → All P xs
  All-of_sort_by [] h = tt
  All-of_sort_by (x ∷ xs) h =
      let (p, ps) = All-of_insert_by x (sort_by before xs) h in (p, All-of_sort_by xs ps)

module _ {ℓ κ} {A : Type ℓ} (before : A → A → Bool) (R : A → A → Type κ)
    (before→R : (x y : A) → before y x ≡ true → R y x)
    (R_of_not_before : (x y : A) → before y x ≡ false → R x y)
    (R_trans : (x y z : A) → R x y → R y z → R x z) where
  IsSorted-choice :
      (b : Bool) (x y : A) (ys rest : List A)
      → before y x ≡ b
      → All (R y) ys
      → IsSorted R ys
      → (R y x → All (R y) rest)
      → IsSorted R rest
      → IsSorted R (if b then y ∷ rest else x ∷ y ∷ ys)
  IsSorted-choice true x y ys rest e h s r t = (r (before→R x y e), t)
  IsSorted-choice false x y ys rest e h s r t =
      let xy = R_of_not_before x y e in ((xy, All-map ys (λ z yz. R_trans x y z xy yz) h), (h, s))

  IsSorted-insert_by : (x : A) (xs : List A) → IsSorted R xs → IsSorted R (insert_by before x xs)
  IsSorted-insert_by x [] s = (tt, tt)
  IsSorted-insert_by x (y ∷ ys) (h, s) =
      IsSorted-choice (before y x) x y ys (insert_by before x ys) refl h s
        (λ yx. All-insert_by before (R y) x ys yx h) (IsSorted-insert_by x ys s)

  pub IsSorted-sort_by : (xs : List A) → IsSorted R (sort_by before xs)
  IsSorted-sort_by [] = tt
  IsSorted-sort_by (x ∷ xs) = IsSorted-insert_by x (sort_by before xs) (IsSorted-sort_by xs)
