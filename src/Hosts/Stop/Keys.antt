-- ===== src/Hosts/Stop/Keys.antt =====
-- The rows under distinct ids: what is left of a chosen part of the table when rows are deleted.
use mathlib.Core.Path.{subst⁻¹}
use code_server_spawner.Common.{
  Bool, true, false, ◌&&◌, List, [], ◌∷◌, ◌≡◌, refl, ◌≢◌, arith, ◌==◌, keep, All, if-elim,
}
use code_server_spawner.Common.Sort.Laws.{IsSorted}
use code_server_spawner.Hosts.{CodeHost}
use code_server_spawner.Hosts.Stop.{World, Faults, stop_host}
use code_server_spawner.Hosts.Stop.Laws.{others, stop_host-deletes}

-- Two rows have two ids, as the primary key of the table ensures.
abbrev pub HasKeys : List CodeHost → Type 0
HasKeys = IsSorted (λ a b. a.id ≢ b.id)

module _ {ℓ κ} {A : Type ℓ} (P : A → Type κ) where
  pub All-keep_of : (q : A → Bool) (xs : List A) → All P xs → All P (keep q xs)
  All-keep_of q [] h = tt
  All-keep_of q (x ∷ xs) (p, ps) =
      if-elim (All P) (q x) (λ _. (p, All-keep_of q xs ps)) (λ _. All-keep_of q xs ps)

pub HasKeys-keep : (q : CodeHost → Bool) (hs : List CodeHost) → HasKeys hs → HasKeys (keep q hs)
HasKeys-keep q [] u = tt
HasKeys-keep q (h ∷ hs) (ne, u) =
    if-elim HasKeys (q h) (λ _. (All-keep_of (λ b. h.id ≢ b.id) q hs ne, HasKeys-keep q hs u))
      (λ _. HasKeys-keep q hs u)

module _ (p : CodeHost → Bool) where
  -- No row with the id of `ch` is in the chosen part.
  abbrev pub Outside : CodeHost → List CodeHost → Type 0
  Outside ch = All (λ h. (h.id == ch.id) && p h ≡ false)

  keep-others :
      (ch : CodeHost) (hs : List CodeHost) → Outside ch hs → keep p (others ch hs) ≡ keep p hs
  keep-others ch [] o = refl
  keep-others ch (h ∷ hs) (e, o) = ground (arith, keep-others ch hs o)

  -- Rows that are outside of a table stay so when a row with another id is put in front.
  Outside-cons_later :
      (h : CodeHost) (hs : List CodeHost) (chs : List CodeHost)
      → All (λ b. h.id ≢ b.id) chs
      → All (λ ch. Outside ch hs) chs
      → All (λ ch. Outside ch (h ∷ hs)) chs
  Outside-cons_later h hs [] ne os = tt
  Outside-cons_later h hs (ch ∷ chs) (e, ne) (o, os) =
      ((ground arith, o), Outside-cons_later h hs chs ne os)

  Outside-ne : (ch : CodeHost) (hs : List CodeHost) → All (λ b. ch.id ≢ b.id) hs → Outside ch hs
  Outside-ne ch [] ne = tt
  Outside-ne ch (h ∷ hs) (e, ne) = (ground arith, Outside-ne ch hs ne)

  pub Outside-keep :
      (q : CodeHost → Bool) (hs : List CodeHost)
      → HasKeys hs
      → ((h : CodeHost) → q h ≡ true → p h ≡ false)
      → All (λ ch. Outside ch hs) (keep q hs)
  Outside-keep q [] u f = tt
  Outside-keep q (h ∷ hs) (ne, u) f =
      let later =
        Outside-cons_later h hs (keep q hs) (All-keep_of (λ b. h.id ≢ b.id) q hs ne)
          (Outside-keep q hs u f) in
      if-elim (All (λ ch. Outside ch (h ∷ hs))) (q h)
        (λ e. ((ground (arith, f h e), Outside-ne h hs ne), later)) (λ _. later)

  -- The chosen part of the table and the keys, across one stop.
  module _ (faults : Faults) (push : Bool) where
    pub hosts-stop_host :
        (ch : CodeHost) (w : World) (P : List CodeHost → Type 0)
        → P w.hosts
        → P (others ch w.hosts)
        → P (stop_host faults ch push w).1.hosts
    hosts-stop_host ch w P same fewer =
        subst⁻¹ P (stop_host-deletes faults ch push w).1
          (if-elim P (stop_host faults ch push w).0.deleted (λ _. fewer) (λ _. same))

    pub keep-stop_host :
        (ch : CodeHost) (w : World)
        → Outside ch w.hosts
        → keep p (stop_host faults ch push w).1.hosts ≡ keep p w.hosts
    keep-stop_host ch w o =
        hosts-stop_host ch w (λ hs. keep p hs ≡ keep p w.hosts) refl (keep-others ch w.hosts o)
