-- ===== src/Nodes/Purge/Laws.antt =====
-- Which droplets a purge spares.
use mathlib.Core.Path.{subst}
use code_server_spawner.Common.{
  ℕ, ◌+◌, String, Bool, true, false, not, ◌&&◌, ◌||◌, ◌==◌, List, [], ◌∷◌, ◌≡◌, ◌≢◌, refl, sym, ◌∙◌,
  inl, inr, arith, str_eq, eq_iff, is_some, keep, if◌then◌else◌, All, Bool-cases, if-elim,
}
use code_server_spawner.Common.Dict.{Dict, lookup, insert, lookup-insert}
use code_server_spawner.Common.Sort.Laws.{All-map, All-both, IsSorted}
use code_server_spawner.Common.Text.{before_dot, strip}
use code_server_spawner.Hosts.Stop.Keys.{All-keep_of}
use code_server_spawner.Nodes.Droplets.{Droplet}
use code_server_spawner.Nodes.Removal.{Member}
use code_server_spawner.Nodes.Purge.{
  PurgeAnswers, Sides, swarm_nodes, droplet_map, unmatched, destroy_all, expand_purge,
}

-- A node of this short name is listed.
abbrev pub is_listed : String → List Member → Bool
is_listed short [] = false
is_listed short (m ∷ ms) =
    (not (str_eq m.hostname "") && str_eq (before_dot m.hostname) short) || is_listed short ms

swarm_nodes-is_listed :
    (short : String) (ms : List Member) (d : Dict Member)
    → is_some (lookup short (swarm_nodes ms d)) ≡ is_listed short ms || is_some (lookup short d)
unfolding swarm_nodes
swarm_nodes-is_listed short [] d = refl
swarm_nodes-is_listed short (m ∷ ms) d = elim (Bool-cases (str_eq m.hostname "")) [
  | inl e ↦ rw e (swarm_nodes-is_listed short ms d)
  | inr e ↦
      let later = swarm_nodes-is_listed short ms (insert (before_dot m.hostname) m d) in
      let here = lookup-insert (before_dot m.hostname) short m d in
      rw e (later ∙ ground (arith, here))
]

-- Every entry has a property that relates its key to its value.
abbrev Each : (String → Droplet → Type 0) → Dict Droplet → Type 0
Each Q = All (λ e. Q e.0 e.1)

Each-insert :
    (Q : String → Droplet → Type 0) (k : String) (x : Droplet) (d : Dict Droplet)
    → Each Q d
    → Q k x
    → Each Q (insert k x d)
Each-insert Q k x [] h q = (q, tt)
Each-insert Q k x ((j, y) ∷ d) (p, h) q = elim (Bool-cases (str_eq j k)) [
  | inl e ↦ rw e (subst (λ (n : String). Q n x) (sym ((eq_iff j k).0 e)) q, h)
  | inr e ↦ rw e (p, Each-insert Q k x d h q)
]

short_of : Droplet → String
short_of x = before_dot (strip x.name)

Each-droplet_map :
    (Q : String → Droplet → Type 0) (xs : List Droplet) (d : Dict Droplet)
    → All (λ x. Q (short_of x) x) xs
    → Each Q d
    → Each Q (droplet_map xs d)
unfolding droplet_map short_of
Each-droplet_map Q [] d h q = q
Each-droplet_map Q (x ∷ xs) d (p, h) q = elim (Bool-cases (str_eq (strip x.name) "")) [
  | inl e ↦ rw e (Each-droplet_map Q xs d h q)
  | inr e ↦ rw e (Each-droplet_map Q xs _ h (Each-insert Q (short_of x) x d q p))
]

All-unmatched :
    (P : Droplet → Type 0) (d : Dict Droplet) (other : Dict Member)
    → Each (λ k x. is_some (lookup k other) ≡ false → P x) d
    → All P (unmatched d other)
All-unmatched P [] other h = tt
All-unmatched P ((k, x) ∷ d) other (p, h) = elim (Bool-cases (is_some (lookup k other))) [
  | inl e ↦ rw e (All-unmatched P d other h)
  | inr e ↦ rw e (p e, All-unmatched P d other h)
]

module _ (p : Droplet → Bool) where
  -- No droplet with the id of `x` is in the chosen part.
  abbrev Outside : List Droplet → Droplet → Type 0
  Outside ds x = All (λ d. (d.id == x.id) && p d ≡ false) ds

  keep-others :
      (x : Droplet) (ds : List Droplet)
      → Outside ds x
      → keep p (keep (λ d. not (d.id == x.id)) ds) ≡ keep p ds
  keep-others x [] o = refl
  keep-others x (d ∷ ds) (e, o) = ground (arith, keep-others x ds o)

  Outside-self :
      (ds : List Droplet)
      → IsSorted (λ a b. a.id ≢ b.id) ds
      → All (λ x. p x ≡ false → Outside ds x) ds
  Outside-self [] u = tt
  Outside-self (x ∷ ds) (ne, u) = (
    λ e. (ground (arith, e), All-map ds (λ d k. ground (arith, k)) ne),
    All-both ds (λ y k h e. (ground (arith, k), h e)) ne (Outside-self ds u),
  )

  keep-destroy_all :
      (answers : PurgeAnswers) (xs : List Droplet) (errors : ℕ) (ds : List Droplet)
      → All (Outside ds) xs
      → keep p (destroy_all answers xs errors ds).1 ≡ keep p ds
  unfolding destroy_all
  keep-destroy_all answers [] errors ds o = refl
  keep-destroy_all answers (x ∷ xs) errors ds (o, os) =
      elim (Bool-cases (answers.destroy_fails x)) [
        | inl e ↦ rw e (keep-destroy_all answers xs (errors + 1) ds os)
        | inr e ↦
            let fewer = keep (λ d. not (d.id == x.id)) ds in
            let still =
              All-map xs
                (λ y h.
                  All-keep_of (λ d. (d.id == y.id) && p d ≡ false) (λ d. not (d.id == x.id)) ds h)
                os in
            rw e (keep-destroy_all answers xs errors fewer still ∙ keep-others x ds o)
      ]

-- The short name of the droplet is that of a node of the swarm.
abbrev pub is_matched : List Member → Droplet → Bool
is_matched ms x = is_listed (before_dot (strip x.name)) ms

-- Where the nodes of the swarm can be listed, a purge spares the droplets of its nodes: those with
-- the short name of a node are all there afterwards, in their order, whatever fails on the way. The
-- droplets are taken to have distinct ids.
pub expand_purge-spares :
    (answers : PurgeAnswers) (dry_run : Bool) (s : Sides)
    → IsSorted (λ a b. a.id ≢ b.id) s.droplets
    → answers.lists_nodes ≡ true
    → keep (is_matched s.members) (expand_purge answers dry_run s).1.droplets
      ≡ keep (is_matched s.members) s.droplets
unfolding expand_purge short_of
expand_purge-spares answers true s u listed = refl
expand_purge-spares answers false s u listed =
    let nodes = swarm_nodes s.members [] in
    let named = droplet_map (if answers.lists_droplets then s.droplets else []) [] in
    let p = is_matched s.members in
    let each =
      Each-droplet_map (λ k x. is_some (lookup k nodes) ≡ false → Outside p s.droplets x)
        (if answers.lists_droplets then s.droplets else []) []
        (if-elim (All (λ x. is_some (lookup (short_of x) nodes) ≡ false → Outside p s.droplets x))
          answers.lists_droplets
          (λ _. All-map s.droplets (λ x h e. h (unlisted x e)) (Outside-self p s.droplets u))
          (λ _. tt))
        tt in
    rw listed (
      keep-destroy_all p answers (unmatched named nodes) 0 s.droplets
        (All-unmatched (Outside p s.droplets) named nodes each))
  where
    unlisted :
        (x : Droplet)
        → is_some (lookup (short_of x) (swarm_nodes s.members [])) ≡ false
        → is_matched s.members x ≡ false
    unlisted x e =
        let known = swarm_nodes-is_listed (short_of x) s.members [] in ground (arith, known, e)
