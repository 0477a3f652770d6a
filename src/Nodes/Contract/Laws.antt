-- ===== src/Nodes/Contract/Laws.antt =====
-- Which node a contraction chooses.
use code_server_spawner.Common.{
  ℕ, String, Bool, true, false, Option, some, List, [], ◌∷◌, ◌≡◌, refl, inl, inr, arith, ltb, All,
  Bool-cases, Option-cases, List-cases, returns, Outcome-cases, returns-injective,
}
use code_server_spawner.Common.Dict.{Dict}
use code_server_spawner.Common.Sort.{sort_by}
use code_server_spawner.Common.Sort.Laws.{IsSorted, IsSorted-sort_by, All-sort_by, All-of_sort_by}
use code_server_spawner.Config.{Config}
use code_server_spawner.Nodes.Contract.{
  WorkerNode, Candidate, smaller, less_loaded, candidate, workers, empty_workers, first_of, setting,
  regex_from_template, Answer, select_contract_candidate, select_drain_candidate,
}
use code_server_spawner.Nodes.Contract.Order.{
  smaller-asym, smaller_trans, smaller-connex, less_loaded-asym, less_loaded_trans,
}

module _ (before : Candidate → Candidate → Bool)
    (asym : (a b : Candidate) → before a b ≡ true → before b a ≡ false)
    (trans : (a b c : Candidate)
      → before b a ≡ false
      → before c b ≡ false
      → before c a ≡ false) where
  -- The first of the sorted candidates is one of them, and none comes before it.
  first_is_least :
      (xs : List Candidate) (c : Candidate) (cs : List Candidate)
      → sort_by before xs ≡ c ∷ cs
      → All (λ x. before x c ≡ false) xs
  first_is_least xs c cs e =
      let all : IsSorted (λ a b. before b a ≡ false) (sort_by before xs) =
        IsSorted-sort_by before (λ a b. before b a ≡ false) (λ a b. asym b a) (λ a b h. h) trans
          xs in
      let sorted : IsSorted (λ a b. before b a ≡ false) (c ∷ cs) = rw e at all in
      let itself : before c c ≡ false = elim (Bool-cases (before c c)) [
        | inl t ↦ asym c c t
        | inr f ↦ f
      ] in
      All-of_sort_by before (λ x. before x c ≡ false) xs (rw e (itself, sorted.0))

pub first_is_one :
    (before : Candidate → Candidate → Bool) (P : Candidate → Type 0) (xs : List Candidate)
    (c : Candidate) (cs : List Candidate)
    → sort_by before xs ≡ c ∷ cs
    → All P xs
    → P c
first_is_one before P xs c cs e h =
    let all : All P (sort_by before xs) = All-sort_by before P xs h in
    let (one, _) : P c × All P cs = rw e at all in one

module _ (cfg : Config) (pat : String → Option ℕ) (running : Dict ℕ) where
  -- The empty workers are those of the workers that have no running host.
  pub All-empty_workers :
      (P : Candidate → Type 0) (ns : List WorkerNode)
      → All P (workers cfg pat running ns)
      → All (λ c. P c × (c.hosts ≡ 0)) (empty_workers cfg pat running ns)
  unfolding workers empty_workers
  All-empty_workers P [] h = tt
  All-empty_workers P (n ∷ ns) h = elim (Option-cases (candidate cfg pat running n)) [
    | inl e ↦ rw (empty_workers, e) (All-empty_workers P ns (rw (workers, e) at h))
    | inr (c, e) ↦ elim (Bool-cases (ltb 0 c.hosts)) [
      | inl f ↦
          let (_, rest) : P c × All P (workers cfg pat running ns) = rw (workers, e) at h in
          rw (empty_workers, e, f) (All-empty_workers P ns rest)
      | inr f ↦
          let (here, rest) : P c × All P (workers cfg pat running ns) = rw (workers, e) at h in
          rw (empty_workers, e, f) ((here, ground (arith, f)), All-empty_workers P ns rest)
    ]
  ]

  All-of_empty_workers :
      (P : Candidate → Type 0) (ns : List WorkerNode)
      → All P (empty_workers cfg pat running ns)
      → All (λ c. c.hosts ≡ 0 → P c) (workers cfg pat running ns)
  unfolding workers empty_workers
  All-of_empty_workers P [] h = tt
  All-of_empty_workers P (n ∷ ns) h = elim (Option-cases (candidate cfg pat running n)) [
    | inl e ↦ rw (workers, e) (All-of_empty_workers P ns (rw (empty_workers, e) at h))
    | inr (c, e) ↦ elim (Bool-cases (ltb 0 c.hosts)) [
      | inl f ↦
          let rest : All P (empty_workers cfg pat running ns) = rw (empty_workers, e, f) at h in
          rw (workers, e) ((λ z. absurd (ground (arith, f, z))), All-of_empty_workers P ns rest)
      | inr f ↦
          let (here, rest) : P c × All P (empty_workers cfg pat running ns) =
            rw (empty_workers, e, f) at h in
          rw (workers, e) ((λ _. here), All-of_empty_workers P ns rest)
    ]
  ]

  -- Where there is an empty worker, the least loaded worker is the smallest of the empty ones.
  first_of-same :
      (ns : List WorkerNode) (x : ℕ × String)
      → first_of (sort_by smaller (empty_workers cfg pat running ns)) ≡ some x
      → first_of (sort_by less_loaded (workers cfg pat running ns)) ≡ some x
  first_of-same ns x h = elim (List-cases (sort_by smaller (empty_workers cfg pat running ns))) [
    | inl e ↦ absurd (cc (rw e at h))
    | inr (c, cs, e) ↦ elim (List-cases (sort_by less_loaded (workers cfg pat running ns))) [
      | inl f ↦
          let nobody = All-of_sort_by less_loaded (λ _. ⊥) (workers cfg pat running ns) (rw f tt) in
          absurd
            (first_is_one smaller (λ x. ⊥ × (x.hosts ≡ 0)) (empty_workers cfg pat running ns) c cs e
              (All-empty_workers (λ _. ⊥) ns nobody)).0
      | inr (d, ds, f) ↦
          let least =
            first_is_least less_loaded less_loaded-asym less_loaded_trans
              (workers cfg pat running ns) d ds f in
          let (c_not_less, c_empty) =
            first_is_one smaller (λ x. (less_loaded x d ≡ false) × (x.hosts ≡ 0))
              (empty_workers cfg pat running ns) c cs e
              (All-empty_workers (λ x. less_loaded x d ≡ false) ns least) in
          let d_empty : d.hosts ≡ 0 = ground (arith, c_not_less, c_empty) in
          let smallest =
            first_is_least smaller smaller-asym smaller_trans (empty_workers cfg pat running ns) c
              cs e in
          let d_not_smaller =
            first_is_one less_loaded (λ x. x.hosts ≡ 0 → smaller x c ≡ false)
              (workers cfg pat running ns) d ds f
              (All-of_empty_workers (λ x. smaller x c ≡ false) ns smallest) d_empty in
          let c_not_smaller : smaller c d ≡ false = ground (arith, c_not_less, c_empty, d_empty) in
          let (s, q) = smaller-connex c d c_not_smaller d_not_smaller in
          rw f (rw (← s, ← q) (rw e at h))
    ]
  ]

-- When there is an empty worker to contract, the choice for a drain is the same.
pub drain-contract :
    (cfg : Config) (answer : Answer) (x : ℕ × String)
    → select_contract_candidate cfg answer ≡ returns (some x)
    → select_drain_candidate cfg answer ≡ returns (some x)
unfolding select_contract_candidate select_drain_candidate
drain-contract cfg answer x h = elim (Option-cases (setting "DO_NAMES" cfg)) [
  | inl e ↦ absurd (cc (rw (select_contract_candidate, e) at h))
  | inr (template, e) ↦ elim (Outcome-cases (regex_from_template template)) [
    | inl (exc, f) ↦ absurd (cc (rw (select_contract_candidate, e, f) at h))
    | inr (pat, f) ↦ elim (Outcome-cases answer) [
      | inl (exc, g) ↦ absurd (cc (rw (select_contract_candidate, e, f, g) at h))
      | inr ((running, nodes), g) ↦
          let chosen =
            first_of-same cfg pat running nodes x
              (returns-injective (rw (select_contract_candidate, e, f, g) at h)) in
          rw (select_drain_candidate, e, f, g, chosen) refl
    ]
  ]
]
