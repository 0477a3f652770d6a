-- ===== src/Hosts/Sync/Converge.antt =====
-- How the repeated synchronisation ends.
use mathlib.Core.Path.{subst}
use Prim.Native.Nat.{suc}
use code_server_spawner.Common.{
  ℕ, zero, ◌+◌, ◌≤◌, Bool, true, List, [], ◌∷◌, ◌≡◌, ◌⊎◌, refl, sym, ap, inl, inr, arith, length,
  Bool-cases, List-cases,
}
use code_server_spawner.Hosts.{CodeHost}
use code_server_spawner.Hosts.Sync.{
  unsettled_hosts, is_unsettled, Summary, summary, converge, sync_converge,
}

length-unsettled_hosts : (rows : List CodeHost) → length (unsettled_hosts rows) ≤ length rows
length-unsettled_hosts [] = omega arith
length-unsettled_hosts (ch ∷ rows) = elim (Bool-cases (is_unsettled ch)) [
  | inl e ↦ let later = length-unsettled_hosts rows in rw e (omega arith)
  | inr e ↦ let later = length-unsettled_hosts rows in rw e (omega arith)
]

-- A summary of the table that tells how the loop ended: with at most `most` passes, the rows counted
-- by whether they are settled, and either none unsettled, or all passes made, or the deadline over.
abbrev pub IsTrue : (ℕ → Bool) → ℕ → Summary × List CodeHost → Type 0
IsTrue late most (s, rows) =
    (s.passes ≤ most)
    × (s.unsettled ≡ length (unsettled_hosts rows))
    × (s.settled + s.unsettled ≡ length rows)
    × ((s.unsettled ≡ 0) ⊎ ((s.passes ≡ most) ⊎ (late s.passes ≡ true)))

module _ (pass : ℕ → List CodeHost → List CodeHost) (late : ℕ → Bool) where
  summary-IsTrue :
      (k most : ℕ) (remaining rows : List CodeHost)
      → remaining ≡ unsettled_hosts rows
      → k ≤ most
      → (length remaining ≡ 0) ⊎ ((k ≡ most) ⊎ (late k ≡ true))
      → IsTrue late most (summary k remaining rows, rows)
  summary-IsTrue k most remaining rows e h ends =
      let same = ap length e in
      let fewer = length-unsettled_hosts rows in (h, same, omega arith, ends)

  converge-IsTrue :
      (left passes : ℕ) (remaining rows : List CodeHost)
      → IsTrue late (passes + suc left) (converge pass late (suc left) passes remaining rows)
  unfolding converge
  converge-IsTrue zero passes remaining rows =
      let rows' = pass (suc passes) rows in
      elim (List-cases (unsettled_hosts rows')) [
        | inl e ↦
            rw (converge, e)
              (summary-IsTrue (suc passes) (passes + 1) [] rows' (sym e) (omega arith) (inl refl))
        | inr (ch, more, e) ↦
            let done =
              summary-IsTrue (suc passes) (passes + 1) (ch ∷ more) rows' (sym e) (omega arith)
                (inr (inl (omega arith))) in
            elim (Bool-cases (late (suc passes))) [
              | inl over ↦ rw (converge, e, over) done
              | inr time ↦
                  rw (converge, e, time)
                    (summary-IsTrue (suc passes) (passes + 1) (unsettled_hosts rows') rows' refl
                      (omega arith) (inr (inl (omega arith))))
            ]
      ]
  converge-IsTrue (suc left) passes remaining rows =
      let rows' = pass (suc passes) rows in
      elim (List-cases (unsettled_hosts rows')) [
        | inl e ↦
            rw (converge, e)
              (summary-IsTrue (suc passes) (passes + suc (suc left)) [] rows' (sym e) (omega arith)
                (inl refl))
        | inr (ch, more, e) ↦ elim (Bool-cases (late (suc passes))) [
          | inl over ↦
              rw (converge, e, over)
                (summary-IsTrue (suc passes) (passes + suc (suc left)) (ch ∷ more) rows' (sym e)
                  (omega arith) (inr (inr over)))
          | inr time ↦
              let most : suc passes + suc left ≡ passes + suc (suc left) = omega arith in
              rw (converge, e, time)
                (subst
                  (λ n.
                    IsTrue late n
                      (converge pass late (suc left) (suc passes) (unsettled_hosts rows') rows'))
                  most (converge-IsTrue left (suc passes) (unsettled_hosts rows') rows'))
        ]
      ]

  -- With at least one pass allowed, the repeated synchronisation ends within the passes allowed, and
  -- its summary is true of the table: the rows are counted by whether they are settled, and it ends
  -- with none unsettled, after all its passes, or with the deadline over.
  pub sync_converge-IsTrue :
      (n : ℕ) (rows : List CodeHost) → IsTrue late (suc n) (sync_converge pass late (suc n) rows)
  unfolding sync_converge
  sync_converge-IsTrue n rows =
      let most : 0 + suc n ≡ suc n = omega arith in
      subst (λ k. IsTrue late k (converge pass late (suc n) 0 [] rows)) most
        (converge-IsTrue n 0 [] rows)
