-- ===== src/NodeOps/Laws.antt =====
-- How a node operation ends: by `op_run` itself, or by the sweep of the next boot.
use code_server_spawner.Common.{
  ℕ, ◌+◌, String, Bool, true, false, not, Option, some, List, [], ◌∷◌, ◌≡◌, refl, ◌⊎◌, inl, inr,
  arith, str_eq, eq_iff, count_if, length, All, ◌≢◌, Bool-cases, Option-cases, if◌then◌else◌,
}
use code_server_spawner.Common.Sort.Laws.{All-map}
use code_server_spawner.NodeOps.{
  NodeOp, Status, pending, running, done, failed, interrupted, get, write, Commands, start, refuse,
  perform, op_run, is_running, interrupt, sweep_rows, sweep_interrupted_node_ops,
}

pub get-write_self :
    (k : String) (f : NodeOp → NodeOp) (rows : List NodeOp) (op : NodeOp)
    → ((o : NodeOp) → (f o).id ≡ o.id)
    → get k rows ≡ some op
    → get k (write k f rows) ≡ some (f op)
get-write_self k f [] op same h = absurd (cc h)
get-write_self k f (o ∷ rows) op same h = elim (Bool-cases (str_eq o.id k)) [
  | inl e ↦ ground (arith, same o, e, h)
  | inr e ↦ rw e (ground (arith, e, get-write_self k f rows op same (ground (arith, e, h))))
]

pub get-write_other :
    (k j : String) (f : NodeOp → NodeOp) (rows : List NodeOp)
    → ((o : NodeOp) → (f o).id ≡ o.id)
    → str_eq k j ≡ false
    → get j (write k f rows) ≡ get j rows
get-write_other k j f [] same h = refl
get-write_other k j f (o ∷ rows) same h =
    ground
      (arith, same o, eq_iff o.id k, eq_iff o.id j, eq_iff k j, get-write_other k j f rows same h)

-- A row that says how its operation ended: with exit code 0 as done, or with exit code 1 and a
-- message as failed; and when.
abbrev pub HasEnded : ℕ → NodeOp → Type 0
HasEnded now op =
    ((op.status ≡ done) × (op.exit_code ≡ some 0)
      ⊎ (op.status ≡ failed)
        × (op.exit_code ≡ some 1)
        × ((text : String) × (op.message ≡ some text)))
    × (op.finished_at ≡ some now)

-- The commands leave the row of the operation in the table.
abbrev pub KeepsRow : Commands → String → Type 0
KeepsRow commands op_id =
    (rows : List NodeOp) (op : NodeOp)
    → get op_id rows ≡ some op
    → ((tier : Option String)
        → (o : NodeOp) × (get op_id (commands.expand tier op_id rows).1 ≡ some o))
      × ((fqdn : Option String)
          → (o : NodeOp) × (get op_id (commands.stop_node fqdn rows).1 ≡ some o))
      × ((o : NodeOp) × (get op_id (commands.rebalance rows).1 ≡ some o))

module _ (commands : Commands) (data_dir : String) where
  -- An operation that finds the lock held runs no command: the rows of the other operations are as
  -- they were.
  pub op_run-locked :
      (now ended : ℕ) (op_id other : String) (rows rows' : List NodeOp)
      → str_eq op_id other ≡ false
      → op_run commands data_dir true now ended op_id rows ≡ some rows'
      → get other rows' ≡ get other rows
  unfolding op_run perform
  op_run-locked now ended op_id other rows rows' ne h = elim (Option-cases (get op_id rows)) [
    | inl e ↦ absurd (cc (rw (op_run, e) at h))
    | inr (op, e) ↦
        let same : some _ ≡ some rows' = rw (op_run, perform, e) at h in
        let begun = get-write_other op_id other (start data_dir op_id now) rows (λ _. refl) ne in
        let refused =
          get-write_other op_id other (refuse ended) (write op_id (start data_dir op_id now) rows)
            (λ _. refl) ne in
        ground (arith, same, refused, begun)
  ]

is_running-false : (st : Status) → is_running st ≡ false → st ≢ running
is_running-false st e same = absurd (cc (rw same at e))

is_running-true : (st : Status) → st ≢ running → is_running st ≡ false
is_running-true pending ne = refl
is_running-true running ne = absurd (ne refl)
is_running-true done ne = refl
is_running-true failed ne = refl
is_running-true interrupted ne = refl

-- The row `o` tells that the operation of the row `op` was interrupted, at `now`, and keeps the rest.
abbrev pub WasInterrupted : ℕ → NodeOp → NodeOp → Type 0
WasInterrupted now op o =
    (o.status ≡ interrupted)
    × (o.exit_code ≡ some 1)
    × ((text : String) × (o.message ≡ some text))
    × (o.finished_at ≡ some now)
    × (o.id ≡ op.id)
    × (o.kind ≡ op.kind)
    × (o.tier ≡ op.tier)
    × (o.target_fqdn ≡ op.target_fqdn)
    × (o.droplet_id ≡ op.droplet_id)
    × (o.log_path ≡ op.log_path)
    × (o.started_at ≡ op.started_at)

-- Everything but the running rows.
abbrev pub settled : NodeOp → Bool
settled op = not (is_running op.status)

module _ (show_fqdn : Option String → String) (show_id : Option ℕ → String) where
  sweep_rows-parts :
      (now : ℕ) (rows : List NodeOp)
      → All (λ op. is_running op.status ≡ false) (sweep_rows show_fqdn show_id now rows)
        × (count_if (λ op. is_running op.status) rows + count_if settled rows ≡ length rows)
        × (length (sweep_rows show_fqdn show_id now rows) ≡ length rows)
  unfolding sweep_rows
  sweep_rows-parts now [] = (tt, refl, refl)
  sweep_rows-parts now (op ∷ rows) =
      let (a, b, c) = sweep_rows-parts now rows in
      elim (Bool-cases (is_running op.status)) [
        | inl e ↦ rw e ((refl, a), omega arith, omega arith)
        | inr e ↦ rw e ((e, a), omega arith, omega arith)
      ]

  pub get-sweep_rows :
      (now : ℕ) (k : String) (rows : List NodeOp) (op : NodeOp)
      → get k rows ≡ some op
      → get k (sweep_rows show_fqdn show_id now rows)
        ≡ some (if is_running op.status then interrupt show_fqdn show_id now op else op)
  unfolding sweep_rows
  get-sweep_rows now k [] op h = absurd (cc h)
  get-sweep_rows now k (o ∷ rows) op h = elim (Bool-cases (str_eq o.id k)) [
    | inl e ↦
        let same : some o ≡ some op = rw e at h in
        elim (Bool-cases (is_running o.status)) [
          | inl f ↦ ground (arith, e, f, same)
          | inr f ↦ ground (arith, e, f, same)
        ]
    | inr e ↦
        let later = get-sweep_rows now k rows op (rw e at h) in
        elim (Bool-cases (is_running o.status)) [
          | inl f ↦ rw (f, e) later
          | inr f ↦ rw (f, e) later
        ]
  ]

  swept : ℕ → NodeOp → NodeOp
  swept now op = if is_running op.status then interrupt show_fqdn show_id now op else op

  swept-idle : (now : ℕ) (op : NodeOp) → op.status ≢ running → swept now op ≡ op
  unfolding swept
  swept-idle now op ne = rw (is_running-true op.status ne) refl

  swept-running :
      (now : ℕ) (op : NodeOp) → op.status ≡ running → WasInterrupted now op (swept now op)
  unfolding swept
  swept-running now op same =
      rw same (refl, refl, (_, refl), refl, refl, refl, refl, refl, refl, refl, refl)

  -- After the sweep no row is running, and no row is gone. A row that was not running is as it was.
  -- One that was says that it is interrupted, with exit code 1, a message and the time of the sweep,
  -- and its other columns are as they were. The number that the sweep gives is that of these rows.
  pub sweep_interrupted_node_ops-settles :
      (now : ℕ) (rows : List NodeOp)
      → let (n, rows') = sweep_interrupted_node_ops show_fqdn show_id now rows in
        All (λ op. op.status ≢ running) rows'
        × (length rows' ≡ length rows)
        × (n + count_if settled rows ≡ length rows)
        × ((k : String) (op : NodeOp)
            → get k rows ≡ some op
            → (o : NodeOp) × (get k rows' ≡ some o)
              × (op.status ≢ running → o ≡ op)
              × (op.status ≡ running → WasInterrupted now op o))
  unfolding sweep_interrupted_node_ops swept
  sweep_interrupted_node_ops-settles now rows =
      let (a, b, c) = sweep_rows-parts now rows in
      (
        All-map (sweep_rows show_fqdn show_id now rows) (λ op. is_running-false op.status) a,
        c,
        b,
        λ k op h.
            (swept now op, get-sweep_rows now k rows op h, swept-idle now op, swept-running now op),
      )

  -- An operation whose process dies between its start and its end is not lost: whatever state it
  -- was in before, the sweep of the next boot finds it running and marks it as interrupted.
  pub sweep-start :
      (data_dir : String) (now boot : ℕ) (op_id : String) (rows : List NodeOp) (op : NodeOp)
      → get op_id rows ≡ some op
      → (o : NodeOp) × (get op_id
            (sweep_interrupted_node_ops show_fqdn show_id boot
              (write op_id (start data_dir op_id now) rows)).1
          ≡ some o)
        × (o.status ≡ interrupted)
        × (o.finished_at ≡ some boot)
  unfolding sweep_interrupted_node_ops
  sweep-start data_dir now boot op_id rows op h =
      let begun = get-write_self op_id (start data_dir op_id now) rows op (λ _. refl) h in
      (_, get-sweep_rows boot op_id _ _ begun, refl, refl)
