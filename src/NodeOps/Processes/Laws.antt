-- ===== src/NodeOps/Processes/Laws.antt =====
-- What holds in every state that the processes can come to.
use code_server_spawner.Common.{
  ℕ, String, Bool, true, false, Option, none, some, List, ◌≡◌, refl, sym, ap, ◌∙◌, inl, inr, arith,
  str_eq, eq_iff, ◌==◌, if◌then◌else◌, Bool-cases, Option-cases,
}
use code_server_spawner.NodeOps.{
  NodeOp, Status, pending, running, done, failed, interrupted, get, write, Commands, start, refuse,
  finish, dispatch,
}
use code_server_spawner.NodeOps.Laws.{get-write_self, get-write_other}
use code_server_spawner.NodeOps.Processes.{
  Phase, idle, started, working, ended, OpSystem, OpSite, Step, begins, locks, refuses, executes,
  concludes, dies, restarts, Reach, here, next, set_phase, released,
}

-- The status of the row of an operation.
abbrev pub status_of : String → List NodeOp → Option Status
status_of k rows = elim (get k rows) [ none ↦ none | some op ↦ some op.status ]

-- The commands leave the statuses alone: they write the columns for the droplet.
abbrev pub KeepsStatus : Commands → Type 0
KeepsStatus commands =
    (k : String) (rows : List NodeOp)
    → ((tier : Option String) (op_id : String)
        → status_of k (commands.expand tier op_id rows).1 ≡ status_of k rows)
      × ((fqdn : Option String) → status_of k (commands.stop_node fqdn rows).1 ≡ status_of k rows)
      × (status_of k (commands.rebalance rows).1 ≡ status_of k rows)

abbrev pub is_working : Phase → Bool
is_working (working _) = true
is_working _ = false

-- The operation of a process.
abbrev pub operation : Phase → Option String
operation idle = none
operation (started op_id) = some op_id
operation (working op_id) = some op_id
operation (ended op_id _) = some op_id

-- The status of an operation that has begun, and that no restart has interrupted since.
abbrev pub has_begun : Option Status → Bool
has_begun none = false
has_begun (some pending) = false
has_begun (some running) = true
has_begun (some done) = true
has_begun (some failed) = true
has_begun (some interrupted) = false

-- The process that holds the lock is the one that works.
abbrev pub IsExclusive : OpSystem → Type 0
IsExclusive s =
    (k : ℕ)
    → (is_working (s.phase k) ≡ true → s.lock ≡ some k)
      × (s.lock ≡ some k → is_working (s.phase k) ≡ true)

-- The row of the operation of a live process says that the operation has begun.
abbrev pub IsShown : OpSystem → Type 0
IsShown s =
    (pid : ℕ) (op_id : String)
    → operation (s.phase pid) ≡ some op_id
    → has_begun (status_of op_id s.rows) ≡ true

abbrev pub IsSound : OpSystem → Type 0
IsSound s = IsExclusive s × IsShown s

same_pid : (a b : ℕ) → (a == b) ≡ true → a ≡ b
same_pid a b e = ground (arith, e)

pub pid_refl : (k : ℕ) → (k == k) ≡ true
pid_refl k = ground arith

released-some :
    (pid k : ℕ) (lock : Option ℕ)
    → released pid lock ≡ some k
    → (lock ≡ some k) × ((k == pid) ≡ false)
released-some pid k none h = absurd (cc h)
released-some pid k (some holder) h = elim (Bool-cases (holder == pid)) [
  | inl e ↦ absurd (cc (rw (released, e) at h))
  | inr e ↦
      let same : some holder ≡ some k = rw (released, e) at h in (same, ground (arith, e, same))
]

-- The lock and the phases alone.
abbrev Fits : Option ℕ → (ℕ → Phase) → Type 0
Fits lock phase =
    (k : ℕ)
    → (is_working (phase k) ≡ true → lock ≡ some k) × (lock ≡ some k → is_working (phase k) ≡ true)

module _ (lock : Option ℕ) (phase : ℕ → Phase) (pid : ℕ) (p : Phase) (x : Fits lock phase) where
  -- A process that did not work does not work in the phase to come.
  Fits-stays :
      is_working p ≡ false → is_working (phase pid) ≡ false → Fits lock (set_phase pid p phase)
  Fits-stays np nq k = elim (Bool-cases (k == pid)) [
    | inl e ↦
        let same : k ≡ pid = same_pid k pid e in
        rw e
          (λ w. absurd (cc (np, w)), λ l. absurd (cc (nq, (x pid).1 (l ∙ ap (λ y. some y) same))))
    | inr e ↦ rw e (x k)
  ]

  -- A process that ends, or ends its work, frees the lock if it holds it.
  Fits-releases : is_working p ≡ false → Fits (released pid lock) (set_phase pid p phase)
  Fits-releases np k = elim (Bool-cases (k == pid)) [
    | inl e ↦ rw e (λ w. absurd (cc (np, w)), λ l. absurd (cc (e, (released-some pid k lock l).1)))
    | inr e ↦ rw e (
      λ w. rw ((x k).0 w) (ap (λ (b : Bool). if b then none else some k) e),
      λ l. (x k).1 (released-some pid k lock l).0,
    )
  ]

  -- A process that takes the free lock works, alone.
  Fits-locks : lock ≡ none → is_working p ≡ true → Fits (some pid) (set_phase pid p phase)
  Fits-locks free w k = elim (Bool-cases (k == pid)) [
    | inl e ↦
        let same : k ≡ pid = same_pid k pid e in rw e (λ _. ap (λ y. some y) (sym same), λ _. w)
    | inr e ↦ rw e (λ v. absurd (cc (free, (x k).0 v)), λ l. absurd (cc (e, pid_refl k, l)))
  ]

module _ (site : OpSite) where
  Step-IsExclusive : {s t : OpSystem} → Step site s t → IsExclusive s → IsExclusive t
  Step-IsExclusive (begins s pid op_id op now h g) x =
      Fits-stays s.lock s.phase pid (started op_id) x refl (rw h refl)
  Step-IsExclusive (locks s pid op_id h l) x =
      Fits-locks s.lock s.phase pid (working op_id) x l refl
  Step-IsExclusive (refuses s pid op_id holder now h l) x =
      Fits-stays s.lock s.phase pid idle x refl (rw h refl)
  Step-IsExclusive (executes s pid op_id h) x = Fits-releases s.lock s.phase pid _ x refl
  Step-IsExclusive (concludes s pid op_id exc_message now h) x =
      Fits-stays s.lock s.phase pid idle x refl (rw h refl)
  Step-IsExclusive (dies s pid) x = Fits-releases s.lock s.phase pid idle x refl
  Step-IsExclusive (restarts s now) x = λ k. ((λ e. absurd (cc e)), (λ e. absurd (cc e)))

status_of-get :
    (k : String) (rows : List NodeOp) (st : Status)
    → status_of k rows ≡ some st
    → (op : NodeOp) × (get k rows ≡ some op) × (op.status ≡ st)
status_of-get k rows st h = elim (Option-cases (get k rows)) [
  | inl e ↦ absurd (cc (rw (status_of, e) at h))
  | inr (op, e) ↦ (op, e, ground (arith, rw (status_of, e) at h))
]

pub status_of-write_self :
    (k : String) (f : NodeOp → NodeOp) (rows : List NodeOp) (old new : Status)
    → ((o : NodeOp) → ((f o).id ≡ o.id) × ((f o).status ≡ new))
    → status_of k rows ≡ some old
    → status_of k (write k f rows) ≡ some new
status_of-write_self k f rows old new h e =
    let (op, there, _) = status_of-get k rows old e in
    let written = get-write_self k f rows op (λ o. (h o).0) there in
    rw (status_of, written) (ap (λ x. some x) (h op).1)

pub status_of-write_other :
    (k j : String) (f : NodeOp → NodeOp) (rows : List NodeOp)
    → ((o : NodeOp) → (f o).id ≡ o.id)
    → str_eq k j ≡ false
    → status_of k (write j f rows) ≡ status_of k rows
status_of-write_other k j f rows same ne =
    let other = get-write_other j k f rows same (ground (arith, eq_iff j k, eq_iff k j, ne)) in
    rw (status_of, other) refl

pub status_of-dispatch :
    (commands : Commands) (data_dir : String)
    → KeepsStatus commands
    → (op_id k : String) (row : Option NodeOp) (rows : List NodeOp)
    → status_of k (dispatch commands data_dir op_id row rows).1 ≡ status_of k rows
unfolding dispatch
status_of-dispatch commands data_dir keeps op_id k none rows = refl
status_of-dispatch commands data_dir keeps op_id k (some op) rows =
    let (by_expand, by_stop, by_rebalance) = keeps k rows in
    elim (Bool-cases (str_eq op.kind "expand")) [
      | inl e ↦ rw e (by_expand op.tier op_id)
      | inr e ↦ elim (Bool-cases (str_eq op.kind "remove")) [
        | inl f ↦ rw (e, f) (by_stop op.target_fqdn)
        | inr f ↦ elim (Bool-cases (str_eq op.kind "rebalance")) [
          | inl g ↦ rw (e, f, g) by_rebalance
          | inr g ↦ rw (e, f, g) refl
        ]
      ]
    ]

abbrev pub finish-ends : Option String → Status
finish-ends none = done
finish-ends (some _) = failed

pub finish_lem :
    (exc : Option String) (now : ℕ) (op : NodeOp)
    → ((finish exc now op).id ≡ op.id) × ((finish exc now op).status ≡ finish-ends exc)
finish_lem none now op = (refl, refl)
finish_lem (some text) now op = (refl, refl)

finish-ends_begun : (exc : Option String) → has_begun (some (finish-ends exc)) ≡ true
finish-ends_begun none = refl
finish-ends_begun (some text) = refl

pub begun-some : (o : Option Status) → has_begun o ≡ true → (st : Status) × (o ≡ some st)
begun-some none h = absurd (cc h)
begun-some (some st) h = (st, refl)

-- A change that leaves a row begun leaves every row begun that was.
begun-write :
    (k op_id : String) (f : NodeOp → NodeOp) (rows : List NodeOp) (new : Status)
    → has_begun (some new) ≡ true
    → ((o : NodeOp) → ((f o).id ≡ o.id) × ((f o).status ≡ new))
    → has_begun (status_of k rows) ≡ true
    → has_begun (status_of k (write op_id f rows)) ≡ true
begun-write k op_id f rows new b h was = elim (Bool-cases (str_eq k op_id)) [
  | inl e ↦
      let same : k ≡ op_id = (eq_iff k op_id).0 e in
      let (st, there) = begun-some (status_of k rows) was in
      rw
        (ap (λ j. status_of k (write j f rows)) (sym same)
          ∙ status_of-write_self k f rows st new h there)
        b
  | inr e ↦ rw (status_of-write_other k op_id f rows (λ o. (h o).0) e) was
]

pub IsSound-quiet : (s : OpSystem) → ((k : ℕ) → s.phase k ≡ idle) → s.lock ≡ none → IsSound s
IsSound-quiet s quiet free = (
  λ k. ((λ w. absurd (cc (rw (quiet k) at w))), (λ l. absurd (cc (free, l)))),
  λ k op_id v. absurd (cc (rw (quiet k) at v)),
)

some-injective : {A : Type 0} {a b : A} → some a ≡ some b → a ≡ b
some-injective h = cc h

-- The table and the phases alone.
abbrev Shows : List NodeOp → (ℕ → Phase) → Type 0
Shows rows phase =
    (k : ℕ) (op_id : String)
    → operation (phase k) ≡ some op_id
    → has_begun (status_of op_id rows) ≡ true

-- The process `pid` moves on, and no other.
Shows-set_phase :
    (rows rows' : List NodeOp) (phase : ℕ → Phase) (pid : ℕ) (p : Phase)
    → Shows rows phase
    → ((j : String) → has_begun (status_of j rows) ≡ true → has_begun (status_of j rows') ≡ true)
    → ((j : String) → operation p ≡ some j → has_begun (status_of j rows') ≡ true)
    → Shows rows' (set_phase pid p phase)
Shows-set_phase rows rows' phase pid p x keep own k j = elim (Bool-cases (k == pid)) [
  | inl e ↦ rw e (own j)
  | inr e ↦ rw e (λ o. keep j (x k j o))
]

module _ (site : OpSite) (keeps : KeepsStatus site.commands) where
  Step-IsShown : {s t : OpSystem} → Step site s t → IsShown s → IsShown t
  Step-IsShown (begins s pid op_id op now h g) x =
      Shows-set_phase s.rows _ s.phase pid (started op_id) x
        (λ j.
          begun-write j op_id (start site.data_dir op_id now) s.rows running refl
            (λ o. (refl, refl)))
        (λ j e.
          let same : op_id ≡ j = some-injective e in
          rw (← same) (
            rw
              (status_of-write_self op_id (start site.data_dir op_id now) s.rows op.status running
                (λ o. (refl, refl)) (rw (status_of, g) refl))
              refl))
  Step-IsShown (locks s pid op_id h l) x =
      Shows-set_phase s.rows s.rows s.phase pid (working op_id) x (λ j b. b)
        (λ j e. x pid j (rw h e))
  Step-IsShown (refuses s pid op_id holder now h l) x =
      Shows-set_phase s.rows _ s.phase pid idle x
        (λ j. begun-write j op_id (refuse now) s.rows failed refl (λ o. (refl, refl)))
        (λ j e. absurd (cc e))
  Step-IsShown (executes s pid op_id h) x =
      let kept = λ (j : String).
        status_of-dispatch site.commands site.data_dir keeps op_id j (get op_id s.rows) s.rows in
      Shows-set_phase s.rows _ s.phase pid _ x (λ j b. rw (kept j) b)
        (λ j e. rw (kept j) (x pid j (rw h e)))
  Step-IsShown (concludes s pid op_id exc now h) x =
      Shows-set_phase s.rows _ s.phase pid idle x
        (λ j.
          begun-write j op_id (finish exc now) s.rows (finish-ends exc) (finish-ends_begun exc)
            (finish_lem exc now))
        (λ j e. absurd (cc e))
  Step-IsShown (dies s pid) x =
      Shows-set_phase s.rows s.rows s.phase pid idle x (λ j b. b) (λ j e. absurd (cc e))
  Step-IsShown (restarts s now) x = λ k j e. absurd (cc e)

  pub Step-IsSound : {s t : OpSystem} → Step site s t → IsSound s → IsSound t
  Step-IsSound st (x, y) = (Step-IsExclusive site st x, Step-IsShown st y)

  pub Reach-IsSound : {s t : OpSystem} → IsSound s → Reach site s t → IsSound t
  Reach-IsSound x here = x
  Reach-IsSound x (next r st) = Step-IsSound st (Reach-IsSound x r)

  -- From a state without processes and with the lock free, in which any operation may stand in the
  -- table: whatever the order of the steps, the deaths and the restarts, and however many processes
  -- run one operation, at most one process runs a command at a time, the one that holds the lock, and
  -- the row of the operation of every process that lives says that it is running, done or failed, and
  -- not that it is pending or interrupted; the commands are taken to leave the statuses alone.
  pub Reach-IsExclusive :
      {s t : OpSystem}
      → ((k : ℕ) → s.phase k ≡ idle)
      → s.lock ≡ none
      → Reach site s t
      → ((a b : ℕ) → is_working (t.phase a) ≡ true → is_working (t.phase b) ≡ true → a ≡ b)
        × IsExclusive t
        × IsShown t
  Reach-IsExclusive {s = s} quiet free r =
      let (x, y) = Reach-IsSound (IsSound-quiet s quiet free) r in
      ((λ a b va vb. some-injective (sym ((x a).0 va) ∙ (x b).0 vb)), x, y)
