-- ===== src/Control/Tasks/Drain.antt =====
-- Every queued task is handed out in the end (api/store.py, claim_tasks, pending_tasks_count).
use Prim.Native.Nat.{suc}
use shigure_edr.Base.{
  ℕ, ◌≤◌, ◌<◌, String, ◌≡◌, refl, subst, Bool, true, false, List, [], ◌∷◌, ◌++◌, map, length, arith,
  leb, eq_iff, Bool-cases, inl, inr, contains, take, ◌⊎◌, In, here, there,
}
use shigure_edr.Base.Int.{pos}
use shigure_edr.Base.Table.{select, rowcount, update, In-fetchone, select-In}
use shigure_edr.Base.Members.{In-contains-map, In-map, In-append_left, In-append_right}
use shigure_edr.Base.Keys.{IsKeyed, IsKeyed-In, fetchone-key}
use shigure_edr.Base.Sort.{ascending, sort_by-In}
use shigure_edr.Control.Schema.{Time, Task, Store}
use shigure_edr.Control.Tasks.{
  task_key, is_queued_for, with_task_id, claim, claimable, claim_each, claim_tasks,
}
use shigure_edr.Control.Tasks.Admin.{pending_tasks_count}
use shigure_edr.Control.Tasks.Queue.{In-claimable, fetchone-claim_each, claim_tasks-IsKeyed}

-- A polling agent: each of its requests has a clock and asks for one more task than the number.
abbrev pub handed_out : String → String → List (Time × ℕ) → Store → List Task
handed_out tenant_id agent_id [] s = []
handed_out tenant_id agent_id ((now, more) ∷ requests) s =
    let (tasks, s') = claim_tasks now tenant_id agent_id (pos (suc more)) s in
    tasks ++ handed_out tenant_id agent_id requests s'

module _ {ℓ} {R : Type ℓ} (q p : R → Bool) (f : R → R) (gone : (r : R) → q (f r) ≡ false) where
  rowcount-update-le : (rows : List R) → rowcount q (update p f rows) ≤ rowcount q rows
  unfolding rowcount update
  rowcount-update-le [] = omega arith
  rowcount-update-le (r ∷ rows) = ground (arith, rowcount-update-le rows, gone r)

  rowcount-update-lt :
      (rows : List R) (r : R)
      → In r rows
      → q r ≡ true
      → p r ≡ true
      → rowcount q (update p f rows) < rowcount q rows
  unfolding rowcount update
  rowcount-update-lt [] r m h t = elim m [ ]
  rowcount-update-lt (x ∷ rows) r here h t = ground (arith, rowcount-update-le rows, gone x)
  rowcount-update-lt (x ∷ rows) r (there m) h t =
      ground (arith, rowcount-update-lt rows r m h t, gone x)

In_first {ℓ} :
    {R : Type ℓ} (n : ℕ) (xs : List R) (r : R) → In r xs → (x : R) × In x (take (suc n) xs)
In_first n [] r m = elim m [ ]
In_first n (x ∷ xs) r m = (x, here)

module _ (tenant_id agent_id : String) where
  abbrev queued : Task → Bool
  queued = is_queued_for tenant_id agent_id

  claim_gone : (now : Time) (t : Task) → queued (claim now t) ≡ false
  claim_gone now t = ground (arith, eq_iff "claimed" "queued")

  -- The rows that are selected, one at least where one is queued.
  first_claimable :
      (n : ℕ) (tasks : List Task) (t : Task)
      → In t tasks
      → queued t ≡ true
      → (row : Task) × In row (claimable tenant_id agent_id (pos (suc n)) tasks)
  unfolding claimable
  first_claimable n tasks t m h =
      In_first n (ascending (λ (t : Task). t.created_at) (select queued tasks)) t (
        sort_by-In (λ x y. leb x.created_at y.created_at) (select queued tasks) t
          (select-In queued tasks t m h))

  rowcount-claim_each-le :
      (now : Time) (rows tasks : List Task)
      → rowcount queued (claim_each now rows tasks) ≤ rowcount queued tasks
  unfolding claim_each
  rowcount-claim_each-le now [] tasks = omega arith
  rowcount-claim_each-le now (row ∷ rows) tasks = omega (
    arith,
    rowcount-claim_each-le now rows (update (with_task_id row.task_id) (claim now) tasks),
    rowcount-update-le queued (with_task_id row.task_id) (claim now) (claim_gone now) tasks,
  )

  rowcount-claim_each-lt :
      (now : Time) (rows tasks : List Task) (row : Task)
      → In row rows
      → ((r : Task) → In r rows → In r tasks × (queued r ≡ true))
      → rowcount queued (claim_each now rows tasks) < rowcount queued tasks
  unfolding claim_each
  rowcount-claim_each-lt now [] tasks row m h = elim m [ ]
  rowcount-claim_each-lt now (first ∷ rows) tasks row m h =
      let (inside, test) = h first here in
      omega (
        arith,
        rowcount-claim_each-le now rows (update (with_task_id first.task_id) (claim now) tasks),
        rowcount-update-lt queued (with_task_id first.task_id) (claim now) (claim_gone now) tasks
            first inside test ((eq_iff first.task_id first.task_id).1 refl),
      )

  -- A request leaves fewer tasks in the queue, where there is one.
  pending-claim_tasks-lt :
      (now : Time) (n : ℕ) (s : Store) (t : Task)
      → In t s.tasks
      → queued t ≡ true
      → pending_tasks_count tenant_id agent_id
          (claim_tasks now tenant_id agent_id (pos (suc n)) s).1
        < pending_tasks_count tenant_id agent_id s
  unfolding claim_tasks pending_tasks_count
  pending-claim_tasks-lt now n s t m h =
      let (row, among) = first_claimable n s.tasks t m h in
      rowcount-claim_each-lt now (claimable tenant_id agent_id (pos (suc n)) s.tasks) s.tasks row
        among (In-claimable tenant_id agent_id (pos (suc n)) s.tasks)

  -- A queued task is handed out by a request, or is in the table as it was.
  claimed_or_kept :
      (now : Time) (n : ℕ) (s : Store) (t : Task)
      → IsKeyed task_key s.tasks
      → In t s.tasks
      → let (tasks, s') = claim_tasks now tenant_id agent_id (pos n) s in
        In (claim now t) tasks ⊎ In t s'.tasks
  unfolding claim_tasks
  claimed_or_kept now n s t u m =
      let rows = claimable tenant_id agent_id (pos n) s.tasks in
      elim (Bool-cases (contains (map task_key rows) t.task_id)) [
        | inl e ↦
            let (row, among, same) = In-contains-map task_key rows t.task_id e in
            let inside = (In-claimable tenant_id agent_id (pos n) s.tasks row among).0 in
            let is_t = IsKeyed-In task_key s.tasks t row u m inside same in
            inl (
              subst (λ x. In (claim now x) (map (claim now) rows)) is_t
                (In-map (claim now) rows row among))
        | inr e ↦ inr (
            In-fetchone (with_task_id t.task_id) (claim_each now rows s.tasks) (
              rw
                (
                  fetchone-claim_each now rows s.tasks t.task_id,
                  fetchone-key task_key s.tasks t t.task_id u m refl,
                  e,
                )
                refl))
      ]

  rowcount-pos :
      (tasks : List Task) (t : Task) → In t tasks → queued t ≡ true → 0 < rowcount queued tasks
  unfolding rowcount
  rowcount-pos [] t m h = elim m [ ]
  rowcount-pos (x ∷ tasks) t here h = ground (arith, h)
  rowcount-pos (x ∷ tasks) t (there m) h = ground (arith, rowcount-pos tasks t m h)

-- A task that is queued for an agent is handed out to it, at the instant of one of its requests,
-- once the agent has asked as many times as it has tasks in the queue; each request asks for one
-- task at least, and the identifiers of tasks are unique.
pub queued_is_handed_out :
    (tenant_id agent_id : String) (requests : List (Time × ℕ)) (s : Store) (t : Task)
    → IsKeyed task_key s.tasks
    → In t s.tasks
    → is_queued_for tenant_id agent_id t ≡ true
    → pending_tasks_count tenant_id agent_id s ≤ length requests
    → (now : Time) × In (claim now t) (handed_out tenant_id agent_id requests s)
unfolding pending_tasks_count
queued_is_handed_out tenant_id agent_id [] s t u m h enough =
    absurd (omega (arith, rowcount-pos tenant_id agent_id s.tasks t m h, enough))
queued_is_handed_out tenant_id agent_id ((now, n) ∷ requests) s t u m h enough =
    let (tasks, s') = claim_tasks now tenant_id agent_id (pos (suc n)) s in
    elim (claimed_or_kept tenant_id agent_id now (suc n) s t u m) [
      | inl out ↦
          (now, In-append_left tasks (handed_out tenant_id agent_id requests s') (claim now t) out)
      | inr kept ↦
          let (later, out) =
            queued_is_handed_out tenant_id agent_id requests s' t
              (claim_tasks-IsKeyed now tenant_id agent_id (pos (suc n)) s u) kept h
              (omega (arith, pending-claim_tasks-lt tenant_id agent_id now n s t m h, enough)) in
          (
            later,
            In-append_right tasks (handed_out tenant_id agent_id requests s') (claim later t) out,
          )
    ]
