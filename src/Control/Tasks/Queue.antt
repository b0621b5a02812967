-- ===== src/Control/Tasks/Queue.antt =====
-- What `claim_tasks` hands out, and that it hands out nothing twice (api/store.py).
use mathlib.Core.Option
use mathlib.Core.Option.{some-injective}
use shigure_edr.Base.{
  ℕ, ◌≤◌, String, ◌≡◌, refl, sym, ap, ◌∙◌, ◌≢◌, Bool, true, some, List, [], ◌∷◌, map, length, arith,
  leb, ◌==◌, eq_iff, if◌then◌else◌, Option-cases, inl, inr, contains, In, here, there, In-cons,
  length-map,
}
use shigure_edr.Base.Int.{ℤ, pos}
use shigure_edr.Base.Table.{select, fetchone, update, fetchone-update, fetchone_test, In-select}
use shigure_edr.Base.Members.{contains-map-In}
use shigure_edr.Base.Keys.{IsKeyed, IsKeyed-update, fetchone-key}
use shigure_edr.Base.Sort.{ascending, In-limit, In-sort_by, length-limit-le}
use shigure_edr.Control.Schema.{Time, Task, Store}
use shigure_edr.Control.Tasks.{
  task_key, is_queued_for, with_task_id, claim, claimable, claim_each, claim_tasks,
}

-- A row that `claim_tasks` selects is in the table, queued for the agent.
pub In-claimable :
    (tenant_id agent_id : String) (max_tasks : ℤ) (tasks : List Task) (t : Task)
    → In t (claimable tenant_id agent_id max_tasks tasks)
    → In t tasks × (is_queued_for tenant_id agent_id t ≡ true)
unfolding claimable
In-claimable tenant_id agent_id max_tasks tasks t m =
    In-select (is_queued_for tenant_id agent_id) tasks t (
      In-sort_by (λ x y. leb x.created_at y.created_at)
        (select (is_queued_for tenant_id agent_id) tasks) t (In-limit max_tasks _ t m))

module _ (now : Time) where
  abbrev claim_if : Bool → Task → Task
  claim_if b t = if b then claim now t else t

  claim_if_step :
      (row : Task) (rows : List Task) (k : String) (t : Task)
      → (t.task_id == k) ≡ true
      → some (
          claim_if
            (contains (map task_key rows) k)
            (if with_task_id row.task_id t then claim now t else t))
        ≡ some (claim_if (contains (map task_key (row ∷ rows)) k) t)
  claim_if_step row rows k t h =
      ground (arith, eq_iff t.task_id k, eq_iff t.task_id row.task_id, eq_iff row.task_id k)

  -- After the loop a task is as before, or claimed if a row with its identifier was among them.
  pub fetchone-claim_each :
      (rows tasks : List Task) (k : String)
      → fetchone (with_task_id k) (claim_each now rows tasks)
        ≡ Option.map (claim_if (contains (map task_key rows) k)) (fetchone (with_task_id k) tasks)
  unfolding claim_each
  fetchone-claim_each [] tasks k = elim (Option-cases (fetchone (with_task_id k) tasks)) [
    | inl e ↦ rw e
    | inr (t, e) ↦ rw e
  ]
  fetchone-claim_each (row ∷ rows) tasks k =
      fetchone-claim_each rows (update (with_task_id row.task_id) (claim now) tasks) k
      ∙ rw
          (fetchone-update (with_task_id k) (with_task_id row.task_id) (claim now) tasks
            (λ t. refl))
          (elim (Option-cases (fetchone (with_task_id k) tasks)) [
            | inl e ↦ rw e
            | inr (t, e) ↦
                rw e (claim_if_step row rows k t (fetchone_test (with_task_id k) tasks t e))
          ])

  -- The loop keeps the identifiers, so they stay unique.
  claim_each-IsKeyed :
      (rows tasks : List Task)
      → IsKeyed task_key tasks
      → IsKeyed task_key (claim_each now rows tasks)
  unfolding claim_each
  claim_each-IsKeyed [] tasks u = u
  claim_each-IsKeyed (row ∷ rows) tasks u =
      claim_each-IsKeyed rows (update (with_task_id row.task_id) (claim now) tasks)
        (IsKeyed-update task_key (with_task_id row.task_id) (claim now) tasks (λ t. refl) u)

  pub In-map-claim :
      (rows : List Task) (t : Task)
      → In t (map (claim now) rows)
      → (row : Task) × In row rows × (t ≡ claim now row)
  In-map-claim [] t m = elim m [ ]
  In-map-claim (row ∷ rows) t m = elim (In-cons m) [
    | inl same ↦ (row, here, sym same)
    | inr later ↦ let (r, n, e) = In-map-claim rows t later in (r, there n, e)
  ]

module _ (now : Time) (tenant_id agent_id : String) (max_tasks : ℤ) (s : Store) where
  -- Every task that is handed out was queued for that agent of that tenant, and is claimed now.
  pub claimed_was_queued :
      (t : Task)
      → In t (claim_tasks now tenant_id agent_id max_tasks s).0
      → (row : Task) × In row s.tasks
        × (row.tenant_id ≡ tenant_id)
        × (row.agent_id ≡ agent_id)
        × (row.status ≡ "queued")
        × (t ≡ claim now row)
  unfolding claim_tasks
  claimed_was_queued t m =
      let (row, n, e) = In-map-claim now (claimable tenant_id agent_id max_tasks s.tasks) t m in
      let (inside, test) = In-claimable tenant_id agent_id max_tasks s.tasks row n in
      (
        row,
        inside,
        ground (arith, test, eq_iff row.tenant_id tenant_id),
        ground (arith, test, eq_iff row.agent_id agent_id),
        ground (arith, test, eq_iff row.status "queued"),
        e,
      )

  -- What is handed out is what the store holds afterwards under the identifier of the task, where
  -- the identifiers of tasks are unique.
  pub claimed_is_stored :
      (t : Task)
      → IsKeyed task_key s.tasks
      → In t (claim_tasks now tenant_id agent_id max_tasks s).0
      → fetchone (with_task_id t.task_id) (claim_tasks now tenant_id agent_id max_tasks s).1.tasks
        ≡ some t
  unfolding claim_tasks
  claimed_is_stored t u m =
      let rows = claimable tenant_id agent_id max_tasks s.tasks in
      let (row, n, e) = In-map-claim now rows t m in
      let inside = (In-claimable tenant_id agent_id max_tasks s.tasks row n).0 in
      rw e (
        rw (
          fetchone-claim_each now rows s.tasks row.task_id,
          fetchone-key task_key s.tasks row row.task_id u inside refl,
          contains-map-In task_key rows row n,
        ))

  pub claim_tasks-IsKeyed :
      IsKeyed task_key s.tasks
      → IsKeyed task_key (claim_tasks now tenant_id agent_id max_tasks s).1.tasks
  unfolding claim_tasks
  claim_tasks-IsKeyed u =
      claim_each-IsKeyed now (claimable tenant_id agent_id max_tasks s.tasks) s.tasks u

queued_ne_claimed : ◌≢◌ {A = String} "queued" "claimed"
queued_ne_claimed = ground (arith, eq_iff "queued" "claimed")

-- A limit that is not negative bounds what is handed out.
pub length-claim_tasks-le :
    (now : Time) (tenant_id agent_id : String) (n : ℕ) (s : Store)
    → length (claim_tasks now tenant_id agent_id (pos n) s).0 ≤ n
unfolding claim_tasks claimable
length-claim_tasks-le now tenant_id agent_id n s = rw length-map (
    length-limit-le n
      (ascending (λ (t : Task). t.created_at) (select (is_queued_for tenant_id agent_id) s.tasks)))

-- Two claims in a row, by any agents, hand out no task twice, where the identifiers of tasks are
-- unique.
pub claim_twice_disjoint :
    (now later : Time) (tenant_id agent_id tenant_id' agent_id' : String) (max_tasks max_tasks' : ℤ)
    (s : Store) (t u : Task)
    → IsKeyed task_key s.tasks
    → let (first, s') = claim_tasks now tenant_id agent_id max_tasks s in
      In t first
      → In u (claim_tasks later tenant_id' agent_id' max_tasks' s').0
      → t.task_id ≢ u.task_id
claim_twice_disjoint now later tenant_id agent_id tenant_id' agent_id' max_tasks max_tasks' s t u
      keyed m n same =
    let s' = (claim_tasks now tenant_id agent_id max_tasks s).1 in
    let (row, inside, _, _, queued, e) =
      claimed_was_queued later tenant_id' agent_id' max_tasks' s' u n in
    let (row', _, _, _, _, e') = claimed_was_queued now tenant_id agent_id max_tasks s t m in
    let held = claimed_is_stored now tenant_id agent_id max_tasks s t keyed m in
    let keyed' = claim_tasks-IsKeyed now tenant_id agent_id max_tasks s keyed in
    let found = fetchone-key task_key s'.tasks row row.task_id keyed' inside refl in
    let id = same ∙ ap task_key e in
    let one = some-injective row t (sym found ∙ rw (← id) held) in
    queued_ne_claimed
      (sym queued ∙ ap (λ (x : Task). x.status) one ∙ ap (λ (x : Task). x.status) e')
