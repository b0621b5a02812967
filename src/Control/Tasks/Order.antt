-- ===== src/Control/Tasks/Order.antt =====
-- The order in which tasks are handed out (api/store.py, claim_tasks).
use shigure_edr.Base.{◌≤◌, String, ◌≡◌, ap, Bool, true, List, arith, leb, inl, inr, ◌⊎◌, In}
use shigure_edr.Base.Int.{ℤ, pos, negsuc}
use shigure_edr.Base.Table.{select, select-In}
use shigure_edr.Base.Members.{In-map}
use shigure_edr.Base.Sort.{sort_by, limit, sort_by-In}
use shigure_edr.Base.Order.{sort_by-IsSorted, taken_or_after, ascending-IsOrder}
use shigure_edr.Control.Schema.{Time, Task, Store}
use shigure_edr.Control.Tasks.{is_queued_for, claim, claimable, claim_tasks}
use shigure_edr.Control.Tasks.Queue.{In-map-claim}

module _ (tenant_id agent_id : String) where
  -- A queued row is selected, or no older than those that are.
  selected_or_after :
      (max_tasks : ℤ) (tasks : List Task) (u : Task)
      → In u tasks
      → is_queued_for tenant_id agent_id u ≡ true
      → In u (claimable tenant_id agent_id max_tasks tasks)
        ⊎ ((row : Task)
            → In row (claimable tenant_id agent_id max_tasks tasks)
            → leb row.created_at u.created_at ≡ true)
  unfolding claimable
  selected_or_after max_tasks tasks u m h =
      let older : Task → Task → Bool = λ x y. leb x.created_at y.created_at in
      let rows = select (is_queued_for tenant_id agent_id) tasks in
      let inside =
        sort_by-In older rows u (select-In (is_queued_for tenant_id agent_id) tasks u m h) in
      elim max_tasks
        as (λ k.
          In u (limit k (sort_by older rows))
          ⊎ ((row : Task)
              → In row (limit k (sort_by older rows))
              → leb row.created_at u.created_at ≡ true)) [
                | pos n ↦
                    taken_or_after older n (sort_by older rows) u
                      (sort_by-IsSorted older (ascending-IsOrder (λ (t : Task). t.created_at)) rows)
                      inside
                | negsuc n ↦ inl inside
              ]

-- Tasks are handed out oldest first: a task that is queued for the agent goes out in the same answer
-- as another, or was not created before it.
pub oldest_first :
    (now : Time) (tenant_id agent_id : String) (max_tasks : ℤ) (s : Store) (t u : Task)
    → In t (claim_tasks now tenant_id agent_id max_tasks s).0
    → In u s.tasks
    → is_queued_for tenant_id agent_id u ≡ true
    → In (claim now u) (claim_tasks now tenant_id agent_id max_tasks s).0
      ⊎ (t.created_at ≤ u.created_at)
unfolding claim_tasks
oldest_first now tenant_id agent_id max_tasks s t u m inside h =
    let rows = claimable tenant_id agent_id max_tasks s.tasks in
    elim (selected_or_after tenant_id agent_id max_tasks s.tasks u inside h) [
      | inl among ↦ inl (In-map (claim now) rows u among)
      | inr after ↦
          let (row, n, e) = In-map-claim now rows t m in
          inr (ground (arith, after row n, ap (λ (x : Task). x.created_at) e))
    ]
