-- ===== src/Control/Tasks/Rewrites.antt =====
-- How the operations of a tenant rewrite the rows of the task table (api/store.py).
use mathlib.Core.Path.{subst}
use shigure_edr.Base.{
  String, ◌≡◌, refl, sym, ap, ◌∙◌, ◌≢◌, Bool, true, false, some, List, [], ◌∷◌, arith, ◌==◌, eq_iff,
  if◌then◌else◌, In, here, there,
}
use shigure_edr.Base.Table.{
  select, fetchone, update, fetchone-update, In-update, select-update_of_In,
}
use shigure_edr.Base.Keys.{IsKeyed, IsKeyed-In, IsKeyed-update}
use shigure_edr.Control.Schema.{Time, Task}
use shigure_edr.Control.Tasks.{task_key, with_task_id, claim, claim_each}
use shigure_edr.Control.Tasks.Admin.{is_task_in, time_out, time_out_each}

-- The columns that no operation writes after the insert.
pub record KeepsTask (t u : Task) : Type 0 where
  pub id : u.task_id ≡ t.task_id
  pub tenant : u.tenant_id ≡ t.tenant_id
  pub agent : u.agent_id ≡ t.agent_id
  pub type : u.task_type ≡ t.task_type
  pub args : u.args ≡ t.args
  pub created : u.created_at ≡ t.created_at
  pub timeout : u.timeout_seconds ≡ t.timeout_seconds

-- A row of updates, each of which touches rows of one tenant only.
pub data Rewrites (tenant : String) (tasks : List Task) : List Task → Type 0 where
  done : Rewrites tenant tasks tasks
  then_update :
      {between : List Task} (p : Task → Bool) (f : Task → Task)
      → Rewrites tenant tasks between
      → ((t : Task) → KeepsTask t (f t))
      → ((t : Task) → In t between → p t ≡ true → t.tenant_id ≡ tenant)
      → Rewrites tenant tasks (update p f between)

pub KeepsTask-refl : (t : Task) → KeepsTask t t
KeepsTask-refl t = record {
  id = refl;
  tenant = refl;
  agent = refl;
  type = refl;
  args = refl;
  created = refl;
  timeout = refl;
}

KeepsTask-claim : (now : Time) (t : Task) → KeepsTask t (claim now t)
KeepsTask-claim now t = ground arith

KeepsTask-time_out : (now : Time) (t : Task) → KeepsTask t (time_out now t)
KeepsTask-time_out now t = ground arith

pub KeepsTask-trans : (t u v : Task) → KeepsTask t u → KeepsTask u v → KeepsTask t v
KeepsTask-trans t u v a b = record {
  id = b.id ∙ a.id;
  tenant = b.tenant ∙ a.tenant;
  agent = b.agent ∙ a.agent;
  type = b.type ∙ a.type;
  args = b.args ∙ a.args;
  created = b.created ∙ a.created;
  timeout = b.timeout ∙ a.timeout;
}

KeepsTask-if :
    (b : Bool) (f : Task → Task) (t : Task) → KeepsTask t (f t) → KeepsTask t (if b then f t else t)
KeepsTask-if true f t k = k
KeepsTask-if false f t k = KeepsTask-refl t

module _ (tenant : String) (tasks : List Task) where
  -- A row after the updates is a row from before them, but for its progress.
  Rewrites-origin :
      {after : List Task} (t : Task)
      → Rewrites tenant tasks after
      → In t after
      → (origin : Task) × In origin tasks × KeepsTask origin t
  Rewrites-origin t done m = (t, m, KeepsTask-refl t)
  Rewrites-origin t (then_update {between = between} p f r keeps own) m =
      let (x, n, e) = In-update p f between t m in
      let (origin, inside, k) = Rewrites-origin x r n in
      (
        origin,
        inside,
        KeepsTask-trans origin x t k
            (subst (KeepsTask x) (sym e) (KeepsTask-if (p x) f x (keeps x))),
      )

  -- A row from before the updates is there after them, but for its progress.
  pub Rewrites-fetchone :
      {after : List Task} (k : String) (t : Task)
      → Rewrites tenant tasks after
      → fetchone (with_task_id k) tasks ≡ some t
      → (u : Task) × (fetchone (with_task_id k) after ≡ some u) × KeepsTask t u
  Rewrites-fetchone k t done e = (t, e, KeepsTask-refl t)
  Rewrites-fetchone k t (then_update {between = between} p f r keeps own) e =
      let (u, found, kept) = Rewrites-fetchone k t r e in
      (
        if p u then f u else u,
        fetchone-update (with_task_id k) p f between (λ x. ground (arith, (keeps x).id)) ∙ rw found,
        KeepsTask-trans t u (if p u then f u else u) kept (KeepsTask-if (p u) f u (keeps u)),
      )

  pub Rewrites-IsKeyed :
      {after : List Task}
      → Rewrites tenant tasks after
      → IsKeyed task_key tasks
      → IsKeyed task_key after
  Rewrites-IsKeyed done u = u
  Rewrites-IsKeyed (then_update p f r keeps own) u =
      IsKeyed-update task_key p f _ (λ t. (keeps t).id) (Rewrites-IsKeyed r u)

  pub Rewrites-select :
      {after : List Task} (other : String)
      → Rewrites tenant tasks after
      → tenant ≢ other
      → select (λ (t : Task). t.tenant_id == other) after
        ≡ select (λ (t : Task). t.tenant_id == other) tasks
  Rewrites-select other done ne = refl
  Rewrites-select other (then_update {between = between} p f r keeps own) ne =
      select-update_of_In (λ (t : Task). t.tenant_id == other) p f between
        (λ t m e.
          let o = own t m e in
          (
            ground (arith, o, ne, eq_iff t.tenant_id other),
            ground (arith, o, ne, (keeps t).tenant, eq_iff (f t).tenant_id other),
          ))
      ∙ Rewrites-select other r ne

module _ (tenant : String) where
  pub claim_each-Rewrites :
      (now : Time) (tasks between rows : List Task)
      → Rewrites tenant tasks between
      → IsKeyed task_key tasks
      → ((row : Task) → In row rows → In row tasks × (row.tenant_id ≡ tenant))
      → Rewrites tenant tasks (claim_each now rows between)
  unfolding claim_each
  claim_each-Rewrites now tasks between [] r u own = r
  claim_each-Rewrites now tasks between (row ∷ rows) r u own =
      claim_each-Rewrites now tasks (update (with_task_id row.task_id) (claim now) between) rows
        (then_update (with_task_id row.task_id) (claim now) r (λ t. KeepsTask-claim now t)
          (λ t m e.
            let (origin, inside, k) = Rewrites-origin tenant tasks t r m in
            let (listed, at) = own row here in
            let one =
              IsKeyed-In task_key tasks row origin u listed inside
                (sym k.id ∙ (eq_iff t.task_id row.task_id).0 e) in
            k.tenant ∙ ap (λ (x : Task). x.tenant_id) one ∙ at))
        u (λ x m. own x (there m))

  pub time_out_each-Rewrites :
      (now : Time) (tasks between : List Task) (ids : List String)
      → Rewrites tenant tasks between
      → Rewrites tenant tasks (time_out_each now tenant ids between)
  unfolding time_out_each
  time_out_each-Rewrites now tasks between [] r = r
  time_out_each-Rewrites now tasks between (id ∷ ids) r =
      time_out_each-Rewrites now tasks (update (is_task_in tenant id) (time_out now) between) ids (
        then_update (is_task_in tenant id) (time_out now) r (λ t. KeepsTask-time_out now t)
          (λ t m e. ground (arith, e, eq_iff t.tenant_id tenant)))
