-- ===== src/Api/Health/Stale.antt =====
-- Which agents the health check marks, and for which it leaves an alert (api/app.py,
-- run_agent_health_detection).
use mathlib.Core.Option.{some-injective, some-ne-none}
use shigure_edr.Base.{
  is_text, or_default, ◌==◌, ◌↔◌, ℕ, String, ◌<>◌, ◌≡◌, ◌<◌, refl, sym, subst, ◌∙◌, ap, Bool, true,
  ◌||◌, ◌⊎◌, Option, none, some, List, [], ◌∷◌, arith, map, contains, eq_iff, if◌then◌else◌,
  Bool-cases, Option-cases, ltb, ◌&&◌, false, inl, inr, In, here, there,
}
use shigure_edr.Base.Table.{select, update, In-select, select-In}
use shigure_edr.Base.Members.{contains-map-In, In-contains-map, In-map}
use shigure_edr.Base.Keys.{IsKeyed, IsKeyed-In}
use shigure_edr.Events.{Time, Alert}
use shigure_edr.Evidence.{Codec, LocalObjectStore}
use shigure_edr.Control.Schema.{Agent, Store}
use shigure_edr.Control.Enrollment.{agent_key}
use shigure_edr.Control.Credentials.Heartbeats.{
  with_agent_id, is_stale, go_offline, offline_each, stale_agents, mark_agents_offline,
}
use shigure_edr.Control.Alerts.{alert_key, insert_alerts}
use shigure_edr.Control.Alerts.Batches.{store_raw_alerts-agents, insert_alerts-ids}
use shigure_edr.Api.Health.{last_seen_text, offline_alert, run_agent_health_detection}

-- One pass over the table in place of one update for each identifier.
abbrev marked : List String → Agent → Agent
marked ids a = if contains ids a.agent_id then go_offline a else a

marked-update :
    (id : String) (ids : List String) (agents : List Agent)
    → map (marked ids) (update (with_agent_id id) go_offline agents)
      ≡ map (marked (id ∷ ids)) agents
unfolding update
marked-update id ids [] = refl
marked-update id ids (a ∷ agents) =
    ground (arith, marked-update id ids agents, eq_iff id a.agent_id, eq_iff a.agent_id id)

unmarked : (agents : List Agent) → agents ≡ map (marked []) agents
unmarked [] = refl
unmarked (a ∷ agents) = ap (λ rest. a ∷ rest) (unmarked agents)

offline_each-map :
    (ids : List String) (agents : List Agent) → offline_each ids agents ≡ map (marked ids) agents
unfolding offline_each
offline_each-map [] agents = unmarked agents
offline_each-map (id ∷ ids) agents =
    offline_each-map ids (update (with_agent_id id) go_offline agents) ∙ marked-update id ids agents

or_true : (a : Bool) {b : Bool} → b ≡ true → (a || b) ≡ true
or_true a h = ground (arith, h)

map_congr_In {ℓ} :
    {R : Type ℓ} (f g : R → R) (rows : List R)
    → ((r : R) → In r rows → f r ≡ g r)
    → map f rows ≡ map g rows
map_congr_In f g [] h = refl
map_congr_In f g (x ∷ rows) h =
    let rest = map_congr_In f g rows (λ r m. h r (there m)) in
    let first = h x here in λ i. first i ∷ rest i

module _ (threshold : Time) (tenant_id : Option String) (agents : List Agent)
    (u : IsKeyed agent_key agents) where
  stale_ids : List String
  stale_ids = map (λ (a : Agent). a.agent_id) (select (is_stale threshold tenant_id) agents)

  stale_ids_lem :
      (a : Agent) → In a agents → contains stale_ids a.agent_id ≡ is_stale threshold tenant_id a
  unfolding stale_ids
  stale_ids_lem a m = elim (Bool-cases (is_stale threshold tenant_id a)) [
    | inl e ↦
        contains-map-In agent_key (select (is_stale threshold tenant_id) agents) a
          (select-In (is_stale threshold tenant_id) agents a m e)
        ∙ sym e
    | inr e ↦
        elim (Bool-cases
          (contains (map agent_key (select (is_stale threshold tenant_id) agents)) a.agent_id)) [
            | inr absent ↦ absent ∙ sym e
            | inl present ↦
                let (r, selected, same) =
                  In-contains-map agent_key (select (is_stale threshold tenant_id) agents)
                    a.agent_id present in
                let (found, stale) = In-select (is_stale threshold tenant_id) agents r selected in
                let is_a = IsKeyed-In agent_key agents a r u m found same in
                present ∙ sym (subst (λ x. is_stale threshold tenant_id x ≡ true) is_a stale)
          ]
  ]

-- An agent was last seen before the threshold, in the tenant that is asked for or with none asked.
pub record WasSilent (threshold : Time) (tenant_id : Option String) (a : Agent) (last : Time)
    : Type 0 where
  pub seen : a.last_seen ≡ some last
  pub before : last < threshold
  pub asked : (tenant_id ≡ none) ⊎ (tenant_id ≡ some "") ⊎ (tenant_id ≡ some a.tenant_id)

lt_test : (a b : ℕ) → a < b → ltb a b ≡ true
lt_test a b h = ground arith

test_lt : (a b : ℕ) → ltb a b ≡ true → a < b
test_lt a b h = ground arith

asked_iff :
    (o : Option String) (t : String)
    → ((if is_text o then t == or_default o "" else true) ≡ true)
      ↔ ((o ≡ none) ⊎ (o ≡ some "") ⊎ (o ≡ some t))
asked_iff none t = (λ h. inl refl, λ h. refl)
asked_iff (some x) t = (
  λ h. elim (Bool-cases (x == "")) [
    | inl e ↦ inr (inl (ap some ((eq_iff x "").0 e)))
    | inr e ↦ inr (inr (ap some (sym ((eq_iff t x).0 (rw e at h)))))
  ],
  λ h. elim h [
    | inl e ↦ absurd (some-ne-none x e)
    | inr (inl e) ↦ rw (some-injective x "" e) refl
    | inr (inr e) ↦ ground (arith, some-injective x t e, eq_iff t x)
  ],
)

silent-is_stale :
    (threshold : Time) (tenant_id : Option String) (a : Agent) (last : Time)
    → WasSilent threshold tenant_id a last
    → is_stale threshold tenant_id a ≡ true
silent-is_stale threshold tenant_id a last w =
    rw (w.seen, lt_test last threshold w.before) ((asked_iff tenant_id a.tenant_id).1 w.asked)

and_parts : (a b : Bool) → (a && b) ≡ true → (a ≡ true) × (b ≡ true)
and_parts true b h = (refl, h)
and_parts false b h = cc

is_stale-WasSilent :
    (threshold : Time) (tenant_id : Option String) (a : Agent)
    → is_stale threshold tenant_id a ≡ true
    → (last : Time) × WasSilent threshold tenant_id a last
is_stale-WasSilent threshold tenant_id a h = elim (Option-cases a.last_seen) [
  | inl e ↦ absurd (ground (arith, e, h))
  | inr (last, e) ↦
      let (before, asked) =
        and_parts (ltb last threshold)
          (if is_text tenant_id then a.tenant_id == or_default tenant_id "" else true)
          (rw e at h) in
      (
        last,
        record {
          seen = e;
          before = test_lt last threshold before;
          asked = (asked_iff tenant_id a.tenant_id).0 asked;
        },
      )
]

kept_ids :
    (p : Agent → Bool) (agents : List Agent)
    → map agent_key (map (λ a. if p a then go_offline a else a) agents) ≡ map agent_key agents
kept_ids p [] = refl
kept_ids p (a ∷ agents) = ground (arith, kept_ids p agents)

module _ (print_time : Time → String) (codec : Codec) (object_store : LocalObjectStore) where
  -- An agent's alert is among those of a list with the agent.
  alerted :
      (now : Time) (rows : List Agent) (a : Agent)
      → In a rows
      → contains
          (map (λ (x : Alert). x.alert_id) (map (offline_alert print_time now) rows))
          (offline_alert print_time now a).alert_id
        ≡ true
  alerted now rows a m =
      contains-map-In (λ (x : Alert). x.alert_id) (map (offline_alert print_time now) rows)
        (offline_alert print_time now a) (In-map (offline_alert print_time now) rows a m)

  health_detection-map :
      (now threshold : Time) (tenant_id : Option String) (s : Store)
      → IsKeyed agent_key s.agents
      → let s' =
          (run_agent_health_detection print_time codec object_store now threshold tenant_id s).1 in
        (s'.agents ≡ map (λ a. if is_stale threshold tenant_id a then go_offline a else a) s.agents)
        × ((a : Agent)
            → In a s.agents
            → is_stale threshold tenant_id a ≡ true
            → contains (map alert_key s'.alerts) (offline_alert print_time now a).alert_id ≡ true)
  unfolding run_agent_health_detection stale_ids insert_alerts stale_agents
  health_detection-map now threshold tenant_id s u =
      let stale = stale_agents threshold tenant_id s in
      let alerts = map (offline_alert print_time now) stale in
      let s1 = (mark_agents_offline (map (λ (a : Agent). a.agent_id) stale) s).1 in
      (
        store_raw_alerts-agents codec object_store now alerts s1
            ∙ offline_each-map (stale_ids threshold tenant_id s.agents u) s.agents
            ∙ map_congr_In (marked (stale_ids threshold tenant_id s.agents u)) _ s.agents (λ a m.
              ap (λ b. if b then go_offline a else a)
                (stale_ids_lem threshold tenant_id s.agents u a m)),
        λ a m e.
            insert_alerts-ids codec object_store now alerts s1
              (offline_alert print_time now a).alert_id
            ∙ or_true (contains (map alert_key s.alerts) (offline_alert print_time now a).alert_id)
                (alerted now stale a (select-In (is_stale threshold tenant_id) s.agents a m e)),
      )

  -- The health check marks as offline, and changes in nothing else, every agent that was last seen
  -- before the threshold, in the tenant that is asked for or in all, and for each of them an alert
  -- named after the agent and that time is there afterwards; every other agent is there as it was,
  -- and no agent is added or lost. The identifiers of agents are unique.
  pub health_detection_lem :
      (now threshold : Time) (tenant_id : Option String) (s : Store)
      → IsKeyed agent_key s.agents
      → let s' =
          (run_agent_health_detection print_time codec object_store now threshold tenant_id s).1 in
        (map agent_key s'.agents ≡ map agent_key s.agents)
        × ((a : Agent) (last : Time)
            → In a s.agents
            → WasSilent threshold tenant_id a last
            → In (record a { status = "offline" }) s'.agents
              × (contains
                    (map alert_key s'.alerts)
                    ("builtin.agent.offline:" <> (a.agent_id <> (":" <> print_time last)))
                  ≡ true))
        × ((a : Agent)
            → In a s.agents
            → ((last : Time) → ¬ WasSilent threshold tenant_id a last)
            → In a s'.agents)
  unfolding offline_alert
  health_detection_lem now threshold tenant_id s u =
      let mark = λ (a : Agent). if is_stale threshold tenant_id a then go_offline a else a in
      let s' =
        (run_agent_health_detection print_time codec object_store now threshold tenant_id s).1 in
      let (agents, alerts) = health_detection-map now threshold tenant_id s u in
      let marked_In = λ (a : Agent) (m : In a s.agents).
        subst (In (mark a)) (sym agents) (In-map mark s.agents a m) in
      (
        ap (map agent_key) agents ∙ kept_ids (is_stale threshold tenant_id) s.agents,
        λ a last m w.
            let e = silent-is_stale threshold tenant_id a last w in
            (
              subst (λ b. In (if b then go_offline a else a) s'.agents) e (marked_In a m),
              subst
                  (λ o.
                    contains (map alert_key s'.alerts) (
                      "builtin.agent.offline:"
                      <> (a.agent_id <> (":" <> last_seen_text print_time o)))
                    ≡ true)
                  w.seen (alerts a m e),
            ),
        λ a m not_silent. elim (Bool-cases (is_stale threshold tenant_id a)) [
          | inl e ↦
              let (last, w) = is_stale-WasSilent threshold tenant_id a e in
              absurd (not_silent last w)
          | inr e ↦ subst (λ b. In (if b then go_offline a else a) s'.agents) e (marked_In a m)
        ],
      )
