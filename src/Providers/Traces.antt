-- ===== src/Providers/Traces.antt =====
-- The trace of a process ends (adapters/local_json.py, trace_process_chain).
use mathlib.Core.Option
use mathlib.Core.List.{reverse}
use shigure_edr.Base.{
  suc, ◌≡◌, ◌<◌, refl, ap, Option, none, some, List, [], ◌∷◌, arith, length, length-map, or_default,
  String,
}
use shigure_edr.Events.{NormalizedEvent}
use shigure_edr.Graph.Seen.{unseen, unseen-le-length}
use shigure_edr.Investigation.Chain.{pid_of}
use shigure_edr.Investigation.Chain.Ends.{keys, index, follow_lem}
use shigure_edr.Providers.Local.{traced}

enough :
    (seen : List String) (events : List NormalizedEvent)
    → unseen seen (keys pid_of events) < suc (length events)
enough seen events = omega (
  arith,
  unseen-le-length seen (keys pid_of events),
  length-map (λ (e : NormalizedEvent). or_default (pid_of e) "") events,
)

-- The fuel of the trace is enough, also where parents form a cycle.
pub traced-ends :
    (found : List NormalizedEvent) (start : Option NormalizedEvent)
    → (chain : List NormalizedEvent) × (traced found start ≡ some chain)
unfolding index
traced-ends found none = ([], refl)
traced-ends found (some e) =
    let seen = or_default e.process_id "" ∷ [] in
    let (ancestors, ended, _, _) =
      follow_lem pid_of (λ x. x.parent_process_id) found (suc (length found)) seen
        e.parent_process_id (enough seen found) in
    (_, ap (Option.map (λ rest. reverse (e ∷ rest))) ended)
