-- ===== src/Graph/Seen.antt =====
-- How many of some identifiers a walk has not seen (the sets `seen` and `descendant_seen` of
-- _build_process_graph in api/app.py).
use shigure_edr.Base.{
  ℕ, suc, String, ◌≡◌, ◌≤◌, ◌<◌, false, List, [], ◌∷◌, arith, contains, length, eq_iff,
  if◌then◌else◌, inl, inr, In, In-cons,
}

unfoldable pub unseen : List String → List String → ℕ
unseen seen [] = 0
unseen seen (id ∷ ids) = let n = unseen seen ids in if contains seen id then n else suc n

pub unseen-le-length : (seen ids : List String) → unseen seen ids ≤ length ids
unfolding unseen
unseen-le-length seen [] = omega arith
unseen-le-length seen (id ∷ ids) = ground (arith, unseen-le-length seen ids)

pub unseen-cons-le : (k : String) (seen ids : List String) → unseen (k ∷ seen) ids ≤ unseen seen ids
unfolding unseen
unseen-cons-le k seen [] = omega arith
unseen-cons-le k seen (id ∷ ids) = ground (arith, unseen-cons-le k seen ids)

-- What was not seen and is seen then counts.
pub unseen-cons-lt :
    (k : String) (seen ids : List String)
    → In k ids
    → contains seen k ≡ false
    → unseen (k ∷ seen) ids < unseen seen ids
unfolding unseen
unseen-cons-lt k seen [] m h = elim m [ ]
unseen-cons-lt k seen (id ∷ ids) m h = elim (In-cons m) [
  | inl e ↦ rw e (ground (arith, h, unseen-cons-le k seen ids, eq_iff k k))
  | inr later ↦ ground (arith, unseen-cons-lt k seen ids later h)
]
