-- ===== src/Providers/Newest.antt =====
-- The composite provider gives the newest events of all its providers (core/provider.py).
use shigure_edr.Base.{
  ℕ, zero, suc, ◌+◌, ◌-◌, length, length-append, ap, ◌∙◌, refl, ◌≤◌, ◌≡◌, Bool, List, [], ◌∷◌,
  arith, leb, inl, inr, ◌⊎◌, In, here, there, take, sym, subst,
}
use shigure_edr.Base.Int.{ℤ, pos, negsuc}
use shigure_edr.Base.Members.{In-append, In-append_left, In-append_right}
use shigure_edr.Base.Sort.{sort_by, length-sort_by, sort_by-In, In-sort_by, In-take, IsSorted}
use shigure_edr.Base.Order.{sort_by-IsSorted, take-IsSorted, taken_or_after, descending-IsOrder}
use shigure_edr.Events.{NormalizedEvent}
use shigure_edr.Investigation.Contexts.{clipped, drop_last}
use shigure_edr.Providers.{EventQuery, EndpointProvider, event_time}
use shigure_edr.Providers.Composite.{gather, limit_or_500, query_events}

module _ {ℓ} {A : Type ℓ} (f : EndpointProvider → List A) where
  In-gather :
      (providers : List EndpointProvider) (p : EndpointProvider) (a : A)
      → In p providers
      → In a (f p)
      → In a (gather f providers)
  unfolding gather
  In-gather [] p a m n = elim m [ ]
  In-gather (p ∷ providers) p' a here n = In-append_left (f p) (gather f providers) a n
  In-gather (p ∷ providers) p' a (there m) n =
      In-append_right (f p) (gather f providers) a (In-gather providers p' a m n)

  gather-In :
      (providers : List EndpointProvider) (a : A)
      → In a (gather f providers)
      → (p : EndpointProvider) × In p providers × In a (f p)
  unfolding gather
  gather-In [] a m = elim m [ ]
  gather-In (p ∷ providers) a m = elim (In-append (f p) (gather f providers) a m) [
    | inl first ↦ (p, here, first)
    | inr later ↦ let (q, n, k) = gather-In providers a later in (q, there n, k)
  ]

newer : NormalizedEvent → NormalizedEvent → Bool
newer x y = leb y.timestamp x.timestamp

-- The number of events that are asked for: 500 where the limit is 0.
abbrev pub wanted : ℕ → ℕ
wanted zero = 500
wanted (suc n) = suc n

-- The number of events that the providers answer with.
abbrev pub total : EventQuery → List EndpointProvider → ℕ
total q [] = 0
total q (p ∷ providers) = length (p.query_events q) + total q providers

-- What an answer to a query is to the answers of the providers.
pub record IsNewest (providers : List EndpointProvider) (q : EventQuery)
    (found : List NormalizedEvent) : Type 0 where
  pub ordered : IsSorted (λ (x y : NormalizedEvent). leb y.timestamp x.timestamp) found
  pub given :
      (e : NormalizedEvent)
      → In e found
      → (p : EndpointProvider) × In p providers × In e (p.query_events q)
  pub newest_given :
      (p : EndpointProvider) (e : NormalizedEvent)
      → In p providers
      → In e (p.query_events q)
      → In e found ⊎ ((x : NormalizedEvent) → In x found → e.timestamp ≤ x.timestamp)

-- As many as are wanted, or all where there are no more.
abbrev pub HoldsUpTo : ℕ → ℕ → List NormalizedEvent → Type 0
HoldsUpTo most all found =
    ((most ≤ all) × (length found ≡ most)) ⊎ ((all ≤ most) × (length found ≡ all))

length-gather :
    (q : EventQuery) (providers : List EndpointProvider)
    → length (gather (λ p. p.query_events q) providers) ≡ total q providers
unfolding gather
length-gather q [] = refl
length-gather q (p ∷ providers) = ground (
  arith,
  length-append (p.query_events q) (gather (λ p. p.query_events q) providers),
  length-gather q providers,
)

length_taken : (n : ℕ) (xs : List NormalizedEvent) → HoldsUpTo n (length xs) (take n xs)
length_taken zero xs = inl (ground arith, refl)
length_taken (suc n) [] = inr (ground arith, refl)
length_taken (suc n) (x ∷ xs) = elim (length_taken n xs) [
  | inl (most, held) ↦ inl (ground (arith, most), ap suc held)
  | inr (all, held) ↦ inr (ground (arith, all), ap suc held)
]

all_wanted :
    (n : ℤ) (k : ℕ) (xs : List NormalizedEvent)
    → n ≡ pos k
    → clipped (limit_or_500 n) xs ≡ take (wanted k) xs
all_wanted n zero xs h = rw h refl
all_wanted n (suc k) xs h = rw h (ground arith)

-- How many events the answer holds.
held_lem :
    (providers : List EndpointProvider) (q : EventQuery) (n : ℕ)
    → q.at_most ≡ pos n
    → HoldsUpTo (wanted n) (total q providers) (query_events providers q)
unfolding query_events newer
held_lem providers q n h =
    let events = gather (λ p. p.query_events q) providers in
    let sorted = sort_by newer events in
    subst (HoldsUpTo (wanted n) (total q providers)) (sym (all_wanted q.at_most n sorted h)) (
      subst (λ m. HoldsUpTo (wanted n) m (take (wanted n) sorted))
        (length-sort_by newer events ∙ length-gather q providers) (length_taken (wanted n) sorted))

taken :
    (providers : List EndpointProvider) (q : EventQuery) (n : ℕ)
    → IsNewest providers q (take n (sort_by newer (gather (λ p. p.query_events q) providers)))
unfolding newer
taken providers q n =
    let events = gather (λ p. p.query_events q) providers in
    let sorted = sort_by-IsSorted newer (descending-IsOrder event_time) events in
    record {
      ordered = take-IsSorted newer n (sort_by newer events) sorted;
      given = λ e m.
          gather-In (λ p. p.query_events q) providers e
            (In-sort_by newer events e (In-take n (sort_by newer events) e m));
      newest_given = λ p e m k.
          let inside = In-gather (λ p. p.query_events q) providers p e m k in
          elim (taken_or_after newer n (sort_by newer events) e sorted
            (sort_by-In newer events e inside)) [
              | inl among ↦ inl among
              | inr after ↦ inr (λ x j. ground (arith, after x j))
            ];
    }

-- A clipped list is one of the first elements, also where the limit is negative.
clipped-take {ℓ} : {A : Type ℓ} (n : ℤ) (xs : List A) → (k : ℕ) × (clipped n xs ≡ take k xs)
unfolding drop_last
clipped-take (pos n) xs = (n, refl)
clipped-take (negsuc n) xs = (length xs - suc n, refl)

-- The composite answers a query with events of its providers, the newest first; an event of a
-- provider is among them, or is no newer than any of them, whatever the limit is. Where the limit is
-- not negative the answer holds as many events as the limit says, 500 for 0, or all of them where
-- there are no more.
pub query_events_lem :
    (providers : List EndpointProvider) (q : EventQuery)
    → IsNewest providers q (query_events providers q)
      × ((n : ℕ)
          → q.at_most ≡ pos n
          → HoldsUpTo (wanted n) (total q providers) (query_events providers q))
unfolding query_events newer
query_events_lem providers q =
    let (n, e) =
      clipped-take (limit_or_500 q.at_most)
        (sort_by newer (gather (λ p. p.query_events q) providers)) in
    (subst (IsNewest providers q) (sym e) (taken providers q n), held_lem providers q)
