-- ===== src/Farming/Farm/Periods/Order.antt =====
-- The order of the periods of a harvest, which `Farm::new_harvest_period` relies on.
use native.Mathlib.Decide.{dec_le}
use solana_amm.Base.{
  ℕ, zero, suc, ◌-◌, ◌≤◌, ◌<◌, ◌≡◌, ◌⊎◌, inl, inr, refl, List, [], ◌∷◌, Option, none, some, Bool,
  arith, length, drop, find, but_last, All, ok, leb, Option-cases, le→leb, replicate,
}
use solana_amm.Farming.Err.{harvest_periods_len}
use solana_amm.Farming.Farm.{Slot, HarvestPeriod, default_period}
use solana_amm.Farming.Farm.Periods.{new_period, last_period}

-- `p` is later than `q`, with no slot in common, or `q` was never set.
abbrev pub Later : HarvestPeriod → HarvestPeriod → Type 0
Later p q = (q.ends_at < p.starts_at) ⊎ (q.ends_at ≡ 0) × (q.starts_at ≡ 0)

-- From the latest to the oldest, without overlaps; no period ends before it starts.
abbrev pub Falls : List HarvestPeriod → Type 0
Falls [] = Unit
Falls (p ∷ ps) = All (Later p) ps × (p.starts_at ≤ p.ends_at) × Falls ps

abbrev pub Started : Slot → List HarvestPeriod → Type 0
Started slot ps = All (λ p. p.starts_at ≤ slot) ps

-- The invariant of `Harvest::periods` at a slot: the array has its full length, its periods are
-- sorted from the latest to the oldest and do not overlap, and only the first may lie ahead.
pub record IsOrdered (slot : Slot) (ps : List HarvestPeriod) : Type 0 where
  pub full : length ps ≡ harvest_periods_len
  pub falls : Falls ps
  pub only_first_ahead : Started slot (drop 1 ps)

All-but_last {κ} :
    (P : HarvestPeriod → Type κ) (ps : List HarvestPeriod) → All P ps → All P (but_last ps)
All-but_last P [] h = tt
All-but_last P (p ∷ []) h = tt
All-but_last P (p ∷ q ∷ ps) h = (h.0, All-but_last P (q ∷ ps) h.1)

Falls-but_last : (ps : List HarvestPeriod) → Falls ps → Falls (but_last ps)
Falls-but_last [] f = tt
Falls-but_last (p ∷ []) f = tt
Falls-but_last (p ∷ q ∷ ps) f =
    (All-but_last (Later p) (q ∷ ps) f.0, f.1, Falls-but_last (q ∷ ps) f.2)

length-but_last : (ps : List HarvestPeriod) → length (but_last ps) ≡ length ps - 1
length-but_last [] = refl
length-but_last (p ∷ []) = refl
length-but_last (p ∷ q ∷ ps) = omega (arith, length-but_last (q ∷ ps))

-- What is later than a period is later than all that are older than it.
Later-trans :
    (n p : HarvestPeriod) (ps : List HarvestPeriod)
    → p.ends_at < n.starts_at
    → p.starts_at ≤ p.ends_at
    → All (Later p) ps
    → All (Later n) ps
Later-trans n p [] h k a = tt
Later-trans n p (q ∷ ps) h k a = (ground (arith, a.0), Later-trans n p ps h k a.1)

-- What a successful call has checked.
module _ (lim : Bool) (oldest current : Slot) (n p : HarvestPeriod) (ps : List HarvestPeriod) where
  abbrev Done : List HarvestPeriod × Option HarvestPeriod → Type 0
  Done r =
      (n.starts_at < n.ends_at)
      × ((current < p.starts_at)
            × (r ≡ (n ∷ ps, some p))
            × ((l : HarvestPeriod) × (find (λ p. leb p.starts_at current) ps ≡ some l)
                × (l.ends_at < n.starts_at))
          ⊎ (p.starts_at ≤ current)
            × (r ≡ (n ∷ but_last (p ∷ ps), none))
            × (p.ends_at < n.starts_at))

  new_period-Done :
      {r : List HarvestPeriod × Option HarvestPeriod}
      → new_period lim oldest current n (p ∷ ps) ≡ ok r
      → Done r
  unfolding new_period last_period
  new_period-Done {r} h = elim (dec_le p.starts_at current) [
    | yes started ↦ ground arith
    | no ahead ↦ elim (Option-cases (find (λ p. leb p.starts_at current) ps)) [
      | inl none_started ↦ ground arith
      | inr (l, found) ↦ (ground arith, inl (omega arith, ground arith, (l, found, ground arith)))
    ]
  ]

-- Of several periods that all have started the first is found.
find-Started :
    (slot : Slot) (q : HarvestPeriod) (ps : List HarvestPeriod)
    → q.starts_at ≤ slot
    → find (λ p. leb p.starts_at slot) (q ∷ ps) ≡ some q
find-Started slot q ps h = rw (le→leb _ _ h)

-- A call that succeeds keeps the periods in order: the new period neither overlaps another nor
-- stands out of line, whether it is added or replaces a scheduled one.
pub new_period-IsOrdered :
    (lim : Bool) (oldest current : Slot) (n : HarvestPeriod) (ps : List HarvestPeriod)
    {qs : List HarvestPeriod} {previous : Option HarvestPeriod}
    → IsOrdered current ps
    → new_period lim oldest current n ps ≡ ok (qs, previous)
    → IsOrdered current qs
new_period-IsOrdered lim oldest current n [] o h = absurd (omega (arith, o.full))
new_period-IsOrdered lim oldest current n (p ∷ []) o h = absurd (omega (arith, o.full))
new_period-IsOrdered lim oldest current n (p ∷ q ∷ ps) {qs} o h =
    let (long, result) = new_period-Done lim oldest current n p (q ∷ ps) h in
    elim result [
      | inl (ahead, r, (l, found, after)) ↦
          let first = find-Started current q ps o.only_first_ahead.0 in
          let same : qs ≡ n ∷ q ∷ ps = cc in
          let behind : q.ends_at < n.starts_at = ground arith in
          rw same (record {
            full = o.full;
            falls = (
              (inl behind, Later-trans n q ps behind o.falls.2.1 o.falls.2.0),
              omega arith,
              o.falls.2,
            );
            only_first_ahead = o.only_first_ahead;
          })
      | inr (started, r, after) ↦
          let same : qs ≡ n ∷ but_last (p ∷ q ∷ ps) = cc in
          rw same (record {
            full = omega (arith, o.full, length-but_last (p ∷ q ∷ ps));
            falls = (
              All-but_last (Later n) (p ∷ q ∷ ps)
                  (inl after, Later-trans n p (q ∷ ps) after o.falls.1 o.falls.0),
              omega arith,
              Falls-but_last (p ∷ q ∷ ps) o.falls,
            );
            only_first_ahead =
                All-but_last (λ p. p.starts_at ≤ current) (p ∷ q ∷ ps)
                  (started, o.only_first_ahead);
          })
    ]

-- Periods that were never set.
pub All-Later-unset : (p : HarvestPeriod) (n : ℕ) → All (Later p) (replicate n default_period)
All-Later-unset p zero = tt
All-Later-unset p (suc n) = (inr (refl, refl), All-Later-unset p n)

pub Falls-unset : (n : ℕ) → Falls (replicate n default_period)
Falls-unset zero = tt
Falls-unset (suc n) = (All-Later-unset default_period n, omega arith, Falls-unset n)

pub Started-unset : (slot : Slot) (n : ℕ) → Started slot (replicate n default_period)
Started-unset slot zero = tt
Started-unset slot (suc n) = (omega arith, Started-unset slot n)

pub unset-IsOrdered : (slot : Slot) → IsOrdered slot (replicate harvest_periods_len default_period)
unset-IsOrdered slot = record {
  full = refl;
  falls = Falls-unset harvest_periods_len;
  only_first_ahead = Started-unset slot 9;
}
