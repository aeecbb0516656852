-- ===== src/Farming/Farm/Periods/Mints.antt =====
-- The harvest mints of a farm: `add_harvest` on the whole array.
use solana_amm.Base.{
  ◌≡◌, ◌≢◌, ◌⊎◌, inl, inr, refl, sym, List, [], ◌∷◌, Option, none, some, true, false, arith, length,
  find, any, All, replace_first, ok, err, ◌==◌, if◌then◌else◌, Bool-cases, Option-cases, Fault,
  ==_false, ==_refl, replicate, ok-injective, some-injective,
}
use solana_amm.BTree.{Pubkey}
use solana_amm.Farming.Err.{harvest_periods_len, Res, FarmingError}
use solana_amm.Farming.Farm.{Harvest, Farm, default_period}
use solana_amm.Farming.Farm.Periods.{add_harvest}

-- No initialized mint stands in two places.
abbrev pub Distinct : List Harvest → Type 0
Distinct [] = Unit
Distinct (h ∷ hs) = ((h.mint ≡ 0) ⊎ All (λ k. k.mint ≢ h.mint) hs) × Distinct hs

-- The first free place is taken.
fill : Harvest → List Harvest → List Harvest
fill fresh [] = []
fill fresh (h ∷ hs) = if h.mint == 0 then fresh ∷ hs else h ∷ fill fresh hs

replace_first-fill :
    (fresh : Harvest) (hs gs : List Harvest)
    → replace_first (λ h. h.mint == 0) (λ _. fresh) hs ≡ some gs
    → gs ≡ fill fresh hs
unfolding fill
replace_first-fill fresh [] gs e = cc
replace_first-fill fresh (h ∷ hs) gs e = elim (Bool-cases (h.mint == 0)) [
  | inl free ↦ rw free (sym (some-injective (rw free at e)))
  | inr used ↦ elim (Option-cases (replace_first (λ h. h.mint == 0) (λ _. fresh) hs)) [
    | inl full ↦ absurd (full_first (rw (used, full) at e))
    | inr (ks, k) ↦
        rw (used, ← replace_first-fill fresh hs ks k) (sym (some-injective (rw (used, k) at e)))
  ]
]
  where
    full_first : ◌≡◌ {A = Option (List Harvest)} none (some gs) → ⊥
    full_first h = cc

-- A free place is there.
abbrev HasFree : List Harvest → Type 0
HasFree [] = ⊥
HasFree (h ∷ hs) = (h.mint ≡ 0) ⊎ HasFree hs

replace_first-HasFree :
    (fresh : Harvest) (hs gs : List Harvest)
    → replace_first (λ h. h.mint == 0) (λ _. fresh) hs ≡ some gs
    → HasFree hs
replace_first-HasFree fresh [] gs e = cc
replace_first-HasFree fresh (h ∷ hs) gs e = elim (Bool-cases (h.mint == 0)) [
  | inl free ↦ inl (ground arith)
  | inr used ↦ elim (Option-cases (replace_first (λ h. h.mint == 0) (λ _. fresh) hs)) [
    | inl full ↦ absurd (full_first (rw (used, full) at e))
    | inr (ks, k) ↦ inr (replace_first-HasFree fresh hs ks k)
  ]
]
  where
    full_first : ◌≡◌ {A = Option (List Harvest)} none (some gs) → ⊥
    full_first h = cc

-- No harvest has the mint.
abbrev Absent : Pubkey → List Harvest → Type 0
Absent mint hs = All (λ h. h.mint ≢ mint) hs

any-Absent :
    (mint : Pubkey) (hs : List Harvest) → any (λ h. h.mint == mint) hs ≡ false → Absent mint hs
any-Absent mint [] e = tt
any-Absent mint (h ∷ hs) e = elim (Bool-cases (h.mint == mint)) [
  | inl same ↦ absurd (conflict (rw same at e))
  | inr other ↦ (ground arith, any-Absent mint hs (rw other at e))
]
  where
    conflict : true ≡ false → ⊥
    conflict h = cc

Absent-fill :
    (mint : Pubkey) (fresh : Harvest) (hs : List Harvest)
    → fresh.mint ≢ mint
    → Absent mint hs
    → Absent mint (fill fresh hs)
unfolding fill
Absent-fill mint fresh [] ne a = tt
Absent-fill mint fresh (h ∷ hs) ne a = elim (Bool-cases (h.mint == 0)) [
  | inl free ↦ rw free (ne, a.1)
  | inr used ↦ rw used (a.0, Absent-fill mint fresh hs ne a.1)
]

fill-Distinct :
    (fresh : Harvest) (hs : List Harvest)
    → Absent fresh.mint hs
    → Distinct hs
    → Distinct (fill fresh hs)
unfolding fill
fill-Distinct fresh [] a d = tt
fill-Distinct fresh (h ∷ hs) a d = elim (Bool-cases (h.mint == 0)) [
  | inl free ↦ rw free (inr a.1, d.1)
  | inr used ↦ rw used (
    elim d.0 [
      | inl zero_mint ↦ inl zero_mint
      | inr alone ↦ inr (Absent-fill h.mint fresh hs (λ e. a.0 (sym e)) alone)
    ],
    fill-Distinct fresh hs a.1 d.1,
  )
]

length-fill : (fresh : Harvest) (hs : List Harvest) → length (fill fresh hs) ≡ length hs
unfolding fill
length-fill fresh [] = refl
length-fill fresh (h ∷ hs) = ground (arith, length-fill fresh hs)

find-fill_self :
    (fresh : Harvest) (hs : List Harvest)
    → Absent fresh.mint hs
    → HasFree hs
    → find (λ h. h.mint == fresh.mint) (fill fresh hs) ≡ some fresh
unfolding fill
find-fill_self fresh [] a free = absurd free
find-fill_self fresh (h ∷ hs) a free = elim (Bool-cases (h.mint == 0)) [
  | inl z ↦ rw (z, ==_refl fresh.mint)
  | inr used ↦
      rw (used, ==_false _ _ a.0)
        (find-fill_self fresh hs a.1 (elim free [ inl z ↦ absurd (ground arith) | inr r ↦ r ]))
]

find-fill_ne :
    (j : Pubkey) (fresh : Harvest) (hs : List Harvest)
    → j ≢ 0
    → j ≢ fresh.mint
    → find (λ h. h.mint == j) (fill fresh hs) ≡ find (λ h. h.mint == j) hs
unfolding fill
find-fill_ne j fresh [] z ne = refl
find-fill_ne j fresh (h ∷ hs) z ne = elim (Bool-cases (h.mint == 0)) [
  | inl free ↦ rw (free, ==_false fresh.mint j (λ e. ne (sym e)), ==_false h.mint j (ground arith))
  | inr used ↦ rw (used, find-fill_ne j fresh hs z ne)
]

abbrev pub fresh_harvest : Pubkey → Pubkey → Harvest
fresh_harvest mint vault = record {
  mint = mint;
  vault = vault;
  periods = replicate harvest_periods_len default_period;
}

module _ (mint vault : Pubkey) (f : Farm) where
  Added : Farm → Type 0
  Added g =
      Absent mint f.harvests
      × HasFree f.harvests
      × (g ≡ record f { harvests = fill (fresh_harvest mint vault) f.harvests })

  -- Where the call succeeds the mint is new and a place was free.
  add_harvest-Added : (g : Farm) → add_harvest mint vault f ≡ ok g → Added g
  unfolding add_harvest Added
  add_harvest-Added g e = elim (Bool-cases (any (λ h. h.mint == mint) f.harvests)) [
    | inl known ↦ absurd (failed (rw known at e))
    | inr unknown ↦
        elim (Option-cases
          (replace_first (λ h. h.mint == 0) (λ _. fresh_harvest mint vault) f.harvests)) [
            | inl full ↦ absurd (failed (rw (unknown, full) at e))
            | inr (gs, taken) ↦ (
              any-Absent mint f.harvests unknown,
              replace_first-HasFree (fresh_harvest mint vault) f.harvests gs taken,
              rw (← replace_first-fill (fresh_harvest mint vault) f.harvests gs taken)
                  (sym (ok-injective (rw (unknown, taken) at e))),
            )
          ]
  ]
    where
      failed : {x : Fault FarmingError} → ◌≡◌ {A = Res Farm} (err x) (ok g) → ⊥
      failed h = cc

-- What a successful `add_harvest` does: the mints stay distinct in an array of the same length, the
-- new mint is found with unset periods, and every other initialized mint is found as before.
pub add_harvest_lem :
    (mint vault j : Pubkey) (f : Farm) {g : Farm}
    → Distinct f.harvests
    → j ≢ 0
    → j ≢ mint
    → add_harvest mint vault f ≡ ok g
    → Distinct g.harvests
      × (length g.harvests ≡ length f.harvests)
      × (find (λ h. h.mint == mint) g.harvests ≡ some (fresh_harvest mint vault))
      × (find (λ h. h.mint == j) g.harvests ≡ find (λ h. h.mint == j) f.harvests)
unfolding Added
add_harvest_lem mint vault j f {g} d z ne e =
    let fresh = fresh_harvest mint vault in
    let (absent, free, same) = add_harvest-Added mint vault f g e in
    rw same (
      fill-Distinct fresh f.harvests absent d,
      length-fill fresh f.harvests,
      find-fill_self fresh f.harvests absent free,
      find-fill_ne j fresh f.harvests z ne,
    )
