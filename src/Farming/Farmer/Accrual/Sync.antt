-- ===== src/Farming/Farmer/Accrual/Sync.antt =====
-- `sync_harvest_mints`: which harvests the farmer has afterwards.
use solana_amm.Base.{
  ◌≡◌, inl, inr, refl, subst, Option, none, some, [], ◌∷◌, arith, Bool, true, false, ◌==◌,
  if◌then◌else◌, Bool-cases,
}
use solana_amm.BTree.{Pubkey, BTreeMap, get, contains_key, insert}
use solana_amm.BTree.Laws.{get-insert}
use solana_amm.Farming.Farm.{TokenAmount, Harvest}
use solana_amm.Farming.Farmer.Accrual.{retain_known, insert_missing, sync_harvest_mints}

get-retain_known :
    (k : Pubkey) (known : BTreeMap Harvest) (m : BTreeMap TokenAmount)
    → get k (retain_known known m) ≡ (if contains_key k known then get k m else none)
unfolding retain_known
get-retain_known k known [] = ground arith
get-retain_known k known ((j, t) ∷ m) = ground (arith, get-retain_known k known m)

-- The amount where there is one, else zero.
abbrev pub or_zero : Option TokenAmount → Option TokenAmount
or_zero none = some 0
or_zero (some t) = some t

contains_key-first :
    (k j : Pubkey) (h : Harvest) (known : BTreeMap Harvest)
    → (j == k) ≡ true
    → contains_key k ((j, h) ∷ known) ≡ true
contains_key-first k j h known e = ground (arith, e)

contains_key-later :
    (k j : Pubkey) (h : Harvest) (known : BTreeMap Harvest)
    → (j == k) ≡ false
    → contains_key k ((j, h) ∷ known) ≡ contains_key k known
contains_key-later k j h known e = ground (arith, e)

get-insert_missing :
    (k : Pubkey) (known : BTreeMap Harvest) (m : BTreeMap TokenAmount)
    → get k (insert_missing known m) ≡ (if contains_key k known then or_zero (get k m) else get k m)
unfolding insert_missing
get-insert_missing k [] m = refl
get-insert_missing k ((j, h) ∷ known) m = elim (Bool-cases (j == k)) [
  | inl hit ↦
      let same : j ≡ k = ground (arith, hit) in
      elim (Bool-cases (contains_key j m)) [
        | inl there ↦
            rw (there, get-insert_missing k known m, contains_key-first k j h known hit)
              (present (get k m) (subst (λ i. contains_key i m ≡ true) same there)
                (contains_key k known))
        | inr missing ↦
            rw
              (
                missing,
                get-insert_missing k known (insert j 0 m),
                contains_key-first k j h known hit,
                get-insert k j 0 m,
                hit,
              )
              (absent (get k m) (subst (λ i. contains_key i m ≡ false) same missing)
                (contains_key k known))
      ]
  | inr other ↦ elim (Bool-cases (contains_key j m)) [
    | inl there ↦ rw (there, get-insert_missing k known m, contains_key-later k j h known other)
    | inr missing ↦ rw (
      missing,
      get-insert_missing k known (insert j 0 m),
      contains_key-later k j h known other,
      get-insert k j 0 m,
      other,
    )
  ]
]
  where
    present :
        (o : Option TokenAmount)
        → (elim o [ none ↦ false | some _ ↦ true ]) ≡ true
        → (b : Bool) → (if b then or_zero o else o) ≡ or_zero o
    present none e b = ground arith
    present (some t) e true = refl
    present (some t) e false = refl

    absent :
        (o : Option TokenAmount)
        → (elim o [ none ↦ false | some _ ↦ true ]) ≡ false
        → (b : Bool) → (if b then some 0 else some 0) ≡ or_zero o
    absent none e true = refl
    absent none e false = refl
    absent (some t) e b = ground arith

-- After `sync_harvest_mints` the farmer has exactly the mints of the farm: a mint that the farm
-- knows has the amount that it had, or zero where it is new, and any other mint is dropped.
pub sync_harvest_mints_lem :
    (k : Pubkey) (known : BTreeMap Harvest) (m : BTreeMap TokenAmount)
    → get k (sync_harvest_mints known m)
      ≡ (if contains_key k known then or_zero (get k m) else none)
unfolding sync_harvest_mints
sync_harvest_mints_lem k known m =
    rw (get-insert_missing k known (retain_known known m), get-retain_known k known m)
      (elim (Bool-cases (contains_key k known)) [ inl e ↦ rw e | inr e ↦ rw e ])
