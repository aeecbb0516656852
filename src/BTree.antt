-- ===== src/BTree.antt =====
-- The standard library's `BTreeMap` with public keys for keys, as far as the programs use it: an
-- association list that `insert` keeps in ascending order, which is the order of iteration.
-- A `Pubkey` is the number that its 32 bytes spell from the most significant on, so that the
-- order of keys is the order of numbers and `Pubkey::default()` is 0.
pub mod Laws
use Prim.Native.Nat.{compare, Ordering}
use solana_amm.Base.{
  ℕ, Bool, true, false, Option, none, some, List, [], ◌∷◌, ◌==◌, if◌then◌else◌, map,
}

abbrev pub Pubkey : Type 0
Pubkey = ℕ

abbrev pub BTreeMap {ℓ} : Type ℓ → Type ℓ
BTreeMap V = List (Pubkey × V)

module _ {ℓ} {V : Type ℓ} where
  abbrev pub get : Pubkey → BTreeMap V → Option V
  get k [] = none
  get k ((j, v) ∷ m) = if j == k then some v else get k m

  abbrev pub contains_key : Pubkey → BTreeMap V → Bool
  contains_key k m = elim (get k m) [ none ↦ false | some _ ↦ true ]

  abbrev pub insert : Pubkey → V → BTreeMap V → BTreeMap V
  insert k v [] = (k, v) ∷ []
  insert k v ((j, w) ∷ m) = elim (compare k j) [
    | Ordering.lt ↦ (k, v) ∷ (j, w) ∷ m
    | Ordering.eq ↦ (k, v) ∷ m
    | Ordering.gt ↦ (j, w) ∷ insert k v m
  ]

  -- `collect` of pairs: each is inserted in turn, so the last of two with one key stays.
  abbrev pub collect_onto : BTreeMap V → List (Pubkey × V) → BTreeMap V
  collect_onto m [] = m
  collect_onto m ((k, v) ∷ kvs) = collect_onto (insert k v m) kvs

  abbrev pub collect : List (Pubkey × V) → BTreeMap V
  collect kvs = collect_onto [] kvs

  abbrev pub values : BTreeMap V → List V
  values m = map (λ e. e.1) m
