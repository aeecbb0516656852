-- ===== src/BTree/Laws.antt =====
-- Lookup after insertion, and the order of the keys.
use solana_amm.Base.{
  ◌<◌, ◌≡◌, ◌≢◌, inl, inr, refl, subst, ◌∙◌, Option, none, some, List, [], ◌∷◌, arith, All, ◌==◌,
  ==_false, Bool-cases, if◌then◌else◌,
}
use solana_amm.BTree.{Pubkey, BTreeMap, get, insert, collect_onto, collect}

module _ {ℓ} {V : Type ℓ} where
  pub get-insert :
      (j k : Pubkey) (v : V) (m : BTreeMap V)
      → get j (insert k v m) ≡ (if k == j then some v else get j m)
  get-insert j k v [] = refl
  get-insert j k v ((i, w) ∷ m) = ground (arith, get-insert j k v m)

  -- Every key of the map is greater than `k`.
  abbrev pub Above : Pubkey → BTreeMap V → Type 0
  Above k [] = Unit
  Above k ((j, _) ∷ m) = (k < j) × Above k m

  abbrev pub IsSorted : BTreeMap V → Type 0
  IsSorted [] = Unit
  IsSorted ((k, _) ∷ m) = Above k m × IsSorted m

  Above-insert :
      (i k : Pubkey) (v : V) (m : BTreeMap V) → i < k → Above i m → Above i (insert k v m)
  Above-insert i k v [] h a = (h, tt)
  Above-insert i k v ((j, w) ∷ m) h a = ground (arith, Above-insert i k v m h a.1)

  pub Above-trans : (i k : Pubkey) (m : BTreeMap V) → i < k → Above k m → Above i m
  Above-trans i k [] h a = tt
  Above-trans i k ((j, w) ∷ m) h a = (omega arith, Above-trans i k m h a.1)

  pub insert-IsSorted : (k : Pubkey) (v : V) (m : BTreeMap V) → IsSorted m → IsSorted (insert k v m)
  insert-IsSorted k v [] s = (tt, tt)
  insert-IsSorted k v ((j, w) ∷ m) s =
      ground (arith, insert-IsSorted k v m s.1, Above-insert j k v m, Above-trans k j m)

  pub collect_onto-IsSorted :
      (m : BTreeMap V) (kvs : List (Pubkey × V)) → IsSorted m → IsSorted (collect_onto m kvs)
  collect_onto-IsSorted m [] s = s
  collect_onto-IsSorted m ((k, v) ∷ kvs) s =
      collect_onto-IsSorted (insert k v m) kvs (insert-IsSorted k v m s)

  -- A key below all keys of a map is not in it.
  pub get-Above : (k : Pubkey) (m : BTreeMap V) → Above k m → get k m ≡ none
  get-Above k [] a = refl
  get-Above k ((j, w) ∷ m) a = ground (arith, get-Above k m a.1)

  -- No key stands twice in a list of pairs.
  abbrev pub HasKeysOnce : List (Pubkey × V) → Type 0
  HasKeysOnce [] = Unit
  HasKeysOnce ((k, _) ∷ kvs) = All (λ e. e.0 ≢ k) kvs × HasKeysOnce kvs

  pub first_of : Option V → Option V → Option V
  first_of none o = o
  first_of (some v) o = some v

  get-absent : (k : Pubkey) (kvs : List (Pubkey × V)) → All (λ e. e.0 ≢ k) kvs → get k kvs ≡ none
  get-absent k [] a = refl
  get-absent k ((j, w) ∷ kvs) a = rw (==_false j k a.0) (get-absent k kvs a.1)

  get-collect_pairs_onto :
      (k : Pubkey) (m : BTreeMap V) (kvs : List (Pubkey × V))
      → HasKeysOnce kvs
      → get k (collect_onto m kvs) ≡ first_of (get k kvs) (get k m)
  unfolding first_of
  get-collect_pairs_onto k m [] u = refl
  get-collect_pairs_onto k m ((j, w) ∷ kvs) u = elim (Bool-cases (j == k)) [
    | inl hit ↦ rw (
      get-collect_pairs_onto k (insert j w m) kvs u.1,
      get-insert k j w m,
      hit,
      get-absent k kvs (subst (λ i. All (λ e. e.0 ≢ i) kvs) (ground (arith, hit)) u.0),
    )
    | inr miss ↦ rw (get-collect_pairs_onto k (insert j w m) kvs u.1, get-insert k j w m, miss)
  ]

  first_of-none : (o : Option V) → first_of o none ≡ o
  unfolding first_of
  first_of-none none = refl
  first_of-none (some v) = refl

  -- Collecting pairs whose keys differ keeps every lookup.
  pub get-collect_pairs :
      (k : Pubkey) (kvs : List (Pubkey × V)) → HasKeysOnce kvs → get k (collect kvs) ≡ get k kvs
  get-collect_pairs k kvs u = get-collect_pairs_onto k [] kvs u ∙ first_of-none (get k kvs)
