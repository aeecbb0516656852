-- ===== src/Amm/Endpoints/Backing/Mints.antt =====
-- The remaining accounts of a deposit or a redemption: as many mints as pairs, so no mint twice.
use solana_amm.Base.{
  ℕ, ◌+◌, ◌*◌, ◌≤◌, ◌<◌, ◌≡◌, ◌≢◌, inl, inr, refl, sym, ap, subst, ◌∙◌, some, none, List, [], ◌∷◌,
  map, arith, All, length, ok, Option-cases, >>=-eq-ok, ok-injective,
}
use solana_amm.BTree.{Pubkey, BTreeMap, get, insert, collect_onto, collect}
use solana_amm.BTree.Laws.{IsSorted, insert-IsSorted, get-insert, get-Above, Above-trans}
use solana_amm.Amm.Endpoints.Liquidity.{Loaded, chunks, count_mints}

abbrev pub Pair : Type 0
Pair = Loaded × Loaded

abbrev mint_entry : Pubkey → Pubkey × Pubkey
mint_entry k = (k, k)

-- The entries of both accounts of each pair.
abbrev pub twice : List Pubkey → List (Pubkey × Pubkey)
twice [] = []
twice (k ∷ ks) = mint_entry k ∷ mint_entry k ∷ twice ks

abbrev pub NoneTwice : List Pubkey → Type 0
NoneTwice [] = Unit
NoneTwice (k ∷ ks) = All (λ j. j ≢ k) ks × NoneTwice ks

length-insert_le : (k v : Pubkey) (m : BTreeMap Pubkey) → length (insert k v m) ≤ length m + 1
length-insert_le k v [] = omega arith
length-insert_le k v ((j, w) ∷ m) = ground (arith, length-insert_le k v m)

length-insert_same :
    (k v w : Pubkey) (m : BTreeMap Pubkey)
    → IsSorted m
    → get k m ≡ some w
    → length (insert k v m) ≡ length m
length-insert_same k v w [] s h = cc
length-insert_same k v w ((j, u) ∷ m) s h =
    ground (arith, length-insert_same k v w m s.1, get-Above k m, Above-trans k j m, s.0)

found : (k : Pubkey) (m : BTreeMap Pubkey) → get k (insert k k m) ≡ some k
found k m = get-insert k k k m ∙ ground arith

collect_onto-length :
    (ks : List Pubkey) (m : BTreeMap Pubkey)
    → IsSorted m
    → length (collect_onto m (twice ks)) ≤ length m + length ks
collect_onto-length [] m s = omega arith
collect_onto-length (k ∷ ks) m s =
    let once = insert k k m in
    let sorted : IsSorted once = insert-IsSorted k k m s in
    let same : length (insert k k once) ≡ length once =
      length-insert_same k k k once sorted (found k m) in
    omega (
      arith,
      length-insert_le k k m,
      same,
      collect_onto-length ks (insert k k once) (insert-IsSorted k k once sorted),
    )

none≢some : {A : Type 0} {a : A} → none ≡ some a → ⊥
none≢some h = cc

-- What is not in a map after an insertion is another key, and was not in it before.
not_inserted :
    (j k : Pubkey) (m : BTreeMap Pubkey) → get j (insert k k m) ≡ none → (j ≢ k) × (get j m ≡ none)
not_inserted j k m h = ground (arith, get-insert j k k m)

All-map :
    {P Q : Pubkey → Type 0} → ((k : Pubkey) → P k → Q k) → (ks : List Pubkey) → All P ks → All Q ks
All-map f [] a = tt
All-map f (k ∷ ks) (p, a) = (f k p, All-map f ks a)

-- A map that grows by one for each key had none of them, and no key stands twice.
grown-NoneTwice :
    (ks : List Pubkey) (m : BTreeMap Pubkey)
    → IsSorted m
    → length m + length ks ≤ length (collect_onto m (twice ks))
    → NoneTwice ks × All (λ k. get k m ≡ none) ks
grown-NoneTwice [] m s h = (tt, tt)
grown-NoneTwice (k ∷ ks) m s h =
    let once = insert k k m in
    let sorted : IsSorted once = insert-IsSorted k k m s in
    let back : get k once ≡ some k = found k m in
    let same : length (insert k k once) ≡ length once = length-insert_same k k k once sorted back in
    let most = length-insert_le k k m in
    let again = insert-IsSorted k k once sorted in
    let bound = collect_onto-length ks (insert k k once) again in
    let (differ, absent) = grown-NoneTwice ks (insert k k once) again (omega arith) in
    let before : All (λ j. (j ≢ k) × (get j m ≡ none)) ks =
      All-map (λ j e. not_inserted j k m ((not_inserted j k once e).1)) ks absent in
    (
      (All-map (λ j e. e.0) ks before, differ),
      (fresh k m s (omega (arith, bound, same, h)), All-map (λ j e. e.1) ks before),
    )
  where
    fresh :
        (k : Pubkey) (m : BTreeMap Pubkey)
        → IsSorted m
        → length m < length (insert k k m)
        → get k m ≡ none
    fresh k m s h = elim (Option-cases (get k m)) [
      | inl e ↦ e
      | inr (v, e) ↦ let same = length-insert_same k k v m s e in absurd (omega arith)
    ]

abbrev flatten : List Pair → List Loaded
flatten [] = []
flatten ((vault, wallet) ∷ ps) = vault ∷ wallet ∷ flatten ps

chunks-flatten :
    (accounts : List Loaded) {ps : List Pair} → chunks accounts ≡ ok ps → accounts ≡ flatten ps
unfolding chunks
chunks-flatten [] h = subst (λ ps. [] ≡ flatten ps) (ok-injective h) refl
chunks-flatten (x ∷ []) h = cc
chunks-flatten (x ∷ y ∷ xs) h =
    let (cs, c1, h1) = >>=-eq-ok (chunks xs) _ h in
    subst (λ ps. x ∷ y ∷ xs ≡ flatten ps) (ok-injective h1)
      (ap (λ zs. x ∷ y ∷ zs) (chunks-flatten xs c1))

-- The mint of the vault of each pair.
abbrev pub vault_mints : List Pair → List Pubkey
vault_mints [] = []
vault_mints ((vault, wallet) ∷ ps) = vault.1.mint ∷ vault_mints ps

abbrev pub SameMint : Pair → Type 0
SameMint (vault, wallet) = vault.1.mint ≡ wallet.1.mint

flatten-twice :
    (ps : List Pair)
    → All SameMint ps
    → map (λ a. (a.1.mint, a.1.mint)) (flatten ps) ≡ twice (vault_mints ps)
flatten-twice [] a = refl
flatten-twice ((vault, wallet) ∷ ps) (same, a) = rw (sym same, flatten-twice ps a) refl

length-flatten : (ps : List Pair) → length (flatten ps) ≡ 2 * length (vault_mints ps)
length-flatten [] = refl
length-flatten (p ∷ ps) = omega (arith, length-flatten ps)

-- Accounts in pairs of one mint each, half as many as there are mints: no two pairs share a mint.
pub chunks-NoneTwice :
    (accounts : List Loaded) (n : ℕ) {ps : List Pair}
    → chunks accounts ≡ ok ps
    → length accounts ≡ 2 * n
    → count_mints accounts ≡ n
    → All SameMint ps
    → NoneTwice (vault_mints ps)
unfolding count_mints
chunks-NoneTwice accounts n {ps} h long mints same =
    let flat = chunks-flatten accounts h in
    let entries : map (λ a. (a.1.mint, a.1.mint)) accounts ≡ twice (vault_mints ps) =
      ap (map (λ a. (a.1.mint, a.1.mint))) flat ∙ flatten-twice ps same in
    let half : 2 * length (vault_mints ps) ≡ 2 * n =
      sym (length-flatten ps) ∙ sym (ap length flat) ∙ long in
    let counted : length (collect (twice (vault_mints ps))) ≡ n =
      sym (ap (λ kvs. length (collect kvs)) entries) ∙ mints in
    (grown-NoneTwice (vault_mints ps) [] tt (omega arith)).0

pub chunks-length :
    (accounts : List Loaded) {ps : List Pair}
    → chunks accounts ≡ ok ps
    → length accounts ≡ 2 * length (vault_mints ps)
chunks-length accounts {ps} h = ap length (chunks-flatten accounts h) ∙ length-flatten ps
