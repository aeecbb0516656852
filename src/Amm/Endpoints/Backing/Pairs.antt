-- ===== src/Amm/Endpoints/Backing/Pairs.antt =====
-- The transfers of a redemption: what the pairs of accounts pay out of each vault.
use solana_amm.Base.{
  ℕ, ◌+◌, ◌≤◌, ◌≡◌, ◌≢◌, inl, inr, refl, sym, ap, subst, ◌∙◌, Option, some, none, List, [], ◌∷◌,
  arith, All, ok, ◌==◌, not, any, false, Bool-cases, >>=-eq-ok, ok-injective, some-injective,
  raise_if-eq-ok, raise_if, ok_or-eq-ok, invoke-eq-ok, try_fold,
}
use solana_amm.BTree.{Pubkey, BTreeMap, get}
use solana_amm.Runtime.{TokenAccount, Runtime}
use solana_amm.Runtime.Laws.{RuntimeLaws}
use solana_amm.Runtime.Vaults.{Keeps, Keeps-refl, Keeps-trans, Keeps-weaken, only, nothing, both}
use solana_amm.Runtime.Vaults.Transfers.{transfer-Keeps_out}
use solana_amm.Amm.Err.{invalid_account_input}
use solana_amm.Amm.Models.{TokenAmount}
use solana_amm.Amm.Pool.{Pool, initialized}
use solana_amm.Amm.Endpoints.Liquidity.{LiquidityAccounts, check_pair, redeem_pair}
use solana_amm.Amm.Endpoints.Backing.Mints.{Pair, NoneTwice, vault_mints, SameMint}

-- What the map says for a mint, and 0 where it says nothing.
unfoldable pub amount_of : Option TokenAmount → ℕ
amount_of none = 0
amount_of (some t) = t

-- What the pairs pay out of each account.
abbrev pub paid_by : BTreeMap TokenAmount → List Pair → Pubkey → ℕ
paid_by amounts [] k = 0
paid_by amounts ((vault, wallet) ∷ ps) k =
    only vault.0 (amount_of (get vault.1.mint amounts)) k + paid_by amounts ps k

-- The accounts of the pairs as they were loaded.
abbrev pub LoadedIn : (rt : Runtime) → rt.Ledger → List Pair → Type 0
LoadedIn rt l [] = Unit
LoadedIn rt l ((vault, wallet) ∷ ps) = (rt.account l vault.0 ≡ some vault.1) × LoadedIn rt l ps

module _ (rt : Runtime) (laws : RuntimeLaws rt) (guard : Pubkey) where
  redeem_pair-Keeps :
      (accs : LiquidityAccounts) (q : Pool) (amounts : BTreeMap TokenAmount) (pair : Pair)
      (l : rt.Ledger) {l' : rt.Ledger}
      → redeem_pair rt accs q amounts l pair ≡ ok l'
      → SameMint pair × Keeps rt guard nothing (paid_by amounts (pair ∷ [])) l l'
  unfolding redeem_pair check_pair amount_of
  redeem_pair-Keeps accs q amounts (vault, wallet) l {l'} h =
      let (t, c1, h1) = >>=-eq-ok (check_pair accs.user q amounts (vault, wallet)) _ h in
      let (u2, c2, h2) =
        >>=-eq-ok (raise_if (not (vault.1.mint == wallet.1.mint)) invalid_account_input) _ c1 in
      let (u3, c3, h3) =
        >>=-eq-ok (raise_if (not (wallet.1.owner == accs.user)) invalid_account_input) _ h2 in
      let (rs, c4, h4) = >>=-eq-ok (initialized q) _ h3 in
      let (u5, c5, h5) =
        >>=-eq-ok (raise_if (not (any (λ r. r.vault == vault.0) rs)) invalid_account_input) _ h4 in
      let there : get vault.1.mint amounts ≡ some t = ok_or-eq-ok _ invalid_account_input h5 in
      (
        same_keys _ _ (raise_if-eq-ok _ _ c2),
        Keeps-weaken rt guard nothing nothing (only vault.0 t) _ l l' (λ k. omega arith)
            (λ k. no_less vault.0 t k _ there)
            (transfer-Keeps_out rt laws guard vault.0 wallet.0 accs.pool_signer t l l'
              (invoke-eq-ok _ h1)),
      )
    where
      same_keys : (a b : ℕ) → not (a == b) ≡ false → a ≡ b
      same_keys a b h = ground arith

      no_less : (j t k : ℕ) (o : Option ℕ) → o ≡ some t → only j t k ≤ only j (amount_of o) k + 0
      no_less j t k o e = rw e (omega arith)

  pub redeem_pairs-Keeps :
      (accs : LiquidityAccounts) (q : Pool) (amounts : BTreeMap TokenAmount) (ps : List Pair)
      (l : rt.Ledger) {l' : rt.Ledger}
      → try_fold (redeem_pair rt accs q amounts) l ps ≡ ok l'
      → All SameMint ps × Keeps rt guard nothing (paid_by amounts ps) l l'
  redeem_pairs-Keeps accs q amounts [] l {l'} h =
      (tt, subst (Keeps rt guard nothing nothing l) (ok-injective h) (Keeps-refl rt guard l))
  redeem_pairs-Keeps accs q amounts (p ∷ ps) l {l'} h =
      let (m, c1, h1) = >>=-eq-ok (redeem_pair rt accs q amounts l p) _ h in
      let (same, first) = redeem_pair-Keeps accs q amounts p l c1 in
      let (all_same, rest) = redeem_pairs-Keeps accs q amounts ps m h1 in
      (
        (same, all_same),
        Keeps-weaken rt guard (both nothing nothing) nothing
            (both (paid_by amounts (p ∷ [])) (paid_by amounts ps)) (paid_by amounts (p ∷ ps)) l l'
            (λ k. omega arith) (λ k. omega arith)
            (Keeps-trans rt guard nothing nothing (paid_by amounts (p ∷ [])) (paid_by amounts ps) l
              m l' first rest),
      )

module _ (rt : Runtime) (l : rt.Ledger) (amounts : BTreeMap TokenAmount) where
  only_off : (j n k : ℕ) → k ≢ j → only j n k ≡ 0
  only_off j n k off = ground arith

  mint_at :
      (v w : Pubkey) (x y : TokenAccount)
      → rt.account l v ≡ some x
      → rt.account l w ≡ some y
      → v ≡ w
      → x.mint ≡ y.mint
  mint_at v w x y ex ey same =
      ap (λ z. z.mint) (some-injective (sym ex ∙ ap (rt.account l) same ∙ ey))

  -- Pairs of other mints pay nothing out of an account, and pairs of different mints no more than
  -- the amount of its mint.
  paid_by-none :
      (ps : List Pair) (v : Pubkey) (x : TokenAccount)
      → LoadedIn rt l ps
      → rt.account l v ≡ some x
      → All (λ j. j ≢ x.mint) (vault_mints ps)
      → paid_by amounts ps v ≡ 0
  paid_by-none [] v x loaded e off = refl
  paid_by-none ((vault, wallet) ∷ ps) v x (here, loaded) e (ne, off) = omega (
    arith,
    only_off vault.0 (amount_of (get vault.1.mint amounts)) v
        (λ is. ne (sym (mint_at v vault.0 x vault.1 e here is))),
    paid_by-none ps v x loaded e off,
  )

  pub paid_by-le :
      (ps : List Pair) (v : Pubkey) (x : TokenAccount)
      → LoadedIn rt l ps
      → rt.account l v ≡ some x
      → NoneTwice (vault_mints ps)
      → paid_by amounts ps v ≤ amount_of (get x.mint amounts)
  paid_by-le [] v x loaded e differ = omega arith
  paid_by-le ((vault, wallet) ∷ ps) v x (here, loaded) e (off, differ) =
      elim (Bool-cases (v == vault.0)) [
        | inl hit ↦
            let same : x.mint ≡ vault.1.mint =
              mint_at v vault.0 x vault.1 e here (ground (arith, hit)) in
            let rest =
              paid_by-none ps v x loaded e
                (subst (λ m. All (λ j. j ≢ m) (vault_mints ps)) (sym same) off) in
            rw (hit, same) (omega (arith, rest))
        | inr miss ↦ rw miss (omega (arith, paid_by-le ps v x loaded e differ))
      ]
