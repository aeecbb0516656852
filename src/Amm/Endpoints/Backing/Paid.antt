-- ===== src/Amm/Endpoints/Backing/Paid.antt =====
-- The loop of a deposit that transfers the tokens of each vault and wallet.
use solana_amm.Base.{
  ℕ, ◌+◌, ◌≤◌, ◌≡◌, ◌≢◌, refl, sym, subst, ◌∙◌, Option, some, List, [], ◌∷◌, arith, All, ok, ◌==◌,
  ltb, not, any, false, >>=-eq-ok, ok-injective, raise_if-eq-ok, raise_if, ok_or-eq-ok,
  invoke-eq-ok, try_fold, Bool, true,
}
use solana_amm.BTree.{Pubkey, BTreeMap, get}
use solana_amm.Runtime.{Runtime}
use solana_amm.Runtime.Laws.{RuntimeLaws}
use solana_amm.Runtime.Vaults.{Keeps, Keeps-refl, Keeps-trans, Keeps-weaken, only, nothing, both}
use solana_amm.Amm.Err.{invalid_arg, invalid_account_input}
use solana_amm.Amm.Models.{TokenAmount}
use solana_amm.Amm.Pool.{Pool, initialized}
use solana_amm.Amm.Endpoints.Liquidity.{LiquidityAccounts, check_pair, deposit_pair}
use solana_amm.Runtime.Vaults.Transfers.{transfer-Keeps_in}
use solana_amm.Amm.Pool.Reserves.{active, IsValid, initialized-eq}
use solana_amm.Amm.Endpoints.Backing.Mints.{Pair, SameMint}
use solana_amm.Amm.Endpoints.Backing.Pairs.{amount_of, paid_by}

-- Some reserve lists the vault of the pair.
abbrev pub IsListed : Pool → Pair → Type 0
IsListed q (vault, wallet) = any (λ r. r.vault == vault.0) (active q) ≡ true

is_true : (b : Bool) → not b ≡ false → b ≡ true
is_true true h = refl
is_true false h = cc

module _ (rt : Runtime) (laws : RuntimeLaws rt) (guard : Pubkey) where
  deposit_pair-Keeps :
      (accs : LiquidityAccounts) (q : Pool) (amounts : BTreeMap TokenAmount) (pair : Pair)
      (l : rt.Ledger) {l' : rt.Ledger}
      → IsValid q
      → accs.user ≢ guard
      → deposit_pair rt accs q amounts l pair ≡ ok l'
      → SameMint pair × IsListed q pair × Keeps rt guard (paid_by amounts (pair ∷ [])) nothing l l'
  unfolding deposit_pair check_pair amount_of
  deposit_pair-Keeps accs q amounts (vault, wallet) l {l'} v ne h =
      let (t, c1, h1) = >>=-eq-ok (check_pair accs.user q amounts (vault, wallet)) _ h in
      let (u2, c2, h2) =
        >>=-eq-ok (raise_if (not (vault.1.mint == wallet.1.mint)) invalid_account_input) _ c1 in
      let (u3, c3, h3) =
        >>=-eq-ok (raise_if (not (wallet.1.owner == accs.user)) invalid_account_input) _ h2 in
      let (rs, c4, h4) = >>=-eq-ok (initialized q) _ h3 in
      let (u5, c5, h5) =
        >>=-eq-ok (raise_if (not (any (λ r. r.vault == vault.0) rs)) invalid_account_input) _ h4 in
      let (u6, c6, h6) = >>=-eq-ok (raise_if (ltb wallet.1.amount t) invalid_arg) _ h1 in
      let there : get vault.1.mint amounts ≡ some t = ok_or-eq-ok _ invalid_account_input h5 in
      let slice : rs ≡ active q = ok-injective (sym c4 ∙ initialized-eq q v) in
      (
        same_keys _ _ (raise_if-eq-ok _ _ c2),
        subst (λ zs. any (λ r. r.vault == vault.0) zs ≡ true) slice
            (is_true _ (raise_if-eq-ok _ _ c5)),
        Keeps-weaken rt guard (only vault.0 t) _ nothing nothing l l'
            (λ k. no_more vault.0 t k _ there) (λ k. omega arith)
            (transfer-Keeps_in rt laws guard wallet.0 vault.0 accs.user t l l' ne
              (invoke-eq-ok _ h6)),
      )
    where
      same_keys : (a b : ℕ) → not (a == b) ≡ false → a ≡ b
      same_keys a b h = ground arith

      no_more : (j t k : ℕ) (o : Option ℕ) → o ≡ some t → only j (amount_of o) k + 0 ≤ only j t k
      no_more j t k o e = rw e (omega arith)

  -- The pairs of a deposit are of one mint each, their vaults are listed, and they pay in what
  -- they are to pay.
  pub deposit_pairs-Keeps :
      (accs : LiquidityAccounts) (q : Pool) (amounts : BTreeMap TokenAmount) (ps : List Pair)
      (l : rt.Ledger) {l' : rt.Ledger}
      → IsValid q
      → accs.user ≢ guard
      → try_fold (deposit_pair rt accs q amounts) l ps ≡ ok l'
      → All SameMint ps × All (IsListed q) ps × Keeps rt guard (paid_by amounts ps) nothing l l'
  deposit_pairs-Keeps accs q amounts [] l {l'} v ne h =
      (tt, tt, subst (Keeps rt guard nothing nothing l) (ok-injective h) (Keeps-refl rt guard l))
  deposit_pairs-Keeps accs q amounts (p ∷ ps) l {l'} v ne h =
      let (m, c1, h1) = >>=-eq-ok (deposit_pair rt accs q amounts l p) _ h in
      let (same, listed, first) = deposit_pair-Keeps accs q amounts p l v ne c1 in
      let (all_same, all_listed, rest) = deposit_pairs-Keeps accs q amounts ps m v ne h1 in
      (
        (same, all_same),
        (listed, all_listed),
        Keeps-weaken rt guard (both (paid_by amounts (p ∷ [])) (paid_by amounts ps))
            (paid_by amounts (p ∷ ps)) (both nothing nothing) nothing l l' (λ k. omega arith)
            (λ k. omega arith)
            (Keeps-trans rt guard (paid_by amounts (p ∷ [])) (paid_by amounts ps) nothing nothing l
              m l' first rest),
      )
