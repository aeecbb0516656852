-- ===== src/Amm/Endpoints/Backing/Deposit.antt =====
-- The handler of a deposit, and the vaults of the pool.
use solana_amm.Base.{
  ◌≡◌, ◌≢◌, sym, ap, subst, ◌∙◌, some, List, [], ◌∷◌, arith, All, length, ok, >>=-eq-ok,
  ok-injective, some-injective, ok_or, invoke-eq-ok, try_fold, true,
}
use solana_amm.BTree.{Pubkey, BTreeMap, collect}
use solana_amm.Decimal.{DecimalOps}
use solana_amm.Runtime.{Runtime, pool_signer_seeds}
use solana_amm.Runtime.Laws.{RuntimeLaws}
use solana_amm.Runtime.Vaults.{Keeps, Keeps-trans, Keeps-weaken, nothing, both}
use solana_amm.Amm.Err.{invalid_arg}
use solana_amm.Amm.Models.{TokenAmount}
use solana_amm.Amm.Pool.{Pool, check_amount_tokens_is_valid}
use solana_amm.Amm.Pool.UpdateCurve.{update_curve_invariant}
use solana_amm.Amm.Endpoints.Liquidity.{
  LiquidityAccounts, Loaded, chunks, check_liquidity_accounts, load_vaults_wallets, check_length,
  deposit_pair, deposit_transfers, handle_deposit,
}
use solana_amm.Amm.Endpoints.Backing.{
  vault_of, Backed, Follows, Backed-step, update_curve_invariant-Backed,
}
use solana_amm.BTree.Laws.{collect_onto-IsSorted}
use solana_amm.Runtime.Vaults.Transfers.{mint_to-Keeps}
use solana_amm.Amm.Pool.Reserves.{active, IsValid, length-active}
use solana_amm.Amm.Pool.Deposit.{deposit_tokens}
use solana_amm.Amm.Endpoints.Backing.Mints.{
  Pair, NoneTwice, vault_mints, chunks-NoneTwice, chunks-length,
}
use solana_amm.Amm.Endpoints.Backing.Pairs.{paid_by, LoadedIn}
use solana_amm.Amm.Endpoints.Backing.Redeem.{
  Read, vault-balance, chunks-LoadedIn, load_vaults_wallets-eq, check_length-eq,
}
use solana_amm.Amm.Endpoints.Backing.Added.{AllAdded, deposit_tokens-AllAdded}
use solana_amm.Amm.Endpoints.Backing.Listed.{
  is_in, mints_of, covers, length-mints_of, vault_of-is_in, listed-vault_of, paid_by-is_in,
}
use solana_amm.Amm.Endpoints.Backing.Paid.{IsListed, deposit_pairs-Keeps}

-- The vault of the pair is that of its mint.
abbrev IsHome : Pool → Pair → Type 0
IsHome p (vault, wallet) = vault_of vault.1.mint (active p) ≡ some vault.0

module _ (rt : Runtime) (guard : Pubkey) (p q : Pool) (l : rt.Ledger) where
  -- Where the vaults hold the balances, a listed vault is that of its mint.
  listed-IsHome :
      (pair : Pair)
      → IsValid q
      → ((k : Pubkey) → vault_of k (active q) ≡ vault_of k (active p))
      → Backed rt guard p l
      → rt.account l pair.0.0 ≡ some pair.0.1
      → IsListed q pair
      → IsHome p pair
  listed-IsHome (vault, wallet) v shape backed loaded listed =
      let (k, here) = listed-vault_of (active q) vault.0 v.distinct listed in
      let there : vault_of k (active p) ≡ some vault.0 = sym (shape k) ∙ here in
      let (b, has) = vault-balance k (active p) there in
      let held = backed k b has in
      let same : held.vault ≡ vault.0 = some-injective (sym held.listed ∙ there) in
      let mint : vault.1.mint ≡ k =
        ap (λ z. z.mint) (some-injective (sym loaded ∙ ap (rt.account l) (sym same) ∙ held.loaded))
        ∙ held.mint in
      ap (λ i. vault_of i (active p)) mint ∙ there

  All-IsHome :
      (ps : List Pair)
      → IsValid q
      → ((k : Pubkey) → vault_of k (active q) ≡ vault_of k (active p))
      → Backed rt guard p l
      → LoadedIn rt l ps
      → All (IsListed q) ps
      → All (IsHome p) ps
  All-IsHome [] v shape backed loaded listed = tt
  All-IsHome (pair ∷ ps) v shape backed (e, loaded) (h, listed) =
      (listed-IsHome pair v shape backed e h, All-IsHome ps v shape backed loaded listed)

mints-is_in :
    (p : Pool) (ps : List Pair)
    → All (IsHome p) ps
    → All (λ i. is_in i (mints_of (active p)) ≡ true) (vault_mints ps)
mints-is_in p [] a = tt
mints-is_in p ((vault, wallet) ∷ ps) (h, a) =
    (vault_of-is_in vault.1.mint (active p) h, mints-is_in p ps a)

at_home :
    (p : Pool) (ps : List Pair) (k v : Pubkey)
    → All (IsHome p) ps
    → vault_of k (active p) ≡ some v
    → All (λ (z : Pair). z.0.1.mint ≡ k → z.0.0 ≡ v) ps
at_home p [] k v a h = tt
at_home p ((vault, wallet) ∷ ps) k v (e, a) h =
    ((λ is. some-injective (sym e ∙ ap (λ i. vault_of i (active p)) is ∙ h)), at_home p ps k v a h)

-- The balances of a deposit follow what the pairs pay in.
AllAdded-Follows :
    (rt : Runtime) (p q : Pool) (amounts : BTreeMap TokenAmount) (l : rt.Ledger) (ps : List Pair)
    → AllAdded p q amounts
    → All (IsHome p) ps
    → NoneTwice (vault_mints ps)
    → length (mints_of (active p)) ≡ length (vault_mints ps)
    → Follows rt p q (paid_by amounts ps) nothing l
AllAdded-Follows rt p q amounts l ps added home differ long k b' here =
    let (b, before, grown) = added.grown k b' here in
    (
      b,
      before,
      λ v x listed loaded minted.
          let present =
            covers (vault_mints ps) (mints_of (active p)) k differ (mints-is_in p ps home) long
              (vault_of-is_in k (active p) listed) in
          omega (
            arith,
            grown,
            paid_by-is_in rt l amounts ps k v present (at_home p ps k v home listed),
          ),
    )

module _ (rt : Runtime) (laws : RuntimeLaws rt) where
  -- The transfers pay in what the pairs pay, which are of every mint of the pool.
  deposit_transfers-Follows :
      (guard : Pubkey) (accs : LiquidityAccounts) (lp_tokens : TokenAmount) (p q : Pool)
      (amounts : BTreeMap TokenAmount) (accounts : List Loaded) (l : rt.Ledger) {l' : rt.Ledger}
      → IsValid p
      → accs.user ≢ guard
      → Backed rt guard p l
      → Read rt p l accounts
      → AllAdded p q amounts
      → deposit_transfers rt accs lp_tokens q amounts accounts l ≡ ok l'
      → (ps : List Pair) × Keeps rt guard (paid_by amounts ps) nothing l l'
        × Follows rt p q (paid_by amounts ps) nothing l
  unfolding deposit_transfers
  deposit_transfers-Follows guard accs lp_tokens p q amounts accounts l {l'} v ne backed
        (loaded, mints, long) added h =
      let (ps, c1, h1) = >>=-eq-ok (chunks accounts) _ h in
      let (m, c2, h2) = >>=-eq-ok (try_fold (deposit_pair rt accs q amounts) l ps) _ h1 in
      let (same, listed, paid) =
        deposit_pairs-Keeps rt laws guard accs q amounts ps l added.valid ne c2 in
      let minted =
        mint_to-Keeps rt laws guard accs.lp_mint accs.lp_token_wallet accs.pool_signer lp_tokens m
          l' (invoke-eq-ok _ h2) in
      let home =
        All-IsHome rt guard p q l ps added.valid added.shape backed
          (chunks-LoadedIn rt l accounts c1 loaded) listed in
      let wide : length (mints_of (active p)) ≡ length (vault_mints ps) =
        omega
          (arith, length-mints_of (active p), length-active p v, long, chunks-length accounts c1) in
      (
        ps,
        Keeps-weaken rt guard (both (paid_by amounts ps) nothing) (paid_by amounts ps)
            (both nothing nothing) nothing l l' (λ k. omega arith) (λ k. omega arith)
            (Keeps-trans rt guard (paid_by amounts ps) nothing nothing nothing l m l' paid minted),
        AllAdded-Follows rt p q amounts l ps added home
            (chunks-NoneTwice accounts p.dimension c1 long mints same) wide,
      )

  -- A successful deposit leaves a valid pool whose balances are all in its vaults, if so they
  -- were before, and if the user is not the pool's signer.
  pub handle_deposit-Backed :
      (dec : DecimalOps) (accs : LiquidityAccounts) (limits : List (Pubkey × TokenAmount))
      (p : Pool) (l : rt.Ledger) {q : Pool} {l' : rt.Ledger}
      → IsValid p
      → accs.user ≢ rt.find_program_address (pool_signer_seeds accs.pool)
      → Backed rt (rt.find_program_address (pool_signer_seeds accs.pool)) p l
      → handle_deposit rt dec accs limits p l ≡ ok (q, l')
      → IsValid q × Backed rt (rt.find_program_address (pool_signer_seeds accs.pool)) q l'
  unfolding handle_deposit
  handle_deposit-Backed dec accs limits p l {q} {l'} v ne backed h =
      let guard = rt.find_program_address (pool_signer_seeds accs.pool) in
      let ((lp, wallet), c1, h1) = >>=-eq-ok (check_liquidity_accounts rt accs p l) _ h in
      let (xs, c2, h2) = >>=-eq-ok (load_vaults_wallets rt accs p l) _ h1 in
      let (u3, c3, h3) = >>=-eq-ok (check_length xs p) _ h2 in
      let (u4, c4, h4) = >>=-eq-ok (check_amount_tokens_is_valid p (collect limits)) _ h3 in
      let ((p1, result), c5, h5) =
        >>=-eq-ok (deposit_tokens dec p (collect limits) lp.supply) _ h4 in
      let (minting, c6, h6) = >>=-eq-ok (ok_or result.lp_tokens_to_distribute invalid_arg) _ h5 in
      let (l1, c7, h7) =
        >>=-eq-ok (deposit_transfers rt accs minting p1 result.tokens_to_deposit xs l) _ h6 in
      let (q1, c8, h8) = >>=-eq-ok (update_curve_invariant dec p1) _ h7 in
      let (loaded, mints) = load_vaults_wallets-eq rt accs p l c2 in
      let added =
        deposit_tokens-AllAdded dec p (collect limits) lp.supply v
          (collect_onto-IsSorted [] limits tt) c5 in
      let (ps, keeps, follows) =
        deposit_transfers-Follows guard accs minting p p1 result.tokens_to_deposit xs l v ne backed
          (loaded, mints, check_length-eq xs p c3) added c7 in
      subst (λ (r : Pool × rt.Ledger). IsValid r.0 × Backed rt guard r.0 r.1) (ok-injective h8)
        (update_curve_invariant-Backed dec rt guard p1 l1 c8 added.valid (
          Backed-step rt guard p p1 (paid_by result.tokens_to_deposit ps) nothing l l1 backed keeps
            added.shape follows))
