-- ===== src/Amm/Endpoints/Backing/Redeem.antt =====
-- The handler of a redemption, and the vaults of the pool.
use solana_amm.Base.{
  ℕ, ◌-◌, ◌*◌, ◌≡◌, ◌≢◌, inl, inr, refl, sym, ap, subst, ◌∙◌, some, List, [], ◌∷◌, arith, All,
  length, ok, ◌==◌, ltb, not, false, Bool-cases, >>=-eq-ok, ok-injective, some-injective,
  raise_if-eq-ok, raise_if, invoke-eq-ok, try_map, try_fold, lift,
}
use solana_amm.BTree.{Pubkey, BTreeMap, get, collect}
use solana_amm.Decimal.{DecimalOps, DecimalLaws}
use solana_amm.Runtime.{Runtime, pool_signer_seeds, load_account}
use solana_amm.Runtime.Laws.{RuntimeLaws}
use solana_amm.Runtime.Vaults.{Keeps, Keeps-trans, Keeps-weaken, nothing, both}
use solana_amm.Runtime.Vaults.Transfers.{burn-Keeps}
use solana_amm.Amm.Err.{invalid_arg, invalid_account_input, invalid_lp_token_amount}
use solana_amm.Amm.Models.{TokenAmount}
use solana_amm.Amm.Pool.{Pool, Reserve, reserve_mut, remove_tokens, check_amount_tokens_is_valid}
use solana_amm.Amm.Pool.Reserves.{
  active, IsValid, balance, remove_tokens-change, active-with_active, with_active-IsValid,
}
use solana_amm.Amm.Pool.Redeem.{
  redeem_tokens, remove_all, check_min_tokens, token_to_redeem, is_any_below_min,
}
use solana_amm.Amm.Pool.Redeem.Share.{PaysShares, redeem-PaysShares}
use solana_amm.Amm.Pool.UpdateCurve.{update_curve_invariant}
use solana_amm.Amm.Endpoints.Liquidity.{
  LiquidityAccounts, Loaded, chunks, load_remaining, check_liquidity_accounts, load_vaults_wallets,
  count_mints, check_length, redeem_pair, check_redeem, redeem_transfers, handle_redeem,
}
use solana_amm.Amm.Endpoints.Backing.{
  vault_of, Backed, Follows, Backed-step, vault_of-change, update_curve_invariant-Backed,
}
use solana_amm.Amm.Endpoints.Backing.Mints.{Pair, NoneTwice, vault_mints, chunks-NoneTwice}
use solana_amm.Amm.Endpoints.Backing.Pairs.{
  amount_of, paid_by, LoadedIn, redeem_pairs-Keeps, paid_by-le,
}

-- A reserve has a balance exactly where it has a vault.
pub balance-vault :
    (k : Pubkey) (rs : List Reserve) {b : ℕ}
    → balance k rs ≡ some b
    → (v : Pubkey) × (vault_of k rs ≡ some v)
balance-vault k [] h = cc
balance-vault k (r ∷ rs) h = elim (Bool-cases (r.mint == k)) [
  | inl hit ↦ (r.vault, rw hit refl)
  | inr miss ↦ let (v, e) = balance-vault k rs (rw miss at h) in (v, rw miss e)
]

pub vault-balance :
    (k : Pubkey) (rs : List Reserve) {v : Pubkey}
    → vault_of k rs ≡ some v
    → (b : ℕ) × (balance k rs ≡ some b)
vault-balance k [] h = cc
vault-balance k (r ∷ rs) h = elim (Bool-cases (r.mint == k)) [
  | inl hit ↦ (r.tokens, rw hit refl)
  | inr miss ↦ let (b, e) = vault-balance k rs (rw miss at h) in (b, rw miss e)
]

-- The loop over the redeemed tokens changes no vault.
remove_all-shape :
    (p q : Pool) (m : BTreeMap TokenAmount) (k : Pubkey)
    → IsValid p
    → remove_all p m ≡ ok q
    → vault_of k (active q) ≡ vault_of k (active p)
unfolding remove_all
remove_all-shape p q [] k v h = sym (ap (λ z. vault_of k (active z)) (ok-injective h))
remove_all-shape p q ((j, u) ∷ m) k v h =
    let (p1, first, rest) = >>=-eq-ok (reserve_mut j (remove_tokens u) p) _ h in
    let (to_p1, covered) = remove_tokens-change j u p v first in
    let v1 : IsValid p1 = subst IsValid (sym to_p1) (with_active-IsValid p j (λ n. n - u) v) in
    remove_all-shape p1 q m k v1 rest
    ∙ ap (λ z. vault_of k (active z)) to_p1
    ∙ ap (vault_of k) (active-with_active p j (λ n. n - u) v)
    ∙ vault_of-change k j (λ n. n - u) (active p)

redeem_tokens-shape :
    (dec : DecimalOps) (p : Pool) (mins : BTreeMap TokenAmount) (burn supply : TokenAmount)
    (k : Pubkey) {q : Pool} {amounts : BTreeMap TokenAmount}
    → IsValid p
    → redeem_tokens dec p mins burn supply ≡ ok (q, amounts)
    → vault_of k (active q) ≡ vault_of k (active p)
unfolding redeem_tokens
redeem_tokens-shape dec p mins burn supply k {q} {amounts} v h =
    let (rs, c1, h1) = >>=-eq-ok (check_min_tokens dec p mins burn supply) _ h in
    let (weight, c2, h2) =
      >>=-eq-ok (lift (dec.try_div (dec.from_u64 burn) (dec.from_u64 supply))) _ h1 in
    let (es, c3, h3) = >>=-eq-ok (try_map (token_to_redeem dec weight) rs) _ h2 in
    let (below, c4, h4) = >>=-eq-ok (is_any_below_min mins (collect es)) _ h3 in
    let (u, c5, h5) = >>=-eq-ok (raise_if below invalid_arg) _ h4 in
    let (q1, taken, h6) = >>=-eq-ok (remove_all p (collect es)) _ h5 in
    remove_all-shape p q (collect es) k v
      (taken ∙ ap (λ (r : Pool × BTreeMap TokenAmount). ok r.0) (ok-injective h6))

module _ (rt : Runtime) where
  load_remaining-LoadedIn :
      (l : rt.Ledger) (keys : List Pubkey) {accounts : List Loaded}
      → try_map (load_remaining rt l) keys ≡ ok accounts
      → All (λ a. rt.account l a.0 ≡ some a.1) accounts
  unfolding load_remaining load_account
  load_remaining-LoadedIn l [] h = subst (All _) (ok-injective h) tt
  load_remaining-LoadedIn l (k ∷ keys) h =
      let (a, c1, h1) = >>=-eq-ok (load_remaining rt l k) _ h in
      let (rest, c2, h2) = >>=-eq-ok (try_map (load_remaining rt l) keys) _ h1 in
      let (x, c3, h3) = >>=-eq-ok (load_account rt l k) _ c1 in
      subst (All _) (ok-injective h2) (
        subst (λ (a : Loaded). rt.account l a.0 ≡ some a.1) (ok-injective h3) (invoke-eq-ok _ c3),
        load_remaining-LoadedIn l keys c2,
      )

  pub chunks-LoadedIn :
      (l : rt.Ledger) (accounts : List Loaded) {ps : List Pair}
      → chunks accounts ≡ ok ps
      → All (λ a. rt.account l a.0 ≡ some a.1) accounts
      → LoadedIn rt l ps
  unfolding chunks
  chunks-LoadedIn l [] h a = subst (LoadedIn rt l) (ok-injective h) tt
  chunks-LoadedIn l (x ∷ []) h a = cc
  chunks-LoadedIn l (x ∷ y ∷ xs) h (ex, (ey, a)) =
      let (cs, c1, h1) = >>=-eq-ok (chunks xs) _ h in
      subst (LoadedIn rt l) (ok-injective h1) (ex, chunks-LoadedIn l xs c1 a)

  -- The balances of a redemption follow what the pairs pay.
  PaysShares-Follows :
      (p q : Pool) (mins amounts : BTreeMap TokenAmount) (burn supply : TokenAmount) (l : rt.Ledger)
      (ps : List Pair)
      → PaysShares p mins burn supply (q, amounts)
      → ((k : Pubkey) → vault_of k (active q) ≡ vault_of k (active p))
      → LoadedIn rt l ps
      → NoneTwice (vault_mints ps)
      → Follows rt p q nothing (paid_by amounts ps) l
  unfolding amount_of
  PaysShares-Follows p q mins amounts burn supply l ps (valid, pays) shape loaded differ k b' here =
      let (v', after) = balance-vault k (active q) here in
      let (b, before) = vault-balance k (active p) (sym (shape k) ∙ after) in
      let (t, got, share, le, left, least) = pays k b before in
      let now : b' ≡ b - t = some-injective (sym here ∙ left) in
      (
        b,
        before,
        λ v x listed held minted.
            let bound = paid_by-le rt l amounts ps v x loaded held differ in
            let told : amount_of (get x.mint amounts) ≡ t = rw (minted, got) refl in
            omega (arith, bound, told, now, le),
      )

same_numbers : (a b : ℕ) → not (a == b) ≡ false → a ≡ b
same_numbers a b h = ground arith

pub check_length-eq :
    (accounts : List Loaded) (p : Pool) {u : Unit {0}}
    → check_length accounts p ≡ ok u
    → length accounts ≡ 2 * p.dimension
unfolding check_length
check_length-eq accounts p h = same_numbers _ _ (raise_if-eq-ok _ _ h)

-- What is known of the accounts of the pairs.
abbrev pub Read : (rt : Runtime) → Pool → rt.Ledger → List Loaded → Type 0
Read rt p l accounts =
    All (λ a. rt.account l a.0 ≡ some a.1) accounts
    × (count_mints accounts ≡ p.dimension)
    × (length accounts ≡ 2 * p.dimension)

module _ (rt : Runtime) where
  pub load_vaults_wallets-eq :
      (accs : LiquidityAccounts) (p : Pool) (l : rt.Ledger) {accounts : List Loaded}
      → load_vaults_wallets rt accs p l ≡ ok accounts
      → All (λ a. rt.account l a.0 ≡ some a.1) accounts × (count_mints accounts ≡ p.dimension)
  unfolding load_vaults_wallets
  load_vaults_wallets-eq accs p l {accounts} h =
      let (xs, c1, h1) = >>=-eq-ok (try_map (load_remaining rt l) accs.remaining_accounts) _ h in
      let (u2, c2, h2) =
        >>=-eq-ok (raise_if (not (count_mints xs == p.dimension)) invalid_account_input) _ h1 in
      subst (λ zs. All (λ a. rt.account l a.0 ≡ some a.1) zs × (count_mints zs ≡ p.dimension))
        (ok-injective h2)
        (
          load_remaining-LoadedIn rt l accs.remaining_accounts c1,
          same_numbers _ _ (raise_if-eq-ok _ _ c2),
        )

  check_redeem-Read :
      (accs : LiquidityAccounts) (burn : TokenAmount) (p : Pool) (l : rt.Ledger)
      {accounts : List Loaded} {supply : TokenAmount}
      → check_redeem rt accs burn p l ≡ ok (accounts, supply)
      → Read rt p l accounts
  unfolding check_redeem
  check_redeem-Read accs burn p l {accounts} {supply} h =
      let ((lp, wallet), c1, h1) = >>=-eq-ok (check_liquidity_accounts rt accs p l) _ h in
      let (xs, c2, h2) = >>=-eq-ok (load_vaults_wallets rt accs p l) _ h1 in
      let (u3, c3, h3) = >>=-eq-ok (raise_if (ltb lp.supply burn) invalid_arg) _ h2 in
      let (u4, c4, h4) =
        >>=-eq-ok (raise_if (ltb wallet.amount burn) invalid_lp_token_amount) _ h3 in
      let (u5, c5, h5) = >>=-eq-ok (check_length xs p) _ h4 in
      let same : (xs, lp.supply) ≡ (accounts, supply) = ok-injective h5 in
      let (loaded, mints) = load_vaults_wallets-eq accs p l c2 in
      subst (λ (r : List Loaded × ℕ). Read rt p l r.0) same (loaded, mints, check_length-eq xs p c5)

  -- The transfers pay what the pairs pay, which are of different mints.
  redeem_transfers-Keeps :
      (laws : RuntimeLaws rt) (guard : Pubkey) (accs : LiquidityAccounts) (burn : TokenAmount)
      (p q : Pool) (amounts : BTreeMap TokenAmount) (accounts : List Loaded) (l : rt.Ledger)
      {l' : rt.Ledger}
      → accs.user ≢ guard
      → Read rt p l accounts
      → redeem_transfers rt accs burn q amounts accounts l ≡ ok l'
      → (ps : List Pair) × LoadedIn rt l ps
        × NoneTwice (vault_mints ps)
        × Keeps rt guard nothing (paid_by amounts ps) l l'
  unfolding redeem_transfers
  redeem_transfers-Keeps laws guard accs burn p q amounts accounts l {l'} ne (loaded, mints, long)
        h =
      let (ps, c1, h1) = >>=-eq-ok (chunks accounts) _ h in
      let (m, c2, h2) = >>=-eq-ok (try_fold (redeem_pair rt accs q amounts) l ps) _ h1 in
      let (same, paid) = redeem_pairs-Keeps rt laws guard accs q amounts ps l c2 in
      let burned =
        burn-Keeps rt laws guard accs.lp_mint accs.lp_token_wallet accs.user burn m l' ne
          (invoke-eq-ok _ h2) in
      (
        ps,
        chunks-LoadedIn rt l accounts c1 loaded,
        chunks-NoneTwice accounts p.dimension c1 long mints same,
        Keeps-weaken rt guard (both nothing nothing) nothing (both (paid_by amounts ps) nothing)
            (paid_by amounts ps) l l' (λ k. omega arith) (λ k. omega arith)
            (Keeps-trans rt guard nothing nothing (paid_by amounts ps) nothing l m l' paid burned),
      )

module _ (dec : DecimalOps) (dec_laws : DecimalLaws dec) (rt : Runtime)
    (laws : RuntimeLaws rt) where
  redeemed-Backed :
      (guard : Pubkey) (accs : LiquidityAccounts) (p q : Pool) (mins amounts : BTreeMap TokenAmount)
      (burn supply : TokenAmount) (accounts : List Loaded) (l : rt.Ledger) {l' : rt.Ledger}
      → IsValid p
      → accs.user ≢ guard
      → Backed rt guard p l
      → Read rt p l accounts
      → redeem_tokens dec p mins burn supply ≡ ok (q, amounts)
      → redeem_transfers rt accs burn q amounts accounts l ≡ ok l'
      → IsValid q × Backed rt guard q l'
  redeemed-Backed guard accs p q mins amounts burn supply accounts l {l'} v ne backed read redeems
        pays =
      let shares = redeem-PaysShares dec dec_laws p mins burn supply v redeems in
      let shape : (k : Pubkey) → vault_of k (active q) ≡ vault_of k (active p) =
        λ k. redeem_tokens-shape dec p mins burn supply k v redeems in
      let (ps, loaded, differ, keeps) =
        redeem_transfers-Keeps rt laws guard accs burn p q amounts accounts l ne read pays in
      (
        shares.0,
        Backed-step rt guard p q nothing (paid_by amounts ps) l l' backed keeps shape
            (PaysShares-Follows rt p q mins amounts burn supply l ps shares shape loaded differ),
      )

  -- A successful redemption leaves a valid pool whose balances are all in its vaults, if so they
  -- were before, and if the user is not the pool's signer.
  pub handle_redeem-Backed :
      (accs : LiquidityAccounts) (burn : TokenAmount) (limits : List (Pubkey × TokenAmount))
      (p : Pool) (l : rt.Ledger) {q : Pool} {l' : rt.Ledger}
      → IsValid p
      → accs.user ≢ rt.find_program_address (pool_signer_seeds accs.pool)
      → Backed rt (rt.find_program_address (pool_signer_seeds accs.pool)) p l
      → handle_redeem rt dec accs burn limits p l ≡ ok (q, l')
      → IsValid q × Backed rt (rt.find_program_address (pool_signer_seeds accs.pool)) q l'
  unfolding handle_redeem
  handle_redeem-Backed accs burn limits p l {q} {l'} v ne backed h =
      let guard = rt.find_program_address (pool_signer_seeds accs.pool) in
      let ((xs, supply), c1, h1) = >>=-eq-ok (check_redeem rt accs burn p l) _ h in
      let (u2, c2, h2) = >>=-eq-ok (check_amount_tokens_is_valid p (collect limits)) _ h1 in
      let ((p1, amounts), c3, h3) =
        >>=-eq-ok (redeem_tokens dec p (collect limits) burn supply) _ h2 in
      let (l1, c4, h4) = >>=-eq-ok (redeem_transfers rt accs burn p1 amounts xs l) _ h3 in
      let (q1, c5, h5) = >>=-eq-ok (update_curve_invariant dec p1) _ h4 in
      let same : (q1, l1) ≡ (q, l') = ok-injective h5 in
      let (v1, backed1) =
        redeemed-Backed guard accs p p1 (collect limits) amounts burn supply xs l v ne backed
          (check_redeem-Read rt accs burn p l c1) c3 c4 in
      subst (λ (r : Pool × rt.Ledger). IsValid r.0 × Backed rt guard r.0 r.1) same
        (update_curve_invariant-Backed dec rt guard p1 l1 c5 v1 backed1)
