-- ===== src/Amm/Endpoints/Backing/Create.antt =====
-- The handler that creates a pool, and the vaults it is given.
use solana_amm.Base.{
  ℕ, ◌≤◌, ◌≡◌, refl, sym, ap, subst, Bool, false, [], arith, map, length, replicate, ok, ltb,
  >>=-eq-ok, ok-injective, raise_if-eq-ok, raise_if,
}
use solana_amm.Runtime.{Runtime, pool_signer_seeds, check_seeds}
use solana_amm.Amm.Err.{invalid_account_input}
use solana_amm.Amm.Pool.{Pool}
use solana_amm.Amm.Pool.Reserves.{active, IsValid}
use solana_amm.Amm.Endpoints.CreatePool.{
  CreatePoolAccounts, max_reserves, default_reserve, add_reserves, check_create_pool_accounts,
  handle_create_pool,
}
use solana_amm.Amm.Endpoints.Backing.{Backed}
use solana_amm.Amm.Endpoints.Backing.Accounts.{check_seeds-eq}
use solana_amm.Amm.Endpoints.Backing.Built.{Built, add_reserves-Built, Built-Backed}

module _ (rt : Runtime) where
  check_create_pool_accounts-signer :
      (accs : CreatePoolAccounts) (l : rt.Ledger) {b : Bool}
      → check_create_pool_accounts rt accs l ≡ ok b
      → accs.pool_signer ≡ rt.find_program_address (pool_signer_seeds accs.pool)
  unfolding check_create_pool_accounts
  check_create_pool_accounts-signer accs l h =
      let (u1, c1, h1) =
        >>=-eq-ok (check_seeds rt (pool_signer_seeds accs.pool) accs.pool_signer) _ h in
      check_seeds-eq rt _ _ c1

  -- A pool that is created is valid, has exactly the given vaults in their order, at least two, and
  -- all its balances are in its vaults. These belong to its signer, and no one else may move their
  -- tokens or close them.
  pub handle_create_pool-Backed :
      (accs : CreatePoolAccounts) (amplifier : ℕ) (l : rt.Ledger) {p : Pool}
      → handle_create_pool rt accs amplifier l ≡ ok p
      → IsValid p
        × Backed rt (rt.find_program_address (pool_signer_seeds accs.pool)) p l
        × (map (λ r. r.vault) (active p) ≡ accs.remaining_accounts)
        × (2 ≤ p.dimension)
  unfolding handle_create_pool
  handle_create_pool-Backed accs amplifier l {p} h =
      let (without_supply, c1, h1) = >>=-eq-ok (check_create_pool_accounts rt accs l) _ h in
      let (u2, c2, h2) =
        >>=-eq-ok
          (raise_if (ltb max_reserves (length accs.remaining_accounts)) invalid_account_input) _
          h1 in
      let ((mints, rs), c3, h3) =
        >>=-eq-ok
          (add_reserves rt l without_supply accs.pool_signer accs.remaining_accounts 0 []
            (replicate max_reserves default_reserve))
          _ h2 in
      let (u4, c4, h4) = >>=-eq-ok (raise_if (ltb (length mints) 2) invalid_account_input) _ h3 in
      let start : Built rt accs.pool_signer l [] [] (replicate max_reserves default_reserve) =
        record { fits = omega arith; filled = tt; distinct = tt; known = tt; vaults = refl } in
      let built =
        add_reserves-Built rt accs.pool_signer l without_supply [] accs.remaining_accounts 0 []
          (replicate max_reserves default_reserve) refl start c3 in
      let size : p.dimension ≡ length mints = sym (ap (λ z. z.dimension) (ok-injective h4)) in
      let slots : rs ≡ p.reserves = ap (λ z. z.reserves) (ok-injective h4) in
      let (valid, backed, vaults) =
        Built-Backed rt accs.pool_signer l accs.remaining_accounts mints p size
          (subst (Built rt accs.pool_signer l accs.remaining_accounts mints) slots built) in
      (
        valid,
        subst (λ k. Backed rt k p l) (check_create_pool_accounts-signer accs l c1) backed,
        vaults,
        enough (length mints) p.dimension size (raise_if-eq-ok _ _ c4),
      )
    where
      enough : (n d : ℕ) → d ≡ n → ltb n 2 ≡ false → 2 ≤ d
      enough n d e h = ground arith
