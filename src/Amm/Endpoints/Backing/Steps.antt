-- ===== src/Amm/Endpoints/Backing/Steps.antt =====
-- The instructions on one pool, in any order, and transfers of others in between.
use solana_amm.Base.{
  ℕ, ◌≡◌, ◌≢◌, refl, sym, subst, List, some, arith, ok, ltb, not, ◌==◌, raise_if, >>=-eq-ok,
  ok-injective,
}
use solana_amm.BTree.{Pubkey}
use solana_amm.Decimal.{DecimalOps, DecimalLaws}
use solana_amm.Runtime.{Runtime, pool_signer_seeds}
use solana_amm.Runtime.Laws.{RuntimeLaws}
use solana_amm.Runtime.Vaults.{only, nothing}
use solana_amm.Runtime.Vaults.Transfers.{transfer-Keeps_in}
use solana_amm.Amm.Err.{invalid_arg, invalid_account_input}
use solana_amm.Amm.Models.{Slot, TokenAmount, Permillion, max_swap_fee}
use solana_amm.Amm.Pool.{Pool}
use solana_amm.Amm.Pool.Reserves.{IsValid}
use solana_amm.Amm.Endpoints.Admin.{set_pool_swap_fee}
use solana_amm.Amm.Endpoints.CreatePool.{CreatePoolAccounts, handle_create_pool}
use solana_amm.Amm.Endpoints.Liquidity.{LiquidityAccounts, handle_deposit, handle_redeem}
use solana_amm.Amm.Endpoints.Swap.{SwapAccounts, handle_swap}
use solana_amm.Amm.Endpoints.Backing.{Backed, Follows, Backed-step}
use solana_amm.Amm.Endpoints.Backing.Create.{handle_create_pool-Backed}
use solana_amm.Amm.Endpoints.Backing.Deposit.{handle_deposit-Backed}
use solana_amm.Amm.Endpoints.Backing.Redeem.{handle_redeem-Backed}
use solana_amm.Amm.Endpoints.Backing.Swap.{handle_swap-Backed}

module _ (dec : DecimalOps) (rt : Runtime) (key : Pubkey) where
  -- A state of the pool `key` and the token ledger that instructions lead to, the first of them the
  -- creation of the pool. Whoever trades or transfers is not the pool's signer.
  pub data Reachable : Pool → rt.Ledger → Type 0 where
    created :
        (accs : CreatePoolAccounts) (amplifier : ℕ) (l : rt.Ledger) (p : Pool)
        → accs.pool ≡ key
        → handle_create_pool rt accs amplifier l ≡ ok p
        → Reachable p l
    swapped :
        (accs : SwapAccounts) (time : Slot) (sell min_buy : TokenAmount) (p q : Pool)
        (l l' : rt.Ledger)
        → Reachable p l
        → accs.pool ≡ key
        → accs.user ≢ rt.find_program_address (pool_signer_seeds key)
        → handle_swap dec rt accs time sell min_buy p l ≡ ok (q, l')
        → Reachable q l'
    deposited :
        (accs : LiquidityAccounts) (maxima : List (Pubkey × TokenAmount)) (p q : Pool)
        (l l' : rt.Ledger)
        → Reachable p l
        → accs.pool ≡ key
        → accs.user ≢ rt.find_program_address (pool_signer_seeds key)
        → handle_deposit rt dec accs maxima p l ≡ ok (q, l')
        → Reachable q l'
    redeemed :
        (accs : LiquidityAccounts) (burned : TokenAmount) (minima : List (Pubkey × TokenAmount))
        (p q : Pool) (l l' : rt.Ledger)
        → Reachable p l
        → accs.pool ≡ key
        → accs.user ≢ rt.find_program_address (pool_signer_seeds key)
        → handle_redeem rt dec accs burned minima p l ≡ ok (q, l')
        → Reachable q l'
    fee_set :
        (admin : Pubkey) (fee : Permillion) (p q : Pool) (l : rt.Ledger)
        → Reachable p l
        → set_pool_swap_fee admin fee p ≡ ok q
        → Reachable q l
    transferred :
        (p : Pool) (l l' : rt.Ledger) (from to who : Pubkey) (n : TokenAmount)
        → Reachable p l
        → who ≢ rt.find_program_address (pool_signer_seeds key)
        → rt.transfer from to who n l ≡ some l'
        → Reachable p l'

set_pool_swap_fee-Backed :
    (rt : Runtime) (guard admin : Pubkey) (fee : Permillion) (p : Pool) (l : rt.Ledger) {q : Pool}
    → set_pool_swap_fee admin fee p ≡ ok q
    → IsValid p
    → Backed rt guard p l
    → IsValid q × Backed rt guard q l
unfolding set_pool_swap_fee
set_pool_swap_fee-Backed rt guard admin fee p l h v backed =
    let (u1, c1, h1) = >>=-eq-ok (raise_if (not (p.admin == admin)) invalid_account_input) _ h in
    let (u2, c2, h2) = >>=-eq-ok (raise_if (ltb max_swap_fee fee) invalid_arg) _ h1 in
    subst (λ z. IsValid z × Backed rt guard z l) (ok-injective h2)
      (
        record { capacity = v.capacity; distinct = v.distinct },
        λ k b e.
            let held = backed k b e in
            record {
              vault = held.vault;
              account = held.account;
              listed = held.listed;
              loaded = held.loaded;
              mint = held.mint;
              owner = held.owner;
              delegate = held.delegate;
              close_authority = held.close_authority;
              covered = held.covered;
            },
      )

-- The balances of a pool that nobody changes follow what is paid in.
stays-Follows :
    (rt : Runtime) (p : Pool) (gained : Pubkey → ℕ) (l : rt.Ledger)
    → Follows rt p p gained nothing l
stays-Follows rt p gained l k b e = (b, e, λ v x listed loaded minted. omega arith)

module _ (dec : DecimalOps) (dec_laws : DecimalLaws dec) (rt : Runtime) (laws : RuntimeLaws rt)
    (key : Pubkey) where
  -- What an instruction keeps of the pool that it names, it keeps of this pool, if that is the one.
  of_pool :
      (pool user : Pubkey) (p q : Pool) (l l' : rt.Ledger)
      → pool ≡ key
      → user ≢ rt.find_program_address (pool_signer_seeds key)
      → Backed rt (rt.find_program_address (pool_signer_seeds key)) p l
      → (user ≢ rt.find_program_address (pool_signer_seeds pool)
          → Backed rt (rt.find_program_address (pool_signer_seeds pool)) p l
          → IsValid q × Backed rt (rt.find_program_address (pool_signer_seeds pool)) q l')
      → IsValid q × Backed rt (rt.find_program_address (pool_signer_seeds key)) q l'
  of_pool pool user p q l l' home ne backed =
      subst
        (λ k.
          (user ≢ rt.find_program_address (pool_signer_seeds pool)
            → Backed rt (rt.find_program_address (pool_signer_seeds pool)) p l
            → IsValid q × Backed rt (rt.find_program_address (pool_signer_seeds pool)) q l')
          → IsValid q × Backed rt (rt.find_program_address (pool_signer_seeds k)) q l')
        home
        (λ keeps.
          keeps (subst (λ k. user ≢ rt.find_program_address (pool_signer_seeds k)) (sym home) ne) (
            subst (λ k. Backed rt (rt.find_program_address (pool_signer_seeds k)) p l) (sym home)
              backed))

  -- However swaps, deposits, redemptions and fee changes on a pool follow its creation, with token
  -- transfers in between, the pool is valid and all its balances are in its vaults, which its signer
  -- owns and no one else may take from or close, where nobody who trades or transfers is that
  -- signer.
  pub Reachable-Backed :
      {p : Pool} {l : rt.Ledger}
      → Reachable dec rt key p l
      → IsValid p × Backed rt (rt.find_program_address (pool_signer_seeds key)) p l
  Reachable-Backed (created accs amplifier l p home h) =
      let (v, backed, vaults, wide) = handle_create_pool-Backed rt accs amplifier l h in
      (v, subst (λ k. Backed rt (rt.find_program_address (pool_signer_seeds k)) p l) home backed)
  Reachable-Backed (swapped accs time sell min_buy p q l l' r home ne h) =
      let (v, backed) = Reachable-Backed r in
      of_pool accs.pool accs.user p q l l' home ne backed
        (λ ne' b. handle_swap-Backed dec rt laws accs time sell min_buy p l v ne' b h)
  Reachable-Backed (deposited accs maxima p q l l' r home ne h) =
      let (v, backed) = Reachable-Backed r in
      of_pool accs.pool accs.user p q l l' home ne backed
        (λ ne' b. handle_deposit-Backed rt laws dec accs maxima p l v ne' b h)
  Reachable-Backed (redeemed accs burned minima p q l l' r home ne h) =
      let (v, backed) = Reachable-Backed r in
      of_pool accs.pool accs.user p q l l' home ne backed
        (λ ne' b. handle_redeem-Backed dec dec_laws rt laws accs burned minima p l v ne' b h)
  Reachable-Backed (fee_set admin fee p q l r h) =
      let (v, backed) = Reachable-Backed r in set_pool_swap_fee-Backed rt _ admin fee p l h v backed
  Reachable-Backed (transferred p l l' from to who n r ne h) =
      let (v, backed) = Reachable-Backed r in
      let guard = rt.find_program_address (pool_signer_seeds key) in
      (
        v,
        Backed-step rt guard p p (only to n) nothing l l' backed
            (transfer-Keeps_in rt laws guard from to who n l l' ne h) (λ k. refl)
            (stays-Follows rt p (only to n) l),
      )
