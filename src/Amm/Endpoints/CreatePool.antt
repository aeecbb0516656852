-- ===== src/Amm/Endpoints/CreatePool.antt =====
-- `programs/amm/src/endpoints/create_pool.rs`.
use solana_amm.Base.{
  ℕ, ◌+◌, Bool, true, false, not, ◌&&◌, Option, none, some, List, [], ◌∷◌, ltb, ◌==◌, if◌then◌else◌,
  length, any, set, replicate, ok, ◌>>=◌, ◌>>◌, raise_if, assert,
}
use solana_amm.BTree.{Pubkey}
use solana_amm.Runtime.{
  Runtime, TokenAccount, pool_signer_seeds, program_toll_seeds, check_seeds, load_account,
  load_mint,
}
use solana_amm.Amm.Err.{Res, invalid_account_input}
use solana_amm.Amm.Pool.{Pool, Reserve, Curve, const_prod, stable}

pub record CreatePoolAccounts : Type 0 where
  pub admin : Pubkey
  pub pool : Pubkey
  pub pool_signer : Pubkey
  pub program_toll : Pubkey
  -- `program_toll.authority`
  pub program_toll_authority : Pubkey
  pub program_toll_wallet : Pubkey
  pub lp_mint : Pubkey
  pub remaining_accounts : List Pubkey

-- `consts::MAX_RESERVES`
abbrev pub max_reserves : ℕ
max_reserves = 4

abbrev pub default_reserve : Reserve
default_reserve = record { tokens = 0; mint = 0; vault = 0 }

unfoldable pub is_none : Option Pubkey → Bool
is_none none = true
is_none (some k) = false

unfoldable pub is_exactly : Option Pubkey → Pubkey → Bool
is_exactly none k = false
is_exactly (some j) k = j == k

-- `amplifier == 0` asks for the constant product.
unfoldable pub initial_curve : ℕ → Curve
initial_curve amplifier = if amplifier == 0 then const_prod else stable amplifier 0

-- The tests on one vault, given the mints of those before it.
unfoldable pub check_vault : Bool → Pubkey → List Pubkey → TokenAccount → Res (Unit {0})
check_vault without_supply signer mints vault = do
  raise_if (without_supply && not (vault.amount == 0)) invalid_account_input
  raise_if (not without_supply && (vault.amount == 0)) invalid_account_input
  raise_if (any (λ m. m == vault.mint) mints) invalid_account_input
  raise_if (not (is_none vault.close_authority)) invalid_account_input
  raise_if (not (is_none vault.delegate)) invalid_account_input
  raise_if (not (vault.owner == signer)) invalid_account_input
  raise_if vault.is_frozen invalid_account_input

module _ (rt : Runtime) where
  -- The loop over the vaults, with the index, the set of mints and the reserves so far. `mints` is
  -- a set of which only members and size are asked.
  unfoldable pub add_reserves :
      rt.Ledger
      → Bool
      → Pubkey
      → List Pubkey
      → ℕ
      → List Pubkey
      → List Reserve
      → Res (List Pubkey × List Reserve)
  add_reserves ledger without_supply signer [] index mints reserves = ok (mints, reserves)
  add_reserves ledger without_supply signer (key ∷ keys) index mints reserves = do
    vault ← load_account rt ledger key
    check_vault without_supply signer mints vault
    assert (ltb index (length reserves))
    let reserve : Reserve = record { tokens = vault.amount; mint = vault.mint; vault = key }
    add_reserves ledger without_supply signer keys (index + 1) (vault.mint ∷ mints)
        (set reserves index reserve)

  -- The constraints on the accounts, and whether LP tokens exist.
  unfoldable pub check_create_pool_accounts : CreatePoolAccounts → rt.Ledger → Res Bool
  check_create_pool_accounts accs ledger = do
    check_seeds rt (pool_signer_seeds accs.pool) accs.pool_signer
    check_seeds rt program_toll_seeds accs.program_toll
    toll_wallet ← load_account rt ledger accs.program_toll_wallet
    lp_mint ← load_mint rt ledger accs.lp_mint
    raise_if (not (toll_wallet.mint == accs.lp_mint)) invalid_account_input
    raise_if (not (toll_wallet.owner == accs.program_toll_authority)) invalid_account_input
    raise_if (not (is_exactly lp_mint.mint_authority accs.pool_signer)) invalid_account_input
    raise_if (not (is_none lp_mint.freeze_authority)) invalid_account_input
    ok (lp_mint.supply == 0)

  -- The pool account is new and all zero before; `swap_fee` stays so.
  unfoldable pub handle_create_pool : CreatePoolAccounts → ℕ → rt.Ledger → Res Pool
  handle_create_pool accs amplifier ledger = do
    without_supply ← check_create_pool_accounts accs ledger
    raise_if (ltb max_reserves (length accs.remaining_accounts)) invalid_account_input
    (mints, reserves) ←
        add_reserves ledger without_supply accs.pool_signer accs.remaining_accounts 0 []
          (replicate max_reserves default_reserve)
    raise_if (ltb (length mints) 2) invalid_account_input
    ok (record {
      admin = accs.admin;
      signer = accs.pool_signer;
      mint = accs.lp_mint;
      program_toll_wallet = accs.program_toll_wallet;
      dimension = length mints;
      reserves = reserves;
      curve = initial_curve amplifier;
      swap_fee = 0;
    })
