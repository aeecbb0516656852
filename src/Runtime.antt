-- ===== src/Runtime.antt =====
-- What the programs use of Anchor and of the SPL Token program, which are not part of this
-- repository: accounts that hold tokens, mints, the instructions on them, and the addresses that
-- are derived from seeds. `none` is a failed instruction, and a missing or unreadable account.
pub mod Laws
pub mod Concrete
pub mod Lawful
pub mod Vaults
use solana_amm.Base.{ℕ, Bool, Option, none, some, Result, ◌>>=◌, invoke, ◌==◌, if◌then◌else◌}
use solana_amm.BTree.{Pubkey}

-- `anchor_spl::token::TokenAccount` and `Mint`, as far as the programs read them.
pub record TokenAccount : Type 0 where
  pub mint : Pubkey
  pub owner : Pubkey
  pub amount : ℕ
  pub delegate : Option Pubkey
  pub close_authority : Option Pubkey
  pub is_frozen : Bool

pub record Mint : Type 0 where
  pub supply : ℕ
  pub mint_authority : Option Pubkey
  pub freeze_authority : Option Pubkey

-- The seeds of the derived addresses of both programs.
pub data Seeds : Type 0 where
  program_toll_seeds discount_settings_seeds : Seeds
  pool_signer_seeds discount_seeds farm_signer_seeds stake_vault_seeds : Pubkey → Seeds
  harvest_vault_seeds farmer_seeds whitelist_seeds : Pubkey → Pubkey → Seeds

-- `Ledger` is the state of the token program. An instruction names its accounts, then who
-- authorises it, then the amount.
pub record Runtime : Type 1 where
  pub Ledger : Type 0
  pub account : Ledger → Pubkey → Option TokenAccount
  pub mint : Ledger → Pubkey → Option Mint
  pub transfer : Pubkey → Pubkey → Pubkey → ℕ → Ledger → Option Ledger
  pub mint_to : Pubkey → Pubkey → Pubkey → ℕ → Ledger → Option Ledger
  pub burn : Pubkey → Pubkey → Pubkey → ℕ → Ledger → Option Ledger
  -- `initialize_account`: the account, its mint and its owner
  pub initialize_account : Pubkey → Pubkey → Pubkey → Ledger → Option Ledger
  -- `close_account`: the account and who authorises it
  pub close_account : Pubkey → Pubkey → Ledger → Option Ledger
  pub find_program_address : Seeds → Pubkey

-- The constraint `seeds = …` on an account.
unfoldable pub check_seeds : {E : Type 0} → (rt : Runtime) → Seeds → Pubkey → Result E (Unit {0})
check_seeds rt seeds key = invoke (if rt.find_program_address seeds == key then some tt else none)

-- `Account<TokenAccount>` and `Account<Mint>`, read when the instruction starts.
unfoldable pub load_account :
    {E : Type 0} → (rt : Runtime) → rt.Ledger → Pubkey → Result E TokenAccount
load_account rt ledger key = invoke (rt.account ledger key)

unfoldable pub load_mint : {E : Type 0} → (rt : Runtime) → rt.Ledger → Pubkey → Result E Mint
load_mint rt ledger key = invoke (rt.mint ledger key)
