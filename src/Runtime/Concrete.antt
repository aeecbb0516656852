-- ===== src/Runtime/Concrete.antt =====
-- A token program that meets `RuntimeLaws`: accounts and mints as functions of their keys.
use solana_amm.Base.{
  ℕ, ◌+◌, ◌-◌, ◌*◌, false, ◌&&◌, Option, none, some, ltb, leb, ◌==◌, if◌then◌else◌, u64_end,
}
use solana_amm.BTree.{Pubkey}
use solana_amm.Runtime.{
  TokenAccount, Mint, Seeds, Runtime, program_toll_seeds, discount_settings_seeds,
  pool_signer_seeds, discount_seeds, farm_signer_seeds, stake_vault_seeds, harvest_vault_seeds,
  farmer_seeds, whitelist_seeds,
}

pub record Ledger : Type 0 where
  pub accounts : Pubkey → Option TokenAccount
  pub mints : Pubkey → Option Mint

abbrev pub credited : ℕ → TokenAccount → TokenAccount
credited n x = record x { amount = x.amount + n }

abbrev pub debited : ℕ → TokenAccount → TokenAccount
debited n x = record x { amount = x.amount - n }

-- The value at one key is replaced.
abbrev pub at : {A : Type 0} → Pubkey → A → (Pubkey → Option A) → Pubkey → Option A
at k a f j = if j == k then some a else f j

unfoldable pub move : Pubkey → Pubkey → ℕ → Ledger → TokenAccount → TokenAccount → Option Ledger
move from to n l x y =
    if from == to
    then some l
    else if ltb (y.amount + n) u64_end
    then some (record l { accounts = at to (credited n y) (at from (debited n x) l.accounts) })
    else none

unfoldable pub transfer_loaded :
    Pubkey
    → Pubkey
    → Pubkey
    → ℕ
    → Ledger
    → Option TokenAccount
    → Option TokenAccount
    → Option Ledger
transfer_loaded from to who n l none oy = none
transfer_loaded from to who n l (some x) none = none
transfer_loaded from to who n l (some x) (some y) =
    if leb n x.amount && (x.owner == who) then move from to n l x y else none

unfoldable pub transfer : Pubkey → Pubkey → Pubkey → ℕ → Ledger → Option Ledger
transfer from to who n l = transfer_loaded from to who n l (l.accounts from) (l.accounts to)

unfoldable pub mint_to_loaded :
    Pubkey → Pubkey → ℕ → Ledger → Option Mint → Option TokenAccount → Option Ledger
mint_to_loaded mint to n l none ox = none
mint_to_loaded mint to n l (some m) none = none
mint_to_loaded mint to n l (some m) (some x) = some (record {
  accounts = at to (credited n x) l.accounts;
  mints = at mint (record m { supply = m.supply + n }) l.mints;
})

unfoldable pub mint_to : Pubkey → Pubkey → Pubkey → ℕ → Ledger → Option Ledger
mint_to mint to who n l = mint_to_loaded mint to n l (l.mints mint) (l.accounts to)

unfoldable pub burn_loaded :
    Pubkey → Pubkey → Pubkey → ℕ → Ledger → Option Mint → Option TokenAccount → Option Ledger
burn_loaded mint from who n l none ox = none
burn_loaded mint from who n l (some m) none = none
burn_loaded mint from who n l (some m) (some x) =
    if leb n x.amount && ((x.mint == mint) && (x.owner == who))
    then some (record {
      accounts = at from (debited n x) l.accounts;
      mints = at mint (record m { supply = m.supply - n }) l.mints;
    })
    else none

unfoldable pub burn : Pubkey → Pubkey → Pubkey → ℕ → Ledger → Option Ledger
burn mint from who n l = burn_loaded mint from who n l (l.mints mint) (l.accounts from)

unfoldable pub initialize_account : Pubkey → Pubkey → Pubkey → Ledger → Option Ledger
initialize_account key mint owner l = some (record l {
  accounts =
      at key
        (record {
          mint = mint;
          owner = owner;
          amount = 0;
          delegate = none;
          close_authority = none;
          is_frozen = false;
        })
        l.accounts;
})

unfoldable pub close_account : Pubkey → Pubkey → Ledger → Option Ledger
close_account key who l =
    some (record l { accounts = λ j. if j == key then none else l.accounts j })

-- Addresses that differ for different small keys.
unfoldable pub derived : Seeds → Pubkey
derived program_toll_seeds = 1_000_001
derived discount_settings_seeds = 1_000_002
derived (pool_signer_seeds k) = 2_000_000 + k
derived (discount_seeds k) = 3_000_000 + k
derived (farm_signer_seeds k) = 4_000_000 + k
derived (stake_vault_seeds k) = 5_000_000 + k
derived (harvest_vault_seeds k j) = 6_000_000 + 1000 * k + j
derived (farmer_seeds k j) = 7_000_000 + 1000 * k + j
derived (whitelist_seeds k j) = 8_000_000 + 1000 * k + j

unfoldable pub simple : Runtime
unfolding transfer transfer_loaded mint_to mint_to_loaded burn burn_loaded initialize_account
    close_account derived move
simple = record {
  Ledger = Ledger;
  account = λ l k. l.accounts k;
  mint = λ l k. l.mints k;
  transfer = transfer;
  mint_to = mint_to;
  burn = burn;
  initialize_account = initialize_account;
  close_account = close_account;
  find_program_address = derived;
}

unfoldable pub on_simple : Ledger → simple.Ledger
unfolding simple
on_simple l = l
