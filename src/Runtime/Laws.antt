-- ===== src/Runtime/Laws.antt =====
-- What the theorems rely on in the token program: what an instruction that succeeds has done to
-- the accounts, and who authorised it.
use solana_amm.Base.{ℕ, ◌+◌, ◌-◌, ◌≤◌, ◌<◌, ◌≡◌, ◌≢◌, ◌⊎◌, none, some, u64_end}
use solana_amm.BTree.{Pubkey}
use solana_amm.Runtime.{TokenAccount, Mint, Runtime}

-- An account from which `n` tokens went: whoever may move them, no one new may.
pub record Debited (n : ℕ) (x y : TokenAccount) : Type 0 where
  pub mint : y.mint ≡ x.mint
  pub owner : y.owner ≡ x.owner
  pub covered : n ≤ x.amount
  pub amount : y.amount ≡ x.amount - n
  pub delegate : (y.delegate ≡ x.delegate) ⊎ (y.delegate ≡ none)
  pub close_authority : y.close_authority ≡ x.close_authority

-- A transfer between two accounts moves the amount and leaves every other account, and one from
-- an account to itself changes no balance; the owner or the delegate of the source authorised it.
-- Minting adds to an account and to the supply, burning takes from both. Opening or closing an
-- account leaves every other account.
pub record RuntimeLaws (rt : Runtime) : Type 0 where
  pub transfer-authority :
      (from to who : Pubkey) (n : ℕ) (l l' : rt.Ledger)
      → rt.transfer from to who n l ≡ some l'
      → (x : TokenAccount) × (rt.account l from ≡ some x)
        × (n ≤ x.amount)
        × ((x.owner ≡ who) ⊎ (x.delegate ≡ some who))
  pub transfer-from :
      (from to who : Pubkey) (n : ℕ) (l l' : rt.Ledger) (x : TokenAccount)
      → rt.transfer from to who n l ≡ some l'
      → from ≢ to
      → rt.account l from ≡ some x
      → (y : TokenAccount) × (rt.account l' from ≡ some y) × Debited n x y
  pub transfer-to :
      (from to who : Pubkey) (n : ℕ) (l l' : rt.Ledger) (x : TokenAccount)
      → rt.transfer from to who n l ≡ some l'
      → from ≢ to
      → rt.account l to ≡ some x
      → (rt.account l' to ≡ some (record x { amount = x.amount + n })) × (x.amount + n < u64_end)
  pub transfer-self :
      (from who : Pubkey) (n : ℕ) (l l' : rt.Ledger) (x : TokenAccount)
      → rt.transfer from from who n l ≡ some l'
      → rt.account l from ≡ some x
      → rt.account l' from ≡ some x
  pub transfer-other :
      (from to who : Pubkey) (n : ℕ) (l l' : rt.Ledger) (k : Pubkey)
      → rt.transfer from to who n l ≡ some l'
      → k ≢ from
      → k ≢ to
      → rt.account l' k ≡ rt.account l k
  pub transfer-mint :
      (from to who : Pubkey) (n : ℕ) (l l' : rt.Ledger) (m : Pubkey)
      → rt.transfer from to who n l ≡ some l'
      → rt.mint l' m ≡ rt.mint l m
  pub mint_to-account :
      (mint to who : Pubkey) (n : ℕ) (l l' : rt.Ledger) (x : TokenAccount)
      → rt.mint_to mint to who n l ≡ some l'
      → rt.account l to ≡ some x
      → rt.account l' to ≡ some (record x { amount = x.amount + n })
  pub mint_to-other :
      (mint to who : Pubkey) (n : ℕ) (l l' : rt.Ledger) (k : Pubkey)
      → rt.mint_to mint to who n l ≡ some l'
      → k ≢ to
      → rt.account l' k ≡ rt.account l k
  pub mint_to-supply :
      (mint to who : Pubkey) (n : ℕ) (l l' : rt.Ledger) (m : Mint)
      → rt.mint_to mint to who n l ≡ some l'
      → rt.mint l mint ≡ some m
      → rt.mint l' mint ≡ some (record m { supply = m.supply + n })
  pub burn-authority :
      (mint from who : Pubkey) (n : ℕ) (l l' : rt.Ledger)
      → rt.burn mint from who n l ≡ some l'
      → (x : TokenAccount) × (rt.account l from ≡ some x)
        × (n ≤ x.amount)
        × (x.mint ≡ mint)
        × ((x.owner ≡ who) ⊎ (x.delegate ≡ some who))
  pub burn-other :
      (mint from who : Pubkey) (n : ℕ) (l l' : rt.Ledger) (k : Pubkey)
      → rt.burn mint from who n l ≡ some l'
      → k ≢ from
      → rt.account l' k ≡ rt.account l k
  pub burn-supply :
      (mint from who : Pubkey) (n : ℕ) (l l' : rt.Ledger) (m : Mint)
      → rt.burn mint from who n l ≡ some l'
      → rt.mint l mint ≡ some m
      → rt.mint l' mint ≡ some (record m { supply = m.supply - n })
  pub initialize_account-other :
      (key mint owner : Pubkey) (l l' : rt.Ledger) (k : Pubkey)
      → rt.initialize_account key mint owner l ≡ some l'
      → k ≢ key
      → rt.account l' k ≡ rt.account l k
  pub close_account-other :
      (key who : Pubkey) (l l' : rt.Ledger) (k : Pubkey)
      → rt.close_account key who l ≡ some l'
      → k ≢ key
      → rt.account l' k ≡ rt.account l k
