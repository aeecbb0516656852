-- ===== src/Runtime/Vaults/Guarded.antt =====
-- One account that a derived address owns, and a lower bound on its tokens.
use solana_amm.Base.{ℕ, ◌+◌, ◌≤◌, ◌≡◌, ◌≢◌, ◌∙◌, some, none, arith}
use solana_amm.BTree.{Pubkey}
use solana_amm.Runtime.{TokenAccount, Runtime}
use solana_amm.Runtime.Laws.{RuntimeLaws}
use solana_amm.Runtime.Vaults.{Keeps, only, nothing}
use solana_amm.Runtime.Vaults.Transfers.{transfer-Keeps_in, transfer-Keeps_out}

-- The account at `k` is owned by `who`, no one else may move its tokens or close it, and it holds
-- `n` tokens at least.
pub record Guarded (rt : Runtime) (who k : Pubkey) (n : ℕ) (l : rt.Ledger) : Type 0 where
  pub account : TokenAccount
  pub loaded : rt.account l k ≡ some account
  pub owner : account.owner ≡ who
  pub delegate : account.delegate ≡ none
  pub close_authority : account.close_authority ≡ none
  pub covered : n ≤ account.amount

pub Keeps-Guarded :
    (rt : Runtime) (who k : Pubkey) (g s : Pubkey → ℕ) (m n : ℕ) (l l' : rt.Ledger)
    → Keeps rt who g s l l'
    → n + s k ≤ m + g k
    → Guarded rt who k m l
    → Guarded rt who k n l'
Keeps-Guarded rt who k g s m n l l' keeps le guarded =
    let (y, ey, ky) = keeps k guarded.account guarded.loaded guarded.owner guarded.delegate in
    record {
      account = y;
      loaded = ey;
      owner = ky.owner;
      delegate = ky.delegate;
      close_authority = ky.close_authority ∙ guarded.close_authority;
      covered = omega (arith, guarded.covered, ky.amount, le);
    }

only_off : (j n k : ℕ) → k ≢ j → only j n k ≡ 0
only_off j n k off = ground arith

only_same : (k n : ℕ) → only k n k ≡ n
only_same k n = ground arith

module _ (rt : Runtime) (laws : RuntimeLaws rt) (guard : Pubkey) where
  -- A transfer that someone else authorises pays a guarded account, and one that leaves it pays
  -- out no more than its amount.
  pub transfer-Guarded_in :
      (from to who : Pubkey) (n m : ℕ) (l l' : rt.Ledger)
      → who ≢ guard
      → rt.transfer from to who n l ≡ some l'
      → Guarded rt guard to m l
      → Guarded rt guard to (m + n) l'
  transfer-Guarded_in from to who n m l l' ne h =
      Keeps-Guarded rt guard to (only to n) nothing m (m + n) l l'
        (transfer-Keeps_in rt laws guard from to who n l l' ne h) (omega (arith, only_same to n))

  pub transfer-Guarded_out :
      (from to who : Pubkey) (n m : ℕ) (l l' : rt.Ledger)
      → rt.transfer from to who n l ≡ some l'
      → Guarded rt guard from (m + n) l
      → Guarded rt guard from m l'
  transfer-Guarded_out from to who n m l l' h =
      Keeps-Guarded rt guard from nothing (only from n) (m + n) m l l'
        (transfer-Keeps_out rt laws guard from to who n l l' h) (omega (arith, only_same from n))

  -- A transfer to a guarded account from another one, whoever authorises it.
  pub transfer-Guarded_to :
      (from to who : Pubkey) (n m : ℕ) (l l' : rt.Ledger)
      → from ≢ to
      → rt.transfer from to who n l ≡ some l'
      → Guarded rt guard to m l
      → Guarded rt guard to (m + n) l'
  transfer-Guarded_to from to who n m l l' ne h g =
      let (paid, fits) = laws.transfer-to from to who n l l' g.account h ne g.loaded in
      record {
        account = record (g.account) { amount = g.account.amount + n };
        loaded = paid;
        owner = g.owner;
        delegate = g.delegate;
        close_authority = g.close_authority;
        covered = omega (arith, g.covered);
      }

  -- A transfer between any accounts by someone else.
  pub transfer-Guarded_other :
      (from to who k : Pubkey) (n m : ℕ) (l l' : rt.Ledger)
      → who ≢ guard
      → rt.transfer from to who n l ≡ some l'
      → Guarded rt guard k m l
      → Guarded rt guard k m l'
  transfer-Guarded_other from to who k n m l l' ne h =
      Keeps-Guarded rt guard k (only to n) nothing m m l l'
        (transfer-Keeps_in rt laws guard from to who n l l' ne h) (omega arith)

  -- A transfer from another account takes nothing from a guarded one, whoever authorises it.
  pub transfer-Guarded_off :
      (from to who k : Pubkey) (n m : ℕ) (l l' : rt.Ledger)
      → k ≢ from
      → rt.transfer from to who n l ≡ some l'
      → Guarded rt guard k m l
      → Guarded rt guard k m l'
  transfer-Guarded_off from to who k n m l l' ne h =
      Keeps-Guarded rt guard k nothing (only from n) m m l l'
        (transfer-Keeps_out rt laws guard from to who n l l' h)
        (omega (arith, only_off from n k ne))

-- An account that stays as it is stays guarded.
pub stays-Guarded :
    (rt : Runtime) (guard k : Pubkey) (m : ℕ) (l l' : rt.Ledger)
    → rt.account l' k ≡ rt.account l k
    → Guarded rt guard k m l
    → Guarded rt guard k m l'
stays-Guarded rt guard k m l l' same g = record {
  account = g.account;
  loaded = same ∙ g.loaded;
  owner = g.owner;
  delegate = g.delegate;
  close_authority = g.close_authority;
  covered = g.covered;
}
