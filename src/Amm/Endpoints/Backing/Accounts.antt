-- ===== src/Amm/Endpoints/Backing/Accounts.antt =====
-- The constraints on the accounts of a swap, and what the handler may rely on.
use solana_amm.Base.{
  ◌≡◌, ◌≢◌, ap, ◌∙◌, Option, none, some, not, true, false, arith, ok, >>=-eq-ok, ok-injective,
  invoke-eq-ok, raise_if-eq-ok,
}
use solana_amm.BTree.{Pubkey}
use solana_amm.Runtime.{
  TokenAccount, Seeds, Runtime, pool_signer_seeds, discount_seeds, check_seeds, load_account,
  load_mint,
}
use solana_amm.Amm.Err.{AmmError}
use solana_amm.Amm.Pool.{Pool, reserve_vault}
use solana_amm.Amm.Pool.Reserves.{active, IsValid}
use solana_amm.Amm.Endpoints.Swap.{
  SwapAccounts, is_some_of, SwapTokens, load_swap_accounts, check_swap_mints, check_reserve_vault,
  check_swap_accounts,
}
use solana_amm.Amm.Endpoints.Backing.{vault_of, reserve_vault-listed}

-- What the instruction read.
pub record Read (rt : Runtime) (accs : SwapAccounts) (l : rt.Ledger) (t : SwapTokens) : Type 0 where
  pub signer : accs.pool_signer ≡ rt.find_program_address (pool_signer_seeds accs.pool)
  pub sell_loaded : rt.account l accs.sell_vault ≡ some t.sell_vault
  pub buy_loaded : rt.account l accs.buy_vault ≡ some t.buy_vault

-- What the constraints on the accounts leave to rely on.
pub record Checked (accs : SwapAccounts) (p : Pool) (t : SwapTokens) : Type 0 where
  pub different : t.sell_vault.mint ≢ t.buy_vault.mint
  pub sell_listed : vault_of t.sell_vault.mint (active p) ≡ some accs.sell_vault
  pub buy_listed : vault_of t.buy_vault.mint (active p) ≡ some accs.buy_vault

is_true : (o : Option Pubkey) (k : Pubkey) → not (is_some_of o k) ≡ false → is_some_of o k ≡ true
is_true none k h = cc
is_true (some j) k h = ground arith

module _ (rt : Runtime) where
  pub check_seeds-eq :
      (s : Seeds) (k : Pubkey) {u : Unit {0}}
      → check_seeds {E = AmmError} rt s k ≡ ok u
      → k ≡ rt.find_program_address s
  unfolding check_seeds
  check_seeds-eq s k h = ground arith

  pub load_account-eq :
      (l : rt.Ledger) (k : Pubkey) {x : TokenAccount}
      → load_account {E = AmmError} rt l k ≡ ok x
      → rt.account l k ≡ some x
  unfolding load_account
  load_account-eq l k h = invoke-eq-ok _ h

  pub load_swap_accounts-Read :
      (accs : SwapAccounts) (l : rt.Ledger) {t : SwapTokens}
      → load_swap_accounts rt accs l ≡ ok t
      → Read rt accs l t
  unfolding load_swap_accounts
  load_swap_accounts-Read accs l {t} h =
      let (u1, c1, h1) = >>=-eq-ok (check_seeds rt (discount_seeds accs.user) accs.discount) _ h in
      let (u2, c2, h2) =
        >>=-eq-ok (check_seeds rt (pool_signer_seeds accs.pool) accs.pool_signer) _ h1 in
      let (sw, c3, h3) = >>=-eq-ok (load_account rt l accs.sell_wallet) _ h2 in
      let (bw, c4, h4) = >>=-eq-ok (load_account rt l accs.buy_wallet) _ h3 in
      let (sv, c5, h5) = >>=-eq-ok (load_account rt l accs.sell_vault) _ h4 in
      let (bv, c6, h6) = >>=-eq-ok (load_account rt l accs.buy_vault) _ h5 in
      let (lp, c7, h7) = >>=-eq-ok (load_mint rt l accs.lp_mint) _ h6 in
      let (tw, c8, h8) = >>=-eq-ok (load_account rt l accs.program_toll_wallet) _ h7 in
      let same = ok-injective h8 in
      record {
        signer = check_seeds-eq _ _ c2;
        sell_loaded = load_account-eq l _ c5 ∙ ap (λ z. some z.sell_vault) same;
        buy_loaded = load_account-eq l _ c6 ∙ ap (λ z. some z.buy_vault) same;
      }

check_swap_mints-different :
    (t : SwapTokens) {u : Unit {0}}
    → check_swap_mints t ≡ ok u
    → t.sell_vault.mint ≢ t.buy_vault.mint
unfolding check_swap_mints
check_swap_mints-different t h = ground arith

check_reserve_vault-listed :
    (p : Pool) (key : Pubkey) (x : TokenAccount) {u : Unit {0}}
    → IsValid p
    → check_reserve_vault p key x ≡ ok u
    → vault_of x.mint (active p) ≡ some key
unfolding check_reserve_vault
check_reserve_vault-listed p key x v h =
    let (o, c1, h1) = >>=-eq-ok (reserve_vault p x.mint) _ h in
    reserve_vault-listed p x.mint key v c1 (is_true o key (raise_if-eq-ok _ _ h1))

pub check_swap_accounts-Checked :
    (accs : SwapAccounts) (p : Pool) (t : SwapTokens) {u : Unit {0}}
    → IsValid p
    → check_swap_accounts accs p t ≡ ok u
    → Checked accs p t
unfolding check_swap_accounts
check_swap_accounts-Checked accs p t v h =
    let (u1, c1, h1) = >>=-eq-ok (check_swap_mints t) _ h in
    let (u2, c2, h2) = >>=-eq-ok (check_reserve_vault p accs.sell_vault t.sell_vault) _ h1 in
    let (u3, c3, h3) = >>=-eq-ok (check_reserve_vault p accs.buy_vault t.buy_vault) _ h2 in
    record {
      different = check_swap_mints-different t c1;
      sell_listed = check_reserve_vault-listed p _ t.sell_vault v c2;
      buy_listed = check_reserve_vault-listed p _ t.buy_vault v c3;
    }
