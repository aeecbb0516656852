-- ===== src/Farming/Endpoints/Claim.antt =====
-- `programs/farming/src/endpoints/claim_eligible_harvest.rs` and `airdrop.rs`, with
-- `Farmer::get_harvest_mut`. The remaining accounts of a claim are harvest vaults and the farmer's
-- wallets in turn.
use solana_amm.Base.{
  not, ◌%◌, map, ltb, ◌==◌, ◌||◌, if◌then◌else◌, Option, none, some, List, [], ◌∷◌, find,
  replace_first, length, ok, err, panicked, ◌>>=◌, ◌>>◌, raise_if, invoke, ok_or, try_fold,
  checked_add,
}
use solana_amm.BTree.{Pubkey, BTreeMap, collect, get, insert}
use solana_amm.Runtime.{
  Runtime, farmer_seeds, farm_signer_seeds, harvest_vault_seeds, check_seeds, load_account,
}
use solana_amm.Farming.Err.{Res, invalid_arg, invalid_account_input, math_overflow}
use solana_amm.Farming.Farm.{TokenAmount}
use solana_amm.Farming.Farmer.{Farmer, AvailableHarvest, set_harvests}
use solana_amm.Farming.Farmer.Update.{farmer_harvest_entry}

pub record ClaimAccounts : Type 0 where
  pub authority : Pubkey
  pub farmer : Pubkey
  pub farm_signer_pda : Pubkey
  pub remaining_accounts : List Pubkey

-- `chunks(2)` with the two indexings of a chunk, which panic on an odd account at the end.
unfoldable pub vault_wallet_pairs : List Pubkey → Res (List (Pubkey × Pubkey))
vault_wallet_pairs [] = ok []
vault_wallet_pairs (vault ∷ []) = err panicked
vault_wallet_pairs (vault ∷ wallet ∷ rest) =
    vault_wallet_pairs rest >>= λ pairs. ok ((vault, wallet) ∷ pairs)

-- `harvests.get_mut(&mint).filter(|h| h.amount > 0)`, read.
unfoldable pub positive : Option TokenAmount → Option TokenAmount
positive none = none
positive (some n) = if ltb 0 n then some n else none

-- What `Farmer::get_harvest_mut` refers to, and a change made through it. The error is that of a
-- mint that the farmer has no harvest of.
unfoldable pub get_harvest_mut : Pubkey → Farmer → Res AvailableHarvest
get_harvest_mut mint self = ok_or (find (λ h. h.mint == mint) self.harvests) invalid_account_input

unfoldable pub set_harvest : Pubkey → TokenAmount → Farmer → Res Farmer
set_harvest mint tokens self = do
  harvests ←
      ok_or (replace_first (λ h. h.mint == mint) (λ h. record h { tokens = tokens }) self.harvests)
        invalid_account_input
  ok (record self { harvests = harvests })

pub record AirdropAccounts : Type 0 where
  pub wallet_authority : Pubkey
  pub harvest_wallet : Pubkey
  pub harvest_vault : Pubkey

module _ (rt : Runtime) where
  -- The amount is paid out of the vault, and the map remembers that nothing is left to claim.
  unfoldable pub pay_harvest :
      Pubkey
      → Pubkey × Pubkey
      → Pubkey
      → Option TokenAmount
      → BTreeMap TokenAmount × rt.Ledger
      → Res (BTreeMap TokenAmount × rt.Ledger)
  pay_harvest signer (vault, wallet) mint none (harvests, ledger) = ok (harvests, ledger)
  pay_harvest signer (vault, wallet) mint (some amount) (harvests, ledger) = do
    paid ← invoke (rt.transfer vault wallet signer amount ledger)
    ok (insert mint 0 harvests, paid)

  -- One round of the loop.
  unfoldable pub claim_pair :
      Pubkey
      → Pubkey
      → BTreeMap TokenAmount × rt.Ledger
      → Pubkey × Pubkey
      → Res (BTreeMap TokenAmount × rt.Ledger)
  claim_pair farm signer (harvests, ledger) (vault, wallet) = do
    loaded ← load_account rt ledger vault
    raise_if (not (rt.find_program_address (harvest_vault_seeds farm loaded.mint) == vault))
        invalid_account_input
    pay_harvest signer (vault, wallet) loaded.mint (positive (get loaded.mint harvests))
        (harvests, ledger)

  unfoldable pub claim_eligible_harvest :
      ClaimAccounts → Farmer → rt.Ledger → Res (Farmer × rt.Ledger)
  claim_eligible_harvest accs farmer ledger = do
    check_seeds rt (farmer_seeds farmer.farm accs.authority) accs.farmer
    check_seeds rt (farm_signer_seeds farmer.farm) accs.farm_signer_pda
    raise_if
        ((length accs.remaining_accounts == 0) || not (length accs.remaining_accounts % 2 == 0))
        invalid_account_input
    pairs ← vault_wallet_pairs accs.remaining_accounts
    (harvests, paid) ←
        try_fold (claim_pair farmer.farm accs.farm_signer_pda)
          (collect (map farmer_harvest_entry farmer.harvests), ledger) pairs
    ok (set_harvests harvests farmer, paid)

  unfoldable pub handle_airdrop :
      AirdropAccounts → TokenAmount → Farmer → rt.Ledger → Res (Farmer × rt.Ledger)
  handle_airdrop accs airdrop farmer ledger = do
    harvest_wallet ← load_account rt ledger accs.harvest_wallet
    check_seeds rt (harvest_vault_seeds farmer.farm harvest_wallet.mint) accs.harvest_vault
    raise_if (airdrop == 0) invalid_arg
    harvest ← get_harvest_mut harvest_wallet.mint farmer
    increased ← ok_or (checked_add harvest.tokens airdrop) math_overflow
    changed ← set_harvest harvest_wallet.mint increased farmer
    paid ←
        invoke
          (rt.transfer accs.harvest_wallet accs.harvest_vault accs.wallet_authority airdrop ledger)
    ok (changed, paid)
