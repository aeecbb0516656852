-- ===== src/Farming/Endpoints/Emission.antt =====
-- The tokens that a new harvest period needs, and what the handler transfers for it.
use solana_amm.Base.{
  ℕ, ◌+◌, ◌-◌, ◌*◌, ◌≤◌, ◌≡◌, ◌≢◌, inl, inr, sym, ap, subst, ◌∙◌, Option, some, none, Bool,
  Bool-cases, arith, ok, ◌==◌, ltb, >>=-eq-ok, ok-injective, invoke-eq-ok, raise_if, ok_or,
  checked_add, checked_sub, checked_mul,
}
use solana_amm.BTree.{Pubkey}
use solana_amm.Runtime.{Runtime, farm_signer_seeds, harvest_vault_seeds, check_seeds, load_account}
use solana_amm.Runtime.Laws.{RuntimeLaws}
use solana_amm.Runtime.Vaults.Guarded.{Guarded, transfer-Guarded_in, transfer-Guarded_out}
use solana_amm.Farming.Err.{
  math_overflow, invalid_account_input, harvest_period_must_be_at_least_one_slot,
}
use solana_amm.Farming.Farm.{Slot, TokenAmount, HarvestPeriod, Farm}
use solana_amm.Farming.Farm.Periods.{new_harvest_period}
use solana_amm.Farming.Endpoints.Compound.{check_admin}
use solana_amm.Farming.Endpoints.Harvests.{
  HarvestAccounts, total_tokens_emitted_per_period, tokens_deposited, starting_slot, ending_slot,
  settle_emission, handle_new_harvest_period,
}
use solana_amm.Farming.Endpoints.StakeVault.{check_seeds-eq}

-- What a period emits: its rate in each of its slots, the first and the last included.
abbrev pub emitted : Slot → Slot → TokenAmount → ℕ
emitted starts_at ends_at tps = (ends_at + 1 - starts_at) * tps

abbrev pub emitted_of : Option HarvestPeriod → ℕ
emitted_of none = 0
emitted_of (some p) = emitted p.starts_at p.ends_at p.tps

-- `total_tokens_emitted_per_period` returns what the period emits.
total_tokens-eq :
    (starts_at ends_at : Slot) (tps : TokenAmount) {n : TokenAmount}
    → total_tokens_emitted_per_period (starts_at, ends_at) tps ≡ ok n
    → n ≡ emitted starts_at ends_at tps
unfolding total_tokens_emitted_per_period
total_tokens-eq starts_at ends_at tps h =
    let (length, c1, h1) = >>=-eq-ok (ok_or (checked_sub ends_at starts_at) math_overflow) _ h in
    let (slots, c2, h2) = >>=-eq-ok (ok_or (checked_add length 1) math_overflow) _ h1 in
    multiplied slots tps h2 ∙ ap (λ k. k * tps) (counted starts_at ends_at length slots c1 c2)
  where
    counted :
        (starts_at ends_at length slots : ℕ)
        → ok_or (checked_sub ends_at starts_at) math_overflow ≡ ok length
        → ok_or (checked_add length 1) math_overflow ≡ ok slots
        → slots ≡ ends_at + 1 - starts_at
    counted starts_at ends_at length slots h h' = ground arith

    multiplied :
        (slots tps : ℕ) {n : ℕ}
        → ok_or (checked_mul slots tps) math_overflow ≡ ok n
        → n ≡ slots * tps
    multiplied slots tps h = ground arith

tokens_deposited-eq :
    (o : Option HarvestPeriod) {n : TokenAmount} → tokens_deposited o ≡ ok n → n ≡ emitted_of o
unfolding tokens_deposited
tokens_deposited-eq none h = sym (ok-injective h)
tokens_deposited-eq (some p) h = total_tokens-eq p.starts_at p.ends_at p.tps h

starting_slot-le :
    (now starts_at : Slot) {from : Slot} → starting_slot now starts_at ≡ ok from → now ≤ from
unfolding starting_slot
starting_slot-le now starts_at h = ground arith

ending_slot-eq :
    (from : Slot) (length : ℕ) {until : Slot}
    → ending_slot from length ≡ ok until
    → until + 1 ≡ from + length
unfolding ending_slot
ending_slot-eq from length h = ground arith

module _ (rt : Runtime) (laws : RuntimeLaws rt) (guard : Pubkey) where
  settle_emission-Guarded :
      (accs : HarvestAccounts) (wallet : Pubkey) (balance new old m : ℕ) (l : rt.Ledger)
      {l' : rt.Ledger}
      → accs.admin ≢ guard
      → settle_emission rt accs wallet balance new old l ≡ ok l'
      → Guarded rt guard accs.harvest_vault (m + old) l
      → Guarded rt guard accs.harvest_vault (m + new) l'
  unfolding settle_emission
  settle_emission-Guarded accs wallet balance new old m l {l'} ne h held =
      elim (Bool-cases (new == old)) [
        | inl same ↦
            let equal : m + old ≡ m + new = ground arith in
            subst (λ n. Guarded rt guard accs.harvest_vault n l') equal
              (subst (Guarded rt guard accs.harvest_vault (m + old)) (ok-injective (rw same at h))
                held)
        | inr differ ↦ elim (Bool-cases (ltb new old)) [
          | inl less ↦
              let moved = invoke-eq-ok _ (rw (differ, less) at h) in
              let whole : m + old ≡ m + new + (old - new) = ground arith in
              transfer-Guarded_out rt laws guard accs.harvest_vault wallet accs.farm_signer_pda
                (old - new) (m + new) l l' moved
                (subst (λ n. Guarded rt guard accs.harvest_vault n l) whole held)
          | inr more ↦
              let (u, c1, h1) =
                >>=-eq-ok (raise_if (ltb balance (new - old)) invalid_account_input) _
                  (rw (differ, more) at h) in
              let whole : m + old + (new - old) ≡ m + new = ground arith in
              subst (λ n. Guarded rt guard accs.harvest_vault n l') whole
                (transfer-Guarded_in rt laws guard wallet accs.harvest_vault accs.admin (new - old)
                  (m + old) l l' ne (invoke-eq-ok _ h1) held)
        ]
      ]

-- The vault of the harvest of `mint` is owned by the farm's signer, no one else may take from it or
-- close it, and it holds `n` tokens at least.
abbrev pub HarvestHolds : (rt : Runtime) → Pubkey → Pubkey → ℕ → rt.Ledger → Type 0
HarvestHolds rt farm mint n l =
    Guarded rt (rt.find_program_address (farm_signer_seeds farm))
      (rt.find_program_address (harvest_vault_seeds farm mint)) n l

-- A new period `from`-`until` in place of `launch`, for which the vault was paid.
pub record Funded (rt : Runtime) (accs : HarvestAccounts) (is_limited : Bool) (now : Slot)
    (mint : Pubkey) (length : ℕ) (tps : TokenAmount) (farm changed : Farm) (l l' : rt.Ledger)
    : Type 0 where
  pub from : Slot
  pub until : Slot
  pub launch : Option HarvestPeriod
  pub not_past : now ≤ from
  pub long : until + 1 ≡ from + length
  pub stored : new_harvest_period is_limited now mint (from, until) tps farm ≡ ok (changed, launch)
  pub funds :
      (m : ℕ)
      → HarvestHolds rt accs.farm mint (m + emitted_of launch) l
      → HarvestHolds rt accs.farm mint (m + emitted from until tps) l'

module _ (rt : Runtime) (laws : RuntimeLaws rt) where
  -- A new harvest period that is created does not start in the past, is as long as asked for, and
  -- is funded: a vault that held the emission of the scheduled launch that is overwritten, if there
  -- is one, and `m` more tokens, now holds the emission of the new period and `m` more, where the
  -- admin is not the farm's signer.
  pub new_harvest_period-Funded :
      (accs : HarvestAccounts) (is_limited : Bool) (now : Slot) (wallet mint : Pubkey)
      (starts_at : Slot) (length : ℕ) (tps : TokenAmount) (farm : Farm) (l : rt.Ledger)
      {changed : Farm} {l' : rt.Ledger}
      → accs.admin ≢ rt.find_program_address (farm_signer_seeds accs.farm)
      → handle_new_harvest_period rt accs is_limited now wallet mint starts_at length tps farm l
        ≡ ok (changed, l')
      → Funded rt accs is_limited now mint length tps farm changed l l'
  unfolding handle_new_harvest_period
  new_harvest_period-Funded accs is_limited now wallet mint starts_at length tps farm l {changed}
        {l'} ne h =
      let (w, c1, h1) = >>=-eq-ok (load_account rt l wallet) _ h in
      let (v, c2, h2) = >>=-eq-ok (load_account rt l accs.harvest_vault) _ h1 in
      let (u3, c3, h3) =
        >>=-eq-ok (check_seeds rt (harvest_vault_seeds accs.farm mint) accs.harvest_vault) _ h2 in
      let (u4, c4, h4) =
        >>=-eq-ok (check_seeds rt (farm_signer_seeds accs.farm) accs.farm_signer_pda) _ h3 in
      let (u5, c5, h5) = >>=-eq-ok (check_admin accs.admin farm) _ h4 in
      let (u6, c6, h6) =
        >>=-eq-ok (raise_if (length == 0) harvest_period_must_be_at_least_one_slot) _ h5 in
      let (from, c7, h7) = >>=-eq-ok (starting_slot now starts_at) _ h6 in
      let (until, c8, h8) = >>=-eq-ok (ending_slot from length) _ h7 in
      let ((farm', launch), c9, h9) =
        >>=-eq-ok (new_harvest_period is_limited now mint (from, until) tps farm) _ h8 in
      let (new, c10, h10) = >>=-eq-ok (total_tokens_emitted_per_period (from, until) tps) _ h9 in
      let (old, c11, h11) = >>=-eq-ok (tokens_deposited launch) _ h10 in
      let (l1, c12, h12) = >>=-eq-ok (settle_emission rt accs wallet w.amount new old l) _ h11 in
      let same : (farm', l1) ≡ (changed, l') = ok-injective h12 in
      let here = check_seeds-eq rt _ _ c3 in
      let guard = rt.find_program_address (farm_signer_seeds accs.farm) in
      subst (λ (r : Farm × rt.Ledger). Funded rt accs is_limited now mint length tps farm r.0 l r.1)
        same
        (record {
          from = from;
          until = until;
          launch = launch;
          not_past = starting_slot-le now starts_at c7;
          long = ending_slot-eq from length c8;
          stored = c9;
          funds = λ m.
              subst
                (λ k.
                  Guarded rt guard k (m + emitted_of launch) l
                  → Guarded rt guard k (m + emitted from until tps) l1)
                here
                (settled accs wallet w.amount new old m l ne c12
                  (total_tokens-eq from until tps c10) (tokens_deposited-eq launch c11));
        })
    where
      settled :
          (accs : HarvestAccounts) (wallet : Pubkey) (balance new old m : ℕ) (l : rt.Ledger)
          {l' : rt.Ledger} {n o : ℕ}
          → accs.admin ≢ rt.find_program_address (farm_signer_seeds accs.farm)
          → settle_emission rt accs wallet balance new old l ≡ ok l'
          → new ≡ n
          → old ≡ o
          → Guarded rt
              (rt.find_program_address (farm_signer_seeds accs.farm))
              accs.harvest_vault
              (m + o)
              l
          → Guarded rt
              (rt.find_program_address (farm_signer_seeds accs.farm))
              accs.harvest_vault
              (m + n)
              l'
      settled accs wallet balance new old m l {l'} ne h is_new is_old held =
          subst
            (λ k.
              Guarded rt (rt.find_program_address (farm_signer_seeds accs.farm)) accs.harvest_vault
                (m + k) l')
            is_new
            (settle_emission-Guarded rt laws (rt.find_program_address (farm_signer_seeds accs.farm))
              accs wallet balance new old m l ne h
              (subst
                (λ k.
                  Guarded rt (rt.find_program_address (farm_signer_seeds accs.farm))
                    accs.harvest_vault (m + k) l)
                (sym is_old) held))
