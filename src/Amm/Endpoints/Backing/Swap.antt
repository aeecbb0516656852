-- ===== src/Amm/Endpoints/Backing/Swap.antt =====
-- The handler of a swap, and the vaults of the pool.
use solana_amm.Base.{
  ◌≡◌, ◌≢◌, ap, subst, ◌∙◌, Option, none, some, arith, ok, ◌==◌, ltb, >>=-eq-ok, ok-injective,
  invoke-eq-ok, raise_if, invoke,
}
use solana_amm.BTree.{Pubkey}
use solana_amm.Decimal.{DecimalOps}
use solana_amm.Runtime.{Runtime, pool_signer_seeds}
use solana_amm.Runtime.Laws.{RuntimeLaws}
use solana_amm.Runtime.Vaults.{Keeps, Keeps-refl, Keeps-trans, Keeps-weaken, only, nothing, both}
use solana_amm.Runtime.Vaults.Transfers.{transfer-Keeps_in, transfer-Keeps_out, mint_to-Keeps}
use solana_amm.Amm.Err.{invalid_arg, slippage_exceeded}
use solana_amm.Amm.Models.{TokenAmount, Slot}
use solana_amm.Amm.Pool.{Pool}
use solana_amm.Amm.Pool.Reserves.{IsValid}
use solana_amm.Amm.Pool.UpdateCurve.{update_curve_invariant}
use solana_amm.Amm.Endpoints.Swap.{
  SwapAccounts, calculate_toll_in_lp_tokens, SwapTokens, load_swap_accounts, check_swap_accounts,
  swap_with_fee, swap_transfers, pay_toll, handle_swap,
}
use solana_amm.Amm.Endpoints.Backing.{Backed, Backed-step, update_curve_invariant-Backed}
use solana_amm.Amm.Endpoints.Backing.Accounts.{
  Read, Checked, load_swap_accounts-Read, check_swap_accounts-Checked,
}
use solana_amm.Amm.Endpoints.Backing.Collected.{Swapped, swap_with_fee-Swapped, Swapped-Follows}

-- What a successful run of the handler went through.
record Ran (dec : DecimalOps) (rt : Runtime) (accs : SwapAccounts) (p q : Pool) (l l' : rt.Ledger)
    (sell : TokenAmount) : Type 0 where
  tokens : SwapTokens
  swapped : Pool
  bought : TokenAmount
  toll : Option TokenAmount
  paid : rt.Ledger
  transferred : rt.Ledger
  read : Read rt accs l tokens
  checked : Checked accs p tokens
  step : Swapped p swapped tokens.sell_vault.mint tokens.buy_vault.mint sell bought
  pays : rt.transfer accs.sell_wallet accs.sell_vault accs.user sell l ≡ some paid
  buys : rt.transfer accs.buy_vault accs.buy_wallet accs.pool_signer bought paid ≡ some transferred
  tolls : pay_toll rt accs toll transferred ≡ ok l'
  updates : update_curve_invariant dec swapped ≡ ok q

module _ (dec : DecimalOps) (rt : Runtime) where
  swap_transfers-eq :
      (accs : SwapAccounts) (sell bought : TokenAmount) (l : rt.Ledger) {l' : rt.Ledger}
      → swap_transfers rt accs sell bought l ≡ ok l'
      → (m : rt.Ledger) × (rt.transfer accs.sell_wallet accs.sell_vault accs.user sell l ≡ some m)
        × (rt.transfer accs.buy_vault accs.buy_wallet accs.pool_signer bought m ≡ some l')
  unfolding swap_transfers
  swap_transfers-eq accs sell bought l h =
      let (m, c1, h1) =
        >>=-eq-ok (invoke (rt.transfer accs.sell_wallet accs.sell_vault accs.user sell l)) _ h in
      (m, invoke-eq-ok _ c1, invoke-eq-ok _ h1)

  handle_swap-Ran :
      (accs : SwapAccounts) (time : Slot) (sell min_buy : TokenAmount) (p : Pool) (l : rt.Ledger)
      {q : Pool} {l' : rt.Ledger}
      → IsValid p
      → handle_swap dec rt accs time sell min_buy p l ≡ ok (q, l')
      → Ran dec rt accs p q l l' sell
  unfolding handle_swap
  handle_swap-Ran accs time sell min_buy p l {q} {l'} v h =
      let (t, c1, h1) = >>=-eq-ok (load_swap_accounts rt accs l) _ h in
      let (u2, c2, h2) = >>=-eq-ok (check_swap_accounts accs p t) _ h1 in
      let (u3, c3, h3) = >>=-eq-ok (raise_if (sell == 0) invalid_arg) _ h2 in
      let ((p1, n, f), c4, h4) =
        >>=-eq-ok (swap_with_fee dec accs time sell t.sell_vault.mint t.buy_vault.mint p) _ h3 in
      let (u5, c5, h5) = >>=-eq-ok (raise_if (ltb n min_buy) slippage_exceeded) _ h4 in
      let (m, c6, h6) = >>=-eq-ok (swap_transfers rt accs sell n l) _ h5 in
      let (toll, c7, h7) =
        >>=-eq-ok (calculate_toll_in_lp_tokens dec p1 f t.sell_vault.mint t.lp_mint.supply) _ h6 in
      let (l1, c8, h8) = >>=-eq-ok (pay_toll rt accs toll m) _ h7 in
      let (q1, c9, h9) = >>=-eq-ok (update_curve_invariant dec p1) _ h8 in
      let same : (q1, l1) ≡ (q, l') = ok-injective h9 in
      let (m1, pays, buys) = swap_transfers-eq accs sell n l c6 in
      record {
        tokens = t;
        swapped = p1;
        bought = n;
        toll = toll;
        paid = m1;
        transferred = m;
        read = load_swap_accounts-Read rt accs l c1;
        checked = check_swap_accounts-Checked accs p t v c2;
        step = swap_with_fee-Swapped dec accs time p sell t.sell_vault.mint t.buy_vault.mint v c4;
        pays = pays;
        buys = buys;
        tolls = c8 ∙ ap (λ r. ok r.1) same;
        updates = c9 ∙ ap (λ r. ok r.0) same;
      }

module _ (dec : DecimalOps) (rt : Runtime) (laws : RuntimeLaws rt) where
  pay_toll-Keeps :
      (guard : Pubkey) (accs : SwapAccounts) (toll : Option TokenAmount) (l : rt.Ledger)
      {l' : rt.Ledger}
      → pay_toll rt accs toll l ≡ ok l'
      → Keeps rt guard nothing nothing l l'
  unfolding pay_toll
  pay_toll-Keeps guard accs none l {l'} h =
      subst (Keeps rt guard nothing nothing l) (ok-injective h) (Keeps-refl rt guard l)
  pay_toll-Keeps guard accs (some n) l {l'} h =
      mint_to-Keeps rt laws guard accs.lp_mint accs.program_toll_wallet accs.pool_signer n l l'
        (invoke-eq-ok _ h)

  Ran-Backed :
      (guard : Pubkey) (accs : SwapAccounts) (p q : Pool) (l l' : rt.Ledger) (sell : TokenAmount)
      → accs.user ≢ guard
      → Backed rt guard p l
      → Ran dec rt accs p q l l' sell
      → IsValid q × Backed rt guard q l'
  Ran-Backed guard accs p q l l' sell ne backed ran =
      let keeps1 =
        transfer-Keeps_in rt laws guard accs.sell_wallet accs.sell_vault accs.user sell l ran.paid
          ne ran.pays in
      let keeps2 =
        transfer-Keeps_out rt laws guard accs.buy_vault accs.buy_wallet accs.pool_signer ran.bought
          ran.paid ran.transferred ran.buys in
      let keeps3 = pay_toll-Keeps guard accs ran.toll ran.transferred ran.tolls in
      let keeps =
        Keeps-weaken rt guard _ (only accs.sell_vault sell) _ (only accs.buy_vault ran.bought) l l'
          (λ k. omega arith) (λ k. omega arith)
          (Keeps-trans rt guard (both (only accs.sell_vault sell) nothing) nothing
            (both nothing (only accs.buy_vault ran.bought)) nothing l ran.transferred l'
            (Keeps-trans rt guard (only accs.sell_vault sell) nothing nothing
              (only accs.buy_vault ran.bought) l ran.paid ran.transferred keeps1 keeps2)
            keeps3) in
      let follows =
        Swapped-Follows rt accs p ran.swapped l ran.tokens sell ran.bought ran.read ran.checked
          ran.step in
      let done =
        Backed-step rt guard p ran.swapped (only accs.sell_vault sell)
          (only accs.buy_vault ran.bought) l l' backed keeps ran.step.shape follows in
      update_curve_invariant-Backed dec rt guard ran.swapped l' ran.updates ran.step.valid done

  -- A successful swap leaves a valid pool whose balances are all in its vaults, if so they were
  -- before, and if the user is not the pool's signer.
  pub handle_swap-Backed :
      (accs : SwapAccounts) (time : Slot) (sell min_buy : TokenAmount) (p : Pool) (l : rt.Ledger)
      {q : Pool} {l' : rt.Ledger}
      → IsValid p
      → accs.user ≢ rt.find_program_address (pool_signer_seeds accs.pool)
      → Backed rt (rt.find_program_address (pool_signer_seeds accs.pool)) p l
      → handle_swap dec rt accs time sell min_buy p l ≡ ok (q, l')
      → IsValid q × Backed rt (rt.find_program_address (pool_signer_seeds accs.pool)) q l'
  handle_swap-Backed accs time sell min_buy p l {q} {l'} v ne backed h =
      Ran-Backed (rt.find_program_address (pool_signer_seeds accs.pool)) accs p q l l' sell ne
        backed (handle_swap-Ran dec rt accs time sell min_buy p l v h)
