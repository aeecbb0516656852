-- ===== src/Farming/Farm.antt =====
-- The data of `programs/farming/src/models/farm.rs` and `models.rs`. The structs `TokenAmount` and
-- `Slot` of one `u64` field are that number. A Rust array is a list, whose length is part of the
-- invariants `Log.IsValid` and `Order.IsOrdered`.
pub mod Ring
pub mod Periods
pub mod History
use solana_amm.Base.{ℕ, List, length, get_elem?, Result, unwrap}
use solana_amm.BTree.{Pubkey}
use solana_amm.Farming.Err.{Res}

abbrev pub TokenAmount : Type 0
TokenAmount = ℕ

abbrev pub Slot : Type 0
Slot = ℕ

pub record HarvestPeriod : Type 0 where
  pub tps : TokenAmount
  pub starts_at : Slot
  pub ends_at : Slot

pub record Harvest : Type 0 where
  pub mint : Pubkey
  pub vault : Pubkey
  pub periods : List HarvestPeriod

pub record Snapshot : Type 0 where
  pub staked : TokenAmount
  pub started_at : Slot

pub record Snapshots : Type 0 where
  pub ring_buffer_tip : ℕ
  pub ring_buffer : List Snapshot

pub record Farm : Type 0 where
  pub admin : Pubkey
  pub stake_mint : Pubkey
  pub stake_vault : Pubkey
  pub harvests : List Harvest
  pub snapshots : Snapshots
  pub min_snapshot_window_slots : ℕ

-- `Default` of the structs.
abbrev pub default_period : HarvestPeriod
default_period = record { tps = 0; starts_at = 0; ends_at = 0 }

abbrev pub default_snapshot : Snapshot
default_snapshot = record { staked = 0; started_at = 0 }

-- `xs[i]`, which panics out of bounds.
abbrev pub index : {A : Type 0} → List A → ℕ → Res A
index xs i = unwrap (get_elem? xs i)
