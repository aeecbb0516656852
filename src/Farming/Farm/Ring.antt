-- ===== src/Farming/Farm/Ring.antt =====
-- The ring buffer of snapshots: the methods of `Farm` that read and write it.
pub mod Log
pub mod Order
pub mod Walk
pub mod Search
pub mod After
use Prim.Native.Nat.{compare, Ordering}
use mathlib.Core.List.{reverse}
use solana_amm.Base.{
  ℕ, ◌+◌, ◌-◌, Bool, Option, none, some, List, [], ◌∷◌, ◌++◌, map, ltb, leb, ◌==◌, if◌then◌else◌,
  length, set, take, drop, find, ok, ◌>>=◌, ◌>>◌, raise_if, assert, unwrap, checked_add,
  checked_sub,
}
use solana_amm.Farming.Err.{
  Res, snapshots_len, min_snapshot_window_slots_default, insufficient_slot_time_since_last_snapshot,
}
use solana_amm.Farming.Farm.{TokenAmount, Slot, Snapshot, Snapshots, Farm, index}

unfoldable pub latest_snapshot : Farm → Res Snapshot
latest_snapshot self = index self.snapshots.ring_buffer self.snapshots.ring_buffer_tip

unfoldable pub oldest_snapshot_index : Farm → ℕ
oldest_snapshot_index self =
    if self.snapshots.ring_buffer_tip == snapshots_len - 1
    then 0
    else self.snapshots.ring_buffer_tip + 1

unfoldable pub oldest_snapshot : Farm → Res Snapshot
oldest_snapshot self = index self.snapshots.ring_buffer (oldest_snapshot_index self)

-- `.iter().enumerate()`
unfoldable pub enumerate_from : ℕ → List Snapshot → List (ℕ × Snapshot)
enumerate_from i [] = []
enumerate_from i (s ∷ ss) = (i, s) ∷ enumerate_from (i + 1) ss

-- `.rev().cycle().skip(skip).take(count)`. Where neither `skip` nor `count` is greater than the
-- length, the infinite repetition is read in its first two rounds only.
unfoldable pub rev_cycle_skip_take : {A : Type 0} → ℕ → ℕ → List A → List A
rev_cycle_skip_take skip count xs = take count (drop skip (reverse xs ++ reverse xs))

-- `consts::SNAPSHOTS_LEN - tip - 1`, which panics below zero.
unfoldable pub inverted_tip : Farm → Res ℕ
inverted_tip self = do
  rest ← unwrap (checked_sub snapshots_len self.snapshots.ring_buffer_tip)
  unwrap (checked_sub rest 1)

-- The index of the newest snapshot that started at `slot` or before.
unfoldable pub newest_index_until : Farm → Slot → Res (Option ℕ)
newest_index_until self slot = do
  skip ← inverted_tip self
  let walk = rev_cycle_skip_take skip snapshots_len (enumerate_from 0 self.snapshots.ring_buffer)
  ok (elim (find (λ e. leb e.1.started_at slot) walk) [ none ↦ none | some e ↦ some e.0 ])

unfoldable pub snapshot_behind : Farm → Option ℕ → Res (Option Snapshot)
snapshot_behind self none = ok none
snapshot_behind self (some pos) = do
  s ← index self.snapshots.ring_buffer (if pos == snapshots_len - 1 then 0 else pos + 1)
  ok (some s)

unfoldable pub first_snapshot_after : Farm → Slot → Res (Option Snapshot)
first_snapshot_after self slot = do
  latest ← latest_snapshot self
  if leb latest.started_at slot
      then ok none
      else (newest_index_until self slot >>= snapshot_behind self)

-- How many snapshots stand from index `oldest` up to the tip, round the end of the buffer.
unfoldable pub snapshots_count : ℕ → ℕ → ℕ
snapshots_count oldest tip = elim (compare oldest tip) [
  | Ordering.lt ↦ tip - oldest + 1
  | Ordering.eq ↦ 1
  | Ordering.gt ↦ tip + (snapshots_len - oldest) + 1
]

-- The iterator's items, from the newest to the oldest.
unfoldable pub get_window_snapshots_eligible_to_harvest : Farm → Slot → Res (List Snapshot)
get_window_snapshots_eligible_to_harvest self calculate_next_harvest_from = do
  skip ← inverted_tip self
  found ← newest_index_until self calculate_next_harvest_from
  let oldest : ℕ = elim found [ none ↦ oldest_snapshot_index self | some i ↦ i ]
  let eligible_snapshots_count = snapshots_count oldest self.snapshots.ring_buffer_tip
  ok (rev_cycle_skip_take skip eligible_snapshots_count self.snapshots.ring_buffer)

-- The window that `take_snapshot` enforces.
unfoldable pub snapshot_window : Farm → ℕ
snapshot_window self =
    if self.min_snapshot_window_slots == 0
    then min_snapshot_window_slots_default
    else self.min_snapshot_window_slots

unfoldable pub next_tip : Farm → ℕ
next_tip self =
    if self.snapshots.ring_buffer_tip == length self.snapshots.ring_buffer - 1
    then 0
    else self.snapshots.ring_buffer_tip + 1

unfoldable pub take_snapshot : Slot → TokenAmount → Farm → Res Farm
take_snapshot clock stake_vault self = do
  last ← index self.snapshots.ring_buffer self.snapshots.ring_buffer_tip
  earliest ← unwrap (checked_add last.started_at (snapshot_window self))
  raise_if (ltb clock earliest) insufficient_slot_time_since_last_snapshot
  let tip = next_tip self
  assert (ltb tip (length self.snapshots.ring_buffer))
  ok (record self {
    snapshots = record {
      ring_buffer_tip = tip;
      ring_buffer =
          set self.snapshots.ring_buffer tip (record { staked = stake_vault; started_at = clock });
    };
  })
