-- ===== src/Farming/Farm/Ring/Log.antt =====
-- The ring buffer as a log: the snapshots from the oldest to the newest.
use solana_amm.Base.{
  ℕ, suc, ◌+◌, ◌-◌, ◌≤◌, ◌<◌, ◌≡◌, ◌⊎◌, inl, inr, List, [], ◌∷◌, ◌++◌, arith, length, take, drop,
  set, ok, err, raised, panicked, u64_end, take-suc-set, drop-suc-set, drop-drop_one,
  drop-one-append, take-all, drop-all, length-set, length-drop, get_or, get_elem?-eq-get_or,
  Bool-cases, lt→ltb, le→ltb_false, ◌∙◌, some, ◌==◌, get_elem?,
}
use native.Mathlib.Decide.{dec_lt}
use native.Mathlib.Numerals.{add-one}
use mathlib.Core.List.{append_assoc}
use solana_amm.Farming.Err.{snapshots_len, insufficient_slot_time_since_last_snapshot}
use solana_amm.Farming.Farm.{TokenAmount, Slot, Snapshot, Snapshots, Farm, default_snapshot}
use solana_amm.Farming.Farm.Ring.{take_snapshot, next_tip, snapshot_window}

-- The array has its full length and the tip is an index of it.
pub record IsValid (f : Farm) : Type 0 where
  pub full : length f.snapshots.ring_buffer ≡ snapshots_len
  pub tip_in : f.snapshots.ring_buffer_tip < snapshots_len

abbrev pub log : Farm → List Snapshot
log f =
    drop (suc f.snapshots.ring_buffer_tip) f.snapshots.ring_buffer
    ++ take (suc f.snapshots.ring_buffer_tip) f.snapshots.ring_buffer

-- The newest snapshot.
abbrev pub newest : Farm → Snapshot
newest f = get_or f.snapshots.ring_buffer f.snapshots.ring_buffer_tip default_snapshot

-- A write behind the tip drops the oldest entry of the log and appends a new one.
log-write :
    (ring : List Snapshot) (tip : ℕ) (s : Snapshot)
    → suc tip < length ring
    → drop (suc (suc tip)) (set ring (suc tip) s) ++ take (suc (suc tip)) (set ring (suc tip) s)
      ≡ drop 1 (drop (suc tip) ring ++ take (suc tip) ring) ++ s ∷ []
log-write ring tip s h = rw (
  drop-suc-set ring (suc tip) s,
  take-suc-set ring (suc tip) s h,
  drop-one-append (drop (suc tip) ring) (take (suc tip) ring)
      (omega (arith, length-drop (suc tip) ring)),
  drop-drop_one ring (suc tip),
  append_assoc,
)

-- So does a write to index 0 where the tip is the last index.
log-write_first :
    (ring : List Snapshot) (tip : ℕ) (s : Snapshot)
    → length ring ≡ suc tip
    → drop 1 (set ring 0 s) ++ take 1 (set ring 0 s)
      ≡ drop 1 (drop (suc tip) ring ++ take (suc tip) ring) ++ s ∷ []
log-write_first [] tip s h = absurd (omega arith)
log-write_first (x ∷ ring) tip s h =
    rw (drop-all ring tip (omega arith), take-all ring tip (omega arith))

-- The next entry of the ring, written at the tip, appends to the log and drops its oldest entry.
log-set_next :
    (f : Farm) (s : Snapshot)
    → IsValid f
    → let ring = set f.snapshots.ring_buffer (next_tip f) s in
      drop (suc (next_tip f)) ring ++ take (suc (next_tip f)) ring ≡ drop 1 (log f) ++ s ∷ []
unfolding next_tip
log-set_next f s v = elim (Bool-cases (tip == length ring - 1)) [
  | inl last ↦ rw last (log-write_first ring tip s (ground (arith, v)))
  | inr inner ↦ rw (inner, add-one) (log-write ring tip s (ground (arith, v)))
]
  where
    open f.snapshots use {ring_buffer as ring, ring_buffer_tip as tip}

-- The snapshots once `s` is written behind the tip.
abbrev pub written : Farm → Snapshot → Snapshots
written f s = record {
  ring_buffer_tip = next_tip f;
  ring_buffer = set f.snapshots.ring_buffer (next_tip f) s;
}

next_tip-lt : (f : Farm) → IsValid f → next_tip f < length f.snapshots.ring_buffer
unfolding next_tip
next_tip-lt f v = ground arith

written-IsValid :
    (f : Farm) (s : Snapshot) → IsValid f → IsValid (record f { snapshots = written f s })
written-IsValid f s v = record {
  full = length-set f.snapshots.ring_buffer (next_tip f) s ∙ v.full;
  tip_in = omega (arith, next_tip-lt f v, v.full);
}

pub newest-eq :
    (f : Farm)
    → IsValid f
    → get_elem? f.snapshots.ring_buffer f.snapshots.ring_buffer_tip ≡ some (newest f)
newest-eq f v =
    get_elem?-eq-get_or f.snapshots.ring_buffer f.snapshots.ring_buffer_tip default_snapshot
      (omega (arith, v.full, v.tip_in))

pub take_snapshot-early :
    (clock : Slot) (balance : TokenAmount) (f : Farm)
    → IsValid f
    → (newest f).started_at + snapshot_window f < u64_end
    → clock < (newest f).started_at + snapshot_window f
    → take_snapshot clock balance f ≡ err (raised insufficient_slot_time_since_last_snapshot)
unfolding take_snapshot
take_snapshot-early clock balance f v fits early =
    rw (newest-eq f v, lt→ltb _ _ fits, lt→ltb _ _ early)

pub take_snapshot-ripe :
    (clock : Slot) (balance : TokenAmount) (f : Farm)
    → IsValid f
    → (newest f).started_at + snapshot_window f < u64_end
    → (newest f).started_at + snapshot_window f ≤ clock
    → take_snapshot clock balance f
      ≡ ok (record f { snapshots = written f (record { staked = balance; started_at = clock }) })
unfolding take_snapshot
take_snapshot-ripe clock balance f v fits ripe =
    rw (newest-eq f v, lt→ltb _ _ fits, le→ltb_false _ _ ripe, lt→ltb _ _ (next_tip-lt f v))

pub take_snapshot-overflow :
    (clock : Slot) (balance : TokenAmount) (f : Farm)
    → IsValid f
    → u64_end ≤ (newest f).started_at + snapshot_window f
    → take_snapshot clock balance f ≡ err panicked
unfolding take_snapshot
take_snapshot-overflow clock balance f v over = rw (newest-eq f v, le→ltb_false _ _ over)

-- `take_snapshot` succeeds exactly when the enforced window has passed since the newest snapshot.
-- It then appends the balance of the vault with the current slot to the log and drops the oldest
-- entry, keeps the buffer valid, and changes nothing but the snapshots.
pub take_snapshot_lem :
    (clock : Slot) (balance : TokenAmount) (f : Farm)
    → IsValid f
    → (newest f).started_at + snapshot_window f < u64_end
    → (clock < (newest f).started_at + snapshot_window f)
        × (take_snapshot clock balance f ≡ err (raised insufficient_slot_time_since_last_snapshot))
      ⊎ ((newest f).started_at + snapshot_window f ≤ clock)
        × ((s : Snapshots) × (take_snapshot clock balance f ≡ ok (record f { snapshots = s }))
            × (log (record f { snapshots = s })
                ≡ drop 1 (log f) ++ record { staked = balance; started_at = clock } ∷ [])
            × IsValid (record f { snapshots = s }))
take_snapshot_lem clock balance f v fits =
    elim (dec_lt clock ((newest f).started_at + snapshot_window f)) [
      | yes early ↦ inl (early, take_snapshot-early clock balance f v fits early)
      | no late ↦
          let ripe : (newest f).started_at + snapshot_window f ≤ clock = omega arith in
          inr (
            ripe,
            (
              written f (record { staked = balance; started_at = clock }),
              take_snapshot-ripe clock balance f v fits ripe,
              log-set_next f _ v,
              written-IsValid f _ v,
            ),
          )
    ]
