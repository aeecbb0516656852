-- ===== src/Farming/Farm/Ring/After.antt =====
-- `first_snapshot_after` against the chronological log.
use mathlib.Core.List.{reverse}
use native.Mathlib.Decide.{dec_le}
use solana_amm.Base.{
  ℕ, suc, ◌-◌, ◌≤◌, ◌<◌, ◌≡◌, inl, inr, refl, sym, ap, ◌∙◌, List, [], ◌∷◌, ◌++◌, none, some, arith,
  length, take, drop, find, ok, ltb, if◌then◌else◌, Bool-cases, get_or, take-append-drop,
  length-append, length-take, length-drop, le→leb, lt→leb_false, lt→ltb, le→ltb_false,
}
use solana_amm.Farming.Err.{snapshots_len}
use solana_amm.Farming.Farm.{Slot, Snapshot, Farm, default_snapshot}
use solana_amm.Farming.Farm.Ring.{
  enumerate_from, rev_cycle_skip_take, inverted_tip, newest_index_until, snapshot_behind,
  first_snapshot_after, latest_snapshot,
}
use solana_amm.Farming.Farm.Ring.Log.{IsValid, log, newest, newest-eq}
use solana_amm.Farming.Farm.Ring.Order.{Rises, IsChronological, log-snoc}
use solana_amm.Farming.Farm.Ring.Search.{
  find_last, find-reverse, until, later, find_last_later, find-later-none, find-later_snoc,
  behind_last,
}
use solana_amm.Farming.Farm.Ring.Walk.{
  Entry, snapshots_of, Linked, Linked-enumerate_from, Linked-append, walk_back, take-length,
  length-enumerate_from, take-enumerate_from, drop-enumerate_from, snapshots_of-enumerate_from,
  snapshots_of-append,
}

-- The entries of the log with their indices in the buffer.
indexed : Farm → List Entry
indexed f = enumerate_from (suc tip) (drop (suc tip) ring) ++ enumerate_from 0 (take (suc tip) ring)
  where
    open f.snapshots use {ring_buffer as ring, ring_buffer_tip as tip}

snapshots_of-indexed : (f : Farm) → snapshots_of (indexed f) ≡ log f
unfolding indexed
snapshots_of-indexed f =
    rw (snapshots_of-append, snapshots_of-enumerate_from, snapshots_of-enumerate_from)

length-indexed : (f : Farm) → IsValid f → length (indexed f) ≡ snapshots_len
unfolding indexed
length-indexed f v =
    rw (length-append, length-enumerate_from, length-enumerate_from)
      (omega (
        arith,
        v.full,
        v.tip_in,
        length-drop (suc f.snapshots.ring_buffer_tip) f.snapshots.ring_buffer,
        length-take (suc f.snapshots.ring_buffer_tip) f.snapshots.ring_buffer,
      ))

-- The walk of the source, over the entries with their indices.
walk-eq :
    (f : Farm)
    → IsValid f
    → rev_cycle_skip_take
        (snapshots_len - f.snapshots.ring_buffer_tip - 1)
        snapshots_len
        (enumerate_from 0 f.snapshots.ring_buffer)
      ≡ reverse (indexed f)
unfolding indexed
walk-eq f v =
    let entries = enumerate_from 0 ring in
    let full : length entries ≡ snapshots_len = length-enumerate_from 0 ring ∙ v.full in
    ap (λ n. rev_cycle_skip_take (n - tip - 1) snapshots_len entries) (sym full)
    ∙ (walk_back entries tip snapshots_len (omega (arith, full, v.tip_in)) (omega (arith, full))
        ∙ rw
            (
              drop-enumerate_from (suc tip) 0 (suc tip) ring (omega arith),
              take-enumerate_from (suc tip) 0 ring,
            )
            (unfold indexed in take-length (indexed f) snapshots_len (length-indexed f v)))
  where
    open f.snapshots use {ring_buffer as ring, ring_buffer_tip as tip}

newest_index_until-eq :
    (f : Farm) (slot : Slot)
    → IsValid f
    → newest_index_until f slot
      ≡ ok (elim (find_last (until slot) (indexed f)) [ none ↦ none | some e ↦ some e.0 ])
unfolding newest_index_until inverted_tip
newest_index_until-eq f slot v = rw (
  le→leb tip snapshots_len (omega (arith, v.tip_in)),
  le→leb 1 (snapshots_len - tip) (omega (arith, v.tip_in)),
  walk-eq f v,
  find-reverse (until slot) (indexed f),
)
  where
    open f.snapshots use {ring_buffer_tip as tip}

Linked-log :
    (ring : List Snapshot) (tip : ℕ)
    → length ring ≡ snapshots_len
    → tip < snapshots_len
    → Linked ring
        (enumerate_from (suc tip) (drop (suc tip) ring) ++ enumerate_from 0 (take (suc tip) ring))
unfolding enumerate_from
Linked-log [] tip full h = absurd (omega arith)
Linked-log (x ∷ xs) tip full h =
    Linked-append (x ∷ xs) (suc tip) (drop tip xs) x _ refl (omega (arith, length-drop tip xs)) refl
      (Linked-enumerate_from (x ∷ xs) 0 (take (suc tip) (x ∷ xs)) (drop tip xs)
        (sym (take-append-drop (suc tip) (x ∷ xs))) (omega (arith, length-take tip xs)))

Linked-indexed : (f : Farm) → IsValid f → Linked f.snapshots.ring_buffer (indexed f)
unfolding indexed
Linked-indexed f v = Linked-log f.snapshots.ring_buffer f.snapshots.ring_buffer_tip v.full v.tip_in

first_after-none :
    (f : Farm) (slot : Slot)
    → IsValid f
    → (newest f).started_at ≤ slot
    → first_snapshot_after f slot ≡ ok none
unfolding first_snapshot_after latest_snapshot
first_after-none f slot v h = rw (newest-eq f v, le→leb _ _ h)

first_after-search :
    (f : Farm) (slot : Slot)
    → IsValid f
    → slot < (newest f).started_at
    → first_snapshot_after f slot
      ≡ snapshot_behind f
          (elim (find_last (until slot) (indexed f)) [ none ↦ none | some e ↦ some e.0 ])
unfolding first_snapshot_after latest_snapshot
first_after-search f slot v h =
    rw (newest-eq f v, lt→leb_false _ _ h, newest_index_until-eq f slot v)

-- The two outcomes of the search, over any entries that are linked and in order.
search-some :
    (f : Farm) (slot : Slot) (o : List Entry) (s : Snapshot)
    → Linked f.snapshots.ring_buffer o
    → Rises (snapshots_of o)
    → (get_or (snapshots_of o) 0 default_snapshot).started_at ≤ slot
    → find (later slot) (snapshots_of o) ≡ some s
    → snapshot_behind f (elim (find_last (until slot) o) [ none ↦ none | some e ↦ some e.0 ])
      ≡ ok (some s)
unfolding snapshot_behind
search-some f slot [] s l r h k = cc
search-some f slot (x ∷ o) s l r h k =
    let (e, last, next) = behind_last slot f.snapshots.ring_buffer x o s l r h k in rw (last, next)

search-none :
    (f : Farm) (slot : Slot) (o : List Entry)
    → Rises (snapshots_of o)
    → slot < (get_or (snapshots_of o) 0 default_snapshot).started_at
    → snapshot_behind f (elim (find_last (until slot) o) [ none ↦ none | some e ↦ some e.0 ])
      ≡ ok none
unfolding snapshot_behind
search-none f slot [] r h = absurd (omega arith)
search-none f slot (x ∷ o) r h = rw (find_last_later slot x o h r)

-- The oldest snapshot.
abbrev pub oldest : Farm → Snapshot
oldest f = get_or (log f) 0 default_snapshot

pub find-log-none :
    (f : Farm) (slot : Slot)
    → IsChronological f
    → (newest f).started_at ≤ slot
    → find (later slot) (log f) ≡ none
find-log-none f slot c h =
    rw (log-snoc f c.valid)
      (find-later-none slot _ (newest f) h (rw (log-snoc f c.valid) at c.rises))

pub find-log-some :
    (f : Farm) (slot : Slot)
    → IsChronological f
    → slot < (newest f).started_at
    → (s : Snapshot) × (find (later slot) (log f) ≡ some s)
find-log-some f slot c h = rw (log-snoc f c.valid) (find-later_snoc slot _ (newest f) h)

indexed-Rises : (f : Farm) → IsChronological f → Rises (snapshots_of (indexed f))
indexed-Rises f c = rw (snapshots_of-indexed f) c.rises

-- On a chronological buffer `first_snapshot_after` never fails. It returns the first snapshot of
-- the log, in order of time, that started after the slot; but nothing where the whole history
-- kept in the buffer is later than the slot.
pub first_snapshot_after_lem :
    (f : Farm) (slot : Slot)
    → IsChronological f
    → first_snapshot_after f slot
      ≡ ok (
          if ltb slot (oldest f).started_at
          then none
          else find (λ s. ltb slot s.started_at) (log f))
first_snapshot_after_lem f slot c = elim (dec_le (newest f).started_at slot) [
  | yes past ↦
      rw (first_after-none f slot c.valid past, find-log-none f slot c past)
        (elim (Bool-cases (ltb slot (oldest f).started_at)) [ inl e ↦ rw e | inr e ↦ rw e ])
  | no late ↦
      let after : slot < (newest f).started_at = omega arith in
      elim (dec_le (oldest f).started_at slot) [
        | yes reached ↦
            let (s, found) = find-log-some f slot c after in
            rw (first_after-search f slot c.valid after, le→ltb_false _ _ reached, found)
              (search-some f slot (indexed f) s (Linked-indexed f c.valid) (indexed-Rises f c)
                (rw (snapshots_of-indexed f) reached) (rw (snapshots_of-indexed f) found))
        | no beyond ↦
            rw
              (
                first_after-search f slot c.valid after,
                lt→ltb slot (oldest f).started_at (omega arith),
              )
              (search-none f slot (indexed f) (indexed-Rises f c)
                (rw (snapshots_of-indexed f) (omega arith)))
      ]
]
