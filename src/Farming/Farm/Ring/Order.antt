-- ===== src/Farming/Farm/Ring/Order.antt =====
-- The log is in chronological order: unused entries, whose slot is 0, then strictly later ones.
use mathlib.Core.List.{append_assoc}
use native.Mathlib.Decide.{dec_lt}
use solana_amm.Base.{
  ℕ, zero, suc, ◌+◌, ◌<◌, ◌≡◌, ◌⊎◌, inl, inr, refl, List, [], ◌∷◌, ◌++◌, arith, length, take, drop,
  All, ok, u64_end, take-suc, replicate, sym, ◌∙◌, subst, ok-injective,
}
use solana_amm.Farming.Farm.{TokenAmount, Slot, Snapshot, Farm, default_snapshot}
use solana_amm.Farming.Farm.Ring.{take_snapshot, snapshot_window}
use solana_amm.Farming.Farm.Ring.Log.{
  IsValid, log, newest, take_snapshot-overflow, take_snapshot_lem,
}

-- `a` stands before `b` in a log.
abbrev pub Before : Snapshot → Snapshot → Type 0
Before a b = (a.started_at ≡ 0) ⊎ (a.started_at < b.started_at)

abbrev pub Rises : List Snapshot → Type 0
Rises [] = Unit
Rises (a ∷ r) = All (Before a) r × Rises r

Rises-drop_one : (l : List Snapshot) → Rises l → Rises (drop 1 l)
Rises-drop_one [] r = tt
Rises-drop_one (a ∷ l) r = r.1

All-Before-snoc :
    (a n s : Snapshot) (l : List Snapshot)
    → n.started_at < s.started_at
    → All (Before a) (l ++ n ∷ [])
    → All (Before a) ((l ++ n ∷ []) ++ s ∷ [])
All-Before-snoc a n s [] h k = ground arith
All-Before-snoc a n s (b ∷ l) h k = (k.0, All-Before-snoc a n s l h k.1)

Rises-snoc :
    (n s : Snapshot) (l : List Snapshot)
    → n.started_at < s.started_at
    → Rises (l ++ n ∷ [])
    → Rises ((l ++ n ∷ []) ++ s ∷ [])
Rises-snoc n s [] h r = ground arith
Rises-snoc n s (b ∷ l) h r = (All-Before-snoc b n s l h r.0, Rises-snoc n s l h r.1)

-- The newest snapshot ends the log.
pub log-snoc :
    (f : Farm)
    → IsValid f
    → log f
      ≡ (drop (suc f.snapshots.ring_buffer_tip) f.snapshots.ring_buffer
          ++ take f.snapshots.ring_buffer_tip f.snapshots.ring_buffer)
        ++ newest f ∷ []
log-snoc f v = rw (
  take-suc f.snapshots.ring_buffer f.snapshots.ring_buffer_tip default_snapshot
      (omega (arith, v.full, v.tip_in)),
  append_assoc,
)

window_pos : (f : Farm) → 0 < snapshot_window f
unfolding snapshot_window
window_pos f = ground arith

log-Rises-append :
    (f : Farm) (s : Snapshot)
    → IsValid f
    → (newest f).started_at < s.started_at
    → Rises (log f)
    → Rises (log f ++ s ∷ [])
log-Rises-append f s v h r =
    rw (log-snoc f v) (Rises-snoc (newest f) s _ h (rw (log-snoc f v) at r))

drop-one-snoc :
    (l : List Snapshot) (s : Snapshot) → 0 < length l → drop 1 (l ++ s ∷ []) ≡ drop 1 l ++ s ∷ []
drop-one-snoc [] s h = absurd (omega arith)
drop-one-snoc (x ∷ l) s h = refl

-- A buffer that is valid and whose log is in order.
pub record IsChronological (f : Farm) : Type 0 where
  pub valid : IsValid f
  pub rises : Rises (log f)

length-log : (f : Farm) → IsValid f → 0 < length (log f)
length-log f v = rw (log-snoc f v) (length-snoc _ (newest f))
  where
    length-snoc : (l : List Snapshot) (s : Snapshot) → 0 < length (l ++ s ∷ [])
    length-snoc [] s = omega arith
    length-snoc (x ∷ l) s = omega arith

written-Rises :
    (f : Farm) (s : Snapshot)
    → IsChronological f
    → (newest f).started_at < s.started_at
    → Rises (drop 1 (log f) ++ s ∷ [])
written-Rises f s c h =
    rw (← drop-one-snoc (log f) s (length-log f c.valid))
      (Rises-drop_one (log f ++ s ∷ []) (log-Rises-append f s c.valid h c.rises))

-- Taking a snapshot keeps the log in chronological order: where it succeeds, the slot of the new
-- entry is later than that of every used one before it.
pub take_snapshot-IsChronological :
    (clock : Slot) (balance : TokenAmount) (f : Farm) {g : Farm}
    → IsChronological f
    → take_snapshot clock balance f ≡ ok g
    → IsChronological g
      × (log g ≡ drop 1 (log f) ++ record { staked = balance; started_at = clock } ∷ [])
take_snapshot-IsChronological clock balance f {g} c h =
    elim (dec_lt ((newest f).started_at + snapshot_window f) u64_end) [
      | no over ↦ let panics = take_snapshot-overflow clock balance f c.valid (omega arith) in cc
      | yes fits ↦ elim (take_snapshot_lem clock balance f c.valid fits) [
        | inl (early, refused) ↦ cc
        | inr (ripe, (s, done, appended, valid)) ↦
            subst
              (λ g.
                IsChronological g
                × (log g ≡ drop 1 (log f) ++ record { staked = balance; started_at = clock } ∷ []))
              (ok-injective (sym done ∙ h))
              (
                record {
                  valid = valid;
                  rises = rw appended (written-Rises f _ c (omega (arith, window_pos f)));
                },
                appended,
              )
      ]
    ]

-- The buffer of a new farm holds defaults only, and is in order.
All-Before-replicate : (n : ℕ) → All (Before default_snapshot) (replicate n default_snapshot)
All-Before-replicate zero = tt
All-Before-replicate (suc n) = (inl refl, All-Before-replicate n)

pub Rises-replicate : (n : ℕ) → Rises (replicate n default_snapshot)
Rises-replicate zero = tt
Rises-replicate (suc n) = (All-Before-replicate n, Rises-replicate n)
