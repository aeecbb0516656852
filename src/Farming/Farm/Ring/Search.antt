-- ===== src/Farming/Farm/Ring/Search.antt =====
-- The search for the newest snapshot that is not later than a slot, over the entries of the log.
use mathlib.Core.List.{reverse, reverse-cons}
use native.Mathlib.Decide.{dec_le}
use solana_amm.Base.{
  ◌≤◌, ◌<◌, ◌≡◌, inl, inr, refl, sym, ◌∙◌, List, [], ◌∷◌, ◌++◌, Option, none, some, Bool, arith,
  find, All, leb, ltb, if◌then◌else◌, Bool-cases, get_elem?, le→leb, lt→leb_false, lt→ltb,
  le→ltb_false,
}
use solana_amm.Farming.Farm.{Slot, Snapshot}
use solana_amm.Farming.Farm.Ring.Order.{Before, Rises}
use solana_amm.Farming.Farm.Ring.Walk.{Entry, snapshots_of, next_index, Linked}

-- The last entry that passes a test.
pub find_last : (Entry → Bool) → List Entry → Option Entry
find_last p [] = none
find_last p (x ∷ xs) = elim (find_last p xs) [
  | none ↦ if p x then some x else none
  | some y ↦ some y
]

find-append :
    (p : Entry → Bool) (xs ys : List Entry)
    → find p (xs ++ ys) ≡ elim (find p xs) [ none ↦ find p ys | some y ↦ some y ]
find-append p [] ys = refl
find-append p (x ∷ xs) ys = elim (Bool-cases (p x)) [
  | inl hit ↦ rw hit
  | inr miss ↦ rw miss (find-append p xs ys)
]

pub find-reverse : (p : Entry → Bool) (o : List Entry) → find p (reverse o) ≡ find_last p o
unfolding find_last
find-reverse p [] = refl
find-reverse p (x ∷ o) = rw (reverse-cons, find-append p (reverse o) (x ∷ []), find-reverse p o)

All-Before-last :
    (x : Snapshot) (ss : List Snapshot) (n : Snapshot)
    → All (Before x) (ss ++ n ∷ [])
    → x.started_at ≤ n.started_at
All-Before-last x [] n h = ground arith
All-Before-last x (y ∷ ss) n h = All-Before-last x ss n h.1

module _ (slot : Slot) where
  abbrev pub until : Entry → Bool
  until e = leb e.1.started_at slot

  abbrev pub later : Snapshot → Bool
  later s = ltb slot s.started_at

  -- Past an entry that is later there are later ones only.
  pub find_last_later :
      (x : Entry) (o : List Entry)
      → slot < x.1.started_at
      → Rises (snapshots_of (x ∷ o))
      → find_last until (x ∷ o) ≡ none
  unfolding find_last
  find_last_later x [] h r = rw (lt→leb_false _ _ h)
  find_last_later x (y ∷ o) h r =
      rw (find_last_later y o (ground (arith, r.0.0)) r.1, lt→leb_false _ _ h)

  find-later_skip :
      (s : Snapshot) (ss : List Snapshot)
      → s.started_at ≤ slot
      → find later (s ∷ ss) ≡ find later ss
  find-later_skip s ss h = rw (le→ltb_false _ _ h)

  find-later_hit :
      (s : Snapshot) (ss : List Snapshot) → slot < s.started_at → find later (s ∷ ss) ≡ some s
  find-later_hit s ss h = rw (lt→ltb _ _ h)

  pub find-later_snoc :
      (ss : List Snapshot) (n : Snapshot)
      → slot < n.started_at
      → (s : Snapshot) × (find later (ss ++ n ∷ []) ≡ some s)
  find-later_snoc [] n h = (n, find-later_hit n [] h)
  find-later_snoc (x ∷ ss) n h = elim (Bool-cases (later x)) [
    | inl hit ↦ (x, rw hit)
    | inr miss ↦ rw miss (find-later_snoc ss n h)
  ]

  pub find-later-none :
      (ss : List Snapshot) (n : Snapshot)
      → n.started_at ≤ slot
      → Rises (ss ++ n ∷ [])
      → find later (ss ++ n ∷ []) ≡ none
  find-later-none [] n h r = find-later_skip n [] h
  find-later-none (x ∷ ss) n h r =
      find-later_skip x (ss ++ n ∷ []) (omega (arith, All-Before-last x ss n r.0))
      ∙ find-later-none ss n h r.1

  -- Behind the last entry that is not later stands the first that is.
  pub behind_last :
      (ring : List Snapshot) (x : Entry) (o : List Entry) (s : Snapshot)
      → Linked ring (x ∷ o)
      → Rises (snapshots_of (x ∷ o))
      → x.1.started_at ≤ slot
      → find later (snapshots_of (x ∷ o)) ≡ some s
      → (e : Entry) × (find_last until (x ∷ o) ≡ some e)
        × (get_elem? ring (next_index e.0) ≡ some s)
  unfolding find_last
  behind_last ring x [] s l r h k = let never = find-later_skip x.1 [] h in cc
  behind_last ring x (y ∷ o) s l r h k =
      let k' = sym (find-later_skip x.1 (snapshots_of (y ∷ o)) h) ∙ k in
      elim (dec_le y.1.started_at slot) [
        | yes early ↦
            let (e, last, next) = behind_last ring y o s l.1 r.1 early k' in (e, rw last, next)
        | no late ↦
            let first = find-later_hit y.1 (snapshots_of o) (omega arith) in
            (x, rw (find_last_later y o (omega arith) r.1, le→leb _ _ h), l.0 ∙ (sym first ∙ k'))
      ]
