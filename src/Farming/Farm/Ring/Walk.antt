-- ===== src/Farming/Farm/Ring/Walk.antt =====
-- The walk backwards from the tip that `enumerate().rev().cycle().skip(…).take(…)` makes is the log
-- read backwards, and the entry behind an entry of the log is its successor in the buffer.
use mathlib.Core.List.{reverse, reverse-append, reverse-cons, append_assoc}
use native.Mathlib.Numerals.{add-one}
use solana_amm.Base.{
  ℕ, zero, suc, ◌+◌, ◌-◌, ◌≤◌, ◌<◌, ◌≡◌, refl, sym, ap, ◌∙◌, List, [], ◌∷◌, ◌++◌, some, arith,
  length, take, drop, ◌==◌, if◌then◌else◌, get_elem?, take-all, take-append-drop, length-append,
  length-take, length-drop, ==_false,
}
use solana_amm.Farming.Err.{snapshots_len}
use solana_amm.Farming.Farm.{Snapshot}
use solana_amm.Farming.Farm.Ring.{enumerate_from, rev_cycle_skip_take}

module _ {A : Type 0} where
  pub length-reverse : (xs : List A) → length (reverse xs) ≡ length xs
  length-reverse [] = refl
  length-reverse (x ∷ xs) = rw (reverse-cons, length-append) (omega (arith, length-reverse xs))

  pub drop-append_left : (xs ys : List A) (n : ℕ) → length xs ≡ n → drop n (xs ++ ys) ≡ ys
  drop-append_left [] ys zero h = refl
  drop-append_left [] ys (suc n) h = absurd (omega arith)
  drop-append_left (x ∷ xs) ys zero h = absurd (omega arith)
  drop-append_left (x ∷ xs) ys (suc n) h = drop-append_left xs ys n (omega arith)

  pub take-append_left : (xs ys : List A) (n : ℕ) → length xs ≡ n → take n (xs ++ ys) ≡ xs
  take-append_left [] ys zero h = refl
  take-append_left [] ys (suc n) h = absurd (omega arith)
  take-append_left (x ∷ xs) ys zero h = absurd (omega arith)
  take-append_left (x ∷ xs) ys (suc n) h =
      ap (λ zs. x ∷ zs) (take-append_left xs ys n (omega arith))

  pub take-append_le : (xs ys : List A) (n : ℕ) → n ≤ length xs → take n (xs ++ ys) ≡ take n xs
  take-append_le [] ys zero h = refl
  take-append_le [] ys (suc n) h = absurd (omega arith)
  take-append_le (x ∷ xs) ys zero h = refl
  take-append_le (x ∷ xs) ys (suc n) h = ap (λ zs. x ∷ zs) (take-append_le xs ys n (omega arith))

  -- The walk backwards from the tip, round the start of the buffer.
  pub rev_cycle_skip_take-eq :
      (older newer : List A) (count : ℕ)
      → count ≤ length newer + length older
      → rev_cycle_skip_take (length older) count (newer ++ older)
        ≡ take count (reverse (older ++ newer))
  unfolding rev_cycle_skip_take
  rev_cycle_skip_take-eq older newer count h = rw (
    reverse-append newer older,
    reverse-append older newer,
    append_assoc,
    drop-append_left (reverse older) _ (length older) (length-reverse older),
    ← append_assoc,
    take-append_le (reverse newer ++ reverse older) (reverse newer) count (
        rw
          (
            length-append (reverse newer) (reverse older),
            length-reverse newer,
            length-reverse older,
          )
          h),
  )

  pub walk_back :
      (xs : List A) (tip count : ℕ)
      → tip < length xs
      → count ≤ length xs
      → rev_cycle_skip_take (length xs - tip - 1) count xs
        ≡ take count (reverse (drop (suc tip) xs ++ take (suc tip) xs))
  walk_back xs tip count h k =
      let older = drop (suc tip) xs in
      let newer = take (suc tip) xs in
      let skipped : length xs - tip - 1 ≡ length older = omega (arith, length-drop (suc tip) xs) in
      ap (λ n. rev_cycle_skip_take n count xs) skipped
      ∙ (ap (λ ys. rev_cycle_skip_take (length older) count ys)
            (sym (take-append-drop (suc tip) xs))
          ∙ rev_cycle_skip_take-eq older newer count
              (omega (arith, length-drop (suc tip) xs, length-take (suc tip) xs)))

  pub take-length : (xs : List A) (n : ℕ) → length xs ≡ n → take n (reverse xs) ≡ reverse xs
  take-length xs n h = take-all (reverse xs) n (omega (arith, length-reverse xs))

abbrev pub Entry : Type 0
Entry = ℕ × Snapshot

abbrev pub snapshots_of : List Entry → List Snapshot
snapshots_of [] = []
snapshots_of (e ∷ es) = e.1 ∷ snapshots_of es

pub length-enumerate_from : (i : ℕ) (ss : List Snapshot) → length (enumerate_from i ss) ≡ length ss
unfolding enumerate_from
length-enumerate_from i [] = refl
length-enumerate_from i (s ∷ ss) = ap suc (length-enumerate_from (i + 1) ss)

pub take-enumerate_from :
    (n i : ℕ) (ss : List Snapshot) → take n (enumerate_from i ss) ≡ enumerate_from i (take n ss)
unfolding enumerate_from
take-enumerate_from zero i ss = refl
take-enumerate_from (suc n) i [] = refl
take-enumerate_from (suc n) i (s ∷ ss) = ap (λ es. (i, s) ∷ es) (take-enumerate_from n (i + 1) ss)

pub drop-enumerate_from :
    (n i j : ℕ) (ss : List Snapshot)
    → j ≡ i + n
    → drop n (enumerate_from i ss) ≡ enumerate_from j (drop n ss)
unfolding enumerate_from
drop-enumerate_from zero i j ss h = ap (λ k. enumerate_from k ss) (omega arith)
drop-enumerate_from (suc n) i j [] h = refl
drop-enumerate_from (suc n) i j (s ∷ ss) h = drop-enumerate_from n (i + 1) j ss (omega arith)

pub snapshots_of-enumerate_from :
    (i : ℕ) (ss : List Snapshot) → snapshots_of (enumerate_from i ss) ≡ ss
unfolding enumerate_from
snapshots_of-enumerate_from i [] = refl
snapshots_of-enumerate_from i (s ∷ ss) = ap (λ r. s ∷ r) (snapshots_of-enumerate_from (i + 1) ss)

pub snapshots_of-append :
    (xs ys : List Entry) → snapshots_of (xs ++ ys) ≡ snapshots_of xs ++ snapshots_of ys
snapshots_of-append [] ys = refl
snapshots_of-append (x ∷ xs) ys = ap (λ r. x.1 ∷ r) (snapshots_of-append xs ys)

abbrev pub next_index : ℕ → ℕ
next_index pos = if pos == snapshots_len - 1 then 0 else pos + 1

get_elem?-drop :
    (ring : List Snapshot) (i : ℕ) (x : Snapshot) (r : List Snapshot)
    → drop i ring ≡ x ∷ r
    → (get_elem? ring i ≡ some x) × (drop (suc i) ring ≡ r)
get_elem?-drop [] zero x r h = cc
get_elem?-drop [] (suc i) x r h = cc
get_elem?-drop (y ∷ ring) zero x r h = (cc, cc)
get_elem?-drop (y ∷ ring) (suc i) x r h = get_elem?-drop ring i x r h

module _ (ring : List Snapshot) where
  -- Each entry's successor in the buffer is the entry behind it.
  abbrev pub Linked : List Entry → Type 0
  Linked [] = Unit
  Linked (a ∷ r) =
      elim r [ [] ↦ Unit | b ∷ _ ↦ get_elem? ring (next_index a.0) ≡ some b.1 ] × Linked r

  pub Linked-enumerate_from :
      (i : ℕ) (ss rest : List Snapshot)
      → drop i ring ≡ ss ++ rest
      → i + length ss ≤ snapshots_len
      → Linked (enumerate_from i ss)
  unfolding enumerate_from
  Linked-enumerate_from i [] rest h k = tt
  Linked-enumerate_from i (x ∷ []) rest h k = (tt, tt)
  Linked-enumerate_from i (x ∷ y ∷ ss) rest h k =
      let behind = (get_elem?-drop ring i x ((y ∷ ss) ++ rest) h).1 in
      (
        rw (==_false i 999 (omega arith), add-one)
            (get_elem?-drop ring (suc i) y (ss ++ rest) behind).0,
        Linked-enumerate_from (i + 1) (y ∷ ss) rest (rw add-one behind) (omega arith),
      )

  pub Linked-append :
      (i : ℕ) (ss : List Snapshot) (s : Snapshot) (w : List Entry)
      → drop i ring ≡ ss
      → i + length ss ≡ snapshots_len
      → get_elem? ring 0 ≡ some s
      → Linked ((0, s) ∷ w)
      → Linked (enumerate_from i ss ++ (0, s) ∷ w)
  unfolding enumerate_from
  Linked-append i [] s w h k z l = l
  Linked-append i (x ∷ []) s w h k z l = (rw (let e : i ≡ 999 = omega arith in e) z, l)
  Linked-append i (x ∷ y ∷ ss) s w h k z l =
      let behind = (get_elem?-drop ring i x (y ∷ ss) h).1 in
      (
        rw (==_false i 999 (omega arith), add-one) (get_elem?-drop ring (suc i) y ss behind).0,
        Linked-append (i + 1) (y ∷ ss) s w (rw add-one behind) (omega arith) z l,
      )
