-- ===== src/Sequencer/Released.antt =====
-- The order in which the release queue lets commands go (`Sequencer` of
-- packages/admission-sequencer/src/lib.rs).
use bunting.Prelude.{
  ℕ, ◌+◌, ◌^◌, ◌≤◌, ◌<◌, max, ◌⊎◌, ◌==◌, true, false, inl, inr, Bool-cases, some, List, [], ◌∷◌,
  ◌≡◌, ◌∙◌, refl, arith, length, All, ok, err, leb,
}
use bunting.Prelude.Ord.{nat_ord, pair_lt, pair_trans}
use bunting.Prelude.Map.{get, insert, get-insert_self, get-insert_ne}
use bunting.Sequencer.{queue_full, AdmissionRecord, Sequencer, push, admit}

-- The pair goes before `j` and is another command's.
abbrev pub Before : ℕ × ℕ → ℕ × ℕ → Type 0
Before k j = (pair_lt k j ≡ true) × ((j.1 == k.1) ≡ false)

abbrev pub Heaped : List (ℕ × ℕ) → Type 0
Heaped [] = Unit
Heaped (k ∷ heap) = All (Before k) heap × Heaped heap

module _ {ℓ} {T : Type ℓ} where
  -- A queued pair has its record and item under its arrival.
  abbrev pub Stored : Sequencer T → ℕ × ℕ → Type ℓ
  Stored s k =
      (k.1 < s.next_arrival)
      × (entry : AdmissionRecord) × (item : T) × (get k.1 s.items ≡ some (entry, item))
      × (entry.release_us ≡ k.0)
      × (entry.arrival_sequence ≡ k.1)

  abbrev pub IsQueued : Sequencer T → Type ℓ
  IsQueued s = Heaped s.heap × All (Stored s) s.heap

  -- Everything that is queued, or is admitted from now on, goes after the pair.
  abbrev pub IsPast : ℕ × ℕ → Sequencer T → Type 0
  IsPast k s = All (λ j. pair_lt k j ≡ true) s.heap × (k.0 ≤ s.floor_us) × (k.1 < s.next_arrival)

module _ {ℓ} (P : ℕ × ℕ → Type ℓ) where
  pub All-push : (k : ℕ × ℕ) (heap : List (ℕ × ℕ)) → P k → All P heap → All P (push k heap)
  unfolding push
  All-push k [] p a = (p, tt)
  All-push k (j ∷ heap) p (q, a) = elim (Bool-cases (pair_lt k j)) [
    | inl e ↦ rw e (p, (q, a))
    | inr e ↦ rw e (q, All-push k heap p a)
  ]

pub All-map {ℓ κ} :
    {P : ℕ × ℕ → Type ℓ} {Q : ℕ × ℕ → Type κ} (heap : List (ℕ × ℕ))
    → ((j : ℕ × ℕ) → P j → Q j)
    → All P heap
    → All Q heap
All-map [] f a = tt
All-map (j ∷ heap) f (p, a) = (f j p, All-map heap f a)

Before-of_new : (k j : ℕ × ℕ) → k.1 < j.1 → pair_lt j k ≡ false → Before k j
Before-of_new (a, b) (c, d) h e = (ground arith, ground arith)

new-Before : (k j : ℕ × ℕ) → j.1 < k.1 → pair_lt k j ≡ true → Before k j
new-Before (a, b) (c, d) h e = (e, ground arith)

Before-trans : (k j i : ℕ × ℕ) → i.1 < k.1 → pair_lt k j ≡ true → Before j i → Before k i
Before-trans (a, b) (c, d) (e, f) h p (q, r) = (pair_trans (a, b) (c, d) (e, f) p q, ground arith)

Before-All :
    (k j : ℕ × ℕ) (heap : List (ℕ × ℕ))
    → pair_lt k j ≡ true
    → All (λ i. i.1 < k.1) heap
    → All (Before j) heap
    → All (Before k) heap
Before-All k j [] h n b = tt
Before-All k j (i ∷ heap) h (m, n) (p, b) = (Before-trans k j i m h p, Before-All k j heap h n b)

pub push-Heaped :
    (k : ℕ × ℕ) (heap : List (ℕ × ℕ))
    → All (λ j. j.1 < k.1) heap
    → Heaped heap
    → Heaped (push k heap)
unfolding push
push-Heaped k [] n h = (tt, tt)
push-Heaped k (j ∷ heap) (m, n) (b, h) = elim (Bool-cases (pair_lt k j)) [
  | inl e ↦ rw e ((new-Before k j m e, Before-All k j heap e n b), (b, h))
  | inr e ↦ rw e (All-push (Before j) k heap (Before-of_new j k m e) b, push-Heaped k heap n h)
]

ltb_max : (a b c : ℕ) → a ≤ b → a ≤ max b c
ltb_max a b c h = ground arith

past_new :
    (k : ℕ × ℕ) (release floor now n : ℕ)
    → k.0 ≤ floor
    → k.1 < n
    → pair_lt k (max release (max floor now), n) ≡ true
past_new (a, b) release floor now n h l = ground arith

module _ {ℓ} {T : Type ℓ} where
  -- The record that `admit` returns and the queue it leaves.
  abbrev pub stamped : ℕ → AdmissionRecord → Sequencer T → AdmissionRecord
  stamped now entry s = record entry {
    release_us = max entry.release_us (max s.floor_us now);
    arrival_sequence = s.next_arrival;
  }

  abbrev pub after_admit : ℕ → AdmissionRecord → T → Sequencer T → Sequencer T
  after_admit now entry item s = record s {
    floor_us = max s.floor_us now;
    next_arrival = s.next_arrival + 1;
    heap = push (max entry.release_us (max s.floor_us now), s.next_arrival) s.heap;
    items = insert s.next_arrival (stamped now entry s, item) s.items;
  }

  admit_run :
      (now : ℕ) (entry : AdmissionRecord) (item : T) (s : Sequencer T)
      → s.next_arrival + 1 < 2 ^ 64
      → leb s.capacity (length s.items) ≡ false
      → admit now entry item s ≡ ok (stamped now entry s, after_admit now entry item s)
  unfolding admit
  admit_run now entry item s h e = ground arith

  -- A refused admission changes nothing; one that is accepted queues its stamped record.
  pub admit-cases :
      (now : ℕ) (entry : AdmissionRecord) (item : T) (s : Sequencer T)
      → s.next_arrival + 1 < 2 ^ 64
      → (admit now entry item s ≡ err (queue_full s.capacity))
        ⊎ (admit now entry item s ≡ ok (stamped now entry s, after_admit now entry item s))
  unfolding admit
  admit-cases now entry item s h = elim (Bool-cases (leb s.capacity (length s.items))) [
    | inl e ↦ inl (ground arith)
    | inr e ↦ inr (admit_run now entry item s h e)
  ]

  Stored-grows :
      (now : ℕ) (entry : AdmissionRecord) (item : T) (s : Sequencer T) (k : ℕ × ℕ)
      → Stored s k
      → Stored (after_admit now entry item s) k
  Stored-grows now entry item s k (h, e, i, g, r, a) = (
    omega arith,
    e,
    i,
    get-insert_ne s.next_arrival k.1 (stamped now entry s, item) s.items (λ q. omega (arith, q))
        ∙ g,
    r,
    a,
  )

  pub after_admit-IsQueued :
      (now : ℕ) (entry : AdmissionRecord) (item : T) (s : Sequencer T)
      → IsQueued s
      → IsQueued (after_admit now entry item s)
  after_admit-IsQueued now entry item s (h, a) =
      let k : ℕ × ℕ = (max entry.release_us (max s.floor_us now), s.next_arrival) in
      (
        push-Heaped k s.heap (All-map s.heap (λ j p. p.0) a) h,
        All-push (Stored (after_admit now entry item s)) k s.heap
            (
              omega arith,
              stamped now entry s,
              item,
              get-insert_self s.next_arrival (stamped now entry s, item) s.items,
              refl,
              refl,
            )
            (All-map s.heap (Stored-grows now entry item s) a),
      )

  pub after_admit-IsPast :
      (now : ℕ) (entry : AdmissionRecord) (item : T) (s : Sequencer T) (k : ℕ × ℕ)
      → IsPast k s
      → IsPast k (after_admit now entry item s)
  after_admit-IsPast now entry item s k (a, f, n) = (
    All-push (λ j. pair_lt k j ≡ true) _ s.heap
        (past_new k entry.release_us s.floor_us now s.next_arrival f n) a,
    ltb_max k.0 s.floor_us now f,
    omega arith,
  )
