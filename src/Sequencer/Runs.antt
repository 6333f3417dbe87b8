-- ===== src/Sequencer/Runs.antt =====
-- Runs of the release queue: what the host's admissions and polls let go, in order (`Sequencer` of
-- packages/admission-sequencer/src/lib.rs).
use bunting.Prelude.{
  ℕ, ◌+◌, ◌^◌, ◌≤◌, ◌<◌, max, true, false, inl, inr, Bool-cases, Option, none, some, List, [], ◌∷◌,
  ◌≡◌, ◌∙◌, refl, arith, length, All, ok, err, ltb, subst,
}
use bunting.Prelude.Ord.{nat_ord, pair_lt}
use bunting.Prelude.Map.{get, remove, get-remove}
use bunting.Sequencer.{AdmissionRecord, Sequencer, admit, pop_due}
use bunting.Sequencer.Released.{
  Stored, IsQueued, IsPast, All-map, after_admit-IsQueued, after_admit-IsPast, admit-cases, Before,
  Heaped,
}

abbrev pub key : AdmissionRecord → ℕ × ℕ
key entry = (entry.release_us, entry.arrival_sequence)

pub data Op {ℓ} (T : Type ℓ) : Type ℓ where
  admission : ℕ → AdmissionRecord → T → Op T
  poll : ℕ → Op T

module _ {ℓ} {T : Type ℓ} where
  -- The queue after one call of the host; a refused admission leaves it as it is.
  unfoldable pub step : Op T → Sequencer T → Option (AdmissionRecord × T) × Sequencer T
  unfolding admit pop_due
  step (admission now entry item) s = elim (admit now entry item s) [
    | ok x ↦ (none, x.1)
    | err e ↦ (none, s)
  ]
  step (poll now) s = pop_due now s

  abbrev pub released_key : Option (AdmissionRecord × T) → List (ℕ × ℕ) → List (ℕ × ℕ)
  released_key none keys = keys
  released_key (some x) keys = key x.0 ∷ keys

  -- The keys of the commands that a sequence of calls lets go.
  unfoldable pub run : List (Op T) → Sequencer T → List (ℕ × ℕ)
  unfolding step
  run [] s = []
  run (op ∷ ops) s = released_key (step op s).0 (run ops (step op s).1)

abbrev pub Ascending : List (ℕ × ℕ) → Type 0
Ascending [] = Unit
Ascending (k ∷ keys) = All (λ j. pair_lt k j ≡ true) keys × Ascending keys

module _ {ℓ} {T : Type ℓ} where
  abbrev raised : ℕ → Sequencer T → Sequencer T
  raised now s = record s { floor_us = max s.floor_us now }

  -- The queue once its head `k` is gone.
  abbrev popped : ℕ → ℕ × ℕ → List (ℕ × ℕ) → Sequencer T → Sequencer T
  popped now k heap s = record s {
    floor_us = max s.floor_us now;
    heap = heap;
    items = remove k.1 s.items;
  }

  pop_none : (now : ℕ) (s : Sequencer T) → s.heap ≡ [] → pop_due now s ≡ (none, raised now s)
  unfolding pop_due
  pop_none now s e = ground arith

  pop_early :
      (now : ℕ) (s : Sequencer T) (k : ℕ × ℕ) (heap : List (ℕ × ℕ))
      → s.heap ≡ k ∷ heap
      → ltb (max s.floor_us now) k.0 ≡ true
      → pop_due now s ≡ (none, raised now s)
  unfolding pop_due
  pop_early now s k heap e h = ground arith

  pop_head :
      (now : ℕ) (s : Sequencer T) (k : ℕ × ℕ) (heap : List (ℕ × ℕ))
      → s.heap ≡ k ∷ heap
      → ltb (max s.floor_us now) k.0 ≡ false
      → pop_due now s ≡ (get k.1 s.items, popped now k heap s)
  unfolding pop_due
  pop_head now s k heap e h = ground arith

  still-Stored :
      (now : ℕ) (s : Sequencer T) (k : ℕ × ℕ) (heap : List (ℕ × ℕ)) (j : ℕ × ℕ)
      → Before k j
      → Stored s j
      → Stored (popped now k heap s) j
  still-Stored now s k heap j (b, d) (h, e, i, g, r, a) =
      (h, e, i, get-remove k.1 j.1 s.items ∙ ground arith, r, a)

  -- A command that goes has everything left in the queue, or admitted later, after it.
  abbrev LastOut : Option (AdmissionRecord × T) → Sequencer T → Type 0
  LastOut none s = Unit
  LastOut (some x) s = IsPast (key x.0) s

  abbrev AfterAll : ℕ × ℕ → Option (AdmissionRecord × T) → Type 0
  AfterAll k none = Unit
  AfterAll k (some x) = pair_lt k (key x.0) ≡ true

  -- What one call keeps.
  abbrev Kept : Sequencer T → Option (AdmissionRecord × T) × Sequencer T → Type ℓ
  Kept s x =
      IsQueued x.1
      × (x.1.next_arrival ≤ s.next_arrival + 1)
      × LastOut x.0 x.1
      × ((k : ℕ × ℕ) → IsPast k s → IsPast k x.1 × AfterAll k x.0)

  raised-Kept : (now : ℕ) (s : Sequencer T) → IsQueued s → Kept s (none, raised now s)
  raised-Kept now s (h, a) = ((h, a), omega arith, tt, λ k (b, f, n). ((b, ground arith, n), tt))

  popped-Kept :
      (now : ℕ) (s : Sequencer T) (k : ℕ × ℕ) (heap : List (ℕ × ℕ))
      → s.heap ≡ k ∷ heap
      → ltb (max s.floor_us now) k.0 ≡ false
      → Heaped (k ∷ heap)
      → All (Stored s) (k ∷ heap)
      → Kept s (get k.1 s.items, popped now k heap s)
  popped-Kept now s k heap e d (b, h) ((n, entry, item, g, r, a), all) = rw g (
    (h, All-both heap b all),
    omega arith,
    rw (r, a) (All-map heap (λ j p. p.0) b, ground arith, n),
    λ j (past, f, m).
        let here : All (λ i. pair_lt j i ≡ true) (k ∷ heap) = rw e at past in
        ((here.1, ground arith, m), rw (r, a) here.0),
  )
    where
      All-both :
          (heap' : List (ℕ × ℕ))
          → All (Before k) heap'
          → All (Stored s) heap'
          → All (Stored (popped now k heap s)) heap'
      All-both [] b a = tt
      All-both (j ∷ heap') (p, b) (q, a) = (still-Stored now s k heap j p q, All-both heap' b a)

  poll-Kept : (now : ℕ) (s : Sequencer T) → IsQueued s → Kept s (pop_due now s)
  poll-Kept now s q = at_heap s.heap refl q
    where
      at_heap : (heap : List (ℕ × ℕ)) → s.heap ≡ heap → IsQueued s → Kept s (pop_due now s)
      at_heap [] e q = rw (pop_none now s e) (raised-Kept now s q)
      at_heap (k ∷ heap) e (h, a) = elim (Bool-cases (ltb (max s.floor_us now) k.0)) [
        | inl d ↦ rw (pop_early now s k heap e d) (raised-Kept now s (h, a))
        | inr d ↦
            rw (pop_head now s k heap e d) (popped-Kept now s k heap e d (rw e at h) (rw e at a))
      ]

  pub step-Kept :
      (op : Op T) (s : Sequencer T) → IsQueued s → s.next_arrival + 1 < 2 ^ 64 → Kept s (step op s)
  unfolding step
  step-Kept (poll now) s q b = poll-Kept now s q
  step-Kept (admission now entry item) s q b = elim (admit-cases now entry item s b) [
    | inl e ↦ rw (step, e) (q, omega arith, tt, λ k p. (p, tt))
    | inr e ↦
        rw (step, e)
          (
            after_admit-IsQueued now entry item s q,
            omega arith,
            tt,
            λ k p. (after_admit-IsPast now entry item s k p, tt),
          )
  ]

  run_after :
      (k : ℕ × ℕ) (ops : List (Op T)) (s : Sequencer T)
      → IsQueued s
      → s.next_arrival + length ops < 2 ^ 64
      → IsPast k s
      → All (λ j. pair_lt k j ≡ true) (run ops s)
  unfolding run
  run_after k [] s q b p = tt
  run_after k (op ∷ ops) s q b p =
      let (q', n, last, past) = step-Kept op s q (omega arith) in
      let (p', after) = past k p in
      add (step op s).0 _ after (run_after k ops (step op s).1 q' (omega arith) p')
    where
      add :
          (o : Option (AdmissionRecord × T)) (keys : List (ℕ × ℕ))
          → AfterAll k o
          → All (λ j. pair_lt k j ≡ true) keys
          → All (λ j. pair_lt k j ≡ true) (released_key o keys)
      add none keys h a = a
      add (some x) keys h a = (h, a)

  -- From a queue whose pairs ascend and have their records, and whose arrival counter does not
  -- wrap within the calls, every sequence of admissions and polls, whatever clock values it
  -- passes, lets commands go in strictly ascending order of release time and then arrival:
  -- nothing is ordered before a command that has gone.
  pub run-Ascending :
      (ops : List (Op T)) (s : Sequencer T)
      → IsQueued s
      → s.next_arrival + length ops < 2 ^ 64
      → Ascending (run ops s)
  unfolding run
  run-Ascending [] s q b = tt
  run-Ascending (op ∷ ops) s q b =
      let (q', n, last, past) = step-Kept op s q (omega arith) in
      add (step op s).0 (step op s).1 q' (omega arith) last
        (run-Ascending ops (step op s).1 q' (omega arith))
    where
      add :
          (o : Option (AdmissionRecord × T)) (s' : Sequencer T)
          → IsQueued s'
          → s'.next_arrival + length ops < 2 ^ 64
          → LastOut o s'
          → Ascending (run ops s')
          → Ascending (released_key o (run ops s'))
      add none s' q b l a = a
      add (some x) s' q b l a = (run_after (key x.0) ops s' q b l, a)

  popped_floor : (now : ℕ) (s : Sequencer T) → (pop_due now s).1.floor_us ≡ max s.floor_us now
  popped_floor now s = at_heap s.heap refl
    where
      at_heap :
          (heap : List (ℕ × ℕ)) → s.heap ≡ heap → (pop_due now s).1.floor_us ≡ max s.floor_us now
      at_heap [] e = rw (pop_none now s e) refl
      at_heap (k ∷ heap) e = elim (Bool-cases (ltb (max s.floor_us now) k.0)) [
        | inl d ↦ rw (pop_early now s k heap e d) refl
        | inr d ↦ rw (pop_head now s k heap e d) refl
      ]

  -- From a queue whose pairs ascend and have their records, a poll that lets a command go does so
  -- only when its release time is not after the higher of the floor and the clock; every pair left
  -- goes after that command, the floor is not below its release, the arrival counter is above its
  -- arrival, and the pairs left ascend and have their records.
  pub pop_due_lem :
      (now : ℕ) (s s' : Sequencer T) (entry : AdmissionRecord) (item : T)
      → IsQueued s
      → pop_due now s ≡ (some (entry, item), s')
      → (entry.release_us ≤ max s.floor_us now) × IsPast (key entry) s' × IsQueued s'
  pop_due_lem now s s' entry item q h =
      let kept : Kept s (some (entry, item), s') = subst (λ x. Kept s x) h (poll-Kept now s q) in
      let floor : s'.floor_us ≡ max s.floor_us now =
        subst (λ x. x.1.floor_us ≡ max s.floor_us now) h (popped_floor now s) in
      (subst (λ f. entry.release_us ≤ f) floor kept.2.1, kept.2, kept.0)
