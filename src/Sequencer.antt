-- ===== src/Sequencer.antt =====
-- packages/admission-sequencer/src/lib.rs: measured and virtual latency, and the release queue of
-- venue admission. Times are u64 microseconds.
pub mod Latency
pub mod Released
pub mod Runs
use bunting.Prelude.{
  ℕ, ◌+◌, ◌%◌, ◌/◌, ◌^◌, min, max, Bool, true, false, Option, none, some, List, [], ◌∷◌, ◌≡◌,
  if◌then◌else◌, ltb, leb, ◌==◌, length, Result, ok, err,
}
use bunting.Prelude.Ord.{nat_ord, pair_lt}
use bunting.Prelude.Map.{Map, get}
use bunting.Prelude.Map

pub data AdmissionError : Type 0 where
  queue_full too_many_streams : ℕ → AdmissionError
  invalid_policy : AdmissionError

pub data RttSource : Type 0 where
  no_sample kernel probe both : RttSource

pub record DelayEstimator : Type 0 where
  pub kernel_min_us : Option ℕ
  pub probe_min_us : Option ℕ
  pub probe_samples : ℕ

abbrev pub new_estimator : DelayEstimator
new_estimator = record { kernel_min_us = none; probe_min_us = none; probe_samples = 0 }

abbrev pub u64_max : ℕ
u64_max = 18446744073709551615

abbrev pub saturating_add : ℕ → ℕ → ℕ
saturating_add a b = min (a + b) u64_max

abbrev pub least : Option ℕ → ℕ → ℕ
least none rtt = rtt
least (some m) rtt = min m rtt

unfoldable pub record_probe : ℕ → DelayEstimator → DelayEstimator
record_probe rtt_us e = record e {
  probe_min_us = some (least e.probe_min_us rtt_us);
  probe_samples = saturating_add e.probe_samples 1;
}

unfoldable pub record_kernel_min : ℕ → DelayEstimator → DelayEstimator
record_kernel_min min_rtt_us e =
    if min_rtt_us == 0
    then e
    else record e { kernel_min_us = some (least e.kernel_min_us min_rtt_us) }

unfoldable pub source : DelayEstimator → RttSource
source e = pick e.kernel_min_us e.probe_min_us
  where
    pick : Option ℕ → Option ℕ → RttSource
    pick none none = no_sample
    pick (some k) none = kernel
    pick none (some p) = probe
    pick (some k) (some p) = both

unfoldable pub min_rtt_us : DelayEstimator → Option ℕ
min_rtt_us e = pick e.kernel_min_us e.probe_min_us
  where
    pick : Option ℕ → Option ℕ → Option ℕ
    pick (some k) (some p) = some (min k p)
    pick (some k) none = some k
    pick none p = p

unfoldable pub one_way_us : DelayEstimator → Option ℕ
unfolding min_rtt_us
one_way_us e = elim (min_rtt_us e) [ none ↦ none | some rtt ↦ some (rtt / 2) ]

pub data Endpoint : Type 0 where
  participant venue : ℕ → Endpoint
  hub : Endpoint

pub record AdmissionRecord : Type 0 where
  pub received_us : ℕ
  pub measured_one_way_us : Option ℕ
  pub rtt_source : RttSource
  pub destination : Endpoint
  pub path_latency_us : ℕ
  pub jitter_position : Option ℕ
  pub release_us : ℕ
  pub arrival_sequence : ℕ

-- The heap keeps its `(release, arrival)` pairs ascending, so that its head is the least.
pub record Sequencer {ℓ} (T : Type ℓ) : Type ℓ where
  pub capacity : ℕ
  pub next_arrival : ℕ
  pub floor_us : ℕ
  pub heap : List (ℕ × ℕ)
  pub items : Map ℕ (AdmissionRecord × T)

-- `BinaryHeap::push` under `Reverse`.
unfoldable pub push : ℕ × ℕ → List (ℕ × ℕ) → List (ℕ × ℕ)
push k [] = k ∷ []
push k (j ∷ heap) = let rest = push k heap in if pair_lt k j then k ∷ j ∷ heap else j ∷ rest

module _ {ℓ} {T : Type ℓ} where
  abbrev pub new : ℕ → Sequencer T
  new capacity = record {
    capacity = max capacity 1;
    next_arrival = 0;
    floor_us = 0;
    heap = [];
    items = [];
  }

  unfoldable pub admit :
      ℕ → AdmissionRecord → T → Sequencer T → Result AdmissionError (AdmissionRecord × Sequencer T)
  unfolding push
  admit now_us entry item s =
      if leb s.capacity (length s.items)
      then err (queue_full s.capacity)
      else (let floor = max s.floor_us now_us in
          let admitted = record entry {
            release_us = max entry.release_us floor;
            arrival_sequence = s.next_arrival;
          } in
          ok (
            admitted,
            record s {
              floor_us = floor;
              next_arrival = (s.next_arrival + 1) % 2 ^ 64;
              heap = push (max entry.release_us floor, s.next_arrival) s.heap;
              items = Map.insert s.next_arrival (admitted, item) s.items;
            },
          ))

  -- The head is removed when its release time has passed; the floor rises in either case.
  unfoldable pub pop_due : ℕ → Sequencer T → Option (AdmissionRecord × T) × Sequencer T
  pop_due now_us s = due s.heap
    where
      raised : Sequencer T
      raised = record s { floor_us = max s.floor_us now_us }

      due : List (ℕ × ℕ) → Option (AdmissionRecord × T) × Sequencer T
      due [] = (none, raised)
      due ((release, arrival) ∷ heap) =
          if ltb (max s.floor_us now_us) release then (none, raised) else (
            get arrival s.items,
            record raised { heap = heap; items = Map.remove arrival s.items },
          )

  unfoldable pub next_release_us : Sequencer T → Option ℕ
  next_release_us s = head s.heap
    where
      head : List (ℕ × ℕ) → Option ℕ
      head [] = none
      head ((release, arrival) ∷ heap) = some release

  abbrev pub len : Sequencer T → ℕ
  len s = length s.items
