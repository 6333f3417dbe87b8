-- ===== src/Sequencer/Latency.antt =====
-- packages/admission-sequencer/src/lib.rs: the virtual geography and its jitter streams.
use Prim.Native.Nat.{bit_xor}
use bunting.Prelude.{
  ℕ, ◌+◌, ◌*◌, ◌%◌, ◌/◌, ◌^◌, Bool, true, false, ◌&&◌, ◌||◌, not, Option, none, some, List, [], ◌∷◌,
  map, if◌then◌else◌, ltb, leb, ◌==◌, length, all, any, Result, ok, err, ◌>>=◌, ◌>>◌, reject_if,
}
use bunting.Prelude.Ord.{nat_ord, pair_ord, pair_eq, pair_lt}
use bunting.Prelude.Map.{Map, get}
use bunting.Prelude.Map
use bunting.Prelude.Names.{Name, name_lt, name_eq, name_ord, sort, has_equal_neighbours}
use bunting.Sequencer.{
  AdmissionError, invalid_policy, too_many_streams, AdmissionRecord, DelayEstimator, Endpoint,
  participant, venue, hub, one_way_us, source, saturating_add,
}

abbrev pub max_configured_delay_us : ℕ
max_configured_delay_us = 10000000

abbrev pub max_jitter_streams : ℕ
max_jitter_streams = 65536

pub record PathLatency : Type 0 where
  pub latency_us : ℕ
  pub jitter_us : ℕ

abbrev pub no_latency : PathLatency
no_latency = record { latency_us = 0; jitter_us = 0 }

pub record Placement : Type 0 where
  pub id : ℕ
  pub location : Name

pub record Link : Type 0 where
  pub first : Name
  pub second : Name
  pub latency : PathLatency

pub record LatencyMap : Type 0 where
  pub jitter_seed : ℕ
  pub default_location : Name
  pub participants : List Placement
  pub venues : List Placement
  pub local : PathLatency
  pub links : List Link

abbrev pub ordered : Name → Name → Name × Name
ordered first second = if name_lt second first then (second, first) else (first, second)

abbrev pub link_key : Link → Name × Name
link_key l = ordered l.first l.second

abbrev pub key_eq : Name × Name → Name × Name → Bool
key_eq (a, b) (c, d) = name_eq a c && name_eq b d

abbrev pub key_lt : Name × Name → Name × Name → Bool
key_lt (a, b) (c, d) = name_lt a c || (name_eq a c && name_lt b d)

unfoldable pub find_link : Name × Name → List Link → Option PathLatency
find_link key [] = none
find_link key (l ∷ links) = if key_eq (link_key l) key then some l.latency else find_link key links

unfoldable pub link : LatencyMap → Name → Name → Option PathLatency
unfolding find_link
link m first second = find_link (ordered first second) m.links

unfoldable pub placed : ℕ → List Placement → Name → Name
placed id [] default = default
placed id (p ∷ placements) default = if p.id == id then p.location else placed id placements default

unfoldable pub location : LatencyMap → Endpoint → Name
unfolding placed
location m (participant id) = placed id m.participants m.default_location
location m (venue id) = placed id m.venues m.default_location
location m hub = m.default_location

abbrev pub or_default : Option PathLatency → PathLatency
or_default none = no_latency
or_default (some path) = path

unfoldable pub path : LatencyMap → Endpoint → Endpoint → PathLatency
unfolding location link
path m from to =
    if name_eq (location m from) (location m to)
    then m.local
    else or_default (link m (location m from) (location m to))

abbrev pub bounded : PathLatency → Bool
bounded p = leb p.latency_us max_configured_delay_us && leb p.jitter_us max_configured_delay_us

abbrev pub blank : Name → Bool
blank [] = true
blank (c ∷ name) = false

-- The locations in use, as the `BTreeSet` of `validate`.
unfoldable pub used : List Placement → Map Name (Unit {0}) → Map Name (Unit {0})
used [] m = m
used (p ∷ placements) m = used placements (Map.insert p.location tt m)

abbrev pub joined : Option PathLatency → Bool
joined none = false
joined (some path) = true

-- Every location is linked to each later one.
unfoldable pub all_linked : LatencyMap → List Name → Bool
unfolding link
all_linked m [] = true
all_linked m (first ∷ rest) = all (λ second. joined (link m first second)) rest && all_linked m rest

unfoldable pub validate : LatencyMap → Result AdmissionError (Unit {0})
unfolding sort used all_linked
validate m = do
  reject_if (not (bounded m.local) || not (all (λ l. bounded l.latency) m.links)) invalid_policy
  reject_if (ltb max_jitter_streams (length m.participants + length m.venues + length m.links))
      invalid_policy
  reject_if
      (blank m.default_location
        || any (λ p. blank p.location) m.participants
        || any (λ p. blank p.location) m.venues
        || any (λ l. blank l.first || blank l.second) m.links)
      invalid_policy
  reject_if
      (has_equal_neighbours ltb ◌==◌ (sort ltb ◌==◌ (map (λ p. p.id) m.participants))
        || has_equal_neighbours ltb ◌==◌ (sort ltb ◌==◌ (map (λ p. p.id) m.venues))
        || has_equal_neighbours key_lt key_eq (sort key_lt key_eq (map link_key m.links)))
      invalid_policy
  reject_if (any (λ l. name_eq l.first l.second) m.links) invalid_policy
  reject_if
      (not (
        all_linked m
          (Map.keys (used m.venues (used m.participants (Map.insert m.default_location tt []))))))
      invalid_policy
  ok tt

abbrev pub wrapping : ℕ → ℕ
wrapping a = a % 2 ^ 64

abbrev pub shift_xor : ℕ → ℕ → ℕ
shift_xor z k = bit_xor z (z / 2 ^ k)

unfoldable pub splitmix64 : ℕ → ℕ
splitmix64 value =
    let z = wrapping (value + 11400714819323198485) in
    let z' = wrapping (shift_xor z 30 * 13787848793156543929) in
    let z'' = wrapping (shift_xor z' 27 * 10723151780598845931) in shift_xor z'' 31

abbrev pub fold_seed : ℕ → ℕ → ℕ
fold_seed tag value =
    splitmix64 (bit_xor tag (splitmix64 (bit_xor (value % 2 ^ 64) (splitmix64 (value / 2 ^ 64)))))

unfoldable pub endpoint_seed : Endpoint → ℕ
endpoint_seed (participant id) = fold_seed 1 id
endpoint_seed (venue id) = fold_seed 2 id
endpoint_seed hub = fold_seed 3 0

-- The derived order of endpoints, by variant and then identifier, through a pair.
abbrev pub endpoint_rank : Endpoint → ℕ × ℕ
endpoint_rank (participant id) = (0, id)
endpoint_rank (venue id) = (1, id)
endpoint_rank hub = (2, 0)

pub record LatencyModel : Type 0 where
  pub map : LatencyMap
  pub streams : List ((Endpoint × Endpoint) × ℕ)

unfoldable pub new_model : LatencyMap → Result AdmissionError LatencyModel
unfolding validate
new_model m = do validate m; ok (record { map = m; streams = [] })

abbrev pub stream_eq : Endpoint × Endpoint → Endpoint × Endpoint → Bool
stream_eq (a, b) (c, d) =
    pair_eq (endpoint_rank a) (endpoint_rank c) && pair_eq (endpoint_rank b) (endpoint_rank d)

abbrev pub stream_lt : Endpoint × Endpoint → Endpoint × Endpoint → Bool
stream_lt (a, b) (c, d) =
    pair_lt (endpoint_rank a) (endpoint_rank c)
    || (pair_eq (endpoint_rank a) (endpoint_rank c) && pair_lt (endpoint_rank b) (endpoint_rank d))

unfoldable pub stream_position : Endpoint × Endpoint → List ((Endpoint × Endpoint) × ℕ) → Option ℕ
stream_position key [] = none
stream_position key ((j, n) ∷ streams) =
    if stream_eq key j then some n else stream_position key streams

unfoldable pub set_position :
    Endpoint × Endpoint → ℕ → List ((Endpoint × Endpoint) × ℕ) → List ((Endpoint × Endpoint) × ℕ)
set_position key n [] = (key, n) ∷ []
set_position key n ((j, k) ∷ streams) =
    let rest = set_position key n streams in
    if stream_eq key j
    then (j, n) ∷ streams
    else if stream_lt key j
    then (key, n) ∷ (j, k) ∷ streams
    else (j, k) ∷ rest

-- The jitter of position `current` of a directed pair's stream.
unfoldable pub draw : ℕ → Endpoint → Endpoint → ℕ → ℕ
unfolding splitmix64 endpoint_seed
draw seed from to current = splitmix64 (
    bit_xor
      (splitmix64
        (bit_xor seed (splitmix64 (bit_xor (endpoint_seed from) (splitmix64 (endpoint_seed to))))))
      (splitmix64 current))

unfoldable pub delay_with_position :
    Endpoint → Endpoint → LatencyModel → Result AdmissionError ((ℕ × Option ℕ) × LatencyModel)
unfolding path stream_position set_position draw
delay_with_position from to m =
    let p = path m.map from to in
    if p.jitter_us == 0
    then ok ((p.latency_us, none), m)
    else jittered p (stream_position (from, to) m.streams)
  where
    go : PathLatency → ℕ → Result AdmissionError ((ℕ × Option ℕ) × LatencyModel)
    go p current = ok (
      (p.latency_us + draw m.map.jitter_seed from to current % (p.jitter_us + 1), some current),
      record m { streams = set_position (from, to) (wrapping (current + 1)) m.streams },
    )

    jittered : PathLatency → Option ℕ → Result AdmissionError ((ℕ × Option ℕ) × LatencyModel)
    jittered p none =
        if leb max_jitter_streams (length m.streams)
        then err (too_many_streams max_jitter_streams)
        else go p 0
    jittered p (some current) = go p current

unfoldable pub delay_us :
    Endpoint → Endpoint → LatencyModel → Result AdmissionError (ℕ × LatencyModel)
unfolding delay_with_position
delay_us from to m = do delayed ← delay_with_position from to m; ok (delayed.0.0, delayed.1)

unfoldable pub decide :
    ℕ
    → DelayEstimator
    → ℕ
    → Endpoint
    → LatencyModel
    → Result AdmissionError (AdmissionRecord × LatencyModel)
unfolding delay_with_position
decide received_us measured team destination m = do
  delayed ← delay_with_position (participant team) destination m
  ok (
    record {
      received_us = received_us;
      measured_one_way_us = one_way_us measured;
      rtt_source = source measured;
      destination = destination;
      path_latency_us = delayed.0.0;
      jitter_position = delayed.0.1;
      release_us = saturating_add received_us delayed.0.0;
      arrival_sequence = 0;
    },
    delayed.1,
  )
