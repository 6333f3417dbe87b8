-- ===== src/Engine/Stays.antt =====
-- The parts of a run that no operation between two commits changes (packages/bunting-engine/src/lib.rs):
-- its numbering, its participants and switches, and the terms of the orders it knows.
pub mod Orders
pub mod Clock
pub mod Transition
pub mod Taken
pub mod Counted
pub mod Requests
use bunting.Prelude.{
  ℕ, Bool, true, false, Option, none, some, ◌≡◌, refl, sym, ap, ◌∙◌, arith, Result, ok, err, inl,
  inr, Result-cases, Bool-cases, List, if◌then◌else◌, ==_iff, ◌==◌,
}
use bunting.Prelude.Ord.{nat_ord, pair_ord}
use bunting.Prelude.Map.{Map, get, insert, get-insert}
use bunting.Market.{Side, PriceTicks, QuantityLots}
use bunting.Book
use bunting.Ledger.{Ledger, LedgerError, Reservation}
use bunting.Engine.{
  Simulation, RunState, Work, E, ◌>>=◌, ◌>>◌, ask, done, need, refuse_if, change, emit, touch,
  with_ledger, with_book, EngineError, EventPayload, OwnedOrder, ListingKey, ParticipantDefinition,
}
use bunting.Engine.Orders.{own}

-- The terms that an order is admitted with.
pub record Terms : Type 0 where
  pub order_id : ℕ
  pub participant_id : ℕ
  pub listing_key : ListingKey
  pub side : Side
  pub limit_price : PriceTicks
  pub original_quantity : QuantityLots
  pub reservation : Reservation
  pub expires_at : Option ℕ

abbrev pub terms : OwnedOrder → Terms
terms o = record {
  order_id = o.order_id;
  participant_id = o.participant_id;
  listing_key = o.listing_key;
  side = o.side;
  limit_price = o.limit_price;
  original_quantity = o.original_quantity;
  reservation = o.reservation;
  expires_at = o.expires_at;
}

abbrev pub terms_if : Option OwnedOrder → Option Terms
terms_if none = none
terms_if (some o) = some (terms o)

-- The run's identity, its two counters, its participants and the thrown kill switches.
pub record Numbering : Type 0 where
  pub run_id : ℕ
  pub sequence : ℕ
  pub event_sequence : ℕ
  pub participants : Map ℕ ParticipantDefinition
  pub kill_switched : Map ℕ (Unit {0})

module _ {sim : Simulation} where
  abbrev pub numbering : RunState sim → Numbering
  numbering run = record {
    run_id = run.run_id;
    sequence = run.sequence;
    event_sequence = run.event_sequence;
    participants = run.participants;
    kill_switched = run.kill_switched;
  }

  abbrev pub known : ℕ → RunState sim → Option Terms
  known id run = terms_if (get id run.ownership)

  pub record Stays (run run' : RunState sim) : Type 0 where
    pub numbers : numbering run' ≡ numbering run
    pub knows : (id : ℕ) → known id run' ≡ known id run

  pub Stays-trans : {r s t : RunState sim} → Stays r s → Stays s t → Stays r t
  Stays-trans a b = record {
    numbers = b.numbers ∙ a.numbers;
    knows = λ id. b.knows id ∙ a.knows id;
  }

  pub data Keeps {A : Type 0} (m : E sim A) : Type 0 where
    by_law : ((w w' : Work sim) (a : A) → m w ≡ ok (a, w') → Stays w.run w'.run) → Keeps m

  abbrev pub law :
      {A : Type 0} {m : E sim A}
      → Keeps m
      → (w w' : Work sim) (a : A) → m w ≡ ok (a, w')
      → Stays w.run w'.run
  law (by_law l) = l

  pub >>=-ok :
      {A B : Type 0} (m : E sim A) (f : A → E sim B) (w w' : Work sim) (b : B)
      → (m >>= f) w ≡ ok (b, w')
      → (a : A) × (next : Work sim) × (m w ≡ ok (a, next)) × (f a next ≡ ok (b, w'))
  >>=-ok m f w w' b h = elim (Result-cases (m w)) [
    | inr (e, c) ↦ absurd (ground arith)
    | inl ((a, next), c) ↦ (a, next, c, ground arith)
  ]

  pub Keeps->>= :
      {A B : Type 0} {m : E sim A} {f : A → E sim B}
      → Keeps m
      → ((a : A) → Keeps (f a))
      → Keeps (m >>= f)
  Keeps->>= {m = m} {f = f} (by_law km) kf = by_law (λ w w' b h.
      let (a, next, c, h') = >>=-ok m f w w' b h in
      Stays-trans (km w next a c) (law (kf a) next w' b h'))

  -- A step that leaves the numbering and the orders alone.
  pub Keeps-same :
      {A : Type 0} (m : E sim A)
      → ((w w' : Work sim) (a : A)
          → m w ≡ ok (a, w')
          → (numbering w'.run ≡ numbering w.run) × (w'.run.ownership ≡ w.run.ownership))
      → Keeps m
  Keeps-same m same = by_law (λ w w' a h.
      let (n, o) = same w w' a h in
      record { numbers = n; knows = λ id. ap (λ own. terms_if (get id own)) o })

  pub Keeps-done : {A : Type 0} (a : A) → Keeps (done {sim = sim} a)
  Keeps-done a = Keeps-same (done a) (λ w w' x h. (ground arith, ground arith))

  pub Keeps-ask : Keeps (ask {sim = sim})
  Keeps-ask = Keeps-same ask (λ w w' x h. (ground arith, ground arith))

  pub Keeps-need : {A : Type 0} (o : Option A) (e : EngineError) → Keeps (need {sim = sim} o e)
  Keeps-need none e = Keeps-same (need none e) (λ w w' x h. absurd (ground arith))
  Keeps-need (some a) e = Keeps-same (need (some a) e) (λ w w' x h. (ground arith, ground arith))

  pub Keeps-refuse_if : (b : Bool) (e : EngineError) → Keeps (refuse_if {sim = sim} b e)
  Keeps-refuse_if true e = Keeps-same (refuse_if true e) (λ w w' x h. absurd (ground arith))
  Keeps-refuse_if false e =
      Keeps-same (refuse_if false e) (λ w w' x h. (ground arith, ground arith))

  pub Keeps-emit : (p : EventPayload sim.Event) → Keeps (emit {sim = sim} p)
  Keeps-emit p = Keeps-same (emit p) (λ w w' x h. (ground arith, ground arith))

  pub Keeps-touch : (key : ListingKey) → Keeps (touch {sim = sim} key)
  Keeps-touch key = Keeps-same (touch key) (λ w w' x h. (ground arith, ground arith))

  pub Keeps-with_ledger :
      (f : Ledger → Result LedgerError Ledger) → Keeps (with_ledger {sim = sim} f)
  unfolding with_ledger
  Keeps-with_ledger f = Keeps-same (with_ledger f) (λ w w' x h. (ground arith, ground arith))

  pub Keeps-with_book :
      {A : Type 0} (key : ListingKey) (m : Book.M A) → Keeps (with_book {sim = sim} key m)
  unfolding with_book
  Keeps-with_book key m = Keeps-same (with_book key m) (λ w w' x h. (ground arith, ground arith))

  pub Keeps-change :
      (f : RunState sim → RunState sim)
      → ((run : RunState sim)
          → (numbering (f run) ≡ numbering run) × ((f run).ownership ≡ run.ownership))
      → Keeps (change f)
  Keeps-change f same =
      Keeps-same (change f) (λ w w' x h. let (n, o) = same w.run in (ground arith, ground arith))

  pub Keeps-if :
      {A : Type 0} (b : Bool) (m k : E sim A) → Keeps m → Keeps k → Keeps (if b then m else k)
  Keeps-if true m k a b = a
  Keeps-if false m k a b = b

  -- An order that the run knows is put back with its terms.
  pub own-Keeps :
      (id : ℕ) (old new : OwnedOrder) (run : RunState sim)
      → get id run.ownership ≡ some old
      → terms new ≡ terms old
      → Stays run (own id new run)
  own-Keeps id old new run g t = record {
    numbers = refl;
    knows = λ j. elim (Bool-cases (j == id)) [
      | inl e ↦
          ap terms_if (get-insert id j new run.ownership) ∙ rw (e, (==_iff j id).0 e, g) (ap some t)
      | inr e ↦ ap terms_if (get-insert id j new run.ownership) ∙ rw e refl
    ];
  }

pub ruleset keeps = (
  Keeps->>=, Keeps-done, Keeps-ask, Keeps-need, Keeps-refuse_if, Keeps-emit, Keeps-touch,
  Keeps-with_ledger, Keeps-with_book, Keeps-if,
)
