-- ===== src/Engine/Balanced.antt =====
-- Steps of the engine that make no money and no lots (packages/bunting-engine/src/lib.rs), first of
-- all the settlement of executions.
pub mod Steps
pub mod Clock
pub mod Commands
use bunting.Prelude.{
  ℕ, Bool, true, false, Option, none, some, List, [], ◌∷◌, ◌≡◌, refl, sym, subst, ap, ◌∙◌,
  if◌then◌else◌, arith, Result, ok, err, inl, inr, Option-cases, Result-cases,
}
use bunting.Prelude.Ord.{nat_ord, pair_ord}
use bunting.Prelude.Map.{IsSorted}
use bunting.Prelude.Map.Sums.{sum_of}
use bunting.Market.{PriceTicks, QuantityLots}
use bunting.Ledger.{Ledger, Fill, FillParty}
use bunting.Ledger.Fills.{settle}
use bunting.Ledger.Settled.Conserved.{money_in, lots_of, settle-conserves, settle-IsSorted}
use bunting.Engine.{
  Simulation, RunState, Work, E, ◌>>=◌, ◌>>◌, ask, done, need, refuse_if, emit, touch, change,
  with_book, EngineError, EventPayload, ListingKey, with_ledger,
}
use bunting.Engine.Stays.{>>=-ok}
use bunting.Book.{Match, Cross}
use bunting.Book
use bunting.Engine.Clock.{settle_crosses}
use bunting.Engine.Orders.{
  post_fill, reduce_order, drop_expiry, settle_fill, settle_matches, note_trade,
}

-- A ledger whose accounts are in key order.
pub record InOrder (l : Ledger) : Type 0 where
  pub cash_sorted : IsSorted l.cash
  pub positions_sorted : IsSorted l.positions

-- The second ledger holds the money and the lots of the first, and is in order if the first is.
pub record Conserves (currency instrument : ℕ) (l l' : Ledger) : Type 0 where
  pub in_order : InOrder l'
  pub money : sum_of (money_in currency) l'.cash ≡ sum_of (money_in currency) l.cash
  pub lots : sum_of (lots_of instrument) l'.positions ≡ sum_of (lots_of instrument) l.positions

module _ {sim : Simulation} where
  reduce_order-ledger :
      (id : ℕ) (quantity : QuantityLots) (report : Bool) (w w' : Work sim) (u : Unit {0})
      → reduce_order id quantity report w ≡ ok (u, w')
      → w'.run.ledger ≡ w.run.ledger
  unfolding reduce_order
  reduce_order-ledger id quantity report w w' u h = ground arith

  drop_expiry-ledger :
      (id : ℕ) (at : Option ℕ) (w w' : Work sim) (u : Unit {0})
      → drop_expiry id at w ≡ ok (u, w')
      → w'.run.ledger ≡ w.run.ledger
  unfolding drop_expiry
  drop_expiry-ledger id none w w' u h = ground arith
  drop_expiry-ledger id (some at) w w' u h = ground arith

  post_fill-ledger :
      (key : ListingKey) (price : PriceTicks) (quantity : QuantityLots) (b s : FillParty)
      (w w' : Work sim) (u : Unit {0})
      → post_fill key price quantity b s w ≡ ok (u, w')
      → (fill : Fill) × (fill.buyer ≡ some b)
        × (fill.seller ≡ some s)
        × (settle fill w.run.ledger ≡ ok w'.run.ledger)
  unfolding post_fill with_ledger
  post_fill-ledger key price quantity b s w w' u h = (
    record {
      instrument = key.1;
      price = price;
      quantity = quantity;
      buyer = some b;
      seller = some s;
      set_mark = true;
    },
    refl,
    refl,
    ground arith,
  )

module _ {sim : Simulation} (currency instrument : ℕ) where
  pub data Balanced {A : Type 0} (m : E sim A) : Type 0 where
    by_sums :
        ((w w' : Work sim) (a : A)
          → InOrder w.run.ledger
          → m w ≡ ok (a, w')
          → Conserves currency instrument w.run.ledger w'.run.ledger)
        → Balanced m

  abbrev pub sums_law :
      {A : Type 0} {m : E sim A}
      → Balanced m
      → (w w' : Work sim) (a : A) → InOrder w.run.ledger
      → m w ≡ ok (a, w')
      → Conserves currency instrument w.run.ledger w'.run.ledger
  sums_law (by_sums l) = l

  pub Balanced->>= :
      {A B : Type 0} {m : E sim A} {f : A → E sim B}
      → Balanced m
      → ((a : A) → Balanced (f a))
      → Balanced (m >>= f)
  Balanced->>= {m = m} {f = f} (by_sums km) kf = by_sums (λ w w' b v h.
      let (a, next, c, h') = >>=-ok m f w w' b h in
      let x = km w next a v c in
      let y = sums_law (kf a) next w' b x.in_order h' in
      record { in_order = y.in_order; money = y.money ∙ x.money; lots = y.lots ∙ x.lots })

  -- A step that leaves the ledger alone.
  pub Balanced-same :
      {A : Type 0} (m : E sim A)
      → ((w w' : Work sim) (a : A) → m w ≡ ok (a, w') → w'.run.ledger ≡ w.run.ledger)
      → Balanced m
  Balanced-same m same = by_sums (λ w w' a v h.
      subst (Conserves currency instrument w.run.ledger) (sym (same w w' a h))
        (record { in_order = v; money = refl; lots = refl }))

  pub Balanced-done : {A : Type 0} (a : A) → Balanced (done a)
  Balanced-done a = Balanced-same (done a) (λ w w' x h. ground arith)

  pub Balanced-ask : Balanced ask
  Balanced-ask = Balanced-same ask (λ w w' x h. ground arith)

  pub Balanced-need : {A : Type 0} (o : Option A) (e : EngineError) → Balanced (need o e)
  Balanced-need none e = Balanced-same (need none e) (λ w w' x h. absurd (ground arith))
  Balanced-need (some a) e = Balanced-same (need (some a) e) (λ w w' x h. ground arith)

  pub Balanced-refuse_if : (b : Bool) (e : EngineError) → Balanced (refuse_if b e)
  Balanced-refuse_if true e = Balanced-same (refuse_if true e) (λ w w' x h. absurd (ground arith))
  Balanced-refuse_if false e = Balanced-same (refuse_if false e) (λ w w' x h. ground arith)

  pub Balanced-emit : (p : EventPayload sim.Event) → Balanced (emit p)
  Balanced-emit p = Balanced-same (emit p) (λ w w' x h. ground arith)

  pub Balanced-if :
      {A : Type 0} (b : Bool) (m k : E sim A)
      → Balanced m
      → Balanced k
      → Balanced (if b then m else k)
  Balanced-if true m k x y = x
  Balanced-if false m k x y = y

  pub Balanced-reduce_order :
      (id : ℕ) (quantity : QuantityLots) (report : Bool)
      → Balanced (reduce_order id quantity report)
  Balanced-reduce_order id quantity report =
      Balanced-same (reduce_order id quantity report) (reduce_order-ledger id quantity report)

  pub Balanced-drop_expiry : (id : ℕ) (at : Option ℕ) → Balanced (drop_expiry id at)
  Balanced-drop_expiry id at = Balanced-same (drop_expiry id at) (drop_expiry-ledger id at)

  pub Balanced-post_fill :
      (key : ListingKey) (price : PriceTicks) (quantity : QuantityLots) (b s : FillParty)
      → Balanced (post_fill key price quantity b s)
  Balanced-post_fill key price quantity b s = by_sums (λ w w' u v h.
      let (fill, eb, es, f) = post_fill-ledger key price quantity b s w w' u h in
      let (cash, positions) =
        settle-IsSorted fill w.run.ledger w'.run.ledger b s v.cash_sorted v.positions_sorted eb es
          f in
      let (money, lots) =
        settle-conserves fill w.run.ledger w'.run.ledger b s currency instrument v.cash_sorted
          v.positions_sorted eb es f in
      record {
        in_order = record { cash_sorted = cash; positions_sorted = positions };
        money = money;
        lots = lots;
      })

  pub Balanced-touch : (key : ListingKey) → Balanced (touch key)
  Balanced-touch key = Balanced-same (touch key) (λ w w' x h. ground arith)

  pub Balanced-with_book :
      {A : Type 0} (key : ListingKey) (m : Book.M A) → Balanced (with_book key m)
  unfolding with_book
  Balanced-with_book key m = Balanced-same (with_book key m) (λ w w' x h. ground arith)

  pub Balanced-change :
      (f : RunState sim → RunState sim)
      → ((run : RunState sim) → (f run).ledger ≡ run.ledger)
      → Balanced (change f)
  Balanced-change f same = Balanced-same (change f) (λ w w' x h. let s = same w.run in ground arith)

  pub ruleset balanced = (
    Balanced->>=, Balanced-done, Balanced-ask, Balanced-need, Balanced-refuse_if, Balanced-emit,
    Balanced-if, Balanced-touch, Balanced-with_book,
  )

  pub Balanced-settle_fill :
      (key : ListingKey) (maker taker : ℕ) (price : PriceTicks) (quantity : QuantityLots)
      (auction : Bool)
      → Balanced (settle_fill key maker taker price quantity auction)
  unfolding settle_fill
  Balanced-settle_fill key maker taker price quantity auction =
      search (balanced, Balanced-reduce_order, Balanced-drop_expiry, Balanced-post_fill) depth 40

  pub Balanced-settle_matches :
      (taker : ℕ) (key : ListingKey) (ms : List Match) → Balanced (settle_matches taker key ms)
  unfolding settle_matches
  Balanced-settle_matches taker key [] = search balanced
  Balanced-settle_matches taker key (m ∷ ms) =
      search (balanced, Balanced-settle_fill, Balanced-settle_matches taker key ms)

  pub Balanced-settle_crosses :
      (key : ListingKey) (price : PriceTicks) (cs : List Cross)
      → Balanced (settle_crosses key price cs)
  unfolding settle_crosses
  Balanced-settle_crosses key price [] = search balanced
  Balanced-settle_crosses key price (c ∷ cs) =
      search (balanced, Balanced-settle_fill, Balanced-settle_crosses key price cs)
