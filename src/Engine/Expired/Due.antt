-- ===== src/Engine/Expired/Due.antt =====
-- Which orders `expire_due` of packages/bunting-engine/src/lib.rs closes.
use bunting.Prelude.{ℕ, true, ◌≡◌, Result, ok, err}
use bunting.Prelude.Ord.{nat_ord, pair_ord}
use bunting.Prelude.Map.{get}
use bunting.Engine.{Simulation, Work, EngineError, expired}
use bunting.Engine.Orders.{cancel}
use bunting.Engine.Expired.Index.{overdue, after_expiry, Indexed}

module _ {sim : Simulation} where
  -- What may come of closing the orders that are overdue at `now`: they, and no other order, are
  -- closed, or the cancel of one of them fails with the error.
  pub data Outcome (now : ℕ) (w : Work sim)
      : Result EngineError (Unit {0} × Work sim) → Type 0 where
    closes :
        (w' : Work sim)
        → ((j : ℕ) → get j w'.run.ownership ≡ after_expiry now (get j w.run.ownership))
        → Indexed w'.run.expiries w'.run.ownership
        → Outcome now w (ok (tt, w'))
    stops :
        (id : ℕ) (next : Work sim) (e : EngineError)
        → overdue now (get id w.run.ownership) ≡ true
        → get id next.run.ownership ≡ get id w.run.ownership
        → cancel id expired next ≡ err e
        → Outcome now w (err e)
