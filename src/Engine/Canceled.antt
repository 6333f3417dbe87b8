-- ===== src/Engine/Canceled.antt =====
-- What `RunState::cancel` of packages/bunting-engine/src/lib.rs does to a run.
use bunting.Prelude.{
  ℕ, true, false, some, ◌≡◌, arith, ok, err, inl, inr, Option-cases, Bool-cases, ◌≢◌,
}
use bunting.Prelude.Ord.{nat_ord, pair_ord}
use bunting.Prelude.Map.{get, insert}
use bunting.Engine.{
  Simulation, Work, with_ledger, with_book, diverged, OwnedOrder, is_active, CancelReason,
}
use bunting.Engine.Orders.{cancel, closed_out, drop_entry}

module _ {sim : Simulation} (id : ℕ) (reason : CancelReason) (w : Work sim) where
  pub cancel-owned :
      {w' : Work sim} {u : Unit {0}}
      → cancel id reason w ≡ ok (u, w')
      → (owned : OwnedOrder) × (get id w.run.ownership ≡ some owned)
        × (is_active owned.state ≡ true)
  unfolding cancel
  cancel-owned h = elim (Option-cases (get id w.run.ownership)) [
    | inl e ↦ absurd (ground arith)
    | inr (owned, e) ↦ elim (Bool-cases (is_active owned.state)) [
      | inl a ↦ (owned, e, a)
      | inr a ↦ absurd (ground arith)
    ]
  ]

  pub cancel-ok :
      (w' : Work sim) (u : Unit {0}) (owned : OwnedOrder)
      → get id w.run.ownership ≡ some owned
      → cancel id reason w ≡ ok (u, w')
      → (w'.run.ownership ≡ insert id (closed_out owned) w.run.ownership)
        × (w'.run.expiries ≡ (drop_entry {sim = sim} owned.expires_at id w.run).expiries)
  unfolding cancel with_ledger with_book
  cancel-ok w' u owned e h = ground arith

  pub cancel-terminates : cancel id reason w ≢ err diverged
  unfolding cancel with_ledger with_book
  cancel-terminates h = ground arith

  pub cancel-inactive :
      (owned : OwnedOrder)
      → get id w.run.ownership ≡ some owned
      → is_active owned.state ≡ false
      → {w' : Work sim} {u : Unit {0}} → cancel id reason w ≢ ok (u, w')
  unfolding cancel with_ledger with_book
  cancel-inactive owned e a h = ground arith

  pub cancel-switches :
      (w' : Work sim) (u : Unit {0}) (owned : OwnedOrder)
      → get id w.run.ownership ≡ some owned
      → cancel id reason w ≡ ok (u, w')
      → w'.run.kill_switched ≡ w.run.kill_switched
  unfolding cancel with_ledger with_book
  cancel-switches w' u owned e h = ground arith
