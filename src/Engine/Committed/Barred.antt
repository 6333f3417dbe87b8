-- ===== src/Engine/Committed/Barred.antt =====
-- A participant whose kill switch is on gets no order in (packages/bunting-engine/src/lib.rs).
use bunting.Prelude.{
  ℕ, ◌+◌, true, false, Option, none, some, ◌≡◌, refl, ap, ◌∙◌, arith, ok, inl, inr, Bool-cases,
}
use bunting.Prelude.Ord.{nat_ord, pair_ord}
use bunting.Prelude.Map.{get, contains_key}
use bunting.Market.{SubmitOrder, RejectCode, run_not_active, kill_switch_active}
use bunting.Engine.{Simulation, RunState, Work, ListingKey, OwnedOrder}
use bunting.Engine.Sessions.{catch_up}
use bunting.Engine.Commit.{
  Command, CommandPayload, submit_order, submit_order_at_listing, cancel_order, reset_kill_switch,
  Applied, finish,
}
use bunting.Engine.Commit
use bunting.Engine.Commit.Numbered.{finish-numbers}
use bunting.Engine.Commit.Retired.{finish-absent}
use bunting.Engine.Transition.{
  Verdict, accepts, gate, gated_submit, take_submit, act, stage, started, apply,
}
use bunting.Engine.Committed.{apply-ok}
use bunting.Engine.Stays.{law, >>=-ok, known, terms_if}
use bunting.Engine.Stays.Transition.{catch_up-Keeps}

-- The order that a command submits.
abbrev pub submitted : CommandPayload → Option SubmitOrder
submitted (submit_order order) = some order
submitted (submit_order_at_listing key order) = some order
submitted _ = none

terms_if-none : (o : Option OwnedOrder) → terms_if o ≡ none → o ≡ none
terms_if-none none h = refl
terms_if-none (some o) h = cc

module _ {sim : Simulation} where
  gate-shut :
      (run : RunState sim) (order : SubmitOrder)
      → contains_key order.participant_id run.kill_switched ≡ true
      → (code : RejectCode) × (gate run order ≡ some code)
  unfolding gate
  gate-shut run order barred = elim (Bool-cases (sim.is_running run.simulation)) [
    | inl e ↦ (kill_switch_active, ground arith)
    | inr e ↦ (run_not_active, ground arith)
  ]

  -- The gate is shut to a participant whose switch is on, and a shut gate changes nothing.
  take_submit-barred :
      (order : SubmitOrder) (o : Option ListingKey) (now : ℕ) (w w' : Work sim) (v : Verdict)
      → contains_key order.participant_id w.run.kill_switched ≡ true
      → take_submit order o now w ≡ ok (v, w')
      → (accepts v.0 ≡ false) × (w'.run ≡ w.run)
  unfolding take_submit gated_submit
  take_submit-barred order none now w w' v barred h = absurd (ground arith)
  take_submit-barred order (some key) now w w' v barred h =
      let (code, g) = gate-shut w.run order barred in (ground arith, ground arith)

  act-barred :
      (command : Command) (o : Option ListingKey) (payload : CommandPayload) (order : SubmitOrder)
      (w w' : Work sim) (v : Verdict)
      → submitted payload ≡ some order
      → contains_key order.participant_id w.run.kill_switched ≡ true
      → act command o payload w ≡ ok (v, w')
      → (accepts v.0 ≡ false) × (w'.run ≡ w.run)
  unfolding act
  act-barred command o (submit_order x) order w w' v e barred h =
      take_submit-barred x o command.metadata.logical_time w w' v (ground arith) h
  act-barred command o (submit_order_at_listing k x) order w w' v e barred h =
      take_submit-barred x o command.metadata.logical_time w w' v (ground arith) h
  act-barred command o (cancel_order id participant) order w w' v e barred h = cc
  act-barred command o Commit.activate_kill_switch order w w' v e barred h = cc
  act-barred command o reset_kill_switch order w w' v e barred h = cc

  stage-barred :
      (command : Command) (o : Option ListingKey) (order : SubmitOrder) (run : RunState sim)
      (w : Work sim) (v : Verdict)
      → submitted command.payload ≡ some order
      → contains_key order.participant_id run.kill_switched ≡ true
      → stage command o (started run) ≡ ok (v, w)
      → (accepts v.0 ≡ false) × ((id : ℕ) → known id w.run ≡ known id run)
  unfolding stage
  stage-barred command o order run w v e barred h =
      let (u, next, c, h') =
        >>=-ok (catch_up command.metadata.logical_time false) (λ _. act command o command.payload)
          (started run) w v h in
      let s = law (catch_up-Keeps command.metadata.logical_time false) (started run) next u c in
      let switches : next.run.kill_switched ≡ run.kill_switched =
        ap (λ n. n.kill_switched) s.numbers in
      let (a, same) =
        act-barred command o command.payload order next w v e
          (ap (contains_key order.participant_id) switches ∙ barred) h' in
      (a, λ id. ap (known id) same ∙ s.knows id)

  -- When a command that submits an order is applied on a run where the order's participant is
  -- kill-switched, whatever else falls due by then, the order is refused, and no order is on record
  -- that was not before.
  pub apply-bars :
      (command : Command) (run run' : RunState sim) (applied : Applied sim.Event)
      (order : SubmitOrder)
      → submitted command.payload ≡ some order
      → contains_key order.participant_id run.kill_switched ≡ true
      → apply command run ≡ ok (applied, run')
      → (id : ℕ) → get id run.ownership ≡ none
      → (applied.accepted ≡ false) × (get id run'.ownership ≡ none)
  apply-bars command run run' applied order e barred h id g =
      let (key, v, w, r, s, f) = apply-ok command run run' applied h in
      let (refused, same) = stage-barred command key order run w v e barred s in
      let (_, _, _, _, _, a) =
        finish-numbers command.metadata (run.sequence + 1) (accepts v.0) v.0 v.1 w applied run' f in
      (
        a ∙ refused,
        finish-absent command.metadata (run.sequence + 1) (accepts v.0) v.0 v.1 w applied run' f id
            (terms_if-none (get id w.run.ownership) (same id ∙ ap terms_if g)),
      )
