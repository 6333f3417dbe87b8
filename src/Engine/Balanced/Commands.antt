-- ===== src/Engine/Balanced/Commands.antt =====
-- A command makes no money and no lots (`RunState::apply` of packages/bunting-engine/src/lib.rs).
use bunting.Prelude.{
  ℕ, suc, ◌+◌, subst, map, Bool, false, Option, none, some, List, [], ◌∷◌, ◌≡◌, refl, sym, ◌∙◌,
  arith, Result, ok, err, inl, inr, Option-cases, Result-cases,
}
use bunting.Prelude.Ord.{nat_ord, pair_ord}
use bunting.Market.{SubmitOrder, RejectCode}
use bunting.Engine.{
  Simulation, RunState, Work, E, ◌>>=◌, ◌>>◌, ask, change, ListingKey, OwnedOrder, EventPayload,
  order_completed, order_canceled, domain,
}
use bunting.Engine.Clock.{expire_due}
use bunting.Engine.Sessions.{catch_up, domain_step, boundary_loop, boundaries}
use bunting.Engine.Commit.{
  Command, CommandPayload, submit_order, submit_order_at_listing, cancel_order, reset_kill_switch,
  Metadata, Applied, project, finish, retire_event, retire, drop_live, envelope,
}
use bunting.Engine.Commit
use bunting.Engine.Transition.{
  judge, gated_submit, take_submit, cancel_found, cancel_of, switch_on, switch_off,
  activate_kill_switch, act, stage, started, accepts, apply,
}
use bunting.Engine.Committed.{apply-ok}
use bunting.Engine.Stays.{>>=-ok}
use bunting.Engine.Balanced.{InOrder, Conserves, Balanced, sums_law, Balanced-change, balanced}
use bunting.Engine.Balanced.Steps.{cancel-Balanced, cancel_all-Balanced, submit-Balanced}
use bunting.Engine.Balanced.Clock.{expire_due-Balanced, boundary_loop-Balanced}

module _ {sim : Simulation} where
  retire-ledger : (id : ℕ) (run : RunState sim) → (retire id run).ledger ≡ run.ledger
  unfolding retire drop_live
  retire-ledger id run = ground arith

  retire_event-ledger :
      (p : EventPayload sim.Event) (run : RunState sim) → (retire_event p run).ledger ≡ run.ledger
  unfolding retire_event
  retire_event-ledger (order_completed id) run = retire-ledger id run
  retire_event-ledger (order_canceled id participant key quantity reason) run = retire-ledger id run
  retire_event-ledger p run = ground arith

  project-ledger :
      (now : ℕ) (ps : List (EventPayload sim.Event)) (run run' : RunState sim)
      → project now ps run ≡ ok run'
      → run'.ledger ≡ run.ledger
  unfolding project
  project-ledger now [] run run' h = ground arith
  project-ledger now (p ∷ ps) run run' h =
      elim (Option-cases (sim.project_event now p run.simulation)) [
        | inl e ↦ absurd (ground arith)
        | inr (state, e) ↦
            project-ledger now ps (retire_event p (record run { simulation = state })) run'
              (ground arith)
            ∙ retire_event-ledger p (record run { simulation = state })
      ]

  finish-ledger :
      (command : Metadata) (next : ℕ) (accepted : Bool) (code : Option RejectCode)
      (order_id : Option ℕ) (w : Work sim) (applied : Applied sim.Event) (run' : RunState sim)
      → finish command next accepted code order_id w ≡ ok (applied, run')
      → run'.ledger ≡ w.run.ledger
  unfolding finish
  finish-ledger command next accepted code order_id w applied run' h =
      elim (Result-cases (project command.logical_time w.payloads w.run)) [
        | inr (e, c) ↦ absurd (ground arith)
        | inl (run, c) ↦
            let same = project-ledger command.logical_time w.payloads w.run run c in
            elim (Result-cases (envelope command run.event_sequence w.payloads)) [
              | inr (e, c') ↦ absurd (ground arith)
              | inl (events, c') ↦ ground (arith, same)
            ]
      ]

module _ {sim : Simulation} (currency instrument : ℕ) where
  abbrev Steady : {A : Type 0} → E sim A → Type 0
  Steady m = Balanced currency instrument m

  judge-Balanced : (id : ℕ) (r : Result RejectCode (Unit {0})) → Steady (judge id r)
  judge-Balanced id (ok x) = search balanced
  judge-Balanced id (err code) = search balanced

  gated_submit-Balanced :
      (order : SubmitOrder) (key : ListingKey) (now : ℕ) (o : Option RejectCode)
      → Steady (gated_submit order key now o)
  unfolding gated_submit
  gated_submit-Balanced order key now none = search (balanced, submit-Balanced)
  gated_submit-Balanced order key now (some code) = search balanced

  take_submit-Balanced :
      (order : SubmitOrder) (o : Option ListingKey) (now : ℕ) → Steady (take_submit order o now)
  unfolding take_submit
  take_submit-Balanced order o now =
      search (balanced, gated_submit-Balanced, judge-Balanced) depth 20

  cancel_found-Balanced :
      (id participant : ℕ) (o : Option OwnedOrder) → Steady (cancel_found id participant o)
  unfolding cancel_found
  cancel_found-Balanced id participant none = search balanced
  cancel_found-Balanced id participant (some owned) = search (balanced, cancel-Balanced) depth 20

  switch_on-Balanced : (p : ℕ) → Steady (change (switch_on p))
  switch_on-Balanced p = Balanced-change currency instrument (switch_on p) (λ run. refl)

  switch_off-Balanced : (p : ℕ) → Steady (change (switch_off p))
  switch_off-Balanced p = Balanced-change currency instrument (switch_off p) (λ run. refl)

  activate_kill_switch-Balanced : (p : ℕ) → Steady (activate_kill_switch p)
  unfolding activate_kill_switch
  activate_kill_switch-Balanced p =
      search (balanced, switch_on-Balanced, cancel_all-Balanced) depth 20

  act-Balanced :
      (command : Command) (o : Option ListingKey) (payload : CommandPayload)
      → Steady (act command o payload)
  unfolding act cancel_of
  act-Balanced command o (submit_order order) = take_submit-Balanced order o _
  act-Balanced command o (submit_order_at_listing k order) = take_submit-Balanced order o _
  act-Balanced command o (cancel_order id participant) =
      search (balanced, cancel_found-Balanced, judge-Balanced) depth 20
  act-Balanced command o Commit.activate_kill_switch =
      search (balanced, activate_kill_switch-Balanced)
  act-Balanced command o reset_kill_switch = search (balanced, switch_off-Balanced)

  -- The clock's part once the simulation domain has caught up.
  timers-Balanced :
      (to : ℕ) → Steady (do caught ← ask; boundary_loop (suc (boundaries caught)) to; expire_due to)
  timers-Balanced to = search (balanced, boundary_loop-Balanced, expire_due-Balanced)

  catch_up-conserves :
      (to : ℕ) (run : RunState sim) (w : Work sim) (u : Unit {0}) (events : List sim.Event)
      (state : sim.State)
      → InOrder run.ledger
      → sim.catch_up to false run.ledger run.simulation ≡ some (events, run.ledger, state)
      → catch_up to false (started run) ≡ ok (u, w)
      → Conserves currency instrument run.ledger w.run.ledger
  unfolding catch_up domain_step
  catch_up-conserves to run w u events state v idle h =
      sums_law currency instrument (timers-Balanced to)
        (record {
          run = record run { simulation = state };
          payloads = map (λ e. domain e) events;
          changed = [];
        })
        w u v (ground arith)

  -- When the simulation domain moves nothing in the ledger by the command's time, and the ledger's
  -- accounts are in key order, a command that `apply` commits makes no money and no lots: in every
  -- currency the balances and the fees taken add up to what they did, and so do the lots of every
  -- instrument, whatever is matched, auctioned, canceled or expires.
  pub apply-conserves :
      (command : Command) (run run' : RunState sim) (applied : Applied sim.Event)
      (events : List sim.Event) (state : sim.State)
      → InOrder run.ledger
      → sim.catch_up command.metadata.logical_time false run.ledger run.simulation
        ≡ some (events, run.ledger, state)
      → apply command run ≡ ok (applied, run')
      → Conserves currency instrument run.ledger run'.ledger
  unfolding stage
  apply-conserves command run run' applied events state v idle h =
      let (key, verdict, w, r, s, f) = apply-ok command run run' applied h in
      let (u, next, c, h') =
        >>=-ok (catch_up command.metadata.logical_time false) (λ _. act command key command.payload)
          (started run) w verdict s in
      let x = catch_up-conserves command.metadata.logical_time run next u events state v idle c in
      let y =
        sums_law currency instrument (act-Balanced command key command.payload) next w verdict
          x.in_order h' in
      subst (Conserves currency instrument run.ledger)
        (sym (
          finish-ledger command.metadata (run.sequence + 1) (accepts verdict.0) verdict.0 verdict.1
            w applied run' f))
        (record { in_order = y.in_order; money = y.money ∙ x.money; lots = y.lots ∙ x.lots })
