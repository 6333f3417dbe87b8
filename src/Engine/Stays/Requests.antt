-- ===== src/Engine/Stays/Requests.antt =====
-- Requests to the simulation domain and mass cancels (packages/bunting-engine/src/lib.rs) keep the
-- numbering and the terms, and their commit numbers their events.
use bunting.Prelude.{
  ℕ, Bool, ◌||◌, ◌+◌, Option, none, true, ◌≡◌, ap, ◌∙◌, arith, ok, inl, inr, Result-cases,
  Bool-cases, length, ltb, ◌&&◌, not,
}
use bunting.Prelude.Ord.{nat_ord, pair_ord}
use bunting.Engine.{Simulation, RunState, Work, SimulationCommand, clock_tick, request}
use bunting.Engine
use bunting.Engine.Commit.{SimulationCommandRequest, Applied}
use bunting.Engine.Commit.Numbered.{numbers_after, sequences, finish-numbers}
use bunting.Engine.Transition.{preflight, started}
use bunting.Engine.Administer.{
  mass_cancel_live, apply_domain, administer, stage_request, is_tick, is_mass_cancel,
  apply_simulation_validated, apply_simulation,
}
use bunting.Engine.Committed.{preflight-next, classify-ok}
use bunting.Engine.Stays.{Keeps, law, keeps}
use bunting.Engine.Stays.Orders.{cancel_all-Keeps}
use bunting.Engine.Stays.Clock.{expire_due-Keeps}
use bunting.Engine.Stays.Transition.{catch_up-Keeps, domain_step-Keeps}

module _ {sim : Simulation} where
  apply_domain-Keeps :
      (actor now : ℕ) (payload : SimulationCommand sim.Request)
      → Keeps {sim = sim} (apply_domain actor now payload)
  unfolding apply_domain
  apply_domain-Keeps actor now payload = search (keeps, domain_step-Keeps)

  mass_cancel_live-Keeps :
      (participant instrument : Option ℕ)
      → Keeps {sim = sim} (mass_cancel_live participant instrument)
  unfolding mass_cancel_live
  mass_cancel_live-Keeps participant instrument = search (keeps, cancel_all-Keeps)

  administer-Keeps :
      (actor now : ℕ) (payload : SimulationCommand sim.Request)
      → Keeps {sim = sim} (administer actor now payload)
  unfolding administer
  administer-Keeps actor now (Engine.SimulationCommand.mass_cancel participant instrument) =
      mass_cancel_live-Keeps participant instrument
  administer-Keeps actor now clock_tick = search (keeps, apply_domain-Keeps, expire_due-Keeps)
  administer-Keeps actor now (request r) = search (keeps, apply_domain-Keeps, expire_due-Keeps)

  pub stage_request-Keeps :
      (command : SimulationCommandRequest sim.Request) → Keeps {sim = sim} (stage_request command)
  unfolding stage_request
  stage_request-Keeps command = search (keeps, catch_up-Keeps, administer-Keeps) depth 20

abbrev is_staged : {sim : Simulation} → SimulationCommandRequest sim.Request → RunState sim → Bool
is_staged {sim = sim} command run = not (
    (is_tick command.payload || is_mass_cancel command.payload)
    && not (sim.has_due_actions run.simulation command.metadata.logical_time))

module _ {sim : Simulation} (command : SimulationCommandRequest sim.Request)
    (run run' : RunState sim) (applied : Applied sim.Event) where
  validated-numbers :
      (next : ℕ)
      → apply_simulation_validated command next run ≡ ok (applied, run')
      → (run'.run_id ≡ run.run_id)
        × (run'.sequence ≡ next)
        × (sequences command.metadata applied.events
            ≡ numbers_after run.event_sequence (length applied.events))
        × (run'.event_sequence ≡ run.event_sequence + length applied.events)
  unfolding apply_simulation_validated
  validated-numbers next h = elim (Result-cases (stage_request command (started run))) [
    | inr (e, c) ↦ absurd (ground arith)
    | inl ((u, w), c) ↦
        let same = (law (stage_request-Keeps command) (started run) w u c).numbers in
        let (id, sequence, numbers, _, last, _) =
          finish-numbers command.metadata next true none none w applied run' (ground arith) in
        let start : w.run.event_sequence ≡ run.event_sequence = ap (λ n. n.event_sequence) same in
        (
          id ∙ ap (λ n. n.run_id) same,
          sequence,
          ground (arith, numbers, start),
          ground (arith, last, start),
        )
  ]

  -- A request, a clock tick or a mass cancel that is committed moves the run's sequence by one and
  -- keeps its identity; its events carry the run's next event numbers, one after the other, and the
  -- run's event sequence ends at the last of them.
  pub apply_simulation-numbers :
      apply_simulation command run ≡ ok (applied, run')
      → (run'.run_id ≡ run.run_id)
        × (run'.sequence ≡ run.sequence + 1)
        × (sequences command.metadata applied.events
            ≡ numbers_after run.event_sequence (length applied.events))
        × (run'.event_sequence ≡ run.event_sequence + length applied.events)
  unfolding apply_simulation
  apply_simulation-numbers h =
      elim (Result-cases
        (preflight run command.metadata.run_id command.metadata.expected_sequence)) [
          | inr (e, p) ↦ absurd (ground arith)
          | inl (next, p) ↦
              elim (Bool-cases (ltb command.metadata.logical_time (sim.now run.simulation))) [
                | inl late ↦ absurd (ground arith)
                | inr timely ↦
                    elim (Bool-cases
                      (is_tick command.payload && not (sim.is_running run.simulation))) [
                        | inl idle ↦ absurd (ground arith)
                        | inr fit ↦
                            let (id, sequence, numbers, last) = validated-numbers next (
                              classify-ok (is_staged command run)
                                (apply_simulation_validated command next run) (applied, run')
                                (ground arith)) in
                            (id, sequence ∙ preflight-next run _ _ next p, numbers, last)
                      ]
              ]
        ]
