-- ===== src/Engine/Commit/Numbered.antt =====
-- The numbering of a batch of events, and of a run's commits (packages/bunting-engine/src/lib.rs).
use bunting.Prelude.{
  ℕ, zero, suc, ◌+◌, Bool, Option, List, [], ◌∷◌, ◌≡◌, ap, ◌∙◌, arith, ok, inl, inr, Option-cases,
  Result-cases, length, map,
}
use bunting.Market.{RejectCode}
use bunting.Engine.{Simulation, RunState, Work, EventPayload, order_completed, order_canceled}
use bunting.Engine.Commit.{
  Metadata, EventEnvelope, Applied, envelope, event_of, last_sequence, retire, retire_event,
  drop_live, project, finish,
}

-- The `k` numbers after `n`.
unfoldable pub numbers_after : ℕ → ℕ → List ℕ
numbers_after n zero = []
numbers_after n (suc k) = suc n ∷ numbers_after (suc n) k

-- The run's identity and its two counters.
pub record Counters : Type 0 where
  pub run_id : ℕ
  pub sequence : ℕ
  pub event_sequence : ℕ

abbrev pub counters : {sim : Simulation} → RunState sim → Counters
counters run = record {
  run_id = run.run_id;
  sequence = run.sequence;
  event_sequence = run.event_sequence;
}

module _ {D : Type 0} (command : Metadata) where
  abbrev pub sequences : List (EventEnvelope D) → List ℕ
  sequences events = map (λ e. e.sequence) events

  envelope-numbers :
      (n : ℕ) (ps : List (EventPayload D)) (events : List (EventEnvelope D))
      → envelope command n ps ≡ ok events
      → (sequences events ≡ numbers_after n (length events))
        × (map (λ e. e.payload) events ≡ ps)
        × (last_sequence n events ≡ n + length events)
  unfolding envelope numbers_after last_sequence
  envelope-numbers n [] events h = ground arith
  envelope-numbers n (p ∷ ps) events h = elim (Result-cases (envelope command (suc n) ps)) [
    | inr (e, c) ↦ absurd (ground arith)
    | inl (rest, c) ↦
        let (a, b, l) = envelope-numbers (suc n) ps rest c in
        let e : events ≡ event_of command (suc n) p ∷ rest = ground arith in
        rw e (ap (λ xs. suc n ∷ xs) a, ap (λ xs. p ∷ xs) b, l ∙ omega arith)
  ]

module _ {sim : Simulation} where
  retire-counters : (id : ℕ) (run : RunState sim) → counters (retire id run) ≡ counters run
  unfolding retire drop_live
  retire-counters id run = ground arith

  retire_event-counters :
      (p : EventPayload sim.Event) (run : RunState sim)
      → counters (retire_event p run) ≡ counters run
  unfolding retire_event
  retire_event-counters (order_completed id) run = retire-counters id run
  retire_event-counters (order_canceled id participant key quantity reason) run =
      retire-counters id run
  retire_event-counters p run = ground arith

  project-counters :
      (now : ℕ) (ps : List (EventPayload sim.Event)) (run run' : RunState sim)
      → project now ps run ≡ ok run'
      → counters run' ≡ counters run
  unfolding project
  project-counters now [] run run' h = ground arith
  project-counters now (p ∷ ps) run run' h =
      elim (Option-cases (sim.project_event now p run.simulation)) [
        | inl e ↦ absurd (ground arith)
        | inr (state, e) ↦
            let next : RunState sim = retire_event p (record run { simulation = state }) in
            project-counters now ps next run' (ground arith)
            ∙ retire_event-counters p (record run { simulation = state })
      ]

  -- What a committed batch does to the counters.
  pub finish-numbers :
      (command : Metadata) (next : ℕ) (accepted : Bool) (code : Option RejectCode)
      (order_id : Option ℕ) (w : Work sim) (applied : Applied sim.Event) (run' : RunState sim)
      → finish command next accepted code order_id w ≡ ok (applied, run')
      → (run'.run_id ≡ w.run.run_id)
        × (run'.sequence ≡ next)
        × (sequences command applied.events
            ≡ numbers_after w.run.event_sequence (length applied.events))
        × (map (λ e. e.payload) applied.events ≡ w.payloads)
        × (run'.event_sequence ≡ w.run.event_sequence + length applied.events)
        × (applied.accepted ≡ accepted)
  unfolding finish
  finish-numbers command next accepted code order_id w applied run' h =
      elim (Result-cases (project command.logical_time w.payloads w.run)) [
        | inr (e, c) ↦ absurd (ground arith)
        | inl (run, c) ↦ elim (Result-cases (envelope command run.event_sequence w.payloads)) [
          | inr (e, c') ↦ absurd (ground arith)
          | inl (events, c') ↦
              let same = project-counters command.logical_time w.payloads w.run run c in
              let (a, b, l) = envelope-numbers command run.event_sequence w.payloads events c' in
              let start : run.event_sequence ≡ w.run.event_sequence =
                ap (λ k. k.event_sequence) same in
              let id : run.run_id ≡ w.run.run_id = ap (λ k. k.run_id) same in
              (
                ground (arith, id),
                ground arith,
                ground (arith, a, start),
                ground (arith, b),
                ground (arith, l, start),
                ground arith,
              )
        ]
      ]
