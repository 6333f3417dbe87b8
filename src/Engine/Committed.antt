-- ===== src/Engine/Committed.antt =====
-- What a committed command leaves (`RunState::apply` of packages/bunting-engine/src/lib.rs).
pub mod Barred
use bunting.Prelude.{
  ℕ, ◌+◌, Bool, true, false, Option, none, some, List, [], ◌∷◌, ◌≡◌, refl, sym, ap, ◌∙◌, subst,
  arith, Result, ok, err, inl, inr, Option-cases, Result-cases, Bool-cases, if◌then◌else◌, ltb,
  length, map,
}
use bunting.Market.{RejectCode}
use bunting.Engine.{Simulation, RunState, Work, EngineError, ListingKey}
use bunting.Engine.Commit.{Command, Applied, ApplyError, finish}
use bunting.Engine.Commit.Numbered.{counters, numbers_after, sequences, finish-numbers}
use bunting.Engine.Transition.{
  Verdict, accepts, classify, preflight, resolve, stage, started, apply_validated, apply,
}
use bunting.Engine.Stays.Counted.{count_law, stage-Counted}

pub classify-ok :
    {A : Type 0} (copied : Bool) (r : Result EngineError A) (a : A)
    → classify copied r ≡ ok a
    → r ≡ ok a
classify-ok copied (ok b) a h = ground arith
classify-ok true (err e) a h = absurd (ground arith)
classify-ok false (err e) a h = absurd (ground arith)

pub preflight-next :
    {sim : Simulation} (run : RunState sim) (id expected next : ℕ)
    → preflight run id expected ≡ ok next
    → next ≡ run.sequence + 1
unfolding preflight
preflight-next run id expected next h = ground arith

module _ {sim : Simulation} (command : Command) (run run' : RunState sim)
    (applied : Applied sim.Event) where
  apply_validated-ok :
      (next : ℕ) (key : Option ListingKey)
      → apply_validated command next key run ≡ ok (applied, run')
      → (v : Verdict) × (w : Work sim) × (stage command key (started run) ≡ ok (v, w))
        × (finish command.metadata next (accepts v.0) v.0 v.1 w ≡ ok (applied, run'))
  unfolding apply_validated
  apply_validated-ok next key h = elim (Result-cases (stage command key (started run))) [
    | inr (e, c) ↦ absurd (ground arith)
    | inl (((code, id), w), c) ↦ ((code, id), w, c, ground arith)
  ]

  -- The parts of a command that is applied.
  pub apply-ok :
      apply command run ≡ ok (applied, run')
      → (key : Option ListingKey) × (v : Verdict) × (w : Work sim) × (resolve run command.payload
          ≡ ok key)
        × (stage command key (started run) ≡ ok (v, w))
        × (finish command.metadata (run.sequence + 1) (accepts v.0) v.0 v.1 w ≡ ok (applied, run'))
  unfolding apply
  apply-ok h =
      elim (Result-cases
        (preflight run command.metadata.run_id command.metadata.expected_sequence)) [
          | inr (e, p) ↦ absurd (ground arith)
          | inl (next, p) ↦ elim (Result-cases (resolve run command.payload)) [
            | inr (e, r) ↦ absurd (ground arith)
            | inl (key, r) ↦
                elim (Bool-cases (ltb command.metadata.logical_time (sim.now run.simulation))) [
                  | inl late ↦ absurd (ground arith)
                  | inr due ↦
                      let (v, w, s, f) = apply_validated-ok next key (
                        classify-ok
                          (sim.has_due_actions run.simulation command.metadata.logical_time)
                          (apply_validated command next key run) (applied, run') (ground arith)) in
                      (
                        key,
                        v,
                        w,
                        r,
                        s,
                        subst
                            (λ n.
                              finish command.metadata n (accepts v.0) v.0 v.1 w
                              ≡ ok (applied, run'))
                            (preflight-next run _ _ next p) f,
                      )
                ]
          ]
        ]

  -- A command that is applied moves the run's sequence by one and keeps its identity; the events of
  -- the command carry the run's next event numbers, one after the other, and the run's event
  -- sequence ends at the last of them.
  pub apply-numbers :
      apply command run ≡ ok (applied, run')
      → (run'.run_id ≡ run.run_id)
        × (run'.sequence ≡ run.sequence + 1)
        × (sequences command.metadata applied.events
            ≡ numbers_after run.event_sequence (length applied.events))
        × (run'.event_sequence ≡ run.event_sequence + length applied.events)
  apply-numbers h =
      let (key, v, w, r, s, f) = apply-ok h in
      let same = count_law (stage-Counted command key) (started run) w v s in
      let (id, sequence, numbers, _, event_sequence, _) =
        finish-numbers command.metadata (run.sequence + 1) (accepts v.0) v.0 v.1 w applied run' f in
      let start : w.run.event_sequence ≡ run.event_sequence = ap (λ k. k.event_sequence) same in
      (
        id ∙ ap (λ k. k.run_id) same,
        sequence,
        ground (arith, numbers, start),
        ground (arith, event_sequence, start),
      )
