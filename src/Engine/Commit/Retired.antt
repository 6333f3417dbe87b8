-- ===== src/Engine/Commit/Retired.antt =====
-- The bounded window of terminal orders (`retire` of packages/bunting-engine/src/lib.rs).
use bunting.Prelude.{
  ℕ, suc, ◌≤◌, Bool, false, Option, none, List, [], ◌∷◌, ◌++◌, ◌≡◌, refl, ap, ◌∙◌, arith, ok, inl,
  ◌-◌, length-append, inr, Option-cases, Result-cases, Bool-cases, if◌then◌else◌, ◌==◌, ◌||◌, ltb,
  length,
}
use bunting.Prelude.Ord.{nat_ord}
use bunting.Prelude.Map.{Map, get, get-remove}
use bunting.Prelude.Map
use bunting.Engine.{
  Simulation, RunState, Work, OwnedOrder, EventPayload, order_completed, order_canceled,
  max_retired_orders,
}
use bunting.Engine.Commit.{
  trim, drop_live, retire, retire_event, project, finish, envelope, Metadata, Applied,
}
use bunting.Market.{RejectCode}

trim-length :
    (bound : ℕ) (ids : List ℕ) (own : Map ℕ OwnedOrder) → length (trim bound ids own).0 ≤ bound
unfolding trim
trim-length bound [] own = omega arith
trim-length bound (id ∷ ids) own = elim (Bool-cases (ltb bound (suc (length ids)))) [
  | inl e ↦ rw e (trim-length bound ids (Map.remove id own))
  | inr e ↦ rw e (ground arith)
]

abbrev pub contains : ℕ → List ℕ → Bool
contains j [] = false
contains j (id ∷ ids) = (j == id) || contains j ids

-- What the window forgets is its oldest part.
trim-splits :
    (bound : ℕ) (ids : List ℕ) (own : Map ℕ OwnedOrder)
    → (old : List ℕ) × (old ++ (trim bound ids own).0 ≡ ids)
      × (length old ≡ length ids - bound)
      × ((j : ℕ) → get j (trim bound ids own).1 ≡ (if contains j old then none else get j own))
unfolding trim
trim-splits bound [] own = ([], refl, omega arith, λ j. refl)
trim-splits bound (id ∷ ids) own = elim (Bool-cases (ltb bound (suc (length ids)))) [
  | inl e ↦
      let (old, s, l, g) = trim-splits bound ids (Map.remove id own) in
      (
        id ∷ old,
        rw e (ap (λ xs. id ∷ xs) s),
        ground arith,
        λ j. rw e (ground (arith, g j, get-remove id j own)),
      )
  | inr e ↦ ([], rw e refl, ground arith, λ j. rw e refl)
]

trim-absent :
    (bound j : ℕ) (ids : List ℕ) (own : Map ℕ OwnedOrder)
    → get j own ≡ none
    → get j (trim bound ids own).1 ≡ none
unfolding trim
trim-absent bound j [] own h = h
trim-absent bound j (id ∷ ids) own h = elim (Bool-cases (ltb bound (suc (length ids)))) [
  | inl e ↦ rw e (trim-absent bound j ids (Map.remove id own) (ground (arith, get-remove id j own)))
  | inr e ↦ rw e h
]

module _ {sim : Simulation} where
  drop_live-same :
      (id : ℕ) (run : RunState sim)
      → ((drop_live id run).retired ≡ run.retired) × ((drop_live id run).ownership ≡ run.ownership)
  unfolding drop_live
  drop_live-same id run = ground arith

  retire-absent :
      (id j : ℕ) (run : RunState sim)
      → get j run.ownership ≡ none
      → get j (retire id run).ownership ≡ none
  unfolding retire drop_live
  retire-absent id j run h =
      trim-absent max_retired_orders j ((drop_live id run).retired ++ id ∷ [])
        (drop_live id run).ownership (ap (get j) (drop_live-same id run).1 ∙ h)

  -- Retiring an order puts it at the end of the window of retired orders. The window then forgets
  -- its oldest orders, exactly as many as it is over its bound and none while it is within it; those
  -- are no longer on record, and every other order is as it was.
  pub retire-forgets :
      (id : ℕ) (run : RunState sim)
      → (old : List ℕ) × (old ++ (retire id run).retired ≡ run.retired ++ id ∷ [])
        × (length old ≡ suc (length run.retired) - max_retired_orders)
        × (length (retire id run).retired ≤ max_retired_orders)
        × ((j : ℕ)
            → get j (retire id run).ownership
              ≡ (if contains j old then none else get j run.ownership))
  unfolding retire
  retire-forgets id run =
      let ids : List ℕ = (drop_live id run).retired ++ id ∷ [] in
      let own : Map ℕ OwnedOrder = (drop_live id run).ownership in
      let (old, s, l, g) = trim-splits max_retired_orders ids own in
      let (r, o) = drop_live-same id run in
      (
        old,
        s ∙ ap (λ xs. xs ++ id ∷ []) r,
        omega
            (arith, l, length-append (drop_live id run).retired (id ∷ []), ap (λ xs. length xs) r),
        trim-length max_retired_orders ids own,
        λ j. g j ∙ ap (λ m. if contains j old then none else get j m) o,
      )

  retire_event-absent :
      (p : EventPayload sim.Event) (j : ℕ) (run : RunState sim)
      → get j run.ownership ≡ none
      → get j (retire_event p run).ownership ≡ none
  unfolding retire_event
  retire_event-absent (order_completed id) j run h = retire-absent id j run h
  retire_event-absent (order_canceled id participant key quantity reason) j run h =
      retire-absent id j run h
  retire_event-absent p j run h = ground arith

  project-absent :
      (now j : ℕ) (ps : List (EventPayload sim.Event)) (run run' : RunState sim)
      → project now ps run ≡ ok run'
      → get j run.ownership ≡ none
      → get j run'.ownership ≡ none
  unfolding project
  project-absent now j [] run run' h g = ground arith
  project-absent now j (p ∷ ps) run run' h g =
      elim (Option-cases (sim.project_event now p run.simulation)) [
        | inl e ↦ absurd (ground arith)
        | inr (state, e) ↦
            project-absent now j ps (retire_event p (record run { simulation = state })) run'
              (ground arith) (retire_event-absent p j (record run { simulation = state }) g)
      ]

  pub finish-absent :
      (command : Metadata) (next : ℕ) (accepted : Bool) (code : Option RejectCode)
      (order_id : Option ℕ) (w : Work sim) (applied : Applied sim.Event) (run' : RunState sim)
      → finish command next accepted code order_id w ≡ ok (applied, run')
      → (j : ℕ) → get j w.run.ownership ≡ none
      → get j run'.ownership ≡ none
  unfolding finish
  finish-absent command next accepted code order_id w applied run' h j g =
      elim (Result-cases (project command.logical_time w.payloads w.run)) [
        | inr (e, c) ↦ absurd (ground arith)
        | inl (run, c) ↦
            let gone = project-absent command.logical_time j w.payloads w.run run c g in
            elim (Result-cases (envelope command run.event_sequence w.payloads)) [
              | inr (e, c') ↦ absurd (ground arith)
              | inl (events, c') ↦ ground (arith, gone)
            ]
      ]
