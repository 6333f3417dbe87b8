-- ===== src/Engine/Stays/Counted.antt =====
-- No step of a command before its commit changes a run's counters (packages/bunting-engine/src/lib.rs).
use bunting.Prelude.{ℕ, Option, none, some, ◌≡◌, refl, ap, ◌∙◌, arith, Result, ok, err}
use bunting.Prelude.Ord.{nat_ord, pair_ord}
use bunting.Market.{SubmitOrder, RejectCode}
use bunting.Engine.{Simulation, RunState, Work, E, ◌>>=◌, change, ListingKey, OwnedOrder}
use bunting.Engine.Submit.{submit}
use bunting.Engine.Commit.{
  CommandPayload, submit_order, submit_order_at_listing, cancel_order, reset_kill_switch, Command,
  SimulationCommandRequest,
}
use bunting.Engine.Commit
use bunting.Engine.Commit.Numbered.{Counters, counters}
use bunting.Engine.Transition.{
  judge, gated_submit, take_submit, cancel_found, cancel_of, switch_on, switch_off,
  activate_kill_switch, act, stage,
}
use bunting.Engine.Stays.{Keeps, law, keeps, >>=-ok, Numbering}
use bunting.Engine.Stays.Orders.{cancel-Keeps, cancel_all-Keeps}
use bunting.Engine.Stays.Transition.{catch_up-Keeps, submit-refused, submit-passes}

abbrev counters_of : Numbering → Counters
counters_of n = record {
  run_id = n.run_id;
  sequence = n.sequence;
  event_sequence = n.event_sequence;
}

module _ {sim : Simulation} where
  pub data Counted {A : Type 0} (m : E sim A) : Type 0 where
    by_count :
        ((w w' : Work sim) (a : A) → m w ≡ ok (a, w') → counters w'.run ≡ counters w.run)
        → Counted m

  abbrev pub count_law :
      {A : Type 0} {m : E sim A}
      → Counted m
      → (w w' : Work sim) (a : A) → m w ≡ ok (a, w')
      → counters w'.run ≡ counters w.run
  count_law (by_count l) = l

  Counted->>= :
      {A B : Type 0} {m : E sim A} {f : A → E sim B}
      → Counted m
      → ((a : A) → Counted (f a))
      → Counted (m >>= f)
  Counted->>= {m = m} {f = f} (by_count km) kf = by_count (λ w w' b h.
      let (a, next, c, h') = >>=-ok m f w w' b h in count_law (kf a) next w' b h' ∙ km w next a c)

  Keeps-Counted : {A : Type 0} {m : E sim A} → Keeps m → Counted m
  Keeps-Counted k = by_count (λ w w' a h. ap counters_of (law k w w' a h).numbers)

  Counted-change :
      (f : RunState sim → RunState sim)
      → ((run : RunState sim) → counters (f run) ≡ counters run)
      → Counted (change f)
  Counted-change f same = by_count (λ w w' a h. ground (arith, same w.run))

  submit-Counted :
      (order : SubmitOrder) (key : ListingKey) (now : ℕ) → Counted (submit order key now)
  submit-Counted order key now = by_count submit_counts
    where
      submit_counts :
          (w w' : Work sim) (r : Result RejectCode (Unit {0}))
          → submit order key now w ≡ ok (r, w')
          → counters w'.run ≡ counters w.run
      submit_counts w w' (err code) h =
          ap (λ v. counters v.run) (submit-refused order key now w w' code h)
      submit_counts w w' (ok u) h =
          let (_, _, _, _, s) = submit-passes order key now w w' u h in ap counters_of s.numbers

  judge-Keeps : (id : ℕ) (r : Result RejectCode (Unit {0})) → Keeps {sim = sim} (judge id r)
  judge-Keeps id (ok x) = search keeps
  judge-Keeps id (err code) = search keeps

  gated_submit-Counted :
      (order : SubmitOrder) (key : ListingKey) (now : ℕ) (o : Option RejectCode)
      → Counted (gated_submit order key now o)
  unfolding gated_submit
  gated_submit-Counted order key now none =
      search (Counted->>=, submit-Counted, Keeps-Counted, keeps)
  gated_submit-Counted order key now (some code) = search (Keeps-Counted, keeps)

  take_submit-Counted :
      (order : SubmitOrder) (o : Option ListingKey) (now : ℕ) → Counted (take_submit order o now)
  unfolding take_submit
  take_submit-Counted order o now =
      search (Counted->>=, gated_submit-Counted, Keeps-Counted, judge-Keeps, keeps) depth 20

  cancel_found-Keeps :
      (id participant : ℕ) (o : Option OwnedOrder)
      → Keeps {sim = sim} (cancel_found id participant o)
  unfolding cancel_found
  cancel_found-Keeps id participant none = search keeps
  cancel_found-Keeps id participant (some owned) = search (keeps, cancel-Keeps) depth 20

  cancel_of-Keeps : (id participant : ℕ) → Keeps {sim = sim} (cancel_of id participant)
  unfolding cancel_of
  cancel_of-Keeps id participant = search (keeps, cancel_found-Keeps)

  switch_on-Counted : (p : ℕ) → Counted (change (switch_on p))
  switch_on-Counted p = Counted-change (switch_on p) (λ run. refl)

  switch_off-Counted : (p : ℕ) → Counted (change (switch_off p))
  switch_off-Counted p = Counted-change (switch_off p) (λ run. refl)

  activate_kill_switch-Counted : (p : ℕ) → Counted (activate_kill_switch p)
  unfolding activate_kill_switch
  activate_kill_switch-Counted p =
      search (Counted->>=, switch_on-Counted, Keeps-Counted, cancel_all-Keeps, keeps) depth 20

  act-Counted :
      (command : Command) (o : Option ListingKey) (payload : CommandPayload)
      → Counted (act command o payload)
  unfolding act
  act-Counted command o (submit_order order) = take_submit-Counted order o _
  act-Counted command o (submit_order_at_listing k order) = take_submit-Counted order o _
  act-Counted command o (cancel_order id participant) =
      search (Keeps-Counted, keeps, cancel_of-Keeps, judge-Keeps)
  act-Counted command o Commit.activate_kill_switch =
      search (Counted->>=, Keeps-Counted, keeps, activate_kill_switch-Counted)
  act-Counted command o reset_kill_switch =
      search (Counted->>=, Keeps-Counted, keeps, switch_off-Counted)

  pub stage-Counted : (command : Command) (o : Option ListingKey) → Counted (stage command o)
  unfolding stage
  stage-Counted command o = search (Counted->>=, Keeps-Counted, catch_up-Keeps, act-Counted)
