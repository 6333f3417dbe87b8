-- ===== src/Tests/Runs/Orders.antt =====
-- Witnesses on what becomes of one order: it is taken, it expires, it is retired.
use bunting.Prelude.{
  ℕ, suc, some, List, ◌++◌, ◌∷◌, [], ◌≡◌, ◌≤◌, ◌-◌, ◌==◌, length, if◌then◌else◌, none, ok,
}
use bunting.Prelude.Ord.{nat_ord, pair_ord}
use bunting.Prelude.Map.{get}
use bunting.Engine.{ListingState, max_retired_orders}
use bunting.Engine.Admission.{Passed, check_submit}
use bunting.Engine.Admission.Terms.{Admitted}
use bunting.Engine.Commit.{retire}
use bunting.Engine.Commit.Retired.{retire-forgets, contains}
use bunting.Engine.Stays.{numbering, known}
use bunting.Engine.Stays.Taken.{submit-taken, admitted_terms}
use bunting.Tests.Runs.{opened, five_until, start, live_run, live, takes, canceled_run}

submit-taken_example :
    (listing : ListingState) × (p : Passed) × (get (1, 10) opened.listings ≡ some listing)
    × (check_submit opened five_until (1, 10) listing 0 ≡ ok p)
    × Admitted opened five_until listing 0 p
    × (numbering live_run ≡ numbering opened)
    × ((id : ℕ)
        → known id live_run
          ≡ (if id == 1 then some (admitted_terms five_until (1, 10) p) else known id opened))
submit-taken_example = submit-taken five_until (1, 10) 0 start live tt takes

retire-forgets_example :
    (old : List ℕ) × (old ++ (retire 1 canceled_run).retired ≡ canceled_run.retired ++ 1 ∷ [])
    × (length old ≡ suc (length canceled_run.retired) - max_retired_orders)
    × (length (retire 1 canceled_run).retired ≤ max_retired_orders)
    × ((j : ℕ)
        → get j (retire 1 canceled_run).ownership
          ≡ (if contains j old then none else get j canceled_run.ownership))
retire-forgets_example = retire-forgets 1 canceled_run
