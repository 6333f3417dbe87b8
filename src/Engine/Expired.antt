-- ===== src/Engine/Expired.antt =====
-- The loop of `expire_due` of packages/bunting-engine/src/lib.rs ends.
pub mod Due
pub mod Index
use bunting.Prelude.{
  ℕ, zero, suc, ◌≤◌, false, some, [], ◌∷◌, ◌≡◌, ◌≢◌, ◌⊎◌, refl, ap, ◌∙◌, arith, ok, err, inl, inr,
  Option-cases, Bool-cases, Result-cases, ◌<◌, length, ltb,
}
use bunting.Prelude.Ord.{nat_ord, pair_ord}
use bunting.Prelude.Map.{Map, get, insert, remove, first, get-insert_self}
use bunting.Prelude.Map
use bunting.Engine.{Simulation, Work, diverged, OwnedOrder, is_active, expired}
use bunting.Engine.Orders.{cancel, closed_out}
use bunting.Engine.Clock.{expire_loop, expire_due}
use bunting.Engine.Canceled.{cancel-ok, cancel-terminates, cancel-inactive}

length-remove : (k : ℕ × ℕ) (m : Map (ℕ × ℕ) (Unit {0})) → length (remove k m) ≤ length m
unfolding remove
length-remove k [] = omega arith
length-remove k ((j, v) ∷ m) = elim (Bool-cases (pair_ord.eq k j)) [
  | inl e ↦ rw e (omega (arith, length-remove k m))
  | inr e ↦ rw e (omega (arith, length-remove k m))
]

abbrev pub touched : {sim : Simulation} → OwnedOrder → Work sim → Work sim
touched owned w = record w { changed = Map.insert owned.listing_key tt w.changed }

-- The first entry of the index is of an order that is not live.
abbrev Stuck : {sim : Simulation} → Work sim → Type 0
Stuck w =
    (at id : ℕ) × (v : Unit {0}) × (m : Map (ℕ × ℕ) (Unit {0})) × (owned : OwnedOrder)
    × (w.run.expiries ≡ ((at, id), v) ∷ m)
    × (get id w.run.ownership ≡ some owned)
    × (is_active owned.state ≡ false)

pub first_entry :
    {k : ℕ × ℕ} {v : Unit {0}} (m : Map (ℕ × ℕ) (Unit {0}))
    → first m ≡ some (k, v)
    → (rest : Map (ℕ × ℕ) (Unit {0})) × (m ≡ (k, v) ∷ rest)
unfolding first
first_entry [] h = cc
first_entry (x ∷ m) h = (m, cc)

module _ {sim : Simulation} where
  Stuck-ends :
      (fuel now : ℕ) (w : Work sim) → 1 ≤ fuel → Stuck w → expire_loop fuel now w ≢ err diverged
  unfolding expire_loop first
  Stuck-ends zero now w enough stuck h = omega arith
  Stuck-ends (suc fuel) now w enough (at, id, v, m, owned, e, o, a) h =
      elim (Result-cases (cancel id expired (touched owned w))) [
        | inl (x, c) ↦ absurd (cancel-inactive id expired (touched owned w) owned o a c)
        | inr (x, c) ↦ absurd (ground (arith, cancel-terminates id expired (touched owned w)))
      ]

  -- After the cancel of the first entry's order, the index is shorter or its first entry is stuck.
  next_round :
      (at id : ℕ) (v : Unit {0}) (m : Map (ℕ × ℕ) (Unit {0})) (owned : OwnedOrder) (w w' : Work sim)
      (u : Unit {0})
      → w.run.expiries ≡ ((at, id), v) ∷ m
      → get id w.run.ownership ≡ some owned
      → cancel id expired (touched owned w) ≡ ok (u, w')
      → (length w'.run.expiries ≤ length m) ⊎ Stuck w'
  unfolding remove
  next_round at id v m owned w w' u e o c =
      let (owns, entries) = cancel-ok id expired (touched owned w) w' u owned o c in
      let dead : get id w'.run.ownership ≡ some (closed_out owned) =
        ap (get id) owns ∙ get-insert_self id (closed_out owned) w.run.ownership in
      elim (Option-cases owned.expires_at) [
        | inl n ↦ inr (at, id, v, m, closed_out owned, rw (entries, n) e, dead, refl)
        | inr (at', n) ↦ elim (Bool-cases (pair_ord.eq (at', id) (at, id))) [
          | inl same ↦ inl rw (entries, n, e, same) (length-remove (at', id) m)
          | inr other ↦ inr (
            at,
            id,
            v,
            remove (at', id) m,
            closed_out owned,
            rw (entries, n, e, other) refl,
            dead,
            refl,
          )
        ]
      ]

  loop_ends :
      (fuel now : ℕ) (w : Work sim)
      → suc (length w.run.expiries) ≤ fuel
      → expire_loop fuel now w ≢ err diverged
  unfolding expire_loop first
  loop_ends zero now w enough h = absurd (omega arith)
  loop_ends (suc fuel) now w enough h = elim (Option-cases (first w.run.expiries)) [
    | inl none_due ↦ absurd (ground arith)
    | inr (((at, id), v), found) ↦ elim (Option-cases (get id w.run.ownership)) [
      | inl e ↦ absurd (ground arith)
      | inr (owned, o) ↦ elim (Result-cases (cancel id expired (touched owned w))) [
        | inr (x, c) ↦ absurd (ground (arith, cancel-terminates id expired (touched owned w)))
        | inl ((u, w'), c) ↦
            let (m, e) = first_entry w.run.expiries found in
            let again : expire_loop fuel now w' ≡ err diverged = ground arith in
            elim (next_round at id v m owned w w' u e o c) [
              | inl shorter ↦ loop_ends fuel now w' (omega (arith, ap (λ l. length l) e)) again
              | inr stuck ↦ Stuck-ends fuel now w' (omega (arith, ap (λ l. length l) e)) stuck again
            ]
      ]
    ]
  ]

  -- `expire_due` never runs out of the rounds it is given, two more than there are expiries: it ends
  -- with a result or with an error of the code.
  pub expire_due-terminates : (now : ℕ) (w : Work sim) → expire_due now w ≢ err diverged
  unfolding expire_due
  expire_due-terminates now w = loop_ends (suc (suc (length w.run.expiries))) now w (omega arith)
