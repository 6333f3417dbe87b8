-- ===== src/Calendar/Times.antt =====
-- The boundaries of one venue, in order (`Calendar::boundary` and `Calendar::phase_after` of
-- packages/bunting-engine/src/calendar.rs).
use bunting.Prelude.{
  ℕ, zero, suc, ◌+◌, ◌*◌, ◌/◌, ◌%◌, ◌≤◌, ◌<◌, true, ◌⊎◌, inl, inr, Bool-cases, Option-cases, some,
  List, [], ◌∷◌, ◌≡◌, sym, arith, ltb, ◌==◌, all,
}
use bunting.Calendar.{
  Calendar, VenueSession, Boundary, is_valid, is_ordered, session, is_holiday, nth_trading,
  trading_day, offset_of, phase_of, boundary, phase_after,
}

nth_from : (c : Calendar) (left day i : ℕ) {d : ℕ} → nth_trading c left day i ≡ some d → day ≤ d
unfolding nth_trading
nth_from c zero day i h = cc
nth_from c (suc left) day zero {d} h = elim (Bool-cases (is_holiday c day)) [
  | inl e ↦
      let later : nth_trading c left (suc day) zero ≡ some d = ground arith in
      let l = nth_from c left (suc day) zero later in omega arith
  | inr e ↦ ground arith
]
nth_from c (suc left) day (suc i) {d} h = elim (Bool-cases (is_holiday c day)) [
  | inl e ↦
      let later : nth_trading c left (suc day) (suc i) ≡ some d = ground arith in
      let l = nth_from c left (suc day) (suc i) later in omega arith
  | inr e ↦
      let later : nth_trading c left (suc day) i ≡ some d = ground arith in
      let l = nth_from c left (suc day) i later in omega arith
]

nth_next :
    (c : Calendar) (left day i : ℕ) {d d' : ℕ}
    → nth_trading c left day i ≡ some d
    → nth_trading c left day (suc i) ≡ some d'
    → d < d'
unfolding nth_trading
nth_next c zero day i h k = cc
nth_next c (suc left) day zero {d} {d'} h k = elim (Bool-cases (is_holiday c day)) [
  | inl e ↦
      let a : nth_trading c left (suc day) zero ≡ some d = ground arith in
      let b : nth_trading c left (suc day) 1 ≡ some d' = ground arith in
      nth_next c left (suc day) zero a b
  | inr e ↦
      let a : d ≡ day = ground arith in
      let b : nth_trading c left (suc day) zero ≡ some d' = ground arith in
      let l = nth_from c left (suc day) zero b in omega arith
]
nth_next c (suc left) day (suc i) {d} {d'} h k = elim (Bool-cases (is_holiday c day)) [
  | inl e ↦
      let a : nth_trading c left (suc day) (suc i) ≡ some d = ground arith in
      let b : nth_trading c left (suc day) (suc (suc i)) ≡ some d' = ground arith in
      nth_next c left (suc day) (suc i) a b
  | inr e ↦
      let a : nth_trading c left (suc day) i ≡ some d = ground arith in
      let b : nth_trading c left (suc day) (suc i) ≡ some d' = ground arith in
      nth_next c left (suc day) i a b
]

session_ordered :
    (day_ns venue : ℕ) (sessions : List VenueSession) {s : VenueSession}
    → all (is_ordered day_ns) sessions ≡ true
    → session venue sessions ≡ some s
    → is_ordered day_ns s ≡ true
unfolding session
session_ordered day_ns venue [] a h = cc
session_ordered day_ns venue (t ∷ sessions) {s} a h = elim (Bool-cases (t.venue_id == venue)) [
  | inl e ↦ let same : t ≡ s = ground arith in rw (← same) (ground arith)
  | inr e ↦ session_ordered day_ns venue sessions {s = s} (ground arith) (ground arith)
]

boundary_parts :
    (c : Calendar) (venue n : ℕ) {b : Boundary}
    → boundary c venue n ≡ some b
    → (s : VenueSession) × (d : ℕ) × (session venue c.sessions ≡ some s)
      × (trading_day c (n / 4) ≡ some d)
      × (b.time ≡ c.day_ns * d + offset_of s (n % 4))
      × (b.phase ≡ phase_of (n % 4))
      × (b.day ≡ d)
unfolding boundary
boundary_parts c venue n h = elim (Option-cases (session venue c.sessions)) [
  | inl e ↦ absurd (ground arith)
  | inr (s, e) ↦ elim (Option-cases (trading_day c (n / 4))) [
    | inl e' ↦ absurd (ground arith)
    | inr (d, e') ↦ (s, d, e, e', ground arith, ground arith, ground arith)
  ]
]

later_offset :
    (day_ns : ℕ) (s : VenueSession) (r : ℕ)
    → is_ordered day_ns s ≡ true
    → r < 3
    → offset_of s r ≤ offset_of s (suc r)
later_offset day_ns s r h l = ground arith

last_offset :
    (day_ns : ℕ) (s : VenueSession) (r : ℕ) → is_ordered day_ns s ≡ true → offset_of s r ≤ day_ns
last_offset day_ns s r h = ground arith

next_quarter :
    (n : ℕ)
    → ((n % 4 < 3) × (suc n / 4 ≡ n / 4) × (suc n % 4 ≡ suc (n % 4)))
      ⊎ ((suc n / 4 ≡ suc (n / 4)) × (suc n % 4 ≡ 0))
next_quarter n = elim (Bool-cases (ltb (n % 4) 3)) [
  | inl e ↦ let l : n % 4 < 3 = ground arith in inl (l, omega arith, omega arith)
  | inr e ↦ let l : 3 ≤ n % 4 = ground arith in inr (omega arith, omega arith)
]

later_day : (day_ns d d' o o' : ℕ) → d < d' → o ≤ day_ns → day_ns * d + o ≤ day_ns * d' + o'
later_day day_ns d d' o o' h l = grind arith

times_in_order :
    (c : Calendar) (s s' : VenueSession) (n d d' t t' : ℕ)
    → is_ordered c.day_ns s ≡ true
    → s' ≡ s
    → trading_day c (n / 4) ≡ some d
    → trading_day c (suc n / 4) ≡ some d'
    → t ≡ c.day_ns * d + offset_of s (n % 4)
    → t' ≡ c.day_ns * d' + offset_of s' (suc n % 4)
    → t ≤ t'
unfolding trading_day
times_in_order c s s' n d d' t t' o same e e' p p' =
    rw (p, p', same)
      (elim (next_quarter n) [
        | inl (l, q, r) ↦
            let one_day : d ≡ d' = ground arith in
            let u = later_offset c.day_ns s (n % 4) o l in rw (one_day, r) (omega arith)
        | inr (q, r) ↦
            later_day c.day_ns d d' _ _ (nth_next c c.days 0 (n / 4) e (rw q at e'))
              (last_offset c.day_ns s (n % 4) o)
      ])

valid_sessions :
    (c : Calendar) (venues : List ℕ)
    → is_valid c venues ≡ true
    → all (is_ordered c.day_ns) c.sessions ≡ true
unfolding is_valid
valid_sessions c venues h = ground arith

-- In a valid calendar, if a venue has the boundaries number `n` and `n + 1`, the second is not before
-- the first in time, over holidays too, and the phase that `phase_after` gives once `n + 1`
-- boundaries have passed is the one that boundary `n` starts.
pub boundaries_in_order :
    (c : Calendar) (venues : List ℕ) (venue n : ℕ) (b b' : Boundary)
    → is_valid c venues ≡ true
    → boundary c venue n ≡ some b
    → boundary c venue (suc n) ≡ some b'
    → (b.time ≤ b'.time) × (phase_after (suc n) ≡ b.phase)
unfolding phase_after
boundaries_in_order c venues venue n b b' v h h' =
    let (s, d, e, k, t, p, y) = boundary_parts c venue n h in
    let (s', d', e', k', t', p', y') = boundary_parts c venue (suc n) h' in
    let same : s' ≡ s = ground (arith, e, e') in
    (
      times_in_order c s s' n d d' b.time b'.time
          (session_ordered c.day_ns venue c.sessions (valid_sessions c venues v) e) same k k' t t',
      sym p,
    )
