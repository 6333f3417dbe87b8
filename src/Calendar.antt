-- ===== src/Calendar.antt =====
-- packages/bunting-engine/src/calendar.rs: trading days and session boundaries. Times are u64
-- nanoseconds, days u32. The binary search for a venue is a search of the ascending list of sessions
-- that `is_valid` asks for.
pub mod Times
use bunting.Prelude.{
  ℕ, zero, suc, ◌+◌, ◌*◌, ◌/◌, ◌%◌, ◌^◌, Bool, true, false, ◌&&◌, Option, none, some, List, [], ◌∷◌,
  if◌then◌else◌, ltb, leb, ◌==◌, all, any,
}

pub data SessionPhase : Type 0 where
  closed pre_open continuous closing_call : SessionPhase

pub record VenueSession : Type 0 where
  pub venue_id : ℕ
  pub pre_open_ns : ℕ
  pub open_ns : ℕ
  pub closing_call_ns : ℕ
  pub close_ns : ℕ

pub record Calendar : Type 0 where
  pub day_ns : ℕ
  pub days : ℕ
  pub holidays : List ℕ
  pub sessions : List VenueSession

pub record Boundary : Type 0 where
  pub time : ℕ
  pub phase : SessionPhase
  pub day : ℕ

abbrev pub max_calendar_days : ℕ
max_calendar_days = 3660

-- Ascending without repetition, as a `BTreeSet` lists its elements.
abbrev pub ascending : List VenueSession → Bool
ascending [] = true
ascending (s ∷ []) = true
ascending (s ∷ t ∷ rest) = ltb s.venue_id t.venue_id && ascending (t ∷ rest)

abbrev pub covers : List VenueSession → List ℕ → Bool
covers [] [] = true
covers [] (v ∷ venues) = false
covers (s ∷ sessions) [] = false
covers (s ∷ sessions) (v ∷ venues) = (s.venue_id == v) && covers sessions venues

abbrev pub is_ordered : ℕ → VenueSession → Bool
is_ordered day_ns s =
    leb s.pre_open_ns s.open_ns
    && leb s.open_ns s.closing_call_ns
    && leb s.closing_call_ns s.close_ns
    && leb s.close_ns day_ns

-- `venues` is the set's ascending list. Sessions that are sorted and have no repeated venue are
-- those that ascend.
unfoldable pub is_valid : Calendar → List ℕ → Bool
is_valid c venues =
    ltb 0 c.day_ns
    && (leb 1 c.days && leb c.days max_calendar_days)
    && ltb (c.day_ns * c.days) (2 ^ 64)
    && all (λ day. ltb day c.days) c.holidays
    && ascending c.sessions
    && covers c.sessions venues
    && all (is_ordered c.day_ns) c.sessions

unfoldable pub session : ℕ → List VenueSession → Option VenueSession
session venue [] = none
session venue (s ∷ sessions) = if s.venue_id == venue then some s else session venue sessions

abbrev pub is_holiday : Calendar → ℕ → Bool
is_holiday c day = any (λ holiday. holiday == day) c.holidays

-- The `index`-th trading day of the `left` days from `day` on.
unfoldable pub nth_trading : Calendar → ℕ → ℕ → ℕ → Option ℕ
nth_trading c zero day index = none
nth_trading c (suc left) day zero =
    let later = nth_trading c left (suc day) zero in if is_holiday c day then later else some day
nth_trading c (suc left) day (suc index) =
    let skipped = nth_trading c left (suc day) (suc index) in
    let taken = nth_trading c left (suc day) index in if is_holiday c day then skipped else taken

unfoldable pub trading_day : Calendar → ℕ → Option ℕ
unfolding nth_trading
trading_day c index = nth_trading c c.days 0 index

abbrev pub boundaries_per_day : ℕ
boundaries_per_day = 4

abbrev pub offset_of : VenueSession → ℕ → ℕ
offset_of s n =
    if n == 0
    then s.pre_open_ns
    else if n == 1
    then s.open_ns
    else if n == 2
    then s.closing_call_ns
    else s.close_ns

abbrev pub phase_of : ℕ → SessionPhase
phase_of n =
    if n == 0
    then pre_open
    else if n == 1
    then continuous
    else if n == 2
    then closing_call
    else closed

-- `day_ns.checked_mul(day)?.checked_add(offset)?` on u64.
abbrev pub boundary_time : ℕ → ℕ → ℕ → Option ℕ
boundary_time day_ns day offset =
    if ltb (day_ns * day) (2 ^ 64)
    then (if ltb (day_ns * day + offset) (2 ^ 64) then some (day_ns * day + offset) else none)
    else none

unfoldable pub boundary : Calendar → ℕ → ℕ → Option Boundary
unfolding session trading_day
boundary c venue step = do
  s ← session venue c.sessions
  day ← trading_day c (step / boundaries_per_day)
  time ← boundary_time c.day_ns day (offset_of s (step % boundaries_per_day))
  some (record { time = time; phase = phase_of (step % boundaries_per_day); day = day })
  where
    infixl 20 ◌>>=◌
    ◌>>=◌ : {A B : Type 0} → Option A → (A → Option B) → Option B
    none >>= f = none
    (some a) >>= f = f a

unfoldable pub phase_after : ℕ → SessionPhase
phase_after zero = closed
phase_after (suc n) = phase_of (n % boundaries_per_day)
