-- ===== src/Window.antt =====
-- internal/window/window.go: update windows. An instant is a number of nanoseconds since Go's zero
-- time, so 0 is `time.Time{}`; `now.Add(-dur)` stays above it, since a duration is below 293 years.
-- The cron library and the time zone database are the record `Cron`.
pub mod Validity
pub mod Covering
pub mod Boundary
pub mod Aggregate
pub mod Policy
pub mod Sample
mod Tests
pub mod Change
use stageset_controller.Prelude.{
  ℕ, zero, suc, ◌+◌, ◌-◌, ◌*◌, String, str_eq, Bool, true, false, not, ◌&&◌, ◌||◌, Option, none,
  some, List, [], ◌∷◌, ℤ, pos, negsuc, Result, ok, err, ◌>>=◌, ltb, leb, ◌==◌, if◌then◌else◌,
  is_some, length,
}

pub data WindowError : Type 0 where
  both_kinds neither_kind absolute_incomplete to_not_after_from : WindowError
  recurring_incomplete duration_not_positive : WindowError
  unknown_time_zone bad_schedule : String → WindowError

-- api/v1 UpdateWindow.
pub record UpdateWindow : Type 0 where
  pub type : String
  pub schedule : String
  pub duration : Option ℤ
  pub time_zone : String
  pub from : Option ℕ
  pub to : Option ℕ

-- `time.LoadLocation` and `cron.ParseStandard` succeed or not; `next schedule zone t` is `Next` of
-- the parsed schedule after the instant `t` in the zone, where the zone "" is UTC.
pub record Cron : Type 0 where
  pub load_location : String → Bool
  pub parse_standard : String → Bool
  pub next : String → String → ℕ → ℕ

abbrev pub max_covering_starts : ℕ
max_covering_starts = 10000

-- The `for range maxCoveringStarts` walk of evalRecurring.
unfoldable pub latest_start : ℕ → (ℕ → ℕ) → ℕ → ℕ → ℕ
latest_start zero next now latest = latest
latest_start (suc n) next now latest =
    let t = next latest in
    let rest = latest_start n next now t in
    if (t == 0) || (not (ltb latest t) || ltb now t) then latest else rest

-- The part of evalRecurring after its checks, for a positive duration.
unfoldable pub cover : (ℕ → ℕ) → ℕ → ℕ → Bool × ℕ
cover next dur now =
    let candidate = next (now - dur) in
    if candidate == 0
    then (false, 0)
    else if ltb now candidate
    then (false, candidate)
    else (true, latest_start max_covering_starts next now candidate + dur)

unfoldable pub eval_absolute : Option ℕ → Option ℕ → ℕ → Result WindowError (Bool × ℕ)
eval_absolute none _ now = err absolute_incomplete
eval_absolute (some from) none now = err absolute_incomplete
eval_absolute (some from) (some to) now =
    if leb to from
    then err to_not_after_from
    else if ltb now from
    then ok (false, from)
    else if ltb now to
    then ok (true, to)
    else ok (false, 0)

-- `flipped != allowed`.
abbrev pub differ : Bool → Bool → Bool
differ true b = not b
differ false b = b

-- The variables of decisionAt's loop.
pub record Tally : Type 0 where
  pub deny_active : Bool
  pub allow_active : Bool
  pub has_allow : Bool
  pub next : ℕ

-- The variables before the first window.
abbrev pub no_window : Tally
no_window = record { deny_active = false; allow_active = false; has_allow = false; next = 0 }

module _ (c : Cron) where
  for_duration : UpdateWindow → ℤ → ℕ → Result WindowError (Bool × ℕ)
  for_duration w (negsuc d) now = err duration_not_positive
  for_duration w (pos zero) now = err duration_not_positive
  for_duration w (pos (suc d)) now = ok (cover (c.next w.schedule w.time_zone) (suc d) now)

  with_duration : UpdateWindow → Option ℤ → ℕ → Result WindowError (Bool × ℕ)
  unfolding for_duration
  with_duration w none now = err recurring_incomplete
  with_duration w (some dur) now =
      if not (str_eq w.time_zone "") && not (c.load_location w.time_zone)
      then err (unknown_time_zone w.time_zone)
      else if not (c.parse_standard w.schedule)
      then err (bad_schedule w.schedule)
      else for_duration w dur now

  unfoldable pub eval_recurring : UpdateWindow → ℕ → Result WindowError (Bool × ℕ)
  unfolding with_duration
  eval_recurring w now =
      if str_eq w.schedule "" then err recurring_incomplete else with_duration w w.duration now

  unfoldable pub eval_window : UpdateWindow → ℕ → Result WindowError (Bool × ℕ)
  eval_window w now =
      let recurring = not (str_eq w.schedule "") || is_some w.duration in
      let absolute = is_some w.from || is_some w.to in
      if recurring && absolute
      then err both_kinds
      else if absolute
      then eval_absolute w.from w.to now
      else if recurring
      then eval_recurring w now
      else err neither_kind

  unfoldable pub add_window : UpdateWindow → Bool × ℕ → Tally → Tally
  add_window w (active, boundary) t = record {
    deny_active = if str_eq w.type "Deny" then t.deny_active || active else t.deny_active;
    allow_active =
        if str_eq w.type "Deny"
        then t.allow_active
        else if str_eq w.type "Allow"
        then t.allow_active || active
        else t.allow_active;
    has_allow =
        if str_eq w.type "Deny"
        then t.has_allow
        else if str_eq w.type "Allow"
        then true
        else t.has_allow;
    next = if not (boundary == 0) && (t.next == 0 || ltb boundary t.next) then boundary else t.next;
  }

  unfoldable pub tally : List UpdateWindow → ℕ → Tally → Result WindowError Tally
  tally [] now t = ok t
  tally (w ∷ ws) now t = do evaluated ← eval_window w now; tally ws now (add_window w evaluated t)

  unfoldable pub decision_at : List UpdateWindow → ℕ → Result WindowError (Bool × ℕ)
  decision_at ws now = do
    t ← tally ws now no_window
    ok (not t.deny_active && (not t.has_allow || t.allow_active), t.next)

  -- The loop of Decision: `rounds` left, the answer so far, the earliest boundary and `cur`.
  unfoldable pub decision_loop :
      ℕ → List UpdateWindow → Bool → ℕ → ℕ → Result WindowError (Bool × ℕ)
  decision_loop zero ws allowed earliest cur = ok (allowed, earliest)
  decision_loop (suc rounds) ws allowed earliest cur = do
    (_, boundary) ← decision_at ws cur
    let go_on = decision_loop rounds ws allowed earliest boundary
    let flip =
        (decision_at ws boundary >>= λ at.
        if differ at.0 allowed then ok (allowed, boundary) else go_on)
    if boundary == 0 then ok (allowed, 0) else flip

  unfoldable pub decision : List UpdateWindow → ℕ → Result WindowError (Bool × ℕ)
  decision [] now = ok (true, 0)
  decision (w ∷ ws) now = do
    (allowed, earliest) ← decision_at (w ∷ ws) now
    decision_loop (2 * length (w ∷ ws) + 2) (w ∷ ws) allowed earliest now

  -- Validate: the first error of a window, at the instant `now`.
  unfoldable pub validate : List UpdateWindow → ℕ → Option WindowError
  validate [] now = none
  validate (w ∷ ws) now =
      let rest = validate ws now in elim (eval_window w now) [ ok _ ↦ rest | err e ↦ some e ]
