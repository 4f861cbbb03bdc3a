-- ===== src/Automation/Condition/Windows.antt =====
-- The window of a time condition, against the time that has passed since its start.
use gohome.Prelude.{
  ℕ, ◌+◌, ◌-◌, ◌*◌, ◌%◌, ◌<◌, String, ◌≡◌, refl, ap, ◌∙◌, Bool, true, false, not, ◌&&◌, List, [],
  ◌∷◌, Option, arith, ltb, string_eq, ◌==◌, if◌then◌else◌, is_empty,
}
use gohome.Automation.Condition.{
  verdict, Now, TimeCondition, in_window, parse_hm, time_window, weekday_hit, after_weekdays,
  evaluate_time,
}

-- the minutes from one time of the day to the next time that the clock shows another
abbrev pub since : ℕ → ℕ → ℕ
since from to = (to + 1440 - from) % 1440

window-since :
    (a b cur : ℕ)
    → a < 1440
    → b < 1440
    → cur < 1440
    → in_window true true a b cur ≡ ltb (since a cur) (since a b)
window-since a b cur h k l = ground (arith, h, k, l)

both_bounds :
    (x y : Bool) (a b cur : ℕ)
    → x ≡ false
    → y ≡ false
    → (if x && y then true else in_window (not x) (not y) a b cur) ≡ in_window true true a b cur
both_bounds false false a b cur p q = refl
both_bounds false true a b cur p q = cc
both_bounds true y a b cur p q = cc

any_day :
    (lower : String → String) (today : ℕ) (days : List String) (window : Bool)
    → days ≡ []
    → after_weekdays (if is_empty days then verdict true else weekday_hit lower today days) window
      ≡ verdict window
any_day lower today [] window h = refl
any_day lower today (d ∷ days) window h = cc

-- A time condition with both bounds, which are times of the day, and without weekdays is an error
-- at no time, and holds exactly where less time has passed since its start than its window lasts:
-- also across midnight, and never where the bounds are the same.
pub evaluate_time-since :
    (lower : String → String) (scan : String → Option (ℕ × ℕ)) (now : Now) (c : TimeCondition)
    → c.weekdays ≡ []
    → (c.after == "") ≡ false
    → (c.before == "") ≡ false
    → parse_hm scan c.after < 1440
    → parse_hm scan c.before < 1440
    → now.hour < 24
    → now.minute < 60
    → evaluate_time lower scan now c
      ≡ verdict (
          ltb
            (since (parse_hm scan c.after) (now.hour * 60 + now.minute))
            (since (parse_hm scan c.after) (parse_hm scan c.before)))
unfolding evaluate_time time_window
evaluate_time-since lower scan now c w p q h k l m =
    let cur = now.hour * 60 + now.minute in
    let a = parse_hm scan c.after in
    let b = parse_hm scan c.before in
    any_day lower now.weekday c.weekdays (time_window scan now c) w
    ∙ ap verdict (
        both_bounds (c.after == "") (c.before == "") a b cur p q
        ∙ window-since a b cur h k (omega (arith, l, m)))
