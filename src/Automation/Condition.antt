-- ===== src/Automation/Condition.antt =====
-- internal/automation/condition: typed.go and compose.go; and the blocks of action/block.go. The
-- values of attributes, floating-point numbers, Starlark expressions, `strings.ToLower` and
-- `fmt.Sscanf` are parameters; logs and metrics are left out.
pub mod Windows
use gohome.Prelude.{
  ℕ, zero, suc, ◌+◌, ◌*◌, ◌%◌, String, Bool, true, false, not, ◌&&◌, ◌||◌, List, [], ◌∷◌, Option,
  none, some, ltb, leb, eqb, lookup, is_empty, string_eq, ◌==◌, if◌then◌else◌,
}
use gohome.EventStore.Event.{contains_string}

-- what `Evaluate` gives: a Boolean value, or an error
pub data Verdict : Type 0 where
  verdict : Bool → Verdict
  condition_error : String → Verdict

pub record EntityState (A : Type 0) : Type 0 where
  pub state_str : String
  pub attributes : List (String × A)

pub record StateCondition : Type 0 where
  pub entity : String
  pub equals : String
  pub one_of : List String
  pub not_state : String

pub record NumericCondition (F : Type 0) : Type 0 where
  pub entity : String
  pub attribute : String
  pub op : String
  pub value : F

pub record TimeCondition : Type 0 where
  pub after : String
  pub before : String
  pub weekdays : List String

-- `toFloat` and the comparisons of float64
pub record Floats (F A : Type 0) : Type 0 where
  pub to_float : A → Option F
  pub lt : F → F → Bool
  pub lte : F → F → Bool
  pub eq : F → F → Bool

-- `env.Now` as the conditions read it, Sunday being day 0
pub record Now : Type 0 where
  pub weekday : ℕ
  pub hour : ℕ
  pub minute : ℕ

unfoldable pub evaluate_state :
    {A : Type 0} → (String → Option (EntityState A)) → StateCondition → Verdict
unfolding contains_string
evaluate_state get c = elim (get c.entity) [
  | none ↦ verdict false
  | some s ↦
      if not (c.equals == "")
      then verdict (s.state_str == c.equals)
      else if not (is_empty c.one_of)
      then verdict (contains_string c.one_of s.state_str)
      else if not (c.not_state == "")
      then verdict (not (s.state_str == c.not_state))
      else condition_error "state condition: no operator"
]

abbrev pub compare_by : {F A : Type 0} → Floats F A → String → F → F → Verdict
compare_by o op f value =
    if op == "lt"
    then verdict (o.lt f value)
    else if op == "lte"
    then verdict (o.lte f value)
    else if op == "eq"
    then verdict (o.eq f value)
    else if op == "gte"
    then verdict (o.lte value f)
    else if op == "gt"
    then verdict (o.lt value f)
    else condition_error "numeric op"

unfoldable pub evaluate_numeric :
    {F A : Type 0} → Floats F A → (String → Option (EntityState A)) → NumericCondition F → Verdict
evaluate_numeric o get c =
    let attr = if c.attribute == "" then "value" else c.attribute in
    elim (get c.entity) [
      | none ↦ verdict false
      | some s ↦ elim (lookup attr s.attributes) [
        | none ↦ verdict false
        | some raw ↦ elim (o.to_float raw) [
          | none ↦ verdict false
          | some f ↦ compare_by o c.op f c.value
        ]
      ]
    ]

-- the map `weekdays`
abbrev pub weekday_of : String → Option ℕ
weekday_of w =
    if w == "sun"
    then some 0
    else if w == "mon"
    then some 1
    else if w == "tue"
    then some 2
    else if w == "wed"
    then some 3
    else if w == "thu"
    then some 4
    else if w == "fri"
    then some 5
    else if w == "sat"
    then some 6
    else none

-- the loop over the weekdays of a condition
abbrev pub weekday_hit : (String → String) → ℕ → List String → Verdict
weekday_hit lower today [] = verdict false
weekday_hit lower today (w ∷ rest) =
    let later = weekday_hit lower today rest in
    elim (weekday_of (lower w)) [
      | none ↦ condition_error "weekday"
      | some day ↦ if eqb today day then verdict true else later
    ]

-- `Sscanf` with "%d:%d", where it reads two numbers that are not negative; an error is 0
unfoldable pub parse_hm : (String → Option (ℕ × ℕ)) → String → ℕ
parse_hm scan s = if s == "" then 0 else elim (scan s) [ none ↦ 0 | some (h, m) ↦ h * 60 + m ]

-- the switch over the bounds, of which at least one is given
abbrev pub in_window : Bool → Bool → ℕ → ℕ → ℕ → Bool
in_window has_after has_before a b cur =
    if has_after && not has_before
    then leb a cur
    else if not has_after && has_before
    then ltb cur b
    else if leb a b
    then leb a cur && ltb cur b
    else leb a cur || ltb cur b

unfoldable pub time_window : (String → Option (ℕ × ℕ)) → Now → TimeCondition → Bool
unfolding parse_hm
time_window scan now c =
    if c.after == "" && c.before == ""
    then true
    else in_window (not (c.after == "")) (not (c.before == "")) (parse_hm scan c.after)
        (parse_hm scan c.before) (now.hour * 60 + now.minute)

abbrev pub after_weekdays : Verdict → Bool → Verdict
after_weekdays (condition_error why) window = condition_error why
after_weekdays (verdict false) window = verdict false
after_weekdays (verdict true) window = verdict window

unfoldable pub evaluate_time :
    (String → String) → (String → Option (ℕ × ℕ)) → Now → TimeCondition → Verdict
unfolding time_window
evaluate_time lower scan now c =
    after_weekdays
      (if is_empty c.weekdays then verdict true else weekday_hit lower now.weekday c.weekdays)
      (time_window scan now c)

mutual
  -- an evaluator; a Starlark expression is its text
  pub data Condition (F : Type 0) : Type 0 where
    state_condition : StateCondition → Condition F
    numeric_condition : NumericCondition F → Condition F
    time_condition : TimeCondition → Condition F
    starlark_condition : String → Condition F
    and_condition or_condition : Conditions F → Condition F
    not_condition : Condition F → Condition F

  pub data Conditions (F : Type 0) : Type 0 where
    no_more : Conditions F
    also : Condition F → Conditions F → Conditions F

-- the environment of an evaluation
pub record Env (F A : Type 0) : Type 0 where
  pub state : String → Option (EntityState A)
  pub now : Now
  pub floats : Floats F A
  pub lower : String → String
  pub scan : String → Option (ℕ × ℕ)
  pub starlark : String → Verdict

-- a step of the loops of `AndCondition`, `OrCondition` and of `NotCondition`
abbrev pub and_then : Verdict → Verdict → Verdict
and_then (condition_error why) later = condition_error why
and_then (verdict false) later = verdict false
and_then (verdict true) later = later

abbrev pub or_else : Verdict → Verdict → Verdict
or_else (condition_error why) later = condition_error why
or_else (verdict true) later = verdict true
or_else (verdict false) later = later

abbrev pub negated : Verdict → Verdict
negated (condition_error why) = condition_error why
negated (verdict b) = verdict (not b)

unfoldable mutual
  unfolding evaluate_state evaluate_numeric evaluate_time

  pub evaluate : {F A : Type 0} → Env F A → Condition F → Verdict
  evaluate env (state_condition c) = evaluate_state env.state c
  evaluate env (numeric_condition c) = evaluate_numeric env.floats env.state c
  evaluate env (time_condition c) = evaluate_time env.lower env.scan env.now c
  evaluate env (starlark_condition expression) = env.starlark expression
  evaluate env (and_condition cs) = evaluate_all env cs
  evaluate env (or_condition cs) = evaluate_any env cs
  evaluate env (not_condition c) = negated (evaluate env c)

  pub evaluate_all : {F A : Type 0} → Env F A → Conditions F → Verdict
  evaluate_all env no_more = verdict true
  evaluate_all env (also c cs) = and_then (evaluate env c) (evaluate_all env cs)

  pub evaluate_any : {F A : Type 0} → Env F A → Conditions F → Verdict
  evaluate_any env no_more = verdict false
  evaluate_any env (also c cs) = or_else (evaluate env c) (evaluate_any env cs)
