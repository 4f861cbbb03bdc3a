-- ===== src/Automation/Reload.antt =====
-- `New`, `registerTriggers`, `unregisterTriggers` of internal/automation/engine.go, `Reload` of
-- reload.go and the registry of trigger/trigger.go, without the schedules of time triggers, which each
-- reload builds anew, and the runs that a removal cancels. A matcher is known by its pointer, and the
-- registry is the list of the matchers that are registered.
pub mod Stale
use gohome.Prelude.{
  ℕ, String, Bool, true, false, not, ◌&&◌, List, [], ◌∷◌, ◌++◌, Option, none, some, lookup, insert,
  erase, eqb, keep_if, string_eq, ◌==◌, if◌then◌else◌,
}

pub record Automation : Type 0 where
  pub id : String
  pub triggers : List ℕ
  pub enabled : Bool
  pub source : Option String

pub record Engine : Type 0 where
  pub automations : List (String × Automation)
  pub run_states : List (String × Automation)
  pub registry : List ℕ

-- `dropState` and `dropEvent`
unfoldable pub drop_matcher : ℕ → List ℕ → List ℕ
drop_matcher target list = keep_if (λ m. not (eqb m target)) list

abbrev pub unregister_triggers : List ℕ → List ℕ → List ℕ
unregister_triggers [] registry = registry
unregister_triggers (m ∷ triggers) registry = unregister_triggers triggers (drop_matcher m registry)

abbrev pub register_triggers : Automation → Engine → Engine
register_triggers a e = record e { registry = e.registry ++ a.triggers }

abbrev pub structurally_equal : Option String → Option String → Bool
structurally_equal none b = false
structurally_equal (some s) none = false
structurally_equal (some s) (some t) = s == t

abbrev pub by_id : List Automation → List (String × Automation)
by_id [] = []
by_id (a ∷ autos) = insert a.id a (by_id autos)

-- an automation of the running engine, with its new version, if there is one
abbrev pub reload_one : String → Automation → Option Automation → Engine → Engine
reload_one id old none e = record e {
  registry = unregister_triggers old.triggers e.registry;
  run_states = erase id e.run_states;
}
reload_one id old (some new) e = if structurally_equal old.source new.source then e else record e {
  registry = unregister_triggers old.triggers e.registry ++ new.triggers;
  run_states = insert id new e.run_states;
}

-- the loop over the automations of the running engine
abbrev pub reload_old : List (String × Automation) → List (String × Automation) → Engine → Engine
reload_old [] new e = e
reload_old ((id, old) ∷ rest) new e = reload_old rest new (reload_one id old (lookup id new) e)

-- an automation of the new configuration, and whether the engine had it
abbrev pub add_new : String → Automation → Option Automation → Engine → Engine
add_new id new (some old) e = e
add_new id new none e = register_triggers new (record e { run_states = insert id new e.run_states })

abbrev pub reload_new : List (String × Automation) → List (String × Automation) → Engine → Engine
reload_new [] old e = e
reload_new ((id, new) ∷ rest) old e = reload_new rest old (add_new id new (lookup id old) e)

-- `Reload` with the automations that the configuration compiles to; with errors it changes nothing.
unfoldable pub reload : Option (List Automation) → Engine → Engine
unfolding drop_matcher
reload none e = e
reload (some autos) e =
    let new = by_id autos in
    record (reload_new new e.automations (reload_old e.automations new e)) { automations = new }

-- `New`
abbrev pub start : List (String × Automation) → Engine → Engine
start [] e = e
start ((id, a) ∷ rest) e =
    start rest (register_triggers a (record e { run_states = insert id a e.run_states }))

unfoldable pub new_engine : List Automation → Engine
new_engine autos =
    start (by_id autos) (record { automations = by_id autos; run_states = []; registry = [] })
