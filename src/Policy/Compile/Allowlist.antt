-- ===== src/Policy/Compile/Allowlist.antt =====
-- The compiled allowlist holds exactly what the raw policies grant.
use gohome.Prelude.{
  ℕ, ◌+◌, ◌%◌, ◌^◌, inl, inr, ◌≡◌, refl, ◌∙◌, Bool, true, false, ◌&&◌, ◌||◌, List, [], ◌∷◌, Option,
  none, some, arith, lookup, lookup-insert, contains, contains-add, add, any, or_zero, ◌==◌, eq_iff,
  string_eq, pair_eq, Bool-cases, Option-cases,
}
use gohome.Policy.Schema.{
  Verb, RoleSlug, ActionKey, Compiled, CompiledRule, make_action_key, permits_action,
}
use gohome.Policy.Roles.{RoleGraph, resolve_role_inheritance}
use gohome.Policy.Rule.{
  RawRule, RawPolicy, CatalogAction, RawSelector, got, got-bind, compile_rule, compile_selector,
  cached_expansion, hash_selector,
}
use gohome.Policy.Compile.{
  allow_one, allow_verbs, allow_actions, service_listed, verbs_of, add_to_action_allowlist,
  append_rule, Input, rule_with, compile_allows, compile_denies, compile_subjects, compile_policies,
  compile, blank,
}

-- What a rule grants: some action of the catalog with this verb and key, whose service and verb
-- the rule lists. A rule that lists no service, or no verb, stands for all of them.
abbrev pub rule_grants : List CatalogAction → RawRule → Verb → ActionKey → Bool
rule_grants catalog rr verb key =
    any
      (λ a.
        service_listed rr a
        && (a.verb == verb
            && (any (λ v. v == verb) (verbs_of rr) && make_action_key a.service a.method == key)))
      catalog

-- What the policies grant: an allow rule of a policy with this role among its subjects.
abbrev pub granted : List CatalogAction → List RawPolicy → RoleSlug → Verb → ActionKey → Bool
granted catalog policies role verb key =
    any
      (λ rp.
        any (λ subject. subject == role && any (λ rr. rule_grants catalog rr verb key) rp.allow)
          rp.subjects)
      policies

-- no stored action under a missing key
stored :
    (o : Option (List ActionKey)) (k : ActionKey)
    → (elim o [ none ↦ false | some set ↦ contains set k ]) ≡ contains (or_zero [] o) k
stored none k = refl
stored (some set) k = refl

module _ (r : RoleSlug) (w : Verb) (k : ActionKey) where
  abbrev permits : Compiled → Bool
  permits c = permits_action (some c) r w k

  permits-lookup :
      (c : Compiled) → permits c ≡ contains (or_zero [] (lookup (r, w) c.action_allowlist)) k
  unfolding permits_action
  permits-lookup c = stored (lookup (r, w) c.action_allowlist) k

  permits-allow_one :
      (role : RoleSlug) (v : Verb) (action : ActionKey) (out : Compiled)
      → permits (allow_one role v action out)
        ≡ (permits out || ((role == r && v == w) && action == k))
  unfolding allow_one
  permits-allow_one role v action out =
      let held = or_zero [] (lookup (role, v) out.action_allowlist) in
      rw (permits-lookup (allow_one role v action out), permits-lookup out)
        (rw
          (lookup-insert {K = RoleSlug × Verb} (role, v) (r, w) (add action held)
            out.action_allowlist)
          (elim (Bool-cases (role == r && v == w)) [
            | inl same ↦
                rw (same, contains-add action held k) (ground (arith, eq_iff role r, eq_iff v w))
            | inr other ↦ rw other (ground arith)
          ]))

  permits-allow_verbs :
      (role : RoleSlug) (a : CatalogAction) (verbs : List Verb) (out : Compiled)
      → permits (allow_verbs role a verbs out) ≡ (
          permits out
          || (role == r
              && (a.verb == w
                  && (any (λ v. v == w) verbs && make_action_key a.service a.method == k))))
  unfolding allow_verbs
  permits-allow_verbs role a [] out = ground arith
  permits-allow_verbs role a (v ∷ rest) out =
      permits-allow_verbs role a rest _
      ∙ ground (
        arith,
        permits-allow_one role v (make_action_key a.service a.method) out,
        eq_iff v a.verb,
        eq_iff v w,
        eq_iff a.verb w,
      )

  permits-allow_actions :
      (role : RoleSlug) (rr : RawRule) (catalog : List CatalogAction) (out : Compiled)
      → permits (allow_actions role rr (verbs_of rr) catalog out)
        ≡ (permits out || (role == r && rule_grants catalog rr w k))
  unfolding allow_actions
  permits-allow_actions role rr [] out = ground arith
  permits-allow_actions role rr (a ∷ rest) out =
      permits-allow_actions role rr rest _
      ∙ ground (arith, permits-allow_verbs role a (verbs_of rr) out)

allowlist-cached_expansion :
    (hash : _) (areas : _) (decls : _) (sink : Compiled)
    → (cached_expansion hash areas decls sink).1.action_allowlist ≡ sink.action_allowlist
unfolding cached_expansion
allowlist-cached_expansion hash areas decls sink = ground arith

allowlist-compile_selector :
    (digest : _) (rs : RawSelector) (areas : _) (sink : Compiled)
    → (compile_selector digest rs areas sink).1.action_allowlist ≡ sink.action_allowlist
unfolding compile_selector
allowlist-compile_selector digest rs areas sink = ground (
  arith,
  allowlist-cached_expansion (hash_selector digest rs.areas rs.classes rs.entity_ids) areas rs.areas
      sink,
)

allowlist-compile_rule :
    (digest : _) (name : _) (rr : RawRule) (areas : _) (catalog : _) (known : _) (sink : Compiled)
    (is_deny : Bool) {cr : CompiledRule} {sink' : Compiled}
    → compile_rule digest name rr areas catalog known sink is_deny ≡ got (cr, sink')
    → sink'.action_allowlist ≡ sink.action_allowlist
unfolding compile_rule
allowlist-compile_rule digest name rr areas catalog known sink is_deny h =
    ground (arith, allowlist-compile_selector digest rr.targets areas sink)

module _ (i : Input) (r : RoleSlug) (w : Verb) (k : ActionKey) where
  abbrev permitted : Compiled → Bool
  permitted c = permits_action (some c) r w k

  -- only the allowlist is read
  permitted_cong :
      (c d : Compiled) → c.action_allowlist ≡ d.action_allowlist → permitted c ≡ permitted d
  unfolding permits_action
  permitted_cong c d e = rw e

  permitted-allows :
      (name : _) (role : RoleSlug) (rules : List RawRule) (out out' : Compiled)
      → compile_allows i name role rules out ≡ got out'
      → permitted out'
        ≡ (permitted out || (role == r && any (λ rr. rule_grants i.catalog.actions rr w k) rules))
  unfolding compile_allows add_to_action_allowlist
  permitted-allows name role [] out out' h = ground arith
  permitted-allows name role (rr ∷ rest) out out' h =
      let ((cr, sink), compiled, later) = got-bind (rule_with i name rr false out) _ h in
      let kept = allowlist-compile_rule _ _ rr _ _ _ out false compiled in
      let sink' = record sink { allow_rules = append_rule role cr sink.allow_rules } in
      ground (
        arith,
        permitted-allows name role rest _ out' later,
        permits-allow_actions r w k role rr i.catalog.actions sink',
        permitted_cong sink' out kept,
      )

  permitted-denies :
      (name : _) (role : RoleSlug) (rules : List RawRule) (out out' : Compiled)
      → compile_denies i name role rules out ≡ got out'
      → permitted out' ≡ permitted out
  unfolding compile_denies
  permitted-denies name role [] out out' h = ground arith
  permitted-denies name role (rr ∷ rest) out out' h =
      let ((cr, sink), compiled, later) = got-bind (rule_with i name rr true out) _ h in
      let kept = allowlist-compile_rule _ _ rr _ _ _ out true compiled in
      let sink' = record sink { deny_rules = append_rule role cr sink.deny_rules } in
      permitted-denies name role rest sink' out' later ∙ permitted_cong sink' out kept

  permitted-subjects :
      (rp : RawPolicy) (subjects : List RoleSlug) (out out' : Compiled)
      → compile_subjects i rp subjects out ≡ got out'
      → permitted out' ≡ (
          permitted out
          || any
              (λ subject. subject == r && any (λ rr. rule_grants i.catalog.actions rr w k) rp.allow)
              subjects)
  unfolding compile_subjects
  permitted-subjects rp [] out out' h = ground arith
  permitted-subjects rp (role ∷ rest) out out' h =
      let (allowed, first, h') = got-bind (compile_allows i rp.name role rp.allow out) _ h in
      let (denied, second, later) = got-bind (compile_denies i rp.name role rp.deny allowed) _ h' in
      ground (
        arith,
        permitted-subjects rp rest denied out' later,
        permitted-denies rp.name role rp.deny allowed denied second,
        permitted-allows rp.name role rp.allow out allowed first,
      )

  permitted-policies :
      (policies : List RawPolicy) (out out' : Compiled)
      → compile_policies i policies out ≡ got out'
      → permitted out' ≡ (permitted out || granted i.catalog.actions policies r w k)
  unfolding compile_policies
  permitted-policies [] out out' h = ground arith
  permitted-policies (rp ∷ rest) out out' h =
      let (mid, first, later) = got-bind (compile_subjects i rp rp.subjects out) _ h in
      ground (
        arith,
        permitted-policies rest mid out' later,
        permitted-subjects rp rp.subjects out mid first,
      )

  permitted-blank :
      (generation : ℕ) (inheritance : _) → permitted (blank generation inheritance) ≡ false
  unfolding permits_action
  permitted-blank generation inheritance = refl

-- Where `Compile` succeeds, the allowlist of the result permits a role, a verb and an action key
-- exactly if some policy with that role among its subjects has an allow rule that grants them.
pub compile-allowlist :
    (i : Input) (policies : List RawPolicy) (roles : RoleGraph) (generation : ℕ) (c : Compiled)
    (role : RoleSlug) (verb : Verb) (key : ActionKey)
    → (compile i policies roles generation).0 ≡ got c
    → permits_action (some c) role verb key ≡ granted i.catalog.actions policies role verb key
unfolding compile
compile-allowlist i policies roles generation c role verb key h =
    elim (Option-cases (resolve_role_inheritance roles)) [
      | inl refused ↦ absurd (ground arith)
      | inr (inheritance, found) ↦
          permitted-policies i role verb key policies
            (blank ((generation + 1) % 2 ^ 64) inheritance) c (ground arith)
          ∙ ground (arith, permitted-blank i role verb key ((generation + 1) % 2 ^ 64) inheritance)
    ]
