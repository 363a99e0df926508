-- ===== src/Opa/Verdict.antt =====
-- When the answer of the agent lets a request pass.
use iceberg.Common.Text.{codes}
use iceberg.Common.{none, some, true, false, refl, Bool, Option, ◌≡◌, ◌≢◌, ap, ◌↔◌, ◌∙◌}
use iceberg.Opa.Json.{
  null, boolean, number, string, array, object, end, member, Members, Json, as_map, field,
}
use iceberg.Opa.Agent.{judge_rules, judge, judge_result, judge_policy, judge_rule}

-- A rule has a field "result" that is not false. (It need not be a Boolean.)
abbrev pub RulePasses : Option Members → Type 0
RulePasses none = ⊥
RulePasses (some m) = (v : Json) × (field (codes "result") m ≡ some v) × (v ≢ boolean false)

abbrev pub RulesPass : Members → Type 0
RulesPass end = Unit
RulesPass (member k v rest) = RulePasses (as_map v) × RulesPass rest

abbrev pub PolicyPasses : Option Members → Type 0
PolicyPasses none = ⊥
PolicyPasses (some m) = RulesPass m

-- Every policy is an object of rules, each of which passes.
abbrev pub Passes : Members → Type 0
Passes end = Unit
Passes (member k v rest) = PolicyPasses (as_map v) × Passes rest

-- A verdict stands when it stood before and the rule passes.
judge_result-eq-true :
    (pass : Bool) (found : Option Json)
    → (judge_result pass found ≡ true)
    → (pass ≡ true) × ((v : Json) × (found ≡ some v) × (v ≢ boolean false))
judge_result-eq-true pass none e = absurd (cc)
judge_result-eq-true pass (some null) e = (e, (null, refl, λ c. cc))
judge_result-eq-true pass (some (boolean true)) e = (e, (boolean true, refl, λ c. cc))
judge_result-eq-true pass (some (boolean false)) e = absurd (cc)
judge_result-eq-true pass (some (number n)) e = (e, (number n, refl, λ c. cc))
judge_result-eq-true pass (some (string s)) e = (e, (string s, refl, λ c. cc))
judge_result-eq-true pass (some (array s)) e = (e, (array s, refl, λ c. cc))
judge_result-eq-true pass (some (object s)) e = (e, (object s, refl, λ c. cc))

judge_result-passes : (v : Json) → (v ≢ boolean false) → judge_result true (some v) ≡ true
judge_result-passes null ne = refl
judge_result-passes (boolean true) ne = refl
judge_result-passes (boolean false) ne = absurd (ne refl)
judge_result-passes (number n) ne = refl
judge_result-passes (string s) ne = refl
judge_result-passes (array s) ne = refl
judge_result-passes (object s) ne = refl

judge_rule-eq-true :
    (pass : Bool) (rule : Option Members)
    → (judge_rule pass rule ≡ true)
    → (pass ≡ true) × RulePasses rule
judge_rule-eq-true pass none e = absurd (cc)
judge_rule-eq-true pass (some m) e = judge_result-eq-true pass (field (codes "result") m) e

judge_rule-passes : (rule : Option Members) → RulePasses rule → judge_rule true rule ≡ true
judge_rule-passes none h = absurd h
judge_rule-passes (some m) (v, found, ne) = rw found (judge_result-passes v ne)

judge_rules-eq-true :
    (pass : Bool) (m : Members) → (judge_rules pass m ≡ true) → (pass ≡ true) × RulesPass m
unfolding judge_rules
judge_rules-eq-true pass end e = (e, tt)
judge_rules-eq-true pass (member k v rest) e =
    let (here, later) = judge_rules-eq-true (judge_rule pass (as_map v)) rest e in
    let (before, rule) = judge_rule-eq-true pass (as_map v) here in (before, (rule, later))

judge_rules-pass : (m : Members) → RulesPass m → judge_rules true m ≡ true
unfolding judge_rules
judge_rules-pass end h = refl
judge_rules-pass (member k v rest) (h, hs) =
    ap (λ b. judge_rules b rest) (judge_rule-passes (as_map v) h) ∙ judge_rules-pass rest hs

judge_policy-eq-true :
    (pass : Bool) (policy : Option Members)
    → (judge_policy pass policy ≡ true)
    → (pass ≡ true) × PolicyPasses policy
judge_policy-eq-true pass none e = absurd (cc)
judge_policy-eq-true pass (some m) e = judge_rules-eq-true pass m e

judge_policy-passes :
    (policy : Option Members) → PolicyPasses policy → judge_policy true policy ≡ true
judge_policy-passes none h = absurd h
judge_policy-passes (some m) h = judge_rules-pass m h

judge-eq-true : (pass : Bool) (m : Members) → (judge pass m ≡ true) → (pass ≡ true) × Passes m
unfolding judge
judge-eq-true pass end e = (e, tt)
judge-eq-true pass (member k v rest) e =
    let (here, later) = judge-eq-true (judge_policy pass (as_map v)) rest e in
    let (before, policy) = judge_policy-eq-true pass (as_map v) here in (before, (policy, later))

judge-Passes : (m : Members) → Passes m → judge true m ≡ true
unfolding judge
judge-Passes end h = refl
judge-Passes (member k v rest) (h, hs) =
    ap (λ b. judge b rest) (judge_policy-passes (as_map v) h) ∙ judge-Passes rest hs

-- The loops of Eval, which start with pass = true, end with pass = true exactly when every value
-- of the document is an object, every value of those is an object too, and each of these has a
-- field "result" that is not the Boolean false. A result that is no Boolean passes.
pub judge-eq-true_iff : (m : Members) → (judge true m ≡ true) ↔ Passes m
judge-eq-true_iff m = (λ e. (judge-eq-true true m e).1, judge-Passes m)
