-- ===== src/PolicySets/References/Laws.antt =====
-- policy_sets.go: the check of a whole set and the check of one rule agree.
use ise2ise.Base.{◌≡◌, refl, String, Bool, true, false, Option, none, some, List, [], ◌∷◌}
use ise2ise.Base.{◌&&◌, not, is_empty, every, arith, find_first, ◌∙◌, sym}
use ise2ise.Json.{Obj, str, lookup, rule_list}
use ise2ise.Message.{Message, Piece}
use ise2ise.PolicySets.Conditions.{or_reason}
use ise2ise.PolicySets.Conditions.Laws.{is_empty-or_reason}
use ise2ise.PolicySets.References.{
  Known, misses, no_profile, profiles_of, when_found, profile_reason, condition_reason, rule_reason,
  says_if, service_reason, authentication_reason, authorization_reason, first_reason,
  check_policy_set, check_rule,
}

is_empty-says_if : (b : Bool) (p : Piece) (m : Message) → is_empty (says_if b (p ∷ m)) ≡ not b
is_empty-says_if true p m = refl
is_empty-says_if false p m = refl

is_empty-when_found :
    (o : Option String) (say say' : String → Message)
    → ((name : String) → is_empty (say name) ≡ is_empty (say' name))
    → is_empty (when_found o say) ≡ is_empty (when_found o say')
is_empty-when_found none say say' h = refl
is_empty-when_found (some name) say say' h = h name

is_empty-first_reason :
    (f g : Obj → Message) (os : List Obj)
    → ((o : Obj) → is_empty (f o) ≡ is_empty (g o))
    → is_empty (first_reason f os) ≡ every (λ o. is_empty (g o)) os
unfolding first_reason
is_empty-first_reason f g [] h = refl
is_empty-first_reason f g (o ∷ os) h =
    is_empty-or_reason (f o) (first_reason f os) ∙ rw (h o, is_empty-first_reason f g os h)

authentication_reason-check_rule :
    (k : Known) (rule : Obj)
    → is_empty (authentication_reason k rule) ≡ is_empty (check_rule k "authentication" rule)
unfolding authentication_reason check_rule
authentication_reason-check_rule k rule =
    same_choice (misses k.id_stores (str rule "identitySourceName")) _ _ _ _
      (rule_reason k.library rule)
  where
    same_choice :
        (b : Bool) (p q : Piece) (m n : Message) (rest : Message)
        → is_empty (or_reason (says_if b (p ∷ m)) rest)
          ≡ is_empty (or_reason (says_if b (q ∷ n)) rest)
    same_choice true p q m n rest = refl
    same_choice false p q m n rest = refl

regrouped :
    (a a' b b' rest : Message)
    → is_empty a ≡ is_empty a'
    → is_empty b ≡ is_empty b'
    → is_empty (or_reason a (or_reason b rest)) ≡ is_empty (or_reason (or_reason a' b') rest)
regrouped [] [] b b' rest h h' =
    is_empty-or_reason b rest ∙ rw h' (sym (is_empty-or_reason b' rest))
regrouped [] (p ∷ a') b b' rest h h' = absurd (ground (arith, h))
regrouped (p ∷ a) [] b b' rest h h' = absurd (ground (arith, h))
regrouped (p ∷ a) (p' ∷ a') b b' rest h h' = refl

authorization_reason-check_rule :
    (k : Known) (rule : Obj)
    → is_empty (authorization_reason k rule) ≡ is_empty (check_rule k "authorization" rule)
unfolding authorization_reason check_rule profile_reason
authorization_reason-check_rule k rule =
    regrouped (when_found found _) (when_found found _) (says_if no_group _) (says_if no_group _)
      (rule_reason k.library rule) (is_empty-when_found found _ _ λ name. refl)
      (is_empty-says_if no_group _ _ ∙ sym (is_empty-says_if no_group _ _))
  where
    found : Option String
    found = find_first (no_profile k) (profiles_of rule)

    no_group : Bool
    no_group = misses k.sgts (str rule "securityGroup")

-- `checkPolicySetReferences` gives no reason exactly if the set's service is known or unnamed, the
-- set's own condition gives none, and `checkRuleReferences` gives none for any of its authentication
-- and authorization rules.
pub is_empty-check_policy_set :
    (k : Known) (set : Obj)
    → is_empty (check_policy_set k set) ≡ (
        not (misses k.services (str set "serviceName"))
        && (is_empty (condition_reason k.library set)
            && (every
                  (λ rule. is_empty (check_rule k "authentication" rule))
                  (rule_list (lookup set "authentication"))
                && every
                    (λ rule. is_empty (check_rule k "authorization" rule))
                    (rule_list (lookup set "authorization")))))
unfolding check_policy_set service_reason
is_empty-check_policy_set k set =
    is_empty-or_reason (service_reason k set) _
    ∙ rw (
      is_empty-says_if (misses k.services (str set "serviceName")),
      is_empty-or_reason (condition_reason k.library set),
      is_empty-or_reason,
      is_empty-first_reason (authentication_reason k) (check_rule k "authentication")
          (rule_list (lookup set "authentication")) (authentication_reason-check_rule k),
      is_empty-first_reason (authorization_reason k) (check_rule k "authorization")
          (rule_list (lookup set "authorization")) (authorization_reason-check_rule k),
    )
