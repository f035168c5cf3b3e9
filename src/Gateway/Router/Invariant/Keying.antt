-- ===== src/Gateway/Router/Invariant/Keying.antt =====
-- Disabling and replacing keys keep the router sound.
use safactory.Base.{
  string_eq, option_eq, nat_eq, Bool, Dict, List, Option, String, add, arith, if_elim,
  insert-IsUnique, is_some, lookup, lookup-insert, none, not, refl, some, ℕ, ◌&&◌, ◌==◌, ◌∙◌, ◌≡◌,
}
use safactory.Gateway.Router.{Router, ApiKey, Result, RouteConfig, RouteState, Target}
use safactory.Gateway.Router.Registration.{state_with_id}
use safactory.Gateway.Router.Keys.{
  retry_target, disable_api_key, disabled_in, renewed, replace_api_keys, replace_on, replaced,
  retry_on, with_keys,
}
use safactory.Gateway.Router.Invariant.{
  IsSound, named_lookup, rekeyed-IsCounted, rewritten-IsExclusive, rewritten-IsSound,
}

disabled_in-IsSound :
    (r : Router) (t : Target) (o : Option RouteState)
    → lookup t.route_model r.states ≡ o
    → IsSound r
    → IsSound (disabled_in r t o).0
unfolding disabled_in
disabled_in-IsSound r t none e h = h
disabled_in-IsSound r t (some s) e h =
    let s' : RouteState = record s { disabled_api_keys = add t.api_key s.disabled_api_keys } in
    if_elim (λ (q : Router × Bool). IsSound q.0)
      (s.route_id == t.route_id && s.key_revision == t.key_revision) _ _
      (rewritten-IsSound r h t.route_model s s' e refl r.leases
        (rekeyed-IsCounted r s s' r.routes t.route_model e refl refl refl h.counted))
      h

retry_on-IsSound :
    (r : Router) (t : Target) (attempted : List (Option String)) (choice : ℕ)
    (o : Option RouteState)
    → IsSound r
    → IsSound (retry_on r t attempted choice o).0
unfolding retry_on disable_api_key
retry_on-IsSound r t attempted choice none h = h
retry_on-IsSound r t attempted choice (some s) h =
    if_elim (λ (q : Router × Option Target). IsSound q.0) (not (s.route_id == t.route_id)) _ _ h
      (disabled_in-IsSound r t (lookup t.route_model r.states) refl h)

pub disable-IsSound : (r : Router) (t : Target) → IsSound r → IsSound (disable_api_key r t).0
unfolding disable_api_key
disable-IsSound r t h = disabled_in-IsSound r t (lookup t.route_model r.states) refl h

pub retry-IsSound :
    (r : Router) (t : Target) (attempted : List (Option String)) (choice : ℕ)
    → IsSound r
    → IsSound (retry_target r t attempted choice).0
unfolding retry_target
retry-IsSound r t attempted choice h =
    retry_on-IsSound r t attempted choice (lookup t.route_model r.states) h

with_keys-lookup :
    (m : String) (keys : ApiKey) (d : Dict String RouteConfig) (o : Option RouteConfig) (j : String)
    → lookup m d ≡ o
    → is_some (lookup j (with_keys m keys d o)) ≡ is_some (lookup j d)
unfolding with_keys
with_keys-lookup m keys d none j e = refl
with_keys-lookup m keys d (some c) j e =
    ground (arith, string_eq.beq_iff m j, lookup-insert m j (record c { api_key = keys }) d)

absent-of :
    {A : Type 0} {B : Type 0} (o : Option A) (p : Option B)
    → is_some o ≡ is_some p
    → p ≡ none
    → o ≡ none
absent-of none p e q = refl
absent-of (some a) p e q = cc

replaced-IsSound :
    (r : Router) (keys : ApiKey) (probe : String) (disabled : List (Option String)) (s : RouteState)
    → lookup s.route_model r.states ≡ some s
    → IsSound r
    → IsSound (replaced r keys probe disabled s)
unfolding replaced
replaced-IsSound r keys probe disabled s found h =
    let s' = renewed s probe disabled in
    let m = s.route_model in
    let old = lookup m r.routes in
    let written = rewritten-IsExclusive r h m s s' found (unfold renewed in refl) r.leases in
    record {
      counted =
          rekeyed-IsCounted r s s' (with_keys m keys r.routes old) m found (unfold renewed in refl)
            (unfold renewed in refl) (unfold renewed in refl) h.counted;
      exclusive = record {
        apart = λ j p.
            absent-of _ _ (with_keys-lookup m keys r.routes old j refl) (h.exclusive.apart j p);
        paired = λ j. with_keys-lookup m keys r.routes old j refl ∙ written.paired j;
        named = written.named;
      };
      unique_states = insert-IsUnique m s' r.states h.unique_states;
    }

replace_on-IsSound :
    (r : Router) (id : String) (expected : ℕ) (keys : ApiKey) (probe : String)
    (disabled : List (Option String)) (o : Option RouteState)
    → state_with_id id r.states ≡ o
    → IsSound r
    → IsSound (replace_on r expected keys probe disabled o).0
unfolding replace_on
replace_on-IsSound r id expected keys probe disabled none e h = h
replace_on-IsSound r id expected keys probe disabled (some s) e h =
    if_elim (λ (q : Router × Result (Unit {0})). IsSound q.0) (s.key_revision == expected) _ _
      (replaced-IsSound r keys probe disabled s (named_lookup r id s h e) h) h

pub replace-IsSound :
    (r : Router) (id : String) (expected : ℕ) (keys : ApiKey) (probe : String)
    (disabled : List (Option String))
    → IsSound r
    → IsSound (replace_api_keys r id expected keys probe disabled).0
unfolding replace_api_keys
replace-IsSound r id expected keys probe disabled h =
    replace_on-IsSound r id expected keys probe disabled (state_with_id id r.states) refl h
