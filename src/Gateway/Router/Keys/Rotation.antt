-- ===== src/Gateway/Router/Keys/Rotation.antt =====
-- Key rotation: a retry never repeats a key.
use safactory.Base.{
  add, ◌∙◌, ◌&&◌, string_eq, option_eq, nat_eq, Bool-cases, List, Option, String, [], arith,
  contains, false, inl, inr, lookup, none, not, refl, some, true, ℕ, ◌==◌, ◌∷◌, ◌≡◌, lookup-insert,
  ==-self,
}
use safactory.Gateway.Router.{Router, RouteConfig, RouteState, Target, api_keys, available_keys}
use safactory.Gateway.Router.Grants.{pick_mem, contains-keep_if, available_lem}
use safactory.Gateway.Router.Keys.{
  retry_target, candidates, disable_api_key, next_key, retry_on, retry_with, disabled_in,
}

next_key_lem :
    (choice : ℕ) (t : Target) (revision : ℕ) (ks : List (Option String)) (t' : Target)
    → next_key choice t revision ks ≡ some t'
    → (contains t'.api_key ks ≡ true)
      × (t' ≡ record t { api_key = t'.api_key; key_revision = revision })
unfolding next_key
next_key_lem choice t revision [] t' h = cc
next_key_lem choice t revision (k ∷ ks) t' h = (ground (arith, pick_mem choice k ks), cc)

candidate_lem :
    (route : RouteConfig) (s : RouteState) (attempted : List (Option String)) (k : Option String)
    → contains k (candidates route s attempted) ≡ true
    → (contains k (api_keys route.api_key) ≡ true)
      × (contains k s.disabled_api_keys ≡ false)
      × (contains k attempted ≡ false)
unfolding candidates
candidate_lem route s attempted k h =
    let (available, fresh) =
      contains-keep_if (λ j. not (contains j attempted)) k (available_keys route s) h in
    let (listed, enabled) = available_lem route s k available in (listed, enabled, ground arith)

retry_with_lem :
    (attempted : List (Option String)) (choice : ℕ) (t t' : Target) (o : Option RouteConfig)
    (p : Option RouteState)
    → retry_with attempted choice t o p ≡ some t'
    → (route : RouteConfig) × (s : RouteState) × (o ≡ some route)
      × (p ≡ some s)
      × (contains t'.api_key (candidates route s attempted) ≡ true)
      × (t' ≡ record t { api_key = t'.api_key; key_revision = s.key_revision })
unfolding retry_with
retry_with_lem attempted choice t t' o none h = absurd (cc h)
retry_with_lem attempted choice t t' none (some s) h = absurd (cc h)
retry_with_lem attempted choice t t' (some route) (some s) h =
    let chosen : next_key choice t s.key_revision (candidates route s attempted) ≡ some t' =
      ground arith in
    let (listed, made) =
      next_key_lem choice t s.key_revision (candidates route s attempted) t' chosen in
    (route, s, refl, refl, listed, made)

-- The disabling of a key keeps the route's id.
disable-route_id :
    (r : Router) (t : Target) (s s1 : RouteState)
    → lookup t.route_model r.states ≡ some s
    → lookup t.route_model (disable_api_key r t).0.states ≡ some s1
    → s1.route_id ≡ s.route_id
unfolding disable_api_key
disable-route_id r t s s1 found =
    let disabled = record s { disabled_api_keys = add t.api_key s.disabled_api_keys } in
    rw (found, disabled_in)
      (elim (Bool-cases (s.route_id == t.route_id && s.key_revision == t.key_revision)) [
        | inl current ↦ rw current (λ h.
            let written = lookup-insert t.route_model t.route_model disabled r.states in
            ground (arith, written, ==-self t.route_model, h))
        | inr other ↦ rw other (λ h. ground (arith, found, h))
      ])

retry_on_lem :
    (r : Router) (t t' : Target) (attempted : List (Option String)) (choice : ℕ)
    (o : Option RouteState)
    → lookup t.route_model r.states ≡ o
    → (retry_on r t attempted choice o).1 ≡ some t'
    → let r' = (retry_on r t attempted choice o).0 in
      (route : RouteConfig) × (s : RouteState) × (lookup t.route_model r'.routes ≡ some route)
      × (lookup t.route_model r'.states ≡ some s)
      × (s.route_id ≡ t.route_id)
      × (contains t'.api_key (candidates route s attempted) ≡ true)
      × (t' ≡ record t { api_key = t'.api_key; key_revision = s.key_revision })
unfolding retry_on
retry_on_lem r t t' attempted choice none stated = λ h. absurd (cc h)
retry_on_lem r t t' attempted choice (some s) stated =
    elim (Bool-cases (s.route_id == t.route_id)) [
      | inl same ↦
          rw (same, retry_on)
            (λ h.
              let r' = (disable_api_key r t).0 in
              let (route, s1, routed, stated1, listed, made) =
                retry_with_lem attempted choice t t' (lookup t.route_model r'.routes)
                  (lookup t.route_model r'.states) h in
              let same_id : s1.route_id ≡ s.route_id = disable-route_id r t s s1 stated stated1 in
              (
                route,
                s1,
                routed,
                stated1,
                same_id ∙ (string_eq.beq_iff s.route_id t.route_id).0 same,
                listed,
                made,
              ))
      | inr stale ↦ rw (stale, retry_on) (λ h. absurd (cc h))
    ]

-- A retry goes to the route that the request's target names, if this is still the life of it that has
-- the target's id, and to a key of it that is configured, that is not disabled and that has not been
-- tried for this request; it carries the revision of the keys that it was chosen from, and is the
-- request's target in all else, its lease among it.
pub retry_lem :
    (r : Router) (t t' : Target) (attempted : List (Option String)) (choice : ℕ)
    → (retry_target r t attempted choice).1 ≡ some t'
    → let r' = (retry_target r t attempted choice).0 in
      (route : RouteConfig) × (s : RouteState) × (lookup t.route_model r'.routes ≡ some route)
      × (lookup t.route_model r'.states ≡ some s)
      × (contains t'.api_key (api_keys route.api_key) ≡ true)
      × (contains t'.api_key s.disabled_api_keys ≡ false)
      × (contains t'.api_key attempted ≡ false)
      × (s.route_id ≡ t.route_id)
      × (t' ≡ record t { api_key = t'.api_key; key_revision = s.key_revision })
unfolding retry_target
retry_lem r t t' attempted choice h =
    let (route, s, routed, stated, same, listed, made) =
      retry_on_lem r t t' attempted choice (lookup t.route_model r.states) refl h in
    let (known, enabled, fresh) = candidate_lem route s attempted t'.api_key listed in
    (route, s, routed, stated, known, enabled, fresh, same, made)
