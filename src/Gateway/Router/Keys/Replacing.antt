-- ===== src/Gateway/Router/Keys/Replacing.antt =====
-- Replacing the keys of a route: an old target cannot disable a new key.
use safactory.Base.{
  if◌then◌else◌, subst, Dict, IsUnique, insert, some_injective, ap, sym, ◌+◌, ◌∙◌, string_eq,
  option_eq, nat_eq, Bool-cases, List, Option, String, [], arith, false, inl, inr, lookup, refl,
  some, ℕ, ◌==◌, ◌∷◌, ◌≡◌, lookup-insert, ◌↔◌, ◌≢◌, ◌≤◌, ==-self,
}
use safactory.Gateway.Router.{
  Result, err, key_update_conflict, Router, RouteState, Target, ApiKey, ok,
}
use safactory.Gateway.Router.Registration.{state_with_id, state_with_id_lem}
use safactory.Gateway.Router.Invariant.{IsSound}
use safactory.Gateway.Router.Keys.{
  disable_api_key, replace_on, replaced, disabled_in, renewed, replace_api_keys,
}

-- A target whose keys are of another revision than its route's disables nothing.

stale_disable :
    (r : Router) (t : Target) (s : RouteState)
    → lookup t.route_model r.states ≡ some s
    → s.key_revision ≢ t.key_revision
    → disable_api_key r t ≡ (r, false)
unfolding disable_api_key
stale_disable r t s found other =
    rw (found, disabled_in) (ground (arith, nat_eq.beq_iff s.key_revision t.key_revision))

replaced-stale :
    (r : Router) (keys : ApiKey) (probe : String) (disabled : List (Option String)) (s : RouteState)
    (t : Target)
    → t.key_revision ≤ s.key_revision
    → s.route_model ≡ t.route_model
    → disable_api_key (replaced r keys probe disabled s) t
      ≡ (replaced r keys probe disabled s, false)
unfolding replaced
replaced-stale r keys probe disabled s t older model =
    stale_disable (replaced r keys probe disabled s) t (renewed s probe disabled)
      (rw (
        lookup-insert s.route_model t.route_model (renewed s probe disabled) r.states,
        (string_eq.beq_iff s.route_model t.route_model).1 model,
      ))
      (omega arith)

-- A state that is written back under its model is found by its id.
found_again :
    (id : String) (d : Dict String RouteState) (s v : RouteState)
    → IsUnique d
    → ((m : String) (w : RouteState) → lookup m d ≡ some w → w.route_model ≡ m)
    → v.route_id ≡ id
    → state_with_id id d ≡ some s
    → state_with_id id (insert s.route_model v d) ≡ some v
unfolding state_with_id insert lookup
found_again id [] s v u named same h = absurd (cc h)
found_again id ((j, w) ∷ d) s v u named same h = elim (Bool-cases (w.route_id == id)) [
  | inl here ↦
      let is_s : w ≡ s = some_injective (ground arith) in
      let at_j : s.route_model ≡ j =
        ap (λ (x : RouteState). x.route_model) (sym is_s) ∙ named j w (ground (arith, ==-self j)) in
      ground (arith, string_eq.beq_iff j s.route_model, string_eq.beq_iff v.route_id id)
  | inr other ↦
      let later : state_with_id id d ≡ some s = ground arith in
      let deeper : (m : String) (x : RouteState) → lookup m d ≡ some x → x.route_model ≡ m =
        λ m x e. named m x (ground (arith, string_eq.beq_iff j m, u.0, e)) in
      let (m, found, s_id) = state_with_id_lem id d s u.1 later in
      let at_m = deeper m s found in
      let rest = found_again id d s v u.1 deeper same later in
      ground (arith, string_eq.beq_iff j s.route_model, u.0, found, at_m, rest)
]

second_refused :
    (r : Router) (expected : ℕ) (keys : ApiKey) (probe : String) (disabled : List (Option String))
    (id : String) (s : RouteState)
    → IsSound r
    → state_with_id id r.states ≡ some s
    → s.key_revision ≡ expected
    → (keys' : ApiKey) (probe' : String) (disabled' : List (Option String))
    → let q = replaced r keys probe disabled s in
      replace_on q expected keys' probe' disabled' (state_with_id id q.states)
      ≡ (q, err key_update_conflict)
unfolding replaced replace_on
second_refused r expected keys probe disabled id s h found current keys' probe' disabled' =
    let (m, at_m, same) = state_with_id_lem id r.states s h.unique_states found in
    let again : state_with_id id (insert s.route_model (renewed s probe disabled) r.states)
        ≡ some (renewed s probe disabled) =
      found_again id r.states s (renewed s probe disabled) h.unique_states h.exclusive.named
        (unfold renewed in same) found in
    rw (again) (ground (arith, nat_eq.beq_iff (s.key_revision + 1) expected))

-- What a replacement comes to, from the router before and the state of the route.
abbrev pub IsReplaced :
    Router
    → ℕ
    → String
    → List (Option String)
    → String
    → RouteState
    → Router × Result (Unit {0})
    → Type 0
IsReplaced r expected probe disabled id s q =
    ((q.1 ≡ ok tt) ↔ (s.key_revision ≡ expected))
    × ((s.key_revision ≢ expected) → q ≡ (r, err key_update_conflict))
    × ((q.1 ≡ ok tt)
        → (lookup s.route_model q.0.states ≡ some (renewed s probe disabled))
          × ((t : Target)
              → t.key_revision ≤ expected
              → s.route_model ≡ t.route_model
              → disable_api_key q.0 t ≡ (q.0, false))
          × ((keys' : ApiKey) (probe' : String) (disabled' : List (Option String))
              → replace_api_keys q.0 id expected keys' probe' disabled'
                ≡ (q.0, err key_update_conflict)))

-- A replacement goes through exactly if it was validated against the route's present keys, and is
-- told of the conflict otherwise. One that goes through raises the revision; of a second one that was
-- validated against the same keys nothing is done and it is told of the conflict; and a target that
-- was handed out before can no longer disable a key of the route.
pub replace_lem :
    (r : Router) (expected : ℕ) (keys : ApiKey) (probe : String) (disabled : List (Option String))
    (id : String) (s : RouteState)
    → IsSound r
    → state_with_id id r.states ≡ some s
    → IsReplaced r expected probe disabled id s (replace_api_keys r id expected keys probe disabled)
unfolding replace_api_keys replace_on
replace_lem r expected keys probe disabled id s h found =
    let q = replaced r keys probe disabled s in
    let answered : replace_api_keys r id expected keys probe disabled
        ≡ replace_on r expected keys probe disabled (some s) =
      ap (replace_on r expected keys probe disabled) found in
    elim (Bool-cases (s.key_revision == expected)) [
      | inl current ↦
          let same = (nat_eq.beq_iff s.key_revision expected).0 current in
          subst (IsReplaced r expected probe disabled id s)
            (sym
              (answered ∙ ap (λ t. if t then (q, ok tt) else (r, err key_update_conflict)) current))
            (
              (λ _. same, λ _. refl),
              λ changed. absurd (changed same),
              λ _. (
                unfold replaced in
                    rw (
                      lookup-insert s.route_model s.route_model (renewed s probe disabled) r.states,
                      ==-self s.route_model,
                    ),
                λ t older model.
                    replaced-stale r keys probe disabled s t (omega (arith, same, older)) model,
                λ keys' probe' disabled'.
                    second_refused r expected keys probe disabled id s h found same keys' probe'
                      disabled',
              ),
            )
      | inr changed ↦
          subst (IsReplaced r expected probe disabled id s)
            (sym
              (answered ∙ ap (λ t. if t then (q, ok tt) else (r, err key_update_conflict)) changed))
            (
              (
                λ h. absurd (cc h),
                λ e. absurd (cc (changed, (nat_eq.beq_iff s.key_revision expected).1 e)),
              ),
              λ _. refl,
              λ h. absurd (cc h),
            )
    ]
