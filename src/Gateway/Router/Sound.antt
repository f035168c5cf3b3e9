-- ===== src/Gateway/Router/Sound.antt =====
-- Every method of the router keeps it sound.
use safactory.Base.{
  string_eq, option_eq, nat_eq, Bool, List, Option, String, count_if, lookup, none, ℕ, ◌≡◌,
}
use safactory.Gateway.Router.{Router, ApiKey, RouteConfig, Target, acquire_target, release_target}
use safactory.Gateway.Router.Leases.{on, streams_on}
use safactory.Gateway.Router.Registration.{
  abort_registration, delete_route, publish_registration, reserve_registration,
}
use safactory.Gateway.Router.Keys.{retry_target, disable_api_key, replace_api_keys}
use safactory.Gateway.Router.Invariant.{IsSound}
use safactory.Gateway.Router.Invariant.Leasing.{acquire-IsSound, release-IsSound}
use safactory.Gateway.Router.Invariant.Keying.{disable-IsSound, replace-IsSound, retry-IsSound}
use safactory.Gateway.Router.Invariant.Naming.{
  delete_route-IsSound, abort_registration-IsSound, publish_registration-IsSound,
  reserve_registration-IsSound,
}

-- A call of a method. An acquisition draws a new lease id, a publication a new route id.
pub data Call (r : Router) : Type 0 where
  acquires :
      (model : String) (is_stream : Bool) (choice : ℕ) (lease_id : String)
      → lookup lease_id r.leases ≡ none
      → Call r
  releases : Target → Call r
  disables : Target → Call r
  retries : Target → List (Option String) → ℕ → Call r
  reserves : String → String → Call r
  publishes :
      (model operation_id : String) (route : RouteConfig) (probe : String)
      (disabled : List (Option String)) (id : String)
      → ((m : String) → count_if (on m id) r.leases ≡ 0)
      → ((m : String) → count_if (streams_on m id) r.leases ≡ 0)
      → Call r
  aborts : String → String → Call r
  replaces : String → ℕ → ApiKey → String → List (Option String) → Call r
  deletes : String → Call r

unfoldable pub after : (r : Router) → Call r → Router
after r (acquires model is_stream choice lease_id new) =
    (acquire_target r model is_stream choice lease_id).0
after r (releases t) = release_target r t
after r (disables t) = (disable_api_key r t).0
after r (retries t attempted choice) = (retry_target r t attempted choice).0
after r (reserves model op) = (reserve_registration r model op).0
after r (publishes model op route probe disabled id new new') =
    (publish_registration r model op route probe disabled id).0
after r (aborts model op) = abort_registration r model op
after r (replaces id expected keys probe disabled) =
    (replace_api_keys r id expected keys probe disabled).0
after r (deletes id) = (delete_route r id).0

-- Every method keeps the router sound.
pub after-IsSound : (r : Router) (c : Call r) → IsSound r → IsSound (after r c)
unfolding after
after-IsSound r (acquires model is_stream choice lease_id new) h =
    acquire-IsSound r model is_stream choice lease_id new h
after-IsSound r (releases t) h = release-IsSound r t h
after-IsSound r (disables t) h = disable-IsSound r t h
after-IsSound r (retries t attempted choice) h = retry-IsSound r t attempted choice h
after-IsSound r (reserves model op) h = reserve_registration-IsSound r model op h
after-IsSound r (publishes model op route probe disabled id new new') h =
    publish_registration-IsSound r model op route probe disabled id new new' h
after-IsSound r (aborts model op) h = abort_registration-IsSound r model op h
after-IsSound r (replaces id expected keys probe disabled) h =
    replace-IsSound r id expected keys probe disabled h
after-IsSound r (deletes id) h = delete_route-IsSound r id h
