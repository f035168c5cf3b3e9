-- ===== src/Gateway/Sessions/Examples.antt =====
-- Tests of the session resolver, and its theorems at concrete inputs.
use safactory.Base.{
  refl, Option, String, [], arith, false, inl, lookup, none, some, string_eq, ◌∷◌, ◌≡◌, ◌≢◌,
}
use safactory.Gateway.Binding.{Binding, Context, closed}
use safactory.Gateway.Binding.Examples.{fresh}
use safactory.Gateway.Admission.{acquire_request, init, rejected, session_is}
use safactory.Gateway.Admission.Examples.{limits, request}
use safactory.Gateway.Sessions.{
  Resolver, bind, blank_job, empty_job_id, err, evict_expired, get_or_create_binding, is_expired,
  job_conflict, resolve, touch,
}
use safactory.Gateway.Sessions.Views.{busy_stays, IsKeyed, lookup-evict}
use safactory.Gateway.Sessions.Closing.{closed_session_rejects}

abbrev busy : Binding
busy = record fresh { session_id = "s2"; active_request_count = 1; job_id = some "j1" }

abbrev shut : Binding
shut = record fresh { session_id = "s3"; status = closed }

abbrev three : Resolver
three = record {
  session_cache_ttl_s = 1800;
  bindings = ("s1", fresh) ∷ ("s2", busy) ∷ ("s3", shut) ∷ [];
  last_eviction_at = 0;
}

abbrev asks : String → Option String → Context
asks s job = record request { session_id = s; job_id = job }

three-IsKeyed : IsKeyed three
unfolding lookup
three-IsKeyed = (refl, (refl, (refl, tt)))

resolve_blank_job :
    resolve (λ s. s) "r" (record { model = some "m"; stream = false }) "e" "s" (some "") 1
    ≡ err empty_job_id
unfolding resolve blank_job
resolve_blank_job = refl

idle_dropped : lookup "s1" (evict_expired three 60 5000).bindings ≡ none
unfolding evict_expired is_expired lookup
idle_dropped = refl

lookup-evict_example : lookup "s1" (evict_expired three 60 5000).bindings ≡ none
unfolding is_expired lookup
lookup-evict_example =
    ((lookup-evict three 60 5000 "s1" three-IsKeyed (omega arith)).1 fresh refl).0.1
      (refl, refl, omega arith)

busy_stays_example : lookup "s2" (evict_expired three 60 5000).bindings ≡ some busy
unfolding lookup
busy_stays_example = busy_stays three 60 5000 "s2" busy three-IsKeyed refl (inl (omega arith))

other_job : ◌≢◌ {A = String} "j1" "j2"
other_job = ground (arith, string_eq.beq_iff "j1" "j2")

closed_session_rejects_example :
    (acquire_request limits init (asks "s3" none) (touch shut (asks "s3" none) 150) 150).2
    ≡ rejected (session_is closed)
unfolding get_or_create_binding evict_expired lookup bind job_conflict
closed_session_rejects_example =
    (closed_session_rejects limits init three (asks "s3" none) 30 150
      (touch shut (asks "s3" none) 150) refl refl).0
