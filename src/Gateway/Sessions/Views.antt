-- ===== src/Gateway/Sessions/Views.antt =====
-- Which bindings an eviction and a clearing of the cache leave.
use safactory.Base.{
  string_eq, IsUnique, String, arith, lookup, lookup-keep_if, not, some, ℕ, ◌+◌, ◌<◌, ◌≡◌, ◌≤◌, ◌⊎◌,
  ◌↔◌, ◌≢◌, none,
}
use safactory.Gateway.Binding.{Binding}
use safactory.Gateway.Sessions.{Resolver, evict_expired, is_expired}

-- One binding at most for each session.

abbrev pub IsKeyed : Resolver → Type 0
IsKeyed r = IsUnique r.bindings

-- An eviction that runs drops a binding exactly if it has no request and no stream and was last seen
-- more than the cache's lifetime ago, and leaves every other binding as it was; a session that had no
-- binding has none.
pub lookup-evict :
    (r : Resolver) (mono now : ℕ) (s : String)
    → IsKeyed r
    → r.last_eviction_at + 60 ≤ mono
    → let after = lookup s (evict_expired r mono now).bindings in
      ((lookup s r.bindings ≡ none) → after ≡ none)
      × ((b : Binding)
          → lookup s r.bindings ≡ some b
          → ((after ≡ none) ↔ (
              (b.active_request_count ≡ 0)
              × (b.active_stream_count ≡ 0)
              × (b.last_seen_at + r.session_cache_ttl_s < now)))
            × ((after ≢ none) → after ≡ some b))
unfolding evict_expired is_expired
lookup-evict r mono now s u due =
    let kept = lookup-keep_if (λ p. not (is_expired r.session_cache_ttl_s now p)) s r.bindings u in
    (λ h. ground (arith, kept), λ b h. (ground (arith, kept), λ stays. ground (arith, kept, stays)))

-- A session with a request or a stream in flight is never evicted, nor is one seen within the
-- cache's lifetime.
pub busy_stays :
    (r : Resolver) (mono now : ℕ) (s : String) (b : Binding)
    → IsKeyed r
    → lookup s r.bindings ≡ some b
    → (0 < b.active_request_count)
      ⊎ (0 < b.active_stream_count)
      ⊎ (now ≤ b.last_seen_at + r.session_cache_ttl_s)
    → lookup s (evict_expired r mono now).bindings ≡ some b
unfolding evict_expired is_expired
busy_stays r mono now s b u here busy =
    ground
      (arith, lookup-keep_if (λ p. not (is_expired r.session_cache_ttl_s now p)) s r.bindings u)
