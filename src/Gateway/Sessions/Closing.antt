-- ===== src/Gateway/Sessions/Closing.antt =====
-- Closing a session: one caller runs the close, and a closed session takes no request.
use safactory.Base.{string_eq, lookup, some, ℕ, ◌≡◌, ap, ◌∙◌}
use safactory.Gateway.Binding.{Binding, Context, closed}
use safactory.Gateway.Admission.Decision.{not_active-rejected}
use safactory.Gateway.Admission.{acquire_request, Config, Controller, rejected, session_is}
use safactory.Gateway.Sessions.{Resolver, evict_expired, get_or_create_binding, ok}
use safactory.Gateway.Sessions.Bindings.{status_of, given_binding}

-- A request for a session that is closed, and that no eviction has forgotten, is never admitted:
-- whatever the limits, the controller rejects it as closed and leaves its binding.
pub closed_session_rejects :
    (cfg : Config) (ctl : Controller) (r : Resolver) (ctx : Context) (mono now : ℕ) (b : Binding)
    → status_of (lookup ctx.session_id (evict_expired r mono now).bindings) ≡ some closed
    → (get_or_create_binding r ctx mono now).1 ≡ ok b
    → ((acquire_request cfg ctl ctx b now).2 ≡ rejected (session_is closed))
      × ((acquire_request cfg ctl ctx b now).1 ≡ b)
closed_session_rejects cfg ctl r ctx mono now b gone given =
    let same : b.status ≡ closed = (given_binding r ctx mono now b given).3 closed gone in
    let no_entry = not_active-rejected cfg ctl ctx b now (λ e. cc) in
    (no_entry.0 ∙ ap (λ st. rejected (session_is st)) same, no_entry.1)
