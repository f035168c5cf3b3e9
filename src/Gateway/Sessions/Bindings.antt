-- ===== src/Gateway/Sessions/Bindings.antt =====
-- Which binding a request gets, and whose job it belongs to.
use safactory.Base.{
  string_eq, Option, String, arith, if◌then◌else◌, lookup, lookup-insert, none, refl, some, ℕ, ◌==◌,
  ◌≡◌, Bool-cases, false, inl, inr, ==-self,
}
use safactory.Gateway.Binding.{Binding, Context, Status}
use safactory.Gateway.Sessions.{
  Resolver, bind, evict_expired, get_or_create_binding, job_conflict, joined_job, new_binding, put,
  touch, ok,
}

abbrev pub job_of : Option Binding → Option String
job_of none = none
job_of (some b) = b.job_id

abbrev pub status_of : Option Binding → Option Status
status_of none = none
status_of (some b) = some b.status

-- What a request leaves under its own session.
pub bound : Context → ℕ → Option Binding → Option Binding
bound ctx now none = some (new_binding ctx.session_id ctx.requested_model ctx.job_id now)
bound ctx now (some b) = if job_conflict b.job_id ctx.job_id then some b else some (touch b ctx now)

bind_lem :
    (r : Resolver) (ctx : Context) (now : ℕ) (s : String) (o : Option Binding)
    → lookup ctx.session_id r.bindings ≡ o
    → lookup s (bind r ctx now o).0.bindings
      ≡ (if ctx.session_id == s then bound ctx now o else lookup s r.bindings)
unfolding bind put bound
bind_lem r ctx now s none e =
    lookup-insert ctx.session_id s (new_binding ctx.session_id ctx.requested_model ctx.job_id now)
      r.bindings
bind_lem r ctx now s (some b) e = ground (
  arith,
  string_eq.beq_iff ctx.session_id s,
  lookup-insert ctx.session_id s (touch b ctx now) r.bindings,
)

joined_lem :
    (held asked : Option String)
    → job_conflict held asked ≡ false
    → ((j : String) → held ≡ some j → joined_job held asked ≡ some j)
      × ((k : String) → asked ≡ some k → joined_job held asked ≡ some k)
unfolding job_conflict joined_job
joined_lem none none h = (λ j e. cc, λ k e. cc)
joined_lem none (some a) h = (λ j e. cc, λ k e. e)
joined_lem (some b) none h = (λ j e. e, λ k e. cc)
joined_lem (some b) (some a) h = (λ j e. ground (arith, string_eq.beq_iff b a), λ k e. e)

abbrev GivenAs : Context → ℕ → Option Binding → Binding → Type 0
GivenAs ctx now o b =
    ((k : String) → ctx.job_id ≡ some k → b.job_id ≡ some k)
    × (b.last_seen_at ≡ now)
    × ((st : Status) → status_of o ≡ some st → b.status ≡ st)

bind_given :
    (r : Resolver) (ctx : Context) (now : ℕ) (o : Option Binding) (b : Binding)
    → (bind r ctx now o).1 ≡ ok b
    → (bound ctx now o ≡ some b) × GivenAs ctx now o b
unfolding bind bound new_binding touch
bind_given r ctx now none b h = (ground arith, (λ k e. ground arith, ground arith, λ st e. cc))
bind_given r ctx now (some old) b h = elim (Bool-cases (job_conflict old.job_id ctx.job_id)) [
  | inl conflict ↦ cc (rw (conflict, bind) at h)
  | inr agree ↦
      let e : ok (touch old ctx now) ≡ ok b = rw (agree, bind) at h in
      (
        rw (agree, bound) (ground arith),
        (
          λ k j. ground (arith, (joined_lem old.job_id ctx.job_id agree).1 k j),
          ground arith,
          λ st f. ground arith,
        ),
      )
]

-- The binding that a request is given is the one stored under its session; it carries the
-- request's job if there is one, was seen now, and has the status that the session had.
pub given_binding :
    (r : Resolver) (ctx : Context) (mono now : ℕ) (b : Binding)
    → (get_or_create_binding r ctx mono now).1 ≡ ok b
    → (lookup ctx.session_id (get_or_create_binding r ctx mono now).0.bindings ≡ some b)
      × ((k : String) → ctx.job_id ≡ some k → b.job_id ≡ some k)
      × (b.last_seen_at ≡ now)
      × ((st : Status)
          → status_of (lookup ctx.session_id (evict_expired r mono now).bindings) ≡ some st
          → b.status ≡ st)
unfolding get_or_create_binding
given_binding r ctx mono now b h =
    let g = bind_given (evict_expired r mono now) ctx now _ b h in
    (
      rw (bind_lem (evict_expired r mono now) ctx now ctx.session_id _ refl, ==-self ctx.session_id)
          g.0,
      g.1.0,
      g.1.1,
      g.1.2,
    )
