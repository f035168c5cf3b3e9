-- ===== src/Data/WriteBuffer/Scheduled.antt =====
-- A buffer that has reached its size has a background task that flushes it.
pub mod Flushed
use safactory.Base.{
  string_eq, lookup, ==-self, Bool, List, String, [], arith, false, refl, true, ℕ, ◌&&◌, ◌++◌, ◌==◌,
  ◌||◌, ◌∷◌, ◌≡◌, ◌≤◌, Bool-cases, if_elim, if◌then◌else◌, inl, inr, leb, not, subst, sym, Option,
  ap, ◌<◌, ◌∙◌, ◌⊎◌,
}
use safactory.Data.WriteBuffer.{
  WriteBuffer, FlushTask, Operation, all, create, create_len, flush_all, flush_model,
  flush_task_for, update, update_len, Instance, UpdateEntry, append_create, append_update,
  buffer_create, flush_if_full, start, start_if_needed, Orm, buffer_update, is_in, or_empty,
}
use safactory.Data.WriteBuffer.Flush.{
  flush, flush_creates, flush_model_unlocked, flush_updates, run_task,
}
use safactory.Data.WriteBuffer.Sizes.{or_empty-append, or_empty-erase}
use safactory.Data.WriteBuffer.Draining.{flush_lem, flush_creates_lem, flush_updates_lem}
use safactory.Data.WriteBuffer.Steps.{Reach, made}

-- How many entries a class has in a buffer.
abbrev pub buffered : Operation → String → WriteBuffer → ℕ
buffered create c b = create_len c b
buffered update c b = update_len c b
buffered all c b = 0

abbrev pub same_operation : Operation → Operation → Bool
same_operation create create = true
same_operation update update = true
same_operation all all = true
same_operation create update = false
same_operation create all = false
same_operation update create = false
same_operation update all = false
same_operation all create = false
same_operation all update = false

-- Whether a task flushes a buffer of a class.
abbrev pub covers : FlushTask → Operation → String → Bool
covers flush_all op c = true
covers (flush_model d done) op c = (d == c) && (same_operation done op || same_operation done all)

abbrev pub is_covered : List FlushTask → Operation → String → Bool
is_covered [] op c = false
is_covered (t ∷ ts) op c = covers t op c || is_covered ts op c

abbrev pub IsScheduled : WriteBuffer → Type 0
IsScheduled b =
    (op : Operation) (c : String)
    → b.buffer_size ≤ buffered op c b
    → is_covered b.background_tasks op c ≡ true

pub covered-append :
    (ts us : List FlushTask) (op : Operation) (c : String)
    → is_covered (ts ++ us) op c ≡ (is_covered ts op c || is_covered us op c)
covered-append [] us op c = refl
covered-append (t ∷ ts) us op c = ground (arith, covered-append ts us op c)

task_covers :
    (b : WriteBuffer) (op : Operation) (c : String) → covers (flush_task_for b c op) op c ≡ true
unfolding flush_task_for
task_covers b op c = by_order b.flush_order op
  where
    by_order :
        (order : List String) (op : Operation)
        → covers (elim order [ [] ↦ flush_model c op | first ∷ rest ↦ flush_all ]) op c ≡ true
    by_order [] create = ground (arith, ==-self c)
    by_order [] update = ground (arith, ==-self c)
    by_order [] all = ground (arith, ==-self c)
    by_order (o ∷ os) op = refl

same_operation_lem : (a b : Operation) → same_operation a b ≡ true → a ≡ b
same_operation_lem create create h = refl
same_operation_lem update update h = refl
same_operation_lem all all h = refl
same_operation_lem create update h = absurd (cc h)
same_operation_lem create all h = absurd (cc h)
same_operation_lem update create h = absurd (cc h)
same_operation_lem update all h = absurd (cc h)
same_operation_lem all create h = absurd (cc h)
same_operation_lem all update h = absurd (cc h)

pub buffered-tasks :
    (op : Operation) (c : String) (b : WriteBuffer) (ts : List FlushTask)
    → buffered op c (record b { background_tasks = ts }) ≡ buffered op c b
unfolding create_len update_len
buffered-tasks create c b ts = refl
buffered-tasks update c b ts = refl
buffered-tasks all c b ts = refl

-- Where every buffer but one is scheduled, the task that a full buffer gets schedules that one.
flush_if_full-IsScheduled :
    (n : ℕ) (c : String) (op : Operation) (b : WriteBuffer)
    → buffered op c b ≡ n
    → ((op' : Operation) (c' : String)
        → ((c == c') && same_operation op op') ≡ false
        → b.buffer_size ≤ buffered op' c' b
        → is_covered b.background_tasks op' c' ≡ true)
    → IsScheduled (flush_if_full n c op b)
unfolding flush_if_full
flush_if_full-IsScheduled n c op b len others = by_test (leb b.buffer_size n) refl
  where
    others_covered :
        (ts : List FlushTask) (op' : Operation) (c' : String)
        → ((c == c') && same_operation op op') ≡ false
        → b.buffer_size ≤ buffered op' c' b
        → is_covered (b.background_tasks ++ ts) op' c' ≡ true
    others_covered ts op' c' other h =
        ground (arith, others op' c' other h, covered-append b.background_tasks ts op' c')

    by_test :
        (full : Bool)
        → leb b.buffer_size n ≡ full
        → IsScheduled (
            if full
            then record b { background_tasks = b.background_tasks ++ (flush_task_for b c op ∷ []) }
            else b)
    by_test true e op' c' h = elim (Bool-cases ((c == c') && same_operation op op')) [
      | inl same ↦
          let ec : c ≡ c' = ground (arith, string_eq.beq_iff c c') in
          let eo : op ≡ op' = same_operation_lem op op' (ground arith) in
          let here : is_covered (flush_task_for b c op ∷ []) op c ≡ true =
            ground (arith, task_covers b op c) in
          let found = subst (λ x. is_covered (flush_task_for b c op ∷ []) op x ≡ true) ec here in
          let found2 = subst (λ x. is_covered (flush_task_for b c op ∷ []) x c' ≡ true) eo found in
          ground (arith, covered-append b.background_tasks (flush_task_for b c op ∷ []) op' c')
      | inr other ↦ others_covered (flush_task_for b c op ∷ []) op' c' other (
          subst (λ n. b.buffer_size ≤ n)
            (buffered-tasks op' c' b (b.background_tasks ++ (flush_task_for b c op ∷ []))) h)
    ]
    by_test false e op' c' h = elim (Bool-cases ((c == c') && same_operation op op')) [
      | inl same ↦
          let ec : c ≡ c' = ground (arith, string_eq.beq_iff c c') in
          let eo : op ≡ op' = same_operation_lem op op' (ground arith) in
          let len' : buffered op' c' b ≡ n =
            subst (λ x. buffered x c' b ≡ n) eo (subst (λ x. buffered op x b ≡ n) ec len) in
          absurd (ground arith)
      | inr other ↦ others op' c' other h
    ]

start_if_needed-buffers :
    (b : WriteBuffer) → start_if_needed b ≡ record b { running = (start_if_needed b).running }
unfolding start_if_needed start
start_if_needed-buffers b =
    if_elim (λ (x : WriteBuffer). x ≡ record b { running = x.running })
      (b.auto_start && not b.running) _ b
      (if_elim (λ (x : WriteBuffer). x ≡ record b { running = x.running }) b.running b _ refl refl)
      refl

-- A change of `running` changes no schedule.
pub running-IsScheduled :
    (b : WriteBuffer) (r : Bool) → IsScheduled b → IsScheduled (record b { running = r })
unfolding create_len update_len
running-IsScheduled b r i create c h = i create c h
running-IsScheduled b r i update c h = i update c h
running-IsScheduled b r i all c h = i all c h

started-IsScheduled : (b : WriteBuffer) → IsScheduled b → IsScheduled (start_if_needed b)
started-IsScheduled b i =
    subst IsScheduled (sym (start_if_needed-buffers b))
      (running-IsScheduled b (start_if_needed b).running i)

append_create-others :
    (x : Instance) (b : WriteBuffer) (op : Operation) (c : String)
    → ((x.model_class == c) && same_operation create op) ≡ false
    → buffered op c (append_create x b) ≡ buffered op c b
unfolding append_create create_len update_len
append_create-others x b create c other =
    ground (arith, or_empty-append x.model_class c x b.create_buffers)
append_create-others x b update c other = refl
append_create-others x b all c other = refl

append_update-others :
    (x : Instance) (fields : List String) (b : WriteBuffer) (op : Operation) (c : String)
    → ((x.model_class == c) && same_operation update op) ≡ false
    → buffered op c (append_update x fields b) ≡ buffered op c b
unfolding append_update create_len update_len
append_update-others x fields b update c other =
    let entry : UpdateEntry = record { instance_ = x; update_fields = fields } in
    ground (arith, or_empty-append x.model_class c entry b.update_buffers)
append_update-others x fields b create c other = refl
append_update-others x fields b all c other = refl

pub create-IsScheduled :
    (x : Instance) (b : WriteBuffer) → IsScheduled b → IsScheduled (buffer_create x b)
unfolding buffer_create append_create
create-IsScheduled x b i =
    let b0 = start_if_needed b in
    let i0 = started-IsScheduled b i in
    flush_if_full-IsScheduled (create_len x.model_class (append_create x b0)) x.model_class create
      (append_create x b0) refl
      (λ op c other h.
        i0 op c (subst (λ n. b0.buffer_size ≤ n) (append_create-others x b0 op c other) h))

pub update-IsScheduled :
    (same : Instance → Instance → Bool) (x : Instance) (fields : Option (List String))
    (b : WriteBuffer)
    → IsScheduled b
    → IsScheduled (buffer_update same x fields b)
unfolding buffer_update append_update
update-IsScheduled same x fields b i =
    let b0 = start_if_needed b in
    let i0 = started-IsScheduled b i in
    let b1 = append_update x (or_empty fields) b0 in
    if_elim IsScheduled (is_in same x (or_empty (lookup x.model_class b0.create_buffers))) b0
      (flush_if_full (update_len x.model_class b1) x.model_class update b1) i0
      (flush_if_full-IsScheduled (update_len x.model_class b1) x.model_class update b1 refl
        (λ op c other h. i0 op c (
          subst (λ n. b0.buffer_size ≤ n) (append_update-others x (or_empty fields) b0 op c other)
            h)))

flush_if_full-size :
    (n : ℕ) (c : String) (op : Operation) (b : WriteBuffer)
    → (flush_if_full n c op b).buffer_size ≡ b.buffer_size
unfolding flush_if_full
flush_if_full-size n c op b =
    if_elim (λ (x : WriteBuffer). x.buffer_size ≡ b.buffer_size) (leb b.buffer_size n) _ b refl refl

start_if_needed-size : (b : WriteBuffer) → (start_if_needed b).buffer_size ≡ b.buffer_size
start_if_needed-size b = ap (λ (x : WriteBuffer). x.buffer_size) (start_if_needed-buffers b)

pub create-size : (x : Instance) (b : WriteBuffer) → (buffer_create x b).buffer_size ≡ b.buffer_size
unfolding buffer_create append_create
create-size x b =
    let b1 = append_create x (start_if_needed b) in
    flush_if_full-size (create_len x.model_class b1) x.model_class create b1
    ∙ start_if_needed-size b

pub update-size :
    (same : Instance → Instance → Bool) (x : Instance) (fields : Option (List String))
    (b : WriteBuffer)
    → (buffer_update same x fields b).buffer_size ≡ b.buffer_size
unfolding buffer_update append_update
update-size same x fields b =
    let b0 = start_if_needed b in
    let b1 = append_update x (or_empty fields) b0 in
    if_elim (λ (y : WriteBuffer). y.buffer_size ≡ b.buffer_size)
      (is_in same x (or_empty (lookup x.model_class b0.create_buffers))) b0
      (flush_if_full (update_len x.model_class b1) x.model_class update b1) (start_if_needed-size b)
      (flush_if_full-size (update_len x.model_class b1) x.model_class update b1
        ∙ start_if_needed-size b)
