-- ===== src/Data/WriteBuffer/Skipping.antt =====
-- An update of an object that is still to be created.
use safactory.Base.{
  sym, subst, string_eq, nat_eq, lookup, ==-self, Bool, List, Option, String, [], ap, arith, false,
  if_elim, if◌then◌else◌, leb, not, true, ℕ, ◌&&◌, ◌++◌, ◌∙◌, ◌∷◌, ◌≡◌, ◌==◌,
}
use safactory.Data.WriteBuffer.{
  WriteBuffer, Instance, Operation, append_create, append_update, buffer_create, buffer_update,
  create, create_len, flush_if_full, is_in, or_empty, start, start_if_needed, update, update_len,
}
use safactory.Data.WriteBuffer.Sizes.{or_empty-append}

-- A call of the buffer before its next flush.

pub data BufferCall : Type 0 where
  creates : Instance → BufferCall
  updates : (Instance → Instance → Bool) → Instance → Option (List String) → BufferCall

pub buffer_all : List BufferCall → WriteBuffer → WriteBuffer
buffer_all [] b = b
buffer_all (creates x ∷ calls) b = buffer_all calls (buffer_create x b)
buffer_all (updates same x fields ∷ calls) b = buffer_all calls (buffer_update same x fields b)

abbrev none_same : Instance → Instance → Bool
none_same x y = false

is_in-any :
    (same : Instance → Instance → Bool) (x : Instance) (xs : List Instance)
    → is_in none_same x xs ≡ true
    → is_in same x xs ≡ true
unfolding is_in
is_in-any same x [] h = absurd (cc h)
is_in-any same x (y ∷ ys) h = ground (arith, is_in-any same x ys)

is_in-append :
    (x : Instance) (xs : List Instance) (y : Instance)
    → is_in none_same x xs ≡ true
    → is_in none_same x (xs ++ (y ∷ [])) ≡ true
unfolding is_in
is_in-append x [] y h = absurd (cc h)
is_in-append x (z ∷ zs) y h = ground (arith, is_in-append x zs y)

is_in-last : (x : Instance) (xs : List Instance) → is_in none_same x (xs ++ (x ∷ [])) ≡ true
unfolding is_in
is_in-last x [] = ground (arith, ==-self x.handle, ==-self x.model_class)
is_in-last x (y ∷ ys) = ground (arith, is_in-last x ys)

-- The buffer is started if it starts itself, and the object is still to be created.
abbrev Holds : Instance → WriteBuffer → Type 0
Holds x b =
    ((b.auto_start && not b.running) ≡ false)
    × (is_in none_same x (or_empty (lookup x.model_class b.create_buffers)) ≡ true)

started_again :
    (b : WriteBuffer) → ((start_if_needed b).auto_start && not (start_if_needed b).running) ≡ false
unfolding start_if_needed start
started_again b = ground arith

not_started : (b : WriteBuffer) → (b.auto_start && not b.running) ≡ false → start_if_needed b ≡ b
unfolding start_if_needed
not_started b h = ap (λ t. if t then start b else b) h

flush_if_full-Holds :
    (x : Instance) (n : ℕ) (c : String) (op : Operation) (b : WriteBuffer)
    → Holds x b
    → Holds x (flush_if_full n c op b)
unfolding flush_if_full
flush_if_full-Holds x n c op b h = if_elim (Holds x) (leb b.buffer_size n) _ _ h h

append-Holds : (x y : Instance) (b : WriteBuffer) → Holds x b → Holds x (append_create y b)
unfolding append_create
append-Holds x y b h = (
  h.0,
  by_class (y.model_class == x.model_class) (
      ground (
        arith,
        or_empty-append y.model_class x.model_class y b.create_buffers,
        string_eq.beq_iff y.model_class x.model_class,
      )),
)
  where
    old : List Instance
    old = or_empty (lookup x.model_class b.create_buffers)

    by_class :
        (t : Bool)
        → or_empty (lookup x.model_class (append_create y b).create_buffers)
          ≡ (if t then old ++ (y ∷ []) else old)
        → is_in none_same x (or_empty (lookup x.model_class (append_create y b).create_buffers))
          ≡ true
    by_class true e = ap (is_in none_same x) e ∙ is_in-append x old y h.1
    by_class false e = ap (is_in none_same x) e ∙ h.1

create-Holds : (x y : Instance) (b : WriteBuffer) → Holds x b → Holds x (buffer_create y b)
unfolding buffer_create
create-Holds x y b h =
    let quiet = not_started b h.0 in
    let b1 = append_create y (start_if_needed b) in
    flush_if_full-Holds x (create_len y.model_class b1) y.model_class create b1
      (subst (λ z. Holds x (append_create y z)) (sym quiet) (append-Holds x y b h))

update-Holds :
    (same : Instance → Instance → Bool) (fields : Option (List String)) (x y : Instance)
    (b : WriteBuffer)
    → Holds x b
    → Holds x (buffer_update same y fields b)
unfolding buffer_update append_update
update-Holds same fields x y b h =
    let b1 = start_if_needed b in
    let kept : Holds x b1 = subst (Holds x) (sym (not_started b h.0)) h in
    let b2 = append_update y (or_empty fields) b1 in
    if_elim (Holds x) (is_in same y (or_empty (lookup y.model_class b1.create_buffers))) _ _ kept
      (flush_if_full-Holds x (update_len y.model_class b2) y.model_class update b2 kept)

all-Holds :
    (x : Instance) (calls : List BufferCall) (b : WriteBuffer)
    → Holds x b
    → Holds x (buffer_all calls b)
unfolding buffer_all
all-Holds x [] b h = h
all-Holds x (creates y ∷ calls) b h = all-Holds x calls (buffer_create y b) (create-Holds x y b h)
all-Holds x (updates same y fields ∷ calls) b h =
    all-Holds x calls (buffer_update same y fields b) (update-Holds same fields x y b h)

created-Holds : (x : Instance) (b : WriteBuffer) → Holds x (buffer_create x b)
unfolding buffer_create append_create
created-Holds x b =
    let b0 = start_if_needed b in
    let b1 = append_create x b0 in
    let old = or_empty (lookup x.model_class b0.create_buffers) in
    let found : or_empty (lookup x.model_class b1.create_buffers) ≡ old ++ (x ∷ []) = ground (
      arith,
      or_empty-append x.model_class x.model_class x b0.create_buffers,
      ==-self x.model_class,
    ) in
    flush_if_full-Holds x (create_len x.model_class b1) x.model_class create b1
      (started_again b, ap (is_in none_same x) found ∙ is_in-last x old)

skipped :
    (same : Instance → Instance → Bool) (x : Instance) (fields : Option (List String))
    (b : WriteBuffer)
    → Holds x b
    → buffer_update same x fields b ≡ b
unfolding buffer_update
skipped same x fields b h =
    let quiet = not_started b h.0 in
    let b1 = start_if_needed b in
    let b2 = append_update x (or_empty fields) b1 in
    let present : is_in same x (or_empty (lookup x.model_class b1.create_buffers)) ≡ true =
      is_in-any same x (or_empty (lookup x.model_class b1.create_buffers))
        (subst (Holds x) (sym quiet) h).1 in
    ap (λ t. if t then b1 else flush_if_full (update_len x.model_class b2) x.model_class update b2)
      present
    ∙ quiet

-- Once an object is buffered to be created, an update of it changes nothing, whatever other objects
-- are created and updated in between without a flush: the create will write the newest values, and no
-- entry is added to the buffer of updates.
pub update-create :
    (same : Instance → Instance → Bool) (x : Instance) (fields : Option (List String))
    (calls : List BufferCall) (b : WriteBuffer)
    → let buffered = buffer_all calls (buffer_create x b) in
      buffer_update same x fields buffered ≡ buffered
update-create same x fields calls b =
    skipped same x fields (buffer_all calls (buffer_create x b))
      (all-Holds x calls (buffer_create x b) (created-Holds x b))
