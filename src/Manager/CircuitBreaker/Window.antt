-- ===== src/Manager/CircuitBreaker/Window.antt =====
-- What the breaker remembers of a run: the last results that count.
use safactory.Base.{
  arith, Bool, List, [], drop, if◌then◌else◌, keep_if, length, length-append, map, not, refl, suc,
  true, zero, ℕ, ◌&&◌, ◌++◌, ◌+◌, ◌-◌, ◌<◌, ◌∷◌, ◌≡◌, ◌≤◌, Option, ap, false, length-drop, none,
  some, sym, ◌∙◌, ◌||◌, subst, append-nil, append_assoc,
}
use safactory.Manager.CircuitBreaker.{
  Breaker, StartResult, Strings, append_bounded, is_skipped, record_result, sample_of, timed_out,
  Reason, evaluate, open_if, with_sample,
}

abbrev pub run : Strings → Breaker → List StartResult → Breaker
run str b [] = b
run str b (r ∷ rs) = run str (record_result str b r).0 rs

-- The samples of the results that are not skipped.
abbrev pub counted : Strings → List StartResult → List (Bool × Bool)
counted str rs = map (sample_of str) (keep_if (λ r. not (is_skipped str r)) rs)

unfoldable pub last : ℕ → List (Bool × Bool) → List (Bool × Bool)
last n xs = drop (length xs - n) xs

abbrev pub all_timed_out : List (Bool × Bool) → Bool
all_timed_out [] = true
all_timed_out (s ∷ ss) = timed_out s && all_timed_out ss

-- How many samples at the end are timeouts.
abbrev pub trailing : List (Bool × Bool) → ℕ
trailing [] = 0
trailing (s ∷ ss) = if all_timed_out (s ∷ ss) then length (s ∷ ss) else trailing ss

all-append :
    (xs : List (Bool × Bool)) (s : Bool × Bool)
    → all_timed_out (xs ++ (s ∷ [])) ≡ (all_timed_out xs && timed_out s)
all-append [] s = ground arith
all-append (x ∷ xs) s = ground (arith, all-append xs s)

trailing-append :
    (xs : List (Bool × Bool)) (s : Bool × Bool)
    → trailing (xs ++ (s ∷ [])) ≡ (if timed_out s then trailing xs + 1 else 0)
trailing-append [] s = ground arith
trailing-append (x ∷ xs) s =
    ground (arith, trailing-append xs s, all-append xs s, length-append xs (s ∷ []))

drop-append :
    (n : ℕ) (xs : List (Bool × Bool)) (s : Bool × Bool)
    → n ≤ length xs
    → drop n (xs ++ (s ∷ [])) ≡ drop n xs ++ (s ∷ [])
drop-append zero xs s h = refl
drop-append (suc n) [] s h = absurd (omega arith)
drop-append (suc n) (x ∷ xs) s h = drop-append n xs s (omega arith)

pub drop-nil : (n : ℕ) → drop {A = Bool × Bool} n [] ≡ []
drop-nil zero = refl
drop-nil (suc n) = refl

drop-drop : (n m : ℕ) (xs : List (Bool × Bool)) → drop n (drop m xs) ≡ drop (m + n) xs
drop-drop n zero xs = ap (λ k. drop k xs) (omega arith)
drop-drop n (suc m) [] = drop-nil n ∙ sym (drop-nil (suc m + n))
drop-drop n (suc m) (x ∷ xs) =
    let e : suc (m + n) ≡ suc m + n = omega arith in drop-drop n m xs ∙ ap (λ k. drop k (x ∷ xs)) e

-- A bounded deque that holds the last entries holds them after one more.
append-last :
    (w : ℕ) (xs : List (Bool × Bool)) (s : Bool × Bool)
    → 0 < w
    → append_bounded w (last w xs) s ≡ last w (xs ++ (s ∷ []))
unfolding append_bounded last
append-last w xs s h =
    let d = length xs - w in
    let a = length (drop d xs) + 1 - w in
    let sum : d + a ≡ length (xs ++ (s ∷ [])) - w =
      omega (arith, length-drop d xs, length-append xs (s ∷ [])) in
    ap (drop a) (sym (drop-append d xs s (omega arith)))
    ∙ drop-drop a d (xs ++ (s ∷ []))
    ∙ ap (λ k. drop k (xs ++ (s ∷ []))) sum

-- The state of a breaker that has counted these samples.
pub record Remembers (b : Breaker) (hist : List (Bool × Bool)) : Type 0 where
  pub positive : 0 < b.window
  pub samples : b.samples ≡ last b.window hist
  pub consecutive : b.consecutive_timeouts ≡ trailing hist

with_sample-Remembers :
    (b : Breaker) (hist : List (Bool × Bool)) (s : Bool × Bool)
    → Remembers b hist
    → Remembers (with_sample b s) (hist ++ (s ∷ []))
unfolding with_sample
with_sample-Remembers b hist s m = record {
  positive = m.positive;
  samples =
      ap (λ xs. append_bounded b.window xs s) m.samples ∙ append-last b.window hist s m.positive;
  consecutive = ground (arith, m.consecutive, trailing-append hist s);
}

open_if-Remembers :
    (b : Breaker) (hist : List (Bool × Bool)) (o : Option Reason)
    → Remembers b hist
    → Remembers (open_if b o).0 hist
unfolding open_if
open_if-Remembers b hist none m = m
open_if-Remembers b hist (some e) m = record {
  positive = m.positive;
  samples = m.samples;
  consecutive = m.consecutive;
}

-- One result, of a breaker that is closed.
abbrev pub extended : Strings → List (Bool × Bool) → StartResult → List (Bool × Bool)
extended str hist r = if is_skipped str r then hist else hist ++ (sample_of str r ∷ [])

record_result-Remembers :
    (str : Strings) (b : Breaker) (hist : List (Bool × Bool)) (r : StartResult)
    → b.enabled ≡ true
    → b.opened ≡ false
    → Remembers b hist
    → Remembers (record_result str b r).0 (extended str hist r)
unfolding record_result
record_result-Remembers str b hist r on closed m =
    recorded (not b.enabled || b.opened) (is_skipped str r) (ground arith)
  where
    b' : Breaker
    b' = with_sample b (sample_of str r)

    recorded :
        (idle skipped : Bool)
        → idle ≡ false
        → Remembers
            (if idle
              then (b, false)
              else if skipped
              then (b, false)
              else open_if b' (evaluate b')).0
            (if skipped then hist else hist ++ (sample_of str r ∷ []))
    recorded true skipped e = absurd (cc e)
    recorded false true e = m
    recorded false false e =
        open_if-Remembers b' (hist ++ (sample_of str r ∷ [])) (evaluate b')
          (with_sample-Remembers b hist (sample_of str r) m)

-- An open breaker stays as it is.
open_stays :
    (str : Strings) (b : Breaker) (rs : List StartResult)
    → b.opened ≡ true
    → (run str b rs).opened ≡ true
unfolding record_result
open_stays str b [] h = h
open_stays str b (r ∷ rs) h = open_stays str (record_result str b r).0 rs (ground arith)

was_closed :
    (str : Strings) (b : Breaker) (rs : List StartResult)
    → (run str b rs).opened ≡ false
    → b.opened ≡ false
was_closed str b rs h = ground (arith, open_stays str b rs)

still_enabled :
    (str : Strings) (b : Breaker) (r : StartResult)
    → b.enabled ≡ true
    → (record_result str b r).0.enabled ≡ true
unfolding record_result with_sample open_if
still_enabled str b r h = ground arith

extended-append :
    (str : Strings) (hist : List (Bool × Bool)) (r : StartResult) (rs : List StartResult)
    → extended str hist r ++ counted str rs ≡ hist ++ counted str (r ∷ rs)
extended-append str hist r rs =
    ground (arith, append_assoc hist (sample_of str r ∷ []) (counted str rs))

pub run-Remembers :
    (str : Strings) (b : Breaker) (hist : List (Bool × Bool)) (rs : List StartResult)
    → b.enabled ≡ true
    → Remembers b hist
    → (run str b rs).opened ≡ false
    → Remembers (run str b rs) (hist ++ counted str rs)
run-Remembers str b hist [] on m closed = subst (Remembers b) (sym (append-nil hist)) m
run-Remembers str b hist (r ∷ rs) on m closed =
    let b' = (record_result str b r).0 in
    subst (Remembers (run str b' rs)) (extended-append str hist r rs) (
      run-Remembers str b' (extended str hist r) rs (still_enabled str b r on)
        (record_result-Remembers str b hist r on (was_closed str b (r ∷ rs) closed) m) closed)
