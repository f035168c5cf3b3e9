-- ===== src/Data/Upserts/Batches.antt =====
-- Batching changes nothing: the store and the answers are those of one write for each row.
use safactory.Base.{
  arith, Bool, Bool-cases, List, Option, String, [], ap, append_assoc, false, inl, inr, length, ltb,
  map, none, refl, suc, sym, true, zero, ℕ, ◌++◌, ◌<◌, ◌∙◌, ◌∷◌, ◌≡◌, ◌⊎◌, if◌then◌else◌,
  length-append, subst, ◌+◌, ◌-◌, ◌≤◌,
}
use safactory.Data.Upserts.{
  row_key_eq, QueueItem, Request, Row, RowKey, flush, gather, request, rows_by_key, rows_of, run,
  settle, stop, values,
}
use safactory.Data.Upserts.Newest.{newest, newest-rows_by_key, newest-append}

-- A queue of requests that ends with the stop of `close`.
abbrev pub queue_of : List Request → List QueueItem
queue_of qs = map request qs ++ (stop ∷ [])

-- What one batch takes of such a queue: everything, or a part from the front.
Takes : List Request → List Request × List QueueItem × Bool → Type 0
Takes qs b =
    (b ≡ (qs, [], true))
    ⊎ ((xs : List Request) × (rest : List Request) × (qs ≡ xs ++ rest)
        × (b ≡ (xs, queue_of rest, false)))

gather_step :
    (q : Request) (qs : List Request) (b : List Request × List QueueItem × Bool)
    → Takes qs b
    → Takes (q ∷ qs) (q ∷ b.0, b.1, b.2)
unfolding Takes
gather_step q qs b (inl e) = inl (ap (λ c. (q ∷ c.0, c.1, c.2)) e)
gather_step q qs b (inr (xs, rest, split, e)) =
    inr (q ∷ xs, rest, ap (λ l. q ∷ l) split, ap (λ c. (q ∷ c.0, c.1, c.2)) e)

gather-Takes : (size count n : ℕ) (qs : List Request) → Takes qs (gather size count n (queue_of qs))
unfolding gather Takes
gather-Takes size count zero [] = inr ([], [], refl, refl)
gather-Takes size count zero (q ∷ qs) = inr ([], q ∷ qs, refl, refl)
gather-Takes size count (suc n) [] = elim (Bool-cases (ltb count size)) [
  | inl room ↦ inl (rw room)
  | inr full ↦ inr ([], [], refl, rw full)
]
gather-Takes size count (suc n) (q ∷ qs) = elim (Bool-cases (ltb count size)) [
  | inl room ↦ rw room (gather_step q qs _ (gather-Takes size (count + length q.rows) n qs))
  | inr full ↦ inr ([], q ∷ qs, refl, rw full)
]

rows_of-append : (xs ys : List Request) → rows_of (xs ++ ys) ≡ rows_of xs ++ rows_of ys
unfolding rows_of
rows_of-append [] ys = refl
rows_of-append (x ∷ xs) ys =
    ap (λ r. x.rows ++ r) (rows_of-append xs ys)
    ∙ sym (append_assoc x.rows (rows_of xs) (rows_of ys))

settle-append :
    (xs ys : List Request)
    → map (settle none) (xs ++ ys) ≡ map (settle none) xs ++ map (settle none) ys
settle-append [] ys = refl
settle-append (x ∷ xs) ys = ap (λ l. settle none x ∷ l) (settle-append xs ys)

module _ {Store : Type 0} (writer : Store → List Row → Store × Option String)
    (at : Store → RowKey → Option Row)
    (succeeds : (s : Store) (rows : List Row) → (writer s rows).1 ≡ none)
    (upserts : (s : Store) (rows : List Row) (k : RowKey)
      → at (writer s rows).0 k ≡ newest k rows (at s k)) where
  flush-at :
      (s : Store) (qs : List Request) (k : RowKey)
      → at (flush writer s qs).0 k ≡ newest k (rows_of qs) (at s k)
  unfolding flush
  flush-at s qs k = upserts s (values (rows_by_key qs)) k ∙ newest-rows_by_key k qs (at s k)

  flush-answers : (s : Store) (qs : List Request) → (flush writer s qs).1 ≡ map (settle none) qs
  unfolding flush
  flush-answers s qs = ap (λ e. map (settle e) qs) (succeeds s (values (rows_by_key qs)))

  -- The store holds the newest rows of these requests, and they are answered.
  abbrev IsDone : Store → List Request → Store × List Request → Type 0
  IsDone s qs out =
      ((k : RowKey) → at out.0 k ≡ newest k (rows_of qs) (at s k)) × (out.1 ≡ map (settle none) qs)

  flush-IsDone : (s : Store) (qs : List Request) → IsDone s qs (flush writer s qs)
  flush-IsDone s qs = (flush-at s qs, flush-answers s qs)

  then-IsDone :
      (s : Store) (xs rest : List Request) (later : Store × List Request)
      → IsDone (flush writer s xs).0 rest later
      → IsDone s (xs ++ rest) (later.0, (flush writer s xs).1 ++ later.1)
  then-IsDone s xs rest later (stored, told) = (
    λ k.
        stored k
        ∙ ap (newest k (rows_of rest)) (flush-at s xs k)
        ∙ sym (newest-append k (rows_of xs) (rows_of rest) (at s k))
        ∙ ap (λ rows. newest k rows (at s k)) (sym (rows_of-append xs rest)),
    rw (flush-answers s xs, told) (sym (settle-append xs rest)),
  )

  module _ (go : Store → List QueueItem → Store × List Request) where
    abbrev round : Store → Request → List Request × List QueueItem × Bool → Store × List Request
    round s q b =
        let now = flush writer s (q ∷ b.0) in
        let later = go now.0 b.1 in if b.2 then now else (later.0, now.1 ++ later.1)

    round-IsDone :
        (n : ℕ) (s : Store) (q : Request) (qs : List Request)
        (b : List Request × List QueueItem × Bool)
        → ((s' : Store) (rest : List Request)
            → length rest ≤ n
            → IsDone s' rest (go s' (queue_of rest)))
        → length qs ≤ n
        → Takes qs b
        → IsDone s (q ∷ qs) (round s q b)
    unfolding Takes
    round-IsDone n s q qs b ih h (inl e) =
        subst (λ c. IsDone s (q ∷ qs) (round s q c)) (sym e) (flush-IsDone s (q ∷ qs))
    round-IsDone n s q qs b ih h (inr (xs, rest, split, e)) =
        let short : length rest ≤ n =
          omega (arith, h, ap (λ l. length l) split, length-append xs rest) in
        subst (λ c. IsDone s (q ∷ qs) (round s q c)) (sym e)
          (subst (λ l. IsDone s (q ∷ l) (round s q (xs, queue_of rest, false))) (sym split)
            (then-IsDone s (q ∷ xs) rest _ (ih (flush writer s (q ∷ xs)).0 rest short)))

  pub run_lem :
      (size : ℕ) (arrivals : ℕ → ℕ) (fuel : ℕ) (s : Store) (qs : List Request)
      → length qs < fuel
      → ((k : RowKey)
          → at (run writer size arrivals fuel s (queue_of qs)).0 k ≡ newest k (rows_of qs) (at s k))
        × ((run writer size arrivals fuel s (queue_of qs)).1 ≡ map (settle none) qs)
  unfolding run newest rows_of
  run_lem size arrivals zero s qs h = absurd (omega arith)
  run_lem size arrivals (suc fuel) s [] h = (λ k. refl, refl)
  run_lem size arrivals (suc fuel) s (q ∷ qs) h =
      round-IsDone (λ s' queue. run writer size arrivals fuel s' queue) (fuel - 1) s q qs
        (gather size (length q.rows) (arrivals fuel) (queue_of qs))
        (λ s' rest short. run_lem size arrivals fuel s' rest (omega arith)) (omega arith)
        (gather-Takes size (length q.rows) (arrivals fuel) qs)
