-- ===== src/Tracking/Batch.antt =====
-- services/api/src/tracking/services/tracking-batch.service.ts. A flush takes its batch from the
-- queue at once and awaits its storing; until then the batch is in flight, and other calls run.
-- Storing (the queue of BullMQ, or the database) may succeed or throw.
use Prim.Native.Nat.{zero}
use school_van_tracking_saa.Prelude.{
  ℕ, suc, ◌+◌, ◌≡◌, refl, Bool, List, [], ◌∷◌, ◌++◌, length, count, arith, leb, if◌then◌else◌,
  count-append, ap, Bool-cases, inl, inr,
}

module _ {A : Type 0} where
  abbrev pub take : ℕ → List A → List A
  take zero xs = []
  take (suc n) [] = []
  take (suc n) (x ∷ xs) = x ∷ take n xs

  abbrev pub drop : ℕ → List A → List A
  drop zero xs = xs
  drop (suc n) [] = []
  drop (suc n) (x ∷ xs) = drop n xs

-- The queue, the batches that are being stored, and the items that were handed over for storing.
pub record Batches (A : Type 0) : Type 0 where
  pub queue : List A
  pub in_flight : List (List A)
  pub stored : List A

abbrev pub max_batch_size : ℕ
max_batch_size = 200

module _ {A : Type 0} where
  abbrev splice : List A → Batches A → Batches A
  splice [] b = b
  splice (x ∷ xs) b = record b {
    queue = drop max_batch_size (x ∷ xs);
    in_flight = take max_batch_size (x ∷ xs) ∷ b.in_flight;
  }

  -- `flush` up to its `await`
  unfoldable pub flush : Batches A → Batches A
  flush b = splice b.queue b

  -- `enqueue`
  unfoldable pub enqueue : A → Batches A → Batches A
  unfolding flush
  enqueue item b =
      let pushed = record b { queue = b.queue ++ item ∷ [] } in
      if leb max_batch_size (length pushed.queue) then flush pushed else pushed

  -- The end of a flush: the batch was stored, or `this.queue.unshift(...batch)` puts it back.
  unfoldable pub flushed : List (List A) → List A → List (List A) → Batches A → Batches A
  flushed before batch others b = record b {
    in_flight = before ++ others;
    stored = b.stored ++ batch;
  }

  unfoldable pub failed : List (List A) → List A → List (List A) → Batches A → Batches A
  failed before batch others b = record b { in_flight = before ++ others; queue = batch ++ b.queue }

  -- What can happen to the service: a call of `enqueue`, a tick of the timer, and the end of any of
  -- the flushes in flight. The list is what was enqueued so far.
  pub data Run : List A → Batches A → Type 0 where
    start : Run [] (record { queue = []; in_flight = []; stored = [] })
    enqueued :
        {items : List A} {b : Batches A} (item : A)
        → Run items b
        → Run (items ++ item ∷ []) (enqueue item b)
    ticked : {items : List A} {b : Batches A} → Run items b → Run items (flush b)
    succeeded :
        {items : List A} {queue stored : List A} (before : List (List A)) (batch : List A)
        (others : List (List A))
        → Run items
            (record { queue = queue; in_flight = before ++ batch ∷ others; stored = stored })
        → Run items (
            flushed before batch others
              (record { queue = queue; in_flight = before ++ batch ∷ others; stored = stored }))
    threw :
        {items : List A} {queue stored : List A} (before : List (List A)) (batch : List A)
        (others : List (List A))
        → Run items
            (record { queue = queue; in_flight = before ++ batch ∷ others; stored = stored })
        → Run items (
            failed before batch others
              (record { queue = queue; in_flight = before ++ batch ∷ others; stored = stored }))

  -- How many items in flight fit a test.
  abbrev flying : (A → Bool) → List (List A) → ℕ
  flying p [] = 0
  flying p (xs ∷ rest) = count p xs + flying p rest

  -- How many items anywhere fit a test.
  abbrev pub anywhere : (A → Bool) → Batches A → ℕ
  anywhere p b = count p b.queue + flying p b.in_flight + count p b.stored

  flying-append :
      (p : A → Bool) (xs ys : List (List A)) → flying p (xs ++ ys) ≡ flying p xs + flying p ys
  flying-append p [] ys = omega arith
  flying-append p (x ∷ xs) ys = omega (arith, flying-append p xs ys)

  count-take-drop :
      (p : A → Bool) (n : ℕ) (xs : List A) → count p (take n xs) + count p (drop n xs) ≡ count p xs
  count-take-drop p zero xs = omega arith
  count-take-drop p (suc n) [] = omega arith
  count-take-drop p (suc n) (x ∷ xs) = omega (arith, count-take-drop p n xs)

  splice-anywhere :
      (p : A → Bool) (q : List A) (b : Batches A)
      → q ≡ b.queue
      → anywhere p (splice q b) ≡ anywhere p b
  splice-anywhere p [] b e = refl
  splice-anywhere p (x ∷ xs) b e =
      omega (arith, count-take-drop p max_batch_size (x ∷ xs), ap (count p) e)

  flush-anywhere : (p : A → Bool) (b : Batches A) → anywhere p (flush b) ≡ anywhere p b
  unfolding flush
  flush-anywhere p b = splice-anywhere p b.queue b refl

  enqueue-anywhere :
      (p : A → Bool) (item : A) (b : Batches A)
      → anywhere p (enqueue item b) ≡ anywhere p b + count p (item ∷ [])
  unfolding enqueue
  enqueue-anywhere p item b =
      let pushed : Batches A = record b { queue = b.queue ++ item ∷ [] } in
      let more = count-append p b.queue (item ∷ []) in
      elim (Bool-cases (leb max_batch_size (length pushed.queue))) [
        | inl y ↦ rw y (omega (arith, flush-anywhere p pushed, more))
        | inr n ↦ rw n (omega (arith, more))
      ]

  -- In any interleaving of calls, ticks and ends of flushes, failed ones included, each item that was
  -- enqueued is in the queue, in flight or stored, as often as it was enqueued: none is lost or
  -- stored twice.
  pub Run-anywhere :
      (p : A → Bool) (items : List A) (b : Batches A) → Run items b → anywhere p b ≡ count p items
  unfolding flushed failed
  Run-anywhere p _ _ start = refl
  Run-anywhere p _ _ (enqueued {items = items} {b = b} item r) =
      rw (enqueue-anywhere p item b, count-append p items (item ∷ []))
        (omega (arith, Run-anywhere p items b r))
  Run-anywhere p items _ (ticked {b = b} r) = rw (flush-anywhere p b) (Run-anywhere p items b r)
  Run-anywhere p items _ (succeeded {queue = queue} {stored = stored} before batch others r) =
      omega (
        arith,
        Run-anywhere p items _ r,
        flying-append p before (batch ∷ others),
        flying-append p before others,
        count-append p stored batch,
      )
  Run-anywhere p items _ (threw {queue = queue} {stored = stored} before batch others r) = omega (
    arith,
    Run-anywhere p items _ r,
    flying-append p before (batch ∷ others),
    flying-append p before others,
    count-append p batch queue,
  )
