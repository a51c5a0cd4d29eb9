-- ===== src/Tracking/Drain.antt =====
-- The timer of services/api/src/tracking/services/tracking-batch.service.ts when storing succeeds:
-- each tick's batch is stored before the next tick.
use Prim.Native.Nat.{zero}
use school_van_tracking_saa.Prelude.{
  ℕ, suc, ◌+◌, ◌*◌, ◌≤◌, ◌≡◌, refl, sym, ap, subst, ◌∙◌, List, [], ◌∷◌, ◌++◌, length, arith,
}
use mathlib.Core.List.{append_assoc, append-nil}
use school_van_tracking_saa.Tracking.Batch.{
  Batches, Run, ticked, succeeded, take, drop, max_batch_size, flush, flushed,
}

module _ {A : Type 0} where
  -- A tick whose batch, if there is one, is stored.
  abbrev settle : List A → Batches A → Batches A
  settle [] b = flush b
  settle (x ∷ xs) b = flushed [] (take max_batch_size (x ∷ xs)) b.in_flight (flush b)

  unfoldable pub tick_stored : Batches A → Batches A
  tick_stored b = settle b.queue b

  unfoldable pub drain : ℕ → Batches A → Batches A
  drain zero b = b
  drain (suc n) b = drain n (tick_stored b)

  take-drop : (n : ℕ) (xs : List A) → take n xs ++ drop n xs ≡ xs
  take-drop zero xs = refl
  take-drop (suc n) [] = refl
  take-drop (suc n) (x ∷ xs) = ap (λ r. x ∷ r) (take-drop n xs)

  length-drop : (n m : ℕ) (xs : List A) → length xs ≤ n + m → length (drop n xs) ≤ m
  length-drop zero m xs h = omega arith
  length-drop (suc n) m [] h = omega arith
  length-drop (suc n) m (x ∷ xs) h = length-drop n m xs (omega arith)

  settle-parts :
      (q : List A) (b : Batches A)
      → q ≡ b.queue
      → ((settle q b).queue ≡ drop max_batch_size q)
        × ((settle q b).in_flight ≡ b.in_flight)
        × ((settle q b).stored ≡ b.stored ++ take max_batch_size q)
  unfolding flush flushed
  settle-parts [] b e = (ground arith, ground arith, ground (arith, append-nil b.stored))
  settle-parts (x ∷ xs) b e = (ground arith, refl, ground arith)

  nil-of_length : (xs : List A) → length xs ≤ 0 → xs ≡ []
  nil-of_length [] h = refl
  nil-of_length (x ∷ xs) h = absurd (omega arith)

  drain-parts :
      (n : ℕ) (b : Batches A)
      → length b.queue ≤ n * max_batch_size
      → ((drain n b).queue ≡ [])
        × ((drain n b).in_flight ≡ b.in_flight)
        × ((drain n b).stored ≡ b.stored ++ b.queue)
  unfolding drain tick_stored
  drain-parts zero b h =
      let none_left = nil-of_length b.queue (omega arith) in
      (none_left, refl, sym (ap (λ q. b.stored ++ q) none_left ∙ append-nil b.stored))
  drain-parts (suc n) b h =
      let (queue, flying, kept) = settle-parts b.queue b refl in
      let less : length (tick_stored b).queue ≤ n * max_batch_size =
        rw queue (length-drop max_batch_size (n * max_batch_size) b.queue (omega arith)) in
      let (empty, same, all) = drain-parts n (tick_stored b) less in
      (
        empty,
        same ∙ flying,
        all
            ∙ rw (kept, queue)
                (append_assoc b.stored (take max_batch_size b.queue) (drop max_batch_size b.queue)
                  ∙ ap (λ q. b.stored ++ q) (take-drop max_batch_size b.queue)),
      )

  settle-Run :
      (items q : List A) (b : Batches A) → q ≡ b.queue → Run items b → Run items (settle q b)
  unfolding flush
  settle-Run items [] b e r = ticked r
  settle-Run items (x ∷ xs) b e r =
      let batch = take max_batch_size (x ∷ xs) in
      let taken : Batches A = record b {
        queue = drop max_batch_size (x ∷ xs);
        in_flight = batch ∷ b.in_flight;
      } in
      let same : flush b ≡ taken = ground arith in
      subst (λ y. Run items (flushed [] batch b.in_flight y)) (sym same)
        (succeeded [] batch b.in_flight (subst (Run items) same (ticked r)))

  drain-Run : (n : ℕ) (items : List A) (b : Batches A) → Run items b → Run items (drain n b)
  unfolding drain tick_stored
  drain-Run zero items b r = r
  drain-Run (suc n) items b r =
      drain-Run n items (tick_stored b) (settle-Run items b.queue b refl r)

  -- Whatever happened before, as soon as no flush is in flight, and each flush is stored before the
  -- next tick, one tick for each 200 items of the queue, and any more, store everything that was
  -- enqueued and not stored yet, in the order of the queue, and leave nothing behind. The state is
  -- again one that the service can get to.
  pub drain-stored :
      (items : List A) (b : Batches A) (n : ℕ)
      → Run items b
      → b.in_flight ≡ []
      → length b.queue ≤ n * max_batch_size
      → Run items (drain n b)
        × ((drain n b).queue ≡ [])
        × ((drain n b).in_flight ≡ [])
        × ((drain n b).stored ≡ b.stored ++ b.queue)
  drain-stored items b n r idle enough =
      let (empty, flying, all) = drain-parts n b enough in
      (drain-Run n items b r, empty, flying ∙ idle, all)
