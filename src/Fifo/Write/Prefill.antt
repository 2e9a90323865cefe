-- ===== src/Fifo/Write/Prefill.antt =====
-- `ingest_step` of `FastFIFOManager` on tensors that extend what the buffers hold.
use orch_kv_cache.Prelude.{
  ℕ, zero, suc, ◌+◌, ◌-◌, ◌*◌, ◌/◌, ◌≤◌, ◌<◌, ◌≡◌, refl, true, false, sym, List, ◌∷◌, ◌++◌, arith,
  ok, length, take, tabulate, All, All-append, Bool-cases, inl, inr, ltb, lt→ltb, pos→nonzero,
  length-append, length-take,
}
use mathlib.Core.Path.{subst}
use orch_kv_cache.Manager.Ingest.Steps.{Extends, layer}
use orch_kv_cache.Fifo.{FifoManager, rows}
use orch_kv_cache.Fifo.Schedule.{IsRunning, requeue-IsRunning}
use orch_kv_cache.Fifo.Write.{ingest_rows, fifo_ingest, grow_buffers}
use orch_kv_cache.Fifo.Write.Grow.{
  IsSized, grow_buffers-IsSized, grow_buffers-max, grow_buffers-IsRunning, grow_buffers-rows,
  grow_buffers-total,
}
use orch_kv_cache.Fifo.Write.Rows.{ingest_in_room, tabulate-IsBelow, with_total}

module _ {ℓ} {T : Type ℓ} where
  -- Buffers that are too small grow before the first row is taken in.
  ingest_rows-grow_buffers :
      (m : FifoManager T) (kv : List T) (rest : List (List T))
      → m.max_seq_len < length kv
      → ingest_rows m 0 (kv ∷ rest) ≡ ingest_rows (grow_buffers m (length kv)) 0 (kv ∷ rest)
  unfolding ingest_rows grow_buffers
  ingest_rows-grow_buffers m kv rest h =
      let grows : ltb m.max_seq_len (length kv) ≡ true = lt→ltb m.max_seq_len (length kv) h in
      let enough : ltb ((length kv + 255) / 256 * 256) (length kv) ≡ false = ground arith in
      rw (grows, enough) refl

  first_row :
      {old : List (List T)} (kv : List T) (rest : List (List T))
      → Extends (λ new. Unit) old (kv ∷ rest)
      → (x new : List T) × (xs : List (List T)) × (old ≡ x ∷ xs) × (kv ≡ x ++ new)
  first_row kv rest (layer {x = x} {xs = xs} new e p more) = (x, new, xs, refl, e)

  tabulate-first :
      (f : ℕ → List T) (n : ℕ) (x : List T) (xs : List (List T)) → tabulate f n 0 ≡ x ∷ xs → f 0 ≡ x
  tabulate-first f zero x xs e = cc
  tabulate-first f (suc n) x xs e = ground arith

  longer_row :
      (m : FifoManager T) (kv : List T) (rest : List (List T))
      → IsRunning m
      → Extends (λ new. Unit) (rows m) (kv ∷ rest)
      → m.total_tokens ≤ length kv
  longer_row m kv rest v ext =
      let (x, new, xs, cut, e) = first_row kv rest ext in
      let same : take m.total_tokens (m.bufs 0) ≡ x =
        tabulate-first (λ li. take m.total_tokens (m.bufs li)) m.n_layers x xs cut in
      let size : length kv ≡ length (take m.total_tokens (m.bufs 0)) + length new =
        rw (e, same) (length-append x new) in
      omega (arith, size, length-take m.total_tokens (m.bufs 0), v.sound.filled 0)

  -- The rows of `ingest_step` taken in, whatever is done with the queue.
  pub ingest_rows_taken :
      (m : FifoManager T) (kv : List T) (rest : List (List T))
      → IsRunning m
      → IsSized m
      → All (λ row. length row ≡ length kv) rest
      → Extends (λ new. Unit) (rows m) (kv ∷ rest)
      → (w : FifoManager T) × (ingest_rows m 0 (kv ∷ rest) ≡ ok w)
        × IsRunning (with_total w (length kv))
        × IsSized w
        × (rows (with_total w (length kv)) ≡ kv ∷ rest)
        × (w.config ≡ m.config)
  unfolding grow_buffers
  ingest_rows_taken m kv rest v sized sizes ext =
      let more = longer_row m kv rest v ext in
      elim (Bool-cases (ltb m.max_seq_len (length kv))) [
        | inl small ↦
            let n = length kv in
            rw (ingest_rows-grow_buffers m kv rest (ground arith)) (
              ingest_in_room (grow_buffers m n) kv rest (grow_buffers-IsRunning m n v more)
                (grow_buffers-IsSized m n) (grow_buffers-max m n) (grow_buffers-total m n more)
                sizes
                (subst (λ old. Extends (λ new. Unit) old (kv ∷ rest))
                  (sym (grow_buffers-rows m n v more)) ext))
        | inr large ↦ ingest_in_room m kv rest v sized (ground arith) more sizes ext
      ]

  -- From a running manager whose buffers have `max_seq_len` slots, `ingest_step` of tensors of one
  -- length that extend what each layer holds does not raise, grows the buffers
  -- where they are too small, and leaves a running manager whose layers hold these tensors.
  pub fifo_ingest_lossless :
      (m : FifoManager T) (kv : List T) (rest : List (List T))
      → IsRunning m
      → IsSized m
      → All (λ row. length row ≡ length kv) rest
      → Extends (λ new. Unit) (rows m) (kv ∷ rest)
      → (g : FifoManager T) × (fifo_ingest m (kv ∷ rest) ≡ ok g)
        × IsRunning g
        × IsSized g
        × (rows g ≡ kv ∷ rest)
  unfolding fifo_ingest
  fifo_ingest_lossless m kv rest v sized sizes ext =
      let (w, done, run, size, view, _) = ingest_rows_taken m kv rest v sized sizes ext in
      let len = length kv in
      let queue =
        w.fifo_queue ++ tabulate (λ bid. bid) ((len + w.block_size - 1) / w.block_size) 0 in
      let positive = pos→nonzero w.block_size run.sound.positive in
      (
        record (with_total w len) { fifo_queue = queue },
        rw done (rw positive refl),
        requeue-IsRunning (with_total w len) queue run (
            All-append _ w.fifo_queue _ run.queued
              (tabulate-IsBelow _ 0 w.block_size len run.sound.positive (omega arith))),
        size,
        view,
      )
