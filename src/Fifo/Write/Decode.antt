-- ===== src/Fifo/Write/Decode.antt =====
-- `append_token` of `FastFIFOManager` as a whole.
use orch_kv_cache.Prelude.{
  ℕ, ◌+◌, ◌/◌, ◌%◌, ◌<◌, ◌==◌, ◌≡◌, refl, true, false, sym, ◌∙◌, List, [], ◌∷◌, ◌++◌, arith, ok,
  length, All-append, All-map, Bool-cases, inl, inr, pos→nonzero, leb, if◌then◌else◌,
}
use mathlib.Core.Path.{subst}
use native.Mathlib.Nat.{div-mul-le_self}
use orch_kv_cache.Manager.Ingest.Steps.{Extends}
use orch_kv_cache.Fifo.{FifoManager, rows}
use orch_kv_cache.Fifo.Schedule.{IsRunning, IsQueued, requeue-IsRunning}
use orch_kv_cache.Fifo.Write.{append_rows, make_room, fifo_append, grow_buffers}
use orch_kv_cache.Fifo.Write.Append.{Written, append_rows_lem, slice-agree}
use orch_kv_cache.Fifo.Write.Grow.{
  IsSized, grow_buffers-IsSized, grow_buffers-max, grow_buffers-IsRunning, grow_buffers-rows,
}
use orch_kv_cache.Fifo.Write.Rows.{with_total}

module _ {ℓ} {T : Type ℓ} where
  -- The manager with the buffers `b` of one token more.
  abbrev appended : FifoManager T → (ℕ → List T) → FifoManager T
  appended m b = record m { bufs = b; total_tokens = m.total_tokens + 1 }

  appended-IsRunning :
      (m : FifoManager T) (b : ℕ → List T)
      → IsRunning m
      → ((l : ℕ) → m.total_tokens < length (m.bufs l))
      → Written m b m.total_tokens 0
      → IsRunning (appended m b)
  appended-IsRunning m b v room w = record {
    sound = record {
      faithful = λ l s e d held.
          let (starts, ends, _) = v.sound.copies l s e d held in
          v.sound.faithful l s e d held
          ∙ slice-agree s e m.total_tokens (m.bufs l) (b l) starts ends (sym (w.prefix l));
      positive = v.sound.positive;
      filled = λ l. omega (arith, room l, w.size l);
      copies = λ l s e d held. omega (arith, v.sound.copies l s e d held);
    };
    queued = All-map (λ bid h. omega arith) m.fifo_queue v.queued;
    few = v.few;
  }

  append_in_room :
      (m : FifoManager T) (legacy : List (List T))
      → IsRunning m
      → IsSized m
      → m.total_tokens < m.max_seq_len
      → Extends (λ new. length new ≡ 1) (rows m) legacy
      → (w : FifoManager T) × (append_rows m m.total_tokens 0 legacy ≡ ok w)
        × IsRunning (with_total w (m.total_tokens + 1))
        × IsSized w
        × (rows (with_total w (m.total_tokens + 1)) ≡ legacy)
        × (w.config ≡ m.config)
  append_in_room m legacy v sized h ext =
      let room =
        λ (l : ℕ). (let r : m.total_tokens < length (m.bufs l) = omega (arith, sized l) in r) in
      let (b, done, w, view) =
        append_rows_lem m.n_layers m m.total_tokens 0 legacy (omega arith) room ext in
      (
        record m { bufs = b },
        done,
        appended-IsRunning m b v room w,
        λ l. w.size l ∙ sized l,
        view,
        refl,
      )

  -- The rows of `append_token` written, whatever is done with the queue.
  pub append_rows_taken :
      (m : FifoManager T) (legacy : List (List T))
      → IsRunning m
      → IsSized m
      → Extends (λ new. length new ≡ 1) (rows m) legacy
      → (w : FifoManager T) × (append_rows (make_room m m.total_tokens) m.total_tokens 0 legacy
          ≡ ok w)
        × IsRunning (with_total w (m.total_tokens + 1))
        × IsSized w
        × (rows (with_total w (m.total_tokens + 1)) ≡ legacy)
        × (w.config ≡ m.config)
  unfolding make_room grow_buffers
  append_rows_taken m legacy v sized ext = elim (Bool-cases (leb m.max_seq_len m.total_tokens)) [
    | inl full ↦
        let n = m.total_tokens + 256 in
        rw full (
          append_in_room (grow_buffers m n) legacy (grow_buffers-IsRunning m n v (omega arith))
            (grow_buffers-IsSized m n) (omega (arith, grow_buffers-max m n))
            (subst (λ old. Extends (λ new. length new ≡ 1) old legacy)
              (sym (grow_buffers-rows m n v (omega arith))) ext))
    | inr free ↦ rw free (append_in_room m legacy v sized (ground arith) ext)
  ]

  -- The queue with the block at `pos`, if a block starts there.
  abbrev queue_after : FifoManager T → ℕ → List ℕ
  queue_after m pos =
      if pos % m.block_size == 0 then m.fifo_queue ++ (pos / m.block_size) ∷ [] else m.fifo_queue

  queue_after-IsQueued :
      (m : FifoManager T) (pos : ℕ)
      → IsQueued (with_total m (pos + 1)) m.fifo_queue
      → IsQueued (with_total m (pos + 1)) (queue_after m pos)
  queue_after-IsQueued m pos q =
      elim (pos % m.block_size == 0)
        as (λ c.
          IsQueued (with_total m (pos + 1))
            (if c then m.fifo_queue ++ (pos / m.block_size) ∷ [] else m.fifo_queue)) [
              | true ↦
                  All-append _ m.fifo_queue _ q
                    (omega (arith, div-mul-le_self pos m.block_size), tt)
              | false ↦ q
            ]

  -- From a running manager whose buffers have `max_seq_len` slots, `append_token` of tensors with
  -- one token more than each layer holds does not raise, grows the buffers where they
  -- are full, and leaves a running manager whose layers hold these tensors.
  pub fifo_append_lossless :
      (m : FifoManager T) (legacy : List (List T))
      → IsRunning m
      → IsSized m
      → Extends (λ new. length new ≡ 1) (rows m) legacy
      → (g : FifoManager T) × (fifo_append m legacy ≡ ok g)
        × IsRunning g
        × IsSized g
        × (rows g ≡ legacy)
  unfolding fifo_append
  fifo_append_lossless m legacy v sized ext =
      let (w, done, run, size, view, _) = append_rows_taken m legacy v sized ext in
      let pos = m.total_tokens in
      let positive = pos→nonzero w.block_size run.sound.positive in
      (
        record (with_total w (pos + 1)) { fifo_queue = queue_after w pos },
        rw done (rw positive refl),
        requeue-IsRunning (with_total w (pos + 1)) (queue_after w pos) run
            (queue_after-IsQueued w pos run.queued),
        size,
        view,
      )
