-- ===== src/Fifo/Write.antt =====
-- `ingest_step`, `append_token` and `_grow_buffers` of `FastFIFOManager`.
pub mod Append
pub mod Grow
pub mod Decode
pub mod Rows
pub mod Prefill
use orch_kv_cache.Prelude.{
  ℕ, zero, suc, ◌+◌, ◌-◌, ◌*◌, ◌/◌, ◌%◌, ◌==◌, Bool, true, false, Option, none, some, List, [], ◌∷◌,
  ◌++◌, Result, ok, err, index_error, zero_division_error, ◌>>=◌, ◌>>◌, guard, if◌then◌else◌,
  length, take, replicate, tabulate, ltb, leb, min,
}
use orch_kv_cache.Prelude.Heap.{update}
use orch_kv_cache.Prelude.Slices.{assign, assign_slot, last_slot}
use orch_kv_cache.Fifo.{FifoManager, n_blocks}

module _ {ℓ} {T : Type ℓ} where
  -- A buffer copied to the start of a new one of `size` slots.
  abbrev pub grown_buf : T → ℕ → List T → List T
  grown_buf zeros size buf =
      let n = min (length buf) size in take n buf ++ replicate (size - n) zeros

  -- `_grow_buffers`.
  unfoldable pub grow_buffers : FifoManager T → ℕ → FifoManager T
  grow_buffers m new_max =
      let size = (new_max + 255) / 256 * 256 in
      record m { bufs = λ li. grown_buf m.zeros size (m.bufs li); max_seq_len = size }

  -- The body of the loop of `append_token`.
  abbrev pub append_row : FifoManager T → ℕ → ℕ → List T → Result (FifoManager T)
  append_row m pos li kv = do
    guard (ltb li m.n_layers) index_error
    token ← last_slot kv
    buf ← assign_slot (m.bufs li) pos token
    ok (record m { bufs = update m.bufs li buf })

  -- `for li, (k, v) in enumerate(legacy)`.
  unfoldable pub append_rows : FifoManager T → ℕ → ℕ → List (List T) → Result (FifoManager T)
  append_rows m pos li [] = ok m
  append_rows m pos li (kv ∷ rest) = do
    m' ← append_row m pos li kv
    append_rows m' pos (li + 1) rest

  -- `append_token` past the loop.
  abbrev pub queue_token : FifoManager T → ℕ → Result (FifoManager T)
  queue_token m pos =
      if m.block_size == 0
      then err zero_division_error
      else ok (record m {
        total_tokens = pos + 1;
        fifo_queue =
            if pos % m.block_size == 0
            then m.fifo_queue ++ (pos / m.block_size) ∷ []
            else m.fifo_queue;
      })

  -- The buffers with room for the token at `pos`.
  unfoldable pub make_room : FifoManager T → ℕ → FifoManager T
  make_room m pos = if leb m.max_seq_len pos then grow_buffers m (pos + 256) else m

  -- `append_token`.
  unfoldable pub fifo_append : FifoManager T → List (List T) → Result (FifoManager T)
  fifo_append m legacy = do
    m' ← append_rows (make_room m m.total_tokens) m.total_tokens 0 legacy
    queue_token m' m.total_tokens

  -- The body of the loop of `ingest_step`.
  abbrev pub ingest_row : FifoManager T → ℕ → List T → Result (FifoManager T)
  ingest_row m li kv = do
    let m' = if ltb m.max_seq_len (length kv) then grow_buffers m (length kv) else m
    guard (ltb li m.n_layers) index_error
    buf ← assign (m'.bufs li) 0 (length kv) kv
    ok (record m' { bufs = update m'.bufs li buf })

  unfoldable pub ingest_rows : FifoManager T → ℕ → List (List T) → Result (FifoManager T)
  ingest_rows m li [] = ok m
  ingest_rows m li (kv ∷ rest) = do m' ← ingest_row m li kv; ingest_rows m' (li + 1) rest

  -- `ingest_step` past the loop.
  abbrev pub queue_blocks : FifoManager T → List (List T) → Result (FifoManager T)
  queue_blocks m [] = err index_error
  queue_blocks m (kv ∷ rest) = do
    let m' = record m { total_tokens = length kv }
    n ← n_blocks m'
    ok (record m' { fifo_queue = m.fifo_queue ++ tabulate (λ bid. bid) n 0 })

  -- `ingest_step`.
  unfoldable pub fifo_ingest : FifoManager T → List (List T) → Result (FifoManager T)
  fifo_ingest m legacy = do m' ← ingest_rows m 0 legacy; queue_blocks m' legacy

  -- `step_done`.
  unfoldable pub fifo_step_done : FifoManager T → FifoManager T
  fifo_step_done m = record m { step = m.step + 1 }
