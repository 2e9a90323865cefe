-- ===== src/Fifo/Eviction.antt =====
-- A block copied to host memory by `_evict_fifo`: the copies stay true and no buffer changes.
use orch_kv_cache.Prelude.{
  ℕ, zero, suc, ◌+◌, ◌-◌, ◌*◌, ◌/◌, ◌≤◌, ◌<◌, ◌==◌, ◌≡◌, refl, ◌∙◌, true, false, ◌&&◌, some, List,
  [], ◌∷◌, ◌++◌, arith, ok, length, take, drop, replicate, min, Bool-cases, inl, inr, length-take,
  length-drop, take-append_of_length, pos→nonzero,
}
use orch_kv_cache.Prelude.Heap.{update}
use orch_kv_cache.Prelude.Slices.{slice, assign_first}
use orch_kv_cache.Fifo.{
  FifoManager, span, put_copy, n_evicted, fifo_block_bytes, fifo_gpu_bytes, evict_layer,
  evict_layers, evict_block,
}
use orch_kv_cache.Fifo.Copies.{IsFaithful}

same_key :
    (l li a s c e : ℕ) → (l == li && (a == s && c == e)) ≡ true → (l ≡ li) × (a ≡ s) × (c ≡ e)
same_key l li a s c e q = ground arith

module _ {ℓ} {T : Type ℓ} where
  -- Copies are true, they are of tokens that are there and that are no sinks, and every buffer
  -- holds the tokens.
  pub record IsSound (m : FifoManager T) : Type ℓ where
    pub faithful : IsFaithful m
    pub positive : 0 < m.block_size
    pub filled : (li : ℕ) → m.total_tokens ≤ length (m.bufs li)
    pub copies :
        (li s e : ℕ) (d : List T)
        → m.dram_store li s e ≡ some d
        → (s ≤ e) × (e ≤ m.total_tokens) × (m.sink_tokens ≤ s)

  -- `g` is sound, and `m` but for copies and counts.
  pub record StaysSound (m g : FifoManager T) : Type ℓ where
    pub sound : IsSound g
    pub config : g.config ≡ m.config
    pub total : g.total_tokens ≡ m.total_tokens
    pub max : g.max_seq_len ≡ m.max_seq_len
    pub bufs : (li : ℕ) → g.bufs li ≡ m.bufs li

  pub StaysSound-refl : (m : FifoManager T) → IsSound m → StaysSound m m
  StaysSound-refl m s = record {
    sound = s;
    config = refl;
    total = refl;
    max = refl;
    bufs = λ li. refl;
  }

  pub StaysSound-trans : {a b c : FifoManager T} → StaysSound a b → StaysSound b c → StaysSound a c
  StaysSound-trans p q = record {
    sound = q.sound;
    config = q.config ∙ p.config;
    total = q.total ∙ p.total;
    max = q.max ∙ p.max;
    bufs = λ li. q.bufs li ∙ p.bufs li;
  }

  -- The tokens from `s` up to `e` are those of a block that is no sink.
  record IsBlock (m : FifoManager T) (s e : ℕ) : Type 0 where
    starts : s ≤ e
    sized : e ≤ s + m.block_size
    ends : e ≤ m.total_tokens
    no_sink : m.sink_tokens ≤ s

  -- A layer evicted, with the copy that is made of it.
  abbrev evicted : FifoManager T → ℕ → ℕ → ℕ → FifoManager T
  evicted m li s e =
      record (put_copy m li s e
        (some (slice s e (m.bufs li) ++ replicate (m.block_size - (e - s)) m.unset))) {
          evicted_ranges = update m.evicted_ranges li (m.evicted_ranges li ++ (s, e) ∷ []);
          gpu_to_dram = m.gpu_to_dram + 1;
        }

  length-slice : (s e : ℕ) (xs : List T) → s ≤ e → e ≤ length xs → length (slice s e xs) ≡ e - s
  length-slice s e xs h h' = omega (arith, length-take (e - s) (drop s xs), length-drop s xs)

  span-block : (m : FifoManager T) (s e : ℕ) → IsBlock m s e → span m.block_size s e ≡ e - s
  span-block m s e b = ground (arith, b.starts, b.sized)

  copy_taken :
      (m : FifoManager T) (li s e l a c : ℕ) (d : List T)
      → IsBlock m s e
      → length (slice s e (m.bufs li)) ≡ e - s
      → (l == li && (a == s && c == e)) ≡ true
      → some (slice s e (m.bufs li) ++ replicate (m.block_size - (e - s)) m.unset) ≡ some d
      → take (span m.block_size a c) d ≡ slice a c (m.bufs l)
  copy_taken m li s e l a c d b size q h =
      let (el, ea, ec) = same_key l li a s c e q in
      let data_ : slice s e (m.bufs li) ++ replicate (m.block_size - (e - s)) m.unset ≡ d = cc in
      rw (el, ea, ec, span-block m s e b, ← data_)
        (take-append_of_length (slice s e (m.bufs li)) (replicate (m.block_size - (e - s)) m.unset)
          (e - s) size)

  evict_layer_lem :
      (m : FifoManager T) (li s e : ℕ)
      → IsSound m
      → IsBlock m s e
      → (evict_layer m li s e ≡ ok (evicted m li s e)) × StaysSound m (evicted m li s e)
  unfolding evict_layer
  evict_layer_lem m li s e v b =
      let size : length (slice s e (m.bufs li)) ≡ e - s =
        length-slice s e (m.bufs li) b.starts (omega (arith, b.ends, v.filled li)) in
      (
        rw
            (
              span-block m s e b,
              assign_first (slice s e (m.bufs li)) (e - s) m.block_size m.unset size
                  (omega (arith, b.sized)),
            )
            refl,
        record {
          sound = record {
            faithful = λ l a c d h. elim (Bool-cases (l == li && (a == s && c == e))) [
              | inl q ↦ copy_taken m li s e l a c d b size q (rw q at h)
              | inr q ↦ v.faithful l a c d (rw q at h)
            ];
            positive = v.positive;
            filled = v.filled;
            copies = λ l a c d h. elim (Bool-cases (l == li && (a == s && c == e))) [
              | inl q ↦ ground (arith, b.starts, b.ends, b.no_sink)
              | inr q ↦ v.copies l a c d (rw q at h)
            ];
          };
          config = refl;
          total = refl;
          max = refl;
          bufs = λ l. refl;
        },
      )

  IsBlock-stays : {m g : FifoManager T} {s e : ℕ} → StaysSound m g → IsBlock m s e → IsBlock g s e
  IsBlock-stays k b = record {
    starts = b.starts;
    sized = rw k.config b.sized;
    ends = rw k.total b.ends;
    no_sink = rw k.config b.no_sink;
  }

  evict_layers_lem :
      (n : ℕ) (m : FifoManager T) (li s e : ℕ)
      → IsSound m
      → IsBlock m s e
      → (g : FifoManager T) × (evict_layers n m li s e ≡ ok g)
        × StaysSound m g
        × (g.evictions_this_step ≡ m.evictions_this_step)
        × (g.fifo_queue ≡ m.fifo_queue)
  unfolding evict_layers
  evict_layers_lem zero m li s e v b = (m, refl, StaysSound-refl m v, refl, refl)
  evict_layers_lem (suc n) m li s e v b =
      let (done, k) = evict_layer_lem m li s e v b in
      let (g, more, k', same, queue) =
        evict_layers_lem n (evicted m li s e) (li + 1) s e k.sound (IsBlock-stays k b) in
      (g, rw (done, more) refl, StaysSound-trans k k', same, queue)

  pub evict_block_lem :
      (m : FifoManager T) (bid : ℕ)
      → IsSound m
      → bid * m.block_size < m.total_tokens
      → m.sink_tokens ≤ bid * m.block_size
      → (g : FifoManager T) × (evict_block m bid ≡ ok g)
        × StaysSound m g
        × (g.evictions_this_step ≡ m.evictions_this_step + 1)
        × (g.fifo_queue ≡ m.fifo_queue)
  unfolding evict_block
  evict_block_lem m bid v h h' =
      let start = bid * m.block_size in
      let (g, done, k, same, queue) =
        evict_layers_lem m.n_layers m 0 start (min (start + m.block_size) m.total_tokens) v
          (record {
            starts = omega arith;
            sized = omega arith;
            ends = omega arith;
            no_sink = h';
          }) in
      (
        record g { evictions_this_step = g.evictions_this_step + 1 },
        rw done refl,
        record {
          sound = record {
            faithful = k.sound.faithful;
            positive = k.sound.positive;
            filled = k.sound.filled;
            copies = k.sound.copies;
          };
          config = k.config;
          total = k.total;
          max = k.max;
          bufs = k.bufs;
        },
        omega (arith, same),
        queue,
      )

  pub gpu_bytes_ok : (m : FifoManager T) → IsSound m → (n : ℕ) × (fifo_gpu_bytes m ≡ ok n)
  unfolding fifo_gpu_bytes
  gpu_bytes_ok m v =
      let positive : (m.block_size == 0) ≡ false = pos→nonzero m.block_size v.positive in
      (
        ((m.total_tokens + m.block_size - 1) / m.block_size * m.n_layers - n_evicted m)
            * fifo_block_bytes m.config,
        rw positive refl,
      )
