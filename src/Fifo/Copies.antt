-- ===== src/Fifo/Copies.antt =====
-- The copies in host memory and what restoring them does to the buffers.
use orch_kv_cache.Prelude.{
  ℕ, zero, suc, ◌+◌, ◌-◌, ◌≤◌, ◌<◌, ◌==◌, ◌≡◌, refl, ap, ◌∙◌, none, some, List, [], ◌∷◌, arith, ok,
  take, tabulate-agree, Option-cases, Bool-cases, inl, inr,
}
use orch_kv_cache.Prelude.Heap.{update}
use orch_kv_cache.Prelude.Slices.{slice, assign_back}
use orch_kv_cache.Fifo.{
  FifoManager, span, rows, restore_range, restore_ranges, restore_layers, restore_evicted_blocks,
  fifo_build, put_copy,
}

module _ {ℓ} {T : Type ℓ} where
  -- Every copy in host memory is what the buffer holds at its place.
  abbrev pub IsFaithful : FifoManager T → Type ℓ
  IsFaithful m =
      (li s e : ℕ) (d : List T)
      → m.dram_store li s e ≡ some d
      → take (span m.block_size s e) d ≡ slice s e (m.bufs li)

  -- `g` is `m` but for copies and counts.
  pub record SameTokens (m g : FifoManager T) : Type ℓ where
    pub faithful : IsFaithful g
    pub config : g.config ≡ m.config
    pub total : g.total_tokens ≡ m.total_tokens
    pub max : g.max_seq_len ≡ m.max_seq_len
    pub bufs : (li : ℕ) → g.bufs li ≡ m.bufs li

  pub SameTokens-refl : (m : FifoManager T) → IsFaithful m → SameTokens m m
  SameTokens-refl m f = record {
    faithful = f;
    config = refl;
    total = refl;
    max = refl;
    bufs = λ li. refl;
  }

  pub SameTokens-trans : {a b c : FifoManager T} → SameTokens a b → SameTokens b c → SameTokens a c
  SameTokens-trans p q = record {
    faithful = q.faithful;
    config = q.config ∙ p.config;
    total = q.total ∙ p.total;
    max = q.max ∙ p.max;
    bufs = λ li. q.bufs li ∙ p.bufs li;
  }

  -- `g` is `m` but for counts and for copies that it does not have any more.
  pub record Fewer (m g : FifoManager T) : Type ℓ where
    pub same : SameTokens m g
    pub queue : g.fifo_queue ≡ m.fifo_queue
    pub evictions : g.evictions_this_step ≡ m.evictions_this_step
    pub copies :
        (li s e : ℕ) (d : List T) → g.dram_store li s e ≡ some d → m.dram_store li s e ≡ some d

  Fewer-refl : (m : FifoManager T) → IsFaithful m → Fewer m m
  Fewer-refl m f = record {
    same = SameTokens-refl m f;
    queue = refl;
    evictions = refl;
    copies = λ li s e d h. h;
  }

  Fewer-trans : {a b c : FifoManager T} → Fewer a b → Fewer b c → Fewer a c
  Fewer-trans p q = record {
    same = SameTokens-trans p.same q.same;
    queue = q.queue ∙ p.queue;
    evictions = q.evictions ∙ p.evictions;
    copies = λ li s e d h. p.copies li s e d (q.copies li s e d h);
  }

  -- A range restored: its copy is gone, and the buffer is as it was.
  abbrev restored : FifoManager T → ℕ → ℕ × ℕ → FifoManager T
  restored m li r = record (put_copy m li r.0 r.1 none) {
    bufs = update m.bufs li (m.bufs li);
    dram_to_gpu = m.dram_to_gpu + 1;
  }

  restored-bufs : (m : FifoManager T) (li l : ℕ) (r : ℕ × ℕ) → (restored m li r).bufs l ≡ m.bufs l
  restored-bufs m li l r = ground arith

  restored-IsFaithful :
      (m : FifoManager T) (li : ℕ) (r : ℕ × ℕ) → IsFaithful m → IsFaithful (restored m li r)
  restored-IsFaithful m li r f l s e d h = rw (restored-bufs m li l r) (f l s e d (ground arith))

  restore_range_lem :
      (m : FifoManager T) (li : ℕ) (r : ℕ × ℕ)
      → IsFaithful m
      → (g : FifoManager T) × (restore_range m li r ≡ ok g)
        × Fewer m g
        × (g.evicted_ranges ≡ m.evicted_ranges)
  unfolding restore_range
  restore_range_lem m li r f = elim (Option-cases (m.dram_store li r.0 r.1)) [
    | inl e ↦ (m, rw (e, restore_range) refl, Fewer-refl m f, refl)
    | inr (d, e) ↦ (
      restored m li r,
      rw (e, restore_range) (rw (f li r.0 r.1 d e, assign_back (m.bufs li) r.0 (r.1 - r.0)) refl),
      record {
        same = record {
          faithful = restored-IsFaithful m li r f;
          config = refl;
          total = refl;
          max = refl;
          bufs = λ l. restored-bufs m li l r;
        };
        queue = refl;
        evictions = refl;
        copies = λ l s k d' h. ground arith;
      },
      refl,
    )
  ]

  restore_ranges_lem :
      (m : FifoManager T) (li : ℕ) (rs : List (ℕ × ℕ))
      → IsFaithful m
      → (g : FifoManager T) × (restore_ranges m li rs ≡ ok g)
        × Fewer m g
        × (g.evicted_ranges ≡ update m.evicted_ranges li [])
  unfolding restore_ranges
  restore_ranges_lem m li [] f = (
    _,
    refl,
    record {
      same = record { faithful = f; config = refl; total = refl; max = refl; bufs = λ l. refl };
      queue = refl;
      evictions = refl;
      copies = λ l s e d h. h;
    },
    refl,
  )
  restore_ranges_lem m li (r ∷ rs) f =
      let (g, done, same, ranges) = restore_range_lem m li r f in
      let (k, more, same', ranges') = restore_ranges_lem g li rs same.same.faithful in
      (k, rw (done, more) refl, Fewer-trans same same', ranges' ∙ ap (λ ev. update ev li []) ranges)

  restore_layers_lem :
      (n : ℕ) (m : FifoManager T) (li : ℕ)
      → IsFaithful m
      → (g : FifoManager T) × (restore_layers n m li ≡ ok g)
        × Fewer m g
        × ((l : ℕ) → l < li → g.evicted_ranges l ≡ m.evicted_ranges l)
        × ((l : ℕ) → li ≤ l → l < li + n → g.evicted_ranges l ≡ [])
  unfolding restore_layers
  restore_layers_lem zero m li f =
      (m, refl, Fewer-refl m f, λ l h. refl, λ l h h'. absurd (omega arith))
  restore_layers_lem (suc n) m li f =
      let (g, done, same, ranges) = restore_ranges_lem m li (m.evicted_ranges li) f in
      let (k, more, same', below, above) = restore_layers_lem n g (li + 1) same.same.faithful in
      (
        k,
        rw (done, more) refl,
        Fewer-trans same same',
        λ l h. below l (omega arith) ∙ (rw ranges (ground arith)),
        λ l h h'. elim (Bool-cases (li == l)) [
          | inl e ↦ below l (ground arith) ∙ rw (ranges, e) refl
          | inr e ↦ above l (ground arith) (omega arith)
        ],
      )

  pub SameTokens-rows : {m g : FifoManager T} → SameTokens m g → rows g ≡ rows m
  SameTokens-rows {m} {g} s =
      rw (s.config, s.total)
        (tabulate-agree (λ li. take m.total_tokens (g.bufs li))
          (λ li. take m.total_tokens (m.bufs li)) m.n_layers 0 (λ li. rw (s.bufs li) refl))

  pub restore_lem :
      (m : FifoManager T)
      → IsFaithful m
      → (g : FifoManager T) × (restore_evicted_blocks m ≡ ok g)
        × Fewer m g
        × ((l : ℕ) → l < m.n_layers → g.evicted_ranges l ≡ [])
  unfolding restore_evicted_blocks
  restore_lem m f =
      let (g, done, same, _, empty) = restore_layers_lem m.n_layers m 0 f in
      (g, done, same, λ l h. empty l (omega arith) (omega arith))

  -- If every copy in host memory is what the buffer of its layer holds at its place, then
  -- `build_past_kv` does not raise; it returns the first `total_tokens` tokens of each
  -- buffer and leaves no range evicted, and restoring the copies changes no buffer.
  pub fifo_build_restores :
      (m : FifoManager T)
      → IsFaithful m
      → (g : FifoManager T) × (fifo_build m ≡ ok (g, rows m))
        × Fewer m g
        × ((l : ℕ) → l < m.n_layers → g.evicted_ranges l ≡ [])
  unfolding fifo_build
  fifo_build_restores m f =
      let (g, done, same, empty) = restore_lem m f in
      (g, rw (done, SameTokens-rows same.same) refl, same, empty)
