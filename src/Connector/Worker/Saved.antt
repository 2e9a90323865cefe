-- ===== src/Connector/Worker/Saved.antt =====
-- Blocks that `save_kv_layer` copies to host memory.
use orch_kv_cache.Prelude.{
  ℕ, ◌+◌, ◌<◌, ◌==◌, ◌≡◌, ◌≢◌, refl, sym, ap, ◌∙◌, some, List, [], ◌∷◌, ◌++◌, arith, ok, length,
  get_elem?, get_elem?_of_lt, All, Bool-cases, Option-cases, inl, inr,
}
use orch_kv_cache.Prelude.Dict.{
  Key, find, put, nat_key, pair_key, find-put, find-put_ne, find-put_cases,
}
use orch_kv_cache.Prelude.Heap.{update}
use orch_kv_cache.Connector.Worker.{Worker, run_saves, save_block, save_blocks}

module _ {ℓ} {B : Type ℓ} where
  run_saves-append :
      (host : ℕ → B) (copies : List (ℕ × B)) (a : ℕ) (x : B) (c : ℕ)
      → run_saves host (copies ++ (a, x) ∷ []) c ≡ update (run_saves host copies) a x c
  run_saves-append host [] a x c = refl
  run_saves-append host (copy ∷ copies) a x c =
      run_saves-append (update host copy.0 copy.1) copies a x c

  run_saves-agree :
      (h h' : ℕ → B) (copies : List (ℕ × B)) (c : ℕ)
      → h c ≡ h' c
      → run_saves h copies c ≡ run_saves h' copies c
  run_saves-agree h h' [] c e = e
  run_saves-agree h h' (copy ∷ copies) c e =
      run_saves-agree (update h copy.0 copy.1) (update h' copy.0 copy.1) copies c (ground arith)

module _ {ℓ} {K : Type ℓ} ⦃key : Key K⦄ where
  -- Every block has a buffer of its own, below the address `next`.
  pub record IsWired (d : List ((K × ℕ) × ℕ)) (next : ℕ) : Type ℓ where
    pub bound : (k : K × ℕ) (a : ℕ) → find k d ≡ some a → a < next
    pub apart : (k j : K × ℕ) (a : ℕ) → find k d ≡ some a → find j d ≡ some a → k ≡ j

  fresh-bound :
      (d : List ((K × ℕ) × ℕ)) (n : ℕ) (k j : K × ℕ) (a : ℕ)
      → IsWired d n
      → find j (put k n d) ≡ some a
      → a < n + 1
  fresh-bound d n k j a v h = elim (find-put_cases k j n a d h) [
    | inl (e, same) ↦ omega arith
    | inr (other, old) ↦ omega (arith, v.bound j a old)
  ]

  fresh-apart :
      (d : List ((K × ℕ) × ℕ)) (n : ℕ) (k i j : K × ℕ) (a : ℕ)
      → IsWired d n
      → find i (put k n d) ≡ some a
      → find j (put k n d) ≡ some a
      → i ≡ j
  fresh-apart d n k i j a v h h' = elim (find-put_cases k i n a d h) [
    | inl (e, same) ↦ elim (find-put_cases k j n a d h') [
      | inl (e', same') ↦ sym e ∙ e'
      | inr (other, old) ↦ absurd (omega (arith, same, v.bound j a old))
    ]
    | inr (other, old) ↦ elim (find-put_cases k j n a d h') [
      | inl (e', same') ↦ absurd (omega (arith, same', v.bound i a old))
      | inr (other', old') ↦ v.apart i j a old old'
    ]
  ]

  fresh-IsWired :
      (d : List ((K × ℕ) × ℕ)) (n : ℕ) (k : K × ℕ) → IsWired d n → IsWired (put k n d) (n + 1)
  fresh-IsWired d n k v = record {
    bound = λ j a h. fresh-bound d n k j a v h;
    apart = λ i j a h h'. fresh-apart d n k i j a v h h';
  }

module _ {ℓ} {K B : Type ℓ} ⦃key : Key K⦄ where
  -- The block `x` is in the buffer of `k`, once the save stream has run.
  abbrev pub Holds : Worker K B → K × ℕ → B → Type ℓ
  Holds w k x = (a : ℕ) × (find k w.dram_buffers ≡ some a) × (run_saves w.host w.save_stream a ≡ x)

  -- What a save of the block `k` does.
  record Saved (w g : Worker K B) (k : K × ℕ) (x : B) : Type ℓ where
    wired : IsWired g.dram_buffers g.next_buffer
    here : Holds g k x
    others : (j : K × ℕ) (y : B) → k ≢ j → Holds w j y → Holds g j y
    caches : g.kv_caches ≡ w.kv_caches
    loads : g.load_stream ≡ w.load_stream
    loads_done : g.loads_done ≡ w.loads_done

  -- A new buffer for the block `k`, and its copy on the save stream.
  abbrev buffer_made : Worker K B → K × ℕ → B → Worker K B
  buffer_made w k x = record w {
    dram_buffers = put k w.next_buffer w.dram_buffers;
    host = update w.host w.next_buffer w.unset;
    next_buffer = w.next_buffer + 1;
    save_stream = w.save_stream ++ (w.next_buffer, x) ∷ [];
    pending_saves = w.pending_saves ++ k ∷ [];
  }

  -- The copy alone.
  abbrev buffer_used : Worker K B → K × ℕ → ℕ → B → Worker K B
  buffer_used w k a x = record w {
    save_stream = w.save_stream ++ (a, x) ∷ [];
    pending_saves = w.pending_saves ++ k ∷ [];
  }

  buffer_made-Saved :
      (w : Worker K B) (k : K × ℕ) (x : B)
      → IsWired w.dram_buffers w.next_buffer
      → Saved w (buffer_made w k x) k x
  buffer_made-Saved w k x v =
      let host = update w.host w.next_buffer w.unset in
      record {
        wired = fresh-IsWired w.dram_buffers w.next_buffer k v;
        here = (
          w.next_buffer,
          find-put k w.next_buffer w.dram_buffers,
          run_saves-append host w.save_stream w.next_buffer x w.next_buffer ∙ ground arith,
        );
        others = λ j y other held.
            let (a, found, value) = held in
            let below = v.bound j a found in
            (
              a,
              find-put_ne k j w.next_buffer w.dram_buffers other ∙ found,
              run_saves-append host w.save_stream w.next_buffer x a
                  ∙ (ground arith
                      ∙ (run_saves-agree host w.host w.save_stream a (ground arith) ∙ value)),
            );
        caches = refl;
        loads = refl;
        loads_done = refl;
      }

  buffer_used-Saved :
      (w : Worker K B) (k : K × ℕ) (a : ℕ) (x : B)
      → IsWired w.dram_buffers w.next_buffer
      → find k w.dram_buffers ≡ some a
      → Saved w (buffer_used w k a x) k x
  buffer_used-Saved w k a x v found = record {
    wired = v;
    here = (a, found, run_saves-append w.host w.save_stream a x a ∙ ground arith);
    others = λ j y other held.
        let (c, found', value) = held in
        let apart : a ≢ c = λ e. other (v.apart k j c (rw e at found) found') in
        (c, found', run_saves-append w.host w.save_stream a x c ∙ (ground arith ∙ value));
    caches = refl;
    loads = refl;
    loads_done = refl;
  }

  save_block_lem :
      (w : Worker K B) (layer : K) (kv_layer : List B) (bid : ℕ) (x : B)
      → IsWired w.dram_buffers w.next_buffer
      → get_elem? kv_layer bid ≡ some x
      → (g : Worker K B) × (save_block w layer kv_layer bid ≡ ok g) × Saved w g (layer, bid) x
  unfolding save_block
  save_block_lem w layer kv_layer bid x v src =
      elim (Option-cases (find (layer, bid) w.dram_buffers)) [
        | inl missing ↦ (
          buffer_made w (layer, bid) x,
          rw (src, missing) refl,
          buffer_made-Saved w (layer, bid) x v,
        )
        | inr (a, found) ↦ (
          buffer_used w (layer, bid) a x,
          rw (src, found) refl,
          buffer_used-Saved w (layer, bid) a x v found,
        )
      ]

  -- The block `b` of the tensor `kv_layer` is in its buffer, once the save stream has run.
  abbrev pub IsBacked : Worker K B → K → List B → ℕ → Type ℓ
  IsBacked w layer kv_layer b = (x : B) × (get_elem? kv_layer b ≡ some x) × Holds w (layer, b) x

  Saved-IsBacked :
      (w g : Worker K B) (layer : K) (kv_layer : List B) (bid b : ℕ) (x : B)
      → Saved w g (layer, bid) x
      → get_elem? kv_layer bid ≡ some x
      → IsBacked w layer kv_layer b
      → IsBacked g layer kv_layer b
  Saved-IsBacked w g layer kv_layer bid b x s src (y, src', held) = elim (Bool-cases (bid == b)) [
    | inl e ↦ let same : bid ≡ b = ground arith in rw (← same) (x, src, s.here)
    | inr e ↦
        let other : (layer, bid) ≢ (layer, b) = λ q. absurd (ground (arith, ap (λ k. k.1) q)) in
        (y, src', s.others (layer, b) y other held)
  ]

  -- What a save of the blocks `ids` of the tensor `kv_layer` does.
  pub record SavedAll (w g : Worker K B) (layer : K) (kv_layer : List B) (ids : List ℕ)
      : Type ℓ where
    pub wired : IsWired g.dram_buffers g.next_buffer
    pub backed : All (IsBacked g layer kv_layer) ids
    pub kept : (b : ℕ) → IsBacked w layer kv_layer b → IsBacked g layer kv_layer b
    pub caches : g.kv_caches ≡ w.kv_caches
    pub loads : g.load_stream ≡ w.load_stream
    pub loads_done : g.loads_done ≡ w.loads_done

  pub save_blocks_lem :
      (w : Worker K B) (layer : K) (kv_layer : List B) (ids : List ℕ)
      → IsWired w.dram_buffers w.next_buffer
      → All (λ b. b < length kv_layer) ids
      → (g : Worker K B) × (save_blocks w layer kv_layer ids ≡ ok g)
        × SavedAll w g layer kv_layer ids
  unfolding save_blocks
  save_blocks_lem w layer kv_layer [] v bounds = (
    w,
    refl,
    record {
      wired = v;
      backed = tt;
      kept = λ b h. h;
      caches = refl;
      loads = refl;
      loads_done = refl;
    },
  )
  save_blocks_lem w layer kv_layer (bid ∷ ids) v (bound, bounds) =
      let (x, src) = get_elem?_of_lt kv_layer bid bound in
      let (m, once, s) = save_block_lem w layer kv_layer bid x v src in
      let (g, rest, t) = save_blocks_lem m layer kv_layer ids s.wired bounds in
      (
        g,
        rw once rest,
        record {
          wired = t.wired;
          backed = (t.kept bid (x, src, s.here), t.backed);
          kept = λ b h. t.kept b (Saved-IsBacked w m layer kv_layer bid b x s src h);
          caches = t.caches ∙ s.caches;
          loads = t.loads ∙ s.loads;
          loads_done = t.loads_done ∙ s.loads_done;
        },
      )
