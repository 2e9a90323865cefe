-- ===== src/Fifo/Session.antt =====
-- The methods of a `FastFIFOManager` called in any order, on tensors that grow.
use orch_kv_cache.Prelude.{
  ℕ, zero, suc, ◌+◌, ◌<◌, ◌≡◌, refl, sym, ap, ◌∙◌, Option, List, [], ◌∷◌, arith, ok, length, All,
  take, replicate, tabulate, length-replicate,
}
use mathlib.Core.Path.{subst}
use orch_kv_cache.Prelude.Budget.{BudgetTest}
use orch_kv_cache.Manager.Ingest.Steps.{Extends}
use orch_kv_cache.Fifo.{FifoManager, FifoConfig, new_fifo, rows, fifo_build, fifo_schedule}
use orch_kv_cache.Fifo.Copies.{SameTokens, SameTokens-rows, Fewer, fifo_build_restores}
use orch_kv_cache.Fifo.Schedule.{IsRunning, fifo_schedule_lem}
use orch_kv_cache.Fifo.Write.{fifo_append, fifo_ingest, fifo_step_done}
use orch_kv_cache.Fifo.Write.Grow.{IsSized}
use orch_kv_cache.Fifo.Write.Decode.{fifo_append_lossless}
use orch_kv_cache.Fifo.Write.Prefill.{fifo_ingest_lossless}

-- What holds between two calls of a manager that holds the tensors `kvs`.
pub record FifoHolds {ℓ} {T : Type ℓ} (m : FifoManager T) (kvs : List (List T)) : Type ℓ where
  pub running : IsRunning m
  pub sized : IsSized m
  pub view : rows m ≡ kvs

module _ {ℓ} {T : Type ℓ} where
  pub Fewer-IsRunning : {m g : FifoManager T} → Fewer m g → IsRunning m → IsRunning g
  Fewer-IsRunning k v = record {
    sound = record {
      faithful = k.same.faithful;
      positive = rw k.same.config v.sound.positive;
      filled = λ li. rw (k.same.total, k.same.bufs li) (v.sound.filled li);
      copies = λ li s e d h.
          rw (k.same.total, k.same.config) (v.sound.copies li s e d (k.copies li s e d h));
    };
    queued = rw (k.queue, k.same.config, k.same.total) v.queued;
    few = rw k.evictions v.few;
  }

  pub SameTokens-FifoHolds :
      {m g : FifoManager T} {kvs : List (List T)}
      → SameTokens m g
      → IsRunning g
      → FifoHolds m kvs
      → FifoHolds g kvs
  SameTokens-FifoHolds s v h = record {
    running = v;
    sized = λ li. rw (s.bufs li, s.max) (h.sized li);
    view = SameTokens-rows s ∙ h.view;
  }

  pub fifo_step_done-FifoHolds :
      (m : FifoManager T) (kvs : List (List T)) → FifoHolds m kvs → FifoHolds (fifo_step_done m) kvs
  unfolding fifo_step_done
  fifo_step_done-FifoHolds m kvs h = record {
    running = record {
      sound = record {
        faithful = h.running.sound.faithful;
        positive = h.running.sound.positive;
        filled = h.running.sound.filled;
        copies = h.running.sound.copies;
      };
      queued = h.running.queued;
      few = h.running.few;
    };
    sized = h.sized;
    view = h.view;
  }

  tabulate-nil :
      (n i size : ℕ) (z : T) → tabulate (λ li. take 0 (replicate size z)) n i ≡ replicate n []
  tabulate-nil zero i size z = refl
  tabulate-nil (suc n) i size z = ap (◌∷◌ []) (tabulate-nil n (i + 1) size z)

  -- A new manager holds no tokens, in as many layers as it is made for.
  pub new_fifo-FifoHolds :
      (c : FifoConfig T) (max_seq_len : ℕ)
      → 0 < c.block_size
      → FifoHolds (new_fifo c max_seq_len) (replicate c.n_layers [])
  unfolding new_fifo
  new_fifo-FifoHolds c max_seq_len h = record {
    running = record {
      sound = record {
        faithful = λ li s e d held. cc;
        positive = h;
        filled = λ li. omega arith;
        copies = λ li s e d held. cc;
      };
      queued = tt;
      few = omega arith;
    };
    sized = λ li. length-replicate max_seq_len c.zeros;
    view = tabulate-nil c.n_layers 0 max_seq_len c.zeros;
  }

module _ {ℓ} (tests : BudgetTest) {T : Type ℓ} where
  -- One call: the manager and the tensors of the model before it, and both after it.
  pub data FifoStep (m : FifoManager T) (kvs : List (List T))
      : FifoManager T → List (List T) → Type ℓ where
    prefill :
        (kv : List T) (rest : List (List T)) (n : FifoManager T)
        → All (λ row. length row ≡ length kv) rest
        → Extends (λ new. Unit) kvs (kv ∷ rest)
        → fifo_ingest m (kv ∷ rest) ≡ ok n
        → FifoStep m kvs n (kv ∷ rest)
    decode :
        (legacy : List (List T)) (n : FifoManager T)
        → Extends (λ new. length new ≡ 1) kvs legacy
        → fifo_append m legacy ≡ ok n
        → FifoStep m kvs n legacy
    finish : (n : FifoManager T) → n ≡ fifo_step_done m → FifoStep m kvs n kvs
    cycle :
        (r : Option ℕ) (n : FifoManager T)
        → fifo_schedule tests m ≡ ok (n, r)
        → FifoStep m kvs n kvs
    build :
        (out : List (List T)) (n : FifoManager T)
        → fifo_build m ≡ ok (n, out)
        → FifoStep m kvs n kvs

  -- Calls one after the other.
  pub data FifoSession (m : FifoManager T) (kvs : List (List T))
      : FifoManager T → List (List T) → Type ℓ where
    here : FifoSession m kvs m kvs
    next :
        {n k : FifoManager T} {now later : List (List T)}
        → FifoSession m kvs n now
        → FifoStep n now k later
        → FifoSession m kvs k later

  FifoStep-FifoHolds :
      {m n : FifoManager T} {kvs later : List (List T)}
      → FifoStep m kvs n later
      → FifoHolds m kvs
      → FifoHolds n later
  FifoStep-FifoHolds {m} (prefill kv rest n sizes ext e) h =
      let ext' = subst (λ c. Extends (λ new. Unit) c (kv ∷ rest)) (sym h.view) ext in
      let (g, done, v, s, view) = fifo_ingest_lossless m kv rest h.running h.sized sizes ext' in
      let same : g ≡ n = cc in
      subst (λ k. FifoHolds k (kv ∷ rest)) same (record { running = v; sized = s; view = view })
  FifoStep-FifoHolds {m} (decode legacy n ext e) h =
      let ext' = subst (λ c. Extends (λ new. length new ≡ 1) c legacy) (sym h.view) ext in
      let (g, done, v, s, view) = fifo_append_lossless m legacy h.running h.sized ext' in
      let same : g ≡ n = cc in
      subst (λ k. FifoHolds k legacy) same (record { running = v; sized = s; view = view })
  FifoStep-FifoHolds {m} {kvs = kvs} (finish n e) h =
      subst (λ k. FifoHolds k kvs) (sym e) (fifo_step_done-FifoHolds m kvs h)
  FifoStep-FifoHolds {m} {kvs = kvs} (cycle r n e) h =
      let (g, r', done, v, s) = fifo_schedule_lem tests m h.running in
      let same : g ≡ n = ground arith in
      subst (λ k. FifoHolds k kvs) same (SameTokens-FifoHolds s v h)
  FifoStep-FifoHolds {m} {kvs = kvs} (build out n e) h =
      let (g, done, k, _) = fifo_build_restores m h.running.sound.faithful in
      let same : g ≡ n = ground arith in
      subst (λ k. FifoHolds k kvs) same
        (SameTokens-FifoHolds k.same (Fewer-IsRunning k h.running) h)

  FifoSession-FifoHolds :
      {m : FifoManager T} {kvs : List (List T)} {n : FifoManager T} {later : List (List T)}
      → FifoSession m kvs n later
      → FifoHolds m kvs
      → FifoHolds n later
  FifoSession-FifoHolds here h = h
  FifoSession-FifoHolds (next s t) h = FifoStep-FifoHolds t (FifoSession-FifoHolds s h)

  -- Whatever prefills, decode steps, ends of steps, scheduling cycles and reconstructions succeed
  -- on a `FastFIFOManager` that holds the tensors `kvs`, in whatever order, if every prefill is
  -- of tensors of one length that extend those held then and every decode step adds one token
  -- to them in each layer: then `build_past_kv` does not raise and returns the tensors of
  -- the last prefill or decode step, or `kvs` if there was none.
  pub FifoSession-lossless :
      (m n : FifoManager T) (kvs later : List (List T))
      → FifoHolds m kvs
      → FifoSession m kvs n later
      → (k : FifoManager T) × (fifo_build n ≡ ok (k, later))
  FifoSession-lossless m n kvs later h s =
      let h' = FifoSession-FifoHolds s h in
      let (k, done, _, _) = fifo_build_restores n h'.running.sound.faithful in
      (k, rw h'.view at done)
