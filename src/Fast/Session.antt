-- ===== src/Fast/Session.antt =====
-- The methods of a `FastKVCacheManager` called in any order, on tensors that grow.
use orch_kv_cache.Prelude.{
  ℕ, ◌+◌, ◌*◌, ◌/◌, ◌-◌, ◌%◌, ◌==◌, ◌&&◌, ◌≡◌, refl, sym, ap, ◌∙◌, Option, List, ◌∷◌, arith, ok,
  length, All, Bool-cases, inl, inr, pos→nonzero,
}
use mathlib.Core.Path.{subst}
use orch_kv_cache.Prelude.Budget.{BudgetTest}
use orch_kv_cache.Manager.{Usage}
use orch_kv_cache.Manager.Ingest.Steps.{Extends}
use orch_kv_cache.Fifo.{FifoManager}
use orch_kv_cache.Fifo.Copies.{SameTokens-rows, restore_lem}
use orch_kv_cache.Fifo.Session.{
  FifoHolds, SameTokens-FifoHolds, Fewer-IsRunning, fifo_step_done-FifoHolds,
}
use orch_kv_cache.Fifo.Write.Decode.{append_rows_taken}
use orch_kv_cache.Fifo.Write.Rows.{with_total}
use orch_kv_cache.Fifo.Write.Prefill.{ingest_rows_taken}
use orch_kv_cache.Fast.{
  FastManager, CoreScores, with_base, register_blocks, register_all, fast_ingest, fast_append,
  fast_restore, fast_build, fast_report_attention, report_qk_norm, fast_step_done, fast_schedule,
  fast_truthy_handle, register_at,
}
use orch_kv_cache.Fast.Schedule.{fast_schedule_lem}
use orch_kv_cache.Fast.Reports.{register_blocks-base, report-base, qk-base, fast_step_done-base}

module _ {ℓ} {T : Type ℓ} where
  count_blocks-FifoHolds :
      (b : FifoManager T) (n : ℕ) (kvs : List (List T))
      → FifoHolds b kvs
      → FifoHolds (record b { total_blocks = n }) kvs
  count_blocks-FifoHolds b n kvs h = record {
    running = record {
      sound = record {
        faithful = h.running.sound.faithful;
        positive = h.running.sound.positive;
        filled = h.running.sound.filled;
        copies = h.running.sound.copies;
      };
      queued = h.running.queued;
      few = h.running.few;
    };
    sized = h.sized;
    view = h.view;
  }

  register_all_lem :
      (m : FastManager T) (kvs : List (List T))
      → FifoHolds m.base kvs
      → (g : FastManager T) × (register_all m ≡ ok g) × FifoHolds g.base kvs
  unfolding register_all
  register_all_lem m kvs h = elim (Bool-cases (fast_truthy_handle m)) [
    | inl e ↦
        let positive = pos→nonzero m.block_size h.running.sound.positive in
        let n = (m.total_tokens + m.block_size - 1) / m.block_size in
        (
          with_base (register_blocks n m 0)
              (record (register_blocks n m 0).base { total_blocks = n * m.n_layers }),
          rw e (rw positive refl),
          count_blocks-FifoHolds (register_blocks n m 0).base (n * m.n_layers) kvs
              (subst (λ b. FifoHolds b kvs) (sym (register_blocks-base n m 0)) h),
        )
    | inr e ↦ (m, rw e refl, h)
  ]

  -- From a manager that holds `kvs`, `ingest_step` of tensors of one length that extend them does
  -- not raise, and then the manager holds these tensors.
  pub fast_ingest_lossless :
      (m : FastManager T) (kvs : List (List T)) (kv : List T) (rest : List (List T))
      → FifoHolds m.base kvs
      → All (λ row. length row ≡ length kv) rest
      → Extends (λ new. Unit) kvs (kv ∷ rest)
      → (g : FastManager T) × (fast_ingest m (kv ∷ rest) ≡ ok g) × FifoHolds g.base (kv ∷ rest)
  unfolding fast_ingest
  fast_ingest_lossless m kvs kv rest h sizes ext =
      let ext' = subst (λ c. Extends (λ new. Unit) c (kv ∷ rest)) (sym h.view) ext in
      let (w, done, run, size, view, _) =
        ingest_rows_taken m.base kv rest h.running h.sized sizes ext' in
      let (g, told, k) =
        register_all_lem (with_base m (with_total w (length kv))) (kv ∷ rest)
          (record { running = run; sized = size; view = view }) in
      (g, rw done told, k)

  -- From a manager that holds `kvs`, `append_token` of tensors with one token more in each layer
  -- does not raise, and then the manager holds these tensors.
  pub fast_append_lossless :
      (m : FastManager T) (kvs legacy : List (List T))
      → FifoHolds m.base kvs
      → Extends (λ new. length new ≡ 1) kvs legacy
      → (g : FastManager T) × (fast_append m legacy ≡ ok g) × FifoHolds g.base legacy
  unfolding fast_append
  fast_append_lossless m kvs legacy h ext =
      let ext' = subst (λ c. Extends (λ new. length new ≡ 1) c legacy) (sym h.view) ext in
      let (w, done, run, size, view, _) = append_rows_taken m.base legacy h.running h.sized ext' in
      let positive = pos→nonzero m.block_size h.running.sound.positive in
      let holds : FifoHolds (with_total w (m.total_tokens + 1)) legacy = record {
        running = run;
        sized = size;
        view = view;
      } in
      elim (Bool-cases (m.total_tokens % m.block_size == 0 && fast_truthy_handle m)) [
        | inl e ↦ (
          register_at (with_base m (with_total w (m.total_tokens + 1)))
              (m.total_tokens / m.block_size) m.total_tokens,
          rw done (rw (positive, e) refl),
          holds,
        )
        | inr e ↦ (
          with_base m (with_total w (m.total_tokens + 1)),
          rw done (rw (positive, e) refl),
          holds,
        )
      ]

  pub fast_build_lem :
      (m : FastManager T) (kvs : List (List T))
      → FifoHolds m.base kvs
      → (g : FastManager T) × (fast_build m ≡ ok (g, kvs)) × FifoHolds g.base kvs
  unfolding fast_build fast_restore
  fast_build_lem m kvs h =
      let (b, done, k, _) = restore_lem m.base h.running.sound.faithful in
      (
        with_base m b,
        rw done (rw (SameTokens-rows k.same, h.view) refl),
        SameTokens-FifoHolds k.same (Fewer-IsRunning k h.running) h,
      )

  same_base :
      (m n : FastManager T) {kvs : List (List T)}
      → n.base ≡ m.base
      → FifoHolds m.base kvs
      → FifoHolds n.base kvs
  same_base m n {kvs = kvs} e h = subst (λ b. FifoHolds b kvs) (sym e) h

module _ {ℓ} (tests : BudgetTest) (scores : CoreScores) {T : Type ℓ} where
  -- One call: the manager and the tensors of the model before it, and both after it.
  pub data FastStep (m : FastManager T) (kvs : List (List T))
      : FastManager T → List (List T) → Type ℓ where
    prefill :
        (kv : List T) (rest : List (List T)) (n : FastManager T)
        → All (λ row. length row ≡ length kv) rest
        → Extends (λ new. Unit) kvs (kv ∷ rest)
        → fast_ingest m (kv ∷ rest) ≡ ok n
        → FastStep m kvs n (kv ∷ rest)
    decode :
        (legacy : List (List T)) (n : FastManager T)
        → Extends (λ new. length new ≡ 1) kvs legacy
        → fast_append m legacy ≡ ok n
        → FastStep m kvs n legacy
    report :
        (kv_len : ℕ) (n : FastManager T)
        → fast_report_attention m kv_len ≡ ok n
        → FastStep m kvs n kvs
    report_qk :
        (layer : ℕ) (n : FastManager T) → report_qk_norm m layer ≡ ok n → FastStep m kvs n kvs
    finish : (n : FastManager T) → n ≡ fast_step_done m → FastStep m kvs n kvs
    cycle :
        (r : Option (ℕ × Usage)) (n : FastManager T)
        → fast_schedule tests scores m ≡ ok (n, r)
        → FastStep m kvs n kvs
    build :
        (out : List (List T)) (n : FastManager T)
        → fast_build m ≡ ok (n, out)
        → FastStep m kvs n kvs

  -- Calls one after the other.
  pub data FastSession (m : FastManager T) (kvs : List (List T))
      : FastManager T → List (List T) → Type ℓ where
    here : FastSession m kvs m kvs
    next :
        {n k : FastManager T} {now later : List (List T)}
        → FastSession m kvs n now
        → FastStep n now k later
        → FastSession m kvs k later

  FastStep-FifoHolds :
      {m n : FastManager T} {kvs later : List (List T)}
      → FastStep m kvs n later
      → FifoHolds m.base kvs
      → FifoHolds n.base later
  FastStep-FifoHolds {m} {kvs = kvs} (prefill kv rest n sizes ext e) h =
      let (g, done, k) = fast_ingest_lossless m kvs kv rest h sizes ext in
      let same : g ≡ n = cc in subst (λ x. FifoHolds x.base (kv ∷ rest)) same k
  FastStep-FifoHolds {m} {kvs = kvs} (decode legacy n ext e) h =
      let (g, done, k) = fast_append_lossless m kvs legacy h ext in
      let same : g ≡ n = cc in subst (λ x. FifoHolds x.base legacy) same k
  FastStep-FifoHolds {m} (report kv_len n e) h =
      same_base m n (report-base m n kv_len h.running.sound.positive e) h
  FastStep-FifoHolds {m} (report_qk layer n e) h =
      same_base m n (qk-base m n layer h.running.sound.positive e) h
  FastStep-FifoHolds {m} {kvs = kvs} (finish n e) h =
      subst (λ b. FifoHolds b kvs) (sym (ap (λ k. k.base) e ∙ fast_step_done-base m))
        (fifo_step_done-FifoHolds m.base kvs h)
  FastStep-FifoHolds {m} {kvs = kvs} (cycle r n e) h =
      let (g, r', done, k) = fast_schedule_lem tests scores m h.running in
      let same : g ≡ n = ground arith in
      subst (λ x. FifoHolds x.base kvs) same (SameTokens-FifoHolds k.same k.running h)
  FastStep-FifoHolds {m} {kvs = kvs} (build out n e) h =
      let (g, done, k) = fast_build_lem m kvs h in
      let same : g ≡ n = ground arith in subst (λ x. FifoHolds x.base kvs) same k

  FastSession-FifoHolds :
      {m : FastManager T} {kvs : List (List T)} {n : FastManager T} {later : List (List T)}
      → FastSession m kvs n later
      → FifoHolds m.base kvs
      → FifoHolds n.base later
  FastSession-FifoHolds here h = h
  FastSession-FifoHolds (next s t) h = FastStep-FifoHolds t (FastSession-FifoHolds s h)

  -- Whatever prefills, decode steps, reports, ends of steps, scheduling cycles and
  -- reconstructions succeed on a `FastKVCacheManager` that holds the tensors `kvs`, in whatever
  -- order and whatever scores the core has, if every prefill is of tensors of one length that
  -- extend those held then and every decode step adds one token to them in each layer: then
  -- `build_past_kv` does not raise and returns the tensors of the last prefill or decode step, or
  -- `kvs` if there was none.
  pub FastSession-lossless :
      (m n : FastManager T) (kvs later : List (List T))
      → FifoHolds m.base kvs
      → FastSession m kvs n later
      → (k : FastManager T) × (fast_build n ≡ ok (k, later))
  FastSession-lossless m n kvs later h s =
      let (k, done, _) = fast_build_lem n later (FastSession-FifoHolds s h) in (k, done)
