-- ===== src/AttentionHook/Reports.antt =====
-- What the collector counts, and the ids that it makes up.
use orch_kv_cache.Prelude.{
  ℕ, zero, suc, ◌+◌, ◌*◌, ◌/◌, ◌-◌, ◌<◌, ◌==◌, ◌≡◌, refl, ap, Bool, true, false, not, Option, none,
  some, List, [], ◌∷◌, arith, if◌then◌else◌, ok, Bool-cases, inl, inr,
}
use mathlib.Core.Path.{subst}
use orch_kv_cache.Prelude.Dict.{put, nat_key}
use orch_kv_cache.Prelude.Float.{Float}
use orch_kv_cache.AttentionHook.{
  Candidate, four_dims, other_dims, no_tensor, AttnCall, block_attn, step_over, Collector, TableRow,
  BlockIdFn, own_id, block_id, new_collector, set_sample_interval, set_enabled, should_sample,
  report_one, report_row, report_rows, report_scores, collector_step_done, collect, collect_weights,
  blockwise_reduce,
}

-- Rows of `n` places each: a place determines its row and its column.
row_major : (n a b i j : ℕ) → i < n → j < n → a * n + i ≡ b * n + j → (a ≡ b) × (i ≡ j)
row_major n zero zero i j hi hj e = (refl, omega arith)
row_major n zero (suc b) i j hi hj e = absurd (grind arith)
row_major n (suc a) zero i j hi hj e = absurd (grind arith)
row_major n (suc a) (suc b) i j hi hj e =
    let (rows, columns) = row_major n a b i j hi hj (grind arith) in (ap suc rows, columns)

-- The ids that the collector makes up in a step, where all layers have the same number of heads and of
-- blocks, are different for different layers, heads or blocks.
pub own_id-injective :
    (n_heads n_blocks l h b l' h' b' : ℕ)
    → h < n_heads
    → h' < n_heads
    → b < n_blocks
    → b' < n_blocks
    → own_id l n_heads n_blocks h b ≡ own_id l' n_heads n_blocks h' b'
    → (l ≡ l') × (h ≡ h') × (b ≡ b')
own_id-injective n_heads n_blocks l h b l' h' b' hh hh' hb hb' e =
    let together : (l * n_heads + h) * n_blocks + b ≡ (l' * n_heads + h') * n_blocks + b' =
      grind arith in
    let (rows, columns) =
      row_major n_blocks (l * n_heads + h) (l' * n_heads + h') b b' hb hb' together in
    let (layers, heads) = row_major n_heads l l' h h' hh hh' rows in (layers, heads, columns)

module _ {ℓ} {F : Type ℓ} where
  -- The reports of blocks among the calls of the core.
  abbrev pub block_reports : List (AttnCall F) → ℕ
  block_reports [] = 0
  block_reports (block_attn bid score ∷ calls) = block_reports calls + 1
  block_reports (step_over ∷ calls) = block_reports calls

  -- The collector's counts are those of its calls and of its steps.
  pub record IsCounted (c : Collector F) : Type ℓ where
    pub reported : c.blocks_reported ≡ block_reports c.tm_calls
    pub stepped : c.samples_taken + c.steps_skipped ≡ c.step
    pub positive : 0 < c.sample_interval

  report_one_lem :
      (acc : List (AttnCall F) × ℕ) (score : F) (id : Option ℕ)
      → block_reports (report_one acc score id).0 + acc.1
        ≡ block_reports acc.0 + (report_one acc score id).1
  report_one_lem acc score none = refl
  report_one_lem acc score (some bid) = omega arith

  report_row_lem :
      (ids : ℕ → Option ℕ) (acc : List (AttnCall F) × ℕ) (bi : ℕ) (row : List F)
      → block_reports (report_row ids acc bi row).0 + acc.1
        ≡ block_reports acc.0 + (report_row ids acc bi row).1
  unfolding report_row
  report_row_lem ids acc bi [] = refl
  report_row_lem ids acc bi (score ∷ row) = omega (
    arith,
    report_one_lem acc score (ids bi),
    report_row_lem ids (report_one acc score (ids bi)) (bi + 1) row,
  )

  report_rows_lem :
      (ids : ℕ → ℕ → Option ℕ) (acc : List (AttnCall F) × ℕ) (h : ℕ) (rows : List (List F))
      → block_reports (report_rows ids acc h rows).0 + acc.1
        ≡ block_reports acc.0 + (report_rows ids acc h rows).1
  unfolding report_rows
  report_rows_lem ids acc h [] = refl
  report_rows_lem ids acc h (row ∷ rows) = omega (
    arith,
    report_row_lem (ids h) acc 0 row,
    report_rows_lem ids (report_row (ids h) acc 0 row) (h + 1) rows,
  )

  report_scores-IsCounted :
      (c : Collector F) (layer n_heads n_blocks : ℕ) (scores : List (List F))
      (table : Option TableRow) (fn : Option BlockIdFn)
      → IsCounted c
      → IsCounted (report_scores c layer n_heads n_blocks scores table fn)
  unfolding report_scores
  report_scores-IsCounted c layer n_heads n_blocks scores table fn v =
      let added =
        report_rows_lem (block_id fn table layer n_heads n_blocks) (c.tm_calls, 0) 0 scores in
      let acc = report_rows (block_id fn table layer n_heads n_blocks) (c.tm_calls, 0) 0 scores in
      let told = record c { tm_calls = acc.0; blocks_reported = c.blocks_reported + acc.1 } in
      let told-IsCounted : IsCounted told = record {
        reported = omega (arith, added, v.reported);
        stepped = v.stepped;
        positive = v.positive;
      } in
      elim c.core as (λ b. IsCounted (if not b then c else told)) [
        | true ↦ told-IsCounted
        | false ↦ v
      ]

  collector_step_done-IsCounted :
      (c : Collector F) → IsCounted c → IsCounted (collector_step_done c)
  unfolding collector_step_done
  collector_step_done-IsCounted c v = ground (arith, v.reported, v.stepped, v.positive)

module _ {ℓ} {F : Type ℓ} ⦃float : Float F⦄ (mean : List F → F) where
  collect_weights-IsCounted :
      (c g : Collector F) (layer : ℕ) (w : Candidate F) (table : Option TableRow)
      (fn : Option BlockIdFn)
      → IsCounted c
      → collect_weights mean c layer w table fn ≡ ok g
      → IsCounted g
  unfolding collect_weights
  collect_weights-IsCounted c g layer (four_dims w) table fn v e =
      let n_blocks = (w.kv_len + c.block_size - 1) / c.block_size in
      let scores = blockwise_reduce mean c.block_size w n_blocks in
      let c' = record c { cpu_bufs = put layer scores c.cpu_bufs } in
      let v' : IsCounted c' = record {
        reported = v.reported;
        stepped = v.stepped;
        positive = v.positive;
      } in
      elim (Bool-cases (not (c.block_size == 0))) [
        | inl e' ↦
            let same : report_scores c' layer w.n_heads n_blocks scores table fn ≡ g =
              ground arith in
            subst IsCounted same
              (report_scores-IsCounted c' layer w.n_heads n_blocks scores table fn v')
        | inr e' ↦ absurd (ground arith)
      ]
  collect_weights-IsCounted c g layer other_dims table fn v e = cc
  collect_weights-IsCounted c g layer no_tensor table fn v e = cc

  collect-IsCounted :
      (c g : Collector F) (layer : ℕ) (w : Candidate F) (table : Option TableRow)
      (fn : Option BlockIdFn)
      → IsCounted c
      → collect mean c layer w table fn ≡ ok g
      → IsCounted g
  unfolding collect
  collect-IsCounted c g layer w table fn v e = elim (Bool-cases (not (should_sample c))) [
    | inl skip ↦ let same : c ≡ g = ground arith in subst IsCounted same v
    | inr sampled ↦ collect_weights-IsCounted c g layer w table fn v (ground arith)
  ]

  -- The collectors that calls lead to, in any order.
  pub data CollectorRun (start : Collector F) : Collector F → Type ℓ where
    made : CollectorRun start start
    collected :
        {c : Collector F} (g : Collector F) (layer : ℕ) (w : Candidate F) (table : Option TableRow)
        (fn : Option BlockIdFn)
        → collect mean c layer w table fn ≡ ok g
        → CollectorRun start c
        → CollectorRun start g
    stepped : {c : Collector F} → CollectorRun start c → CollectorRun start (collector_step_done c)
    interval_set :
        {c : Collector F} (v : ℕ)
        → CollectorRun start c
        → CollectorRun start (set_sample_interval c v)
    enabled_set :
        {c : Collector F} (b : Bool) → CollectorRun start c → CollectorRun start (set_enabled c b)

  CollectorRun-counts :
      (start c : Collector F) → IsCounted start → CollectorRun start c → IsCounted c
  unfolding set_sample_interval set_enabled
  CollectorRun-counts start _ h made = h
  CollectorRun-counts start _ h (collected {c} g layer w table fn e r) =
      collect-IsCounted c g layer w table fn (CollectorRun-counts start c h r) e
  CollectorRun-counts start _ h (stepped {c} r) =
      collector_step_done-IsCounted c (CollectorRun-counts start c h r)
  CollectorRun-counts start _ h (interval_set {c} v r) =
      let k = CollectorRun-counts start c h r in
      record { reported = k.reported; stepped = k.stepped; positive = ground arith }
  CollectorRun-counts start _ h (enabled_set {c} b r) =
      let k = CollectorRun-counts start c h r in
      record { reported = k.reported; stepped = k.stepped; positive = k.positive }

  -- Whatever is called on a new collector, in whatever order: `blocks_reported` is the number of reports
  -- that the core got, every step is counted once, as sampled or as skipped, and the interval
  -- is not 0.
  pub CollectorRun-IsCounted :
      (tm block_size sample_interval : ℕ) (core : Bool) (c : Collector F)
      → CollectorRun (new_collector tm block_size sample_interval core) c
      → IsCounted c
  unfolding new_collector
  CollectorRun-IsCounted tm block_size sample_interval core c r =
      CollectorRun-counts (new_collector tm block_size sample_interval core) c
        (record { reported = refl; stepped = refl; positive = ground arith }) r
