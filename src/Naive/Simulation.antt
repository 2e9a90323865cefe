-- ===== src/Naive/Simulation.antt =====
-- The methods of `NaiveOffloadManager` do what those of `KVCacheManager` do without a core, files and
-- sinks.
use orch_kv_cache.Prelude.{
  ℕ, zero, suc, ◌+◌, ◌-◌, ◌==◌, ◌≡◌, refl, ap, ◌∙◌, ◌⊎◌, inl, inr, some, List, [], ◌∷◌, arith, ltb,
  leb, min, Bool-cases, Option-cases, Result, ok, err, ◌>>=◌, length, replicate, get_elem?,
}
use orch_kv_cache.Prelude.Slices.{slice, assign}
use orch_kv_cache.Manager.{KvCacheManager, Tensor, Tier, gpu, dram, ssd, alloc_block}
use orch_kv_cache.Manager.Moves.{promote_block, promote_from_dram}
use orch_kv_cache.Manager.Invariant.{IsResident}
use orch_kv_cache.Manager.Build.{fetch}
use orch_kv_cache.Manager.Ingest.{
  ingest_block, ingest_from, ingest_layer, each_layer, set_total, ingest_step,
}
use orch_kv_cache.Naive.{
  NaiveManager, naive_count, naive_ingest_block, naive_ingest_from, naive_ingest_layer,
  naive_each_layer, naive_set_total, naive_ingest, naive_promoted, naive_fetch,
}
use orch_kv_cache.Naive.Plain.{plain, add_block-plain}

tier_cases : (t : Tier) → (t ≡ gpu) ⊎ (t ≡ dram) ⊎ (t ≡ ssd)
tier_cases gpu = inl refl
tier_cases dram = inr (inl refl)
tier_cases ssd = inr (inr refl)

module _ {ℓ} {T : Type ℓ} where
  abbrev pub lift : Result (NaiveManager T) → Result (KvCacheManager T)
  lift (ok n) = ok (plain n)
  lift (err e) = err e

  pub lift-ok :
      (r : Result (NaiveManager T)) (m : KvCacheManager T)
      → lift r ≡ ok m
      → (n : NaiveManager T) × (r ≡ ok n) × (plain n ≡ m)
  lift-ok (ok n) m e = (n, refl, ground arith)
  lift-ok (err x) m e = absurd (ground arith)

  pub lift-bind {κ} :
      {A : Type κ} (r : Result A) (f : A → Result (NaiveManager T))
      (g : A → Result (KvCacheManager T))
      → ((a : A) → lift (f a) ≡ g a)
      → lift (r >>= f) ≡ (r >>= g)
  lift-bind (ok a) f g h = h a
  lift-bind (err e) f g h = refl

  lift_then :
      (r : Result (NaiveManager T)) (f : NaiveManager T → Result (NaiveManager T))
      (r' : Result (KvCacheManager T)) (g : KvCacheManager T → Result (KvCacheManager T))
      → lift r ≡ r'
      → ((n : NaiveManager T) → lift (f n) ≡ g (plain n))
      → lift (r >>= f) ≡ (r' >>= g)
  lift_then (ok n) f r' g e h = h n ∙ ap (λ (q : Result (KvCacheManager T)). q >>= g) e
  lift_then (err x) f r' g e h = ap (λ (q : Result (KvCacheManager T)). q >>= g) e

  naive_ingest_block-lift :
      (n : NaiveManager T) (l : ℕ) (kv : List T) (pos : ℕ)
      → lift (naive_ingest_block n l kv pos) ≡ ingest_block (plain n) l kv pos
  unfolding naive_ingest_block ingest_block alloc_block
  naive_ingest_block-lift n l kv pos = elim (Option-cases (get_elem? n.blocks l)) [
    | inl e ↦ rw e refl
    | inr (ids, e) ↦
        let end = min (pos + n.block_size) (length kv) in
        rw e (
          lift-bind (assign (replicate n.block_size n.zeros) 0 (end - pos) (slice pos end kv)) _ _
            (λ d. ap ok (add_block-plain n l ids pos (end - pos) d)))
  ]

  naive_ingest_from-lift :
      (fuel : ℕ) (n : NaiveManager T) (l : ℕ) (kv : List T) (pos : ℕ)
      → lift (naive_ingest_from fuel n l kv pos) ≡ ingest_from fuel (plain n) l kv pos
  unfolding naive_ingest_from ingest_from
  naive_ingest_from-lift zero n l kv pos = refl
  naive_ingest_from-lift (suc fuel) n l kv pos = elim (Bool-cases (ltb pos (length kv))) [
    | inl e ↦ rw e (
        lift_then (naive_ingest_block n l kv pos)
          (λ n'. naive_ingest_from fuel n' l kv (pos + n.block_size))
          (ingest_block (plain n) l kv pos) (λ m'. ingest_from fuel m' l kv (pos + n.block_size))
          (naive_ingest_block-lift n l kv pos)
          (λ n'. naive_ingest_from-lift fuel n' l kv (pos + n.block_size)))
    | inr e ↦ rw e refl
  ]

  naive_ingest_layer-lift :
      (n : NaiveManager T) (l : ℕ) (kv : List T)
      → lift (naive_ingest_layer n l kv) ≡ ingest_layer (plain n) l kv
  unfolding naive_ingest_layer ingest_layer
  naive_ingest_layer-lift n l kv = elim (Option-cases (get_elem? n.blocks l)) [
    | inl e ↦ rw e refl
    | inr (ids, e) ↦ elim (Bool-cases (leb (length kv) (naive_count n ids))) [
      | inl f ↦ rw (e, f) refl
      | inr f ↦ elim (Bool-cases (n.block_size == 0)) [
        | inl h ↦ rw (e, f, h) refl
        | inr h ↦ rw (e, f, h) (naive_ingest_from-lift (length kv) n l kv (naive_count n ids))
      ]
    ]
  ]

  naive_each_layer-lift :
      (n : NaiveManager T) (l : ℕ) (legacy : List (List T))
      → lift (naive_each_layer naive_ingest_layer n l legacy)
        ≡ each_layer ingest_layer (plain n) l legacy
  naive_each_layer-lift n l [] = refl
  naive_each_layer-lift n l (kv ∷ rest) =
      lift_then (naive_ingest_layer n l kv)
        (λ n'. naive_each_layer naive_ingest_layer n' (l + 1) rest) (ingest_layer (plain n) l kv)
        (λ m'. each_layer ingest_layer m' (l + 1) rest) (naive_ingest_layer-lift n l kv)
        (λ n'. naive_each_layer-lift n' (l + 1) rest)

  pub naive_set_total-lift :
      (n : NaiveManager T) (legacy : List (List T))
      → lift (naive_set_total legacy n) ≡ set_total legacy (plain n)
  naive_set_total-lift n [] = refl
  naive_set_total-lift n (kv ∷ rest) = refl

  -- `ingest_step` does what that of `KVCacheManager` does.
  pub naive_ingest-lift :
      (n : NaiveManager T) (legacy : List (List T))
      → lift (naive_ingest n legacy) ≡ ingest_step (plain n) legacy
  unfolding naive_ingest ingest_step
  naive_ingest-lift n legacy =
      lift_then (naive_each_layer naive_ingest_layer n 0 legacy) (λ n'. naive_set_total legacy n')
        (each_layer ingest_layer (plain n) 0 legacy) (λ m'. set_total legacy m')
        (naive_each_layer-lift n 0 legacy) (λ n'. naive_set_total-lift n' legacy)

  promote_from_dram-plain :
      (n : NaiveManager T) (i : ℕ) (d : Tensor T)
      → (n.heap i).dram_data ≡ some d
      → (n.heap i).tier ≡ dram
      → plain (naive_promoted n i d) ≡ promote_from_dram (plain n) i
  unfolding promote_from_dram
  promote_from_dram-plain n i d held t = ground arith

  -- A block that holds a tensor is fetched, as `KVCacheManager` fetches it.
  pub naive_fetch_lem :
      (n : NaiveManager T) (i : ℕ)
      → IsResident (plain n) i
      → (g : NaiveManager T) × (naive_fetch n i ≡ ok g) × (plain g ≡ fetch (plain n) i)
  unfolding naive_fetch promote_block
  naive_fetch_lem n i r = elim (tier_cases (n.heap i).tier) [
    | inl t ↦ (n, rw t refl, rw t refl)
    | inr (inl t) ↦
        let held : (n.heap i).dram_data ≡ some r.tensor = ground (arith, r.held) in
        (
          naive_promoted n i r.tensor,
          rw (t, held) refl,
          rw t (promote_from_dram-plain n i r.tensor held t),
        )
    | inr (inr t) ↦ absurd (ground (arith, r.held))
  ]
