-- ===== src/Naive/Build.antt =====
-- `build_past_kv` of `NaiveOffloadManager` returns the tokens of each layer.
use orch_kv_cache.Prelude.{
  ℕ, ◌+◌, ◌==◌, ◌≡◌, refl, sym, ap, ◌∙◌, inl, inr, List, [], ◌∷◌, map, arith, Bool-cases, Result,
  ok, err, type_error, ok_or, ◌>>=◌, take, replicate, All, All-map,
}
use mathlib.Core.Path.{subst}
use orch_kv_cache.Prelude.Slices.{assign}
use orch_kv_cache.Manager.{KvCacheManager}
use orch_kv_cache.Manager.Invariant.{
  layer_tokens, contents, IsResident, IsValid, Keeps, Keeps-refl, Keeps-trans, map-layer_tokens,
}
use orch_kv_cache.Manager.Build.{build_blocks, build_layer}
use orch_kv_cache.Manager.Build.Contents.{fetch-Keeps, Keeps-IsResident, build_layer_lem}
use orch_kv_cache.Naive.{
  NaiveManager, naive_count, naive_build_blocks, naive_build_layers, naive_build,
}
use orch_kv_cache.Naive.Plain.{plain}
use orch_kv_cache.Naive.Simulation.{naive_fetch_lem}

module _ {ℓ} {T : Type ℓ} where
  abbrev lift_pair : Result (NaiveManager T × List T) → Result (KvCacheManager T × List T)
  lift_pair (ok (n, out)) = ok (plain n, out)
  lift_pair (err e) = err e

  lift_pair-ok :
      (r : Result (NaiveManager T × List T)) (m : KvCacheManager T) (out : List T)
      → lift_pair r ≡ ok (m, out)
      → (n : NaiveManager T) × (r ≡ ok (n, out)) × (plain n ≡ m)
  lift_pair-ok (ok (n, row)) m out e =
      let same : row ≡ out = ground arith in (n, ap (λ o. ok (n, o)) same, ground arith)
  lift_pair-ok (err x) m out e = absurd (ground arith)

  lift_pair-bind {κ} :
      {A : Type κ} (r : Result A) (f : A → Result (NaiveManager T × List T))
      (g : A → Result (KvCacheManager T × List T))
      → ((a : A) → lift_pair (f a) ≡ g a)
      → lift_pair (r >>= f) ≡ (r >>= g)
  lift_pair-bind (ok a) f g h = h a
  lift_pair-bind (err e) f g h = refl

  -- The rest of a round, from the manager `m` in which the block is fetched.
  abbrev built_from :
      KvCacheManager T → ℕ → List ℕ → ℕ → List T → Result (KvCacheManager T × List T)
  built_from m i ids pos out = do
    tensor ← ok_or type_error (m.heap i).gpu_data
    let k = (m.heap i).token_count
    out' ← assign out pos k (take k tensor)
    build_blocks m ids (pos + k) out'

  naive_build_blocks-lift :
      (n : NaiveManager T) (ids : List ℕ) (pos : ℕ) (out : List T)
      → All (IsResident (plain n)) ids
      → lift_pair (naive_build_blocks n ids pos out) ≡ build_blocks (plain n) ids pos out
  unfolding naive_build_blocks build_blocks
  naive_build_blocks-lift n [] pos out h = refl
  naive_build_blocks-lift n (i ∷ ids) pos out h = elim (Bool-cases ((n.heap i).token_count == 0)) [
    | inl e ↦ rw (e, naive_build_blocks, build_blocks) (naive_build_blocks-lift n ids pos out h.1)
    | inr e ↦
        let (g, fetched, same) = naive_fetch_lem n i h.0 in
        let f : Keeps (plain n) (plain g) =
          subst (Keeps (plain n)) (sym same) (fetch-Keeps (plain n) i) in
        let rest = All-map (λ j. Keeps-IsResident j f) ids h.1 in
        let step =
          lift_pair-bind (ok_or type_error (g.heap i).gpu_data)
            (λ tensor.
              (assign out pos (g.heap i).token_count (take (g.heap i).token_count tensor)
                >>= λ out'. naive_build_blocks g ids (pos + (g.heap i).token_count) out'))
            (λ tensor.
              (assign out pos (g.heap i).token_count (take (g.heap i).token_count tensor)
                >>= λ out'. build_blocks (plain g) ids (pos + (g.heap i).token_count) out'))
            (λ tensor.
              lift_pair-bind
                (assign out pos (g.heap i).token_count (take (g.heap i).token_count tensor)) _ _
                (λ out'. naive_build_blocks-lift g ids (pos + (g.heap i).token_count) out' rest)) in
        rw (e, naive_build_blocks, build_blocks)
          (rw fetched (step ∙ ap (λ m. built_from m i ids pos out) same))
  ]

  naive_build_layers-cons :
      (n g k : NaiveManager T) (ids : List ℕ) (ls : List (List ℕ)) (row : List T)
      (rows : List (List T))
      → naive_build_blocks n ids 0 (replicate (naive_count n ids) n.zeros) ≡ ok (g, row)
      → naive_build_layers g ls ≡ ok (k, rows)
      → naive_build_layers n (ids ∷ ls) ≡ ok (k, row ∷ rows)
  unfolding naive_build_layers
  naive_build_layers-cons n g k ids ls row rows first rest = rw (first, rest) refl

  naive_build_layers_lem :
      (n : NaiveManager T) (ls : List (List ℕ))
      → All (All (IsResident (plain n))) ls
      → (g : NaiveManager T) × (naive_build_layers n ls ≡ ok (g, map (layer_tokens (plain n)) ls))
        × Keeps (plain n) (plain g)
  unfolding naive_build_layers build_layer
  naive_build_layers_lem n [] h = (n, refl, Keeps-refl (plain n))
  naive_build_layers_lem n (ids ∷ ls) h =
      let out = replicate (naive_count n ids) n.zeros in
      let (m, first, k) = build_layer_lem (plain n) ids h.0 in
      let (g, done, same) =
        lift_pair-ok (naive_build_blocks n ids 0 out) m (layer_tokens (plain n) ids)
          (naive_build_blocks-lift n ids 0 out h.0 ∙ first) in
      let k' : Keeps (plain n) (plain g) = subst (Keeps (plain n)) (sym same) k in
      let (g', rest, k'') =
        naive_build_layers_lem g ls
          (All-map (λ js. All-map (λ j. Keeps-IsResident j k') js) ls h.1) in
      (
        g',
        naive_build_layers-cons n g g' ids ls (layer_tokens (plain n) ids)
            (map (layer_tokens (plain n)) ls) done
            (rest ∙ ap (λ rows. ok (g', rows)) (map-layer_tokens k' ls)),
        Keeps-trans k' k'',
      )

  -- On a valid manager `build_past_kv` does not raise, and it returns the tokens of every layer.
  pub naive_build_lem :
      (n : NaiveManager T)
      → IsValid (plain n)
      → (g : NaiveManager T) × (naive_build n ≡ ok (g, contents (plain n)))
        × Keeps (plain n) (plain g)
  unfolding naive_build
  naive_build_lem n v =
      naive_build_layers_lem n n.blocks
        (All-map (λ ids. All-map (λ i. v.resident i) ids) n.blocks v.listed)
