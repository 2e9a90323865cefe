-- ===== src/Manager/Ingest/Steps.antt =====
-- The whole methods: every layer of a `past_key_values` is taken in.
use orch_kv_cache.Prelude.{
  ℕ, ◌+◌, ◌<◌, ◌≡◌, refl, sym, ap, ◌∙◌, some, List, [], ◌∷◌, ◌++◌, map, arith, length,
  length-append, get_elem?, set, Result, ok,
}
use mathlib.Core.List.{append_assoc}
use orch_kv_cache.Manager.{KvCacheManager}
use orch_kv_cache.Manager.Invariant.{layer_tokens, contents, IsValid, Keeps, Keeps-IsValid}
use orch_kv_cache.Manager.Ingest.{ingest_layer, append_layer, each_layer, ingest_step, append_token}
use orch_kv_cache.Manager.Ingest.Prefill.{Ingested, ingest_layer_lem}
use orch_kv_cache.Manager.Ingest.Append.{append_layer_lem}

module _ {ℓ} {A : Type ℓ} where
  pub set_middle : (xs ys : List A) (x y : A) → set (xs ++ x ∷ ys) (length xs) y ≡ xs ++ y ∷ ys
  set_middle [] ys x y = refl
  set_middle (z ∷ xs) ys x y = ap (◌∷◌ z) (set_middle xs ys x y)

  pub preimage {κ} :
      {B : Type κ} (f : B → A) (bs : List B) (xs ys : List A) (x : A)
      → map f bs ≡ xs ++ x ∷ ys
      → (b : B) × (get_elem? bs (length xs) ≡ some b) × (f b ≡ x)
  preimage f [] [] ys x e = cc
  preimage f [] (z ∷ xs) ys x e = cc
  preimage f (b ∷ bs) [] ys x e = (b, refl, ground arith)
  preimage f (b ∷ bs) (z ∷ xs) ys x e = preimage f bs xs ys x (ground arith)

module _ {ℓ} {T : Type ℓ} where
  -- Every layer of `legacy` is what was there before and then tokens that satisfy `P`.
  pub data Extends (P : List T → Type 0) : List (List T) → List (List T) → Type ℓ where
    no_layer : Extends P [] []
    layer :
        {x y : List T} {xs ys : List (List T)} (new : List T)
        → y ≡ x ++ new
        → P new
        → Extends P xs ys
        → Extends P (x ∷ xs) (y ∷ ys)

  module _ (P : List T → Type 0) (body : KvCacheManager T → ℕ → List T → Result (KvCacheManager T))
      (takes_in : (m : KvCacheManager T) (l : ℕ) (new : List T) (ids : List ℕ)
        → IsValid m
        → get_elem? m.blocks l ≡ some ids
        → 0 < m.block_size
        → P new
        → (g : KvCacheManager T) × (body m l (layer_tokens m ids ++ new) ≡ ok g)
          × Ingested m g l (layer_tokens m ids ++ new)) where
    each_layer_lem :
        (m : KvCacheManager T) (l : ℕ) (done : List (List T)) {old rest : List (List T)}
        → IsValid m
        → 0 < m.block_size
        → contents m ≡ done ++ old
        → l ≡ length done
        → Extends P old rest
        → (g : KvCacheManager T) × (each_layer body m l rest ≡ ok g)
          × IsValid g
          × (g.config ≡ m.config)
          × (contents g ≡ done ++ rest)
    each_layer_lem m l done v b view el no_layer = (m, refl, v, refl, view)
    each_layer_lem m l done v b view el (layer {x = x} {y = y} {xs = xs} {ys = ys} new e p rest) =
        let (ids, found, held) = preimage (layer_tokens m) m.blocks done xs x view in
        let (g, stepped, q) = takes_in m l new ids v (rw el found) b p in
        let ext : layer_tokens m ids ++ new ≡ y = rw (held, e) refl in
        let now : contents g ≡ done ++ y ∷ xs =
          q.view ∙ rw (ext, view, el) (set_middle done xs x y) in
        let (k, more, vk, ck, viewk) =
          each_layer_lem g (l + 1) (done ++ y ∷ []) q.valid (rw q.config b)
            (now ∙ sym (append_assoc done (y ∷ []) xs))
            (omega (arith, el, length-append done (y ∷ []))) rest in
        (k, rw (rw ext at stepped) more, vk, ck ∙ q.config, viewk ∙ append_assoc done (y ∷ []) ys)

  pub set_total-Keeps : (m : KvCacheManager T) (n : ℕ) → Keeps m (record m { total_tokens = n })
  set_total-Keeps m n = record {
    config = refl;
    blocks = refl;
    next = refl;
    stored = λ i. refl;
    layer = λ i. refl;
    token_count = λ i. refl;
    capacity = λ i. refl;
    is_sink = λ i. refl;
    own_paths = λ h. h;
  }

  pub single : (new : List T) → length new ≡ 1 → (t : T) × (new ≡ t ∷ [])
  single [] e = absurd (omega arith)
  single (t ∷ []) e = (t, refl)
  single (t ∷ u ∷ new) e = absurd (omega arith)

  append_takes_in :
      (m : KvCacheManager T) (l : ℕ) (new : List T) (ids : List ℕ)
      → IsValid m
      → get_elem? m.blocks l ≡ some ids
      → 0 < m.block_size
      → length new ≡ 1
      → (g : KvCacheManager T) × (append_layer m l (layer_tokens m ids ++ new) ≡ ok g)
        × Ingested m g l (layer_tokens m ids ++ new)
  append_takes_in m l new ids v found b one =
      let (t, e) = single new one in rw e (append_layer_lem m l t ids v found b)

  -- From a valid manager with at least one layer, `ingest_step` of key and value tensors that
  -- extend what each layer holds does not raise; the manager stays valid, its
  -- configuration stays, and then it holds exactly these tensors.
  pub ingest_step_lossless :
      (m : KvCacheManager T) (kv : List T) (rest : List (List T))
      → IsValid m
      → 0 < m.block_size
      → Extends (λ new. Unit) (contents m) (kv ∷ rest)
      → (g : KvCacheManager T) × (ingest_step m (kv ∷ rest) ≡ ok g)
        × IsValid g
        × (g.config ≡ m.config)
        × (contents g ≡ kv ∷ rest)
  unfolding ingest_step
  ingest_step_lossless m kv rest v some_size ext =
      let (g, done, vg, cg, view) =
        each_layer_lem (λ new. Unit) ingest_layer
          (λ n l new ids w found b p. ingest_layer_lem n l new ids w found b) m 0 [] v some_size
          refl refl ext in
      (
        record g { total_tokens = length kv },
        rw done refl,
        Keeps-IsValid (set_total-Keeps g (length kv)) vg,
        cg,
        view,
      )

  -- From a valid manager with at least one layer, `append_token` of key and value tensors that hold
  -- one token more than each layer does not raise; the manager stays valid, its
  -- configuration stays, and then it holds exactly these tensors.
  pub append_token_lossless :
      (m : KvCacheManager T) (kv : List T) (rest : List (List T))
      → IsValid m
      → 0 < m.block_size
      → Extends (λ new. length new ≡ 1) (contents m) (kv ∷ rest)
      → (g : KvCacheManager T) × (append_token m (kv ∷ rest) ≡ ok g)
        × IsValid g
        × (g.config ≡ m.config)
        × (contents g ≡ kv ∷ rest)
  unfolding append_token
  append_token_lossless m kv rest v some_size ext =
      let (g, done, vg, cg, view) =
        each_layer_lem (λ new. length new ≡ 1) append_layer append_takes_in m 0 [] v some_size refl
          refl ext in
      (
        record g { total_tokens = length kv },
        rw done refl,
        Keeps-IsValid (set_total-Keeps g (length kv)) vg,
        cg,
        view,
      )
