-- ===== src/Manager/Ingest/Prefill.antt =====
-- `ingest_step` takes a whole `past_key_values` in.
use orch_kv_cache.Prelude.{
  ℕ, zero, suc, ◌+◌, ◌-◌, ◌≤◌, ◌<◌, ◌≡◌, refl, sym, ap, ◌∙◌, some, List, [], ◌∷◌, ◌++◌, map, arith,
  length, take, drop, get_elem?, set, All, All-map, Bool-cases, inl, inr, ok, min, replicate,
  length-take, length-drop, length-append, length-replicate, take-append_of_length,
  take_of_length-le, ltb, leb, leb→le, pos→nonzero, ltb_false→le,
}
use mathlib.Core.List.{append-nil}
use orch_kv_cache.Prelude.Slices.{slice, assign_first, take_add, take-min}
use orch_kv_cache.Manager.{KvCacheManager, alloc_block}
use orch_kv_cache.Manager.Invariant.{layer_tokens, block_tokens, contents, IsValid, IsResident}
use orch_kv_cache.Manager.Ingest.{ingest_block, ingest_from, ingest_layer, managed}
use orch_kv_cache.Manager.Ingest.Grow.{grown, Grown-Grown, set-set, All-get}

module _ {ℓ} {T : Type ℓ} where
  -- What holds once layer `l` has got its tokens up to the one at `pos`.
  pub record Ingested (m g : KvCacheManager T) (l : ℕ) (tokens : List T) : Type ℓ where
    pub valid : IsValid g
    pub config : g.config ≡ m.config
    pub ids : List ℕ
    pub found : get_elem? g.blocks l ≡ some ids
    pub layer : layer_tokens g ids ≡ tokens
    pub view : contents g ≡ set (contents m) l tokens

  module _ (m : KvCacheManager T) (kv : List T) (pos : ℕ) where
    abbrev stop : ℕ
    stop = min (pos + m.block_size) (length kv)

    -- The tensor of a fresh block: the tokens from `pos` on, as many as there are and fit.
    abbrev fresh : List T
    fresh = slice pos stop kv ++ replicate (m.block_size - (stop - pos)) m.zeros

    length-slice : length (slice pos stop kv) ≡ stop - pos
    length-slice = omega (arith, length-take (stop - pos) (drop pos kv), length-drop pos kv)

    length-fresh : length fresh ≡ m.block_size
    length-fresh = omega (
      arith,
      length-slice,
      length-append (slice pos stop kv) (replicate (m.block_size - (stop - pos)) m.zeros),
      length-replicate (m.block_size - (stop - pos)) m.zeros,
    )

    take-fresh : take (stop - pos) fresh ≡ take m.block_size (drop pos kv)
    take-fresh =
        take-append_of_length (slice pos stop kv) _ (stop - pos) length-slice
        ∙ take-min m.block_size (stop - pos) (drop pos kv) (omega (arith, length-drop pos kv))

  ingest_block_lem :
      (m : KvCacheManager T) (l : ℕ) (kv : List T) (pos : ℕ) (ids : List ℕ)
      → IsValid m
      → get_elem? m.blocks l ≡ some ids
      → layer_tokens m ids ≡ take pos kv
      → (g : KvCacheManager T) × (ingest_block m l kv pos ≡ ok g)
        × Ingested m g l (take (pos + m.block_size) kv)
  unfolding ingest_block alloc_block
  ingest_block_lem m l kv pos ids v found held =
      let n = stop m kv pos - pos in
      let r =
        Grown-Grown m l pos n ids (fresh m kv pos) v found (length-fresh m kv pos) (omega arith) in
      let tokens =
        r.layer ∙ rw (held, take-fresh m kv pos, take_add pos m.block_size _ kv refl) refl in
      (
        grown m l ids pos n (fresh m kv pos),
        rw (found, assign_first _ n m.block_size m.zeros (length-slice m kv pos) (omega arith))
            refl,
        record {
          valid = r.valid;
          config = r.config;
          ids = ids ++ m.next_block_id ∷ [];
          found = r.found;
          layer = tokens;
          view = r.view ∙ rw tokens refl;
        },
      )

  map-set_same :
      (f : List ℕ → List T) (ls : List (List ℕ)) (l : ℕ) {ids : List ℕ}
      → get_elem? ls l ≡ some ids
      → map f ls ≡ set (map f ls) l (f ids)
  map-set_same f [] l e = refl
  map-set_same f (js ∷ ls) zero e = ground arith
  map-set_same f (js ∷ ls) (suc l) e = ap (◌∷◌ (f js)) (map-set_same f ls l e)

  pub Ingested-self :
      (m : KvCacheManager T) (l : ℕ) (ids : List ℕ) (tokens : List T)
      → IsValid m
      → get_elem? m.blocks l ≡ some ids
      → layer_tokens m ids ≡ tokens
      → Ingested m m l tokens
  Ingested-self m l ids tokens v found e = record {
    valid = v;
    config = refl;
    ids = ids;
    found = found;
    layer = e;
    view = map-set_same (layer_tokens m) m.blocks l found ∙ rw e refl;
  }

  pub Ingested-trans :
      {m g k : KvCacheManager T} (l : ℕ) {t u : List T}
      → Ingested m g l t
      → Ingested g k l u
      → Ingested m k l u
  Ingested-trans {m} l {t} {u} p q = record {
    valid = q.valid;
    config = q.config ∙ p.config;
    ids = q.ids;
    found = q.found;
    layer = q.layer;
    view = q.view ∙ rw p.view (set-set (contents m) l t u);
  }

  -- Enough rounds bring the whole sequence in.
  ingest_from_lem :
      (fuel : ℕ) (m : KvCacheManager T) (l : ℕ) (kv : List T) (pos : ℕ) (ids : List ℕ)
      → IsValid m
      → get_elem? m.blocks l ≡ some ids
      → layer_tokens m ids ≡ take pos kv
      → 0 < m.block_size
      → length kv ≤ pos + fuel
      → (g : KvCacheManager T) × (ingest_from fuel m l kv pos ≡ ok g) × Ingested m g l kv
  unfolding ingest_from
  ingest_from_lem zero m l kv pos ids v found held some_size enough =
      let all = take_of_length-le pos kv (omega arith) in
      (m, refl, Ingested-self m l ids kv v found (held ∙ all))
  ingest_from_lem (suc fuel) m l kv pos ids v found held some_size enough =
      elim (Bool-cases (ltb pos (length kv))) [
        | inl e ↦
            let (g, stepped, p) = ingest_block_lem m l kv pos ids v found held in
            let (k, rest, q) =
              ingest_from_lem fuel g l kv (pos + m.block_size) p.ids p.valid p.found p.layer
                (rw p.config some_size) (omega arith) in
            (k, rw (e, stepped) rest, Ingested-trans l p q)
        | inr e ↦
            let all = take_of_length-le pos kv (ltb_false→le pos (length kv) e) in
            (m, rw e refl, Ingested-self m l ids kv v found (held ∙ all))
      ]

  length-block_tokens :
      (m : KvCacheManager T) (i : ℕ)
      → IsResident m i
      → length (block_tokens m i) ≡ (m.heap i).token_count
  length-block_tokens m i r =
      rw r.held (omega (arith, length-take (m.heap i).token_count r.tensor, r.sized, r.fits))

  nil_of_length : (xs : List T) → length xs ≤ 0 → xs ≡ []
  nil_of_length [] h = refl
  nil_of_length (x ∷ xs) h = absurd (omega arith)

  -- The managed tokens of a layer are as many as the view shows.
  pub length-layer_tokens :
      (m : KvCacheManager T) (ids : List ℕ)
      → All (IsResident m) ids
      → length (layer_tokens m ids) ≡ managed m ids
  length-layer_tokens m [] h = refl
  length-layer_tokens m (i ∷ ids) h = omega (
    arith,
    length-append (block_tokens m i) (layer_tokens m ids),
    length-block_tokens m i h.0,
    length-layer_tokens m ids h.1,
  )

  pub listed-IsResident :
      (m : KvCacheManager T) (l : ℕ) (ids : List ℕ)
      → IsValid m
      → get_elem? m.blocks l ≡ some ids
      → All (IsResident m) ids
  listed-IsResident m l ids v found =
      All-map (λ i h. v.resident i h) ids
        (All-get (All (λ i. i < m.next_block_id)) m.blocks l v.listed found)

  -- A layer that extends what is managed is taken in.
  pub ingest_layer_lem :
      (m : KvCacheManager T) (l : ℕ) (new : List T) (ids : List ℕ)
      → IsValid m
      → get_elem? m.blocks l ≡ some ids
      → 0 < m.block_size
      → (g : KvCacheManager T) × (ingest_layer m l (layer_tokens m ids ++ new) ≡ ok g)
        × Ingested m g l (layer_tokens m ids ++ new)
  unfolding ingest_layer
  ingest_layer_lem m l new ids v found some_size =
      let kv = layer_tokens m ids ++ new in
      let size = length-layer_tokens m ids (listed-IsResident m l ids v found) in
      elim (Bool-cases (leb (length kv) (managed m ids))) [
        | inl e ↦
            let none_new = nil_of_length new (
              omega (
                arith,
                leb→le (length kv) (managed m ids) e,
                size,
                length-append (layer_tokens m ids) new,
              )) in
            (
              m,
              rw (found, e) refl,
              Ingested-self m l ids kv v found (rw (none_new, append-nil) refl),
            )
        | inr e ↦
            let (g, done, p) =
              ingest_from_lem (length kv) m l kv (managed m ids) ids v found
                (sym (take-append_of_length (layer_tokens m ids) new (managed m ids) size))
                some_size (omega arith) in
            (g, rw (found, e, pos→nonzero m.block_size some_size) done, p)
      ]
