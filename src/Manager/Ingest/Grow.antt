-- ===== src/Manager/Ingest/Grow.antt =====
-- A layer grows by a fresh block: what the manager holds afterwards.
use orch_kv_cache.Prelude.{
  ℕ, zero, suc, ◌+◌, ◌≤◌, ◌<◌, ◌==◌, ◌≡◌, refl, ap, ◌∙◌, some, List, [], ◌∷◌, ◌++◌, map, arith,
  length, take, get_elem?, get_elem?-set, set, All, All-append, All-map, Bool-cases, inl, inr,
}
use mathlib.Core.List.{append-nil, append_assoc}
use orch_kv_cache.Manager.{Tensor, KvBlock, KvCacheManager, allocated}
use orch_kv_cache.Manager.Invariant.{
  block_tokens, layer_tokens, contents, OwnPaths, IsAscending, IsOwned, IsResident, IsValid,
}
use orch_kv_cache.Manager.Ingest.{fill_block}

module _ {ℓ} {A : Type ℓ} where
  pub All-set {κ} :
      (P : A → Type κ) (xs : List A) (i : ℕ) (x : A) → All P xs → P x → All P (set xs i x)
  All-set P [] i x h hx = tt
  All-set P (y ∷ xs) zero x h hx = (hx, h.1)
  All-set P (y ∷ xs) (suc i) x h hx = (h.0, All-set P xs i x h.1 hx)

  pub All-get {κ} :
      (P : A → Type κ) (xs : List A) (i : ℕ) {x : A} → All P xs → get_elem? xs i ≡ some x → P x
  All-get P [] i h e = cc
  All-get P (y ∷ xs) zero h e = ground arith
  All-get P (y ∷ xs) (suc i) h e = All-get P xs i h.1 e

  pub set-set : (xs : List A) (i : ℕ) (x y : A) → set (set xs i x) i y ≡ set xs i y
  set-set [] i x y = refl
  set-set (z ∷ xs) zero x y = refl
  set-set (z ∷ xs) (suc i) x y = ap (◌∷◌ z) (set-set xs i x y)

IsAscending-snoc :
    (b : ℕ) (ids : List ℕ) (i : ℕ)
    → b ≤ i
    → IsAscending b ids
    → All (λ j. j < i) ids
    → IsAscending b (ids ++ i ∷ [])
IsAscending-snoc b [] i h a below = (h, tt)
IsAscending-snoc b (j ∷ ids) i h a below =
    (a.0, IsAscending-snoc (j + 1) ids i (omega arith) a.1 below.1)

module _ {ℓ} {T : Type ℓ} where
  module _ (heap heap' : ℕ → KvBlock T) (n : ℕ)
      (same : (i : ℕ) → i < n → (heap' i).layer ≡ (heap i).layer) where
    -- The owners of blocks below the address of a fresh one.
    owned_old :
        (l : ℕ) (ids : List ℕ)
        → All (λ i. (heap i).layer ≡ l) ids
        → All (λ i. i < n) ids
        → All (λ i. (heap' i).layer ≡ l) ids
    owned_old l [] o h = tt
    owned_old l (i ∷ ids) o h = (same i h.0 ∙ o.0, owned_old l ids o.1 h.1)

    IsOwned-old :
        (l : ℕ) (ls : List (List ℕ))
        → IsOwned heap l ls
        → All (All (λ i. i < n)) ls
        → IsOwned heap' l ls
    IsOwned-old l [] o h = tt
    IsOwned-old l (ids ∷ ls) o h = (owned_old l ids o.0 h.0, IsOwned-old (l + 1) ls o.1 h.1)

    -- A fresh block of layer `a + l` stands in the list of that layer.
    IsOwned-grown :
        (a l : ℕ) (ls : List (List ℕ)) (ids : List ℕ)
        → get_elem? ls l ≡ some ids
        → IsOwned heap a ls
        → All (All (λ i. i < n)) ls
        → (heap' n).layer ≡ a + l
        → IsOwned heap' a (set ls l (ids ++ n ∷ []))
    IsOwned-grown a l [] ids found o h e = tt
    IsOwned-grown a zero (js ∷ ls) ids found o h e =
        let same_ids : js ≡ ids = cc in
        (
          All-append _ ids _ (rw same_ids at (owned_old a js o.0 h.0)) (omega arith, tt),
          IsOwned-old (a + 1) ls o.1 h.1,
        )
    IsOwned-grown a (suc l) (js ∷ ls) ids found o h e =
        (owned_old a js o.0 h.0, IsOwned-grown (a + 1) l ls ids found o.1 h.1 (omega arith))

module _ {ℓ} {T : Type ℓ} where
  -- The view of a layer none of whose blocks has changed.
  pub layer_tokens_agree :
      (m n : KvCacheManager T) (b : ℕ) (ids : List ℕ)
      → ((i : ℕ) → i < b → block_tokens n i ≡ block_tokens m i)
      → All (λ i. i < b) ids
      → layer_tokens n ids ≡ layer_tokens m ids
  layer_tokens_agree m n b [] same h = refl
  layer_tokens_agree m n b (i ∷ ids) same h = rw (same i h.0, layer_tokens_agree m n b ids same h.1)

  -- The view of all layers, of which one has got a new list of blocks.
  pub contents_agree :
      (m n : KvCacheManager T) (b : ℕ) (ls : List (List ℕ)) (l : ℕ) (ids : List ℕ)
      → ((i : ℕ) → i < b → block_tokens n i ≡ block_tokens m i)
      → All (All (λ i. i < b)) ls
      → map (layer_tokens n) (set ls l ids) ≡ set (map (layer_tokens m) ls) l (layer_tokens n ids)
  contents_agree m n b [] l ids same h = refl
  contents_agree m n b (js ∷ ls) zero ids same h = ap (◌∷◌ (layer_tokens n ids)) (rest ls h.1)
    where
      rest :
          (ks : List (List ℕ))
          → All (All (λ i. i < b)) ks
          → map (layer_tokens n) ks ≡ map (layer_tokens m) ks
      rest [] h = refl
      rest (k ∷ ks) h = rw (layer_tokens_agree m n b k same h.0, rest ks h.1)
  contents_agree m n b (js ∷ ls) (suc l) ids same h =
      rw (layer_tokens_agree m n b js same h.0, contents_agree m n b ls l ids same h.1)

  pub layer_tokens-append :
      (m : KvCacheManager T) (ids js : List ℕ)
      → layer_tokens m (ids ++ js) ≡ layer_tokens m ids ++ layer_tokens m js
  layer_tokens-append m [] js = refl
  layer_tokens-append m (i ∷ ids) js = rw (layer_tokens-append m ids js, append_assoc)

  -- The manager after a fresh block of layer `l` has got `n` tokens.
  abbrev pub grown : KvCacheManager T → ℕ → List ℕ → ℕ → ℕ → Tensor T → KvCacheManager T
  grown m l ids start n tensor = fill_block (allocated m l ids start) m.next_block_id n tensor

  pub record Grown (m g : KvCacheManager T) (l : ℕ) (old ids : List ℕ) (new : List T) : Type ℓ where
    pub valid : IsValid g
    pub config : g.config ≡ m.config
    pub found : get_elem? g.blocks l ≡ some ids
    pub layer : layer_tokens g ids ≡ layer_tokens m old ++ new
    pub view : contents g ≡ set (contents m) l (layer_tokens g ids)

  module _ (m : KvCacheManager T) (l start n : ℕ) (ids : List ℕ) (tensor : Tensor T) (v : IsValid m)
      (found : get_elem? m.blocks l ≡ some ids) (sized : length tensor ≡ m.block_size)
      (fits : n ≤ m.block_size) where
    abbrev g : KvCacheManager T
    g = grown m l ids start n tensor

    grown-old : (i : ℕ) → i < m.next_block_id → block_tokens g i ≡ block_tokens m i
    grown-old i h = ground arith

    grown-new : block_tokens g m.next_block_id ≡ take n tensor
    grown-new = ground arith

    grown-IsResident : (i : ℕ) → i < m.next_block_id + 1 → IsResident g i
    grown-IsResident i h = elim (Bool-cases (m.next_block_id == i)) [
      | inl e ↦ record {
        tensor = tensor;
        held = ground arith;
        sized = sized;
        fits = ground arith;
        capacity = ground arith;
      }
      | inr e ↦
          let r = v.resident i (ground arith) in
          record {
            tensor = r.tensor;
            held = ground (arith, r.held);
            sized = r.sized;
            fits = ground (arith, r.fits);
            capacity = ground (arith, r.capacity);
          }
    ]

    grown-OwnPaths : OwnPaths g
    grown-OwnPaths i p h = elim (Bool-cases (m.next_block_id == i)) [
      | inl e ↦ ground arith
      | inr e ↦ v.own_paths i p (ground arith)
    ]

    below_next :
        (js : List ℕ) → All (λ i. i < m.next_block_id) js → All (λ i. i < m.next_block_id + 1) js
    below_next js h = All-map (λ i lt. omega arith) js h

    grown-listed :
        All (All (λ i. i < m.next_block_id + 1)) (set m.blocks l (ids ++ m.next_block_id ∷ []))
    grown-listed = All-set _ m.blocks l _ (All-map below_next m.blocks v.listed) (
        All-append _ ids _ (below_next ids (All-get _ m.blocks l v.listed found)) (omega arith, tt))

    grown-IsAscending : All (IsAscending 0) (set m.blocks l (ids ++ m.next_block_id ∷ []))
    grown-IsAscending = All-set _ m.blocks l _ v.ascending (
        IsAscending-snoc 0 ids m.next_block_id (omega arith)
          (All-get _ m.blocks l v.ascending found) (All-get _ m.blocks l v.listed found))

    same_layer : (i : ℕ) → i < m.next_block_id → (g.heap i).layer ≡ (m.heap i).layer
    same_layer i h = ground arith

    new_layer : (g.heap m.next_block_id).layer ≡ 0 + l
    new_layer = ground arith

    -- The grown manager is valid, the layer holds the new tokens behind the old ones, and the
    -- other layers hold what they held.
    pub Grown-Grown : Grown m g l ids (ids ++ m.next_block_id ∷ []) (take n tensor)
    Grown-Grown =
        let old = All-get (All (λ i. i < m.next_block_id)) m.blocks l v.listed found in
        record {
          valid = record {
            own_paths = grown-OwnPaths;
            resident = grown-IsResident;
            listed = grown-listed;
            ascending = grown-IsAscending;
            owned =
                IsOwned-grown m.heap g.heap m.next_block_id same_layer 0 l m.blocks ids found
                  v.owned v.listed new_layer;
          };
          config = refl;
          found = get_elem?-set m.blocks l _ found;
          layer =
              rw
                (
                  layer_tokens-append g ids _,
                  layer_tokens_agree m g m.next_block_id ids grown-old old,
                  grown-new,
                  append-nil,
                )
                refl;
          view = contents_agree m g m.next_block_id m.blocks l _ grown-old v.listed;
        }
