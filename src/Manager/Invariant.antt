-- ===== src/Manager/Invariant.antt =====
-- What a `KVCacheManager` holds, seen without its tiers, the invariant of its states, and the
-- relation between two states that hold the same tokens.
use orch_kv_cache.Prelude.{
  ℕ, ◌+◌, ◌≤◌, ◌<◌, ◌≡◌, refl, ◌∙◌, Option, none, some, List, [], ◌∷◌, ◌++◌, map, length, take,
  option_or, All, All-map,
}
use orch_kv_cache.Manager.{Tier, gpu, dram, ssd, Tensor, KvBlock, KvCacheManager}

-- Addresses in the order of their allocation, none below `b`.
abbrev pub IsAscending : ℕ → List ℕ → Type 0
IsAscending b [] = Unit
IsAscending b (i ∷ ids) = (b ≤ i) × IsAscending (i + 1) ids

module _ {ℓ} {T : Type ℓ} where
  abbrev pub stored_on : Tier → KvBlock T → (ℕ → Option (Tensor T)) → Option (Tensor T)
  stored_on gpu b files = b.gpu_data
  stored_on dram b files = b.dram_data
  stored_on ssd b files = elim b.ssd_path [ none ↦ none | some path ↦ files path ]

  -- The tensor of a block, read from the tier on which the block is.
  abbrev pub stored : KvCacheManager T → ℕ → Option (Tensor T)
  stored m i = stored_on (m.heap i).tier (m.heap i) m.files

  -- The tokens of a block: its first `token_count` slots.
  abbrev pub block_tokens : KvCacheManager T → ℕ → List T
  block_tokens m i = take (m.heap i).token_count (option_or (stored m i) [])

  abbrev pub layer_tokens : KvCacheManager T → List ℕ → List T
  layer_tokens m [] = []
  layer_tokens m (i ∷ ids) = block_tokens m i ++ layer_tokens m ids

  -- The abstract view of a manager: the tokens of each layer, in order.
  abbrev pub contents : KvCacheManager T → List (List T)
  contents m = map (layer_tokens m) m.blocks

  -- A block's file is its own.
  abbrev pub OwnPaths : KvCacheManager T → Type 0
  OwnPaths m = (i p : ℕ) → (m.heap i).ssd_path ≡ some p → p ≡ i

  -- The lists of `_blocks`, from layer `l` on, hold blocks of their own layer.
  abbrev pub IsOwned : (ℕ → KvBlock T) → ℕ → List (List ℕ) → Type 0
  IsOwned heap l [] = Unit
  IsOwned heap l (ids ∷ ls) = All (λ i. (heap i).layer ≡ l) ids × IsOwned heap (l + 1) ls

  -- The block at `i` holds a whole tensor where its tier says, with room for its tokens.
  pub record IsResident (m : KvCacheManager T) (i : ℕ) : Type ℓ where
    pub tensor : Tensor T
    pub held : stored m i ≡ some tensor
    pub sized : length tensor ≡ m.block_size
    pub fits : (m.heap i).token_count ≤ m.block_size
    pub capacity : (m.heap i).capacity ≡ m.block_size

  pub record IsValid (m : KvCacheManager T) : Type ℓ where
    pub own_paths : OwnPaths m
    pub resident : (i : ℕ) → i < m.next_block_id → IsResident m i
    pub listed : All (All (λ i. i < m.next_block_id)) m.blocks
    pub ascending : All (IsAscending 0) m.blocks
    pub owned : IsOwned m.heap 0 m.blocks

  -- `n` holds what `m` holds, perhaps on other tiers.
  pub record Keeps (m n : KvCacheManager T) : Type ℓ where
    pub config : n.config ≡ m.config
    pub blocks : n.blocks ≡ m.blocks
    pub next : n.next_block_id ≡ m.next_block_id
    pub stored : (i : ℕ) → stored n i ≡ stored m i
    pub layer : (i : ℕ) → (n.heap i).layer ≡ (m.heap i).layer
    pub token_count : (i : ℕ) → (n.heap i).token_count ≡ (m.heap i).token_count
    pub capacity : (i : ℕ) → (n.heap i).capacity ≡ (m.heap i).capacity
    pub is_sink : (i : ℕ) → (n.heap i).is_sink ≡ (m.heap i).is_sink
    pub own_paths : OwnPaths m → OwnPaths n

  pub Keeps-refl : (m : KvCacheManager T) → Keeps m m
  Keeps-refl m = record {
    config = refl;
    blocks = refl;
    next = refl;
    stored = λ i. refl;
    layer = λ i. refl;
    token_count = λ i. refl;
    capacity = λ i. refl;
    is_sink = λ i. refl;
    own_paths = λ h. h;
  }

  pub Keeps-trans : {a b c : KvCacheManager T} → Keeps a b → Keeps b c → Keeps a c
  Keeps-trans p q = record {
    config = q.config ∙ p.config;
    blocks = q.blocks ∙ p.blocks;
    next = q.next ∙ p.next;
    stored = λ i. q.stored i ∙ p.stored i;
    layer = λ i. q.layer i ∙ p.layer i;
    token_count = λ i. q.token_count i ∙ p.token_count i;
    capacity = λ i. q.capacity i ∙ p.capacity i;
    is_sink = λ i. q.is_sink i ∙ p.is_sink i;
    own_paths = λ h. q.own_paths (p.own_paths h);
  }

  pub IsOwned-agree :
      (h h' : ℕ → KvBlock T) (l : ℕ) (ls : List (List ℕ))
      → ((i : ℕ) → (h' i).layer ≡ (h i).layer)
      → IsOwned h l ls
      → IsOwned h' l ls
  IsOwned-agree h h' l [] same o = tt
  IsOwned-agree h h' l (ids ∷ ls) same o =
      (All-map (λ i e. same i ∙ e) ids o.0, IsOwned-agree h h' (l + 1) ls same o.1)

  pub Keeps-IsValid : {m n : KvCacheManager T} → Keeps m n → IsValid m → IsValid n
  Keeps-IsValid {m} {n} k v = record {
    own_paths = k.own_paths v.own_paths;
    resident = λ i h.
        let r = v.resident i (rw k.next at h) in
        record {
          tensor = r.tensor;
          held = k.stored i ∙ r.held;
          sized = rw k.config r.sized;
          fits = rw (k.config, k.token_count i) r.fits;
          capacity = rw (k.config, k.capacity i) r.capacity;
        };
    listed = rw (k.blocks, k.next) v.listed;
    ascending = rw k.blocks v.ascending;
    owned = rw k.blocks (IsOwned-agree m.heap n.heap 0 m.blocks k.layer v.owned);
  }

  pub Keeps-layer_tokens :
      {m n : KvCacheManager T}
      → Keeps m n
      → (ids : List ℕ) → layer_tokens n ids ≡ layer_tokens m ids
  Keeps-layer_tokens k [] = refl
  Keeps-layer_tokens k (i ∷ ids) = rw (k.stored i, k.token_count i, Keeps-layer_tokens k ids)

  pub map-layer_tokens :
      {m n : KvCacheManager T}
      → Keeps m n
      → (ls : List (List ℕ)) → map (layer_tokens n) ls ≡ map (layer_tokens m) ls
  map-layer_tokens k [] = refl
  map-layer_tokens k (ids ∷ ls) = rw (Keeps-layer_tokens k ids, map-layer_tokens k ls)

  pub Keeps-contents : {m n : KvCacheManager T} → Keeps m n → contents n ≡ contents m
  Keeps-contents {m} k = rw k.blocks (map-layer_tokens k m.blocks)
