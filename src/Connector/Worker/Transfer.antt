-- ===== src/Connector/Worker/Transfer.antt =====
-- Blocks that are saved, and loaded later: the round trip through host memory.
use orch_kv_cache.Prelude.{
  ℕ, suc, ◌≡◌, refl, ap, true, false, some, List, [], ◌∷◌, length, get_elem?,
}
use orch_kv_cache.Prelude.Dict.{Key, nat_key, pair_key}
use orch_kv_cache.Fifo.{is_in}
use orch_kv_cache.Connector.Worker.{Worker, Load}

module _ {ℓ} {B : Type ℓ} where
  -- The cache `after` has the blocks `ids` of `kv_layer`, and the others of `before`.
  pub record IsLoaded (kv_layer before after : List B) (ids : List ℕ) : Type ℓ where
    pub inside : (b : ℕ) → is_in b ids ≡ true → get_elem? after b ≡ get_elem? kv_layer b
    pub outside : (b : ℕ) → is_in b ids ≡ false → get_elem? after b ≡ get_elem? before b

module _ {ℓ} {K B : Type ℓ} ⦃key : Key K⦄ where
  -- The copies that a load of the blocks `ids` queues.
  data Asks (host : ℕ → B) (layer : K) (kv_layer : List B) : List ℕ → List (Load K) → Type ℓ where
    nothing : Asks host layer kv_layer [] []
    ask :
        (b : ℕ) (c : Load K) {ids : List ℕ} {cs : List (Load K)}
        → c.layer ≡ layer
        → c.block ≡ b
        → get_elem? kv_layer b ≡ some (host c.buffer)
        → Asks host layer kv_layer ids cs
        → Asks host layer kv_layer (b ∷ ids) (c ∷ cs)

  length-copies :
      (host : ℕ → B) (layer : K) (kv_layer : List B) {ids : List ℕ} {cs : List (Load K)}
      → Asks host layer kv_layer ids cs
      → length cs ≡ length ids
  length-copies host layer kv_layer nothing = refl
  length-copies host layer kv_layer (ask b c _ _ _ asks) =
      ap suc (length-copies host layer kv_layer asks)
