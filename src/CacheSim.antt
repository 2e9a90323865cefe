-- ===== src/CacheSim.antt =====
-- benchmarks/exp_competitive_ratio.py: the strategies that choose which block leaves the GPU.
--
-- A set that a step requests is the list of its blocks in the order in which Python goes through it. The
-- order of `gpu_set` is a parameter: a function of the set and of the promotions so far, so
-- that it may be another order each time. `n_blocks` is kept by the classes and read by none.
pub mod Ema
pub mod Victims
pub mod Belady
pub mod Strategies
pub mod Bounds
pub mod Spared
use orch_kv_cache.Prelude.{
  ℕ, zero, suc, ◌+◌, ◌-◌, ◌==◌, ◌&&◌, Bool, true, false, not, Option, none, some, List, [], ◌∷◌,
  ◌++◌, max, map, Result, ok, err, stop_iteration, index_error, ◌>>=◌, if◌then◌else◌, option_or,
  length, leb, ltb, keep, drop,
}
use orch_kv_cache.Prelude.Dict.{find, put, nat_key}
use orch_kv_cache.Prelude.Float.{Float}
use orch_kv_cache.Prelude.Sets.{contains, discard, add}

-- The fields of the base class.
pub record CacheSimulator : Type 0 where
  pub capacity : ℕ
  pub n_blocks : ℕ
  pub gpu_set : List ℕ
  pub evictions : ℕ
  pub promotions : ℕ

-- `__init__` of the base class.
unfoldable pub new_simulator : ℕ → ℕ → CacheSimulator
new_simulator capacity n_blocks = record {
  capacity = capacity;
  n_blocks = n_blocks;
  gpu_set = [];
  evictions = 0;
  promotions = 0;
}

-- `if victim is not None: self.gpu_set.discard(victim); self.evictions += 1`.
abbrev pub evict : CacheSimulator → Option ℕ → CacheSimulator
evict c none = c
evict c (some victim) = record c { gpu_set = discard victim c.gpu_set; evictions = c.evictions + 1 }

-- `self.gpu_set.add(bid); self.promotions += 1`.
abbrev pub promote : CacheSimulator → ℕ → CacheSimulator
promote c bid = record c { gpu_set = add bid c.gpu_set; promotions = c.promotions + 1 }

-- `len(self.gpu_set) >= self.capacity`.
abbrev pub is_full : CacheSimulator → Bool
is_full c = leb c.capacity (length c.gpu_set)

-- `for bid in self._order: if bid not in requested: return bid`.
abbrev pub first_other : List ℕ → List ℕ → Option ℕ
first_other requested [] = none
first_other requested (bid ∷ order) =
    let rest = first_other requested order in if contains bid requested then rest else some bid

abbrev pub head? : List ℕ → Option ℕ
head? [] = none
head? (bid ∷ order) = some bid

-- The first of all where none is found.
abbrev pub or_first : Option ℕ → List ℕ → Option ℕ
or_first none blocks = head? blocks
or_first (some bid) blocks = some bid

-- `_select_victim` of `FIFOCache`, and with an order that is not empty `_find_victim` of `LRUCache`.
unfoldable pub first_victim : List ℕ → List ℕ → Option ℕ
first_victim requested order = or_first (first_other requested order) order

-- `candidates.sort(); candidates[0]` of pairs: the least count, and of these the least block.
abbrev pub before : ℕ × ℕ → ℕ × ℕ → Bool
before a b = if ltb a.0 b.0 then true else (a.0 == b.0) && ltb a.1 b.1

abbrev pub least : ℕ × ℕ → List (ℕ × ℕ) → ℕ × ℕ
least best [] = best
least best (a ∷ candidates) = least (if before a best then a else best) candidates

abbrev pub least_block : List (ℕ × ℕ) → Option ℕ
least_block [] = none
least_block (a ∷ candidates) = some (least a candidates).1

-- `[b for b in s if b not in requested]`.
abbrev pub others : List ℕ → List ℕ → List ℕ
others requested = keep (λ bid. not (contains bid requested))

abbrev pub if_empty : List ℕ → List ℕ → List ℕ
if_empty [] all = all
if_empty (bid ∷ bids) all = bid ∷ bids

-- `_select_victim` of `LFUCache`, on the blocks in the order of the set.
unfoldable pub lfu_victim : List (ℕ × ℕ) → List ℕ → List ℕ → Option ℕ
lfu_victim freq requested blocks =
    least_block
      (map (λ b. (option_or (find b freq) 0, b)) (if_empty (others requested blocks) blocks))

-- The next step from `step` on that requests the block; `none` is infinity.
abbrev pub next_request : ℕ → ℕ → List (List ℕ) → Option ℕ
next_request bid step [] = none
next_request bid step (requested ∷ later) =
    let rest = next_request bid (step + 1) later in
    if contains bid requested then some step else rest

-- `next_use > farthest_dist`; the second `none` is -1, before any block is found.
abbrev pub farther : Option ℕ → Option (ℕ × Option ℕ) → Bool
farther nu none = true
farther none (some (bid, none)) = false
farther none (some (bid, some dist)) = true
farther (some nu) (some (bid, none)) = false
farther (some nu) (some (bid, some dist)) = ltb dist nu

-- The loop of `_select_victim` of `BeladyOPT`, over the blocks that are not requested.
abbrev pub farthest : List (List ℕ) → ℕ → Option (ℕ × Option ℕ) → List ℕ → Option (ℕ × Option ℕ)
farthest later step best [] = best
farthest later step best (bid ∷ blocks) =
    let nu = next_request bid step later in
    farthest later step (if farther nu best then some (bid, nu) else best) blocks

abbrev pub block_of : Option (ℕ × Option ℕ) → Option ℕ
block_of none = none
block_of (some (bid, nu)) = some bid

-- `_select_victim` of `BeladyOPT`, with the trace.
unfoldable pub opt_victim : List (List ℕ) → ℕ → List ℕ → List ℕ → Option ℕ
opt_victim trace step_idx requested blocks =
    block_of (farthest (drop (step_idx + 1) trace) (step_idx + 1) none (others requested blocks))
