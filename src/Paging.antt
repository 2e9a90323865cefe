-- ===== src/Paging.antt =====
-- benchmarks/exp_trace_driven_cr.py: the simulations of paging, which count the misses of a policy.
--
-- A trace is the list of its steps, a step the list of the pages that it requests. The argument
-- `n_pages` is read by none of them, and is left out. An ordered dict or a queue is the list of its
-- pages, the oldest first. `min` and `max` over a set take the first that is best in the order in
-- which Python goes through the set, which is a parameter: a function of the set, and of
-- the misses so far, so that it may be another order each time.
pub mod Stack
pub mod Queue
pub mod Future
use orch_kv_cache.Prelude.{
  ℕ, zero, suc, ◌+◌, ◌-◌, ◌==◌, Bool, true, false, Option, none, some, List, [], ◌∷◌, ◌++◌, max,
  map, Result, ok, err, key_error, value_error, index_error, ◌>>=◌, if◌then◌else◌, option_or, ok_or,
  length, leb, ltb, get_elem?, is_some,
}
use orch_kv_cache.Prelude.Dict.{find, put, has_key, nat_key, pair_key}
use orch_kv_cache.Prelude.Float.{Float}
use orch_kv_cache.Prelude.Sets.{contains, discard, add}

-- `for page in req`, of a body that may raise.
abbrev pub each_page {ℓ} : {S : Type ℓ} → (S → ℕ → Result S) → S → List ℕ → Result S
each_page body s [] = ok s
each_page body s (page ∷ pages) = do s' ← body s page; each_page body s' pages

-- `for step, req in enumerate(requests)`, from a step on.
abbrev pub each_request {ℓ} :
    {S : Type ℓ} → (ℕ → S → ℕ → Result S) → ℕ → S → List (List ℕ) → Result S
each_request body step s [] = ok s
each_request body step s (req ∷ reqs) = do
  s' ← each_page (body step) s req
  each_request body (step + 1) s' reqs

-- The variables of `sim_fifo`.
pub record FifoSim : Type 0 where
  pub cache : List ℕ
  pub q : List ℕ
  pub misses : ℕ

-- `while q: v = q.popleft(); if v in cache: cache.discard(v); break`.
unfoldable pub pop_cached : List ℕ → List ℕ → List ℕ × List ℕ
pop_cached [] cache = ([], cache)
pop_cached (v ∷ q) cache =
    let rest = pop_cached q cache in if contains v cache then (q, discard v cache) else rest

-- The body of the loop of `sim_fifo`.
unfoldable pub fifo_page : ℕ → FifoSim → ℕ → FifoSim
unfolding pop_cached
fifo_page cache_size s page =
    if contains page s.cache
    then s
    else let (q, cache) =
        if leb cache_size (length s.cache) then pop_cached s.q s.cache else (s.q, s.cache) in
      record { cache = add page cache; q = q ++ page ∷ []; misses = s.misses + 1 }

-- `sim_fifo`.
unfoldable pub sim_fifo : List (List ℕ) → ℕ → Result ℕ
sim_fifo requests cache_size = do
  s ←
      each_request (λ step s page. ok (fifo_page cache_size s page)) 0
        (record { cache = []; q = []; misses = 0 }) requests
  ok s.misses

-- The variables of `sim_lru`.
pub record LruSim : Type 0 where
  pub cache : List ℕ
  pub misses : ℕ

-- `cache.popitem(last=False)`.
abbrev pub pop_oldest : List ℕ → Result (List ℕ)
pop_oldest [] = err key_error
pop_oldest (v ∷ cache) = ok cache

-- The body of the loop of `sim_lru`.
unfoldable pub lru_page : ℕ → LruSim → ℕ → Result LruSim
lru_page cache_size s page =
    if contains page s.cache
    then ok (record s { cache = discard page s.cache ++ page ∷ [] })
    else (do
      cache ← if leb cache_size (length s.cache) then pop_oldest s.cache else ok s.cache
      ok (record { cache = cache ++ page ∷ []; misses = s.misses + 1 }))

-- `sim_lru`.
unfoldable pub sim_lru : List (List ℕ) → ℕ → Result ℕ
sim_lru requests cache_size = do
  s ← each_request (λ step. lru_page cache_size) 0 (record { cache = []; misses = 0 }) requests
  ok s.misses

-- `min(pages, key=key)`: the first of the least ones. `max` is this by the opposite test.
abbrev pub best_of {ℓ} : {K : Type ℓ} → (K → K → Bool) → (ℕ → K) → ℕ → List ℕ → ℕ
best_of better key best [] = best
best_of better key best (page ∷ pages) =
    best_of better key (if better (key page) (key best) then page else best) pages

abbrev pub min_by {ℓ} : {K : Type ℓ} → (K → K → Bool) → (ℕ → K) → List ℕ → Result ℕ
min_by better key [] = err value_error
min_by better key (page ∷ pages) = ok (best_of better key page pages)

-- `d.get(k, 0)`, and `d[k]` of a `defaultdict(int)`.
abbrev pub count_of : ℕ → List (ℕ × ℕ) → ℕ
count_of k d = option_or (find k d) 0

-- The set, and the count of misses, which the last three simulations have.
pub record SetSim : Type 0 where
  pub cache : List ℕ
  pub misses : ℕ

module _ (order : ℕ → List ℕ → List ℕ) where
  -- The victim goes, if the cache is full.
  unfoldable pub set_room {ℓ} : {K : Type ℓ} → (K → K → Bool) → (ℕ → K) → ℕ → SetSim → Result SetSim
  set_room better key cache_size s =
      if leb cache_size (length s.cache)
      then (do
        victim ← min_by better key (order s.misses s.cache)
        ok (record s { cache = discard victim s.cache }))
      else ok s

  -- What these three do with a page.
  unfoldable pub set_page {ℓ} :
      {K : Type ℓ} → (K → K → Bool) → (ℕ → K) → ℕ → SetSim → ℕ → Result SetSim
  unfolding set_room
  set_page better key cache_size s page = if contains page s.cache then ok s else (do
    s' ← set_room better key cache_size (record s { misses = s.misses + 1 })
    ok (record s' { cache = add page s'.cache }))

-- The variables of `sim_lfu`.
pub record LfuSim : Type 0 where
  pub sim : SetSim
  pub freq : List (ℕ × ℕ)

module _ (order : ℕ → List ℕ → List ℕ) where
  -- The body of the loop of `sim_lfu`; `freq` has every page of the cache, so that `freq[p]` adds none.
  unfoldable pub lfu_page : ℕ → LfuSim → ℕ → Result LfuSim
  unfolding set_page
  lfu_page cache_size s page = do
    let freq = put page (count_of page s.freq + 1) s.freq
    sim ← set_page order ltb (λ p. count_of p freq) cache_size s.sim page
    ok (record { sim = sim; freq = freq })

  -- `sim_lfu`.
  unfoldable pub sim_lfu : List (List ℕ) → ℕ → Result ℕ
  sim_lfu requests cache_size = do
    s ←
        each_request (λ step. lfu_page cache_size) 0
          (record { sim = record { cache = []; misses = 0 }; freq = [] }) requests
    ok s.sim.misses

-- What the first loop of `sim_opt` fills.
pub record Uses : Type 0 where
  pub next_use : List ((ℕ × ℕ) × ℕ)
  pub last : List (ℕ × ℕ)

-- The body of its inner loop.
abbrev pub note_next : ℕ → ℕ → Uses → Option ℕ → Uses
note_next step page u none = u
note_next step page u (some k) = record u { next_use = put (step, page) k u.next_use }

abbrev pub note_use : ℕ → Uses → ℕ → Uses
note_use step u page =
    let u' = note_next step page u (find page u.last) in record u' { last = put page step u'.last }

abbrev pub note_uses : ℕ → Uses → List ℕ → Uses
note_uses step u [] = u
note_uses step u (page ∷ pages) = note_uses step (note_use step u page) pages

-- That loop, which goes down from the last step to the step given.
unfoldable pub scan_uses : ℕ → List (List ℕ) → Uses
scan_uses step [] = record { next_use = []; last = [] }
scan_uses step (req ∷ reqs) = note_uses step (scan_uses (step + 1) reqs) req

-- `next_use.get((step, p), len(requests) + 1)`.
unfoldable pub opt_key : List (List ℕ) → ℕ → ℕ → ℕ
unfolding scan_uses
opt_key requests step p =
    option_or (find (step, p) (scan_uses 0 requests).next_use) (length requests + 1)

module _ (order : ℕ → List ℕ → List ℕ) where
  -- `sim_opt`.
  unfoldable pub sim_opt : List (List ℕ) → ℕ → Result ℕ
  unfolding set_page opt_key
  sim_opt requests cache_size = do
    s ←
        each_request (λ step. set_page order (λ a b. ltb b a) (opt_key requests step) cache_size) 0
          (record { cache = []; misses = 0 }) requests
    ok s.misses
