-- ===== src/CacheSim/Bounds/Lru.antt =====
-- The same of `LRUCache` of benchmarks/exp_competitive_ratio.py, which has an ordered dict beside its set.
use orch_kv_cache.Prelude.{
  ℕ, ◌<◌, ◌≡◌, refl, sym, ap, ◌∙◌, inl, inr, arith, true, false, Option, none, some, List, [], ◌∷◌,
  ◌++◌, ok, ok_or, stop_iteration, ◌>>=◌, length, length-append, leb, Bool-cases, leb→le,
  leb_false→lt,
}
use orch_kv_cache.Prelude.Dict.{nat_key}
use orch_kv_cache.Prelude.Sets.{
  contains, discard, IsDistinct, contains-append, length-discard, contains-discard,
  discard-IsDistinct, append-IsDistinct,
}
use orch_kv_cache.CacheSim.{evict, promote, first_victim}
use orch_kv_cache.CacheSim.Victims.{Picks, first_victim-Picks}
use orch_kv_cache.CacheSim.Strategies.{LruCache, lru_evict, lru_fetch, lru_fetch_all}
use orch_kv_cache.CacheSim.Bounds.{
  Kept, promote-IsSound, evict-IsSound, evict_fits, promote-IsWithin,
}

-- `LRUCache`: its dict has the blocks of the set, in another order.
pub record IsListed (n : ℕ) (c : LruCache) : Type 0 where
  pub kept : Kept n c.sim
  pub once : IsDistinct c.lru
  pub same_blocks : (b : ℕ) → contains b c.lru ≡ contains b c.sim.gpu_set
  pub same_length : length c.lru ≡ length c.sim.gpu_set

lru_hit-IsListed :
    {n : ℕ} (c : LruCache) (bid : ℕ)
    → contains bid c.lru ≡ true
    → IsListed n c
    → IsListed n (record c { lru = discard bid c.lru ++ bid ∷ [] })
lru_hit-IsListed c bid h l =
    let gone = contains-discard bid bid c.lru l.once in
    let absent : contains bid (discard bid c.lru) ≡ false = ground arith in
    record {
      kept = l.kept;
      once = append-IsDistinct bid (discard bid c.lru) absent (discard-IsDistinct bid c.lru l.once);
      same_blocks = λ b. ground (
        arith,
        contains-append b (discard bid c.lru) (bid ∷ []),
        contains-discard bid b c.lru l.once,
        l.same_blocks b,
      );
      same_length = omega (
        arith,
        length-append (discard bid c.lru) (bid ∷ []),
        length-discard bid c.lru h,
        l.same_length,
      );
    }

lru_promote-IsListed :
    {n : ℕ} (c : LruCache) (bid : ℕ)
    → contains bid c.lru ≡ false
    → length c.sim.gpu_set < c.sim.capacity
    → IsListed n c
    → IsListed n (record { sim = promote c.sim bid; lru = c.lru ++ bid ∷ [] })
lru_promote-IsListed c bid h less l =
    let absent : contains bid c.sim.gpu_set ≡ false = sym (l.same_blocks bid) ∙ h in
    record {
      kept = (
        promote-IsSound c.sim bid absent l.kept.0,
        promote-IsWithin c.sim bid absent l.kept.1.limit less,
      );
      once = append-IsDistinct bid c.lru h l.once;
      same_blocks = λ b. rw absent (
          contains-append b c.lru (bid ∷ [])
          ∙ rw (l.same_blocks b) (sym (contains-append b c.sim.gpu_set (bid ∷ []))));
      same_length = rw absent (
          omega (
            arith,
            length-append c.lru (bid ∷ []),
            length-append c.sim.gpu_set (bid ∷ []),
            l.same_length,
          ));
    }

lru_evict-IsListed :
    {n : ℕ} (requested : List ℕ) (c : LruCache) (bid : ℕ)
    → contains bid c.lru ≡ false
    → leb c.sim.capacity (length c.lru) ≡ true
    → IsListed n c
    → (d : LruCache) × (lru_evict requested c ≡ ok d)
      × IsListed n d
      × (contains bid d.lru ≡ false)
      × (length d.sim.gpu_set < d.sim.capacity)
lru_evict-IsListed {n} requested c bid h full l =
    by_victim (first_victim requested c.lru) (first_victim-Picks requested c.lru)
  where
    by_victim :
        (o : Option ℕ)
        → Picks o c.lru
        → (d : LruCache) × ((ok_or stop_iteration o >>= λ v.
              ok (record { sim = evict c.sim (some v); lru = discard v c.lru }))
            ≡ ok d)
          × IsListed n d
          × (contains bid d.lru ≡ false)
          × (length d.sim.gpu_set < d.sim.capacity)
    by_victim none p =
        let some_room = l.kept.1.room in
        let none_there : length c.lru ≡ 0 = ap length p in
        absurd (omega (arith, leb→le c.sim.capacity (length c.lru) full))
    by_victim (some v) p =
        let on_gpu : contains v c.sim.gpu_set ≡ true = sym (l.same_blocks v) ∙ p in
        let (less, same) = evict_fits c.sim (some v) on_gpu l.kept.1 in
        (
          record { sim = evict c.sim (some v); lru = discard v c.lru },
          refl,
          record {
            kept = (
              evict-IsSound c.sim (some v) on_gpu l.kept.0,
              record { limit = l.kept.1.limit; room = l.kept.1.room; fits = omega arith },
            );
            once = discard-IsDistinct v c.lru l.once;
            same_blocks = λ b.
                contains-discard v b c.lru l.once
                ∙ rw (l.same_blocks b) (sym (contains-discard v b c.sim.gpu_set l.kept.0.distinct));
            same_length = omega (
              arith,
              length-discard v c.lru p,
              length-discard v c.sim.gpu_set on_gpu,
              l.same_length,
            );
          },
          ground (arith, contains-discard v bid c.lru l.once),
          less,
        )

lru_fetch-IsListed :
    {n : ℕ} (requested : List ℕ) (c : LruCache) (bid : ℕ)
    → IsListed n c
    → (d : LruCache) × (lru_fetch requested c bid ≡ ok d) × IsListed n d
unfolding lru_fetch
lru_fetch-IsListed requested c bid l = elim (Bool-cases (contains bid c.lru)) [
  | inl hit ↦
      (record c { lru = discard bid c.lru ++ bid ∷ [] }, rw hit refl, lru_hit-IsListed c bid hit l)
  | inr miss ↦ elim (Bool-cases (leb c.sim.capacity (length c.lru))) [
    | inl full ↦
        let (d, e, held, absent, less) = lru_evict-IsListed requested c bid miss full l in
        (
          record { sim = promote d.sim bid; lru = d.lru ++ bid ∷ [] },
          rw (miss, full, e) refl,
          lru_promote-IsListed d bid absent less held,
        )
    | inr free ↦ (
      record { sim = promote c.sim bid; lru = c.lru ++ bid ∷ [] },
      rw (miss, free) refl,
      lru_promote-IsListed c bid miss (omega (arith, leb_false→lt _ _ free, l.same_length)) l,
    )
  ]
]

pub lru_fetch_all-IsListed :
    {n : ℕ} (requested : List ℕ) (c : LruCache) (bids : List ℕ)
    → IsListed n c
    → (d : LruCache) × (lru_fetch_all requested c bids ≡ ok d) × IsListed n d
unfolding lru_fetch_all
lru_fetch_all-IsListed requested c [] l = (c, refl, l)
lru_fetch_all-IsListed requested c (bid ∷ bids) l =
    let (d, e, held) = lru_fetch-IsListed requested c bid l in
    let (k, e', held') = lru_fetch_all-IsListed requested d bids held in (k, rw e e', held')
