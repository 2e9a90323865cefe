-- ===== src/Paging/Queue.antt =====
-- `sim_fifo` without its set: the pages of the cache are those of the queue.
use orch_kv_cache.Prelude.{
  ℕ, ◌+◌, ◌≡◌, refl, ap, ◌∙◌, inl, inr, arith, false, List, [], ◌∷◌, ◌++◌, ok, if◌then◌else◌,
  length, leb, flatten, Bool-cases,
}
use orch_kv_cache.Prelude.Sets.{contains}
use orch_kv_cache.Paging.{FifoSim, each_page, each_request, pop_cached, fifo_page, sim_fifo}

-- Without the oldest page.
abbrev pub newer : List ℕ → List ℕ
newer [] = []
newer (page ∷ pages) = pages

-- A queue of at most `size` pages, or of one: what a page that misses makes of it.
unfoldable pub enter : ℕ → List ℕ → ℕ → List ℕ
enter size queue page = (if leb size (length queue) then newer queue else queue) ++ page ∷ []

unfoldable pub enter_missing : ℕ → List ℕ → ℕ → List ℕ
unfolding enter
enter_missing size queue page = if contains page queue then queue else enter size queue page

-- The requests for a page that is not in the queue.
unfoldable pub queue_misses : ℕ → List ℕ → List ℕ → ℕ
queue_misses size queue [] = 0
queue_misses size queue (page ∷ pages) =
    (if contains page queue then 0 else 1) + queue_misses size (enter_missing size queue page) pages

queue_after : ℕ → List ℕ → List ℕ → List ℕ
queue_after size queue [] = queue
queue_after size queue (page ∷ pages) = queue_after size (enter_missing size queue page) pages

abbrev in_queue : List ℕ → ℕ → FifoSim
in_queue queue misses = record { cache = queue; q = queue; misses = misses }

pop_cached_lem : (q : List ℕ) → pop_cached q q ≡ (newer q, newer q)
unfolding pop_cached
pop_cached_lem [] = refl
pop_cached_lem (v ∷ q) = ground arith

newer-absent : (p : ℕ) (q : List ℕ) → contains p q ≡ false → contains p (newer q) ≡ false
newer-absent p [] h = h
newer-absent p (x ∷ q) h = ground arith

fifo_page_lem :
    (size p m : ℕ) (q : List ℕ)
    → fifo_page size (in_queue q m) p
      ≡ in_queue (enter_missing size q p) ((if contains p q then 0 else 1) + m)
unfolding fifo_page enter_missing enter
fifo_page_lem size p m q = elim (Bool-cases (contains p q)) [
  | inl hit ↦ rw hit (ap (in_queue q) (omega arith))
  | inr miss ↦ elim (Bool-cases (leb size (length q))) [
    | inl full ↦
        rw (miss, full, pop_cached_lem q, newer-absent p q miss)
          (ap (in_queue (newer q ++ p ∷ [])) (omega arith))
    | inr free ↦ rw (miss, free, miss) (ap (in_queue (q ++ p ∷ [])) (omega arith))
  ]
]

each_page-in_queue :
    (size m : ℕ) (q ps : List ℕ)
    → each_page (λ s page. ok (fifo_page size s page)) (in_queue q m) ps
      ≡ ok (in_queue (queue_after size q ps) (m + queue_misses size q ps))
unfolding queue_after queue_misses
each_page-in_queue size m q [] = ap (λ n. ok (in_queue q n)) (omega arith)
each_page-in_queue size m q (p ∷ ps) =
    let miss : ℕ = if contains p q then 0 else 1 in
    rw (fifo_page_lem size p m q) (
      each_page-in_queue size (miss + m) (enter_missing size q p) ps
      ∙ ap (λ n. ok (in_queue (queue_after size (enter_missing size q p) ps) n)) (omega arith))

queue_misses-append :
    (size : ℕ) (q ps qs : List ℕ)
    → queue_misses size q (ps ++ qs)
      ≡ queue_misses size q ps + queue_misses size (queue_after size q ps) qs
unfolding queue_misses queue_after
queue_misses-append size q [] qs = omega arith
queue_misses-append size q (p ∷ ps) qs =
    omega (arith, queue_misses-append size (enter_missing size q p) ps qs)

each_request-in_queue :
    (size i m : ℕ) (q : List ℕ) (reqs : List (List ℕ))
    → (r : List ℕ) × (each_request (λ step s page. ok (fifo_page size s page)) i (in_queue q m) reqs
        ≡ ok (in_queue r (m + queue_misses size q (flatten reqs))))
each_request-in_queue size i m q [] =
    (q, unfold queue_misses in ap (λ n. ok (in_queue q n)) (omega arith))
each_request-in_queue size i m q (req ∷ reqs) =
    let (r, e) =
      each_request-in_queue size (i + 1) (m + queue_misses size q req) (queue_after size q req)
        reqs in
    (
      r,
      rw (each_page-in_queue size m q req) (
          e
          ∙ ap (λ n. ok (in_queue r n))
              (omega (arith, queue_misses-append size q req (flatten reqs)))),
    )

-- `sim_fifo` counts the misses of a queue, which lets its oldest page go when it is full.
pub sim_fifo-eq-queue_misses :
    (requests : List (List ℕ)) (cache_size : ℕ)
    → sim_fifo requests cache_size ≡ ok (queue_misses cache_size [] (flatten requests))
unfolding sim_fifo
sim_fifo-eq-queue_misses requests size =
    let (r, e) = each_request-in_queue size 0 0 [] requests in rw e (ap ok (omega arith))
