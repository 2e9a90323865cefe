-- ===== src/Paging/Stack.antt =====
-- `sim_lru` against the stack of the pages by their last use: a page hits if it is among the first
-- `cache_size` of the stack.
use orch_kv_cache.Prelude.{
  ℕ, zero, suc, ◌+◌, ◌≤◌, ◌<◌, ◌≡◌, refl, ap, ◌∙◌, inl, inr, arith, true, false, List, [], ◌∷◌,
  ◌++◌, ok, if◌then◌else◌, length, length-append, length-take, take, leb, flatten,
  take_of_length-le, Bool-cases, leb→le, leb_false→lt,
}
use mathlib.Core.List.{append-nil}
use orch_kv_cache.Prelude.Sets.{
  contains, discard, IsDistinct, contains-append, contains-discard, discard_absent,
  discard-IsDistinct,
}
use orch_kv_cache.Paging.{LruSim, each_page, each_request, pop_oldest, lru_page, sim_lru}

-- The page goes to the top.
unfoldable pub touch : ℕ → List ℕ → List ℕ
touch page stack = page ∷ discard page stack

unfoldable pub touch_all : List ℕ → List ℕ → List ℕ
touch_all stack [] = stack
touch_all stack (page ∷ pages) = touch_all (touch page stack) pages

-- The pages that are not among the first `depth` of the stack when they are requested.
unfoldable pub stack_misses : ℕ → List ℕ → List ℕ → ℕ
stack_misses depth stack [] = 0
stack_misses depth stack (page ∷ pages) =
    (if contains page (take depth stack) then 0 else 1)
    + stack_misses depth (touch page stack) pages

-- The stack from its bottom, as the ordered dict has the pages.
unfoldable pub upward : List ℕ → List ℕ
upward [] = []
upward (page ∷ stack) = upward stack ++ page ∷ []

contains-upward : (p : ℕ) (s : List ℕ) → contains p (upward s) ≡ contains p s
unfolding upward
contains-upward p [] = refl
contains-upward p (x ∷ s) =
    ground (arith, contains-append p (upward s) (x ∷ []), contains-upward p s)

length-upward : (s : List ℕ) → length (upward s) ≡ length s
unfolding upward
length-upward [] = refl
length-upward (x ∷ s) = omega (arith, length-append (upward s) (x ∷ []), length-upward s)

discard-append :
    (p : ℕ) (xs ys : List ℕ)
    → discard p (xs ++ ys) ≡ (if contains p xs then discard p xs ++ ys else xs ++ discard p ys)
discard-append p [] ys = refl
discard-append p (x ∷ xs) ys = ground (arith, discard-append p xs ys)

discard-upward : (p : ℕ) (s : List ℕ) → IsDistinct s → discard p (upward s) ≡ upward (discard p s)
unfolding upward
discard-upward p [] d = refl
discard-upward p (x ∷ s) d = ground (
  arith,
  discard-append p (upward s) (x ∷ []),
  contains-upward p s,
  discard-upward p s d.1,
  discard_absent p s,
  append-nil (upward s),
)

pop_oldest-append :
    (xs ys zs : List ℕ) → pop_oldest xs ≡ ok ys → pop_oldest (xs ++ zs) ≡ ok (ys ++ zs)
pop_oldest-append [] ys zs h = cc
pop_oldest-append (x ∷ xs) ys zs h = ground arith

pop_oldest-upward :
    (k : ℕ) (s : List ℕ)
    → k < length s
    → pop_oldest (upward (take (suc k) s)) ≡ ok (upward (take k s))
unfolding upward
pop_oldest-upward k [] h = absurd (omega arith)
pop_oldest-upward zero (x ∷ s) h = refl
pop_oldest-upward (suc k) (x ∷ s) h =
    pop_oldest-append (upward (take (suc k) s)) (upward (take k s)) (x ∷ [])
      (pop_oldest-upward k s (omega arith))

take-discard_hit :
    (p k : ℕ) (s : List ℕ)
    → contains p (take (suc k) s) ≡ true
    → discard p (take (suc k) s) ≡ take k (discard p s)
take-discard_hit p k [] h = cc
take-discard_hit p zero (x ∷ s) h = ground arith
take-discard_hit p (suc k) (x ∷ s) h = ground (arith, take-discard_hit p k s)

take-discard_miss :
    (p k : ℕ) (s : List ℕ) → contains p (take (suc k) s) ≡ false → take k (discard p s) ≡ take k s
take-discard_miss p zero s h = refl
take-discard_miss p (suc k) [] h = refl
take-discard_miss p (suc k) (x ∷ s) h = ground (arith, take-discard_miss p k s)

contains-take : (p k : ℕ) (s : List ℕ) → contains p s ≡ false → contains p (take k s) ≡ false
contains-take p zero s h = refl
contains-take p (suc k) [] h = refl
contains-take p (suc k) (x ∷ s) h = ground (arith, contains-take p k s)

contains-take_mono :
    (p k j : ℕ) (s : List ℕ) → k ≤ j → contains p (take k s) ≡ true → contains p (take j s) ≡ true
contains-take_mono p zero j s h e = cc
contains-take_mono p (suc k) j [] h e = cc
contains-take_mono p (suc k) zero (x ∷ s) h e = absurd (omega arith)
contains-take_mono p (suc k) (suc j) (x ∷ s) h e = ground (arith, contains-take_mono p k j s)

take-IsDistinct : (k : ℕ) (s : List ℕ) → IsDistinct s → IsDistinct (take k s)
take-IsDistinct zero s d = tt
take-IsDistinct (suc k) [] d = tt
take-IsDistinct (suc k) (x ∷ s) d = (contains-take x k s d.0, take-IsDistinct k s d.1)

touch-IsDistinct : (p : ℕ) (s : List ℕ) → IsDistinct s → IsDistinct (touch p s)
unfolding touch
touch-IsDistinct p s d = (ground (arith, contains-discard p p s d), discard-IsDistinct p s d)

touch_all-IsDistinct : (s ps : List ℕ) → IsDistinct s → IsDistinct (touch_all s ps)
unfolding touch_all
touch_all-IsDistinct s [] d = d
touch_all-IsDistinct s (p ∷ ps) d = touch_all-IsDistinct (touch p s) ps (touch-IsDistinct p s d)

-- The simulation whose cache is the top of a stack.
abbrev on_stack : ℕ → List ℕ → ℕ → LruSim
on_stack depth stack misses = record { cache = upward (take depth stack); misses = misses }

-- A cache that is full loses the page below which the stack is cut, and otherwise none.
room_lem :
    (k p : ℕ) (s : List ℕ)
    → contains p (take (suc k) s) ≡ false
    → (if leb (suc k) (length (upward (take (suc k) s)))
        then pop_oldest (upward (take (suc k) s))
        else ok (upward (take (suc k) s)))
      ≡ ok (upward (take k (discard p s)))
room_lem k p s h = elim (Bool-cases (leb (suc k) (length (upward (take (suc k) s))))) [
  | inl full ↦
      let enough = leb→le _ _ full in
      rw (full, take-discard_miss p k s h)
        (pop_oldest-upward k s
          (omega (arith, length-upward (take (suc k) s), length-take (suc k) s)))
  | inr free ↦
      let few = leb_false→lt _ _ free in
      let short : length s ≤ k =
        omega (arith, length-upward (take (suc k) s), length-take (suc k) s) in
      rw
        (
          free,
          take-discard_miss p k s h,
          take_of_length-le k s short,
          take_of_length-le (suc k) s (omega arith),
        )
        refl
]

lru_page_lem :
    (k p m : ℕ) (s : List ℕ)
    → IsDistinct s
    → lru_page (suc k) (on_stack (suc k) s m) p
      ≡ ok (on_stack (suc k) (touch p s) ((if contains p (take (suc k) s) then 0 else 1) + m))
unfolding lru_page touch
lru_page_lem k p m s d = elim (Bool-cases (contains p (take (suc k) s))) [
  | inl hit ↦
      rw
        (
          contains-upward,
          hit,
          discard-upward p (take (suc k) s) (take-IsDistinct (suc k) s d),
          take-discard_hit p k s hit,
        )
        (unfold upward in ground arith)
  | inr miss ↦ rw (contains-upward, miss, room_lem k p s miss) (unfold upward in ground arith)
]

each_page-on_stack :
    (k m : ℕ) (s ps : List ℕ)
    → IsDistinct s
    → each_page (lru_page (suc k)) (on_stack (suc k) s m) ps
      ≡ ok (on_stack (suc k) (touch_all s ps) (m + stack_misses (suc k) s ps))
unfolding touch_all stack_misses
each_page-on_stack k m s [] d = ap (λ n. ok (on_stack (suc k) s n)) (omega arith)
each_page-on_stack k m s (p ∷ ps) d =
    let miss : ℕ = if contains p (take (suc k) s) then 0 else 1 in
    rw (lru_page_lem k p m s d) (
      each_page-on_stack k (miss + m) (touch p s) ps (touch-IsDistinct p s d)
      ∙ ap (λ n. ok (on_stack (suc k) (touch_all (touch p s) ps) n)) (omega arith))

stack_misses-append :
    (depth : ℕ) (s ps qs : List ℕ)
    → stack_misses depth s (ps ++ qs)
      ≡ stack_misses depth s ps + stack_misses depth (touch_all s ps) qs
unfolding stack_misses touch_all
stack_misses-append depth s [] qs = omega arith
stack_misses-append depth s (p ∷ ps) qs = omega (arith, stack_misses-append depth (touch p s) ps qs)

each_request-on_stack :
    (k i m : ℕ) (s : List ℕ) (reqs : List (List ℕ))
    → IsDistinct s
    → (t : List ℕ) × (each_request (λ step. lru_page (suc k)) i (on_stack (suc k) s m) reqs
        ≡ ok (on_stack (suc k) t (m + stack_misses (suc k) s (flatten reqs))))
each_request-on_stack k i m s [] d =
    (s, unfold stack_misses in ap (λ n. ok (on_stack (suc k) s n)) (omega arith))
each_request-on_stack k i m s (req ∷ reqs) d =
    let (t, e) =
      each_request-on_stack k (i + 1) (m + stack_misses (suc k) s req) (touch_all s req) reqs
        (touch_all-IsDistinct s req d) in
    (
      t,
      rw (each_page-on_stack k m s req d) (
          e
          ∙ ap (λ n. ok (on_stack (suc k) t n))
              (omega (arith, stack_misses-append (suc k) s req (flatten reqs)))),
    )

-- With room for a page, `sim_lru` does not raise, and counts the requests for a page that is not
-- among the first `cache_size` of the stack of the pages by their last use.
pub sim_lru-eq-stack_misses :
    (requests : List (List ℕ)) (cache_size : ℕ)
    → 0 < cache_size
    → sim_lru requests cache_size ≡ ok (stack_misses cache_size [] (flatten requests))
unfolding sim_lru
sim_lru-eq-stack_misses requests zero h = absurd (omega arith)
sim_lru-eq-stack_misses requests (suc k) h =
    let (t, e) = each_request-on_stack k 0 0 [] requests tt in
    let start : on_stack (suc k) [] 0 ≡ record { cache = []; misses = 0 } = unfold upward in refl in
    rw (← start, e) (ap ok (omega arith))

stack_misses_antitone :
    (k j : ℕ) (s ps : List ℕ) → k ≤ j → stack_misses j s ps ≤ stack_misses k s ps
unfolding stack_misses
stack_misses_antitone k j s [] h = omega arith
stack_misses_antitone k j s (p ∷ ps) h =
    ground (arith, contains-take_mono p k j s, stack_misses_antitone k j (touch p s) ps)

-- `sim_lru` of the same trace and a larger cache, with room for a page at least, has no more
-- misses; neither run raises.
pub sim_lru_antitone :
    (requests : List (List ℕ)) (small large : ℕ)
    → 0 < small
    → small ≤ large
    → (m n : ℕ) × (sim_lru requests small ≡ ok m) × (sim_lru requests large ≡ ok n) × (n ≤ m)
sim_lru_antitone requests small large h l = (
  stack_misses small [] (flatten requests),
  stack_misses large [] (flatten requests),
  sim_lru-eq-stack_misses requests small h,
  sim_lru-eq-stack_misses requests large (omega arith),
  stack_misses_antitone small large [] (flatten requests) l,
)
