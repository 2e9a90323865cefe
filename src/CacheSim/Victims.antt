-- ===== src/CacheSim/Victims.antt =====
-- Whom the strategies choose.
use orch_kv_cache.Prelude.{
  ℕ, ◌==◌, ◌≡◌, refl, sym, ◌⊎◌, inl, inr, arith, true, false, Option, none, some, List, [], ◌∷◌,
  map, if◌then◌else◌, option_or, Bool-cases,
}
use mathlib.Core.Path.{subst}
use orch_kv_cache.Prelude.Dict.{find, nat_key}
use orch_kv_cache.Prelude.Float.{Float}
use orch_kv_cache.Prelude.Sets.{contains}
use orch_kv_cache.CacheSim.{
  first_other, head?, or_first, first_victim, before, least, least_block, others, if_empty,
  lfu_victim,
}
use orch_kv_cache.CacheSim.Ema.{EmaSignals, ema_hotness, coldest, ema_victim}

-- A block of the set is picked, if there is one.
abbrev pub Picks : Option ℕ → List ℕ → Type 0
Picks none s = s ≡ []
Picks (some bid) s = contains bid s ≡ true

-- If one is picked, it is of the set.
abbrev pub MayPick : Option ℕ → List ℕ → Type 0
MayPick none s = Unit
MayPick (some bid) s = contains bid s ≡ true

pub Picks-MayPick : (o : Option ℕ) (s : List ℕ) → Picks o s → MayPick o s
Picks-MayPick none s p = tt
Picks-MayPick (some bid) s p = p

-- A block that the step requests is picked only when every block of the set is requested.
abbrev pub Spares : List ℕ → Option ℕ → List ℕ → Type 0
Spares requested none s = Unit
Spares requested (some bid) s =
    contains bid requested ≡ true → (b : ℕ) → contains b s ≡ true → contains b requested ≡ true

pub contains-others :
    (requested : List ℕ) (b : ℕ) (s : List ℕ)
    → contains b (others requested s) ≡ (if contains b requested then false else contains b s)
contains-others requested b [] = ground arith
contains-others requested b (x ∷ s) = elim (Bool-cases (x == b)) [
  | inl e ↦
      let same : x ≡ b = ground arith in rw same (ground (arith, contains-others requested b s))
  | inr e ↦ ground (arith, contains-others requested b s)
]

-- Where no block is left, all are requested.
no_others :
    (requested s : List ℕ)
    → others requested s ≡ []
    → (b : ℕ) → contains b s ≡ true
    → contains b requested ≡ true
no_others requested s e b h =
    let none_left : contains b (others requested s) ≡ false = rw e refl in
    ground (arith, contains-others requested b s)

-- What is picked of the blocks that are not requested, is of the set and is not requested.
pub other-Picks :
    (requested : List ℕ) (bid : ℕ) (s : List ℕ)
    → contains bid (others requested s) ≡ true
    → (contains bid s ≡ true) × (contains bid requested ≡ false)
other-Picks requested bid s h = ground (arith, contains-others requested bid s)

first_other-others : (requested o : List ℕ) → first_other requested o ≡ head? (others requested o)
first_other-others requested [] = refl
first_other-others requested (x ∷ o) = ground (arith, first_other-others requested o)

head-Picks : (s : List ℕ) → Picks (head? s) s
head-Picks [] = refl
head-Picks (x ∷ s) = ground arith

head-Spares :
    (requested s all : List ℕ) → others requested all ≡ [] → Spares requested (head? s) all
head-Spares requested [] all e = tt
head-Spares requested (x ∷ s) all e = λ h. no_others requested all e

-- A choice among the blocks that are not requested, and the first block of all without one.
or_first-Picks :
    (requested : List ℕ) (o : Option ℕ) (s : List ℕ)
    → MayPick o (others requested s)
    → Picks (or_first o s) s
or_first-Picks requested none s m = head-Picks s
or_first-Picks requested (some bid) s m = ground (arith, contains-others requested bid s)

or_first-Spares :
    (requested : List ℕ) (o : Option ℕ) (s : List ℕ)
    → Picks o (others requested s)
    → Spares requested (or_first o s) s
or_first-Spares requested none s m = head-Spares requested s s m
or_first-Spares requested (some bid) s m =
    λ h. absurd (ground (arith, contains-others requested bid s))

first_other-Picks : (requested o : List ℕ) → Picks (first_other requested o) (others requested o)
first_other-Picks requested o =
    subst (λ v. Picks v (others requested o)) (sym (first_other-others requested o))
      (head-Picks (others requested o))

pub first_victim-Picks : (requested o : List ℕ) → Picks (first_victim requested o) o
unfolding first_victim
first_victim-Picks requested o =
    or_first-Picks requested (first_other requested o) o
      (Picks-MayPick (first_other requested o) (others requested o) (first_other-Picks requested o))

pub first_victim-Spares : (requested o : List ℕ) → Spares requested (first_victim requested o) o
unfolding first_victim
first_victim-Spares requested o =
    or_first-Spares requested (first_other requested o) o (first_other-Picks requested o)

-- The least of some pairs of a count and a block is one of them.
least-mem :
    (f : ℕ → ℕ) (best : ℕ × ℕ) (s : List ℕ)
    → contains (least best (map (λ b. (f b, b)) s)).1 (best.1 ∷ s) ≡ true
least-mem f best [] = ground arith
least-mem f best (x ∷ s) =
    let next : ℕ × ℕ = if before (f x, x) best then (f x, x) else best in
    let ih = least-mem f next s in
    elim (before (f x, x) best)
        as (λ b.
          contains (least (if b then (f x, x) else best) (map (λ c. (f c, c)) s)).1
              ((if b then (f x, x) else best).1 ∷ s)
            ≡ true
          → contains (least (if b then (f x, x) else best) (map (λ c. (f c, c)) s)).1
              (best.1 ∷ x ∷ s)
            ≡ true) [ true ↦ λ h. ground arith | false ↦ λ h. ground arith ]
      ih

least_block-Picks : (f : ℕ → ℕ) (s : List ℕ) → Picks (least_block (map (λ b. (f b, b)) s)) s
least_block-Picks f [] = refl
least_block-Picks f (x ∷ s) = least-mem f (f x, x) s

if_empty-Picks :
    (requested : List ℕ) (o : Option ℕ) (rest s : List ℕ)
    → others requested s ≡ rest
    → Picks o (if_empty rest s)
    → Picks o s × Spares requested o s
if_empty-Picks requested none [] s e p = (p, tt)
if_empty-Picks requested (some bid) [] s e p = (p, λ h. no_others requested s e)
if_empty-Picks requested none (x ∷ rest) s e p = absurd (cc)
if_empty-Picks requested (some bid) (x ∷ rest) s e p =
    let held = other-Picks requested bid s (rw e p) in (held.0, λ h. absurd (ground arith))

pub lfu_victim-Picks :
    (freq : List (ℕ × ℕ)) (requested s : List ℕ)
    → Picks (lfu_victim freq requested s) s × Spares requested (lfu_victim freq requested s) s
unfolding lfu_victim
lfu_victim-Picks freq requested s =
    if_empty-Picks requested
      (least_block (map (λ b. (option_or (find b freq) 0, b)) (if_empty (others requested s) s)))
      (others requested s) s refl
      (least_block-Picks (λ b. option_or (find b freq) 0) (if_empty (others requested s) s))

-- The loop of `EMACache` gives a block of the list, or the one before.
coldest-mem {ℓ} :
    {F : Type ℓ} ⦃float : Float F⦄ (score : ℕ → F) (best : Option ℕ × F) (s : List ℕ) (bid : ℕ)
    → (coldest score best s).0 ≡ some bid
    → (best.0 ≡ some bid) ⊎ (contains bid s ≡ true)
coldest-mem score best [] bid h = inl h
coldest-mem ⦃float⦄ score best (x ∷ s) bid h = elim (Bool-cases (float.less (score x) best.1)) [
  | inl e ↦ elim (coldest-mem score (some x, score x) s bid (rw (e, coldest) at h)) [
    | inl here ↦ inr (ground arith)
    | inr there ↦ inr (ground arith)
  ]
  | inr e ↦ elim (coldest-mem score best s bid (rw (e, coldest) at h)) [
    | inl here ↦ inl here
    | inr there ↦ inr (ground arith)
  ]
]

coldest-MayPick {ℓ} :
    {F : Type ℓ} ⦃float : Float F⦄ (score : ℕ → F) (f : F) (s : List ℕ)
    → MayPick (coldest score (none, f) s).0 s
coldest-MayPick {F = F} ⦃float⦄ score f s = by_result (coldest score (none, f) s).0 refl
  where
    by_result : (o : Option ℕ) → (coldest score (none, f) s).0 ≡ o → MayPick o s
    by_result none e = tt
    by_result (some bid) e = elim (coldest-mem score (none, f) s bid e) [
      | inl h ↦ absurd (cc)
      | inr h ↦ h
    ]

coldest-some {ℓ} :
    {F : Type ℓ} ⦃float : Float F⦄ (score : ℕ → F) (bid : ℕ) (f : F) (s : List ℕ)
    → (b : ℕ) × ((coldest score (some bid, f) s).0 ≡ some b)
coldest-some score bid f [] = (bid, refl)
coldest-some ⦃float⦄ score bid f (x ∷ s) = elim (Bool-cases (float.less (score x) f)) [
  | inl e ↦ rw (e, coldest) (coldest-some score x (score x) s)
  | inr e ↦ rw (e, coldest) (coldest-some score bid f s)
]

module _ {ℓ} {F : Type ℓ} ⦃float : Float F⦄ (signals : EmaSignals F) (step_idx : ℕ) where
  pub ema_victim-Picks : (requested s : List ℕ) → Picks (ema_victim signals step_idx requested s) s
  unfolding ema_victim
  ema_victim-Picks requested s =
      or_first-Picks requested
        (coldest (ema_hotness signals step_idx) (none, float.infinity) (others requested s)).0 s
        (coldest-MayPick (ema_hotness signals step_idx) float.infinity (others requested s))

  -- The score of every block is a number below infinity.
  abbrev pub AllFinite : Type 0
  AllFinite = (b : ℕ) → float.less (ema_hotness signals step_idx b) float.infinity ≡ true

  coldest-Picks :
      (s : List ℕ)
      → AllFinite
      → Picks (coldest (ema_hotness signals step_idx) (none, float.infinity) s).0 s
  coldest-Picks [] finite = refl
  coldest-Picks (x ∷ s) finite =
      let score = ema_hotness signals step_idx in
      let (b, e) = coldest-some score x (score x) s in
      let found : (coldest score (none, float.infinity) (x ∷ s)).0 ≡ some b =
        rw (finite x, coldest) e in
      subst (λ o. Picks o (x ∷ s)) (sym found)
        (elim (coldest-mem score (none, float.infinity) (x ∷ s) b found) [
          | inl h ↦ absurd (cc)
          | inr h ↦ h
        ])

  pub ema_victim-Spares :
      (requested s : List ℕ)
      → AllFinite
      → Spares requested (ema_victim signals step_idx requested s) s
  unfolding ema_victim
  ema_victim-Spares requested s finite =
      or_first-Spares requested
        (coldest (ema_hotness signals step_idx) (none, float.infinity) (others requested s)).0 s
        (coldest-Picks (others requested s) finite)
