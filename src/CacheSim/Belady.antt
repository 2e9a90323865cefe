-- ===== src/CacheSim/Belady.antt =====
-- Whom `BeladyOPT` of benchmarks/exp_competitive_ratio.py chooses.
use orch_kv_cache.Prelude.{
  ℕ, ◌+◌, ◌≤◌, ◌==◌, ◌≡◌, refl, ap, ◌∙◌, ◌⊎◌, inl, inr, arith, true, false, Option, none, some,
  List, [], ◌∷◌, if◌then◌else◌, drop, Bool-cases,
}
use mathlib.Core.Path.{subst}
use orch_kv_cache.Prelude.Sets.{contains}
use orch_kv_cache.CacheSim.{others, next_request, farther, farthest, block_of, opt_victim}
use orch_kv_cache.CacheSim.Victims.{MayPick, contains-others, other-Picks}

-- `BeladyOPT` compares next uses: a block of the list, or the one before, is the farthest.
farthest-mem :
    (later : List (List ℕ)) (step : ℕ) (best : Option (ℕ × Option ℕ)) (s : List ℕ) (bid : ℕ)
    → block_of (farthest later step best s) ≡ some bid
    → (block_of best ≡ some bid) ⊎ (contains bid s ≡ true)
farthest-mem later step best [] bid h = inl h
farthest-mem later step best (x ∷ s) bid h =
    elim (Bool-cases (farther (next_request x step later) best)) [
      | inl e ↦
          elim (farthest-mem later step (some (x, next_request x step later)) s bid (rw e at h)) [
            | inl here ↦ inr (ground arith)
            | inr there ↦ inr (ground arith)
          ]
      | inr e ↦ elim (farthest-mem later step best s bid (rw e at h)) [
        | inl here ↦ inl here
        | inr there ↦ inr (ground arith)
      ]
    ]

-- No block is used later than the one that is found.
abbrev NoneFarther : List (List ℕ) → ℕ → Option (ℕ × Option ℕ) → ℕ → Type 0
NoneFarther later step best b = farther (next_request b step later) best ≡ false

farther_trans :
    (nu : Option ℕ) (x : ℕ) (far : Option ℕ) (best : Option (ℕ × Option ℕ))
    → farther far best ≡ true
    → farther nu best ≡ false
    → farther nu (some (x, far)) ≡ false
farther_trans nu x far none h e = cc
farther_trans none x none (some (y, none)) h e = cc
farther_trans none x none (some (y, some d)) h e = cc
farther_trans none x (some f) (some (y, none)) h e = cc
farther_trans none x (some f) (some (y, some d)) h e = cc
farther_trans (some n) x none (some (y, none)) h e = cc
farther_trans (some n) x none (some (y, some d)) h e = refl
farther_trans (some n) x (some f) (some (y, none)) h e = cc
farther_trans (some n) x (some f) (some (y, some d)) h e = ground arith

farther_self : (nu : Option ℕ) (x : ℕ) → farther nu (some (x, nu)) ≡ false
farther_self none x = refl
farther_self (some n) x = ground arith

farthest-keeps :
    (later : List (List ℕ)) (step : ℕ) (best : Option (ℕ × Option ℕ)) (s : List ℕ) (b : ℕ)
    → NoneFarther later step best b
    → NoneFarther later step (farthest later step best s) b
farthest-keeps later step best [] b h = h
farthest-keeps later step best (x ∷ s) b h =
    elim (Bool-cases (farther (next_request x step later) best)) [
      | inl e ↦ rw e (
          farthest-keeps later step (some (x, next_request x step later)) s b
            (farther_trans (next_request b step later) x (next_request x step later) best e h))
      | inr e ↦ rw e (farthest-keeps later step best s b h)
    ]

farthest_lem :
    (later : List (List ℕ)) (step : ℕ) (best : Option (ℕ × Option ℕ)) (s : List ℕ) (b : ℕ)
    → contains b s ≡ true
    → NoneFarther later step (farthest later step best s) b
farthest_lem later step best [] b h = cc
farthest_lem later step best (x ∷ s) b h = elim (Bool-cases (x == b)) [
  | inl e ↦
      let same : x ≡ b = ground arith in
      rw (← same) (elim (Bool-cases (farther (next_request x step later) best)) [
        | inl far ↦ rw far (
            farthest-keeps later step (some (x, next_request x step later)) s x
              (farther_self (next_request x step later) x))
        | inr near ↦ rw near (farthest-keeps later step best s x near)
      ])
  | inr e ↦
      let rest : contains b s ≡ true = ground arith in
      farthest_lem later step
        (if farther (next_request x step later) best
          then some (x, next_request x step later)
          else best)
        s b rest
]

-- What is found comes with its next use.
abbrev IsNextUse : List (List ℕ) → ℕ → Option (ℕ × Option ℕ) → Type 0
IsNextUse later step none = Unit
IsNextUse later step (some (bid, far)) = far ≡ next_request bid step later

farthest-use :
    (later : List (List ℕ)) (step : ℕ) (best : Option (ℕ × Option ℕ)) (s : List ℕ)
    → IsNextUse later step best
    → IsNextUse later step (farthest later step best s)
farthest-use later step best [] h = h
farthest-use later step best (x ∷ s) h =
    elim (Bool-cases (farther (next_request x step later) best)) [
      | inl e ↦ rw e (farthest-use later step (some (x, next_request x step later)) s refl)
      | inr e ↦ rw e (farthest-use later step best s h)
    ]

-- `none` is no use at all.
abbrev pub NotLater : Option ℕ → Option ℕ → Type 0
NotLater nu none = Unit
NotLater none (some far) = ⊥
NotLater (some nu) (some far) = nu ≤ far

not_farther→NotLater :
    (nu : Option ℕ) (bid : ℕ) (far : Option ℕ)
    → farther nu (some (bid, far)) ≡ false
    → NotLater nu far
not_farther→NotLater nu bid none h = tt
not_farther→NotLater none bid (some far) h = cc
not_farther→NotLater (some nu) bid (some far) h = ground arith

-- The next step after the present one that requests the block.
abbrev pub next_use : List (List ℕ) → ℕ → ℕ → Option ℕ
next_use trace step_idx b = next_request b (step_idx + 1) (drop (step_idx + 1) trace)

module _ (trace : List (List ℕ)) (step_idx : ℕ) (requested s : List ℕ) where
  found : Option (ℕ × Option ℕ)
  found = farthest (drop (step_idx + 1) trace) (step_idx + 1) none (others requested s)

  -- The block that `BeladyOPT` evicts is on the GPU and not requested in this step, and no other
  -- block on the GPU that is not requested in it is requested again later than it.
  pub opt_victim-IsFarthest :
      (bid : ℕ)
      → opt_victim trace step_idx requested s ≡ some bid
      → (contains bid s ≡ true)
        × (contains bid requested ≡ false)
        × ((b : ℕ)
            → contains b s ≡ true
            → contains b requested ≡ false
            → NotLater (next_use trace step_idx b) (next_use trace step_idx bid))
  unfolding opt_victim found
  opt_victim-IsFarthest bid h =
      by_result found refl
        (farthest-use (drop (step_idx + 1) trace) (step_idx + 1) none (others requested s) tt) h
    where
      by_result :
          (o : Option (ℕ × Option ℕ))
          → found ≡ o
          → IsNextUse (drop (step_idx + 1) trace) (step_idx + 1) o
          → block_of o ≡ some bid
          → (contains bid s ≡ true)
            × (contains bid requested ≡ false)
            × ((b : ℕ)
                → contains b s ≡ true
                → contains b requested ≡ false
                → NotLater (next_use trace step_idx b) (next_use trace step_idx bid))
      by_result none e nu k = absurd (cc)
      by_result (some (x, far)) e nu k =
          let same : x ≡ bid = ground arith in
          let mem =
            farthest-mem (drop (step_idx + 1) trace) (step_idx + 1) none (others requested s) bid
              (ap block_of e ∙ k) in
          let held = elim mem as (λ m. (contains bid s ≡ true) × (contains bid requested ≡ false)) [
            | inl no_block ↦ absurd (cc)
            | inr there ↦ other-Picks requested bid s there
          ] in
          (
            held.0,
            held.1,
            λ b on free.
                let rest : contains b (others requested s) ≡ true =
                  ground (arith, contains-others requested b s) in
                let last =
                  farthest_lem (drop (step_idx + 1) trace) (step_idx + 1) none (others requested s)
                    b rest in
                let last' : farther (next_use trace step_idx b) (some (x, far)) ≡ false =
                  subst (λ w. farther (next_use trace step_idx b) w ≡ false) e last in
                let fin = not_farther→NotLater (next_use trace step_idx b) x far last' in
                subst (λ w. NotLater (next_use trace step_idx b) w)
                  (nu ∙ ap (next_use trace step_idx) same) fin,
          )

  pub opt_victim-MayPick : MayPick (opt_victim trace step_idx requested s) s
  opt_victim-MayPick = by_result (opt_victim trace step_idx requested s) refl
    where
      by_result : (o : Option ℕ) → opt_victim trace step_idx requested s ≡ o → MayPick o s
      by_result none e = tt
      by_result (some bid) e = (opt_victim-IsFarthest bid e).0
