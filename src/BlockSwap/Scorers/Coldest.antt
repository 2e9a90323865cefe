-- ===== src/BlockSwap/Scorers/Coldest.antt =====
-- The loop of the four versions of `select_victim`, over the scores of the candidates.
use orch_kv_cache.Prelude.{
  ℕ, zero, suc, ◌+◌, ◌≡◌, refl, ap, ◌∙◌, ◌⊎◌, inl, inr, true, false, Option, none, some, List, [],
  ◌∷◌, arith, length, get_elem?, Bool-cases,
}
use mathlib.Core.Path.{subst}
use orch_kv_cache.Prelude.Float.{Float, IsOrdered}
use orch_kv_cache.BlockSwap.{last_index, keep_lower}

module _ {ℓ} {F : Type ℓ} ⦃float : Float F⦄ where
  -- The loop that the four versions share, over the scores of the candidates; `none` is a
  -- candidate that is passed over.
  abbrev keep_maybe : Option ℕ × F → ℕ → Option F → Option ℕ × F
  keep_maybe best i none = best
  keep_maybe best i (some s) = keep_lower best i s

  unfoldable pub pick : ℕ → Option ℕ × F → List (Option F) → Option ℕ × F
  pick i best [] = best
  pick i best (s ∷ ss) = pick (i + 1) (keep_maybe best i s) ss

  -- The outcome is the old best, or a lower score at one of the places.
  abbrev Outcome : ℕ → Option ℕ × F → List (Option F) → Option ℕ × F → Type ℓ
  Outcome i best ss r =
      (r ≡ best)
      ⊎ ((j : ℕ) × (s : F) × (r ≡ (some (i + j), s))
          × (get_elem? ss j ≡ some (some s))
          × (float.less s best.1 ≡ true))

  record Picked (i : ℕ) (best : Option ℕ × F) (ss : List (Option F)) (r : Option ℕ × F)
      : Type ℓ where
    lowest : (j : ℕ) (s : F) → get_elem? ss j ≡ some (some s) → float.less s r.1 ≡ false
    below : (x : F) → float.less x best.1 ≡ false → float.less x r.1 ≡ false
    outcome : Outcome i best ss r

module _ {ℓ} {F : Type ℓ} ⦃float : Float F⦄ (o : IsOrdered F) where
  Outcome-none :
      (i : ℕ) (best r : Option ℕ × F) (ss : List (Option F))
      → Outcome (i + 1) best ss r
      → Outcome i best (none ∷ ss) r
  Outcome-none i best r ss (inl e) = inl e
  Outcome-none i best r ss (inr (j, s, e, found, low)) =
      inr (suc j, s, e ∙ ap (λ k. (some k, s)) (omega arith), found, low)

  Outcome-some :
      (i : ℕ) (best r : Option ℕ × F) (x : F) (ss : List (Option F))
      → float.less x best.1 ≡ true
      → Outcome (i + 1) (some i, x) ss r
      → Outcome i best (some x ∷ ss) r
  Outcome-some i best r x ss lower (inl e) =
      inr (0, x, e ∙ ap (λ k. (some k, x)) (omega arith), refl, lower)
  Outcome-some i best r x ss lower (inr (j, s, e, found, low)) =
      inr (
        suc j,
        s,
        e ∙ ap (λ k. (some k, s)) (omega arith),
        found,
        o.less_trans s x best.1 low lower,
      )

  Outcome-skip :
      (i : ℕ) (best r : Option ℕ × F) (x : F) (ss : List (Option F))
      → Outcome (i + 1) best ss r
      → Outcome i best (some x ∷ ss) r
  Outcome-skip i best r x ss (inl e) = inl e
  Outcome-skip i best r x ss (inr (j, s, e, found, low)) =
      inr (suc j, s, e ∙ ap (λ k. (some k, s)) (omega arith), found, low)

  not_below : (x y z : F) → float.less y z ≡ true → float.less x z ≡ false → float.less x y ≡ false
  not_below x y z low h = elim (Bool-cases (float.less x y)) [
    | inl e ↦ absurd (cc (o.less_trans x y z e low))
    | inr e ↦ e
  ]

  lowest_cons :
      (x : Option F) (ss : List (Option F)) (c : F)
      → ((s : F) → x ≡ some s → float.less s c ≡ false)
      → ((j : ℕ) (s : F) → get_elem? ss j ≡ some (some s) → float.less s c ≡ false)
      → (j : ℕ) (s : F) → get_elem? (x ∷ ss) j ≡ some (some s)
      → float.less s c ≡ false
  lowest_cons x ss c first others zero s e = first s (ground arith)
  lowest_cons x ss c first others (suc j) s e = others j s e

  Picked-none :
      (i : ℕ) (best r : Option ℕ × F) (ss : List (Option F))
      → Picked (i + 1) best ss r
      → Picked i best (none ∷ ss) r
  Picked-none i best r ss p = record {
    lowest = lowest_cons none ss r.1 (λ s e. cc) p.lowest;
    below = p.below;
    outcome = Outcome-none i best r ss p.outcome;
  }

  Picked-some :
      (i : ℕ) (best r : Option ℕ × F) (x : F) (ss : List (Option F))
      → float.less x best.1 ≡ true
      → Picked (i + 1) (some i, x) ss r
      → Picked i best (some x ∷ ss) r
  Picked-some i best r x ss lower p = record {
    lowest =
        lowest_cons (some x) ss r.1
          (λ s e. let same : x ≡ s = cc in rw (← same) (p.below x (o.less_irrefl x))) p.lowest;
    below = λ y h. p.below y (not_below y x best.1 lower h);
    outcome = Outcome-some i best r x ss lower p.outcome;
  }

  Picked-skip :
      (i : ℕ) (best r : Option ℕ × F) (x : F) (ss : List (Option F))
      → float.less x best.1 ≡ false
      → Picked (i + 1) best ss r
      → Picked i best (some x ∷ ss) r
  Picked-skip i best r x ss higher p = record {
    lowest =
        lowest_cons (some x) ss r.1 (λ s e. let same : x ≡ s = cc in rw (← same) (p.below x higher))
          p.lowest;
    below = p.below;
    outcome = Outcome-skip i best r x ss p.outcome;
  }

  pick_lem :
      (i : ℕ) (best : Option ℕ × F) (ss : List (Option F)) → Picked i best ss (pick i best ss)
  unfolding pick
  pick_lem i best [] = record { lowest = λ j s e. cc; below = λ x h. h; outcome = inl refl }
  pick_lem i best (none ∷ ss) =
      Picked-none i best (pick (i + 1) best ss) ss (pick_lem (i + 1) best ss)
  pick_lem i best (some x ∷ ss) = elim (Bool-cases (float.less x best.1)) [
    | inl lower ↦ rw lower (
        Picked-some i best (pick (i + 1) (some i, x) ss) x ss lower
          (pick_lem (i + 1) (some i, x) ss))
    | inr higher ↦
        rw higher (Picked-skip i best (pick (i + 1) best ss) x ss higher (pick_lem (i + 1) best ss))
  ]

-- A candidate whose score is below infinity, with no lower one in the list; or the last candidate,
-- if no score is below infinity.
abbrev pub IsColdest {ℓ} : {F : Type ℓ} ⦃float : Float F⦄ → List (Option F) → Option ℕ → Type ℓ
IsColdest {F = F} ⦃float⦄ ss idx =
    ((i : ℕ) × (s : F) × (idx ≡ some i)
      × (get_elem? ss i ≡ some (some s))
      × (float.less s float.infinity ≡ true)
      × ((j : ℕ) (r : F) → get_elem? ss j ≡ some (some r) → float.less r s ≡ false))
    ⊎ ((idx ≡ last_index (length ss))
        × ((j : ℕ) (r : F) → get_elem? ss j ≡ some (some r) → float.less r float.infinity ≡ false))

module _ {ℓ} {F : Type ℓ} ⦃float : Float F⦄ (o : IsOrdered F) where
  Outcome-IsColdest :
      (ss : List (Option F)) (r : Option ℕ × F)
      → ((j : ℕ) (s : F) → get_elem? ss j ≡ some (some s) → float.less s r.1 ≡ false)
      → Outcome 0 (last_index (length ss), float.infinity) ss r
      → IsColdest ss r.0
  Outcome-IsColdest ss r lowest (inl e) = inr (
    ap (λ p. p.0) e,
    λ j s found. subst (λ (p : Option ℕ × F). float.less s p.1 ≡ false) e (lowest j s found),
  )
  Outcome-IsColdest ss r lowest (inr (i, s, e, found, low)) = inl (
    i,
    s,
    ap (λ p. p.0) e ∙ ap some (omega arith),
    found,
    low,
    λ j x there. subst (λ (p : Option ℕ × F). float.less x p.1 ≡ false) e (lowest j x there),
  )

  pub pick-IsColdest :
      (ss : List (Option F)) → IsColdest ss (pick 0 (last_index (length ss), float.infinity) ss).0
  pick-IsColdest ss =
      let p = pick_lem o 0 (last_index (length ss), float.infinity) ss in
      Outcome-IsColdest ss (pick 0 (last_index (length ss), float.infinity) ss) p.lowest p.outcome
