-- ===== src/Fifo/Write/Append.antt =====
-- `append_token` writes behind the tokens that are there, and no copy becomes untrue.
use orch_kv_cache.Prelude.{
  ℕ, zero, suc, ◌+◌, ◌-◌, ◌≤◌, ◌<◌, ◌≡◌, refl, sym, ap, ◌∙◌, some, List, [], ◌∷◌, ◌++◌, arith, ok,
  length, take, drop, set, tabulate, tabulate-agree, length-set, lt→ltb, get_last?,
}
use mathlib.Core.Path.{subst}
use orch_kv_cache.Prelude.Heap.{update}
use orch_kv_cache.Prelude.Slices.{slice, assign_slot}
use orch_kv_cache.Manager.Ingest.Write.{last-append, take-set_next}
use orch_kv_cache.Manager.Ingest.Steps.{Extends, no_layer, layer}
use orch_kv_cache.Fifo.{FifoManager}
use orch_kv_cache.Fifo.Write.{append_row, append_rows}

module _ {ℓ} {A : Type ℓ} where
  pub take-set_here : (xs : List A) (i : ℕ) (x : A) → take i (set xs i x) ≡ take i xs
  take-set_here [] i x = refl
  take-set_here (y ∷ xs) zero x = refl
  take-set_here (y ∷ xs) (suc i) x = ap (◌∷◌ y) (take-set_here xs i x)

  -- What is below `pos` is the same if the first `pos` slots are.
  pub take-drop-take :
      (s k pos : ℕ) (xs : List A) → s + k ≤ pos → take k (drop s (take pos xs)) ≡ take k (drop s xs)
  take-drop-take zero zero pos xs h = refl
  take-drop-take zero (suc k) zero xs h = absurd (omega arith)
  take-drop-take zero (suc k) (suc pos) [] h = refl
  take-drop-take zero (suc k) (suc pos) (x ∷ xs) h =
      ap (◌∷◌ x) (take-drop-take zero k pos xs (omega arith))
  take-drop-take (suc s) k zero xs h = absurd (omega arith)
  take-drop-take (suc s) k (suc pos) [] h = refl
  take-drop-take (suc s) k (suc pos) (x ∷ xs) h = take-drop-take s k pos xs (omega arith)

  pub slice-agree :
      (s e pos : ℕ) (xs ys : List A)
      → s ≤ e
      → e ≤ pos
      → take pos xs ≡ take pos ys
      → slice s e xs ≡ slice s e ys
  slice-agree s e pos xs ys h h' same =
      sym (take-drop-take s (e - s) pos xs (omega arith))
      ∙ (ap (λ zs. take (e - s) (drop s zs)) same ∙ take-drop-take s (e - s) pos ys (omega arith))

  take_next :
      (xs : List A) (i : ℕ) (x : A)
      → i < length xs
      → take (i + 1) (set xs i x) ≡ take i xs ++ x ∷ []
  take_next xs i x h = let next : i + 1 ≡ suc i = omega arith in rw next (take-set_next xs i x h)

  single : (new : List A) → length new ≡ 1 → (t : A) × (new ≡ t ∷ [])
  single [] e = absurd (omega arith)
  single (t ∷ []) e = (t, refl)
  single (t ∷ u ∷ new) e = absurd (omega arith)

module _ {ℓ} {T : Type ℓ} where
  -- The buffers `b` after the loop from layer `li` on.
  pub record Written (m : FifoManager T) (b : ℕ → List T) (pos li : ℕ) : Type ℓ where
    pub prefix : (l : ℕ) → take pos (b l) ≡ take pos (m.bufs l)
    pub size : (l : ℕ) → length (b l) ≡ length (m.bufs l)
    pub below : (l : ℕ) → l < li → b l ≡ m.bufs l

  -- The manager after the row of layer `li`.
  abbrev row_written : FifoManager T → ℕ → ℕ → T → FifoManager T
  row_written m pos li t = record m { bufs = update m.bufs li (set (m.bufs li) pos t) }

  append_row_lem :
      (m : FifoManager T) (pos li : ℕ) (kv : List T) (t : T)
      → li < m.n_layers
      → get_last? kv ≡ some t
      → pos < length (m.bufs li)
      → append_row m pos li kv ≡ ok (row_written m pos li t)
  unfolding assign_slot
  append_row_lem m pos li kv t h last room =
      rw (lt→ltb li m.n_layers h, last, lt→ltb pos (length (m.bufs li)) room) refl

  row_written-prefix :
      (m : FifoManager T) (pos li l : ℕ) (t : T)
      → take pos ((row_written m pos li t).bufs l) ≡ take pos (m.bufs l)
  row_written-prefix m pos li l t = ground (arith, take-set_here (m.bufs li) pos t)

  row_written-size :
      (m : FifoManager T) (pos li l : ℕ) (t : T)
      → length ((row_written m pos li t).bufs l) ≡ length (m.bufs l)
  row_written-size m pos li l t = ground (arith, length-set (m.bufs li) pos t)

  row_written-here :
      (m : FifoManager T) (pos li : ℕ) (t : T)
      → (row_written m pos li t).bufs li ≡ set (m.bufs li) pos t
  row_written-here m pos li t = ground arith

  pub append_rows_lem :
      (n : ℕ) (m : FifoManager T) (pos li : ℕ) (legacy : List (List T))
      → li + n ≡ m.n_layers
      → ((l : ℕ) → pos < length (m.bufs l))
      → Extends (λ new. length new ≡ 1) (tabulate (λ l. take pos (m.bufs l)) n li) legacy
      → (b : ℕ → List T) × (append_rows m pos li legacy ≡ ok (record m { bufs = b }))
        × Written m b pos li
        × (tabulate (λ l. take (pos + 1) (b l)) n li ≡ legacy)
  unfolding append_rows
  append_rows_lem zero m pos li legacy all room no_layer =
      (m.bufs, refl, record { prefix = λ l. refl; size = λ l. refl; below = λ l h. refl }, refl)
  append_rows_lem (suc n) m pos li legacy all room (layer {y = y} {ys = ys} new e p rest) =
      let (t, one) = single new p in
      let w = row_written m pos li t in
      let last : get_last? y ≡ some t = rw (e, one) (last-append (take pos (m.bufs li)) t) in
      let stepped = append_row_lem m pos li y t (omega arith) last (room li) in
      let kept = λ (l : ℕ). row_written-prefix m pos li l t in
      let rest' =
        subst (λ old. Extends (λ new'. length new' ≡ 1) old ys)
          (sym
            (tabulate-agree (λ l. take pos (w.bufs l)) (λ l. take pos (m.bufs l)) n (li + 1) kept))
          rest in
      let (b, done, k, view) =
        append_rows_lem n w pos (li + 1) ys (omega arith)
          (λ l. omega (arith, room l, row_written-size m pos li l t)) rest' in
      let here : take (pos + 1) (b li) ≡ y =
        ap (take (pos + 1)) (k.below li (omega arith) ∙ row_written-here m pos li t)
        ∙ (take_next (m.bufs li) pos t (room li) ∙ rw (e, one) refl) in
      (
        b,
        rw (stepped, done) refl,
        record {
          prefix = λ l. k.prefix l ∙ kept l;
          size = λ l. k.size l ∙ row_written-size m pos li l t;
          below = λ l h. k.below l (omega arith) ∙ ground arith;
        },
        rw (here, view) refl,
      )
