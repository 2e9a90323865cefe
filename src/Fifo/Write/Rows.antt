-- ===== src/Fifo/Write/Rows.antt =====
-- `ingest_step` of `FastFIFOManager` on buffers that are large enough.
use orch_kv_cache.Prelude.{
  ℕ, zero, suc, ◌+◌, ◌-◌, ◌*◌, ◌/◌, ◌≤◌, ◌<◌, ◌==◌, ◌≡◌, refl, false, sym, ap, ◌∙◌, List, ◌∷◌, ◌++◌,
  arith, ok, length, take, drop, tabulate, tabulate-agree, All, All-map, Bool-cases, inl, inr, ltb,
  lt→ltb, ==_iff, length-append, length-take, length-drop, take-append_of_length,
}
use mathlib.Core.Path.{subst}
use mathlib.Core.List.{append_assoc}
use native.Mathlib.Nat.{zero-add, le-div_iff_mul-le}
use orch_kv_cache.Prelude.Heap.{update}
use orch_kv_cache.Prelude.Slices.{assign}
use orch_kv_cache.Manager.Ingest.Steps.{Extends, no_layer, layer}
use orch_kv_cache.Fifo.{FifoManager, rows}
use orch_kv_cache.Fifo.Schedule.{IsRunning}
use orch_kv_cache.Fifo.Write.{ingest_row, ingest_rows}
use orch_kv_cache.Fifo.Write.Append.{Written, slice-agree}
use orch_kv_cache.Fifo.Write.Grow.{IsSized}

module _ {ℓ} {A : Type ℓ} where
  assign_front :
      (xs kv : List A)
      → length kv ≤ length xs
      → assign xs 0 (length kv) kv ≡ ok (kv ++ drop (length kv) xs)
  unfolding assign
  assign_front xs kv h =
      let room : length (take (length kv) xs) ≡ length kv =
        omega (arith, length-take (length kv) xs) in
      rw ((==_iff _ _).1 room, zero-add) refl

  take-front :
      (pos : ℕ) (xs new ys : List A)
      → pos ≤ length xs
      → take pos ((take pos xs ++ new) ++ ys) ≡ take pos xs
  take-front pos xs new ys h =
      rw append_assoc
        (take-append_of_length (take pos xs) (new ++ ys) pos (omega (arith, length-take pos xs)))

-- The blocks of `len` tokens start below `len`.
pub tabulate-IsBelow :
    (n i bs len : ℕ)
    → 0 < bs
    → i + n ≤ (len + bs - 1) / bs
    → All (λ bid. bid * bs < len) (tabulate (λ bid. bid) n i)
tabulate-IsBelow zero i bs len positive h = tt
tabulate-IsBelow (suc n) i bs len positive h =
    let fits : (i + 1) * bs ≤ len + bs - 1 = (le-div_iff_mul-le positive).0 (omega arith) in
    (grind arith, tabulate-IsBelow n (i + 1) bs len positive (omega arith))

module _ {ℓ} {T : Type ℓ} where
  -- The manager after the row of layer `li`.
  abbrev row_taken : FifoManager T → ℕ → List T → FifoManager T
  row_taken m li kv = record m { bufs = update m.bufs li (kv ++ drop (length kv) (m.bufs li)) }

  -- The manager with another number of tokens.
  abbrev pub with_total : FifoManager T → ℕ → FifoManager T
  with_total m n = record m { total_tokens = n }

  ingest_row_lem :
      (m : FifoManager T) (li : ℕ) (kv : List T)
      → li < m.n_layers
      → length kv ≤ m.max_seq_len
      → length kv ≤ length (m.bufs li)
      → ingest_row m li kv ≡ ok (row_taken m li kv)
  ingest_row_lem m li kv h fits room =
      let no_growth : ltb m.max_seq_len (length kv) ≡ false = ground arith in
      rw (no_growth, lt→ltb li m.n_layers h, assign_front (m.bufs li) kv room) refl

  row_taken-here :
      (m : FifoManager T) (li : ℕ) (kv : List T)
      → (row_taken m li kv).bufs li ≡ kv ++ drop (length kv) (m.bufs li)
  row_taken-here m li kv = ground arith

  row_taken-size :
      (m : FifoManager T) (li l : ℕ) (kv : List T)
      → length kv ≤ length (m.bufs li)
      → length ((row_taken m li kv).bufs l) ≡ length (m.bufs l)
  row_taken-size m li l kv h = elim (Bool-cases (li == l)) [
    | inl e ↦ ground (
      arith,
      length-append kv (drop (length kv) (m.bufs li)),
      length-drop (length kv) (m.bufs li),
    )
    | inr e ↦ ground arith
  ]

  row_taken-prefix :
      (m : FifoManager T) (pos li l : ℕ) (kv new : List T)
      → kv ≡ take pos (m.bufs li) ++ new
      → pos ≤ length (m.bufs li)
      → take pos ((row_taken m li kv).bufs l) ≡ take pos (m.bufs l)
  row_taken-prefix m pos li l kv new e h = elim (Bool-cases (li == l)) [
    | inl q ↦
        let same : take pos (kv ++ drop (length kv) (m.bufs li)) ≡ take pos (m.bufs li) =
          ap (λ front. take pos (front ++ drop (length kv) (m.bufs li))) e
          ∙ take-front pos (m.bufs li) new (drop (length kv) (m.bufs li)) h in
        ground (arith, same)
    | inr q ↦ ground arith
  ]

  ingest_rows_lem :
      (n : ℕ) (m : FifoManager T) (pos len li : ℕ) (legacy : List (List T))
      → li + n ≡ m.n_layers
      → len ≤ m.max_seq_len
      → ((l : ℕ) → len ≤ length (m.bufs l))
      → ((l : ℕ) → pos ≤ length (m.bufs l))
      → All (λ kv. length kv ≡ len) legacy
      → Extends (λ new. Unit) (tabulate (λ l. take pos (m.bufs l)) n li) legacy
      → (b : ℕ → List T) × (ingest_rows m li legacy ≡ ok (record m { bufs = b }))
        × Written m b pos li
        × (tabulate (λ l. take len (b l)) n li ≡ legacy)
  unfolding ingest_rows
  ingest_rows_lem zero m pos len li legacy all fits room filled sizes no_layer =
      (m.bufs, refl, record { prefix = λ l. refl; size = λ l. refl; below = λ l h. refl }, refl)
  ingest_rows_lem (suc n) m pos len li legacy all fits room filled sizes
        (layer {y = y} {ys = ys} new e p rest) =
      let w = row_taken m li y in
      let stepped =
        ingest_row_lem m li y (omega arith) (omega (arith, sizes.0))
          (omega (arith, sizes.0, room li)) in
      let kept = λ (l : ℕ). row_taken-prefix m pos li l y new e (filled li) in
      let same_size = λ (l : ℕ). row_taken-size m li l y (omega (arith, sizes.0, room li)) in
      let rest' =
        subst (λ old. Extends (λ new'. Unit) old ys)
          (sym
            (tabulate-agree (λ l. take pos (w.bufs l)) (λ l. take pos (m.bufs l)) n (li + 1) kept))
          rest in
      let (b, done, k, view) =
        ingest_rows_lem n w pos len (li + 1) ys (omega arith) fits
          (λ l. omega (arith, room l, same_size l)) (λ l. omega (arith, filled l, same_size l))
          sizes.1 rest' in
      let here : take len (b li) ≡ y =
        ap (take len) (k.below li (omega arith) ∙ row_taken-here m li y)
        ∙ take-append_of_length y (drop (length y) (m.bufs li)) len sizes.0 in
      (
        b,
        rw (stepped, done) refl,
        record {
          prefix = λ l. k.prefix l ∙ kept l;
          size = λ l. k.size l ∙ same_size l;
          below = λ l h. k.below l (omega arith) ∙ ground arith;
        },
        rw (here, view) refl,
      )

  -- The manager with the buffers `b` of `len` tokens.
  abbrev ingested : FifoManager T → (ℕ → List T) → ℕ → FifoManager T
  ingested m b len = record m { bufs = b; total_tokens = len }

  ingested-IsRunning :
      (m : FifoManager T) (b : ℕ → List T) (len : ℕ)
      → IsRunning m
      → m.total_tokens ≤ len
      → ((l : ℕ) → len ≤ length (m.bufs l))
      → Written m b m.total_tokens 0
      → IsRunning (ingested m b len)
  ingested-IsRunning m b len v h room w = record {
    sound = record {
      faithful = λ l s e d held.
          let (starts, ends, _) = v.sound.copies l s e d held in
          v.sound.faithful l s e d held
          ∙ slice-agree s e m.total_tokens (m.bufs l) (b l) starts ends (sym (w.prefix l));
      positive = v.sound.positive;
      filled = λ l. omega (arith, room l, w.size l);
      copies = λ l s e d held. omega (arith, v.sound.copies l s e d held);
    };
    queued = All-map (λ bid lt. omega arith) m.fifo_queue v.queued;
    few = v.few;
  }

  pub ingest_in_room :
      (m : FifoManager T) (kv : List T) (rest : List (List T))
      → IsRunning m
      → IsSized m
      → length kv ≤ m.max_seq_len
      → m.total_tokens ≤ length kv
      → All (λ row. length row ≡ length kv) rest
      → Extends (λ new. Unit) (rows m) (kv ∷ rest)
      → (w : FifoManager T) × (ingest_rows m 0 (kv ∷ rest) ≡ ok w)
        × IsRunning (with_total w (length kv))
        × IsSized w
        × (rows (with_total w (length kv)) ≡ kv ∷ rest)
        × (w.config ≡ m.config)
  ingest_in_room m kv rest v sized fits more sizes ext =
      let room = λ (l : ℕ). (let r : length kv ≤ length (m.bufs l) = omega (arith, sized l) in r) in
      let (b, done, w, view) =
        ingest_rows_lem m.n_layers m m.total_tokens (length kv) 0 (kv ∷ rest) (omega arith) fits
          room v.sound.filled (refl, sizes) ext in
      (
        record m { bufs = b },
        done,
        ingested-IsRunning m b (length kv) v more room w,
        λ l. w.size l ∙ sized l,
        view,
        refl,
      )
