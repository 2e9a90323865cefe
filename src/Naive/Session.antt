-- ===== src/Naive/Session.antt =====
-- The methods of a `NaiveOffloadManager` called in any order, on tensors that grow.
use orch_kv_cache.Prelude.{
  ℕ, ◌<◌, ◌≡◌, refl, sym, ap, ◌∙◌, none, List, [], ◌∷◌, arith, Result, ok, length, replicate,
}
use mathlib.Core.Path.{subst}
use orch_kv_cache.Prelude.Budget.{BudgetTest}
use orch_kv_cache.Manager.{init}
use orch_kv_cache.Manager.Ingest.Steps.{Extends, set_total-Keeps, ingest_step_lossless}
use orch_kv_cache.Manager.Session.{Holds, Keeps-Holds, init-Holds}
use orch_kv_cache.Naive.{
  NaiveConfig, NaiveManager, naive_append, naive_ingest, naive_build, new_naive,
}
use orch_kv_cache.Naive.Schedule.{naive_schedule}
use orch_kv_cache.Naive.Plain.{plain, naive_schedule-Keeps}
use orch_kv_cache.Naive.Simulation.{lift-ok, naive_ingest-lift}
use orch_kv_cache.Naive.Append.{naive_append_layers_lem}
use orch_kv_cache.Naive.Build.{naive_build_lem}

module _ {ℓ} {T : Type ℓ} where
  -- Between two calls the manager, seen as a `KVCacheManager`, holds the tensors.
  abbrev pub NaiveHolds : NaiveManager T → List (List T) → Type ℓ
  NaiveHolds n kvs = Holds (plain n) kvs

  naive_append_lem :
      (n : NaiveManager T) (kvs : List (List T)) (kv : List T) (rest : List (List T))
      → NaiveHolds n kvs
      → Extends (λ new. length new ≡ 1) kvs (kv ∷ rest)
      → (g : NaiveManager T) × (naive_append n (kv ∷ rest) ≡ ok g) × NaiveHolds g (kv ∷ rest)
  unfolding naive_append
  naive_append_lem n kvs kv rest h ext =
      let (g, done, v, b, view) = naive_append_layers_lem n 0 [] h.valid h.sized h.view refl ext in
      (
        record g { total_tokens = length kv },
        rw done refl,
        Keeps-Holds (set_total-Keeps (plain g) (length kv))
            (record { valid = v; sized = b; view = view }),
      )

  naive_ingest_lem :
      (n : NaiveManager T) (kvs : List (List T)) (kv : List T) (rest : List (List T))
      → NaiveHolds n kvs
      → Extends (λ new. Unit) kvs (kv ∷ rest)
      → (g : NaiveManager T) × (naive_ingest n (kv ∷ rest) ≡ ok g) × NaiveHolds g (kv ∷ rest)
  naive_ingest_lem n kvs kv rest h ext =
      let ext' = subst (λ c. Extends (λ new. Unit) c (kv ∷ rest)) (sym h.view) ext in
      let (m, done, v, c, view) = ingest_step_lossless (plain n) kv rest h.valid h.sized ext' in
      let (g, e, same) =
        lift-ok (naive_ingest n (kv ∷ rest)) m (naive_ingest-lift n (kv ∷ rest) ∙ done) in
      let holds : Holds m (kv ∷ rest) = record {
        valid = v;
        sized = subst (λ (s : ℕ). 0 < s) (sym (ap (λ k. k.block_size) c)) h.sized;
        view = view;
      } in
      (g, e, subst (λ k. Holds k (kv ∷ rest)) (sym same) holds)

  -- A new manager holds no tokens, in as many layers as it is made for.
  pub new_naive-NaiveHolds :
      (c : NaiveConfig T) → 0 < c.block_size → NaiveHolds (new_naive c) (replicate c.n_layers [])
  unfolding new_naive init
  new_naive-NaiveHolds c h = init-Holds (plain (new_naive c)).config none h

module _ {ℓ} (tests : BudgetTest) {T : Type ℓ} where
  -- One call: the manager and the tensors of the model before it, and both after it.
  pub data NaiveStep (n : NaiveManager T) (kvs : List (List T))
      : NaiveManager T → List (List T) → Type ℓ where
    prefill :
        (kv : List T) (rest : List (List T)) (g : NaiveManager T)
        → Extends (λ new. Unit) kvs (kv ∷ rest)
        → naive_ingest n (kv ∷ rest) ≡ ok g
        → NaiveStep n kvs g (kv ∷ rest)
    decode :
        (kv : List T) (rest : List (List T)) (g : NaiveManager T)
        → Extends (λ new. length new ≡ 1) kvs (kv ∷ rest)
        → naive_append n (kv ∷ rest) ≡ ok g
        → NaiveStep n kvs g (kv ∷ rest)
    cycle : (g : NaiveManager T) → g ≡ (naive_schedule tests n).0 → NaiveStep n kvs g kvs
    build :
        (out : List (List T)) (g : NaiveManager T)
        → naive_build n ≡ ok (g, out)
        → NaiveStep n kvs g kvs

  -- Calls one after the other.
  pub data NaiveSession (n : NaiveManager T) (kvs : List (List T))
      : NaiveManager T → List (List T) → Type ℓ where
    here : NaiveSession n kvs n kvs
    next :
        {g k : NaiveManager T} {now later : List (List T)}
        → NaiveSession n kvs g now
        → NaiveStep g now k later
        → NaiveSession n kvs k later

  same_naive :
      {r : Result (NaiveManager T)} {g k : NaiveManager T} {kvs : List (List T)}
      → r ≡ ok g
      → r ≡ ok k
      → NaiveHolds g kvs
      → NaiveHolds k kvs
  same_naive {g = g} {k = k} {kvs = kvs} p q h =
      let e : g ≡ k = cc in subst (λ m. NaiveHolds m kvs) e h

  NaiveStep-NaiveHolds :
      {n g : NaiveManager T} {kvs later : List (List T)}
      → NaiveStep n kvs g later
      → NaiveHolds n kvs
      → NaiveHolds g later
  NaiveStep-NaiveHolds {n} {kvs = kvs} (prefill kv rest g ext e) h =
      let (m, done, held) = naive_ingest_lem n kvs kv rest h ext in same_naive done e held
  NaiveStep-NaiveHolds {n} {kvs = kvs} (decode kv rest g ext e) h =
      let (m, done, held) = naive_append_lem n kvs kv rest h ext in same_naive done e held
  NaiveStep-NaiveHolds {n} {kvs = kvs} (cycle g e) h =
      subst (λ m. NaiveHolds m kvs) (sym e) (Keeps-Holds (naive_schedule-Keeps tests n) h)
  NaiveStep-NaiveHolds {n} {kvs = kvs} (build out g e) h =
      let (m, done, k) = naive_build_lem n h.valid in
      let same : m ≡ g = ground arith in subst (λ q. NaiveHolds q kvs) same (Keeps-Holds k h)

  NaiveSession-NaiveHolds :
      {n : NaiveManager T} {kvs : List (List T)} {g : NaiveManager T} {later : List (List T)}
      → NaiveSession n kvs g later
      → NaiveHolds n kvs
      → NaiveHolds g later
  NaiveSession-NaiveHolds here h = h
  NaiveSession-NaiveHolds (next s t) h = NaiveStep-NaiveHolds t (NaiveSession-NaiveHolds s h)

  -- Whatever prefills, decode steps, scheduling cycles and reconstructions succeed on a
  -- `NaiveOffloadManager` that holds the tensors `kvs`, in whatever order, if every prefill is of
  -- tensors that extend those held then and every decode step adds one token to them in each
  -- layer: then `build_past_kv` does not raise and returns the tensors of the last prefill or
  -- decode step, or `kvs` if there was none.
  pub NaiveSession-lossless :
      (n g : NaiveManager T) (kvs later : List (List T))
      → NaiveHolds n kvs
      → NaiveSession n kvs g later
      → (k : NaiveManager T) × (naive_build g ≡ ok (k, later))
  NaiveSession-lossless n g kvs later h s =
      let h' = NaiveSession-NaiveHolds s h in
      let (k, done, _) = naive_build_lem g h'.valid in (k, done ∙ ap (λ out. ok (k, out)) h'.view)
