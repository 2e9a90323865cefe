-- ===== src/Manager/Session.antt =====
-- A whole session: the methods of a `KVCacheManager` called in any order, on tensors that grow.
use orch_kv_cache.Prelude.{
  ℕ, zero, suc, ◌+◌, ◌<◌, ◌≡◌, refl, sym, ap, ◌∙◌, Option, List, [], ◌∷◌, map, arith, Result, ok,
  length, replicate, All,
}
use mathlib.Core.Path.{subst}
use orch_kv_cache.Prelude.Budget.{BudgetTest}
use orch_kv_cache.Manager.{KvBlock, KvCacheManager, Config, init, step_done}
use orch_kv_cache.Manager.Invariant.{
  contents, layer_tokens, IsOwned, IsValid, Keeps, Keeps-IsValid, Keeps-contents,
}
use orch_kv_cache.Manager.Build.{build_past_kv}
use orch_kv_cache.Manager.Build.Contents.{build_past_kv_lossless}
use orch_kv_cache.Manager.Ingest.{ingest_step, append_token}
use orch_kv_cache.Manager.Ingest.Steps.{Extends, ingest_step_lossless, append_token_lossless}
use orch_kv_cache.Manager.Schedule.{schedule, report_attention}
use orch_kv_cache.Manager.Schedule.Keeps.{schedule_lossless, report_attention-Keeps}

All-replicate {ℓ κ} : {A : Type ℓ} (P : A → Type κ) (n : ℕ) (a : A) → P a → All P (replicate n a)
All-replicate P zero a h = tt
All-replicate P (suc n) a h = (h, All-replicate P n a h)

-- What holds between two calls.
pub record Holds {ℓ} {T : Type ℓ} (m : KvCacheManager T) (kvs : List (List T)) : Type ℓ where
  pub valid : IsValid m
  pub sized : 0 < m.block_size
  pub view : contents m ≡ kvs

module _ {ℓ} {T : Type ℓ} where
  Holds-intro :
      (m : KvCacheManager T) (kvs : List (List T))
      → IsValid m
      → 0 < m.block_size
      → contents m ≡ kvs
      → Holds m kvs
  Holds-intro m kvs v b e = record { valid = v; sized = b; view = e }

  same_result :
      {r : Result (KvCacheManager T)} {g n : KvCacheManager T} {kvs : List (List T)}
      → r ≡ ok g
      → r ≡ ok n
      → Holds g kvs
      → Holds n kvs
  same_result {g = g} {n = n} {kvs = kvs} p q h = let e : g ≡ n = cc in subst (λ m. Holds m kvs) e h

  pub Keeps-Holds :
      {m n : KvCacheManager T} {kvs : List (List T)} → Keeps m n → Holds m kvs → Holds n kvs
  Keeps-Holds k h = record {
    valid = Keeps-IsValid k h.valid;
    sized = rw k.config h.sized;
    view = Keeps-contents k ∙ h.view;
  }

  step_done-Keeps : (m : KvCacheManager T) → Keeps m (step_done m)
  unfolding step_done
  step_done-Keeps m = record {
    config = refl;
    blocks = refl;
    next = refl;
    stored = λ i. refl;
    layer = λ i. refl;
    token_count = λ i. refl;
    capacity = λ i. refl;
    is_sink = λ i. refl;
    own_paths = λ h. h;
  }

module _ {ℓ} (tests : BudgetTest) {T : Type ℓ} where
  -- One call: the manager and the tensors of the model before it, and both after it.
  pub data Step (m : KvCacheManager T) (kvs : List (List T))
      : KvCacheManager T → List (List T) → Type ℓ where
    prefill :
        (kv : List T) (rest : List (List T)) (n : KvCacheManager T)
        → Extends (λ new. Unit) kvs (kv ∷ rest)
        → ingest_step m (kv ∷ rest) ≡ ok n
        → Step m kvs n (kv ∷ rest)
    decode :
        (kv : List T) (rest : List (List T)) (n : KvCacheManager T)
        → Extends (λ new. length new ≡ 1) kvs (kv ∷ rest)
        → append_token m (kv ∷ rest) ≡ ok n
        → Step m kvs n (kv ∷ rest)
    report :
        (layer kv_len : ℕ) (n : KvCacheManager T)
        → report_attention m layer kv_len ≡ ok n
        → Step m kvs n kvs
    finish : (n : KvCacheManager T) → n ≡ step_done m → Step m kvs n kvs
    cycle : (n : KvCacheManager T) → n ≡ (schedule tests m).0 → Step m kvs n kvs
    build :
        (out : List (List T)) (n : KvCacheManager T)
        → build_past_kv m ≡ ok (n, out)
        → Step m kvs n kvs

  -- Calls one after the other.
  pub data Session (m : KvCacheManager T) (kvs : List (List T))
      : KvCacheManager T → List (List T) → Type ℓ where
    here : Session m kvs m kvs
    next :
        {n k : KvCacheManager T} {now later : List (List T)}
        → Session m kvs n now
        → Step n now k later
        → Session m kvs k later

  Step-Holds :
      {m n : KvCacheManager T} {kvs later : List (List T)}
      → Step m kvs n later
      → Holds m kvs
      → Holds n later
  Step-Holds {m} {kvs} (prefill kv rest n ext e) h =
      let ext' = subst (λ c. Extends (λ new. Unit) c (kv ∷ rest)) (sym h.view) ext in
      let (g, done, vg, cg, view) = ingest_step_lossless m kv rest h.valid h.sized ext' in
      same_result done e (record { valid = vg; sized = rw cg h.sized; view = view })
  Step-Holds {m} {kvs} (decode kv rest n ext e) h =
      let ext' = subst (λ c. Extends (λ new. length new ≡ 1) c (kv ∷ rest)) (sym h.view) ext in
      let (g, done, vg, cg, view) = append_token_lossless m kv rest h.valid h.sized ext' in
      same_result done e (record { valid = vg; sized = rw cg h.sized; view = view })
  Step-Holds {m} (report layer kv_len n e) h =
      Keeps-Holds (report_attention-Keeps m n layer kv_len e) h
  Step-Holds {m} (finish n e) h = rw e (Keeps-Holds (step_done-Keeps m) h)
  Step-Holds {m} (cycle n e) h =
      let (v, c, view) = schedule_lossless tests m h.valid in
      rw e (record { valid = v; sized = rw c h.sized; view = view ∙ h.view })
  Step-Holds {m} {kvs} (build out n e) h =
      let (g, done, vg, cg, view) = build_past_kv_lossless m h.valid in
      let same : g ≡ n = ground arith in
      rw same at (Holds-intro g kvs vg (rw cg h.sized) (view ∙ h.view))

  Session-Holds :
      {m : KvCacheManager T} {kvs : List (List T)} {n : KvCacheManager T} {later : List (List T)}
      → Session m kvs n later
      → Holds m kvs
      → Holds n later
  Session-Holds here h = h
  Session-Holds (next s t) h = Step-Holds t (Session-Holds s h)

  -- Whatever prefills, decode steps, reports, ends of steps, scheduling cycles and
  -- reconstructions succeed on a `KVCacheManager` that holds the tensors `kvs`, in whatever
  -- order, if every prefill is of tensors that extend those held then and every decode step adds
  -- one token to them in each layer: then `build_past_kv` does not raise and returns the
  -- tensors of the last prefill or decode step, or `kvs` if there was none.
  pub Session-lossless :
      (m n : KvCacheManager T) (kvs later : List (List T))
      → Holds m kvs
      → Session m kvs n later
      → (k : KvCacheManager T) × (build_past_kv n ≡ ok (k, later))
  Session-lossless m n kvs later h s =
      let h' = Session-Holds s h in
      let (k, done, _, _, _) = build_past_kv_lossless n h'.valid in (k, rw h'.view at done)

module _ {ℓ} {T : Type ℓ} where
  IsOwned-replicate : (heap : ℕ → KvBlock T) (n l : ℕ) → IsOwned heap l (replicate n [])
  IsOwned-replicate heap zero l = tt
  IsOwned-replicate heap (suc n) l = (tt, IsOwned-replicate heap n (l + 1))

  contents-replicate :
      (m : KvCacheManager T) (n : ℕ) → map (layer_tokens m) (replicate n []) ≡ replicate n []
  contents-replicate m zero = refl
  contents-replicate m (suc n) = ap (◌∷◌ []) (contents-replicate m n)

  -- A new manager holds no tokens, in as many layers as it is made for.
  pub init-Holds :
      (c : Config T) (handle : Option ℕ)
      → 0 < c.block_size
      → Holds (init c handle) (replicate c.n_layers [])
  unfolding init
  init-Holds c handle h = record {
    valid = record {
      own_paths = λ i p e. cc;
      resident = λ i lt. absurd (omega arith);
      listed = All-replicate _ c.n_layers [] tt;
      ascending = All-replicate _ c.n_layers [] tt;
      owned = IsOwned-replicate (init c handle).heap c.n_layers 0;
    };
    sized = h;
    view = contents-replicate (init c handle) c.n_layers;
  }
