-- ===== src/Manager/Ingest/Write.antt =====
-- A token is written into the next slot of the last block of a layer: what the manager holds then.
use orch_kv_cache.Prelude.{
  ℕ, zero, suc, ◌+◌, ◌≤◌, ◌<◌, ◌==◌, ◌≡◌, ◌≢◌, refl, sym, ap, ◌∙◌, some, List, [], ◌∷◌, ◌++◌, map,
  arith, length, take, get_elem?, get_last?, set, length-set, All, All-map, Bool-cases, inl, inr,
}
use mathlib.Core.List.{append-nil, append_assoc}
use native.Mathlib.Numerals.{add-one}
use orch_kv_cache.Manager.{Tensor, KvBlock, KvCacheManager, gpu}
use orch_kv_cache.Manager.Moves.{put_block}
use orch_kv_cache.Manager.Invariant.{
  block_tokens, layer_tokens, IsAscending, IsOwned, IsOwned-agree, IsResident, IsValid,
}
use orch_kv_cache.Manager.Ingest.Grow.{All-get, layer_tokens-append}
use orch_kv_cache.Manager.Ingest.Prefill.{Ingested}

module _ {ℓ} {A : Type ℓ} where
  pub last-append : (xs : List A) (x : A) → get_last? (xs ++ x ∷ []) ≡ some x
  last-append [] x = refl
  last-append (y ∷ []) x = refl
  last-append (y ∷ z ∷ xs) x = last-append (z ∷ xs) x

  -- A list with a last element, taken apart there.
  pub split_last :
      (xs : List A) {x : A} → get_last? xs ≡ some x → (ys : List A) × (xs ≡ ys ++ x ∷ [])
  split_last [] e = cc
  split_last (y ∷ []) e = ([], ground arith)
  split_last (y ∷ z ∷ xs) e = let (ys, p) = split_last (z ∷ xs) e in (y ∷ ys, ap (◌∷◌ y) p)

  pub take-set_next :
      (xs : List A) (i : ℕ) (x : A)
      → i < length xs
      → take (suc i) (set xs i x) ≡ take i xs ++ x ∷ []
  take-set_next [] i x h = absurd (omega arith)
  take-set_next (y ∷ xs) zero x h = refl
  take-set_next (y ∷ xs) (suc i) x h = ap (◌∷◌ y) (take-set_next xs i x (omega arith))

  pub All-last {κ} : (P : A → Type κ) (xs : List A) (x : A) → All P (xs ++ x ∷ []) → P x
  All-last P [] x h = h.0
  All-last P (y ∷ xs) x h = All-last P xs x h.1

IsAscending-below :
    (b : ℕ) (js : List ℕ) (i : ℕ) → IsAscending b (js ++ i ∷ []) → (b ≤ i) × All (λ j. j < i) js
IsAscending-below b [] i a = (a.0, tt)
IsAscending-below b (j ∷ js) i a =
    let rest = IsAscending-below (j + 1) js i a.1 in (omega arith, (omega arith, rest.1))

module _ {ℓ} {T : Type ℓ} where
  owned_get :
      (heap : ℕ → KvBlock T) (a l : ℕ) (ls : List (List ℕ)) (ids : List ℕ)
      → IsOwned heap a ls
      → get_elem? ls l ≡ some ids
      → All (λ i. (heap i).layer ≡ a + l) ids
  owned_get heap a l [] ids o e = cc
  owned_get heap a zero (js ∷ ls) ids o e =
      let same : js ≡ ids = cc in
      let here : (i : ℕ) → (heap i).layer ≡ a → (heap i).layer ≡ a + zero = λ i q. omega arith in
      rw same at (All-map here js o.0)
  owned_get heap a (suc l) (js ∷ ls) ids o e =
      let there : (i : ℕ) → (heap i).layer ≡ a + 1 + l → (heap i).layer ≡ a + suc l =
        λ i q. omega arith in
      All-map there ids (owned_get heap (a + 1) l ls ids o.1 e)

  module _ (m g : KvCacheManager T) (last : ℕ)
      (same : (i : ℕ) → i ≢ last → block_tokens g i ≡ block_tokens m i) where
    tokens_ne : (ids : List ℕ) → All (λ i. i ≢ last) ids → layer_tokens g ids ≡ layer_tokens m ids
    tokens_ne [] h = refl
    tokens_ne (i ∷ ids) h = rw (same i h.0, tokens_ne ids h.1)

    other_layer :
        (a : ℕ) (ids : List ℕ)
        → (m.heap last).layer ≢ a
        → All (λ i. (m.heap i).layer ≡ a) ids
        → All (λ i. i ≢ last) ids
    other_layer a [] h o = tt
    other_layer a (i ∷ ids) h o =
        (λ e. h (ap (λ j. (m.heap j).layer) (sym e) ∙ o.0), other_layer a ids h o.1)

    later_layers :
        (a : ℕ) (ls : List (List ℕ))
        → (m.heap last).layer < a
        → IsOwned m.heap a ls
        → map (layer_tokens g) ls ≡ map (layer_tokens m) ls
    later_layers a [] h o = refl
    later_layers a (ids ∷ ls) h o = rw (
      tokens_ne ids (other_layer a ids (omega arith) o.0),
      later_layers (a + 1) ls (omega arith) o.1,
    )

    -- Only the layer that has the block changes.
    view_after :
        (a l : ℕ) (ls : List (List ℕ)) (ids : List ℕ)
        → get_elem? ls l ≡ some ids
        → IsOwned m.heap a ls
        → (m.heap last).layer ≡ a + l
        → map (layer_tokens g) ls ≡ set (map (layer_tokens m) ls) l (layer_tokens g ids)
    view_after a l [] ids e o h = cc
    view_after a zero (js ∷ ls) ids e o h =
        let same_ids : js ≡ ids = cc in
        rw (same_ids, later_layers (a + 1) ls (omega arith) o.1) refl
    view_after a (suc l) (js ∷ ls) ids e o h =
        rw
          (
            tokens_ne js (other_layer a js (omega arith) o.0),
            view_after (a + 1) l ls ids e o.1 (omega arith),
          )
          refl

  -- The manager with `token` in the next slot of the block at `last`, whose tensor is `d`.
  abbrev pub written : KvCacheManager T → ℕ → Tensor T → T → KvCacheManager T
  written m last d token =
      let n = (m.heap last).token_count in
      put_block m last
        (record (m.heap last) { gpu_data = some (set d n token); token_count = n + 1 })

  module _ (m : KvCacheManager T) (last : ℕ) (d : Tensor T) (token : T) (v : IsValid m)
      (on_gpu : (m.heap last).tier ≡ gpu) (held : (m.heap last).gpu_data ≡ some d)
      (sized : length d ≡ m.block_size) (room : (m.heap last).token_count < m.block_size) where
    abbrev w : KvCacheManager T
    w = written m last d token

    written-other : (i : ℕ) → i ≢ last → block_tokens w i ≡ block_tokens m i
    written-other i h = ground arith

    written-last : block_tokens w last ≡ block_tokens m last ++ token ∷ []
    written-last =
        let n = (m.heap last).token_count in
        let now : block_tokens w last ≡ take (suc n) (set d n token) = ground (arith, add-one n) in
        let before : block_tokens m last ≡ take n d = ground arith in
        now ∙ rw before (take-set_next d n token (omega (arith, sized, room)))

    written-IsResident : (i : ℕ) → i < m.next_block_id → IsResident w i
    written-IsResident i h = elim (Bool-cases (last == i)) [
      | inl e ↦ record {
        tensor = set d (m.heap last).token_count token;
        held = ground arith;
        sized = length-set d (m.heap last).token_count token ∙ sized;
        fits = ground arith;
        capacity = ground (arith, (v.resident i h).capacity);
      }
      | inr e ↦
          let r = v.resident i h in
          record {
            tensor = r.tensor;
            held = ground (arith, r.held);
            sized = r.sized;
            fits = ground (arith, r.fits);
            capacity = ground (arith, r.capacity);
          }
    ]

    written-IsValid : IsValid w
    written-IsValid = record {
      own_paths = λ i p h. v.own_paths i p (ground arith);
      resident = written-IsResident;
      listed = v.listed;
      ascending = v.ascending;
      owned = IsOwned-agree m.heap w.heap 0 m.blocks (λ i. ground arith) v.owned;
    }

    -- The layer holds the token behind what it held, and the other layers hold what they held.
    pub written-Ingested :
        (l : ℕ) (ids : List ℕ)
        → get_elem? m.blocks l ≡ some ids
        → get_last? ids ≡ some last
        → Ingested m w l (layer_tokens m ids ++ token ∷ [])
    written-Ingested l ids found end =
        let (js, split) = split_last ids end in
        let at_l = owned_get m.heap 0 l m.blocks ids v.owned found in
        let owner : (m.heap last).layer ≡ 0 + l = All-last _ js last (rw split at at_l) in
        let old =
          (IsAscending-below 0 js last
            (rw split at (All-get (IsAscending 0) m.blocks l v.ascending found))).1 in
        let others : layer_tokens w js ≡ layer_tokens m js =
          tokens_ne m w last written-other js (All-map (λ i lt. omega arith) js old) in
        let tokens : layer_tokens w ids ≡ layer_tokens m ids ++ token ∷ [] =
          rw
            (
              split,
              layer_tokens-append w js (last ∷ []),
              layer_tokens-append m js (last ∷ []),
              others,
            )
            (rw written-last (simp (append-nil, append_assoc))) in
        record {
          valid = written-IsValid;
          config = refl;
          ids = ids;
          found = found;
          layer = tokens;
          view =
              view_after m w last written-other 0 l m.blocks ids found v.owned owner
              ∙ rw tokens refl;
        }
