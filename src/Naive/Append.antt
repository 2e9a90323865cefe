-- ===== src/Naive/Append.antt =====
-- `append_token` of `NaiveOffloadManager` takes the last token of every layer in.
use orch_kv_cache.Prelude.{
  ℕ, ◌+◌, ◌<◌, ◌≡◌, refl, sym, ap, ◌∙◌, inl, inr, false, none, some, Option, List, [], ◌∷◌, ◌++◌,
  arith, Bool-cases, Result, ok, type_error, ok_or, ◌>>=◌, length, length-append, replicate,
  get_elem?, get_last?, ltb, leb, ltb→lt, lt→leb_false,
}
use mathlib.Core.Path.{subst}
use mathlib.Core.List.{append_assoc}
use orch_kv_cache.Prelude.Slices.{assign_slot, last_slot}
use orch_kv_cache.Manager.{KvCacheManager, alloc_block}
use orch_kv_cache.Manager.Invariant.{layer_tokens, contents, IsResident, IsValid}
use orch_kv_cache.Manager.Build.Contents.{fetch-Keeps}
use orch_kv_cache.Manager.Ingest.{append_block, append_slot, write_slot}
use orch_kv_cache.Manager.Ingest.Append.{append_slot_lem, append_block_lem}
use orch_kv_cache.Manager.Ingest.Write.{split_last, All-last, last-append}
use orch_kv_cache.Manager.Ingest.Prefill.{Ingested, length-layer_tokens, listed-IsResident}
use orch_kv_cache.Manager.Ingest.Steps.{Extends, no_layer, layer, preimage, set_middle, single}
use orch_kv_cache.Naive.{
  NaiveManager, naive_count, naive_write_slot, naive_append_slot, naive_append_block,
  naive_append_to, naive_append_layer, naive_each_layer,
}
use orch_kv_cache.Naive.Plain.{plain, add_block-plain}
use orch_kv_cache.Naive.Simulation.{lift, lift-ok, lift-bind, naive_fetch_lem}

module _ {ℓ} {T : Type ℓ} where
  naive_append_block-lift :
      (n : NaiveManager T) (l : ℕ) (ids : List ℕ) (kv : List T)
      → get_elem? n.blocks l ≡ some ids
      → lift (naive_append_block n l ids kv) ≡ append_block (plain n) l (naive_count n ids) kv
  unfolding naive_append_block append_block alloc_block
  naive_append_block-lift n l ids kv found = rw found (
      lift-bind (last_slot kv) _ _ (λ token.
        lift-bind (assign_slot (replicate n.block_size n.zeros) 0 token) _ _
          (λ d. ap ok (add_block-plain n l ids (naive_count n ids) 1 d))))

  naive_write_slot-lift :
      (n : NaiveManager T) (last : ℕ) (kv : List T)
      → lift (naive_write_slot n last kv) ≡ write_slot (plain n) last (n.heap last).token_count kv
  unfolding naive_write_slot write_slot
  naive_write_slot-lift n last kv =
      lift-bind (ok_or type_error (n.heap last).gpu_data) _ _ (λ tensor.
        lift-bind (last_slot kv) _ _
          (λ token. lift-bind (assign_slot tensor (n.heap last).token_count token) _ _ (λ d. refl)))

  naive_append_slot-lift :
      (n : NaiveManager T) (last : ℕ) (kv : List T)
      → IsResident (plain n) last
      → lift (naive_append_slot n last kv) ≡ append_slot (plain n) last kv
  unfolding naive_append_slot append_slot
  naive_append_slot-lift n last kv r =
      let (g, fetched, same) = naive_fetch_lem n last r in
      let count : (g.heap last).token_count ≡ (n.heap last).token_count =
        ap (λ m. (m.heap last).token_count) same ∙ (fetch-Keeps (plain n) last).token_count last in
      ap (λ q. lift (q >>= λ k. naive_write_slot k last kv)) fetched
      ∙ (naive_write_slot-lift g last kv
          ∙ (ap (λ c. write_slot (plain g) last c kv) count
              ∙ ap (λ m. write_slot m last (n.heap last).token_count kv) same))

  -- What taking in one more token of a layer leads to.
  Taken : NaiveManager T → Result (NaiveManager T) → ℕ → List T → Type ℓ
  Taken n r l tokens = (g : NaiveManager T) × (r ≡ ok g) × Ingested (plain n) (plain g) l tokens

  lift-Taken :
      (n : NaiveManager T) (r : Result (NaiveManager T)) (s : Result (KvCacheManager T)) (l : ℕ)
      (tokens : List T) (m : KvCacheManager T)
      → lift r ≡ s
      → s ≡ ok m
      → Ingested (plain n) m l tokens
      → Taken n r l tokens
  unfolding Taken
  lift-Taken n r s l tokens m sim done p =
      let (g, e, same) = lift-ok r m (sim ∙ done) in
      (g, e, subst (λ k. Ingested (plain n) k l tokens) (sym same) p)

  naive_append_to_lem :
      (n : NaiveManager T) (l : ℕ) (token : T) (ids : List ℕ) (o : Option ℕ)
      → IsValid (plain n)
      → get_elem? n.blocks l ≡ some ids
      → 0 < n.block_size
      → get_last? ids ≡ o
      → Taken n
          (naive_append_to n l ids (layer_tokens (plain n) ids ++ token ∷ []) o)
          l
          (layer_tokens (plain n) ids ++ token ∷ [])
  naive_append_to_lem n l token ids o v found some_size end =
      let tokens = layer_tokens (plain n) ids ++ token ∷ [] in
      let final = last-append (layer_tokens (plain n) ids) token in
      let (b, made, p) =
        append_block_lem (plain n) l (naive_count n ids) ids tokens token v found final some_size in
      let full =
        lift-Taken n (naive_append_block n l ids tokens)
          (append_block (plain n) l (naive_count n ids) tokens) l tokens b
          (naive_append_block-lift n l ids tokens found) made p in
      by_last full o end
    where
      by_last :
          Taken n
            (naive_append_block n l ids (layer_tokens (plain n) ids ++ token ∷ []))
            l
            (layer_tokens (plain n) ids ++ token ∷ [])
          → (q : Option ℕ) → get_last? ids ≡ q
          → Taken n
              (naive_append_to n l ids (layer_tokens (plain n) ids ++ token ∷ []) q)
              l
              (layer_tokens (plain n) ids ++ token ∷ [])
      by_last full none e = full
      by_last full (some last) e =
          let tokens = layer_tokens (plain n) ids ++ token ∷ [] in
          let final = last-append (layer_tokens (plain n) ids) token in
          let (js, split) = split_last ids e in
          let r =
            All-last (IsResident (plain n)) js last
              (rw split at (listed-IsResident (plain n) l ids v found)) in
          elim (Bool-cases (ltb (n.heap last).token_count (n.heap last).capacity)) [
            | inl q ↦
                let room : (n.heap last).token_count < n.block_size =
                  omega (arith, ltb→lt _ _ q, r.capacity) in
                let (m, done, p) =
                  append_slot_lem (plain n) l ids last tokens token v found e final room in
                rw q (
                  lift-Taken n (naive_append_slot n last tokens) (append_slot (plain n) last tokens)
                    l tokens m (naive_append_slot-lift n last tokens r) done p)
            | inr q ↦ rw q full
          ]

  naive_append_layer_lem :
      (n : NaiveManager T) (l : ℕ) (token : T) (ids : List ℕ)
      → IsValid (plain n)
      → get_elem? n.blocks l ≡ some ids
      → 0 < n.block_size
      → (g : NaiveManager T) × (naive_append_layer n l (layer_tokens (plain n) ids ++ token ∷ [])
          ≡ ok g)
        × Ingested (plain n) (plain g) l (layer_tokens (plain n) ids ++ token ∷ [])
  unfolding naive_append_layer Taken
  naive_append_layer_lem n l token ids v found some_size =
      let kv = layer_tokens (plain n) ids ++ token ∷ [] in
      let listed = listed-IsResident (plain n) l ids v found in
      let longer : leb (length kv) (naive_count n ids) ≡ false =
        lt→leb_false (naive_count n ids) (length kv) (
          omega (
            arith,
            length-layer_tokens (plain n) ids listed,
            length-append (layer_tokens (plain n) ids) (token ∷ []),
          )) in
      let (g, done, p) = naive_append_to_lem n l token ids (get_last? ids) v found some_size refl in
      (g, rw (found, longer) done, p)

  pub naive_append_layers_lem :
      (n : NaiveManager T) (l : ℕ) (done : List (List T)) {old rest : List (List T)}
      → IsValid (plain n)
      → 0 < n.block_size
      → contents (plain n) ≡ done ++ old
      → l ≡ length done
      → Extends (λ new. length new ≡ 1) old rest
      → (g : NaiveManager T) × (naive_each_layer naive_append_layer n l rest ≡ ok g)
        × IsValid (plain g)
        × (0 < g.block_size)
        × (contents (plain g) ≡ done ++ rest)
  naive_append_layers_lem n l done v b view el no_layer = (n, refl, v, b, view)
  naive_append_layers_lem n l done v b view el
        (layer {x = x} {y = y} {xs = xs} {ys = ys} new e one rest) =
      let (ids, found, held) = preimage (layer_tokens (plain n)) n.blocks done xs x view in
      let (t, made) = single new one in
      let (g, stepped, q) = naive_append_layer_lem n l t ids v (rw el found) b in
      let ext : layer_tokens (plain n) ids ++ t ∷ [] ≡ y = rw (held, e, made) refl in
      let now : contents (plain g) ≡ done ++ y ∷ xs =
        q.view ∙ rw (ext, view, el) (set_middle done xs x y) in
      let (k, more, vk, bk, viewk) =
        naive_append_layers_lem g (l + 1) (done ++ y ∷ []) q.valid
          (subst (λ (s : ℕ). 0 < s) (sym (ap (λ c. c.block_size) q.config)) b)
          (now ∙ sym (append_assoc done (y ∷ []) xs))
          (omega (arith, el, length-append done (y ∷ []))) rest in
      (k, rw (rw ext at stepped) more, vk, bk, viewk ∙ append_assoc done (y ∷ []) ys)
