-- ===== src/Manager/Ingest/Append.antt =====
-- `append_token` takes the last token of every layer in.
use orch_kv_cache.Prelude.{
  ℕ, zero, suc, ◌<◌, ◌≡◌, refl, sym, ap, ◌∙◌, true, false, some, List, [], ◌∷◌, ◌++◌, arith, length,
  take, get_elem?, get_last?, set, replicate, Bool-cases, Option-cases, inl, inr, ok, length-append,
  length-set, length-replicate, ltb, leb, lt→ltb, ltb→lt, lt→leb_false, if◌then◌else◌,
}
use orch_kv_cache.Prelude.Slices.{assign_slot}
use orch_kv_cache.Manager.{Tensor, KvCacheManager, alloc_block, gpu, same_tier}
use orch_kv_cache.Manager.Invariant.{
  stored, layer_tokens, IsValid, IsResident, Keeps, Keeps-refl, Keeps-IsValid, Keeps-contents,
  Keeps-layer_tokens,
}
use orch_kv_cache.Manager.Moves.{promote_block}
use orch_kv_cache.Manager.Moves.Keeps.{promote_block-Keeps}
use orch_kv_cache.Manager.Moves.Fetch.{promote_block-gpu_data, promote_block-tier}
use orch_kv_cache.Manager.Ingest.{
  fetch_last, write_slot, append_slot, append_block, append_to, append_layer, managed,
}
use orch_kv_cache.Manager.Ingest.Grow.{grown, Grown-Grown}
use orch_kv_cache.Manager.Ingest.Write.{
  written, written-Ingested, split_last, All-last, last-append,
}
use orch_kv_cache.Manager.Ingest.Prefill.{
  Ingested, ingest_layer_lem, length-layer_tokens, listed-IsResident,
}

module _ {ℓ} {T : Type ℓ} where
  -- The block at `i`, on the GPU with its tensor.
  record Fetched (m n : KvCacheManager T) (i : ℕ) (d : Tensor T) : Type ℓ where
    keeps : Keeps m n
    on_gpu : (n.heap i).tier ≡ gpu
    held : (n.heap i).gpu_data ≡ some d

  fetched :
      (m : KvCacheManager T) (i : ℕ) (d : Tensor T)
      → stored m i ≡ some d
      → Fetched m (fetch_last m i) i d
  fetched m i d h = record {
    keeps =
        elim (same_tier (m.heap i).tier gpu)
          as (λ b. Keeps m (if b then m else promote_block m i)) [
            | true ↦ Keeps-refl m
            | false ↦ promote_block-Keeps m i
          ];
    on_gpu = ground (arith, promote_block-tier m i d h);
    held = ground (arith, promote_block-gpu_data m i d h);
  }

  write_slot_lem :
      (m : KvCacheManager T) (last idx : ℕ) (d : Tensor T) (kv : List T) (token : T)
      → (m.heap last).gpu_data ≡ some d
      → idx ≡ (m.heap last).token_count
      → idx < length d
      → get_last? kv ≡ some token
      → write_slot m last idx kv ≡ ok (written m last d token)
  unfolding write_slot assign_slot
  write_slot_lem m last idx d kv token held e room final =
      rw (held, final, lt→ltb idx (length d) room, e) refl

  Keeps-Ingested :
      {m n g : KvCacheManager T} (l : ℕ) {tokens : List T}
      → Keeps m n
      → Ingested n g l tokens
      → Ingested m g l tokens
  Keeps-Ingested l k p = record {
    valid = p.valid;
    config = p.config ∙ k.config;
    ids = p.ids;
    found = p.found;
    layer = p.layer;
    view = p.view ∙ rw (Keeps-contents k) refl;
  }

  pub append_slot_lem :
      (m : KvCacheManager T) (l : ℕ) (ids : List ℕ) (last : ℕ) (kv : List T) (token : T)
      → IsValid m
      → get_elem? m.blocks l ≡ some ids
      → get_last? ids ≡ some last
      → get_last? kv ≡ some token
      → (m.heap last).token_count < m.block_size
      → (g : KvCacheManager T) × (append_slot m last kv ≡ ok g)
        × Ingested m g l (layer_tokens m ids ++ token ∷ [])
  unfolding append_slot
  append_slot_lem m l ids last kv token v found end final room =
      let (js, split) = split_last ids end in
      let r = All-last (IsResident m) js last (rw split at (listed-IsResident m l ids v found)) in
      let f = fetched m last r.tensor r.held in
      let n = fetch_last m last in
      let q =
        written-Ingested n last r.tensor token (Keeps-IsValid f.keeps v) f.on_gpu f.held
          (rw f.keeps.config r.sized) (rw (f.keeps.config, f.keeps.token_count last) room) l ids
          (rw f.keeps.blocks found) end in
      (
        written n last r.tensor token,
        write_slot_lem n last _ r.tensor kv token f.held (sym (f.keeps.token_count last))
            (omega (arith, r.sized, room)) final,
        Keeps-Ingested l f.keeps (rw (Keeps-layer_tokens f.keeps ids) at q),
      )

  first_slot : (n : ℕ) (z token : T) → 0 < n → take 1 (set (replicate n z) 0 token) ≡ token ∷ []
  first_slot zero z token h = absurd (omega arith)
  first_slot (suc n) z token h = refl

  pub append_block_lem :
      (m : KvCacheManager T) (l pos : ℕ) (ids : List ℕ) (kv : List T) (token : T)
      → IsValid m
      → get_elem? m.blocks l ≡ some ids
      → get_last? kv ≡ some token
      → 0 < m.block_size
      → (g : KvCacheManager T) × (append_block m l pos kv ≡ ok g)
        × Ingested m g l (layer_tokens m ids ++ token ∷ [])
  unfolding append_block assign_slot alloc_block
  append_block_lem m l pos ids kv token v found final some_size =
      let d = set (replicate m.block_size m.zeros) 0 token in
      let size = length-replicate m.block_size m.zeros in
      let r = Grown-Grown m l pos 1 ids d v found (length-set _ 0 token ∙ size) some_size in
      let tokens =
        r.layer
        ∙ ap (◌++◌ (layer_tokens m ids)) (first_slot m.block_size m.zeros token some_size) in
      (
        grown m l ids pos 1 d,
        rw
            (
              found,
              final,
              lt→ltb 0 (length (replicate m.block_size m.zeros)) (omega (arith, size, some_size)),
            )
            refl,
        record {
          valid = r.valid;
          config = r.config;
          ids = ids ++ m.next_block_id ∷ [];
          found = r.found;
          layer = tokens;
          view = r.view ∙ rw tokens refl;
        },
      )

  append_to_lem :
      (m : KvCacheManager T) (l : ℕ) (token : T) (ids : List ℕ)
      → IsValid m
      → get_elem? m.blocks l ≡ some ids
      → 0 < m.block_size
      → (g : KvCacheManager T) × (append_to m l ids (layer_tokens m ids ++ token ∷ []) ≡ ok g)
        × Ingested m g l (layer_tokens m ids ++ token ∷ [])
  unfolding append_to
  append_to_lem m l token ids v found some_size =
      let kv = layer_tokens m ids ++ token ∷ [] in
      let final = last-append (layer_tokens m ids) token in
      let listed = listed-IsResident m l ids v found in
      let longer : leb (length kv) (managed m ids) ≡ false =
        lt→leb_false (managed m ids) (length kv) (
          omega (
            arith,
            length-layer_tokens m ids listed,
            length-append (layer_tokens m ids) (token ∷ []),
          )) in
      elim (Option-cases (get_last? ids)) [
        | inl e ↦
            let (g, done, p) = ingest_layer_lem m l (token ∷ []) ids v found some_size in
            (g, rw (e, append_to) done, p)
        | inr (last, e) ↦
            let (js, split) = split_last ids e in
            let r = All-last (IsResident m) js last (rw split at listed) in
            elim (Bool-cases (ltb (m.heap last).token_count (m.heap last).capacity)) [
              | inl q ↦
                  let room : (m.heap last).token_count < m.block_size =
                    omega (arith, ltb→lt _ _ q, r.capacity) in
                  let (g, done, p) = append_slot_lem m l ids last kv token v found e final room in
                  (g, rw (e, append_to) (rw (longer, q) done), p)
              | inr q ↦
                  let (g, done, p) =
                    append_block_lem m l (managed m ids) ids kv token v found final some_size in
                  (g, rw (e, append_to) (rw (longer, q) done), p)
            ]
      ]

  -- One more token of a layer is taken in, by whichever branch.
  pub append_layer_lem :
      (m : KvCacheManager T) (l : ℕ) (token : T) (ids : List ℕ)
      → IsValid m
      → get_elem? m.blocks l ≡ some ids
      → 0 < m.block_size
      → (g : KvCacheManager T) × (append_layer m l (layer_tokens m ids ++ token ∷ []) ≡ ok g)
        × Ingested m g l (layer_tokens m ids ++ token ∷ [])
  unfolding append_layer
  append_layer_lem m l token ids v found some_size =
      let (g, done, p) = append_to_lem m l token ids v found some_size in (g, rw found done, p)
