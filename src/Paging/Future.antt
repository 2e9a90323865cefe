-- ===== src/Paging/Future.antt =====
-- `sim_opt`: what the table of next uses says.
use orch_kv_cache.Prelude.{
  ℕ, suc, ◌+◌, ◌<◌, ◌==◌, ◌≡◌, ◌≢◌, refl, ap, ◌∙◌, inl, inr, arith, true, false, ◌&&◌, Option, none,
  some, List, [], ◌∷◌, ◌++◌, if◌then◌else◌, option_or, length, Bool-cases, ==_iff,
}
use orch_kv_cache.Prelude.Dict.{find, put, find-put, find-put_ne, nat_key, pair_key}
use orch_kv_cache.Prelude.Sets.{contains, IsDistinct}
use orch_kv_cache.Paging.{Uses, note_next, note_use, note_uses, scan_uses, opt_key}

-- The first step that requests the page, of the steps from `step` on.
unfoldable pub first_use : ℕ → ℕ → List (List ℕ) → Option ℕ
first_use step page [] = none
first_use step page (req ∷ reqs) = elim (contains page req) [
  | true ↦ some step
  | false ↦ first_use (step + 1) page reqs
]

-- One dict entry, read back at any key.
find-put_if :
    (k j v : ℕ) (d : List (ℕ × ℕ)) → find j (put k v d) ≡ (if k == j then some v else find j d)
find-put_if k j v d = elim (Bool-cases (k == j)) [
  | inl e ↦ let same : k ≡ j = (==_iff k j).0 e in rw (e, ← same) (find-put k v d)
  | inr e ↦ rw e (find-put_ne k j v d (λ q. absurd (ground arith)))
]

find-put_pair :
    (s t p q v : ℕ) (d : List ((ℕ × ℕ) × ℕ))
    → find (t, q) (put (s, p) v d) ≡ (if (s == t) && (p == q) then some v else find (t, q) d)
find-put_pair s t p q v d = elim (Bool-cases ((s == t) && (p == q))) [
  | inl e ↦
      let same : s ≡ t = ground arith in
      let same' : p ≡ q = ground arith in rw (e, ← same, ← same') (find-put (s, p) v d)
  | inr e ↦
      let other : (s, p) ≢ (t, q) =
        λ h. absurd (ground (arith, ap (λ x. x.0) h, ap (λ x. x.1) h)) in
      rw e (find-put_ne (s, p) (t, q) v d other)
]

note_use-last :
    (step p q : ℕ) (u : Uses)
    → find q (note_use step u p).last ≡ (if p == q then some step else find q u.last)
note_use-last step p q u =
    elim (find p u.last)
      as (λ o.
        find q (put p step (note_next step p u o).last)
        ≡ (if p == q then some step else find q u.last)) [
          | none ↦ find-put_if p q step u.last
          | some k ↦ find-put_if p q step u.last
        ]

note_uses-last :
    (step p : ℕ) (u : Uses) (req : List ℕ)
    → find p (note_uses step u req).last ≡ (if contains p req then some step else find p u.last)
note_uses-last step p u [] = refl
note_uses-last step p u (x ∷ req) =
    ground (arith, note_uses-last step p (note_use step u x) req, note_use-last step x p u)

scan_uses-last :
    (step p : ℕ) (reqs : List (List ℕ)) → find p (scan_uses step reqs).last ≡ first_use step p reqs
unfolding scan_uses first_use
scan_uses-last step p [] = refl
scan_uses-last step p (req ∷ reqs) =
    ground (
      arith,
      note_uses-last step p (scan_uses (step + 1) reqs) req,
      scan_uses-last (step + 1) p reqs,
    )

-- An entry of another page, or of another step, stays.
note_use-next_other :
    (step t p q : ℕ) (u : Uses)
    → ((step == t) && (p == q)) ≡ false
    → find (t, q) (note_use step u p).next_use ≡ find (t, q) u.next_use
note_use-next_other step t p q u h =
    elim (find p u.last)
      as (λ o. find (t, q) (note_next step p u o).next_use ≡ find (t, q) u.next_use) [
        | none ↦ refl
        | some k ↦ find-put_pair step t p q k u.next_use ∙ rw h refl
      ]

-- The entry of the page at the step is the last use that was noted.
note_use-next :
    (step p : ℕ) (u : Uses)
    → find (step, p) u.next_use ≡ none
    → find (step, p) (note_use step u p).next_use ≡ find p u.last
note_use-next step p u absent =
    elim (find p u.last) as (λ o. find (step, p) (note_next step p u o).next_use ≡ o) [
      | none ↦ absent
      | some k ↦ find-put_pair step step p p k u.next_use ∙ ground arith
    ]

note_uses-next_other :
    (step t q : ℕ) (u : Uses) (req : List ℕ)
    → ((step == t) && contains q req) ≡ false
    → find (t, q) (note_uses step u req).next_use ≡ find (t, q) u.next_use
note_uses-next_other step t q u [] h = refl
note_uses-next_other step t q u (x ∷ req) h =
    note_uses-next_other step t q (note_use step u x) req (ground arith)
    ∙ note_use-next_other step t x q u (ground arith)

note_uses-next :
    (step q : ℕ) (u : Uses) (req : List ℕ)
    → IsDistinct req
    → contains q req ≡ true
    → find (step, q) u.next_use ≡ none
    → find (step, q) (note_uses step u req).next_use ≡ find q u.last
note_uses-next step q u [] d h absent = cc
note_uses-next step q u (x ∷ req) d h absent = elim (Bool-cases (x == q)) [
  | inl e ↦
      let same : x ≡ q = (==_iff x q).0 e in
      let gone : ((step == step) && contains q req) ≡ false = rw (← same) (ground arith) in
      note_uses-next_other step step q (note_use step u x) req gone
      ∙ rw same (note_use-next step q u absent)
  | inr e ↦
      let later : contains q req ≡ true = ground arith in
      let other : ((step == step) && (x == q)) ≡ false = ground arith in
      note_uses-next step q (note_use step u x) req d.1 later
        (note_use-next_other step step x q u other ∙ absent)
      ∙ note_use-last step x q u
      ∙ rw e refl
]

scan_uses-next_none :
    (step t q : ℕ) (reqs : List (List ℕ))
    → t < step
    → find (t, q) (scan_uses step reqs).next_use ≡ none
unfolding scan_uses
scan_uses-next_none step t q [] h = refl
scan_uses-next_none step t q (req ∷ reqs) h =
    note_uses-next_other step t q (scan_uses (step + 1) reqs) req (ground arith)
    ∙ scan_uses-next_none (step + 1) t q reqs (omega arith)

scan_uses-next :
    (step q : ℕ) (before : List (List ℕ)) (req : List ℕ) (after : List (List ℕ))
    → IsDistinct req
    → find (step + length before, q) (scan_uses step (before ++ req ∷ after)).next_use
      ≡ (if contains q req then first_use (step + length before + 1) q after else none)
unfolding scan_uses
scan_uses-next step q [] req after d =
    let here : step + 0 ≡ step = omega arith in
    let rest = scan_uses (step + 1) after in
    let absent = scan_uses-next_none (step + 1) step q after (omega arith) in
    rw here (elim (Bool-cases (contains q req)) [
      | inl h ↦ rw h (note_uses-next step q rest req d h absent ∙ scan_uses-last (step + 1) q after)
      | inr h ↦ rw h (note_uses-next_other step step q rest req (ground arith) ∙ absent)
    ])
scan_uses-next step q (b ∷ before) req after d =
    let shift : step + suc (length before) ≡ step + 1 + length before = omega arith in
    rw shift (
      note_uses-next_other step (step + 1 + length before) q
        (scan_uses (step + 1) (before ++ req ∷ after)) b (ground arith)
      ∙ scan_uses-next (step + 1) q before req after d)

-- The key by which `sim_opt` compares the pages of the cache in a step whose pages are distinct: of a
-- page that the step requests, the first later step that requests it, or a number past the end
-- if there is none; of any other page this number, whether it is requested later or not.
pub opt_key_cases :
    (before : List (List ℕ)) (req : List ℕ) (after : List (List ℕ)) (page : ℕ)
    → IsDistinct req
    → opt_key (before ++ req ∷ after) (length before) page ≡ (
        if contains page req
        then option_or
            (first_use (length before + 1) page after)
            (length (before ++ req ∷ after) + 1)
        else length (before ++ req ∷ after) + 1)
unfolding opt_key
opt_key_cases before req after page d =
    let zero_add : 0 + length before ≡ length before = omega arith in
    let found = scan_uses-next 0 page before req after d in
    let entry : find (length before, page) (scan_uses 0 (before ++ req ∷ after)).next_use
        ≡ (if contains page req then first_use (length before + 1) page after else none) =
      rw (← zero_add) found in
    rw entry (ground arith)
