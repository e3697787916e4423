-- ===== src/Adapter/Matching.antt =====
-- How imported results are linked to the executions that wait for one.
use docsight.Prelude.{
  second, ℕ, ◌-◌, ◌*◌, ◌≤◌, max, true, false, Option, none, some, List, [], ◌∷◌, ltb, if◌then◌else◌,
  ◌≡◌, ◌⊎◌, inl, inr, refl, All, arith, Bool-cases, Option-cases, ap, sym, ◌∙◌, subst,
}
use docsight.Executions.{
  fired, completed, Execution, Store, Update, no_update, has_status, update_row, update_where,
  claim_execution, get_fired_unmatched,
}
use docsight.Adapter.{
  Settings, is_candidate, nearer, best_result, link_each, Imported, with_time, on_results_imported,
}

-- `r` is one of the results.
abbrev pub OneOf : ℕ × ℕ → List (ℕ × ℕ) → Type 0
OneOf r [] = ⊥
OneOf r (x ∷ results) = (r ≡ x) ⊎ OneOf r results

-- The nearest candidate: from the list or given before, and no candidate of either is nearer.
abbrev pub IsNearest : ℕ → ℕ → List ℕ → Option (ℕ × ℕ) → List (ℕ × ℕ) → Option (ℕ × ℕ) → Type 0
IsNearest start window matched best results none =
    (best ≡ none) × All (λ x. is_candidate start window matched x ≡ false) results
IsNearest start window matched best results (some r) =
    ((best ≡ some r) ⊎ (OneOf r results × (is_candidate start window matched r ≡ true)))
    × ((b : ℕ × ℕ) → best ≡ some b → r.1 - start ≤ b.1 - start)
    × All (λ x. is_candidate start window matched x ≡ true → r.1 - start ≤ x.1 - start) results

abbrev time_of : Option (ℕ × ℕ) → ℕ
time_of none = 0
time_of (some r) = r.1

-- What one round of the loop does to the best result.
nearer_lem :
    (start window : ℕ) (matched : List ℕ) (x : ℕ × ℕ) (best : Option (ℕ × ℕ))
    → ((nearer start window matched x best ≡ best)
        × (is_candidate start window matched x ≡ true
            → (b : ℕ × ℕ) × (best ≡ some b) × (b.1 - start ≤ x.1 - start)))
      ⊎ ((nearer start window matched x best ≡ some x)
          × (is_candidate start window matched x ≡ true)
          × ((b : ℕ × ℕ) → best ≡ some b → x.1 - start ≤ b.1 - start))
unfolding nearer
nearer_lem start window matched x none = elim (Bool-cases (is_candidate start window matched x)) [
  | inl c ↦ inr (rw c, c, λ b e. cc)
  | inr c ↦ inl (rw c, λ d. cc (c, d))
]
nearer_lem start window matched x (some b) =
    elim (Bool-cases (is_candidate start window matched x)) [
      | inr c ↦ inl (rw c, λ d. cc (c, d))
      | inl c ↦ elim (Bool-cases (ltb (x.1 - start) (b.1 - start))) [
        | inl closer ↦ inr (rw (c, closer), c, λ d e. ground (arith, closer, ap time_of e))
        | inr far ↦ inl (rw (c, far), λ d. (b, refl, ground (arith, far)))
      ]
    ]

IsNearest-cons :
    (start window : ℕ) (matched : List ℕ) (best best' : Option (ℕ × ℕ)) (x : ℕ × ℕ)
    (results : List (ℕ × ℕ)) (out : Option (ℕ × ℕ))
    → nearer start window matched x best ≡ best'
    → IsNearest start window matched best' results out
    → IsNearest start window matched best (x ∷ results) out
IsNearest-cons start window matched best best' x results none step (e, far) =
    elim (nearer_lem start window matched x best) [
      | inl (same, at) ↦ (
        sym same ∙ step ∙ e,
        (
          elim (Bool-cases (is_candidate start window matched x)) [
            | inr c ↦ c
            | inl c ↦ let (b, found, le) = at c in cc (found, same, step, e)
          ],
          far,
        ),
      )
      | inr (new, c, closer) ↦ cc (new, step, e)
    ]
IsNearest-cons start window matched best best' x results (some r) step (from, least, all_far) =
    elim (nearer_lem start window matched x best) [
      | inl (same, at) ↦ (
        elim from [ inl e ↦ inl (sym same ∙ step ∙ e) | inr (m, c) ↦ inr (inr m, c) ],
        λ b e. least b (sym step ∙ same ∙ e),
        (
          λ c. let (b, found, le) = at c in omega (arith, le, least b (sym step ∙ same ∙ found)),
          all_far,
        ),
      )
      | inr (new, c, closer) ↦
          let here = least x (sym step ∙ new) in
          (
            elim from [
              | inl e ↦ let same : r ≡ x = cc (e, step, new) in inr (inl same, rw same c)
              | inr (m, c') ↦ inr (inr m, c')
            ],
            λ b e. omega (arith, here, closer b e),
            (λ d. here, all_far),
          )
    ]

best_result_invariant :
    (start window : ℕ) (matched : List ℕ) (best : Option (ℕ × ℕ)) (results : List (ℕ × ℕ))
    → IsNearest start window matched best results (best_result start window matched best results)
unfolding best_result
best_result_invariant start window matched none [] = (refl, tt)
best_result_invariant start window matched (some b) [] =
    (inl refl, λ c e. ground (arith, ap time_of e), tt)
best_result_invariant start window matched best (x ∷ results) =
    let best' = nearer start window matched x best in
    IsNearest-cons start window matched best best' x results
      (best_result start window matched best' results) refl
      (best_result_invariant start window matched best' results)

-- The result that is linked to a fire is one of those imported, not used before, at most the window
-- behind the fire, and no other such result is nearer to it; there is none only if no result qualifies.
pub best_result-IsNearest :
    (start window : ℕ) (matched : List ℕ) (results : List (ℕ × ℕ))
    → IsNearest start window matched none results (best_result start window matched none results)
best_result-IsNearest start window matched results =
    best_result_invariant start window matched none results

best_result-OneOf :
    (start window : ℕ) (matched : List ℕ) (results : List (ℕ × ℕ)) (r : ℕ × ℕ)
    → best_result start window matched none results ≡ some r
    → OneOf r results
best_result-OneOf start window matched results r e =
    elim (subst (IsNearest start window matched none results) e
      (best_result_invariant start window matched none results)).0 [
        | inl absent ↦ cc (absent)
        | inr (m, c) ↦ m
      ]

-- A row that is as before, or was fired and is completed by one of the results.
abbrev pub Settled : List (ℕ × ℕ) → Execution → Execution → Type 0
Settled results row row' =
    (row' ≡ row)
    ⊎ ((row.status ≡ fired)
        × (row'.status ≡ completed)
        × (row'.id ≡ row.id)
        × (row'.fired_at ≡ row.fired_at)
        × (r : ℕ × ℕ) × (row'.linked_result_id ≡ some r.0)
        × OneOf r results)

abbrev pub AllSettled : List (ℕ × ℕ) → List Execution → List Execution → Type 0
AllSettled results [] [] = Unit
AllSettled results (row ∷ rows) (row' ∷ rows') =
    Settled results row row' × AllSettled results rows rows'
AllSettled results _ _ = ⊥

abbrev link : ℕ → ℕ × ℕ → Update
link now r = record no_update {
  status = some completed;
  completed_at = some now;
  linked_result_id = some r.0;
}

settle_row :
    (results : List (ℕ × ℕ)) (id now : ℕ) (r : ℕ × ℕ) (row row' : Execution)
    → OneOf r results
    → Settled results row row'
    → Settled results row (if has_status id fired row' then update_row (link now r) row' else row')
settle_row results id now r row row' m h = elim (Bool-cases (has_status id fired row')) [
  | inr e ↦ rw e h
  | inl e ↦
      let waiting : row'.status ≡ fired = ground arith in
      rw e (elim h [
        | inl same ↦ inr (
          ap (λ (x : Execution). x.status) (sym same) ∙ waiting,
          refl,
          ap (λ (x : Execution). x.id) same,
          ap (λ (x : Execution). x.fired_at) same,
          r,
          refl,
          m,
        )
        | inr done ↦ cc (waiting, done.1)
      ])
]

claim-AllSettled :
    (results : List (ℕ × ℕ)) (id now : ℕ) (r : ℕ × ℕ) (rows rows' : List Execution)
    → OneOf r results
    → AllSettled results rows rows'
    → AllSettled results rows (update_where (has_status id fired) (link now r) rows')
claim-AllSettled results id now r [] [] m h = tt
claim-AllSettled results id now r [] (row' ∷ rows') m h = h
claim-AllSettled results id now r (row ∷ rows) [] m h = h
claim-AllSettled results id now r (row ∷ rows) (row' ∷ rows') m h =
    (settle_row results id now r row row' m h.0, claim-AllSettled results id now r rows rows' m h.1)

AllSettled-refl : (results : List (ℕ × ℕ)) (rows : List Execution) → AllSettled results rows rows
AllSettled-refl results [] = tt
AllSettled-refl results (row ∷ rows) = (inl refl, AllSettled-refl results rows)

link_each-AllSettled :
    (now window : ℕ) (results : List (ℕ × ℕ)) (matched : List ℕ) (waiting rows : List Execution)
    (s : Store)
    → AllSettled results rows s.rows
    → AllSettled results rows (link_each now window results matched waiting s).rows
unfolding link_each claim_execution
link_each-AllSettled now window results matched [] rows s h = h
link_each-AllSettled now window results matched (w ∷ waiting) rows s h =
    elim (Option-cases w.fired_at) [
      | inl e ↦ rw (e, link_each) (link_each-AllSettled now window results matched waiting rows s h)
      | inr (start, e) ↦ elim (Option-cases (best_result start window matched none results)) [
        | inl f ↦
            rw (e, link_each)
              (rw (f, link_each) (link_each-AllSettled now window results matched waiting rows s h))
        | inr (r, f) ↦
            let (ok, s') = claim_execution w.id fired completed now r.0 s in
            let h' : AllSettled results rows s'.rows =
              claim-AllSettled results w.id now r rows s.rows
                (best_result-OneOf start window matched results r f) h in
            rw (e, link_each)
              (rw (f, link_each)
                (link_each-AllSettled now window results (if ok then r.0 ∷ matched else matched)
                  waiting rows s' h'))
      ]
    ]

-- An import changes only executions that were fired: each of them stays, or is completed and linked
-- to one of the imported results that has a time. All other rows stay as they were.
pub on_results_imported-AllSettled :
    (cfg : Settings) (now : ℕ) (results : List Imported) (s : Store)
    → AllSettled (with_time results) s.rows (on_results_imported cfg now results s).rows
unfolding on_results_imported
on_results_imported-AllSettled cfg now results s =
    link_each-AllSettled now (max 1 cfg.match_window * second) (with_time results) []
      (get_fired_unmatched s) s.rows s (AllSettled-refl (with_time results) s.rows)
