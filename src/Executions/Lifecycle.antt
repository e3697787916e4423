-- ===== src/Executions/Lifecycle.antt =====
-- The life of a capture execution: which statuses follow which, and what each status implies.
use docsight.Prelude.{
  ℕ, suc, ◌<◌, String, Bool, true, false, Option, none, some, List, [], ◌∷◌, ◌++◌, ◌≡◌, ◌≢◌, ◌⊎◌,
  inl, inr, refl, length, ap, ◌∙◌, All, All-append, All-map, Bool-cases, arith,
}
use docsight.Executions.{
  Status, pending, fired, completed, suppressed, expired, Reason, no_matching_result,
  no_action_adapter, Execution, Store, save_execution, Update, update_row, update_where, is_none,
  no_update, is_stale_fired, is_stale_pending, has_status, claim_execution, expire_stale_fired,
  expire_stale_pending,
}

-- What a status says of the other columns.
pub record IsSound (row : Execution) : Type 0 where
  pub fired_timed : row.status ≡ fired → is_none row.fired_at ≡ false
  pub completed_timed : row.status ≡ completed → is_none row.fired_at ≡ false
  pub completed_linked : row.status ≡ completed → is_none row.linked_result_id ≡ false
  pub only_completed_linked : is_none row.linked_result_id ≡ false → row.status ≡ completed
  pub pending_unfired : row.status ≡ pending → row.fired_at ≡ none
  pub suppressed_unfired : row.status ≡ suppressed → row.fired_at ≡ none
  pub suppressed_explained : row.status ≡ suppressed → is_none row.suppression_reason ≡ false

-- The moves that the program makes; `completed`, `suppressed` and `expired` are final.
infix 40 ◌⟶◌
pub data ◌⟶◌ : Status → Status → Type 0 where
  fire : pending ⟶ fired
  suppress : pending ⟶ suppressed
  give_up : pending ⟶ expired
  complete : fired ⟶ completed
  time_out : fired ⟶ expired

-- A row that stays, or makes one move, and keeps its identity.
abbrev pub Moves : Execution → Execution → Type 0
Moves r r' =
    (r'.id ≡ r.id)
    × (r'.created_at ≡ r.created_at)
    × ((r'.status ≡ r.status) ⊎ (r.status ⟶ r'.status))

abbrev pub AllMove : List Execution → List Execution → Type 0
AllMove [] [] = Unit
AllMove (r ∷ rows) (r' ∷ rows') = Moves r r' × AllMove rows rows'
AllMove _ _ = ⊥

pub All-update_where {ℓ} :
    (P : Execution → Type ℓ) (cond : Execution → Bool) (u : Update) (rows : List Execution)
    → ((row : Execution) → cond row ≡ true → P row → P (update_row u row))
    → All P rows
    → All P (update_where cond u rows)
All-update_where P cond u [] f h = tt
All-update_where P cond u (row ∷ rows) f h = (
  elim (Bool-cases (cond row)) [ inl e ↦ rw e (f row e h.0) | inr e ↦ rw e h.0 ],
  All-update_where P cond u rows f h.1,
)

pub AllMove-update_where :
    (cond : Execution → Bool) (u : Update) (rows : List Execution)
    → ((row : Execution) → cond row ≡ true → Moves row (update_row u row))
    → AllMove rows (update_where cond u rows)
AllMove-update_where cond u [] f = tt
AllMove-update_where cond u (row ∷ rows) f = (
  elim (Bool-cases (cond row)) [ inl e ↦ rw e (f row e) | inr e ↦ rw e (refl, refl, inl refl) ],
  AllMove-update_where cond u rows f,
)

-- The rows are sound and moved along the diagram from those before.
abbrev pub Advances : List Execution → List Execution → Type 0
Advances rows rows' = All IsSound rows' × AllMove rows rows'

-- An update of the rows in one status, to another that follows it.
pub update_where-Advances :
    (cond : Execution → Bool) (u : Update) (from to : Status) (rows : List Execution)
    → ((row : Execution) → cond row ≡ true → row.status ≡ from)
    → u.status ≡ some to
    → from ⟶ to
    → ((row : Execution) → cond row ≡ true → IsSound row → IsSound (update_row u row))
    → All IsSound rows
    → Advances rows (update_where cond u rows)
update_where-Advances cond u from to rows at_from at_to edge keeps h = (
  All-update_where IsSound cond u rows keeps h,
  AllMove-update_where cond u rows (λ row e. (refl, refl, inr (rw (at_from row e, at_to) edge))),
)

-- The same where only the listed rows are known to be in the first status.
pub update_listed-Advances :
    (cond : Execution → Bool) (u : Update) (from to : Status) (rows : List Execution)
    → u.status ≡ some to
    → from ⟶ to
    → ((row : Execution) → row.status ≡ from → IsSound row → IsSound (update_row u row))
    → All (λ row. cond row ≡ true → row.status ≡ from) rows
    → All IsSound rows
    → Advances rows (update_where cond u rows)
update_listed-Advances cond u from to [] at_to edge keeps at_from h = (tt, tt)
update_listed-Advances cond u from to (row ∷ rows) at_to edge keeps at_from h =
    let rest = update_listed-Advances cond u from to rows at_to edge keeps at_from.1 h.1 in
    elim (Bool-cases (cond row)) [
      | inl e ↦
          let here = at_from.0 e in
          rw e ((keeps row here h.0, rest.0), ((refl, refl, inr (rw (here, at_to) edge)), rest.1))
      | inr e ↦ rw e ((h.0, rest.0), ((refl, refl, inl refl), rest.1))
    ]

stale_fired : (cutoff : ℕ) (row : Execution) → is_stale_fired cutoff row ≡ true → row.status ≡ fired
stale_fired cutoff row e = ground arith

stale_pending :
    (cutoff : ℕ) (row : Execution) → is_stale_pending cutoff row ≡ true → row.status ≡ pending
stale_pending cutoff row e = ground arith

claimed : (id : ℕ) (row : Execution) → has_status id fired row ≡ true → row.status ≡ fired
claimed id row e = ground arith

-- Expiry and the linking of a result keep every row sound and move it along the diagram: a row that
-- is completed, suppressed or expired stays so.
pub expiry_and_claim_advance :
    (cutoff id now result : ℕ) (s : Store)
    → All IsSound s.rows
    → Advances s.rows (expire_stale_fired cutoff s).1.rows
      × Advances s.rows (expire_stale_pending cutoff s).1.rows
      × Advances s.rows (claim_execution id fired completed now result s).1.rows
unfolding expire_stale_fired expire_stale_pending claim_execution
expiry_and_claim_advance cutoff id now result s h = (
  update_where-Advances (is_stale_fired cutoff)
      (record no_update { status = some expired; last_error = some no_matching_result }) fired
      expired s.rows (stale_fired cutoff) refl time_out
      (λ row e v. ground (arith, stale_fired cutoff row e)) h,
  update_where-Advances (is_stale_pending cutoff)
      (record no_update { status = some expired; last_error = some no_action_adapter }) pending
      expired s.rows (stale_pending cutoff) refl give_up
      (λ row e v. ground (arith, stale_pending cutoff row e)) h,
  update_where-Advances (has_status id fired)
      (record no_update {
        status = some completed;
        completed_at = some now;
        linked_result_id = some result;
      })
      fired completed s.rows (claimed id) refl complete
      (λ row e v. ground (arith, claimed id row e)) h,
)

-- The ids are those given out, each one once.
abbrev pub AllNewer : ℕ → List Execution → Type 0
AllNewer id rows = All (λ row. row.id < id) rows

abbrev pub Distinct : List Execution → Type 0
Distinct [] = Unit
Distinct (row ∷ rows) = All (λ r. row.id ≢ r.id) rows × Distinct rows

pub record IsValid (s : Store) : Type 0 where
  pub sound : All IsSound s.rows
  pub given_out : AllNewer s.next_id s.rows
  pub distinct : Distinct s.rows

Distinct-append :
    (rows : List Execution) (row : Execution)
    → AllNewer row.id rows
    → Distinct rows
    → Distinct (rows ++ row ∷ [])
Distinct-append [] row n d = (tt, tt)
Distinct-append (r ∷ rows) row n d = (
  All-append (λ x. r.id ≢ x.id) rows (row ∷ []) d.0 (omega arith, tt),
  Distinct-append rows row n.1 d.1,
)

-- A new execution, pending or suppressed for a reason, gets an id that no row has, and the table stays
-- valid.
pub save_execution-IsValid :
    (now : ℕ) (trigger : String) (status : Status) (event timestamp : Option ℕ)
    (reason : Option Reason) (s : Store)
    → (status ≡ pending) ⊎ ((status ≡ suppressed) × (is_none reason ≡ false))
    → IsValid s
    → IsValid (save_execution now trigger status event timestamp reason s).1
      × All (λ row. row.id ≢ (save_execution now trigger status event timestamp reason s).0) s.rows
unfolding save_execution
save_execution-IsValid now trigger status event timestamp reason s ok v = (
  record {
    sound = All-append IsSound s.rows (_ ∷ []) v.sound (ground arith, tt);
    given_out =
        All-append (λ row. row.id < suc s.next_id) s.rows (_ ∷ [])
          (All-map (λ row. row.id < s.next_id) (λ row. row.id < suc s.next_id) s.rows
            (λ row h. omega arith) v.given_out)
          (omega arith, tt);
    distinct = Distinct-append s.rows _ v.given_out v.distinct;
  },
  All-map (λ row. row.id < s.next_id) (λ row. row.id ≢ s.next_id) s.rows (λ row h. omega arith)
      v.given_out,
)

-- Rows that move keep their ids.
pub AllMove-AllNewer :
    (id : ℕ) (rows rows' : List Execution)
    → AllMove rows rows'
    → AllNewer id rows
    → AllNewer id rows'
AllMove-AllNewer id [] [] m h = tt
AllMove-AllNewer id [] (r' ∷ rows') m h = absurd m
AllMove-AllNewer id (r ∷ rows) [] m h = tt
AllMove-AllNewer id (r ∷ rows) (r' ∷ rows') m h =
    (omega (arith, m.0.0), AllMove-AllNewer id rows rows' m.1 h.1)

AllMove-ne :
    (id : ℕ) (rows rows' : List Execution)
    → AllMove rows rows'
    → All (λ r. id ≢ r.id) rows
    → All (λ r. id ≢ r.id) rows'
AllMove-ne id [] [] m h = tt
AllMove-ne id [] (r' ∷ rows') m h = absurd m
AllMove-ne id (r ∷ rows) [] m h = tt
AllMove-ne id (r ∷ rows) (r' ∷ rows') m h = (λ e. h.0 (e ∙ m.0.0), AllMove-ne id rows rows' m.1 h.1)

pub AllMove-Distinct :
    (rows rows' : List Execution) → AllMove rows rows' → Distinct rows → Distinct rows'
AllMove-Distinct [] [] m d = tt
AllMove-Distinct [] (r' ∷ rows') m d = absurd m
AllMove-Distinct (r ∷ rows) [] m d = tt
AllMove-Distinct (r ∷ rows) (r' ∷ rows') m d =
    (rw m.0.0 (AllMove-ne r.id rows rows' m.1 d.0), AllMove-Distinct rows rows' m.1 d.1)

pub length-AllMove : (rows rows' : List Execution) → AllMove rows rows' → length rows' ≡ length rows
length-AllMove [] [] m = refl
length-AllMove [] (r' ∷ rows') m = absurd m
length-AllMove (r ∷ rows) [] m = absurd m
length-AllMove (r ∷ rows) (r' ∷ rows') m = ap suc (length-AllMove rows rows' m.1)
