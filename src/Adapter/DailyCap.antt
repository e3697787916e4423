-- ===== src/Adapter/DailyCap.antt =====
-- The daily cap of `SpeedtestAdapter.execute`.
use docsight.Prelude.{
  ℕ, suc, ◌≤◌, ◌<◌, String, true, Option, none, some, List, [], ◌∷◌, ◌==◌, ◌≡◌, ◌≢◌, inl, inr, refl,
  All, arith, Bool-cases,
}
use docsight.Executions.{
  fired, Fault, response_timeout, Execution, Store, Update, update_where, no_update,
  update_execution, count_fires_since,
}
use docsight.Executions.Lifecycle.{Distinct}
use docsight.Adapter.{
  Settings, World, Post, answered, read_timeout, failed, is_accepted, cutoff_day, daily_reason,
  mark_fired, post_run, reference_time, execute,
}
use docsight.Adapter.Preflight.{preflight_passed, execute_passed}

fires-update_none :
    (cutoff id : ℕ) (u : Update) (rows : List Execution)
    → All (λ row. id ≢ row.id) rows
    → count_fires_since cutoff (update_where (λ row. row.id == id) u rows)
      ≡ count_fires_since cutoff rows
unfolding count_fires_since
fires-update_none cutoff id u [] h = refl
fires-update_none cutoff id u (row ∷ rows) h =
    ground (arith, fires-update_none cutoff id u rows h.1)

fires-update_lem :
    (cutoff id : ℕ) (u : Update) (rows : List Execution)
    → Distinct rows
    → count_fires_since cutoff (update_where (λ row. row.id == id) u rows)
      ≤ suc (count_fires_since cutoff rows)
unfolding count_fires_since
fires-update_lem cutoff id u [] d = omega arith
fires-update_lem cutoff id u (row ∷ rows) d = elim (Bool-cases (row.id == id)) [
  | inl e ↦
      let same : row.id ≡ id = ground arith in
      let others = fires-update_none cutoff id u rows (rw same at d.0) in
      rw e (ground (arith, others))
  | inr e ↦ rw e (ground (arith, fires-update_lem cutoff id u rows d.1))
]

fires-mark_fired :
    (cutoff : ℕ) (w : World) (id : ℕ) (trigger : String) (fault : Option Fault) (s : Store)
    → Distinct s.rows
    → count_fires_since cutoff (mark_fired w id trigger fault s).rows
      ≤ suc (count_fires_since cutoff s.rows)
unfolding mark_fired update_execution
fires-mark_fired cutoff w id trigger fault s d =
    fires-update_lem cutoff id
      (record no_update {
        status = some fired;
        fired_at = some w.fired_now;
        attempt_count = some 1;
        last_error = fault;
      })
      s.rows d

fires-post_run :
    (cutoff : ℕ) (w : World) (id : ℕ) (trigger : String) (post : Post) (s : Store)
    → Distinct s.rows
    → (post_run w id trigger post s).0 ≡ true
    → count_fires_since cutoff (post_run w id trigger post s).1.rows
      ≤ suc (count_fires_since cutoff s.rows)
unfolding post_run
fires-post_run cutoff w id trigger (answered code) s d e = elim (Bool-cases (is_accepted code)) [
  | inl a ↦ rw (a, post_run) (fires-mark_fired cutoff w id trigger none s d)
  | inr a ↦ absurd (ground (arith, e, a))
]
fires-post_run cutoff w id trigger read_timeout s d e =
    fires-mark_fired cutoff w id trigger (some response_timeout) s d
fires-post_run cutoff w id trigger failed s d e = cc

room_today :
    (cfg : Settings) (reference : ℕ) (s : Store)
    → 0 < cfg.max_actions_per_day
    → daily_reason cfg reference s ≡ none
    → count_fires_since (cutoff_day reference) s.rows < cfg.max_actions_per_day
unfolding daily_reason
room_today cfg reference s on e = ground arith

-- If the daily cap is on and the ids are distinct, a call that starts a run leaves at most
-- `max_actions_per_day` fires in the 24 hours before its reference time.
pub execute_daily_cap :
    (cfg : Settings) (w : World) (id : ℕ) (trigger : String) (timestamp : Option ℕ) (s : Store)
    → Distinct s.rows
    → 0 < cfg.max_actions_per_day
    → (execute cfg w id trigger timestamp s).0 ≡ true
    → count_fires_since
        (cutoff_day (reference_time w timestamp))
        (execute cfg w id trigger timestamp s).1.rows
      ≤ cfg.max_actions_per_day
unfolding execute
execute_daily_cap cfg w id trigger timestamp s d on e =
    let reference = reference_time w timestamp in
    let free = execute_passed cfg w id trigger timestamp s e in
    let room = room_today cfg reference s on (preflight_passed cfg w reference s free).0 in
    let started : (post_run w id trigger w.post s).0 ≡ true = rw (free, execute) at e in
    rw (free, execute)
      (omega (arith, room, fires-post_run (cutoff_day reference) w id trigger w.post s d started))
