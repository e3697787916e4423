-- ===== src/Adapter/Validity.antt =====
-- `SpeedtestAdapter.execute` keeps the table of executions valid.
use docsight.Prelude.{ℕ, String, Option, ◌≡◌, refl, arith, inl, inr, Option-cases, length}
use docsight.Executions.{Store, update_execution}
use docsight.Executions.Lifecycle.{IsValid, AllMove-AllNewer, AllMove-Distinct, length-AllMove}
use docsight.Adapter.{
  Settings, World, Post, answered, preflight_reason, mark_fired, mark_suppressed, mark_expired,
  post_run, reference_time, execute,
}
use docsight.Adapter.Preflight.{IsPending, execute-Advances}

next_id-post_run :
    (w : World) (id : ℕ) (trigger : String) (post : Post) (s : Store)
    → (post_run w id trigger post s).1.next_id ≡ s.next_id
unfolding post_run mark_fired mark_expired update_execution
next_id-post_run w id trigger (answered code) s = ground arith
next_id-post_run w id trigger _ s = refl

next_id-execute :
    (cfg : Settings) (w : World) (id : ℕ) (trigger : String) (timestamp : Option ℕ) (s : Store)
    → (execute cfg w id trigger timestamp s).1.next_id ≡ s.next_id
unfolding execute mark_suppressed update_execution
next_id-execute cfg w id trigger timestamp s =
    elim (Option-cases (preflight_reason cfg w (reference_time w timestamp) s)) [
      | inl e ↦ rw (e, execute) (next_id-post_run w id trigger w.post s)
      | inr (reason, e) ↦ rw (e, execute)
    ]

-- A call for a pending execution keeps the table valid, and adds no row and removes none.
pub execute-IsValid :
    (cfg : Settings) (w : World) (id : ℕ) (trigger : String) (timestamp : Option ℕ) (s : Store)
    → IsValid s
    → IsPending id s.rows
    → let s' = (execute cfg w id trigger timestamp s).1 in
      IsValid s' × (length s'.rows ≡ length s.rows)
execute-IsValid cfg w id trigger timestamp s v p =
    let s' = (execute cfg w id trigger timestamp s).1 in
    let (sound, moves) = execute-Advances cfg w id trigger timestamp s v.sound p in
    (
      record {
        sound = sound;
        given_out =
            rw (next_id-execute cfg w id trigger timestamp s)
              (AllMove-AllNewer s.next_id s.rows s'.rows moves v.given_out);
        distinct = AllMove-Distinct s.rows s'.rows moves v.distinct;
      },
      length-AllMove s.rows s'.rows moves,
    )
