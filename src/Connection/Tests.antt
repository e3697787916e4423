-- ===== src/Connection/Tests.antt =====
-- app/modules/connection_monitor/event_rules.py: runs of two targets.
use docsight.Prelude.{ℕ, ◌≡◌, refl, true, false, List, [], ◌∷◌}
use docsight.Connection.{unreachable, recovered, check_probe_result, check_window_stats}
use docsight.Connection.Outages.{Probe, after, probe_report}
use docsight.Connection.Losses.{Window, warned, Spaced, Answers, loss_warnings}

-- Target 4 times out twice, with a probe of target 9 in between.
abbrev probes : List Probe
probes = (4, true) ∷ (9, false) ∷ (4, true) ∷ (4, false) ∷ []

probe_report_example : (check_probe_result 4 true (after 3 2000 probes)).1 ≡ unreachable 4 3 ∷ []
probe_report_example = probe_report 3 2000 4 true probes

recovery_test :
    (check_probe_result 4 false (after 3 2000 ((4, true) ∷ probes))).1 ≡ recovered 4 3 ∷ []
recovery_test = probe_report 3 2000 4 false ((4, true) ∷ probes)

abbrev window : ℕ → Window
window t = record { target = 4; loss = 2500; seconds = 60; now = t }

abbrev windows : List Window
windows = window 700000 ∷ window 500000 ∷ window 400000 ∷ []

warned_test : warned 3 2000 4 windows ≡ 700000 ∷ 400000 ∷ []
unfolding check_window_stats
warned_test = refl

loss_warnings_example : Spaced (warned 3 2000 4 windows) × Answers 3 2000 windows (window 900000)
loss_warnings_example = loss_warnings 3 2000 4 windows (window 900000)
