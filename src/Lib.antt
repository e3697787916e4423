-- ===== src/Lib.antt =====
-- DOCSight watches a cable modem: collectors poll it, the drivers read its pages, the analyzer judges
-- the channels, the event detector compares two snapshots, and the capture engine starts a speedtest
-- when an event calls for one. This library models the decisions of the program, the Python code under
-- app/, and proves what they promise. Each file opens with the source that it models.
--
-- The parts, and how they meet:
--  * Collector: app/collectors/base.py, `Collector`: when a collector polls, and its back-off
--    (`should_poll`, `record_success`, `record_skip`, `record_failure`, `get_status`).
--  * Values: `_counter` of app/error_counters.py, which reads a counter of any type.
--  * Counters: app/error_counters.py, the error counters of the channels: their coverage
--    (`aggregate_error_counters`), their growth against a baseline (Growth,
--    `calculate_error_counter_growth`), the growth between two observations (Observed,
--    `observed_counter_increase`); Wrap is app/storage/error_counters.py, the unwrapping of 32-bit
--    counters (`unwrap_uint32_counter_series`), which Observed calls.
--  * Docsis: app/docsis_utils.py, the names and the ranks of modulations (`parse_qam_order`, `qam_rank`,
--    `canonical_modulation_label`); Family has the families of channels (`classify_channel_family`,
--    `channel_type_label`) and the keys of thresholds (`modulation_threshold_key`).
--  * Analyzer: app/analyzer.py. The thresholds (`resolve_ds_power_thresholds` and the others; Fallback
--    is `_FALLBACK_THRESHOLDS`); Channel judges a channel (`_assess_ds_channel`, `_assess_us_channel`);
--    Summary is `analyze`; Families is `_build_signal_family_summary` with `_family_health_driver`;
--    Baseline has the steps behind the analysis, `apply_cumulative_error_baseline`, which takes the
--    growth of Counters, and `apply_spike_suppression`.
--  * Events: app/event_detector.py, `EventDetector`: the change of health with its hysteresis
--    (`_check_health`); Restart has `_check_restart` and `_check_errors`, Channels `_check_channels`,
--    Modulation `_check_modulation`, Snr and Affected `_check_snr`, Check `check` with all of them;
--    they take the families and the ranks of Docsis and the healths of Analyzer.
--  * Engine: app/smart_capture/engine.py, `SmartCaptureEngine`: from events to executions
--    (`register_trigger`, `evaluate`, `_evaluate_event`). It asks Guardrails whether a match may fire,
--    saves the verdict in Executions, and runs Adapter for what is allowed.
--  * Guardrails: app/smart_capture/guardrails.py, `GuardrailChain.check_batch`: flapping, the global
--    cooldown, the cooldown of a trigger, the hourly limit.
--  * Executions: app/storage/smart_capture.py, the table of executions with every statement that changes
--    it (`save_execution`, `update_execution`, `claim_execution`, the two that expire).
--  * Adapter: app/smart_capture/adapters/speedtest.py, `SpeedtestAdapter`: `_execute_locked` with its
--    preflight, and `on_results_imported`, which links a result to a waiting execution.
--  * Connection: app/modules/connection_monitor/event_rules.py, `ConnectionEventRules`: outages and
--    losses of the probed targets (`check_probe_result`, `check_window_stats`).
--  * BasePath: app/base_path.py: `normalize_base_path`, `parse_trusted_prefix_hops` and
--    `BasePathMiddleware`, which decides the mount path of a request.
--  * Login: app/runtime.py, `LoginRateLimiter`: the failures of each address and the lockout.
--  * Compensation: app/modules/de_tkg_compensation/rules.py: the checks and (Outage) the calculation of
--    `compute_outage_compensation` and `compute_missed_appointment`.
--  * Gaming: app/gaming_index.py: `compute_gaming_index` with its scores and grades.
--  * Prelude: lists, tests, dictionaries with text keys and integers that the parts share.
--
-- How the code is written here. An object is a record that a method takes and returns; a method under a
-- lock is one step, and what runs at the same time is a sequence of such steps. A reading of the clock,
-- an answer of the network and a value of the configuration are arguments. An error that a caller can
-- see is a value: a constructor of a result type, or `none`. Times are whole numbers, microseconds
-- where the code has dates with them; a date alone is a number of days. A float appears only where its
-- comparisons are exact in whole units, which the file says: powers and ratios are thousandths of a
-- decibel. Texts are ASCII where the code looks inside them.
--
-- Loops are recursion on the lists that they run over. The one loop that has none, in Wrap, runs on fuel:
-- one more than the quotient of the earlier value by 2 ^ 32, since each round adds 2 ^ 32 to the offset.
--
-- Not modelled: the drivers (they read pages of modems), the rest of the storage (SQL and its
-- migrations), the web application with its routes and templates, MQTT, Prometheus and the push
-- messages, the modules other than the compensation and the rules of the connection monitor, the
-- loading of modules, the configuration files, and the packaging for desktops. They are input and
-- output, formats of other programs, or tables of values. The rounding of `uncorrectable_percentage` is
-- a parameter; the percentage that `analyze` takes from the aggregate of the counters is an argument of
-- its model. Errors of the storage itself (a database that cannot be written) are left out. The rounded
-- means and the capacities of `analyze`, the loading of threshold profiles,
-- the texts of messages and logs are left out as well; the comparison of two mean powers in
-- `EventDetector`, of floats, is a parameter.
pub mod Prelude
pub mod Collector
pub mod Login
pub mod Guardrails
pub mod Executions
pub mod Adapter
pub mod Engine
pub mod Values
pub mod Counters
pub mod Compensation
pub mod Gaming
pub mod Connection
pub mod BasePath
pub mod Docsis
pub mod Analyzer
pub mod Events
