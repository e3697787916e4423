-- ===== src/Analyzer/Fallback.antt =====
-- app/analyzer.py: the thresholds that hold when no profile is loaded.
use docsight.Prelude.{some, none, [], ◌∷◌}
use docsight.Prelude.Int.{ℤ, pos, negsuc}
use docsight.Values.{codes}
use docsight.Analyzer.{Thresholds, PowerEntry, SnrEntry}

abbrev power_entry : ℤ × ℤ → ℤ × ℤ → ℤ × ℤ → PowerEntry
power_entry g w c = record { good_range = some g; warning_range = some w; critical_range = some c }

abbrev snr_entry : ℤ → ℤ → ℤ → SnrEntry
snr_entry g w c = record { good_min = some g; warning_min = some w; critical_min = some c }

-- `_FALLBACK_THRESHOLDS`
abbrev pub fallback : Thresholds
fallback = record {
  ds_power = record {
    default_key = some (codes "256QAM");
    entries =
        (
          codes "64QAM",
          power_entry (negsuc 9999, pos 7000) (negsuc 11999, pos 12000) (negsuc 13999, pos 16000),
        )
        ∷ (
          codes "256QAM",
          power_entry (negsuc 3999, pos 13000) (negsuc 5999, pos 15000) (negsuc 7999, pos 16000),
        )
        ∷ (
          codes "1024QAM",
          power_entry (negsuc 1999, pos 15000) (negsuc 3999, pos 16000) (negsuc 5999, pos 16000),
        )
        ∷ (
          codes "4096QAM",
          power_entry (negsuc 1999, pos 15000) (negsuc 3999, pos 16000) (negsuc 5999, pos 16000),
        )
        ∷ (
          codes "ofdm",
          power_entry (negsuc 11999, pos 12000) (negsuc 14999, pos 15000) (negsuc 14999, pos 15000),
        )
        ∷ [];
  };
  us_power = record {
    default_key = some (codes "sc_qam");
    entries =
        (
          codes "sc_qam",
          power_entry (pos 41100, pos 47000) (pos 37100, pos 51000) (pos 35000, pos 53000),
        )
        ∷ (
          codes "ofdma",
          power_entry (pos 44100, pos 47000) (pos 40100, pos 48000) (pos 38000, pos 50000),
        )
        ∷ [];
  };
  snr_section = record {
    default_key = some (codes "256QAM");
    entries =
        (codes "64QAM", snr_entry (pos 27000) (pos 25000) (pos 23000))
        ∷ (codes "256QAM", snr_entry (pos 33000) (pos 31000) (pos 29000))
        ∷ (codes "ofdm", snr_entry (pos 27000) (pos 25500) (pos 24500))
        ∷ (codes "1024QAM", snr_entry (pos 39000) (pos 37000) (pos 36000))
        ∷ (codes "4096QAM", snr_entry (pos 40000) (pos 38000) (pos 36000))
        ∷ [];
  };
  critical_max_qam = some 4;
  warning_max_qam = some 16;
  uncorr_warning = some (pos 100);
  uncorr_critical = some (pos 300);
  min_codewords = some 1000;
  spike_expiry_hours = none;
}
