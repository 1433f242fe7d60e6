-- ===== src/Analyzer/Alert.antt =====
-- Verdicts, severities and alerts: analyzer/src/alert.h and alert.cpp. Printing is left out.
use pqc_edr.Base.{ℕ, leb, if◌then◌else◌}
use pqc_edr.Base.Words.{Bytes}
use pqc_edr.Base.Text.{text}

pub data Verdict : Type 0 where
  normal suspicious malicious unknown : Verdict

pub data Severity : Type 0 where
  info low medium high critical : Severity

-- The value of the enumerator, by which severities are compared.
abbrev pub rank : Severity → ℕ
rank info = 0
rank low = 1
rank medium = 2
rank high = 3
rank critical = 4

-- `std::max` of two severities
abbrev pub worse : Severity → Severity → Severity
worse a b = if leb (rank b) (rank a) then a else b

unfoldable pub verdict_to_string : Verdict → Bytes
verdict_to_string normal = text "normal"
verdict_to_string suspicious = text "suspicious"
verdict_to_string malicious = text "malicious"
verdict_to_string unknown = text "unknown"

unfoldable pub severity_to_string : Severity → Bytes
severity_to_string info = text "info"
severity_to_string low = text "low"
severity_to_string medium = text "medium"
severity_to_string high = text "high"
severity_to_string critical = text "critical"

pub record Alert : Type 0 where
  pub verdict : Verdict
  pub severity : Severity
  pub source : Bytes
  pub reason : Bytes
  pub event_summary : Bytes
  pub pid : ℕ
  pub comm : Bytes

-- A default-constructed `Alert`.
abbrev pub no_alert : Alert
no_alert = record {
  verdict = unknown;
  severity = info;
  source = text "";
  reason = text "";
  event_summary = text "";
  pid = 0;
  comm = text "";
}
