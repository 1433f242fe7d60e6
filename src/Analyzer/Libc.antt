-- ===== src/Analyzer/Libc.antt =====
-- What the analyzer takes from the C library and the hardware that the model leaves open: the text of
-- an IPv4 address, and the decimal text of a time in seconds, which the source computes in `double`.
use pqc_edr.Base.{ℕ, ◌-◌, take}
use pqc_edr.Base.Words.{Bytes}

pub record Libc : Type 0 where
  -- `inet_ntop(AF_INET, &addr, …)`
  pub inet_ntop : ℕ → Bytes
  -- `%.1f` and `%.0f` of a number of nanoseconds over 1e9
  pub seconds_tenths : ℕ → Bytes
  pub seconds_whole : ℕ → Bytes

-- `snprintf(buf, size, …)` and `std::string(buf)`: the text is cut to leave room for the NUL.
abbrev pub snprintf : ℕ → Bytes → Bytes
snprintf size s = take (size - 1) s
