-- ===== src/Analyzer/Prefilter/Rules.antt =====
-- What `prefilter` of analyzer/src/prefilter.cpp decides, in terms of the event.
use pqc_edr.Base.{ℕ, ◌+◌, ◌*◌, ◌/◌, ◌^◌, ◌≤◌, ◌<◌, ◌≡◌, ◌≢◌, ◌↔◌, ◌⊎◌, true, false, arith, bit_and}
use pqc_edr.Base.Bits.{bit_and_byte}
use pqc_edr.Base.Words.{Bytes, IsByte}
use pqc_edr.Base.Text.{text, c_string, starts_with, member}
use pqc_edr.Event.{
  SecurityEvent, evt_execve, evt_tcp_connect, evt_file_open, fa_sensitive, has_access,
}
use pqc_edr.Analyzer.Prefilter.{
  drop, alert, malicious_bins, benign_bins, is_private_ipv4, prefilter, prefilter_execve,
  prefilter_tcp, prefilter_file,
}
use pqc_edr.Analyzer.Prefilter.Paths.{basename_of}

-- The address a.b.c.d as the source stores it, in network byte order on a little-endian host.
abbrev pub ipv4 : ℕ → ℕ → ℕ → ℕ → ℕ
ipv4 a b c d = a + b * 256 + c * 65536 + d * 16777216

-- `is_private_ipv4` holds of exactly the addresses of 10/8, 127/8, 192.168/16 and 172.16/12.
pub is_private_ipv4_iff :
    (a b c d : ℕ)
    → IsByte a
    → IsByte b
    → IsByte c
    → IsByte d
    → (is_private_ipv4 (ipv4 a b c d) ≡ true)
      ↔ ((a ≡ 10) ⊎ (a ≡ 127) ⊎ ((a ≡ 192) × (b ≡ 168)) ⊎ ((a ≡ 172) × (16 ≤ b) × (b < 32)))
unfolding is_private_ipv4
is_private_ipv4_iff a b c d ha hb hc hd =
    let addr = ipv4 a b c d in
    let o0 : bit_and addr 0xff ≡ a = omega (arith, bit_and_byte addr) in
    let o1 : bit_and (addr / 2 ^ 8) 0xff ≡ b = omega (arith, bit_and_byte (addr / 256)) in
    ground (arith, o0, o1)

module _ (ev : SecurityEvent) where
  abbrev path : Bytes
  path = c_string ev.execve.filename

  -- Run from a temporary directory, or a known network tool.
  abbrev ExecIsBad : Type 0
  ExecIsBad =
      (starts_with (text "/tmp/") path ≡ true)
      ⊎ (starts_with (text "/dev/shm/") path ≡ true)
      ⊎ (member (basename_of path) malicious_bins ≡ true)

  -- A public address, at a port that is none of 443, 80 and 53.
  abbrev ConnectIsBad : Type 0
  ConnectIsBad =
      (is_private_ipv4 ev.tcp.daddr ≡ false)
      × (ev.tcp.dport ≢ 443)
      × (ev.tcp.dport ≢ 80)
      × (ev.tcp.dport ≢ 53)

  abbrev pub IsAlert : Type 0
  IsAlert =
      ((ev.type ≡ evt_execve) × ExecIsBad)
      ⊎ ((ev.type ≡ evt_tcp_connect) × ConnectIsBad)
      ⊎ ((ev.type ≡ evt_file_open) × (has_access ev.file.access fa_sensitive ≡ true))

  abbrev pub IsDropped : Type 0
  IsDropped =
      ((ev.type ≡ evt_execve)
        × (starts_with (text "/tmp/") path ≡ false)
        × (starts_with (text "/dev/shm/") path ≡ false)
        × (member (basename_of path) malicious_bins ≡ false)
        × (member (basename_of path) benign_bins ≡ true))
      ⊎ ((ev.type ≡ evt_tcp_connect) × (is_private_ipv4 ev.tcp.daddr ≡ true))
      ⊎ ((ev.type ≡ evt_file_open) × (has_access ev.file.access fa_sensitive ≡ false))

  execve_rule :
      ((prefilter_execve ev).decision ≡ alert → ExecIsBad)
      × (ExecIsBad → (prefilter_execve ev).decision ≡ alert)
  unfolding prefilter_execve
  execve_rule = (ground arith, ground arith)

  connect_rule :
      ((prefilter_tcp ev).decision ≡ alert → ConnectIsBad)
      × (ConnectIsBad → (prefilter_tcp ev).decision ≡ alert)
  unfolding prefilter_tcp
  connect_rule = (ground arith, ground arith)

  prefilter-alert_iff : ((prefilter ev).decision ≡ alert) ↔ IsAlert
  unfolding prefilter prefilter_file
  prefilter-alert_iff =
      (ground (arith, execve_rule.0, connect_rule.0), ground (arith, execve_rule.1, connect_rule.1))

  prefilter-drop_iff : ((prefilter ev).decision ≡ drop) ↔ IsDropped
  unfolding prefilter prefilter_execve prefilter_tcp prefilter_file
  prefilter-drop_iff = (ground arith, ground arith)

  -- What the rule filter decides. It raises an alert for exactly the events of `IsAlert`: a run from /tmp or
  -- /dev/shm, or of a network tool; a connection to a public address at another port than 443, 80 and 53;
  -- an access to a sensitive file. A whitelisted name does not save a file that runs from /tmp. It drops
  -- exactly the events of `IsDropped`: a whitelisted tool outside /tmp and /dev/shm, a connection to a
  -- private address, a file event that is not sensitive. So it never drops an event of unknown type.
  pub prefilter_iff :
      (((prefilter ev).decision ≡ alert) ↔ IsAlert) × (((prefilter ev).decision ≡ drop) ↔ IsDropped)
  prefilter_iff = (prefilter-alert_iff, prefilter-drop_iff)
