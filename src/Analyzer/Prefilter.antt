-- ===== src/Analyzer/Prefilter.antt =====
-- The rule filter: analyzer/src/prefilter.cpp and prefilter.h.
pub mod Summary
pub mod Paths
pub mod Rules
use Paths.{basename_of}
use pqc_edr.Base.{
  ℕ, ◌+◌, ◌/◌, ◌^◌, Bool, true, false, not, ◌&&◌, ◌||◌, List, [], ◌∷◌, ◌++◌, bit_and, leb, ◌==◌,
  is_empty, if◌then◌else◌,
}
use pqc_edr.Base.Words.{Bytes}
use pqc_edr.Base.Text.{text, c_string, starts_with, member, decimal}
use pqc_edr.Event.{
  SecurityEvent, evt_execve, evt_tcp_connect, evt_file_open, fa_sensitive, has_access,
}
use pqc_edr.Analyzer.Alert.{Severity, info, medium, high}

pub data PrefilterDecision : Type 0 where
  drop escalate alert : PrefilterDecision

pub record PrefilterResult : Type 0 where
  pub decision : PrefilterDecision
  pub severity : Severity
  pub reason : Bytes

-- `kBenignBins`
unfoldable pub benign_bins : List Bytes
benign_bins =
    text "ls"
    ∷ text "cat"
    ∷ text "grep"
    ∷ text "ps"
    ∷ text "id"
    ∷ text "whoami"
    ∷ text "which"
    ∷ text "uname"
    ∷ text "wc"
    ∷ text "head"
    ∷ text "tail"
    ∷ text "sed"
    ∷ text "awk"
    ∷ text "dirname"
    ∷ text "basename"
    ∷ text "env"
    ∷ text "date"
    ∷ text "sleep"
    ∷ text "git"
    ∷ text "cmake"
    ∷ text "make"
    ∷ text "cc"
    ∷ text "gcc"
    ∷ text "g++"
    ∷ text "clang"
    ∷ text "ld"
    ∷ text "node"
    ∷ text "rm"
    ∷ text "mkdir"
    ∷ text "mktemp"
    ∷ text "cp"
    ∷ text "mv"
    ∷ text "touch"
    ∷ text "chmod"
    ∷ text "getcap"
    ∷ text "gmake"
    ∷ text "ss"
    ∷ text "ldconfig"
    ∷ text "ctest"
    ∷ text "dirname"
    ∷ []

-- `kMaliciousBins`
unfoldable pub malicious_bins : List Bytes
malicious_bins = text "nc" ∷ text "ncat" ∷ text "netcat" ∷ text "socat" ∷ []

unfoldable pub is_private_ipv4 : ℕ → Bool
is_private_ipv4 daddr_net =
    let o0 = bit_and daddr_net 0xff in
    let o1 = bit_and (daddr_net / 2 ^ 8) 0xff in
    if o0 == 10
    then true
    else if o0 == 127
    then true
    else if o0 == 192 && o1 == 168
    then true
    else if o0 == 172 && (leb 16 o1 && leb o1 31)
    then true
    else false

unfoldable pub prefilter_execve : SecurityEvent → PrefilterResult
prefilter_execve ev =
    let path = c_string ev.execve.filename in
    let bin = basename_of path in
    if starts_with (text "/tmp/") path || starts_with (text "/dev/shm/") path
    then record { decision = alert; severity = high; reason = text "임시 디렉토리에서 실행" }
    else if member bin malicious_bins
    then record { decision = alert; severity = high; reason = text "리버스셸/네트워크 툴 실행: " ++ bin }
    else if member bin benign_bins
    then record { decision = drop; severity = info; reason = text "화이트리스트 도구: " ++ bin }
    else record { decision = escalate; severity = info; reason = text "미분류 실행: " ++ bin }

unfoldable pub prefilter_tcp : SecurityEvent → PrefilterResult
prefilter_tcp ev =
    let dport = ev.tcp.dport in
    if is_private_ipv4 ev.tcp.daddr
    then record { decision = drop; severity = info; reason = text "사설/루프백 대역 접속" }
    else if dport == 443 || (dport == 80 || dport == 53)
    then record { decision = escalate; severity = info; reason = text "공인 IP 표준 포트 아웃바운드" }
    else record { decision = alert; severity = medium; reason = text "공인 IP 비표준 포트 아웃바운드" }

-- The path of a file event, or its inode where the path is empty.
unfoldable pub file_name : SecurityEvent → Bytes
file_name ev =
    let path = c_string ev.file.path in
    if is_empty path then text "ino=" ++ decimal ev.file.ino else path

unfoldable pub prefilter_file : SecurityEvent → PrefilterResult
prefilter_file ev =
    if has_access ev.file.access fa_sensitive
    then record { decision = alert; severity = high; reason = text "민감파일 접근: " ++ file_name ev }
    else record { decision = drop; severity = info; reason = text "스테이징 쓰기 (코릴레이션 맥락)" }

unfoldable pub prefilter : SecurityEvent → PrefilterResult
prefilter ev =
    if ev.type == evt_execve
    then prefilter_execve ev
    else if ev.type == evt_tcp_connect
    then prefilter_tcp ev
    else if ev.type == evt_file_open
    then prefilter_file ev
    else record { decision = escalate; severity = info; reason = text "알 수 없는 이벤트 타입" }
