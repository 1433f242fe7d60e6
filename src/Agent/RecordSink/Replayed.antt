-- ===== src/Agent/RecordSink/Replayed.antt =====
-- A recording of `RecordSink` that `run_replay` of agent/src/main.cpp plays.
use pqc_edr.Base.{
  ℕ, ◌+◌, ◌%◌, ◌/◌, ◌≡◌, refl, subst, sym, ◌*◌, ◌∙◌, true, false, Bool-cases, inl, inr, none, some,
  List, [], ◌∷◌, ◌++◌, append-nil, append_assoc, All, All-append, length, map, ◌<◌, ◌⊎◌, ◌==◌,
  arith,
}
use pqc_edr.Base.Words.{Bytes}
use pqc_edr.Base.Text.{c_string}
use pqc_edr.Event.{
  SecurityEvent, Ancestor, evt_execve, evt_tcp_connect, evt_file_open, comm_len, filename_len,
}
use pqc_edr.Agent.Synthetic.{zero_event}
use pqc_edr.EventsFile.{Numbers}
use pqc_edr.EventsFile.Fields.{HexLaws}
use pqc_edr.EventsFile.Words.{NoNewline, refilled}
use pqc_edr.EventsFile.Ancestry.{DecimalLaws, IsGeneration, IsVacant, IsLineage, again_one}
use pqc_edr.EventsFile.Kinds.{IsKeptPath}
use pqc_edr.EventsFile.Recordable.{IsRecordable, again}
use pqc_edr.Agent.Replay.{Clock, Replay, replay_entries, run_replay}
use pqc_edr.Agent.RecordSink.{RecordSink, open_recording, is_due, gap_ms, handle_all, close}
use pqc_edr.Agent.RecordSink.Written.{entries_of, parse_recording}

-- The same processes with the same names, in the same places.
abbrev pub AreSameGenerations : List Ancestor → List Ancestor → Type 0
AreSameGenerations [] [] = Unit
AreSameGenerations [] (b ∷ bs) = ⊥
AreSameGenerations (a ∷ anc) [] = ⊥
AreSameGenerations (a ∷ anc) (b ∷ bs) =
    (b.pid ≡ a.pid) × (c_string b.comm ≡ c_string a.comm) × AreSameGenerations anc bs

-- The fields of the event's own kind are the same.
abbrev pub IsSameKind : SecurityEvent → SecurityEvent → Type 0
IsSameKind ev got =
    ((ev.type ≡ evt_execve) × (c_string got.execve.filename ≡ c_string ev.execve.filename))
    ⊎ ((ev.type ≡ evt_tcp_connect)
        × (got.tcp.daddr ≡ ev.tcp.daddr)
        × (got.tcp.dport ≡ ev.tcp.dport)
        × (got.tcp.family ≡ ev.tcp.family))
    ⊎ ((ev.type ≡ evt_file_open)
        × (c_string got.file.path ≡ c_string ev.file.path)
        × (got.file.access ≡ ev.file.access)
        × (got.file.ino ≡ ev.file.ino)
        × (got.file.dev ≡ ev.file.dev))

-- The replayed event is the recorded one, but for its time.
abbrev pub IsAgain : SecurityEvent → SecurityEvent → Type 0
IsAgain ev got =
    (got.type ≡ ev.type)
    × (got.pid ≡ ev.pid)
    × (got.ppid ≡ ev.ppid)
    × (c_string got.comm ≡ c_string ev.comm)
    × AreSameGenerations ev.anc got.anc
    × IsSameKind ev got

abbrev pub AreAgain : List SecurityEvent → List SecurityEvent → Type 0
AreAgain [] [] = Unit
AreAgain [] (got ∷ gots) = ⊥
AreAgain (ev ∷ evs) [] = ⊥
AreAgain (ev ∷ evs) (got ∷ gots) = IsAgain ev got × AreAgain evs gots

-- A sink that keeps what it is given.
abbrev pub keep : List SecurityEvent → SecurityEvent → List SecurityEvent
keep gots ev = gots ++ ev ∷ []

-- A name that a recording keeps has room for a NUL, also an empty one.
abbrev Fits : Ancestor → Type 0
Fits a = length (c_string a.comm) < comm_len

lineage-Fits : (anc : List Ancestor) → IsLineage anc → All Fits anc
lineage-Fits anc k =
    subst (All Fits) (sym k.parts)
      (All-append Fits k.gens k.rest (named k.gens k.named) (vacant k.rest k.vacant))
  where
    named : (gens : List Ancestor) → All IsGeneration gens → All Fits gens
    named [] h = tt
    named (a ∷ gens) (g, h) = (g.comm.fits, named gens h)

    vacant : (rest : List Ancestor) → All IsVacant rest → All Fits rest
    vacant [] h = tt
    vacant (a ∷ rest) ((p, e), h) = (rw e (omega arith), vacant rest h)

same_generations : (anc : List Ancestor) → All Fits anc → AreSameGenerations anc (map again_one anc)
same_generations [] h = tt
same_generations (a ∷ anc) (f, h) =
    (refl, refilled comm_len a.comm (c_string a.comm) refl f, same_generations anc h)

path-fits : (s : Bytes) → IsKeptPath s → length s < filename_len
path-fits s (inl e) = rw e (omega arith)
path-fits s (inr (k, other)) = k.fits

recorded-IsAgain :
    (ev : SecurityEvent) (now : ℕ)
    → IsRecordable ev
    → IsAgain ev (record (again ev) { ts_ns = now })
unfolding zero_event
recorded-IsAgain ev now r =
    let comm = refilled comm_len ev.comm (c_string ev.comm) refl r.comm.fits in
    let gens = same_generations ev.anc (lineage-Fits ev.anc r.lineage) in
    elim r.kind [
      | inl (kind, k) ↦
          let is_execve : (ev.type == evt_execve) ≡ true = ground arith in
          let file =
            refilled filename_len ev.execve.filename (c_string ev.execve.filename) refl k.fits in
          rw is_execve (sym kind, refl, refl, comm, gens, inl (kind, file))
      | inr (inl (kind, family)) ↦
          let other : (ev.type == evt_execve) ≡ false = ground arith in
          let is_connect : (ev.type == evt_tcp_connect) ≡ true = ground arith in
          rw (other, is_connect)
            (sym kind, refl, refl, comm, gens, inr (inl (kind, refl, refl, sym family)))
      | inr (inr (kind, access, k)) ↦
          let not_execve : (ev.type == evt_execve) ≡ false = ground arith in
          let not_connect : (ev.type == evt_tcp_connect) ≡ false = ground arith in
          let path =
            refilled filename_len ev.file.path (c_string ev.file.path) refl (path-fits _ k) in
          rw (not_execve, not_connect)
            (sym kind, refl, refl, comm, gens, inr (inr (kind, path, refl, refl, refl)))
    ]

module _ (lib : Numbers) (hex : HexLaws lib) (numbers : DecimalLaws lib) where
  -- What a replay into `keep` has done since the sink held `acc` and `n` events were counted.
  abbrev pub Plays :
      {W : Type 0}
      → List SecurityEvent
      → List SecurityEvent
      → ℕ
      → Replay (List SecurityEvent) W
      → Type 0
  Plays evs acc n r =
      (gots : List SecurityEvent) × (r.sink ≡ acc ++ gots)
      × AreAgain evs gots
      × (r.fault ≡ none)
      × (r.n ≡ n + length evs)

  play_one :
      {W : Type 0} (ev got : SecurityEvent) (evs acc : List SecurityEvent) (n : ℕ)
      (r : Replay (List SecurityEvent) W)
      → IsAgain ev got
      → Plays evs (keep acc got) (n + 1) r
      → Plays (ev ∷ evs) acc n r
  play_one ev got evs acc n r a (gots, sink, same, fault, count) =
      (got ∷ gots, sink ∙ append_assoc acc (got ∷ []) gots, (a, same), fault, omega (arith, count))

  plays :
      (clock : Clock) (evs : List SecurityEvent) (last : ℕ) (acc : List SecurityEvent)
      (w : clock.World) (n : ℕ)
      → All IsRecordable evs
      → Plays evs acc n
          (replay_entries clock keep (entries_of lib hex numbers last evs) none acc w n)
  unfolding replay_entries
  plays clock [] last acc w n rs = ([], sym (append-nil acc), tt, refl, omega arith)
  plays clock (ev ∷ evs) last acc w n (r, rs) =
      let one = λ (u : clock.World).
        let now = clock.now_ns u in
        let got : SecurityEvent = record (again ev) { ts_ns = now.0 } in
        play_one ev got evs acc n
          (replay_entries clock keep (entries_of lib hex numbers ev.ts_ns evs) none (keep acc got)
            now.1 (n + 1))
          (recorded-IsAgain ev now.0 r)
          (plays clock evs ev.ts_ns (keep acc got) now.1 (n + 1) rs) in
      elim (Bool-cases (is_due last ev.ts_ns)) [
        | inl due ↦
            let ms = gap_ms last ev.ts_ns in
            rw due (one (clock.nanosleep w (ms / 1000) (ms % 1000 * 1000000)))
        | inr soon ↦ rw soon (one w)
      ]

  -- A recording of events as in `IsRecordable` that was closed is played without a fault, each event is
  -- counted, and the sink is given the same events in the same order, whatever their times are and however
  -- long the delays. The text of the date in its first line has no newline.
  pub record_replay :
      (clock : Clock) (w : clock.World) (stamp : Bytes) (s : RecordSink) (evs : List SecurityEvent)
      → All NoNewline stamp
      → open_recording true stamp ≡ some s
      → All IsRecordable evs
      → (r : Replay (List SecurityEvent) clock.World) × (run_replay clock keep lib
            (some (close (handle_all lib s evs)).flushed)
            []
            w
          ≡ some r)
        × AreAgain evs r.sink
        × (r.fault ≡ none)
        × (r.n ≡ length evs)
  unfolding run_replay
  record_replay clock w stamp s evs one_line h rs =
      let r = replay_entries clock keep (entries_of lib hex numbers 0 evs) none [] w 0 in
      let (gots, sink, same, fault, count) = plays clock evs 0 [] w 0 rs in
      (
        r,
        rw (parse_recording lib hex numbers stamp s evs one_line h rs) refl,
        subst (AreAgain evs) (sym sink) same,
        fault,
        omega (arith, count),
      )
