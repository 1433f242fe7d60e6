-- ===== src/Tests/Recording.antt =====
-- The theorems on the recording and the replay of agent/src/main.cpp at two events.
use pqc_edr.Base.{
  inl, inr, ℕ, ◌+◌, ◌*◌, ◌-◌, ◌≤◌, ◌≡◌, refl, Bool, true, false, get_or, some, none, List, [], ◌∷◌,
  ◌++◌, All, arith,
}
use pqc_edr.Base.Text.{text, c_string, bytes_eq}
use pqc_edr.Event.{SecurityEvent, Ancestor, comm_len, filename_len}
use pqc_edr.EventsFile.Ancestry.{IsGeneration, IsLineage, IsKept, no_generation}
use pqc_edr.EventsFile.Parser.{getlines, parse}
use pqc_edr.EventsFile.Recordable.{IsRecordable}
use pqc_edr.Agent.Replay.{Clock, Replay, run_replay}
use pqc_edr.Agent.RecordSink.{RecordSink, recorded_at, open_recording, handle, handle_all, close}
use pqc_edr.Agent.RecordSink.Replayed.{AreAgain, keep}
use pqc_edr.Agent.RecordSink.Time.{waited_ms, recorded_time}
use pqc_edr.Agent.Main.{Sample, Poll, interrupted, run_collector}
use pqc_edr.Agent.Main.Recorded.{recorded_run_replays}
use pqc_edr.Agent.Options.{
  Integers, Options, default_options, parse_loop, argument, assign, check_options,
}
use pqc_edr.Agent.Options.Sound.{IsAllowed, parse_args-IsAllowed}
use pqc_edr.Tests.Events.{runs, connects, writes}
use pqc_edr.Tests.Lines.{toy_numbers, toy-HexLaws, toy-DecimalLaws}

-- The world is its time.
abbrev toy_clock : Clock
toy_clock = record {
  World = ℕ;
  now_ns = λ w. (w, w + 1);
  nanosleep = λ w sec nsec. w + sec * 1000000000 + nsec;
}

abbrev shell : Ancestor
shell = record { pid = 40; comm = text "bash" }

abbrev lineage : List Ancestor
lineage = shell ∷ record { pid = 0; comm = text "swapper/0" } ∷ no_generation ∷ no_generation ∷ []

-- An execution, a connection and a write, each with two ancestors.
abbrev first_run : SecurityEvent
first_run = record (runs (text "ls 1") 1000) { anc = lineage }

abbrev then_connects : SecurityEvent
then_connects = record (connects 443 50000000) { anc = lineage }

abbrev then_writes : SecurityEvent
then_writes = record (writes (text "/tmp/a") 50001000) { anc = lineage }

abbrev three_events : List SecurityEvent
three_events = first_run ∷ then_connects ∷ then_writes ∷ []

generations : All IsGeneration (shell ∷ record { pid = 0; comm = text "swapper/0" } ∷ [])
unfolding text c_string
generations = (
  record {
    pid = omega arith;
    comm = record { some_text = λ h. cc; plain = ground arith; fits = omega arith };
    no_bar = ground arith;
  },
  (
    record {
      pid = omega arith;
      comm = record { some_text = λ h. cc; plain = ground arith; fits = omega arith };
      no_bar = ground arith;
    },
    tt,
  ),
)

lineage-IsLineage : IsLineage lineage
unfolding c_string
lineage-IsLineage = record {
  gens = shell ∷ record { pid = 0; comm = text "swapper/0" } ∷ [];
  rest = no_generation ∷ no_generation ∷ [];
  parts = refl;
  size = refl;
  named = generations;
  vacant = ((refl, refl), ((refl, refl), tt));
}

bash-IsKept : IsKept comm_len (c_string (text "bash"))
unfolding text c_string
bash-IsKept = record { some_text = λ h. cc; plain = ground arith; fits = omega arith }

first-IsRecordable : IsRecordable first_run
unfolding text c_string
first-IsRecordable = record {
  kind = inl (refl, record { some_text = λ h. cc; plain = ground arith; fits = omega arith });
  sizes = omega arith;
  address = omega arith;
  comm = bash-IsKept;
  lineage = lineage-IsLineage;
}

connects-IsRecordable : IsRecordable then_connects
unfolding text c_string
connects-IsRecordable = record {
  kind = inr (inl (refl, refl));
  sizes = omega arith;
  address = omega arith;
  comm = bash-IsKept;
  lineage = lineage-IsLineage;
}

slash_tmp-IsKept : IsKept filename_len (c_string (text "/tmp/a"))
unfolding text c_string
slash_tmp-IsKept = record { some_text = λ h. cc; plain = ground arith; fits = omega arith }

writes-IsRecordable : IsRecordable then_writes
unfolding text c_string
writes-IsRecordable = record {
  kind = inr (inr (refl, omega arith, inr (slash_tmp-IsKept, λ h. cc)));
  sizes = omega arith;
  address = omega arith;
  comm = bash-IsKept;
  lineage = lineage-IsLineage;
}

three-AreRecordable : All IsRecordable three_events
three-AreRecordable = (first-IsRecordable, (connects-IsRecordable, (writes-IsRecordable, tt)))

abbrev fresh : RecordSink
fresh = record { out = recorded_at (text "2026") ++ 10 ∷ []; flushed = []; n = 0; last_ts = 0 }

-- One sample comes before a signal, and two are left in the ring buffer.
abbrev polls : List (Bool × Poll)
polls = (false, interrupted ((200, first_run) ∷ [])) ∷ []

abbrev left_over : List Sample
left_over = (200, then_connects) ∷ (200, then_writes) ∷ []

recorded_run_replays_example :
    (r : Replay (List SecurityEvent) ℕ) × (run_replay toy_clock keep toy_numbers
        (some (close (run_collector (handle toy_numbers) 200 polls left_over fresh)).flushed)
        []
        5
      ≡ some r)
    × AreAgain three_events r.sink
    × (r.fault ≡ none)
    × (r.n ≡ 3)
unfolding text open_recording
recorded_run_replays_example =
    recorded_run_replays toy_numbers toy-HexLaws toy-DecimalLaws toy_clock 5 (text "2026") fresh 200
      polls left_over (refl, (refl, (refl, (refl, tt)))) refl
      (omega arith, (omega arith, (omega arith, tt))) three-AreRecordable

recorded_time_example :
    let ms =
      waited_ms
        (parse toy_numbers 0
          (getlines (close (handle_all toy_numbers fresh three_events)).flushed)).0 in
    (ms * 1000000 ≤ 50001000 - 1000) × (50001000 - 1000 ≤ ms * 1000000 + 10000000 * 2)
unfolding text open_recording
recorded_time_example =
    recorded_time toy_numbers toy-HexLaws toy-DecimalLaws (text "2026") fresh first_run
      (then_connects ∷ then_writes ∷ []) (refl, (refl, (refl, (refl, tt)))) refl three-AreRecordable
      (omega arith) (omega arith) (omega arith, omega arith, (omega arith, omega arith, tt))

-- Numbers of one digit.
abbrev digits : Integers
digits = record { stoi = λ s. some (get_or s 0 48 - 48); stoul = λ s. some (get_or s 0 48 - 48) }

abbrev asked : Options
asked = record default_options { forward = true; port = 9; replay_file = text "a.events" }

parse_args-IsAllowed_example : IsAllowed asked
unfolding parse_loop argument assign check_options text bytes_eq
parse_args-IsAllowed_example =
    parse_args-IsAllowed digits
      (text "--forward" ∷ text "--port" ∷ text "9" ∷ text "--replay" ∷ text "a.events" ∷ []) asked
      refl
