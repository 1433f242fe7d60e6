-- ===== src/Agent/Replay.antt =====
-- The replay of recorded events: `run_replay` of agent/src/main.cpp, into any sink.
use pqc_edr.Base.{ℕ, ◌+◌, ◌*◌, ◌/◌, ◌%◌, Option, none, some, List, [], ◌∷◌}
use pqc_edr.Base.Words.{Bytes}
use pqc_edr.Event.{SecurityEvent}
use pqc_edr.EventsFile.{Numbers}
use pqc_edr.EventsFile.Parser.{Entry, event, delay, directive, Fault, parse, getlines}

-- `clock_gettime` as `now_ns` reads it, and `nanosleep` of seconds and nanoseconds.
pub record Clock : Type 1 where
  pub World : Type 0
  pub now_ns : World → ℕ × World
  pub nanosleep : World → ℕ → ℕ → World

-- The sink and the world after a replay, the events that it counted, and the exception that ended it,
-- if one did.
pub record Replay (S W : Type 0) : Type 0 where
  pub sink : S
  pub world : W
  pub n : ℕ
  pub fault : Option (ℕ × Fault)

module _ {S : Type 0} (clock : Clock) (handle : S → SecurityEvent → S) where
  -- The callback of `run_replay`, over the entries that the parser gives before it ends.
  unfoldable pub replay_entries :
      List Entry → Option (ℕ × Fault) → S → clock.World → ℕ → Replay S clock.World
  replay_entries [] fault s w n = record { sink = s; world = w; n = n; fault = fault }
  replay_entries (delay ms ∷ es) fault s w n =
      replay_entries es fault s (clock.nanosleep w (ms / 1000) (ms % 1000 * 1000000)) n
  replay_entries (event ev expect ∷ es) fault s w n =
      let now = clock.now_ns w in
      replay_entries es fault (handle s (record ev { ts_ns = now.0 })) now.1 (n + 1)
  replay_entries (directive d ∷ es) fault s w n = replay_entries es fault s w n

  -- `none` is the exception for a file that cannot be opened.
  unfoldable pub run_replay :
      Numbers → Option Bytes → S → clock.World → Option (Replay S clock.World)
  run_replay lib none s w = none
  run_replay lib (some file) s w =
      let read = parse lib 0 (getlines file) in some (replay_entries read.0 read.1 s w 0)
