-- ===== src/Agent/Options.antt =====
-- The command line of the agent: `Options` and `parse_args` of agent/src/main.cpp.
-- The conversions of `std::stoi` and `std::stoul` are a parameter.
pub mod Sound
use pqc_edr.Base.{
  ℕ, ◌%◌, ◌^◌, Bool, true, false, not, ◌&&◌, ◌||◌, Option, none, some, List, [], ◌∷◌, ◌++◌, ◌==◌,
  is_empty, if◌then◌else◌,
}
use pqc_edr.Base.Words.{Bytes}
use pqc_edr.Base.Text.{text, bytes_eq}

-- The bits of the `int` that `std::stoi` gives and the `unsigned long` of `std::stoul`; `none` is an
-- exception. A sign is allowed in both.
pub record Integers : Type 0 where
  pub stoi : Bytes → Option ℕ
  pub stoul : Bytes → Option ℕ

pub record Options : Type 0 where
  pub forward : Bool
  pub synthetic : Bool
  pub replay_file : Bytes
  pub record_file : Bytes
  pub host : Bytes
  pub port : ℕ
  pub id_prefix : Bytes
  pub peer_pub : Bytes
  pub queue : ℕ
  pub sensitive : List Bytes

abbrev pub default_options : Options
default_options = record {
  forward = false;
  synthetic = false;
  replay_file = [];
  record_file = [];
  host = text "127.0.0.1";
  port = 9443;
  id_prefix = text "agent";
  peer_pub = text "analyzer.pub";
  queue = 4096;
  sensitive = [];
}

-- The options that take the next argument, and what an argument is.
pub data Key : Type 0 where
  replay_key record_key host_key port_key queue_key id_key peer_key sensitive_key : Key

pub data Argument : Type 0 where
  forward_flag synthetic_flag unknown : Argument
  takes : Key → Argument

-- The calls of `exit(1)`, and the exception of a conversion, which nothing catches.
pub data Refusal : Type 0 where
  no_value : Key → Refusal
  unknown_argument : Bytes → Refusal
  two_sources empty_queue record_alone bad_number : Refusal

pub data Parsed : Type 0 where
  refused : Refusal → Parsed
  accepted : Options → Parsed

unfoldable pub argument : Bytes → Argument
argument a =
    if bytes_eq a (text "--forward")
    then forward_flag
    else if bytes_eq a (text "--synthetic")
    then synthetic_flag
    else if bytes_eq a (text "--replay")
    then takes replay_key
    else if bytes_eq a (text "--record")
    then takes record_key
    else if bytes_eq a (text "--host")
    then takes host_key
    else if bytes_eq a (text "--port")
    then takes port_key
    else if bytes_eq a (text "--queue")
    then takes queue_key
    else if bytes_eq a (text "--id")
    then takes id_key
    else if bytes_eq a (text "--peer")
    then takes peer_key
    else if bytes_eq a (text "--sensitive")
    then takes sensitive_key
    else unknown

module _ (int : Integers) where
  abbrev pub set_port : Options → Option ℕ → Option Options
  set_port o none = none
  set_port o (some v) = some (record o { port = v % 2 ^ 16 })

  abbrev pub set_queue : Options → Option ℕ → Option Options
  set_queue o none = none
  set_queue o (some v) = some (record o { queue = v })

  -- The option with its value; `none` is an exception.
  unfoldable pub assign : Key → Bytes → Options → Option Options
  assign replay_key v o = some (record o { replay_file = v })
  assign record_key v o = some (record o { record_file = v })
  assign host_key v o = some (record o { host = v })
  assign port_key v o = set_port o (int.stoi v)
  assign queue_key v o = set_queue o (int.stoul v)
  assign id_key v o = some (record o { id_prefix = v })
  assign peer_key v o = some (record o { peer_pub = v })
  assign sensitive_key v o = some (record o { sensitive = o.sensitive ++ v ∷ [] })

  -- The tests after the loop.
  unfoldable pub check_options : Options → Parsed
  check_options o =
      if o.synthetic && not (is_empty o.replay_file)
      then refused two_sources
      else if o.queue == 0
      then refused empty_queue
      else if not (is_empty o.record_file)
          && (o.forward || (o.synthetic || not (is_empty o.replay_file)))
      then refused record_alone
      else accepted o

  -- The loop over the arguments; the key is the option that waits for its value.
  unfoldable pub parse_loop : List Bytes → Option Key → Options → Parsed
  parse_loop [] none o = check_options o
  parse_loop [] (some k) o = refused (no_value k)
  parse_loop (v ∷ rest) (some k) o = elim (assign k v o) [
    | none ↦ refused bad_number
    | some o' ↦ parse_loop rest none o'
  ]
  parse_loop (a ∷ rest) none o = elim (argument a) [
    | forward_flag ↦ parse_loop rest none (record o { forward = true })
    | synthetic_flag ↦ parse_loop rest none (record o { synthetic = true })
    | takes k ↦ parse_loop rest (some k) o
    | unknown ↦ refused (unknown_argument a)
  ]

  abbrev pub parse_args : List Bytes → Parsed
  parse_args argv = parse_loop argv none default_options
