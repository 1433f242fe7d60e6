-- ===== src/Agent/Options/Sound.antt =====
-- What the agent's command line can ask for: agent/src/main.cpp.
use pqc_edr.Base.{
  ◌^◌, ◌<◌, ◌≡◌, ◌⊎◌, inl, inr, refl, true, false, Option, Option-cases, none, some, List, [], ◌∷◌,
  is_empty, arith,
}
use pqc_edr.Base.Words.{Bytes}
use pqc_edr.Agent.Options.{
  Integers, Options, Argument, default_options, Key, port_key, queue_key, forward_flag,
  synthetic_flag, unknown, takes, accepted, assign, argument, check_options, parse_loop, parse_args,
}

-- The combinations of options that the agent can work with.
pub record IsAllowed (o : Options) : Type 0 where
  pub port : o.port < 2 ^ 16
  pub queue : 0 < o.queue
  pub one_source : (o.synthetic ≡ false) ⊎ (o.replay_file ≡ [])
  pub alone :
      (o.record_file ≡ []) ⊎ ((o.forward ≡ false) × (o.synthetic ≡ false) × (o.replay_file ≡ []))

empty_text : (s : Bytes) → is_empty s ≡ true → s ≡ []
empty_text [] h = refl
empty_text (c ∷ s) h = cc

argument-cases :
    (a : Argument)
    → (a ≡ forward_flag) ⊎ (a ≡ synthetic_flag) ⊎ (a ≡ unknown) ⊎ ((k : Key) × (a ≡ takes k))
argument-cases forward_flag = inl refl
argument-cases synthetic_flag = inr (inl refl)
argument-cases unknown = inr (inr (inl refl))
argument-cases (takes k) = inr (inr (inr (k, refl)))

module _ (int : Integers) where
  check_options-IsAllowed :
      (o p : Options) → o.port < 2 ^ 16 → check_options int o ≡ accepted p → IsAllowed p
  unfolding check_options
  check_options-IsAllowed o p l h =
      let same : o ≡ p = ground arith in
      rw (← same) (record {
        port = l;
        queue = ground arith;
        one_source = ground (arith, empty_text o.replay_file);
        alone = ground (arith, empty_text o.replay_file, empty_text o.record_file);
      })

  assign-port :
      (k : Key) (v : Bytes) (o p : Options)
      → o.port < 2 ^ 16
      → assign int k v o ≡ some p
      → p.port < 2 ^ 16
  unfolding assign
  assign-port port_key v o p l h = elim (Option-cases (int.stoi v)) [
    | inl e ↦ ground (arith, e)
    | inr (n, e) ↦ ground (arith, e)
  ]
  assign-port queue_key v o p l h = elim (Option-cases (int.stoul v)) [
    | inl e ↦ ground (arith, e)
    | inr (n, e) ↦ ground (arith, e)
  ]
  assign-port k v o p l h = ground arith

  parse_loop-IsAllowed :
      (argv : List Bytes) (waits : Option Key) (o p : Options)
      → o.port < 2 ^ 16
      → parse_loop int argv waits o ≡ accepted p
      → IsAllowed p
  unfolding parse_loop
  parse_loop-IsAllowed [] none o p l h = check_options-IsAllowed o p l h
  parse_loop-IsAllowed [] (some k) o p l h = cc
  parse_loop-IsAllowed (v ∷ rest) (some k) o p l h = elim (Option-cases (assign int k v o)) [
    | inl e ↦ ground (arith, e)
    | inr (q, e) ↦ parse_loop-IsAllowed rest none q p (assign-port k v o q l e) (ground (arith, e))
  ]
  parse_loop-IsAllowed (a ∷ rest) none o p l h = elim (argument-cases (argument a)) [
    | inl e ↦ parse_loop-IsAllowed rest none (record o { forward = true }) p l (ground (arith, e))
    | inr (inl e) ↦
        parse_loop-IsAllowed rest none (record o { synthetic = true }) p l (ground (arith, e))
    | inr (inr (inl e)) ↦ ground (arith, e)
    | inr (inr (inr (k, e))) ↦ parse_loop-IsAllowed rest (some k) o p l (ground (arith, e))
  ]

  -- What an accepted command line asks for: a port of 16 bits, a queue with room for an event, one source
  -- of events at most besides the collector, and a recording only of what the collector gives, with no
  -- forwarding.
  pub parse_args-IsAllowed :
      (argv : List Bytes) (o : Options) → parse_args int argv ≡ accepted o → IsAllowed o
  parse_args-IsAllowed argv o h = parse_loop-IsAllowed argv none default_options o (omega arith) h
