-- ===== src/Agent/ChannelSink/Drain.antt =====
-- How the sending thread of `ChannelSink` (agent/src/main.cpp) ends: the destructor stops it, and what
-- is queued is sent before the thread returns.
use pqc_edr.Base.{
  ℕ, zero, suc, ◌+◌, ◌*◌, ◌≤◌, ◌≡◌, refl, ◌∙◌, sym, append-nil, true, false, Bool-cases, inl, inr,
  ◌⊎◌, ◌&&◌, ◌/◌, leb, List, [], ◌∷◌, ◌++◌, length, ltb, if◌then◌else◌, arith,
}
use pqc_edr.Event.{SecurityEvent}
use pqc_edr.Agent.ChannelSink.{
  Phase, waiting, sending, reporting, returned, ChannelSink, Observed, next_event, may_wake,
  send_one, make_drop_notice, after_event, Reaches, woken, sent_event, sent_notice,
}
use pqc_edr.Agent.ChannelSink.Invariant.{in_flight}
use pqc_edr.Agent.ChannelSink.Kept.{Reaches-Inv}

-- One step of the thread alone, with sends that succeed; at the wait it stays where it may not wake.
module _ (pid now : ℕ) where
  abbrev thread_at : Phase → Observed → ChannelSink → Observed × ChannelSink
  thread_at waiting o s = if may_wake s then (o, next_event s) else (o, s)
  thread_at (sending ev report total) o s = (
    record o { delivered = o.delivered ++ ev ∷ [] },
    record (send_one true s) { phase = after_event report total },
  )
  thread_at (reporting report total) o s = (
    record o { notices = o.notices ++ make_drop_notice pid now report total s ∷ [] },
    record (send_one true s) { phase = waiting },
  )
  thread_at returned o s = (o, s)

  abbrev pub thread_steps : ℕ → Observed → ChannelSink → Observed × ChannelSink
  thread_steps zero o s = (o, s)
  thread_steps (suc n) o s = let r = thread_at s.phase o s in thread_steps n r.0 r.1

-- The steps that are left: three for each queued event, and those of the phase.
abbrev phase_steps : Phase → ℕ
phase_steps waiting = 1
phase_steps (sending ev report total) = 3
phase_steps (reporting report total) = 2
phase_steps returned = 0

abbrev pub steps_left : ChannelSink → ℕ
steps_left s = 3 * length s.q + phase_steps s.phase

next_event_lem :
    (s : ChannelSink) (q : List SecurityEvent)
    → s.q ≡ q
    → ((next_event s).stop ≡ s.stop)
      × ((next_event s).broken ≡ s.broken)
      × (steps_left (next_event s) ≤ 3 * length q)
unfolding next_event
next_event_lem s [] e = simp (e) (refl, refl, omega arith)
next_event_lem s (ev ∷ rest) e =
    elim (Bool-cases (ltb 0 s.dropped_pending && leb (length rest) (s.capacity / 2))) [
      | inl h ↦ simp (e, h) (refl, refl, omega arith)
      | inr h ↦ simp (e, h) (refl, refl, omega arith)
    ]

after_event_lem : (report total : ℕ) → phase_steps (after_event report total) ≤ 2
after_event_lem report total = elim (Bool-cases (ltb 0 report)) [
  | inl h ↦ rw h (omega arith)
  | inr h ↦ rw h (omega arith)
]

phase_cases : (p : Phase) → (p ≡ returned) ⊎ (1 ≤ phase_steps p)
phase_cases waiting = inr (omega arith)
phase_cases (sending ev report total) = inr (omega arith)
phase_cases (reporting report total) = inr (omega arith)
phase_cases returned = inl refl

-- A step of a stopped thread that nothing has broken.
abbrev Advances : ℕ → Observed → ℕ → Observed × ChannelSink → Type 0
Advances capacity o left r =
    Reaches capacity r.0 r.1
    × (r.1.stop ≡ true)
    × (r.1.broken ≡ false)
    × (r.0.accepted ≡ o.accepted)
    × (steps_left r.1 + 1 ≤ left)

module _ (capacity pid now : ℕ) where
  step-Advances :
      (o : Observed) (s : ChannelSink) (p : Phase)
      → Reaches capacity o s
      → s.stop ≡ true
      → s.broken ≡ false
      → s.phase ≡ p
      → 1 ≤ phase_steps p
      → Advances capacity o (3 * length s.q + phase_steps p) (thread_at pid now p o s)
  unfolding send_one
  step-Advances o s waiting r st br e m =
      let wake : may_wake s ≡ true = ground arith in
      let (same, same', fewer) = next_event_lem s s.q refl in
      rw wake (woken o s r e wake, same ∙ st, same' ∙ br, refl, omega arith)
  step-Advances o s (sending ev report total) r st br e m =
      let less = after_event_lem report total in
      (sent_event o s ev report total r e, st, br, refl, omega arith)
  step-Advances o s (reporting report total) r st br e m =
      (sent_notice o s pid now report total r e, st, br, refl, omega arith)
  step-Advances o s returned r st br e m = absurd (omega arith)

  -- A thread that has returned with nothing broken has sent everything.
  returned-HasDrained :
      (o : Observed) (s : ChannelSink)
      → 1 ≤ capacity
      → Reaches capacity o s
      → s.broken ≡ false
      → s.phase ≡ returned
      → (s.phase ≡ returned) × (o.delivered ≡ o.accepted) × (s.q ≡ [])
  returned-HasDrained o s positive r br e =
      let i = Reaches-Inv capacity o s positive r in
      let (nothing, _) = i.done e br in
      let all : o.accepted ≡ o.delivered ++ (in_flight s.phase ++ s.q) = i.order br in
      let all' : o.accepted ≡ o.delivered ++ [] = rw (e, nothing) at all in
      (e, sym (all' ∙ append-nil o.delivered), nothing)

  -- Once the destructor has asked for it, and as long as every send succeeds, the thread sends all that
  -- was accepted and returns: `steps_left` of its own steps are enough, from any state that the two
  -- threads reach.
  pub thread_drains :
      (n : ℕ) (o : Observed) (s : ChannelSink)
      → 1 ≤ capacity
      → Reaches capacity o s
      → s.stop ≡ true
      → s.broken ≡ false
      → steps_left s ≤ n
      → let r = thread_steps pid now n o s in
        (r.1.phase ≡ returned) × (r.0.delivered ≡ o.accepted) × (r.1.q ≡ [])
  thread_drains zero o s positive r st br l = elim (phase_cases s.phase) [
    | inl e ↦ returned-HasDrained o s positive r br e
    | inr more ↦ absurd (omega arith)
  ]
  thread_drains (suc n) o s positive r st br l = elim (phase_cases s.phase) [
    | inl e ↦
        let (_, _, nothing) = returned-HasDrained o s positive r br e in
        let none_left : steps_left s ≡ 0 = simp (e, nothing) (omega arith) in
        let rest = thread_drains n o s positive r st br (omega arith) in simp (e) rest
    | inr more ↦
        let next = thread_at pid now s.phase o s in
        let (r', st', br', same, fewer) = step-Advances o s s.phase r st br refl more in
        let (end, all, nothing) = thread_drains n next.0 next.1 positive r' st' br' (omega arith) in
        (end, all ∙ same, nothing)
  ]
