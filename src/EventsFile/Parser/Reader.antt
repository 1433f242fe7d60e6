-- ===== src/EventsFile/Parser/Reader.antt =====
-- The extractions of a line of recorded events: `decode_field`, `parse_ancestry` and the reads of `parse` in
-- common/events_file.h.
use pqc_edr.Base.{
  ℕ, zero, suc, ◌%◌, ◌^◌, Option, none, some, List, [], ◌∷◌, length, drop, ◌==◌, if◌then◌else◌,
}
use pqc_edr.Base.Words.{Bytes}
use pqc_edr.Base.Text.{text, c_string, starts_with}
use pqc_edr.Event.{SecurityEvent, Ancestor, comm_len}
use pqc_edr.Agent.Synthetic.{into_array}
use pqc_edr.EventsFile.{Numbers}
use pqc_edr.EventsFile.Tokens.{break_at, read_token}

infixl 5 ◌>>=◌
-- The next extraction, where this one has not failed.
abbrev ◌>>=◌ {ℓ μ} : {V : Type ℓ} {W : Type μ} → Option V → (V → Option W) → Option W
none >>= next = none
some value >>= next = next value

-- One round of the loop of `decode_field`: the escape that was read, or the character itself.
abbrev pub decoded : ℕ → Option ℕ → Bytes → Bytes → Bytes
decoded c none plain after = c ∷ plain
decoded c (some v) plain after = v ∷ after

module _ (lib : Numbers) where
  unfoldable pub decode_field : Bytes → Bytes
  decode_field [] = []
  decode_field (c ∷ []) = c ∷ []
  decode_field (c ∷ x ∷ []) = c ∷ x ∷ []
  decode_field (c ∷ x ∷ y ∷ s) =
      decoded c (if c == 37 then lib.strtol_hex (x ∷ y ∷ []) else none) (decode_field (x ∷ y ∷ s))
        (decode_field s)

  -- The pieces between the '|' of an ancestry, a round for each.
  unfoldable pub pieces : ℕ → Bytes → List Bytes
  pieces zero body = []
  pieces (suc rounds) [] = []
  pieces (suc rounds) (c ∷ body) =
      let r = break_at (λ d. d == 124) (c ∷ body) in r.0 ∷ pieces rounds (drop 1 r.1)

  abbrev pub generation : Bytes → Bytes → Ancestor
  generation pid comm = record {
    pid = lib.strtoul pid % 2 ^ 32;
    comm = into_array comm_len (c_string (decode_field comm));
  }

  -- A round of `parse_ancestry`: without a ':' the generation stays to be filled.
  abbrev pub with_colon : Bytes → Bytes → List Ancestor → List Ancestor → List Ancestor
  with_colon pid [] stay next = stay
  with_colon pid (colon ∷ comm) stay next = generation pid comm ∷ next

  -- The generations that the pieces with a ':' fill, and those that are left.
  unfoldable pub fill : List Ancestor → List Bytes → List Ancestor
  fill [] ps = []
  fill (a ∷ anc) [] = a ∷ anc
  fill (a ∷ anc) (p ∷ ps) =
      let r = break_at (λ d. d == 58) p in
      let stay = fill (a ∷ anc) ps in let next = fill anc ps in with_colon r.0 r.1 stay next

  unfoldable pub parse_ancestry : Bytes → SecurityEvent → SecurityEvent
  parse_ancestry tok ev =
      let body = drop 4 tok in record ev { anc = fill ev.anc (pieces (length body) body) }

  -- The loop over the tokens that are left, a round for each character at most.
  unfoldable pub read_options : ℕ → Bytes → SecurityEvent → SecurityEvent
  read_options zero s ev = ev
  read_options (suc rounds) s ev = elim (read_token s) [
    | none ↦ ev
    | some r ↦
        read_options rounds r.1
          (if starts_with (text "anc:") r.0 then parse_ancestry r.0 ev else ev)
  ]

  -- `is >> pid >> ppid >> comm`, `is >> ip >> port`, `is >> acc >> ino >> dev >> path`
  unfoldable pub read_common : Bytes → Option (ℕ × ℕ × Bytes × Bytes)
  read_common s = do
    (pid, s) ← lib.read_unsigned 32 s
    (ppid, s) ← lib.read_unsigned 32 s
    (comm, s) ← read_token s
    some (pid, ppid, comm, s)

  unfoldable pub read_endpoint : Bytes → Option (Bytes × ℕ × Bytes)
  read_endpoint s = do
    (ip, s) ← read_token s
    (port, s) ← lib.read_unsigned 32 s
    some (ip, port, s)

  unfoldable pub read_file : Bytes → Option (Bytes × ℕ × ℕ × Bytes × Bytes)
  read_file s = do
    (acc, s) ← read_token s
    (ino, s) ← lib.read_unsigned 64 s
    (dev, s) ← lib.read_unsigned 64 s
    (path, s) ← read_token s
    some (acc, ino, dev, path, s)
