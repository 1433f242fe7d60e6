-- ===== src/Agent/Collector/Filter.antt =====
-- Which opens the hook of agent/bpf/collector.bpf.c reports, and how its test of a path and the
-- analyzer's fit together.
use pqc_edr.Base.{
  ℕ, ◌+◌, ◌≡◌, refl, Bool, true, zero, suc, ◌<◌, All, drop, drop-drop, ◌&&◌, [], ◌∷◌, get_or, arith,
}
use pqc_edr.Base.Words.{Bytes}
use pqc_edr.Base.Text.{text, starts_with, c_string}
use pqc_edr.Analyzer.Correlator.State.{is_temp_path}
use pqc_edr.Agent.Collector.{is_staging, at_is}

-- The tests of `is_staging` one after the other, and what they say of the text in the buffer.
abbrev spells : Bytes → ℕ → Bytes → Bool
spells [] i p = true
spells (c ∷ cs) i p = at_is p i c && spells cs (i + 1) p

first-drop : (i : ℕ) (p : Bytes) → get_or p i 0 ≡ get_or (drop i p) 0 0
first-drop zero p = refl
first-drop (suc i) [] = refl
first-drop (suc i) (b ∷ p) = first-drop i p

one_character :
    (c : ℕ) (cs p : Bytes)
    → 0 < c
    → (at_is p 0 c && starts_with cs (c_string (drop 1 p))) ≡ starts_with (c ∷ cs) (c_string p)
unfolding starts_with c_string
one_character c cs [] h = ground arith
one_character c cs (zero ∷ p) h = ground arith
one_character c cs (suc b ∷ p) h = ground arith

spells_lem :
    (cs : Bytes) (i : ℕ) (p : Bytes)
    → All (λ c. 0 < c) cs
    → spells cs i p ≡ starts_with cs (c_string (drop i p))
unfolding starts_with
spells_lem [] i p h = refl
spells_lem (c ∷ cs) i p (positive, h) =
    rw (spells_lem cs (i + 1) p h, first-drop i p, ← drop-drop i 1 p)
      (one_character c cs (drop i p) positive)

-- The kernel's test of a path buffer, character by character, and the correlator's test of the text in
-- it have the same result.
pub is_staging_lem : (p : Bytes) → is_staging p ≡ is_temp_path (c_string p)
unfolding is_staging is_temp_path text
is_staging_lem p =
    let tmp = spells_lem (text "/tmp/") 0 p (ground arith) in
    let shm = spells_lem (text "/dev/shm/") 0 p (ground arith) in
    let var = spells_lem (text "/var/tmp/") 0 p (ground arith) in ground (arith, tmp, shm, var)
