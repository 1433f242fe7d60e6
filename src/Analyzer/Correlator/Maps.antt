-- ===== src/Analyzer/Correlator/Maps.antt =====
-- `std::map` as an association list, over a Boolean equality of keys: `m[k] = v`, `m.find(k)`, the
-- loops that erase, and `m.size()`. They serve analyzer/src/correlator.cpp.
use pqc_edr.Base.{
  ◌+◌, ◌≡◌, ◌↔◌, refl, sym, subst, inl, inr, Bool, true, Bool-cases, Option, none, some, List, [],
  ◌∷◌, length, All, if◌then◌else◌, arith,
}

module _ {ℓ κ} {K : Type ℓ} {V : Type κ} (eq : K → K → Bool) where
  unfoldable pub find_entry : K → List (K × V) → Option V
  find_entry k [] = none
  find_entry k ((j, v) ∷ m) = if eq j k then some v else find_entry k m

  unfoldable pub put_entry : K → V → List (K × V) → List (K × V)
  put_entry k v [] = (k, v) ∷ []
  put_entry k v ((j, w) ∷ m) = if eq j k then (j, v) ∷ m else (j, w) ∷ put_entry k v m

module _ {ℓ κ} {K : Type ℓ} {V : Type κ} where
  unfoldable pub keep_entries : (V → Bool) → List (K × V) → List (K × V)
  keep_entries keep [] = []
  keep_entries keep ((j, v) ∷ m) =
      let rest = keep_entries keep m in if keep v then (j, v) ∷ rest else rest

module _ {ℓ κ} {K : Type ℓ} {V : Type κ} (eq : K → K → Bool)
    (eq_ok : (j k : K) → (eq j k ≡ true) ↔ (j ≡ k)) where
  -- The map law: a read after a write.
  pub find-put :
      (k j : K) (v : V) (m : List (K × V))
      → find_entry eq j (put_entry eq k v m) ≡ (if eq k j then some v else find_entry eq j m)
  unfolding find_entry put_entry
  find-put k j v [] = refl
  find-put k j v ((i, w) ∷ m) = ground (arith, eq_ok k j, eq_ok i k, eq_ok i j, find-put k j v m)

  pub All-put {μ} :
      (P : K × V → Type μ) (k : K) (v : V) (m : List (K × V))
      → All P m
      → P (k, v)
      → All P (put_entry eq k v m)
  unfolding put_entry
  All-put P k v [] a p = (p, tt)
  All-put P k v ((j, w) ∷ m) a p = elim (Bool-cases (eq j k)) [
    | inl same ↦ rw same (subst (λ (i : K). P (i, v)) (sym ((eq_ok j k).0 same)) p, a.1)
    | inr other ↦ rw other (a.0, All-put P k v m a.1 p)
  ]

module _ {ℓ κ} {K : Type ℓ} {V : Type κ} (eq : K → K → Bool) where
  -- What a loop that erases leaves is found as before.
  pub find-keep :
      (keep : V → Bool) (k : K) (v : V) (m : List (K × V))
      → find_entry eq k m ≡ some v
      → keep v ≡ true
      → find_entry eq k (keep_entries keep m) ≡ some v
  unfolding find_entry keep_entries
  find-keep keep k v [] h kept = cc
  find-keep keep k v ((j, w) ∷ m) h kept = ground (arith, find-keep keep k v m)

  -- A write under a new key adds one entry.
  pub length-put_new :
      (k : K) (v : V) (m : List (K × V))
      → find_entry eq k m ≡ none
      → length (put_entry eq k v m) ≡ length m + 1
  unfolding find_entry put_entry
  length-put_new k v [] h = omega arith
  length-put_new k v ((j, w) ∷ m) h = ground (arith, length-put_new k v m)

  pub All-find {μ} :
      (P : K × V → Type μ) (eq_ok : (j k : K) → (eq j k ≡ true) → (j ≡ k)) (k : K) (v : V)
      (m : List (K × V))
      → All P m
      → find_entry eq k m ≡ some v
      → P (k, v)
  unfolding find_entry
  All-find P eq_ok k v [] a h = cc
  All-find P eq_ok k v ((j, w) ∷ m) a h = elim (Bool-cases (eq j k)) [
    | inl same ↦
        let e : w ≡ v = ground arith in
        subst (λ (u : V). P (k, u)) e (subst (λ (i : K). P (i, w)) (eq_ok j k same) a.0)
    | inr other ↦ All-find P eq_ok k v m a.1 (rw other at h)
  ]

module _ {ℓ κ μ} {K : Type ℓ} {V : Type κ} (P : K × V → Type μ) where
  pub All-keep : (keep : V → Bool) (m : List (K × V)) → All P m → All P (keep_entries keep m)
  unfolding keep_entries
  All-keep keep [] a = tt
  All-keep keep ((j, v) ∷ m) a = elim (Bool-cases (keep v)) [
    | inl kept ↦ rw kept (a.0, All-keep keep m a.1)
    | inr gone ↦ rw gone (All-keep keep m a.1)
  ]

-- A loop that finds nothing to erase changes nothing.
pub keep-All {ℓ κ} :
    {K : Type ℓ} {V : Type κ} (keep : V → Bool) (m : List (K × V))
    → All (λ (e : K × V). keep e.1 ≡ true) m
    → keep_entries keep m ≡ m
unfolding keep_entries
keep-All keep [] a = refl
keep-All keep ((j, v) ∷ m) a = rw (a.0, keep-All keep m a.1)
