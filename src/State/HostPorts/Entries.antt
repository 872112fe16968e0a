-- ===== src/State/HostPorts/Entries.antt =====
-- The entries that the release of a team collects.
use shrine.Prelude.{
  All, All-imp, Bool, Bool-cases, List, Nodup, String, [], arith, eq_int, eq_pair, eq_str,
  has_prefix, inl, inr, keep, keys, lookup, mem, mem-keys, some, true, ℤ, ◌∷◌, ◌≡◌, ◌⊕◌,
}
use shrine.State.HostPorts.{HostPortStore, of_team}
use shrine.State.HostPorts.Ports.{values}
use shrine.State.HostPorts.Rollback.{AreHeld}

keep-values-sub :
    (q : String × ℤ → Bool) (p : ℤ) (m : List (String × ℤ))
    → mem p (values (keep q m)) ≡ true
    → mem p (values m) ≡ true
unfolding keep mem
keep-values-sub q p [] h = h
keep-values-sub q p (r ∷ m) h = ground (arith, keep-values-sub q p m)

-- What is kept of a list with distinct values, has distinct values.
pub keep-values-Nodup :
    (q : String × ℤ → Bool) (m : List (String × ℤ)) → Nodup (values m) → Nodup (values (keep q m))
unfolding keep mem
keep-values-Nodup q [] d = tt
keep-values-Nodup q (r ∷ m) d =
    ground (arith, keep-values-Nodup q m d.1, keep-values-sub q r.1 m, d.0)

keep-keys-sub :
    (q : String × ℤ → Bool) (k : String) (m : List (String × ℤ))
    → mem k (keys (keep q m)) ≡ true
    → mem k (keys m) ≡ true
unfolding keep mem
keep-keys-sub q k [] h = h
keep-keys-sub q k (r ∷ m) h = ground (arith, keep-keys-sub q k m)

keep-keys-Nodup :
    (q : String × ℤ → Bool) (m : List (String × ℤ)) → Nodup (keys m) → Nodup (keys (keep q m))
unfolding keep mem
keep-keys-Nodup q [] d = tt
keep-keys-Nodup q (r ∷ m) d = ground (arith, keep-keys-Nodup q m d.1, keep-keys-sub q r.0 m, d.0)

-- Each entry of a list of distinct keys is what its key finds.
entries_found : (m : List (String × ℤ)) → Nodup (keys m) → All (λ r. lookup r.0 m ≡ some r.1) m
unfolding lookup
entries_found [] d = tt
entries_found ((k, p) ∷ m) d =
    (ground arith, All-imp (λ r h. ground (arith, mem-keys r.0 m, d.0)) m (entries_found m d.1))

All-keep {ℓ κ} :
    {A : Type ℓ} (P : A → Type κ) (q : A → Bool) (xs : List A) → All P xs → All P (keep q xs)
unfolding keep
All-keep P q [] h = tt
All-keep P q (x ∷ xs) h = elim (Bool-cases (q x)) [
  | inl yes_q ↦ rw yes_q (h.0, All-keep P q xs h.1)
  | inr no_q ↦ rw no_q (All-keep P q xs h.1)
]

pub of_team-AreHeld :
    (team : String) (s : HostPortStore) → Nodup (keys s.ports) → AreHeld (of_team team s.ports) s
of_team-AreHeld team s d = record {
  once = keep-keys-Nodup (λ r. has_prefix r.0 (team ⊕ "/")) s.ports d;
  held =
      All-keep (λ r. lookup r.0 s.ports ≡ some r.1) (λ r. has_prefix r.0 (team ⊕ "/")) s.ports
        (entries_found s.ports d);
}
