-- ===== src/Collectors/Tally.antt =====
-- Maps that count, and gauges with labels. The order in which Go ranges over a map is not specified; here
-- it is that in which the keys have been put in.
use kafkarator.Base.{
  ℕ, zero, suc, ◌+◌, ◌≤◌, ◌≡◌, refl, sym, ap, ◌∙◌, List, [], ◌∷◌, Option, some, arith, ◌==◌, Eq,
  nat_eq, if◌then◌else◌, Bool-cases, inl, inr, ==_iff,
}

-- A gauge that is set to a count, unless there is nothing to count.
abbrev pub counted : ℕ → Option ℕ → Option ℕ
counted zero old = old
counted (suc n) old = some (suc n)

counted-some : (n : ℕ) (old : Option ℕ) → 1 ≤ n → counted n old ≡ some n
counted-some zero old h = absurd (omega arith)
counted-some (suc n) old h = refl

module _ {K : Type 0} ⦃e : Eq K⦄ where
  -- `reports[k]++`
  unfoldable pub increment : K → List (K × ℕ) → List (K × ℕ)
  increment k [] = (k, 1) ∷ []
  increment k ((j, n) ∷ m) =
      let rest = increment k m in if j == k then (j, suc n) ∷ m else (j, n) ∷ rest

  -- The map after an increment for each key.
  unfoldable pub tally : List K → List (K × ℕ) → List (K × ℕ)
  unfolding increment
  tally [] m = m
  tally (k ∷ ks) m = tally ks (increment k m)

  -- `With(labels).Set(n)`
  unfoldable pub set_gauge : K → ℕ → (K → Option ℕ) → K → Option ℕ
  set_gauge k n g j = if k == j then some n else g j

  -- The loop that sets a gauge for each key of a map.
  unfoldable pub set_all : List (K × ℕ) → (K → Option ℕ) → K → Option ℕ
  unfolding set_gauge
  set_all [] g = g
  set_all ((k, n) ∷ m) g = set_all m (set_gauge k n g)

  -- How often a key occurs.
  abbrev pub occurrences : K → List K → ℕ
  occurrences k [] = 0
  occurrences k (j ∷ ks) = (if j == k then 1 else 0) + occurrences k ks

  abbrev count_of : List (K × ℕ) → K → ℕ
  count_of [] k = 0
  count_of ((j, n) ∷ m) k = if j == k then n else count_of m k

  -- Every key stands once, with a positive number.
  abbrev Valid : List (K × ℕ) → Type 0
  Valid [] = Unit
  Valid ((j, n) ∷ m) = (count_of m j ≡ 0) × (1 ≤ n) × Valid m

  count_of-increment :
      (k : K) (m : List (K × ℕ)) (i : K)
      → count_of (increment k m) i ≡ count_of m i + (if k == i then 1 else 0)
  unfolding increment
  count_of-increment k [] i = ground arith
  count_of-increment k ((j, n) ∷ m) i = ground (arith, count_of-increment k m i)

  increment-Valid : (k : K) (m : List (K × ℕ)) → Valid m → Valid (increment k m)
  unfolding increment
  increment-Valid k [] v = (refl, omega arith, tt)
  increment-Valid k ((j, n) ∷ m) (a, b, v) = elim (Bool-cases (j == k)) [
    | inl same ↦ rw same (a, omega arith, v)
    | inr differ ↦ rw differ (ground (arith, count_of-increment k m j), b, increment-Valid k m v)
  ]

  set_all-count :
      (m : List (K × ℕ)) (g : K → Option ℕ) (i : K)
      → Valid m
      → set_all m g i ≡ counted (count_of m i) (g i)
  unfolding set_all set_gauge
  set_all-count [] g i v = refl
  set_all-count ((j, n) ∷ m) g i (a, b, v) =
      set_all-count m (set_gauge j n g) i v ∙ elim (Bool-cases (j == i)) [
        | inl same ↦
            let absent = ap (count_of m) (sym ((==_iff j i).0 same)) ∙ a in
            rw (same, absent) (sym (counted-some n (g i) b))
        | inr differ ↦ rw differ refl
      ]

  tally-count :
      (ks : List K) (m : List (K × ℕ)) (i : K)
      → Valid m
      → Valid (tally ks m) × (count_of (tally ks m) i ≡ count_of m i + occurrences i ks)
  unfolding tally
  tally-count [] m i v = (v, omega arith)
  tally-count (k ∷ ks) m i v =
      let (w, h) = tally-count ks (increment k m) i (increment-Valid k m v) in
      (w, omega (arith, h, count_of-increment k m i))

  -- Counting keys and setting the gauges: a gauge has the number of occurrences of its key, and keeps
  -- its value if there is none.
  pub set_all-tally :
      (ks : List K) (g : K → Option ℕ) (i : K)
      → set_all (tally ks []) g i ≡ counted (occurrences i ks) (g i)
  set_all-tally ks g i =
      let (v, h) = tally-count ks [] i tt in
      set_all-count (tally ks []) g i v ∙ ap (λ n. counted n (g i)) (h ∙ omega arith)
