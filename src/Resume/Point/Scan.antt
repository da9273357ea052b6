-- ===== src/Resume/Point/Scan.antt =====
-- About the loop of `computeResumePoint` that looks for the wave to resume from.
use taskplane.Base.{
  ℕ, zero, suc, ◌+◌, ◌<◌, ◌≤◌, ◌≡◌, refl, ap, if◌then◌else◌, true, false, List, [], ◌∷◌, ◌++◌, all,
  length, get_elem?, some, Text, Dict, arith, inl, inr, Bool-cases, ◌==◌,
}
use taskplane.Batch.{BatchState}
use taskplane.Resume.Reconcile.{ReconciledTaskState}
use taskplane.Resume.Point.{
  Lookup, Wave, is_done, needs_merge, scan, waves_from, lookup_of, waves_of, compute_resume_point,
}

-- All tasks of a wave are terminal, and it needs no merge.
abbrev pub Settled : BatchState → Lookup → ℕ → Wave → Type 0
Settled state l i w = (all (is_done l w) w.tasks ≡ true) × (needs_merge state l i w ≡ false)

same_wave : {a b : Wave} → some a ≡ some b → a ≡ b
same_wave h = cc

module _ (state : BatchState) (l : Lookup) (n : ℕ) where
  -- Once set, the resume index stays.
  scan-stays :
      (ws : List Wave) (i resume : ℕ) (retries : List ℕ)
      → resume < n
      → (scan state l n i ws resume retries).0 ≡ resume
  unfolding scan
  scan-stays [] i resume retries h = refl
  scan-stays (w ∷ ws) i resume retries h = elim (Bool-cases (all (is_done l w) w.tasks)) [
    | inl e ↦ elim (Bool-cases (needs_merge state l i w)) [
      | inl m ↦ rw (e, m) (rw (kept) (scan-stays ws (i + 1) resume _ h))
      | inr m ↦ rw (e, m) (scan-stays ws (i + 1) resume retries h)
    ]
    | inr e ↦ rw e kept
  ]
    where
      kept : (if resume == n then i else resume) ≡ resume
      kept = ground arith

  pub record First (i : ℕ) (ws : List Wave) (r : ℕ) : Type 0 where
    pub low : i ≤ r
    pub high : r ≤ n
    pub before :
        (k : ℕ) (w : Wave) → get_elem? ws k ≡ some w → i + k < r → Settled state l (i + k) w
    pub here :
        (k : ℕ) (w : Wave) → get_elem? ws k ≡ some w → i + k ≡ r → ¬ (Settled state l (i + k) w)

  at_zero :
      (i : ℕ) (w v : Wave) (ws : List Wave)
      → get_elem? (w ∷ ws) zero ≡ some v
      → (Settled state l i w → Settled state l (i + zero) v)
        × (Settled state l (i + zero) v → Settled state l i w)
  at_zero i w v ws e =
      let same : w ≡ v = same_wave e in
      let number : i + zero ≡ i = omega arith in rw (number, ← same) (λ s. s, λ s. s)

  First-here :
      (i : ℕ) (w : Wave) (ws : List Wave) → i < n → ¬ (Settled state l i w) → First i (w ∷ ws) i
  First-here i w ws h un = record {
    low = omega arith;
    high = omega arith;
    before = λ k v e lt. absurd (omega arith);
    here = here;
  }
    where
      here :
          (k : ℕ) (v : Wave)
          → get_elem? (w ∷ ws) k ≡ some v
          → i + k ≡ i
          → ¬ (Settled state l (i + k) v)
      here zero v e q s = un ((at_zero i w v ws e).1 s)
      here (suc k) v e q s = absurd (omega arith)

  First-next :
      (i r : ℕ) (w : Wave) (ws : List Wave)
      → Settled state l i w
      → First (i + 1) ws r
      → First i (w ∷ ws) r
  First-next i r w ws s f = record {
    low = omega (arith, f.low);
    high = f.high;
    before = before;
    here = here;
  }
    where
      before :
          (k : ℕ) (v : Wave) → get_elem? (w ∷ ws) k ≡ some v → i + k < r → Settled state l (i + k) v
      before zero v e lt = (at_zero i w v ws e).0 s
      before (suc k) v e lt =
          let number : i + suc k ≡ i + 1 + k = omega arith in
          rw number (f.before k v e (omega arith))

      here :
          (k : ℕ) (v : Wave)
          → get_elem? (w ∷ ws) k ≡ some v
          → i + k ≡ r
          → ¬ (Settled state l (i + k) v)
      here zero v e q = absurd (omega (arith, f.low))
      here (suc k) v e q =
          let number : i + suc k ≡ i + 1 + k = omega arith in rw number (f.here k v e (omega arith))

  -- From an unset resume index, the loop finds the first wave that is not settled.
  scan-First :
      (ws : List Wave) (i : ℕ) (retries : List ℕ)
      → i + length ws ≡ n
      → First i ws (scan state l n i ws n retries).0
  unfolding scan
  scan-First [] i retries h = record {
    low = omega arith;
    high = omega arith;
    before = λ k v e lt. cc;
    here = λ k v e q. cc;
  }
  scan-First (w ∷ ws) i retries h = elim (Bool-cases (all (is_done l w) w.tasks)) [
    | inl e ↦ elim (Bool-cases (needs_merge state l i w)) [
      | inl m ↦
          rw (e, m)
            (rw (set_here) (
              rw (scan-stays ws (i + 1) i (retries ++ i ∷ []) (omega arith))
                (First-here i w ws (omega arith) (λ s. absurd (ground arith)))))
      | inr m ↦ rw (e, m) (First-next i _ w ws (e, m) (scan-First ws (i + 1) retries (omega arith)))
    ]
    | inr e ↦ rw e (rw set_here (First-here i w ws (omega arith) (λ s. absurd (ground arith))))
  ]
    where
      set_here : (if n == n then i else n) ≡ i
      set_here = ground arith

length-waves_from :
    (ids : Dict (List Text)) (plan : List (List Text)) (counts : Dict ℕ)
    → length (waves_from ids plan counts) ≡ length plan
unfolding waves_from
length-waves_from ids [] counts = refl
length-waves_from ids (tasks ∷ plan) counts = ap suc (length-waves_from ids plan _)

-- The batch resumes at the first wave of its plan that has a task which is not terminal, or a
-- succeeded task whose merge is missing or did not succeed; every wave before it is settled. Where
-- all waves are settled, it resumes past the end.
pub resume_point-First :
    (state : BatchState) (reconciled : List ReconciledTaskState) (plan : List (List Text))
    → First state
        (lookup_of state reconciled)
        (length plan)
        0
        (waves_of state plan)
        (compute_resume_point state reconciled plan).resume_wave_index
unfolding compute_resume_point
resume_point-First state reconciled plan =
    scan-First state (lookup_of state reconciled) (length plan) (waves_of state plan) 0 []
      (omega (arith, length-waves_from _ plan []))
