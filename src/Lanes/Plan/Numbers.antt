-- ===== src/Lanes/Plan/Numbers.antt =====
-- About the lane numbers of a repository's tasks: each is listed once, so the lanes share the tasks
-- out.
use taskplane.Base.{
  ℕ, ◌+◌, ◌==◌, ◌≤◌, ◌≡◌, refl, ◌∙◌, if◌then◌else◌, true, false, inl, inr, List, [], ◌∷◌, ◌++◌, any,
  All, total, total-append, total-sort_by, sort_by, leb, arith, Bool-cases,
}
use taskplane.Types.{LaneAssignment}
use taskplane.Lanes.Plan.{add_number, lane_numbers, sorted_local_lanes, on_lane}

-- How often a number is listed.
abbrev times : ℕ → List ℕ → ℕ
times n ns = total (λ m. if m == n then 1 else 0) ns

times_of_any : (n : ℕ) (ns : List ℕ) → any (λ m. m == n) ns ≡ true → 1 ≤ times n ns
times_of_any n [] h = absurd (cc)
times_of_any n (m ∷ ns) h = ground (arith, times_of_any n ns)

times_of_none : (n : ℕ) (ns : List ℕ) → any (λ m. m == n) ns ≡ false → times n ns ≡ 0
times_of_none n [] h = refl
times_of_none n (m ∷ ns) h = ground (arith, times_of_none n ns)

times-append : (n m : ℕ) (ns : List ℕ) → times n (ns ++ m ∷ []) ≡ times n ns + times n (m ∷ [])
times-append n m ns = total-append (λ k. if k == n then 1 else 0) ns (m ∷ [])

times-add_number :
    (n m : ℕ) (ns : List ℕ)
    → (times n ns ≤ times n (add_number m ns))
      × (times n ns ≤ 1 → times n (add_number m ns) ≤ 1)
      × (1 ≤ times m (add_number m ns))
times-add_number n m ns = elim (Bool-cases (any (λ k. k == m) ns)) [
  | inl e ↦ rw e (omega arith, λ h. h, times_of_any m ns e)
  | inr e ↦ rw e (
    ground (arith, times-append n m ns),
    λ h. ground (arith, times-append n m ns, times_of_none m ns e),
    ground (arith, times-append m m ns),
  )
]

-- The lane of each of these is listed.
abbrev Listed : List ℕ → List LaneAssignment → Type 0
Listed ns assignments = All (λ (a : LaneAssignment). times a.lane ns ≡ 1) assignments

times-lane_numbers :
    (n : ℕ) (assignments : List LaneAssignment) (ns : List ℕ)
    → (times n ns ≤ times n (lane_numbers assignments ns))
      × (times n ns ≤ 1 → times n (lane_numbers assignments ns) ≤ 1)
times-lane_numbers n [] ns = (omega arith, λ h. h)
times-lane_numbers n (a ∷ assignments) ns =
    let (more, once) = times-lane_numbers n assignments (add_number a.lane ns) in
    let (more_first, once_first, _) = times-add_number n a.lane ns in
    (omega (arith, more, more_first), λ h. once (once_first h))

Listed-lane_numbers :
    (assignments : List LaneAssignment) (ns : List ℕ)
    → ((n : ℕ) → times n ns ≤ 1)
    → Listed (lane_numbers assignments ns) assignments
Listed-lane_numbers [] ns h = tt
Listed-lane_numbers (a ∷ assignments) ns h =
    let (more, once) = times-lane_numbers a.lane assignments (add_number a.lane ns) in
    let (_, once_first, present) = times-add_number a.lane a.lane ns in
    (
      omega (arith, more, once (once_first (h a.lane)), present),
      Listed-lane_numbers assignments (add_number a.lane ns)
          (λ n. (times-add_number n a.lane ns).1 (h n)),
    )

Listed-sorted :
    (ns : List ℕ) (assignments : List LaneAssignment)
    → Listed ns assignments
    → Listed (sort_by leb ns) assignments
Listed-sorted ns [] h = tt
Listed-sorted ns (a ∷ assignments) h = (
  total-sort_by leb (λ m. if m == a.lane then 1 else 0) ns ∙ h.0,
  Listed-sorted ns assignments h.1,
)

module _ (f : LaneAssignment → ℕ) where
  -- The lanes' totals.
  abbrev pub shares : List ℕ → List LaneAssignment → ℕ
  shares ns assignments = total (λ n. total f (on_lane n assignments)) ns

  shares-cons :
      (a : LaneAssignment) (assignments : List LaneAssignment) (ns : List ℕ)
      → times a.lane ns ≤ 1
      → shares ns (a ∷ assignments)
        ≡ (if times a.lane ns == 1 then f a else 0) + shares ns assignments
  shares-cons a assignments [] h = refl
  shares-cons a assignments (n ∷ ns) h = ground (arith, shares-cons a assignments ns)

  shares-nil : (ns : List ℕ) → shares ns [] ≡ 0
  shares-nil [] = refl
  shares-nil (n ∷ ns) = omega (arith, shares-nil ns)

  shares-Listed :
      (ns : List ℕ) (assignments : List LaneAssignment)
      → Listed ns assignments
      → shares ns assignments ≡ total f assignments
  shares-Listed ns [] h = shares-nil ns
  shares-Listed ns (a ∷ assignments) h =
      ground (arith, shares-cons a assignments ns, shares-Listed ns assignments h.1, h.0)

  pub shares-sorted_local_lanes :
      (assignments : List LaneAssignment)
      → shares (sorted_local_lanes assignments) assignments ≡ total f assignments
  unfolding sorted_local_lanes
  shares-sorted_local_lanes assignments =
      let ns = lane_numbers assignments [] in
      shares-Listed (sort_by leb ns) assignments
        (Listed-sorted ns assignments (Listed-lane_numbers assignments [] (λ n. omega arith)))
