-- ===== src/Lanes/Assign/Lanes.antt =====
-- About the lanes of `assignTasksToLanes`: the numbers of their tasks, and tasks of one group.
use taskplane.Base.{
  ℕ, zero, suc, ◌+◌, ◌<◌, ◌≤◌, ◌≡◌, refl, sym, ◌∙◌, if◌then◌else◌, true, false, ◌&&◌, ◌||◌, List,
  [], ◌∷◌, length, flatten, All, All-append, Text, has, has-append, count, count-append,
  count_of_has, has_of_count, Dict, arith, inl, inr, ap, Bool-cases,
}
use taskplane.Types.{ParsedTask, LaneAssignment}
use taskplane.Lanes.Affinity.Groups.{together}
use taskplane.Lanes.Assign.{Lane, add_task, fill, modify_at, assign_group_to_lane, is_pending_task}
use taskplane.Lanes.Assign.Shares.{
  ids_of, ids_of-append, all_tasks, tasks-add_task, count-fill, count-assign,
}

abbrev pub In : ℕ → List LaneAssignment → Type 0
In number tasks = All (λ (a : LaneAssignment). a.lane ≡ number) tasks

-- The lanes are numbered from `i` on.
abbrev pub Numbered : ℕ → List Lane → Type 0
Numbered i [] = Unit
Numbered i (l ∷ lanes) = In i l.tasks × Numbered (i + 1) lanes

-- Two tasks stand in the same lanes.
abbrev pub Alike : Text → Text → Lane → Type 0
Alike x y l = has x (ids_of l.tasks) ≡ has y (ids_of l.tasks)

together-has :
    (x y : Text) (groups : List (List Text))
    → together x y groups ≡ true
    → (has x (flatten groups) ≡ true) × (has y (flatten groups) ≡ true)
unfolding has
together-has x y [] h = cc
together-has x y (g ∷ groups) h = elim (Bool-cases (has x g && has y g)) [
  | inl e ↦ (
    ground (arith, has-append x g (flatten groups)),
    ground (arith, has-append y g (flatten groups)),
  )
  | inr e ↦
      let rest = together-has x y groups (rw e at h) in
      (
        ground (arith, has-append x g (flatten groups), rest.0),
        ground (arith, has-append y g (flatten groups), rest.1),
      )
]

All-modify_at :
    {A : Type 0} (P : A → Type 0) (i : ℕ) (f : A → A) (xs : List A)
    → ((a : A) → P a → P (f a))
    → All P xs
    → All P (modify_at i f xs)
All-modify_at P i f [] h all = all
All-modify_at P zero f (x ∷ xs) h all = (h x all.0, all.1)
All-modify_at P (suc i) f (x ∷ xs) h all = (all.0, All-modify_at P i f xs h all.1)

absent_lanes :
    (x : Text) (lanes : List Lane)
    → count x (ids_of (all_tasks lanes)) ≡ 0
    → All (λ (l : Lane). has x (ids_of l.tasks) ≡ false) lanes
unfolding count
absent_lanes x [] e = tt
absent_lanes x (l ∷ lanes) e =
    let split : count x (ids_of (all_tasks (l ∷ lanes)))
        ≡ count x (ids_of l.tasks) + count x (ids_of (all_tasks lanes)) =
      ap (count x) (ids_of-append l.tasks (all_tasks lanes))
      ∙ count-append x (ids_of l.tasks) (ids_of (all_tasks lanes)) in
    (
      ground (arith, split, count_of_has x (ids_of l.tasks)),
      absent_lanes x lanes (omega (arith, split)),
    )

Alike-absent :
    (x y : Text) (lanes : List Lane)
    → All (λ (l : Lane). has x (ids_of l.tasks) ≡ false) lanes
    → All (λ (l : Lane). has y (ids_of l.tasks) ≡ false) lanes
    → All (Alike x y) lanes
Alike-absent x y [] hx hy = tt
Alike-absent x y (l ∷ lanes) hx hy = (hx.0 ∙ sym hy.0, Alike-absent x y lanes hx.1 hy.1)

module _ (weights : Dict ℕ) (pending : Dict ParsedTask) where
  has-fill :
      (x : Text) (number : ℕ) (g : List Text) (l : Lane)
      → has x (ids_of (fill weights pending number g l).tasks)
        ≡ (has x (ids_of l.tasks) || (is_pending_task pending x && has x g))
  has-fill x number g l = ground (
    arith,
    count-fill weights pending x number g l,
    count_of_has x (ids_of (fill weights pending number g l).tasks),
    has_of_count x (ids_of (fill weights pending number g l).tasks),
    count_of_has x (ids_of l.tasks),
    has_of_count x (ids_of l.tasks),
    count_of_has x g,
    has_of_count x g,
  )

  In-add_task :
      (number : ℕ) (id : Text) (l : Lane)
      → In number l.tasks
      → In number (add_task weights pending number id l).tasks
  In-add_task number id l h = elim (tasks-add_task weights pending number id l) [
    | inl (e, _) ↦ rw e h
    | inr (t, e, _) ↦ rw e (
        All-append (λ (a : LaneAssignment). a.lane ≡ number) l.tasks
          (record { task_id = id; lane = number; task = t } ∷ []) h (refl, tt))
  ]

  In-fill :
      (number : ℕ) (g : List Text) (l : Lane)
      → In number l.tasks
      → In number (fill weights pending number g l).tasks
  unfolding fill
  In-fill number [] l h = h
  In-fill number (id ∷ ids) l h =
      In-fill number ids (add_task weights pending number id l) (In-add_task number id l h)

  Numbered-modify_at :
      (i index : ℕ) (g : List Text) (lanes : List Lane)
      → Numbered i lanes
      → Numbered i (modify_at index (fill weights pending (index + i) g) lanes)
  Numbered-modify_at i index g [] h = h
  Numbered-modify_at i zero g (l ∷ lanes) h =
      let number : 0 + i ≡ i = omega arith in (rw number (In-fill i g l h.0), h.1)
  Numbered-modify_at i (suc index) g (l ∷ lanes) h =
      let number : suc index + i ≡ index + (i + 1) = omega arith in
      (h.0, rw number (Numbered-modify_at (i + 1) index g lanes h.1))

  -- What the loop keeps, where the groups `done` are placed.
  pub record Shared (done : List (List Text)) (lanes : List Lane) : Type 0 where
    pub counted :
        (x : Text)
        → count x (ids_of (all_tasks lanes))
          ≡ (if is_pending_task pending x then count x (flatten done) else 0)
    pub alike :
        (x y : Text)
        → is_pending_task pending x ≡ true
        → is_pending_task pending y ≡ true
        → together x y done ≡ true
        → All (Alike x y) lanes
    pub numbered : Numbered 1 lanes

  module _ (done : List (List Text)) (g : List Text) (index : ℕ) (lanes : List Lane)
      (s : Shared done lanes) (inside : index < length lanes)
      (distinct : (x : Text) → count x (flatten done) + count x g ≤ 1) where
    Alike-new :
        (x y : Text)
        → is_pending_task pending x ≡ true
        → is_pending_task pending y ≡ true
        → (has x g && has y g) ≡ true
        → All (Alike x y) (modify_at index (fill weights pending (index + 1) g) lanes)
    Alike-new x y px py h =
        All-modify_at (Alike x y) index (fill weights pending (index + 1) g) lanes
          (λ l _. ground (arith, has-fill x (index + 1) g l, has-fill y (index + 1) g l))
          (Alike-absent x y lanes
            (absent_lanes x lanes (ground (arith, s.counted x, distinct x, count_of_has x g)))
            (absent_lanes y lanes (ground (arith, s.counted y, distinct y, count_of_has y g))))

    Alike-old :
        (x y : Text)
        → is_pending_task pending x ≡ true
        → is_pending_task pending y ≡ true
        → together x y done ≡ true
        → All (Alike x y) (modify_at index (fill weights pending (index + 1) g) lanes)
    Alike-old x y px py h =
        let (hx, hy) = together-has x y done h in
        let gx : has x g ≡ false =
          ground (arith, distinct x, count_of_has x g, count_of_has x (flatten done)) in
        let gy : has y g ≡ false =
          ground (arith, distinct y, count_of_has y g, count_of_has y (flatten done)) in
        All-modify_at (Alike x y) index (fill weights pending (index + 1) g) lanes
          (λ l a. ground (arith, has-fill x (index + 1) g l, has-fill y (index + 1) g l))
          (s.alike x y px py h)

    pub Shared-assign : Shared (g ∷ done) (assign_group_to_lane weights pending g index lanes)
    unfolding assign_group_to_lane
    Shared-assign = record {
      counted = λ x. ground (
        arith,
        s.counted x,
        count-assign weights pending x (index + 1) g index lanes inside,
        count-append x g (flatten done),
      );
      alike = λ x y px py h. elim (Bool-cases (has x g && has y g)) [
        | inl e ↦ Alike-new x y px py e
        | inr e ↦ Alike-old x y px py (rw e at h)
      ];
      numbered = Numbered-modify_at 1 index g lanes s.numbered;
    }
