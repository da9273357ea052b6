-- ===== src/Lanes/Assign/Steps.antt =====
-- About the strategies of `assignTasksToLanes`: each places the groups one after the other.
use taskplane.Base.{
  ℕ, zero, suc, ◌+◌, ◌%◌, ◌<◌, ltb, ◌≡◌, refl, ap, ◌∙◌, Bool, ◌&&◌, ◌||◌, List, [], ◌∷◌, ◌++◌,
  length, filter, flatten, Text, text, text_eq, has, count, count-append, Dict, any-sort_by,
  count-flatten-sort_by, arith, inl, inr, Bool-cases, sort_by,
}
use taskplane.Types.{ParsedTask}
use taskplane.Lanes.Affinity.Groups.{together}
use taskplane.Lanes.Assign.{
  Lane, modify_at, assign_group_to_lane, lightest_from, find_lightest_lane, round_robin,
  fill_lightest, place_groups, is_multi, is_single, heaviest_first, multi_then_single, fill,
}

pub length-modify_at :
    {A : Type 0} (i : ℕ) (f : A → A) (xs : List A) → length (modify_at i f xs) ≡ length xs
length-modify_at i f [] = refl
length-modify_at zero f (x ∷ xs) = refl
length-modify_at (suc i) f (x ∷ xs) = ap suc (length-modify_at i f xs)

lightest_from-lt :
    (lanes : List Lane) (i k w : ℕ) → k < i → lightest_from i lanes k w < i + length lanes
lightest_from-lt [] i k w h = omega arith
lightest_from-lt (l ∷ lanes) i k w h = elim (Bool-cases (ltb l.weight w)) [
  | inl e ↦ rw e (omega (arith, lightest_from-lt lanes (i + 1) i l.weight (omega arith)))
  | inr e ↦ rw e (omega (arith, lightest_from-lt lanes (i + 1) k w (omega arith)))
]

lightest_lt : (lanes : List Lane) → 0 < length lanes → find_lightest_lane lanes < length lanes
lightest_lt [] h = h
lightest_lt (l ∷ lanes) h = omega (arith, lightest_from-lt lanes 1 0 l.weight (omega arith))

mod_lt : (i n : ℕ) → 0 < n → i % n < n
mod_lt i n h = grind arith

module _ (weights : Dict ℕ) (pending : Dict ParsedTask) where
  -- Groups placed one after the other, each in a lane that is there.
  pub data Placed : List (List Text) → List Lane → List Lane → Type 0 where
    none_left : {lanes : List Lane} → Placed [] lanes lanes
    placed :
        {g : List Text} {groups : List (List Text)} {lanes next : List Lane} (index : ℕ)
        → index < length lanes
        → Placed groups (assign_group_to_lane weights pending g index lanes) next
        → Placed (g ∷ groups) lanes next

  length-assign_group_to_lane :
      (g : List Text) (i : ℕ) (lanes : List Lane)
      → length (assign_group_to_lane weights pending g i lanes) ≡ length lanes
  unfolding assign_group_to_lane
  length-assign_group_to_lane g i lanes = length-modify_at i (fill weights pending (i + 1) g) lanes

  pub length-Placed :
      (order : List (List Text)) (lanes next : List Lane)
      → Placed order lanes next
      → length next ≡ length lanes
  length-Placed [] lanes next none_left = refl
  length-Placed (g ∷ order) lanes next (placed index inside rest) =
      length-Placed order (assign_group_to_lane weights pending g index lanes) next rest
      ∙ length-assign_group_to_lane g index lanes

  Placed-round_robin :
      (groups : List (List Text)) (n i : ℕ) (lanes : List Lane)
      → length lanes ≡ n
      → 0 < n
      → Placed groups lanes (round_robin weights pending n i groups lanes)
  unfolding round_robin
  Placed-round_robin [] n i lanes e h = none_left
  Placed-round_robin (g ∷ groups) n i lanes e h =
      placed (i % n) (rw e (mod_lt i n h))
        (Placed-round_robin groups n (i + 1) _ (length-assign_group_to_lane g (i % n) lanes ∙ e) h)

  Placed-fill_lightest :
      (groups : List (List Text)) (lanes : List Lane)
      → 0 < length lanes
      → Placed groups lanes (fill_lightest weights pending groups lanes)
  unfolding fill_lightest
  Placed-fill_lightest [] lanes h = none_left
  Placed-fill_lightest (g ∷ groups) lanes h =
      placed (find_lightest_lane lanes) (lightest_lt lanes h) (
        Placed-fill_lightest groups _
          (omega (arith, length-assign_group_to_lane g (find_lightest_lane lanes) lanes)))

-- The same groups in some order, empty ones aside.
pub record Reordered (order groups : List (List Text)) : Type 0 where
  pub counts : (x : Text) → count x (flatten order) ≡ count x (flatten groups)
  pub shares : (x y : Text) → together x y order ≡ together x y groups

Reordered-refl : (groups : List (List Text)) → Reordered groups groups
Reordered-refl groups = record { counts = λ x. refl; shares = λ x y. refl }

Reordered-sort_by :
    (le : List Text → List Text → Bool) (groups : List (List Text))
    → Reordered (sort_by le groups) groups
Reordered-sort_by le groups = record {
  counts = λ x. count-flatten-sort_by le x groups;
  shares = λ x y. any-sort_by le (λ g. has x g && has y g) groups;
}

flatten-append :
    (x : Text) (ps qs : List (List Text))
    → count x (flatten (ps ++ qs)) ≡ count x (flatten ps) + count x (flatten qs)
unfolding count
flatten-append x [] qs = omega arith
flatten-append x (a ∷ ps) qs = omega (
  arith,
  flatten-append x ps qs,
  count-append x a (flatten (ps ++ qs)),
  count-append x a (flatten ps),
)

together-append :
    (x y : Text) (ps qs : List (List Text))
    → together x y (ps ++ qs) ≡ (together x y ps || together x y qs)
together-append x y [] qs = refl
together-append x y (a ∷ ps) qs = ground (arith, together-append x y ps qs)

-- Groups of several tasks and groups of one; a group without tasks holds nothing.
count-multi_single :
    (x : Text) (groups : List (List Text))
    → count x (flatten (filter is_multi groups)) + count x (flatten (filter is_single groups))
      ≡ count x (flatten groups)
unfolding count
count-multi_single x [] = omega arith
count-multi_single x ([] ∷ groups) = count-multi_single x groups
count-multi_single x ((a ∷ []) ∷ groups) = ground (arith, count-multi_single x groups)
count-multi_single x ((a ∷ b ∷ g) ∷ groups) = ground (
  arith,
  count-multi_single x groups,
  count-append x g (flatten (filter is_multi groups)),
  count-append x g (flatten groups),
)

together-multi_single :
    (x y : Text) (groups : List (List Text))
    → (together x y (filter is_multi groups) || together x y (filter is_single groups))
      ≡ together x y groups
unfolding has
together-multi_single x y [] = refl
together-multi_single x y ([] ∷ groups) = together-multi_single x y groups
together-multi_single x y ((a ∷ []) ∷ groups) = ground (arith, together-multi_single x y groups)
together-multi_single x y ((a ∷ b ∷ g) ∷ groups) = ground (arith, together-multi_single x y groups)

Reordered-multi_single :
    (le le' : List Text → List Text → Bool) (groups : List (List Text))
    → Reordered
        (sort_by le (filter is_multi groups) ++ sort_by le' (filter is_single groups))
        groups
Reordered-multi_single le le' groups =
    let multi = Reordered-sort_by le (filter is_multi groups) in
    let single = Reordered-sort_by le' (filter is_single groups) in
    record {
      counts = λ x. omega (
        arith,
        flatten-append x (sort_by le (filter is_multi groups))
            (sort_by le' (filter is_single groups)),
        multi.counts x,
        single.counts x,
        count-multi_single x groups,
      );
      shares = λ x y. ground (
        arith,
        together-append x y (sort_by le (filter is_multi groups))
            (sort_by le' (filter is_single groups)),
        multi.shares x y,
        single.shares x y,
        together-multi_single x y groups,
      );
    }

-- Every strategy places all groups, in its own order.
pub place_groups-Placed :
    (locale_le : Text → Text → Bool) (strategy : Text) (weights : Dict ℕ)
    (pending : Dict ParsedTask) (n : ℕ) (groups : List (List Text)) (lanes : List Lane)
    → length lanes ≡ n
    → 0 < n
    → (order : List (List Text)) × Placed weights pending order lanes
        (place_groups locale_le strategy weights pending n groups lanes)
      × Reordered order groups
unfolding place_groups
place_groups-Placed locale_le strategy weights pending n groups lanes e h =
    elim (Bool-cases (text_eq strategy (text "round-robin"))) [
      | inl r ↦ (
        groups,
        rw r (Placed-round_robin weights pending groups n 0 lanes e h),
        Reordered-refl groups,
      )
      | inr r ↦ elim (Bool-cases (text_eq strategy (text "load-balanced"))) [
        | inl b ↦ (
          heaviest_first locale_le weights pending groups,
          rw (r, b)
              (Placed-fill_lightest weights pending
                (heaviest_first locale_le weights pending groups) lanes some_lane),
          Reordered-sort_by _ groups,
        )
        | inr b ↦ (
          multi_then_single locale_le weights pending groups,
          rw (r, b)
              (Placed-fill_lightest weights pending
                (multi_then_single locale_le weights pending groups) lanes some_lane),
          Reordered-multi_single _ _ groups,
        )
      ]
    ]
  where
    some_lane : 0 < length lanes
    some_lane = omega arith
