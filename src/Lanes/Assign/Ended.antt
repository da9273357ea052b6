-- ===== src/Lanes/Assign/Ended.antt =====
-- About the lanes when all groups of `assignTasksToLanes` are placed.
use taskplane.Base.{
  ℕ, zero, suc, ◌+◌, ◌<◌, ◌≤◌, ◌≡◌, refl, ◌∙◌, if◌then◌else◌, Bool, true, ◌||◌, List, [], ◌∷◌,
  replicate, length-replicate, length, flatten, All, Text, count, count-append, Dict, arith,
}
use taskplane.Types.{ParsedTask}
use taskplane.Lanes.Affinity.Groups.{together}
use taskplane.Lanes.Assign.{Lane, empty_lane, assign_group_to_lane, is_pending_task, place_groups}
use taskplane.Lanes.Assign.Steps.{Placed, none_left, placed, length-Placed, place_groups-Placed}
use taskplane.Lanes.Assign.Shares.{ids_of, all_tasks}
use taskplane.Lanes.Assign.Lanes.{Numbered, Alike, Shared, Shared-assign}

-- What step 4 leaves, for groups that are disjoint.
pub record Assigned (pending : Dict ParsedTask) (lane_count : ℕ) (groups : List (List Text))
    (lanes : List Lane) : Type 0 where
  pub counted :
      (x : Text)
      → count x (ids_of (all_tasks lanes))
        ≡ (if is_pending_task pending x then count x (flatten groups) else 0)
  pub alike :
      (x y : Text)
      → is_pending_task pending x ≡ true
      → is_pending_task pending y ≡ true
      → together x y groups ≡ true
      → All (Alike x y) lanes
  pub length_is : length lanes ≡ lane_count
  pub numbered : Numbered 1 lanes

module _ (weights : Dict ℕ) (pending : Dict ParsedTask) where
  -- The invariant at the end of the loop.
  record Ended (done order : List (List Text)) (next : List Lane) : Type 0 where
    all_done : List (List Text)
    shared : Shared weights pending all_done next
    counts :
        (x : Text) → count x (flatten all_done) ≡ count x (flatten done) + count x (flatten order)
    shares : (x y : Text) → together x y all_done ≡ (together x y done || together x y order)

  Ended-Placed :
      (done order : List (List Text)) (lanes next : List Lane)
      → Placed weights pending order lanes next
      → Shared weights pending done lanes
      → ((x : Text) → count x (flatten done) + count x (flatten order) ≤ 1)
      → Ended done order next
  unfolding count
  Ended-Placed done [] lanes next none_left s distinct = record {
    all_done = done;
    shared = s;
    counts = λ x. omega arith;
    shares = λ x y. ground arith;
  }
  Ended-Placed done (g ∷ order) lanes next (placed index inside rest) s distinct =
      let e =
        Ended-Placed (g ∷ done) order (assign_group_to_lane weights pending g index lanes) next rest
          (Shared-assign weights pending done g index lanes s inside
            (λ x. omega (arith, distinct x, count-append x g (flatten order))))
          (λ x. omega (
            arith,
            distinct x,
            count-append x g (flatten order),
            count-append x g (flatten done),
          )) in
      record {
        all_done = e.all_done;
        shared = e.shared;
        counts = λ x.
            omega (
              arith,
              e.counts x,
              count-append x g (flatten order),
              count-append x g (flatten done),
            );
        shares = λ x y. ground (arith, e.shares x y);
      }

  Numbered-empty : (i n : ℕ) → Numbered i (replicate n empty_lane)
  Numbered-empty i zero = tt
  Numbered-empty i (suc n) = (tt, Numbered-empty (i + 1) n)

  count-empty_lanes : (x : Text) (n : ℕ) → count x (ids_of (all_tasks (replicate n empty_lane))) ≡ 0
  unfolding count
  count-empty_lanes x zero = refl
  count-empty_lanes x (suc n) = count-empty_lanes x n

  Shared-start : (n : ℕ) → Shared weights pending [] (replicate n empty_lane)
  unfolding count
  Shared-start n = record {
    counted = λ x. ground (arith, count-empty_lanes x n);
    alike = λ x y px py h. cc;
    numbered = Numbered-empty 1 n;
  }

  pub Assigned-place_groups :
      (locale_le : Text → Text → Bool) (strategy : Text) (n : ℕ) (groups : List (List Text))
      → 0 < n
      → ((x : Text) → count x (flatten groups) ≤ 1)
      → Assigned pending n groups
          (place_groups locale_le strategy weights pending n groups (replicate n empty_lane))
  unfolding count
  Assigned-place_groups locale_le strategy n groups h distinct =
      let lanes = replicate n empty_lane in
      let (order, steps, same) =
        place_groups-Placed locale_le strategy weights pending n groups lanes
          (length-replicate n empty_lane) h in
      let e =
        Ended-Placed [] order lanes _ steps (Shared-start n)
          (λ x. omega (arith, distinct x, same.counts x)) in
      record {
        counted = λ x. ground (arith, e.shared.counted x, e.counts x, same.counts x);
        alike =
            λ x y px py t. e.shared.alike x y px py (ground (arith, e.shares x y, same.shares x y));
        length_is =
            length-Placed weights pending order lanes _ steps ∙ length-replicate n empty_lane;
        numbered = e.shared.numbered;
      }
