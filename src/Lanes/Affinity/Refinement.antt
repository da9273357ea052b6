-- ===== src/Lanes/Affinity/Refinement.antt =====
-- About `applyFileScopeAffinity` of waves.ts as a whole.
use taskplane.Base.{
  ◌≡◌, refl, ◌∙◌, ◌↔◌, Bool, true, List, [], ◌∷◌, some, Text, has, count, Dict, flatten,
}
use taskplane.Types.{ParsedTask}
use taskplane.Lanes.Forest.{Forest, singletons, union_all}
use taskplane.Lanes.Forest.Classes.{Linked}
use taskplane.Lanes.Forest.Unions.{union_all_ok, Rep-singletons}
use taskplane.Lanes.Affinity.{
  overlapping_pairs, group_by_root, affinity_groups, first_or_empty, apply_file_scope_affinity,
}
use taskplane.Lanes.Affinity.Groups.{
  grouped, group_by_root-grouped, together, ordered_groups, count-ordered_groups,
  together-ordered_groups,
}
use taskplane.Lanes.Affinity.Components.{
  Keyed, Overlapping, Pair-overlapping_pairs, overlapping_pairs-joins, linked_joins,
}

-- A function that tells the classes of linked tasks apart.
record Classes (pending : Dict ParsedTask) (wave : List Text) : Type 0 where
  rep : Text → Text
  groups : affinity_groups pending wave ≡ some (grouped rep wave [])
  exact : (x y : Text) → (rep x ≡ rep y) ↔ Linked (Overlapping pending wave) x y

affinity_groups-union_all :
    (pending : Dict ParsedTask) (wave : List Text) (f : Forest)
    → union_all
        (overlapping_pairs pending wave)
        (singletons wave (record { parent = []; rank = [] }))
      ≡ some f
    → affinity_groups pending wave ≡ group_by_root f wave []
unfolding affinity_groups
affinity_groups-union_all pending wave f e = rw e refl

affinity_groups-Classes :
    (pending : Dict ParsedTask) (wave : List Text) → Keyed pending → Classes pending wave
affinity_groups-Classes pending wave keyed =
    let (f, runs, joined) =
      union_all_ok (Overlapping pending wave) wave (overlapping_pairs pending wave) (λ x. x)
        (singletons wave (record { parent = []; rank = [] })) (Rep-singletons wave) apart
        (Pair-overlapping_pairs pending keyed wave wave (λ x h. h)) in
    let rep = joined.next in
    record {
      rep = rep;
      groups =
          affinity_groups-union_all pending wave f runs
          ∙ group_by_root-grouped rep wave f wave [] joined.kept (λ x h. h);
      exact = λ x y. (
        joined.sound x y,
        linked_joins pending keyed wave rep
            (λ a b r.
              overlapping_pairs-joins pending keyed wave rep r.first r.second a b wave joined.joins
                r.first_in r.second_in r.first_is r.second_is r.overlap)
            x y,
      );
    }
  where
    apart : (x y : Text) → x ≡ y → Linked (Overlapping pending wave) x y
    apart x y e = rw e Linked.same

by_first : (Text → Text → Bool) → List Text → List Text → Bool
by_first locale_le a b = locale_le (first_or_empty a) (first_or_empty b)

apply_file_scope_affinity-groups :
    (locale_le : Text → Text → Bool) (id : Text) (ids : List Text) (pending : Dict ParsedTask)
    (rep : Text → Text)
    → affinity_groups pending (id ∷ ids) ≡ some (grouped rep (id ∷ ids) [])
    → apply_file_scope_affinity locale_le (id ∷ ids) pending
      ≡ some (ordered_groups (by_first locale_le) rep (id ∷ ids))
unfolding apply_file_scope_affinity by_first
apply_file_scope_affinity-groups locale_le id ids pending rep e =
    rw (e, apply_file_scope_affinity) refl

-- Where each pending task is kept under its own id, the affinity groups are found for every wave, and
-- are the connected components of the overlaps: every task of the wave stands in the groups as often
-- as in the wave, and two of them share a group exactly when a chain of pending tasks of the wave
-- with overlapping file scopes links them.
pub affinity_components :
    (locale_le : Text → Text → Bool) (wave : List Text) (pending : Dict ParsedTask)
    → Keyed pending
    → (groups : List (List Text)) × (apply_file_scope_affinity locale_le wave pending ≡ some groups)
      × ((x : Text) → count x (flatten groups) ≡ count x wave)
      × ((x y : Text)
          → has x wave ≡ true
          → has y wave ≡ true
          → (together x y groups ≡ true) ↔ Linked (Overlapping pending wave) x y)
unfolding apply_file_scope_affinity has
affinity_components locale_le [] pending keyed = ([], refl, λ x. refl, λ x y hx hy. cc)
affinity_components locale_le (id ∷ ids) pending keyed =
    let c = affinity_groups-Classes pending (id ∷ ids) keyed in
    let le = by_first locale_le in
    (
      ordered_groups le c.rep (id ∷ ids),
      apply_file_scope_affinity-groups locale_le id ids pending c.rep c.groups,
      λ x. count-ordered_groups le c.rep x (id ∷ ids),
      λ x y hx hy.
          let roots = together-ordered_groups le c.rep x (id ∷ ids) y hx hy in
          (λ t. (c.exact x y).0 (roots.0 t), λ l. roots.1 ((c.exact x y).1 l)),
    )
