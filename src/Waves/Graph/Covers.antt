-- ===== src/Waves/Graph/Covers.antt =====
-- About the references of pending tasks, as edges of the built graph.
use taskplane.Base.{
  ◌≡◌, true, false, ◌||◌, List, [], ◌∷◌, map, some, Text, text_eq, text_eq_iff, text_eq_refl, has,
  has-add, Dict, get, get_or, keys, arith, ◌⊎◌, inl, inr, Bool-cases,
}
use taskplane.Types.{ParsedTask, DependencyGraph}
use taskplane.Waves.References.{dependency_id}
use taskplane.Waves.Graph.{
  see, link, add_edge, link_task, link_tasks, init_graph, build_dependency_graph,
}
use taskplane.Waves.Graph.Edges.{has-add_edge}

abbrev HasEdge : DependencyGraph → Text → Text → Type 0
HasEdge g a b = has b (get_or g.dependencies a []) ≡ true

HasEdge-add_edge :
    (g : DependencyGraph) (t d a b : Text) → HasEdge g a b → HasEdge (add_edge g t d) a b
HasEdge-add_edge g t d a b h = ground (arith, has-add_edge g t d a b)

HasEdge-add_edge_self : (g : DependencyGraph) (t d : Text) → HasEdge (add_edge g t d) t d
HasEdge-add_edge_self g t d = ground (arith, has-add_edge g t d t d, text_eq_refl t, text_eq_refl d)

same_task : {a b : ParsedTask} → some a ≡ some b → a ≡ b
same_task h = cc

module _ (ids : List Text) where
  HasEdge-link :
      (t d a b : Text) (seen : List Text) (g : DependencyGraph)
      → HasEdge g a b
      → HasEdge (link ids t seen d g) a b
  HasEdge-link t d a b seen g h = elim (Bool-cases (has d seen)) [
    | inl s ↦ rw s h
    | inr s ↦ elim (Bool-cases (has d ids)) [
      | inl k ↦ rw (s, k) (HasEdge-add_edge g t d a b h)
      | inr k ↦ rw (s, k) h
    ]
  ]

  HasEdge-link_task :
      (t a b : Text) (seen raws : List Text) (g : DependencyGraph)
      → HasEdge g a b
      → HasEdge (link_task ids t seen raws g) a b
  unfolding link_task
  HasEdge-link_task t a b seen [] g h = h
  HasEdge-link_task t a b seen (raw ∷ raws) g h =
      HasEdge-link_task t a b (see seen d) raws (link ids t seen d g)
        (HasEdge-link t d a b seen g h)
    where
      d : Text
      d = dependency_id raw

  HasEdge-link_tasks :
      (tasks : Dict ParsedTask) (a b : Text) (g : DependencyGraph)
      → HasEdge g a b
      → HasEdge (link_tasks ids tasks g) a b
  unfolding link_tasks
  HasEdge-link_tasks [] a b g h = h
  HasEdge-link_tasks ((t, task) ∷ rest) a b g h =
      HasEdge-link_tasks rest a b _ (HasEdge-link_task t a b [] task.dependencies g h)

  -- What the loop over a task's references has seen is linked, and at its end it has seen all.
  link_task-covers :
      (t b : Text) (seen raws : List Text) (g : DependencyGraph)
      → ((d : Text) → has d seen ≡ true → has d ids ≡ true → HasEdge g t d)
      → (has b seen || has b (map dependency_id raws)) ≡ true
      → has b ids ≡ true
      → HasEdge (link_task ids t seen raws g) t b
  unfolding link_task has
  link_task-covers t b seen [] g linked h known = linked b (ground arith) known
  link_task-covers t b seen (raw ∷ raws) g linked h known =
      link_task-covers t b (see seen d) raws (link ids t seen d g) still
        (more (Bool-cases (has d seen))) known
    where
      d : Text
      d = dependency_id raw

      more :
          ((has d seen ≡ true) ⊎ (has d seen ≡ false))
          → (has b (see seen d) || has b (map dependency_id raws)) ≡ true
      more (inl s) = rw s (ground (arith, text_eq_iff b d))
      more (inr s) = rw s (ground (arith, has-add b d seen))

      still :
          (e : Text)
          → has e (see seen d) ≡ true
          → has e ids ≡ true
          → HasEdge (link ids t seen d g) t e
      still e he ke = elim (Bool-cases (has d seen)) [
        | inl s ↦ rw s (linked e (rw s at he) ke)
        | inr s ↦ elim (Bool-cases (text_eq e d)) [
          | inl same ↦
              let eq = (text_eq_iff e d).0 same in
              rw (s, rw eq at ke) (rw eq (HasEdge-add_edge_self g t d))
          | inr other ↦ HasEdge-link t d t e seen g (linked e (ground (arith, has-add e d seen)) ke)
        ]
      ]

  link_tasks-covers :
      (tasks : Dict ParsedTask) (t b : Text) (task : ParsedTask) (g : DependencyGraph)
      → get t tasks ≡ some task
      → has b (map dependency_id task.dependencies) ≡ true
      → has b ids ≡ true
      → HasEdge (link_tasks ids tasks g) t b
  unfolding link_tasks get has
  link_tasks-covers [] t b task g e h known = cc
  link_tasks-covers ((u, first) ∷ rest) t b task g e h known = elim (Bool-cases (text_eq u t)) [
    | inl same ↦
        let first_is : first ≡ task = same_task (rw same at e) in
        HasEdge-link_tasks rest t b (link_task ids u [] first.dependencies g) (
          rw ((text_eq_iff u t).0 same) (
            link_task-covers t b [] first.dependencies g (λ d hd _. absurd (cc hd))
              (rw (← first_is) at h) known))
    | inr other ↦ link_tasks-covers rest t b task _ (rw other at e) h known
  ]

-- A pending task that a pending task refers to is among its dependencies.
pub build-covers :
    (pending : Dict ParsedTask) (completed : List Text) (t b : Text) (task : ParsedTask)
    → get t pending ≡ some task
    → has b (map dependency_id task.dependencies) ≡ true
    → has b (keys pending) ≡ true
    → HasEdge (build_dependency_graph pending completed) t b
unfolding build_dependency_graph
build-covers pending completed t b task e h known =
    link_tasks-covers (keys pending) pending t b task (init_graph (keys pending)) e h known
