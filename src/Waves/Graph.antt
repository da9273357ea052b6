-- ===== src/Waves/Graph.antt =====
-- `buildDependencyGraph` of waves.ts.
pub mod Edges
pub mod Covers
use taskplane.Base.{
  ℕ, zero, suc, if◌then◌else◌, Bool, true, false, ◌&&◌, ◌||◌, not, List, [], ◌∷◌, ◌++◌, Option,
  none, some, Text, text, text_eq, has, add, Dict, get, set, get_or, keys, map, sort, is_empty,
  length, foldl,
}
use taskplane.Base.Chars.{join}
use taskplane.Types.{ParsedTask, DependencyGraph, DiscoveryError, dep_unresolved}
use taskplane.Waves.References.{dependency_id}

-- The first loop: every pending task is a node with empty adjacency lists.
init_node : DependencyGraph → Text → DependencyGraph
init_node g task_id = record g {
  nodes = add task_id g.nodes;
  dependencies = set task_id [] g.dependencies;
  dependents = set task_id [] g.dependents;
}

-- `dependencies.get(taskId)!.push(depId); dependents.get(depId)!.push(taskId)`. Both keys are nodes.
pub add_edge : DependencyGraph → Text → Text → DependencyGraph
add_edge g task_id dep_id = record g {
  dependencies = set task_id (get_or g.dependencies task_id [] ++ dep_id ∷ []) g.dependencies;
  dependents = set dep_id (get_or g.dependents dep_id [] ++ task_id ∷ []) g.dependents;
}

abbrev pub see : List Text → Text → List Text
see edge_set dep_id = if has dep_id edge_set then edge_set else add dep_id edge_set

-- What one reference adds: a target is considered once, and only a pending one becomes an edge.
abbrev pub link : List Text → Text → List Text → Text → DependencyGraph → DependencyGraph
link pending_ids task_id edge_set dep_id g =
    if has dep_id edge_set
    then g
    else (if has dep_id pending_ids then add_edge g task_id dep_id else g)

-- The loop over one task's references.
link_task : List Text → Text → List Text → List Text → DependencyGraph → DependencyGraph
unfolding add_edge
link_task pending_ids task_id edge_set [] g = g
link_task pending_ids task_id edge_set (dep_raw ∷ deps) g =
    let dep_id = dependency_id dep_raw in
    link_task pending_ids task_id (see edge_set dep_id) deps
      (link pending_ids task_id edge_set dep_id g)

link_tasks : List Text → Dict ParsedTask → DependencyGraph → DependencyGraph
unfolding link_task
link_tasks pending_ids [] g = g
link_tasks pending_ids ((task_id, task) ∷ rest) g =
    link_tasks pending_ids rest (link_task pending_ids task_id [] task.dependencies g)

abbrev pub empty_graph : DependencyGraph
empty_graph = record { dependencies = []; dependents = []; nodes = [] }

init_graph : List Text → DependencyGraph
unfolding init_node
init_graph ids = foldl init_node empty_graph ids

-- `completed` is not read: an edge to a completed task is never made.
unfoldable pub build_dependency_graph : Dict ParsedTask → List Text → DependencyGraph
unfolding init_graph link_tasks
build_dependency_graph pending completed =
    link_tasks (keys pending) pending (init_graph (keys pending))
