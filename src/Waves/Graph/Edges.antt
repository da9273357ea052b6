-- ===== src/Waves/Graph/Edges.antt =====
-- About the two adjacency maps of a graph that `buildDependencyGraph` makes.
use taskplane.Base.{
  ◌≡◌, refl, if◌then◌else◌, true, false, ◌||◌, List, [], ◌∷◌, ◌++◌, foldl, Text, text_eq,
  text_eq_iff, has, count, has-add, Distinct-add, has-append, count-append, Dict, get, get_or,
  get_or-set, keys, Distinct, arith, ◌⊎◌, inl, inr, Bool-cases,
}
use taskplane.Types.{ParsedTask, DependencyGraph}
use taskplane.Waves.References.{dependency_id}
use taskplane.Waves.Graph.{
  init_node, see, link, add_edge, link_task, link_tasks, init_graph, empty_graph,
  build_dependency_graph,
}

-- As in `Compute.Order`, of a graph that is being built.
pub record Built (ids : List Text) (g : DependencyGraph) : Type 0 where
  pub same_nodes : (x : Text) → has x g.nodes ≡ has x ids
  pub distinct : Distinct g.nodes
  pub mirrored :
      (a b : Text) → count a (get_or g.dependents b []) ≡ count b (get_or g.dependencies a [])
  pub closed : (a b : Text) → has b (get_or g.dependencies a []) ≡ true → has b ids ≡ true

module _ (g : DependencyGraph) (t d : Text) where
  dependencies-add_edge :
      (a : Text)
      → get_or (add_edge g t d).dependencies a []
        ≡ (if text_eq t a then get_or g.dependencies t [] ++ d ∷ [] else get_or g.dependencies a [])
  unfolding add_edge
  dependencies-add_edge a = get_or-set a t (get_or g.dependencies t [] ++ d ∷ []) [] g.dependencies

  dependents-add_edge :
      (b : Text)
      → get_or (add_edge g t d).dependents b []
        ≡ (if text_eq d b then get_or g.dependents d [] ++ t ∷ [] else get_or g.dependents b [])
  unfolding add_edge
  dependents-add_edge b = get_or-set b d (get_or g.dependents d [] ++ t ∷ []) [] g.dependents

  mirrored-add_edge :
      (a b : Text)
      → count a (get_or g.dependents b []) ≡ count b (get_or g.dependencies a [])
      → count a (get_or (add_edge g t d).dependents b [])
        ≡ count b (get_or (add_edge g t d).dependencies a [])
  unfolding count
  mirrored-add_edge a b h = ground (
    arith,
    dependencies-add_edge a,
    dependents-add_edge b,
    text_eq_iff t a,
    text_eq_iff a t,
    text_eq_iff d b,
    text_eq_iff b d,
    count-append a (get_or g.dependents d []) (t ∷ []),
    count-append b (get_or g.dependencies t []) (d ∷ []),
  )

  pub has-add_edge :
      (a b : Text)
      → has b (get_or (add_edge g t d).dependencies a [])
        ≡ (has b (get_or g.dependencies a []) || (if text_eq t a then text_eq b d else false))
  unfolding has
  has-add_edge a b = ground (
    arith,
    dependencies-add_edge a,
    text_eq_iff t a,
    has-append b (get_or g.dependencies t []) (d ∷ []),
  )

  Built-add_edge : (ids : List Text) → Built ids g → has d ids ≡ true → Built ids (add_edge g t d)
  unfolding add_edge
  Built-add_edge ids h known = record {
    same_nodes = h.same_nodes;
    distinct = h.distinct;
    mirrored = λ a b. mirrored-add_edge a b (h.mirrored a b);
    closed = λ a b e. ground (arith, has-add_edge a b, h.closed a b, text_eq_iff b d);
  }

module _ (ids : List Text) where
  Built-link_task :
      (t : Text) (seen raws : List Text) (g : DependencyGraph)
      → Built ids g
      → Built ids (link_task ids t seen raws g)
  unfolding link_task
  Built-link_task t seen [] g h = h
  Built-link_task t seen (raw ∷ raws) g h =
      Built-link_task t (see seen d) raws (link ids t seen d g)
        (next (Bool-cases (has d seen)) (Bool-cases (has d ids)))
    where
      d : Text
      d = dependency_id raw

      next :
          ((has d seen ≡ true) ⊎ (has d seen ≡ false))
          → ((has d ids ≡ true) ⊎ (has d ids ≡ false))
          → Built ids (link ids t seen d g)
      next (inl s) k = rw s h
      next (inr s) (inl k) = rw (s, k) (Built-add_edge g t d ids h k)
      next (inr s) (inr k) = rw (s, k) h

  Built-link_tasks :
      (tasks : Dict ParsedTask) (g : DependencyGraph)
      → Built ids g
      → Built ids (link_tasks ids tasks g)
  unfolding link_tasks
  Built-link_tasks [] g h = h
  Built-link_tasks ((t, task) ∷ rest) g h =
      Built-link_tasks rest _ (Built-link_task t [] task.dependencies g h)

-- A graph with nodes and no edges.
record Bare (g : DependencyGraph) : Type 0 where
  distinct : Distinct g.nodes
  no_dependencies : (a : Text) → get_or g.dependencies a [] ≡ []
  no_dependents : (a : Text) → get_or g.dependents a [] ≡ []

Bare-init_node : (g : DependencyGraph) (x : Text) → Bare g → Bare (init_node g x)
unfolding init_node
Bare-init_node g x h = record {
  distinct = Distinct-add x g.nodes h.distinct;
  no_dependencies = λ a. ground (arith, get_or-set a x [] [] g.dependencies, h.no_dependencies a);
  no_dependents = λ a. ground (arith, get_or-set a x [] [] g.dependents, h.no_dependents a);
}

Bare-foldl : (ids : List Text) (g : DependencyGraph) → Bare g → Bare (foldl init_node g ids)
Bare-foldl [] g h = h
Bare-foldl (x ∷ ids) g h = Bare-foldl ids (init_node g x) (Bare-init_node g x h)

has-foldl :
    (y : Text) (ids : List Text) (g : DependencyGraph)
    → has y (foldl init_node g ids).nodes ≡ (has y g.nodes || has y ids)
unfolding init_node has
has-foldl y [] g = ground arith
has-foldl y (x ∷ ids) g = ground (arith, has-foldl y ids (init_node g x), has-add y x g.nodes)

Built-init_graph : (ids : List Text) → Built ids (init_graph ids)
unfolding init_graph has count get
Built-init_graph ids =
    let bare = Bare-foldl ids empty_graph (record {
      distinct = λ x. omega arith;
      no_dependencies = λ a. refl;
      no_dependents = λ a. refl;
    }) in
    record {
      same_nodes = λ x. has-foldl x ids empty_graph;
      distinct = bare.distinct;
      mirrored = λ a b. ground (arith, bare.no_dependents b, bare.no_dependencies a);
      closed = λ a b e. ground (arith, bare.no_dependencies a);
    }

pub build-Built :
    (pending : Dict ParsedTask) (completed : List Text)
    → Built (keys pending) (build_dependency_graph pending completed)
unfolding build_dependency_graph
build-Built pending completed =
    Built-link_tasks (keys pending) pending _ (Built-init_graph (keys pending))
