-- ===== src/Types.antt =====
-- extensions/taskplane/types.ts: the records that several parts share.
use taskplane.Base.{ℕ, Text, Dict, List, Option}

pub record PromptSegmentDagEdge : Type 0 where
  pub from_repo_id : Text
  pub to_repo_id : Text

pub record PromptSegmentDagMetadata : Type 0 where
  pub repo_ids : List Text
  pub edges : List PromptSegmentDagEdge

-- The fields of `ParsedTask` that planning reads.
pub record ParsedTask : Type 0 where
  pub task_id : Text
  pub size : Text
  pub dependencies : List Text
  pub file_scope : List Text
  pub prompt_path : Text
  pub resolved_repo_id : Option Text
  pub explicit_segment_dag : Option PromptSegmentDagMetadata

pub record DependencyGraph : Type 0 where
  pub dependencies : Dict (List Text)
  pub dependents : Dict (List Text)
  pub nodes : List Text

-- The code that the planner reports.
pub data ErrorCode : Type 0 where
  dep_unresolved : ErrorCode

pub record DiscoveryError : Type 0 where
  pub code : ErrorCode
  pub message : Text
  pub task_path : Option Text
  pub task_id : Option Text

pub record LaneAssignment : Type 0 where
  pub task_id : Text
  pub lane : ℕ
  pub task : ParsedTask

pub data AllocationErrorCode : Type 0 where
  alloc_invalid_config : AllocationErrorCode
  alloc_empty_wave : AllocationErrorCode
  alloc_worktree_failed : AllocationErrorCode
  alloc_task_not_found : AllocationErrorCode
