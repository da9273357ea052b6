-- ===== src/Resume/Pin.antt =====
-- `pinHeldSegments` of extensions/taskplane/resume.ts: a held unit is the one to run again.
pub mod Held
mod Tests
use taskplane.Base.{
  ℕ, if◌then◌else◌, Bool, true, false, not, List, [], ◌∷◌, ◌++◌, find, Option, none, some, Text,
  text_eq,
}
use taskplane.Batch.{Status, running, succeeded, held, SegmentRecord, TaskRecord, BatchState}
use taskplane.Holds.Records.{HoldRecord}
use taskplane.Holds.Authority.{is_hold_unresolved}

-- An empty `segmentId` is as none.
abbrev pub named : Option Text → Option Text
named none = none
named (some []) = none
named (some (c ∷ s)) = some (c ∷ s)

abbrev pub find_task : Text → List TaskRecord → Option TaskRecord
find_task id tasks = find (λ (t : TaskRecord). text_eq t.task_id id) tasks

abbrev pub find_segment : Text → List SegmentRecord → Option SegmentRecord
find_segment id segments = find (λ (s : SegmentRecord). text_eq s.segment_id id) segments

-- What is written to the task and to the segment that `find` returned.
unfoldable pub hold_task : Text → Option Text → List TaskRecord → List TaskRecord
hold_task id active [] = []
hold_task id active (t ∷ ts) =
    let rest = hold_task id active ts in
    if text_eq t.task_id id
    then record t {
      status = held;
      active_segment_id = elim active [ none ↦ t.active_segment_id | some a ↦ some a ];
    }
      ∷ ts
    else t ∷ rest

abbrev pub held_status : Status → Status
held_status running = running
held_status _ = held

unfoldable pub hold_segment : Text → List SegmentRecord → List SegmentRecord
hold_segment id [] = []
hold_segment id (s ∷ ss) =
    let rest = hold_segment id ss in
    if text_eq s.segment_id id then record s { status = held_status s.status } ∷ ss else s ∷ rest

abbrev pub is_done : Option SegmentRecord → Bool
is_done none = false
is_done (some s) = elim s.status [ succeeded ↦ true | _ ↦ false ]

abbrev is_active : TaskRecord → Text → Bool
is_active task id = elim task.active_segment_id [ none ↦ false | some a ↦ text_eq a id ]

-- A hold of one segment.
pub pin_segment : BatchState → TaskRecord → Text → BatchState × List Text
unfolding hold_task hold_segment
pin_segment state task id = if is_done (find_segment id state.segments) then (state, []) else (
  record state {
    tasks = hold_task task.task_id (some id) state.tasks;
    segments = hold_segment id state.segments;
  },
  if is_active task id then [] else (task.task_id ++ 0x2192 ∷ id) ∷ [],
)

pub pin_unit : BatchState → TaskRecord → Option Text → BatchState × List Text
unfolding pin_segment
pin_unit state task none = (record state { tasks = hold_task task.task_id none state.tasks }, [])
pin_unit state task (some id) = pin_segment state task id

pub pin_found : BatchState → Option Text → Option TaskRecord → BatchState × List Text
unfolding pin_unit
pin_found state segment_id none = (state, [])
pin_found state segment_id (some task) = pin_unit state task segment_id

-- The body of the loop over the holds.
unfoldable pub pin_hold : BatchState → HoldRecord → BatchState × List Text
unfolding pin_found is_hold_unresolved
pin_hold state hold =
    if not (is_hold_unresolved hold)
    then (state, [])
    else pin_found state (named hold.segment_id) (find_task hold.task_id state.tasks)

pub pin_holds : BatchState → List HoldRecord → BatchState × List Text
unfolding pin_hold
pin_holds state [] = (state, [])
pin_holds state (hold ∷ holds) =
    let one = pin_hold state hold in let rest = pin_holds one.0 holds in (rest.0, one.1 ++ rest.1)

unfoldable pub pin_held_segments : BatchState → BatchState × List Text
unfolding pin_holds
pin_held_segments state = pin_holds state state.holds
