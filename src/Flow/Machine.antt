-- ===== src/Flow/Machine.antt =====
-- machine.go: Run, and the Machine with its operations. `none` is a nil pointer, and the zero time.
use restore_safe.Base.{
  Bool, Bytes, List, Option, [], false, if◌then◌else◌, length, ltb, none, not, some, text_eq, true,
  ℕ, ◌++◌, ◌==◌, ◌||◌, ◌∷◌,
}
use restore_safe.Flow.Speed.{Sample, add}

pub data Op : Type 0 where
  backup restore verify : Op

pub data Stage : Type 0 where
  idle planning running cancelling finished : Stage

pub data Phase : Type 0 where
  no_phase unlocking backing_up verifying cleaning_up restoring : Phase

unfoldable pub phase_number : Phase → ℕ
phase_number no_phase = 0
phase_number unlocking = 1
phase_number backing_up = 2
phase_number verifying = 3
phase_number cleaning_up = 4
phase_number restoring = 5

pub record Progress : Type 0 where
  pub step : Bytes
  pub item : Bytes
  pub done : ℕ
  pub total : ℕ
  pub written : ℕ
  pub phase : Phase
  pub index : ℕ
  pub count : ℕ

abbrev pub no_progress : Progress
no_progress = record {
  step = [];
  item = [];
  done = 0;
  total = 0;
  written = 0;
  phase = no_phase;
  index = 0;
  count = 0;
}

pub record FolderDone : Type 0 where
  pub name : Bytes
  pub bytes : ℕ

-- What the machine holds for the window and never looks into.
pub record Payloads : Type 1 where
  pub BackupPlan : Type 0
  pub VerifyPlan : Type 0
  pub RestorePlan : Type 0
  pub Result : Type 0
  pub Failure : Type 0
  pub Facts : Type 0

pub record Run (K : Payloads) : Type 0 where
  pub op : Op
  pub stage : Stage
  pub started : Option ℕ
  pub plan : Option (K.BackupPlan)
  pub verify_plan : Option (K.VerifyPlan)
  pub restore_plan : Option (K.RestorePlan)
  pub progress : Progress
  pub speed : List Sample
  pub folders : List FolderDone
  pub close_when_done : Bool
  pub result : Option (K.Result)
  pub failure : Option (K.Failure)
  pub facts : Option (K.Facts)
  pub log_path : Bytes
  pub ended : Option ℕ
  pub cancelled : Bool

-- End
pub record End (K : Payloads) : Type 0 where
  pub result : Option (K.Result)
  pub failure : Option (K.Failure)
  pub facts : K.Facts
  pub log_path : Bytes

pub data CancelAction : Type 0 where
  cancel_ignore cancel_now cancel_ask : CancelAction

pub data CloseAction : Type 0 where
  close_now close_ask close_after_cancel : CloseAction

-- `r.Stage == StageRunning` and the like.
unfoldable pub stage_number : Stage → ℕ
stage_number idle = 0
stage_number planning = 1
stage_number running = 2
stage_number cancelling = 3
stage_number finished = 4

unfoldable pub busy_stage : Stage → Bool
unfolding stage_number
busy_stage s =
    stage_number s == stage_number planning
    || stage_number s == stage_number running
    || stage_number s == stage_number cancelling

unfoldable pub is_folder_phase : Phase → Bool
is_folder_phase backing_up = true
is_folder_phase restoring = true
is_folder_phase no_phase = false
is_folder_phase unlocking = false
is_folder_phase verifying = false
is_folder_phase cleaning_up = false

-- The size that finishStep records.
unfoldable pub step_bytes : Progress → ℕ
step_bytes p = if ltb 0 p.written then p.written else if ltb 0 p.total then p.total else p.done

-- What finishStep appends.
unfoldable pub finished_folder : Progress → List FolderDone
unfolding is_folder_phase step_bytes
finished_folder p =
    if not (is_folder_phase p.phase) || length p.item == 0
    then []
    else record { name = p.item; bytes = step_bytes p } ∷ []

-- Whether a report is of another step than the last one.
unfoldable pub other_step : Progress → Progress → Bool
unfolding phase_number
other_step p q =
    not (phase_number p.phase == phase_number q.phase)
    || not (p.index == q.index)
    || not (text_eq p.item q.item)

module _ {K : Payloads} where
  -- finishStep
  unfoldable pub finish_step : Run K → Run K
  finish_step r = record r { folders = r.folders ++ finished_folder r.progress }

  -- What each operation does to the run that there is.
  unfoldable pub run_confirmed : ℕ → Run K → Run K
  unfolding stage_number
  run_confirmed now r =
      if stage_number r.stage == stage_number planning
      then record r { stage = running; started = some now }
      else r

  unfoldable pub run_replan : Run K → Run K
  unfolding stage_number
  run_replan r =
      if stage_number r.stage == stage_number running
      then record r { stage = planning; started = none; progress = no_progress; speed = [] }
      else r

  unfoldable pub run_progressed : Progress → ℕ → Run K → Run K
  unfolding stage_number finish_step
  run_progressed p now r =
      let stepped = if other_step p r.progress then record (finish_step r) { speed = [] } else r in
      if stage_number r.stage == stage_number running
      then record stepped { progress = p; speed = add stepped.speed now p.done }
      else r

  unfoldable pub run_cancelling : Run K → Run K
  unfolding busy_stage stage_number
  run_cancelling r =
      if stage_number r.stage == stage_number planning
        || stage_number r.stage == stage_number running
      then record r { stage = cancelling; cancelled = true }
      else r

  -- The first step of Done: the last folder counts where the worker reported a result.
  unfoldable pub settle : Option K.Failure → Option K.Result → Run K → Run K
  unfolding finish_step
  settle none (some _) r = finish_step r
  settle none none r = r
  settle (some _) _ r = r

  unfoldable pub run_done : End K → ℕ → Run K → Run K
  unfolding settle
  run_done end now r = record (settle end.failure end.result r) {
    result = end.result;
    failure = end.failure;
    facts = some end.facts;
    log_path = end.log_path;
    ended = some now;
    stage = finished;
  }

abbrev pub Machine : Payloads → Type 0
Machine K = Option (Run K)

module _ {K : Payloads} where
  -- Stage
  unfoldable pub stage_of : Machine K → Stage
  stage_of none = idle
  stage_of (some r) = r.stage

  -- Busy
  unfoldable pub busy : Machine K → Bool
  unfolding stage_of busy_stage
  busy m = busy_stage (stage_of m)

  -- Start
  unfoldable pub start : Machine K → Op → Machine K × Bool
  unfolding busy
  start m op = if busy m then (m, false) else (
    some (record {
      op = op;
      stage = planning;
      started = none;
      plan = none;
      verify_plan = none;
      restore_plan = none;
      progress = no_progress;
      speed = [];
      folders = [];
      close_when_done = false;
      result = none;
      failure = none;
      facts = none;
      log_path = [];
      ended = none;
      cancelled = false;
    }),
    true,
  )

  -- PlanShown, VerifyPlanShown and RestorePlanShown
  unfoldable pub plan_shown : Machine K → K.BackupPlan → Machine K
  plan_shown none p = none
  plan_shown (some r) p = some (record r { plan = some p })

  unfoldable pub verify_plan_shown : Machine K → K.VerifyPlan → Machine K
  verify_plan_shown none p = none
  verify_plan_shown (some r) p = some (record r { verify_plan = some p })

  unfoldable pub restore_plan_shown : Machine K → K.RestorePlan → Machine K
  restore_plan_shown none p = none
  restore_plan_shown (some r) p = some (record r { restore_plan = some p })

  -- Confirmed
  unfoldable pub confirmed : Machine K → ℕ → Machine K
  unfolding run_confirmed
  confirmed none now = none
  confirmed (some r) now = some (run_confirmed now r)

  -- Replan
  unfoldable pub replan : Machine K → Machine K
  unfolding run_replan
  replan none = none
  replan (some r) = some (run_replan r)

  -- Progressed
  unfoldable pub progressed : Machine K → Progress → ℕ → Machine K
  unfolding run_progressed
  progressed none p now = none
  progressed (some r) p now = some (run_progressed p now r)

  -- CancelRequested
  unfoldable pub cancel_requested : Machine K → CancelAction
  unfolding stage_of
  cancel_requested m = elim (stage_of m) [
    | planning ↦ cancel_now
    | running ↦ cancel_ask
    | idle ↦ cancel_ignore
    | cancelling ↦ cancel_ignore
    | finished ↦ cancel_ignore
  ]

  -- Cancelling
  unfoldable pub cancel : Machine K → Machine K
  unfolding run_cancelling
  cancel none = none
  cancel (some r) = some (run_cancelling r)

  -- CloseConfirmed
  unfoldable pub close_confirmed : Machine K → Machine K
  close_confirmed none = none
  close_confirmed (some r) = some (record r { close_when_done = true })

  -- CloseRequested, in the stage that it switches on
  unfoldable pub close_at : Stage → Machine K → Machine K × CloseAction
  unfolding close_confirmed
  close_at planning m = (close_confirmed m, close_after_cancel)
  close_at cancelling m = (close_confirmed m, close_after_cancel)
  close_at running m = (m, close_ask)
  close_at idle m = (m, close_now)
  close_at finished m = (m, close_now)

  unfoldable pub close_requested : Machine K → Machine K × CloseAction
  unfolding stage_of close_at
  close_requested m = close_at (stage_of m) m

  -- Done: whether the window should close now.
  unfoldable pub done : Machine K → End K → ℕ → Machine K × Bool
  unfolding run_done
  done none end now = (none, false)
  done (some r) end now = (some (run_done end now r), r.close_when_done)

  -- Dismiss
  unfoldable pub dismiss : Machine K → Machine K
  unfolding stage_of
  dismiss m = if stage_number (stage_of m) == stage_number finished then none else m
