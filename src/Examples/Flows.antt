-- ===== src/Examples/Flows.antt =====
-- Runs in the window, and retention.
use restore_safe.Base.{
  Bytes, List, Mem, Option, [], codes, false, filter, inl, inr, none, refl, some, sort_by, text_eq,
  true, ℕ, ◌∷◌, ◌≡◌,
}
use restore_safe.Naming.{BackupEntry}
use restore_safe.Catalog.{SetInfo, complete}
use restore_safe.Plan.Retention.{retention_candidates}
use restore_safe.Plan.Retention.Safe.{retention_candidates-together}
use restore_safe.Flow.Machine.{Machine, Op, Payloads, Run, no_progress, start}
use restore_safe.Flow.Reach.{Event, IsLater, busy-until_end, fire_all, no_end}
use restore_safe.Flow.Invariant.{IsLegal, fire_all-none-IsLegal}
use restore_safe.Examples.Platforms.{plain_platform}
use restore_safe.Examples.Files.{header1}

abbrev texts : Payloads
texts = record {
  BackupPlan = Bytes;
  VerifyPlan = Bytes;
  RestorePlan = Bytes;
  Result = Bytes;
  Failure = Bytes;
  Facts = Bytes;
}

abbrev planning_run : Run texts
planning_run = record {
  op = Op.backup;
  stage = restore_safe.Flow.Machine.planning;
  started = none;
  plan = none;
  verify_plan = none;
  restore_plan = none;
  progress = no_progress;
  speed = [];
  folders = [];
  close_when_done = true;
  result = none;
  failure = none;
  facts = none;
  log_path = [];
  ended = none;
  cancelled = false;
}

abbrev calls : List (Event texts)
calls = Event.confirms 7 ∷ Event.starts Op.verify ∷ Event.cancels ∷ []

calls-no_end : no_end calls ≡ true
unfolding no_end
calls-no_end = refl

planning_run-busy : restore_safe.Flow.Machine.busy (some planning_run) ≡ true
unfolding restore_safe.Flow.Machine.busy
planning_run-busy = refl

busy-until_end_example :
    IsLater planning_run (fire_all (some planning_run) calls)
    × (start (fire_all (some planning_run) calls) Op.restore
        ≡ (fire_all (some planning_run) calls, false))
busy-until_end_example = busy-until_end planning_run calls Op.restore planning_run-busy calls-no_end

fire_all-none-IsLegal_example : IsLegal (fire_all none (Event.starts Op.backup ∷ calls))
fire_all-none-IsLegal_example = fire_all-none-IsLegal (Event.starts Op.backup ∷ calls)

abbrev entry : Bytes → ℕ → BackupEntry
entry id diff = record {
  directory_name = codes "docs";
  chain_id = id;
  date = codes "2026-01-01";
  diff_number = diff;
}

abbrev pub set_of : Bytes → ℕ → SetInfo
set_of id diff = record {
  entry = entry id diff;
  parts = [];
  size_bytes = 100;
  header = some header1;
  data_length = 3;
  failure = none;
}

abbrev inventory : List SetInfo
inventory = set_of (codes "NEWEST") 0 ∷ set_of (codes "ABC123") 1 ∷ set_of (codes "ABC123") 0 ∷ []

abbrev no_files : Bytes → Option ℕ
no_files path = none

full_removed :
    Mem
      (set_of (codes "ABC123") 0)
      (retention_candidates plain_platform no_files (codes "docs") inventory 1 0)
unfolding retention_candidates Mem restore_safe.Plan.Retention.all_sets restore_safe.Base.sort_by
    restore_safe.Base.filter restore_safe.Base.text_eq complete
    restore_safe.Plan.Retention.newer_chain restore_safe.Catalog.created restore_safe.Text.text_less
full_removed = inr (inl refl)

diff_known : Mem (set_of (codes "ABC123") 1) inventory
unfolding Mem
diff_known = inr (inl refl)

set-complete : (id : Bytes) (diff : ℕ) → complete (set_of id diff) ≡ true
unfolding complete
set-complete id diff = refl

retention_candidates-together_example :
    Mem
      (set_of (codes "ABC123") 1)
      (retention_candidates plain_platform no_files (codes "docs") inventory 1 0)
retention_candidates-together_example =
    retention_candidates-together plain_platform no_files (codes "docs") inventory 1 0
      (set_of (codes "ABC123") 0) (set_of (codes "ABC123") 1) full_removed
      (set-complete (codes "ABC123") 0) refl diff_known refl (set-complete (codes "ABC123") 1) refl
