-- ===== src/Application/Refinement/Analyses.antt =====
-- Analyzing a run: a failure is recorded, or an analysis stored, only before the run was reviewed.
use cultureshift.Base.{
  String, ℕ, Bool, true, false, List, Option, none, some, ◌≡◌, ◌⊎◌, inl, inr, refl, arith, ◌==◌,
  ◌!=◌, Bool-cases, if◌then◌else◌,
}
use cultureshift.Base.Result.{Result, ok, err}
use cultureshift.Domain.{
  Uuid, utc, ProjectRun, ProjectRunStatus, pending, awaiting_brand_lock, status_eq, Datetime,
  model_validate,
}
use cultureshift.Contracts.{asset_ref_eq, AnalysisCompleted}
use cultureshift.Capabilities.{Capability}
use cultureshift.Analysis.{
  AnalysisError, AnalysisOutcome, invalid_input, unsupported_scope, asset_closed, provider_failed,
  provider_output_invalid, instruction_like_content, prohibited_content, unsafe_hypothesis,
  analysis_refused, analyze,
}
use cultureshift.Repository.State.{Database, RepositoryError, RunRow}
use cultureshift.Repository.Reads.{
  get, get_unchanged, get_request_unchanged, get_analysis_unchanged, get_repair_attempted_unchanged,
}
use cultureshift.Repository.Runs.{claim_analysis, complete_analysis, record_failure}
use cultureshift.Repository.Calls.{Call, perform}
use cultureshift.Repository.Exclusive.{Reached, HasStatus}
use cultureshift.Repository.Lifecycle.{Later, same, further, Later-trans}
use cultureshift.Repository.Started.{is_reviewed, IsStarted, Reached-IsStarted}
use cultureshift.Revising.Session.{World, with_database}
use cultureshift.Actions.{Action, ◌>>=◌, give, query, translate}
use cultureshift.Actions.Effects.{Later-eq}
use cultureshift.Application.{HttpError, Server, Moment, authorize, conflict, not_found}
use cultureshift.Application.Analyses.{
  record_and_raise, claim_and_load, complete, conclude, after_loading, start, analyzed_before,
  dispatch, analyze_run, Loaded, StartFailure, refused, lifecycle_closed, validation_failed, passes,
  analysis_request,
}

claim_analysis-contexts :
    (id : Uuid) (now : Datetime) (db : Database)
    → (claim_analysis id now db).1.contexts ≡ db.contexts
unfolding claim_analysis get
claim_analysis-contexts id now db = ground arith

-- A run that is read has the status of its row.
pub get-status :
    (id : Uuid) (db : Database) (run : ProjectRun)
    → (get id db).0 ≡ ok run
    → HasStatus (db.runs id) run.status
unfolding get model_validate
get-status id db run h = ground arith

IsStarted-status :
    (row : Option RunRow) (s : ProjectRunStatus)
    → HasStatus row s
    → IsStarted row
    → (s == pending) ≡ false
IsStarted-status none s h k = elim h [ ]
IsStarted-status (some r) s h k = rw (← h) k

-- A pending run was not reviewed.
pending-unreviewed :
    (id : Uuid) (db : Database) (run : ProjectRun)
    → Reached db
    → (get id db).0 ≡ ok run
    → (run.status == pending) ≡ true
    → is_reviewed (db.contexts id) ≡ false
pending-unreviewed id db run r h p = elim (Bool-cases (is_reviewed (db.contexts id))) [
  | inl reviewed ↦
      let started = Reached-IsStarted r id reviewed in
      cc (p, IsStarted-status (db.runs id) run.status (get-status id db run h) started)
  | inr unreviewed ↦ unreviewed
]

module _ {Store : Type 0} (server : Server Store) (moment : Moment) (id : Uuid) where
  -- The action does what calls of the application do, when the run was not reviewed.
  abbrev Analyzes : {A : Type 0} → Action HttpError Store A → Type 0
  Analyzes action =
      (w : World Store)
      → is_reviewed (w.database.contexts id) ≡ false
      → Later w.database (action w).1.database

  record_and_raise-Analyzes :
      (status : ProjectRunStatus) (text : String) (e : HttpError)
      → Analyzes (record_and_raise server moment id status text e)
  unfolding record_and_raise perform
  record_and_raise-Analyzes status text e w u =
      let recorded : Later w.database
          (record_failure id status text (utc moment.now) w.database).1 =
        further same (Call.record_failure id status text (utc moment.now)) u in
      Later-trans recorded (Later-eq (ground arith))

  complete-Analyzes : (outcome : AnalysisOutcome) → Analyzes (complete server moment id outcome)
  unfolding complete perform
  complete-Analyzes outcome w u =
      let stored : Later w.database
          (complete_analysis id outcome.analysis outcome.repair_attempted (utc moment.now)
            w.database).1 =
        further same
          (Call.complete_analysis id outcome.analysis outcome.repair_attempted (utc moment.now))
          u in
      Later-trans stored (Later-eq (ground arith))

  conclude-Analyzes :
      (r : Result AnalysisError AnalysisOutcome) → Analyzes (conclude server moment id r)
  conclude-Analyzes (ok outcome) = complete-Analyzes outcome
  conclude-Analyzes (err analysis_refused) = λ w u. same
  conclude-Analyzes (err invalid_input) = record_and_raise-Analyzes _ _ _
  conclude-Analyzes (err unsupported_scope) = record_and_raise-Analyzes _ _ _
  conclude-Analyzes (err asset_closed) = record_and_raise-Analyzes _ _ _
  conclude-Analyzes (err provider_failed) = record_and_raise-Analyzes _ _ _
  conclude-Analyzes (err provider_output_invalid) = record_and_raise-Analyzes _ _ _
  conclude-Analyzes (err instruction_like_content) = record_and_raise-Analyzes _ _ _
  conclude-Analyzes (err prohibited_content) = record_and_raise-Analyzes _ _ _
  conclude-Analyzes (err unsafe_hypothesis) = record_and_raise-Analyzes _ _ _

  after_loading-Analyzes :
      (r : Result StartFailure Loaded) → Analyzes (after_loading server moment id r)
  after_loading-Analyzes (ok loaded) =
      conclude-Analyzes (analyze server.provider (analysis_request loaded) moment.now).0
  after_loading-Analyzes (err refused) = λ w u. same
  after_loading-Analyzes (err lifecycle_closed) = record_and_raise-Analyzes _ _ _
  after_loading-Analyzes (err validation_failed) = record_and_raise-Analyzes _ _ _
  after_loading-Analyzes (err passes) = λ w u. same

  -- The claim is the only write before the analysis.
  claim_and_load-database :
      (w : World Store)
      → let after = (claim_and_load server moment id w).1.database in
        (after ≡ w.database) ⊎ (after ≡ (claim_analysis id (utc moment.now) w.database).1)
  unfolding claim_and_load
  claim_and_load-database w = ground (arith, get_request_unchanged id w.database)

  start-Analyzes : Analyzes (start server moment id)
  unfolding start perform
  start-Analyzes w u = elim (claim_and_load-database w) [
    | inl kept ↦ Later-trans (Later-eq kept) (
        after_loading-Analyzes (claim_and_load server moment id w).0
          (claim_and_load server moment id w).1 (rw kept u))
    | inr claimed ↦
        Later-trans (rw (claimed) (further same (Call.claim_analysis id (utc moment.now)) tt)) (
          after_loading-Analyzes (claim_and_load server moment id w).0
            (claim_and_load server moment id w).1
            (rw (claimed, claim_analysis-contexts id (utc moment.now) w.database) u))
  ]

  analyzed_before-database :
      (run : ProjectRun) (w : World Store)
      → (analyzed_before server moment run id w).1.database ≡ w.database
  unfolding analyzed_before
  analyzed_before-database run w =
      ground
        (arith, get_analysis_unchanged id w.database, get_repair_attempted_unchanged id w.database)

  dispatch-Later :
      (run : ProjectRun) (w : World Store)
      → ((run.status == pending) ≡ true → is_reviewed (w.database.contexts id) ≡ false)
      → Later w.database (dispatch server moment id run w).1.database
  dispatch-Later run w u =
      split (run.status == awaiting_brand_lock) (run.status != pending)
        (λ k. start-Analyzes w (u (not_other k)))
    where
      not_other : (run.status != pending) ≡ false → (run.status == pending) ≡ true
      not_other k = ground arith

      split :
          (before other : Bool)
          → (other ≡ false → Later w.database (start server moment id w).1.database)
          → Later w.database
              ((if before
                  then analyzed_before server moment run id
                  else if other
                  then give (err conflict)
                  else start server moment id)
                w).1.database
      split true other h = Later-eq (analyzed_before-database run w)
      split false true h = same
      split false false h = h refl

  -- In a database that the application reaches, a request to analyze a run makes calls that the
  -- application may make.
  pub analyze_run-Later :
      (header : List ℕ) (w : World Store)
      → Reached w.database
      → Later w.database (analyze_run server moment id header w).1.database
  unfolding analyze_run
  analyze_run-Later header w r =
      split (authorize server Capability.analyze_project_run id header moment.now)
    where
      w' : World Store
      w' = with_database (get id w.database).1 w

      read :
          (g : Result RepositoryError ProjectRun)
          → (get id w.database).0 ≡ g
          → Later w.database
              (elim (translate not_found g)
                as (λ _. Result HttpError AnalysisCompleted × World Store) [
                  | ok run ↦ dispatch server moment id run w'
                  | err e ↦ (err e, w')
                ]).1.database
      read (ok run) h = Later-trans (Later-eq (get_unchanged id w.database)) (
          dispatch-Later run w'
            (λ p. rw (get_unchanged id w.database) (pending-unreviewed id w.database run r h p)))
      read (err e) h = Later-eq (get_unchanged id w.database)

      split :
          (a : Result HttpError (Unit {0}))
          → Later w.database
              ((give a >>= λ _. query not_found (get id) >>= dispatch server moment id)
                w).1.database
      split (err e) = same
      split (ok _) = read (get id w.database).0 refl
