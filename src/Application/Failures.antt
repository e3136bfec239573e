-- ===== src/Application/Failures.antt =====
-- Requests that end with an exception that their handler does not catch.
use cultureshift.Base.{ℕ, Bool, true, false, List, Option, none, some, ◌≡◌, refl, ◌∙◌, arith, ◌==◌}
use cultureshift.Base.Result.{Result, ok, err}
use cultureshift.Domain.{
  Uuid, utc, ProjectRun, pending, in_progress, ready, failed_final, status_eq, Datetime,
  model_validate,
}
use cultureshift.Contracts.{RunCreate, critique_completed_valid}
use cultureshift.Capabilities.{Capability}
use cultureshift.Repository.State.{Database, CritiqueRecord, RunRow, RepositoryError, value_error}
use cultureshift.Repository.Reads.{
  get, get_request, get_critique, get_unchanged, get_request_unchanged, get_critique_unchanged,
}
use cultureshift.Repository.Runs.{claim_analysis}
use cultureshift.Revising.Session.{World}
use cultureshift.Application.{Server, Moment, authorize, uncaught}
use cultureshift.Storage.Assets.{other}
use cultureshift.Application.Analyses.{analyze_run, start, dispatch, claim_and_load, passes}
use cultureshift.Application.Artifacts.{run_critic, respond_review}

-- The run was claimed, or the claim wrote and then refused what it read back.
abbrev is_claim : Result RepositoryError (Option ProjectRun) → Bool
is_claim (ok (some run)) = true
is_claim (ok none) = false
is_claim (err value_error) = true
is_claim (err _) = false

-- The database in which a run was claimed: the row has its new status and time, and nothing else of
-- the run changed.
abbrev pub IsClaimed : Uuid → RunRow → Datetime → Database → Database → Type 0
IsClaimed id row at db db' =
    (db'.runs id ≡ some (record row { status = in_progress; updated_at = at }))
    × (db'.contexts id ≡ db.contexts id)

claim_analysis-pending :
    (id : Uuid) (row : RunRow) (now : Datetime) (db : Database)
    → db.runs id ≡ some row
    → row.status ≡ pending
    → (is_claim (claim_analysis id now db).0 ≡ true)
      × IsClaimed id row now db (claim_analysis id now db).1
unfolding claim_analysis get status_eq
claim_analysis-pending id row now db h p = ground arith

module _ {Store : Type 0} (server : Server Store) (moment : Moment) (id : Uuid) (header : List ℕ)
    (w : World Store) where
  run_critic-existing :
      (run : ProjectRun) (stored : CritiqueRecord)
      → authorize server Capability.update_project_run id header moment.now ≡ ok tt
      → (get id w.database).0 ≡ ok run
      → (get_critique id w.database).0 ≡ ok (some stored)
      → run_critic server moment id header false w ≡ (respond_review run stored.report, w)
  unfolding run_critic
  run_critic-existing run stored a g c =
      ground (arith, get_unchanged id w.database, get_critique_unchanged id w.database)

  -- When an authorized request asks for the review of a run that has one, and the run is neither ready
  -- nor finally failed, as it is while its revision is made or may be retried, the answer is an
  -- exception that the handler does not catch; nothing changes.
  pub run_critic-revising :
      (run : ProjectRun) (stored : CritiqueRecord)
      → authorize server Capability.update_project_run id header moment.now ≡ ok tt
      → (get id w.database).0 ≡ ok run
      → (get_critique id w.database).0 ≡ ok (some stored)
      → (run.status == ready) ≡ false
      → (run.status == failed_final) ≡ false
      → run_critic server moment id header false w ≡ (err uncaught, w)
  unfolding critique_completed_valid
  run_critic-revising run stored a g c n m =
      rw (run_critic-existing run stored a g c) (ground arith)

  claim_and_load-other :
      (request : RunCreate) (row : RunRow)
      → w.database.runs id ≡ some row
      → row.status ≡ pending
      → (get_request id w.database).0 ≡ ok request
      → moment.load_asset request.source_asset.asset_id ≡ err other
      → ((claim_and_load server moment id w).0 ≡ err passes)
        × IsClaimed id row
            (utc moment.now)
            w.database
            (claim_and_load server moment id w).1.database
  unfolding claim_and_load
  claim_and_load-other request row h p q l = ground (
    arith,
    get_request_unchanged id w.database,
    claim_analysis-pending id row (utc moment.now) w.database,
  )

  start-other :
      (request : RunCreate) (row : RunRow)
      → w.database.runs id ≡ some row
      → row.status ≡ pending
      → (get_request id w.database).0 ≡ ok request
      → moment.load_asset request.source_asset.asset_id ≡ err other
      → ((start server moment id w).0 ≡ err uncaught)
        × IsClaimed id row (utc moment.now) w.database (start server moment id w).1.database
  unfolding start
  start-other request row h p q l = ground (arith, claim_and_load-other request row h p q l)

  get-row :
      (run : ProjectRun) (row : RunRow)
      → (get id w.database).0 ≡ ok run
      → w.database.runs id ≡ some row
      → run.status ≡ row.status
  unfolding get model_validate
  get-row run row g h = ground arith

  dispatch-pending :
      (run : ProjectRun)
      → run.status ≡ pending
      → dispatch server moment id run w ≡ start server moment id w
  unfolding status_eq
  dispatch-pending run p = rw (p) refl

  analyze_run-pending :
      (run : ProjectRun)
      → authorize server Capability.analyze_project_run id header moment.now ≡ ok tt
      → (get id w.database).0 ≡ ok run
      → run.status ≡ pending
      → analyze_run server moment id header w ≡ start server moment id w
  unfolding analyze_run get start
  analyze_run-pending run a g p = rw (a, g, get_unchanged id w.database) (dispatch-pending run p)

  -- When an authorized request is to analyze a pending run, which can be read with what it was created
  -- for, and the store of assets raises an exception of another kind than those for a closed or damaged asset, the handler does not catch it: the row
  -- of the run is claimed, as in progress at this time, with the warning codes that it had, and the
  -- row of its context, with the analysis if there is one, is as it was.
  pub analyze_run-stuck :
      (run : ProjectRun) (request : RunCreate) (row : RunRow)
      → authorize server Capability.analyze_project_run id header moment.now ≡ ok tt
      → (get id w.database).0 ≡ ok run
      → w.database.runs id ≡ some row
      → row.status ≡ pending
      → (get_request id w.database).0 ≡ ok request
      → moment.load_asset request.source_asset.asset_id ≡ err other
      → ((analyze_run server moment id header w).0 ≡ err uncaught)
        × ((analyze_run server moment id header w).1.database.runs id
            ≡ some (record row { status = in_progress; updated_at = utc moment.now }))
        × ((analyze_run server moment id header w).1.database.contexts id ≡ w.database.contexts id)
  analyze_run-stuck run request row a g h p q l =
      let same = get-row run row g h in
      rw (analyze_run-pending run a g (same ∙ p))
        (let r = start-other request row h p q l in (r.0, r.1.0, r.1.1))
