-- ===== src/Repository/Exclusive/Generations.antt =====
-- The methods that create, analyze, confirm, draft, compose and review a run keep it exclusive.
use cultureshift.Base.{String, Bool, false, Option, ◌≡◌, ◌⊎◌, arith, nat_eq}
use cultureshift.Domain
use cultureshift.Domain.{
  Uuid, Datetime, ProjectRun, ProjectRunStatus, pending, ready, status_eq, with_status,
  model_validate,
}
use cultureshift.Contracts.{
  AdAnalysis, BrandLock, CompositionGenerated, CritiqueReport, RunCreate, is_given,
}
use cultureshift.Repository.State.{Database, DraftRecord, operation_state_eq}
use cultureshift.Repository.Reads.{column, get, get_request_unchanged}
use cultureshift.Repository.Runs.{
  create, increment_technical_attempt, claim_analysis, complete_analysis, record_failure,
}
use cultureshift.Repository.Artifacts.{
  confirm_brand_lock, save_draft, save_composition, save_critique,
}
use cultureshift.Repository.Exclusive.Counts.{HasStatus, Exclusive}

pub confirm_brand_lock-Exclusive :
    (id : Uuid) (proposed : BrandLock) (at : Datetime) (db : Database)
    → Exclusive db
    → Exclusive (confirm_brand_lock id proposed at db).1
unfolding confirm_brand_lock status_eq
confirm_brand_lock-Exclusive id proposed at db h j = ground (arith, h j)

pub save_critique-Exclusive :
    (id : Uuid) (report : CritiqueReport) (db : Database)
    → Exclusive db
    → Exclusive (save_critique id report db).1
unfolding save_critique status_eq
save_critique-Exclusive id report db h j = ground (arith, h j)

pub complete_analysis-Exclusive :
    (id : Uuid) (analysis : AdAnalysis) (repair : Bool) (now : Datetime) (db : Database)
    → is_given (column (λ c. c.critique) (db.contexts id)) ≡ false
    → Exclusive db
    → Exclusive (complete_analysis id analysis repair now db).1
unfolding complete_analysis get with_status model_validate status_eq
complete_analysis-Exclusive id analysis repair now db d h j =
    ground (arith, h j, get_request_unchanged id db)

-- A recorded failure leaves the run or closes it, and touches nothing else.
record_failure_effect :
    (id : Uuid) (status : ProjectRunStatus) (code : String) (now : Datetime) (db : Database)
    (j : Uuid)
    → let after = (record_failure id status code now db).1 in
      ((after.runs j ≡ db.runs j)
        ⊎ ((j ≡ id)
            × (HasStatus (after.runs j) Domain.blocked ⊎ HasStatus (after.runs j) Domain.failed)))
      × (after.contexts j ≡ db.contexts j)
      × (after.operations ≡ db.operations)
unfolding record_failure get with_status model_validate
record_failure_effect id status code now db j = ground arith

pub record_failure-Exclusive :
    (id : Uuid) (status : ProjectRunStatus) (code : String) (now : Datetime) (db : Database)
    → is_given (column (λ c. c.critique) (db.contexts id)) ≡ false
    → Exclusive db
    → Exclusive (record_failure id status code now db).1
record_failure-Exclusive id status code now db d h j =
    ground (arith, h j, record_failure_effect id status code now db j)

pub create-Exclusive :
    (run : ProjectRun) (request : Option RunCreate) (db : Database)
    → run.status ≡ pending
    → Exclusive db
    → Exclusive (create run request db).1
unfolding create
create-Exclusive run request db d h j = ground (arith, h j)

pub claim_analysis-Exclusive :
    (id : Uuid) (now : Datetime) (db : Database)
    → Exclusive db
    → Exclusive (claim_analysis id now db).1
unfolding claim_analysis get status_eq
claim_analysis-Exclusive id now db h j = ground (arith, h j)

pub increment_technical_attempt-Exclusive :
    (id : Uuid) (db : Database) → Exclusive db → Exclusive (increment_technical_attempt id db).1
unfolding increment_technical_attempt get
increment_technical_attempt-Exclusive id db h j = ground (arith, h j)

pub save_draft-Exclusive :
    (id : Uuid) (draft : DraftRecord) (db : Database)
    → Exclusive db
    → Exclusive (save_draft id draft db).1
unfolding save_draft
save_draft-Exclusive id draft db h j = ground (arith, h j)

pub save_composition-Exclusive :
    (id : Uuid) (composition : CompositionGenerated) (db : Database)
    → Exclusive db
    → Exclusive (save_composition id composition db).1
unfolding save_composition
save_composition-Exclusive id composition db h j = ground (arith, h j)
