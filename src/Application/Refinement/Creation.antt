-- ===== src/Application/Refinement/Creation.antt =====
-- Creating and showing a run.
use cultureshift.Base.{ℕ, not, List, some, ◌≡◌, arith, nat_eq}
use cultureshift.Base.Result.{Result, ok, err}
use cultureshift.Domain.{
  Uuid, LocalizationDirection, ProjectRun, pending, status_eq, model_validate,
}
use cultureshift.Contracts.{RunCreate, run_created_valid}
use cultureshift.Repository.Reads.{get_unchanged}
use cultureshift.Repository.Runs
use cultureshift.Repository.Calls.{Call, perform}
use cultureshift.Repository.Lifecycle.{Later, same, further}
use cultureshift.Actions.{◌>>=◌, give, refuse_when, query}
use cultureshift.Actions.Effects.{Extends, Extends->>=, Later-eq}
use cultureshift.Application.{HttpError, Server, Moment}
use cultureshift.Application.Runs.{
  create_run, store_run, new_run, issue_run, created, creation_failed, failing, or_failed, get_run,
}

-- The new run is pending, if it is accepted.
abbrev IsNew : Result HttpError ProjectRun → Type 0
IsNew (ok run) = run.status ≡ pending
IsNew (err e) = Unit

new_run-pending :
    (moment : Moment) (direction : LocalizationDirection)
    → IsNew (or_failed creation_failed (new_run moment direction))
unfolding model_validate
new_run-pending moment direction = ground arith

module _ {Store : Type 0} (server : Server Store) (moment : Moment) where
  store_run-Extends :
      (request : RunCreate) (run : ProjectRun) (token : List ℕ)
      → run.status ≡ pending
      → Extends (store_run server moment request run token)
  unfolding store_run perform
  store_run-Extends request run token h =
      Extends->>= (refuse_when (not (run_created_valid (created run token))) creation_failed)
        (λ _. query failing (Runs.create run (some request)) >>= λ _. give (ok (created run token)))
        (λ w. same)
        (λ _.
          Extends->>= (query failing (Runs.create run (some request)))
            (λ _. give (ok (created run token)))
            (λ w. further same (Call.create run (some request)) h) (λ _ w. same))

  pub create_run-Extends : (request : RunCreate) → Extends (create_run server moment request)
  unfolding create_run
  create_run-Extends request w =
      after (or_failed creation_failed (new_run moment request.direction))
        (new_run-pending moment request.direction)
    where
      after :
          (r : Result HttpError ProjectRun)
          → IsNew r
          → Later w.database
              ((give r >>= λ run.
                  give (issue_run server moment run) >>= store_run server moment request run)
                w).1.database
      after (err e) h = same
      after (ok run) h =
          Extends->>= (give (issue_run server moment run)) (store_run server moment request run)
            (λ v. same) (λ token. store_run-Extends request run token h) w

  pub get_run-Extends : (id : Uuid) (header : List ℕ) → Extends (get_run server moment id header)
  unfolding get_run
  get_run-Extends id header w = Later-eq (ground (arith, get_unchanged id w.database))
