-- ===== src/Repository/Lifecycle.antt =====
-- The life of a run under the calls of the application.
use cultureshift.Base.{ℕ, [], Option, none, some, ◌≡◌, inl, inr, refl, ◌∙◌, arith, false, contains}
use cultureshift.Domain.{Uuid, Datetime, ProjectRunStatus, allowed_transitions, status_eq}
use cultureshift.Contracts.{RevisionCompleted}
use cultureshift.Workflow.{RetryAction, RetryCondition}
use cultureshift.Repository.State.{Database, RunRow, RevisionRecord}
use cultureshift.Repository.Operations.{fail_revision_operation, complete_revision}
use cultureshift.Repository.Calls.{Call, perform}
use cultureshift.Repository.Statuses.{Moves, perform-Moves}
use cultureshift.Repository.Exclusive.{
  Exclusive, IsDisciplined, Reached, called, Reached-Exclusive, active_count-fail,
  active_count-succeed, HasStatus,
}

fail_revision_operation-Moves :
    (id : Uuid) (operation_id : ℕ) (condition : RetryCondition) (action : RetryAction)
    (at : Datetime) (db : Database) (j : Uuid)
    → Exclusive db
    → Moves (db.runs j) ((fail_revision_operation id operation_id condition action at db).1.runs j)
unfolding fail_revision_operation status_eq
fail_revision_operation-Moves id operation_id condition action at db j h =
    ground (arith, h id, active_count-fail id operation_id condition action at db.operations)

complete_revision-Moves :
    (id : Uuid) (operation_id : ℕ) (revision : RevisionRecord) (response : RevisionCompleted)
    (db : Database) (j : Uuid)
    → Exclusive db
    → Moves (db.runs j) ((complete_revision id operation_id revision response db).1.runs j)
unfolding complete_revision status_eq
complete_revision-Moves id operation_id revision response db j h =
    ground
      (arith, h id, active_count-succeed id operation_id response revision.revised_at db.operations)

-- In a database that the application reaches, each of its calls leaves the status of every run, or
-- moves it along an arrow of the table of allowed transitions; no call removes a run. The calls
-- that write a status without testing it are among these.
pub Reached-Moves :
    (c : Call) {db : Database}
    → Reached db
    → IsDisciplined c db
    → (j : Uuid) → Moves (db.runs j) ((perform c db).runs j)
unfolding perform
Reached-Moves (Call.fail_revision_operation id operation_id condition action at) {db} r d j =
    fail_revision_operation-Moves id operation_id condition action at db j (Reached-Exclusive r)
Reached-Moves (Call.complete_revision id operation_id revision response) {db} r d j =
    complete_revision-Moves id operation_id revision response db j (Reached-Exclusive r)
Reached-Moves c {db} r d j = perform-Moves c db tt j

-- The databases that further disciplined calls reach.
pub data Later (db : Database) : Database → Type 0 where
  same : Later db db
  further :
      {db' : Database} → Later db db' → (c : Call) → IsDisciplined c db' → Later db (perform c db')

pub Later-trans : {a b c : Database} → Later a b → Later b c → Later a c
Later-trans l same = l
Later-trans l (further m c d) = further (Later-trans l m) c d

pub Later-Reached : {db db' : Database} → Reached db → Later db db' → Reached db'
Later-Reached r same = r
Later-Reached r (further l c d) = called (Later-Reached r l) c d

abbrev pub IsFinal : ProjectRunStatus → Type 0
IsFinal s = allowed_transitions s ≡ []

Moves-final :
    (old new : Option RunRow) (s : ProjectRunStatus)
    → IsFinal s
    → HasStatus old s
    → Moves old new
    → HasStatus new s
Moves-final none new s f b m = elim b [ ]
Moves-final (some r) none s f b m = elim m [ ]
Moves-final (some r) (some r') s f b (inl kept) = kept ∙ b
Moves-final (some r) (some r') s f b (inr moved) =
    let stuck : contains (allowed_transitions r.status) r'.status ≡ false = rw (b, f) refl in
    cc (stuck, moved)

-- A run whose status has no way out (completed, failed, finally failed) keeps that status through
-- any further calls of the application.
pub Later-final :
    {db db' : Database} (j : Uuid) (s : ProjectRunStatus)
    → Reached db
    → IsFinal s
    → HasStatus (db.runs j) s
    → Later db db'
    → HasStatus (db'.runs j) s
Later-final j s r f b same = b
Later-final j s r f b (further {db' = db'} l c d) =
    Moves-final (db'.runs j) ((perform c db').runs j) s f (Later-final j s r f b l)
      (Reached-Moves c (Later-Reached r l) d j)
