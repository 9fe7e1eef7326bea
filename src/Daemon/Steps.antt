-- ===== src/Daemon/Steps.antt =====
-- pkg/daemon/server.go: the server as a transition system. A step submits a job under a fresh id, or
-- ends the task of one with whatever its conversion came to.
use xtable_go.Prelude.{String, [], subst, Option, none, some, ◌≡◌, refl, ◌⊎◌, inl, inr, Bool-cases}
use xtable_go.Prelude.Int.{ℤ}
use xtable_go.Prelude.Results.{Result, ok, err}
use xtable_go.Prelude.Text.{str_eq, eq_iff}
use xtable_go.Prelude.Dict
use xtable_go.Prelude.Dict.{Dict, lookup-insert, lookup-remove}
use xtable_go.Spi.{SyncResult}
use xtable_go.Config.{DatasetConfig}
use xtable_go.Daemon.{
  Server, ConvertTableResponse, running, completed, failed, submit, record_outcome,
  submitted_response, ended_response,
}

pub data Step : Server → Server → Type 0 where
  submitted :
      (server : Server) (id : String) (now : ℤ) (cfg : DatasetConfig)
      → Dict.lookup id server.conversions ≡ none
      → Step server (submit id now cfg server)
  ended :
      (server : Server) (id : String) (now : ℤ) (cfg : DatasetConfig)
      (outcome : Result (Dict SyncResult))
      → Dict.lookup id server.tasks ≡ some cfg
      → Step server (record_outcome id now outcome server)

pub data Reach (first : Server) : Server → Type 0 where
  here : Reach first first
  next : {s t : Server} → Reach first s → Step s t → Reach first t

abbrev pub new_server : Server
new_server = record { conversions = []; tasks = [] }

abbrev pub IsEnded : ConvertTableResponse → Type 0
IsEnded r = ((r.status ≡ completed) ⊎ (r.status ≡ failed)) × ((t : ℤ) × (r.finished_at ≡ some t))

-- What an id has: nothing, a task and a running job, or a job that has ended.
abbrev pub Agrees : String → Option DatasetConfig → Option ConvertTableResponse → Type 0
Agrees id none none = Unit
Agrees id none (some r) = (r.conversion_id ≡ id) × IsEnded r
Agrees id (some cfg) none = ⊥
Agrees id (some cfg) (some r) =
    (r.conversion_id ≡ id) × (r.status ≡ running) × (r.finished_at ≡ none)

abbrev pub IsWellFormed : Server → Type 0
IsWellFormed server =
    (id : String) → Agrees id (Dict.lookup id server.tasks) (Dict.lookup id server.conversions)

ended_response-Agrees :
    (id : String) (now : ℤ) (cfg : DatasetConfig) (outcome : Result (Dict SyncResult))
    (found : Option ConvertTableResponse)
    → Agrees id (some cfg) found
    → (r : ConvertTableResponse) × (found ≡ some r)
      × Agrees id none (some (ended_response now outcome r))
unfolding ended_response
ended_response-Agrees id now cfg outcome none h = absurd h
ended_response-Agrees id now cfg (ok results) (some r) (own, _, _) =
    (r, refl, (own, (inl refl, (now, refl))))
ended_response-Agrees id now cfg (err e) (some r) (own, _, _) =
    (r, refl, (own, (inr refl, (now, refl))))

submit-IsWellFormed :
    (server : Server) (id : String) (now : ℤ) (cfg : DatasetConfig)
    → IsWellFormed server
    → IsWellFormed (submit id now cfg server)
unfolding submit submitted_response
submit-IsWellFormed server id now cfg h j = elim (Bool-cases (str_eq id j)) [
  | inl e ↦
      rw
        (
          lookup-insert id j cfg server.tasks,
          lookup-insert id j (submitted_response id now) server.conversions,
          e,
        )
        ((eq_iff id j).0 e, refl, refl)
  | inr e ↦
      rw
        (
          lookup-insert id j cfg server.tasks,
          lookup-insert id j (submitted_response id now) server.conversions,
          e,
        )
        (h j)
]

pub record_outcome-found :
    (server : Server) (id : String) (now : ℤ) (outcome : Result (Dict SyncResult))
    (r : ConvertTableResponse)
    → Dict.lookup id server.conversions ≡ some r
    → (record_outcome id now outcome server).conversions
      ≡ Dict.insert id (ended_response now outcome r) server.conversions
unfolding record_outcome
record_outcome-found server id now outcome r found = rw (found, record_outcome) refl

record_outcome-tasks :
    (server : Server) (id : String) (now : ℤ) (outcome : Result (Dict SyncResult))
    → (record_outcome id now outcome server).tasks ≡ Dict.remove id server.tasks
unfolding record_outcome
record_outcome-tasks server id now outcome = refl

-- the job of a task that is there
pub running_job :
    (server : Server) (id : String) (cfg : DatasetConfig)
    → IsWellFormed server
    → Dict.lookup id server.tasks ≡ some cfg
    → Agrees id (some cfg) (Dict.lookup id server.conversions)
running_job server id cfg h at_task =
    subst (λ task. Agrees id task (Dict.lookup id server.conversions)) at_task (h id)

-- what an id has once its task has ended
pub record_outcome-job :
    (server : Server) (id : String) (now : ℤ) (cfg : DatasetConfig)
    (outcome : Result (Dict SyncResult))
    → IsWellFormed server
    → Dict.lookup id server.tasks ≡ some cfg
    → (r : ConvertTableResponse) × (Dict.lookup id server.conversions ≡ some r)
      × Agrees id none (some (ended_response now outcome r))
record_outcome-job server id now cfg outcome h at_task =
    ended_response-Agrees id now cfg outcome (Dict.lookup id server.conversions)
      (running_job server id cfg h at_task)

record_outcome-IsWellFormed :
    (server : Server) (id : String) (now : ℤ) (cfg : DatasetConfig)
    (outcome : Result (Dict SyncResult))
    → Dict.lookup id server.tasks ≡ some cfg
    → IsWellFormed server
    → IsWellFormed (record_outcome id now outcome server)
record_outcome-IsWellFormed server id now cfg outcome at_task h j =
    let (r, found, agrees) = record_outcome-job server id now cfg outcome h at_task in
    rw
      (
        record_outcome-found server id now outcome r found,
        record_outcome-tasks server id now outcome,
        lookup-remove id j server.tasks,
        lookup-insert id j (ended_response now outcome r) server.conversions,
      )
      (elim (Bool-cases (str_eq id j)) [
        | inl e ↦ rw (e) (
            subst (λ i. Agrees i none (some (ended_response now outcome r))) ((eq_iff id j).0 e)
              agrees)
        | inr e ↦ rw (e) (h j)
      ])

Step-IsWellFormed : {s t : Server} → Step s t → IsWellFormed s → IsWellFormed t
Step-IsWellFormed (submitted server id now cfg fresh) h = submit-IsWellFormed server id now cfg h
Step-IsWellFormed (ended server id now cfg outcome at_task) h =
    record_outcome-IsWellFormed server id now cfg outcome at_task h

pub Reach-IsWellFormed : {s t : Server} → IsWellFormed s → Reach s t → IsWellFormed t
Reach-IsWellFormed h here = h
Reach-IsWellFormed h (next r step) = Step-IsWellFormed step (Reach-IsWellFormed h r)

-- However jobs are submitted and end, each id has nothing, or a task and a running job, or no task
-- and a job that is completed or failed at a time; and each job is kept under its own id.
pub reached-IsWellFormed : {server : Server} → Reach new_server server → IsWellFormed server
unfolding Dict.lookup
reached-IsWellFormed r = Reach-IsWellFormed (λ id. tt) r
