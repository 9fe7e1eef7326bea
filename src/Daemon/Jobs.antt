-- ===== src/Daemon/Jobs.antt =====
-- pkg/daemon/server.go: what becomes of a job, as its caller sees it.
use Prim.Native.String.{◌++◌}
use xtable_go.Prelude.{
  ℕ, String, Option, none, some, ◌≡◌, refl, subst, inl, inr, arith, Bool-cases, false,
}
use xtable_go.Prelude.Int.{ℤ}
use xtable_go.Prelude.Text.{str_eq, eq_iff}
use xtable_go.Prelude.Dict
use xtable_go.Prelude.Dict.{Dict, lookup-insert, lookup-remove}
use xtable_go.Io.Cuts.{cut_prefix-append}
use xtable_go.Config.{DatasetConfig}
use xtable_go.Daemon.{
  Server, ConvertTableResponse, HttpRequest, submit, submitted_response, ended_response,
  handle_get_conversion_status, job_of, status_reply,
}
use xtable_go.Daemon.Steps.{
  Step, submitted, ended, Reach, here, next, new_server, Agrees, IsWellFormed, Reach-IsWellFormed,
  reached-IsWellFormed, running_job, record_outcome-job, record_outcome-found,
}

-- a task that is there is not that of a job that has ended
ended-no_task :
    (server : Server) (id : String) (cfg : DatasetConfig) (r : ConvertTableResponse) (time : ℤ)
    → IsWellFormed server
    → Dict.lookup id server.conversions ≡ some r
    → r.finished_at ≡ some time
    → Dict.lookup id server.tasks ≡ some cfg
    → ⊥
ended-no_task server id cfg r time h found finished at_task =
    let (_, _, unfinished) =
      subst (Agrees id (some cfg)) found (running_job server id cfg h at_task) in
    cc

Step-keeps :
    (id : String) (r : ConvertTableResponse) (time : ℤ) {s t : Server}
    → Step s t
    → IsWellFormed s
    → Dict.lookup id s.conversions ≡ some r
    → r.finished_at ≡ some time
    → Dict.lookup id t.conversions ≡ some r
unfolding submit
Step-keeps id r time (submitted server new now cfg fresh) h found finished =
    ground
      (arith, lookup-insert new id (submitted_response new now) server.conversions, eq_iff new id)
Step-keeps id r time (ended server old now cfg outcome at_task) h found finished =
    let (was, there, _) = record_outcome-job server old now cfg outcome h at_task in
    elim (Bool-cases (str_eq old id)) [
      | inl e ↦ absurd (
          ended-no_task server id cfg r time h found finished
            (subst (λ i. Dict.lookup i server.tasks ≡ some cfg) ((eq_iff old id).0 e) at_task))
      | inr e ↦
          rw
            (
              record_outcome-found server old now outcome was there,
              lookup-insert old id (ended_response now outcome was) server.conversions,
              e,
            )
            found
    ]

-- A job that has ended stays as it is, whatever jobs are submitted and end after it.
pub ended_job_stays :
    (id : String) (r : ConvertTableResponse) (time : ℤ) {s t : Server}
    → Reach new_server s
    → Reach s t
    → Dict.lookup id s.conversions ≡ some r
    → r.finished_at ≡ some time
    → Dict.lookup id t.conversions ≡ some r
ended_job_stays id r time reached here found finished = found
ended_job_stays id r time reached (next later step) found finished =
    Step-keeps id r time step (Reach-IsWellFormed (reached-IsWellFormed reached) later)
      (ended_job_stays id r time reached later found finished) finished

-- the code of the reply for an id with this task and this job
abbrev pub code_of : Option DatasetConfig → Option ConvertTableResponse → ℕ
code_of task none = 404
code_of none (some r) = 200
code_of (some cfg) (some r) = 202

status_reply-code_of :
    (id : String) (task : Option DatasetConfig) (found : Option ConvertTableResponse)
    → Agrees id task found
    → (status_reply found).status_code ≡ code_of task found
unfolding status_reply
status_reply-code_of id task none h = refl
status_reply-code_of id none (some r) (_, (inl e, _)) = rw (e) refl
status_reply-code_of id none (some r) (_, (inr e, _)) = rw (e) refl
status_reply-code_of id (some cfg) (some r) (_, is_running, _) = rw (is_running) refl

job_of-append : (id : String) → job_of ("/v1/conversion/table/" ++ id) ≡ id
unfolding job_of
job_of-append id = rw (cut_prefix-append "/v1/conversion/table/" id, job_of) refl

abbrev pub status_request : String → HttpRequest
status_request id = record {
  method = "GET";
  path = "/v1/conversion/table/" ++ id;
  prefer = "";
  content = "";
}

-- The status of an id, in every state that the server can reach, is 404 where no job has it, 202
-- while the task of its job is there, and 200 from the end of the task on.
pub handle_get_conversion_status-code_of :
    (server : Server) (id : String)
    → Reach new_server server
    → str_eq id "" ≡ false
    → (handle_get_conversion_status (status_request id) server).status_code
      ≡ code_of (Dict.lookup id server.tasks) (Dict.lookup id server.conversions)
unfolding handle_get_conversion_status
handle_get_conversion_status-code_of server id reached there =
    rw (job_of-append id, there, handle_get_conversion_status)
      (status_reply-code_of id (Dict.lookup id server.tasks) (Dict.lookup id server.conversions)
        (reached-IsWellFormed reached id))
