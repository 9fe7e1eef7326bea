-- ===== src/Examples/Jobs.antt =====
-- A server at which one job is submitted and fails.
use xtable_go.Prelude.{[], ◌∷◌, some, none, ◌≡◌, refl}
use xtable_go.Prelude.Int.{pos}
use xtable_go.Prelude.Results.{err}
use xtable_go.Prelude.Dict
use xtable_go.Daemon.{
  Server, ConvertTableResponse, submit, record_outcome, submitted_response, ended_response,
  handle_get_conversion_status, failed,
}
use xtable_go.Daemon.Steps.{
  Step, Reach, here, next, submitted, ended, new_server, reached-IsWellFormed, IsWellFormed,
}
use xtable_go.Daemon.Jobs.{
  ended_job_stays, handle_get_conversion_status-code_of, status_request, code_of,
}
use xtable_go.Config.{DatasetConfig}

abbrev job : DatasetConfig
job = record {
  source_format = "HUDI";
  target_formats = "DELTA" ∷ [];
  table_base_path = "/data/events";
  table_data_path = "";
  table_name = "events";
  namespace = "";
  sync_mode = "";
  storage = none;
  catalogs = [];
  source_catalog = none;
  vended_credentials = none;
}

abbrev busy : Server
busy = submit "a1" (pos 5) job new_server

abbrev idle : Server
idle = record_outcome "a1" (pos 9) (err "no such table") busy

abbrev lost : ConvertTableResponse
lost = record {
  conversion_id = "a1";
  status = failed;
  submitted_at = pos 5;
  finished_at = some (pos 9);
  results = [];
  error = "no such table";
}

busy-Reach : Reach new_server busy
unfolding Dict.lookup submit
busy-Reach = next here (submitted new_server "a1" (pos 5) job refl)

idle-Step : Step busy idle
unfolding Dict.lookup Dict.insert submit
idle-Step = ended busy "a1" (pos 9) job (err "no such table") refl

idle-Reach : Reach new_server idle
idle-Reach = next busy-Reach idle-Step

-- another job is submitted after the first has failed
later-Reach : Reach idle (submit "b2" (pos 11) job idle)
unfolding Dict.lookup Dict.insert submit record_outcome submitted_response ended_response
later-Reach = next here (submitted idle "b2" (pos 11) job refl)

idle_lost : Dict.lookup "a1" idle.conversions ≡ some lost
unfolding Dict.lookup Dict.insert submit record_outcome submitted_response ended_response
idle_lost = refl

reached-IsWellFormed_example : IsWellFormed idle
reached-IsWellFormed_example = reached-IsWellFormed idle-Reach

ended_job_stays_example : Dict.lookup "a1" (submit "b2" (pos 11) job idle).conversions ≡ some lost
ended_job_stays_example = ended_job_stays "a1" lost (pos 9) idle-Reach later-Reach idle_lost refl

handle_get_conversion_status-code_of_example :
    (handle_get_conversion_status (status_request "a1") busy).status_code
    ≡ code_of (Dict.lookup "a1" busy.tasks) (Dict.lookup "a1" busy.conversions)
handle_get_conversion_status-code_of_example =
    handle_get_conversion_status-code_of busy "a1" busy-Reach refl
