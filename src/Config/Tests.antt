-- ===== src/Config/Tests.antt =====
-- lsengine/internal/config/config.go: the defaults on small inputs, and the theorems applied.
use lsengine_js.Base.{
  ◌≡◌, ◌≢◌, refl, some, [], ◌∷◌, true, false, arith, bytes, has_prefix, pos, negsuc,
}
use lsengine_js.Config.{
  AppConfig, complete, load_app_config, with_colon, probed_port, served_port, probe_port,
  IsComplete, load_app_config-IsComplete, complete_idem, probed-ne-served,
}

abbrev sparse : AppConfig
sparse = record {
  version = [];
  port = bytes "80";
  entry_point = [];
  main = bytes "app.html";
  server = [];
  max_vm = negsuc 0;
  max_ws = pos 5;
  keep_alive = pos 0;
  max_upload_size = pos 9;
  rate_limit = pos 3;
}

abbrev filled : AppConfig
filled = record {
  version = bytes "1.0.0";
  port = bytes ":80";
  entry_point = bytes "app.html";
  main = bytes "app.html";
  server = bytes "server.js";
  max_vm = pos 500;
  max_ws = pos 5;
  keep_alive = pos 60;
  max_upload_size = pos 9;
  rate_limit = pos 3;
}

filled_runs :
    (load_app_config (some (λ c. some sparse)) ≡ some filled)
    × (probe_port 3 (false ∷ true ∷ []) ≡ (2, true))
unfolding load_app_config complete with_colon has_prefix probe_port
filled_runs = (refl, refl)

load_app_config-IsComplete_example : IsComplete filled
load_app_config-IsComplete_example =
    load_app_config-IsComplete (some (λ c. some sparse)) filled filled_runs.0

complete_idem_example : complete filled ≡ filled
complete_idem_example = complete_idem filled load_app_config-IsComplete_example

probed-ne-served_example : probed_port filled (bytes "8080") ≢ served_port filled
unfolding with_colon has_prefix
probed-ne-served_example = probed-ne-served filled (bytes "8080") (ground arith) (ground arith)
