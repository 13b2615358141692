-- ===== src/Config.antt =====
-- lsengine/internal/config/config.go and lsengine/cmd/main.go: the settings that the server reads, the
-- defaults of `LoadAppConfig`, and the choice of the port. Reading app.json is a parameter: its text
-- decoded over the first defaults, or no file.
mod Tests
use mathlib.Core.Option.{some-injective}
use lsengine_js.Base.{
  is_empty, subst, Option-cases, ℕ, zero, suc, ◌+◌, ◌*◌, ◌≤◌, ◌<◌, ◌≡◌, ◌≢◌, refl, ◌⊎◌, inl, inr,
  Bool, true, false, Option, none, some, List, [], ◌∷◌, arith, if◌then◌else◌, ltb, Text, bytes,
  has_prefix, ℤ, pos, negsuc, Bool-cases,
}

-- The fields of `AppConfig` that `LoadAppConfig` completes; the rest passes through it unchanged.
pub record AppConfig : Type 0 where
  pub version : Text
  pub port : Text
  pub entry_point : Text
  pub main : Text
  pub server : Text
  pub max_vm : ℤ
  pub max_ws : ℤ
  pub keep_alive : ℤ
  pub max_upload_size : ℤ
  pub rate_limit : ℤ

abbrev or_text : Text → Text → Text
or_text [] default = default
or_text (c ∷ s) default = c ∷ s

-- `if x <= 0 { x = default }`
abbrev or_positive : ℤ → ℕ → ℤ
or_positive (pos zero) default = pos default
or_positive (pos (suc n)) default = pos (suc n)
or_positive (negsuc n) default = pos default

-- `if !strings.HasPrefix(port, ":") { port = ":" + port }`
pub with_colon : Text → Text
with_colon port = if has_prefix port (bytes ":") then port else b':' ∷ port

-- The end of `LoadAppConfig`.
pub complete : AppConfig → AppConfig
unfolding with_colon
complete c = record {
  version = or_text c.version (bytes "1.0.0");
  port = with_colon (or_text c.port (bytes ":1505"));
  entry_point = or_text c.entry_point (or_text c.main (bytes "index.html"));
  main = c.main;
  server = or_text c.server (bytes "server.js");
  max_vm = or_positive c.max_vm 500;
  max_ws = or_positive c.max_ws 10000;
  keep_alive = or_positive c.keep_alive 60;
  max_upload_size = or_positive c.max_upload_size (10 * 1024 * 1024);
  rate_limit = or_positive c.rate_limit 100;
}

-- What a file that sets nothing is decoded over.
abbrev file_defaults : AppConfig
file_defaults = record {
  version = [];
  port = [];
  entry_point = [];
  main = [];
  server = [];
  max_vm = pos 500;
  max_ws = pos 10000;
  keep_alive = pos 0;
  max_upload_size = pos (10 * 1024 * 1024);
  rate_limit = pos 100;
}

-- The settings where there is no file.
abbrev first_run : AppConfig
first_run = record {
  version = bytes "1.0.0";
  port = bytes ":1505";
  entry_point = bytes "index.html";
  main = bytes "index.html";
  server = bytes "server.js";
  max_vm = pos 500;
  max_ws = pos 10000;
  keep_alive = pos 60;
  max_upload_size = pos (10 * 1024 * 1024);
  rate_limit = pos 100;
}

-- `none` is a file that is no JSON: the program logs it and exits.
pub load_app_config : Option (AppConfig → Option AppConfig) → Option AppConfig
unfolding complete
load_app_config none = some (complete first_run)
load_app_config (some decode) = elim (decode file_defaults) [
  | none ↦ none
  | some c ↦ some (complete c)
]

-- `main`: the port that is tried, which the environment may set
pub probed_port : AppConfig → Text → Text
unfolding with_colon
probed_port c env = if is_empty env then c.port else with_colon env

-- The address that `HttpServer.Start` listens on.
pub served_port : AppConfig → Text
served_port c = c.port

-- the loop of `main` that tries the port: the attempts made, and whether one succeeded
pub probe_port : ℕ → List Bool → ℕ × Bool
probe_port zero tries = (0, false)
probe_port (suc n) [] = (1, false)
probe_port (suc n) (true ∷ tries) = (1, true)
probe_port (suc n) (false ∷ tries) = let (k, done) = probe_port n tries in (suc k, done)

-- Settings that the server can use.
pub record IsComplete (c : AppConfig) : Type 0 where
  pub port_colon : has_prefix c.port (bytes ":") ≡ true
  pub version_set : c.version ≢ []
  pub entry_set : c.entry_point ≢ []
  pub server_set : c.server ≢ []
  pub vm_positive : (n : ℕ) × (c.max_vm ≡ pos (suc n))
  pub ws_positive : (n : ℕ) × (c.max_ws ≡ pos (suc n))
  pub alive_positive : (n : ℕ) × (c.keep_alive ≡ pos (suc n))
  pub upload_positive : (n : ℕ) × (c.max_upload_size ≡ pos (suc n))
  pub rate_positive : (n : ℕ) × (c.rate_limit ≡ pos (suc n))

with_colon-has_prefix : (port : Text) → has_prefix (with_colon port) (bytes ":") ≡ true
unfolding with_colon has_prefix
with_colon-has_prefix port = ground arith

with_colon_idem : (port : Text) → has_prefix port (bytes ":") ≡ true → with_colon port ≡ port
unfolding with_colon
with_colon_idem port h = rw h

port_set : (port : Text) → has_prefix port (bytes ":") ≡ true → port ≢ []
unfolding has_prefix
port_set [] h = ground arith
port_set (c ∷ port) h = ground arith

or_text_set : (s t : Text) → t ≢ [] → or_text s t ≢ []
or_text_set [] t h = h
or_text_set (c ∷ s) t h = ground arith

or_positive_lem : (a : ℤ) (d : ℕ) → (n : ℕ) × (or_positive a (suc d) ≡ pos (suc n))
or_positive_lem (pos zero) d = (d, refl)
or_positive_lem (pos (suc n)) d = (n, refl)
or_positive_lem (negsuc n) d = (d, refl)

complete-IsComplete : (c : AppConfig) → IsComplete (complete c)
unfolding complete
complete-IsComplete c = record {
  port_colon = with_colon-has_prefix (or_text c.port (bytes ":1505"));
  version_set = or_text_set c.version (bytes "1.0.0") (ground arith);
  entry_set = or_text_set c.entry_point _ (or_text_set c.main (bytes "index.html") (ground arith));
  server_set = or_text_set c.server (bytes "server.js") (ground arith);
  vm_positive = or_positive_lem c.max_vm 499;
  ws_positive = or_positive_lem c.max_ws 9999;
  alive_positive = or_positive_lem c.keep_alive 59;
  upload_positive = or_positive_lem c.max_upload_size 10485759;
  rate_positive = or_positive_lem c.rate_limit 99;
}

or_text_set_idem : (s t : Text) → s ≢ [] → or_text s t ≡ s
or_text_set_idem [] t h = absurd (h refl)
or_text_set_idem (c ∷ s) t h = refl

-- Whatever the file holds, the settings that are loaded are complete: the port begins with a colon, the
-- names are set, and each number is above zero.
pub load_app_config-IsComplete :
    (file : Option (AppConfig → Option AppConfig)) (c : AppConfig)
    → load_app_config file ≡ some c
    → IsComplete c
unfolding load_app_config
load_app_config-IsComplete none c h =
    subst IsComplete (some-injective _ _ h) (complete-IsComplete first_run)
load_app_config-IsComplete (some decode) c h = elim (Option-cases (decode file_defaults)) [
  | inl e ↦ absurd (ground arith)
  | inr (d, e) ↦ subst IsComplete (some-injective _ _ (rw e at h)) (complete-IsComplete d)
]

-- Complete settings stay as they are: completing is idempotent.
pub complete_idem : (c : AppConfig) → IsComplete c → complete c ≡ c
unfolding complete
complete_idem c h = ground (
  arith,
  with_colon_idem c.port h.port_colon,
  or_text_set_idem c.port (bytes ":1505") (port_set c.port h.port_colon),
  or_text_set_idem c.version (bytes "1.0.0") h.version_set,
  or_text_set_idem c.entry_point (or_text c.main (bytes "index.html")) h.entry_set,
  or_text_set_idem c.server (bytes "server.js") h.server_set,
)

-- The environment sets the port that is tried and never the one that is served: where it names another
-- port than the settings, the server listens on a port that it has not tried.
pub probed-ne-served :
    (c : AppConfig) (env : Text)
    → env ≢ []
    → with_colon env ≢ c.port
    → probed_port c env ≢ served_port c
unfolding probed_port served_port
probed-ne-served c [] h ne e = h refl
probed-ne-served c (x ∷ env) h ne e = ne e
