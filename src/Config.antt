-- ===== src/Config.antt =====
-- crates/sa-core-types/src/config.rs: the operator's configuration. The TOML of the file is read by a
-- library; absent keys have these defaults.
use secretagent_rust_agent.Base.{String, List, Option, none, some, unwrap_or, ◌==◌, if◌then◌else◌}

pub record UpdateConfig : Type 0 where
  pub base_url : Option String

pub record OpToolConfig : Type 0 where
  pub name : String
  pub cmd : List String
  pub description : Option String

pub record ToolsConfig : Type 0 where
  pub search_url : Option String
  pub search_key_ref : Option String
  pub default_key_ref : Option String
  pub op_tools : List OpToolConfig

pub record VoiceConfig : Type 0 where
  pub stt_cmd : List String
  pub tts_cmd : List String
  pub allow_tools : List String

pub record ExecConfig : Type 0 where
  pub backend : String
  pub image : Option String
  pub host : Option String

abbrev pub exec_config_default : ExecConfig
exec_config_default = record { backend = "local"; image = none; host = none }

pub record McpServerConfig : Type 0 where
  pub name : String
  pub command : String
  pub args : List String
  pub allow_tools : List String

pub record RoleModels : Type 0 where
  pub plan : Option String
  pub execute : Option String
  pub summarize : Option String

pub record ProviderConfig : Type 0 where
  pub kind : String
  pub base_url : String
  pub model : String
  pub api_key_ref : Option String
  pub models : RoleModels

abbrev pub provider_config_default : ProviderConfig
provider_config_default = record {
  kind = "openai";
  base_url = "http://localhost:11434/v1";
  model = "llama3.2";
  api_key_ref = none;
  models = record { plan = none; execute = none; summarize = none };
}

unfoldable pub model_for : ProviderConfig → String → String
model_for c role =
    let chosen =
      if role == "plan"
      then c.models.plan
      else if role == "execute"
      then c.models.execute
      else if role == "summarize"
      then c.models.summarize
      else none in
    unwrap_or chosen c.model

-- The places of the program's files. `env` is the environment, `project` the directory of the platform,
-- if it has one, and `join` is `Path::join`.
module _ {Place : Type 0} (from : String → Place) (join : Place → String → Place)
    (env : String → Option String) where
  abbrev pub dir_or : Option String → Option Place → Place
  dir_or (some d) project = from d
  dir_or none project = unwrap_or project (from ".secretagent")

  unfoldable pub data_dir : Option Place → Place
  data_dir project = dir_or (env "SECRETAGENT_DATA_DIR") project

  unfoldable pub config_dir : Option Place → Place
  config_dir project = dir_or (env "SECRETAGENT_CONFIG_DIR") project

  unfoldable pub identity_path : Option Place → Place
  unfolding data_dir
  identity_path project = join (data_dir project) "identity.age"

  unfoldable pub store_path : Option Place → Place
  unfolding data_dir
  store_path project = join (data_dir project) "store.age"

  unfoldable pub db_path : Option Place → Place
  unfolding data_dir
  db_path project = join (data_dir project) "memory.db"

  unfoldable pub audit_path : Option Place → Place
  unfolding data_dir
  audit_path project = join (data_dir project) "audit.jsonl"

  unfoldable pub soul_path : Option Place → Place
  unfolding config_dir
  soul_path project = join (config_dir project) "SOUL.md"

  unfoldable pub context_path : Option Place → Place
  unfolding config_dir
  context_path project = join (config_dir project) "context.md"
