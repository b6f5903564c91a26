-- ===== src/Store/Config.antt =====
-- Service types and the stored service configuration (packages/db/src/schema.ts). The union of
-- configurations is one record: a member that a variant lacks is `none`.
use kubwave.Common.{ℕ, String, Bool, true, false, Option, List}

pub data ServiceType : Type 0 where
  docker_image dockerfile public_repo private_repo github_repo gitea_repo : ServiceType
  postgres mysql mariadb mongodb : ServiceType

pub record KeyValue : Type 0 where
  pub key : String
  pub value : String

pub record ServiceDomain : Type 0 where
  pub host : String
  pub port : ℕ

pub record ServicePortExposure : Type 0 where
  pub container_port : ℕ
  pub public_port : ℕ

pub record ServiceConfigFile : Type 0 where
  pub path : String
  pub content : String

-- The members that the modelled code reads or writes; it copies the others along.
pub record ServiceConfig : Type 0 where
  pub container_port : Option ℕ
  pub default_domain_enabled : Option Bool
  pub env : List KeyValue
  pub secrets : Option (List KeyValue)
  pub domains : List ServiceDomain
  pub config_files : Option (List ServiceConfigFile)
  pub exposed_ports : Option (List ServicePortExposure)
  pub repo_url : Option String
  pub branch : Option String
  pub commit : Option String
  pub digest : Option String
  pub root_directory : Option String
  pub watch_paths : Option (List String)
  pub watch_entire_repo : Option Bool
  pub installation_id : Option String

-- BUILD_SERVICE_TYPES of cancel.ts
abbrev pub is_build_type : ServiceType → Bool
is_build_type dockerfile = true
is_build_type public_repo = true
is_build_type private_repo = true
is_build_type github_repo = true
is_build_type gitea_repo = true
is_build_type _ = false
