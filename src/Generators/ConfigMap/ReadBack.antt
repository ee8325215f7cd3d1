-- ===== src/Generators/ConfigMap/ReadBack.antt =====
-- The port that the mint of a pod reads out of its variables and out of its config.toml, and the
-- port that its container opens, which deployment.go and configmap.go of
-- internal/controller/generators write.
use cashu_operator.Generators.Names.{listen_port}
use cashu_operator.Generators.Deployment.Containers.{mint_container, mint_ports}
use cashu_operator.Generators.Deployment.Env.{generate_environment_variables, mint_core_env_vars}
use cashu_operator.Generators.Manifest.{ContainerPort}
use cashu_operator.Generators.ConfigMap.{config_tables}
use cashu_operator.Common.Reading.{read_int, read_int-int_text}
use cashu_operator.Common.Int.{ℤ}
use cashu_operator.Api.{CashuMint}
use cashu_operator.Common.{
  List, Option, none, some, through, String, ◌≡◌, ap, sym, ◌∙◌, [], ◌∷◌, if◌then◌else◌, ◌==◌,
}
use cashu_operator.Generators.ConfigMap.Entries.{
  env_value, plain_text, config_value, generate_environment_variables-config_tables,
}

-- The number of the first port of a name.
unfoldable pub open_port : String → List ContainerPort → Option ℤ
open_port name [] = none
open_port name (p ∷ l) = if p.name == name then some p.port else open_port name l

-- The variable CDK_MINTD_LISTEN_PORT of the mint's container and the entry of config.toml that sets
-- the port, read as decimal numbers, give the port that this container opens under the name "api",
-- for every mint and password.
pub read_int-mint_container :
    (m : CashuMint) (password : String)
    → (through read_int (env_value "CDK_MINTD_LISTEN_PORT" (mint_container m).env)
        ≡ open_port "api" (mint_container m).ports)
      × (through read_int
            (through plain_text (config_value (config_tables m password) "info" "listen_port"))
          ≡ open_port "api" (mint_container m).ports)
unfolding generate_environment_variables mint_core_env_vars env_value through mint_container
    mint_ports open_port
read_int-mint_container m password =
    let by_variable : through read_int
          (env_value "CDK_MINTD_LISTEN_PORT" (generate_environment_variables m))
        ≡ some (listen_port m.spec) =
      ap (λ z. some z) (read_int-int_text (listen_port m.spec)) in
    (
      by_variable,
      ap (through read_int) (sym (generate_environment_variables-config_tables m password).2)
          ∙ by_variable,
    )
