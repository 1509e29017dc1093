-- ===== src/Memory/Tests.antt =====
-- crates/sa-memory/src/lib.rs: an upgrade from the first version that ends in its third step.
use secretagent_rust_agent.Base.{◌≡◌, ok, err, nat_eq, if◌then◌else◌, arith}
use secretagent_rust_agent.Memory.Migrations.{Answers, migrate, latest}
use secretagent_rust_agent.Memory.Migrations.Upgraded.{
  IsUpgraded, at_version, undisturbed, migrate-IsUpgraded,
}

abbrev interrupted : Answers
interrupted = record undisturbed { batch = λ v. if nat_eq v 3 then err "disk full" else ok tt }

migrate-IsUpgraded_example :
    IsUpgraded (at_version 1) (migrate interrupted (at_version 1))
    × (migrate undisturbed (migrate interrupted (at_version 1)).1 ≡ (ok tt, at_version latest))
migrate-IsUpgraded_example = migrate-IsUpgraded interrupted 1 (omega arith)
