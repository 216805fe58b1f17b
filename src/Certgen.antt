-- ===== src/Certgen.antt =====
-- internal/certgen/provisioner.go: the provisioner of the webhook server's certificate. Its parts are
-- the modules below. Logging is left out.
pub mod Store
pub mod Generate
pub mod Valid
pub mod Provision
pub mod Steps
pub mod Provisioned
pub mod Parts
pub mod Lifetime
pub mod Ready
pub mod Idle
pub mod Stale
pub mod Race
pub mod Owned
pub mod Lasting
