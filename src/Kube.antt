-- ===== src/Kube.antt =====
-- What the operator sees of Kubernetes: the objects that it reads and writes, the errors that the API
-- gives, and calls that may fail.
pub mod Pods
pub mod Outcome
pub mod Objects
pub mod Error
pub mod Exec
pub mod Rbac
pub mod Services
