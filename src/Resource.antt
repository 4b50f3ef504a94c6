-- ===== src/Resource.antt =====
-- internal/resource: what the operator builds for a cluster.
pub mod ServicePorts
pub mod ClientService
pub mod Ini
pub mod ContainerPorts
pub mod Plugins
pub mod Headroom
pub mod ServerConfig
pub mod DefaultUser
pub mod Builders
pub mod Vault
pub mod Volumes
pub mod Order
pub mod PodPatch
pub mod StatefulSets
pub mod Containers
pub mod PodTemplate
pub mod Accounts
pub mod ErlangCookie
pub mod HeadlessService
