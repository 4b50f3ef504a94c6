-- ===== src/Resource/Vault.antt =====
-- internal/resource/statefulset.go: the annotations by which the Vault agent injects the default user
-- and the TLS certificate in the pods.
pub mod HostNames
use pos_data_showcase.Prelude.{
  ℕ, zero, suc, ◌+◌, String, ◌<>◌, Option, none, some, [], ◌∷◌, if◌then◌else◌,
}
use pos_data_showcase.Prelude.Decimal.{decimal}
use pos_data_showcase.Prelude.Dict.{Dict, insert}
use pos_data_showcase.Prelude.Strings.{trim_suffix, trim_prefix}
use pos_data_showcase.Metadata.{reconcile_annotations}
use pos_data_showcase.Cluster.{
  RabbitmqCluster, VaultSpec, child_resource_name, is_set, service_sub_domain,
  default_user_secret_enabled, vault_spec_tls_enabled,
}

unfoldable pub generate_vault_tls_template : String → String → VaultSpec → String → String
generate_vault_tls_template common_name alt_names vault tls_attribute =
    "\n{{- with secret \""
    <> (vault.tls.pki_issuer_path
        <> ("\" \"common_name="
            <> (common_name
                <> ("\" \"alt_names="
                    <> (alt_names
                        <> ("\" \"ip_sans="
                            <> (vault.tls.ip_sans
                                <> ("\" -}}\n{{ .Data."
                                    <> (tls_attribute <> " }}\n{{- end }}")))))))))

-- `pointer.Int32PtrDerefOr(replicas, 1)`
abbrev pub replicas_or_one : Option ℕ → ℕ
replicas_or_one none = 1
replicas_or_one (some n) = n

-- The name of the i-th pod in the headless service.
unfoldable pub pod_host_name : RabbitmqCluster → ℕ → String
pod_host_name cluster i =
    child_resource_name cluster "server"
    <> ("-"
        <> (decimal i
            <> ("." <> (child_resource_name cluster "nodes" <> ("." <> cluster.namespace)))))

-- The loop of `podHostNames` from `i` on, for `n` pods.
unfoldable pub add_host_names : RabbitmqCluster → ℕ → ℕ → String → String
add_host_names cluster i zero alt_names = alt_names
add_host_names cluster i (suc n) alt_names =
    add_host_names cluster (i + 1) n (alt_names <> ("," <> pod_host_name cluster i))

unfoldable pub pod_host_names : RabbitmqCluster → String
pod_host_names cluster =
    trim_prefix (add_host_names cluster 0 (replicas_or_one cluster.spec.replicas) "") ","

-- The three annotations of an injected file: where, from which secret, by which template.
unfoldable pub inject : String → String → String → String → Dict String → Dict String
inject file dir secret template annotations =
    insert ("vault.hashicorp.com/agent-inject-template-" <> file) template (
      insert ("vault.hashicorp.com/agent-inject-secret-" <> file) secret
        (insert ("vault.hashicorp.com/secret-volume-path-" <> file) dir annotations))

unfoldable pub default_user_template : VaultSpec → String
default_user_template vault =
    "\n{{- with secret \""
    <> (vault.default_user_path
        <> "\" -}}\ndefault_user = {{ .Data.data.username }}\ndefault_pass = {{ .Data.data.password }}\n{{- end }}")

unfoldable pub add_default_user : VaultSpec → Dict String → Dict String
add_default_user vault annotations =
    insert "vault.hashicorp.com/agent-inject-perms-11-default_user.conf" "0640" (
      inject "11-default_user.conf" "/etc/rabbitmq/conf.d" vault.default_user_path
        (default_user_template vault) annotations)

unfoldable pub vault_common_name : RabbitmqCluster → VaultSpec → String
vault_common_name cluster vault =
    if is_set vault.tls.common_name then vault.tls.common_name else service_sub_domain cluster

unfoldable pub vault_alt_names : RabbitmqCluster → VaultSpec → String
vault_alt_names cluster vault =
    if is_set vault.tls.alt_names
    then pod_host_names cluster <> ("," <> vault.tls.alt_names)
    else pod_host_names cluster

-- One file of the certificate, of which the template reads the attribute.
unfoldable pub add_tls_file :
    RabbitmqCluster → VaultSpec → String → String → Dict String → Dict String
add_tls_file cluster vault file attribute annotations =
    inject file (trim_suffix "/etc/rabbitmq-tls/" "/") vault.tls.pki_issuer_path
      (generate_vault_tls_template (vault_common_name cluster vault) (vault_alt_names cluster vault)
        vault attribute)
      annotations

unfoldable pub add_tls : RabbitmqCluster → VaultSpec → Dict String → Dict String
add_tls cluster vault annotations = add_tls_file cluster vault "ca.crt" "issuing_ca" (
    add_tls_file cluster vault "tls.key" "private_key"
      (add_tls_file cluster vault "tls.crt" "certificate" annotations))

-- `vaultAnnotations`
unfoldable pub vault_annotations : RabbitmqCluster → VaultSpec → Dict String
vault_annotations cluster vault =
    let common =
      ("vault.hashicorp.com/agent-inject", "true")
      ∷ ("vault.hashicorp.com/agent-init-first", "true")
      ∷ ("vault.hashicorp.com/role", vault.role)
      ∷ [] in
    let with_user =
      if default_user_secret_enabled vault then add_default_user vault common else common in
    if vault_spec_tls_enabled vault then add_tls cluster vault with_user else with_user

unfoldable pub append_vault_annotations : Dict String → RabbitmqCluster → VaultSpec → Dict String
append_vault_annotations current cluster vault =
    reconcile_annotations current (vault_annotations cluster vault ∷ vault.annotations ∷ [])
