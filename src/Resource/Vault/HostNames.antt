-- ===== src/Resource/Vault/HostNames.antt =====
-- internal/resource/statefulset.go: the names that `podHostNames` lists.
use pos_data_showcase.Prelude.{ℕ, zero, suc, ◌+◌, String, ◌<>◌, ◌≡◌, refl, ap, ◌∙◌, arith}
use pos_data_showcase.Prelude.Decimal.{decimal}
use pos_data_showcase.Prelude.Strings.{trim_prefix}
use pos_data_showcase.Cluster.{RabbitmqCluster, child_resource_name}
use pos_data_showcase.Resource.Vault.{
  pod_host_name, add_host_names, pod_host_names, replicas_or_one,
}

-- The names of the first `n` pods of a StatefulSet in a service, each behind a comma.
abbrev pub pods_in : String → String → String → ℕ → String
pods_in sts service namespace zero = ""
pods_in sts service namespace (suc n) =
    pods_in sts service namespace n
    <> ("," <> (sts <> ("-" <> (decimal n <> ("." <> (service <> ("." <> namespace)))))))

add_host_names-suc :
    (c : RabbitmqCluster) (i n : ℕ) (t : String)
    → add_host_names c i (suc n) t ≡ add_host_names c i n t <> ("," <> pod_host_name c (i + n))
unfolding add_host_names
add_host_names-suc c i zero t = ap (λ j. t <> ("," <> pod_host_name c j)) (omega arith)
add_host_names-suc c i (suc n) t =
    add_host_names-suc c (i + 1) n (t <> ("," <> pod_host_name c i))
    ∙ ap
        (λ j.
          add_host_names c (i + 1) n (t <> ("," <> pod_host_name c i))
          <> ("," <> pod_host_name c j))
        (omega arith)

add_host_names-eq :
    (c : RabbitmqCluster) (n : ℕ)
    → add_host_names c 0 n ""
      ≡ pods_in (child_resource_name c "server") (child_resource_name c "nodes") c.namespace n
unfolding add_host_names pod_host_name
add_host_names-eq c zero = refl
add_host_names-eq c (suc n) =
    add_host_names-suc c 0 n ""
    ∙ ap (λ t. t <> ("," <> pod_host_name c (0 + n))) (add_host_names-eq c n)
    ∙ ap
        (λ j.
          pods_in (child_resource_name c "server") (child_resource_name c "nodes") c.namespace n
          <> ("," <> pod_host_name c j))
        (omega arith)

pub pod_host_names-eq :
    (c : RabbitmqCluster)
    → pod_host_names c
      ≡ trim_prefix
          (pods_in
            (child_resource_name c "server")
            (child_resource_name c "nodes")
            c.namespace
            (replicas_or_one c.spec.replicas))
          ","
unfolding pod_host_names
pod_host_names-eq c =
    ap (λ t. trim_prefix t ",") (add_host_names-eq c (replicas_or_one c.spec.replicas))
