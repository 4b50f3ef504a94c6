-- ===== src/Kube/Rbac.antt =====
-- Of k8s.io/api, the fields that the operator reads or writes of a service account, and of a role and
-- its binding in rbac/v1.
use pos_data_showcase.Prelude.{String, Option, List}
use pos_data_showcase.Prelude.Dict.{Dict}
use pos_data_showcase.Kube.Objects.{OwnerReference}

pub record ServiceAccount : Type 0 where
  pub name : String
  pub namespace : String
  pub labels : Dict String
  pub annotations : Dict String
  pub controller : Option OwnerReference

pub record PolicyRule : Type 0 where
  pub api_groups : List String
  pub resources : List String
  pub verbs : List String

pub record Role : Type 0 where
  pub name : String
  pub namespace : String
  pub labels : Dict String
  pub annotations : Dict String
  pub rules : List PolicyRule
  pub controller : Option OwnerReference

pub record RoleRef : Type 0 where
  pub api_group : String
  pub kind : String
  pub name : String

pub record Subject : Type 0 where
  pub kind : String
  pub name : String

pub record RoleBinding : Type 0 where
  pub name : String
  pub namespace : String
  pub labels : Dict String
  pub annotations : Dict String
  pub role_ref : RoleRef
  pub subjects : List Subject
  pub controller : Option OwnerReference
