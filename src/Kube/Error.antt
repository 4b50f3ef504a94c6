-- ===== src/Kube/Error.antt =====
-- Go's `error`: what the API server answers (k8s.io/apimachinery/pkg/api/errors), what the operator
-- makes by `errors.New`, and either wrapped by `fmt.Errorf("…: %w", err)`. A nil error is no `Error`.
use pos_data_showcase.Prelude.{String, Bool, true, false, Option, none, some}

-- metav1.StatusReason, as far as the operator asks for it.
pub data Reason : Type 0 where
  not_found conflict bad_request other_reason : Reason

pub data Error : Type 0 where
  api : Reason → String → Error
  plain : String → Error
  wrapped : String → Error → Error
  -- `disableNonTLSConfigErr`, which is told apart by identity
  disable_non_tls_config : Error

-- `errors.As` finds the status of the API under every wrapping.
unfoldable pub reason_for_error : Error → Option Reason
reason_for_error (api reason _) = some reason
reason_for_error (plain _) = none
reason_for_error (wrapped _ e) = reason_for_error e
reason_for_error disable_non_tls_config = none

abbrev pub reason_is_not_found : Option Reason → Bool
reason_is_not_found (some not_found) = true
reason_is_not_found _ = false

abbrev pub reason_is_conflict : Option Reason → Bool
reason_is_conflict (some conflict) = true
reason_is_conflict _ = false

unfoldable pub is_not_found : Error → Bool
unfolding reason_for_error
is_not_found e = reason_is_not_found (reason_for_error e)

unfoldable pub is_conflict : Error → Bool
unfolding reason_for_error
is_conflict e = reason_is_conflict (reason_for_error e)
