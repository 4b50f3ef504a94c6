-- ===== src/Resource/Ini.antt =====
-- What the operator calls of the package gopkg.in/ini.v1, over files of a type `F`: only the default
-- section is used. `load` reads a text, `append` reads one more over a file.
use pos_data_showcase.Prelude.{String, [], ◌∷◌}
use pos_data_showcase.Prelude.Dict.{Dict}
use pos_data_showcase.Kube.Outcome.{Outcome, returned, ◌>>=◌, or_failed}
use pos_data_showcase.Kube.Exec.{Result}

pub record IniPackage (F : Type 0) : Type 0 where
  pub empty : F
  pub load : String → Result F
  pub append : String → F → Result F
  pub new_key : String → String → F → Result F
  pub write_to : F → Result String

-- Calls of `NewKey`, each of whose errors is returned.
unfoldable pub new_keys : {F : Type 0} → IniPackage F → Dict String → F → Outcome F
new_keys ini [] file = returned file
new_keys ini ((k, v) ∷ rest) file = do
  next ← or_failed (λ e. e) (ini.new_key k v file)
  new_keys ini rest next
