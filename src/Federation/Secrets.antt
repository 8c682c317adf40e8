-- ===== src/Federation/Secrets.antt =====
-- packages/nexcraft/nexcraft/connection/management.py: the resolution of secret references. The
-- environment is a lookup by name; `json.loads` with the check that it gave an object and the
-- conversion of its items to texts is a parameter.
use nexcraft.Base.{String, [], ok}
use nexcraft.Base.Dict.{Dict}
use nexcraft.Base.Exec.{Exec}

-- The protocol `SecretResolver`: the reference, the source id and the tenant id.
pub record SecretResolver (W : Type 0) : Type 0 where
  pub resolve : String → String → String → Exec W (Dict String)

-- NullSecretResolver
abbrev pub null_resolver : {W : Type 0} → SecretResolver W
null_resolver = record { resolve = λ secret_ref source_id tenant_id w. (ok [], w) }
