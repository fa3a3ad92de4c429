-- ===== src/KfConfig/Secrets.antt =====
-- pkg/kfconfig/types.go: the secrets of a configuration.
pub mod Laws
use opendatahub_operator.Prelude.{
  String, ◌<>◌, Bool, true, false, Option, none, some, List, [], ◌∷◌, find, ◌==◌, if◌then◌else◌,
}
use opendatahub_operator.Errors.{Error, text, secret_not_found}
use opendatahub_operator.Result.{Result, ok, err, panics}
use opendatahub_operator.KfConfig.{KfConfig, Secret, SecretSource}

-- The sources are tried in turn; `getenv` is `os.Getenv`.
from_env : (String → String) → String → Option String → Result String
from_env getenv name (some variable) = ok (getenv variable)
from_env getenv name none = err (text ("No secret source provided for secret " <> name))

from_hash : (String → String) → String → SecretSource → Option String → Result String
unfolding from_env
from_hash getenv name s (some value) = ok value
from_hash getenv name s none = from_env getenv name s.env_source

from_source : (String → String) → String → SecretSource → Option String → Result String
unfolding from_hash
from_source getenv name s (some value) = ok value
from_source getenv name s none = from_hash getenv name s s.hashed_source

pub secret_value : (String → String) → String → Option SecretSource → Result String
unfolding from_source
secret_value getenv name none = panics "nil pointer dereference"
secret_value getenv name (some s) = from_source getenv name s s.literal_source

found_secret : (String → String) → String → Option Secret → Result String
unfolding secret_value
found_secret getenv name none = err (secret_not_found name)
found_secret getenv name (some s) = secret_value getenv name s.secret_source

-- `GetSecret`
unfoldable pub get_secret : (String → String) → KfConfig → String → Result String
unfolding found_secret
get_secret getenv c name = found_secret getenv name (find (λ s. s.name == name) c.spec.secrets)

source_of : String → Option Secret → Result (Option SecretSource)
source_of name none = err (secret_not_found name)
source_of name (some s) = ok s.secret_source

-- `GetSecretSource`
unfoldable pub get_secret_source : KfConfig → String → Result (Option SecretSource)
unfolding source_of
get_secret_source c name = source_of name (find (λ s. s.name == name) c.spec.secrets)

-- The loop of `SetSecret`.
unfoldable pub put_secret : Secret → List Secret → List Secret
put_secret new [] = new ∷ []
put_secret new (s ∷ secrets) =
    if s.name == new.name then new ∷ secrets else s ∷ put_secret new secrets

unfoldable pub set_secret : Secret → KfConfig → KfConfig
unfolding put_secret
set_secret new c = record c { spec = record c.spec { secrets = put_secret new c.spec.secrets } }

-- `IsSecretNotFound` and `IsAppNotFound`
unfoldable pub is_secret_not_found : Error → Bool
is_secret_not_found (secret_not_found _) = true
is_secret_not_found _ = false
