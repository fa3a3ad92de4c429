-- ===== src/KfConfig/Secrets/Laws.antt =====
-- Reading a secret after it was set.
use opendatahub_operator.Prelude.{
  String, ◌≡◌, refl, some, List, [], ◌∷◌, find, ◌==◌, if◌then◌else◌, arith,
}
use opendatahub_operator.Result.{ok}
use opendatahub_operator.KfConfig.{KfConfig, Secret}
use opendatahub_operator.KfConfig.Secrets.{
  put_secret, set_secret, get_secret, get_secret_source, secret_value,
}

find-put_secret :
    (new : Secret) (n : String) (secrets : List Secret)
    → find (λ s. s.name == n) (put_secret new secrets)
      ≡ (if new.name == n then some new else find (λ s. s.name == n) secrets)
unfolding put_secret
find-put_secret new n [] = refl
find-put_secret new n (s ∷ secrets) = ground (arith, find-put_secret new n secrets)

-- After `SetSecret`, `GetSecret` and `GetSecretSource` of that secret's name give the value and the
-- source of the new secret, and of every other name what they gave before.
pub get_secret-set_secret :
    (getenv : String → String) (new : Secret) (c : KfConfig) (n : String)
    → (get_secret getenv (set_secret new c) n ≡ (
        if new.name == n then secret_value getenv n new.secret_source else get_secret getenv c n))
      × (get_secret_source (set_secret new c) n
          ≡ (if new.name == n then ok new.secret_source else get_secret_source c n))
unfolding get_secret get_secret_source set_secret
get_secret-set_secret getenv new c n = (
  ground (arith, find-put_secret new n c.spec.secrets),
  ground (arith, find-put_secret new n c.spec.secrets),
)
