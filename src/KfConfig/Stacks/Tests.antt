-- ===== src/KfConfig/Stacks/Tests.antt =====
-- A parameter of an application of a stack, on a disk in memory.
use opendatahub_operator.Prelude.{
  String, ◌≡◌, ◌≢◌, refl, Option, none, some, [], ◌∷◌, inl, string_dec, ◌==◌, if◌then◌else◌,
}
use opendatahub_operator.Errors.{text}
use opendatahub_operator.Result.{ok, err}
use opendatahub_operator.Strings.{join}
use opendatahub_operator.Maps.{lookup}
use opendatahub_operator.KfConfig.Caches.{directory}
use opendatahub_operator.KfConfig.Stacks.{
  Kustomization, ConfigMap, Store, kustomization_file, config_map_path,
  set_application_parameter_in_config_map,
}
use opendatahub_operator.KfConfig.Stacks.Written.{read_of, IsDurable, patched, set_in_config_map}

-- The bytes of a file are what was written to it.
data Bytes : Type 0 where
  of_kustomization : Kustomization → Bytes
  of_config_map : ConfigMap → Bytes

abbrev World : Type 0
World = String → Option Bytes

abbrev put : String → Bytes → World → World
put f s w g = if f == g then some s else w g

abbrev disk : Store World Bytes
disk = record {
  path_join = join "/";
  stat = λ f w. (ok directory, w);
  mkdir_all = λ f w. (ok tt, w);
  read_file = λ f w. (ok (read_of (w f)), w);
  write_file = λ f s w. (ok tt, put f s w);
  unmarshal_kustomization =
      λ s. elim s [ of_kustomization k ↦ ok k | of_config_map c ↦ err (text "no kustomization") ];
  marshal_kustomization = λ k. ok (of_kustomization k);
  unmarshal_config_map =
      λ s d. elim s [ of_kustomization k ↦ err (text "no config map") | of_config_map c ↦ ok c ];
  marshal_config_map = λ c. ok (of_config_map c);
}

disk-IsDurable : IsDurable disk (λ w f. w f) put of_kustomization of_config_map
disk-IsDurable = record {
  read = λ f w. refl;
  write = λ f s w. refl;
  get-put = λ f g s w. refl;
  marshal_kustomization = λ k. refl;
  unmarshal_kustomization = λ k. refl;
  marshal_config_map = λ c. refl;
  unmarshal_config_map = λ c d. refl;
}

abbrev dex : ConfigMap
dex = record { name = "dex-config"; entries = ("client", "odh") ∷ ("port", "80") ∷ [] }

abbrev others : Kustomization
others = record { patches_strategic_merge = "istio-config.yaml" ∷ []; others = "" }

abbrev world : World
world =
    put "kustomize/dex/kustomization.yaml" (of_kustomization others)
      (put "kustomize/dex/dex-config.yaml" (of_config_map dex) (λ f. none))

differ : kustomization_file disk "kustomize/dex" ≢ config_map_path disk "kustomize/dex" "dex"
unfolding join
differ e = cc

-- There is a config map, and a kustomization with another patch.
set_in_config_map_example :
    (w' : World) × (c' : ConfigMap) × (set_application_parameter_in_config_map disk "kustomize/dex"
        "dex" "port" "443" world
      ≡ (ok tt, w'))
    × (w' (config_map_path disk "kustomize/dex" "dex") ≡ some (of_config_map c'))
    × ((q : String)
        → lookup q c'.entries ≡ (if "port" == q then some "443" else lookup q dex.entries))
    × (w' (kustomization_file disk "kustomize/dex")
        ≡ some (of_kustomization (patched others "dex-config.yaml")))
unfolding join string_dec
set_in_config_map_example =
    set_in_config_map disk (λ w f. w f) put of_kustomization of_config_map disk-IsDurable
      "kustomize/dex" "dex" "port" "443" world refl differ others (inl refl) dex (inl refl)
