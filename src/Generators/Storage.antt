-- ===== src/Generators/Storage.antt =====
-- internal/controller/generators/pvc.go, and `GenerateOrchardPVC`.
use cashu_operator.Generators.Names.{
  enabled_orchard, orchard_pvc_name, component_labels, orchard_labels,
}
use cashu_operator.Controller.Env.{Result, ok, pvc}
use cashu_operator.Generators.Manifest.{OwnerError, Labels, PvcManifest, owned_some}
use cashu_operator.Api.{CashuMint, StorageConfig, default_storage_size}
use cashu_operator.Common.{
  Option, String, some, or_text, none, if◌then◌else◌, not, ◌==◌, ◌&&◌, ◌<>◌,
}

abbrev storage_size : Option StorageConfig → String
storage_size none = default_storage_size
storage_size (some c) = or_text c.size default_storage_size

abbrev storage_class : Option StorageConfig → Option String
storage_class none = none
storage_class (some c) = c.storage_class_name

-- The claim of a name, with its labels.
unfoldable pub pvc_manifest : CashuMint → String → Labels → Option StorageConfig → PvcManifest
pvc_manifest m name labels c = record {
  meta = record {
    name = name;
    namespace = m.metadata.namespace;
    labels = labels;
    annotations = none;
    owner = some m.metadata.name;
  };
  storage = storage_size c;
  storage_class_name = storage_class c;
}

-- `GeneratePVC`
unfoldable pub generate_pvc : OwnerError → CashuMint → Result (Option PvcManifest)
generate_pvc owner_error m =
    if not (m.spec.database.engine == "sqlite") && not (m.spec.database.engine == "redb")
    then ok none
    else owned_some owner_error pvc m (
        pvc_manifest m (m.metadata.name <> "-data") (component_labels "cashu-mint" "storage" m)
          m.spec.storage)

-- `GenerateOrchardPVC`
unfoldable pub generate_orchard_pvc : OwnerError → CashuMint → Result (Option PvcManifest)
generate_orchard_pvc owner_error m = elim (enabled_orchard m.spec.orchard) [
  | none ↦ ok none
  | some o ↦
      owned_some owner_error pvc m
        (pvc_manifest m (orchard_pvc_name m) (orchard_labels m) o.storage)
]
