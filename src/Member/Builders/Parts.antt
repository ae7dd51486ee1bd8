-- ===== src/Member/Builders/Parts.antt =====
-- What the three StatefulSets share: `annotationsMountVolume` of utils.go, and literals.
use elasticell_operator.Base.{
  ℕ, String, Bool, true, Option, none, some, [], ◌∷◌, ℤ, pos, ◌==◌, if◌then◌else◌,
}
use elasticell_operator.Api.Pods.{
  EnvVar, VolumeMount, Volume, config_map, downward_api, ContainerPort, Quantity,
}
use elasticell_operator.Api.Objects.{ClaimTemplate, SetStatus, UpdateStrategy, ServicePort}
use elasticell_operator.Api.Cluster.{CellCluster, MemberSpec, ResourceRequirement}
use elasticell_operator.Label
use elasticell_operator.Label.{instance_label_key}
use elasticell_operator.Effects.{Result, ok, err, failure, bad_quantity, Env}

unfoldable pub annotations_mount : VolumeMount
annotations_mount = record { name = "annotations"; read_only = true; mount_path = "/etc/podinfo" }

unfoldable pub annotations_volume : Volume
annotations_volume = record {
  name = "annotations";
  source = downward_api (record { key = "metadata.annotations"; path = "annotations" } ∷ []);
}

abbrev pub instance_name : CellCluster → String
instance_name cluster = Label.get instance_label_key cluster.labels

abbrev pub mount : String → Bool → String → VolumeMount
mount name read_only path = record { name = name; read_only = read_only; mount_path = path }

abbrev pub config_volume : String → String → String → String → Volume
config_volume name map key path = record {
  name = name;
  source = config_map map (record { key = key; path = path } ∷ []);
}

abbrev pub tcp_port : String → ℕ → ContainerPort
tcp_port name port = record { name = name; container_port = port; protocol = "TCP" }

abbrev pub service_port : String → ℕ → ServicePort
service_port name port = record { name = name; port = port; target_port = port; protocol = "TCP" }

abbrev pub env_value : String → String → EnvVar
env_value name value = record { name = name; value = value; field_path = none }

abbrev pub namespace_env : EnvVar
namespace_env = record { name = "NAMESPACE"; value = ""; field_path = some "metadata.namespace" }

abbrev parsed : Option Quantity → Result Quantity
parsed none = err (failure bad_quantity)
parsed (some q) = ok q

-- The size of the claims: zero without requests, an error where the text does not parse.
abbrev pub storage_size : Env → Option ResourceRequirement → Result Quantity
storage_size env none = ok (pos 0)
storage_size env (some r) = parsed (env.parse_quantity r.storage)

abbrev pub storage_class : Env → MemberSpec → String
storage_class env spec =
    if spec.storage_class_name == ""
    then env.default_storage_class_name
    else spec.storage_class_name

abbrev pub claim_template : String → String → Quantity → ClaimTemplate
claim_template name class q = record {
  name = name;
  access_modes = "ReadWriteOnce" ∷ [];
  storage_class = class;
  storage = q;
}

abbrev pub rolling_update : ℤ → UpdateStrategy
rolling_update partition = record {
  strategy_type = "RollingUpdate";
  rolling_update = some (record { partition = some partition });
}

-- The status of an object that was only built.
abbrev pub empty_set_status : SetStatus
empty_set_status = record {
  observed_generation = none;
  replicas = pos 0;
  ready_replicas = pos 0;
  current_revision = "";
  update_revision = "";
}
