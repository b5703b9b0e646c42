-- ===== src/Kubernetes/Types.antt =====
-- The Kubernetes API objects that convert/pkg/kubernetes makes, with the fields that it sets.
use isotope.Base.{ℕ, String, Option, List}
use isotope.Base.Int.{ℤ}
use isotope.Base.Dict.{Dict}
use isotope.Base.Result.{Result}
use isotope.Graph.{ServiceGraph}

pub record ObjectMeta : Type 0 where
  pub name : String
  pub namespace : String
  pub labels : Dict String
  pub annotations : Dict String
  -- a reading of the clock, where there is one
  pub creation_timestamp : Option ℕ

pub record Container : Type 0 where
  pub name : String
  pub image : String
  pub args : List String
  pub env : Dict String
  -- the mount path of each volume
  pub volume_mounts : Dict String
  pub container_ports : List ℕ

-- A volume of a config map, with the path of the file for each key.
pub record Volume : Type 0 where
  pub name : String
  pub config_map : String
  pub items : Dict String

pub record Deployment : Type 0 where
  pub meta : ObjectMeta
  pub replicas : Option ℤ
  pub match_labels : Dict String
  pub template : ObjectMeta
  pub node_selector : Dict String
  pub containers : List Container
  pub volumes : List Volume

pub record KubernetesService : Type 0 where
  pub meta : ObjectMeta
  pub ports : List ℕ
  pub selector : Dict String

-- The constructor stands for APIVersion and Kind.
pub data Manifest : Type 0 where
  namespace : ObjectMeta → Manifest
  config_map : ObjectMeta → Dict String → Manifest
  deployment : Deployment → Manifest
  service : KubernetesService → Manifest

-- yaml.Marshal, of a manifest and of a graph, and time.Now, at each of its calls in turn.
pub record Yaml : Type 1 where
  pub Err : Type 0
  pub marshal : Manifest → Result Err String
  pub marshal_graph : ServiceGraph → Result Err String
  pub now : ℕ → ℕ
