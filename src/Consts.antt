-- ===== src/Consts.antt =====
-- convert/pkg/consts/consts.go
use isotope.Base.{ℕ, String}

abbrev pub service_container_name : String
service_container_name = "mock-service"

abbrev pub service_port : ℕ
service_port = 8080

abbrev pub service_graph_namespace : String
service_graph_namespace = "service-graph"

abbrev pub config_path : String
config_path = "/etc/config"

abbrev pub service_graph_yaml_file_name : String
service_graph_yaml_file_name = "service-graph.yaml"

abbrev pub service_graph_config_map_key : String
service_graph_config_map_key = "service-graph"

abbrev pub service_name_env_key : String
service_name_env_key = "SERVICE_NAME"

abbrev pub fortio_metrics_port : ℕ
fortio_metrics_port = 42422
