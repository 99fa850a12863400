-- ===== src/Fixtures/Trace.antt =====
-- frontend/src/api/traceData.ts: the sample findings, in the order of the source.
pub mod First
pub mod Second
pub mod Third
pub mod Fourth
pub mod Fifth
pub mod Sixth
pub mod Seventh
pub mod Eighth
use arka.Prelude.{List, [], ◌∷◌}
use arka.Types.FindingsTrace.{FindingTraceItem}
use arka.Fixtures.Trace.First.{
  exposed_management_port, outdated_ssh_version, public_s3_bucket_exposure,
}
use arka.Fixtures.Trace.Second.{
  internal_api_endpoint_exposure, spring_framework_deserialization_vulnerability_cve_2024_38819,
  unauthenticated_redis_key_value_store,
}
use arka.Fixtures.Trace.Third.{
  exposed_aws_access_key_id_in_client_api_response, deprecate_tls_1_0_1_1_support,
  unrestricted_dns_zone_transfer_axfr,
}
use arka.Fixtures.Trace.Fourth.{
  hardcoded_api_token_in_client_javascript_bundle, grafana_dashboard_anonymous_admin_access,
  mongodb_accessible_without_authentication,
}
use arka.Fixtures.Trace.Fifth.{
  exposed_node_exporter_telemetry_endpoint,
  kubernetes_control_plane_anonymous_authentication_enabled,
  cross_origin_resource_sharing_cors_misconfiguration,
}
use arka.Fixtures.Trace.Sixth.{
  subdomain_takeover_via_dangling_cname, exposed_docker_engine_http_api_socket,
  git_repository_metadata_directory_exposure_git,
}
use arka.Fixtures.Trace.Seventh.{
  hashicorp_vault_running_in_development_mode, open_memcached_udp_reflection_vector,
  elasticsearch_cluster_health_endpoint_exposed,
}
use arka.Fixtures.Trace.Eighth.{
  snmp_default_community_string_public, apache_http_server_path_traversal_cve_2021_41773,
  open_ntp_monlist_amplification_ddos_vector,
}

abbrev pub sample_finding_trace_items : List FindingTraceItem
sample_finding_trace_items =
    exposed_management_port ∷ outdated_ssh_version ∷ public_s3_bucket_exposure
    ∷ internal_api_endpoint_exposure ∷ spring_framework_deserialization_vulnerability_cve_2024_38819
    ∷ unauthenticated_redis_key_value_store ∷ exposed_aws_access_key_id_in_client_api_response
    ∷ deprecate_tls_1_0_1_1_support ∷ unrestricted_dns_zone_transfer_axfr
    ∷ hardcoded_api_token_in_client_javascript_bundle ∷ grafana_dashboard_anonymous_admin_access
    ∷ mongodb_accessible_without_authentication ∷ exposed_node_exporter_telemetry_endpoint
    ∷ kubernetes_control_plane_anonymous_authentication_enabled
    ∷ cross_origin_resource_sharing_cors_misconfiguration ∷ subdomain_takeover_via_dangling_cname
    ∷ exposed_docker_engine_http_api_socket ∷ git_repository_metadata_directory_exposure_git
    ∷ hashicorp_vault_running_in_development_mode ∷ open_memcached_udp_reflection_vector
    ∷ elasticsearch_cluster_health_endpoint_exposed ∷ snmp_default_community_string_public
    ∷ apache_http_server_path_traversal_cve_2021_41773 ∷ open_ntp_monlist_amplification_ddos_vector
    ∷ []
