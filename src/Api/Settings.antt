-- ===== src/Api/Settings.antt =====
-- frontend/src/api/types/settings.ts
use rx_ui.Base.{Bool, List}
use rx_ui.Js.Text.{Text}
use rx_ui.Js.Number.{Number}

pub record DnsHost : Type 0 where
  pub domain : Text
  pub values : List Text

pub record DnsServer : Type 0 where
  pub address : Text
  pub port : Number
  pub domains : List Text
  pub expect_ips : List Text
  pub unexpected_ips : List Text
  pub skip_fallback : Bool
  pub final_query : Bool
  pub timeout_ms : Number
  pub client_ip : Text
  pub query_strategy : Text

pub record RoutingRule : Type 0 where
  pub id : Text
  pub enabled : Bool
  pub name : Text
  pub domain : List Text
  pub ip : List Text
  pub source_ip : List Text
  pub port : Text
  pub source_port : Text
  pub network : List Text
  pub protocol : List Text
  pub inbound_tag : List Text
  pub user : List Text
  pub local_os : List Text
  pub outbound_tag : Text

pub record PanelSettings : Type 0 where
  pub panel_port : Number
  pub panel_base_path : Text
  pub sub_enabled : Bool
  pub sub_host_override : Text
  pub sub_link_host : Text
  pub sub_update_interval_hours : Number
  pub sub_brand_name : Text
  pub sub_service_url : Text
  pub sub_port : Number
  pub xray_freedom_strategy : Text
  pub xray_routing_strategy : Text
  pub xray_freedom_allow_private : List Text
  pub xray_freedom_block_delay : Text
  pub xray_test_url : Text
  pub xray_block_bittorrent : Bool
  pub xray_blocked_ips : List Text
  pub xray_blocked_domains : List Text
  pub xray_direct_ips : List Text
  pub xray_direct_domains : List Text
  pub xray_ipv4_domains : List Text
  pub xray_dns_enabled : Bool
  pub xray_dns_servers : List DnsServer
  pub xray_dns_hosts : List DnsHost
  pub xray_dns_query_strategy : Text
  pub xray_dns_client_ip : Text
  pub xray_dns_tag : Text
  pub xray_dns_disable_cache : Bool
  pub xray_dns_disable_fallback : Bool
  pub xray_dns_disable_fallback_if_match : Bool
  pub xray_dns_parallel_query : Bool
  pub xray_dns_use_system_hosts : Bool
  pub xray_dns_serve_stale : Bool
  pub xray_dns_serve_expired_ttl : Number
  pub xray_custom_rules : List RoutingRule
  pub xray_rule_order : List Text
  pub panel_tls_enabled : Bool
  pub panel_tls_cert : Text
  pub panel_tls_key_set : Bool
  pub sub_tls_mode : Text
  pub sub_cert_pem : Text
  pub sub_key_set : Bool

pub record PanelSettingsUpdate : Type 0 where
  pub panel_port : Number
  pub panel_base_path : Text
  pub sub_enabled : Bool
  pub sub_host_override : Text
  pub sub_link_host : Text
  pub sub_update_interval_hours : Number
  pub sub_brand_name : Text
  pub sub_service_url : Text
  pub sub_port : Number
  pub xray_freedom_strategy : Text
  pub xray_routing_strategy : Text
  pub xray_freedom_allow_private : List Text
  pub xray_freedom_block_delay : Text
  pub xray_test_url : Text
  pub xray_block_bittorrent : Bool
  pub xray_blocked_ips : List Text
  pub xray_blocked_domains : List Text
  pub xray_direct_ips : List Text
  pub xray_direct_domains : List Text
  pub xray_ipv4_domains : List Text
  pub xray_dns_enabled : Bool
  pub xray_dns_servers : List DnsServer
  pub xray_dns_hosts : List DnsHost
  pub xray_dns_query_strategy : Text
  pub xray_dns_client_ip : Text
  pub xray_dns_tag : Text
  pub xray_dns_disable_cache : Bool
  pub xray_dns_disable_fallback : Bool
  pub xray_dns_disable_fallback_if_match : Bool
  pub xray_dns_parallel_query : Bool
  pub xray_dns_use_system_hosts : Bool
  pub xray_dns_serve_stale : Bool
  pub xray_dns_serve_expired_ttl : Number
  pub xray_custom_rules : List RoutingRule
  pub xray_rule_order : List Text
  pub panel_tls_enabled : Bool
  pub panel_tls_cert : Text
  pub panel_tls_key : Text
  pub sub_tls_mode : Text
  pub sub_cert_pem : Text
  pub sub_key_pem : Text
