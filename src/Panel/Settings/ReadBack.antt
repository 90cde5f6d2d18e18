-- ===== src/Panel/Settings/ReadBack.antt =====
-- Saving a row that was read back.
use rx_ui.Base.{◌≡◌, ◌≢◌, Bool, [], none, some, arith}
use rx_ui.Js.Text.{Text, codes}
use rx_ui.Api.Settings.{PanelSettings, PanelSettingsUpdate}
use rx_ui.Inbounds.Values.{or_text}
use rx_ui.Panel.Settings.{Overrides, base_settings, merge_panel_settings, with_overrides}

-- The row whose fields are those of `u`. It holds no private key, only whether there is one.
abbrev pub read_back : PanelSettingsUpdate → Bool → Bool → PanelSettings
read_back u has_panel_key has_sub_key = record {
  panel_port = u.panel_port;
  panel_base_path = u.panel_base_path;
  sub_enabled = u.sub_enabled;
  sub_host_override = u.sub_host_override;
  sub_link_host = u.sub_link_host;
  sub_update_interval_hours = u.sub_update_interval_hours;
  sub_brand_name = u.sub_brand_name;
  sub_service_url = u.sub_service_url;
  sub_port = u.sub_port;
  xray_freedom_strategy = u.xray_freedom_strategy;
  xray_routing_strategy = u.xray_routing_strategy;
  xray_freedom_allow_private = u.xray_freedom_allow_private;
  xray_freedom_block_delay = u.xray_freedom_block_delay;
  xray_test_url = u.xray_test_url;
  xray_block_bittorrent = u.xray_block_bittorrent;
  xray_blocked_ips = u.xray_blocked_ips;
  xray_blocked_domains = u.xray_blocked_domains;
  xray_direct_ips = u.xray_direct_ips;
  xray_direct_domains = u.xray_direct_domains;
  xray_ipv4_domains = u.xray_ipv4_domains;
  xray_dns_enabled = u.xray_dns_enabled;
  xray_dns_servers = u.xray_dns_servers;
  xray_dns_hosts = u.xray_dns_hosts;
  xray_dns_query_strategy = u.xray_dns_query_strategy;
  xray_dns_client_ip = u.xray_dns_client_ip;
  xray_dns_tag = u.xray_dns_tag;
  xray_dns_disable_cache = u.xray_dns_disable_cache;
  xray_dns_disable_fallback = u.xray_dns_disable_fallback;
  xray_dns_disable_fallback_if_match = u.xray_dns_disable_fallback_if_match;
  xray_dns_parallel_query = u.xray_dns_parallel_query;
  xray_dns_use_system_hosts = u.xray_dns_use_system_hosts;
  xray_dns_serve_stale = u.xray_dns_serve_stale;
  xray_dns_serve_expired_ttl = u.xray_dns_serve_expired_ttl;
  xray_custom_rules = u.xray_custom_rules;
  xray_rule_order = u.xray_rule_order;
  panel_tls_enabled = u.panel_tls_enabled;
  panel_tls_cert = u.panel_tls_cert;
  panel_tls_key_set = has_panel_key;
  sub_tls_mode = u.sub_tls_mode;
  sub_cert_pem = u.sub_cert_pem;
  sub_key_set = has_sub_key;
}

-- A section that overrides nothing.
abbrev pub no_overrides : Overrides
no_overrides = record {
  panel_port = none;
  panel_base_path = none;
  sub_enabled = none;
  sub_host_override = none;
  sub_link_host = none;
  sub_update_interval_hours = none;
  sub_brand_name = none;
  sub_service_url = none;
  sub_port = none;
  xray_freedom_strategy = none;
  xray_routing_strategy = none;
  xray_freedom_allow_private = none;
  xray_freedom_block_delay = none;
  xray_test_url = none;
  xray_block_bittorrent = none;
  xray_blocked_ips = none;
  xray_blocked_domains = none;
  xray_direct_ips = none;
  xray_direct_domains = none;
  xray_ipv4_domains = none;
  xray_dns_enabled = none;
  xray_dns_servers = none;
  xray_dns_hosts = none;
  xray_dns_query_strategy = none;
  xray_dns_client_ip = none;
  xray_dns_tag = none;
  xray_dns_disable_cache = none;
  xray_dns_disable_fallback = none;
  xray_dns_disable_fallback_if_match = none;
  xray_dns_parallel_query = none;
  xray_dns_use_system_hosts = none;
  xray_dns_serve_stale = none;
  xray_dns_serve_expired_ttl = none;
  xray_custom_rules = none;
  xray_rule_order = none;
  panel_tls_enabled = none;
  panel_tls_cert = none;
  panel_tls_key = none;
  sub_tls_mode = none;
  sub_cert_pem = none;
  sub_key_pem = none;
}

or_text_of_ne : (s : Text) → s ≢ [] → or_text s (codes "UseIP") ≡ s
or_text_of_ne s h = ground arith

-- A stored row that is read back and saved with no change is sent as it was stored, if it names a DNS
-- strategy: every field is forwarded, and the private keys are sent blank.
pub merge_panel_settings-read_back :
    (u : PanelSettingsUpdate) (has_panel_key has_sub_key : Bool)
    → u.xray_dns_query_strategy ≢ []
    → merge_panel_settings (some (read_back u has_panel_key has_sub_key)) no_overrides
      ≡ record u { panel_tls_key = []; sub_key_pem = [] }
unfolding merge_panel_settings base_settings with_overrides
merge_panel_settings-read_back u has_panel_key has_sub_key h = λ i. record u {
  panel_tls_key = [];
  sub_key_pem = [];
  xray_dns_query_strategy = or_text_of_ne u.xray_dns_query_strategy h i;
}
