-- ===== src/Panel/Settings.antt =====
-- frontend/src/lib/panelSettings.ts and builtinOutbounds.ts: the whole row that every save of a settings
-- section sends, and whether the on-demand IPv4 outbound is part of the configuration.
pub mod ReadBack
pub mod Fields
use rx_ui.Base.{
  Bool, true, false, ◌&&◌, ◌||◌, not, any, is_empty, List, [], ◌∷◌, Option, none, some, get_or,
}
use rx_ui.Js.Text.{Text, codes, text_eq}
use rx_ui.Js.Number.{Number, num}
use rx_ui.Api.Settings.{DnsHost, DnsServer, PanelSettings, PanelSettingsUpdate, RoutingRule}
use rx_ui.Inbounds.Values.{or_text}

-- `Partial<PanelSettingsUpdate>`: what a section overrides.
pub record Overrides : Type 0 where
  pub panel_port : Option Number
  pub panel_base_path : Option Text
  pub sub_enabled : Option Bool
  pub sub_host_override : Option Text
  pub sub_link_host : Option Text
  pub sub_update_interval_hours : Option Number
  pub sub_brand_name : Option Text
  pub sub_service_url : Option Text
  pub sub_port : Option Number
  pub xray_freedom_strategy : Option Text
  pub xray_routing_strategy : Option Text
  pub xray_freedom_allow_private : Option (List Text)
  pub xray_freedom_block_delay : Option Text
  pub xray_test_url : Option Text
  pub xray_block_bittorrent : Option Bool
  pub xray_blocked_ips : Option (List Text)
  pub xray_blocked_domains : Option (List Text)
  pub xray_direct_ips : Option (List Text)
  pub xray_direct_domains : Option (List Text)
  pub xray_ipv4_domains : Option (List Text)
  pub xray_dns_enabled : Option Bool
  pub xray_dns_servers : Option (List DnsServer)
  pub xray_dns_hosts : Option (List DnsHost)
  pub xray_dns_query_strategy : Option Text
  pub xray_dns_client_ip : Option Text
  pub xray_dns_tag : Option Text
  pub xray_dns_disable_cache : Option Bool
  pub xray_dns_disable_fallback : Option Bool
  pub xray_dns_disable_fallback_if_match : Option Bool
  pub xray_dns_parallel_query : Option Bool
  pub xray_dns_use_system_hosts : Option Bool
  pub xray_dns_serve_stale : Option Bool
  pub xray_dns_serve_expired_ttl : Option Number
  pub xray_custom_rules : Option (List RoutingRule)
  pub xray_rule_order : Option (List Text)
  pub panel_tls_enabled : Option Bool
  pub panel_tls_cert : Option Text
  pub panel_tls_key : Option Text
  pub sub_tls_mode : Option Text
  pub sub_cert_pem : Option Text
  pub sub_key_pem : Option Text

-- The row before the settings have loaded: the three tables of defaults, and blank keys.
abbrev pub settings_defaults : PanelSettingsUpdate
settings_defaults = record {
  panel_port = num 8080;
  panel_base_path = [];
  sub_enabled = true;
  sub_host_override = [];
  sub_link_host = [];
  sub_update_interval_hours = num 12;
  sub_brand_name = [];
  sub_service_url = [];
  sub_port = num 0;
  xray_freedom_strategy = codes "AsIs";
  xray_routing_strategy = codes "AsIs";
  xray_freedom_allow_private = [];
  xray_freedom_block_delay = [];
  xray_test_url = [];
  xray_block_bittorrent = false;
  xray_blocked_ips = [];
  xray_blocked_domains = [];
  xray_direct_ips = [];
  xray_direct_domains = [];
  xray_ipv4_domains = [];
  xray_dns_enabled = true;
  xray_dns_servers = [];
  xray_dns_hosts = [];
  xray_dns_query_strategy = codes "UseIP";
  xray_dns_client_ip = [];
  xray_dns_tag = [];
  xray_dns_disable_cache = false;
  xray_dns_disable_fallback = false;
  xray_dns_disable_fallback_if_match = false;
  xray_dns_parallel_query = false;
  xray_dns_use_system_hosts = false;
  xray_dns_serve_stale = false;
  xray_dns_serve_expired_ttl = num 0;
  xray_custom_rules = [];
  xray_rule_order = [];
  panel_tls_enabled = false;
  panel_tls_cert = [];
  panel_tls_key = [];
  sub_tls_mode = codes "inherit";
  sub_cert_pem = [];
  sub_key_pem = [];
}

-- The row from the settings that are cached; a blank key means that the stored one is kept.
unfoldable pub base_settings : Option PanelSettings → PanelSettingsUpdate
base_settings none = settings_defaults
base_settings (some s) = record {
  panel_port = s.panel_port;
  panel_base_path = s.panel_base_path;
  sub_enabled = s.sub_enabled;
  sub_host_override = s.sub_host_override;
  sub_link_host = s.sub_link_host;
  sub_update_interval_hours = s.sub_update_interval_hours;
  sub_brand_name = s.sub_brand_name;
  sub_service_url = s.sub_service_url;
  sub_port = s.sub_port;
  xray_freedom_strategy = s.xray_freedom_strategy;
  xray_routing_strategy = s.xray_routing_strategy;
  xray_freedom_allow_private = s.xray_freedom_allow_private;
  xray_freedom_block_delay = s.xray_freedom_block_delay;
  xray_test_url = s.xray_test_url;
  xray_block_bittorrent = s.xray_block_bittorrent;
  xray_blocked_ips = s.xray_blocked_ips;
  xray_blocked_domains = s.xray_blocked_domains;
  xray_direct_ips = s.xray_direct_ips;
  xray_direct_domains = s.xray_direct_domains;
  xray_ipv4_domains = s.xray_ipv4_domains;
  xray_dns_enabled = s.xray_dns_enabled;
  xray_dns_servers = s.xray_dns_servers;
  xray_dns_hosts = s.xray_dns_hosts;
  xray_dns_query_strategy = or_text s.xray_dns_query_strategy (codes "UseIP");
  xray_dns_client_ip = s.xray_dns_client_ip;
  xray_dns_tag = s.xray_dns_tag;
  xray_dns_disable_cache = s.xray_dns_disable_cache;
  xray_dns_disable_fallback = s.xray_dns_disable_fallback;
  xray_dns_disable_fallback_if_match = s.xray_dns_disable_fallback_if_match;
  xray_dns_parallel_query = s.xray_dns_parallel_query;
  xray_dns_use_system_hosts = s.xray_dns_use_system_hosts;
  xray_dns_serve_stale = s.xray_dns_serve_stale;
  xray_dns_serve_expired_ttl = s.xray_dns_serve_expired_ttl;
  xray_custom_rules = s.xray_custom_rules;
  xray_rule_order = s.xray_rule_order;
  panel_tls_enabled = s.panel_tls_enabled;
  panel_tls_cert = s.panel_tls_cert;
  panel_tls_key = [];
  sub_tls_mode = s.sub_tls_mode;
  sub_cert_pem = s.sub_cert_pem;
  sub_key_pem = [];
}

-- `{ …, ...overrides }`
unfoldable pub with_overrides : PanelSettingsUpdate → Overrides → PanelSettingsUpdate
with_overrides u o = record {
  panel_port = get_or o.panel_port u.panel_port;
  panel_base_path = get_or o.panel_base_path u.panel_base_path;
  sub_enabled = get_or o.sub_enabled u.sub_enabled;
  sub_host_override = get_or o.sub_host_override u.sub_host_override;
  sub_link_host = get_or o.sub_link_host u.sub_link_host;
  sub_update_interval_hours = get_or o.sub_update_interval_hours u.sub_update_interval_hours;
  sub_brand_name = get_or o.sub_brand_name u.sub_brand_name;
  sub_service_url = get_or o.sub_service_url u.sub_service_url;
  sub_port = get_or o.sub_port u.sub_port;
  xray_freedom_strategy = get_or o.xray_freedom_strategy u.xray_freedom_strategy;
  xray_routing_strategy = get_or o.xray_routing_strategy u.xray_routing_strategy;
  xray_freedom_allow_private = get_or o.xray_freedom_allow_private u.xray_freedom_allow_private;
  xray_freedom_block_delay = get_or o.xray_freedom_block_delay u.xray_freedom_block_delay;
  xray_test_url = get_or o.xray_test_url u.xray_test_url;
  xray_block_bittorrent = get_or o.xray_block_bittorrent u.xray_block_bittorrent;
  xray_blocked_ips = get_or o.xray_blocked_ips u.xray_blocked_ips;
  xray_blocked_domains = get_or o.xray_blocked_domains u.xray_blocked_domains;
  xray_direct_ips = get_or o.xray_direct_ips u.xray_direct_ips;
  xray_direct_domains = get_or o.xray_direct_domains u.xray_direct_domains;
  xray_ipv4_domains = get_or o.xray_ipv4_domains u.xray_ipv4_domains;
  xray_dns_enabled = get_or o.xray_dns_enabled u.xray_dns_enabled;
  xray_dns_servers = get_or o.xray_dns_servers u.xray_dns_servers;
  xray_dns_hosts = get_or o.xray_dns_hosts u.xray_dns_hosts;
  xray_dns_query_strategy = get_or o.xray_dns_query_strategy u.xray_dns_query_strategy;
  xray_dns_client_ip = get_or o.xray_dns_client_ip u.xray_dns_client_ip;
  xray_dns_tag = get_or o.xray_dns_tag u.xray_dns_tag;
  xray_dns_disable_cache = get_or o.xray_dns_disable_cache u.xray_dns_disable_cache;
  xray_dns_disable_fallback = get_or o.xray_dns_disable_fallback u.xray_dns_disable_fallback;
  xray_dns_disable_fallback_if_match =
      get_or o.xray_dns_disable_fallback_if_match u.xray_dns_disable_fallback_if_match;
  xray_dns_parallel_query = get_or o.xray_dns_parallel_query u.xray_dns_parallel_query;
  xray_dns_use_system_hosts = get_or o.xray_dns_use_system_hosts u.xray_dns_use_system_hosts;
  xray_dns_serve_stale = get_or o.xray_dns_serve_stale u.xray_dns_serve_stale;
  xray_dns_serve_expired_ttl = get_or o.xray_dns_serve_expired_ttl u.xray_dns_serve_expired_ttl;
  xray_custom_rules = get_or o.xray_custom_rules u.xray_custom_rules;
  xray_rule_order = get_or o.xray_rule_order u.xray_rule_order;
  panel_tls_enabled = get_or o.panel_tls_enabled u.panel_tls_enabled;
  panel_tls_cert = get_or o.panel_tls_cert u.panel_tls_cert;
  panel_tls_key = get_or o.panel_tls_key u.panel_tls_key;
  sub_tls_mode = get_or o.sub_tls_mode u.sub_tls_mode;
  sub_cert_pem = get_or o.sub_cert_pem u.sub_cert_pem;
  sub_key_pem = get_or o.sub_key_pem u.sub_key_pem;
}

unfoldable pub merge_panel_settings : Option PanelSettings → Overrides → PanelSettingsUpdate
merge_panel_settings current o = with_overrides (base_settings current) o

-- `r.enabled && r.outbound_tag === 'direct-ipv4'`
abbrev pub forces_ipv4 : RoutingRule → Bool
forces_ipv4 r = r.enabled && text_eq r.outbound_tag (codes "direct-ipv4")

unfoldable pub needs_ipv4 : List Text → List RoutingRule → Bool
needs_ipv4 domains rules = not (is_empty domains) || any forces_ipv4 rules
