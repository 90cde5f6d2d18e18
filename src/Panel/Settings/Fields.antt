-- ===== src/Panel/Settings/Fields.antt =====
-- The fields of the settings row, each with the place that it has in the row, in an update and among the
-- overrides. The private keys and certificates, which the backend keeps where they are sent blank, are not
-- among them, nor is the DNS strategy, which the merge never leaves blank.
use rx_ui.Base.{◌≡◌, refl, Bool, List, Option, some, get_or}
use rx_ui.Js.Text.{Text}
use rx_ui.Js.Number.{Number}
use rx_ui.Api.Settings.{DnsHost, DnsServer, PanelSettings, PanelSettingsUpdate, RoutingRule}
use rx_ui.Panel.Settings.{Overrides, base_settings, merge_panel_settings, with_overrides}

pub data SettingsField : Type 0 where
  panel_port panel_base_path sub_enabled sub_host_override sub_link_host : SettingsField
  sub_update_interval_hours sub_brand_name sub_service_url sub_port xray_freedom_strategy :
      SettingsField
  xray_routing_strategy xray_freedom_allow_private xray_freedom_block_delay xray_test_url :
      SettingsField
  xray_block_bittorrent xray_blocked_ips xray_blocked_domains xray_direct_ips : SettingsField
  xray_direct_domains xray_ipv4_domains xray_dns_enabled xray_dns_servers xray_dns_hosts :
      SettingsField
  xray_dns_client_ip xray_dns_tag xray_dns_disable_cache xray_dns_disable_fallback : SettingsField
  xray_dns_disable_fallback_if_match xray_dns_parallel_query xray_dns_use_system_hosts :
      SettingsField
  xray_dns_serve_stale xray_dns_serve_expired_ttl xray_custom_rules xray_rule_order : SettingsField
  panel_tls_enabled sub_tls_mode : SettingsField

abbrev pub Value : SettingsField → Type 0
Value SettingsField.panel_port = Number
Value SettingsField.panel_base_path = Text
Value SettingsField.sub_enabled = Bool
Value SettingsField.sub_host_override = Text
Value SettingsField.sub_link_host = Text
Value SettingsField.sub_update_interval_hours = Number
Value SettingsField.sub_brand_name = Text
Value SettingsField.sub_service_url = Text
Value SettingsField.sub_port = Number
Value SettingsField.xray_freedom_strategy = Text
Value SettingsField.xray_routing_strategy = Text
Value SettingsField.xray_freedom_allow_private = List Text
Value SettingsField.xray_freedom_block_delay = Text
Value SettingsField.xray_test_url = Text
Value SettingsField.xray_block_bittorrent = Bool
Value SettingsField.xray_blocked_ips = List Text
Value SettingsField.xray_blocked_domains = List Text
Value SettingsField.xray_direct_ips = List Text
Value SettingsField.xray_direct_domains = List Text
Value SettingsField.xray_ipv4_domains = List Text
Value SettingsField.xray_dns_enabled = Bool
Value SettingsField.xray_dns_servers = List DnsServer
Value SettingsField.xray_dns_hosts = List DnsHost
Value SettingsField.xray_dns_client_ip = Text
Value SettingsField.xray_dns_tag = Text
Value SettingsField.xray_dns_disable_cache = Bool
Value SettingsField.xray_dns_disable_fallback = Bool
Value SettingsField.xray_dns_disable_fallback_if_match = Bool
Value SettingsField.xray_dns_parallel_query = Bool
Value SettingsField.xray_dns_use_system_hosts = Bool
Value SettingsField.xray_dns_serve_stale = Bool
Value SettingsField.xray_dns_serve_expired_ttl = Number
Value SettingsField.xray_custom_rules = List RoutingRule
Value SettingsField.xray_rule_order = List Text
Value SettingsField.panel_tls_enabled = Bool
Value SettingsField.sub_tls_mode = Text

abbrev pub of_row : (f : SettingsField) → PanelSettings → Value f
of_row SettingsField.panel_port row = row.panel_port
of_row SettingsField.panel_base_path row = row.panel_base_path
of_row SettingsField.sub_enabled row = row.sub_enabled
of_row SettingsField.sub_host_override row = row.sub_host_override
of_row SettingsField.sub_link_host row = row.sub_link_host
of_row SettingsField.sub_update_interval_hours row = row.sub_update_interval_hours
of_row SettingsField.sub_brand_name row = row.sub_brand_name
of_row SettingsField.sub_service_url row = row.sub_service_url
of_row SettingsField.sub_port row = row.sub_port
of_row SettingsField.xray_freedom_strategy row = row.xray_freedom_strategy
of_row SettingsField.xray_routing_strategy row = row.xray_routing_strategy
of_row SettingsField.xray_freedom_allow_private row = row.xray_freedom_allow_private
of_row SettingsField.xray_freedom_block_delay row = row.xray_freedom_block_delay
of_row SettingsField.xray_test_url row = row.xray_test_url
of_row SettingsField.xray_block_bittorrent row = row.xray_block_bittorrent
of_row SettingsField.xray_blocked_ips row = row.xray_blocked_ips
of_row SettingsField.xray_blocked_domains row = row.xray_blocked_domains
of_row SettingsField.xray_direct_ips row = row.xray_direct_ips
of_row SettingsField.xray_direct_domains row = row.xray_direct_domains
of_row SettingsField.xray_ipv4_domains row = row.xray_ipv4_domains
of_row SettingsField.xray_dns_enabled row = row.xray_dns_enabled
of_row SettingsField.xray_dns_servers row = row.xray_dns_servers
of_row SettingsField.xray_dns_hosts row = row.xray_dns_hosts
of_row SettingsField.xray_dns_client_ip row = row.xray_dns_client_ip
of_row SettingsField.xray_dns_tag row = row.xray_dns_tag
of_row SettingsField.xray_dns_disable_cache row = row.xray_dns_disable_cache
of_row SettingsField.xray_dns_disable_fallback row = row.xray_dns_disable_fallback
of_row SettingsField.xray_dns_disable_fallback_if_match row = row.xray_dns_disable_fallback_if_match
of_row SettingsField.xray_dns_parallel_query row = row.xray_dns_parallel_query
of_row SettingsField.xray_dns_use_system_hosts row = row.xray_dns_use_system_hosts
of_row SettingsField.xray_dns_serve_stale row = row.xray_dns_serve_stale
of_row SettingsField.xray_dns_serve_expired_ttl row = row.xray_dns_serve_expired_ttl
of_row SettingsField.xray_custom_rules row = row.xray_custom_rules
of_row SettingsField.xray_rule_order row = row.xray_rule_order
of_row SettingsField.panel_tls_enabled row = row.panel_tls_enabled
of_row SettingsField.sub_tls_mode row = row.sub_tls_mode

abbrev pub of_update : (f : SettingsField) → PanelSettingsUpdate → Value f
of_update SettingsField.panel_port u = u.panel_port
of_update SettingsField.panel_base_path u = u.panel_base_path
of_update SettingsField.sub_enabled u = u.sub_enabled
of_update SettingsField.sub_host_override u = u.sub_host_override
of_update SettingsField.sub_link_host u = u.sub_link_host
of_update SettingsField.sub_update_interval_hours u = u.sub_update_interval_hours
of_update SettingsField.sub_brand_name u = u.sub_brand_name
of_update SettingsField.sub_service_url u = u.sub_service_url
of_update SettingsField.sub_port u = u.sub_port
of_update SettingsField.xray_freedom_strategy u = u.xray_freedom_strategy
of_update SettingsField.xray_routing_strategy u = u.xray_routing_strategy
of_update SettingsField.xray_freedom_allow_private u = u.xray_freedom_allow_private
of_update SettingsField.xray_freedom_block_delay u = u.xray_freedom_block_delay
of_update SettingsField.xray_test_url u = u.xray_test_url
of_update SettingsField.xray_block_bittorrent u = u.xray_block_bittorrent
of_update SettingsField.xray_blocked_ips u = u.xray_blocked_ips
of_update SettingsField.xray_blocked_domains u = u.xray_blocked_domains
of_update SettingsField.xray_direct_ips u = u.xray_direct_ips
of_update SettingsField.xray_direct_domains u = u.xray_direct_domains
of_update SettingsField.xray_ipv4_domains u = u.xray_ipv4_domains
of_update SettingsField.xray_dns_enabled u = u.xray_dns_enabled
of_update SettingsField.xray_dns_servers u = u.xray_dns_servers
of_update SettingsField.xray_dns_hosts u = u.xray_dns_hosts
of_update SettingsField.xray_dns_client_ip u = u.xray_dns_client_ip
of_update SettingsField.xray_dns_tag u = u.xray_dns_tag
of_update SettingsField.xray_dns_disable_cache u = u.xray_dns_disable_cache
of_update SettingsField.xray_dns_disable_fallback u = u.xray_dns_disable_fallback
of_update SettingsField.xray_dns_disable_fallback_if_match u = u.xray_dns_disable_fallback_if_match
of_update SettingsField.xray_dns_parallel_query u = u.xray_dns_parallel_query
of_update SettingsField.xray_dns_use_system_hosts u = u.xray_dns_use_system_hosts
of_update SettingsField.xray_dns_serve_stale u = u.xray_dns_serve_stale
of_update SettingsField.xray_dns_serve_expired_ttl u = u.xray_dns_serve_expired_ttl
of_update SettingsField.xray_custom_rules u = u.xray_custom_rules
of_update SettingsField.xray_rule_order u = u.xray_rule_order
of_update SettingsField.panel_tls_enabled u = u.panel_tls_enabled
of_update SettingsField.sub_tls_mode u = u.sub_tls_mode

abbrev pub of_overrides : (f : SettingsField) → Overrides → Option (Value f)
of_overrides SettingsField.panel_port o = o.panel_port
of_overrides SettingsField.panel_base_path o = o.panel_base_path
of_overrides SettingsField.sub_enabled o = o.sub_enabled
of_overrides SettingsField.sub_host_override o = o.sub_host_override
of_overrides SettingsField.sub_link_host o = o.sub_link_host
of_overrides SettingsField.sub_update_interval_hours o = o.sub_update_interval_hours
of_overrides SettingsField.sub_brand_name o = o.sub_brand_name
of_overrides SettingsField.sub_service_url o = o.sub_service_url
of_overrides SettingsField.sub_port o = o.sub_port
of_overrides SettingsField.xray_freedom_strategy o = o.xray_freedom_strategy
of_overrides SettingsField.xray_routing_strategy o = o.xray_routing_strategy
of_overrides SettingsField.xray_freedom_allow_private o = o.xray_freedom_allow_private
of_overrides SettingsField.xray_freedom_block_delay o = o.xray_freedom_block_delay
of_overrides SettingsField.xray_test_url o = o.xray_test_url
of_overrides SettingsField.xray_block_bittorrent o = o.xray_block_bittorrent
of_overrides SettingsField.xray_blocked_ips o = o.xray_blocked_ips
of_overrides SettingsField.xray_blocked_domains o = o.xray_blocked_domains
of_overrides SettingsField.xray_direct_ips o = o.xray_direct_ips
of_overrides SettingsField.xray_direct_domains o = o.xray_direct_domains
of_overrides SettingsField.xray_ipv4_domains o = o.xray_ipv4_domains
of_overrides SettingsField.xray_dns_enabled o = o.xray_dns_enabled
of_overrides SettingsField.xray_dns_servers o = o.xray_dns_servers
of_overrides SettingsField.xray_dns_hosts o = o.xray_dns_hosts
of_overrides SettingsField.xray_dns_client_ip o = o.xray_dns_client_ip
of_overrides SettingsField.xray_dns_tag o = o.xray_dns_tag
of_overrides SettingsField.xray_dns_disable_cache o = o.xray_dns_disable_cache
of_overrides SettingsField.xray_dns_disable_fallback o = o.xray_dns_disable_fallback
of_overrides SettingsField.xray_dns_disable_fallback_if_match o =
    o.xray_dns_disable_fallback_if_match
of_overrides SettingsField.xray_dns_parallel_query o = o.xray_dns_parallel_query
of_overrides SettingsField.xray_dns_use_system_hosts o = o.xray_dns_use_system_hosts
of_overrides SettingsField.xray_dns_serve_stale o = o.xray_dns_serve_stale
of_overrides SettingsField.xray_dns_serve_expired_ttl o = o.xray_dns_serve_expired_ttl
of_overrides SettingsField.xray_custom_rules o = o.xray_custom_rules
of_overrides SettingsField.xray_rule_order o = o.xray_rule_order
of_overrides SettingsField.panel_tls_enabled o = o.panel_tls_enabled
of_overrides SettingsField.sub_tls_mode o = o.sub_tls_mode

-- Of every such field, the row that is sent holds what the section overrides it by, or else what the row
-- holds.
pub of_update-merge_panel_settings :
    (f : SettingsField) (row : PanelSettings) (o : Overrides)
    → of_update f (merge_panel_settings (some row) o) ≡ get_or (of_overrides f o) (of_row f row)
unfolding merge_panel_settings base_settings with_overrides
of_update-merge_panel_settings SettingsField.panel_port row o = refl
of_update-merge_panel_settings SettingsField.panel_base_path row o = refl
of_update-merge_panel_settings SettingsField.sub_enabled row o = refl
of_update-merge_panel_settings SettingsField.sub_host_override row o = refl
of_update-merge_panel_settings SettingsField.sub_link_host row o = refl
of_update-merge_panel_settings SettingsField.sub_update_interval_hours row o = refl
of_update-merge_panel_settings SettingsField.sub_brand_name row o = refl
of_update-merge_panel_settings SettingsField.sub_service_url row o = refl
of_update-merge_panel_settings SettingsField.sub_port row o = refl
of_update-merge_panel_settings SettingsField.xray_freedom_strategy row o = refl
of_update-merge_panel_settings SettingsField.xray_routing_strategy row o = refl
of_update-merge_panel_settings SettingsField.xray_freedom_allow_private row o = refl
of_update-merge_panel_settings SettingsField.xray_freedom_block_delay row o = refl
of_update-merge_panel_settings SettingsField.xray_test_url row o = refl
of_update-merge_panel_settings SettingsField.xray_block_bittorrent row o = refl
of_update-merge_panel_settings SettingsField.xray_blocked_ips row o = refl
of_update-merge_panel_settings SettingsField.xray_blocked_domains row o = refl
of_update-merge_panel_settings SettingsField.xray_direct_ips row o = refl
of_update-merge_panel_settings SettingsField.xray_direct_domains row o = refl
of_update-merge_panel_settings SettingsField.xray_ipv4_domains row o = refl
of_update-merge_panel_settings SettingsField.xray_dns_enabled row o = refl
of_update-merge_panel_settings SettingsField.xray_dns_servers row o = refl
of_update-merge_panel_settings SettingsField.xray_dns_hosts row o = refl
of_update-merge_panel_settings SettingsField.xray_dns_client_ip row o = refl
of_update-merge_panel_settings SettingsField.xray_dns_tag row o = refl
of_update-merge_panel_settings SettingsField.xray_dns_disable_cache row o = refl
of_update-merge_panel_settings SettingsField.xray_dns_disable_fallback row o = refl
of_update-merge_panel_settings SettingsField.xray_dns_disable_fallback_if_match row o = refl
of_update-merge_panel_settings SettingsField.xray_dns_parallel_query row o = refl
of_update-merge_panel_settings SettingsField.xray_dns_use_system_hosts row o = refl
of_update-merge_panel_settings SettingsField.xray_dns_serve_stale row o = refl
of_update-merge_panel_settings SettingsField.xray_dns_serve_expired_ttl row o = refl
of_update-merge_panel_settings SettingsField.xray_custom_rules row o = refl
of_update-merge_panel_settings SettingsField.xray_rule_order row o = refl
of_update-merge_panel_settings SettingsField.panel_tls_enabled row o = refl
of_update-merge_panel_settings SettingsField.sub_tls_mode row o = refl
