-- ===== src/Inbounds/Sniffing.antt =====
-- The sniffing and the socket options of frontend/src/pages/Inbounds/form/adapters.ts: the last blocks
-- of `inboundToForm`, `buildSniffing` and `buildSockopt`.
pub mod RoundTrip
use rx_ui.Inbounds.Form.{SniffingFormFields, SockoptFormFields}
use rx_ui.Api.Inbound.{Sniffing, SocketOpt}
use rx_ui.Inbounds.Values.{or_null_num, trimmed_items}

unfoldable pub sniffing_form : Sniffing → SniffingFormFields
sniffing_form s = record {
  sniffing_enabled = s.enabled;
  sniffing_dest_override = s.dest_override;
  sniffing_route_only = s.route_only;
  sniffing_metadata_only = s.metadata_only;
  sniffing_domains_excluded = s.domains_excluded;
  sniffing_ips_excluded = s.ips_excluded;
}

unfoldable pub build_sniffing : SniffingFormFields → Sniffing
build_sniffing v = record {
  enabled = v.sniffing_enabled;
  dest_override = v.sniffing_dest_override;
  route_only = v.sniffing_route_only;
  metadata_only = v.sniffing_metadata_only;
  domains_excluded = trimmed_items v.sniffing_domains_excluded;
  ips_excluded = trimmed_items v.sniffing_ips_excluded;
}

unfoldable pub sockopt_form : SocketOpt → SockoptFormFields
sockopt_form s = record {
  sockopt_trusted_x_forwarded_for = s.trusted_x_forwarded_for;
  sockopt_tcp_keep_alive_interval = s.tcp_keep_alive_interval;
  sockopt_tcp_keep_alive_idle = s.tcp_keep_alive_idle;
  sockopt_tcp_mptcp = s.tcp_mptcp;
  sockopt_accept_proxy_protocol = s.accept_proxy_protocol;
  sockopt_tcp_fast_open = s.tcp_fast_open;
  sockopt_v6only = s.v6only;
}

unfoldable pub build_sockopt : SockoptFormFields → SocketOpt
build_sockopt v = record {
  trusted_x_forwarded_for = trimmed_items v.sockopt_trusted_x_forwarded_for;
  tcp_keep_alive_interval = or_null_num v.sockopt_tcp_keep_alive_interval;
  tcp_keep_alive_idle = or_null_num v.sockopt_tcp_keep_alive_idle;
  tcp_mptcp = v.sockopt_tcp_mptcp;
  accept_proxy_protocol = v.sockopt_accept_proxy_protocol;
  tcp_fast_open = or_null_num v.sockopt_tcp_fast_open;
  v6only = v.sockopt_v6only;
}
