-- ===== src/Inbounds/Sniffing/RoundTrip.antt =====
-- The sniffing and socket options that the form sends, and stored ones that are opened and saved.
use rx_ui.Base.{◌≡◌, All, arith}
use rx_ui.Inbounds.Form.{SniffingFormFields, SockoptFormFields}
use rx_ui.Api.Inbound.{Sniffing, SocketOpt}
use rx_ui.Inbounds.Values.Laws.{
  IsFilledText, IsSettledNumber, or_null_num_of_IsSettled, or_null_num-IsSettled,
  trimmed_items_of_IsFilled, trimmed_items-IsFilled,
}
use rx_ui.Inbounds.Sniffing.{sniffing_form, build_sniffing, sockopt_form, build_sockopt}

abbrev pub IsSettledSniffing : Sniffing → Type 0
IsSettledSniffing s = All IsFilledText s.domains_excluded × All IsFilledText s.ips_excluded

abbrev pub IsSettledSockopt : SocketOpt → Type 0
IsSettledSockopt s =
    All IsFilledText s.trusted_x_forwarded_for
    × IsSettledNumber s.tcp_keep_alive_interval
    × IsSettledNumber s.tcp_keep_alive_idle
    × IsSettledNumber s.tcp_fast_open

pub build_sniffing-IsSettled : (v : SniffingFormFields) → IsSettledSniffing (build_sniffing v)
unfolding build_sniffing
build_sniffing-IsSettled v = (
  trimmed_items-IsFilled v.sniffing_domains_excluded,
  trimmed_items-IsFilled v.sniffing_ips_excluded,
)

pub build_sockopt-IsSettled : (v : SockoptFormFields) → IsSettledSockopt (build_sockopt v)
unfolding build_sockopt
build_sockopt-IsSettled v = (
  trimmed_items-IsFilled v.sockopt_trusted_x_forwarded_for,
  or_null_num-IsSettled v.sockopt_tcp_keep_alive_interval,
  or_null_num-IsSettled v.sockopt_tcp_keep_alive_idle,
  or_null_num-IsSettled v.sockopt_tcp_fast_open,
)

pub build_sniffing-sniffing_form :
    (s : Sniffing) → IsSettledSniffing s → build_sniffing (sniffing_form s) ≡ s
unfolding build_sniffing sniffing_form
build_sniffing-sniffing_form s (hd, hi) = ground (
  arith,
  trimmed_items_of_IsFilled s.domains_excluded hd,
  trimmed_items_of_IsFilled s.ips_excluded hi,
)

pub build_sockopt-sockopt_form :
    (s : SocketOpt) → IsSettledSockopt s → build_sockopt (sockopt_form s) ≡ s
unfolding build_sockopt sockopt_form
build_sockopt-sockopt_form s (ht, h1, h2, h3) = ground (
  arith,
  trimmed_items_of_IsFilled s.trusted_x_forwarded_for ht,
  or_null_num_of_IsSettled s.tcp_keep_alive_interval h1,
  or_null_num_of_IsSettled s.tcp_keep_alive_idle h2,
  or_null_num_of_IsSettled s.tcp_fast_open h3,
)
