-- ===== src/Config.antt =====
-- src/vpn/config/core: the configuration objects, each read from a YAML file of its own. The values
-- are not checked by the code, so they are any value.
pub mod Cache
pub mod Paths
pub mod RoundTrip
use virtual_private_network.Prelude.{String, ◌<>◌, Option, none, some, true, false}
use virtual_private_network.Ports.Effect.{
  M, pure, raise, key_error, type_error, value_error, os_error, ◌>>=◌, ◌>>◌, ok,
}
use virtual_private_network.Ports.Env.{Env, History, read}
use virtual_private_network.Ports.Json.{Json, Fields, null, str, obj, end, field, lookup, truthy}

abbrev pub found : String → Option Json → M History Json
found k none = raise (key_error k)
found k (some v) = pure v

-- `d[k]`
abbrev pub item : String → Json → M History Json
item k (obj fs) = found k (lookup k fs)
item k other = raise (type_error "not subscriptable by a text")

abbrev pub parsed : Option Json → M History Json
parsed none = raise (value_error "invalid YAML")
parsed (some data') = pure data'

-- `with (CONFIG_DIR / name).open() as f: data = yaml.safe_load(f)`
unfoldable pub load_yaml : Env → String → String → M History Json
load_yaml env dir name = do text ← read env (dir <> "/" <> name); parsed (env.safe_load text)

pub record AppConfig : Type 0 where
  pub tag : Json
  pub table_id : Json
  pub chain_name : Json
  pub provider : Json
  pub sing_box_service : Json
  pub unbound_service : Json

-- `AppConfig._from_yaml`, from the parsed file.
unfoldable pub app_config : Json → M History AppConfig
app_config data' = do
  d ← item "app" data'
  tag' ← item "tag" d
  table_id' ← item "table_id" d
  chain_name' ← item "chain_name" d
  provider' ← item "provider" d
  sing_box_service' ← item "sing_box_service" d
  unbound_service' ← item "unbound_service" d
  pure (record {
    tag = tag';
    table_id = table_id';
    chain_name = chain_name';
    provider = provider';
    sing_box_service = sing_box_service';
    unbound_service = unbound_service';
  })

pub record BypassConfig : Type 0 where
  pub domains : Json
  pub subnets : Json

-- `BypassConfig._from_yaml`, from the parsed file.
unfoldable pub bypass_config : Json → M History BypassConfig
bypass_config data' = do
  d ← item "bypass" data'
  domains' ← item "domains" d
  subnets' ← item "subnets" d
  pure (record { domains = domains'; subnets = subnets' })

pub record HealthConfig : Type 0 where
  pub check_interval_min : Json
  pub check_interval_max : Json
  pub fail_threshold : Json
  pub curl_timeout : Json
  pub targets : Json
  pub user_agents : Json

-- `HealthConfig._from_yaml`, from the parsed file.
unfoldable pub health_config : Json → M History HealthConfig
health_config data' = do
  d ← item "health" data'
  check_interval_min' ← item "check_interval_min" d
  check_interval_max' ← item "check_interval_max" d
  fail_threshold' ← item "fail_threshold" d
  curl_timeout' ← item "curl_timeout" d
  targets' ← item "targets" d
  user_agents' ← item "user_agents" d
  pure (record {
    check_interval_min = check_interval_min';
    check_interval_max = check_interval_max';
    fail_threshold = fail_threshold';
    curl_timeout = curl_timeout';
    targets = targets';
    user_agents = user_agents';
  })

pub record NotificationConfig : Type 0 where
  pub retries : Json
  pub retry_delay : Json
  pub timeout : Json
  pub events : Json

-- `NotificationConfig._from_yaml`, from the parsed file.
unfoldable pub notification_config : Json → M History NotificationConfig
notification_config data' = do
  d ← item "notification" data'
  retries' ← item "retries" d
  retry_delay' ← item "retry_delay" d
  timeout' ← item "timeout" d
  events' ← item "events" d
  pure (record {
    retries = retries';
    retry_delay = retry_delay';
    timeout = timeout';
    events = events';
  })

pub record VpnRoutesConfig : Type 0 where
  pub domains : Json
  pub wildcards : Json
  pub subnets : Json

-- `VpnRoutesConfig._from_yaml`, from the parsed file.
unfoldable pub vpn_routes_config : Json → M History VpnRoutesConfig
vpn_routes_config data' = do
  d ← item "vpn_routes" data'
  domains' ← item "domains" d
  wildcards' ← item "wildcards" d
  subnets' ← item "subnets" d
  pure (record { domains = domains'; wildcards = wildcards'; subnets = subnets' })

pub record NetworkConfig : Type 0 where
  pub tun_address : Json
  pub tun_mtu : Json
  pub mss_clamp : Json
  pub dns_servers : Json
  pub lan_subnets : Json
  pub bypass_priority_server_ips : Json
  pub bypass_priority_dns_start : Json
  pub bypass_priority_dns_end : Json
  pub bypass_priority_lan_start : Json
  pub bypass_priority_lan_end : Json
  pub bypass_priority_torrent : Json
  pub bypass_priority_catchall : Json

unfoldable pub network_config : Json → M History NetworkConfig
network_config data' = do
  net ← item "network" data'
  bp ← item "bypass_priorities" net
  tun ← item "tun" net
  address ← item "address" tun
  tun_again ← item "tun" net
  mtu ← item "mtu" tun_again
  mss ← item "mss_clamp" net
  dns ← item "dns_servers" net
  lan ← item "lan_subnets" net
  server_ips' ← item "server_ips" bp
  dns_start' ← item "dns_start" bp
  dns_end' ← item "dns_end" bp
  lan_start' ← item "lan_start" bp
  lan_end' ← item "lan_end" bp
  torrent' ← item "torrent" bp
  catchall' ← item "catchall" bp
  pure (record {
    tun_address = address;
    tun_mtu = mtu;
    mss_clamp = mss;
    dns_servers = dns;
    lan_subnets = lan;
    bypass_priority_server_ips = server_ips';
    bypass_priority_dns_start = dns_start';
    bypass_priority_dns_end = dns_end';
    bypass_priority_lan_start = lan_start';
    bypass_priority_lan_end = lan_end';
    bypass_priority_torrent = torrent';
    bypass_priority_catchall = catchall';
  })

pub record TunnelConfig : Type 0 where
  pub socks5_host : Json
  pub socks5_port : Json
  pub mac_proxy_enabled : Json
  pub mac_proxy_ip : Json
  pub mac_proxy_user : Json
  pub mac_proxy_port : Json

unfoldable pub tunnel_config : Json → M History TunnelConfig
tunnel_config data' = do
  t ← item "tunnel" data'
  mac ← item "mac_proxy" t
  socks ← item "socks5" t
  host' ← item "host" socks
  socks_again ← item "socks5" t
  port' ← item "port" socks_again
  enabled' ← item "enabled" mac
  ip' ← item "ip" mac
  user' ← item "user" mac
  mac_port ← item "port" mac
  pure (record {
    socks5_host = host';
    socks5_port = port';
    mac_proxy_enabled = enabled';
    mac_proxy_ip = ip';
    mac_proxy_user = user';
    mac_proxy_port = mac_port;
  })

pub record SubscriptionConfig : Type 0 where
  pub url : Json

abbrev pub or_default : Option Json → Json → Json
or_default none other = other
or_default (some v) other = v

abbrev pub get_url : Json → M History SubscriptionConfig
get_url (obj fs) = pure (record { url = or_default (lookup "url" fs) (str "") })
get_url other = raise (type_error "no method get")

-- `yaml.safe_load(f) or {}`
abbrev pub or_empty : Json → Json
or_empty data' = elim (truthy data') [ true ↦ data' | false ↦ obj end ]

unfoldable pub subscription_config : Json → M History SubscriptionConfig
subscription_config data' = get_url (or_empty data')

module _ (env : Env) (config_dir : String) where
  unfoldable pub load_app_config : M History AppConfig
  unfolding load_yaml app_config
  load_app_config = do data' ← load_yaml env config_dir "app.yaml"; app_config data'

  unfoldable pub load_network_config : M History NetworkConfig
  unfolding load_yaml network_config
  load_network_config = do data' ← load_yaml env config_dir "network.yaml"; network_config data'

  unfoldable pub load_health_config : M History HealthConfig
  unfolding load_yaml health_config
  load_health_config = do data' ← load_yaml env config_dir "health.yaml"; health_config data'

  unfoldable pub load_tunnel_config : M History TunnelConfig
  unfolding load_yaml tunnel_config
  load_tunnel_config = do data' ← load_yaml env config_dir "tunnel.yaml"; tunnel_config data'

  unfoldable pub load_notification_config : M History NotificationConfig
  unfolding load_yaml notification_config
  load_notification_config = do
    data' ← load_yaml env config_dir "notification.yaml"
    notification_config data'

  unfoldable pub load_bypass_config : M History BypassConfig
  unfolding load_yaml bypass_config
  load_bypass_config = do data' ← load_yaml env config_dir "bypass.yaml"; bypass_config data'

  unfoldable pub load_vpn_routes_config : M History VpnRoutesConfig
  unfolding load_yaml vpn_routes_config
  load_vpn_routes_config = do
    data' ← load_yaml env config_dir "vpn-routes.yaml"
    vpn_routes_config data'

  unfoldable pub load_subscription_config : M History SubscriptionConfig
  unfolding load_yaml subscription_config
  load_subscription_config = do
    data' ← load_yaml env config_dir "subscription.yaml"
    subscription_config data'
