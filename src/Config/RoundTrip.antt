-- ===== src/Config/RoundTrip.antt =====
-- A file that holds the values of a configuration object is read back as that object.
use virtual_private_network.Prelude.{String, ◌≡◌, refl}
use virtual_private_network.Ports.Effect.{ok}
use virtual_private_network.Ports.Env.{History}
use virtual_private_network.Ports.Json.{Json, obj, end, field, lookup}
use virtual_private_network.Config.{
  AppConfig, BypassConfig, HealthConfig, NotificationConfig, VpnRoutesConfig, NetworkConfig,
  TunnelConfig, app_config, bypass_config, health_config, notification_config, vpn_routes_config,
  network_config, tunnel_config,
}

-- `{key: value}`
abbrev pub under : String → Json → Json
under k v = obj (field k v end)

abbrev pub app_yaml : AppConfig → Json
app_yaml c = under "app" (
    obj (
      field "tag" c.tag (
        field "table_id" c.table_id (
          field "chain_name" c.chain_name (
            field "provider" c.provider (
              field "sing_box_service" c.sing_box_service
                (field "unbound_service" c.unbound_service end)))))))

abbrev pub bypass_yaml : BypassConfig → Json
bypass_yaml c = under "bypass" (obj (field "domains" c.domains (field "subnets" c.subnets end)))

abbrev pub health_yaml : HealthConfig → Json
health_yaml c = under "health" (
    obj (
      field "check_interval_min" c.check_interval_min (
        field "check_interval_max" c.check_interval_max (
          field "fail_threshold" c.fail_threshold (
            field "curl_timeout" c.curl_timeout
              (field "targets" c.targets (field "user_agents" c.user_agents end)))))))

abbrev pub notification_yaml : NotificationConfig → Json
notification_yaml c = under "notification" (
    obj (
      field "retries" c.retries (
        field "retry_delay" c.retry_delay
          (field "timeout" c.timeout (field "events" c.events end)))))

abbrev pub vpn_routes_yaml : VpnRoutesConfig → Json
vpn_routes_yaml c = under "vpn_routes" (
    obj (field "domains" c.domains (field "wildcards" c.wildcards (field "subnets" c.subnets end))))

abbrev pub network_yaml : NetworkConfig → Json
network_yaml c = under "network" (
    obj (
      field "tun" (obj (field "address" c.tun_address (field "mtu" c.tun_mtu end))) (
        field "mss_clamp" c.mss_clamp (
          field "dns_servers" c.dns_servers (
            field "lan_subnets" c.lan_subnets (
              field "bypass_priorities"
                (obj (
                  field "server_ips" c.bypass_priority_server_ips (
                    field "dns_start" c.bypass_priority_dns_start (
                      field "dns_end" c.bypass_priority_dns_end (
                        field "lan_start" c.bypass_priority_lan_start (
                          field "lan_end" c.bypass_priority_lan_end (
                            field "torrent" c.bypass_priority_torrent
                              (field "catchall" c.bypass_priority_catchall end))))))))
                end))))))

abbrev pub tunnel_yaml : TunnelConfig → Json
tunnel_yaml c = under "tunnel" (
    obj (
      field "socks5" (obj (field "host" c.socks5_host (field "port" c.socks5_port end))) (
        field "mac_proxy"
          (obj (
            field "enabled" c.mac_proxy_enabled (
              field "ip" c.mac_proxy_ip
                (field "user" c.mac_proxy_user (field "port" c.mac_proxy_port end)))))
          end)))

-- Every configuration object that is written under the keys of its file is read back as it was, with
-- nothing else done.
pub configs-yaml :
    (a : AppConfig) (b : BypassConfig) (c : HealthConfig) (n : NotificationConfig)
    (r : VpnRoutesConfig) (w : NetworkConfig) (t : TunnelConfig) (h : History)
    → (app_config (app_yaml a) h ≡ (ok a, h))
      × (bypass_config (bypass_yaml b) h ≡ (ok b, h))
      × (health_config (health_yaml c) h ≡ (ok c, h))
      × (notification_config (notification_yaml n) h ≡ (ok n, h))
      × (vpn_routes_config (vpn_routes_yaml r) h ≡ (ok r, h))
      × (network_config (network_yaml w) h ≡ (ok w, h))
      × (tunnel_config (tunnel_yaml t) h ≡ (ok t, h))
unfolding lookup app_config bypass_config health_config notification_config vpn_routes_config
    network_config tunnel_config
configs-yaml a b c n r w t h = (refl, refl, refl, refl, refl, refl, refl)
