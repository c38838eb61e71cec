-- ===== src/DnsClient/Udp/Build.antt =====
-- `New` and `ensurePort` of internal/probe/dnsclient/dnsclient.go: the choice of a client.
use mailsec_probe.Common.{
  ◌==◌, if◌then◌else◌, ℕ, ◌*◌, ◌⊎◌, inl, inr, Bool, not, Option, none, some, List, [], ◌∷◌, ◌++◌,
  map,
}
use mailsec_probe.DnsClient.{Client}
use mailsec_probe.DnsClient.Doh.{is_doh_url, Resolver, new_doh}
use mailsec_probe.DnsClient.Udp.{Dns, UdpClient, udp_client}
use mailsec_probe.Text.{Bytes, codes}

pub record Config : Type 0 where
  pub server : Bytes
  pub timeout : ℕ

-- net and miekg/dns: whether `SplitHostPort` succeeds, `JoinHostPort`, the servers and the port of
-- /etc/resolv.conf if it can be read, and the resolver over HTTPS at a URL.
pub record Environment : Type 0 where
  pub splits : Bytes → Bool
  pub join_host_port : Bytes → Bytes → Bytes
  pub resolv_conf : Option (List Bytes × Bytes)
  pub resolver_at : Bytes → Resolver
  pub exchanges : Dns

abbrev pub ensure_port : Environment → Bytes → Bytes
ensure_port env s = if env.splits s then s else env.join_host_port s (codes "53")

abbrev conf_servers : Environment → Option (List Bytes × Bytes) → List Bytes
conf_servers env none = []
conf_servers env (some (servers, port)) = map (λ s. env.join_host_port s port) servers

abbrev or_fallback : List Bytes → List Bytes
or_fallback [] = codes "1.1.1.1:53" ∷ codes "8.8.8.8:53" ∷ []
or_fallback (s ∷ servers) = s ∷ servers

abbrev pub servers_of : Environment → Bytes → List Bytes
servers_of env [] = or_fallback (conf_servers env env.resolv_conf)
servers_of env (c ∷ server) = ensure_port env (c ∷ server) ∷ []

-- Five seconds, in milliseconds.
abbrev pub timeout_of : ℕ → ℕ
timeout_of t = if t == 0 then 5 * 1000 else t

-- `NewDoHFromURL` of internal/probe/dnsclient/doh.go.
abbrev pub new_doh_from_url : Environment → Bytes → Client ⊎ Bytes
new_doh_from_url env url =
    if not (is_doh_url url)
    then inr (codes "dnsclient: \"" ++ (url ++ codes "\" is not a DoH URL"))
    else inl (new_doh (env.resolver_at url))

abbrev pub udp_of : Environment → Config → UdpClient
udp_of env cfg = record { servers = servers_of env cfg.server; timeout = timeout_of cfg.timeout }

unfoldable pub new_client : Environment → Config → Client ⊎ Bytes
unfolding is_doh_url new_doh udp_client
new_client env cfg =
    if is_doh_url cfg.server
    then new_doh_from_url env cfg.server
    else inl (udp_client env.exchanges (udp_of env cfg))
