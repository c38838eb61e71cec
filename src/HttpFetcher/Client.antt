-- ===== src/HttpFetcher/Client.antt =====
-- `New` of internal/probe/httpfetcher/httpfetcher.go and the methods of its `fetcher`. net/http is an
-- argument; the time limit of a context and the closing of a body are left out.
use mailsec_probe.HttpFetcher.{Fetcher}
use mailsec_probe.Text.{Bytes, codes}
use mailsec_probe.Common.{ℕ, ◌*◌, ◌⊎◌, inl, inr, Option, none, some, [], ◌∷◌}

pub record Request : Type 0 where
  pub method : Bytes
  pub url : Bytes
  pub user_agent : Bytes

-- A response: its status, and what `ReadAll` gives of the body behind a `LimitReader` of some size.
pub record Reply : Type 0 where
  pub status_code : ℕ
  pub read_all : ℕ → Bytes × Option Bytes

-- `refuses` is the error of `NewRequestWithContext` on a method and a URL. `send` is the method `Do` of
-- a client with a time limit and a lowest version of TLS.
pub record Web : Type 0 where
  pub refuses : Bytes → Bytes → Option Bytes
  pub send : ℕ → ℕ → Request → Reply ⊎ Bytes

abbrev default_user_agent : Bytes
default_user_agent = codes "mailsec-probe/0.1 (+https://github.com/shigeya/mailsec-probe)"

abbrev agent_of : Bytes → Bytes
agent_of [] = default_user_agent
agent_of (c ∷ user_agent) = c ∷ user_agent

-- `req`, or its error, and then `f.client.Do(req)`; `tls.VersionTLS12` is 0x0303.
abbrev send_request : Web → ℕ → Request → Option Bytes → Reply ⊎ Bytes
send_request web timeout r (some e) = inr e
send_request web timeout r none = web.send timeout 771 r

abbrev do_request : Web → ℕ → Bytes → Bytes → Bytes → Reply ⊎ Bytes
do_request web timeout user_agent method url =
    send_request web timeout (record { method = method; url = url; user_agent = user_agent })
      (web.refuses method url)

abbrev with_body : ℕ → Bytes × Option Bytes → ℕ × Bytes × Option Bytes
with_body status (body, some e) = (status, [], some e)
with_body status (body, none) = (status, body, none)

-- `Get` reads at most 64 KiB.
abbrev got : Reply ⊎ Bytes → ℕ × Bytes × Option Bytes
got (inr e) = (0, [], some e)
got (inl reply) = with_body reply.status_code (reply.read_all (64 * 1024))

abbrev headed : Reply ⊎ Bytes → ℕ × Option Bytes
headed (inr e) = (0, some e)
headed (inl reply) = (reply.status_code, none)

unfoldable pub new_fetcher : Web → ℕ → Bytes → Fetcher
new_fetcher web timeout user_agent = record {
  get = λ url. got (do_request web timeout (agent_of user_agent) (codes "GET") url);
  head = λ url. headed (do_request web timeout (agent_of user_agent) (codes "HEAD") url);
}
