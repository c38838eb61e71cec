-- ===== src/MtaTls/Dial.antt =====
-- internal/probe/mtatls/dialer.go: one connection to one MX host. net, net/smtp and crypto/tls are
-- arguments: what they return, and what the program asks of them, in order.
pub mod Session
use mailsec_probe.MtaTls.{Certificate, MxProbeResult, no_result, Dialer}
use mailsec_probe.Common.{
  leb, if◌then◌else◌, ℕ, ◌*◌, Bool, true, Option, none, some, List, [], ◌∷◌, ◌++◌,
}
use mailsec_probe.Text.{Bytes, codes, decimal}

pub record TlsConfig : Type 0 where
  pub server_name : Bytes
  pub min_version : ℕ
  pub insecure_skip_verify : Bool

-- What the program reads of a `tls.ConnectionState`.
pub record TlsState : Type 0 where
  pub version : ℕ
  pub cipher_suite : ℕ
  pub certificates : List Certificate

-- An open connection. `greeting` is the error of `smtp.NewClient`, `hello` that of EHLO with a name,
-- `extension` the first result of `Extension`, and `start_tls` the error of `StartTLS`.
pub record Connection : Type 0 where
  pub greeting : Option Bytes
  pub hello : Bytes → Option Bytes
  pub extension : Bytes → Bool
  pub start_tls : TlsConfig → Option Bytes
  pub tls_state : Option TlsState

pub data Dialled : Type 0 where
  refused : Bytes → Dialled
  opened : Connection → Dialled

-- The network as a probe meets it. `elapsed` is the time that the probe of an address takes, in
-- milliseconds.
pub record Network : Type 0 where
  pub join_host_port : Bytes → Bytes → Bytes
  pub dial : ℕ → Bytes → Dialled
  pub elapsed : Bytes → ℕ

-- What the program does to the network.
pub data Action : Type 0 where
  dial_tcp : Bytes → Action
  set_deadline : ℕ → Action
  read_greeting : Action
  send_ehlo : Bytes → Action
  ask_extension : Bytes → Action
  send_starttls : TlsConfig → Action
  send_quit : Action
  close_conn : Action

abbrev pub starttls_word : Bytes
starttls_word = codes "STARTTLS"

-- `tls.VersionTLS12` is 0x0303.
abbrev pub config_of : Bytes → TlsConfig
config_of host = record { server_name = host; min_version = 771; insecure_skip_verify = true }

abbrev accept : MxProbeResult → TlsState → MxProbeResult
accept r state = record r {
  starttls_accepted = true;
  tls_version = state.version;
  tls_cipher_suite = state.cipher_suite;
  peer_certificates = state.certificates;
}

abbrev with_state : MxProbeResult → Option TlsState → MxProbeResult
with_state r none = record r { tls_err = codes "no TLS connection state after StartTLS" }
with_state r (some state) = accept r state

-- Behind `StartTLS`, whose error is the second argument.
abbrev after_starttls : MxProbeResult → Option Bytes → Option TlsState → MxProbeResult
after_starttls r (some e) state = record r { tls_err = e }
after_starttls r none state = with_state r state

abbrev advertise : MxProbeResult → MxProbeResult
advertise r = record r {
  starttls_advertised = true;
  ehlo_capabilities = r.ehlo_capabilities ++ starttls_word ∷ [];
}

-- Behind EHLO: `STARTTLS` is asked for, and without it the probe ends.
abbrev negotiate : MxProbeResult → Connection → Bytes → MxProbeResult × List Action
negotiate r c host =
    if c.extension starttls_word
    then (
      after_starttls (advertise r) (c.start_tls (config_of host)) c.tls_state,
      ask_extension starttls_word ∷ send_starttls (config_of host) ∷ [],
    )
    else (r, ask_extension starttls_word ∷ [])

abbrev before : Action → MxProbeResult × List Action → MxProbeResult × List Action
before a (r, actions) = (r, a ∷ actions)

-- A deferred call, which runs last.
abbrev finally : Action → MxProbeResult × List Action → MxProbeResult × List Action
finally a (r, actions) = (r, actions ++ a ∷ [])

abbrev greet :
    MxProbeResult → Connection → Bytes → Bytes → Option Bytes → MxProbeResult × List Action
greet r c host our_name (some e) =
    (record r { connect_err = codes "EHLO: " ++ e }, send_ehlo our_name ∷ [])
greet r c host our_name none = before (send_ehlo our_name) (negotiate r c host)

-- `QUIT` is deferred only when the client exists.
abbrev talk :
    MxProbeResult → Connection → Bytes → Bytes → Option Bytes → MxProbeResult × List Action
talk r c host our_name (some e) =
    (record r { connect_err = codes "smtp.NewClient: " ++ e }, read_greeting ∷ [])
talk r c host our_name none =
    before read_greeting (finally send_quit (greet r c host our_name (c.hello our_name)))

abbrev on_dial : MxProbeResult → ℕ → Bytes → Bytes → Dialled → MxProbeResult × List Action
on_dial r timeout host our_name (refused e) = (record r { connect_err = e }, [])
on_dial r timeout host our_name (opened c) =
    before (set_deadline timeout)
      (finally close_conn (talk (record r { connected = true }) c host our_name c.greeting))

abbrev timed : ℕ → MxProbeResult × List Action → MxProbeResult × List Action
timed ms (r, actions) = (record r { duration_ms = ms }, actions)

abbrev pub address_of : Network → Bytes → ℕ → Bytes
address_of net host port = net.join_host_port host (decimal port)

-- `smtpDialer.Probe`: its result and its actions.
unfoldable pub probe : Network → ℕ → Bytes → ℕ → Bytes → MxProbeResult × List Action
unfolding decimal
probe net timeout host port our_name =
    let address = address_of net host port in
    timed (net.elapsed address) (
      before (dial_tcp address) (
        on_dial (record no_result { host = host; port = port }) timeout host our_name
          (net.dial timeout address)))

-- `NewDialer`: a time limit of zero or less is replaced by ten seconds, in milliseconds.
abbrev pub time_limit : ℕ → ℕ
time_limit per_host = if leb per_host 0 then 10 * 1000 else per_host

unfoldable pub new_dialer : Network → ℕ → Dialer
unfolding probe
new_dialer net per_host =
    λ host port our_name. (probe net (time_limit per_host) host port our_name).0
