-- ===== src/MtaTls/Dial/Session.antt =====
-- `smtpDialer.Probe` of internal/probe/mtatls/dialer.go: the order of its actions, and what it reports.
use mailsec_probe.Common.{
  Option-cases, Bool-cases, ℕ, ◌≡◌, refl, ◌≢◌, inl, inr, true, false, Option, none, some, List, [],
  ◌∷◌, ◌⊎◌, ◌↔◌,
}
use mailsec_probe.MtaTls.Dial.{
  Connection, opened, Network, Action, dial_tcp, set_deadline, read_greeting, send_ehlo,
  ask_extension, send_starttls, send_quit, close_conn, starttls_word, config_of, probe, TlsState,
  address_of, refused, Dialled,
}
use mailsec_probe.Text.{Bytes}
use mailsec_probe.MtaTls.{MxProbeResult}

-- How far a session has come.
pub data Phase : Type 0 where
  dialling limited greeted introduced questioned secured quitted closed : Phase

-- The actions that a session allows, given the host, the name for EHLO and the connection. It is
-- closed without QUIT only where the greeting failed, and STARTTLS is sent only where it is offered,
-- for the host's name. No mail is sent.
pub data Step (host our_name : Bytes) (c : Connection) : Phase → Action → Phase → Type 0 where
  to_limit : (t : ℕ) → Step host our_name c dialling (set_deadline t) limited
  to_greeting : Step host our_name c limited read_greeting greeted
  ungreeted : c.greeting ≢ none → Step host our_name c greeted close_conn closed
  to_ehlo : c.greeting ≡ none → Step host our_name c greeted (send_ehlo our_name) introduced
  to_question :
      c.hello our_name ≡ none
      → Step host our_name c introduced (ask_extension starttls_word) questioned
  to_tls :
      c.extension starttls_word ≡ true
      → Step host our_name c questioned (send_starttls (config_of host)) secured
  no_hello : c.hello our_name ≢ none → Step host our_name c introduced send_quit quitted
  no_tls : c.extension starttls_word ≡ false → Step host our_name c questioned send_quit quitted
  to_quit : Step host our_name c secured send_quit quitted
  to_close : Step host our_name c quitted close_conn closed

infixr 20 ◌⇒◌
pub data Session (host our_name : Bytes) (c : Connection)
    : Phase → List Action → Phase → Type 0 where
  ended : {p : Phase} → Session host our_name c p [] p
  ◌⇒◌ :
      {p q r : Phase} {a : Action} {actions : List Action}
      → Step host our_name c p a q
      → Session host our_name c q actions r
      → Session host our_name c p (a ∷ actions) r

Dialled-cases :
    (d : Dialled) → ((e : Bytes) × (d ≡ refused e)) ⊎ ((c : Connection) × (d ≡ opened c))
Dialled-cases (refused e) = inl (e, refl)
Dialled-cases (opened c) = inr (c, refl)

some≢none {ℓ} : {A : Type ℓ} {o : Option A} (a : A) → o ≡ some a → o ≢ none
some≢none a e = λ n. cc

module _ (net : Network) (timeout : ℕ) (host : Bytes) (port : ℕ) (our_name : Bytes) where
  abbrev Closes : Connection → Type 0
  Closes c =
      (actions : List Action) × ((probe net timeout host port our_name).1
        ≡ dial_tcp (address_of net host port) ∷ actions)
      × Session host our_name c dialling actions closed

  closes :
      {c : Connection} {actions : List Action}
      → Session host our_name c dialling actions closed
      → (probe net timeout host port our_name).1 ≡ dial_tcp (address_of net host port) ∷ actions
      → Closes c
  closes {actions = actions} s e = (actions, e, s)

  -- On a connection that is opened, the actions of a probe are the dialling, and then a session that
  -- ends with the connection closed.
  pub probe-closed :
      (c : Connection)
      → net.dial timeout (address_of net host port) ≡ opened c
      → (actions : List Action) × ((probe net timeout host port our_name).1
          ≡ dial_tcp (address_of net host port) ∷ actions)
        × Session host our_name c dialling actions closed
  unfolding probe
  probe-closed c up = elim (Option-cases c.greeting) [
    | inr (e, bad) ↦
        closes (to_limit timeout ⇒ to_greeting ⇒ ungreeted (some≢none e bad) ⇒ ended) (rw (up, bad))
    | inl fine ↦ elim (Option-cases (c.hello our_name)) [
      | inr (e, bad) ↦
          closes
            (to_limit timeout
              ⇒ to_greeting
              ⇒ to_ehlo fine
              ⇒ no_hello (some≢none e bad)
              ⇒ to_close
              ⇒ ended)
            (rw (up, fine, bad))
      | inl known ↦ elim (Bool-cases (c.extension starttls_word)) [
        | inl offered ↦
            closes
              (to_limit timeout
                ⇒ to_greeting
                ⇒ to_ehlo fine
                ⇒ to_question known
                ⇒ to_tls offered
                ⇒ to_quit
                ⇒ to_close
                ⇒ ended)
              (rw (up, fine, known, offered))
        | inr bare ↦
            closes
              (to_limit timeout
                ⇒ to_greeting
                ⇒ to_ehlo fine
                ⇒ to_question known
                ⇒ no_tls bare
                ⇒ to_close
                ⇒ ended)
              (rw (up, fine, known, bare))
      ]
    ]
  ]

  -- A server that greets, answers EHLO, offers STARTTLS and completes it, and the state of TLS then.
  pub record IsSecured (state : TlsState) : Type 0 where
    pub connection : Connection
    pub opens : net.dial timeout (address_of net host port) ≡ opened connection
    pub greets : connection.greeting ≡ none
    pub knows_us : connection.hello our_name ≡ none
    pub offers : connection.extension starttls_word ≡ true
    pub upgrades : connection.start_tls (config_of host) ≡ none
    pub agreed : connection.tls_state ≡ some state

  -- What a result says of TLS when STARTTLS is accepted.
  pub record IsAccepted (r : MxProbeResult) (state : TlsState) : Type 0 where
    pub connected : r.connected ≡ true
    pub advertised : r.starttls_advertised ≡ true
    pub no_connect_err : r.connect_err ≡ []
    pub no_tls_err : r.tls_err ≡ []
    pub version : r.tls_version ≡ state.version
    pub cipher_suite : r.tls_cipher_suite ≡ state.cipher_suite
    pub chain : r.peer_certificates ≡ state.certificates

  IsSecured-IsAccepted :
      (state : TlsState)
      → IsSecured state
      → ((probe net timeout host port our_name).0.starttls_accepted ≡ true)
        × IsAccepted (probe net timeout host port our_name).0 state
  unfolding probe
  IsSecured-IsAccepted state s =
      rw (s.opens, s.greets, s.knows_us, s.offers, s.upgrades, s.agreed)
        (
          refl,
          record {
            connected = refl;
            advertised = refl;
            no_connect_err = refl;
            no_tls_err = refl;
            version = refl;
            cipher_suite = refl;
            chain = refl;
          },
        )

  pub accepted-IsSecured :
      (probe net timeout host port our_name).0.starttls_accepted ≡ true
      → (state : TlsState) × IsSecured state
  unfolding probe
  accepted-IsSecured h = elim (Dialled-cases (net.dial timeout (address_of net host port))) [
    | inl (e, down) ↦ let never : false ≡ true = rw down at h in cc
    | inr (c, up) ↦ elim (Option-cases c.greeting) [
      | inr (e, bad) ↦ let never : false ≡ true = rw (up, bad) at h in cc
      | inl fine ↦ elim (Option-cases (c.hello our_name)) [
        | inr (e, bad) ↦ let never : false ≡ true = rw (up, fine, bad) at h in cc
        | inl known ↦ elim (Bool-cases (c.extension starttls_word)) [
          | inr bare ↦ let never : false ≡ true = rw (up, fine, known, bare) at h in cc
          | inl offered ↦ elim (Option-cases (c.start_tls (config_of host))) [
            | inr (e, bad) ↦
                let never : false ≡ true = rw (up, fine, known, offered, bad) at h in cc
            | inl done ↦ elim (Option-cases c.tls_state) [
              | inl lost ↦
                  let never : false ≡ true = rw (up, fine, known, offered, done, lost) at h in cc
              | inr (state, agreed) ↦ (
                state,
                record {
                  connection = c;
                  opens = up;
                  greets = fine;
                  knows_us = known;
                  offers = offered;
                  upgrades = done;
                  agreed = agreed;
                },
              )
            ]
          ]
        ]
      ]
    ]
  ]

  -- STARTTLS is reported as accepted exactly when the server opens the connection, greets, answers
  -- EHLO, offers STARTTLS, completes it for the host's name and has a TLS state; then the result has
  -- no error, and its version, cipher suite and certificates are those of that state.
  pub probe-IsAccepted : ((probe net timeout host port our_name).0.starttls_accepted ≡ true) ↔ (
      (state : TlsState) × IsSecured state
      × IsAccepted (probe net timeout host port our_name).0 state)
  probe-IsAccepted = (
    (λ h. let (state, s) = accepted-IsSecured h in (state, s, (IsSecured-IsAccepted state s).1)),
    λ (state, s, _). (IsSecured-IsAccepted state s).0,
  )
