-- ===== src/DnsClient/Udp/FirstAnswer.antt =====
-- `exchange` of internal/probe/dnsclient/dnsclient.go: which server's answer is returned.
use mailsec_probe.Common.{
  ℕ, ◌≡◌, refl, subst, ◌↔◌, ◌⊎◌, inl, inr, true, false, none, some, arith, All, ap, ◌∙◌, Bool,
  Option, List, [], ◌∷◌, ◌++◌, ◌≢◌,
}
use mailsec_probe.DnsClient.Udp.{
  Message, Question, Exchanged, Dns, ask, on_tcp, on_udp, UdpClient, try_servers, question_of,
  exchange, unless_truncated, exchange_with,
}
use mailsec_probe.Text.{Bytes}
use mailsec_probe.DnsClient.Doh.{RrType}

-- A server answers with a message: over UDP where that is not truncated, and else over TCP.
pub data Answers (net : Dns) (timeout : ℕ) (q : Question) (server : Bytes) (m : Message)
    : Type 0 where
  over_udp :
      net.udp timeout q server ≡ (some m, none)
      → m.truncated ≡ false
      → Answers net timeout q server m
  over_tcp :
      (part : Message)
      → net.udp timeout q server ≡ (some part, none)
      → part.truncated ≡ true
      → net.tcp timeout q server ≡ (some m, none)
      → Answers net timeout q server m

on_tcp-inl : (retried : Exchanged) (m : Message) → on_tcp retried ≡ inl m → retried ≡ (some m, none)
on_tcp-inl (some part, none) m h = ground arith
on_tcp-inl (none, none) m h = cc
on_tcp-inl (some part, some e) m h = cc
on_tcp-inl (none, some e) m h = cc

unless_truncated-inl :
    (part : Message) (cut_off : Bool) (retried : Exchanged) (m : Message)
    → unless_truncated part cut_off retried ≡ inl m
    → ((cut_off ≡ false) × (part ≡ m)) ⊎ ((cut_off ≡ true) × (retried ≡ (some m, none)))
unless_truncated-inl part true retried m h = inr (refl, on_tcp-inl retried m h)
unless_truncated-inl part false retried m h = inl (refl, cc)

on_udp-inl :
    (first retried : Exchanged) (m : Message)
    → on_udp first retried ≡ inl m
    → ((first ≡ (some m, none)) × (m.truncated ≡ false))
      ⊎ ((part : Message) × (first ≡ (some part, none))
          × (part.truncated ≡ true)
          × (retried ≡ (some m, none)))
on_udp-inl (some part, none) retried m h =
    elim (unless_truncated-inl part part.truncated retried m h) [
      | inl (complete, same) ↦
          inl (ap (λ p. (some p, none)) same, subst (λ p. p.truncated ≡ false) same complete)
      | inr (cut_off, e) ↦ inr (part, refl, cut_off, e)
    ]
on_udp-inl (none, none) retried m h = cc
on_udp-inl (some part, some e) retried m h = cc
on_udp-inl (none, some e) retried m h = cc

ask-Answers :
    (net : Dns) (timeout : ℕ) (q : Question) (server : Bytes) (m : Message)
    → ask net timeout q server ≡ inl m
    → Answers net timeout q server m
ask-Answers net timeout q server m h =
    elim (on_udp-inl (net.udp timeout q server) (net.tcp timeout q server) m h) [
      | inl (e, complete) ↦ over_udp e complete
      | inr (part, e, cut_off, again) ↦ over_tcp part e cut_off again
    ]

Answers-ask :
    (net : Dns) (timeout : ℕ) (q : Question) (server : Bytes) (m : Message)
    → Answers net timeout q server m
    → ask net timeout q server ≡ inl m
Answers-ask net timeout q server m (over_udp e complete) = rw (e, complete)
Answers-ask net timeout q server m (over_tcp part e cut_off again) = rw (e, again, cut_off)

-- A server gives no message that is returned.
abbrev pub Silent : Dns → ℕ → Question → Bytes → Type 0
Silent net timeout q server = (m : Message) → ¬ Answers net timeout q server m

-- The first server of a list that answers, and its message.
pub record IsFirst (net : Dns) (timeout : ℕ) (q : Question) (servers : List Bytes) (m : Message)
    : Type 0 where
  pub before : List Bytes
  pub server : Bytes
  pub after : List Bytes
  pub split : servers ≡ before ++ server ∷ after
  pub silent : All (Silent net timeout q) before
  pub says : Answers net timeout q server m

ask-cases :
    (o : Message ⊎ Option Bytes)
    → ((m : Message) × (o ≡ inl m)) ⊎ ((e : Option Bytes) × (o ≡ inr e))
ask-cases (inl m) = inl (m, refl)
ask-cases (inr e) = inr (e, refl)

module _ (net : Dns) (timeout : ℕ) (q : Question) (name : Bytes) where
  ask-inr-Silent :
      (server : Bytes) (e : Option Bytes)
      → ask net timeout q server ≡ inr e
      → Silent net timeout q server
  ask-inr-Silent server e h = λ m a. let hit = Answers-ask net timeout q server m a in cc

  try_servers-IsFirst :
      (servers : List Bytes) (last : Option Bytes) (m : Message)
      → try_servers net timeout q name last servers ≡ inl m
      → IsFirst net timeout q servers m
  unfolding try_servers
  try_servers-IsFirst [] last m h = cc
  try_servers-IsFirst (s ∷ servers) last m h = elim (ask-cases (ask net timeout q s)) [
    | inl (here, e) ↦
        let same : here ≡ m = let eq : inl here ≡ inl m = rw e at h in cc in
        record {
          before = [];
          server = s;
          after = servers;
          split = refl;
          silent = tt;
          says = ask-Answers net timeout q s m (e ∙ ap inl same);
        }
    | inr (why, e) ↦
        let rest = try_servers-IsFirst servers why m (rw e at h) in
        record {
          before = s ∷ rest.before;
          server = rest.server;
          after = rest.after;
          split = ap (◌∷◌ s) rest.split;
          silent = (ask-inr-Silent s why e, rest.silent);
          says = rest.says;
        }
  ]

  IsFirst-try_servers :
      (before : List Bytes) (server : Bytes) (after : List Bytes) (last : Option Bytes)
      (m : Message)
      → All (Silent net timeout q) before
      → Answers net timeout q server m
      → try_servers net timeout q name last (before ++ server ∷ after) ≡ inl m
  unfolding try_servers
  IsFirst-try_servers [] server after last m silent a = rw (Answers-ask net timeout q server m a)
  IsFirst-try_servers (s ∷ before) server after last m silent a =
      elim (ask-cases (ask net timeout q s)) [
        | inl (here, e) ↦ absurd (silent.0 here (ask-Answers net timeout q s here e))
        | inr (why, e) ↦ rw e (IsFirst-try_servers before server after why m silent.1 a)
      ]

no_server : {net : Dns} {timeout : ℕ} {q : Question} {m : Message} → ¬ IsFirst net timeout q [] m
no_server = λ f. go f.before f.server f.after f.split
  where
    go : (before : List Bytes) (server : Bytes) (after : List Bytes) → [] ≢ before ++ server ∷ after
    go [] server after = λ e. cc
    go (b ∷ before) server after = λ e. cc

exchange_with-IsFirst :
    (net : Dns) (c : UdpClient) (name : Bytes) (qtype : RrType) (m : Message) (servers : List Bytes)
    → (exchange_with net c name qtype servers ≡ inl m)
      ↔ IsFirst net c.timeout (question_of net name qtype) servers m
exchange_with-IsFirst net c name qtype m [] = ((λ h. absurd cc), λ f. absurd (no_server f))
exchange_with-IsFirst net c name qtype m (s ∷ servers) =
    let q = question_of net name qtype in
    (
      (λ h. try_servers-IsFirst net c.timeout q name (s ∷ servers) none m h),
      λ f.
          ap (try_servers net c.timeout q name none) f.split
          ∙ IsFirst-try_servers net c.timeout q name f.before f.server f.after none m f.silent
              f.says,
    )

-- `exchange` returns a message exactly where some server answers with it, over UDP or, when that
-- answer is truncated, over TCP, and no server before it answers.
pub exchange-IsFirst :
    (net : Dns) (c : UdpClient) (name : Bytes) (qtype : RrType) (m : Message)
    → (exchange net c name qtype ≡ inl m)
      ↔ IsFirst net c.timeout (question_of net name qtype) c.servers m
unfolding exchange
exchange-IsFirst net c name qtype m = exchange_with-IsFirst net c name qtype m c.servers
