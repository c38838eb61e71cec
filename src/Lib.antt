-- ===== src/Lib.antt =====
-- mailsec-probe: observing the mail-security records of a domain.
-- A run asks the DNS, and for MTA-STS and DMARC the web, what a domain publishes, and each probe
-- turns the answers into features: a status (present, absent, unknown, misconfigured, skipped), a
-- confidence, reasons, details and the signals that were seen.
--
-- Texts are lists of bytes, and Go's `strings` on them is that of ASCII: white space and letter case
-- beyond ASCII are not modelled. Numbers are natural numbers; a confidence is held in hundredths;
-- the lengths in a DKIM key are 64-bit patterns with their wrap. An error is its text. A context
-- with its timeout is left out: a client and a fetcher are records of functions, which answer each
-- query in one way. Goroutines write each to its own place of a slice: FanOut models this for any
-- order in which they finish, and in the DKIM probe their work is a `map` over the list. A panic is a
-- value of `Outcome`: Cli/Command ends by it if a probe panics on some domain. `run` of Cli and of
-- Classifier take probes that return.
--
-- The files and what they model:
--   Text, Text/: Go's `strings` on bytes, and its laws; Common: Booleans, options and lists
--   Sort, Scanner, Dedupe, Outcome: sort.SliceStable, bufio.Scanner, the loops that remove
--     duplicates (`dedupe` of internal/probe/dkim/dkim.go and its likes), and panics
--   Signals: internal/signals/signals.go
--   TxtTag: internal/probe/txttag/txttag.go (Parse, Get, Has, PickByVersion)
--   DnsClient: the results and the interface of internal/probe/dnsclient/dnsclient.go;
--     DnsClient/Hex: hexDecode and hexNibble; DnsClient/Udp: exchange and the lookups of `client`, with
--     Build for `New`; DnsClient/Doh: internal/probe/dnsclient/doh.go over a resolver that is an
--     argument; DnsClient/Mock: internal/probe/dnsclient/mock.go
--   HttpFetcher: the interface of internal/probe/httpfetcher/httpfetcher.go; HttpFetcher/Client: `New`
--   Spf, Dmarc, TlsRpt, Bimi, Mx, MtaSts, DnsSec: the probe of that name under internal/probe, each
--     with `run_one` for `runOne` and `summary` for `Details.Summary`
--   Dkim/Der, Dkim/Key, Dkim/Scan, Dkim/Build: internal/probe/dkim/dkim.go (parseRSAModulusBits;
--     parseKey and rsaKeySize; runOne; `New` and its loaders); Dkim/Infer: internal/probe/dkim/inference.go
--   MtaTls, MtaTls/: internal/probe/mtatls. Dial: dialer.go, whose `Probe` is its result and the list
--     of its actions; Chain: VerifyChain, TLSVersionName and matchTLSA; Report: the details and their
--     summaries; Features: the second half of `Run`, from what was observed to the two features; Run:
--     `New`, the MX lookup and the two fan-outs
--   FanOut: the errgroup fan-outs, as writes to the places of a slice in the order of a schedule
--   Classifier: internal/classifier/classifier.go (featureOrder, Run)
--   Cli: internal/cli/input.go (readDomainsFile, mergeDomains) and, of internal/cli/cli.go,
--     anyDomainFailed and run with its exit codes; Cli/Build: rootOpts, buildTransports and buildProbes;
--     Cli/Suite: the probes under one interface, and the stub for a DKIM scan that is off;
--     Cli/Command: `run` as a whole, from the options to what is written or to a panic
--   Output: internal/output/tsv.go (WriteTSV, sanitiseTSV); Output/Color: internal/output/color.go;
--     Output/Human: internal/output/human.go
--   Stats: `Compute` of internal/output/stats.go; Stats/Writers: its writers
--   Tests, Tests/: clients, records and keys at which the theorems are applied
-- The probes take the DNS client, the fetcher and the DNSSEC verifier as arguments; four probes and
-- the DKIM scan read their records by TxtTag.
--
-- Recursion is structural. The fuel of `decimal` is the number itself, which is enough since each
-- round divides it by ten. The scanner's limits, 1 MiB for a line of a policy and 4 MiB for a line of
-- the list of domains, are written out.
--
-- Not modelled: the parsing of flags and the logging in internal/cli/cli.go, which packages
-- outside the repository do, the JSON document of internal/output/json.go, which encoding/json
-- writes, and the time limits of contexts. The documents of rules/ are data. The packages
-- miekg/dns, dnsdata-go, yaml, net, net/http, net/smtp, crypto/tls and crypto/x509 are arguments
-- of the definitions that call them.
pub mod Common
pub mod Text
pub mod Signals
pub mod DnsClient
pub mod TxtTag
pub mod Sort
pub mod HttpFetcher
pub mod Spf
pub mod Dmarc
pub mod TlsRpt
pub mod Bimi
pub mod Mx
pub mod Scanner
pub mod MtaSts
pub mod Outcome
pub mod Dedupe
pub mod Dkim
pub mod DnsSec
pub mod FanOut
pub mod Classifier
pub mod Cli
pub mod Output
pub mod Stats
pub mod MtaTls
pub mod Tests
