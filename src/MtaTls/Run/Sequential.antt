-- ===== src/MtaTls/Run/Sequential.antt =====
-- `Run` of internal/probe/mtatls/mtatls.go, with its fan-outs, does what a run does that visits one
-- host after the other.
use mailsec_probe.MtaTls.Run.{
  Probe, run, limit, dial_host, look, zip, seen_of, Order, observe, on_mx, unique_mx_hosts,
}
use mailsec_probe.Common.{
  length, ℕ, suc, ◌<◌, ◌≡◌, refl, ap, List, [], ◌∷◌, map, arith, Option, none, some,
}
use mailsec_probe.MtaTls.{no_result, Crypto}
use mailsec_probe.FanOut.{IsComplete}
use mailsec_probe.FanOut.Order.{fan_out-map}
use mailsec_probe.MtaTls.Features.{no_look, Seen}
use mailsec_probe.Signals.{Feature}
use mailsec_probe.Text.{Bytes}
use mailsec_probe.MtaTls.Report.{Details}
use mailsec_probe.DnsClient.{MxResult}

-- Every goroutine is served, as long as the limit lets one start.
abbrev pub Serves : Order → Type 0
Serves order = (n : ℕ) (hosts : List Bytes) → 0 < n → IsComplete hosts (order n hosts)

-- The visit of one host: the connection, then the TLSA lookup and the check of the chain.
abbrev pub visit : Crypto → Probe → Bytes → Seen
visit crypto p h = record {
  host = h;
  dialled = dial_host p h;
  looked = look crypto p (h, dial_host p h);
}

-- The specification: the hosts are visited one after the other, in their order.
unfoldable pub run_sequential : Crypto → Probe → Bytes → List (Feature Details)
run_sequential crypto p domain = on_mx crypto (map (visit crypto p)) (p.dns.lookup_mx domain)

zip-map-visit :
    (crypto : Crypto) (p : Probe) (hosts : List Bytes)
    → map seen_of (
        zip
          (zip hosts (map (dial_host p) hosts))
          (map (look crypto p) (zip hosts (map (dial_host p) hosts))))
      ≡ map (visit crypto p) hosts
zip-map-visit crypto p [] = refl
zip-map-visit crypto p (h ∷ hosts) = ap (◌∷◌ (visit crypto p h)) (zip-map-visit crypto p hosts)

length-zip-map : {A B : Type 0} (f : A → B) (xs : List A) → length (zip xs (map f xs)) ≡ length xs
length-zip-map f [] = refl
length-zip-map f (x ∷ xs) = ap suc (length-zip-map f xs)

limit_pos : (p : Probe) → 0 < limit p
limit_pos p = ground arith

pub observe-visit :
    (crypto : Crypto) (p : Probe) (first second : Order) (hosts : List Bytes)
    → Serves first
    → Serves second
    → observe crypto p first second hosts ≡ map (visit crypto p) hosts
observe-visit crypto p first second hosts s1 s2 =
    let once =
      fan_out-map (dial_host p) no_result hosts (first (limit p) hosts)
        (s1 (limit p) hosts (limit_pos p)) in
    let pairs = zip hosts (map (dial_host p) hosts) in
    let twice = fan_out-map (look crypto p) no_look pairs (second (limit p) hosts) (λ i h.
      s2 (limit p) hosts (limit_pos p) i (omega (arith, h, length-zip-map (dial_host p) hosts))) in
    rw (once, twice) (zip-map-visit crypto p hosts)

on_mx-sequential :
    (crypto : Crypto) (p : Probe) (first second : Order)
    → Serves first
    → Serves second
    → (answered : MxResult × Option Bytes)
    → on_mx crypto (observe crypto p first second) answered
      ≡ on_mx crypto (map (visit crypto p)) answered
on_mx-sequential crypto p first second s1 s2 (res, some e) = refl
on_mx-sequential crypto p first second s1 s2 (res, none) =
    rw (observe-visit crypto p first second (unique_mx_hosts res.records) s1 s2)

-- In whatever order the goroutines of the two fan-outs finish, as long as each is served, a run
-- gives the features of the sequential run.
pub run-run_sequential :
    (crypto : Crypto) (p : Probe) (first second : Order) (domain : Bytes)
    → Serves first
    → Serves second
    → run crypto p first second domain ≡ run_sequential crypto p domain
unfolding run run_sequential
run-run_sequential crypto p first second domain s1 s2 =
    on_mx-sequential crypto p first second s1 s2 (p.dns.lookup_mx domain)
