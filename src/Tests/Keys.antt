-- ===== src/Tests/Keys.antt =====
-- The theorems on DKIM, at concrete keys.
use mailsec_probe.Common.{length, ◌≤◌, ◌≡◌, refl, subst, ◌↔◌, true, false, List, [], ◌∷◌, arith}
use mailsec_probe.Dkim.Der.{be_value, parse_rsa_modulus_bits}
use mailsec_probe.Dkim.Der.Panic.{parse_rsa_modulus_bits-panics}
use mailsec_probe.Dkim.Der.Safe.{IsShort, IsSize, max_len, parse_rsa_modulus_bits-IsSize}
use mailsec_probe.Dkim.Key.{Key, decode_base64, strip, parse_key}
use mailsec_probe.Dkim.Key.Revoked.{IsReadable, parse_key-IsReadable}
use mailsec_probe.Dkim.Scan.{first_untagged, find_key, look_up}
use mailsec_probe.Dkim.Scan.Verdict.{run_one-HasLive, hit_of-KeyAt, HasKey, AllReadable}
use mailsec_probe.Outcome.{returned, panicked}
use mailsec_probe.Signals.{present, Feature}
use mailsec_probe.Text.{Bytes, codes, str_eq}
use mailsec_probe.TxtTag.{Pair, parse, get, pick_by_version}
use mailsec_probe.Tests.{answering, example_domain}

abbrev small_der : Bytes
small_der = 0x30 ∷ 0x06 ∷ 2 ∷ 1 ∷ 7 ∷ 2 ∷ 1 ∷ 3 ∷ []

small_der-IsShort : IsShort small_der
small_der-IsShort = ground arith

parse_rsa_modulus_bits-IsSize_example : IsSize 8 (parse_rsa_modulus_bits small_der)
parse_rsa_modulus_bits-IsSize_example =
    parse_rsa_modulus_bits-IsSize small_der (omega arith) small_der-IsShort

abbrev long_length : Bytes
long_length = 0x7f ∷ 0xff ∷ 0xff ∷ 0xff ∷ 0xff ∷ 0xff ∷ 0xff ∷ 0xff ∷ []

parse_rsa_modulus_bits-panics_example : parse_rsa_modulus_bits (2 ∷ 0x88 ∷ long_length) ≡ panicked
unfolding be_value
parse_rsa_modulus_bits-panics_example =
    parse_rsa_modulus_bits-panics [] long_length tt refl (omega arith) (omega arith) (omega arith)
      (omega arith)

abbrev key_pairs : List Pair
key_pairs =
    record { tag = codes "v"; value = codes "DKIM1" }
    ∷ record { tag = codes "p"; value = codes "AQID" }
    ∷ []

key_pairs-IsReadable : IsReadable key_pairs
unfolding get str_eq strip decode_base64
key_pairs-IsReadable der e =
    let same : 1 ∷ 2 ∷ 3 ∷ [] ≡ der = cc in
    subst (λ d. (length d ≤ max_len) × IsShort d) same (omega arith, ground arith)

parse_key-IsReadable_example :
    (k : Key) × (parse_key (codes "s1") (codes "v=DKIM1; p=AQID") key_pairs false ≡ returned k)
    × ((k.revoked ≡ true) ↔ (get key_pairs (codes "p") ≡ []))
parse_key-IsReadable_example =
    parse_key-IsReadable (codes "s1") (codes "v=DKIM1; p=AQID") key_pairs false key_pairs-IsReadable

abbrev dkim_probe : mailsec_probe.Dkim.Scan.Probe
dkim_probe = record {
  dns = answering (codes "v=DKIM1; p=AQID" ∷ []);
  selectors = codes "s1" ∷ [];
  inference_rules = [];
  enable_inference = false;
  include_raw = false;
}

-- Every name has the one record, whose pairs are `key_pairs`.
dkim_probe-AllReadable : AllReadable dkim_probe example_domain
unfolding get str_eq strip decode_base64 look_up find_key pick_by_version parse first_untagged
dkim_probe-AllReadable sel raw pairs candidate key =
    let hit = (hit_of-KeyAt dkim_probe.dns example_domain sel raw pairs).1 key in
    let same : key_pairs ≡ pairs = cc hit in subst IsReadable same key_pairs-IsReadable

run_one-HasLive_example :
    (f : Feature mailsec_probe.Dkim.Scan.Details) × (mailsec_probe.Dkim.Scan.run_one dkim_probe
        example_domain
      ≡ returned f)
    × ((f.status ≡ present) ↔ HasKey dkim_probe example_domain)
run_one-HasLive_example = run_one-HasLive dkim_probe example_domain dkim_probe-AllReadable

-- A key whose length overflows ends the program.
abbrev broken_probe : mailsec_probe.Dkim.Scan.Probe
broken_probe = record dkim_probe { dns = answering (codes "v=DKIM1; p=Aoh//////////w==" ∷ []) }

broken_panics : mailsec_probe.Dkim.Scan.run_one broken_probe example_domain ≡ panicked
unfolding mailsec_probe.Dkim.Scan.run_one
broken_panics = refl
