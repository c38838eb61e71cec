-- ===== src/DnsClient/Mock.antt =====
-- internal/probe/dnsclient/mock.go: a client whose answers are in maps. A map is the list of its
-- entries, and a key stands in it once.
use mailsec_probe.Common.{if◌then◌else◌, Bool, false, Option, none, some, List, [], ◌∷◌}
use mailsec_probe.DnsClient.{TxtResult, MxResult, TlsaResult, Client}
use mailsec_probe.Text.{Bytes, codes, str_eq, to_lower, trim_suffix}

abbrev pub Table : Type 0 → Type 0
Table V = List (Bytes × V)

abbrev find_entry : {V : Type 0} → Bytes → Table V → Option V
find_entry k [] = none
find_entry k ((key, v) ∷ table) = if str_eq key k then some v else find_entry k table

pub record Mock : Type 0 where
  pub txt_table : Table TxtResult
  pub mx_table : Table MxResult
  pub tlsa_table : Table TlsaResult
  pub ds_table : Table Bool
  pub txt_errors : Table Bytes
  pub mx_errors : Table Bytes
  pub tlsa_errors : Table Bytes
  pub ds_errors : Table Bytes

-- `NewMock`.
abbrev pub new_mock : Mock
new_mock = record {
  txt_table = [];
  mx_table = [];
  tlsa_table = [];
  ds_table = [];
  txt_errors = [];
  mx_errors = [];
  tlsa_errors = [];
  ds_errors = [];
}

-- `key`.
unfoldable pub mock_key : Bytes → Bytes
unfolding trim_suffix to_lower
mock_key name = trim_suffix (to_lower name) (codes ".")

-- An error comes first, then an entry, and then NXDOMAIN.
abbrev found_or : {V : Type 0} → V → V → Option Bytes → Option V → V × Option Bytes
found_or failed missing (some e) entry = (failed, some e)
found_or failed missing none (some r) = (r, none)
found_or failed missing none none = (missing, none)

unfoldable pub mock_txt : Mock → Bytes → TxtResult × Option Bytes
unfolding mock_key str_eq
mock_txt m name =
    let k = mock_key name in
    found_or (record { records = []; ad = false; rcode = 0 })
      (record { records = []; ad = false; rcode = 3 }) (find_entry k m.txt_errors)
      (find_entry k m.txt_table)

unfoldable pub mock_mx : Mock → Bytes → MxResult × Option Bytes
unfolding mock_key str_eq
mock_mx m name =
    let k = mock_key name in
    found_or (record { records = []; ad = false; rcode = 0 })
      (record { records = []; ad = false; rcode = 3 }) (find_entry k m.mx_errors)
      (find_entry k m.mx_table)

unfoldable pub mock_tlsa : Mock → Bytes → TlsaResult × Option Bytes
unfolding mock_key str_eq
mock_tlsa m name =
    let k = mock_key name in
    found_or (record { records = []; ad = false; rcode = 0 })
      (record { records = []; ad = false; rcode = 3 }) (find_entry k m.tlsa_errors)
      (find_entry k m.tlsa_table)

unfoldable pub mock_ds : Mock → Bytes → Bool × Option Bytes
unfolding mock_key str_eq
mock_ds m name =
    let k = mock_key name in
    found_or false false (find_entry k m.ds_errors) (find_entry k m.ds_table)

unfoldable pub mock_client : Mock → Client
unfolding mock_txt mock_mx mock_tlsa mock_ds
mock_client m = record {
  lookup_txt = mock_txt m;
  lookup_mx = mock_mx m;
  lookup_tlsa = mock_tlsa m;
  has_ds = mock_ds m;
}
