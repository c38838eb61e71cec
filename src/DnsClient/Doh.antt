-- ===== src/DnsClient/Doh.antt =====
-- internal/probe/dnsclient/doh.go: the presentation forms of a DoH answer, and the client over a
-- resolver. The resolver, of a package outside the repository, is an argument.
pub mod TxtForm
pub mod MxForm
pub mod Preference
use mailsec_probe.Common.{
  leb, ◌==◌, if◌then◌else◌, ℕ, ◌+◌, ◌-◌, ◌*◌, Bool, true, false, ◌&&◌, ◌||◌, Option, none, some,
  List, [], ◌∷◌,
}
use mailsec_probe.DnsClient.{TxtResult, MxRecord, MxResult, TlsaRecord, TlsaResult, Client}
use mailsec_probe.Text.{Bytes, codes, is_empty, trim_space, has_prefix, trim_suffix, cut}

-- The two nested loops of `decodeTXTPresentation`: `between_strings` stands between two character-strings,
-- `in_quote` between two quotes, and `in_escape` behind a backslash.
pub data Place : Type 0 where
  between_strings in_quote in_escape : Place

abbrev in_gap : ℕ → Option Bytes → Option Bytes → Option Bytes
in_gap c skip open_quote =
    if c == b' ' || c == b'\t' then skip else if c == b'"' then open_quote else none

abbrev push : ℕ → Option Bytes → Option Bytes
push c none = none
push c (some out) = some (c ∷ out)

scan_txt : Place → Bytes → Option Bytes
scan_txt between_strings [] = some []
scan_txt in_quote [] = none
scan_txt in_escape [] = none
scan_txt between_strings (c ∷ s) =
    let skip = scan_txt between_strings s in let start = scan_txt in_quote s in in_gap c skip start
scan_txt in_quote (c ∷ s) =
    let close = scan_txt between_strings s in
    let escape = scan_txt in_escape s in
    let more = push c (scan_txt in_quote s) in
    if c == b'"' then close else if c == b'\\' then escape else more
scan_txt in_escape (c ∷ s) = push c (scan_txt in_quote s)

unfoldable pub decode_txt_presentation : Bytes → Option Bytes
unfolding scan_txt
decode_txt_presentation s = scan_txt between_strings s

-- `strconv.ParseUint(s, 10, 16)`: one or more digits with a value of at most 65535.
abbrev add_digit : ℕ → ℕ → Option ℕ
add_digit n c =
    let m = n * 10 + (c - b'0') in if leb b'0' c && leb c b'9' && leb m 65535 then some m else none

abbrev bind_digit : Option ℕ → (ℕ → Option ℕ) → Option ℕ
bind_digit none k = none
bind_digit (some n) k = k n

parse_digits : ℕ → Bytes → Option ℕ
parse_digits n [] = some n
parse_digits n (c ∷ s) = bind_digit (add_digit n c) (λ m. parse_digits m s)

unfoldable pub parse_uint16 : Bytes → Option ℕ
unfolding parse_digits
parse_uint16 [] = none
parse_uint16 (c ∷ s) = parse_digits 0 (c ∷ s)

abbrev mx_of : Option ℕ → Bytes → Option MxRecord
mx_of none host = none
mx_of (some pref) host =
    if is_empty host then none else some (record { host = host; preference = pref })

-- The first space splits preference and exchange; neither side may be empty.
abbrev mx_of_halves : Option (Bytes × Bytes) → Option MxRecord
mx_of_halves none = none
mx_of_halves (some (pref, exchange)) =
    if is_empty pref || is_empty exchange
    then none
    else mx_of (parse_uint16 (trim_space pref)) (trim_suffix (trim_space exchange) (codes "."))

unfoldable pub decode_mx_presentation : Bytes → Option MxRecord
unfolding parse_uint16 trim_space trim_suffix cut
decode_mx_presentation s = mx_of_halves (cut s b' ')

unfoldable pub is_doh_url : Bytes → Bool
unfolding has_prefix
is_doh_url s = has_prefix s (codes "https://") || has_prefix s (codes "http://")

pub data RrType : Type 0 where
  type_txt type_mx type_tlsa type_ds type_other : RrType

-- One record of an answer: its type and presentation form, and the parsed TLSA form if it is one.
pub record Rr : Type 0 where
  pub rr_type : RrType
  pub value : Bytes
  pub handler : Option TlsaRecord

pub record Response : Type 0 where
  pub ad : Bool
  pub rcode : ℕ
  pub records : List Rr

abbrev pub Resolver : Type 0
Resolver = Bytes → RrType → Response × Option Bytes

abbrev is_txt : RrType → Bool
is_txt type_txt = true
is_txt _ = false

abbrev is_mx : RrType → Bool
is_mx type_mx = true
is_mx _ = false

abbrev is_tlsa : RrType → Bool
is_tlsa type_tlsa = true
is_tlsa _ = false

abbrev is_ds : RrType → Bool
is_ds type_ds = true
is_ds _ = false

abbrev add_some {ℓ} : {A : Type ℓ} → Option A → List A → List A
add_some none out = out
add_some (some a) out = a ∷ out

unfoldable pub txt_records : List Rr → List Bytes
unfolding decode_txt_presentation
txt_records [] = []
txt_records (rr ∷ rrs) =
    let rest = txt_records rrs in
    if is_txt rr.rr_type then add_some (decode_txt_presentation rr.value) rest else rest

unfoldable pub mx_records : List Rr → List MxRecord
unfolding decode_mx_presentation
mx_records [] = []
mx_records (rr ∷ rrs) =
    let rest = mx_records rrs in
    if is_mx rr.rr_type then add_some (decode_mx_presentation rr.value) rest else rest

unfoldable pub tlsa_records : List Rr → List TlsaRecord
tlsa_records [] = []
tlsa_records (rr ∷ rrs) =
    let rest = tlsa_records rrs in if is_tlsa rr.rr_type then add_some rr.handler rest else rest

unfoldable pub any_ds : List Rr → Bool
any_ds [] = false
any_ds (rr ∷ rrs) = is_ds rr.rr_type || any_ds rrs

abbrev pub txt_answer : Response × Option Bytes → TxtResult × Option Bytes
txt_answer (resp, some e) = (record { records = []; ad = false; rcode = 0 }, some e)
txt_answer (resp, none) =
    (record { records = txt_records resp.records; ad = resp.ad; rcode = resp.rcode }, none)

abbrev pub mx_answer : Response × Option Bytes → MxResult × Option Bytes
mx_answer (resp, some e) = (record { records = []; ad = false; rcode = 0 }, some e)
mx_answer (resp, none) =
    (record { records = mx_records resp.records; ad = resp.ad; rcode = resp.rcode }, none)

abbrev pub tlsa_answer : Response × Option Bytes → TlsaResult × Option Bytes
tlsa_answer (resp, some e) = (record { records = []; ad = false; rcode = 0 }, some e)
tlsa_answer (resp, none) =
    (record { records = tlsa_records resp.records; ad = resp.ad; rcode = resp.rcode }, none)

abbrev pub ds_answer : Response × Option Bytes → Bool × Option Bytes
ds_answer (resp, some e) = (false, some e)
ds_answer (resp, none) = (any_ds resp.records, none)

unfoldable pub new_doh : Resolver → Client
unfolding txt_records mx_records tlsa_records any_ds
new_doh r = record {
  lookup_txt = λ name. txt_answer (r name type_txt);
  lookup_mx = λ name. mx_answer (r name type_mx);
  lookup_tlsa = λ name. tlsa_answer (r name type_tlsa);
  has_ds = λ name. ds_answer (r name type_ds);
}
