-- ===== src/Discovery/QrCode.antt =====
-- The URI of the QR code: `format_qr_code_uri` and `parse_qr_code_uri`
-- (rust/phonecam-discovery/src/lib.rs). Addresses in text are a parameter, `Addresses`.
pub mod Laws
use phone_cam.Prelude.{
  ℕ, Bool, true, false, Option, none, some, List, [], ◌∷◌, ◌++◌, Result, ok, err, ok_or, ◌>>=◌,
  ◌==◌, nat_eq, if◌then◌else◌,
}
use phone_cam.Text.{Text}
use phone_cam.Text.Split.{codes, strip_prefix, split, split_once}
use phone_cam.Text.Numbers.{show_nat}

-- `IpAddr`, with the `Display` of its two kinds, and `parse` of a `SocketAddr`.
pub record Addresses : Type 1 where
  pub IpAddr : Type 0
  pub is_v4 : IpAddr → Bool
  pub to_string : IpAddr → Text
  pub parse_socket : Text → Option (IpAddr × ℕ)

-- The reasons of `DiscoveryError::InvalidQrCodeUri`.
pub data DiscoveryError : Type 0 where
  missing_scheme missing_query expected_host_port missing_name : DiscoveryError

abbrev pub qr_scheme_prefix : Text
qr_scheme_prefix = codes "phonecam://"

-- The first piece that has the prefix, without it.
unfoldable pub find_name : List Text → Option Text
unfolding strip_prefix
find_name [] = none
find_name (pair ∷ pairs) = elim (strip_prefix (codes "name=") pair) [
  | some name ↦ some name
  | none ↦ find_name pairs
]

unfoldable pub parse_name_from_query : Text → Option Text
unfolding find_name split
parse_name_from_query query = find_name (split (λ c. c == 38) query)

module _ (A : Addresses) where
  open A use {IpAddr}

  pub record QrCodeConnectionInfo : Type 0 where
    pub name : Text
    pub ip : IpAddr
    pub port : ℕ

  -- The host, in brackets for IPv6, and the port.
  unfoldable pub authority : IpAddr → ℕ → Text
  authority ip port =
      (if A.is_v4 ip then A.to_string ip else codes "[" ++ A.to_string ip ++ codes "]")
      ++ codes ":"
      ++ show_nat port

  unfoldable pub format_qr_code_uri : IpAddr → ℕ → Text → Text
  format_qr_code_uri ip port device_name =
      qr_scheme_prefix ++ (authority ip port ++ (codes "?name=" ++ device_name))

  unfoldable pub parse_qr_code_uri : Text → Result DiscoveryError QrCodeConnectionInfo
  unfolding strip_prefix split_once parse_name_from_query
  parse_qr_code_uri uri = do
    payload ← ok_or (strip_prefix qr_scheme_prefix uri) missing_scheme
    (front, query) ← ok_or (split_once 63 payload) missing_query
    (ip, port) ← ok_or (A.parse_socket front) expected_host_port
    name ← ok_or (parse_name_from_query query) missing_name
    ok (record { name = name; ip = ip; port = port })
