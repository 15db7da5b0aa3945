-- ===== src/Dns/Selection.antt =====
-- `SelectAddresses` of internal/diagnostics/checks/dns/selection.go. An address is the bytes of a
-- net.IP; To4, To16 and String of net and the reading of an address by net/netip are IpLibrary.
use orynelo.Prelude.{
  ℕ, ◌-◌, Text, String, List, [], ◌∷◌, ◌++◌, map, length, take, Option, none, some, Bool, true,
  false, not, ◌&&◌, ◌==◌, name_equality, contains, if◌then◌else◌, ltb,
}
use orynelo.Prelude.Int.{ℤ, pos, pos_part, ltb_ℤ}

pub record IpLibrary : Type 0 where
  pub to4 : Text → Option Text
  pub to16 : Text → Option Text
  pub ip_string : Text → String
  pub parse_addr : String → Option Text

-- The options that are read.
pub record SelectionOptions : Type 0 where
  pub connect_ip : String
  pub ip_version : String
  pub probe_mode : String
  pub address_limit : ℤ

pub record AddressSelection : Type 0 where
  pub addresses : List Text
  pub total : ℕ
  pub skipped_addresses : ℕ

module _ (lib : IpLibrary) where
  abbrev or_v6 : Text → Option Text → Option Text
  or_v6 ip (some v4) = some v4
  or_v6 ip none = lib.to16 ip

  unfoldable pub canonical_ip : Text → Option Text
  canonical_ip ip = or_v6 ip (lib.to4 ip)

  abbrev pub add_unique : List Text → Option Text → List Text
  add_unique destination none = destination
  add_unique destination (some ip) =
      if contains (map lib.ip_string destination) (lib.ip_string ip)
      then destination
      else destination ++ ip ∷ []

  -- `seen` of the code has the strings of the destination at any time.
  unfoldable pub append_canonical_unique : List Text → List Text → List Text
  unfolding canonical_ip
  append_canonical_unique destination [] = destination
  append_canonical_unique destination (value ∷ values) =
      append_canonical_unique (add_unique destination (canonical_ip value)) values

  abbrev is_some : Option Text → Bool
  is_some none = false
  is_some (some ip) = true

  unfoldable pub matches_requested_family : Text → String → Bool
  matches_requested_family address version =
      if version == "4"
      then is_some (lib.to4 address)
      else if version == "6"
      then not (is_some (lib.to4 address)) && is_some (lib.to16 address)
      else is_some (lib.to16 address)

  abbrev canonical_of : Option Text → Option Text
  canonical_of none = none
  canonical_of (some address) = canonical_ip address

  unfoldable pub option_connect_ip : String → Option Text
  unfolding canonical_ip
  option_connect_ip value = canonical_of (lib.parse_addr value)

  unfoldable pub candidate_addresses : List Text → List Text → String → List Text
  unfolding append_canonical_unique
  candidate_addresses ipv4 ipv6 version =
      if version == "4"
      then append_canonical_unique [] ipv4
      else if version == "6"
      then append_canonical_unique [] ipv6
      else append_canonical_unique (append_canonical_unique [] ipv4) ipv6

  abbrev pub limit_or_default : ℤ → ℕ
  limit_or_default limit = if ltb_ℤ (pos 0) limit then pos_part limit else 4

  unfoldable pub effective_limit : SelectionOptions → ℕ
  effective_limit options =
      let limit = limit_or_default options.address_limit in
      if options.probe_mode == "client_effective" && ltb 2 limit then 2 else limit

  unfoldable pub select_up_to : ℕ → List Text → AddressSelection
  select_up_to limit found = record {
    addresses = if ltb limit (length found) then take limit found else found;
    total = length found;
    skipped_addresses = if ltb limit (length found) then length found - limit else 0;
  }

  abbrev pub select_connect_ip : Text → SelectionOptions → AddressSelection
  select_connect_ip ip options =
      if matches_requested_family ip options.ip_version
      then record { addresses = ip ∷ []; total = 1; skipped_addresses = 0 }
      else record { addresses = []; total = 0; skipped_addresses = 0 }

  abbrev pub select_with : Option Text → List Text → List Text → SelectionOptions → AddressSelection
  select_with (some ip) ipv4 ipv6 options = select_connect_ip ip options
  select_with none ipv4 ipv6 options =
      select_up_to (effective_limit options) (candidate_addresses ipv4 ipv6 options.ip_version)

  unfoldable pub select_addresses : List Text → List Text → SelectionOptions → AddressSelection
  unfolding option_connect_ip matches_requested_family effective_limit select_up_to
      candidate_addresses
  select_addresses ipv4 ipv6 options =
      select_with (option_connect_ip options.connect_ip) ipv4 ipv6 options
