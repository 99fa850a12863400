-- ===== src/Validation.antt =====
-- frontend/src/utils/validation.ts: the client-side checks of scope input. `number` is an integer
-- here, and a `NaN` result of `parseInt` is `none`.
pub mod Addresses
pub mod Exclusions
pub mod Covered
pub mod Hostnames
use Prim.Native.Nat.{ℕ, ◌+◌, ◌-◌, ◌*◌, ◌/◌, ◌%◌, ◌^◌, zero, suc, min}
use mathlib.Core.Bool.{Bool, true, false, ◌&&◌, ◌||◌, not}
use mathlib.Core.Option.{Option, none, some}
use mathlib.Core.List.{List, [], ◌∷◌, ◌++◌, reverse}
use arka.Prelude.{
  Text, codes, text_eq, trim, to_lower_case, starts_with, ends_with, includes, has_char,
  last_index_of, split, parse_int, to_string, int_to_string, ℤ, pos, negsuc, int_eq, leb, ltb, ◌==◌,
  if◌then◌else◌, length, take, drop, any, all, filter, is_some, or_else,
}

-- The test of `octets.every`, of an octet and its `parseInt`
octet_num_ok : Text → Option ℤ → Bool
octet_num_ok octet (some (pos num)) = leb num 255 && text_eq octet (to_string num)
octet_num_ok octet _ = false

octet_ok : Text → Bool
unfolding octet_num_ok
octet_ok octet = octet_num_ok octet (parse_int octet)

prefix_ok : Option ℤ → Bool
prefix_ok (some (pos prefix)) = leb prefix 32
prefix_ok _ = false

cidr_parts_ok : List Text → Bool
unfolding octet_ok prefix_ok
cidr_parts_ok (ip ∷ prefix ∷ []) =
    prefix_ok (parse_int prefix) && length (split b'.' ip) == 4 && all octet_ok (split b'.' ip)
cidr_parts_ok _ = false

unfoldable pub is_valid_ipv4_cidr : Text → Bool
unfolding cidr_parts_ok
is_valid_ipv4_cidr cidr = cidr_parts_ok (split b'/' (trim cidr))

is_letter : ℕ → Bool
is_letter c = (leb b'a' c && leb c b'z') || (leb b'A' c && leb c b'Z')

is_letter_or_digit : ℕ → Bool
unfolding is_letter
is_letter_or_digit c = is_letter c || (leb b'0' c && leb c b'9')

-- `[a-zA-Z0-9]([a-zA-Z0-9-]{0,61}[a-zA-Z0-9])?`
label_ok : Text → Bool
unfolding is_letter_or_digit
label_ok [] = false
label_ok (c ∷ s) =
    is_letter_or_digit c
    && leb (length s) 62
    && all (λ d. is_letter_or_digit d || (d == b'-')) s
    && all is_letter_or_digit (take 1 (reverse s))

-- `([a-zA-Z0-9]([a-zA-Z0-9-]{0,61}[a-zA-Z0-9])?\.)+[a-zA-Z]{2,}`, on the parts between the dots
labels_ok : List Text → Bool
unfolding label_ok is_letter
labels_ok [] = false
labels_ok (part ∷ []) = false
labels_ok (label ∷ top ∷ []) = label_ok label && leb 2 (length top) && all is_letter top
labels_ok (label ∷ next ∷ more ∷ rest) = label_ok label && labels_ok (next ∷ more ∷ rest)

-- The pattern: an optional "*." is the only place for a star.
hostname_pattern : Text → Bool
unfolding labels_ok
hostname_pattern s = labels_ok (split b'.' (if starts_with s (codes "*.") then drop 2 s else s))

unfoldable pub is_valid_hostname : Text → Bool
unfolding hostname_pattern
is_valid_hostname host =
    leb 1 (length (trim host))
    && leb (length (trim host)) 253
    && (hostname_pattern (trim host) || text_eq (trim host) (codes "localhost"))

unfoldable pub is_valid_port : ℤ → Bool
is_valid_port (pos port) = leb 1 port && leb port 65535
is_valid_port (negsuc n) = false

-- One round of the `reduce`: `((long << 8) + parseInt(octet, 10)) >>> 0`; a `NaN` sum becomes 0.
octet_step : ℕ → Option ℤ → ℕ
octet_step long none = 0
octet_step long (some (pos num)) = (long * 256 + num) % 2 ^ 32
octet_step long (some (negsuc n)) = (long * 256 % 2 ^ 32 + 2 ^ 32 - (n + 1) % 2 ^ 32) % 2 ^ 32

reduce_octets : ℕ → List Text → ℕ
unfolding octet_step
reduce_octets long [] = long
reduce_octets long (octet ∷ octets) = reduce_octets (octet_step long (parse_int octet)) octets

unfoldable pub ip2long : Text → ℕ
unfolding reduce_octets
ip2long addr = reduce_octets 0 (split b'.' addr)

-- How many low bits `~(2 ** e - 1)` clears, for the exponent e = 32 - parseInt(bits, 10), or for
-- NaN. The operand is a double that `~` takes modulo 2 ^ 32: up to e = 53 it is the integer
-- 2 ^ e - 1, beyond that it rounds to 2 ^ e (or is Infinity) and clears nothing, and where e < 0
-- it lies between -1 and 0.
mask_clears : Option ℤ → ℕ
mask_clears none = 0
mask_clears (some (pos bits)) = 32 - bits
mask_clears (some (negsuc n)) = if leb (n + 33) 53 then 32 else 0

-- `x & mask`, where the mask clears the k low bits
clear_low : ℕ → ℕ → ℕ
clear_low k x = x - x % 2 ^ k

-- `const [range, bits = '32'] = cidr.split('/')`
cidr_range : List Text → Text
cidr_range [] = []
cidr_range (range ∷ _) = range

cidr_bits : List Text → Text
cidr_bits (_ ∷ bits ∷ _) = bits
cidr_bits _ = codes "32"

unfoldable pub ip_in_cidr : Text → Text → Bool
unfolding mask_clears clear_low cidr_range cidr_bits
ip_in_cidr ip cidr =
    let parts = split b'/' cidr in
    let k = mask_clears (parse_int (cidr_bits parts)) in
    clear_low k (ip2long ip) == clear_low k (ip2long (cidr_range parts))

pub record ExclusionRules : Type 0 where
  pub cidr_blocks : Option (List Text)
  pub hostnames : Option (List Text)
  pub ports : Option (List ℤ)
  pub rationale : Option Text

-- `ExclusionRules | { exclusions: ExclusionRules }`
pub data ScopeOrExclusions : Type 0 where
  rules : ExclusionRules → ScopeOrExclusions
  scope : (exclusions : ExclusionRules) → ScopeOrExclusions

unfoldable pub exclusion_rules : ScopeOrExclusions → ExclusionRules
exclusion_rules (rules r) = r
exclusion_rules (scope r) = r

pub record Verdict : Type 0 where
  pub excluded : Bool
  pub reason : Option Text

-- `!portToCheck` fails for undefined and for 0
abbrev pub port_given : Option ℤ → Bool
port_given none = false
port_given (some p) = not (int_eq p (pos 0))

-- The port behind the last colon, and the target before it, if that is a valid port.
cut_port : Text → Option ℤ → ℕ → Option ℤ → Text × Option ℤ
cut_port clean explicit last_colon none = (clean, explicit)
cut_port clean explicit last_colon (some parsed) =
    if is_valid_port parsed then (take last_colon clean, some parsed) else (clean, explicit)

-- `lastIndexOf`, `slice` and `parseInt`, where the target holds a colon
cut_last : Text → Option ℤ → Option ℕ → Text × Option ℤ
unfolding cut_port is_valid_port
cut_last clean explicit none = (clean, explicit)
cut_last clean explicit (some i) = cut_port clean explicit i (parse_int (drop (suc i) clean))

pub extract_port : Text → Option ℤ → Text × Option ℤ
unfolding cut_last
extract_port clean explicit =
    if not (port_given explicit) && has_char b':' clean && not (starts_with clean (codes "["))
    then cut_last clean explicit (last_index_of b':' clean)
    else (clean, explicit)

pub port_excluded : List ℤ → Option ℤ → Bool
port_excluded ports none = false
port_excluded ports (some p) = port_given (some p) && any (int_eq p) ports

-- The test of one round of the hostname loop, on `cleanExcluded`
clean_host_matches : Text → Text → Bool
clean_host_matches clean clean_excluded =
    if starts_with clean_excluded (codes "*.")
    then ends_with clean (drop 1 clean_excluded) || text_eq clean (drop 2 clean_excluded)
    else text_eq clean clean_excluded

pub host_matches : Text → Text → Bool
unfolding clean_host_matches
host_matches clean excluded_host = clean_host_matches clean (to_lower_case (trim excluded_host))

port_reason : Option ℤ → Text
port_reason none = []
port_reason (some p) =
    codes "Port "
    ++ int_to_string p
    ++ codes " matches explicit exclusion rule (sensitive/protected service)."

host_reason : Text → Text → Text
host_reason target excluded_host =
    if starts_with (to_lower_case (trim excluded_host)) (codes "*.")
    then codes "Hostname '"
      ++ target
      ++ codes "' matches wildcard exclusion '"
      ++ excluded_host
      ++ codes "'."
    else codes "Hostname '" ++ target ++ codes "' matches exact exclusion rule."

cidr_reason : Text → Text → Text
cidr_reason clean cidr =
    codes "Target IP '" ++ clean ++ codes "' is within excluded subnet " ++ cidr ++ codes "."

abbrev pub excluded_for : Text → Verdict
excluded_for why = record { excluded = true; reason = some why }

abbrev pub not_excluded : Verdict
not_excluded = record { excluded = false; reason = none }

-- The CIDR loop
check_cidrs : Text → List Text → Verdict
unfolding cidr_reason
check_cidrs clean [] = not_excluded
check_cidrs clean (cidr ∷ cidrs) =
    if ip_in_cidr clean cidr then excluded_for (cidr_reason clean cidr) else check_cidrs clean cidrs

-- The hostname loop, which goes on to the CIDR loop
check_hosts : Text → Text → List Text → List Text → Verdict
unfolding host_matches host_reason check_cidrs
check_hosts target clean [] cidrs = check_cidrs clean cidrs
check_hosts target clean (h ∷ hosts) cidrs =
    if host_matches clean h
    then excluded_for (host_reason target h)
    else check_hosts target clean hosts cidrs

check_rules : Text → Text → Option ℤ → ExclusionRules → Verdict
unfolding port_excluded port_reason check_hosts
check_rules target clean port r =
    if port_excluded (or_else r.ports []) port
    then excluded_for (port_reason port)
    else check_hosts target clean (or_else r.hostnames []) (or_else r.cidr_blocks [])

unfoldable pub is_target_excluded : Text → ScopeOrExclusions → Option ℤ → Verdict
unfolding extract_port check_rules
is_target_excluded target scope_or_exclusions explicit_port =
    let (clean, port) = extract_port (to_lower_case (trim target)) explicit_port in
    check_rules target clean port (exclusion_rules scope_or_exclusions)
