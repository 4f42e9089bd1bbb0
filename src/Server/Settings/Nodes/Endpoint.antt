-- ===== src/Server/Settings/Nodes/Endpoint.antt =====
-- src/server/settings_routes.rs: the address of a peer that the user pastes.
use mathlib.Core.List.{reverse}
use my_s.Common.{
  Bool, Option, Text, all, codes, if◌then◌else◌, is_empty, leb, map, nat_beq, none, not, or_else,
  slash, some, split, starts_with, strip_prefix, trim, trim_end_matches, trim_start_matches, ℕ,
  ◌&&◌, ◌++◌, ◌+◌, ◌||◌,
}
use my_s.Server.Ranges.{first_part, split_once}
use my_s.Server.Settings.Buckets.{is_ascii_alphanumeric}

-- `rsplit_once(d)` for a character
unfoldable pub rsplit_once : ℕ → Text → Option (Text × Text)
rsplit_once d s = elim (split_once d (reverse s)) [
  | none ↦ none
  | some (after, before) ↦ some (reverse before, reverse after)
]

abbrev pub is_digit_char : ℕ → Bool
is_digit_char c = leb 0x30 c && leb c 0x39

abbrev is_port : Text → Bool
is_port p = not (is_empty p) && all is_digit_char p

abbrev given_or_self : Text → Option Text → Text
given_or_self s none = s
given_or_self s (some t) = t

abbrev without_scheme : Text → Text
without_scheme s = given_or_self s (
    or_else (strip_prefix (codes "https://") s)
      (or_else (strip_prefix (codes "http://") s) (strip_prefix (codes "grpc://") s)))

-- What follows `]` in an IPv6 endpoint: a colon and the port, or nothing.
abbrev port_after : Text → Option Text
port_after rest = elim (strip_prefix (codes ":") rest) [
  | some p ↦ if is_port p then some p else none
  | none ↦ if is_empty rest then some (codes "50051") else none
]

abbrev with_host : Text → Option Text → Option (Text × Text)
with_host host none = none
with_host host (some port) = some (host, port)

abbrev bracketed : Option (Text × Text) → Option (Text × Text)
bracketed none = none
bracketed (some (before, rest)) = with_host (before ++ codes "]") (port_after rest)

abbrev plain : Text → Option (Text × Text) → Option (Text × Text)
plain hostport none = some (hostport, codes "50051")
plain hostport (some (h, p)) = if is_empty h || not (is_port p) then none else some (h, p)

-- The host and the port.
unfoldable pub host_and_port : Text → Option (Text × Text)
host_and_port hostport =
    if starts_with (codes "[") hostport
    then bracketed (split_once 0x5d hostport)
    else plain hostport (rsplit_once 0x3a hostport)

abbrev is_bracket : ℕ → Bool
is_bracket c = nat_beq c 0x5b || nat_beq c 0x5d

abbrev pub trim_matches : (ℕ → Bool) → Text → Text
trim_matches p s = trim_end_matches p (trim_start_matches p s)

abbrev dashed : ℕ → ℕ
dashed c = if is_ascii_alphanumeric c then c else 0x2d

abbrev pub ascii_lowercase : ℕ → ℕ
ascii_lowercase c = if leb 0x41 c && leb c 0x5a then c + 32 else c

-- The id that is suggested for a host, without its `node-`.
unfoldable pub suggested_name : Text → Text
suggested_name host =
    map ascii_lowercase (trim_matches (nat_beq 0x2d) (map dashed (trim_matches is_bracket host)))

abbrev named : Option (Text × Text) → Option (Text × Text)
named none = none
named (some (host, port)) =
    if is_empty host || is_empty (suggested_name host)
    then none
    else some (host ++ codes ":" ++ port, codes "node-" ++ suggested_name host)

-- The endpoint, `host:port`, and the suggested id.
unfoldable pub parse_peer_endpoint : Text → Option (Text × Text)
parse_peer_endpoint raw =
    if is_empty (trim raw)
    then none
    else let hostport = trim (first_part (split slash (without_scheme (trim raw)))) in
      if is_empty hostport then none else named (host_and_port hostport)
