-- ===== src/Plugin/IpRestriction.antt =====
-- internal/plugin/plugins/ip_restriction.go. Addresses and networks are those of the package net:
-- their parsing, and whether a network contains an address, are given.
pub mod Laws
use web_server.Prelude.{
  ℕ, Bool, true, false, not, ◌&&◌, ◌||◌, if◌then◌else◌, List, [], ◌∷◌, ◌++◌, Option, none, some,
}
use web_server.Text.{Bytes, codes}
use web_server.Text.Scan.{trim_space, contains, before_byte}
use web_server.Http.Header.{get}
use web_server.Http.Message.{Request}
use web_server.Config.{Fields}
use web_server.Plugin.{Verdict, refuse, forward, string_list}

-- `Contains` of no address is false.
pub record Net : Type 1 where
  pub Ip : Type 0
  pub IpNet : Type 0
  pub parse_ip : Bytes → Option Ip
  pub parse_cidr : Bytes → Option IpNet
  pub net_contains : IpNet → Ip → Bool
  pub split_host_port : Bytes → Option (Bytes × Bytes)

-- An address alone is a network of one.
unfoldable pub as_cidr : Bytes → Bytes
as_cidr s =
    if contains s (codes "/")
    then s
    else (if contains s (codes ":") then s ++ codes "/128" else s ++ codes "/32")

module _ (net : Net) where
  open net use {Ip, IpNet, parse_ip, parse_cidr, net_contains, split_host_port}

  pub record IpRestriction : Type 0 where
    pub allow_nets : List IpNet
    pub deny_nets : List IpNet

  -- The loop of `parseCIDRList`; the first network that cannot be parsed is an error.
  abbrev cons_net : Option IpNet → Option (List IpNet) → Option (List IpNet)
  cons_net none rest = none
  cons_net (some n) none = none
  cons_net (some n) (some ns) = some (n ∷ ns)

  unfoldable pub parse_cidrs : List Bytes → Option (List IpNet)
  parse_cidrs [] = some []
  parse_cidrs (s ∷ ss) = cons_net (parse_cidr (as_cidr (trim_space s))) (parse_cidrs ss)

  abbrev restriction : Option (List IpNet) → Option (List IpNet) → Option IpRestriction
  restriction (some allow) (some deny) = some (record { allow_nets = allow; deny_nets = deny })
  restriction _ _ = none

  unfoldable pub new_ip_restriction : Fields → Option IpRestriction
  new_ip_restriction cfg =
      restriction (parse_cidrs (string_list cfg (codes "allow")))
        (parse_cidrs (string_list cfg (codes "deny")))

  abbrev in_net : IpNet → Option Ip → Bool
  in_net n none = false
  in_net n (some ip) = net_contains n ip

  unfoldable pub contains_ip : List IpNet → Option Ip → Bool
  contains_ip [] ip = false
  contains_ip (n ∷ ns) ip = in_net n ip || contains_ip ns ip

  -- `parseClientIP`; the first part of an empty field is no address.
  abbrev ip_or : Option Ip → Option Ip → Option Ip
  ip_or none other = other
  ip_or (some ip) other = some ip

  abbrev host_part : Bytes → Option (Bytes × Bytes) → Bytes
  host_part addr none = addr
  host_part addr (some (host, port)) = host

  abbrev forwarded_ip : Bytes → Option Ip
  forwarded_ip [] = none
  forwarded_ip (c ∷ s) = parse_ip (trim_space (before_byte b',' (c ∷ s)))

  unfoldable pub parse_client_ip : Request → Option Ip
  parse_client_ip r =
      ip_or (forwarded_ip (get (codes "X-Forwarded-For") r.header))
        (parse_ip (host_part r.remote_addr (split_host_port r.remote_addr)))

  abbrev any_nets : List IpNet → Bool
  any_nets [] = false
  any_nets (n ∷ ns) = true

  unfoldable pub check_ip : IpRestriction → Request → Verdict
  check_ip p r =
      let ip = parse_client_ip r in
      if contains_ip p.deny_nets ip
      then refuse 403
      else (if any_nets p.allow_nets && not (contains_ip p.allow_nets ip)
          then refuse 403
          else forward r)
