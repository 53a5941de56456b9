-- ===== src/Tunnel.antt =====
-- The tunnel of a job, crates/nm-wireguard/src/tunnel.rs and agent/src/network/wireguard.rs. The programs that
-- it runs change the interfaces that are up: they are the parameter Tools. `text` is the text of a number.
pub mod Leak
use Prim.Native.String.{String, ◌++◌ as ◌+++◌}
use neuralmesh.Common.{ℕ, List, Bool, some, Option, none, if◌then◌else◌}

pub record TunnelConfig : Type 0 where
  pub iface : String
  pub local_ip : String
  pub peer_ip : String
  pub listen_port : ℕ
  pub private_key_b64 : String
  pub peer_pubkey_b64 : String
  pub peer_endpoint : Option String

-- A program gives the interfaces that are up after it, or nothing where it is not started; `wg-quick` also
-- where it fails.
pub record Tools : Type 0 where
  pub wg_quick_up : String → String → List String → Option (List String)
  pub wg_quick_down : String → List String → List String
  pub wireguard_go : String → List String → Option (List String)
  pub wg_setconf : String → String → List String → Option (List String)
  pub ifconfig : String → String → String → List String → Option (List String)
  pub kill : String → List String → List String
  pub writes : String → String → Bool

-- `?` after a program that may not start
abbrev pub and_then :
    Option (List String) → (List String → Option (List String)) → Option (List String)
and_then none f = none
and_then (some ups) f = f ups

abbrev pub endpoint_line : Option String → String
endpoint_line none = ""
endpoint_line (some ep) = "Endpoint = " +++ ep

module _ (text : ℕ → String) where
  unfoldable pub wg_conf : TunnelConfig → String
  wg_conf cfg =
      "[Interface]\nPrivateKey = "
      +++ (cfg.private_key_b64
          +++ ("\nListenPort = "
              +++ (text cfg.listen_port
                  +++ ("\n\n[Peer]\nPublicKey = "
                      +++ (cfg.peer_pubkey_b64
                          +++ ("\nAllowedIPs = "
                              +++ (cfg.peer_ip
                                  +++ ("/32\n"
                                      +++ (endpoint_line cfg.peer_endpoint +++ "\n")))))))))

  unfoldable pub allocate_tunnel_ips : ℕ → String × String
  allocate_tunnel_ips slot = ("10.77." +++ (text slot +++ ".1"), "10.77." +++ (text slot +++ ".2"))

  abbrev pub conf_path_of : String → String
  conf_path_of iface = "/tmp/neuralmesh/" +++ (("wg-" +++ iface) +++ ".conf")

  unfoldable pub manual_setup : Tools → TunnelConfig → List String → Option (List String)
  manual_setup T cfg ups = and_then (T.wireguard_go cfg.iface ups) (λ a.
      and_then (T.wg_setconf cfg.iface (conf_path_of cfg.iface) a)
        (λ b. T.ifconfig cfg.iface (cfg.local_ip +++ "/30") cfg.peer_ip b))

  abbrev pub or_manual :
      Tools → TunnelConfig → List String → Option (List String) → Option (List String)
  or_manual T cfg ups none = manual_setup T cfg ups
  or_manual T cfg ups (some up) = some up

  -- The interfaces after it, or nothing on an error. The tunnel keeps the name of the interface.
  unfoldable pub bring_up : Tools → TunnelConfig → List String → Option (List String)
  bring_up T cfg ups =
      let path = conf_path_of cfg.iface in
      if T.writes path (wg_conf cfg)
      then or_manual T cfg ups (T.wg_quick_up path (wg_conf cfg) ups)
      else none

-- The argument of `kill` is passed on as it stands: no shell expands it.
unfoldable pub drop_tunnel : Tools → String → List String → List String
drop_tunnel T iface ups =
    T.kill ("$(cat /var/run/wireguard/" +++ (iface +++ ".name)")) (T.wg_quick_down iface ups)

-- The endpoint that the consumer is told.
unfoldable pub endpoint_for_consumer : (ℕ → String) → Option String → String → ℕ → String
endpoint_for_consumer text none local_ip port = local_ip +++ (":" +++ text port)
endpoint_for_consumer text (some ep) local_ip port = ep
