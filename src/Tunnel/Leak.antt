-- ===== src/Tunnel/Leak.antt =====
-- What is left of a tunnel that is dropped.
use Prim.Native.String.{String, len, ◌++◌ as ◌+++◌}
use text.Mathlib.TextPositions.{len-append}
use neuralmesh.Common.{ℕ, List, some, sym, true, ◌≡◌, subst, ◌≢◌, refl, Member, ap, ◌+◌, arith}
use neuralmesh.Tunnel.{wg_conf, drop_tunnel, conf_path_of, bring_up, TunnelConfig, Tools}

-- What the manuals of the programs say: `wg-quick up` names the interface after the file, `wg-quick down`
-- takes down the interface that it is given, and `kill` ends processes by their numbers alone.
pub record IsDocumented (T : Tools) : Type 0 where
  pub named_after_file :
      (name conf : String) (ups after : List String)
      → T.wg_quick_up ("/tmp/neuralmesh/" +++ (name +++ ".conf")) conf ups ≡ some after
      → Member name after
  pub down_only :
      (x name : String) (ups : List String)
      → x ≢ name
      → Member x ups
      → Member x (T.wg_quick_down name ups)
  pub kills_numbers :
      (name : String) (ups : List String) → T.kill ("$(cat /var/run/wireguard/" +++ name) ups ≡ ups

prefix_ne : (s : String) → ("wg-" +++ s) ≢ s
prefix_ne s e =
    let grows : len ("wg-" +++ s) ≡ len "wg-" + len s = len-append "wg-" s in
    let same : len ("wg-" +++ s) ≡ len s = ap len e in omega (arith, grows, same)

-- A tunnel that `wg-quick` has brought up outlives its drop: the file, and so the interface, has a name that
-- starts with "wg-", which the drop leaves out.
pub bring_up-drop_tunnel :
    (text : ℕ → String) (T : Tools) (cfg : TunnelConfig) (ups after : List String)
    → IsDocumented T
    → T.writes (conf_path_of text cfg.iface) (wg_conf text cfg) ≡ true
    → T.wg_quick_up (conf_path_of text cfg.iface) (wg_conf text cfg) ups ≡ some after
    → (bring_up text T cfg ups ≡ some after)
      × Member ("wg-" +++ cfg.iface) (drop_tunnel T cfg.iface after)
unfolding bring_up drop_tunnel
bring_up-drop_tunnel text T cfg ups after laws w u = (
  rw (w, u) refl,
  subst (λ l. Member ("wg-" +++ cfg.iface) l)
      (sym (laws.kills_numbers (cfg.iface +++ ".name)") (T.wg_quick_down cfg.iface after)))
      (laws.down_only ("wg-" +++ cfg.iface) cfg.iface after (prefix_ne cfg.iface)
        (laws.named_after_file ("wg-" +++ cfg.iface) (wg_conf text cfg) ups after u)),
)
