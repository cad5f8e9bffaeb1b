-- ===== src/Netmap.antt =====
-- crates/tsnode/src/types.rs: what the control server says of nodes and relays. The records hold
-- the fields that the path selection reads. An i32 is its bits.
use usb_over_tailscale.Common.{ℕ, List, Option, none, some, Bool, not, ◌==◌, if◌then◌else◌}
use usb_over_tailscale.Common.Text.{last_part, parse_i32}

pub record Node : Type 0 where
  pub id : ℕ
  pub name : List ℕ
  pub key : List ℕ
  pub disco_key : List ℕ
  pub addresses : List (List ℕ)
  pub allowed_ips : List (List ℕ)
  pub endpoints : List (List ℕ)
  pub derp : List ℕ
  pub home_derp : ℕ

abbrev pub nonzero : Option ℕ → Option ℕ
nonzero none = none
nonzero (some r) = if r == 0 then none else some r

-- The legacy form of the home region is `127.3.3.40:<region>`.
unfoldable pub home_derp_region : Node → Option ℕ
home_derp_region n =
    if not (n.home_derp == 0) then some n.home_derp else nonzero (parse_i32 (last_part b':' n.derp))

pub record PeerChange : Type 0 where
  pub node_id : ℕ
  pub derp_region : ℕ
  pub endpoints : Option (List (List ℕ))
  pub disco_key : Option (List ℕ)

pub record DerpNode : Type 0 where
  pub name : List ℕ
  pub region_id : ℕ
  pub host_name : List ℕ
  pub ipv4 : List ℕ
  pub stun_port : ℕ
  pub stun_only : Bool

pub record DerpRegion : Type 0 where
  pub region_id : ℕ
  pub region_code : List ℕ
  pub avoid : Bool
  pub nodes : List DerpNode

pub record DerpMap : Type 0 where
  pub regions : List (List ℕ × DerpRegion)
