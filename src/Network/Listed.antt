-- ===== src/Network/Listed.antt =====
-- Which interfaces are listed (src/network.c, `scan_network_interfaces`).
use hifetch.Common.{
  codes, ℕ, ◌≡◌, refl, sym, ap, ◌∙◌, inl, inr, Bool, true, false, not, ◌&&◌, List, ◌++◌, Option,
  none, some, map, if◌then◌else◌, length, take, str_eq, Bool-cases, arith, used, IsWithin,
  visit-collect, collect-pick, pick,
}
use hifetch.Hardware.Sysfs.{Sysfs, read_at, read_sysfs_int}
use hifetch.Network.Interfaces.{
  of_interface, read_counters, filled_interface, get_wireless_info, wireless_fields,
  get_network_statistics, with_addresses, visit_interface, no_interface, scan_network_interfaces,
}
use hifetch.Network.State.{NetworkInterface, NetworkInfo, IfAddress, Network}
use hifetch.Sysinfo.State.{Formats}

-- The name of an entry that has an address, is up and is not the loopback interface.
abbrev pub listed_name : IfAddress → Option (List ℕ)
listed_name ifa =
    if ifa.has_addr && (ifa.up && not (str_eq ifa.ifa_name (codes "lo")))
    then some ifa.ifa_name
    else none

module _ {D : Type 0} (f : Formats D) where
  -- The name and the flag stay as they are written.
  IsNamed : List ℕ → Bool → NetworkInterface D → Type 0
  IsNamed name up iface = (iface.name ≡ name) × (iface.is_up ≡ up)

  wireless_fields-IsNamed :
      (output : Option (List ℕ)) (iface : NetworkInterface D)
      → IsNamed iface.name iface.is_up (wireless_fields f output iface)
  unfolding wireless_fields IsNamed
  wireless_fields-IsNamed none iface = (refl, refl)
  wireless_fields-IsNamed (some output) iface = (refl, refl)

  get_wireless_info-IsNamed :
      (o : Sysfs) (n : Network) (iface : NetworkInterface D)
      → IsNamed iface.name iface.is_up (get_wireless_info f o n iface)
  unfolding get_wireless_info IsNamed
  get_wireless_info-IsNamed o n iface =
      elim (Bool-cases (o.stat (of_interface iface.name (codes "/wireless")))) [
        | inl wireless ↦
            let cmd = take 255 (codes "iwconfig " ++ (iface.name ++ codes " 2>/dev/null")) in
            rw (wireless, get_wireless_info)
              (wireless_fields-IsNamed (n.execute_cmd cmd) (record iface { is_wireless = true }))
        | inr wired ↦ rw (wired, get_wireless_info) (refl, refl)
      ]

  with_addresses-named :
      (n : Network) (inet : Option (ℕ × Option ℕ × Option ℕ)) (iface : NetworkInterface D)
      → (with_addresses f n inet iface).name ≡ iface.name
  unfolding with_addresses
  with_addresses-named n none iface = refl
  with_addresses-named n (some (address, mask, broadcast)) iface = refl

  filled_interface-IsNamed :
      (o : Sysfs) (n : Network) (ifa : IfAddress) (slot : NetworkInterface D) (text : List ℕ)
      → IsNamed ifa.ifa_name ifa.up (filled_interface f o n ifa slot text).0
  unfolding filled_interface get_network_statistics IsNamed
  filled_interface-IsNamed o n ifa slot text =
      let (name, up) = get_wireless_info-IsNamed o n _ in
      (name ∙ with_addresses-named n ifa.inet (record slot { name = ifa.ifa_name }), up)

  chosen-name :
      (has_addr lo up : Bool) (name : List ℕ) (iface slot : NetworkInterface D)
      (after text : List ℕ)
      → IsNamed name up iface
      → let r : NetworkInterface D × Bool × List ℕ =
          if has_addr then (iface, not lo && iface.is_up, after) else (slot, false, text) in
        (if r.1 then some r.0.name else none)
        ≡ (if has_addr && (up && not lo) then some name else none)
  unfolding IsNamed
  chosen-name false lo up name iface slot after text named = refl
  chosen-name true true true name iface slot after text named = refl
  chosen-name true true false name iface slot after text named = refl
  chosen-name true false true name iface slot after text (named, e) = rw e (ap some named)
  chosen-name true false false name iface slot after text (named, e) = rw e refl

  filled_interface-text :
      (o : Sysfs) (n : Network) (ifa : IfAddress) (slot : NetworkInterface D) (text : List ℕ)
      → let t1 = (read_at o (of_interface ifa.ifa_name (codes "/address")) text).1 in
        let t2 = (read_sysfs_int f o (of_interface ifa.ifa_name (codes "/mtu")) t1).1 in
        let t3 = (read_sysfs_int f o (of_interface ifa.ifa_name (codes "/speed")) t2).1 in
        (filled_interface f o n ifa slot text).1 ≡ (read_counters f o ifa.ifa_name t3).1
  unfolding filled_interface get_network_statistics
  filled_interface-text o n ifa slot text =
      let t1 = (read_at o (of_interface ifa.ifa_name (codes "/address")) text).1 in
      let t2 = (read_sysfs_int f o (of_interface ifa.ifa_name (codes "/mtu")) t1).1 in
      let t3 = (read_sysfs_int f o (of_interface ifa.ifa_name (codes "/speed")) t2).1 in
      ap (λ name. (read_counters f o name t3).1)
        (with_addresses-named n ifa.inet (record slot { name = ifa.ifa_name }))

  chosen-text :
      (has_addr : Bool) (i j a b : NetworkInterface D) (c d : Bool) (t u text : List ℕ)
      → t ≡ u
      → let r : NetworkInterface D × Bool × List ℕ =
          if has_addr then (i, c, t) else (a, false, text) in
        let r' : NetworkInterface D × Bool × List ℕ =
          if has_addr then (j, d, u) else (b, false, text) in
        r.2 ≡ r'.2
  chosen-text true i j a b c d t u text e = e
  chosen-text false i j a b c d t u text e = refl

  visit_interface-text :
      (o : Sysfs) (n : Network) (ifa : IfAddress) (a b : NetworkInterface D) (text : List ℕ)
      → (visit_interface f o n ifa a text).2 ≡ (visit_interface f o n ifa b text).2
  unfolding visit_interface
  visit_interface-text o n ifa a b text =
      let i = filled_interface f o n ifa a text in
      let j = filled_interface f o n ifa b text in
      let lo = str_eq ifa.ifa_name (codes "lo") in
      chosen-text ifa.has_addr i.0 j.0 a b (not lo && i.0.is_up) (not lo && j.0.is_up) i.1 j.1 text
        (filled_interface-text o n ifa a text ∙ sym (filled_interface-text o n ifa b text))

  visit_interface-listed :
      (o : Sysfs) (n : Network) (ifa : IfAddress) (slot : NetworkInterface D) (text : List ℕ)
      → let r = visit_interface f o n ifa slot text in
        (if r.1 then some r.0.name else none) ≡ listed_name ifa
  unfolding visit_interface
  visit_interface-listed o n ifa slot text =
      let filled = filled_interface f o n ifa slot text in
      chosen-name ifa.has_addr (str_eq ifa.ifa_name (codes "lo")) ifa.up ifa.ifa_name filled.0 slot
        filled.1 text (filled_interface-IsNamed o n ifa slot text)

  -- The interfaces that are listed are, in their order, the first 32 entries of `getifaddrs` that have
  -- an address, are up and are not called "lo": one for each entry, so one for each address family.
  pub scan_network_interfaces-listed :
      (o : Sysfs) (n : Network) (ifaddr : List IfAddress) (info : NetworkInfo D) (text : List ℕ)
      → length info.interfaces.slots ≡ 32
      → map
          (λ (i : NetworkInterface D). i.name)
          (used (scan_network_interfaces f o n (some ifaddr) info text).0.interfaces)
        ≡ take 32 (pick listed_name ifaddr)
  unfolding scan_network_interfaces
  scan_network_interfaces-listed o n ifaddr info text room =
      let start : IsWithin 32 (record info.interfaces { count = 0 }) = record {
        room = room;
        few = omega arith;
      } in
      let next : IfAddress → List ℕ → List ℕ =
        λ ifa t. (visit_interface f o n ifa (no_interface f) t).2 in
      visit-collect 32 (no_interface f) (visit_interface f o n) (λ (i : NetworkInterface D). i.name)
        (λ ifa t. listed_name ifa) next
        (λ ifa slot t. (
          visit_interface-listed o n ifa slot t,
          visit_interface-text o n ifa slot (no_interface f) t,
        ))
        ifaddr (record info.interfaces { count = 0 }) text start
      ∙ ap (take 32) (collect-pick listed_name next ifaddr text)
