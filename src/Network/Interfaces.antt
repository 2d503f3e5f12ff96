-- ===== src/Network/Interfaces.antt =====
-- The interfaces (src/network.c, `scan_network_interfaces`, `get_wireless_info` and
-- `get_network_statistics`).
use hifetch.Common.{
  codes, ℕ, suc, ◌-◌, ◌^◌, Bool, true, false, not, ◌&&◌, ℤ, pos, negsuc, List, [], ◌∷◌, ◌++◌,
  Option, none, some, ◌==◌, if◌then◌else◌, length, take, drop, strstr, str_eq, visit,
}
use hifetch.Hardware.Sysfs.{Sysfs, read_at, read_sysfs_int, driver_of}
use hifetch.Network.State.{NetworkInterface, NetworkInfo, IfAddress, Network, max_interfaces}
use hifetch.Sysinfo.Facts.{after_first}
use hifetch.Sysinfo.State.{Formats}

-- `snprintf` into 256 bytes.
abbrev short : List ℕ → List ℕ
short place = take 255 place

abbrev pub of_interface : List ℕ → List ℕ → List ℕ
of_interface name file = short (codes "/sys/class/net/" ++ (name ++ file))

-- An `int` as a `size_t`.
abbrev size_of_int : ℤ → ℕ
size_of_int (pos n) = n
size_of_int (negsuc n) = 2 ^ 64 - suc n

abbrev text_or_old : Option (List ℕ) → List ℕ → List ℕ
text_or_old none old = old
text_or_old (some text) old = text

-- The name before the closing quote, with the text after that quote.
unfoldable pub until_quote : List ℕ → Option (List ℕ × List ℕ)
until_quote essid_start = elim (after_first 34 essid_start) [
  | none ↦ none
  | some after ↦ some (take (length essid_start - length after - 1) essid_start, after)
]

unfoldable pub after_marker : List ℕ → Option (List ℕ × List ℕ)
after_marker [] = none
after_marker (c ∷ essid_start) = if c == 34 then until_quote essid_start else none

-- The name between quotes after "ESSID:".
unfoldable pub quoted : List ℕ → Option (List ℕ × List ℕ)
quoted output = elim (strstr output (codes "ESSID:")) [
  | none ↦ none
  | some found ↦ after_marker (drop 6 found)
]

-- The text of a wireless interface: the closing quote is overwritten with the end of the text before
-- the two numbers are looked for.
unfoldable pub after_cut : List ℕ → Option (List ℕ × List ℕ) → List ℕ
after_cut output none = output
after_cut output (some (essid, after)) = take (length output - length after - 1) output

module _ {D : Type 0} (f : Formats D) where
  abbrev essid_or_old : Option (List ℕ × List ℕ) → List ℕ → List ℕ
  essid_or_old none old = old
  essid_or_old (some (essid, after)) old = essid

  abbrev signal_or_old : Option (List ℕ) → ℤ → ℤ
  signal_or_old none old = old
  signal_or_old (some found) old = f.atoi (drop 13 found)

  abbrev frequency_or_old : Option (List ℕ) → D → D
  frequency_or_old none old = old
  frequency_or_old (some found) old = f.atof (drop 10 found)

  unfoldable pub wireless_fields : Option (List ℕ) → NetworkInterface D → NetworkInterface D
  wireless_fields none iface = iface
  wireless_fields (some output) iface =
      let essid = quoted output in
      let seen = after_cut output essid in
      record iface {
        wireless_essid = essid_or_old essid iface.wireless_essid;
        wireless_signal = signal_or_old (strstr seen (codes "Signal level=")) iface.wireless_signal;
        wireless_frequency =
            frequency_or_old (strstr seen (codes "Frequency:")) iface.wireless_frequency;
      }

  unfoldable pub get_wireless_info : Sysfs → Network → NetworkInterface D → NetworkInterface D
  get_wireless_info o n iface =
      let wired = record iface { is_wireless = false } in
      let cmd = take 255 (codes "iwconfig " ++ (iface.name ++ codes " 2>/dev/null")) in
      if o.stat (of_interface iface.name (codes "/wireless"))
      then wireless_fields (n.execute_cmd cmd) (record iface { is_wireless = true })
      else wired

  abbrev count_at : Sysfs → List ℕ → List ℕ → List ℕ → ℕ × List ℕ
  count_at o name file text =
      let (n, after) = read_sysfs_int f o (of_interface name file) text in (size_of_int n, after)

  -- The six counters in their order; the text in the static buffer goes through the reads.
  unfoldable pub read_counters : Sysfs → List ℕ → List ℕ → (ℕ × ℕ × ℕ × ℕ × ℕ × ℕ) × List ℕ
  read_counters o name text =
      let (rx_bytes, t1) = count_at o name (codes "/statistics/rx_bytes") text in
      let (tx_bytes, t2) = count_at o name (codes "/statistics/tx_bytes") t1 in
      let (rx_packets, t3) = count_at o name (codes "/statistics/rx_packets") t2 in
      let (tx_packets, t4) = count_at o name (codes "/statistics/tx_packets") t3 in
      let (rx_errors, t5) = count_at o name (codes "/statistics/rx_errors") t4 in
      let (tx_errors, t6) = count_at o name (codes "/statistics/tx_errors") t5 in
      ((rx_bytes, tx_bytes, rx_packets, tx_packets, rx_errors, tx_errors), t6)

  unfoldable pub get_network_statistics :
      Sysfs → NetworkInterface D → List ℕ → NetworkInterface D × List ℕ
  get_network_statistics o iface text =
      let (counters, after) = read_counters o iface.name text in
      (
        record iface {
          rx_bytes = counters.0;
          tx_bytes = counters.1;
          rx_packets = counters.2;
          tx_packets = counters.3;
          rx_errors = counters.4;
          tx_errors = counters.5;
        },
        after,
      )

  abbrev address_or_old : Network → Option ℕ → List ℕ → List ℕ
  address_or_old n none old = old
  address_or_old n (some address) old = n.inet_ntop address

  -- The three addresses, of an entry that has them.
  unfoldable pub with_addresses :
      Network → Option (ℕ × Option ℕ × Option ℕ) → NetworkInterface D → NetworkInterface D
  with_addresses n none iface = iface
  with_addresses n (some (address, mask, broadcast)) iface = record iface {
    ip_address = n.inet_ntop address;
    netmask = address_or_old n mask iface.netmask;
    broadcast = address_or_old n broadcast iface.broadcast;
  }

  abbrev speed_of : ℤ → D
  speed_of speed = f.of_ℕ (elim speed [ pos n ↦ n | negsuc n ↦ 0 ])

  -- What the slot holds after an entry that has an address.
  unfoldable pub filled_interface :
      Sysfs → Network → IfAddress → NetworkInterface D → List ℕ → NetworkInterface D × List ℕ
  filled_interface o n ifa slot text =
      let named = with_addresses n ifa.inet (record slot { name = ifa.ifa_name }) in
      let (mac, t1) = read_at o (of_interface ifa.ifa_name (codes "/address")) text in
      let (mtu, t2) = read_sysfs_int f o (of_interface ifa.ifa_name (codes "/mtu")) t1 in
      let (speed, t3) = read_sysfs_int f o (of_interface ifa.ifa_name (codes "/speed")) t2 in
      let link = o.readlink (of_interface ifa.ifa_name (codes "/device/driver")) in
      let (counted, t4) =
        get_network_statistics o
          (record named {
            is_up = ifa.up;
            mac_address = if mac then t1 else named.mac_address;
            mtu = mtu;
            speed_mbps = speed_of speed;
            driver = driver_of link named.driver;
          })
          t3 in
      (get_wireless_info o n counted, t4)

  -- One entry: it is counted when it is up and not "lo".
  unfoldable pub visit_interface :
      Sysfs → Network → IfAddress → NetworkInterface D → List ℕ → NetworkInterface D × Bool × List ℕ
  visit_interface o n ifa slot text =
      let (iface, after) = filled_interface o n ifa slot text in
      if ifa.has_addr
      then (iface, not (str_eq ifa.ifa_name (codes "lo")) && iface.is_up, after)
      else (slot, false, text)

  abbrev pub no_interface : NetworkInterface D
  no_interface = record {
    name = [];
    ip_address = [];
    netmask = [];
    broadcast = [];
    mac_address = [];
    is_up = false;
    is_wireless = false;
    wireless_essid = [];
    wireless_signal = pos 0;
    wireless_frequency = f.of_ℕ 0;
    rx_bytes = 0;
    tx_bytes = 0;
    rx_packets = 0;
    tx_packets = 0;
    rx_errors = 0;
    tx_errors = 0;
    speed_mbps = f.of_ℕ 0;
    mtu = pos 0;
    driver = [];
  }

  -- `none` is an error of `getifaddrs`.
  unfoldable pub scan_network_interfaces :
      Sysfs → Network → Option (List IfAddress) → NetworkInfo D → List ℕ → NetworkInfo D × List ℕ
  scan_network_interfaces o n none info text =
      (record info { interfaces = record info.interfaces { count = 0 } }, text)
  scan_network_interfaces o n (some ifaddr) info text =
      let start = record info.interfaces { count = 0 } in
      let (interfaces, after) =
        visit max_interfaces no_interface (visit_interface o n) ifaddr start text in
      (record info { interfaces = interfaces }, after)
