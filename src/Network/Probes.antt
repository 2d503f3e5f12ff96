-- ===== src/Network/Probes.antt =====
-- What is measured with commands (src/network.c, `detect_dns_servers` to `resolve_hostname`). A call
-- reads the clock; `clock i` is its reading number `i`.
use hifetch.Common.{
  codes, ℕ, ◌+◌, Bool, true, false, List, [], ◌∷◌, ◌++◌, Option, none, some, Real, ◌==◌, ◌||◌,
  if◌then◌else◌, ltb, length, take, drop, starts_with, visit, is_some,
}
use hifetch.Network.State.{DnsServer, NetworkInfo, Network, max_dns_servers, lines_of}
use hifetch.Strings.Secure.{File}
use hifetch.Sysinfo.State.{Formats}

-- The loop over the blanks before the address.
unfoldable pub skip_gap : List ℕ → List ℕ
skip_gap [] = []
skip_gap (c ∷ ip) = let rest = skip_gap ip in if c == b' ' || c == 9 then rest else c ∷ ip

-- What a command prints, if it prints something.
abbrev printed : Option (List ℕ) → Option (List ℕ)
printed none = none
printed (some text) = if ltb 0 (length text) then some text else none

abbrev text_or_old : Option (List ℕ) → List ℕ → List ℕ
text_or_old none old = old
text_or_old (some text) old = text

-- `strncpy` of at most `size` bytes into an array that ends with a zero byte.
abbrev cut_or_old : ℕ → Option (List ℕ) → List ℕ → List ℕ
cut_or_old size none old = old
cut_or_old size (some text) old = take size text

module _ {D : Type 0} (k : Real D) (f : Formats D) where
  abbrev pub minus_one : D
  minus_one = k.sub k.zero (f.of_ℕ 1)

  abbrev time_of : Option (List ℕ) → D
  time_of none = minus_one
  time_of (some result) = f.atof result

  abbrev ping_cmd : List ℕ → List ℕ
  ping_cmd hostname = take 255 (
      codes "ping -c 1 -W 1 "
      ++ (hostname ++ codes " 2>/dev/null | grep 'time=' | sed 's/.*time=\\([0-9.]*\\).*/\\1/'"))

  unfoldable pub ping_host : Network → List ℕ → D
  ping_host n hostname = time_of (printed (n.execute_cmd (ping_cmd hostname)))

  abbrev pub no_server : DnsServer D
  no_server = record { server = []; port = 0; response_time = f.of_ℕ 0; is_working = false }

  -- One line; two readings of the clock for each server.
  unfoldable pub visit_dns : Network → (ℕ → D) → List ℕ → DnsServer D → ℕ → DnsServer D × Bool × ℕ
  visit_dns n clock line slot i =
      let ip = skip_gap (drop 10 line) in
      if starts_with line (codes "nameserver")
      then (
        record {
          server = ip;
          port = 53;
          is_working = k.less k.zero (ping_host n ip);
          response_time = k.sub (clock (i + 1)) (clock i);
        },
        true,
        i + 2,
      )
      else (slot, false, i)

  unfoldable pub detect_dns_servers :
      Network → (ℕ → D) → File → List ℕ → NetworkInfo D → NetworkInfo D
  detect_dns_servers n clock file buffer info =
      let start = record info.dns_servers { count = 0 } in
      let (servers, readings) =
        visit max_dns_servers no_server (visit_dns n clock) (lines_of file buffer) start 0 in
      record info { dns_servers = servers }

  unfoldable pub get_public_ip_info : Network → NetworkInfo D → NetworkInfo D
  get_public_ip_info n info =
      let output : List ℕ → Option (List ℕ) = λ cmd. printed (n.execute_cmd cmd) in
      record info {
        public_ip =
            text_or_old (output (codes "curl -s -4 ifconfig.me 2>/dev/null")) info.public_ip;
        public_ipv6 =
            text_or_old (output (codes "curl -s -6 ifconfig.me 2>/dev/null")) info.public_ipv6;
        isp_info =
            cut_or_old 127 (output (codes "curl -s 'http://ipinfo.io/org' 2>/dev/null"))
              info.isp_info;
        geolocation =
            cut_or_old 255
              (output (codes "curl -s 'http://ipinfo.io/city,region,country' 2>/dev/null"))
              info.geolocation;
      }

  -- The mean of what was added up, or -1 where nothing was.
  abbrev pub mean : D × ℕ → D
  mean (total, count) = if ltb 0 count then f.div total (f.of_ℕ count) else minus_one

  -- The loop over the hosts: the sum of the answers and their number.
  unfoldable pub add_pings : Network → List (List ℕ) → D × ℕ → D × ℕ
  add_pings n [] (total, count) = (total, count)
  add_pings n (host ∷ hosts) (total, count) =
      let latency = ping_host n host in
      add_pings n hosts
        (if k.less k.zero latency then (k.add total latency, count + 1) else (total, count))

  unfoldable pub test_internet_connectivity : Network → NetworkInfo D → NetworkInfo D
  test_internet_connectivity n info =
      let hosts =
        codes "8.8.8.8" ∷ codes "1.1.1.1" ∷ codes "google.com" ∷ codes "cloudflare.com" ∷ [] in
      record info { internet_latency = mean (add_pings n hosts (k.zero, 0)) }

  -- `none` is an answer of -1.
  unfoldable pub resolve_hostname : Network → List ℕ → Option (List ℕ)
  resolve_hostname n hostname = elim (n.getaddrinfo hostname) [
    | none ↦ none
    | some address ↦ some (n.inet_ntop address)
  ]

  -- The loop over the domains, with two readings of the clock in each round.
  unfoldable pub add_resolutions : Network → (ℕ → D) → ℕ → List (List ℕ) → D × ℕ → D × ℕ
  add_resolutions n clock i [] (total, count) = (total, count)
  add_resolutions n clock i (domain ∷ domains) (total, count) =
      let resolution_time = k.sub (clock (i + 1)) (clock i) in
      add_resolutions n clock (i + 2) domains (
        if is_some (resolve_hostname n domain)
        then (k.add total resolution_time, count + 1)
        else (total, count))

  unfoldable pub test_dns_resolution : Network → (ℕ → D) → NetworkInfo D → NetworkInfo D
  test_dns_resolution n clock info =
      let domains = codes "google.com" ∷ codes "github.com" ∷ codes "stackoverflow.com" ∷ [] in
      record info { dns_resolution_time = mean (add_resolutions n clock 0 domains (k.zero, 0)) }
