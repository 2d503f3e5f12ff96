-- ===== src/Network/Wireless.antt =====
-- What is read of a wireless interface (src/network.c, `get_wireless_info`).
use hifetch.Common.{
  codes, ℕ, ◌-◌, ◌≡◌, refl, sym, ◌∙◌, true, false, List, [], ◌∷◌, ◌++◌, Option, none, some, ◌==◌,
  length, take, strstr, is_some, inl, inr, Bool-cases, length-append, take-append, arith,
}
use hifetch.Hardware.Sysfs.{Sysfs}
use hifetch.Network.Interfaces.{
  of_interface, quoted, until_quote, after_marker, after_cut, wireless_fields, get_wireless_info,
}
use hifetch.Network.State.{NetworkInterface, Network}
use hifetch.Strings.{has}
use hifetch.Sysinfo.Facts.{after_first}
use hifetch.Sysinfo.State.{Formats}

after_first-later :
    (c d : ℕ) (text : List ℕ) → (d == c) ≡ false → after_first c (d ∷ text) ≡ after_first c text
unfolding after_first
after_first-later c d text h = rw h refl

after_first-append :
    (c : ℕ) (name rest : List ℕ)
    → after_first c name ≡ none
    → after_first c (name ++ c ∷ rest) ≡ some rest
unfolding after_first
after_first-append c [] rest h = ground arith
after_first-append c (d ∷ name) rest h = elim (Bool-cases (d == c)) [
  | inl same ↦ absurd (ground (arith, h, same))
  | inr other ↦
      after_first-later c d (name ++ c ∷ rest) other
      ∙ after_first-append c name rest (sym (after_first-later c d name other) ∙ h)
]

until_quote-name :
    (name after : List ℕ)
    → after_first 34 name ≡ none
    → until_quote (name ++ 34 ∷ after) ≡ some (name, after)
unfolding until_quote
until_quote-name name after plain =
    let text = name ++ 34 ∷ after in
    let size : length text - length after - 1 ≡ length name =
      omega (arith, length-append name (34 ∷ after)) in
    rw (after_first-append 34 name after plain, until_quote, size, take-append name (34 ∷ after))
      refl

quoted-name :
    (output name after : List ℕ)
    → strstr output (codes "ESSID:") ≡ some (codes "ESSID:\"" ++ (name ++ 34 ∷ after))
    → after_first 34 name ≡ none
    → quoted output ≡ some (name, after)
unfolding quoted after_marker
quoted-name output name after found plain = rw (found, quoted) (until_quote-name name after plain)

absent : (text word : List ℕ) → has text word ≡ false → strstr text word ≡ none
absent text word h = go (strstr text word) h
  where
    go : (o : Option (List ℕ)) → is_some o ≡ false → o ≡ none
    go none e = refl
    go (some a) e = absurd (ground (arith, e))

module _ {D : Type 0} (f : Formats D) where
  -- The closing quote of the name of the network hides what `iwconfig` prints after it: unless one of
  -- the two numbers stands before that quote, the signal and the frequency stay what they were, and
  -- only the name is read.
  pub get_wireless_info-keeps :
      (o : Sysfs) (n : Network) (iface : NetworkInterface D) (output name after : List ℕ)
      → o.stat (of_interface iface.name (codes "/wireless")) ≡ true
      → n.execute_cmd (take 255 (codes "iwconfig " ++ (iface.name ++ codes " 2>/dev/null")))
        ≡ some output
      → strstr output (codes "ESSID:") ≡ some (codes "ESSID:\"" ++ (name ++ 34 ∷ after))
      → after_first 34 name ≡ none
      → has (take (length output - length after - 1) output) (codes "Signal level=") ≡ false
      → has (take (length output - length after - 1) output) (codes "Frequency:") ≡ false
      → let read = get_wireless_info f o n iface in
        (read.wireless_essid ≡ name)
        × (read.wireless_signal ≡ iface.wireless_signal)
        × (read.wireless_frequency ≡ iface.wireless_frequency)
  unfolding get_wireless_info wireless_fields after_cut
  get_wireless_info-keeps o n iface output name after there printed found plain no_signal
        no_frequency =
      let seen = take (length output - length after - 1) output in
      rw
        (
          there,
          printed,
          get_wireless_info,
          wireless_fields,
          quoted-name output name after found plain,
          after_cut,
          absent seen (codes "Signal level=") no_signal,
          absent seen (codes "Frequency:") no_frequency,
        )
        (refl, refl, refl)
