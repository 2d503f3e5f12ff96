-- ===== src/Report/Tests.antt =====
-- The report of a small system (src/ascii.c), with whole numbers for times and sizes.
use hifetch.Common.{codes, refl, none, some, ◌≡◌, replicate}
use hifetch.Report.Layout.{get_display_width, width_from}
use hifetch.Report.Lines.{Surroundings}
use hifetch.Strings.Secure.{bytes}

abbrev desk : Surroundings
desk = record {
  product_name = bytes (codes "Board\n");
  host_buffer = replicate 256 0;
  colorterm = none;
  editor = some (codes "ed");
}

-- An escape sequence takes no column.
coloured_width : get_display_width (codes "\u{1b}[36m-\u{1b}[0m-") ≡ 2
unfolding get_display_width width_from
coloured_width = refl
