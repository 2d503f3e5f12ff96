-- ===== src/Report/Logos.antt =====
-- The logos of the systems that do not come from Debian (src/ascii.c). A row is its bytes.
use hifetch.Common.{ℕ, List, [], ◌∷◌, codes}

abbrev pub arch_ascii : List (List ℕ)
arch_ascii =
    codes "                  \u{1b}[1;34m-`\u{1b}[0m"
    ∷ codes "                 \u{1b}[1;34m.o+`\u{1b}[0m"
    ∷ codes "                \u{1b}[1;34m`ooo/\u{1b}[0m"
    ∷ codes "               \u{1b}[1;34m`+oooo:\u{1b}[0m"
    ∷ codes "              \u{1b}[1;34m`+oooooo:\u{1b}[0m"
    ∷ codes "              \u{1b}[1;34m-+oooooo+:\u{1b}[0m"
    ∷ codes "            \u{1b}[1;34m`/:-:++oooo+:\u{1b}[0m"
    ∷ codes "           \u{1b}[1;34m`/++++/+++++++:\u{1b}[0m"
    ∷ codes "          \u{1b}[1;34m`/++++++++++++++:\u{1b}[0m"
    ∷ codes "         \u{1b}[1;34m`/+++ooooooooooooo/`\u{1b}[0m"
    ∷ codes "        \u{1b}[1;34m./ooosssso++osssssso+`\u{1b}[0m"
    ∷ codes "       \u{1b}[1;34m.oossssso-````/ossssss+`\u{1b}[0m"
    ∷ codes "      \u{1b}[1;34m-osssssso.      :ssssssso.\u{1b}[0m"
    ∷ codes "     \u{1b}[1;34m:osssssss/        osssso+++.\u{1b}[0m"
    ∷ codes "    \u{1b}[1;34m/ossssssss/        +ssssooo/-\u{1b}[0m"
    ∷ codes "  \u{1b}[1;34m`/ossssso+/:-        -:/+osssso+-\u{1b}[0m"
    ∷ codes " \u{1b}[1;34m`+sso+:-`                 `.-/+oso:\u{1b}[0m"
    ∷ codes "\u{1b}[1;34m`++:.                           `-/+/\u{1b}[0m"
    ∷ codes "\u{1b}[1;34m.`                                 `/\u{1b}[0m"
    ∷ []

abbrev pub fedora_ascii : List (List ℕ)
fedora_ascii =
    codes "             \u{1b}[1;34m.',;::::;,'.\u{1b}[0m"
    ∷ codes "         \u{1b}[1;34m.';;;;;looolccccccoo:\u{1b}[0m"
    ∷ codes "        \u{1b}[1;34m.;;;;;lllllccccccoooooooo\u{1b}[0m"
    ∷ codes "       \u{1b}[1;34m;;;;;lllllllccccccccoooooooo\u{1b}[0m"
    ∷ codes "      \u{1b}[1;34m;;;;;;lllllllcccccccccccccccccc\u{1b}[0m"
    ∷ codes "     \u{1b}[1;34m;;;;;;;;lllllllcccccccccccccccccc\u{1b}[0m"
    ∷ codes "    \u{1b}[1;34m;;;;;;;;;lllllllcccccccccccccccccc\u{1b}[0m"
    ∷ codes "   \u{1b}[1;34m;;;;;;;;;;lllllllcccccccccccccccccc\u{1b}[0m"
    ∷ codes "  \u{1b}[1;34m;;;;;;;;;;;lllllllcccccccccccccccccc\u{1b}[0m"
    ∷ codes " \u{1b}[1;34m;;;;;;;;;;;;;lllllllcccccccccccccccc\u{1b}[0m"
    ∷ codes "\u{1b}[1;34m;;;;;;;;;;;;;;lllllllcccccccccccccc\u{1b}[0m"
    ∷ codes "\u{1b}[1;34m;;;;;;;;;;;;;;;lllllllcccccccccccc\u{1b}[0m"
    ∷ codes "\u{1b}[1;34m;;;;;;;;;;;;;;;;lllllllcccccccccc\u{1b}[0m"
    ∷ codes "\u{1b}[1;34m;;;;;;;;;;;;;;;;;lllllllcccccccc\u{1b}[0m"
    ∷ codes "\u{1b}[1;34m;;;;;;;;;;;;;;;;;;lllllllcccccc\u{1b}[0m"
    ∷ codes "\u{1b}[1;34m;;;;;;;;;;;;;;;;;;;lllllllccc\u{1b}[0m"
    ∷ codes "\u{1b}[1;34m;;;;;;;;;;;;;;;;;;;;llllllc\u{1b}[0m"
    ∷ codes "\u{1b}[1;34m;;;;;;;;;;;;;;;;;;;;;lllll\u{1b}[0m"
    ∷ codes "\u{1b}[1;34m;;;;;;;;;;;;;;;;;;;;;;ll\u{1b}[0m"
    ∷ []

abbrev pub centos_ascii : List (List ℕ)
centos_ascii =
    codes "                 \u{1b}[1;33m..\u{1b}[0m"
    ∷ codes "               \u{1b}[1;33m.PLTJ.\u{1b}[0m"
    ∷ codes "              \u{1b}[1;33m<><><><>\u{1b}[0m"
    ∷ codes "     \u{1b}[1;32mTHORX\u{1b}[0m    \u{1b}[1;33m><><><><\u{1b}[0m"
    ∷ codes "    \u{1b}[1;32mDWAYNE\u{1b}[0m   \u{1b}[1;33m><><><><>\u{1b}[0m"
    ∷ codes "   \u{1b}[1;32mROFLCOPTER\u{1b}[0m \u{1b}[1;33m><><><><>\u{1b}[0m"
    ∷ codes "  \u{1b}[1;32mLOL\u{1b}[0m\u{1b}[1;31mUNIX\u{1b}[0m \u{1b}[1;33m><><><><><\u{1b}[0m"
    ∷ codes " \u{1b}[1;32mNASDAQ\u{1b}[0m\u{1b}[1;31mXORZ\u{1b}[0m \u{1b}[1;33m><><><><><\u{1b}[0m"
    ∷ codes " \u{1b}[1;32mFEDORA\u{1b}[0m     \u{1b}[1;33m><><><><><\u{1b}[0m"
    ∷ codes " \u{1b}[1;32mWHATEVER\u{1b}[0m   \u{1b}[1;33m><><><><><\u{1b}[0m"
    ∷ codes
        "  \u{1b}[1;32mE\u{1b}[0m\u{1b}[1;31mL\u{1b}[0m\u{1b}[1;32mI\u{1b}[0m\u{1b}[1;31mT\u{1b}[0m\u{1b}[1;32mE\u{1b}[0m  \u{1b}[1;33m><><><><><\u{1b}[0m"
    ∷ codes "   \u{1b}[1;32mLINUXER\u{1b}[0m   \u{1b}[1;33m><><><><>\u{1b}[0m"
    ∷ codes "    \u{1b}[1;32mTUX\u{1b}[0m      \u{1b}[1;33m><><><><\u{1b}[0m"
    ∷ codes "     \u{1b}[1;32mgod\u{1b}[0m        \u{1b}[1;33m><><><\u{1b}[0m"
    ∷ codes "                 \u{1b}[1;33m><><\u{1b}[0m"
    ∷ codes "                  \u{1b}[1;33m><\u{1b}[0m"
    ∷ codes "                   \u{1b}[1;33m>\u{1b}[0m"
    ∷ []
    ∷ []
    ∷ []

abbrev pub manjaro_ascii : List (List ℕ)
manjaro_ascii =
    codes "\u{1b}[1;32m██████████████████  ████████\u{1b}[0m"
    ∷ codes "\u{1b}[1;32m██████████████████  ████████\u{1b}[0m"
    ∷ codes "\u{1b}[1;32m██████████████████  ████████\u{1b}[0m"
    ∷ codes "\u{1b}[1;32m██████████████████  ████████\u{1b}[0m"
    ∷ codes "\u{1b}[1;32m████████            ████████\u{1b}[0m"
    ∷ codes "\u{1b}[1;32m████████  ████████  ████████\u{1b}[0m"
    ∷ codes "\u{1b}[1;32m████████  ████████  ████████\u{1b}[0m"
    ∷ codes "\u{1b}[1;32m████████  ████████  ████████\u{1b}[0m"
    ∷ codes "\u{1b}[1;32m████████  ████████  ████████\u{1b}[0m"
    ∷ codes "\u{1b}[1;32m████████  ████████  ████████\u{1b}[0m"
    ∷ codes "\u{1b}[1;32m████████  ████████  ████████\u{1b}[0m"
    ∷ codes "\u{1b}[1;32m████████  ████████  ████████\u{1b}[0m"
    ∷ codes "\u{1b}[1;32m████████  ████████  ████████\u{1b}[0m"
    ∷ codes "\u{1b}[1;32m████████  ████████  ████████\u{1b}[0m"
    ∷ []
    ∷ []
    ∷ []
    ∷ []
    ∷ []
    ∷ []

abbrev pub opensuse_ascii : List (List ℕ)
opensuse_ascii =
    codes "           \u{1b}[1;32m.;ldkO0000Okdl;.\u{1b}[0m"
    ∷ codes "       \u{1b}[1;32m.;d00xl:^''''''^:ok00d;.\u{1b}[0m"
    ∷ codes "     \u{1b}[1;32m.d00l'                'o00d.\u{1b}[0m"
    ∷ codes
        "   \u{1b}[1;32m.d0Kd'\u{1b}[0m  \u{1b}[1;31mOdxXd\u{1b}[0m    \u{1b}[1;32m'o0Xk.\u{1b}[0m"
    ∷ codes
        "  \u{1b}[1;32m.OK\u{1b}[0m\u{1b}[1;31mKKK0kOKKKKKKKKKOxOKKKKKKKk\u{1b}[0m\u{1b}[1;32m0K.\u{1b}[0m"
    ∷ codes
        " \u{1b}[1;32m,KX\u{1b}[0m \u{1b}[1;31m'xKXXXXXXXXXXXXXXXXXXXXXX0\u{1b}[0m \u{1b}[1;32mXK,\u{1b}[0m"
    ∷ codes
        " \u{1b}[1;32mKK\u{1b}[0m     \u{1b}[1;31mkXXXXXXXXXXXXXXXXXXXXKx\u{1b}[0m     \u{1b}[1;32mKK\u{1b}[0m"
    ∷ codes
        " \u{1b}[1;32mKK\u{1b}[0m      \u{1b}[1;31mxKXXXXXXXXXXXXXXXXXKx\u{1b}[0m      \u{1b}[1;32mKK\u{1b}[0m"
    ∷ codes
        " \u{1b}[1;32mKK\u{1b}[0m       \u{1b}[1;31mxKXXXXXXXXXXXXXXXKx\u{1b}[0m       \u{1b}[1;32mKK\u{1b}[0m"
    ∷ codes
        " \u{1b}[1;32mKK\u{1b}[0m        \u{1b}[1;31mxKXXXXXXXXXXXXKx\u{1b}[0m        \u{1b}[1;32mKK\u{1b}[0m"
    ∷ codes
        " \u{1b}[1;32mKK\u{1b}[0m         \u{1b}[1;31mxKXXXXXXXXXKx\u{1b}[0m         \u{1b}[1;32mKK\u{1b}[0m"
    ∷ codes
        " \u{1b}[1;32mKK\u{1b}[0m          \u{1b}[1;31mxKXXXXXXKx\u{1b}[0m          \u{1b}[1;32mKK\u{1b}[0m"
    ∷ codes
        " \u{1b}[1;32mKK\u{1b}[0m           \u{1b}[1;31mxKXXXKx\u{1b}[0m           \u{1b}[1;32mKK\u{1b}[0m"
    ∷ codes
        " \u{1b}[1;32mKK\u{1b}[0m            \u{1b}[1;31mxKKx\u{1b}[0m            \u{1b}[1;32mKK\u{1b}[0m"
    ∷ codes
        " \u{1b}[1;32mKK\u{1b}[0m\u{1b}[1;31m0\u{1b}[0m                              \u{1b}[1;31m0\u{1b}[0m\u{1b}[1;32mKK\u{1b}[0m"
    ∷ codes " \u{1b}[1;32m'KK.\u{1b}[0m                            \u{1b}[1;32m.KK'\u{1b}[0m"
    ∷ codes "  \u{1b}[1;32m'KKO.\u{1b}[0m                        \u{1b}[1;32m.OKK'\u{1b}[0m"
    ∷ codes "   \u{1b}[1;32m'K0k;.\u{1b}[0m                  \u{1b}[1;32m.;k0K'\u{1b}[0m"
    ∷ codes "    \u{1b}[1;32m'lO0Oxl:;,,,,,,,,,,;:lxO0Ol'\u{1b}[0m"
    ∷ []

abbrev pub linux_ascii : List (List ℕ)
linux_ascii =
    codes "        \u{1b}[1;37m#####\u{1b}[0m"
    ∷ codes "       \u{1b}[1;37m#######\u{1b}[0m"
    ∷ codes
        "       \u{1b}[1;37m##\u{1b}[0m\u{1b}[1;33mO\u{1b}[0m\u{1b}[1;37m#\u{1b}[0m\u{1b}[1;33mO\u{1b}[0m\u{1b}[1;37m##\u{1b}[0m"
    ∷ codes "       \u{1b}[1;37m#\u{1b}[0m\u{1b}[1;33m#####\u{1b}[0m\u{1b}[1;37m#\u{1b}[0m"
    ∷ codes
        "     \u{1b}[1;37m##\u{1b}[0m\u{1b}[1;33m##\u{1b}[0m\u{1b}[1;37m#\u{1b}[0m\u{1b}[1;33m##\u{1b}[0m\u{1b}[1;37m##\u{1b}[0m"
    ∷ codes "    \u{1b}[1;37m#########\u{1b}[0m\u{1b}[1;33m##\u{1b}[0m\u{1b}[1;37m#\u{1b}[0m"
    ∷ codes "   \u{1b}[1;37m#############\u{1b}[0m"
    ∷ codes "   \u{1b}[1;37m#############\u{1b}[0m"
    ∷ codes "   \u{1b}[1;33m##\u{1b}[0m\u{1b}[1;37m###########\u{1b}[0m\u{1b}[1;33m##\u{1b}[0m"
    ∷ codes
        "   \u{1b}[1;33m######\u{1b}[0m\u{1b}[1;37m#\u{1b}[0m\u{1b}[1;33m#\u{1b}[0m\u{1b}[1;37m#\u{1b}[0m\u{1b}[1;33m######\u{1b}[0m"
    ∷ codes "   \u{1b}[1;33m#################\u{1b}[0m"
    ∷ codes "   \u{1b}[1;33m#################\u{1b}[0m"
    ∷ codes "    \u{1b}[1;33m###############\u{1b}[0m"
    ∷ codes "     \u{1b}[1;33m#############\u{1b}[0m"
    ∷ codes "      \u{1b}[1;33m###########\u{1b}[0m"
    ∷ codes "        \u{1b}[1;33m#######\u{1b}[0m"
    ∷ codes "         \u{1b}[1;33m#####\u{1b}[0m"
    ∷ []
    ∷ []
    ∷ []
