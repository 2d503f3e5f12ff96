-- ===== src/Report/DebianLogos.antt =====
-- The logos of Debian and of the systems that come from it (src/ascii.c). A row is its bytes.
use hifetch.Common.{ℕ, List, [], ◌∷◌, codes}

abbrev pub ubuntu_ascii : List (List ℕ)
ubuntu_ascii =
    codes "            \u{1b}[1;31m.-/+oossssoo+/-.\u{1b}[0m"
    ∷ codes "        \u{1b}[1;31m`:+ssssssssssssssssss+:`\u{1b}[0m"
    ∷ codes "      \u{1b}[1;31m-+ssssssssssssssssssyyssss+-\u{1b}[0m"
    ∷ codes "    \u{1b}[1;31m.ossssssssssssssssssdMMMNysssso.\u{1b}[0m"
    ∷ codes "   \u{1b}[1;31m/ssssssssssshdmmNNmmyNMMMMhssssss/\u{1b}[0m"
    ∷ codes "  \u{1b}[1;31m+ssssssssshmydMMMMMMMNddddyssssssss+\u{1b}[0m"
    ∷ codes " \u{1b}[1;31m/sssssssshNMMMyhhyyyyhmNMMMNhssssssss/\u{1b}[0m"
    ∷ codes " \u{1b}[1;31m.ssssssssdMMMNhsssssssssshNMMMdssssssss.\u{1b}[0m"
    ∷ codes " \u{1b}[1;31m+sssshhhyNMMNyssssssssssssyNMMMysssssss+\u{1b}[0m"
    ∷ codes " \u{1b}[1;31mossyNMMMNyMMhsssssssssssssshmmmhssssssso\u{1b}[0m"
    ∷ codes " \u{1b}[1;31mossyNMMMNyMMhsssssssssssssshmmmhssssssso\u{1b}[0m"
    ∷ codes " \u{1b}[1;31m+sssshhhyNMMNyssssssssssssyNMMMysssssss+\u{1b}[0m"
    ∷ codes " \u{1b}[1;31m.ssssssssdMMMNhsssssssssshNMMMdssssssss.\u{1b}[0m"
    ∷ codes " \u{1b}[1;31m/sssssssshNMMMyhhyyyyhdNMMMNhssssssss/\u{1b}[0m"
    ∷ codes "  \u{1b}[1;31m+ssssssssshmydMMMMMMMNddddyssssssss+\u{1b}[0m"
    ∷ codes "   \u{1b}[1;31m/ssssssssssshdmNNNNmyNMMMMhssssss/\u{1b}[0m"
    ∷ codes "    \u{1b}[1;31m.ossssssssssssssssssdMMMNysssso.\u{1b}[0m"
    ∷ codes "      \u{1b}[1;31m-+sssssssssssssssssyyyssss+-\u{1b}[0m"
    ∷ codes "        \u{1b}[1;31m`:+ssssssssssssssssss+:`\u{1b}[0m"
    ∷ []

abbrev pub debian_ascii : List (List ℕ)
debian_ascii =
    codes "       \u{1b}[1;31m_,met$$$$$gg.\u{1b}[0m"
    ∷ codes "    \u{1b}[1;31m,g$$$$$$$$$$$$$$$P.\u{1b}[0m"
    ∷ codes "  \u{1b}[1;31m,g$$P\"     \"\"\"Y$$.\"`.\u{1b}[0m"
    ∷ codes " \u{1b}[1;31m,$$P'              `$$$.\u{1b}[0m"
    ∷ codes "\u{1b}[1;31m',$$P       ,ggs.     `$$b:\u{1b}[0m"
    ∷ codes "\u{1b}[1;31m`d$$'     ,$P\"'   .    $$$\u{1b}[0m"
    ∷ codes " \u{1b}[1;31m$$P      d$'     ,      $$P\u{1b}[0m"
    ∷ codes " \u{1b}[1;31m$$:      $$.   -    ,d$$'\u{1b}[0m"
    ∷ codes " \u{1b}[1;31m$$;      Y$b._   _,d$P'\u{1b}[0m"
    ∷ codes " \u{1b}[1;31mY$$.    `.`\"Y$$$$P\"'\u{1b}[0m"
    ∷ codes " \u{1b}[1;31m`$$b      \"-.__\u{1b}[0m"
    ∷ codes "  \u{1b}[1;31m`Y$$\u{1b}[0m"
    ∷ codes "   \u{1b}[1;31m`Y$$.\u{1b}[0m"
    ∷ codes "     \u{1b}[1;31m`$$b.\u{1b}[0m"
    ∷ codes "       \u{1b}[1;31m`Y$$b.\u{1b}[0m"
    ∷ codes "          \u{1b}[1;31m`\"Y$b._\u{1b}[0m"
    ∷ codes "              \u{1b}[1;31m`\"\"\"\u{1b}[0m"
    ∷ []
    ∷ []
    ∷ []

abbrev pub kali_ascii : List (List ℕ)
kali_ascii =
    codes "      \u{1b}[1;34m,.....                                       \u{1b}[0m"
    ∷ codes "  \u{1b}[1;34m,xNMM.                                          \u{1b}[0m"
    ∷ codes "\u{1b}[1;34m.OMMMMo           MMMMMP .OMMMMMMMo.  .oMMMMMM. \u{1b}[0m"
    ∷ codes "\u{1b}[1;34m OMMM0,      .;MMMMMMMP' ;MMMMMMMMMP .MMMMMMMMo \u{1b}[0m"
    ∷ codes "\u{1b}[1;34m `MMM#        ;MMMMM'     :MMMMMMM.  .MMMMMMMM  \u{1b}[0m"
    ∷ codes "\u{1b}[1;34m  MMMo          MMM:        MMMMP     dMMMMMMMM \u{1b}[0m"
    ∷ codes "\u{1b}[1;34m  OMMl          MMM.        MMMMM,    ,MMMMMMM' \u{1b}[0m"
    ∷ codes "\u{1b}[1;34m  ,MMM.         `MMo        `MMMMMMo, .OMMMMMP  \u{1b}[0m"
    ∷ codes "\u{1b}[1;34m   MMM;          MMM        OMMMMMMMMMlOMMMMMM.  \u{1b}[0m"
    ∷ codes "\u{1b}[1;34m   'MMM.         MMM       MMMMMP`:MMMMMMMMMMo  \u{1b}[0m"
    ∷ codes "\u{1b}[1;34m    'MMo         MMM      'MMMMo   .mMMMMMMMM'  \u{1b}[0m"
    ∷ codes "\u{1b}[1;34m     ;MM:        MMM      'MMMM:    ;MMMMMMP'   \u{1b}[0m"
    ∷ codes "\u{1b}[1;34m      :MM.       'MMM.     .mMMMP.    ;MMMMP'    \u{1b}[0m"
    ∷ codes "\u{1b}[1;34m       ;M0.       'MMM.     :MMMM:     :MM;      \u{1b}[0m"
    ∷ codes "\u{1b}[1;34m        .lNl.      'MMMMl..lMMMMMo      'o'       \u{1b}[0m"
    ∷ codes "\u{1b}[1;34m          ..          ;MMMMMMMMP'                 \u{1b}[0m"
    ∷ codes "\u{1b}[1;34m                        .;dOOo;.                  \u{1b}[0m"
    ∷ []
    ∷ []
    ∷ []

abbrev pub elementary_ascii : List (List ℕ)
elementary_ascii =
    codes "         \u{1b}[1;37meeeeeeeeeeeeeeeee\u{1b}[0m"
    ∷ codes "      \u{1b}[1;37meeeeeeeeeeeeeeeeeeeeee\u{1b}[0m"
    ∷ codes "    \u{1b}[1;37meeeeeeeeeeeeeeeeeeeeeeee\u{1b}[0m"
    ∷ codes "   \u{1b}[1;37meeeee\u{1b}[0m  \u{1b}[1;37meeeeeeeeeeee   eeeee\u{1b}[0m"
    ∷ codes "  \u{1b}[1;37meeeee   eeeeeeeeeeee    eeeee\u{1b}[0m"
    ∷ codes " \u{1b}[1;37meeeeee   eeeeeeeeeee    eeeeee\u{1b}[0m"
    ∷ codes " \u{1b}[1;37meeeeeee  eeeeeeeeeee   eeeeeee\u{1b}[0m"
    ∷ codes " \u{1b}[1;37meeeeeeee eeeeeeeeee   eeeeeeee\u{1b}[0m"
    ∷ codes " \u{1b}[1;37meeeeeeeeeeeeeeeeeeeeeeeeeeeee\u{1b}[0m"
    ∷ codes " \u{1b}[1;37meeeeeeeeeeeeeeeeeeeeeeeeeeeee\u{1b}[0m"
    ∷ codes " \u{1b}[1;37meeeeeeeeeeeeeeeeeeeeeeeeeeeee\u{1b}[0m"
    ∷ codes " \u{1b}[1;37meeeeeeeeeeeeeeeeeeeeeeeeeeeee\u{1b}[0m"
    ∷ codes " \u{1b}[1;37meeeeeeeeeeeeeeee    eeeeeeee\u{1b}[0m"
    ∷ codes "  \u{1b}[1;37meeeeeeeeeeeeeee     eeeeee\u{1b}[0m"
    ∷ codes "   \u{1b}[1;37meeeeeeeeeeeee      eeeee\u{1b}[0m"
    ∷ codes "    \u{1b}[1;37meeeeeeeeee       eeee\u{1b}[0m"
    ∷ codes "      \u{1b}[1;37meeeeee\u{1b}[0m"
    ∷ []
    ∷ []
    ∷ []

abbrev pub popos_ascii : List (List ℕ)
popos_ascii =
    codes "             \u{1b}[1;36m/////////////\u{1b}[0m"
    ∷ codes "         \u{1b}[1;36m/////////////////////\u{1b}[0m"
    ∷ codes
        "      \u{1b}[1;36m//////\u{1b}[0m\u{1b}[1;37m*767\u{1b}[0m\u{1b}[1;36m////////////////\u{1b}[0m"
    ∷ codes
        "    \u{1b}[1;36m//////\u{1b}[0m\u{1b}[1;37m7676767676\u{1b}[0m\u{1b}[1;36m*//////////\u{1b}[0m"
    ∷ codes
        "   \u{1b}[1;36m/////\u{1b}[0m\u{1b}[1;37m767676767676767\u{1b}[0m\u{1b}[1;36m*////////\u{1b}[0m"
    ∷ codes
        "  \u{1b}[1;36m/////\u{1b}[0m\u{1b}[1;37m76767676767676767\u{1b}[0m\u{1b}[1;36m*//////\u{1b}[0m"
    ∷ codes
        " \u{1b}[1;36m/////\u{1b}[0m\u{1b}[1;37m767676767676767676\u{1b}[0m\u{1b}[1;36m*////\u{1b}[0m"
    ∷ codes
        " \u{1b}[1;36m////\u{1b}[0m\u{1b}[1;37m76767676767676767676\u{1b}[0m\u{1b}[1;36m*///\u{1b}[0m"
    ∷ codes
        " \u{1b}[1;36m///\u{1b}[0m\u{1b}[1;37m7676767676767676767676\u{1b}[0m\u{1b}[1;36m*//\u{1b}[0m"
    ∷ codes
        " \u{1b}[1;36m//\u{1b}[0m\u{1b}[1;37m767676767676767676767676\u{1b}[0m\u{1b}[1;36m*/\u{1b}[0m"
    ∷ codes
        " \u{1b}[1;36m/\u{1b}[0m\u{1b}[1;37m76767676767676767676767676\u{1b}[0m\u{1b}[1;36m*\u{1b}[0m"
    ∷ codes " \u{1b}[1;37m7676767676767676767676767676\u{1b}[0m"
    ∷ codes " \u{1b}[1;37m7676767676767676767676767676\u{1b}[0m"
    ∷ codes " \u{1b}[1;37m7676767676767676767676767676\u{1b}[0m"
    ∷ codes " \u{1b}[1;37m7676767676767676767676767676\u{1b}[0m"
    ∷ codes " \u{1b}[1;37m7676767676767676767676767676\u{1b}[0m"
    ∷ []
    ∷ []
    ∷ []
    ∷ []

abbrev pub mint_ascii : List (List ℕ)
mint_ascii =
    codes " \u{1b}[1;32mMMMMMMMMMMMMMMMMMMMMMMMMMcc\u{1b}[0m"
    ∷ codes " \u{1b}[1;32mMMMMMMMMMMMMMMMMMMMMMMMMMMM\u{1b}[0m"
    ∷ codes " \u{1b}[1;32mMMMMMMMMMMMMMMMMMMMMMMMMMMMM\u{1b}[0m"
    ∷ codes " \u{1b}[1;32mMMMMMMMMMMMMMMMMMMMMMMMMMMMM\u{1b}[0m"
    ∷ codes " \u{1b}[1;32mMMMMMMMMMMMMMMMMMMMMMMMMMMMM\u{1b}[0m"
    ∷ codes " \u{1b}[1;32mMMMMMMMMMMM\u{1b}[0m\u{1b}[1;37mMMMMMMMMMMMMM\u{1b}[0m"
    ∷ codes " \u{1b}[1;32mMMMMMMMMMMM\u{1b}[0m\u{1b}[1;37mMMMMMMMMMMMMM\u{1b}[0m"
    ∷ codes " \u{1b}[1;32mMMMMMMMMMMM\u{1b}[0m\u{1b}[1;37mMMMMMMMMMMMMM\u{1b}[0m"
    ∷ codes " \u{1b}[1;32mMMMMMMMMMMM\u{1b}[0m\u{1b}[1;37mMMMMMMMMMMMMM\u{1b}[0m"
    ∷ codes " \u{1b}[1;32mMMMMMMMMMMM\u{1b}[0m\u{1b}[1;37mMMMMMMMMMMMMM\u{1b}[0m"
    ∷ codes " \u{1b}[1;32mMMMMMMMMMMM\u{1b}[0m\u{1b}[1;37mMMMMMMMMMMMMM\u{1b}[0m"
    ∷ codes " \u{1b}[1;32mMMMMMMMMMMM\u{1b}[0m\u{1b}[1;37mMMMMMMMMMMMMM\u{1b}[0m"
    ∷ codes " \u{1b}[1;32mMMMMMMMMMMM\u{1b}[0m\u{1b}[1;37mMMMMMMMMMMMMM\u{1b}[0m"
    ∷ codes " \u{1b}[1;32mMMMMMMMMMMM\u{1b}[0m\u{1b}[1;37mMMMMMMMMMMMMM\u{1b}[0m"
    ∷ codes " \u{1b}[1;32mMMMMMMMMMMMMMMMMMMMMMMMMMMM\u{1b}[0m"
    ∷ codes " \u{1b}[1;32mMMMMMMMMMMMMMMMMMMMMMMMMMMM\u{1b}[0m"
    ∷ codes " \u{1b}[1;32mMMMMMMMMMMMMMMMMMMMMMMMMMM\u{1b}[0m"
    ∷ []
    ∷ []
    ∷ []
