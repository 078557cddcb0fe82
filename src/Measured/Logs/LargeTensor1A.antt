-- ===== src/Measured/Logs/LargeTensor1A.antt =====
-- Recorded rows of v3b_tensor/proxy1.json.ts, in
-- docs/evidence/f49-endpoints-and-tensor/unpadded_first_runs/tensor.
use share_compute.Prelude.{List, [], ◌∷◌}
use share_compute.Measured.{Row, row}

abbrev pub large_tensor_1_part_1 : List Row
large_tensor_1_part_1 =
    row 1791989104593 0 0 0
    ∷ row 1791989104694 0 0 0
    ∷ row 1791989104795 0 0 0
    ∷ row 1791989104897 0 0 0
    ∷ row 1791989104998 0 0 0
    ∷ row 1791989105099 0 0 0
    ∷ row 1791989105201 0 0 0
    ∷ row 1791989105302 0 0 0
    ∷ row 1791989105406 0 0 0
    ∷ row 1791989105507 0 0 0
    ∷ row 1791989105608 0 0 0
    ∷ row 1791989105709 0 0 0
    ∷ row 1791989105811 0 0 0
    ∷ row 1791989105912 0 0 0
    ∷ row 1791989106014 42 48 4
    ∷ row 1791989106115 134 168 12
    ∷ row 1791989106217 134 168 12
    ∷ row 1791989106318 134 168 12
    ∷ row 1791989106420 377 476 34
    ∷ row 1791989106522 19668 724 53
    ∷ row 1791989106623 17060382 733 55
    ∷ row 1791989106724 58363215 733 55
    ∷ row 1791989106825 58363215 733 55
    ∷ row 1791989106926 58363215 733 55
    ∷ row 1791989107027 58363215 733 55
    ∷ row 1791989107128 58363215 733 55
    ∷ row 1791989107234 58363215 733 55
    ∷ row 1791989107335 58363215 733 55
    ∷ row 1791989107436 58363215 733 55
    ∷ row 1791989107577 58363215 733 55
    ∷ row 1791989107678 58363215 733 55
    ∷ row 1791989107779 58363215 733 55
    ∷ row 1791989107880 58363215 733 55
    ∷ row 1791989107981 58363215 733 55
    ∷ row 1791989108082 58363215 733 55
    ∷ row 1791989108184 58371721 733 55
    ∷ row 1791989108284 58371721 733 55
    ∷ row 1791989108386 62558782 742 57
    ∷ row 1791989108487 64783313 742 57
    ∷ row 1791989108589 67379774 742 57
    ∷ row 1791989108690 67379774 742 57
    ∷ row 1791989108794 71558329 751 59
    ∷ row 1791989108895 76606846 760 61
    ∷ row 1791989108996 77230736 760 61
    ∷ row 1791989109097 82386055 769 63
    ∷ row 1791989109198 86795845 769 63
    ∷ row 1791989109298 86795845 769 63
    ∷ row 1791989109400 91252928 778 65
    ∷ row 1791989109500 96173863 787 67
    ∷ row 1791989109636 96925335 787 67
    ∷ row 1791989109737 101524346 796 69
    ∷ row 1791989109838 105933388 796 69
    ∷ row 1791989109939 105933388 796 69
    ∷ row 1791989110040 105933388 796 69
    ∷ row 1791989110142 110120449 805 71
    ∷ row 1791989110246 110120449 805 71
    ∷ row 1791989110347 110120449 805 71
    ∷ row 1791989110449 114307510 814 73
    ∷ row 1791989110558 117833802 814 73
    ∷ row 1791989110659 119128502 814 73
    ∷ row 1791989110767 119128502 814 73
    ∷ row 1791989110869 123307057 823 75
    ∷ row 1791989110970 127789166 832 77
    ∷ row 1791989111071 128979464 832 77
    ∷ row 1791989111172 133601923 841 79
    ∷ row 1791989111273 138544573 841 79
    ∷ row 1791989111374 138544573 841 79
    ∷ row 1791989111476 143001656 850 81
    ∷ row 1791989111577 147246827 859 83
    ∷ row 1791989111678 148674063 859 83
    ∷ row 1791989111796 153122418 868 85
    ∷ row 1791989111898 157682116 868 85
    ∷ row 1791989111999 157682116 868 85
    ∷ row 1791989112100 161860671 877 87
    ∷ row 1791989112201 161869177 877 87
    ∷ row 1791989112302 161869177 877 87
    ∷ row 1791989112403 166564702 886 89
    ∷ row 1791989112505 170877230 886 89
    ∷ row 1791989112605 170877230 886 89
    ∷ row 1791989112706 170877230 886 89
    ∷ row 1791989112808 178599956 904 93
    ∷ row 1791989112909 180728192 904 93
    ∷ row 1791989113011 185193781 913 95
    ∷ row 1791989113111 187868041 913 95
    ∷ row 1791989113212 190293301 913 95
    ∷ row 1791989113313 190293301 913 95
    ∷ row 1791989113414 194750384 922 97
    ∷ row 1791989113515 200112949 931 99
    ∷ row 1791989113616 203839490 940 101
    ∷ row 1791989113717 207500564 940 101
    ∷ row 1791989113818 209430844 940 101
    ∷ row 1791989113930 209430844 940 101
    ∷ row 1791989114032 213609399 949 103
    ∷ row 1791989114133 213617905 949 103
    ∷ row 1791989114234 213617905 949 103
    ∷ row 1791989114335 218661822 958 105
    ∷ row 1791989114438 222625958 958 105
    ∷ row 1791989114539 222625958 958 105
    ∷ row 1791989114643 226804513 967 107
    ∷ row 1791989114744 231272602 976 109
    ∷ row 1791989114846 232476920 976 109
    ∷ row 1791989114947 236942509 985 111
    ∷ row 1791989115048 241972309 985 111
    ∷ row 1791989115149 242042029 985 111
    ∷ row 1791989115250 242042029 985 111
    ∷ row 1791989115353 249733441 1003 115
    ∷ row 1791989115454 252171519 1003 115
    ∷ row 1791989115555 256358580 1012 117
    ∷ row 1791989115656 259089220 1012 117
    ∷ row 1791989115757 261179572 1012 117
    ∷ row 1791989115858 261179572 1012 117
    ∷ row 1791989115959 265366633 1021 119
    ∷ row 1791989116060 265366633 1021 119
    ∷ row 1791989116161 265375139 1021 119
    ∷ row 1791989116264 271241084 1030 121
    ∷ row 1791989116365 274374686 1030 121
    ∷ row 1791989116466 274374686 1030 121
    ∷ row 1791989116568 278553241 1039 123
    ∷ row 1791989116669 281567456 1048 125
    ∷ row 1791989116770 284225648 1048 125
    ∷ row 1791989116871 288691237 1057 127
    ∷ row 1791989116975 293790757 1057 127
    ∷ row 1791989117076 298247840 1066 129
    ∷ row 1791989117178 300485205 1075 131
    ∷ row 1791989117279 302835099 1075 131
    ∷ row 1791989117380 303920247 1075 131
    ∷ row 1791989117482 308107308 1084 133
    ∷ row 1791989117583 312928300 1084 133
    ∷ row 1791989117684 312928300 1084 133
    ∷ row 1791989117787 317106855 1093 135
    ∷ row 1791989117888 317115361 1093 135
    ∷ row 1791989117989 317115361 1093 135
    ∷ row 1791989118090 317115361 1093 135
    ∷ row 1791989118190 321566070 1102 137
    ∷ row 1791989118291 326123414 1102 137
    ∷ row 1791989118395 326123414 1102 137
    ∷ row 1791989118497 326910167 1111 139
    ∷ row 1791989118599 332539334 1120 141
    ∷ row 1791989118702 335720614 1120 141
    ∷ row 1791989118804 335974376 1120 141
    ∷ row 1791989118905 345539485 1129 143
    ∷ row 1791989119006 349996568 1138 145
    ∷ row 1791989119107 352836935 1147 147
    ∷ row 1791989119208 355668975 1147 147
    ∷ row 1791989119313 359893701 1156 149
    ∷ row 1791989119415 364677028 1156 149
    ∷ row 1791989119516 364677028 1156 149
    ∷ row 1791989119618 368855583 1165 151
    ∷ row 1791989119719 368864089 1165 151
    ∷ row 1791989119821 373051150 1174 153
    ∷ []
