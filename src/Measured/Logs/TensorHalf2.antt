-- ===== src/Measured/Logs/TensorHalf2.antt =====
-- Recorded rows of f_tensor05/proxy2.json.ts, in
-- docs/evidence/f49-endpoints-and-tensor/tensor.
use share_compute.Prelude.{List, [], ◌∷◌}
use share_compute.Measured.{Row, full_row}

abbrev pub tensor_half_2_part_1 : List Row
tensor_half_2_part_1 =
    full_row 1791990371619 0 0 0 0
    ∷ full_row 1791990371720 0 0 0 0
    ∷ full_row 1791990371821 0 0 0 0
    ∷ full_row 1791990371923 0 0 0 0
    ∷ full_row 1791990372024 0 0 0 0
    ∷ full_row 1791990372125 0 0 0 0
    ∷ full_row 1791990372226 0 0 0 0
    ∷ full_row 1791990372327 0 0 0 0
    ∷ full_row 1791990372428 0 0 0 0
    ∷ full_row 1791990372529 0 0 0 0
    ∷ full_row 1791990372630 0 0 0 0
    ∷ full_row 1791990372731 0 0 0 0
    ∷ full_row 1791990372832 0 0 0 0
    ∷ full_row 1791990372933 0 0 0 0
    ∷ full_row 1791990373035 42 48 3 4
    ∷ full_row 1791990373135 121 108 6 9
    ∷ full_row 1791990373237 134 168 9 12
    ∷ full_row 1791990373340 134 168 9 12
    ∷ full_row 1791990373440 469 596 32 42
    ∷ full_row 1791990373541 81683 1192 68 89
    ∷ full_row 1791990373642 81683 1192 68 89
    ∷ full_row 1791990373743 82004 1201 69 90
    ∷ full_row 1791990373844 53758197 1201 70 91
    ∷ full_row 1791990373946 68149366 1201 70 91
    ∷ full_row 1791990374047 68153264 1201 70 91
    ∷ full_row 1791990374149 71551845 1210 72 93
    ∷ full_row 1791990374249 75671441 1228 76 97
    ∷ full_row 1791990374350 80267669 1246 80 101
    ∷ full_row 1791990374452 84557823 1264 84 105
    ∷ full_row 1791990374554 87956404 1273 86 107
    ∷ full_row 1791990374655 90536041 1282 88 109
    ∷ full_row 1791990374756 95924883 1300 92 113
    ∷ full_row 1791990374857 101027066 1318 96 117
    ∷ full_row 1791990374958 104573650 1336 100 121
    ∷ full_row 1791990375058 111773897 1354 104 125
    ∷ full_row 1791990375161 114621491 1372 108 129
    ∷ full_row 1791990375262 120400819 1390 112 133
    ∷ full_row 1791990375364 126754659 1408 116 137
    ∷ full_row 1791990375466 131044813 1426 120 141
    ∷ full_row 1791990375567 137680260 1453 126 147
    ∷ full_row 1791990375668 144050791 1480 132 153
    ∷ full_row 1791990375770 146917148 1489 134 155
    ∷ full_row 1791990375871 152920572 1516 140 161
    ∷ full_row 1791990375972 155651735 1516 140 161
    ∷ full_row 1791990376073 159941889 1534 144 165
    ∷ full_row 1791990376176 164418411 1552 148 169
    ∷ full_row 1791990376279 170100273 1570 152 173
    ∷ full_row 1791990376380 172963295 1588 156 177
    ∷ full_row 1791990376481 176350667 1597 158 179
    ∷ full_row 1791990376582 180188288 1615 162 183
    ∷ full_row 1791990376683 184360007 1624 164 185
    ∷ full_row 1791990376788 186073706 1937 201 222
    ∷ full_row 1791990376889 186349084 73713 216 237
    ∷ full_row 1791990376991 186919327 163353 226 247
    ∷ full_row 1791990377092 187552872 235065 234 255
    ∷ full_row 1791990377193 188769971 342633 246 267
    ∷ full_row 1791990377294 190322875 432273 256 277
    ∷ full_row 1791990377395 191939652 521913 266 287
    ∷ full_row 1791990377496 193970519 611553 276 297
    ∷ full_row 1791990377599 195872546 683265 284 305
    ∷ full_row 1791990377704 198232672 772905 294 315
    ∷ full_row 1791990377805 200830671 1134213 305 326
    ∷ full_row 1791990377906 201766291 1173725 328 349
    ∷ full_row 1791990378008 203340276 1202461 344 365
    ∷ full_row 1791990378109 205382252 1227605 358 379
    ∷ full_row 1791990378210 209112181 1263525 378 399
    ∷ full_row 1791990378312 213026588 1292261 394 415
    ∷ full_row 1791990378413 214923119 1592633 404 425
    ∷ full_row 1791990378514 215712880 1628553 424 445
    ∷ full_row 1791990378616 218171744 1671657 448 469
    ∷ full_row 1791990378717 221921715 1711169 470 491
    ∷ full_row 1791990378818 226207751 1747089 490 511
    ∷ full_row 1791990378928 228963971 1765049 500 521
    ∷ full_row 1791990379029 229226935 2069013 512 533
    ∷ full_row 1791990379131 230982503 2112117 536 557
    ∷ full_row 1791990379233 233109366 2140853 552 573
    ∷ full_row 1791990379334 236692775 2176773 572 593
    ∷ full_row 1791990379434 240489966 2205509 588 609
    ∷ full_row 1791990379539 243078800 2513065 602 623
    ∷ full_row 1791990379644 243966241 2548985 622 643
    ∷ full_row 1791990379747 246072343 2584905 642 663
    ∷ full_row 1791990379848 248298556 2613641 658 679
    ∷ full_row 1791990379951 251877184 2645969 676 697
    ∷ full_row 1791990380056 256145844 2674705 692 713
    ∷ full_row 1791990380157 257245803 2978669 704 725
    ∷ full_row 1791990380264 258032891 3007405 720 741
    ∷ full_row 1791990380366 259921252 3039733 738 759
    ∷ full_row 1791990380468 262216510 3068469 754 775
    ∷ full_row 1791990380570 267136910 3111573 778 799
    ∷ full_row 1791990380671 271193938 3426313 796 817
    ∷ full_row 1791990380772 272300599 3469417 820 841
    ∷ full_row 1791990380873 275181663 3516113 846 867
    ∷ full_row 1791990380975 277689641 3541257 860 881
    ∷ full_row 1791990381076 281203560 3569993 876 897
    ∷ full_row 1791990381179 285234469 3884733 894 915
    ∷ full_row 1791990381282 286367249 3927837 918 939
    ∷ full_row 1791990381384 288742271 3967349 940 961
    ∷ full_row 1791990381485 292426453 4006861 962 983
    ∷ full_row 1791990381587 294861685 4024821 972 993
    ∷ full_row 1791990381688 298822626 4053557 988 1009
    ∷ full_row 1791990381790 299560185 4361113 1002 1023
    ∷ full_row 1791990381892 300962991 4397033 1022 1043
    ∷ full_row 1791990381995 303575032 4436545 1044 1065
    ∷ full_row 1791990382096 306675430 4465281 1060 1081
    ∷ full_row 1791990382197 309960521 4494017 1076 1097
    ∷ full_row 1791990382298 311719978 4504793 1082 1103
    ∷ full_row 1791990382400 313508505 4812349 1096 1117
    ∷ full_row 1791990382504 315029641 4855453 1120 1141
    ∷ full_row 1791990382611 317509266 4891373 1140 1161
    ∷ full_row 1791990382713 320392484 4923701 1157 1178
    ∷ full_row 1791990382813 325559788 4959621 1178 1199
    ∷ full_row 1791990382914 327482599 5263585 1190 1211
    ∷ full_row 1791990383019 328130595 5292321 1206 1227
    ∷ full_row 1791990383121 329449053 5321057 1222 1243
    ∷ full_row 1791990383222 331708332 5353385 1240 1261
    ∷ full_row 1791990383324 333787580 5374937 1252 1273
    ∷ full_row 1791990383426 337883261 5407265 1270 1291
    ∷ full_row 1791990383527 341497171 5718413 1285 1306
    ∷ full_row 1791990383628 342147736 5750741 1304 1325
    ∷ full_row 1791990383730 344002878 5786661 1324 1345
    ∷ full_row 1791990383831 346325101 5815397 1340 1361
    ∷ full_row 1791990383932 349407231 5847725 1358 1379
    ∷ full_row 1791990384033 354612394 5883645 1378 1399
    ∷ full_row 1791990384135 355765332 6191201 1392 1413
    ∷ full_row 1791990384236 356843994 6223529 1410 1431
    ∷ full_row 1791990384338 359075521 6259449 1430 1451
    ∷ full_row 1791990384439 361393041 6284593 1444 1465
    ∷ full_row 1791990384542 365603460 6320513 1464 1485
    ∷ full_row 1791990384651 369630471 6349249 1480 1501
    ∷ full_row 1791990384753 370230020 6663989 1498 1519
    ∷ full_row 1791990384854 371296241 6689133 1512 1533
    ∷ full_row 1791990384955 373142171 6717869 1528 1549
    ∷ full_row 1791990385057 376654865 6753789 1548 1569
    ∷ full_row 1791990385158 381604063 6793301 1570 1591
    ∷ full_row 1791990385260 383697121 6807669 1578 1599
    ∷ full_row 1791990385361 383960085 7111633 1590 1611
    ∷ full_row 1791990385462 385446467 7151145 1612 1633
    ∷ full_row 1791990385564 388248702 7187065 1632 1653
    ∷ full_row 1791990385665 391430144 7219393 1650 1671
    ∷ full_row 1791990385766 396119878 7255313 1670 1691
    ∷ full_row 1791990385868 397965282 7566461 1686 1707
    ∷ full_row 1791990385969 398699391 7591605 1700 1721
    ∷ full_row 1791990386070 400269478 7620341 1716 1737
    ∷ full_row 1791990386171 401909166 7641893 1728 1749
    ∷ full_row 1791990386273 405492575 7677813 1748 1769
    ∷ full_row 1791990386374 410186528 7713733 1768 1789
    ∷ full_row 1791990386476 411830506 8010513 1776 1797
    ∷ full_row 1791990386577 411830506 8010513 1776 1797
    ∷ full_row 1791990386678 411830506 8010513 1776 1797
    ∷ full_row 1791990386779 411830506 8010513 1776 1797
    ∷ []

abbrev pub tensor_half_2_part_2 : List Row
tensor_half_2_part_2 =
    full_row 1791990386880 411830506 8010513 1776 1797
    ∷ full_row 1791990386981 411830506 8010513 1776 1797
    ∷ full_row 1791990387082 411830506 8010513 1776 1797
    ∷ full_row 1791990387183 411830506 8010513 1776 1797
    ∷ full_row 1791990387285 411830506 8010513 1776 1797
    ∷ full_row 1791990387386 411830506 8010513 1776 1797
    ∷ full_row 1791990387487 411830506 8010513 1776 1797
    ∷ []
