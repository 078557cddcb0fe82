-- ===== src/Measured/Logs/TensorHalf3.antt =====
-- Recorded rows of f_tensor05/proxy3.json.ts, in
-- docs/evidence/f49-endpoints-and-tensor/tensor.
use share_compute.Prelude.{List, [], ◌∷◌}
use share_compute.Measured.{Row, full_row}

abbrev pub tensor_half_3_part_1 : List Row
tensor_half_3_part_1 =
    full_row 1791990371633 0 0 0 0
    ∷ full_row 1791990371734 0 0 0 0
    ∷ full_row 1791990371835 0 0 0 0
    ∷ full_row 1791990371937 0 0 0 0
    ∷ full_row 1791990372038 0 0 0 0
    ∷ full_row 1791990372139 0 0 0 0
    ∷ full_row 1791990372240 0 0 0 0
    ∷ full_row 1791990372341 0 0 0 0
    ∷ full_row 1791990372442 0 0 0 0
    ∷ full_row 1791990372543 0 0 0 0
    ∷ full_row 1791990372644 0 0 0 0
    ∷ full_row 1791990372745 0 0 0 0
    ∷ full_row 1791990372846 0 0 0 0
    ∷ full_row 1791990372947 0 0 0 0
    ∷ full_row 1791990373048 42 48 3 4
    ∷ full_row 1791990373150 134 168 9 12
    ∷ full_row 1791990373253 134 168 9 12
    ∷ full_row 1791990373354 134 168 9 12
    ∷ full_row 1791990373455 469 596 32 42
    ∷ full_row 1791990373556 81683 1192 68 89
    ∷ full_row 1791990373657 81683 1192 68 89
    ∷ full_row 1791990373759 81683 1192 68 89
    ∷ full_row 1791990373860 81683 1192 68 89
    ∷ full_row 1791990373961 82004 1201 69 90
    ∷ full_row 1791990374065 52111178 1201 70 91
    ∷ full_row 1791990374166 54596233 1210 72 93
    ∷ full_row 1791990374267 58113579 1228 76 97
    ∷ full_row 1791990374368 61310564 1237 78 99
    ∷ full_row 1791990374470 66017257 1246 80 101
    ∷ full_row 1791990374571 69832531 1264 84 105
    ∷ full_row 1791990374672 72125448 1273 86 107
    ∷ full_row 1791990374773 73825044 1273 86 107
    ∷ full_row 1791990374874 78139329 1282 88 109
    ∷ full_row 1791990374975 82825195 1300 92 113
    ∷ full_row 1791990375075 86073540 1309 94 115
    ∷ full_row 1791990375177 90316569 1318 96 117
    ∷ full_row 1791990375282 94815115 1336 100 121
    ∷ full_row 1791990375382 100817070 1345 102 123
    ∷ full_row 1791990375483 104745702 1363 106 127
    ∷ full_row 1791990375584 108564874 1381 110 131
    ∷ full_row 1791990375688 114175049 1390 112 133
    ∷ full_row 1791990375799 117576371 1408 116 137
    ∷ full_row 1791990375901 121233628 1417 118 139
    ∷ full_row 1791990376002 122289116 1417 118 139
    ∷ full_row 1791990376108 128190230 1435 122 143
    ∷ full_row 1791990376209 132005504 1453 126 147
    ∷ full_row 1791990376310 135817620 1453 126 147
    ∷ full_row 1791990376412 137662585 1462 128 149
    ∷ full_row 1791990376514 141477859 1480 132 153
    ∷ full_row 1791990376615 143774674 1489 134 155
    ∷ full_row 1791990376715 145194720 1489 134 155
    ∷ full_row 1791990376817 146804198 19769 175 196
    ∷ full_row 1791990376918 147055800 91481 184 205
    ∷ full_row 1791990377019 147572762 199049 196 217
    ∷ full_row 1791990377120 148022054 270761 204 225
    ∷ full_row 1791990377221 148688187 360401 214 235
    ∷ full_row 1791990377323 149604334 467969 225 246
    ∷ full_row 1791990377424 150725922 557609 236 257
    ∷ full_row 1791990377525 151984930 629321 244 265
    ∷ full_row 1791990377626 153020623 701033 252 273
    ∷ full_row 1791990377732 154856265 808601 264 285
    ∷ full_row 1791990377833 155941797 1073333 278 299
    ∷ full_row 1791990377935 156779265 1116437 301 322
    ∷ full_row 1791990378036 158035216 1148765 319 340
    ∷ full_row 1791990378138 159169458 1166725 330 351
    ∷ full_row 1791990378240 161316233 1202645 349 370
    ∷ full_row 1791990378343 163739456 1231381 365 386
    ∷ full_row 1791990378447 164298543 1460257 375 396
    ∷ full_row 1791990378548 165160435 1503361 399 420
    ∷ full_row 1791990378650 166682066 1539281 420 441
    ∷ full_row 1791990378752 169111718 1582385 443 464
    ∷ full_row 1791990378856 171646956 1611121 460 481
    ∷ full_row 1791990378957 172636156 1839997 470 491
    ∷ full_row 1791990379060 173046850 1868733 486 507
    ∷ full_row 1791990379162 174104818 1908245 507 528
    ∷ full_row 1791990379263 175780390 1940573 525 546
    ∷ full_row 1791990379365 178078573 1972901 544 565
    ∷ full_row 1791990379466 180028447 1998045 558 579
    ∷ full_row 1791990379567 181152299 2241289 576 597
    ∷ full_row 1791990379669 181922775 2277209 595 616
    ∷ full_row 1791990379770 183178726 2309537 613 634
    ∷ full_row 1791990379872 184636935 2334681 628 649
    ∷ full_row 1791990379974 187074732 2370601 647 668
    ∷ full_row 1791990380080 189123190 2395745 661 682
    ∷ full_row 1791990380184 189529570 2628213 673 694
    ∷ full_row 1791990380286 190143172 2660541 691 712
    ∷ full_row 1791990380388 191198875 2689277 707 728
    ∷ full_row 1791990380489 192857250 2721605 725 746
    ∷ full_row 1791990380590 195665918 2761117 747 768
    ∷ full_row 1791990380691 197910740 3015137 771 792
    ∷ full_row 1791990380794 198767826 3051057 792 813
    ∷ full_row 1791990380899 200484735 3090569 814 835
    ∷ full_row 1791990381000 201907137 3119305 829 850
    ∷ full_row 1791990381102 204488592 3151633 848 869
    ∷ full_row 1791990381203 206228817 3394877 866 887
    ∷ full_row 1791990381304 207148996 3437981 890 911
    ∷ full_row 1791990381406 208459942 3473901 910 931
    ∷ full_row 1791990381508 210825152 3509821 930 951
    ∷ full_row 1791990381609 212428258 3531373 942 963
    ∷ full_row 1791990381711 214508660 3771025 957 978
    ∷ full_row 1791990381812 214899293 3803353 975 996
    ∷ full_row 1791990381913 215908100 3839273 995 1016
    ∷ full_row 1791990382018 217654757 3871601 1014 1035
    ∷ full_row 1791990382119 219210220 3900337 1030 1051
    ∷ full_row 1791990382221 221250932 3929073 1045 1066
    ∷ full_row 1791990382323 222407646 3939849 1051 1072
    ∷ full_row 1791990382424 223088442 4179501 1067 1088
    ∷ full_row 1791990382526 224184766 4222605 1091 1112
    ∷ full_row 1791990382627 225628245 4254933 1109 1130
    ∷ full_row 1791990382729 227587492 4287261 1127 1148
    ∷ full_row 1791990382831 230788816 4326773 1149 1170
    ∷ full_row 1791990382933 231347903 4555649 1159 1180
    ∷ full_row 1791990383035 231837062 4584385 1175 1196
    ∷ full_row 1791990383137 232670440 4609529 1190 1211
    ∷ full_row 1791990383238 234009415 4641857 1207 1228
    ∷ full_row 1791990383340 235431817 4667001 1221 1242
    ∷ full_row 1791990383440 237793488 4699329 1239 1260
    ∷ full_row 1791990383542 239685516 4938981 1255 1276
    ∷ full_row 1791990383643 240096531 4967717 1271 1292
    ∷ full_row 1791990383744 241485895 5007229 1294 1315
    ∷ full_row 1791990383845 242980837 5035965 1310 1331
    ∷ full_row 1791990383948 244732728 5064701 1326 1347
    ∷ full_row 1791990384052 247791380 5100621 1346 1367
    ∷ full_row 1791990384154 248277527 5340273 1362 1383
    ∷ full_row 1791990384256 249149582 5376193 1382 1403
    ∷ full_row 1791990384358 250228086 5404929 1397 1418
    ∷ full_row 1791990384459 252023213 5437257 1415 1436
    ∷ full_row 1791990384560 254555507 5469585 1434 1455
    ∷ full_row 1791990384662 256414510 5705645 1447 1468
    ∷ full_row 1791990384763 256858871 5741565 1467 1488
    ∷ full_row 1791990384865 257616325 5763117 1480 1501
    ∷ full_row 1791990384968 258874615 5795445 1498 1519
    ∷ full_row 1791990385069 261111851 5831365 1518 1539
    ∷ full_row 1791990385170 263610595 5867285 1537 1558
    ∷ full_row 1791990385274 264795680 5878061 1544 1565
    ∷ full_row 1791990385376 265084148 6117713 1560 1581
    ∷ full_row 1791990385479 266090616 6157225 1581 1602
    ∷ full_row 1791990385580 267675735 6189553 1600 1621
    ∷ full_row 1791990385681 269876238 6225473 1620 1641
    ∷ full_row 1791990385783 272221317 6257801 1637 1658
    ∷ full_row 1791990385884 273425256 6504637 1658 1679
    ∷ full_row 1791990385987 273881608 6526189 1669 1690
    ∷ full_row 1791990386096 275010575 6554925 1686 1707
    ∷ full_row 1791990386197 276056905 6576477 1698 1719
    ∷ full_row 1791990386298 278656511 6619581 1722 1743
    ∷ full_row 1791990386400 281315739 6648317 1738 1759
    ∷ full_row 1791990386502 281558105 6866417 1742 1763
    ∷ full_row 1791990386603 281558105 6866417 1742 1763
    ∷ full_row 1791990386704 281558105 6866417 1742 1763
    ∷ full_row 1791990386805 281558105 6866417 1742 1763
    ∷ []

abbrev pub tensor_half_3_part_2 : List Row
tensor_half_3_part_2 =
    full_row 1791990386906 281558105 6866417 1742 1763
    ∷ full_row 1791990387007 281558105 6866417 1742 1763
    ∷ full_row 1791990387108 281558105 6866417 1742 1763
    ∷ full_row 1791990387209 281558105 6866417 1742 1763
    ∷ full_row 1791990387310 281558105 6866417 1742 1763
    ∷ full_row 1791990387412 281558105 6866417 1742 1763
    ∷ []
