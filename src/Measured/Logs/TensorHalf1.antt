-- ===== src/Measured/Logs/TensorHalf1.antt =====
-- Recorded rows of f_tensor05/proxy1.json.ts, in
-- docs/evidence/f49-endpoints-and-tensor/tensor.
use share_compute.Prelude.{List, [], ◌∷◌}
use share_compute.Measured.{Row, full_row}

abbrev pub tensor_half_1_part_1 : List Row
tensor_half_1_part_1 =
    full_row 1791990371617 0 0 0 0
    ∷ full_row 1791990371717 0 0 0 0
    ∷ full_row 1791990371818 0 0 0 0
    ∷ full_row 1791990371921 0 0 0 0
    ∷ full_row 1791990372022 0 0 0 0
    ∷ full_row 1791990372123 0 0 0 0
    ∷ full_row 1791990372224 0 0 0 0
    ∷ full_row 1791990372325 0 0 0 0
    ∷ full_row 1791990372426 0 0 0 0
    ∷ full_row 1791990372527 0 0 0 0
    ∷ full_row 1791990372628 0 0 0 0
    ∷ full_row 1791990372729 0 0 0 0
    ∷ full_row 1791990372830 0 0 0 0
    ∷ full_row 1791990372932 0 0 0 0
    ∷ full_row 1791990373033 42 48 3 4
    ∷ full_row 1791990373134 134 144 8 11
    ∷ full_row 1791990373236 134 168 9 12
    ∷ full_row 1791990373337 134 168 9 12
    ∷ full_row 1791990373437 39660 1192 68 89
    ∷ full_row 1791990373539 79243 1192 68 89
    ∷ full_row 1791990373641 25604902 1201 70 91
    ∷ full_row 1791990373743 25604902 1201 70 91
    ∷ full_row 1791990373844 25604902 1201 70 91
    ∷ full_row 1791990373945 25604902 1201 70 91
    ∷ full_row 1791990374046 25604902 1201 70 91
    ∷ full_row 1791990374148 26931924 1201 70 91
    ∷ full_row 1791990374250 30670616 1201 70 91
    ∷ full_row 1791990374350 32066098 1201 70 91
    ∷ full_row 1791990374451 34566840 1201 70 91
    ∷ full_row 1791990374552 36560122 1201 70 91
    ∷ full_row 1791990374653 38155308 1201 70 91
    ∷ full_row 1791990374755 40222740 1201 70 91
    ∷ full_row 1791990374856 42180860 1201 70 91
    ∷ full_row 1791990374957 45919552 1201 70 91
    ∷ full_row 1791990375058 48223528 1201 70 91
    ∷ full_row 1791990375161 49894672 1201 70 91
    ∷ full_row 1791990375262 53920340 1201 70 91
    ∷ full_row 1791990375363 55987772 1201 70 91
    ∷ full_row 1791990375466 57768484 1201 70 91
    ∷ full_row 1791990375568 62142172 1201 70 91
    ∷ full_row 1791990375669 64725696 1201 70 91
    ∷ full_row 1791990375770 67175792 1201 70 91
    ∷ full_row 1791990375871 70364004 1201 70 91
    ∷ full_row 1791990375972 71161444 1201 70 91
    ∷ full_row 1791990376074 72942156 1201 70 91
    ∷ full_row 1791990376176 76680848 1201 70 91
    ∷ full_row 1791990376278 78748280 1201 70 91
    ∷ full_row 1791990376379 80705456 1201 70 91
    ∷ full_row 1791990376481 83195604 1201 70 91
    ∷ full_row 1791990376582 84796638 1201 70 91
    ∷ full_row 1791990376684 86232972 1201 70 91
    ∷ full_row 1791990376786 86909930 1505 105 126
    ∷ full_row 1791990376887 87326261 145009 130 151
    ∷ full_row 1791990376991 88124667 324289 150 171
    ∷ full_row 1791990377092 89121473 467713 166 187
    ∷ full_row 1791990377193 90955348 664921 188 209
    ∷ full_row 1791990377294 93300852 862129 210 231
    ∷ full_row 1791990377395 95694698 1059337 231 252
    ∷ full_row 1791990377496 98644917 1238617 251 272
    ∷ full_row 1791990377600 100975534 1364113 266 287
    ∷ full_row 1791990377704 104643393 1543393 286 307
    ∷ full_row 1791990377806 108467026 1801257 308 329
    ∷ full_row 1791990377906 109873867 1880281 352 373
    ∷ full_row 1791990378008 112148699 1941345 385 406
    ∷ full_row 1791990378108 114799946 1988041 412 433
    ∷ full_row 1791990378209 120280846 2059881 452 473
    ∷ full_row 1791990378311 125615080 2117353 484 505
    ∷ full_row 1791990378412 128689944 2256937 503 524
    ∷ full_row 1791990378513 129818377 2325185 542 563
    ∷ full_row 1791990378615 133338761 2411393 590 611
    ∷ full_row 1791990378717 138512473 2490417 634 655
    ∷ full_row 1791990378818 144707490 2558665 672 693
    ∷ full_row 1791990378927 148841276 2598177 694 715
    ∷ full_row 1791990379029 149219312 2741353 716 737
    ∷ full_row 1791990379130 151747258 2827561 764 785
    ∷ full_row 1791990379231 154770007 2885033 796 817
    ∷ full_row 1791990379333 160106288 2956873 836 857
    ∷ full_row 1791990379434 165325303 3014345 868 889
    ∷ full_row 1791990379536 169090473 3164705 894 915
    ∷ full_row 1791990379637 170377370 3236545 934 955
    ∷ full_row 1791990379740 173256451 3308385 974 995
    ∷ full_row 1791990379841 176504917 3362265 1003 1024
    ∷ full_row 1791990379943 181409865 3423329 1038 1059
    ∷ full_row 1791990380044 187790637 3487985 1074 1095
    ∷ full_row 1791990380146 189353800 3623977 1092 1113
    ∷ full_row 1791990380247 190217743 3677857 1122 1143
    ∷ full_row 1791990380348 192904995 3746105 1160 1181
    ∷ full_row 1791990380449 195695170 3799985 1190 1211
    ∷ full_row 1791990380550 201793861 3879009 1234 1255
    ∷ full_row 1791990380651 209408498 4061697 1277 1298
    ∷ full_row 1791990380756 210755518 4140721 1322 1343
    ∷ full_row 1791990380857 214214449 4219745 1366 1387
    ∷ full_row 1791990380964 218269581 4284401 1402 1423
    ∷ full_row 1791990381066 222959127 4341873 1434 1455
    ∷ full_row 1791990381170 229597572 4406529 1470 1491
    ∷ full_row 1791990381271 230884995 4589217 1514 1535
    ∷ full_row 1791990381372 233827571 4664649 1556 1577
    ∷ full_row 1791990381473 238950756 4743673 1600 1621
    ∷ full_row 1791990381576 242557100 4786777 1624 1645
    ∷ full_row 1791990381677 249067080 4851433 1660 1681
    ∷ full_row 1791990381777 250044784 4994609 1682 1703
    ∷ full_row 1791990381884 252076731 5073633 1726 1747
    ∷ full_row 1791990381985 255715377 5145473 1766 1787
    ∷ full_row 1791990382086 260515909 5210129 1802 1823
    ∷ full_row 1791990382191 264769786 5260417 1830 1851
    ∷ full_row 1791990382297 267392278 5285561 1844 1865
    ∷ full_row 1791990382398 270176981 5439513 1872 1893
    ∷ full_row 1791990382499 272265805 5525721 1920 1941
    ∷ full_row 1791990382601 275518478 5590377 1956 1977
    ∷ full_row 1791990382702 279665368 5655033 1991 2012
    ∷ full_row 1791990382804 286459747 5726873 2032 2053
    ∷ full_row 1791990382908 290224917 5877233 2058 2079
    ∷ full_row 1791990383015 291104943 5934705 2090 2111
    ∷ full_row 1791990383116 293160222 5992177 2122 2143
    ∷ full_row 1791990383217 296093525 6049649 2154 2175
    ∷ full_row 1791990383319 299029775 6092753 2178 2199
    ∷ full_row 1791990383420 304738731 6161001 2216 2237
    ∷ full_row 1791990383524 310353868 6214881 2246 2267
    ∷ full_row 1791990383625 311146374 6379609 2280 2301
    ∷ full_row 1791990383726 313936327 6458633 2324 2345
    ∷ full_row 1791990383828 317244249 6516105 2356 2377
    ∷ full_row 1791990383928 321618880 6573577 2388 2409
    ∷ full_row 1791990384030 328414929 6649009 2429 2450
    ∷ full_row 1791990384131 330744203 6795777 2454 2475
    ∷ full_row 1791990384233 332365209 6867617 2494 2515
    ∷ full_row 1791990384334 335233399 6932273 2530 2551
    ∷ full_row 1791990384435 338465346 6986153 2559 2580
    ∷ full_row 1791990384536 344495155 7057993 2600 2621
    ∷ full_row 1791990384641 350732016 7119057 2634 2655
    ∷ full_row 1791990384744 351380171 7276601 2664 2685
    ∷ full_row 1791990384847 352782648 7326889 2692 2713
    ∷ full_row 1791990384949 355775244 7391545 2728 2749
    ∷ full_row 1791990385050 360588389 7463385 2768 2789
    ∷ full_row 1791990385151 367216043 7535225 2808 2829
    ∷ full_row 1791990385253 370921090 7678401 2829 2850
    ∷ full_row 1791990385354 371333541 7714321 2850 2871
    ∷ full_row 1791990385456 373211175 7786161 2890 2911
    ∷ full_row 1791990385558 376849821 7858001 2930 2951
    ∷ full_row 1791990385659 382008744 7929841 2970 2991
    ∷ full_row 1791990385761 388073042 7994497 3006 3027
    ∷ full_row 1791990385863 391311425 8152041 3036 3057
    ∷ full_row 1791990385966 392457184 8209513 3068 3089
    ∷ full_row 1791990386067 394692623 8266985 3100 3121
    ∷ full_row 1791990386169 397038895 8310089 3124 3145
    ∷ full_row 1791990386271 402193920 8381929 3164 3185
    ∷ full_row 1791990386375 408715796 8450177 3202 3223
    ∷ full_row 1791990386476 411299323 8582577 3218 3239
    ∷ full_row 1791990386577 411299323 8582577 3218 3239
    ∷ full_row 1791990386678 411299323 8582577 3218 3239
    ∷ full_row 1791990386779 411299323 8582577 3218 3239
    ∷ []

abbrev pub tensor_half_1_part_2 : List Row
tensor_half_1_part_2 =
    full_row 1791990386880 411299323 8582577 3218 3239
    ∷ full_row 1791990386981 411299323 8582577 3218 3239
    ∷ full_row 1791990387082 411299323 8582577 3218 3239
    ∷ full_row 1791990387183 411299323 8582577 3218 3239
    ∷ full_row 1791990387285 411299323 8582577 3218 3239
    ∷ full_row 1791990387386 411299323 8582577 3218 3239
    ∷ []
