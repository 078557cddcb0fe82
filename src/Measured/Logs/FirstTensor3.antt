-- ===== src/Measured/Logs/FirstTensor3.antt =====
-- Recorded rows of v_tensor/proxy3.json.ts, in
-- docs/evidence/f49-endpoints-and-tensor/unpadded_first_runs/tensor.
use share_compute.Prelude.{List, [], ◌∷◌}
use share_compute.Measured.{Row, row}

abbrev pub first_tensor_3_part_1 : List Row
first_tensor_3_part_1 =
    row 1791988766668 0 0 0
    ∷ row 1791988766769 0 0 0
    ∷ row 1791988766870 0 0 0
    ∷ row 1791988766972 0 0 0
    ∷ row 1791988767076 0 0 0
    ∷ row 1791988767178 0 0 0
    ∷ row 1791988767279 0 0 0
    ∷ row 1791988767380 0 0 0
    ∷ row 1791988767481 0 0 0
    ∷ row 1791988767856 0 0 0
    ∷ row 1791988768019 0 0 0
    ∷ row 1791988768122 42 48 4
    ∷ row 1791988768223 134 168 12
    ∷ row 1791988768324 134 168 12
    ∷ row 1791988768426 318 408 28
    ∷ row 1791988768526 10375 752 54
    ∷ row 1791988768628 81683 1192 89
    ∷ row 1791988768729 81683 1192 89
    ∷ row 1791988768830 81683 1192 89
    ∷ row 1791988768932 81683 1192 89
    ∷ row 1791988769033 15812189 1201 91
    ∷ row 1791988769135 53838033 1210 93
    ∷ row 1791988769236 55026177 1210 93
    ∷ row 1791988769337 57653307 1228 97
    ∷ row 1791988769439 60360176 1237 99
    ∷ row 1791988769540 61735822 1237 99
    ∷ row 1791988769642 66017257 1246 101
    ∷ row 1791988769743 68724126 1255 103
    ∷ row 1791988769844 69832531 1264 105
    ∷ row 1791988769945 73075836 1273 107
    ∷ row 1791988770046 73865096 1273 107
    ∷ row 1791988770147 77782529 1282 109
    ∷ row 1791988770259 79236489 1282 109
    ∷ row 1791988770365 81597803 1300 113
    ∷ row 1791988770466 84304672 1309 115
    ∷ row 1791988770568 85255060 1309 115
    ∷ row 1791988770671 90316569 1318 117
    ∷ row 1791988770772 91369129 1318 117
    ∷ row 1791988770873 94131843 1336 121
    ∷ row 1791988770974 95691059 1336 121
    ∷ row 1791988771075 97789100 1345 123
    ∷ row 1791988771176 100920300 1345 123
    ∷ row 1791988771278 102452785 1354 125
    ∷ row 1791988771379 105854107 1372 129
    ∷ row 1791988771480 106945915 1372 129
    ∷ row 1791988771581 109511364 1381 131
    ∷ row 1791988771682 112435174 1381 131
    ∷ row 1791988771783 114175049 1390 133
    ∷ row 1791988771884 116467966 1399 135
    ∷ row 1791988771986 117576371 1408 137
    ∷ row 1791988772087 121138850 1417 139
    ∷ row 1791988772188 122100636 1417 139
    ∷ row 1791988772289 125897313 1426 141
    ∷ row 1791988772390 128190230 1435 143
    ∷ row 1791988772491 129298635 1444 145
    ∷ row 1791988772592 132005504 1453 147
    ∷ row 1791988772694 132955892 1453 147
    ∷ row 1791988772795 137279145 1462 149
    ∷ row 1791988772895 138204921 1462 149
    ∷ row 1791988772997 141477859 1480 153
    ∷ row 1791988773098 142490511 1480 153
    ∷ row 1791988773200 144721164 1489 155
    ∷ row 1791988773301 146736274 1593 166
    ∷ row 1791988773405 146832869 19769 197
    ∷ row 1791988773507 147007272 91481 204
    ∷ row 1791988773608 147358893 181121 214
    ∷ row 1791988773711 148022375 270761 225
    ∷ row 1791988773812 148559900 360401 234
    ∷ row 1791988773914 149604334 450041 245
    ∷ row 1791988774015 150364496 521753 252
    ∷ row 1791988774117 151789882 611393 263
    ∷ row 1791988774223 153020623 701033 273
    ∷ row 1791988774325 154144228 772745 281
    ∷ row 1791988774426 155840470 848049 291
    ∷ row 1791988774529 156008788 1080517 303
    ∷ row 1791988774631 156779265 1116437 322
    ∷ row 1791988774733 157561859 1137989 334
    ∷ row 1791988774834 158578885 1155949 345
    ∷ row 1791988774935 160357420 1188277 362
    ∷ row 1791988775036 161931222 1209829 374
    ∷ row 1791988775138 163266107 1227789 384
    ∷ row 1791988775239 164322646 1460257 397
    ∷ row 1791988775341 165160435 1503361 420
    ∷ row 1791988775443 166960055 1546465 444
    ∷ row 1791988775543 169111718 1582385 464
    ∷ row 1791988775645 172120626 1618305 484
    ∷ row 1791988775746 172801422 1854365 499
    ∷ row 1791988775848 173380832 1883101 515
    ∷ row 1791988775949 175063236 1929797 540
    ∷ row 1791988776050 177492888 1969309 562
    ∷ row 1791988776152 180269382 2001637 581
    ∷ row 1791988776254 181272448 2252065 602
    ∷ row 1791988776355 181846649 2273617 615
    ∷ row 1791988776456 183448304 2316721 639
    ∷ row 1791988776559 185681642 2352641 658
    ∷ row 1791988776660 187510366 2377785 673
    ∷ row 1791988776762 189398496 2617437 688
    ∷ row 1791988776864 189994708 2653357 708
    ∷ row 1791988776965 190764590 2678501 722
    ∷ row 1791988777066 192245214 2710829 741
    ∷ row 1791988777168 193882100 2732381 753
    ∷ row 1791988777270 195665918 2761117 768
    ∷ row 1791988777376 197746320 2997177 782
    ∷ row 1791988777479 197944932 3015137 793
    ∷ row 1791988777581 198768147 3054649 814
    ∷ row 1791988777683 199818962 3079793 828
    ∷ row 1791988777786 201399596 3108529 845
    ∷ row 1791988777888 203633962 3140857 863
    ∷ row 1791988777989 205889428 3169593 879
    ∷ row 1791988778090 206232715 3398469 889
    ∷ row 1791988778190 207070183 3437981 911
    ∷ row 1791988778292 209007545 3481085 935
    ∷ row 1791988778392 211017568 3513413 953
    ∷ row 1791988778493 214266379 3552925 975
    ∷ row 1791988778595 214801026 3799761 995
    ∷ row 1791988778695 215908100 3839273 1016
    ∷ row 1791988778797 218000760 3882377 1040
    ∷ row 1791988778898 219984423 3911113 1056
    ∷ row 1791988778999 222889830 3943441 1075
    ∷ row 1791988779101 223088442 4179501 1088
    ∷ row 1791988779202 223911657 4215421 1108
    ∷ row 1791988779304 225628245 4251341 1129
    ∷ row 1791988779407 227587171 4283669 1147
    ∷ row 1791988779511 230315467 4319589 1167
    ∷ row 1791988779612 231372327 4559241 1182
    ∷ row 1791988779713 232670440 4613121 1212
    ∷ row 1791988779814 234599988 4649041 1233
    ∷ row 1791988779916 236746763 4681369 1251
    ∷ row 1791988780019 239169986 4713697 1268
    ∷ row 1791988780120 239896678 4953349 1285
    ∷ row 1791988780222 240947106 4992861 1307
    ∷ row 1791988780323 242601615 5032373 1329
    ∷ row 1791988780424 244542248 5061109 1345
    ∷ row 1791988780525 246174337 5082661 1357
    ∷ row 1791988780627 248033340 5104213 1369
    ∷ row 1791988780728 248477701 5351049 1389
    ∷ row 1791988780829 249328276 5383377 1406
    ∷ row 1791988780931 250913395 5419297 1426
    ∷ row 1791988781032 252731002 5444441 1441
    ∷ row 1791988781133 255229425 5480361 1460
    ∷ row 1791988781235 256515837 5716421 1475
    ∷ row 1791988781336 257119268 5748749 1493
    ∷ row 1791988781438 257916518 5773893 1507
    ∷ row 1791988781540 259592090 5809813 1526
    ∷ row 1791988781641 261696931 5842141 1545
    ∷ row 1791988781751 264795680 5878061 1565
    ∷ row 1791988781854 265186313 6124897 1584
    ∷ row 1791988781956 266090616 6153633 1601
    ∷ row 1791988782060 267534095 6189553 1620
    ∷ row 1791988782162 269493342 6221881 1638
    ∷ []

abbrev pub first_tensor_3_part_2 : List Row
first_tensor_3_part_2 =
    row 1791988782264 271322066 6247025 1653
    ∷ row 1791988782374 273195540 6479493 1665
    ∷ row 1791988782475 273621211 6515413 1684
    ∷ row 1791988782577 274576290 6544149 1701
    ∷ row 1791988782678 276354430 6583661 1722
    ∷ row 1791988782779 278652613 6619581 1742
    ∷ row 1791988782883 280606385 6644725 1757
    ∷ row 1791988782984 281558105 6866417 1763
    ∷ row 1791988783085 281558105 6866417 1763
    ∷ row 1791988783186 281558105 6866417 1763
    ∷ row 1791988783288 281558105 6866417 1763
    ∷ row 1791988783388 281558105 6866417 1763
    ∷ row 1791988783491 281558105 6866417 1763
    ∷ row 1791988783592 281558105 6866417 1763
    ∷ row 1791988783693 281558105 6866417 1763
    ∷ row 1791988783794 281558105 6866417 1763
    ∷ row 1791988783895 281558105 6866417 1763
    ∷ row 1791988783996 281558105 6866417 1763
    ∷ []
