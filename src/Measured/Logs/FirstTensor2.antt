-- ===== src/Measured/Logs/FirstTensor2.antt =====
-- Recorded rows of v_tensor/proxy2.json.ts, in
-- docs/evidence/f49-endpoints-and-tensor/unpadded_first_runs/tensor.
use share_compute.Prelude.{List, [], ◌∷◌}
use share_compute.Measured.{Row, row}

abbrev pub first_tensor_2_part_1 : List Row
first_tensor_2_part_1 =
    row 1791988766673 0 0 0
    ∷ row 1791988766774 0 0 0
    ∷ row 1791988766875 0 0 0
    ∷ row 1791988766976 0 0 0
    ∷ row 1791988767078 0 0 0
    ∷ row 1791988767179 0 0 0
    ∷ row 1791988767280 0 0 0
    ∷ row 1791988767381 0 0 0
    ∷ row 1791988767482 0 0 0
    ∷ row 1791988767854 0 0 0
    ∷ row 1791988768021 0 0 0
    ∷ row 1791988768122 42 48 4
    ∷ row 1791988768223 134 168 12
    ∷ row 1791988768324 134 168 12
    ∷ row 1791988768426 318 408 28
    ∷ row 1791988768527 77785 1192 89
    ∷ row 1791988768634 81683 1192 89
    ∷ row 1791988768734 81683 1192 89
    ∷ row 1791988768835 25354845 1201 91
    ∷ row 1791988768937 68149366 1201 91
    ∷ row 1791988769038 68149366 1201 91
    ∷ row 1791988769139 69577061 1210 93
    ∷ row 1791988769240 71551845 1210 93
    ∷ row 1791988769341 74241743 1228 97
    ∷ row 1791988769442 78575102 1237 99
    ∷ row 1791988769544 81710229 1246 101
    ∷ row 1791988769645 84716511 1264 105
    ∷ row 1791988769747 87956404 1273 107
    ∷ row 1791988769848 90536041 1282 109
    ∷ row 1791988769950 94775343 1300 113
    ∷ row 1791988770051 96217903 1300 113
    ∷ row 1791988770153 99065497 1318 117
    ∷ row 1791988770259 101040602 1318 117
    ∷ row 1791988770365 103859789 1336 121
    ∷ row 1791988770466 107985646 1345 123
    ∷ row 1791988770568 111734225 1354 125
    ∷ row 1791988770669 114621491 1372 129
    ∷ row 1791988770771 116596275 1372 129
    ∷ row 1791988770872 119286173 1390 133
    ∷ row 1791988770974 121072797 1390 133
    ∷ row 1791988771074 125521399 1408 137
    ∷ row 1791988771176 128178456 1417 139
    ∷ row 1791988771276 130888643 1426 141
    ∷ row 1791988771378 133734711 1444 145
    ∷ row 1791988771480 135521335 1444 145
    ∷ row 1791988771581 139842747 1462 149
    ∷ row 1791988771683 142626994 1471 151
    ∷ row 1791988771783 144239161 1480 153
    ∷ row 1791988771884 146917148 1489 155
    ∷ row 1791988771985 149389619 1498 157
    ∷ row 1791988772086 153838173 1516 161
    ∷ row 1791988772188 155651735 1516 161
    ∷ row 1791988772288 158500948 1534 165
    ∷ row 1791988772390 161365686 1543 167
    ∷ row 1791988772491 163495189 1552 169
    ∷ row 1791988772592 166951196 1561 171
    ∷ row 1791988772692 170029433 1570 173
    ∷ row 1791988772794 172511179 1588 177
    ∷ row 1791988772896 174922651 1588 177
    ∷ row 1791988772997 177612549 1606 181
    ∷ row 1791988773099 178926085 1606 181
    ∷ row 1791988773200 184195787 1624 185
    ∷ row 1791988773301 186044247 1737 199
    ∷ row 1791988773405 186152744 19929 231
    ∷ row 1791988773507 186367639 73713 237
    ∷ row 1791988773609 186919327 163353 247
    ∷ row 1791988773715 187971039 270921 259
    ∷ row 1791988773816 188886875 342633 267
    ∷ row 1791988773917 190594024 450201 279
    ∷ row 1791988774018 191921097 521913 287
    ∷ row 1791988774119 193951964 611553 297
    ∷ row 1791988774222 196280447 701193 307
    ∷ row 1791988774323 198232672 772905 315
    ∷ row 1791988774427 200830671 848209 325
    ∷ row 1791988774530 201093635 1152173 337
    ∷ row 1791988774631 202417628 1188093 357
    ∷ row 1791988774733 203764276 1209645 369
    ∷ row 1791988774834 205382252 1227605 379
    ∷ row 1791988774935 208208880 1256341 395
    ∷ row 1791988775036 210874529 1277893 407
    ∷ row 1791988775138 213478761 1295853 417
    ∷ row 1791988775239 215041955 1603409 431
    ∷ row 1791988775340 216407856 1642921 453
    ∷ row 1791988775441 219448902 1686025 477
    ∷ row 1791988775543 223183050 1721945 497
    ∷ row 1791988775644 228012544 1757865 517
    ∷ row 1791988775746 229226935 2069013 533
    ∷ row 1791988775847 230240246 2097749 549
    ∷ row 1791988775948 233109366 2140853 573
    ∷ row 1791988776049 237245481 2180365 595
    ∷ row 1791988776151 241842157 2216285 615
    ∷ row 1791988776253 243487720 2534617 635
    ∷ row 1791988776356 244537258 2559761 649
    ∷ row 1791988776457 247447789 2602865 673
    ∷ row 1791988776558 250759425 2635193 691
    ∷ row 1791988776660 254341051 2663929 707
    ∷ row 1791988776761 257149669 2975077 722
    ∷ row 1791988776862 258036789 3007405 741
    ∷ row 1791988776965 259408671 3032549 755
    ∷ row 1791988777066 262067385 3068469 775
    ∷ row 1791988777167 264471582 3090021 787
    ∷ row 1791988777269 267554230 3115165 801
    ∷ row 1791988777375 271163921 3140309 815
    ∷ row 1791988777477 271426885 3444273 827
    ∷ row 1791988777579 272829691 3480193 847
    ∷ row 1791988777681 274442242 3505337 861
    ∷ row 1791988777782 277202303 3537665 879
    ∷ row 1791988777883 280798933 3566401 895
    ∷ row 1791988777985 284751757 3595137 911
    ∷ row 1791988778086 285375205 3895509 921
    ∷ row 1791988778188 286741106 3935021 943
    ∷ row 1791988778289 290058501 3981717 969
    ∷ row 1791988778390 293512081 4014045 987
    ∷ row 1791988778492 298818407 4053557 1009
    ∷ row 1791988778593 299798824 4371889 1029
    ∷ row 1791988778694 301608942 4407809 1049
    ∷ row 1791988778795 305177139 4450913 1073
    ∷ row 1791988778896 308534770 4479649 1089
    ∷ row 1791988779000 313363550 4515569 1109
    ∷ row 1791988779102 313626835 4819533 1121
    ∷ row 1791988779202 315033860 4855453 1141
    ∷ row 1791988779304 317915452 4894965 1163
    ∷ row 1791988779407 321092675 4927293 1181
    ∷ row 1791988779512 326011961 4963213 1201
    ∷ row 1791988779613 327575155 5270769 1215
    ∷ row 1791988779714 329738023 5324649 1245
    ∷ row 1791988779816 332845645 5364161 1267
    ∷ row 1791988779916 336668070 5396489 1285
    ∷ row 1791988780019 340549963 5428817 1302
    ∷ row 1791988780120 341873281 5739965 1319
    ∷ row 1791988780222 343515703 5779477 1341
    ∷ row 1791988780323 346616410 5818989 1363
    ∷ row 1791988780425 349778681 5847725 1379
    ∷ row 1791988780525 352590529 5869277 1391
    ∷ row 1791988780627 355563821 6152973 1404
    ∷ row 1791988780732 356263895 6209161 1423
    ∷ row 1791988780833 357871323 6241489 1441
    ∷ row 1791988780934 360526945 6277409 1461
    ∷ row 1791988781036 363473881 6306145 1477
    ∷ row 1791988781137 368211911 6338473 1495
    ∷ row 1791988781239 369779003 6646029 1509
    ∷ row 1791988781340 370837701 6681949 1529
    ∷ row 1791988781441 372136178 6703501 1541
    ∷ row 1791988781542 375045595 6739421 1561
    ∷ row 1791988781643 378868020 6771749 1579
    ∷ row 1791988781751 383697121 6807669 1599
    ∷ row 1791988781852 384296670 7122409 1617
    ∷ row 1791988781953 385627072 7154737 1635
    ∷ row 1791988782054 388248702 7187065 1653
    ∷ row 1791988782159 391425925 7219393 1671
    ∷ []

abbrev pub first_tensor_2_part_2 : List Row
first_tensor_2_part_2 =
    row 1791988782260 394925673 7248129 1687
    ∷ row 1791988782361 397767669 7552093 1699
    ∷ row 1791988782466 398463845 7584421 1717
    ∷ row 1791988782567 399782303 7613157 1733
    ∷ row 1791988782669 402591701 7649077 1753
    ∷ row 1791988782772 406419310 7684997 1773
    ∷ row 1791988782873 410411861 7713733 1789
    ∷ row 1791988782978 411830506 8010513 1797
    ∷ row 1791988783079 411830506 8010513 1797
    ∷ row 1791988783182 411830506 8010513 1797
    ∷ row 1791988783283 411830506 8010513 1797
    ∷ row 1791988783384 411830506 8010513 1797
    ∷ row 1791988783485 411830506 8010513 1797
    ∷ row 1791988783587 411830506 8010513 1797
    ∷ row 1791988783688 411830506 8010513 1797
    ∷ row 1791988783789 411830506 8010513 1797
    ∷ row 1791988783891 411830506 8010513 1797
    ∷ row 1791988783992 411830506 8010513 1797
    ∷ []
