-- ===== src/Measured/Logs/LargeTensor1B.antt =====
-- Recorded rows of v3b_tensor/proxy1.json.ts, in
-- docs/evidence/f49-endpoints-and-tensor/unpadded_first_runs/tensor.
use share_compute.Prelude.{List, [], ◌∷◌}
use share_compute.Measured.{Row, row}

abbrev pub large_tensor_1_part_2 : List Row
large_tensor_1_part_2 =
    row 1791989119923 377872142 1174 153
    ∷ row 1791989120024 377872142 1174 153
    ∷ row 1791989120126 382050697 1183 155
    ∷ row 1791989120227 386741704 1192 157
    ∷ row 1791989120328 387723104 1192 157
    ∷ row 1791989120429 393254413 1201 159
    ∷ row 1791989120531 397288213 1201 159
    ∷ row 1791989120632 397288213 1201 159
    ∷ row 1791989120733 401745296 1210 161
    ∷ row 1791989120835 403982661 1219 163
    ∷ row 1791989120936 407225629 1219 163
    ∷ row 1791989121037 407417703 1219 163
    ∷ row 1791989121137 413589186 1228 165
    ∷ row 1791989121239 416425756 1228 165
    ∷ row 1791989121340 416425756 1228 165
    ∷ row 1791989121441 420604311 1237 167
    ∷ row 1791989121544 420612817 1237 167
    ∷ row 1791989121645 420612817 1237 167
    ∷ row 1791989121746 420612817 1237 167
    ∷ row 1791989121849 424799878 1246 169
    ∷ row 1791989121951 427928541 1246 169
    ∷ row 1791989122053 429620870 1246 169
    ∷ row 1791989122154 429620870 1246 169
    ∷ row 1791989122256 433807931 1255 171
    ∷ row 1791989122357 437572122 1264 173
    ∷ row 1791989122458 439471832 1264 173
    ∷ row 1791989122560 443937421 1273 175
    ∷ row 1791989122662 449036941 1273 175
    ∷ row 1791989122763 449036941 1273 175
    ∷ row 1791989122865 453494024 1282 177
    ∷ row 1791989122965 459166431 1291 179
    ∷ row 1791989123066 459174937 1291 179
    ∷ row 1791989123172 467857275 1300 181
    ∷ row 1791989123279 468174484 1300 181
    ∷ row 1791989123381 472353039 1309 183
    ∷ row 1791989123483 472361545 1309 183
    ∷ row 1791989123584 472361545 1309 183
    ∷ row 1791989123686 472370372 1309 183
    ∷ row 1791989123795 480635143 1318 185
    ∷ row 1791989123896 481369598 1318 185
    ∷ row 1791989123999 481369598 1318 185
    ∷ row 1791989124101 485819124 1336 189
    ∷ row 1791989124204 491220560 1336 189
    ∷ row 1791989124305 491229066 1336 189
    ∷ row 1791989124407 499269473 1345 191
    ∷ row 1791989124509 500785669 1345 191
    ∷ row 1791989124610 500785669 1345 191
    ∷ row 1791989124711 505242752 1354 193
    ∷ row 1791989124812 508111159 1363 195
    ∷ row 1791989124915 510915159 1363 195
    ∷ row 1791989125016 515102220 1372 197
    ∷ row 1791989125118 519923212 1372 197
    ∷ row 1791989125219 524110273 1381 199
    ∷ row 1791989125320 524110273 1381 199
    ∷ row 1791989125421 524110273 1381 199
    ∷ row 1791989125523 528297334 1390 201
    ∷ row 1791989125629 533118326 1390 201
    ∷ row 1791989125731 533118326 1390 201
    ∷ row 1791989125834 537296881 1399 203
    ∷ row 1791989125934 541007890 1408 205
    ∷ row 1791989126036 542969288 1408 205
    ∷ row 1791989126137 547434877 1417 207
    ∷ row 1791989126238 552534397 1417 207
    ∷ row 1791989126340 556991480 1426 209
    ∷ row 1791989126441 562663887 1435 211
    ∷ row 1791989126543 566850948 1444 213
    ∷ row 1791989126644 571671940 1444 213
    ∷ row 1791989126745 575850495 1453 215
    ∷ row 1791989126848 575859001 1453 215
    ∷ row 1791989126949 575859001 1453 215
    ∷ row 1791989127050 580596899 1462 217
    ∷ row 1791989127151 584867054 1462 217
    ∷ row 1791989127252 584867054 1462 217
    ∷ row 1791989127354 591282974 1480 221
    ∷ row 1791989127456 594726843 1489 222
    ∷ row 1791989127556 602988325 1489 223
    ∷ row 1791989127657 604283125 1489 223
    ∷ row 1791989127758 604283125 1489 223
    ∷ row 1791989127861 610977573 1507 227
    ∷ row 1791989127962 614412615 1507 227
    ∷ row 1791989128063 618599676 1516 229
    ∷ row 1791989128167 623420668 1516 229
    ∷ row 1791989128269 623420668 1516 229
    ∷ row 1791989128371 627599223 1525 231
    ∷ row 1791989128472 627607729 1525 231
    ∷ row 1791989128575 631794790 1534 233
    ∷ row 1791989128676 634261782 1534 233
    ∷ row 1791989128777 636615782 1534 233
    ∷ row 1791989128878 640794337 1543 235
    ∷ row 1791989128979 643816964 1552 237
    ∷ row 1791989129081 646466744 1552 237
    ∷ row 1791989129182 650932333 1561 239
    ∷ row 1791989129283 656031853 1561 239
    ∷ row 1791989129384 660488936 1570 241
    ∷ row 1791989129485 664216769 1579 243
    ∷ row 1791989129586 666161343 1579 243
    ∷ row 1791989129687 670501414 1588 245
    ∷ row 1791989129788 679347951 1597 247
    ∷ row 1791989129889 679351276 1637 251
    ∷ row 1791989129990 679508171 1965 289
    ∷ row 1791989130095 679833940 247789 303
    ∷ row 1791989130199 680577845 575533 319
    ∷ row 1791989130301 681110991 780373 328
    ∷ row 1791989130411 682144200 1067149 343
    ∷ row 1791989130515 683437452 1394893 359
    ∷ row 1791989130619 685060477 1722637 375
    ∷ row 1791989130723 686947238 2050381 391
    ∷ row 1791989130825 688424453 2296189 403
    ∷ row 1791989130926 690183921 2541997 415
    ∷ row 1791989131031 692532117 2869741 431
    ∷ row 1791989131135 695297998 3197485 447
    ∷ row 1791989131243 698327615 3525229 463
    ∷ row 1791989131346 701379107 3852973 479
    ∷ row 1791989131447 704906892 4180717 495
    ∷ row 1791989131552 708960557 4508461 511
    ∷ row 1791989131654 712453201 4836205 527
    ∷ row 1791989131755 715410208 5041045 537
    ∷ row 1791989131856 718378235 5286853 549
    ∷ row 1791989131957 722694058 5573629 563
    ∷ row 1791989132058 726835733 5943093 580
    ∷ row 1791989132160 727276836 6025093 601
    ∷ row 1791989132261 728282657 6131693 627
    ∷ row 1791989132363 729828242 6230093 650
    ∷ row 1791989132464 732462873 6344893 679
    ∷ row 1791989132565 735567761 6451493 705
    ∷ row 1791989132667 738580861 6541693 726
    ∷ row 1791989132768 743593658 6664693 757
    ∷ row 1791989132868 747693058 6754893 779
    ∷ row 1791989132969 753067971 6861493 804
    ∷ row 1791989133070 759069107 6959893 829
    ∷ row 1791989133171 766038479 7074693 857
    ∷ row 1791989133273 769589627 7231149 870
    ∷ row 1791989133374 770202846 7337749 897
    ∷ row 1791989133479 772027189 7477149 931
    ∷ row 1791989133580 774447862 7600149 961
    ∷ row 1791989133681 777212592 7706749 987
    ∷ row 1791989133782 780399201 7805149 1011
    ∷ row 1791989133883 785670411 7936349 1043
    ∷ row 1791989133986 791725400 8067549 1075
    ∷ row 1791989134087 800578647 8223349 1113
    ∷ row 1791989134188 806665220 8321749 1137
    ∷ row 1791989134289 812343521 8519205 1160
    ∷ row 1791989134391 813082943 8634005 1189
    ∷ row 1791989134494 814206970 8732405 1213
    ∷ row 1791989134595 816053111 8839005 1239
    ∷ row 1791989134697 818223576 8929205 1261
    ∷ row 1791989134798 821067043 9027605 1285
    ∷ row 1791989134903 824467286 9126005 1309
    ∷ row 1791989135005 828424305 9224405 1333
    ∷ row 1791989135106 833963905 9339205 1361
    ∷ []
