-- ===== src/Measured/Logs/LargeTensor1C.antt =====
-- Recorded rows of v3b_tensor/proxy1.json.ts, in
-- docs/evidence/f49-endpoints-and-tensor/unpadded_first_runs/tensor.
use share_compute.Prelude.{List, [], ◌∷◌}
use share_compute.Measured.{Row, row}

abbrev pub large_tensor_1_part_3 : List Row
large_tensor_1_part_3 =
    row 1791989135208 840607958 9470405 1393
    ∷ row 1791989135309 847812694 9585205 1421
    ∷ row 1791989135412 855097415 9700005 1449
    ∷ row 1791989135513 855305964 9856461 1463
    ∷ row 1791989135615 856277124 9971261 1491
    ∷ row 1791989135715 857808695 10069661 1515
    ∷ row 1791989135816 859470341 10159861 1536
    ∷ row 1791989135918 862711874 10282861 1567
    ∷ row 1791989136021 865906989 10381261 1591
    ∷ row 1791989136123 870519274 10496061 1619
    ∷ row 1791989136223 876717799 10635461 1652
    ∷ row 1791989136324 882772895 10750261 1680
    ∷ row 1791989136426 888282754 10840461 1703
    ∷ row 1791989136527 893602824 10922461 1723
    ∷ row 1791989136629 897881715 11095317 1741
    ∷ row 1791989136730 899161802 11267517 1783
    ∷ row 1791989136834 900745866 11374117 1809
    ∷ row 1791989136935 902461544 11456117 1829
    ∷ row 1791989137038 905465768 11570917 1857
    ∷ row 1791989137140 909975074 11702117 1889
    ∷ row 1791989137241 913494527 11784117 1909
    ∷ row 1791989137342 919732124 11923517 1943
    ∷ row 1791989137444 924369424 12013717 1965
    ∷ row 1791989137547 930084683 12112117 1989
    ∷ row 1791989137649 936356718 12210517 2013
    ∷ row 1791989137759 940605203 12276117 2029
    ∷ row 1791989137862 941164060 12481773 2055
    ∷ row 1791989137963 942257793 12580173 2079
    ∷ row 1791989138064 944306287 12694973 2107
    ∷ row 1791989138165 946907169 12809773 2135
    ∷ row 1791989138266 950518222 12924573 2163
    ∷ row 1791989138367 956027062 13072173 2199
    ∷ row 1791989138469 959964279 13162373 2221
    ∷ row 1791989138570 964340778 13252573 2243
    ∷ row 1791989138672 970975039 13367373 2271
    ∷ row 1791989138773 976668904 13465773 2295
    ∷ row 1791989138875 982278667 13547773 2315
    ∷ row 1791989138977 983597222 13720629 2333
    ∷ row 1791989139078 985545055 13901029 2377
    ∷ row 1791989139179 987400692 14007629 2403
    ∷ row 1791989139283 990077050 14114229 2429
    ∷ row 1791989139383 993626962 14229029 2457
    ∷ row 1791989139484 997920562 14343829 2485
    ∷ row 1791989139586 1003206839 14458629 2513
    ∷ row 1791989139689 1009024247 14573429 2541
    ∷ row 1791989139791 1014038525 14663629 2562
    ∷ row 1791989139891 1021873012 14786629 2593
    ∷ row 1791989139992 1026186938 14975885 2615
    ∷ row 1791989140094 1027064218 15098885 2645
    ∷ row 1791989140196 1029007548 15238285 2679
    ∷ row 1791989140298 1031993046 15369485 2711
    ∷ row 1791989140399 1035519176 15492485 2741
    ∷ row 1791989140500 1039426302 15599085 2767
    ∷ row 1791989140601 1044028553 15705685 2793
    ∷ row 1791989140702 1049583840 15820485 2821
    ∷ row 1791989140803 1052631106 15877885 2835
    ∷ row 1791989140905 1058293328 15976285 2859
    ∷ row 1791989141007 1066010197 16099285 2888
    ∷ row 1791989141108 1068940832 16263941 2905
    ∷ row 1791989141209 1069706864 16378741 2933
    ∷ row 1791989141310 1071761442 16526341 2969
    ∷ row 1791989141411 1073725120 16616541 2991
    ∷ row 1791989141515 1077590407 16755941 3025
    ∷ row 1791989141617 1081579879 16870741 3053
    ∷ row 1791989141719 1087019484 17001941 3085
    ∷ row 1791989141820 1093412156 17133141 3117
    ∷ row 1791989141921 1099236721 17231541 3141
    ∷ row 1791989142022 1106685657 17346341 3169
    ∷ row 1791989142123 1111620779 17535597 3190
    ∷ row 1791989142224 1112516061 17666797 3223
    ∷ row 1791989142325 1114237363 17797997 3255
    ∷ row 1791989142427 1118057775 17961997 3295
    ∷ row 1791989142529 1122430353 18109597 3331
    ∷ row 1791989142631 1127701563 18240797 3363
    ∷ row 1791989142732 1133501915 18371997 3394
    ∷ row 1791989142834 1140193546 18494997 3425
    ∷ row 1791989142935 1147089952 18609797 3452
    ∷ row 1791989143036 1154374673 18716397 3479
    ∷ row 1791989143137 1154682789 18889253 3497
    ∷ row 1791989143238 1156018757 19020453 3529
    ∷ row 1791989143339 1157773730 19127053 3555
    ∷ row 1791989143440 1162940917 19323853 3603
    ∷ row 1791989143541 1167687984 19463253 3637
    ∷ row 1791989143643 1172290235 19569853 3663
    ∷ row 1791989143744 1178384024 19692853 3693
    ∷ row 1791989143851 1183532467 19791253 3717
    ∷ row 1791989143952 1188204923 19865053 3735
    ∷ row 1791989144054 1194978052 19971653 3761
    ∷ row 1791989144154 1197290591 20152709 3780
    ∷ row 1791989144257 1198129303 20259309 3807
    ∷ row 1791989144358 1200721931 20423309 3847
    ∷ row 1791989144461 1203008622 20521709 3871
    ∷ row 1791989144562 1206865811 20652909 3903
    ∷ row 1791989144663 1211060411 20767709 3931
    ∷ row 1791989144766 1215522382 20866109 3955
    ∷ row 1791989144868 1220337723 20972709 3981
    ∷ row 1791989144969 1226589441 21087509 4008
    ∷ row 1791989145071 1233526985 21194109 4035
    ∷ row 1791989145173 1239882461 21292509 4059
    ∷ row 1791989145279 1240572771 21514565 4089
    ∷ row 1791989145380 1242593741 21662165 4125
    ∷ row 1791989145482 1245367327 21793365 4157
    ∷ row 1791989145583 1248938639 21916365 4187
    ∷ row 1791989145683 1253195772 22039365 4217
    ∷ row 1791989145784 1260232171 22195165 4255
    ∷ row 1791989145885 1265831155 22301765 4281
    ∷ row 1791989145987 1273713032 22449365 4316
    ∷ row 1791989146088 1280852778 22555965 4343
    ∷ row 1791989146190 1282798379 22720621 4359
    ∷ row 1791989146291 1284006125 22868221 4395
    ∷ row 1791989146393 1286238225 22999421 4427
    ∷ row 1791989146494 1288653434 23106021 4452
    ∷ row 1791989146596 1291368383 23196221 4475
    ∷ row 1791989146698 1294760120 23294621 4499
    ∷ row 1791989146803 1300082509 23425821 4531
    ∷ row 1791989146905 1305566485 23540621 4559
    ∷ row 1791989147007 1311794149 23655421 4587
    ∷ row 1791989147108 1317121003 23737421 4607
    ∷ row 1791989147209 1324309819 23852221 4635
    ∷ row 1791989147311 1325525953 24008677 4649
    ∷ row 1791989147412 1326449865 24123477 4677
    ∷ row 1791989147514 1328983613 24287477 4717
    ∷ row 1791989147617 1330875115 24369477 4737
    ∷ row 1791989147719 1334113771 24484277 4765
    ∷ row 1791989147823 1337514014 24582677 4789
    ∷ row 1791989147924 1341920584 24689277 4815
    ∷ row 1791989148027 1347526022 24812277 4845
    ∷ row 1791989148128 1353654686 24927077 4873
    ∷ row 1791989148230 1358898204 25009077 4893
    ∷ row 1791989148332 1367063713 25140277 4925
    ∷ row 1791989148436 1368144228 25263933 4931
    ∷ row 1791989148537 1368144228 25263933 4931
    ∷ row 1791989148638 1368144228 25263933 4931
    ∷ row 1791989148739 1368144228 25263933 4931
    ∷ row 1791989148839 1368144228 25263933 4931
    ∷ row 1791989148940 1368144228 25263933 4931
    ∷ row 1791989149041 1368144228 25263933 4931
    ∷ row 1791989149144 1368144228 25263933 4931
    ∷ row 1791989149245 1368144228 25263933 4931
    ∷ row 1791989149346 1368144228 25263933 4931
    ∷ row 1791989149447 1368144228 25263933 4931
    ∷ []
