-- ===== src/Measured/Logs/FirstTensor1.antt =====
-- Recorded rows of v_tensor/proxy1.json.ts, in
-- docs/evidence/f49-endpoints-and-tensor/unpadded_first_runs/tensor.
use share_compute.Prelude.{List, [], ◌∷◌}
use share_compute.Measured.{Row, row}

abbrev pub first_tensor_1_part_1 : List Row
first_tensor_1_part_1 =
    row 1791988766673 0 0 0
    ∷ row 1791988766773 0 0 0
    ∷ row 1791988766874 0 0 0
    ∷ row 1791988766976 0 0 0
    ∷ row 1791988767079 0 0 0
    ∷ row 1791988767180 0 0 0
    ∷ row 1791988767281 0 0 0
    ∷ row 1791988767382 0 0 0
    ∷ row 1791988767483 0 0 0
    ∷ row 1791988767854 0 0 0
    ∷ row 1791988768020 0 0 0
    ∷ row 1791988768122 42 48 4
    ∷ row 1791988768223 134 168 12
    ∷ row 1791988768324 134 168 12
    ∷ row 1791988768426 377 476 34
    ∷ row 1791988768527 75345 1192 89
    ∷ row 1791988768628 5480661 1201 91
    ∷ row 1791988768729 25604902 1201 91
    ∷ row 1791988768831 25604902 1201 91
    ∷ row 1791988768936 25604902 1201 91
    ∷ row 1791988769037 25604902 1201 91
    ∷ row 1791988769138 26384404 1201 91
    ∷ row 1791988769239 26931924 1201 91
    ∷ row 1791988769340 30511364 1201 91
    ∷ row 1791988769441 31305612 1201 91
    ∷ row 1791988769543 32738048 1201 91
    ∷ row 1791988769644 34696168 1201 91
    ∷ row 1791988769744 36628012 1201 91
    ∷ row 1791988769845 38155308 1201 91
    ∷ row 1791988769946 39743920 1201 91
    ∷ row 1791988770049 40222740 1201 91
    ∷ row 1791988770150 41978844 1201 91
    ∷ row 1791988770259 42443004 1201 91
    ∷ row 1791988770365 45919552 1201 91
    ∷ row 1791988770466 46554548 1201 91
    ∷ row 1791988770568 48223528 1201 91
    ∷ row 1791988770669 49492528 1201 91
    ∷ row 1791988770771 50181648 1201 91
    ∷ row 1791988770872 53561446 1201 91
    ∷ row 1791988770973 53920340 1201 91
    ∷ row 1791988771074 55987772 1201 91
    ∷ row 1791988771176 56622768 1201 91
    ∷ row 1791988771277 57768484 1201 91
    ∷ row 1791988771378 60583976 1201 91
    ∷ row 1791988771479 61507176 1201 91
    ∷ row 1791988771581 63574608 1201 91
    ∷ row 1791988771682 64209604 1201 91
    ∷ row 1791988771783 65355320 1201 91
    ∷ row 1791988771884 66919113 1201 91
    ∷ row 1791988771985 69094012 1201 91
    ∷ row 1791988772086 70368463 1201 91
    ∷ row 1791988772187 71161444 1201 91
    ∷ row 1791988772288 72939927 1201 91
    ∷ row 1791988772389 74412948 1201 91
    ∷ row 1791988772490 76680848 1201 91
    ∷ row 1791988772591 77315844 1201 91
    ∷ row 1791988772692 78748280 1201 91
    ∷ row 1791988772794 79861520 1201 91
    ∷ row 1791988772895 80706400 1201 91
    ∷ row 1791988772996 83804200 1201 91
    ∷ row 1791988773097 84165540 1201 91
    ∷ row 1791988773200 86232972 1201 91
    ∷ row 1791988773301 86880471 1321 104
    ∷ row 1791988773402 87015265 37441 139
    ∷ row 1791988773504 87372077 162937 152
    ∷ row 1791988773607 88124667 324289 171
    ∷ row 1791988773717 89646635 539425 195
    ∷ row 1791988773818 91288593 718705 214
    ∷ row 1791988773920 93572001 897985 235
    ∷ row 1791988774023 95528410 1041409 251
    ∷ row 1791988774124 98452581 1220689 271
    ∷ row 1791988774226 101595307 1399969 291
    ∷ row 1791988774328 104643393 1543393 307
    ∷ row 1791988774430 108463128 1694001 327
    ∷ row 1791988774531 108841164 1837177 349
    ∷ row 1791988774635 110753213 1909017 389
    ∷ row 1791988774736 112581112 1952121 412
    ∷ row 1791988774837 114799946 1988041 433
    ∷ row 1791988774941 119370391 2049105 467
    ∷ row 1791988775043 123446268 2095801 493
    ∷ row 1791988775144 126991322 2131721 513
    ∷ row 1791988775245 128828495 2274897 535
    ∷ row 1791988775349 130942287 2361105 583
    ∷ row 1791988775450 135404297 2447313 631
    ∷ row 1791988775551 141222741 2522745 672
    ∷ row 1791988775653 148121710 2590993 711
    ∷ row 1791988775753 149371092 2748537 741
    ∷ row 1791988775854 150811159 2806009 772
    ∷ row 1791988775955 155312803 2892217 821
    ∷ row 1791988776058 161220791 2971241 865
    ∷ row 1791988776159 168310784 3043081 905
    ∷ row 1791988776260 169818958 3214993 943
    ∷ row 1791988776361 171320435 3265281 971
    ∷ row 1791988776462 175506096 3347897 1017
    ∷ row 1791988776564 180664815 3416145 1055
    ∷ row 1791988776665 185514377 3466433 1083
    ∷ row 1791988776768 189332088 3623977 1113
    ∷ row 1791988776870 190835440 3695817 1153
    ∷ row 1791988776971 192801883 3746105 1181
    ∷ row 1791988777072 196697889 3814353 1219
    ∷ row 1791988777173 200126687 3857457 1243
    ∷ row 1791988777274 204841185 3911337 1273
    ∷ row 1791988777375 209408498 4061697 1298
    ∷ row 1791988777477 209786534 4097617 1319
    ∷ row 1791988777579 211698583 4169457 1359
    ∷ row 1791988777680 214214449 4223337 1388
    ∷ row 1791988777781 218112303 4280809 1421
    ∷ row 1791988777882 222963025 4341873 1455
    ∷ row 1791988777983 228878006 4399345 1487
    ∷ row 1791988778085 229773865 4535337 1505
    ∷ row 1791988778186 231648204 4614361 1549
    ∷ row 1791988778291 236345769 4707753 1601
    ∷ row 1791988778393 241415290 4772409 1637
    ∷ row 1791988778495 249067080 4851433 1681
    ∷ row 1791988778596 250575254 5023345 1719
    ∷ row 1791988778697 253270756 5098777 1761
    ∷ row 1791988778797 258490772 5184985 1809
    ∷ row 1791988778898 263140925 5242457 1841
    ∷ row 1791988779001 269975720 5310705 1879
    ∷ row 1791988779102 270388492 5453881 1901
    ∷ row 1791988779203 272349381 5529313 1942
    ∷ row 1791988779305 276308640 5604745 1985
    ∷ row 1791988779406 281059476 5669401 2021
    ∷ row 1791988779510 287806685 5741241 2061
    ∷ row 1791988779612 290344985 5891601 2087
    ∷ row 1791988779713 293449192 5999361 2147
    ∷ row 1791988779814 297935246 6078385 2191
    ∷ row 1791988779917 303124322 6143041 2227
    ∷ row 1791988780019 309165587 6204105 2261
    ∷ row 1791988780120 310879786 6365241 2293
    ∷ row 1791988780222 313255952 6444265 2337
    ∷ row 1791988780323 317679739 6523289 2381
    ∷ row 1791988780424 322171586 6580761 2413
    ∷ row 1791988780525 326188186 6623865 2437
    ∷ row 1791988780627 330542942 6774225 2462
    ∷ row 1791988780730 331483091 6838881 2499
    ∷ row 1791988780830 333631714 6903537 2534
    ∷ row 1791988780931 337433323 6968193 2571
    ∷ row 1791988781033 341626698 7025665 2603
    ∷ row 1791988781133 348148574 7097505 2642
    ∷ row 1791988781235 350908309 7247865 2669
    ∷ row 1791988781337 352344134 7312521 2705
    ∷ row 1791988781441 354314475 7362809 2733
    ∷ row 1791988781542 358502468 7434649 2773
    ∷ row 1791988781643 363695442 7499305 2809
    ∷ row 1791988781748 370921090 7678401 2850
    ∷ row 1791988781849 371713596 7735873 2883
    ∷ row 1791988781950 373554417 7793345 2915
    ∷ row 1791988782053 377254010 7865185 2955
    ∷ row 1791988782155 382186102 7933433 2992
    ∷ []

abbrev pub first_tensor_1_part_2 : List Row
first_tensor_1_part_2 =
    row 1791988782256 386755408 7980129 3019
    ∷ row 1791988782357 391110164 8023233 3043
    ∷ row 1791988782466 392050313 8195145 3081
    ∷ row 1791988782567 394012248 8252617 3113
    ∷ row 1791988782668 398000545 8324457 3153
    ∷ row 1791988782770 403489679 8396297 3193
    ∷ row 1791988782872 408941129 8453769 3225
    ∷ row 1791988782974 411299323 8582577 3239
    ∷ row 1791988783075 411299323 8582577 3239
    ∷ row 1791988783177 411299323 8582577 3239
    ∷ row 1791988783278 411299323 8582577 3239
    ∷ row 1791988783379 411299323 8582577 3239
    ∷ row 1791988783481 411299323 8582577 3239
    ∷ row 1791988783582 411299323 8582577 3239
    ∷ row 1791988783683 411299323 8582577 3239
    ∷ row 1791988783785 411299323 8582577 3239
    ∷ row 1791988783886 411299323 8582577 3239
    ∷ row 1791988783987 411299323 8582577 3239
    ∷ []
