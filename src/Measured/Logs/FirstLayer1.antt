-- ===== src/Measured/Logs/FirstLayer1.antt =====
-- Recorded rows of v_layer/proxy1.json.ts, in
-- docs/evidence/f49-endpoints-and-tensor/unpadded_first_runs/tensor.
use share_compute.Prelude.{List, [], ◌∷◌}
use share_compute.Measured.{Row, row}

abbrev pub first_layer_1 : List Row
first_layer_1 =
    row 1791988756886 0 0 0
    ∷ row 1791988756987 0 0 0
    ∷ row 1791988757088 0 0 0
    ∷ row 1791988757190 0 0 0
    ∷ row 1791988757292 0 0 0
    ∷ row 1791988757394 0 0 0
    ∷ row 1791988757495 0 0 0
    ∷ row 1791988757596 0 0 0
    ∷ row 1791988757698 0 0 0
    ∷ row 1791988757799 0 0 0
    ∷ row 1791988757901 0 0 0
    ∷ row 1791988758002 0 0 0
    ∷ row 1791988758142 0 0 0
    ∷ row 1791988758243 42 48 4
    ∷ row 1791988758344 88 108 8
    ∷ row 1791988758446 88 108 8
    ∷ row 1791988758547 88 108 8
    ∷ row 1791988758649 30843 744 57
    ∷ row 1791988758751 17922280 789 67
    ∷ row 1791988758853 47150487 870 85
    ∷ row 1791988758959 52140514 879 87
    ∷ row 1791988759060 52140514 879 87
    ∷ row 1791988759161 52140514 879 87
    ∷ row 1791988759262 52140514 879 87
    ∷ row 1791988759363 52140514 879 87
    ∷ row 1791988759464 52140514 879 87
    ∷ row 1791988759565 52140514 879 87
    ∷ row 1791988759667 52140514 879 87
    ∷ row 1791988759768 52140514 879 87
    ∷ row 1791988759873 52140514 879 87
    ∷ row 1791988759975 52140514 879 87
    ∷ row 1791988760076 52140514 879 87
    ∷ row 1791988760177 52140514 879 87
    ∷ row 1791988760279 52140514 879 87
    ∷ row 1791988760380 52140514 879 87
    ∷ row 1791988760480 52140514 879 87
    ∷ row 1791988760581 52140514 879 87
    ∷ row 1791988760682 52140514 879 87
    ∷ row 1791988760783 52140514 879 87
    ∷ row 1791988760885 52140514 879 87
    ∷ row 1791988760987 52140514 879 87
    ∷ row 1791988761089 52140514 879 87
    ∷ row 1791988761190 52140514 879 87
    ∷ row 1791988761291 52140514 879 87
    ∷ row 1791988761394 52140514 879 87
    ∷ row 1791988761495 52276221 1175 121
    ∷ row 1791988761599 52276221 1175 121
    ∷ row 1791988761700 52276221 19103 122
    ∷ row 1791988761802 52276221 19103 122
    ∷ row 1791988761939 52276221 19103 122
    ∷ row 1791988762042 52276221 19103 122
    ∷ row 1791988762143 52276221 19103 122
    ∷ row 1791988762245 52276221 19103 122
    ∷ row 1791988762381 52276221 19103 122
    ∷ row 1791988762483 52356129 22695 124
    ∷ row 1791988762586 52356129 22695 124
    ∷ row 1791988762687 52362149 26287 126
    ∷ row 1791988762788 52362149 26287 126
    ∷ row 1791988762890 52368169 29879 128
    ∷ row 1791988763000 52368169 29879 128
    ∷ row 1791988763101 52374189 33471 130
    ∷ row 1791988763202 52374189 33471 130
    ∷ row 1791988763304 52380209 37063 132
    ∷ row 1791988763433 52380209 37063 132
    ∷ row 1791988763535 52386229 37063 133
    ∷ row 1791988763637 52386229 40655 134
    ∷ row 1791988763739 52392249 44247 136
    ∷ row 1791988763840 52392249 44247 136
    ∷ row 1791988763941 52398269 47839 138
    ∷ row 1791988764042 52404289 47839 139
    ∷ row 1791988764143 52404289 51431 140
    ∷ row 1791988764244 52410309 51431 141
    ∷ row 1791988764346 52410309 55023 142
    ∷ row 1791988764453 52416329 55023 143
    ∷ row 1791988764554 52416329 58615 144
    ∷ row 1791988764656 52422349 62207 146
    ∷ row 1791988764757 52422349 62207 146
    ∷ row 1791988764859 52428369 62207 147
    ∷ row 1791988764960 52428369 65799 148
    ∷ row 1791988765061 52434389 69391 150
    ∷ row 1791988765163 52434389 69391 150
    ∷ row 1791988765264 52440409 72983 152
    ∷ row 1791988765365 52440409 72983 152
    ∷ row 1791988765468 52440460 72983 153
    ∷ row 1791988765569 52440460 72983 153
    ∷ row 1791988765670 52440460 72983 153
    ∷ row 1791988765771 52440460 72983 153
    ∷ row 1791988765872 52440460 72983 153
    ∷ row 1791988765973 52440460 72983 153
    ∷ row 1791988766075 52440460 72983 153
    ∷ row 1791988766178 52440460 72983 153
    ∷ row 1791988766280 52440460 72983 153
    ∷ row 1791988766381 52440460 72983 153
    ∷ []
