-- ===== src/Measured/Logs/LayerHalf1.antt =====
-- Recorded rows of f_layer05/proxy1.json.ts, in
-- docs/evidence/f49-endpoints-and-tensor/tensor.
use share_compute.Prelude.{List, [], ◌∷◌}
use share_compute.Measured.{Row, full_row}

abbrev pub layer_half_1 : List Row
layer_half_1 =
    full_row 1791990363550 0 0 0 0
    ∷ full_row 1791990363651 0 0 0 0
    ∷ full_row 1791990363752 0 0 0 0
    ∷ full_row 1791990363855 0 0 0 0
    ∷ full_row 1791990363955 0 0 0 0
    ∷ full_row 1791990364056 0 0 0 0
    ∷ full_row 1791990364157 0 0 0 0
    ∷ full_row 1791990364258 0 0 0 0
    ∷ full_row 1791990364523 0 0 0 0
    ∷ full_row 1791990364624 0 0 0 0
    ∷ full_row 1791990364725 0 0 0 0
    ∷ full_row 1791990364826 0 0 0 0
    ∷ full_row 1791990364928 42 48 3 4
    ∷ full_row 1791990365029 88 108 6 8
    ∷ full_row 1791990365139 88 108 6 8
    ∷ full_row 1791990365241 88 108 6 8
    ∷ full_row 1791990365342 30843 744 44 57
    ∷ full_row 1791990365443 20187447 798 56 69
    ∷ full_row 1791990365544 52140514 879 74 87
    ∷ full_row 1791990365645 52140514 879 74 87
    ∷ full_row 1791990365746 52140514 879 74 87
    ∷ full_row 1791990365847 52140514 879 74 87
    ∷ full_row 1791990365948 52140514 879 74 87
    ∷ full_row 1791990366050 52140514 879 74 87
    ∷ full_row 1791990366152 52140514 879 74 87
    ∷ full_row 1791990366258 52140514 879 74 87
    ∷ full_row 1791990366359 52140514 879 74 87
    ∷ full_row 1791990366460 52140514 879 74 87
    ∷ full_row 1791990366561 52140514 879 74 87
    ∷ full_row 1791990366662 52140514 879 74 87
    ∷ full_row 1791990366765 52276221 1175 108 121
    ∷ full_row 1791990366866 52276221 1175 108 121
    ∷ full_row 1791990366968 52276221 19103 109 122
    ∷ full_row 1791990367069 52276221 19103 109 122
    ∷ full_row 1791990367173 52276221 19103 109 122
    ∷ full_row 1791990367274 52276221 19103 109 122
    ∷ full_row 1791990367375 52276221 19103 109 122
    ∷ full_row 1791990367477 52356129 22695 111 124
    ∷ full_row 1791990367579 52356129 22695 111 124
    ∷ full_row 1791990367684 52362149 26287 113 126
    ∷ full_row 1791990367785 52362149 26287 113 126
    ∷ full_row 1791990367887 52368169 29879 115 128
    ∷ full_row 1791990367988 52368169 29879 115 128
    ∷ full_row 1791990368089 52374189 33471 117 130
    ∷ full_row 1791990368190 52374189 33471 117 130
    ∷ full_row 1791990368292 52380209 37063 119 132
    ∷ full_row 1791990368394 52386229 37063 120 133
    ∷ full_row 1791990368497 52386229 40655 121 134
    ∷ full_row 1791990368598 52392249 44247 123 136
    ∷ full_row 1791990368699 52392249 44247 123 136
    ∷ full_row 1791990368804 52398269 47839 125 138
    ∷ full_row 1791990368905 52398269 47839 125 138
    ∷ full_row 1791990369006 52404289 51431 127 140
    ∷ full_row 1791990369107 52404289 51431 127 140
    ∷ full_row 1791990369209 52410309 55023 129 142
    ∷ full_row 1791990369310 52410309 55023 129 142
    ∷ full_row 1791990369412 52416329 58615 131 144
    ∷ full_row 1791990369513 52416329 58615 131 144
    ∷ full_row 1791990369615 52422349 62207 133 146
    ∷ full_row 1791990369716 52428369 62207 134 147
    ∷ full_row 1791990369818 52428369 65799 135 148
    ∷ full_row 1791990369919 52428369 65799 135 148
    ∷ full_row 1791990370020 52434389 69391 137 150
    ∷ full_row 1791990370121 52440409 69391 138 151
    ∷ full_row 1791990370223 52440409 72983 139 152
    ∷ full_row 1791990370324 52440460 72983 140 153
    ∷ full_row 1791990370425 52440460 72983 140 153
    ∷ full_row 1791990370526 52440460 72983 140 153
    ∷ full_row 1791990370628 52440460 72983 140 153
    ∷ full_row 1791990370729 52440460 72983 140 153
    ∷ full_row 1791990370830 52440460 72983 140 153
    ∷ full_row 1791990370931 52440460 72983 140 153
    ∷ full_row 1791990371032 52440460 72983 140 153
    ∷ full_row 1791990371133 52440460 72983 140 153
    ∷ full_row 1791990371234 52440460 72983 140 153
    ∷ full_row 1791990371335 52440460 72983 140 153
    ∷ []
