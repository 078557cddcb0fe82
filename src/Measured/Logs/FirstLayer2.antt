-- ===== src/Measured/Logs/FirstLayer2.antt =====
-- Recorded rows of v_layer/proxy2.json.ts, in
-- docs/evidence/f49-endpoints-and-tensor/unpadded_first_runs/tensor.
use share_compute.Prelude.{List, [], ◌∷◌}
use share_compute.Measured.{Row, row}

abbrev pub first_layer_2 : List Row
first_layer_2 =
    row 1791988756886 0 0 0
    ∷ row 1791988756987 0 0 0
    ∷ row 1791988757088 0 0 0
    ∷ row 1791988757190 0 0 0
    ∷ row 1791988757292 0 0 0
    ∷ row 1791988757394 0 0 0
    ∷ row 1791988757495 0 0 0
    ∷ row 1791988757596 0 0 0
    ∷ row 1791988757698 0 0 0
    ∷ row 1791988757799 0 0 0
    ∷ row 1791988757901 0 0 0
    ∷ row 1791988758002 0 0 0
    ∷ row 1791988758142 0 0 0
    ∷ row 1791988758244 42 48 4
    ∷ row 1791988758346 88 108 8
    ∷ row 1791988758447 88 108 8
    ∷ row 1791988758548 88 108 8
    ∷ row 1791988758650 45788 744 57
    ∷ row 1791988758751 45788 744 57
    ∷ row 1791988758853 45788 744 57
    ∷ row 1791988758957 26807501 816 73
    ∷ row 1791988759058 62458906 906 93
    ∷ row 1791988759159 98816501 1005 114
    ∷ row 1791988759260 124875680 1068 129
    ∷ row 1791988759362 124875680 1068 129
    ∷ row 1791988759463 124875680 1068 129
    ∷ row 1791988759565 124875680 1068 129
    ∷ row 1791988759666 124875680 1068 129
    ∷ row 1791988759767 124875680 1068 129
    ∷ row 1791988759869 124875680 1068 129
    ∷ row 1791988759970 124875680 1068 129
    ∷ row 1791988760071 124875680 1068 129
    ∷ row 1791988760173 124875680 1068 129
    ∷ row 1791988760274 124875680 1068 129
    ∷ row 1791988760378 124875680 1068 129
    ∷ row 1791988760479 124875680 1068 129
    ∷ row 1791988760580 124875680 1068 129
    ∷ row 1791988760682 124875680 1068 129
    ∷ row 1791988760783 124875680 1068 129
    ∷ row 1791988760885 124875680 1068 129
    ∷ row 1791988760987 124875680 1068 129
    ∷ row 1791988761089 124875680 1068 129
    ∷ row 1791988761190 124875680 1068 129
    ∷ row 1791988761291 124875680 1068 129
    ∷ row 1791988761394 124875680 1068 129
    ∷ row 1791988761495 124915015 1364 162
    ∷ row 1791988761596 124915015 1364 162
    ∷ row 1791988761699 125112747 1364 163
    ∷ row 1791988761801 125112747 1364 163
    ∷ row 1791988761939 125112747 1364 163
    ∷ row 1791988762046 125112747 1364 163
    ∷ row 1791988762148 125112747 19292 164
    ∷ row 1791988762250 125112747 19292 164
    ∷ row 1791988762381 125112747 19292 164
    ∷ row 1791988762482 125294015 19292 165
    ∷ row 1791988762584 125294015 22884 166
    ∷ row 1791988762685 125300035 22884 167
    ∷ row 1791988762787 125300035 26476 168
    ∷ row 1791988762889 125306055 26476 169
    ∷ row 1791988763000 125306055 30068 170
    ∷ row 1791988763102 125312075 30068 171
    ∷ row 1791988763203 125312075 33660 172
    ∷ row 1791988763304 125318095 33660 173
    ∷ row 1791988763422 125318095 37252 174
    ∷ row 1791988763524 125318095 37252 174
    ∷ row 1791988763625 125324115 40844 176
    ∷ row 1791988763727 125330135 40844 177
    ∷ row 1791988763830 125330135 44436 178
    ∷ row 1791988763932 125336155 44436 179
    ∷ row 1791988764035 125336155 48028 180
    ∷ row 1791988764137 125342175 48028 181
    ∷ row 1791988764239 125342175 51620 182
    ∷ row 1791988764342 125348195 51620 183
    ∷ row 1791988764444 125348195 55212 184
    ∷ row 1791988764546 125354215 58804 186
    ∷ row 1791988764647 125354215 58804 186
    ∷ row 1791988764749 125360235 58804 187
    ∷ row 1791988764851 125360235 62396 188
    ∷ row 1791988764952 125366255 65988 190
    ∷ row 1791988765054 125372275 65988 191
    ∷ row 1791988765157 125372275 69580 192
    ∷ row 1791988765258 125378295 69580 193
    ∷ row 1791988765361 125378295 73172 194
    ∷ row 1791988765463 125378346 73172 195
    ∷ row 1791988765564 125378346 73172 195
    ∷ row 1791988765665 125378346 73172 195
    ∷ row 1791988765766 125378346 73172 195
    ∷ row 1791988765868 125378346 73172 195
    ∷ row 1791988765969 125378346 73172 195
    ∷ row 1791988766070 125378346 73172 195
    ∷ row 1791988766172 125378346 73172 195
    ∷ row 1791988766273 125378346 73172 195
    ∷ row 1791988766374 125378346 73172 195
    ∷ []
