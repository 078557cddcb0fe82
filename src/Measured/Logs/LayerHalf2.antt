-- ===== src/Measured/Logs/LayerHalf2.antt =====
-- Recorded rows of f_layer05/proxy2.json.ts, in
-- docs/evidence/f49-endpoints-and-tensor/tensor.
use share_compute.Prelude.{List, [], ◌∷◌}
use share_compute.Measured.{Row, full_row}

abbrev pub layer_half_2 : List Row
layer_half_2 =
    full_row 1791990363549 0 0 0 0
    ∷ full_row 1791990363649 0 0 0 0
    ∷ full_row 1791990363750 0 0 0 0
    ∷ full_row 1791990363852 0 0 0 0
    ∷ full_row 1791990363953 0 0 0 0
    ∷ full_row 1791990364054 0 0 0 0
    ∷ full_row 1791990364156 0 0 0 0
    ∷ full_row 1791990364256 0 0 0 0
    ∷ full_row 1791990364478 0 0 0 0
    ∷ full_row 1791990364580 0 0 0 0
    ∷ full_row 1791990364681 0 0 0 0
    ∷ full_row 1791990364782 0 0 0 0
    ∷ full_row 1791990364884 0 0 0 0
    ∷ full_row 1791990364985 42 48 3 4
    ∷ full_row 1791990365088 88 108 6 8
    ∷ full_row 1791990365189 88 108 6 8
    ∷ full_row 1791990365289 134 144 8 11
    ∷ full_row 1791990365391 45788 744 44 57
    ∷ full_row 1791990365492 45788 744 44 57
    ∷ full_row 1791990365593 21975516 798 56 69
    ∷ full_row 1791990365694 54641550 888 75 88
    ∷ full_row 1791990365795 87970938 978 95 108
    ∷ full_row 1791990365896 122141286 1068 116 129
    ∷ full_row 1791990365998 124875680 1068 116 129
    ∷ full_row 1791990366099 124875680 1068 116 129
    ∷ full_row 1791990366200 124875680 1068 116 129
    ∷ full_row 1791990366301 124875680 1068 116 129
    ∷ full_row 1791990366402 124875680 1068 116 129
    ∷ full_row 1791990366504 124875680 1068 116 129
    ∷ full_row 1791990366608 124875680 1068 116 129
    ∷ full_row 1791990366709 124875736 1108 120 133
    ∷ full_row 1791990366810 124915015 1364 149 162
    ∷ full_row 1791990366913 125112747 1364 150 163
    ∷ full_row 1791990367014 125112747 1364 150 163
    ∷ full_row 1791990367115 125112747 1364 150 163
    ∷ full_row 1791990367216 125112747 1364 150 163
    ∷ full_row 1791990367317 125112747 19292 151 164
    ∷ full_row 1791990367418 125112747 19292 151 164
    ∷ full_row 1791990367520 125294015 19292 152 165
    ∷ full_row 1791990367623 125294015 22884 153 166
    ∷ full_row 1791990367726 125300035 22884 154 167
    ∷ full_row 1791990367828 125300035 26476 155 168
    ∷ full_row 1791990367929 125306055 26476 156 169
    ∷ full_row 1791990368031 125306055 30068 157 170
    ∷ full_row 1791990368133 125312075 33660 159 172
    ∷ full_row 1791990368234 125318095 33660 160 173
    ∷ full_row 1791990368335 125318095 37252 161 174
    ∷ full_row 1791990368437 125324115 37252 162 175
    ∷ full_row 1791990368540 125324115 40844 163 176
    ∷ full_row 1791990368641 125330135 40844 164 177
    ∷ full_row 1791990368742 125330135 44436 165 178
    ∷ full_row 1791990368843 125336155 44436 166 179
    ∷ full_row 1791990368945 125336155 48028 167 180
    ∷ full_row 1791990369046 125342175 48028 168 181
    ∷ full_row 1791990369152 125342175 51620 169 182
    ∷ full_row 1791990369254 125348195 51620 170 183
    ∷ full_row 1791990369355 125348195 55212 171 184
    ∷ full_row 1791990369456 125354215 58804 173 186
    ∷ full_row 1791990369558 125360235 58804 174 187
    ∷ full_row 1791990369659 125360235 62396 175 188
    ∷ full_row 1791990369762 125366255 62396 176 189
    ∷ full_row 1791990369863 125366255 65988 177 190
    ∷ full_row 1791990369965 125372275 65988 178 191
    ∷ full_row 1791990370066 125372275 69580 179 192
    ∷ full_row 1791990370168 125378295 69580 180 193
    ∷ full_row 1791990370273 125378295 73172 181 194
    ∷ full_row 1791990370375 125378346 73172 182 195
    ∷ full_row 1791990370476 125378346 73172 182 195
    ∷ full_row 1791990370577 125378346 73172 182 195
    ∷ full_row 1791990370679 125378346 73172 182 195
    ∷ full_row 1791990370780 125378346 73172 182 195
    ∷ full_row 1791990370881 125378346 73172 182 195
    ∷ full_row 1791990370982 125378346 73172 182 195
    ∷ full_row 1791990371083 125378346 73172 182 195
    ∷ full_row 1791990371184 125378346 73172 182 195
    ∷ full_row 1791990371285 125378346 73172 182 195
    ∷ []
