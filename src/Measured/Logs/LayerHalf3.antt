-- ===== src/Measured/Logs/LayerHalf3.antt =====
-- Recorded rows of f_layer05/proxy3.json.ts, in
-- docs/evidence/f49-endpoints-and-tensor/tensor.
use share_compute.Prelude.{List, [], ◌∷◌}
use share_compute.Measured.{Row, full_row}

abbrev pub layer_half_3 : List Row
layer_half_3 =
    full_row 1791990363546 0 0 0 0
    ∷ full_row 1791990363646 0 0 0 0
    ∷ full_row 1791990363747 0 0 0 0
    ∷ full_row 1791990363850 0 0 0 0
    ∷ full_row 1791990363951 0 0 0 0
    ∷ full_row 1791990364052 0 0 0 0
    ∷ full_row 1791990364153 0 0 0 0
    ∷ full_row 1791990364254 0 0 0 0
    ∷ full_row 1791990364497 0 0 0 0
    ∷ full_row 1791990364598 0 0 0 0
    ∷ full_row 1791990364699 0 0 0 0
    ∷ full_row 1791990364800 0 0 0 0
    ∷ full_row 1791990364901 0 0 0 0
    ∷ full_row 1791990365002 42 48 3 4
    ∷ full_row 1791990365107 88 108 6 8
    ∷ full_row 1791990365208 88 108 6 8
    ∷ full_row 1791990365310 239 296 17 22
    ∷ full_row 1791990365412 38720 796 47 61
    ∷ full_row 1791990365513 38720 796 47 61
    ∷ full_row 1791990365614 38720 796 47 61
    ∷ full_row 1791990365715 38720 796 47 61
    ∷ full_row 1791990365817 38720 796 47 61
    ∷ full_row 1791990365918 42618 796 47 61
    ∷ full_row 1791990366019 42618 796 47 61
    ∷ full_row 1791990366122 42939 805 48 62
    ∷ full_row 1791990366223 42939 805 48 62
    ∷ full_row 1791990366324 72504319 805 49 63
    ∷ full_row 1791990366428 144686325 805 49 63
    ∷ full_row 1791990366530 145962816 805 49 63
    ∷ full_row 1791990366631 186060332 922 74 88
    ∷ full_row 1791990366733 215106142 1242 118 132
    ∷ full_row 1791990366834 215119235 1322 128 142
    ∷ full_row 1791990366935 215119235 1322 128 142
    ∷ full_row 1791990367037 215119235 1322 128 142
    ∷ full_row 1791990367138 215119235 1322 128 142
    ∷ full_row 1791990367239 215119235 1322 128 142
    ∷ full_row 1791990367340 215247293 1322 129 143
    ∷ full_row 1791990367442 215247293 609074 130 144
    ∷ full_row 1791990367545 215247293 609074 130 144
    ∷ full_row 1791990367647 215358887 1216826 132 146
    ∷ full_row 1791990367749 215365225 1216826 133 147
    ∷ full_row 1791990367851 215365225 1824578 134 148
    ∷ full_row 1791990367954 215371563 1824578 135 149
    ∷ full_row 1791990368055 215371563 2432330 136 150
    ∷ full_row 1791990368156 215377901 2432330 137 151
    ∷ full_row 1791990368258 215377901 3040082 138 152
    ∷ full_row 1791990368360 215384239 3040082 139 153
    ∷ full_row 1791990368463 215384239 3647834 140 154
    ∷ full_row 1791990368564 215390577 4255586 142 156
    ∷ full_row 1791990368665 215390577 4255586 142 156
    ∷ full_row 1791990368766 215396915 4863338 144 158
    ∷ full_row 1791990368868 215396915 4863338 144 158
    ∷ full_row 1791990368969 215403253 5471090 146 160
    ∷ full_row 1791990369070 215403253 5471090 146 160
    ∷ full_row 1791990369171 215409591 6078842 148 162
    ∷ full_row 1791990369272 215409591 6078842 148 162
    ∷ full_row 1791990369374 215415929 6686594 150 164
    ∷ full_row 1791990369476 215422267 6686594 151 165
    ∷ full_row 1791990369580 215422267 7294346 152 166
    ∷ full_row 1791990369683 215428605 7294346 153 167
    ∷ full_row 1791990369788 215428605 7902098 154 168
    ∷ full_row 1791990369890 215434943 7902098 155 169
    ∷ full_row 1791990369991 215434943 8509850 156 170
    ∷ full_row 1791990370093 215441281 8509850 157 171
    ∷ full_row 1791990370195 215441281 9117602 158 172
    ∷ full_row 1791990370296 215447619 9117602 159 173
    ∷ full_row 1791990370398 215447670 9725354 161 175
    ∷ full_row 1791990370500 215447670 9725354 161 175
    ∷ full_row 1791990370601 215447670 9725354 161 175
    ∷ full_row 1791990370702 215447670 9725354 161 175
    ∷ full_row 1791990370803 215447670 9725354 161 175
    ∷ full_row 1791990370904 215447670 9725354 161 175
    ∷ full_row 1791990371006 215447670 9725354 161 175
    ∷ full_row 1791990371107 215447670 9725354 161 175
    ∷ full_row 1791990371209 215447670 9725354 161 175
    ∷ full_row 1791990371310 215447670 9725354 161 175
    ∷ []
