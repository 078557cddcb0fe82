-- ===== src/Measured/Logs/FirstLayer3.antt =====
-- Recorded rows of v_layer/proxy3.json.ts, in
-- docs/evidence/f49-endpoints-and-tensor/unpadded_first_runs/tensor.
use share_compute.Prelude.{List, [], ◌∷◌}
use share_compute.Measured.{Row, row}

abbrev pub first_layer_3 : List Row
first_layer_3 =
    row 1791988756886 0 0 0
    ∷ row 1791988756987 0 0 0
    ∷ row 1791988757088 0 0 0
    ∷ row 1791988757191 0 0 0
    ∷ row 1791988757292 0 0 0
    ∷ row 1791988757394 0 0 0
    ∷ row 1791988757495 0 0 0
    ∷ row 1791988757598 0 0 0
    ∷ row 1791988757699 0 0 0
    ∷ row 1791988757799 0 0 0
    ∷ row 1791988757901 0 0 0
    ∷ row 1791988758002 0 0 0
    ∷ row 1791988758142 0 0 0
    ∷ row 1791988758243 42 48 4
    ∷ row 1791988758344 88 108 8
    ∷ row 1791988758446 88 108 8
    ∷ row 1791988758547 88 108 8
    ∷ row 1791988758648 3587 392 29
    ∷ row 1791988758750 38720 796 61
    ∷ row 1791988758853 38720 796 61
    ∷ row 1791988758959 38720 796 61
    ∷ row 1791988759060 38720 796 61
    ∷ row 1791988759161 38720 796 61
    ∷ row 1791988759262 42618 796 61
    ∷ row 1791988759363 42618 796 61
    ∷ row 1791988759464 42939 805 62
    ∷ row 1791988759565 42939 805 62
    ∷ row 1791988759667 42939 805 62
    ∷ row 1791988759770 42939 805 62
    ∷ row 1791988759871 42939 805 62
    ∷ row 1791988759975 6703556 805 63
    ∷ row 1791988760078 19810756 805 63
    ∷ row 1791988760183 33442244 805 63
    ∷ row 1791988760287 47860164 805 63
    ∷ row 1791988760391 60180932 805 63
    ∷ row 1791988760495 73288132 805 63
    ∷ row 1791988760598 85871044 805 63
    ∷ row 1791988760701 100288964 805 63
    ∷ row 1791988760805 112871876 805 63
    ∷ row 1791988760909 123881924 805 63
    ∷ row 1791988761013 135678404 805 63
    ∷ row 1791988761115 145962816 805 63
    ∷ row 1791988761216 145962816 805 63
    ∷ row 1791988761317 183840820 913 87
    ∷ row 1791988761419 215073431 1058 110
    ∷ row 1791988761521 215119235 1322 142
    ∷ row 1791988761626 215119235 1322 142
    ∷ row 1791988761727 215119235 1322 142
    ∷ row 1791988761829 215119235 1322 142
    ∷ row 1791988761939 215119235 1322 142
    ∷ row 1791988762042 215119235 1322 142
    ∷ row 1791988762144 215119235 1322 142
    ∷ row 1791988762245 215247293 1322 143
    ∷ row 1791988762380 215247293 1322 143
    ∷ row 1791988762483 215247293 609074 144
    ∷ row 1791988762586 215358887 609074 145
    ∷ row 1791988762688 215358887 1216826 146
    ∷ row 1791988762789 215365225 1216826 147
    ∷ row 1791988762891 215365225 1824578 148
    ∷ row 1791988763000 215371563 1824578 149
    ∷ row 1791988763102 215371563 2432330 150
    ∷ row 1791988763203 215377901 2432330 151
    ∷ row 1791988763305 215377901 3040082 152
    ∷ row 1791988763433 215381799 3040082 153
    ∷ row 1791988763535 215384239 3647834 154
    ∷ row 1791988763636 215390577 3647834 155
    ∷ row 1791988763738 215390577 4255586 156
    ∷ row 1791988763839 215396915 4255586 157
    ∷ row 1791988763940 215396915 4863338 158
    ∷ row 1791988764041 215403253 5471090 160
    ∷ row 1791988764142 215403253 5471090 160
    ∷ row 1791988764243 215409591 6078842 162
    ∷ row 1791988764344 215409591 6078842 162
    ∷ row 1791988764445 215415929 6686594 164
    ∷ row 1791988764546 215415929 6686594 164
    ∷ row 1791988764647 215422267 7294346 166
    ∷ row 1791988764749 215422267 7294346 166
    ∷ row 1791988764851 215428605 7902098 168
    ∷ row 1791988764953 215434943 7902098 169
    ∷ row 1791988765054 215434943 8509850 170
    ∷ row 1791988765156 215441281 8509850 171
    ∷ row 1791988765257 215441281 9117602 172
    ∷ row 1791988765361 215447619 9117602 173
    ∷ row 1791988765463 215447670 9725354 175
    ∷ row 1791988765564 215447670 9725354 175
    ∷ row 1791988765665 215447670 9725354 175
    ∷ row 1791988765766 215447670 9725354 175
    ∷ row 1791988765868 215447670 9725354 175
    ∷ row 1791988765969 215447670 9725354 175
    ∷ row 1791988766070 215447670 9725354 175
    ∷ row 1791988766172 215447670 9725354 175
    ∷ row 1791988766273 215447670 9725354 175
    ∷ row 1791988766374 215447670 9725354 175
    ∷ []
