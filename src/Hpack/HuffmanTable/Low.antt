-- ===== src/Hpack/HuffmanTable/Low.antt =====
-- src/hpack/huffman-table.ts: the rows of the octets 0 to 127.
use browsercore_http.Common.{List, [], ◌∷◌}
use browsercore_http.Hpack.HuffmanTable.Row.{HuffmanRow, row}

unfoldable pub rows_low : List HuffmanRow
rows_low =
    row 13 0x1ff8 0
    ∷ row 23 0x7fffd8 1
    ∷ row 28 0xfffffe2 2
    ∷ row 28 0xfffffe3 3
    ∷ row 28 0xfffffe4 4
    ∷ row 28 0xfffffe5 5
    ∷ row 28 0xfffffe6 6
    ∷ row 28 0xfffffe7 7
    ∷ row 28 0xfffffe8 8
    ∷ row 24 0xffffea 9
    ∷ row 30 0x3ffffffc 10
    ∷ row 28 0xfffffe9 11
    ∷ row 28 0xfffffea 12
    ∷ row 30 0x3ffffffd 13
    ∷ row 28 0xfffffeb 14
    ∷ row 28 0xfffffec 15
    ∷ row 28 0xfffffed 16
    ∷ row 28 0xfffffee 17
    ∷ row 28 0xfffffef 18
    ∷ row 28 0xffffff0 19
    ∷ row 28 0xffffff1 20
    ∷ row 28 0xffffff2 21
    ∷ row 30 0x3ffffffe 22
    ∷ row 28 0xffffff3 23
    ∷ row 28 0xffffff4 24
    ∷ row 28 0xffffff5 25
    ∷ row 28 0xffffff6 26
    ∷ row 28 0xffffff7 27
    ∷ row 28 0xffffff8 28
    ∷ row 28 0xffffff9 29
    ∷ row 28 0xffffffa 30
    ∷ row 28 0xffffffb 31
    ∷ row 6 0x14 32
    ∷ row 10 0x3f8 33
    ∷ row 10 0x3f9 34
    ∷ row 12 0xffa 35
    ∷ row 13 0x1ff9 36
    ∷ row 6 0x15 37
    ∷ row 8 0xf8 38
    ∷ row 11 0x7fa 39
    ∷ row 10 0x3fa 40
    ∷ row 10 0x3fb 41
    ∷ row 8 0xf9 42
    ∷ row 11 0x7fb 43
    ∷ row 8 0xfa 44
    ∷ row 6 0x16 45
    ∷ row 6 0x17 46
    ∷ row 6 0x18 47
    ∷ row 5 0x0 48
    ∷ row 5 0x1 49
    ∷ row 5 0x2 50
    ∷ row 6 0x19 51
    ∷ row 6 0x1a 52
    ∷ row 6 0x1b 53
    ∷ row 6 0x1c 54
    ∷ row 6 0x1d 55
    ∷ row 6 0x1e 56
    ∷ row 6 0x1f 57
    ∷ row 7 0x5c 58
    ∷ row 8 0xfb 59
    ∷ row 15 0x7ffc 60
    ∷ row 6 0x20 61
    ∷ row 12 0xffb 62
    ∷ row 10 0x3fc 63
    ∷ row 13 0x1ffa 64
    ∷ row 6 0x21 65
    ∷ row 7 0x5d 66
    ∷ row 7 0x5e 67
    ∷ row 7 0x5f 68
    ∷ row 7 0x60 69
    ∷ row 7 0x61 70
    ∷ row 7 0x62 71
    ∷ row 7 0x63 72
    ∷ row 7 0x64 73
    ∷ row 7 0x65 74
    ∷ row 7 0x66 75
    ∷ row 7 0x67 76
    ∷ row 7 0x68 77
    ∷ row 7 0x69 78
    ∷ row 7 0x6a 79
    ∷ row 7 0x6b 80
    ∷ row 7 0x6c 81
    ∷ row 7 0x6d 82
    ∷ row 7 0x6e 83
    ∷ row 7 0x6f 84
    ∷ row 7 0x70 85
    ∷ row 7 0x71 86
    ∷ row 7 0x72 87
    ∷ row 8 0xfc 88
    ∷ row 7 0x73 89
    ∷ row 8 0xfd 90
    ∷ row 13 0x1ffb 91
    ∷ row 19 0x7fff0 92
    ∷ row 13 0x1ffc 93
    ∷ row 14 0x3ffc 94
    ∷ row 6 0x22 95
    ∷ row 15 0x7ffd 96
    ∷ row 5 0x3 97
    ∷ row 6 0x23 98
    ∷ row 5 0x4 99
    ∷ row 6 0x24 100
    ∷ row 5 0x5 101
    ∷ row 6 0x25 102
    ∷ row 6 0x26 103
    ∷ row 6 0x27 104
    ∷ row 5 0x6 105
    ∷ row 7 0x74 106
    ∷ row 7 0x75 107
    ∷ row 6 0x28 108
    ∷ row 6 0x29 109
    ∷ row 6 0x2a 110
    ∷ row 5 0x7 111
    ∷ row 6 0x2b 112
    ∷ row 7 0x76 113
    ∷ row 6 0x2c 114
    ∷ row 5 0x8 115
    ∷ row 5 0x9 116
    ∷ row 6 0x2d 117
    ∷ row 7 0x77 118
    ∷ row 7 0x78 119
    ∷ row 7 0x79 120
    ∷ row 7 0x7a 121
    ∷ row 7 0x7b 122
    ∷ row 15 0x7ffe 123
    ∷ row 11 0x7fc 124
    ∷ row 14 0x3ffd 125
    ∷ row 13 0x1ffd 126
    ∷ row 28 0xffffffc 127
    ∷ []
