-- ===== src/Hpack/HuffmanTable/High.antt =====
-- src/hpack/huffman-table.ts: the rows of the octets 128 to 255, and of EOS (256).
use browsercore_http.Common.{List, [], ◌∷◌}
use browsercore_http.Hpack.HuffmanTable.Row.{HuffmanRow, row}

unfoldable pub rows_high : List HuffmanRow
rows_high =
    row 20 0xfffe6 128
    ∷ row 22 0x3fffd2 129
    ∷ row 20 0xfffe7 130
    ∷ row 20 0xfffe8 131
    ∷ row 22 0x3fffd3 132
    ∷ row 22 0x3fffd4 133
    ∷ row 22 0x3fffd5 134
    ∷ row 23 0x7fffd9 135
    ∷ row 22 0x3fffd6 136
    ∷ row 23 0x7fffda 137
    ∷ row 23 0x7fffdb 138
    ∷ row 23 0x7fffdc 139
    ∷ row 23 0x7fffdd 140
    ∷ row 23 0x7fffde 141
    ∷ row 24 0xffffeb 142
    ∷ row 23 0x7fffdf 143
    ∷ row 24 0xffffec 144
    ∷ row 24 0xffffed 145
    ∷ row 22 0x3fffd7 146
    ∷ row 23 0x7fffe0 147
    ∷ row 24 0xffffee 148
    ∷ row 23 0x7fffe1 149
    ∷ row 23 0x7fffe2 150
    ∷ row 23 0x7fffe3 151
    ∷ row 23 0x7fffe4 152
    ∷ row 21 0x1fffdc 153
    ∷ row 22 0x3fffd8 154
    ∷ row 23 0x7fffe5 155
    ∷ row 22 0x3fffd9 156
    ∷ row 23 0x7fffe6 157
    ∷ row 23 0x7fffe7 158
    ∷ row 24 0xffffef 159
    ∷ row 22 0x3fffda 160
    ∷ row 21 0x1fffdd 161
    ∷ row 20 0xfffe9 162
    ∷ row 22 0x3fffdb 163
    ∷ row 22 0x3fffdc 164
    ∷ row 23 0x7fffe8 165
    ∷ row 23 0x7fffe9 166
    ∷ row 21 0x1fffde 167
    ∷ row 23 0x7fffea 168
    ∷ row 22 0x3fffdd 169
    ∷ row 22 0x3fffde 170
    ∷ row 24 0xfffff0 171
    ∷ row 21 0x1fffdf 172
    ∷ row 22 0x3fffdf 173
    ∷ row 23 0x7fffeb 174
    ∷ row 23 0x7fffec 175
    ∷ row 21 0x1fffe0 176
    ∷ row 21 0x1fffe1 177
    ∷ row 22 0x3fffe0 178
    ∷ row 21 0x1fffe2 179
    ∷ row 23 0x7fffed 180
    ∷ row 22 0x3fffe1 181
    ∷ row 23 0x7fffee 182
    ∷ row 23 0x7fffef 183
    ∷ row 20 0xfffea 184
    ∷ row 22 0x3fffe2 185
    ∷ row 22 0x3fffe3 186
    ∷ row 22 0x3fffe4 187
    ∷ row 23 0x7ffff0 188
    ∷ row 22 0x3fffe5 189
    ∷ row 22 0x3fffe6 190
    ∷ row 23 0x7ffff1 191
    ∷ row 26 0x3ffffe0 192
    ∷ row 26 0x3ffffe1 193
    ∷ row 20 0xfffeb 194
    ∷ row 19 0x7fff1 195
    ∷ row 22 0x3fffe7 196
    ∷ row 23 0x7ffff2 197
    ∷ row 22 0x3fffe8 198
    ∷ row 25 0x1ffffec 199
    ∷ row 26 0x3ffffe2 200
    ∷ row 26 0x3ffffe3 201
    ∷ row 26 0x3ffffe4 202
    ∷ row 27 0x7ffffde 203
    ∷ row 27 0x7ffffdf 204
    ∷ row 26 0x3ffffe5 205
    ∷ row 24 0xfffff1 206
    ∷ row 25 0x1ffffed 207
    ∷ row 19 0x7fff2 208
    ∷ row 21 0x1fffe3 209
    ∷ row 26 0x3ffffe6 210
    ∷ row 27 0x7ffffe0 211
    ∷ row 27 0x7ffffe1 212
    ∷ row 26 0x3ffffe7 213
    ∷ row 27 0x7ffffe2 214
    ∷ row 24 0xfffff2 215
    ∷ row 21 0x1fffe4 216
    ∷ row 21 0x1fffe5 217
    ∷ row 26 0x3ffffe8 218
    ∷ row 26 0x3ffffe9 219
    ∷ row 28 0xffffffd 220
    ∷ row 27 0x7ffffe3 221
    ∷ row 27 0x7ffffe4 222
    ∷ row 27 0x7ffffe5 223
    ∷ row 20 0xfffec 224
    ∷ row 24 0xfffff3 225
    ∷ row 20 0xfffed 226
    ∷ row 21 0x1fffe6 227
    ∷ row 22 0x3fffe9 228
    ∷ row 21 0x1fffe7 229
    ∷ row 21 0x1fffe8 230
    ∷ row 23 0x7ffff3 231
    ∷ row 22 0x3fffea 232
    ∷ row 22 0x3fffeb 233
    ∷ row 25 0x1ffffee 234
    ∷ row 25 0x1ffffef 235
    ∷ row 24 0xfffff4 236
    ∷ row 24 0xfffff5 237
    ∷ row 26 0x3ffffea 238
    ∷ row 23 0x7ffff4 239
    ∷ row 26 0x3ffffeb 240
    ∷ row 27 0x7ffffe6 241
    ∷ row 26 0x3ffffec 242
    ∷ row 26 0x3ffffed 243
    ∷ row 27 0x7ffffe7 244
    ∷ row 27 0x7ffffe8 245
    ∷ row 27 0x7ffffe9 246
    ∷ row 27 0x7ffffea 247
    ∷ row 27 0x7ffffeb 248
    ∷ row 28 0xffffffe 249
    ∷ row 27 0x7ffffec 250
    ∷ row 27 0x7ffffed 251
    ∷ row 27 0x7ffffee 252
    ∷ row 27 0x7ffffef 253
    ∷ row 27 0x7fffff0 254
    ∷ row 26 0x3ffffee 255
    ∷ row 30 0x3fffffff 256
    ∷ []
