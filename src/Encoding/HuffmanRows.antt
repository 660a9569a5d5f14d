-- ===== src/Encoding/HuffmanRows.antt =====
-- tornado_http2/hpack_huffman_data.txt: the lines of the file, as the regular expression of
-- `_load_huffman_data` takes them apart. The hexadecimal column is not read by the code.
use Prim.Native.String.{String}
use tornado_http.Common.{ℕ, List, [], ◌∷◌, Option, none, some}

-- The quoted character where the line has one, the number, the bits as text, and their count.
abbrev pub Row : Type 0
Row = Option ℕ × ℕ × String × ℕ

abbrev rows_0 : List Row → List Row
rows_0 more =
    (none, 0, "|11111111|11000", 13)
    ∷ (none, 1, "|11111111|11111111|1011000", 23)
    ∷ (none, 2, "|11111111|11111111|11111110|0010", 28)
    ∷ (none, 3, "|11111111|11111111|11111110|0011", 28)
    ∷ (none, 4, "|11111111|11111111|11111110|0100", 28)
    ∷ (none, 5, "|11111111|11111111|11111110|0101", 28)
    ∷ (none, 6, "|11111111|11111111|11111110|0110", 28)
    ∷ (none, 7, "|11111111|11111111|11111110|0111", 28)
    ∷ (none, 8, "|11111111|11111111|11111110|1000", 28)
    ∷ (none, 9, "|11111111|11111111|11101010", 24)
    ∷ (none, 10, "|11111111|11111111|11111111|111100", 30)
    ∷ (none, 11, "|11111111|11111111|11111110|1001", 28)
    ∷ (none, 12, "|11111111|11111111|11111110|1010", 28)
    ∷ (none, 13, "|11111111|11111111|11111111|111101", 30)
    ∷ (none, 14, "|11111111|11111111|11111110|1011", 28)
    ∷ (none, 15, "|11111111|11111111|11111110|1100", 28)
    ∷ (none, 16, "|11111111|11111111|11111110|1101", 28)
    ∷ (none, 17, "|11111111|11111111|11111110|1110", 28)
    ∷ (none, 18, "|11111111|11111111|11111110|1111", 28)
    ∷ (none, 19, "|11111111|11111111|11111111|0000", 28)
    ∷ (none, 20, "|11111111|11111111|11111111|0001", 28)
    ∷ (none, 21, "|11111111|11111111|11111111|0010", 28)
    ∷ (none, 22, "|11111111|11111111|11111111|111110", 30)
    ∷ (none, 23, "|11111111|11111111|11111111|0011", 28)
    ∷ (none, 24, "|11111111|11111111|11111111|0100", 28)
    ∷ (none, 25, "|11111111|11111111|11111111|0101", 28)
    ∷ (none, 26, "|11111111|11111111|11111111|0110", 28)
    ∷ (none, 27, "|11111111|11111111|11111111|0111", 28)
    ∷ (none, 28, "|11111111|11111111|11111111|1000", 28)
    ∷ (none, 29, "|11111111|11111111|11111111|1001", 28)
    ∷ (none, 30, "|11111111|11111111|11111111|1010", 28)
    ∷ (none, 31, "|11111111|11111111|11111111|1011", 28)
    ∷ (some 32, 32, "|010100", 6)
    ∷ (some 33, 33, "|11111110|00", 10)
    ∷ (some 34, 34, "|11111110|01", 10)
    ∷ (some 35, 35, "|11111111|1010", 12)
    ∷ (some 36, 36, "|11111111|11001", 13)
    ∷ (some 37, 37, "|010101", 6)
    ∷ (some 38, 38, "|11111000", 8)
    ∷ (some 39, 39, "|11111111|010", 11)
    ∷ (some 40, 40, "|11111110|10", 10)
    ∷ (some 41, 41, "|11111110|11", 10)
    ∷ (some 42, 42, "|11111001", 8)
    ∷ (some 43, 43, "|11111111|011", 11)
    ∷ (some 44, 44, "|11111010", 8)
    ∷ (some 45, 45, "|010110", 6)
    ∷ (some 46, 46, "|010111", 6)
    ∷ (some 47, 47, "|011000", 6)
    ∷ (some 48, 48, "|00000", 5)
    ∷ (some 49, 49, "|00001", 5)
    ∷ (some 50, 50, "|00010", 5)
    ∷ (some 51, 51, "|011001", 6)
    ∷ (some 52, 52, "|011010", 6)
    ∷ (some 53, 53, "|011011", 6)
    ∷ (some 54, 54, "|011100", 6)
    ∷ (some 55, 55, "|011101", 6)
    ∷ (some 56, 56, "|011110", 6)
    ∷ (some 57, 57, "|011111", 6)
    ∷ (some 58, 58, "|1011100", 7)
    ∷ (some 59, 59, "|11111011", 8)
    ∷ (some 60, 60, "|11111111|1111100", 15)
    ∷ (some 61, 61, "|100000", 6)
    ∷ (some 62, 62, "|11111111|1011", 12)
    ∷ (some 63, 63, "|11111111|00", 10)
    ∷ (some 64, 64, "|11111111|11010", 13)
    ∷ more

abbrev rows_1 : List Row → List Row
rows_1 more =
    (some 65, 65, "|100001", 6)
    ∷ (some 66, 66, "|1011101", 7)
    ∷ (some 67, 67, "|1011110", 7)
    ∷ (some 68, 68, "|1011111", 7)
    ∷ (some 69, 69, "|1100000", 7)
    ∷ (some 70, 70, "|1100001", 7)
    ∷ (some 71, 71, "|1100010", 7)
    ∷ (some 72, 72, "|1100011", 7)
    ∷ (some 73, 73, "|1100100", 7)
    ∷ (some 74, 74, "|1100101", 7)
    ∷ (some 75, 75, "|1100110", 7)
    ∷ (some 76, 76, "|1100111", 7)
    ∷ (some 77, 77, "|1101000", 7)
    ∷ (some 78, 78, "|1101001", 7)
    ∷ (some 79, 79, "|1101010", 7)
    ∷ (some 80, 80, "|1101011", 7)
    ∷ (some 81, 81, "|1101100", 7)
    ∷ (some 82, 82, "|1101101", 7)
    ∷ (some 83, 83, "|1101110", 7)
    ∷ (some 84, 84, "|1101111", 7)
    ∷ (some 85, 85, "|1110000", 7)
    ∷ (some 86, 86, "|1110001", 7)
    ∷ (some 87, 87, "|1110010", 7)
    ∷ (some 88, 88, "|11111100", 8)
    ∷ (some 89, 89, "|1110011", 7)
    ∷ (some 90, 90, "|11111101", 8)
    ∷ (some 91, 91, "|11111111|11011", 13)
    ∷ (some 92, 92, "|11111111|11111110|000", 19)
    ∷ (some 93, 93, "|11111111|11100", 13)
    ∷ (some 94, 94, "|11111111|111100", 14)
    ∷ (some 95, 95, "|100010", 6)
    ∷ (some 96, 96, "|11111111|1111101", 15)
    ∷ (some 97, 97, "|00011", 5)
    ∷ (some 98, 98, "|100011", 6)
    ∷ (some 99, 99, "|00100", 5)
    ∷ (some 100, 100, "|100100", 6)
    ∷ (some 101, 101, "|00101", 5)
    ∷ (some 102, 102, "|100101", 6)
    ∷ (some 103, 103, "|100110", 6)
    ∷ (some 104, 104, "|100111", 6)
    ∷ (some 105, 105, "|00110", 5)
    ∷ (some 106, 106, "|1110100", 7)
    ∷ (some 107, 107, "|1110101", 7)
    ∷ (some 108, 108, "|101000", 6)
    ∷ (some 109, 109, "|101001", 6)
    ∷ (some 110, 110, "|101010", 6)
    ∷ (some 111, 111, "|00111", 5)
    ∷ (some 112, 112, "|101011", 6)
    ∷ (some 113, 113, "|1110110", 7)
    ∷ (some 114, 114, "|101100", 6)
    ∷ (some 115, 115, "|01000", 5)
    ∷ (some 116, 116, "|01001", 5)
    ∷ (some 117, 117, "|101101", 6)
    ∷ (some 118, 118, "|1110111", 7)
    ∷ (some 119, 119, "|1111000", 7)
    ∷ (some 120, 120, "|1111001", 7)
    ∷ (some 121, 121, "|1111010", 7)
    ∷ (some 122, 122, "|1111011", 7)
    ∷ (some 123, 123, "|11111111|1111110", 15)
    ∷ (some 124, 124, "|11111111|100", 11)
    ∷ (some 125, 125, "|11111111|111101", 14)
    ∷ (some 126, 126, "|11111111|11101", 13)
    ∷ (none, 127, "|11111111|11111111|11111111|1100", 28)
    ∷ (none, 128, "|11111111|11111110|0110", 20)
    ∷ (none, 129, "|11111111|11111111|010010", 22)
    ∷ more

abbrev rows_2 : List Row → List Row
rows_2 more =
    (none, 130, "|11111111|11111110|0111", 20)
    ∷ (none, 131, "|11111111|11111110|1000", 20)
    ∷ (none, 132, "|11111111|11111111|010011", 22)
    ∷ (none, 133, "|11111111|11111111|010100", 22)
    ∷ (none, 134, "|11111111|11111111|010101", 22)
    ∷ (none, 135, "|11111111|11111111|1011001", 23)
    ∷ (none, 136, "|11111111|11111111|010110", 22)
    ∷ (none, 137, "|11111111|11111111|1011010", 23)
    ∷ (none, 138, "|11111111|11111111|1011011", 23)
    ∷ (none, 139, "|11111111|11111111|1011100", 23)
    ∷ (none, 140, "|11111111|11111111|1011101", 23)
    ∷ (none, 141, "|11111111|11111111|1011110", 23)
    ∷ (none, 142, "|11111111|11111111|11101011", 24)
    ∷ (none, 143, "|11111111|11111111|1011111", 23)
    ∷ (none, 144, "|11111111|11111111|11101100", 24)
    ∷ (none, 145, "|11111111|11111111|11101101", 24)
    ∷ (none, 146, "|11111111|11111111|010111", 22)
    ∷ (none, 147, "|11111111|11111111|1100000", 23)
    ∷ (none, 148, "|11111111|11111111|11101110", 24)
    ∷ (none, 149, "|11111111|11111111|1100001", 23)
    ∷ (none, 150, "|11111111|11111111|1100010", 23)
    ∷ (none, 151, "|11111111|11111111|1100011", 23)
    ∷ (none, 152, "|11111111|11111111|1100100", 23)
    ∷ (none, 153, "|11111111|11111110|11100", 21)
    ∷ (none, 154, "|11111111|11111111|011000", 22)
    ∷ (none, 155, "|11111111|11111111|1100101", 23)
    ∷ (none, 156, "|11111111|11111111|011001", 22)
    ∷ (none, 157, "|11111111|11111111|1100110", 23)
    ∷ (none, 158, "|11111111|11111111|1100111", 23)
    ∷ (none, 159, "|11111111|11111111|11101111", 24)
    ∷ (none, 160, "|11111111|11111111|011010", 22)
    ∷ (none, 161, "|11111111|11111110|11101", 21)
    ∷ (none, 162, "|11111111|11111110|1001", 20)
    ∷ (none, 163, "|11111111|11111111|011011", 22)
    ∷ (none, 164, "|11111111|11111111|011100", 22)
    ∷ (none, 165, "|11111111|11111111|1101000", 23)
    ∷ (none, 166, "|11111111|11111111|1101001", 23)
    ∷ (none, 167, "|11111111|11111110|11110", 21)
    ∷ (none, 168, "|11111111|11111111|1101010", 23)
    ∷ (none, 169, "|11111111|11111111|011101", 22)
    ∷ (none, 170, "|11111111|11111111|011110", 22)
    ∷ (none, 171, "|11111111|11111111|11110000", 24)
    ∷ (none, 172, "|11111111|11111110|11111", 21)
    ∷ (none, 173, "|11111111|11111111|011111", 22)
    ∷ (none, 174, "|11111111|11111111|1101011", 23)
    ∷ (none, 175, "|11111111|11111111|1101100", 23)
    ∷ (none, 176, "|11111111|11111111|00000", 21)
    ∷ (none, 177, "|11111111|11111111|00001", 21)
    ∷ (none, 178, "|11111111|11111111|100000", 22)
    ∷ (none, 179, "|11111111|11111111|00010", 21)
    ∷ (none, 180, "|11111111|11111111|1101101", 23)
    ∷ (none, 181, "|11111111|11111111|100001", 22)
    ∷ (none, 182, "|11111111|11111111|1101110", 23)
    ∷ (none, 183, "|11111111|11111111|1101111", 23)
    ∷ (none, 184, "|11111111|11111110|1010", 20)
    ∷ (none, 185, "|11111111|11111111|100010", 22)
    ∷ (none, 186, "|11111111|11111111|100011", 22)
    ∷ (none, 187, "|11111111|11111111|100100", 22)
    ∷ (none, 188, "|11111111|11111111|1110000", 23)
    ∷ (none, 189, "|11111111|11111111|100101", 22)
    ∷ (none, 190, "|11111111|11111111|100110", 22)
    ∷ (none, 191, "|11111111|11111111|1110001", 23)
    ∷ (none, 192, "|11111111|11111111|11111000|00", 26)
    ∷ (none, 193, "|11111111|11111111|11111000|01", 26)
    ∷ (none, 194, "|11111111|11111110|1011", 20)
    ∷ more

abbrev rows_3 : List Row → List Row
rows_3 more =
    (none, 195, "|11111111|11111110|001", 19)
    ∷ (none, 196, "|11111111|11111111|100111", 22)
    ∷ (none, 197, "|11111111|11111111|1110010", 23)
    ∷ (none, 198, "|11111111|11111111|101000", 22)
    ∷ (none, 199, "|11111111|11111111|11110110|0", 25)
    ∷ (none, 200, "|11111111|11111111|11111000|10", 26)
    ∷ (none, 201, "|11111111|11111111|11111000|11", 26)
    ∷ (none, 202, "|11111111|11111111|11111001|00", 26)
    ∷ (none, 203, "|11111111|11111111|11111011|110", 27)
    ∷ (none, 204, "|11111111|11111111|11111011|111", 27)
    ∷ (none, 205, "|11111111|11111111|11111001|01", 26)
    ∷ (none, 206, "|11111111|11111111|11110001", 24)
    ∷ (none, 207, "|11111111|11111111|11110110|1", 25)
    ∷ (none, 208, "|11111111|11111110|010", 19)
    ∷ (none, 209, "|11111111|11111111|00011", 21)
    ∷ (none, 210, "|11111111|11111111|11111001|10", 26)
    ∷ (none, 211, "|11111111|11111111|11111100|000", 27)
    ∷ (none, 212, "|11111111|11111111|11111100|001", 27)
    ∷ (none, 213, "|11111111|11111111|11111001|11", 26)
    ∷ (none, 214, "|11111111|11111111|11111100|010", 27)
    ∷ (none, 215, "|11111111|11111111|11110010", 24)
    ∷ (none, 216, "|11111111|11111111|00100", 21)
    ∷ (none, 217, "|11111111|11111111|00101", 21)
    ∷ (none, 218, "|11111111|11111111|11111010|00", 26)
    ∷ (none, 219, "|11111111|11111111|11111010|01", 26)
    ∷ (none, 220, "|11111111|11111111|11111111|1101", 28)
    ∷ (none, 221, "|11111111|11111111|11111100|011", 27)
    ∷ (none, 222, "|11111111|11111111|11111100|100", 27)
    ∷ (none, 223, "|11111111|11111111|11111100|101", 27)
    ∷ (none, 224, "|11111111|11111110|1100", 20)
    ∷ (none, 225, "|11111111|11111111|11110011", 24)
    ∷ (none, 226, "|11111111|11111110|1101", 20)
    ∷ (none, 227, "|11111111|11111111|00110", 21)
    ∷ (none, 228, "|11111111|11111111|101001", 22)
    ∷ (none, 229, "|11111111|11111111|00111", 21)
    ∷ (none, 230, "|11111111|11111111|01000", 21)
    ∷ (none, 231, "|11111111|11111111|1110011", 23)
    ∷ (none, 232, "|11111111|11111111|101010", 22)
    ∷ (none, 233, "|11111111|11111111|101011", 22)
    ∷ (none, 234, "|11111111|11111111|11110111|0", 25)
    ∷ (none, 235, "|11111111|11111111|11110111|1", 25)
    ∷ (none, 236, "|11111111|11111111|11110100", 24)
    ∷ (none, 237, "|11111111|11111111|11110101", 24)
    ∷ (none, 238, "|11111111|11111111|11111010|10", 26)
    ∷ (none, 239, "|11111111|11111111|1110100", 23)
    ∷ (none, 240, "|11111111|11111111|11111010|11", 26)
    ∷ (none, 241, "|11111111|11111111|11111100|110", 27)
    ∷ (none, 242, "|11111111|11111111|11111011|00", 26)
    ∷ (none, 243, "|11111111|11111111|11111011|01", 26)
    ∷ (none, 244, "|11111111|11111111|11111100|111", 27)
    ∷ (none, 245, "|11111111|11111111|11111101|000", 27)
    ∷ (none, 246, "|11111111|11111111|11111101|001", 27)
    ∷ (none, 247, "|11111111|11111111|11111101|010", 27)
    ∷ (none, 248, "|11111111|11111111|11111101|011", 27)
    ∷ (none, 249, "|11111111|11111111|11111111|1110", 28)
    ∷ (none, 250, "|11111111|11111111|11111101|100", 27)
    ∷ (none, 251, "|11111111|11111111|11111101|101", 27)
    ∷ (none, 252, "|11111111|11111111|11111101|110", 27)
    ∷ (none, 253, "|11111111|11111111|11111101|111", 27)
    ∷ (none, 254, "|11111111|11111111|11111110|000", 27)
    ∷ (none, 255, "|11111111|11111111|11111011|10", 26)
    ∷ (none, 256, "|11111111|11111111|11111111|111111", 30)
    ∷ more

unfoldable pub huffman_rows : List Row
huffman_rows = rows_0 (rows_1 (rows_2 (rows_3 [])))
