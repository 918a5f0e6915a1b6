-- ===== src/QrSpec/Tables.antt =====
-- The tables of qrspec.c, indexed by the version, and by the error correction level.
use libqrencode.Prelude.{ℕ, List, [], ◌∷◌}

-- `QRspec_Capacity`; `ec` has an entry for each level.
pub record Capacity : Type 0 where
  pub width : ℕ
  pub words : ℕ
  pub remainder : ℕ
  pub ec : List ℕ

-- A line of `qrspecCapacity`.
abbrev pub entry : ℕ → ℕ → ℕ → ℕ → ℕ → ℕ → ℕ → Capacity
entry width words remainder l m q h = record {
  width = width;
  words = words;
  remainder = remainder;
  ec = l ∷ m ∷ q ∷ h ∷ [];
}

unfoldable pub qrspec_capacity : List Capacity
qrspec_capacity =
    (entry 0 0 0 0 0 0 0)
    ∷ (entry 21 26 0 7 10 13 17)
    ∷ (entry 25 44 7 10 16 22 28)
    ∷ (entry 29 70 7 15 26 36 44)
    ∷ (entry 33 100 7 20 36 52 64)
    ∷ (entry 37 134 7 26 48 72 88)
    ∷ (entry 41 172 7 36 64 96 112)
    ∷ (entry 45 196 0 40 72 108 130)
    ∷ (entry 49 242 0 48 88 132 156)
    ∷ (entry 53 292 0 60 110 160 192)
    ∷ (entry 57 346 0 72 130 192 224)
    ∷ (entry 61 404 0 80 150 224 264)
    ∷ (entry 65 466 0 96 176 260 308)
    ∷ (entry 69 532 0 104 198 288 352)
    ∷ (entry 73 581 3 120 216 320 384)
    ∷ (entry 77 655 3 132 240 360 432)
    ∷ (entry 81 733 3 144 280 408 480)
    ∷ (entry 85 815 3 168 308 448 532)
    ∷ (entry 89 901 3 180 338 504 588)
    ∷ (entry 93 991 3 196 364 546 650)
    ∷ (entry 97 1085 3 224 416 600 700)
    ∷ (entry 101 1156 4 224 442 644 750)
    ∷ (entry 105 1258 4 252 476 690 816)
    ∷ (entry 109 1364 4 270 504 750 900)
    ∷ (entry 113 1474 4 300 560 810 960)
    ∷ (entry 117 1588 4 312 588 870 1050)
    ∷ (entry 121 1706 4 336 644 952 1110)
    ∷ (entry 125 1828 4 360 700 1020 1200)
    ∷ (entry 129 1921 3 390 728 1050 1260)
    ∷ (entry 133 2051 3 420 784 1140 1350)
    ∷ (entry 137 2185 3 450 812 1200 1440)
    ∷ (entry 141 2323 3 480 868 1290 1530)
    ∷ (entry 145 2465 3 510 924 1350 1620)
    ∷ (entry 149 2611 3 540 980 1440 1710)
    ∷ (entry 153 2761 3 570 1036 1530 1800)
    ∷ (entry 157 2876 0 570 1064 1590 1890)
    ∷ (entry 161 3034 0 600 1120 1680 1980)
    ∷ (entry 165 3196 0 630 1204 1770 2100)
    ∷ (entry 169 3362 0 660 1260 1860 2220)
    ∷ (entry 173 3532 0 720 1316 1950 2310)
    ∷ (entry 177 3706 0 750 1372 2040 2430)
    ∷ []

-- The numbers of blocks of the two sizes.
abbrev pub Blocks : Type 0
Blocks = List (ℕ × ℕ)

abbrev pub blocks : ℕ → ℕ → ℕ → ℕ → ℕ → ℕ → ℕ → ℕ → Blocks
blocks l l' m m' q q' h h' = (l, l') ∷ (m, m') ∷ (q, q') ∷ (h, h') ∷ []

unfoldable pub ecc_table : List Blocks
ecc_table =
    (blocks 0 0 0 0 0 0 0 0)
    ∷ (blocks 1 0 1 0 1 0 1 0)
    ∷ (blocks 1 0 1 0 1 0 1 0)
    ∷ (blocks 1 0 1 0 2 0 2 0)
    ∷ (blocks 1 0 2 0 2 0 4 0)
    ∷ (blocks 1 0 2 0 2 2 2 2)
    ∷ (blocks 2 0 4 0 4 0 4 0)
    ∷ (blocks 2 0 4 0 2 4 4 1)
    ∷ (blocks 2 0 2 2 4 2 4 2)
    ∷ (blocks 2 0 3 2 4 4 4 4)
    ∷ (blocks 2 2 4 1 6 2 6 2)
    ∷ (blocks 4 0 1 4 4 4 3 8)
    ∷ (blocks 2 2 6 2 4 6 7 4)
    ∷ (blocks 4 0 8 1 8 4 12 4)
    ∷ (blocks 3 1 4 5 11 5 11 5)
    ∷ (blocks 5 1 5 5 5 7 11 7)
    ∷ (blocks 5 1 7 3 15 2 3 13)
    ∷ (blocks 1 5 10 1 1 15 2 17)
    ∷ (blocks 5 1 9 4 17 1 2 19)
    ∷ (blocks 3 4 3 11 17 4 9 16)
    ∷ (blocks 3 5 3 13 15 5 15 10)
    ∷ (blocks 4 4 17 0 17 6 19 6)
    ∷ (blocks 2 7 17 0 7 16 34 0)
    ∷ (blocks 4 5 4 14 11 14 16 14)
    ∷ (blocks 6 4 6 14 11 16 30 2)
    ∷ (blocks 8 4 8 13 7 22 22 13)
    ∷ (blocks 10 2 19 4 28 6 33 4)
    ∷ (blocks 8 4 22 3 8 26 12 28)
    ∷ (blocks 3 10 3 23 4 31 11 31)
    ∷ (blocks 7 7 21 7 1 37 19 26)
    ∷ (blocks 5 10 19 10 15 25 23 25)
    ∷ (blocks 13 3 2 29 42 1 23 28)
    ∷ (blocks 17 0 10 23 10 35 19 35)
    ∷ (blocks 17 1 14 21 29 19 11 46)
    ∷ (blocks 13 6 14 23 44 7 59 1)
    ∷ (blocks 12 7 12 26 39 14 22 41)
    ∷ (blocks 6 14 6 34 46 10 2 64)
    ∷ (blocks 17 4 29 14 49 10 24 46)
    ∷ (blocks 4 18 13 32 48 14 42 32)
    ∷ (blocks 20 4 40 7 43 22 10 67)
    ∷ (blocks 19 6 18 31 34 34 20 61)
    ∷ []

-- The second and the third position of the alignment patterns.
unfoldable pub alignment_pattern : List (ℕ × ℕ)
alignment_pattern =
    (0, 0)
    ∷ (0, 0)
    ∷ (18, 0)
    ∷ (22, 0)
    ∷ (26, 0)
    ∷ (30, 0)
    ∷ (34, 0)
    ∷ (22, 38)
    ∷ (24, 42)
    ∷ (26, 46)
    ∷ (28, 50)
    ∷ (30, 54)
    ∷ (32, 58)
    ∷ (34, 62)
    ∷ (26, 46)
    ∷ (26, 48)
    ∷ (26, 50)
    ∷ (30, 54)
    ∷ (30, 56)
    ∷ (30, 58)
    ∷ (34, 62)
    ∷ (28, 50)
    ∷ (26, 50)
    ∷ (30, 54)
    ∷ (28, 54)
    ∷ (32, 58)
    ∷ (30, 58)
    ∷ (34, 62)
    ∷ (26, 50)
    ∷ (30, 54)
    ∷ (26, 52)
    ∷ (30, 56)
    ∷ (34, 60)
    ∷ (30, 58)
    ∷ (34, 62)
    ∷ (30, 54)
    ∷ (24, 50)
    ∷ (28, 54)
    ∷ (32, 58)
    ∷ (26, 54)
    ∷ (30, 58)
    ∷ []

-- From version 7 on.
unfoldable pub version_pattern : List ℕ
version_pattern =
    0x07c94 ∷ 0x085bc ∷ 0x09a99 ∷ 0x0a4d3 ∷ 0x0bbf6 ∷ 0x0c762 ∷ 0x0d847 ∷ 0x0e60d ∷ 0x0f928
    ∷ 0x10b78 ∷ 0x1145d ∷ 0x12a17 ∷ 0x13532 ∷ 0x149a6 ∷ 0x15683 ∷ 0x168c9 ∷ 0x177ec ∷ 0x18ec4
    ∷ 0x191e1 ∷ 0x1afab ∷ 0x1b08e ∷ 0x1cc1a ∷ 0x1d33f ∷ 0x1ed75 ∷ 0x1f250 ∷ 0x209d5 ∷ 0x216f0
    ∷ 0x228ba ∷ 0x2379f ∷ 0x24b0b ∷ 0x2542e ∷ 0x26a64 ∷ 0x27541 ∷ 0x28c69 ∷ []

unfoldable pub format_info : List (List ℕ)
format_info =
    (0x77c4 ∷ 0x72f3 ∷ 0x7daa ∷ 0x789d ∷ 0x662f ∷ 0x6318 ∷ 0x6c41 ∷ 0x6976 ∷ [])
    ∷ (0x5412 ∷ 0x5125 ∷ 0x5e7c ∷ 0x5b4b ∷ 0x45f9 ∷ 0x40ce ∷ 0x4f97 ∷ 0x4aa0 ∷ [])
    ∷ (0x355f ∷ 0x3068 ∷ 0x3f31 ∷ 0x3a06 ∷ 0x24b4 ∷ 0x2183 ∷ 0x2eda ∷ 0x2bed ∷ [])
    ∷ (0x1689 ∷ 0x13be ∷ 0x1ce7 ∷ 0x19d0 ∷ 0x0762 ∷ 0x0255 ∷ 0x0d0c ∷ 0x083b ∷ [])
    ∷ []
