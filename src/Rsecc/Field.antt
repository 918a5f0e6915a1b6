-- ===== src/Rsecc/Field.antt =====
-- The tables of rsecc.c and the field that they stand for: multiplication by the primitive element
-- is additive, and the entries of `alpha` are its powers.
use libqrencode.Prelude.{
  ℕ, zero, suc, ◌+◌, ◌%◌, ◌<◌, bit_xor, Bool, true, List, [], ◌∷◌, ◌≡◌, refl, sym, ap, ◌∙◌, get_or,
  ◌==◌, ==→eq, ltb, ltb→lt, arith, ◌≢◌, ◌&&◌, if◌then◌else◌,
}
use libqrencode.Prelude.Tables.{all_below, all_below_sound}
use libqrencode.Rsecc.{Tables, init_lookup_table, lookup_loop, next_power, symbols, power, index}

-- The tables, written out.
unfoldable pub alpha_values : List ℕ
alpha_values =
    1 ∷ 2 ∷ 4 ∷ 8 ∷ 16 ∷ 32 ∷ 64 ∷ 128 ∷ 29 ∷ 58 ∷ 116 ∷ 232 ∷ 205 ∷ 135 ∷ 19 ∷ 38 ∷ 76 ∷ 152 ∷ 45
    ∷ 90 ∷ 180 ∷ 117 ∷ 234 ∷ 201 ∷ 143 ∷ 3 ∷ 6 ∷ 12 ∷ 24 ∷ 48 ∷ 96 ∷ 192 ∷ 157 ∷ 39 ∷ 78 ∷ 156 ∷ 37
    ∷ 74 ∷ 148 ∷ 53 ∷ 106 ∷ 212 ∷ 181 ∷ 119 ∷ 238 ∷ 193 ∷ 159 ∷ 35 ∷ 70 ∷ 140 ∷ 5 ∷ 10 ∷ 20 ∷ 40
    ∷ 80 ∷ 160 ∷ 93 ∷ 186 ∷ 105 ∷ 210 ∷ 185 ∷ 111 ∷ 222 ∷ 161 ∷ 95 ∷ 190 ∷ 97 ∷ 194 ∷ 153 ∷ 47 ∷ 94
    ∷ 188 ∷ 101 ∷ 202 ∷ 137 ∷ 15 ∷ 30 ∷ 60 ∷ 120 ∷ 240 ∷ 253 ∷ 231 ∷ 211 ∷ 187 ∷ 107 ∷ 214 ∷ 177
    ∷ 127 ∷ 254 ∷ 225 ∷ 223 ∷ 163 ∷ 91 ∷ 182 ∷ 113 ∷ 226 ∷ 217 ∷ 175 ∷ 67 ∷ 134 ∷ 17 ∷ 34 ∷ 68 ∷ 136
    ∷ 13 ∷ 26 ∷ 52 ∷ 104 ∷ 208 ∷ 189 ∷ 103 ∷ 206 ∷ 129 ∷ 31 ∷ 62 ∷ 124 ∷ 248 ∷ 237 ∷ 199 ∷ 147 ∷ 59
    ∷ 118 ∷ 236 ∷ 197 ∷ 151 ∷ 51 ∷ 102 ∷ 204 ∷ 133 ∷ 23 ∷ 46 ∷ 92 ∷ 184 ∷ 109 ∷ 218 ∷ 169 ∷ 79 ∷ 158
    ∷ 33 ∷ 66 ∷ 132 ∷ 21 ∷ 42 ∷ 84 ∷ 168 ∷ 77 ∷ 154 ∷ 41 ∷ 82 ∷ 164 ∷ 85 ∷ 170 ∷ 73 ∷ 146 ∷ 57 ∷ 114
    ∷ 228 ∷ 213 ∷ 183 ∷ 115 ∷ 230 ∷ 209 ∷ 191 ∷ 99 ∷ 198 ∷ 145 ∷ 63 ∷ 126 ∷ 252 ∷ 229 ∷ 215 ∷ 179
    ∷ 123 ∷ 246 ∷ 241 ∷ 255 ∷ 227 ∷ 219 ∷ 171 ∷ 75 ∷ 150 ∷ 49 ∷ 98 ∷ 196 ∷ 149 ∷ 55 ∷ 110 ∷ 220
    ∷ 165 ∷ 87 ∷ 174 ∷ 65 ∷ 130 ∷ 25 ∷ 50 ∷ 100 ∷ 200 ∷ 141 ∷ 7 ∷ 14 ∷ 28 ∷ 56 ∷ 112 ∷ 224 ∷ 221
    ∷ 167 ∷ 83 ∷ 166 ∷ 81 ∷ 162 ∷ 89 ∷ 178 ∷ 121 ∷ 242 ∷ 249 ∷ 239 ∷ 195 ∷ 155 ∷ 43 ∷ 86 ∷ 172 ∷ 69
    ∷ 138 ∷ 9 ∷ 18 ∷ 36 ∷ 72 ∷ 144 ∷ 61 ∷ 122 ∷ 244 ∷ 245 ∷ 247 ∷ 243 ∷ 251 ∷ 235 ∷ 203 ∷ 139 ∷ 11
    ∷ 22 ∷ 44 ∷ 88 ∷ 176 ∷ 125 ∷ 250 ∷ 233 ∷ 207 ∷ 131 ∷ 27 ∷ 54 ∷ 108 ∷ 216 ∷ 173 ∷ 71 ∷ 142 ∷ 0
    ∷ []

unfoldable pub index_values : List ℕ
index_values =
    255 ∷ 0 ∷ 1 ∷ 25 ∷ 2 ∷ 50 ∷ 26 ∷ 198 ∷ 3 ∷ 223 ∷ 51 ∷ 238 ∷ 27 ∷ 104 ∷ 199 ∷ 75 ∷ 4 ∷ 100 ∷ 224
    ∷ 14 ∷ 52 ∷ 141 ∷ 239 ∷ 129 ∷ 28 ∷ 193 ∷ 105 ∷ 248 ∷ 200 ∷ 8 ∷ 76 ∷ 113 ∷ 5 ∷ 138 ∷ 101 ∷ 47
    ∷ 225 ∷ 36 ∷ 15 ∷ 33 ∷ 53 ∷ 147 ∷ 142 ∷ 218 ∷ 240 ∷ 18 ∷ 130 ∷ 69 ∷ 29 ∷ 181 ∷ 194 ∷ 125 ∷ 106
    ∷ 39 ∷ 249 ∷ 185 ∷ 201 ∷ 154 ∷ 9 ∷ 120 ∷ 77 ∷ 228 ∷ 114 ∷ 166 ∷ 6 ∷ 191 ∷ 139 ∷ 98 ∷ 102 ∷ 221
    ∷ 48 ∷ 253 ∷ 226 ∷ 152 ∷ 37 ∷ 179 ∷ 16 ∷ 145 ∷ 34 ∷ 136 ∷ 54 ∷ 208 ∷ 148 ∷ 206 ∷ 143 ∷ 150 ∷ 219
    ∷ 189 ∷ 241 ∷ 210 ∷ 19 ∷ 92 ∷ 131 ∷ 56 ∷ 70 ∷ 64 ∷ 30 ∷ 66 ∷ 182 ∷ 163 ∷ 195 ∷ 72 ∷ 126 ∷ 110
    ∷ 107 ∷ 58 ∷ 40 ∷ 84 ∷ 250 ∷ 133 ∷ 186 ∷ 61 ∷ 202 ∷ 94 ∷ 155 ∷ 159 ∷ 10 ∷ 21 ∷ 121 ∷ 43 ∷ 78
    ∷ 212 ∷ 229 ∷ 172 ∷ 115 ∷ 243 ∷ 167 ∷ 87 ∷ 7 ∷ 112 ∷ 192 ∷ 247 ∷ 140 ∷ 128 ∷ 99 ∷ 13 ∷ 103 ∷ 74
    ∷ 222 ∷ 237 ∷ 49 ∷ 197 ∷ 254 ∷ 24 ∷ 227 ∷ 165 ∷ 153 ∷ 119 ∷ 38 ∷ 184 ∷ 180 ∷ 124 ∷ 17 ∷ 68 ∷ 146
    ∷ 217 ∷ 35 ∷ 32 ∷ 137 ∷ 46 ∷ 55 ∷ 63 ∷ 209 ∷ 91 ∷ 149 ∷ 188 ∷ 207 ∷ 205 ∷ 144 ∷ 135 ∷ 151 ∷ 178
    ∷ 220 ∷ 252 ∷ 190 ∷ 97 ∷ 242 ∷ 86 ∷ 211 ∷ 171 ∷ 20 ∷ 42 ∷ 93 ∷ 158 ∷ 132 ∷ 60 ∷ 57 ∷ 83 ∷ 71
    ∷ 109 ∷ 65 ∷ 162 ∷ 31 ∷ 45 ∷ 67 ∷ 216 ∷ 183 ∷ 123 ∷ 164 ∷ 118 ∷ 196 ∷ 23 ∷ 73 ∷ 236 ∷ 127 ∷ 12
    ∷ 111 ∷ 246 ∷ 108 ∷ 161 ∷ 59 ∷ 82 ∷ 41 ∷ 157 ∷ 85 ∷ 170 ∷ 251 ∷ 96 ∷ 134 ∷ 177 ∷ 187 ∷ 204 ∷ 62
    ∷ 90 ∷ 203 ∷ 89 ∷ 95 ∷ 176 ∷ 156 ∷ 169 ∷ 160 ∷ 81 ∷ 11 ∷ 245 ∷ 22 ∷ 235 ∷ 122 ∷ 117 ∷ 44 ∷ 215
    ∷ 79 ∷ 174 ∷ 213 ∷ 233 ∷ 230 ∷ 231 ∷ 173 ∷ 232 ∷ 116 ∷ 214 ∷ 244 ∷ 234 ∷ 168 ∷ 80 ∷ 88 ∷ 175
    ∷ []

unfoldable pub written : Tables
written = record { alpha = alpha_values; aindex = index_values }

pub init_lookup_table-written : init_lookup_table ≡ written
unfolding written init_lookup_table lookup_loop alpha_values index_values
init_lookup_table-written = refl

additive_table :
    all_below 256
      (λ x. all_below 256 (λ y. next_power (bit_xor x y) == bit_xor (next_power x) (next_power y)))
    ≡ true
unfolding all_below
additive_table = refl

byte_table : all_below 256 (λ x. ltb (next_power x) 256) ≡ true
unfolding all_below
byte_table = refl

next_power-IsByte : (x : ℕ) → x < 256 → next_power x < 256
next_power-IsByte x h =
    ltb→lt (next_power x) 256 (all_below_sound 256 (λ k. ltb (next_power k) 256) x byte_table h)

next_power-additive :
    (x y : ℕ) → x < 256 → y < 256 → next_power (bit_xor x y) ≡ bit_xor (next_power x) (next_power y)
next_power-additive x y hx hy = ==→eq _ _ (all_below_sound 256 (equal x) y (row x hx) hy)
  where
    equal : ℕ → ℕ → Bool
    equal a b = next_power (bit_xor a b) == bit_xor (next_power a) (next_power b)

    row : (a : ℕ) → a < 256 → all_below 256 (equal a) ≡ true
    row a h = all_below_sound 256 (λ k. all_below 256 (equal k)) a additive_table h

-- Multiplication by the k-th power of the primitive element.
unfoldable pub times : ℕ → ℕ → ℕ
times zero x = x
times (suc k) x = next_power (times k x)

pub times-byte : (k x : ℕ) → x < 256 → times k x < 256
unfolding times
times-byte zero x h = h
times-byte (suc k) x h = next_power-IsByte (times k x) (times-byte k x h)

pub times-zero : (k : ℕ) → times k 0 ≡ 0
unfolding times
times-zero zero = refl
times-zero (suc k) = ap next_power (times-zero k)

pub times-additive :
    (k x y : ℕ) → x < 256 → y < 256 → times k (bit_xor x y) ≡ bit_xor (times k x) (times k y)
unfolding times
times-additive zero x y hx hy = refl
times-additive (suc k) x y hx hy =
    ap next_power (times-additive k x y hx hy)
    ∙ next_power-additive (times k x) (times k y) (times-byte k x hx) (times-byte k y hy)

pub times-next : (k x : ℕ) → times k (next_power x) ≡ next_power (times k x)
unfolding times
times-next zero x = refl
times-next (suc k) x = ap next_power (times-next k x)

pub times-times : (j k x : ℕ) → times j (times k x) ≡ times k (times j x)
unfolding times
times-times zero k x = refl
times-times (suc j) k x = ap next_power (times-times j k x) ∙ sym (times-next k (times j x))

pub times_sum : (j k x : ℕ) → times (j + k) x ≡ times j (times k x)
unfolding times
times_sum zero k x = let start : 0 + k ≡ k = omega arith in ap (λ n. times n x) start
times_sum (suc j) k x =
    let grown : suc j + k ≡ suc (j + k) = omega arith in
    ap (λ n. times n x) grown ∙ ap next_power (times_sum j k x)

power_table : all_below 255 (λ e. next_power (power written e) == power written (e + 1)) ≡ true
unfolding all_below written alpha_values
power_table = refl

power-suc : (e : ℕ) → power written (suc e) ≡ next_power (power written e)
power-suc e =
    ap (λ k. get_or written.alpha k 0) reduced
    ∙ sym (
        ==→eq _ _ (
          all_below_sound 255 (λ k. next_power (power written k) == power written (k + 1)) (e % 255)
            power_table (omega arith)))
    ∙ ap (λ k. next_power (get_or written.alpha k 0)) reduced_twice
  where
    reduced : suc e % 255 ≡ (e % 255 + 1) % 255
    reduced = omega arith

    reduced_twice : e % 255 % 255 ≡ e % 255
    reduced_twice = omega arith

first_power : power written 0 ≡ 1
unfolding written alpha_values
first_power = refl

-- The entries of `alpha` are the powers.
pub power-times : (e : ℕ) → power written e ≡ times e 1
unfolding times
power-times zero = first_power
power-times (suc e) = power-suc e ∙ ap next_power (power-times e)

index_table :
    all_below 256 (λ x.
      if x == 0
      then index written x == symbols
      else ltb (index written x) symbols && (power written (index written x) == x))
    ≡ true
unfolding all_below written alpha_values index_values
index_table = refl

index_case :
    (x i p : ℕ)
    → (if x == 0 then i == symbols else ltb i symbols && (p == x)) ≡ true
    → (x ≡ 0 → i ≡ symbols) × (x ≢ 0 → (i < symbols) × (p ≡ x))
index_case x i p h = (λ e. ground arith, λ ne. ground arith)

-- `aindex` gives the exponent of each byte but 0, and `symbols` for 0.
pub index_lem :
    (x : ℕ)
    → x < 256
    → (x ≡ 0 → index written x ≡ symbols)
      × (x ≢ 0 → (index written x < symbols) × (power written (index written x) ≡ x))
index_lem x h = index_case x (index written x) (power written (index written x)) (
    all_below_sound 256
      (λ k.
        if k == 0
        then index written k == symbols
        else ltb (index written k) symbols && (power written (index written k) == k))
      x index_table h)
