-- ===== src/Text.antt =====
-- Strings of C, as the list of their bytes up to the NUL: the helpers of src/kernel.c and of
-- src/drivers/fs.c.
use rpi4_bare_metal_os.Prelude.{
  ℕ, zero, suc, ◌+◌, ◌-◌, ◌*◌, ◌%◌, ◌^◌, ◌≡◌, ◌↔◌, Bool, true, false, ◌&&◌, List, [], ◌∷◌, ◌++◌,
  ltb, leb, length, length-append, max, ◌≤◌, ◌==◌, if◌then◌else◌, arith,
}

-- `str_eq(s1, s2)`, and `fs_strcmp(s1, s2) == 0`
unfoldable pub str_eq : List ℕ → List ℕ → Bool
str_eq [] [] = true
str_eq [] (y ∷ ys) = false
str_eq (x ∷ xs) [] = false
str_eq (x ∷ xs) (y ∷ ys) = x == y && str_eq xs ys

-- `str_neq(s1, s2, n) != 0`: the first `n` bytes differ
unfoldable pub str_neq : List ℕ → List ℕ → ℕ → Bool
str_neq xs ys zero = false
str_neq [] [] (suc n) = false
str_neq [] (y ∷ ys) (suc n) = true
str_neq (x ∷ xs) [] (suc n) = true
str_neq (x ∷ xs) (y ∷ ys) (suc n) = if x == y then str_neq xs ys n else true

-- `while (*p && pos < limit) buf[pos++] = *p++;`
unfoldable pub put_bytes : (limit : ℕ) → (buf bytes : List ℕ) → List ℕ
put_bytes limit buf [] = buf
put_bytes limit buf (c ∷ cs) =
    let later = put_bytes limit (buf ++ c ∷ []) cs in if ltb (length buf) limit then later else buf

-- The loop of parse_num, 64 bits wide.
unfoldable pub parse_digits : ℕ → List ℕ → ℕ
parse_digits value [] = value
parse_digits value (c ∷ cs) =
    let later = parse_digits ((value * 10 + (c - b'0')) % 2 ^ 64) cs in
    if leb b'0' c && leb c b'9' then later else value

unfoldable pub parse_num : List ℕ → ℕ
parse_num s = parse_digits 0 s

-- str_eq is equality of the bytes.
pub str_eq_iff : (xs ys : List ℕ) → (str_eq xs ys ≡ true) ↔ (xs ≡ ys)
unfolding str_eq
str_eq_iff [] [] = ground arith
str_eq_iff [] (y ∷ ys) = ground arith
str_eq_iff (x ∷ xs) [] = ground arith
str_eq_iff (x ∷ xs) (y ∷ ys) = ground (arith, str_eq_iff xs ys)

-- The copy stays within the limit, or adds nothing.
pub length-put_bytes :
    (limit : ℕ) (buf bytes : List ℕ) → length (put_bytes limit buf bytes) ≤ max limit (length buf)
unfolding put_bytes
length-put_bytes limit buf [] = omega arith
length-put_bytes limit buf (c ∷ cs) =
    ground (arith, length-put_bytes limit (buf ++ c ∷ []) cs, length-append buf (c ∷ []))
