-- ===== src/Strings/Text.antt =====
-- The functions of lib/string.c on strings. `char` is unsigned, as it is on RISC-V. A loop runs on
-- fuel, which the caller gives; `none` is the end of the fuel.
use riscv_mos.Base.{
  ℕ, zero, suc, ◌+◌, ◌^◌, ◌<◌, ◌≡◌, ◌≢◌, ap, ◌∙◌, arith, not, ◌&&◌, ◌==◌, ltb, if◌then◌else◌,
  Option, none, some, List, [], ◌∷◌, length, ℤ, pos, neg, sign_extend,
}
use mathlib.Core.Option.{map}
use riscv_mos.Mem.{Mem, store8}

-- `strlen` from `s` with `n` characters counted; the result goes from `int` to `size_t`.
unfoldable pub strlen_loop : ℕ → (s n : ℕ) → Mem → Option ℕ
strlen_loop zero s n m = none
strlen_loop (suc fuel) s n m =
    let rest = strlen_loop fuel (s + 1) (n + 1) m in
    if not (m s == 0) then rest else some (sign_extend n)

unfoldable pub strlen : (fuel s : ℕ) → Mem → Option ℕ
strlen fuel s m = strlen_loop fuel s 0 m

-- The inner option is the pointer, which may be NULL.
unfoldable pub strchr : (fuel s c : ℕ) → Mem → Option (Option ℕ)
strchr zero s c m = none
strchr (suc fuel) s c m =
    let rest = strchr fuel (s + 1) c m in
    if m s == 0 then some none else if m s == c then some (some s) else rest

unfoldable pub strcmp : (fuel p q : ℕ) → Mem → Option ℤ
strcmp zero p q m = none
strcmp (suc fuel) p q m =
    let rest = strcmp fuel (p + 1) (q + 1) m in
    if not (m p == 0) && m p == m q
    then rest
    else if ltb (m p) (m q)
    then some (neg 1)
    else if ltb (m q) (m p)
    then some (pos 1)
    else some (pos 0)

-- `strcpy`, with the value that it returns and the memory.
abbrev pub strcpy_loop : ℕ → (dst src : ℕ) → Mem → Option Mem
strcpy_loop zero dst src m = none
strcpy_loop (suc fuel) dst src m =
    let rest = strcpy_loop fuel (dst + 1) (src + 1) (store8 m dst (m src)) in
    if not (m src == 0) then rest else some (store8 m dst (m src))

abbrev pub strcpy : (fuel dst src : ℕ) → Mem → Option (ℕ × Mem)
strcpy fuel dst src m = map (λ n. (dst, n)) (strcpy_loop fuel dst src m)

-- The string at an address: its characters, none of them 0, and then 0.
abbrev pub IsText : Mem → ℕ → List ℕ → Type 0
IsText m s [] = m s ≡ 0
IsText m s (x ∷ xs) = (m s ≡ x) × (x ≢ 0) × IsText m (s + 1) xs

strlen_loop-length :
    (fuel s n : ℕ) (m : Mem) (xs : List ℕ)
    → IsText m s xs
    → length xs < fuel
    → strlen_loop fuel s n m ≡ some (sign_extend (n + length xs))
unfolding strlen_loop
strlen_loop-length zero s n m xs t h = absurd (omega arith)
strlen_loop-length (suc f) s n m [] t h =
    let e : n ≡ n + 0 = omega arith in rw t (ap (λ k. some (sign_extend k)) e)
strlen_loop-length (suc f) s n m (x ∷ xs) (e, ne, t) h =
    ground (arith, strlen_loop-length f (s + 1) (n + 1) m xs t)

-- With more fuel than characters, and fewer than 2^31 of them, `strlen` returns the length of the string.
pub strlen-length :
    (fuel s : ℕ) (m : Mem) (xs : List ℕ)
    → IsText m s xs
    → length xs < fuel
    → length xs < 2 ^ 31
    → strlen fuel s m ≡ some (length xs)
unfolding strlen
strlen-length fuel s m xs t h small =
    let same : sign_extend (0 + length xs) ≡ length xs = ground arith in
    strlen_loop-length fuel s 0 m xs t h ∙ ap (λ k. some k) same

-- The order of strings by their first difference; a string comes after its beginnings.
abbrev pub text_order : (xs ys : List ℕ) → ℤ
text_order [] [] = pos 0
text_order [] (y ∷ ys) = neg 1
text_order (x ∷ xs) [] = pos 1
text_order (x ∷ xs) (y ∷ ys) =
    if ltb x y then neg 1 else if ltb y x then pos 1 else text_order xs ys

-- With more fuel than characters in the first string, `strcmp` returns the order of the two strings.
pub strcmp-order :
    (fuel p q : ℕ) (m : Mem) (xs ys : List ℕ)
    → IsText m p xs
    → IsText m q ys
    → length xs < fuel
    → strcmp fuel p q m ≡ some (text_order xs ys)
unfolding strcmp
strcmp-order zero p q m xs ys t u h = absurd (omega arith)
strcmp-order (suc f) p q m [] [] t u h = ground arith
strcmp-order (suc f) p q m [] (y ∷ ys) t (e, ne, u) h = ground arith
strcmp-order (suc f) p q m (x ∷ xs) [] (e, ne, t) u h = ground arith
strcmp-order (suc f) p q m (x ∷ xs) (y ∷ ys) (e, ne, t) (e', ne', u) h =
    ground (arith, strcmp-order f (p + 1) (q + 1) m xs ys t u)

-- The address of the first character `c`, if there is one.
abbrev pub first_at : (s c : ℕ) → List ℕ → Option ℕ
first_at s c [] = none
first_at s c (x ∷ xs) = if x == c then some s else first_at (s + 1) c xs

-- With more fuel than characters, `strchr` returns a pointer to the first `c` of the string, or NULL if
-- there is none.
pub strchr-first_at :
    (fuel s c : ℕ) (m : Mem) (xs : List ℕ)
    → IsText m s xs
    → length xs < fuel
    → strchr fuel s c m ≡ some (first_at s c xs)
unfolding strchr
strchr-first_at zero s c m xs t h = absurd (omega arith)
strchr-first_at (suc f) s c m [] t h = ground arith
strchr-first_at (suc f) s c m (x ∷ xs) (e, ne, t) h =
    ground (arith, strchr-first_at f (s + 1) c m xs t)
